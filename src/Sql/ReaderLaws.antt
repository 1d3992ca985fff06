-- ===== src/Sql/ReaderLaws.antt =====
-- What the statements that provisioning executes say to a reader of SQL.
use homelab_db_provisioner.Prelude.{◌≡◌, refl, true, ◌++◌, Text, txt, starts_with, free_of, text_eq}
use homelab_db_provisioner.Config.{DatabaseConfig}
use homelab_db_provisioner.Sql.Escape.{quote_identifier}
use homelab_db_provisioner.Sql.Postgres
use homelab_db_provisioner.Sql.Reader.{
  Statement, create_role, alter_role, create_database, set_owner, create_extension,
  refresh_collation, unknown, login, or_else, quote, after, read_name, read_login, read_names,
  read_extension, read_collation, is_words, read_grant, read,
}
use homelab_db_provisioner.Sql.ReaderParts.{
  read_login_lem, read_names_lem, read_grant_lem, read_name-end,
}

-- What the first words choose.
read-create_user_form :
    (r : Text)
    → read (txt "CREATE USER " ++ r)
      ≡ or_else (login create_role) (unknown (txt "CREATE USER " ++ r)) (read_login r)
unfolding read after starts_with txt
read-create_user_form r = refl

read-alter_user_form :
    (r : Text)
    → read (txt "ALTER USER " ++ r)
      ≡ or_else (login alter_role) (unknown (txt "ALTER USER " ++ r)) (read_login r)
unfolding read after starts_with txt
read-alter_user_form r = refl

read-create_database_form :
    (r : Text)
    → read (txt "CREATE DATABASE " ++ r)
      ≡ or_else
          (login create_database)
          (unknown (txt "CREATE DATABASE " ++ r))
          (read_names (txt " OWNER ") r)
unfolding read after starts_with txt
read-create_database_form r = refl

read-alter_database_form :
    (r : Text)
    → read (txt "ALTER DATABASE " ++ r)
      ≡ or_else
          (login set_owner)
          (read_collation (txt "ALTER DATABASE " ++ r) r)
          (read_names (txt " OWNER TO ") r)
unfolding read after starts_with txt
read-alter_database_form r = refl

read-grant_form :
    (r : Text)
    → read (txt "GRANT " ++ r) ≡ or_else (λ g. g) (unknown (txt "GRANT " ++ r)) (read_grant r)
unfolding read after starts_with txt
read-grant_form r = refl

read-extension_form :
    (r : Text)
    → read (txt "CREATE EXTENSION IF NOT EXISTS " ++ r)
      ≡ or_else create_extension
          (unknown (txt "CREATE EXTENSION IF NOT EXISTS " ++ r))
          (read_extension r)
unfolding read after starts_with txt
read-extension_form r = refl

pub read-create_user :
    (c : DatabaseConfig)
    → free_of quote c.user ≡ true
    → read (Postgres.create_user c) ≡ create_role c.user c.password
unfolding Postgres.create_user Postgres.with_password
read-create_user c h = rw (read-create_user_form _, read_login_lem c.user c.password h) refl

pub read-alter_user :
    (c : DatabaseConfig)
    → free_of quote c.user ≡ true
    → read (Postgres.alter_user c) ≡ alter_role c.user c.password
unfolding Postgres.alter_user Postgres.with_password
read-alter_user c h = rw (read-alter_user_form _, read_login_lem c.user c.password h) refl

pub read-create_database :
    (c : DatabaseConfig)
    → free_of quote c.database ≡ true
    → free_of quote c.user ≡ true
    → read (Postgres.create_database c) ≡ create_database c.database c.user
unfolding Postgres.create_database
read-create_database c h k =
    rw (read-create_database_form _, read_names_lem (txt " OWNER ") c.database c.user h k) refl

pub read-alter_owner :
    (c : DatabaseConfig)
    → free_of quote c.database ≡ true
    → free_of quote c.user ≡ true
    → read (Postgres.alter_owner c) ≡ set_owner c.database c.user
unfolding Postgres.alter_owner
read-alter_owner c h k =
    rw (read-alter_database_form _, read_names_lem (txt " OWNER TO ") c.database c.user h k) refl

pub read-grant :
    (c : DatabaseConfig)
    → is_words (Postgres.privileges c.permissions) ≡ true
    → free_of quote c.database ≡ true
    → free_of quote c.user ≡ true
    → read (Postgres.grant c)
      ≡ Statement.grant (Postgres.privileges c.permissions) c.database c.user
unfolding Postgres.grant
read-grant c g h k = rw (read-grant_form _, read_grant_lem _ c.database c.user g h k) refl

pub read-refresh_collation : read Postgres.refresh_collation ≡ refresh_collation
unfolding read read_collation read_names read_name after starts_with text_eq txt
    Postgres.refresh_collation
read-refresh_collation = refl

pub read-create_extension :
    (ext : Text)
    → free_of quote ext ≡ true
    → read (Postgres.create_extension ext) ≡ create_extension ext
unfolding Postgres.create_extension read_extension
read-create_extension ext h =
    rw (read-extension_form (quote_identifier ext), read_name-end ext h) refl
