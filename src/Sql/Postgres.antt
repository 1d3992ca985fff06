-- ===== src/Sql/Postgres.antt =====
-- The statements of `provisionPostgreSQL`, `provisionPostgreSQLExtensions` and
-- `dropPostgreSQLDatabase`.
use homelab_db_provisioner.Prelude.{[], ◌∷◌, List, ◌++◌, Text, txt, join}
use homelab_db_provisioner.Config.{DatabaseConfig}
use homelab_db_provisioner.Sql.Escape.{quote_identifier, escape_string}

-- The tail that CREATE USER and ALTER USER share.
unfoldable pub with_password : DatabaseConfig → Text
with_password c =
    quote_identifier c.user ++ (txt " WITH PASSWORD '" ++ (escape_string c.password ++ txt "'"))

unfoldable pub create_user : DatabaseConfig → Text
unfolding with_password
create_user c = txt "CREATE USER " ++ with_password c

unfoldable pub alter_user : DatabaseConfig → Text
unfolding with_password
alter_user c = txt "ALTER USER " ++ with_password c

unfoldable pub create_database : DatabaseConfig → Text
create_database c =
    txt "CREATE DATABASE "
    ++ (quote_identifier c.database ++ (txt " OWNER " ++ quote_identifier c.user))

unfoldable pub alter_owner : DatabaseConfig → Text
alter_owner c =
    txt "ALTER DATABASE "
    ++ (quote_identifier c.database ++ (txt " OWNER TO " ++ quote_identifier c.user))

-- The privileges of a GRANT, all by default.
unfoldable pub privileges : List Text → Text
privileges [] = txt "ALL PRIVILEGES"
privileges (p ∷ ps) = join (txt ", ") (p ∷ ps)

unfoldable pub grant : DatabaseConfig → Text
unfolding privileges
grant c =
    txt "GRANT "
    ++ (privileges c.permissions
        ++ (txt " ON DATABASE "
            ++ (quote_identifier c.database ++ (txt " TO " ++ quote_identifier c.user))))

unfoldable pub refresh_collation : Text
refresh_collation = txt "ALTER DATABASE template1 REFRESH COLLATION VERSION"

unfoldable pub create_extension : Text → Text
create_extension ext = txt "CREATE EXTENSION IF NOT EXISTS " ++ quote_identifier ext

unfoldable pub drop_database : Text → Text
drop_database database = txt "DROP DATABASE " ++ (quote_identifier database ++ txt " WITH (FORCE)")

unfoldable pub user_exists : Text
user_exists = txt "SELECT EXISTS(SELECT 1 FROM pg_roles WHERE rolname = $1)"

unfoldable pub database_exists : Text
database_exists = txt "SELECT EXISTS(SELECT 1 FROM pg_database WHERE datname = $1)"

unfoldable pub count_rows : Text → Text → Text
count_rows schema name =
    txt "SELECT count(*) FROM " ++ (quote_identifier schema ++ (txt "." ++ quote_identifier name))
