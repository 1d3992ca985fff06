-- ===== src/Migrate/CopyCalls.antt =====
-- Which calls `runMigration` makes before it marks a success.
use homelab_db_provisioner.Prelude.{
  ◌≡◌, refl, Bool, true, false, Option, none, some, List, [], ◌∷◌, Text, txt, starts_with, Result,
  ok, err,
}
use homelab_db_provisioner.Config.{
  MigrateConfig, DatabaseConfig, DatabaseServer, Config, S3Config, DbType,
}
use homelab_db_provisioner.World.{Env, Event, Err, Conn, Command, Secret, sql_exec, config_write}
use homelab_db_provisioner.World.Keeps.{
  Only, Only-pure, Only-raise, Only-bind, Only-on_err, Only-call, only_rules,
}
use homelab_db_provisioner.Sql.Postgres as Sql
use homelab_db_provisioner.Provision.Statement.{call_or, execute}
use homelab_db_provisioner.Provision.Postgres
use homelab_db_provisioner.Provision.Postgres.{provision_postgresql}
use homelab_db_provisioner.Secrets.Manager
use homelab_db_provisioner.Secrets.Manager.{apply_k8s_password}
use homelab_db_provisioner.Secrets.Password.{generate_password}
use homelab_db_provisioner.Migrate.Counts.{
  Counts, count_tables, query_table_counts, check_nonempty, verify_migration,
  verify_target_nonempty,
}
use homelab_db_provisioner.Migrate.Copy.{after_pg_dump, migrate_postgresql_data}
use homelab_db_provisioner.Migrate.Run
use homelab_db_provisioner.Backup.Restore.{
  find_newest_backup, newest_of, from_s3, or_no_file, newest_in_s3, restore_postgresql,
}
use homelab_db_provisioner.S3.{new_s3_client, download_newest_from_s3}
use homelab_db_provisioner.Secrets.PasswordLaws.{random_chars-Only}

-- A call of the copy: no statement that drops, and no write of the config.
abbrev pub IsCopying : Event → Type 0
IsCopying (sql_exec conn s) = starts_with (txt "DROP ") s ≡ false
IsCopying (config_write c) = ⊥
IsCopying _ = Unit

ruleset copy_rules = (only_rules, tt)

module _ (env : Env) where
  execute-Only :
      (conn : Conn) (label s : Text)
      → starts_with (txt "DROP ") s ≡ false
      → Only IsCopying (execute env false conn label s)
  unfolding execute call_or
  execute-Only conn label s h = Only-on_err _ _ (Only-call env _ h)

  create_database-Only :
      (conn : Conn) (config : DatabaseConfig)
      → Only IsCopying (Postgres.create_database env false conn config)
  unfolding Postgres.create_database call_or Sql.create_database Sql.refresh_collation starts_with
      txt
  create_database-Only conn config = Only-bind _ _ (search copy_rules) elim [
    | ok _ ↦ unfold Postgres.after_create in Only-pure tt
    | err e ↦ unfold Postgres.after_create in search copy_rules depth 20
  ]

  create_extensions-Only :
      (conn : Conn) (database : Text) (es : List Text)
      → Only IsCopying (Postgres.create_extensions env conn database es)
  unfolding Postgres.create_extensions call_or Sql.create_extension starts_with txt
  create_extensions-Only conn database [] = Only-pure tt
  create_extensions-Only conn database (e ∷ es) =
      Only-bind _ _ (Only-on_err _ _ (Only-call env _ refl))
        λ _. create_extensions-Only conn database es

  maybe_extensions-Only :
      (root : Text) (config : DatabaseConfig) (es : List Text)
      → Only IsCopying (Postgres.maybe_extensions env root config false es)
  unfolding Postgres.maybe_extensions Postgres.provision_extensions call_or
  maybe_extensions-Only root config [] = Only-pure tt
  maybe_extensions-Only root config (e ∷ es) = search (copy_rules, create_extensions-Only) depth 20

  provision-Only :
      (conn : Conn) (root : Text) (config : DatabaseConfig)
      → Only IsCopying (provision_postgresql env conn root config false)
  unfolding provision_postgresql Postgres.check_user_exists Postgres.check_database_exists
      Sql.alter_user Sql.create_user Sql.alter_owner Sql.grant starts_with txt
  provision-Only conn root config =
      search (copy_rules, execute-Only, create_database-Only, maybe_extensions-Only) depth 25

  generate_password-Only : Only IsCopying (generate_password env)
  unfolding generate_password
  generate_password-Only = random_chars-Only env (λ n. tt) 20

  from_found-Only :
      (namespace root : Text) (db : DatabaseConfig) (o : Option Secret)
      → Only IsCopying (Manager.from_found env namespace root db o)
  unfolding Manager.from_found Manager.seed_secret Manager.seed_password Manager.create_secret
      Manager.from_secret Manager.add_connect_string
  from_found-Only namespace root db none = search (copy_rules, generate_password-Only) depth 20
  from_found-Only namespace root db (some s) = search copy_rules depth 20

  check_managed-Only :
      (namespace name : Text) (o : Option Secret)
      → Only IsCopying (Manager.check_managed env namespace name o)
  unfolding Manager.check_managed
  check_managed-Only namespace name none = Only-pure _
  check_managed-Only namespace name (some s) = search copy_rules

  apply-Only :
      (manager : Option Text) (root : Text) (db : DatabaseConfig)
      → Only IsCopying (apply_k8s_password env manager root db)
  unfolding apply_k8s_password Manager.apply_password Manager.reconcile_password
      Manager.managed_secret
  apply-Only none root db = search copy_rules depth 20
  apply-Only (some namespace) root db =
      search (copy_rules, check_managed-Only, from_found-Only) depth 20

  or_no_file-Only : (r : Result Err Text) → Only IsCopying (or_no_file env r)
  unfolding or_no_file
  or_no_file-Only (ok file) = Only-pure file
  or_no_file-Only (err e) = Only-pure []

  from_s3-Only :
      (server database : Text) (s3 : Option S3Config)
      → Only IsCopying (from_s3 env s3 server database)
  unfolding from_s3 newest_in_s3 new_s3_client download_newest_from_s3 call_or
  from_s3-Only server database none = Only-pure []
  from_s3-Only server database (some cfg) = search (copy_rules, or_no_file-Only) depth 25

  newest_of-Only :
      (server database : Text) (s3 : Option S3Config) (r : Result Err (List Text))
      → Only IsCopying (newest_of env s3 server database r)
  unfolding newest_of
  newest_of-Only server database s3 (ok (f ∷ fs)) = Only-pure _
  newest_of-Only server database s3 (ok []) = from_s3-Only server database s3
  newest_of-Only server database s3 (err e) = from_s3-Only server database s3

  find_newest_backup-Only :
      (s3 : Option S3Config) (server database : Text) (t : DbType)
      → Only IsCopying (find_newest_backup env s3 server database t)
  unfolding find_newest_backup
  find_newest_backup-Only s3 server database t =
      Only-bind _ _ (search copy_rules) (newest_of-Only server database s3)

  restore-Only :
      (root database file : Text) → Only IsCopying (restore_postgresql env root database file)
  unfolding restore_postgresql call_or
  restore-Only root database file = search copy_rules depth 20

  after_pg_dump-Only :
      (c : Command) (r : Result Err (Unit {0})) → Only IsCopying (after_pg_dump env c r)
  unfolding after_pg_dump
  after_pg_dump-Only c (ok _) = search copy_rules
  after_pg_dump-Only c (err e) = search copy_rules depth 20

  data-Only :
      (source target database : Text)
      → Only IsCopying (migrate_postgresql_data env source target database)
  unfolding migrate_postgresql_data call_or
  data-Only source target database = search (copy_rules, after_pg_dump-Only) depth 20

  count_tables-Only :
      (conn : Conn) (ts : List (Text × Text)) (counts : Counts)
      → Only IsCopying (count_tables env conn ts counts)
  unfolding count_tables
  count_tables-Only conn [] counts = Only-pure counts
  count_tables-Only conn (t ∷ ts) counts =
      Only-bind _ _ (search copy_rules) λ n. count_tables-Only conn ts _

  check_nonempty-Only :
      (database : Text) (c : Counts) → Only IsCopying (check_nonempty env database c)
  unfolding check_nonempty
  check_nonempty-Only database [] = Only-raise _
  check_nonempty-Only database (c ∷ cs) = Only-pure tt

  verify-Only :
      (manager : Option Text) (b : Bool) (source target database : Text)
      → Only IsCopying (Run.verify env manager b source target database)
  unfolding Run.verify verify_migration verify_target_nonempty query_table_counts call_or
  verify-Only manager true source target database =
      search (copy_rules, count_tables-Only, check_nonempty-Only) depth 25
  verify-Only manager false source target database = search (copy_rules, count_tables-Only) depth 25

  refuse_existing-Only :
      (manager : Option Text) (b : Bool) (target database : Text)
      → Only IsCopying (Run.refuse_existing env manager b target database)
  unfolding Run.refuse_existing
  refuse_existing-Only manager true target database = Only-raise _
  refuse_existing-Only manager false target database = Only-pure tt

  or_backup-Only :
      (manager : Option Text) (s3 : Option S3Config) (source target : DatabaseServer)
      (database : Text) (r : Result Err (Unit {0}))
      → Only IsCopying (Run.or_backup env manager s3 source target database r)
  unfolding Run.or_backup Run.restore_found
  or_backup-Only manager s3 source target database (ok _) = Only-pure false
  or_backup-Only manager s3 source target database (err e) =
      search (copy_rules, find_newest_backup-Only, restore-Only) depth 20

  -- Preparing the target, copying and verifying drop nothing and do not write the config.
  pub migrate-Only :
      (manager : Option Text) (config : Config) (source : DatabaseServer) (db : DatabaseConfig)
      (m : MigrateConfig)
      → Only IsCopying (Run.migrate env manager config source db m)
  unfolding Run.migrate Run.prepare_target Run.copy_data Postgres.check_database_exists call_or
  migrate-Only manager config source db m =
      search
        (
          copy_rules, apply-Only, refuse_existing-Only, provision-Only, data-Only, or_backup-Only,
          verify-Only,
        )
        depth 30
