-- ===== src/Provision/Postgres.antt =====
-- `provisionPostgreSQL` of main.go and what it calls.
use homelab_db_provisioner.Prelude.{
  Bool, true, false, not, ◌&&◌, none, some, List, [], ◌∷◌, ◌++◌, Text, txt, text_eq, contains,
  Result, ok, err, if◌then◌else◌,
}
use homelab_db_provisioner.Config.{DatabaseConfig}
use homelab_db_provisioner.World.{
  Env, Err, Driver, Conn, Exec, pure, raise, lift, ◌>>=◌, ◌>>◌, on_err, try, wrap, call, ask,
  sql_open, sql_exec, sql_query,
}
use homelab_db_provisioner.Sql.Postgres as Sql
use homelab_db_provisioner.Provision.Statement.{call_or, execute}

-- `isCollationVersionMismatch`
unfoldable pub is_collation_version_mismatch : Err → Bool
is_collation_version_mismatch e = elim e.pq [
  | none ↦ false
  | some (code, message) ↦
      text_eq code (txt "XX000") && contains (txt "collation version mismatch") message
]

module _ (env : Env) where
  unfoldable pub check_user_exists : Conn → Text → Exec Err Bool
  check_user_exists conn username = ask env (sql_query conn Sql.user_exists username)

  unfoldable pub check_database_exists : Conn → Text → Exec Err Bool
  check_database_exists conn database = ask env (sql_query conn Sql.database_exists database)

  -- What follows a first CREATE DATABASE: after a collation mismatch, a refresh and a second one.
  unfoldable pub after_create : Conn → DatabaseConfig → Result Err (Unit {0}) → Exec Err (Unit {0})
  after_create conn config (ok _) = pure tt
  after_create conn config (err e) =
      if is_collation_version_mismatch e
      then (do
        call_or env (txt "failed to refresh template1 collation version: ")
            (sql_exec conn Sql.refresh_collation)
        call_or env (txt "failed to create database after collation refresh: ")
            (sql_exec conn (Sql.create_database config)))
      else raise (wrap (txt "failed to create database: ") e)

  unfoldable pub create_database : Bool → Conn → DatabaseConfig → Exec Err (Unit {0})
  unfolding after_create
  create_database true conn config = pure tt
  create_database false conn config = do
    r ← try (call env (sql_exec conn (Sql.create_database config)))
    after_create conn config r

  unfoldable pub create_extensions : Conn → Text → List Text → Exec Err (Unit {0})
  create_extensions conn database [] = pure tt
  create_extensions conn database (ext ∷ extensions) = do
    call_or env
        (txt "failed to create extension " ++ (ext ++ (txt " on " ++ (database ++ txt ": "))))
        (sql_exec conn (Sql.create_extension ext))
    create_extensions conn database extensions

  -- `provisionPostgreSQLExtensions`
  unfoldable pub provision_extensions : Text → Text → List Text → Bool → Exec Err (Unit {0})
  unfolding create_extensions
  provision_extensions root database extensions true = pure tt
  provision_extensions root database extensions false = do
    url ←
        on_err (wrap (txt "failed to parse connection string for extensions: "))
          (lift (env.url_with_path root (txt "/" ++ database)))
    let conn : Conn = record { driver = Driver.postgres; dsn = url }
    call_or env (txt "failed to open connection to " ++ (database ++ txt " for extensions: "))
        (sql_open conn)
    create_extensions conn database extensions

  -- `if len(config.Extensions) > 0 { … }`
  unfoldable pub maybe_extensions : Text → DatabaseConfig → Bool → List Text → Exec Err (Unit {0})
  maybe_extensions root config dry_run [] = pure tt
  maybe_extensions root config dry_run (e ∷ es) =
      provision_extensions root config.database (e ∷ es) dry_run

  -- Whether the database was created, or an error.
  unfoldable pub provision_postgresql : Conn → Text → DatabaseConfig → Bool → Exec Err Bool
  unfolding maybe_extensions
  provision_postgresql conn root config dry_run = do
    user_exists ←
        on_err (wrap (txt "failed to check user existence: ")) (check_user_exists conn config.user)
    if user_exists
        then execute env dry_run conn (txt "failed to update user password: ")
            (Sql.alter_user config)
        else execute env dry_run conn (txt "failed to create user: ") (Sql.create_user config)
    db_exists ←
        on_err (wrap (txt "failed to check database existence: "))
          (check_database_exists conn config.database)
    if db_exists
        then execute env dry_run conn (txt "failed to alter database owner: ")
            (Sql.alter_owner config)
        else create_database dry_run conn config
    execute env dry_run conn (txt "failed to grant privileges: ") (Sql.grant config)
    maybe_extensions root config dry_run config.extensions
    pure (not db_exists)
