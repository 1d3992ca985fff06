-- ===== src/Process/Server.antt =====
-- The second half of `processConfig`: the provisioning of one server.
use homelab_db_provisioner.Prelude.{
  Bool, false, not, ◌&&◌, Option, none, some, Text, Result, ok, err, if◌then◌else◌,
}
use homelab_db_provisioner.Config.{
  DatabaseConfig, DatabaseServer, Config, DbType, postgresql, maria_db, mongo_db, detect_db_type,
  is_migrated,
}
use homelab_db_provisioner.World.{Env, Err, Driver, Conn, Exec, pure, ◌>>=◌, try, for_each}
use homelab_db_provisioner.Conn.{mariadb_dsn}
use homelab_db_provisioner.Secrets.Manager.{apply_k8s_password}
use homelab_db_provisioner.Provision.Postgres.{provision_postgresql}
use homelab_db_provisioner.Provision.MariaDb.{provision_mariadb}
use homelab_db_provisioner.Provision.MongoDb.{provision_mongodb}
use homelab_db_provisioner.Backup.Restore.{restore_database}
use homelab_db_provisioner.Migrate.Target.{all_databases_migrated}
use homelab_db_provisioner.Process.Connect.{connect_with_retry}

abbrev pub restores_on_create : DatabaseConfig → Bool
restores_on_create db = elim db.backup [ none ↦ false | some b ↦ b.restore_on_create ]

module _ (env : Env) (manager : Option Text) (config : Config) (server : DatabaseServer) where
  -- The live password, which a dry run does not look up.
  unfoldable pub live_password : DatabaseConfig → Exec Err DatabaseConfig
  live_password db =
      if server.dry_run
      then pure db
      else apply_k8s_password env manager server.root_connection_string db

  -- The entry with its live password, and whether its database was created.
  unfoldable pub provision_live :
      (DatabaseConfig → Bool → Exec Err Bool) → DatabaseConfig → Exec Err (DatabaseConfig × Bool)
  provision_live provision db = do
    db' ← live_password db
    created ← provision db' server.dry_run
    pure (db', created)

  -- Errors are only logged, and end the round.
  unfoldable pub after_provision : Result Err (DatabaseConfig × Bool) → Exec ⊥ (Unit {0})
  after_provision (err e) = pure tt
  after_provision (ok (db, created)) =
      if created && (not server.dry_run && restores_on_create db)
      then restore_database env config server db
      else pure tt

  -- The loop body over the databases.
  unfoldable pub process_database :
      (DatabaseConfig → Bool → Exec Err Bool) → DatabaseConfig → Exec ⊥ (Unit {0})
  process_database provision db =
      if is_migrated db
      then pure tt
      else (do r ← try (provision_live provision db); after_provision r)

  unfoldable pub process_databases : (DatabaseConfig → Bool → Exec Err Bool) → Exec ⊥ (Unit {0})
  process_databases provision = for_each server.databases (process_database provision)

  -- A server that cannot be reached is skipped.
  unfoldable pub after_connect :
      (Conn → DatabaseConfig → Bool → Exec Err Bool) → Result Err Conn → Exec ⊥ (Unit {0})
  after_connect provision (err e) = pure tt
  after_connect provision (ok conn) = process_databases (provision conn)

  -- One SQL server: five attempts to connect, then its databases.
  unfoldable pub process_sql :
      (Conn → DatabaseConfig → Bool → Exec Err Bool) → Conn → Exec ⊥ (Unit {0})
  process_sql provision conn = do r ← try (connect_with_retry env conn 5); after_connect provision r

  unfoldable pub process_by_type : DbType → Exec ⊥ (Unit {0})
  process_by_type mongo_db = process_databases (provision_mongodb env server.root_connection_string)
  process_by_type maria_db =
      process_sql (provision_mariadb env)
        (record { driver = Driver.mysql; dsn = mariadb_dsn server.root_connection_string })
  process_by_type postgresql =
      process_sql (λ conn. provision_postgresql env conn server.root_connection_string)
        (record { driver = Driver.postgres; dsn = server.root_connection_string })

  unfoldable pub process_server : Exec ⊥ (Unit {0})
  process_server =
      if all_databases_migrated server
      then pure tt
      else process_by_type (detect_db_type server.root_connection_string)
