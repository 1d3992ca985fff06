-- ===== src/Process/Pass.antt =====
-- `processConfig`: the pending migrations, then the provisioning of every server. The summary of
-- backups in front is only logged.
use homelab_db_provisioner.Prelude.{
  ℕ, ◌+◌, not, Option, none, some, List, [], ◌∷◌, Text, if◌then◌else◌,
}
use homelab_db_provisioner.Config.{
  MigrateConfig, DatabaseConfig, DatabaseServer, Config, is_postgresql, detect_db_type,
}
use homelab_db_provisioner.World.{Env, Exec, pure, ◌>>◌, for_each}
use homelab_db_provisioner.Migrate.Run.{run_migration}
use homelab_db_provisioner.Process.Server.{process_server}

module _ (env : Env) (manager : Option Text) (config : Config) where
  -- The loop body over the databases: a migration that is neither absent nor completed.
  unfoldable pub migrate_database :
      ℕ → DatabaseServer → ℕ → DatabaseConfig → Option MigrateConfig → Exec ⊥ (Unit {0})
  migrate_database si server di db none = pure tt
  migrate_database si server di db (some m) =
      if m.completed
      then pure tt
      else if server.dry_run
      then pure tt
      else run_migration env manager config si server di db m

  unfoldable pub migrate_databases :
      ℕ → DatabaseServer → ℕ → List DatabaseConfig → Exec ⊥ (Unit {0})
  migrate_databases si server di [] = pure tt
  migrate_databases si server di (db ∷ dbs) = do
    migrate_database si server di db db.migrate
    migrate_databases si server (di + 1) dbs

  unfoldable pub migrate_server : ℕ → DatabaseServer → Exec ⊥ (Unit {0})
  migrate_server si server =
      if not (is_postgresql (detect_db_type server.root_connection_string))
      then pure tt
      else migrate_databases si server 0 server.databases

  unfoldable pub migration_pass : ℕ → List DatabaseServer → Exec ⊥ (Unit {0})
  migration_pass si [] = pure tt
  migration_pass si (server ∷ servers) = do
    migrate_server si server
    migration_pass (si + 1) servers

  unfoldable pub process_config : Exec ⊥ (Unit {0})
  process_config = do
    migration_pass 0 config.servers
    for_each config.servers (process_server env manager config)
