-- ===== src/Migrate/Run.antt =====
-- `runMigration`.
use homelab_db_provisioner.Prelude.{
  ℕ, Bool, true, false, Option, none, some, [], ◌++◌, Text, txt, is_empty, Result, ok, err,
  if◌then◌else◌,
}
use homelab_db_provisioner.Config.{
  MigrateConfig, DatabaseConfig, DatabaseServer, Config, S3Config, postgresql,
}
use homelab_db_provisioner.World.{
  Env, Err, Driver, Conn, Exec, pure, raise, lift, ◌>>=◌, ◌>>◌, on_err, try, wrap, new_error,
  ask_now, sql_open,
}
use homelab_db_provisioner.Provision.Statement.{call_or}
use homelab_db_provisioner.Provision.Postgres.{provision_postgresql, check_database_exists}
use homelab_db_provisioner.Secrets.Manager.{apply_k8s_password}
use homelab_db_provisioner.Backup.Restore.{find_newest_backup, restore_postgresql}
use homelab_db_provisioner.Migrate.Target.{resolve_target_server, persist_migrate}
use homelab_db_provisioner.Migrate.Counts.{verify_migration, verify_target_nonempty}
use homelab_db_provisioner.Migrate.Copy.{
  is_connection_error, migrate_postgresql_data, drop_postgresql_database,
}

-- The marks of a failure and of a success.
unfoldable pub failed : MigrateConfig → Text → MigrateConfig
failed m message = record m { completed = false; error = message }

unfoldable pub succeeded : MigrateConfig → Text → MigrateConfig
succeeded m now = record m { completed = true; completed_at = now; error = [] }

-- `errors.As(dumpErr, &de) && isConnectionError(de.stderr)`
unfoldable pub is_unreachable : Env → Err → Bool
is_unreachable env e = elim e.dump [ none ↦ false | some stderr ↦ is_connection_error env stderr ]

module _ (env : Env) (manager : Option Text) where
  unfoldable pub refuse_existing : Bool → Text → Text → Exec Err (Unit {0})
  refuse_existing false target database = pure tt
  refuse_existing true target database = raise (
      new_error (
        txt "target database \""
        ++ (database
            ++ (txt "\" already exists on \"" ++ (target ++ txt "\", refusing to overwrite")))))

  -- The steps on the target before any data is copied.
  unfoldable pub prepare_target : DatabaseServer → DatabaseConfig → Exec Err (Unit {0})
  prepare_target target db = do
    let conn : Conn = record { driver = Driver.postgres; dsn = target.root_connection_string }
    call_or env (txt "open target: ") (sql_open conn)
    exists ←
        on_err (wrap (txt "check target database: ")) (check_database_exists env conn db.database)
    refuse_existing exists target.name db.database
    created ←
        on_err (wrap (txt "provision target: "))
          (provision_postgresql env conn target.root_connection_string db false)
    pure tt

  unfoldable pub restore_found : Text → Text → Text → Exec Err Bool
  restore_found target database file =
      if is_empty file
      then raise (new_error (txt "source unreachable and no backup found"))
      else (do
        on_err (wrap (txt "restore from backup " ++ (file ++ txt ": ")))
            (restore_postgresql env target database file)
        pure true)

  -- After a dump: the newest backup replaces one that failed because the source is unreachable.
  unfoldable pub or_backup :
      Option S3Config
      → DatabaseServer
      → DatabaseServer
      → Text
      → Result Err (Unit {0})
      → Exec Err Bool
  or_backup s3 source target database (ok _) = pure false
  or_backup s3 source target database (err e) =
      if is_unreachable env e
      then (do
        file ← on_err absurd (find_newest_backup env s3 source.name database postgresql)
        restore_found target.root_connection_string database file)
      else raise e

  -- Whether the data come from a backup.
  unfoldable pub copy_data :
      Option S3Config → DatabaseServer → DatabaseServer → Text → Exec Err Bool
  copy_data s3 source target database = do
    r ← try (
        migrate_postgresql_data env source.root_connection_string target.root_connection_string
          database)
    or_backup s3 source target database r

  unfoldable pub verify : Bool → Text → Text → Text → Exec Err (Unit {0})
  verify true source target database =
      on_err (wrap (txt "verification (backup fallback) failed: "))
        (verify_target_nonempty env target database)
  verify false source target database =
      on_err (wrap (txt "verification failed: ")) (verify_migration env source target database)

  -- Everything up to the mark of success; the error is the message of `fail`.
  unfoldable pub migrate :
      Config → DatabaseServer → DatabaseConfig → MigrateConfig → Exec Err (Unit {0})
  migrate config source db m = do
    target ← lift (resolve_target_server config.servers m.target_server source.name)
    db' ←
        on_err (wrap (txt "read password from Kubernetes Secret: "))
          (apply_k8s_password env manager source.root_connection_string db)
    prepare_target target db'
    from_backup ← copy_data config.s3 source target db'.database
    verify from_backup source.root_connection_string target.root_connection_string db'.database

  unfoldable pub note_drop : MigrateConfig → Result Err (Unit {0}) → MigrateConfig
  note_drop m (ok _) = m
  note_drop m (err e) = record m {
    error = txt "migration succeeded but source drop failed: " ++ e.message;
  }

  -- The source is dropped only now, if that was asked for.
  unfoldable pub drop_source : Text → Text → MigrateConfig → Exec ⊥ MigrateConfig
  drop_source root database m =
      if m.confirm_drop
      then (do r ← try (drop_postgresql_database env root database); pure (note_drop m r))
      else pure m

  unfoldable pub finish :
      ℕ
      → ℕ
      → DatabaseServer
      → DatabaseConfig
      → MigrateConfig
      → Result Err (Unit {0})
      → Exec ⊥ (Unit {0})
  finish si di source db m (err e) = persist_migrate env si di (failed m e.message)
  finish si di source db m (ok _) = do
    now ← ask_now env
    m' ← drop_source source.root_connection_string db.database (succeeded m now)
    persist_migrate env si di m'

  -- The caller has checked that the database has a migration.
  unfoldable pub run_migration :
      Config → ℕ → DatabaseServer → ℕ → DatabaseConfig → MigrateConfig → Exec ⊥ (Unit {0})
  run_migration config si source di db m = do
    r ← try (migrate config source db m)
    finish si di source db m r
