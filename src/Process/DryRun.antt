-- ===== src/Process/DryRun.antt =====
-- What a pass over servers in dry-run mode calls.
use homelab_db_provisioner.Prelude.{
  ◌≡◌, ℕ, zero, suc, ◌+◌, Bool, true, false, Option, none, some, List, [], ◌∷◌, Text, Result, ok,
  err, All,
}
use homelab_db_provisioner.Config.{
  MigrateConfig, DatabaseConfig, DatabaseServer, Config, DbType, postgresql, maria_db, mongo_db,
}
use homelab_db_provisioner.World.{Env, Err, Conn, Exec}
use homelab_db_provisioner.World.Keeps.{
  Only, Only-pure, Only-raise, Only-bind, Only-if, Only-try, Only-for_each, Only-for_each-All,
  only_rules,
}
use homelab_db_provisioner.World.Reads.{IsRead}
use homelab_db_provisioner.Provision.DryRun.{
  provision_postgresql-dry, provision_mariadb-dry, provision_mongodb-dry,
}
use homelab_db_provisioner.Process.Connect.{attempt, attempts, connect_with_retry}
use homelab_db_provisioner.Process.Server.{
  live_password, provision_live, after_provision, process_database, process_databases,
  after_connect, process_sql, process_by_type, process_server,
}
use homelab_db_provisioner.Process.Pass.{
  migrate_database, migrate_databases, migrate_server, migration_pass, process_config,
}

abbrev pub IsDry : DatabaseServer → Type 0
IsDry s = s.dry_run ≡ true

ruleset dry_rules = (only_rules, tt)

module _ (env : Env) where
  attempts-Only_reads :
      (conn : Conn) (failure : Text) (k : ℕ) (e : Err) → Only IsRead (attempts env conn failure k e)
  unfolding attempts
  attempts-Only_reads conn failure zero e = Only-raise _
  attempts-Only_reads conn failure (suc k) e =
      Only-bind _ _ (Only-try _ (unfold attempt in search dry_rules))
        elim [ ok _ ↦ Only-pure _ | err e' ↦ attempts-Only_reads conn failure k e' ]

  connect-Only_reads : (conn : Conn) → Only IsRead (connect_with_retry env conn 5)
  unfolding connect_with_retry
  connect-Only_reads conn = search attempts-Only_reads

  module _ (manager : Option Text) (config : Config) where
    module _ (server : DatabaseServer) (dry : server.dry_run ≡ true) where
      live_password-Only_reads :
          (db : DatabaseConfig) → Only IsRead (live_password env manager config server db)
      unfolding live_password
      live_password-Only_reads db = simp dry (Only-pure db)

      provision_live-Only_reads :
          (provision : DatabaseConfig → Bool → Exec Err Bool)
          → ((db : DatabaseConfig) → Only IsRead (provision db true))
          → (db : DatabaseConfig)
          → Only IsRead (provision_live env manager config server provision db)
      unfolding provision_live
      provision_live-Only_reads provision k db =
          Only-bind _ _ (live_password-Only_reads db)
            λ db'. simp dry (Only-bind _ _ (k db') λ created. Only-pure _)

      after_provision-Only_reads :
          (r : Result Err (DatabaseConfig × Bool))
          → Only IsRead (after_provision env manager config server r)
      unfolding after_provision
      after_provision-Only_reads (err e) = Only-pure tt
      after_provision-Only_reads (ok (db, true)) = simp dry (Only-pure tt)
      after_provision-Only_reads (ok (db, false)) = Only-pure tt

      process_database-Only_reads :
          (provision : DatabaseConfig → Bool → Exec Err Bool)
          → ((db : DatabaseConfig) → Only IsRead (provision db true))
          → (db : DatabaseConfig)
          → Only IsRead (process_database env manager config server provision db)
      unfolding process_database
      process_database-Only_reads provision k db =
          Only-if _ _ _ (λ _. Only-pure tt)
            λ _.
              Only-bind _ _ (Only-try _ (provision_live-Only_reads provision k db))
                after_provision-Only_reads

      process_databases-Only_reads :
          (provision : DatabaseConfig → Bool → Exec Err Bool)
          → ((db : DatabaseConfig) → Only IsRead (provision db true))
          → Only IsRead (process_databases env manager config server provision)
      unfolding process_databases
      process_databases-Only_reads provision k =
          Only-for_each _ _ (process_database-Only_reads provision k)

      process_sql-Only_reads :
          (provision : Conn → DatabaseConfig → Bool → Exec Err Bool)
          → ((conn : Conn) (db : DatabaseConfig) → Only IsRead (provision conn db true))
          → (conn : Conn) → Only IsRead (process_sql env manager config server provision conn)
      unfolding process_sql after_connect
      process_sql-Only_reads provision k conn =
          Only-bind _ _ (Only-try _ (connect-Only_reads conn)) elim [
            | err e ↦ Only-pure tt
            | ok conn' ↦ process_databases-Only_reads (provision conn') (k conn')
          ]

      process_by_type-Only_reads :
          (t : DbType) → Only IsRead (process_by_type env manager config server t)
      unfolding process_by_type
      process_by_type-Only_reads mongo_db =
          process_databases-Only_reads _ (provision_mongodb-dry env _)
      process_by_type-Only_reads maria_db = process_sql-Only_reads _ (provision_mariadb-dry env) _
      process_by_type-Only_reads postgresql =
          process_sql-Only_reads _ (λ conn. provision_postgresql-dry env conn _) _

      -- A server in dry-run mode is processed with no call but reads, whatever is answered.
      pub process_server-dry : Only IsRead (process_server env manager config server)
      unfolding process_server
      process_server-dry = search (dry_rules, process_by_type-Only_reads)

      migrate_database-Only_reads :
          (si di : ℕ) (db : DatabaseConfig) (m : Option MigrateConfig)
          → Only IsRead (migrate_database env manager config si server di db m)
      unfolding migrate_database
      migrate_database-Only_reads si di db none = Only-pure tt
      migrate_database-Only_reads si di db (some m) =
          simp dry (Only-if _ _ _ (λ _. Only-pure tt) (λ _. Only-pure tt))

      migrate_databases-Only_reads :
          (si di : ℕ) (dbs : List DatabaseConfig)
          → Only IsRead (migrate_databases env manager config si server di dbs)
      unfolding migrate_databases
      migrate_databases-Only_reads si di [] = Only-pure tt
      migrate_databases-Only_reads si di (db ∷ dbs) =
          Only-bind _ _ (migrate_database-Only_reads si di db db.migrate)
            λ _. migrate_databases-Only_reads si (di + 1) dbs

      migrate_server-Only_reads :
          (si : ℕ) → Only IsRead (migrate_server env manager config si server)
      unfolding migrate_server
      migrate_server-Only_reads si =
          search (dry_rules, migrate_databases-Only_reads si 0 server.databases)

    migration_pass-Only_reads :
        (si : ℕ) (servers : List DatabaseServer)
        → All IsDry servers
        → Only IsRead (migration_pass env manager config si servers)
    unfolding migration_pass
    migration_pass-Only_reads si [] h = Only-pure tt
    migration_pass-Only_reads si (s ∷ ss) h =
        Only-bind _ _ (migrate_server-Only_reads s h.0 si)
          λ _. migration_pass-Only_reads (si + 1) ss h.1

    process_servers-Only_reads :
        (servers : List DatabaseServer)
        → All IsDry servers
        → All (λ s. Only IsRead (process_server env manager config s)) servers
    process_servers-Only_reads [] h = tt
    process_servers-Only_reads (s ∷ ss) h =
        (process_server-dry s h.0, process_servers-Only_reads ss h.1)

    -- If every server of the config is in dry-run mode, the whole pass (migrations, Kubernetes
    -- Secrets, provisioning and restoring) makes no call but reads, whatever is answered.
    pub process_config-dry :
        All IsDry config.servers → Only IsRead (process_config env manager config)
    unfolding process_config
    process_config-dry h =
        Only-bind _ _ (migration_pass-Only_reads 0 _ h)
          λ _. Only-for_each-All _ _ (process_servers-Only_reads _ h)
