-- ===== src/Process/Achieves.antt =====
-- The provisioning of a PostgreSQL server with all its entries, on the abstract server.
use homelab_db_provisioner.Prelude.{
  ◌≡◌, refl, sym, ap, subst, ◌∙◌, inl, inr, ℕ, zero, suc, is_empty, ◌<◌, Bool, true, false,
  Bool-cases, Option, List, [], ◌∷◌, Text, Result, ok, err, All, arith, if◌then◌else◌, all,
}
use homelab_db_provisioner.Config.{
  DatabaseConfig, DatabaseServer, Config, postgresql, detect_db_type, is_migrated,
}
use homelab_db_provisioner.World.{
  Env, Event, Err, Driver, Conn, Exec, pure, for_each, sql_open, sql_ping,
}
use homelab_db_provisioner.World.Keeps.{
  Extends, here, next, Only, Only-raise, Only-pure, Only-bind, Only-try, only_rules,
}
use homelab_db_provisioner.World.Inversion.{bind-runs, try-runs}
use homelab_db_provisioner.Secrets.Manager.{apply_k8s_password}
use homelab_db_provisioner.Migrate.Target.{all_databases_migrated}
use homelab_db_provisioner.Provision.Postgres.{provision_postgresql}
use homelab_db_provisioner.Provision.Server.{
  State, IsPlain, IsUp, IsKnown, effect, replay, provisioned,
}
use homelab_db_provisioner.Provision.Succeeds.{provision_postgresql-achieves}
use homelab_db_provisioner.Process.Connect.{attempt, attempts, connect_with_retry}
use homelab_db_provisioner.Process.ConnectLaws.{connect_with_retry-Connected}
use homelab_db_provisioner.Process.ReachLaws.{after_attempts, connect_with_retry-reaches}
use homelab_db_provisioner.Process.Server.{
  restores_on_create, live_password, provision_live, after_provision, process_database,
  process_databases, after_connect, process_sql, process_by_type, process_server,
}

-- An entry with its password in the config, that PostgreSQL can take as it is, with all privileges, and with nothing to restore.
pub record IsReady (db : DatabaseConfig) : Type 0 where
  pub in_config : db.k8s_secret ≡ []
  pub plain : IsPlain db
  pub all_privileges : db.permissions ≡ []
  pub no_extensions : db.extensions ≡ []
  pub no_restore : restores_on_create db ≡ false

-- What is meant to be there after the entries in their order; one that was migrated away does not
-- count.
unfoldable pub achieved : List DatabaseConfig → State → State
achieved [] s = s
achieved (db ∷ dbs) s = achieved dbs (if is_migrated db then s else provisioned db s)

-- A call of the connection.
data IsProbe : Event → Type 0 where
  opened : (c : Conn) → IsProbe (sql_open c)
  pinged : (c : Conn) → IsProbe (sql_ping c)

module _ (env : Env) (conn : Conn) where
  attempts-IsProbe :
      (failure : Text) (k : ℕ) (e : Err) → Only IsProbe (attempts env conn failure k e)
  unfolding attempts
  attempts-IsProbe failure zero e = Only-raise _
  attempts-IsProbe failure (suc k) e =
      Only-bind _ _ (Only-try _ (unfold attempt in search (only_rules, opened, pinged)))
        elim [ ok _ ↦ Only-pure _ | err e' ↦ attempts-IsProbe failure k e' ]

  connect-IsProbe : (k : ℕ) → Only IsProbe (connect_with_retry env conn k)
  unfolding connect_with_retry
  connect-IsProbe k = attempts-IsProbe _ k _

  module _ (start : State) where
    abbrev state : List Event → State
    state t = replay env.fails conn start t

    probe-replay : (t : List Event) {e : Event} → IsProbe e → state (e ∷ t) ≡ state t
    unfolding replay effect
    probe-replay t (opened c) = refl
    probe-replay t (pinged c) = refl

    probes-replay : (t : List Event) {t' : List Event} → Extends IsProbe t t' → state t' ≡ state t
    probes-replay t here = refl
    probes-replay t (next h p) = probe-replay _ h ∙ probes-replay t p

    -- Connecting changes nothing on the server.
    connect-replay :
        (k : ℕ) (t t' : List Event) (c : Conn)
        → connect_with_retry env conn k t ≡ (ok c, t')
        → state t' ≡ state t
    connect-replay k t t' c h =
        ap (λ (r : Result Err Conn × List Event). state r.1) (sym h)
        ∙ probes-replay t ((connect-IsProbe k).calls t)

-- The connection of a server's root.
abbrev pub root_conn : DatabaseServer → Conn
root_conn server = record { driver = Driver.postgres; dsn = server.root_connection_string }

module _ (env : Env) (manager : Option Text) (config : Config) (server : DatabaseServer)
    (start : State) (dry : server.dry_run ≡ false) (up : IsUp env (root_conn server) start) where
  abbrev provision : DatabaseConfig → Bool → Exec Err Bool
  provision = provision_postgresql env (root_conn server) server.root_connection_string

  abbrev at : List Event → State
  at t = replay env.fails (root_conn server) start t

  -- The computation ends, and the server is in a state.
  abbrev Reaches : Exec ⊥ (Unit {0}) → List Event → State → Type 0
  Reaches m t s = (t' : List Event) × (m t ≡ (ok tt, t')) × (at t' ≡ s)

  live_password-runs :
      (db : DatabaseConfig) (t : List Event)
      → IsReady db
      → live_password env manager config server db t ≡ (ok db, t)
  unfolding live_password apply_k8s_password is_empty pure
  live_password-runs db t ready = rw (dry, ready.in_config) refl

  after-runs :
      (db : DatabaseConfig) (created : Bool) (t : List Event)
      → restores_on_create db ≡ false
      → after_provision env manager config server (ok (db, created)) t ≡ (ok tt, t)
  unfolding after_provision pure
  after-runs db created t h = ground arith

  provision_live-runs :
      (db : DatabaseConfig) (created : Bool) (t t' : List Event)
      → IsReady db
      → provision db false t ≡ (ok created, t')
      → provision_live env manager config server provision db t ≡ (ok (db, created), t')
  unfolding provision_live pure
  provision_live-runs db created t t' ready h =
      bind-runs _ _ t t db _ (live_password-runs db t ready)
        (bind-runs _ _ t t' created _ (rw dry h) refl)

  -- One entry: what is meant to be there is there.
  process_database-runs :
      (db : DatabaseConfig) (t : List Event)
      → IsKnown (at t)
      → IsReady db
      → Reaches
          (process_database env manager config server provision db)
          t
          (if is_migrated db then at t else provisioned db (at t))
  unfolding process_database pure
  process_database-runs db t known ready = elim (Bool-cases (is_migrated db)) [
    | inl e ↦ rw e (t, refl, refl)
    | inr e ↦
        let (t', run, reached) =
          provision_postgresql-achieves env (root_conn server) start db ready.plain up
            server.root_connection_string t known ready.all_privileges ready.no_extensions in
        rw e (
          t',
          bind-runs _ _ t t' (ok (db, _)) _
              (try-runs _ t t' (ok (db, _)) (provision_live-runs db _ t t' ready run))
              (after-runs db _ t' ready.no_restore),
          reached,
        )
  ]

  step-IsKnown :
      (db : DatabaseConfig) (s s' : State)
      → s' ≡ (if is_migrated db then s else provisioned db s)
      → IsKnown s
      → IsKnown s'
  unfolding provisioned
  step-IsKnown db s s' e known = elim (Bool-cases (is_migrated db)) [
    | inl m ↦
        ap (λ (x : State). x.unread) (subst (λ b. s' ≡ (if b then s else provisioned db s)) m e)
        ∙ known
    | inr m ↦
        ap (λ (x : State). x.unread) (subst (λ b. s' ≡ (if b then s else provisioned db s)) m e)
        ∙ known
  ]

  process_databases-runs :
      (dbs : List DatabaseConfig) (t : List Event)
      → IsKnown (at t)
      → All IsReady dbs
      → Reaches
          (for_each dbs (process_database env manager config server provision))
          t
          (achieved dbs (at t))
  unfolding for_each achieved pure
  process_databases-runs [] t known h = (t, refl, refl)
  process_databases-runs (db ∷ dbs) t known (ready, h) =
      let (t₁, run, reached) = process_database-runs db t known ready in
      let (t₂, rest, reached') =
        process_databases-runs dbs t₁ (step-IsKnown db (at t) (at t₁) reached known) h in
      (
        t₂,
        bind-runs (process_database env manager config server provision db)
            (λ _. for_each dbs (process_database env manager config server provision)) t t₁ tt _ run
            rest,
        reached' ∙ ap (achieved dbs) reached,
      )

  all_migrated-achieved :
      (dbs : List DatabaseConfig) (s : State) → all is_migrated dbs ≡ true → achieved dbs s ≡ s
  unfolding achieved
  all_migrated-achieved [] s h = refl
  all_migrated-achieved (db ∷ dbs) s h = elim (Bool-cases (is_migrated db)) [
    | inl e ↦ rw e (all_migrated-achieved dbs s (ground arith))
    | inr e ↦ absurd (ground arith)
  ]

  process_sql-runs :
      (i : ℕ) (t : List Event)
      → IsKnown (at t)
      → All IsReady server.databases
      → i < 5
      → (attempt env (root_conn server) (after_attempts env (root_conn server) i t)).0 ≡ ok tt
      → Reaches
          (process_sql env manager config server
            (λ conn. provision_postgresql env conn server.root_connection_string)
            (root_conn server))
          t
          (achieved server.databases (at t))
  unfolding process_sql after_connect process_databases
  process_sql-runs i t known ready h reachable =
      let (c, t₁, run) = connect_with_retry-reaches env (root_conn server) i 5 t h reachable in
      let unchanged = connect-replay env (root_conn server) start 5 t t₁ c run in
      let same = (connect_with_retry-Connected env (root_conn server) 5 t t₁ c run).0 in
      let (t₂, rest, reached) =
        process_databases-runs server.databases t₁ (ap (λ (x : State). x.unread) unchanged ∙ known)
          ready in
      (
        t₂,
        bind-runs _ _ t t₁ (ok c) _ (try-runs _ t t₁ (ok c) run) (
            subst
              (λ x.
                process_databases env manager config server
                  (provision_postgresql env x server.root_connection_string) t₁
                ≡ (ok tt, t₂))
              (sym same) rest),
        reached ∙ ap (achieved server.databases) unchanged,
      )

  migrated_away : all_databases_migrated server ≡ true → all is_migrated server.databases ≡ true
  unfolding all_databases_migrated
  migrated_away h = ground arith

  -- The provisioning of a PostgreSQL server without dry run ends, and leaves every entry in place
  -- in the order of the config, whatever roles and databases were there before: the roles have
  -- their passwords, the databases their owners, and the privileges are granted; entries that were
  -- migrated away change nothing. The conditions: the server is up, so that in a known state it
  -- answers each catalogue query truly and no valid statement fails; its state is known before;
  -- one of the first five attempts to connect that follow one another succeeds; and the entries
  -- are such that the server takes their names and passwords as they are, and ask for no Secret,
  -- no extension, no privileges of their own and no restoring.
  pub process_server-achieves :
      (i : ℕ) (t : List Event)
      → IsKnown (replay env.fails (root_conn server) start t)
      → detect_db_type server.root_connection_string ≡ postgresql
      → All IsReady server.databases
      → i < 5
      → (attempt env (root_conn server) (after_attempts env (root_conn server) i t)).0 ≡ ok tt
      → (t' : List Event) × (process_server env manager config server t ≡ (ok tt, t'))
        × (replay env.fails (root_conn server) start t'
            ≡ achieved server.databases (replay env.fails (root_conn server) start t))
  unfolding process_server process_by_type pure
  process_server-achieves i t known kind ready h reachable =
      elim (Bool-cases (all_databases_migrated server)) [
        | inl e ↦
            rw e (t, refl, sym (all_migrated-achieved server.databases (at t) (migrated_away e)))
        | inr e ↦ rw (e, kind) (process_sql-runs i t known ready h reachable)
      ]
