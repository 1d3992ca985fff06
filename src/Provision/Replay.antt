-- ===== src/Provision/Replay.antt =====
-- The state of the abstract server behind the calls of `provisionPostgreSQL`, part by part.
use homelab_db_provisioner.Prelude.{
  ◌≡◌, refl, sym, ap, ◌∙◌, Bool, true, false, Option, none, some, List, [], ◌∷◌, Text, ok, err,
  arith, if◌then◌else◌, All, free_of,
}
use homelab_db_provisioner.Prelude.Dict.{text_eq_refl}
use homelab_db_provisioner.Config.{DatabaseConfig}
use homelab_db_provisioner.World.{
  Env, Event, Driver, Conn, Err, from_option, ◌>>=◌, try, call, sql_exec, sql_query, sql_open,
}
use homelab_db_provisioner.World.Inversion.{
  bind_cases, on_err-ok, call-ok, lift-ok, pure-ok, if_cases, raise-ok,
}
use homelab_db_provisioner.Sql.Postgres as Sql
use homelab_db_provisioner.Sql.Reader.{quote, read, create_extension}
use homelab_db_provisioner.Sql.ReaderLaws.{
  read-refresh_collation, read-create_database, read-create_extension,
}
use homelab_db_provisioner.Provision.Statement.{call_or, execute}
use homelab_db_provisioner.Provision.Postgres
use homelab_db_provisioner.Provision.Server.{
  same_driver, State, is_plain, apply, failed, elsewhere, effect, replay, same_conn,
}

same_driver_refl : (d : Driver) → same_driver d d ≡ true
unfolding same_driver
same_driver_refl Driver.postgres = refl
same_driver_refl Driver.mysql = refl

pub same_conn_refl : (c : Conn) → same_conn c c ≡ true
unfolding same_conn
same_conn_refl c = rw (same_driver_refl c.driver, text_eq_refl c.dsn) refl

pub free_of-quote : (name : Text) → is_plain name ≡ true → free_of quote name ≡ true
unfolding is_plain
free_of-quote name h = ground arith

module _ (conn : Conn) where
  effect-if : (b : Bool) (s : State) → (if b then s else s) ≡ s
  effect-if true s = refl
  effect-if false s = refl

  effect-extension :
      (c : Conn) (sql name : Text) (o : Option Err) (s : State)
      → read sql ≡ create_extension name
      → effect conn (sql_exec c sql) o s ≡ s
  unfolding effect apply failed elsewhere
  effect-extension c sql name none s h = rw h (effect-if (same_conn c conn) s)
  effect-extension c sql name (some e) s h = rw h (effect-if (same_conn c conn) s)

call_or-ok :
    (env : Env) (label : Text) (e : Event) (t t' : List Event) (a : Unit {0})
    → call_or env label e t ≡ (ok a, t')
    → (env.fails t e ≡ none) × (t' ≡ e ∷ t)
unfolding call_or
call_or-ok env label e t t' a h = call-ok env e t t' a (on_err-ok _ _ t t' a h)

module _ (env : Env) (conn : Conn) (start : State) where
  abbrev pub state : List Event → State
  state t = replay env.fails conn start t

  -- A statement that did not fail has its effect.
  pub replay-exec :
      (sql : Text) (t : List Event)
      → env.fails t (sql_exec conn sql) ≡ none
      → state (sql_exec conn sql ∷ t) ≡ apply (read sql) (state t)
  unfolding replay effect
  replay-exec sql t h = rw (h, same_conn_refl conn) refl

  pub replay-query : (q a : Text) (t : List Event) → state (sql_query conn q a ∷ t) ≡ state t
  unfolding replay effect
  replay-query q a t = refl

  replay-open : (c : Conn) (t : List Event) → state (sql_open c ∷ t) ≡ state t
  unfolding replay effect
  replay-open c t = refl

  call_or-replay :
      (label sql : Text) (t t' : List Event) (a : Unit {0})
      → call_or env label (sql_exec conn sql) t ≡ (ok a, t')
      → state t' ≡ apply (read sql) (state t)
  call_or-replay label sql t t' a h =
      let (f, e) = call_or-ok env label (sql_exec conn sql) t t' a h in
      ap state e ∙ replay-exec sql t f

  pub execute-replay :
      (label sql : Text) (t t' : List Event) (a : Unit {0})
      → execute env false conn label sql t ≡ (ok a, t')
      → state t' ≡ apply (read sql) (state t)
  unfolding execute
  execute-replay label sql t t' a h = call_or-replay label sql t t' a h

  -- An extension has no effect on roles, databases and grants, on any connection.
  replay-extension :
      (c : Conn) (sql name : Text) (t : List Event)
      → read sql ≡ create_extension name
      → state (sql_exec c sql ∷ t) ≡ state t
  unfolding replay
  replay-extension c sql name t h =
      effect-extension conn c sql name (env.fails t (sql_exec c sql)) (state t) h

  replay-failed :
      (config : DatabaseConfig) (t : List Event) (e : Err)
      → free_of quote config.database ≡ true
      → free_of quote config.user ≡ true
      → env.fails t (sql_exec conn (Sql.create_database config)) ≡ some e
      → state (sql_exec conn (Sql.create_database config) ∷ t) ≡ state t
  unfolding replay effect failed
  replay-failed config t e d u h = rw (h, same_conn_refl conn, read-create_database config d u) refl

  -- The refresh of the collation version has no effect on the roles and databases.
  second_create-replay :
      (config : DatabaseConfig) (e : Err) (t t' : List Event) (a : Unit {0})
      → Postgres.after_create env conn config (err e) t ≡ (ok a, t')
      → state t' ≡ apply (read (Sql.create_database config)) (state t)
  unfolding Postgres.after_create apply
  second_create-replay config e t t' a h =
      if_cases (Postgres.is_collation_version_mismatch e) _ _ t (ok a, t') h
        (λ y k. bind_cases _ _ t t' a k λ a₁ t₁ p₁ h₁.
          call_or-replay _ _ t₁ t' a h₁
          ∙ ap (apply (read (Sql.create_database config)))
              (call_or-replay _ _ t t₁ a₁ p₁ ∙ ap (λ w. apply w (state t)) read-refresh_collation))
        (λ n k. raise-ok _ t t' a k)

  after_create-replay :
      (config : DatabaseConfig) (o : Option Err) (t t' : List Event) (a : Unit {0})
      → free_of quote config.database ≡ true
      → free_of quote config.user ≡ true
      → env.fails t (sql_exec conn (Sql.create_database config)) ≡ o
      → Postgres.after_create env conn config
          (from_option o)
          (sql_exec conn (Sql.create_database config) ∷ t)
        ≡ (ok a, t')
      → state t' ≡ apply (read (Sql.create_database config)) (state t)
  unfolding Postgres.after_create
  after_create-replay config none t t' a d u f h =
      ap state (sym (pure-ok _ _ _ t' h).1) ∙ replay-exec _ t f
  after_create-replay config (some e) t t' a d u f h =
      second_create-replay config e _ t' a h ∙ ap (apply _) (replay-failed config t e d u f)

  pub create_database-replay :
      (config : DatabaseConfig) (t t' : List Event) (a : Unit {0})
      → free_of quote config.database ≡ true
      → free_of quote config.user ≡ true
      → Postgres.create_database env false conn config t ≡ (ok a, t')
      → state t' ≡ apply (read (Sql.create_database config)) (state t)
  unfolding Postgres.create_database ◌>>=◌ try call
  create_database-replay config t t' a d u h = after_create-replay config _ t t' a d u refl h

  create_extensions-replay :
      (other_conn : Conn) (database : Text) (es : List Text) (t t' : List Event) (a : Unit {0})
      → All (λ name. free_of quote name ≡ true) es
      → Postgres.create_extensions env other_conn database es t ≡ (ok a, t')
      → state t' ≡ state t
  unfolding Postgres.create_extensions
  create_extensions-replay other_conn database [] t t' a f h = ap state (sym (pure-ok _ _ _ t' h).1)
  create_extensions-replay other_conn database (x ∷ es) t t' a (f, fs) h =
      bind_cases _ _ t t' a h λ a₁ t₁ p₁ h₁.
        create_extensions-replay other_conn database es t₁ t' a fs h₁
        ∙ (ap state (call_or-ok env _ _ t t₁ a₁ p₁).1
            ∙ replay-extension other_conn _ x t (read-create_extension x f))

  pub maybe_extensions-replay :
      (root : Text) (config : DatabaseConfig) (es : List Text) (t t' : List Event) (a : Unit {0})
      → All (λ name. free_of quote name ≡ true) es
      → Postgres.maybe_extensions env root config false es t ≡ (ok a, t')
      → state t' ≡ state t
  unfolding Postgres.maybe_extensions Postgres.provision_extensions
  maybe_extensions-replay root config [] t t' a f h = ap state (sym (pure-ok _ _ _ t' h).1)
  maybe_extensions-replay root config (x ∷ es) t t' a f h = bind_cases _ _ t t' a h λ url t₁ p₁ h₁.
      bind_cases _ _ t₁ t' a h₁ λ a₂ t₂ p₂ h₂.
        create_extensions-replay _ config.database (x ∷ es) t₂ t' a f h₂
        ∙ (ap state (call_or-ok env _ _ t₁ t₂ a₂ p₂).1
            ∙ (replay-open _ t₁ ∙ ap state (sym (lift-ok _ _ t t₁ (on_err-ok _ _ t t₁ url p₁)).1)))
