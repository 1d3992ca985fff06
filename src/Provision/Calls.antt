-- ===== src/Provision/Calls.antt =====
-- The calls of a successful `provisionPostgreSQL`, in their order.
use homelab_db_provisioner.Prelude.{
  ◌≡◌, refl, subst, ap, ◌∙◌, ◌⊎◌, inl, inr, Bool, true, false, not, List, [], ◌∷◌, ◌++◌, Text, txt,
  Result, ok, err, arith, if◌then◌else◌,
}
use homelab_db_provisioner.Config.{DatabaseConfig}
use homelab_db_provisioner.World.{
  Env, Event, Conn, Err, pure, raise, ◌>>=◌, on_err, try, call, sql_exec, sql_query,
}
use homelab_db_provisioner.World.Inversion.{bind_cases, on_err-ok, call-ok, ask-ok, pure-ok}
use homelab_db_provisioner.Sql.Postgres as Sql
use homelab_db_provisioner.Provision.Statement.{call_or, execute}
use homelab_db_provisioner.Provision.Postgres

not-not : (found created : Bool) → not found ≡ created → found ≡ not created
not-not true created h = ground arith
not-not false created h = ground arith

-- The statement that gives the role its password.
abbrev pub set_password : Bool → DatabaseConfig → Text
set_password true config = Sql.alter_user config
set_password false config = Sql.create_user config

-- The calls that leave the database with the right owner, the newest first: an existing one is
-- altered, a missing one is created, perhaps after a refresh of the collation version.
abbrev pub OwnerCalls : Conn → DatabaseConfig → Bool → List Event → Type 0
OwnerCalls conn config false calls = calls ≡ sql_exec conn (Sql.alter_owner config) ∷ []
OwnerCalls conn config true calls =
    let create : Event = sql_exec conn (Sql.create_database config) in
    (calls ≡ create ∷ []) ⊎ (calls ≡ create ∷ (sql_exec conn Sql.refresh_collation ∷ (create ∷ [])))

module _ (env : Env) (conn : Conn) where
  execute-ok :
      (label sql : Text) (t t' : List Event) (a : Unit {0})
      → execute env false conn label sql t ≡ (ok a, t')
      → t' ≡ sql_exec conn sql ∷ t
  unfolding execute
  execute-ok label sql t t' a h =
      (call-ok env (sql_exec conn sql) t t' a (on_err-ok _ _ t t' a h)).1

  after_create-ok :
      (config : DatabaseConfig) (r : Result Err (Unit {0})) (t t' : List Event) (a : Unit {0})
      → Postgres.after_create env conn config r t ≡ (ok a, t')
      → (t' ≡ t)
        ⊎ (t'
            ≡ sql_exec conn (Sql.create_database config)
              ∷ (sql_exec conn Sql.refresh_collation ∷ t))
  unfolding Postgres.after_create call_or on_err ◌>>=◌ call pure raise
  after_create-ok config (ok _) t t' a h = inl (ground arith)
  after_create-ok config (err e) t t' a h = ground arith

  create_database-ok :
      (config : DatabaseConfig) (t t' : List Event) (a : Unit {0})
      → Postgres.create_database env false conn config t ≡ (ok a, t')
      → (calls : List Event) × (t' ≡ calls ++ t) × OwnerCalls conn config true calls
  unfolding Postgres.create_database ◌>>=◌ try call
  create_database-ok config t t' a h = elim (after_create-ok config _ _ t' a h) [
    | inl p ↦ (_, p, inl refl)
    | inr p ↦ (_, p, inr refl)
  ]

  -- How the calls of a successful run that adds no extensions look, the newest first.
  pub record Provisioned (config : DatabaseConfig) (created : Bool) (t t' : List Event)
      : Type 0 where
    pub user_exists : Bool
    pub user_answer : env.asks t (sql_query conn Sql.user_exists config.user) ≡ ok user_exists
    pub database_answer :
        env.asks
          (sql_exec conn (set_password user_exists config)
            ∷ (sql_query conn Sql.user_exists config.user ∷ t))
          (sql_query conn Sql.database_exists config.database)
        ≡ ok (not created)
    pub owner : List Event
    pub owner_calls : OwnerCalls conn config created owner
    pub trace :
        t'
        ≡ sql_exec conn (Sql.grant config)
          ∷ (owner
              ++ (sql_query conn Sql.database_exists config.database
                  ∷ (sql_exec conn (set_password user_exists config)
                      ∷ (sql_query conn Sql.user_exists config.user ∷ t))))

  set_password-ok :
      (config : DatabaseConfig) (b : Bool) (t t' : List Event) (a : Unit {0})
      → (if b
            then execute env false conn
                (txt "failed to update user password: ")
                (Sql.alter_user config)
            else execute env false conn (txt "failed to create user: ") (Sql.create_user config))
          t
        ≡ (ok a, t')
      → t' ≡ sql_exec conn (set_password b config) ∷ t
  set_password-ok config true t t' a h = execute-ok _ _ t t' a h
  set_password-ok config false t t' a h = execute-ok _ _ t t' a h

  set_owner-ok :
      (config : DatabaseConfig) (b : Bool) (t t' : List Event) (a : Unit {0})
      → (if b
            then execute env false conn
                (txt "failed to alter database owner: ")
                (Sql.alter_owner config)
            else Postgres.create_database env false conn config)
          t
        ≡ (ok a, t')
      → (calls : List Event) × (t' ≡ calls ++ t) × OwnerCalls conn config (not b) calls
  set_owner-ok config true t t' a h = (_, execute-ok _ _ t t' a h, refl)
  set_owner-ok config false t t' a h = create_database-ok config t t' a h

  maybe_extensions-ok :
      (root : Text) (config : DatabaseConfig) (es : List Text) (t t' : List Event) (a : Unit {0})
      → es ≡ []
      → Postgres.maybe_extensions env root config false es t ≡ (ok a, t')
      → t ≡ t'
  unfolding Postgres.maybe_extensions pure
  maybe_extensions-ok root config [] t t' a e h = ground arith
  maybe_extensions-ok root config (x ∷ es) t t' a e h = cc

  assemble :
      (config : DatabaseConfig) (created user found : Bool) {t t₁ t₂ t₃ t₄ t₅ t₆ t' : List Event}
      → (env.asks t (sql_query conn Sql.user_exists config.user) ≡ ok user)
        × (t₁ ≡ sql_query conn Sql.user_exists config.user ∷ t)
      → t₂ ≡ sql_exec conn (set_password user config) ∷ t₁
      → (env.asks t₂ (sql_query conn Sql.database_exists config.database) ≡ ok found)
        × (t₃ ≡ sql_query conn Sql.database_exists config.database ∷ t₂)
      → (calls : List Event) × (t₄ ≡ calls ++ t₃) × OwnerCalls conn config (not found) calls
      → t₅ ≡ sql_exec conn (Sql.grant config) ∷ t₄
      → t₅ ≡ t₆
      → (not found ≡ created) × (t₆ ≡ t')
      → Provisioned config created t t'
  assemble config created user found {t} (f₁, e₁) e₂ (f₃, e₃) (owner, e₄, w) e₅ e₆ (c, e₇) =
      record {
        user_exists = user;
        user_answer = f₁;
        database_answer =
            subst
              (λ s.
                env.asks s (sql_query conn Sql.database_exists config.database) ≡ ok (not created))
              (e₂ ∙ ap (λ s. sql_exec conn (set_password user config) ∷ s) e₁)
              (f₃ ∙ ap ok (not-not found created c));
        owner = owner;
        owner_calls = subst (λ b. OwnerCalls conn config b owner) c w;
        trace = rw (← e₇, ← e₆, e₅, e₄, e₃, e₂, e₁);
      }

  -- A run that succeeds, adds no extensions and is no dry run has asked for the role, created it
  -- with the password if the answer was that it is missing and altered its password otherwise,
  -- asked for the database, created it if the answer was that it is missing and set its owner
  -- otherwise, and granted the privileges, in this order and with no other call, except for a
  -- refresh of the collation version between two creations of the database. It reports a creation
  -- exactly if the database was answered to be missing.
  pub provision_postgresql-calls :
      (root : Text) (config : DatabaseConfig) (t t' : List Event) (created : Bool)
      → config.extensions ≡ []
      → Postgres.provision_postgresql env conn root config false t ≡ (ok created, t')
      → Provisioned config created t t'
  unfolding Postgres.provision_postgresql Postgres.check_user_exists Postgres.check_database_exists
      Postgres.maybe_extensions
  provision_postgresql-calls root config t t' created none_given h =
      bind_cases _ _ t t' created h λ user t₁ p₁ h₁. bind_cases _ _ t₁ t' created h₁ λ a₂ t₂ p₂ h₂.
        bind_cases _ _ t₂ t' created h₂ λ found t₃ p₃ h₃.
          bind_cases _ _ t₃ t' created h₃ λ a₄ t₄ p₄ h₄.
            bind_cases _ _ t₄ t' created h₄ λ a₅ t₅ p₅ h₅.
              bind_cases _ _ t₅ t' created h₅ λ a₆ t₆ p₆ h₆.
                assemble config created user found
                  (ask-ok env _ t t₁ user (on_err-ok _ _ t t₁ user p₁))
                  (set_password-ok config user t₁ t₂ a₂ p₂)
                  (ask-ok env _ t₂ t₃ found (on_err-ok _ _ t₂ t₃ found p₃))
                  (set_owner-ok config found t₃ t₄ a₄ p₄) (execute-ok _ _ t₄ t₅ a₅ p₅)
                  (maybe_extensions-ok root config config.extensions t₅ t₆ a₆ none_given p₆)
                  (pure-ok _ _ t₆ t' h₆)
