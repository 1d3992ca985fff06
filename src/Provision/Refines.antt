-- ===== src/Provision/Refines.antt =====
-- What a successful run of `provisionPostgreSQL` does to the abstract server.
use homelab_db_provisioner.Prelude.{
  ◌≡◌, sym, ap, ◌∙◌, Bool, false, not, List, ◌∷◌, Text, txt, ok, if◌then◌else◌,
}
use homelab_db_provisioner.Prelude.{refl, true}
use homelab_db_provisioner.Prelude.Dict.{insert, insert-insert, lookup-insert, text_eq_refl}
use homelab_db_provisioner.Config.{DatabaseConfig}
use homelab_db_provisioner.World.{Env, Event, Conn, sql_query}
use homelab_db_provisioner.World.Inversion.{bind_cases, on_err-ok, ask-ok, pure-ok, if_cases}
use homelab_db_provisioner.Sql.Postgres as Sql
use homelab_db_provisioner.Sql.Reader.{Statement, create_role, set_owner}
use homelab_db_provisioner.Sql.ReaderLaws.{
  read-create_user, read-alter_user, read-create_database, read-alter_owner, read-grant,
}
use homelab_db_provisioner.Provision.Statement.{execute}
use homelab_db_provisioner.Provision.Postgres
use homelab_db_provisioner.Provision.Server.{
  State, IsPlain, IsTruthful, IsKnown, has, apply, replay, provisioned,
}
use homelab_db_provisioner.Provision.Replay.{
  free_of-quote, replay-query, execute-replay, create_database-replay, maybe_extensions-replay,
}

-- The privileges that an entry asks for.
abbrev pub grant_of : DatabaseConfig → Statement
grant_of config = Statement.grant (Sql.privileges config.permissions) config.database config.user

pub has-insert : (k : Text) (v : Text) (m : List (Text × Text)) → has k (insert k v m) ≡ true
unfolding has
has-insert k v m = rw (lookup-insert k k v m, text_eq_refl k) refl

-- What was provisioned is there when it is provisioned again.
again :
    (config : DatabaseConfig) (s s₁ s₂ : State) (created : Bool)
    → s₁ ≡ provisioned config s
    → s₂ ≡ provisioned config s₁
    → created ≡ not (has config.database s₁.databases)
    → (created ≡ false) × (s₂.roles ≡ s₁.roles) × (s₂.databases ≡ s₁.databases)
unfolding provisioned
again config s s₁ s₂ created p q c =
    rw (c, q, p)
      (
        ap not (has-insert config.database config.user s.databases),
        insert-insert config.user config.password s.roles,
        insert-insert config.database config.user s.databases,
      )

provisioned-IsKnown :
    (config : DatabaseConfig) (s s' : State) → s' ≡ provisioned config s → IsKnown s → IsKnown s'
unfolding provisioned
provisioned-IsKnown config s s' p known = ap (λ (x : State). x.unread) p ∙ known

module _ (env : Env) (conn : Conn) (start : State) (config : DatabaseConfig)
    (plain : IsPlain config) where
  abbrev state : List Event → State
  state t = replay env.fails conn start t

  pub set_password-replay :
      (user_exists : Bool) (t t' : List Event) (a : Unit {0})
      → (if user_exists
            then execute env false conn
                (txt "failed to update user password: ")
                (Sql.alter_user config)
            else execute env false conn (txt "failed to create user: ") (Sql.create_user config))
          t
        ≡ (ok a, t')
      → state t' ≡ apply (create_role config.user config.password) (state t)
  unfolding apply
  set_password-replay user_exists t t' a h =
      let u = free_of-quote config.user plain.user_plain in
      if_cases user_exists _ _ t (ok a, t') h
        (λ y k.
          execute-replay env conn start _ _ t t' a k
          ∙ ap (λ w. apply w (state t)) (read-alter_user config u))
        (λ n k.
          execute-replay env conn start _ _ t t' a k
          ∙ ap (λ w. apply w (state t)) (read-create_user config u))

  pub set_owner-replay :
      (found : Bool) (t t' : List Event) (a : Unit {0})
      → (if found
            then execute env false conn
                (txt "failed to alter database owner: ")
                (Sql.alter_owner config)
            else Postgres.create_database env false conn config)
          t
        ≡ (ok a, t')
      → state t' ≡ apply (set_owner config.database config.user) (state t)
  unfolding apply
  set_owner-replay found t t' a h =
      let u = free_of-quote config.user plain.user_plain in
      let d = free_of-quote config.database plain.database_plain in
      if_cases found _ _ t (ok a, t') h
        (λ y k.
          execute-replay env conn start _ _ t t' a k
          ∙ ap (λ w. apply w (state t)) (read-alter_owner config d u))
        (λ n k.
          create_database-replay env conn start config t t' a d u k
          ∙ ap (λ w. apply w (state t)) (read-create_database config d u))

  grant-replay :
      (label : Text) (t t' : List Event) (a : Unit {0})
      → execute env false conn label (Sql.grant config) t ≡ (ok a, t')
      → state t' ≡ apply (grant_of config) (state t)
  grant-replay label t t' a h =
      execute-replay env conn start _ _ t t' a h
      ∙ ap (λ w. apply w (state t))
          (read-grant config plain.privileges_plain
            (free_of-quote config.database plain.database_plain)
            (free_of-quote config.user plain.user_plain))

  assemble :
      (truthful : IsTruthful env conn start) (found created : Bool)
      (t t₁ t₂ t₃ t₄ t₅ t₆ t' : List Event)
      → IsKnown (state t)
      → t₁ ≡ sql_query conn Sql.user_exists config.user ∷ t
      → state t₂ ≡ apply (create_role config.user config.password) (state t₁)
      → (env.asks t₂ (sql_query conn Sql.database_exists config.database) ≡ ok found)
        × (t₃ ≡ sql_query conn Sql.database_exists config.database ∷ t₂)
      → state t₄ ≡ apply (set_owner config.database config.user) (state t₃)
      → state t₅ ≡ apply (grant_of config) (state t₄)
      → state t₆ ≡ state t₅
      → (not found ≡ created) × (t₆ ≡ t')
      → (state t' ≡ provisioned config (state t))
        × (created ≡ not (has config.database (state t).databases))
  unfolding apply provisioned
  assemble truthful found created t t₁ t₂ t₃ t₄ t₅ t₆ t' known e₁ e₂ (f, e₃) e₄ e₅ e₆ (c, e₇) =
      let s₁ : state t₁ ≡ state t = ap state e₁ ∙ replay-query env conn start _ _ t in
      let s₂ = e₂ ∙ ap (apply (create_role config.user config.password)) s₁ in
      let s₃ = ap state e₃ ∙ (replay-query env conn start _ _ t₂ ∙ s₂) in
      (
        ap state (sym e₇)
            ∙ (e₆
                ∙ (e₅
                    ∙ ap (apply (grant_of config))
                        (e₄ ∙ ap (apply (set_owner config.database config.user)) s₃))),
        sym c
            ∙ ap not (
                sym (
                  truthful.database_answer t₂ config.database found
                    (ap (λ (s : State). s.unread) s₂ ∙ known) f)
                ∙ ap (λ (s : State). has config.database s.databases) s₂),
      )

  pub provision_postgresql-refines :
      (root : Text) (t t' : List Event) (created : Bool)
      → IsTruthful env conn start
      → IsKnown (replay env.fails conn start t)
      → Postgres.provision_postgresql env conn root config false t ≡ (ok created, t')
      → (replay env.fails conn start t' ≡ provisioned config (replay env.fails conn start t))
        × (created ≡ not (has config.database (replay env.fails conn start t).databases))
  unfolding Postgres.provision_postgresql Postgres.check_user_exists Postgres.check_database_exists
  provision_postgresql-refines root t t' created truthful known h =
      bind_cases _ _ t t' created h λ user t₁ p₁ h₁. bind_cases _ _ t₁ t' created h₁ λ a₂ t₂ p₂ h₂.
        bind_cases _ _ t₂ t' created h₂ λ found t₃ p₃ h₃.
          bind_cases _ _ t₃ t' created h₃ λ a₄ t₄ p₄ h₄.
            bind_cases _ _ t₄ t' created h₄ λ a₅ t₅ p₅ h₅.
              bind_cases _ _ t₅ t' created h₅ λ a₆ t₆ p₆ h₆.
                assemble truthful found created t t₁ t₂ t₃ t₄ t₅ t₆ t' known
                  (ask-ok env _ t t₁ user (on_err-ok _ _ t t₁ user p₁)).1
                  (set_password-replay user t₁ t₂ a₂ p₂)
                  (ask-ok env _ t₂ t₃ found (on_err-ok _ _ t₂ t₃ found p₃))
                  (set_owner-replay found t₃ t₄ a₄ p₄) (grant-replay _ t₄ t₅ a₅ p₅)
                  (maybe_extensions-replay env conn start root config config.extensions t₅ t₆ a₆
                    plain.extensions_plain p₆)
                  (pure-ok _ _ t₆ t' h₆)

  -- Against a PostgreSQL server whose catalogue queries answer truly, in a known state, and for an
  -- entry whose user, database and password the server takes as they are, whose privileges are
  -- words and whose extensions hold no quotation mark: where two runs for this entry, neither of
  -- them a dry run, follow one another with no call between them and both succeed, the second one
  -- reports no creation and leaves all roles, passwords, databases and owners as they are.
  pub provision_postgresql-again :
      (root : Text) (t t₁ t₂ : List Event) (first second : Bool)
      → IsTruthful env conn start
      → IsKnown (replay env.fails conn start t)
      → Postgres.provision_postgresql env conn root config false t ≡ (ok first, t₁)
      → Postgres.provision_postgresql env conn root config false t₁ ≡ (ok second, t₂)
      → (second ≡ false)
        × ((replay env.fails conn start t₂).roles ≡ (replay env.fails conn start t₁).roles)
        × ((replay env.fails conn start t₂).databases ≡ (replay env.fails conn start t₁).databases)
  provision_postgresql-again root t t₁ t₂ first second truthful known h k =
      let (p, _) = provision_postgresql-refines root t t₁ first truthful known h in
      let (q, c) =
        provision_postgresql-refines root t₁ t₂ second truthful
          (provisioned-IsKnown config (state t) (state t₁) p known) k in
      again config (state t) (state t₁) (state t₂) second p q c
