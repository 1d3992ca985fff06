-- ===== src/Provision/Succeeds.antt =====
-- A run of `provisionPostgreSQL` against a server that is up.
use homelab_db_provisioner.Prelude.{
  ◌≡◌, refl, sym, ap, ◌∙◌, subst, Bool, true, false, not, none, List, [], ◌∷◌, Text, txt, ok,
  if◌then◌else◌,
}
use homelab_db_provisioner.Config.{DatabaseConfig}
use homelab_db_provisioner.World.{
  Env, Event, Conn, pure, ◌>>=◌, try, call, ask, sql_exec, sql_query,
}
use homelab_db_provisioner.World.Inversion.{
  on_err-ok, ask-ok, Succeeds, bind-Succeeds, on_err-Succeeds, pure-Succeeds,
}
use homelab_db_provisioner.World.Runs.{ok-eq}
use homelab_db_provisioner.Sql.Postgres as Sql
use homelab_db_provisioner.Sql.Reader.{create_role, set_owner, read}
use homelab_db_provisioner.Sql.ReaderLaws.{
  read-create_user, read-alter_user, read-create_database, read-alter_owner, read-grant,
}
use homelab_db_provisioner.Provision.Statement.{call_or, execute}
use homelab_db_provisioner.Provision.Postgres
use homelab_db_provisioner.Provision.Server.{
  State, IsPlain, IsTruthful, IsUp, IsValid, IsKnown, has, apply, replay, provisioned,
}
use homelab_db_provisioner.Provision.Replay.{free_of-quote, replay-query}
use homelab_db_provisioner.Provision.Refines.{
  has-insert, set_password-replay, set_owner-replay, provision_postgresql-refines,
}

-- What is there, and known, after the role has its password.
has-create_role :
    (role password : Text) (s s' : State)
    → s' ≡ apply (create_role role password) s
    → IsKnown s
    → (has role s'.roles ≡ true) × IsKnown s'
unfolding apply
has-create_role role password s s' e known = (
  ap (λ (x : State). has role x.roles) e ∙ has-insert role password s.roles,
  ap (λ (x : State). x.unread) e ∙ known,
)

-- What is there after the database has its owner.
has-set_owner :
    (database owner : Text) (s s' : State)
    → s' ≡ apply (set_owner database owner) s
    → has owner s.roles ≡ true
    → IsKnown s
    → (has database s'.databases ≡ true) × (has owner s'.roles ≡ true) × IsKnown s'
unfolding apply
has-set_owner database owner s s' e h known = (
  ap (λ (x : State). has database x.databases) e ∙ has-insert database owner s.databases,
  ap (λ (x : State). has owner x.roles) e ∙ h,
  ap (λ (x : State). x.unread) e ∙ known,
)

module _ (env : Env) (conn : Conn) (start : State) where
  abbrev state : List Event → State
  state t = replay env.fails conn start t

  -- What a server that is up answers is true.
  IsUp-IsTruthful : IsUp env conn start → IsTruthful env conn start
  IsUp-IsTruthful up = record {
    user_answer = λ t name b known e. ok-eq _ _ (sym (up.user_query t name known) ∙ e);
    database_answer = λ t name b known e. ok-eq _ _ (sym (up.database_query t name known) ∙ e);
  }

  call-Succeeds : (e : Event) (t : List Event) → env.fails t e ≡ none → Succeeds (call env e) t
  unfolding call
  call-Succeeds e t h = (tt, e ∷ t, rw h refl)

  execute-Succeeds :
      (label sql : Text) (t : List Event)
      → IsUp env conn start
      → IsKnown (state t)
      → IsValid (read sql) (state t)
      → Succeeds (execute env false conn label sql) t
  unfolding execute call_or
  execute-Succeeds label sql t up known v =
      on_err-Succeeds _ _ t (call-Succeeds _ t (up.valid_statement t sql known v))

  create_database-Succeeds :
      (config : DatabaseConfig) (t : List Event)
      → IsUp env conn start
      → IsKnown (state t)
      → IsValid (read (Sql.create_database config)) (state t)
      → Succeeds (Postgres.create_database env false conn config) t
  unfolding Postgres.create_database Postgres.after_create ◌>>=◌ try call pure
  create_database-Succeeds config t up known v =
      (tt, sql_exec conn (Sql.create_database config) ∷ t, rw (up.valid_statement t _ known v) refl)

  module _ (config : DatabaseConfig) (plain : IsPlain config) (up : IsUp env conn start) where
    set_password-Succeeds :
        (user_exists : Bool) (t : List Event)
        → IsKnown (state t)
        → has config.user (state t).roles ≡ user_exists
        → Succeeds
            (if user_exists
              then execute env false conn
                  (txt "failed to update user password: ")
                  (Sql.alter_user config)
              else execute env false conn (txt "failed to create user: ") (Sql.create_user config))
            t
    set_password-Succeeds true t known h = execute-Succeeds _ _ t up known (
        subst (λ w. IsValid w (state t))
          (sym (read-alter_user config (free_of-quote config.user plain.user_plain)))
          (plain.user_plain, plain.password_plain, h))
    set_password-Succeeds false t known h = execute-Succeeds _ _ t up known (
        subst (λ w. IsValid w (state t))
          (sym (read-create_user config (free_of-quote config.user plain.user_plain)))
          (plain.user_plain, plain.password_plain, h))

    set_owner-Succeeds :
        (found : Bool) (t : List Event)
        → IsKnown (state t)
        → has config.user (state t).roles ≡ true
        → has config.database (state t).databases ≡ found
        → Succeeds
            (if found
              then execute env false conn
                  (txt "failed to alter database owner: ")
                  (Sql.alter_owner config)
              else Postgres.create_database env false conn config)
            t
    set_owner-Succeeds true t known u h = execute-Succeeds _ _ t up known (
        subst (λ w. IsValid w (state t))
          (sym (
            read-alter_owner config (free_of-quote config.database plain.database_plain)
              (free_of-quote config.user plain.user_plain)))
          (plain.database_plain, plain.user_plain, h, u))
    set_owner-Succeeds false t known u h = create_database-Succeeds config t up known (
        subst (λ w. IsValid w (state t))
          (sym (
            read-create_database config (free_of-quote config.database plain.database_plain)
              (free_of-quote config.user plain.user_plain)))
          (plain.database_plain, plain.user_plain, h, u))

    privileges-all : (ps : List Text) → ps ≡ [] → Sql.privileges ps ≡ txt "ALL PRIVILEGES"
    unfolding Sql.privileges
    privileges-all [] e = refl
    privileges-all (p ∷ ps) e = cc

    grant-Succeeds :
        (label : Text) (t : List Event)
        → IsKnown (state t)
        → config.permissions ≡ []
        → has config.database (state t).databases ≡ true
        → has config.user (state t).roles ≡ true
        → Succeeds (execute env false conn label (Sql.grant config)) t
    grant-Succeeds label t known all d u = execute-Succeeds _ _ t up known (
        subst (λ w. IsValid w (state t))
          (sym (
            read-grant config plain.privileges_plain
              (free_of-quote config.database plain.database_plain)
              (free_of-quote config.user plain.user_plain)))
          (privileges-all config.permissions all, plain.database_plain, plain.user_plain, d, u))

    maybe_extensions-Succeeds :
        (root : Text) (es : List Text) (t : List Event)
        → es ≡ []
        → Succeeds (Postgres.maybe_extensions env root config false es) t
    unfolding Postgres.maybe_extensions pure
    maybe_extensions-Succeeds root [] t e = (tt, t, refl)
    maybe_extensions-Succeeds root (x ∷ es) t e = cc

    query-Succeeds :
        (q name : Text) (b : Bool) (t : List Event)
        → env.asks t (sql_query conn q name) ≡ ok b
        → Succeeds (ask env (sql_query conn q name)) t
    unfolding ask
    query-Succeeds q name b t h = (b, sql_query conn q name ∷ t, rw h refl)

    after_query :
        {A : Type 0} {b : A} (f : State → A) (q name : Text) (t t' : List Event)
        → t' ≡ sql_query conn q name ∷ t
        → f (state t) ≡ b
        → f (state t') ≡ b
    after_query f q name t t' e h = ap f (ap state e ∙ replay-query env conn start q name t) ∙ h

    provision_postgresql-Succeeds :
        (root : Text) (t : List Event)
        → IsKnown (state t)
        → config.permissions ≡ []
        → config.extensions ≡ []
        → Succeeds (Postgres.provision_postgresql env conn root config false) t
    unfolding Postgres.provision_postgresql Postgres.check_user_exists
        Postgres.check_database_exists
    provision_postgresql-Succeeds root t known all none_given =
        let truthful = IsUp-IsTruthful up in
        bind-Succeeds _ _ t
          (on_err-Succeeds _ _ t
            (query-Succeeds _ config.user _ t (up.user_query t config.user known)))
          λ user t₁ p₁.
            let (f₁, e₁) = ask-ok env _ t t₁ user (on_err-ok _ _ t t₁ user p₁) in
            let known₁ = after_query (λ s. s.unread) Sql.user_exists config.user t t₁ e₁ known in
            bind-Succeeds _ _ t₁
              (set_password-Succeeds user t₁ known₁ (
                after_query (λ s. has config.user s.roles) Sql.user_exists config.user t t₁ e₁
                  (truthful.user_answer t config.user user known f₁)))
              λ a₂ t₂ p₂.
                let (role, known₂) =
                  has-create_role config.user config.password (state t₁) (state t₂)
                    (set_password-replay env conn start config plain user t₁ t₂ a₂ p₂) known₁ in
                bind-Succeeds _ _ t₂
                  (on_err-Succeeds _ _ t₂ (
                    query-Succeeds _ config.database _ t₂
                      (up.database_query t₂ config.database known₂)))
                  λ found t₃ p₃.
                    let (f₃, e₃) = ask-ok env _ t₂ t₃ found (on_err-ok _ _ t₂ t₃ found p₃) in
                    let role₃ =
                      after_query (λ s. has config.user s.roles) Sql.database_exists config.database
                        t₂ t₃ e₃ role in
                    let known₃ =
                      after_query (λ s. s.unread) Sql.database_exists config.database t₂ t₃ e₃
                        known₂ in
                    bind-Succeeds _ _ t₃
                      (set_owner-Succeeds found t₃ known₃ role₃ (
                        after_query (λ s. has config.database s.databases) Sql.database_exists
                          config.database t₂ t₃ e₃
                          (truthful.database_answer t₂ config.database found known₂ f₃)))
                      λ a₄ t₄ p₄.
                        let (d, u, known₄) =
                          has-set_owner config.database config.user (state t₃) (state t₄)
                            (set_owner-replay env conn start config plain found t₃ t₄ a₄ p₄) role₃
                            known₃ in
                        bind-Succeeds _ _ t₄ (grant-Succeeds _ t₄ known₄ all d u) λ a₅ t₅ p₅.
                          bind-Succeeds _ _ t₅
                            (maybe_extensions-Succeeds root config.extensions t₅ none_given)
                            λ a₆ t₆ p₆. pure-Succeeds (not found) t₆

    -- Against a PostgreSQL server that is up, so that in a known state it answers each catalogue
    -- query truly and no valid statement fails, and from a known state, provisioning a database
    -- without extensions and with all privileges, in no dry run, ends without an error, whatever
    -- roles and databases exist, provided that the server takes the names and the password as they
    -- are: the run reports whether the database was missing, and the server's state is what the
    -- abstract provisioning makes of the state before.
    pub provision_postgresql-achieves :
        (root : Text) (t : List Event)
        → IsKnown (replay env.fails conn start t)
        → config.permissions ≡ []
        → config.extensions ≡ []
        → (t' : List Event) × (Postgres.provision_postgresql env conn root config false t
            ≡ (ok (not (has config.database (replay env.fails conn start t).databases)), t'))
          × (replay env.fails conn start t' ≡ provisioned config (replay env.fails conn start t))
    provision_postgresql-achieves root t known all none_given =
        let (created, t', e) = provision_postgresql-Succeeds root t known all none_given in
        let (s, c) =
          provision_postgresql-refines env conn start config plain root t t' created
            (IsUp-IsTruthful up) known e in
        (
          t',
          subst (λ b. Postgres.provision_postgresql env conn root config false t ≡ (ok b, t')) c e,
          s,
        )
