-- ===== src/Secrets/Laws.antt =====
-- What reconciliation and rotation do to Kubernetes Secrets.
use homelab_db_provisioner.Prelude.{
  ◌≡◌, refl, subst, inl, inr, true, false, Option, none, some, List, [], Text, txt, text_eq,
  is_empty, ok, arith, ◌&&◌, Bool-cases,
}
use homelab_db_provisioner.Prelude.Dict.{get_or, insert, lookup-insert}
use homelab_db_provisioner.Config.{DatabaseConfig}
use homelab_db_provisioner.World.{
  Env, Event, Err, Secret, lift, on_err, ask_secret, secret_get, secret_update,
}
use homelab_db_provisioner.World.Keeps.{here, next}
use homelab_db_provisioner.World.Runs.{
  Runs, Anything, Runs-pure, Runs-raise, Runs-lift, Runs-bind, Runs-on_err, Runs-call, Runs-Only,
}
use homelab_db_provisioner.World.Reads.{IsRead}
use homelab_db_provisioner.Secrets.Manager
use homelab_db_provisioner.Secrets.Password.{generate_password}
use homelab_db_provisioner.Secrets.PasswordLaws.{random_chars-Only}
use mathlib.Core.Option.{some-injective}

-- Of the calls of a reconciliation, an update leaves this password in the Secret, and nothing is
-- created.
abbrev pub KeepsPassword : Text → Event → Type 0
KeepsPassword password (secret_update s) = get_or [] Manager.password_key s.contents ≡ password
KeepsPassword password (secret_get n s) = Unit
KeepsPassword password _ = ⊥

keys_differ : text_eq Manager.connection_key Manager.password_key ≡ false
unfolding Manager.connection_key Manager.password_key text_eq txt
keys_differ = refl

password-insert :
    (value : Text) (contents : List (Text × Text))
    → get_or [] Manager.password_key (insert Manager.connection_key value contents)
      ≡ get_or [] Manager.password_key contents
unfolding get_or
password-insert value contents =
    ground
      (arith, keys_differ, lookup-insert Manager.connection_key Manager.password_key value contents)

check_managed-Runs :
    {P : Event → Type 0} (env : Env) (namespace name : Text) (o : Option Secret) (s : Secret)
    → o ≡ some s
    → Runs P
        (λ o'. (o' ≡ some s) × (Manager.is_managed s ≡ true))
        (Manager.check_managed env namespace name o)
unfolding Manager.check_managed
check_managed-Runs env namespace name none s e = cc
check_managed-Runs env namespace name (some x) s e = elim (Bool-cases (Manager.is_managed x)) [
  | inl m ↦
      rw m (Runs-pure _ (e, subst (λ y. Manager.is_managed y ≡ true) (some-injective x s e) m))
  | inr m ↦ rw m (Runs-raise _)
]

module _ (env : Env) (namespace root : Text) (db : DatabaseConfig) (s : Secret) where
  abbrev stored : Text
  stored = get_or [] Manager.password_key s.contents

  build-Runs :
      {P : Event → Type 0} (label : Err → Err) (password : Text)
      → Runs P Anything (on_err label (lift (Manager.build_connect_string env root db password)))
  build-Runs label password = Runs-on_err _ _ (Runs-lift _ (λ _ _. tt))

  add_connect_string-Runs :
      Runs
        (KeepsPassword stored)
        (λ p. p ≡ stored)
        (Manager.add_connect_string env namespace root db s stored)
  unfolding Manager.add_connect_string
  add_connect_string-Runs =
      elim (Bool-cases
        (db.requires_connect_string && is_empty (get_or [] Manager.connection_key s.contents))) [
          | inl e ↦ rw e (
              Runs-bind _ _ (build-Runs _ _) λ conn_str _.
                Runs-bind _ _
                  (Runs-on_err {Q = Anything} _ _
                    (Runs-call env _ (password-insert conn_str s.contents)))
                  λ _ _. Runs-pure _ refl)
          | inr e ↦ rw e (Runs-pure _ refl)
        ]

  from_secret-Runs :
      Runs (KeepsPassword stored) (λ p. p ≡ stored) (Manager.from_secret env namespace root db s)
  unfolding Manager.from_secret
  from_secret-Runs = elim (Bool-cases (is_empty stored)) [
    | inl e ↦ rw e (Runs-raise _)
    | inr e ↦ rw e add_connect_string-Runs
  ]

  module _
      (found : (t : List Event)
        → env.secrets t (secret_get namespace db.k8s_secret) ≡ ok (some s)) where
    ask-Runs :
        {P : Event → Type 0}
        → P (secret_get namespace db.k8s_secret)
        → Runs P (λ o. o ≡ some s) (ask_secret env (secret_get namespace db.k8s_secret))
    unfolding ask_secret
    ask-Runs h = record { calls = λ t. next h here; result = λ t o e. ground (arith, found t) }

    managed-Runs :
        {P : Event → Type 0}
        → P (secret_get namespace db.k8s_secret)
        → Runs P
            (λ o. (o ≡ some s) × (Manager.is_managed s ≡ true))
            (Manager.managed_secret env namespace db.k8s_secret)
    unfolding Manager.managed_secret
    managed-Runs h =
        Runs-bind _ _ (Runs-on_err _ _ (ask-Runs h))
          (λ o e. check_managed-Runs env namespace db.k8s_secret o s e)

    from_found-Runs :
        (o : Option Secret)
        → o ≡ some s
        → Runs (KeepsPassword stored) (λ p. p ≡ stored) (Manager.from_found env namespace root db o)
    unfolding Manager.from_found
    from_found-Runs o e = rw e from_secret-Runs

    -- If the Secret of a database exists, reconciling its password creates nothing, never changes
    -- the password that is stored (an update may add the connection string), and returns that
    -- password if it returns one.
    pub reconcile_password-keeps :
        Runs
          (KeepsPassword stored)
          (λ p. p ≡ stored)
          (Manager.reconcile_password env namespace root db)
    unfolding Manager.reconcile_password
    reconcile_password-keeps = Runs-bind _ _ (managed-Runs tt) (λ o e. from_found-Runs o e.0)

    -- A Secret that this program did not create is not touched: neither reconciliation nor
    -- rotation makes any call but reads, and neither returns a password.
    pub unmanaged_untouched :
        Manager.is_managed s ≡ false
        → Runs IsRead (λ p. ⊥) (Manager.reconcile_password env namespace root db)
          × Runs IsRead (λ p. ⊥) (Manager.rotate_secret env namespace root db)
    unfolding Manager.reconcile_password Manager.rotate_secret generate_password
    unmanaged_untouched foreign = (
      Runs-bind _ _ (managed-Runs tt) (λ o e. cc),
      (elim (Bool-cases (is_empty db.k8s_secret)) [
        | inl e ↦ rw e (Runs-raise _)
        | inr e ↦ rw e (
            Runs-bind _ _
              (Runs-on_err {Q = Anything} _ _ (Runs-Only _ (random_chars-Only env (λ n. tt) 20)))
              λ _ _.
                Runs-bind {Q = Anything} _ _ (Runs-lift _ (λ _ _. tt))
                  λ _ _. Runs-bind _ _ (managed-Runs tt) (λ o e'. cc))
      ]),
    )
