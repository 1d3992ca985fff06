-- ===== src/Secrets/SeedLaws.antt =====
-- Which password a new or a rotated Secret holds.
use homelab_db_provisioner.Prelude.{
  ◌≡◌, refl, ap, sym, ◌∙◌, subst, ◌⊎◌, inl, inr, Bool, true, false, Option, none, some, List, ◌∷◌,
  Text, is_empty, ok, arith, if◌then◌else◌,
}
use homelab_db_provisioner.Config.{DatabaseConfig}
use homelab_db_provisioner.World.{
  Env, Event, Err, Secret, Exec, pure, raise, secret_create, secret_update, secret_get,
}
use homelab_db_provisioner.World.Inversion.{
  bind_cases, on_err-ok, call-ok, lift-ok, if_cases, pure-ok, ask_secret-ok,
}
use homelab_db_provisioner.World.Runs.{ok-eq}
use homelab_db_provisioner.Secrets.Manager
use homelab_db_provisioner.Secrets.Password.{generate_password}
use homelab_db_provisioner.Secrets.Contents.{
  Form, IsNew, Stores, HasPassword-of_Form, secret_data-Form, overwrite-IsChanged, new_secret-IsNew,
}

if_raise-ok :
    {A : Type 0} (b : Bool) (e : Err) (m : Exec Err A) (t t' : List Event) (a : A)
    → (if b then raise e else m) t ≡ (ok a, t')
    → m t ≡ (ok a, t')
unfolding raise
if_raise-ok true e m t t' a h = absurd (ground arith)
if_raise-ok false e m t t' a h = h

module _ (env : Env) (namespace root : Text) (db : DatabaseConfig) where
  abbrev lookup_call : Event
  lookup_call = secret_get namespace db.k8s_secret

  create_secret-ok :
      (password : Text) (entries : List (Text × Text)) (t t' : List Event) (a : Unit {0})
      → Form password entries
      → Manager.create_secret env namespace db.k8s_secret entries t ≡ (ok a, t')
      → (s : Secret) × IsNew namespace db.k8s_secret password s × (t' ≡ secret_create s ∷ t)
  unfolding Manager.create_secret
  create_secret-ok password entries t t' a w h = (
    Manager.new_secret env namespace db.k8s_secret entries,
    new_secret-IsNew env namespace db.k8s_secret password entries
        (HasPassword-of_Form password entries w),
    (call-ok env _ t t' a (on_err-ok _ _ t t' a h)).1,
  )

  -- What was looked up is as it was answered, and marked if it was found.
  abbrev Marked : Option Secret → Type 0
  Marked none = Unit {0}
  Marked (some s) = Manager.is_managed s ≡ true

  if_marked :
      (b : Bool) (s : Secret) (e : Err) (o' : Option Secret) (t t' : List Event)
      → (if b then pure (some s) else raise e) t ≡ (ok o', t')
      → (b ≡ true) × (o' ≡ some s) × (t' ≡ t)
  unfolding pure raise
  if_marked true s e o' t t' h = (refl, ground arith, ground arith)
  if_marked false s e o' t t' h = absurd (ground arith)

  check_managed-ok :
      (o o' : Option Secret) (t t' : List Event)
      → Manager.check_managed env namespace db.k8s_secret o t ≡ (ok o', t')
      → (o' ≡ o) × (t' ≡ t) × Marked o
  unfolding Manager.check_managed pure
  check_managed-ok none o' t t' h = (ground arith, ground arith, tt)
  check_managed-ok (some s) o' t t' h =
      let (b, e, e') = if_marked (Manager.is_managed s) s _ o' t t' h in (e, e', b)

  managed_secret-ok :
      (o : Option Secret) (t t' : List Event)
      → Manager.managed_secret env namespace db.k8s_secret t ≡ (ok o, t')
      → (env.secrets t lookup_call ≡ ok o) × (t' ≡ lookup_call ∷ t) × Marked o
  unfolding Manager.managed_secret
  managed_secret-ok o t t' h = bind_cases _ _ t t' o h λ o₁ t₁ h₁ k₁.
      let (found, e) = ask_secret-ok env _ t t₁ o₁ (on_err-ok _ _ t t₁ o₁ h₁) in
      let (same, e', marked) = check_managed-ok o₁ o t₁ t' k₁ in
      (
        subst (λ x. env.secrets t lookup_call ≡ ok x) (sym same) found,
        e' ∙ e,
        subst Marked (sym same) marked,
      )

  write_rotated-ok :
      (password : Text) (entries : List (Text × Text)) (o : Option Secret) (t t' : List Event)
      (p : Text)
      → Marked o
      → Form password entries
      → Manager.write_rotated env namespace db.k8s_secret entries password o t ≡ (ok p, t')
      → (password ≡ p) × ((e : Event) × Stores namespace db.k8s_secret password o e × (t' ≡ e ∷ t))
  unfolding Manager.write_rotated
  write_rotated-ok password entries none t t' p m w h = bind_cases _ _ t t' p h λ a t₁ h₁ h₂.
      let (e, e') = pure-ok password p t₁ t' h₂ in
      let (s, new, k) = create_secret-ok password entries t t₁ a w h₁ in
      (e, (secret_create s, new, sym e' ∙ k))
  write_rotated-ok password entries (some s) t t' p m w h = bind_cases _ _ t t' p h λ a t₁ h₁ h₂.
      let (e, e') = pure-ok password p t₁ t' h₂ in
      (
        e,
        (
          secret_update (Manager.overwrite entries s),
          overwrite-IsChanged password entries s m w,
          sym e' ∙ (call-ok env _ t t₁ a (on_err-ok _ _ t t₁ a h₁)).1,
        ),
      )

  -- A rotation from the calls before to the calls behind it: a password was generated, the Secret
  -- was looked up, and one call stored the password.
  pub record Rotated (password : Text) (t t' : List Event) : Type 0 where
    pub drawn : List Event
    pub found : Option Secret
    pub store : Event
    pub generated : generate_password env t ≡ (ok password, drawn)
    pub answer : env.secrets drawn lookup_call ≡ ok found
    pub stores : Stores namespace db.k8s_secret password found store
    pub trace : t' ≡ store ∷ (lookup_call ∷ drawn)

  -- A rotation that succeeds returns a password that it has just generated, and has stored it as
  -- its last call, right behind the lookup of the database's Secret: if that was missing, it
  -- created a Secret with this name in the namespace of the manager, with the label of this
  -- program and with the password; if it was found, it has that label, and was updated with the
  -- password under its name, its namespace and its labels, with no `stringData` that would
  -- overwrite the password.
  pub rotate_secret-writes :
      (t t' : List Event) (p : Text)
      → Manager.rotate_secret env namespace root db t ≡ (ok p, t')
      → Rotated p t t'
  unfolding Manager.rotate_secret
  rotate_secret-writes t t' p h =
      bind_cases _ _ t t' p (if_raise-ok (is_empty db.k8s_secret) _ _ t t' p h) λ password t₁ h₁ k₁.
        bind_cases _ _ t₁ t' p k₁ λ entries t₂ h₂ k₂. bind_cases _ _ t₂ t' p k₂ λ o t₃ h₃ k₃.
          let (data_ok, e₂) = lift-ok _ entries t₁ t₂ h₂ in
          let w = secret_data-Form password env root db entries data_ok in
          let (answer, e₃, marked) = managed_secret-ok o t₂ t₃ h₃ in
          let (e, (store, stores, e₄)) = write_rotated-ok password entries o t₃ t' p marked w k₃ in
          subst (λ q. Rotated q t t') e
            record {
              drawn = t₁;
              found = o;
              store = store;
              generated = on_err-ok _ _ t t₁ password h₁;
              answer = subst (λ x. env.secrets x lookup_call ≡ ok o) (sym e₂) answer;
              stores = stores;
              trace = e₄ ∙ ap (λ x. store ∷ x) (e₃ ∙ ap (λ x. lookup_call ∷ x) (sym e₂));
            }

  -- The password that a new Secret gets: the one of the config with no call, or else a generated
  -- one.
  abbrev pub Seed : Text → List Event → List Event → Type 0
  Seed p t t' =
      ((is_empty db.password ≡ false) × (p ≡ db.password) × (t' ≡ t))
      ⊎ ((is_empty db.password ≡ true) × (generate_password env t ≡ (ok p, t')))

  seed_password-ok :
      (t t' : List Event) (p : Text)
      → Manager.seed_password env namespace db.password t ≡ (ok p, t')
      → Seed p t t'
  unfolding Manager.seed_password pure
  seed_password-ok t t' p h =
      if_cases (is_empty db.password) _ _ t (ok p, t') h (λ e k. inr (e, on_err-ok _ _ t t' p k))
        (λ e k. let (q, q') = pure-ok _ p t t' k in inl (e, sym q, sym q'))

  -- The first calls, and then the one that creates a Secret with the password.
  pub record Created (p : Text) (t t' : List Event) : Type 0 where
    pub before : List Event
    pub secret : Secret
    pub seed : Seed p t before
    pub new : IsNew namespace db.k8s_secret p secret
    pub trace : t' ≡ secret_create secret ∷ before

  seed_secret-creates :
      (t t' : List Event) (p : Text)
      → Manager.seed_secret env namespace root db t ≡ (ok p, t')
      → Created p t t'
  unfolding Manager.seed_secret
  seed_secret-creates t t' p h = bind_cases _ _ t t' p h λ password t₁ h₁ k₁.
      bind_cases _ _ t₁ t' p k₁ λ entries t₂ h₂ k₂. bind_cases _ _ t₂ t' p k₂ λ a t₃ h₃ k₃.
        let (data_ok, e₂) = lift-ok _ entries t₁ t₂ h₂ in
        let w = secret_data-Form password env root db entries data_ok in
        let (e, e') = pure-ok password p t₃ t' k₃ in
        let (s, new, k) = create_secret-ok password entries t₂ t₃ a w h₃ in
        subst (λ q. Created q t t') e
          record {
            before = t₁;
            secret = s;
            seed = seed_password-ok t t₁ password h₁;
            new = new;
            trace = sym e' ∙ (k ∙ ap (λ x. secret_create s ∷ x) (sym e₂));
          }

  -- If the Secret of a database does not exist, and reconciling its password succeeds, then after
  -- the lookup, and the generation of a password if the config has none, the last call has
  -- created a Secret with this name in the namespace of the manager, with the label of this
  -- program, that holds the password which is returned; this is the password of the config, or
  -- the generated one if that is empty.
  pub reconcile_password-creates :
      (t t' : List Event) (p : Text)
      → env.secrets t (secret_get namespace db.k8s_secret) ≡ ok none
      → Manager.reconcile_password env namespace root db t ≡ (ok p, t')
      → Created p (secret_get namespace db.k8s_secret ∷ t) t'
  unfolding Manager.reconcile_password Manager.from_found
  reconcile_password-creates t t' p missing h = bind_cases _ _ t t' p h λ o t₁ h₁ k₁.
      let (answer, e, _) = managed_secret-ok o t t₁ h₁ in
      let gone : none ≡ o = ok-eq _ _ (sym missing ∙ answer) in
      subst (λ x. Created p x t') e
        (seed_secret-creates t₁ t' p
          (subst (λ x. Manager.from_found env namespace root db x t₁ ≡ (ok p, t')) (sym gone) k₁))
