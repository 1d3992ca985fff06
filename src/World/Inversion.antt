-- ===== src/World/Inversion.antt =====
-- A computation that ends with a value: what its parts returned, and which calls they made.
use homelab_db_provisioner.Prelude.{
  ◌≡◌, refl, ap, Bool, true, false, if◌then◌else◌, Option, none, List, ◌∷◌, Result, ok, err, arith,
}
use homelab_db_provisioner.World.{
  Event, Env, Secret, Exec, pure, raise, lift, continue, ◌>>=◌, on_err, try, map_err, call, ask,
  ask_secret,
}

module _ {E A B : Type 0} where
  continue-ok :
      (r : Result E A) (f : A → Exec E B) (t t' : List Event) (b : B)
      → continue r f t ≡ (ok b, t')
      → (a : A) × (r ≡ ok a) × (f a t ≡ (ok b, t'))
  continue-ok (ok a) f t t' b h = (a, refl, h)
  continue-ok (err e) f t t' b h = cc

  -- Both parts of a bind have returned.
  pub >>=-ok :
      (m : Exec E A) (f : A → Exec E B) (t t' : List Event) (b : B)
      → (m >>= f) t ≡ (ok b, t')
      → (a : A) × (t₁ : List Event) × (m t ≡ (ok a, t₁)) × (f a t₁ ≡ (ok b, t'))
  unfolding ◌>>=◌
  >>=-ok m f t t' b h =
      let (a, e, k) = continue-ok (m t).0 f (m t).1 t' b h in (a, (m t).1, (λ i. (e i, (m t).1)), k)

  -- The same, for a proof that goes on with what the first part has returned.
  pub bind_cases :
      {P : Type 0} (m : Exec E A) (f : A → Exec E B) (t t' : List Event) (b : B)
      → (m >>= f) t ≡ (ok b, t')
      → ((a : A) (t₁ : List Event) → m t ≡ (ok a, t₁) → f a t₁ ≡ (ok b, t') → P)
      → P
  bind_cases m f t t' b h k = let (a, t₁, p, q) = >>=-ok m f t t' b h in k a t₁ p q

module _ {E A P : Type 0} where
  -- Which branch has run.
  pub if_cases :
      (b : Bool) (m n : Exec E A) (t : List Event) (r : Result E A × List Event)
      → (if b then m else n) t ≡ r
      → (b ≡ true → m t ≡ r → P)
      → (b ≡ false → n t ≡ r → P)
      → P
  if_cases true m n t r h f g = f refl h
  if_cases false m n t r h f g = g refl h

  pub raise-ok : (e : E) (t t' : List Event) (a : A) → raise e t ≡ (ok a, t') → P
  unfolding raise
  raise-ok e t t' a h = cc

module _ {E F A : Type 0} where
  map_err-ok : (f : E → F) (r : Result E A) (a : A) → map_err f r ≡ ok a → r ≡ ok a
  map_err-ok f (ok x) a h = cc
  map_err-ok f (err e) a h = cc

  pub on_err-ok :
      (f : E → F) (m : Exec E A) (t t' : List Event) (a : A)
      → on_err f m t ≡ (ok a, t')
      → m t ≡ (ok a, t')
  unfolding on_err
  on_err-ok f m t t' a h = λ i. (
    map_err-ok f (m t).0 a (ap (λ (p : Result F A × List Event). p.0) h) i,
    ap (λ (p : Result F A × List Event). p.1) h i,
  )

  pub try-ok :
      (m : Exec E A) (t t' : List Event) (r : Result E A)
      → try {F = F} m t ≡ (ok r, t')
      → m t ≡ (r, t')
  unfolding try
  try-ok m t t' r h = ground arith

module _ (env : Env) (e : Event) (t t' : List Event) where
  pub call-ok : (a : Unit {0}) → call env e t ≡ (ok a, t') → (env.fails t e ≡ none) × (t' ≡ e ∷ t)
  unfolding call
  call-ok a h = ground arith

  pub ask-ok : (a : Bool) → ask env e t ≡ (ok a, t') → (env.asks t e ≡ ok a) × (t' ≡ e ∷ t)
  unfolding ask
  ask-ok a h = ground arith

  pub ask_secret-ok :
      (a : Option Secret)
      → ask_secret env e t ≡ (ok a, t')
      → (env.secrets t e ≡ ok a) × (t' ≡ e ∷ t)
  unfolding ask_secret
  ask_secret-ok a h = ground arith

module _ {E A : Type 0} where
  pub pure-ok : (a b : A) (t t' : List Event) → pure {E = E} a t ≡ (ok b, t') → (a ≡ b) × (t ≡ t')
  unfolding pure
  pure-ok a b t t' h = ground arith

  pub lift-ok :
      (r : Result E A) (b : A) (t t' : List Event) → lift r t ≡ (ok b, t') → (r ≡ ok b) × (t ≡ t')
  unfolding lift
  lift-ok r b t t' h = ground arith

-- The computation ends with a value.
abbrev pub Succeeds : {E A : Type 0} → Exec E A → List Event → Type 0
Succeeds {A = A} m t = (a : A) × (t' : List Event) × (m t ≡ (ok a, t'))

module _ {E A B : Type 0} where
  pub bind-Succeeds :
      (m : Exec E A) (f : A → Exec E B) (t : List Event)
      → Succeeds m t
      → ((a : A) (t' : List Event) → m t ≡ (ok a, t') → Succeeds (f a) t')
      → Succeeds (m >>= f) t
  unfolding ◌>>=◌
  bind-Succeeds m f t (a, t', e) k = let (b, t₂, e₂) = k a t' e in (b, t₂, rw e e₂)

module _ {E F A : Type 0} where
  pub on_err-Succeeds :
      (f : E → F) (m : Exec E A) (t : List Event) → Succeeds m t → Succeeds (on_err f m) t
  unfolding on_err
  on_err-Succeeds f m t (a, t', e) = (a, t', rw e refl)

module _ {E A : Type 0} where
  pub pure-Succeeds : (a : A) (t : List Event) → Succeeds (pure {E = E} a) t
  unfolding pure
  pure-Succeeds a t = (a, t, refl)

module _ {E F A : Type 0} where
  pub try-Succeeds : (m : Exec E A) (t : List Event) → Succeeds (try {F = F} m) t
  unfolding try
  try-Succeeds m t = ((m t).0, (m t).1, refl)

module _ {E A B : Type 0} where
  -- A part that has run, and the rest.
  pub bind-runs :
      (m : Exec E A) (f : A → Exec E B) (t t₁ : List Event) (a : A) (r : Result E B × List Event)
      → m t ≡ (ok a, t₁)
      → f a t₁ ≡ r
      → (m >>= f) t ≡ r
  unfolding ◌>>=◌
  bind-runs m f t t₁ a r e k = rw e k

module _ {E F A : Type 0} where
  pub try-runs :
      (m : Exec E A) (t t' : List Event) (r : Result E A)
      → m t ≡ (r, t')
      → try {F = F} m t ≡ (ok r, t')
  unfolding try
  try-runs m t t' r e = rw e refl

  pub on_err-runs :
      (f : E → F) (m : Exec E A) (t t' : List Event) (a : A)
      → m t ≡ (ok a, t')
      → on_err f m t ≡ (ok a, t')
  unfolding on_err
  on_err-runs f m t t' a e = rw e refl
