-- ===== src/World/Keeps.antt =====
-- What calls a computation can make: one rule for each way to build a computation.
use homelab_db_provisioner.Prelude.{
  ◌≡◌, refl, Bool, true, false, List, [], ◌∷◌, Result, ok, err, All, if◌then◌else◌,
}
use homelab_db_provisioner.World.{
  Event, Env, config_read, Exec, pure, raise, lift, continue, ◌>>=◌, on_err, try, for_each, call,
  ask, ask_number, ask_list, ask_names, ask_tables, ask_secret, call_ignoring, ask_config, ask_now,
}

-- The calls behind `t` are `t₀`, and each one made since satisfies `P`.
pub data Extends (P : Event → Type 0) (t₀ : List Event) : List Event → Type 0 where
  here : Extends P t₀ t₀
  next : {e : Event} {t : List Event} → P e → Extends P t₀ t → Extends P t₀ (e ∷ t)

pub Extends-trans :
    {P : Event → Type 0} {s t u : List Event} → Extends P s t → Extends P t u → Extends P s u
Extends-trans p here = p
Extends-trans p (next h q) = next h (Extends-trans p q)

pub Extends-weaken :
    {P Q : Event → Type 0} {s t : List Event}
    → ((e : Event) → P e → Q e)
    → Extends P s t
    → Extends Q s t
Extends-weaken f here = here
Extends-weaken f (next {e = e} h q) = next (f e h) (Extends-weaken f q)

-- Every call that `m` makes satisfies `P`, whatever the answers and the calls before.
pub record Only {E A : Type 0} (P : Event → Type 0) (m : Exec E A) : Type 0 where
  pub calls : (t : List Event) → Extends P t (m t).1

module _ {E A : Type 0} {P : Event → Type 0} where
  pub Only-pure : (a : A) → Only P (pure {E = E} a)
  unfolding pure
  Only-pure a = record { calls = λ t. here }

  pub Only-raise : (e : E) → Only P (raise {A = A} e)
  unfolding raise
  Only-raise e = record { calls = λ t. here }

  pub Only-lift : (r : Result E A) → Only P (lift r)
  unfolding lift
  Only-lift r = record { calls = λ t. here }

  pub Only-if :
      (b : Bool) (m n : Exec E A)
      → (b ≡ true → Only P m)
      → (b ≡ false → Only P n)
      → Only P (if b then m else n)
  Only-if true m n km kn = km refl
  Only-if false m n km kn = kn refl

  pub Only-on_err : {F : Type 0} (f : E → F) (m : Exec E A) → Only P m → Only P (on_err f m)
  unfolding on_err
  Only-on_err f m k = record { calls = k.calls }

  pub Only-try : {F : Type 0} (m : Exec E A) → Only P m → Only P (try {F = F} m)
  unfolding try
  Only-try m k = record { calls = k.calls }

module _ {E A B : Type 0} {P : Event → Type 0} where
  Extends-continue :
      (r : Result E A) (f : A → Exec E B) (t : List Event)
      → ((a : A) → Only P (f a))
      → Extends P t (continue r f t).1
  Extends-continue (ok a) f t k = (k a).calls t
  Extends-continue (err e) f t k = here

  pub Only-bind :
      (m : Exec E A) (f : A → Exec E B) → Only P m → ((a : A) → Only P (f a)) → Only P (m >>= f)
  unfolding ◌>>=◌
  Only-bind m f km kf = record {
    calls = λ t. let (r, t') = m t in Extends-trans (km.calls t) (Extends-continue r f t' kf);
  }

module _ {E A : Type 0} {P : Event → Type 0} where
  pub Only-for_each :
      (as' : List A) (m : A → Exec E (Unit {0}))
      → ((a : A) → Only P (m a))
      → Only P (for_each as' m)
  unfolding for_each
  Only-for_each [] m k = Only-pure tt
  Only-for_each (a ∷ as') m k = Only-bind (m a) _ (k a) (λ _. Only-for_each as' m k)

module _ {E A : Type 0} {P : Event → Type 0} where
  -- Only the elements of the list count.
  pub Only-for_each-All :
      (as' : List A) (m : A → Exec E (Unit {0}))
      → All (λ a. Only P (m a)) as'
      → Only P (for_each as' m)
  unfolding for_each
  Only-for_each-All [] m k = Only-pure tt
  Only-for_each-All (a ∷ as') m k = Only-bind (m a) _ k.0 (λ _. Only-for_each-All as' m k.1)

module _ {P : Event → Type 0} (env : Env) (e : Event) (h : P e) where
  pub Only-call : Only P (call env e)
  unfolding call
  Only-call = record { calls = λ t. next h here }

  pub Only-ask : Only P (ask env e)
  unfolding ask
  Only-ask = record { calls = λ t. next h here }

  pub Only-ask_number : Only P (ask_number env e)
  unfolding ask_number
  Only-ask_number = record { calls = λ t. next h here }

  pub Only-ask_list : Only P (ask_list env e)
  unfolding ask_list
  Only-ask_list = record { calls = λ t. next h here }

  pub Only-ask_names : Only P (ask_names env e)
  unfolding ask_names
  Only-ask_names = record { calls = λ t. next h here }

  pub Only-ask_tables : Only P (ask_tables env e)
  unfolding ask_tables
  Only-ask_tables = record { calls = λ t. next h here }

  pub Only-ask_secret : Only P (ask_secret env e)
  unfolding ask_secret
  Only-ask_secret = record { calls = λ t. next h here }

module _ {E : Type 0} {P : Event → Type 0} where
  pub Only-call_ignoring : (e : Event) → P e → Only P (call_ignoring {E = E} e)
  unfolding call_ignoring
  Only-call_ignoring e h = record { calls = λ t. next h here }

  pub Only-ask_now : (env : Env) → Only P (ask_now {E = E} env)
  unfolding ask_now
  Only-ask_now env = record { calls = λ t. here }

  pub Only-ask_config : (env : Env) → P config_read → Only P (ask_config {E = E} env)
  unfolding ask_config
  Only-ask_config env h = record { calls = λ t. next h here }

pub ruleset only_rules = (
  Only-pure, Only-raise, Only-lift, Only-if, Only-on_err, Only-try, Only-bind, Only-for_each,
  Only-call, Only-ask, Only-ask_number, Only-ask_list, Only-ask_names, Only-ask_tables,
  Only-ask_secret, Only-call_ignoring, Only-ask_config, Only-ask_now,
)
