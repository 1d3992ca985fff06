-- ===== src/World/Runs.antt =====
-- What calls a computation can make, together with what holds of a value that it returns.
use homelab_db_provisioner.Prelude.{
  ◌≡◌, refl, subst, Bool, true, false, Option, none, some, List, Result, ok, err, if◌then◌else◌,
}
use homelab_db_provisioner.World.{
  Event, Env, Exec, pure, raise, from_some, lift, continue, ◌>>=◌, on_err, map_err, call,
  ask_config, config_read,
}
use homelab_db_provisioner.World.Keeps.{Extends, here, next, Extends-trans, Only}

-- Every call satisfies `P`, and every value that is returned satisfies `Q`.
pub record Runs {E A : Type 0} (P : Event → Type 0) (Q : A → Type 0) (m : Exec E A) : Type 0 where
  pub calls : (t : List Event) → Extends P t (m t).1
  pub result : (t : List Event) (a : A) → (m t).0 ≡ ok a → Q a

module _ {E A : Type 0} where
  pub ok-eq : (a b : A) → ◌≡◌ {A = Result E A} (ok a) (ok b) → a ≡ b
  ok-eq a b e = cc

  map_err-ok : {F : Type 0} (f : E → F) (r : Result E A) (a : A) → map_err f r ≡ ok a → r ≡ ok a
  map_err-ok f (ok x) a h = cc
  map_err-ok f (err e) a h = cc

-- Nothing is said of the value.
abbrev pub Anything : {A : Type 0} → A → Type 0
Anything a = Unit

module _ {E A : Type 0} {P : Event → Type 0} {Q : A → Type 0} where
  pub Runs-pure : (a : A) → Q a → Runs P Q (pure {E = E} a)
  unfolding pure
  Runs-pure a q = record { calls = λ t. here; result = λ t b e. subst Q (ok-eq a b e) q }

  pub Runs-raise : (e : E) → Runs P Q (raise e)
  unfolding raise
  Runs-raise e = record { calls = λ t. here; result = λ t b h. cc }

  pub Runs-lift : (r : Result E A) → ((a : A) → r ≡ ok a → Q a) → Runs P Q (lift r)
  unfolding lift
  Runs-lift r k = record { calls = λ t. here; result = λ t b h. k b h }

  pub Runs-from_some :
      (e : E) (o : Option A) → ((a : A) → o ≡ some a → Q a) → Runs P Q (from_some e o)
  unfolding from_some
  Runs-from_some e none k = Runs-raise e
  Runs-from_some e (some a) k = Runs-pure a (k a refl)

  pub Runs-if :
      (b : Bool) (m n : Exec E A)
      → (b ≡ true → Runs P Q m)
      → (b ≡ false → Runs P Q n)
      → Runs P Q (if b then m else n)
  Runs-if true m n km kn = km refl
  Runs-if false m n km kn = kn refl

  pub Runs-on_err : {F : Type 0} (f : E → F) (m : Exec E A) → Runs P Q m → Runs P Q (on_err f m)
  unfolding on_err
  Runs-on_err f m k = record {
    calls = k.calls;
    result = λ t a h. k.result t a (map_err-ok f (m t).0 a h);
  }

module _ {E A B : Type 0} {P : Event → Type 0} {Q : A → Type 0} {R : B → Type 0} where
  continue-calls :
      (r : Result E A) (f : A → Exec E B) (t : List Event)
      → ((a : A) → r ≡ ok a → Q a)
      → ((a : A) → Q a → Runs P R (f a))
      → Extends P t (continue r f t).1
  continue-calls (ok a) f t q k = (k a (q a refl)).calls t
  continue-calls (err e) f t q k = here

  continue-result :
      (r : Result E A) (f : A → Exec E B) (t : List Event) (b : B)
      → ((a : A) → r ≡ ok a → Q a)
      → ((a : A) → Q a → Runs P R (f a))
      → (continue r f t).0 ≡ ok b
      → R b
  continue-result (ok a) f t b q k h = (k a (q a refl)).result t b h
  continue-result (err e) f t b q k h = cc

  pub Runs-bind :
      (m : Exec E A) (f : A → Exec E B)
      → Runs P Q m
      → ((a : A) → Q a → Runs P R (f a))
      → Runs P R (m >>= f)
  unfolding ◌>>=◌
  Runs-bind m f km kf = record {
    calls = λ t. Extends-trans (km.calls t) (continue-calls (m t).0 f (m t).1 (km.result t) kf);
    result = λ t b h. continue-result (m t).0 f (m t).1 b (km.result t) kf h;
  }

module _ {E A : Type 0} {P : Event → Type 0} where
  pub Runs-Only : (m : Exec E A) → Only P m → Runs P Anything m
  Runs-Only m k = record { calls = k.calls; result = λ t a h. tt }

  pub Only-Runs : {Q : A → Type 0} (m : Exec E A) → Runs P Q m → Only P m
  Only-Runs m k = record { calls = k.calls }

module _ {P : Event → Type 0} where
  pub Runs-call : (env : Env) (e : Event) → P e → Runs P Anything (call env e)
  unfolding call
  Runs-call env e h = record { calls = λ t. next h here; result = λ t a q. tt }

  -- What is read is an answer of the environment.
  pub Runs-ask_config :
      {E : Type 0} (env : Env)
      → P config_read
      → Runs P (λ r. (t : List Event) × (env.config t ≡ r)) (ask_config {E = E} env)
  unfolding ask_config
  Runs-ask_config env h = record { calls = λ t. next h here; result = λ t r e. (t, ok-eq _ r e) }
