-- ===== src/Secrets/PasswordLaws.antt =====
-- Generated passwords.
use homelab_db_provisioner.Prelude.{
  ◌≡◌, refl, ap, ℕ, zero, suc, ◌<◌, true, List, [], ◌∷◌, Text, ◌==◌, any, All, ok, arith, length,
}
use homelab_db_provisioner.World.{Env, Event, ask_number, random_below}
use homelab_db_provisioner.World.Keeps.{Only, Only-pure, Only-bind, Only-ask_number, here, next}
use homelab_db_provisioner.World.Runs.{Runs, Runs-pure, Runs-bind}
use homelab_db_provisioner.Secrets.Password.{charset, char_at, random_chars, generate_password}

pub random_chars-Only :
    {P : Event → Type 0} (env : Env)
    → ((n : ℕ) → P (random_below n))
    → (k : ℕ) → Only P (random_chars env k)
unfolding random_chars
random_chars-Only env h zero = Only-pure []
random_chars-Only env h (suc k) =
    Only-bind _ _ (Only-ask_number env _ (h _))
      λ n. Only-bind _ _ (random_chars-Only env h k) λ rest. Only-pure _

-- `crypto/rand.Int` stays below its bound.
abbrev pub RandomInRange : Env → Type 0
RandomInRange env =
    (t : List Event) (bound n : ℕ) → env.counts t (random_below bound) ≡ ok n → n < bound

-- The character is one of the text's.
abbrev pub IsIn : Text → ℕ → Type 0
IsIn s c = any (λ d. d == c) s ≡ true

char_at-IsIn : (s : Text) (n : ℕ) → n < length s → IsIn s (char_at s n)
char_at-IsIn [] n h = elim h [ ]
char_at-IsIn (d ∷ s) zero h = ground arith
char_at-IsIn (d ∷ s) (suc n) h = ground (arith, char_at-IsIn s n)

-- So many characters, all of the charset.
abbrev pub IsOfSize : ℕ → Text → Type 0
IsOfSize k p = (length p ≡ k) × All (IsIn charset) p

-- Only random numbers are asked for.
abbrev pub IsRandom : Event → Type 0
IsRandom (random_below n) = Unit
IsRandom _ = ⊥

module _ (env : Env) (in_range : RandomInRange env) where
  ask-Runs :
      Runs IsRandom (λ n. n < length charset) (ask_number env (random_below (length charset)))
  unfolding ask_number
  ask-Runs = record { calls = λ t. next tt here; result = λ t n e. in_range t (length charset) n e }

  random_chars-Runs : (k : ℕ) → Runs IsRandom (IsOfSize k) (random_chars env k)
  unfolding random_chars
  random_chars-Runs zero = Runs-pure [] (refl, tt)
  random_chars-Runs (suc k) = Runs-bind _ _ ask-Runs λ n h.
      Runs-bind _ _ (random_chars-Runs k)
        λ rest r. Runs-pure _ (ap suc r.0, (char_at-IsIn charset n h, r.1))

  -- If the random numbers stay below their bound, a generated password has twenty characters, all
  -- of the charset, and nothing but random numbers is asked for.
  pub generate_password-IsOfSize : Runs IsRandom (IsOfSize 20) (generate_password env)
  unfolding generate_password
  generate_password-IsOfSize = random_chars-Runs 20
