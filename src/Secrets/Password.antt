-- ===== src/Secrets/Password.antt =====
-- `generatePassword` of admin.go.
use homelab_db_provisioner.Prelude.{ℕ, zero, suc, none, some, [], ◌∷◌, Text, txt, get_elem?, length}
use homelab_db_provisioner.World.{Env, Err, Exec, pure, ◌>>=◌, ask_number, random_below}

unfoldable pub charset : Text
charset = txt "abcdefghijklmnopqrstuvwxyzABCDEFGHIJKLMNOPQRSTUVWXYZ0123456789!@#$%^&*"

-- The character at a position; the position is below the length, for `rand.Int` stays below it.
abbrev pub char_at : Text → ℕ → ℕ
char_at s n = elim (get_elem? s n) [ none ↦ 0 | some c ↦ c ]

module _ (env : Env) where
  unfoldable pub random_chars : ℕ → Exec Err Text
  random_chars zero = pure []
  random_chars (suc k) = do
    n ← ask_number env (random_below (length charset))
    rest ← random_chars k
    pure (char_at charset n ∷ rest)

  unfoldable pub generate_password : Exec Err Text
  unfolding random_chars
  generate_password = random_chars 20
