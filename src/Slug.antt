-- ===== src/Slug.antt =====
-- `slugify` of backup.go: names of directories and of Secrets. `strings.ToLower` is a parameter.
pub mod Laws
pub mod LoopLaws
use homelab_db_provisioner.Prelude.{
  ℕ, suc, zero, Bool, ◌&&◌, ◌||◌, [], ◌∷◌, Text, leb, ◌==◌, if◌then◌else◌, length, trim_by,
  contains, map,
}

-- The character -.
abbrev pub dash : ℕ
dash = 45

-- a-z, 0-9 and -
abbrev pub is_slug_char : ℕ → Bool
is_slug_char c = (leb 97 c && leb c 122) || ((leb 48 c && leb c 57) || c == dash)

unfoldable pub to_slug_char : ℕ → ℕ
to_slug_char c = if is_slug_char c then c else dash

-- `strings.ReplaceAll(s, "--", "-")`, one pass from the left
unfoldable pub replace_dashes : Text → Text
replace_dashes [] = []
replace_dashes (c ∷ []) = c ∷ []
replace_dashes (c ∷ (d ∷ s)) =
    let shorter = dash ∷ replace_dashes s in
    let kept = c ∷ replace_dashes (d ∷ s) in if c == dash && d == dash then shorter else kept

abbrev pub double_dash : Text
double_dash = dash ∷ (dash ∷ [])

-- `for strings.Contains(result, "--") { … }`, on fuel
unfoldable pub squeeze : ℕ → Text → Text
squeeze zero s = s
squeeze (suc fuel) s =
    let rest = squeeze fuel (replace_dashes s) in if contains double_dash s then rest else s

-- A round makes the text shorter, so its length is enough fuel.
unfoldable pub slugify : (Text → Text) → Text → Text
unfolding squeeze replace_dashes to_slug_char
slugify to_lower s =
    let result = map to_slug_char (to_lower s) in
    trim_by (λ c. c == dash) (squeeze (length result) result)
