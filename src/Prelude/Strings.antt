-- ===== src/Prelude/Strings.antt =====
-- Go strings as lists of Unicode code points, with the operations of package `strings` that the
-- program uses.
use Prim.Native.Nat.{ℕ}
use Prim.Native.Char.{code}
use Prim.Native.String.{String}
use mathlib.Core.Path.{◌≡◌, refl}
use mathlib.Core.Logic.{◌↔◌}
use mathlib.Core.Bool.{Bool, true, false, ◌&&◌, ◌||◌, not}
use mathlib.Core.Option.{Option, none, some}
use mathlib.Core.List.{List, [], ◌∷◌, ◌++◌}
use native.Mathlib.Omega.{arith}
use homelab_db_provisioner.Prelude.Tests.{◌==◌, leb, if◌then◌else◌}
use homelab_db_provisioner.Prelude.Lists.{length, drop}

abbrev pub Text : Type 0
Text = List ℕ

-- The text of a literal.
unfoldable pub txt : String → Text
txt String.[] = []
txt (String.◌∷◌ c s) = code c ∷ txt s

unfoldable pub text_eq : Text → Text → Bool
text_eq [] [] = true
text_eq [] (d ∷ t) = false
text_eq (c ∷ s) [] = false
text_eq (c ∷ s) (d ∷ t) = (c == d) && text_eq s t

pub text_eq_iff : (s t : Text) → (text_eq s t ≡ true) ↔ (s ≡ t)
unfolding text_eq
text_eq_iff [] [] = (λ h. refl, λ h. refl)
text_eq_iff [] (d ∷ t) = (λ h. cc, λ h. cc)
text_eq_iff (c ∷ s) [] = (λ h. cc, λ h. cc)
text_eq_iff (c ∷ s) (d ∷ t) = ground (arith, text_eq_iff s t)

-- `s == ""`
unfoldable pub is_empty : Text → Bool
is_empty [] = true
is_empty (c ∷ s) = false

pub is_empty_iff : (s : Text) → (is_empty s ≡ true) ↔ (s ≡ [])
unfolding is_empty
is_empty_iff [] = (λ h. refl, λ h. refl)
is_empty_iff (c ∷ s) = (λ h. cc, λ h. cc)

-- `strings.HasPrefix(s, p)`, with the prefix first
unfoldable pub starts_with : Text → Text → Bool
starts_with [] s = true
starts_with (d ∷ p) [] = false
starts_with (d ∷ p) (c ∷ s) = (d == c) && starts_with p s

-- `strings.TrimPrefix(s, p)`, with the prefix first
unfoldable pub trim_prefix : Text → Text → Text
unfolding starts_with
trim_prefix p s = if starts_with p s then drop (length p) s else s

-- `strings.Contains(s, p)`, with the pattern first
unfoldable pub contains : Text → Text → Bool
unfolding starts_with
contains p [] = starts_with p []
contains p (c ∷ s) = starts_with p (c ∷ s) || contains p s

-- The text before the first `c`, and the rest behind it if there is a `c`.
unfoldable pub cut : ℕ → Text → Text × Option Text
cut c [] = ([], none)
cut c (d ∷ s) = let (a, b) = cut c s in if d == c then ([], some s) else (d ∷ a, b)

-- The text before and behind the last `c`, if there is one.
unfoldable pub cut_last : ℕ → Text → Option (Text × Text)
cut_last c [] = none
cut_last c (d ∷ s) = elim (cut_last c s) [
  | some (a, b) ↦ some (d ∷ a, b)
  | none ↦ if d == c then some ([], s) else none
]

-- `strings.Join(parts, sep)`
unfoldable pub join : Text → List Text → Text
join sep [] = []
join sep (p ∷ []) = p
join sep (p ∷ q ∷ ps) = p ++ (sep ++ join sep (q ∷ ps))

unfoldable pub trim_left_by : (ℕ → Bool) → Text → Text
trim_left_by p [] = []
trim_left_by p (c ∷ s) = let rest = trim_left_by p s in if p c then rest else c ∷ s

-- One character in front of what is left of the text behind it.
unfoldable pub keep_unless : Bool → ℕ → Text → Text
keep_unless true c [] = []
keep_unless _ c s = c ∷ s

unfoldable pub trim_right_by : (ℕ → Bool) → Text → Text
unfolding keep_unless
trim_right_by p [] = []
trim_right_by p (c ∷ s) = keep_unless (p c) c (trim_right_by p s)

-- `strings.Trim`: without the leading and trailing characters that pass the test
unfoldable pub trim_by : (ℕ → Bool) → Text → Text
unfolding trim_left_by trim_right_by
trim_by p s = trim_right_by p (trim_left_by p s)

-- Not the character `c` anywhere.
unfoldable pub free_of : ℕ → Text → Bool
free_of c [] = true
free_of c (d ∷ s) = not (d == c) && free_of c s

-- `unicode.IsSpace`
is_space : ℕ → Bool
is_space c =
    (leb 9 c && leb c 13)
    || (c == 32
        || (c == 0x85
            || (c == 0xa0
                || (c == 0x1680
                    || ((leb 0x2000 c && leb c 0x200a)
                        || (c == 0x2028
                            || (c == 0x2029 || (c == 0x202f || (c == 0x205f || c == 0x3000)))))))))

-- `strings.TrimSpace`
unfoldable pub trim_space : Text → Text
unfolding is_space trim_by
trim_space = trim_by is_space

-- One character in front of the first part, or of a part of its own.
split_cons : Bool → ℕ → List Text → List Text
split_cons true d parts = [] ∷ parts
split_cons false d [] = (d ∷ []) ∷ []
split_cons false d (p ∷ parts) = (d ∷ p) ∷ parts

-- `strings.Split(s, ",")` and the like, at one character: never empty
unfoldable pub split : ℕ → Text → List Text
unfolding split_cons
split c [] = [] ∷ []
split c (d ∷ s) = split_cons (d == c) d (split c s)
