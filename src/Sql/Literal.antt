-- ===== src/Sql/Literal.antt =====
-- What an SQL scanner reads back from the text of `escapeString`.
use homelab_db_provisioner.Prelude.{
  ◌≡◌, refl, inl, inr, Bool, true, false, Option, none, some, ℕ, [], ◌∷◌, ◌++◌, arith, Text, ◌==◌,
  if◌then◌else◌, starts_with, Bool-cases,
}
use homelab_db_provisioner.Sql.Escape.{apostrophe, escape_string}

-- One more character in front of what a scanner has read.
abbrev cons_first : ℕ → Option (Text × Text) → Option (Text × Text)
cons_first c none = none
cons_first c (some (a, b)) = some (c ∷ a, b)

-- A scanner of what follows the opening apostrophe of a standard SQL string, in which two
-- apostrophes stand for one: the value, and the text behind the closing apostrophe. The flag
-- says that the character before was an apostrophe not yet read as one of a pair.
unfoldable pub scan_string : Bool → Text → Option (Text × Text)
scan_string false [] = none
scan_string true [] = some ([], [])
scan_string false (c ∷ s) =
    let closing = scan_string true s in
    let more = cons_first c (scan_string false s) in if c == apostrophe then closing else more
scan_string true (c ∷ s) =
    let pair = cons_first apostrophe (scan_string false s) in
    if c == apostrophe then pair else some ([], c ∷ s)

-- Whatever text is escaped, a standard SQL scanner reads it back between apostrophes and
-- stops at the closing one, provided that no further apostrophe follows.
pub scan_string-escape_string :
    (s rest : Text)
    → starts_with (apostrophe ∷ []) rest ≡ false
    → scan_string false (escape_string s ++ (apostrophe ∷ rest)) ≡ some (s, rest)
unfolding scan_string escape_string starts_with
scan_string-escape_string [] [] h = refl
scan_string-escape_string [] (d ∷ rest) h = ground arith
scan_string-escape_string (c ∷ s) rest h = elim (Bool-cases (c == apostrophe)) [
  | inl e ↦ rw e (rw (scan_string-escape_string s rest h) (ground arith))
  | inr e ↦ rw e (rw e (rw (scan_string-escape_string s rest h) refl))
]
