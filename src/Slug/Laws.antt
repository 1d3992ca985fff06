-- ===== src/Slug/Laws.antt =====
-- What `slugify` returns.
use homelab_db_provisioner.Prelude.{
  ◌≡◌, refl, inl, inr, ℕ, zero, suc, ◌≤◌, ◌<◌, Bool, true, false, ◌&&◌, [], ◌∷◌, Text, arith, ◌==◌,
  length, All, contains, starts_with, trim_by, trim_left_by, trim_right_by, keep_unless, map,
  Bool-cases,
}
use homelab_db_provisioner.Slug.{
  dash, double_dash, is_slug_char, to_slug_char, replace_dashes, squeeze, slugify,
}

abbrev pub AreSlugChars : Text → Type 0
AreSlugChars s = All (λ c. is_slug_char c ≡ true) s

to_slug_char_lem : (c : ℕ) → is_slug_char (to_slug_char c) ≡ true
unfolding to_slug_char
to_slug_char_lem c = ground arith

map-AreSlugChars : (s : Text) → AreSlugChars (map to_slug_char s)
map-AreSlugChars [] = tt
map-AreSlugChars (c ∷ s) = (to_slug_char_lem c, map-AreSlugChars s)

-- A pass over the text keeps its characters, and makes it shorter if there are two dashes in a row.
replace_dashes-AreSlugChars : (s : Text) → AreSlugChars s → AreSlugChars (replace_dashes s)
unfolding replace_dashes
replace_dashes-AreSlugChars [] h = tt
replace_dashes-AreSlugChars (c ∷ []) h = h
replace_dashes-AreSlugChars (c ∷ (d ∷ s)) h = elim (Bool-cases ((c == dash) && (d == dash))) [
  | inl e ↦ rw e (refl, replace_dashes-AreSlugChars s h.1.1)
  | inr e ↦ rw e (h.0, replace_dashes-AreSlugChars (d ∷ s) h.1)
]

length-replace_dashes : (s : Text) → length (replace_dashes s) ≤ length s
unfolding replace_dashes
length-replace_dashes [] = omega arith
length-replace_dashes (c ∷ []) = omega arith
length-replace_dashes (c ∷ (d ∷ s)) =
    ground (arith, length-replace_dashes s, length-replace_dashes (d ∷ s))

pub shorter : (s : Text) → contains double_dash s ≡ true → length (replace_dashes s) < length s
unfolding replace_dashes contains starts_with
shorter [] h = absurd (ground arith)
shorter (c ∷ []) h = absurd (ground arith)
shorter (c ∷ (d ∷ s)) h = elim (Bool-cases ((c == dash) && (d == dash))) [
  | inl e ↦ rw e (omega (arith, length-replace_dashes s))
  | inr e ↦ rw e (omega (arith, shorter (d ∷ s) (ground arith)))
]

pub squeeze-single :
    (fuel : ℕ) (s : Text) → length s ≤ fuel → contains double_dash (squeeze fuel s) ≡ false
unfolding squeeze contains starts_with
squeeze-single zero [] h = refl
squeeze-single zero (c ∷ s) h = absurd (omega arith)
squeeze-single (suc fuel) s h = elim (Bool-cases (contains double_dash s)) [
  | inl e ↦ rw e (squeeze-single fuel (replace_dashes s) (omega (arith, shorter s e)))
  | inr e ↦ rw e e
]

squeeze-AreSlugChars : (fuel : ℕ) (s : Text) → AreSlugChars s → AreSlugChars (squeeze fuel s)
unfolding squeeze
squeeze-AreSlugChars zero s h = h
squeeze-AreSlugChars (suc fuel) s h = elim (Bool-cases (contains double_dash s)) [
  | inl e ↦ rw e (squeeze-AreSlugChars fuel (replace_dashes s) (replace_dashes-AreSlugChars s h))
  | inr e ↦ rw e h
]

abbrev is_dash : ℕ → Bool
is_dash c = c == dash

-- The text ends with a dash.
abbrev pub ends_with_dash : Text → Bool
ends_with_dash [] = false
ends_with_dash (c ∷ []) = c == dash
ends_with_dash (c ∷ (d ∷ s)) = ends_with_dash (d ∷ s)

abbrev one_dash : Text
one_dash = dash ∷ []

module _ (b : Bool) (c : ℕ) where
  keep_unless-All :
      (s : Text) → is_slug_char c ≡ true → AreSlugChars s → AreSlugChars (keep_unless b c s)
  unfolding keep_unless
  keep_unless-All [] h k = elim (Bool-cases b) [ inl e ↦ rw e tt | inr e ↦ rw e (h, tt) ]
  keep_unless-All (d ∷ s) h k = elim (Bool-cases b) [ inl e ↦ rw e (h, k) | inr e ↦ rw e (h, k) ]

  keep_unless-head :
      (s : Text) → starts_with one_dash (keep_unless b c s) ≡ true → (c == dash) ≡ true
  unfolding keep_unless starts_with
  keep_unless-head [] h = ground arith
  keep_unless-head (d ∷ s) h = ground arith

  keep_unless-end :
      (s : Text)
      → b ≡ (c == dash)
      → ends_with_dash s ≡ false
      → ends_with_dash (keep_unless b c s) ≡ false
  unfolding keep_unless
  keep_unless-end [] e h = ground arith
  keep_unless-end (d ∷ s) e h = ground arith

  keep_unless-single :
      (s : Text)
      → (c == dash) && starts_with one_dash s ≡ false
      → contains double_dash s ≡ false
      → contains double_dash (keep_unless b c s) ≡ false
  unfolding keep_unless contains starts_with
  keep_unless-single [] e h = ground arith
  keep_unless-single (d ∷ s) e h = ground arith

trim_right-head :
    (s : Text)
    → starts_with one_dash (trim_right_by is_dash s) ≡ true
    → starts_with one_dash s ≡ true
unfolding trim_right_by starts_with
trim_right-head [] h = h
trim_right-head (c ∷ s) h = ground (arith, keep_unless-head (c == dash) c _ h)

trim_right-All : (s : Text) → AreSlugChars s → AreSlugChars (trim_right_by is_dash s)
unfolding trim_right_by
trim_right-All [] h = tt
trim_right-All (c ∷ s) h = keep_unless-All _ c _ h.0 (trim_right-All s h.1)

trim_right-end : (s : Text) → ends_with_dash (trim_right_by is_dash s) ≡ false
unfolding trim_right_by
trim_right-end [] = refl
trim_right-end (c ∷ s) = keep_unless-end _ c _ refl (trim_right-end s)

trim_right-single :
    (s : Text)
    → contains double_dash s ≡ false
    → contains double_dash (trim_right_by is_dash s) ≡ false
unfolding trim_right_by contains starts_with
trim_right-single [] h = h
trim_right-single (c ∷ s) h =
    keep_unless-single _ c _
      (ground
        (arith, Bool-cases (starts_with one_dash (trim_right_by is_dash s)), trim_right-head s))
      (trim_right-single s (ground arith))

trim_left-All : (s : Text) → AreSlugChars s → AreSlugChars (trim_left_by is_dash s)
unfolding trim_left_by
trim_left-All [] h = tt
trim_left-All (c ∷ s) h = elim (Bool-cases (c == dash)) [
  | inl e ↦ rw e (trim_left-All s h.1)
  | inr e ↦ rw e h
]

trim_left-single :
    (s : Text)
    → contains double_dash s ≡ false
    → contains double_dash (trim_left_by is_dash s) ≡ false
unfolding trim_left_by contains
trim_left-single [] h = h
trim_left-single (c ∷ s) h = elim (Bool-cases (c == dash)) [
  | inl e ↦ rw e (trim_left-single s (ground arith))
  | inr e ↦ rw e h
]

trim_left-head : (s : Text) → starts_with one_dash (trim_left_by is_dash s) ≡ false
unfolding trim_left_by starts_with
trim_left-head [] = refl
trim_left-head (c ∷ s) = elim (Bool-cases (c == dash)) [
  | inl e ↦ rw e (trim_left-head s)
  | inr e ↦ rw e (ground arith)
]

-- Characters a-z, 0-9 and dashes, with no two dashes in a row and none at either end.
pub record IsSlug (s : Text) : Type 0 where
  pub chars : AreSlugChars s
  pub single : contains double_dash s ≡ false
  pub head : starts_with one_dash s ≡ false
  pub end : ends_with_dash s ≡ false

trim-IsSlug :
    (s : Text) → AreSlugChars s → contains double_dash s ≡ false → IsSlug (trim_by is_dash s)
unfolding trim_by
trim-IsSlug s a d =
    let u = trim_left_by is_dash s in
    record {
      chars = trim_right-All u (trim_left-All s a);
      single = trim_right-single u (trim_left-single s d);
      head = ground (
        arith,
        trim_left-head s,
        Bool-cases (starts_with one_dash (trim_right_by is_dash u)),
        trim_right-head u,
      );
      end = trim_right-end u;
    }

-- Whatever the text and whatever the change to lower case, `slugify` returns a text of a-z, 0-9 and
-- dashes, with no two dashes in a row and no dash at either end.
pub slugify-IsSlug : (to_lower : Text → Text) (s : Text) → IsSlug (slugify to_lower s)
unfolding slugify
slugify-IsSlug to_lower s =
    let u = map to_slug_char (to_lower s) in
    trim-IsSlug (squeeze (length u) u) (squeeze-AreSlugChars (length u) u (map-AreSlugChars _))
      (squeeze-single (length u) u (omega arith))
