-- ===== src/Migrate/CountsLaws.antt =====
-- What `compareTableCounts` accepts.
use homelab_db_provisioner.Prelude.{
  ◌≡◌, refl, ◌≢◌, ◌↔◌, sym, ◌∙◌, subst, inl, inr, ℕ, none, some, List, [], ◌∷◌, Text, text_eq,
  text_eq_iff, arith, Bool-cases, Option-cases, All,
}
use homelab_db_provisioner.Prelude.Dict.{lookup, get_or, text_eq_refl}
use homelab_db_provisioner.Prelude.Sort.{sort, All-sort, sort-All}
use homelab_db_provisioner.Migrate.Counts.{
  Counts, keys, compare_key, first_mismatch, extra_keys, extra_error, compare_table_counts,
}

All-map : (P Q : Text → Type 0) (xs : List Text) → ((x : Text) → P x → Q x) → All P xs → All Q xs
All-map P Q [] f a = tt
All-map P Q (x ∷ xs) f a = (f x a.0, All-map P Q xs f a.1)

-- A property of all keys holds of every key that is found.
at_key :
    (P : Text → Type 0) (m : Counts) (k : Text) (n : ℕ) → All P (keys m) → lookup k m ≡ some n → P k
unfolding keys lookup
at_key P [] k n a h = cc
at_key P ((j, v) ∷ m) k n a h = elim (Bool-cases (text_eq j k)) [
  | inl e ↦ subst P ((text_eq_iff j k).0 e) a.0
  | inr e ↦ at_key P m k n a.1 (ground arith)
]

found_cons : (j k : Text) (v : ℕ) (m : Counts) → lookup k m ≢ none → lookup k ((j, v) ∷ m) ≢ none
unfolding lookup
found_cons j k v m h = ground arith

found_head : (j : Text) (v : ℕ) (m : Counts) → lookup j ((j, v) ∷ m) ≢ none
unfolding lookup
found_head j v m = ground (arith, text_eq_refl j)

keys_found : (m : Counts) → All (λ k. lookup k m ≢ none) (keys m)
unfolding keys
keys_found [] = tt
keys_found ((j, v) ∷ m) =
    (found_head j v m, All-map _ _ (keys m) (λ k. found_cons j k v m) (keys_found m))

-- What one round of the loop has checked.
abbrev Agrees : Counts → Counts → Text → Type 0
Agrees source target k = lookup k target ≡ some (get_or 0 k source)

Agrees-of_no_error :
    (source target : Counts) (k : Text)
    → compare_key k (get_or 0 k source) (lookup k target) ≡ none
    → Agrees source target k
unfolding compare_key
Agrees-of_no_error source target k h = ground arith

no_error_of_Agrees :
    (source target : Counts) (k : Text)
    → Agrees source target k
    → compare_key k (get_or 0 k source) (lookup k target) ≡ none
unfolding compare_key
no_error_of_Agrees source target k h = ground arith

first_mismatch-none :
    (source target : Counts) (ks : List Text)
    → first_mismatch source target ks ≡ none
    → All (Agrees source target) ks
unfolding first_mismatch
first_mismatch-none source target [] h = tt
first_mismatch-none source target (k ∷ ks) h =
    elim (Option-cases (compare_key k (get_or 0 k source) (lookup k target))) [
      | inl e ↦ (
        Agrees-of_no_error source target k e,
        first_mismatch-none source target ks (ground arith),
      )
      | inr (x, e) ↦ absurd (ground arith)
    ]

none-first_mismatch :
    (source target : Counts) (ks : List Text)
    → All (Agrees source target) ks
    → first_mismatch source target ks ≡ none
unfolding first_mismatch
none-first_mismatch source target [] a = refl
none-first_mismatch source target (k ∷ ks) a =
    ground (arith, no_error_of_Agrees source target k a.0, none-first_mismatch source target ks a.1)

extra_keys-nil :
    (source : Counts) (ks : List Text)
    → extra_keys source ks ≡ []
    → All (λ k. lookup k source ≢ none) ks
unfolding extra_keys
extra_keys-nil source [] h = tt
extra_keys-nil source (k ∷ ks) h = elim (Option-cases (lookup k source)) [
  | inl e ↦ absurd (ground arith)
  | inr (n, e) ↦ ((λ e'. cc), extra_keys-nil source ks (ground arith))
]

nil-extra_keys :
    (source : Counts) (ks : List Text)
    → All (λ k. lookup k source ≢ none) ks
    → extra_keys source ks ≡ []
unfolding extra_keys
nil-extra_keys source [] a = refl
nil-extra_keys source (k ∷ ks) a = elim (Option-cases (lookup k source)) [
  | inl e ↦ absurd (a.0 e)
  | inr (n, e) ↦ ground (arith, nil-extra_keys source ks a.1)
]

module _ (source target : Counts) where
  -- The two halves of the check.
  checks :
      compare_table_counts source target ≡ none
      → All (Agrees source target) (keys source) × All (λ k. lookup k source ≢ none) (keys target)
  unfolding compare_table_counts extra_error
  checks h = elim (Option-cases (first_mismatch source target (sort (keys source)))) [
    | inl e ↦ (
      sort-All _ _ (first_mismatch-none source target (sort (keys source)) e),
      extra_keys-nil source (keys target) (ground arith),
    )
    | inr (x, e) ↦ absurd (ground arith)
  ]

  same_at :
      All (Agrees source target) (keys source)
      → All (λ k. lookup k source ≢ none) (keys target)
      → (k : Text) → lookup k source ≡ lookup k target
  unfolding get_or
  same_at a b k = elim (Option-cases (lookup k source)) [
    | inr (n, e) ↦ ground (arith, at_key (Agrees source target) source k n a e)
    | inl e ↦ elim (Option-cases (lookup k target)) [
      | inl e' ↦ cc
      | inr (n, e') ↦ absurd (at_key (λ j. lookup j source ≢ none) target k n b e' e)
    ]
  ]

  same-Agrees :
      ((k : Text) → lookup k source ≡ lookup k target)
      → (k : Text) → lookup k source ≢ none
      → Agrees source target k
  unfolding get_or
  same-Agrees h k f = ground (arith, h k)

  no_error :
      first_mismatch source target (sort (keys source)) ≡ none
      → extra_keys source (keys target) ≡ []
      → compare_table_counts source target ≡ none
  unfolding compare_table_counts extra_error
  no_error a b = ground (arith, a, b)

  -- The comparison of the table counts succeeds exactly if both sides have the same tables, each
  -- with the same number of rows.
  pub compare_table_counts-none :
      (compare_table_counts source target ≡ none) ↔ ((k : Text) → lookup k source ≡ lookup k target)
  compare_table_counts-none = (
    λ h. same_at (checks h).0 (checks h).1,
    λ h.
        no_error
          (none-first_mismatch source target (sort (keys source))
            (All-sort _ _ (All-map _ _ (keys source) (same-Agrees h) (keys_found source))))
          (nil-extra_keys source (keys target)
            (All-map _ _ (keys target) (λ k f e. f (sym (h k) ∙ e)) (keys_found target))),
  )
