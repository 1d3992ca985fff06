-- ===== src/Slug/LoopLaws.antt =====
-- The loop of `slugify` and its fuel.
use homelab_db_provisioner.Prelude.{
  ◌≡◌, refl, sym, inl, inr, ℕ, zero, suc, ◌≤◌, false, [], ◌∷◌, Text, arith, length, contains,
  starts_with, Bool-cases,
}
use homelab_db_provisioner.Slug.{double_dash, replace_dashes, squeeze}
use homelab_db_provisioner.Slug.Laws.{shorter, squeeze-single}

-- A text that needs no round stays as it is on any fuel.
squeeze-done : (fuel : ℕ) (s : Text) → contains double_dash s ≡ false → squeeze fuel s ≡ s
unfolding squeeze
squeeze-done zero s h = refl
squeeze-done (suc fuel) s h = rw h refl

squeeze-nil : (fuel : ℕ) → squeeze fuel [] ≡ []
unfolding contains starts_with
squeeze-nil fuel = squeeze-done fuel [] refl

squeeze-same :
    (fuel fuel' : ℕ) (s : Text)
    → length s ≤ fuel
    → length s ≤ fuel'
    → squeeze fuel' s ≡ squeeze fuel s
unfolding squeeze
squeeze-same zero fuel' [] h k = squeeze-nil fuel'
squeeze-same zero fuel' (c ∷ s) h k = absurd (omega arith)
squeeze-same (suc fuel) zero [] h k = sym (squeeze-nil (suc fuel))
squeeze-same (suc fuel) zero (c ∷ s) h k = absurd (omega arith)
squeeze-same (suc fuel) (suc fuel') s h k = elim (Bool-cases (contains double_dash s)) [
  | inl e ↦ rw e (
      let less = shorter s e in
      squeeze-same fuel fuel' (replace_dashes s) (omega arith) (omega arith))
  | inr e ↦ rw e refl
]

-- The loop of `slugify` ends by its own test: on fuel of at least the length of the text, the result
-- holds no two dashes in a row, and any other such fuel gives the same result.
pub squeeze-terminates :
    (fuel fuel' : ℕ) (s : Text)
    → length s ≤ fuel
    → length s ≤ fuel'
    → (contains double_dash (squeeze fuel s) ≡ false) × (squeeze fuel' s ≡ squeeze fuel s)
squeeze-terminates fuel fuel' s h k = (squeeze-single fuel s h, squeeze-same fuel fuel' s h k)
