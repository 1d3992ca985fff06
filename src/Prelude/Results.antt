-- ===== src/Prelude/Results.antt =====
-- A value or an error, for Go's `(A, error)` results; the type of errors is a parameter.

pub data Result {ℓ κ} (E : Type ℓ) (A : Type κ) : Type (ℓ ⊔ κ) where
  ok : A → Result E A
  err : E → Result E A
