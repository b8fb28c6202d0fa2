-- ===== src/Base/Results.antt =====
-- Go's pair of a value and an error, as one value.

pub data Result {ℓ κ} (E : Type ℓ) (A : Type κ) : Type (ℓ ⊔ κ) where
  ok : A → Result E A
  err : E → Result E A
