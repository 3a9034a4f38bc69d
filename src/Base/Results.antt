-- ===== src/Base/Results.antt =====
-- Go's pair of a value and an error.

pub data Result {ℓ} (E A : Type ℓ) : Type ℓ where
  ok : A → Result E A
  err : E → Result E A
