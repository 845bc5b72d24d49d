-- ===== src/Base/Exec.antt =====
-- What a method that may raise gives: its value or the error. What was written before a raise stays
-- written, so the methods of the model give the state beside it.
pub data Result {ℓ} (E A : Type ℓ) : Type ℓ where
  ok : A → Result E A
  err : E → Result E A
