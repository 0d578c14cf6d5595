-- ===== src/Common/Replies.antt =====
-- The answer of a callback that may fail or panic.
pub data Reply {ℓ} (A : Type ℓ) : Type ℓ where
  ok : A → Reply A
  err panics : Reply A
