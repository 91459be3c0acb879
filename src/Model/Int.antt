-- ===== src/Model/Int.antt =====
-- Signed integers and the comparisons that the validation makes of them.
use ghostfleet.Base.{ℕ, Bool, true, false, ltb}

-- `negsuc n` is -(n + 1).
pub data ℤ : Type 0 where
  pos : ℕ → ℤ
  negsuc : ℕ → ℤ

-- The value as a natural number, where it is one.
abbrev pub to_ℕ : ℤ → ℕ
to_ℕ (pos n) = n
to_ℕ (negsuc n) = 0

-- `a < k` for a literal bound k ≥ 0.
abbrev pub is_below : ℤ → ℕ → Bool
is_below (pos n) k = ltb n k
is_below (negsuc n) k = true

-- `a > k` for a literal bound k ≥ 0.
abbrev pub is_above : ℤ → ℕ → Bool
is_above (pos n) k = ltb k n
is_above (negsuc n) k = false

-- `a > b`.
abbrev pub exceeds : ℤ → ℤ → Bool
exceeds (pos a) (pos b) = ltb b a
exceeds (pos a) (negsuc b) = true
exceeds (negsuc a) (pos b) = false
exceeds (negsuc a) (negsuc b) = ltb a b
