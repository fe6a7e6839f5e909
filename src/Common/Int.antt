-- ===== src/Common/Int.antt =====
-- Signed counters: a task count in the code is a JavaScript number that `--` may take below 0.
use campusops.Common.{ℕ, zero, suc, ◌+◌, ◌-◌, ◌*◌, ◌≤◌, ◌≡◌, Bool, arith, ltb, leb, if◌then◌else◌}

-- `negsuc n` is -(n + 1).
pub data ℤ : Type 0 where
  pos : ℕ → ℤ
  negsuc : ℕ → ℤ

abbrev pub pos_part : ℤ → ℕ
pos_part (pos n) = n
pos_part (negsuc n) = 0

abbrev pub neg_part : ℤ → ℕ
neg_part (pos n) = 0
neg_part (negsuc n) = suc n

abbrev pub sub_ℕ : ℕ → ℕ → ℤ
sub_ℕ a b = if leb b a then pos (a - b) else negsuc (b - a - 1)

-- `n + 1` and `n - 1`
unfoldable pub incr : ℤ → ℤ
incr a = sub_ℕ (pos_part a + 1) (neg_part a)

unfoldable pub decr : ℤ → ℤ
decr a = sub_ℕ (pos_part a) (neg_part a + 1)

-- `Math.max(0, n)`
unfoldable pub clamp_zero : ℤ → ℤ
clamp_zero (pos n) = pos n
clamp_zero (negsuc n) = pos 0

infix 50 ◌≤ℤ◌
abbrev pub ◌≤ℤ◌ : ℤ → ℤ → Type 0
a ≤ℤ b = pos_part a + neg_part b ≤ pos_part b + neg_part a

abbrev pub ltb_ℤ : ℤ → ℤ → Bool
ltb_ℤ a b = ltb (pos_part a + neg_part b) (pos_part b + neg_part a)

-- `k * n` for a natural `k`
unfoldable pub times : ℕ → ℤ → ℤ
times k (pos n) = pos (k * n)
times zero (negsuc n) = pos 0
times (suc k) (negsuc n) = negsuc (k * suc n + n)

-- `Math.min(n, m)` and `Math.max(n, m)` for a natural `m`
unfoldable pub min_ℕ : ℤ → ℕ → ℤ
min_ℕ (pos n) m = if ltb m n then pos m else pos n
min_ℕ (negsuc n) m = negsuc n

unfoldable pub max_ℕ : ℤ → ℕ → ℤ
max_ℕ (pos n) m = if ltb n m then pos m else pos n
max_ℕ (negsuc n) m = pos m

pub decr-incr : (a : ℤ) → decr (incr a) ≡ a
unfolding incr decr
decr-incr a = ground arith

pub incr-decr : (a : ℤ) → incr (decr a) ≡ a
unfolding incr decr
incr-decr a = ground arith
