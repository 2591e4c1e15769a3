-- ===== src/Int64.antt =====
-- Go's 64-bit integers, and durations, which are such numbers of nanoseconds.
use traefik_kop.Prelude.{
  ℕ, zero, suc, ◌+◌, ◌-◌, ◌*◌, ◌/◌, ◌%◌, ◌≤◌, ◌<◌, ◌≡◌, Bool, true, false, ltb, if◌then◌else◌,
  arith,
}

-- a number, or one less than the negation of a number
pub data ℤ : Type 0 where
  pos : ℕ → ℤ
  negsuc : ℕ → ℤ

-- 2 ^ 63 and 2 ^ 64
abbrev pub half : ℕ
half = 9_223_372_036_854_775_808

abbrev pub size : ℕ
size = 18_446_744_073_709_551_616

-- the bits of an integer as an unsigned number, and back
unfoldable pub to_bits : ℤ → ℕ
to_bits (pos n) = n % size
to_bits (negsuc n) = size - 1 - n % size

unfoldable pub of_bits : ℕ → ℤ
of_bits b = if ltb b half then pos b else negsuc (size - 1 - b)

-- `time.Duration(n) * time.Second`, which wraps around
unfoldable pub seconds : ℤ → ℤ
seconds n = of_bits (to_bits n * 1_000_000_000 % size)

-- `d / 3`, rounded towards zero
unfoldable pub third : ℤ → ℤ
third (pos n) = pos (n / 3)
third (negsuc zero) = pos 0
third (negsuc (suc zero)) = pos 0
third (negsuc (suc (suc n))) = negsuc (n / 3)

-- `n > 0`
unfoldable pub is_positive : ℤ → Bool
is_positive (pos n) = ltb 0 n
is_positive (negsuc n) = false

-- `n == 0`
unfoldable pub is_zero : ℤ → Bool
is_zero (pos zero) = true
is_zero (pos (suc n)) = false
is_zero (negsuc n) = false

pub seconds-pos : (n : ℕ) → n ≤ 9_223_372_036 → seconds (pos n) ≡ pos (n * 1_000_000_000)
unfolding seconds of_bits to_bits
seconds-pos n h = ground arith

-- A positive number of seconds that does not overflow has a positive third, rounded down to
-- nanoseconds.
pub third-seconds :
    (n : ℕ)
    → 0 < n
    → n ≤ 9_223_372_036
    → (d : ℕ) × (third (seconds (pos n)) ≡ pos d)
      × (0 < d)
      × (d < half)
      × (3 * d ≤ n * 1_000_000_000)
      × (n * 1_000_000_000 < 3 * (d + 1))
unfolding third
third-seconds n p h = (
  n * 1_000_000_000 / 3,
  rw (seconds-pos n h),
  omega arith,
  omega arith,
  omega arith,
  omega arith,
)
