-- ===== src/Sched/Time.antt =====
-- include/mini-os/time.h: system time. An `s_time_t` is an int64_t, kept as its bit pattern below
-- 2 ^ 64: sums wrap, and the order is the signed one.
use rumpuser_xen.Prelude.{ℕ, ◌+◌, ◌*◌, ◌%◌, ◌^◌, ◌≡◌, Bool, true, false, arith, ltb, leb}

abbrev pub add_time : ℕ → ℕ → ℕ
add_time a b = (a + b) % 2 ^ 64

abbrev pub mul_time : ℕ → ℕ → ℕ
mul_time a b = a * b % 2 ^ 64

-- Adding half the range turns the signed order into the one of ℕ.
unfoldable pub le_time : ℕ → ℕ → Bool
le_time a b = leb ((a + 2 ^ 63) % 2 ^ 64) ((b + 2 ^ 63) % 2 ^ 64)

unfoldable pub lt_time : ℕ → ℕ → Bool
lt_time a b = ltb ((a + 2 ^ 63) % 2 ^ 64) ((b + 2 ^ 63) % 2 ^ 64)

pub le_time_refl : (a : ℕ) → le_time a a ≡ true
unfolding le_time
le_time_refl a = ground arith

pub le_time_trans : (a b c : ℕ) → le_time a b ≡ true → le_time b c ≡ true → le_time a c ≡ true
unfolding le_time
le_time_trans a b c p q = ground arith

pub lt_time-not_le : (a b : ℕ) → lt_time a b ≡ false → le_time b a ≡ true
unfolding lt_time le_time
lt_time-not_le a b p = ground arith

pub le_time-of_lt : (a b : ℕ) → lt_time a b ≡ true → le_time a b ≡ true
unfolding lt_time le_time
le_time-of_lt a b p = ground arith

abbrev pub seconds : ℕ → ℕ
seconds s = mul_time s 1_000_000_000

abbrev pub millisecs : ℕ → ℕ
millisecs ms = mul_time ms 1_000_000
