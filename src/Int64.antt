-- ===== src/Int64.antt =====
-- Go's int64 by its bit pattern, a number below 2 ^ 64: sums wrap, and the order is the signed one.
use bridge_go_aptos.Prelude.{
  ℕ, ◌+◌, ◌-◌, ◌%◌, ◌^◌, ◌≤◌, ◌<◌, ◌≡◌, Bool, true, false, arith, leb, ltb,
}

abbrev pub int64_mod : ℕ
int64_mod = 2 ^ 64

-- The patterns below it stand for the integers from 0.
abbrev pub int64_min : ℕ
int64_min = 2 ^ 63

unfoldable pub add64 : ℕ → ℕ → ℕ
add64 a b = (a + b) % int64_mod

unfoldable pub sub64 : ℕ → ℕ → ℕ
sub64 a b = (a + (int64_mod - b % int64_mod)) % int64_mod

-- a <= b
unfoldable pub le64 : ℕ → ℕ → Bool
le64 a b = leb ((a + int64_min) % int64_mod) ((b + int64_min) % int64_mod)

-- a < b
unfoldable pub lt64 : ℕ → ℕ → Bool
lt64 a b = ltb ((a + int64_min) % int64_mod) ((b + int64_min) % int64_mod)

module _ (a b : ℕ) where
  pub add64-eq-add : a + b < int64_min → add64 a b ≡ a + b
  unfolding add64
  add64-eq-add h = omega arith

  pub le64→le : a < int64_min → b < int64_min → le64 a b ≡ true → a ≤ b
  unfolding le64
  le64→le h k e = ground arith

  pub le64_false→lt : a < int64_min → b < int64_min → le64 a b ≡ false → b < a
  unfolding le64
  le64_false→lt h k e = ground arith

  pub lt64-le64 : lt64 a b ≡ true → le64 b a ≡ false
  unfolding lt64 le64
  lt64-le64 e = ground arith

  pub lt64-false-le64 : lt64 a b ≡ false → le64 b a ≡ true
  unfolding lt64 le64
  lt64-false-le64 e = ground arith
