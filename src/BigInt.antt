-- ===== src/BigInt.antt =====
-- The values of Go's *big.Int that are not nil, and the methods that the program calls on them.
use bridge_go_aptos.Prelude.{
  ℕ, suc, ◌+◌, ◌-◌, ◌%◌, ◌≡◌, ◌↔◌, Bool, true, false, Option, none, some, arith, ◌==◌, ltb, leb,
  if◌then◌else◌,
}
use bridge_go_aptos.Go.{Outcome, ok, panic}
use bridge_go_aptos.Int64.{int64_mod}

-- `negsuc n` is -(n + 1).
pub data ℤ : Type 0 where
  pos : ℕ → ℤ
  negsuc : ℕ → ℤ

abbrev pub abs : ℤ → ℕ
abs (pos n) = n
abs (negsuc n) = suc n

-- x.Sign() > 0
abbrev pub is_positive : ℤ → Bool
is_positive (pos n) = ltb 0 n
is_positive (negsuc n) = false

-- x.Cmp(y) == 0
unfoldable pub cmp_eq : ℤ → ℤ → Bool
cmp_eq (pos m) (pos n) = m == n
cmp_eq (negsuc m) (negsuc n) = m == n
cmp_eq (pos m) (negsuc n) = false
cmp_eq (negsuc m) (pos n) = false

-- x.Cmp(y) <= 0
unfoldable pub cmp_le : ℤ → ℤ → Bool
cmp_le (pos m) (pos n) = leb m n
cmp_le (negsuc m) (negsuc n) = leb n m
cmp_le (pos m) (negsuc n) = false
cmp_le (negsuc m) (pos n) = true

abbrev difference : ℕ → ℕ → ℤ
difference m n = if leb n m then pos (m - n) else negsuc (n - m - 1)

-- new(big.Int).Add(x, y)
infixl 20 ◌+ℤ◌
unfoldable pub ◌+ℤ◌ : ℤ → ℤ → ℤ
pos m +ℤ pos n = pos (m + n)
pos m +ℤ negsuc n = difference m (suc n)
negsuc m +ℤ pos n = difference n (suc m)
negsuc m +ℤ negsuc n = negsuc (suc (m + n))

-- x.Uint64(): the low 64 bits of the absolute value
unfoldable pub to_uint64 : ℤ → ℕ
to_uint64 z = abs z % int64_mod

-- x.Int64(): the same, negated where x is negative
unfoldable pub to_int64 : ℤ → ℕ
to_int64 (pos n) = n % int64_mod
to_int64 (negsuc n) = (int64_mod - suc n % int64_mod) % int64_mod

-- new(big.Int).Set(x) reads x, and so panics at nil.
abbrev pub big_int_clone : Option ℤ → Outcome ℤ
big_int_clone none = panic
big_int_clone (some z) = ok z

pub cmp_eq_iff : (x y : ℤ) → (cmp_eq x y ≡ true) ↔ (x ≡ y)
unfolding cmp_eq
cmp_eq_iff (pos m) (pos n) = ground arith
cmp_eq_iff (negsuc m) (negsuc n) = ground arith
cmp_eq_iff (pos m) (negsuc n) = ground arith
cmp_eq_iff (negsuc m) (pos n) = ground arith
