-- ===== src/Prelude/Permutations.antt =====
-- What a permutation of a list keeps: a property of all elements, and the sum of a measure.
use mathlib.Core.Path.{◌≡◌, refl, subst, ◌∙◌, ap}
use mathlib.Core.Logic.{∥∥₁_elim}
use mathlib.Core.HLevel.{×_prop, Unit-prop}
use mathlib.Core.List.{
  List, [], ◌∷◌, Perm, Perm-prop, Permᴰ, map, Mem, mem-cons_self, mem-cons_of_mem,
}
use native.Mathlib.Nat.{ℕ_set}
use native.Mathlib.Omega.{arith}
use Prim.Native.Nat.{ℕ, ◌+◌}
use bridge_go_aptos.Prelude.Lists.{All, All-imp}

module _ {ℓ κ} {A : Type ℓ} (P : A → Type κ) where
  All-prop : ((x : A) → IsProp (P x)) → (xs : List A) → IsProp (All P xs)
  All-prop cP [] = Unit-prop
  All-prop cP (x ∷ xs) = ×_prop (cP x) (All-prop cP xs)

  All-Permᴰ : {xs ys : List A} → Permᴰ xs ys → All P xs → All P ys
  All-Permᴰ Permᴰ.nil h = tt
  All-Permᴰ (Permᴰ.cons e p) h = (subst P e h.0, All-Permᴰ p h.1)
  All-Permᴰ (Permᴰ.swap e f) h = (subst P f h.1.0, (subst P e h.0, h.1.1))
  All-Permᴰ (Permᴰ.trans p q) h = All-Permᴰ q (All-Permᴰ p h)

  pub All-Perm : ((x : A) → IsProp (P x)) → (xs ys : List A) → Perm xs ys → All P xs → All P ys
  All-Perm cP xs ys p h = ∥∥₁_elim p (All-prop cP ys) (λ q. All-Permᴰ q h)

module _ {ℓ} {A : Type ℓ} (f : A → ℕ) where
  abbrev pub sum_by : List A → ℕ
  sum_by [] = 0
  sum_by (x ∷ xs) = f x + sum_by xs

  sum_by-Permᴰ : {xs ys : List A} → Permᴰ xs ys → sum_by xs ≡ sum_by ys
  sum_by-Permᴰ Permᴰ.nil = refl
  sum_by-Permᴰ (Permᴰ.cons e p) = omega (arith, sum_by-Permᴰ p, ap f e)
  sum_by-Permᴰ (Permᴰ.swap e g) = omega (arith, ap f e, ap f g)
  sum_by-Permᴰ (Permᴰ.trans p q) = sum_by-Permᴰ p ∙ sum_by-Permᴰ q

  pub sum_by-Perm : (xs ys : List A) → Perm xs ys → sum_by xs ≡ sum_by ys
  sum_by-Perm xs ys p = ∥∥₁_elim p (ℕ_set (sum_by xs) (sum_by ys)) sum_by-Permᴰ

module _ {ℓ} {A B : Type ℓ} (f : A → B) where
  map-Permᴰ : {xs ys : List A} → Permᴰ xs ys → Permᴰ (map f xs) (map f ys)
  map-Permᴰ Permᴰ.nil = Permᴰ.nil
  map-Permᴰ (Permᴰ.cons e p) = Permᴰ.cons (ap f e) (map-Permᴰ p)
  map-Permᴰ (Permᴰ.swap e g) = Permᴰ.swap (ap f e) (ap f g)
  map-Permᴰ (Permᴰ.trans p q) = Permᴰ.trans (map-Permᴰ p) (map-Permᴰ q)

  pub map-Perm : (xs ys : List A) → Perm xs ys → Perm (map f xs) (map f ys)
  map-Perm xs ys p = ∥∥₁_elim p Perm-prop (λ q. ∣ map-Permᴰ q ∣₁)

pub All-Mem_self {ℓ} : {A : Type ℓ} (xs : List A) → All (λ x. Mem x xs) xs
All-Mem_self [] = tt
All-Mem_self (x ∷ xs) = (
  mem-cons_self,
  All-imp (λ y. Mem y xs) (λ y. Mem y (x ∷ xs)) xs (λ y. mem-cons_of_mem x) (All-Mem_self xs),
)
