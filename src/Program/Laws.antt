-- ===== src/Program/Laws.antt =====
-- What a procedure keeps, however it ends, and what it ensures of its value where it has one.
use bridge_go_aptos.Prelude.{
  Bool, true, false, if◌then◌else◌, ◌≡◌, refl, Option, none, some, List, [], ◌∷◌, All,
}
use bridge_go_aptos.Go.{Error, Outcome, ok, err, panic}
use bridge_go_aptos.Program.{Prog, pure, raise, lift, continue, logged, attempt, for_each, ◌>>=◌}

-- `Q` of the value, where there is one.
abbrev pub Valued : {A : Type 0} → (A → Type 0) → Outcome A → Type 0
Valued Q (ok a) = Q a
Valued Q (err e) = Unit {0}
Valued Q panic = Unit {0}

abbrev pub IfValue : {A : Type 0} → (A → Type 0) → Option A → Type 0
IfValue Q none = Unit {0}
IfValue Q (some a) = Q a

abbrev pub Any : {A : Type 0} → A → Type 0
Any a = Unit {0}

pub Valued-Any : {A : Type 0} (o : Outcome A) → Valued (Any {A = A}) o
Valued-Any (ok a) = tt
Valued-Any (err e) = tt
Valued-Any panic = tt

pub All-Any : {A : Type 0} (xs : List A) → All Any xs
All-Any [] = tt
All-Any (x ∷ xs) = (tt, All-Any xs)

pub Valued-imp :
    {A : Type 0} {Q R : A → Type 0} (o : Outcome A)
    → ((a : A) → Q a → R a)
    → Valued Q o
    → Valued R o
Valued-imp (ok a) f q = f a q
Valued-imp (err e) f q = tt
Valued-imp panic f q = tt

pub record Ensures {W A : Type 0} (P : W → Type 0) (m : Prog W A) (Q : A → Type 0) : Type 0 where
  pub at : (w : W) → P w → P (m w).1 × Valued Q (m w).0

module _ {W A : Type 0} where
  pub Valued-of_ok :
      {Q : A → Type 0} (r : Outcome A × W) → ((a : A) (w : W) → r ≡ (ok a, w) → Q a) → Valued Q r.0
  Valued-of_ok (ok a, w) k = k a w refl
  Valued-of_ok (err e, w) k = tt
  Valued-of_ok (panic, w) k = tt

  Valued-logged :
      (P : W → Type 0) (Q : A → Type 0) (r : Outcome A × W)
      → P r.1 × Valued Q r.0
      → P (logged r).1 × Valued (IfValue Q) (logged r).0
  Valued-logged P Q (ok a, w) (p, q) = (p, q)
  Valued-logged P Q (err e, w) (p, q) = (p, tt)
  Valued-logged P Q (panic, w) (p, q) = (p, tt)

module _ {W A : Type 0} {P : W → Type 0} where
  pub Ensures-pure : {Q : A → Type 0} (a : A) → Q a → Ensures P (pure a) Q
  unfolding pure
  Ensures-pure a q = record { at = λ w h. (h, q) }

  pub Ensures-raise : {Q : A → Type 0} (e : Error) → Ensures P (raise e) Q
  unfolding raise
  Ensures-raise e = record { at = λ w h. (h, tt) }

  pub Ensures-imp :
      {Q R : A → Type 0} (m : Prog W A) → ((a : A) → Q a → R a) → Ensures P m Q → Ensures P m R
  Ensures-imp m f k = record { at = λ w h. let (p, q) = k.at w h in (p, Valued-imp (m w).0 f q) }

  pub Ensures-if :
      {Q : A → Type 0} (b : Bool) (m n : Prog W A)
      → (b ≡ true → Ensures P m Q)
      → (b ≡ false → Ensures P n Q)
      → Ensures P (if b then m else n) Q
  Ensures-if true m n k l = k refl
  Ensures-if false m n k l = l refl

  pub Ensures-lift : {Q : A → Type 0} (o : Outcome A) → Valued Q o → Ensures P (lift o) Q
  unfolding lift
  Ensures-lift o q = record { at = λ w h. (h, q) }

  pub Ensures-attempt :
      {Q : A → Type 0} (m : Prog W A) → Ensures P m Q → Ensures P (attempt m) (IfValue Q)
  unfolding attempt
  Ensures-attempt {Q} m k = record { at = λ w h. Valued-logged P Q (m w) (k.at w h) }

module _ {W A B : Type 0} {P : W → Type 0} where
  pub Ensures-bind :
      {Q : A → Type 0} {R : B → Type 0} (m : Prog W A) (f : A → Prog W B)
      → Ensures P m Q
      → ((a : A) → Q a → Ensures P (f a) R)
      → Ensures P (m >>= f) R
  unfolding ◌>>=◌
  Ensures-bind {Q} {R} m f k l = record { at = λ w h. let (p, q) = k.at w h in go (m w) p q }
    where
      go :
          (r : Outcome A × W)
          → P r.1
          → Valued Q r.0
          → P (continue r.0 f r.1).1 × Valued R (continue r.0 f r.1).0
      go (ok a, w) p q = (l a q).at w p
      go (err e, w) p q = (p, tt)
      go (panic, w) p q = (p, tt)

module _ {W A : Type 0} {P : W → Type 0} where
  -- A loop keeps what its body keeps at each item.
  pub Ensures-for_each :
      (Q : A → Type 0) (body : A → Prog W (Unit {0})) (xs : List A)
      → All Q xs
      → ((x : A) → Q x → Ensures P (body x) Any)
      → Ensures P (for_each body xs) Any
  unfolding for_each
  Ensures-for_each Q body [] h k = Ensures-pure tt tt
  Ensures-for_each Q body (x ∷ xs) h k =
      Ensures-bind (attempt (body x)) (λ _. for_each body xs) (Ensures-attempt (body x) (k x h.0))
        (λ _ _. Ensures-for_each Q body xs h.1 k)

-- A chain that succeeds: its first part has succeeded, and so has the rest from there.
pub >>=-eq-ok :
    {W A B : Type 0} (m : Prog W A) (f : A → Prog W B) (w w'' : W) (b : B)
    → (m >>= f) w ≡ (ok b, w'')
    → (a : A) × (w' : W) × (m w ≡ (ok a, w')) × (f a w' ≡ (ok b, w''))
unfolding ◌>>=◌
>>=-eq-ok {W} {A} {B} m f w w'' b h = go (m w) refl h
  where
    go :
        (r : Outcome A × W)
        → m w ≡ r
        → continue r.0 f r.1 ≡ (ok b, w'')
        → (a : A) × (w' : W) × (m w ≡ (ok a, w')) × (f a w' ≡ (ok b, w''))
    go (ok a, w') e h = (a, w', e, h)
    go (err x, w') e h = absurd (cc)
    go (panic, w') e h = absurd (cc)
