-- ===== src/Program.antt =====
-- Procedures that work on several parts of the program's state, any call of which may fail: Go's
-- early returns, and loops whose body goes on with the next item after an error.
pub mod Laws
use bridge_go_aptos.Prelude.{Option, none, some, List, [], ◌∷◌}
use bridge_go_aptos.Go.{Error, Outcome, ok, err, panic}
use bridge_go_aptos.Sql.{Disk, Exec}

-- What was done before an error or a panic stays done.
abbrev pub Prog : Type 0 → Type 0 → Type 0
Prog W A = W → Outcome A × W

module _ {W A : Type 0} where
  unfoldable pub pure : A → Prog W A
  pure a w = (ok a, w)

  unfoldable pub raise : Error → Prog W A
  raise e w = (err e, w)

  unfoldable pub lift : Outcome A → Prog W A
  lift o w = (o, w)

module _ {W A B : Type 0} where
  abbrev pub continue : Outcome A → (A → Prog W B) → Prog W B
  continue (ok a) f w = f a w
  continue (err e) f w = (err e, w)
  continue panic f w = (panic, w)

  infixl 5 ◌>>=◌ ◌>>◌
  unfoldable pub ◌>>=◌ : Prog W A → (A → Prog W B) → Prog W B
  ◌>>=◌ m f w = let (o, w') = m w in continue o f w'

  abbrev pub ◌>>◌ : Prog W A → Prog W B → Prog W B
  m >> n = m >>= λ _. n

module _ {W A : Type 0} where
  -- An error is logged, and gives no value; a panic is not caught.
  abbrev pub logged : Outcome A × W → Outcome (Option A) × W
  logged (ok a, w) = (ok (some a), w)
  logged (err e, w) = (ok none, w)
  logged (panic, w) = (panic, w)

  unfoldable pub attempt : Prog W A → Prog W (Option A)
  attempt m w = logged (m w)

module _ {W A : Type 0} where
  -- for _, x := range xs { ...; if err != nil { continue } ... }
  unfoldable pub for_each : (A → Prog W (Unit {0})) → List A → Prog W (Unit {0})
  for_each body [] = pure tt
  for_each body (x ∷ xs) = do attempt (body x); for_each body xs

module _ {W T A : Type 0} (get : W → Disk T) (put : Disk T → W → W) where
  abbrev stored : Outcome A × Disk T → W → Outcome A × W
  stored (o, d) w = (o, put d w)

  -- A call of one of the databases.
  unfoldable pub on : Exec T A → Prog W A
  on m w = stored (m (get w)) w
