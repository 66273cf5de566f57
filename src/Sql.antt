-- ===== src/Sql.antt =====
-- Calls of a database (database/sql with SQLite). A table is a value of the model's own; which of
-- the calls fail is not known to the program, so a schedule of faults stands beside the table: each
-- call takes one entry off it. Past the end of the schedule no call fails.
pub mod Laws
use bridge_go_aptos.Prelude.{ℕ, suc, zero, Bool, true, false, List, [], ◌∷◌}
use bridge_go_aptos.Go.{Error, db_failure, Outcome, ok, err, panic}

-- What becomes of a call. One that fails returns an error and changes nothing. One that stops is
-- accepted, but fails when SQLite steps through its rows: the loops over rows.Next() never ask
-- rows.Err(), so they end without an error after `n` rows; QueryRow and Exec return the error.
pub data Fault : Type 0 where
  works fails : Fault
  stops : ℕ → Fault

pub record Disk {ℓ} (T : Type ℓ) : Type ℓ where
  pub table : T
  pub faults : List Fault

-- Methods that change the database. What was written before an error or a panic stays written.
abbrev pub Exec {ℓ} : Type ℓ → Type ℓ → Type ℓ
Exec T A = Disk T → Outcome A × Disk T

module _ {ℓ} {T A : Type ℓ} where
  unfoldable pub pure : A → Exec T A
  pure a d = (ok a, d)

  unfoldable pub raise : Error → Exec T A
  raise e d = (err e, d)

  unfoldable pub lift : Outcome A → Exec T A
  lift o d = (o, d)

module _ {ℓ} {T A B : Type ℓ} where
  abbrev pub continue : Outcome A → (A → Exec T B) → Exec T B
  continue (ok a) f d = f a d
  continue (err e) f d = (err e, d)
  continue panic f d = (panic, d)

  infixl 5 ◌>>=◌ ◌>>◌
  -- opening this opens `pure`, `raise` and `lift` too
  unfoldable pub ◌>>=◌ : Exec T A → (A → Exec T B) → Exec T B
  unfolding pure raise lift
  ◌>>=◌ m f d = let (o, d') = m d in continue o f d'

  abbrev pub ◌>>◌ : Exec T A → Exec T B → Exec T B
  m >> n = m >>= λ _. n

module _ {ℓ} {T A : Type ℓ} where
  abbrev pub error_of : Error → Outcome A × Disk T → Outcome A × Disk T
  error_of e (ok a, d) = (ok a, d)
  error_of e (err _, d) = (err e, d)
  error_of e (panic, d) = (panic, d)

  -- `if err != nil { return ErrX }` around a call
  unfoldable pub or_error : Error → Exec T A → Exec T A
  or_error e m d = error_of e (m d)

-- What a statement does to the table, if it is executed.
abbrev written {ℓ} : {T : Type ℓ} → Outcome T → Disk T → Outcome (Unit {ℓ}) × Disk T
written (ok t) d = (ok tt, record d { table = t })
written (err e) d = (err e, d)
written panic d = (panic, d)

-- What becomes of the next call, and of the calls after it.
abbrev pub next_fault : List Fault → Fault
next_fault [] = works
next_fault (f ∷ fs) = f

abbrev pub later : List Fault → List Fault
later [] = []
later (f ∷ fs) = fs

abbrev pub is_fault : Fault → Bool
is_fault works = false
is_fault fails = true
is_fault (stops n) = true

abbrev pub is_stop : Fault → Bool
is_stop works = false
is_stop fails = false
is_stop (stops n) = true

-- The first `n` rows.
abbrev pub first_rows {ℓ} : {A : Type ℓ} → ℕ → List A → List A
first_rows zero xs = []
first_rows (suc n) [] = []
first_rows (suc n) (x ∷ xs) = x ∷ first_rows n xs

module _ {ℓ} {T : Type ℓ} where
  abbrev pub call_fails : Disk T → Bool
  call_fails d = is_fault (next_fault d.faults)

  -- The next call, if it selects rows, gets a part of them without an error.
  abbrev pub stops_early : Disk T → Bool
  stops_early d = is_stop (next_fault d.faults)

  abbrev pub next_call : Disk T → Disk T
  next_call d = record { table = d.table; faults = later d.faults }

  -- QueryRow and Scan
  unfoldable pub query : {A : Type ℓ} → (T → A) → Exec T A
  query read d = elim (call_fails d) [
    | true ↦ (err db_failure, next_call d)
    | false ↦ (ok (read d.table), next_call d)
  ]

  -- Query, and the loop over rows.Next()
  unfoldable pub query_rows : {A : Type ℓ} → (T → List A) → Exec T (List A)
  query_rows read d = elim (next_fault d.faults) [
    | works ↦ (ok (read d.table), next_call d)
    | fails ↦ (err db_failure, next_call d)
    | stops n ↦ (ok (first_rows n (read d.table)), next_call d)
  ]

  -- INSERT and UPDATE; the update refuses the rows that break a constraint
  unfoldable pub exec : (T → Outcome T) → Exec T (Unit {ℓ})
  exec update d = elim (call_fails d) [
    | true ↦ (err db_failure, next_call d)
    | false ↦ written (update d.table) (next_call d)
  ]

  -- db.Prepare: no row is read or written
  unfoldable pub prepare : Exec T (Unit {ℓ})
  prepare d = elim (call_fails d) [
    | true ↦ (err db_failure, next_call d)
    | false ↦ (ok tt, next_call d)
  ]
