-- ===== src/TxMgr/Laws.antt =====
-- What the steps of the manager's procedures keep of its database and of the calls made.
use bridge_go_aptos.Prelude.{Bool, true, false, Option, none, some, List, ◌∷◌}
use bridge_go_aptos.Go.{Outcome}
use bridge_go_aptos.BigInt.{ℤ}
use bridge_go_aptos.Sql.{Disk, Exec, Fault}
use bridge_go_aptos.Sql.Laws.{Keeps, InFull}
use bridge_go_aptos.State.Tables.{Tables}
use bridge_go_aptos.MgrDb.{Rows}
use bridge_go_aptos.Program.{attempt, on}
use bridge_go_aptos.Program.Laws.{
  Valued, Valued-Any, Any, Ensures, Ensures-pure, Ensures-bind, Ensures-attempt,
}
use bridge_go_aptos.TxMgr.{
  Call, get_latest_ledger_number, Outside, World, in_statedb, in_mgrdb, ask, ledger_or_latest,
}

-- What is known of the schedule: where `full`, that no SELECT of the manager's database stops early.
abbrev pub Reads : Bool → List Fault → Type 0
Reads true faults = InFull faults
Reads false faults = Unit {0}

Keeps-Reads :
    {A : Type 0} {I : Rows → Type 0} (full : Bool) (m : Exec Rows A) (d : Disk Rows)
    → Keeps I m
    → Reads full d.faults
    → Reads full (m d).1.faults
Keeps-Reads true m d k h = k.in_full d h
Keeps-Reads false m d k h = tt

-- `I` of the database, and `C` of the calls.
pub record Holds (full : Bool) (I : Rows → Type 0) (C : List Call → Type 0) (w : World)
    : Type 0 where
  pub database : I w.mgrdb.table
  pub asked : C w.calls
  pub reads : Reads full w.mgrdb.faults

module _ {full : Bool} {I : Rows → Type 0} {C : List Call → Type 0} where
  module _ {A : Type 0} {Q : A → Type 0} where
    pub Ensures-ask :
        (call : Call) (answer : List Call → Outcome A)
        → ((calls : List Call) → C calls → C (call ∷ calls))
        → ((calls : List Call) → Valued Q (answer calls))
        → Ensures (Holds full I C) (ask call answer) Q
    unfolding ask
    Ensures-ask call answer k q = record {
      at = λ w h.
          (record { database = h.database; asked = k w.calls h.asked; reads = h.reads }, q w.calls);
    }

    pub Ensures-in_statedb :
        (m : Exec Tables A)
        → ((d : Disk Tables) → Valued Q (m d).0)
        → Ensures (Holds full I C) (in_statedb m) Q
    unfolding in_statedb on
    Ensures-in_statedb m q = record {
      at = λ w h. (record { database = h.database; asked = h.asked; reads = h.reads }, q w.statedb);
    }

    pub Ensures-in_mgrdb :
        (m : Exec Rows A)
        → Keeps I m
        → ((d : Disk Rows) → I d.table → Reads full d.faults → Valued Q (m d).0)
        → Ensures (Holds full I C) (in_mgrdb m) Q
    unfolding in_mgrdb on
    Ensures-in_mgrdb m k q = record {
      at = λ w h. (
        record {
          database = k.at w.mgrdb h.database;
          asked = h.asked;
          reads = Keeps-Reads full m w.mgrdb k h.reads;
        },
        q w.mgrdb h.database h.reads,
      );
    }

  module _ (outside : Outside) where
    pub Ensures-ledger_or_latest :
        ((calls : List Call) → C calls → C (get_latest_ledger_number ∷ calls))
        → (o : Option ℤ) → Ensures (Holds full I C) (ledger_or_latest outside o) Any
    unfolding ledger_or_latest
    Ensures-ledger_or_latest k (some z) = Ensures-pure (some z) tt
    Ensures-ledger_or_latest k none =
        Ensures-bind (attempt (ask get_latest_ledger_number outside.latest_ledger_number)) _
          (Ensures-attempt _ (
            Ensures-ask {Q = Any} get_latest_ledger_number outside.latest_ledger_number k
              (λ calls. Valued-Any _)))
          (λ a _. Ensures-pure _ tt)
