-- ===== src/TxMgr/Run.antt =====
-- chaintxmgr/mgr.go: procedureMarkTxStatus, and runs of the manager, keep what the operations keep.
use bridge_go_aptos.Prelude.{ℕ, refl, Bool, Option, List}
use bridge_go_aptos.BigInt.{ℤ}
use bridge_go_aptos.Agreement.{Hash, timeout}
use bridge_go_aptos.Sql.{Disk, Fault}
use bridge_go_aptos.State.Tables.{Tables}
use bridge_go_aptos.MgrDb.{Rows, MonitoredTx}
use bridge_go_aptos.Program.Laws.{
  Any, Ensures, Ensures-pure, Ensures-bind, Ensures-lift, Ensures-for_each, Ensures-if,
}
use bridge_go_aptos.TxMgr.{Call, Outside, World}
use bridge_go_aptos.TxMgr.Laws.{Holds, Reads, Ensures-in_mgrdb}
use bridge_go_aptos.Program.Laws.{Valued-Any}
use bridge_go_aptos.TxMgr.Mints.{procedure_mint}
use bridge_go_aptos.TxMgr.MintRules.{Ensures-procedure_mint}
use bridge_go_aptos.TxMgr.PrepareRules.{Ensures-procedure_prepare}
use bridge_go_aptos.TxMgr.Prepares.{procedure_prepare}
use bridge_go_aptos.TxMgr.Marking.{
  mark_timeout, mark_tx, set_found_number, procedure_mark_tx_status,
}
use bridge_go_aptos.TxMgr.Rules.{Rules, Ensures-ask_other}

-- A step of the manager, or of what goes on beside it: state changes its tables, and which of the
-- calls of the manager's database will fail is decided anew, stops of a SELECT only where not `full`.
pub data Step (full : Bool) (outside : Outside) (timeout_tx_ledger_number : ℤ) (w : World)
    : World → Type 0 where
  minting : Step full outside timeout_tx_ledger_number w (procedure_mint outside w).1
  preparing : Step full outside timeout_tx_ledger_number w (procedure_prepare outside w).1
  marking :
      Step full outside timeout_tx_ledger_number w
        (procedure_mark_tx_status outside timeout_tx_ledger_number w).1
  state_changed :
      (d : Disk Tables) → Step full outside timeout_tx_ledger_number w (record w { statedb = d })
  faults_changed :
      (faults : List Fault)
      → Reads full faults
      → Step full outside timeout_tx_ledger_number w
          (record w { mgrdb = record { table = w.mgrdb.table; faults = faults } })

pub data Steps (full : Bool) (outside : Outside) (timeout_tx_ledger_number : ℤ) (w : World)
    : World → Type 0 where
  stay : Steps full outside timeout_tx_ledger_number w w
  step :
      {v u : World}
      → Steps full outside timeout_tx_ledger_number w v
      → Step full outside timeout_tx_ledger_number v u
      → Steps full outside timeout_tx_ledger_number w u

module _ {full : Bool} {I : Rows → Type 0} {C : List Call → Type 0} {New : Hash → Type 0}
    {Open : List ℕ → Type 0} (rules : Rules full I C New Open) (outside : Outside)
    (timeout_tx_ledger_number : ℤ) where
  Ensures-mark_timeout :
      (tx : MonitoredTx)
      → Open tx.tx_identifier
      → Ensures (Holds full I C) (mark_timeout outside timeout_tx_ledger_number tx) Any
  unfolding mark_timeout
  Ensures-mark_timeout tx o =
      Ensures-bind {Q = Any} _ _ (Ensures-ask_other rules _ _ refl) (λ latest _.
        Ensures-if _ _ _
          (λ _.
            Ensures-in_mgrdb _ (rules.set_status tx.tx_identifier timeout o)
              (λ d _ _. Valued-Any _))
          (λ _. Ensures-pure tt tt))

  Ensures-set_found_number :
      (tx_id : List ℕ) (n : Option ℤ)
      → Open tx_id
      → Ensures (Holds full I C) (set_found_number tx_id n) Any
  unfolding set_found_number
  Ensures-set_found_number tx_id n o =
      Ensures-bind {Q = Any} _ _ (Ensures-lift _ (Valued-Any _))
        (λ z _. Ensures-in_mgrdb _ (rules.write_found tx_id z o) (λ d _ _. Valued-Any _))

  Ensures-mark_tx :
      (tx : MonitoredTx)
      → Open tx.tx_identifier
      → Ensures (Holds full I C) (mark_tx outside timeout_tx_ledger_number tx) Any
  unfolding mark_tx
  Ensures-mark_tx tx o = Ensures-bind {Q = Any} _ _ (Ensures-ask_other rules _ _ refl) (λ r _.
      Ensures-bind {Q = Any} _ _
        (Ensures-in_mgrdb _ (rules.set_status tx.tx_identifier r.0 o) (λ d _ _. Valued-Any _))
        (λ _ _.
          Ensures-if _ _ _ (λ _. Ensures-set_found_number tx.tx_identifier r.1 o)
            (λ _. Ensures-mark_timeout tx o)))

  Ensures-procedure_mark_tx_status :
      Ensures (Holds full I C) (procedure_mark_tx_status outside timeout_tx_ledger_number) Any
  unfolding procedure_mark_tx_status
  Ensures-procedure_mark_tx_status =
      Ensures-bind _ _ (Ensures-in_mgrdb _ rules.waiting rules.waiting_open) (λ txs q.
        Ensures-for_each (λ tx. Open tx.tx_identifier) (mark_tx outside timeout_tx_ledger_number)
          txs q Ensures-mark_tx)

  Holds-Step :
      {w u : World}
      → Step full outside timeout_tx_ledger_number w u
      → Holds full I C w
      → Holds full I C u
  Holds-Step {w} minting k = ((Ensures-procedure_mint rules outside).at w k).0
  Holds-Step {w} preparing k = ((Ensures-procedure_prepare rules outside).at w k).0
  Holds-Step {w} marking k = (Ensures-procedure_mark_tx_status.at w k).0
  Holds-Step (state_changed d) k = record {
    database = k.database;
    asked = k.asked;
    reads = k.reads;
  }
  Holds-Step (faults_changed faults r) k = record {
    database = k.database;
    asked = k.asked;
    reads = r;
  }

  pub Holds-Steps :
      {w u : World}
      → Steps full outside timeout_tx_ledger_number w u
      → Holds full I C w
      → Holds full I C u
  Holds-Steps stay k = k
  Holds-Steps (step ss s) k = Holds-Step s (Holds-Steps ss k)
