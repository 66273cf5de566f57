-- ===== src/TxMgr/Rules.antt =====
-- What a property of the manager's database and of the calls made needs of the single operations, to
-- be kept by every procedure of the manager.
use bridge_go_aptos.Prelude.{
  ℕ, ◌≡◌, refl, Bool, true, false, Option, none, some, List, [], ◌∷◌, All, is_empty, if◌then◌else◌,
}
use bridge_go_aptos.Go.{Outcome}
use bridge_go_aptos.BigInt.{ℤ}
use bridge_go_aptos.Agreement.{Hash, MintParameter, PrepareParameter, MonitoredTxStatus}
use bridge_go_aptos.Sql.{Disk}
use bridge_go_aptos.Sql.Laws.{Keeps}
use bridge_go_aptos.MgrDb.{
  Rows, MonitoredTx, get_monitored_tx_by_ref_identifier, get_monitored_tx_by_status,
}
use bridge_go_aptos.Program.Laws.{
  Valued, IfValue, Any, Ensures, Ensures-pure, Ensures-bind, Ensures-attempt,
}
use bridge_go_aptos.TxMgr.{Call, ask, do_mint, do_prepare, no_hits, filter_untracked}
use bridge_go_aptos.TxMgr.Laws.{Holds, Reads, Ensures-ask, Ensures-in_mgrdb}
use bridge_go_aptos.Program.Laws.{Valued-Any}
use bridge_go_aptos.TxMgr.Marking.{pending_statuses}
use bridge_go_aptos.MgrDb.{insert_monitored_tx, update_tx_status, update_found}

-- A call that sends something to the chain.
abbrev pub is_submission : Call → Bool
is_submission (do_mint mp) = true
is_submission (do_prepare pp) = true
is_submission _ = false

-- `New` of a reference identifier that is not found, and `Open` of the identifier of a transaction
-- that is limbo or pending.
pub record Rules (full : Bool) (I : Rows → Type 0) (C : List Call → Type 0) (New : Hash → Type 0)
    (Open : List ℕ → Type 0) : Type 0 where
  pub other :
      (call : Call) (calls : List Call) → is_submission call ≡ false → C calls → C (call ∷ calls)
  pub mint :
      (mp : MintParameter) (calls : List Call) → New mp.btc_tx_id → C calls → C (do_mint mp ∷ calls)
  pub prepare :
      (pp : PrepareParameter) (calls : List Call)
      → New pp.request_tx_hash
      → C calls
      → C (do_prepare pp ∷ calls)
  pub insert : (tx : MonitoredTx) → Keeps I (insert_monitored_tx tx)
  pub looks_up : (k : Hash) → Keeps I (get_monitored_tx_by_ref_identifier k)
  pub not_found :
      (k : Hash) (d : Disk Rows)
      → I d.table
      → Reads full d.faults
      → Valued (λ hits. is_empty hits ≡ true → New k) (get_monitored_tx_by_ref_identifier k d).0
  pub waiting : Keeps I (get_monitored_tx_by_status pending_statuses)
  pub waiting_open :
      (d : Disk Rows)
      → I d.table
      → Reads full d.faults
      → Valued (All (λ tx. Open tx.tx_identifier)) (get_monitored_tx_by_status pending_statuses d).0
  pub set_status :
      (k : List ℕ) (status : MonitoredTxStatus) → Open k → Keeps I (update_tx_status k status)
  pub write_found : (k : List ℕ) (z : ℤ) → Open k → Keeps I (update_found k (some z))

module _ {full : Bool} {I : Rows → Type 0} {C : List Call → Type 0} {New : Hash → Type 0}
    {Open : List ℕ → Type 0} (rules : Rules full I C New Open) where
  module _ {A : Type 0} where
    -- Any other call than one that sends something.
    pub Ensures-ask_other :
        (call : Call) (answer : List Call → Outcome A)
        → is_submission call ≡ false
        → Ensures (Holds full I C) (ask call answer) Any
    Ensures-ask_other call answer e =
        Ensures-ask call answer (λ calls. rules.other call calls e) (λ calls. Valued-Any _)

  module _ {A : Type 0} (ref_id : A → Hash) where
    All-if :
        (hits : Option (List MonitoredTx)) (a : A) (xs : List A)
        → IfValue (λ l. is_empty l ≡ true → New (ref_id a)) hits
        → All (λ x. New (ref_id x)) xs
        → All (λ x. New (ref_id x)) (if no_hits hits then a ∷ xs else xs)
    All-if none a xs k q = q
    All-if (some []) a xs k q = (k refl, q)
    All-if (some (y ∷ ys)) a xs k q = q

    pub Ensures-filter_untracked :
        (xs : List A)
        → Ensures (Holds full I C) (filter_untracked ref_id xs) (All (λ x. New (ref_id x)))
    unfolding filter_untracked
    Ensures-filter_untracked [] = Ensures-pure [] tt
    Ensures-filter_untracked (x ∷ xs) =
        Ensures-bind _ _
          (Ensures-attempt _ (
            Ensures-in_mgrdb (get_monitored_tx_by_ref_identifier (ref_id x))
              (rules.looks_up (ref_id x)) (rules.not_found (ref_id x))))
          (λ hits q.
            Ensures-bind _ _ (Ensures-filter_untracked xs)
              (λ rest r. Ensures-pure _ (All-if hits x rest q r)))
