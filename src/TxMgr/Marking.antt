-- ===== src/TxMgr/Marking.antt =====
-- chaintxmgr/mgr.go: procedureMarkTxStatus, which writes what became of the transactions that are
-- monitored, and the loop of the manager.
use bridge_go_aptos.Prelude.{ℕ, Bool, false, Option, some, List, [], ◌∷◌, if◌then◌else◌}
use bridge_go_aptos.BigInt.{ℤ, ◌+ℤ◌, cmp_le, big_int_clone}
use bridge_go_aptos.Agreement.{MonitoredTxStatus, limbo, pending, success, reverted, timeout}
use bridge_go_aptos.MgrDb.{
  MonitoredTx, util_contains, get_monitored_tx_by_status, update_tx_status, update_found,
}
use bridge_go_aptos.Program.{Prog, pure, lift, attempt, for_each, ◌>>=◌, ◌>>◌}
use bridge_go_aptos.TxMgr.{World, Outside, get_latest_ledger_number, get_tx_status, in_mgrdb, ask}
use bridge_go_aptos.TxMgr.Mints.{procedure_mint}
use bridge_go_aptos.TxMgr.Prepares.{procedure_prepare}

abbrev pub pending_statuses : List MonitoredTxStatus
pending_statuses = limbo ∷ pending ∷ []

abbrev pub included_statuses : List MonitoredTxStatus
included_statuses = success ∷ reverted ∷ []

unfoldable pub set_found_number : List ℕ → Option ℤ → Prog World (Unit {0})
set_found_number tx_id ledger_num = do
  found ← lift (big_int_clone ledger_num)
  in_mgrdb (update_found tx_id (some found))

-- Sent at a known ledger number, and the latest one is known to be at or past its time-out.
unfoldable pub is_expired : ℤ → Option ℤ → Option ℤ → Bool
is_expired timeout_tx_ledger_number (some latest) (some sent) =
    cmp_le (sent +ℤ timeout_tx_ledger_number) latest
is_expired timeout_tx_ledger_number _ _ = false

-- TimeoutTxLedgerNumber of the configuration is not nil.
module _ (outside : Outside) (timeout_tx_ledger_number : ℤ) where
  unfoldable pub mark_timeout : MonitoredTx → Prog World (Unit {0})
  mark_timeout tx = do
    latest ← ask get_latest_ledger_number outside.latest_ledger_number
    if is_expired timeout_tx_ledger_number latest tx.sent_blockchain_ledger_number
        then in_mgrdb (update_tx_status tx.tx_identifier timeout)
        else pure tt

  -- The body of the loop.
  unfoldable pub mark_tx : MonitoredTx → Prog World (Unit {0})
  mark_tx tx = do
    (status, ledger_num) ←
        ask (get_tx_status tx.tx_identifier) (λ calls. outside.tx_status calls tx.tx_identifier)
    in_mgrdb (update_tx_status tx.tx_identifier status)
    if util_contains included_statuses status
        then set_found_number tx.tx_identifier ledger_num
        else mark_timeout tx

  unfoldable pub procedure_mark_tx_status : Prog World (Unit {0})
  procedure_mark_tx_status = do
    pending_txs ← in_mgrdb (get_monitored_tx_by_status pending_statuses)
    for_each mark_tx pending_txs

  -- One turn of Loop: the error of a procedure is logged.
  unfoldable pub tick : Prog World (Unit {0})
  tick = do
    attempt (procedure_mint outside)
    attempt (procedure_prepare outside)
    attempt procedure_mark_tx_status
    pure tt
