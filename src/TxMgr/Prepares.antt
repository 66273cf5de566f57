-- ===== src/TxMgr/Prepares.antt =====
-- chaintxmgr/mgr.go: procedurePrepare, which asks the vault for the outputs that pay a redeem and
-- sends the preparation to the chain.
use bridge_go_aptos.Prelude.{ℕ, Bool, Option, none, some, List, is_empty, if◌then◌else◌}
use bridge_go_aptos.Go.{Outcome, ok, err, empty_outpoints, outpoints_timeout}
use bridge_go_aptos.BigInt.{ℤ, big_int_clone}
use bridge_go_aptos.Agreement.{
  BtcOutpoint, PrepareParameter, MonitoredTxStatus, pending, convert_outpoints,
}
use bridge_go_aptos.State.Redeem.{Redeem, requested}
use bridge_go_aptos.State.RedeemDb.{get_redeems_by_status}
use bridge_go_aptos.MgrDb.{MonitoredTx, insert_monitored_tx}
use bridge_go_aptos.Program.{Prog, pure, lift, for_each, ◌>>=◌, ◌>>◌}
use bridge_go_aptos.TxMgr.{
  World, Outside, is_prepared, do_prepare, sign_async, request_outpoints, in_statedb, in_mgrdb, ask,
  filter_untracked, ledger_or_latest,
}

abbrev pub query_unprepared : Prog World (List Redeem)
query_unprepared = in_statedb (get_redeems_by_status requested)

abbrev pub filter_unprepared : List Redeem → Prog World (List Redeem)
filter_unprepared = filter_untracked (λ r. r.request_tx_hash)

-- waitForOutPoints
abbrev pub wait_for_out_points : Option (List BtcOutpoint) → Outcome (List BtcOutpoint)
wait_for_out_points none = err outpoints_timeout
wait_for_out_points (some outpoints) =
    if is_empty outpoints then err empty_outpoints else ok outpoints

abbrev pub prepare_parameter : Redeem → ℤ → List BtcOutpoint → PrepareParameter
prepare_parameter redeem amount outpoints = record {
  request_tx_hash = redeem.request_tx_hash;
  requester = redeem.requester;
  receiver = redeem.receiver;
  amount = amount;
  outpoint_tx_ids = (convert_outpoints outpoints).0;
  outpoint_idxs = (convert_outpoints outpoints).1;
}

abbrev pub monitored_prepare : PrepareParameter → List ℕ → ℤ → MonitoredTxStatus → MonitoredTx
monitored_prepare pp tx_id sent_at status = record {
  tx_identifier = tx_id;
  ref_identifier = pp.request_tx_hash;
  sent_blockchain_ledger_number = some sent_at;
  found_blockchain_ledger_number = none;
  tx_status = status;
}

unfoldable pub set_prepare_to_be_monitored :
    PrepareParameter → List ℕ → Option ℤ → MonitoredTxStatus → Prog World (Unit {0})
set_prepare_to_be_monitored pp tx_id sent_at status = do
  sent ← lift (big_int_clone sent_at)
  in_mgrdb (insert_monitored_tx (monitored_prepare pp tx_id sent status))

module _ (outside : Outside) where
  unfoldable pub is_double_prepare : Redeem → Prog World Bool
  is_double_prepare redeem =
      ask (is_prepared redeem.request_tx_hash)
        (λ calls. outside.prepared calls redeem.request_tx_hash)

  unfoldable pub prepare_prepare : Redeem → Prog World PrepareParameter
  prepare_prepare redeem = do
    arrived ←
        ask (request_outpoints redeem.request_tx_hash redeem.amount)
          (λ calls. outside.outpoints calls redeem.request_tx_hash redeem.amount)
    outpoints ← lift (wait_for_out_points arrived)
    amount ← lift (big_int_clone redeem.amount)
    let pp = prepare_parameter redeem amount outpoints
    let msg_hash = outside.prepare_msg_hash pp
    ask (sign_async redeem.request_tx_hash msg_hash)
        (λ calls. outside.signed calls redeem.request_tx_hash msg_hash)
    pure pp

  unfoldable pub call_prepare : PrepareParameter → Prog World (List ℕ × Option ℤ)
  call_prepare pp = ask (do_prepare pp) (λ calls. outside.prepare_sent calls pp)

  unfoldable pub submit_prepare : Redeem → Prog World (Unit {0})
  submit_prepare redeem = do
    pp ← prepare_prepare redeem
    (tx_id, sent_at) ← call_prepare pp
    ledger_number ← ledger_or_latest outside sent_at
    set_prepare_to_be_monitored pp tx_id ledger_number pending

  -- The body of the loop.
  unfoldable pub process_redeem : Redeem → Prog World (Unit {0})
  process_redeem redeem = do
    found ← is_double_prepare redeem
    if found then pure tt else submit_prepare redeem

  unfoldable pub procedure_prepare : Prog World (Unit {0})
  procedure_prepare = do
    redeems ← query_unprepared
    redeems_clean ← filter_unprepared redeems
    for_each process_redeem redeems_clean
