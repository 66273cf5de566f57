-- ===== src/TxMgr/Mints.antt =====
-- chaintxmgr/mgr.go: procedureMint, which sends the mints that wait to the chain.
use bridge_go_aptos.Prelude.{ℕ, Bool, Option, none, some, List, if◌then◌else◌}
use bridge_go_aptos.BigInt.{ℤ, big_int_clone}
use bridge_go_aptos.Agreement.{MintParameter, MonitoredTxStatus, pending}
use bridge_go_aptos.State.Tables.{Mint}
use bridge_go_aptos.State.MintDb.{get_un_minted}
use bridge_go_aptos.MgrDb.{MonitoredTx, insert_monitored_tx}
use bridge_go_aptos.Program.{Prog, pure, lift, for_each, ◌>>=◌, ◌>>◌}
use bridge_go_aptos.TxMgr.{
  World, Outside, is_minted, do_mint, sign_async, in_statedb, in_mgrdb, ask, filter_untracked,
  ledger_or_latest,
}

abbrev pub query_mints : Outside → Prog World (List Mint)
query_mints outside = in_statedb (get_un_minted outside.order_mints)

abbrev pub filter_mints : List Mint → Prog World (List Mint)
filter_mints = filter_untracked (λ m. m.btc_tx_id)

abbrev pub mint_parameter : Mint → ℤ → MintParameter
mint_parameter mint amount = record {
  btc_tx_id = mint.btc_tx_id;
  amount = amount;
  receiver = mint.receiver;
}

abbrev pub monitored_mint : MintParameter → List ℕ → ℤ → MonitoredTxStatus → MonitoredTx
monitored_mint mp tx_id sent_at status = record {
  tx_identifier = tx_id;
  ref_identifier = mp.btc_tx_id;
  sent_blockchain_ledger_number = some sent_at;
  found_blockchain_ledger_number = none;
  tx_status = status;
}

-- BigIntClone(sentAt) panics where the number is nil.
unfoldable pub set_mint_to_be_monitored :
    MintParameter → List ℕ → Option ℤ → MonitoredTxStatus → Prog World (Unit {0})
set_mint_to_be_monitored mp tx_id sent_at status = do
  sent ← lift (big_int_clone sent_at)
  in_mgrdb (insert_monitored_tx (monitored_mint mp tx_id sent status))

module _ (outside : Outside) where
  unfoldable pub is_double_mint : Mint → Prog World Bool
  is_double_mint mint =
      ask (is_minted mint.btc_tx_id) (λ calls. outside.minted calls mint.btc_tx_id)

  unfoldable pub prepare_mint : Mint → Prog World MintParameter
  prepare_mint mint = do
    amount ← lift (big_int_clone mint.amount)
    let mp = mint_parameter mint amount
    let msg_hash = outside.mint_msg_hash mp
    ask (sign_async mint.btc_tx_id msg_hash) (λ calls. outside.signed calls mint.btc_tx_id msg_hash)
    pure mp

  unfoldable pub call_mint : MintParameter → Prog World (List ℕ × Option ℤ)
  call_mint mp = ask (do_mint mp) (λ calls. outside.mint_sent calls mp)

  unfoldable pub submit_mint : Mint → Prog World (Unit {0})
  submit_mint mint = do
    mp ← prepare_mint mint
    (tx_id, sent_at) ← call_mint mp
    ledger_number ← ledger_or_latest outside sent_at
    set_mint_to_be_monitored mp tx_id ledger_number pending

  -- The body of the loop.
  unfoldable pub process_mint : Mint → Prog World (Unit {0})
  process_mint mint = do found ← is_double_mint mint; if found then pure tt else submit_mint mint

  unfoldable pub procedure_mint : Prog World (Unit {0})
  procedure_mint = do
    mints ← query_mints outside
    mints_clean ← filter_mints mints
    for_each process_mint mints_clean
