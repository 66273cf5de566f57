-- ===== src/EthSync.antt =====
-- ethsync/synchronizer.go: the older synchronizer of an EVM chain, which asks the node for the events
-- of one block after the other and sends them to state.
pub mod Blocks
pub mod Tests
use bridge_go_aptos.Prelude.{
  ℕ, suc, zero, Bool, true, false, some, List, [], ◌∷◌, String, if◌then◌else◌,
}
use bridge_go_aptos.Go.{Outcome, ok, err, panic, chain_id_unmatched}
use bridge_go_aptos.BigInt.{ℤ, pos, negsuc, cmp_eq, cmp_le, ◌+ℤ◌}
use bridge_go_aptos.Agreement.{Hash}
use bridge_go_aptos.Program.{Prog, pure, ◌>>=◌, ◌>>◌}
use bridge_go_aptos.ChainSync.{Message, new_finalized, minted, requested, prepared}

-- etherman/types.go, with the fields of the contract's events that the loop reads. Their amounts are
-- decoded from the log, and so are not nil.
pub record MintedLog : Type 0 where
  pub btc_tx_id : Hash
  pub receiver : List ℕ
  pub amount : ℤ
  pub tx_hash : Hash

pub record RequestedLog : Type 0 where
  pub sender : List ℕ
  pub amount : ℤ
  pub receiver : String
  pub tx_hash : Hash

pub record PreparedLog : Type 0 where
  pub eth_tx_hash : Hash
  pub requester : List ℕ
  pub receiver : String
  pub amount : ℤ
  pub outpoint_tx_ids : List Hash
  pub outpoint_idxs : List ℕ
  pub tx_hash : Hash

pub record Logs : Type 0 where
  pub minted : List MintedLog
  pub requested : List RequestedLog
  pub prepared : List PreparedLog

-- The messages sent, and the blocks of which events were asked, both the latest first, and how many
-- calls of the node were made.
pub record Synchronizer : Type 0 where
  pub last_finalized : ℤ
  pub messages : List Message
  pub blocks : List ℤ
  pub calls : ℕ

-- The node, by the number of the calls before, and what btcutil says of an address.
pub record Outside : Type 0 where
  pub finalized_number : ℕ → Outcome ℤ
  pub event_logs : ℕ → ℤ → Outcome Logs
  pub is_valid_btc_address : String → Bool

-- The block after which to scan, -1 being the wish to use the one in state.
unfoldable pub start_block : Outcome ℤ → ℤ → Outcome ℤ
start_block (ok stored) retro_scan_blk_num =
    ok (if cmp_eq retro_scan_blk_num (negsuc 0) then stored else retro_scan_blk_num)
start_block (err e) retro_scan_blk_num = err e
start_block panic retro_scan_blk_num = panic

-- New: where to start. `stored` is asked only where the chain id is the configured one.
unfoldable pub new : Outcome ℤ → ℤ → Outcome ℤ → ℤ → Outcome ℤ
new (ok chain_id) eth_chain_id stored retro_scan_blk_num =
    if cmp_eq chain_id eth_chain_id
    then start_block stored retro_scan_blk_num
    else err chain_id_unmatched
new (err e) eth_chain_id stored retro_scan_blk_num = err e
new panic eth_chain_id stored retro_scan_blk_num = panic

abbrev pub minted_message : MintedLog → Message
minted_message ev = minted (record {
  mint_tx_hash = ev.tx_hash;
  btc_tx_id = ev.btc_tx_id;
  amount = some ev.amount;
  receiver = ev.receiver;
})

abbrev pub requested_message : (String → Bool) → RequestedLog → Message
requested_message is_valid ev = requested (record {
  request_tx_hash = ev.tx_hash;
  requester = ev.sender;
  amount = some ev.amount;
  receiver = ev.receiver;
  is_valid_receiver = is_valid ev.receiver;
})

abbrev pub prepared_message : PreparedLog → Message
prepared_message ev = prepared (record {
  prepare_tx_hash = ev.tx_hash;
  request_tx_hash = ev.eth_tx_hash;
  requester = ev.requester;
  receiver = ev.receiver;
  amount = some ev.amount;
  outpoint_tx_ids = ev.outpoint_tx_ids;
  outpoint_idxs = ev.outpoint_idxs;
})

unfoldable pub send : Message → Prog Synchronizer (Unit {0})
send message w = (ok tt, record w { messages = message ∷ w.messages })

-- for _, ev := range evs { channel <- message }
unfoldable pub send_each : {A : Type 0} → (A → Message) → List A → Prog Synchronizer (Unit {0})
send_each message [] = pure tt
send_each message (ev ∷ evs) = do send (message ev); send_each message evs

unfoldable pub finalize : ℤ → Prog Synchronizer (Unit {0})
finalize number w = (ok tt, record w { last_finalized = number })

module _ (outside : Outside) where
  unfoldable pub get_finalized_number : Prog Synchronizer ℤ
  get_finalized_number w = (outside.finalized_number w.calls, record w { calls = suc w.calls })

  unfoldable pub get_event_logs : ℤ → Prog Synchronizer Logs
  get_event_logs number w = (
    outside.event_logs w.calls number,
    record w { blocks = number ∷ w.blocks; calls = suc w.calls },
  )

  unfoldable pub scan_block : ℤ → Prog Synchronizer (Unit {0})
  scan_block number = do
    logs ← get_event_logs number
    send_each minted_message logs.minted
    send_each (requested_message outside.is_valid_btc_address) logs.requested
    send_each prepared_message logs.prepared

  -- The loop over the blocks, for at most `fuel` tests of its condition; false where that was too
  -- few.
  unfoldable pub inspect : ℕ → ℤ → ℤ → Prog Synchronizer Bool
  inspect zero number newest = pure false
  inspect (suc fuel) number newest =
      if cmp_le number newest
      then (scan_block number >> inspect fuel (number +ℤ pos 1) newest)
      else pure true

  unfoldable pub go_forward : ℕ → ℤ → ℤ → Prog Synchronizer Bool
  go_forward fuel last newest = do
    send (new_finalized newest)
    ended ← inspect fuel (last +ℤ pos 1) newest
    if ended then (finalize newest >> pure true) else pure false

  -- One turn of Loop.
  unfoldable pub turn_from : ℕ → ℤ → Prog Synchronizer Bool
  turn_from fuel last = do
    newest ← get_finalized_number
    if cmp_le newest last then pure true else go_forward fuel last newest

  unfoldable pub turn : ℕ → Prog Synchronizer Bool
  turn fuel w = turn_from fuel w.last_finalized w
