-- ===== src/BtcSync/Scan.antt =====
-- btcsync/btc_monitor.go: one round of scanning.
use bridge_go_aptos.Prelude.{
  ℕ, ◌-◌, Bool, true, false, not, Option, none, some, String, List, [], ◌∷◌, is_empty, ltb, leb,
  if◌then◌else◌, str_eq,
}
use bridge_go_aptos.Go.{Outcome, ok, panic}
use bridge_go_aptos.BtcTx.{TxOut}
use bridge_go_aptos.BtcAction.Redeems.{
  RedeemAction, query_by_btc_tx_id, query_by_eth_request_tx_id, complete_redeem,
}
use bridge_go_aptos.Program.{Prog, pure, lift, attempt, for_each, ◌>>=◌, ◌>>◌}
use bridge_go_aptos.BtcSync.{
  Outside, Monitor, Notice, deposit_found, utxo_found, redeem_is_done, Transaction, Block,
  ObservedUtxo, in_mgr_state,
}
use bridge_go_aptos.BtcSync.Outputs.{maybe_deposit_tx, maybe_just_transfer, craft_deposit_action}
use bridge_go_aptos.BtcSync.Blocks.{get_blocks}

abbrev pub blk_mature_offset : ℕ
blk_mature_offset = 1

abbrev pub retro_scan_blocks : ℕ
retro_scan_blocks = 36

-- The publisher hands the notice to every observer.
unfoldable pub notify : Notice → Prog Monitor (Unit {0})
notify notice w = (ok tt, record w { notices = notice ∷ w.notices })

abbrev pub is_known : Option (Option RedeemAction) → Bool
is_known (some (some r)) = not (str_eq r.eth_request_tx_id "")
is_known _ = false

unfoldable pub query_redeem_tx_from_mgr_db : String → Prog Monitor Bool
query_redeem_tx_from_mgr_db btc_tx_id = do
  found ← attempt (in_mgr_state (query_by_btc_tx_id btc_tx_id))
  pure (is_known found)

-- Errors are dropped: a query that fails gives a record with no request, one that finds nothing a
-- nil pointer, which is read.
abbrev pub request_of : String → Option (Option RedeemAction) → Outcome String
request_of otherwise none = ok otherwise
request_of otherwise (some none) = panic
request_of otherwise (some (some r)) = ok r.eth_request_tx_id

unfoldable pub finish_redeem : String → Prog Monitor String
finish_redeem btc_tx_id = do
  found ← attempt (in_mgr_state (query_by_btc_tx_id btc_tx_id))
  id ← lift (request_of "" found)
  attempt (in_mgr_state (complete_redeem id))
  again ← attempt (in_mgr_state (query_by_eth_request_tx_id id))
  lift (request_of id again)

-- The notice of a redeem that is mined, where the transaction is one that was sent for it.
unfoldable pub inspect_redeem : Transaction → Prog Monitor (Unit {0})
inspect_redeem tx = do
  known ← query_redeem_tx_from_mgr_db tx.tx_hash
  if known
      then (finish_redeem tx.tx_hash >>= λ id. notify (
          redeem_is_done
            (record { eth_request_tx_id = id; btc_hash = tx.tx_hash; sent = true; mined = true })))
      else pure tt

abbrev pub observed : Transaction → ℕ → Block → ℕ × TxOut → ObservedUtxo
observed tx block_height block (vout, out) = record {
  block_number = block_height;
  block_hash = block.block_hash;
  tx_id = tx.tx_hash;
  vout = vout;
  amount = out.value;
  pk_script = out.pk_script;
}

unfoldable pub inspect_transfers :
    Transaction → ℕ → Block → List (ℕ × TxOut) → Prog Monitor (Unit {0})
inspect_transfers tx block_height block [] = pure tt
inspect_transfers tx block_height block (transfer ∷ transfers) = do
  notify (utxo_found (observed tx block_height block transfer))
  inspect_transfers tx block_height block transfers

module _ (outside : Outside) where
  unfoldable pub inspect_deposit : Transaction → ℕ → Block → Prog Monitor (Unit {0})
  inspect_deposit tx block_height block =
      if maybe_deposit_tx outside tx.tx_out
      then (attempt (
            lift (craft_deposit_action outside tx block_height block.block_hash tx.tx_out)
            >>= λ deposit. notify (deposit_found deposit))
          >> pure tt)
      else pure tt

  -- The body of the loop over the transactions.
  unfoldable pub inspect_tx : ℕ → Block → Transaction → Prog Monitor (Unit {0})
  inspect_tx block_height block tx = do
    inspect_deposit tx block_height block
    inspect_transfers tx block_height block (maybe_just_transfer outside tx.tx_out)
    inspect_redeem tx

  -- The body of the loop over the blocks.
  unfoldable pub inspect_block : Block → Prog Monitor (Unit {0})
  inspect_block block =
      if is_empty block.transactions
      then pure tt
      else (lift (outside.height_of block.block_hash) >>= λ block_height.
          for_each (inspect_tx block_height block) block.transactions)

  -- How many blocks are fetched.
  abbrev pub numbers_to_fetch : ℕ → ℕ → ℕ
  numbers_to_fetch latest last =
      let n = latest - last - blk_mature_offset in
      if ltb n retro_scan_blocks then retro_scan_blocks else n

  unfoldable pub visited : ℕ → Prog Monitor (Unit {0})
  visited height w = (ok tt, record w { last_visted_block_height = height })

  unfoldable pub scan_from : ℕ → ℕ → Prog Monitor (Unit {0})
  scan_from last latest =
      if leb latest last
      then pure tt
      else (lift (get_blocks outside (numbers_to_fetch latest last) blk_mature_offset) >>= λ blocks.
          for_each inspect_block blocks >>= λ _. visited latest)

  unfoldable pub scan : Prog Monitor (Unit {0})
  scan w = (lift outside.block_count >>= scan_from w.last_visted_block_height) w
