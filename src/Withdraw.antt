-- ===== src/Withdraw.antt =====
-- btctxmanager/withdraw.go: the manager that pays prepared redeems on Bitcoin.
pub mod Once
pub mod Tests
use bridge_go_aptos.Prelude.{
  ℕ, suc, zero, ◌+◌, ◌%◌, ◌/◌, ◌^◌, Bool, true, false, Option, none, some, String, List, [], ◌∷◌,
  map, if◌then◌else◌,
}
use Prim.Native.String.{slice, len}
use text.Mathlib.Text.{starts_with}
use bridge_go_aptos.Go.{Outcome, ok, panic, deref}
use bridge_go_aptos.BigInt.{ℤ, to_int64}
use bridge_go_aptos.Agreement.{Hash, BtcOutpoint}
use bridge_go_aptos.Sql.{Disk, Exec}
use bridge_go_aptos.State.Redeem.{Redeem}
use bridge_go_aptos.State.Tables.{Tables}
use bridge_go_aptos.State.Handlers.{get_prepared_redeems}
use bridge_go_aptos.Vault.Utxo.{VaultUtxo}
use bridge_go_aptos.Vault.Storage
use bridge_go_aptos.Vault.Treasury.{get_utxo_detail}
use bridge_go_aptos.BtcUtxo.{Utxo, any_script_t}
use bridge_go_aptos.BtcTx.{MsgTx, Btcd, make_redeem_tx}
use bridge_go_aptos.BtcAction.Redeems.{
  RedeemAction, has_redeem, query_by_eth_request_tx_id, insert_redeem,
}
use bridge_go_aptos.BtcAction.Redeems
use bridge_go_aptos.Program.{Prog, pure, lift, attempt, for_each, on, ◌>>=◌, ◌>>◌}

-- 0.0001 BTC in satoshi
abbrev pub btc_tx_fee : ℕ
btc_tx_fee = 10000

unfoldable pub remove_0x_prefix : String → String
remove_0x_prefix input = if starts_with input "0x" then slice input 2 (len input) else input

-- The bytes of a [32]byte, the first one the most significant.
abbrev digits : ℕ → ℕ → List ℕ → List ℕ
digits zero n bytes = bytes
digits (suc k) n bytes = digits k (n / 256) (n % 256 ∷ bytes)

abbrev pub hash_bytes : Hash → List ℕ
hash_bytes h = digits 32 h []

-- What was sent to Bitcoin, the latest first: the request of the redeem, and the transaction.
pub record World : Type 0 where
  pub statedb : Disk Tables
  pub vault : Disk Storage.Rows
  pub mgr_state : Disk Redeems.Rows
  pub sent : List (Hash × MsgTx)

module _ {A : Type 0} where
  unfoldable pub in_statedb : Exec Tables A → Prog World A
  unfolding on
  in_statedb m = on (λ w. w.statedb) (λ d w. record w { statedb = d }) m

  unfoldable pub in_vault : Exec Storage.Rows A → Prog World A
  unfolding on
  in_vault m = on (λ w. w.vault) (λ d w. record w { vault = d }) m

  unfoldable pub in_mgr_state : Exec Redeems.Rows A → Prog World A
  unfolding on
  in_mgr_state m = on (λ w. w.mgr_state) (λ d w. record w { mgr_state = d }) m

-- The code outside: go-ethereum's text of a hash, chainhash's reading of one, the address for the
-- change, and the node, which takes a transaction or refuses it and gives its id.
pub record Outside : Type 0 where
  pub btcd : Btcd
  pub hash_to_string : Hash → String
  pub new_hash_from_str : String → Option Hash
  pub change_address : String
  pub send_raw_transaction : List (Hash × MsgTx) → MsgTx → Outcome String

module _ (outside : Outside) where
  abbrev pub request_id : Hash → String
  request_id h = remove_0x_prefix (outside.hash_to_string h)

  -- FetchUTXOs: the loop over the outpoints.
  unfoldable pub fetch_utxos : List BtcOutpoint → Prog World (List VaultUtxo)
  fetch_utxos [] = pure []
  fetch_utxos (o ∷ os) = do
    utxo ← in_vault (get_utxo_detail (request_id o.btc_tx_id) o.btc_idx)
    utxos ← fetch_utxos os
    pure (utxo ∷ utxos)

  unfoldable pub convert_utxo : VaultUtxo → Utxo
  convert_utxo u = record {
    tx_id = u.tx_id;
    tx_hash = outside.new_hash_from_str u.tx_id;
    vout = u.vout % 2 ^ 32;
    amount = u.amount;
    pk_script_t = any_script_t;
    pk_script = u.pk_script;
  }

  -- A slice that is nil has no elements.
  abbrev pub outpoints_of : Option (List BtcOutpoint) → List BtcOutpoint
  outpoints_of none = []
  outpoints_of (some os) = os

  unfoldable pub collect_utxos : Redeem → Prog World (List Utxo)
  collect_utxos redeem = do
    vault_utxos ← fetch_utxos (outpoints_of redeem.outpoints)
    pure (map convert_utxo vault_utxos)

  unfoldable pub create_btc_redeem_tx : Redeem → Prog World MsgTx
  create_btc_redeem_tx redeem = do
    utxos ← collect_utxos redeem
    amount ← lift (deref redeem.amount)
    lift (
        make_redeem_tx outside.btcd (remove_0x_prefix redeem.receiver) (to_int64 amount)
          (hash_bytes redeem.request_tx_hash) outside.change_address btc_tx_fee utxos)

  -- SendRawTx.
  unfoldable pub send_raw_tx : Hash → MsgTx → Prog World String
  send_raw_tx h tx w =
      (outside.send_raw_transaction w.sent tx, record w { sent = (h, tx) ∷ w.sent })

  unfoldable pub withdraw_btc : Redeem → Prog World String
  withdraw_btc redeem = do tx ← create_btc_redeem_tx redeem; send_raw_tx redeem.request_tx_hash tx

  -- The record of a redeem that was sent before is read for the log.
  abbrev pub log_tracked : Option (Option RedeemAction) → Outcome (Unit {0})
  log_tracked none = ok tt
  log_tracked (some none) = panic
  log_tracked (some (some ra)) = ok tt

  unfoldable pub note_tracked : String → Prog World (Unit {0})
  note_tracked id = do
    ra ← attempt (in_mgr_state (query_by_eth_request_tx_id id))
    lift (log_tracked ra)

  -- The amount is read for the log before anything else.
  unfoldable pub withdraw_new : Redeem → Prog World (Unit {0})
  withdraw_new redeem = do
    lift (deref redeem.amount)
    btc_tx_id ← withdraw_btc redeem
    in_mgr_state (
        insert_redeem (record {
          eth_request_tx_id = request_id redeem.request_tx_hash;
          btc_hash = btc_tx_id;
          sent = true;
          mined = false;
        }))

  -- The body of the inner loop.
  unfoldable pub process_redeem : Redeem → Prog World (Unit {0})
  process_redeem redeem = do
    exists ← in_mgr_state (has_redeem (request_id redeem.request_tx_hash))
    if exists then note_tracked (request_id redeem.request_tx_hash) else withdraw_new redeem

  -- One turn of WithdrawLoop.
  unfoldable pub withdraw_round : Prog World (Unit {0})
  withdraw_round = do redeems ← in_statedb get_prepared_redeems; for_each process_redeem redeems
