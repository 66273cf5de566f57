-- ===== src/BtcSync.antt =====
-- btcsync: the monitor of the Bitcoin chain. This file has what it reads of the chain, and the
-- notices that it publishes.
pub mod Outputs
pub mod Blocks
pub mod Scan
pub mod Heights
pub mod Found
pub mod DepositTrip
pub mod Tests
pub mod Observers
use bridge_go_aptos.Prelude.{ℕ, Bool, Option, String, List, [], ◌∷◌}
use bridge_go_aptos.Go.{Outcome}
use bridge_go_aptos.Sql.{Disk, Exec}
use bridge_go_aptos.BtcTx.{MsgTx, TxOut}
use bridge_go_aptos.BtcAction.Deposits.{DepositAction}
use bridge_go_aptos.BtcAction.Redeems.{RedeemAction}
use bridge_go_aptos.BtcAction.Redeems
use bridge_go_aptos.BtcTx.DepositData.{Bytes4}
use bridge_go_aptos.Program.{Prog, on}

-- A transaction with its hash, and a block with its own.
pub record Transaction : Type 0 where
  pub tx_hash : String
  pub tx_out : List TxOut

pub record Block : Type 0 where
  pub block_hash : String
  pub transactions : List Transaction

-- observer_utxo.go. The height is the bit pattern of an int32.
pub record ObservedUtxo : Type 0 where
  pub block_number : ℕ
  pub block_hash : String
  pub tx_id : String
  pub vout : ℕ
  pub amount : ℕ
  pub pk_script : List ℕ

pub data Notice : Type 0 where
  deposit_found : DepositAction → Notice
  utxo_found : ObservedUtxo → Notice
  redeem_is_done : RedeemAction → Notice

-- The code outside: the node during one scan, and btcd's reading of scripts, with the addresses as
-- EncodeAddress writes them. `decode_rlp` is the decoding of a deposit's data, its chain id and its
-- address, each as bytes, and `address_hex` the text of an address.
pub record Outside : Type 0 where
  pub block_count : Outcome ℕ
  pub block_count_again : Outcome ℕ
  pub hash_at : ℕ → Outcome String
  pub block_of : String → Outcome Block
  pub height_of : String → Outcome ℕ
  pub bridge_address : String
  pub addresses_of : List ℕ → Outcome (List String)
  pub is_null_data : List ℕ → Bool
  pub decode_rlp : List ℕ → Outcome (Bytes4 × List ℕ)
  pub address_hex : List ℕ → String

-- The notices, the latest first.
pub record Monitor : Type 0 where
  pub last_visted_block_height : ℕ
  pub mgr_state : Disk Redeems.Rows
  pub notices : List Notice

module _ {A : Type 0} where
  unfoldable pub in_mgr_state : Exec Redeems.Rows A → Prog Monitor A
  unfolding on
  in_mgr_state m = on (λ w. w.mgr_state) (λ d w. record w { mgr_state = d }) m
