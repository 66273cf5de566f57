-- ===== src/Agreement.antt =====
-- agreement/types.go: the types that the parts of the bridge exchange.
use bridge_go_aptos.Prelude.{ℕ, Bool, Option, String, List, [], ◌∷◌}
use bridge_go_aptos.BigInt.{ℤ}

-- A [32]byte by the number that its bytes spell. `zero` is the hash of 32 zero bytes.
abbrev pub Hash : Type 0
Hash = ℕ

pub record MintedEvent : Type 0 where
  pub mint_tx_hash : Hash
  pub btc_tx_id : Hash
  pub receiver : List ℕ
  pub amount : Option ℤ

pub record RedeemRequestedEvent : Type 0 where
  pub request_tx_hash : Hash
  pub requester : List ℕ
  pub receiver : String
  pub amount : Option ℤ
  pub is_valid_receiver : Bool

pub record RedeemPreparedEvent : Type 0 where
  pub request_tx_hash : Hash
  pub prepare_tx_hash : Hash
  pub requester : List ℕ
  pub receiver : String
  pub amount : Option ℤ
  pub outpoint_tx_ids : List Hash
  pub outpoint_idxs : List ℕ

pub record BtcOutpoint : Type 0 where
  pub btc_tx_id : Hash
  pub btc_idx : ℕ

pub record MintParameter : Type 0 where
  pub btc_tx_id : Hash
  pub amount : ℤ
  pub receiver : List ℕ

pub record PrepareParameter : Type 0 where
  pub request_tx_hash : Hash
  pub requester : List ℕ
  pub receiver : String
  pub amount : ℤ
  pub outpoint_tx_ids : List Hash
  pub outpoint_idxs : List ℕ

-- ConvertOutpoints
unfoldable pub convert_outpoints : List BtcOutpoint → List Hash × List ℕ
convert_outpoints [] = ([], [])
convert_outpoints (o ∷ os) =
    let (tx_ids, idxs) = convert_outpoints os in (o.btc_tx_id ∷ tx_ids, o.btc_idx ∷ idxs)

pub data MonitoredTxStatus : Type 0 where
  malform limbo pending success reverted timeout reorg : MonitoredTxStatus
