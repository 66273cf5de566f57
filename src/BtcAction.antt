-- ===== src/BtcAction.antt =====
-- btcaction: the tables that track deposits, redeems and other transfers on Bitcoin.
pub mod Redeems
pub mod Deposits
pub mod OtherTransfers
use bridge_go_aptos.Prelude.{ℕ, String}

-- types.go: what every action has.
pub record Basic : Type 0 where
  pub block_number : ℕ
  pub block_hash : String
  pub tx_hash : String
