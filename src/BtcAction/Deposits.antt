-- ===== src/BtcAction/Deposits.antt =====
-- btcaction/sqlite_db_deposit.go: the deposits that were seen on Bitcoin.
use bridge_go_aptos.Prelude.{
  ℕ, Bool, ◌&&◌, String, List, [], ◌∷◌, ◌++◌, filter, is_empty, ◌==◌, if◌then◌else◌, str_eq,
}
use bridge_go_aptos.Go.{ok}
use bridge_go_aptos.Sql.{Exec, pure, query_rows, exec, ◌>>=◌}
use bridge_go_aptos.BtcAction.{Basic}

-- The value and the chain id are the bit patterns of an int64 and an int32.
pub record DepositAction : Type 0 where
  pub basic : Basic
  pub deposit_value : ℕ
  pub deposit_receiver : String
  pub evm_id : ℕ
  pub evm_addr : String

abbrev pub Rows : Type 0
Rows = List DepositAction

abbrev pub has_tx_hash : String → DepositAction → Bool
has_tx_hash tx_hash d = str_eq d.basic.tx_hash tx_hash

unfoldable pub get_deposits : Exec Rows Rows
get_deposits = query_rows (λ rows. rows)

unfoldable pub get_deposit_by_tx_hash : String → Exec Rows Rows
get_deposit_by_tx_hash tx_hash = query_rows (filter (has_tx_hash tx_hash))

unfoldable pub get_deposits_by_receiver : String → Exec Rows Rows
get_deposits_by_receiver receiver = query_rows (filter (λ d. str_eq d.deposit_receiver receiver))

unfoldable pub get_deposit_by_evm : String → ℕ → Exec Rows Rows
get_deposit_by_evm evm_addr evm_id =
    query_rows (filter (λ d. str_eq d.evm_addr evm_addr && d.evm_id == evm_id))

-- `lower` is LOWER of SQLite.
module _ (lower : String → String) where
  unfoldable pub get_deposits_by_evm_addr : String → Exec Rows Rows
  get_deposits_by_evm_addr evm_addr =
      query_rows (filter (λ d. str_eq (lower d.evm_addr) (lower evm_addr)))

-- A deposit of a transaction that has one already is left out.
unfoldable pub add_deposit : DepositAction → Exec Rows (Unit {0})
add_deposit deposit = do
  hits ← get_deposit_by_tx_hash deposit.basic.tx_hash
  if is_empty hits then exec (λ rows. ok (rows ++ deposit ∷ [])) else pure tt
