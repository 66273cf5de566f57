-- ===== src/BtcAction/OtherTransfers.antt =====
-- btcaction/sqlite_db_other_transfer.go: other transfers to the bridge.
use bridge_go_aptos.Prelude.{ℕ, String, List, [], ◌∷◌, ◌++◌, filter, str_eq}
use bridge_go_aptos.Go.{ok}
use bridge_go_aptos.Sql.{Exec, query_rows, exec}
use bridge_go_aptos.BtcAction.{Basic}

pub record OtherTransferAction : Type 0 where
  pub basic : Basic
  pub vout : ℕ
  pub transfer_value : ℕ
  pub transfer_receiver : String

unfoldable pub add_other_transfer : OtherTransferAction → Exec (List OtherTransferAction) (Unit {0})
add_other_transfer transfer = exec (λ rows. ok (rows ++ transfer ∷ []))

unfoldable pub get_other_transfer_by_receiver :
    String → Exec (List OtherTransferAction) (List OtherTransferAction)
get_other_transfer_by_receiver receiver =
    query_rows (filter (λ t. str_eq t.transfer_receiver receiver))
