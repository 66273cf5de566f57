-- ===== src/BtcAction/Redeems.antt =====
-- btcaction/sqlite_db_redeem.go: the redeems that were sent to Bitcoin, EthRequestTxID being the
-- primary key.
use bridge_go_aptos.Prelude.{
  Bool, true, false, not, ◌&&◌, ◌||◌, Option, none, some, String, List, [], ◌∷◌, ◌++◌,
  if◌then◌else◌, str_eq,
}
use bridge_go_aptos.Go.{Outcome, ok, err, constraint_failed}
use bridge_go_aptos.Sql.{Exec, pure, query, exec, ◌>>=◌}

pub record RedeemAction : Type 0 where
  pub eth_request_tx_id : String
  pub btc_hash : String
  pub sent : Bool
  pub mined : Bool

abbrev pub Rows : Type 0
Rows = List RedeemAction

-- SELECT COUNT(*) ... > 0
unfoldable pub any_row : (RedeemAction → Bool) → Rows → Bool
any_row p [] = false
any_row p (r ∷ rows) = p r || any_row p rows

unfoldable pub first_row : (RedeemAction → Bool) → Rows → Option RedeemAction
first_row p [] = none
first_row p (r ∷ rows) = if p r then some r else first_row p rows

abbrev pub has_id : String → RedeemAction → Bool
has_id id r = str_eq r.eth_request_tx_id id

abbrev pub has_hash : String → RedeemAction → Bool
has_hash tx_id r = str_eq r.btc_hash tx_id

unfoldable pub has_redeem : String → Exec Rows Bool
has_redeem id = query (any_row (has_id id))

unfoldable pub query_by_eth_request_tx_id : String → Exec Rows (Option RedeemAction)
query_by_eth_request_tx_id id = query (first_row (has_id id))

unfoldable pub query_by_btc_tx_id : String → Exec Rows (Option RedeemAction)
query_by_btc_tx_id tx_id = query (first_row (has_hash tx_id))

-- The column Mined is 0 by default, and Sent is written as true.
abbrev pub sent_row : RedeemAction → RedeemAction
sent_row r = record {
  eth_request_tx_id = r.eth_request_tx_id;
  btc_hash = r.btc_hash;
  sent = true;
  mined = false;
}

unfoldable pub insert_row : RedeemAction → Rows → Outcome Rows
insert_row r rows =
    if any_row (has_id r.eth_request_tx_id) rows
    then err constraint_failed
    else ok (rows ++ sent_row r ∷ [])

unfoldable pub insert_redeem : RedeemAction → Exec Rows (Unit {0})
insert_redeem r = exec (insert_row r)

unfoldable pub if_not_mined : String → Exec Rows Bool
if_not_mined id = query (any_row (λ r. has_id id r && not r.mined))

unfoldable pub set_mined : String → Rows → Rows
set_mined id [] = []
set_mined id (r ∷ rows) = (if has_id id r then record r { mined = true } else r) ∷ set_mined id rows

unfoldable pub complete_redeem : String → Exec Rows (Unit {0})
complete_redeem id = do
  bingo ← if_not_mined id
  if bingo then exec (λ rows. ok (set_mined id rows)) else pure tt
