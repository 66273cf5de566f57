-- ===== src/MgrDb.antt =====
-- chaintxmgrdb: the transactions that the manager of the chain monitors, one row to a transaction.
-- A transaction's identifier is its bytes. A reference identifier is the 32 bytes of a hash, and
-- stands here as that hash. An INTEGER column holds the bit pattern of an int64.
pub mod Numbers
pub mod Rows
use bridge_go_aptos.Prelude.{
  ℕ, ◌+◌, ◌-◌, ◌^◌, Bool, true, false, ◌||◌, not, Option, none, some, List, [], ◌∷◌, ◌++◌, map,
  filter, ltb, ◌==◌, if◌then◌else◌,
}
use bridge_go_aptos.Go.{Error, Outcome, ok, err, panic, constraint_failed}
use bridge_go_aptos.Int64.{int64_mod, int64_min}
use bridge_go_aptos.BigInt.{ℤ, pos, negsuc, to_int64}
use bridge_go_aptos.Agreement.{
  Hash, MonitoredTxStatus, malform, limbo, pending, success, reverted, timeout, reorg,
}
use bridge_go_aptos.Sql.{Exec, pure, raise, lift, query, query_rows, exec, ◌>>=◌, ◌>>◌}
use bridge_go_aptos.State.Redeem.{same_bytes}

pub record MonitoredTx : Type 0 where
  pub tx_identifier : List ℕ
  pub ref_identifier : Hash
  pub sent_blockchain_ledger_number : Option ℤ
  pub found_blockchain_ledger_number : Option ℤ
  pub tx_status : MonitoredTxStatus

pub record MonitoredRow : Type 0 where
  pub tx_identifier : List ℕ
  pub ref_identifier : Hash
  pub sent : ℕ
  pub found : ℕ
  pub tx_status : MonitoredTxStatus

abbrev pub Rows : Type 0
Rows = List MonitoredRow

-- int64(-1), which stands for nil
abbrev pub unknown : ℕ
unknown = int64_mod - 1

unfoldable pub encode_number : Option ℤ → ℕ
encode_number none = unknown
encode_number (some z) = to_int64 z

-- big.NewInt of an int64
abbrev pub new_int : ℕ → ℤ
new_int n = if ltb n int64_min then pos n else negsuc (int64_mod - n - 1)

unfoldable pub decode_number : ℕ → Option ℤ
decode_number n = if n == unknown then none else some (new_int n)

unfoldable pub encode_tx : MonitoredTx → MonitoredRow
encode_tx tx = record {
  tx_identifier = tx.tx_identifier;
  ref_identifier = tx.ref_identifier;
  sent = encode_number tx.sent_blockchain_ledger_number;
  found = encode_number tx.found_blockchain_ledger_number;
  tx_status = tx.tx_status;
}

unfoldable pub decode_tx : MonitoredRow → MonitoredTx
decode_tx r = record {
  tx_identifier = r.tx_identifier;
  ref_identifier = r.ref_identifier;
  sent_blockchain_ledger_number = decode_number r.sent;
  found_blockchain_ledger_number = decode_number r.found;
  tx_status = r.tx_status;
}

abbrev pub same_status : MonitoredTxStatus → MonitoredTxStatus → Bool
same_status malform malform = true
same_status limbo limbo = true
same_status pending pending = true
same_status success success = true
same_status reverted reverted = true
same_status timeout timeout = true
same_status reorg reorg = true
same_status _ _ = false

-- agreement.UtilContains, and the test of an SQL IN
unfoldable pub util_contains : List MonitoredTxStatus → MonitoredTxStatus → Bool
util_contains [] item = false
util_contains (v ∷ slice) item = same_status v item || util_contains slice item

unfoldable pub find_tx : List ℕ → Rows → Option MonitoredRow
find_tx identifier [] = none
find_tx identifier (r ∷ rows) =
    if same_bytes r.tx_identifier identifier then some r else find_tx identifier rows

-- TxIdentifier is the primary key.
unfoldable pub insert_row : MonitoredRow → Rows → Outcome Rows
unfolding find_tx
insert_row r rows = elim (find_tx r.tx_identifier rows) [
  | none ↦ ok (rows ++ r ∷ [])
  | some _ ↦ err constraint_failed
]

unfoldable pub insert_monitored_tx : MonitoredTx → Exec Rows (Unit {0})
insert_monitored_tx tx = exec (insert_row (encode_tx tx))

unfoldable pub delete_monitored_tx_by_tx_hash : List ℕ → Exec Rows (Unit {0})
delete_monitored_tx_by_tx_hash identifier =
    exec (λ rows. ok (filter (λ r. not (same_bytes r.tx_identifier identifier)) rows))

unfoldable pub get_monitored_tx_by_tx_identifier : List ℕ → Exec Rows (Option MonitoredTx)
get_monitored_tx_by_tx_identifier identifier = do
  row ← query (find_tx identifier)
  pure (elim row [ none ↦ none | some r ↦ some (decode_tx r) ])

unfoldable pub get_monitored_tx_by_ref_identifier : Hash → Exec Rows (List MonitoredTx)
get_monitored_tx_by_ref_identifier ref_identifier = do
  rows ← query_rows (filter (λ r. r.ref_identifier == ref_identifier))
  pure (map decode_tx rows)

unfoldable pub get_monitored_tx_by_status : List MonitoredTxStatus → Exec Rows (List MonitoredTx)
get_monitored_tx_by_status status = do
  rows ← query_rows (filter (λ r. util_contains status r.tx_status))
  pure (map decode_tx rows)

-- UPDATE ... WHERE TxIdentifier = ?
unfoldable pub update_where : List ℕ → (MonitoredRow → MonitoredRow) → Rows → Rows
update_where identifier f [] = []
update_where identifier f (r ∷ rows) =
    (if same_bytes r.tx_identifier identifier then f r else r) ∷ update_where identifier f rows

unfoldable pub update_ref : List ℕ → Hash → Exec Rows (Unit {0})
update_ref identifier ref_identifier =
    exec (λ rows.
      ok (update_where identifier (λ r. record r { ref_identifier = ref_identifier }) rows))

-- sentAt.Int64() reads the pointer.
unfoldable pub update_sent : List ℕ → Option ℤ → Exec Rows (Unit {0})
update_sent identifier none = lift panic
update_sent identifier (some sent_at) =
    exec (λ rows. ok (update_where identifier (λ r. record r { sent = to_int64 sent_at }) rows))

unfoldable pub update_found : List ℕ → Option ℤ → Exec Rows (Unit {0})
update_found identifier none = lift panic
update_found identifier (some found_at) =
    exec (λ rows. ok (update_where identifier (λ r. record r { found = to_int64 found_at }) rows))

unfoldable pub update_tx_status : List ℕ → MonitoredTxStatus → Exec Rows (Unit {0})
update_tx_status identifier status =
    exec (λ rows. ok (update_where identifier (λ r. record r { tx_status = status }) rows))
