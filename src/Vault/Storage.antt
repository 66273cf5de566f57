-- ===== src/Vault/Storage.antt =====
-- btcvault/sqlite_db.go: the table of UTXOs, one row to a UTXO, and the statements on it. SQLite is
-- not part of the repository: a statement is what its text says of the rows. In which order an
-- ORDER BY returns rows is the parameter `order_by_amount`.
use bridge_go_aptos.Prelude.{
  ℕ, Bool, ◌&&◌, Option, none, some, String, List, [], ◌∷◌, ◌++◌, filter, ltb, ◌==◌, str_eq,
  if◌then◌else◌,
}
use bridge_go_aptos.Go.{Outcome, ok, err, constraint_failed, db_failure, not_enough_utxos}
use bridge_go_aptos.Int64.{add64, le64, lt64, int64_min}
use bridge_go_aptos.Sql.{Exec, pure, raise, lift, ◌>>=◌, query, query_rows, exec}
use bridge_go_aptos.Vault.Utxo.{VaultUtxo, has_key, is_usable, sum_amounts}

abbrev pub Rows : Type 0
Rows = List VaultUtxo

-- QueryRow: the first row that fits
unfoldable pub find : (VaultUtxo → Bool) → Rows → Option VaultUtxo
find p [] = none
find p (u ∷ us) = if p u then some u else find p us

-- UPDATE ... WHERE tx_id = ? AND vout = ?
unfoldable pub update_where : String → ℕ → (VaultUtxo → VaultUtxo) → Rows → Rows
update_where tx_id vout f [] = []
update_where tx_id vout f (u ∷ us) =
    (if has_key tx_id vout u then f u else u) ∷ update_where tx_id vout f us

-- PRIMARY KEY (tx_id, vout)
unfoldable pub insert_row : VaultUtxo → Rows → Outcome Rows
unfolding find
insert_row u rows = elim (find (has_key u.tx_id u.vout) rows) [
  | none ↦ ok (rows ++ u ∷ [])
  | some _ ↦ err constraint_failed
]

unfoldable pub insert_vault_utxo : VaultUtxo → Exec Rows (Unit {0})
insert_vault_utxo u = exec (insert_row u)

unfoldable pub query_by_linked_id : String → Exec Rows Rows
query_by_linked_id linked_id = query_rows (filter (λ u. str_eq u.linked_id linked_id))

unfoldable pub query_all_utxos : Exec Rows Rows
query_all_utxos = query_rows (λ rows. rows)

unfoldable pub query_all_usable_utxos : Exec Rows Rows
query_all_usable_utxos = query_rows (filter is_usable)

unfoldable pub query_by_block_number : ℕ → Exec Rows Rows
query_by_block_number block_number = query_rows (filter (λ u. u.block_number == block_number))

unfoldable pub query_by_block_hash : String → Exec Rows Rows
query_by_block_hash block_hash = query_rows (filter (λ u. str_eq u.block_hash block_hash))

unfoldable pub query_by_tx_id : String → Exec Rows Rows
query_by_tx_id tx_id = query_rows (filter (λ u. str_eq u.tx_id tx_id))

unfoldable pub query_by_tx_id_and_vout : String → ℕ → Exec Rows (Option VaultUtxo)
query_by_tx_id_and_vout tx_id vout = query (find (has_key tx_id vout))

-- WHERE lockup = 1 AND timeout < ?
unfoldable pub is_expired_and_locked : ℕ → VaultUtxo → Bool
is_expired_and_locked t u = u.lockup && lt64 u.timeout t

unfoldable pub query_expired_and_locked_utxos : ℕ → Exec Rows Rows
query_expired_and_locked_utxos t = query_rows (filter (is_expired_and_locked t))

-- The loop over the selected rows: those taken, and the int64 total at the end.
unfoldable pub take_enough : ℕ → ℕ → Rows → Rows × ℕ
take_enough amount total [] = ([], total)
take_enough amount total (u ∷ us) =
    let total' = add64 total u.amount in
    let (taken, end) = take_enough amount total' us in
    if le64 amount total' then (u ∷ [], total') else (u ∷ taken, end)

abbrev pub enough_or_error : ℕ → Rows × ℕ → Outcome Rows
enough_or_error amount (utxos, total) = if lt64 total amount then err not_enough_utxos else ok utxos

module _ (order_by_amount : Rows → Rows) where
  unfoldable pub query_enough_utxos : ℕ → Exec Rows Rows
  query_enough_utxos amount = do
    rows ← query_rows (λ rows. order_by_amount (filter is_usable rows))
    lift (enough_or_error amount (take_enough amount 0 rows))

unfoldable pub set_lockup : String → ℕ → Bool → Exec Rows (Unit {0})
set_lockup tx_id vout lockup =
    exec (λ rows. ok (update_where tx_id vout (λ u. record u { lockup = lockup }) rows))

unfoldable pub set_spent : String → ℕ → Bool → Exec Rows (Unit {0})
set_spent tx_id vout spent =
    exec (λ rows. ok (update_where tx_id vout (λ u. record u { spent = spent }) rows))

unfoldable pub set_linked_id : String → ℕ → String → Exec Rows (Unit {0})
set_linked_id tx_id vout linked_id =
    exec (λ rows. ok (update_where tx_id vout (λ u. record u { linked_id = linked_id }) rows))

unfoldable pub set_timeout : String → ℕ → ℕ → Exec Rows (Unit {0})
set_timeout tx_id vout timeout =
    exec (λ rows. ok (update_where tx_id vout (λ u. record u { timeout = timeout }) rows))

-- COALESCE(SUM(amount), 0): SQLite refuses a sum past the largest int64. Amounts are not negative.
unfoldable pub sum_money : Exec Rows ℕ
sum_money = do
  total ← query (λ rows. sum_amounts (filter is_usable rows))
  if ltb total int64_min then pure total else raise db_failure
