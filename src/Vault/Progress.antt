-- ===== src/Vault/Progress.antt =====
-- When ChooseAndLock of btcvault/vault.go succeeds: where no call of the database fails, exactly when
-- the usable UTXOs cover the amount.
use mathlib.Core.List.{Perm}
use bridge_go_aptos.Prelude.{
  ℕ, suc, ◌+◌, ◌≤◌, ◌<◌, ◌≡◌, refl, true, false, String, List, [], ◌∷◌, filter, arith, is_empty,
  if◌then◌else◌, str_eq, none, some, ◌++◌,
}
use bridge_go_aptos.Prelude.Permutations.{sum_by-Perm}
use bridge_go_aptos.Go.{ok, err, not_enough_utxos}
use bridge_go_aptos.Int64.{le64, lt64, int64_min, add64-eq-add}
use bridge_go_aptos.Sql.{Disk, query, query_rows, exec, pure, lift, ◌>>=◌}
use bridge_go_aptos.Vault.Utxo.{VaultUtxo, has_key, has_key_self, is_usable, sum_amounts}
use bridge_go_aptos.Vault.Storage.{
  Rows, find, take_enough, query_enough_utxos, query_by_linked_id, set_lockup, set_timeout,
  set_linked_id, insert_row, insert_vault_utxo, query_by_tx_id_and_vout,
}
use bridge_go_aptos.Vault.Treasury.{
  lock_utxo, lock_all, lock_enough, choose_and_lock, add_utxo, new_utxo, get_utxo_detail,
}
use bridge_go_aptos.Vault.Linked.{has_link}

abbrev pub disk_of : Rows → Disk Rows
disk_of rows = record { table = rows; faults = [] }

-- A loop that is offered enough ends with enough, and one that is not with all there is.
take_enough-reaches :
    (amount total : ℕ) (us : Rows)
    → total + sum_amounts us < int64_min
    → amount < int64_min
    → lt64 (take_enough amount total us).1 amount ≡ lt64 (total + sum_amounts us) amount
unfolding take_enough lt64 le64
take_enough-reaches amount total [] h k = ground arith
take_enough-reaches amount total (u ∷ us) h k =
    ground (arith, add64-eq-add total u.amount, take_enough-reaches amount (total + u.amount) us)

lock_utxo-ok :
    (now : ℕ) (id : String) (u : VaultUtxo) (rows : Rows)
    → (u' : VaultUtxo) × (rows' : Rows) × (lock_utxo now id u (disk_of rows)
        ≡ (ok u', disk_of rows'))
unfolding lock_utxo set_lockup set_timeout set_linked_id exec pure ◌>>=◌
lock_utxo-ok now id u rows = (_, _, refl)

lock_all-ok :
    (now : ℕ → ℕ) (id : String) (i : ℕ) (us rows : Rows)
    → (us' rows' : Rows) × (lock_all now id i us (disk_of rows) ≡ (ok us', disk_of rows'))
unfolding lock_all pure ◌>>=◌
lock_all-ok now id i [] rows = ([], rows, refl)
lock_all-ok now id i (u ∷ us) rows =
    let (u', rows1, first) = lock_utxo-ok (now i) id u rows in
    let (us', rows2, others) = lock_all-ok now id (suc i) us rows1 in
    (u' ∷ us', rows2, rw (first, others) refl)

fresh-hits :
    (id : String) (rows : Rows)
    → has_link id rows ≡ false
    → is_empty (filter (λ u. str_eq u.linked_id id) rows) ≡ true
fresh-hits id [] h = refl
fresh-hits id (u ∷ us) h = ground (arith, fresh-hits id us)

module _ (order_by_amount : Rows → Rows)
    (order-perm : (rows : Rows) → Perm (order_by_amount rows) rows) where
  query_enough-eq :
      (target : ℕ) (rows : Rows)
      → sum_amounts (filter is_usable rows) < int64_min
      → target < int64_min
      → query_enough_utxos order_by_amount target (disk_of rows) ≡ (
          if lt64 (sum_amounts (filter is_usable rows)) target
          then (err not_enough_utxos, disk_of rows)
          else (
            ok (take_enough target 0 (order_by_amount (filter is_usable rows))).0,
            disk_of rows,
          ))
  unfolding query_enough_utxos query_rows ◌>>=◌ lift
  query_enough-eq target rows h k =
      let usable = filter is_usable rows in
      let same = sum_by-Perm (λ u. u.amount) (order_by_amount usable) usable (order-perm usable) in
      let reached = take_enough-reaches target 0 (order_by_amount usable) (omega (arith, same)) k in
      ground (arith, reached, same)

  lock_enough-cases :
      (now : ℕ → ℕ) (target : ℕ) (id : String) (rows : Rows)
      → sum_amounts (filter is_usable rows) < int64_min
      → target < int64_min
      → (target ≤ sum_amounts (filter is_usable rows)
          → (us rows' : Rows) × (lock_enough order_by_amount now target id (disk_of rows)
              ≡ (ok us, disk_of rows')))
        × (sum_amounts (filter is_usable rows) < target
            → lock_enough order_by_amount now target id (disk_of rows)
              ≡ (err not_enough_utxos, disk_of rows))
  unfolding lock_enough ◌>>=◌
  lock_enough-cases now target id rows h k =
      let usable = filter is_usable rows in
      let taken = (take_enough target 0 (order_by_amount usable)).0 in
      let (us', rows', locked) = lock_all-ok now id 0 taken rows in
      (
        (λ enough.
            let no : lt64 (sum_amounts usable) target ≡ false = unfold lt64 in ground arith in
            (us', rows', rw (query_enough-eq target rows h k, no) locked)),
        (λ short.
            let yes : lt64 (sum_amounts usable) target ≡ true = unfold lt64 in ground arith in
            rw (query_enough-eq target rows h k, yes) refl),
      )

  -- Where no call of the database fails, SQLite returns the selected rows in some order, no row has the
  -- linked id, and the usable amounts and the target are below 2^63: if
  -- the usable UTXOs cover the target, ChooseAndLock returns UTXOs, and if they do not, it returns the
  -- error of too few UTXOs and leaves the table as it is.
  pub choose_and_lock-cases :
      (now : ℕ → ℕ) (target : ℕ) (id : String) (rows : Rows)
      → has_link id rows ≡ false
      → sum_amounts (filter is_usable rows) < int64_min
      → target < int64_min
      → (target ≤ sum_amounts (filter is_usable rows)
          → (us rows' : Rows) × (choose_and_lock order_by_amount now target id (disk_of rows)
              ≡ (ok us, disk_of rows')))
        × (sum_amounts (filter is_usable rows) < target
            → choose_and_lock order_by_amount now target id (disk_of rows)
              ≡ (err not_enough_utxos, disk_of rows))
  unfolding choose_and_lock query_by_linked_id query_rows ◌>>=◌
  choose_and_lock-cases now target id rows fresh h k =
      rw (fresh-hits id rows fresh) (lock_enough-cases now target id rows h k)

insert_row-new :
    (u : VaultUtxo) (rows : Rows)
    → find (has_key u.tx_id u.vout) rows ≡ none
    → insert_row u rows ≡ ok (rows ++ u ∷ [])
unfolding insert_row
insert_row-new u rows e = ground arith

find-append :
    (u : VaultUtxo) (rows : Rows)
    → find (has_key u.tx_id u.vout) rows ≡ none
    → find (has_key u.tx_id u.vout) (rows ++ u ∷ []) ≡ some u
unfolding find
find-append u [] e = ground (arith, has_key_self u)
find-append u (x ∷ rows) e = ground (arith, find-append u rows)

-- Where no call of the database fails and no row has the key, AddUTXO succeeds, and GetUTXODetail
-- then returns the UTXO that was added: not locked, not spent, without a timeout and a linked id.
pub get_utxo_detail-add_utxo :
    (block_number : ℕ) (block_hash tx_id : String) (vout amount : ℕ) (pk_script : List ℕ)
    (rows : Rows)
    → find (has_key tx_id vout) rows ≡ none
    → (rows' : Rows) × (add_utxo block_number block_hash tx_id vout amount pk_script (disk_of rows)
        ≡ (ok tt, disk_of rows'))
      × (get_utxo_detail tx_id vout (disk_of rows')
          ≡ (ok (new_utxo block_number block_hash tx_id vout amount pk_script), disk_of rows'))
unfolding add_utxo get_utxo_detail query_by_tx_id_and_vout insert_vault_utxo query exec pure ◌>>=◌
get_utxo_detail-add_utxo block_number block_hash tx_id vout amount pk_script rows e =
    let u = new_utxo block_number block_hash tx_id vout amount pk_script in
    (rows ++ u ∷ [], ground (arith, e, insert_row-new u rows e), rw (find-append u rows e) refl)
