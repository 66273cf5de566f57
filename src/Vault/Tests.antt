-- ===== src/Vault/Tests.antt =====
-- Runs of btcvault on small tables.
use mathlib.Core.List.{Perm}
use mathlib.Core.List.Perm
use bridge_go_aptos.Prelude.{
  ℕ, ◌≤◌, ◌≡◌, ◌≢◌, refl, Bool, true, false, String, List, [], ◌∷◌, All, arith,
}
use bridge_go_aptos.Go.{ok}
use bridge_go_aptos.Int64.{add64, le64, lt64}
use bridge_go_aptos.Sql.{Disk, stops_early, query_rows, exec, ◌>>=◌, pure, lift}
use bridge_go_aptos.Vault.Utxo.{VaultUtxo, has_key, is_usable, sum_amounts}
use bridge_go_aptos.Vault.Storage.{
  Rows, update_where, take_enough, query_by_linked_id, query_enough_utxos, set_lockup, set_timeout,
  set_linked_id, query_expired_and_locked_utxos, is_expired_and_locked, set_spent,
}
use bridge_go_aptos.Vault.Treasury.{
  lock_utxo, lock_all, lock_enough, choose_and_lock, release_by_expire, release_all, release_utxo,
}
use bridge_go_aptos.Vault.Run.{Call, expires, spends, step, run}
use bridge_go_aptos.Vault.Minimal.{IsMinimal}
use bridge_go_aptos.Vault.Locks.{Held}
use bridge_go_aptos.Vault.Exclusive.{WasUsable, choose_and_lock_lem, choose_and_lock_exclusive}
use bridge_go_aptos.Vault.Progress.{disk_of, choose_and_lock-cases, get_utxo_detail-add_utxo}
use bridge_go_aptos.Vault.Storage.{find}
use bridge_go_aptos.Vault.Treasury.{add_utxo, get_utxo_detail, new_utxo}
use bridge_go_aptos.Go.{err, not_enough_utxos}
use bridge_go_aptos.Prelude.{◌<◌, filter}
use bridge_go_aptos.Vault.Once.{choose_and_lock_once}

abbrev utxo : String → ℕ → Bool → ℕ → String → VaultUtxo
utxo tx_id amount lockup timeout linked_id = record {
  block_number = 1;
  block_hash = "b";
  tx_id = tx_id;
  vout = 0;
  amount = amount;
  pk_script = [];
  lockup = lockup;
  spent = false;
  timeout = timeout;
  linked_id = linked_id;
}

abbrev disk : Rows → Disk Rows
disk rows = record { table = rows; faults = [] }

-- The rows in the order of the table, where the amounts fall in these tests.
abbrev same_order : Rows → Rows
same_order rows = rows

same_order-Perm : (rows : Rows) → Perm (same_order rows) rows
same_order-Perm rows = Perm.refl rows

abbrev at_ten : ℕ → ℕ
at_ten i = 10

abbrev free : Disk Rows
free = disk (utxo "x" 7 false 0 "" ∷ utxo "y" 5 false 0 "" ∷ [])

abbrev first_chosen : Rows
first_chosen = utxo "x" 7 true 3610 "a" ∷ []

abbrev one_locked : Disk Rows
one_locked = disk (utxo "x" 7 true 3610 "a" ∷ utxo "y" 5 false 0 "" ∷ [])

abbrev second_chosen : Rows
second_chosen = utxo "y" 5 true 3610 "b" ∷ []

abbrev both_locked : Disk Rows
both_locked = disk (utxo "x" 7 true 3610 "a" ∷ utxo "y" 5 true 3610 "b" ∷ [])

first_lock : choose_and_lock same_order at_ten 4 "a" free ≡ (ok first_chosen, one_locked)
unfolding choose_and_lock lock_enough query_by_linked_id query_enough_utxos query_rows exec ◌>>=◌
    pure lift is_usable take_enough add64 le64 lt64 lock_all lock_utxo set_lockup set_timeout
    set_linked_id update_where has_key
first_lock = refl

second_lock : choose_and_lock same_order at_ten 5 "b" one_locked ≡ (ok second_chosen, both_locked)
unfolding choose_and_lock lock_enough query_by_linked_id query_enough_utxos query_rows exec ◌>>=◌
    pure lift is_usable take_enough add64 le64 lt64 lock_all lock_utxo set_lockup set_timeout
    set_linked_id update_where has_key
second_lock = refl

-- A call in between that releases nothing: the first UTXO is marked as not spent.
abbrev between : List Call
between = spends "x" 0 false ∷ []

second_lock_after :
    choose_and_lock same_order at_ten 5 "b" (run same_order between one_locked)
    ≡ (ok second_chosen, both_locked)
unfolding run step set_spent choose_and_lock lock_enough query_by_linked_id query_enough_utxos
    query_rows exec ◌>>=◌ pure lift is_usable take_enough add64 le64 lt64 lock_all lock_utxo
    set_lockup set_timeout set_linked_id update_where has_key
second_lock_after = refl

choose_and_lock_exclusive_example :
    All (λ u. All (λ v. has_key u.tx_id u.vout v ≡ false) second_chosen) first_chosen
choose_and_lock_exclusive_example =
    choose_and_lock_exclusive same_order same_order-Perm at_ten at_ten 4 5 "a" "b" between free
      one_locked both_locked first_chosen second_chosen first_lock (refl, tt) second_lock_after

choose_and_lock_lem_example :
    (4 ≤ sum_amounts first_chosen)
    × IsMinimal 4 first_chosen
    × All (λ u. WasUsable free.table u.tx_id u.vout u.amount) first_chosen
    × All (λ u. Held u.tx_id u.vout one_locked.table) first_chosen
choose_and_lock_lem_example =
    choose_and_lock_lem same_order same_order-Perm at_ten 4 "a" free one_locked first_chosen
      (unfold is_usable in omega arith) (omega arith) first_lock

expired_in_full : stops_early (run same_order (expires 4000 ∷ []) one_locked) ≡ false
unfolding run step release_by_expire query_expired_and_locked_utxos is_expired_and_locked lt64
    query_rows exec ◌>>=◌ pure release_all release_utxo set_lockup set_timeout
expired_in_full = refl

choose_and_lock_once_example :
    choose_and_lock same_order at_ten 2 "a" (run same_order (expires 4000 ∷ []) one_locked)
    ≢ (ok second_chosen, both_locked)
choose_and_lock_once_example =
    choose_and_lock_once same_order same_order-Perm at_ten at_ten 4 2 "a" (expires 4000 ∷ [])
      (utxo "x" 7 true 3610 "a") [] second_chosen free one_locked both_locked first_lock (refl, tt)
      expired_in_full

-- At 4000 the lock of the first UTXO has run out, and the second has none.
abbrev one_released : Disk Rows
one_released = disk (utxo "x" 7 false 0 "a" ∷ utxo "y" 5 false 0 "" ∷ [])

choose_and_lock-cases_example :
    (8 ≤ sum_amounts (filter is_usable free.table)
      → (us rows' : Rows) × (choose_and_lock same_order at_ten 8 "a" free ≡ (ok us, disk_of rows')))
    × (sum_amounts (filter is_usable free.table) < 8
        → choose_and_lock same_order at_ten 8 "a" free ≡ (err not_enough_utxos, free))
choose_and_lock-cases_example =
    choose_and_lock-cases same_order same_order-Perm at_ten 8 "a" free.table refl
      (unfold is_usable in omega arith) (omega arith)

get_utxo_detail-add_utxo_example :
    (rows' : Rows) × (add_utxo 2 "b" "z" 1 9 [] free ≡ (ok tt, disk_of rows'))
    × (get_utxo_detail "z" 1 (disk_of rows') ≡ (ok (new_utxo 2 "b" "z" 1 9 []), disk_of rows'))
get_utxo_detail-add_utxo_example =
    get_utxo_detail-add_utxo 2 "b" "z" 1 9 [] free.table (unfold find has_key in refl)
