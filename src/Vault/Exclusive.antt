-- ===== src/Vault/Exclusive.antt =====
-- ChooseAndLock of btcvault/vault.go as a whole: what it returns, and that no UTXO is given twice.
use mathlib.Core.List.{Perm, Mem}
use mathlib.Core.HLevel.{Π_prop}
use bridge_go_aptos.Prelude.{
  str_eq, ◌==◌, ◌&&◌, ℕ, ◌≤◌, ◌<◌, ◌≡◌, refl, Bool, true, false, String, List, filter, All, All-imp,
  Bool-cases, inl, inr, arith, is_empty,
}
use bridge_go_aptos.Go.{ok}
use bridge_go_aptos.Int64.{int64_min}
use bridge_go_aptos.Sql.{raise, Disk}
use bridge_go_aptos.Sql.Laws.{query_rows-eq-ok, >>=-eq-ok}
use bridge_go_aptos.Vault.Utxo.{VaultUtxo, has_key, is_usable, sum_amounts}
use bridge_go_aptos.Vault.Storage.{Rows, query_by_linked_id, query_enough_utxos}
use bridge_go_aptos.Vault.Treasury.{lock_all, lock_enough, choose_and_lock}
use bridge_go_aptos.Vault.Run.{Call, keeps_locks, run}
use bridge_go_aptos.Vault.Selection.{query_enough_utxos-covers, query_enough_utxos-usable, Bool-set}
use bridge_go_aptos.Vault.Locks.{LockedRow, Held, run-Held}
use bridge_go_aptos.Vault.Minimal.{sum-amounts, IsMinimal, IsMinimal-of_split, IsMinimal-amounts}
use bridge_go_aptos.Vault.Rounds.{
  Mem-Present, lock_all-All, lock_all-Held, lock_all-amounts, All-Mem,
}

abbrev key_eq : VaultUtxo → String → ℕ → Bool
key_eq u tx_id vout = str_eq tx_id u.tx_id && vout == u.vout

unlocked : (w : VaultUtxo) → is_usable w ≡ true → w.lockup ≡ true → ⊥
unfolding is_usable
unlocked w h k = ground arith

unlocked_differs :
    (u w : VaultUtxo) (rows : Rows)
    → Held u.tx_id u.vout rows
    → is_usable w ≡ true
    → Mem w rows
    → has_key u.tx_id u.vout w ≡ false
unlocked_differs u w rows held usable m =
    let locked =
      All-Mem (LockedRow u.tx_id u.vout) w rows (Π_prop (λ _. Bool-set _ _)) held.locked m in
    elim (Bool-cases (has_key u.tx_id u.vout w)) [
      | inl same ↦ absurd (unlocked w usable (locked same))
      | inr other ↦ other
    ]

-- A UTXO that was usable in these rows, by its key and amount.
abbrev pub WasUsable : Rows → String → ℕ → ℕ → Type 0
WasUsable rows tx_id vout amount =
    (r : VaultUtxo) × Mem r rows
    × (is_usable r ≡ true)
    × (r.tx_id ≡ tx_id)
    × (r.vout ≡ vout)
    × (r.amount ≡ amount)

module _ (order_by_amount : Rows → Rows)
    (order-perm : (rows : Rows) → Perm (order_by_amount rows) rows) where
  query_by_linked_id-same :
      (id : String) (d d1 : Disk Rows) (hits : Rows)
      → query_by_linked_id id d ≡ (ok hits, d1)
      → d1.table ≡ d.table
  unfolding query_by_linked_id
  query_by_linked_id-same id d d1 hits e = (query_rows-eq-ok _ d d1 hits e).1

  pub choose_and_lock-eq-ok :
      (now : ℕ → ℕ) (target : ℕ) (id : String) (d d' : Disk Rows) (us : Rows)
      → choose_and_lock order_by_amount now target id d ≡ (ok us, d')
      → (ws : Rows) × (d1 d2 : Disk Rows) × (d1.table ≡ d.table)
        × (query_enough_utxos order_by_amount target d1 ≡ (ok ws, d2))
        × (lock_all now id 0 ws d2 ≡ (ok us, d'))
  unfolding choose_and_lock lock_enough
  choose_and_lock-eq-ok now target id d d' us e =
      let (hits, d1, read, rest) = >>=-eq-ok _ _ d d' us e in
      let same = query_by_linked_id-same id d d1 hits read in
      elim (Bool-cases (is_empty hits)) [
        | inl fresh ↦
            let (ws, d2, chosen, locked) = >>=-eq-ok _ _ d1 d' us (rw fresh at rest) in
            (ws, d1, d2, same, chosen, locked)
        | inr taken ↦ absurd (unfold raise in cc (rw taken at rest))
      ]

  chosen-Held :
      (now : ℕ → ℕ) (target : ℕ) (id : String) (d d' : Disk Rows) (us : Rows)
      → choose_and_lock order_by_amount now target id d ≡ (ok us, d')
      → All (λ u. Held u.tx_id u.vout d'.table) us
  chosen-Held now target id d d' us e =
      let (ws, d1, d2, same, chosen, locked) = choose_and_lock-eq-ok now target id d d' us e in
      let (usable, same') =
        query_enough_utxos-usable order_by_amount order-perm target d1 d2 ws chosen in
      lock_all-All (λ t v a. Held t v d'.table) now id 0 ws us d2 d' locked
        (lock_all-Held now id 0 ws us d2 d' locked
          (All-imp _ _ ws (λ w p. rw same' (Mem-Present w d1.table p.1)) usable))

  -- Where SQLite returns the selected rows in some order, the usable amounts sum to less than 2^63 and
  -- the target is below 2^63: what ChooseAndLock returns, if it succeeds, covers the target, and where
  -- it is more than one UTXO, it does not cover the target without the last. Each UTXO that it returns
  -- was usable in the table, and is locked in the table that it leaves.
  pub choose_and_lock_lem :
      (now : ℕ → ℕ) (target : ℕ) (id : String) (d d' : Disk Rows) (us : Rows)
      → sum_amounts (filter is_usable d.table) < int64_min
      → target < int64_min
      → choose_and_lock order_by_amount now target id d ≡ (ok us, d')
      → (target ≤ sum_amounts us)
        × IsMinimal target us
        × All (λ u. WasUsable d.table u.tx_id u.vout u.amount) us
        × All (λ u. Held u.tx_id u.vout d'.table) us
  choose_and_lock_lem now target id d d' us h k e =
      let (ws, d1, d2, same, chosen, locked) = choose_and_lock-eq-ok now target id d d' us e in
      let (enough, minimal) =
        query_enough_utxos-covers order_by_amount order-perm target d1 d2 ws (rw same h) k chosen in
      let (usable, same') =
        query_enough_utxos-usable order_by_amount order-perm target d1 d2 ws chosen in
      let amounts_eq = lock_all-amounts now id 0 ws us d2 d' locked in
      (
        rw (sum-amounts us, amounts_eq, ← sum-amounts ws) enough,
        IsMinimal-amounts target us ws amounts_eq (IsMinimal-of_split target ws minimal),
        lock_all-All (WasUsable d.table) now id 0 ws us d2 d' locked
            (All-imp _ _ ws (λ w p. (w, rw same at p.1, p.0, refl, refl, refl)) usable),
        chosen-Held now target id d d' us e,
      )

  -- Where SQLite returns the selected rows in some order: a UTXO that one successful ChooseAndLock
  -- returns is not returned by a later one, whatever calls that release nothing come in between, and
  -- whatever calls of the database fail.
  pub choose_and_lock_exclusive :
      (now now' : ℕ → ℕ) (target target' : ℕ) (id id' : String) (cs : List Call)
      (d d1 d2 : Disk Rows) (us vs : Rows)
      → choose_and_lock order_by_amount now target id d ≡ (ok us, d1)
      → All (λ c. keeps_locks c ≡ true) cs
      → choose_and_lock order_by_amount now' target' id' (run order_by_amount cs d1) ≡ (ok vs, d2)
      → All (λ u. All (λ v. has_key u.tx_id u.vout v ≡ false) vs) us
  unfolding has_key
  choose_and_lock_exclusive now now' target target' id id' cs d d1 d2 us vs e k f =
      let (ws, d3, d4, same, chosen, locked) =
        choose_and_lock-eq-ok now' target' id' (run order_by_amount cs d1) d2 vs f in
      let (usable, same') =
        query_enough_utxos-usable order_by_amount order-perm target' d3 d4 ws chosen in
      All-imp _ _ us
        (λ u held.
          lock_all-All (λ t v a. key_eq u t v ≡ false) now' id' 0 ws vs d4 d2 locked
            (All-imp _ _ ws
              (λ w p.
                unlocked_differs u w d3.table
                  (rw same (run-Held u.tx_id u.vout order_by_amount cs d1 k held)) p.0 p.1)
              usable))
        (chosen-Held now target id d d1 us e)
