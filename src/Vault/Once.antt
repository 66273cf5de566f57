-- ===== src/Vault/Once.antt =====
-- One lock for one redeem, btcvault/vault.go: after ChooseAndLock has returned UTXOs for a linked id,
-- it does not do so for this id again, not even when they have been released.
use mathlib.Core.List.{Perm}
use bridge_go_aptos.Prelude.{
  ℕ, ◌≡◌, ◌≢◌, refl, subst, ap, Bool, true, false, String, List, [], ◌∷◌, none, All, All-imp, arith,
}
use bridge_go_aptos.Go.{ok, Outcome-of_ok}
use bridge_go_aptos.Sql.{Disk, stops_early, pure}
use bridge_go_aptos.Sql.Laws.{Keeps, Keeps-table, exec-eq-ok, >>=-eq-ok}
use bridge_go_aptos.Vault.Utxo.{VaultUtxo, has_key}
use bridge_go_aptos.Vault.Storage.{Rows, find, set_lockup, set_timeout, set_linked_id}
use bridge_go_aptos.Vault.Treasury.{lock_utxo, lock_all, choose_and_lock}
use bridge_go_aptos.Vault.Run.{Call, run}
use bridge_go_aptos.Vault.Locks.{is_some}
use bridge_go_aptos.Vault.Linked.{
  Linked, keeps_links, has_link-set, lock_all-Linked, run-Linked, Linked-choose_and_lock,
}
use bridge_go_aptos.Vault.Rounds.{Present, Mem-Present, Present-Keeps, lock_all-eq-ok}
use bridge_go_aptos.Vault.Selection.{query_enough_utxos-usable}
use bridge_go_aptos.Vault.Exclusive.{choose_and_lock-eq-ok}

set_lockup-Present : (t : String) (v : ℕ) (b : Bool) → Keeps (Present t v) (set_lockup t v b)
unfolding set_lockup has_key
set_lockup-Present t v b = Present-Keeps t v t v _ (λ u. refl)

set_timeout-Present : (t : String) (v n : ℕ) → Keeps (Present t v) (set_timeout t v n)
unfolding set_timeout has_key
set_timeout-Present t v n = Present-Keeps t v t v _ (λ u. refl)

Present-ne-none :
    (t : String) (v : ℕ) (rows : Rows) → Present t v rows → find (has_key t v) rows ≢ none
Present-ne-none t v rows h e = cc (ap is_some e)

set_linked_id-Linked :
    (t : String) (v : ℕ) (id : String) (d d' : Disk Rows) (x : Unit {0})
    → Present t v d.table
    → set_linked_id t v id d ≡ (ok x, d')
    → Linked id d'.table
unfolding set_linked_id
set_linked_id-Linked t v id d d' x h e =
    subst (Linked id) (Outcome-of_ok (exec-eq-ok _ d d' x e))
      (has_link-set id t v d.table (Present-ne-none t v d.table h))

lock_utxo-Linked :
    (now : ℕ) (id : String) (u u' : VaultUtxo) (d d' : Disk Rows)
    → Present u.tx_id u.vout d.table
    → lock_utxo now id u d ≡ (ok u', d')
    → Linked id d'.table
unfolding lock_utxo pure
lock_utxo-Linked now id u u' d d' h e =
    let (x, d1, first, rest) = >>=-eq-ok _ _ d d' u' e in
    let (y, d2, second, rest') = >>=-eq-ok _ _ d1 d' u' rest in
    let (z, d3, third, rest'') = >>=-eq-ok _ _ d2 d' u' rest' in
    let h1 = Keeps-table _ d d1 _ first (set_lockup-Present u.tx_id u.vout true) h in
    let h2 = Keeps-table _ d1 d2 _ second (set_timeout-Present u.tx_id u.vout _) h1 in
    rw (ap (λ r. r.1) rest'') at (set_linked_id-Linked u.tx_id u.vout id d2 d3 z h2 third)

nothing_locked :
    (now : ℕ → ℕ) (id : String) (u : VaultUtxo) (us : Rows) (d d' : Disk Rows)
    → lock_all now id 0 [] d ≢ (ok (u ∷ us), d')
unfolding lock_all pure
nothing_locked now id u us d d' e = ground arith

module _ (order_by_amount : Rows → Rows)
    (order-perm : (rows : Rows) → Perm (order_by_amount rows) rows) where
  choose_and_lock-Linked :
      (now : ℕ → ℕ) (target : ℕ) (id : String) (u : VaultUtxo) (us : Rows) (d d' : Disk Rows)
      → choose_and_lock order_by_amount now target id d ≡ (ok (u ∷ us), d')
      → Linked id d'.table
  choose_and_lock-Linked now target id u us d d' e =
      let (ws, d1, d2, same, chosen, locked) =
        choose_and_lock-eq-ok order_by_amount order-perm now target id d d' (u ∷ us) e in
      let (usable, same') =
        query_enough_utxos-usable order_by_amount order-perm target d1 d2 ws chosen in
      linked ws d2 locked (All-imp _ _ ws (λ w p. rw same' (Mem-Present w d1.table p.1)) usable)
    where
      linked :
          (ws : Rows) (d2 : Disk Rows)
          → lock_all now id 0 ws d2 ≡ (ok (u ∷ us), d')
          → All (λ w. Present w.tx_id w.vout d2.table) ws
          → Linked id d'.table
      linked [] d2 e h = absurd (nothing_locked now id u us d2 d' e)
      linked (w ∷ ws) d2 e h =
          let (w', vs, d3, first, others, same) = lock_all-eq-ok now id 0 w ws (u ∷ us) d2 d' e in
          Keeps-table _ d3 d' _ others (lock_all-Linked id now 1 ws)
            (lock_utxo-Linked (now 0) id w w' d2 d3 h.0 first)

  -- Where SQLite returns the selected rows in some order: once ChooseAndLock has returned at least one
  -- UTXO for a linked id, no later call for it succeeds, whatever calls other than ChooseAndLock come
  -- in between, releases by time or by command included, and whatever calls of the database fail, but
  -- that the later call's SELECT by the linked id does not end early without an error.
  pub choose_and_lock_once :
      (now now' : ℕ → ℕ) (target target' : ℕ) (id : String) (cs : List Call) (u : VaultUtxo)
      (us vs : Rows) (d d1 d2 : Disk Rows)
      → choose_and_lock order_by_amount now target id d ≡ (ok (u ∷ us), d1)
      → All (λ c. keeps_links c ≡ true) cs
      → stops_early (run order_by_amount cs d1) ≡ false
      → choose_and_lock order_by_amount now' target' id (run order_by_amount cs d1) ≢ (ok vs, d2)
  choose_and_lock_once now now' target target' id cs u us vs d d1 d2 e k full =
      Linked-choose_and_lock order_by_amount now' target' id (run order_by_amount cs d1) d2 vs
        (run-Linked order_by_amount id cs d1 k (choose_and_lock-Linked now target id u us d d1 e))
        full
