-- ===== src/Vault/Locks.antt =====
-- The locks of btcvault/vault.go: a UTXO that ChooseAndLock gives to one redeem is not given to
-- another, whatever is called in between, until it is released.
use bridge_go_aptos.Prelude.{
  ℕ, suc, ◌≡◌, refl, subst, ap₂, Bool, true, false, String, List, [], ◌∷◌, ◌++◌, Option, none, some,
  All, All-append, Option-cases, inl, inr, arith,
}
use bridge_go_aptos.Go.{ok, Outcome-of_ok}
use bridge_go_aptos.Sql.{Disk, Exec, exec}
use bridge_go_aptos.Sql.Laws.{Keeps, keeps_rules, Keeps-exec, Keeps-bind, Keeps-pure}
use bridge_go_aptos.Vault.Utxo.{VaultUtxo, has_key, has_key-eq}
use bridge_go_aptos.Vault.Storage.{
  Rows, find, update_where, insert_row, insert_vault_utxo, query_by_linked_id,
  query_by_tx_id_and_vout, query_enough_utxos, set_lockup, set_timeout, set_linked_id, set_spent,
}
use bridge_go_aptos.Vault.Treasury.{
  insert_if_new, add_utxo, lock_utxo, lock_all, lock_enough, choose_and_lock,
}
use bridge_go_aptos.Vault.Run.{
  Call, adds, chooses, expires, commands, spends, keeps_locks, step, run,
}

-- Every row with this key is locked.
abbrev pub LockedRow : String → ℕ → VaultUtxo → Type 0
LockedRow tx_id vout r = has_key tx_id vout r ≡ true → r.lockup ≡ true

abbrev pub is_some : Option VaultUtxo → Bool
is_some none = false
is_some (some u) = true

abbrev pub IsLocked : String → ℕ → Rows → Type 0
IsLocked tx_id vout = All (LockedRow tx_id vout)

-- An UPDATE keeps what its change keeps of each row.
update_where-All :
    (P : VaultUtxo → Type 0) (tx_id : String) (vout : ℕ) (f : VaultUtxo → VaultUtxo) (rows : Rows)
    → ((u : VaultUtxo) → has_key tx_id vout u ≡ true → P u → P (f u))
    → All P rows
    → All P (update_where tx_id vout f rows)
unfolding update_where
update_where-All P tx_id vout f [] k h = tt
update_where-All P tx_id vout f (u ∷ us) k h =
    (ground (arith, k u), update_where-All P tx_id vout f us k h.1)

pub insert_row-eq-ok :
    (u : VaultUtxo) (rows rows' : Rows)
    → insert_row u rows ≡ ok rows'
    → (rows' ≡ rows ++ u ∷ []) × (find (has_key u.tx_id u.vout) rows ≡ none)
unfolding insert_row
insert_row-eq-ok u rows rows' e = elim (Option-cases (find (has_key u.tx_id u.vout) rows)) [
  | inl new ↦ (ground arith, new)
  | inr (v, old) ↦ absurd (ground arith)
]

module _ (tx_id : String) (vout : ℕ) where
  -- The table has the row with this key, and it is locked.
  pub record Held (rows : Rows) : Type 0 where
    pub present : is_some (find (has_key tx_id vout) rows) ≡ true
    pub locked : IsLocked tx_id vout rows

  pub find-update_where :
      (t : String) (v : ℕ) (f : VaultUtxo → VaultUtxo) (rows : Rows)
      → ((u : VaultUtxo) → has_key tx_id vout (f u) ≡ has_key tx_id vout u)
      → is_some (find (has_key tx_id vout) (update_where t v f rows))
        ≡ is_some (find (has_key tx_id vout) rows)
  unfolding find update_where
  find-update_where t v f [] k = refl
  find-update_where t v f (u ∷ us) k = ground (arith, k u, find-update_where t v f us k)

  find-append :
      (rows : Rows) (u : VaultUtxo)
      → is_some (find (has_key tx_id vout) rows) ≡ true
      → is_some (find (has_key tx_id vout) (rows ++ u ∷ [])) ≡ true
  unfolding find
  find-append [] u h = absurd (ground arith)
  find-append (r ∷ rows) u h = ground (arith, find-append rows u)

  insert_row-Held :
      (u : VaultUtxo) (rows rows' : Rows) → insert_row u rows ≡ ok rows' → Held rows → Held rows'
  insert_row-Held u rows rows' e h =
      let (added, new) = insert_row-eq-ok u rows rows' e in
      rw added (record {
        present = find-append rows u h.present;
        locked =
            All-append (LockedRow tx_id vout) rows (u ∷ []) h.locked (
              λ same. let (t, v) = has_key-eq tx_id vout u same in absurd (held_twice t v new),
              tt,
            );
      })
    where
      held_twice : u.tx_id ≡ tx_id → u.vout ≡ vout → find (has_key u.tx_id u.vout) rows ≡ none → ⊥
      held_twice t v new = cc (ap₂ (λ x y. find (has_key x y) rows) t v, h.present)

  abbrev Kept : {A : Type 0} → Exec Rows A → Type 0
  Kept m = Keeps Held m

  update-Held :
      (t : String) (v : ℕ) (f : VaultUtxo → VaultUtxo)
      → ((u : VaultUtxo) → has_key tx_id vout (f u) ≡ has_key tx_id vout u)
      → ((u : VaultUtxo) → LockedRow tx_id vout u → LockedRow tx_id vout (f u))
      → Kept (exec (λ rows. ok (update_where t v f rows)))
  update-Held t v f same k = Keeps-exec _ λ rows rows' e h. subst Held (Outcome-of_ok e) (record {
    present = rw (find-update_where t v f rows same) h.present;
    locked = update_where-All (LockedRow tx_id vout) t v f rows (λ u _. k u) h.locked;
  })

  pub set_lockup-Keeps : (t : String) (v : ℕ) → Kept (set_lockup t v true)
  unfolding set_lockup has_key
  set_lockup-Keeps t v = update-Held t v _ (λ u. refl) (λ u _ _. refl)

  pub set_timeout-Keeps : (t : String) (v n : ℕ) → Kept (set_timeout t v n)
  unfolding set_timeout has_key
  set_timeout-Keeps t v n = update-Held t v _ (λ u. refl) (λ u h. h)

  pub set_linked_id-Keeps : (t : String) (v : ℕ) (id : String) → Kept (set_linked_id t v id)
  unfolding set_linked_id has_key
  set_linked_id-Keeps t v id = update-Held t v _ (λ u. refl) (λ u h. h)

  set_spent-Keeps : (t : String) (v : ℕ) (spent : Bool) → Kept (set_spent t v spent)
  unfolding set_spent has_key
  set_spent-Keeps t v spent = update-Held t v _ (λ u. refl) (λ u h. h)

  pub lock_utxo-Keeps : (now : ℕ) (id : String) (u : VaultUtxo) → Kept (lock_utxo now id u)
  unfolding lock_utxo
  lock_utxo-Keeps now id u =
      search (keeps_rules, set_lockup-Keeps, set_timeout-Keeps, set_linked_id-Keeps)

  pub lock_all-Keeps : (now : ℕ → ℕ) (id : String) (i : ℕ) (us : Rows) → Kept (lock_all now id i us)
  unfolding lock_all
  lock_all-Keeps now id i [] = search keeps_rules
  lock_all-Keeps now id i (u ∷ us) =
      Keeps-bind _ _ (lock_utxo-Keeps (now i) id u)
        (λ u'. Keeps-bind _ _ (lock_all-Keeps now id (suc i) us) (λ us'. Keeps-pure _))

  insert_if_new-Keeps : (u : VaultUtxo) (old : Option VaultUtxo) → Kept (insert_if_new u old)
  unfolding insert_vault_utxo
  insert_if_new-Keeps u (some v) = search keeps_rules
  insert_if_new-Keeps u none = Keeps-exec _ (insert_row-Held u)

  add_utxo-Keeps :
      (n : ℕ) (hash t : String) (v amount : ℕ) (script : List ℕ)
      → Kept (add_utxo n hash t v amount script)
  unfolding add_utxo query_by_tx_id_and_vout
  add_utxo-Keeps n hash t v amount script = search (keeps_rules, insert_if_new-Keeps)

  module _ (order_by_amount : Rows → Rows) where
    pub choose_and_lock-Keeps :
        (now : ℕ → ℕ) (target : ℕ) (id : String)
        → Kept (choose_and_lock order_by_amount now target id)
    unfolding choose_and_lock lock_enough query_enough_utxos query_by_linked_id
    choose_and_lock-Keeps now target id = search (keeps_rules, lock_all-Keeps)

    pub step-Held :
        (c : Call) (d : Disk Rows)
        → keeps_locks c ≡ true
        → Held d.table
        → Held (step order_by_amount c d).table
    unfolding step
    step-Held (adds n hash t v amount script) d k h =
        (add_utxo-Keeps n hash t v amount script).at d h
    step-Held (chooses now target id) d k h = (choose_and_lock-Keeps now target id).at d h
    step-Held (spends t v spent) d k h = (set_spent-Keeps t v spent).at d h
    step-Held (expires now) d k h = cc
    step-Held (commands t v) d k h = cc

    pub run-Held :
        (cs : List Call) (d : Disk Rows)
        → All (λ c. keeps_locks c ≡ true) cs
        → Held d.table
        → Held (run order_by_amount cs d).table
    unfolding run
    run-Held [] d k h = h
    run-Held (c ∷ cs) d k h = run-Held cs (step order_by_amount c d) k.1 (step-Held c d k.0 h)
