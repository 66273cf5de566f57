-- ===== src/Vault/Keys.antt =====
-- The key (tx_id, vout) of btcvault/sqlite_db.go stays a key: no call of the vault makes two rows of
-- one UTXO.
use bridge_go_aptos.Prelude.{
  ℕ, suc, ◌≡◌, refl, subst, Bool, false, String, List, [], ◌∷◌, ◌++◌, Option, none, some, All,
  All-append, Bool-cases, inl, inr, arith, eq_iff,
}
use bridge_go_aptos.Go.{ok, Outcome-of_ok}
use bridge_go_aptos.Sql.{Disk, exec}
use bridge_go_aptos.Sql.Laws.{Keeps, keeps_rules, Keeps-exec, Keeps-bind, Keeps-pure}
use bridge_go_aptos.Vault.Utxo.{VaultUtxo, has_key}
use bridge_go_aptos.Vault.Storage.{
  Rows, find, update_where, insert_vault_utxo, query_by_linked_id, query_by_tx_id_and_vout,
  query_expired_and_locked_utxos, query_enough_utxos, set_lockup, set_timeout, set_linked_id,
  set_spent,
}
use bridge_go_aptos.Vault.Treasury.{
  insert_if_new, or_not_found, add_utxo, lock_utxo, lock_all, lock_enough, choose_and_lock,
  release_utxo, release_all, release_by_expire, release_by_command,
}
use bridge_go_aptos.Vault.Run.{Call, adds, chooses, expires, commands, spends, step, run}
use bridge_go_aptos.Vault.Locks.{insert_row-eq-ok}

-- No row has the key of `u`.
abbrev pub Lacks : VaultUtxo → Rows → Type 0
Lacks u = All (λ v. has_key u.tx_id u.vout v ≡ false)

abbrev pub DistinctKeys : Rows → Type 0
DistinctKeys [] = Unit
DistinctKeys (u ∷ us) = Lacks u us × DistinctKeys us

pub find-Lacks :
    (u : VaultUtxo) (rows : Rows) → find (has_key u.tx_id u.vout) rows ≡ none → Lacks u rows
unfolding find
find-Lacks u [] e = tt
find-Lacks u (r ∷ rows) e = ground (arith, find-Lacks u rows)

pub has_key_symm :
    (u v : VaultUtxo) → has_key u.tx_id u.vout v ≡ false → has_key v.tx_id v.vout u ≡ false
unfolding has_key
has_key_symm u v e = ground (arith, eq_iff v.tx_id u.tx_id, eq_iff u.tx_id v.tx_id)

DistinctKeys-append :
    (rows : Rows) (u : VaultUtxo) → Lacks u rows → DistinctKeys rows → DistinctKeys (rows ++ u ∷ [])
DistinctKeys-append [] u l h = (tt, tt)
DistinctKeys-append (r ∷ rows) u l h =
    (All-append _ rows (u ∷ []) h.0 (has_key_symm u r l.0, tt), DistinctKeys-append rows u l.1 h.1)

-- The columns of the key are never updated.
module _ (f : VaultUtxo → VaultUtxo)
    (keeps_key : (t : String) (v : ℕ) (u : VaultUtxo) → has_key t v (f u) ≡ has_key t v u)
    (keeps_tx_id : (u : VaultUtxo) → (f u).tx_id ≡ u.tx_id)
    (keeps_vout : (u : VaultUtxo) → (f u).vout ≡ u.vout) where
  pub Lacks-update_where :
      (t : String) (v : ℕ) (u : VaultUtxo) (rows : Rows)
      → Lacks u rows
      → Lacks u (update_where t v f rows)
  unfolding update_where
  Lacks-update_where t v u [] h = tt
  Lacks-update_where t v u (r ∷ rows) h =
      (ground (arith, keeps_key u.tx_id u.vout r), Lacks-update_where t v u rows h.1)

  DistinctKeys-update_where :
      (t : String) (v : ℕ) (rows : Rows)
      → DistinctKeys rows
      → DistinctKeys (update_where t v f rows)
  unfolding update_where
  DistinctKeys-update_where t v [] h = tt
  DistinctKeys-update_where t v (r ∷ rows) h = elim (Bool-cases (has_key t v r)) [
    | inl e ↦ rw e (
      rw (keeps_tx_id r, keeps_vout r) (Lacks-update_where t v r rows h.0),
      DistinctKeys-update_where t v rows h.1,
    )
    | inr e ↦ rw e (Lacks-update_where t v r rows h.0, DistinctKeys-update_where t v rows h.1)
  ]

  update-DistinctKeys :
      (t : String) (v : ℕ) → Keeps DistinctKeys (exec (λ rows. ok (update_where t v f rows)))
  update-DistinctKeys t v =
      Keeps-exec _ λ rows rows' e h.
        subst DistinctKeys (Outcome-of_ok e) (DistinctKeys-update_where t v rows h)

insert-DistinctKeys : (u : VaultUtxo) → Keeps DistinctKeys (insert_vault_utxo u)
unfolding insert_vault_utxo
insert-DistinctKeys u = Keeps-exec _ λ rows rows' e h.
    let (added, new) = insert_row-eq-ok u rows rows' e in
    rw added (DistinctKeys-append rows u (find-Lacks u rows new) h)

set_lockup-DistinctKeys : (t : String) (v : ℕ) (b : Bool) → Keeps DistinctKeys (set_lockup t v b)
unfolding set_lockup has_key
set_lockup-DistinctKeys t v b = update-DistinctKeys _ (λ t v u. refl) (λ u. refl) (λ u. refl) t v

set_timeout-DistinctKeys : (t : String) (v n : ℕ) → Keeps DistinctKeys (set_timeout t v n)
unfolding set_timeout has_key
set_timeout-DistinctKeys t v n = update-DistinctKeys _ (λ t v u. refl) (λ u. refl) (λ u. refl) t v

set_linked_id-DistinctKeys :
    (t : String) (v : ℕ) (id : String) → Keeps DistinctKeys (set_linked_id t v id)
unfolding set_linked_id has_key
set_linked_id-DistinctKeys t v id =
    update-DistinctKeys _ (λ t v u. refl) (λ u. refl) (λ u. refl) t v

set_spent-DistinctKeys : (t : String) (v : ℕ) (b : Bool) → Keeps DistinctKeys (set_spent t v b)
unfolding set_spent has_key
set_spent-DistinctKeys t v b = update-DistinctKeys _ (λ t v u. refl) (λ u. refl) (λ u. refl) t v

ruleset key_rules = (
  keeps_rules, insert-DistinctKeys, set_lockup-DistinctKeys, set_timeout-DistinctKeys,
  set_linked_id-DistinctKeys, set_spent-DistinctKeys,
)

insert_if_new-DistinctKeys :
    (u : VaultUtxo) (old : Option VaultUtxo) → Keeps DistinctKeys (insert_if_new u old)
insert_if_new-DistinctKeys u none = search key_rules
insert_if_new-DistinctKeys u (some v) = search key_rules

or_not_found-DistinctKeys : (o : Option VaultUtxo) → Keeps DistinctKeys (or_not_found o)
or_not_found-DistinctKeys none = search key_rules
or_not_found-DistinctKeys (some v) = search key_rules

lock_utxo-DistinctKeys :
    (now : ℕ) (id : String) (u : VaultUtxo) → Keeps DistinctKeys (lock_utxo now id u)
unfolding lock_utxo
lock_utxo-DistinctKeys now id u = search key_rules

lock_all-DistinctKeys :
    (now : ℕ → ℕ) (id : String) (i : ℕ) (us : Rows) → Keeps DistinctKeys (lock_all now id i us)
unfolding lock_all
lock_all-DistinctKeys now id i [] = search key_rules
lock_all-DistinctKeys now id i (u ∷ us) =
    Keeps-bind _ _ (lock_utxo-DistinctKeys (now i) id u)
      (λ u'. Keeps-bind _ _ (lock_all-DistinctKeys now id (suc i) us) (λ us'. Keeps-pure _))

release_utxo-DistinctKeys : (t : String) (v : ℕ) → Keeps DistinctKeys (release_utxo t v)
unfolding release_utxo
release_utxo-DistinctKeys t v = search key_rules

release_all-DistinctKeys : (us : Rows) → Keeps DistinctKeys (release_all us)
unfolding release_all
release_all-DistinctKeys [] = search key_rules
release_all-DistinctKeys (u ∷ us) =
    Keeps-bind _ _ (release_utxo-DistinctKeys u.tx_id u.vout) (λ x. release_all-DistinctKeys us)

add_utxo-DistinctKeys :
    (n : ℕ) (hash t : String) (v amount : ℕ) (script : List ℕ)
    → Keeps DistinctKeys (add_utxo n hash t v amount script)
unfolding add_utxo query_by_tx_id_and_vout
add_utxo-DistinctKeys n hash t v amount script = search (key_rules, insert_if_new-DistinctKeys)

release_by_expire-DistinctKeys : (now : ℕ) → Keeps DistinctKeys (release_by_expire now)
unfolding release_by_expire query_expired_and_locked_utxos
release_by_expire-DistinctKeys now = search (key_rules, release_all-DistinctKeys)

release_by_command-DistinctKeys : (t : String) (v : ℕ) → Keeps DistinctKeys (release_by_command t v)
unfolding release_by_command query_by_tx_id_and_vout release_utxo
release_by_command-DistinctKeys t v = search (key_rules, or_not_found-DistinctKeys)

module _ (order_by_amount : Rows → Rows) where
  choose_and_lock-DistinctKeys :
      (now : ℕ → ℕ) (target : ℕ) (id : String)
      → Keeps DistinctKeys (choose_and_lock order_by_amount now target id)
  unfolding choose_and_lock lock_enough query_enough_utxos query_by_linked_id
  choose_and_lock-DistinctKeys now target id = search (key_rules, lock_all-DistinctKeys)

  step-DistinctKeys :
      (c : Call) (d : Disk Rows)
      → DistinctKeys d.table
      → DistinctKeys (step order_by_amount c d).table
  unfolding step
  step-DistinctKeys (adds n hash t v amount script) =
      (add_utxo-DistinctKeys n hash t v amount script).at
  step-DistinctKeys (chooses now target id) = (choose_and_lock-DistinctKeys now target id).at
  step-DistinctKeys (expires now) = (release_by_expire-DistinctKeys now).at
  step-DistinctKeys (commands t v) = (release_by_command-DistinctKeys t v).at
  step-DistinctKeys (spends t v spent) = (set_spent-DistinctKeys t v spent).at

  -- Whatever the clients call, and whichever of the calls fail, no two rows have one key.
  pub run-DistinctKeys :
      (cs : List Call) (d : Disk Rows)
      → DistinctKeys d.table
      → DistinctKeys (run order_by_amount cs d).table
  unfolding run
  run-DistinctKeys [] d h = h
  run-DistinctKeys (c ∷ cs) d h =
      run-DistinctKeys cs (step order_by_amount c d) (step-DistinctKeys c d h)
