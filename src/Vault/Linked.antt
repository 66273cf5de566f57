-- ===== src/Vault/Linked.antt =====
-- The linked id in btcvault/vault.go: UTXOs are locked once for each redeem.
use bridge_go_aptos.Prelude.{
  ℕ, suc, ◌≡◌, ◌≢◌, refl, subst, Bool, true, false, ◌||◌, String, List, [], ◌∷◌, ◌++◌, filter,
  Option, none, some, All, arith, is_empty, str_eq, eq_iff,
}
use bridge_go_aptos.Go.{ok, Outcome-of_ok}
use bridge_go_aptos.Sql.{Disk, stops_early, exec, raise}
use bridge_go_aptos.Sql.Laws.{
  Keeps, keeps_rules, Keeps-exec, Keeps-bind, Keeps-pure, query_rows-in_full, >>=-eq-ok,
}
use bridge_go_aptos.Vault.Utxo.{VaultUtxo, has_key}
use bridge_go_aptos.Vault.Storage.{
  Rows, find, update_where, insert_vault_utxo, query_by_linked_id, query_by_tx_id_and_vout,
  query_expired_and_locked_utxos, set_lockup, set_timeout, set_linked_id, set_spent,
}
use bridge_go_aptos.Vault.Treasury.{
  insert_if_new, or_not_found, add_utxo, lock_utxo, lock_all, choose_and_lock, release_utxo,
  release_all, release_by_expire, release_by_command,
}
use bridge_go_aptos.Vault.Run.{Call, adds, chooses, expires, commands, spends, step, run}
use bridge_go_aptos.Vault.Locks.{insert_row-eq-ok}

-- Some row has this linked id.
abbrev pub has_link : String → Rows → Bool
has_link id [] = false
has_link id (u ∷ us) = str_eq u.linked_id id || has_link id us

abbrev pub Linked : String → Rows → Type 0
Linked id rows = has_link id rows ≡ true

-- The calls that give no row another linked id.
abbrev pub keeps_links : Call → Bool
keeps_links (chooses now target id) = false
keeps_links _ = true

hits-Linked :
    (id : String) (rows : Rows)
    → Linked id rows
    → is_empty (filter (λ u. str_eq u.linked_id id) rows) ≡ false
hits-Linked id [] h = cc
hits-Linked id (u ∷ us) h = ground (arith, hits-Linked id us)

has_link-update_where :
    (id t : String) (v : ℕ) (f : VaultUtxo → VaultUtxo) (rows : Rows)
    → ((u : VaultUtxo) → str_eq u.linked_id id ≡ true → str_eq (f u).linked_id id ≡ true)
    → Linked id rows
    → Linked id (update_where t v f rows)
unfolding update_where
has_link-update_where id t v f [] k h = h
has_link-update_where id t v f (u ∷ us) k h =
    ground (arith, k u, has_link-update_where id t v f us k)

has_link-append :
    (id : String) (rows : Rows) (u : VaultUtxo) → Linked id rows → Linked id (rows ++ u ∷ [])
has_link-append id [] u h = cc
has_link-append id (r ∷ rows) u h = ground (arith, has_link-append id rows u)

-- The round for a row of the table links it.
pub has_link-set :
    (id t : String) (v : ℕ) (rows : Rows)
    → (find (has_key t v) rows ≢ none)
    → Linked id (update_where t v (λ u. record u { linked_id = id }) rows)
unfolding update_where find
has_link-set id t v [] h = absurd (h refl)
has_link-set id t v (r ∷ rows) h = ground (arith, eq_iff id id, has_link-set id t v rows)

insert-Linked : (id : String) (u : VaultUtxo) → Keeps (Linked id) (insert_vault_utxo u)
unfolding insert_vault_utxo
insert-Linked id u = Keeps-exec _ λ rows rows' e h.
    let (added, new) = insert_row-eq-ok u rows rows' e in rw added (has_link-append id rows u h)

update-Linked :
    (id t : String) (v : ℕ) (f : VaultUtxo → VaultUtxo)
    → ((u : VaultUtxo) → str_eq u.linked_id id ≡ true → str_eq (f u).linked_id id ≡ true)
    → Keeps (Linked id) (exec (λ rows. ok (update_where t v f rows)))
update-Linked id t v f k =
    Keeps-exec _ λ rows rows' e h.
      subst (Linked id) (Outcome-of_ok e) (has_link-update_where id t v f rows k h)

set_lockup-Linked : (id t : String) (v : ℕ) (b : Bool) → Keeps (Linked id) (set_lockup t v b)
unfolding set_lockup
set_lockup-Linked id t v b = update-Linked id t v _ (λ u h. h)

set_timeout-Linked : (id t : String) (v n : ℕ) → Keeps (Linked id) (set_timeout t v n)
unfolding set_timeout
set_timeout-Linked id t v n = update-Linked id t v _ (λ u h. h)

set_spent-Linked : (id t : String) (v : ℕ) (b : Bool) → Keeps (Linked id) (set_spent t v b)
unfolding set_spent
set_spent-Linked id t v b = update-Linked id t v _ (λ u h. h)

set_linked_id-Linked : (id t : String) (v : ℕ) → Keeps (Linked id) (set_linked_id t v id)
unfolding set_linked_id
set_linked_id-Linked id t v = update-Linked id t v _ (λ u h. (eq_iff id id).1 refl)

ruleset link_rules = (
  keeps_rules, insert-Linked, set_lockup-Linked, set_timeout-Linked, set_spent-Linked,
  set_linked_id-Linked,
)

insert_if_new-Linked :
    (id : String) (u : VaultUtxo) (old : Option VaultUtxo) → Keeps (Linked id) (insert_if_new u old)
insert_if_new-Linked id u none = search link_rules
insert_if_new-Linked id u (some v) = search link_rules

or_not_found-Linked : (id : String) (o : Option VaultUtxo) → Keeps (Linked id) (or_not_found o)
or_not_found-Linked id none = search link_rules
or_not_found-Linked id (some v) = search link_rules

add_utxo-Linked :
    (id : String) (n : ℕ) (hash t : String) (v amount : ℕ) (script : List ℕ)
    → Keeps (Linked id) (add_utxo n hash t v amount script)
unfolding add_utxo query_by_tx_id_and_vout
add_utxo-Linked id n hash t v amount script = search (link_rules, insert_if_new-Linked)

release_utxo-Linked : (id t : String) (v : ℕ) → Keeps (Linked id) (release_utxo t v)
unfolding release_utxo
release_utxo-Linked id t v = search link_rules

release_all-Linked : (id : String) (us : Rows) → Keeps (Linked id) (release_all us)
unfolding release_all
release_all-Linked id [] = search link_rules
release_all-Linked id (u ∷ us) =
    Keeps-bind _ _ (release_utxo-Linked id u.tx_id u.vout) (λ x. release_all-Linked id us)

release_by_expire-Linked : (id : String) (now : ℕ) → Keeps (Linked id) (release_by_expire now)
unfolding release_by_expire query_expired_and_locked_utxos
release_by_expire-Linked id now = search (link_rules, release_all-Linked)

release_by_command-Linked : (id t : String) (v : ℕ) → Keeps (Linked id) (release_by_command t v)
unfolding release_by_command query_by_tx_id_and_vout
release_by_command-Linked id t v = search (link_rules, or_not_found-Linked, release_utxo-Linked)

lock_utxo-Linked : (id : String) (now : ℕ) (u : VaultUtxo) → Keeps (Linked id) (lock_utxo now id u)
unfolding lock_utxo
lock_utxo-Linked id now u = search link_rules

pub lock_all-Linked :
    (id : String) (now : ℕ → ℕ) (i : ℕ) (us : Rows) → Keeps (Linked id) (lock_all now id i us)
unfolding lock_all
lock_all-Linked id now i [] = search link_rules
lock_all-Linked id now i (u ∷ us) =
    Keeps-bind _ _ (lock_utxo-Linked id (now i) u)
      (λ u'. Keeps-bind _ _ (lock_all-Linked id now (suc i) us) (λ us'. Keeps-pure _))

module _ (order_by_amount : Rows → Rows) where
  step-Linked :
      (id : String) (c : Call) (d : Disk Rows)
      → keeps_links c ≡ true
      → Linked id d.table
      → Linked id (step order_by_amount c d).table
  unfolding step
  step-Linked id (adds n hash t v amount script) d k =
      (add_utxo-Linked id n hash t v amount script).at d
  step-Linked id (chooses now target other) d k = cc
  step-Linked id (expires now) d k = (release_by_expire-Linked id now).at d
  step-Linked id (commands t v) d k = (release_by_command-Linked id t v).at d
  step-Linked id (spends t v spent) d k = (set_spent-Linked id t v spent).at d

  pub run-Linked :
      (id : String) (cs : List Call) (d : Disk Rows)
      → All (λ c. keeps_links c ≡ true) cs
      → Linked id d.table
      → Linked id (run order_by_amount cs d).table
  unfolding run
  run-Linked id [] d k h = h
  run-Linked id (c ∷ cs) d k h =
      run-Linked id cs (step order_by_amount c d) k.1 (step-Linked id c d k.0 h)

  -- While a row has the linked id, no call for it succeeds that reads its rows in full.
  pub Linked-choose_and_lock :
      (now : ℕ → ℕ) (target : ℕ) (id : String) (d d' : Disk Rows) (us : Rows)
      → Linked id d.table
      → stops_early d ≡ false
      → choose_and_lock order_by_amount now target id d ≢ (ok us, d')
  unfolding choose_and_lock query_by_linked_id raise
  Linked-choose_and_lock now target id d d' us h full e =
      let (hits, d1, read, rest) = >>=-eq-ok _ _ d d' us e in
      let (hits_eq, same) = query_rows-in_full _ d d1 hits full read in
      cc (rw (hits_eq, hits-Linked id d.table h) at rest)
