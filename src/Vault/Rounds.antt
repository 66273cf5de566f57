-- ===== src/Vault/Rounds.antt =====
-- The rounds of the loop of ChooseAndLock, btcvault/vault.go: which rows they lock, and what they return.
use mathlib.Core.List.{Mem, Memᴰ}
use mathlib.Core.Logic.{∥∥₁_elim}
use bridge_go_aptos.Prelude.{
  ℕ, suc, ◌≡◌, refl, sym, ap, subst, true, String, [], ◌∷◌, All, All-imp, arith,
}
use bridge_go_aptos.Go.{ok, Outcome-of_ok}
use bridge_go_aptos.Int64.{add64}
use bridge_go_aptos.Sql.{Disk, exec, ◌>>=◌, ◌>>◌, pure}
use bridge_go_aptos.Sql.Laws.{Keeps, Keeps-table, keeps_rules, Keeps-exec, exec-eq-ok, >>=-eq-ok}
use bridge_go_aptos.Vault.Utxo.{VaultUtxo, has_key, has_key_self}
use bridge_go_aptos.Vault.Storage.{Rows, find, update_where, set_lockup, set_timeout, set_linked_id}
use bridge_go_aptos.Vault.Treasury.{timeout_delay, lock_utxo, lock_all}
use bridge_go_aptos.Vault.Selection.{Bool-set}
use bridge_go_aptos.Vault.Minimal.{amounts}
use bridge_go_aptos.Vault.Locks.{
  is_some, IsLocked, Held, find-update_where, set_timeout-Keeps, set_linked_id-Keeps,
  lock_all-Keeps,
}

abbrev pub Present : String → ℕ → Rows → Type 0
Present tx_id vout rows = is_some (find (has_key tx_id vout) rows) ≡ true

pub Memᴰ-Present : (u : VaultUtxo) {rows : Rows} → Memᴰ u rows → Present u.tx_id u.vout rows
unfolding find
Memᴰ-Present u (Memᴰ.head {x = x} e) = ground (arith, has_key_self u, ap (has_key u.tx_id u.vout) e)
Memᴰ-Present u (Memᴰ.tail {x = x} m) = ground (arith, Memᴰ-Present u m)

pub Mem-Present : (u : VaultUtxo) (rows : Rows) → Mem u rows → Present u.tx_id u.vout rows
Mem-Present u rows m = ∥∥₁_elim m (Bool-set _ _) (Memᴰ-Present u)

abbrev pub lock_row : VaultUtxo → VaultUtxo
lock_row r = record r { lockup = true }

pub lock_row-IsLocked :
    (tx_id : String) (vout : ℕ) (rows : Rows)
    → IsLocked tx_id vout (update_where tx_id vout lock_row rows)
unfolding update_where
lock_row-IsLocked tx_id vout [] = tt
lock_row-IsLocked tx_id vout (r ∷ rows) = (ground arith, lock_row-IsLocked tx_id vout rows)

pub has_key-lock_row :
    (tx_id : String) (vout : ℕ) (r : VaultUtxo)
    → has_key tx_id vout (lock_row r) ≡ has_key tx_id vout r
unfolding has_key
has_key-lock_row tx_id vout r = refl

-- The first UPDATE of a round locks the rows with the key, and the others of the round keep that.
pub set_lockup-Held :
    (tx_id : String) (vout : ℕ) (d d' : Disk Rows) (x : Unit {0})
    → Present tx_id vout d.table
    → set_lockup tx_id vout true d ≡ (ok x, d')
    → Held tx_id vout d'.table
unfolding set_lockup
set_lockup-Held t v d d' x p e = subst (Held t v) (Outcome-of_ok (exec-eq-ok _ d d' x e)) (record {
  present = rw (find-update_where t v t v lock_row d.table (has_key-lock_row t v)) p;
  locked = lock_row-IsLocked t v d.table;
})

pub marks-Keeps :
    (u u' : VaultUtxo) (timeout : ℕ) (id : String)
    → Keeps
        (Held u.tx_id u.vout)
        (set_timeout u.tx_id u.vout timeout >> (set_linked_id u.tx_id u.vout id >> pure u'))
marks-Keeps u u' timeout id = search (keeps_rules, set_timeout-Keeps, set_linked_id-Keeps)

pub lock_utxo-Held :
    (now : ℕ) (id : String) (u u' : VaultUtxo) (d d' : Disk Rows)
    → Present u.tx_id u.vout d.table
    → lock_utxo now id u d ≡ (ok u', d')
    → Held u.tx_id u.vout d'.table
unfolding lock_utxo
lock_utxo-Held now id u u' d d' p e =
    let (x, d1, locked, rest) = >>=-eq-ok _ _ d d' u' e in
    Keeps-table _ d1 d' _ rest (marks-Keeps u _ (add64 now timeout_delay) id)
      (set_lockup-Held u.tx_id u.vout d d1 x p locked)

pub lock_utxo-eq-ok :
    (now : ℕ) (id : String) (u u' : VaultUtxo) (d d' : Disk Rows)
    → lock_utxo now id u d ≡ (ok u', d')
    → u' ≡ record u { lockup = true; timeout = add64 now timeout_delay; linked_id = id }
unfolding lock_utxo ◌>>=◌ set_lockup set_timeout set_linked_id exec
lock_utxo-eq-ok now id u u' d d' e = ground arith

pub lock_all-eq-ok :
    (now : ℕ → ℕ) (id : String) (i : ℕ) (u : VaultUtxo) (us us' : Rows) (d d' : Disk Rows)
    → lock_all now id i (u ∷ us) d ≡ (ok us', d')
    → (u' : VaultUtxo) × (vs : Rows) × (d1 : Disk Rows) × (lock_utxo (now i) id u d ≡ (ok u', d1))
      × (lock_all now id (suc i) us d1 ≡ (ok vs, d'))
      × (us' ≡ u' ∷ vs)
unfolding lock_all pure
lock_all-eq-ok now id i u us us' d d' e =
    let (u', d1, first, more) = >>=-eq-ok _ _ d d' us' e in
    let (vs, d2, others, done) = >>=-eq-ok _ _ d1 d' us' more in
    (u', vs, d1, first, rw (ap (λ r. r.1) done) at others, ground arith)

-- The rows that the loop returns are those it was given, with the same keys and amounts.
pub lock_all-All :
    (Q : String → ℕ → ℕ → Type 0) (now : ℕ → ℕ) (id : String) (i : ℕ) (us us' : Rows)
    (d d' : Disk Rows)
    → lock_all now id i us d ≡ (ok us', d')
    → All (λ u. Q u.tx_id u.vout u.amount) us
    → All (λ u. Q u.tx_id u.vout u.amount) us'
unfolding lock_all pure
lock_all-All Q now id i [] us' d d' e h = let same : us' ≡ [] = ground arith in rw same tt
lock_all-All Q now id i (u ∷ us) us' d d' e h =
    let (u', vs, d1, first, others, same) = lock_all-eq-ok now id i u us us' d d' e in
    rw (same, lock_utxo-eq-ok (now i) id u u' d d1 first)
      (h.0, lock_all-All Q now id (suc i) us vs d1 d' others h.1)

pub Present-Keeps :
    (t : String) (v : ℕ) (tx_id : String) (vout : ℕ) (f : VaultUtxo → VaultUtxo)
    → ((u : VaultUtxo) → has_key t v (f u) ≡ has_key t v u)
    → Keeps (Present t v) (exec (λ rows. ok (update_where tx_id vout f rows)))
Present-Keeps t v tx_id vout f same = Keeps-exec _ λ rows rows' e h.
    subst (Present t v) (Outcome-of_ok e) (rw (find-update_where t v tx_id vout f rows same) h)

pub lock_utxo-Present :
    (t : String) (v now : ℕ) (id : String) (u : VaultUtxo)
    → Keeps (Present t v) (lock_utxo now id u)
unfolding lock_utxo set_lockup set_timeout set_linked_id has_key
lock_utxo-Present t v now id u = search (keeps_rules, Present-Keeps)

pub lock_all-Held :
    (now : ℕ → ℕ) (id : String) (i : ℕ) (us us' : Rows) (d d' : Disk Rows)
    → lock_all now id i us d ≡ (ok us', d')
    → All (λ u. Present u.tx_id u.vout d.table) us
    → All (λ u. Held u.tx_id u.vout d'.table) us
lock_all-Held now id i [] us' d d' e h = tt
lock_all-Held now id i (u ∷ us) us' d d' e h =
    let (u', vs, d1, first, others, same) = lock_all-eq-ok now id i u us us' d d' e in
    (
      Keeps-table _ d1 d' _ others (lock_all-Keeps u.tx_id u.vout now id (suc i) us)
          (lock_utxo-Held (now i) id u u' d d1 h.0 first),
      lock_all-Held now id (suc i) us vs d1 d' others (
          All-imp _ _ us
            (λ w. Keeps-table _ d d1 _ first (lock_utxo-Present w.tx_id w.vout (now i) id u)) h.1),
    )

pub All-Mem :
    (P : VaultUtxo → Type 0) (u : VaultUtxo) (rows : Rows)
    → IsProp (P u)
    → All P rows
    → Mem u rows
    → P u
All-Mem P u rows p h m = ∥∥₁_elim m p (λ q. go q h)
  where
    go : {rows : Rows} → Memᴰ u rows → All P rows → P u
    go (Memᴰ.head e) h = subst P (sym e) h.0
    go (Memᴰ.tail q) h = go q h.1

pub lock_all-amounts :
    (now : ℕ → ℕ) (id : String) (i : ℕ) (us us' : Rows) (d d' : Disk Rows)
    → lock_all now id i us d ≡ (ok us', d')
    → amounts us' ≡ amounts us
unfolding lock_all pure
lock_all-amounts now id i [] us' d d' e = let same : us' ≡ [] = ground arith in rw same
lock_all-amounts now id i (u ∷ us) us' d d' e =
    let (u', vs, d1, first, others, same) = lock_all-eq-ok now id i u us us' d d' e in
    rw (
      same,
      lock_utxo-eq-ok (now i) id u u' d d1 first,
      lock_all-amounts now id (suc i) us vs d1 d' others,
    )
