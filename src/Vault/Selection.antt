-- ===== src/Vault/Selection.antt =====
-- The choice of UTXOs, QueryEnoughUTXOs of btcvault/sqlite_db.go: it covers the amount, takes no row
-- that the amount does not need, and takes usable rows of the table alone.
use mathlib.Core.List.{Perm, Mem, Mem-prop}
use mathlib.Core.HLevel.{×_prop}
use mathlib.Core.List.Perm
use bridge_go_aptos.Prelude.{
  ℕ, suc, zero, ap, ◌∙◌, ◌+◌, ◌≤◌, ◌<◌, ◌≡◌, ◌≢◌, refl, ◌⊎◌, inl, inr, Bool, true, [], ◌∷◌, ◌++◌,
  filter, All, Bool-cases, arith,
}
use bridge_go_aptos.Prelude.Permutations.{All-Perm, All-Mem_self, sum_by-Perm}
use bridge_go_aptos.Go.{ok}
use bridge_go_aptos.Int64.{
  add64, le64, int64_min, add64-eq-add, le64→le, le64_false→lt, lt64-false-le64,
}
use bridge_go_aptos.Sql.{Disk, first_rows}
use bridge_go_aptos.Sql.Laws.{IsFirst, All-IsFirst, query_rows-eq-ok, lift-eq-ok, >>=-eq-ok}
use bridge_go_aptos.Vault.Utxo.{VaultUtxo, is_usable, sum_amounts}
use bridge_go_aptos.Vault.Storage.{Rows, take_enough, enough_or_error, query_enough_utxos}

-- The loop takes a part of the rows, from the front.
sum-take_enough-le :
    (amount total : ℕ) (us : Rows) → sum_amounts (take_enough amount total us).0 ≤ sum_amounts us
unfolding take_enough
sum-take_enough-le amount total [] = omega arith
sum-take_enough-le amount total (u ∷ us) =
    ground (arith, sum-take_enough-le amount (add64 total u.amount) us)

take_enough-total :
    (amount total : ℕ) (us : Rows)
    → total + sum_amounts us < int64_min
    → (take_enough amount total us).1 ≡ total + sum_amounts (take_enough amount total us).0
unfolding take_enough
take_enough-total amount total [] h = omega arith
take_enough-total amount total (u ∷ us) h = elim (Bool-cases (le64 amount (add64 total u.amount))) [
  | inl e ↦ rw (e, take_enough) (ground (arith, add64-eq-add total u.amount))
  | inr e ↦
      rw (e, take_enough)
        (ground
          (arith, add64-eq-add total u.amount, take_enough-total amount (add64 total u.amount) us))
]

take_enough-All :
    (P : VaultUtxo → Type 0) (amount total : ℕ) (us : Rows)
    → All P us
    → All P (take_enough amount total us).0
unfolding take_enough
take_enough-All P amount total [] h = tt
take_enough-All P amount total (u ∷ us) h =
    ground (arith, take_enough-All P amount (add64 total u.amount) us h.1)

append-ne-nil : (xs : Rows) (u : VaultUtxo) → xs ++ u ∷ [] ≢ []
append-ne-nil [] u e = cc
append-ne-nil (x ∷ xs) u e = cc

-- Before its last row the loop had not reached the amount.
take_enough_minimal :
    (amount total : ℕ) (us xs : Rows) (u : VaultUtxo)
    → total + sum_amounts us < int64_min
    → amount < int64_min
    → (take_enough amount total us).0 ≡ xs ++ u ∷ []
    → (xs ≡ []) ⊎ (total + sum_amounts xs < amount)
unfolding take_enough
take_enough_minimal amount total us [] u h k e = inl refl
take_enough_minimal amount total [] (x ∷ xs) u h k e = absurd (ground arith)
take_enough_minimal amount total (v ∷ us) (x ∷ xs) u h k e =
    elim (Bool-cases (le64 amount (add64 total v.amount))) [
      | inl enough ↦ absurd (append-ne-nil xs u (ground arith))
      | inr more ↦ inr (
          ground (
            arith,
            add64-eq-add total v.amount,
            le64_false→lt amount (add64 total v.amount),
            take_enough_minimal amount (add64 total v.amount) us xs u,
          ))
    ]

enough_or_error-eq-ok :
    (amount : ℕ) (r : Rows × ℕ) (us : Rows)
    → enough_or_error amount r ≡ ok us
    → (us ≡ r.0) × (le64 amount r.1 ≡ true)
enough_or_error-eq-ok amount (taken, total) us e = ground (arith, lt64-false-le64 total amount)

All-filter-and :
    (P : VaultUtxo → Type 0) (p : VaultUtxo → Bool) (us : Rows)
    → All P us
    → All (λ u. (p u ≡ true) × P u) (filter p us)
All-filter-and P p [] h = tt
All-filter-and P p (u ∷ us) h = ground (arith, All-filter-and P p us h.1)

pub Bool-set : IsSet Bool
Bool-set = hlevel

module _ (order_by_amount : Rows → Rows)
    (order-perm : (rows : Rows) → Perm (order_by_amount rows) rows) where
  usable-Mem :
      (rows : Rows)
      → All (λ u. (is_usable u ≡ true) × Mem u rows) (order_by_amount (filter is_usable rows))
  usable-Mem rows =
      All-Perm (λ u. (is_usable u ≡ true) × Mem u rows) (λ u. ×_prop (Bool-set _ _) Mem-prop)
        (filter is_usable rows) (order_by_amount (filter is_usable rows))
        (Perm.symm (order-perm (filter is_usable rows)))
        (All-filter-and (λ u. Mem u rows) is_usable rows (All-Mem_self rows))

  sum-order : (rows : Rows) → sum_amounts (order_by_amount rows) ≡ sum_amounts rows
  sum-order rows = sum_by-Perm (λ u. u.amount) (order_by_amount rows) rows (order-perm rows)

  query_enough_utxos-eq-ok :
      (amount : ℕ) (d d' : Disk Rows) (us : Rows)
      → query_enough_utxos order_by_amount amount d ≡ (ok us, d')
      → (rows : Rows) × IsFirst rows (order_by_amount (filter is_usable d.table))
        × (us ≡ (take_enough amount 0 rows).0)
        × (le64 amount (take_enough amount 0 rows).1 ≡ true)
        × (d'.table ≡ d.table)
  unfolding query_enough_utxos
  query_enough_utxos-eq-ok amount d d' us h =
      let (rows, d1, q, e) = >>=-eq-ok _ _ d d' us h in
      let (first, same) = query_rows-eq-ok _ d d1 rows q in
      let (taken, same') = lift-eq-ok _ d1 d' us e in
      let (us_eq, reached) = enough_or_error-eq-ok amount (take_enough amount 0 rows) us taken in
      (rows, first, us_eq, reached, ap (λ x. x.table) same' ∙ same)

  sum-first_rows : (n : ℕ) (us : Rows) → sum_amounts (first_rows n us) ≤ sum_amounts us
  sum-first_rows zero us = omega arith
  sum-first_rows (suc n) [] = omega arith
  sum-first_rows (suc n) (u ∷ us) = omega (arith, sum-first_rows n us)

  sum-IsFirst : (xs ys : Rows) → IsFirst xs ys → sum_amounts xs ≤ sum_amounts ys
  sum-IsFirst xs ys (inl e) = rw e (omega arith)
  sum-IsFirst xs ys (inr (n, e)) = rw e (sum-first_rows n ys)

  -- What is chosen are usable rows of the table.
  pub query_enough_utxos-usable :
      (amount : ℕ) (d d' : Disk Rows) (us : Rows)
      → query_enough_utxos order_by_amount amount d ≡ (ok us, d')
      → All (λ u. (is_usable u ≡ true) × Mem u d.table) us × (d'.table ≡ d.table)
  query_enough_utxos-usable amount d d' us e =
      let (rows, first, us_eq, reached, same) = query_enough_utxos-eq-ok amount d d' us e in
      rw us_eq
        (take_enough-All _ amount 0 rows (All-IsFirst _ rows _ first (usable-Mem d.table)), same)

  -- The choice is enough, and without its last row it is not.
  pub query_enough_utxos-covers :
      (amount : ℕ) (d d' : Disk Rows) (us : Rows)
      → sum_amounts (filter is_usable d.table) < int64_min
      → amount < int64_min
      → query_enough_utxos order_by_amount amount d ≡ (ok us, d')
      → (amount ≤ sum_amounts us)
        × ((xs : Rows) (u : VaultUtxo) → us ≡ xs ++ u ∷ [] → (xs ≡ []) ⊎ (sum_amounts xs < amount))
  query_enough_utxos-covers amount d d' us h k e =
      let (rows, first, us_eq, reached, same) = query_enough_utxos-eq-ok amount d d' us e in
      let fits : 0 + sum_amounts rows < int64_min =
        omega (arith, sum-order (filter is_usable d.table), sum-IsFirst rows _ first) in
      rw us_eq (
        omega (
          arith,
          sum-take_enough-le amount 0 rows,
          take_enough-total amount 0 rows fits,
          le64→le amount (take_enough amount 0 rows).1 k,
        ),
        (λ xs u e. ground (arith, take_enough_minimal amount 0 rows xs u fits k e)),
      )
