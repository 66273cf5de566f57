-- ===== src/State/MintOnce.antt =====
-- state/statedb_btc2eth.go and state/state.go: the deposits that are offered for minting.
use mathlib.Core.List.{Perm}
use mathlib.Core.List.Perm
use mathlib.Core.HLevel.{¬_prop}
use bridge_go_aptos.Prelude.Permutations.{All-Perm}
use bridge_go_aptos.Prelude.{
  ◌≡◌, ◌≢◌, refl, sym, subst, ap, ◌∙◌, false, List, [], ◌∷◌, ◌++◌, map, filter, Option, none, some,
  All, All-append, arith, inl, inr,
}
use bridge_go_aptos.Go.{Outcome, ok, Outcome-of_ok}
use bridge_go_aptos.Agreement.{Hash}
use bridge_go_aptos.Sql.{Disk, pure, lift, query, exec, prepare, ◌>>=◌, ◌>>◌}
use bridge_go_aptos.Sql.Laws.{
  IsFirst, All-IsFirst, query_rows-eq-ok, >>=-eq-ok, exec-eq-ok, lift-eq-ok, table-prepare,
}
use bridge_go_aptos.State.Tables.{Tables, Mint, SqlMint, MintRow, decode_mint, encode_mint}
use bridge_go_aptos.State.RedeemDb.{is_none}
use bridge_go_aptos.State.MintDb.{
  insert_or_update, insert_mint_row, insert_mint, get_mint, get_un_minted, set_mint_tx_hash,
  update_mint, find_mint, mint_row,
}
use bridge_go_aptos.State.Handlers.{Event, handle_all}
use bridge_go_aptos.State.Minted.{
  Minted, handle_all-Minted, set_mint_tx_hash-eq-ok, find_mint-update, updated-Minted,
}

-- The deposit is not among the mints.
abbrev pub NotOffered : Hash → List Mint → Type 0
NotOffered h ms = All (λ m. m.btc_tx_id ≢ h) ms

unminted-NotOffered :
    (h : Hash) (rows : List MintRow)
    → All (λ r. r.btc_tx_id ≡ h → is_none r.mint_tx_hash ≡ false) rows
    → All (λ r. r.btc_tx_id ≢ h) (filter (λ r. is_none r.mint_tx_hash) rows)
unminted-NotOffered h [] k = tt
unminted-NotOffered h (r ∷ rows) (x, xs) = ground (arith, x, unminted-NotOffered h rows xs)

decoded-NotOffered :
    (h : Hash) (rows : List MintRow)
    → All (λ r. r.btc_tx_id ≢ h) rows
    → NotOffered h (map decode_mint rows)
unfolding decode_mint
decoded-NotOffered h [] k = tt
decoded-NotOffered h (r ∷ rows) (x, xs) = (x, decoded-NotOffered h rows xs)

get_un_minted-eq-ok :
    (order_rows : List MintRow → List MintRow) (d d' : Disk Tables) (ms : List Mint)
    → get_un_minted order_rows d ≡ (ok ms, d')
    → (rows : List MintRow) × IsFirst rows
        (order_rows (filter (λ r. is_none r.mint_tx_hash) d.table.mint))
      × (ms ≡ map decode_mint rows)
unfolding get_un_minted pure
get_un_minted-eq-ok order_rows d d' ms e =
    let (_, d1, p, e1) = >>=-eq-ok _ _ d d' ms e in
    let (rows, d2, q, e2) = >>=-eq-ok _ _ d1 d' ms e1 in
    let same : d1.table ≡ d.table = sym (ap (λ r. r.1.table) p) ∙ table-prepare d in
    let (first, _) = query_rows-eq-ok _ d1 d2 rows q in
    (
      rows,
      subst (λ t. IsFirst rows (order_rows (filter (λ r. is_none r.mint_tx_hash) t.mint))) same
          first,
      sym (Outcome-of_ok (ap (λ r. r.0) e2)),
    )

module _ (order_rows : List MintRow → List MintRow)
    (order-perm : (rows : List MintRow) → Perm (order_rows rows) rows) where
  -- Where SQLite returns the selected rows in some order: a deposit that is stored with the hash of
  -- its mint transaction is not offered for minting again, whatever events follow and whatever calls
  -- of the database fail: no list that GetUnMinted then returns has it.
  pub Minted-NotOffered :
      (h : Hash) (evs : List Event) (d d' : Disk Tables) (ms : List Mint)
      → Minted h d.table
      → get_un_minted order_rows (handle_all evs d) ≡ (ok ms, d')
      → NotOffered h ms
  Minted-NotOffered h evs d d' ms k e =
      let (rows, first, ms_eq) = get_un_minted-eq-ok order_rows (handle_all evs d) d' ms e in
      let selected = filter (λ r. is_none r.mint_tx_hash) (handle_all evs d).table.mint in
      subst (NotOffered h) (sym ms_eq) (
        decoded-NotOffered h rows (
          All-IsFirst (λ r. r.btc_tx_id ≢ h) rows (order_rows selected) first
            (All-Perm (λ r. r.btc_tx_id ≢ h) (λ r. ¬_prop) selected (order_rows selected)
              (Perm.symm (order-perm selected))
              (unminted-NotOffered h (handle_all evs d).table.mint
                (handle_all-Minted h evs d k).1))))

absent-Minted :
    (h : Hash) (rows : List MintRow)
    → find_mint h rows ≡ none
    → All (λ r. r.btc_tx_id ≡ h → is_none r.mint_tx_hash ≡ false) rows
unfolding find_mint
absent-Minted h [] e = tt
absent-Minted h (r ∷ rows) e =
    (λ same. absurd (ground (arith, same)), absent-Minted h rows (ground arith))

find_mint-append_new :
    (r : MintRow) (rows : List MintRow) → is_none (find_mint r.btc_tx_id (rows ++ r ∷ [])) ≡ false
unfolding find_mint
find_mint-append_new r [] = ground arith
find_mint-append_new r (x ∷ rows) = ground (arith, find_mint-append_new r rows)

get_mint-eq-ok :
    (h : Hash) (d d' : Disk Tables) (o : Option Mint)
    → get_mint h d ≡ (ok o, d')
    → (d'.table ≡ d.table)
      × (o ≡ (elim (find_mint h d.table.mint) [ none ↦ none | some r ↦ some (decode_mint r) ]))
unfolding get_mint prepare query ◌>>=◌ pure
get_mint-eq-ok h d d' o e = ground arith

-- The row that the statement of `update` writes, where the call succeeds.
encoded-eq-ok :
    (m : Mint) (update : SqlMint → Tables → Outcome Tables) (d d' : Disk Tables)
    → (do prepare; s ← lift (encode_mint m); exec (update s)) d ≡ (ok tt, d')
    → (s : SqlMint) × (s.btc_tx_id ≡ m.btc_tx_id)
      × (s.mint_tx_hash ≡ m.mint_tx_hash)
      × (update s d.table ≡ ok d'.table)
encoded-eq-ok m update d d' e =
    let (_, d1, p, e1) = >>=-eq-ok _ _ d d' tt e in
    let (s, d2, q, e2) = >>=-eq-ok _ _ d1 d' tt e1 in
    let (encoded, same2) = lift-eq-ok _ d1 d2 s q in
    let same1 = sym (ap (λ r. r.1.table) p) ∙ table-prepare d in
    let same : d2.table ≡ d.table = ap (λ x. x.table) same2 ∙ same1 in
    let written = exec-eq-ok (update s) d2 d' tt e2 in
    (s, ground arith, ground arith, subst (λ t. update s t ≡ ok d'.table) same written)

inserted-Minted :
    (s : SqlMint) (t u : Tables)
    → find_mint s.btc_tx_id t.mint ≡ none
    → s.mint_tx_hash ≢ 0
    → insert_mint_row (mint_row s) t ≡ ok u
    → Minted s.btc_tx_id u
unfolding insert_mint_row
inserted-Minted s t u missing hash e =
    let same : u.mint ≡ t.mint ++ mint_row s ∷ [] = ground arith in
    rw same (
      find_mint-append_new (mint_row s) t.mint,
      All-append (λ r. r.btc_tx_id ≡ s.btc_tx_id → is_none r.mint_tx_hash ≡ false) t.mint
          (mint_row s ∷ []) (absent-Minted s.btc_tx_id t.mint missing) (λ _. ground arith, tt),
    )

set-Minted :
    (s : SqlMint) (t u : Tables)
    → is_none (find_mint s.btc_tx_id t.mint) ≡ false
    → set_mint_tx_hash s t ≡ ok u
    → Minted s.btc_tx_id u
set-Minted s t u found e = elim (set_mint_tx_hash-eq-ok s t u e) [
  | inl (missing, same) ↦ absurd (ground arith)
  | inr changed ↦
      rw (changed, find_mint-update) (found, updated-Minted s.btc_tx_id s.mint_tx_hash t.mint)
]

after-Minted :
    (m : Mint) (o : Option Mint) (d d' : Disk Tables)
    → o
      ≡ (elim (find_mint m.btc_tx_id d.table.mint) [ none ↦ none | some r ↦ some (decode_mint r) ])
    → (o ≡ none → m.mint_tx_hash ≢ 0)
    → insert_or_update m o d ≡ (ok tt, d')
    → Minted m.btc_tx_id d'.table
unfolding insert_mint
after-Minted m none d d' found hash e =
    let (s, key, same, written) = encoded-eq-ok m (λ s. insert_mint_row (mint_row s)) d d' e in
    subst (λ k. Minted k d'.table) key
      (inserted-Minted s d.table d'.table (rw key (ground arith)) (λ z. hash refl (sym same ∙ z))
        written)
after-Minted m (some old) d d' found hash e =
    let (s, key, same, written) = encoded-eq-ok m set_mint_tx_hash d d' e in
    subst (λ k. Minted k d'.table) key
      (set-Minted s d.table d'.table (rw key (ground arith)) written)

-- Whenever UpdateMint of a mint succeeds, whatever calls of the database failed before, and the mint
-- has the hash of its transaction or its deposit was stored before, the deposit is stored with a
-- hash, and in no row without one.
pub update_mint_lem :
    (m : Mint) (d d' : Disk Tables)
    → (find_mint m.btc_tx_id d.table.mint ≡ none → m.mint_tx_hash ≢ 0)
    → update_mint m d ≡ (ok tt, d')
    → Minted m.btc_tx_id d'.table
unfolding update_mint
update_mint_lem m d d' hash e =
    let (o, d1, found, rest) = >>=-eq-ok _ _ d d' tt e in
    let (same, o_eq) = get_mint-eq-ok m.btc_tx_id d d1 o found in
    after-Minted m o d1 d' (rw same o_eq) (λ z. hash (ground arith)) rest
