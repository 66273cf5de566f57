-- ===== src/State/Rows.antt =====
-- What the statements of state/statedb_eth2btc.go do to the row of one redeem.
use bridge_go_aptos.Prelude.{
  ◌≡◌, refl, true, Option, none, some, List, [], ◌∷◌, ◌++◌, ◌==◌, ◌⊎◌, arith, if◌then◌else◌,
}
use bridge_go_aptos.Go.{ok}
use bridge_go_aptos.Agreement.{Hash}
use bridge_go_aptos.Sql.{Disk, query, prepare, ◌>>=◌}
use bridge_go_aptos.State.Redeem.{Redeem, RedeemStatus}
use bridge_go_aptos.State.Tables.{Tables, RedeemRow, decode_redeem, redeem_row_allowed}
use bridge_go_aptos.State.RedeemDb.{
  find_redeem, insert_or_ignore, update_row, get_redeem, has_redeem,
}

pub find_redeem-key :
    (h : Hash) (rows : List RedeemRow) (r : RedeemRow)
    → find_redeem h rows ≡ some r
    → r.request_tx_hash ≡ h
unfolding find_redeem
find_redeem-key h [] r e = cc
find_redeem-key h (x ∷ rows) r e = ground (arith, find_redeem-key h rows r)

pub find_redeem-append :
    (h : Hash) (rows : List RedeemRow) (r : RedeemRow)
    → find_redeem r.request_tx_hash rows ≡ none
    → find_redeem h (rows ++ r ∷ [])
      ≡ (if r.request_tx_hash == h then some r else find_redeem h rows)
unfolding find_redeem
find_redeem-append h [] r e = refl
find_redeem-append h (x ∷ rows) r e = ground (arith, find_redeem-append h rows r)

-- An INSERT OR IGNORE leaves the row of a redeem as it was, or makes it where there was none.
pub find_redeem-insert :
    (h : Hash) (rows : List RedeemRow) (r : RedeemRow)
    → (find_redeem h (insert_or_ignore r rows) ≡ find_redeem h rows)
      ⊎ ((find_redeem h rows ≡ none)
          × (find_redeem h (insert_or_ignore r rows) ≡ some r)
          × (r.request_tx_hash ≡ h)
          × (redeem_row_allowed r ≡ true))
unfolding insert_or_ignore
find_redeem-insert h rows r = ground (arith, find_redeem-append h rows r)

pub find_redeem-update :
    (h k : Hash) (f : RedeemRow → RedeemRow) (rows : List RedeemRow)
    → ((r : RedeemRow) → (f r).request_tx_hash ≡ r.request_tx_hash)
    → find_redeem h (update_row k f rows) ≡ (
        if k == h
        then (elim (find_redeem h rows) [ none ↦ none | some r ↦ some (f r) ])
        else find_redeem h rows)
unfolding find_redeem update_row
find_redeem-update h k f [] same = ground arith
find_redeem-update h k f (r ∷ rows) same =
    ground (arith, same r, find_redeem-update h k f rows same)

module _ (h : Hash) (d : Disk Tables) where
  pub table-has_redeem : (has_redeem h d).1.table ≡ d.table
  unfolding has_redeem prepare query ◌>>=◌
  table-has_redeem = ground arith

  pub table-get_redeem : (get_redeem h d).1.table ≡ d.table
  unfolding get_redeem prepare query ◌>>=◌
  table-get_redeem = ground arith

  pub has_redeem-eq-ok :
      (d' : Disk Tables) (o : Option RedeemStatus)
      → has_redeem h d ≡ (ok o, d')
      → o ≡ (elim (find_redeem h d.table.redeem) [ none ↦ none | some r ↦ some r.status ])
  unfolding has_redeem prepare query ◌>>=◌
  has_redeem-eq-ok d' o e = ground arith

  pub get_redeem-eq-ok :
      (d' : Disk Tables) (o : Option Redeem)
      → get_redeem h d ≡ (ok o, d')
      → o ≡ (elim (find_redeem h d.table.redeem) [ none ↦ none | some r ↦ some (decode_redeem r) ])
  unfolding get_redeem prepare query ◌>>=◌
  get_redeem-eq-ok d' o e = ground arith
