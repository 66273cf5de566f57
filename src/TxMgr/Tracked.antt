-- ===== src/TxMgr/Tracked.antt =====
-- chaintxmgr/mgr.go: what is tracked in the manager's database is not submitted again.
use bridge_go_aptos.Prelude.{
  ℕ, sym, subst, ◌+◌, ◌≡◌, refl, Bool, true, false, ◌||◌, Option, none, some, List, [], ◌∷◌, ◌++◌,
  ◌==◌, arith,
}
use bridge_go_aptos.Go.{ok, panic, Outcome-of_ok}
use bridge_go_aptos.Agreement.{Hash, MonitoredTxStatus}
use bridge_go_aptos.Sql.{exec}
use bridge_go_aptos.Sql.Laws.{Keeps, Keeps-exec, Keeps-lift}
use bridge_go_aptos.MgrDb.{
  Rows, MonitoredRow, MonitoredTx, insert_monitored_tx, insert_row, update_where, encode_tx,
  update_tx_status, update_found,
}
use bridge_go_aptos.BigInt.{ℤ, to_int64}
use bridge_go_aptos.MgrDb.Rows.{insert_row-eq-ok}
use bridge_go_aptos.TxMgr.{Call, do_mint, do_prepare}

-- Some row has `h` for its reference identifier.
unfoldable pub is_tracked : Hash → Rows → Bool
is_tracked h [] = false
is_tracked h (r ∷ rows) = r.ref_identifier == h || is_tracked h rows

abbrev counted : Bool → ℕ
counted true = 1
counted false = 0

-- How many of the calls send a mint of the deposit `h`, or a preparation of the redeem `h`.
unfoldable pub submissions_of : Hash → List Call → ℕ
submissions_of h [] = 0
submissions_of h (do_mint mp ∷ calls) = counted (mp.btc_tx_id == h) + submissions_of h calls
submissions_of h (do_prepare pp ∷ calls) =
    counted (pp.request_tx_hash == h) + submissions_of h calls
submissions_of h (_ ∷ calls) = submissions_of h calls

is_tracked-append :
    (h : Hash) (rows : Rows) (r : MonitoredRow)
    → is_tracked h rows ≡ true
    → is_tracked h (rows ++ r ∷ []) ≡ true
unfolding is_tracked
is_tracked-append h [] r t = absurd (cc)
is_tracked-append h (s ∷ rows) r t = ground (arith, is_tracked-append h rows r)

is_tracked-update_where :
    (h : Hash) (identifier : List ℕ) (f : MonitoredRow → MonitoredRow) (rows : Rows)
    → ((r : MonitoredRow) → (f r).ref_identifier ≡ r.ref_identifier)
    → is_tracked h rows ≡ true
    → is_tracked h (update_where identifier f rows) ≡ true
unfolding is_tracked update_where
is_tracked-update_where h identifier f [] k t = t
is_tracked-update_where h identifier f (r ∷ rows) k t =
    ground (arith, is_tracked-update_where h identifier f rows k, k r)

module _ (h : Hash) where
  abbrev pub Tracked : Rows → Type 0
  Tracked rows = is_tracked h rows ≡ true

  pub Keeps-insert_monitored_tx : (tx : MonitoredTx) → Keeps Tracked (insert_monitored_tx tx)
  unfolding insert_monitored_tx
  Keeps-insert_monitored_tx tx = Keeps-exec (insert_row (encode_tx tx)) (λ t u e p.
      subst Tracked (sym (insert_row-eq-ok (encode_tx tx) t u e).0)
        (is_tracked-append h t (encode_tx tx) p))

  pub Keeps-update_where :
      (identifier : List ℕ) (f : MonitoredRow → MonitoredRow)
      → ((r : MonitoredRow) → (f r).ref_identifier ≡ r.ref_identifier)
      → Keeps Tracked (exec (λ rows. ok (update_where identifier f rows)))
  Keeps-update_where identifier f k =
      Keeps-exec _
        (λ t u e p. subst Tracked (Outcome-of_ok e) (is_tracked-update_where h identifier f t k p))

  pub Keeps-update_tx_status :
      (identifier : List ℕ) (status : MonitoredTxStatus)
      → Keeps Tracked (update_tx_status identifier status)
  unfolding update_tx_status
  Keeps-update_tx_status identifier status =
      Keeps-update_where identifier (λ r. record r { tx_status = status }) (λ r. refl)

  pub Keeps-update_found :
      (identifier : List ℕ) (found : Option ℤ) → Keeps Tracked (update_found identifier found)
  unfolding update_found
  Keeps-update_found identifier none = Keeps-lift panic
  Keeps-update_found identifier (some z) =
      Keeps-update_where identifier (λ r. record r { found = to_int64 z }) (λ r. refl)
