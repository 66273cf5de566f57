-- ===== src/State/EitherOrder.antt =====
-- state/state.go: the two events of one redeem, in either order.
use bridge_go_aptos.Prelude.{
  ◌≡◌, ℕ, refl, ap, ◌∙◌, List, [], ◌∷◌, Option, none, some, arith, false, ◌++◌,
}
use bridge_go_aptos.Agreement.{RedeemRequestedEvent, RedeemPreparedEvent}
use bridge_go_aptos.Sql.{Disk}
use bridge_go_aptos.State.Tables.{Tables, RedeemRow, prepare_tx_hash_taken}
use bridge_go_aptos.State.RedeemDb.{find_redeem}
use bridge_go_aptos.State.Handlers.{Event, redeem_requested, redeem_prepared, handle, handle_all}
use bridge_go_aptos.State.Rows.{find_redeem-append, find_redeem-update}
use bridge_go_aptos.State.Arrival.{
  Announced, row_requested, row_prepared, without_faults, handle_requested-new,
  handle_requested-known, handle_prepared-new, handle_prepared-known, row_requested_allowed,
  row_prepared_allowed, btc_tx_id_taken-none, prepare_tx_hash_taken-none, other_rows-append,
  insert_or_ignore-new,
}

two_events :
    (e f : Event) (d d1 d2 : Disk Tables)
    → (handle e d).1 ≡ d1
    → (handle f d1).1 ≡ d2
    → handle_all (e ∷ f ∷ []) d ≡ d2
unfolding handle_all
two_events e f d d1 d2 p q = ap (λ x. (handle f x).1) p ∙ q

module _ (ev : RedeemRequestedEvent) (pv : RedeemPreparedEvent) (n : ℕ) (a : Announced ev pv n)
    (t : Tables) (missing : find_redeem ev.request_tx_hash t.redeem ≡ none)
    (free : prepare_tx_hash_taken (some pv.prepare_tx_hash) t.redeem ≡ false) where
  abbrev row_of : List Event → Option RedeemRow
  row_of evs = find_redeem ev.request_tx_hash (handle_all evs (without_faults t)).table.redeem

  requested_first :
      row_of (redeem_requested ev ∷ redeem_prepared pv ∷ []) ≡ some (row_prepared ev pv n)
  unfolding handle
  requested_first =
      let appended =
        insert_or_ignore-new (row_requested ev n) t.redeem missing
          (row_requested_allowed ev pv n a t) (prepare_tx_hash_taken-none t.redeem)
          (btc_tx_id_taken-none t.redeem) in
      let t' = record t { redeem = t.redeem ++ row_requested ev n ∷ [] } in
      let key = find_redeem-append ev.request_tx_hash t.redeem (row_requested ev n) missing in
      let others = other_rows-append (row_requested ev n) t.redeem missing in
      let found : find_redeem ev.request_tx_hash t'.redeem ≡ some (row_requested ev n) =
        ground arith in
      rw
        (two_events (redeem_requested ev) (redeem_prepared pv) (without_faults t)
          (without_faults t') _ (rw (handle_requested-new ev pv n a t missing, appended) refl)
          (handle_prepared-known ev pv n a t' found (rw others free)))
        (rw (find_redeem-update, found) (ground arith))

  prepared_first :
      row_of (redeem_prepared pv ∷ redeem_requested ev ∷ []) ≡ some (row_prepared ev pv n)
  unfolding handle
  prepared_first =
      let appended =
        insert_or_ignore-new (row_prepared ev pv n) t.redeem missing
          (row_prepared_allowed ev pv n a t) free (btc_tx_id_taken-none t.redeem) in
      let t' = record t { redeem = t.redeem ++ row_prepared ev pv n ∷ [] } in
      let key = find_redeem-append ev.request_tx_hash t.redeem (row_prepared ev pv n) missing in
      let found : find_redeem ev.request_tx_hash t'.redeem ≡ some (row_prepared ev pv n) =
        ground arith in
      rw
        (two_events (redeem_prepared pv) (redeem_requested ev) (without_faults t)
          (without_faults t') _ (rw (handle_prepared-new ev pv n a t missing, appended) refl)
          (handle_requested-known ev pv n a t' (row_prepared ev pv n) found))
        found

  -- Where no call of the database fails, the redeem is not stored yet, the hash of the prepare
  -- transaction is that of no other redeem, and the two events announce one redeem, the redeem is
  -- stored as prepared, with the fields of the request and the outpoints of the preparation,
  -- whichever of the two events comes first.
  pub either_order :
      (row_of (redeem_requested ev ∷ redeem_prepared pv ∷ []) ≡ some (row_prepared ev pv n))
      × (row_of (redeem_prepared pv ∷ redeem_requested ev ∷ []) ≡ some (row_prepared ev pv n))
  either_order = (requested_first, prepared_first)
