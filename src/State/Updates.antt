-- ===== src/State/Updates.antt =====
-- state/redeem.go: what an update from a prepared event that succeeds has checked and set.
use bridge_go_aptos.Prelude.{
  ℕ, ◌≡◌, ◌≢◌, refl, subst, true, false, some, List, [], ◌∷◌, inl, inr, ◌==◌, Option-cases, arith,
  length,
}
use bridge_go_aptos.Go.{Outcome, ok, err, panic}
use bridge_go_aptos.BigInt.{ℤ, is_positive, big_int_clone}
use bridge_go_aptos.Agreement.{Hash, BtcOutpoint, RedeemPreparedEvent}
use bridge_go_aptos.State.Redeem.{
  requested_redeem, requested_by, then_update, then_create, Redeem, prepared,
  update_from_prepared_event, update_prepared, zip_outpoints, create_redeem_from_prepared_event,
}
use bridge_go_aptos.State.Lifecycle.{create-eq-ok}

pub zip_outpoints-cons :
    (hs : List Hash) (is : List ℕ)
    → (length hs == 0) ≡ false
    → (length is == 0) ≡ false
    → (o : BtcOutpoint) × (os : List BtcOutpoint) × (zip_outpoints hs is ≡ o ∷ os)
unfolding zip_outpoints
zip_outpoints-cons [] is p q = absurd (ground arith)
zip_outpoints-cons (h ∷ hs) [] p q = absurd (ground arith)
zip_outpoints-cons (h ∷ hs) (i ∷ is) p q = (_, _, refl)

unfoldable pub prepared_by : Redeem → RedeemPreparedEvent → Redeem
prepared_by r ev = record r {
  prepare_tx_hash = ev.prepare_tx_hash;
  status = prepared;
  outpoints = some (zip_outpoints ev.outpoint_tx_ids ev.outpoint_idxs);
}

update_prepared-eq-ok :
    (r : Redeem) (ev : RedeemPreparedEvent) (r' : Redeem)
    → update_prepared r ev ≡ ok r'
    → (r' ≡ prepared_by r ev)
      × (ev.prepare_tx_hash ≢ 0)
      × ((length ev.outpoint_tx_ids == 0) ≡ false)
      × ((length ev.outpoint_idxs == 0) ≡ false)
unfolding update_prepared prepared_by
update_prepared-eq-ok r ev r' e = ground arith

checks-eq-ok :
    (r : Redeem) (ev : RedeemPreparedEvent) (r' : Redeem)
    → update_from_prepared_event r ev ≡ ok r'
    → (ev.request_tx_hash ≡ r.request_tx_hash) × (update_prepared r ev ≡ ok r')
unfolding update_from_prepared_event
checks-eq-ok r ev r' e = ground arith

-- An update that succeeds: the event is that of the redeem, and what it sets.
pub update-eq-ok :
    (r : Redeem) (ev : RedeemPreparedEvent) (r' : Redeem)
    → update_from_prepared_event r ev ≡ ok r'
    → (r' ≡ prepared_by r ev)
      × (ev.prepare_tx_hash ≢ 0)
      × ((length ev.outpoint_tx_ids == 0) ≡ false)
      × ((length ev.outpoint_idxs == 0) ≡ false)
      × (ev.request_tx_hash ≡ r.request_tx_hash)
update-eq-ok r ev r' e =
    let (key, passed) = checks-eq-ok r ev r' e in
    let (same, hash, ids, idxs) = update_prepared-eq-ok r ev r' passed in
    (same, hash, ids, idxs, key)

then_update-eq-ok :
    (q : Outcome Redeem) (ev : RedeemPreparedEvent) (r : Redeem)
    → then_update q ev ≡ ok r
    → (x : Redeem) × (q ≡ ok x) × (update_from_prepared_event x ev ≡ ok r)
then_update-eq-ok (ok x) ev r e = (x, refl, e)
then_update-eq-ok (err y) ev r e = absurd (cc)
then_update-eq-ok panic ev r e = absurd (cc)

create_some-eq-ok :
    (ev : RedeemPreparedEvent) (a : ℤ) (r : Redeem)
    → then_create (big_int_clone (some a)) ev ≡ ok r
    → (is_positive a ≡ true)
      × (update_from_prepared_event (requested_redeem (requested_by ev a) a) ev ≡ ok r)
create_some-eq-ok ev a r e =
    let (x, created, updated) = then_update-eq-ok _ ev r e in
    let (b, same, positive, x_eq) = create-eq-ok (requested_by ev a) x created in
    (ground arith, ground arith)

-- A redeem that a prepared event makes is that of a request with a valid receiver, prepared.
pub create_prepared-eq-ok :
    (ev : RedeemPreparedEvent) (r : Redeem)
    → create_redeem_from_prepared_event ev ≡ ok r
    → (a : ℤ) × (ev.amount ≡ some a)
      × (is_positive a ≡ true)
      × (update_from_prepared_event (requested_redeem (requested_by ev a) a) ev ≡ ok r)
unfolding create_redeem_from_prepared_event
create_prepared-eq-ok ev r e = elim (Option-cases ev.amount) [
  | inl missing ↦ absurd (ground arith)
  | inr (a, present) ↦
      let (positive, updated) =
        create_some-eq-ok ev a r (subst (λ o. then_create (big_int_clone o) ev ≡ ok r) present e) in
      (a, present, positive, updated)
]
