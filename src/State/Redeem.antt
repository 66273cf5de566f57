-- ===== src/State/Redeem.antt =====
-- state/redeem.go: a redeem, and how events make and change it.
use bridge_go_aptos.Prelude.{
  ℕ, Bool, true, false, not, ◌&&◌, ◌||◌, Option, none, some, String, List, [], ◌∷◌, ◌==◌, length,
  str_eq, if◌then◌else◌,
}
use bridge_go_aptos.Go.{
  Outcome, ok, err, panic, amount_invalid, request_tx_hash_invalid, request_tx_hash_unmatched,
  requester_unmatched, amount_unmatched, receiver_unmatched, outpoints_invalid,
  outpoint_tx_id_invalid, prepare_tx_hash_empty,
}
use bridge_go_aptos.BigInt.{ℤ, is_positive, cmp_eq, big_int_clone}
use bridge_go_aptos.Agreement.{Hash, BtcOutpoint, RedeemRequestedEvent, RedeemPreparedEvent}

pub data RedeemStatus : Type 0 where
  requested prepared completed invalid : RedeemStatus

-- `outpoints` is `none` where the slice is nil, and `amount` where the pointer is.
pub record Redeem : Type 0 where
  pub request_tx_hash : Hash
  pub prepare_tx_hash : Hash
  pub btc_tx_id : Hash
  pub requester : List ℕ
  pub receiver : String
  pub amount : Option ℤ
  pub outpoints : Option (List BtcOutpoint)
  pub status : RedeemStatus

-- common.CompareSlices: the lengths, then the bytes one by one
unfoldable pub same_bytes : List ℕ → List ℕ → Bool
same_bytes [] [] = true
same_bytes (x ∷ xs) (y ∷ ys) = x == y && same_bytes xs ys
same_bytes _ _ = false

unfoldable pub compare_slices : List ℕ → List ℕ → Bool
unfolding same_bytes
compare_slices a b = if not (length a == length b) then false else same_bytes a b

abbrev pub requested_redeem : RedeemRequestedEvent → ℤ → Redeem
requested_redeem ev amount = record {
  request_tx_hash = ev.request_tx_hash;
  prepare_tx_hash = 0;
  btc_tx_id = 0;
  requester = ev.requester;
  receiver = ev.receiver;
  amount = some amount;
  outpoints = none;
  status = if ev.is_valid_receiver then requested else invalid;
}

abbrev pub if_positive : Option ℤ → (ℤ → Redeem) → Outcome Redeem
if_positive none make = err amount_invalid
if_positive (some amount) make = if is_positive amount then ok (make amount) else err amount_invalid

unfoldable pub create_redeem_from_requested_event : RedeemRequestedEvent → Outcome Redeem
create_redeem_from_requested_event ev =
    if ev.request_tx_hash == 0
    then err request_tx_hash_invalid
    else if_positive ev.amount (requested_redeem ev)

-- The loop over the outpoint ids that looks for an empty one. (It runs over the indices; the two
-- slices have one length by then.)
unfoldable pub has_empty_tx_id : List Hash → Bool
has_empty_tx_id [] = false
has_empty_tx_id (h ∷ hs) = h == 0 || has_empty_tx_id hs

-- The loop that sets the outpoints.
unfoldable pub zip_outpoints : List Hash → List ℕ → List BtcOutpoint
zip_outpoints (h ∷ hs) (i ∷ is) = record { btc_tx_id = h; btc_idx = i } ∷ zip_outpoints hs is
zip_outpoints _ _ = []

-- ev.Amount.Cmp(r.Amount) != 0: two nil pointers are one pointer, one nil pointer is read.
abbrev pub same_amount : Option ℤ → Option ℤ → Outcome Bool
same_amount none none = ok true
same_amount (some x) (some y) = ok (cmp_eq x y)
same_amount _ _ = panic

-- The checks that follow that of the amount, and the update.
unfoldable pub update_prepared : Redeem → RedeemPreparedEvent → Outcome Redeem
unfolding has_empty_tx_id zip_outpoints
update_prepared r ev =
    if not (str_eq ev.receiver r.receiver)
    then err receiver_unmatched
    else if ev.prepare_tx_hash == 0
    then err prepare_tx_hash_empty
    else if length ev.outpoint_tx_ids == 0
        || length ev.outpoint_idxs == 0
        || not (length ev.outpoint_tx_ids == length ev.outpoint_idxs)
    then err outpoints_invalid
    else if has_empty_tx_id ev.outpoint_tx_ids
    then err outpoint_tx_id_invalid
    else ok (record r {
      prepare_tx_hash = ev.prepare_tx_hash;
      status = prepared;
      outpoints = some (zip_outpoints ev.outpoint_tx_ids ev.outpoint_idxs);
    })

abbrev pub if_same_amount : Outcome Bool → Outcome Redeem → Outcome Redeem
if_same_amount (ok true) rest = rest
if_same_amount (ok false) rest = err amount_unmatched
if_same_amount (err e) rest = err e
if_same_amount panic rest = panic

unfoldable pub update_from_prepared_event : Redeem → RedeemPreparedEvent → Outcome Redeem
unfolding compare_slices update_prepared
update_from_prepared_event r ev =
    if not (ev.request_tx_hash == r.request_tx_hash)
    then err request_tx_hash_unmatched
    else if not (compare_slices ev.requester r.requester)
    then err requester_unmatched
    else if_same_amount (same_amount ev.amount r.amount) (update_prepared r ev)

abbrev pub requested_by : RedeemPreparedEvent → ℤ → RedeemRequestedEvent
requested_by ev amount = record {
  request_tx_hash = ev.request_tx_hash;
  requester = ev.requester;
  receiver = ev.receiver;
  amount = some amount;
  is_valid_receiver = true;
}

abbrev pub then_update : Outcome Redeem → RedeemPreparedEvent → Outcome Redeem
then_update (ok r) ev = update_from_prepared_event r ev
then_update (err e) ev = err e
then_update panic ev = panic

abbrev pub then_create : Outcome ℤ → RedeemPreparedEvent → Outcome Redeem
then_create (ok amount) ev =
    then_update (create_redeem_from_requested_event (requested_by ev amount)) ev
then_create (err e) ev = err e
then_create panic ev = panic

unfoldable pub create_redeem_from_prepared_event : RedeemPreparedEvent → Outcome Redeem
create_redeem_from_prepared_event ev = then_create (big_int_clone ev.amount) ev

unfoldable pub has_prepared : Redeem → Bool
has_prepared r = not (r.prepare_tx_hash == 0) && (elim r.status [ prepared ↦ true | _ ↦ false ])

unfoldable pub has_completed : Redeem → Bool
has_completed r = not (r.btc_tx_id == 0) && (elim r.status [ completed ↦ true | _ ↦ false ])
