-- ===== src/State/Arrival.antt =====
-- state/state.go: the events of one redeem, as the comment on the prepared event says, may arrive in
-- either order. Here no call of the database fails.
use bridge_go_aptos.Prelude.{
  ◌<◌, ◌≡◌, ◌≢◌, ◌^◌, ℕ, refl, List, [], ◌∷◌, none, some, arith, true, false, ◌++◌, length, ◌==◌,
  String, str_eq, eq_iff,
}
use bridge_go_aptos.Go.{ok}
use bridge_go_aptos.Agreement.{RedeemRequestedEvent, RedeemPreparedEvent}
use bridge_go_aptos.BigInt.{pos, cmp_eq, to_uint64}
use bridge_go_aptos.Sql.{Disk, pure, lift, prepare, exec, query, or_error, ◌>>=◌}
use bridge_go_aptos.State.Redeem.{
  requested, prepared, create_redeem_from_requested_event, update_from_prepared_event,
  create_redeem_from_prepared_event, update_prepared, requested_redeem, requested_by, Redeem,
  same_bytes, compare_slices, has_empty_tx_id, zip_outpoints,
}
use bridge_go_aptos.State.Tables.{
  Tables, RedeemRow, encode_redeem, decode_redeem, zero_address, redeem_row_allowed,
  prepare_tx_hash_taken, btc_tx_id_taken,
}
use bridge_go_aptos.State.RedeemDb.{
  other_rows, update_row, find_redeem, has_redeem, get_redeem, insert_after_requested,
  update_after_prepared, update_redeem, insert_or_ignore,
}
use bridge_go_aptos.State.Handlers.{
  insert_prepared, update_stored, update_decoded, handle_requested, handle_prepared,
}

same_bytes_refl : (xs : List ℕ) → same_bytes xs xs ≡ true
unfolding same_bytes
same_bytes_refl [] = refl
same_bytes_refl (x ∷ xs) = ground (arith, same_bytes_refl xs)

str_eq_refl : (s : String) → str_eq s s ≡ true
str_eq_refl s = (eq_iff s s).1 refl

pub btc_tx_id_taken-none : (rows : List RedeemRow) → btc_tx_id_taken none rows ≡ false
unfolding btc_tx_id_taken
btc_tx_id_taken-none [] = refl
btc_tx_id_taken-none (r ∷ rows) = ground (arith, btc_tx_id_taken-none rows)

pub prepare_tx_hash_taken-none : (rows : List RedeemRow) → prepare_tx_hash_taken none rows ≡ false
unfolding prepare_tx_hash_taken
prepare_tx_hash_taken-none [] = refl
prepare_tx_hash_taken-none (r ∷ rows) = ground (arith, prepare_tx_hash_taken-none rows)

-- A row at the end, whose redeem is not among the others.
pub other_rows-append :
    (r : RedeemRow) (rows : List RedeemRow)
    → find_redeem r.request_tx_hash rows ≡ none
    → other_rows r.request_tx_hash (rows ++ r ∷ []) ≡ rows
unfolding other_rows find_redeem
other_rows-append r [] e = ground arith
other_rows-append r (x ∷ rows) e = ground (arith, other_rows-append r rows)

pub insert_or_ignore-new :
    (r : RedeemRow) (rows : List RedeemRow)
    → find_redeem r.request_tx_hash rows ≡ none
    → redeem_row_allowed r ≡ true
    → prepare_tx_hash_taken r.prepare_tx_hash rows ≡ false
    → btc_tx_id_taken r.btc_tx_id rows ≡ false
    → insert_or_ignore r rows ≡ rows ++ r ∷ []
unfolding insert_or_ignore
insert_or_ignore-new r rows e p q s = ground arith

-- What a request of a valid receiver, and its preparation, say of one redeem.
pub record Announced (ev : RedeemRequestedEvent) (pv : RedeemPreparedEvent) (n : ℕ) : Type 0 where
  pub same_hash : pv.request_tx_hash ≡ ev.request_tx_hash
  pub same_requester : pv.requester ≡ ev.requester
  pub same_receiver : pv.receiver ≡ ev.receiver
  pub prepared_amount : pv.amount ≡ some (pos n)
  pub amount : ev.amount ≡ some (pos n)
  pub positive : 0 < n
  -- the column of the amount is a signed one
  pub fits : n < 2 ^ 63
  pub hash : ev.request_tx_hash ≢ 0
  pub requester : same_bytes ev.requester zero_address ≡ false
  pub receiver : ev.is_valid_receiver ≡ true
  pub prepare_tx_hash : pv.prepare_tx_hash ≢ 0
  pub outpoints : (length pv.outpoint_tx_ids == 0) ≡ false
  pub idxs : length pv.outpoint_idxs ≡ length pv.outpoint_tx_ids
  pub outpoint_tx_ids : has_empty_tx_id pv.outpoint_tx_ids ≡ false

abbrev pub row_requested : RedeemRequestedEvent → ℕ → RedeemRow
row_requested ev n = record {
  request_tx_hash = ev.request_tx_hash;
  prepare_tx_hash = none;
  btc_tx_id = none;
  requester = ev.requester;
  receiver = ev.receiver;
  amount = n;
  outpoints = none;
  status = requested;
}

abbrev pub row_prepared : RedeemRequestedEvent → RedeemPreparedEvent → ℕ → RedeemRow
row_prepared ev pv n = record {
  request_tx_hash = ev.request_tx_hash;
  prepare_tx_hash = some pv.prepare_tx_hash;
  btc_tx_id = none;
  requester = ev.requester;
  receiver = ev.receiver;
  amount = n;
  outpoints = some (zip_outpoints pv.outpoint_tx_ids pv.outpoint_idxs);
  status = prepared;
}

abbrev pub without_faults : Tables → Disk Tables
without_faults t = record { table = t; faults = [] }

module _ (ev : RedeemRequestedEvent) (pv : RedeemPreparedEvent) (n : ℕ) (a : Announced ev pv n)
    (t : Tables) where
  pub handle_requested-new :
      find_redeem ev.request_tx_hash t.redeem ≡ none
      → handle_requested ev (without_faults t) ≡ (
        ok tt,
        without_faults (record t { redeem = insert_or_ignore (row_requested ev n) t.redeem }),
      )
  unfolding handle_requested has_redeem query prepare ◌>>=◌ or_error insert_after_requested
      encode_redeem lift exec create_redeem_from_requested_event to_uint64
  handle_requested-new missing = ground (arith, a.amount, a.positive, a.fits, a.hash, a.receiver)

  pub handle_requested-known :
      (r : RedeemRow)
      → find_redeem ev.request_tx_hash t.redeem ≡ some r
      → (handle_requested ev (without_faults t)).1 ≡ without_faults t
  unfolding handle_requested has_redeem query prepare ◌>>=◌ or_error pure
  handle_requested-known r found = ground arith

  -- the redeem that is written, from the stored one or from the event alone
  redeem_written : Redeem
  redeem_written = record {
    request_tx_hash = ev.request_tx_hash;
    prepare_tx_hash = pv.prepare_tx_hash;
    btc_tx_id = 0;
    requester = ev.requester;
    receiver = ev.receiver;
    amount = some (pos n);
    outpoints = some (zip_outpoints pv.outpoint_tx_ids pv.outpoint_idxs);
    status = prepared;
  }

  update-eq :
      (r : Redeem)
      → r ≡ requested_redeem ev (pos n)
      → update_from_prepared_event r pv ≡ ok redeem_written
  unfolding redeem_written update_from_prepared_event compare_slices cmp_eq update_prepared
  update-eq r e = ground (
    arith,
    e,
    a.same_hash,
    a.same_requester,
    a.same_receiver,
    a.prepared_amount,
    a.receiver,
    a.prepare_tx_hash,
    a.outpoints,
    a.idxs,
    a.outpoint_tx_ids,
    same_bytes_refl ev.requester,
    str_eq_refl ev.receiver,
  )

  create-eq : create_redeem_from_prepared_event pv ≡ ok redeem_written
  unfolding create_redeem_from_prepared_event create_redeem_from_requested_event
  create-eq =
      let same =
        update-eq (requested_redeem (requested_by pv (pos n)) (pos n))
          (ground (arith, a.same_hash, a.same_requester, a.same_receiver, a.receiver)) in
      ground (arith, same, a.prepared_amount, a.same_hash, a.hash, a.positive)

  pub handle_prepared-new :
      find_redeem ev.request_tx_hash t.redeem ≡ none
      → (handle_prepared pv (without_faults t)).1
        ≡ without_faults (record t { redeem = insert_or_ignore (row_prepared ev pv n) t.redeem })
  unfolding handle_prepared has_redeem query prepare ◌>>=◌ or_error insert_prepared lift
      update_after_prepared get_redeem encode_redeem pure exec redeem_written to_uint64
  handle_prepared-new missing = ground (arith, create-eq, a.same_hash, a.fits)

  pub handle_prepared-known :
      find_redeem ev.request_tx_hash t.redeem ≡ some (row_requested ev n)
      → prepare_tx_hash_taken (some pv.prepare_tx_hash) (other_rows ev.request_tx_hash t.redeem)
        ≡ false
      → (handle_prepared pv (without_faults t)).1
        ≡ without_faults (record t {
          redeem =
              update_row ev.request_tx_hash
                (λ r. record r {
                  prepare_tx_hash = some pv.prepare_tx_hash;
                  outpoints = some (zip_outpoints pv.outpoint_tx_ids pv.outpoint_idxs);
                  status = prepared;
                })
                t.redeem;
        })
  unfolding handle_prepared has_redeem query prepare ◌>>=◌ or_error update_stored update_decoded
      lift update_after_prepared get_redeem encode_redeem pure exec redeem_written to_uint64
      decode_redeem update_redeem redeem_row_allowed
  handle_prepared-known found free =
      let same = update-eq (decode_redeem (row_requested ev n)) (ground (arith, a.receiver)) in
      ground (
        arith,
        same,
        found,
        free,
        a.same_hash,
        a.positive,
        a.fits,
        a.hash,
        a.requester,
        a.prepare_tx_hash,
        btc_tx_id_taken-none (other_rows ev.request_tx_hash t.redeem),
      )

  pub row_requested_allowed : redeem_row_allowed (row_requested ev n) ≡ true
  unfolding redeem_row_allowed
  row_requested_allowed = ground (arith, a.positive, a.hash, a.requester)

  pub row_prepared_allowed : redeem_row_allowed (row_prepared ev pv n) ≡ true
  unfolding redeem_row_allowed
  row_prepared_allowed = ground (arith, a.positive, a.hash, a.requester, a.prepare_tx_hash)
