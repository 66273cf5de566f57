-- ===== src/State/Preparation.antt =====
-- How a prepared event is written, state/state.go: into the row of its redeem, or as a new row.
use bridge_go_aptos.Prelude.{
  ◌≡◌, ◌≢◌, refl, sym, ap, ◌∙◌, subst, Option, none, some, List, ◌∷◌, inl, inr, ◌==◌, ==_iff,
  Bool-cases, Option-cases, arith,
}
use bridge_go_aptos.Go.{ok}
use bridge_go_aptos.BigInt.{ℤ, pos}
use bridge_go_aptos.Agreement.{Hash, BtcOutpoint, RedeemPreparedEvent}
use bridge_go_aptos.Sql.{Disk}
use bridge_go_aptos.Sql.Laws.{
  table-lift, bind_rule, exec_rule, or_error-eq-ok, table-or_error, lift-eq-ok, table-prepare,
}
use bridge_go_aptos.State.Redeem.{
  requested_redeem, requested_by, Redeem, requested, prepared, zip_outpoints,
}
use bridge_go_aptos.State.Tables.{Tables, RedeemRow, SqlRedeem, decode_redeem}
use bridge_go_aptos.State.RedeemDb.{
  find_redeem, update_row, update_after_prepared, prepared_row, update_redeem, set_prepared,
  write_prepared,
}
use bridge_go_aptos.State.Handlers.{update_decoded, update_stored, insert_prepared}
use bridge_go_aptos.State.Rows.{find_redeem-update, table-get_redeem, get_redeem-eq-ok}
use bridge_go_aptos.State.Lifecycle.{
  RowStep, stay, prepares, Moves, stays, insert-RowStep, encode_redeem-eq-ok,
}
use bridge_go_aptos.State.Updates.{
  zip_outpoints-cons, prepared_by, update-eq-ok, create_prepared-eq-ok,
}

update_redeem-eq-ok :
    (k : Hash) (f : RedeemRow → RedeemRow) (t t' : Tables) (r : RedeemRow)
    → find_redeem k t.redeem ≡ some r
    → update_redeem k f t ≡ ok t'
    → t'.redeem ≡ update_row k f t.redeem
unfolding update_redeem
update_redeem-eq-ok k f t t' r p e = ground arith

-- What the redeem of an event gives the statement: the event's own hash and outpoints.
abbrev IsPreparation : SqlRedeem → Type 0
IsPreparation s =
    (s.prepare_tx_hash ≢ 0)
    × ((o : BtcOutpoint) × (os : List BtcOutpoint) × (s.outpoints ≡ some (o ∷ os)))
    × (s.status ≡ prepared)

update_redeem-RowStep :
    (h : Hash) (s : SqlRedeem) (t t' : Tables) (r : RedeemRow)
    → IsPreparation s
    → find_redeem s.request_tx_hash t.redeem ≡ some r
    → r.status ≡ requested
    → update_redeem s.request_tx_hash (set_prepared s) t ≡ ok t'
    → RowStep h (find_redeem h t.redeem) (find_redeem h t'.redeem)
update_redeem-RowStep h s t t' r (hash, (o, os, outs), status) p q e =
    rw
      (
        update_redeem-eq-ok s.request_tx_hash (set_prepared s) t t' r p e,
        find_redeem-update h s.request_tx_hash (set_prepared s) t.redeem (λ r. refl),
      )
      (elim (Bool-cases (s.request_tx_hash == h)) [
        | inl e ↦
            let key = (==_iff s.request_tx_hash h).0 e in
            let found = subst (λ k. find_redeem k t.redeem ≡ some r) key p in
            rw (e, found, status, outs) (prepares r s.prepare_tx_hash o os q hash)
        | inr e ↦ rw e (stay _)
      ])

write_prepared-RowStep :
    (h : Hash) (s : SqlRedeem) (found : Option Redeem) (t t' : Tables)
    → IsPreparation s
    → found ≡ (elim (find_redeem s.request_tx_hash t.redeem) [
      | none ↦ none
      | some r ↦ some (decode_redeem r)
    ])
    → ((r : RedeemRow) → find_redeem s.request_tx_hash t.redeem ≡ some r → r.status ≡ requested)
    → write_prepared found s t ≡ ok t'
    → RowStep h (find_redeem h t.redeem) (find_redeem h t'.redeem)
write_prepared-RowStep h s none t t' (hash, (o, os, outs), status) p k e =
    insert-RowStep h t t' (prepared_row s)
      (rw (status, outs) (refl, (s.prepare_tx_hash, refl, hash), (o, os, refl))) e
write_prepared-RowStep h s (some x) t t' c p k e =
    elim (Option-cases (find_redeem s.request_tx_hash t.redeem)) [
      | inl missing ↦ absurd (ground arith)
      | inr (r, found) ↦ update_redeem-RowStep h s t t' r c found (k r found) e
    ]

update_after_prepared-Moves :
    (h : Hash) (redeem : Redeem) (a : ℤ) (d d' : Disk Tables)
    → d'.table ≡ d.table
    → redeem.amount ≡ some a
    → redeem.prepare_tx_hash ≢ 0
    → (o : BtcOutpoint) (os : List BtcOutpoint) → redeem.outpoints ≡ some (o ∷ os)
    → redeem.status ≡ prepared
    → ((r : RedeemRow)
        → find_redeem redeem.request_tx_hash d.table.redeem ≡ some r
        → r.status ≡ requested)
    → Moves h d (update_after_prepared redeem d').1.table
unfolding update_after_prepared
update_after_prepared-Moves h redeem a d d' same am hash o os outs status k =
    bind_rule (Moves h d) _ _ d' (table-get_redeem _ d') (stays h d d'.table same)
      λ found d1 e1 same1.
        bind_rule (Moves h d) _ _ d1 (table-prepare d1) (stays h d d1.table (same1 ∙ same))
          λ x d2 e2 same2.
            bind_rule (Moves h d) _ _ d2 (table-lift _ d2)
              (stays h d d2.table (same2 ∙ same1 ∙ same))
              λ s d3 e3 same3.
                let (encoded, _) = lift-eq-ok _ d2 d3 s e3 in
                let (key, p_eq, o_eq, s_eq, _) = encode_redeem-eq-ok redeem a s am encoded in
                let table_eq = same3 ∙ same2 ∙ same1 ∙ same in
                let found_eq = get_redeem-eq-ok redeem.request_tx_hash d' d1 found e1 in
                exec_rule (Moves h d) _ d3 (stays h d d3.table table_eq) λ t written.
                  subst (λ u. RowStep h (find_redeem h u.redeem) (find_redeem h t.redeem)) table_eq
                    (write_prepared-RowStep h s found d3.table t
                      (λ z. hash (sym p_eq ∙ z), (o, os, o_eq ∙ outs), s_eq ∙ status)
                      (rw (key, table_eq) (rw (← same) found_eq)) (rw (key, table_eq) k) written)

prepared_by-Moves :
    (h : Hash) (ev : RedeemPreparedEvent) (redeem : Redeem) (a : ℤ) (d d' : Disk Tables)
    → d'.table ≡ d.table
    → redeem.amount ≡ some a
    → ev.prepare_tx_hash ≢ 0
    → (o : BtcOutpoint) (os : List BtcOutpoint)
    → zip_outpoints ev.outpoint_tx_ids ev.outpoint_idxs ≡ o ∷ os
    → redeem.request_tx_hash ≡ ev.request_tx_hash
    → ((r : RedeemRow)
        → find_redeem ev.request_tx_hash d.table.redeem ≡ some r
        → r.status ≡ requested)
    → Moves h d (update_after_prepared (prepared_by redeem ev) d').1.table
unfolding prepared_by
prepared_by-Moves h ev redeem a d d' same am hash o os outs key k =
    update_after_prepared-Moves h (prepared_by redeem ev) a d d' same am hash o os (ap some outs)
      refl (rw key k)

pub insert_prepared-Moves :
    (h : Hash) (ev : RedeemPreparedEvent) (d d' : Disk Tables)
    → d'.table ≡ d.table
    → find_redeem ev.request_tx_hash d.table.redeem ≡ none
    → Moves h d (insert_prepared ev d').1.table
unfolding insert_prepared
insert_prepared-Moves h ev d d' same missing =
    bind_rule (Moves h d) _ _ d' (table-or_error _ _ d' ∙ table-lift _ d') (stays h d d'.table same)
      λ redeem d1 e1 same1.
        let (created, _) = lift-eq-ok _ d' d1 redeem (or_error-eq-ok _ _ d' d1 redeem e1) in
        let (a, present, positive, updated) = create_prepared-eq-ok ev redeem created in
        let (redeem_eq, hash, ids, idxs, key) =
          update-eq-ok (requested_redeem (requested_by ev a) a) ev redeem updated in
        let (o, os, outs) = zip_outpoints-cons ev.outpoint_tx_ids ev.outpoint_idxs ids idxs in
        rw (table-or_error, redeem_eq)
          (prepared_by-Moves h ev (requested_redeem (requested_by ev a) a) a d d1 (same1 ∙ same)
            refl hash o os outs refl (λ r found. absurd (ground arith)))

update_decoded-Moves :
    (h : Hash) (ev : RedeemPreparedEvent) (row : RedeemRow) (d d' : Disk Tables)
    → d'.table ≡ d.table
    → find_redeem ev.request_tx_hash d.table.redeem ≡ some row
    → row.status ≡ requested
    → Moves h d (update_decoded ev (decode_redeem row) d').1.table
unfolding update_decoded
update_decoded-Moves h ev row d d' same found status =
    bind_rule (Moves h d) _ _ d' (table-or_error _ _ d' ∙ table-lift _ d') (stays h d d'.table same)
      λ redeem d1 e1 same1.
        let (updated, _) = lift-eq-ok _ d' d1 redeem (or_error-eq-ok _ _ d' d1 redeem e1) in
        let (redeem_eq, hash, ids, idxs, key) =
          update-eq-ok (decode_redeem row) ev redeem updated in
        let (o, os, outs) = zip_outpoints-cons ev.outpoint_tx_ids ev.outpoint_idxs ids idxs in
        rw (table-or_error, redeem_eq)
          (prepared_by-Moves h ev (decode_redeem row) (pos row.amount) d d1 (same1 ∙ same)
            (unfold decode_redeem in refl) hash o os outs (sym key) (λ r other. ground arith))

pub update_stored-Moves :
    (h : Hash) (ev : RedeemPreparedEvent) (row : RedeemRow) (d d' : Disk Tables)
    → d'.table ≡ d.table
    → find_redeem ev.request_tx_hash d.table.redeem ≡ some row
    → row.status ≡ requested
    → Moves h d (update_stored ev d').1.table
unfolding update_stored
update_stored-Moves h ev row d d' same found status =
    bind_rule (Moves h d) _ _ d' (table-or_error _ _ d' ∙ table-get_redeem _ d')
      (stays h d d'.table same)
      λ stored d1 e1 same1.
        let stored_eq =
          get_redeem-eq-ok ev.request_tx_hash d' d1 stored (or_error-eq-ok _ _ d' d1 stored e1) in
        rw (stored_eq, same, found) (update_decoded-Moves h ev row d d1 (same1 ∙ same) found status)
