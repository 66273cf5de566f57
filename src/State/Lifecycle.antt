-- ===== src/State/Lifecycle.antt =====
-- The life of a redeem in the tables, as the handlers of state/state.go write it.
use bridge_go_aptos.Prelude.{
  ◌<◌, ◌≡◌, ◌≢◌, refl, ◌∙◌, true, Option, none, some, List, ◌∷◌, inl, inr, Bool-cases, Option-cases,
  arith,
}
use bridge_go_aptos.Go.{ok}
use bridge_go_aptos.BigInt.{ℤ, to_uint64, is_positive}
use bridge_go_aptos.Agreement.{Hash, BtcOutpoint, RedeemRequestedEvent}
use bridge_go_aptos.Sql.{Disk, pure}
use bridge_go_aptos.Sql.Laws.{
  table-lift, bind_rule, exec_rule, or_error-eq-ok, table-or_error, lift-eq-ok, table-prepare,
}
use bridge_go_aptos.State.Redeem.{
  requested_redeem, Redeem, RedeemStatus, requested, prepared, completed,
  create_redeem_from_requested_event,
}
use bridge_go_aptos.State.Tables.{Tables, RedeemRow, SqlRedeem, encode_redeem, redeem_row_allowed}
use bridge_go_aptos.State.RedeemDb.{
  find_redeem, insert_or_ignore, insert_after_requested, requested_row, insert_redeem,
}
use bridge_go_aptos.State.Handlers.{insert_requested, handle_requested}
use bridge_go_aptos.State.Rows.{find_redeem-insert, table-has_redeem}

-- What the columns of a row say to each other, by the status.
abbrev pub IsConsistent :
    RedeemStatus → Option Hash → Option Hash → Option (List BtcOutpoint) → Type 0
IsConsistent prepared p b os =
    (b ≡ none)
    × ((h : Hash) × (p ≡ some h) × (h ≢ 0))
    × ((o : BtcOutpoint) × (rest : List BtcOutpoint) × (os ≡ some (o ∷ rest)))
IsConsistent completed p b os = ⊥
IsConsistent _ p b os = (p ≡ none) × (b ≡ none) × (os ≡ none)

abbrev pub RowIsConsistent : RedeemRow → Type 0
RowIsConsistent r = IsConsistent r.status r.prepare_tx_hash r.btc_tx_id r.outpoints

-- The changes of the row of one redeem.
pub data RowStep (h : Hash) : Option RedeemRow → Option RedeemRow → Type 0 where
  -- nothing is written
  stay : (o : Option RedeemRow) → RowStep h o o
  -- the row is made, as requested, invalid or prepared
  create :
      (r : RedeemRow)
      → r.request_tx_hash ≡ h
      → 0 < r.amount
      → RowIsConsistent r
      → RowStep h none (some r)
  -- a requested redeem is prepared: all other columns stay
  prepares :
      (r : RedeemRow) (p : Hash) (o : BtcOutpoint) (os : List BtcOutpoint)
      → r.status ≡ requested
      → p ≢ 0
      → RowStep h (some r) (
          some
            (record r { prepare_tx_hash = some p; outpoints = some (o ∷ os); status = prepared }))

-- From the row before to the row after.
abbrev pub Moves : Hash → Disk Tables → Tables → Type 0
Moves h d t = RowStep h (find_redeem h d.table.redeem) (find_redeem h t.redeem)

pub stays : (h : Hash) (d : Disk Tables) (t : Tables) → t ≡ d.table → Moves h d t
stays h d t e = rw e (stay _)

pub insert_redeem-eq-ok :
    (t t' : Tables) (r : RedeemRow)
    → insert_redeem r t ≡ ok t'
    → t'.redeem ≡ insert_or_ignore r t.redeem
insert_redeem-eq-ok t t' r e = ground arith

pub insert-RowStep :
    (h : Hash) (t t' : Tables) (r : RedeemRow)
    → RowIsConsistent r
    → insert_redeem r t ≡ ok t'
    → RowStep h (find_redeem h t.redeem) (find_redeem h t'.redeem)
unfolding redeem_row_allowed
insert-RowStep h t t' r c e = elim (find_redeem-insert h t.redeem r) [
  | inl same ↦ rw (insert_redeem-eq-ok t t' r e, same) (stay _)
  | inr (missing, made, key, allowed) ↦
      rw (insert_redeem-eq-ok t t' r e, missing, made) (create r key (ground arith) c)
]

pub create-eq-ok :
    (ev : RedeemRequestedEvent) (r : Redeem)
    → create_redeem_from_requested_event ev ≡ ok r
    → (a : ℤ) × (ev.amount ≡ some a) × (is_positive a ≡ true) × (r ≡ requested_redeem ev a)
unfolding create_redeem_from_requested_event
create-eq-ok ev r e = elim (Option-cases ev.amount) [
  | inl missing ↦ absurd (ground arith)
  | inr (a, present) ↦ (a, present, ground arith, ground arith)
]

pub encode_redeem-eq-ok :
    (r : Redeem) (a : ℤ) (s : SqlRedeem)
    → r.amount ≡ some a
    → encode_redeem r ≡ ok s
    → (s.request_tx_hash ≡ r.request_tx_hash)
      × (s.prepare_tx_hash ≡ r.prepare_tx_hash)
      × (s.outpoints ≡ r.outpoints)
      × (s.status ≡ r.status)
      × (s.amount ≡ to_uint64 a)
unfolding encode_redeem
encode_redeem-eq-ok r a s p e = ground arith

pub requested_IsConsistent :
    (ev : RedeemRequestedEvent) (a : ℤ) → IsConsistent (requested_redeem ev a).status none none none
requested_IsConsistent ev a = elim (Bool-cases ev.is_valid_receiver) [
  | inl e ↦ rw e (refl, refl, refl)
  | inr e ↦ rw e (refl, refl, refl)
]

pub insert_after_requested-Moves :
    (h : Hash) (ev : RedeemRequestedEvent) (a : ℤ) (d d' : Disk Tables)
    → d'.table ≡ d.table
    → Moves h d (insert_after_requested (requested_redeem ev a) d').1.table
unfolding insert_after_requested
insert_after_requested-Moves h ev a d d' same =
    bind_rule (Moves h d) _ _ d' (table-prepare d') (stays h d d'.table same) λ x d1 e1 same1.
      bind_rule (Moves h d) _ _ d1 (table-lift _ d1) (stays h d d1.table (same1 ∙ same))
        λ s d2 e2 same2.
          let (encoded, e3) = lift-eq-ok _ d1 d2 s e2 in
          let (_, _, _, status_eq, _) =
            encode_redeem-eq-ok (requested_redeem ev a) a s refl encoded in
          exec_rule (Moves h d) _ d2 (stays h d d2.table (same2 ∙ same1 ∙ same)) λ t written.
            let table_eq = same2 ∙ same1 ∙ same in
            rw (← table_eq) (
              insert-RowStep h d2.table t (requested_row s)
                (rw status_eq (requested_IsConsistent ev a)) written)

pub insert_requested-Moves :
    (h : Hash) (ev : RedeemRequestedEvent) (o : Option RedeemStatus) (d d' : Disk Tables)
    → d'.table ≡ d.table
    → Moves h d (insert_requested ev o d').1.table
insert_requested-Moves h ev (some status) d d' same = unfold pure in stays h d d'.table same
insert_requested-Moves h ev none d d' same =
    bind_rule (Moves h d) _ _ d' (table-or_error _ _ d' ∙ table-lift _ d') (stays h d d'.table same)
      λ redeem d1 e1 same1.
        let (created, _) = lift-eq-ok _ d' d1 redeem (or_error-eq-ok _ _ d' d1 redeem e1) in
        let (a, _, _, redeem_eq) = create-eq-ok ev redeem created in
        rw (table-or_error, redeem_eq) (insert_after_requested-Moves h ev a d d1 (same1 ∙ same))

pub handle_requested-Moves :
    (h : Hash) (ev : RedeemRequestedEvent) (d : Disk Tables)
    → Moves h d (handle_requested ev d).1.table
unfolding handle_requested
handle_requested-Moves h ev d =
    bind_rule (Moves h d) _ _ d (table-or_error _ _ d ∙ table-has_redeem _ d) (stay _)
      λ o d1 e1 same1. insert_requested-Moves h ev o d d1 same1
