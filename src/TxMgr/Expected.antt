-- ===== src/TxMgr/Expected.antt =====
-- What becomes of the rows of the manager's database when the chain is looked at once: the row by
-- row description that procedureMarkTxStatus is compared with.
use bridge_go_aptos.Prelude.{
  ℕ, subst, ◌≡◌, refl, sym, ap, ap₂, ◌∙◌, Bool, true, false, Option, List, [], ◌∷◌, map, filter,
  if◌then◌else◌, arith, Bool-cases, inl, inr,
}
use bridge_go_aptos.BigInt.{ℤ}
use bridge_go_aptos.Agreement.{
  MonitoredTxStatus, malform, reorg, limbo, pending, success, reverted, timeout,
}
use bridge_go_aptos.State.Redeem.{same_bytes}
use bridge_go_aptos.MgrDb.{
  Rows, MonitoredRow, MonitoredTx, update_where, util_contains, decode_tx, decode_number,
  encode_number,
}
use bridge_go_aptos.MgrDb.Rows.{Absent, IsKeyed, same_bytes_refl, same_bytes_sym}
use bridge_go_aptos.TxMgr.Marking.{pending_statuses, is_expired}

-- Not settled yet.
abbrev pub in_flight : MonitoredTxStatus → Bool
in_flight limbo = true
in_flight pending = true
in_flight _ = false

abbrev pub is_included : MonitoredTxStatus → Bool
is_included success = true
is_included reverted = true
is_included _ = false

abbrev pub in_flight_txs : Rows → List MonitoredTx
in_flight_txs rows = map decode_tx (filter (λ r. util_contains pending_statuses r.tx_status) rows)

pub in_flight_lem : (s : MonitoredTxStatus) → util_contains pending_statuses s ≡ in_flight s
unfolding util_contains
in_flight_lem malform = refl
in_flight_lem limbo = refl
in_flight_lem pending = refl
in_flight_lem success = refl
in_flight_lem reverted = refl
in_flight_lem timeout = refl
in_flight_lem reorg = refl

-- The chain at a moment: what it answers of a transaction, and its latest ledger number.
module _ (chain : List ℕ → MonitoredTxStatus × Option ℤ) (latest : Option ℤ)
    (timeout_tx_ledger_number : ℤ) where
  -- What the row becomes of a transaction sent at `sent` of which the chain answers the pair.
  unfoldable pub answered : MonitoredTxStatus × Option ℤ → Option ℤ → MonitoredRow → MonitoredRow
  answered (status, ledger_num) sent r =
      if is_included status
      then record r { tx_status = status; found = encode_number ledger_num }
      else if is_expired timeout_tx_ledger_number latest sent
      then record r { tx_status = timeout }
      else record r { tx_status = status }

  unfoldable pub expected : MonitoredRow → MonitoredRow
  expected r =
      if in_flight r.tx_status then answered (chain r.tx_identifier) (decode_number r.sent) r else r

  -- The update that is made for a transaction.
  abbrev pub new_row : MonitoredTx → MonitoredRow → MonitoredRow
  new_row tx = answered (chain tx.tx_identifier) tx.sent_blockchain_ledger_number

  unfoldable pub apply_all : List MonitoredTx → Rows → Rows
  apply_all [] rows = rows
  apply_all (tx ∷ txs) rows = apply_all txs (update_where tx.tx_identifier (new_row tx) rows)

  apply_one : List MonitoredTx → MonitoredRow → MonitoredRow
  apply_one [] r = r
  apply_one (tx ∷ txs) r =
      apply_one txs (if same_bytes r.tx_identifier tx.tx_identifier then new_row tx r else r)

  apply_all-cons :
      (txs : List MonitoredTx) (r : MonitoredRow) (rows : Rows)
      → apply_all txs (r ∷ rows) ≡ apply_one txs r ∷ apply_all txs rows
  unfolding apply_all apply_one update_where
  apply_all-cons [] r rows = refl
  apply_all-cons (tx ∷ txs) r rows = apply_all-cons txs _ _

  apply_all-nil : (txs : List MonitoredTx) → apply_all txs [] ≡ []
  unfolding apply_all update_where
  apply_all-nil [] = refl
  apply_all-nil (tx ∷ txs) = apply_all-nil txs

  update_where-Absent :
      (k : List ℕ) (f : MonitoredRow → MonitoredRow) (rows : Rows)
      → Absent k rows
      → update_where k f rows ≡ rows
  unfolding update_where
  update_where-Absent k f [] h = refl
  update_where-Absent k f (r ∷ rows) h =
      rw (h.0) (ap (λ l. r ∷ l) (update_where-Absent k f rows h.1))

  in_flight_txs_in :
      (r : MonitoredRow) (rows : Rows)
      → util_contains pending_statuses r.tx_status ≡ true
      → in_flight_txs (r ∷ rows) ≡ decode_tx r ∷ in_flight_txs rows
  in_flight_txs_in r rows e = rw (e) refl

  in_flight_txs_out :
      (r : MonitoredRow) (rows : Rows)
      → util_contains pending_statuses r.tx_status ≡ false
      → in_flight_txs (r ∷ rows) ≡ in_flight_txs rows
  in_flight_txs_out r rows e = rw (e) refl

  -- Updates for other rows leave a row alone.
  apply_one-Absent :
      (r : MonitoredRow) (rows : Rows)
      → Absent r.tx_identifier rows
      → apply_one (in_flight_txs rows) r ≡ r
  unfolding apply_one decode_tx
  apply_one-Absent r [] h = refl
  apply_one-Absent r (s ∷ rows) h = elim (Bool-cases (util_contains pending_statuses s.tx_status)) [
    | inl e ↦
        ap (λ txs. apply_one txs r) (in_flight_txs_in s rows e)
        ∙ ap (λ b. apply_one (in_flight_txs rows) (if b then new_row (decode_tx s) r else r))
            (same_bytes_sym r.tx_identifier s.tx_identifier ∙ h.0)
        ∙ apply_one-Absent r rows h.1
    | inr e ↦ ap (λ txs. apply_one txs r) (in_flight_txs_out s rows e) ∙ apply_one-Absent r rows h.1
  ]

  tx_identifier-answered :
      (a : MonitoredTxStatus × Option ℤ) (sent : Option ℤ) (r : MonitoredRow)
      → (answered a sent r).tx_identifier ≡ r.tx_identifier
  unfolding answered
  tx_identifier-answered a sent r = ground arith

  apply_one-answered :
      (r : MonitoredRow) (a : MonitoredTxStatus × Option ℤ) (sent : Option ℤ) (rows : Rows)
      → Absent r.tx_identifier rows
      → apply_one (in_flight_txs rows) (answered a sent r) ≡ answered a sent r
  apply_one-answered r a sent rows h =
      apply_one-Absent (answered a sent r) rows
        (subst (λ k. Absent k rows) (sym (tx_identifier-answered a sent r)) h)

  expected_in :
      (r : MonitoredRow)
      → util_contains pending_statuses r.tx_status ≡ true
      → expected r ≡ answered (chain r.tx_identifier) (decode_number r.sent) r
  unfolding expected answered
  expected_in r e = rw (expected, sym (in_flight_lem r.tx_status), e) refl

  expected_out :
      (r : MonitoredRow) → util_contains pending_statuses r.tx_status ≡ false → expected r ≡ r
  unfolding expected
  expected_out r e = rw (expected, sym (in_flight_lem r.tx_status), e) refl

  update_where_self :
      (r : MonitoredRow) (f : MonitoredRow → MonitoredRow) (rows : Rows)
      → Absent r.tx_identifier rows
      → update_where r.tx_identifier f (r ∷ rows) ≡ f r ∷ rows
  unfolding update_where
  update_where_self r f rows h =
      rw (update_where, same_bytes_refl r.tx_identifier)
        (ap (λ l. f r ∷ l) (update_where-Absent r.tx_identifier f rows h))

  pub apply_all-in_flight_txs :
      (rows : Rows) → IsKeyed rows → apply_all (in_flight_txs rows) rows ≡ map expected rows
  unfolding apply_all decode_tx
  apply_all-in_flight_txs [] h = refl
  apply_all-in_flight_txs (r ∷ rows) h =
      elim (Bool-cases (util_contains pending_statuses r.tx_status)) [
        | inl e ↦
            ap (λ txs. apply_all txs (r ∷ rows)) (in_flight_txs_in r rows e)
            ∙ ap (apply_all (in_flight_txs rows))
                (update_where_self r (new_row (decode_tx r)) rows h.0)
            ∙ apply_all-cons (in_flight_txs rows) (new_row (decode_tx r) r) rows
            ∙ ap₂ (◌∷◌)
                (apply_one-answered r (chain r.tx_identifier) (decode_number r.sent) rows h.0
                  ∙ sym (expected_in r e))
                (apply_all-in_flight_txs rows h.1)
        | inr e ↦
            ap (λ txs. apply_all txs (r ∷ rows)) (in_flight_txs_out r rows e)
            ∙ apply_all-cons (in_flight_txs rows) r rows
            ∙ ap₂ (◌∷◌) (apply_one-Absent r rows h.0 ∙ sym (expected_out r e))
                (apply_all-in_flight_txs rows h.1)
      ]
