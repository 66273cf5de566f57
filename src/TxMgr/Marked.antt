-- ===== src/TxMgr/Marked.antt =====
-- chaintxmgr/mgr.go: procedureMarkTxStatus where no call fails, against the row by row description.
use bridge_go_aptos.Prelude.{
  ℕ, ◌≡◌, refl, sym, ap, ◌∙◌, Bool, true, false, Option, some, List, [], ◌∷◌, map, if◌then◌else◌,
  arith, Bool-cases, inl, inr,
}
use bridge_go_aptos.Go.{ok}
use bridge_go_aptos.BigInt.{ℤ, to_int64}
use bridge_go_aptos.Agreement.{
  MonitoredTxStatus, malform, limbo, pending, success, reverted, timeout, reorg,
}
use bridge_go_aptos.Sql
use bridge_go_aptos.Sql.{Disk, Exec, exec, query_rows}
use bridge_go_aptos.State.Tables.{Tables}
use bridge_go_aptos.State.Redeem.{same_bytes}
use bridge_go_aptos.MgrDb.{
  Rows, MonitoredRow, MonitoredTx, update_where, util_contains, encode_number, update_tx_status,
  update_found, get_monitored_tx_by_status,
}
use bridge_go_aptos.MgrDb.Rows.{IsKeyed}
use bridge_go_aptos.Program.{Prog, for_each, ◌>>=◌, attempt, lift, on, pure}
use bridge_go_aptos.TxMgr.{
  Call, get_latest_ledger_number, get_tx_status, Outside, World, ask, in_mgrdb,
}
use bridge_go_aptos.TxMgr.Marking.{
  included_statuses, is_expired, mark_tx, mark_timeout, set_found_number, procedure_mark_tx_status,
}
use bridge_go_aptos.TxMgr.Expected.{
  answered, expected, new_row, apply_all, in_flight_txs, apply_all-in_flight_txs, is_included,
}

-- What the worker answers does not change: `chain` of a transaction, and the number `latest`. A
-- transaction that is included has a ledger number.
pub record Still (outside : Outside) (chain : List ℕ → MonitoredTxStatus × Option ℤ)
    (latest : Option ℤ) : Type 0 where
  pub tx_status : (calls : List Call) (id : List ℕ) → outside.tx_status calls id ≡ ok (chain id)
  pub latest_number : (calls : List Call) → outside.latest_ledger_number calls ≡ ok latest
  pub included : (id : List ℕ) → is_included (chain id).0 ≡ true → (z : ℤ) × ((chain id).1 ≡ some z)

abbrev world : Disk Tables → Rows → List Call → World
world d rows calls = record {
  statedb = d;
  mgrdb = record { table = rows; faults = [] };
  calls = calls;
}

included_lem : (s : MonitoredTxStatus) → util_contains included_statuses s ≡ is_included s
unfolding util_contains
included_lem malform = refl
included_lem limbo = refl
included_lem pending = refl
included_lem success = refl
included_lem reverted = refl
included_lem timeout = refl
included_lem reorg = refl

update_where-twice :
    (k : List ℕ) (f g e : MonitoredRow → MonitoredRow) (rows : Rows)
    → ((r : MonitoredRow) → (g r).tx_identifier ≡ r.tx_identifier)
    → ((r : MonitoredRow) → f (g r) ≡ e r)
    → update_where k f (update_where k g rows) ≡ update_where k e rows
unfolding update_where
update_where-twice k f g e [] h q = refl
update_where-twice k f g e (r ∷ rows) h q = elim (Bool-cases (same_bytes r.tx_identifier k)) [
  | inl p ↦ grind (arith, h r, q r, p, update_where-twice k f g e rows h q)
  | inr p ↦ grind (arith, p, update_where-twice k f g e rows h q)
]

update_where_id : (k : List ℕ) (rows : Rows) → update_where k (λ r. r) rows ≡ rows
unfolding update_where
update_where_id k [] = refl
update_where_id k (r ∷ rows) = elim (Bool-cases (same_bytes r.tx_identifier k)) [
  | inl p ↦ rw (p) (ap (λ l. r ∷ l) (update_where_id k rows))
  | inr p ↦ rw (p) (ap (λ l. r ∷ l) (update_where_id k rows))
]

module _ (outside : Outside) (chain : List ℕ → MonitoredTxStatus × Option ℤ) (latest : Option ℤ)
    (timeout_tx_ledger_number : ℤ) (still : Still outside chain latest) where
  -- `m` ends without an error, and makes the rows `rows'`.
  abbrev Makes : Prog World (Unit {0}) → Disk Tables → Rows → List Call → Rows → Type 0
  Makes m d rows calls rows' =
      (calls' : List Call) × (m (world d rows calls) ≡ (ok tt, world d rows' calls'))

  abbrev row_of : MonitoredTx → MonitoredRow → MonitoredRow
  row_of = new_row chain latest timeout_tx_ledger_number

  mark_timeout_lem :
      (tx : MonitoredTx) (d : Disk Tables) (rows : Rows) (calls : List Call)
      → is_expired timeout_tx_ledger_number latest tx.sent_blockchain_ledger_number ≡ true
      → Makes
          (mark_timeout outside timeout_tx_ledger_number tx)
          d
          rows
          calls
          (update_where tx.tx_identifier (λ r. record r { tx_status = timeout }) rows)
  unfolding mark_timeout ask in_mgrdb update_tx_status exec ◌>>=◌ on pure
  mark_timeout_lem tx d rows calls e =
      (get_latest_ledger_number ∷ calls, rw (still.latest_number calls, e) refl)

  mark_timeout_not_expired :
      (tx : MonitoredTx) (d : Disk Tables) (rows : Rows) (calls : List Call)
      → is_expired timeout_tx_ledger_number latest tx.sent_blockchain_ledger_number ≡ false
      → Makes (mark_timeout outside timeout_tx_ledger_number tx) d rows calls rows
  unfolding mark_timeout ask ◌>>=◌ pure
  mark_timeout_not_expired tx d rows calls e =
      (get_latest_ledger_number ∷ calls, rw (still.latest_number calls, e) refl)

  set_found_number_lem :
      (tx_id : List ℕ) (z : ℤ) (d : Disk Tables) (rows : Rows) (calls : List Call)
      → Makes
          (set_found_number tx_id (some z))
          d
          rows
          calls
          (update_where tx_id (λ r. record r { found = to_int64 z }) rows)
  unfolding set_found_number in_mgrdb update_found exec ◌>>=◌ on lift
  set_found_number_lem tx_id z d rows calls = (calls, refl)

  -- The rest of the body, after the answer and the first update.
  abbrev finish : Bool → MonitoredTx → Prog World (Unit {0})
  finish b tx =
      if b
      then set_found_number tx.tx_identifier (chain tx.tx_identifier).1
      else mark_timeout outside timeout_tx_ledger_number tx

  abbrev status_row : MonitoredTx → MonitoredRow → MonitoredRow
  status_row tx r = record r { tx_status = (chain tx.tx_identifier).0 }

  mark_tx-finish :
      (tx : MonitoredTx) (b : Bool) (d : Disk Tables) (rows : Rows) (calls : List Call)
      → is_included (chain tx.tx_identifier).0 ≡ b
      → mark_tx outside timeout_tx_ledger_number tx (world d rows calls)
        ≡ finish b tx (
            world d
              (update_where tx.tx_identifier (status_row tx) rows)
              (get_tx_status tx.tx_identifier ∷ calls))
  unfolding mark_tx ask in_mgrdb update_tx_status exec ◌>>=◌ on
  mark_tx-finish tx b d rows calls e =
      rw (still.tx_status calls tx.tx_identifier, included_lem (chain tx.tx_identifier).0, e) refl

  row_of_included :
      (tx : MonitoredTx) (z : ℤ) (r : MonitoredRow)
      → is_included (chain tx.tx_identifier).0 ≡ true
      → (chain tx.tx_identifier).1 ≡ some z
      → record (status_row tx r) { found = to_int64 z } ≡ row_of tx r
  unfolding answered encode_number
  row_of_included tx z r e f = rw (e, f) refl

  row_of_expired :
      (tx : MonitoredTx) (r : MonitoredRow)
      → is_included (chain tx.tx_identifier).0 ≡ false
      → is_expired timeout_tx_ledger_number latest tx.sent_blockchain_ledger_number ≡ true
      → record (status_row tx r) { tx_status = timeout } ≡ row_of tx r
  unfolding answered
  row_of_expired tx r e f = rw (e, f) refl

  row_of_waiting :
      (tx : MonitoredTx) (r : MonitoredRow)
      → is_included (chain tx.tx_identifier).0 ≡ false
      → is_expired timeout_tx_ledger_number latest tx.sent_blockchain_ledger_number ≡ false
      → status_row tx r ≡ row_of tx r
  unfolding answered
  row_of_waiting tx r e f = rw (e, f) refl

  -- The two updates of one row are one.
  two_updates :
      (tx : MonitoredTx) (f : MonitoredRow → MonitoredRow) (b : Bool) (d : Disk Tables)
      (rows : Rows) (calls : List Call)
      → is_included (chain tx.tx_identifier).0 ≡ b
      → ((r : MonitoredRow) → f (status_row tx r) ≡ row_of tx r)
      → ((rows1 : Rows) (calls1 : List Call)
          → Makes (finish b tx) d rows1 calls1 (update_where tx.tx_identifier f rows1))
      → Makes
          (mark_tx outside timeout_tx_ledger_number tx)
          d
          rows
          calls
          (update_where tx.tx_identifier (row_of tx) rows)
  two_updates tx f b d rows calls e q m =
      let (cs, p) =
        m (update_where tx.tx_identifier (status_row tx) rows)
          (get_tx_status tx.tx_identifier ∷ calls) in
      (
        cs,
        mark_tx-finish tx b d rows calls e
            ∙ p
            ∙ ap (λ l. (ok tt, world d l cs))
                (update_where-twice tx.tx_identifier f (status_row tx) (row_of tx) rows (λ r. refl)
                  q),
      )

  mark_tx_lem :
      (tx : MonitoredTx) (d : Disk Tables) (rows : Rows) (calls : List Call)
      → Makes
          (mark_tx outside timeout_tx_ledger_number tx)
          d
          rows
          calls
          (update_where tx.tx_identifier (row_of tx) rows)
  mark_tx_lem tx d rows calls = elim (Bool-cases (is_included (chain tx.tx_identifier).0)) [
    | inl e ↦
        let (z, f) = still.included tx.tx_identifier e in
        two_updates tx (λ r. record r { found = to_int64 z }) true d rows calls e
          (λ r. row_of_included tx z r e f)
          (λ rows1 calls1. rw (f) (set_found_number_lem tx.tx_identifier z d rows1 calls1))
    | inr e ↦
        elim (Bool-cases
          (is_expired timeout_tx_ledger_number latest tx.sent_blockchain_ledger_number)) [
            | inl f ↦
                two_updates tx (λ r. record r { tx_status = timeout }) false d rows calls e
                  (λ r. row_of_expired tx r e f)
                  (λ rows1 calls1. mark_timeout_lem tx d rows1 calls1 f)
            | inr f ↦
                two_updates tx (λ r. r) false d rows calls e (λ r. row_of_waiting tx r e f)
                  (λ rows1 calls1.
                    let (cs, p) = mark_timeout_not_expired tx d rows1 calls1 f in
                    (
                      cs,
                      p
                          ∙ ap (λ l. (ok tt, world d l cs))
                              (sym (update_where_id tx.tx_identifier rows1)),
                    ))
          ]
  ]

  for_each-mark_tx :
      (txs : List MonitoredTx) (d : Disk Tables) (rows : Rows) (calls : List Call)
      → Makes
          (for_each (mark_tx outside timeout_tx_ledger_number) txs)
          d
          rows
          calls
          (apply_all chain latest timeout_tx_ledger_number txs rows)
  unfolding for_each apply_all attempt ◌>>=◌ pure
  for_each-mark_tx [] d rows calls = (calls, refl)
  for_each-mark_tx (tx ∷ txs) d rows calls =
      let (cs, p) = mark_tx_lem tx d rows calls in
      let (cs', q) = for_each-mark_tx txs d (update_where tx.tx_identifier (row_of tx) rows) cs in
      (cs', rw (p) q)

  -- Where no call of the database fails, the worker's answers stay what they are, every transaction
  -- that is included has a ledger number, and the rows have distinct identifiers,
  -- procedureMarkTxStatus ends without an error, leaves the tables of state alone, and makes of each
  -- row what `expected` says: a row that is neither limbo nor pending stays as it is, an included
  -- transaction has its status and the number it was found at, another is timed out where the latest
  -- ledger number has reached its time-out, and otherwise has the status that was answered.
  pub procedure_mark_tx_status-expected :
      (d : Disk Tables) (rows : Rows) (calls : List Call)
      → IsKeyed rows
      → (calls' : List Call) × (procedure_mark_tx_status outside timeout_tx_ledger_number
            (record { statedb = d; mgrdb = record { table = rows; faults = [] }; calls = calls })
          ≡ (
            ok tt,
            record {
              statedb = d;
              mgrdb = record {
                table = map (expected chain latest timeout_tx_ledger_number) rows;
                faults = [];
              };
              calls = calls';
            },
          ))
  unfolding procedure_mark_tx_status in_mgrdb get_monitored_tx_by_status query_rows ◌>>=◌ Sql.◌>>=◌
      on Sql.pure
  procedure_mark_tx_status-expected d rows calls k =
      let (cs, p) = for_each-mark_tx (in_flight_txs rows) d rows calls in
      (
        cs,
        p
            ∙ ap (λ l. (ok tt, world d l cs))
                (apply_all-in_flight_txs chain latest timeout_tx_ledger_number rows k),
      )
