-- ===== src/TxMgr/Settled.antt =====
-- chaintxmgr/mgr.go: a transaction that is neither limbo nor pending is not written any more.
use bridge_go_aptos.Prelude.{
  ℕ, ◌≡◌, refl, sym, ap, ◌∙◌, subst, true, false, some, List, [], ◌∷◌, All, map, filter, is_empty,
}
use bridge_go_aptos.Go.{Outcome, ok, Outcome-of_ok}
use bridge_go_aptos.BigInt.{ℤ, to_int64}
use bridge_go_aptos.Agreement.{Hash, MonitoredTxStatus}
use bridge_go_aptos.Sql
use bridge_go_aptos.Sql.{Disk, exec, query_rows}
use bridge_go_aptos.Sql.Laws.{
  Keeps, Keeps-exec, keeps_rules, >>=-eq-ok, All-IsFirst, query_rows-eq-ok,
}
use bridge_go_aptos.State.Redeem.{same_bytes}
use bridge_go_aptos.MgrDb.{
  Rows, MonitoredRow, MonitoredTx, find_tx, insert_row, insert_monitored_tx, update_where,
  encode_tx, decode_tx, update_tx_status, update_found, util_contains,
  get_monitored_tx_by_ref_identifier, get_monitored_tx_by_status,
}
use bridge_go_aptos.MgrDb.Rows.{
  IsKeyed, insert_row-eq-ok, find_tx-append, find_tx-none, IsKeyed-append, IsKeyed-update_where,
  find_tx-update_where, different_key,
}
use bridge_go_aptos.Program.Laws.{Any, Valued, Valued-of_ok, Valued-imp}
use bridge_go_aptos.TxMgr.{Outside, World}
use bridge_go_aptos.Program.Laws.{Valued-Any}
use bridge_go_aptos.TxMgr.Marking.{pending_statuses}
use bridge_go_aptos.TxMgr.Expected.{in_flight, in_flight_lem}
use bridge_go_aptos.TxMgr.Rules.{Rules}
use bridge_go_aptos.TxMgr.Run.{Steps, Holds-Steps}

module _ (k : List ℕ) (r : MonitoredRow) where
  abbrev pub Stands : Rows → Type 0
  Stands rows = IsKeyed rows × (find_tx k rows ≡ some r)

  abbrev OtherKey : List ℕ → Type 0
  OtherKey j = same_bytes j k ≡ false

  Keeps-insert : (tx : MonitoredTx) → Keeps Stands (insert_monitored_tx tx)
  unfolding insert_monitored_tx
  Keeps-insert tx = Keeps-exec (insert_row (encode_tx tx)) (λ t u e s.
      let (appended, new) = insert_row-eq-ok (encode_tx tx) t u e in
      subst Stands (sym appended) (
        IsKeyed-append t (encode_tx tx) s.0 (find_tx-none _ t new),
        find_tx-append k t r (encode_tx tx) s.1,
      ))

  Keeps-update :
      (j : List ℕ) (f : MonitoredRow → MonitoredRow)
      → ((s : MonitoredRow) → (f s).tx_identifier ≡ s.tx_identifier)
      → OtherKey j
      → Keeps Stands (exec (λ rows. ok (update_where j f rows)))
  Keeps-update j f e o = Keeps-exec _ (λ t u p s.
      subst Stands (Outcome-of_ok p)
        (IsKeyed-update_where j f e t s.0, find_tx-update_where j f e k t r o s.1))

  Keeps-set_status :
      (j : List ℕ) (status : MonitoredTxStatus)
      → OtherKey j
      → Keeps Stands (update_tx_status j status)
  unfolding update_tx_status
  Keeps-set_status j status o = Keeps-update j (λ s. record s { tx_status = status }) (λ s. refl) o

  Keeps-set_found : (j : List ℕ) (z : ℤ) → OtherKey j → Keeps Stands (update_found j (some z))
  unfolding update_found
  Keeps-set_found j z o = Keeps-update j (λ s. record s { found = to_int64 z }) (λ s. refl) o

  Keeps-lookup : (h : Hash) → Keeps Stands (get_monitored_tx_by_ref_identifier h)
  unfolding get_monitored_tx_by_ref_identifier
  Keeps-lookup h = search keeps_rules

  Keeps-waiting : Keeps Stands (get_monitored_tx_by_status pending_statuses)
  unfolding get_monitored_tx_by_status
  Keeps-waiting = search keeps_rules

  All-decode_tx :
      (rows : Rows)
      → All (λ s. OtherKey s.tx_identifier) rows
      → All (λ tx. OtherKey tx.tx_identifier) (map decode_tx rows)
  unfolding decode_tx
  All-decode_tx [] h = tt
  All-decode_tx (s ∷ rows) h = (h.0, All-decode_tx rows h.1)

  module _ (settled : in_flight r.tx_status ≡ false) where
    Valued-waiting :
        (d : Disk Rows)
        → Stands d.table
        → Valued
            (λ txs. All (λ tx. OtherKey tx.tx_identifier) txs)
            (get_monitored_tx_by_status pending_statuses d).0
    unfolding get_monitored_tx_by_status Sql.pure
    Valued-waiting d s = Valued-of_ok (get_monitored_tx_by_status pending_statuses d) (λ txs d' e.
        let read = filter (λ r. util_contains pending_statuses r.tx_status) in
        let (rows, d1, q, f) = >>=-eq-ok (query_rows read) _ d d' txs e in
        let (first, _) = query_rows-eq-ok read d d1 rows q in
        subst (All (λ tx. OtherKey tx.tx_identifier)) (Outcome-of_ok (ap (λ r. r.0) f)) (
          All-decode_tx rows (
            All-IsFirst (λ s. OtherKey s.tx_identifier) rows (read d.table) first
              (different_key k (λ r. util_contains pending_statuses r.tx_status) d.table r s.0 s.1
                (in_flight_lem r.tx_status ∙ settled)))))

    Valued-lookup :
        (h : Hash) (o : Outcome (List MonitoredTx))
        → Valued (λ hits. is_empty hits ≡ true → Any h) o
    Valued-lookup h o = Valued-imp {Q = Any} o (λ _ _ _. tt) (Valued-Any o)

    Stands-Rules : Rules false Stands Any Any OtherKey
    Stands-Rules = record {
      other = λ call calls e c. tt;
      mint = λ mp calls n c. tt;
      prepare = λ pp calls n c. tt;
      insert = Keeps-insert;
      looks_up = Keeps-lookup;
      not_found = λ h d s _. Valued-lookup h (get_monitored_tx_by_ref_identifier h d).0;
      waiting = Keeps-waiting;
      waiting_open = λ d s _. Valued-waiting d s;
      set_status = Keeps-set_status;
      write_found = Keeps-set_found;
    }

-- Where the rows of the manager's database have distinct identifiers, they keep them distinct over
-- any run, with any answers, faults and changes of state, and the row of a transaction whose status
-- is neither limbo nor pending stays exactly what it is.
pub settled_is_final :
    (outside : Outside) (timeout_tx_ledger_number : ℤ) (k : List ℕ) (r : MonitoredRow) (w u : World)
    → Steps false outside timeout_tx_ledger_number w u
    → IsKeyed w.mgrdb.table
    → find_tx k w.mgrdb.table ≡ some r
    → in_flight r.tx_status ≡ false
    → IsKeyed u.mgrdb.table × (find_tx k u.mgrdb.table ≡ some r)
settled_is_final outside timeout_tx_ledger_number k r w u ss keyed found settled =
    let h =
      Holds-Steps (Stands-Rules k r settled) outside timeout_tx_ledger_number ss
        (record { database = (keyed, found); asked = tt; reads = tt }) in
    h.database
