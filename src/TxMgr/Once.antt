-- ===== src/TxMgr/Once.antt =====
-- chaintxmgr/mgr.go: what is tracked is never submitted again, over any run of the manager.
use bridge_go_aptos.Prelude.{
  ℕ, subst, sym, ap, ◌∙◌, ◌≡◌, ◌≢◌, refl, true, false, some, List, [], ◌∷◌, All, map, filter,
  is_empty, ◌==◌, arith, Bool-cases, inl, inr,
}
use bridge_go_aptos.Go.{Outcome, ok, Outcome-of_ok}
use bridge_go_aptos.BigInt.{ℤ}
use bridge_go_aptos.Agreement.{Hash, MonitoredTxStatus}
use bridge_go_aptos.Sql.{Disk, Exec, query_rows, ◌>>=◌, call_fails}
use bridge_go_aptos.Sql
use bridge_go_aptos.Sql.Laws.{
  Keeps, InFull, InFull-stops_early, keeps_rules, >>=-eq-ok, query_rows-in_full,
}
use bridge_go_aptos.MgrDb.{
  Rows, MonitoredTx, get_monitored_tx_by_ref_identifier, get_monitored_tx_by_status, decode_tx,
}
use bridge_go_aptos.Program.Laws.{Valued, Valued-imp, All-Any, Valued-of_ok, Any}
use bridge_go_aptos.TxMgr.{Call, Outside, World}
use bridge_go_aptos.Program.Laws.{Valued-Any}
use bridge_go_aptos.TxMgr.Tracked.{
  is_tracked, Tracked, submissions_of, Keeps-insert_monitored_tx, Keeps-update_tx_status,
  Keeps-update_found,
}
use bridge_go_aptos.TxMgr.Tracked.{
  Keeps-insert_monitored_tx, Keeps-update_tx_status, Keeps-update_found,
}
use bridge_go_aptos.TxMgr.{
  do_mint, do_prepare, get_latest_ledger_number, is_minted, is_prepared, get_tx_status, sign_async,
  request_outpoints,
}
use bridge_go_aptos.TxMgr.Marking.{pending_statuses}
use bridge_go_aptos.TxMgr.Rules.{Rules, is_submission}
use bridge_go_aptos.TxMgr.Run.{Steps, Holds-Steps}

module _ (h : Hash) (n : ℕ) where
  abbrev pub Counted : List Call → Type 0
  Counted calls = submissions_of h calls ≡ n

  is_empty-filter :
      (rows : Rows)
      → is_tracked h rows ≡ true
      → is_empty (map decode_tx (filter (λ r. r.ref_identifier == h) rows)) ≡ false
  unfolding is_tracked
  is_empty-filter [] t = absurd (cc)
  is_empty-filter (r ∷ rows) t = elim (Bool-cases (r.ref_identifier == h)) [
    | inl e ↦ rw (e) refl
    | inr e ↦ rw (e) (is_empty-filter rows (ground (arith)))
  ]

  Valued-get :
      (k : Hash) (d : Disk Rows)
      → Tracked h d.table
      → InFull d.faults
      → Valued (λ hits. k ≡ h → is_empty hits ≡ false) (get_monitored_tx_by_ref_identifier k d).0
  unfolding get_monitored_tx_by_ref_identifier Sql.pure
  Valued-get k d t full = Valued-of_ok (get_monitored_tx_by_ref_identifier k d) (λ hits d' e p.
      let read = filter (λ r. r.ref_identifier == k) in
      let (rows, d1, q, f) = >>=-eq-ok (query_rows read) _ d d' hits e in
      let (a, _) = query_rows-in_full read d d1 rows (InFull-stops_early d full) q in
      go rows d1 hits d' p a f)
    where
      go :
          (rows : Rows) (d1 : Disk Rows) (hits : List MonitoredTx) (d' : Disk Rows)
          → k ≡ h
          → rows ≡ filter (λ r. r.ref_identifier == k) d.table
          → Sql.pure (map decode_tx rows) d1 ≡ (ok hits, d')
          → is_empty hits ≡ false
      go rows d1 hits d' p a f =
          sym (ap (λ o. is_empty o) (Outcome-of_ok (ap (λ r. r.0) f)))
          ∙ ap (λ l. is_empty (map decode_tx l)) a
          ∙ subst
              (λ x. is_empty (map decode_tx (filter (λ r. r.ref_identifier == x) d.table)) ≡ false)
              (sym p) (is_empty-filter d.table t)

  Keeps-get : (k : Hash) → Keeps (Tracked h) (get_monitored_tx_by_ref_identifier k)
  unfolding get_monitored_tx_by_ref_identifier Sql.pure
  Keeps-get k = search keeps_rules

  Valued-not_found :
      (k : Hash) (o : Outcome (List MonitoredTx))
      → Valued (λ hits. k ≡ h → is_empty hits ≡ false) o
      → Valued (λ hits. is_empty hits ≡ true → k ≢ h) o
  Valued-not_found k o = Valued-imp o (λ hits q e p. absurd (cc (q p, e)))

  Valued-All : (o : Outcome (List MonitoredTx)) → Valued (λ txs. All Any txs) o
  Valued-All o = Valued-imp {Q = Any} o (λ txs _. All-Any txs) (Valued-Any o)

  Keeps-waiting :
      (status : List MonitoredTxStatus) → Keeps (Tracked h) (get_monitored_tx_by_status status)
  unfolding get_monitored_tx_by_status
  Keeps-waiting status = search keeps_rules

  other_call :
      (call : Call) (calls : List Call)
      → is_submission call ≡ false
      → Counted calls
      → Counted (call ∷ calls)
  unfolding submissions_of
  other_call (do_mint mp) calls e c = absurd (cc)
  other_call (do_prepare pp) calls e c = absurd (cc)
  other_call get_latest_ledger_number calls e c = c
  other_call (is_minted k) calls e c = c
  other_call (is_prepared k) calls e c = c
  other_call (get_tx_status k) calls e c = c
  other_call (sign_async k m) calls e c = c
  other_call (request_outpoints k a) calls e c = c

  Tracked-Rules : Rules true (Tracked h) Counted (λ k. k ≢ h) Any
  unfolding submissions_of
  Tracked-Rules = record {
    other = other_call;
    mint = λ mp calls k c. ground (arith, k);
    prepare = λ pp calls k c. ground (arith, k);
    insert = Keeps-insert_monitored_tx h;
    looks_up = Keeps-get;
    not_found = λ k d t full.
        Valued-not_found k (get_monitored_tx_by_ref_identifier k d).0 (Valued-get k d t full);
    waiting = Keeps-waiting pending_statuses;
    waiting_open = λ d t full. Valued-All (get_monitored_tx_by_status pending_statuses d).0;
    set_status = λ k status o. Keeps-update_tx_status h k status;
    write_found = λ k z o. Keeps-update_found h k (some z);
  }

-- Where a transaction with the reference identifier `h` is in the manager's database, no run of the
-- manager's procedures, with any answers of the worker, the signer and the vault, any changes of the
-- tables of state between them, any faults of the database of state, and any faults of the manager's
-- own database but a SELECT that ends early without an error, sends a mint of the deposit `h` or a
-- preparation of the redeem `h` to the chain, and `h` stays in the database.
pub never_submitted_again :
    (outside : Outside) (timeout_tx_ledger_number : ℤ) (h : Hash) (w u : World)
    → Steps true outside timeout_tx_ledger_number w u
    → InFull w.mgrdb.faults
    → is_tracked h w.mgrdb.table ≡ true
    → (submissions_of h u.calls ≡ submissions_of h w.calls) × (is_tracked h u.mgrdb.table ≡ true)
never_submitted_again outside timeout_tx_ledger_number h w u ss full t =
    let k =
      Holds-Steps (Tracked-Rules h (submissions_of h w.calls)) outside timeout_tx_ledger_number ss
        (record { database = t; asked = refl; reads = full }) in
    (k.asked, k.database)
