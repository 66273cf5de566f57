-- ===== src/Withdraw/Once.antt =====
-- btctxmanager/withdraw.go: a redeem that is tracked is not paid again.
use bridge_go_aptos.Prelude.{
  ℕ, ◌+◌, ◌≡◌, ◌≢◌, refl, sym, ap, ◌∙◌, subst, Bool, true, false, String, List, [], ◌∷◌, ◌++◌,
  if◌then◌else◌, ◌==◌, arith, Bool-cases, inl, inr,
}
use bridge_go_aptos.Go.{ok, err, Outcome-of_ok, constraint_failed}
use bridge_go_aptos.Agreement.{Hash, BtcOutpoint}
use bridge_go_aptos.Sql.{Disk, Exec, Fault, query, exec}
use bridge_go_aptos.Sql.Laws.{
  Keeps, Keeps-exec, Keeps-query, Keeps-bind, Keeps-if, Keeps-pure, query-eq-ok,
}
use bridge_go_aptos.State.Redeem.{Redeem}
use bridge_go_aptos.State.Tables.{Tables}
use bridge_go_aptos.Vault.Storage
use bridge_go_aptos.BtcTx.{MsgTx}
use bridge_go_aptos.BtcAction.Redeems
use bridge_go_aptos.BtcAction.Redeems.{
  RedeemAction, any_row, has_id, sent_row, insert_row, set_mined, has_redeem, insert_redeem,
  complete_redeem, query_by_eth_request_tx_id, if_not_mined,
}
use bridge_go_aptos.Program.{on}
use bridge_go_aptos.Program.Laws.{
  Valued, Any, All-Any, Valued-of_ok, Ensures, Ensures-pure, Ensures-bind, Ensures-attempt,
  Ensures-lift, Ensures-if, Ensures-for_each,
}
use bridge_go_aptos.Program.Laws.{Valued-Any}
use bridge_go_aptos.Withdraw.{
  World, Outside, in_statedb, in_vault, in_mgr_state, request_id, fetch_utxos, collect_utxos,
  outpoints_of, create_btc_redeem_tx, send_raw_tx, withdraw_btc, note_tracked, withdraw_new,
  process_redeem, withdraw_round,
}

abbrev counted : Bool → ℕ
counted true = 1
counted false = 0

-- How many of the transactions sent pay the redeem `h`.
unfoldable pub payments_of : Hash → List (Hash × MsgTx) → ℕ
payments_of h [] = 0
payments_of h ((k, tx) ∷ sent) = counted (k == h) + payments_of h sent

any_row-append :
    (p : RedeemAction → Bool) (rows : Redeems.Rows) (r : RedeemAction)
    → any_row p rows ≡ true
    → any_row p (rows ++ r ∷ []) ≡ true
unfolding any_row
any_row-append p [] r h = absurd (cc)
any_row-append p (s ∷ rows) r h = ground (arith, any_row-append p rows r)

any_row-set_mined :
    (id j : String) (rows : Redeems.Rows)
    → any_row (has_id id) rows ≡ true
    → any_row (has_id id) (set_mined j rows) ≡ true
unfolding any_row set_mined
any_row-set_mined id j [] h = h
any_row-set_mined id j (r ∷ rows) h = ground (arith, any_row-set_mined id j rows)

module _ (id : String) where
  abbrev pub Tracked : Redeems.Rows → Type 0
  Tracked rows = any_row (has_id id) rows ≡ true

  Keeps-insert_redeem : (r : RedeemAction) → Keeps Tracked (insert_redeem r)
  unfolding insert_redeem insert_row
  Keeps-insert_redeem r = Keeps-exec (insert_row r) (λ t u e k. go t u e k)
    where
      go : (t u : Redeems.Rows) → insert_row r t ≡ ok u → Tracked t → Tracked u
      go t u e k = elim (Bool-cases (any_row (has_id r.eth_request_tx_id) t)) [
        | inl p ↦ absurd (ground arith)
        | inr p ↦
            subst Tracked
              (Outcome-of_ok (
                sym (ap (λ b. if b then err constraint_failed else ok (t ++ sent_row r ∷ [])) p)
                ∙ e))
              (any_row-append (has_id id) t (sent_row r) k)
      ]

  Keeps-set_mined : (j : String) → Keeps Tracked (exec (λ rows. ok (set_mined j rows)))
  Keeps-set_mined j =
      Keeps-exec _ (λ t u e k. subst Tracked (Outcome-of_ok e) (any_row-set_mined id j t k))

  Keeps-complete_redeem : (j : String) → Keeps Tracked (complete_redeem j)
  unfolding complete_redeem if_not_mined
  Keeps-complete_redeem j =
      Keeps-bind _ _ (Keeps-query _) (λ b. Keeps-if b _ _ (Keeps-set_mined j) (Keeps-pure tt))

module _ (outside : Outside) (h : Hash) (n : ℕ) where
  -- The redeem `h` is tracked, and `n` transactions were sent for it.
  pub record Paid (w : World) : Type 0 where
    pub tracked : Tracked (request_id outside h) w.mgr_state.table
    pub payments : payments_of h w.sent ≡ n

  module _ {A : Type 0} {Q : A → Type 0} where
    Ensures-in_mgr_state :
        (m : Exec Redeems.Rows A)
        → Keeps (Tracked (request_id outside h)) m
        → ((d : Disk Redeems.Rows) → Tracked (request_id outside h) d.table → Valued Q (m d).0)
        → Ensures Paid (in_mgr_state m) Q
    unfolding in_mgr_state on
    Ensures-in_mgr_state m k q = record {
      at = λ w p. (
        record { tracked = k.at w.mgr_state p.tracked; payments = p.payments },
        q w.mgr_state p.tracked,
      );
    }

    Ensures-in_vault :
        (m : Exec Storage.Rows A)
        → ((d : Disk Storage.Rows) → Valued Q (m d).0)
        → Ensures Paid (in_vault m) Q
    unfolding in_vault on
    Ensures-in_vault m q = record {
      at = λ w p. (record { tracked = p.tracked; payments = p.payments }, q w.vault);
    }

    Ensures-in_statedb :
        (m : Exec Tables A) → ((d : Disk Tables) → Valued Q (m d).0) → Ensures Paid (in_statedb m) Q
    unfolding in_statedb on
    Ensures-in_statedb m q = record {
      at = λ w p. (record { tracked = p.tracked; payments = p.payments }, q w.statedb);
    }

  Ensures-fetch_utxos : (os : List BtcOutpoint) → Ensures Paid (fetch_utxos outside os) Any
  unfolding fetch_utxos
  Ensures-fetch_utxos [] = Ensures-pure [] tt
  Ensures-fetch_utxos (o ∷ os) =
      Ensures-bind {Q = Any} _ _ (Ensures-in_vault _ (λ d. Valued-Any _))
        (λ u _. Ensures-bind _ _ (Ensures-fetch_utxos os) (λ us _. Ensures-pure _ tt))

  Ensures-create_btc_redeem_tx : (r : Redeem) → Ensures Paid (create_btc_redeem_tx outside r) Any
  unfolding create_btc_redeem_tx collect_utxos
  Ensures-create_btc_redeem_tx r =
      Ensures-bind {Q = Any} _ _
        (Ensures-bind _ _ (Ensures-fetch_utxos (outpoints_of outside r.outpoints))
          (λ us _. Ensures-pure _ tt))
        (λ us _.
          Ensures-bind {Q = Any} _ _ (Ensures-lift _ (Valued-Any _))
            (λ a _. Ensures-lift _ (Valued-Any _)))

  Ensures-withdraw_btc :
      (r : Redeem) → r.request_tx_hash ≢ h → Ensures Paid (withdraw_btc outside r) Any
  unfolding withdraw_btc send_raw_tx payments_of
  Ensures-withdraw_btc r k = Ensures-bind _ _ (Ensures-create_btc_redeem_tx r) (λ tx _. record {
    at = λ w p.
        (record { tracked = p.tracked; payments = ground (arith, p.payments, k) }, Valued-Any _);
  })

  Ensures-withdraw_new :
      (r : Redeem) → r.request_tx_hash ≢ h → Ensures Paid (withdraw_new outside r) Any
  unfolding withdraw_new
  Ensures-withdraw_new r k = Ensures-bind {Q = Any} _ _ (Ensures-lift _ (Valued-Any _)) (λ _ _.
      Ensures-bind _ _ (Ensures-withdraw_btc r k) (λ tx_id _.
        Ensures-in_mgr_state _ (Keeps-insert_redeem (request_id outside h) _)
          (λ d _. Valued-Any _)))

  Ensures-note_tracked : (j : String) → Ensures Paid (note_tracked outside j) Any
  unfolding note_tracked query_by_eth_request_tx_id
  Ensures-note_tracked j =
      Ensures-bind _ _
        (Ensures-attempt {Q = Any} _ (Ensures-in_mgr_state _ (Keeps-query _) (λ d _. Valued-Any _)))
        (λ ra _. Ensures-lift _ (Valued-Any _))

  -- A redeem that is not found is another one.
  Valued-has_redeem :
      (k : Hash) (d : Disk Redeems.Rows)
      → Tracked (request_id outside h) d.table
      → Valued (λ b. b ≡ false → k ≢ h) (has_redeem (request_id outside k) d).0
  unfolding has_redeem
  Valued-has_redeem k d t =
      Valued-of_ok (query (any_row (has_id (request_id outside k))) d) (λ b d' e f p. absurd (
        true_not_false (
          sym t
          ∙ ap (λ j. any_row (has_id (request_id outside j)) d.table) (sym p)
          ∙ sym (query-eq-ok (any_row (has_id (request_id outside k))) d d' b e).0
          ∙ f)))
    where
      true_not_false : true ≡ false → ⊥
      true_not_false q = cc

  Ensures-process_redeem : (r : Redeem) → Ensures Paid (process_redeem outside r) Any
  unfolding process_redeem has_redeem
  Ensures-process_redeem r =
      Ensures-bind _ _
        (Ensures-in_mgr_state _ (Keeps-query _) (Valued-has_redeem r.request_tx_hash))
        (λ b q.
          Ensures-if b _ _ (λ _. Ensures-note_tracked (request_id outside r.request_tx_hash))
            (λ e. Ensures-withdraw_new r (q e)))

  Ensures-withdraw_round : Ensures Paid (withdraw_round outside) Any
  unfolding withdraw_round
  Ensures-withdraw_round =
      Ensures-bind {Q = Any} _ _ (Ensures-in_statedb _ (λ d. Valued-Any _)) (λ rs _.
        Ensures-for_each Any (process_redeem outside) rs (All-Any rs)
          (λ r _. Ensures-process_redeem r))

-- A turn of the loop, or what goes on beside it: state and the vault change their tables, the
-- monitor marks a redeem as mined, and which of the calls of a database will fail is decided anew.
pub data Step (outside : Outside) (w : World) : World → Type 0 where
  round : Step outside w (withdraw_round outside w).1
  mined : (id : String) → Step outside w (in_mgr_state (complete_redeem id) w).1
  state_changed : (d : Disk Tables) → Step outside w (record w { statedb = d })
  vault_changed : (d : Disk Storage.Rows) → Step outside w (record w { vault = d })
  faults_changed :
      (faults : List Fault)
      → Step outside w
          (record w { mgr_state = record { table = w.mgr_state.table; faults = faults } })

pub data Steps (outside : Outside) (w : World) : World → Type 0 where
  stay : Steps outside w w
  step : {v u : World} → Steps outside w v → Step outside v u → Steps outside w u

Paid-Step :
    (outside : Outside) (h : Hash) (n : ℕ) {w u : World}
    → Step outside w u
    → Paid outside h n w
    → Paid outside h n u
Paid-Step outside h n {w} round p = ((Ensures-withdraw_round outside h n).at w p).0
Paid-Step outside h n {w} (mined id) p =
    ((Ensures-in_mgr_state outside h n {Q = Any} (complete_redeem id)
        (Keeps-complete_redeem (request_id outside h) id) (λ d _. Valued-Any _)).at
      w p).0
Paid-Step outside h n (state_changed d) p = record { tracked = p.tracked; payments = p.payments }
Paid-Step outside h n (vault_changed d) p = record { tracked = p.tracked; payments = p.payments }
Paid-Step outside h n (faults_changed fs) p = record { tracked = p.tracked; payments = p.payments }

Paid-Steps :
    (outside : Outside) (h : Hash) (n : ℕ) {w u : World}
    → Steps outside w u
    → Paid outside h n w
    → Paid outside h n u
Paid-Steps outside h n stay p = p
Paid-Steps outside h n (step ss s) p = Paid-Step outside h n s (Paid-Steps outside h n ss p)

-- Where a redeem is in the manager's table, no run of the loop, with any answers of the node and any
-- faults of the databases, while state and the vault change their tables and the monitor marks
-- redeems as mined, sends a transaction for it to Bitcoin, and it stays in the table.
pub never_paid_again :
    (outside : Outside) (h : Hash) (w u : World)
    → Steps outside w u
    → any_row (has_id (request_id outside h)) w.mgr_state.table ≡ true
    → (payments_of h u.sent ≡ payments_of h w.sent)
      × (any_row (has_id (request_id outside h)) u.mgr_state.table ≡ true)
never_paid_again outside h w u ss t =
    let p =
      Paid-Steps outside h (payments_of h w.sent) ss (record { tracked = t; payments = refl }) in
    (p.payments, p.tracked)
