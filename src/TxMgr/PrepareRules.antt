-- ===== src/TxMgr/PrepareRules.antt =====
-- chaintxmgr/mgr.go: procedurePrepare keeps what its operations keep.
use bridge_go_aptos.Prelude.{ℕ, Bool, subst, sym, ◌≡◌, refl, Option, List}
use bridge_go_aptos.BigInt.{ℤ}
use bridge_go_aptos.Agreement.{Hash, PrepareParameter, MonitoredTxStatus, pending}
use bridge_go_aptos.State.Redeem.{Redeem}
use bridge_go_aptos.MgrDb.{Rows}
use bridge_go_aptos.Program.Laws.{
  Any, Ensures, Ensures-pure, Ensures-bind, Ensures-lift, Ensures-for_each, Ensures-if,
}
use bridge_go_aptos.TxMgr.{Call, Outside}
use bridge_go_aptos.TxMgr.Laws.{
  Holds, Ensures-ask, Ensures-in_mgrdb, Ensures-in_statedb, Ensures-ledger_or_latest,
}
use bridge_go_aptos.Program.Laws.{Valued-Any}
use bridge_go_aptos.TxMgr.Prepares.{
  is_double_prepare, prepare_prepare, call_prepare, set_prepare_to_be_monitored, submit_prepare,
  process_redeem, procedure_prepare,
}
use bridge_go_aptos.TxMgr.Rules.{Rules, Ensures-ask_other, Ensures-filter_untracked}

module _ {full : Bool} {I : Rows → Type 0} {C : List Call → Type 0} {New : Hash → Type 0}
    {Open : List ℕ → Type 0} (rules : Rules full I C New Open) (outside : Outside) where
  Ensures-is_double_prepare :
      (r : Redeem) → Ensures (Holds full I C) (is_double_prepare outside r) Any
  unfolding is_double_prepare
  Ensures-is_double_prepare r = Ensures-ask_other rules _ _ refl

  Ensures-prepare_prepare :
      (r : Redeem)
      → Ensures
          (Holds full I C)
          (prepare_prepare outside r)
          (λ pp. pp.request_tx_hash ≡ r.request_tx_hash)
  unfolding prepare_prepare
  Ensures-prepare_prepare r = Ensures-bind {Q = Any} _ _ (Ensures-ask_other rules _ _ refl) (λ _ _.
      Ensures-bind {Q = Any} _ _ (Ensures-lift _ (Valued-Any _)) (λ outpoints _.
        Ensures-bind {Q = Any} _ _ (Ensures-lift _ (Valued-Any _)) (λ amount _.
          Ensures-bind {Q = Any} _ _ (Ensures-ask_other rules _ _ refl)
            (λ _ _. Ensures-pure _ refl))))

  Ensures-call_prepare :
      (pp : PrepareParameter)
      → New pp.request_tx_hash
      → Ensures (Holds full I C) (call_prepare outside pp) Any
  unfolding call_prepare
  Ensures-call_prepare pp k =
      Ensures-ask _ _ (λ calls. rules.prepare pp calls k) (λ calls. Valued-Any _)

  Ensures-set_prepare :
      (pp : PrepareParameter) (tx_id : List ℕ) (sent : Option ℤ) (s : MonitoredTxStatus)
      → Ensures (Holds full I C) (set_prepare_to_be_monitored pp tx_id sent s) Any
  unfolding set_prepare_to_be_monitored
  Ensures-set_prepare pp tx_id sent s =
      Ensures-bind {Q = Any} _ _ (Ensures-lift _ (Valued-Any _))
        (λ z _. Ensures-in_mgrdb _ (rules.insert _) (λ d _ _. Valued-Any _))

  Ensures-submit_prepare :
      (r : Redeem) → New r.request_tx_hash → Ensures (Holds full I C) (submit_prepare outside r) Any
  unfolding submit_prepare
  Ensures-submit_prepare r k = Ensures-bind _ _ (Ensures-prepare_prepare r) (λ pp e.
      Ensures-bind _ _ (Ensures-call_prepare pp (subst New (sym e) k)) (λ s _.
        Ensures-bind _ _ (Ensures-ledger_or_latest outside (λ calls. rules.other _ calls refl) s.1)
          (λ l _. Ensures-set_prepare pp s.0 l pending)))

  Ensures-process_redeem :
      (r : Redeem) → New r.request_tx_hash → Ensures (Holds full I C) (process_redeem outside r) Any
  unfolding process_redeem
  Ensures-process_redeem r k =
      Ensures-bind _ _ (Ensures-is_double_prepare r) (λ found _.
        Ensures-if found _ _ (λ _. Ensures-pure tt tt) (λ _. Ensures-submit_prepare r k))

  pub Ensures-procedure_prepare : Ensures (Holds full I C) (procedure_prepare outside) Any
  unfolding procedure_prepare
  Ensures-procedure_prepare =
      Ensures-bind {Q = Any} _ _ (Ensures-in_statedb _ (λ d. Valued-Any _)) (λ redeems _.
        Ensures-bind _ _ (Ensures-filter_untracked rules (λ r. r.request_tx_hash) redeems)
          (λ clean q.
            Ensures-for_each (λ r. New r.request_tx_hash) (process_redeem outside) clean q
              Ensures-process_redeem))
