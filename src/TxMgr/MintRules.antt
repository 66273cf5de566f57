-- ===== src/TxMgr/MintRules.antt =====
-- chaintxmgr/mgr.go: procedureMint keeps what its operations keep.
use bridge_go_aptos.Prelude.{ℕ, Bool, subst, sym, ◌≡◌, refl, Option, List}
use bridge_go_aptos.BigInt.{ℤ}
use bridge_go_aptos.Agreement.{Hash, MintParameter, MonitoredTxStatus, pending}
use bridge_go_aptos.State.Tables.{Mint}
use bridge_go_aptos.MgrDb.{Rows}
use bridge_go_aptos.Program.Laws.{
  Any, Ensures, Ensures-pure, Ensures-bind, Ensures-lift, Ensures-for_each, Ensures-if,
}
use bridge_go_aptos.TxMgr.{Call, Outside}
use bridge_go_aptos.TxMgr.Laws.{
  Holds, Ensures-ask, Ensures-in_mgrdb, Ensures-in_statedb, Ensures-ledger_or_latest,
}
use bridge_go_aptos.Program.Laws.{Valued-Any}
use bridge_go_aptos.TxMgr.Mints.{
  is_double_mint, prepare_mint, call_mint, set_mint_to_be_monitored, submit_mint, process_mint,
  procedure_mint,
}
use bridge_go_aptos.TxMgr.Rules.{Rules, Ensures-ask_other, Ensures-filter_untracked}

module _ {full : Bool} {I : Rows → Type 0} {C : List Call → Type 0} {New : Hash → Type 0}
    {Open : List ℕ → Type 0} (rules : Rules full I C New Open) (outside : Outside) where
  Ensures-is_double_mint : (m : Mint) → Ensures (Holds full I C) (is_double_mint outside m) Any
  unfolding is_double_mint
  Ensures-is_double_mint m = Ensures-ask_other rules _ _ refl

  Ensures-prepare_mint :
      (m : Mint)
      → Ensures (Holds full I C) (prepare_mint outside m) (λ mp. mp.btc_tx_id ≡ m.btc_tx_id)
  unfolding prepare_mint
  Ensures-prepare_mint m = Ensures-bind {Q = Any} _ _ (Ensures-lift _ (Valued-Any _)) (λ amount _.
      Ensures-bind {Q = Any} _ _ (Ensures-ask_other rules _ _ refl) (λ _ _. Ensures-pure _ refl))

  Ensures-call_mint :
      (mp : MintParameter) → New mp.btc_tx_id → Ensures (Holds full I C) (call_mint outside mp) Any
  unfolding call_mint
  Ensures-call_mint mp k = Ensures-ask _ _ (λ calls. rules.mint mp calls k) (λ calls. Valued-Any _)

  Ensures-set_mint :
      (mp : MintParameter) (tx_id : List ℕ) (sent : Option ℤ) (s : MonitoredTxStatus)
      → Ensures (Holds full I C) (set_mint_to_be_monitored mp tx_id sent s) Any
  unfolding set_mint_to_be_monitored
  Ensures-set_mint mp tx_id sent s =
      Ensures-bind {Q = Any} _ _ (Ensures-lift _ (Valued-Any _))
        (λ z _. Ensures-in_mgrdb _ (rules.insert _) (λ d _ _. Valued-Any _))

  Ensures-submit_mint :
      (m : Mint) → New m.btc_tx_id → Ensures (Holds full I C) (submit_mint outside m) Any
  unfolding submit_mint
  Ensures-submit_mint m k = Ensures-bind _ _ (Ensures-prepare_mint m) (λ mp e.
      Ensures-bind _ _ (Ensures-call_mint mp (subst New (sym e) k)) (λ r _.
        Ensures-bind _ _ (Ensures-ledger_or_latest outside (λ calls. rules.other _ calls refl) r.1)
          (λ l _. Ensures-set_mint mp r.0 l pending)))

  Ensures-process_mint :
      (m : Mint) → New m.btc_tx_id → Ensures (Holds full I C) (process_mint outside m) Any
  unfolding process_mint
  Ensures-process_mint m k =
      Ensures-bind _ _ (Ensures-is_double_mint m)
        (λ found _. Ensures-if found _ _ (λ _. Ensures-pure tt tt) (λ _. Ensures-submit_mint m k))

  pub Ensures-procedure_mint : Ensures (Holds full I C) (procedure_mint outside) Any
  unfolding procedure_mint
  Ensures-procedure_mint =
      Ensures-bind {Q = Any} _ _ (Ensures-in_statedb _ (λ d. Valued-Any _)) (λ mints _.
        Ensures-bind _ _ (Ensures-filter_untracked rules (λ m. m.btc_tx_id) mints) (λ clean q.
          Ensures-for_each (λ m. New m.btc_tx_id) (process_mint outside) clean q
            Ensures-process_mint))
