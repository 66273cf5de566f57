-- ===== src/TxMgr.antt =====
-- chaintxmgr: the manager that sends mints and redeem preparations to the chain, and watches them.
-- This file has what it works on: the tables of state and of its own database, and the calls it has
-- made to the chain's worker (MgrWorker), the signer and the vault.
pub mod Mints
pub mod Prepares
pub mod Marking
pub mod Laws
pub mod Tracked
pub mod Rules
pub mod MintRules
pub mod PrepareRules
pub mod Run
pub mod Once
pub mod Settled
pub mod Accepted
pub mod Timeouts
pub mod Tests
pub mod Expected
pub mod Marked
use bridge_go_aptos.Prelude.{
  ℕ, Bool, true, false, Option, none, some, List, [], ◌∷◌, is_empty, if◌then◌else◌,
}
use bridge_go_aptos.Go.{Outcome}
use bridge_go_aptos.BigInt.{ℤ}
use bridge_go_aptos.Agreement.{
  Hash, BtcOutpoint, MintParameter, PrepareParameter, MonitoredTxStatus,
}
use bridge_go_aptos.Sql.{Disk, Exec}
use bridge_go_aptos.State.Tables.{Tables, MintRow}
use bridge_go_aptos.MgrDb.{Rows, MonitoredTx, get_monitored_tx_by_ref_identifier}
use bridge_go_aptos.Program.{Prog, pure, attempt, on, ◌>>=◌}

pub data Call : Type 0 where
  get_latest_ledger_number : Call
  is_minted : Hash → Call
  do_mint : MintParameter → Call
  is_prepared : Hash → Call
  do_prepare : PrepareParameter → Call
  get_tx_status : List ℕ → Call
  sign_async : Hash → Hash → Call
  request_outpoints : Hash → Option ℤ → Call

-- The code outside: what a call is answered, from the calls before it, the latest first. The two
-- message hashes are Keccak-256 of packed parameters.
pub record Outside : Type 0 where
  pub latest_ledger_number : List Call → Outcome (Option ℤ)
  pub minted : List Call → Hash → Outcome Bool
  pub mint_sent : List Call → MintParameter → Outcome (List ℕ × Option ℤ)
  pub prepared : List Call → Hash → Outcome Bool
  pub prepare_sent : List Call → PrepareParameter → Outcome (List ℕ × Option ℤ)
  pub tx_status : List Call → List ℕ → Outcome (MonitoredTxStatus × Option ℤ)
  pub signed : List Call → Hash → Hash → Outcome (Unit {0})
  -- `none` where no outpoints arrive before the time-out
  pub outpoints : List Call → Hash → Option ℤ → Outcome (Option (List BtcOutpoint))
  -- in which order SQLite returns the rows of the mints that wait
  pub order_mints : List MintRow → List MintRow
  pub mint_msg_hash : MintParameter → Hash
  pub prepare_msg_hash : PrepareParameter → Hash

pub record World : Type 0 where
  pub statedb : Disk Tables
  pub mgrdb : Disk Rows
  pub calls : List Call

module _ {A : Type 0} where
  unfoldable pub in_statedb : Exec Tables A → Prog World A
  unfolding on
  in_statedb m = on (λ w. w.statedb) (λ d w. record w { statedb = d }) m

  unfoldable pub in_mgrdb : Exec Rows A → Prog World A
  unfolding on
  in_mgrdb m = on (λ w. w.mgrdb) (λ d w. record w { mgrdb = d }) m

  unfoldable pub ask : Call → (List Call → Outcome A) → Prog World A
  ask call answer w = (answer w.calls, record w { calls = call ∷ w.calls })

abbrev pub no_hits : Option (List MonitoredTx) → Bool
no_hits none = false
no_hits (some hits) = is_empty hits

module _ {A : Type 0} (ref_id : A → Hash) where
  -- The loop of FilterMints and of FilterUnPrepared, by the reference identifier of an item. An item
  -- whose lookup fails is left out.
  unfoldable pub filter_untracked : List A → Prog World (List A)
  filter_untracked [] = pure []
  filter_untracked (item ∷ items) = do
    hits ← attempt (in_mgrdb (get_monitored_tx_by_ref_identifier (ref_id item)))
    rest ← filter_untracked items
    pure (if no_hits hits then item ∷ rest else rest)

module _ (outside : Outside) where
  abbrev or_known : Option (Option ℤ) → Option ℤ
  or_known none = none
  or_known (some latest) = latest

  -- Where the worker gives no ledger number, the latest one, if it is known.
  unfoldable pub ledger_or_latest : Option ℤ → Prog World (Option ℤ)
  ledger_or_latest (some ledger_number) = pure (some ledger_number)
  ledger_or_latest none = do
    latest ← attempt (ask get_latest_ledger_number outside.latest_ledger_number)
    pure (or_known latest)
