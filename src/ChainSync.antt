-- ===== src/ChainSync.antt =====
-- chainsync/syncer.go: the synchronizer, which asks the chain's worker for the events of a range of
-- ledger numbers and sends them to state.
pub mod Ranges
pub mod Tests
use bridge_go_aptos.Prelude.{
  ℕ, suc, zero, Bool, true, false, not, Option, none, some, List, [], ◌∷◌, if◌then◌else◌,
}
use bridge_go_aptos.Go.{Outcome, ok, err, panic, deref}
use bridge_go_aptos.BigInt.{ℤ, negsuc, cmp_eq, cmp_le}
use bridge_go_aptos.Agreement.{MintedEvent, RedeemRequestedEvent, RedeemPreparedEvent}
use bridge_go_aptos.Program.{Prog, pure, lift, ◌>>=◌, ◌>>◌}

-- What is sent on the channels of state.
pub data Message : Type 0 where
  new_finalized : ℤ → Message
  minted : MintedEvent → Message
  requested : RedeemRequestedEvent → Message
  prepared : RedeemPreparedEvent → Message

-- The three lists of events, each from old to new.
pub record Events : Type 0 where
  pub minted : List MintedEvent
  pub requested : List RedeemRequestedEvent
  pub prepared : List RedeemPreparedEvent

-- The messages sent, and the ranges of which events were asked, both the latest first, and how many
-- calls of the worker were made.
pub record Syncer : Type 0 where
  pub last_checked : ℤ
  pub messages : List Message
  pub ranges : List (ℤ × ℤ)
  pub calls : ℕ

-- SyncWorker: what a call is answered, by the number of the calls before it.
pub record Outside : Type 0 where
  pub newest_number : ℕ → Outcome (Option ℤ)
  pub events : ℕ → ℤ → ℤ → Outcome Events

-- NewChainSync: where to start, by the number in state and by that of the configuration, -1 being
-- the wish to use the one in state.
unfoldable pub new_chain_sync : Outcome ℤ → ℤ → Outcome ℤ
new_chain_sync (ok stored) force = ok (if cmp_eq force (negsuc 0) then stored else force)
new_chain_sync (err e) force = err e
new_chain_sync panic force = panic

unfoldable pub send : Message → Prog Syncer (Unit {0})
send message w = (ok tt, record w { messages = message ∷ w.messages })

unfoldable pub send_all : List Message → Prog Syncer (Unit {0})
send_all [] = pure tt
send_all (m ∷ ms) = do send m; send_all ms

abbrev pub minted_messages : List MintedEvent → List Message
minted_messages [] = []
minted_messages (ev ∷ evs) = minted ev ∷ minted_messages evs

abbrev pub requested_messages : List RedeemRequestedEvent → List Message
requested_messages [] = []
requested_messages (ev ∷ evs) = requested ev ∷ requested_messages evs

abbrev pub prepared_messages : List RedeemPreparedEvent → List Message
prepared_messages [] = []
prepared_messages (ev ∷ evs) = prepared ev ∷ prepared_messages evs

unfoldable pub checked : ℤ → Prog Syncer (Unit {0})
checked number w = (ok tt, record w { last_checked = number })

module _ (outside : Outside) where
  unfoldable pub get_newest : Prog Syncer (Option ℤ)
  get_newest w = (outside.newest_number w.calls, record w { calls = suc w.calls })

  unfoldable pub get_time_ordered_events : ℤ → ℤ → Prog Syncer Events
  get_time_ordered_events old_num new_num w = (
    outside.events w.calls old_num new_num,
    record w { ranges = (old_num, new_num) ∷ w.ranges; calls = suc w.calls },
  )

  unfoldable pub go_forward : ℤ → ℤ → Prog Syncer (Unit {0})
  go_forward last newest = do
    send (new_finalized newest)
    evs ← get_time_ordered_events last newest
    send_all (minted_messages evs.minted)
    send_all (requested_messages evs.requested)
    send_all (prepared_messages evs.prepared)
    checked newest

  -- One turn of Loop. Cmp reads the new number.
  unfoldable pub round_from : ℤ → Prog Syncer (Unit {0})
  round_from last = do
    answer ← get_newest
    newest ← lift (deref answer)
    if cmp_le newest last then pure tt else go_forward last newest

  unfoldable pub round : Prog Syncer (Unit {0})
  round w = round_from w.last_checked w

  -- Loop, for at most `n` turns: the first error ends it.
  unfoldable pub loop : ℕ → Prog Syncer (Unit {0})
  loop zero = pure tt
  loop (suc n) = do round; loop n
