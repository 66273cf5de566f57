-- ===== src/ChainSync/Tests.antt =====
-- Runs of the synchronizer.
use bridge_go_aptos.Prelude.{ℕ, suc, zero, ◌≡◌, refl, Option, some, [], ◌∷◌}
use bridge_go_aptos.Go.{ok}
use bridge_go_aptos.BigInt.{ℤ, pos, cmp_le}
use bridge_go_aptos.Agreement.{MintedEvent}
use bridge_go_aptos.Program.{lift, pure, ◌>>=◌}
use bridge_go_aptos.ChainSync.{
  Syncer, Outside, loop, round, round_from, get_newest, get_time_ordered_events, go_forward, send,
  send_all, checked,
}
use bridge_go_aptos.ChainSync.Ranges.{IsChain, loop_ranges}

abbrev ev : MintedEvent
ev = record { mint_tx_hash = 7; btc_tx_id = 3; receiver = 1 ∷ []; amount = some (pos 10) }

-- The number is 20, and from the third call on it is 30.
abbrev newest : ℕ → Option ℤ
newest zero = some (pos 20)
newest (suc n) = some (pos 30)

abbrev worker : Outside
worker = record {
  newest_number = λ n. ok (newest n);
  events = λ n old_num new_num. ok (record { minted = ev ∷ []; requested = []; prepared = [] });
}

abbrev start : Syncer
start = record { last_checked = pos 5; messages = []; ranges = []; calls = 0 }

abbrev looped : Syncer
looped = (loop worker 2 start).1

looped_ok : loop worker 2 start ≡ (ok tt, looped)
unfolding loop round round_from get_newest get_time_ordered_events go_forward send send_all checked
    lift pure ◌>>=◌ cmp_le
looped_ok = refl

loop_ranges_example : IsChain (pos 5) looped.last_checked looped.ranges
loop_ranges_example = loop_ranges worker 2 (pos 5) looped looped_ok
