-- ===== src/EthSync/Tests.antt =====
-- Runs of the older synchronizer.
use bridge_go_aptos.Prelude.{◌+◌, ◌≡◌, refl, true, [], ◌∷◌, arith}
use bridge_go_aptos.Go.{ok, err, chain_id_unmatched}
use bridge_go_aptos.BigInt.{ℤ, pos, negsuc, cmp_eq}
use bridge_go_aptos.ChainSync.{new_finalized}
use bridge_go_aptos.EthSync.{
  MintedLog, Logs, Synchronizer, Outside, minted_message, turn, new, start_block,
}
use bridge_go_aptos.EthSync.Blocks.{turn_ends}

abbrev log : ℤ → MintedLog
log (pos n) = record { btc_tx_id = n; receiver = 1 ∷ []; amount = pos 10; tx_hash = n + 100 }
log (negsuc n) = record { btc_tx_id = 0; receiver = []; amount = pos 10; tx_hash = 0 }

-- A mint in each block.
abbrev logs : ℤ → Logs
logs number = record { minted = log number ∷ []; requested = []; prepared = [] }

abbrev node : Outside
node = record {
  finalized_number = λ calls. ok (pos 7);
  event_logs = λ calls number. ok (logs number);
  is_valid_btc_address = λ receiver. true;
}

abbrev start : Synchronizer
start = record { last_finalized = pos 5; messages = []; blocks = []; calls = 0 }

turn_ends_example : turn node 3 start ≡ (
  ok true,
  record {
    last_finalized = pos 7;
    messages =
        minted_message (log (pos 7)) ∷ minted_message (log (pos 6)) ∷ new_finalized (pos 7) ∷ [];
    blocks = pos 7 ∷ pos 6 ∷ [];
    calls = 3;
  },
)
turn_ends_example =
    turn_ends node logs 2 3 5 7 start (λ calls number. refl) refl refl refl (omega arith)
      (omega arith)

new_starts : new (ok (pos 1)) (pos 1) (ok (pos 9)) (negsuc 0) ≡ ok (pos 9)
unfolding new start_block cmp_eq
new_starts = refl

other_chain : new (ok (pos 2)) (pos 1) (ok (pos 9)) (negsuc 0) ≡ err chain_id_unmatched
unfolding new start_block cmp_eq
other_chain = refl
