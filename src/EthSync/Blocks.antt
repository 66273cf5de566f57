-- ===== src/EthSync/Blocks.antt =====
-- ethsync/synchronizer.go: the blocks of which a turn asks the events, and what it sends of them.
use bridge_go_aptos.Prelude.{
  ℕ, suc, zero, ◌+◌, ◌<◌, ◌≡◌, refl, ap, Bool, true, false, List, [], ◌∷◌, ◌++◌, map, arith, leb,
}
use bridge_go_aptos.Go.{Outcome, ok}
use bridge_go_aptos.BigInt.{ℤ, pos, cmp_le, ◌+ℤ◌}
use bridge_go_aptos.Program.{pure, ◌>>=◌}
use bridge_go_aptos.ChainSync.{Message, new_finalized}
use bridge_go_aptos.EthSync.{
  Logs, Synchronizer, Outside, minted_message, requested_message, prepared_message, send, send_each,
  finalize, get_finalized_number, get_event_logs, scan_block, inspect, go_forward, turn_from, turn,
}

-- `xs`, one after the other, in front of `ys`.
abbrev pub onto : {A : Type 0} → List A → List A → List A
onto [] ys = ys
onto (x ∷ xs) ys = onto xs (x ∷ ys)

-- The `n` heights from `first` on, in order.
abbrev pub heights : ℕ → ℕ → List ℤ
heights first zero = []
heights first (suc n) = pos first ∷ heights (first + 1) n

-- What is to be sent of a block.
abbrev pub block_messages : Outside → Logs → List Message
block_messages outside logs =
    map minted_message logs.minted
    ++ (map (requested_message outside.is_valid_btc_address) logs.requested
        ++ map prepared_message logs.prepared)

abbrev pub chain_messages : Outside → (ℤ → Logs) → List ℤ → List Message
chain_messages outside logs [] = []
chain_messages outside logs (number ∷ numbers) =
    block_messages outside (logs number) ++ chain_messages outside logs numbers

onto_append : {A : Type 0} (xs ys zs : List A) → onto (xs ++ ys) zs ≡ onto ys (onto xs zs)
onto_append [] ys zs = refl
onto_append (x ∷ xs) ys zs = onto_append xs ys (x ∷ zs)

send_each_lem :
    {A : Type 0} (message : A → Message) (evs : List A) (w : Synchronizer)
    → send_each message evs w ≡ (ok tt, record w { messages = onto (map message evs) w.messages })
unfolding send_each send pure ◌>>=◌
send_each_lem message [] w = refl
send_each_lem message (ev ∷ evs) w =
    send_each_lem message evs (record w { messages = message ev ∷ w.messages })

module _ (outside : Outside) (logs : ℤ → Logs)
    (answers : (calls : ℕ) (number : ℤ) → outside.event_logs calls number ≡ ok (logs number)) where
  scan_block_lem :
      (number : ℤ) (w : Synchronizer)
      → scan_block outside number w ≡ (
        ok tt,
        record {
          last_finalized = w.last_finalized;
          messages = onto (block_messages outside (logs number)) w.messages;
          blocks = number ∷ w.blocks;
          calls = suc w.calls;
        },
      )
  unfolding scan_block get_event_logs ◌>>=◌
  scan_block_lem number w =
      let l = logs number in
      let xs = map minted_message l.minted in
      let ys = map (requested_message outside.is_valid_btc_address) l.requested in
      let zs = map prepared_message l.prepared in
      rw
        (
          answers w.calls number,
          send_each_lem,
          send_each_lem,
          send_each_lem,
          onto_append xs (ys ++ zs),
          onto_append ys zs,
        )
        refl

  inspect_lem :
      (n fuel first top c : ℕ) (w : Synchronizer)
      → suc top ≡ first + n
      → c ≡ w.calls + n
      → n < fuel
      → inspect outside fuel (pos first) (pos top) w ≡ (
        ok true,
        record {
          last_finalized = w.last_finalized;
          messages = onto (chain_messages outside logs (heights first n)) w.messages;
          blocks = onto (heights first n) w.blocks;
          calls = c;
        },
      )
  unfolding inspect pure ◌>>=◌ ◌+ℤ◌ cmp_le
  inspect_lem n zero first top c w h k l = absurd (omega arith)
  inspect_lem zero (suc fuel) first top c w h k l =
      let e : leb first top ≡ false = ground arith in
      let same : w.calls ≡ c = omega arith in
      rw (e) (
        ap {A = ℕ} {B = Outcome Bool × Synchronizer}
          (λ calls. (ok true, record w { calls = calls })) same)
  inspect_lem (suc n) (suc fuel) first top c w h k l =
      let e : leb first top ≡ true = ground arith in
      let i =
        inspect_lem n fuel (first + 1) top c
          (record {
            last_finalized = w.last_finalized;
            messages = onto (block_messages outside (logs (pos first))) w.messages;
            blocks = pos first ∷ w.blocks;
            calls = suc w.calls;
          })
          (omega arith) (omega arith) (omega arith) in
      rw
        (
          e,
          scan_block_lem (pos first) w,
          i,
          onto_append (block_messages outside (logs (pos first)))
              (chain_messages outside logs (heights (first + 1) n)),
        )
        refl

  go_forward_lem :
      (n fuel last newest : ℕ) (w : Synchronizer)
      → newest ≡ last + n
      → n < fuel
      → go_forward outside fuel (pos last) (pos newest) w ≡ (
        ok true,
        record {
          last_finalized = pos newest;
          messages =
              onto
                (new_finalized (pos newest) ∷ chain_messages outside logs (heights (last + 1) n))
                w.messages;
          blocks = onto (heights (last + 1) n) w.blocks;
          calls = w.calls + n;
        },
      )
  unfolding go_forward send finalize pure ◌>>=◌ ◌+ℤ◌
  go_forward_lem n fuel last newest w h l =
      rw
        (inspect_lem n fuel (last + 1) newest (w.calls + n)
          (record w { messages = new_finalized (pos newest) ∷ w.messages }) (omega arith) refl l)
        refl

-- Where the node answers with the logs of each block it is asked for, and its finalized number is `n`
-- above the last one, with `n` positive, and neither is negative: a turn's loop over the blocks ends
-- when its condition has been tested `n + 1` times, and the turn has sent to state the new number and
-- then, block by block from the one after the last, in order, the block's mints, requests and
-- preparations, has asked for each of the `n` blocks once, and has the new number as the last one.
pub turn_ends :
    (outside : Outside) (logs : ℤ → Logs) (n fuel last newest : ℕ) (w : Synchronizer)
    → ((calls : ℕ) (number : ℤ) → outside.event_logs calls number ≡ ok (logs number))
    → outside.finalized_number w.calls ≡ ok (pos newest)
    → w.last_finalized ≡ pos last
    → newest ≡ last + n
    → 0 < n
    → n < fuel
    → turn outside fuel w ≡ (
      ok true,
      record {
        last_finalized = pos newest;
        messages =
            onto
              (new_finalized (pos newest) ∷ chain_messages outside logs (heights (last + 1) n))
              w.messages;
        blocks = onto (heights (last + 1) n) w.blocks;
        calls = suc w.calls + n;
      },
    )
unfolding turn turn_from get_finalized_number ◌>>=◌ cmp_le
turn_ends outside logs n fuel last newest w answers a b h k l =
    let e : leb newest last ≡ false = ground arith in
    rw (b, a, e)
      (go_forward_lem outside logs answers n fuel last newest
        (record w { last_finalized = pos last; calls = suc w.calls }) h l)
