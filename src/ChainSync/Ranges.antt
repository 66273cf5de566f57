-- ===== src/ChainSync/Ranges.antt =====
-- chainsync/syncer.go: the ranges of ledger numbers that are asked.
use bridge_go_aptos.Prelude.{
  ℕ, suc, zero, ◌≡◌, refl, sym, ap, ◌∙◌, subst, Bool, true, false, List, [], ◌∷◌, if◌then◌else◌,
}
use bridge_go_aptos.Go.{Error, Outcome, ok, err, panic, deref}
use bridge_go_aptos.BigInt.{ℤ, cmp_le}
use bridge_go_aptos.Program.{pure, lift, ◌>>=◌}
use bridge_go_aptos.Program.Laws.{>>=-eq-ok}
use bridge_go_aptos.ChainSync.{
  Syncer, Outside, Message, new_finalized, Events, send, send_all, checked, get_newest,
  get_time_ordered_events, go_forward, round_from, round, loop, minted_messages, requested_messages,
  prepared_messages,
}

-- The ranges, the latest first, lead from `start` to `last`: each begins where the one before ends,
-- and ends above where it begins.
abbrev pub IsChain : ℤ → ℤ → List (ℤ × ℤ) → Type 0
IsChain start last [] = last ≡ start
IsChain start last ((old_num, new_num) ∷ ranges) =
    (new_num ≡ last) × (cmp_le new_num old_num ≡ false) × IsChain start old_num ranges

send_all-keeps :
    (ms : List Message) (w : Syncer)
    → (messages : List Message) × (send_all ms w ≡ (ok tt, record w { messages = messages }))
unfolding send_all pure send ◌>>=◌
send_all-keeps [] w = (w.messages, refl)
send_all-keeps (m ∷ ms) w = send_all-keeps ms (record w { messages = m ∷ w.messages })

send_all-three :
    (xs ys zs : List Message) (number : ℤ) (w : Syncer)
    → (messages : List Message) × ((send_all xs >>= λ _.
            send_all ys >>= λ _. send_all zs >>= λ _. checked number)
          w
        ≡ (ok tt, record w { messages = messages; last_checked = number }))
unfolding ◌>>=◌ checked
send_all-three xs ys zs number w =
    let (m1, e1) = send_all-keeps xs w in
    let (m2, e2) = send_all-keeps ys (record w { messages = m1 }) in
    let (m3, e3) = send_all-keeps zs (record w { messages = m2 }) in (m3, rw (e1, e2, e3) refl)

module _ (outside : Outside) where
  -- What a turn has done that goes forward to `newest`, by the answer with the events.
  go_forward-events :
      (last newest : ℤ) (evs : Events) (w : Syncer)
      → outside.events w.calls last newest ≡ ok evs
      → (messages : List Message) × (go_forward outside last newest w ≡ (
        ok tt,
        record {
          last_checked = newest;
          messages = messages;
          ranges = (last, newest) ∷ w.ranges;
          calls = suc w.calls;
        },
      ))
  unfolding go_forward get_time_ordered_events send ◌>>=◌
  go_forward-events last newest evs w h =
      let (ms, e) =
        send_all-three (minted_messages evs.minted) (requested_messages evs.requested)
          (prepared_messages evs.prepared) newest
          (record {
            last_checked = w.last_checked;
            messages = new_finalized newest ∷ w.messages;
            ranges = (last, newest) ∷ w.ranges;
            calls = suc w.calls;
          }) in
      (ms, rw (h) e)

  go_forward-error :
      (last newest : ℤ) (x : Error) (w : Syncer)
      → outside.events w.calls last newest ≡ err x
      → go_forward outside last newest w ≡ (
        err x,
        record {
          last_checked = w.last_checked;
          messages = new_finalized newest ∷ w.messages;
          ranges = (last, newest) ∷ w.ranges;
          calls = suc w.calls;
        },
      )
  unfolding go_forward get_time_ordered_events send ◌>>=◌
  go_forward-error last newest x w h = rw (h) refl

  go_forward-panic :
      (last newest : ℤ) (w : Syncer)
      → outside.events w.calls last newest ≡ panic
      → (go_forward outside last newest w).0 ≡ panic
  unfolding go_forward get_time_ordered_events send ◌>>=◌
  go_forward-panic last newest w h = rw (h) refl

  go_forward-IsChain :
      (start last newest : ℤ) (w u : Syncer) (o : Outcome Events)
      → outside.events w.calls last newest ≡ o
      → go_forward outside last newest w ≡ (ok tt, u)
      → cmp_le newest last ≡ false
      → IsChain start last w.ranges
      → IsChain start u.last_checked u.ranges
  go_forward-IsChain start last newest w u (ok evs) p h up c =
      let (ms, e) = go_forward-events last newest evs w p in
      subst (λ r. IsChain start r.1.last_checked r.1.ranges) (sym e ∙ h) (refl, up, c)
  go_forward-IsChain start last newest w u (err x) p h up c =
      absurd (cc (go_forward-error last newest x w p, h))
  go_forward-IsChain start last newest w u panic p h up c =
      absurd (cc (go_forward-panic last newest w p, h))

  -- A turn that ends without an error, after the new number is known.
  ended-IsChain :
      (start newest : ℤ) (w u : Syncer) (b : Bool)
      → cmp_le newest w.last_checked ≡ b
      → (if b then pure tt else go_forward outside w.last_checked newest) w ≡ (ok tt, u)
      → IsChain start w.last_checked w.ranges
      → IsChain start u.last_checked u.ranges
  unfolding pure
  ended-IsChain start newest w u true up h c =
      subst (λ r. IsChain start r.1.last_checked r.1.ranges) h c
  ended-IsChain start newest w u false up h c =
      go_forward-IsChain start w.last_checked newest w u _ refl h up c

  round-IsChain :
      (start : ℤ) (w u : Syncer)
      → round outside w ≡ (ok tt, u)
      → IsChain start w.last_checked w.ranges
      → IsChain start u.last_checked u.ranges
  unfolding round round_from get_newest lift
  round-IsChain start w u h c =
      let (answer, w1, e1, h1) = >>=-eq-ok (get_newest outside) _ w u tt h in
      let (newest, w2, e2, h2) = >>=-eq-ok (lift (deref answer)) _ w1 u tt h1 in
      let same = ap (λ r. r.1) e1 ∙ ap (λ r. r.1) e2 in
      ended-IsChain start newest w2 u (cmp_le newest w2.last_checked) refl
        (subst
          (λ z. (if cmp_le newest z then pure tt else go_forward outside z newest) w2 ≡ (ok tt, u))
          (ap (λ r. r.last_checked) same) h2)
        (subst (λ r. IsChain start r.last_checked r.ranges) same c)

  loop-IsChain :
      (start : ℤ) (n : ℕ) (w u : Syncer)
      → loop outside n w ≡ (ok tt, u)
      → IsChain start w.last_checked w.ranges
      → IsChain start u.last_checked u.ranges
  unfolding loop pure
  loop-IsChain start zero w u h c = subst (λ r. IsChain start r.1.last_checked r.1.ranges) h c
  loop-IsChain start (suc n) w u h c =
      let (_, v, e, k) = >>=-eq-ok (round outside) _ w u tt h in
      loop-IsChain start n v u k (round-IsChain start w v e c)

-- However many turns the loop has made without an error, with any answers of the worker: the ranges
-- of which it has asked the events lead upwards, without a gap or an overlap, from the number it
-- started at to the one it has checked last: each ends above where it begins, and begins where the
-- one before it ends.
pub loop_ranges :
    (outside : Outside) (n : ℕ) (start : ℤ) (u : Syncer)
    → loop outside n (record { last_checked = start; messages = []; ranges = []; calls = 0 })
      ≡ (ok tt, u)
    → IsChain start u.last_checked u.ranges
loop_ranges outside n start u h =
    loop-IsChain outside start n
      (record { last_checked = start; messages = []; ranges = []; calls = 0 }) u h refl
