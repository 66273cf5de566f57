-- ===== src/BtcSync/Heights.antt =====
-- btcsync/btc_monitor.go and btcman/rpc/rpc_client.go: which heights a round of scanning reads.
use bridge_go_aptos.Prelude.{
  ℕ, suc, zero, ◌+◌, ◌-◌, ◌≤◌, ◌<◌, ◌≡◌, ◌⊎◌, inl, inr, refl, sym, ◌∙◌, subst, false, List, [], ◌∷◌,
  ◌++◌, ltb, ◌==◌, if◌then◌else◌, All, All-append, All-imp, arith, Bool-cases,
}
use bridge_go_aptos.Go.{ok, err, Outcome-of_ok, invalid_range, ◌>>=◌, >>=-eq-ok}
use bridge_go_aptos.BtcSync.{Outside, Block}
use bridge_go_aptos.BtcSync.Blocks.{reverse, block_at, blocks_down, get_blocks}
use bridge_go_aptos.BtcSync.Scan.{numbers_to_fetch, blk_mature_offset}

-- `b` is one of the blocks.
abbrev pub Has : Block → List Block → Type 0
Has b [] = ⊥
Has b (x ∷ xs) = (x ≡ b) ⊎ Has b xs

Has-append_left : (b : Block) (xs ys : List Block) → Has b xs → Has b (xs ++ ys)
Has-append_left b [] ys h = absurd h
Has-append_left b (x ∷ xs) ys (inl e) = inl e
Has-append_left b (x ∷ xs) ys (inr h) = inr (Has-append_left b xs ys h)

Has-append_right : (b : Block) (xs ys : List Block) → Has b ys → Has b (xs ++ ys)
Has-append_right b [] ys h = h
Has-append_right b (x ∷ xs) ys h = inr (Has-append_right b xs ys h)

Has-reverse : (b : Block) (xs : List Block) → Has b xs → Has b (reverse xs)
unfolding reverse
Has-reverse b [] h = h
Has-reverse b (x ∷ xs) (inl e) = Has-append_right b (reverse xs) (x ∷ []) (inl e)
Has-reverse b (x ∷ xs) (inr h) = Has-append_left b (reverse xs) (x ∷ []) (Has-reverse b xs h)

All-reverse : (P : Block → Type 0) (xs : List Block) → All P xs → All P (reverse xs)
unfolding reverse
All-reverse P [] h = tt
All-reverse P (x ∷ xs) h = All-append P (reverse xs) (x ∷ []) (All-reverse P xs h.1) (h.0, tt)

module _ (outside : Outside) where
  -- The block is at one of the heights from `low` up to and without `high`.
  abbrev pub IsBetween : ℕ → ℕ → Block → Type 0
  IsBetween low high b = (h : ℕ) × (low ≤ h) × (h < high) × (block_at outside h ≡ ok b)

  -- What a step of the loop has done.
  blocks_down-eq-ok :
      (latest back n : ℕ) (blocks : List Block)
      → blocks_down outside latest back (suc n) ≡ ok blocks
      → (b : Block) × (bs : List Block) × (back ≤ latest)
        × (block_at outside (latest - back) ≡ ok b)
        × (blocks_down outside latest (suc back) n ≡ ok bs)
        × (blocks ≡ b ∷ bs)
  unfolding blocks_down
  blocks_down-eq-ok latest back n blocks h = elim (Bool-cases (ltb latest back)) [
    | inl e ↦ absurd (ground arith)
    | inr e ↦
        let (b, p, k) = >>=-eq-ok (block_at outside (latest - back)) _ blocks (opened e ∙ h) in
        let (bs, q, l) = >>=-eq-ok (blocks_down outside latest (suc back) n) _ blocks k in
        (b, bs, ground arith, p, q, sym (Outcome-of_ok l))
  ]
    where
      opened :
          ltb latest back ≡ false
          → (block_at outside (latest - back) >>= λ block.
              blocks_down outside latest (suc back) n >>= λ blocks. ok (block ∷ blocks))
            ≡ blocks_down outside latest back (suc n)
      opened e = rw (e) refl

  blocks_down-All :
      (latest back n : ℕ) (blocks : List Block)
      → blocks_down outside latest back n ≡ ok blocks
      → All (IsBetween (suc latest - (back + n)) (suc latest - back)) blocks
  unfolding blocks_down
  blocks_down-All latest back zero blocks h =
      subst (All (IsBetween (suc latest - (back + zero)) (suc latest - back))) (Outcome-of_ok h) tt
  blocks_down-All latest back (suc n) blocks h =
      let (b, bs, k, p, q, e) = blocks_down-eq-ok latest back n blocks h in
      subst (All (IsBetween (suc latest - (back + suc n)) (suc latest - back))) (sym e) (
        (latest - back, omega arith, omega arith, p),
        All-imp (IsBetween (suc latest - (suc back + n)) (suc latest - suc back))
            (IsBetween (suc latest - (back + suc n)) (suc latest - back)) bs
            (λ x (m, low, high, at). (m, omega arith, omega arith, at))
            (blocks_down-All latest (suc back) n bs q),
      )

  blocks_down-Has :
      (latest back n height : ℕ) (blocks : List Block)
      → blocks_down outside latest back n ≡ ok blocks
      → latest < height + (back + n)
      → height + back ≤ latest
      → (b : Block) × (block_at outside height ≡ ok b) × Has b blocks
  blocks_down-Has latest back zero height blocks h low high = absurd (omega arith)
  blocks_down-Has latest back (suc n) height blocks h low high =
      let (b, bs, k, p, q, e) = blocks_down-eq-ok latest back n blocks h in
      elim (Bool-cases (height + back == latest)) [
        | inl same ↦ (
          b,
          subst (λ m. block_at outside m ≡ ok b) (ground arith) p,
          subst (Has b) (sym e) (inl refl),
        )
        | inr other ↦
            let (c, at, has) =
              blocks_down-Has latest (suc back) n height bs q (omega arith) (ground arith) in
            (c, at, subst (Has c) (sym e) (inr has))
      ]

  fetched :
      (latest n : ℕ) (blocks : List Block)
      → 0 < n
      → outside.block_count_again ≡ ok latest
      → get_blocks outside n 1 ≡ ok blocks
      → (bs : List Block) × (blocks_down outside latest 1 n ≡ ok bs) × (blocks ≡ reverse bs)
  unfolding get_blocks
  fetched latest n blocks some_n c h =
      let (l, p, q) = >>=-eq-ok outside.block_count_again _ blocks h in
      let same = Outcome-of_ok (sym p ∙ c) in
      let (bs, r, s) =
        >>=-eq-ok (blocks_down outside l 1 n) _ blocks (opened l (ground arith) ∙ q) in
      (bs, subst (λ m. blocks_down outside m 1 n ≡ ok bs) same r, sym (Outcome-of_ok s))
    where
      opened :
          (l : ℕ)
          → (n == 0) ≡ false
          → (blocks_down outside l 1 n >>= λ blocks. ok (reverse blocks)) ≡ (
              if n == 0
              then err invalid_range
              else (blocks_down outside l 1 n >>= λ blocks. ok (reverse blocks)))
      opened l e = rw (e) refl

-- Where the node's height stays the same during a round, the height is above the last one visited,
-- and the round gets its blocks: every height above the last one visited and below the node's is
-- among those it reads, and so is the last one visited itself where the node's height is at most 36
-- above it.
pub new_heights_read :
    (outside : Outside) (last latest height : ℕ) (blocks : List Block)
    → outside.block_count_again ≡ ok latest
    → last < latest
    → get_blocks outside (numbers_to_fetch outside latest last) blk_mature_offset ≡ ok blocks
    → (last < height) ⊎ ((last ≡ height) × (latest ≤ last + 36))
    → height < latest
    → (b : Block) × (block_at outside height ≡ ok b) × Has b blocks
new_heights_read outside last latest height blocks c more h above below =
    let n = numbers_to_fetch outside latest last in
    let (bs, p, q) = fetched outside latest n blocks (ground arith) c h in
    let (b, at, has) =
      blocks_down-Has outside latest 1 n height bs p (enough_numbers latest last height more above)
        (omega arith) in
    (b, at, subst (Has b) (sym q) (Has-reverse b bs has))
  where
    enough_numbers :
        (latest last height : ℕ)
        → last < latest
        → (last < height) ⊎ ((last ≡ height) × (latest ≤ last + 36))
        → latest < height + (1 + numbers_to_fetch outside latest last)
    enough_numbers latest last height more above = ground arith

-- Where the node's height stays the same during a round, it is more than 36 above the last one
-- visited, and the round gets its blocks: every block that the round reads is at a height above the
-- last one visited.
pub last_height_left_out :
    (outside : Outside) (last latest : ℕ) (blocks : List Block)
    → outside.block_count_again ≡ ok latest
    → last + 36 < latest
    → get_blocks outside (numbers_to_fetch outside latest last) blk_mature_offset ≡ ok blocks
    → All (IsBetween outside (suc last) latest) blocks
last_height_left_out outside last latest blocks c more h =
    let n = numbers_to_fetch outside latest last in
    let (bs, p, q) = fetched outside latest n blocks (ground arith) c h in
    let count = exactly latest last more in
    subst (All (IsBetween outside (suc last) latest)) (sym q) (
      All-reverse (IsBetween outside (suc last) latest) bs (
        All-imp (IsBetween outside (suc latest - (1 + n)) (suc latest - 1))
          (IsBetween outside (suc last) latest) bs
          (λ x (m, low, high, at). (m, omega (arith, count), omega arith, at))
          (blocks_down-All outside latest 1 n bs p)))
  where
    exactly :
        (latest last : ℕ)
        → last + 36 < latest
        → numbers_to_fetch outside latest last ≡ latest - last - 1
    exactly latest last more = ground arith
