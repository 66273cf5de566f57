-- ===== src/BtcSync/Blocks.antt =====
-- btcman/rpc/rpc_client.go: GetBlocks, the blocks that are old enough.
use bridge_go_aptos.Prelude.{ℕ, suc, zero, ◌-◌, List, [], ◌∷◌, ◌++◌, ltb, ◌==◌, if◌then◌else◌}
use bridge_go_aptos.Go.{Outcome, ok, err, invalid_range, ◌>>=◌}
use bridge_go_aptos.BtcSync.{Outside, Block}

unfoldable pub reverse {ℓ} : {A : Type ℓ} → List A → List A
reverse [] = []
reverse (x ∷ xs) = reverse xs ++ x ∷ []

module _ (outside : Outside) where
  unfoldable pub block_at : ℕ → Outcome Block
  block_at height = do hash ← outside.hash_at height; outside.block_of hash

  -- The loop, for the `n` heights from `top` down. `back` is the depth of the next one below the
  -- latest height; a height below 0 is an error.
  unfoldable pub blocks_down : ℕ → ℕ → ℕ → Outcome (List Block)
  blocks_down latest back zero = ok []
  blocks_down latest back (suc n) =
      if ltb latest back
      then err invalid_range
      else (block_at (latest - back) >>= λ block.
          blocks_down latest (suc back) n >>= λ blocks. ok (block ∷ blocks))

  -- The offset is not negative here.
  unfoldable pub get_blocks : ℕ → ℕ → Outcome (List Block)
  get_blocks n offset = do
    latest ← outside.block_count_again
    if n == 0
        then err invalid_range
        else (blocks_down latest offset n >>= λ blocks. ok (reverse blocks))
