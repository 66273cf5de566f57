-- ===== src/State/Numbers.antt =====
-- state/statedb.go, state/state.go and state/state_eth2btc.go: the last finalized block numbers and the
-- chain id, which are kept in the table kv, and in memory once they have been read or written.
-- `key_eth`, `key_btc` and `key_chain` stand for the three keys, which are Keccak hashes of names.
use bridge_go_aptos.Prelude.{
  ℕ, zero, suc, ◌/◌, ◌^◌, ltb, Bool, true, false, not, Option, none, some, List, [], ◌∷◌, ◌==◌,
  if◌then◌else◌,
}
use bridge_go_aptos.Go.{
  ok, key_value_not_found, get_eth_finalized_block_number, set_eth_finalized_block_number,
  stored_eth_finalized_block_number_invalid, get_eth_chain_id, set_eth_chain_id,
  eth_chain_id_unmatched_stored,
}
use bridge_go_aptos.BigInt.{ℤ, pos, abs, cmp_eq, cmp_le}
use bridge_go_aptos.Agreement.{Hash}
use bridge_go_aptos.Sql.{Exec, pure, raise, query, exec, prepare, or_error, ◌>>=◌, ◌>>◌}

-- The table kv, and the cache. A number in the cache is the one that its bytes spell.
pub record Memory : Type 0 where
  pub kv : List (Hash × Hash)
  pub last_eth_finalized : Option ℕ
  pub eth_chain_id : Option ℕ
  pub last_btc_finalized : Option ℕ

-- An assignment to a field of the cache, which is no call of the database.
unfoldable pub store : (Memory → Memory) → Exec Memory (Unit {0})
store f d = (ok tt, record d { table = f d.table })

unfoldable pub lookup : Hash → List (Hash × Hash) → Option Hash
lookup key [] = none
lookup key ((k, v) ∷ rows) = if k == key then some v else lookup key rows

-- INSERT OR REPLACE
unfoldable pub replace : Hash → Hash → List (Hash × Hash) → List (Hash × Hash)
replace key value [] = (key, value) ∷ []
replace key value ((k, v) ∷ rows) =
    let rest = replace key value rows in if k == key then (key, value) ∷ rows else (k, v) ∷ rest

unfoldable pub get_keyed_value : Hash → Exec Memory (Option Hash)
get_keyed_value key = do prepare; query (λ m. lookup key m.kv)

unfoldable pub set_keyed_value : Hash → Hash → Exec Memory (Unit {0})
set_keyed_value key value = do prepare; exec (λ m. ok (record m { kv = replace key value m.kv }))

-- common.BigInt2Bytes32: the bytes of the absolute value, padded to 32 on the left; of more than 32
-- bytes the conversion takes the first 32. Each round drops the last byte, so `n` rounds are enough.
unfoldable pub first_bytes : ℕ → ℕ → Hash
first_bytes zero n = n
first_bytes (suc rounds) n = elim (ltb n (2 ^ 256)) [
  | true ↦ n
  | false ↦ first_bytes rounds (n / 256)
]

abbrev pub bytes32 : ℤ → Hash
bytes32 z = first_bytes (abs z) (abs z)

abbrev pub or_key_not_found : Option Hash → (Hash → Exec Memory ℕ) → Exec Memory ℕ
or_key_not_found none k = raise key_value_not_found
or_key_not_found (some b) k = k b

-- What the cache is loaded with.
unfoldable pub read_cache : (Memory → Option ℕ) → Exec Memory (Option ℕ)
read_cache slot d = (ok (slot d.table), d)

module _ (key_eth : Hash) where
  abbrev pub eth_from_table : Exec Memory ℕ
  eth_from_table = do
    found ← get_keyed_value key_eth
    or_key_not_found found λ b. do store (λ m. record m { last_eth_finalized = some b }); pure b

  abbrev pub eth_or_table : Option ℕ → Exec Memory ℕ
  eth_or_table (some v) = pure v
  eth_or_table none = eth_from_table

  unfoldable pub get_blockchain_finalized_block_number : Exec Memory ℕ
  get_blockchain_finalized_block_number = do
    cached ← read_cache (λ m. m.last_eth_finalized)
    eth_or_table cached

  unfoldable pub set_finalized_block_number : ℤ → Exec Memory (Unit {0})
  set_finalized_block_number fb_num = do
    set_keyed_value key_eth (bytes32 fb_num)
    store (λ m. record m { last_eth_finalized = some (abs fb_num) })

  abbrev pub set_if : Bool → ℤ → Exec Memory (Unit {0})
  set_if false blk_num = pure tt
  set_if true blk_num = or_error set_eth_finalized_block_number (set_finalized_block_number blk_num)

  -- Start, on a new block number of the chain; the number is not nil.
  unfoldable pub handle_new_block_number : ℤ → Exec Memory (Unit {0})
  handle_new_block_number blk_num = do
    last_finalized ← or_error get_eth_finalized_block_number get_blockchain_finalized_block_number
    set_if (cmp_le (pos last_finalized) blk_num) blk_num

module _ (key_btc : Hash) where
  abbrev pub btc_from_table : Exec Memory ℕ
  btc_from_table = do
    found ← get_keyed_value key_btc
    or_key_not_found found λ b. do store (λ m. record m { last_btc_finalized = some b }); pure b

  abbrev pub btc_or_table : Option ℕ → Exec Memory ℕ
  btc_or_table (some v) = pure v
  btc_or_table none = btc_from_table

  unfoldable pub get_btc_finalized_block_number : Exec Memory ℕ
  get_btc_finalized_block_number = do
    cached ← read_cache (λ m. m.last_btc_finalized)
    btc_or_table cached

  unfoldable pub set_btc_finalized_block_number : ℤ → Exec Memory (Unit {0})
  set_btc_finalized_block_number fb_num = do
    set_keyed_value key_btc (bytes32 fb_num)
    store (λ m. record m { last_btc_finalized = some (abs fb_num) })

-- common.EthStartingBlock is a parameter, for a variable of the package that main may set.
module _ (key_eth key_chain : Hash) (starting_block unique_chain_id : ℕ) where
  abbrev pub init_block_from : Option Hash → Exec Memory (Unit {0})
  init_block_from none = do
    or_error set_eth_finalized_block_number (set_keyed_value key_eth (bytes32 (pos starting_block)))
    store (λ m. record m { last_eth_finalized = some starting_block })
  init_block_from (some stored) =
      if not (cmp_le (pos starting_block) (pos stored))
      then raise stored_eth_finalized_block_number_invalid
      else store (λ m. record m { last_eth_finalized = some stored })

  unfoldable pub init_eth_finalized_block : Exec Memory (Unit {0})
  init_eth_finalized_block = do
    found ← or_error get_eth_finalized_block_number (get_keyed_value key_eth)
    init_block_from found

  abbrev pub init_chain_from : Option Hash → Exec Memory (Unit {0})
  init_chain_from none = do
    or_error set_eth_chain_id (set_keyed_value key_chain (bytes32 (pos unique_chain_id)))
    store (λ m. record m { eth_chain_id = some unique_chain_id })
  init_chain_from (some stored) =
      if not (cmp_eq (pos stored) (pos unique_chain_id))
      then raise eth_chain_id_unmatched_stored
      else store (λ m. record m { eth_chain_id = some stored })

  unfoldable pub init_eth_chain_id : Exec Memory (Unit {0})
  init_eth_chain_id = do
    found ← or_error get_eth_chain_id (get_keyed_value key_chain)
    init_chain_from found

  -- New, on an empty cache.
  unfoldable pub new_state : Exec Memory (Unit {0})
  new_state = do init_eth_finalized_block; init_eth_chain_id
