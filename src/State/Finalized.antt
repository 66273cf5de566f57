-- ===== src/State/Finalized.antt =====
-- The finalized block number of state/state.go: what is in memory, what is in the table, and how the
-- numbers that arrive change them.
use bridge_go_aptos.Prelude.{
  ◌≤◌, ltb, ◌/◌, Bool-cases, inl, inr, ℕ, ◌<◌, ◌^◌, ◌≡◌, refl, sym, Bool, true, false, Option, none,
  some, List, [], ◌∷◌, if◌then◌else◌, All, arith, zero, suc, leb,
}
use bridge_go_aptos.Go.{ok}
use bridge_go_aptos.BigInt.{ℤ, pos, negsuc, abs, cmp_eq, cmp_le}
use bridge_go_aptos.Agreement.{Hash}
use bridge_go_aptos.Sql.{Disk, pure, raise, query, exec, prepare, or_error, ◌>>=◌}
use bridge_go_aptos.Sql.Laws.{>>=-eq-ok}
use bridge_go_aptos.State.Numbers.{
  bytes32, first_bytes, Memory, lookup, replace, get_keyed_value, set_keyed_value, store,
  read_cache, get_blockchain_finalized_block_number, set_finalized_block_number,
  handle_new_block_number, init_eth_finalized_block, init_eth_chain_id, new_state,
}

lookup-replace :
    (key value : Hash) (rows : List (Hash × Hash))
    → lookup key (replace key value rows) ≡ some value
unfolding lookup replace
lookup-replace key value [] = ground arith
lookup-replace key value ((k, v) ∷ rows) = ground (arith, lookup-replace key value rows)

first_bytes-fits : (rounds n : ℕ) → n ≤ rounds → first_bytes rounds n < 2 ^ 256
unfolding first_bytes
first_bytes-fits zero n h = omega arith
first_bytes-fits (suc rounds) n h = elim (Bool-cases (ltb n (2 ^ 256))) [
  | inl small ↦ rw (first_bytes, small) (ground arith)
  | inr large ↦ rw (first_bytes, large) (first_bytes-fits rounds (n / 256) (ground arith))
]

-- The rounds that BigInt2Bytes32 is given are enough: it gives at most 32 bytes.
bytes32-fits : (z : ℤ) → bytes32 z < 2 ^ 256
bytes32-fits z = first_bytes-fits (abs z) (abs z) (omega arith)

module _ (key_eth : Hash) where
  -- The number that the program goes by: that of the cache, or that of the table.
  abbrev pub current : Memory → Option ℕ
  current m = elim m.last_eth_finalized [ none ↦ lookup key_eth m.kv | some n ↦ some n ]

  -- What a restart reads.
  abbrev pub stored : Memory → Option ℕ
  stored m = lookup key_eth m.kv

  abbrev pub at_least : ℕ → Option ℕ → Bool
  at_least n none = false
  at_least n (some m) = leb n m

  -- The numbers in the order in which they arrive, whether a handler fails or not.
  unfoldable pub handle_numbers : List ℤ → Disk Memory → Disk Memory
  handle_numbers [] d = d
  handle_numbers (z ∷ zs) d = handle_numbers zs (handle_new_block_number key_eth z d).1

  handle-current :
      (n : ℕ) (z : ℤ) (d : Disk Memory)
      → at_least n (current d.table) ≡ true
      → at_least n (current (handle_new_block_number key_eth z d).1.table) ≡ true
  unfolding handle_new_block_number get_blockchain_finalized_block_number set_finalized_block_number
      get_keyed_value set_keyed_value store read_cache prepare query exec ◌>>=◌ or_error cmp_le pure
      raise
  handle-current n (pos k) d h = ground arith
  handle-current n (negsuc k) d h = ground arith

  -- The finalized block number never falls, whatever numbers arrive and whatever calls of the
  -- database fail.
  pub numbers_never_fall :
      (n : ℕ) (zs : List ℤ) (d : Disk Memory)
      → at_least n (current d.table) ≡ true
      → at_least n (current (handle_numbers zs d).table) ≡ true
  unfolding handle_numbers
  numbers_never_fall n [] d h = h
  numbers_never_fall n (z ∷ zs) d h =
      numbers_never_fall n zs (handle_new_block_number key_eth z d).1 (handle-current n z d h)

  -- A number of at most 32 bytes is written as it is.
  first_bytes-small : (rounds n : ℕ) → n < 2 ^ 256 → first_bytes rounds n ≡ n
  unfolding first_bytes
  first_bytes-small zero n h = refl
  first_bytes-small (suc rounds) n h = ground arith

  -- The cache, where it is loaded, has the number of the table.
  abbrev pub Coherent : Memory → Type 0
  Coherent m = current m ≡ stored m

  handle-Coherent :
      (z : ℤ) (d : Disk Memory)
      → abs z < 2 ^ 256
      → Coherent d.table
      → Coherent (handle_new_block_number key_eth z d).1.table
  unfolding handle_new_block_number get_blockchain_finalized_block_number set_finalized_block_number
      get_keyed_value set_keyed_value store read_cache prepare query exec ◌>>=◌ or_error cmp_le pure
      raise
  handle-Coherent (pos k) d small h =
      ground (arith, first_bytes-small k k small, lookup-replace key_eth k d.table.kv)
  handle-Coherent (negsuc k) d small h = ground arith

  -- Where the cache, if loaded, has the number of the table, it does so after any numbers of at most
  -- 32 bytes, whatever calls of the database fail: a restart, which loses the cache, goes by the same
  -- number as before.
  pub restart_reads_same :
      (zs : List ℤ) (d : Disk Memory)
      → All (λ z. abs z < 2 ^ 256) zs
      → Coherent d.table
      → stored (handle_numbers zs d).table ≡ current (handle_numbers zs d).table
  unfolding handle_numbers
  restart_reads_same [] d small h = sym h
  restart_reads_same (z ∷ zs) d small h =
      restart_reads_same zs (handle_new_block_number key_eth z d).1 small.1
        (handle-Coherent z d small.0 h)

  -- Where no call of the database fails and a number is known, a new number that is not negative is
  -- handled without an error, and the larger of the two is the number afterwards.
  pub handle_new_block_number_lem :
      (last k : ℕ) (d : Disk Memory)
      → d.faults ≡ []
      → current d.table ≡ some last
      → ((handle_new_block_number key_eth (pos k) d).0 ≡ ok tt)
        × (current (handle_new_block_number key_eth (pos k) d).1.table
            ≡ some (if leb last k then k else last))
  unfolding handle_new_block_number get_blockchain_finalized_block_number set_finalized_block_number
      get_keyed_value set_keyed_value store read_cache prepare query exec ◌>>=◌ or_error cmp_le pure
      raise
  handle_new_block_number_lem last k d quiet known = ground arith

module _ (key_eth key_chain : Hash) (starting_block unique_chain_id : ℕ) where
  init_block-eq-ok :
      (d d' : Disk Memory)
      → init_eth_finalized_block key_eth key_chain starting_block unique_chain_id d ≡ (ok tt, d')
      → at_least key_eth starting_block d'.table.last_eth_finalized ≡ true
  unfolding init_eth_finalized_block get_keyed_value set_keyed_value store prepare query exec ◌>>=◌
      or_error cmp_le pure raise
  init_block-eq-ok d d' e = ground arith

  init_chain-eq-ok :
      (d d' : Disk Memory)
      → init_eth_chain_id key_eth key_chain starting_block unique_chain_id d ≡ (ok tt, d')
      → (d'.table.eth_chain_id ≡ some unique_chain_id)
        × (d'.table.last_eth_finalized ≡ d.table.last_eth_finalized)
  unfolding init_eth_chain_id get_keyed_value set_keyed_value store prepare query exec ◌>>=◌
      or_error cmp_eq pure raise
  init_chain-eq-ok d d' e = ground arith

  -- Whenever New succeeds, whatever the table held, the finalized block number in memory is not below
  -- the starting block, and the chain id in memory is that of the configuration.
  pub new_state_lem :
      (d d' : Disk Memory)
      → new_state key_eth key_chain starting_block unique_chain_id d ≡ (ok tt, d')
      → (at_least key_eth starting_block d'.table.last_eth_finalized ≡ true)
        × (d'.table.eth_chain_id ≡ some unique_chain_id)
  unfolding new_state
  new_state_lem d d' e =
      let (x, d1, first, second) = >>=-eq-ok _ _ d d' tt e in
      let (chain, same) = init_chain-eq-ok d1 d' second in
      (rw same (init_block-eq-ok d d1 first), chain)
