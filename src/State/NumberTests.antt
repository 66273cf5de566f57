-- ===== src/State/NumberTests.antt =====
-- Runs of the finalized block number of state on small tables.
use bridge_go_aptos.Prelude.{
  ℕ, ◌≡◌, refl, true, List, [], ◌∷◌, Option, none, some, arith, leb, if◌then◌else◌,
}
use bridge_go_aptos.Go.{ok}
use bridge_go_aptos.BigInt.{ℤ, pos, negsuc, cmp_le, cmp_eq}
use bridge_go_aptos.Sql.{Disk, works, fails, query, exec, prepare, or_error, ◌>>=◌, pure, raise}
use bridge_go_aptos.State.Numbers.{
  Memory, handle_new_block_number, init_eth_finalized_block, init_eth_chain_id, new_state,
  get_keyed_value, set_keyed_value, store, lookup, replace, first_bytes,
}
use bridge_go_aptos.State.Finalized.{
  current, stored, at_least, handle_numbers, numbers_never_fall, restart_reads_same,
  handle_new_block_number_lem, new_state_lem,
}

abbrev memory : Option ℕ → Memory
memory cached = record {
  kv = (2, 20) ∷ [];
  last_eth_finalized = cached;
  eth_chain_id = none;
  last_btc_finalized = none;
}

-- The second call of the database fails.
abbrev failing : Disk Memory
failing = record { table = memory (some 20); faults = works ∷ fails ∷ [] }

abbrev quiet : Disk Memory
quiet = record { table = memory none; faults = [] }

abbrev numbers : List ℤ
numbers = pos 25 ∷ negsuc 3 ∷ pos 22 ∷ pos 30 ∷ []

numbers_never_fall_example :
    at_least 2 15 (current 2 (handle_numbers 2 numbers failing).table) ≡ true
numbers_never_fall_example = numbers_never_fall 2 15 numbers failing refl

restart_reads_same_example :
    stored 2 (handle_numbers 2 numbers failing).table
    ≡ current 2 (handle_numbers 2 numbers failing).table
restart_reads_same_example =
    restart_reads_same 2 numbers failing
      (omega arith, (omega arith, (omega arith, (omega arith, tt)))) (unfold lookup in refl)

handle_new_block_number_lem_example :
    ((handle_new_block_number 2 (pos 25) quiet).0 ≡ ok tt)
    × (current 2 (handle_new_block_number 2 (pos 25) quiet).1.table
        ≡ some (if leb 20 25 then 25 else 20))
handle_new_block_number_lem_example =
    handle_new_block_number_lem 2 20 25 quiet refl (unfold lookup in refl)

abbrev started : Disk Memory
started = record {
  table = record {
    kv = (2, 20) ∷ (5, 9) ∷ [];
    last_eth_finalized = some 20;
    eth_chain_id = some 9;
    last_btc_finalized = none;
  };
  faults = [];
}

starts : new_state 2 5 1 9 quiet ≡ (ok tt, started)
unfolding new_state init_eth_finalized_block init_eth_chain_id get_keyed_value set_keyed_value store
    lookup replace first_bytes prepare query exec pure raise or_error ◌>>=◌ cmp_le cmp_eq
starts = refl

new_state_lem_example :
    (at_least 2 1 started.table.last_eth_finalized ≡ true) × (started.table.eth_chain_id ≡ some 9)
new_state_lem_example = new_state_lem 2 5 1 9 quiet started starts
