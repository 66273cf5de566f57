-- ===== src/State/Tests.antt =====
-- Runs of the handlers of state on small tables.
use mathlib.Core.List.{Perm}
use mathlib.Core.List.Perm
use bridge_go_aptos.Prelude.{◌≡◌, refl, true, false, List, [], ◌∷◌, ◌++◌, Option, none, some, arith}
use bridge_go_aptos.Go.{ok, is_ok}
use bridge_go_aptos.BigInt.{pos}
use bridge_go_aptos.Agreement.{Hash, RedeemRequestedEvent, RedeemPreparedEvent}
use bridge_go_aptos.Sql.{Disk, works, fails, query, query_rows, exec, prepare, ◌>>=◌, pure, lift}
use bridge_go_aptos.State.Redeem.{same_bytes, has_empty_tx_id}
use bridge_go_aptos.State.Tables.{
  Tables, RedeemRow, Mint, MintRow, mint_tx_hash_taken, decode_mint, prepare_tx_hash_taken,
}
use bridge_go_aptos.State.RedeemDb.{find_redeem}
use bridge_go_aptos.State.MintDb.{
  find_mint, update_mint, get_mint, set_mint_tx_hash, update_mint_row, other_mints, get_un_minted,
}
use bridge_go_aptos.State.Handlers.{
  Event, redeem_requested, redeem_prepared, new_mint, handle, handle_all, set_new_btc2evm_mint,
  set_redeem_completed,
}
use bridge_go_aptos.State.Lifecycle.{RowStep}
use bridge_go_aptos.State.Life.{handle-RowStep, set_redeem_completed_lem}
use bridge_go_aptos.State.History.{
  Becomes, AllConsistent, handle_all-Becomes, prepared_is_final, handle_all-AllConsistent,
}
use bridge_go_aptos.State.Arrival.{Announced, row_requested, row_prepared, without_faults}
use bridge_go_aptos.State.EitherOrder.{either_order}
use bridge_go_aptos.State.Minted.{Minted}
use bridge_go_aptos.State.MintOnce.{NotOffered, Minted-NotOffered, update_mint_lem}
use bridge_go_aptos.State.Deposits.{NewDeposit, announced_again_lost, first_announced_offered}

abbrev request : RedeemRequestedEvent
request = record {
  request_tx_hash = 3;
  requester = 1 ∷ [];
  receiver = "r";
  amount = some (pos 50);
  is_valid_receiver = true;
}

abbrev preparation : RedeemPreparedEvent
preparation = record {
  request_tx_hash = 3;
  prepare_tx_hash = 4;
  requester = 1 ∷ [];
  receiver = "r";
  amount = some (pos 50);
  outpoint_tx_ids = 9 ∷ [];
  outpoint_idxs = 1 ∷ [];
}

abbrev empty : Tables
empty = record { redeem = []; mint = [] }

-- The first call of the database fails, and the third.
abbrev failing : Tables → Disk Tables
failing t = record { table = t; faults = fails ∷ works ∷ fails ∷ [] }

abbrev both : List Event
both = redeem_requested request ∷ redeem_prepared preparation ∷ []

request-Announced : Announced request preparation 50
unfolding same_bytes has_empty_tx_id
request-Announced = record {
  same_hash = refl;
  same_requester = refl;
  same_receiver = refl;
  prepared_amount = refl;
  amount = refl;
  positive = omega arith;
  fits = omega arith;
  hash = ground arith;
  requester = refl;
  receiver = refl;
  prepare_tx_hash = ground arith;
  outpoints = refl;
  idxs = refl;
  outpoint_tx_ids = refl;
}

abbrev stored : Tables
stored = record { redeem = row_requested request 50 ∷ []; mint = [] }

abbrev ready : Tables
ready = record { redeem = row_prepared request preparation 50 ∷ []; mint = [] }

either_order_example :
    (find_redeem 3 (handle_all both (without_faults empty)).table.redeem
      ≡ some (row_prepared request preparation 50))
    × (find_redeem 3
          (handle_all
            (redeem_prepared preparation ∷ redeem_requested request ∷ [])
            (without_faults empty)).table.redeem
        ≡ some (row_prepared request preparation 50))
either_order_example =
    either_order request preparation 50 request-Announced empty (unfold find_redeem in refl)
      (unfold prepare_tx_hash_taken in refl)

handle-RowStep_example :
    RowStep 3
      (find_redeem 3 stored.redeem)
      (find_redeem 3 (handle (redeem_prepared preparation) (without_faults stored)).1.table.redeem)
handle-RowStep_example = handle-RowStep 3 (redeem_prepared preparation) (without_faults stored)

handle_all-Becomes_example :
    (s : RedeemRow) × (find_redeem 3 (handle_all both (failing stored)).table.redeem ≡ some s)
    × Becomes (row_requested request 50) s
handle_all-Becomes_example =
    handle_all-Becomes 3 both (failing stored) (row_requested request 50)
      (unfold find_redeem in refl)

prepared_is_final_example :
    find_redeem 3 (handle_all both (failing ready)).table.redeem
    ≡ some (row_prepared request preparation 50)
prepared_is_final_example =
    prepared_is_final 3 both (failing ready) (row_prepared request preparation 50)
      (unfold find_redeem in refl) refl

empty-AllConsistent : AllConsistent empty
unfolding find_redeem
empty-AllConsistent h r e = absurd (cc)

handle_all-AllConsistent_example : AllConsistent (handle_all both (failing empty)).table
handle_all-AllConsistent_example = handle_all-AllConsistent both (failing empty) empty-AllConsistent

set_redeem_completed_lem_example :
    (is_ok (set_redeem_completed 3 8 (without_faults ready)).0 ≡ false)
    × ((set_redeem_completed 3 8 (without_faults ready)).1.table ≡ ready)
set_redeem_completed_lem_example = set_redeem_completed_lem 3 8 (without_faults ready)

abbrev deposit : Mint
deposit = record { btc_tx_id = 6; mint_tx_hash = 0; receiver = 1 ∷ []; amount = some (pos 70) }

abbrev mint_seen : Mint
mint_seen = record { btc_tx_id = 6; mint_tx_hash = 7; receiver = 1 ∷ []; amount = some (pos 70) }

abbrev deposit_row : Option Hash → MintRow
deposit_row mint_tx_hash = record {
  btc_tx_id = 6;
  mint_tx_hash = mint_tx_hash;
  receiver = 1 ∷ [];
  amount = 70;
}

abbrev mints : Option Hash → Disk Tables
mints mint_tx_hash = without_faults (record { redeem = []; mint = deposit_row mint_tx_hash ∷ [] })

abbrev in_order : List MintRow → List MintRow
in_order rows = rows

in_order-perm : (rows : List MintRow) → Perm (in_order rows) rows
in_order-perm rows = Perm.refl rows

update_seen : update_mint mint_seen (mints none) ≡ (ok tt, mints (some 7))
unfolding update_mint get_mint find_mint prepare query query_rows exec lift pure ◌>>=◌
    set_mint_tx_hash mint_tx_hash_taken other_mints update_mint_row decode_mint
update_seen = refl

mints-Minted : Minted 6 (mints (some 7)).table
unfolding find_mint
mints-Minted = (refl, (λ _. refl, tt))

update_mint_lem_example : Minted 6 (mints (some 7)).table
update_mint_lem_example =
    update_mint_lem mint_seen (mints none) (mints (some 7)) (λ _. ground arith) update_seen

none_offered :
    (h : Hash) → get_un_minted in_order (handle_all [] (mints (some h))) ≡ (ok [], mints (some h))
unfolding handle_all get_un_minted prepare query_rows pure ◌>>=◌
none_offered h = refl

-- The deposit is announced again after its mint.
later_none_offered :
    get_un_minted in_order (handle_all (new_mint deposit ∷ []) (mints (some 7)))
    ≡ (ok [], mints (some 0))
unfolding handle_all handle set_new_btc2evm_mint update_mint get_mint find_mint prepare query
    query_rows exec lift pure ◌>>=◌ set_mint_tx_hash mint_tx_hash_taken other_mints update_mint_row
    decode_mint get_un_minted
later_none_offered = refl

Minted-NotOffered_example : NotOffered 6 []
Minted-NotOffered_example =
    Minted-NotOffered in_order in_order-perm 6 (new_mint deposit ∷ []) (mints (some 7))
      (mints (some 0)) [] mints-Minted later_none_offered

announced_twice : set_new_btc2evm_mint deposit (mints none) ≡ (ok tt, mints (some 0))
unfolding set_new_btc2evm_mint update_mint get_mint find_mint prepare query query_rows exec lift
    pure ◌>>=◌ set_mint_tx_hash mint_tx_hash_taken other_mints update_mint_row decode_mint
announced_twice = refl

announced_again_lost_example : NotOffered 6 []
announced_again_lost_example =
    announced_again_lost in_order in_order-perm deposit (deposit_row none) [] (mints none)
      (mints (some 0)) (mints (some 0)) [] (unfold find_mint in refl) announced_twice
      (none_offered 0)

deposit-NewDeposit : NewDeposit deposit 70
unfolding same_bytes
deposit-NewDeposit = record {
  mint_tx_hash = refl;
  btc_tx_id = ground arith;
  receiver = refl;
  amount = refl;
  positive = omega arith;
  fits = omega arith;
}

none_before : (get_un_minted in_order (without_faults empty)).0 ≡ ok []
unfolding get_un_minted prepare query_rows pure ◌>>=◌
none_before = refl

first_announced_offered_example :
    ((set_new_btc2evm_mint deposit (without_faults empty)).0 ≡ ok tt)
    × ((ns : List Mint) × ((get_un_minted in_order
            (set_new_btc2evm_mint deposit (without_faults empty)).1).0
          ≡ ok ns)
        × Perm ns ([] ++ deposit ∷ []))
first_announced_offered_example =
    first_announced_offered in_order in_order-perm deposit 70 empty [] deposit-NewDeposit
      (unfold find_mint in refl) none_before
