-- ===== src/State/Handlers.antt =====
-- state/state.go: what Start does with each event that arrives on a channel, and the two methods that
-- the Bitcoin side calls.
use bridge_go_aptos.Prelude.{Option, none, some, List, [], ◌∷◌}
use bridge_go_aptos.Go.{
  db_op_update_mint, db_op_has_redeem, db_op_insert_redeem, requested_event_invalid,
  update_invalid_redeem, db_op_get_redeem, prepared_event_unmatched, prepared_event_invalid,
  db_op_update_redeem,
}
use bridge_go_aptos.Agreement.{Hash, MintedEvent, RedeemRequestedEvent, RedeemPreparedEvent}
use bridge_go_aptos.Sql.{Disk, Exec, pure, raise, lift, or_error, ◌>>=◌}
use bridge_go_aptos.State.Redeem.{
  Redeem, RedeemStatus, requested, prepared, completed, invalid, create_redeem_from_requested_event,
  update_from_prepared_event, create_redeem_from_prepared_event,
}
use bridge_go_aptos.State.Tables.{Tables, Mint, create_mint_from_minted_event}
use bridge_go_aptos.State.RedeemDb.{
  insert_after_requested, get_redeem, update_after_prepared, update_after_redeemed, has_redeem,
  get_redeems_by_status,
}
use bridge_go_aptos.State.MintDb.{update_mint}

unfoldable pub handle_minted : MintedEvent → Exec Tables (Unit {0})
handle_minted ev = or_error db_op_update_mint (update_mint (create_mint_from_minted_event ev))

abbrev pub insert_requested : RedeemRequestedEvent → Option RedeemStatus → Exec Tables (Unit {0})
insert_requested ev (some status) = pure tt
insert_requested ev none = do
  redeem ← or_error requested_event_invalid (lift (create_redeem_from_requested_event ev))
  or_error db_op_insert_redeem (insert_after_requested redeem)

unfoldable pub handle_requested : RedeemRequestedEvent → Exec Tables (Unit {0})
handle_requested ev = do
  found ← or_error db_op_has_redeem (has_redeem ev.request_tx_hash)
  insert_requested ev found

unfoldable pub update_decoded : RedeemPreparedEvent → Redeem → Exec Tables (Unit {0})
update_decoded ev redeem = do
  redeem' ← or_error prepared_event_unmatched (lift (update_from_prepared_event redeem ev))
  or_error db_op_update_redeem (update_after_prepared redeem')

abbrev pub update_found : RedeemPreparedEvent → Option Redeem → Exec Tables (Unit {0})
update_found ev none = raise db_op_get_redeem
update_found ev (some redeem) = update_decoded ev redeem

-- A requested redeem is read, updated and written.
unfoldable pub update_stored : RedeemPreparedEvent → Exec Tables (Unit {0})
update_stored ev = do
  stored ← or_error db_op_get_redeem (get_redeem ev.request_tx_hash)
  update_found ev stored

unfoldable pub insert_prepared : RedeemPreparedEvent → Exec Tables (Unit {0})
insert_prepared ev = do
  redeem ← or_error prepared_event_invalid (lift (create_redeem_from_prepared_event ev))
  or_error db_op_update_redeem (update_after_prepared redeem)

abbrev pub by_status : RedeemPreparedEvent → Option RedeemStatus → Exec Tables (Unit {0})
by_status ev none = insert_prepared ev
by_status ev (some prepared) = pure tt
by_status ev (some completed) = pure tt
by_status ev (some invalid) = raise update_invalid_redeem
by_status ev (some requested) = update_stored ev

unfoldable pub handle_prepared : RedeemPreparedEvent → Exec Tables (Unit {0})
handle_prepared ev = do
  found ← or_error db_op_has_redeem (has_redeem ev.request_tx_hash)
  by_status ev found

unfoldable pub set_new_btc2evm_mint : Mint → Exec Tables (Unit {0})
set_new_btc2evm_mint m = update_mint m

unfoldable pub get_prepared_redeems : Exec Tables (List Redeem)
get_prepared_redeems = get_redeems_by_status prepared

-- The redeem that SetRedeemCompleted builds: the fields that it does not name are zero values.
abbrev pub completed_redeem : Hash → Hash → Redeem
completed_redeem request_tx_hash btc_tx_hash = record {
  request_tx_hash = request_tx_hash;
  prepare_tx_hash = 0;
  btc_tx_id = btc_tx_hash;
  requester = [];
  receiver = "";
  amount = none;
  outpoints = none;
  status = completed;
}

unfoldable pub set_redeem_completed : Hash → Hash → Exec Tables (Unit {0})
set_redeem_completed request_tx_hash btc_tx_hash =
    update_after_redeemed (completed_redeem request_tx_hash btc_tx_hash)

-- Everything that is done to the tables: the events of the channels, and the calls.
pub data Event : Type 0 where
  minted : MintedEvent → Event
  redeem_requested : RedeemRequestedEvent → Event
  redeem_prepared : RedeemPreparedEvent → Event
  new_mint : Mint → Event
  redeem_completed : Hash → Hash → Event

unfoldable pub handle : Event → Exec Tables (Unit {0})
handle (minted ev) = handle_minted ev
handle (redeem_requested ev) = handle_requested ev
handle (redeem_prepared ev) = handle_prepared ev
handle (new_mint m) = set_new_btc2evm_mint m
handle (redeem_completed request_tx_hash btc_tx_hash) =
    set_redeem_completed request_tx_hash btc_tx_hash

-- The events in the order in which they are handled, whether a handler fails or not.
unfoldable pub handle_all : List Event → Disk Tables → Disk Tables
handle_all [] d = d
handle_all (ev ∷ evs) d = handle_all evs (handle ev d).1
