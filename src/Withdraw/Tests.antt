-- ===== src/Withdraw/Tests.antt =====
-- Runs of the loop that pays redeems.
use bridge_go_aptos.Prelude.{◌≡◌, refl, true, false, none, some, [], ◌∷◌, ◌==◌, if◌then◌else◌}
use bridge_go_aptos.Go.{ok}
use bridge_go_aptos.Agreement.{Hash}
use bridge_go_aptos.State.Redeem.{prepared}
use bridge_go_aptos.State.Tables.{RedeemRow}
use bridge_go_aptos.Vault.Utxo.{VaultUtxo}
use bridge_go_aptos.BtcTx.{Btcd}
use bridge_go_aptos.BtcAction.Redeems.{any_row, has_id}
use bridge_go_aptos.Withdraw.{World, Outside, withdraw_round, request_id, remove_0x_prefix}
use bridge_go_aptos.Withdraw.Once.{stay, step, round, payments_of, never_paid_again}

abbrev btcd : Btcd
btcd = record {
  pay_to_address = λ a. ok (1 ∷ []);
  null_data_script = λ p. ok p;
  signature_script = λ tx i s. ok (9 ∷ []);
  hex_to_address = λ a. [];
  encode_rlp = λ id address. ok address;
}

-- The hash 3 has the text "0xaa", another has "0xbb".
abbrev outside : Outside
outside = record {
  btcd = btcd;
  hash_to_string = λ h. if h == 3 then "0xaa" else "0xbb";
  new_hash_from_str = λ s. some 8;
  change_address = "c";
  send_raw_transaction = λ sent tx. ok "cc";
}

abbrev ready : Hash → RedeemRow
ready h = record {
  request_tx_hash = h;
  prepare_tx_hash = some 6;
  btc_tx_id = none;
  requester = 1 ∷ [];
  receiver = "r";
  amount = 50;
  outpoints = some (record { btc_tx_id = 9; btc_idx = 1 } ∷ []);
  status = prepared;
}

abbrev utxo : VaultUtxo
utxo = record {
  block_number = 1;
  block_hash = "h";
  tx_id = "bb";
  vout = 1;
  amount = 20000;
  pk_script = [];
  lockup = true;
  spent = false;
  timeout = 0;
  linked_id = "bb";
}

abbrev start : World
start = record {
  statedb = record { table = record { redeem = ready 3 ∷ ready 4 ∷ []; mint = [] }; faults = [] };
  vault = record { table = utxo ∷ []; faults = [] };
  mgr_state = record {
    table = record { eth_request_tx_id = "aa"; btc_hash = "dd"; sent = true; mined = false } ∷ [];
    faults = [];
  };
  sent = [];
}

abbrev paid : World
paid = (withdraw_round outside start).1

tracked : any_row (has_id (request_id outside 3)) start.mgr_state.table ≡ true
unfolding any_row remove_0x_prefix
tracked = refl

never_paid_again_example :
    (payments_of 3 paid.sent ≡ payments_of 3 start.sent)
    × (any_row (has_id (request_id outside 3)) paid.mgr_state.table ≡ true)
never_paid_again_example = never_paid_again outside 3 start paid (step stay round) tracked
