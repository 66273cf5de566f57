-- ===== src/BtcSync/Tests.antt =====
-- Runs of the monitor of Bitcoin, and of the transactions that are made.
use bridge_go_aptos.Prelude.{
  ◌≤◌, ℕ, ◌+◌, ◌<◌, ◌≡◌, sym, subst, ◌++◌, inr, refl, true, some, List, [], ◌∷◌, map, All, arith,
  length,
}
use bridge_go_aptos.Go.{Outcome, ok, err, panic, change_negative, Outcome-of_ok, ◌>>=◌}
use bridge_go_aptos.Int64.{sub64, lt64, add64}
use bridge_go_aptos.BigInt.{pos}
use bridge_go_aptos.BtcUtxo.{Utxo, any_script_t}
use bridge_go_aptos.BtcTx.{
  append_pay_to_address, unlock, new_tx_ins, sign_all, set_script, sum_outputs, MsgTx, TxOut, Btcd,
  make_redeem_tx, craft_redeem_output, craft_bridge_deposit_outputs,
}
use bridge_go_aptos.BtcTx.Balance.{make_redeem_tx-balance, spent_by, paid}
use bridge_go_aptos.BtcTx.DepositData.{
  make_deposit_op_return_data, evm_addr_to_byte_array, Bytes4, int_to_byte_array, byte_array_to_int,
  byte_array_to_int-int_to_byte_array,
}
use bridge_go_aptos.BtcSync.{Outside, Monitor, Transaction, Block}
use bridge_go_aptos.BtcSync.Outputs.{
  pays_to, carries_data, maybe_just_transfer, craft_deposit_action,
}
use bridge_go_aptos.BtcSync.Blocks.{reverse, block_at, blocks_down, get_blocks}
use bridge_go_aptos.BtcSync.Scan.{inspect_tx, numbers_to_fetch, blk_mature_offset}
use bridge_go_aptos.BtcSync.Heights.{Has, IsBetween, new_heights_read, last_height_left_out}
use bridge_go_aptos.BtcSync.Found.{
  Pays, nth, Listed, maybe_just_transfer-outputs, short_data_panics,
}
use bridge_go_aptos.BtcSync.DepositTrip.{Codec, deposit_read_back}

-- Data is written after two bytes, and a deposit by the bytes of its chain id and its address.
abbrev btcd : Btcd
btcd = record {
  pay_to_address = λ a. ok (1 ∷ []);
  null_data_script = λ p. ok (106 ∷ length p ∷ p);
  signature_script = λ tx i s. ok (9 ∷ []);
  hex_to_address =
      λ a. 1 ∷ 2 ∷ 3 ∷ 4 ∷ 5 ∷ 6 ∷ 7 ∷ 8 ∷ 9 ∷ 10 ∷ 1 ∷ 2 ∷ 3 ∷ 4 ∷ 5 ∷ 6 ∷ 7 ∷ 8 ∷ 9 ∷ 10 ∷ [];
  encode_rlp = λ (a, b, c, d) address. ok (a ∷ b ∷ c ∷ d ∷ address);
}

abbrev decode : List ℕ → Outcome (Bytes4 × List ℕ)
decode (a ∷ b ∷ c ∷ d ∷ address) = ok ((a, b, c, d), address)
decode _ = err change_negative

-- Every script is the bridge's, every one counts as data, and all blocks are empty.
abbrev outside : Outside
outside = record {
  block_count = ok 50;
  block_count_again = ok 50;
  hash_at = λ h. ok "h";
  block_of = λ s. ok (record { block_hash = s; transactions = [] });
  height_of = λ s. ok 0;
  bridge_address = "b";
  addresses_of = λ s. ok ("b" ∷ []);
  is_null_data = λ s. true;
  decode_rlp = decode;
  address_hex = λ a. "a";
}

abbrev utxo : Utxo
utxo = record {
  tx_id = "t";
  tx_hash = some 8;
  vout = 1;
  amount = 100;
  pk_script_t = any_script_t;
  pk_script = [];
}

abbrev redeem_tx : MsgTx
redeem_tx = record {
  tx_in = record { hash = 8; index = 1; signature_script = 9 ∷ [] } ∷ [];
  tx_out =
      record { value = 60; pk_script = 1 ∷ [] }
      ∷ record { value = 0; pk_script = 106 ∷ 2 ∷ 4 ∷ 5 ∷ [] }
      ∷ record { value = 30; pk_script = 1 ∷ [] }
      ∷ [];
}

made : make_redeem_tx btcd "r" 60 (4 ∷ 5 ∷ []) "c" 10 (utxo ∷ []) ≡ ok redeem_tx
unfolding make_redeem_tx craft_redeem_output append_pay_to_address unlock new_tx_ins sign_all
    set_script sum_outputs ◌>>=◌ sub64 lt64 add64
made = refl

make_redeem_tx-balance_example :
    (map spent_by redeem_tx.tx_in ≡ (some 8, 1) ∷ [])
    × (paid redeem_tx.tx_out + 10 ≡ 100)
    × ((script : List ℕ) × (data_script : List ℕ) × (rest : List TxOut) × (btcd.pay_to_address "r"
          ≡ ok script)
        × (btcd.null_data_script (4 ∷ 5 ∷ []) ≡ ok data_script)
        × (redeem_tx.tx_out
            ≡ record { value = 60; pk_script = script }
              ∷ record { value = 0; pk_script = data_script }
              ∷ rest))
make_redeem_tx-balance_example =
    make_redeem_tx-balance btcd (utxo ∷ []) "r" "c" 60 10 (4 ∷ 5 ∷ []) redeem_tx (omega arith)
      (omega arith) made

byte_array_to_int-int_to_byte_array_example :
    (b : Bytes4) × (int_to_byte_array (pos 4294967295) ≡ ok b)
    × (byte_array_to_int b ≡ 4294967295)
    × ((b.0 < 256) × (b.1 < 256) × (b.2 < 256) × (b.3 < 256))
byte_array_to_int-int_to_byte_array_example =
    byte_array_to_int-int_to_byte_array 4294967295 (omega arith)

abbrev empty_block : Block
empty_block = record { block_hash = "h"; transactions = [] }

abbrev twelve : List Block
twelve =
    empty_block ∷ empty_block ∷ empty_block ∷ empty_block ∷ empty_block ∷ empty_block ∷ empty_block
    ∷ empty_block ∷ empty_block ∷ empty_block ∷ empty_block ∷ empty_block ∷ []

abbrev thirty_six : List Block
thirty_six = twelve ++ twelve ++ twelve

got_36 : get_blocks outside (numbers_to_fetch outside 50 40) blk_mature_offset ≡ ok thirty_six
unfolding get_blocks blocks_down block_at reverse ◌>>=◌
got_36 = refl

got_37 :
    get_blocks outside (numbers_to_fetch outside 50 12) blk_mature_offset
    ≡ ok (thirty_six ++ empty_block ∷ [])
unfolding get_blocks blocks_down block_at reverse ◌>>=◌
got_37 = refl

new_heights_read_example : (b : Block) × (block_at outside 40 ≡ ok b) × Has b thirty_six
new_heights_read_example =
    new_heights_read outside 40 50 40 thirty_six refl (omega arith) got_36 (inr (refl, omega arith))
      (omega arith)

last_height_left_out_example : All (IsBetween outside 13 50) (thirty_six ++ empty_block ∷ [])
last_height_left_out_example =
    last_height_left_out outside 12 50 (thirty_six ++ empty_block ∷ []) refl (omega arith) got_37

abbrev paying : TxOut
paying = record { value = 60; pk_script = 1 ∷ [] }

abbrev bare : TxOut
bare = record { value = 0; pk_script = 106 ∷ [] }

maybe_just_transfer-outputs_example :
    All
      (λ t. (nth (bare ∷ paying ∷ []) t.0 ≡ some t.1) × Pays outside t.1)
      (maybe_just_transfer outside (bare ∷ paying ∷ []))
    × ((k : ℕ) (out : TxOut)
        → nth (bare ∷ paying ∷ []) k ≡ some out
        → Pays outside out
        → Listed k out (maybe_just_transfer outside (bare ∷ paying ∷ [])))
maybe_just_transfer-outputs_example = maybe_just_transfer-outputs outside (bare ∷ paying ∷ [])

abbrev monitor : Monitor
monitor = record {
  last_visted_block_height = 40;
  mgr_state = record { table = []; faults = [] };
  notices = [];
}

abbrev bare_tx : Transaction
bare_tx = record { tx_hash = "x"; tx_out = paying ∷ bare ∷ [] }

short_data_panics_example : inspect_tx outside 40 empty_block bare_tx monitor ≡ (panic, monitor)
short_data_panics_example =
    short_data_panics outside 40 empty_block bare_tx paying bare [] monitor refl
      (unfold pays_to in refl) (unfold carries_data in refl) (omega arith)

abbrev deposit_tx : MsgTx
deposit_tx = record {
  tx_in = [];
  tx_out =
      record { value = 80; pk_script = 1 ∷ [] }
      ∷ record {
        value = 0;
        pk_script =
            106 ∷ 24 ∷ 0 ∷ 0 ∷ 1 ∷ 2 ∷ 1 ∷ 2 ∷ 3 ∷ 4 ∷ 5 ∷ 6 ∷ 7 ∷ 8 ∷ 9 ∷ 10 ∷ 1 ∷ 2 ∷ 3 ∷ 4 ∷ 5
            ∷ 6 ∷ 7 ∷ 8 ∷ 9 ∷ 10 ∷ [];
      }
      ∷ record { value = 10; pk_script = 1 ∷ [] }
      ∷ [];
}

deposit_made :
    craft_bridge_deposit_outputs btcd
      (record { tx_in = []; tx_out = [] })
      (utxo ∷ [])
      "b"
      80
      10
      "c"
      "e"
      (pos 258)
    ≡ ok deposit_tx
unfolding craft_bridge_deposit_outputs append_pay_to_address make_deposit_op_return_data
    int_to_byte_array evm_addr_to_byte_array sum_outputs ◌>>=◌ sub64 lt64 add64
deposit_made = refl

read_encoded :
    (id : Bytes4) (address payload : List ℕ)
    → btcd.encode_rlp id address ≡ ok payload
    → decode payload ≡ ok (id, address)
read_encoded (a, b, c, d) address payload e =
    subst (λ p. decode p ≡ ok ((a, b, c, d), address)) (Outcome-of_ok e) refl

encoded_fits :
    (id : Bytes4) (address payload : List ℕ)
    → length address ≡ 20
    → btcd.encode_rlp id address ≡ ok payload
    → (2 ≤ length payload) × (length payload ≤ 75)
encoded_fits (a, b, c, d) address payload n e =
    subst (λ p. (2 ≤ length p) × (length p ≤ 75)) (Outcome-of_ok e)
      (omega (arith, n), omega (arith, n))

codec : Codec btcd outside
codec = record {
  script_of = λ p s long short e. (106, length p, sym (Outcome-of_ok e));
  read_back = λ id address payload n e. read_encoded id address payload e;
  fits = encoded_fits;
}

deposit_read_back_example :
    craft_deposit_action outside
      (record { tx_hash = "x"; tx_out = deposit_tx.tx_out })
      40
      "h"
      deposit_tx.tx_out
    ≡ ok (record {
      basic = record { block_number = 40; block_hash = "h"; tx_hash = "x" };
      deposit_value = 80;
      deposit_receiver = "b";
      evm_id = 258;
      evm_addr = "a";
    })
deposit_read_back_example =
    deposit_read_back btcd outside (utxo ∷ []) "b" "c" "e" 80 10 258 40 deposit_tx "x" "h" codec
      (omega arith) deposit_made
