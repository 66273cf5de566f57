-- ===== src/BtcSync/Outputs.antt =====
-- btcman/utils/adapter.go: what the outputs of a transaction mean for the bridge.
use bridge_go_aptos.Prelude.{
  ℕ, suc, ◌%◌, ◌^◌, Bool, false, not, ◌&&◌, String, List, [], ◌∷◌, ◌==◌, if◌then◌else◌, str_eq,
}
use bridge_go_aptos.Go.{Outcome, ok, panic, ◌>>=◌}
use bridge_go_aptos.BtcTx.{TxOut}
use bridge_go_aptos.BtcAction.Deposits.{DepositAction}
use bridge_go_aptos.BtcSync.{Outside, Transaction}
use bridge_go_aptos.BtcTx.DepositData.{Bytes4, byte_array_to_int}

-- data[2:] of fewer than two bytes panics.
unfoldable pub after_push : List ℕ → Outcome (List ℕ)
after_push (op ∷ push ∷ payload) = ok payload
after_push _ = panic

module _ (outside : Outside) where
  abbrev pub first_is : String → Outcome (List String) → Bool
  first_is address (ok (a ∷ addresses)) = str_eq a address
  first_is address _ = false

  -- The script has an address, its first one is the given one, and there is a value.
  unfoldable pub pays_to : String → TxOut → Bool
  pays_to address out =
      first_is address (outside.addresses_of out.pk_script) && not (out.value == 0)

  unfoldable pub carries_data : TxOut → Bool
  carries_data out = out.value == 0 && outside.is_null_data out.pk_script

  unfoldable pub maybe_deposit_tx : List TxOut → Bool
  maybe_deposit_tx (output1 ∷ output2 ∷ outs) =
      pays_to outside.bridge_address output1 && carries_data output2
  maybe_deposit_tx _ = false

  unfoldable pub maybe_redeem_tx : List TxOut → Bool
  maybe_redeem_tx (output0 ∷ output1 ∷ output2 ∷ outs) =
      carries_data output1 && pays_to outside.bridge_address output2
  maybe_redeem_tx _ = false

  -- The loop of MaybeJustTransfer, from the index `i`.
  unfoldable pub transfers_from : ℕ → List TxOut → List (ℕ × TxOut)
  transfers_from i [] = []
  transfers_from i (out ∷ outs) =
      let rest = transfers_from (suc i) outs in
      if pays_to outside.bridge_address out then (i, out) ∷ rest else rest

  unfoldable pub maybe_just_transfer : List TxOut → List (ℕ × TxOut)
  maybe_just_transfer outs = transfers_from 0 outs

  unfoldable pub decode_op_return_data : List ℕ → Outcome (Bytes4 × List ℕ)
  decode_op_return_data script = after_push script >>= outside.decode_rlp

  -- An index out of range panics.
  unfoldable pub craft_deposit_action :
      Transaction → ℕ → String → List TxOut → Outcome DepositAction
  craft_deposit_action tx block_height block_hash (output1 ∷ output2 ∷ outs) = do
    (evm_chain_id, evm_addr) ← decode_op_return_data output2.pk_script
    ok (record {
      basic = record { block_number = block_height; block_hash = block_hash; tx_hash = tx.tx_hash };
      deposit_value = output1.value;
      deposit_receiver = outside.bridge_address;
      evm_id = byte_array_to_int evm_chain_id % 2 ^ 32;
      evm_addr = outside.address_hex evm_addr;
    })
  craft_deposit_action tx block_height block_hash _ = panic
