-- ===== src/BtcTx.antt =====
-- btcman/assembler: assembler.go, locker_impl.go and native_operator.go, the transactions that pay
-- from the bridge's outputs. Amounts are the bit patterns of int64 values.
pub mod Balance
pub mod DepositData
use bridge_go_aptos.Prelude.{
  ℕ, suc, ◌+◌, List, [], ◌∷◌, ◌++◌, String, Option, none, some, map, ltb, if◌then◌else◌,
}
use bridge_go_aptos.Go.{Outcome, ok, err, panic, deref, change_negative, ◌>>=◌}
use bridge_go_aptos.Int64.{add64, sub64, lt64}
use bridge_go_aptos.BigInt.{ℤ}
use bridge_go_aptos.Agreement.{Hash}
use bridge_go_aptos.BtcTx.DepositData.{Bytes4, make_deposit_op_return_data}
use bridge_go_aptos.BtcUtxo.{Utxo}

-- wire.TxIn and wire.TxOut, as far as the code sets them.
pub record TxIn : Type 0 where
  pub hash : Hash
  pub index : ℕ
  pub signature_script : List ℕ

pub record TxOut : Type 0 where
  pub value : ℕ
  pub pk_script : List ℕ

pub record MsgTx : Type 0 where
  pub tx_in : List TxIn
  pub tx_out : List TxOut

abbrev pub add_tx_out : MsgTx → TxOut → MsgTx
add_tx_out tx out = record tx { tx_out = tx.tx_out ++ out ∷ [] }

-- for _, item := range prevOutputs { sum += item.Amount }
unfoldable pub sum_outputs : ℕ → List Utxo → ℕ
sum_outputs sum [] = sum
sum_outputs sum (item ∷ items) = sum_outputs (add64 sum item.amount) items

abbrev pub unsigned : Utxo → Hash → TxIn
unsigned item tx_hash = record { hash = tx_hash; index = item.vout; signature_script = [] }

-- NewOutPoint reads the pointer to the hash.
unfoldable pub new_tx_ins : List Utxo → Outcome (List TxIn)
new_tx_ins [] = ok []
new_tx_ins (item ∷ items) = do
  tx_hash ← deref item.tx_hash
  rest ← new_tx_ins items
  ok (unsigned item tx_hash ∷ rest)

-- tx.TxIn[idx].SignatureScript = script
unfoldable pub set_script : ℕ → List ℕ → List TxIn → List TxIn
set_script idx script [] = []
set_script ℕ.zero script (i ∷ is) = record i { signature_script = script } ∷ is
set_script (suc idx) script (i ∷ is) = i ∷ set_script idx script is

-- What the code takes from btcd: the script that pays to an address, for DecodeAddress and
-- PayToAddrScript, the OP_RETURN script of some data, and the signature of an input, and from
-- go-ethereum: HexToAddress, and the RLP encoding of a deposit's data.
pub record Btcd : Type 0 where
  pub pay_to_address : String → Outcome (List ℕ)
  pub null_data_script : List ℕ → Outcome (List ℕ)
  pub signature_script : MsgTx → ℕ → List ℕ → Outcome (List ℕ)
  pub hex_to_address : String → List ℕ
  pub encode_rlp : Bytes4 → List ℕ → Outcome (List ℕ)

module _ (btcd : Btcd) where
  unfoldable pub append_pay_to_address : MsgTx → String → ℕ → Outcome MsgTx
  append_pay_to_address tx dst_addr amount = do
    script ← btcd.pay_to_address dst_addr
    ok (add_tx_out tx (record { value = amount; pk_script = script }))

  -- The change, if there is any.
  abbrev pub append_change : MsgTx → String → ℕ → Outcome MsgTx
  append_change tx change_addr change_amount =
      if lt64 0 change_amount then append_pay_to_address tx change_addr change_amount else ok tx

  abbrev pub append_data : MsgTx → List ℕ → Outcome MsgTx
  append_data tx payload = do
    script ← btcd.null_data_script payload
    ok (add_tx_out tx (record { value = 0; pk_script = script }))

  unfoldable pub craft_transfer_out_output :
      MsgTx → List Utxo → String → ℕ → String → ℕ → Outcome MsgTx
  craft_transfer_out_output tx prev_outputs dst_addr dst_amount change_addr fee_amount =
      let change_amount = sub64 (sub64 (sum_outputs 0 prev_outputs) dst_amount) fee_amount in
      if lt64 change_amount 0
      then err change_negative
      else (append_pay_to_address tx dst_addr dst_amount >>= λ tx1.
          append_change tx1 change_addr change_amount)

  -- The redeem data is the 32 bytes of the request's hash, as they are.
  unfoldable pub craft_redeem_output :
      MsgTx → List Utxo → String → ℕ → List ℕ → String → ℕ → Outcome MsgTx
  craft_redeem_output tx prev_outputs dst_addr dst_amount redeem_data change_addr fee_amount =
      let change_amount = sub64 (sub64 (sum_outputs 0 prev_outputs) dst_amount) fee_amount in
      if lt64 change_amount 0
      then err change_negative
      else (append_pay_to_address tx dst_addr dst_amount >>= λ tx1.
          append_data tx1 redeem_data >>= λ tx2. append_change tx2 change_addr change_amount)

  unfoldable pub craft_bridge_deposit_outputs :
      MsgTx → List Utxo → String → ℕ → ℕ → String → String → ℤ → Outcome MsgTx
  craft_bridge_deposit_outputs tx prev_outputs btc_bridge_address btc_bridge_amount fee_amount
        btc_change_address evm_addr evm_chain_id =
      let change_amount = sub64 (sub64 (sum_outputs 0 prev_outputs) btc_bridge_amount) fee_amount in
      if lt64 change_amount 0
      then err change_negative
      else (append_pay_to_address tx btc_bridge_address btc_bridge_amount >>= λ tx1.
          make_deposit_op_return_data btcd.hex_to_address btcd.encode_rlp evm_chain_id evm_addr
          >>= λ payload.
              append_data tx1 payload >>= λ tx2. append_change tx2 btc_change_address change_amount)

  -- The second loop of Unlock.
  unfoldable pub sign_all : ℕ → List Utxo → MsgTx → Outcome MsgTx
  sign_all idx [] tx = ok tx
  sign_all idx (item ∷ items) tx = do
    script ← btcd.signature_script tx idx item.pk_script
    sign_all (suc idx) items (record tx { tx_in = set_script idx script tx.tx_in })

  unfoldable pub unlock : MsgTx → List Utxo → Outcome MsgTx
  unlock tx prev_outputs = do
    ins ← new_tx_ins prev_outputs
    sign_all 0 prev_outputs (record tx { tx_in = tx.tx_in ++ ins })

  unfoldable pub make_transfer_out_tx : String → ℕ → String → ℕ → List Utxo → Outcome MsgTx
  make_transfer_out_tx dst_addr dst_amount change_addr fee_amount prev_outputs = do
    tx ←
        craft_transfer_out_output (record { tx_in = []; tx_out = [] }) prev_outputs dst_addr
          dst_amount change_addr fee_amount
    unlock tx prev_outputs

  unfoldable pub make_redeem_tx : String → ℕ → List ℕ → String → ℕ → List Utxo → Outcome MsgTx
  make_redeem_tx dst_addr dst_amount redeem_data change_addr fee_amount prev_outputs = do
    tx ←
        craft_redeem_output (record { tx_in = []; tx_out = [] }) prev_outputs dst_addr dst_amount
          redeem_data change_addr fee_amount
    unlock tx prev_outputs

  unfoldable pub make_bridge_deposit_tx :
      List Utxo → String → ℕ → ℕ → String → String → ℤ → Outcome MsgTx
  make_bridge_deposit_tx prev_outputs btc_bridge_address btc_bridge_amount fee_amount
        btc_change_address evm_addr evm_chain_id =
      do
        tx ←
            craft_bridge_deposit_outputs (record { tx_in = []; tx_out = [] }) prev_outputs
              btc_bridge_address btc_bridge_amount fee_amount btc_change_address evm_addr
              evm_chain_id
        unlock tx prev_outputs
