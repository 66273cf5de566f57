-- ===== src/BtcSync/DepositTrip.antt =====
-- btcman/assembler, btcman/utils/adapter.go and common/btc2evm_deposit.go: a deposit as it is made, and
-- as the monitor reads it.
use bridge_go_aptos.Prelude.{
  ℕ, ◌≤◌, ◌%◌, ◌^◌, ◌≡◌, refl, sym, ap, ap₂, ◌∙◌, true, false, String, List, [], ◌∷◌, ◌++◌,
  if◌then◌else◌, arith, Bool-cases, inl, inr, length, ◌==◌,
}
use bridge_go_aptos.Go.{ok, err, Outcome-of_ok, ◌>>=◌, >>=-eq-ok, change_negative, address_length}
use bridge_go_aptos.Int64.{lt64, sub64}
use bridge_go_aptos.BigInt.{pos}
use bridge_go_aptos.BtcUtxo.{Utxo}
use bridge_go_aptos.BtcTx.{
  MsgTx, TxOut, Btcd, add_tx_out, sum_outputs, append_pay_to_address, append_change, append_data,
  craft_bridge_deposit_outputs,
}
use bridge_go_aptos.BtcTx.Balance.{append_pay_to_address-eq-ok}
use bridge_go_aptos.BtcTx.DepositData.{
  Bytes4, int_to_byte_array, byte_array_to_int, evm_addr_to_byte_array, make_deposit_op_return_data,
  byte_array_to_int-int_to_byte_array,
}
use bridge_go_aptos.BtcAction.Deposits.{DepositAction}
use bridge_go_aptos.BtcSync.{Outside}
use bridge_go_aptos.BtcSync.Outputs.{craft_deposit_action, decode_op_return_data, after_push}

module _ (btcd : Btcd) where
  -- The change, if any, comes last.
  append_change-outputs :
      (tx tx' : MsgTx) (addr : String) (change : ℕ)
      → append_change btcd tx addr change ≡ ok tx'
      → (rest : List TxOut) × (tx'.tx_out ≡ tx.tx_out ++ rest)
  append_change-outputs tx tx' addr change h = elim (Bool-cases (lt64 0 change)) [
    | inl e ↦
        let (script, _, k) =
          append_pay_to_address-eq-ok btcd tx tx' addr change (
            sym (ap (λ b. if b then append_pay_to_address btcd tx addr change else ok tx) e) ∙ h) in
        (_, ap (λ t. t.tx_out) k)
    | inr e ↦ (
      [],
      ap (λ t. t.tx_out)
            (sym (
              Outcome-of_ok (
                sym (ap (λ b. if b then append_pay_to_address btcd tx addr change else ok tx) e)
                ∙ h)))
          ∙ append_nil tx.tx_out,
    )
  ]
    where
      append_nil : {A : Type 0} (xs : List A) → xs ≡ xs ++ []
      append_nil [] = refl
      append_nil (x ∷ xs) = ap (λ l. x ∷ l) (append_nil xs)

  -- The outputs of a deposit that is made.
  craft_bridge_deposit_outputs-eq-ok :
      (us : List Utxo) (bridge change_addr evm_addr : String) (amount fee n : ℕ) (tx : MsgTx)
      → craft_bridge_deposit_outputs btcd
          (record { tx_in = []; tx_out = [] })
          us
          bridge
          amount
          fee
          change_addr
          evm_addr
          (pos n)
        ≡ ok tx
      → (script payload data_script : List ℕ) × (rest : List TxOut) × (make_deposit_op_return_data
            btcd.hex_to_address btcd.encode_rlp
            (pos n)
            evm_addr
          ≡ ok payload)
        × (btcd.null_data_script payload ≡ ok data_script)
        × (tx.tx_out
            ≡ record { value = amount; pk_script = script }
              ∷ record { value = 0; pk_script = data_script }
              ∷ rest)
  unfolding craft_bridge_deposit_outputs
  craft_bridge_deposit_outputs-eq-ok us bridge change_addr evm_addr amount fee n tx h =
      elim (Bool-cases (lt64 change 0)) [
        | inl e ↦ absurd (ok_not_err (sym h ∙ refused e))
        | inr e ↦
            let (tx1, e1, e2) = >>=-eq-ok _ _ tx (sym (opened e) ∙ h) in
            let (payload, p, e3) = >>=-eq-ok _ _ tx e2 in
            let (tx2, e4, e5) = >>=-eq-ok (append_data btcd tx1 payload) _ tx e3 in
            let (script, _, q) = append_pay_to_address-eq-ok btcd _ tx1 bridge amount e1 in
            let (data_script, r, s) = >>=-eq-ok (btcd.null_data_script payload) _ tx2 e4 in
            let (rest, t) = append_change-outputs tx2 tx change_addr change e5 in
            (
              script,
              payload,
              data_script,
              rest,
              p,
              r,
              t
                  ∙ ap (λ x. x.tx_out ++ rest)
                      (sym (Outcome-of_ok s)
                        ∙ ap (λ x. add_tx_out x (record { value = 0; pk_script = data_script })) q),
            )
      ]
    where
      change : ℕ
      change = sub64 (sub64 (sum_outputs 0 us) amount) fee

      empty : MsgTx
      empty = record { tx_in = []; tx_out = [] }

      ok_not_err : ok tx ≡ err change_negative → ⊥
      ok_not_err q = cc

      refused :
          lt64 (sub64 (sub64 (sum_outputs 0 us) amount) fee) 0 ≡ true
          → craft_bridge_deposit_outputs btcd
              (record { tx_in = []; tx_out = [] })
              us
              bridge
              amount
              fee
              change_addr
              evm_addr
              (pos n)
            ≡ err change_negative
      refused e = rw (e) refl

      opened :
          lt64 (sub64 (sub64 (sum_outputs 0 us) amount) fee) 0 ≡ false
          → craft_bridge_deposit_outputs btcd
              (record { tx_in = []; tx_out = [] })
              us
              bridge
              amount
              fee
              change_addr
              evm_addr
              (pos n)
            ≡ (append_pay_to_address btcd (record { tx_in = []; tx_out = [] }) bridge amount
                >>= λ tx1.
                    make_deposit_op_return_data btcd.hex_to_address btcd.encode_rlp (pos n) evm_addr
                    >>= λ payload. append_data btcd tx1 payload >>= λ tx2.
                        append_change btcd tx2 change_addr
                          (sub64 (sub64 (sum_outputs 0 us) amount) fee))
      opened e = rw (e) refl

evm_addr_to_byte_array-eq-ok :
    (bytes address : List ℕ) → evm_addr_to_byte_array bytes ≡ ok address → address ≡ bytes
unfolding evm_addr_to_byte_array
evm_addr_to_byte_array-eq-ok bytes address h = elim (Bool-cases (length bytes == 20)) [
  | inl e ↦ sym (Outcome-of_ok (sym (ap (λ b. if b then ok bytes else err address_length) e) ∙ h))
  | inr e ↦ absurd (err_not_ok (sym (ap (λ b. if b then ok bytes else err address_length) e) ∙ h))
]
  where
    err_not_ok : err address_length ≡ ok address → ⊥
    err_not_ok q = cc

evm_addr_to_byte_array-length :
    (bytes address : List ℕ) → evm_addr_to_byte_array bytes ≡ ok address → length address ≡ 20
unfolding evm_addr_to_byte_array
evm_addr_to_byte_array-length bytes address h = ground arith

-- What the code relies on: the OP_RETURN script of data of 2 up to 75 bytes has two bytes before it,
-- the RLP of four bytes and an address of 20 has such a length, and RLP reads it back.
pub record Codec (btcd : Btcd) (outside : Outside) : Type 0 where
  pub script_of :
      (payload script : List ℕ)
      → 2 ≤ length payload
      → length payload ≤ 75
      → btcd.null_data_script payload ≡ ok script
      → (op : ℕ) × (push : ℕ) × (script ≡ op ∷ push ∷ payload)
  pub read_back :
      (id : Bytes4) (address payload : List ℕ)
      → length address ≡ 20
      → btcd.encode_rlp id address ≡ ok payload
      → outside.decode_rlp payload ≡ ok (id, address)
  pub fits :
      (id : Bytes4) (address payload : List ℕ)
      → length address ≡ 20
      → btcd.encode_rlp id address ≡ ok payload
      → (2 ≤ length payload) × (length payload ≤ 75)

-- Where btcd puts two bytes before data of 2 up to 75 bytes in an OP_RETURN script, and the RLP of a
-- chain id and an address of 20 bytes has such a length and is read back as it was: of a deposit made by craftBridgeDepositOutputs with a chain id from 0 up
-- to 4294967295, the monitor reads the amount paid to the bridge, the address of the receiver, and
-- the chain id as the bit pattern of an int32.
pub deposit_read_back :
    (btcd : Btcd) (outside : Outside) (us : List Utxo) (bridge change_addr evm_addr : String)
    (amount fee n height : ℕ) (tx : MsgTx) (tx_hash block_hash : String)
    → Codec btcd outside
    → n ≤ 4294967295
    → craft_bridge_deposit_outputs btcd
        (record { tx_in = []; tx_out = [] })
        us
        bridge
        amount
        fee
        change_addr
        evm_addr
        (pos n)
      ≡ ok tx
    → craft_deposit_action outside
        (record { tx_hash = tx_hash; tx_out = tx.tx_out })
        height
        block_hash
        tx.tx_out
      ≡ ok (record {
        basic = record { block_number = height; block_hash = block_hash; tx_hash = tx_hash };
        deposit_value = amount;
        deposit_receiver = outside.bridge_address;
        evm_id = n;
        evm_addr = outside.address_hex (btcd.hex_to_address evm_addr);
      })
unfolding craft_deposit_action decode_op_return_data after_push make_deposit_op_return_data
    evm_addr_to_byte_array
deposit_read_back btcd outside us bridge change_addr evm_addr amount fee n height tx tx_hash
      block_hash codec h e =
    let (script, payload, data_script, rest, p, q, outs) =
      craft_bridge_deposit_outputs-eq-ok btcd us bridge change_addr evm_addr amount fee n tx e in
    let (id, r, p1) = >>=-eq-ok (int_to_byte_array (pos n)) _ payload p in
    let (address, s, p2) =
      >>=-eq-ok (evm_addr_to_byte_array (btcd.hex_to_address evm_addr)) _ payload p1 in
    let same_address = evm_addr_to_byte_array-eq-ok (btcd.hex_to_address evm_addr) address s in
    let twenty = evm_addr_to_byte_array-length (btcd.hex_to_address evm_addr) address s in
    let (long, short) = codec.fits id address payload twenty p2 in
    let (op, push, written) = codec.script_of payload data_script long short q in
    let (b, known, value, _) = byte_array_to_int-int_to_byte_array n h in
    let same_id = Outcome-of_ok (sym r ∙ known) in
    rw (outs, written)
      (unfold ◌>>=◌ in
        rw (codec.read_back id address payload twenty p2) (
          ap₂ (λ m a. ok (deposit m a))
            (ap (λ i. byte_array_to_int i % 2 ^ 32) same_id ∙ omega (arith, value, h))
            same_address))
  where
    deposit : ℕ → List ℕ → DepositAction
    deposit m a = record {
      basic = record { block_number = height; block_hash = block_hash; tx_hash = tx_hash };
      deposit_value = amount;
      deposit_receiver = outside.bridge_address;
      evm_id = m;
      evm_addr = outside.address_hex a;
    }
