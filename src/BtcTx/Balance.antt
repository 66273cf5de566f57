-- ===== src/BtcTx/Balance.antt =====
-- btcman/assembler: the inputs and outputs of a transaction balance.
use bridge_go_aptos.Prelude.{
  none, some, ap₂, ℕ, suc, ◌+◌, ◌-◌, ◌<◌, ◌≤◌, ◌≡◌, refl, sym, ap, ◌∙◌, true, false, Option, String,
  List, [], ◌∷◌, ◌++◌, map, ltb, if◌then◌else◌, arith, Bool-cases, inl, inr,
}
use bridge_go_aptos.Prelude.Permutations.{sum_by}
use bridge_go_aptos.Go.{deref, ok, Outcome-of_ok, ◌>>=◌, >>=-eq-ok}
use bridge_go_aptos.Int64.{sub64, lt64, int64_min, add64-eq-add}
use bridge_go_aptos.BtcUtxo.{Utxo, total}
use bridge_go_aptos.BtcTx.{
  TxIn, TxOut, MsgTx, add_tx_out, Btcd, sum_outputs, set_script, new_tx_ins, sign_all, unlock,
  append_pay_to_address, append_change, append_data, craft_redeem_output, make_redeem_tx,
}
use bridge_go_aptos.Agreement.{Hash}

sum_outputs-total :
    (sum : ℕ) (us : List Utxo) → sum + total us < int64_min → sum_outputs sum us ≡ sum + total us
unfolding sum_outputs
sum_outputs-total sum [] h = omega arith
sum_outputs-total sum (u ∷ us) h =
    ap (λ s. sum_outputs s us) (add64-eq-add sum u.amount (omega arith))
    ∙ sum_outputs-total (sum + u.amount) us (omega arith)
    ∙ omega arith

change_amount-eq :
    (sum dst fee : ℕ)
    → sum < int64_min
    → dst + fee ≤ sum
    → sub64 (sub64 sum dst) fee ≡ sum - (dst + fee)
unfolding sub64
change_amount-eq sum dst fee h k = omega arith

change_negative_iff :
    (sum dst fee : ℕ)
    → sum < int64_min
    → dst + fee < int64_min
    → sum < dst + fee
    → lt64 (sub64 (sub64 sum dst) fee) 0 ≡ true
unfolding sub64 lt64
change_negative_iff sum dst fee h k l = ground arith

lt64_small : (n : ℕ) → n < int64_min → lt64 n 0 ≡ false
unfolding lt64
lt64_small n h = ground arith

lt64-ltb : (n : ℕ) → n < int64_min → lt64 0 n ≡ ltb 0 n
unfolding lt64
lt64-ltb n h = ground arith

append_nil : {A : Type 0} (xs : List A) → xs ≡ xs ++ []
append_nil [] = refl
append_nil (x ∷ xs) = ap (λ l. x ∷ l) (append_nil xs)

with_nothing : (tx : MsgTx) → tx ≡ record tx { tx_out = tx.tx_out ++ [] }
with_nothing tx = ap (λ l. record tx { tx_out = l }) (append_nil tx.tx_out)

-- What is spent.
abbrev pub Outpoint : Type 0
Outpoint = Option Hash × ℕ

abbrev pub spent_by : TxIn → Outpoint
spent_by i = (some i.hash, i.index)

abbrev pub outpoint_of : Utxo → Outpoint
outpoint_of u = (u.tx_hash, u.vout)

abbrev pub paid : List TxOut → ℕ
paid = sum_by (λ o. o.value)

set_script-spent :
    (idx : ℕ) (script : List ℕ) (is : List TxIn)
    → map spent_by (set_script idx script is) ≡ map spent_by is
unfolding set_script
set_script-spent idx script [] = refl
set_script-spent ℕ.zero script (i ∷ is) = refl
set_script-spent (suc idx) script (i ∷ is) =
    ap (λ l. spent_by i ∷ l) (set_script-spent idx script is)

map-append : {A B : Type 0} (f : A → B) (xs ys : List A) → map f (xs ++ ys) ≡ map f xs ++ map f ys
map-append f [] ys = refl
map-append f (x ∷ xs) ys = ap (λ l. f x ∷ l) (map-append f xs ys)

deref-eq-ok : {A : Type 0} (o : Option A) (a : A) → deref o ≡ ok a → o ≡ some a
deref-eq-ok none a h = absurd (cc)
deref-eq-ok (some b) a h = ap some (Outcome-of_ok h)

new_tx_ins-spent :
    (us : List Utxo) (ins : List TxIn)
    → new_tx_ins us ≡ ok ins
    → map spent_by ins ≡ map outpoint_of us
unfolding new_tx_ins
new_tx_ins-spent [] ins h = ap (map spent_by) (sym (Outcome-of_ok h))
new_tx_ins-spent (u ∷ us) ins h =
    let (tx_hash, e, k) = >>=-eq-ok (deref u.tx_hash) _ ins h in
    let (rest, f, l) = >>=-eq-ok (new_tx_ins us) _ ins k in
    ap (map spent_by) (sym (Outcome-of_ok l))
    ∙ ap₂ (λ o os. (o, u.vout) ∷ os) (sym (deref-eq-ok u.tx_hash tx_hash e))
        (new_tx_ins-spent us rest f)

-- The outputs of a redeem, by the scripts that are paid and the change.
abbrev redeem_outputs : ℕ → ℕ → List ℕ → List ℕ → List ℕ → List TxOut
redeem_outputs dst_amount change_amount script data_script change_script =
    record { value = dst_amount; pk_script = script }
    ∷ record { value = 0; pk_script = data_script }
    ∷ (if ltb 0 change_amount
        then record { value = change_amount; pk_script = change_script } ∷ []
        else [])

abbrev add_change : ℕ → List ℕ → MsgTx → MsgTx
add_change change script tx = record tx {
  tx_out =
      tx.tx_out
      ++ (if ltb 0 change then record { value = change; pk_script = script } ∷ [] else []);
}

module _ (btcd : Btcd) where
  -- Signing changes no output and nothing of what is spent.
  sign_all-keeps :
      (idx : ℕ) (us : List Utxo) (tx tx' : MsgTx)
      → sign_all btcd idx us tx ≡ ok tx'
      → (tx'.tx_out ≡ tx.tx_out) × (map spent_by tx'.tx_in ≡ map spent_by tx.tx_in)
  unfolding sign_all
  sign_all-keeps idx [] tx tx' h =
      let e = Outcome-of_ok h in
      (ap (λ t. t.tx_out) (sym e), ap (λ t. map spent_by t.tx_in) (sym e))
  sign_all-keeps idx (u ∷ us) tx tx' h =
      let (script, e, k) = >>=-eq-ok (btcd.signature_script tx idx u.pk_script) _ tx' h in
      let (outs, ins) = sign_all-keeps (suc idx) us _ tx' k in
      (outs, ins ∙ set_script-spent idx script tx.tx_in)

  unlock-keeps :
      (us : List Utxo) (outs : List TxOut) (tx' : MsgTx)
      → unlock btcd (record { tx_in = []; tx_out = outs }) us ≡ ok tx'
      → (tx'.tx_out ≡ outs) × (map spent_by tx'.tx_in ≡ map outpoint_of us)
  unfolding unlock
  unlock-keeps us outs tx' h =
      let (ins, e, k) = >>=-eq-ok (new_tx_ins us) _ tx' h in
      let (outs_same, spent) = sign_all-keeps 0 us _ tx' k in
      (outs_same, spent ∙ new_tx_ins-spent us ins e)

  pub append_pay_to_address-eq-ok :
      (tx tx' : MsgTx) (addr : String) (amount : ℕ)
      → append_pay_to_address btcd tx addr amount ≡ ok tx'
      → (script : List ℕ) × (btcd.pay_to_address addr ≡ ok script)
        × (tx' ≡ add_tx_out tx (record { value = amount; pk_script = script }))
  unfolding append_pay_to_address
  append_pay_to_address-eq-ok tx tx' addr amount h =
      let (script, e, k) = >>=-eq-ok (btcd.pay_to_address addr) _ tx' h in
      (script, e, sym (Outcome-of_ok k))

  append_change-eq-ok :
      (tx tx' : MsgTx) (addr : String) (change : ℕ)
      → change < int64_min
      → append_change btcd tx addr change ≡ ok tx'
      → (script : List ℕ) × (tx' ≡ record tx {
        tx_out =
            tx.tx_out
            ++ (if ltb 0 change then record { value = change; pk_script = script } ∷ [] else []);
      })
  append_change-eq-ok tx tx' addr change bound h = elim (Bool-cases (ltb 0 change)) [
    | inl e ↦
        let (script, _, k) = append_pay_to_address-eq-ok tx tx' addr change (
          sym (
            ap (λ b. if b then append_pay_to_address btcd tx addr change else ok tx)
              (lt64-ltb change bound ∙ e))
          ∙ h) in
        (
          script,
          k
              ∙ ap
                  (λ b. record tx {
                    tx_out =
                        tx.tx_out
                        ++ (if b then record { value = change; pk_script = script } ∷ [] else []);
                  })
                  (sym e),
        )
    | inr e ↦ (
      [],
      sym (
            Outcome-of_ok (
              sym (
                ap (λ b. if b then append_pay_to_address btcd tx addr change else ok tx)
                  (lt64-ltb change bound ∙ e))
              ∙ h))
          ∙ with_nothing tx
          ∙ ap
              (λ b. record tx {
                tx_out =
                    tx.tx_out ++ (if b then record { value = change; pk_script = [] } ∷ [] else []);
              })
              (sym e),
    )
  ]

  pub craft_redeem_output-eq-ok :
      (us : List Utxo) (dst_addr change_addr : String) (dst_amount fee_amount : ℕ)
      (redeem_data : List ℕ) (tx : MsgTx)
      → total us < int64_min
      → dst_amount + fee_amount ≤ total us
      → craft_redeem_output btcd
          (record { tx_in = []; tx_out = [] })
          us
          dst_addr
          dst_amount
          redeem_data
          change_addr
          fee_amount
        ≡ ok tx
      → (script : List ℕ) × (data_script : List ℕ) × (change_script : List ℕ) × (btcd.pay_to_address
            dst_addr
          ≡ ok script)
        × (btcd.null_data_script redeem_data ≡ ok data_script)
        × (tx ≡ record {
          tx_in = [];
          tx_out =
              redeem_outputs dst_amount
                (total us - (dst_amount + fee_amount))
                script
                data_script
                change_script;
        })
  unfolding craft_redeem_output
  craft_redeem_output-eq-ok us dst_addr change_addr dst_amount fee_amount redeem_data tx h k e =
      let change = total us - (dst_amount + fee_amount) in
      let known =
        ap (λ s. sub64 (sub64 s dst_amount) fee_amount)
          (sum_outputs-total 0 us (omega arith) ∙ omega arith)
        ∙ change_amount-eq (total us) dst_amount fee_amount h k in
      let (tx1, e1, e2) = >>=-eq-ok _ _ tx (sym (opened change (omega arith) known) ∙ e) in
      let (tx2, e3, e4) = >>=-eq-ok (append_data btcd tx1 redeem_data) _ tx e2 in
      let (script, p, q) = append_pay_to_address-eq-ok _ tx1 dst_addr dst_amount e1 in
      let (data_script, r, s) = >>=-eq-ok (btcd.null_data_script redeem_data) _ tx2 e3 in
      let (change_script, t) = append_change-eq-ok tx2 tx change_addr change (omega arith) e4 in
      (
        script,
        data_script,
        change_script,
        p,
        r,
        t
            ∙ ap (add_change change change_script) (
                sym (Outcome-of_ok s)
                ∙ ap (λ x. add_tx_out x (record { value = 0; pk_script = data_script })) q),
      )
    where
      opened :
          (change : ℕ)
          → change < int64_min
          → sub64 (sub64 (sum_outputs 0 us) dst_amount) fee_amount ≡ change
          → craft_redeem_output btcd
              (record { tx_in = []; tx_out = [] })
              us
              dst_addr
              dst_amount
              redeem_data
              change_addr
              fee_amount
            ≡ (append_pay_to_address btcd (record { tx_in = []; tx_out = [] }) dst_addr dst_amount
                >>= λ tx1. append_data btcd tx1 redeem_data >>= λ tx2.
                    append_change btcd tx2 change_addr change)
      opened change bound known = rw (known, lt64_small change bound) refl

paid-redeem_outputs :
    (dst_amount change : ℕ) (script data_script change_script : List ℕ)
    → paid (redeem_outputs dst_amount change script data_script change_script) ≡ dst_amount + change
paid-redeem_outputs dst_amount change script data_script change_script =
    elim (Bool-cases (ltb 0 change)) [
      | inl e ↦ rw (e) (omega arith)
      | inr e ↦ rw (e) (ground arith)
    ]

-- Where the amounts of the inputs together are below 2^63 and cover the amount and the fee, and
-- MakeRedeemTx returns a transaction: it spends the given outputs, each once and in their order, it
-- pays the amount to the receiver's script in its first output and nothing in its second, which
-- carries the redeem's data, and what it pays together with the fee is what it spends.
pub make_redeem_tx-balance :
    (btcd : Btcd) (us : List Utxo) (dst_addr change_addr : String) (dst_amount fee_amount : ℕ)
    (redeem_data : List ℕ) (tx : MsgTx)
    → total us < int64_min
    → dst_amount + fee_amount ≤ total us
    → make_redeem_tx btcd dst_addr dst_amount redeem_data change_addr fee_amount us ≡ ok tx
    → (map spent_by tx.tx_in ≡ map outpoint_of us)
      × (paid tx.tx_out + fee_amount ≡ total us)
      × ((script : List ℕ) × (data_script : List ℕ) × (rest : List TxOut) × (btcd.pay_to_address
              dst_addr
            ≡ ok script)
          × (btcd.null_data_script redeem_data ≡ ok data_script)
          × (tx.tx_out
              ≡ record { value = dst_amount; pk_script = script }
                ∷ record { value = 0; pk_script = data_script }
                ∷ rest))
unfolding make_redeem_tx
make_redeem_tx-balance btcd us dst_addr change_addr dst_amount fee_amount redeem_data tx h k e =
    let (tx1, e1, e2) = >>=-eq-ok _ _ tx e in
    let (script, data_script, change_script, p, q, outs) =
      craft_redeem_output-eq-ok btcd us dst_addr change_addr dst_amount fee_amount redeem_data tx1 h
        k e1 in
    let (same, ins) = unlock-keeps btcd us _ tx (sym (ap (λ t. unlock btcd t us) outs) ∙ e2) in
    (
      ins,
      (ap (λ l. paid l + fee_amount) (same)
          ∙ ap (λ n. n + fee_amount)
              (paid-redeem_outputs dst_amount _ script data_script change_script)
          ∙ omega arith),
      (script, data_script, _, p, q, same),
    )
