-- ===== src/BtcSync/Found.antt =====
-- btcman/utils/adapter.go and btcsync/btc_monitor.go: which outputs the monitor finds.
use bridge_go_aptos.Prelude.{
  ℕ, suc, zero, ◌+◌, ◌<◌, ◌≡◌, ◌≢◌, ◌↔◌, ◌⊎◌, String, eq_iff, inl, inr, refl, ap, ap₂, ◌∙◌, subst,
  true, Option, none, some, List, [], ◌∷◌, All, All-imp, length, arith, Bool-cases,
}
use bridge_go_aptos.Go.{Outcome, ok, err, panic, ◌>>=◌}
use bridge_go_aptos.BtcTx.{TxOut}
use bridge_go_aptos.Program.{pure, lift, attempt}
use bridge_go_aptos.Program
use bridge_go_aptos.BtcSync.{Outside, Monitor, Transaction, Block}
use bridge_go_aptos.BtcSync.Outputs.{
  first_is, pays_to, carries_data, transfers_from, maybe_just_transfer, maybe_deposit_tx,
  craft_deposit_action, after_push, decode_op_return_data,
}
use bridge_go_aptos.BtcSync.Scan.{inspect_deposit, inspect_tx}

Option-of_some : {A : Type 0} {a b : A} → some a ≡ some b → a ≡ b
Option-of_some h = cc

-- The output at an index.
abbrev pub nth : List TxOut → ℕ → Option TxOut
nth [] i = none
nth (out ∷ outs) zero = some out
nth (out ∷ outs) (suc i) = nth outs i

-- The pair is in the list.
abbrev pub Listed : ℕ → TxOut → List (ℕ × TxOut) → Type 0
Listed i out [] = ⊥
Listed i out (t ∷ ts) = (t ≡ (i, out)) ⊎ Listed i out ts

-- The output has an address, its first one is the bridge's, and its value is not zero.
abbrev pub Pays : Outside → TxOut → Type 0
Pays outside out =
    (addresses : List String) × (outside.addresses_of out.pk_script
      ≡ ok (outside.bridge_address ∷ addresses))
    × (out.value ≢ 0)

pays_to_iff :
    (outside : Outside) (out : TxOut)
    → (pays_to outside outside.bridge_address out ≡ true) ↔ Pays outside out
unfolding pays_to
pays_to_iff outside out = (
  (λ h. to (outside.addresses_of out.pk_script) refl (ground arith) (ground arith)),
  (λ (addresses, e, v).
      rw e (ground (arith, eq_iff outside.bridge_address outside.bridge_address))),
)
  where
    to :
        (o : Outcome (List String))
        → outside.addresses_of out.pk_script ≡ o
        → first_is outside outside.bridge_address o ≡ true
        → out.value ≢ 0
        → Pays outside out
    to (ok []) e h v = absurd (cc)
    to (ok (a ∷ addresses)) e h v =
        (addresses, e ∙ ap (λ x. ok (x ∷ addresses)) ((eq_iff a outside.bridge_address).0 h), v)
    to (err x) e h v = absurd (cc)
    to panic e h v = absurd (cc)

module _ (outside : Outside) where
  -- An output of the list, `i` being the index of its first, that pays the bridge.
  abbrev pub IsTransfer : ℕ → List TxOut → ℕ × TxOut → Type 0
  IsTransfer i outs t =
      (k : ℕ) × (t.0 ≡ i + k)
      × (nth outs k ≡ some t.1)
      × (pays_to outside outside.bridge_address t.1 ≡ true)

  IsTransfer-cons :
      (i : ℕ) (out : TxOut) (outs : List TxOut) (ts : List (ℕ × TxOut))
      → All (IsTransfer (suc i) outs) ts
      → All (IsTransfer i (out ∷ outs)) ts
  IsTransfer-cons i out outs ts =
      All-imp (IsTransfer (suc i) outs) (IsTransfer i (out ∷ outs)) ts
        (λ t (k, e, f, g). (suc k, omega (arith, e), f, g))

  transfers_from-All :
      (i : ℕ) (outs : List TxOut) → All (IsTransfer i outs) (transfers_from outside i outs)
  unfolding transfers_from
  transfers_from-All i [] = tt
  transfers_from-All i (out ∷ outs) =
      let rest =
        IsTransfer-cons i out outs (transfers_from outside (suc i) outs)
          (transfers_from-All (suc i) outs) in
      elim (Bool-cases (pays_to outside outside.bridge_address out)) [
        | inl e ↦ rw (e) ((0, omega arith, refl, e), rest)
        | inr e ↦ rw (e) rest
      ]

  transfers_from-Listed :
      (i k : ℕ) (outs : List TxOut) (out : TxOut)
      → nth outs k ≡ some out
      → pays_to outside outside.bridge_address out ≡ true
      → Listed (i + k) out (transfers_from outside i outs)
  unfolding transfers_from
  transfers_from-Listed i k [] out e p = absurd (cc)
  transfers_from-Listed i zero (o ∷ outs) out e p =
      let same = Option-of_some e in
      rw (ap (pays_to outside outside.bridge_address) same ∙ p)
        (inl (ap₂ (λ m q. (m, q)) (omega arith) same))
  transfers_from-Listed i (suc k) (o ∷ outs) out e p =
      let rest =
        subst (λ m. Listed m out (transfers_from outside (suc i) outs)) (omega arith)
          (transfers_from-Listed (suc i) k outs out e p) in
      elim (Bool-cases (pays_to outside outside.bridge_address o)) [
        | inl q ↦ rw (q) (inr rest)
        | inr q ↦ rw (q) rest
      ]

  -- What MaybeJustTransfer returns is exactly the outputs that pay the bridge, with their indices:
  -- each pair returned is an output of the transaction at its index, whose script has the bridge's
  -- address for its first one and whose value is not zero, and each such output is returned.
  pub maybe_just_transfer-outputs :
      (outs : List TxOut)
      → All (λ t. (nth outs t.0 ≡ some t.1) × Pays outside t.1) (maybe_just_transfer outside outs)
        × ((k : ℕ) (out : TxOut)
            → nth outs k ≡ some out
            → Pays outside out
            → Listed k out (maybe_just_transfer outside outs))
  unfolding maybe_just_transfer
  maybe_just_transfer-outputs outs = (
    All-imp (IsTransfer 0 outs) (λ t. (nth outs t.0 ≡ some t.1) × Pays outside t.1)
        (transfers_from outside 0 outs)
        (λ t (k, e, f, g).
          (subst (λ m. nth outs m ≡ some t.1) (omega (arith, e)) f, (pays_to_iff outside t.1).0 g))
        (transfers_from-All 0 outs),
    (λ k out e p.
        subst (λ m. Listed m out (transfers_from outside 0 outs)) (omega arith)
          (transfers_from-Listed 0 k outs out e ((pays_to_iff outside out).1 p))),
  )

after_push_short : (script : List ℕ) → length script < 2 → after_push script ≡ panic
unfolding after_push
after_push_short [] h = refl
after_push_short (a ∷ []) h = refl
after_push_short (a ∷ b ∷ rest) h = absurd (omega arith)

-- A transaction whose first output pays the bridge and whose second one counts as data, with a
-- script of fewer than two bytes: the monitor panics at it, and leaves what it keeps as it was.
pub short_data_panics :
    (outside : Outside) (block_height : ℕ) (block : Block) (tx : Transaction)
    (output1 output2 : TxOut) (outs : List TxOut) (w : Monitor)
    → tx.tx_out ≡ output1 ∷ output2 ∷ outs
    → pays_to outside outside.bridge_address output1 ≡ true
    → carries_data outside output2 ≡ true
    → length output2.pk_script < 2
    → inspect_tx outside block_height block tx w ≡ (panic, w)
unfolding inspect_tx inspect_deposit maybe_deposit_tx craft_deposit_action decode_op_return_data
    Program.◌>>=◌ ◌>>=◌ lift attempt
short_data_panics outside block_height block tx output1 output2 outs w e p q h =
    rw (e, p, q, after_push_short output2.pk_script h) refl
