-- ===== src/BtcUtxo.antt =====
-- btcman/utxo: types.go and utxo.go, the choice of inputs for a Bitcoin transaction.
pub mod Tests
use bridge_go_aptos.Prelude.{
  ℕ, ◌+◌, ◌≤◌, ◌<◌, ◌≡◌, refl, ap, ◌⊎◌, inl, inr, Bool, true, false, Option, none, some, String,
  List, [], ◌∷◌, ◌++◌, arith, if◌then◌else◌,
}
use bridge_go_aptos.Prelude.Permutations.{sum_by}
use bridge_go_aptos.Go.{Outcome, ok, err, not_enough_utxos}
use bridge_go_aptos.Int64.{add64, lt64, int64_min, add64-eq-add}
use bridge_go_aptos.Agreement.{Hash}

pub data PubKeyScriptType : Type 0 where
  any_script_t p2pkh_script_t p2wpkh_script_t : PubKeyScriptType

pub record Utxo : Type 0 where
  pub tx_id : String
  pub tx_hash : Option Hash
  pub vout : ℕ
  pub amount : ℕ
  pub pk_script_t : PubKeyScriptType
  pub pk_script : List ℕ

abbrev pub total : List Utxo → ℕ
total = sum_by (λ u. u.amount)

-- The loop of SelectUtxo: the inputs up to the one at which the sum is larger than the limit.
unfoldable pub take_until : ℕ → ℕ → List Utxo → Option (List Utxo)
take_until limit sum [] = none
take_until limit sum (u ∷ us) =
    let sum' = add64 sum u.amount in
    let rest = take_until limit sum' us in
    if lt64 limit sum' then some (u ∷ []) else (elim rest [ none ↦ none | some xs ↦ some (u ∷ xs) ])

unfoldable pub select_utxo : List Utxo → ℕ → ℕ → Outcome (List Utxo)
select_utxo inputs amount fee = elim (take_until (add64 amount fee) 0 inputs) [
  | none ↦ err not_enough_utxos
  | some chosen ↦ ok chosen
]

le-or-lt : (a b : ℕ) → (a ≤ b) ⊎ (b < a)
le-or-lt a b = ground arith

-- The chosen inputs are the first ones, they are more than the limit, and without the last one they
-- are not.
abbrev pub IsChoice : ℕ → ℕ → List Utxo → List Utxo → Type 0
IsChoice limit sum us chosen =
    (init : List Utxo) × (last : Utxo) × (rest : List Utxo) × (chosen ≡ init ++ last ∷ [])
    × (us ≡ chosen ++ rest)
    × (sum + total init ≤ limit)
    × (limit < sum + total chosen)

module _ (limit sum : ℕ) (u : Utxo) (us : List Utxo) (fits : limit < int64_min)
    (h : sum + total (u ∷ us) < int64_min) where
  take_until-stops : limit < sum + u.amount → take_until limit sum (u ∷ us) ≡ some (u ∷ [])
  unfolding take_until lt64
  take_until-stops e = ground (arith, add64-eq-add sum u.amount)

  take_until-goes_on :
      sum + u.amount ≤ limit
      → take_until limit sum (u ∷ us)
        ≡ (elim (take_until limit (sum + u.amount) us) [ none ↦ none | some xs ↦ some (u ∷ xs) ])
  unfolding take_until lt64
  take_until-goes_on e = rw (add64-eq-add sum u.amount (omega arith)) (ground arith)

take_until-cases :
    (limit sum : ℕ) (us : List Utxo)
    → sum ≤ limit
    → limit < int64_min
    → sum + total us < int64_min
    → (sum + total us ≤ limit → take_until limit sum us ≡ none)
      × (limit < sum + total us
          → (chosen : List Utxo) × (take_until limit sum us ≡ some chosen)
            × IsChoice limit sum us chosen)
take_until-cases limit sum [] below fits h =
    ((λ _. unfold take_until in refl), (λ more. absurd (omega arith)))
take_until-cases limit sum (u ∷ us) below fits h = elim (le-or-lt (sum + u.amount) limit) [
  | inl more ↦
      let (short, enough) = take_until-cases limit (sum + u.amount) us more fits (omega arith) in
      let goes_on = take_until-goes_on limit sum u us fits h more in
      (
        (λ e. rw (goes_on, short (omega arith)) refl),
        (λ e.
            let (chosen, found, (init, last, rest, p, q, a, b)) = enough (omega arith) in
            (
              u ∷ chosen,
              rw (goes_on, found) refl,
              (
                u ∷ init,
                last,
                rest,
                ap (λ xs. u ∷ xs) p,
                ap (λ xs. u ∷ xs) q,
                omega arith,
                omega arith,
              ),
            )),
      )
  | inr stop ↦ (
    (λ e. absurd (omega arith)),
    (λ e. (
      u ∷ [],
      take_until-stops limit sum u us fits h stop,
      ([], u, us, refl, refl, omega arith, omega arith),
    )),
  )
]

-- Where the inputs together, and the amount with the fee, are below 2^63: SelectUtxo fails if the
-- inputs are not more than the amount and the fee, and otherwise returns the first inputs up to the
-- one that makes the sum larger than the amount and the fee.
pub select_utxo-cases :
    (inputs : List Utxo) (amount fee : ℕ)
    → amount + fee < int64_min
    → total inputs < int64_min
    → (total inputs ≤ amount + fee → select_utxo inputs amount fee ≡ err not_enough_utxos)
      × (amount + fee < total inputs
          → (chosen : List Utxo) × (select_utxo inputs amount fee ≡ ok chosen)
            × IsChoice (amount + fee) 0 inputs chosen)
unfolding select_utxo
select_utxo-cases inputs amount fee fits h =
    let (short, enough) =
      take_until-cases (amount + fee) 0 inputs (omega arith) fits (omega arith) in
    rw (select_utxo, add64-eq-add amount fee fits)
      (
        (λ e. rw (short (omega arith)) refl),
        (λ e.
            let (chosen, found, choice) = enough (omega arith) in (chosen, rw found refl, choice)),
      )
