-- ===== src/Vault/Minimal.antt =====
-- A choice of UTXOs that needs all of its rows, seen by their amounts alone.
use bridge_go_aptos.Prelude.{
  ℕ, ◌≤◌, ◌<◌, ◌≡◌, refl, ap, ◌⊎◌, inl, inr, List, [], ◌∷◌, ◌++◌, map, arith, length,
}
use bridge_go_aptos.Prelude.Permutations.{sum_by}
use bridge_go_aptos.Vault.Utxo.{VaultUtxo, sum_amounts}
use bridge_go_aptos.Vault.Storage.{Rows}

abbrev pub drop_last {ℓ} : {A : Type ℓ} → List A → List A
drop_last [] = []
drop_last (u ∷ []) = []
drop_last (u ∷ v ∷ us) = u ∷ drop_last (v ∷ us)

abbrev pub amounts : Rows → List ℕ
amounts = map (λ u. u.amount)

pub sum-amounts : (us : Rows) → sum_amounts us ≡ sum_by (λ n. n) (amounts us)
sum-amounts [] = refl
sum-amounts (u ∷ us) = omega (arith, sum-amounts us)

length-amounts : (us : Rows) → length us ≡ length (amounts us)
length-amounts [] = refl
length-amounts (u ∷ us) = omega (arith, length-amounts us)

pub amounts-drop_last : (us : Rows) → amounts (drop_last us) ≡ drop_last (amounts us)
amounts-drop_last [] = refl
amounts-drop_last (u ∷ []) = refl
amounts-drop_last (u ∷ v ∷ us) = rw (amounts-drop_last (v ∷ us))

pub append-last :
    (u : VaultUtxo) (us : Rows) → (v : VaultUtxo) × (u ∷ us ≡ drop_last (u ∷ us) ++ v ∷ [])
append-last u [] = (u, refl)
append-last u (v ∷ us) = let (w, e) = append-last v us in (w, rw (← e))

-- One UTXO at most, or without the last one they do not cover the amount.
abbrev pub IsMinimal : ℕ → Rows → Type 0
IsMinimal amount us = (length us ≤ 1) ⊎ (sum_amounts (drop_last us) < amount)

pub IsMinimal-of_split :
    (amount : ℕ) (us : Rows)
    → ((xs : Rows) (u : VaultUtxo) → us ≡ xs ++ u ∷ [] → (xs ≡ []) ⊎ (sum_amounts xs < amount))
    → IsMinimal amount us
IsMinimal-of_split amount [] h = inl (omega arith)
IsMinimal-of_split amount (u ∷ []) h = inl (omega arith)
IsMinimal-of_split amount (u ∷ v ∷ us) h =
    let (w, e) = append-last u (v ∷ us) in
    elim (h (drop_last (u ∷ v ∷ us)) w e) [ inl none_left ↦ absurd (cc) | inr short ↦ inr short ]

pub IsMinimal-amounts :
    (amount : ℕ) (us ws : Rows)
    → amounts us ≡ amounts ws
    → IsMinimal amount ws
    → IsMinimal amount us
IsMinimal-amounts amount us ws e (inl h) = inl (rw (length-amounts us, e, ← length-amounts ws) h)
IsMinimal-amounts amount us ws e (inr h) = inr (
    omega (
      arith,
      sum-amounts (drop_last us),
      sum-amounts (drop_last ws),
      ap (λ ns. sum_by (λ n. n) (drop_last ns)) e,
      ap (sum_by (λ n. n)) (amounts-drop_last us),
      ap (sum_by (λ n. n)) (amounts-drop_last ws),
    ))
