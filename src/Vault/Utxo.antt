-- ===== src/Vault/Utxo.antt =====
-- btcvault/types.go: the record of one UTXO, and the tests that the SQL statements make on it.
use bridge_go_aptos.Prelude.{
  ℕ, ◌≡◌, Bool, true, not, ◌&&◌, String, List, arith, ◌==◌, str_eq, eq_iff,
}
use bridge_go_aptos.Prelude.Permutations.{sum_by}

-- Block numbers, output indices, amounts and times are the bit patterns of int32 and int64 values.
pub record VaultUtxo : Type 0 where
  pub block_number : ℕ
  pub block_hash : String
  pub tx_id : String
  pub vout : ℕ
  pub amount : ℕ
  pub pk_script : List ℕ
  pub lockup : Bool
  pub spent : Bool
  pub timeout : ℕ
  pub linked_id : String

-- WHERE tx_id = ? AND vout = ?
unfoldable pub has_key : String → ℕ → VaultUtxo → Bool
has_key tx_id vout u = str_eq u.tx_id tx_id && u.vout == vout

-- WHERE lockup = 0 AND spent = 0
unfoldable pub is_usable : VaultUtxo → Bool
is_usable u = not u.lockup && not u.spent

-- SUM(amount) as a number, before any wrap-around.
abbrev pub sum_amounts : List VaultUtxo → ℕ
sum_amounts = sum_by (λ u. u.amount)

pub has_key_self : (u : VaultUtxo) → has_key u.tx_id u.vout u ≡ true
unfolding has_key
has_key_self u = ground (arith, eq_iff u.tx_id u.tx_id)

pub has_key-eq :
    (tx_id : String) (vout : ℕ) (u : VaultUtxo)
    → has_key tx_id vout u ≡ true
    → (u.tx_id ≡ tx_id) × (u.vout ≡ vout)
unfolding has_key
has_key-eq tx_id vout u h = ground (arith, eq_iff u.tx_id tx_id)
