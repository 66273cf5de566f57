-- ===== src/Vault/Run.antt =====
-- The calls that clients of the vault make, in any order: each may fail or not, and leaves its table.
use bridge_go_aptos.Prelude.{ℕ, Bool, true, false, String, List, [], ◌∷◌}
use bridge_go_aptos.Sql.{Disk}
use bridge_go_aptos.Vault.Storage.{Rows, set_spent}
use bridge_go_aptos.Vault.Treasury.{
  add_utxo, choose_and_lock, release_by_expire, release_by_command,
}

pub data Call : Type 0 where
  adds : ℕ → String → String → ℕ → ℕ → List ℕ → Call
  chooses : (ℕ → ℕ) → ℕ → String → Call
  expires : ℕ → Call
  commands : String → ℕ → Call
  spends : String → ℕ → Bool → Call

-- Every call but the two releases.
abbrev pub keeps_locks : Call → Bool
keeps_locks (expires now) = false
keeps_locks (commands tx_id vout) = false
keeps_locks _ = true

module _ (order_by_amount : Rows → Rows) where
  unfoldable pub step : Call → Disk Rows → Disk Rows
  step (adds block_number block_hash tx_id vout amount pk_script) d =
      (add_utxo block_number block_hash tx_id vout amount pk_script d).1
  step (chooses now target_amount linked_id) d =
      (choose_and_lock order_by_amount now target_amount linked_id d).1
  step (expires now) d = (release_by_expire now d).1
  step (commands tx_id vout) d = (release_by_command tx_id vout d).1
  step (spends tx_id vout spent) d = (set_spent tx_id vout spent d).1

  unfoldable pub run : List Call → Disk Rows → Disk Rows
  run [] d = d
  run (c ∷ cs) d = run cs (step c d)
