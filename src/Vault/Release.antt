-- ===== src/Vault/Release.antt =====
-- ReleaseByExpire of btcvault/vault.go: exactly the rows whose lock has run out are released.
use bridge_go_aptos.Prelude.{ℕ, Bool, false, String, [], ◌∷◌, map, if◌then◌else◌}
use bridge_go_aptos.Vault.Utxo.{VaultUtxo}
use bridge_go_aptos.Vault.Storage.{Rows, update_where}

abbrev pub released : VaultUtxo → VaultUtxo
released u = record u { lockup = false; timeout = 0 }

release_row : String → ℕ → Rows → Rows
release_row tx_id vout rows =
    update_where tx_id vout (λ u. record u { timeout = 0 })
      (update_where tx_id vout (λ u. record u { lockup = false }) rows)

release_rows : Rows → Rows → Rows
release_rows [] rows = rows
release_rows (u ∷ us) rows = release_rows us (release_row u.tx_id u.vout rows)

abbrev release_if : (VaultUtxo → Bool) → Rows → Rows
release_if p = map (λ u. if p u then released u else u)
