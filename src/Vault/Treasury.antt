-- ===== src/Vault/Treasury.antt =====
-- btcvault/vault.go: the methods of TreasureVault. Its mutex makes each `choose_and_lock` one step.
-- `now i` is what time.Now().Unix() reads in round i of the loop. `hex_to_hash` and `bytes_to_hex`
-- stand for go-ethereum's HexToHash and Bytes2Hex.
use bridge_go_aptos.Prelude.{
  ℕ, suc, ◌%◌, ◌^◌, true, false, Option, none, some, String, List, [], ◌∷◌, map, is_empty,
  if◌then◌else◌,
}
use bridge_go_aptos.Go.{ok, utxo_exists, utxo_not_found, linked_id_exists}
use bridge_go_aptos.Int64.{add64}
use bridge_go_aptos.BigInt.{ℤ, to_int64}
use bridge_go_aptos.Sql.{Exec, pure, raise, ◌>>=◌, ◌>>◌}
use bridge_go_aptos.Agreement.{Hash, BtcOutpoint}
use bridge_go_aptos.Vault.Utxo.{VaultUtxo}
use bridge_go_aptos.Vault.Storage.{
  Rows, insert_vault_utxo, query_by_linked_id, query_all_utxos, query_by_tx_id_and_vout,
  query_expired_and_locked_utxos, query_enough_utxos, set_lockup, set_linked_id, set_timeout,
  sum_money,
}

-- An hour, in seconds.
abbrev pub timeout_delay : ℕ
timeout_delay = 3600

-- 0.0001 BTC in satoshi.
abbrev pub safe_margin : ℕ
safe_margin = 10000

abbrev pub new_utxo : ℕ → String → String → ℕ → ℕ → List ℕ → VaultUtxo
new_utxo block_number block_hash tx_id vout amount pk_script = record {
  block_number = block_number;
  block_hash = block_hash;
  tx_id = tx_id;
  vout = vout;
  amount = amount;
  pk_script = pk_script;
  lockup = false;
  spent = false;
  timeout = 0;
  linked_id = "";
}

abbrev pub insert_if_new : VaultUtxo → Option VaultUtxo → Exec Rows (Unit {0})
insert_if_new utxo none = insert_vault_utxo utxo
insert_if_new utxo (some old_utxo) = raise utxo_exists

unfoldable pub add_utxo : ℕ → String → String → ℕ → ℕ → List ℕ → Exec Rows (Unit {0})
add_utxo block_number block_hash tx_id vout amount pk_script = do
  let utxo = new_utxo block_number block_hash tx_id vout amount pk_script
  old_utxo ← query_by_tx_id_and_vout tx_id vout
  insert_if_new utxo old_utxo

-- One round of the loop of ChooseAndLock: the row, and the copy of it that is returned.
unfoldable pub lock_utxo : ℕ → String → VaultUtxo → Exec Rows VaultUtxo
lock_utxo now linked_id u = do
  set_lockup u.tx_id u.vout true
  let timepoint = add64 now timeout_delay
  set_timeout u.tx_id u.vout timepoint
  set_linked_id u.tx_id u.vout linked_id
  pure (record u { lockup = true; timeout = timepoint; linked_id = linked_id })

unfoldable pub lock_all : (ℕ → ℕ) → String → ℕ → Rows → Exec Rows Rows
lock_all now linked_id i [] = pure []
lock_all now linked_id i (u ∷ us) = do
  u' ← lock_utxo (now i) linked_id u
  us' ← lock_all now linked_id (suc i) us
  pure (u' ∷ us')

module _ (order_by_amount : Rows → Rows) where
  -- The rest of ChooseAndLock after the check of the linked id.
  unfoldable pub lock_enough : (ℕ → ℕ) → ℕ → String → Exec Rows Rows
  lock_enough now target_amount linked_id = do
    utxos ← query_enough_utxos order_by_amount target_amount
    lock_all now linked_id 0 utxos

  unfoldable pub choose_and_lock : (ℕ → ℕ) → ℕ → String → Exec Rows Rows
  choose_and_lock now target_amount linked_id = do
    hits ← query_by_linked_id linked_id
    if is_empty hits then lock_enough now target_amount linked_id else raise linked_id_exists

-- The body of ReleaseByCommand after its check, and of the loop of ReleaseByExpire.
unfoldable pub release_utxo : String → ℕ → Exec Rows (Unit {0})
release_utxo tx_id vout = do set_lockup tx_id vout false; set_timeout tx_id vout 0

unfoldable pub release_all : Rows → Exec Rows (Unit {0})
release_all [] = pure tt
release_all (u ∷ us) = do release_utxo u.tx_id u.vout; release_all us

unfoldable pub release_by_expire : ℕ → Exec Rows (Unit {0})
release_by_expire now = do utxos ← query_expired_and_locked_utxos now; release_all utxos

abbrev pub or_not_found : Option VaultUtxo → Exec Rows VaultUtxo
or_not_found none = raise utxo_not_found
or_not_found (some utxo) = pure utxo

unfoldable pub get_utxo_detail : String → ℕ → Exec Rows VaultUtxo
get_utxo_detail tx_id vout = do utxo ← query_by_tx_id_and_vout tx_id vout; or_not_found utxo

unfoldable pub release_by_command : String → ℕ → Exec Rows (Unit {0})
release_by_command tx_id vout = do
  utxo ← query_by_tx_id_and_vout tx_id vout
  or_not_found utxo
  release_utxo tx_id vout

unfoldable pub peek : Exec Rows (Rows × ℕ)
peek = do utxos ← query_all_utxos; total ← sum_money; pure (utxos, total)

-- Status logs what Peek returns, its errors included, and returns nothing.
unfoldable pub status : Exec Rows (Unit {0})
unfolding peek
status d = (ok tt, (peek d).1)

module _ (order_by_amount : Rows → Rows) (hex_to_hash : String → Hash)
    (bytes_to_hex : List ℕ → String) where
  unfoldable pub to_outpoint : VaultUtxo → BtcOutpoint
  to_outpoint u = record { btc_tx_id = hex_to_hash u.tx_id; btc_idx = u.vout % 2 ^ 16 }

  -- The result stands for the outpoints that are sent to the channel.
  unfoldable pub request : (ℕ → ℕ) → List ℕ → ℤ → Exec Rows (List BtcOutpoint)
  unfolding to_outpoint
  request now req_tx_id amount = do
    status
    utxos ←
        choose_and_lock order_by_amount now (add64 (to_int64 amount) safe_margin)
          (bytes_to_hex req_tx_id)
    pure (map to_outpoint utxos)
