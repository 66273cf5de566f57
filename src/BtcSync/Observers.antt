-- ===== src/BtcSync/Observers.antt =====
-- btcsync: the observers, which write what the monitor has found into the bridge's tables.
use bridge_go_aptos.Prelude.{ℕ, some, String, List}
use bridge_go_aptos.Agreement.{Hash}
use bridge_go_aptos.Sql.{Exec}
use bridge_go_aptos.State.Tables.{Tables, Mint}
use bridge_go_aptos.State.Handlers.{set_new_btc2evm_mint, set_redeem_completed}
use bridge_go_aptos.Vault.Storage
use bridge_go_aptos.Vault.Treasury.{add_utxo}
use bridge_go_aptos.MgrDb.{new_int}
use bridge_go_aptos.BtcAction.Deposits
use bridge_go_aptos.BtcAction.Deposits.{DepositAction, add_deposit}
use bridge_go_aptos.BtcAction.Redeems.{RedeemAction}
use bridge_go_aptos.BtcSync.{ObservedUtxo}

-- `hex_to_hash` and `hex_to_address` are go-ethereum's HexToHash, and HexToAddress with its bytes.
module _ (hex_to_hash : String → Hash) (hex_to_address : String → List ℕ) where
  -- BTC2EVMObserver: the mint that waits, without a hash yet.
  unfoldable pub mint_of_deposit : DepositAction → Mint
  mint_of_deposit d = record {
    btc_tx_id = hex_to_hash d.basic.tx_hash;
    mint_tx_hash = 0;
    receiver = hex_to_address d.evm_addr;
    amount = some (new_int d.deposit_value);
  }

  unfoldable pub observe_mint : DepositAction → Exec Tables (Unit {0})
  observe_mint d = set_new_btc2evm_mint (mint_of_deposit d)

  unfoldable pub observe_redeem_completed : RedeemAction → Exec Tables (Unit {0})
  observe_redeem_completed r =
      set_redeem_completed (hex_to_hash r.eth_request_tx_id) (hex_to_hash r.btc_hash)

-- ObserverDepositAction and ObserverUTXOVault
unfoldable pub observe_deposit : DepositAction → Exec Deposits.Rows (Unit {0})
observe_deposit d = add_deposit d

unfoldable pub observe_utxo : ObservedUtxo → Exec Storage.Rows (Unit {0})
observe_utxo u = add_utxo u.block_number u.block_hash u.tx_id u.vout u.amount u.pk_script
