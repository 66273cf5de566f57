-- ===== src/BtcUtxo/Tests.antt =====
-- A run of SelectUtxo.
use bridge_go_aptos.Prelude.{◌+◌, ◌≤◌, ◌<◌, ◌≡◌, ℕ, none, List, [], ◌∷◌, arith}
use bridge_go_aptos.Go.{ok, err, not_enough_utxos}
use bridge_go_aptos.BtcUtxo.{Utxo, p2wpkh_script_t, total, select_utxo, IsChoice, select_utxo-cases}

abbrev input : ℕ → Utxo
input amount = record {
  tx_id = "x";
  tx_hash = none;
  vout = 0;
  amount = amount;
  pk_script_t = p2wpkh_script_t;
  pk_script = [];
}

abbrev inputs : List Utxo
inputs = input 4 ∷ input 6 ∷ input 9 ∷ []

select_utxo-cases_example :
    (total inputs ≤ 7 + 2 → select_utxo inputs 7 2 ≡ err not_enough_utxos)
    × (7 + 2 < total inputs
        → (chosen : List Utxo) × (select_utxo inputs 7 2 ≡ ok chosen)
          × IsChoice (7 + 2) 0 inputs chosen)
select_utxo-cases_example = select_utxo-cases inputs 7 2 (omega arith) (omega arith)
