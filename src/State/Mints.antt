-- ===== src/State/Mints.antt =====
-- state/statedb_btc2eth.go: what the calls that write mints leave alone, and what they write.
use bridge_go_aptos.Prelude.{◌≡◌, refl, Option, none, some, arith}
use bridge_go_aptos.Go.{ok}
use bridge_go_aptos.Agreement.{Hash}
use bridge_go_aptos.Sql.{Disk}
use bridge_go_aptos.Sql.Laws.{Keeps, Keeps-bind, keeps_rules}
use bridge_go_aptos.State.Tables.{Tables, Mint, SqlMint, MintRow}
use bridge_go_aptos.State.MintDb.{
  insert_or_update, insert_mint_row, insert_mint, get_mint, set_mint_tx_hash, update_mint,
}

-- The redeems are those of `t`.
abbrev RedeemsOf : Tables → Tables → Type 0
RedeemsOf t u = u.redeem ≡ t.redeem

insert_mint_row-RedeemsOf :
    (s : Tables) (r : MintRow) (t u : Tables)
    → insert_mint_row r t ≡ ok u
    → RedeemsOf s t
    → RedeemsOf s u
unfolding insert_mint_row
insert_mint_row-RedeemsOf s r t u e h = ground arith

set_mint_tx_hash-RedeemsOf :
    (s : Tables) (m : SqlMint) (t u : Tables)
    → set_mint_tx_hash m t ≡ ok u
    → RedeemsOf s t
    → RedeemsOf s u
unfolding set_mint_tx_hash
set_mint_tx_hash-RedeemsOf s m t u e h = ground arith

ruleset mint_rules = (keeps_rules, insert_mint_row-RedeemsOf, set_mint_tx_hash-RedeemsOf)

get_mint-Keeps : (s : Tables) (h : Hash) → Keeps (RedeemsOf s) (get_mint h)
unfolding get_mint
get_mint-Keeps s h = search keeps_rules

insert_mint-Keeps : (s : Tables) (m : Mint) → Keeps (RedeemsOf s) (insert_mint m)
unfolding insert_mint
insert_mint-Keeps s m = search mint_rules

insert_or_update-Keeps :
    (s : Tables) (m : Mint) (o : Option Mint) → Keeps (RedeemsOf s) (insert_or_update m o)
insert_or_update-Keeps s m none = insert_mint-Keeps s m
insert_or_update-Keeps s m (some old) = search mint_rules

update_mint-Keeps : (s : Tables) (m : Mint) → Keeps (RedeemsOf s) (update_mint m)
unfolding update_mint
update_mint-Keeps s m = Keeps-bind _ _ (get_mint-Keeps s m.btc_tx_id) (insert_or_update-Keeps s m)

pub redeem-update_mint :
    (m : Mint) (d : Disk Tables) → (update_mint m d).1.table.redeem ≡ d.table.redeem
redeem-update_mint m d = (update_mint-Keeps d.table m).at d refl
