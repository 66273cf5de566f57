-- ===== src/State/MintDb.antt =====
-- state/statedb_btc2eth.go: the statements on the table mint.
use bridge_go_aptos.Prelude.{
  not, ◌&&◌, Option, none, some, List, [], ◌∷◌, ◌++◌, map, filter, ◌==◌, if◌then◌else◌,
}
use bridge_go_aptos.Go.{Outcome, ok, err, db_failure, constraint_failed}
use bridge_go_aptos.Agreement.{Hash}
use bridge_go_aptos.Sql.{Exec, pure, lift, query, query_rows, exec, prepare, ◌>>=◌, ◌>>◌}
use bridge_go_aptos.State.Tables.{
  Tables, Mint, SqlMint, MintRow, encode_mint, decode_mint, mint_row_allowed, mint_tx_hash_taken,
  fits_column,
}
use bridge_go_aptos.State.RedeemDb.{is_none}

unfoldable pub find_mint : Hash → List MintRow → Option MintRow
find_mint h [] = none
find_mint h (r ∷ rows) = if r.btc_tx_id == h then some r else find_mint h rows

-- A plain INSERT: a row that breaks a constraint is an error.
unfoldable pub insert_mint_row : MintRow → Tables → Outcome Tables
insert_mint_row r t =
    if not (fits_column r.amount)
    then err db_failure
    else if mint_row_allowed r
        && is_none (find_mint r.btc_tx_id t.mint)
        && not (mint_tx_hash_taken r.mint_tx_hash t.mint)
    then ok (record t { mint = t.mint ++ r ∷ [] })
    else err constraint_failed

-- The mint hash is NULL where it is the empty hash.
abbrev pub mint_row : SqlMint → MintRow
mint_row s = record {
  btc_tx_id = s.btc_tx_id;
  mint_tx_hash = if s.mint_tx_hash == 0 then none else some s.mint_tx_hash;
  receiver = s.receiver;
  amount = s.amount;
}

unfoldable pub insert_mint : Mint → Exec Tables (Unit {0})
insert_mint m = do prepare; s ← lift (encode_mint m); exec (insert_mint_row (mint_row s))

-- The statement has no ORDER BY: in which order SQLite returns the rows is `order_rows`.
module _ (order_rows : List MintRow → List MintRow) where
  unfoldable pub get_un_minted : Exec Tables (List Mint)
  get_un_minted = do
    prepare
    rows ← query_rows (λ t. order_rows (filter (λ r. is_none r.mint_tx_hash) t.mint))
    pure (map decode_mint rows)

unfoldable pub get_mint : Hash → Exec Tables (Option Mint)
get_mint h = do
  prepare
  row ← query (λ t. find_mint h t.mint)
  pure (elim row [ none ↦ none | some r ↦ some (decode_mint r) ])

unfoldable pub update_mint_row : Hash → Hash → List MintRow → List MintRow
update_mint_row h mint_tx_hash [] = []
update_mint_row h mint_tx_hash (r ∷ rows) =
    (if r.btc_tx_id == h then record r { mint_tx_hash = some mint_tx_hash } else r)
    ∷ update_mint_row h mint_tx_hash rows

unfoldable pub other_mints : Hash → List MintRow → List MintRow
other_mints h [] = []
other_mints h (r ∷ rows) =
    let rest = other_mints h rows in if r.btc_tx_id == h then rest else r ∷ rest

-- UPDATE mint SET mintTxHash = ? WHERE BtcTxId = ?. It sets the text of the hash, the empty hash
-- included, which is 64 zeros and not NULL.
abbrev set_found : SqlMint → Tables → Option MintRow → Outcome Tables
set_found s t none = ok t
set_found s t (some r) =
    if mint_tx_hash_taken (some s.mint_tx_hash) (other_mints s.btc_tx_id t.mint)
    then err constraint_failed
    else ok (record t { mint = update_mint_row s.btc_tx_id s.mint_tx_hash t.mint })

unfoldable pub set_mint_tx_hash : SqlMint → Tables → Outcome Tables
set_mint_tx_hash s t = set_found s t (find_mint s.btc_tx_id t.mint)

abbrev pub update_existing : Mint → Exec Tables (Unit {0})
update_existing m = do prepare; s ← lift (encode_mint m); exec (set_mint_tx_hash s)

abbrev pub insert_or_update : Mint → Option Mint → Exec Tables (Unit {0})
insert_or_update m none = insert_mint m
insert_or_update m (some old) = update_existing m

unfoldable pub update_mint : Mint → Exec Tables (Unit {0})
update_mint m = do old ← get_mint m.btc_tx_id; insert_or_update m old
