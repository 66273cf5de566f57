-- ===== src/State/RedeemDb.antt =====
-- state/statedb_eth2btc.go: the statements on the table redeem.
use bridge_go_aptos.Prelude.{
  ℕ, String, Bool, true, false, not, ◌&&◌, Option, none, some, List, [], ◌∷◌, ◌++◌, map, filter,
  ◌==◌, if◌then◌else◌, str_eq,
}
use bridge_go_aptos.Go.{Outcome, ok, err, db_failure, constraint_failed}
use bridge_go_aptos.Agreement.{Hash}
use bridge_go_aptos.Sql.{Exec, pure, lift, query, query_rows, exec, prepare, ◌>>=◌, ◌>>◌}
use bridge_go_aptos.State.Redeem.{Redeem, RedeemStatus, requested, prepared, completed, invalid}
use bridge_go_aptos.State.Tables.{
  Tables, RedeemRow, SqlRedeem, encode_redeem, decode_redeem, redeem_row_allowed,
  prepare_tx_hash_taken, btc_tx_id_taken, fits_column,
}

unfoldable pub find_redeem : Hash → List RedeemRow → Option RedeemRow
find_redeem h [] = none
find_redeem h (r ∷ rows) = if r.request_tx_hash == h then some r else find_redeem h rows

abbrev pub is_none {ℓ} : {A : Type ℓ} → Option A → Bool
is_none none = true
is_none (some a) = false

-- INSERT OR IGNORE: a row that breaks a CHECK or UNIQUE constraint is left out without an error.
unfoldable pub insert_or_ignore : RedeemRow → List RedeemRow → List RedeemRow
insert_or_ignore r rows =
    if redeem_row_allowed r
      && is_none (find_redeem r.request_tx_hash rows)
      && not (prepare_tx_hash_taken r.prepare_tx_hash rows)
      && not (btc_tx_id_taken r.btc_tx_id rows)
    then rows ++ r ∷ []
    else rows

abbrev pub requested_row : SqlRedeem → RedeemRow
requested_row s = record {
  request_tx_hash = s.request_tx_hash;
  prepare_tx_hash = none;
  btc_tx_id = none;
  requester = s.requester;
  receiver = s.receiver;
  amount = s.amount;
  outpoints = none;
  status = s.status;
}

abbrev pub prepared_row : SqlRedeem → RedeemRow
prepared_row s = record {
  request_tx_hash = s.request_tx_hash;
  prepare_tx_hash = some s.prepare_tx_hash;
  btc_tx_id = none;
  requester = s.requester;
  receiver = s.receiver;
  amount = s.amount;
  outpoints = s.outpoints;
  status = s.status;
}

abbrev pub insert_redeem : RedeemRow → Tables → Outcome Tables
insert_redeem r t =
    if fits_column r.amount
    then ok (record t { redeem = insert_or_ignore r t.redeem })
    else err db_failure

unfoldable pub insert_after_requested : Redeem → Exec Tables (Unit {0})
insert_after_requested redeem = do
  prepare
  s ← lift (encode_redeem redeem)
  exec (insert_redeem (requested_row s))

-- UPDATE redeem SET ... WHERE requestTxHash = ?, by the change `f` of the row.
unfoldable pub update_row : Hash → (RedeemRow → RedeemRow) → List RedeemRow → List RedeemRow
update_row h f [] = []
update_row h f (r ∷ rows) = (if r.request_tx_hash == h then f r else r) ∷ update_row h f rows

-- Every other row than that with the key.
unfoldable pub other_rows : Hash → List RedeemRow → List RedeemRow
other_rows h [] = []
other_rows h (r ∷ rows) =
    let rest = other_rows h rows in if r.request_tx_hash == h then rest else r ∷ rest

-- An UPDATE whose row would break a constraint fails, and changes nothing. One that finds no row
-- succeeds.
abbrev pub update_allowed : RedeemRow → List RedeemRow → Bool
update_allowed r others =
    redeem_row_allowed r
    && not (prepare_tx_hash_taken r.prepare_tx_hash others)
    && not (btc_tx_id_taken r.btc_tx_id others)

abbrev pub update_found :
    Hash → (RedeemRow → RedeemRow) → Tables → Option RedeemRow → Outcome Tables
update_found h f t none = ok t
update_found h f t (some r) =
    if update_allowed (f r) (other_rows h t.redeem)
    then ok (record t { redeem = update_row h f t.redeem })
    else err constraint_failed

unfoldable pub update_redeem : Hash → (RedeemRow → RedeemRow) → Tables → Outcome Tables
update_redeem h f t = update_found h f t (find_redeem h t.redeem)

unfoldable pub get_redeem : Hash → Exec Tables (Option Redeem)
get_redeem h = do
  prepare
  row ← query (λ t. find_redeem h t.redeem)
  pure (elim row [ none ↦ none | some r ↦ some (decode_redeem r) ])

abbrev pub set_prepared : SqlRedeem → RedeemRow → RedeemRow
set_prepared s r = record r {
  prepare_tx_hash = some s.prepare_tx_hash;
  outpoints = s.outpoints;
  status = s.status;
}

-- The statement that is executed, by whether the redeem was found.
abbrev pub write_prepared : Option Redeem → SqlRedeem → Tables → Outcome Tables
write_prepared (some found) s = update_redeem s.request_tx_hash (set_prepared s)
write_prepared none s = insert_redeem (prepared_row s)

unfoldable pub update_after_prepared : Redeem → Exec Tables (Unit {0})
update_after_prepared redeem = do
  found ← get_redeem redeem.request_tx_hash
  prepare
  s ← lift (encode_redeem redeem)
  exec (write_prepared found s)

abbrev pub set_redeemed : SqlRedeem → RedeemRow → RedeemRow
set_redeemed s r = record r { btc_tx_id = some s.btc_tx_id; status = s.status }

unfoldable pub update_after_redeemed : Redeem → Exec Tables (Unit {0})
update_after_redeemed redeem = do
  prepare
  s ← lift (encode_redeem redeem)
  exec (update_redeem s.request_tx_hash (set_redeemed s))

abbrev pub has_status : RedeemStatus → RedeemStatus → Bool
has_status requested requested = true
has_status prepared prepared = true
has_status completed completed = true
has_status invalid invalid = true
has_status _ _ = false

unfoldable pub get_redeems_by_status : RedeemStatus → Exec Tables (List Redeem)
get_redeems_by_status status = do
  prepare
  rows ← query_rows (λ t. filter (λ r. has_status r.status status) t.redeem)
  pure (map decode_redeem rows)

-- The status, or `none` where no redeem is found.
unfoldable pub has_redeem : Hash → Exec Tables (Option RedeemStatus)
has_redeem h = do
  prepare
  query (λ t. elim (find_redeem h t.redeem) [ none ↦ none | some r ↦ some r.status ])

-- Requester by its text: `bytes_to_hex` is go-ethereum's, `trim_prefix` is strings.TrimPrefix of "0x",
-- and `lower` is LOWER of SQLite.
module _ (bytes_to_hex : List ℕ → String) (trim_prefix lower : String → String) where
  unfoldable pub get_redeems_by_requester : String → Exec Tables (List Redeem)
  get_redeems_by_requester requester = do
    prepare
    rows ← query_rows (λ t.
        filter (λ r. str_eq (lower (bytes_to_hex r.requester)) (lower (trim_prefix requester)))
          t.redeem)
    pure (map decode_redeem rows)
