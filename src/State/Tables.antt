-- ===== src/State/Tables.antt =====
-- state/schema.go and the coding of rows, state/sqlredeem.go and state/mint.go. A CHAR(64) column
-- holds a hash in hexadecimal, which go-ethereum writes and reads; here it holds the hash that the
-- text spells, and `none` where it is NULL. So too for the hexadecimal text of an address, and for
-- the gob encoding of the outpoints.
use bridge_go_aptos.Prelude.{
  ℕ, ◌^◌, Bool, false, not, ◌&&◌, ◌||◌, Option, none, some, String, List, [], ◌∷◌, ◌==◌, ltb,
}
use bridge_go_aptos.Go.{Outcome, ok, panic}
use bridge_go_aptos.BigInt.{ℤ, pos, to_uint64}
use bridge_go_aptos.Agreement.{Hash, BtcOutpoint, MintedEvent}
use bridge_go_aptos.State.Redeem.{Redeem, RedeemStatus, same_bytes}

-- mint.go
pub record Mint : Type 0 where
  pub btc_tx_id : Hash
  pub mint_tx_hash : Hash
  pub receiver : List ℕ
  pub amount : Option ℤ

unfoldable pub create_mint_from_minted_event : MintedEvent → Mint
create_mint_from_minted_event ev = record {
  btc_tx_id = ev.btc_tx_id;
  mint_tx_hash = ev.mint_tx_hash;
  receiver = ev.receiver;
  amount = ev.amount;
}

-- sqlMint after encode. The text of a hash is never empty there.
pub record SqlMint : Type 0 where
  pub btc_tx_id : Hash
  pub mint_tx_hash : Hash
  pub receiver : List ℕ
  pub amount : ℕ

abbrev pub encode_mint : Mint → Outcome SqlMint
encode_mint m = elim m.amount [
  | none ↦ panic
  | some z ↦ ok (record {
    btc_tx_id = m.btc_tx_id;
    mint_tx_hash = m.mint_tx_hash;
    receiver = m.receiver;
    amount = to_uint64 z;
  })
]

-- sqlRedeem after encode.
pub record SqlRedeem : Type 0 where
  pub request_tx_hash : Hash
  pub prepare_tx_hash : Hash
  pub btc_tx_id : Hash
  pub requester : List ℕ
  pub receiver : String
  pub amount : ℕ
  pub outpoints : Option (List BtcOutpoint)
  pub status : RedeemStatus

abbrev encode_amount : Redeem → Option ℤ → Outcome SqlRedeem
encode_amount r none = panic
encode_amount r (some z) = ok (record {
  request_tx_hash = r.request_tx_hash;
  prepare_tx_hash = r.prepare_tx_hash;
  btc_tx_id = r.btc_tx_id;
  requester = r.requester;
  receiver = r.receiver;
  amount = to_uint64 z;
  outpoints = r.outpoints;
  status = r.status;
})

-- r.Amount.Uint64() reads the pointer: encode panics where it is nil.
unfoldable pub encode_redeem : Redeem → Outcome SqlRedeem
encode_redeem r = encode_amount r r.amount

pub record RedeemRow : Type 0 where
  pub request_tx_hash : Hash
  pub prepare_tx_hash : Option Hash
  pub btc_tx_id : Option Hash
  pub requester : List ℕ
  pub receiver : String
  pub amount : ℕ
  pub outpoints : Option (List BtcOutpoint)
  pub status : RedeemStatus

-- The empty text, which stands for NULL in Go, is read as the zero hash.
abbrev pub or_zero : Option Hash → Hash
or_zero none = 0
or_zero (some h) = h

unfoldable pub decode_redeem : RedeemRow → Redeem
decode_redeem r = record {
  request_tx_hash = r.request_tx_hash;
  prepare_tx_hash = or_zero r.prepare_tx_hash;
  btc_tx_id = or_zero r.btc_tx_id;
  requester = r.requester;
  receiver = r.receiver;
  amount = some (pos r.amount);
  outpoints = r.outpoints;
  status = r.status;
}

pub record MintRow : Type 0 where
  pub btc_tx_id : Hash
  pub mint_tx_hash : Option Hash
  pub receiver : List ℕ
  pub amount : ℕ

-- sqlMint.decode
unfoldable pub decode_mint : MintRow → Mint
decode_mint r = record {
  btc_tx_id = r.btc_tx_id;
  mint_tx_hash = or_zero r.mint_tx_hash;
  receiver = r.receiver;
  amount = some (pos r.amount);
}

pub record Tables : Type 0 where
  pub redeem : List RedeemRow
  pub mint : List MintRow

-- An address of 20 zero bytes, whose text the CHECK constraints exclude.
abbrev pub zero_address : List ℕ
zero_address = 0 ∷ 0 ∷ 0 ∷ 0 ∷ 0 ∷ 0 ∷ 0 ∷ 0 ∷ 0 ∷ 0 ∷ 0 ∷ 0 ∷ 0 ∷ 0 ∷ 0 ∷ 0 ∷ 0 ∷ 0 ∷ 0 ∷ 0 ∷ []

-- A column that is NULL passes `!=` and is equal to no value.
abbrev pub is_zero_hash : Option Hash → Bool
is_zero_hash none = false
is_zero_hash (some h) = h == 0

abbrev pub same_value : Option Hash → Option Hash → Bool
same_value (some h) (some k) = h == k
same_value _ _ = false

-- The CHECK constraints on a row of the table redeem.
unfoldable pub redeem_row_allowed : RedeemRow → Bool
redeem_row_allowed r =
    ltb 0 r.amount
    && not (r.request_tx_hash == 0)
    && not (is_zero_hash r.prepare_tx_hash)
    && not (is_zero_hash r.btc_tx_id)
    && not (same_bytes r.requester zero_address)

unfoldable pub mint_row_allowed : MintRow → Bool
mint_row_allowed r =
    ltb 0 r.amount && not (r.btc_tx_id == 0) && not (same_bytes r.receiver zero_address)

-- Another row has the value of a column that is to be unique.
unfoldable pub prepare_tx_hash_taken : Option Hash → List RedeemRow → Bool
prepare_tx_hash_taken h [] = false
prepare_tx_hash_taken h (r ∷ rows) = same_value r.prepare_tx_hash h || prepare_tx_hash_taken h rows

unfoldable pub btc_tx_id_taken : Option Hash → List RedeemRow → Bool
btc_tx_id_taken h [] = false
btc_tx_id_taken h (r ∷ rows) = same_value r.btc_tx_id h || btc_tx_id_taken h rows

unfoldable pub mint_tx_hash_taken : Option Hash → List MintRow → Bool
mint_tx_hash_taken h [] = false
mint_tx_hash_taken h (r ∷ rows) = same_value r.mint_tx_hash h || mint_tx_hash_taken h rows

-- database/sql refuses a uint64 argument with its high bit set.
abbrev pub fits_column : ℕ → Bool
fits_column amount = ltb amount (2 ^ 63)
