-- ===== src/MgrDb/Numbers.antt =====
-- chaintxmgrdb/sqlite_chaintxmgrdb.go: ledger numbers in INTEGER columns, where -1 stands for nil.
use bridge_go_aptos.Prelude.{◌<◌, ◌≡◌, refl, Option, none, some, arith}
use bridge_go_aptos.Int64.{int64_min}
use bridge_go_aptos.BigInt.{ℤ, pos, negsuc, to_int64}
use bridge_go_aptos.MgrDb.{MonitoredTx, encode_number, decode_number, encode_tx, decode_tx}

-- The ledger numbers that the columns can hold: unknown, or from 0 up to 2^63 - 1.
abbrev pub IsStorable : Option ℤ → Type 0
IsStorable none = Unit {0}
IsStorable (some (pos n)) = n < int64_min
IsStorable (some (negsuc n)) = ⊥

decode-encode_number : (o : Option ℤ) → IsStorable o → decode_number (encode_number o) ≡ o
unfolding decode_number encode_number to_int64
decode-encode_number none h = ground arith
decode-encode_number (some (pos n)) h = ground arith
decode-encode_number (some (negsuc n)) h = absurd h

-- A transaction whose two ledger numbers are unknown, or not negative and below 2^63, is read back
-- from its row as it was.
pub decode-encode_tx :
    (tx : MonitoredTx)
    → IsStorable tx.sent_blockchain_ledger_number
    → IsStorable tx.found_blockchain_ledger_number
    → decode_tx (encode_tx tx) ≡ tx
unfolding decode_tx encode_tx
decode-encode_tx tx h k = ground (
  arith,
  decode-encode_number tx.sent_blockchain_ledger_number h,
  decode-encode_number tx.found_blockchain_ledger_number k,
)

-- The number -1 itself is read back as unknown.
minus_one_lost : decode_number (encode_number (some (negsuc 0))) ≡ none
unfolding decode_number encode_number to_int64
minus_one_lost = refl
