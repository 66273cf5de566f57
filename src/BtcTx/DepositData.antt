-- ===== src/BtcTx/DepositData.antt =====
-- common/btc2evm_deposit.go: what a deposit carries, a chain id of four bytes and an address of 20. An
-- int has 64 bits.
use bridge_go_aptos.Prelude.{
  List, length, String, ◌==◌, ℕ, ◌+◌, ◌*◌, ◌/◌, ◌%◌, ◌^◌, ◌≤◌, ◌<◌, ◌≡◌, ltb, if◌then◌else◌, arith,
}
use bridge_go_aptos.Go.{Outcome, ok, err, integer_overflow, address_length, ◌>>=◌}
use bridge_go_aptos.BigInt.{ℤ, pos, negsuc}

abbrev pub Bytes4 : Type 0
Bytes4 = ℕ × ℕ × ℕ × ℕ

-- The shifts and masks of a number that is not negative.
unfoldable pub int_to_byte_array : ℤ → Outcome Bytes4
int_to_byte_array (negsuc n) = err integer_overflow
int_to_byte_array (pos n) =
    if ltb 4294967295 n
    then err integer_overflow
    else ok (n / 2 ^ 24 % 256, n / 2 ^ 16 % 256, n / 2 ^ 8 % 256, n % 256)

-- The parts of the bytes in the sum do not overlap, so `|` is `+`.
unfoldable pub byte_array_to_int : Bytes4 → ℕ
byte_array_to_int (a, b, c, d) = a * 2 ^ 24 + b * 2 ^ 16 + c * 2 ^ 8 + d

-- EvmAddrToByteArray, of the bytes that HexToAddress gives.
unfoldable pub evm_addr_to_byte_array : List ℕ → Outcome (List ℕ)
evm_addr_to_byte_array bytes = if length bytes == 20 then ok bytes else err address_length

-- `hex_to_address` is go-ethereum's HexToAddress, and `encode_rlp` its encoding of the two fields.
module _ (hex_to_address : String → List ℕ) (encode_rlp : Bytes4 → List ℕ → Outcome (List ℕ)) where
  unfoldable pub make_deposit_op_return_data : ℤ → String → Outcome (List ℕ)
  make_deposit_op_return_data evm_chain_id evm_addr = do
    evm_id ← int_to_byte_array evm_chain_id
    address ← evm_addr_to_byte_array (hex_to_address evm_addr)
    encode_rlp evm_id address

-- A chain id from 0 up to 4294967295 has four bytes, each below 256, from which it is read back as
-- it was.
pub byte_array_to_int-int_to_byte_array :
    (n : ℕ)
    → n ≤ 4294967295
    → (b : Bytes4) × (int_to_byte_array (pos n) ≡ ok b)
      × (byte_array_to_int b ≡ n)
      × ((b.0 < 256) × (b.1 < 256) × (b.2 < 256) × (b.3 < 256))
unfolding int_to_byte_array byte_array_to_int
byte_array_to_int-int_to_byte_array n h = (
  (n / 2 ^ 24 % 256, n / 2 ^ 16 % 256, n / 2 ^ 8 % 256, n % 256),
  ground arith,
  omega arith,
  (omega arith, omega arith, omega arith, omega arith),
)
