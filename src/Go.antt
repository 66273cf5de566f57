-- ===== src/Go.antt =====
-- Go's ways to end a call: a value, an error value, or a panic (a nil pointer that is read). Every
-- part of the program gives its errors to one type.
use bridge_go_aptos.Prelude.{◌≡◌, refl, Bool, true, false, Option, none, some}

pub data Error : Type 0 where
  -- the database fails, or refuses a row by a constraint
  db_failure constraint_failed : Error
  -- btcvault
  utxo_exists utxo_not_found linked_id_exists not_enough_utxos : Error
  -- state/redeem.go
  amount_invalid request_tx_hash_invalid request_tx_hash_unmatched requester_unmatched : Error
  amount_unmatched receiver_unmatched outpoints_invalid outpoint_tx_id_invalid : Error
  prepare_tx_hash_empty : Error
  -- state/state.go
  get_eth_finalized_block_number set_eth_finalized_block_number key_value_not_found : Error
  stored_eth_finalized_block_number_invalid get_eth_chain_id set_eth_chain_id : Error
  eth_chain_id_unmatched_stored update_invalid_redeem prepared_event_unmatched : Error
  prepared_event_invalid requested_event_invalid db_op_update_redeem db_op_get_redeem : Error
  db_op_has_redeem db_op_insert_redeem db_op_update_mint : Error
  -- a call of another service that fails
  change_negative integer_overflow address_length invalid_range : Error
  worker_failure signer_failure empty_outpoints outpoints_timeout : Error
  chain_id_unmatched : Error

pub data Outcome {ℓ} (A : Type ℓ) : Type ℓ where
  ok : A → Outcome A
  err : Error → Outcome A
  panic : Outcome A

abbrev pub is_ok {ℓ} : {A : Type ℓ} → Outcome A → Bool
is_ok (ok a) = true
is_ok _ = false

-- `*p` where `p` may be nil.
abbrev pub deref {ℓ} : {A : Type ℓ} → Option A → Outcome A
deref none = panic
deref (some a) = ok a

pub Outcome-of_ok {ℓ} : {A : Type ℓ} {a b : A} → ok a ≡ ok b → a ≡ b
Outcome-of_ok h = cc

infixl 5 ◌>>=◌
-- A call, and the rest of the function after `if err != nil { return nil, err }`.
unfoldable pub ◌>>=◌ : {A B : Type 0} → Outcome A → (A → Outcome B) → Outcome B
ok a >>= f = f a
err e >>= f = err e
panic >>= f = panic

pub >>=-eq-ok :
    {A B : Type 0} (m : Outcome A) (f : A → Outcome B) (b : B)
    → (m >>= f) ≡ ok b
    → (a : A) × (m ≡ ok a) × (f a ≡ ok b)
unfolding ◌>>=◌
>>=-eq-ok (ok a) f b h = (a, refl, h)
>>=-eq-ok (err e) f b h = absurd (cc)
>>=-eq-ok panic f b h = absurd (cc)
