-- ===== src/TxMgr/Accepted.antt =====
-- chaintxmgr/mgr.go: what is written of a mint that the chain's worker has taken.
use bridge_go_aptos.Prelude.{
  ℕ, ◌≡◌, ◌⊎◌, inl, inr, refl, ◌∙◌, true, false, Option, none, some, List, [], ◌∷◌, ◌++◌, arith,
}
use bridge_go_aptos.Go.{ok, err, panic, Error}
use bridge_go_aptos.BigInt.{ℤ}
use bridge_go_aptos.Agreement.{Hash, MintParameter, pending}
use bridge_go_aptos.Sql.{Disk, exec}
use bridge_go_aptos.State.Tables.{Mint, Tables}
use bridge_go_aptos.MgrDb.{Rows, MonitoredRow, encode_tx, find_tx, insert_monitored_tx}
use bridge_go_aptos.MgrDb.Rows.{insert_row_new}
use bridge_go_aptos.Program.{Prog, on, lift, pure, attempt, ◌>>=◌}
use bridge_go_aptos.TxMgr.{
  Call, is_minted, sign_async, do_mint, get_latest_ledger_number, Outside, World, ask, in_mgrdb,
  ledger_or_latest,
}
use bridge_go_aptos.TxMgr.Mints.{
  is_double_mint, prepare_mint, call_mint, submit_mint, process_mint, set_mint_to_be_monitored,
  mint_parameter, monitored_mint,
}
use bridge_go_aptos.TxMgr.Tracked.{is_tracked}

is_tracked-append_self :
    (h : Hash) (rows : Rows) (r : MonitoredRow)
    → r.ref_identifier ≡ h
    → is_tracked h (rows ++ r ∷ []) ≡ true
unfolding is_tracked
is_tracked-append_self h [] r e = ground arith
is_tracked-append_self h (s ∷ rows) r e = ground (arith, is_tracked-append_self h rows r e)

module _ (outside : Outside) (mint : Mint) (amount : ℤ) (tx_id : List ℕ) (d : Disk Tables)
    (rows : Rows) (calls : List Call) where
  abbrev parameter : MintParameter
  parameter = mint_parameter mint amount

  -- The calls made by the time the worker has answered DoMint.
  abbrev pub sent_calls : List Call
  sent_calls =
      do_mint parameter
      ∷ sign_async mint.btc_tx_id (outside.mint_msg_hash parameter)
      ∷ is_minted mint.btc_tx_id
      ∷ calls

  abbrev pub before : World
  before = record { statedb = d; mgrdb = record { table = rows; faults = [] }; calls = calls }

  -- The mint is not on the chain, the signer answers, and the worker sends the transaction `tx_id`
  -- and gives `sent` for its ledger number.
  pub record Accepts (sent : Option ℤ) : Type 0 where
    pub known_amount : mint.amount ≡ some amount
    pub not_minted : outside.minted calls mint.btc_tx_id ≡ ok false
    pub signed :
        outside.signed
          (is_minted mint.btc_tx_id ∷ calls)
          mint.btc_tx_id
          (outside.mint_msg_hash parameter)
        ≡ ok tt
    pub taken :
        outside.mint_sent
          (sign_async mint.btc_tx_id (outside.mint_msg_hash parameter)
            ∷ is_minted mint.btc_tx_id
            ∷ calls)
          parameter
        ≡ ok (tx_id, sent)

  -- The rest of the body: the ledger number, and the row.
  abbrev rest : Option ℤ → Prog World (Unit {0})
  rest sent = do
    ledger_number ← ledger_or_latest outside sent
    set_mint_to_be_monitored parameter tx_id ledger_number pending

  process_mint-rest :
      (sent : Option ℤ)
      → Accepts sent
      → process_mint outside mint before ≡ rest sent (record before { calls = sent_calls })
  unfolding process_mint is_double_mint submit_mint prepare_mint call_mint ask ◌>>=◌ lift pure
  process_mint-rest sent a = rw (a.not_minted, a.known_amount, a.signed, a.taken) refl

  monitored_lem :
      (z : ℤ) (cs : List Call)
      → find_tx tx_id rows ≡ none
      → set_mint_to_be_monitored parameter tx_id (some z) pending (record before { calls = cs }) ≡ (
        ok tt,
        record {
          statedb = d;
          mgrdb = record {
            table = rows ++ encode_tx (monitored_mint parameter tx_id z pending) ∷ [];
            faults = [];
          };
          calls = cs;
        },
      )
  unfolding set_mint_to_be_monitored insert_monitored_tx in_mgrdb on exec ◌>>=◌ lift encode_tx
  monitored_lem z cs new =
      rw (insert_row_new (encode_tx (monitored_mint parameter tx_id z pending)) rows new) refl

-- A mint that is not on the chain, that the signer answers, and that the worker sends under a
-- transaction identifier no row has, with a ledger number or with none while the latest number is
-- known: where no call of the database fails, the loop's body ends without an error, with one
-- pending row more for the mint, which is then tracked.
pub accepted_is_tracked :
    (outside : Outside) (mint : Mint) (amount z : ℤ) (tx_id : List ℕ) (sent : Option ℤ)
    (d : Disk Tables) (rows : Rows) (calls : List Call)
    → Accepts outside mint amount tx_id d rows calls sent
    → find_tx tx_id rows ≡ none
    → (sent ≡ some z)
      ⊎ ((sent ≡ none)
          × (outside.latest_ledger_number (sent_calls outside mint amount tx_id d rows calls)
              ≡ ok (some z)))
    → (calls' : List Call) × (process_mint outside mint
          (before outside mint amount tx_id d rows calls)
        ≡ (
          ok tt,
          record {
            statedb = d;
            mgrdb = record {
              table =
                  rows
                  ++ encode_tx (monitored_mint (mint_parameter mint amount) tx_id z pending) ∷ [];
              faults = [];
            };
            calls = calls';
          },
        ))
      × (is_tracked mint.btc_tx_id
            (rows ++ encode_tx (monitored_mint (mint_parameter mint amount) tx_id z pending) ∷ [])
          ≡ true)
unfolding ledger_or_latest ask attempt pure ◌>>=◌ encode_tx
accepted_is_tracked outside mint amount z tx_id sent d rows calls a new known =
    let (calls', e) = ending known in
    (
      calls',
      process_mint-rest outside mint amount tx_id d rows calls sent a ∙ e,
      is_tracked-append_self mint.btc_tx_id rows
          (encode_tx (monitored_mint (mint_parameter mint amount) tx_id z pending)) refl,
    )
  where
    cs : List Call
    cs = sent_calls outside mint amount tx_id d rows calls

    after : List Call → World
    after calls' = record {
      statedb = d;
      mgrdb = record {
        table =
            rows ++ encode_tx (monitored_mint (mint_parameter mint amount) tx_id z pending) ∷ [];
        faults = [];
      };
      calls = calls';
    }

    ending :
        (sent ≡ some z) ⊎ ((sent ≡ none) × (outside.latest_ledger_number cs ≡ ok (some z)))
        → (calls' : List Call) × (rest outside mint amount tx_id d rows calls sent
              (record (before outside mint amount tx_id d rows calls) { calls = cs })
            ≡ (ok tt, after calls'))
    ending (inl e) = (cs, rw (e) (monitored_lem outside mint amount tx_id d rows calls z cs new))
    ending (inr (e, f)) = (
      get_latest_ledger_number ∷ cs,
      rw (e, f)
          (monitored_lem outside mint amount tx_id d rows calls z (get_latest_ledger_number ∷ cs)
            new),
    )

-- A mint that is not on the chain, that the signer answers, and that the worker sends without a
-- ledger number, while the latest number is nil or cannot be had: where no call of the database
-- fails, the loop's body panics after the mint was sent, and no row is written for it.
pub accepted_is_lost :
    (outside : Outside) (mint : Mint) (amount : ℤ) (tx_id : List ℕ) (d : Disk Tables) (rows : Rows)
    (calls : List Call)
    → Accepts outside mint amount tx_id d rows calls none
    → (outside.latest_ledger_number (sent_calls outside mint amount tx_id d rows calls) ≡ ok none)
      ⊎ ((e : Error) × (outside.latest_ledger_number
              (sent_calls outside mint amount tx_id d rows calls)
            ≡ err e))
    → process_mint outside mint (before outside mint amount tx_id d rows calls) ≡ (
      panic,
      record {
        statedb = d;
        mgrdb = record { table = rows; faults = [] };
        calls = get_latest_ledger_number ∷ sent_calls outside mint amount tx_id d rows calls;
      },
    )
unfolding ledger_or_latest ask attempt set_mint_to_be_monitored pure lift ◌>>=◌
accepted_is_lost outside mint amount tx_id d rows calls a (inl e) =
    process_mint-rest outside mint amount tx_id d rows calls none a ∙ rw (e) refl
accepted_is_lost outside mint amount tx_id d rows calls a (inr (x, e)) =
    process_mint-rest outside mint amount tx_id d rows calls none a ∙ rw (e) refl
