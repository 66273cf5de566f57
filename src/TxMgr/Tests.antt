-- ===== src/TxMgr/Tests.antt =====
-- Runs of the manager of the chain on small tables.
use bridge_go_aptos.Prelude.{
  ℕ, ◌≡◌, refl, inl, true, false, Option, none, some, List, [], ◌∷◌, ◌++◌, All, map, arith,
}
use bridge_go_aptos.Go.{ok, panic}
use bridge_go_aptos.BigInt.{ℤ, pos}
use bridge_go_aptos.Agreement.{MonitoredTxStatus, pending, success, timeout}
use bridge_go_aptos.Sql.{Disk}
use bridge_go_aptos.State.Tables.{Tables, Mint, MintRow}
use bridge_go_aptos.State.Redeem.{same_bytes}
use bridge_go_aptos.MgrDb.{MonitoredTx, MonitoredRow, Rows, find_tx, encode_tx, decode_tx}
use bridge_go_aptos.MgrDb.Numbers.{decode-encode_tx}
use bridge_go_aptos.TxMgr.{Call, Outside, World, get_latest_ledger_number}
use bridge_go_aptos.TxMgr.Mints.{process_mint, procedure_mint, monitored_mint, mint_parameter}
use bridge_go_aptos.TxMgr.Marking.{is_expired, procedure_mark_tx_status}
use bridge_go_aptos.TxMgr.Tracked.{is_tracked, submissions_of}
use bridge_go_aptos.TxMgr.Run.{stay, step, minting, marking}
use bridge_go_aptos.TxMgr.Once.{never_submitted_again}
use bridge_go_aptos.TxMgr.Settled.{settled_is_final}
use bridge_go_aptos.TxMgr.Expected.{expected, answered, is_included}
use bridge_go_aptos.MgrDb.Rows.{IsKeyed}
use bridge_go_aptos.MgrDb.{decode_number, encode_number}
use bridge_go_aptos.BigInt.{cmp_le, ◌+ℤ◌, to_int64}
use bridge_go_aptos.TxMgr.Marked.{Still, procedure_mark_tx_status-expected}
use bridge_go_aptos.TxMgr.Timeouts.{SettledBy, none_waits_past_timeout}
use bridge_go_aptos.TxMgr.Accepted.{sent_calls, accepted_is_tracked, accepted_is_lost}

-- The transaction without bytes is included at 9, another is pending.
abbrev chain : List ℕ → MonitoredTxStatus × Option ℤ
chain [] = (success, some (pos 9))
chain (b ∷ bs) = (pending, none)

abbrev sends : Option ℤ → Outside
sends sent = record {
  latest_ledger_number = λ calls. ok (some (pos 200));
  minted = λ calls h. ok false;
  mint_sent = λ calls mp. ok (5 ∷ [], sent);
  prepared = λ calls h. ok false;
  prepare_sent = λ calls pp. ok (6 ∷ [], sent);
  tx_status = λ calls id. ok (chain id);
  signed = λ calls h m. ok tt;
  outpoints = λ calls h a. ok none;
  order_mints = λ rows. rows;
  mint_msg_hash = λ mp. 0;
  prepare_msg_hash = λ pp. 0;
}

abbrev plain : Outside
plain = sends (some (pos 190))

-- The latest number is not known either.
abbrev blind : Outside
blind = record (sends none) { latest_ledger_number = λ calls. ok none }

abbrev row : List ℕ → MonitoredTxStatus → MonitoredRow
row id status = record {
  tx_identifier = id;
  ref_identifier = 3;
  sent = 50;
  found = 0;
  tx_status = status;
}

abbrev rows : Rows
rows = row [] pending ∷ row (8 ∷ []) pending ∷ row (9 ∷ []) success ∷ []

abbrev waiting : MintRow
waiting = record { btc_tx_id = 3; mint_tx_hash = none; receiver = 1 ∷ []; amount = 10 }

abbrev state : Disk Tables
state = record {
  table = record { redeem = []; mint = waiting ∷ record waiting { btc_tx_id = 4 } ∷ [] };
  faults = [];
}

abbrev start : World
start = record { statedb = state; mgrdb = record { table = rows; faults = [] }; calls = [] }

abbrev minted : World
minted = (procedure_mint plain start).1

abbrev ended : World
ended = (procedure_mark_tx_status plain (pos 128) minted).1

never_submitted_again_example :
    (submissions_of 3 ended.calls ≡ submissions_of 3 start.calls)
    × (is_tracked 3 ended.mgrdb.table ≡ true)
never_submitted_again_example =
    never_submitted_again plain (pos 128) 3 start ended (step (step stay minting) marking) tt
      (unfold is_tracked in refl)

rows-IsKeyed : IsKeyed rows
unfolding same_bytes
rows-IsKeyed = ((refl, (refl, tt)), ((refl, tt), (tt, tt)))

settled_is_final_example :
    IsKeyed ended.mgrdb.table × (find_tx (9 ∷ []) ended.mgrdb.table ≡ some (row (9 ∷ []) success))
settled_is_final_example =
    settled_is_final plain (pos 128) (9 ∷ []) (row (9 ∷ []) success) start ended
      (step (step stay minting) marking) rows-IsKeyed (unfold find_tx in unfold same_bytes in refl)
      refl

included_known : (id : List ℕ) → is_included (chain id).0 ≡ true → (z : ℤ) × ((chain id).1 ≡ some z)
included_known [] e = (pos 9, refl)
included_known (b ∷ bs) e = absurd (cc)

steady_chain : Still plain chain (some (pos 200))
steady_chain = record {
  tx_status = λ calls id. refl;
  latest_number = λ calls. refl;
  included = included_known;
}

procedure_mark_tx_status-expected_example :
    (calls' : List Call) × (procedure_mark_tx_status plain (pos 128) start ≡ (
      ok tt,
      record {
        statedb = state;
        mgrdb = record {
          table = map (expected chain (some (pos 200)) (pos 128)) rows;
          faults = [];
        };
        calls = calls';
      },
    ))
procedure_mark_tx_status-expected_example =
    procedure_mark_tx_status-expected plain chain (some (pos 200)) (pos 128) steady_chain state rows
      [] rows-IsKeyed

-- The three rows after it: found, timed out, and settled before.
marked_rows :
    map (expected chain (some (pos 200)) (pos 128)) rows
    ≡ record (row [] success) { found = 9 } ∷ row (8 ∷ []) timeout ∷ row (9 ∷ []) success ∷ []
unfolding expected answered is_expired cmp_le ◌+ℤ◌ decode_number encode_number to_int64
marked_rows = refl

none_waits_past_timeout_example :
    All (SettledBy 128 200) (procedure_mark_tx_status plain (pos 128) start).1.mgrdb.table
none_waits_past_timeout_example =
    none_waits_past_timeout plain chain 128 200 state rows [] steady_chain rows-IsKeyed

abbrev tracked_tx : MonitoredTx
tracked_tx = record {
  tx_identifier = 7 ∷ [];
  ref_identifier = 3;
  sent_blockchain_ledger_number = some (pos 50);
  found_blockchain_ledger_number = none;
  tx_status = pending;
}

decode-encode_tx_example : decode_tx (encode_tx tracked_tx) ≡ tracked_tx
decode-encode_tx_example = decode-encode_tx tracked_tx (omega arith) tt

abbrev mint : Mint
mint = record { btc_tx_id = 4; mint_tx_hash = 0; receiver = 1 ∷ []; amount = some (pos 10) }

accepted_is_tracked_example :
    (calls' : List Call) × (process_mint plain mint start ≡ (
      ok tt,
      record {
        statedb = state;
        mgrdb = record {
          table =
              rows
              ++ encode_tx
                  (monitored_mint (mint_parameter mint (pos 10)) (5 ∷ []) (pos 190) pending)
                ∷ [];
          faults = [];
        };
        calls = calls';
      },
    ))
    × (is_tracked 4 (
          rows
          ++ encode_tx (monitored_mint (mint_parameter mint (pos 10)) (5 ∷ []) (pos 190) pending)
            ∷ [])
        ≡ true)
accepted_is_tracked_example =
    accepted_is_tracked plain mint (pos 10) (pos 190) (5 ∷ []) (some (pos 190)) state rows []
      (record { known_amount = refl; not_minted = refl; signed = refl; taken = refl })
      (unfold find_tx in unfold same_bytes in refl) (inl refl)

accepted_is_lost_example : process_mint blind mint start ≡ (
  panic,
  record {
    statedb = state;
    mgrdb = record { table = rows; faults = [] };
    calls = get_latest_ledger_number ∷ sent_calls blind mint (pos 10) (5 ∷ []) state rows [];
  },
)
accepted_is_lost_example =
    accepted_is_lost blind mint (pos 10) (5 ∷ []) state rows []
      (record { known_amount = refl; not_minted = refl; signed = refl; taken = refl }) (inl refl)
