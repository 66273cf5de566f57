-- ===== src/AptosEvents/Prepared.antt =====
-- aptosman/aptosman.go: what the worker makes of the preparations that the contract announces.
use bridge_go_aptos.Prelude.{
  ℕ, ◌≤◌, ◌<◌, ◌^◌, ◌≡◌, refl, ap, ap₂, true, false, some, List, [], ◌∷◌, ◌++◌, map, All, String,
  arith, str_eq, if◌then◌else◌,
}
use bridge_go_aptos.Go.{ok, ◌>>=◌}
use bridge_go_aptos.AptosEvents.{
  text_item, text, array, Fields, NodeEvent, Outside, RedeemPrepared, outpoint_txids,
  outpoint_indices, read_prepared, read_all_prepared, get_events, get_redeem_prepared_events,
  object, resource_type, events_url, request_events, absent, page_of, handle_events,
}
use bridge_go_aptos.BigInt.{ℤ, pos, cmp_eq}

-- What the contract announces (RedeemPrepareEvent of its Move code), and the version at which it
-- does so. `request_tx_hash` is that of the redeem.
pub record Announcement : Type 0 where
  pub version : String
  pub request_tx_hash : String
  pub requester : String
  pub receiver : String
  pub amount : ℕ
  pub outpoint_tx_ids : List String
  pub outpoint_idxs : List ℕ

-- The amount is a u64, and the indices are those of a Bitcoin outpoint in the bridge.
abbrev pub Fits : Announcement → Type 0
Fits a = (a.amount < 2 ^ 64) × All (λ n. n < 2 ^ 16) a.outpoint_idxs

-- The node writes a u64 as decimal text.
module _ (decimal : ℕ → String) where
  abbrev pub node_fields : Announcement → Fields
  node_fields a name =
      if str_eq name "RequestTxhash"
      then text a.request_tx_hash
      else if str_eq name "Requester"
      then text a.requester
      else if str_eq name "Receiver"
      then text a.receiver
      else if str_eq name "Amount"
      then text (decimal a.amount)
      else if str_eq name "OutpointTxIds"
      then array (map text_item a.outpoint_tx_ids)
      else if str_eq name "OutpointIdxs"
      then array (map (λ n. text_item (decimal n)) a.outpoint_idxs)
      else absent

  abbrev pub node_event : Announcement → NodeEvent
  node_event a = record { version = text a.version; data_fields = some (node_fields a) }

-- The two hashes are exchanged.
abbrev pub exchanged : Announcement → RedeemPrepared
exchanged a = record {
  request_tx_hash = a.version;
  prepare_tx_hash = a.request_tx_hash;
  requester = a.requester;
  receiver = a.receiver;
  amount = a.amount;
  outpoint_tx_ids = a.outpoint_tx_ids;
  outpoint_idxs = a.outpoint_idxs;
}

outpoint_txids_lem : (txids : List String) → outpoint_txids (map text_item txids) ≡ txids
outpoint_txids_lem [] = refl
outpoint_txids_lem (txid ∷ txids) = ap (λ xs. txid ∷ xs) (outpoint_txids_lem txids)

module _ (outside : Outside) (decimal : ℕ → String)
    (parses : (bits n : ℕ)
      → bits ≤ 64
      → n < 2 ^ bits
      → outside.parse_uint bits (decimal n) ≡ (n, true)) where
  outpoint_indices_lem :
      (idxs : List ℕ)
      → All (λ n. n < 2 ^ 16) idxs
      → outpoint_indices outside (map (λ n. text_item (decimal n)) idxs) ≡ idxs
  outpoint_indices_lem [] h = refl
  outpoint_indices_lem (n ∷ idxs) h =
      rw (parses 16 n (omega arith) h.0, outpoint_indices_lem idxs h.1) refl

  read_prepared_lem :
      (a : Announcement)
      → Fits a
      → read_prepared outside (text a.version) (some (node_fields decimal a)) ≡ exchanged a ∷ []
  read_prepared_lem a h =
      rw
        (
          parses 64 a.amount (omega arith) h.0,
          outpoint_txids_lem a.outpoint_tx_ids,
          outpoint_indices_lem a.outpoint_idxs h.1,
        )
        refl

  read_all_prepared_lem :
      (announced : List Announcement)
      → All Fits announced
      → read_all_prepared outside (map (node_event decimal) announced) ≡ map exchanged announced
  read_all_prepared_lem [] h = refl
  read_all_prepared_lem (a ∷ announced) h =
      ap₂ (λ xs ys. xs ++ ys) (read_prepared_lem a h.0) (read_all_prepared_lem announced h.1)

-- The node has these events of a handle: the resource of the module has the handle, with a count
-- that is not zero and an address, and the GET of the handle's events is answered with them.
pub record Serves (outside : Outside) (events_field : String) (events : List NodeEvent)
    : Type 0 where
  pub address : String
  pub module_address : outside.parse_string_relaxed outside.module_address ≡ ok address
  pub resource : Fields
  pub has_resource : outside.account_resource address (resource_type outside address) ≡ ok resource
  pub fields : Fields
  pub has_data : resource "data" ≡ object fields
  pub handle_fields : Fields
  pub has_handle : fields events_field ≡ object handle_fields
  pub counter_text : String
  pub has_counter : handle_fields "counter" ≡ text counter_text
  pub counter : ℤ
  pub is_counter : outside.set_string counter_text ≡ some counter
  pub not_zero : cmp_eq counter (pos 0) ≡ false
  pub guid : Fields
  pub has_guid : handle_fields "guid" ≡ object guid
  pub id : Fields
  pub has_guid_id : guid "id" ≡ object id
  pub account_text : String
  pub has_account : id "addr" ≡ text account_text
  pub account : String
  pub is_account : outside.parse_string_relaxed account_text ≡ ok account
  pub body : String
  pub answered :
      outside.http_get (events_url outside account (resource_type outside address) events_field)
      ≡ ok (200, body)
  pub decoded : outside.unmarshal body ≡ ok events

get_events-Serves :
    (outside : Outside) (events_field : String) (events : List NodeEvent) (limit start : ℕ)
    → Serves outside events_field events
    → get_events outside events_field limit start ≡ ok events
unfolding get_events handle_events page_of request_events ◌>>=◌
get_events-Serves outside events_field events limit start s =
    rw
      (
        s.module_address, s.has_resource, s.has_data, s.has_handle, s.has_counter, s.is_counter,
        s.not_zero, s.has_guid, s.has_guid_id, s.has_account, s.is_account, s.answered, s.decoded,
      )
      refl

-- Where ParseUint reads back a number of at most 64 bits from its decimal text, the amounts are below
-- 2^64 and the indices below 2^16, and the node has the events that the contract announced, and at least one by its count: whatever
-- versions are asked, the worker reads each of the preparations, in order, with its requester,
-- receiver, amount and outpoints as they were announced, but with the version of the preparation as
-- the hash of the request, and the hash of the request as that of the preparation.
pub prepared_exchanged :
    (outside : Outside) (decimal : ℕ → String) (announced : List Announcement) (first last : ℕ)
    → ((bits n : ℕ) → bits ≤ 64 → n < 2 ^ bits → outside.parse_uint bits (decimal n) ≡ (n, true))
    → All Fits announced
    → Serves outside "redeem_prepare_events" (map (node_event decimal) announced)
    → get_redeem_prepared_events outside first last ≡ ok (map exchanged announced)
unfolding get_redeem_prepared_events ◌>>=◌
prepared_exchanged outside decimal announced first last parses fits serves =
    rw
      (
        get_events-Serves outside _ _ first last serves,
        read_all_prepared_lem outside decimal parses announced fits,
      )
      refl
