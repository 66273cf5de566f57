-- ===== src/AptosEvents.antt =====
-- aptosman/aptosman.go and aptosman/sync_worker.go: how the worker of the Aptos chain reads the events
-- that the node returns as JSON, and hands them to the synchronizer.
pub mod Prepared
pub mod Tests
use Prim.Native.String.{◌++◌ as ◌⧺◌}
use bridge_go_aptos.Prelude.{
  ℕ, Bool, true, false, Option, none, some, List, [], ◌∷◌, ◌++◌, map, String, ◌==◌, str_eq,
  if◌then◌else◌,
}
use bridge_go_aptos.Go.{Outcome, ok, err, panic, worker_failure, ◌>>=◌}
use bridge_go_aptos.BigInt.{ℤ, pos, cmp_eq, to_uint64}
use bridge_go_aptos.Agreement.{Hash, MintedEvent, RedeemRequestedEvent, RedeemPreparedEvent}
use bridge_go_aptos.ChainSync.{Events}

-- An element of a JSON array, and the value of a field of an event. A number is a float64, here by
-- the uint16 that Go makes of it.
pub data Item : Type 0 where
  text_item : String → Item
  number_item : ℕ → Item
  other_item : Item

pub data Value : Type 0 where
  text : String → Value
  array : List Item → Value
  object : (String → Value) → Value
  other absent : Value

-- A map[string]interface{}: `absent` where the key is missing.
abbrev pub Fields : Type 0
Fields = String → Value

-- An event: its "version" and its "data", where that is an object.
pub record NodeEvent : Type 0 where
  pub version : Value
  pub data_fields : Option Fields

-- The account of the module, and the settings; ParseStringRelaxed of an address, with its text; the
-- node's answers on a resource of an account, and on a GET, with its status and body; big.Int's
-- SetString in base 10; json.Unmarshal of a list of events; strconv.ParseUint in base 10, whose number
-- is used even where it also gives an error; Go's bytes of a string; and go-ethereum's functions on
-- hexadecimal text.
pub record Outside : Type 0 where
  pub module_address : String
  pub network : String
  pub parse_string_relaxed : String → Outcome String
  pub account_resource : String → String → Outcome Fields
  pub http_get : String → Outcome (ℕ × String)
  pub set_string : String → Option ℤ
  pub unmarshal : String → Outcome (List NodeEvent)
  pub parse_uint : ℕ → String → ℕ × Bool
  pub bytes_of : String → List ℕ
  -- strings.TrimPrefix, the prefix first
  pub trim_prefix : String → String → String
  pub hex_to_bytes_fixed : String → Hash
  pub hex_to_hash : String → Hash

pub record Minted : Type 0 where
  pub mint_tx_hash : String
  pub btc_tx_id : String
  pub receiver : String
  pub amount : ℕ

pub record RedeemRequested : Type 0 where
  pub request_tx_hash : String
  pub requester : String
  pub receiver : String
  pub amount : ℕ

pub record RedeemPrepared : Type 0 where
  pub request_tx_hash : String
  pub prepare_tx_hash : String
  pub requester : String
  pub receiver : String
  pub amount : ℕ
  pub outpoint_tx_ids : List String
  pub outpoint_idxs : List ℕ

-- v, ok := x.(string), and x.(map[string]interface{})
abbrev pub text_of : Value → Option String
text_of (text s) = some s
text_of _ = none

abbrev pub object_of : Value → Option Fields
object_of (object fields) = some fields
object_of _ = none

-- if !ok { return nil, fmt.Errorf(...) }
abbrev pub need : {A : Type 0} → Option A → Outcome A
need none = err worker_failure
need (some a) = ok a

-- v.(string), which panics at anything else.
abbrev pub must_text : Value → Outcome String
must_text (text s) = ok s
must_text _ = panic

-- s, ok := v.(string); if ok { field = s }
abbrev pub text_or_empty : Value → String
text_or_empty (text s) = s
text_or_empty _ = ""

-- for _, x := range xs { y := f(x); ys = append(ys, y) }, which a panic of `f` ends.
unfoldable pub collect : {A B : Type 0} → (A → Outcome B) → List A → Outcome (List B)
collect f [] = ok []
collect f (x ∷ xs) = do y ← f x; ys ← collect f xs; ok (y ∷ ys)

abbrev pub outpoint_txids : List Item → List String
outpoint_txids [] = []
outpoint_txids (text_item s ∷ items) = s ∷ outpoint_txids items
outpoint_txids (number_item n ∷ items) = outpoint_txids items
outpoint_txids (other_item ∷ items) = outpoint_txids items

abbrev pub txids_of : Value → List String
txids_of (array items) = outpoint_txids items
txids_of _ = []

abbrev pub keep_parsed : ℕ × Bool → List ℕ → List ℕ
keep_parsed (n, true) ns = n ∷ ns
keep_parsed (n, false) ns = ns

unfoldable pub concat : List String → String
concat [] = ""
concat (s ∷ ss) = s ⧺ concat ss

module _ (outside : Outside) where
  abbrev pub amount_of : Value → ℕ
  amount_of (text s) = (outside.parse_uint 64 s).0
  amount_of _ = 0

  abbrev pub outpoint_indices : List Item → List ℕ
  outpoint_indices [] = []
  outpoint_indices (text_item s ∷ items) =
      keep_parsed (outside.parse_uint 16 s) (outpoint_indices items)
  outpoint_indices (number_item n ∷ items) = n ∷ outpoint_indices items
  outpoint_indices (other_item ∷ items) = outpoint_indices items

  abbrev pub idxs_of : Value → List ℕ
  idxs_of (array items) = outpoint_indices items
  idxs_of _ = []

  unfoldable pub resource_type : String → String
  resource_type address = concat (address ∷ "::btc_bridgev3::BridgeEvents" ∷ [])

  -- GetNetworkConfig, its first result
  unfoldable pub base_url : String → String
  base_url network =
      if str_eq network "mainnet"
      then "https://fullnode.mainnet.aptoslabs.com/v1"
      else if str_eq network "testnet"
      then "https://fullnode.testnet.aptoslabs.com/v1"
      else "https://fullnode.devnet.aptoslabs.com/v1"

  unfoldable pub events_url : String → String → String → String
  events_url account resource events_field = concat (
      base_url outside.network
      ∷ "/accounts/"
      ∷ account
      ∷ "/events/"
      ∷ resource
      ∷ "/"
      ∷ events_field
      ∷ [])

  -- The request, which has neither the limit nor the start.
  unfoldable pub request_events : String → String → String → Outcome (List NodeEvent)
  request_events account resource events_field = do
    (status, body) ← outside.http_get (events_url account resource events_field)
    if status == 200 then outside.unmarshal body else err worker_failure

  unfoldable pub page_of : String → String → Fields → Outcome (List NodeEvent)
  page_of resource events_field handle = do
    guid ← need (object_of (handle "guid"))
    id ← need (object_of (guid "id"))
    account_text ← need (text_of (id "addr"))
    account ← outside.parse_string_relaxed account_text
    request_events account resource events_field

  -- The rest of GetEvents, from the handle of the events.
  unfoldable pub handle_events : String → String → Fields → Outcome (List NodeEvent)
  handle_events resource events_field handle = do
    counter_text ← need (text_of (handle "counter"))
    counter ← need (outside.set_string counter_text)
    if cmp_eq counter (pos 0) then ok [] else page_of resource events_field handle

  unfoldable pub get_events : String → ℕ → ℕ → Outcome (List NodeEvent)
  get_events events_field limit start = do
    address ← outside.parse_string_relaxed outside.module_address
    resource ← outside.account_resource address (resource_type address)
    fields ← need (object_of (resource "data"))
    handle ← need (object_of (fields events_field))
    handle_events (resource_type address) events_field handle

  unfoldable pub read_mint : Value → Option Fields → Outcome Minted
  read_mint version none =
      ok (record { mint_tx_hash = ""; btc_tx_id = ""; receiver = ""; amount = 0 })
  read_mint version (some fields) = do
    mint_tx_hash ← must_text version
    btc_tx_id ← must_text (fields "btc_tx_id")
    receiver ← must_text (fields "receiver")
    ok (record {
      mint_tx_hash = mint_tx_hash;
      btc_tx_id = btc_tx_id;
      receiver = receiver;
      amount = amount_of (fields "amount");
    })

  unfoldable pub get_mint_events : ℕ → ℕ → Outcome (List Minted)
  get_mint_events start_version end_version = do
    events ← get_events "mint_events" start_version end_version
    collect (λ event. read_mint event.version event.data_fields) events

  unfoldable pub read_requested : Value → Option Fields → Outcome RedeemRequested
  read_requested version none =
      ok (record { request_tx_hash = ""; requester = ""; receiver = ""; amount = 0 })
  read_requested version (some fields) = do
    request_tx_hash ← must_text version
    requester ← must_text (fields "sender")
    receiver ← must_text (fields "receiver")
    ok (record {
      request_tx_hash = request_tx_hash;
      requester = requester;
      receiver = receiver;
      amount = amount_of (fields "amount");
    })

  unfoldable pub get_redeem_requested_events : ℕ → ℕ → Outcome (List RedeemRequested)
  get_redeem_requested_events start_version end_version = do
    events ← get_events "redeem_request_events" start_version end_version
    collect (λ event. read_requested event.version event.data_fields) events

  -- An event whose data is no object is left out.
  abbrev pub read_prepared : Value → Option Fields → List RedeemPrepared
  read_prepared version none = []
  read_prepared version (some fields) =
      record {
        request_tx_hash = text_or_empty version;
        prepare_tx_hash = text_or_empty (fields "RequestTxhash");
        requester = text_or_empty (fields "Requester");
        receiver = text_or_empty (fields "Receiver");
        amount = amount_of (fields "Amount");
        outpoint_tx_ids = txids_of (fields "OutpointTxIds");
        outpoint_idxs = idxs_of (fields "OutpointIdxs");
      }
      ∷ []

  abbrev pub read_all_prepared : List NodeEvent → List RedeemPrepared
  read_all_prepared [] = []
  read_all_prepared (event ∷ events) =
      read_prepared event.version event.data_fields ++ read_all_prepared events

  unfoldable pub get_redeem_prepared_events : ℕ → ℕ → Outcome (List RedeemPrepared)
  get_redeem_prepared_events start_version end_version = do
    events ← get_events "redeem_prepare_events" start_version end_version
    ok (read_all_prepared events)

  -- common.HexStrToBytes32
  unfoldable pub hex_str_to_bytes32 : String → Hash
  hex_str_to_bytes32 hex_str =
      outside.hex_to_bytes_fixed (outside.trim_prefix "0X" (outside.trim_prefix "0x" hex_str))

  abbrev pub to_minted_event : Minted → MintedEvent
  to_minted_event ev = record {
    mint_tx_hash = hex_str_to_bytes32 ev.mint_tx_hash;
    btc_tx_id = hex_str_to_bytes32 ev.btc_tx_id;
    amount = some (pos ev.amount);
    receiver = outside.bytes_of ev.receiver;
  }

  abbrev pub to_requested_event : RedeemRequested → RedeemRequestedEvent
  to_requested_event ev = record {
    request_tx_hash = hex_str_to_bytes32 ev.request_tx_hash;
    requester = outside.bytes_of ev.requester;
    amount = some (pos ev.amount);
    receiver = ev.receiver;
    is_valid_receiver = true;
  }

  abbrev pub to_prepared_event : RedeemPrepared → RedeemPreparedEvent
  to_prepared_event ev = record {
    prepare_tx_hash = hex_str_to_bytes32 ev.prepare_tx_hash;
    request_tx_hash = hex_str_to_bytes32 ev.request_tx_hash;
    requester = outside.bytes_of ev.requester;
    receiver = ev.receiver;
    amount = some (pos ev.amount);
    outpoint_tx_ids = map outside.hex_to_hash ev.outpoint_tx_ids;
    outpoint_idxs = ev.outpoint_idxs;
  }

  -- GetTimeOrderedEvents, and GetModuleEvents, which it calls.
  unfoldable pub get_time_ordered_events : ℤ → ℤ → Outcome Events
  get_time_ordered_events old_num new_num =
      let start_version = to_uint64 old_num in
      let end_version = to_uint64 new_num in
      do
        mint_events ← get_mint_events start_version end_version
        requested_events ← get_redeem_requested_events start_version end_version
        prepared_events ← get_redeem_prepared_events start_version end_version
        ok (record {
          minted = map to_minted_event mint_events;
          requested = map to_requested_event requested_events;
          prepared = map to_prepared_event prepared_events;
        })
