-- ===== src/AptosEvents/Tests.antt =====
-- Runs of the worker of the Aptos chain. Numbers are written in base 1 here: the theorem takes any
-- writing that is read back.
use Prim.Native.Char.{nul}
use bridge_go_aptos.Prelude.{
  ℕ, zero, suc, ◌≡◌, refl, ap, true, some, [], ◌∷◌, map, String, arith, str_eq, if◌then◌else◌,
}
use bridge_go_aptos.Go.{ok}
use bridge_go_aptos.BigInt.{pos, cmp_eq}
use bridge_go_aptos.AptosEvents.{
  Fields, Value, text, object, absent, Outside, get_redeem_prepared_events,
}
use bridge_go_aptos.AptosEvents.Prepared.{
  Serves, Announcement, node_event, exchanged, prepared_exchanged,
}

abbrev strokes : ℕ → String
strokes zero = String.[]
strokes (suc n) = String.◌∷◌ nul (strokes n)

abbrev strokes_of : String → ℕ
strokes_of String.[] = 0
strokes_of (String.◌∷◌ c s) = suc (strokes_of s)

strokes_of-strokes : (n : ℕ) → strokes_of (strokes n) ≡ n
strokes_of-strokes zero = refl
strokes_of-strokes (suc n) = ap suc (strokes_of-strokes n)

abbrev announcement : Announcement
announcement = record {
  version = "12";
  request_tx_hash = "ab";
  requester = "0x1";
  receiver = "bc1";
  amount = 3;
  outpoint_tx_ids = "cd" ∷ [];
  outpoint_idxs = 2 ∷ [];
}

-- An object of one field.
abbrev only : String → Value → Fields
only key value name = if str_eq name key then value else absent

abbrev guid : Fields
guid = only "id" (object (only "addr" (text "0x9")))

abbrev handle_fields : Fields
handle_fields name = if str_eq name "counter" then text "1" else only "guid" (object guid) name

abbrev fields : Fields
fields = only "redeem_prepare_events" (object handle_fields)

abbrev node : Outside
node = record {
  module_address = "0x9";
  network = "devnet";
  parse_string_relaxed = λ s. ok s;
  account_resource = λ account resource. ok (only "data" (object fields));
  http_get = λ url. ok (200, "[]");
  set_string = λ s. some (pos 1);
  unmarshal = λ body. ok (map (node_event strokes) (announcement ∷ []));
  parse_uint = λ bits s. (strokes_of s, true);
  bytes_of = λ s. [];
  trim_prefix = λ prefix s. s;
  hex_to_bytes_fixed = λ s. 0;
  hex_to_hash = λ s. 0;
}

node-Serves : Serves node "redeem_prepare_events" (map (node_event strokes) (announcement ∷ []))
unfolding cmp_eq
node-Serves = record {
  address = "0x9";
  module_address = refl;
  resource = only "data" (object fields);
  has_resource = refl;
  fields = fields;
  has_data = refl;
  handle_fields = handle_fields;
  has_handle = refl;
  counter_text = "1";
  has_counter = refl;
  counter = pos 1;
  is_counter = refl;
  not_zero = refl;
  guid = guid;
  has_guid = refl;
  id = only "addr" (text "0x9");
  has_guid_id = refl;
  account_text = "0x9";
  has_account = refl;
  account = "0x9";
  is_account = refl;
  body = "[]";
  answered = refl;
  decoded = refl;
}

prepared_exchanged_example : get_redeem_prepared_events node 5 9 ≡ ok (exchanged announcement ∷ [])
prepared_exchanged_example =
    prepared_exchanged node strokes (announcement ∷ []) 5 9
      (λ bits n k h. ap (λ m. (m, true)) (strokes_of-strokes n))
      ((omega arith, (omega arith, tt)), tt) node-Serves
