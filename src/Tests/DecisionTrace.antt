-- ===== src/Tests/DecisionTrace.antt =====
-- The serialization of a small decision trace, whose fields are not in the order of their keys.
use inspect_element.Prelude.{ℕ, zero, suc, ◌≡◌, refl, [], ◌∷◌, ◌++◌}
use inspect_element.Prelude.Texts.{
  Text, codes, text_eq, text_ne, to_lower, to_decimal, is_hex, is_hex_data, is_decimal,
}
use inspect_element.Prelude.Integers.{pos, int_text}
use inspect_element.Prelude.Results.{ok, err, internal}
use inspect_element.Canonical.Value.{
  Json, integer, fraction, string, array, object, no_items, item, no_entries, entry, text_less,
  quote, join,
}
use inspect_element.Prelude.Tables.{find, order_by, insert_by}
use inspect_element.Canonical.Encode.{object_text, pair_text, array_text}
use inspect_element.Canonical.Stringify.{stringify}
use inspect_element.Canonical.Laws.{IsIntegral}
use inspect_element.Canonical.Order.{objects, swap}
use inspect_element.Store.Provider.{sqlite}
use inspect_element.Store.Traces.{get_trace_by_digest}
use inspect_element.Api.Traces.{TraceBody, TraceAckContext, Signed, Uploaded, upload, pin_and_sign}
use inspect_element.Trace.Client.{delivered, upload_trace}
use inspect_element.Trace.Upload.{upload_trace-upload}
use inspect_element.Trace.Validation.{
  validate_decision_trace, valid_trace, has_exact_keys, same_texts, is_hex_value, is_integer,
  is_number, is_string, is_record, each_item, is_role, valid_session, valid_prompt, valid_tool_call,
  valid_observation, valid_action,
}
use inspect_element.Trace.Serialize.{normalize_trace, serialize_canonical}
use inspect_element.Trace.Numbers.{IsWhole}
use inspect_element.Trace.Laws.{serialize_canonical-stringify}

abbrev pub zeros : ℕ → Text
zeros zero = []
zeros (suc n) = b'0' ∷ zeros n

abbrev hex_value : ℕ → Json
hex_value n = string (b'0' ∷ b'x' ∷ zeros n)

abbrev one_prompt : Json
one_prompt = object (
    entry (codes "timestamp") (integer (pos 7)) (
      entry (codes "role") (string (codes "user"))
        (entry (codes "content") (string (codes "pay")) no_entries)))

abbrev one_call : Json
one_call = object (
    entry (codes "output") (object no_entries) (
      entry (codes "name") (string (codes "get")) (
        entry (codes "timestamp") (integer (pos 8)) (
          entry (codes "input") (object (entry (codes "q") (integer (pos 1)) no_entries))
            no_entries))))

abbrev session_with : Json → Json
session_with temperature = object (
    entry (codes "temperature") temperature (
      entry (codes "model") (string (codes "m")) (
        entry (codes "id") (string (codes "s"))
          (entry (codes "startedAt") (integer (pos 5)) no_entries))))

abbrev action : Json
action = object (
    entry (codes "token") (hex_value 40) (
      entry (codes "target") (hex_value 40) (
        entry (codes "rationale") (string (codes "r")) (
          entry (codes "callData") (string (codes "0x"))
            (entry (codes "amount") (string (codes "15")) no_entries)))))

abbrev pub small_trace : Json → Json
small_trace temperature = object (
    entry (codes "nonce") (integer (pos 1)) (
      entry (codes "schemaVersion") (string (codes "1.0.0")) (
        entry (codes "agentId") (hex_value 64) (
          entry (codes "session") (session_with temperature) (
            entry (codes "prompts") (array (item one_prompt no_items)) (
              entry (codes "owner") (hex_value 40) (
                entry (codes "toolCalls") (array (item one_call no_items)) (
                  entry (codes "observations") (array no_items) (
                    entry (codes "proposedAction") action
                      (entry (codes "intentHash") (hex_value 64) no_entries))))))))))

-- The first two fields, exchanged.
abbrev swapped : Json → Json
swapped (object (entry k v (entry l w es))) = object (entry l w (entry k v es))
swapped v = v

abbrev small_text : Text
small_text =
    codes "{\"agentId\":\"0x"
    ++ zeros 64
    ++ codes "\",\"intentHash\":\"0x"
    ++ zeros 64
    ++ codes "\",\"nonce\":1,\"observations\":[],\"owner\":\"0x"
    ++ zeros 40
    ++ codes
        "\",\"prompts\":[{\"content\":\"pay\",\"role\":\"user\",\"timestamp\":7}],\"proposedAction\":{\"amount\":\"15\",\"callData\":\"0x\",\"rationale\":\"r\",\"target\":\"0x"
    ++ zeros 40
    ++ codes "\",\"token\":\"0x"
    ++ zeros 40
    ++ codes
        "\"},\"schemaVersion\":\"1.0.0\",\"session\":{\"id\":\"s\",\"model\":\"m\",\"startedAt\":5,\"temperature\":0},\"toolCalls\":[{\"input\":{\"q\":1},\"name\":\"get\",\"output\":{},\"timestamp\":8}]}"

serialize_canonical-stringify_example :
    (t : Text) × (stringify (small_trace (integer (pos 0))) ≡ ok t)
    × (serialize_canonical (small_trace (integer (pos 0))) ≡ ok t)
unfolding IsWhole validate_decision_trace valid_trace has_exact_keys same_texts order_by insert_by
    text_less text_eq is_hex_value is_hex is_decimal is_hex_data is_integer is_number is_string
    is_record each_item is_role valid_session valid_prompt valid_tool_call valid_observation
    valid_action stringify object_text pair_text array_text quote join int_text to_decimal
serialize_canonical-stringify_example =
    serialize_canonical-stringify (small_trace (integer (pos 0))) refl _

-- A temperature of 0.7 is valid, and has no canonical text.
fraction_is_valid : validate_decision_trace (small_trace (fraction (codes "0.7"))) ≡ ok tt
unfolding validate_decision_trace valid_trace has_exact_keys same_texts order_by insert_by text_less
    text_eq is_hex_value is_hex is_decimal is_hex_data is_integer is_number is_string is_record
    each_item is_role valid_session valid_prompt valid_tool_call valid_observation valid_action
fraction_is_valid = refl

fraction_has_no_text : serialize_canonical (small_trace (fraction (codes "0.7"))) ≡ err internal
unfolding serialize_canonical validate_decision_trace valid_trace has_exact_keys same_texts order_by
    insert_by text_less text_eq is_hex_value is_hex is_decimal is_hex_data is_integer is_number
    is_string is_record each_item is_role valid_session valid_prompt valid_tool_call
    valid_observation valid_action normalize_trace stringify int_text
fraction_has_no_text = refl

-- The same trace, with its first two fields in another order.
abbrev sent_trace : Json
sent_trace = swapped (small_trace (integer (pos 0)))

abbrev pub zero_digest : Text
zero_digest = b'0' ∷ b'x' ∷ zeros 64

abbrev chain : TraceAckContext
chain = record { guarded_executor = codes "0x09"; chain_id = 84532 }

abbrev signed_once : Signed
signed_once = record { signer = codes "0x01"; signature = codes "0x02" }

abbrev first_upload : TraceBody → Uploaded
first_upload b =
    upload (λ t. zero_digest) (λ t. ok (codes "ipfs://x")) (λ ctx a. ok signed_once) (λ a. a) 60
      sqlite (ok chain) 100 b []

small_trace-IsIntegral : IsIntegral (small_trace (integer (pos 0)))
unfolding IsIntegral
small_trace-IsIntegral =
    let four : Unit {0} × (Unit {0} × (Unit {0} × Unit {0})) = (tt, (tt, (tt, tt))) in
    let five : Unit {0} × (Unit {0} × (Unit {0} × (Unit {0} × Unit {0}))) = (tt, four) in
    (
      tt,
      (
        tt,
        (
          tt,
          (
            five,
            (
              (four, tt),
              (tt, (((tt, (tt, (tt, ((tt, tt), tt)))), tt), (tt, ((tt, five), (tt, tt))))),
            ),
          ),
        ),
      ),
    )

upload_trace-upload_example :
    upload_trace
      (λ t. zero_digest)
      (λ t. sent_trace)
      (λ b. (first_upload b).answer)
      (small_trace (integer (pos 0)))
    ≡ delivered (record {
      trace_uri = codes "ipfs://x";
      context_digest = zero_digest;
      uri_hash = zero_digest;
      expires_at = 160;
      signature = codes "0x02";
      signer = codes "0x01";
      guarded_executor = codes "0x09";
      chain_id = 84532;
      agent_id = zero_digest;
      owner = b'0' ∷ b'x' ∷ zeros 40;
    })
unfolding validate_decision_trace valid_trace has_exact_keys same_texts order_by insert_by text_less
    text_eq is_hex_value is_hex is_decimal is_hex_data is_integer is_number is_string is_record
    each_item is_role valid_session valid_prompt valid_tool_call valid_observation valid_action
    stringify object_text pair_text array_text quote join int_text to_decimal pin_and_sign
    get_trace_by_digest find to_lower
upload_trace-upload_example =
    upload_trace-upload (λ t. zero_digest) (λ t. ok (codes "ipfs://x")) (λ ctx a. ok signed_once)
      (λ a. a) 60 sqlite (λ t. sent_trace) chain 100 [] (small_trace (integer (pos 0))) small_text
      refl small_trace-IsIntegral refl
      (objects (swap (text_ne (codes "nonce") (codes "schemaVersion") refl))) refl refl
