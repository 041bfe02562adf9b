-- ===== src/Engine/Payload.antt =====
-- connector_engine.py: parsing, the annotations and the error payload.
use Prim.Native.String.{◌++◌ as text_append}
use win_wsl_mcp_bridge.Base.{
  ℕ, String, Bool, true, false, Option, none, some, List, [], ◌∷◌, ◌++◌, text_eq, if◌then◌else◌,
}
use win_wsl_mcp_bridge.Json.{
  ℤ, negsuc, Json, boolean, int, str, arr, obj, Items, nil, cons, Fields, end, field, get_or_null,
  put, as_obj,
}

-- `loads` is `json.loads`, with `none` for the `ValueError`; `dumps` is `_json_bytes`; `rstrip` is
-- `str.rstrip`.
pub record Codec : Type 0 where
  pub loads : List ℕ → Option Json
  pub dumps : Json → List ℕ
  pub rstrip : String → String

-- The class attributes of `Recovery`, which an engine may override.
pub record Policy : Type 0 where
  pub name : String
  pub version : String
  pub core_version : String
  pub note_results_when_stale : Bool
  pub initialize_method : String
  pub initialized_notification : String
  pub call_method : String
  pub lost_reason : String
  pub overflow_reason : String
  pub unavailable_reason : String

abbrev pub built_in : Policy
built_in = record {
  name = "connector-engine";
  version = "1.0.0";
  core_version = "0.4.3";
  note_results_when_stale = false;
  initialize_method = "initialize";
  initialized_notification = "notifications/initialized";
  call_method = "tools/call";
  lost_reason =
      "bridge: node stream lost before the MCP answered; request failed once and will not be replayed";
  overflow_reason =
      "bridge: node stream unavailable and the connector input queue exceeded its limit; request not delivered and not replayed";
  unavailable_reason = "bridge: node stream unavailable; request not delivered";
}

-- The code of `BRIDGE_ERROR_CODE`, -32000.
abbrev pub bridge_error_code : ℤ
bridge_error_code = negsuc 31999

unfoldable pub append_item : Items → Json → Items
append_item nil v = cons v nil
append_item (cons x xs) v = cons x (append_item xs v)

abbrev is_empty_text : String → Bool
is_empty_text s = text_eq s ""

module _ (codec : Codec) where
  unfoldable pub parse : List ℕ → Option Fields
  parse raw = elim (codec.loads raw) [ none ↦ none | some v ↦ as_obj v ]

  -- The instructions with the warning on a line of its own.
  unfoldable pub warned : Json → String → String
  warned (str existing) warning =
      if is_empty_text existing
      then warning
      else text_append (text_append (codec.rstrip existing) "\n") warning
  warned _ warning = warning

  -- The result under `result`, if the line is a dict that holds one; else the line is left as it is.
  unfoldable pub result_of : Option Fields → Option Fields
  result_of none = none
  result_of (some message) = as_obj (get_or_null "result" message)

  abbrev message_of : Option Fields → Fields
  message_of none = end
  message_of (some message) = message

  unfoldable pub annotate_initialize_result : List ℕ → String → List ℕ
  unfolding parse result_of warned
  annotate_initialize_result raw warning = elim (result_of (parse raw)) [
    | none ↦ raw
    | some result ↦
        codec.dumps (
          obj (
            put "result"
              (obj (
                put "instructions" (str (warned (get_or_null "instructions" result) warning))
                  result))
              (message_of (parse raw))))
        ++ 10 ∷ []
  ]

  abbrev pub items_of : Json → Items
  items_of (arr xs) = xs
  items_of _ = nil

  unfoldable pub annotate_tool_result : List ℕ → String → List ℕ
  unfolding parse result_of append_item
  annotate_tool_result raw warning = elim (result_of (parse raw)) [
    | none ↦ raw
    | some result ↦
        let note = obj (field "type" (str "text") (field "text" (str warning) end)) in
        codec.dumps (
          obj (
            put "result"
              (obj (
                put "content" (arr (append_item (items_of (get_or_null "content" result)) note))
                  result))
              (message_of (parse raw))))
        ++ 10 ∷ []
  ]

  unfoldable pub error_payload : Json → String → Bool → List ℕ
  error_payload request_id message outcome_unknown =
      codec.dumps (
        obj (
          field "jsonrpc" (str "2.0") (
            field "id" request_id (
              field "error"
                (obj (
                  field "code" (int bridge_error_code) (
                    field "message" (str message) (
                      field "data"
                        (obj (
                          field "bridge" (boolean true)
                            (field "outcomeUnknown" (boolean outcome_unknown) end)))
                        end))))
                end))))
      ++ 10 ∷ []
