-- ===== src/Protocol/Modern.antt =====
-- bridge_protocol.py: the modern era, whose requests carry their revision and capabilities in `_meta`,
-- and the envelopes of its results and errors.
pub mod Surface
use Prim.Native.String.{◌++◌ as text_append}
use win_wsl_mcp_bridge.Base.{
  String, Bool, true, false, not, ◌&&◌, ◌||◌, List, [], ◌∷◌, ◌++◌, Option, none, some, text_eq,
  if◌then◌else◌,
}
use win_wsl_mcp_bridge.Json.{
  ℤ, pos, negsuc, Json, null, boolean, int, float, str, obj, arr, Items, nil, cons, Fields, end,
  field, get, get_or_null, has, put, as_obj, as_str, non_empty, Key, number, hash_key, key_eq,
}

abbrev pub modern_mcp_protocol_version : String
modern_mcp_protocol_version = "2026-07-28"

abbrev pub meta_protocol_version_key : String
meta_protocol_version_key = "io.modelcontextprotocol/protocolVersion"

abbrev pub meta_client_info_key : String
meta_client_info_key = "io.modelcontextprotocol/clientInfo"

abbrev pub meta_client_capabilities_key : String
meta_client_capabilities_key = "io.modelcontextprotocol/clientCapabilities"

abbrev pub meta_server_info_key : String
meta_server_info_key = "io.modelcontextprotocol/serverInfo"

-- `d.pop(key, None)`: a dict holds a key once
unfoldable pub pop : String → Fields → Fields
pop key end = end
pop key (field k v fs) = if text_eq k key then pop key fs else field k v (pop key fs)

unfoldable pub is_supported_modern_version : String → Bool
is_supported_modern_version version = text_eq modern_mcp_protocol_version version

unfoldable pub params_of : Json → Option Fields
params_of (obj message) = as_obj (get_or_null "params" message)
params_of _ = none

abbrev meta_in : Option Fields → Option Fields
meta_in none = none
meta_in (some params) = as_obj (get_or_null "_meta" params)

unfoldable pub meta_of : Json → Option Fields
unfolding params_of
meta_of message = meta_in (params_of message)

-- Whether the key is there, and the version if it is a text.
abbrev entry_in : Option Fields → Bool × Option String
entry_in none = (false, none)
entry_in (some meta) = elim (get meta_protocol_version_key meta) [
  | none ↦ (false, none)
  | some version ↦ (true, as_str version)
]

unfoldable pub protocol_version_entry : Json → Bool × Option String
unfolding meta_of
protocol_version_entry message = entry_in (meta_of message)

abbrev is_text_given : Json → Bool
is_text_given (str s) = not (text_eq s "")
is_text_given _ = false

abbrev is_dict : Json → Bool
is_dict (obj fs) = true
is_dict _ = false

abbrev is_dict_or_null : Json → Bool
is_dict_or_null null = true
is_dict_or_null v = is_dict v

abbrev problem_unless : Bool → String → List String
problem_unless true text = []
problem_unless false text = text ∷ []

abbrev problems_in : Option Fields → List String
problems_in none = "_meta is required on every modern request" ∷ []
problems_in (some meta) =
    problem_unless (is_text_given (get_or_null meta_protocol_version_key meta))
      "io.modelcontextprotocol/protocolVersion must be a non-empty string"
    ++ (problem_unless (is_dict (get_or_null meta_client_capabilities_key meta))
          "io.modelcontextprotocol/clientCapabilities must be an object"
        ++ problem_unless (is_dict_or_null (get_or_null meta_client_info_key meta))
            "io.modelcontextprotocol/clientInfo must be an object when present")

unfoldable pub validate_modern_request_meta : Json → List String
unfolding meta_of
validate_modern_request_meta message = problems_in (meta_of message)

abbrev retry_in : Option Fields → Bool
retry_in none = false
retry_in (some params) = has "inputResponses" params || has "requestState" params

unfoldable pub has_mrtr_retry_fields : Json → Bool
unfolding params_of
has_mrtr_retry_fields message = retry_in (params_of message)

-- The progress token of the block, where it is a text or a number.
unfoldable pub filtered_meta : Json → Fields
filtered_meta (str token) = field "progressToken" (str token) end
filtered_meta (int token) = field "progressToken" (int token) end
filtered_meta (float token) = field "progressToken" (float token) end
filtered_meta _ = end

unfoldable pub without_meta : Fields → Json → Fields
unfolding filtered_meta
without_meta params (obj meta) =
    let filtered = filtered_meta (get_or_null "progressToken" meta) in
    if non_empty filtered then put "_meta" (obj filtered) params else pop "_meta" params
without_meta params _ = params

unfoldable pub sanitize_params_for_legacy : Json → Option Fields
unfolding without_meta
sanitize_params_for_legacy (obj params) = some (without_meta params (get_or_null "_meta" params))
sanitize_params_for_legacy _ = none

abbrev error_body : ℤ → String → Fields → Fields
error_body code message rest = field "code" (int code) (field "message" (str message) rest)

abbrev pub opt_str : Option String → Json
opt_str none = null
opt_str (some s) = str s

unfoldable pub unsupported_version_error : Option String → Json
unsupported_version_error requested = obj (
    error_body (negsuc 32021) "Unsupported protocol version" (
      field "data"
        (obj (
          field "supported" (arr (cons (str modern_mcp_protocol_version) nil))
            (field "requested" (opt_str requested) end)))
        end))

unfoldable pub invalid_params_error : String → Json
invalid_params_error message = obj (error_body (negsuc 32601) message end)

unfoldable pub method_not_found_error : Json → String → Json
method_not_found_error method reason =
    let name : String = elim (as_str method) [ none ↦ "unknown" | some s ↦ s ] in
    obj (error_body (negsuc 32600) (text_append name (text_append ": " reason)) end)

-- `code in RETIRED_MCP_ERROR_CODES`
unfoldable pub is_retired : Key → Bool
is_retired code = key_eq code (number (negsuc 32001)) || key_eq code (number (negsuc 32041))

abbrev message_or : String → Json → Json
message_or default (str s) = str s
message_or default _ = str default

unfoldable pub original_data : Option Json → Fields
original_data none = end
original_data (some v) = field "originalData" v end

unfoldable pub retired_error : Fields → Json
unfolding original_data
retired_error error = obj (
    field "code" (int (negsuc 32602)) (
      field "message" (message_or "legacy backend error" (get_or_null "message" error)) (
        field "data"
          (obj (
            field "code" (str "retired_mcp_error_code_normalized")
              (field "retiredCode" (get_or_null "code" error) (original_data (get "data" error)))))
          end)))

-- `none` where the code has no hash, which raises a `TypeError`.
unfoldable pub normalize_backend_error : Json → Option Json
unfolding is_retired retired_error
normalize_backend_error (obj error) = elim (hash_key (get_or_null "code" error)) [
  | none ↦ none
  | some code ↦ some (if is_retired code then retired_error error else obj error)
]
normalize_backend_error error = some error

abbrev instructions_field : Option String → Fields → Fields
instructions_field none result = result
instructions_field (some text) result =
    if text_eq text "" then result else put "instructions" (str text) result

-- `if backend_tools:`, where `None` is unobserved
abbrev offers : Option Bool → Bool
offers none = false
offers (some b) = b

unfoldable pub discover_result : Fields → Option Bool → Option String → Fields
discover_result server_info backend_tools backend_instructions =
    instructions_field backend_instructions (
      field "resultType" (str "complete") (
        field "supportedVersions" (arr (cons (str modern_mcp_protocol_version) nil)) (
          field "capabilities"
            (obj (if offers backend_tools then field "tools" (obj end) end else end))
            (field "ttlMs" (int (pos 0)) (
              field "cacheScope" (str "private")
                (field "_meta" (obj (field meta_server_info_key (obj server_info) end)) end))))))

-- `{key: result[key] for key in allowed if key in result}`; the source's order is that of a frozenset
unfoldable pub pick : List String → Fields → Fields
pick [] result = end
pick (key ∷ allowed) result = elim (get key result) [
  | none ↦ pick allowed result
  | some v ↦ field key v (pick allowed result)
]

-- `meta.setdefault(META_SERVER_INFO_KEY, server_info)` on a copy of the block, or on an empty one
unfoldable pub with_server_info : Fields → Json → Fields
with_server_info server_info (obj meta) =
    if has meta_server_info_key meta then meta else put meta_server_info_key (obj server_info) meta
with_server_info server_info _ = field meta_server_info_key (obj server_info) end

unfoldable pub enveloped : Fields → Fields → Fields
unfolding with_server_info
enveloped server_info shaped =
    put "_meta" (obj (with_server_info server_info (get_or_null "_meta" shaped))) shaped

abbrev pub list_result_allowed_keys : List String
list_result_allowed_keys = "tools" ∷ "nextCursor" ∷ "_meta" ∷ []

abbrev pub call_result_allowed_keys : List String
call_result_allowed_keys = "content" ∷ "structuredContent" ∷ "isError" ∷ "_meta" ∷ []

-- `none` is a `ValueError`.
unfoldable pub shape_modern_result : String → Json → Fields → Option Fields
unfolding pick enveloped
shape_modern_result method (obj result) server_info =
    if text_eq method "tools/list"
    then some (
        enveloped server_info (
          put "cacheScope" (str "private") (
            put "ttlMs" (int (pos 0))
              (put "resultType" (str "complete") (pick list_result_allowed_keys result)))))
    else if text_eq method "tools/call"
    then some (
        enveloped server_info
          (put "resultType" (str "complete") (pick call_result_allowed_keys result)))
    else none
shape_modern_result method _ server_info = none

unfoldable pub shape_modern_tool_result : Json → Fields → Option Fields
unfolding enveloped
shape_modern_tool_result (obj result) server_info =
    some (enveloped server_info (put "resultType" (str "complete") result))
shape_modern_tool_result _ server_info = none
