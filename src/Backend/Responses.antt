-- ===== src/Backend/Responses.antt =====
-- `SharedBackend._route_backend_message` for a response: the request that it answers is settled, and the
-- client is given the result in the shape of its era.
use win_wsl_mcp_bridge.Base.{
  String, Bool, true, false, Option, none, some, List, [], ◌∷◌, text_eq, if◌then◌else◌,
}
use win_wsl_mcp_bridge.Base.Dict
use win_wsl_mcp_bridge.Base.Pairs
use win_wsl_mcp_bridge.Json.{
  negsuc, Json, boolean, int, float, str, obj, arr, Items, nil, cons, Fields, end, field, get,
  get_or_null, put, as_obj, show_int, py_eq,
}
use win_wsl_mcp_bridge.Scheduling.Queue.{RoutedRequest}
use win_wsl_mcp_bridge.Protocol.Revisions.{Outcome, value, rejected, Rejection}
use win_wsl_mcp_bridge.Protocol.Tools.{project_legacy_tools_list}
use win_wsl_mcp_bridge.Protocol.Content.{project_legacy_tools_call_result}
use win_wsl_mcp_bridge.Protocol.Modern.{pop, normalize_backend_error, shape_modern_result}
use win_wsl_mcp_bridge.Backend.State.{
  Client, closing, Wire, type_error, value_error, unknown_response_id, error_reply,
}
use win_wsl_mcp_bridge.Backend.Task.{Step, pure, raise, reads, modify, ◌>>=◌, ◌>>◌}
use win_wsl_mcp_bridge.Backend.Session.{
  send_or_raise, version_of, record_session, observe_backend_initialize, send_initialize_response,
}
use win_wsl_mcp_bridge.Backend.Requests.{typed_id}

-- `str(id)` of a valid id. Of a token it tells the texts, which alone can be keys of the bridge, from the rest.
unfoldable pub text_of_id : Json → String
text_of_id (str s) = s
text_of_id (int z) = show_int z
text_of_id (float x) = x.repr
text_of_id _ = "None"

-- `_modern_server_info`
unfoldable pub modern_server_info : String → Fields
modern_server_info server_version = field "name" (str "win-wsl-mcp-bridge") (
    field "version" (str server_version) (
      field "description" (str "Bridge-owned shared MCP projection; modern surface is tools-only.")
        end))

abbrev internal_error : String → Json
internal_error message = obj (field "code" (int (negsuc 32602)) (field "message" (str message) end))

-- A result for a client of a legacy revision.
abbrev pub projected : (Rejection → String) → Json → Fields → Outcome Fields → Fields
projected explain id response (value result) = put "result" (obj result) response
projected explain id response (rejected reason) = error_reply id (internal_error (explain reason))

-- `_release_succeeded`: the walk along the path, whose parts the registry holds to texts
unfoldable pub walk : Items → Json → Option Json
walk nil v = some v
walk (cons (str part) path) (obj fields) = elim (get part fields) [
  | none ↦ none
  | some v ↦ walk path v
]
walk (cons _ path) v = none

abbrev pub items_of : Json → Items
items_of (arr items) = items
items_of _ = nil

abbrev pub get_or : Json → Option Json → Json
get_or default none = default
get_or default (some v) = v

abbrev walked_to : Json → Option Json → Bool
walked_to expected none = false
walked_to expected (some v) = py_eq v expected

abbrev released_in : Option Fields → Option Json → Bool
released_in none result = false
released_in (some lease) none = false
released_in (some lease) (some result) =
    walked_to (get_or (boolean true) (get "releasedResultValue" lease))
      (walk (items_of (get_or_null "releasedResultPath" lease)) result)

unfoldable pub release_succeeded : Fields → Fields → Bool
unfolding walk
release_succeeded process_config response =
    released_in (as_obj (get_or_null "clientLease" process_config)) (get "result" response)

-- `_finish_input_eof_if_idle`
unfoldable pub owns : String → List (Pairs.Pair × String) → Bool
owns client [] = false
owns client ((key, id) ∷ pending) = if text_eq key.0 client then true else owns client pending

abbrev pub eof_of : Option Client → Bool
eof_of none = false
eof_of (some client) = client.input_eof

unfoldable pub finish_input_eof_if_idle : String → Step
finish_input_eof_if_idle client = modify λ b.
    if eof_of (Dict.lookup client b.clients)
    then (if owns client b.pending_by_client_id
        then b
        else record b { sent = closing client ∷ b.sent })
    else b

unfoldable pub finish_eof_of : Option String → Step
finish_eof_of none = pure tt
finish_eof_of (some client) = finish_input_eof_if_idle client

unfoldable pub complete : String → Step
complete id = modify λ b. record b { settled = Dict.insert id tt b.settled }

-- The object at an address.
abbrev pub object_at : Option String → List (String × RoutedRequest) → Option RoutedRequest
object_at none requests = none
object_at (some id) requests = Dict.lookup id requests

module _ (w : Wire) where
  abbrev pub drop_client :
      Option String → Json → List (Pairs.Pair × String) → List (Pairs.Pair × String)
  drop_client none original pending = pending
  drop_client (some client) original pending = Pairs.pop (client, typed_id w original) pending

  abbrev pub drop_token :
      Option (String × Json) → List (String × (String × Json)) → List (String × (String × Json))
  drop_token none tokens = tokens
  drop_token (some token) tokens = Dict.pop token.0 tokens

  -- The entries of a request leave the dicts. Its key in `pending_by_backend_id` is its backend id.
  unfoldable pub untrack : RoutedRequest → Step
  untrack pending = modify λ b. record b {
    pending_by_backend_id = Dict.pop pending.backend_id b.pending_by_backend_id;
    pending_by_client_id = drop_client pending.client_id pending.original_id b.pending_by_client_id;
    progress_tokens = drop_token pending.progress_token b.progress_tokens;
  }

  unfoldable pub project_for : String → String → Json → Fields → Fields
  project_for version method id response = elim (as_obj (get_or_null "result" response)) [
    | none ↦ response
    | some result ↦
        if text_eq method "tools/list"
        then projected w.explain id response (project_legacy_tools_list version (obj result))
        else if text_eq method "tools/call"
        then projected w.explain id response (project_legacy_tools_call_result version (obj result))
        else response
  ]

  unfoldable pub shape_legacy : Option String → String → Json → Fields → Fields
  unfolding project_for
  shape_legacy none method id response = response
  shape_legacy (some version) method id response = project_for version method id response

  abbrev shaped : Json → Fields → Option Fields → Fields
  shaped id response none = error_reply id (internal_error (w.describe value_error))
  shaped id response (some result) = put "result" (obj result) response

  abbrev with_error : Fields → Option Json → Option Fields
  with_error response none = none
  with_error response (some error) = some (put "error" error response)

  -- `none` is the `TypeError` of an error whose code has no hash.
  unfoldable pub shape_modern : String → Json → Fields → Option Fields
  unfolding modern_server_info
  shape_modern method id response = elim (get "error" response) [
    | some error ↦ with_error response (normalize_backend_error error)
    | none ↦ some (elim (as_obj (get_or_null "result" response)) [
      | none ↦
          error_reply id
            (internal_error "shared backend returned a malformed result for a modern request")
      | some result ↦
          shaped id response
            (shape_modern_result method (obj result) (modern_server_info w.server_version))
    ])
  ]

  -- The message for the client, in the shape of the request's era.
  unfoldable pub answer : Option String → RoutedRequest → Fields → Option Fields
  unfolding shape_legacy shape_modern
  answer version pending message =
      let response = put "id" pending.original_id message in
      if pending.modern
      then shape_modern pending.method pending.original_id response
      else some (shape_legacy version pending.method pending.original_id response)

  unfoldable pub send_answer : String → RoutedRequest → Fields → Step
  send_answer client pending message = do
    version ← reads (λ b. version_of (Dict.lookup client b.clients))
    if pending.is_initialize
        then send_initialize_response client pending.original_id
        else send_or_raise type_error client (answer version pending message)

  -- `if pending.client_id is not None and pending.client_id in self.clients`
  unfoldable pub deliver : Option String → RoutedRequest → Fields → Step
  deliver none pending message = pure tt
  deliver (some client) pending message = do
    here ← reads (λ b. Dict.has client b.clients)
    if here then send_answer client pending message else pure tt

  unfoldable pub observe_if : Bool → RoutedRequest → Fields → Step
  observe_if true pending message =
      record_session (observe_backend_initialize (pop "id" (put "id" pending.original_id message)))
  observe_if false pending message = pure tt

  unfoldable pub release_if : Bool → Fields → Step
  release_if true message =
      modify λ b.
        if release_succeeded b.process_config message then record b { lease_owner = none } else b
  release_if false message = pure tt

  unfoldable pub answer_request : Option RoutedRequest → Fields → Step
  answer_request none message = raise unknown_response_id
  answer_request (some pending) message = do
    untrack pending
    observe_if pending.is_initialize pending message
    release_if pending.is_release message
    deliver pending.client_id pending message
    complete pending.backend_id
    finish_eof_of pending.client_id

  -- `_route_backend_message` for a message without a method
  unfoldable pub route_backend_response : Fields → Step
  route_backend_response message = do
    pending ← reads λ b.
        object_at (Dict.lookup (text_of_id (get_or_null "id" message)) b.pending_by_backend_id)
          b.requests
    answer_request pending message
