-- ===== src/Backend/State.antt =====
-- The state of a `SharedBackend` that its routing reads and writes.
use Prim.Native.String.{◌++◌ as text_append}
use win_wsl_mcp_bridge.Base.{ℕ, String, Bool, false, Option, none, List, [], ◌∷◌}
use win_wsl_mcp_bridge.Base.Pairs.{Pair}
use win_wsl_mcp_bridge.Json.{ℤ, Json, str, int, obj, Fields, end, field}
use win_wsl_mcp_bridge.Protocol.Revisions.{Rejection}
use win_wsl_mcp_bridge.Scheduling.Queue.{
  SharedRequestQueue, RoutedRequest, new_queue, max_shared_queued_requests,
  max_shared_client_queued_requests, max_shared_queued_bytes, max_shared_client_queued_bytes,
}

pub data Lifecycle : Type 0 where
  exited starting running stopping : Lifecycle

-- What a `BridgeError` says.
pub data Fault : Type 0 where
  not_running input_too_large : Fault
  id_not_scalar no_method unknown_response_id unknown_server_request : Fault
  reused_id internal_rejected bad_initialize_params client_gone : Fault
  initialization_unavailable initialization_failed session_failed session_timeout : Fault
  draining stream_closed one_client generation_changed replacement_failed : Fault
  restart_in_progress_fault active_requests backend_not_initialized lease_cleanup_failed : Fault
  changed_during_restart : Fault
  type_error value_error : Fault

-- `SharedBackendClient` without its stream and input buffer
pub record Client : Type 0 where
  pub input_eof : Bool
  pub protocol_version : Option String
  pub capabilities : Fields

-- What leaves the bridge: a message for a client's stream, one for the backend's standard input, and the
-- closing of a stream.
pub data Sent : Type 0 where
  to_client : String → Fields → Sent
  to_backend : Fields → Sent
  closing : String → Sent

-- The requests are objects that the queue, the dicts and `current_request` share: `requests` is the store, the
-- address of a request is its backend id, and the dicts hold addresses. `settled` are the addresses whose
-- `done` is completed. `sent` is what was sent, the newest first.
pub record Backend : Type 0 where
  pub process_config : Fields
  pub state : Lifecycle
  pub generation : ℕ
  pub clients : List (String × Client)
  pub request_queue : SharedRequestQueue
  pub requests : List (String × RoutedRequest)
  pub settled : List (String × Unit {0})
  pub pending_by_backend_id : List (String × String)
  pub pending_by_client_id : List (Pair × String)
  pub progress_tokens : List (String × (String × Json))
  pub server_requests : List (Pair × Json)
  pub current_request : Option String
  pub initialize_template : Option Fields
  pub initialize_pending : Bool
  pub initialize_event : Bool
  pub initialized_forwarded : Bool
  pub backend_negotiated_version : Option String
  pub backend_server_info : Option Fields
  pub restart_in_progress : Bool
  pub lease_owner : Option String
  pub drain_requested : Bool
  pub recovery_failures : ℕ
  pub sent : List Sent

unfoldable pub new_backend : Fields → Backend
new_backend process_config = record {
  process_config = process_config;
  state = exited;
  generation = 0;
  clients = [];
  request_queue =
      new_queue max_shared_queued_requests max_shared_client_queued_requests max_shared_queued_bytes
        max_shared_client_queued_bytes;
  requests = [];
  settled = [];
  pending_by_backend_id = [];
  pending_by_client_id = [];
  progress_tokens = [];
  server_requests = [];
  current_request = none;
  initialize_template = none;
  initialize_pending = false;
  initialize_event = false;
  initialized_forwarded = false;
  backend_negotiated_version = none;
  backend_server_info = none;
  restart_in_progress = false;
  lease_owner = none;
  drain_requested = false;
  recovery_failures = 0;
  sent = [];
}

-- What the standard library and the transport give: `json.dumps` of an id, its compact form, the length of
-- `_json_bytes`, `fnmatch.fnmatchcase`, `str.strip`, whether the pattern of a revision matches, the text of
-- an error and of a rejected projection, `SERVER_VERSION`, and the generation that a
-- text names between `bridge-server:` and the next colon, if it does.
pub record Wire : Type 0 where
  pub dumps : Json → String
  pub compact : Json → String
  pub size : Fields → ℕ
  pub fnmatchcase : String → String → Bool
  pub strip : String → String
  pub is_date : String → Bool
  pub describe : Fault → String
  pub explain : Rejection → String
  pub server_version : String
  pub generation_in : String → Option ℕ

-- `{"jsonrpc": "2.0", "id": id, "error": error}` and the same with a result
abbrev pub error_reply : Json → Json → Fields
error_reply id error = field "jsonrpc" (str "2.0") (field "id" id (field "error" error end))

abbrev pub result_reply : Json → Fields → Fields
result_reply id result =
    field "jsonrpc" (str "2.0") (field "id" id (field "result" (obj result) end))

-- `{"code": code, "message": message, "data": data}`
abbrev pub error_with_data : ℤ → String → Fields → Json
error_with_data code message details =
    obj (field "code" (int code) (field "message" (str message) (field "data" (obj details) end)))

abbrev pub join : List String → String
join [] = ""
join (s ∷ ss) = text_append s (join ss)
