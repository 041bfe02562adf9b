-- ===== src/Backend/Clients.antt =====
-- `SharedBackend`: what a client sends. `_handle_initialize` and `_route_client_message`, with the two eras of
-- the protocol.
use win_wsl_mcp_bridge.Base.{
  String, Bool, true, false, not, ◌&&◌, ◌||◌, Option, none, some, text_eq, if◌then◌else◌,
}
use win_wsl_mcp_bridge.Base.Dict
use win_wsl_mcp_bridge.Json.{
  negsuc, Json, str, obj, arr, Fields, end, field, get, get_or_null, put, has, as_obj, as_str,
}
use win_wsl_mcp_bridge.Protocol.Modern.{
  protocol_version_entry, invalid_params_error, method_not_found_error,
}
use win_wsl_mcp_bridge.Registration.Negotiation.{
  Negotiated, accepted, downgraded, turned_down, negotiate_mcp_protocol_version,
}
use win_wsl_mcp_bridge.Backend.State.{
  Client, Wire, id_not_scalar, no_method, bad_initialize_params, client_gone, error_reply,
  error_with_data,
}
use win_wsl_mcp_bridge.Backend.Task.{Task, Step, pure, raise, reads, modify, ◌>>=◌, ◌>>◌}
use win_wsl_mcp_bridge.Backend.Requests.{
  valid_rpc_id, send_client_message, write_message, enqueue_request, plain,
}
use win_wsl_mcp_bridge.Backend.Session.{
  send_initialize_response, shared_backend_request_protocol_version, supported_versions,
}
use win_wsl_mcp_bridge.Backend.Responses.{get_or}
use win_wsl_mcp_bridge.Backend.Serving.{route_client_response}
use win_wsl_mcp_bridge.Backend.Policy.{reject_fixed_state_mutation, apply_lease_policy}
use win_wsl_mcp_bridge.Backend.Departure.{route_cancellation}
use win_wsl_mcp_bridge.Backend.Eras.{
  Later, finished, notify, replay, joined, bootstrap, route_modern, client_info, after_join,
  after_bootstrap,
}

abbrev or_baseline : Option String → String
or_baseline none = "2025-06-18"
or_baseline (some version) = version

unfoldable pub initialize_error : String → Json → Option String → Json
initialize_error message requested backend_version = error_with_data (negsuc 32601) message (
    field "requestedProtocolVersion" requested (
      field "supportedProtocolVersions" (arr supported_versions)
        (field "backendProtocolVersion" (str (or_baseline backend_version)) end)))

unfoldable pub send_initialize_error : String → Json → String → Json → Step
send_initialize_error client id message requested = do
  version ← reads (λ b. b.backend_negotiated_version)
  send_client_message client (error_reply id (initialize_error message requested version))

abbrev negotiated_version : Negotiated → Option String
negotiated_version (accepted version) = some version
negotiated_version (downgraded version) = some version
negotiated_version turned_down = none

abbrev with_session : String → Fields → Option Client → Client
with_session version capabilities none = record {
  input_eof = false;
  protocol_version = some version;
  capabilities = capabilities;
}
with_session version capabilities (some client) = record client {
  protocol_version = some version;
  capabilities = capabilities;
}

-- `client.protocol_version = …; client.capabilities = …`, or the error of a client that is gone
unfoldable pub open_session : String → String → Fields → Bool → Step
open_session client version capabilities false = raise client_gone
open_session client version capabilities true = modify λ b. record b {
  clients =
      Dict.insert client (with_session version capabilities (Dict.lookup client b.clients))
        b.clients;
}

module _ (w : Wire) where
  -- The bridge's own initialize in place of the client's.
  unfoldable pub bridge_initialize : Fields → Fields
  bridge_initialize message =
      put "params"
        (obj (
          field "protocolVersion" (str shared_backend_request_protocol_version) (
            field "capabilities" (obj end)
              (field "clientInfo" (obj (client_info w.server_version)) end))))
        message

  unfoldable pub initialize_with : Bool → Bool → String → Fields → String → String → Task Later
  initialize_with true pending client message uuid progress_uuid =
      send_initialize_response client (get_or_null "id" message) >> pure finished
  initialize_with false true client message uuid progress_uuid =
      pure (replay client (get_or_null "id" message))
  initialize_with false false client message uuid progress_uuid = do
    modify (λ b. record b { initialize_pending = true })
    enqueue_request w (some client) (bridge_initialize message)
        (record { is_initialize = true; is_release = false; modern = false }) uuid progress_uuid
    pure finished

  abbrev is_some : Option Fields → Bool
  is_some none = false
  is_some (some fields) = true

  unfoldable pub initialize_as :
      Option String → Json → Fields → String → Fields → String → String → Task Later
  initialize_as none requested capabilities client message uuid progress_uuid =
      send_initialize_error client (get_or_null "id" message)
        "unsupported MCP protocol revision for shared backend virtualization" requested
      >> pure finished
  initialize_as (some version) requested capabilities client message uuid progress_uuid = do
    here ← reads (λ b. Dict.has client b.clients)
    open_session client version capabilities here
    observed ← reads (λ b. is_some b.initialize_template)
    pending ← reads (λ b. b.initialize_pending)
    initialize_with observed pending client message uuid progress_uuid

  abbrev requested_text : Json → Json → Option (String × Fields)
  requested_text (str version) (obj capabilities) = some (version, capabilities)
  requested_text _ _ = none

  unfoldable pub initialize_checked :
      Option (String × Fields) → Json → String → Fields → String → String → Task Later
  initialize_checked none requested client message uuid progress_uuid =
      send_initialize_error client (get_or_null "id" message)
        "protocolVersion must be a supported string and capabilities must be an object" requested
      >> pure finished
  initialize_checked (some (version, capabilities)) requested client message uuid progress_uuid =
      initialize_as
        (negotiated_version (negotiate_mcp_protocol_version w.strip w.is_date (str version)))
        requested capabilities client message uuid progress_uuid

  unfoldable pub initialize_in : Option Fields → String → Fields → String → String → Task Later
  initialize_in none client message uuid progress_uuid = raise bad_initialize_params
  initialize_in (some params) client message uuid progress_uuid =
      initialize_checked
        (requested_text (get_or_null "protocolVersion" params)
          (get_or (obj end) (get "capabilities" params)))
        (get_or_null "protocolVersion" params) client message uuid progress_uuid

  -- `_handle_initialize`
  unfoldable pub handle_initialize : String → Fields → String → String → Task Later
  handle_initialize client message uuid progress_uuid =
      initialize_in (as_obj (get_or_null "params" message)) client message uuid progress_uuid

  abbrev has_result : Option Fields → Bool
  has_result none = false
  has_result (some template) = has "result" template

  -- `notifications/initialized`, once the session is known
  unfoldable pub forward_initialized : Fields → Step
  forward_initialized message = do
    first ← reads (λ b. not b.initialized_forwarded && has_result b.initialize_template)
    if first
        then modify (λ b. record b { initialized_forwarded = true }) >> write_message w message
        else pure tt

  abbrev is_session : Option Client → Bool
  is_session none = false
  is_session (some client) = elim client.protocol_version [ none ↦ false | some version ↦ true ]

  unfoldable pub enqueue_unless : Bool → String → Fields → String → String → Task Later
  enqueue_unless true client message uuid progress_uuid = pure finished
  enqueue_unless false client message uuid progress_uuid =
      enqueue_request w (some client) message plain uuid progress_uuid >> pure finished

  unfoldable pub leased_unless : Bool → String → Fields → String → String → Task Bool
  leased_unless true client message uuid progress_uuid = pure true
  leased_unless false client message uuid progress_uuid =
      apply_lease_policy w client message false uuid progress_uuid

  -- A request of a client whose session is open.
  unfoldable pub route_session : Bool → String → Fields → String → String → Task Later
  route_session false client message uuid progress_uuid =
      enqueue_unless false client message uuid progress_uuid
  route_session true client message uuid progress_uuid = do
    refused ← reject_fixed_state_mutation w client message false
    settled ← leased_unless refused client message uuid progress_uuid
    enqueue_unless settled client message uuid progress_uuid

  unfoldable pub reply_error : String → Fields → Json → Task Later
  reply_error client message error =
      send_client_message client (error_reply (get_or_null "id" message) error) >> pure finished

  unfoldable pub route_legacy :
      Option Client → String → String → Fields → String → String → Task Later
  route_legacy none method client message uuid progress_uuid = raise client_gone
  route_legacy (some session) method client message uuid progress_uuid =
      if is_session (some session)
      then route_session (text_eq method "tools/call") client message uuid progress_uuid
      else reply_error client message (
          invalid_params_error
            "request carries no modern per-request protocol metadata and the logical client has not completed the legacy initialize handshake")

  -- A request, by its method and its era.
  unfoldable pub route_request : String → String → Fields → String → String → String → Task Later
  route_request method client message hex uuid progress_uuid = do
    session ← reads (λ b. Dict.lookup client b.clients)
    if text_eq method "initialize"
        then handle_initialize client message uuid progress_uuid
        else if (protocol_version_entry (obj message)).0
        then route_modern w method client message hex uuid progress_uuid
        else if text_eq method "server/discover"
        then reply_error client message (
            method_not_found_error (str method)
              "server/discover is a modern-era method; use the legacy initialize handshake for pre-2026-07-28 revisions")
        else route_legacy session method client message uuid progress_uuid

  unfoldable pub route_notification : String → String → Fields → Task Later
  route_notification method client message = do
    pending ← reads (λ b. b.initialize_pending)
    if text_eq method "notifications/initialized"
        then (if pending
            then pure (notify message)
            else (forward_initialized message >> pure finished))
        else if text_eq method "notifications/cancelled"
        then route_cancellation w client message >> pure finished
        else write_message w message >> pure finished

  unfoldable pub by_kind : Option String → String → Fields → String → String → String → Task Later
  by_kind none client message hex uuid progress_uuid =
      if has "id" message && (has "result" message || has "error" message)
      then route_client_response w client message >> pure finished
      else raise no_method
  by_kind (some method) client message hex uuid progress_uuid =
      if has "id" message
      then route_request method client message hex uuid progress_uuid
      else route_notification method client message

  -- `_route_client_message`, up to its first wait
  unfoldable pub route_client_message : String → Fields → String → String → String → Task Later
  route_client_message client message hex uuid progress_uuid =
      if has "id" message && not (valid_rpc_id (get_or_null "id" message))
      then raise id_not_scalar
      else by_kind (as_str (get_or_null "method" message)) client message hex uuid progress_uuid

  -- The rest of it.
  unfoldable pub resume : Later → Bool → String → String → Step
  resume finished timed_out uuid progress_uuid = pure tt
  resume (notify message) timed_out uuid progress_uuid = forward_initialized message
  resume (replay client id) timed_out uuid progress_uuid = send_initialize_response client id
  resume (joined asked) timed_out uuid progress_uuid = after_join w asked uuid progress_uuid
  resume (bootstrap asked) timed_out uuid progress_uuid =
      after_bootstrap w timed_out asked uuid progress_uuid
