-- ===== src/Backend/Eras.antt =====
-- `SharedBackend._route_modern_client_message` and `_ensure_backend_session`: requests of the modern era, which
-- need no session of the client's own. What waits for the session is a `Later`.
use Prim.Native.String.{◌++◌ as text_append}
use win_wsl_mcp_bridge.Base.{
  String, Bool, true, false, not, ◌||◌, Option, none, some, List, [], ◌∷◌, text_eq, if◌then◌else◌,
}
use win_wsl_mcp_bridge.Json.{
  negsuc, Json, boolean, str, obj, Fields, end, field, get_or_null, put, has, as_obj, as_str,
}
use win_wsl_mcp_bridge.Protocol.Modern.{
  validate_modern_request_meta, protocol_version_entry, is_supported_modern_version,
  unsupported_version_error, invalid_params_error, method_not_found_error, has_mrtr_retry_fields,
  sanitize_params_for_legacy, discover_result,
}
use win_wsl_mcp_bridge.Backend.State.{
  Wire, Fault, session_timeout, initialization_failed, error_reply, result_reply, error_with_data,
}
use win_wsl_mcp_bridge.Backend.Task.{Task, Step, pure, reads, modify, ◌>>=◌, ◌>>◌, catch}
use win_wsl_mcp_bridge.Backend.Requests.{
  send_client_message, write_message, enqueue_request, Purpose,
}
use win_wsl_mcp_bridge.Backend.Session.{shared_backend_request_protocol_version}
use win_wsl_mcp_bridge.Backend.Responses.{modern_server_info}
use win_wsl_mcp_bridge.Backend.Policy.{reject_fixed_state_mutation, apply_lease_policy}

-- A modern request that is to be served; its message has the parameters for the backend.
pub record Asked : Type 0 where
  pub client : String
  pub id : Json
  pub method : String
  pub message : Fields

-- What is left of a handler: nothing; the notification, the initialize answer or the request that waits for
-- `initialize_event`; or the request that waits for the bridge's own initialize.
pub data Later : Type 0 where
  finished : Later
  notify : Fields → Later
  replay : String → Json → Later
  joined : Asked → Later
  bootstrap : Asked → Later

abbrev pub client_info : String → Fields
client_info server_version =
    field "name" (str "win-wsl-mcp-bridge-shared-backend")
      (field "version" (str server_version) end)

-- `_bridge_session_initialize`
unfoldable pub bridge_session_initialize : String → String → Fields
bridge_session_initialize server_version hex = field "jsonrpc" (str "2.0") (
    field "id" (str (text_append "bridge-session-init:" hex)) (
      field "method" (str "initialize") (
        field "params"
          (obj (
            field "protocolVersion" (str shared_backend_request_protocol_version) (
              field "capabilities" (obj end)
                (field "clientInfo" (obj (client_info server_version)) end))))
          end)))

-- `_backend_initialize_result`, `_backend_offers_tools` and `_backend_instructions`
abbrev pub backend_initialize_result : Option Fields → Option Fields
backend_initialize_result none = none
backend_initialize_result (some template) = as_obj (get_or_null "result" template)

abbrev is_some_fields : Option Fields → Bool
is_some_fields none = false
is_some_fields (some fields) = true

abbrev tools_in : Option Fields → Bool
tools_in none = false
tools_in (some capabilities) = is_some_fields (as_obj (get_or_null "tools" capabilities))

abbrev offers_in : Option Fields → Option Bool
offers_in none = none
offers_in (some result) = some (tools_in (as_obj (get_or_null "capabilities" result)))

unfoldable pub backend_offers_tools : Option Fields → Option Bool
backend_offers_tools template = offers_in (backend_initialize_result template)

abbrev text_given : Option String → Option String
text_given none = none
text_given (some text) = if text_eq text "" then none else some text

abbrev instructions_in : Option Fields → Option String
instructions_in none = none
instructions_in (some result) = text_given (as_str (get_or_null "instructions" result))

unfoldable pub backend_instructions : Option Fields → Option String
backend_instructions template = instructions_in (backend_initialize_result template)

abbrev is_yes : Option Bool → Bool
is_yes none = false
is_yes (some b) = b

-- `self.initialize_template is None or "error" in self.initialize_template`
abbrev pub has_failed : Option Fields → Bool
has_failed none = true
has_failed (some template) = has "error" template

abbrev joined_problems : List String → String
joined_problems [] = ""
joined_problems (p ∷ []) = p
joined_problems (p ∷ q ∷ ps) = text_append p (text_append "; " (joined_problems (q ∷ ps)))

abbrev is_forwarded : String → Bool
is_forwarded method = text_eq method "tools/list" || text_eq method "tools/call"

module _ (w : Wire) where
  unfoldable pub send_error : String → Json → Json → Step
  send_error client id error = send_client_message client (error_reply id error)

  unfoldable pub send_modern_backend_unavailable : Asked → Fault → Step
  send_modern_backend_unavailable asked fault = send_error asked.client asked.id (
      error_with_data (negsuc 32000) "shared backend session unavailable" (
        field "code" (str "backend_session_unavailable") (
          field "retryable" (boolean true) (
            field "outcomeUnknown" (boolean false) (field "detail" (str (w.describe fault)) end)))))

  unfoldable pub send_discover : Asked → Step
  send_discover asked = do
    template ← reads (λ b. b.initialize_template)
    send_client_message asked.client (
        result_reply asked.id (
          discover_result (modern_server_info w.server_version) (backend_offers_tools template)
            (backend_instructions template)))

  unfoldable pub enqueue_modern : Asked → Bool → String → String → Step
  enqueue_modern asked true uuid progress_uuid = pure tt
  enqueue_modern asked false uuid progress_uuid =
      enqueue_request w (some asked.client) asked.message
        (record { is_initialize = false; is_release = false; modern = true }) uuid progress_uuid
      >> pure tt

  unfoldable pub leased : Asked → String → String → Task Bool
  leased asked uuid progress_uuid =
      if text_eq asked.method "tools/call"
      then apply_lease_policy w asked.client asked.message true uuid progress_uuid
      else pure false

  unfoldable pub forward_modern : Asked → String → String → Step
  forward_modern asked uuid progress_uuid = do
    offered ← reads (λ b. is_yes (backend_offers_tools b.initialize_template))
    if not offered
        then send_error asked.client asked.id (
            method_not_found_error (str asked.method)
              "the physical backend did not advertise the tools capability; tools are not part of the projected modern surface")
        else do
          settled ← leased asked uuid progress_uuid
          enqueue_modern asked settled uuid progress_uuid

  -- What follows on `_ensure_backend_session`.
  unfoldable pub serve : Asked → String → String → Step
  serve asked uuid progress_uuid =
      if text_eq asked.method "server/discover"
      then send_discover asked
      else forward_modern asked uuid progress_uuid

  abbrev of_initialize : Purpose
  of_initialize = record { is_initialize = true; is_release = false; modern = false }

  -- `_ensure_backend_session` up to its first wait.
  unfoldable pub start_session : Asked → String → String → String → Task Later
  start_session asked hex uuid progress_uuid = do
    modify (λ b. record b { initialize_pending = true })
    catch
        (enqueue_request w none (bridge_session_initialize w.server_version hex) of_initialize uuid
            progress_uuid
          >> pure (bootstrap asked))
        λ fault. do
          modify (λ b. record b { initialize_pending = false })
          send_modern_backend_unavailable asked fault
          pure finished

  unfoldable pub with_session : Bool → Bool → Asked → String → String → String → Task Later
  with_session true pending asked hex uuid progress_uuid =
      serve asked uuid progress_uuid >> pure finished
  with_session false true asked hex uuid progress_uuid = pure (joined asked)
  with_session false false asked hex uuid progress_uuid = start_session asked hex uuid progress_uuid

  unfoldable pub ensure_backend_session : Asked → String → String → String → Task Later
  ensure_backend_session asked hex uuid progress_uuid = do
    observed ← reads (λ b. is_some_fields b.initialize_template)
    pending ← reads (λ b. b.initialize_pending)
    with_session observed pending asked hex uuid progress_uuid

  abbrev initialized_notification : Fields
  initialized_notification =
      field "jsonrpc" (str "2.0")
        (field "method" (str "notifications/initialized") (field "params" (obj end) end))

  unfoldable pub announce : Bool → Step
  announce true = pure tt
  announce false = do
    write_message w initialized_notification
    modify (λ b. record b { initialized_forwarded = true })

  unfoldable pub drop_session : Asked → Fault → Step
  drop_session asked fault = do
    modify (λ b. record b { initialize_pending = false })
    send_modern_backend_unavailable asked fault

  unfoldable pub announce_then_serve : Bool → Asked → String → String → Step
  announce_then_serve announced_before asked uuid progress_uuid = do
    announced ←
        catch (announce announced_before >> pure true)
          λ fault. send_modern_backend_unavailable asked fault >> pure false
    if announced then serve asked uuid progress_uuid else pure tt

  -- A modern request after the bridge's own initialize was answered, or timed out.
  unfoldable pub after_bootstrap : Bool → Asked → String → String → Step
  after_bootstrap timed_out asked uuid progress_uuid = do
    failed ← reads (λ b. has_failed b.initialize_template)
    forwarded ← reads (λ b. b.initialized_forwarded)
    if timed_out
        then drop_session asked session_timeout
        else if failed
        then drop_session asked initialization_failed
        else announce_then_serve forwarded asked uuid progress_uuid

  -- A modern request after `initialize_event`.
  unfoldable pub after_join : Asked → String → String → Step
  after_join asked uuid progress_uuid = do
    failed ← reads (λ b. has_failed b.initialize_template)
    if failed
        then send_modern_backend_unavailable asked initialization_failed
        else serve asked uuid progress_uuid

  unfoldable pub serve_after_checks : Bool → Asked → String → String → String → Task Later
  serve_after_checks true asked hex uuid progress_uuid = pure finished
  serve_after_checks false asked hex uuid progress_uuid =
      ensure_backend_session asked hex uuid progress_uuid

  unfoldable pub vetoed : Asked → Task Bool
  vetoed asked =
      if text_eq asked.method "tools/call"
      then reject_fixed_state_mutation w asked.client asked.message true
      else pure false

  unfoldable pub route_sanitized :
      Option Fields → String → Fields → String → String → String → String → Task Later
  route_sanitized none client message method hex uuid progress_uuid =
      send_error client (get_or_null "id" message) (invalid_params_error "params must be an object")
      >> pure finished
  route_sanitized (some params) client message method hex uuid progress_uuid = do
    let asked : Asked = record {
      client = client;
      id = get_or_null "id" message;
      method = method;
      message = put "params" (obj params) message;
    }
    veto ← vetoed asked
    serve_after_checks veto asked hex uuid progress_uuid

  abbrev asked_discover : String → Fields → Asked
  asked_discover client message = record {
    client = client;
    id = get_or_null "id" message;
    method = "server/discover";
    message = message;
  }

  -- The branches on the method, for a request of a supported version.
  unfoldable pub route_supported : String → String → Fields → String → String → String → Task Later
  route_supported method client message hex uuid progress_uuid =
      if text_eq method "server/discover"
      then ensure_backend_session (asked_discover client message) hex uuid progress_uuid
      else if not (is_forwarded method)
      then send_error client (get_or_null "id" message) (
          method_not_found_error (str method)
            "method is not part of the advertised tools-only modern projection")
        >> pure finished
      else if has_mrtr_retry_fields (obj message)
      then send_error client (get_or_null "id" message) (
          invalid_params_error
            "unexpected inputResponses/requestState retry fields on a request this server never returned as input_required")
        >> pure finished
      else route_sanitized (sanitize_params_for_legacy (get_or_null "params" message)) client
          message method hex uuid progress_uuid

  abbrev is_supported : Option String → Bool
  is_supported none = false
  is_supported (some version) = is_supported_modern_version version

  abbrev is_empty : List String → Bool
  is_empty [] = true
  is_empty (p ∷ ps) = false

  -- `_route_modern_client_message`
  unfoldable pub route_modern : String → String → Fields → String → String → String → Task Later
  route_modern method client message hex uuid progress_uuid =
      let problems = validate_modern_request_meta (obj message) in
      let version = (protocol_version_entry (obj message)).1 in
      if not (is_empty problems)
      then send_error client (get_or_null "id" message)
          (invalid_params_error (joined_problems problems))
        >> pure finished
      else if not (is_supported version)
      then send_error client (get_or_null "id" message) (unsupported_version_error version)
        >> pure finished
      else route_supported method client message hex uuid progress_uuid
