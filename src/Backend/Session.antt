-- ===== src/Backend/Session.antt =====
-- `SharedBackend`: the session with the backend. Its `initialize` answer is observed and validated once, and
-- each client is given it with its own revision.
use win_wsl_mcp_bridge.Base.{
  String, true, false, Option, none, some, [], ◌∷◌, text_eq, if◌then◌else◌,
}
use win_wsl_mcp_bridge.Base.Dict
use win_wsl_mcp_bridge.Json.{
  negsuc, Json, str, obj, arr, Items, nil, cons, Fields, end, field, get, get_or_null, put, has,
  as_obj, as_str,
}
use win_wsl_mcp_bridge.Protocol.Revisions.{
  Outcome, value, rejected, text_in, project_legacy_server_capabilities,
}
use win_wsl_mcp_bridge.Protocol.Modern.{opt_str}
use win_wsl_mcp_bridge.Registration.Negotiation.{shared_compatible_protocol_versions}
use win_wsl_mcp_bridge.Backend.State.{
  Client, Fault, value_error, initialization_unavailable, error_with_data, join,
}
use win_wsl_mcp_bridge.Backend.Task.{Step, raise, reads, modify, ◌>>=◌}
use win_wsl_mcp_bridge.Backend.Requests.{send_client_message}

abbrev pub supported_versions : Items
supported_versions =
    cons (str "2024-11-05")
      (cons (str "2025-03-26") (cons (str "2025-06-18") (cons (str "2025-11-25") nil)))

abbrev pub shared_backend_request_protocol_version : String
shared_backend_request_protocol_version = "2025-11-25"

-- `_backend_session_error_template`
unfoldable pub backend_session_error_template : Option String → String → Fields
backend_session_error_template observed reason = field "jsonrpc" (str "2.0") (
    field "error"
      (error_with_data (negsuc 32602) (join ("shared backend session unavailable: " ∷ reason ∷ []))
        (field "code" (str "backend_protocol_version_unusable") (
          field "requested" (str shared_backend_request_protocol_version) (
            field "observed" (opt_str observed)
              (field "supportedProtocolVersions" (arr supported_versions) end)))))
      end)

-- What `_observe_backend_initialize` leaves: the template, and the revision and identity that it records
-- where the result is usable. Journaling is left out.
pub data Observed : Type 0 where
  unusable : Fields → Observed
  usable : Fields → String → Option Fields → Observed

unfoldable pub observe_result : Fields → Json → Observed
unfolding backend_session_error_template
observe_result template (obj result) = elim (as_str (get_or_null "protocolVersion" result)) [
  | none ↦ unusable (backend_session_error_template none "unusable backend protocol revision")
  | some version ↦
      if text_in version shared_compatible_protocol_versions
      then usable template version (as_obj (get_or_null "serverInfo" result))
      else unusable
          (backend_session_error_template (some version) "unusable backend protocol revision")
]
observe_result template _ =
    unusable (backend_session_error_template none "missing initialize result")

unfoldable pub observe_backend_initialize : Fields → Observed
unfolding observe_result
observe_backend_initialize template =
    if has "error" template
    then unusable template
    else observe_result template (get_or_null "result" template)

unfoldable pub record_session : Observed → Step
record_session (unusable template) = modify λ b. record b {
  initialize_template = some template;
  initialize_pending = false;
  initialize_event = true;
}
record_session (usable template version info) = modify λ b. record b {
  initialize_template = some template;
  initialize_pending = false;
  initialize_event = true;
  backend_negotiated_version = some version;
  backend_server_info = info;
}

-- `_send_initialize_response`, from the template and the client's revision on. `none` is a `ValueError`.
abbrev put_capabilities : Fields → Outcome Fields → Option Fields
put_capabilities result (rejected reason) = none
put_capabilities result (value capabilities) = some (put "capabilities" (obj capabilities) result)

unfoldable pub initialize_result : String → Fields → Option Fields
initialize_result version result =
    let result' = put "protocolVersion" (str version) result in
    elim (get "capabilities" result') [
      | none ↦ some result'
      | some capabilities ↦
          put_capabilities result' (project_legacy_server_capabilities version capabilities)
    ]

abbrev put_result : Fields → Option Fields → Option Fields
put_result response none = none
put_result response (some result) = some (put "result" (obj result) response)

unfoldable pub initialize_response : Option String → Fields → Json → Option Fields
unfolding initialize_result
initialize_response (some version) response (obj result) =
    if text_eq version ""
    then some response
    else put_result response (initialize_result version result)
initialize_response _ response _ = some response

abbrev pub version_of : Option Client → Option String
version_of none = none
version_of (some client) = client.protocol_version

unfoldable pub send_or_raise : Fault → String → Option Fields → Step
send_or_raise fault client none = raise fault
send_or_raise fault client (some response) = send_client_message client response

unfoldable pub answer_initialize : String → Json → Option Fields → Step
answer_initialize client id none = raise initialization_unavailable
answer_initialize client id (some template) = do
  version ← reads (λ b. version_of (Dict.lookup client b.clients))
  send_or_raise value_error client
      (initialize_response version (put "id" id template) (get_or_null "result" template))

unfoldable pub send_initialize_response : String → Json → Step
send_initialize_response client id = do
  template ← reads (λ b. b.initialize_template)
  answer_initialize client id template
