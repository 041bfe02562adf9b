-- ===== src/Backend/Serving.antt =====
-- `SharedBackend`: what the backend sends besides responses. Its requests go to one client that can serve
-- them, its progress to the client that asked for it.
use text.Mathlib.Text.{starts_with}
use win_wsl_mcp_bridge.Base.{
  ℕ, String, Bool, true, false, not, ◌&&◌, ◌||◌, Option, none, some, List, [], ◌∷◌, text_eq, ltb,
  if◌then◌else◌,
}
use win_wsl_mcp_bridge.Base.Dict
use win_wsl_mcp_bridge.Base.Pairs
use win_wsl_mcp_bridge.Json.{
  pos, negsuc, Json, null, int, str, obj, Fields, end, field, get_or_null, put, has, as_obj, as_str,
  show_int,
}
use win_wsl_mcp_bridge.Scheduling.Queue.{RoutedRequest}
use win_wsl_mcp_bridge.Protocol.Modern.{opt_str}
use win_wsl_mcp_bridge.Backend.State.{
  Backend, Client, Wire, id_not_scalar, unknown_server_request, error_reply, error_with_data, join,
}
use win_wsl_mcp_bridge.Backend.Task.{Step, pure, raise, reads, modify, ◌>>=◌, ◌>>◌, each}
use win_wsl_mcp_bridge.Backend.Requests.{typed_id, valid_rpc_id, send_client_message, write_message}
use win_wsl_mcp_bridge.Backend.Responses.{text_of_id, object_at, route_backend_response}

unfoldable pub required_client_capability : String → Option String
required_client_capability method =
    if starts_with "sampling/" method
    then some "sampling"
    else if starts_with "roots/" method
    then some "roots"
    else if starts_with "elicitation/" method
    then some "elicitation"
    else none

abbrev serves : Option String → Option Client → Bool
serves required none = false
serves none (some client) = true
serves (some capability) (some client) = has capability client.capabilities

unfoldable pub client_supports_backend_method : String → String → Backend → Bool
unfolding required_client_capability
client_supports_backend_method client method b =
    serves (required_client_capability method) (Dict.lookup client b.clients)

abbrev here : List (String × Client) → Option String → Option String
here clients none = none
here clients (some client) = if Dict.has client clients then some client else none

abbrev client_of : Option RoutedRequest → Option String
client_of none = none
client_of (some pending) = pending.client_id

abbrev modern_of : Option RoutedRequest → Bool
modern_of none = false
modern_of (some pending) = pending.modern

-- The object of `self.current_request`.
abbrev pub current : Backend → Option RoutedRequest
current b = object_at b.current_request b.requests

abbrev able : String → Backend → Option String → Option String
able method b none = none
able method b (some client) =
    if client_supports_backend_method client method b then some client else none

abbrev first_of_two : Option String → Option String → Option String
first_of_two none other = other
first_of_two (some client) other = some client

-- `capable[0]` if it is the only one
unfoldable pub capable : String → Backend → List (String × Client) → List String
unfolding client_supports_backend_method
capable method b [] = []
capable method b ((owner, client) ∷ clients) =
    let rest = capable method b clients in
    if client_supports_backend_method owner method b then owner ∷ rest else rest

abbrev only : List String → Option String
only (owner ∷ []) = some owner
only _ = none

-- The client that is asked: that of the current request; without a current request the owner of the lease,
-- or the only client that can serve the method.
abbrev idle_client : Option String → String → Backend → Option String
idle_client (some id) method b = none
idle_client none method b =
    first_of_two (able method b (here b.clients b.lease_owner)) (only (capable method b b.clients))

unfoldable pub chosen : String → Backend → Option String
unfolding capable client_supports_backend_method
chosen method b =
    first_of_two (able method b (here b.clients (client_of (current b))))
      (idle_client b.current_request method b)

unfoldable pub server_request_id : ℕ → String → String
server_request_id generation uuid =
    join ("bridge-server:" ∷ show_int (pos generation) ∷ ":" ∷ uuid ∷ [])

abbrev text_or : String → Json → String
text_or default (str s) = s
text_or default _ = default

module _ (w : Wire) where
  unfoldable pub ask : Option String → String → Fields → String → Step
  ask none method message uuid = write_message w (
      error_reply (get_or_null "id" message) (
        error_with_data (negsuc 31999) "no compatible shared backend client available"
          (field "requiredClientCapability" (opt_str (required_client_capability method)) end)))
  ask (some client) method message uuid = do
    id ← reads (λ b. server_request_id b.generation uuid)
    modify (λ b. record b {
      server_requests =
          Pairs.store (client, typed_id w (str id)) (get_or_null "id" message) b.server_requests;
    })
    send_client_message client (put "id" (str id) message)

  unfoldable pub route_backend_request : Fields → String → Step
  route_backend_request message uuid = do
    modern ← reads (λ b. modern_of (current b))
    let method = text_or "None" (get_or_null "method" message)
    client ← reads (chosen method)
    if modern
        then write_message w (
            error_reply (get_or_null "id" message) (
              obj (
                field "code" (int (negsuc 32600)) (
                  field "message"
                    (str "backend requests are unsupported on the modern tools-only projection")
                    end))))
        else ask client method message uuid

  unfoldable pub send_progress : Option (String × Json) → Fields → Fields → Step
  send_progress none params message = pure tt
  send_progress (some (client, original)) params message =
      send_client_message client (put "params" (obj (put "progressToken" original params)) message)

  unfoldable pub route_progress : Option Fields → Fields → Step
  route_progress none message = do
    route ← reads (λ b. Dict.lookup "None" b.progress_tokens)
    send_progress route end message
  route_progress (some params) message = do
    route ←
        reads λ b. Dict.lookup (text_of_id (get_or_null "progressToken" params)) b.progress_tokens
    send_progress route params message

  abbrev has_version : Client → Bool
  has_version client = elim client.protocol_version [ none ↦ false | some version ↦ true ]

  unfoldable pub negotiated : List (String × Client) → List String
  negotiated [] = []
  negotiated ((id, client) ∷ clients) =
      if has_version client then id ∷ negotiated clients else negotiated clients

  unfoldable pub broadcast : Fields → Step
  broadcast message = do
    recipients ← reads (λ b. negotiated b.clients)
    each (λ client. send_client_message client message) recipients

  unfoldable pub send_to : Option String → Fields → Step
  send_to none message = pure tt
  send_to (some client) message = send_client_message client message

  -- Any other notification goes to the client of the current request, or to the owner of the lease.
  unfoldable pub route_other : Fields → Step
  route_other message = do
    modern ← reads (λ b. modern_of (current b))
    client ←
        reads
          λ b. first_of_two (here b.clients (client_of (current b))) (here b.clients b.lease_owner)
    if modern then pure tt else send_to client message

  abbrev is_list_change : String → Bool
  is_list_change method =
      text_eq method "notifications/tools/list_changed"
      || (text_eq method "notifications/resources/list_changed"
          || text_eq method "notifications/prompts/list_changed")

  unfoldable pub route_backend_notification : String → Fields → Step
  route_backend_notification method message =
      if text_eq method "notifications/progress"
      then route_progress (as_obj (get_or_null "params" message)) message
      else if is_list_change method
      then broadcast message
      else route_other message

  unfoldable pub by_method : Option String → Fields → String → Step
  by_method none message uuid = route_backend_response w message
  by_method (some method) message uuid =
      if has "id" message
      then route_backend_request message uuid
      else route_backend_notification method message

  unfoldable pub route_backend_message : Fields → String → Step
  route_backend_message message uuid =
      if has "id" message && not (valid_rpc_id (get_or_null "id" message))
      then raise id_not_scalar
      else by_method (as_str (get_or_null "method" message)) message uuid

  abbrev or_null : Option Json → Json
  or_null none = null
  or_null (some v) = v

  -- A request of the backend whose id was null is not told from an unknown one.
  unfoldable pub forward_response : Json → Bool → Fields → Step
  forward_response null stale message = if stale then pure tt else raise unknown_server_request
  forward_response backend_id stale message = write_message w (put "id" backend_id message)

  -- An answer to a request of an earlier generation, or during a restart.
  abbrev is_stale : Backend → Json → Bool
  is_stale b (str id) = elim (w.generation_in id) [
    | none ↦ false
    | some generation ↦ b.restart_in_progress || ltb generation b.generation
  ]
  is_stale b _ = false

  -- `_route_client_response`
  unfoldable pub route_client_response : String → Fields → Step
  route_client_response client message = do
    let id = get_or_null "id" message
    found ← reads (λ b. Pairs.find (client, typed_id w id) b.server_requests)
    stale ← reads (λ b. is_stale b id)
    modify (λ b. record b { server_requests = Pairs.pop (client, typed_id w id) b.server_requests })
    forward_response (or_null found) stale message
