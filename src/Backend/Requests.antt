-- ===== src/Backend/Requests.antt =====
-- `SharedBackend`: the ids of requests, `_enqueue_request`, `_request_worker`, and the two ways out,
-- `_write_message` and `_send_client_message`.
use win_wsl_mcp_bridge.Base.{
  ℕ, ◌+◌, String, Bool, true, false, not, Option, none, some, List, [], ◌∷◌, ltb, text_eq, ◌==◌,
  if◌then◌else◌,
}
use win_wsl_mcp_bridge.Base.Dict
use win_wsl_mcp_bridge.Base.Pairs
use win_wsl_mcp_bridge.Json.{
  pos, negsuc, Json, null, boolean, int, float, str, obj, arr, Fields, end, field, get, get_or_null,
  put, as_obj, show_int,
}
use win_wsl_mcp_bridge.Scheduling.Queue.{
  RoutedRequest, Refusal, request_size_limit, internal_request_limit, internal_byte_limit,
  client_request_limit, client_byte_limit, backend_request_limit, backend_byte_limit, put_nowait,
  max_shared_jsonrpc_bytes,
}
use win_wsl_mcp_bridge.Scheduling.Queue
use win_wsl_mcp_bridge.Backend.State.{
  Lifecycle, running, to_client, to_backend, Wire, not_running, input_too_large, reused_id,
  internal_rejected, error_reply, error_with_data, join,
}
use win_wsl_mcp_bridge.Backend.Task.{Task, Step, pure, raise, reads, modify, ◌>>=◌, ◌>>◌, catch}

unfoldable pub valid_rpc_id : Json → Bool
valid_rpc_id null = true
valid_rpc_id (str s) = true
valid_rpc_id (int z) = true
valid_rpc_id (float x) = true
valid_rpc_id _ = false

-- `type(value).__name__`
abbrev type_name : Json → String
type_name null = "NoneType"
type_name (boolean b) = "bool"
type_name (int z) = "int"
type_name (float x) = "float"
type_name (str s) = "str"
type_name (arr xs) = "list"
type_name (obj fs) = "dict"

-- `client_id or "bridge"`
abbrev owner_text : Option String → String
owner_text none = "bridge"
owner_text (some client) = if text_eq client "" then "bridge" else client

-- The last part is the hex of a `uuid4`.
unfoldable pub next_backend_id : ℕ → Option String → String → String
next_backend_id generation client uuid =
    join ("bridge:" ∷ show_int (pos generation) ∷ ":" ∷ owner_text client ∷ ":" ∷ uuid ∷ [])

unfoldable pub backend_progress : ℕ → String → String → String
backend_progress generation client uuid =
    join ("bridge-progress:" ∷ show_int (pos generation) ∷ ":" ∷ client ∷ ":" ∷ uuid ∷ [])

-- The forwarded message, and the bridge's token with the client's own.
abbrev with_token :
    String → Fields → Option Fields → Option Fields → Fields × Option (String × Json)
with_token token message (some params) (some meta) = elim (get "progressToken" meta) [
  | none ↦ (message, none)
  | some original ↦ (
    put "params" (obj (put "_meta" (obj (put "progressToken" (str token) meta)) params)) message,
    some (token, original),
  )
]
with_token token message _ _ = (message, none)

abbrev meta_of : Option Fields → Option Fields
meta_of none = none
meta_of (some params) = as_obj (get_or_null "_meta" params)

unfoldable pub forwarded : ℕ → Option String → String → Fields → Fields × Option (String × Json)
unfolding backend_progress
forwarded generation none progress_uuid message = (message, none)
forwarded generation (some client) progress_uuid message =
    let params = as_obj (get_or_null "params" message) in
    with_token (backend_progress generation client progress_uuid) message params (meta_of params)

-- `str(message.get("method"))`, which is a text wherever it is called
abbrev text_or : String → Json → String
text_or default (str s) = s
text_or default _ = default

-- What a request is besides its message.
pub record Purpose : Type 0 where
  pub is_initialize : Bool
  pub is_release : Bool
  pub modern : Bool

abbrev pub plain : Purpose
plain = record { is_initialize = false; is_release = false; modern = false }

unfoldable pub routed : ℕ → Option String → Fields → Purpose → String → String → RoutedRequest
unfolding forwarded next_backend_id
routed generation client message purpose uuid progress_uuid =
    let backend_id = next_backend_id generation client uuid in
    let (sent, token) =
      forwarded generation client progress_uuid (put "id" (str backend_id) message) in
    record {
      backend_id = backend_id;
      client_id = client;
      original_id = get_or_null "id" message;
      message = sent;
      method = text_or "None" (get_or_null "method" message);
      is_initialize = purpose.is_initialize;
      is_release = purpose.is_release;
      cancelled = false;
      progress_token = token;
      modern = purpose.modern;
    }

-- A message for a client that is gone is dropped. What the transport then does is outside.
unfoldable pub send_client_message : String → Fields → Step
send_client_message client message = modify λ b.
    if Dict.has client b.clients then record b { sent = to_client client message ∷ b.sent } else b

abbrev pub is_running : Lifecycle → Bool
is_running running = true
is_running _ = false

abbrev limit_name : Refusal → String
limit_name request_size_limit = "request_size_limit"
limit_name internal_request_limit = "internal_request_limit"
limit_name internal_byte_limit = "internal_byte_limit"
limit_name client_request_limit = "client_request_limit"
limit_name client_byte_limit = "client_byte_limit"
limit_name backend_request_limit = "backend_request_limit"
limit_name backend_byte_limit = "backend_byte_limit"

abbrev is_size_limit : Refusal → Bool
is_size_limit request_size_limit = true
is_size_limit _ = false

abbrev pub busy_error : Refusal → Json
busy_error limit =
    error_with_data (negsuc 31999) "Shared backend request was not queued or executed." (
      field "reason" (str "shared_backend_busy") (
        field "limit" (str (limit_name limit)) (
          field "retryable" (boolean (not (is_size_limit limit)))
            (field "outcomeUnknown" (boolean false) end))))

-- What follows on a full queue.
unfoldable pub refuse : Option String → Json → Bool → Refusal → Task (Option String)
refuse none original is_initialize limit = raise internal_rejected
refuse (some client) original true limit = raise internal_rejected
refuse (some client) original false limit =
    send_client_message client (error_reply original (busy_error limit)) >> pure none

-- `self.progress_tokens[token] = (client_id, original)`, for a request of a client alone
abbrev pub note_token :
    Option String
    → Option (String × Json)
    → List (String × (String × Json))
    → List (String × (String × Json))
note_token (some client) (some (token, original)) tokens =
    Dict.insert token (client, original) tokens
note_token _ _ tokens = tokens

unfoldable pub queue_request : RoutedRequest → ℕ → Task (Option Refusal)
queue_request pending size = do
  outcome ← reads (λ b. put_nowait pending size b.request_queue)
  modify (λ b. record b { request_queue = outcome.0 })
  pure outcome.1

module _ (w : Wire) where
  unfoldable pub typed_id : Json → String
  typed_id v = join (type_name v ∷ ":" ∷ w.dumps v ∷ [])

  -- `_write_message`
  unfoldable pub write_message : Fields → Step
  write_message message = do
    up ← reads (λ b. is_running b.state)
    if not up
        then raise not_running
        else if ltb max_shared_jsonrpc_bytes (w.size message + 1)
        then raise input_too_large
        else modify (λ b. record b { sent = to_backend message ∷ b.sent })

  abbrev pub key_of : Option String → Json → Option Pairs.Pair
  key_of none original = none
  key_of (some client) original = some (client, typed_id original)

  abbrev pub is_used : Option Pairs.Pair → List (Pairs.Pair × String) → Bool
  is_used none pending = false
  is_used (some key) pending = elim (Pairs.find key pending) [ none ↦ false | some a ↦ true ]

  abbrev pub note_client :
      Option Pairs.Pair → String → List (Pairs.Pair × String) → List (Pairs.Pair × String)
  note_client none id pending = pending
  note_client (some key) id pending = Pairs.store key id pending

  -- The entries of the dicts for a request that is queued.
  unfoldable pub track : RoutedRequest → Step
  track pending = modify λ b. record b {
    requests = Dict.insert pending.backend_id pending b.requests;
    progress_tokens = note_token pending.client_id pending.progress_token b.progress_tokens;
    pending_by_backend_id =
        Dict.insert pending.backend_id pending.backend_id b.pending_by_backend_id;
    pending_by_client_id =
        note_client (key_of pending.client_id pending.original_id) pending.backend_id
          b.pending_by_client_id;
  }

  unfoldable pub after_queue : RoutedRequest → Option Refusal → Task (Option String)
  after_queue pending (some limit) =
      refuse pending.client_id pending.original_id pending.is_initialize limit
  after_queue pending none = track pending >> pure (some pending.backend_id)

  -- `_enqueue_request` returns the address of the request, or `none` where the client was told that the queue
  -- is full.
  unfoldable pub enqueue_request :
      Option String → Fields → Purpose → String → String → Task (Option String)
  enqueue_request client message purpose uuid progress_uuid = do
    used ← reads (λ b. is_used (key_of client (get_or_null "id" message)) b.pending_by_client_id)
    generation ← reads (λ b. b.generation)
    let pending = routed generation client message purpose uuid progress_uuid
    if used then raise reused_id else do
      limit ← queue_request pending (w.size pending.message + 1)
      after_queue pending limit

  -- `finally: self.current_request = None` where the write raised
  unfoldable pub begin : RoutedRequest → Step
  begin pending = do
    modify (λ b. record b { current_request = some pending.backend_id })
    catch (write_message pending.message)
        λ fault. modify (λ b. record b { current_request = none }) >> raise fault

  unfoldable pub start_object : Option RoutedRequest → Step
  start_object none = pure tt
  start_object (some pending) = if pending.cancelled then pure tt else begin pending

  unfoldable pub start_taken : Option (Queue.SharedRequestQueue × RoutedRequest) → Step
  start_taken none = pure tt
  start_taken (some (queue, taken)) = do
    modify (λ b. record b { request_queue = queue })
    object ← reads (λ b. Dict.lookup taken.backend_id b.requests)
    start_object object

  -- One round of `_request_worker` up to the wait for `done`. An empty queue waits.
  unfoldable pub request_worker : ℕ → Step
  request_worker generation = do
    current ← reads (λ b. b.generation == generation)
    taken ← reads (λ b. Queue.get b.request_queue)
    if current then start_taken taken else pure tt

  -- The end of a round: `done` of the current request is completed.
  abbrev after_done : Option String → List (String × Unit {0}) → Option String
  after_done none settled = none
  after_done (some id) settled = if Dict.has id settled then none else some id

  unfoldable pub worker_done : Step
  worker_done = modify λ b. record b { current_request = after_done b.current_request b.settled }
