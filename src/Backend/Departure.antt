-- ===== src/Backend/Departure.antt =====
-- `SharedBackend`: how requests leave without an answer. `_route_cancellation`, `_cancel_client_requests`, the
-- detaching of a client, `_cleanup_lease` and `_fail_all_pending`.
use win_wsl_mcp_bridge.Base.{
  String, Bool, true, false, Option, none, some, List, [], ◌∷◌, text_eq, if◌then◌else◌,
}
use win_wsl_mcp_bridge.Base.Dict
use win_wsl_mcp_bridge.Base.Pairs
use win_wsl_mcp_bridge.Json.{
  negsuc, Json, null, int, str, obj, Fields, end, field, get_or_null, put, as_obj,
}
use win_wsl_mcp_bridge.Scheduling.Queue.{RoutedRequest}
use win_wsl_mcp_bridge.Scheduling.Queue
use win_wsl_mcp_bridge.Backend.State.{Backend, Wire, error_reply, join}
use win_wsl_mcp_bridge.Backend.Task.{Task, Step, pure, reads, modify, ◌>>=◌, ◌>>◌, catch, each}
use win_wsl_mcp_bridge.Backend.Requests.{
  typed_id, send_client_message, write_message, enqueue_request, is_running,
}
use win_wsl_mcp_bridge.Backend.Responses.{untrack, complete, object_at}

-- `self.current_request is pending`
abbrev pub is_current : Option String → String → Bool
is_current none id = false
is_current (some current) id = text_eq current id

-- `self.request_queue.discard(pending); pending.cancelled = True`
unfoldable pub discard_request : RoutedRequest → Step
discard_request pending = modify λ b. record b {
  request_queue = Queue.discard pending b.request_queue;
  requests = Dict.insert pending.backend_id (record pending { cancelled = true }) b.requests;
}

abbrev pub request_id_in : Option Fields → Json
request_id_in none = null
request_id_in (some params) = get_or_null "requestId" params

abbrev or_empty : Option Fields → Fields
or_empty none = end
or_empty (some fields) = fields

-- The keys of one client, in order.
unfoldable pub owned : String → List (Pairs.Pair × String) → List String
owned client [] = []
owned client ((key, id) ∷ pending) =
    if text_eq key.0 client then id ∷ owned client pending else owned client pending

-- How `_cancel_client_requests` stands: the backend could not be told, all is settled, or the current request
-- is to be waited for.
pub data Cancelled : Type 0 where
  unsettled all_settled : Cancelled
  waiting_for : String → Cancelled

-- What `detach` goes on with: it stops the backend, it stops it if no client is left, or it waits for the current
-- request or for the release of the lease.
pub data Detached : Type 0 where
  stop_backend stop_if_unused : Detached
  awaiting cleaning : String → Detached

abbrev same_owner : Option String → String → Bool
same_owner none client = false
same_owner (some owner) client = text_eq owner client

module _ (w : Wire) where
  abbrev cancelled_error : Json
  cancelled_error =
      obj (field "code" (int (negsuc 32799)) (field "message" (str "Request cancelled") end))

  unfoldable pub cancel_queued : String → RoutedRequest → Step
  cancel_queued client pending = do
    discard_request pending
    untrack w pending
    send_client_message client (error_reply pending.original_id cancelled_error)
    complete pending.backend_id

  unfoldable pub cancel_request : String → Fields → Option RoutedRequest → Step
  cancel_request client message none = pure tt
  cancel_request client message (some pending) = do
    active ← reads (λ b. is_current b.current_request pending.backend_id)
    let params = or_empty (as_obj (get_or_null "params" message))
    if active
        then write_message w
            (put "params" (obj (put "requestId" (str pending.backend_id) params)) message)
        else cancel_queued client pending

  unfoldable pub route_cancellation : String → Fields → Step
  route_cancellation client message = do
    pending ← reads λ b.
        object_at
          (Pairs.find (client, typed_id w (request_id_in (as_obj (get_or_null "params" message))))
            b.pending_by_client_id)
          b.requests
    cancel_request client message pending

  -- A request of a client that left a backend which does not run: it is settled without a word.
  unfoldable pub forget_request : RoutedRequest → Step
  forget_request pending = do
    discard_request pending
    untrack w pending
    modify λ b. record b {
      requests =
          Dict.insert pending.backend_id (record pending { cancelled = true; client_id = none })
            b.requests;
    }
    complete pending.backend_id

  -- An initialize goes on without the client that sent it.
  unfoldable pub orphan : String → RoutedRequest → Step
  orphan client pending = modify λ b. record b {
    pending_by_client_id =
        Pairs.pop (client, typed_id w pending.original_id) b.pending_by_client_id;
    requests = Dict.insert pending.backend_id (record pending { client_id = none }) b.requests;
  }

  unfoldable pub drop_queued : RoutedRequest → Step
  drop_queued pending = do discard_request pending; untrack w pending; complete pending.backend_id

  abbrev cancel_notice : String → Fields
  cancel_notice id = field "jsonrpc" (str "2.0") (
      field "method" (str "notifications/cancelled")
        (field "params" (obj (field "requestId" (str id) end)) end))

  -- One request of a client that left a running backend.
  unfoldable pub release_request : String → RoutedRequest → Step
  release_request client pending = do
    active ← reads (λ b. is_current b.current_request pending.backend_id)
    if pending.is_initialize
        then orphan client pending
        else if active
        then write_message w (cancel_notice pending.backend_id)
        else drop_queued pending

  unfoldable pub on_object : (RoutedRequest → Step) → Option RoutedRequest → Step
  on_object f none = pure tt
  on_object f (some pending) = f pending

  unfoldable pub on_request : (RoutedRequest → Step) → String → Step
  on_request f id = do object ← reads (λ b. Dict.lookup id b.requests); on_object f object

  abbrev on_told : Bool → Task Cancelled → Task Cancelled
  on_told true rest = rest
  on_told false rest = pure unsettled

  -- The requests of a client, until the backend cannot be told of one; the writes are one step.
  unfoldable pub release_each : String → List String → Cancelled → Task Cancelled
  release_each client [] found = pure found
  release_each client (id ∷ ids) found = do
    active ← reads (λ b. is_current b.current_request id)
    told ← catch (on_request (release_request client) id >> pure true) (λ fault. pure false)
    let rest = release_each client ids (if active then waiting_for id else found)
    if told then rest else pure unsettled

  -- `_cancel_client_requests`, up to its wait
  unfoldable pub cancel_client_requests : String → Task Cancelled
  cancel_client_requests client = do
    up ← reads (λ b. is_running b.state)
    ids ← reads (λ b. owned client b.pending_by_client_id)
    if up
        then release_each client ids all_settled
        else each (on_request forget_request) ids >> pure all_settled

  abbrev cleanup_of : Fields → String → Fields
  cleanup_of lease hex = field "jsonrpc" (str "2.0") (
      field "id" (str (join ("bridge-cleanup:" ∷ hex ∷ []))) (
        field "method" (str "tools/call") (
          field "params"
            (obj (
              field "name" (get_or_null "releaseTool" lease) (
                field "arguments" (obj (or_empty (as_obj (get_or_null "releaseArguments" lease))))
                  end)))
            end)))

  abbrev cleaned : Option String → Detached
  cleaned none = stop_backend
  cleaned (some id) = cleaning id

  -- `_cleanup_lease` up to its wait, for the owner
  unfoldable pub cleanup_lease : Option Fields → String → String → String → Task Detached
  cleanup_lease none hex uuid progress_uuid =
      modify (λ b. record b { lease_owner = none }) >> pure stop_if_unused
  cleanup_lease (some lease) hex uuid progress_uuid =
      catch
        (do
          id ←
              enqueue_request w none (cleanup_of lease hex)
                (record { is_initialize = false; is_release = true; modern = false }) uuid
                progress_uuid
          pure (cleaned id))
        λ fault. pure stop_backend

  unfoldable pub clean_up : String → String → String → String → Task Detached
  clean_up client hex uuid progress_uuid = do
    owner ← reads (λ b. same_owner b.lease_owner client)
    lease ← reads (λ b. as_obj (get_or_null "clientLease" b.process_config))
    if owner then cleanup_lease lease hex uuid progress_uuid else pure stop_if_unused

  unfoldable pub after_cancel : Cancelled → String → String → String → String → Task Detached
  after_cancel unsettled client hex uuid progress_uuid = pure stop_backend
  after_cancel all_settled client hex uuid progress_uuid = clean_up client hex uuid progress_uuid
  after_cancel (waiting_for id) client hex uuid progress_uuid = pure (awaiting id)

  -- `detach`, up to its first wait
  unfoldable pub detach : String → String → String → String → Task Detached
  detach client hex uuid progress_uuid = do
    modify (λ b. record b { clients = Dict.pop client b.clients })
    cancelled ← cancel_client_requests client
    after_cancel cancelled client hex uuid progress_uuid

  -- The rest of it after the current request was waited for.
  unfoldable pub detach_waited : Bool → String → String → String → String → Task Detached
  detach_waited timed_out client hex uuid progress_uuid =
      if timed_out then pure stop_backend else clean_up client hex uuid progress_uuid

  abbrev is_free : Option String → Detached
  is_free none = stop_if_unused
  is_free (some owner) = stop_backend

  -- The rest of it after the release of the lease was waited for.
  unfoldable pub detach_cleaned : Bool → Task Detached
  detach_cleaned timed_out =
      if timed_out then pure stop_backend else reads (λ b. is_free b.lease_owner)

unfoldable pub complete_all :
    List (String × String) → List (String × Unit {0}) → List (String × Unit {0})
complete_all [] settled = settled
complete_all ((id, address) ∷ pending) settled =
    complete_all pending (Dict.insert address tt settled)

-- The template of a session that was never answered.
abbrev failed_template : Fields
failed_template = field "jsonrpc" (str "2.0") (
    field "error"
      (obj (
        field "code" (int (negsuc 31999))
          (field "message" (str "shared backend initialization failed") end)))
      end)

abbrev pub fail_session : Bool → Option Fields → Backend → Backend
fail_session true none b = record b {
  initialize_template = some failed_template;
  initialize_pending = false;
  initialize_event = true;
}
fail_session pending template b = b

-- `_fail_all_pending`
unfoldable pub fail_all_pending : Step
fail_all_pending = modify λ b. fail_session b.initialize_pending b.initialize_template (record b {
  settled = complete_all b.pending_by_backend_id b.settled;
  pending_by_backend_id = [];
  pending_by_client_id = [];
  request_queue = Queue.clear b.request_queue;
  progress_tokens = [];
  server_requests = [];
})
