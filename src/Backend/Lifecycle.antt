-- ===== src/Backend/Lifecycle.antt =====
-- `SharedBackend`: how a generation of the backend starts, stops and is replaced, and which clients it keeps.
-- Each method is cut at its waits.
use win_wsl_mcp_bridge.Base.{
  ℕ, ◌+◌, String, Bool, true, false, not, ◌&&◌, ◌||◌, Option, none, some, List, [], ◌∷◌, text_eq,
  ◌==◌, if◌then◌else◌,
}
use win_wsl_mcp_bridge.Base.Dict
use win_wsl_mcp_bridge.Json.{str, obj, Fields, end, field, get_or_null, as_str, has}
use win_wsl_mcp_bridge.Scheduling.Queue.{
  new_queue, max_shared_queued_requests, max_shared_client_queued_requests, max_shared_queued_bytes,
  max_shared_client_queued_bytes,
}
use win_wsl_mcp_bridge.Backend.State.{
  Backend, Client, Lifecycle, exited, starting, running, stopping, Wire, draining, stream_closed,
  one_client, generation_changed, replacement_failed, restart_in_progress_fault, active_requests,
  backend_not_initialized, changed_during_restart,
}
use win_wsl_mcp_bridge.Backend.Task.{Task, Step, pure, raise, reads, modify, ◌>>=◌, ◌>>◌}
use win_wsl_mcp_bridge.Backend.Requests.{enqueue_request, write_message, is_running}
use win_wsl_mcp_bridge.Backend.Serving.{broadcast}
use win_wsl_mcp_bridge.Backend.Session.{shared_backend_request_protocol_version}
use win_wsl_mcp_bridge.Backend.Eras.{client_info}
use win_wsl_mcp_bridge.Backend.Departure.{fail_all_pending}

-- What a client that attaches is to wait for.
pub data Attached : Type 0 where
  attached wait_for_restart wait_for_start wait_for_stop : Attached

abbrev is_one_to_one : Fields → List (String × Client) → Bool
is_one_to_one process_config [] = false
is_one_to_one process_config (c ∷ cs) = elim (as_str (get_or_null "concurrency" process_config)) [
  | none ↦ false
  | some concurrency ↦ text_eq concurrency "one-to-one"
]

abbrev pub new_client : Client
new_client = record { input_eof = false; protocol_version = none; capabilities = end }

-- `self.generation += 1; self._transition("starting")`
unfoldable pub start_next : Step
start_next = modify λ b. record b { generation = b.generation + 1; state = starting }

unfoldable pub admit : Lifecycle → String → Task Attached
admit running client = do
  modify (λ b. record b { clients = Dict.insert client new_client b.clients })
  pure attached
admit starting client = pure wait_for_start
admit stopping client = pure wait_for_stop
admit exited client = do
  modify (λ b. record b { recovery_failures = 0 })
  start_next
  pure wait_for_start

-- One round of `attach`. `armed` says whether the node's drain is armed for the target, `present` whether the
-- node has the stream and it is not closed.
unfoldable pub attach : Bool → Bool → String → Task Attached
attach armed present client = do
  drain ← reads (λ b. b.drain_requested || armed)
  owned ← reads (λ b. is_one_to_one b.process_config b.clients)
  restarting ← reads (λ b. b.restart_in_progress)
  state ← reads (λ b. b.state)
  if drain
      then raise draining
      else if not present
      then raise stream_closed
      else if owned
      then raise one_client
      else if restarting
      then pure wait_for_restart
      else admit state client

abbrev pub is_starting : Lifecycle → Bool
is_starting starting = true
is_starting _ = false

abbrev pub is_exited : Lifecycle → Bool
is_exited exited = true
is_exited _ = false

abbrev pub is_stopping : Lifecycle → Bool
is_stopping stopping = true
is_stopping _ = false

-- `_start_generation` where the process was not made
unfoldable pub start_failed : ℕ → Step
start_failed generation = modify λ b.
    if b.generation == generation && is_starting b.state then record b { state = exited } else b

abbrev renewed : Backend → Backend
renewed b = record b {
  request_queue =
      new_queue max_shared_queued_requests max_shared_client_queued_requests max_shared_queued_bytes
        max_shared_client_queued_bytes;
  pending_by_backend_id = [];
  pending_by_client_id = [];
  progress_tokens = [];
  server_requests = [];
  current_request = none;
  initialize_template = none;
  initialize_pending = false;
  initialize_event = false;
  initialized_forwarded = false;
  backend_negotiated_version = none;
  backend_server_info = none;
  lease_owner = none;
  state = running;
}

-- `_start_generation` where it was
unfoldable pub start_generation : ℕ → Step
start_generation generation = do
  ours ← reads (λ b. b.generation == generation && is_starting b.state)
  if ours then modify renewed else raise generation_changed

-- `stop` and `_stop_failed_generation`: a running generation begins to stop.
unfoldable pub stop : Step
stop = modify λ b. if is_running b.state then record b { state = stopping } else b

unfoldable pub stop_failed_generation : ℕ → Step
stop_failed_generation generation = modify λ b.
    if b.generation == generation && is_running b.state then record b { state = stopping } else b

-- `_stop_if_unused`
unfoldable pub stop_if_unused : Step
stop_if_unused = modify λ b. elim b.clients [
  | c ∷ cs ↦ b
  | [] ↦ if is_running b.state then record b { state = stopping } else b
]

-- The end of `_stop_generation`. The worker that is cancelled leaves no current request.
unfoldable pub generation_stopped : ℕ → Step
generation_stopped generation = do
  modify (λ b. record b { current_request = none })
  fail_all_pending
  modify (λ b. record b { lease_owner = none })
  modify (λ b. if b.generation == generation then record b { state = exited } else b)

-- `broadcast_tools_list_changed`
abbrev tools_list_changed : Fields
tools_list_changed =
    field "jsonrpc" (str "2.0")
      (field "method" (str "notifications/tools/list_changed") (field "params" (obj end) end))

unfoldable pub broadcast_tools_list_changed : Wire → Step
broadcast_tools_list_changed w = broadcast w tools_list_changed

abbrev is_none : {A : Type 0} → Option A → Bool
is_none none = true
is_none (some a) = false

abbrev is_idle : Backend → Bool
is_idle b = is_none b.current_request && elim b.pending_by_backend_id [ [] ↦ true | e ∷ es ↦ false ]

-- `restart_preserving_clients`, up to the release of the lease
unfoldable pub begin_restart : Step
begin_restart = do
  restarting ← reads (λ b. b.restart_in_progress)
  idle ← reads is_idle
  unknown ← reads (λ b. is_none b.initialize_template)
  if restarting
      then raise restart_in_progress_fault
      else if not idle
      then raise active_requests
      else if unknown
      then raise backend_not_initialized
      else modify (λ b. record b { restart_in_progress = true })

-- Its gate opens: `self.restart_in_progress = False; self.restart_ready.set()`
unfoldable pub open_gate : Step
open_gate = modify λ b. record b { restart_in_progress = false }

-- `refresh_entry_if_exited`
unfoldable pub refresh_entry_if_exited : Fields → Step
refresh_entry_if_exited process_config =
    modify λ b. if is_exited b.state then record b { process_config = process_config } else b

-- What follows the stop of the old generation: `true` where a new one is starting, `false` where no client is
-- left.
unfoldable pub replace_generation : ℕ → Fields → Task Bool
replace_generation old process_config = do
  changed ← reads (λ b. not (is_exited b.state && b.generation == old))
  unused ← reads (λ b. elim b.clients [ [] ↦ true | c ∷ cs ↦ false ])
  if changed
      then raise changed_during_restart
      else if unused
      then pure false
      else do refresh_entry_if_exited process_config; start_next; pure true

module _ (w : Wire) where
  -- The bridge's own initialize for a generation that replaces another.
  abbrev replacement_initialize : String → Fields
  replacement_initialize id = field "jsonrpc" (str "2.0") (
      field "id" (str id) (
        field "method" (str "initialize") (
          field "params"
            (obj (
              field "protocolVersion" (str shared_backend_request_protocol_version) (
                field "capabilities" (obj end)
                  (field "clientInfo" (obj (client_info w.server_version)) end))))
            end)))

  -- `_initialize_replacement_generation`, up to its wait
  unfoldable pub initialize_replacement : String → String → String → Step
  initialize_replacement id uuid progress_uuid = do
    modify (λ b. record b { initialize_pending = true })
    enqueue_request w none (replacement_initialize id)
        (record { is_initialize = true; is_release = false; modern = false }) uuid progress_uuid
    pure tt

  abbrev is_unusable : Option Fields → Bool
  is_unusable none = true
  is_unusable (some template) = has "error" template

  abbrev initialized_notice : Fields
  initialized_notice =
      field "jsonrpc" (str "2.0")
        (field "method" (str "notifications/initialized") (field "params" (obj end) end))

  -- The rest of it.
  unfoldable pub replacement_initialized : Step
  replacement_initialized = do
    failed ← reads (λ b. is_unusable b.initialize_template)
    if failed then raise replacement_failed else do
      write_message w initialized_notice
      modify (λ b. record b { initialized_forwarded = true })
