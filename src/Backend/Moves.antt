-- ===== src/Backend/Moves.antt =====
-- `SharedBackend`: its steps. A step is what one task does between two of its waits. The waits of a single write, for
-- the peer to take what is buffered, are not counted: `_cancel_client_requests` is one step. The loops at the end of
-- `_wait_process` are one step where no other task runs in between, and a step for each of their rounds else.
use win_wsl_mcp_bridge.Base.{ℕ, String, Bool, Option, none, ◌≡◌}
use win_wsl_mcp_bridge.Base.Dict
use win_wsl_mcp_bridge.Json.{Fields}
use win_wsl_mcp_bridge.Backend.State.{Backend, Wire, new_backend}
use win_wsl_mcp_bridge.Backend.Requests.{next_backend_id, request_worker, worker_done}
use win_wsl_mcp_bridge.Backend.Serving.{route_backend_message}
use win_wsl_mcp_bridge.Backend.Departure.{detach, detach_waited, detach_cleaned, clean_up}
use win_wsl_mcp_bridge.Backend.Eras.{Later}
use win_wsl_mcp_bridge.Backend.Clients.{route_client_message, resume}
use win_wsl_mcp_bridge.Backend.Lifecycle.{
  attach, start_failed, start_generation, stop, stop_failed_generation, stop_if_unused,
  generation_stopped, broadcast_tools_list_changed, begin_restart, open_gate, replace_generation,
  initialize_replacement, replacement_initialized,
}
use win_wsl_mcp_bridge.Backend.Exit.{
  notice_exit, lose_generation, lose_request, drop_incomplete, end_generation, give_up, forgive,
  recovery_round, end_input,
}

-- What `uuid4` made names no request that there was.
abbrev pub IsNew : String → Backend → Type 0
IsNew uuid b =
    (owner : Option String)
    → Dict.lookup (next_backend_id b.generation owner uuid) b.requests ≡ none

module _ (w : Wire) where
  pub data Move : Backend → Backend → Type 0 where
    from_client :
        (b : Backend) (client : String) (message : Fields) (hex uuid progress : String)
        → IsNew uuid b
        → Move b (route_client_message w client message hex uuid progress b).1
    goes_on :
        (b : Backend) (later : Later) (timed_out : Bool) (uuid progress : String)
        → IsNew uuid b
        → Move b (resume w later timed_out uuid progress b).1
    from_backend :
        (b : Backend) (message : Fields) (uuid : String)
        → IsNew uuid b
        → Move b (route_backend_message w message uuid b).1
    works : (b : Backend) (generation : ℕ) → Move b (request_worker w generation b).1
    has_worked : (b : Backend) → Move b (worker_done w b).1
    attaches :
        (b : Backend) (armed present : Bool) (client : String)
        → Move b (attach armed present client b).1
    ends_input : (b : Backend) (client : String) → Move b (end_input client b).1
    leaves :
        (b : Backend) (client hex uuid progress : String)
        → IsNew uuid b
        → Move b (detach w client hex uuid progress b).1
    has_waited :
        (b : Backend) (timed_out : Bool) (client hex uuid progress : String)
        → IsNew uuid b
        → Move b (detach_waited w timed_out client hex uuid progress b).1
    cleans :
        (b : Backend) (client hex uuid progress : String)
        → IsNew uuid b
        → Move b (clean_up w client hex uuid progress b).1
    has_cleaned : (b : Backend) (timed_out : Bool) → Move b (detach_cleaned w timed_out b).1
    starts : (b : Backend) (generation : ℕ) → Move b (start_generation generation b).1
    fails_to_start : (b : Backend) (generation : ℕ) → Move b (start_failed generation b).1
    stops : (b : Backend) → Move b (stop b).1
    stops_failed : (b : Backend) (generation : ℕ) → Move b (stop_failed_generation generation b).1
    stops_unused : (b : Backend) → Move b (stop_if_unused b).1
    has_stopped : (b : Backend) (generation : ℕ) → Move b (generation_stopped generation b).1
    announces : (b : Backend) → Move b (broadcast_tools_list_changed w b).1
    restarts : (b : Backend) → Move b (begin_restart b).1
    has_restarted : (b : Backend) → Move b (open_gate b).1
    replaces :
        (b : Backend) (old : ℕ) (process_config : Fields)
        → Move b (replace_generation old process_config b).1
    initializes :
        (b : Backend) (id uuid progress : String)
        → IsNew uuid b
        → Move b (initialize_replacement w id uuid progress b).1
    has_initialized : (b : Backend) → Move b (replacement_initialized w b).1
    exits : (b : Backend) (generation : ℕ) → Move b (notice_exit generation b).1
    loses : (b : Backend) (generation : ℕ) → Move b (lose_generation generation b).1
    tells_loss :
        (b : Backend) (generation : ℕ) (id : String) → Move b (lose_request generation id b).1
    drops : (b : Backend) (id : String) → Move b (drop_incomplete id b).1
    ends : (b : Backend) (generation : ℕ) → Move b (end_generation generation b).1
    gives_up : (b : Backend) → Move b (give_up b).1
    forgives : (b : Backend) (long : Bool) → Move b (forgive long b).1
    recovers :
        (b : Backend) (armed : Bool) (attempt : ℕ) (process_config : Fields)
        → Move b (recovery_round armed attempt process_config b).1

  -- The states that a new backend comes to.
  pub data Reached (process_config : Fields) : Backend → Type 0 where
    created : Reached process_config (new_backend process_config)
    moved : (b c : Backend) → Reached process_config b → Move b c → Reached process_config c
