-- ===== src/Backend/Exit.antt =====
-- `SharedBackend`: how a generation of the backend exits, whom the exit tells, and the rounds of its recovery;
-- how the input of a client ends.
use win_wsl_mcp_bridge.Base.{
  ℕ, ◌+◌, String, Bool, true, false, not, ◌&&◌, ◌||◌, Option, none, some, List, [], ◌∷◌, ltb, ◌==◌,
  if◌then◌else◌,
}
use win_wsl_mcp_bridge.Base.Dict
use win_wsl_mcp_bridge.Json.{pos, negsuc, Json, str, int, boolean, Fields, end, field}
use win_wsl_mcp_bridge.Scheduling.Queue.{RoutedRequest}
use win_wsl_mcp_bridge.Backend.State.{
  Backend, Client, exited, stopping, closing, error_reply, error_with_data,
}
use win_wsl_mcp_bridge.Backend.Task.{Task, Step, pure, reads, modify, ◌>>=◌, ◌>>◌, each}
use win_wsl_mcp_bridge.Backend.Requests.{send_client_message, is_running}
use win_wsl_mcp_bridge.Backend.Responses.{finish_input_eof_if_idle}
use win_wsl_mcp_bridge.Backend.Departure.{fail_all_pending}
use win_wsl_mcp_bridge.Backend.Lifecycle.{
  is_starting, is_exited, is_stopping, refresh_entry_if_exited, start_next, open_gate,
}

-- `_wait_process` up to the killing of the process tree; a nested failure of a replacement is the caller's to
-- know.
unfoldable pub notice_exit : ℕ → Step
notice_exit generation = modify λ b.
    if b.generation == generation && (is_starting b.state || is_running b.state)
    then record b { restart_in_progress = true; state = stopping }
    else b

-- `_send_backend_lost_error`
abbrev pub lost_error : ℕ → Json
lost_error generation =
    error_with_data (negsuc 32000) "shared backend exited while the request was in flight" (
      field "code" (str "backend_generation_lost") (
        field "retryable" (boolean true)
          (field "outcomeUnknown" (boolean true) (field "generation" (int (pos generation)) end))))

unfoldable pub lost_to : Option String → Bool → Json → ℕ → Step
lost_to none is_initialize id generation = pure tt
lost_to (some client) true id generation = pure tt
lost_to (some client) false id generation =
    send_client_message client (error_reply id (lost_error generation))

unfoldable pub send_backend_lost_error : Option RoutedRequest → ℕ → Step
send_backend_lost_error none generation = pure tt
send_backend_lost_error (some pending) generation =
    lost_to pending.client_id pending.is_initialize pending.original_id generation

-- The pending requests, in the order in which they were made.
abbrev pub addresses : List (String × String) → List String
addresses [] = []
addresses ((id, address) ∷ pending) = address ∷ addresses pending

unfoldable pub lose_request : ℕ → String → Step
lose_request generation id = do
  pending ← reads (λ b. Dict.lookup id b.requests)
  send_backend_lost_error pending generation

-- The client of an initialize that is pending, if it is one.
abbrev incomplete : Option RoutedRequest → Option String
incomplete none = none
incomplete (some pending) = if pending.is_initialize then pending.client_id else none

-- Such a client is dropped and its stream is closed.
unfoldable pub drop_client_of : Option String → Step
drop_client_of none = pure tt
drop_client_of (some client) = modify λ b.
    if Dict.has client b.clients
    then record b { clients = Dict.pop client b.clients; sent = closing client ∷ b.sent }
    else b

unfoldable pub drop_incomplete : String → Step
drop_incomplete id = do
  client ← reads (λ b. incomplete (Dict.lookup id b.requests))
  drop_client_of client

abbrev pub ended : ℕ → Backend → Backend
ended generation b =
    if b.generation == generation && is_stopping b.state then record b { state = exited } else b

-- The end of the generation, when the clients were told.
unfoldable pub end_generation : ℕ → Step
end_generation generation = do
  fail_all_pending
  modify (λ b. record b { current_request = none })
  modify (λ b. record b { lease_owner = none })
  modify (ended generation)

-- `_wait_process` from there to the end of the generation, where no other task runs at its writes
unfoldable pub lose_generation : ℕ → Step
unfolding end_generation
lose_generation generation = do
  pending ← reads (λ b. addresses b.pending_by_backend_id)
  each (lose_request generation) pending
  each drop_incomplete pending
  end_generation generation

-- The clients that are left where the backend is not recovered.
unfoldable pub closings : List (String × Client) → List String
closings [] = []
closings ((id, client) ∷ clients) = id ∷ closings clients

unfoldable pub give_up : Step
give_up = do
  left ← reads (λ b. closings b.clients)
  modify (λ b. record b { clients = [] })
  each (λ client. modify (λ b. record b { sent = closing client ∷ b.sent })) left
  open_gate

-- What `_recover_after_exit` does next.
pub data Recovery : Type 0 where
  abandoned exhausted superseded retrying : Recovery
  due : ℕ → Recovery

abbrev pub recovery_max_attempts : ℕ
recovery_max_attempts = 3

abbrev pub may_recover : Bool → Backend → Bool
may_recover armed b =
    not (elim b.clients [ [] ↦ true | c ∷ cs ↦ false ])
    && (not b.drain_requested && (not armed && b.restart_in_progress))

-- `_recover_after_exit`: what is done to the count where the generation ran for long enough
unfoldable pub forgive : Bool → Step
forgive long = modify λ b. if long then record b { recovery_failures = 0 } else b

-- One round of its loop, up to its delay: the tests, and the number of the attempt. `armed` is the node's drain.
unfoldable pub recovery_due : Bool → Task Recovery
recovery_due armed = do
  failures ← reads (λ b. b.recovery_failures)
  wanted ← reads (may_recover armed)
  if not (ltb failures recovery_max_attempts)
      then pure exhausted
      else if not wanted
      then pure abandoned
      else pure (due (failures + 1))

-- The rest of the round, after the delay: the test is made again, and the attempt counts.
unfoldable pub recovery_round : Bool → ℕ → Fields → Task Recovery
recovery_round armed attempt process_config = do
  wanted ← reads (may_recover armed)
  down ← reads (λ b. is_exited b.state)
  if not wanted then pure abandoned else do
    modify (λ b. record b { recovery_failures = attempt })
    if not down
        then pure superseded
        else do refresh_entry_if_exited process_config; start_next; pure retrying

-- The end of an input: `None` from the stream's queue.
abbrev pub ending : Option Client → String → Backend → Backend
ending none client b = b
ending (some c) client b = record b {
  clients = Dict.insert client (record c { input_eof = true }) b.clients;
}

unfoldable pub end_input : String → Step
end_input client = do
  modify (λ b. ending (Dict.lookup client b.clients) client b)
  finish_input_eof_if_idle client
