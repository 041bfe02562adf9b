-- ===== src/Tests/Backend.antt =====
-- `SharedBackend` at concrete inputs.
use win_wsl_mcp_bridge.Base.{
  ◌==◌, ◌≡◌, refl, String, Bool, true, false, none, some, [], ◌∷◌, text_eq, arith,
}
use win_wsl_mcp_bridge.Base.Dict
use win_wsl_mcp_bridge.Base.Pairs
use win_wsl_mcp_bridge.Json.{
  Json, str, obj, arr, cons, nil, Fields, end, field, get, get_or_null, put, has,
}
use win_wsl_mcp_bridge.Protocol.Modern.{protocol_version_entry}
use win_wsl_mcp_bridge.Scheduling.Queue.{RoutedRequest}
use win_wsl_mcp_bridge.Backend.State.{
  Backend, Client, running, Wire, new_backend, to_client, error_reply, unknown_response_id,
}
use win_wsl_mcp_bridge.Backend.Task.{ok, err, modify, reads, pure, ◌>>=◌}
use win_wsl_mcp_bridge.Backend.Requests.{valid_rpc_id, typed_id}
use win_wsl_mcp_bridge.Backend.Responses.{route_backend_response, text_of_id, shape_legacy}
use win_wsl_mcp_bridge.Backend.Serving.{route_backend_message}
use win_wsl_mcp_bridge.Backend.Policy.{apply_lease_policy}
use win_wsl_mcp_bridge.Backend.Clients.{route_client_message}
use win_wsl_mcp_bridge.Backend.Lifecycle.{attach, admit, start_next, start_generation}
use win_wsl_mcp_bridge.Backend.Exit.{lose_generation, lost_error}
use win_wsl_mcp_bridge.Backend.Moves.{created, moved, attaches, starts, from_client}
use win_wsl_mcp_bridge.Backend.Tables.{IsRouted}
use win_wsl_mcp_bridge.Backend.Tables.Tracked.{empty_Agree, tracked}
use win_wsl_mcp_bridge.Backend.Routed.Runs.{Reached-IsRouted}
use win_wsl_mcp_bridge.Backend.Delivery.{IsSettled, route_backend_response-IsDelivered}
use win_wsl_mcp_bridge.Backend.Gates.{
  IsAsked, IsRefused, IsLeft, reported, progress-IsForAsker, sessionless-IsRefused,
  apply_lease_policy-IsExclusive,
}
use win_wsl_mcp_bridge.Backend.Lost.{IsAmong, IsIdle, lose_generation-IsTold}
use win_wsl_mcp_bridge.Backend.Recovery.{
  Course, IsOver, recover_after_exit, recover_after_exit-IsOver,
}

abbrev texts : Json → String
texts (str s) = s
texts _ = "other"

abbrev wire : Wire
wire = record {
  dumps = texts;
  compact = texts;
  size = λ m. 10;
  fnmatchcase = λ name pattern'. text_eq name pattern';
  strip = λ s. s;
  is_date = λ s. true;
  describe = λ fault. "fault";
  explain = λ reason. "reason";
  server_version = "1";
  generation_in = λ s. none;
}

abbrev session : Client
session = record { input_eof = false; protocol_version = some "2025-06-18"; capabilities = end }

abbrev newcomer : Client
newcomer = record { input_eof = false; protocol_version = none; capabilities = end }

abbrev request : RoutedRequest
request = record {
  backend_id = "bridge:1:a:u";
  client_id = some "a";
  original_id = str "7";
  message = field "id" (str "bridge:1:a:u") (field "method" (str "tools/call") end);
  method = "tools/call";
  is_initialize = false;
  is_release = false;
  cancelled = false;
  progress_token = some ("bridge-progress:1:a:v", str "mine");
  modern = false;
}

-- Client `a` waits for one answer, and client `b` has no session.
abbrev waiting : Backend
waiting = record (new_backend end) {
  state = running;
  clients = ("a", session) ∷ ("b", newcomer) ∷ [];
  requests = ("bridge:1:a:u", request) ∷ [];
  pending_by_backend_id = ("bridge:1:a:u", "bridge:1:a:u") ∷ [];
  pending_by_client_id = (("a", "str:7"), "bridge:1:a:u") ∷ [];
  progress_tokens = ("bridge-progress:1:a:v", ("a", str "mine")) ∷ [];
  lease_owner = some "a";
  process_config =
      field "clientLease" (obj (field "toolPatterns" (arr (cons (str "take") nil)) end)) end;
}

waiting-IsRouted : IsRouted wire waiting
unfolding new_backend Dict.lookup Dict.insert Pairs.find Pairs.store typed_id
waiting-IsRouted = tracked wire (empty_Agree wire) request refl refl

abbrev answer : Fields
answer = field "id" (str "bridge:1:a:u") (field "result" (obj end) end)

route_backend_response-IsDelivered_example :
    ((route_backend_response wire answer waiting).0 ≡ ok tt)
    × ((route_backend_response wire answer waiting).1.sent
        ≡ to_client "a" (
            shape_legacy wire
              (some "2025-06-18")
              "tools/call"
              (str "7")
              (put "id" (str "7") answer))
          ∷ [])
    × IsSettled wire request "a" (route_backend_response wire answer waiting).1
    × ((route_backend_response wire answer (route_backend_response wire answer waiting).1).0
        ≡ err unknown_response_id)
unfolding new_backend Dict.lookup text_of_id get_or_null get
route_backend_response-IsDelivered_example =
    route_backend_response-IsDelivered wire waiting "a" session request answer waiting-IsRouted refl
      refl refl refl refl refl refl refl

abbrev progress : Fields
progress =
    field "method" (str "notifications/progress")
      (field "params" (obj (field "progressToken" (str "bridge-progress:1:a:v") end)) end)

abbrev progress_params : Fields
progress_params = field "progressToken" (str "bridge-progress:1:a:v") end

progress-IsForAsker_example :
    (route_backend_message wire progress "u" waiting ≡ (
      ok tt,
      record waiting { sent = reported wire "a" (str "mine") progress_params progress ∷ [] },
    ))
    × IsAsked wire waiting "a" (str "mine") "bridge-progress:1:a:v"
unfolding new_backend Dict.lookup Dict.has text_of_id get_or_null get has
progress-IsForAsker_example =
    progress-IsForAsker wire waiting "a" (str "mine") progress_params progress "u" waiting-IsRouted
      refl refl refl refl refl

abbrev list_tools : Fields
list_tools = field "id" (str "1") (field "method" (str "tools/list") end)

sessionless-IsRefused_example :
    IsRefused wire waiting "b" list_tools
      (route_client_message wire "b" list_tools "h" "u" "v" waiting)
unfolding new_backend Dict.lookup get_or_null get has valid_rpc_id protocol_version_entry
sessionless-IsRefused_example =
    sessionless-IsRefused wire waiting newcomer "tools/list" "b" list_tools "h" "u" "v" refl refl
      refl refl refl refl refl

abbrev take : Fields
take =
    field "id" (str "2")
      (field "method" (str "tools/call") (field "params" (obj (field "name" (str "take") end)) end))

apply_lease_policy-IsExclusive_example :
    IsLeft wire waiting "b" take (apply_lease_policy wire "b" take false "u" "v" waiting)
unfolding new_backend Dict.has
apply_lease_policy-IsExclusive_example =
    apply_lease_policy-IsExclusive wire waiting "a" "b" take "u" "v" refl refl refl

lose_generation-IsTold_example :
    IsAmong
      (to_client "a" (error_reply (str "7") (lost_error 1)))
      (lose_generation 1 waiting).1.sent
    × IsIdle (lose_generation 1 waiting).1
unfolding new_backend Dict.lookup Dict.has
lose_generation-IsTold_example =
    lose_generation-IsTold 1 waiting "bridge:1:a:u" "a" request refl refl refl refl refl

-- No attempt starts the backend.
abbrev never : Backend → Bool × Backend
never b = (false, b)

-- The drain is armed before the last attempt.
abbrev course : Course
course = record {
  armed = λ n. n == 0;
  armed_later = λ n. false;
  process_config = λ n. end;
  sleep = λ b. b;
  start = never;
}

recover_after_exit-IsOver_example : IsOver course (recover_after_exit course 4 waiting)
recover_after_exit-IsOver_example =
    recover_after_exit-IsOver course 4 waiting (λ d. refl) (omega arith)

abbrev started : Backend
started = (start_generation 1 (attach false true "a" (new_backend end)).1).1

abbrev first : Backend
first = (attach false true "a" started).1

abbrev initialize : Fields
initialize = field "id" (str "1") (
    field "method" (str "initialize")
      (field "params" (obj (field "protocolVersion" (str "2025-06-18") end)) end))

Reached-IsRouted_example :
    IsRouted wire (route_client_message wire "a" initialize "h" "u" "v" first).1
unfolding attach admit start_next start_generation new_backend Dict.lookup Dict.insert reads modify
    ◌>>=◌ pure
Reached-IsRouted_example =
    Reached-IsRouted wire end (route_client_message wire "a" initialize "h" "u" "v" first).1 (
      moved first _
        (moved started _
          (moved (attach false true "a" (new_backend end)).1 _
            (moved (new_backend end) _ created (attaches (new_backend end) false true "a"))
            (starts (attach false true "a" (new_backend end)).1 1))
          (attaches started false true "a"))
        (from_client first "a" initialize "h" "u" "v" (λ owner. refl)))
