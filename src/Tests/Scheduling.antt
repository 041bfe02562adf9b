-- ===== src/Tests/Scheduling.antt =====
-- The shared queue at concrete inputs.
use win_wsl_mcp_bridge.Base.{String, ◌≡◌, refl, false, none, some, [], ◌∷◌}
use win_wsl_mcp_bridge.Base.Dict
use win_wsl_mcp_bridge.Json.{int, pos, end}
use win_wsl_mcp_bridge.Scheduling.Owners.{Owner}
use win_wsl_mcp_bridge.Scheduling.Queue.{
  RoutedRequest, Lane, SharedRequestQueue, new_queue, put_nowait, get, Refusal,
}
use win_wsl_mcp_bridge.Scheduling.Queue.Fairness.{fairness, nth_get}
use win_wsl_mcp_bridge.Scheduling.Queue.Fifo.{Put, put_nowait-appends, Got, get-takes}
use win_wsl_mcp_bridge.Scheduling.Queue.Runs.{Holds, Reach, here, next, put, queue-Holds}

abbrev asked_by : String → String → RoutedRequest
asked_by client id = record {
  backend_id = id;
  client_id = some client;
  original_id = int (pos 1);
  message = end;
  method = "tools/call";
  is_initialize = false;
  is_release = false;
  cancelled = false;
  progress_token = none;
  modern = false;
}

abbrev empty : SharedRequestQueue
empty = new_queue 256 16 67108864 33554432

abbrev one : SharedRequestQueue
one = (put_nowait (asked_by "a" "a:1") 100 empty).0

abbrev two : SharedRequestQueue
two = (put_nowait (asked_by "a" "a:2") 100 one).0

abbrev three : SharedRequestQueue
three = (put_nowait (asked_by "b" "b:1") 100 two).0

three-Reach : Reach empty three
unfolding Dict.lookup new_queue put_nowait win_wsl_mcp_bridge.Scheduling.Queue.refusal
    win_wsl_mcp_bridge.Scheduling.Owners.find win_wsl_mcp_bridge.Scheduling.Queue.enqueue
    Dict.insert win_wsl_mcp_bridge.Scheduling.Owners.store
    win_wsl_mcp_bridge.Scheduling.Owners.owner_eq
three-Reach =
    next
      (next (next here (put {q = empty} (asked_by "a" "a:1") 100 refl))
        (put {q = one} (asked_by "a" "a:2") 100 refl))
      (put {q = two} (asked_by "b" "b:1") 100 refl)

three-Holds : Holds three
three-Holds = queue-Holds 256 16 67108864 33554432 three three-Reach

queue-Holds_example : Holds three
queue-Holds_example = queue-Holds 256 16 67108864 33554432 three three-Reach

-- Client `b` is served second, before the second request of `a`.
fairness_example : nth_get 1 three ≡ some (asked_by "b" "b:1")
unfolding win_wsl_mcp_bridge.Scheduling.Owners.find put_nowait
    win_wsl_mcp_bridge.Scheduling.Queue.refusal new_queue
    win_wsl_mcp_bridge.Scheduling.Queue.enqueue win_wsl_mcp_bridge.Scheduling.Owners.store
    win_wsl_mcp_bridge.Scheduling.Owners.owner_eq Dict.insert
fairness_example =
    fairness
      ((some "a", ("a:1", (asked_by "a" "a:1", 100)) ∷ ("a:2", (asked_by "a" "a:2", 100)) ∷ [])
        ∷ [])
      [] (some "b") "b:1" (asked_by "b" "b:1", 100) [] three three-Holds.accounted refl refl

put_nowait-appends_example :
    Put (asked_by "b" "b:2") three (put_nowait (asked_by "b" "b:2") 100 three)
unfolding Dict.lookup put_nowait win_wsl_mcp_bridge.Scheduling.Queue.refusal new_queue
    win_wsl_mcp_bridge.Scheduling.Owners.find win_wsl_mcp_bridge.Scheduling.Queue.enqueue
    win_wsl_mcp_bridge.Scheduling.Owners.store win_wsl_mcp_bridge.Scheduling.Owners.owner_eq
    Dict.insert
put_nowait-appends_example =
    put_nowait-appends (asked_by "b" "b:2") 100 three three-Holds.accounted refl

get-takes_example : Got three (get three)
get-takes_example = get-takes three three-Holds.accounted
