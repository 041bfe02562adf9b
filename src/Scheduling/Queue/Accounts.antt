-- ===== src/Scheduling/Queue/Accounts.antt =====
-- `SharedRequestQueue`: its dictionaries and counters agree.
use win_wsl_mcp_bridge.Base.{ℕ, String, ◌≡◌, ◌≢◌, not, some, List, [], arith}
use win_wsl_mcp_bridge.Base.Dict
use win_wsl_mcp_bridge.Base.Dict.{
  lookup-insert, lookup-remove, insert-Unique, remove-Unique, sum-insert, sum-remove, length-sum,
}
use win_wsl_mcp_bridge.Scheduling.Owners.{Owner, find, Unique, sum, weight_at}
use win_wsl_mcp_bridge.Scheduling.Queue.{
  RoutedRequest, Lane, SharedRequestQueue, qsize, or_empty, or_zero, no_lanes,
}

-- The bytes of a lane, and its number of requests.
abbrev pub lane_size : Lane → ℕ
lane_size lane = Dict.sum (λ e. e.1) lane

abbrev pub lane_count : Lane → ℕ
lane_count lane = Dict.sum (λ e. 1) lane

pub record IsAccounted (q : SharedRequestQueue) : Type 0 where
  pub lanes_unique : Unique q.lanes
  pub bytes_unique : Unique q.lane_bytes
  pub owners_unique : Dict.Unique q.owners
  pub lane_bytes :
      (o : Owner) → or_zero (find o q.lane_bytes) ≡ lane_size (or_empty (find o q.lanes))
  pub bytes : q.queued_bytes ≡ sum lane_size q.lanes
  pub count : qsize q ≡ sum lane_count q.lanes
  pub ids_unique : (o : Owner) → Dict.Unique (or_empty (find o q.lanes))
  pub owned :
      (id : String) (o : Owner)
      → Dict.lookup id q.owners ≡ some o
      → (e : RoutedRequest × ℕ) × (Dict.lookup id (or_empty (find o q.lanes)) ≡ some e)
  pub homed :
      (id : String) (o : Owner) (e : RoutedRequest × ℕ)
      → Dict.lookup id (or_empty (find o q.lanes)) ≡ some e
      → (Dict.lookup id q.owners ≡ some o) × (e.0.backend_id ≡ id)
  pub busy : (o : Owner) → find o q.lanes ≢ some []

-- The event is set when a lane is there.
abbrev pub IsWoken : SharedRequestQueue → Type 0
IsWoken q = q.ready ≡ not (no_lanes q.lanes)

pub weight-or_empty :
    (w : RoutedRequest × ℕ → ℕ) (o : Owner) (lanes : List (Owner × Lane))
    → weight_at (Dict.sum w) (find o lanes) ≡ Dict.sum w (or_empty (find o lanes))
weight-or_empty w o lanes = ground arith
