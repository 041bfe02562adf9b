-- ===== src/Scheduling/Queue.antt =====
-- bridge_runtime.py: `SharedRequestQueue`, the bounded lanes of a shared backend with round-robin
-- dispatch.
pub mod Accounts
pub mod Put
pub mod Discard
pub mod Get
pub mod Fairness
pub mod Fifo
pub mod Limits
pub mod DiscardLimits
pub mod Runs
use win_wsl_mcp_bridge.Base.{
  ℕ, ◌+◌, ◌-◌, ◌*◌, String, Bool, true, false, Option, none, some, List, [], ◌∷◌, ◌++◌, length, ltb,
  leb, if◌then◌else◌,
}
use win_wsl_mcp_bridge.Base.Dict
use win_wsl_mcp_bridge.Json.{Json, Fields}
use win_wsl_mcp_bridge.Scheduling.Owners.{Owner, find, store, delete, move_to_end}

-- `RoutedRequest` but for the future that its answer completes.
pub record RoutedRequest : Type 0 where
  pub backend_id : String
  pub client_id : Option String
  pub original_id : Json
  pub message : Fields
  pub method : String
  pub is_initialize : Bool
  pub is_release : Bool
  pub cancelled : Bool
  pub progress_token : Option (String × Json)
  pub modern : Bool

abbrev pub max_shared_jsonrpc_bytes : ℕ
max_shared_jsonrpc_bytes = 16 * 1024 * 1024

abbrev pub max_shared_queued_requests : ℕ
max_shared_queued_requests = 256

abbrev pub max_shared_client_queued_requests : ℕ
max_shared_client_queued_requests = 16

abbrev pub max_shared_queued_bytes : ℕ
max_shared_queued_bytes = 64 * 1024 * 1024

abbrev pub max_shared_client_queued_bytes : ℕ
max_shared_client_queued_bytes = 32 * 1024 * 1024

abbrev pub max_shared_internal_queued_requests : ℕ
max_shared_internal_queued_requests = 4

-- A lane: the backend ids in order of arrival, each with its request and size.
abbrev pub Lane : Type 0
Lane = List (String × (RoutedRequest × ℕ))

-- The limits, and what the queue holds. `ready` is the state of the event.
pub record SharedRequestQueue : Type 0 where
  pub max_requests : ℕ
  pub max_client_requests : ℕ
  pub max_bytes : ℕ
  pub max_client_bytes : ℕ
  pub lanes : List (Owner × Lane)
  pub owners : List (String × Owner)
  pub lane_bytes : List (Owner × ℕ)
  pub queued_bytes : ℕ
  pub ready : Bool

unfoldable pub new_queue : ℕ → ℕ → ℕ → ℕ → SharedRequestQueue
new_queue max_requests max_client_requests max_bytes max_client_bytes = record {
  max_requests = max_requests;
  max_client_requests = max_client_requests;
  max_bytes = max_bytes;
  max_client_bytes = max_client_bytes;
  lanes = [];
  owners = [];
  lane_bytes = [];
  queued_bytes = 0;
  ready = false;
}

pub data Refusal : Type 0 where
  request_size_limit internal_request_limit internal_byte_limit : Refusal
  client_request_limit client_byte_limit backend_request_limit backend_byte_limit : Refusal

abbrev pub qsize : SharedRequestQueue → ℕ
qsize q = length q.owners

-- `self.lanes.get(owner, {})` and `self.lane_bytes.get(owner, 0)`
abbrev pub or_empty : Option Lane → Lane
or_empty none = []
or_empty (some lane) = lane

abbrev pub or_zero : Option ℕ → ℕ
or_zero none = 0
or_zero (some n) = n

abbrev pub owner_of : RoutedRequest → Owner
owner_of pending = if pending.is_initialize then none else pending.client_id

-- The limits, in the order of the tests. The first that fails is returned.
unfoldable pub refusal : Owner → ℕ → ℕ → ℕ → SharedRequestQueue → Option Refusal
refusal none size count bytes q =
    if ltb max_shared_jsonrpc_bytes size
    then some request_size_limit
    else if leb max_shared_internal_queued_requests count
    then some internal_request_limit
    else if ltb max_shared_jsonrpc_bytes (bytes + size)
    then some internal_byte_limit
    else none
refusal (some client) size count bytes q =
    if ltb max_shared_jsonrpc_bytes size
    then some request_size_limit
    else if leb q.max_client_requests count
    then some client_request_limit
    else if ltb q.max_client_bytes (bytes + size)
    then some client_byte_limit
    else if leb q.max_requests (qsize q)
    then some backend_request_limit
    else if ltb q.max_bytes (q.queued_bytes + size)
    then some backend_byte_limit
    else none

unfoldable pub enqueue : Owner → RoutedRequest → ℕ → SharedRequestQueue → SharedRequestQueue
enqueue owner pending size q = record q {
  lanes =
      store owner (Dict.insert pending.backend_id (pending, size) (or_empty (find owner q.lanes)))
        q.lanes;
  owners = Dict.insert pending.backend_id owner q.owners;
  lane_bytes = store owner (or_zero (find owner q.lane_bytes) + size) q.lane_bytes;
  queued_bytes = q.queued_bytes + size;
  ready = true;
}

unfoldable pub admit :
    Option Refusal
    → Owner
    → RoutedRequest
    → ℕ
    → SharedRequestQueue
    → SharedRequestQueue × Option Refusal
admit (some reason) owner pending size q = (q, some reason)
admit none owner pending size q = (enqueue owner pending size q, none)

unfoldable pub put_nowait :
    RoutedRequest → ℕ → SharedRequestQueue → SharedRequestQueue × Option Refusal
unfolding admit
put_nowait pending size q =
    let owner = owner_of pending in
    let lane = or_empty (find owner q.lanes) in
    admit (refusal owner size (length lane) (or_zero (find owner q.lane_bytes)) q) owner pending
      size q

abbrev pub no_lanes {ℓ} : {A : Type ℓ} → List A → Bool
no_lanes [] = true
no_lanes (x ∷ xs) = false

-- `if not self.lanes: self.ready.clear()`
unfoldable pub settle_ready : SharedRequestQueue → SharedRequestQueue
settle_ready q = if no_lanes q.lanes then record q { ready = false } else q

-- The lane without the request, or no lane where that was its last.
unfoldable pub shrink : Owner → Lane → ℕ → SharedRequestQueue → SharedRequestQueue
shrink owner [] size q = record q {
  lanes = delete owner q.lanes;
  lane_bytes = delete owner q.lane_bytes;
}
shrink owner (entry ∷ lane) size q = record q {
  lanes = store owner (entry ∷ lane) q.lanes;
  lane_bytes = store owner (or_zero (find owner q.lane_bytes) - size) q.lane_bytes;
}

-- The size of a request in its lane. The source finds it there (`IsAccounted`).
abbrev pub size_in : String → Lane → ℕ
size_in id lane = elim (Dict.lookup id lane) [ none ↦ 0 | some entry ↦ entry.1 ]

unfoldable pub discard_from : Owner → String → SharedRequestQueue → SharedRequestQueue
unfolding shrink settle_ready
discard_from owner id q =
    let lane = or_empty (find owner q.lanes) in
    let size = size_in id lane in
    settle_ready (
      shrink owner (Dict.remove id lane) size
        (record q { owners = Dict.remove id q.owners; queued_bytes = q.queued_bytes - size }))

unfoldable pub discard_at : Option Owner → String → SharedRequestQueue → SharedRequestQueue
discard_at none id q = q
discard_at (some owner) id q = discard_from owner id q

unfoldable pub discard : RoutedRequest → SharedRequestQueue → SharedRequestQueue
unfolding discard_at
discard pending q = discard_at (Dict.lookup pending.backend_id q.owners) pending.backend_id q

-- `None if None in self.lanes else next(iter(self.lanes))`
unfoldable pub next_owner : List (Owner × Lane) → Option Owner
next_owner [] = none
next_owner ((owner, lane) ∷ lanes) = elim (find none ((owner, lane) ∷ lanes)) [
  | none ↦ some owner
  | some internal ↦ some none
]

unfoldable pub rotate : Owner → SharedRequestQueue → SharedRequestQueue
rotate owner q = record q { lanes = move_to_end owner q.lanes }

-- `get`, where `none` waits for `ready`. `move_to_end` of an owner that is gone changes nothing.
unfoldable pub take_from :
    Owner → Lane → SharedRequestQueue → Option (SharedRequestQueue × RoutedRequest)
take_from owner [] q = none
take_from owner ((id, entry) ∷ lane) q = some (rotate owner (discard entry.0 q), entry.0)

unfoldable pub take_next :
    Option Owner → SharedRequestQueue → Option (SharedRequestQueue × RoutedRequest)
unfolding take_from
take_next none q = none
take_next (some owner) q = take_from owner (or_empty (find owner q.lanes)) q

unfoldable pub get : SharedRequestQueue → Option (SharedRequestQueue × RoutedRequest)
unfolding next_owner take_next rotate
get q = take_next (next_owner q.lanes) q

unfoldable pub clear : SharedRequestQueue → SharedRequestQueue
clear q = record q { lanes = []; owners = []; lane_bytes = []; queued_bytes = 0; ready = false }
