-- ===== src/Scheduling/Queue/Limits.antt =====
-- `SharedRequestQueue`: its limits hold.
use win_wsl_mcp_bridge.Base.{
  ℕ, suc, ◌+◌, ◌≤◌, ◌<◌, String, ◌≡◌, refl, ap, Option, none, some, [], ◌∷◌, length, arith, eq_iff,
  if◌then◌else◌,
}
use win_wsl_mcp_bridge.Base.Dict
use win_wsl_mcp_bridge.Base.Dict.{
  lookup-insert, lookup-remove, insert-Unique, remove-Unique, sum-insert, sum-remove, length-sum,
}
use win_wsl_mcp_bridge.Scheduling.Owners.{Owner, owner_eq, owner_eq_iff, find}
use win_wsl_mcp_bridge.Scheduling.Queue.{
  RoutedRequest, Lane, SharedRequestQueue, qsize, or_empty, or_zero, owner_of, refusal, enqueue,
  admit, put_nowait, Refusal, max_shared_jsonrpc_bytes, max_shared_internal_queued_requests,
}
use win_wsl_mcp_bridge.Scheduling.Queue.Accounts.{IsAccounted, lane_size}
use win_wsl_mcp_bridge.Scheduling.Queue.Put.{find-grown, size_grown, absent}

abbrev pub count_of : Owner → SharedRequestQueue → ℕ
count_of o q = length (or_empty (find o q.lanes))

abbrev pub bytes_of : Owner → SharedRequestQueue → ℕ
bytes_of o q = lane_size (or_empty (find o q.lanes))

-- The limits of a client, of the bridge itself, and of the whole queue, to which the requests of the
-- bridge itself come on top.
pub record IsWithin (q : SharedRequestQueue) : Type 0 where
  pub client_count : (c : String) → count_of (some c) q ≤ q.max_client_requests
  pub client_bytes : (c : String) → bytes_of (some c) q ≤ q.max_client_bytes
  pub internal_count : count_of none q ≤ max_shared_internal_queued_requests
  pub internal_bytes : bytes_of none q ≤ max_shared_jsonrpc_bytes
  pub total_count : qsize q ≤ q.max_requests + count_of none q
  pub total_bytes : q.queued_bytes ≤ q.max_bytes + bytes_of none q

length-insert :
    (k : String) (e : RoutedRequest × ℕ) (lane : Lane)
    → Dict.lookup k lane ≡ none
    → length (Dict.insert k e lane) ≡ length lane + 1
unfolding Dict.lookup Dict.insert
length-insert k e [] h = refl
length-insert k e ((j, x) ∷ lane) h = ground (arith, length-insert k e lane)

allowed_internal :
    (size count bytes : ℕ) (q : SharedRequestQueue)
    → refusal none size count bytes q ≡ none
    → (count < max_shared_internal_queued_requests) × (bytes + size ≤ max_shared_jsonrpc_bytes)
unfolding refusal
allowed_internal size count bytes q h = ground arith

allowed_client :
    (c : String) (size count bytes : ℕ) (q : SharedRequestQueue)
    → refusal (some c) size count bytes q ≡ none
    → (count < q.max_client_requests)
      × (bytes + size ≤ q.max_client_bytes)
      × (qsize q < q.max_requests)
      × (q.queued_bytes + size ≤ q.max_bytes)
unfolding refusal
allowed_client c size count bytes q h = ground arith

module _ (owner : Owner) (pending : RoutedRequest) (size : ℕ) (q : SharedRequestQueue)
    (v : IsAccounted q) (fresh : Dict.lookup pending.backend_id q.owners ≡ none) where
  enqueue_count :
      (o : Owner)
      → count_of o (enqueue owner pending size q)
        ≡ (if owner_eq owner o then suc (count_of o q) else count_of o q)
  unfolding enqueue
  enqueue_count o = ground (
    arith,
    find-grown owner pending size q v fresh o,
    owner_eq_iff owner o,
    length-insert pending.backend_id (pending, size) (or_empty (find owner q.lanes))
        (absent owner pending size q v fresh owner),
  )

  enqueue_bytes :
      (o : Owner)
      → bytes_of o (enqueue owner pending size q)
        ≡ (if owner_eq owner o then bytes_of o q + size else bytes_of o q)
  unfolding enqueue
  enqueue_bytes o = ground (
    arith,
    find-grown owner pending size q v fresh o,
    owner_eq_iff owner o,
    size_grown owner pending size q v fresh (λ e. e.1),
  )

  qsize-enqueue : qsize (enqueue owner pending size q) ≡ suc (qsize q)
  unfolding enqueue
  qsize-enqueue = omega (
    arith,
    length-sum q.owners,
    length-sum (Dict.insert pending.backend_id owner q.owners),
    sum-insert (λ o. 1) pending.backend_id owner q.owners,
    ap (Dict.weight_at (λ o. 1)) fresh,
  )

module _ (pending : RoutedRequest) (size : ℕ) (q : SharedRequestQueue) (v : IsAccounted q)
    (w : IsWithin q) (fresh : Dict.lookup pending.backend_id q.owners ≡ none) where
  enqueue-IsWithin :
      (owner : Owner)
      → refusal owner size (count_of owner q) (or_zero (find owner q.lane_bytes)) q ≡ none
      → IsWithin (enqueue owner pending size q)
  unfolding enqueue owner_eq
  enqueue-IsWithin none allowed =
      let free =
        allowed_internal size (count_of none q) (or_zero (find none q.lane_bytes)) q allowed in
      let count = enqueue_count none pending size q v fresh in
      let bytes = enqueue_bytes none pending size q v fresh in
      record {
        client_count = λ c. ground (arith, count (some c), w.client_count c);
        client_bytes = λ c. ground (arith, bytes (some c), w.client_bytes c);
        internal_count = ground (arith, count none, free);
        internal_bytes = ground (arith, bytes none, free, v.lane_bytes none);
        total_count =
            ground (arith, count none, qsize-enqueue none pending size q v fresh, w.total_count);
        total_bytes = ground (arith, bytes none, w.total_bytes);
      }
  enqueue-IsWithin (some d) allowed =
      let free =
        allowed_client d size (count_of (some d) q) (or_zero (find (some d) q.lane_bytes)) q
          allowed in
      let count = enqueue_count (some d) pending size q v fresh in
      let bytes = enqueue_bytes (some d) pending size q v fresh in
      record {
        client_count = λ c. ground (arith, count (some c), w.client_count c, eq_iff d c, free);
        client_bytes = λ c.
            ground
              (arith, bytes (some c), w.client_bytes c, eq_iff d c, free, v.lane_bytes (some d));
        internal_count = ground (arith, count none, w.internal_count);
        internal_bytes = ground (arith, bytes none, w.internal_bytes);
        total_count =
            ground (arith, count none, qsize-enqueue (some d) pending size q v fresh, free);
        total_bytes = ground (arith, bytes none, free);
      }

admit-IsWithin :
    (refused : Option Refusal) (pending : RoutedRequest) (size : ℕ) (q : SharedRequestQueue)
    → IsAccounted q
    → IsWithin q
    → Dict.lookup pending.backend_id q.owners ≡ none
    → refusal
        (owner_of pending)
        size
        (count_of (owner_of pending) q)
        (or_zero (find (owner_of pending) q.lane_bytes))
        q
      ≡ refused
    → IsWithin (admit refused (owner_of pending) pending size q).0
unfolding admit
admit-IsWithin none pending size q v w fresh h =
    enqueue-IsWithin pending size q v w fresh (owner_of pending) h
admit-IsWithin (some reason) pending size q v w fresh h = w

pub put_nowait-IsWithin :
    (pending : RoutedRequest) (size : ℕ) (q : SharedRequestQueue)
    → IsAccounted q
    → IsWithin q
    → Dict.lookup pending.backend_id q.owners ≡ none
    → IsWithin (put_nowait pending size q).0
unfolding put_nowait
put_nowait-IsWithin pending size q v w fresh = admit-IsWithin _ pending size q v w fresh refl
