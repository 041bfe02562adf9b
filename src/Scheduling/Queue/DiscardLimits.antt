-- ===== src/Scheduling/Queue/DiscardLimits.antt =====
-- `SharedRequestQueue.discard`: the limits hold after it.
use win_wsl_mcp_bridge.Base.{
  ℕ, suc, ◌+◌, ◌-◌, String, ◌≡◌, refl, ap, ◌∙◌, false, none, some, [], ◌∷◌, length, arith,
  Option-cases, inl, inr, if_keeps, if◌then◌else◌,
}
use win_wsl_mcp_bridge.Base.Dict
use win_wsl_mcp_bridge.Base.Dict.{
  lookup-insert, lookup-remove, insert-Unique, remove-Unique, sum-insert, sum-remove, length-sum,
}
use win_wsl_mcp_bridge.Scheduling.Owners.{Owner, owner_eq, owner_eq_iff, find, find-move_to_end}
use win_wsl_mcp_bridge.Scheduling.Queue.{
  RoutedRequest, Lane, SharedRequestQueue, qsize, or_empty, no_lanes, settle_ready, shrink,
  discard_from, discard, rotate,
}
use win_wsl_mcp_bridge.Scheduling.Queue.Accounts.{IsAccounted}
use win_wsl_mcp_bridge.Scheduling.Queue.Discard.{discard-queued, discard_from_lem}
use win_wsl_mcp_bridge.Scheduling.Queue.Discard.{
  find-shrink, shrink_same, discard-absent, discard-queued, discard_from_lem,
}
use win_wsl_mcp_bridge.Scheduling.Queue.Limits.{IsWithin, count_of, bytes_of}
use win_wsl_mcp_bridge.Scheduling.Queue.Discard.{rest, taken}
use win_wsl_mcp_bridge.Scheduling.Queue.Get.{settle_ready-lanes}

abbrev limits : SharedRequestQueue → ℕ × (ℕ × (ℕ × ℕ))
limits q = (q.max_requests, (q.max_client_requests, (q.max_bytes, q.max_client_bytes)))

limits_same :
    (r q : SharedRequestQueue)
    → limits r ≡ limits q
    → (r.max_requests ≡ q.max_requests)
      × (r.max_client_requests ≡ q.max_client_requests)
      × (r.max_bytes ≡ q.max_bytes)
      × (r.max_client_bytes ≡ q.max_client_bytes)
limits_same r q h = (ap (λ t. t.0) h, ap (λ t. t.1.0) h, ap (λ t. t.1.1.0) h, ap (λ t. t.1.1.1) h)

shrink-limits :
    (owner : Owner) (lane : Lane) (size : ℕ) (q : SharedRequestQueue)
    → limits (shrink owner lane size q) ≡ limits q
unfolding shrink
shrink-limits owner [] size q = refl
shrink-limits owner (x ∷ lane) size q = refl

module _ (q : SharedRequestQueue) where
  settle_ready-limits : limits (settle_ready q) ≡ limits q
  unfolding settle_ready
  settle_ready-limits =
      if_keeps (λ r. limits r ≡ limits q) (no_lanes q.lanes) (record q { ready = false }) q refl
        refl

  settle_ready-qsize : qsize (settle_ready q) ≡ qsize q
  unfolding settle_ready
  settle_ready-qsize =
      if_keeps (λ r. qsize r ≡ qsize q) (no_lanes q.lanes) (record q { ready = false }) q refl refl

  settle_ready-queued : (settle_ready q).queued_bytes ≡ q.queued_bytes
  unfolding settle_ready
  settle_ready-queued =
      if_keeps (λ r. r.queued_bytes ≡ q.queued_bytes) (no_lanes q.lanes)
        (record q { ready = false }) q refl refl

module _ (owner : Owner) (id : String) (q : SharedRequestQueue) (v : IsAccounted q) (w : IsWithin q)
    (e : RoutedRequest × ℕ) (h : Dict.lookup id q.owners ≡ some owner)
    (k : Dict.lookup id (or_empty (find owner q.lanes)) ≡ some e) where
  discard_from-lane :
      (o : Owner)
      → or_empty (find o (discard_from owner id q).lanes) ≡ (
          if owner_eq owner o
          then Dict.remove id (or_empty (find owner q.lanes))
          else or_empty (find o q.lanes))
  discard_from-lane o =
      ap (λ r. or_empty (find o r.lanes)) (discard_from_lem owner id q v e h k)
      ∙ ap (λ l. or_empty (find o l)) (settle_ready-lanes _)
      ∙ find-shrink owner e.1 _ o (Dict.remove id (or_empty (find owner q.lanes))) v.lanes_unique

  discard_from-count :
      (o : Owner)
      → count_of o (discard_from owner id q) + (if owner_eq owner o then 1 else 0) ≡ count_of o q
  discard_from-count o = ground (
    arith,
    discard_from-lane o,
    owner_eq_iff owner o,
    length-sum (or_empty (find owner q.lanes)),
    length-sum (Dict.remove id (or_empty (find owner q.lanes))),
    sum-remove (λ x. 1) id (or_empty (find owner q.lanes)),
    ap (Dict.weight_at (λ x. 1)) k,
  )

  discard_from-bytes :
      (o : Owner)
      → bytes_of o (discard_from owner id q) + (if owner_eq owner o then e.1 else 0) ≡ bytes_of o q
  discard_from-bytes o = ground (
    arith,
    discard_from-lane o,
    owner_eq_iff owner o,
    sum-remove (λ x. x.1) id (or_empty (find owner q.lanes)),
    ap (Dict.weight_at (λ x. x.1)) k,
  )

  discard_from-qsize : suc (qsize (discard_from owner id q)) ≡ qsize q
  discard_from-qsize =
      let same =
        ap qsize (discard_from_lem owner id q v e h k)
        ∙ settle_ready-qsize _
        ∙ ap length
            (shrink_same owner e.1 (taken owner id q v e h k) (rest owner id q v e h k)).0 in
      omega (
        arith,
        same,
        length-sum q.owners,
        length-sum (Dict.remove id q.owners),
        sum-remove (λ o. 1) id q.owners,
        ap (Dict.weight_at (λ o. 1)) h,
      )

  discard_from-queued : (discard_from owner id q).queued_bytes ≡ q.queued_bytes - e.1
  discard_from-queued =
      ap (λ r. r.queued_bytes) (discard_from_lem owner id q v e h k)
      ∙ settle_ready-queued _
      ∙ (shrink_same owner e.1 (taken owner id q v e h k) (rest owner id q v e h k)).1

  discard_from-limits : limits (discard_from owner id q) ≡ limits q
  unfolding discard_from
  discard_from-limits =
      settle_ready-limits _
      ∙ shrink-limits owner (Dict.remove id (or_empty (find owner q.lanes))) _ _

  discard_from-IsWithin : IsWithin (discard_from owner id q)
  discard_from-IsWithin =
      let r = discard_from owner id q in
      let same = limits_same r q discard_from-limits in
      let count = discard_from-count in
      let bytes = discard_from-bytes in
      record {
        client_count = λ c. ground (arith, count (some c), w.client_count c, same);
        client_bytes = λ c. ground (arith, bytes (some c), w.client_bytes c, same);
        internal_count = ground (arith, count none, w.internal_count);
        internal_bytes = ground (arith, bytes none, w.internal_bytes);
        total_count = ground (arith, count none, discard_from-qsize, w.total_count, same);
        total_bytes = ground (arith, bytes none, discard_from-queued, w.total_bytes, same);
      }

pub discard-IsWithin :
    (pending : RoutedRequest) (q : SharedRequestQueue)
    → IsAccounted q
    → IsWithin q
    → IsWithin (discard pending q)
discard-IsWithin pending q v w = elim (Option-cases (Dict.lookup pending.backend_id q.owners)) [
  | inl h ↦ rw (discard-absent pending q h) w
  | inr (owner, h) ↦
      let (e, k) = v.owned pending.backend_id owner h in
      rw (discard-queued pending q h) (discard_from-IsWithin owner pending.backend_id q v w e h k)
]

pub rotate-IsWithin :
    (owner : Owner) (q : SharedRequestQueue)
    → IsAccounted q
    → IsWithin q
    → IsWithin (rotate owner q)
unfolding rotate
rotate-IsWithin owner q v w =
    let same = λ (o : Owner). find-move_to_end owner o q.lanes v.lanes_unique in
    record {
      client_count = λ c. rw (same (some c)) (w.client_count c);
      client_bytes = λ c. rw (same (some c)) (w.client_bytes c);
      internal_count = rw (same none) w.internal_count;
      internal_bytes = rw (same none) w.internal_bytes;
      total_count = rw (same none) w.total_count;
      total_bytes = rw (same none) w.total_bytes;
    }
