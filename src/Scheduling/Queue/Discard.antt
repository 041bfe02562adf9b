-- ===== src/Scheduling/Queue/Discard.antt =====
-- `SharedRequestQueue.discard`.
use win_wsl_mcp_bridge.Base.{
  ℕ, ◌+◌, ◌-◌, String, ◌≡◌, ◌≢◌, refl, sym, ap, ◌∙◌, false, none, some, [], ◌∷◌, arith, eq_iff,
  Option-cases, inl, inr, if_keeps, if◌then◌else◌,
}
use win_wsl_mcp_bridge.Base.Dict
use win_wsl_mcp_bridge.Base.Dict.{
  lookup-insert, lookup-remove, insert-Unique, remove-Unique, sum-insert, sum-remove, length-sum,
}
use win_wsl_mcp_bridge.Scheduling.Owners.{
  Owner, owner_eq, owner_eq_iff, find, Unique, find-store, find-delete, store-Unique, delete-Unique,
  sum, sum-store, sum-delete,
}
use win_wsl_mcp_bridge.Scheduling.Queue.{
  RoutedRequest, Lane, SharedRequestQueue, or_empty, or_zero, no_lanes, settle_ready, shrink,
  size_in, discard_from, discard,
}
use win_wsl_mcp_bridge.Scheduling.Queue.Accounts.{IsAccounted, lane_size, weight-or_empty}

-- What `shrink` and the clearing of the event leave behind.
settle_ready-IsAccounted : (q : SharedRequestQueue) → IsAccounted q → IsAccounted (settle_ready q)
unfolding settle_ready
settle_ready-IsAccounted q v =
    if_keeps IsAccounted (no_lanes q.lanes) (record q { ready = false }) q
      (record {
        lanes_unique = v.lanes_unique;
        bytes_unique = v.bytes_unique;
        owners_unique = v.owners_unique;
        lane_bytes = v.lane_bytes;
        bytes = v.bytes;
        count = v.count;
        ids_unique = v.ids_unique;
        owned = v.owned;
        homed = v.homed;
        busy = v.busy;
      })
      v

module _ (owner : Owner) (size : ℕ) (q : SharedRequestQueue) where
  sum-shrink :
      (w : RoutedRequest × ℕ → ℕ) (rest : Lane)
      → sum (Dict.sum w) (shrink owner rest size q).lanes
          + Dict.sum w (or_empty (find owner q.lanes))
        ≡ sum (Dict.sum w) q.lanes + Dict.sum w rest
  unfolding shrink
  sum-shrink w [] =
      omega (arith, sum-delete (Dict.sum w) owner q.lanes, weight-or_empty w owner q.lanes)
  sum-shrink w (e ∷ rest) =
      omega
        (arith, sum-store (Dict.sum w) owner (e ∷ rest) q.lanes, weight-or_empty w owner q.lanes)

  pub find-shrink :
      (o : Owner) (rest : Lane)
      → Unique q.lanes
      → or_empty (find o (shrink owner rest size q).lanes)
        ≡ (if owner_eq owner o then rest else or_empty (find o q.lanes))
  unfolding shrink
  find-shrink o [] u = ground (arith, find-delete owner o q.lanes u)
  find-shrink o (e ∷ rest) u = ground (arith, find-store owner o (e ∷ rest) q.lanes)

  shrink_bytes :
      (o : Owner) (rest : Lane)
      → Unique q.lane_bytes
      → or_zero (find owner q.lane_bytes) ≡ lane_size rest + size
      → or_zero (find o (shrink owner rest size q).lane_bytes)
        ≡ (if owner_eq owner o then lane_size rest else or_zero (find o q.lane_bytes))
  unfolding shrink
  shrink_bytes o [] u h = ground (arith, find-delete owner o q.lane_bytes u)
  shrink_bytes o (e ∷ rest) u h =
      ground (arith, find-store owner o (or_zero (find owner q.lane_bytes) - size) q.lane_bytes)

  shrink_busy :
      (o : Owner) (rest : Lane)
      → Unique q.lanes
      → find o q.lanes ≢ some []
      → find o (shrink owner rest size q).lanes ≢ some []
  unfolding shrink
  shrink_busy o [] u h = ground (arith, find-delete owner o q.lanes u)
  shrink_busy o (e ∷ rest) u h = ground (arith, find-store owner o (e ∷ rest) q.lanes)

  shrink-Unique :
      (rest : Lane)
      → Unique q.lanes
      → Unique q.lane_bytes
      → Unique (shrink owner rest size q).lanes × Unique (shrink owner rest size q).lane_bytes
  unfolding shrink
  shrink-Unique [] u w = (delete-Unique owner q.lanes u, delete-Unique owner q.lane_bytes w)
  shrink-Unique (e ∷ rest) u w =
      (store-Unique owner (e ∷ rest) q.lanes u, store-Unique owner _ q.lane_bytes w)

  pub shrink_same :
      (rest : Lane)
      → ((shrink owner rest size q).owners ≡ q.owners)
        × ((shrink owner rest size q).queued_bytes ≡ q.queued_bytes)
  unfolding shrink
  shrink_same [] = (refl, refl)
  shrink_same (e ∷ rest) = (refl, refl)

pub size_in_lem :
    (id : String) (lane : Lane) {e : RoutedRequest × ℕ}
    → Dict.lookup id lane ≡ some e
    → size_in id lane ≡ e.1
size_in_lem id lane h = rw (h, size_in) refl

module _ (owner : Owner) (id : String) (q : SharedRequestQueue) (v : IsAccounted q)
    (e : RoutedRequest × ℕ) (h : Dict.lookup id q.owners ≡ some owner)
    (k : Dict.lookup id (or_empty (find owner q.lanes)) ≡ some e) where
  abbrev pub full : Lane
  full = or_empty (find owner q.lanes)

  abbrev pub rest : Lane
  rest = Dict.remove id full

  abbrev pub taken : SharedRequestQueue
  taken = record q { owners = Dict.remove id q.owners; queued_bytes = q.queued_bytes - e.1 }

  weigh_rest : (w : RoutedRequest × ℕ → ℕ) → Dict.sum w rest + w e ≡ Dict.sum w full
  weigh_rest w = omega (arith, sum-remove w id full, ap (Dict.weight_at w) k)

  shrunk-IsAccounted : IsAccounted (shrink owner rest e.1 taken)
  shrunk-IsAccounted =
      let s = shrink owner rest e.1 taken in
      let same = shrink_same owner e.1 taken rest in
      let find_rest = λ (o : Owner). find-shrink owner e.1 taken o rest v.lanes_unique in
      record {
        lanes_unique = (shrink-Unique owner e.1 taken rest v.lanes_unique v.bytes_unique).0;
        bytes_unique = (shrink-Unique owner e.1 taken rest v.lanes_unique v.bytes_unique).1;
        owners_unique = rw same.0 (remove-Unique id q.owners v.owners_unique);
        lane_bytes = λ o. ground (
          arith,
          shrink_bytes owner e.1 taken o rest v.bytes_unique
              (v.lane_bytes owner ∙ sym (weigh_rest (λ x. x.1))),
          find_rest o,
          v.lane_bytes o,
        );
        bytes = rw same.1 (
            omega
              (arith, sum-shrink owner e.1 taken (λ x. x.1) rest, weigh_rest (λ x. x.1), v.bytes));
        count = rw same.0 (
            omega (
              arith,
              sum-shrink owner e.1 taken (λ x. 1) rest,
              weigh_rest (λ x. 1),
              v.count,
              length-sum q.owners,
              length-sum (Dict.remove id q.owners),
              sum-remove (λ o. 1) id q.owners,
              ap (Dict.weight_at (λ o. 1)) h,
            ));
        ids_unique = λ o.
            ground (arith, find_rest o, v.ids_unique o, remove-Unique id full (v.ids_unique owner));
        owned = λ j o p.
            let at = rw same.0 at p in
            let gone = lookup-remove id j q.owners v.owners_unique in
            let (x, there) = v.owned j o (ground (arith, gone)) in
            (
              x,
              ground (
                arith,
                gone,
                find_rest o,
                owner_eq_iff owner o,
                lookup-remove id j full (v.ids_unique owner),
              ),
            );
        homed = λ j o x p.
            let gone = lookup-remove id j q.owners v.owners_unique in
            let left = lookup-remove id j full (v.ids_unique owner) in
            ground (
              arith,
              same.0,
              gone,
              left,
              find_rest o,
              owner_eq_iff owner o,
              eq_iff id j,
              v.homed j o x,
              h,
            );
        busy = λ o. shrink_busy owner e.1 taken o rest v.lanes_unique (v.busy o);
      }

  pub discard_from_lem : discard_from owner id q ≡ settle_ready (shrink owner rest e.1 taken)
  unfolding discard_from
  discard_from_lem =
      ap
        (λ n. settle_ready (
          shrink owner rest n
            (record q { owners = Dict.remove id q.owners; queued_bytes = q.queued_bytes - n })))
        (size_in_lem id full k)

  pub discard_from-IsAccounted : IsAccounted (discard_from owner id q)
  discard_from-IsAccounted =
      rw discard_from_lem
        (settle_ready-IsAccounted (shrink owner rest e.1 taken) shrunk-IsAccounted)

-- A request that is not queued is discarded without effect.
pub discard-absent :
    (pending : RoutedRequest) (q : SharedRequestQueue)
    → Dict.lookup pending.backend_id q.owners ≡ none
    → discard pending q ≡ q
unfolding discard
discard-absent pending q h = rw (h, discard)

pub discard-queued :
    (pending : RoutedRequest) (q : SharedRequestQueue) {owner : Owner}
    → Dict.lookup pending.backend_id q.owners ≡ some owner
    → discard pending q ≡ discard_from owner pending.backend_id q
unfolding discard
discard-queued pending q h = rw (h, discard)

pub discard-IsAccounted :
    (pending : RoutedRequest) (q : SharedRequestQueue)
    → IsAccounted q
    → IsAccounted (discard pending q)
discard-IsAccounted pending q v = elim (Option-cases (Dict.lookup pending.backend_id q.owners)) [
  | inl h ↦ rw (discard-absent pending q h) v
  | inr (owner, h) ↦
      let (e, k) = v.owned pending.backend_id owner h in
      rw (discard-queued pending q h) (discard_from-IsAccounted owner pending.backend_id q v e h k)
]
