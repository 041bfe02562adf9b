-- ===== src/Scheduling/Queue/Get.antt =====
-- `SharedRequestQueue.get` and `clear`.
use win_wsl_mcp_bridge.Base.{
  ℕ, ◌-◌, String, ◌≡◌, ◌≢◌, refl, sym, ap, ◌∙◌, false, none, some, List, [], ◌∷◌, ◌++◌, arith,
  eq_iff, if_keeps, append-nil,
}
use win_wsl_mcp_bridge.Base.Dict
use win_wsl_mcp_bridge.Base.Dict.{
  lookup-insert, lookup-remove, insert-Unique, remove-Unique, sum-insert, sum-remove, length-sum,
}
use win_wsl_mcp_bridge.Scheduling.Owners.{
  Owner, owner_eq_refl, find, store, delete, move_to_end, Unique, move_to_end-Unique,
  find-move_to_end, sum-move_to_end,
}
use win_wsl_mcp_bridge.Scheduling.Queue.{
  RoutedRequest, Lane, SharedRequestQueue, or_empty, no_lanes, settle_ready, shrink, discard_from,
  discard, next_owner, rotate, take_from, take_next, get, clear,
}
use win_wsl_mcp_bridge.Scheduling.Queue.Accounts.{IsAccounted, lane_size, lane_count}
use win_wsl_mcp_bridge.Scheduling.Queue.Discard.{
  discard-IsAccounted, discard-queued, discard_from_lem,
}

pub rotate-IsAccounted :
    (owner : Owner) (q : SharedRequestQueue) → IsAccounted q → IsAccounted (rotate owner q)
unfolding rotate
rotate-IsAccounted owner q v =
    let same = λ (o : Owner). find-move_to_end owner o q.lanes v.lanes_unique in
    record {
      lanes_unique = move_to_end-Unique owner q.lanes v.lanes_unique;
      bytes_unique = v.bytes_unique;
      owners_unique = v.owners_unique;
      lane_bytes = λ o. rw (same o) (v.lane_bytes o);
      bytes = v.bytes ∙ sym (sum-move_to_end lane_size owner q.lanes);
      count = v.count ∙ sym (sum-move_to_end lane_count owner q.lanes);
      ids_unique = λ o. rw (same o) (v.ids_unique o);
      owned = λ id o h. rw (same o) (v.owned id o h);
      homed = λ id o e h. v.homed id o e (rw (same o) at h);
      busy = λ o. rw (same o) (v.busy o);
    }

pub clear-IsAccounted : (q : SharedRequestQueue) → IsAccounted (clear q)
unfolding clear find Dict.lookup
clear-IsAccounted q = record {
  lanes_unique = tt;
  bytes_unique = tt;
  owners_unique = tt;
  lane_bytes = λ o. refl;
  bytes = refl;
  count = refl;
  ids_unique = λ o. tt;
  owned = λ id o h. ground arith;
  homed = λ id o e h. ground arith;
  busy = λ o. ground arith;
}

pub settle_ready-lanes : (q : SharedRequestQueue) → (settle_ready q).lanes ≡ q.lanes
unfolding settle_ready
settle_ready-lanes q =
    if_keeps (λ r. r.lanes ≡ q.lanes) (no_lanes q.lanes) (record q { ready = false }) q refl refl

-- The lane with its first request gone, at the end, or no lane.
abbrev pub put_last : Owner → Lane → List (Owner × Lane)
put_last owner [] = []
put_last owner (x ∷ rest) = (owner, x ∷ rest) ∷ []

shrink_front :
    (owner : Owner) (lane : Lane) (tail : List (Owner × Lane)) (size : ℕ) (q : SharedRequestQueue)
    (l : Lane)
    → q.lanes ≡ (owner, lane) ∷ tail
    → (shrink owner l size q).lanes ≡ put_last owner l ++ tail
unfolding shrink delete store
shrink_front owner lane tail size q [] h = rw (h, delete) (ground (arith, owner_eq_refl owner))
shrink_front owner lane tail size q (x ∷ l) h = rw (h, store) (ground (arith, owner_eq_refl owner))

move_front :
    (owner : Owner) (tail : List (Owner × Lane)) (l : Lane)
    → find owner tail ≡ none
    → move_to_end owner (put_last owner l ++ tail) ≡ tail ++ put_last owner l
unfolding move_to_end find delete
move_front owner tail [] h = ground (arith, append-nil tail)
move_front owner tail (x ∷ l) h = ground (arith, owner_eq_refl owner)

module _ (owner : Owner) (id : String) (e : RoutedRequest × ℕ) (rest : Lane)
    (q : SharedRequestQueue) (v : IsAccounted q) (turn : next_owner q.lanes ≡ some owner)
    (first : or_empty (find owner q.lanes) ≡ (id, e) ∷ rest) where
  abbrev pub after_get : SharedRequestQueue
  after_get = rotate owner (discard e.0 q)

  at_front : Dict.lookup id (or_empty (find owner q.lanes)) ≡ some e
  unfolding Dict.lookup
  at_front = rw first (ground (arith, eq_iff id id))

  pub get_lem : get q ≡ some (after_get, e.0)
  unfolding get take_next take_from
  get_lem = rw (turn, first, get, take_next, take_from) refl

  pub after_get-IsAccounted : IsAccounted after_get
  after_get-IsAccounted = rotate-IsAccounted owner (discard e.0 q) (discard-IsAccounted e.0 q v)

  shortened : Dict.remove id (or_empty (find owner q.lanes)) ≡ rest
  unfolding Dict.remove
  shortened = rw first (ground (arith, eq_iff id id))

  pub discarded :
      discard e.0 q
      ≡ settle_ready (
          shrink owner rest e.1
            (record q { owners = Dict.remove id q.owners; queued_bytes = q.queued_bytes - e.1 }))
  discarded =
      let home = v.homed id owner e at_front in
      discard-queued e.0 q (ap (λ i. Dict.lookup i q.owners) home.1 ∙ home.0)
      ∙ ap (λ i. discard_from owner i q) home.1
      ∙ discard_from_lem owner id q v e home.0 at_front
      ∙ ap
          (λ l. settle_ready (
            shrink owner l e.1
              (record q { owners = Dict.remove id q.owners; queued_bytes = q.queued_bytes - e.1 })))
          shortened

  -- The other lanes in their order, and then what is left of this one.
  pub after_get-lanes :
      (lane : Lane) (tail : List (Owner × Lane))
      → q.lanes ≡ (owner, lane) ∷ tail
      → after_get.lanes ≡ tail ++ put_last owner rest
  unfolding rotate
  after_get-lanes lane tail h =
      let unique : Unique ((owner, lane) ∷ tail) = rw h at v.lanes_unique in
      ap (λ r. move_to_end owner r.lanes) discarded
      ∙ ap (move_to_end owner) (settle_ready-lanes _ ∙ shrink_front owner lane tail e.1 _ rest h)
      ∙ move_front owner tail rest unique.0

next_owner-front :
    (owner : Owner) (lane : Lane) (tail : List (Owner × Lane))
    → find none ((owner, lane) ∷ tail) ≡ none
    → next_owner ((owner, lane) ∷ tail) ≡ some owner
unfolding next_owner
next_owner-front owner lane tail h = rw (h, next_owner) refl

-- The lane at the front is the one that the next call takes from.
module _ (owner : Owner) (lane : Lane) (tail : List (Owner × Lane)) (q : SharedRequestQueue)
    (lanes : q.lanes ≡ (owner, lane) ∷ tail) where
  pub front-turn : find none q.lanes ≡ none → next_owner q.lanes ≡ some owner
  front-turn h = rw lanes (next_owner-front owner lane tail (rw lanes at h))

  pub front-lane : or_empty (find owner q.lanes) ≡ lane
  unfolding find
  front-lane = rw lanes (ground (arith, owner_eq_refl owner))

  pub front-busy : IsAccounted q → lane ≢ []
  unfolding find
  front-busy v h = v.busy owner (rw lanes (ground (arith, owner_eq_refl owner)))
