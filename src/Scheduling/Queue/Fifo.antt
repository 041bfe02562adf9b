-- ===== src/Scheduling/Queue/Fifo.antt =====
-- `SharedRequestQueue` as one first-in first-out list of requests for each owner.
use win_wsl_mcp_bridge.Base.{
  subst, ℕ, String, ◌≡◌, ◌≢◌, refl, sym, ap, ◌∙◌, false, Option, none, some, List, [], ◌∷◌, ◌++◌,
  length, arith, Option-cases, inl, inr, if◌then◌else◌,
}
use win_wsl_mcp_bridge.Base.Dict
use win_wsl_mcp_bridge.Base.Dict.{
  lookup-insert, lookup-remove, insert-Unique, remove-Unique, sum-insert, sum-remove, length-sum,
}
use win_wsl_mcp_bridge.Scheduling.Owners.{
  Owner, owner_eq, owner_eq_iff, owner_eq_refl, find, find-move_to_end,
}
use win_wsl_mcp_bridge.Scheduling.Queue.{
  RoutedRequest, Lane, SharedRequestQueue, or_empty, or_zero, owner_of, refusal, enqueue, admit,
  put_nowait, discard, next_owner, rotate, take_next, get, Refusal,
}
use win_wsl_mcp_bridge.Scheduling.Queue.Accounts.{IsAccounted}
use win_wsl_mcp_bridge.Scheduling.Queue.Discard.{discard-IsAccounted}
use win_wsl_mcp_bridge.Scheduling.Queue.Get.{get_lem, after_get, discarded, settle_ready-lanes}
use win_wsl_mcp_bridge.Scheduling.Queue.Discard.{find-shrink}
use win_wsl_mcp_bridge.Scheduling.Queue.Put.{find-grown, absent}

-- The requests of a lane in the order of their arrival.
abbrev pub requests : Lane → List RoutedRequest
requests [] = []
requests ((id, e) ∷ lane) = e.0 ∷ requests lane

abbrev pub waiting : Owner → SharedRequestQueue → List RoutedRequest
waiting o q = requests (or_empty (find o q.lanes))

requests-insert :
    (pending : RoutedRequest) (size : ℕ) (lane : Lane)
    → Dict.lookup pending.backend_id lane ≡ none
    → requests (Dict.insert pending.backend_id (pending, size) lane) ≡ requests lane ++ pending ∷ []
unfolding Dict.lookup Dict.insert
requests-insert pending size [] h = refl
requests-insert pending size ((id, e) ∷ lane) h = ground (arith, requests-insert pending size lane)

-- What an answer of `put_nowait` means for the lists.
abbrev pub Put : RoutedRequest → SharedRequestQueue → SharedRequestQueue × Option Refusal → Type 0
Put pending q (r, some reason) = r ≡ q
Put pending q (r, none) =
    (o : Owner)
    → waiting o r
      ≡ (if owner_eq (owner_of pending) o then waiting o q ++ pending ∷ [] else waiting o q)

admit-appends :
    (refused : Option Refusal) (pending : RoutedRequest) (size : ℕ) (q : SharedRequestQueue)
    → IsAccounted q
    → Dict.lookup pending.backend_id q.owners ≡ none
    → Put pending q (admit refused (owner_of pending) pending size q)
unfolding admit enqueue
admit-appends none pending size q v fresh = λ o. ground (
  arith,
  find-grown (owner_of pending) pending size q v fresh o,
  requests-insert pending size (or_empty (find (owner_of pending) q.lanes))
      (absent (owner_of pending) pending size q v fresh (owner_of pending)),
  owner_eq_iff (owner_of pending) o,
)
admit-appends (some reason) pending size q v fresh = refl

-- A request that `put_nowait` accepts under a fresh id goes to the end of its owner's list and changes
-- no other list; a refusal changes nothing.
pub put_nowait-appends :
    (pending : RoutedRequest) (size : ℕ) (q : SharedRequestQueue)
    → IsAccounted q
    → Dict.lookup pending.backend_id q.owners ≡ none
    → Put pending q (put_nowait pending size q)
unfolding put_nowait
put_nowait-appends pending size q v fresh =
    admit-appends
      (refusal (owner_of pending) size (length (or_empty (find (owner_of pending) q.lanes)))
        (or_zero (find (owner_of pending) q.lane_bytes)) q)
      pending size q v fresh

-- The first request of the lane whose turn it is.
abbrev pub Got : SharedRequestQueue → Option (SharedRequestQueue × RoutedRequest) → Type 0
Got q none = q.lanes ≡ []
Got q (some (r, pending)) =
    (owner : Owner) × (next_owner q.lanes ≡ some owner)
    × (waiting owner q ≡ pending ∷ waiting owner r)
    × ((o : Owner) → owner_eq owner o ≡ false → waiting o r ≡ waiting o q)

get_lanes :
    (owner : Owner) (id : String) (e : RoutedRequest × ℕ) (rest : Lane) (q : SharedRequestQueue)
    (v : IsAccounted q) (turn : next_owner q.lanes ≡ some owner)
    (first : or_empty (find owner q.lanes) ≡ (id, e) ∷ rest) (o : Owner)
    → or_empty (find o (after_get owner id e rest q v turn first).lanes)
      ≡ (if owner_eq owner o then rest else or_empty (find o q.lanes))
unfolding rotate
get_lanes owner id e rest q v turn first o =
    let kept = discard-IsAccounted e.0 q v in
    let same = find-move_to_end owner o (discard e.0 q).lanes kept.lanes_unique in
    ap or_empty same
    ∙ ap (λ r. or_empty (find o r.lanes)) (discarded owner id e rest q v turn first)
    ∙ ap (λ l. or_empty (find o l)) (settle_ready-lanes _)
    ∙ find-shrink owner e.1 _ o rest v.lanes_unique

next_owner-none : (lanes : List (Owner × Lane)) → next_owner lanes ≡ none → lanes ≡ []
unfolding next_owner
next_owner-none [] h = refl
next_owner-none ((o, l) ∷ lanes) h = ground arith

next_owner-lane :
    (lanes : List (Owner × Lane)) (owner : Owner)
    → next_owner lanes ≡ some owner
    → find owner lanes ≢ none
unfolding next_owner find
next_owner-lane [] owner h k = ground arith
next_owner-lane ((o, l) ∷ lanes) owner h k = ground (arith, owner_eq_iff o owner)

get-none : (q : SharedRequestQueue) → next_owner q.lanes ≡ none → get q ≡ none
unfolding get take_next
get-none q h = rw (h, get, take_next) refl

get_turn :
    (owner : Owner) (lane : Lane) (q : SharedRequestQueue)
    → IsAccounted q
    → next_owner q.lanes ≡ some owner
    → or_empty (find owner q.lanes) ≡ lane
    → Got q (get q)
get_turn owner [] q v turn first = elim no_lane [ ]
  where
    no_lane : ⊥
    no_lane = ground (arith, next_owner-lane q.lanes owner turn, v.busy owner)
get_turn owner ((id, e) ∷ rest) q v turn first =
    let lanes = get_lanes owner id e rest q v turn first in
    rw (get_lem owner id e rest q v turn first) (
      owner,
      turn,
      ground (arith, lanes owner, owner_eq_refl owner, first),
      λ o h. rw (lanes o, h) refl,
    )

-- `get` waits with no request queued alone. Else it takes the first request of the lane whose turn it is,
-- and no other list changes.
pub get-takes : (q : SharedRequestQueue) → IsAccounted q → Got q (get q)
get-takes q v = elim (Option-cases (next_owner q.lanes)) [
  | inl h ↦ subst (λ g. Got q g) (sym (get-none q h)) (next_owner-none q.lanes h)
  | inr (owner, turn) ↦ get_turn owner (or_empty (find owner q.lanes)) q v turn refl
]
