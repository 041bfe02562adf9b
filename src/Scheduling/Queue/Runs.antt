-- ===== src/Scheduling/Queue/Runs.antt =====
-- `SharedRequestQueue` over any sequence of its operations.
use win_wsl_mcp_bridge.Base.{
  ℕ, String, ◌≡◌, refl, sym, ap, ◌∙◌, true, false, not, Option, none, some, List, [], ◌∷◌, ◌++◌,
  arith, Option-cases, inl, inr,
}
use win_wsl_mcp_bridge.Base.Dict
use win_wsl_mcp_bridge.Base.Dict.{
  lookup-insert, lookup-remove, insert-Unique, remove-Unique, sum-insert, sum-remove, length-sum,
}
use win_wsl_mcp_bridge.Scheduling.Owners.{Owner, find, store, delete, move_to_end}
use win_wsl_mcp_bridge.Scheduling.Queue.{
  RoutedRequest, Lane, SharedRequestQueue, new_queue, or_empty, owner_of, enqueue, admit,
  put_nowait, no_lanes, settle_ready, shrink, discard, next_owner, rotate, take_from, take_next,
  get, clear, Refusal,
}
use win_wsl_mcp_bridge.Scheduling.Queue.Accounts.{IsAccounted, IsWoken}
use win_wsl_mcp_bridge.Scheduling.Queue.Discard.{
  discard-IsAccounted, discard-queued, discard_from_lem,
}
use win_wsl_mcp_bridge.Scheduling.Queue.Discard.{discard-absent, discard-queued, discard_from_lem}
use win_wsl_mcp_bridge.Scheduling.Queue.Limits.{IsWithin, put_nowait-IsWithin}
use win_wsl_mcp_bridge.Scheduling.Queue.Put.{put_nowait-IsAccounted}
use win_wsl_mcp_bridge.Scheduling.Queue.Discard.{discard-IsAccounted, taken}
use win_wsl_mcp_bridge.Scheduling.Queue.Get.{clear-IsAccounted, rotate-IsAccounted}
use win_wsl_mcp_bridge.Scheduling.Queue.DiscardLimits.{discard-IsWithin, rotate-IsWithin}

no_lanes-store {ℓ} :
    {V : Type ℓ} (o : Owner) (x : V) (d : List (Owner × V)) → no_lanes (store o x d) ≡ false
unfolding store
no_lanes-store o x [] = refl
no_lanes-store o x (y ∷ d) = ground arith

no_lanes-snoc {ℓ} : {A : Type ℓ} (xs : List A) (x : A) → no_lanes (xs ++ x ∷ []) ≡ false
no_lanes-snoc [] x = refl
no_lanes-snoc (y ∷ xs) x = refl

no_lanes-move_to_end :
    (o : Owner) (d : List (Owner × Lane)) → no_lanes (move_to_end o d) ≡ no_lanes d
unfolding move_to_end find
no_lanes-move_to_end o [] = refl
no_lanes-move_to_end o ((p, l) ∷ d) = by_found (find o ((p, l) ∷ d))
  where
    by_found :
        (f : Option Lane)
        → no_lanes (elim f [ none ↦ (p, l) ∷ d | some v ↦ delete o ((p, l) ∷ d) ++ (o, v) ∷ [] ])
          ≡ false
    by_found none = refl
    by_found (some v) = no_lanes-snoc (delete o ((p, l) ∷ d)) (o, v)

put_nowait-IsWoken :
    (pending : RoutedRequest) (size : ℕ) (q : SharedRequestQueue)
    → IsWoken q
    → IsWoken (put_nowait pending size q).0
unfolding put_nowait admit enqueue
put_nowait-IsWoken pending size q h = by_refusal _
  where
    by_refusal :
        (refused : Option Refusal) → IsWoken (admit refused (owner_of pending) pending size q).0
    by_refusal none = ap not (sym (no_lanes-store (owner_of pending) _ q.lanes))
    by_refusal (some reason) = h

shrink-ready :
    (owner : Owner) (lane : Lane) (size : ℕ) (q : SharedRequestQueue)
    → (shrink owner lane size q).ready ≡ q.ready
unfolding shrink
shrink-ready owner [] size q = refl
shrink-ready owner (x ∷ lane) size q = refl

settle_ready-IsWoken : (q : SharedRequestQueue) → q.ready ≡ true → IsWoken (settle_ready q)
unfolding settle_ready
settle_ready-IsWoken q h = ground arith

busy_lanes :
    (id : String) (o : Owner) (lanes : List (Owner × Lane)) {e : RoutedRequest × ℕ}
    → Dict.lookup id (or_empty (find o lanes)) ≡ some e
    → no_lanes lanes ≡ false
unfolding Dict.lookup find
busy_lanes id o [] h = ground arith
busy_lanes id o (x ∷ lanes) h = refl

discard-IsWoken :
    (pending : RoutedRequest) (q : SharedRequestQueue)
    → IsAccounted q
    → IsWoken q
    → IsWoken (discard pending q)
discard-IsWoken pending q v h = elim (Option-cases (Dict.lookup pending.backend_id q.owners)) [
  | inl none_there ↦ rw (discard-absent pending q none_there) h
  | inr (owner, there) ↦
      let (e, k) = v.owned pending.backend_id owner there in
      let ready : q.ready ≡ true = ground (arith, busy_lanes pending.backend_id owner q.lanes k) in
      rw (discard-queued pending q there ∙ discard_from_lem owner pending.backend_id q v e there k)
        (settle_ready-IsWoken _ (shrink-ready owner _ e.1 _ ∙ ready))
]

rotate-IsWoken : (owner : Owner) (q : SharedRequestQueue) → IsWoken q → IsWoken (rotate owner q)
unfolding rotate
rotate-IsWoken owner q h = h ∙ ap not (sym (no_lanes-move_to_end owner q.lanes))

get-form :
    (q r : SharedRequestQueue) (pending : RoutedRequest)
    → get q ≡ some (r, pending)
    → (owner : Owner) × (r ≡ rotate owner (discard pending q))
unfolding get
get-form q r pending h = from_turn (next_owner q.lanes) h
  where
    from_lane :
        (owner : Owner) (lane : Lane)
        → take_from owner lane q ≡ some (r, pending)
        → (o : Owner) × (r ≡ rotate o (discard pending q))
    from_lane owner [] k = ground arith
    from_lane owner ((id, e) ∷ lane) k = (owner, ground arith)

    from_turn :
        (turn : Option Owner)
        → take_next turn q ≡ some (r, pending)
        → (o : Owner) × (r ≡ rotate o (discard pending q))
    from_turn none k = ground arith
    from_turn (some owner) k = from_lane owner (or_empty (find owner q.lanes)) k

-- What the runtime does to a queue. A request is put under an id that is not in the queue.
pub data Step : SharedRequestQueue → SharedRequestQueue → Type 0 where
  put :
      {q : SharedRequestQueue} (pending : RoutedRequest) (size : ℕ)
      → Dict.lookup pending.backend_id q.owners ≡ none
      → Step q (put_nowait pending size q).0
  drop : {q : SharedRequestQueue} (pending : RoutedRequest) → Step q (discard pending q)
  serve :
      {q r : SharedRequestQueue} (pending : RoutedRequest) → get q ≡ some (r, pending) → Step q r
  reset : {q : SharedRequestQueue} → Step q (clear q)

pub data Reach : SharedRequestQueue → SharedRequestQueue → Type 0 where
  here : {q : SharedRequestQueue} → Reach q q
  next : {q r s : SharedRequestQueue} → Reach q r → Step r s → Reach q s

-- All that holds of a queue between two calls.
pub record Holds (q : SharedRequestQueue) : Type 0 where
  pub accounted : IsAccounted q
  pub within : IsWithin q
  pub woken : IsWoken q

clear-IsWithin : (q : SharedRequestQueue) → IsWithin (clear q)
unfolding clear find
clear-IsWithin q = record {
  client_count = λ c. ground arith;
  client_bytes = λ c. ground arith;
  internal_count = ground arith;
  internal_bytes = ground arith;
  total_count = ground arith;
  total_bytes = ground arith;
}

clear-Holds : (q : SharedRequestQueue) → Holds (clear q)
unfolding clear
clear-Holds q = record { accounted = clear-IsAccounted q; within = clear-IsWithin q; woken = refl }

-- A new queue is as after `clear`.
pub new_queue-Holds : (n c b d : ℕ) → Holds (new_queue n c b d)
unfolding new_queue clear
new_queue-Holds n c b d = clear-Holds (new_queue n c b d)

pub Step-Holds : (q r : SharedRequestQueue) → Step q r → Holds q → Holds r
Step-Holds q r (put pending size fresh) h = record {
  accounted = put_nowait-IsAccounted pending size q h.accounted fresh;
  within = put_nowait-IsWithin pending size q h.accounted h.within fresh;
  woken = put_nowait-IsWoken pending size q h.woken;
}
Step-Holds q r (drop pending) h = record {
  accounted = discard-IsAccounted pending q h.accounted;
  within = discard-IsWithin pending q h.accounted h.within;
  woken = discard-IsWoken pending q h.accounted h.woken;
}
Step-Holds q r (serve pending taken) h =
    let (owner, form) = get-form q r pending taken in
    let v = discard-IsAccounted pending q h.accounted in
    rw form (record {
      accounted = rotate-IsAccounted owner (discard pending q) v;
      within =
          rotate-IsWithin owner (discard pending q) v
            (discard-IsWithin pending q h.accounted h.within);
      woken =
          rotate-IsWoken owner (discard pending q) (discard-IsWoken pending q h.accounted h.woken);
    })
Step-Holds q r reset h = clear-Holds q

Reach-Holds : (q r : SharedRequestQueue) → Reach q r → Holds q → Holds r
Reach-Holds q r here h = h
Reach-Holds q r (next steps step) h = Step-Holds _ r step (Reach-Holds q _ steps h)

-- After any sequence of puts under fresh ids, discards, gets and clears of a new queue, its dictionaries
-- and counters agree, each client and the bridge itself are within their limits of requests and bytes, and
-- the event is set exactly when a request is queued.
pub queue-Holds : (n c b d : ℕ) (q : SharedRequestQueue) → Reach (new_queue n c b d) q → Holds q
queue-Holds n c b d q steps = Reach-Holds (new_queue n c b d) q steps (new_queue-Holds n c b d)
