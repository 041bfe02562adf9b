-- ===== src/Scheduling/Queue/Fairness.antt =====
-- `SharedRequestQueue.get`: the round over the lanes.
use win_wsl_mcp_bridge.Base.{
  ℕ, zero, suc, String, ◌≡◌, refl, ◌∙◌, Option, none, some, List, [], ◌∷◌, ◌++◌, length, arith,
  append_assoc,
}
use win_wsl_mcp_bridge.Scheduling.Owners.{Owner, owner_eq, find, find-append}
use win_wsl_mcp_bridge.Scheduling.Queue.{RoutedRequest, Lane, SharedRequestQueue, get}
use win_wsl_mcp_bridge.Scheduling.Queue.Accounts.{IsAccounted}
use win_wsl_mcp_bridge.Scheduling.Queue.Get.{
  get_lem, after_get, after_get-IsAccounted, after_get-lanes, front-turn, front-lane, front-busy,
  put_last,
}

-- The request that the call number `n` of `get` returns, from 0.
unfoldable pub nth_get : ℕ → SharedRequestQueue → Option RoutedRequest
nth_get zero q = elim (get q) [ none ↦ none | some served ↦ some served.1 ]
nth_get (suc n) q = elim (get q) [ none ↦ none | some served ↦ nth_get n served.0 ]

no_internal-last :
    (owner : Owner) (lane : Lane) (tail : List (Owner × Lane)) (l : Lane)
    → find none ((owner, lane) ∷ tail) ≡ none
    → find none (tail ++ put_last owner l) ≡ none
unfolding find owner_eq
no_internal-last none lane tail l h = ground arith
no_internal-last (some c) lane tail [] h =
    ground (arith, find-append none tail (put_last (some c) []))
no_internal-last (some c) lane tail (x ∷ l) h =
    ground (arith, find-append none tail (put_last (some c) (x ∷ l)))

-- Without a lane of the bridge's own, the first request of a lane that has `n` lanes before it is
-- returned by the call number `n` of `get`, counted from 0.
pub fairness :
    (before after : List (Owner × Lane)) (owner : Owner) (id : String) (e : RoutedRequest × ℕ)
    (rest : Lane) (q : SharedRequestQueue)
    → IsAccounted q
    → find none q.lanes ≡ none
    → q.lanes ≡ before ++ (owner, (id, e) ∷ rest) ∷ after
    → nth_get (length before) q ≡ some e.0
unfolding nth_get
fairness [] after owner id e rest q v internal lanes =
    let turn = front-turn owner ((id, e) ∷ rest) after q lanes internal in
    let first = front-lane owner ((id, e) ∷ rest) after q lanes in
    rw (get_lem owner id e rest q v turn first, nth_get) refl
fairness ((p, []) ∷ before) after owner id e rest q v internal lanes =
    elim (front-busy p [] (before ++ (owner, (id, e) ∷ rest) ∷ after) q lanes v refl) [ ]
fairness ((p, (i, f) ∷ l) ∷ before) after owner id e rest q v internal lanes =
    let tail = before ++ (owner, (id, e) ∷ rest) ∷ after in
    let turn = front-turn p ((i, f) ∷ l) tail q lanes internal in
    let first = front-lane p ((i, f) ∷ l) tail q lanes in
    let moved = after_get-lanes p i f l q v turn first ((i, f) ∷ l) tail lanes in
    rw (get_lem p i f l q v turn first, nth_get)
      (fairness before (after ++ put_last p l) owner id e rest (after_get p i f l q v turn first)
        (after_get-IsAccounted p i f l q v turn first)
        (rw moved (no_internal-last p ((i, f) ∷ l) tail l (rw lanes at internal)))
        (moved ∙ append_assoc before ((owner, (id, e) ∷ rest) ∷ after) (put_last p l)))
