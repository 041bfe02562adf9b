-- ===== src/Scheduling/Queue/Put.antt =====
-- `SharedRequestQueue.put_nowait`.
use win_wsl_mcp_bridge.Base.{
  ℕ, ◌+◌, String, ◌≡◌, ◌≢◌, ap, Option, none, some, List, [], ◌∷◌, length, arith, text_eq, eq_iff,
  Option-cases, Bool-cases, inl, inr, if◌then◌else◌,
}
use win_wsl_mcp_bridge.Base.Dict
use win_wsl_mcp_bridge.Base.Dict.{
  lookup-insert, lookup-remove, insert-Unique, remove-Unique, sum-insert, sum-remove, length-sum,
}
use win_wsl_mcp_bridge.Scheduling.Owners.{
  Owner, owner_eq, owner_eq_iff, find, store, find-store, store-Unique, sum, sum-store,
}
use win_wsl_mcp_bridge.Scheduling.Queue.{
  RoutedRequest, Lane, SharedRequestQueue, or_empty, or_zero, owner_of, refusal, enqueue, admit,
  put_nowait, Refusal,
}
use win_wsl_mcp_bridge.Scheduling.Queue.Accounts.{IsAccounted, weight-or_empty}

-- A write leaves something.
insert-busy {ℓ} : {V : Type ℓ} (k : String) (v : V) (d : List (String × V)) → Dict.insert k v d ≢ []
unfolding Dict.insert
insert-busy k v [] = ground arith
insert-busy k v (x ∷ d) = ground arith

module _ (owner : Owner) (pending : RoutedRequest) (size : ℕ) (q : SharedRequestQueue)
    (v : IsAccounted q) (fresh : Dict.lookup pending.backend_id q.owners ≡ none) where
  abbrev pub lane : Lane
  lane = or_empty (find owner q.lanes)

  -- An id that no owner has stands in no lane.
  pub absent : (o : Owner) → Dict.lookup pending.backend_id (or_empty (find o q.lanes)) ≡ none
  absent o = elim (Option-cases (Dict.lookup pending.backend_id (or_empty (find o q.lanes)))) [
    | inl e ↦ e
    | inr (e, h) ↦ let p = (v.homed pending.backend_id o e h).0 in cc
  ]

  abbrev pub grown : Lane
  grown = Dict.insert pending.backend_id (pending, size) lane

  sum-grown :
      (w : RoutedRequest × ℕ → ℕ)
      → sum (Dict.sum w) (store owner grown q.lanes) ≡ sum (Dict.sum w) q.lanes + w (pending, size)
  sum-grown w = omega (
    arith,
    sum-store (Dict.sum w) owner grown q.lanes,
    weight-or_empty w owner q.lanes,
    sum-insert w pending.backend_id (pending, size) lane,
    ap (Dict.weight_at w) (absent owner),
  )

  pub find-grown :
      (o : Owner)
      → or_empty (find o (store owner grown q.lanes))
        ≡ (if owner_eq owner o then grown else or_empty (find o q.lanes))
  find-grown o = ground (arith, find-store owner o grown q.lanes)

  pub size_grown :
      (w : RoutedRequest × ℕ → ℕ) → Dict.sum w grown ≡ Dict.sum w lane + w (pending, size)
  size_grown w = omega (
    arith,
    sum-insert w pending.backend_id (pending, size) lane,
    ap (Dict.weight_at w) (absent owner),
  )

  owned_grown :
      (id : String) (o : Owner)
      → Dict.lookup id (Dict.insert pending.backend_id owner q.owners) ≡ some o
      → (e : RoutedRequest × ℕ) × (Dict.lookup id (or_empty (find o (store owner grown q.lanes)))
          ≡ some e)
  owned_grown id o h = elim (Bool-cases (text_eq pending.backend_id id)) [
    | inl same ↦ (
      (pending, size),
      ground (
        arith,
        lookup-insert pending.backend_id id owner q.owners,
        lookup-insert {V = RoutedRequest × ℕ} pending.backend_id id (pending, size) lane,
        find-grown o,
        owner_eq_iff owner o,
        eq_iff pending.backend_id id,
      ),
    )
    | inr other ↦
        let (e, k) =
          v.owned id o (ground (arith, lookup-insert pending.backend_id id owner q.owners)) in
        (
          e,
          ground (
            arith,
            lookup-insert pending.backend_id id owner q.owners,
            lookup-insert {V = RoutedRequest × ℕ} pending.backend_id id (pending, size) lane,
            find-grown o,
            owner_eq_iff owner o,
            eq_iff pending.backend_id id,
          ),
        )
  ]

  homed_grown :
      (id : String) (o : Owner) (e : RoutedRequest × ℕ)
      → Dict.lookup id (or_empty (find o (store owner grown q.lanes))) ≡ some e
      → (Dict.lookup id (Dict.insert pending.backend_id owner q.owners) ≡ some o)
        × (e.0.backend_id ≡ id)
  homed_grown id o e h = ground (
    arith,
    lookup-insert pending.backend_id id owner q.owners,
    lookup-insert {V = RoutedRequest × ℕ} pending.backend_id id (pending, size) lane,
    find-grown o,
    owner_eq_iff owner o,
    eq_iff pending.backend_id id,
    v.homed id o e,
    absent o,
  )

  pub enqueue-IsAccounted : IsAccounted (enqueue owner pending size q)
  unfolding enqueue
  enqueue-IsAccounted = record {
    lanes_unique = store-Unique owner grown q.lanes v.lanes_unique;
    bytes_unique = store-Unique owner _ q.lane_bytes v.bytes_unique;
    owners_unique = insert-Unique pending.backend_id owner q.owners v.owners_unique;
    lane_bytes = λ o. ground (
      arith,
      find-grown o,
      find-store owner o (or_zero (find owner q.lane_bytes) + size) q.lane_bytes,
      v.lane_bytes o,
      v.lane_bytes owner,
      size_grown (λ e. e.1),
    );
    bytes = omega (arith, v.bytes, sum-grown (λ e. e.1));
    count = omega (
      arith,
      v.count,
      sum-grown (λ e. 1),
      length-sum q.owners,
      length-sum (Dict.insert pending.backend_id owner q.owners),
      sum-insert (λ o. 1) pending.backend_id owner q.owners,
      ap (Dict.weight_at (λ o. 1)) fresh,
    );
    ids_unique = λ o. ground (
      arith,
      find-grown o,
      v.ids_unique o,
      insert-Unique pending.backend_id (pending, size) lane (v.ids_unique owner),
    );
    owned = λ id o h. owned_grown id o h;
    homed = λ id o e h. homed_grown id o e h;
    busy = λ o. ground (
      arith,
      find-store owner o grown q.lanes,
      v.busy o,
      insert-busy pending.backend_id (pending, size) lane,
    );
  }

pub put_nowait-IsAccounted :
    (pending : RoutedRequest) (size : ℕ) (q : SharedRequestQueue)
    → IsAccounted q
    → Dict.lookup pending.backend_id q.owners ≡ none
    → IsAccounted (put_nowait pending size q).0
unfolding put_nowait
put_nowait-IsAccounted pending size q v fresh = by_refusal (
    refusal (owner_of pending) size (length (or_empty (find (owner_of pending) q.lanes)))
      (or_zero (find (owner_of pending) q.lane_bytes)) q)
  where
    by_refusal :
        (refused : Option Refusal) → IsAccounted (admit refused (owner_of pending) pending size q).0
    by_refusal none = enqueue-IsAccounted (owner_of pending) pending size q v fresh
    by_refusal (some reason) = v
