-- ===== src/Evidence/Correlator/Tracking.antt =====
-- `StreamCorrelator`: what its dictionaries hold between two messages.
use win_wsl_mcp_bridge.Base.{
  ℕ, ◌+◌, ◌≤◌, String, ◌≡◌, refl, ap, ◌∙◌, ◌⊎◌, inl, inr, true, false, Option, none, some, List, [],
  ◌∷◌, length, arith, eq_iff, Bool-cases, Option-cases, leb, if_keeps,
}
use win_wsl_mcp_bridge.Base.Dict
use win_wsl_mcp_bridge.Base.Dict.{
  lookup-insert, length-insert_old, length-insert-le, keys, keys-insert, keys-insert_old,
  length-keys, has-lookup,
}
use win_wsl_mcp_bridge.Evidence.Identity.{Flow, inbound, outbound, Side, Payload, opposite_flow}
use win_wsl_mcp_bridge.Evidence.Classify.{
  Kind, request, response, notification, other, CompletedMessage, Item, completed, lost,
}
use win_wsl_mcp_bridge.Evidence.Framer.{feed as framer_feed}
use win_wsl_mcp_bridge.Evidence.Correlator.{
  Direction, Correlator, new_correlator, direction, set_direction, degrade, degrade_at, get_or,
  is_waiting, track_request, admit_request, guard_request, on_request, pair_response, on_response,
  degrade_other, on_message, on_item, on_items, feed,
}

-- At most `limit` ids are tracked, no more of them wait than are tracked, and an id waits for one
-- response at most, to its latest occurrence.
pub record IsTracked (limit : ℕ) (d : Direction) : Type 0 where
  pub bounded : length d.occurrences ≤ limit
  pub fewer : length d.pending ≤ length d.occurrences
  pub aligned : d.lost_reason ≡ none → keys d.pending ≡ keys d.occurrences
  pub latest :
      (id : String) (ns : List ℕ)
      → Dict.lookup id d.pending ≡ some ns
      → (ns ≡ []) ⊎ (ns ≡ get_or 0 (Dict.lookup id d.occurrences) ∷ [])

degrade-IsTracked :
    (limit : ℕ) (reason : String) (d : Direction)
    → IsTracked limit d
    → IsTracked limit (degrade reason d)
unfolding degrade
degrade-IsTracked limit reason d v = record {
  bounded = ground (arith, v.bounded);
  fewer = ground (arith, v.fewer);
  aligned = ground (arith, v.aligned);
  latest = λ id ns h. ground (arith, v.latest id ns);
}

module _ (hexdigest : Payload → String) (limit : ℕ) (stream_id : String) where
  track_request-IsTracked :
      (origin : Side) (flow : Flow) (id : String) (n : ℕ) (d : Direction)
      → IsTracked limit d
      → d.lost_reason ≡ none
      → (Dict.has id d.occurrences ≡ true) ⊎ (leb limit (length d.occurrences) ≡ false)
      → IsTracked limit (track_request hexdigest stream_id origin flow id n d).0
  unfolding track_request
  track_request-IsTracked origin flow id n d v h room =
      let k = get_or 0 (Dict.lookup id d.occurrences) + 1 in
      let same : keys (Dict.insert id (k ∷ []) d.pending) ≡ keys (Dict.insert id k d.occurrences) =
        keys-insert id (k ∷ []) k d.pending d.occurrences (v.aligned h) in
      record {
        bounded =
            ground
              (arith, length-insert_old id k d.occurrences, length-insert-le id k d.occurrences);
        fewer = ground (
          arith,
          length-keys (Dict.insert id (k ∷ []) d.pending),
          length-keys (Dict.insert id k d.occurrences),
          ap length same,
        );
        aligned = λ _. same;
        latest = λ j ns e. ground (
          arith,
          lookup-insert id j k d.occurrences,
          lookup-insert id j (k ∷ []) d.pending,
          eq_iff id j,
          v.latest j ns,
        );
      }

  admit_request-IsTracked :
      (origin : Side) (flow : Flow) (id : String) (n : ℕ) (d : Direction)
      → IsTracked limit d
      → d.lost_reason ≡ none
      → (Dict.has id d.occurrences ≡ true) ⊎ (leb limit (length d.occurrences) ≡ false)
      → IsTracked limit (admit_request hexdigest stream_id origin flow id n d).0
  unfolding admit_request degrade Dict.lookup
  admit_request-IsTracked origin flow id n d v h room =
      elim (Bool-cases (is_waiting (Dict.lookup id d.pending))) [
        | inl e ↦
            rw (e, h)
              (record {
                bounded = v.bounded;
                fewer = omega arith;
                aligned = λ impossible. cc;
                latest = λ j ns k. cc;
              })
        | inr e ↦ rw e (track_request-IsTracked origin flow id n d v h room)
      ]

  guard_request-IsTracked :
      (origin : Side) (flow : Flow) (id : String) (n : ℕ) (d : Direction)
      → IsTracked limit d
      → d.lost_reason ≡ none
      → IsTracked limit (guard_request hexdigest limit stream_id origin flow id n d).0
  unfolding guard_request
  guard_request-IsTracked origin flow id n d v h = elim (Bool-cases (Dict.has id d.occurrences)) [
    | inl old ↦ rw old (admit_request-IsTracked origin flow id n d v h (inl old))
    | inr new ↦ elim (Bool-cases d.degraded_capacity) [
      | inl full ↦ simp (new, full) v
      | inr open_yet ↦ elim (Bool-cases (leb limit (length d.occurrences))) [
        | inl full ↦
            simp (new, open_yet, full)
              (record {
                bounded = v.bounded;
                fewer = v.fewer;
                aligned = v.aligned;
                latest = v.latest;
              })
        | inr room ↦
            simp (new, open_yet, room) (admit_request-IsTracked origin flow id n d v h (inr room))
      ]
    ]
  ]

  on_request-IsTracked :
      (origin : Side) (flow : Flow) (id : Option String) (n : ℕ) (d : Direction)
      → IsTracked limit d
      → IsTracked limit (on_request hexdigest limit stream_id origin flow id n d).0
  unfolding on_request
  on_request-IsTracked origin flow none n d v = v
  on_request-IsTracked origin flow (some id) n d v = elim (Option-cases d.lost_reason) [
    | inl e ↦ rw (e, on_request) (guard_request-IsTracked origin flow id n d v e)
    | inr (r, e) ↦ rw (e, on_request) v
  ]

  pair_response-IsTracked :
      (origin : Side) (flow : Flow) (id : String) (n : ℕ) (found : Option (List ℕ)) (d : Direction)
      → IsTracked limit d
      → Dict.lookup id d.pending ≡ found
      → IsTracked limit (pair_response hexdigest stream_id origin flow id n found d).0
  unfolding pair_response
  pair_response-IsTracked origin flow id n none d v h = v
  pair_response-IsTracked origin flow id n (some []) d v h = v
  pair_response-IsTracked origin flow id n (some (k ∷ [])) d v h =
      let there = has-lookup id d.pending h in
      let same = keys-insert_old id [] d.pending there in
      record {
        bounded = v.bounded;
        fewer = ground (arith, length-insert_old id [] d.pending);
        aligned = λ e. same ∙ v.aligned e;
        latest =
            λ j ns e. ground (arith, lookup-insert {V = List ℕ} id j [] d.pending, v.latest j ns);
      }
  pair_response-IsTracked origin flow id n (some (k ∷ m ∷ ns)) d v h =
      degrade-IsTracked limit "concurrent-id-reuse-ambiguous" d v

  on_response-IsTracked :
      (origin : Side) (flow : Flow) (id : Option String) (n : ℕ) (d : Direction)
      → IsTracked limit d
      → IsTracked limit (on_response hexdigest stream_id origin flow id n d).0
  unfolding on_response
  on_response-IsTracked origin flow none n d v =
      degrade-IsTracked limit "response-id-unreadable" d v
  on_response-IsTracked origin flow (some id) n d v = elim (Option-cases d.lost_reason) [
    | inl e ↦
        rw (e, on_response)
          (pair_response-IsTracked origin flow id n (Dict.lookup id d.pending) d v refl)
    | inr (r, e) ↦ rw (e, on_response) v
  ]

-- Both directions of a correlator.
pub record IsConsistent (c : Correlator) : Type 0 where
  pub received : IsTracked c.max_tracked_request_ids c.received
  pub sent : IsTracked c.max_tracked_request_ids c.sent

pub new_correlator-IsConsistent :
    (side : Side) (max_bytes max_ids : ℕ) → IsConsistent (new_correlator side max_bytes max_ids)
unfolding new_correlator Dict.lookup
new_correlator-IsConsistent side max_bytes max_ids = record { received = empty; sent = empty }
  where
    empty :
        IsTracked
          (new_correlator side max_bytes max_ids).max_tracked_request_ids
          (new_correlator side max_bytes max_ids).received
    empty = record {
      bounded = omega arith;
      fewer = omega arith;
      aligned = λ e. refl;
      latest = λ id ns h. cc;
    }

direction-IsTracked :
    (flow : Flow) (c : Correlator)
    → IsConsistent c
    → IsTracked c.max_tracked_request_ids (direction flow c)
direction-IsTracked inbound c v = v.received
direction-IsTracked outbound c v = v.sent

set_direction-IsConsistent :
    (flow : Flow) (d : Direction) (c : Correlator)
    → IsConsistent c
    → IsTracked c.max_tracked_request_ids d
    → IsConsistent (set_direction flow d c)
set_direction-IsConsistent inbound d c v w = record { received = w; sent = v.sent }
set_direction-IsConsistent outbound d c v w = record { received = v.received; sent = w }

degrade_at-IsConsistent :
    (flow : Flow) (reason : String) (c : Correlator)
    → IsConsistent c
    → IsConsistent (degrade_at flow reason c)
degrade_at-IsConsistent flow reason c v =
    set_direction-IsConsistent flow _ c v
      (degrade-IsTracked _ reason (direction flow c) (direction-IsTracked flow c v))

degrade_other-IsConsistent :
    (flow : Flow) (note : String) (c : Correlator)
    → IsConsistent c
    → IsConsistent (degrade_other flow note c)
unfolding degrade_other
degrade_other-IsConsistent flow note c v =
    if_keeps IsConsistent _ _ _ (degrade_at-IsConsistent (opposite_flow flow) _ c v)
      (if_keeps IsConsistent _ _ _ (degrade_at-IsConsistent flow note c v) v)

module _ (hexdigest : Payload → String) (stream_id : String) where
  on_message-IsConsistent :
      (c : Correlator) (flow : Flow) (m : CompletedMessage) (kind : Kind)
      → IsConsistent c
      → IsConsistent (on_message hexdigest c stream_id flow m kind).0
  unfolding on_message
  on_message-IsConsistent c flow m notification v = v
  on_message-IsConsistent c flow m other v = degrade_other-IsConsistent flow m.note c v
  on_message-IsConsistent c flow m request v = set_direction-IsConsistent flow _ c v (
      on_request-IsTracked hexdigest c.max_tracked_request_ids stream_id _ flow m.canonical_id _
        (direction flow c) (direction-IsTracked flow c v))
  on_message-IsConsistent c flow m response v =
      let flow' = opposite_flow flow in
      set_direction-IsConsistent flow' _ c v (
        on_response-IsTracked hexdigest c.max_tracked_request_ids stream_id _ flow m.canonical_id _
          (direction flow' c) (direction-IsTracked flow' c v))

  on_item-IsConsistent :
      (c : Correlator) (flow : Flow) (item : Item)
      → IsConsistent c
      → IsConsistent (on_item hexdigest c stream_id flow item).0
  unfolding on_item
  on_item-IsConsistent c flow (completed m) v = on_message-IsConsistent c flow m m.kind v
  on_item-IsConsistent c flow (lost l) v =
      if_keeps IsConsistent _ _ _ (degrade_at-IsConsistent flow _ c v) v

  on_items-IsConsistent :
      (c : Correlator) (flow : Flow) (items : List Item)
      → IsConsistent c
      → IsConsistent (on_items hexdigest c stream_id flow items).0
  unfolding on_items
  on_items-IsConsistent c flow [] v = v
  on_items-IsConsistent c flow (item ∷ items) v =
      on_items-IsConsistent (on_item hexdigest c stream_id flow item).0 flow items
        (on_item-IsConsistent c flow item v)

  -- Feeding any chunk to either flow of a consistent correlator leaves it consistent: per direction
  -- at most `max_tracked_request_ids` ids are kept, no more of them wait, and an id never waits for
  -- more than one response, so that the list of its occurrences has one entry at most.
  pub feed-IsConsistent :
      (classify : List ℕ → CompletedMessage) (c : Correlator) (flow : Flow) (bytes : List ℕ)
      → IsConsistent c
      → IsConsistent (feed hexdigest classify c stream_id flow bytes).0
  unfolding feed
  feed-IsConsistent classify c flow bytes v =
      let d = direction flow c in
      let (framer, items) = framer_feed classify d.framer bytes in
      let w = direction-IsTracked flow c v in
      on_items-IsConsistent (set_direction flow (record d { framer = framer }) c) flow items (
        set_direction-IsConsistent flow (record d { framer = framer }) c v
          (record { bounded = w.bounded; fewer = w.fewer; aligned = w.aligned; latest = w.latest }))
