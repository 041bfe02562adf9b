-- ===== src/Evidence/Correlator/Mirror.antt =====
-- `StreamCorrelator` on the two nodes: what one node sends the other receives, and they agree.
use win_wsl_mcp_bridge.Base.{ℕ, String, Option, ◌≡◌, refl, List, [], ◌∷◌, ◌++◌, map, ap, arith}
use mathlib.Core.List.{map-append}
use win_wsl_mcp_bridge.Evidence.Identity.{
  Flow, inbound, outbound, Side, Payload, origin_side_for, opposite_flow, peer_side, origin-peer,
}
use win_wsl_mcp_bridge.Evidence.Classify.{
  Kind, request, response, notification, other, CompletedMessage, Item, completed, lost,
}
use win_wsl_mcp_bridge.Evidence.Framer.{feed as framer_feed}
use win_wsl_mcp_bridge.Evidence.Correlator.{
  Observation, Direction, Correlator, new_correlator, direction, set_direction, degrade, degrade_at,
  track_request, admit_request, guard_request, on_request, pair_response, on_response,
  degrade_other, on_message, on_item, on_items, feed,
}

-- The state of the other node.
unfoldable pub mirror : Correlator → Correlator
unfolding peer_side
mirror c = record {
  side = peer_side c.side;
  max_tracked_request_ids = c.max_tracked_request_ids;
  received = c.sent;
  sent = c.received;
}

unfoldable pub mirror_observation : Observation → Observation
unfolding opposite_flow
mirror_observation o = record o { flow = opposite_flow o.flow }

abbrev mirror_result : Correlator × List Observation → Correlator × List Observation
mirror_result (c, seen) = (mirror c, map mirror_observation seen)

abbrev mirror_seen : Direction × List Observation → Direction × List Observation
mirror_seen (d, seen) = (d, map mirror_observation seen)

direction-mirror :
    (flow : Flow) (c : Correlator) → direction (opposite_flow flow) (mirror c) ≡ direction flow c
unfolding mirror opposite_flow
direction-mirror inbound c = refl
direction-mirror outbound c = refl

set_direction-mirror :
    (flow : Flow) (d : Direction) (c : Correlator)
    → set_direction (opposite_flow flow) d (mirror c) ≡ mirror (set_direction flow d c)
unfolding mirror opposite_flow
set_direction-mirror inbound d c = refl
set_direction-mirror outbound d c = refl

side-mirror : (c : Correlator) → (mirror c).side ≡ peer_side c.side
unfolding mirror
side-mirror c = refl

limit-mirror : (c : Correlator) → (mirror c).max_tracked_request_ids ≡ c.max_tracked_request_ids
unfolding mirror
limit-mirror c = refl

new_correlator-mirror :
    (side : Side) (max_bytes max_ids : ℕ)
    → new_correlator (peer_side side) max_bytes max_ids
      ≡ mirror (new_correlator side max_bytes max_ids)
unfolding new_correlator mirror
new_correlator-mirror side max_bytes max_ids = refl

-- The same chunks as the peer labels them.
unfoldable pub seen_by_peer : List (Flow × List ℕ) → List (Flow × List ℕ)
unfolding opposite_flow
seen_by_peer [] = []
seen_by_peer ((flow, bytes) ∷ chunks) = (opposite_flow flow, bytes) ∷ seen_by_peer chunks

module _ (hexdigest : Payload → String) (stream_id : String) where
  on_request-mirror :
      (limit : ℕ) (origin : Side) (flow : Flow) (id : Option String) (n : ℕ) (d : Direction)
      → on_request hexdigest limit stream_id origin (opposite_flow flow) id n d
        ≡ mirror_seen (on_request hexdigest limit stream_id origin flow id n d)
  unfolding on_request guard_request admit_request track_request mirror_observation
  on_request-mirror limit origin flow id n d = ground arith

  on_response-mirror :
      (origin : Side) (flow : Flow) (id : Option String) (n : ℕ) (d : Direction)
      → on_response hexdigest stream_id origin (opposite_flow flow) id n d
        ≡ mirror_seen (on_response hexdigest stream_id origin flow id n d)
  unfolding on_response pair_response mirror_observation
  on_response-mirror origin flow id n d = ground arith

  degrade_at-mirror :
      (flow : Flow) (reason : String) (c : Correlator)
      → degrade_at (opposite_flow flow) reason (mirror c) ≡ mirror (degrade_at flow reason c)
  degrade_at-mirror flow reason c =
      rw (direction-mirror flow c) (set_direction-mirror flow (degrade reason (direction flow c)) c)

  degrade_other-mirror :
      (flow : Flow) (note : String) (c : Correlator)
      → degrade_other (opposite_flow flow) note (mirror c) ≡ mirror (degrade_other flow note c)
  unfolding degrade_other
  degrade_other-mirror flow note c = ground (
    arith,
    degrade_at-mirror (opposite_flow flow) "response-id-unreadable" c,
    degrade_at-mirror flow note c,
  )

  on_message-mirror :
      (c : Correlator) (flow : Flow) (m : CompletedMessage) (kind : Kind)
      → on_message hexdigest (mirror c) stream_id (opposite_flow flow) m kind
        ≡ mirror_result (on_message hexdigest c stream_id flow m kind)
  unfolding on_message opposite_flow mirror mirror_observation degrade
  on_message-mirror c flow m notification = refl
  on_message-mirror c flow m other = rw (degrade_other-mirror flow m.note c, mirror_observation)
  on_message-mirror c flow m request =
      rw
        (
          limit-mirror c,
          side-mirror c,
          origin-peer flow c.side,
          direction-mirror flow c,
          on_request-mirror c.max_tracked_request_ids (origin_side_for flow c.side) flow
              m.canonical_id m.message_bytes (direction flow c),
        )
        (ground (
          arith,
          set_direction-mirror flow
              (on_request hexdigest c.max_tracked_request_ids stream_id
                (origin_side_for flow c.side) flow m.canonical_id m.message_bytes
                (direction flow c)).0
              c,
        ))
  on_message-mirror c flow m response =
      let flow' = opposite_flow flow in
      rw
        (
          side-mirror c,
          origin-peer flow' c.side,
          direction-mirror flow' c,
          on_response-mirror (origin_side_for flow' c.side) flow m.canonical_id m.message_bytes
              (direction flow' c),
        )
        (ground (
          arith,
          set_direction-mirror flow'
              (on_response hexdigest stream_id (origin_side_for flow' c.side) flow m.canonical_id
                m.message_bytes (direction flow' c)).0
              c,
        ))

  on_item-mirror :
      (c : Correlator) (flow : Flow) (item : Item)
      → on_item hexdigest (mirror c) stream_id (opposite_flow flow) item
        ≡ mirror_result (on_item hexdigest c stream_id flow item)
  unfolding on_item
  on_item-mirror c flow (completed m) = on_message-mirror c flow m m.kind
  on_item-mirror c flow (lost l) = ground (arith, degrade_at-mirror flow "oversized-line" c)

  on_items-mirror :
      (c : Correlator) (flow : Flow) (items : List Item)
      → on_items hexdigest (mirror c) stream_id (opposite_flow flow) items
        ≡ mirror_result (on_items hexdigest c stream_id flow items)
  unfolding on_items
  on_items-mirror c flow [] = refl
  on_items-mirror c flow (item ∷ items) =
      let (c', seen) = on_item hexdigest c stream_id flow item in
      rw (
        on_item-mirror c flow item,
        on_items-mirror c' flow items,
        map-append mirror_observation seen (on_items hexdigest c' stream_id flow items).1,
      )

  module _ (classify : List ℕ → CompletedMessage) where
    feed-mirror :
        (c : Correlator) (flow : Flow) (bytes : List ℕ)
        → feed hexdigest classify (mirror c) stream_id (opposite_flow flow) bytes
          ≡ mirror_result (feed hexdigest classify c stream_id flow bytes)
    unfolding feed
    feed-mirror c flow bytes =
        let d = direction flow c in
        let (f, items) = framer_feed classify d.framer bytes in
        rw (direction-mirror flow c, set_direction-mirror flow (record d { framer = f }) c)
          (on_items-mirror (set_direction flow (record d { framer = f }) c) flow items)

    -- The chunks that one node sees of a stream, each with its flow there.
    unfoldable pub observe_all : Correlator → List (Flow × List ℕ) → Correlator × List Observation
    observe_all c [] = (c, [])
    observe_all c ((flow, bytes) ∷ chunks) =
        let (c', seen) = feed hexdigest classify c stream_id flow bytes in
        let (c'', more) = observe_all c' chunks in (c'', seen ++ more)

    observe_all-mirror :
        (c : Correlator) (chunks : List (Flow × List ℕ))
        → observe_all (mirror c) (seen_by_peer chunks) ≡ mirror_result (observe_all c chunks)
    unfolding observe_all seen_by_peer
    observe_all-mirror c [] = refl
    observe_all-mirror c ((flow, bytes) ∷ chunks) =
        let (c', seen) = feed hexdigest classify c stream_id flow bytes in
        rw (
          feed-mirror c flow bytes,
          observe_all-mirror c' chunks,
          map-append mirror_observation seen (observe_all c' chunks).1,
        )

    -- The nodes of one stream that start with the same limits and see the same chunks in the same
    -- order, each as sent or received by itself, observe the same: kind, alias, size, occurrence
    -- and note of each observation agree, and only the flow label is the opposite one.
    pub nodes_agree :
        (side : Side) (max_bytes max_ids : ℕ) (chunks : List (Flow × List ℕ))
        → (observe_all (new_correlator (peer_side side) max_bytes max_ids) (seen_by_peer chunks)).1
          ≡ map mirror_observation (observe_all (new_correlator side max_bytes max_ids) chunks).1
    nodes_agree side max_bytes max_ids chunks =
        rw (new_correlator-mirror side max_bytes max_ids)
          (ap (λ r. r.1) (observe_all-mirror (new_correlator side max_bytes max_ids) chunks))
