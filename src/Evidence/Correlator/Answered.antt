-- ===== src/Evidence/Correlator/Answered.antt =====
-- `StreamCorrelator`: over a whole stream, no alias is given to more responses than requests.
use win_wsl_mcp_bridge.Base.{ℕ, ◌+◌, ◌≤◌, String, ◌≡◌, refl, List, [], ◌∷◌, arith, if_keeps}
use win_wsl_mcp_bridge.Evidence.Identity.{
  Flow, inbound, outbound, Side, Payload, opposite_flow, origin_side_for,
}
use win_wsl_mcp_bridge.Evidence.Classify.{
  Kind, request, response, notification, other, CompletedMessage, Item, completed, lost,
}
use win_wsl_mcp_bridge.Evidence.Framer.{LineFramer, feed as framer_feed}
use win_wsl_mcp_bridge.Evidence.Correlator.{
  Observation, Correlator, new_correlator, direction, set_direction, degrade_at, degrade_other,
  on_message, on_item, on_items, feed,
}
use win_wsl_mcp_bridge.Evidence.Correlator.Mirror.{observe_all}
use win_wsl_mcp_bridge.Evidence.Correlator.Tally.{
  degrade-waits, on_request-foreign, on_request-waits, on_response-foreign, on_response-waits,
  requests_with, requests_with-append, responses_with, responses_with-append, total, waits,
}

module _ (hexdigest : Payload → String) (stream_id : String) (a : String) where
  -- The occurrences of a flow's requests that wait and were given the alias.
  abbrev open_calls : Flow → Correlator → ℕ
  open_calls g c =
      waits hexdigest c.max_tracked_request_ids stream_id (origin_side_for g c.side) a
        (direction g c)

  abbrev Balanced : Flow → Correlator → Correlator × List Observation → Type 0
  Balanced g c (c', seen) =
      responses_with a g seen + open_calls g c' ≤ open_calls g c + requests_with a g seen

  degrade_at-open_calls :
      (f g : Flow) (reason : String) (c : Correlator)
      → open_calls g (degrade_at f reason c) ≡ open_calls g c
  degrade_at-open_calls inbound inbound reason c =
      degrade-waits hexdigest c.max_tracked_request_ids stream_id _ a reason c.received
  degrade_at-open_calls inbound outbound reason c = refl
  degrade_at-open_calls outbound inbound reason c = refl
  degrade_at-open_calls outbound outbound reason c =
      degrade-waits hexdigest c.max_tracked_request_ids stream_id _ a reason c.sent

  degrade_other-open_calls :
      (f g : Flow) (note : String) (c : Correlator)
      → open_calls g (degrade_other f note c) ≡ open_calls g c
  unfolding degrade_other
  degrade_other-open_calls f g note c =
      let Same = λ (x : Correlator). open_calls g x ≡ open_calls g c in
      if_keeps Same _ _ _ (degrade_at-open_calls (opposite_flow f) g _ c)
        (if_keeps Same _ _ _ (degrade_at-open_calls f g note c) refl)

  on_message-Balanced :
      (c : Correlator) (f g : Flow) (m : CompletedMessage) (kind : Kind)
      → Balanced g c (on_message hexdigest c stream_id f m kind)
  unfolding on_message requests_with responses_with total opposite_flow
  on_message-Balanced c f g m notification = omega arith
  on_message-Balanced c f g m other = omega (arith, degrade_other-open_calls f g m.note c)
  on_message-Balanced c inbound inbound m request =
      let h =
        on_request-waits hexdigest c.max_tracked_request_ids stream_id
          (origin_side_for inbound c.side) a inbound m.canonical_id m.message_bytes
          (direction inbound c) in
      omega (arith, h.0, h.1)
  on_message-Balanced c inbound outbound m request = omega (
    arith,
    on_request-foreign hexdigest c.max_tracked_request_ids stream_id
        (origin_side_for inbound c.side) a inbound outbound m.canonical_id m.message_bytes
        (direction inbound c),
  )
  on_message-Balanced c outbound inbound m request = omega (
    arith,
    on_request-foreign hexdigest c.max_tracked_request_ids stream_id
        (origin_side_for outbound c.side) a outbound inbound m.canonical_id m.message_bytes
        (direction outbound c),
  )
  on_message-Balanced c outbound outbound m request =
      let h =
        on_request-waits hexdigest c.max_tracked_request_ids stream_id
          (origin_side_for outbound c.side) a outbound m.canonical_id m.message_bytes
          (direction outbound c) in
      omega (arith, h.0, h.1)
  on_message-Balanced c inbound inbound m response = omega (
    arith,
    on_response-foreign hexdigest c.max_tracked_request_ids stream_id
        (origin_side_for outbound c.side) a inbound m.canonical_id m.message_bytes
        (direction outbound c),
  )
  on_message-Balanced c inbound outbound m response =
      let h =
        on_response-waits hexdigest c.max_tracked_request_ids stream_id
          (origin_side_for outbound c.side) a outbound m.canonical_id m.message_bytes
          (direction outbound c) in
      omega (arith, h.0, h.1)
  on_message-Balanced c outbound inbound m response =
      let h =
        on_response-waits hexdigest c.max_tracked_request_ids stream_id
          (origin_side_for inbound c.side) a inbound m.canonical_id m.message_bytes
          (direction inbound c) in
      omega (arith, h.0, h.1)
  on_message-Balanced c outbound outbound m response = omega (
    arith,
    on_response-foreign hexdigest c.max_tracked_request_ids stream_id
        (origin_side_for inbound c.side) a outbound m.canonical_id m.message_bytes
        (direction inbound c),
  )

  framed-open_calls :
      (f g : Flow) (framer : LineFramer) (c : Correlator)
      → open_calls g (set_direction f (record (direction f c) { framer = framer }) c)
        ≡ open_calls g c
  framed-open_calls inbound inbound framer c = refl
  framed-open_calls inbound outbound framer c = refl
  framed-open_calls outbound inbound framer c = refl
  framed-open_calls outbound outbound framer c = refl

  new_correlator-open_calls :
      (side : Side) (max_bytes max_ids : ℕ) (g : Flow)
      → open_calls g (new_correlator side max_bytes max_ids) ≡ 0
  unfolding new_correlator total
  new_correlator-open_calls side max_bytes max_ids inbound = refl
  new_correlator-open_calls side max_bytes max_ids outbound = refl

  on_items-Balanced :
      (c : Correlator) (f g : Flow) (items : List Item)
      → Balanced g c (on_items hexdigest c stream_id f items)
  unfolding on_items on_item requests_with responses_with
  on_items-Balanced c f g [] = omega arith
  on_items-Balanced c f g (completed m ∷ items) =
      let (c', seen) = on_message hexdigest c stream_id f m m.kind in
      let more = (on_items hexdigest c' stream_id f items).1 in
      omega (
        arith,
        on_message-Balanced c f g m m.kind,
        on_items-Balanced c' f g items,
        requests_with-append a g seen more,
        responses_with-append a g seen more,
      )
  on_items-Balanced c f g (lost l ∷ items) =
      let c' = (on_item hexdigest c stream_id f (lost l)).0 in
      let same : open_calls g c' ≡ open_calls g c =
        if_keeps (λ (x : Correlator). open_calls g x ≡ open_calls g c) _ _ _
          (degrade_at-open_calls f g _ c) refl in
      omega (arith, same, on_items-Balanced c' f g items)

  module _ (classify : List ℕ → CompletedMessage) where
    feed-Balanced :
        (c : Correlator) (f g : Flow) (bytes : List ℕ)
        → Balanced g c (feed hexdigest classify c stream_id f bytes)
    unfolding feed
    feed-Balanced c f g bytes =
        let d = direction f c in
        let (framer, items) = framer_feed classify d.framer bytes in
        omega (
          arith,
          framed-open_calls f g framer c,
          on_items-Balanced (set_direction f (record d { framer = framer }) c) f g items,
        )

    observe_all-Balanced :
        (c : Correlator) (g : Flow) (chunks : List (Flow × List ℕ))
        → Balanced g c (observe_all hexdigest stream_id classify c chunks)
    unfolding observe_all requests_with responses_with
    observe_all-Balanced c g [] = omega arith
    observe_all-Balanced c g ((f, bytes) ∷ chunks) =
        let (c', seen) = feed hexdigest classify c stream_id f bytes in
        let more = (observe_all hexdigest stream_id classify c' chunks).1 in
        omega (
          arith,
          feed-Balanced c f g bytes,
          observe_all-Balanced c' g chunks,
          requests_with-append a g seen more,
          responses_with-append a g seen more,
        )

    -- Whatever a node sees of a stream from its start, no alias is given to more responses than it
    -- was given to requests of the opposite flow: a response that answers no observed request, or
    -- one that was answered before, is never paired.
    pub responses-le-requests :
        (side : Side) (max_bytes max_ids : ℕ) (g : Flow) (chunks : List (Flow × List ℕ))
        → let seen =
            (observe_all hexdigest stream_id classify
              (new_correlator side max_bytes max_ids)
              chunks).1 in
          responses_with a g seen ≤ requests_with a g seen
    responses-le-requests side max_bytes max_ids g chunks = omega (
      arith,
      observe_all-Balanced (new_correlator side max_bytes max_ids) g chunks,
      new_correlator-open_calls side max_bytes max_ids g,
    )
