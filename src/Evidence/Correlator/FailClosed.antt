-- ===== src/Evidence/Correlator/FailClosed.antt =====
-- `StreamCorrelator`: a direction that lost framing or classification stays so, and nothing that
-- would rest on it is attributed any more.
use win_wsl_mcp_bridge.Base.{
  ℕ, String, ◌≡◌, sym, ◌∙◌, ap, subst, Option, none, some, List, [], ◌∷◌, All, All-append, All-imp,
  arith,
}
use win_wsl_mcp_bridge.Evidence.Identity.{
  Flow, inbound, outbound, Side, Payload, origin_side_for, opposite_flow, opposite-opposite,
}
use win_wsl_mcp_bridge.Evidence.Classify.{
  Kind, request, response, notification, other, CompletedMessage, Item, completed, lost,
}
use win_wsl_mcp_bridge.Evidence.Framer.{feed as framer_feed}
use win_wsl_mcp_bridge.Evidence.Correlator.{
  Observation, Direction, Correlator, direction, set_direction, degrade, degrade_at, on_request,
  on_response, guard_request, admit_request, track_request, pair_response, degrade_other,
  on_message, on_item, on_items, feed,
}

-- The loss of a direction, which the source keeps as a reason.
abbrev pub IsLost : String → Flow → Correlator → Type 0
IsLost reason flow c = (direction flow c).lost_reason ≡ some reason

-- No request of the flow and no response of the opposite flow has an alias.
abbrev pub Silent : Flow → Observation → Type 0
Silent flow o =
    (o.kind ≡ request → o.flow ≡ flow → o.correlation_id ≡ none)
    × (o.kind ≡ response → o.flow ≡ opposite_flow flow → o.correlation_id ≡ none)

degrade-IsLost :
    (r : String) (s : String) (d : Direction)
    → d.lost_reason ≡ some r
    → (degrade s d).lost_reason ≡ some r
unfolding degrade
degrade-IsLost r s d h = ground arith

module _ (hexdigest : Payload → String) (stream_id : String) (r : String) where
  on_request-IsLost :
      (limit : ℕ) (origin : Side) (flow : Flow) (id : Option String) (n : ℕ) (d : Direction)
      → d.lost_reason ≡ some r
      → (on_request hexdigest limit stream_id origin flow id n d).0.lost_reason ≡ some r
  unfolding on_request guard_request admit_request track_request
  on_request-IsLost limit origin flow none n d h = h
  on_request-IsLost limit origin flow (some id) n d h = rw (h, on_request) h

  on_response-IsLost :
      (origin : Side) (flow : Flow) (id : Option String) (n : ℕ) (d : Direction)
      → d.lost_reason ≡ some r
      → (on_response hexdigest stream_id origin flow id n d).0.lost_reason ≡ some r
  unfolding on_response pair_response degrade
  on_response-IsLost origin flow none n d h = ground arith
  on_response-IsLost origin flow (some id) n d h = rw (h, on_response) h

  on_request-label :
      (limit : ℕ) (origin : Side) (flow : Flow) (id : Option String) (n : ℕ) (d : Direction)
      → All
          (λ o.
            (o.kind ≡ request)
            × (o.flow ≡ flow)
            × (d.lost_reason ≡ some r → o.correlation_id ≡ none))
          (on_request hexdigest limit stream_id origin flow id n d).1
  unfolding on_request guard_request admit_request track_request
  on_request-label limit origin flow id n d = ground arith

  on_response-label :
      (origin : Side) (flow : Flow) (id : Option String) (n : ℕ) (d : Direction)
      → All
          (λ o.
            (o.kind ≡ response)
            × (o.flow ≡ flow)
            × (d.lost_reason ≡ some r → o.correlation_id ≡ none))
          (on_response hexdigest stream_id origin flow id n d).1
  unfolding on_response pair_response
  on_response-label origin flow id n d = ground arith

-- A write to one flow that keeps its loss keeps every loss.
set-IsLost :
    (r : String) (f g : Flow) (d : Direction) (c : Correlator)
    → (IsLost r f c → d.lost_reason ≡ some r)
    → IsLost r g c
    → IsLost r g (set_direction f d c)
set-IsLost r inbound inbound d c h k = h k
set-IsLost r inbound outbound d c h k = k
set-IsLost r outbound inbound d c h k = k
set-IsLost r outbound outbound d c h k = h k

degrade_at-IsLost :
    (r s : String) (f g : Flow) (c : Correlator) → IsLost r g c → IsLost r g (degrade_at f s c)
degrade_at-IsLost r s f g c = set-IsLost r f g _ c (degrade-IsLost r s (direction f c))

degrade_other-IsLost :
    (r note : String) (f g : Flow) (c : Correlator)
    → IsLost r g c
    → IsLost r g (degrade_other f note c)
unfolding degrade_other
degrade_other-IsLost r note f g c h = ground (
  arith,
  degrade_at-IsLost r "response-id-unreadable" (opposite_flow f) g c h,
  degrade_at-IsLost r note f g c h,
)

module _ (r : String) (c : Correlator) (g : Flow) (h : IsLost r g c) where
  request-Silent :
      (f : Flow) (o : Observation)
      → (o.kind ≡ request)
        × (o.flow ≡ f)
        × ((direction f c).lost_reason ≡ some r → o.correlation_id ≡ none)
      → Silent g o
  request-Silent f o (k, l, quiet) =
      (λ _ same. quiet (subst (λ x. IsLost r x c) (sym same ∙ l) h), λ k' _. cc)

  response-Silent :
      (f : Flow) (o : Observation)
      → (o.kind ≡ response)
        × (o.flow ≡ f)
        × ((direction (opposite_flow f) c).lost_reason ≡ some r → o.correlation_id ≡ none)
      → Silent g o
  response-Silent f o (k, l, quiet) = (
    λ k' _. cc,
    λ _ same.
        quiet (
          subst (λ x. IsLost r x c) (sym (opposite-opposite g) ∙ ap opposite_flow (sym same ∙ l))
            h),
  )

module _ (hexdigest : Payload → String) (stream_id : String) (r : String) where
  on_message-IsLost :
      (c : Correlator) (f g : Flow) (m : CompletedMessage) (kind : Kind)
      → IsLost r g c
      → IsLost r g (on_message hexdigest c stream_id f m kind).0
  unfolding on_message
  on_message-IsLost c f g m notification h = h
  on_message-IsLost c f g m other h = degrade_other-IsLost r m.note f g c h
  on_message-IsLost c f g m request h =
      set-IsLost r f g _ c (on_request-IsLost hexdigest stream_id r _ _ f m.canonical_id _ _) h
  on_message-IsLost c f g m response h =
      set-IsLost r (opposite_flow f) g _ c
        (on_response-IsLost hexdigest stream_id r _ f m.canonical_id _ _) h

  on_message-Silent :
      (c : Correlator) (f g : Flow) (m : CompletedMessage) (kind : Kind)
      → IsLost r g c
      → All (Silent g) (on_message hexdigest c stream_id f m kind).1
  unfolding on_message
  on_message-Silent c f g m notification h = tt
  on_message-Silent c f g m other h = ((λ k _. cc, λ k _. cc), tt)
  on_message-Silent c f g m request h = All-imp _ (Silent g) _ (request-Silent r c g h f) (
      on_request-label hexdigest stream_id r c.max_tracked_request_ids (origin_side_for f c.side) f
        m.canonical_id m.message_bytes (direction f c))
  on_message-Silent c f g m response h = All-imp _ (Silent g) _ (response-Silent r c g h f) (
      on_response-label hexdigest stream_id r (origin_side_for (opposite_flow f) c.side) f
        m.canonical_id m.message_bytes (direction (opposite_flow f) c))

  on_item-IsLost :
      (c : Correlator) (f g : Flow) (item : Item)
      → IsLost r g c
      → IsLost r g (on_item hexdigest c stream_id f item).0
  unfolding on_item
  on_item-IsLost c f g (completed m) h = on_message-IsLost c f g m m.kind h
  on_item-IsLost c f g (lost l) h = ground (arith, degrade_at-IsLost r "oversized-line" f g c h)

  on_items-FailClosed :
      (c : Correlator) (f g : Flow) (items : List Item)
      → IsLost r g c
      → let (c', seen) = on_items hexdigest c stream_id f items in
        IsLost r g c' × All (Silent g) seen
  unfolding on_items on_item
  on_items-FailClosed c f g [] h = (h, tt)
  on_items-FailClosed c f g (completed m ∷ items) h =
      let c' = (on_message hexdigest c stream_id f m m.kind).0 in
      let rest = on_items-FailClosed c' f g items (on_message-IsLost c f g m m.kind h) in
      (rest.0, All-append (Silent g) _ _ (on_message-Silent c f g m m.kind h) rest.1)
  on_items-FailClosed c f g (lost l ∷ items) h =
      on_items-FailClosed (on_item hexdigest c stream_id f (lost l)).0 f g items
        (on_item-IsLost c f g (lost l) h)

  -- Once a direction has lost fidelity for a reason, no later chunk of either flow restores it or
  -- changes the reason, and from then on no request of that flow and no response to it, which
  -- travels in the opposite flow, is given an alias.
  pub feed-FailClosed :
      (classify : List ℕ → CompletedMessage) (c : Correlator) (f g : Flow) (bytes : List ℕ)
      → IsLost r g c
      → let (c', seen) = feed hexdigest classify c stream_id f bytes in
        IsLost r g c' × All (Silent g) seen
  unfolding feed
  feed-FailClosed classify c f g bytes h =
      let d = direction f c in
      let (framer, items) = framer_feed classify d.framer bytes in
      on_items-FailClosed (set_direction f (record d { framer = framer }) c) f g items
        (set-IsLost r f g (record d { framer = framer }) c (λ k. k) h)
