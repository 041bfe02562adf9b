-- ===== src/Evidence/Correlator.antt =====
-- stream_evidence.py: `StreamCorrelator`. What the source keeps in one dict for each attribute,
-- keyed by the flow, is here one record for each flow.
pub mod Mirror
pub mod FailClosed
pub mod Tracking
pub mod Pairing
pub mod Tally
pub mod Answered
use Prim.Native.String.{◌++◌ as text_append}
use win_wsl_mcp_bridge.Base.{
  ℕ, zero, suc, ◌+◌, ◌-◌, String, Bool, true, false, ◌||◌, not, ◌&&◌, Option, none, some, List, [],
  ◌∷◌, ◌++◌, length, ltb, leb, text_eq, if◌then◌else◌,
}
use win_wsl_mcp_bridge.Base.Dict
use win_wsl_mcp_bridge.Evidence.Identity.{
  Flow, inbound, outbound, Side, Payload, origin_side_for, opposite_flow, alias_from_canonical,
}
use win_wsl_mcp_bridge.Evidence.Classify.{
  Kind, request, response, notification, other, CompletedMessage, Item, completed, lost,
}
use win_wsl_mcp_bridge.Evidence.Framer.{
  LineFramer, new_framer, feed as framer_feed, close, lost_oversized_line,
}

abbrev pub lost_response_id_unreadable : String
lost_response_id_unreadable = "response-id-unreadable"

abbrev pub lost_concurrent_reuse : String
lost_concurrent_reuse = "concurrent-id-reuse-ambiguous"

pub record Observation : Type 0 where
  pub kind : Kind
  pub correlation_id : Option String
  pub flow : Flow
  pub message_bytes : ℕ
  pub occurrence : Option ℕ
  pub note : String

-- The state of one direction. `pending` holds, for an id, the occurrences that wait for a response.
pub record Direction : Type 0 where
  pub framer : LineFramer
  pub occurrences : List (String × ℕ)
  pub pending : List (String × List ℕ)
  pub degraded_capacity : Bool
  pub lost_reason : Option String
  pub counted_oversized : ℕ × ℕ

pub record Correlator : Type 0 where
  pub side : Side
  pub max_tracked_request_ids : ℕ
  pub received : Direction
  pub sent : Direction

unfoldable pub new_direction : ℕ → Direction
unfolding new_framer
new_direction max_message_bytes = record {
  framer = new_framer max_message_bytes;
  occurrences = [];
  pending = [];
  degraded_capacity = false;
  lost_reason = none;
  counted_oversized = (0, 0);
}

unfoldable pub new_correlator : Side → ℕ → ℕ → Correlator
unfolding new_direction
new_correlator side max_message_bytes max_tracked_request_ids = record {
  side = side;
  max_tracked_request_ids = if ltb max_tracked_request_ids 16 then 16 else max_tracked_request_ids;
  received = new_direction max_message_bytes;
  sent = new_direction max_message_bytes;
}

-- `self.…[flow]`, read and written
abbrev pub direction : Flow → Correlator → Direction
direction inbound c = c.received
direction outbound c = c.sent

abbrev pub set_direction : Flow → Direction → Correlator → Correlator
set_direction inbound d c = record c { received = d }
set_direction outbound d c = record c { sent = d }

-- The first reason stays.
unfoldable pub degrade : String → Direction → Direction
degrade reason d = elim d.lost_reason [ none ↦ record d { lost_reason = some reason } | some r ↦ d ]

abbrev pub degrade_at : Flow → String → Correlator → Correlator
degrade_at flow reason c = set_direction flow (degrade reason (direction flow c)) c

abbrev pub unattributed : Kind → Flow → ℕ → String → Observation
unattributed kind flow message_bytes note = record {
  kind = kind;
  correlation_id = none;
  flow = flow;
  message_bytes = message_bytes;
  occurrence = none;
  note = note;
}

abbrev pub degraded_note : String → String
degraded_note reason = text_append "direction-degraded:" reason

abbrev pub get_or {ℓ} : {A : Type ℓ} → A → Option A → A
get_or d none = d
get_or d (some a) = a

-- The truth of `self._pending[flow].get(id)`: `None` and an empty list are false.
abbrev pub is_waiting : Option (List ℕ) → Bool
is_waiting none = false
is_waiting (some []) = false
is_waiting (some (n ∷ ns)) = true

-- `message.kind == KIND_OTHER`: which direction the note degrades.
unfoldable pub degrade_other : Flow → String → Correlator → Correlator
degrade_other flow note c =
    if text_eq note "response-without-scalar-id"
    then degrade_at (opposite_flow flow) lost_response_id_unreadable c
    else if text_eq note "unparseable"
        || text_eq note "not-an-object"
        || text_eq note "unrecognized-envelope"
    then degrade_at flow note c
    else c

module _ (hexdigest : Payload → String) where
  -- A request that passes the guards takes the next occurrence of its id.
  unfoldable pub track_request :
      String → Side → Flow → String → ℕ → Direction → Direction × List Observation
  track_request stream_id origin flow id message_bytes d =
      let occurrence = get_or 0 (Dict.lookup id d.occurrences) + 1 in
      (
        record d {
          occurrences = Dict.insert id occurrence d.occurrences;
          pending = Dict.insert id (occurrence ∷ []) d.pending;
        },
        record {
          kind = request;
          correlation_id = some (alias_from_canonical hexdigest stream_id origin id occurrence);
          flow = flow;
          message_bytes = message_bytes;
          occurrence = some occurrence;
          note = "";
        }
            ∷ [],
      )

  -- The test for a second outstanding use of the id.
  unfoldable pub admit_request :
      String → Side → Flow → String → ℕ → Direction → Direction × List Observation
  admit_request stream_id origin flow id message_bytes d =
      if is_waiting (Dict.lookup id d.pending)
      then (
        record (degrade lost_concurrent_reuse d) { pending = [] },
        unattributed request flow message_bytes (degraded_note lost_concurrent_reuse) ∷ [],
      )
      else track_request stream_id origin flow id message_bytes d

  -- The capacity test: a new id that finds no room is only counted, with no observation.
  unfoldable pub guard_request :
      ℕ → String → Side → Flow → String → ℕ → Direction → Direction × List Observation
  guard_request limit stream_id origin flow id message_bytes d =
      if Dict.has id d.occurrences
      then admit_request stream_id origin flow id message_bytes d
      else if d.degraded_capacity
      then (d, [])
      else if leb limit (length d.occurrences)
      then (record d { degraded_capacity = true }, [])
      else admit_request stream_id origin flow id message_bytes d

  -- `message.kind == KIND_REQUEST`
  unfoldable pub on_request :
      ℕ → String → Side → Flow → Option String → ℕ → Direction → Direction × List Observation
  on_request limit stream_id origin flow none message_bytes d =
      (d, unattributed request flow message_bytes "request-id-unbounded" ∷ [])
  on_request limit stream_id origin flow (some id) message_bytes d = elim d.lost_reason [
    | some reason ↦ (d, unattributed request flow message_bytes (degraded_note reason) ∷ [])
    | none ↦ guard_request limit stream_id origin flow id message_bytes d
  ]

  -- The branches on `pending = self._pending[opposite].get(id)`; `d` is the opposite direction.
  unfoldable pub pair_response :
      String → Side → Flow → String → ℕ → Option (List ℕ) → Direction → Direction × List Observation
  pair_response stream_id origin flow id message_bytes none d =
      (d, unattributed response flow message_bytes "response-without-observed-request" ∷ [])
  pair_response stream_id origin flow id message_bytes (some []) d =
      (d, unattributed response flow message_bytes "response-without-observed-request" ∷ [])
  pair_response stream_id origin flow id message_bytes (some (occurrence ∷ [])) d = (
    record d { pending = Dict.insert id [] d.pending },
    record {
      kind = response;
      correlation_id = some (alias_from_canonical hexdigest stream_id origin id occurrence);
      flow = flow;
      message_bytes = message_bytes;
      occurrence = some occurrence;
      note = "";
    }
        ∷ [],
  )
  pair_response stream_id origin flow id message_bytes (some (n ∷ m ∷ ns)) d = (
    degrade lost_concurrent_reuse d,
    unattributed response flow message_bytes (degraded_note lost_concurrent_reuse) ∷ [],
  )

  -- `message.kind == KIND_RESPONSE`
  unfoldable pub on_response :
      String → Side → Flow → Option String → ℕ → Direction → Direction × List Observation
  on_response stream_id origin flow none message_bytes d = (
    degrade lost_response_id_unreadable d,
    unattributed response flow message_bytes "response-id-unbounded" ∷ [],
  )
  on_response stream_id origin flow (some id) message_bytes d = elim d.lost_reason [
    | some reason ↦ (d, unattributed response flow message_bytes (degraded_note reason) ∷ [])
    | none ↦ pair_response stream_id origin flow id message_bytes (Dict.lookup id d.pending) d
  ]

  unfoldable pub on_message :
      Correlator → String → Flow → CompletedMessage → Kind → Correlator × List Observation
  unfolding on_request on_response degrade_other guard_request admit_request track_request
      pair_response
  on_message c stream_id flow message notification = (c, [])
  on_message c stream_id flow message other = (
    degrade_other flow message.note c,
    unattributed other flow message.message_bytes message.note ∷ [],
  )
  on_message c stream_id flow message request =
      let (d, seen) =
        on_request c.max_tracked_request_ids stream_id (origin_side_for flow c.side) flow
          message.canonical_id message.message_bytes (direction flow c) in
      (set_direction flow d c, seen)
  on_message c stream_id flow message response =
      let (d, seen) =
        on_response stream_id (origin_side_for (opposite_flow flow) c.side) flow
          message.canonical_id message.message_bytes (direction (opposite_flow flow) c) in
      (set_direction (opposite_flow flow) d c, seen)

  -- One round of the loop of `feed`.
  unfoldable pub on_item : Correlator → String → Flow → Item → Correlator × List Observation
  unfolding on_message
  on_item c stream_id flow (lost loss) = (
    if text_eq loss.reason lost_oversized_line then degrade_at flow lost_oversized_line c else c,
    [],
  )
  on_item c stream_id flow (completed message) = on_message c stream_id flow message message.kind

  unfoldable pub on_items : Correlator → String → Flow → List Item → Correlator × List Observation
  on_items c stream_id flow [] = (c, [])
  on_items c stream_id flow (item ∷ items) =
      let (c', seen) = on_item c stream_id flow item in
      let (c'', more) = on_items c' stream_id flow items in (c'', seen ++ more)

  -- `classify` is `_classify_line`, which the framers call.
  unfoldable pub feed :
      (List ℕ → CompletedMessage)
      → Correlator
      → String
      → Flow
      → List ℕ
      → Correlator × List Observation
  unfolding on_items on_item framer_feed
  feed classify c stream_id flow bytes =
      let d = direction flow c in
      let (f, items) = framer_feed classify d.framer bytes in
      on_items (set_direction flow (record d { framer = f }) c) stream_id flow items

-- The counters since the last call. They never fall, so the truncated difference is exact.
unfoldable pub take_oversized_delta : Flow → Correlator → Correlator × ℕ × ℕ
take_oversized_delta flow c =
    let d = direction flow c in
    let f = d.framer in
    let base = d.counted_oversized in
    (
      set_direction flow
          (record d { counted_oversized = (f.oversized_messages, f.oversized_bytes) }) c,
      f.oversized_messages - base.0,
      f.oversized_bytes - base.1,
    )

unfoldable pub take_final_counts : Flow → Correlator → Correlator × ℕ × ℕ × ℕ
unfolding close
take_final_counts flow c =
    let d = direction flow c in
    let f = close d.framer in
    let base = d.counted_oversized in
    (
      set_direction flow
          (record d { framer = f; counted_oversized = (f.oversized_messages, f.oversized_bytes) })
          c,
      f.oversized_messages - base.0,
      f.oversized_bytes - base.1,
      f.partial_bytes,
    )

abbrev is_degraded : Direction → Bool
is_degraded d = elim d.lost_reason [ none ↦ d.degraded_capacity | some r ↦ true ]

unfoldable pub degraded_flows : Correlator → List Flow
degraded_flows c =
    (if is_degraded c.received then inbound ∷ [] else [])
    ++ (if is_degraded c.sent then outbound ∷ [] else [])
