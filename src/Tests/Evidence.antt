-- ===== src/Tests/Evidence.antt =====
-- stream_evidence.py at concrete inputs.
use win_wsl_mcp_bridge.Base.{
  ℕ, ◌==◌, if◌then◌else◌, true, ◌≤◌, String, ◌≡◌, refl, Option, none, some, List, [], ◌∷◌, length,
  All, map, inr, arith,
}
use win_wsl_mcp_bridge.Base.Dict
use mathlib.Core.List.{flatten}
use win_wsl_mcp_bridge.Json.{Json, obj, str, int, pos, field, end}
use win_wsl_mcp_bridge.Evidence.Identity.{
  Flow, inbound, outbound, win, peer_side, Payload, alias_from_canonical,
}
use win_wsl_mcp_bridge.Evidence.Classify.{CompletedMessage, classify_line, Kind, request, response}
use win_wsl_mcp_bridge.Evidence.Framer.{LineFramer, new_framer, feed as framer_feed}
use win_wsl_mcp_bridge.Evidence.Framer.Scan.{IsSound, feed-scan, scan}
use win_wsl_mcp_bridge.Evidence.Framer.Fragments.{feed-fragments, feed_all, new_framer-IsSound}
use win_wsl_mcp_bridge.Evidence.Framer.Counts.{Fits, feed-bounds}
use win_wsl_mcp_bridge.Evidence.Correlator.{
  Observation, unattributed, Correlator, Direction, new_correlator, new_direction, direction,
  degrade_at, on_request, on_response, feed, get_or,
}
use win_wsl_mcp_bridge.Evidence.Correlator.Mirror.{
  nodes_agree, observe_all, mirror_observation, seen_by_peer,
}
use win_wsl_mcp_bridge.Evidence.Correlator.Answered.{responses-le-requests}
use win_wsl_mcp_bridge.Evidence.Correlator.Tally.{requests_with, responses_with}
use win_wsl_mcp_bridge.Evidence.Correlator.FailClosed.{feed-FailClosed, IsLost, Silent}
use win_wsl_mcp_bridge.Evidence.Correlator.Tracking.{
  feed-IsConsistent, IsConsistent, new_correlator-IsConsistent,
}
use win_wsl_mcp_bridge.Evidence.Correlator.Pairing.{request_response, IsReady}

-- A parser that knows two lines: `Q` is a request and `R` the response to it.
loads : List ℕ → Option Json
loads (c ∷ []) =
    if c == 81
    then some (obj (field "id" (int (pos 7)) (field "method" (str "tools/call") end)))
    else if c == 82
    then some (obj (field "id" (int (pos 7)) (field "result" (obj end) end)))
    else none
loads line = none

abbrev classify : List ℕ → CompletedMessage
classify line = classify_line loads line

-- A digest that keeps the canonical id.
abbrev hexdigest : Payload → String
hexdigest p = p.i

abbrev framer : LineFramer
framer = new_framer 4096

abbrev chunks : List (List ℕ)
chunks = (81 ∷ []) ∷ (13 ∷ 10 ∷ 82 ∷ []) ∷ (10 ∷ 83 ∷ []) ∷ []

abbrev bytes : List ℕ
bytes = 81 ∷ 13 ∷ 10 ∷ 82 ∷ []

abbrev exchange : List (Flow × List ℕ)
exchange = (inbound, 81 ∷ []) ∷ (inbound, 10 ∷ []) ∷ (outbound, 82 ∷ 10 ∷ 82 ∷ 10 ∷ []) ∷ []

feed-fragments_example :
    feed_all classify framer chunks ≡ framer_feed classify framer (flatten chunks)
feed-fragments_example = feed-fragments classify framer chunks (new_framer-IsSound 4096)

feed-scan_example : framer_feed classify framer bytes ≡ scan classify framer bytes
feed-scan_example = feed-scan classify framer bytes (new_framer-IsSound 4096)

feed-bounds_example :
    All (Fits framer.max_message_bytes) (framer_feed classify framer bytes).1
    × (length (framer_feed classify framer bytes).0.buffer ≤ framer.max_message_bytes)
feed-bounds_example = feed-bounds loads framer bytes (new_framer-IsSound 4096)

-- A framer in the middle of a line that is too long.
abbrev dropping : LineFramer
dropping = record {
  max_message_bytes = 1024;
  buffer = [];
  overflow = true;
  overflow_line_bytes = 2000;
  oversized_messages = 3;
  oversized_bytes = 9000;
  partial_bytes = 0;
}

dropping-IsSound : IsSound dropping
dropping-IsSound = record {
  bounded = omega arith;
  dropping = λ e. refl;
  keeping = λ e. cc;
  over = λ e. omega arith;
}

nodes_agree_example :
    (observe_all hexdigest "s" classify
      (new_correlator (peer_side win) 4096 64)
      (seen_by_peer exchange)).1
    ≡ map mirror_observation
        (observe_all hexdigest "s" classify (new_correlator win 4096 64) exchange).1
nodes_agree_example = nodes_agree hexdigest "s" classify win 4096 64 exchange

responses-le-requests_example :
    responses_with "ev1:i:7" inbound
      (observe_all hexdigest "s" classify (new_correlator win 4096 64) exchange).1
    ≤ requests_with "ev1:i:7" inbound
        (observe_all hexdigest "s" classify (new_correlator win 4096 64) exchange).1
responses-le-requests_example =
    responses-le-requests hexdigest "s" "ev1:i:7" classify win 4096 64 inbound exchange

abbrev lost_inbound : Correlator
lost_inbound = degrade_at inbound "oversized-line" (new_correlator win 4096 64)

feed-FailClosed_example :
    IsLost "oversized-line" inbound
      (feed hexdigest classify lost_inbound "s" inbound (81 ∷ 10 ∷ [])).0
    × All (Silent inbound) (feed hexdigest classify lost_inbound "s" inbound (81 ∷ 10 ∷ [])).1
unfolding win_wsl_mcp_bridge.Evidence.Correlator.degrade new_correlator
feed-FailClosed_example =
    feed-FailClosed hexdigest "s" "oversized-line" classify lost_inbound inbound inbound
      (81 ∷ 10 ∷ []) refl

feed-IsConsistent_example :
    IsConsistent (feed hexdigest classify (new_correlator win 4096 64) "s" inbound (81 ∷ 10 ∷ [])).0
feed-IsConsistent_example =
    feed-IsConsistent hexdigest "s" classify (new_correlator win 4096 64) inbound (81 ∷ 10 ∷ [])
      (new_correlator-IsConsistent win 4096 64)

abbrev direction_at_start : Direction
direction_at_start = new_direction 4096

ready : IsReady 16 "i:7" direction_at_start
unfolding new_direction Dict.lookup Dict.has
ready = record { not_lost = refl; free = refl; room = inr (refl, refl) }

abbrev after_request : Direction × List Observation
after_request = on_request hexdigest 16 "s" win inbound (some "i:7") 20 direction_at_start

abbrev after_response : Direction × List Observation
after_response = on_response hexdigest "s" win outbound (some "i:7") 30 after_request.0

observed : Kind → Flow → ℕ → Observation
observed kind flow n = record {
  kind = kind;
  correlation_id = some (alias_from_canonical hexdigest "s" win "i:7" 1);
  flow = flow;
  message_bytes = n;
  occurrence = some 1;
  note = "";
}

request_response_example :
    (after_request.1 ≡ observed request inbound 20 ∷ [])
    × (after_response.1 ≡ observed response outbound 30 ∷ [])
    × IsReady 16 "i:7" after_response.0
    × ((on_response hexdigest "s" win outbound (some "i:7") 30 after_response.0).1
        ≡ unattributed response outbound 30 "response-without-observed-request" ∷ [])
unfolding observed Dict.lookup new_direction
request_response_example =
    request_response hexdigest 16 "s" win inbound outbound "i:7" 20 30 30 direction_at_start ready
