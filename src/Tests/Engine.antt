-- ===== src/Tests/Engine.antt =====
-- connector_engine.py at concrete inputs.
use win_wsl_mcp_bridge.Base.{
  ℕ, ◌==◌, if◌then◌else◌, ◌≡◌, ◌≢◌, arith, refl, true, false, Option, none, some, List, [], ◌∷◌,
  map, ◌≤◌, String,
}
use win_wsl_mcp_bridge.Json.{
  Json, null, obj, str, int, arr, nil, pos, Fields, field, end, Key, number, hash_key, get_or_null,
}
use win_wsl_mcp_bridge.Json.Keys.{find, contains}
use win_wsl_mcp_bridge.Engine.Payload.{Codec, built_in, parse, error_payload}
use win_wsl_mcp_bridge.Engine.Recovery.{
  done, type_error, Recovery, Decision, make_recovery, handle_agent, remember_sent, record_sent,
  failed_message,
}
use win_wsl_mcp_bridge.Engine.Recovery.Node.{handle_node, response_of}
use win_wsl_mcp_bridge.Engine.Recovery.Failing.{fail_once, lost_requests}
use win_wsl_mcp_bridge.Engine.Recovery.Outstanding.{IsTidy}
use win_wsl_mcp_bridge.Engine.Recovery.Sifting.{unfailed}
use win_wsl_mcp_bridge.Engine.Recovery.Sifting.Times.{times}
use win_wsl_mcp_bridge.Engine.Recovery.Losses.{IsSettled, loss_settles}
use win_wsl_mcp_bridge.Engine.Recovery.Steps.{
  IsCached, Reach, here, next, agent_line, sent, drained,
}
use win_wsl_mcp_bridge.Engine.Recovery.Session.{handshake-IsCached, Reach-IsTidy, fail_once_forever}
use win_wsl_mcp_bridge.Engine.Recovery.Live.{IsAnswered, live_response}

abbrev answer : Json → Fields
answer id = field "id" id (field "result" (obj end) end)

-- A parser that knows three lines: an initialize request, a response and one with a list as its id.
loads : List ℕ → Option Json
loads (c ∷ []) =
    if c == 73
    then some (obj (field "id" (int (pos 0)) (field "method" (str "initialize") end)))
    else if c == 82
    then some (obj (answer (int (pos 7))))
    else if c == 85
    then some (obj (answer (arr nil)))
    else none
loads line = none

abbrev codec : Codec
codec = record { loads = loads; dumps = λ v. 123 ∷ 125 ∷ []; rstrip = λ s. s }

abbrev start : Recovery
start = make_recovery (some "0.4.2")

abbrev with_initialize : Recovery
with_initialize = (handle_agent built_in codec (73 ∷ []) start).0

-- Request 7, a tool call, is outstanding.
abbrev asked : Recovery
asked = record_sent (number (pos 7)) (int (pos 7)) (some "tools/call") true with_initialize

asked-Reach : Reach built_in codec start asked
unfolding remember_sent hash_key
asked-Reach =
    next (next here (agent_line (73 ∷ []) start))
      (sent (int (pos 7)) (some "tools/call") true with_initialize asked refl)

asked-IsTidy : IsTidy asked
asked-IsTidy = Reach-IsTidy built_in codec (some "0.4.2") asked-Reach

handshake-IsCached_example : IsCached built_in codec asked
handshake-IsCached_example = handshake-IsCached built_in codec (some "0.4.2") asked-Reach

loss_settles_example : IsSettled built_in codec "lost" asked
loss_settles_example = loss_settles built_in codec "lost" asked asked-IsTidy

abbrev after_loss : Recovery
after_loss = record (lost_requests asked).0 { failed = number (pos 7) ∷ [] }

hashed : hash_key (int (pos 7)) ≢ none
unfolding hash_key
hashed e = ground arith

known_once : 1 ≤ times (number (pos 7)) (int (pos 7) ∷ [])
unfolding times hash_key win_wsl_mcp_bridge.Json.key_eq
known_once = omega arith

abbrev known : Json
known = int (pos 7)

-- Request 7 failed once. A later call on requests 7 and 8 tells of request 8 alone.
abbrev both : List (Json × Option String)
both = (int (pos 8), none) ∷ (known, none) ∷ []

hashed_too : hash_key (int (pos 8)) ≢ none
unfolding hash_key
hashed_too e = ground arith

fail_once_forever_example :
    ((123 ∷ 125 ∷ 10 ∷ []) ∷ []
      ≡ map
          (λ id.
            error_payload codec id (failed_message built_in "lost" (lost_requests asked).0) true)
          (unfailed [] ((known, none) ∷ [])))
    × (fail_once built_in codec ((known, none) ∷ []) "again" false (lost_requests after_loss).0
        ≡ done ((lost_requests after_loss).0, []))
    × ((v : Recovery) × (fail_once built_in codec both "again" false (lost_requests after_loss).0
          ≡ done (
            v,
            map
                (λ id.
                  error_payload codec id
                    (failed_message built_in "again" (lost_requests after_loss).0)
                    false)
                (unfailed (number (pos 7) ∷ []) both),
          )))
    × (times (number (pos 7)) (unfailed (number (pos 7) ∷ []) both) ≡ 0)
unfolding fail_once hash_key contains lost_requests record_sent handle_agent
    win_wsl_mcp_bridge.Engine.Recovery.role_of_line parse loads get_or_null
    win_wsl_mcp_bridge.Json.has make_recovery win_wsl_mcp_bridge.Json.Keys.add error_payload
fail_once_forever_example =
    fail_once_forever built_in codec ((known, none) ∷ []) both "lost" "again" true false
      (lost_requests asked).0 (number (pos 7)) (hashed, tt) (hashed_too, (hashed, tt)) refl
      (next here (drained after_loss)) known_once

live_response_example :
    (s : Recovery) × (d : Decision) × (handle_node built_in codec (82 ∷ []) false asked
      ≡ done (s, d))
    × IsAnswered built_in codec (82 ∷ []) (answer (int (pos 7))) (number (pos 7)) asked s d
unfolding response_of parse loads get_or_null win_wsl_mcp_bridge.Json.has hash_key
live_response_example =
    live_response built_in codec (82 ∷ []) asked (answer (int (pos 7))) (number (pos 7))
      asked-IsTidy refl refl
