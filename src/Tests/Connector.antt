-- ===== src/Tests/Connector.antt =====
-- connector_core.py at concrete inputs.
use win_wsl_mcp_bridge.Base.{
  ℕ, ◌==◌, if◌then◌else◌, ◌≡◌, refl, Bool, true, false, Option, none, some, List, [], ◌∷◌, ◌++◌,
}
use win_wsl_mcp_bridge.Json.{Json, obj, str, int, pos, field, end, Key, number}
use win_wsl_mcp_bridge.Engine.Payload.{Codec, built_in}
use win_wsl_mcp_bridge.Engine.Recovery.{done, Ensures, Recovery, make_recovery, record_sent}
use win_wsl_mcp_bridge.Engine.Recovery.Outstanding.{IsTidy}
use win_wsl_mcp_bridge.Engine.Recovery.Steps.{here, next, sent, Reach}
use win_wsl_mcp_bridge.Engine.Recovery.Session.{Reach-IsTidy}
use win_wsl_mcp_bridge.Connector.{
  Connector, new_connector, publish_agent_line, on_session_lost, finish_session,
}
use win_wsl_mcp_bridge.Connector.Session.{Session, receive, session_loop, session_loop-joined}
use win_wsl_mcp_bridge.Connector.Ends.{end_session, end_session-lost}
use win_wsl_mcp_bridge.Connector.Handshake.{
  IsDrained, finish_session-IsDrained, IsHeld, publish_agent_line-IsHeld,
}
use win_wsl_mcp_bridge.Connector.Loss.{IsFailed, on_session_lost-IsFailed}

-- A parser that knows two lines: `I` is an initialize request and `Q` a business request.
loads : List ℕ → Option Json
loads (c ∷ rest) =
    if c == 73
    then some (obj (field "id" (int (pos 0)) (field "method" (str "initialize") end)))
    else if c == 81
    then some (obj (field "id" (int (pos 7)) (field "method" (str "tools/call") end)))
    else none
loads [] = none

abbrev codec : Codec
codec = record { loads = loads; dumps = λ v. 123 ∷ 125 ∷ []; rstrip = λ s. s }

abbrev accepts : List (List ℕ) → List ℕ → Bool
accepts out bytes = true

abbrev start : Connector
start = new_connector built_in false false

publish_agent_line-IsHeld_example :
    Ensures
      (IsHeld built_in codec (81 ∷ 10 ∷ []) start)
      (publish_agent_line codec accepts true true (81 ∷ 10 ∷ []) start)
unfolding new_connector
publish_agent_line-IsHeld_example =
    publish_agent_line-IsHeld codec accepts true true (81 ∷ 10 ∷ []) start refl

-- One initialize request waits.
abbrev waiting : Connector
waiting = record start { queued = (73 ∷ 10 ∷ []) ∷ []; queued_bytes = 2 }

finish_session-IsDrained_example :
    Ensures (IsDrained waiting) (finish_session codec (λ line. true) waiting)
finish_session-IsDrained_example = finish_session-IsDrained codec (λ line. true) waiting refl

abbrev session : Session
session = record { absorbing = false; absorb_out = [] }

session_loop-joined_example :
    session_loop codec accepts true
      ((81 ∷ 10 ∷ 82 ∷ []) ∷ (83 ∷ 10 ∷ []) ∷ [])
      (80 ∷ [])
      session
      start
    ≡ receive codec accepts true ((81 ∷ 10 ∷ 82 ∷ []) ++ (83 ∷ 10 ∷ [])) (80 ∷ []) session start
unfolding session_loop receive win_wsl_mcp_bridge.Engine.Recovery.Node.handle_node
    win_wsl_mcp_bridge.Engine.Payload.parse loads new_connector
session_loop-joined_example =
    session_loop-joined codec accepts true (81 ∷ 10 ∷ 82 ∷ []) ((83 ∷ 10 ∷ []) ∷ []) (80 ∷ [])
      session start refl

end_session-lost_example :
    end_session codec accepts true true
      (83 ∷ [])
      session
      (record start { stdout = (82 ∷ 10 ∷ []) ∷ [] })
    ≡ on_session_lost codec accepts true (record start { stdout = (82 ∷ 10 ∷ []) ∷ [] })
unfolding receive win_wsl_mcp_bridge.Engine.Recovery.Node.handle_node
    win_wsl_mcp_bridge.Engine.Payload.parse loads new_connector
end_session-lost_example =
    end_session-lost codec accepts true true (82 ∷ 10 ∷ 83 ∷ []) [] session start
      (83 ∷ [], (session, record start { stdout = (82 ∷ 10 ∷ []) ∷ [] })) refl

-- Request 7 is outstanding on a session that is up.
abbrev asked : Recovery
asked = record_sent (number (pos 7)) (int (pos 7)) (some "tools/call") true (make_recovery none)

asked-Reach : Reach built_in codec (make_recovery none) asked
unfolding win_wsl_mcp_bridge.Engine.Recovery.remember_sent win_wsl_mcp_bridge.Json.hash_key
asked-Reach =
    next here (sent (int (pos 7)) (some "tools/call") true (make_recovery none) asked refl)

asked-IsTidy : IsTidy asked
asked-IsTidy = Reach-IsTidy built_in codec none asked-Reach

abbrev up : Connector
up = record start { recovery = asked; sock = some 3; session_up = true }

on_session_lost-IsFailed_example :
    (d : Connector) × (on_session_lost codec accepts true up ≡ done d) × IsFailed codec accepts up d
unfolding new_connector
on_session_lost-IsFailed_example = on_session_lost-IsFailed codec accepts true up asked-IsTidy refl
