-- ===== src/Connector.antt =====
-- connector_core.py: `PersistentConnector`. A method runs in one thread and is a function here; what the
-- outside does (whether a write succeeds, what arrives) is an argument.
pub mod Session
pub mod Handshake
pub mod Loss
pub mod Ends
pub mod Engines
use win_wsl_mcp_bridge.Base.{
  ℕ, ◌+◌, ◌-◌, String, Bool, true, false, not, ◌&&◌, ◌||◌, Option, none, some, List, [], ◌∷◌, ◌++◌,
  length, text_eq, if◌then◌else◌, leb, ltb, ◌*◌, zero, suc,
}
use win_wsl_mcp_bridge.Json.{Json}
use win_wsl_mcp_bridge.Engine.Payload.{Codec, Policy}
use win_wsl_mcp_bridge.Engine.Recovery.{
  Attempt, done, type_error, Recovery, AgentKind, initialize, request, Role, Decision, NodeKind,
  absorb_done, make_recovery, set_core, handle_agent, remember_sent, quiescent, export_handshake,
  import_handshake,
}
use win_wsl_mcp_bridge.Engine.Recovery.Node.{handle_node}
use win_wsl_mcp_bridge.Engine.Recovery.Failing.{fail_once, lost_requests}

-- The connector with its engine. `stdout` and `wire` hold what was written to the agent and to the node,
-- in order. A socket is known by a number.
pub record Connector : Type 0 where
  pub engine : Policy
  pub recovery : Recovery
  pub explicit_engine : Bool
  pub has_engine_dir : Bool
  pub sock : Option ℕ
  pub session_up : Bool
  pub shutdown : Bool
  pub eof_close : Bool
  pub fatal : Bool
  pub queued : List (List ℕ)
  pub queued_bytes : ℕ
  pub lost : Bool
  pub ready : Bool
  pub ever_established : Bool
  pub stdout : List (List ℕ)
  pub wire : List (List ℕ)

unfoldable pub new_connector : Policy → Bool → Bool → Connector
new_connector engine explicit_engine has_engine_dir = record {
  engine = engine;
  recovery = make_recovery none;
  explicit_engine = explicit_engine;
  has_engine_dir = has_engine_dir;
  sock = none;
  session_up = false;
  shutdown = false;
  eof_close = false;
  fatal = false;
  queued = [];
  queued_bytes = 0;
  lost = false;
  ready = false;
  ever_established = false;
  stdout = [];
  wire = [];
}

-- A failed write ends the connector. `accepts` says whether the agent takes the data after what it took.
unfoldable pub write_stdout :
    (List (List ℕ) → List ℕ → Bool) → List ℕ → Connector → Connector × Bool
write_stdout accepts bytes c =
    if accepts c.stdout bytes
    then (record c { stdout = c.stdout ++ bytes ∷ [] }, true)
    else (record c { fatal = true; shutdown = true }, false)

unfoldable pub write_payloads :
    (List (List ℕ) → List ℕ → Bool) → List (List ℕ) → Connector → Connector
unfolding write_stdout
write_payloads accepts [] c = c
write_payloads accepts (payload ∷ payloads) c =
    let (c', ok) = write_stdout accepts payload c in
    let rest = write_payloads accepts payloads c' in if ok then rest else c'

-- `_send_raw`: `sent` says whether the socket took the line.
unfoldable pub send_raw : Bool → List ℕ → Connector → Connector
send_raw sent raw c = if sent then record c { wire = c.wire ++ raw ∷ [] } else c

-- `role.kind in ("request", "initialize")`
abbrev pub is_call : AgentKind → Bool
is_call request = true
is_call initialize = true
is_call _ = false

abbrev pub is_open : Option ℕ → Bool
is_open none = false
is_open (some s) = true

abbrev pub with_recovery : Connector → Attempt Recovery → Attempt Connector
with_recovery c type_error = type_error
with_recovery c (done r) = done (record c { recovery = r })

-- The session is up. `current` says whether it still is after the send.
unfoldable pub publish_live : Bool → Bool → List ℕ → Role → Connector → Attempt Connector
unfolding send_raw
publish_live sent current raw role c =
    let c' = send_raw sent raw c in
    let remembered =
      with_recovery c' (remember_sent role.id role.method (sent && current) c'.recovery) in
    if is_call role.kind then remembered else done c'

abbrev pub answer :
    (List (List ℕ) → List ℕ → Bool)
    → Connector
    → Attempt (Recovery × List (List ℕ))
    → Attempt Connector
answer accepts c type_error = type_error
answer accepts c (done (r, payloads)) =
    done (write_payloads accepts payloads (record c { recovery = r }))

abbrev pub and_then {ℓ κ} : {A : Type ℓ} {B : Type κ} → Attempt A → (A → Attempt B) → Attempt B
and_then type_error f = type_error
and_then (done a) f = f a

module _ (codec : Codec) (accepts : List (List ℕ) → List ℕ → Bool) where
  -- The session is down: an initialize waits, a request fails at once, and all else is dropped.
  unfoldable pub publish_down : List ℕ → Role → AgentKind → Connector → Attempt Connector
  unfolding write_payloads
  publish_down raw role initialize c =
      done (record c { queued = c.queued ++ raw ∷ []; queued_bytes = c.queued_bytes + length raw })
  publish_down raw role request c = answer accepts c (
      fail_once c.engine codec ((role.id, role.method) ∷ []) c.engine.unavailable_reason false
        c.recovery)
  publish_down raw role _ c = done c

  unfoldable pub publish_agent_line : Bool → Bool → List ℕ → Connector → Attempt Connector
  unfolding publish_live publish_down
  publish_agent_line sent current raw c =
      let (r, role) = handle_agent c.engine codec raw c.recovery in
      let c' = record c { recovery = r } in
      if c.session_up && is_open c.sock
      then publish_live sent current raw role c'
      else publish_down raw role role.kind c'

  -- `_on_session_lost`
  unfoldable pub fail_lost : List (Json × Option String) → Connector → Attempt Connector
  fail_lost [] c = done c
  fail_lost (id ∷ ids) c =
      answer accepts c (fail_once c.engine codec (id ∷ ids) c.engine.lost_reason true c.recovery)

  abbrev pub mark_lost : Attempt Connector → Attempt Connector
  mark_lost type_error = type_error
  mark_lost (done c) = done (record c { lost = true })

  unfoldable pub on_session_lost : Bool → Connector → Attempt Connector
  unfolding fail_lost
  on_session_lost is_current c =
      let c' = record c { sock = if is_current then none else c.sock; session_up = false } in
      let (r, ids) = lost_requests c'.recovery in
      if c.eof_close || c.shutdown
      then done c'
      else mark_lost (fail_lost ids (record c' { recovery = r }))

-- An item that the new session took.
unfoldable pub note_sent : List ℕ → Role → Connector → Attempt Connector
note_sent item role c =
    let remembered = with_recovery c (remember_sent role.id role.method true c.recovery) in
    if is_call role.kind then remembered else done c

module _ (codec : Codec) where
  -- The queue is drained into the new session, which `takes` line after line. A line that it does not take
  -- goes back to the front. `queue` is what the connector holds in `queued`.
  unfoldable pub drain : (List ℕ → Bool) → List (List ℕ) → Connector → Attempt (Connector × Bool)
  unfolding send_raw note_sent
  drain takes [] c = done (c, true)
  drain takes (item ∷ queue) c =
      let (r, role) = handle_agent c.engine codec item c.recovery in
      let popped = record c {
        queued = queue;
        queued_bytes = c.queued_bytes - length item;
        recovery = r;
      } in
      if takes item
      then and_then (note_sent item role (send_raw true item popped))
          (λ next. drain takes queue next)
      else done (
        record popped {
          queued = item ∷ queue;
          queued_bytes = popped.queued_bytes + length item;
          sock = none;
        },
        false,
      )

  abbrev pub mark_up : Attempt (Connector × Bool) → Attempt (Connector × Bool)
  mark_up type_error = type_error
  mark_up (done (c, false)) = done (c, false)
  mark_up (done (c, true)) = done (record c { session_up = true; ever_established = true }, true)

  -- The end of `_establish`, once the session is ready.
  unfoldable pub finish_session : (List ℕ → Bool) → Connector → Attempt (Connector × Bool)
  unfolding drain
  finish_session takes c = mark_up (drain takes c.queued c)

-- `_maybe_reload_engine`: the candidate is what `load_engine` gave, if it raised nothing.
abbrev same_engine : Policy → Policy → Bool
same_engine p q =
    text_eq p.name q.name && (text_eq p.version q.version && text_eq p.core_version q.core_version)

unfoldable pub maybe_reload_engine : Option Policy → Connector → Connector × Bool
maybe_reload_engine none c = (c, false)
maybe_reload_engine (some candidate) c =
    if c.explicit_engine || not c.has_engine_dir
    then (c, false)
    else if same_engine candidate c.engine || not (quiescent c.recovery)
    then (c, false)
    else (
      record c {
        engine = candidate;
        recovery =
            import_handshake (export_handshake c.recovery) (make_recovery c.recovery.core_version);
      },
      true,
    )

-- The start of `_establish`: the session opens on socket `s` with the node's core version, and the cached
-- initialize is sent again, which `sent` says whether it was taken. The result says whether it is up, and
-- if so, whether the answer to the replay is awaited.
unfoldable pub start_session :
    Option Policy → Option Json → ℕ → Bool → Connector → Connector × Option Bool
unfolding maybe_reload_engine send_raw
start_session candidate none s sent c = ((maybe_reload_engine candidate c).0, none)
start_session candidate (some core) s sent c =
    let c' = (maybe_reload_engine candidate c).0 in
    let opened = record c' { recovery = set_core core c'.recovery } in
    let live = λ (d : Connector) (replay : Bool). record d {
      sock = some s;
      lost = false;
      ready = not replay;
    } in
    elim opened.recovery.init_raw [
      | none ↦ (live opened false, some false)
      | some raw ↦
          if sent then (live (send_raw true raw opened) true, some true) else (opened, none)
    ]
