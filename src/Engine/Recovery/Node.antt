-- ===== src/Engine/Recovery/Node.antt =====
-- connector_engine.py: the node's lines, `Recovery.handle_node` and `_consume`.
use win_wsl_mcp_bridge.Base.{
  ℕ, String, Bool, true, false, not, ◌&&◌, Option, none, some, List, text_eq, if◌then◌else◌,
}
use win_wsl_mcp_bridge.Json.{
  Json, null, Fields, get_or_null, as_obj, non_empty, Key, hash_key, py_eq,
}
use win_wsl_mcp_bridge.Json.Keys.{find, drop_key}
use win_wsl_mcp_bridge.Engine.Payload.{
  Codec, Policy, parse, annotate_initialize_result, annotate_tool_result,
}
use win_wsl_mcp_bridge.Engine.Recovery.{
  stale, warning_line, Attempt, Decision, Recovery, absorb, absorb_done, agent, done, is_response,
  type_error,
}

abbrev pub method_of : Option (Json × Option String) → Option String
method_of none = none
method_of (some entry) = entry.1

unfoldable pub forget : Key → Recovery → Recovery
forget k r = record r { pending = drop_key k r.pending; uncertain = drop_key k r.uncertain }

unfoldable pub consume : Json → Recovery → Attempt (Recovery × Option String)
consume request_id r = elim (hash_key request_id) [
  | none ↦ type_error
  | some k ↦ done (forget k r, method_of (find k r.pending))
]

-- `isinstance(message.get("result"), dict) and bool(message["result"])`
abbrev pub has_result : Fields → Bool
has_result message = elim (as_obj (get_or_null "result" message)) [
  | none ↦ false
  | some fs ↦ non_empty fs
]

abbrev is_null : Json → Bool
is_null null = true
is_null _ = false

-- The line if it is a response with an id that is not `None`.
unfoldable pub response_of : Option Fields → Option Fields
response_of none = none
response_of (some message) =
    if not (is_null (get_or_null "id" message)) && is_response message then some message else none

abbrev pub forward : List ℕ → Decision
forward payload = record { kind = agent; payload = some payload }

abbrev pub calls : Option String → String → Bool
calls none name = false
calls (some m) name = text_eq m name

-- The annotations of a live response: `method` is that of the request it answers.
unfoldable pub annotate :
    Policy → Codec → List ℕ → Bool → Option String → Recovery → Recovery × Decision
annotate policy codec raw init_result method r =
    if init_result && (stale policy r && not r.init_annotated)
    then (
      record r { init_annotated = true },
      forward (annotate_initialize_result codec raw (warning_line policy r)),
    )
    else if calls method policy.call_method
        && (stale policy r && (policy.note_results_when_stale && not r.result_noted))
    then (
      record r { result_noted = true },
      forward (annotate_tool_result codec raw (warning_line policy r)),
    )
    else (r, forward raw)

-- A live response, with `message` as it parsed.
unfoldable pub deliver : Policy → Codec → List ℕ → Fields → Recovery → Attempt (Recovery × Decision)
unfolding consume
deliver policy codec raw message r =
    let id = get_or_null "id" message in
    elim (consume id r) [
      | type_error ↦ type_error
      | done (r', method) ↦
          done (annotate policy codec raw (py_eq id r'.init_id && has_result message) method r')
    ]

-- While the replay is absorbed only the answer to the cached initialize counts.
unfoldable pub absorb_line : Option Fields → Recovery → Decision
absorb_line none r = record { kind = absorb; payload = none }
absorb_line (some message) r =
    if py_eq (get_or_null "id" message) r.init_id && has_result message
    then record { kind = absorb_done; payload = none }
    else record { kind = absorb; payload = none }

unfoldable pub live_line :
    Policy → Codec → List ℕ → Option Fields → Recovery → Attempt (Recovery × Decision)
live_line policy codec raw none r = done (r, forward raw)
live_line policy codec raw (some message) r = deliver policy codec raw message r

unfoldable pub handle_node :
    Policy → Codec → List ℕ → Bool → Recovery → Attempt (Recovery × Decision)
unfolding response_of absorb_line live_line
handle_node policy codec raw true r = done (r, absorb_line (response_of (parse codec raw)) r)
handle_node policy codec raw false r = live_line policy codec raw (response_of (parse codec raw)) r
