-- ===== src/Backend/Policy.antt =====
-- `SharedBackend`: the policies on tool calls. A fixed view refuses what would change it; a lease gives the
-- tools that match its patterns to one client at a time.
use win_wsl_mcp_bridge.Base.{
  String, Bool, true, false, not, ◌&&◌, ◌||◌, Option, none, some, List, [], ◌∷◌, text_eq,
  if◌then◌else◌,
}
use win_wsl_mcp_bridge.Json.{
  Json, boolean, str, obj, arr, Items, nil, cons, Fields, end, field, get_or_null, as_obj, as_str,
  py_eq,
}
use win_wsl_mcp_bridge.Protocol.Modern.{opt_str, shape_modern_tool_result}
use win_wsl_mcp_bridge.Registration.Rules.{Rule, reject_rule_matches}
use win_wsl_mcp_bridge.Backend.State.{Wire, value_error, result_reply}
use win_wsl_mcp_bridge.Backend.Task.{Task, Step, pure, raise, reads, modify, ◌>>=◌, ◌>>◌}
use win_wsl_mcp_bridge.Backend.Requests.{send_client_message, enqueue_request}
use win_wsl_mcp_bridge.Backend.Responses.{modern_server_info, items_of}

abbrev or_empty : Option Fields → Fields
or_empty none = end
or_empty (some fields) = fields

-- The name and the arguments of the call.
abbrev call_in : Option Fields → Option String × Fields
call_in none = (none, end)
call_in (some params) =
    (as_str (get_or_null "name" params), or_empty (as_obj (get_or_null "arguments" params)))

unfoldable pub tool_call : Fields → Option String × Fields
tool_call message = call_in (as_obj (get_or_null "params" message))

-- `v in items`
unfoldable pub among : Json → Items → Bool
among v nil = false
among v (cons x items) = py_eq x v || among v items

unfoldable pub texts_in : Items → List String
texts_in nil = []
texts_in (cons (str s) items) = s ∷ texts_in items
texts_in (cons _ items) = texts_in items

-- A rule as the registry accepted it: its path and values are texts.
abbrev rule_of : String → Fields → Rule
rule_of tool fields = record {
  tool = tool;
  path = texts_in (items_of (get_or_null "path" fields));
  equals = texts_in (items_of (get_or_null "equals" fields));
}

abbrev rule_rejects : Option String → Fields → Json → Bool
rule_rejects none arguments rule = false
rule_rejects (some tool) arguments (obj rule) =
    py_eq (get_or_null "tool" rule) (str tool) && reject_rule_matches (rule_of tool rule) arguments
rule_rejects (some tool) arguments _ = false

unfoldable pub any_rejects : Option String → Fields → Items → Bool
any_rejects tool arguments nil = false
any_rejects tool arguments (cons rule rules) =
    rule_rejects tool arguments rule || any_rejects tool arguments rules

abbrev rejected_in : Option Fields → Option String × Fields → Bool
rejected_in none call = false
rejected_in (some state) (tool, arguments) =
    among (opt_str tool) (items_of (get_or_null "rejectTools" state))
    || any_rejects tool arguments (items_of (get_or_null "rejectCalls" state))

-- Whether the fixed view refuses the call.
unfoldable pub is_rejected : Fields → Fields → Bool
unfolding tool_call among any_rejects texts_in
is_rejected process_config message =
    rejected_in (as_obj (get_or_null "sharedState" process_config)) (tool_call message)

abbrev all_match : Fields → Fields → Bool
all_match end arguments = true
all_match (field k v expected) arguments =
    py_eq (get_or_null k arguments) v && all_match expected arguments

-- `_is_release_call`
unfoldable pub is_release_of : Fields → String → Fields → Bool
is_release_of lease tool arguments =
    py_eq (get_or_null "releaseTool" lease) (str tool)
    && all_match (or_empty (as_obj (get_or_null "releaseArguments" lease))) arguments

abbrev same_owner : Option String → String → Bool
same_owner none client = false
same_owner (some owner) client = text_eq owner client

abbrev is_held : Option String → Bool
is_held none = false
is_held (some owner) = true

-- What the lease makes of a call: it is none of its business, it is refused, or it is let in, as the
-- release or as a use.
pub data Claim : Type 0 where
  unleased busy : Claim
  granted : Bool → Claim

abbrev pub claim_of : Option String → String → Bool → Bool → Claim
claim_of owner client acquires is_release =
    if not acquires && not is_release
    then unleased
    else if not (same_owner owner client) && (is_held owner || is_release)
    then busy
    else granted is_release

abbrev policy_detail : String → Bool → Json
policy_detail code retryable =
    obj (field "code" (str code) (field "retryable" (boolean retryable) end))

abbrev policy_body : String → Bool → String → Json
policy_body code retryable message =
    obj (field "error" (policy_detail code retryable) (field "message" (str message) end))

abbrev taken_by : Option String → Bool → String → Option String → Option String
taken_by none is_release client owner = owner
taken_by (some id) true client owner = owner
taken_by (some id) false client none = some client
taken_by (some id) false client (some owner) = some owner

-- `if pending is not None and self.lease_owner is None and not is_release: self.lease_owner = client_id`
unfoldable pub take_lease : Option String → Bool → String → Step
take_lease pending is_release client =
    modify λ b. record b { lease_owner = taken_by pending is_release client b.lease_owner }

module _ (w : Wire) where
  unfoldable pub policy_result : String → Bool → String → Fields
  policy_result code retryable message =
      field "content"
        (arr (
          cons
            (obj (
              field "type" (str "text")
                (field "text" (str (w.compact (policy_body code retryable message))) end)))
            nil))
        (field "structuredContent" (policy_body code retryable message) (
          field "isError" (boolean true) (
            field "_meta"
              (obj (field "io.win-wsl-mcp-bridge/runtime" (policy_detail code retryable) end))
              end)))

  abbrev era_result : Bool → Fields → Option Fields
  era_result false result = some result
  era_result true result =
      shape_modern_tool_result (obj result) (modern_server_info w.server_version)

  unfoldable pub send_result : String → Json → Option Fields → Step
  send_result client id none = raise value_error
  send_result client id (some result) = send_client_message client (result_reply id result)

  unfoldable pub send_tool_policy_error : String → Json → String → Bool → String → Bool → Step
  send_tool_policy_error client id code retryable message modern =
      send_result client id (era_result modern (policy_result code retryable message))

  -- `True` where the call was refused and its client told.
  unfoldable pub reject_fixed_state_mutation : String → Fields → Bool → Task Bool
  reject_fixed_state_mutation client message modern = do
    refused ← reads (λ b. is_rejected b.process_config message)
    if refused
        then send_tool_policy_error client (get_or_null "id" message) "shared_view_fixed" false
            "This shared backend uses a fixed tool view; per-client view changes are disabled."
            modern
          >> pure true
        else pure false

  unfoldable pub matches_any : String → List String → Bool
  matches_any tool [] = false
  matches_any tool (pattern' ∷ patterns) = w.fnmatchcase tool pattern' || matches_any tool patterns

  unfoldable pub claim_under : Fields → Option String × Fields → Option String → String → Claim
  unfolding matches_any texts_in is_release_of
  claim_under lease (none, arguments) owner client = unleased
  claim_under lease (some tool, arguments) owner client =
      claim_of owner client
        (matches_any tool (texts_in (items_of (get_or_null "toolPatterns" lease))))
        (is_release_of lease tool arguments)

  abbrev pub claim_in : Option Fields → Fields → Option String → String → Claim
  claim_in none message owner client = unleased
  claim_in (some lease) message owner client = claim_under lease (tool_call message) owner client

  unfoldable pub claim : Fields → Option String → String → Fields → Claim
  unfolding claim_under tool_call
  claim process_config owner client message =
      claim_in (as_obj (get_or_null "clientLease" process_config)) message owner client

  unfoldable pub act_on : Claim → String → Fields → Bool → String → String → Task Bool
  act_on unleased client message modern uuid progress_uuid = pure false
  act_on busy client message modern uuid progress_uuid =
      send_tool_policy_error client (get_or_null "id" message) "client_lease_busy" true
        "The shared backend resource is owned by another client." modern
      >> pure true
  act_on (granted is_release) client message modern uuid progress_uuid = do
    pending ←
        enqueue_request w (some client) message
          (record { is_initialize = false; is_release = is_release; modern = modern }) uuid
          progress_uuid
    take_lease pending is_release client
    pure true

  -- `True` where the call was dealt with.
  unfoldable pub apply_lease_policy : String → Fields → Bool → String → String → Task Bool
  apply_lease_policy client message modern uuid progress_uuid = do
    c ← reads (λ b. claim b.process_config b.lease_owner client message)
    act_on c client message modern uuid progress_uuid
