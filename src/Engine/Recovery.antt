-- ===== src/Engine/Recovery.antt =====
-- connector_engine.py: `Recovery`. A method that hashes an id raises a `TypeError` on a list or a
-- dict, before it changes anything.
pub mod Node
pub mod Failing
pub mod Outstanding
pub mod Sifting
pub mod Losses
pub mod Steps
pub mod Session
pub mod Live
use Prim.Native.String.{◌++◌ as text_append}
use win_wsl_mcp_bridge.Base.{
  ℕ, String, Bool, true, false, not, ◌&&◌, ◌||◌, Option, none, some, List, [], ◌∷◌, ◌++◌, map,
  text_eq, if◌then◌else◌,
}
use win_wsl_mcp_bridge.Json.{
  Json, null, str, Fields, get, has, get_or_null, as_str, as_obj, non_empty, Key, hash_key, py_eq,
}
use win_wsl_mcp_bridge.Json.Keys.{contains, add, find, drop_key, update}
use win_wsl_mcp_bridge.Engine.Payload.{
  Codec, Policy, parse, annotate_initialize_result, annotate_tool_result, error_payload,
}

pub data Attempt {ℓ} (A : Type ℓ) : Type ℓ where
  done : A → Attempt A
  type_error : Attempt A

-- What holds of the result, where there is one.
abbrev pub Ensures {ℓ κ} : {A : Type ℓ} → (A → Type κ) → Attempt A → Type κ
Ensures P (done a) = P a
Ensures P type_error = Unit

-- The entry of an outstanding request: the id as it was first given, and the method.
pub record Recovery : Type 0 where
  pub core_version : Option String
  pub init_raw : Option (List ℕ)
  pub init_id : Json
  pub initialized_raw : Option (List ℕ)
  pub pending : List (Key × (Json × Option String))
  pub uncertain : List (Key × (Json × Option String))
  pub failed : List Key
  pub init_annotated : Bool
  pub result_noted : Bool

pub data AgentKind : Type 0 where
  initialize initialized request response other : AgentKind

pub record Role : Type 0 where
  pub kind : AgentKind
  pub id : Json
  pub method : Option String

pub data NodeKind : Type 0 where
  absorb absorb_done agent : NodeKind

pub record Decision : Type 0 where
  pub kind : NodeKind
  pub payload : Option (List ℕ)

unfoldable pub make_recovery : Option String → Recovery
make_recovery core_version = record {
  core_version = core_version;
  init_raw = none;
  init_id = null;
  initialized_raw = none;
  pending = [];
  uncertain = [];
  failed = [];
  init_annotated = false;
  result_noted = false;
}

-- A version of the node's reply counts if it is a text with something in it.
unfoldable pub set_core : Json → Recovery → Recovery
set_core core_version r = record r {
  core_version = elim (as_str core_version) [
    | none ↦ none
    | some v ↦ if text_eq v "" then none else some v
  ];
}

abbrev pub is_response : Fields → Bool
is_response message = has "result" message || has "error" message

abbrev names : Json → String → Bool
names (str m) name = text_eq m name
names _ name = false

abbrev pub role_of : AgentKind → Json → Option String → Role
role_of kind id method = record { kind = kind; id = id; method = method }

-- What `handle_agent` caches.
unfoldable pub cache : List ℕ → AgentKind → Json → Recovery → Recovery
cache raw initialize id r = record r { init_raw = some raw; init_id = id }
cache raw initialized id r = record r { initialized_raw = some raw }
cache raw _ id r = r

module _ (policy : Policy) where
  unfoldable pub stale : Recovery → Bool
  stale r = elim r.core_version [
    | none ↦ false
    | some core ↦ not (text_eq core "") && not (text_eq core policy.core_version)
  ]

  abbrev shown : Option String → String
  shown none = "None"
  shown (some v) = v

  infixr 66 ◌<>◌
  abbrev ◌<>◌ : String → String → String
  a <> b = text_append a b

  unfoldable pub warning_line : Recovery → String
  warning_line r =
      "Bridge core mismatch: connector engine "
      <> policy.name
      <> " v"
      <> policy.version
      <> " expects node core "
      <> policy.core_version
      <> ", node reports "
      <> shown r.core_version
      <> "."

  unfoldable pub failed_message : String → Recovery → String
  unfolding warning_line
  failed_message plain r = if stale r then plain <> " (" <> warning_line r <> ")" else plain

  -- The branches of `handle_agent` on a parsed line.
  unfoldable pub role_of_message : Fields → Role
  role_of_message message =
      let id = get_or_null "id" message in
      let method = get_or_null "method" message in
      if names method policy.initialize_method && has "id" message
      then role_of initialize id (some policy.initialize_method)
      else if names method policy.initialized_notification
      then role_of initialized null none
      else elim (as_str method) [
        | some m ↦
            if has "id" message
            then (if is_response message
                then role_of response id none
                else role_of request id (some m))
            else role_of other null none
        | none ↦
            if has "id" message && is_response message
            then role_of response id none
            else role_of other null none
      ]

  unfoldable pub role_of_line : Option Fields → Role
  unfolding role_of_message
  role_of_line none = role_of other null none
  role_of_line (some message) = role_of_message message

  module _ (codec : Codec) where
    unfoldable pub handle_agent : List ℕ → Recovery → Recovery × Role
    unfolding cache
    handle_agent raw r =
        let role = role_of_line (parse codec raw) in (cache raw role.kind role.id r, role)

abbrev pub keep : Json → Option String → Option (Json × Option String) → Json × Option String
keep request_id method none = (request_id, method)
keep request_id method (some entry) = (entry.0, method)

unfoldable pub record_sent : Key → Json → Option String → Bool → Recovery → Recovery
record_sent k request_id method current r =
    if current
    then record r { pending = update k (keep request_id method) r.pending }
    else if contains k r.failed
    then r
    else record r { uncertain = update k (keep request_id none) r.uncertain }

unfoldable pub remember_sent : Json → Option String → Bool → Recovery → Attempt Recovery
remember_sent request_id method current r = elim (hash_key request_id) [
  | none ↦ type_error
  | some k ↦ done (record_sent k request_id method current r)
]

unfoldable pub export_handshake : Recovery → Option (List ℕ) × Json × Option (List ℕ)
export_handshake r = (r.init_raw, r.init_id, r.initialized_raw)

unfoldable pub import_handshake : Option (List ℕ) × Json × Option (List ℕ) → Recovery → Recovery
import_handshake (raw, id, initialized_raw) r = record r {
  init_raw = raw;
  init_id = id;
  initialized_raw = initialized_raw;
}

abbrev is_nil {ℓ} : {A : Type ℓ} → List A → Bool
is_nil [] = true
is_nil (x ∷ xs) = false

unfoldable pub quiescent : Recovery → Bool
quiescent r = is_nil r.pending && is_nil r.uncertain

unfoldable pub replay_available : Recovery → Bool
replay_available r = elim r.init_raw [ none ↦ false | some raw ↦ true ]
