-- ===== src/Protocol/Tools.antt =====
-- bridge_protocol.py: the projection of tool entries and of `tools/list` results.
pub mod Downgrade
use win_wsl_mcp_bridge.Base.{
  ℕ, String, Bool, true, false, ◌&&◌, List, [], ◌∷◌, Option, none, some, ◌≡◌, refl, text_eq,
  if◌then◌else◌, arith, eq_iff,
}
use win_wsl_mcp_bridge.Json.{
  Json, null, boolean, str, obj, arr, Items, nil, cons, Fields, end, field, get, get_or_null, put,
  as_obj,
}
use win_wsl_mcp_bridge.Protocol.Revisions.{
  Rejection, unverified_version, not_an_object, not_an_array, Outcome, value, rejected,
  for_verified, legacy_revision_at_least, is_verified,
}

-- The gates of `legacy_tools_profile`.
pub record Profile : Type 0 where
  pub annotations : Bool
  pub title : Bool
  pub output_schema : Bool
  pub structured_content : Bool
  pub icons : Bool

unfoldable pub profile_of : String → Profile
profile_of version = record {
  annotations = legacy_revision_at_least version "2025-03-26";
  title = legacy_revision_at_least version "2025-06-18";
  output_schema = legacy_revision_at_least version "2025-06-18";
  structured_content = legacy_revision_at_least version "2025-06-18";
  icons = legacy_revision_at_least version "2025-11-25";
}

unfoldable pub legacy_tools_profile : String → Outcome Profile
unfolding profile_of
legacy_tools_profile version = for_verified version (profile_of version)

abbrev pub is_text : Json → Bool
is_text (str s) = true
is_text _ = false

abbrev pub is_dict : Json → Bool
is_dict (obj fs) = true
is_dict _ = false

abbrev pub is_list : Json → Bool
is_list (arr xs) = true
is_list _ = false

-- `if allowed and isinstance(tool.get(key), …): out[key] = tool[key]`
unfoldable pub keep : String → Bool → (Json → Bool) → Fields → Fields → Fields
keep key allowed is_kind tool out =
    if allowed && is_kind (get_or_null key tool) then put key (get_or_null key tool) out else out

unfoldable pub project_fields : Profile → Fields → Fields
unfolding keep
project_fields profile tool =
    let out = field "name" (get_or_null "name" tool) end in
    let out = keep "description" true is_text tool out in
    let out = keep "inputSchema" true is_dict tool out in
    let out = keep "annotations" profile.annotations is_dict tool out in
    let out = keep "title" profile.title is_text tool out in
    let out = keep "outputSchema" profile.output_schema is_dict tool out in
    keep "icons" profile.icons is_list tool out

-- `None` for what is no dict with a text for its name.
unfoldable pub project_legacy_tool_for_profile : Profile → Json → Option Fields
unfolding project_fields
project_legacy_tool_for_profile profile (obj tool) =
    if is_text (get_or_null "name" tool) then some (project_fields profile tool) else none
project_legacy_tool_for_profile profile _ = none

unfoldable pub project_legacy_tool : String → Json → Outcome (Option Fields)
unfolding legacy_tools_profile
project_legacy_tool version tool = elim (legacy_tools_profile version) [
  | rejected reason ↦ rejected reason
  | value profile ↦ value (project_legacy_tool_for_profile profile tool)
]

-- The entries that are kept.
unfoldable pub project_entries : Profile → Items → Items
project_entries profile nil = nil
project_entries profile (cons tool tools) = elim (project_legacy_tool_for_profile profile tool) [
  | none ↦ project_entries profile tools
  | some entry ↦ cons (obj entry) (project_entries profile tools)
]

-- The branches on `result.get("tools")`.
unfoldable pub project_tools : Profile → Fields → Json → Outcome Fields
unfolding project_entries
project_tools profile result null = value result
project_tools profile result (arr tools) =
    value (put "tools" (arr (project_entries profile tools)) result)
project_tools profile result _ = rejected not_an_array

unfoldable pub project_legacy_tools_list : String → Json → Outcome Fields
unfolding legacy_tools_profile project_tools
project_legacy_tools_list version (obj result) = elim (legacy_tools_profile version) [
  | rejected reason ↦ rejected reason
  | value profile ↦ project_tools profile result (get_or_null "tools" result)
]
project_legacy_tools_list version _ = rejected not_an_object
