-- ===== src/Protocol/Content.antt =====
-- bridge_protocol.py: the projection of `tools/call` results.
pub mod Whole
use win_wsl_mcp_bridge.Base.{
  ℕ, String, Bool, true, false, ◌&&◌, not, List, [], ◌∷◌, Option, none, some, ◌≡◌, refl, text_eq,
  if◌then◌else◌, arith, eq_iff,
}
use win_wsl_mcp_bridge.Json.{
  Json, null, boolean, str, obj, arr, Items, nil, cons, Fields, end, field, get, get_or_null, put,
  as_obj, as_str,
}
use win_wsl_mcp_bridge.Protocol.Revisions.{
  Rejection, unverified_version, not_an_object, not_an_array, malformed_item, unrepresentable_kind,
  Outcome, value, rejected, for_verified, legacy_revision_at_least, is_verified, introduced_by,
  text_in,
}
use win_wsl_mcp_bridge.Protocol.Tools.{Profile, profile_of, legacy_tools_profile}

abbrev pub legacy_content_kind_min_versions : List (String × String)
legacy_content_kind_min_versions =
    ("text", "2024-11-05")
    ∷ ("image", "2024-11-05")
    ∷ ("resource", "2024-11-05")
    ∷ ("audio", "2025-03-26")
    ∷ ("resource_link", "2025-06-18")
    ∷ []

abbrev pub legacy_content_item_meta_min_version : String
legacy_content_item_meta_min_version = "2025-06-18"

unfoldable pub legacy_content_kinds : String → Outcome (List String)
unfolding introduced_by
legacy_content_kinds version =
    for_verified version (introduced_by version legacy_content_kind_min_versions)

-- `d.pop(key, None)` without the value. A dict has a key once, so all its entries are that one.
unfoldable pub drop : String → Fields → Fields
drop key end = end
drop key (field k v fs) = if text_eq k key then drop key fs else field k v (drop key fs)

-- The nested `_meta` of a resource.
unfoldable pub drop_resource_meta : Json → Fields → Fields
unfolding drop
drop_resource_meta (obj resource) out = put "resource" (obj (drop "_meta" resource)) out
drop_resource_meta _ out = out

unfoldable pub project_content_item_meta : Fields → Bool → Fields
unfolding drop_resource_meta
project_content_item_meta item true = item
project_content_item_meta item false =
    let out = drop "_meta" item in drop_resource_meta (get_or_null "resource" out) out

-- The test of the kind and the projection of an item with that kind.
unfoldable pub project_kind : String → Fields → String → Outcome (List String) → Outcome Fields
unfolding project_content_item_meta text_in
project_kind version item kind (rejected reason) = rejected reason
project_kind version item kind (value kinds) =
    if text_in kind kinds
    then value (
        project_content_item_meta item
          (legacy_revision_at_least version legacy_content_item_meta_min_version))
    else rejected (unrepresentable_kind kind)

unfoldable pub project_item_of : String → Fields → Option String → Outcome Fields
unfolding project_kind legacy_content_kinds
project_item_of version item none = rejected malformed_item
project_item_of version item (some kind) =
    project_kind version item kind (legacy_content_kinds version)

unfoldable pub project_legacy_content_item : String → Json → Outcome Fields
unfolding project_item_of
project_legacy_content_item version (obj item) =
    project_item_of version item (as_str (get_or_null "type" item))
project_legacy_content_item version _ = rejected malformed_item

abbrev pub put_first : Outcome Fields → Outcome Items → Outcome Items
put_first (rejected reason) rest = rejected reason
put_first (value out) (rejected reason) = rejected reason
put_first (value out) (value outs) = value (cons (obj out) outs)

-- The items in their order. The first that is refused ends the projection.
unfoldable pub project_items : String → Items → Outcome Items
unfolding project_legacy_content_item
project_items version nil = value nil
project_items version (cons item items) =
    put_first (project_legacy_content_item version item) (project_items version items)

abbrev pub put_content : Fields → Outcome Items → Outcome Fields
put_content out (rejected reason) = rejected reason
put_content out (value items) = value (put "content" (arr items) out)

-- The branches on `content`: a missing one stays away, and a null one is taken away.
unfoldable pub project_content : String → Fields → Option Json → Outcome Fields
unfolding project_items drop
project_content version out none = value out
project_content version out (some null) = value (drop "content" out)
project_content version out (some (arr items)) = put_content out (project_items version items)
project_content version out (some _) = rejected not_an_array

unfoldable pub project_legacy_tools_call_result : String → Json → Outcome Fields
unfolding legacy_tools_profile project_content get
project_legacy_tools_call_result version (obj result) = elim (legacy_tools_profile version) [
  | rejected reason ↦ rejected reason
  | value profile ↦
      let out = if profile.structured_content then result else drop "structuredContent" result in
      project_content version out (get "content" out)
]
project_legacy_tools_call_result version _ = rejected not_an_object
