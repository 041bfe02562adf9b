-- ===== src/Protocol/Content/Whole.antt =====
-- `project_legacy_tools_call_result`: a projected result is whole.
use win_wsl_mcp_bridge.Json.Dicts.{get-put}
use win_wsl_mcp_bridge.Base.{
  Bool-cases, String, Bool, true, false, ◌||◌, ◌⊎◌, inl, inr, List, Option, none, some, ◌≡◌, refl,
  text_eq, subst, if◌then◌else◌, arith, eq_iff,
}
use win_wsl_mcp_bridge.Json.{
  Json, null, boolean, int, float, str, obj, arr, Items, nil, cons, Fields, end, field, get,
  get_or_null, put, as_str,
}
use win_wsl_mcp_bridge.Protocol.Revisions.{
  Outcome, unverified_version, value, rejected, legacy_revision_at_least, is_verified,
  introduced_by, text_in, for_verified,
}
use win_wsl_mcp_bridge.Protocol.Tools.{profile_of, legacy_tools_profile}
use win_wsl_mcp_bridge.Json.Dicts.{get_or_null-put}
use win_wsl_mcp_bridge.Protocol.Content.{
  drop, drop_resource_meta, project_content_item_meta, project_kind, project_item_of,
  project_legacy_content_item, project_items, put_first, put_content, project_content,
  project_legacy_tools_call_result, legacy_content_kinds, legacy_content_kind_min_versions,
  legacy_content_item_meta_min_version,
}

get_or_null-drop :
    (k j : String) (fs : Fields)
    → get_or_null k (drop j fs) ≡ (if text_eq j k then null else get_or_null k fs)
unfolding get_or_null get drop
get_or_null-drop k j end = ground arith
get_or_null-drop k j (field i w fs) =
    ground (arith, eq_iff j k, eq_iff i k, eq_iff i j, get_or_null-drop k j fs)

get-drop :
    (k j : String) (fs : Fields) → get k (drop j fs) ≡ (if text_eq j k then none else get k fs)
unfolding get drop
get-drop k j end = ground arith
get-drop k j (field i w fs) = ground (arith, eq_iff j k, eq_iff i k, eq_iff i j, get-drop k j fs)

-- A resource where the revision has a place for `_meta`, and where it has none: it loses its own `_meta`, and keeps
-- every other field.
abbrev pub IsResource : Bool → Json → Json → Type 0
IsResource true before out = out ≡ before
IsResource false (obj before) out =
    (trimmed : Fields) × (out ≡ obj trimmed)
    × (get_or_null "_meta" trimmed ≡ null)
    × ((key : String) → (text_eq "_meta" key ≡ true) ⊎ (get key trimmed ≡ get key before))
IsResource false before out = out ≡ before

-- The item of a result and what it is projected to. Nothing but `_meta` and the resource's own `_meta`
-- may differ, and those are gone where the revision has no place for them.
pub record IsItem (version : String) (item out : Fields) : Type 0 where
  pub kind : String
  pub typed : get_or_null "type" item ≡ str kind
  pub representable : text_in kind (introduced_by version legacy_content_kind_min_versions) ≡ true
  pub rest :
      (key : String)
      → (text_eq "_meta" key || text_eq "resource" key ≡ true)
        ⊎ (get_or_null key out ≡ get_or_null key item)
  pub resource :
      IsResource
        (legacy_revision_at_least version legacy_content_item_meta_min_version)
        (get_or_null "resource" item)
        (get_or_null "resource" out)
  pub meta : get_or_null "_meta" out ≡ (
      if legacy_revision_at_least version legacy_content_item_meta_min_version
      then get_or_null "_meta" item
      else null)

drop_resource_meta-get :
    (key : String) (resource : Json) (out : Fields)
    → (text_eq "resource" key ≡ true)
      ⊎ (get_or_null key (drop_resource_meta resource out) ≡ get_or_null key out)
unfolding drop_resource_meta
drop_resource_meta-get key (obj resource) out =
    ground (arith, get_or_null-put key "resource" (obj (drop "_meta" resource)) out)
drop_resource_meta-get key _ out = inr refl

-- The items and their projections, one for one and in their order.
abbrev pub AreItems : String → Items → Items → Type 0
AreItems version nil nil = Unit
AreItems version (cons (obj item) items) (cons (obj out) outs) =
    IsItem version item out × AreItems version items outs
AreItems version _ _ = ⊥

meta_lem :
    (item : Fields) (allowed : Bool) (key : String)
    → (text_eq "_meta" key || text_eq "resource" key ≡ true)
      ⊎ (get_or_null key (project_content_item_meta item allowed) ≡ get_or_null key item)
unfolding project_content_item_meta
meta_lem item true key = inr refl
meta_lem item false key = ground (
  arith,
  get_or_null-drop key "_meta" item,
  drop_resource_meta-get key (get_or_null "resource" (drop "_meta" item)) (drop "_meta" item),
)

meta_gone :
    (item : Fields) (allowed : Bool)
    → get_or_null "_meta" (project_content_item_meta item allowed)
      ≡ (if allowed then get_or_null "_meta" item else null)
unfolding project_content_item_meta
meta_gone item true = refl
meta_gone item false = ground (
  arith,
  get_or_null-drop "_meta" "_meta" item,
  drop_resource_meta-get "_meta" (get_or_null "resource" (drop "_meta" item)) (drop "_meta" item),
)

drop_resource_meta-IsResource :
    (resource : Json) (out : Fields)
    → get_or_null "resource" out ≡ resource
    → IsResource false resource (get_or_null "resource" (drop_resource_meta resource out))
unfolding drop_resource_meta
drop_resource_meta-IsResource (obj resource) out e = (
  drop "_meta" resource,
  get_or_null-put "resource" "resource" (obj (drop "_meta" resource)) out,
  get_or_null-drop "_meta" "_meta" resource,
  λ key. ground (arith, get-drop key "_meta" resource),
)
drop_resource_meta-IsResource null out e = e
drop_resource_meta-IsResource (boolean x) out e = e
drop_resource_meta-IsResource (int x) out e = e
drop_resource_meta-IsResource (float x) out e = e
drop_resource_meta-IsResource (str x) out e = e
drop_resource_meta-IsResource (arr x) out e = e

resource_lem :
    (item : Fields) (allowed : Bool)
    → IsResource allowed
        (get_or_null "resource" item)
        (get_or_null "resource" (project_content_item_meta item allowed))
unfolding project_content_item_meta
resource_lem item true = refl
resource_lem item false =
    let kept = drop "_meta" item in
    subst
      (λ v.
        IsResource false v
          (get_or_null "resource" (drop_resource_meta (get_or_null "resource" kept) kept)))
      (get_or_null-drop "resource" "_meta" item)
      (drop_resource_meta-IsResource (get_or_null "resource" kept) kept refl)

as_str_lem : (v : Json) (s : String) → as_str v ≡ some s → v ≡ str s
as_str_lem (str t) s h = cc
as_str_lem _ s h = cc

kind_lem :
    (version : String) (item out : Fields) (kind : String) (kinds : List String)
    → project_kind version item kind (for_verified version kinds) ≡ value out
    → (text_in kind kinds ≡ true)
      × (project_content_item_meta item
            (legacy_revision_at_least version legacy_content_item_meta_min_version)
          ≡ out)
unfolding project_kind
kind_lem version item out kind kinds h = ground (arith, h)

item_of_lem :
    (version : String) (item out : Fields) (kind : Option String)
    → as_str (get_or_null "type" item) ≡ kind
    → project_item_of version item kind ≡ value out
    → IsItem version item out
unfolding project_item_of legacy_content_kinds
item_of_lem version item out none e h = cc
item_of_lem version item out (some kind) e h =
    let kinds = introduced_by version legacy_content_kind_min_versions in
    let allowed = legacy_revision_at_least version legacy_content_item_meta_min_version in
    let (known, same) = kind_lem version item out kind kinds h in
    subst (λ o. IsItem version item o) same
      (record {
        kind = kind;
        typed = as_str_lem (get_or_null "type" item) kind e;
        representable = known;
        rest = λ key. meta_lem item allowed key;
        resource = resource_lem item allowed;
        meta = meta_gone item allowed;
      })

put_first_lem :
    (first : Outcome Fields) (rest : Outcome Items) (outs : Items)
    → put_first first rest ≡ value outs
    → (out : Fields) × (more : Items) × (first ≡ value out)
      × (rest ≡ value more)
      × (cons (obj out) more ≡ outs)
put_first_lem (rejected reason) rest outs h = cc
put_first_lem (value out) (rejected reason) outs h = cc
put_first_lem (value out) (value more) outs h = (out, more, refl, refl, cc)

items_lem :
    (version : String) (items outs : Items)
    → project_items version items ≡ value outs
    → AreItems version items outs
unfolding project_items project_legacy_content_item
items_lem version nil outs h =
    let same : nil ≡ outs = cc in subst (λ o. AreItems version nil o) same tt
items_lem version (cons (obj item) items) outs h =
    let (out, more, first, rest, same) =
      put_first_lem (project_legacy_content_item version (obj item)) (project_items version items)
        outs h in
    subst (λ o. AreItems version (cons (obj item) items) o) same
      (
        item_of_lem version item out (as_str (get_or_null "type" item)) refl first,
        items_lem version items more rest,
      )
items_lem version (cons _ items) outs h = cc

-- What a projected call result holds under a key.
abbrev pub IsContent : String → Option Json → Option Json → Type 0
IsContent version (some (arr items)) (some (arr outs)) = AreItems version items outs
IsContent version (some null) out = out ≡ none
IsContent version none out = out ≡ none
IsContent version _ _ = ⊥

-- A call result and its projection: nothing is dropped silently. The content is projected item for item;
-- `structuredContent` stays exactly where the revision has it; every other key keeps its value.
pub record IsWhole (version : String) (result out : Fields) : Type 0 where
  pub content : IsContent version (get "content" result) (get "content" out)
  pub structured : get "structuredContent" out ≡ (
      if legacy_revision_at_least version "2025-06-18"
      then get "structuredContent" result
      else none)
  pub rest :
      (key : String)
      → (text_eq "content" key || text_eq "structuredContent" key ≡ true)
        ⊎ (get key out ≡ get key result)

-- What `project_content` does to the dict: only `content` may change.
record IsPut (version : String) (result : Fields) (found : Option Json) (out : Fields)
    : Type 0 where
  content : IsContent version found (get "content" out)
  rest : (key : String) → (text_eq "content" key ≡ true) ⊎ (get key out ≡ get key result)

put_content_lem :
    (version : String) (result out : Fields) (items : Items) (projected : Outcome Items)
    → project_items version items ≡ projected
    → put_content result projected ≡ value out
    → IsPut version result (some (arr items)) out
put_content_lem version result out items (rejected reason) e h = cc
put_content_lem version result out items (value outs) e h =
    let same : put "content" (arr outs) result ≡ out = cc in
    subst (λ o. IsPut version result (some (arr items)) o) same
      (record {
        content =
            rw (get-put "content" "content" (arr outs) result) (items_lem version items outs e);
        rest = λ key. ground (arith, get-put key "content" (arr outs) result);
      })

content_lem :
    (version : String) (result out : Fields) (found : Option Json)
    → get "content" result ≡ found
    → project_content version result found ≡ value out
    → IsPut version result found out
unfolding project_content
content_lem version result out none e h =
    let same : result ≡ out = cc in
    subst (λ o. IsPut version result none o) same (record { content = e; rest = λ key. inr refl })
content_lem version result out (some null) e h =
    let same : drop "content" result ≡ out = cc in
    subst (λ o. IsPut version result (some null) o) same
      (record {
        content = get-drop "content" "content" result;
        rest = λ key. ground (arith, get-drop key "content" result);
      })
content_lem version result out (some (arr items)) e h =
    put_content_lem version result out items (project_items version items) refl h
content_lem version result out (some _) e h = cc

trimmed_lem :
    (structured : Bool) (key : String) (result : Fields)
    → get key (if structured then result else drop "structuredContent" result) ≡ (
        if structured
        then get key result
        else (if text_eq "structuredContent" key then none else get key result))
trimmed_lem true key result = refl
trimmed_lem false key result = get-drop key "structuredContent" result

call_lem :
    (version : String) (result out : Fields)
    → project_legacy_tools_call_result version (obj result) ≡ value out
    → let structured = legacy_revision_at_least version "2025-06-18" in
      let trimmed = if structured then result else drop "structuredContent" result in
      project_content version trimmed (get "content" trimmed) ≡ value out
unfolding project_legacy_tools_call_result legacy_tools_profile profile_of
call_lem version result out h = elim (Bool-cases (is_verified version)) [
  | inl e ↦ rw (e, project_legacy_tools_call_result) at h
  | inr e ↦ absurd (no_value (rw (e, project_legacy_tools_call_result) at h))
]
  where
    no_value : rejected unverified_version ≡ value out → ⊥
    no_value k = ground arith

-- A call result that is projected at all is projected whole: each content item is carried over in its
-- place, with a kind that the revision has and with every field but its own `_meta` and that of
-- its resource, where the revision has no place for them;
-- `structuredContent` stays exactly from 2025-06-18 on; every other key keeps its value.
pub call_result-IsWhole :
    (version : String) (result out : Fields)
    → project_legacy_tools_call_result version (obj result) ≡ value out
    → IsWhole version result out
call_result-IsWhole version result out h =
    let structured = legacy_revision_at_least version "2025-06-18" in
    let trimmed = if structured then result else drop "structuredContent" result in
    let put_lem =
      content_lem version trimmed out (get "content" trimmed) refl
        (call_lem version result out h) in
    let trimmed_get = λ (key : String). trimmed_lem structured key result in
    record {
      content =
          subst (λ found. IsContent version found (get "content" out))
            (ground (arith, trimmed_get "content")) put_lem.content;
      structured =
          ground (arith, put_lem.rest "structuredContent", trimmed_get "structuredContent");
      rest = λ key. ground (arith, put_lem.rest key, trimmed_get key);
    }
