-- ===== src/Protocol/Tools/Downgrade.antt =====
-- `project_legacy_tools_list`: a result that was projected onto a newer revision before.
use win_wsl_mcp_bridge.Json.Dicts.{get_or_null-put}
use win_wsl_mcp_bridge.Base.{
  String, Bool, true, false, ◌&&◌, some, ◌≡◌, refl, text_eq, if◌then◌else◌, arith, eq_iff,
  Bool-cases, inl, inr, ap, sym, ◌∙◌, subst,
}
use win_wsl_mcp_bridge.Json.{
  Json, null, obj, arr, Items, nil, cons, Fields, end, field, get, get_or_null, put,
}
use win_wsl_mcp_bridge.Protocol.Revisions.{
  value, legacy_revision_at_least, is_verified, text_in, revisions_in_order,
}
use win_wsl_mcp_bridge.Protocol.Tools.{
  Profile, profile_of, is_text, is_dict, is_list, keep, project_fields,
  project_legacy_tool_for_profile, project_entries, project_tools, project_legacy_tools_list,
  legacy_tools_profile,
}

pub put-put : (k : String) (v w : Json) (fs : Fields) → put k v (put k w fs) ≡ put k v fs
unfolding put
put-put k v w end = ground (arith, eq_iff k k)
put-put k v w (field i x fs) = ground (arith, put-put k v w fs)

-- What the value under a key is after `keep`.
abbrev kept : Bool → (Json → Bool) → Json → Json
kept allowed is_kind v = if allowed && is_kind v then v else null

get_or_null-keep :
    (k j : String) (allowed : Bool) (is_kind : Json → Bool) (tool out : Fields)
    → get_or_null k (keep j allowed is_kind tool out) ≡ (
        if text_eq j k
        then (if allowed && is_kind (get_or_null j tool)
            then get_or_null j tool
            else get_or_null k out)
        else get_or_null k out)
unfolding keep
get_or_null-keep k j allowed is_kind tool out =
    ground (arith, get_or_null-put k j (get_or_null j tool) out)

-- `keep` reads one key of the tool, and that only as far as it may keep it.
keep-kept :
    (j : String) (p q : Bool) (is_kind : Json → Bool) (tool shown out out' : Fields)
    → (p ≡ true → q ≡ true)
    → get_or_null j shown ≡ kept q is_kind (get_or_null j tool)
    → is_kind null ≡ false
    → out ≡ out'
    → keep j p is_kind shown out ≡ keep j p is_kind tool out'
unfolding keep
keep-kept j p q is_kind tool shown out out' below e not_null same = ground (arith, ap is_kind e)

-- Each gate of the first profile is one of the second.
record IsBelow (p q : Profile) : Type 0 where
  annotations : p.annotations ≡ true → q.annotations ≡ true
  title : p.title ≡ true → q.title ≡ true
  output_schema : p.output_schema ≡ true → q.output_schema ≡ true
  icons : p.icons ≡ true → q.icons ≡ true

at_least_trans :
    (anchor old new : String)
    → is_verified anchor ≡ true
    → is_verified old ≡ true
    → is_verified new ≡ true
    → legacy_revision_at_least new old ≡ true
    → legacy_revision_at_least old anchor ≡ true
    → legacy_revision_at_least new anchor ≡ true
at_least_trans anchor old new a h k e f = ground (
  arith,
  revisions_in_order new old k h,
  revisions_in_order old anchor h a,
  revisions_in_order new anchor k a,
)

profiles-IsBelow :
    (old new : String)
    → is_verified old ≡ true
    → is_verified new ≡ true
    → legacy_revision_at_least new old ≡ true
    → IsBelow (profile_of old) (profile_of new)
unfolding profile_of is_verified text_in
profiles-IsBelow old new h k e = record {
  annotations = λ f. at_least_trans "2025-03-26" old new refl h k e f;
  title = λ f. at_least_trans "2025-06-18" old new refl h k e f;
  output_schema = λ f. at_least_trans "2025-06-18" old new refl h k e f;
  icons = λ f. at_least_trans "2025-11-25" old new refl h k e f;
}

module _ (q : Profile) (tool : Fields) where
  abbrev shown : Fields
  shown = project_fields q tool

  shown_name : get_or_null "name" shown ≡ get_or_null "name" tool
  unfolding project_fields get_or_null get
  shown_name = simp (get_or_null-keep)

  shown_description :
      get_or_null "description" shown ≡ kept true is_text (get_or_null "description" tool)
  unfolding project_fields get_or_null get
  shown_description = simp (get_or_null-keep)

  shown_input_schema :
      get_or_null "inputSchema" shown ≡ kept true is_dict (get_or_null "inputSchema" tool)
  unfolding project_fields get_or_null get
  shown_input_schema = simp (get_or_null-keep)

  shown_annotations :
      get_or_null "annotations" shown ≡ kept q.annotations is_dict (get_or_null "annotations" tool)
  unfolding project_fields get_or_null get
  shown_annotations = simp (get_or_null-keep)

  shown_title : get_or_null "title" shown ≡ kept q.title is_text (get_or_null "title" tool)
  unfolding project_fields get_or_null get
  shown_title = simp (get_or_null-keep)

  shown_output_schema :
      get_or_null "outputSchema" shown
      ≡ kept q.output_schema is_dict (get_or_null "outputSchema" tool)
  unfolding project_fields get_or_null get
  shown_output_schema = simp (get_or_null-keep)

  shown_icons : get_or_null "icons" shown ≡ kept q.icons is_list (get_or_null "icons" tool)
  unfolding project_fields get_or_null get
  shown_icons = simp (get_or_null-keep)

  fields_again : (p : Profile) → IsBelow p q → project_fields p shown ≡ project_fields p tool
  unfolding project_fields
  fields_again p below =
      keep-kept "icons" p.icons q.icons is_list tool shown _ _ below.icons shown_icons refl (
        keep-kept "outputSchema" p.output_schema q.output_schema is_dict tool shown _ _
          below.output_schema shown_output_schema refl
          (keep-kept "title" p.title q.title is_text tool shown _ _ below.title shown_title refl (
            keep-kept "annotations" p.annotations q.annotations is_dict tool shown _ _
              below.annotations shown_annotations refl
              (keep-kept "inputSchema" true true is_dict tool shown _ _ (λ e. e) shown_input_schema
                refl
                (keep-kept "description" true true is_text tool shown _ _ (λ e. e) shown_description
                  refl (ap (λ v. field "name" v end) shown_name))))))

  -- An entry that was projected before.
  entry_again :
      (p : Profile)
      → IsBelow p q
      → is_text (get_or_null "name" tool) ≡ true
      → project_legacy_tool_for_profile p (obj shown) ≡ some (project_fields p tool)
  unfolding project_legacy_tool_for_profile
  entry_again p below h = ground (arith, shown_name, fields_again p below)

entries_again :
    (p q : Profile) (tools : Items)
    → IsBelow p q
    → project_entries p (project_entries q tools) ≡ project_entries p tools
unfolding project_entries project_legacy_tool_for_profile
entries_again p q nil below = refl
entries_again p q (cons (obj tool) tools) below =
    elim (Bool-cases (is_text (get_or_null "name" tool))) [
      | inl e ↦ ground (arith, e, entry_again q tool p below e, entries_again p q tools below)
      | inr e ↦ ground (arith, e, entries_again p q tools below)
    ]
entries_again p q (cons _ tools) below = entries_again p q tools below

tools_again :
    (p q : Profile) (result out : Fields) (tools : Json)
    → IsBelow p q
    → get_or_null "tools" result ≡ tools
    → project_tools q result tools ≡ value out
    → project_tools p out (get_or_null "tools" out) ≡ project_tools p result tools
unfolding project_tools
tools_again p q result out null below e h =
    let same : result ≡ out = cc in
    subst (λ o. project_tools p o (get_or_null "tools" o) ≡ value result) same (rw e refl)
tools_again p q result out (arr tools) below e h =
    let shown = put "tools" (arr (project_entries q tools)) result in
    let same : shown ≡ out = cc in
    let listed : get_or_null "tools" shown ≡ arr (project_entries q tools) =
      get_or_null-put "tools" "tools" (arr (project_entries q tools)) result in
    subst
      (λ o.
        project_tools p o (get_or_null "tools" o)
        ≡ value (put "tools" (arr (project_entries p tools)) result))
      same
      (rw listed (
        ap value (
          put-put "tools" (arr (project_entries p (project_entries q tools)))
            (arr (project_entries q tools)) result
          ∙ ap (λ l. put "tools" (arr l) result) (entries_again p q tools below))))
tools_again p q result out _ below e h = cc

list_verified :
    (version : String) (result : Fields)
    → is_verified version ≡ true
    → project_legacy_tools_list version (obj result)
      ≡ project_tools (profile_of version) result (get_or_null "tools" result)
unfolding project_legacy_tools_list legacy_tools_profile
list_verified version result h = rw (h, project_legacy_tools_list) refl

-- A `tools/list` result that was projected onto a verified revision is projected onto an older one as
-- the result itself is: gating a result twice is the same as gating it once for the older revision.
pub downgrade :
    (old new : String) (result : Json) (out : Fields)
    → is_verified old ≡ true
    → is_verified new ≡ true
    → legacy_revision_at_least new old ≡ true
    → project_legacy_tools_list new result ≡ value out
    → project_legacy_tools_list old (obj out) ≡ project_legacy_tools_list old result
unfolding project_legacy_tools_list
downgrade old new (obj result) out h k e p =
    let below = profiles-IsBelow old new h k e in
    let projected = sym (list_verified new result k) ∙ p in
    list_verified old out h
    ∙ tools_again (profile_of old) (profile_of new) result out (get_or_null "tools" result) below
        refl projected
    ∙ sym (list_verified old result h)
downgrade old new _ out h k e p = cc
