-- ===== src/Warehouse.antt =====
-- bridge_runtime.py: the static capability index. `_parse_capability_index`, `capability_index_search`,
-- `capability_index_dedupe` and `capability_install_plan`.
pub mod Bounds
pub mod Search
use Prim.Native.Char.{code}
use Prim.Native.String
use Prim.Native.String.{count}
use win_wsl_mcp_bridge.Base.{
  ℕ, ◌+◌, String, Bool, true, false, not, ◌&&◌, ◌||◌, Option, none, some, List, [], ◌∷◌, ◌++◌, map,
  length, take, ltb, leb, ◌==◌, text_eq, if◌then◌else◌, zero, suc,
}
use win_wsl_mcp_bridge.Json.{
  pos, Json, null, int, str, obj, arr, Items, nil, cons, Fields, end, field, get, get_or_null, has,
  py_eq,
}
use win_wsl_mcp_bridge.Protocol.Revisions.{text_in}
use win_wsl_mcp_bridge.Backend.State.{join}

abbrev pub max_items : ℕ
max_items = 4096

abbrev pub max_identity : ℕ
max_identity = 128

abbrev pub max_summary : ℕ
max_summary = 400

abbrev pub max_groups : ℕ
max_groups = 64

abbrev pub max_group : ℕ
max_group = 64

abbrev pub max_description : ℕ
max_description = 4000

abbrev pub max_search_results : ℕ
max_search_results = 50

abbrev pub forbidden_item_keys : List String
forbidden_item_keys =
    "command" ∷ "args" ∷ "cwd" ∷ "env" ∷ "env_json" ∷ "install" ∷ "installer" ∷ "script"
    ∷ "launcher" ∷ "launch" ∷ "exec" ∷ "executable" ∷ "binary" ∷ "token" ∷ "secret" ∷ "credential"
    ∷ []

-- An item of the index, normalized.
pub record Item : Type 0 where
  pub publisher : String
  pub name : String
  pub version : String
  pub summary : String
  pub groups : List String
  pub key : String
  pub description : Option String
  pub manifest_digest : Option String
  pub id : Option String

-- What a search shows of an item: its key, its identity, its summary and its groups.
pub record Hit : Type 0 where
  pub key : String
  pub publisher : String
  pub name : String
  pub version : String
  pub summary : String
  pub groups : List String

abbrev pub hit_of : Item → Hit
hit_of i = record {
  key = i.key;
  publisher = i.publisher;
  name = i.name;
  version = i.version;
  summary = i.summary;
  groups = i.groups;
}

pub data Fault : Type 0 where
  no_object bad_version no_items too_many_items : Fault
  item_no_object forbidden_key no_identity bad_text control_character duplicate_identity : Fault
  bad_description bad_groups bad_digest bad_id : Fault
  bad_query bad_limit bad_key unknown_key : Fault

pub data Checked (A : Type 0) : Type 0 where
  good : A → Checked A
  bad : Fault → Checked A

infixl 5 ◌>>=◌
abbrev pub ◌>>=◌ : {A B : Type 0} → Checked A → (A → Checked B) → Checked B
◌>>=◌ (good a) f = f a
◌>>=◌ (bad fault) f = bad fault

-- `re.fullmatch` with the two patterns, `str.casefold`, `str.split` and `in` on texts.
pub record Texts : Type 0 where
  pub is_sha256 : String → Bool
  pub is_safe_id : String → Bool
  pub casefold : String → String
  pub split : String → List String
  pub contains : String → String → Bool

-- A control character other than a tab.
unfoldable pub has_control : String → Bool
has_control String.[] = false
has_control (String.◌∷◌ c s) = (ltb (code c) 32 && not (code c == 9)) || has_control s

unfoldable pub bounded_nonempty_text : ℕ → Json → Checked String
unfolding has_control
bounded_nonempty_text maximum (str s) =
    if text_eq s "" || ltb maximum (count s)
    then bad bad_text
    else if has_control s
    then bad control_character
    else good s
bounded_nonempty_text maximum _ = bad bad_text

unfoldable pub identity_key : String → String → String → String
identity_key publisher name version = join (publisher ∷ "/" ∷ name ∷ "@" ∷ version ∷ [])

unfoldable pub has_forbidden : List String → Fields → Bool
has_forbidden [] raw = false
has_forbidden (k ∷ ks) raw = has k raw || has_forbidden ks raw

-- An empty description is left out, as one that is null or missing is.
abbrev pub check_description : Option Json → Checked (Option String)
check_description none = good none
check_description (some null) = good none
check_description (some (str s)) =
    if ltb max_description (count s)
    then bad bad_description
    else if text_eq s ""
    then good none
    else good (some s)
check_description (some _) = bad bad_description

abbrev pub add_group : String → Option (List String) → Option (List String)
add_group s none = none
add_group s (some groups) = some (s ∷ groups)

unfoldable pub read_groups : Items → Option (List String)
read_groups nil = some []
read_groups (cons (str s) items) =
    let rest = read_groups items in
    if text_eq s "" || ltb max_group (count s) then none else add_group s rest
read_groups (cons _ items) = none

abbrev pub bound_groups : Option (List String) → Checked (List String)
bound_groups none = bad bad_groups
bound_groups (some []) = bad bad_groups
bound_groups (some (g ∷ gs)) =
    if ltb max_groups (length (g ∷ gs)) then bad bad_groups else good (g ∷ gs)

abbrev pub check_groups : Json → Checked (List String)
check_groups (arr items) = bound_groups (read_groups items)
check_groups _ = bad bad_groups

abbrev pub check_optional : (String → Bool) → Fault → Json → Checked (Option String)
check_optional is_fine fault null = good none
check_optional is_fine fault (str s) = if is_fine s then good (some s) else bad fault
check_optional is_fine fault _ = bad fault

abbrev pub check_new : String → List String → Checked String
check_new key seen = if text_in key seen then bad duplicate_identity else good key

module _ (t : Texts) where
  -- The rest of an item, once its identity is read.
  unfoldable pub parse_details : List String → Fields → String → String → String → Checked Item
  parse_details seen raw publisher name version = do
    summary ← bounded_nonempty_text max_summary (get_or_null "summary" raw)
    key ← check_new (identity_key publisher name version) seen
    description ← check_description (get "description" raw)
    groups ← check_groups (get_or_null "capabilityGroups" raw)
    digest ← check_optional t.is_sha256 bad_digest (get_or_null "manifestDigest" raw)
    suggested ← check_optional t.is_safe_id bad_id (get_or_null "id" raw)
    good (record {
      publisher = publisher;
      name = name;
      version = version;
      summary = summary;
      groups = groups;
      key = key;
      description = description;
      manifest_digest = digest;
      id = suggested;
    })

  abbrev pub parse_identity : List String → Fields → Json → Checked Item
  parse_identity seen raw (obj identity) = do
    publisher ← bounded_nonempty_text max_identity (get_or_null "publisher" identity)
    name ← bounded_nonempty_text max_identity (get_or_null "name" identity)
    version ← bounded_nonempty_text max_identity (get_or_null "version" identity)
    parse_details seen raw publisher name version
  parse_identity seen raw _ = bad no_identity

  unfoldable pub parse_item : List String → Json → Checked Item
  unfolding has_forbidden
  parse_item seen (obj raw) =
      if has_forbidden forbidden_item_keys raw
      then bad forbidden_key
      else parse_identity seen raw (get_or_null "identity" raw)
  parse_item seen _ = bad item_no_object

  unfoldable pub parse_items : List String → Items → Checked (List Item)
  parse_items seen nil = good []
  parse_items seen (cons raw raws) = do
    item ← parse_item seen raw
    items ← parse_items (item.key ∷ seen) raws
    good (item ∷ items)

  unfoldable pub length_of : Items → ℕ
  length_of nil = 0
  length_of (cons v items) = suc (length_of items)

  abbrev pub parse_list : Json → Checked (List Item)
  parse_list (arr nil) = bad no_items
  parse_list (arr (cons v vs)) =
      if ltb max_items (length_of (cons v vs))
      then bad too_many_items
      else parse_items [] (cons v vs)
  parse_list _ = bad no_items

  -- `_parse_capability_index`
  unfoldable pub parse_capability_index : Json → Checked (List Item)
  parse_capability_index (obj index) =
      if py_eq (get_or_null "version" index) (int (pos 1))
      then parse_list (get_or_null "items" index)
      else bad bad_version
  parse_capability_index _ = bad no_object

  unfoldable pub joined : List String → String
  joined [] = ""
  joined (s ∷ []) = s
  joined (s ∷ u ∷ ss) = join (s ∷ " " ∷ joined (u ∷ ss) ∷ [])

  abbrev or_blank : Option String → String
  or_blank none = ""
  or_blank (some s) = s

  unfoldable pub haystack : Item → String
  unfolding joined
  haystack i = t.casefold (
      joined
        (i.publisher ∷ i.name ∷ i.version ∷ i.summary ∷ (i.groups ++ or_blank i.description ∷ [])))

  unfoldable pub all_in : List String → String → Bool
  all_in [] text = true
  all_in (token ∷ tokens) text = t.contains token text && all_in tokens text

  abbrev pub is_match : List String → Item → Bool
  is_match tokens i = all_in tokens (haystack i)

  -- The loop, which ends at the limit; `found` are the matches so far.
  unfoldable pub search_loop : (Item → Bool) → ℕ → List Hit → List Item → List Hit
  search_loop matches limit found [] = found
  search_loop matches limit found (i ∷ items) =
      let found' = if matches i then found ++ hit_of i ∷ [] else found in
      let rest = search_loop matches limit found' items in
      if leb limit (length found') then found' else rest

  abbrev pub search_in : List String → ℕ → List Item → List Hit
  search_in [] limit items = map hit_of (take limit items)
  search_in (token ∷ tokens) limit items = search_loop (is_match (token ∷ tokens)) limit [] items

  -- `min(limit, WAREHOUSE_MAX_SEARCH_RESULTS)`
  abbrev pub capped : ℕ → ℕ
  capped limit = if ltb limit max_search_results then limit else max_search_results

  abbrev pub search_with : String → Json → Json → Checked (List Hit)
  search_with query (int (pos (suc n))) index = do
    items ← parse_capability_index index
    good (search_in (t.split (t.casefold query)) (capped (suc n)) items)
  search_with query _ index = bad bad_limit

  -- `capability_index_search`
  unfoldable pub capability_index_search : Json → Json → Json → Checked (List Hit)
  unfolding parse_capability_index search_loop all_in haystack
  capability_index_search index (str query) limit = search_with query limit index
  capability_index_search index _ limit = bad bad_query

  -- What is registered here: the ids and the names.
  abbrev has_id : Option String → List (String × String) → Bool
  has_id none here = false
  has_id (some id) [] = false
  has_id (some id) ((other, name) ∷ here) = text_eq other id || has_id (some id) here

  unfoldable pub has_name : String → List (String × String) → Bool
  has_name name [] = false
  has_name name ((id, other) ∷ here) = text_eq (t.casefold other) name || has_name name here

  unfoldable pub dedupe : List (String × String) → List Item → List Item
  unfolding has_name
  dedupe here [] = []
  dedupe here (i ∷ items) =
      let rest = dedupe here items in
      if has_id i.id here || has_name (t.casefold i.name) here then rest else i ∷ rest

  unfoldable pub capability_index_dedupe : Json → List (String × String) → Checked (List Item)
  capability_index_dedupe index here = do
    items ← parse_capability_index index
    good (dedupe here items)

  unfoldable pub with_key : String → List Item → Option Item
  with_key key [] = none
  with_key key (i ∷ items) = if text_eq i.key key then some i else with_key key items

  unfoldable pub local_match : String → List (String × String) → Option (String × String)
  local_match name [] = none
  local_match name ((id, other) ∷ here) =
      if text_eq (t.casefold other) name then some (id, other) else local_match name here

  -- `locallyRegistered`, `action` and `nextStep` follow from the match.
  pub record Plan : Type 0 where
    pub item : Item
    pub local : Option (String × String)

  abbrev planned : List (String × String) → Option Item → Checked Plan
  planned here none = bad unknown_key
  planned here (some i) = good (record { item = i; local = local_match (t.casefold i.name) here })

  -- `capability_install_plan`; without a registry nothing is registered.
  unfoldable pub capability_install_plan : Json → Json → List (String × String) → Checked Plan
  unfolding parse_capability_index local_match with_key
  capability_install_plan index (str key) here = parse_capability_index index >>= λ items.
      if text_eq key "" then bad bad_key else planned here (with_key key items)
  capability_install_plan index _ here = parse_capability_index index >>= λ items. bad bad_key
