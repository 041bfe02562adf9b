-- ===== src/Tests/Warehouse.antt =====
-- The capability index at concrete inputs.
use text.Mathlib.Text.{starts_with}
use win_wsl_mcp_bridge.Base.{◌≡◌, ◌≤◌, refl, String, true, none, List, [], ◌∷◌, length, take, map}
use win_wsl_mcp_bridge.Json.{
  Json, int, str, obj, arr, pos, cons, nil, Fields, field, end, get, get_or_null,
}
use win_wsl_mcp_bridge.Warehouse.{
  Item, Texts, hit_of, good, parse_capability_index, capability_index_search, max_items, capped,
}
use win_wsl_mcp_bridge.Warehouse
use win_wsl_mcp_bridge.Warehouse.Bounds.{AreItems, parse_capability_index-IsBounded}
use win_wsl_mcp_bridge.Warehouse.Search.{wanted, capability_index_search-IsFiltered}

abbrev texts : Texts
texts = record {
  is_sha256 = λ s. true;
  is_safe_id = λ s. true;
  casefold = λ s. s;
  split = λ s. s ∷ [];
  contains = λ token text. starts_with token text;
}

abbrev entry : String → Json
entry name = obj (
    field "identity"
      (obj
        (field "publisher" (str "acme") (field "name" (str name) (field "version" (str "1") end))))
      (field "summary" (str "A tool.")
        (field "capabilityGroups" (arr (cons (str "files") nil)) end)))

abbrev item : String → String → Item
item name key = record {
  publisher = "acme";
  name = name;
  version = "1";
  summary = "A tool.";
  groups = "files" ∷ [];
  key = key;
  description = none;
  manifest_digest = none;
  id = none;
}

abbrev index : Json
index = obj (
    field "version" (int (pos 1))
      (field "items" (arr (cons (entry "hammer") (cons (entry "saw") nil))) end))

abbrev items : List Item
items = item "hammer" "acme/hammer@1" ∷ item "saw" "acme/saw@1" ∷ []

parse_capability_index-IsBounded_example :
    AreItems texts [] items × (1 ≤ length items) × (length items ≤ max_items)
unfolding parse_capability_index win_wsl_mcp_bridge.Json.py_eq get_or_null Warehouse.length_of
    Warehouse.parse_items Warehouse.parse_item win_wsl_mcp_bridge.Json.has
    Warehouse.bounded_nonempty_text Warehouse.parse_details
    win_wsl_mcp_bridge.Protocol.Revisions.text_in Warehouse.read_groups Warehouse.identity_key
parse_capability_index-IsBounded_example = parse_capability_index-IsBounded texts index items refl

capability_index_search-IsFiltered_example :
    capability_index_search texts index (str "acme saw") (int (pos 5))
    ≡ good (map hit_of (take 5 (wanted texts ("acme saw" ∷ []) items)))
unfolding parse_capability_index win_wsl_mcp_bridge.Json.py_eq get_or_null Warehouse.length_of
    Warehouse.parse_items Warehouse.parse_item win_wsl_mcp_bridge.Json.has
    Warehouse.bounded_nonempty_text Warehouse.parse_details
    win_wsl_mcp_bridge.Protocol.Revisions.text_in Warehouse.read_groups Warehouse.identity_key
capability_index_search-IsFiltered_example =
    capability_index_search-IsFiltered texts index items "acme saw" 4 refl
