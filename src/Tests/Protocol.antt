-- ===== src/Tests/Protocol.antt =====
-- The projections of bridge_protocol.py at concrete inputs.
use win_wsl_mcp_bridge.Base.{◌≡◌, ◌≢◌, refl, none, arith, eq_iff, String}
use win_wsl_mcp_bridge.Json.{
  Json, null, str, obj, arr, Items, nil, cons, Fields, end, field, get, get_or_null,
}
use win_wsl_mcp_bridge.Protocol.Revisions.{
  revisions_in_order, legacy_revision_at_least, position, legacy_protocol_versions, is_verified,
}
use win_wsl_mcp_bridge.Protocol.Tools.{project_legacy_tools_list}
use win_wsl_mcp_bridge.Protocol.Tools.Downgrade.{downgrade}
use win_wsl_mcp_bridge.Protocol.Modern.{shape_modern_result, sanitize_params_for_legacy}
use win_wsl_mcp_bridge.Protocol.Modern.Surface.{
  token_block, IsStamped, shape_modern_result-IsProjected, sanitize-IsIsolated,
}
use win_wsl_mcp_bridge.Protocol.Content.{project_legacy_tools_call_result}
use win_wsl_mcp_bridge.Protocol.Content.Whole.{IsWhole, call_result-IsWhole}

abbrev tool : Fields → Fields
tool rest = field "name" (str "search") (field "title" (str "Search") rest)

abbrev listed : Fields → Json
listed rest = obj (field "tools" (arr (cons (obj (tool rest)) nil)) end)

abbrev icons : Fields
icons = field "icons" (arr nil) end

-- Projected onto 2025-06-18, the tool has lost its icons.
downgrade_example :
    project_legacy_tools_list "2024-11-05" (listed end)
    ≡ project_legacy_tools_list "2024-11-05" (listed icons)
unfolding is_verified legacy_revision_at_least project_legacy_tools_list
    win_wsl_mcp_bridge.Json.get_or_null win_wsl_mcp_bridge.Json.put
    win_wsl_mcp_bridge.Protocol.Tools.project_legacy_tool_for_profile
downgrade_example =
    downgrade "2024-11-05" "2025-06-18" (listed icons)
      (field "tools" (arr (cons (obj (tool end)) nil)) end) refl refl refl refl

abbrev text_item : Fields → Json
text_item rest = obj (field "type" (str "text") (field "text" (str "found") rest))

abbrev called : Fields → Fields → Fields
called item rest = field "content" (arr (cons (text_item item) nil)) rest

abbrev extra : Fields
extra = field "_meta" (obj end) end

call_result-IsWhole_example :
    IsWhole "2024-11-05" (called extra (field "structuredContent" (obj end) end)) (called end end)
unfolding project_legacy_tools_call_result is_verified legacy_revision_at_least
    win_wsl_mcp_bridge.Json.get_or_null win_wsl_mcp_bridge.Json.put
call_result-IsWhole_example =
    call_result-IsWhole "2024-11-05" (called extra (field "structuredContent" (obj end) end))
      (called end end) refl

secret-apart : ◌≢◌ {A = String} "secret" "_meta"
secret-apart e = ground (arith, eq_iff "secret" "_meta")

name-apart : ◌≢◌ {A = String} "name" "_meta"
name-apart e = ground (arith, eq_iff "name" "_meta")

abbrev server : Fields
server = field "name" (str "bridge") end

abbrev shaped : Fields
shaped = field "content" (arr nil) (
    field "resultType" (str "complete")
      (field "_meta" (obj (field "io.modelcontextprotocol/serverInfo" (obj server) end)) end))

abbrev backend_result : Fields
backend_result = field "content" (arr nil) (field "secret" (str "x") end)

shape_modern_result-IsProjected_example :
    (get "secret" shaped ≡ none) × IsStamped server null (get "_meta" shaped)
unfolding shape_modern_result win_wsl_mcp_bridge.Json.get_or_null win_wsl_mcp_bridge.Json.put get
    win_wsl_mcp_bridge.Protocol.Revisions.text_in
shape_modern_result-IsProjected_example =
    shape_modern_result-IsProjected "tools/call" backend_result server shaped refl "secret"
      secret-apart

abbrev block : Fields
block =
    field "io.modelcontextprotocol/protocolVersion" (str "2026-07-28")
      (field "progressToken" (str "t") end)

abbrev asked : Fields
asked = field "name" (str "search") (field "_meta" (obj block) end)

abbrev sanitized : Fields
sanitized =
    field "name" (str "search") (field "_meta" (obj (field "progressToken" (str "t") end)) end)

sanitize-IsIsolated_example :
    (get "name" sanitized ≡ get "name" asked) × (get "_meta" sanitized ≡ token_block (str "t"))
unfolding sanitize_params_for_legacy win_wsl_mcp_bridge.Json.get_or_null win_wsl_mcp_bridge.Json.put
    get
sanitize-IsIsolated_example = sanitize-IsIsolated asked block sanitized "name" refl refl name-apart
