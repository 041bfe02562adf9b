-- ===== src/Tests/Registration.antt =====
-- The checks of a registration and of a requested revision at concrete inputs.
use win_wsl_mcp_bridge.Base.{◌≡◌, refl, true, false, text_eq, [], ◌∷◌}
use win_wsl_mcp_bridge.Json.{str, arr, nil, cons, Fields, end, field, get_or_null}
use win_wsl_mcp_bridge.Registration.Rules.{
  Rule, reject_call_rule, reject_call_rule-IsBounded, IsBounded, items_of,
}
use win_wsl_mcp_bridge.Registration.Negotiation.{
  negotiate_mcp_protocol_version, IsNewest, downgraded-IsNewest,
}

downgraded-IsNewest_example : IsNewest "2025-09-01" "2025-06-18"
unfolding negotiate_mcp_protocol_version
    win_wsl_mcp_bridge.Protocol.Revisions.legacy_revision_at_least
downgraded-IsNewest_example =
    downgraded-IsNewest (λ s. s) (λ s. true) "2025-09-01" "2025-06-18" refl

abbrev declared : Fields
declared = field "concurrency" (str "many-to-one") (field "concurrencyEvidence" (str "seen") end)

abbrev entry : Fields
entry =
    field "tool" (str "exec") (
      field "path" (arr (cons (str "mode") nil))
        (field "equals" (arr (cons (str "force") nil)) end))

abbrev exec_rule : Rule
exec_rule = record { tool = "exec"; path = "mode" ∷ []; equals = "force" ∷ [] }

reject_call_rule-IsBounded_example :
    (get_or_null "tool" entry ≡ str "exec")
    × (text_eq "exec" "" ≡ false)
    × IsBounded 4 64 ("mode" ∷ [])
    × IsBounded 32 256 ("force" ∷ [])
    × (get_or_null "path" entry ≡ arr (items_of ("mode" ∷ [])))
    × (get_or_null "equals" entry ≡ arr (items_of ("force" ∷ [])))
unfolding reject_call_rule get_or_null
reject_call_rule-IsBounded_example = reject_call_rule-IsBounded entry exec_rule refl
