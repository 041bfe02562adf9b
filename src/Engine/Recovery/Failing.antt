-- ===== src/Engine/Recovery/Failing.antt =====
-- connector_engine.py: `Recovery.lost_requests` and `fail_once`.
use win_wsl_mcp_bridge.Base.{
  ℕ, String, Bool, Option, none, some, List, [], ◌∷◌, ◌++◌, map, if◌then◌else◌,
}
use win_wsl_mcp_bridge.Json.{Json, Key, hash_key}
use win_wsl_mcp_bridge.Json.Keys.{contains, add}
use win_wsl_mcp_bridge.Engine.Payload.{Codec, Policy, error_payload}
use win_wsl_mcp_bridge.Engine.Recovery.{failed_message, Attempt, Recovery, done, type_error}

abbrev pub entries : List (Key × (Json × Option String)) → List (Json × Option String)
entries [] = []
entries ((k, entry) ∷ d) = entry ∷ entries d

-- The outstanding ids, the uncertain ones last and with no method. (The order of the latter is that
-- of a set in the source.)
unfoldable pub lost_requests : Recovery → Recovery × List (Json × Option String)
lost_requests r =
    (record r { pending = []; uncertain = [] }, entries r.pending ++ entries r.uncertain)

-- The ids that have not failed yet, with their keys: a `TypeError` at the first without a key.
unfoldable pub fresh_ids : List Key → List (Json × Option String) → Attempt (List (Key × Json))
fresh_ids failed [] = done []
fresh_ids failed ((id, method) ∷ ids) =
    let rest = fresh_ids failed ids in
    elim (hash_key id) [
      | none ↦ type_error
      | some k ↦ elim rest [
        | type_error ↦ type_error
        | done fresh ↦ done (if contains k failed then fresh else (k, id) ∷ fresh)
      ]
    ]

unfoldable pub mark_failed : List (Key × Json) → List Key → List Key
mark_failed [] failed = failed
mark_failed ((k, id) ∷ fresh) failed = mark_failed fresh (add k failed)

-- The errors for the fresh ids, which count as failed from here on.
unfoldable pub settle :
    Policy
    → Codec
    → String
    → Bool
    → Attempt (List (Key × Json))
    → Recovery
    → Attempt (Recovery × List (List ℕ))
unfolding mark_failed failed_message
settle policy codec reason outcome_unknown type_error r = type_error
settle policy codec reason outcome_unknown (done fresh) r = done (
  record r { failed = mark_failed fresh r.failed },
  map (λ e. error_payload codec e.1 (failed_message policy reason r) outcome_unknown) fresh,
)

unfoldable pub fail_once :
    Policy
    → Codec
    → List (Json × Option String)
    → String
    → Bool
    → Recovery
    → Attempt (Recovery × List (List ℕ))
unfolding fresh_ids settle
fail_once policy codec request_ids reason outcome_unknown r =
    settle policy codec reason outcome_unknown (fresh_ids r.failed request_ids) r
