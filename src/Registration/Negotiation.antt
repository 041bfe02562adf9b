-- ===== src/Registration/Negotiation.antt =====
-- bridge_runtime.py: `negotiate_mcp_protocol_version`. `strip` is `str.strip`, and `is_date` says whether
-- the pattern of a revision matches the text.
use win_wsl_mcp_bridge.Base.{
  subst, String, Bool, true, false, Option, none, some, List, [], ◌∷◌, ◌≡◌, refl, text_eq,
  if◌then◌else◌, arith, ◌⊎◌, inl, inr,
}
use win_wsl_mcp_bridge.Json.{Json, str}
use win_wsl_mcp_bridge.Protocol.Revisions.{
  legacy_revision_at_least, text_in, is_verified, verified-elim,
}

pub data Negotiated : Type 0 where
  accepted : String → Negotiated
  downgraded : String → Negotiated
  turned_down : Negotiated

-- The newest first, as the candidates are sorted.
abbrev pub shared_compatible_protocol_versions : List String
shared_compatible_protocol_versions = "2025-11-25" ∷ "2025-06-18" ∷ "2025-03-26" ∷ "2024-11-05" ∷ []

-- The first that is not newer than the request.
unfoldable pub newest_up_to : String → List String → Option String
newest_up_to requested [] = none
newest_up_to requested (version ∷ versions) =
    if legacy_revision_at_least requested version
    then some version
    else newest_up_to requested versions

unfoldable pub step_down : Option String → Negotiated
step_down none = turned_down
step_down (some version) = downgraded version

unfoldable pub negotiate_text : (String → String) → (String → Bool) → String → Negotiated
unfolding step_down newest_up_to text_in
negotiate_text strip is_date requested =
    if text_eq (strip requested) ""
    then turned_down
    else if text_in requested shared_compatible_protocol_versions
    then accepted requested
    else if is_date requested
    then step_down (newest_up_to requested shared_compatible_protocol_versions)
    else turned_down

unfoldable pub negotiate_mcp_protocol_version :
    (String → String) → (String → Bool) → Json → Negotiated
unfolding negotiate_text
negotiate_mcp_protocol_version strip is_date (str requested) =
    negotiate_text strip is_date requested
negotiate_mcp_protocol_version strip is_date _ = turned_down

-- A revision that a session may run under: verified, not newer than the request, and no verified revision
-- that is not newer than the request is newer than it.
pub record IsNewest (requested version : String) : Type 0 where
  pub verified : is_verified version ≡ true
  pub not_newer : legacy_revision_at_least requested version ≡ true
  pub newest :
      (other : String)
      → is_verified other ≡ true
      → (legacy_revision_at_least requested other ≡ false)
        ⊎ (legacy_revision_at_least version other ≡ true)

newest_lem :
    (requested version : String)
    → newest_up_to requested shared_compatible_protocol_versions ≡ some version
    → IsNewest requested version
unfolding newest_up_to is_verified text_in legacy_revision_at_least
newest_lem requested version h =
    from_tests (legacy_revision_at_least requested "2025-11-25")
      (legacy_revision_at_least requested "2025-06-18")
      (legacy_revision_at_least requested "2025-03-26")
      (legacy_revision_at_least requested "2024-11-05") refl refl refl refl h
  where
    from_tests :
        (a b c d : Bool)
        → legacy_revision_at_least requested "2025-11-25" ≡ a
        → legacy_revision_at_least requested "2025-06-18" ≡ b
        → legacy_revision_at_least requested "2025-03-26" ≡ c
        → legacy_revision_at_least requested "2024-11-05" ≡ d
        → (if a
            then some "2025-11-25"
            else if b
            then some "2025-06-18"
            else if c
            then some "2025-03-26"
            else if d
            then some "2024-11-05"
            else none)
          ≡ some version
        → IsNewest requested version
    from_tests true b c d p q r s e =
        let same : "2025-11-25" ≡ version = cc in
        subst (λ v. IsNewest requested v) same
          (record {
            verified = refl;
            not_newer = p;
            newest = λ other k.
                verified-elim
                  (λ o.
                    (legacy_revision_at_least requested o ≡ false)
                    ⊎ (legacy_revision_at_least "2025-11-25" o ≡ true))
                  (inr refl) (inr refl) (inr refl) (inr refl) other k;
          })
    from_tests false true c d p q r s e =
        let same : "2025-06-18" ≡ version = cc in
        subst (λ v. IsNewest requested v) same
          (record {
            verified = refl;
            not_newer = q;
            newest = λ other k.
                verified-elim
                  (λ o.
                    (legacy_revision_at_least requested o ≡ false)
                    ⊎ (legacy_revision_at_least "2025-06-18" o ≡ true))
                  (inr refl) (inr refl) (inr refl) (inl p) other k;
          })
    from_tests false false true d p q r s e =
        let same : "2025-03-26" ≡ version = cc in
        subst (λ v. IsNewest requested v) same
          (record {
            verified = refl;
            not_newer = r;
            newest = λ other k.
                verified-elim
                  (λ o.
                    (legacy_revision_at_least requested o ≡ false)
                    ⊎ (legacy_revision_at_least "2025-03-26" o ≡ true))
                  (inr refl) (inr refl) (inl q) (inl p) other k;
          })
    from_tests false false false true p q r s e =
        let same : "2024-11-05" ≡ version = cc in
        subst (λ v. IsNewest requested v) same
          (record {
            verified = refl;
            not_newer = s;
            newest = λ other k.
                verified-elim
                  (λ o.
                    (legacy_revision_at_least requested o ≡ false)
                    ⊎ (legacy_revision_at_least "2024-11-05" o ≡ true))
                  (inr refl) (inl r) (inl q) (inl p) other k;
          })
    from_tests false false false false p q r s e = cc

-- A downgrade names the newest verified revision that is not newer than the one asked for.
pub downgraded-IsNewest :
    (strip : String → String) (is_date : String → Bool) (requested version : String)
    → negotiate_mcp_protocol_version strip is_date (str requested) ≡ downgraded version
    → IsNewest requested version
unfolding negotiate_mcp_protocol_version negotiate_text
downgraded-IsNewest strip is_date requested version h =
    newest_lem requested version (step_down_lem _ version (stepped requested version h))
  where
    step_down_lem : (v : Option String) (w : String) → step_down v ≡ downgraded w → v ≡ some w
    step_down_lem none w k = cc
    step_down_lem (some v) w k = cc

    stepped :
        (r w : String)
        → negotiate_text strip is_date r ≡ downgraded w
        → step_down (newest_up_to r shared_compatible_protocol_versions) ≡ downgraded w
    stepped r w k = ground (arith, k)
