-- ===== src/Protocol/Revisions.antt =====
-- bridge_protocol.py: the frozen legacy revisions, their order, and the capabilities of a server.
use Prim.Native.Nat.{Ordering}
use Prim.Native.String.{compare}
use win_wsl_mcp_bridge.Base.{
  ℕ, suc, String, Bool, true, false, ◌||◌, List, [], ◌∷◌, Option, none, some, ◌≡◌, refl, text_eq,
  if◌then◌else◌, leb, arith, eq_iff, ◌⊎◌, inl, inr, subst,
}
use win_wsl_mcp_bridge.Json.{Json, boolean, str, obj, Fields, end, field, get_or_null, as_obj}

-- What the projections raise a `ValueError` for.
pub data Rejection : Type 0 where
  unverified_version not_an_object not_an_array malformed_item : Rejection
  unrepresentable_kind : String → Rejection

pub data Outcome {ℓ} (A : Type ℓ) : Type ℓ where
  value : A → Outcome A
  rejected : Rejection → Outcome A

abbrev pub legacy_protocol_versions : List String
legacy_protocol_versions = "2024-11-05" ∷ "2025-03-26" ∷ "2025-06-18" ∷ "2025-11-25" ∷ []

unfoldable pub text_in : String → List String → Bool
text_in s [] = false
text_in s (t ∷ ts) = text_eq t s || text_in s ts

unfoldable pub is_verified : String → Bool
unfolding text_in
is_verified version = text_in version legacy_protocol_versions

unfoldable pub is_verified_legacy_protocol_version : Json → Bool
unfolding is_verified
is_verified_legacy_protocol_version (str version) = is_verified version
is_verified_legacy_protocol_version _ = false

-- `version >= anchor`, by the code points.
unfoldable pub legacy_revision_at_least : String → String → Bool
legacy_revision_at_least version anchor = elim (compare version anchor) [
  | Ordering.lt ↦ false
  | _ ↦ true
]

abbrev pub legacy_capability_family_min_versions : List (String × String)
legacy_capability_family_min_versions =
    ("experimental", "2024-11-05")
    ∷ ("logging", "2024-11-05")
    ∷ ("prompts", "2024-11-05")
    ∷ ("resources", "2024-11-05")
    ∷ ("tools", "2024-11-05")
    ∷ ("completions", "2025-03-26")
    ∷ ("tasks", "2025-11-25")
    ∷ []

-- The names whose first revision is not newer than the version.
unfoldable pub introduced_by : String → List (String × String) → List String
introduced_by version [] = []
introduced_by version ((name, introduced) ∷ rest) =
    if legacy_revision_at_least version introduced
    then name ∷ introduced_by version rest
    else introduced_by version rest

-- The result if the version is verified.
abbrev pub for_verified {ℓ} : {A : Type ℓ} → String → A → Outcome A
for_verified version result =
    if is_verified version then value result else rejected unverified_version

unfoldable pub legacy_server_capability_families : String → Outcome (List String)
unfolding introduced_by
legacy_server_capability_families version =
    for_verified version (introduced_by version legacy_capability_family_min_versions)

abbrev is_true : Json → Bool
is_true (boolean b) = b
is_true _ = false

unfoldable pub tools_of : Option Fields → Option Fields
tools_of none = none
tools_of (some capabilities) = as_obj (get_or_null "tools" capabilities)

unfoldable pub project_tools_capability : Option Fields → Fields
project_tools_capability none = end
project_tools_capability (some observed) =
    field "tools"
      (obj (
        if is_true (get_or_null "listChanged" observed)
        then field "listChanged" (boolean true) end
        else end))
      end

unfoldable pub project_legacy_server_capabilities : String → Json → Outcome Fields
unfolding tools_of project_tools_capability
project_legacy_server_capabilities version capabilities =
    for_verified version (project_tools_capability (tools_of (as_obj capabilities)))

-- The place of a revision in the list of them.
unfoldable pub position : String → List String → ℕ
position s [] = 0
position s (t ∷ ts) = if text_eq t s then 0 else suc (position s ts)

verified_cases :
    (version : String)
    → is_verified version ≡ true
    → ("2024-11-05" ≡ version)
      ⊎ ("2025-03-26" ≡ version)
      ⊎ ("2025-06-18" ≡ version)
      ⊎ ("2025-11-25" ≡ version)
unfolding is_verified text_in
verified_cases version h = ground (
  arith,
  eq_iff "2024-11-05" version,
  eq_iff "2025-03-26" version,
  eq_iff "2025-06-18" version,
  eq_iff "2025-11-25" version,
)

-- What holds of the four revisions holds of every verified one.
pub verified-elim {ℓ} :
    (P : String → Type ℓ)
    → P "2024-11-05"
    → P "2025-03-26"
    → P "2025-06-18"
    → P "2025-11-25"
    → (version : String) → is_verified version ≡ true
    → P version
verified-elim P a b c d version h = elim (verified_cases version h) [
  | inl e ↦ subst P e a
  | inr (inl e) ↦ subst P e b
  | inr (inr (inl e)) ↦ subst P e c
  | inr (inr (inr e)) ↦ subst P e d
]

abbrev InOrder : String → String → Type 0
InOrder anchor version =
    legacy_revision_at_least version anchor
    ≡ leb (position anchor legacy_protocol_versions) (position version legacy_protocol_versions)

-- The order of the texts of two verified revisions is their order in time, which is that of the list.
pub revisions_in_order :
    (version anchor : String)
    → is_verified version ≡ true
    → is_verified anchor ≡ true
    → legacy_revision_at_least version anchor
      ≡ leb (position anchor legacy_protocol_versions) (position version legacy_protocol_versions)
unfolding legacy_revision_at_least position
revisions_in_order version anchor h k =
    verified-elim (λ v. InOrder anchor v)
      (verified-elim (λ a. InOrder a "2024-11-05") refl refl refl refl anchor k)
      (verified-elim (λ a. InOrder a "2025-03-26") refl refl refl refl anchor k)
      (verified-elim (λ a. InOrder a "2025-06-18") refl refl refl refl anchor k)
      (verified-elim (λ a. InOrder a "2025-11-25") refl refl refl refl anchor k) version h
