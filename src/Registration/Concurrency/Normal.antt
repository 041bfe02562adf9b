-- ===== src/Registration/Concurrency/Normal.antt =====
-- `_normalize_concurrency`: what a registration becomes that passes it.
use Prim.Native.String.{count}
use win_wsl_mcp_bridge.Base.{
  ◌≤◌, String, Bool, true, false, ◌||◌, Option, none, some, ◌≡◌, text_eq, ◌⊎◌,
}
use win_wsl_mcp_bridge.Json.{Json, null, boolean, str, Fields, get, has, get_or_null}
use win_wsl_mcp_bridge.Registration.Concurrency.{
  Mode, is_some, one_to_one, many_to_one, many_to_many,
}

-- The field that declares a mode, and the older field that maps to one.
abbrev pub declared_field : Option Mode → Json
declared_field none = null
declared_field (some one_to_one) = str "one-to-one"
declared_field (some many_to_one) = str "many-to-one"
declared_field (some many_to_many) = str "many-to-many"

abbrev pub legacy_field : Option Bool → Json
legacy_field none = null
legacy_field (some b) = boolean b

-- The mode that follows from the two fields: the declared one, which may not contradict the older field; else what
-- the older field maps to; else the default of the transport.
abbrev pub IsChosen : String → Option Mode → Option Bool → Mode → Type 0
IsChosen transport (some m) none mode = mode ≡ m
IsChosen transport (some m) (some true) mode = (m ≡ many_to_many) × (mode ≡ many_to_many)
IsChosen transport (some m) (some false) mode = (m ≡ many_to_one) × (mode ≡ many_to_one)
IsChosen transport none (some true) mode = mode ≡ many_to_many
IsChosen transport none (some false) mode = mode ≡ many_to_one
IsChosen transport none none mode =
    ((text_eq transport "streamable-http" ≡ true) × (mode ≡ many_to_many))
    ⊎ ((text_eq transport "streamable-http" ≡ false) × (mode ≡ one_to_one))

-- The three fields that are written for a mode.
abbrev pub IsWritten : Mode → Option Json → Option Json → Option Json → Type 0
IsWritten one_to_one name enforcement allowed =
    (name ≡ some (str "one-to-one"))
    × (enforcement ≡ some (str "bridge-shared-backend"))
    × (allowed ≡ some (boolean false))
IsWritten many_to_one name enforcement allowed =
    (name ≡ some (str "many-to-one"))
    × (enforcement ≡ some (str "bridge-shared-backend"))
    × (allowed ≡ some (boolean false))
IsWritten many_to_many name enforcement allowed =
    (name ≡ some (str "many-to-many"))
    × (enforcement ≡ some (str "dedicated-stream"))
    × (allowed ≡ some (boolean true))

-- The evidence is stripped, and has something in it and no more than 320 characters; a null one stays as it is.
abbrev pub IsEvidence : (String → String) → Json → Option Json → Option Json → Type 0
IsEvidence strip null before evidence = evidence ≡ before
IsEvidence strip (str given) before evidence =
    (text_eq (strip given) "" ≡ false) × (count given ≤ 320) × (evidence ≡ some (str (strip given)))
IsEvidence strip _ before evidence = ⊥

abbrev pub is_derived : String → Bool
is_derived k =
    text_eq k "concurrency"
    || text_eq k "enforcement"
    || text_eq k "multiProcessAllowed"
    || text_eq k "concurrencyEvidence"

-- A process that was normalized to a mode: the mode follows from what was declared, the derived fields
-- agree with it, a declared mode for more than one client has the key of its evidence, and the other
-- fields are those of the registration.
pub record IsNormal (strip : String → String) (transport : String) (process out : Fields)
    (mode : Mode) : Type 0 where
  pub declared : Option Mode
  pub legacy : Option Bool
  pub declared_read : get_or_null "concurrency" process ≡ declared_field declared
  pub legacy_read : get_or_null "multiProcessAllowed" process ≡ legacy_field legacy
  pub chosen : IsChosen transport declared legacy mode
  pub written :
      IsWritten mode (get "concurrency" out) (get "enforcement" out) (get "multiProcessAllowed" out)
  pub evidence :
      IsEvidence strip
        (get_or_null "concurrencyEvidence" process)
        (get "concurrencyEvidence" process)
        (get "concurrencyEvidence" out)
  pub evidenced :
      (is_some declared ≡ false) ⊎ (mode ≡ one_to_one) ⊎ (has "concurrencyEvidence" out ≡ true)
  pub others : (k : String) → (is_derived k ≡ true) ⊎ (get k out ≡ get k process)

-- What the evidence does to the fields.
record IsRead (strip : String → String) (process : Fields) (given : Json) (kept : Fields)
    : Type 0 where
  read : IsEvidence strip given (get "concurrencyEvidence" process) (get "concurrencyEvidence" kept)
  others : (k : String) → (text_eq k "concurrencyEvidence" ≡ true) ⊎ (get k kept ≡ get k process)
