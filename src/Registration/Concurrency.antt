-- ===== src/Registration/Concurrency.antt =====
-- bridge_runtime.py: `_normalize_concurrency`. `strip` is `str.strip`.
pub mod Normal
use Prim.Native.String.{count}
use win_wsl_mcp_bridge.Json.Dicts.{get-put}
use win_wsl_mcp_bridge.Base.{
  subst, ap, sym, ℕ, ◌≤◌, inl, inr, Bool-cases, eq_iff, String, Bool, true, false, not, ◌&&◌, ◌||◌,
  Option, none, some, ◌≡◌, refl, text_eq, ltb, if◌then◌else◌, arith, ◌⊎◌,
}
use win_wsl_mcp_bridge.Json.{Json, null, boolean, str, Fields, get, has, get_or_null, put}

pub data Mode : Type 0 where
  one_to_one many_to_one many_to_many : Mode

pub data Fault : Type 0 where
  not_a_boolean unknown_mode conflict bad_evidence no_evidence : Fault

pub data Checked {ℓ} (A : Type ℓ) : Type ℓ where
  passed : A → Checked A
  failed : Fault → Checked A

abbrev pub after {ℓ κ} : {A : Type ℓ} {B : Type κ} → Checked A → (A → Checked B) → Checked B
after (failed fault) f = failed fault
after (passed a) f = f a

abbrev pub max_concurrency_evidence_chars : ℕ
max_concurrency_evidence_chars = 320

unfoldable pub mode_name : Mode → String
mode_name one_to_one = "one-to-one"
mode_name many_to_one = "many-to-one"
mode_name many_to_many = "many-to-many"

abbrev pub mode_eq : Mode → Mode → Bool
mode_eq one_to_one one_to_one = true
mode_eq many_to_one many_to_one = true
mode_eq many_to_many many_to_many = true
mode_eq _ _ = false

unfoldable pub read_legacy : Json → Checked (Option Bool)
read_legacy null = passed none
read_legacy (boolean b) = passed (some b)
read_legacy _ = failed not_a_boolean

unfoldable pub read_declared : Json → Checked (Option Mode)
unfolding mode_name
read_declared null = passed none
read_declared (str s) =
    if text_eq s "one-to-one"
    then passed (some one_to_one)
    else if text_eq s "many-to-one"
    then passed (some many_to_one)
    else if text_eq s "many-to-many"
    then passed (some many_to_many)
    else failed unknown_mode
read_declared _ = failed unknown_mode

abbrev pub mapped : Bool → Mode
mapped legacy = if legacy then many_to_many else many_to_one

unfoldable pub choose_mode : String → Option Mode → Option Bool → Checked Mode
choose_mode transport (some mode) none = passed mode
choose_mode transport (some mode) (some legacy) =
    if mode_eq (mapped legacy) mode then passed mode else failed conflict
choose_mode transport none (some legacy) = passed (mapped legacy)
choose_mode transport none none =
    passed (if text_eq transport "streamable-http" then many_to_many else one_to_one)

unfoldable pub read_evidence : (String → String) → Fields → Json → Checked Fields
read_evidence strip process null = passed process
read_evidence strip process (str evidence) =
    if text_eq (strip evidence) "" || ltb max_concurrency_evidence_chars (count evidence)
    then failed bad_evidence
    else passed (put "concurrencyEvidence" (str (strip evidence)) process)
read_evidence strip process _ = failed bad_evidence

abbrev pub is_some {ℓ} : {A : Type ℓ} → Option A → Bool
is_some none = false
is_some (some a) = true

-- The derived fields.
unfoldable pub derive : Mode → Fields → Fields
unfolding mode_name
derive mode process = put "multiProcessAllowed" (boolean (mode_eq mode many_to_many)) (
    put "enforcement"
      (str (if mode_eq mode many_to_many then "dedicated-stream" else "bridge-shared-backend"))
      (put "concurrency" (str (mode_name mode)) process))

-- A declared mode with more than one client needs the evidence's key.
unfoldable pub require_evidence : Option Mode → Mode → Fields → Checked (Fields × Mode)
unfolding derive has
require_evidence declared mode process =
    if is_some declared
      && (not (mode_eq mode one_to_one) && not (has "concurrencyEvidence" process))
    then failed no_evidence
    else passed (derive mode process, mode)

unfoldable pub normalize_concurrency : (String → String) → Fields → String → Checked (Fields × Mode)
unfolding read_legacy read_declared choose_mode read_evidence require_evidence
normalize_concurrency strip process transport =
    after (read_legacy (get_or_null "multiProcessAllowed" process)) (λ legacy.
      after (read_declared (get_or_null "concurrency" process)) (λ declared.
        after (choose_mode transport declared legacy) (λ mode.
          after (read_evidence strip process (get_or_null "concurrencyEvidence" process))
            (λ kept. require_evidence declared mode kept))))
