-- ===== src/Registration/Rules.antt =====
-- bridge_runtime.py: `_reject_call_rule` and `_reject_rule_matches`.
use Prim.Native.String.{count}
use win_wsl_mcp_bridge.Base.{
  ◌≤◌, All, subst, ap, ℕ, String, Bool, true, false, ◌&&◌, ◌||◌, Option, none, some, List, [], ◌∷◌,
  length, ◌≡◌, refl, text_eq, leb, ltb, if◌then◌else◌, arith,
}
use win_wsl_mcp_bridge.Json.{
  Json, str, obj, arr, Items, nil, cons, Fields, end, field, get, get_or_null,
}

abbrev pub max_reject_call_path_steps : ℕ
max_reject_call_path_steps = 4

abbrev pub max_reject_call_path_step_chars : ℕ
max_reject_call_path_step_chars = 64

abbrev pub max_reject_call_values : ℕ
max_reject_call_values = 32

abbrev pub max_reject_call_value_chars : ℕ
max_reject_call_value_chars = 256

pub record Rule : Type 0 where
  pub tool : String
  pub path : List String
  pub equals : List String

pub data RuleFault : Type 0 where
  not_a_dict unknown_keys no_tool bad_path bad_equals : RuleFault

pub data Parsed : Type 0 where
  rule : Rule → Parsed
  refused : RuleFault → Parsed

abbrev known_key : String → Bool
known_key k = text_eq k "tool" || (text_eq k "path" || text_eq k "equals")

unfoldable pub only_known : Fields → Bool
only_known end = true
only_known (field k v fs) = known_key k && only_known fs

abbrev add_text : String → Option (List String) → Option (List String)
add_text s none = none
add_text s (some texts) = some (s ∷ texts)

-- The texts of a list if all are texts of 1 up to so many characters.
unfoldable pub bounded_texts : ℕ → Items → Option (List String)
bounded_texts chars nil = some []
bounded_texts chars (cons (str s) items) =
    let rest = bounded_texts chars items in
    if ltb 0 (count s) && leb (count s) chars then add_text s rest else none
bounded_texts chars (cons _ items) = none

-- A list with 1 up to so many of them.
abbrev pub within : ℕ → Option (List String) → Option (List String)
within most none = none
within most (some texts) =
    if leb 1 (length texts) && leb (length texts) most then some texts else none

unfoldable pub text_list : ℕ → ℕ → Json → Option (List String)
unfolding bounded_texts
text_list most chars (arr items) = within most (bounded_texts chars items)
text_list most chars _ = none

unfoldable pub build_rule : Json → Option (List String) → Option (List String) → Parsed
build_rule (str tool) path equals = if text_eq tool "" then refused no_tool else elim path [
  | none ↦ refused bad_path
  | some steps ↦ elim equals [
    | none ↦ refused bad_equals
    | some values ↦ rule (record { tool = tool; path = steps; equals = values })
  ]
]
build_rule _ path equals = refused no_tool

unfoldable pub reject_call_rule : Json → Parsed
unfolding only_known text_list build_rule
reject_call_rule (obj fields) =
    if only_known fields
    then build_rule (get_or_null "tool" fields)
        (text_list max_reject_call_path_steps max_reject_call_path_step_chars
          (get_or_null "path" fields))
        (text_list max_reject_call_values max_reject_call_value_chars (get_or_null "equals" fields))
    else refused unknown_keys
reject_call_rule _ = refused not_a_dict

unfoldable pub listed : String → List String → Bool
listed s [] = false
listed s (t ∷ ts) = text_eq t s || listed s ts

-- The walk along the path.
unfoldable pub reach : List String → Json → Option Json
unfolding get
reach [] v = some v
reach (step ∷ path) (obj fields) = elim (get step fields) [ none ↦ none | some v ↦ reach path v ]
reach (step ∷ path) _ = none

abbrev pub is_listed : List String → Option Json → Bool
is_listed values (some (str s)) = listed s values
is_listed values _ = false

unfoldable pub reject_rule_matches : Rule → Fields → Bool
unfolding reach listed
reject_rule_matches r arguments = is_listed r.equals (reach r.path (obj arguments))

-- The texts of a rule's list: 1 up to so many characters each.
abbrev pub AreBounded : ℕ → List String → Type 0
AreBounded chars texts = All (λ s. (1 ≤ count s) × (count s ≤ chars)) texts

add_text-AreBounded :
    (chars : ℕ) (s : String) (rest : Option (List String)) (texts : List String)
    → ((more : List String) → rest ≡ some more → AreBounded chars more)
    → (if ltb 0 (count s) && leb (count s) chars then add_text s rest else none) ≡ some texts
    → AreBounded chars texts
add_text-AreBounded chars s none texts f h = ground arith
add_text-AreBounded chars s (some more) texts f h =
    let fits : (1 ≤ count s) × (count s ≤ chars) = ground (arith, h) in
    let same : s ∷ more ≡ texts = ground (arith, h) in
    subst (AreBounded chars) same (fits, f more refl)

bounded_texts-AreBounded :
    (chars : ℕ) (items : Items) (texts : List String)
    → bounded_texts chars items ≡ some texts
    → AreBounded chars texts
unfolding bounded_texts
bounded_texts-AreBounded chars nil texts h =
    let same : [] ≡ texts = cc in subst (AreBounded chars) same tt
bounded_texts-AreBounded chars (cons (str s) items) texts h =
    add_text-AreBounded chars s (bounded_texts chars items) texts
      (λ more e. bounded_texts-AreBounded chars items more e) h
bounded_texts-AreBounded chars (cons _ items) texts h = cc

-- A list of a rule: 1 up to so many texts.
abbrev pub IsBounded : ℕ → ℕ → List String → Type 0
IsBounded most chars texts = (1 ≤ length texts) × (length texts ≤ most) × AreBounded chars texts

within-IsBounded :
    (most chars : ℕ) (found : Option (List String)) (texts : List String)
    → ((more : List String) → found ≡ some more → AreBounded chars more)
    → within most found ≡ some texts
    → IsBounded most chars texts
within-IsBounded most chars none texts f h = cc
within-IsBounded most chars (some more) texts f h =
    let fits : (1 ≤ length more) × (length more ≤ most) = ground (arith, h) in
    let same : more ≡ texts = ground (arith, h) in
    subst (IsBounded most chars) same (fits.0, fits.1, f more refl)

text_list-IsBounded :
    (most chars : ℕ) (v : Json) (texts : List String)
    → text_list most chars v ≡ some texts
    → IsBounded most chars texts
unfolding text_list
text_list-IsBounded most chars (arr items) texts h =
    within-IsBounded most chars (bounded_texts chars items) texts
      (λ more e. bounded_texts-AreBounded chars items more e) h
text_list-IsBounded most chars _ texts h = cc

-- The list that holds these texts.
abbrev pub items_of : List String → Items
items_of [] = nil
items_of (s ∷ texts) = cons (str s) (items_of texts)

add_text_lem :
    (fits : Bool) (s : String) (rest : Option (List String)) (items : Items) (texts : List String)
    → ((more : List String) → rest ≡ some more → items ≡ items_of more)
    → (if fits then add_text s rest else none) ≡ some texts
    → cons (str s) items ≡ items_of texts
add_text_lem true s none items texts f h = cc
add_text_lem true s (some more) items texts f h =
    let same : s ∷ more ≡ texts = cc in
    subst (λ t. cons (str s) items ≡ items_of t) same (ap (cons (str s)) (f more refl))
add_text_lem false s rest items texts f h = cc

bounded_texts_lem :
    (chars : ℕ) (items : Items) (texts : List String)
    → bounded_texts chars items ≡ some texts
    → items ≡ items_of texts
unfolding bounded_texts
bounded_texts_lem chars nil texts h =
    let same : [] ≡ texts = cc in subst (λ t. nil ≡ items_of t) same refl
bounded_texts_lem chars (cons (str s) items) texts h =
    add_text_lem (ltb 0 (count s) && leb (count s) chars) s (bounded_texts chars items) items texts
      (λ more e. bounded_texts_lem chars items more e) h
bounded_texts_lem chars (cons _ items) texts h = cc

within_lem :
    (most : ℕ) (found : Option (List String)) (texts : List String)
    → within most found ≡ some texts
    → found ≡ some texts
within_lem most none texts h = cc
within_lem most (some more) texts h = ground (arith, h)

text_list_lem :
    (most chars : ℕ) (v : Json) (texts : List String)
    → text_list most chars v ≡ some texts
    → v ≡ arr (items_of texts)
unfolding text_list
text_list_lem most chars (arr items) texts h =
    ap arr (bounded_texts_lem chars items texts (within_lem most _ texts h))
text_list_lem most chars _ texts h = cc

build_rule_lem :
    (tool : Json) (path equals : Option (List String)) (r : Rule)
    → build_rule tool path equals ≡ rule r
    → (tool ≡ str r.tool)
      × (text_eq r.tool "" ≡ false)
      × (path ≡ some r.path)
      × (equals ≡ some r.equals)
unfolding build_rule
build_rule_lem (str tool) none equals r h = ground (arith, h)
build_rule_lem (str tool) (some path) none r h = ground (arith, h)
build_rule_lem (str tool) (some path) (some equals) r h = by_name (text_eq tool "") refl h
  where
    made : Rule
    made = record { tool = tool; path = path; equals = equals }

    by_name :
        (b : Bool)
        → text_eq tool "" ≡ b
        → (if b then refused no_tool else rule made) ≡ rule r
        → (str tool ≡ str r.tool)
          × (text_eq r.tool "" ≡ false)
          × (some path ≡ some r.path)
          × (some equals ≡ some r.equals)
    by_name true e k = cc
    by_name false e k =
        let same : made ≡ r = cc in
        subst
          (λ x.
            (str tool ≡ str x.tool)
            × (text_eq x.tool "" ≡ false)
            × (some path ≡ some x.path)
            × (some equals ≡ some x.equals))
          same (refl, e, refl, refl)
build_rule_lem _ path equals r h = cc

-- A rule that is accepted names a tool, walks 1 to 4 keys of 1 to 64 characters, and rejects 1 to 32 values
-- of 1 to 256 characters; and its tool, its path and its values are those that the
-- registration lists, in their order.
pub reject_call_rule-IsBounded :
    (fields : Fields) (r : Rule)
    → reject_call_rule (obj fields) ≡ rule r
    → (get_or_null "tool" fields ≡ str r.tool)
      × (text_eq r.tool "" ≡ false)
      × IsBounded max_reject_call_path_steps max_reject_call_path_step_chars r.path
      × IsBounded max_reject_call_values max_reject_call_value_chars r.equals
      × (get_or_null "path" fields ≡ arr (items_of r.path))
      × (get_or_null "equals" fields ≡ arr (items_of r.equals))
unfolding reject_call_rule
reject_call_rule-IsBounded fields r h =
    let built = known_lem (only_known fields) _ h in
    let (tool, named, path, equals) = build_rule_lem (get_or_null "tool" fields) _ _ r built in
    (
      tool,
      named,
      text_list-IsBounded max_reject_call_path_steps max_reject_call_path_step_chars
          (get_or_null "path" fields) r.path path,
      text_list-IsBounded max_reject_call_values max_reject_call_value_chars
          (get_or_null "equals" fields) r.equals equals,
      text_list_lem max_reject_call_path_steps max_reject_call_path_step_chars _ r.path path,
      text_list_lem max_reject_call_values max_reject_call_value_chars _ r.equals equals,
    )
  where
    known_lem :
        (b : Bool) (p : Parsed) → (if b then p else refused unknown_keys) ≡ rule r → p ≡ rule r
    known_lem true p k = k
    known_lem false p k = cc
