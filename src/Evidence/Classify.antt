-- ===== src/Evidence/Classify.antt =====
-- stream_evidence.py: the passive classification of one JSON-RPC line.
use text.Mathlib.Text.{starts_with}
use win_wsl_mcp_bridge.Base.{
  ℕ, String, Bool, true, false, ◌||◌, not, Option, none, some, List, length, if◌then◌else◌, ◌≡◌,
  refl, arith, Bool-cases, inl, inr,
}
use win_wsl_mcp_bridge.Json.{Json, null, str, obj, Fields, get, has, get_or_null}
use win_wsl_mcp_bridge.Evidence.Identity.{canonical_request_id}

pub data Kind : Type 0 where
  request response notification other : Kind

-- `request_id` is `null` where the source's field is `None`
pub record CompletedMessage : Type 0 where
  pub kind : Kind
  pub request_id : Json
  pub canonical_id : Option String
  pub message_bytes : ℕ
  pub note : String

pub record FramingLoss : Type 0 where
  pub reason : String
  pub bytes : ℕ

-- What a framer emits, in byte order.
pub data Item : Type 0 where
  completed : CompletedMessage → Item
  lost : FramingLoss → Item

abbrev pub is_none : Option String → Bool
is_none none = true
is_none (some s) = false

abbrev pub uncalled : Kind → ℕ → String → CompletedMessage
uncalled kind size note = record {
  kind = kind;
  request_id = null;
  canonical_id = none;
  message_bytes = size;
  note = note;
}

-- The id of a parsed message with its canonical token: `(None, None)` where it has no id.
unfoldable pub read_id : Fields → Json × Option String
unfolding get
read_id parsed = elim (get "id" parsed) [
  | none ↦ (null, none)
  | some v ↦ (v, canonical_request_id v)
]

-- The branches behind `has_result`, `has_error` and the type of `method`.
unfoldable pub classify_call :
    Option String → Bool → Bool → Bool → Json → Option String → ℕ → CompletedMessage
classify_call method has_id has_result has_error request_id canonical size =
    if has_result || has_error
    then (if not has_id || is_none canonical
        then sort other "response-without-scalar-id"
        else sort response (if has_error then "error" else ""))
    else elim method [
      | none ↦ sort other "unrecognized-envelope"
      | some m ↦ if is_none canonical then sort other "unrecognized-envelope" else sort request m
    ]
  where
    sort : Kind → String → CompletedMessage
    sort kind note = record {
      kind = kind;
      request_id = request_id;
      canonical_id = canonical;
      message_bytes = size;
      note = note;
    }

unfoldable pub is_notification : Option String → Bool
is_notification none = false
is_notification (some m) = starts_with m "notifications/"

unfoldable pub method_of : Fields → Option String
unfolding get_or_null
method_of parsed = elim (get_or_null "method" parsed) [ str m ↦ some m | _ ↦ none ]

-- The line when it parsed to a dict.
unfoldable pub classify_object : Fields → ℕ → CompletedMessage
unfolding read_id classify_call is_notification method_of has
classify_object parsed size =
    if is_notification (method_of parsed)
    then uncalled notification size "notification"
    else classify_call (method_of parsed) (has "id" parsed) (has "result" parsed)
        (has "error" parsed) (read_id parsed).0 (read_id parsed).1 size

-- What `json.loads` of the strictly decoded line gives: `none` where either raises.
unfoldable pub classify_parsed : Option Json → ℕ → CompletedMessage
unfolding classify_object
classify_parsed none size = uncalled other size "unparseable"
classify_parsed (some (obj parsed)) size = classify_object parsed size
classify_parsed (some _) size = uncalled other size "not-an-object"

unfoldable pub classify_line : (List ℕ → Option Json) → List ℕ → CompletedMessage
unfolding classify_parsed
classify_line loads line = classify_parsed (loads line) (length line)

classify_call-bytes :
    (method : Option String) (has_id has_result has_error : Bool) (request_id : Json)
    (canonical : Option String) (size : ℕ)
    → (classify_call method has_id has_result has_error request_id canonical size).message_bytes
      ≡ size
unfolding classify_call
classify_call-bytes method has_id has_result has_error request_id canonical size = ground arith

classify_object-bytes :
    (parsed : Fields) (size : ℕ) → (classify_object parsed size).message_bytes ≡ size
unfolding classify_object
classify_object-bytes parsed size = elim (Bool-cases (is_notification (method_of parsed))) [
  | inl e ↦ rw e
  | inr e ↦ rw e (
      classify_call-bytes (method_of parsed) (has "id" parsed) (has "result" parsed)
        (has "error" parsed) (read_id parsed).0 (read_id parsed).1 size)
]

pub classify_line-bytes :
    (loads : List ℕ → Option Json) (line : List ℕ)
    → (classify_line loads line).message_bytes ≡ length line
unfolding classify_line
classify_line-bytes loads line = bytes_of (loads line)
  where
    bytes_of : (p : Option Json) → (classify_parsed p (length line)).message_bytes ≡ length line
    bytes_of none = refl
    bytes_of (some (obj parsed)) = classify_object-bytes parsed (length line)
    bytes_of (some _) = refl
