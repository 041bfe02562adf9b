-- ===== src/Engine/Recovery/Live.antt =====
-- `Recovery.handle_node` on a live line: what it forwards, and what it settles.
use win_wsl_mcp_bridge.Base.{
  ℕ, String, ◌≡◌, ◌∙◌, refl, ap, Bool, true, false, not, ◌&&◌, Option, none, some, List, [], ◌∷◌,
  ◌++◌, arith, ◌⊎◌, inl, inr, if◌then◌else◌, text_eq, eq_iff, Bool-cases, Option-cases,
}
use win_wsl_mcp_bridge.Json.{
  Json, str, arr, obj, Key, hash_key, key_eq, Fields, end, field, get, get_or_null, put, as_obj,
  py_eq,
}
use win_wsl_mcp_bridge.Json.Dicts.{get-put}
use win_wsl_mcp_bridge.Json.Keys.{find, find-drop_key}
use win_wsl_mcp_bridge.Engine.Payload.{
  Codec, Policy, parse, warned, append_item, items_of, result_of, annotate_initialize_result,
  annotate_tool_result,
}
use win_wsl_mcp_bridge.Engine.Recovery.{done, type_error, Recovery, Decision, stale, warning_line}
use win_wsl_mcp_bridge.Engine.Recovery.Node.{
  has_result, response_of, handle_node, deliver, annotate, calls, forget, method_of, forward,
}
use win_wsl_mcp_bridge.Engine.Recovery.Outstanding.{IsTidy}
use win_wsl_mcp_bridge.Engine.Recovery.Steps.{deliver-hashed}

response_of_lem :
    (o : Option Fields) (message : Fields) → response_of o ≡ some message → o ≡ some message
unfolding response_of
response_of_lem none message h = cc
response_of_lem (some m) message h = ground (arith, h)

-- A line that was made again from its message with one value set in the result: every other field of the result and
-- of the message is as it came.
pub record IsNote (codec : Codec) (message : Fields) (key : String) (note : Json) (line : List ℕ)
    : Type 0 where
  pub result : Fields
  pub was : get_or_null "result" message ≡ obj result
  pub out : Fields
  pub written : line ≡ codec.dumps (obj out) ++ 10 ∷ []
  pub kept : (k : String) → (text_eq "result" k ≡ true) ⊎ (get k out ≡ get k message)
  pub noted : Fields
  pub placed : get "result" out ≡ some (obj noted)
  pub there : get key noted ≡ some note
  pub rest : (j : String) → (text_eq key j ≡ true) ⊎ (get j noted ≡ get j result)

put-IsNote :
    (codec : Codec) (message result : Fields) (key : String) (note : Json)
    → get_or_null "result" message ≡ obj result
    → IsNote codec message key note
        (codec.dumps (obj (put "result" (obj (put key note result)) message)) ++ 10 ∷ [])
put-IsNote codec message result key note e = record {
  result = result;
  was = e;
  out = put "result" (obj (put key note result)) message;
  written = refl;
  kept = λ k. ground (arith, get-put k "result" (obj (put key note result)) message);
  noted = put key note result;
  placed = get-put "result" "result" (obj (put key note result)) message;
  there = ground (arith, eq_iff key key, get-put key key note result);
  rest = λ j. ground (arith, get-put j key note result);
}

abbrev fields_of : Json → Fields
fields_of (obj fs) = fs
fields_of _ = end

-- The instructions of a result with the warning on a line of its own.
abbrev pub instructions_with : Codec → String → Json → Json
instructions_with codec warning result =
    str (warned codec (get_or_null "instructions" (fields_of result)) warning)

-- The content of a result with the warning as one more text.
abbrev pub content_with : Codec → String → Json → Json
content_with codec warning result = arr (
    append_item (items_of codec (get_or_null "content" (fields_of result)))
      (obj (field "type" (str "text") (field "text" (str warning) end))))

as_obj_lem : (v : Json) (fs : Fields) → as_obj v ≡ some fs → v ≡ obj fs
as_obj_lem (obj gs) fs h = cc
as_obj_lem _ fs h = cc

initialize-IsNote :
    (codec : Codec) (raw : List ℕ) (message : Fields) (warning : String)
    → parse codec raw ≡ some message
    → has_result message ≡ true
    → IsNote codec message "instructions"
        (instructions_with codec warning (get_or_null "result" message))
        (annotate_initialize_result codec raw warning)
unfolding annotate_initialize_result result_of
initialize-IsNote codec raw message warning p h =
    elim (Option-cases (as_obj (get_or_null "result" message))) [
      | inl e ↦ absurd (ground (arith, e, h))
      | inr (result, e) ↦
          let q = as_obj_lem (get_or_null "result" message) result e in
          rw (annotate_initialize_result, p, result_of, q, p)
            (put-IsNote codec message result "instructions" _ q)
    ]

tool-IsNote :
    (codec : Codec) (raw : List ℕ) (message : Fields) (warning : String)
    → parse codec raw ≡ some message
    → ((as_obj (get_or_null "result" message) ≡ none)
        × (annotate_tool_result codec raw warning ≡ raw))
      ⊎ IsNote codec message "content"
          (content_with codec warning (get_or_null "result" message))
          (annotate_tool_result codec raw warning)
unfolding annotate_tool_result result_of
tool-IsNote codec raw message warning p =
    elim (Option-cases (as_obj (get_or_null "result" message))) [
      | inl e ↦ inl (e, rw (annotate_tool_result, p, result_of, e) refl)
      | inr (result, e) ↦
          let q = as_obj_lem (get_or_null "result" message) result e in
          inr (
            rw (annotate_tool_result, p, result_of, q, p)
              (put-IsNote codec message result "content" _ q))
    ]

module _ (policy : Policy) (codec : Codec) where
  -- The note on an initialize result is due, where `init_result` says that the line is one.
  abbrev pub initialize_due : Bool → Recovery → Bool
  initialize_due init_result r = init_result && (stale policy r && not r.init_annotated)

  abbrev called : Option (Json × Option String) → Bool
  called none = false
  called (some (id, none)) = false
  called (some (id, some method)) = text_eq method policy.call_method

  -- The note on a tool result is due, where `entry` is what the pending requests hold under the id.
  abbrev pub result_due : Option (Json × Option String) → Recovery → Bool
  result_due entry r =
      called entry && (stale policy r && (policy.note_results_when_stale && not r.result_noted))

  abbrev pub is_init_result : Fields → Recovery → Bool
  is_init_result message r = py_eq (get_or_null "id" message) r.init_id && has_result message

  called_lem :
      (entry : Option (Json × Option String))
      → calls (method_of entry) policy.call_method ≡ called entry
  called_lem none = refl
  called_lem (some (id, none)) = refl
  called_lem (some (id, some method)) = refl

  handle_node_live :
      (raw : List ℕ) (r : Recovery) (message : Fields)
      → response_of (parse codec raw) ≡ some message
      → handle_node policy codec raw false r ≡ deliver policy codec raw message r
  unfolding handle_node
  handle_node_live raw r message e = rw e

  -- How a line is forwarded: as it came where no note is due; with the note on the initialize result; or with the
  -- note on the tool result, for which only a result that is an object has a place. What was placed counts.
  abbrev pub IsForwarded :
      List ℕ → Fields → Option (Json × Option String) → Recovery → Recovery → Decision → Type 0
  IsForwarded raw message entry r s d =
      ((initialize_due (is_init_result message r) r ≡ false)
        × (result_due entry r ≡ false)
        × (d ≡ forward raw)
        × (s.init_annotated ≡ r.init_annotated)
        × (s.result_noted ≡ r.result_noted))
      ⊎ ((initialize_due (is_init_result message r) r ≡ true)
          × (s.init_annotated ≡ true)
          × (s.result_noted ≡ r.result_noted)
          × ((line : List ℕ) × (d ≡ forward line)
              × IsNote codec message "instructions"
                  (instructions_with codec (warning_line policy r) (get_or_null "result" message))
                  line))
      ⊎ ((initialize_due (is_init_result message r) r ≡ false)
          × (result_due entry r ≡ true)
          × (s.init_annotated ≡ r.init_annotated)
          × (s.result_noted ≡ true)
          × ((line : List ℕ) × (d ≡ forward line)
              × (((as_obj (get_or_null "result" message) ≡ none) × (line ≡ raw))
                  ⊎ IsNote codec message "content"
                      (content_with codec (warning_line policy r) (get_or_null "result" message))
                      line)))

  -- A response of the node, with an id that hashes, to a tidy live state: its id is no longer
  -- outstanding, every other id is as outstanding as it was, and the line is forwarded.
  pub record IsAnswered (raw : List ℕ) (message : Fields) (k : Key) (r s : Recovery) (d : Decision)
      : Type 0 where
    pub settled :
        (j : Key)
        → (find j s.pending ≡ (if key_eq k j then none else find j r.pending))
          × (find j s.uncertain ≡ (if key_eq k j then none else find j r.uncertain))
    pub forwarded : IsForwarded raw message (find k r.pending) r s d

  annotate-kept :
      (raw : List ℕ) (init_result : Bool) (method : Option String) (r : Recovery)
      → let s = (annotate policy codec raw init_result method r).0 in
        (s.pending ≡ r.pending) × (s.uncertain ≡ r.uncertain)
  unfolding annotate
  annotate-kept raw init_result method r = ground arith

  annotate-IsForwarded :
      (raw : List ℕ) (message : Fields) (entry : Option (Json × Option String)) (r : Recovery)
      → parse codec raw ≡ some message
      → let result = annotate policy codec raw (is_init_result message r) (method_of entry) r in
        IsForwarded raw message entry r result.0 result.1
  unfolding annotate
  annotate-IsForwarded raw message entry r p =
      elim (Bool-cases (initialize_due (is_init_result message r) r)) [
        | inl e ↦
            rw (e, annotate)
              (inr (
                inl (
                  refl,
                  refl,
                  refl,
                  (
                    annotate_initialize_result codec raw (warning_line policy r),
                    refl,
                    initialize-IsNote codec raw message (warning_line policy r) p
                        (ground (arith, e)),
                  ),
                )))
        | inr e ↦ elim (Bool-cases (result_due entry r)) [
          | inl t ↦
              rw (e, annotate, called_lem entry, t)
                (inr (
                  inr (
                    refl,
                    refl,
                    refl,
                    refl,
                    (
                      annotate_tool_result codec raw (warning_line policy r),
                      refl,
                      tool-IsNote codec raw message (warning_line policy r) p,
                    ),
                  )))
          | inr t ↦ rw (e, annotate, called_lem entry, t) (inl (refl, refl, refl, refl, refl))
        ]
      ]

  -- The node's response to an id that hashes settles that id and no other, and is forwarded. It is forwarded as it
  -- came unless the node core is stale and a note is due: the warning is then added to the instructions of the
  -- initialize result, once, or, where the policy wants it, to the content of a tool result, once; every other field
  -- of the line stays. (A tool answer whose result is no object is forwarded as it came, and counts as noted.)
  pub live_response :
      (raw : List ℕ) (r : Recovery) (message : Fields) (k : Key)
      → IsTidy r
      → response_of (parse codec raw) ≡ some message
      → hash_key (get_or_null "id" message) ≡ some k
      → (s : Recovery) × (d : Decision) × (handle_node policy codec raw false r ≡ done (s, d))
        × IsAnswered raw message k r s d
  unfolding forget stale warning_line
  live_response raw r message k v e q =
      let entry = find k r.pending in
      let gone = forget k r in
      let (s, d) = annotate policy codec raw (is_init_result message gone) (method_of entry) gone in
      let same = annotate-kept raw (is_init_result message gone) (method_of entry) gone in
      (
        s,
        d,
        handle_node_live raw r message e ∙ deliver-hashed policy codec raw message r k q,
        record {
          settled = λ j. (
            ap (find j) same.0 ∙ find-drop_key k j r.pending v.pending_unique,
            ap (find j) same.1 ∙ find-drop_key k j r.uncertain v.uncertain_unique,
          );
          forwarded =
              annotate-IsForwarded raw message entry gone
                (response_of_lem (parse codec raw) message e);
        },
      )

  -- A live line that is no response with an id is forwarded as it came, and changes nothing.
  pub live_forward :
      (raw : List ℕ) (r : Recovery)
      → response_of (parse codec raw) ≡ none
      → handle_node policy codec raw false r ≡ done (r, forward raw)
  unfolding handle_node
  live_forward raw r e = rw e

  -- A live response whose id is a list or a dict raises a `TypeError`.
  pub live_type_error :
      (raw : List ℕ) (r : Recovery) (message : Fields)
      → response_of (parse codec raw) ≡ some message
      → hash_key (get_or_null "id" message) ≡ none
      → handle_node policy codec raw false r ≡ type_error
  unfolding handle_node deliver
  live_type_error raw r message e q = rw e (rw (q, deliver))
