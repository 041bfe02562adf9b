-- ===== src/Protocol/Modern/Surface.antt =====
-- bridge_protocol.py: what a forwarded modern request carries to the backend, and what a result of the
-- backend carries to a modern client.
use win_wsl_mcp_bridge.Base.{
  String, ◌&&◌, List, [], ◌∷◌, Option, none, some, ◌≡◌, ◌≢◌, refl, sym, ap, ◌∙◌, inl, inr, text_eq,
  if◌then◌else◌, arith, eq_iff, Bool-cases, subst, true, ◌⊎◌,
}
use win_wsl_mcp_bridge.Json.{
  Json, null, boolean, int, float, str, obj, arr, Fields, end, field, get, get_or_null, put,
  non_empty, pos, has,
}
use win_wsl_mcp_bridge.Json.Dicts.{get-put, get_or_null-put}
use win_wsl_mcp_bridge.Protocol.Revisions.{text_in}
use win_wsl_mcp_bridge.Protocol.Modern.{
  pop, filtered_meta, without_meta, sanitize_params_for_legacy, pick, with_server_info,
  meta_server_info_key, enveloped, shape_modern_result, list_result_allowed_keys,
  call_result_allowed_keys,
}

pub get-pop :
    (k j : String) (fs : Fields) → get k (pop j fs) ≡ (if text_eq j k then none else get k fs)
unfolding get pop
get-pop k j end = ground arith
get-pop k j (field i v fs) = ground (arith, eq_iff j k, eq_iff i k, eq_iff i j, get-pop k j fs)

pub get-pick :
    (k : String) (allowed : List String) (result : Fields)
    → get k (pick allowed result) ≡ (if text_in k allowed then get k result else none)
unfolding get pick text_in
get-pick k [] result = refl
get-pick k (j ∷ allowed) result = ground (arith, eq_iff j k, get-pick k allowed result)

get-enveloped :
    (k : String) (info shaped : Fields)
    → get k (enveloped info shaped) ≡ (
        if text_eq "_meta" k
        then some (obj (with_server_info info (get_or_null "_meta" shaped)))
        else get k shaped)
unfolding enveloped
get-enveloped k info shaped = get-put k "_meta" _ shaped

-- The fields of a modern result that the bridge itself sets, but for its `_meta`.
abbrev pub envelope_field : String → String → Option Json
envelope_field method k =
    if text_eq "cacheScope" k && text_eq method "tools/list"
    then some (str "private")
    else if text_eq "ttlMs" k && text_eq method "tools/list"
    then some (int (pos 0))
    else if text_eq "resultType" k
    then some (str "complete")
    else none

abbrev pub allowed_keys : String → List String
allowed_keys method =
    if text_eq method "tools/list" then list_result_allowed_keys else call_result_allowed_keys

abbrev pub or_else : Option Json → Option Json → Option Json
or_else none w = w
or_else (some v) w = some v

abbrev list_shape : Fields → Fields → Fields
list_shape info result = enveloped info (
    put "cacheScope" (str "private") (
      put "ttlMs" (int (pos 0))
        (put "resultType" (str "complete") (pick list_result_allowed_keys result))))

abbrev call_shape : Fields → Fields → Fields
call_shape info result =
    enveloped info (put "resultType" (str "complete") (pick call_result_allowed_keys result))

list_shape_lem :
    (info result : Fields) (k : String)
    → k ≢ "_meta"
    → get k (list_shape info result)
      ≡ or_else
          (envelope_field "tools/list" k)
          (if text_in k list_result_allowed_keys then get k result else none)
list_shape_lem info result k n = ground (
  arith,
  eq_iff "_meta" k,
  get-enveloped k info (
      put "cacheScope" (str "private") (
        put "ttlMs" (int (pos 0))
          (put "resultType" (str "complete") (pick list_result_allowed_keys result)))),
  get-put k "cacheScope" (str "private") (
      put "ttlMs" (int (pos 0))
        (put "resultType" (str "complete") (pick list_result_allowed_keys result))),
  get-put k "ttlMs" (int (pos 0))
      (put "resultType" (str "complete") (pick list_result_allowed_keys result)),
  get-put k "resultType" (str "complete") (pick list_result_allowed_keys result),
  get-pick k list_result_allowed_keys result,
)

call_shape_lem :
    (info result : Fields) (k : String)
    → k ≢ "_meta"
    → get k (call_shape info result)
      ≡ or_else
          (envelope_field "tools/call" k)
          (if text_in k call_result_allowed_keys then get k result else none)
call_shape_lem info result k n = ground (
  arith,
  eq_iff "_meta" k,
  get-enveloped k info (put "resultType" (str "complete") (pick call_result_allowed_keys result)),
  get-put k "resultType" (str "complete") (pick call_result_allowed_keys result),
  get-pick k call_result_allowed_keys result,
)

-- The fields of a `_meta` block, none if it is no object.
abbrev pub block_of : Json → Fields
block_of (obj meta) = meta
block_of _ = end

-- The block that is given out: that of the backend, with the bridge's identity where the backend names no server.
pub record IsStamped (info : Fields) (before : Json) (out : Option Json) : Type 0 where
  pub block : Fields
  pub held : out ≡ some (obj block)
  pub named :
      get meta_server_info_key block
      ≡ or_else (get meta_server_info_key (block_of before)) (some (obj info))
  pub rest :
      (j : String)
      → (text_eq meta_server_info_key j ≡ true) ⊎ (get j block ≡ get j (block_of before))

put-IsStamped :
    (info meta : Fields)
    → get meta_server_info_key meta ≡ none
    → IsStamped info (obj meta) (some (obj (put meta_server_info_key (obj info) meta)))
put-IsStamped info meta e = record {
  block = put meta_server_info_key (obj info) meta;
  held = refl;
  named = rw (e, get-put meta_server_info_key meta_server_info_key (obj info) meta);
  rest = λ j. ground (arith, get-put j meta_server_info_key (obj info) meta);
}

alone-IsStamped :
    (info : Fields) (before : Json)
    → block_of before ≡ end
    → IsStamped info before (some (obj (field meta_server_info_key (obj info) end)))
unfolding get
alone-IsStamped info before e = record {
  block = field meta_server_info_key (obj info) end;
  held = refl;
  named = rw e (ground (arith, eq_iff meta_server_info_key meta_server_info_key));
  rest = λ j. rw e (ground arith);
}

has_lem :
    (k : String) (meta : Fields) (v : Json)
    → has k meta ≡ true
    → get k meta ≡ or_else (get k meta) (some v)
unfolding has
has_lem k meta v h = ground arith

with_server_info-IsStamped :
    (info : Fields) (before : Json)
    → IsStamped info before (some (obj (with_server_info info before)))
unfolding with_server_info has
with_server_info-IsStamped info (obj meta) = elim (Bool-cases (has meta_server_info_key meta)) [
  | inl e ↦
      rw (e, with_server_info)
        (record {
          block = meta;
          held = refl;
          named = has_lem meta_server_info_key meta (obj info) e;
          rest = λ j. inr refl;
        })
  | inr e ↦ rw (e, with_server_info) (put-IsStamped info meta (ground arith))
]
with_server_info-IsStamped info null = alone-IsStamped info null refl
with_server_info-IsStamped info (boolean x) = alone-IsStamped info (boolean x) refl
with_server_info-IsStamped info (int x) = alone-IsStamped info (int x) refl
with_server_info-IsStamped info (float x) = alone-IsStamped info (float x) refl
with_server_info-IsStamped info (str x) = alone-IsStamped info (str x) refl
with_server_info-IsStamped info (arr x) = alone-IsStamped info (arr x) refl

enveloped-IsStamped :
    (info picked : Fields) (before : Json)
    → get_or_null "_meta" picked ≡ before
    → IsStamped info before (get "_meta" (enveloped info picked))
enveloped-IsStamped info picked before e = rw (get-enveloped "_meta" info picked) (
    subst (λ v. IsStamped info before (some (obj (with_server_info info v)))) (sym e)
      (with_server_info-IsStamped info before))

get_or_null-pick :
    (k : String) (allowed : List String) (result : Fields)
    → get_or_null k (pick allowed result)
      ≡ (if text_in k allowed then get_or_null k result else null)
unfolding get_or_null
get_or_null-pick k allowed result = ground (arith, get-pick k allowed result)

meta_kept :
    (result : Fields)
    → (get_or_null "_meta" (
          put "cacheScope" (str "private") (
            put "ttlMs"
              (int (pos 0))
              (put "resultType" (str "complete") (pick list_result_allowed_keys result))))
        ≡ get_or_null "_meta" result)
      × (get_or_null "_meta"
            (put "resultType" (str "complete") (pick call_result_allowed_keys result))
          ≡ get_or_null "_meta" result)
unfolding text_in
meta_kept result =
    (simp (get_or_null-put, get_or_null-pick), simp (get_or_null-put, get_or_null-pick))

-- What a modern client is given of a backend's result is the envelope of the bridge, and the value of each
-- key that the schema of the method allows; no other key of the backend passes. Its `_meta` is the block of the
-- backend as it is, and names the bridge as the server where that block names none.
pub shape_modern_result-IsProjected :
    (method : String) (result info shaped : Fields)
    → shape_modern_result method (obj result) info ≡ some shaped
    → (k : String) → k ≢ "_meta"
    → (get k shaped
        ≡ or_else
            (envelope_field method k)
            (if text_in k (allowed_keys method) then get k result else none))
      × IsStamped info (get_or_null "_meta" result) (get "_meta" shaped)
unfolding shape_modern_result
shape_modern_result-IsProjected method result info shaped h k n =
    elim (Bool-cases (text_eq method "tools/list")) [
      | inl e ↦
          let same : list_shape info result ≡ shaped = ground (arith, e, h) in
          (
            ground (arith, e, eq_iff method "tools/list", list_shape_lem info result k n),
            subst (λ o. IsStamped info (get_or_null "_meta" result) (get "_meta" o)) same
                (enveloped-IsStamped info _ _ (meta_kept result).0),
          )
      | inr e ↦
          let same : call_shape info result ≡ shaped = ground (arith, e, h) in
          (
            ground (
              arith,
              e,
              eq_iff method "tools/call",
              eq_iff method "tools/list",
              call_shape_lem info result k n,
            ),
            subst (λ o. IsStamped info (get_or_null "_meta" result) (get "_meta" o)) same
                (enveloped-IsStamped info _ _ (meta_kept result).1),
          )
    ]

without_meta-other :
    (params : Fields) (m : Json) (k : String)
    → k ≢ "_meta"
    → get k (without_meta params m) ≡ get k params
unfolding without_meta
without_meta-other params (obj meta) k n = ground (
  arith,
  eq_iff "_meta" k,
  get-pop k "_meta" params,
  get-put k "_meta" (obj (filtered_meta (get_or_null "progressToken" meta))) params,
)
without_meta-other params _ k n = refl

-- The block that the backend may see: a progress token alone.
abbrev pub token_block : Json → Option Json
token_block (str token) = some (obj (field "progressToken" (str token) end))
token_block (int token) = some (obj (field "progressToken" (int token) end))
token_block (float token) = some (obj (field "progressToken" (float token) end))
token_block _ = none

block_lem :
    (params : Fields) (token : Json)
    → get "_meta" (
        if non_empty (filtered_meta token)
        then put "_meta" (obj (filtered_meta token)) params
        else pop "_meta" params)
      ≡ token_block token
unfolding filtered_meta
block_lem params (str t) =
    ground (arith, get-put "_meta" "_meta" (obj (field "progressToken" (str t) end)) params)
block_lem params (int t) =
    ground (arith, get-put "_meta" "_meta" (obj (field "progressToken" (int t) end)) params)
block_lem params (float t) =
    ground (arith, get-put "_meta" "_meta" (obj (field "progressToken" (float t) end)) params)
block_lem params null = ground (arith, get-pop "_meta" "_meta" params, eq_iff "_meta" "_meta")
block_lem params (boolean t) =
    ground (arith, get-pop "_meta" "_meta" params, eq_iff "_meta" "_meta")
block_lem params (arr t) = ground (arith, get-pop "_meta" "_meta" params, eq_iff "_meta" "_meta")
block_lem params (obj t) = ground (arith, get-pop "_meta" "_meta" params, eq_iff "_meta" "_meta")

-- The parameters of a modern request that has a `_meta` block are forwarded as they are but for that block, and
-- of the block no more is forwarded than the progress token, where that is a text or a number: no claim of the
-- client's version, identity or capabilities reaches the backend.
pub sanitize-IsIsolated :
    (params meta out : Fields) (k : String)
    → get_or_null "_meta" params ≡ obj meta
    → sanitize_params_for_legacy (obj params) ≡ some out
    → k ≢ "_meta"
    → (get k out ≡ get k params)
      × (get "_meta" out ≡ token_block (get_or_null "progressToken" meta))
unfolding sanitize_params_for_legacy without_meta
sanitize-IsIsolated params meta out k block h n =
    let same : without_meta params (obj meta) ≡ out = ground arith in
    (
      ground (arith, without_meta-other params (get_or_null "_meta" params) k n),
      sym (ap (λ o. get "_meta" o) same) ∙ block_lem params (get_or_null "progressToken" meta),
    )
