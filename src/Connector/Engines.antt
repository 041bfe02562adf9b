-- ===== src/Connector/Engines.antt =====
-- connector_core.py: which engine `_scan_engine_dir` loads.
pub mod Newest
use Prim.Native.Char.{code}
use Prim.Native.String
use win_wsl_mcp_bridge.Base.{
  ℕ, ◌+◌, String, Bool, true, false, not, ◌&&◌, ◌||◌, Option, none, some, List, [], ◌∷◌, ◌++◌,
  length, ltb, leb, ◌==◌, text_eq, if◌then◌else◌, zero, suc,
}
use win_wsl_mcp_bridge.Json.{Json, str, obj, Fields, get_or_null, as_obj, as_str}
use win_wsl_mcp_bridge.Engine.Payload.{Codec}

-- The code points of a text.
abbrev pub codes : String → List ℕ
codes String.[] = []
codes (String.◌∷◌ c s) = code c ∷ codes s

-- `s.endswith(suffix)`
unfoldable pub same_codes : List ℕ → List ℕ → Bool
same_codes [] [] = true
same_codes (c ∷ s) (d ∷ t) = c == d && same_codes s t
same_codes _ _ = false

unfoldable pub has_suffix : List ℕ → List ℕ → Bool
unfolding same_codes
has_suffix suffix [] = same_codes suffix []
has_suffix suffix (c ∷ s) = same_codes suffix (c ∷ s) || has_suffix suffix s

abbrev ends_with : String → String → Bool
ends_with suffix s = has_suffix (codes suffix) (codes s)

abbrev pub connector_version_max : ℕ
connector_version_max = 64

abbrev pub max_engine_candidates : ℕ
max_engine_candidates = 32

abbrev pub max_engine_manifest_bytes : ℕ
max_engine_manifest_bytes = 65536

abbrev pub max_engine_module_bytes : ℕ
max_engine_module_bytes = 2097152

-- `s.split(".")`
abbrev add_to_first : ℕ → List (List ℕ) → List (List ℕ)
add_to_first c [] = (c ∷ []) ∷ []
add_to_first c (part ∷ parts) = (c ∷ part) ∷ parts

unfoldable pub split : List ℕ → List (List ℕ)
split [] = [] ∷ []
split (c ∷ s) = let rest = split s in if c == b'.' then [] ∷ rest else add_to_first c rest

-- An entry of the directory, in the order of `sorted`; no bytes where it cannot be read.
pub record Candidate : Type 0 where
  pub is_file : Bool
  pub name : String
  pub raw : Option (List ℕ)

-- What an imported module declares.
pub record Module : Type 0 where
  pub engine_name : Json
  pub engine_version : Json
  pub core_version : Json
  pub makes_recovery : Bool

-- What the standard library and the disk give: the digits, `int` of a part, which raises where there is no
-- value, `json.loads`, the bytes of a module file that lies in the directory, their digest, and the import.
pub record Host : Type 0 where
  pub isdigit : ℕ → Bool
  pub int_of : List ℕ → Option ℕ
  pub loads : List ℕ → Option Json
  pub read_module : String → Option (List ℕ)
  pub sha256 : List ℕ → String
  pub import_file : String → Option Module

-- A manifest that is listed. Its key is the version, four numbers, before the name of its file: the pairs of
-- the source compare as these lists do.
pub record Found : Type 0 where
  pub version : List ℕ
  pub name : String
  pub manifest : Fields

abbrev pub key : Found → List ℕ
key f = f.version ++ codes f.name

unfoldable pub lex_le : List ℕ → List ℕ → Bool
lex_le [] ys = true
lex_le (x ∷ xs) [] = false
lex_le (x ∷ xs) (y ∷ ys) = ltb x y || (x == y && lex_le xs ys)

-- `manifests.sort(key=…, reverse=True)`
unfoldable pub insert_desc : Found → List Found → List Found
unfolding lex_le
insert_desc f [] = f ∷ []
insert_desc f (g ∷ gs) =
    let rest = insert_desc f gs in if lex_le (key g) (key f) then f ∷ g ∷ gs else g ∷ rest

unfoldable pub sort_desc : List Found → List Found
sort_desc [] = []
sort_desc (f ∷ fs) = insert_desc f (sort_desc fs)

abbrev is_hex : ℕ → Bool
is_hex c = (leb b'0' c && leb c b'9') || (leb b'a' c && leb c b'f')

unfoldable pub all_hex : List ℕ → Bool
all_hex [] = true
all_hex (c ∷ s) = is_hex c && all_hex s

abbrev is_nonempty : List ℕ → Bool
is_nonempty [] = false
is_nonempty (c ∷ s) = true

module _ (h : Host) where
  unfoldable pub all_digits : List ℕ → Bool
  all_digits [] = true
  all_digits (c ∷ s) = h.isdigit c && all_digits s

  unfoldable pub all_parts : List (List ℕ) → Bool
  unfolding all_digits
  all_parts [] = true
  all_parts (part ∷ parts) = (all_digits part && is_nonempty part) && all_parts parts

  -- `_plausible_version`
  unfoldable pub plausible_text : List ℕ → Bool
  unfolding split all_parts
  plausible_text s =
      if not (is_nonempty s) || ltb connector_version_max (length s)
      then false
      else if ltb 4 (length (split s))
      then false
      else all_parts (split s)

  abbrev pub plausible_version : Json → Bool
  plausible_version (str s) = plausible_text (codes s)
  plausible_version _ = false

  -- `_version_tuple`; `none` is the `ValueError`. A plausible version has four parts at most.
  abbrev numbered : Option ℕ → Option (List ℕ) → Option (List ℕ)
  numbered none ns = none
  numbered (some n) none = none
  numbered (some n) (some ns) = some (n ∷ ns)

  unfoldable pub version_tuple : ℕ → List (List ℕ) → Option (List ℕ)
  version_tuple zero parts = some []
  version_tuple (suc n) [] = numbered (some 0) (version_tuple n [])
  version_tuple (suc n) (part ∷ parts) = numbered (h.int_of part) (version_tuple n parts)

  abbrev found_as : String → Fields → Option (List ℕ) → Option (Option Found)
  found_as name manifest none = none
  found_as name manifest (some version) =
      some (some (record { version = version; name = name; manifest = manifest }))

  abbrev versioned : String → Fields → Json → Option (Option Found)
  versioned name manifest (str version) =
      found_as name manifest (version_tuple 4 (split (codes version)))
  versioned name manifest _ = some none

  unfoldable pub list_manifest : String → Option Json → Option (Option Found)
  unfolding version_tuple split
  list_manifest name (some (obj manifest)) =
      if plausible_version (get_or_null "version" manifest)
        && plausible_version (get_or_null "coreVersion" manifest)
      then versioned name manifest (get_or_null "version" manifest)
      else some none
  list_manifest name _ = some none

  abbrev read_candidate : String → Option (List ℕ) → Option (Option Found)
  read_candidate name none = some none
  read_candidate name (some raw) =
      if ltb max_engine_manifest_bytes (length raw)
      then some none
      else list_manifest name (h.loads raw)

  abbrev listed : Option (Option Found) → Option (List Found) → Option (List Found)
  listed none rest = none
  listed (some none) rest = rest
  listed (some (some f)) none = none
  listed (some (some f)) (some fs) = some (f ∷ fs)

  -- The manifests; `none` is an exception that stops the scan. `left` counts down from the limit.
  unfoldable pub list_manifests : ℕ → List Candidate → Option (List Found)
  unfolding list_manifest has_suffix
  list_manifests left [] = some []
  list_manifests zero (c ∷ cs) =
      let rest = list_manifests zero cs in
      if c.is_file && ends_with ".engine.json" c.name then some [] else rest
  list_manifests (suc left) (c ∷ cs) =
      let fewer = list_manifests left cs in
      let rest = list_manifests (suc left) cs in
      if c.is_file && ends_with ".engine.json" c.name
      then listed (read_candidate c.name c.raw) fewer
      else rest

  abbrev nonempty_text : Json → Bool
  nonempty_text (str s) = not (text_eq s "")
  nonempty_text _ = false

  -- `_validate_engine_module`
  unfoldable pub validate_engine_module : Module → Bool
  validate_engine_module m =
      nonempty_text m.engine_name
      && (plausible_version m.engine_version
          && (plausible_version m.core_version && m.makes_recovery))

  abbrev same_text : Json → Json → Bool
  same_text (str s) (str t) = text_eq s t
  same_text _ _ = false

  -- The module agrees with its manifest.
  abbrev agrees : Fields → Module → Bool
  agrees manifest m =
      same_text m.engine_version (get_or_null "version" manifest)
      && same_text m.core_version (get_or_null "coreVersion" manifest)

  abbrev imported : Fields → Option Module → Option Module
  imported manifest none = none
  imported manifest (some m) =
      if validate_engine_module m && agrees manifest m then some m else none

  abbrev is_digest : String → Bool
  is_digest s = length (codes s) == 64 && all_hex (codes s)

  abbrev checked : Fields → String → String → Option (List ℕ) → Option Module
  checked manifest name digest none = none
  checked manifest name digest (some bytes) =
      if ltb max_engine_module_bytes (length bytes)
      then none
      else if not (is_digest digest)
      then none
      else if not (text_eq (h.sha256 bytes) digest)
      then none
      else imported manifest (h.import_file name)

  abbrev named : Fields → Json → Json → Option Module
  named manifest (str name) (str digest) =
      if ends_with ".py" name then checked manifest name digest (h.read_module name) else none
  named manifest _ _ = none

  -- The module of one manifest, where every check passes.
  unfoldable pub try_manifest : Found → Option Module
  unfolding validate_engine_module all_hex has_suffix
  try_manifest f =
      named f.manifest (get_or_null "module" f.manifest) (get_or_null "sha256" f.manifest)

  abbrev pub chosen : Found → Option Module → Option (Found × Module) → Option (Found × Module)
  chosen f none rest = rest
  chosen f (some m) rest = some (f, m)

  unfoldable pub first_verified : List Found → Option (Found × Module)
  unfolding try_manifest
  first_verified [] = none
  first_verified (f ∷ fs) = chosen f (try_manifest f) (first_verified fs)

  -- What a scan of the directory gives: the engine of a manifest, or the built-in one (`some none`), or an
  -- exception.
  abbrev pub of_manifests : Option (List Found) → Option (Option (Found × Module))
  of_manifests none = none
  of_manifests (some fs) = some (first_verified (sort_desc fs))

  unfoldable pub scan_engine_dir : List Candidate → Option (Option (Found × Module))
  unfolding first_verified sort_desc
  scan_engine_dir candidates = of_manifests (list_manifests max_engine_candidates candidates)

  -- `load_engine`: an explicit file must load, a directory is scanned, and else the built-in engine is taken.
  -- A file that cannot be found or imported is no module; a directory that cannot be listed has no candidates.
  abbrev loaded_explicitly : Option Module → Option (Option Module)
  loaded_explicitly none = none
  loaded_explicitly (some m) = if validate_engine_module m then some (some m) else none

  abbrev module_of : Option (Option (Found × Module)) → Option (Option Module)
  module_of none = none
  module_of (some none) = some none
  module_of (some (some (f, m))) = some (some m)

  unfoldable pub load_engine :
      Option (Option Module) → Option (List Candidate) → Option (Option Module)
  unfolding scan_engine_dir validate_engine_module
  load_engine (some file) directory = loaded_explicitly file
  load_engine none (some candidates) = module_of (scan_engine_dir candidates)
  load_engine none none = some none
