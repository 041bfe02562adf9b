-- ===== src/Tests/Engines.antt =====
-- The choice of an engine at a concrete directory.
use win_wsl_mcp_bridge.Base.{
  ℕ, ◌+◌, ◌-◌, ◌*◌, ◌≡◌, refl, String, true, ◌&&◌, Option, none, some, List, [], ◌∷◌, leb, text_eq,
  ◌==◌, inl, if◌then◌else◌,
}
use win_wsl_mcp_bridge.Json.{Json, str, obj, Fields, field, end, get_or_null}
use win_wsl_mcp_bridge.Connector.Engines.{
  Host, Module, Found, Candidate, key, lex_le, list_manifests, scan_engine_dir, try_manifest,
  max_engine_candidates, max_engine_manifest_bytes, max_engine_module_bytes,
}
use win_wsl_mcp_bridge.Connector.Engines
use win_wsl_mcp_bridge.Connector.Engines.Newest.{scan_engine_dir-IsNewest}

abbrev digest : String
digest = "0123456789abcdef0123456789abcdef0123456789abcdef0123456789abcdef"

abbrev manifest : String → String → Fields
manifest version name =
    field "version" (str version) (
      field "coreVersion" (str "1.0") (field "module" (str name) (field "sha256" (str digest) end)))

abbrev engine : String → Module
engine version = record {
  engine_name = str "recovery";
  engine_version = str version;
  core_version = str "1.0";
  makes_recovery = true;
}

decimal : ℕ → List ℕ → ℕ
decimal n [] = n
decimal n (c ∷ s) = decimal (n * 10 + (c - 48)) s

loads : List ℕ → Option Json
loads (c ∷ s) =
    if c == 1 then some (obj (manifest "1.9" "a.py")) else some (obj (manifest "1.10" "b.py"))
loads [] = none

abbrev host : Host
host = record {
  isdigit = λ c. leb 48 c && leb c 57;
  int_of = λ s. some (decimal 0 s);
  loads = loads;
  read_module = λ name. some [];
  sha256 = λ bytes. digest;
  import_file = λ name. if text_eq name "a.py" then some (engine "1.9") else some (engine "1.10");
}

abbrev entry : String → ℕ → Candidate
entry name n = record { is_file = true; name = name; raw = some (n ∷ []) }

abbrev directory : List Candidate
directory = entry "a.engine.json" 1 ∷ entry "b.engine.json" 2 ∷ []

abbrev nine : Found
nine = record {
  version = 1 ∷ 9 ∷ 0 ∷ 0 ∷ [];
  name = "a.engine.json";
  manifest = manifest "1.9" "a.py";
}

abbrev ten : Found
ten = record {
  version = 1 ∷ 10 ∷ 0 ∷ 0 ∷ [];
  name = "b.engine.json";
  manifest = manifest "1.10" "b.py";
}

-- Version 1.10 is newer than 1.9, though not as a text.
scan_engine_dir-IsNewest_example :
    (try_manifest host ten ≡ some (engine "1.10")) × (lex_le (key nine) (key ten) ≡ true)
unfolding loads decimal Engines.insert_desc list_manifests scan_engine_dir try_manifest
    Engines.plausible_text win_wsl_mcp_bridge.Json.get_or_null win_wsl_mcp_bridge.Json.get
scan_engine_dir-IsNewest_example =
    scan_engine_dir-IsNewest host directory (nine ∷ ten ∷ []) ten nine (engine "1.10")
      (engine "1.9") refl refl (inl refl) refl
