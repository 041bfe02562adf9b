-- ===== src/Registration/Artifacts.antt =====
-- bridge_runtime.py: `_parse_artifact_extension` and `_artifact_max_chunk`, what a peer offers for artifacts.
use win_wsl_mcp_bridge.Base.{
  ℕ, ◌≤◌, ◌||◌, Option, none, some, ◌≡◌, ◌==◌, leb, ltb, if◌then◌else◌, arith, subst, ap,
}
use win_wsl_mcp_bridge.Json.{ℤ, pos, negsuc, Json, int, obj, Fields, get_or_null, py_eq}

abbrev pub artifact_chunk_bytes : ℕ
artifact_chunk_bytes = 65536

pub data Revision : Type 0 where
  v1 v2 : Revision

-- The branches on an offered version that is an integer.
unfoldable pub offered_revision : ℤ → Fields → Option Revision
offered_revision (negsuc n) fields = none
offered_revision (pos n) fields =
    if n == 2
    then some v2
    else if n == 1
    then some (if py_eq (get_or_null "highestVersion" fields) (int (pos 2)) then v2 else v1)
    else none

unfoldable pub parse_artifact_extension : Json → Option Revision
unfolding offered_revision
parse_artifact_extension (obj fields) = elim (get_or_null "version" fields) [
  | int version ↦ offered_revision version fields
  | _ ↦ none
]
parse_artifact_extension _ = none

unfoldable pub bounded_chunk : Json → Option ℕ
bounded_chunk (int (pos n)) = if leb n 0 || ltb artifact_chunk_bytes n then none else some n
bounded_chunk _ = none

unfoldable pub artifact_max_chunk : Json → Option ℕ
unfolding bounded_chunk
artifact_max_chunk (obj fields) = bounded_chunk (get_or_null "maxChunk" fields)
artifact_max_chunk _ = none

bounded_chunk_lem :
    (v : Json) (n : ℕ)
    → bounded_chunk v ≡ some n
    → (v ≡ int (pos n)) × (1 ≤ n) × (n ≤ artifact_chunk_bytes)
unfolding bounded_chunk
bounded_chunk_lem (int (pos m)) n h =
    let same : m ≡ n = ground (arith, h) in
    let fits : (1 ≤ m) × (m ≤ artifact_chunk_bytes) = ground (arith, h) in
    (
      ap (λ x. int (pos x)) same,
      subst (λ x. 1 ≤ x) same fits.0,
      subst (λ x. x ≤ artifact_chunk_bytes) same fits.1,
    )
bounded_chunk_lem _ n h = cc

-- A chunk size that is taken from a peer is the one it offers, at least 1 and at most this side's own.
pub artifact_max_chunk-bounds :
    (fields : Fields) (n : ℕ)
    → artifact_max_chunk (obj fields) ≡ some n
    → (get_or_null "maxChunk" fields ≡ int (pos n)) × (1 ≤ n) × (n ≤ artifact_chunk_bytes)
unfolding artifact_max_chunk
artifact_max_chunk-bounds fields n h = bounded_chunk_lem (get_or_null "maxChunk" fields) n h
