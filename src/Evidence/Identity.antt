-- ===== src/Evidence/Identity.antt =====
-- stream_evidence.py: flows, sides, canonical request ids and the correlation alias.
use Prim.Native.String.{◌++◌ as text_append, len, slice}
use win_wsl_mcp_bridge.Base.{
  ℕ, String, ◌≡◌, refl, true, false, Option, none, some, ltb, if◌then◌else◌,
}
use win_wsl_mcp_bridge.Json.{Json, boolean, int, float, str, show_int}

pub data Flow : Type 0 where
  inbound outbound : Flow

pub data Side : Type 0 where
  win wsl : Side

abbrev pub max_request_id_canonical_bytes : ℕ
max_request_id_canonical_bytes = 128

abbrev pub alias_prefix : String
alias_prefix = "ev1:"

abbrev pub alias_digest_hex_length : ℕ
alias_digest_hex_length = 32

abbrev pub evidence_algorithm : String
evidence_algorithm = "win-wsl-mcp-evidence-v1"

-- `None` for an id that is no scalar, or is too long
unfoldable pub canonical_request_id : Json → Option String
canonical_request_id (boolean true) = some "b:true"
canonical_request_id (boolean false) = some "b:false"
canonical_request_id (int z) = some (text_append "i:" (show_int z))
canonical_request_id (float x) = some (text_append "f:" x.repr)
canonical_request_id (str s) =
    if ltb max_request_id_canonical_bytes (len s) then none else some (text_append "s:" s)
canonical_request_id _ = none

unfoldable pub peer_side : Side → Side
peer_side win = wsl
peer_side wsl = win

unfoldable pub origin_side_for : Flow → Side → Side
unfolding peer_side
origin_side_for outbound side = side
origin_side_for inbound side = peer_side side

unfoldable pub opposite_flow : Flow → Flow
opposite_flow outbound = inbound
opposite_flow inbound = outbound

-- The fields that the alias digests.
pub record Payload : Type 0 where
  pub v : String
  pub s : String
  pub o : Side
  pub i : String
  pub n : ℕ

-- `hexdigest` stands for the SHA-256 hex digest of the payload's JSON text.
unfoldable pub alias_from_canonical : (Payload → String) → String → Side → String → ℕ → String
alias_from_canonical hexdigest stream_id origin canonical_id occurrence =
    text_append alias_prefix (slice (hexdigest payload) 0 alias_digest_hex_length)
  where
    payload : Payload
    payload = record {
      v = evidence_algorithm;
      s = stream_id;
      o = origin;
      i = canonical_id;
      n = occurrence;
    }

-- A message has one origin: what one node sends is what its peer receives.
pub origin-peer :
    (flow : Flow) (side : Side)
    → origin_side_for (opposite_flow flow) (peer_side side) ≡ origin_side_for flow side
unfolding origin_side_for opposite_flow
origin-peer inbound win = refl
origin-peer inbound wsl = refl
origin-peer outbound win = refl
origin-peer outbound wsl = refl

pub opposite-opposite : (flow : Flow) → opposite_flow (opposite_flow flow) ≡ flow
unfolding opposite_flow
opposite-opposite inbound = refl
opposite-opposite outbound = refl
