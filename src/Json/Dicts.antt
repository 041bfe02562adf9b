-- ===== src/Json/Dicts.antt =====
-- Reading a dict of JSON after a write.
use win_wsl_mcp_bridge.Base.{String, ◌≡◌, some, text_eq, if◌then◌else◌, arith, eq_iff}
use win_wsl_mcp_bridge.Json.{Json, Fields, end, field, get, get_or_null, put}

pub get-put :
    (k j : String) (v : Json) (fs : Fields)
    → get k (put j v fs) ≡ (if text_eq j k then some v else get k fs)
unfolding get put
get-put k j v end = ground arith
get-put k j v (field i w fs) = ground (arith, eq_iff j k, eq_iff i k, eq_iff i j, get-put k j v fs)

pub get_or_null-put :
    (k j : String) (v : Json) (fs : Fields)
    → get_or_null k (put j v fs) ≡ (if text_eq j k then v else get_or_null k fs)
unfolding get_or_null get put
get_or_null-put k j v end = ground arith
get_or_null-put k j v (field i w fs) =
    ground (arith, eq_iff j k, eq_iff i k, eq_iff i j, get_or_null-put k j v fs)
