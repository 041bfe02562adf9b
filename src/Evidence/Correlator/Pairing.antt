-- ===== src/Evidence/Correlator/Pairing.antt =====
-- `StreamCorrelator`: a response is paired with the request that it answers, once.
use text.Mathlib.TextPositions.{eq_refl}
use win_wsl_mcp_bridge.Base.{
  ℕ, ◌+◌, String, ◌≡◌, refl, ap, ◌⊎◌, inl, true, false, none, some, List, [], ◌∷◌, length, arith,
  leb,
}
use win_wsl_mcp_bridge.Base.Dict
use win_wsl_mcp_bridge.Base.Dict.{lookup-insert, has-lookup}
use win_wsl_mcp_bridge.Evidence.Identity.{Flow, Side, Payload, alias_from_canonical}
use win_wsl_mcp_bridge.Evidence.Classify.{request, response}
use win_wsl_mcp_bridge.Evidence.Correlator.{
  Direction, get_or, is_waiting, track_request, admit_request, guard_request, on_request,
  pair_response, on_response,
}

-- The direction lost nothing, waits for no response to the id, and has room for it.
pub record IsReady (limit : ℕ) (id : String) (d : Direction) : Type 0 where
  pub not_lost : d.lost_reason ≡ none
  pub free : is_waiting (Dict.lookup id d.pending) ≡ false
  pub room :
      (Dict.has id d.occurrences ≡ true)
      ⊎ ((d.degraded_capacity ≡ false) × (leb limit (length d.occurrences) ≡ false))

module _ (hexdigest : Payload → String) (limit : ℕ) (stream_id : String) (origin : Side) where
  on_request-IsReady :
      (flow : Flow) (id : String) (n : ℕ) (d : Direction)
      → IsReady limit id d
      → on_request hexdigest limit stream_id origin flow (some id) n d
        ≡ track_request hexdigest stream_id origin flow id n d
  unfolding on_request guard_request admit_request
  on_request-IsReady flow id n d v = ground (arith, v.room)

  waiting :
      (flow : Flow) (id : String) (n : ℕ) (d : Direction)
      → Dict.lookup id (track_request hexdigest stream_id origin flow id n d).0.pending
        ≡ some ((get_or 0 (Dict.lookup id d.occurrences) + 1) ∷ [])
  unfolding track_request
  waiting flow id n d = ground (
    arith,
    eq_refl id,
    lookup-insert id id ((get_or 0 (Dict.lookup id d.occurrences) + 1) ∷ []) d.pending,
  )

  counted :
      (flow : Flow) (id : String) (n : ℕ) (d : Direction)
      → Dict.lookup id (track_request hexdigest stream_id origin flow id n d).0.occurrences
        ≡ some (get_or 0 (Dict.lookup id d.occurrences) + 1)
  unfolding track_request
  counted flow id n d = ground (
    arith,
    eq_refl id,
    lookup-insert id id (get_or 0 (Dict.lookup id d.occurrences) + 1) d.occurrences,
  )

  on_response-waiting :
      (flow : Flow) (id : String) (m k : ℕ) (d : Direction)
      → d.lost_reason ≡ none
      → Dict.lookup id d.pending ≡ some (k ∷ [])
      → on_response hexdigest stream_id origin flow (some id) m d
        ≡ pair_response hexdigest stream_id origin flow id m (some (k ∷ [])) d
  unfolding on_response
  on_response-waiting flow id m k d h e = ground arith

  on_response-answered :
      (flow : Flow) (id : String) (m : ℕ) (d : Direction)
      → d.lost_reason ≡ none
      → Dict.lookup id d.pending ≡ some []
      → (on_response hexdigest stream_id origin flow (some id) m d).1
        ≡ record {
          kind = response;
          correlation_id = none;
          flow = flow;
          message_bytes = m;
          occurrence = none;
          note = "response-without-observed-request";
        }
          ∷ []
  unfolding on_response pair_response
  on_response-answered flow id m d h e = rw (h, e, on_response)

  -- A request with an id that the direction can track, then the response with that id in the
  -- opposite flow, are given the same alias and the same occurrence, one more than the id had; the
  -- id is ready again, and a second response is reported as answering no observed request.
  pub request_response :
      (flow flow' : Flow) (id : String) (n m k : ℕ) (d : Direction)
      → IsReady limit id d
      → let (asked, call) = on_request hexdigest limit stream_id origin flow (some id) n d in
        let (answered, reply) = on_response hexdigest stream_id origin flow' (some id) m asked in
        let occurrence = get_or 0 (Dict.lookup id d.occurrences) + 1 in
        let alias = some (alias_from_canonical hexdigest stream_id origin id occurrence) in
        (call
          ≡ record {
            kind = request;
            correlation_id = alias;
            flow = flow;
            message_bytes = n;
            occurrence = some occurrence;
            note = "";
          }
            ∷ [])
        × (reply
            ≡ record {
              kind = response;
              correlation_id = alias;
              flow = flow';
              message_bytes = m;
              occurrence = some occurrence;
              note = "";
            }
              ∷ [])
        × IsReady limit id answered
        × ((on_response hexdigest stream_id origin flow' (some id) k answered).1
            ≡ record {
              kind = response;
              correlation_id = none;
              flow = flow';
              message_bytes = k;
              occurrence = none;
              note = "response-without-observed-request";
            }
              ∷ [])
  unfolding track_request pair_response
  request_response flow flow' id n m k d v =
      let asked = (track_request hexdigest stream_id origin flow id n d).0 in
      let count = get_or 0 (Dict.lookup id d.occurrences) + 1 in
      rw
        (
          on_request-IsReady flow id n d v,
          on_response-waiting flow' id m count asked v.not_lost (waiting flow id n d),
        )
        (
          refl,
          refl,
          record {
            not_lost = v.not_lost;
            free = ap is_waiting (emptied asked.pending);
            room = inl (has-lookup id _ (counted flow id n d));
          },
          on_response-answered flow' id k
              (record asked { pending = Dict.insert id [] asked.pending }) v.not_lost
              (emptied asked.pending),
        )
    where
      emptied : (p : List (String × List ℕ)) → Dict.lookup id (Dict.insert id [] p) ≡ some []
      emptied p = ground (arith, eq_refl id, lookup-insert {V = List ℕ} id id [] p)
