-- ===== src/Backend/Gates.antt =====
-- `SharedBackend`: who is let through. A progress report goes to the client that asked for it; a client without
-- a session is refused; a lease that another client holds is not taken.
use win_wsl_mcp_bridge.Base.{
  String, Bool, true, false, Option, none, some, ◌∷◌, ◌≡◌, ◌⊎◌, ◌||◌, inl, inr, refl, sym, ◌∙◌,
  subst, arith, text_eq, Bool-cases,
}
use win_wsl_mcp_bridge.Base.Dict
use win_wsl_mcp_bridge.Json.{Json, obj, Fields, get_or_null, put, has, as_obj, as_str}
use win_wsl_mcp_bridge.Scheduling.Queue.{RoutedRequest}
use win_wsl_mcp_bridge.Protocol.Modern.{protocol_version_entry}
use win_wsl_mcp_bridge.Backend.State.{
  Backend, Client, Wire, Sent, to_client, error_reply, result_reply,
}
use win_wsl_mcp_bridge.Backend.Task.{Result, ok, pure, reads, ◌>>=◌}
use win_wsl_mcp_bridge.Backend.Rules.{bind_ok}
use win_wsl_mcp_bridge.Backend.Requests.{valid_rpc_id}
use win_wsl_mcp_bridge.Backend.Responses.{text_of_id, items_of}
use win_wsl_mcp_bridge.Backend.Serving.{
  route_progress, send_progress, route_backend_message, by_method, route_backend_notification,
}
use win_wsl_mcp_bridge.Backend.Policy.{
  Claim, unleased, busy, granted, claim, claim_of, claim_in, claim_under, act_on, tool_call,
  matches_any, texts_in, is_release_of, apply_lease_policy, send_tool_policy_error, send_result,
  policy_result,
}
use win_wsl_mcp_bridge.Backend.Clients.{
  route_legacy, route_request, by_kind, route_client_message, reply_error,
}
use win_wsl_mcp_bridge.Backend.Eras.{Later, finished}
use win_wsl_mcp_bridge.Backend.Tables.{IsRouted}
use win_wsl_mcp_bridge.Backend.Delivery.{send_here, has_lem}

module _ (w : Wire) where
  abbrev pub reported : String → Json → Fields → Fields → Sent
  reported c v params m = to_client c (put "params" (obj (put "progressToken" v params)) m)

  progress_lem :
      (b : Backend) (c : String) (v : Json) (params m : Fields)
      → Dict.lookup (text_of_id (get_or_null "progressToken" params)) b.progress_tokens
        ≡ some (c, v)
      → Dict.has c b.clients ≡ true
      → route_progress w (some params) m b
        ≡ (ok tt, record b { sent = reported c v params m ∷ b.sent })
  unfolding route_progress send_progress reads ◌>>=◌
  progress_lem b c v params m e here = rw e (send_here w b c _ here)

  notified :
      (b : Backend) (params m : Fields) (uuid : String)
      → has "id" m ≡ false
      → as_str (get_or_null "method" m) ≡ some "notifications/progress"
      → as_obj (get_or_null "params" m) ≡ some params
      → route_backend_message w m uuid b ≡ route_progress w (some params) m b
  unfolding route_backend_message by_method route_backend_notification
  notified b params m uuid no_id method given = rw (no_id, method, no_id, given) refl

  -- The token was made for a request that is pending.
  abbrev pub IsAsked : Backend → String → Json → String → Type 0
  IsAsked b c v t =
      (id : String) × (r : RoutedRequest) × (Dict.lookup id b.pending_by_backend_id ≡ some id)
      × (Dict.lookup id b.requests ≡ some r)
      × (r.progress_token ≡ some (t, v))
      × ((r.client_id ≡ some c) ⊎ (r.client_id ≡ none))

  -- A progress report of the backend under one of the bridge's tokens is sent to the client whose request the
  -- token was made for, with the client's own token, and to no other; the token is that of a request that is
  -- pending. The client is attached, and the dicts agree.
  pub progress-IsForAsker :
      (b : Backend) (c : String) (v : Json) (params m : Fields) (uuid : String)
      → IsRouted w b
      → has "id" m ≡ false
      → as_str (get_or_null "method" m) ≡ some "notifications/progress"
      → as_obj (get_or_null "params" m) ≡ some params
      → Dict.lookup (text_of_id (get_or_null "progressToken" params)) b.progress_tokens
        ≡ some (c, v)
      → Dict.has c b.clients ≡ true
      → (route_backend_message w m uuid b
          ≡ (ok tt, record b { sent = reported c v params m ∷ b.sent }))
        × IsAsked b c v (text_of_id (get_or_null "progressToken" params))
  progress-IsForAsker b c v params m uuid h no_id method given known here = (
    notified b params m uuid no_id method given ∙ progress_lem b c v params m known here,
    h.token (text_of_id (get_or_null "progressToken" params)) c v known,
  )

  reply_lem :
      (b : Backend) (c : String) (m : Fields) (e : Json)
      → Dict.has c b.clients ≡ true
      → reply_error w c m e b ≡ (
        ok finished,
        record b { sent = to_client c (error_reply (get_or_null "id" m) e) ∷ b.sent },
      )
  unfolding reply_error pure
  reply_lem b c m e here = bind_ok _ _ b _ tt (send_here w b c _ here)

  -- What is sent for a request is an error, and no more is done.
  abbrev pub IsRefused : Backend → String → Fields → Result Later × Backend → Type 0
  IsRefused b c m r =
      (e : Json) × (r ≡ (
        ok finished,
        record b { sent = to_client c (error_reply (get_or_null "id" m) e) ∷ b.sent },
      ))

  legacy-IsRefused :
      (b : Backend) (s : Client) (method c : String) (m : Fields) (uuid progress : String)
      → s.protocol_version ≡ none
      → Dict.has c b.clients ≡ true
      → IsRefused b c m (route_legacy w (some s) method c m uuid progress b)
  unfolding route_legacy
  legacy-IsRefused b s method c m uuid progress none_yet here =
      rw none_yet (_, reply_lem b c m _ here)

  request-IsRefused :
      (b : Backend) (s : Client) (method c : String) (m : Fields) (hex uuid progress : String)
      → Dict.lookup c b.clients ≡ some s
      → s.protocol_version ≡ none
      → text_eq method "initialize" ≡ false
      → (protocol_version_entry (obj m)).0 ≡ false
      → IsRefused b c m (route_request w method c m hex uuid progress b)
  unfolding route_request reads ◌>>=◌
  request-IsRefused b s method c m hex uuid progress attached none_yet other legacy =
      let here = has_lem w c s b.clients attached in
      rw (attached, other, legacy)
        (elim (Bool-cases (text_eq method "server/discover")) [
          | inl e ↦ rw e (_, reply_lem b c m _ here)
          | inr e ↦ rw e (legacy-IsRefused b s method c m uuid progress none_yet here)
        ])

  -- A request of an attached client that has no session, that is no initialize and does not speak of a modern
  -- revision, is answered with an error, and nothing is queued, sent to the backend or changed.
  pub sessionless-IsRefused :
      (b : Backend) (s : Client) (method c : String) (m : Fields) (hex uuid progress : String)
      → Dict.lookup c b.clients ≡ some s
      → s.protocol_version ≡ none
      → has "id" m ≡ true
      → valid_rpc_id (get_or_null "id" m) ≡ true
      → as_str (get_or_null "method" m) ≡ some method
      → text_eq method "initialize" ≡ false
      → (protocol_version_entry (obj m)).0 ≡ false
      → IsRefused b c m (route_client_message w c m hex uuid progress b)
  unfolding route_client_message by_kind
  sessionless-IsRefused b s method c m hex uuid progress attached none_yet asked valid named other
        legacy =
      rw (asked, valid, named, asked)
        (request-IsRefused b s method c m hex uuid progress attached none_yet other legacy)

  -- The call's tool matches one of the lease's patterns, or the call is the one that releases the lease.
  abbrev call_is_covered : Option Fields → Option String × Fields → Bool
  call_is_covered none call = false
  call_is_covered (some lease) (none, arguments) = false
  call_is_covered (some lease) (some tool, arguments) =
      matches_any w tool (texts_in (items_of (get_or_null "toolPatterns" lease)))
      || is_release_of lease tool arguments

  abbrev pub is_covered : Fields → Fields → Bool
  is_covered process_config m =
      call_is_covered (as_obj (get_or_null "clientLease" process_config)) (tool_call m)

  -- A call is let through untouched if the lease does not cover it, and else refused.
  abbrev pub IsLeft : Backend → String → Fields → Result Bool × Backend → Type 0
  IsLeft b c m r =
      ((is_covered b.process_config m ≡ false) × (r ≡ (ok false, b)))
      ⊎ ((is_covered b.process_config m ≡ true)
          × (r ≡ (
            ok true,
            record b {
              sent =
                  to_client c (
                    result_reply (get_or_null "id" m) (
                      policy_result w "client_lease_busy" true
                        "The shared backend resource is owned by another client."))
                  ∷ b.sent;
            },
          )))

  abbrev IsOther : Bool → Claim → Type 0
  IsOther covered k = ((covered ≡ false) × (k ≡ unleased)) ⊎ ((covered ≡ true) × (k ≡ busy))

  claim_of-IsOther :
      (o c : String) (acquires is_release : Bool)
      → text_eq o c ≡ false
      → IsOther (acquires || is_release) (claim_of (some o) c acquires is_release)
  claim_of-IsOther o c true true other = ground arith
  claim_of-IsOther o c true false other = ground arith
  claim_of-IsOther o c false true other = ground arith
  claim_of-IsOther o c false false other = ground arith

  claim_in-IsOther :
      (lease : Option Fields) (m : Fields) (call : Option String × Fields) (o c : String)
      → tool_call m ≡ call
      → text_eq o c ≡ false
      → IsOther (call_is_covered lease call) (claim_in w lease m (some o) c)
  unfolding claim_under
  claim_in-IsOther none m call o c same other = inl (refl, refl)
  claim_in-IsOther (some lease) m (none, arguments) o c same other = rw same (inl (refl, refl))
  claim_in-IsOther (some lease) m (some tool, arguments) o c same other =
      rw same (claim_of-IsOther o c _ _ other)

  claim-IsOther :
      (config : Fields) (m : Fields) (o c : String)
      → text_eq o c ≡ false
      → IsOther (is_covered config m) (claim w config (some o) c m)
  unfolding claim
  claim-IsOther config m o c other = claim_in-IsOther _ m (tool_call m) o c refl other

  busy_lem :
      (b : Backend) (c : String) (m : Fields) (uuid progress : String)
      → is_covered b.process_config m ≡ true
      → Dict.has c b.clients ≡ true
      → IsLeft b c m (act_on w busy c m false uuid progress b)
  unfolding act_on send_tool_policy_error send_result pure
  busy_lem b c m uuid progress covered here =
      inr (covered, bind_ok _ _ b _ tt (send_here w b c _ here))

  act_lem :
      (b : Backend) (k : Claim) (c : String) (m : Fields) (uuid progress : String)
      → Dict.has c b.clients ≡ true
      → IsOther (is_covered b.process_config m) k
      → IsLeft b c m (act_on w k c m false uuid progress b)
  unfolding act_on pure
  act_lem b unleased c m uuid progress here (inl (e, k)) = inl (e, refl)
  act_lem b unleased c m uuid progress here (inr (e, k)) = cc
  act_lem b busy c m uuid progress here (inl (e, k)) = cc
  act_lem b busy c m uuid progress here (inr (e, k)) = busy_lem b c m uuid progress e here
  act_lem b (granted r) c m uuid progress here (inl (e, k)) = cc
  act_lem b (granted r) c m uuid progress here (inr (e, k)) = cc

  -- While another client owns the lease, a tool call of an attached client of a legacy session that the lease
  -- covers is answered with the error `client_lease_busy`, and that is all that is done: it is not queued and the
  -- owner stays. The lease covers a call whose tool matches one of its patterns, and the call that releases it; any
  -- other call is left to the rest of the routing, with nothing changed.
  pub apply_lease_policy-IsExclusive :
      (b : Backend) (o c : String) (m : Fields) (uuid progress : String)
      → b.lease_owner ≡ some o
      → text_eq o c ≡ false
      → Dict.has c b.clients ≡ true
      → IsLeft b c m (apply_lease_policy w c m false uuid progress b)
  unfolding apply_lease_policy reads ◌>>=◌
  apply_lease_policy-IsExclusive b o c m uuid progress owned other here =
      act_lem b (claim w b.process_config b.lease_owner c m) c m uuid progress here (
        subst (λ x. IsOther (is_covered b.process_config m) (claim w b.process_config x c m))
          (sym owned) (claim-IsOther b.process_config m o c other))
