-- ===== src/Backend/Delivery.antt =====
-- `SharedBackend`: what a client is told. An answer reaches the client that asked, under its own id, once; a
-- progress report reaches the client that asked for it; a client without a session is refused; a lease that
-- another client holds is not taken.
use win_wsl_mcp_bridge.Base.{
  String, Bool, true, false, Option, none, some, List, ◌∷◌, ◌≡◌, refl, sym, ◌∙◌, subst, ap, arith,
  eq_iff,
}
use win_wsl_mcp_bridge.Base.Dict
use win_wsl_mcp_bridge.Base.Dict.{lookup-insert, lookup-pop}
use win_wsl_mcp_bridge.Base.Pairs
use win_wsl_mcp_bridge.Base.Pairs.{Pair, find-pop, pair_eq_iff}
use win_wsl_mcp_bridge.Json.{Fields, get_or_null, put}
use win_wsl_mcp_bridge.Scheduling.Queue.{RoutedRequest}
use win_wsl_mcp_bridge.Backend.State.{Backend, Client, Wire, Sent, to_client, unknown_response_id}
use win_wsl_mcp_bridge.Backend.Task.{ok, err, pure, raise, reads, modify, ◌>>=◌}
use win_wsl_mcp_bridge.Backend.Rules.{bind_ok}
use win_wsl_mcp_bridge.Backend.Session.{send_or_raise}
use win_wsl_mcp_bridge.Backend.Requests.{typed_id, send_client_message}
use win_wsl_mcp_bridge.Backend.Responses.{
  untrack, drop_client, drop_token, observe_if, release_if, deliver, send_answer, answer,
  shape_legacy, complete, finish_eof_of, finish_input_eof_if_idle, answer_request,
  route_backend_response, text_of_id, object_at,
}
use win_wsl_mcp_bridge.Backend.Tables.{IsRouted}

module _ (w : Wire) where
  -- A request is out of the dicts and its `done` is completed.
  abbrev pub IsSettled : RoutedRequest → String → Backend → Type 0
  IsSettled p c b =
      (Dict.lookup p.backend_id b.pending_by_backend_id ≡ none)
      × (Pairs.find (c, typed_id w p.original_id) b.pending_by_client_id ≡ none)
      × (Dict.has p.backend_id b.settled ≡ true)

  pub has_lem :
      (c : String) (s : Client) (cs : List (String × Client))
      → Dict.lookup c cs ≡ some s
      → Dict.has c cs ≡ true
  unfolding Dict.has
  has_lem c s cs e = rw (e, Dict.has) refl

  has-insert : (k : String) (d : List (String × Unit {0})) → Dict.has k (Dict.insert k tt d) ≡ true
  unfolding Dict.has
  has-insert k d = ground (arith, eq_iff k k, lookup-insert k k tt d)

  none_left : (q : Pair) (d : List (Pair × String)) → Pairs.find q (Pairs.pop q d) ≡ none
  none_left q d = ground (arith, find-pop q q d, (pair_eq_iff q q).1 refl)

  pub send_here :
      (b : Backend) (c : String) (m : Fields)
      → Dict.has c b.clients ≡ true
      → send_client_message c m b ≡ (ok tt, record b { sent = to_client c m ∷ b.sent })
  unfolding send_client_message modify
  send_here b c m e = rw e refl

  module _ (b : Backend) (c : String) (s : Client) (m : Fields)
      (attached : Dict.lookup c b.clients ≡ some s) where
    abbrev told : RoutedRequest → Sent
    told p =
        to_client c
          (shape_legacy w s.protocol_version p.method p.original_id (put "id" p.original_id m))

    send_answer_lem :
        (p : RoutedRequest) (is_initialize modern : Bool)
        → is_initialize ≡ false
        → modern ≡ false
        → send_answer w c (record p { is_initialize = is_initialize; modern = modern }) m b
          ≡ (ok tt, record b { sent = told p ∷ b.sent })
    unfolding send_answer answer reads ◌>>=◌ send_or_raise
    send_answer_lem p true modern e f = cc
    send_answer_lem p false true e f = cc
    send_answer_lem p false false e f =
        rw attached (send_here b c _ (has_lem c s b.clients attached))

    deliver_lem :
        (p : RoutedRequest)
        → p.is_initialize ≡ false
        → p.modern ≡ false
        → deliver w (some c) p m b ≡ (ok tt, record b { sent = told p ∷ b.sent })
    unfolding deliver reads ◌>>=◌
    deliver_lem p e f =
        rw (has_lem c s b.clients attached) (send_answer_lem p p.is_initialize p.modern e f)

  no_eof :
      (b : Backend) (c : String) (s : Client)
      → Dict.lookup c b.clients ≡ some s
      → s.input_eof ≡ false
      → finish_eof_of (some c) b ≡ (ok tt, b)
  unfolding finish_eof_of finish_input_eof_if_idle modify
  no_eof b c s attached listening = rw attached (rw listening refl)

  observe_not :
      (p : RoutedRequest) (m : Fields) (b : Backend) (i : Bool)
      → i ≡ false
      → observe_if w i p m b ≡ (ok tt, b)
  unfolding observe_if pure
  observe_not p m b true e = cc
  observe_not p m b false e = refl

  release_not : (m : Fields) (b : Backend) (i : Bool) → i ≡ false → release_if w i m b ≡ (ok tt, b)
  unfolding release_if pure
  release_not m b true e = cc
  release_not m b false e = refl

  module _ (b : Backend) (c : String) (s : Client) (p : RoutedRequest) (m : Fields)
      (attached : Dict.lookup c b.clients ≡ some s) (asked : p.client_id ≡ some c)
      (listening : s.input_eof ≡ false) (not_first : p.is_initialize ≡ false)
      (not_release : p.is_release ≡ false) (legacy : p.modern ≡ false) where
    abbrev gone : Backend
    gone = record b {
      pending_by_backend_id = Dict.pop p.backend_id b.pending_by_backend_id;
      pending_by_client_id = drop_client w p.client_id p.original_id b.pending_by_client_id;
      progress_tokens = drop_token w p.progress_token b.progress_tokens;
    }

    abbrev answered : Backend
    answered = record gone {
      sent = told b c s m attached p ∷ b.sent;
      settled = Dict.insert p.backend_id tt b.settled;
    }

    untrack_lem : untrack w p b ≡ (ok tt, gone)
    unfolding untrack modify
    untrack_lem = refl

    complete_lem :
        (a : Backend)
        → complete p.backend_id a
          ≡ (ok tt, record a { settled = Dict.insert p.backend_id tt a.settled })
    unfolding complete modify
    complete_lem a = refl

    answer_request_lem : answer_request w (some p) m b ≡ (ok tt, answered)
    unfolding answer_request
    answer_request_lem =
        let spoken = record gone { sent = told b c s m attached p ∷ b.sent } in
        bind_ok (untrack w p) _ b gone tt untrack_lem
        ∙ bind_ok (observe_if w p.is_initialize p m) _ gone gone tt
            (observe_not p m gone p.is_initialize not_first)
        ∙ bind_ok (release_if w p.is_release m) _ gone gone tt
            (release_not m gone p.is_release not_release)
        ∙ bind_ok (deliver w p.client_id p m) _ gone spoken tt (
            subst (λ o. deliver w o p m gone ≡ (ok tt, spoken)) (sym asked)
              (deliver_lem gone c s m attached p not_first legacy))
        ∙ bind_ok (complete p.backend_id) _ spoken answered tt (complete_lem spoken)
        ∙ subst (λ o. finish_eof_of o answered ≡ (ok tt, answered)) (sym asked)
            (no_eof answered c s attached listening)

    answered-IsSettled : IsSettled p c answered
    answered-IsSettled = (
      ground (
        arith,
        eq_iff p.backend_id p.backend_id,
        lookup-pop p.backend_id p.backend_id b.pending_by_backend_id,
      ),
      subst
          (λ o.
            Pairs.find (c, typed_id w p.original_id)
              (drop_client w o p.original_id b.pending_by_client_id)
            ≡ none)
          (sym asked) (none_left (c, typed_id w p.original_id) b.pending_by_client_id),
      has-insert p.backend_id b.settled,
    )

  at_address :
      (id : String) (b : Backend) (p : RoutedRequest)
      → Dict.lookup id b.pending_by_backend_id ≡ some id
      → Dict.lookup id b.requests ≡ some p
      → object_at (Dict.lookup id b.pending_by_backend_id) b.requests ≡ some p
  at_address id b p e f = subst (λ o. object_at o b.requests ≡ some p) (sym e) f

  response_to :
      (m : Fields) (b : Backend) (o : Option RoutedRequest)
      → object_at (Dict.lookup (text_of_id (get_or_null "id" m)) b.pending_by_backend_id) b.requests
        ≡ o
      → route_backend_response w m b ≡ answer_request w o m b
  unfolding route_backend_response reads ◌>>=◌
  response_to m b o e = ap (λ x. answer_request w x m b) e

  second :
      (m : Fields) (b : Backend)
      → Dict.lookup (text_of_id (get_or_null "id" m)) b.pending_by_backend_id ≡ none
      → (route_backend_response w m b).0 ≡ err unknown_response_id
  unfolding answer_request raise
  second m b e =
      ap (λ r. r.0) (response_to m b none (subst (λ o. object_at o b.requests ≡ none) (sym e) refl))

  -- An answer to a request of an attached client of a legacy session, that is neither an initialize nor a
  -- release of the lease: the client is sent the answer under its own id, in the shape of its revision, and
  -- nothing else is sent; the request is out of the dicts and its `done` is completed, and a second answer
  -- under the same id is refused. The client's input has not ended.
  pub route_backend_response-IsDelivered :
      (b : Backend) (c : String) (s : Client) (p : RoutedRequest) (m : Fields)
      → IsRouted w b
      → Dict.lookup (text_of_id (get_or_null "id" m)) b.pending_by_backend_id
        ≡ some (text_of_id (get_or_null "id" m))
      → Dict.lookup (text_of_id (get_or_null "id" m)) b.requests ≡ some p
      → Dict.lookup c b.clients ≡ some s
      → p.client_id ≡ some c
      → s.input_eof ≡ false
      → p.is_initialize ≡ false
      → p.is_release ≡ false
      → p.modern ≡ false
      → ((route_backend_response w m b).0 ≡ ok tt)
        × ((route_backend_response w m b).1.sent
            ≡ to_client c (
                shape_legacy w s.protocol_version p.method p.original_id (put "id" p.original_id m))
              ∷ b.sent)
        × IsSettled p c (route_backend_response w m b).1
        × ((route_backend_response w m (route_backend_response w m b).1).0
            ≡ err unknown_response_id)
  route_backend_response-IsDelivered b c s p m h pending stored attached asked listening not_first
        not_release legacy =
      let id = text_of_id (get_or_null "id" m) in
      let after = answered b c s p m attached asked listening not_first not_release legacy in
      let settled =
        answered-IsSettled b c s p m attached asked listening not_first not_release legacy in
      let run : route_backend_response w m b ≡ (ok tt, after) =
        response_to m b (some p) (at_address id b p pending stored)
        ∙ answer_request_lem b c s p m attached asked listening not_first not_release legacy in
      let again : (route_backend_response w m after).0 ≡ err unknown_response_id = second m after (
        subst (λ k. Dict.lookup k after.pending_by_backend_id ≡ none) (h.named id p stored)
          settled.0) in
      subst
        (λ r.
          (r.0 ≡ ok tt)
          × (r.1.sent ≡ told b c s m attached p ∷ b.sent)
          × IsSettled p c r.1
          × ((route_backend_response w m r.1).0 ≡ err unknown_response_id))
        (sym run) (refl, refl, settled, again)
