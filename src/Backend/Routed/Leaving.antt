-- ===== src/Backend/Routed/Leaving.antt =====
-- `SharedBackend`: a request that leaves, answered, cancelled or abandoned, leaves all the dicts.
use win_wsl_mcp_bridge.Base.{
  ℕ, String, true, Option, none, some, ◌≡◌, inl, refl, sym, ◌∙◌, subst, ap, arith, eq_iff,
}
use win_wsl_mcp_bridge.Base.Dict
use win_wsl_mcp_bridge.Base.Dict.{lookup-insert, lookup-pop}
use win_wsl_mcp_bridge.Base.Pairs
use win_wsl_mcp_bridge.Json.{Fields, get_or_null, as_obj}
use win_wsl_mcp_bridge.Scheduling.Queue.{RoutedRequest}
use win_wsl_mcp_bridge.Backend.State.{Backend, Wire}
use win_wsl_mcp_bridge.Backend.Task.{Ensures}
use win_wsl_mcp_bridge.Backend.Rules.{
  Keeps-pure, Keeps-raise, Keeps-reads, Ensures-if, Ensures-modify, Ensures-bind, Ensures-reads,
  Ensures-weaken, Ensures-then, keeps_rules,
}
use win_wsl_mcp_bridge.Backend.Requests.{typed_id, next_backend_id}
use win_wsl_mcp_bridge.Backend.Responses.{
  untrack, answer_request, object_at, route_backend_response, text_of_id,
}
use win_wsl_mcp_bridge.Backend.Departure.{
  discard_request, cancel_queued, cancel_request, route_cancellation, request_id_in,
}
use win_wsl_mcp_bridge.Backend.Tables.{
  Agree, Like, IsFree, Requests, Addresses, ByClient, Tokens, untracked,
}
use win_wsl_mcp_bridge.Backend.Tables.Changes.{relabelled}
use win_wsl_mcp_bridge.Backend.Untouched.{
  Holds, Keeps, send_client_message-Keeps, write_message-Keeps, observe_if-Keeps, release_if-Keeps,
  deliver-Keeps, complete-Keeps, finish_eof_of-Keeps,
}
use win_wsl_mcp_bridge.Backend.Routed.{IsFresh, Ready}

module _ (w : Wire) (uuid : String) where
  -- A request that the store has, and that has its entries in the dicts or no entry of its client's.
  abbrev pub Held : RoutedRequest → Requests → Addresses → ByClient → Tokens → ℕ → Type 0
  Held p requests pending clients tokens generation =
      (Agree w requests pending clients tokens × IsFresh w uuid requests generation)
      × Like w p requests
      × IsFree w p pending clients

  -- One that is out of them.
  abbrev pub Gone : RoutedRequest → Requests → Addresses → ByClient → Tokens → ℕ → Type 0
  Gone p requests pending clients tokens generation =
      (Agree w requests pending clients tokens × IsFresh w uuid requests generation)
      × Like w p requests
      × (Dict.lookup p.backend_id pending ≡ none)

  -- A new object under an old id takes no fresh one.
  pub kept_IsFresh :
      (p q : RoutedRequest) (requests : Requests) (generation : ℕ)
      → Like w p requests
      → IsFresh w uuid requests generation
      → IsFresh w uuid (Dict.insert p.backend_id q requests) generation
  kept_IsFresh p q requests generation l fresh owner =
      let id = next_backend_id generation owner uuid in
      ground (
        arith,
        l.is_stored,
        fresh owner,
        eq_iff p.backend_id id,
        lookup-insert p.backend_id id q requests,
      )

  -- The same request after its object was written again.
  pub rewritten-Like :
      (p q : RoutedRequest) (requests : Requests)
      → q.backend_id ≡ p.backend_id
      → q.client_id ≡ p.client_id
      → q.original_id ≡ p.original_id
      → q.progress_token ≡ p.progress_token
      → Like w p (Dict.insert p.backend_id q requests)
  rewritten-Like p q requests a b c d = record {
    stored = q;
    is_stored = ground (
      arith,
      eq_iff p.backend_id p.backend_id,
      lookup-insert p.backend_id p.backend_id q requests,
    );
    same_id = a;
    same_client = b;
    same_original = c;
    same_token = d;
  }

  pub discard_request-Keeps : (p : RoutedRequest) → Keeps (Held p) (discard_request p)
  unfolding discard_request
  discard_request-Keeps p = Ensures-modify _ λ b h.
      let q = record p { cancelled = true } in
      let (ready, l, free) = h in
      (
        (
          relabelled w ready.0 p q l refl refl refl refl,
          kept_IsFresh p q b.requests b.generation l ready.1,
        ),
        rewritten-Like p q b.requests refl refl refl refl,
        free,
      )

  pub untrack-Ensures :
      (p : RoutedRequest) → Ensures (Holds (Held p)) (Holds (Gone p)) (untrack w p)
  unfolding untrack
  untrack-Ensures p = Ensures-modify _ λ b h.
      let (ready, l, free) = h in
      (
        (untracked w ready.0 p l free, ready.1),
        l,
        ground (
          arith,
          eq_iff p.backend_id p.backend_id,
          lookup-pop p.backend_id p.backend_id b.pending_by_backend_id,
        ),
      )

  -- What was read from the store under its id.
  pub stored-Like :
      (id : String) (p : RoutedRequest) (requests : Requests)
      → p.backend_id ≡ id
      → Dict.lookup id requests ≡ some p
      → Like w p requests
  stored-Like id p requests own e = record {
    stored = p;
    is_stored = subst (λ k. Dict.lookup k requests ≡ some p) (sym own) e;
    same_id = refl;
    same_client = refl;
    same_original = refl;
    same_token = refl;
  }

  -- `Gone` says more than `Ready`.
  abbrev Ready' : Backend → Type 0
  Ready' = Holds (Ready w uuid)

  answer_some-Ensures :
      (p : RoutedRequest) (m : Fields)
      → Ensures (Holds (Held p)) Ready' (answer_request w (some p) m)
  unfolding answer_request
  answer_some-Ensures p m =
      Ensures-bind _ _ (λ b h. h.0) (untrack-Ensures p)
        λ _.
          Ensures-then {R = Holds (Gone p)} _ (λ b h. h.0)
            (search
              (
                keeps_rules,
                observe_if-Keeps (Gone p),
                release_if-Keeps (Gone p),
                deliver-Keeps (Gone p),
                complete-Keeps (Gone p),
                finish_eof_of-Keeps (Gone p),
              )
              depth 8)

  -- The object at the address of a pending request.
  pending-Held :
      (id : String) (p : RoutedRequest) (b : Backend)
      → Ready' b
      → Dict.lookup id b.pending_by_backend_id ≡ some id
      → Dict.lookup id b.requests ≡ some p
      → Holds (Held p) b
  pending-Held id p b (agree, fresh) there e =
      let own : p.backend_id ≡ id = agree.named id p e in
      (
        (agree, fresh),
        stored-Like id p b.requests own e,
        inl (subst (λ k. Dict.lookup k b.pending_by_backend_id ≡ some k) (sym own) there),
      )

  addressed-Held :
      (k : String) (a : Option String) (p : RoutedRequest) (b : Backend)
      → Ready' b
      → Dict.lookup k b.pending_by_backend_id ≡ a
      → object_at a b.requests ≡ some p
      → Holds (Held p) b
  addressed-Held k none p b h e f = cc
  addressed-Held k (some a) p b h e f =
      let own : a ≡ k = h.0.itself k a e in
      pending-Held k p b h (e ∙ ap some own) (subst (λ x. Dict.lookup x b.requests ≡ some p) own f)

  answer_none-Ensures : (m : Fields) → Ensures Ready' Ready' (answer_request w none m)
  unfolding answer_request
  answer_none-Ensures m = Keeps-raise _

  pub route_backend_response-Ensures :
      (m : Fields) → Ensures Ready' Ready' (route_backend_response w m)
  unfolding route_backend_response
  route_backend_response-Ensures m = Ensures-reads _ _ (λ o. at_object o)
    where
      at_object :
          (o : Option RoutedRequest)
          → Ensures
              (λ b.
                Ready' b
                × (object_at
                      (Dict.lookup (text_of_id (get_or_null "id" m)) b.pending_by_backend_id)
                      b.requests
                    ≡ o))
              Ready'
              (answer_request w o m)
      at_object none = Ensures-weaken {R = Ready'} _ (λ b h. h.0) (answer_none-Ensures m)
      at_object (some p) =
          Ensures-weaken _
            (λ b h. addressed-Held (text_of_id (get_or_null "id" m)) _ p b h.0 refl h.1)
            (answer_some-Ensures p m)

  cancel_queued-Ensures :
      (c : String) (p : RoutedRequest) → Ensures (Holds (Held p)) Ready' (cancel_queued w c p)
  unfolding cancel_queued
  cancel_queued-Ensures c p =
      Ensures-bind {R = Holds (Held p)} _ _ (λ b h. h.0) (discard_request-Keeps p)
        λ _.
          Ensures-bind {R = Holds (Gone p)} _ _ (λ b h. h.0) (untrack-Ensures p)
            λ _.
              Ensures-then {R = Holds (Gone p)} _ (λ b h. h.0)
                (search (keeps_rules, send_client_message-Keeps (Gone p), complete-Keeps (Gone p)))

  cancel_some-Ensures :
      (c : String) (m : Fields) (p : RoutedRequest)
      → Ensures (Holds (Held p)) Ready' (cancel_request w c m (some p))
  unfolding cancel_request
  cancel_some-Ensures c m p =
      Ensures-bind {R = Holds (Held p)} _ _ (λ b h. h.0) (Keeps-reads _)
        λ active.
          Ensures-if active _ _
            (Ensures-then {R = Holds (Held p)} _ (λ b h. h.0) (write_message-Keeps (Held p) w _))
            (cancel_queued-Ensures c p)

  found-Held :
      (q : Pairs.Pair) (a : Option String) (p : RoutedRequest) (b : Backend)
      → Ready' b
      → Pairs.find q b.pending_by_client_id ≡ a
      → object_at a b.requests ≡ some p
      → Holds (Held p) b
  found-Held q none p b h e f = cc
  found-Held (c, t) (some id) p b h e f =
      let (there, r, g, client, key) = h.0.of_client c t id e in pending-Held id p b h there f

  cancel_none-Ensures :
      (c : String) (m : Fields) → Ensures Ready' Ready' (cancel_request w c m none)
  unfolding cancel_request
  cancel_none-Ensures c m = Keeps-pure tt

  pub route_cancellation-Ensures :
      (c : String) (m : Fields) → Ensures Ready' Ready' (route_cancellation w c m)
  unfolding route_cancellation
  route_cancellation-Ensures c m = Ensures-reads _ _ (λ o. at_object o)
    where
      key : Pairs.Pair
      key = (c, typed_id w (request_id_in (as_obj (get_or_null "params" m))))

      at_object :
          (o : Option RoutedRequest)
          → Ensures
              (λ b. Ready' b × (object_at (Pairs.find key b.pending_by_client_id) b.requests ≡ o))
              Ready'
              (cancel_request w c m o)
      at_object none = Ensures-weaken {R = Ready'} _ (λ b h. h.0) (cancel_none-Ensures c m)
      at_object (some p) =
          Ensures-weaken _ (λ b h. found-Held key _ p b h.0 refl h.1) (cancel_some-Ensures c m p)
