-- ===== src/Engine/Recovery/Steps.antt =====
-- `Recovery` over any sequence of calls, as a step relation.
use win_wsl_mcp_bridge.Base.{
  ℕ, String, ◌≡◌, refl, sym, ap, subst, ◌∙◌, Bool, true, false, ◌&&◌, Option, none, some, List,
  arith, Option-cases, inl, inr, if_keeps,
}
use win_wsl_mcp_bridge.Json.{Json, Fields, Key, hash_key, get_or_null, py_eq}
use win_wsl_mcp_bridge.Json.Keys.{contains, find}
use win_wsl_mcp_bridge.Engine.Payload.{Codec, Policy, parse}
use win_wsl_mcp_bridge.Engine.Recovery.{
  Attempt, done, type_error, Ensures, Recovery, set_core, role_of, AgentKind, initialize,
  initialized, Decision, role_of_message, role_of_line, cache, handle_agent, remember_sent,
  export_handshake, import_handshake,
}
use win_wsl_mcp_bridge.Engine.Recovery.Node.{
  has_result, forget, annotate, deliver, handle_node, response_of, method_of, live_line,
}
use win_wsl_mcp_bridge.Engine.Recovery.Failing.{lost_requests, fresh_ids, fail_once, settle}
use win_wsl_mcp_bridge.Engine.Recovery.Outstanding.{IsTidy, forget-IsTidy}
use win_wsl_mcp_bridge.Engine.Recovery.Sifting.{mark_failed-contains}

module _ (policy : Policy) (codec : Codec) where
  -- What is cached is what the core may replay: the lines are handshake lines, and the id is theirs.
  pub record IsCached (r : Recovery) : Type 0 where
    pub init_line :
        (raw : List ℕ)
        → r.init_raw ≡ some raw
        → role_of_line policy (parse codec raw)
          ≡ record { kind = initialize; id = r.init_id; method = some policy.initialize_method }
    pub initialized_line :
        (raw : List ℕ)
        → r.initialized_raw ≡ some raw
        → (role_of_line policy (parse codec raw)).kind ≡ initialized

  role_of_message-initialize :
      (message : Fields)
      → (role_of_message policy message).kind ≡ initialize
      → (role_of_message policy message).method ≡ some policy.initialize_method
  unfolding role_of_message
  role_of_message-initialize message h = ground arith

  role_of_line-initialize :
      (p : Option Fields)
      → (role_of_line policy p).kind ≡ initialize
      → (role_of_line policy p).method ≡ some policy.initialize_method
  unfolding role_of_line
  role_of_line-initialize none h = cc
  role_of_line-initialize (some message) h = role_of_message-initialize message h

  cache-IsCached :
      (raw : List ℕ) (kind : AgentKind) (id : Json) (method : Option String) (r : Recovery)
      → role_of_line policy (parse codec raw) ≡ role_of kind id method
      → (kind ≡ initialize → method ≡ some policy.initialize_method)
      → IsCached r
      → IsCached (cache raw kind id r)
  unfolding cache
  cache-IsCached raw initialize id method r e named v = record {
    init_line = λ raw' q.
        let p : raw ≡ raw' = cc in
        subst
          (λ x.
            role_of_line policy (parse codec x)
            ≡ role_of initialize id (some policy.initialize_method))
          p (e ∙ ap (role_of initialize id) (named refl));
    initialized_line = v.initialized_line;
  }
  cache-IsCached raw initialized id method r e named v = record {
    init_line = v.init_line;
    initialized_line = λ raw' q.
        let p : raw ≡ raw' = cc in
        subst (λ x. (role_of_line policy (parse codec x)).kind ≡ initialized) p
          (ap (λ x. x.kind) e);
  }
  cache-IsCached raw _ id method r e named v = v

  pub handle_agent-IsCached :
      (raw : List ℕ) (r : Recovery) → IsCached r → IsCached (handle_agent policy codec raw r).0
  unfolding handle_agent
  handle_agent-IsCached raw r v =
      let role = role_of_line policy (parse codec raw) in
      cache-IsCached raw role.kind role.id role.method r refl
        (role_of_line-initialize (parse codec raw)) v

  -- What every call but `handle_agent` and the handover does to a state: the handshake stays, no
  -- failed id is forgotten, and a tidy state stays tidy.
  pub record Keeps (r s : Recovery) : Type 0 where
    pub raw_kept : s.init_raw ≡ r.init_raw
    pub id_kept : s.init_id ≡ r.init_id
    pub initialized_kept : s.initialized_raw ≡ r.initialized_raw
    pub failed_kept : (k : Key) → contains k r.failed ≡ true → contains k s.failed ≡ true
    pub tidy : IsTidy r → IsTidy s

  pub Keeps-IsCached : (r s : Recovery) → Keeps r s → IsCached r → IsCached s
  Keeps-IsCached r s k v = record {
    init_line = λ raw q. rw k.id_kept (v.init_line raw (sym k.raw_kept ∙ q));
    initialized_line = λ raw q. v.initialized_line raw (sym k.initialized_kept ∙ q);
  }

  Keeps-trans : (r s t : Recovery) → Keeps r s → Keeps s t → Keeps r t
  Keeps-trans r s t h k = record {
    raw_kept = k.raw_kept ∙ h.raw_kept;
    id_kept = k.id_kept ∙ h.id_kept;
    initialized_kept = k.initialized_kept ∙ h.initialized_kept;
    failed_kept = λ j q. k.failed_kept j (h.failed_kept j q);
    tidy = λ v. k.tidy (h.tidy v);
  }

  -- A state that differs in nothing that counts.
  pub Keeps-flags :
      (r : Recovery) (core : Option String) (a b : Bool)
      → Keeps r (record r { core_version = core; init_annotated = a; result_noted = b })
  Keeps-flags r core a b = record {
    raw_kept = refl;
    id_kept = refl;
    initialized_kept = refl;
    failed_kept = λ k q. q;
    tidy = λ v. record {
      pending_unique = v.pending_unique;
      uncertain_unique = v.uncertain_unique;
      pending_filed = v.pending_filed;
      uncertain_filed = v.uncertain_filed;
    };
  }

  annotate-Keeps :
      (raw : List ℕ) (init_result : Bool) (method : Option String) (r : Recovery)
      → Keeps r (annotate policy codec raw init_result method r).0
  unfolding annotate
  annotate-Keeps raw init_result method r =
      let P = λ (x : Recovery × Decision). Keeps r x.0 in
      if_keeps P _ _ _ (Keeps-flags r r.core_version true r.result_noted) (
        if_keeps P _ _ _ (Keeps-flags r r.core_version r.init_annotated true)
          (Keeps-flags r r.core_version r.init_annotated r.result_noted))

  forget-Keeps : (k : Key) (r : Recovery) → Keeps r (forget k r)
  unfolding forget
  forget-Keeps k r = record {
    raw_kept = refl;
    id_kept = refl;
    initialized_kept = refl;
    failed_kept = λ j q. q;
    tidy = forget-IsTidy k r;
  }

  pub deliver-hashed :
      (raw : List ℕ) (message : Fields) (r : Recovery) (k : Key)
      → hash_key (get_or_null "id" message) ≡ some k
      → deliver policy codec raw message r
        ≡ done (
            annotate policy codec raw
              (py_eq (get_or_null "id" message) (forget k r).init_id && has_result message)
              (method_of (find k r.pending))
              (forget k r))
  unfolding deliver
  deliver-hashed raw message r k e = rw (e, deliver)

  deliver-Keeps :
      (raw : List ℕ) (message : Fields) (r : Recovery)
      → Ensures (λ x. Keeps r x.0) (deliver policy codec raw message r)
  deliver-Keeps raw message r = elim (Option-cases (hash_key (get_or_null "id" message))) [
    | inl e ↦ unfold deliver in rw (e, deliver) tt
    | inr (k, e) ↦
        rw (deliver-hashed raw message r k e)
          (Keeps-trans r (forget k r) _ (forget-Keeps k r) (annotate-Keeps raw _ _ (forget k r)))
  ]

  pub handle_node-Keeps :
      (raw : List ℕ) (absorbing : Bool) (r : Recovery)
      → Ensures (λ x. Keeps r x.0) (handle_node policy codec raw absorbing r)
  unfolding handle_node
  handle_node-Keeps raw true r = Keeps-flags r r.core_version r.init_annotated r.result_noted
  handle_node-Keeps raw false r = by_response (response_of (parse codec raw))
    where
      by_response :
          (p : Option Fields) → Ensures (λ x. Keeps r x.0) (live_line policy codec raw p r)
      by_response none = Keeps-flags r r.core_version r.init_annotated r.result_noted
      by_response (some message) = deliver-Keeps raw message r

  pub fail_once-Keeps :
      (ids : List (Json × Option String)) (reason : String) (unknown : Bool) (r : Recovery)
      → Ensures (λ x. Keeps r x.0) (fail_once policy codec ids reason unknown r)
  unfolding fail_once
  fail_once-Keeps ids reason unknown r = by_fresh (fresh_ids r.failed ids)
    where
      by_fresh :
          (a : Attempt (List (Key × Json)))
          → Ensures (λ x. Keeps r x.0) (settle policy codec reason unknown a r)
      by_fresh type_error = tt
      by_fresh (done fresh) = record {
        raw_kept = refl;
        id_kept = refl;
        initialized_kept = refl;
        failed_kept = λ j q. mark_failed-contains fresh r.failed j q;
        tidy = λ v. record {
          pending_unique = v.pending_unique;
          uncertain_unique = v.uncertain_unique;
          pending_filed = v.pending_filed;
          uncertain_filed = v.uncertain_filed;
        };
      }

  pub lost_requests-Keeps : (r : Recovery) → Keeps r (lost_requests r).0
  unfolding lost_requests
  lost_requests-Keeps r = record {
    raw_kept = refl;
    id_kept = refl;
    initialized_kept = refl;
    failed_kept = λ j q. q;
    tidy = λ v. record {
      pending_unique = tt;
      uncertain_unique = tt;
      pending_filed = tt;
      uncertain_filed = tt;
    };
  }

  -- The calls that the core makes, on the lines and replies that happen to arrive. A handover
  -- imports what another cached state exports.
  pub data Step : Recovery → Recovery → Type 0 where
    agent_line : (raw : List ℕ) (r : Recovery) → Step r (handle_agent policy codec raw r).0
    sent :
        (id : Json) (method : Option String) (current : Bool) (r s : Recovery)
        → remember_sent id method current r ≡ done s
        → Step r s
    reply : (version : Json) (r : Recovery) → Step r (set_core version r)
    node_line :
        (raw : List ℕ) (absorbing : Bool) (r s : Recovery) (d : Decision)
        → handle_node policy codec raw absorbing r ≡ done (s, d)
        → Step r s
    drained : (r : Recovery) → Step r (lost_requests r).0
    failed :
        (ids : List (Json × Option String)) (reason : String) (unknown : Bool) (r s : Recovery)
        (payloads : List (List ℕ))
        → fail_once policy codec ids reason unknown r ≡ done (s, payloads)
        → Step r s
    handover : (q r : Recovery) → IsCached q → Step r (import_handshake (export_handshake q) r)

  pub data Reach (r : Recovery) : Recovery → Type 0 where
    here : Reach r r
    next : {s t : Recovery} → Reach r s → Step s t → Reach r t
