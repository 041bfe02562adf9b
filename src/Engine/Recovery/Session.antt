-- ===== src/Engine/Recovery/Session.antt =====
-- `Recovery` from its construction on: what is cached, and that an id fails once.
use win_wsl_mcp_bridge.Base.{
  ℕ, String, ◌≡◌, refl, ap, subst, ◌∙◌, Bool, true, Option, List, [], ◌∷◌, arith, Option-cases, inl,
  inr, map, sym, ◌≤◌,
}
use win_wsl_mcp_bridge.Json.{Json, Key, hash_key}
use win_wsl_mcp_bridge.Json.Keys.{contains}
use win_wsl_mcp_bridge.Engine.Payload.{Codec, Policy, parse, error_payload}
use win_wsl_mcp_bridge.Engine.Recovery.{
  Attempt, done, Ensures, Recovery, make_recovery, set_core, AgentKind, role_of_line, cache,
  handle_agent, record_sent, remember_sent, failed_message, import_handshake, export_handshake,
}
use win_wsl_mcp_bridge.Engine.Recovery.Failing.{mark_failed, fail_once}
use win_wsl_mcp_bridge.Engine.Recovery.Outstanding.{IsTidy, remember_sent-IsTidy}
use win_wsl_mcp_bridge.Engine.Recovery.Sifting.{
  AllFailed, AllHashed, fresh_ids-AllFailed, fresh_ids-IsSifted, unfailed,
}
use win_wsl_mcp_bridge.Engine.Recovery.Sifting.Times.{times, times-failed, failed_key}
use win_wsl_mcp_bridge.Engine.Recovery.Losses.{map-map}
use win_wsl_mcp_bridge.Engine.Recovery.Steps.{
  IsCached, Keeps, Keeps-IsCached, Keeps-flags, handle_agent-IsCached, handle_node-Keeps,
  fail_once-Keeps, lost_requests-Keeps, Step, agent_line, sent, reply, node_line, drained, failed,
  handover, Reach, here, next,
}

module _ (policy : Policy) (codec : Codec) where
  record IsSane (r : Recovery) : Type 0 where
    cached : IsCached policy codec r
    tidy : IsTidy r

  record Sent (r s : Recovery) : Type 0 where
    raw_kept : s.init_raw ≡ r.init_raw
    id_kept : s.init_id ≡ r.init_id
    initialized_kept : s.initialized_raw ≡ r.initialized_raw
    failed_kept : s.failed ≡ r.failed

  remember_sent-Sent :
      (id : Json) (method : Option String) (current : Bool) (r : Recovery)
      → Ensures (Sent r) (remember_sent id method current r)
  unfolding remember_sent record_sent
  remember_sent-Sent id method current r = elim (Option-cases (hash_key id)) [
    | inl e ↦ rw (e, remember_sent) tt
    | inr (k, e) ↦ rw (e, remember_sent) (ground arith)
  ]

  remember_sent-Keeps :
      (id : Json) (method : Option String) (current : Bool) (r s : Recovery)
      → remember_sent id method current r ≡ done s
      → Keeps policy codec r s
  remember_sent-Keeps id method current r s e =
      let h = subst (Ensures (Sent r)) e (remember_sent-Sent id method current r) in
      record {
        raw_kept = h.raw_kept;
        id_kept = h.id_kept;
        initialized_kept = h.initialized_kept;
        failed_kept = λ k q. ap (contains k) h.failed_kept ∙ q;
        tidy = λ v. subst (Ensures IsTidy) e (remember_sent-IsTidy id method current r v);
      }

  -- A call that touches the handshake leaves the outstanding and the failed requests alone.
  record Same (r s : Recovery) : Type 0 where
    pending_kept : s.pending ≡ r.pending
    uncertain_kept : s.uncertain ≡ r.uncertain
    failed_same : s.failed ≡ r.failed

  cache-Same :
      (raw : List ℕ) (kind : AgentKind) (id : Json) (r : Recovery) → Same r (cache raw kind id r)
  unfolding cache
  cache-Same raw kind id r = ground arith

  Same-IsTidy : (r s : Recovery) → Same r s → IsTidy r → IsTidy s
  Same-IsTidy r s h v = record {
    pending_unique = rw h.pending_kept v.pending_unique;
    uncertain_unique = rw h.uncertain_kept v.uncertain_unique;
    pending_filed = rw h.pending_kept v.pending_filed;
    uncertain_filed = rw h.uncertain_kept v.uncertain_filed;
  }

  keep-IsSane : (r s : Recovery) → Keeps policy codec r s → IsSane r → IsSane s
  keep-IsSane r s k v = record {
    cached = Keeps-IsCached policy codec r s k v.cached;
    tidy = k.tidy v.tidy;
  }

  Step-IsSane : {r s : Recovery} → Step policy codec r s → IsSane r → IsSane s
  unfolding handle_agent import_handshake export_handshake set_core
  Step-IsSane (agent_line raw r) v =
      let role = role_of_line policy (parse codec raw) in
      record {
        cached = handle_agent-IsCached policy codec raw r v.cached;
        tidy = Same-IsTidy r _ (cache-Same raw role.kind role.id r) v.tidy;
      }
  Step-IsSane (sent id method current r s e) v =
      keep-IsSane r s (remember_sent-Keeps id method current r s e) v
  Step-IsSane (reply version r) v =
      keep-IsSane r _ (Keeps-flags policy codec r _ r.init_annotated r.result_noted) v
  Step-IsSane (node_line raw absorbing r s d e) v =
      keep-IsSane r s
        (subst (Ensures (λ x. Keeps policy codec r x.0)) e
          (handle_node-Keeps policy codec raw absorbing r))
        v
  Step-IsSane (drained r) v = keep-IsSane r _ (lost_requests-Keeps policy codec r) v
  Step-IsSane (failed ids reason unknown r s payloads e) v =
      keep-IsSane r s
        (subst (Ensures (λ x. Keeps policy codec r x.0)) e
          (fail_once-Keeps policy codec ids reason unknown r))
        v
  Step-IsSane (handover q r h) v = record {
    cached = record { init_line = h.init_line; initialized_line = h.initialized_line };
    tidy =
        Same-IsTidy r _ (record { pending_kept = refl; uncertain_kept = refl; failed_same = refl })
          v.tidy;
  }

  make_recovery-IsSane : (core : Option String) → IsSane (make_recovery core)
  unfolding make_recovery
  make_recovery-IsSane core = record {
    cached = record { init_line = λ raw q. cc; initialized_line = λ raw q. cc };
    tidy = record {
      pending_unique = tt;
      uncertain_unique = tt;
      pending_filed = tt;
      uncertain_filed = tt;
    };
  }

  Reach-IsSane : {r s : Recovery} → IsSane r → Reach policy codec r s → IsSane s
  Reach-IsSane v here = v
  Reach-IsSane v (next path step) = Step-IsSane step (Reach-IsSane v path)

  -- Whatever calls follow the construction of a recovery, what it caches for a replay is an
  -- initialize line with the id of that line, and an initialized notification: no business request
  -- is ever kept for a replay.
  pub handshake-IsCached :
      (core : Option String) {s : Recovery}
      → Reach policy codec (make_recovery core) s
      → IsCached policy codec s
  handshake-IsCached core path = (Reach-IsSane (make_recovery-IsSane core) path).cached

  -- Whatever calls follow the construction of a recovery, each of the two tables holds a stored
  -- request once, under the key of its id.
  pub Reach-IsTidy :
      (core : Option String) {s : Recovery} → Reach policy codec (make_recovery core) s → IsTidy s
  Reach-IsTidy core path = (Reach-IsSane (make_recovery-IsSane core) path).tidy

  Step-failed :
      {r s : Recovery}
      → Step policy codec r s
      → (k : Key) → contains k r.failed ≡ true
      → contains k s.failed ≡ true
  unfolding handle_agent import_handshake set_core
  Step-failed (agent_line raw r) k q =
      let role = role_of_line policy (parse codec raw) in
      ap (contains k) (cache-Same raw role.kind role.id r).failed_same ∙ q
  Step-failed (sent id method current r s e) k q =
      (remember_sent-Keeps id method current r s e).failed_kept k q
  Step-failed (reply version r) k q = q
  Step-failed (node_line raw absorbing r s d e) k q =
      (subst (Ensures (λ x. Keeps policy codec r x.0)) e
          (handle_node-Keeps policy codec raw absorbing r)).failed_kept
        k q
  Step-failed (drained r) k q = (lost_requests-Keeps policy codec r).failed_kept k q
  Step-failed (failed ids reason unknown r s payloads e) k q =
      (subst (Ensures (λ x. Keeps policy codec r x.0)) e
          (fail_once-Keeps policy codec ids reason unknown r)).failed_kept
        k q
  Step-failed (handover q' r h) k q = q

  Reach-failed :
      {r s : Recovery}
      → Reach policy codec r s
      → (k : Key) → contains k r.failed ≡ true
      → contains k s.failed ≡ true
  Reach-failed here k q = q
  Reach-failed (next path step) k q = Step-failed step k (Reach-failed path k q)

  AllFailed-later :
      (before after : List Key) (ids : List (Json × Option String))
      → ((k : Key) → contains k before ≡ true → contains k after ≡ true)
      → AllFailed before ids
      → AllFailed after ids
  AllFailed-later before after [] grow h = tt
  AllFailed-later before after ((id, m) ∷ ids) grow h =
      (λ k q. grow k (h.0 k q), AllFailed-later before after ids grow h.1)

  fail_once_lem :
      (ids : List (Json × Option String)) (reason : String) (unknown : Bool) (r : Recovery)
      → AllHashed ids
      → (s : Recovery) × (fail_once policy codec ids reason unknown r
          ≡ done (
            s,
            map
                (λ id. error_payload codec id (failed_message policy reason r) unknown)
                (unfailed r.failed ids),
          ))
  unfolding fail_once
  fail_once_lem ids reason unknown r hashed =
      let step = fresh_ids-IsSifted r.failed r.failed ids (λ k h. h) hashed in
      let told = λ (id : Json). error_payload codec id (failed_message policy reason r) unknown in
      let after = record r { failed = mark_failed step.fresh r.failed } in
      (
        after,
        rw (step.found, fail_once)
            (ap (λ p. done (after, p)) (map-map told step.fresh ∙ ap (map told) step.picked)),
      )

  -- A first call of `fail_once` on ids that hash returns an error for each that had not failed before. After any
  -- further calls of the recovery's methods, the same list yields no error and changes nothing; and a later call on
  -- any ids that hash, for whatever reason, returns an error for each that has not failed by then, and so none for
  -- an id whose key is that of an id of the first call.
  pub fail_once_forever :
      (ids later : List (Json × Option String)) (reason again : String) (unknown u : Bool)
      (r : Recovery) (k : Key) {s t : Recovery} {payloads : List (List ℕ)}
      → AllHashed ids
      → AllHashed later
      → fail_once policy codec ids reason unknown r ≡ done (s, payloads)
      → Reach policy codec s t
      → 1 ≤ times k (map (λ e. e.0) ids)
      → (payloads
          ≡ map
              (λ id. error_payload codec id (failed_message policy reason r) unknown)
              (unfailed r.failed ids))
        × (fail_once policy codec ids again u t ≡ done (t, []))
        × ((v : Recovery) × (fail_once policy codec later again u t
              ≡ done (
                v,
                map
                    (λ id. error_payload codec id (failed_message policy again t) u)
                    (unfailed t.failed later),
              )))
        × (times k (unfailed t.failed later) ≡ 0)
  unfolding fail_once
  fail_once_forever ids later reason again unknown u r k {s} {t} {payloads} hashed hashed_too e path
        among =
      let step = fresh_ids-IsSifted r.failed r.failed ids (λ k h. h) hashed in
      let first = fail_once_lem ids reason unknown r hashed in
      let same : s.failed ≡ mark_failed step.fresh r.failed =
        subst (Ensures (λ x. x.0.failed ≡ mark_failed step.fresh r.failed)) e
          (rw (step.found) refl) in
      let settled =
        AllFailed-later (mark_failed step.fresh r.failed) t.failed ids
          (λ k q. Reach-failed path k (ap (contains k) same ∙ q)) step.settled in
      (
        told_lem (sym e ∙ first.1),
        rw (fresh_ids-AllFailed t.failed ids hashed settled),
        fail_once_lem later again u t hashed_too,
        times-failed k t.failed later (failed_key t.failed ids k settled among),
      )
    where
      told_lem :
          {a b : Recovery} {p q : List (List ℕ)}
          → ◌≡◌ {A = Attempt (Recovery × List (List ℕ))} (done (a, p)) (done (b, q))
          → p ≡ q
      told_lem h = cc
