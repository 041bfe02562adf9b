-- ===== src/Engine/Recovery/Losses.antt =====
-- `Recovery.lost_requests` and `fail_once`: the loss of a stream fails each outstanding request.
use win_wsl_mcp_bridge.Base.{
  ℕ, ◌+◌, String, ◌≡◌, refl, ap, ◌∙◌, Bool, true, List, [], ◌∷◌, ◌++◌, map, if◌then◌else◌, inl, inr,
}
use win_wsl_mcp_bridge.Json.{Json, Key}
use win_wsl_mcp_bridge.Json.Keys.{contains}
use win_wsl_mcp_bridge.Engine.Payload.{Codec, Policy, error_payload}
use win_wsl_mcp_bridge.Engine.Recovery.{
  done, Recovery, quiescent, failed_message, warning_line, stale,
}
use win_wsl_mcp_bridge.Engine.Recovery.Failing.{entries, lost_requests, mark_failed, fail_once}
use win_wsl_mcp_bridge.Engine.Recovery.Outstanding.{IsTidy, IsOutstanding}
use win_wsl_mcp_bridge.Engine.Recovery.Sifting.{
  fresh_ids-AllFailed, unfailed, fresh_ids-IsSifted, AllHashed-append, AllFailed-left,
  AllFailed-right, entries-AllHashed, find-AllFailed,
}
use win_wsl_mcp_bridge.Engine.Recovery.Sifting.Times.{times, held, times_lem}

-- What becomes of a lost stream's requests.
pub record IsSettled (policy : Policy) (codec : Codec) (reason : String) (r : Recovery)
    : Type 0 where
  pub after : Recovery
  pub payloads : List (List ℕ)
  pub failing :
      fail_once policy codec (lost_requests r).1 reason true (lost_requests r).0
      ≡ done (after, payloads)
  pub answered :
      payloads
      ≡ map
          (λ id. error_payload codec id (failed_message policy reason r) true)
          (unfailed r.failed (lost_requests r).1)
  pub told_each :
      (k : Key)
      → times k (unfailed r.failed (lost_requests r).1)
        ≡ (if contains k r.failed then 0 else held k r.pending + held k r.uncertain)
  pub all_failed : (k : Key) → IsOutstanding k r → contains k after.failed ≡ true
  pub nothing_left : quiescent after ≡ true
  pub never_again :
      (again : String) (outcome_unknown : Bool)
      → fail_once policy codec (lost_requests r).1 again outcome_unknown after ≡ done (after, [])

pub map-map :
    (f : Json → List ℕ) (xs : List (Key × Json)) → map (λ e. f e.1) xs ≡ map f (map (λ e. e.1) xs)
map-map f [] = refl
map-map f (x ∷ xs) = ap (λ l. f x.1 ∷ l) (map-map f xs)

-- On a tidy state the loss of the stream raises nothing: `fail_once` on what `lost_requests` drains
-- returns an error for each entry of the pending and of the uncertain requests whose id had not failed before, in
-- their order: one for an id that only one of the tables holds, two for an id that both hold. Every
-- outstanding id is marked failed, none is outstanding any more, and failing the same
-- ids again, for whatever reason, yields no second error.
pub loss_settles :
    (policy : Policy) (codec : Codec) (reason : String) (r : Recovery)
    → IsTidy r
    → IsSettled policy codec reason r
unfolding lost_requests fail_once quiescent warning_line stale
loss_settles policy codec reason r v =
    let ids = entries r.pending ++ entries r.uncertain in
    let hashed =
      AllHashed-append (entries r.pending) (entries r.uncertain)
        (entries-AllHashed r.pending v.pending_filed)
        (entries-AllHashed r.uncertain v.uncertain_filed) in
    let step = fresh_ids-IsSifted r.failed r.failed ids (λ k h. h) hashed in
    let failed = mark_failed step.fresh r.failed in
    record {
      after = record (lost_requests r).0 { failed = failed };
      payloads =
          map (λ e. error_payload codec e.1 (failed_message policy reason (lost_requests r).0) true)
            step.fresh;
      failing = rw (step.found, fail_once);
      answered =
          map-map (λ id. error_payload codec id (failed_message policy reason r) true) step.fresh
          ∙ ap (map (λ id. error_payload codec id (failed_message policy reason r) true))
              step.picked;
      told_each = λ k. times_lem k r v;
      all_failed = λ k outstanding. elim outstanding [
        | inl n ↦
            find-AllFailed failed k r.pending v.pending_filed
              (AllFailed-left failed (entries r.pending) (entries r.uncertain) step.settled) n
        | inr n ↦
            find-AllFailed failed k r.uncertain v.uncertain_filed
              (AllFailed-right failed (entries r.pending) (entries r.uncertain) step.settled) n
      ];
      nothing_left = refl;
      never_again = λ again u. rw (fresh_ids-AllFailed failed ids hashed step.settled, fail_once);
    }
