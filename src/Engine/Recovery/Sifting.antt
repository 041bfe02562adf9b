-- ===== src/Engine/Recovery/Sifting.antt =====
-- `Recovery.fail_once`: the ids that have not failed yet, and those that have.
pub mod Times
use win_wsl_mcp_bridge.Base.{
  ℕ, suc, ◌≤◌, ◌+◌, false, String, ◌≡◌, ◌≢◌, refl, ap, subst, ◌∙◌, Bool, true, Option, none, some,
  List, [], ◌∷◌, ◌++◌, map, All, arith, if◌then◌else◌, Bool-cases, Option-cases, inl, inr,
}
use win_wsl_mcp_bridge.Json.{Json, Key, hash_key, key_eq}
use win_wsl_mcp_bridge.Json.Keys.{
  contains, add, contains-add, contains-add_self, contains-add_old, find, key_eq_iff, Unique,
}
use win_wsl_mcp_bridge.Engine.Payload.{Codec, Policy, error_payload}
use win_wsl_mcp_bridge.Engine.Recovery.{
  done, Recovery, quiescent, failed_message, warning_line, stale,
}
use win_wsl_mcp_bridge.Engine.Recovery.Failing.{
  entries, lost_requests, fresh_ids, mark_failed, fail_once,
}
use win_wsl_mcp_bridge.Engine.Recovery.Outstanding.{IsFiled, IsTidy, IsOutstanding}

pub mark_failed-contains :
    (fresh : List (Key × Json)) (failed : List Key) (j : Key)
    → contains j failed ≡ true
    → contains j (mark_failed fresh failed) ≡ true
unfolding mark_failed
mark_failed-contains [] failed j h = h
mark_failed-contains ((k, id) ∷ fresh) failed j h =
    mark_failed-contains fresh (add k failed) j (ground (arith, contains-add k j failed))

-- Every id whose key is found failed.
abbrev pub AllFailed : List Key → List (Json × Option String) → Type 0
AllFailed failed [] = Unit
AllFailed failed ((id, method) ∷ ids) =
    ((k : Key) → hash_key id ≡ some k → contains k failed ≡ true) × AllFailed failed ids

abbrev pub AllHashed : List (Json × Option String) → Type 0
AllHashed [] = Unit
AllHashed ((id, method) ∷ ids) = (hash_key id ≢ none) × AllHashed ids

pub fresh_ids-AllFailed :
    (failed : List Key) (ids : List (Json × Option String))
    → AllHashed ids
    → AllFailed failed ids
    → fresh_ids failed ids ≡ done []
unfolding fresh_ids
fresh_ids-AllFailed failed [] h k = refl
fresh_ids-AllFailed failed ((id, method) ∷ ids) h k = elim (Option-cases (hash_key id)) [
  | inl e ↦ absurd (h.0 e)
  | inr (key, e) ↦ rw (e, fresh_ids, fresh_ids-AllFailed failed ids h.1 k.1, k.0 key e)
]

pub AllHashed-append :
    (xs ys : List (Json × Option String)) → AllHashed xs → AllHashed ys → AllHashed (xs ++ ys)
AllHashed-append [] ys h k = k
AllHashed-append ((id, m) ∷ xs) ys h k = (h.0, AllHashed-append xs ys h.1 k)

pub AllFailed-left :
    (failed : List Key) (xs ys : List (Json × Option String))
    → AllFailed failed (xs ++ ys)
    → AllFailed failed xs
AllFailed-left failed [] ys h = tt
AllFailed-left failed ((id, m) ∷ xs) ys h = (h.0, AllFailed-left failed xs ys h.1)

pub AllFailed-right :
    (failed : List Key) (xs ys : List (Json × Option String))
    → AllFailed failed (xs ++ ys)
    → AllFailed failed ys
AllFailed-right failed [] ys h = h
AllFailed-right failed ((id, m) ∷ xs) ys h = AllFailed-right failed xs ys h.1

pub entries-AllHashed :
    (d : List (Key × (Json × Option String))) → All IsFiled d → AllHashed (entries d)
entries-AllHashed [] h = tt
entries-AllHashed ((k, e) ∷ d) h = (λ q. cc, entries-AllHashed d h.1)

pub find-AllFailed :
    (failed : List Key) (k : Key) (d : List (Key × (Json × Option String)))
    → All IsFiled d
    → AllFailed failed (entries d)
    → find k d ≢ none
    → contains k failed ≡ true
unfolding find
find-AllFailed failed k [] h f n = absurd (n refl)
find-AllFailed failed k ((j, e) ∷ d) h f n = elim (Bool-cases (key_eq j k)) [
  | inl q ↦ f.0 k (h.0 ∙ ap some ((key_eq_iff j k).0 q))
  | inr q ↦ find-AllFailed failed k d h.1 f.1 (rw q at n)
]

-- The ids that have not failed yet, in their order.
pub unfailed : List Key → List (Json × Option String) → List Json
unfolding contains
unfailed failed [] = []
unfailed failed ((id, m) ∷ ids) = elim (hash_key id) [
  | none ↦ unfailed failed ids
  | some k ↦ if contains k failed then unfailed failed ids else id ∷ unfailed failed ids
]

-- The result of `fresh_ids` on ids that all hash.
pub record IsSifted (failed acc : List Key) (ids : List (Json × Option String)) : Type 0 where
  pub fresh : List (Key × Json)
  pub found : fresh_ids failed ids ≡ done fresh
  pub settled : AllFailed (mark_failed fresh acc) ids
  pub picked : map (λ e. e.1) fresh ≡ unfailed failed ids

pub fresh_ids-IsSifted :
    (failed acc : List Key) (ids : List (Json × Option String))
    → ((k : Key) → contains k failed ≡ true → contains k acc ≡ true)
    → AllHashed ids
    → IsSifted failed acc ids
unfolding fresh_ids mark_failed unfailed
fresh_ids-IsSifted failed acc [] sub h = record {
  fresh = [];
  found = refl;
  settled = tt;
  picked = refl;
}
fresh_ids-IsSifted failed acc ((id, m) ∷ ids) sub h = elim (Option-cases (hash_key id)) [
  | inl e ↦ absurd (h.0 e)
  | inr (k, e) ↦ elim (Bool-cases (contains k failed)) [
    | inl old ↦
        let rest = fresh_ids-IsSifted failed acc ids sub h.1 in
        record {
          fresh = rest.fresh;
          found = rw (e, fresh_ids, rest.found, old);
          settled = (
            λ j q.
                mark_failed-contains rest.fresh acc j
                  (let p : k ≡ j = cc in sub j (subst (λ x. contains x failed ≡ true) p old)),
            rest.settled,
          );
          picked = rw (e, unfailed, old) rest.picked;
        }
    | inr new ↦
        let grown =
          λ (j : Key) (q : contains j failed ≡ true). contains-add_old k j acc (sub j q) in
        let rest = fresh_ids-IsSifted failed (add k acc) ids grown h.1 in
        record {
          fresh = (k, id) ∷ rest.fresh;
          found = rw (e, fresh_ids, rest.found, new);
          settled = (
            λ j q. mark_failed-contains rest.fresh (add k acc) j (
                let p : k ≡ j = cc in
                subst (λ x. contains x (add k acc) ≡ true) p (contains-add_self k acc)),
            rest.settled,
          );
          picked = rw (e, unfailed, new) (ap (λ l. id ∷ l) rest.picked);
        }
  ]
]
