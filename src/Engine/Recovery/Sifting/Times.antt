-- ===== src/Engine/Recovery/Sifting/Times.antt =====
-- `Recovery.fail_once`: how often it reports an id.
use win_wsl_mcp_bridge.Base.{
  ℕ, suc, ◌≤◌, ◌+◌, false, String, ◌≡◌, refl, ap, subst, ◌∙◌, true, Option, none, some, List, [],
  ◌∷◌, ◌++◌, map, All, arith, if◌then◌else◌, Bool-cases, Option-cases, inl, inr,
}
use win_wsl_mcp_bridge.Json.{Json, Key, hash_key, key_eq}
use win_wsl_mcp_bridge.Json.Keys.{contains, find, key_eq_iff, Unique}
use win_wsl_mcp_bridge.Engine.Recovery.{Recovery}
use win_wsl_mcp_bridge.Engine.Recovery.Failing.{entries}
use win_wsl_mcp_bridge.Engine.Recovery.Outstanding.{IsFiled, IsTidy}
use win_wsl_mcp_bridge.Engine.Recovery.Sifting.{AllFailed, unfailed}

-- How often the id with this key stands in a list.
unfoldable pub times : Key → List Json → ℕ
times k [] = 0
times k (id ∷ ids) =
    let rest = times k ids in
    elim (hash_key id) [ none ↦ rest | some j ↦ if key_eq j k then suc rest else rest ]

-- 1 if a table holds the key, else 0.
pub held : Key → List (Key × (Json × Option String)) → ℕ
held k d = elim (find k d) [ none ↦ 0 | some e ↦ 1 ]

pub times-failed :
    (k : Key) (failed : List Key) (ids : List (Json × Option String))
    → contains k failed ≡ true
    → times k (unfailed failed ids) ≡ 0
unfolding times unfailed
times-failed k failed [] h = refl
times-failed k failed ((id, m) ∷ ids) h = elim (Option-cases (hash_key id)) [
  | inl e ↦ rw (e, unfailed) (times-failed k failed ids h)
  | inr (j, e) ↦ elim (Bool-cases (contains j failed)) [
    | inl old ↦ rw (e, unfailed, old) (times-failed k failed ids h)
    | inr new ↦ elim (Bool-cases (key_eq j k)) [
      | inl q ↦
          let p : j ≡ k = (key_eq_iff j k).0 q in
          let n : contains k failed ≡ false = subst (λ x. contains x failed ≡ false) p new in cc
      | inr q ↦ rw (e, unfailed, new, times, e, q) (times-failed k failed ids h)
    ]
  ]
]

pub failed_key :
    (failed : List Key) (ids : List (Json × Option String)) (k : Key)
    → AllFailed failed ids
    → 1 ≤ times k (map (λ e. e.0) ids)
    → contains k failed ≡ true
unfolding times
failed_key failed [] k h n = absurd (omega arith)
failed_key failed ((id, m) ∷ ids) k h n = elim (Option-cases (hash_key id)) [
  | inl e ↦ failed_key failed ids k h.1 (rw (e, times) at n)
  | inr (j, e) ↦ elim (Bool-cases (key_eq j k)) [
    | inl q ↦ h.0 k (e ∙ ap some ((key_eq_iff j k).0 q))
    | inr q ↦ failed_key failed ids k h.1 (rw (e, times, q) at n)
  ]
]

times-append :
    (k : Key) (failed : List Key) (xs ys : List (Json × Option String))
    → times k (unfailed failed (xs ++ ys))
      ≡ times k (unfailed failed xs) + times k (unfailed failed ys)
unfolding times unfailed
times-append k failed [] ys = omega arith
times-append k failed ((id, m) ∷ xs) ys = elim (Option-cases (hash_key id)) [
  | inl e ↦ rw (e, unfailed) (times-append k failed xs ys)
  | inr (j, e) ↦ elim (Bool-cases (contains j failed)) [
    | inl old ↦ rw (e, unfailed, old) (times-append k failed xs ys)
    | inr new ↦ elim (Bool-cases (key_eq j k)) [
      | inl q ↦ rw (e, unfailed, new, times, e, q) (omega (arith, times-append k failed xs ys))
      | inr q ↦ rw (e, unfailed, new, times, e, q) (times-append k failed xs ys)
    ]
  ]
]

times-entries :
    (k : Key) (failed : List Key) (d : List (Key × (Json × Option String)))
    → contains k failed ≡ false
    → Unique d
    → All IsFiled d
    → times k (unfailed failed (entries d)) ≡ held k d
unfolding times unfailed held find
times-entries k failed [] n u h = refl
times-entries k failed ((j, e) ∷ d) n u h = elim (Bool-cases (key_eq j k)) [
  | inl q ↦
      let p : j ≡ k = (key_eq_iff j k).0 q in
      let new : contains j failed ≡ false = rw p n in
      let gone : find k d ≡ none = rw (← p) u.0 in
      let rest : times k (unfailed failed (entries d)) ≡ 0 =
        times-entries k failed d n u.1 h.1 ∙ rw (gone, held) refl in
      rw (h.0, unfailed, new, times, h.0, q, rest, held, find)
  | inr q ↦ elim (Bool-cases (contains j failed)) [
    | inl old ↦ rw (h.0, unfailed, old, held, find, q) (times-entries k failed d n u.1 h.1)
    | inr new ↦
        rw (h.0, unfailed, new, times, h.0, held, find, q) (times-entries k failed d n u.1 h.1)
  ]
]

pub times_lem :
    (k : Key) (r : Recovery)
    → IsTidy r
    → times k (unfailed r.failed (entries r.pending ++ entries r.uncertain))
      ≡ (if contains k r.failed then 0 else held k r.pending + held k r.uncertain)
times_lem k r v = elim (Bool-cases (contains k r.failed)) [
  | inl old ↦ rw old (times-failed k r.failed (entries r.pending ++ entries r.uncertain) old)
  | inr new ↦ rw new (
      times-append k r.failed (entries r.pending) (entries r.uncertain)
      ∙ ap (λ n. n + times k (unfailed r.failed (entries r.uncertain)))
          (times-entries k r.failed r.pending new v.pending_unique v.pending_filed)
      ∙ ap (λ n. held k r.pending + n)
          (times-entries k r.failed r.uncertain new v.uncertain_unique v.uncertain_filed))
]
