-- ===== src/Evidence/Correlator/Tally.antt =====
-- `StreamCorrelator`: how often an alias was given, and what one message adds to that.
use win_wsl_mcp_bridge.Base.{
  ℕ, ◌+◌, ◌≤◌, String, ◌≡◌, refl, ap, Bool, true, false, ◌&&◌, Option, none, some, List, [], ◌∷◌,
  ◌++◌, arith, eq_iff, Bool-cases, Option-cases, inl, inr, text_eq, if◌then◌else◌, if_keeps, leb,
  length,
}
use win_wsl_mcp_bridge.Base.Dict
use win_wsl_mcp_bridge.Evidence.Identity.{
  Flow, inbound, outbound, Side, Payload, opposite_flow, alias_from_canonical,
}
use win_wsl_mcp_bridge.Evidence.Classify.{Kind, request, response}
use win_wsl_mcp_bridge.Evidence.Correlator.{
  Observation, Direction, degrade, get_or, is_waiting, track_request, admit_request, guard_request,
  on_request, pair_response, on_response,
}

abbrev pub flow_eq : Flow → Flow → Bool
flow_eq inbound inbound = true
flow_eq outbound outbound = true
flow_eq _ _ = false

abbrev pub has_alias : String → Option String → Bool
has_alias a none = false
has_alias a (some b) = text_eq b a

abbrev pub is_request : Kind → Bool
is_request request = true
is_request _ = false

abbrev pub is_response : Kind → Bool
is_response response = true
is_response _ = false

-- The requests of a flow that were given the alias.
unfoldable pub requests_with : String → Flow → List Observation → ℕ
requests_with a flow [] = 0
requests_with a flow (o ∷ seen) =
    (if has_alias a o.correlation_id && (is_request o.kind && flow_eq o.flow flow) then 1 else 0)
    + requests_with a flow seen

-- The responses to requests of a flow that were given the alias: they travel in the opposite flow.
unfoldable pub responses_with : String → Flow → List Observation → ℕ
unfolding opposite_flow
responses_with a flow [] = 0
responses_with a flow (o ∷ seen) =
    (if has_alias a o.correlation_id && (is_response o.kind && flow_eq o.flow (opposite_flow flow))
      then 1
      else 0)
    + responses_with a flow seen

pub requests_with-append :
    (a : String) (flow : Flow) (xs ys : List Observation)
    → requests_with a flow (xs ++ ys) ≡ requests_with a flow xs + requests_with a flow ys
unfolding requests_with
requests_with-append a flow [] ys = omega arith
requests_with-append a flow (o ∷ xs) ys = omega (arith, requests_with-append a flow xs ys)

pub responses_with-append :
    (a : String) (flow : Flow) (xs ys : List Observation)
    → responses_with a flow (xs ++ ys) ≡ responses_with a flow xs + responses_with a flow ys
unfolding responses_with
responses_with-append a flow [] ys = omega arith
responses_with-append a flow (o ∷ xs) ys = omega (arith, responses_with-append a flow xs ys)

module _ (alias_of : String → ℕ → String) (a : String) where
  -- How many of the occurrences of an id that wait have the alias.
  unfoldable pub weight : String → List ℕ → ℕ
  weight id [] = 0
  weight id (n ∷ ns) = (if text_eq (alias_of id n) a then 1 else 0) + weight id ns

  unfoldable pub total : List (String × List ℕ) → ℕ
  total [] = 0
  total ((id, ns) ∷ p) = weight id ns + total p

  pub total-insert :
      (id : String) (ns : List ℕ) (p : List (String × List ℕ))
      → total (Dict.insert id ns p) + weight id (get_or [] (Dict.lookup id p))
        ≡ total p + weight id ns
  unfolding total weight Dict.insert Dict.lookup
  total-insert id ns [] = omega arith
  total-insert id ns ((j, ms) ∷ p) = elim (Bool-cases (text_eq j id)) [
    | inl e ↦
        let q = (eq_iff j id).0 e in
        rw e (omega (arith, ap (λ x. weight x ns) q, ap (λ x. weight x ms) q))
    | inr e ↦ rw e (omega (arith, total-insert id ns p))
  ]

module _ (hexdigest : Payload → String) (limit : ℕ) (stream_id : String) (origin : Side)
    (a : String) where
  abbrev pub alias_at : String → ℕ → String
  alias_at id n = alias_from_canonical hexdigest stream_id origin id n

  -- The waiting occurrences of a direction that were given the alias.
  abbrev pub waits : Direction → ℕ
  waits d = total alias_at a d.pending

  pub degrade-waits : (reason : String) (d : Direction) → waits (degrade reason d) ≡ waits d
  unfolding degrade
  degrade-waits reason d = ground arith

  pub track_request-waits :
      (flow : Flow) (id : String) (n : ℕ) (d : Direction)
      → is_waiting (Dict.lookup id d.pending) ≡ false
      → let (d', seen) = track_request hexdigest stream_id origin flow id n d in
        (waits d' ≤ waits d + requests_with a flow seen) × (responses_with a flow seen ≡ 0)
  unfolding track_request requests_with responses_with weight
  track_request-waits flow id n d h =
      let k = get_or 0 (Dict.lookup id d.occurrences) + 1 in
      ground (arith, total-insert alias_at a id (k ∷ []) d.pending)

  -- What a request step may do to the waiting occurrences, and what it reports.
  abbrev pub AsksAtMost : Flow → Direction → Direction × List Observation → Type 0
  AsksAtMost flow d (d', seen) =
      (waits d' ≤ waits d + requests_with a flow seen) × (responses_with a flow seen ≡ 0)

  pub admit_request-waits :
      (flow : Flow) (id : String) (n : ℕ) (d : Direction)
      → AsksAtMost flow d (admit_request hexdigest stream_id origin flow id n d)
  unfolding admit_request requests_with responses_with total
  admit_request-waits flow id n d = elim (Bool-cases (is_waiting (Dict.lookup id d.pending))) [
    | inl e ↦ rw e (omega arith, refl)
    | inr e ↦ rw e (track_request-waits flow id n d e)
  ]

  pub guard_request-waits :
      (flow : Flow) (id : String) (n : ℕ) (d : Direction)
      → AsksAtMost flow d (guard_request hexdigest limit stream_id origin flow id n d)
  unfolding guard_request requests_with responses_with
  guard_request-waits flow id n d =
      let full : waits d ≤ waits d + requests_with a flow [] = omega arith in
      let admitted = admit_request-waits flow id n d in
      let keeps = if_keeps (AsksAtMost flow d) in
      keeps (Dict.has id d.occurrences) (admit_request hexdigest stream_id origin flow id n d) _
        admitted
        (keeps d.degraded_capacity (d, []) _ (full, refl)
          (keeps (leb limit (length d.occurrences)) (record d { degraded_capacity = true }, [])
            (admit_request hexdigest stream_id origin flow id n d) (full, refl) admitted))

  pub on_request-waits :
      (flow : Flow) (id : Option String) (n : ℕ) (d : Direction)
      → AsksAtMost flow d (on_request hexdigest limit stream_id origin flow id n d)
  unfolding on_request requests_with responses_with
  on_request-waits flow none n d = (omega arith, refl)
  on_request-waits flow (some id) n d = elim (Option-cases d.lost_reason) [
    | inl e ↦ rw (e, on_request) (guard_request-waits flow id n d)
    | inr (r, e) ↦ rw (e, on_request) (omega arith, refl)
  ]

  -- A response to the requests of `flow` takes a waiting occurrence for each alias that it is given.
  abbrev pub AnswersAtMost : Flow → Direction → Direction × List Observation → Type 0
  AnswersAtMost flow d (d', seen) =
      (waits d' + responses_with a flow seen ≤ waits d) × (requests_with a flow seen ≡ 0)

  pub pair_response-waits :
      (flow : Flow) (id : String) (n : ℕ) (found : Option (List ℕ)) (d : Direction)
      → Dict.lookup id d.pending ≡ found
      → AnswersAtMost flow d
          (pair_response hexdigest stream_id origin (opposite_flow flow) id n found d)
  unfolding pair_response requests_with responses_with weight
  pair_response-waits flow id n none d h = (omega arith, refl)
  pair_response-waits flow id n (some []) d h = (omega arith, refl)
  pair_response-waits flow id n (some (k ∷ [])) d h =
      (ground (arith, total-insert alias_at a id [] d.pending), ground arith)
  pair_response-waits flow id n (some (k ∷ m ∷ ns)) d h =
      (omega (arith, degrade-waits "concurrent-id-reuse-ambiguous" d), refl)

  pub on_response-waits :
      (flow : Flow) (id : Option String) (n : ℕ) (d : Direction)
      → AnswersAtMost flow d (on_response hexdigest stream_id origin (opposite_flow flow) id n d)
  unfolding on_response requests_with responses_with
  on_response-waits flow none n d = (omega (arith, degrade-waits "response-id-unreadable" d), refl)
  on_response-waits flow (some id) n d = elim (Option-cases d.lost_reason) [
    | inl e ↦ rw (e, on_response) (pair_response-waits flow id n (Dict.lookup id d.pending) d refl)
    | inr (r, e) ↦ rw (e, on_response) (omega arith, refl)
  ]

  pub on_request-foreign :
      (f g : Flow) (id : Option String) (n : ℕ) (d : Direction)
      → responses_with a g (on_request hexdigest limit stream_id origin f id n d).1 ≡ 0
  unfolding on_request guard_request admit_request track_request responses_with
  on_request-foreign f g id n d = ground arith

  pub on_response-foreign :
      (f : Flow) (id : Option String) (n : ℕ) (d : Direction)
      → responses_with a f (on_response hexdigest stream_id origin f id n d).1 ≡ 0
  unfolding on_response pair_response responses_with
  on_response-foreign f id n d = ground arith
