-- ===== src/Backend/Routed.antt =====
-- `SharedBackend`: the actions that change the dicts of pending requests keep them in agreement.
pub mod Leaving
pub mod Detaching
pub mod Calls
pub mod Clients
pub mod Serving
pub mod Lifecycle
pub mod Runs
use win_wsl_mcp_bridge.Base.{
  ℕ, ◌+◌, String, Bool, true, false, Option, none, some, List, [], ◌∷◌, ◌≡◌, ◌⊎◌, inl, inr, refl,
  sym, ◌∙◌, subst, ap, arith, eq_iff, text_eq, if◌then◌else◌, Bool-cases, Option-cases,
}
use win_wsl_mcp_bridge.Base.Dict
use win_wsl_mcp_bridge.Base.Dict.{lookup-insert, lookup-pop}
use win_wsl_mcp_bridge.Base.Pairs
use win_wsl_mcp_bridge.Json.{Json, Fields, get_or_null}
use win_wsl_mcp_bridge.Scheduling.Queue.{RoutedRequest, Refusal}
use win_wsl_mcp_bridge.Backend.State.{Backend, Wire, reused_id}
use win_wsl_mcp_bridge.Backend.Task.{Task, Step, pure, raise, reads, modify, ◌>>=◌, catch, Ensures}
use win_wsl_mcp_bridge.Backend.Rules.{
  Keeps-pure, Keeps-raise, Keeps-reads, Ensures-if, Ensures-modify, Ensures-bind, Ensures-reads,
  Ensures-weaken, Ensures-then, Keeps-bind, keeps_rules,
}
use win_wsl_mcp_bridge.Backend.Requests.{
  typed_id, next_backend_id, routed, queue_request, after_queue, track, enqueue_request, Purpose,
  key_of, is_used, refuse,
}
use win_wsl_mcp_bridge.Backend.Responses.{
  untrack, complete, answer_request, object_at, route_backend_response, text_of_id,
}
use win_wsl_mcp_bridge.Backend.Tables.{
  Agree, Like, IsFree, Requests, Addresses, ByClient, Tokens, untracked,
}
use win_wsl_mcp_bridge.Backend.Tables.Changes.{relabelled}
use win_wsl_mcp_bridge.Backend.Tables.Tracked.{tracked}
use win_wsl_mcp_bridge.Backend.Untouched.{
  Holds, Keeps, refuse-Keeps, queue_request-Keeps, observe_if-Keeps, release_if-Keeps,
  deliver-Keeps, complete-Keeps, finish_eof_of-Keeps,
}

module _ (w : Wire) where
  -- The dicts agree.
  abbrev pub Routed : Requests → Addresses → ByClient → Tokens → ℕ → Type 0
  Routed requests pending clients tokens generation = Agree w requests pending clients tokens

  -- And no request has an id that the next `uuid4` makes.
  abbrev pub IsFresh : String → Requests → ℕ → Type 0
  IsFresh uuid requests generation =
      (owner : Option String) → Dict.lookup (next_backend_id generation owner uuid) requests ≡ none

  abbrev pub Ready : String → Requests → Addresses → ByClient → Tokens → ℕ → Type 0
  Ready uuid requests pending clients tokens generation =
      Agree w requests pending clients tokens × IsFresh uuid requests generation

  module _ (uuid : String) where
    track-Ensures :
        (p : RoutedRequest)
        → Ensures
            (λ b.
              Holds Routed b
              × (Dict.lookup p.backend_id b.requests ≡ none)
              × (is_used w (key_of w p.client_id p.original_id) b.pending_by_client_id ≡ false))
            (Holds Routed)
            (track w p)
    unfolding track
    track-Ensures p = Ensures-modify _ (λ b h. tracked w h.0 p h.1 h.2)

    -- What is known of a request between the test of its id and its entry in the dicts.
    abbrev New : RoutedRequest → Requests → Addresses → ByClient → Tokens → ℕ → Type 0
    New p requests pending clients tokens generation =
        Agree w requests pending clients tokens
        × (Dict.lookup p.backend_id requests ≡ none)
        × (is_used w (key_of w p.client_id p.original_id) clients ≡ false)

    after_queue-Ensures :
        (p : RoutedRequest) (o : Option Refusal)
        → Ensures (Holds (New p)) (Holds Routed) (after_queue w p o)
    unfolding after_queue
    after_queue-Ensures p (some limit) =
        Ensures-then _ (λ b h. h.0)
          (refuse-Keeps (New p) p.client_id p.original_id p.is_initialize limit)
    after_queue-Ensures p none = Ensures-bind _ _ (λ b h. h) (track-Ensures p) (λ _. Keeps-pure _)

    module _ (c : Option String) (m : Fields) (purpose : Purpose) (progress : String) where
      made : ℕ → RoutedRequest
      made generation = routed generation c m purpose uuid progress

      abbrev Known : Bool → ℕ → Backend → Type 0
      Known used generation b =
          (Holds (Ready uuid) b
            × (is_used w (key_of w c (get_or_null "id" m)) b.pending_by_client_id ≡ used))
          × (b.generation ≡ generation)

      Known-New :
          (generation : ℕ) (b : Backend)
          → Known false generation b
          → Holds (New (made generation)) b
      unfolding made routed next_backend_id
      Known-New generation b (((agree, fresh), free), same) = (
        agree,
        subst (λ g. Dict.lookup (next_backend_id g c uuid) b.requests ≡ none) same (fresh c),
        free,
      )

      enqueue-Known :
          (used : Bool) (generation : ℕ)
          → Ensures (Known used generation) (Holds Routed) (
              if used
              then raise reused_id
              else (queue_request (made generation) (w.size (made generation).message + 1)
                  >>= λ limit. after_queue w (made generation) limit))
      enqueue-Known true generation = Ensures-then _ (λ b h. h.0.0.0) (Keeps-raise reused_id)
      enqueue-Known false generation = Ensures-weaken _ (Known-New generation) (
          Ensures-bind _ _ (λ b h. h.0)
            (queue_request-Keeps (New (made generation)) (made generation) _)
            (λ limit. after_queue-Ensures (made generation) limit))

      pub enqueue_request-Ensures :
          Ensures (Holds (Ready uuid)) (Holds Routed) (enqueue_request w c m purpose uuid progress)
      unfolding enqueue_request made
      enqueue_request-Ensures =
          Ensures-reads _ _ λ used. Ensures-reads _ _ λ generation. enqueue-Known used generation
