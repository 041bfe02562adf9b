-- ===== src/Backend/Routed/Runs.antt =====
-- `SharedBackend`: its dicts agree in every state that it comes to.
use win_wsl_mcp_bridge.Base.{String, Bool, Option, none, some}
use win_wsl_mcp_bridge.Json.{Fields}
use win_wsl_mcp_bridge.Backend.State.{Backend, Wire, new_backend}
use win_wsl_mcp_bridge.Backend.Task.{Ensures}
use win_wsl_mcp_bridge.Backend.Rules.{
  Keeps-pure, Keeps-reads, Ensures-if, Ensures-bind, Ensures-then, Ensures-catch, Keeps-bind,
}
use win_wsl_mcp_bridge.Backend.Departure.{
  Cancelled, unsettled, all_settled, waiting_for, cleanup_lease, clean_up, after_cancel, detach,
  detach_waited, detach_cleaned,
}
use win_wsl_mcp_bridge.Backend.Tables.{IsRouted}
use win_wsl_mcp_bridge.Backend.Tables.Tracked.{empty_Agree}
use win_wsl_mcp_bridge.Backend.Untouched.{
  Holds, Keeps, update-Keeps, request_worker-Keeps, worker_done-Keeps,
}
use win_wsl_mcp_bridge.Backend.Moves.{
  Move, from_client, goes_on, from_backend, works, has_worked, attaches, ends_input, leaves,
  has_waited, cleans, has_cleaned, starts, fails_to_start, stops, stops_failed, stops_unused,
  has_stopped, announces, restarts, has_restarted, replaces, initializes, has_initialized, exits,
  loses, tells_loss, drops, ends, gives_up, forgives, recovers, Reached, created, moved,
}
use win_wsl_mcp_bridge.Backend.Routed.{Routed, Ready, enqueue_request-Ensures}
use win_wsl_mcp_bridge.Backend.Routed.Detaching.{cancel_client_requests-Ensures}
use win_wsl_mcp_bridge.Backend.Routed.Clients.{route_client_message-Ensures, resume-Ensures}
use win_wsl_mcp_bridge.Backend.Routed.Serving.{route_backend_message-Ensures}
use win_wsl_mcp_bridge.Backend.Routed.Lifecycle.{
  attach-Keeps, start_failed-Keeps, start_generation-Keeps, stop-Keeps, stop_failed-Keeps,
  stop_if_unused-Keeps, generation_stopped-Keeps, announced-Keeps, begin_restart-Keeps,
  open_gate-Keeps, replace_generation-Keeps, notice_exit-Keeps, lose_generation-Keeps,
  lose_request-Keeps, drop_incomplete-Keeps, end_generation-Keeps, give_up-Keeps, forgive-Keeps,
  recovery_round-Keeps, end_input-Keeps, replacement_initialized-Keeps,
  initialize_replacement-Ensures,
}

module _ (w : Wire) where
  module _ (hex uuid progress : String) where
    abbrev B : Backend → Type 0
    B = Holds (Ready w uuid)

    abbrev A : Backend → Type 0
    A = Holds (Routed w)

    cleanup_lease-Ensures : (o : Option Fields) → Ensures B A (cleanup_lease w o hex uuid progress)
    unfolding cleanup_lease
    cleanup_lease-Ensures none =
        Ensures-then {R = B} _ (λ b h. h.0)
          (Keeps-bind _ _ (update-Keeps (Ready w uuid) _ (λ b h. h)) (λ _. Keeps-pure _))
    cleanup_lease-Ensures (some lease) =
        Ensures-catch {R = A} _ _ (λ b h. h)
          (Ensures-bind {R = A} _ _ (λ b h. h) (enqueue_request-Ensures w uuid none _ _ progress)
            (λ id. Keeps-pure _))
          (λ fault. Keeps-pure _)

    pub clean_up-Ensures : (c : String) → Ensures B A (clean_up w c hex uuid progress)
    unfolding clean_up
    clean_up-Ensures c =
        Ensures-bind {R = B} _ _ (λ b h. h.0) (Keeps-reads _)
          λ owner.
            Ensures-bind {R = B} _ _ (λ b h. h.0) (Keeps-reads _)
              λ lease.
                Ensures-if owner _ _ (cleanup_lease-Ensures lease)
                  (Ensures-then {R = B} _ (λ b h. h.0) (Keeps-pure _))

    after_cancel-Ensures :
        (k : Cancelled) (c : String) → Ensures B A (after_cancel w k c hex uuid progress)
    unfolding after_cancel
    after_cancel-Ensures unsettled c = Ensures-then {R = B} _ (λ b h. h.0) (Keeps-pure _)
    after_cancel-Ensures all_settled c = clean_up-Ensures c
    after_cancel-Ensures (waiting_for id) c = Ensures-then {R = B} _ (λ b h. h.0) (Keeps-pure _)

    pub detach-Ensures : (c : String) → Ensures B A (detach w c hex uuid progress)
    unfolding detach
    detach-Ensures c =
        Ensures-bind {R = B} _ _ (λ b h. h.0) (update-Keeps (Ready w uuid) _ (λ b h. h))
          λ _.
            Ensures-bind {R = B} _ _ (λ b h. h.0) (cancel_client_requests-Ensures w uuid c)
              (λ k. after_cancel-Ensures k c)

    pub detach_waited-Ensures :
        (late : Bool) (c : String) → Ensures B A (detach_waited w late c hex uuid progress)
    unfolding detach_waited
    detach_waited-Ensures late c =
        Ensures-if late _ _ (Ensures-then {R = B} _ (λ b h. h.0) (Keeps-pure _))
          (clean_up-Ensures c)

  detach_cleaned-Keeps : (late : Bool) → Keeps (Routed w) (detach_cleaned w late)
  unfolding detach_cleaned
  detach_cleaned-Keeps late = Ensures-if late _ _ (Keeps-pure _) (Keeps-reads _)

  Move-IsRouted : (b c : Backend) → IsRouted w b → Move w b c → IsRouted w c
  Move-IsRouted b _ h (from_client _ c m hex uuid p new) =
      (route_client_message-Ensures w uuid p c m hex).at b (h, new)
  Move-IsRouted b _ h (goes_on _ l late uuid p new) = (resume-Ensures w uuid p l late).at b (h, new)
  Move-IsRouted b _ h (from_backend _ m uuid new) =
      ((route_backend_message-Ensures w uuid m uuid).at b (h, new)).0
  Move-IsRouted b _ h (works _ g) = (request_worker-Keeps (Routed w) w g).at b h
  Move-IsRouted b _ h (has_worked _) = (worker_done-Keeps (Routed w) w).at b h
  Move-IsRouted b _ h (attaches _ armed present c) = (attach-Keeps w armed present c).at b h
  Move-IsRouted b _ h (ends_input _ c) = (end_input-Keeps w c).at b h
  Move-IsRouted b _ h (leaves _ c hex uuid p new) = (detach-Ensures hex uuid p c).at b (h, new)
  Move-IsRouted b _ h (has_waited _ late c hex uuid p new) =
      (detach_waited-Ensures hex uuid p late c).at b (h, new)
  Move-IsRouted b _ h (cleans _ c hex uuid p new) = (clean_up-Ensures hex uuid p c).at b (h, new)
  Move-IsRouted b _ h (has_cleaned _ late) = (detach_cleaned-Keeps late).at b h
  Move-IsRouted b _ h (starts _ g) = (start_generation-Keeps w g).at b h
  Move-IsRouted b _ h (fails_to_start _ g) = (start_failed-Keeps w g).at b h
  Move-IsRouted b _ h (stops _) = (stop-Keeps w).at b h
  Move-IsRouted b _ h (stops_failed _ g) = (stop_failed-Keeps w g).at b h
  Move-IsRouted b _ h (stops_unused _) = (stop_if_unused-Keeps w).at b h
  Move-IsRouted b _ h (has_stopped _ g) = (generation_stopped-Keeps w g).at b h
  Move-IsRouted b _ h (announces _) = (announced-Keeps w).at b h
  Move-IsRouted b _ h (restarts _) = (begin_restart-Keeps w).at b h
  Move-IsRouted b _ h (has_restarted _) = (open_gate-Keeps w).at b h
  Move-IsRouted b _ h (replaces _ old p) = (replace_generation-Keeps w old p).at b h
  Move-IsRouted b _ h (initializes _ id uuid p new) =
      (initialize_replacement-Ensures w id uuid p).at b (h, new)
  Move-IsRouted b _ h (has_initialized _) = (replacement_initialized-Keeps w).at b h
  Move-IsRouted b _ h (exits _ g) = (notice_exit-Keeps w g).at b h
  Move-IsRouted b _ h (loses _ g) = (lose_generation-Keeps w g).at b h
  Move-IsRouted b _ h (tells_loss _ g id) = (lose_request-Keeps w g id).at b h
  Move-IsRouted b _ h (drops _ id) = (drop_incomplete-Keeps w id).at b h
  Move-IsRouted b _ h (ends _ g) = (end_generation-Keeps w g).at b h
  Move-IsRouted b _ h (gives_up _) = (give_up-Keeps w).at b h
  Move-IsRouted b _ h (forgives _ long) = (forgive-Keeps w long).at b h
  Move-IsRouted b _ h (recovers _ armed attempt p) = (recovery_round-Keeps w armed attempt p).at b h

  new-IsRouted : (process_config : Fields) → IsRouted w (new_backend process_config)
  unfolding new_backend
  new-IsRouted process_config = empty_Agree w

  -- In every state that a new `SharedBackend` comes to by any sequence of its steps, in any interleaving, its
  -- dicts of pending requests agree with each other and with the request objects: no client's key stands
  -- twice, a client's entry leads to a pending request of that client under that id, each pending request of a
  -- client has its entry, and a progress token leads to the client's own token in a pending request. A step
  -- that makes ids is given a `uuid4` under which no request has yet been made in its generation.
  pub Reached-IsRouted :
      (process_config : Fields) (b : Backend) → Reached w process_config b → IsRouted w b
  Reached-IsRouted process_config _ created = new-IsRouted process_config
  Reached-IsRouted process_config c (moved b _ before move) =
      Move-IsRouted b c (Reached-IsRouted process_config b before) move
