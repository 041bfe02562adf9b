-- ===== src/Backend/Untouched.antt =====
-- `SharedBackend`: the actions that leave the dicts of pending requests alone keep whatever is said of them and
-- of the generation.
use win_wsl_mcp_bridge.Base.{ℕ, ◌∷◌, String, Bool, true, false, Option, none, some, if_keeps}
use win_wsl_mcp_bridge.Base.Dict
use win_wsl_mcp_bridge.Json.{Json, Fields}
use win_wsl_mcp_bridge.Scheduling.Queue.{RoutedRequest, Refusal, SharedRequestQueue}
use win_wsl_mcp_bridge.Backend.State.{Backend, Wire, to_client, to_backend, closing, Fault}
use win_wsl_mcp_bridge.Backend.Task.{Task, modify, Ensures}
use win_wsl_mcp_bridge.Backend.Rules.{
  Keeps-pure, Keeps-raise, Keeps-reads, Ensures-if, Ensures-modify, Keeps-bind, Keeps-catch,
  keeps_rules,
}
use win_wsl_mcp_bridge.Backend.Requests.{
  send_client_message, write_message, refuse, begin, queue_request, start_object, start_taken,
  request_worker, worker_done,
}
use win_wsl_mcp_bridge.Backend.Session.{
  Observed, unusable, usable, record_session, answer_initialize, send_initialize_response,
  send_or_raise,
}
use win_wsl_mcp_bridge.Backend.Responses.{
  send_answer, deliver, observe_if, release_if, complete, finish_input_eof_if_idle, finish_eof_of,
}
use win_wsl_mcp_bridge.Backend.Tables.{Requests, Addresses, ByClient, Tokens}

module _ (F : Requests → Addresses → ByClient → Tokens → ℕ → Type 0) where
  abbrev pub Holds : Backend → Type 0
  Holds b =
      F b.requests b.pending_by_backend_id b.pending_by_client_id b.progress_tokens b.generation

  abbrev pub Keeps : {A : Type 0} → Task A → Type 0
  Keeps m = Ensures Holds Holds m

  pub update-Keeps :
      (f : Backend → Backend) → ((b : Backend) → Holds b → Holds (f b)) → Keeps (modify f)
  update-Keeps f k = Ensures-modify f k

  pub send_client_message-Keeps : (c : String) (m : Fields) → Keeps (send_client_message c m)
  unfolding send_client_message
  send_client_message-Keeps c m = Ensures-modify _ (λ b h.
      if_keeps Holds (Dict.has c b.clients) (record b { sent = to_client c m ∷ b.sent }) b h h)

  written-Keeps : (m : Fields) → Keeps (modify (λ b. record b { sent = to_backend m ∷ b.sent }))
  written-Keeps m = update-Keeps _ (λ b h. h)

  pub write_message-Keeps : (w : Wire) (m : Fields) → Keeps (write_message w m)
  unfolding write_message
  write_message-Keeps w m = search (keeps_rules, written-Keeps)

  pub refuse-Keeps :
      (c : Option String) (v : Json) (i : Bool) (limit : Refusal) → Keeps (refuse c v i limit)
  unfolding refuse
  refuse-Keeps none v i limit = search keeps_rules
  refuse-Keeps (some c) v true limit = search keeps_rules
  refuse-Keeps (some c) v false limit = search (keeps_rules, send_client_message-Keeps)

  pub queue_request-Keeps : (p : RoutedRequest) (n : ℕ) → Keeps (queue_request p n)
  unfolding queue_request
  queue_request-Keeps p n =
      Keeps-bind _ _ (Keeps-reads _)
        λ outcome. Keeps-bind _ _ (update-Keeps _ (λ b h. h)) (λ _. Keeps-pure _)

  pub begin-Keeps : (w : Wire) (p : RoutedRequest) → Keeps (begin w p)
  unfolding begin
  begin-Keeps w p = Keeps-bind _ _ (update-Keeps _ (λ b h. h)) λ _.
      Keeps-catch _ _ (write_message-Keeps w p.message)
        λ fault. Keeps-bind _ _ (update-Keeps _ (λ b h. h)) (λ _. Keeps-raise fault)

  start_object-Keeps : (w : Wire) (o : Option RoutedRequest) → Keeps (start_object w o)
  unfolding start_object
  start_object-Keeps w none = Keeps-pure tt
  start_object-Keeps w (some p) = Ensures-if p.cancelled _ _ (Keeps-pure tt) (begin-Keeps w p)

  start_taken-Keeps :
      (w : Wire) (o : Option (SharedRequestQueue × RoutedRequest)) → Keeps (start_taken w o)
  unfolding start_taken
  start_taken-Keeps w none = Keeps-pure tt
  start_taken-Keeps w (some (q, p)) =
      Keeps-bind _ _ (update-Keeps _ (λ b h. h))
        λ _. Keeps-bind _ _ (Keeps-reads _) (λ o. start_object-Keeps w o)

  pub request_worker-Keeps : (w : Wire) (n : ℕ) → Keeps (request_worker w n)
  unfolding request_worker
  request_worker-Keeps w n = search (keeps_rules, start_taken-Keeps) depth 8

  pub worker_done-Keeps : (w : Wire) → Keeps (worker_done w)
  unfolding worker_done
  worker_done-Keeps w = update-Keeps _ (λ b h. h)

  pub record_session-Keeps : (o : Observed) → Keeps (record_session o)
  unfolding record_session
  record_session-Keeps (unusable t) = update-Keeps _ (λ b h. h)
  record_session-Keeps (usable t v i) = update-Keeps _ (λ b h. h)

  pub send_or_raise-Keeps :
      (fault : Fault) (c : String) (m : Option Fields) → Keeps (send_or_raise fault c m)
  unfolding send_or_raise
  send_or_raise-Keeps fault c none = Keeps-raise fault
  send_or_raise-Keeps fault c (some m) = send_client_message-Keeps c m

  answer_initialize-Keeps :
      (c : String) (v : Json) (t : Option Fields) → Keeps (answer_initialize c v t)
  unfolding answer_initialize
  answer_initialize-Keeps c v none = Keeps-raise _
  answer_initialize-Keeps c v (some t) = search (keeps_rules, send_or_raise-Keeps)

  pub send_initialize_response-Keeps :
      (c : String) (v : Json) → Keeps (send_initialize_response c v)
  unfolding send_initialize_response
  send_initialize_response-Keeps c v = search (keeps_rules, answer_initialize-Keeps)

  pub deliver-Keeps :
      (w : Wire) (c : Option String) (p : RoutedRequest) (m : Fields) → Keeps (deliver w c p m)
  unfolding deliver send_answer
  deliver-Keeps w none p m = Keeps-pure tt
  deliver-Keeps w (some c) p m =
      search (keeps_rules, send_or_raise-Keeps, send_initialize_response-Keeps) depth 8

  pub observe_if-Keeps :
      (w : Wire) (i : Bool) (p : RoutedRequest) (m : Fields) → Keeps (observe_if w i p m)
  unfolding observe_if
  observe_if-Keeps w true p m = record_session-Keeps _
  observe_if-Keeps w false p m = Keeps-pure tt

  pub release_if-Keeps : (w : Wire) (i : Bool) (m : Fields) → Keeps (release_if w i m)
  unfolding release_if
  release_if-Keeps w true m =
      update-Keeps _ (λ b h. if_keeps Holds _ (record b { lease_owner = none }) b h h)
  release_if-Keeps w false m = Keeps-pure tt

  pub complete-Keeps : (id : String) → Keeps (complete id)
  unfolding complete
  complete-Keeps id = update-Keeps _ (λ b h. h)

  pub finish_eof_of-Keeps : (c : Option String) → Keeps (finish_eof_of c)
  unfolding finish_eof_of finish_input_eof_if_idle
  finish_eof_of-Keeps none = Keeps-pure tt
  finish_eof_of-Keeps (some c) = update-Keeps _ (λ b h.
      if_keeps Holds _ _ b (if_keeps Holds _ b (record b { sent = closing c ∷ b.sent }) h h) h)
