-- ===== src/Backend/Routed/Lifecycle.antt =====
-- `SharedBackend`: what a generation goes through keeps the dicts in agreement.
use win_wsl_mcp_bridge.Base.{
  ℕ, String, Bool, true, false, not, Option, none, some, List, [], ◌∷◌, if_keeps, if◌then◌else◌,
}
use win_wsl_mcp_bridge.Base.Dict
use win_wsl_mcp_bridge.Base.Pairs
use win_wsl_mcp_bridge.Json.{Json, Fields}
use win_wsl_mcp_bridge.Scheduling.Queue.{RoutedRequest}
use win_wsl_mcp_bridge.Backend.State.{
  Backend, Client, Lifecycle, exited, starting, running, stopping, closing, Wire,
}
use win_wsl_mcp_bridge.Backend.Task.{modify, Ensures}
use win_wsl_mcp_bridge.Backend.Rules.{
  Keeps-pure, Keeps-raise, Keeps-reads, Ensures-if, Ensures-bind, Keeps-bind, Keeps-each,
}
use win_wsl_mcp_bridge.Backend.Responses.{finish_input_eof_if_idle, finish_eof_of}
use win_wsl_mcp_bridge.Backend.Departure.{fail_all_pending, fail_session}
use win_wsl_mcp_bridge.Backend.Lifecycle.{
  start_next, admit, attach, start_failed, start_generation, stop, stop_failed_generation,
  stop_if_unused, generation_stopped, broadcast_tools_list_changed, begin_restart, open_gate,
  refresh_entry_if_exited, replace_generation, initialize_replacement, replacement_initialized,
}
use win_wsl_mcp_bridge.Backend.Exit.{
  notice_exit, lost_to, send_backend_lost_error, lose_request, drop_client_of, drop_incomplete,
  lose_generation, end_generation, give_up, forgive, recovery_round, end_input, ending,
}
use win_wsl_mcp_bridge.Backend.Tables.{Agree, Requests, Addresses, ByClient, Tokens}
use win_wsl_mcp_bridge.Backend.Untouched.{
  Holds, Keeps, update-Keeps, send_client_message-Keeps, write_message-Keeps, finish_eof_of-Keeps,
}
use win_wsl_mcp_bridge.Backend.Routed.{Routed, Ready, enqueue_request-Ensures}
use win_wsl_mcp_bridge.Backend.Routed.Serving.{broadcast-Keeps}

module _ (w : Wire) where
  abbrev F : Requests → Addresses → ByClient → Tokens → ℕ → Type 0
  F = Routed w

  -- No request is pending any more.
  emptied :
      (requests : Requests) (pending : Addresses) (clients : ByClient) (tokens : Tokens)
      → Agree w requests pending clients tokens
      → Agree w requests [] [] []
  unfolding Dict.lookup Pairs.find
  emptied requests pending clients tokens h = record {
    distinct = tt;
    itself = λ id a e. cc;
    object = λ id e. cc;
    named = h.named;
    of_client = λ c t id e. cc;
    entry = λ id c r e f g. cc;
    token = λ t c v e. cc;
  }

  failed_session-Holds :
      (pending : Bool) (o : Option Fields) (b : Backend)
      → Holds F b
      → Holds F (fail_session pending o b)
  failed_session-Holds true none b h = h
  failed_session-Holds true (some t) b h = h
  failed_session-Holds false o b h = h

  fail_all-Keeps : Keeps F fail_all_pending
  unfolding fail_all_pending
  fail_all-Keeps =
      update-Keeps F _ (λ b h.
        failed_session-Holds b.initialize_pending b.initialize_template _ (emptied _ _ _ _ h))

  start_next-Keeps : Keeps F start_next
  unfolding start_next
  start_next-Keeps = update-Keeps F _ (λ b h. h)

  admit-Keeps : (l : Lifecycle) (c : String) → Keeps F (admit l c)
  unfolding admit
  admit-Keeps running c = Keeps-bind _ _ (update-Keeps F _ (λ b h. h)) (λ _. Keeps-pure _)
  admit-Keeps starting c = Keeps-pure _
  admit-Keeps stopping c = Keeps-pure _
  admit-Keeps exited c =
      Keeps-bind _ _ (update-Keeps F _ (λ b h. h))
        (λ _. Keeps-bind _ _ start_next-Keeps (λ _. Keeps-pure _))

  pub attach-Keeps : (armed present : Bool) (c : String) → Keeps F (attach armed present c)
  unfolding attach
  attach-Keeps armed present c = Keeps-bind _ _ (Keeps-reads _) λ drain.
      Keeps-bind _ _ (Keeps-reads _) λ owned. Keeps-bind _ _ (Keeps-reads _) λ restarting.
        Keeps-bind _ _ (Keeps-reads _)
          (λ state. search (Ensures-if, Keeps-raise, Keeps-pure, admit-Keeps) depth 8)

  pub start_failed-Keeps : (g : ℕ) → Keeps F (start_failed g)
  unfolding start_failed
  start_failed-Keeps g =
      update-Keeps F _ (λ b h. if_keeps (Holds F) _ (record b { state = exited }) b h h)

  pub start_generation-Keeps : (g : ℕ) → Keeps F (start_generation g)
  unfolding start_generation
  start_generation-Keeps g =
      Keeps-bind _ _ (Keeps-reads _)
        λ ours. Ensures-if ours _ _ (update-Keeps F _ (λ b h. emptied _ _ _ _ h)) (Keeps-raise _)

  pub stop-Keeps : Keeps F stop
  unfolding stop
  stop-Keeps = update-Keeps F _ (λ b h. if_keeps (Holds F) _ (record b { state = stopping }) b h h)

  pub stop_failed-Keeps : (g : ℕ) → Keeps F (stop_failed_generation g)
  unfolding stop_failed_generation
  stop_failed-Keeps g =
      update-Keeps F _ (λ b h. if_keeps (Holds F) _ (record b { state = stopping }) b h h)

  stopped_if-Holds :
      (cs : List (String × Client)) (c : Bool) (b : Backend)
      → Holds F b
      → Holds F (elim cs [ x ∷ xs ↦ b | [] ↦ if c then record b { state = stopping } else b ])
  stopped_if-Holds [] c b h = if_keeps (Holds F) c (record b { state = stopping }) b h h
  stopped_if-Holds (x ∷ xs) c b h = h

  pub stop_if_unused-Keeps : Keeps F stop_if_unused
  unfolding stop_if_unused
  stop_if_unused-Keeps = update-Keeps F _ (λ b h. stopped_if-Holds b.clients _ b h)

  pub generation_stopped-Keeps : (g : ℕ) → Keeps F (generation_stopped g)
  unfolding generation_stopped
  generation_stopped-Keeps g = Keeps-bind _ _ (update-Keeps F _ (λ b h. h)) λ _.
      Keeps-bind _ _ fail_all-Keeps λ _.
        Keeps-bind _ _ (update-Keeps F _ (λ b h. h))
          (λ _. update-Keeps F _ (λ b h. if_keeps (Holds F) _ (record b { state = exited }) b h h))

  pub announced-Keeps : Keeps F (broadcast_tools_list_changed w)
  unfolding broadcast_tools_list_changed
  announced-Keeps = broadcast-Keeps F w _

  gated-Keeps : Keeps F (modify (λ b. record b { restart_in_progress = true }))
  gated-Keeps = update-Keeps F _ (λ b h. h)

  pub begin_restart-Keeps : Keeps F begin_restart
  unfolding begin_restart
  begin_restart-Keeps = Keeps-bind _ _ (Keeps-reads _) λ restarting.
      Keeps-bind _ _ (Keeps-reads _) λ idle.
        Keeps-bind _ _ (Keeps-reads _)
          (λ unknown. search (Ensures-if, Keeps-raise, gated-Keeps) depth 6)

  pub open_gate-Keeps : Keeps F open_gate
  unfolding open_gate
  open_gate-Keeps = update-Keeps F _ (λ b h. h)

  refresh-Keeps : (p : Fields) → Keeps F (refresh_entry_if_exited p)
  unfolding refresh_entry_if_exited
  refresh-Keeps p =
      update-Keeps F _ (λ b h. if_keeps (Holds F) _ (record b { process_config = p }) b h h)

  pub replace_generation-Keeps : (old : ℕ) (p : Fields) → Keeps F (replace_generation old p)
  unfolding replace_generation
  replace_generation-Keeps old p = Keeps-bind _ _ (Keeps-reads _) λ changed.
      Keeps-bind _ _ (Keeps-reads _) λ unused. Ensures-if changed _ _ (Keeps-raise _) (
        Ensures-if unused _ _ (Keeps-pure false) (
          Keeps-bind _ _ (refresh-Keeps p)
            (λ _. Keeps-bind _ _ start_next-Keeps (λ _. Keeps-pure true))))

  pub notice_exit-Keeps : (g : ℕ) → Keeps F (notice_exit g)
  unfolding notice_exit
  notice_exit-Keeps g = update-Keeps F _ (λ b h.
      if_keeps (Holds F) _ (record b { restart_in_progress = true; state = stopping }) b h h)

  lost_to-Keeps : (o : Option String) (i : Bool) (id : Json) (g : ℕ) → Keeps F (lost_to o i id g)
  unfolding lost_to
  lost_to-Keeps none i id g = Keeps-pure tt
  lost_to-Keeps (some c) true id g = Keeps-pure tt
  lost_to-Keeps (some c) false id g = send_client_message-Keeps F c _

  lost_error-Keeps : (o : Option RoutedRequest) (g : ℕ) → Keeps F (send_backend_lost_error o g)
  unfolding send_backend_lost_error
  lost_error-Keeps none g = Keeps-pure tt
  lost_error-Keeps (some p) g = lost_to-Keeps p.client_id p.is_initialize p.original_id g

  pub lose_request-Keeps : (g : ℕ) (id : String) → Keeps F (lose_request g id)
  unfolding lose_request
  lose_request-Keeps g id = Keeps-bind _ _ (Keeps-reads _) (λ o. lost_error-Keeps o g)

  drop_client_of-Keeps : (o : Option String) → Keeps F (drop_client_of o)
  unfolding drop_client_of
  drop_client_of-Keeps none = Keeps-pure tt
  drop_client_of-Keeps (some c) = update-Keeps F _ (λ b h.
      if_keeps (Holds F) _ (record b { clients = Dict.pop c b.clients; sent = closing c ∷ b.sent })
        b h h)

  pub drop_incomplete-Keeps : (id : String) → Keeps F (drop_incomplete id)
  unfolding drop_incomplete
  drop_incomplete-Keeps id = Keeps-bind _ _ (Keeps-reads _) drop_client_of-Keeps

  pub end_generation-Keeps : (g : ℕ) → Keeps F (end_generation g)
  unfolding end_generation
  end_generation-Keeps g = Keeps-bind _ _ fail_all-Keeps λ _.
      Keeps-bind _ _ (update-Keeps F _ (λ b h. h)) λ _.
        Keeps-bind _ _ (update-Keeps F _ (λ b h. h))
          (λ _. update-Keeps F _ (λ b h. if_keeps (Holds F) _ (record b { state = exited }) b h h))

  pub lose_generation-Keeps : (g : ℕ) → Keeps F (lose_generation g)
  unfolding lose_generation
  lose_generation-Keeps g = Keeps-bind _ _ (Keeps-reads _) λ pending.
      Keeps-bind _ _ (Keeps-each _ pending (lose_request-Keeps g)) λ _.
        Keeps-bind _ _ (Keeps-each _ pending drop_incomplete-Keeps) (λ _. end_generation-Keeps g)

  pub give_up-Keeps : Keeps F give_up
  unfolding give_up
  give_up-Keeps = Keeps-bind _ _ (Keeps-reads _) λ left.
      Keeps-bind _ _ (update-Keeps F _ (λ b h. h)) (λ _.
        Keeps-bind _ _ (Keeps-each _ left (λ c. update-Keeps F _ (λ b h. h)))
          (λ _. open_gate-Keeps))

  pub forgive-Keeps : (long : Bool) → Keeps F (forgive long)
  unfolding forgive
  forgive-Keeps long =
      update-Keeps F _ (λ b h. if_keeps (Holds F) _ (record b { recovery_failures = 0 }) b h h)

  pub recovery_round-Keeps :
      (armed : Bool) (attempt : ℕ) (p : Fields) → Keeps F (recovery_round armed attempt p)
  unfolding recovery_round
  recovery_round-Keeps armed attempt p = Keeps-bind _ _ (Keeps-reads _) λ wanted.
      Keeps-bind _ _ (Keeps-reads _) λ down. Ensures-if (not wanted) _ _ (Keeps-pure _) (
        Keeps-bind _ _ (update-Keeps F _ (λ b h. h)) λ _. Ensures-if (not down) _ _ (Keeps-pure _) (
          Keeps-bind _ _ (refresh-Keeps p)
            (λ _. Keeps-bind _ _ start_next-Keeps (λ _. Keeps-pure _))))

  ending-Holds : (o : Option Client) (c : String) (b : Backend) → Holds F b → Holds F (ending o c b)
  ending-Holds none c b h = h
  ending-Holds (some x) c b h = h

  eof-Keeps : (c : String) → Keeps F (finish_input_eof_if_idle c)
  unfolding finish_eof_of
  eof-Keeps c = finish_eof_of-Keeps F (some c)

  pub end_input-Keeps : (c : String) → Keeps F (end_input c)
  unfolding end_input
  end_input-Keeps c =
      Keeps-bind _ _ (update-Keeps F _ (λ b h. ending-Holds (Dict.lookup c b.clients) c b h))
        (λ _. eof-Keeps c)

  pub replacement_initialized-Keeps : Keeps F (replacement_initialized w)
  unfolding replacement_initialized
  replacement_initialized-Keeps = Keeps-bind _ _ (Keeps-reads _) λ failed.
      Ensures-if failed _ _ (Keeps-raise _)
        (Keeps-bind _ _ (write_message-Keeps F w _) (λ _. update-Keeps F _ (λ b h. h)))

  pub initialize_replacement-Ensures :
      (id uuid progress : String)
      → Ensures (Holds (Ready w uuid)) (Holds F) (initialize_replacement w id uuid progress)
  unfolding initialize_replacement
  initialize_replacement-Ensures id uuid progress =
      Ensures-bind {R = Holds (Ready w uuid)} _ _ (λ b h. h.0)
        (update-Keeps (Ready w uuid) _ (λ b h. h))
        λ _.
          Ensures-bind {R = Holds F} _ _ (λ b h. h)
            (enqueue_request-Ensures w uuid none _ _ progress) (λ _. Keeps-pure tt)
