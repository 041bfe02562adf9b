-- ===== src/Backend/Lost.antt =====
-- `SharedBackend._wait_process`: an exit of the backend leaves no client waiting.
use win_wsl_mcp_bridge.Base.{
  ℕ, String, Bool, true, false, Option, none, some, List, [], ◌∷◌, ◌≡◌, ◌⊎◌, inl, inr, refl, sym,
  ◌∙◌, subst, arith, text_eq, if_keeps, Bool-cases,
}
use win_wsl_mcp_bridge.Base.Dict
use win_wsl_mcp_bridge.Json.{Json, Fields}
use win_wsl_mcp_bridge.Scheduling.Queue.{RoutedRequest}
use win_wsl_mcp_bridge.Backend.State.{Backend, Sent, to_client, closing, exited, error_reply}
use win_wsl_mcp_bridge.Backend.Task.{Step, pure, ok, reads, modify, ◌>>=◌, each, Ensures}
use win_wsl_mcp_bridge.Backend.Rules.{
  Keeps-pure, Keeps-reads, Ensures-modify, Ensures-bind, Keeps-bind, Keeps-each, bind_ok,
}
use win_wsl_mcp_bridge.Backend.Requests.{send_client_message}
use win_wsl_mcp_bridge.Backend.Departure.{fail_all_pending, fail_session}
use win_wsl_mcp_bridge.Backend.Exit.{
  lost_error, lost_to, send_backend_lost_error, lose_request, drop_client_of, drop_incomplete,
  lose_generation, addresses, ended,
}

abbrev pub IsAmong : {A : Type 0} → A → List A → Type 0
IsAmong x [] = ⊥
IsAmong x (y ∷ ys) = (y ≡ x) ⊎ IsAmong x ys

lookup-IsAmong :
    (id a : String) (d : List (String × String))
    → Dict.lookup id d ≡ some a
    → IsAmong a (addresses d)
unfolding Dict.lookup
lookup-IsAmong id a [] e = cc
lookup-IsAmong id a ((j, v) ∷ d) e = elim (Bool-cases (text_eq j id)) [
  | inl same ↦ inl (ground (arith, same, e))
  | inr other ↦ inr (lookup-IsAmong id a d (ground (arith, other, e)))
]

module _ (x : Sent) where
  abbrev IsSent : Backend → Type 0
  IsSent b = IsAmong x b.sent

  update-Keeps :
      (f : Backend → Backend)
      → ((b : Backend) → IsSent b → IsSent (f b))
      → Ensures IsSent IsSent (modify f)
  update-Keeps f k = Ensures-modify f k

  send-Keeps : (c : String) (m : Fields) → Ensures IsSent IsSent (send_client_message c m)
  unfolding send_client_message
  send-Keeps c m =
      Ensures-modify _
        (λ b h. if_keeps IsSent _ (record b { sent = to_client c m ∷ b.sent }) b (inr h) h)

  lost_to-Keeps :
      (o : Option String) (i : Bool) (id : Json) (g : ℕ) → Ensures IsSent IsSent (lost_to o i id g)
  unfolding lost_to
  lost_to-Keeps none i id g = Keeps-pure tt
  lost_to-Keeps (some c) true id g = Keeps-pure tt
  lost_to-Keeps (some c) false id g = send-Keeps c _

  lost_error-Keeps :
      (o : Option RoutedRequest) (g : ℕ) → Ensures IsSent IsSent (send_backend_lost_error o g)
  unfolding send_backend_lost_error
  lost_error-Keeps none g = Keeps-pure tt
  lost_error-Keeps (some p) g = lost_to-Keeps p.client_id p.is_initialize p.original_id g

  lose_request-Keeps : (g : ℕ) (id : String) → Ensures IsSent IsSent (lose_request g id)
  unfolding lose_request
  lose_request-Keeps g id = Keeps-bind _ _ (Keeps-reads _) (λ o. lost_error-Keeps o g)

  drop_client_of-Keeps : (o : Option String) → Ensures IsSent IsSent (drop_client_of o)
  unfolding drop_client_of
  drop_client_of-Keeps none = Keeps-pure tt
  drop_client_of-Keeps (some c) = update-Keeps _ λ b h.
      if_keeps IsSent _ (record b { clients = Dict.pop c b.clients; sent = closing c ∷ b.sent }) b
        (inr h) h

  drop_incomplete-Keeps : (id : String) → Ensures IsSent IsSent (drop_incomplete id)
  unfolding drop_incomplete
  drop_incomplete-Keeps id = Keeps-bind _ _ (Keeps-reads _) drop_client_of-Keeps

-- Nothing is pending.
abbrev pub IsIdle : Backend → Type 0
IsIdle b =
    (b.pending_by_backend_id ≡ [])
    × (b.pending_by_client_id ≡ [])
    × (b.progress_tokens ≡ [])
    × (b.server_requests ≡ [])

fail_session-sent :
    (x : Sent) (pending : Bool) (o : Option Fields) (b : Backend)
    → IsSent x b
    → IsIdle b
    → IsSent x (fail_session pending o b) × IsIdle (fail_session pending o b)
fail_session-sent x true none b h k = (h, k)
fail_session-sent x true (some t) b h k = (h, k)
fail_session-sent x false o b h k = (h, k)

abbrev Over : Sent → Backend → Type 0
Over x b = IsSent x b × IsIdle b

fail_all-Ensures : (x : Sent) → Ensures (IsSent x) (Over x) fail_all_pending
unfolding fail_all_pending
fail_all-Ensures x = Ensures-modify _ λ b h.
    fail_session-sent x b.initialize_pending b.initialize_template _ h (refl, refl, refl, refl)

lost_to-ok :
    (o : Option String) (i : Bool) (id : Json) (g : ℕ) (b : Backend)
    → lost_to o i id g b ≡ (ok tt, (lost_to o i id g b).1)
unfolding lost_to send_client_message modify pure
lost_to-ok none i id g b = refl
lost_to-ok (some c) true id g b = refl
lost_to-ok (some c) false id g b = refl

lost_error-ok :
    (o : Option RoutedRequest) (g : ℕ) (b : Backend)
    → send_backend_lost_error o g b ≡ (ok tt, (send_backend_lost_error o g b).1)
unfolding send_backend_lost_error pure
lost_error-ok none g b = refl
lost_error-ok (some p) g b = lost_to-ok p.client_id p.is_initialize p.original_id g b

lose_request-ok :
    (g : ℕ) (id : String) (b : Backend) → lose_request g id b ≡ (ok tt, (lose_request g id b).1)
unfolding lose_request reads ◌>>=◌
lose_request-ok g id b = lost_error-ok (Dict.lookup id b.requests) g b

drop_client_of-ok :
    (o : Option String) (b : Backend) → drop_client_of o b ≡ (ok tt, (drop_client_of o b).1)
unfolding drop_client_of modify pure
drop_client_of-ok none b = refl
drop_client_of-ok (some c) b = refl

drop_incomplete-ok :
    (id : String) (b : Backend) → drop_incomplete id b ≡ (ok tt, (drop_incomplete id b).1)
unfolding drop_incomplete reads ◌>>=◌
drop_incomplete-ok id b = drop_client_of-ok _ b

each-ok :
    (f : String → Step)
    → ((id : String) (b : Backend) → f id b ≡ (ok tt, (f id b).1))
    → (ids : List String) (b : Backend) → each f ids b ≡ (ok tt, (each f ids b).1)
unfolding each pure
each-ok f k [] b = refl
each-ok f k (id ∷ ids) b =
    let e = bind_ok (f id) (λ _. each f ids) b _ tt (k id b) in
    subst (λ r. r ≡ (ok tt, r.1)) (sym e) (each-ok f k ids (f id b).1)

module _ (g : ℕ) (id c : String) (p : RoutedRequest) where
  abbrev x : Sent
  x = to_client c (error_reply p.original_id (lost_error g))

  abbrev Waits : Backend → Type 0
  Waits b = (Dict.lookup id b.requests ≡ some p) × (Dict.has c b.clients ≡ true)

  send-Waits : (d : String) (m : Fields) → Ensures Waits Waits (send_client_message d m)
  unfolding send_client_message
  send-Waits d m =
      Ensures-modify _ (λ b h. if_keeps Waits _ (record b { sent = to_client d m ∷ b.sent }) b h h)

  lost_to-Waits : (o : Option String) (i : Bool) (v : Json) → Ensures Waits Waits (lost_to o i v g)
  unfolding lost_to
  lost_to-Waits none i v = Keeps-pure tt
  lost_to-Waits (some d) true v = Keeps-pure tt
  lost_to-Waits (some d) false v = send-Waits d _

  lost_error-Waits : (o : Option RoutedRequest) → Ensures Waits Waits (send_backend_lost_error o g)
  unfolding send_backend_lost_error
  lost_error-Waits none = Keeps-pure tt
  lost_error-Waits (some q) = lost_to-Waits q.client_id q.is_initialize q.original_id

  lose_request-Waits : (j : String) → Ensures Waits Waits (lose_request g j)
  unfolding lose_request
  lose_request-Waits j = Keeps-bind _ _ (Keeps-reads _) lost_error-Waits

  module _ (asked : p.client_id ≡ some c) (not_first : p.is_initialize ≡ false) where
    lost_to-IsSent : Ensures Waits (IsSent x) (lost_to (some c) false p.original_id g)
    unfolding lost_to send_client_message
    lost_to-IsSent = Ensures-modify _ (λ b h. rw h.1 (inl refl))

    lost_error-IsSent : Ensures Waits (IsSent x) (send_backend_lost_error (some p) g)
    unfolding send_backend_lost_error
    lost_error-IsSent =
        subst (λ o. Ensures Waits (IsSent x) (lost_to o p.is_initialize p.original_id g))
          (sym asked)
          (subst (λ i. Ensures Waits (IsSent x) (lost_to (some c) i p.original_id g))
            (sym not_first) lost_to-IsSent)

    lose_request-IsSent : Ensures Waits (IsSent x) (lose_request g id)
    unfolding lose_request reads ◌>>=◌
    lose_request-IsSent = record {
      at = λ b h.
          subst (λ o. IsSent x (send_backend_lost_error o g b).1) (sym h.0)
            (lost_error-IsSent.at b h);
    }

    each-IsSent :
        (ids : List String) → IsAmong id ids → Ensures Waits (IsSent x) (each (lose_request g) ids)
    unfolding each
    each-IsSent (j ∷ ids) (inl e) =
        Ensures-bind {R = IsSent x} _ _ (λ b h. h)
          (subst (λ k. Ensures Waits (IsSent x) (lose_request g k)) (sym e) lose_request-IsSent)
          (λ _. Keeps-each _ ids (lose_request-Keeps x g))
    each-IsSent [] k = absurd k
    each-IsSent (j ∷ ids) (inr k) = record {
      at = λ b h.
          subst (λ r. IsSent x r.1)
            (sym (bind_ok (lose_request g j) _ b (lose_request g j b).1 tt (lose_request-ok g j b)))
            ((each-IsSent ids k).at (lose_request g j b).1 ((lose_request-Waits j).at b h));
    }

    update-Over :
        (f : Backend → Backend)
        → ((b : Backend) → Over x b → Over x (f b))
        → Ensures (Over x) (Over x) (modify f)
    update-Over f k = Ensures-modify f k

    ended-Keeps : Ensures (Over x) (Over x) (modify (ended g))
    ended-Keeps = update-Over _ (λ b h. if_keeps (Over x) _ (record b { state = exited }) b h h)

    abbrev Listed : List String → Backend → Type 0
    Listed ids b =
        (Waits b × (Dict.lookup id b.pending_by_backend_id ≡ some id))
        × (addresses b.pending_by_backend_id ≡ ids)

    each-Listed : (ids : List String) → Ensures (Listed ids) (IsSent x) (each (lose_request g) ids)
    each-Listed ids = record {
      at = λ b h.
          (each-IsSent ids (
              subst (λ l. IsAmong id l) h.1
                (lookup-IsAmong id id b.pending_by_backend_id h.0.1))).at
            b h.0.0;
    }

    abbrev finish : Step
    finish = fail_all_pending >>= λ _. modify (λ b. record b { current_request = none }) >>= λ _.
        modify (λ b. record b { lease_owner = none }) >>= λ _. modify (ended g)

    finish-Ensures : Ensures (IsSent x) (Over x) finish
    finish-Ensures =
        Ensures-bind {R = Over x} _ _ (λ b h. h) (fail_all-Ensures x)
          λ _.
            Keeps-bind _ _ (update-Over _ (λ b h. h))
              (λ _. Keeps-bind _ _ (update-Over _ (λ b h. h)) (λ _. ended-Keeps))

    -- What is left to do once the pending requests are listed.
    abbrev rest : List String → Step
    rest ids = each (lose_request g) ids >>= λ _. each drop_incomplete ids >>= λ _. finish

    rest-Ensures : (ids : List String) → Ensures (Listed ids) (Over x) (rest ids)
    rest-Ensures ids = record {
      at = λ b h.
          let told = (each (lose_request g) ids b).1 in
          let dropped = (each drop_incomplete ids told).1 in
          let run =
            bind_ok (each (lose_request g) ids) (λ _. each drop_incomplete ids >>= λ _. finish) b
              told tt (each-ok (lose_request g) (lose_request-ok g) ids b)
            ∙ bind_ok (each drop_incomplete ids) (λ _. finish) told dropped tt
                (each-ok drop_incomplete drop_incomplete-ok ids told) in
          subst (λ r. Over x r.1) (sym run)
            (finish-Ensures.at dropped (
              (Keeps-each drop_incomplete ids (drop_incomplete-Keeps x)).at told
                ((each-Listed ids).at b h)));
    }

-- When the backend exits, each client that waits for an answer is told so: for every pending request of an
-- attached client that is no initialize, the error `backend_generation_lost` is sent under the client's own id,
-- and afterwards nothing is pending, so that no request is left that nobody will answer.
pub lose_generation-IsTold :
    (g : ℕ) (b : Backend) (id c : String) (p : RoutedRequest)
    → Dict.lookup id b.pending_by_backend_id ≡ some id
    → Dict.lookup id b.requests ≡ some p
    → Dict.has c b.clients ≡ true
    → p.client_id ≡ some c
    → p.is_initialize ≡ false
    → IsAmong (to_client c (error_reply p.original_id (lost_error g))) (lose_generation g b).1.sent
      × IsIdle (lose_generation g b).1
unfolding lose_generation reads ◌>>=◌
lose_generation-IsTold g b id c p pending stored here asked not_first =
    (rest-Ensures g id c p asked not_first (addresses b.pending_by_backend_id)).at b
      (((stored, here), pending), refl)
