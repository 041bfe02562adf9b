-- ===== src/Backend/Routed/Clients.antt =====
-- `SharedBackend._route_client_message`: every branch keeps the dicts in agreement.
use win_wsl_mcp_bridge.Base.{ℕ, String, Bool, true, false, Option, none, some}
use win_wsl_mcp_bridge.Json.{Json, null, Fields}
use win_wsl_mcp_bridge.Backend.State.{Backend, Client, Wire}
use win_wsl_mcp_bridge.Backend.Task.{Step, pure, ◌>>=◌, Ensures}
use win_wsl_mcp_bridge.Backend.Rules.{
  Keeps-pure, Keeps-raise, Keeps-reads, Ensures-if, Ensures-bind, Ensures-then, Keeps-bind, Gives,
  Gives-pure, Ensures-Gives,
}
use win_wsl_mcp_bridge.Backend.Requests.{plain, write_message}
use win_wsl_mcp_bridge.Backend.Departure.{route_cancellation}
use win_wsl_mcp_bridge.Backend.Eras.{route_modern}
use win_wsl_mcp_bridge.Backend.Serving.{forward_response, route_client_response}
use win_wsl_mcp_bridge.Backend.Eras.{Later, finished, notify, replay, joined, bootstrap}
use win_wsl_mcp_bridge.Backend.Clients.{
  send_initialize_error, open_session, initialize_with, initialize_as, initialize_checked,
  initialize_in, handle_initialize, forward_initialized, enqueue_unless, leased_unless,
  route_session, reply_error, route_legacy, route_request, route_notification, by_kind,
  route_client_message, resume,
}
use win_wsl_mcp_bridge.Backend.Tables.{Requests, Addresses, ByClient, Tokens}
use win_wsl_mcp_bridge.Backend.Untouched.{
  Keeps, update-Keeps, send_client_message-Keeps, write_message-Keeps,
  send_initialize_response-Keeps,
}
use win_wsl_mcp_bridge.Backend.Routed.{Ready, enqueue_request-Ensures}
use win_wsl_mcp_bridge.Backend.Routed.Leaving.{route_cancellation-Ensures}
use win_wsl_mcp_bridge.Backend.Routed.Calls.{
  Before, After, Dealt, reject_fixed-Keeps, apply_lease_policy-Gives, route_modern-Ensures,
  after_bootstrap-Ensures, after_join-Ensures,
}

module _ (F : Requests → Addresses → ByClient → Tokens → ℕ → Type 0) (w : Wire) where
  send_initialize_error-Keeps :
      (c : String) (id : Json) (m : String) (v : Json) → Keeps F (send_initialize_error c id m v)
  unfolding send_initialize_error
  send_initialize_error-Keeps c id m v =
      Keeps-bind _ _ (Keeps-reads _) (λ version. send_client_message-Keeps F c _)

  open_session-Keeps : (c v : String) (k : Fields) (here : Bool) → Keeps F (open_session c v k here)
  unfolding open_session
  open_session-Keeps c v k false = Keeps-raise _
  open_session-Keeps c v k true = update-Keeps F _ (λ b h. h)

  pub forward_initialized-Keeps : (m : Fields) → Keeps F (forward_initialized w m)
  unfolding forward_initialized
  forward_initialized-Keeps m = Keeps-bind _ _ (Keeps-reads _) λ first.
      Ensures-if first _ _
        (Keeps-bind _ _ (update-Keeps F _ (λ b h. h)) (λ _. write_message-Keeps F w m))
        (Keeps-pure tt)

  forward_response-Keeps :
      (v : Json) (stale : Bool) (m : Fields) → Keeps F (forward_response w v stale m)
  unfolding forward_response
  forward_response-Keeps null stale m = Ensures-if stale _ _ (Keeps-pure tt) (Keeps-raise _)
  forward_response-Keeps _ stale m = write_message-Keeps F w _

  pub route_client_response-Keeps :
      (c : String) (m : Fields) → Keeps F (route_client_response w c m)
  unfolding route_client_response
  route_client_response-Keeps c m = Keeps-bind _ _ (Keeps-reads _) λ found.
      Keeps-bind _ _ (Keeps-reads _) λ stale.
        Keeps-bind _ _ (update-Keeps F _ (λ b h. h)) (λ _. forward_response-Keeps _ stale m)

  pub reply_error-Keeps : (c : String) (m : Fields) (e : Json) → Keeps F (reply_error w c m e)
  unfolding reply_error
  reply_error-Keeps c m e =
      Keeps-bind _ _ (send_client_message-Keeps F c _) (λ _. Keeps-pure finished)

module _ (w : Wire) (uuid progress : String) where
  abbrev pub B : Backend → Type 0
  B = Before w uuid progress

  abbrev pub A : Backend → Type 0
  A = After w uuid progress

  initialize_with-Ensures :
      (observed pending : Bool) (c : String) (m : Fields)
      → Ensures B A (initialize_with w observed pending c m uuid progress)
  unfolding initialize_with
  initialize_with-Ensures true pending c m =
      Ensures-then {R = B} _ (λ b h. h.0)
        (Keeps-bind _ _ (send_initialize_response-Keeps (Ready w uuid) c _) (λ _. Keeps-pure _))
  initialize_with-Ensures false true c m = Ensures-then {R = B} _ (λ b h. h.0) (Keeps-pure _)
  initialize_with-Ensures false false c m =
      Ensures-bind {R = B} _ _ (λ b h. h.0) (update-Keeps (Ready w uuid) _ (λ b h. h))
        λ _.
          Ensures-bind {R = A} _ _ (λ b h. h) (enqueue_request-Ensures w uuid (some c) _ _ progress)
            (λ _. Keeps-pure _)

  refused-Ensures :
      (c : String) (id : Json) (m : String) (v : Json)
      → Ensures B A (send_initialize_error c id m v >>= λ _. pure finished)
  refused-Ensures c id m v =
      Ensures-then {R = B} _ (λ b h. h.0)
        (Keeps-bind _ _ (send_initialize_error-Keeps (Ready w uuid) w c id m v) (λ _. Keeps-pure _))

  initialize_as-Ensures :
      (o : Option String) (v : Json) (k : Fields) (c : String) (m : Fields)
      → Ensures B A (initialize_as w o v k c m uuid progress)
  unfolding initialize_as
  initialize_as-Ensures none v k c m = refused-Ensures c _ _ v
  initialize_as-Ensures (some version) v k c m =
      Ensures-bind {R = B} _ _ (λ b h. h.0) (Keeps-reads _)
        λ here.
          Ensures-bind {R = B} _ _ (λ b h. h.0)
            (open_session-Keeps (Ready w uuid) w c version k here)
            λ _.
              Ensures-bind {R = B} _ _ (λ b h. h.0) (Keeps-reads _)
                λ observed.
                  Ensures-bind {R = B} _ _ (λ b h. h.0) (Keeps-reads _)
                    (λ pending. initialize_with-Ensures observed pending c m)

  initialize_checked-Ensures :
      (o : Option (String × Fields)) (v : Json) (c : String) (m : Fields)
      → Ensures B A (initialize_checked w o v c m uuid progress)
  unfolding initialize_checked
  initialize_checked-Ensures none v c m = refused-Ensures c _ _ v
  initialize_checked-Ensures (some (version, k)) v c m = initialize_as-Ensures _ v k c m

  initialize_in-Ensures :
      (o : Option Fields) (c : String) (m : Fields)
      → Ensures B A (initialize_in w o c m uuid progress)
  unfolding initialize_in
  initialize_in-Ensures none c m = Ensures-then {R = B} _ (λ b h. h.0) (Keeps-raise _)
  initialize_in-Ensures (some params) c m = initialize_checked-Ensures _ _ c m

  handle_initialize-Ensures :
      (c : String) (m : Fields) → Ensures B A (handle_initialize w c m uuid progress)
  unfolding handle_initialize
  handle_initialize-Ensures c m = initialize_in-Ensures _ c m

  abbrev D : Bool → Backend → Type 0
  D = Dealt w uuid progress

  enqueue_unless-Ensures :
      (dealt : Bool) (c : String) (m : Fields)
      → Ensures (D dealt) A (enqueue_unless w dealt c m uuid progress)
  unfolding enqueue_unless
  enqueue_unless-Ensures true c m = Keeps-pure _
  enqueue_unless-Ensures false c m =
      Ensures-bind {R = A} _ _ (λ b h. h) (enqueue_request-Ensures w uuid (some c) m plain progress)
        (λ _. Keeps-pure _)

  leased_unless-Gives :
      (refused : Bool) (c : String) (m : Fields)
      → Gives B D A (leased_unless w refused c m uuid progress)
  unfolding leased_unless
  leased_unless-Gives true c m = Gives-pure true (λ b h. h.0)
  leased_unless-Gives false c m = apply_lease_policy-Gives w uuid progress c m false

  route_session-Ensures :
      (call : Bool) (c : String) (m : Fields) → Ensures B A (route_session w call c m uuid progress)
  unfolding route_session
  route_session-Ensures false c m = enqueue_unless-Ensures false c m
  route_session-Ensures true c m =
      Ensures-bind {R = B} _ _ (λ b h. h.0) (reject_fixed-Keeps (Ready w uuid) w c m false)
        λ refused.
          Ensures-Gives _ _ (leased_unless-Gives refused c m)
            (λ dealt. enqueue_unless-Ensures dealt c m)

  route_legacy-Ensures :
      (o : Option Client) (method c : String) (m : Fields)
      → Ensures B A (route_legacy w o method c m uuid progress)
  unfolding route_legacy
  route_legacy-Ensures none method c m = Ensures-then {R = B} _ (λ b h. h.0) (Keeps-raise _)
  route_legacy-Ensures (some s) method c m =
      Ensures-if _ _ _ (route_session-Ensures _ c m)
        (Ensures-then {R = B} _ (λ b h. h.0) (reply_error-Keeps (Ready w uuid) w c m _))

  replied-Ensures : (c : String) (m : Fields) (e : Json) → Ensures B A (reply_error w c m e)
  replied-Ensures c m e =
      Ensures-then {R = B} _ (λ b h. h.0) (reply_error-Keeps (Ready w uuid) w c m e)

  modern-Ensures :
      (method c : String) (m : Fields) (hex : String)
      → Ensures B A (route_modern w method c m hex uuid progress)
  modern-Ensures method c m hex = route_modern-Ensures w uuid progress method c m hex

  route_request-Ensures :
      (method c : String) (m : Fields) (hex : String)
      → Ensures B A (route_request w method c m hex uuid progress)
  unfolding route_request
  route_request-Ensures method c m hex =
      Ensures-bind {R = B} _ _ (λ b h. h.0) (Keeps-reads _)
        λ session.
          search
            (
              Ensures-if, handle_initialize-Ensures, modern-Ensures, replied-Ensures,
              route_legacy-Ensures,
            )
            depth 7

  finish-Ensures : (m : Step) → Ensures B B m → Ensures B A (m >>= λ _. pure finished)
  finish-Ensures m k =
      Ensures-then {R = B} _ (λ b h. h.0) (Keeps-bind m _ k (λ _. Keeps-pure finished))

  waits-Ensures : (l : Later) → Ensures B A (pure l)
  waits-Ensures l = Ensures-then {R = B} _ (λ b h. h.0) (Keeps-pure l)

  initialized-Keeps : (m : Fields) → Ensures B B (forward_initialized w m)
  initialized-Keeps m = forward_initialized-Keeps (Ready w uuid) w m

  cancellation-Keeps : (c : String) (m : Fields) → Ensures B B (route_cancellation w c m)
  cancellation-Keeps c m = route_cancellation-Ensures w uuid c m

  written-Keeps : (m : Fields) → Ensures B B (write_message w m)
  written-Keeps m = write_message-Keeps (Ready w uuid) w m

  route_notification-Ensures :
      (method c : String) (m : Fields) → Ensures B A (route_notification w method c m)
  unfolding route_notification
  route_notification-Ensures method c m =
      Ensures-bind {R = B} _ _ (λ b h. h.0) (Keeps-reads _)
        λ pending.
          search
            (
              Ensures-if, finish-Ensures, waits-Ensures, initialized-Keeps, cancellation-Keeps,
              written-Keeps,
            )
            depth 7

  by_kind-Ensures :
      (o : Option String) (c : String) (m : Fields) (hex : String)
      → Ensures B A (by_kind w o c m hex uuid progress)
  unfolding by_kind
  by_kind-Ensures none c m hex =
      Ensures-if _ _ _ (finish-Ensures _ (route_client_response-Keeps (Ready w uuid) w c m))
        (Ensures-then {R = B} _ (λ b h. h.0) (Keeps-raise _))
  by_kind-Ensures (some method) c m hex =
      Ensures-if _ _ _ (route_request-Ensures method c m hex)
        (route_notification-Ensures method c m)

  pub route_client_message-Ensures :
      (c : String) (m : Fields) (hex : String)
      → Ensures B A (route_client_message w c m hex uuid progress)
  unfolding route_client_message
  route_client_message-Ensures c m hex =
      Ensures-if _ _ _ (Ensures-then {R = B} _ (λ b h. h.0) (Keeps-raise _))
        (by_kind-Ensures _ c m hex)

  pub resume-Ensures : (l : Later) (late : Bool) → Ensures B A (resume w l late uuid progress)
  unfolding resume
  resume-Ensures finished late = Ensures-then {R = B} _ (λ b h. h.0) (Keeps-pure tt)
  resume-Ensures (notify m) late =
      Ensures-then {R = B} _ (λ b h. h.0) (forward_initialized-Keeps (Ready w uuid) w m)
  resume-Ensures (replay c id) late =
      Ensures-then {R = B} _ (λ b h. h.0) (send_initialize_response-Keeps (Ready w uuid) c id)
  resume-Ensures (joined a) late = after_join-Ensures w uuid progress a
  resume-Ensures (bootstrap a) late = after_bootstrap-Ensures w uuid progress late a
