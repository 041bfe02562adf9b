-- ===== src/Backend/Routed/Calls.antt =====
-- `SharedBackend`: the requests of both eras, and the policies before them, keep the dicts in agreement.
use win_wsl_mcp_bridge.Base.{ℕ, String, Bool, true, false, not, Option, none, some, text_eq}
use win_wsl_mcp_bridge.Json.{Json, Fields}
use win_wsl_mcp_bridge.Backend.State.{Backend, Wire, Fault}
use win_wsl_mcp_bridge.Backend.Task.{pure, ◌>>=◌, Ensures}
use win_wsl_mcp_bridge.Backend.Rules.{
  Keeps-pure, Keeps-raise, Keeps-reads, Ensures-if, Ensures-bind, Ensures-then, Ensures-catch,
  Keeps-bind, Gives, Gives-pure, Gives-if, Gives-bind, Ensures-Gives, keeps_rules,
}
use win_wsl_mcp_bridge.Backend.Policy.{
  send_result, send_tool_policy_error, reject_fixed_state_mutation, Claim, unleased, busy, granted,
  take_lease, act_on, apply_lease_policy,
}
use win_wsl_mcp_bridge.Backend.Eras.{
  Asked, Later, send_error, send_modern_backend_unavailable, send_discover, enqueue_modern, leased,
  forward_modern, serve, start_session, with_session, ensure_backend_session, announce,
  drop_session, announce_then_serve, after_bootstrap, after_join, serve_after_checks, vetoed,
  route_sanitized, route_supported, route_modern,
}
use win_wsl_mcp_bridge.Backend.Tables.{Requests, Addresses, ByClient, Tokens}
use win_wsl_mcp_bridge.Backend.Untouched.{
  Holds, Keeps, update-Keeps, send_client_message-Keeps, write_message-Keeps,
}
use win_wsl_mcp_bridge.Backend.Routed.{Routed, Ready, enqueue_request-Ensures}

-- Actions that leave the dicts alone, for whatever is said of these.
module _ (F : Requests → Addresses → ByClient → Tokens → ℕ → Type 0) (w : Wire) where
  send_result-Keeps : (c : String) (id : Json) (r : Option Fields) → Keeps F (send_result w c id r)
  unfolding send_result
  send_result-Keeps c id none = Keeps-raise _
  send_result-Keeps c id (some r) = send_client_message-Keeps F c _

  pub send_tool_policy_error-Keeps :
      (c : String) (id : Json) (code : String) (retryable : Bool) (m : String) (modern : Bool)
      → Keeps F (send_tool_policy_error w c id code retryable m modern)
  unfolding send_tool_policy_error
  send_tool_policy_error-Keeps c id code retryable m modern = send_result-Keeps c id _

  pub reject_fixed-Keeps :
      (c : String) (m : Fields) (modern : Bool) → Keeps F (reject_fixed_state_mutation w c m modern)
  unfolding reject_fixed_state_mutation
  reject_fixed-Keeps c m modern = search (keeps_rules, send_tool_policy_error-Keeps) depth 7

  send_error-Keeps : (c : String) (id e : Json) → Keeps F (send_error w c id e)
  unfolding send_error
  send_error-Keeps c id e = send_client_message-Keeps F c _

  unavailable-Keeps :
      (a : Asked) (fault : Fault) → Keeps F (send_modern_backend_unavailable w a fault)
  unfolding send_modern_backend_unavailable
  unavailable-Keeps a fault = send_error-Keeps a.client a.id _

  send_discover-Keeps : (a : Asked) → Keeps F (send_discover w a)
  unfolding send_discover
  send_discover-Keeps a =
      Keeps-bind _ _ (Keeps-reads _) (λ t. send_client_message-Keeps F a.client _)

  drop_session-Keeps : (a : Asked) (fault : Fault) → Keeps F (drop_session w a fault)
  unfolding drop_session
  drop_session-Keeps a fault =
      Keeps-bind _ _ (update-Keeps F _ (λ b h. h)) (λ _. unavailable-Keeps a fault)

  announce-Keeps : (before : Bool) → Keeps F (announce w before)
  unfolding announce
  announce-Keeps true = Keeps-pure tt
  announce-Keeps false =
      Keeps-bind _ _ (write_message-Keeps F w _) (λ _. update-Keeps F _ (λ b h. h))

  vetoed-Keeps : (a : Asked) → Keeps F (vetoed w a)
  unfolding vetoed
  vetoed-Keeps a =
      Ensures-if (text_eq a.method "tools/call") _ _ (reject_fixed-Keeps a.client a.message true)
        (Keeps-pure false)

module _ (w : Wire) (uuid progress : String) where
  abbrev pub Before : Backend → Type 0
  Before = Holds (Ready w uuid)

  abbrev pub After : Backend → Type 0
  After = Holds (Routed w)

  -- After the lease's policy the id is still fresh where the call is not dealt with.
  abbrev pub Dealt : Bool → Backend → Type 0
  Dealt true = After
  Dealt false = Before

  take_lease-Keeps :
      (o : Option String) (r : Bool) (c : String) → Keeps (Routed w) (take_lease o r c)
  unfolding take_lease
  take_lease-Keeps o r c = update-Keeps (Routed w) _ (λ b h. h)

  act_on-Gives :
      (claim : Claim) (c : String) (m : Fields) (modern : Bool)
      → Gives Before Dealt After (act_on w claim c m modern uuid progress)
  unfolding act_on
  act_on-Gives unleased c m modern = Gives-pure false (λ b h. h)
  act_on-Gives busy c m modern =
      Gives-bind {R = Before} _ _ (λ b h. h.0)
        (send_tool_policy_error-Keeps (Ready w uuid) w c _ _ _ _ modern)
        (λ _. Gives-pure true (λ b h. h.0))
  act_on-Gives (granted r) c m modern =
      Gives-bind {R = After} _ _ (λ b h. h) (enqueue_request-Ensures w uuid (some c) m _ progress)
        λ id.
          Gives-bind {R = After} _ _ (λ b h. h) (take_lease-Keeps id r c)
            (λ _. Gives-pure true (λ b h. h))

  pub apply_lease_policy-Gives :
      (c : String) (m : Fields) (modern : Bool)
      → Gives Before Dealt After (apply_lease_policy w c m modern uuid progress)
  unfolding apply_lease_policy
  apply_lease_policy-Gives c m modern =
      Gives-bind {R = Before} _ _ (λ b h. h.0) (Keeps-reads _) (λ k. act_on-Gives k c m modern)

  leased-Gives : (a : Asked) → Gives Before Dealt After (leased w a uuid progress)
  unfolding leased
  leased-Gives a =
      Gives-if (text_eq a.method "tools/call") _ _
        (apply_lease_policy-Gives a.client a.message true) (Gives-pure false (λ b h. h))

  enqueue_modern-Ensures :
      (a : Asked) (dealt : Bool)
      → Ensures (Dealt dealt) After (enqueue_modern w a dealt uuid progress)
  unfolding enqueue_modern
  enqueue_modern-Ensures a true = Keeps-pure tt
  enqueue_modern-Ensures a false =
      Ensures-bind {R = After} _ _ (λ b h. h)
        (enqueue_request-Ensures w uuid (some a.client) a.message _ progress) (λ _. Keeps-pure tt)

  forward_modern-Ensures : (a : Asked) → Ensures Before After (forward_modern w a uuid progress)
  unfolding forward_modern
  forward_modern-Ensures a =
      Ensures-bind {R = Before} _ _ (λ b h. h.0) (Keeps-reads _)
        λ offered.
          Ensures-if (not offered) _ _
            (Ensures-then {R = Before} _ (λ b h. h.0)
              (send_error-Keeps (Ready w uuid) w a.client a.id _))
            (Ensures-Gives _ _ (leased-Gives a) (λ dealt. enqueue_modern-Ensures a dealt))

  pub serve-Ensures : (a : Asked) → Ensures Before After (serve w a uuid progress)
  unfolding serve
  serve-Ensures a =
      Ensures-if (text_eq a.method "server/discover") _ _
        (Ensures-then {R = Before} _ (λ b h. h.0) (send_discover-Keeps (Ready w uuid) w a))
        (forward_modern-Ensures a)

  start_session-Ensures :
      (a : Asked) (hex : String) → Ensures Before After (start_session w a hex uuid progress)
  unfolding start_session
  start_session-Ensures a hex =
      Ensures-bind {R = Before} _ _ (λ b h. h.0) (update-Keeps (Ready w uuid) _ (λ b h. h))
        λ _.
          Ensures-catch {R = After} _ _ (λ b h. h)
            (Ensures-bind {R = After} _ _ (λ b h. h)
              (enqueue_request-Ensures w uuid none _ _ progress) (λ _. Keeps-pure _))
            λ fault.
              Keeps-bind _ _ (update-Keeps (Routed w) _ (λ b h. h))
                λ _. Keeps-bind _ _ (unavailable-Keeps (Routed w) w a fault) (λ _. Keeps-pure _)

  with_session-Ensures :
      (observed pending : Bool) (a : Asked) (hex : String)
      → Ensures Before After (with_session w observed pending a hex uuid progress)
  unfolding with_session
  with_session-Ensures true pending a hex =
      Ensures-bind {R = After} _ _ (λ b h. h) (serve-Ensures a) (λ _. Keeps-pure _)
  with_session-Ensures false true a hex = Ensures-then {R = Before} _ (λ b h. h.0) (Keeps-pure _)
  with_session-Ensures false false a hex = start_session-Ensures a hex

  ensure-Ensures :
      (a : Asked) (hex : String)
      → Ensures Before After (ensure_backend_session w a hex uuid progress)
  unfolding ensure_backend_session
  ensure-Ensures a hex =
      Ensures-bind {R = Before} _ _ (λ b h. h.0) (Keeps-reads _)
        λ observed.
          Ensures-bind {R = Before} _ _ (λ b h. h.0) (Keeps-reads _)
            (λ pending. with_session-Ensures observed pending a hex)

  announced-Ensures :
      (before : Bool) (a : Asked)
      → Ensures Before After (announce_then_serve w before a uuid progress)
  unfolding announce_then_serve
  announced-Ensures before a =
      Ensures-bind {R = Before} _ _ (λ b h. h.0)
        (Ensures-catch {R = Before} _ _ (λ b h. h)
          (Keeps-bind _ _ (announce-Keeps (Ready w uuid) w before) (λ _. Keeps-pure true))
          (λ fault.
            Keeps-bind _ _ (unavailable-Keeps (Ready w uuid) w a fault) (λ _. Keeps-pure false)))
        λ announced.
          Ensures-if announced _ _ (serve-Ensures a)
            (Ensures-then {R = Before} _ (λ b h. h.0) (Keeps-pure tt))

  pub after_bootstrap-Ensures :
      (late : Bool) (a : Asked) → Ensures Before After (after_bootstrap w late a uuid progress)
  unfolding after_bootstrap
  after_bootstrap-Ensures late a =
      Ensures-bind {R = Before} _ _ (λ b h. h.0) (Keeps-reads _)
        λ failed.
          Ensures-bind {R = Before} _ _ (λ b h. h.0) (Keeps-reads _)
            λ forwarded.
              Ensures-if late _ _
                (Ensures-then {R = Before} _ (λ b h. h.0) (drop_session-Keeps (Ready w uuid) w a _))
                (Ensures-if failed _ _
                  (Ensures-then {R = Before} _ (λ b h. h.0)
                    (drop_session-Keeps (Ready w uuid) w a _))
                  (announced-Ensures forwarded a))

  pub after_join-Ensures : (a : Asked) → Ensures Before After (after_join w a uuid progress)
  unfolding after_join
  after_join-Ensures a =
      Ensures-bind {R = Before} _ _ (λ b h. h.0) (Keeps-reads _)
        λ failed.
          Ensures-if failed _ _
            (Ensures-then {R = Before} _ (λ b h. h.0) (unavailable-Keeps (Ready w uuid) w a _))
            (serve-Ensures a)

  told-Ensures :
      (c : String) (id e : Json) (l : Later)
      → Ensures Before After (send_error w c id e >>= λ _. pure l)
  told-Ensures c id e l =
      Ensures-bind {R = Before} _ _ (λ b h. h.0) (send_error-Keeps (Ready w uuid) w c id e)
        (λ _. Ensures-then {R = Before} _ (λ b h. h.0) (Keeps-pure l))

  checked-Ensures :
      (veto : Bool) (a : Asked) (hex : String)
      → Ensures Before After (serve_after_checks w veto a hex uuid progress)
  unfolding serve_after_checks
  checked-Ensures true a hex = Ensures-then {R = Before} _ (λ b h. h.0) (Keeps-pure _)
  checked-Ensures false a hex = ensure-Ensures a hex

  sanitized-Ensures :
      (o : Option Fields) (c : String) (m : Fields) (method hex : String)
      → Ensures Before After (route_sanitized w o c m method hex uuid progress)
  unfolding route_sanitized
  sanitized-Ensures none c m method hex = told-Ensures c _ _ _
  sanitized-Ensures (some params) c m method hex =
      Ensures-bind {R = Before} _ _ (λ b h. h.0) (vetoed-Keeps (Ready w uuid) w _)
        (λ veto. checked-Ensures veto _ hex)

  supported-Ensures :
      (method c : String) (m : Fields) (hex : String)
      → Ensures Before After (route_supported w method c m hex uuid progress)
  unfolding route_supported
  supported-Ensures method c m hex =
      search (Ensures-if, ensure-Ensures, told-Ensures, sanitized-Ensures) depth 7

  pub route_modern-Ensures :
      (method c : String) (m : Fields) (hex : String)
      → Ensures Before After (route_modern w method c m hex uuid progress)
  unfolding route_modern
  route_modern-Ensures method c m hex = search (Ensures-if, told-Ensures, supported-Ensures)
