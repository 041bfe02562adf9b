-- ===== src/Backend/Routed/Serving.antt =====
-- `SharedBackend`: what the backend sends, and what a generation goes through, keeps the dicts in agreement.
use win_wsl_mcp_bridge.Base.{ℕ, String, Option, none, some}
use win_wsl_mcp_bridge.Json.{Json, Fields}
use win_wsl_mcp_bridge.Backend.State.{Backend, Wire}
use win_wsl_mcp_bridge.Backend.Task.{Ensures}
use win_wsl_mcp_bridge.Backend.Rules.{
  Keeps-pure, Keeps-raise, Keeps-reads, Ensures-if, Keeps-bind, Keeps-each,
}
use win_wsl_mcp_bridge.Backend.Serving.{
  ask, route_backend_request, send_progress, route_progress, broadcast, send_to, route_other,
  route_backend_notification, by_method, route_backend_message,
}
use win_wsl_mcp_bridge.Backend.Tables.{Requests, Addresses, ByClient, Tokens}
use win_wsl_mcp_bridge.Backend.Untouched.{
  Holds, Keeps, update-Keeps, send_client_message-Keeps, write_message-Keeps,
}
use win_wsl_mcp_bridge.Backend.Routed.{Ready}
use win_wsl_mcp_bridge.Backend.Routed.Leaving.{route_backend_response-Ensures}

module _ (F : Requests → Addresses → ByClient → Tokens → ℕ → Type 0) (w : Wire) where
  ask-Keeps :
      (o : Option String) (method : String) (m : Fields) (uuid : String)
      → Keeps F (ask w o method m uuid)
  unfolding ask
  ask-Keeps none method m uuid = write_message-Keeps F w _
  ask-Keeps (some c) method m uuid =
      Keeps-bind _ _ (Keeps-reads _)
        λ id. Keeps-bind _ _ (update-Keeps F _ (λ b h. h)) (λ _. send_client_message-Keeps F c _)

  route_backend_request-Keeps :
      (m : Fields) (uuid : String) → Keeps F (route_backend_request w m uuid)
  unfolding route_backend_request
  route_backend_request-Keeps m uuid = Keeps-bind _ _ (Keeps-reads _) λ modern.
      Keeps-bind _ _ (Keeps-reads _)
        λ o. Ensures-if modern _ _ (write_message-Keeps F w _) (ask-Keeps o _ m uuid)

  send_progress-Keeps :
      (o : Option (String × Json)) (p m : Fields) → Keeps F (send_progress w o p m)
  unfolding send_progress
  send_progress-Keeps none p m = Keeps-pure tt
  send_progress-Keeps (some (c, v)) p m = send_client_message-Keeps F c _

  route_progress-Keeps : (o : Option Fields) (m : Fields) → Keeps F (route_progress w o m)
  unfolding route_progress
  route_progress-Keeps none m = Keeps-bind _ _ (Keeps-reads _) (λ o. send_progress-Keeps o _ m)
  route_progress-Keeps (some p) m = Keeps-bind _ _ (Keeps-reads _) (λ o. send_progress-Keeps o p m)

  pub broadcast-Keeps : (m : Fields) → Keeps F (broadcast w m)
  unfolding broadcast
  broadcast-Keeps m =
      Keeps-bind _ _ (Keeps-reads _)
        (λ recipients. Keeps-each _ recipients (λ c. send_client_message-Keeps F c m))

  send_to-Keeps : (o : Option String) (m : Fields) → Keeps F (send_to w o m)
  unfolding send_to
  send_to-Keeps none m = Keeps-pure tt
  send_to-Keeps (some c) m = send_client_message-Keeps F c m

  route_other-Keeps : (m : Fields) → Keeps F (route_other w m)
  unfolding route_other
  route_other-Keeps m = Keeps-bind _ _ (Keeps-reads _) λ modern.
      Keeps-bind _ _ (Keeps-reads _)
        (λ o. Ensures-if modern _ _ (Keeps-pure tt) (send_to-Keeps o m))

  route_backend_notification-Keeps :
      (method : String) (m : Fields) → Keeps F (route_backend_notification w method m)
  unfolding route_backend_notification
  route_backend_notification-Keeps method m =
      search (Ensures-if, route_progress-Keeps, broadcast-Keeps, route_other-Keeps)

module _ (w : Wire) (uuid : String) where
  abbrev B : Backend → Type 0
  B = Holds (Ready w uuid)

  by_method-Ensures :
      (o : Option String) (m : Fields) (hex : String) → Ensures B B (by_method w o m hex)
  unfolding by_method
  by_method-Ensures none m hex = route_backend_response-Ensures w uuid m
  by_method-Ensures (some method) m hex =
      Ensures-if _ _ _ (route_backend_request-Keeps (Ready w uuid) w m hex)
        (route_backend_notification-Keeps (Ready w uuid) w method m)

  pub route_backend_message-Ensures :
      (m : Fields) (hex : String) → Ensures B B (route_backend_message w m hex)
  unfolding route_backend_message
  route_backend_message-Ensures m hex = Ensures-if _ _ _ (Keeps-raise _) (by_method-Ensures _ m hex)
