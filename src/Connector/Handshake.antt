-- ===== src/Connector/Handshake.antt =====
-- connector_core.py: what the connector keeps while the node is away, and what becomes of it.
use win_wsl_mcp_bridge.Base.{
  ℕ, ◌+◌, ◌-◌, String, Bool, true, false, ◌&&◌, List, [], ◌∷◌, ◌++◌, length, ◌≡◌, refl, arith, ap,
  sym, ◌∙◌, ◌⊎◌, append_assoc, inl, inr, if_keeps,
}
use win_wsl_mcp_bridge.Json.{Json, Key}
use win_wsl_mcp_bridge.Engine.Payload.{Codec, Policy, parse}
use win_wsl_mcp_bridge.Engine.Recovery.{
  Attempt, done, type_error, Ensures, Recovery, AgentKind, initialize, initialized, request, Role,
  cache, handle_agent, role_of_line,
}
use win_wsl_mcp_bridge.Engine.Recovery.Failing.{fail_once, settle}
use win_wsl_mcp_bridge.Connector.{
  is_open, Connector, write_stdout, write_payloads, send_raw, is_call, publish_down,
  publish_agent_line, note_sent, mark_up, drain, finish_session, answer, with_recovery, and_then,
}

-- The bytes of lines.
abbrev pub total : List (List ℕ) → ℕ
total [] = 0
total (line ∷ lines) = length line + total lines

-- The drain moves lines from the queue to the wire, in their order, and loses none: what the wire and the
-- queue hold together stays, whether the drain ends or the session dies on the way. The count of the
-- queued bytes stays exact, and a drain that ends leaves nothing.
pub record IsDrained (c : Connector) (result : Connector × Bool) : Type 0 where
  pub kept : result.0.wire ++ result.0.queued ≡ c.wire ++ c.queued
  pub counted : result.0.queued_bytes ≡ total result.0.queued
  pub emptied : (result.1 ≡ false) ⊎ (result.0.queued ≡ [])

-- What noting a line as sent leaves alone.
abbrev SameQueue : Connector → Connector → Type 0
SameQueue c d = (d.wire ≡ c.wire) × (d.queued ≡ c.queued) × (d.queued_bytes ≡ c.queued_bytes)

with_recovery-same :
    (c : Connector) (a : Attempt Recovery) → Ensures (SameQueue c) (with_recovery c a)
with_recovery-same c type_error = tt
with_recovery-same c (done r) = (refl, refl, refl)

note_sent-same :
    (item : List ℕ) (role : Role) (c : Connector) → Ensures (SameQueue c) (note_sent item role c)
unfolding note_sent
note_sent-same item role c =
    if_keeps (Ensures (SameQueue c)) (is_call role.kind) _ _ (with_recovery-same c _)
      (refl, refl, refl)

and_then-Ensures {ℓ κ μ ν} :
    {A : Type ℓ} {B : Type κ} (P : A → Type μ) (Q : B → Type ν) (a : Attempt A) (f : A → Attempt B)
    → Ensures P a
    → ((x : A) → P x → Ensures Q (f x))
    → Ensures Q (and_then a f)
and_then-Ensures P Q type_error f h k = tt
and_then-Ensures P Q (done a) f h k = k a h

-- `IsDrained` as a call on the rest of the queue leaves it.
IsDrained-rest :
    (item : List ℕ) (queue : List (List ℕ)) (c d : Connector) (result : Connector × Bool)
    → c.queued ≡ item ∷ queue
    → d.wire ≡ c.wire ++ item ∷ []
    → d.queued ≡ queue
    → IsDrained d result
    → IsDrained c result
IsDrained-rest item queue c d result e w q v = record {
  kept =
      v.kept
      ∙ ap (λ l. l ++ d.queued) w
      ∙ ap (λ l. (c.wire ++ item ∷ []) ++ l) q
      ∙ append_assoc c.wire (item ∷ []) queue
      ∙ ap (λ l. c.wire ++ l) (sym e);
  counted = v.counted;
  emptied = v.emptied;
}

Ensures-imp {ℓ κ μ} :
    {A : Type ℓ} (P : A → Type κ) (Q : A → Type μ) (a : Attempt A)
    → ((x : A) → P x → Q x)
    → Ensures P a
    → Ensures Q a
Ensures-imp P Q type_error f h = tt
Ensures-imp P Q (done a) f h = f a h

drain-IsDrained :
    (codec : Codec) (takes : List ℕ → Bool) (queue : List (List ℕ)) (c : Connector)
    → c.queued ≡ queue
    → c.queued_bytes ≡ total queue
    → Ensures (IsDrained c) (drain codec takes queue c)
unfolding drain send_raw
drain-IsDrained codec takes [] c e n = record {
  kept = refl;
  counted = ground (arith, e, n);
  emptied = inr e;
}
drain-IsDrained codec takes (item ∷ queue) c e n =
    let (r, role) = handle_agent c.engine codec item c.recovery in
    let popped = record c {
      queued = queue;
      queued_bytes = c.queued_bytes - length item;
      recovery = r;
    } in
    let taken = record popped { wire = c.wire ++ item ∷ [] } in
    if_keeps (Ensures (IsDrained c)) (takes item) _ _
      (and_then-Ensures (SameQueue taken) (IsDrained c) (note_sent item role taken)
        (λ next. drain codec takes queue next) (note_sent-same item role taken)
        (λ next same.
          Ensures-imp (IsDrained next) (IsDrained c) (drain codec takes queue next)
            (λ result v. IsDrained-rest item queue c next result e same.0 same.1 v)
            (drain-IsDrained codec takes queue next same.1 (same.2 ∙ omega (arith, n)))))
      (record {
        kept = ap (λ l. c.wire ++ l) (sym e);
        counted = omega (arith, n);
        emptied = inl refl;
      })

mark_up-IsDrained :
    (codec : Codec) (c : Connector) (a : Attempt (Connector × Bool))
    → Ensures (IsDrained c) a
    → Ensures (IsDrained c) (mark_up codec a)
mark_up-IsDrained codec c type_error h = tt
mark_up-IsDrained codec c (done (d, false)) h = h
mark_up-IsDrained codec c (done (d, true)) h = record {
  kept = h.kept;
  counted = h.counted;
  emptied = h.emptied;
}

-- The end of establishing a session loses no queued line and sends none twice or out of order: what the
-- wire and the queue hold together stays, whether the drain ends or the session dies on the way. The count
-- of the queued bytes stays exact, and the session is up only with an empty queue.
pub finish_session-IsDrained :
    (codec : Codec) (takes : List ℕ → Bool) (c : Connector)
    → c.queued_bytes ≡ total c.queued
    → Ensures (IsDrained c) (finish_session codec takes c)
unfolding finish_session
finish_session-IsDrained codec takes c n =
    mark_up-IsDrained codec c (drain codec takes c.queued c)
      (drain-IsDrained codec takes c.queued c refl n)

-- A line of the agent while the session is down.
pub record IsHeld (policy : Policy) (codec : Codec) (raw : List ℕ) (c d : Connector) : Type 0 where
  pub wire_kept : d.wire ≡ c.wire
  pub queue :
      (d.queued ≡ c.queued)
      ⊎ (((role_of_line policy (parse codec raw)).kind ≡ initialize)
          × (d.queued ≡ c.queued ++ raw ∷ []))
  pub unsent :
      (d.recovery.pending ≡ c.recovery.pending) × (d.recovery.uncertain ≡ c.recovery.uncertain)

-- What writing to the agent leaves alone.
abbrev pub SameRest : Connector → Connector → Type 0
SameRest c d = (d.wire ≡ c.wire) × (d.queued ≡ c.queued) × (d.recovery ≡ c.recovery)

SameRest-trans : (c d e : Connector) → SameRest c d → SameRest d e → SameRest c e
SameRest-trans c d e h k = (k.0 ∙ h.0, k.1 ∙ h.1, k.2 ∙ h.2)

write_stdout-same :
    (accepts : List (List ℕ) → List ℕ → Bool) (bytes : List ℕ) (c : Connector)
    → SameRest c (write_stdout accepts bytes c).0
unfolding write_stdout
write_stdout-same accepts bytes c =
    if_keeps {A = Connector × Bool} (λ r. SameRest c r.0) (accepts c.stdout bytes) _ _
      (refl, refl, refl) (refl, refl, refl)

pub write_payloads-same :
    (accepts : List (List ℕ) → List ℕ → Bool) (payloads : List (List ℕ)) (c : Connector)
    → SameRest c (write_payloads accepts payloads c)
unfolding write_payloads
write_payloads-same accepts [] c = (refl, refl, refl)
write_payloads-same accepts (payload ∷ payloads) c =
    let first = write_stdout-same accepts payload c in
    let written = (write_stdout accepts payload c).0 in
    if_keeps (SameRest c) (write_stdout accepts payload c).1 _ _
      (SameRest-trans c written (write_payloads accepts payloads written) first
        (write_payloads-same accepts payloads written))
      first

-- What is outstanding is no matter of the handshake or of failed ids.
abbrev SameSent : Recovery → Recovery → Type 0
SameSent r s = (s.pending ≡ r.pending) × (s.uncertain ≡ r.uncertain)

SameSent-trans : (r s t : Recovery) → SameSent r s → SameSent s t → SameSent r t
SameSent-trans r s t h k = (k.0 ∙ h.0, k.1 ∙ h.1)

cache-same :
    (raw : List ℕ) (kind : AgentKind) (id : Json) (r : Recovery) → SameSent r (cache raw kind id r)
unfolding cache
cache-same raw initialize id r = (refl, refl)
cache-same raw initialized id r = (refl, refl)
cache-same raw _ id r = (refl, refl)

settle-same :
    (policy : Policy) (codec : Codec) (reason : String) (unknown : Bool)
    (fresh : Attempt (List (Key × Json))) (r : Recovery)
    → Ensures (λ result. SameSent r result.0) (settle policy codec reason unknown fresh r)
unfolding settle
settle-same policy codec reason unknown type_error r = tt
settle-same policy codec reason unknown (done fresh) r = (refl, refl)

answer-IsHeld :
    (policy : Policy) (codec : Codec) (accepts : List (List ℕ) → List ℕ → Bool) (raw : List ℕ)
    (c d : Connector) (result : Attempt (Recovery × List (List ℕ)))
    → d.wire ≡ c.wire
    → d.queued ≡ c.queued
    → Ensures (λ x. SameSent c.recovery x.0) result
    → Ensures (IsHeld policy codec raw c) (answer accepts d result)
answer-IsHeld policy codec accepts raw c d type_error w q h = tt
answer-IsHeld policy codec accepts raw c d (done (r, payloads)) w q h =
    let same = write_payloads-same accepts payloads (record d { recovery = r }) in
    record {
      wire_kept = same.0 ∙ w;
      queue = inl (same.1 ∙ q);
      unsent = (ap (λ x. x.pending) same.2 ∙ h.0, ap (λ x. x.uncertain) same.2 ∙ h.1);
    }

publish_down-IsHeld :
    (codec : Codec) (accepts : List (List ℕ) → List ℕ → Bool) (raw : List ℕ) (kind : AgentKind)
    (c d : Connector)
    → (role_of_line c.engine (parse codec raw)).kind ≡ kind
    → d.wire ≡ c.wire
    → d.queued ≡ c.queued
    → SameSent c.recovery d.recovery
    → Ensures
        (IsHeld c.engine codec raw c)
        (publish_down codec accepts raw (role_of_line c.engine (parse codec raw)) kind d)
unfolding publish_down fail_once
publish_down-IsHeld codec accepts raw initialize c d e w q h = record {
  wire_kept = w;
  queue = inr (e, ap (λ l. l ++ raw ∷ []) q);
  unsent = h;
}
publish_down-IsHeld codec accepts raw request c d e w q h =
    answer-IsHeld c.engine codec accepts raw c d _ w q (
      Ensures-imp {A = Recovery × List (List ℕ)} (λ x. SameSent d.recovery x.0)
        (λ x. SameSent c.recovery x.0) _ (λ x same. SameSent-trans c.recovery d.recovery x.0 h same)
        (settle-same d.engine codec d.engine.unavailable_reason false _ d.recovery))
publish_down-IsHeld codec accepts raw _ c d e w q h = record {
  wire_kept = w;
  queue = inl q;
  unsent = h;
}

-- While the session is down, no line of the agent reaches the node and none counts as outstanding, and the
-- only lines that are kept for a later session are initialize requests: a business request is never
-- delayed into a later session.
pub publish_agent_line-IsHeld :
    (codec : Codec) (accepts : List (List ℕ) → List ℕ → Bool) (sent current : Bool) (raw : List ℕ)
    (c : Connector)
    → c.session_up && is_open c.sock ≡ false
    → Ensures (IsHeld c.engine codec raw c) (publish_agent_line codec accepts sent current raw c)
unfolding publish_agent_line handle_agent
publish_agent_line-IsHeld codec accepts sent current raw c down =
    let role = role_of_line c.engine (parse codec raw) in
    rw (down, publish_agent_line)
      (publish_down-IsHeld codec accepts raw role.kind c
        (record c { recovery = cache raw role.kind role.id c.recovery }) refl refl refl
        (cache-same raw role.kind role.id c.recovery))
