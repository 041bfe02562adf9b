-- ===== src/Connector/Session.antt =====
-- connector_core.py: the reader of a session, `_session_loop` and `_handle_node_line`.
use mathlib.Core.Path.{◌≡◌}
use win_wsl_mcp_bridge.Base.{
  ℕ, ◌*◌, ◌==◌, Bool, true, false, Option, none, some, List, [], ◌∷◌, ◌++◌, length, leb,
  if◌then◌else◌, refl, ap, sym, ◌∙◌, append_assoc, append-nil, Bool-cases, inl, inr,
}
use win_wsl_mcp_bridge.Engine.Payload.{Codec}
use win_wsl_mcp_bridge.Engine.Recovery.{
  Attempt, Ensures, done, type_error, Decision, NodeKind, absorb_done, agent,
}
use win_wsl_mcp_bridge.Engine.Recovery.Node.{handle_node}
use win_wsl_mcp_bridge.Connector.{Connector, write_stdout, send_raw, and_then}

-- `absorb_state` and `absorb_out`: whether the answer to the replay is awaited, and what is held back.
pub record Session : Type 0 where
  pub absorbing : Bool
  pub absorb_out : List ℕ

abbrev pub max_line_bytes : ℕ
max_line_bytes = 32 * 1024 * 1024

-- A byte before the bytes that were split.
abbrev pub attach : ℕ → List (List ℕ) × List ℕ → List (List ℕ) × List ℕ
attach c ([], rest) = ([], c ∷ rest)
attach c (line ∷ lines, rest) = ((c ∷ line) ∷ lines, rest)

-- The complete lines of the bytes, each with its newline, and the rest.
unfoldable pub split_lines : List ℕ → List (List ℕ) × List ℕ
split_lines [] = ([], [])
split_lines (c ∷ bytes) =
    let (lines, rest) = split_lines bytes in
    if c == 10 then ((c ∷ []) ∷ lines, rest) else attach c (lines, rest)

abbrev pub with_rest :
    List ℕ → Attempt (Session × Connector) → Attempt (List ℕ × (Session × Connector))
with_rest rest type_error = type_error
with_rest rest (done result) = done (rest, result)

module _ (codec : Codec) (accepts : List (List ℕ) → List ℕ → Bool) where
  unfoldable pub flush : List ℕ → Connector → Connector
  unfolding write_stdout
  flush [] c = c
  flush (b ∷ bytes) c = (write_stdout accepts (b ∷ bytes) c).0

  abbrev send_initialized : Bool → Option (List ℕ) → Connector → Connector
  send_initialized sent none c = c
  send_initialized sent (some raw) c = send_raw sent raw c

  -- The branches on the decision. `sent` says whether the node takes the initialized notification.
  unfoldable pub absorbed : Bool → List ℕ → NodeKind → Session → Connector → Session × Connector
  unfolding flush
  absorbed sent raw absorb_done s c = (
    record s { absorbing = false; absorb_out = [] },
    record (send_initialized sent c.recovery.initialized_raw (flush s.absorb_out c)) {
      ready = true;
    },
  )
  absorbed sent raw _ s c = (record s { absorb_out = s.absorb_out ++ raw }, c)

  unfoldable pub forwarded : Decision → Session → Connector → Session × Connector
  unfolding write_stdout
  forwarded d s c = elim d.kind [
    | agent ↦ elim d.payload [ none ↦ (s, c) | some bytes ↦ (s, (write_stdout accepts bytes c).0) ]
    | _ ↦ (s, c)
  ]

  abbrev decided : Bool → List ℕ → Session → Connector → Decision → Session × Connector
  decided sent raw s c d = if s.absorbing then absorbed sent raw d.kind s c else forwarded d s c

  unfoldable pub handle_node_line :
      Bool → List ℕ → Session → Connector → Attempt (Session × Connector)
  unfolding absorbed forwarded
  handle_node_line sent raw s c =
      and_then (handle_node c.engine codec raw s.absorbing c.recovery)
        (λ result. done (decided sent raw s (record c { recovery = result.0 }) result.1))

  -- The lines that are not too long, one after the other.
  unfoldable pub handle_lines :
      Bool → List (List ℕ) → Session → Connector → Attempt (Session × Connector)
  handle_lines sent [] s c = done (s, c)
  handle_lines sent (line ∷ lines) s c =
      and_then
        (if leb (length line) max_line_bytes then handle_node_line sent line s c else done (s, c))
        (λ next. handle_lines sent lines next.0 next.1)

  -- The body of the loop for a chunk, with the bytes of a line that has not ended.
  unfoldable pub receive :
      Bool → List ℕ → List ℕ → Session → Connector → Attempt (List ℕ × (Session × Connector))
  unfolding split_lines handle_lines handle_node_line
  receive sent chunk buffer s c =
      let (lines, rest) = split_lines (buffer ++ chunk) in
      with_rest rest (handle_lines sent lines s c)

  -- `while not self._shutdown` over the chunks that are read until the stream ends. A failed write shuts the connector
  -- down, but the lines of the chunk that was read are all handled.
  unfoldable pub session_loop :
      Bool → List (List ℕ) → List ℕ → Session → Connector → Attempt (List ℕ × (Session × Connector))
  unfolding receive
  session_loop sent [] buffer s c = done (buffer, (s, c))
  session_loop sent (chunk ∷ chunks) buffer s c =
      if c.shutdown
      then done (buffer, (s, c))
      else and_then (receive sent chunk buffer s c)
          (λ next. session_loop sent chunks next.0 next.1.0 next.1.1)

abbrev joined : List (List ℕ) × List ℕ → List ℕ → List (List ℕ) × List ℕ
joined (lines, rest) ys = let (more, last) = split_lines (rest ++ ys) in (lines ++ more, last)

attach-joined :
    (c : ℕ) (split : List (List ℕ) × List ℕ) (ys : List ℕ)
    → (c == 10) ≡ false
    → attach c (joined split ys) ≡ joined (attach c split) ys
unfolding split_lines
attach-joined c ([], rest) ys h = rw h refl
attach-joined c (line ∷ lines, rest) ys h = refl

-- Splitting what was joined splits the rest of the first part together with the second.
pub split_lines-append : (xs ys : List ℕ) → split_lines (xs ++ ys) ≡ joined (split_lines xs) ys
unfolding split_lines
split_lines-append [] ys = refl
split_lines-append (c ∷ xs) ys = elim (Bool-cases (c == 10)) [
  | inl h ↦ rw h (ap (λ p. ((c ∷ []) ∷ p.0, p.1)) (split_lines-append xs ys))
  | inr h ↦ rw h (ap (attach c) (split_lines-append xs ys) ∙ attach-joined c (split_lines xs) ys h)
]

and_then-split {ℓ κ μ} :
    {A : Type ℓ} {B : Type κ} {C : Type μ} (a : Attempt A) (f : A → Attempt C) (g : A → Attempt B)
    (h : B → Attempt C)
    → ((x : A) → f x ≡ and_then (g x) h)
    → and_then a f ≡ and_then (and_then a g) h
and_then-split type_error f g h e = refl
and_then-split (done a) f g h e = e a

module _ (codec : Codec) (accepts : List (List ℕ) → List ℕ → Bool) (sent : Bool) where
  handle_lines-append :
      (xs ys : List (List ℕ)) (s : Session) (c : Connector)
      → handle_lines codec accepts sent (xs ++ ys) s c
        ≡ and_then
            (handle_lines codec accepts sent xs s c)
            (λ next. handle_lines codec accepts sent ys next.0 next.1)
  unfolding handle_lines
  handle_lines-append [] ys s c = refl
  handle_lines-append (line ∷ xs) ys s c =
      and_then-split _ _ _ _ (λ next. handle_lines-append xs ys next.0 next.1)

  abbrev run :
      List (List ℕ) × List ℕ → Session → Connector → Attempt (List ℕ × (Session × Connector))
  run (lines, rest) s c = with_rest rest (handle_lines codec accepts sent lines s c)

  run-joined :
      (split : List (List ℕ) × List ℕ) (b : List ℕ) (s : Session) (c : Connector)
      → run (joined split b) s c
        ≡ and_then (run split s c) (λ next. receive codec accepts sent b next.0 next.1.0 next.1.1)
  unfolding receive
  run-joined (lines, rest) b s c =
      let (more, last) = split_lines (rest ++ b) in
      ap (with_rest last) (handle_lines-append lines more s c)
      ∙ after_lines (handle_lines codec accepts sent lines s c)
    where
      after_lines :
          (first : Attempt (Session × Connector))
          → with_rest (split_lines (rest ++ b)).1 (
              and_then first
                (λ next. handle_lines codec accepts sent (split_lines (rest ++ b)).0 next.0 next.1))
            ≡ and_then
                (with_rest rest first)
                (λ next. receive codec accepts sent b next.0 next.1.0 next.1.1)
      after_lines type_error = refl
      after_lines (done next) = refl

  pub receive-append :
      (a b buffer : List ℕ) (s : Session) (c : Connector)
      → receive codec accepts sent (a ++ b) buffer s c
        ≡ and_then
            (receive codec accepts sent a buffer s c)
            (λ next. receive codec accepts sent b next.0 next.1.0 next.1.1)
  unfolding receive
  receive-append a b buffer s c =
      ap (λ p. run p s c)
        (ap split_lines (sym (append_assoc buffer a b)) ∙ split_lines-append (buffer ++ a) b)
      ∙ run-joined (split_lines (buffer ++ a)) b s c

  abbrev IsOpen : Attempt (List ℕ × (Session × Connector)) → Type 0
  IsOpen result = Ensures (λ next. next.1.1.shutdown ≡ false) result

  -- The bytes of the chunks.
  abbrev pub bytes_of : List (List ℕ) → List ℕ
  bytes_of [] = []
  bytes_of (chunk ∷ chunks) = chunk ++ bytes_of chunks

  spread :
      (first : Attempt (List ℕ × (Session × Connector)))
      (f g : List ℕ × (Session × Connector) → Attempt (List ℕ × (Session × Connector)))
      → IsOpen (and_then first f)
      → ((next : List ℕ × (Session × Connector)) → IsOpen (f next) → f next ≡ g next)
      → and_then first f ≡ and_then first g
  spread type_error f g up e = refl
  spread (done next) f g up e = e next up

  and_then-done :
      (first : Attempt (List ℕ × (Session × Connector)))
      → and_then first (λ next. done (next.0, (next.1.0, next.1.1))) ≡ first
  and_then-done type_error = refl
  and_then-done (done next) = refl

  by_guard :
      (shutdown : Bool) (now : List ℕ × (Session × Connector))
      (rest goal : Attempt (List ℕ × (Session × Connector)))
      → now.1.1.shutdown ≡ shutdown
      → IsOpen (if shutdown then done now else rest)
      → (IsOpen rest → rest ≡ goal)
      → (if shutdown then done now else rest) ≡ goal
  by_guard true now rest goal e up k = cc
  by_guard false now rest goal e up k = k up

  -- However the bytes of a session are cut into chunks, its lines are handled alike: the loop does to the chunks what
  -- its body does to their bytes as one chunk, an error included, where the connector is not shut down at its end.
  pub session_loop-joined :
      (chunk : List ℕ) (chunks : List (List ℕ)) (buffer : List ℕ) (s : Session) (c : Connector)
      → Ensures
          (λ next. next.1.1.shutdown ≡ false)
          (session_loop codec accepts sent (chunk ∷ chunks) buffer s c)
      → session_loop codec accepts sent (chunk ∷ chunks) buffer s c
        ≡ receive codec accepts sent (chunk ++ bytes_of chunks) buffer s c
  unfolding session_loop
  session_loop-joined chunk [] buffer s c up =
      by_guard c.shutdown (buffer, (s, c)) _ _ refl up
        (λ o.
          and_then-done (receive codec accepts sent chunk buffer s c)
          ∙ ap (λ bytes. receive codec accepts sent bytes buffer s c) (sym (append-nil chunk)))
  session_loop-joined chunk (more ∷ chunks) buffer s c up =
      by_guard c.shutdown (buffer, (s, c)) _ _ refl up
        (λ o.
          spread (receive codec accepts sent chunk buffer s c) _ _ o
            (λ next p. session_loop-joined more chunks next.0 next.1.0 next.1.1 p)
          ∙ sym (receive-append chunk (bytes_of (more ∷ chunks)) buffer s c))
