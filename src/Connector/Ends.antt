-- ===== src/Connector/Ends.antt =====
-- connector_core.py: the end of `_session_loop`, and `_stdin_loop`.
use win_wsl_mcp_bridge.Base.{
  ℕ, ◌==◌, Bool, false, List, [], ◌∷◌, ◌++◌, length, leb, ◌≡◌, if◌then◌else◌, refl, arith, ap, sym,
  ◌∙◌, Bool-cases, inl, inr,
}
use win_wsl_mcp_bridge.Engine.Payload.{Codec}
use win_wsl_mcp_bridge.Engine.Recovery.{Attempt, done, type_error}
use win_wsl_mcp_bridge.Connector.{Connector, and_then, on_session_lost, publish_agent_line}
use win_wsl_mcp_bridge.Connector.Session.{
  Session, max_line_bytes, attach, split_lines, with_rest, handle_lines, receive,
}

module _ (codec : Codec) (accepts : List (List ℕ) → List ℕ → Bool) where
  -- Behind the loop: the complete lines that are left are handled unless the answer to the replay is still
  -- awaited, and the session is lost.
  unfoldable pub end_session : Bool → Bool → List ℕ → Session → Connector → Attempt Connector
  end_session is_current sent buffer s c =
      if s.absorbing
      then on_session_lost codec accepts is_current c
      else and_then (handle_lines codec accepts sent (split_lines buffer).0 s c)
          (λ next. on_session_lost codec accepts is_current next.1)

  -- `sent` and `current` say for each line whether the node takes it and the session is still the same.
  unfoldable pub publish_lines :
      (List ℕ → Bool) → (List ℕ → Bool) → List (List ℕ) → Connector → Attempt Connector
  publish_lines sent current [] c = done c
  publish_lines sent current (raw ∷ lines) c =
      and_then
        (if leb (length raw) max_line_bytes
          then publish_agent_line codec accepts (sent raw) (current raw) raw c
          else done c)
        (λ next. publish_lines sent current lines next)

  abbrev pub with_partial : List ℕ → Attempt Connector → Attempt (List ℕ × Connector)
  with_partial rest type_error = type_error
  with_partial rest (done c) = done (rest, c)

  -- One read of the agent's input, with the bytes of a line that has not ended.
  unfoldable pub read_agent :
      (List ℕ → Bool) → (List ℕ → Bool) → List ℕ → List ℕ → Connector → Attempt (List ℕ × Connector)
  unfolding publish_lines
  read_agent sent current bytes unfinished c =
      let (lines, rest) = split_lines (unfinished ++ bytes) in
      with_partial rest (publish_lines sent current lines c)

attach-rest :
    (c : ℕ) (split : List (List ℕ) × List ℕ)
    → (c == 10) ≡ false
    → split_lines split.1 ≡ ([], split.1)
    → split_lines (attach c split).1 ≡ ([], (attach c split).1)
unfolding split_lines
attach-rest c ([], rest) h k = rw (h, k) refl
attach-rest c (line ∷ lines, rest) h k = k

-- What is left behind the last newline has no complete line.
pub rest-unended :
    (bytes : List ℕ) → split_lines (split_lines bytes).1 ≡ ([], (split_lines bytes).1)
unfolding split_lines
rest-unended [] = refl
rest-unended (c ∷ bytes) = elim (Bool-cases (c == 10)) [
  | inl h ↦ rw h (rest-unended bytes)
  | inr h ↦ rw h (attach-rest c (split_lines bytes) h (rest-unended bytes))
]

module _ (codec : Codec) (accepts : List (List ℕ) → List ℕ → Bool) where
  with_rest-rest :
      (rest : List ℕ) (a : Attempt (Session × Connector)) (next : List ℕ × (Session × Connector))
      → with_rest rest a ≡ done next
      → next.0 ≡ rest
  with_rest-rest rest type_error next h = cc
  with_rest-rest rest (done result) next h = ap (λ x. x.0) (sym (done_lem _ _ h))
    where
      done_lem : (x y : List ℕ × (Session × Connector)) → done x ≡ done y → x ≡ y
      done_lem x y k = cc

  -- The loop takes every complete line off its buffer before it reads on, so the second loop behind it,
  -- which is to deliver late lines, finds none: the end of the session is its loss, and no more.
  pub end_session-lost :
      (is_current sent : Bool) (chunk buffer : List ℕ) (s : Session) (c : Connector)
      (next : List ℕ × (Session × Connector))
      → receive codec accepts sent chunk buffer s c ≡ done next
      → end_session codec accepts is_current sent next.0 next.1.0 next.1.1
        ≡ on_session_lost codec accepts is_current next.1.1
  unfolding end_session receive handle_lines
  end_session-lost is_current sent chunk buffer s c next h =
      let left = with_rest-rest (split_lines (buffer ++ chunk)).1 _ next h in
      let none_left : (split_lines next.0).0 ≡ [] =
        ap (λ b. (split_lines b).0) left ∙ ap (λ p. p.0) (rest-unended (buffer ++ chunk)) in
      ground (arith, ap (λ l. handle_lines codec accepts sent l next.1.0 next.1.1) none_left)
