-- ===== src/Connector/Loss.antt =====
-- connector_core.py: `_on_session_lost`.
use win_wsl_mcp_bridge.Base.{
  ℕ, ◌+◌, String, Bool, true, false, ◌||◌, Option, none, List, [], ◌∷◌, ◌++◌, ◌≡◌, map, arith, refl,
  ap, ◌∙◌, if◌then◌else◌,
}
use win_wsl_mcp_bridge.Json.{Json, Key}
use win_wsl_mcp_bridge.Json.Keys.{contains}
use win_wsl_mcp_bridge.Engine.Payload.{Codec, error_payload}
use win_wsl_mcp_bridge.Engine.Recovery.{done, quiescent, failed_message}
use win_wsl_mcp_bridge.Engine.Recovery.Failing.{
  fail_once, fresh_ids, settle, mark_failed, lost_requests,
}
use win_wsl_mcp_bridge.Engine.Recovery.Outstanding.{IsTidy, IsOutstanding}
use win_wsl_mcp_bridge.Engine.Recovery.Sifting.{unfailed}
use win_wsl_mcp_bridge.Engine.Recovery.Sifting.Times.{times, held}
use win_wsl_mcp_bridge.Engine.Recovery.Losses.{loss_settles}
use win_wsl_mcp_bridge.Connector.{
  Connector, write_stdout, write_payloads, answer, fail_lost, mark_lost, on_session_lost,
}
use win_wsl_mcp_bridge.Connector.Handshake.{write_payloads-same}

module _ (codec : Codec) (accepts : List (List ℕ) → List ℕ → Bool) where
  -- What the agent has after the errors were written, as far as it takes them.
  unfoldable pub told : List (List ℕ) → List (List ℕ) → List (List ℕ)
  told [] out = out
  told (payload ∷ payloads) out =
      let rest = told payloads (out ++ payload ∷ []) in if accepts out payload then rest else out

  -- A connector after the loss of its session.
  pub record IsFailed (c d : Connector) : Type 0 where
    pub down : d.session_up ≡ false
    pub noticed : d.lost ≡ true
    pub nothing_left : quiescent d.recovery ≡ true
    pub all_failed : (k : Key) → IsOutstanding k c.recovery → contains k d.recovery.failed ≡ true
    pub told_each :
        (k : Key)
        → times k (unfailed c.recovery.failed (lost_requests c.recovery).1) ≡ (
            if contains k c.recovery.failed
            then 0
            else held k c.recovery.pending + held k c.recovery.uncertain)
    pub answered :
        d.stdout
        ≡ told
            (map
              (λ id.
                error_payload codec id
                  (failed_message c.engine c.engine.lost_reason c.recovery)
                  true)
              (unfailed c.recovery.failed (lost_requests c.recovery).1))
            c.stdout

  write_payloads-told :
      (payloads : List (List ℕ)) (c : Connector)
      → ((write_payloads accepts payloads c).stdout ≡ told payloads c.stdout)
        × ((write_payloads accepts payloads c).session_up ≡ c.session_up)
  unfolding write_payloads write_stdout told
  write_payloads-told [] c = (refl, refl)
  write_payloads-told (payload ∷ payloads) c =
      let rest = write_payloads-told payloads (record c { stdout = c.stdout ++ payload ∷ [] }) in
      ground arith

  -- The state that the errors are made from.
  abbrev drained : Bool → Connector → Connector
  drained is_current c = record c {
    sock = if is_current then none else c.sock;
    session_up = false;
    recovery = (lost_requests c.recovery).0;
  }

  fail_lost_lem :
      (ids : List (Json × Option String)) (c : Connector)
      → fail_lost codec accepts ids c
        ≡ answer accepts c (fail_once c.engine codec ids c.engine.lost_reason true c.recovery)
  unfolding fail_lost fail_once fresh_ids settle mark_failed write_payloads
  fail_lost_lem [] c = refl
  fail_lost_lem (id ∷ ids) c = refl

  -- The loss of a session that the agent still needs raises nothing. The session is down, the loss is
  -- noticed and nothing is outstanding; every id that was is marked failed. The agent was told, as far as it
  -- takes what is written, of each entry of the pending and then of the uncertain requests whose id had not failed
  -- before: once of an id that only one of the two tables holds, twice of an id that both hold.
  pub on_session_lost-IsFailed :
      (is_current : Bool) (c : Connector)
      → IsTidy c.recovery
      → c.eof_close || c.shutdown ≡ false
      → (d : Connector) × (on_session_lost codec accepts is_current c ≡ done d) × IsFailed c d
  unfolding on_session_lost
  on_session_lost-IsFailed is_current c tidy wanted =
      let v = loss_settles c.engine codec c.engine.lost_reason c.recovery tidy in
      let base = record (drained is_current c) { recovery = v.after } in
      let written = write_payloads accepts v.payloads base in
      let told_lem = write_payloads-told v.payloads base in
      let same = (write_payloads-same accepts v.payloads base).2 in
      (
        record written { lost = true },
        rw (wanted, on_session_lost)
            (ap (mark_lost codec accepts) (
              fail_lost_lem (lost_requests c.recovery).1 (drained is_current c)
              ∙ ap (answer accepts (drained is_current c)) v.failing)),
        record {
          down = told_lem.1;
          noticed = refl;
          nothing_left = ap quiescent same ∙ v.nothing_left;
          all_failed = λ k o. ap (λ r. contains k r.failed) same ∙ v.all_failed k o;
          told_each = v.told_each;
          answered = told_lem.0 ∙ ap (λ p. told p c.stdout) v.answered;
        },
      )
