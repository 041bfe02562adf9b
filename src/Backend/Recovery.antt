-- ===== src/Backend/Recovery.antt =====
-- `SharedBackend._recover_after_exit`: the loop of attempts ends.
use win_wsl_mcp_bridge.Base.{
  ◌∙◌, ℕ, zero, suc, ◌+◌, ◌<◌, Bool, true, false, Option, none, some, ◌≡◌, inl, inr, refl, arith,
  ltb, if◌then◌else◌, Bool-cases,
}
use win_wsl_mcp_bridge.Json.{Fields}
use win_wsl_mcp_bridge.Backend.State.{Backend}
use win_wsl_mcp_bridge.Backend.Task.{Result, ok, pure, reads, modify, ◌>>=◌}
use win_wsl_mcp_bridge.Backend.Requests.{is_running}
use win_wsl_mcp_bridge.Backend.Lifecycle.{refresh_entry_if_exited, start_next, is_exited}
use win_wsl_mcp_bridge.Backend.Exit.{
  Recovery, superseded, retrying, due, recovery_due, recovery_round, recovery_max_attempts,
  may_recover,
}

-- What the loop meets. At each attempt, told by the fuel that is left: the node's drain before the delay and after it,
-- and the launch configuration. `sleep` is what the other tasks do during the delay, and `start` what becomes of a new
-- generation: whether it started, and the state after its failure was dealt with.
pub record Course : Type 0 where
  pub armed : ℕ → Bool
  pub armed_later : ℕ → Bool
  pub process_config : ℕ → Fields
  pub sleep : Backend → Backend
  pub start : Backend → Bool × Backend

-- The fuel is a number of rounds; without it there is no answer.
module _ (c : Course) where
  abbrev continued :
      Result Recovery → Backend → (Backend → Option Bool × Backend) → Option Bool × Backend
  continued (ok superseded) b go = (some (is_running b.state), b)
  continued (ok retrying) b go =
      let (started, d) = c.start b in if started then (some true, d) else go d
  continued _ b go = (some false, b)

  -- What follows the tests before the delay.
  abbrev delayed :
      ℕ → Result Recovery → Backend → (Backend → Option Bool × Backend) → Option Bool × Backend
  delayed n (ok (due attempt)) b go =
      let (r, d) = recovery_round (c.armed_later n) attempt (c.process_config n) (c.sleep b) in
      continued r d go
  delayed n _ b go = (some false, b)

  unfoldable pub recover_after_exit : ℕ → Backend → Option Bool × Backend
  unfolding recovery_round
  recover_after_exit zero b = (none, b)
  recover_after_exit (suc n) b =
      let go = recover_after_exit n in let (r, d) = recovery_due (c.armed n) b in delayed n r d go

  -- What the tests before the delay say of the number of the attempt.
  abbrev IsDue : ℕ → Result Recovery → Type 0
  IsDue failures r =
      (attempt : ℕ)
      → r ≡ ok (due attempt)
      → (attempt ≡ failures + 1) × (failures < recovery_max_attempts)

  recovery_due-IsDue :
      (armed : Bool) (b : Backend) → IsDue b.recovery_failures (recovery_due armed b).0
  unfolding recovery_due reads pure ◌>>=◌
  recovery_due-IsDue armed b = elim (Bool-cases (ltb b.recovery_failures recovery_max_attempts)) [
    | inr e ↦ rw e (λ attempt h. cc)
    | inl e ↦ rw e (elim (Bool-cases (may_recover armed b)) [
      | inr k ↦ rw k (λ attempt h. cc)
      | inl k ↦ rw k (λ attempt h. (cc, ground arith))
    ])
  ]

  -- A round that goes on has set the count to the number of its attempt.
  round-count :
      (armed : Bool) (attempt : ℕ) (p : Fields) (b : Backend)
      → (recovery_round armed attempt p b).0 ≡ ok retrying
      → (recovery_round armed attempt p b).1.recovery_failures ≡ attempt
  unfolding recovery_round reads pure modify ◌>>=◌ refresh_entry_if_exited start_next
  round-count armed attempt p b = elim (Bool-cases (may_recover armed b)) [
    | inr k ↦ rw k (λ h. cc)
    | inl k ↦ rw k (elim (Bool-cases (is_exited b.state)) [
      | inr e ↦ rw e (λ h. cc)
      | inl e ↦ rw (e, e) (λ h. refl)
    ])
  ]

  abbrev pub IsOver : Option Bool × Backend → Type 0
  IsOver r = (answer : Bool) × (r.0 ≡ some answer)

  continued-IsOver :
      (go : Backend → Option Bool × Backend) (attempt : ℕ) (r : Result Recovery) (b : Backend)
      → ((d : Backend) → (c.start d).1.recovery_failures ≡ d.recovery_failures)
      → (r ≡ ok retrying → b.recovery_failures ≡ attempt)
      → ((d : Backend) → d.recovery_failures ≡ attempt → IsOver (go d))
      → IsOver (continued r b go)
  continued-IsOver go attempt (ok superseded) b keeps count h = (_, refl)
  continued-IsOver go attempt (ok retrying) b keeps count h = elim (Bool-cases (c.start b).0) [
    | inl e ↦ rw e (true, refl)
    | inr e ↦ rw e (h (c.start b).1 (keeps b ∙ count refl))
  ]
  continued-IsOver go attempt _ b keeps count h = (_, refl)

  delayed-IsOver :
      (n failures : ℕ) (go : Backend → Option Bool × Backend) (r : Result Recovery) (b : Backend)
      → ((d : Backend) → (c.start d).1.recovery_failures ≡ d.recovery_failures)
      → IsDue failures r
      → ((d : Backend)
          → d.recovery_failures ≡ failures + 1
          → failures < recovery_max_attempts
          → IsOver (go d))
      → IsOver (delayed n r b go)
  delayed-IsOver n failures go (ok (due attempt)) b keeps d h =
      let (one_more, below) = d attempt refl in
      let (r, b') = recovery_round (c.armed_later n) attempt (c.process_config n) (c.sleep b) in
      continued-IsOver go attempt r b' keeps
        (round-count (c.armed_later n) attempt (c.process_config n) (c.sleep b))
        (λ e same. h e (same ∙ one_more) below)
  delayed-IsOver n failures go _ b keeps d h = (_, refl)

  recovers :
      (n : ℕ) (b : Backend)
      → ((d : Backend) → (c.start d).1.recovery_failures ≡ d.recovery_failures)
      → recovery_max_attempts < suc n + b.recovery_failures
      → IsOver (recover_after_exit (suc n) b)
  unfolding recover_after_exit
  recovers zero b keeps enough =
      delayed-IsOver zero b.recovery_failures (recover_after_exit zero) _ _ keeps
        (recovery_due-IsDue (c.armed zero) b) (λ d same below. absurd (omega arith))
  recovers (suc n) b keeps enough =
      delayed-IsOver (suc n) b.recovery_failures (recover_after_exit (suc n)) _ _ keeps
        (recovery_due-IsDue (c.armed (suc n)) b) (λ d same below. recovers n d keeps (omega arith))

  -- The loop of attempts to recover ends, from every state and however the attempts, the delays and the node's drain
  -- go: with fuel for one round more than `SHARED_BACKEND_RECOVERY_MAX_ATTEMPTS` it returns an answer. It is assumed
  -- that what runs while a generation starts leaves the count of failures alone.
  pub recover_after_exit-IsOver :
      (n : ℕ) (b : Backend)
      → ((d : Backend) → (c.start d).1.recovery_failures ≡ d.recovery_failures)
      → recovery_max_attempts < n
      → IsOver (recover_after_exit n b)
  recover_after_exit-IsOver zero b keeps enough = absurd (omega arith)
  recover_after_exit-IsOver (suc n) b keeps enough = recovers n b keeps (omega arith)
