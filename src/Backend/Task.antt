-- ===== src/Backend/Task.antt =====
-- The methods of a `SharedBackend` as actions on its state. What a method changed before it raised stays
-- changed, so the state stands beside the error too.
use win_wsl_mcp_bridge.Base.{List, ◌∷◌, []}
use win_wsl_mcp_bridge.Backend.State.{Backend, Fault}

pub data Result {ℓ} (A : Type ℓ) : Type ℓ where
  ok : A → Result A
  err : Fault → Result A

abbrev pub Task : Type 0 → Type 0
Task A = Backend → Result A × Backend

module _ {A : Type 0} where
  unfoldable pub pure : A → Task A
  pure a b = (ok a, b)

  unfoldable pub raise : Fault → Task A
  raise fault b = (err fault, b)

  unfoldable pub reads : (Backend → A) → Task A
  reads f b = (ok (f b), b)

abbrev pub Step : Type 0
Step = Task (Unit {0})

unfoldable pub modify : (Backend → Backend) → Step
modify f b = (ok tt, f b)

module _ {A B : Type 0} where
  abbrev pub after : Result A → (A → Task B) → Task B
  after (ok a) f b = f a b
  after (err fault) f b = (err fault, b)

  infixl 5 ◌>>=◌ ◌>>◌
  unfoldable pub ◌>>=◌ : Task A → (A → Task B) → Task B
  ◌>>=◌ m f b = let (r, c) = m b in after r f c

  abbrev pub ◌>>◌ : Task A → Task B → Task B
  m >> n = m >>= λ _. n

-- `try: m except BridgeError`, where the handler is given the error
module _ {A : Type 0} where
  abbrev pub handled : Result A → (Fault → Task A) → Task A
  handled (ok a) f b = (ok a, b)
  handled (err fault) f b = f fault b

  unfoldable pub catch : Task A → (Fault → Task A) → Task A
  catch m f b = let (r, c) = m b in handled r f c

-- One step for each element, in order.
unfoldable pub each {ℓ} : {A : Type ℓ} → (A → Step) → List A → Step
each f [] = pure tt
each f (x ∷ xs) = let rest = each f xs in f x >> rest

-- What holds afterwards of every state that meets `P`, whether the action returns or raises.
pub record Ensures {ℓ} {A : Type 0} (P Q : Backend → Type ℓ) (m : Task A) : Type ℓ where
  pub at : (b : Backend) → P b → Q (m b).1
