-- ===== src/Backend/Rules.antt =====
-- What actions on a `SharedBackend` ensure, one rule for each way to build an action.
use win_wsl_mcp_bridge.Base.{◌≡◌, refl, ap, Bool, true, false, List, [], ◌∷◌, if◌then◌else◌}
use win_wsl_mcp_bridge.Backend.State.{Backend, Fault}
use win_wsl_mcp_bridge.Backend.Task.{
  Result, ok, err, Task, Step, pure, raise, reads, modify, ◌>>=◌, catch, each, after, handled,
  Ensures,
}

module _ {ℓ} {A : Type 0} {P : Backend → Type ℓ} where
  pub Keeps-pure : (a : A) → Ensures P P (pure a)
  unfolding pure
  Keeps-pure a = record { at = λ b h. h }

  pub Keeps-raise : (fault : Fault) → Ensures P P (raise {A = A} fault)
  unfolding raise
  Keeps-raise fault = record { at = λ b h. h }

  pub Keeps-reads : (f : Backend → A) → Ensures P P (reads f)
  unfolding reads
  Keeps-reads f = record { at = λ b h. h }

module _ {ℓ} {A : Type 0} {P Q : Backend → Type ℓ} where
  pub Ensures-if :
      (c : Bool) (m n : Task A) → Ensures P Q m → Ensures P Q n → Ensures P Q (if c then m else n)
  Ensures-if true m n km kn = km
  Ensures-if false m n km kn = kn

  -- What holds after each state of the premise.
  pub Ensures-weaken :
      {R : Backend → Type ℓ} (m : Task A)
      → ((b : Backend) → P b → R b)
      → Ensures R Q m
      → Ensures P Q m
  Ensures-weaken m f k = record { at = λ b h. k.at b (f b h) }

  pub Ensures-then :
      {R : Backend → Type ℓ} (m : Task A)
      → ((b : Backend) → R b → Q b)
      → Ensures P R m
      → Ensures P Q m
  Ensures-then m f k = record { at = λ b h. f (m b).1 (k.at b h) }

pub Ensures-modify {ℓ} :
    {P Q : Backend → Type ℓ} (f : Backend → Backend)
    → ((b : Backend) → P b → Q (f b))
    → Ensures P Q (modify f)
unfolding modify
Ensures-modify f k = record { at = k }

module _ {ℓ} {A B : Type 0} {Q : Backend → Type ℓ} where
  after-Ensures :
      {R : Backend → Type ℓ} (r : Result A) (f : A → Task B) (c : Backend)
      → ((b : Backend) → R b → Q b)
      → ((a : A) → Ensures R Q (f a))
      → R c
      → Q (after r f c).1
  after-Ensures (ok a) f c weaken k h = (k a).at c h
  after-Ensures (err fault) f c weaken k h = weaken c h

module _ {ℓ} {A B : Type 0} {P Q : Backend → Type ℓ} where
  pub Ensures-bind :
      {R : Backend → Type ℓ} (m : Task A) (f : A → Task B)
      → ((b : Backend) → R b → Q b)
      → Ensures P R m
      → ((a : A) → Ensures R Q (f a))
      → Ensures P Q (m >>= f)
  unfolding ◌>>=◌
  Ensures-bind m f weaken km k = record {
    at = λ b h. let (r, c) = m b in after-Ensures r f c weaken k (km.at b h);
  }

  -- What is read is known to what follows.
  pub Ensures-reads :
      (g : Backend → A) (f : A → Task B)
      → ((a : A) → Ensures (λ b. P b × (g b ≡ a)) Q (f a))
      → Ensures P Q (reads g >>= f)
  unfolding ◌>>=◌ reads
  Ensures-reads g f k = record { at = λ b h. (k (g b)).at b (h, refl) }

module _ {ℓ} {A B : Type 0} {P : Backend → Type ℓ} where
  pub Keeps-bind :
      (m : Task A) (f : A → Task B)
      → Ensures P P m
      → ((a : A) → Ensures P P (f a))
      → Ensures P P (m >>= f)
  Keeps-bind m f km k = Ensures-bind m f (λ b h. h) km k

module _ {ℓ} {A : Type 0} {Q : Backend → Type ℓ} where
  handled-Ensures :
      {R : Backend → Type ℓ} (r : Result A) (f : Fault → Task A) (c : Backend)
      → ((b : Backend) → R b → Q b)
      → ((fault : Fault) → Ensures R Q (f fault))
      → R c
      → Q (handled r f c).1
  handled-Ensures (ok a) f c weaken k h = weaken c h
  handled-Ensures (err fault) f c weaken k h = (k fault).at c h

module _ {ℓ} {A : Type 0} {P Q : Backend → Type ℓ} where
  pub Ensures-catch :
      {R : Backend → Type ℓ} (m : Task A) (f : Fault → Task A)
      → ((b : Backend) → R b → Q b)
      → Ensures P R m
      → ((fault : Fault) → Ensures R Q (f fault))
      → Ensures P Q (catch m f)
  unfolding catch
  Ensures-catch m f weaken km k = record {
    at = λ b h. let (r, c) = m b in handled-Ensures r f c weaken k (km.at b h);
  }

pub Keeps-catch {ℓ} :
    {A : Type 0} {P : Backend → Type ℓ} (m : Task A) (f : Fault → Task A)
    → Ensures P P m
    → ((fault : Fault) → Ensures P P (f fault))
    → Ensures P P (catch m f)
Keeps-catch m f km k = Ensures-catch m f (λ b h. h) km k

pub Keeps-each {ℓ} :
    {A : Type 0} {P : Backend → Type ℓ} (f : A → Step) (xs : List A)
    → ((a : A) → Ensures P P (f a))
    → Ensures P P (each f xs)
unfolding each
Keeps-each f [] k = Keeps-pure tt
Keeps-each f (x ∷ xs) k = Keeps-bind (f x) (λ _. each f xs) (k x) (λ _. Keeps-each f xs k)

pub ruleset keeps_rules =
    (Keeps-pure, Keeps-raise, Keeps-reads, Ensures-if, Keeps-bind, Keeps-catch, Keeps-each)

-- What holds afterwards, by the value returned, or if the action raises.
abbrev pub Post {ℓ} :
    {A : Type 0} → (A → Backend → Type ℓ) → (Backend → Type ℓ) → Result A → Backend → Type ℓ
Post Q E (ok a) b = Q a b
Post Q E (err fault) b = E b

pub record Gives {ℓ} {A : Type 0} (P : Backend → Type ℓ) (Q : A → Backend → Type ℓ)
    (E : Backend → Type ℓ) (m : Task A) : Type ℓ where
  pub at : (b : Backend) → P b → Post Q E (m b).0 (m b).1

module _ {ℓ} {A : Type 0} {P E : Backend → Type ℓ} {Q : A → Backend → Type ℓ} where
  pub Gives-pure : (a : A) → ((b : Backend) → P b → Q a b) → Gives P Q E (pure a)
  unfolding pure
  Gives-pure a k = record { at = k }

  pub Gives-weaken :
      {R : Backend → Type ℓ} (m : Task A)
      → ((b : Backend) → P b → R b)
      → Gives R Q E m
      → Gives P Q E m
  Gives-weaken m f k = record { at = λ b h. k.at b (f b h) }

  pub Gives-if :
      (c : Bool) (m n : Task A) → Gives P Q E m → Gives P Q E n → Gives P Q E (if c then m else n)
  Gives-if true m n km kn = km
  Gives-if false m n km kn = kn

module _ {ℓ} {A B : Type 0} {E : Backend → Type ℓ} where
  after-Gives :
      {R : Backend → Type ℓ} {Q : B → Backend → Type ℓ} (r : Result A) (f : A → Task B)
      (c : Backend)
      → ((b : Backend) → R b → E b)
      → ((a : A) → Gives R Q E (f a))
      → R c
      → Post Q E (after r f c).0 (after r f c).1
  after-Gives (ok a) f c weaken k h = (k a).at c h
  after-Gives (err fault) f c weaken k h = weaken c h

  pub Gives-bind :
      {P R : Backend → Type ℓ} {Q : B → Backend → Type ℓ} (m : Task A) (f : A → Task B)
      → ((b : Backend) → R b → E b)
      → Ensures P R m
      → ((a : A) → Gives R Q E (f a))
      → Gives P Q E (m >>= f)
  unfolding ◌>>=◌
  Gives-bind m f weaken km k = record {
    at = λ b h. let (r, c) = m b in after-Gives r f c weaken k (km.at b h);
  }

  post-Ensures :
      {Q : A → Backend → Type ℓ} (r : Result A) (f : A → Task B) (c : Backend)
      → ((a : A) → Ensures (Q a) E (f a))
      → Post Q E r c
      → E (after r f c).1
  post-Ensures (ok a) f c k h = (k a).at c h
  post-Ensures (err fault) f c k h = h

  pub Ensures-Gives :
      {P : Backend → Type ℓ} {Q : A → Backend → Type ℓ} (m : Task A) (f : A → Task B)
      → Gives P Q E m
      → ((a : A) → Ensures (Q a) E (f a))
      → Ensures P E (m >>= f)
  unfolding ◌>>=◌
  Ensures-Gives m f km k = record {
    at = λ b h. let (r, c) = m b in post-Ensures r f c k (km.at b h);
  }

-- What follows an action that returns.
pub bind_ok :
    {A B : Type 0} (m : Task A) (f : A → Task B) (b d : Backend) (a : A)
    → m b ≡ (ok a, d)
    → (m >>= f) b ≡ f a d
unfolding ◌>>=◌
bind_ok m f b d a e = ap (λ r. after r.0 f r.1) e
