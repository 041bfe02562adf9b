-- ===== src/Base/Pairs.antt =====
-- A Python dict keyed by pairs of texts, as an association list in insertion order.
use Prim.Native.String.{String}
use mathlib.Core.Path.{◌≡◌, refl}
use mathlib.Core.Logic.{◌↔◌}
use mathlib.Core.Bool.{Bool, true, ◌&&◌}
use mathlib.Core.Option.{Option, none, some}
use mathlib.Core.List.{List, [], ◌∷◌}
use native.Mathlib.Omega.{arith}
use text.Mathlib.TextEquality.{eq_iff}
use win_wsl_mcp_bridge.Base.Tests.{text_eq, if◌then◌else◌}
use win_wsl_mcp_bridge.Base.Lists.{All, All-imp}

abbrev pub Pair : Type 0
Pair = String × String

unfoldable pub pair_eq : Pair → Pair → Bool
pair_eq (a, b) (c, d) = text_eq a c && text_eq b d

pub pair_eq_iff : (p q : Pair) → (pair_eq p q ≡ true) ↔ (p ≡ q)
unfolding pair_eq
pair_eq_iff (a, b) (c, d) = ground (arith, eq_iff a c, eq_iff b d)

module _ {ℓ} {V : Type ℓ} where
  -- `d.get(p)`
  unfoldable pub find : Pair → List (Pair × V) → Option V
  find p [] = none
  find p ((q, v) ∷ d) = if pair_eq q p then some v else find p d

  -- `d[p] = v`
  unfoldable pub store : Pair → V → List (Pair × V) → List (Pair × V)
  store p v [] = (p, v) ∷ []
  store p v ((q, w) ∷ d) = if pair_eq q p then (q, v) ∷ d else (q, w) ∷ store p v d

  -- `d.pop(p, None)` without the value: a dict holds a key once
  unfoldable pub pop : Pair → List (Pair × V) → List (Pair × V)
  pop p [] = []
  pop p ((q, w) ∷ d) = if pair_eq q p then pop p d else (q, w) ∷ pop p d

  pub find-store :
      (p q : Pair) (v : V) (d : List (Pair × V))
      → find q (store p v d) ≡ (if pair_eq p q then some v else find q d)
  unfolding find store
  find-store p q v [] = refl
  find-store p q v ((r, w) ∷ d) =
      ground (arith, pair_eq_iff p q, pair_eq_iff r p, pair_eq_iff r q, find-store p q v d)

  pub find-pop :
      (p q : Pair) (d : List (Pair × V))
      → find q (pop p d) ≡ (if pair_eq p q then none else find q d)
  unfolding find pop
  find-pop p q [] = ground arith
  find-pop p q ((r, w) ∷ d) =
      ground (arith, pair_eq_iff p q, pair_eq_iff r p, pair_eq_iff r q, find-pop p q d)

  -- No key stands twice.
  abbrev pub Unique : List (Pair × V) → Type ℓ
  Unique [] = Unit
  Unique ((p, v) ∷ d) = (find p d ≡ none) × Unique d

  pub store-Unique : (p : Pair) (v : V) (d : List (Pair × V)) → Unique d → Unique (store p v d)
  unfolding find store
  store-Unique p v [] u = (refl, tt)
  store-Unique p v ((q, w) ∷ d) u =
      ground (arith, pair_eq_iff q p, pair_eq_iff p q, find-store p q v d, store-Unique p v d u.1)

  pub pop-Unique : (p : Pair) (d : List (Pair × V)) → Unique d → Unique (pop p d)
  unfolding find pop
  pop-Unique p [] u = tt
  pop-Unique p ((q, w) ∷ d) u = ground (arith, find-pop p q d, pop-Unique p d u.1)

  -- Every entry is found.
  pub Unique-found : (d : List (Pair × V)) → Unique d → All (λ e. find e.0 d ≡ some e.1) d
  unfolding find
  Unique-found [] u = tt
  Unique-found ((p, v) ∷ d) u = (
    ground (arith, pair_eq_iff p p),
    All-imp _ _ d (λ e h. ground (arith, pair_eq_iff p e.0, u.0, h)) (Unique-found d u.1),
  )
