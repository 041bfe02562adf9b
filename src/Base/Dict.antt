-- ===== src/Base/Dict.antt =====
-- A Python dict with text keys as an association list in insertion order.
use Prim.Native.Nat.{ℕ, ◌+◌, ◌≤◌}
use Prim.Native.String.{String}
use mathlib.Core.Path.{◌≡◌, refl}
use mathlib.Core.Bool.{Bool, true, false}
use mathlib.Core.Option.{Option, none, some}
use mathlib.Core.List.{List, [], ◌∷◌}
use native.Mathlib.Omega.{arith}
use text.Mathlib.TextEquality.{eq_iff}
use win_wsl_mcp_bridge.Base.Tests.{text_eq, if◌then◌else◌}
use win_wsl_mcp_bridge.Base.Lists.{length}

module _ {ℓ} {V : Type ℓ} where
  -- `d.get(k)`
  unfoldable pub lookup : String → List (String × V) → Option V
  lookup k [] = none
  lookup k ((j, v) ∷ d) = if text_eq j k then some v else lookup k d

  -- `k in d`
  unfoldable pub has : String → List (String × V) → Bool
  unfolding lookup
  has k d = elim (lookup k d) [ none ↦ false | some v ↦ true ]

  -- `d[k] = v`: a key that is there keeps its place
  unfoldable pub insert : String → V → List (String × V) → List (String × V)
  insert k v [] = (k, v) ∷ []
  insert k v ((j, w) ∷ d) = if text_eq j k then (j, v) ∷ d else (j, w) ∷ insert k v d

  -- `d.pop(k, None)` without the value
  unfoldable pub remove : String → List (String × V) → List (String × V)
  remove k [] = []
  remove k ((j, w) ∷ d) = if text_eq j k then d else (j, w) ∷ remove k d

  -- The same, whether a key may stand twice or not.
  unfoldable pub pop : String → List (String × V) → List (String × V)
  pop k [] = []
  pop k ((j, w) ∷ d) = if text_eq j k then pop k d else (j, w) ∷ pop k d

  pub lookup-pop :
      (k j : String) (d : List (String × V))
      → lookup j (pop k d) ≡ (if text_eq k j then none else lookup j d)
  unfolding lookup pop
  lookup-pop k j [] = ground arith
  lookup-pop k j ((i, w) ∷ d) = ground (arith, eq_iff k j, eq_iff i k, eq_iff i j, lookup-pop k j d)

  pub lookup-insert :
      (k j : String) (v : V) (d : List (String × V))
      → lookup j (insert k v d) ≡ (if text_eq k j then some v else lookup j d)
  unfolding lookup insert
  lookup-insert k j v [] = refl
  lookup-insert k j v ((i, w) ∷ d) =
      ground (arith, eq_iff k j, eq_iff i k, eq_iff i j, lookup-insert k j v d)

  -- A key that is there takes no more room.
  pub length-insert_old :
      (k : String) (v : V) (d : List (String × V))
      → has k d ≡ true
      → length (insert k v d) ≡ length d
  unfolding has insert
  length-insert_old k v [] h = ground arith
  length-insert_old k v ((j, w) ∷ d) h = ground (arith, length-insert_old k v d)

  pub length-insert-le :
      (k : String) (v : V) (d : List (String × V)) → length (insert k v d) ≤ length d + 1
  unfolding insert
  length-insert-le k v [] = omega arith
  length-insert-le k v ((j, w) ∷ d) = ground (arith, length-insert-le k v d)

  -- The keys in insertion order.
  abbrev pub keys : List (String × V) → List String
  keys [] = []
  keys ((k, v) ∷ d) = k ∷ keys d

  pub keys-insert_old :
      (k : String) (v : V) (d : List (String × V)) → has k d ≡ true → keys (insert k v d) ≡ keys d
  unfolding has insert
  keys-insert_old k v [] h = ground arith
  keys-insert_old k v ((j, w) ∷ d) h = ground (arith, keys-insert_old k v d)

  pub has-lookup :
      (k : String) (d : List (String × V)) {v : V} → lookup k d ≡ some v → has k d ≡ true
  unfolding has
  has-lookup k d h = rw (h, has)

-- The keys of a dict after a write depend on the keys before it alone.
pub keys-insert {ℓ κ} :
    {V : Type ℓ} {W : Type κ} (k : String) (v : V) (w : W) (d : List (String × V))
    (e : List (String × W))
    → keys d ≡ keys e
    → keys (insert k v d) ≡ keys (insert k w e)
unfolding insert
keys-insert k v w [] [] h = refl
keys-insert k v w [] (y ∷ e) h = cc
keys-insert k v w (x ∷ d) [] h = cc
keys-insert k v w ((j, x) ∷ d) ((i, y) ∷ e) h = ground (arith, keys-insert k v w d e)

pub length-keys {ℓ} : {V : Type ℓ} (d : List (String × V)) → length (keys d) ≡ length d
length-keys [] = refl
length-keys (x ∷ d) = omega (arith, length-keys d)

module _ {ℓ} {V : Type ℓ} where
  -- No key stands twice.
  abbrev pub Unique : List (String × V) → Type ℓ
  Unique [] = Unit
  Unique ((k, v) ∷ d) = (lookup k d ≡ none) × Unique d

  pub insert-Unique :
      (k : String) (v : V) (d : List (String × V)) → Unique d → Unique (insert k v d)
  unfolding lookup insert
  insert-Unique k v [] u = (refl, tt)
  insert-Unique k v ((j, w) ∷ d) u =
      ground (arith, eq_iff j k, eq_iff k j, lookup-insert k j v d, insert-Unique k v d u.1)

  pub lookup-remove :
      (k j : String) (d : List (String × V))
      → Unique d
      → lookup j (remove k d) ≡ (if text_eq k j then none else lookup j d)
  unfolding lookup remove
  lookup-remove k j [] u = ground arith
  lookup-remove k j ((i, w) ∷ d) u =
      ground (arith, eq_iff k j, eq_iff i k, eq_iff i j, lookup-remove k j d u.1)

  pub remove-Unique : (k : String) (d : List (String × V)) → Unique d → Unique (remove k d)
  unfolding lookup remove
  remove-Unique k [] u = tt
  remove-Unique k ((j, w) ∷ d) u = ground (arith, lookup-remove k j d u.1, remove-Unique k d u.1)

  -- A weight over the values, and what a write and a removal do to its sum.
  abbrev pub sum : (V → ℕ) → List (String × V) → ℕ
  sum w [] = 0
  sum w ((k, v) ∷ d) = w v + sum w d

  abbrev pub weight_at : (V → ℕ) → Option V → ℕ
  weight_at w none = 0
  weight_at w (some v) = w v

  pub sum-insert :
      (w : V → ℕ) (k : String) (v : V) (d : List (String × V))
      → sum w (insert k v d) + weight_at w (lookup k d) ≡ sum w d + w v
  unfolding lookup insert
  sum-insert w k v [] = omega arith
  sum-insert w k v ((j, x) ∷ d) = ground (arith, sum-insert w k v d)

  pub sum-remove :
      (w : V → ℕ) (k : String) (d : List (String × V))
      → sum w (remove k d) + weight_at w (lookup k d) ≡ sum w d
  unfolding lookup remove
  sum-remove w k [] = omega arith
  sum-remove w k ((j, x) ∷ d) = ground (arith, sum-remove w k d)

  pub length-sum : (d : List (String × V)) → length d ≡ sum (λ v. 1) d
  length-sum [] = refl
  length-sum (x ∷ d) = omega (arith, length-sum d)
