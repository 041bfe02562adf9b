-- ===== src/Scheduling/Owners.antt =====
-- An `OrderedDict` keyed by the owner of a lane: a client's id, or `None` for the bridge itself.
use mathlib.Core.Path.{◌≡◌}
use win_wsl_mcp_bridge.Base.{
  ℕ, ◌+◌, String, refl, ◌↔◌, Bool, true, false, Option, none, some, List, [], ◌∷◌, ◌++◌, arith,
  eq_iff, text_eq, if◌then◌else◌, Option-cases, inl, inr, ap,
}

abbrev pub Owner : Type 0
Owner = Option String

unfoldable pub owner_eq : Owner → Owner → Bool
owner_eq none none = true
owner_eq (some a) (some b) = text_eq a b
owner_eq _ _ = false

pub owner_eq_iff : (a b : Owner) → (owner_eq a b ≡ true) ↔ (a ≡ b)
unfolding owner_eq
owner_eq_iff none none = ground arith
owner_eq_iff none (some b) = ground arith
owner_eq_iff (some a) none = ground arith
owner_eq_iff (some a) (some b) = ground (arith, eq_iff a b)

pub owner_eq_refl : (a : Owner) → owner_eq a a ≡ true
owner_eq_refl a = (owner_eq_iff a a).1 refl

module _ {ℓ} {V : Type ℓ} where
  unfoldable pub find : Owner → List (Owner × V) → Option V
  find o [] = none
  find o ((p, v) ∷ d) = if owner_eq p o then some v else find o d

  -- `d[o] = v`
  unfoldable pub store : Owner → V → List (Owner × V) → List (Owner × V)
  store o v [] = (o, v) ∷ []
  store o v ((p, w) ∷ d) = if owner_eq p o then (p, v) ∷ d else (p, w) ∷ store o v d

  -- `del d[o]`
  unfoldable pub delete : Owner → List (Owner × V) → List (Owner × V)
  delete o [] = []
  delete o ((p, w) ∷ d) = if owner_eq p o then d else (p, w) ∷ delete o d

  -- `d.move_to_end(o)`
  unfoldable pub move_to_end : Owner → List (Owner × V) → List (Owner × V)
  unfolding find delete
  move_to_end o d = elim (find o d) [ none ↦ d | some v ↦ delete o d ++ (o, v) ∷ [] ]

  abbrev pub Unique : List (Owner × V) → Type ℓ
  Unique [] = Unit
  Unique ((o, v) ∷ d) = (find o d ≡ none) × Unique d

  pub find-store :
      (o p : Owner) (v : V) (d : List (Owner × V))
      → find p (store o v d) ≡ (if owner_eq o p then some v else find p d)
  unfolding find store
  find-store o p v [] = refl
  find-store o p v ((q, w) ∷ d) =
      ground (arith, owner_eq_iff o p, owner_eq_iff q o, owner_eq_iff q p, find-store o p v d)

  pub find-delete :
      (o p : Owner) (d : List (Owner × V))
      → Unique d
      → find p (delete o d) ≡ (if owner_eq o p then none else find p d)
  unfolding find delete
  find-delete o p [] u = ground arith
  find-delete o p ((q, w) ∷ d) u =
      ground (arith, owner_eq_iff o p, owner_eq_iff q o, owner_eq_iff q p, find-delete o p d u.1)

  pub find-append :
      (p : Owner) (d e : List (Owner × V))
      → find p (d ++ e) ≡ elim (find p d) [ none ↦ find p e | some v ↦ some v ]
  unfolding find
  find-append p [] e = refl
  find-append p ((q, w) ∷ d) e = ground (arith, find-append p d e)

  pub store-Unique : (o : Owner) (v : V) (d : List (Owner × V)) → Unique d → Unique (store o v d)
  unfolding find store
  store-Unique o v [] u = (refl, tt)
  store-Unique o v ((p, w) ∷ d) u =
      ground (arith, owner_eq_iff p o, owner_eq_iff o p, find-store o p v d, store-Unique o v d u.1)

  pub delete-Unique : (o : Owner) (d : List (Owner × V)) → Unique d → Unique (delete o d)
  unfolding find delete
  delete-Unique o [] u = tt
  delete-Unique o ((p, w) ∷ d) u = ground (arith, find-delete o p d u.1, delete-Unique o d u.1)

  pub snoc-Unique :
      (o : Owner) (v : V) (d : List (Owner × V))
      → Unique d
      → find o d ≡ none
      → Unique (d ++ (o, v) ∷ [])
  unfolding find
  snoc-Unique o v [] u h = (refl, tt)
  snoc-Unique o v ((p, w) ∷ d) u h = ground (
    arith,
    owner_eq_iff p o,
    owner_eq_iff o p,
    find-append p d ((o, v) ∷ []),
    snoc-Unique o v d u.1,
  )

  pub move_to_end-Unique : (o : Owner) (d : List (Owner × V)) → Unique d → Unique (move_to_end o d)
  unfolding move_to_end
  move_to_end-Unique o d u = by_found (find o d)
    where
      by_found : (f : Option V) → Unique (elim f [ none ↦ d | some v ↦ delete o d ++ (o, v) ∷ [] ])
      by_found none = u
      by_found (some v) =
          snoc-Unique o v (delete o d) (delete-Unique o d u)
            (ground (arith, find-delete o o d u, owner_eq_refl o))

  pub find-move_to_end :
      (o p : Owner) (d : List (Owner × V)) → Unique d → find p (move_to_end o d) ≡ find p d
  unfolding move_to_end find
  find-move_to_end o p d u = elim (Option-cases (find o d)) [
    | inl e ↦ rw (e, move_to_end)
    | inr (v, e) ↦
        rw (e, move_to_end)
          (ground (
            arith,
            find-append p (delete o d) ((o, v) ∷ []),
            find-delete o p d u,
            owner_eq_iff o p,
          ))
  ]

-- The sum of a weight over the values.
module _ {ℓ} {V : Type ℓ} (w : V → ℕ) where
  abbrev pub sum : List (Owner × V) → ℕ
  sum [] = 0
  sum ((o, v) ∷ d) = w v + sum d

  abbrev pub weight_at : Option V → ℕ
  weight_at none = 0
  weight_at (some v) = w v

  pub sum-store :
      (o : Owner) (v : V) (d : List (Owner × V))
      → sum (store o v d) + weight_at (find o d) ≡ sum d + w v
  unfolding find store
  sum-store o v [] = omega arith
  sum-store o v ((p, x) ∷ d) = ground (arith, sum-store o v d)

  pub sum-delete :
      (o : Owner) (d : List (Owner × V)) → sum (delete o d) + weight_at (find o d) ≡ sum d
  unfolding find delete
  sum-delete o [] = omega arith
  sum-delete o ((p, x) ∷ d) = ground (arith, sum-delete o d)

  pub sum-append : (d e : List (Owner × V)) → sum (d ++ e) ≡ sum d + sum e
  sum-append [] e = omega arith
  sum-append ((p, x) ∷ d) e = omega (arith, sum-append d e)

  pub sum-move_to_end : (o : Owner) (d : List (Owner × V)) → sum (move_to_end o d) ≡ sum d
  unfolding move_to_end
  sum-move_to_end o d = elim (Option-cases (find o d)) [
    | inl e ↦ rw (e, move_to_end)
    | inr (v, e) ↦
        let weight : weight_at (find o d) ≡ w v = ap weight_at e in
        rw (e, move_to_end)
          (omega (arith, sum-append (delete o d) ((o, v) ∷ []), sum-delete o d, weight))
  ]
