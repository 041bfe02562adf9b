-- ===== src/Connector/Engines/Newest.antt =====
-- `_scan_engine_dir` loads the newest engine that passes every check.
use win_wsl_mcp_bridge.Base.{
  ℕ, true, false, Option, none, some, List, [], ◌∷◌, ◌≡◌, ◌⊎◌, inl, inr, refl, sym, ap, subst, ◌∙◌,
  arith, if◌then◌else◌, Bool-cases, All,
}
use win_wsl_mcp_bridge.Connector.Engines.{
  Host, Module, Found, Candidate, key, lex_le, insert_desc, sort_desc, try_manifest, chosen,
  first_verified, list_manifests, scan_engine_dir, max_engine_candidates, of_manifests,
}

lex_le-total : (xs ys : List ℕ) → lex_le xs ys ≡ false → lex_le ys xs ≡ true
unfolding lex_le
lex_le-total [] ys e = ground arith
lex_le-total (x ∷ xs) [] e = refl
lex_le-total (x ∷ xs) (y ∷ ys) e = ground (arith, lex_le-total xs ys)

lex_le_trans : (xs ys zs : List ℕ) → lex_le xs ys ≡ true → lex_le ys zs ≡ true → lex_le xs zs ≡ true
unfolding lex_le
lex_le_trans [] ys zs e f = refl
lex_le_trans (x ∷ xs) [] zs e f = ground arith
lex_le_trans (x ∷ xs) (y ∷ ys) [] e f = ground arith
lex_le_trans (x ∷ xs) (y ∷ ys) (z ∷ zs) e f = ground (arith, lex_le_trans xs ys zs)

abbrev pub IsAtMost : Found → Found → Type 0
IsAtMost g f = lex_le (key g) (key f) ≡ true

-- The newest first.
abbrev IsSorted : List Found → Type 0
IsSorted [] = Unit
IsSorted (f ∷ fs) = All (λ g. IsAtMost g f) fs × IsSorted fs

All-trans :
    (f g : Found) (fs : List Found)
    → IsAtMost f g
    → All (λ x. IsAtMost x f) fs
    → All (λ x. IsAtMost x g) fs
All-trans f g [] e h = tt
All-trans f g (x ∷ fs) e h = (lex_le_trans (key x) (key f) (key g) h.0 e, All-trans f g fs e h.1)

All-insert :
    (P : Found → Type 0) (f : Found) (gs : List Found) → P f → All P gs → All P (insert_desc f gs)
unfolding insert_desc
All-insert P f [] p h = (p, tt)
All-insert P f (g ∷ gs) p h = elim (Bool-cases (lex_le (key g) (key f))) [
  | inl e ↦ rw e (p, h)
  | inr e ↦ rw e (h.0, All-insert P f gs p h.1)
]

insert-IsSorted : (f : Found) (gs : List Found) → IsSorted gs → IsSorted (insert_desc f gs)
unfolding insert_desc
insert-IsSorted f [] h = (tt, tt)
insert-IsSorted f (g ∷ gs) h = elim (Bool-cases (lex_le (key g) (key f))) [
  | inl e ↦ rw e ((e, All-trans g f gs e h.0), h)
  | inr e ↦ rw e (
    All-insert (λ x. IsAtMost x g) f gs (lex_le-total (key g) (key f) e) h.0,
    insert-IsSorted f gs h.1,
  )
]

sort-IsSorted : (fs : List Found) → IsSorted (sort_desc fs)
unfolding sort_desc
sort-IsSorted [] = tt
sort-IsSorted (f ∷ fs) = insert-IsSorted f (sort_desc fs) (sort-IsSorted fs)

module _ (P : Found → Type 0) (f g : Found) (gs rest : List Found) where
  abbrev AtInsert : Type 0
  AtInsert = All P (if lex_le (key g) (key f) then f ∷ g ∷ gs else g ∷ rest)

  un-front : lex_le (key g) (key f) ≡ true → AtInsert → P f × All P (g ∷ gs)
  un-front e = rw e (λ k. k)

  un-later :
      (All P rest → P f × All P gs)
      → lex_le (key g) (key f) ≡ false
      → AtInsert
      → P f × All P (g ∷ gs)
  un-later un e = rw e (λ k. let (p, ps) = un k.1 in (p, (k.0, ps)))

un-insert :
    (P : Found → Type 0) (f : Found) (gs : List Found) → All P (insert_desc f gs) → P f × All P gs
unfolding insert_desc
un-insert P f [] k = k
un-insert P f (g ∷ gs) k =
    let un = un-insert P f gs in
    elim (Bool-cases (lex_le (key g) (key f))) [
      | inl e ↦ un-front P f g gs (insert_desc f gs) e k
      | inr e ↦ un-later P f g gs (insert_desc f gs) un e k
    ]

un-sort : (P : Found → Type 0) (fs : List Found) → All P (sort_desc fs) → All P fs
unfolding sort_desc
un-sort P [] k = tt
un-sort P (f ∷ fs) k = let (p, ps) = un-insert P f (sort_desc fs) k in (p, un-sort P fs ps)

module _ (h : Host) where
  -- A manifest that passes the checks is no newer than the one chosen.
  abbrev pub IsOlder : Found → Found → Type 0
  IsOlder f g = (m : Module) → try_manifest h g ≡ some m → IsAtMost g f

  lex_le_refl : (xs : List ℕ) → lex_le xs xs ≡ true
  unfolding lex_le
  lex_le_refl [] = refl
  lex_le_refl (x ∷ xs) = ground (arith, lex_le_refl xs)

  All-IsOlder :
      (f : Found) (fs : List Found) → All (λ g. IsAtMost g f) fs → All (λ g. IsOlder f g) fs
  All-IsOlder f [] k = tt
  All-IsOlder f (g ∷ fs) k = (λ m e. k.0, All-IsOlder f fs k.1)

  abbrev Chosen : Found → Module → List Found → Type 0
  Chosen f m fs = (try_manifest h f ≡ some m) × All (λ g. IsOlder f g) fs

  apart : {A : Type 0} {x : Option A} {a : A} → x ≡ some a → x ≡ none → ⊥
  apart e k = cc

  abbrev found_or : Found → Option (Found × Module) → Found
  found_or g none = g
  found_or g (some p) = p.0

  abbrev module_or : Module → Option (Found × Module) → Module
  module_or n none = n
  module_or n (some p) = p.1

  by_try :
      (g : Found) (fs : List Found) (f : Found) (m : Module) (o : Option Module)
      → All (λ x. IsAtMost x g) fs
      → (first_verified h fs ≡ some (f, m) → Chosen f m fs)
      → try_manifest h g ≡ o
      → chosen h g o (first_verified h fs) ≡ some (f, m)
      → Chosen f m (g ∷ fs)
  by_try g fs f m none s rest t e =
      let (found, older) = rest e in (found, ((λ n k. absurd (apart k t)), older))
  by_try g fs f m (some n) s rest t e =
      let same : g ≡ f = ap (found_or g) e in
      let made : n ≡ m = ap (module_or n) e in
      (
        subst (λ x. try_manifest h x ≡ some m) same (t ∙ ap some made),
        subst (λ x. All (λ y. IsOlder x y) (g ∷ fs)) same
            ((λ k l. lex_le_refl (key g)), All-IsOlder g fs s),
      )

  first-IsNewest :
      (fs : List Found) (f : Found) (m : Module)
      → IsSorted fs
      → first_verified h fs ≡ some (f, m)
      → Chosen f m fs
  unfolding first_verified
  first-IsNewest [] f m s e = cc
  first-IsNewest (g ∷ fs) f m s e =
      let rest = first-IsNewest fs f m s.1 in by_try g fs f m (try_manifest h g) s.0 rest refl e

  abbrev scanned : Option (Option (Found × Module)) → Option (Found × Module)
  scanned none = none
  scanned (some r) = r

  abbrev pub IsListed : Found → List Found → Type 0
  IsListed g [] = ⊥
  IsListed g (f ∷ fs) = (f ≡ g) ⊎ IsListed g fs

  All-IsListed : (P : Found → Type 0) (g : Found) (fs : List Found) → All P fs → IsListed g fs → P g
  All-IsListed P g (f ∷ fs) k (inl e) = subst P e k.0
  All-IsListed P g (f ∷ fs) k (inr l) = All-IsListed P g fs k.1 l
  All-IsListed P g [] k l = absurd l

  -- What `_scan_engine_dir` loads from a manifest passes every check, and every listed manifest that passes
  -- them too is of no newer version, nor of the same version under a later file name.
  pub scan_engine_dir-IsNewest :
      (candidates : List Candidate) (fs : List Found) (f g : Found) (m n : Module)
      → list_manifests h max_engine_candidates candidates ≡ some fs
      → scan_engine_dir h candidates ≡ some (some (f, m))
      → IsListed g fs
      → try_manifest h g ≡ some n
      → (try_manifest h f ≡ some m) × (lex_le (key g) (key f) ≡ true)
  unfolding scan_engine_dir
  scan_engine_dir-IsNewest candidates fs f g m n given loaded listed passes =
      let first : first_verified h (sort_desc fs) ≡ some (f, m) =
        ap scanned (sym (ap (of_manifests h) given) ∙ loaded) in
      let (found, rest) = first-IsNewest (sort_desc fs) f m (sort-IsSorted fs) first in
      (
        found,
        All-IsListed (λ x. IsOlder f x) g fs (un-sort (λ x. IsOlder f x) fs rest) listed n passes,
      )
