-- ===== src/Json/Keys.antt =====
-- Python dicts and sets over hash keys, as lists in insertion order. A key that is there keeps its
-- place and its first value object.
use win_wsl_mcp_bridge.Base.{
  ◌≡◌, refl, ◌↔◌, Bool, true, false, ◌||◌, Option, none, some, List, [], ◌∷◌, arith, eq_iff,
  if◌then◌else◌, if_keeps, All,
}
use win_wsl_mcp_bridge.Json.{ℤ, pos, negsuc, Key, no_value, number, real, text, int_eq, key_eq}

int_eq_iff : (a b : ℤ) → (int_eq a b ≡ true) ↔ (a ≡ b)
int_eq_iff (pos a) (pos b) = ground arith
int_eq_iff (pos a) (negsuc b) = ground arith
int_eq_iff (negsuc a) (pos b) = ground arith
int_eq_iff (negsuc a) (negsuc b) = ground arith

pub key_eq_iff : (a b : Key) → (key_eq a b ≡ true) ↔ (a ≡ b)
unfolding key_eq
key_eq_iff no_value b = ground arith
key_eq_iff (number a) (number b) = ground (arith, int_eq_iff a b)
key_eq_iff (number a) b = ground arith
key_eq_iff (real a) (real b) = ground (arith, eq_iff a b)
key_eq_iff (real a) b = ground arith
key_eq_iff (text a) (text b) = ground (arith, eq_iff a b)
key_eq_iff (text a) b = ground arith

pub key_eq_refl : (a : Key) → key_eq a a ≡ true
key_eq_refl a = (key_eq_iff a a).1 refl

-- A set.
unfoldable pub contains : Key → List Key → Bool
contains k [] = false
contains k (j ∷ s) = key_eq j k || contains k s

unfoldable pub add : Key → List Key → List Key
add k [] = k ∷ []
add k (j ∷ s) = if key_eq j k then j ∷ s else j ∷ add k s

pub contains-add : (k j : Key) (s : List Key) → contains j (add k s) ≡ (key_eq k j || contains j s)
unfolding contains add
contains-add k j [] = refl
contains-add k j (i ∷ s) =
    ground (arith, key_eq_iff k j, key_eq_iff i k, key_eq_iff i j, contains-add k j s)

pub contains-add_self : (k : Key) (s : List Key) → contains k (add k s) ≡ true
contains-add_self k s = rw (contains-add k k s, key_eq_refl k)

pub contains-add_old :
    (k j : Key) (s : List Key) → contains j s ≡ true → contains j (add k s) ≡ true
contains-add_old k j s h = ground (arith, contains-add k j s)

-- A dict.
module _ {ℓ} {V : Type ℓ} where
  unfoldable pub find : Key → List (Key × V) → Option V
  find k [] = none
  find k ((j, v) ∷ d) = if key_eq j k then some v else find k d

  unfoldable pub drop_key : Key → List (Key × V) → List (Key × V)
  drop_key k [] = []
  drop_key k ((j, v) ∷ d) = if key_eq j k then d else (j, v) ∷ drop_key k d

  -- A write by a function of the value that is there.
  unfoldable pub update : Key → (Option V → V) → List (Key × V) → List (Key × V)
  update k f [] = (k, f none) ∷ []
  update k f ((j, v) ∷ d) = if key_eq j k then (j, f (some v)) ∷ d else (j, v) ∷ update k f d

  -- No key stands twice.
  abbrev pub Unique : List (Key × V) → Type ℓ
  Unique [] = Unit
  Unique ((k, v) ∷ d) = (find k d ≡ none) × Unique d

  pub find-update :
      (k j : Key) (f : Option V → V) (d : List (Key × V))
      → find j (update k f d) ≡ (if key_eq k j then some (f (find k d)) else find j d)
  unfolding find update
  find-update k j f [] = refl
  find-update k j f ((i, v) ∷ d) =
      ground (arith, key_eq_iff k j, key_eq_iff i k, key_eq_iff i j, find-update k j f d)

  pub update-Unique :
      (k : Key) (f : Option V → V) (d : List (Key × V)) → Unique d → Unique (update k f d)
  unfolding find update
  update-Unique k f [] u = (refl, tt)
  update-Unique k f ((i, v) ∷ d) u =
      ground (arith, key_eq_iff i k, key_eq_iff k i, find-update k i f d, update-Unique k f d u.1)

  pub find-drop_key :
      (k j : Key) (d : List (Key × V))
      → Unique d
      → find j (drop_key k d) ≡ (if key_eq k j then none else find j d)
  unfolding find drop_key
  find-drop_key k j [] u = ground arith
  find-drop_key k j ((i, v) ∷ d) u =
      ground (arith, key_eq_iff k j, key_eq_iff i k, key_eq_iff i j, find-drop_key k j d u.1)

  pub drop_key-Unique : (k : Key) (d : List (Key × V)) → Unique d → Unique (drop_key k d)
  unfolding find drop_key
  drop_key-Unique k [] u = tt
  drop_key-Unique k ((i, v) ∷ d) u =
      ground (arith, find-drop_key k i d u.1, drop_key-Unique k d u.1)

  pub update-All {κ} :
      (P : Key × V → Type κ) (k : Key) (f : Option V → V) (d : List (Key × V))
      → All P d
      → P (k, f none)
      → ((j : Key) (v : V) → P (j, v) → P (j, f (some v)))
      → All P (update k f d)
  unfolding update
  update-All P k f [] h new old = (new, tt)
  update-All P k f ((i, v) ∷ d) h new old =
      if_keeps (All P) (key_eq i k) ((i, f (some v)) ∷ d) ((i, v) ∷ update k f d) (old i v h.0, h.1)
        (h.0, update-All P k f d h.1 new old)

  pub drop_key-All {κ} :
      (P : Key × V → Type κ) (k : Key) (d : List (Key × V)) → All P d → All P (drop_key k d)
  unfolding drop_key
  drop_key-All P k [] h = tt
  drop_key-All P k ((i, v) ∷ d) h =
      if_keeps (All P) (key_eq i k) d ((i, v) ∷ drop_key k d) h.1 (h.0, drop_key-All P k d h.1)
