-- ===== src/Warehouse/Bounds.antt =====
-- `_parse_capability_index`: what it accepts is bounded, and no key stands twice.
use Prim.Native.String.{count}
use win_wsl_mcp_bridge.Base.{
  ℕ, ◌≤◌, String, false, ◌||◌, Option, none, some, List, [], ◌∷◌, All, length, ◌≡◌, refl, ap, subst,
  inl, inr, ltb, text_eq, arith, Bool-cases, suc, Bool, true,
}
use win_wsl_mcp_bridge.Json.{
  Json, null, boolean, int, float, pos, str, obj, arr, Items, nil, cons, Fields, get, get_or_null,
  py_eq,
}
use win_wsl_mcp_bridge.Protocol.Revisions.{text_in}
use win_wsl_mcp_bridge.Warehouse.{
  Item, Fault, Texts, Checked, good, bad, ◌>>=◌, bounded_nonempty_text, has_control, identity_key,
  read_groups, add_group, bound_groups, check_groups, check_description, check_new, check_optional,
  parse_details, parse_identity, parse_item, parse_items, length_of, parse_list,
  parse_capability_index, has_forbidden, forbidden_item_keys, max_items, max_identity, max_summary,
  max_groups, max_group, max_description, bad_digest, bad_id,
}

abbrev pub IsText : ℕ → String → Type 0
IsText maximum s = (text_eq s "" ≡ false) × (count s ≤ maximum)

abbrev IfGood : {A : Type 0} → (A → Type 0) → Checked A → Type 0
IfGood P (good a) = P a
IfGood P (bad fault) = Unit

of_good : {A : Type 0} (P : A → Type 0) (c : Checked A) (a : A) → IfGood P c → c ≡ good a → P a
of_good P c a h e = subst (IfGood P) e h

text_lem : (maximum : ℕ) (v : Json) → IfGood (IsText maximum) (bounded_nonempty_text maximum v)
unfolding bounded_nonempty_text
text_lem maximum (str s) = elim (Bool-cases (text_eq s "" || ltb maximum (count s))) [
  | inl e ↦ rw e tt
  | inr e ↦ rw e (elim (Bool-cases (has_control s)) [
    | inl k ↦ rw k tt
    | inr k ↦ rw k (ground arith, ground arith)
  ])
]
text_lem maximum null = tt
text_lem maximum (boolean x) = tt
text_lem maximum (int x) = tt
text_lem maximum (float x) = tt
text_lem maximum (arr x) = tt
text_lem maximum (obj x) = tt

-- What the rest of a chain may know of what passed a check.
IfGood-bind :
    {A B : Type 0} (R : A → Type 0) (P : B → Type 0) (m : Checked A) (f : A → Checked B)
    → IfGood R m
    → ((a : A) → R a → IfGood P (f a))
    → IfGood P (m >>= f)
IfGood-bind R P (good a) f h k = k a h
IfGood-bind R P (bad fault) f h k = tt

IfGood-any : {A : Type 0} (m : Checked A) → IfGood (λ a. Unit {0}) m
IfGood-any (good a) = tt
IfGood-any (bad fault) = tt

-- A description that is kept has something in it.
abbrev pub IsDescription : Option String → Type 0
IsDescription none = Unit
IsDescription (some s) = IsText max_description s

description_lem : (v : Option Json) → IfGood IsDescription (check_description v)
description_lem none = tt
description_lem (some null) = tt
description_lem (some (str s)) = elim (Bool-cases (ltb max_description (count s))) [
  | inl e ↦ rw e tt
  | inr e ↦
      rw e (elim (Bool-cases (text_eq s "")) [ inl k ↦ rw k tt | inr k ↦ rw k (k, ground arith) ])
]
description_lem (some (boolean x)) = tt
description_lem (some (int x)) = tt
description_lem (some (float x)) = tt
description_lem (some (arr x)) = tt
description_lem (some (obj x)) = tt

-- An optional text that is kept has the form that is asked for.
abbrev pub Fits : (String → Bool) → Option String → Type 0
Fits is_fine none = Unit
Fits is_fine (some s) = is_fine s ≡ true

optional_lem :
    (is_fine : String → Bool) (fault : Fault) (v : Json)
    → IfGood (Fits is_fine) (check_optional is_fine fault v)
optional_lem is_fine fault null = tt
optional_lem is_fine fault (str s) = elim (Bool-cases (is_fine s)) [
  | inl e ↦ rw e e
  | inr e ↦ rw e tt
]
optional_lem is_fine fault (boolean x) = tt
optional_lem is_fine fault (int x) = tt
optional_lem is_fine fault (float x) = tt
optional_lem is_fine fault (arr x) = tt
optional_lem is_fine fault (obj x) = tt

abbrev IfSome : (List String → Type 0) → Option (List String) → Type 0
IfSome P none = Unit
IfSome P (some groups) = P groups

abbrev AreTexts : List String → Type 0
AreTexts groups = All (IsText max_group) groups

add_group_lem :
    (s : String) (o : Option (List String))
    → IsText max_group s
    → IfSome AreTexts o
    → IfSome AreTexts (add_group s o)
add_group_lem s none h k = tt
add_group_lem s (some groups) h k = (h, k)

read_groups_lem : (items : Items) → IfSome AreTexts (read_groups items)
unfolding read_groups
read_groups_lem nil = tt
read_groups_lem (cons (str s) items) =
    let rest = read_groups_lem items in
    elim (Bool-cases (text_eq s "" || ltb max_group (count s))) [
      | inl e ↦ rw e tt
      | inr e ↦ rw e (add_group_lem s (read_groups items) (ground arith, ground arith) rest)
    ]
read_groups_lem (cons null items) = tt
read_groups_lem (cons (boolean x) items) = tt
read_groups_lem (cons (int x) items) = tt
read_groups_lem (cons (float x) items) = tt
read_groups_lem (cons (arr x) items) = tt
read_groups_lem (cons (obj x) items) = tt

abbrev pub AreGroups : List String → Type 0
AreGroups groups =
    (1 ≤ length groups) × (length groups ≤ max_groups) × All (IsText max_group) groups

bound_groups_lem :
    (o : Option (List String)) → IfSome AreTexts o → IfGood AreGroups (bound_groups o)
bound_groups_lem none h = tt
bound_groups_lem (some []) h = tt
bound_groups_lem (some (g ∷ gs)) h = elim (Bool-cases (ltb max_groups (length (g ∷ gs)))) [
  | inl e ↦ rw e tt
  | inr e ↦ rw e (omega arith, ground arith, h)
]

check_groups_lem : (v : Json) → IfGood AreGroups (check_groups v)
check_groups_lem (arr items) = bound_groups_lem (read_groups items) (read_groups_lem items)
check_groups_lem (str x) = tt
check_groups_lem null = tt
check_groups_lem (boolean x) = tt
check_groups_lem (int x) = tt
check_groups_lem (float x) = tt
check_groups_lem (obj x) = tt

abbrev IsNew : List String → Item → Type 0
IsNew seen i = text_in i.key seen ≡ false

check_new_lem :
    (key : String) (seen : List String)
    → IfGood (λ k. (k ≡ key) × (text_in k seen ≡ false)) (check_new key seen)
check_new_lem key seen = elim (Bool-cases (text_in key seen)) [
  | inl e ↦ rw e tt
  | inr e ↦ rw e (refl, e)
]

module _ (t : Texts) where
  -- An item that is bounded in all its parts, and whose key says who it is.
  abbrev pub IsBounded : Item → Type 0
  IsBounded i =
      IsText max_identity i.publisher
      × IsText max_identity i.name
      × IsText max_identity i.version
      × IsText max_summary i.summary
      × AreGroups i.groups
      × IsDescription i.description
      × Fits t.is_sha256 i.manifest_digest
      × Fits t.is_safe_id i.id
      × (i.key ≡ identity_key i.publisher i.name i.version)

  abbrev IsFine : List String → Item → Type 0
  IsFine seen i = IsBounded i × IsNew seen i

  details_lem :
      (seen : List String) (raw : Fields) (publisher name version : String)
      → IsText max_identity publisher
      → IsText max_identity name
      → IsText max_identity version
      → IfGood (IsFine seen) (parse_details t seen raw publisher name version)
  unfolding parse_details
  details_lem seen raw publisher name version p n v =
      let id = identity_key publisher name version in
      IfGood-bind (IsText max_summary) (IsFine seen) _ _ (text_lem max_summary _) λ summary s.
        IfGood-bind (λ k. (k ≡ id) × (text_in k seen ≡ false)) (IsFine seen) _ _
          (check_new_lem id seen)
          λ key k.
            IfGood-bind IsDescription (IsFine seen) (check_description (get "description" raw)) _
              (description_lem (get "description" raw))
              λ description d.
                IfGood-bind AreGroups (IsFine seen) _ _ (check_groups_lem _) λ groups g.
                  IfGood-bind (Fits t.is_sha256) (IsFine seen)
                    (check_optional t.is_sha256 bad_digest (get_or_null "manifestDigest" raw)) _
                    (optional_lem t.is_sha256 bad_digest (get_or_null "manifestDigest" raw))
                    λ digest m.
                      IfGood-bind (Fits t.is_safe_id) (IsFine seen)
                        (check_optional t.is_safe_id bad_id (get_or_null "id" raw))
                        (λ suggested. good (record {
                          publisher = publisher;
                          name = name;
                          version = version;
                          summary = summary;
                          groups = groups;
                          key = key;
                          description = description;
                          manifest_digest = digest;
                          id = suggested;
                        }))
                        (optional_lem t.is_safe_id bad_id (get_or_null "id" raw))
                        (λ suggested u. ((p, n, v, s, g, d, m, u, k.0), k.1))

  identity_lem :
      (seen : List String) (raw : Fields) (v : Json)
      → IfGood (IsFine seen) (parse_identity t seen raw v)
  identity_lem seen raw (obj identity) =
      IfGood-bind (IsText max_identity) (IsFine seen) _ _ (text_lem max_identity _) λ publisher p.
        IfGood-bind (IsText max_identity) (IsFine seen) _ _ (text_lem max_identity _) λ name n.
          IfGood-bind (IsText max_identity) (IsFine seen) _ _ (text_lem max_identity _)
            (λ version v. details_lem seen raw publisher name version p n v)
  identity_lem seen raw null = tt
  identity_lem seen raw (boolean x) = tt
  identity_lem seen raw (int x) = tt
  identity_lem seen raw (float x) = tt
  identity_lem seen raw (str x) = tt
  identity_lem seen raw (arr x) = tt

  item_lem : (seen : List String) (v : Json) → IfGood (IsFine seen) (parse_item t seen v)
  unfolding parse_item
  item_lem seen (obj raw) = elim (Bool-cases (has_forbidden forbidden_item_keys raw)) [
    | inl e ↦ rw e tt
    | inr e ↦ rw e (identity_lem seen raw (get_or_null "identity" raw))
  ]
  item_lem seen null = tt
  item_lem seen (boolean x) = tt
  item_lem seen (int x) = tt
  item_lem seen (float x) = tt
  item_lem seen (str x) = tt
  item_lem seen (arr x) = tt

  -- Each item is bounded, and its key is none of those before it.
  abbrev pub AreItems : List String → List Item → Type 0
  AreItems seen [] = Unit
  AreItems seen (i ∷ items) = IsFine seen i × AreItems (i.key ∷ seen) items

  items_lem : (seen : List String) (vs : Items) → IfGood (AreItems seen) (parse_items t seen vs)
  unfolding parse_items
  items_lem seen nil = tt
  items_lem seen (cons v vs) =
      let rest = λ (i : Item). items_lem (i.key ∷ seen) vs in
      IfGood-bind (IsFine seen) (AreItems seen) _ _ (item_lem seen v) λ i h.
        IfGood-bind (AreItems (i.key ∷ seen)) (AreItems seen) _ _ (rest i) (λ items k. (h, k))

  abbrev IsIndex : List Item → Type 0
  IsIndex items = AreItems [] items × (1 ≤ length items) × (length items ≤ max_items)

  sized :
      (seen : List String) (vs : Items)
      → IfGood (λ is. length is ≡ length_of t vs) (parse_items t seen vs)
  unfolding parse_items length_of
  sized seen nil = refl
  sized seen (cons v vs) =
      let rest = λ (i : Item). sized (i.key ∷ seen) vs in
      IfGood-bind (λ i. Unit {0}) (λ (is : List Item). length is ≡ suc (length_of t vs))
        (parse_item t seen v) _ (IfGood-any _)
        λ i h.
          IfGood-bind (λ (is : List Item). length is ≡ length_of t vs)
            (λ (is : List Item). length is ≡ suc (length_of t vs)) _ _ (rest i)
            (λ items k. ap suc k)

  both :
      {A : Type 0} (P Q : A → Type 0) (m : Checked A)
      → IfGood P m
      → IfGood Q m
      → IfGood (λ a. P a × Q a) m
  both P Q (good a) h k = (h, k)
  both P Q (bad fault) h k = tt

  weaken :
      {A : Type 0} (P Q : A → Type 0) (m : Checked A)
      → ((a : A) → P a → Q a)
      → IfGood P m
      → IfGood Q m
  weaken P Q (good a) f h = f a h
  weaken P Q (bad fault) f h = tt

  positive : (n k : ℕ) → n ≡ suc k → 1 ≤ n
  positive n k e = omega arith

  list_lem : (v : Json) → IfGood IsIndex (parse_list t v)
  unfolding length_of
  list_lem (arr nil) = tt
  list_lem (arr (cons v vs)) = elim (Bool-cases (ltb max_items (length_of t (cons v vs)))) [
    | inl e ↦ rw e tt
    | inr e ↦ rw e (
        weaken (λ is. AreItems [] is × (length is ≡ length_of t (cons v vs))) IsIndex _
          (λ is h. (h.0, positive (length is) (length_of t vs) h.1, ground arith))
          (both (AreItems []) (λ is. length is ≡ length_of t (cons v vs)) _
            (items_lem [] (cons v vs)) (sized [] (cons v vs))))
  ]
  list_lem null = tt
  list_lem (boolean x) = tt
  list_lem (int x) = tt
  list_lem (float x) = tt
  list_lem (str x) = tt
  list_lem (obj x) = tt

  index_lem : (v : Json) → IfGood IsIndex (parse_capability_index t v)
  unfolding parse_capability_index
  index_lem (obj index) = elim (Bool-cases (py_eq (get_or_null "version" index) (int (pos 1)))) [
    | inl e ↦ rw e (list_lem (get_or_null "items" index))
    | inr e ↦ rw e tt
  ]
  index_lem null = tt
  index_lem (boolean x) = tt
  index_lem (int x) = tt
  index_lem (float x) = tt
  index_lem (str x) = tt
  index_lem (arr x) = tt

  -- An accepted index has from 1 up to 4096 items; each has a publisher, a name, a version and a summary that
  -- are not empty and within their bounds, from 1 up to 64 groups of at most 64 characters, a description, if any, of
  -- 1 up to 4000 characters, a digest and a suggested id, if any, that match their patterns, and the key that
  -- its identity makes; and no key stands twice.
  pub parse_capability_index-IsBounded :
      (index : Json) (items : List Item)
      → parse_capability_index t index ≡ good items
      → AreItems [] items × (1 ≤ length items) × (length items ≤ max_items)
  parse_capability_index-IsBounded index items e = of_good IsIndex _ items (index_lem index) e
