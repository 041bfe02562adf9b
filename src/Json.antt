-- ===== src/Json.antt =====
-- The values that `json.loads` returns, and the operations of Python that the bridge applies to
-- them: `isinstance`, `in`, `get`, `==`, truth, and the hash key of a value in a dict or a set.
pub mod Keys
pub mod Dicts
use win_wsl_mcp_bridge.Base.{
  ℕ, zero, suc, ◌+◌, ◌/◌, ◌%◌, String, Bool, true, false, ◌&&◌, Option, none, some, List, [], ◌∷◌,
  ltb, ◌==◌, text_eq, if◌then◌else◌,
}
use Prim.Native.String.{◌++◌ as text_append, slice}

-- `negsuc n` is -(n + 1).
pub data ℤ : Type 0 where
  pos : ℕ → ℤ
  negsuc : ℕ → ℤ

-- A float is known by its `repr` and by the integer that it equals, if there is one. A NaN, which
-- equals nothing, is not among them.
pub record Float : Type 0 where
  pub repr : String
  pub integral : Option ℤ

mutual
  pub data Json : Type 0 where
    null : Json
    boolean : Bool → Json
    int : ℤ → Json
    float : Float → Json
    str : String → Json
    arr : Items → Json
    obj : Fields → Json

  pub data Items : Type 0 where
    nil : Items
    cons : Json → Items → Items

  pub data Fields : Type 0 where
    end : Fields
    field : String → Json → Fields → Fields

-- `d.get(key)` where the default is told apart from a stored `None`
unfoldable pub get : String → Fields → Option Json
get key end = none
get key (field k v fs) = if text_eq k key then some v else get key fs

-- `key in d`
unfoldable pub has : String → Fields → Bool
unfolding get
has key fs = elim (get key fs) [ none ↦ false | some v ↦ true ]

-- `d.get(key)`
unfoldable pub get_or_null : String → Fields → Json
unfolding get
get_or_null key fs = elim (get key fs) [ none ↦ null | some v ↦ v ]

-- `d[key] = v`
unfoldable pub put : String → Json → Fields → Fields
put key v end = field key v end
put key v (field k w fs) = if text_eq k key then field k v fs else field k w (put key v fs)

-- `isinstance(v, str)` and `isinstance(v, dict)`, with the value
abbrev pub as_str : Json → Option String
as_str (str s) = some s
as_str _ = none

abbrev pub as_obj : Json → Option Fields
as_obj (obj fs) = some fs
as_obj _ = none

-- `bool(d)` of a dict
abbrev pub non_empty : Fields → Bool
non_empty end = false
non_empty (field k v fs) = true

-- What a value hashes to: equal numbers of any type share a key, and so do `True` and 1. A list
-- or a dict has none (`TypeError: unhashable type`).
pub data Key : Type 0 where
  no_value : Key
  number : ℤ → Key
  real : String → Key
  text : String → Key

unfoldable pub hash_key : Json → Option Key
hash_key null = some no_value
hash_key (boolean true) = some (number (pos 1))
hash_key (boolean false) = some (number (pos 0))
hash_key (int z) = some (number z)
hash_key (float x) = some (elim x.integral [ none ↦ real x.repr | some z ↦ number z ])
hash_key (str s) = some (text s)
hash_key (arr xs) = none
hash_key (obj fs) = none

abbrev pub int_eq : ℤ → ℤ → Bool
int_eq (pos a) (pos b) = a == b
int_eq (negsuc a) (negsuc b) = a == b
int_eq _ _ = false

-- Equality of two hashable values is equality of their keys.
unfoldable pub key_eq : Key → Key → Bool
key_eq no_value no_value = true
key_eq (number a) (number b) = int_eq a b
key_eq (real a) (real b) = text_eq a b
key_eq (text a) (text b) = text_eq a b
key_eq _ _ = false

-- Two hashable values compare by their keys.
scalar_eq : Json → Json → Bool
unfolding hash_key key_eq
scalar_eq a b = elim (hash_key a) [
  | none ↦ false
  | some k ↦ elim (hash_key b) [ none ↦ false | some l ↦ key_eq k l ]
]

-- The decimal digits of a number. The fuel is the number itself, which has fewer digits.
digits : ℕ → ℕ → String → String
digits zero n out = out
digits (suc fuel) n out =
    let digit = slice "0123456789" (n % 10) (n % 10 + 1) in
    let rest = digits fuel (n / 10) (text_append digit out) in
    if ltb n 10 then text_append digit out else rest

-- `str(n)` of an int
unfoldable pub show_int : ℤ → String
unfolding digits
show_int (pos n) = digits (suc n) n ""
show_int (negsuc n) = text_append "-" (digits (suc (suc n)) (suc n) "")

size_fields : Fields → ℕ
size_fields end = 0
size_fields (field k v fs) = suc (size_fields fs)

-- `a == b` of two values: numbers by their value, dicts in any order.
unfoldable mutual
  unfolding get scalar_eq size_fields

  pub py_eq : Json → Json → Bool
  py_eq (arr xs) (arr ys) = items_eq xs ys
  py_eq (obj fs) (obj gs) = (size_fields fs == size_fields gs) && fields_in fs gs
  py_eq null b = scalar_eq null b
  py_eq (boolean x) b = scalar_eq (boolean x) b
  py_eq (int z) b = scalar_eq (int z) b
  py_eq (float x) b = scalar_eq (float x) b
  py_eq (str s) b = scalar_eq (str s) b
  py_eq _ _ = false

  pub items_eq : Items → Items → Bool
  items_eq nil nil = true
  items_eq (cons x xs) (cons y ys) = py_eq x y && items_eq xs ys
  items_eq _ _ = false

  pub fields_in : Fields → Fields → Bool
  fields_in end gs = true
  fields_in (field k v fs) gs =
      elim (get k gs) [ none ↦ false | some w ↦ py_eq v w ] && fields_in fs gs
