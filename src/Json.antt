-- ===== src/Json.antt =====
-- Decoded JSON and the Python operations on it that the driver uses: `d.get(k)`, `d[k]`, truth
-- values, `==` with a text. A method of a value of another type raises `AttributeError`.
use manila_weka_driver.Prelude.{
  ℕ, zero, suc, String, Bool, true, false, Option, none, some, List, [], ◌∷◌, ◌==◌, nat_eq, ◌≡◌, ap,
  eq_iff, arith, if◌then◌else◌,
}
use manila_weka_driver.Exceptions.{attribute_error, key_error, type_error}
use manila_weka_driver.Exec.{Result, ok, err}

mutual
  pub data Json : Type 0 where
    null : Json
    bool : Bool → Json
    num : ℕ → Json
    str : String → Json
    arr : Items → Json
    obj : Fields → Json

  pub data Items : Type 0 where
    nil : Items
    cons : Json → Items → Items

  pub data Fields : Type 0 where
    end : Fields
    field : String → Json → Fields → Fields

abbrev pub to_list : Items → List Json
to_list nil = []
to_list (cons x xs) = x ∷ to_list xs

abbrev pub of_list : List Json → Items
of_list [] = nil
of_list (x ∷ xs) = cons x (of_list xs)

abbrev pub fields : List (String × Json) → Fields
fields [] = end
fields ((k, v) ∷ rest) = field k v (fields rest)

-- A dict from its items, and a list of texts.
abbrev pub dict : List (String × Json) → Json
dict entries = obj (fields entries)

abbrev pub texts : List String → Items
texts [] = nil
texts (s ∷ ss) = cons (str s) (texts ss)

-- JSON keys are unique: the first is the one.
unfoldable pub lookup : String → Fields → Option Json
lookup k end = none
lookup k (field j v rest) = if j == k then some v else lookup k rest

-- `d.get(k)` as the value or nothing
unfoldable pub get : String → Json → Result (Option Json)
unfolding lookup
get k (obj d) = ok (lookup k d)
get k _ = err (attribute_error "get")

abbrev pub or_else : Option Json → Json → Json
or_else none other = other
or_else (some v) other = v

-- `d.get(k, default)`, and `d.get(k)` with the default None
unfoldable pub get_or : String → Json → Json → Result Json
unfolding get
get_or k default d = elim (get k d) [ ok found ↦ ok (or_else found default) | err e ↦ err e ]

-- `d[k]`
unfoldable pub index : String → Json → Result Json
unfolding lookup
index k (obj d) = elim (lookup k d) [ none ↦ err (key_error k) | some v ↦ ok v ]
index k _ = err (type_error k)

-- `bool(v)`
unfoldable pub truthy : Json → Bool
truthy null = false
truthy (bool b) = b
truthy (num zero) = false
truthy (num (suc n)) = true
truthy (str String.[]) = false
truthy (str (String.◌∷◌ c s)) = true
truthy (arr nil) = false
truthy (arr (cons x xs)) = true
truthy (obj end) = false
truthy (obj (field k v rest)) = true

-- `v == s` for a text
unfoldable pub is_text : String → Json → Bool
is_text s (str t) = t == s
is_text s _ = false

-- A loop over `v` and a list taken of it; over a dict they give its keys.
abbrev pub keys : Fields → List Json
keys end = []
keys (field k v rest) = str k ∷ keys rest

unfoldable pub elements : Json → Result (List Json)
elements (arr xs) = ok (to_list xs)
elements (obj d) = ok (keys d)
elements _ = err (type_error "not iterable")

-- `v or []`, for what is iterated over
unfoldable pub or_empty : Json → Json
unfolding truthy
or_empty v = if truthy v then v else arr nil

-- Where the code uses a value as a text.
unfoldable pub as_text : Json → Result String
as_text (str s) = ok s
as_text _ = err (type_error "str")

unfoldable pub as_number : Json → Result ℕ
as_number (num n) = ok n
as_number _ = err (type_error "int")

-- A text or None.
unfoldable pub as_optional_text : Json → Result (Option String)
as_optional_text null = ok none
as_optional_text (str s) = ok (some s)
as_optional_text _ = err (type_error "str")

-- `str(v)`: a text is its own; of other values the interpreter prints them.
abbrev pub printed : (Json → String) → Json → String
printed show (str s) = s
printed show v = show v

-- `v == w` on the values that identify resources: texts, numbers, Booleans and None. Python also
-- compares lists and dicts by content; no identifier of the API is one.
unfoldable pub same : Json → Json → Bool
same null null = true
same (bool true) (bool true) = true
same (bool false) (bool false) = true
same (num m) (num n) = nat_eq m n
same (str s) (str t) = s == t
same _ _ = false

pub is_text-str : (s : String) (v : Json) → is_text s v ≡ true → v ≡ str s
unfolding is_text
is_text-str s (str t) h = ap str ((eq_iff t s).0 h)
is_text-str s v h = ground (arith, h)
