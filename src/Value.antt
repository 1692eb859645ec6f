-- ===== src/Value.antt =====
-- The values of JavaScript that pass through the code: what `JSON.parse` and the structured clone
-- of a message make, `undefined`, and functions. A value is a tree: two objects are never one.
use kestrel_feature_mcp.Prelude.{
  ℕ, zero, is_blank, ◌-◌, ◌^◌, String, Bool, true, false, not, ◌&&◌, ◌||◌, Option, none, some, List,
  [], ◌∷◌, nat_eq, ◌==◌, ◌≡◌, refl, Bool-cases, inl, inr, arith, Outcome, ok, throw, type_error,
  foreign, if◌then◌else◌,
}

-- A number with an integer value, or another with the text of its conversion to a string.
pub data Number : Type 0 where
  nonneg : ℕ → Number
  negative : ℕ → Number  -- -(n + 1)
  float : String → Number

mutual
  pub data Value : Type 0 where
    undefined null func : Value
    bool : Bool → Value
    num : Number → Value
    str : String → Value
    arr : Items → Value
    obj : Fields → Value

  pub data Fields : Type 0 where
    end : Fields
    field : String → Value → Fields → Fields

  pub data Items : Type 0 where
    nil : Items
    cons : Value → Items → Items

abbrev pub elems : Items → List Value
elems nil = []
elems (cons v vs) = v ∷ elems vs

abbrev pub items : List Value → Items
items [] = nil
items (v ∷ vs) = cons v (items vs)

abbrev pub strings : List String → Items
strings [] = nil
strings (s ∷ ss) = cons (str s) (strings ss)

-- An own property of an object.
abbrev pub own : Fields → String → Option Value
own end k = none
own (field j v fs) k = if j == k then some v else own fs k

-- Every key of an object passes a test.
abbrev pub all_keys : (String → Bool) → Fields → Bool
all_keys p end = true
all_keys p (field k v fs) = p k && all_keys p fs

abbrev pub or_undefined : Option Value → Value
or_undefined none = undefined
or_undefined (some v) = v

-- `v[k]` where `v` is neither `undefined` nor `null`, for a key that no prototype has.
abbrev pub member : Value → String → Value
member (obj fs) k = or_undefined (own fs k)
member v k = undefined

-- `v[k]` for any `v`.
unfoldable pub get : Value → String → Outcome Value
get undefined k = throw (type_error "Cannot read properties of undefined")
get null k = throw (type_error "Cannot read properties of null")
get v k = ok (member v k)

-- `Object.hasOwn(v, k)` for a key that no array or text has.
unfoldable pub has_own : Value → String → Outcome Bool
has_own undefined k = throw (type_error "Cannot convert undefined or null to object")
has_own null k = throw (type_error "Cannot convert undefined or null to object")
has_own (obj fs) k = ok (elim (own fs k) [ none ↦ false | some v ↦ true ])
has_own v k = ok false

-- `Object.hasOwn(v, k)` where `v` is neither `undefined` nor `null`.
abbrev pub has_key : Value → String → Bool
has_key (obj fs) k = elim (own fs k) [ none ↦ false | some v ↦ true ]
has_key v k = false

abbrev pub is_undefined : Value → Bool
is_undefined undefined = true
is_undefined v = false

-- `Array.isArray(v)`
abbrev pub is_array : Value → Bool
is_array (arr vs) = true
is_array v = false

-- `typeof v === 'object' && v !== null && !Array.isArray(v)`, with every key passing a test.
abbrev pub is_object_with : (String → Bool) → Value → Bool
is_object_with p (obj fs) = all_keys p fs
is_object_with p v = false

-- The items of an array; none of another value.
abbrev pub array_items : Value → List Value
array_items (arr vs) = elems vs
array_items v = []

-- `v === s` for a text `s`.
abbrev pub is_text : Value → String → Bool
is_text (str t) s = t == s
is_text v s = false

-- `vs.includes(s)` for a text `s`.
abbrev pub includes_text : List Value → String → Bool
includes_text [] s = false
includes_text (v ∷ vs) s = is_text v s || includes_text vs s

-- A parameter's default, `= {}`.
abbrev pub or_object : Value → Value
or_object undefined = obj end
or_object v = v

abbrev same_number : Number → Number → Bool
same_number (nonneg a) (nonneg b) = nat_eq a b
same_number (negative a) (negative b) = nat_eq a b
same_number (float a) (float b) = a == b && not (a == "NaN")
same_number _ _ = false

abbrev same_bool : Bool → Bool → Bool
same_bool true b = b
same_bool false b = not b

-- `v === w`, where two objects, arrays or functions of different messages are different.
abbrev pub strictly_equal : Value → Value → Bool
strictly_equal undefined undefined = true
strictly_equal null null = true
strictly_equal (bool a) (bool b) = same_bool a b
strictly_equal (num a) (num b) = same_number a b
strictly_equal (str s) (str t) = s == t
strictly_equal _ _ = false

-- A value as a condition.
abbrev pub is_truthy : Value → Bool
is_truthy undefined = false
is_truthy null = false
is_truthy (bool b) = b
is_truthy (num (nonneg zero)) = false
is_truthy (num (float s)) = not (s == "NaN")
is_truthy (str s) = not (is_blank s)
is_truthy v = true

abbrev pub max_safe_integer : ℕ
max_safe_integer = 2 ^ 53 - 1

mutual
  has_func : Value → Bool
  has_func func = true
  has_func (arr vs) = has_func_items vs
  has_func (obj fs) = has_func_fields fs
  has_func undefined = false
  has_func null = false
  has_func (bool b) = false
  has_func (num n) = false
  has_func (str s) = false

  has_func_items : Items → Bool
  has_func_items nil = false
  has_func_items (cons v vs) = has_func v || has_func_items vs

  has_func_fields : Fields → Bool
  has_func_fields end = false
  has_func_fields (field k v fs) = has_func v || has_func_fields fs

-- `structuredClone(v)`: a function anywhere in the value cannot be cloned.
unfoldable pub structured_clone : Value → Outcome Value
unfolding has_func
structured_clone v = if has_func v then throw (foreign "DataCloneError") else ok v

has_func-own :
    (fs : Fields) (k : String)
    → has_func_fields fs ≡ false
    → has_func (or_undefined (own fs k)) ≡ false
unfolding has_func
has_func-own end k h = refl
has_func-own (field j v fs) k h = elim (Bool-cases (j == k)) [
  | inl same ↦ rw same (ground arith)
  | inr other ↦ rw other (has_func-own fs k (ground arith))
]

cloned-has_func : (v : Value) → structured_clone v ≡ ok v → has_func v ≡ false
unfolding structured_clone
cloned-has_func v h = elim (Bool-cases (has_func v)) [
  | inl bad ↦ cc (rw bad at h)
  | inr good ↦ good
]

-- What is cloned has properties that can be cloned.
pub structured_clone-member :
    (v : Value) (k : String)
    → structured_clone v ≡ ok v
    → structured_clone (member v k) ≡ ok (member v k)
unfolding structured_clone has_func
structured_clone-member (obj fs) k h = rw (has_func-own fs k (cloned-has_func (obj fs) h)) refl
structured_clone-member undefined k h = refl
structured_clone-member null k h = refl
structured_clone-member func k h = refl
structured_clone-member (bool b) k h = refl
structured_clone-member (num n) k h = refl
structured_clone-member (str s) k h = refl
structured_clone-member (arr vs) k h = refl
