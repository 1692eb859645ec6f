-- ===== src/Json.antt =====
-- `JSON.stringify`, without indentation, on values that define no `toJSON`; and their texts.
pub mod Reading
use Prim.Native.String
use kestrel_feature_mcp.Prelude.{
  ℕ, zero, suc, ◌/◌, ◌%◌, String, Char, code, ◌||◌, Option, none, some, ltb, nat_eq, ◌==◌,
  if◌then◌else◌,
}
use kestrel_feature_mcp.Value.{
  Number, nonneg, negative, float, Value, undefined, null, func, bool, num, str, arr, obj, Items,
  nil, cons, Fields, end, field,
}

infixr 65 ◌<>◌
abbrev pub ◌<>◌ : String → String → String
s <> t = String.◌++◌ s t

digit : ℕ → String
digit n = String.slice "0123456789abcdef" n (suc n)

-- The decimal digits of a number below 10 ^ fuel, in front of a text.
decimal_from : ℕ → ℕ → String → String
unfolding digit
decimal_from zero n rest = rest
decimal_from (suc f) n rest =
    let more = decimal_from f (n / 10) (digit (n % 10) <> rest) in
    if ltb n 10 then digit n <> rest else more

-- A number is below 10 to its own successor, so the fuel is enough.
decimal : ℕ → String
unfolding decimal_from
decimal n = decimal_from (suc n) n ""

pub number_text : Number → String
unfolding decimal
number_text (nonneg n) = decimal n
number_text (negative n) = "-" <> decimal (suc n)
number_text (float s) = if s == "NaN" || s == "Infinity" || s == "-Infinity" then "null" else s

-- A character inside a quoted text.
escape : Char → String
unfolding digit
escape c =
    if nat_eq (code c) b'"'
    then "\\\""
    else if nat_eq (code c) 92
    then "\\\\"
    else if nat_eq (code c) 8
    then "\\b"
    else if nat_eq (code c) 9
    then "\\t"
    else if nat_eq (code c) 10
    then "\\n"
    else if nat_eq (code c) 12
    then "\\f"
    else if nat_eq (code c) 13
    then "\\r"
    else if ltb (code c) 32
    then "\\u00" <> digit (code c / 16) <> digit (code c % 16)
    else String.◌∷◌ c String.[]

escape_all : String → String
unfolding escape
escape_all String.[] = ""
escape_all (String.◌∷◌ c s) = escape c <> escape_all s

quote : String → String
unfolding escape_all
quote s = "\"" <> escape_all s <> "\""

-- The texts of an array's items or an object's properties, joined.
abbrev comma : String → String → String
comma s String.[] = s
comma s (String.◌∷◌ c t) = s <> "," <> String.◌∷◌ c t

mutual
  unfolding number_text quote

  -- The text of a value; `none` where `JSON.stringify` answers `undefined`.
  stringify_value : Value → Option String
  stringify_value undefined = none
  stringify_value func = none
  stringify_value null = some "null"
  stringify_value (bool b) = some (if b then "true" else "false")
  stringify_value (num n) = some (number_text n)
  stringify_value (str s) = some (quote s)
  stringify_value (arr vs) = some ("[" <> stringify_items vs <> "]")
  stringify_value (obj fs) = some ("{" <> stringify_fields fs <> "}")

  stringify_items : Items → String
  stringify_items nil = ""
  stringify_items (cons v vs) = elim (stringify_value v) [
    | none ↦ comma "null" (stringify_items vs)
    | some s ↦ comma s (stringify_items vs)
  ]

  stringify_fields : Fields → String
  stringify_fields end = ""
  stringify_fields (field k v fs) = elim (stringify_value v) [
    | none ↦ stringify_fields fs
    | some s ↦ comma (quote k <> ":" <> s) (stringify_fields fs)
  ]

unfoldable pub stringify : Value → Option String
unfolding stringify_value
stringify v = stringify_value v

-- `JSON.stringify(v, null, 2)`: each item and property on a line of its own.
abbrev line_sep : String → String → String → String
line_sep indent s String.[] = s
line_sep indent s (String.◌∷◌ c t) = s <> (",\n" <> (indent <> String.◌∷◌ c t))

abbrev enclosed : String → String → String → String → String
enclosed left right indent String.[] = left <> right
enclosed left right indent (String.◌∷◌ c t) =
    left <> ("\n" <> (indent <> ("  " <> (String.◌∷◌ c t <> ("\n" <> (indent <> right))))))

mutual
  unfolding number_text quote

  pretty_value : String → Value → Option String
  pretty_value indent undefined = none
  pretty_value indent func = none
  pretty_value indent null = some "null"
  pretty_value indent (bool b) = some (if b then "true" else "false")
  pretty_value indent (num n) = some (number_text n)
  pretty_value indent (str s) = some (quote s)
  pretty_value indent (arr vs) = some (enclosed "[" "]" indent (pretty_items (indent <> "  ") vs))
  pretty_value indent (obj fs) = some (enclosed "{" "}" indent (pretty_fields (indent <> "  ") fs))

  pretty_items : String → Items → String
  pretty_items indent nil = ""
  pretty_items indent (cons v vs) = elim (pretty_value indent v) [
    | none ↦ line_sep indent "null" (pretty_items indent vs)
    | some s ↦ line_sep indent s (pretty_items indent vs)
  ]

  pretty_fields : String → Fields → String
  pretty_fields indent end = ""
  pretty_fields indent (field k v fs) = elim (pretty_value indent v) [
    | none ↦ pretty_fields indent fs
    | some s ↦ line_sep indent (quote k <> (": " <> s)) (pretty_fields indent fs)
  ]

unfoldable pub pretty : Value → Option String
unfolding pretty_value
pretty v = pretty_value "" v

-- What `JSON.parse` documents to make of the JSON text of a value: properties without a text are
-- left out, and items without one are `null`.
abbrev pub copied_number : Number → Value
copied_number (float s) =
    if s == "NaN" || s == "Infinity" || s == "-Infinity" then null else num (float s)
copied_number n = num n

abbrev pub copied_item : Value → Value → Value
copied_item undefined copy = null
copied_item func copy = null
copied_item v copy = copy

abbrev pub with_field : String → Value → Value → Fields → Fields
with_field k undefined copy fs = fs
with_field k func copy fs = fs
with_field k v copy fs = field k copy fs

abbrev mutual
  pub json_copy : Value → Value
  json_copy undefined = undefined
  json_copy func = undefined
  json_copy null = null
  json_copy (bool b) = bool b
  json_copy (num n) = copied_number n
  json_copy (str s) = str s
  json_copy (arr vs) = arr (copy_items vs)
  json_copy (obj fs) = obj (copy_fields fs)

  pub copy_items : Items → Items
  copy_items nil = nil
  copy_items (cons v vs) = cons (copied_item v (json_copy v)) (copy_items vs)

  pub copy_fields : Fields → Fields
  copy_fields end = end
  copy_fields (field k v fs) = with_field k v (json_copy v) (copy_fields fs)

abbrev pub nullish_or : Value → String → String
nullish_or undefined s = ""
nullish_or null s = ""
nullish_or v s = s

-- `String(v)`, and `join` of an array; no function comes in an answer.
abbrev mutual
  pub string_of : Value → String
  string_of undefined = "undefined"
  string_of null = "null"
  string_of func = "function"
  string_of (bool b) = if b then "true" else "false"
  string_of (num (float s)) = s
  string_of (num n) = number_text n
  string_of (str s) = s
  string_of (arr vs) = join_items "," vs
  string_of (obj fs) = "[object Object]"

  pub join_items : String → Items → String
  join_items sep nil = ""
  join_items sep (cons v nil) = nullish_or v (string_of v)
  join_items sep (cons v (cons w vs)) =
      nullish_or v (string_of v) <> (sep <> join_items sep (cons w vs))
