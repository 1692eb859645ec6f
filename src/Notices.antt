-- ===== src/Notices.antt =====
-- web/build-notices.mjs, `embeddedPackageReferences`: the packages that a distribution already
-- embeds, by the paths of its source map.
pub mod Identity
pub mod References
use Prim.Native.String
use kestrel_feature_mcp.Prelude.{
  Char, code, String, Bool, true, false, not, ◌&&◌, ◌||◌, Option, none, some, List, [], ◌∷◌, ◌++◌,
  leb, nat_eq, includes, is_blank, split, contains, sort, ◌==◌, Outcome, ok, throw, ◌>>=◌, ◌>>◌,
  require, or_throw, error, type_error, if◌then◌else◌,
}
use kestrel_feature_mcp.Json.{◌<>◌}
use kestrel_feature_mcp.Value.{
  Value, undefined, null, func, bool, num, str, arr, obj, Items, nil, cons,
}

-- The texts of an array; none of an array with another value, or of another value.
abbrev pub item_texts : Items → Option (List String)
item_texts nil = some []
item_texts (cons (str s) vs) = elim (item_texts vs) [ none ↦ none | some ss ↦ some (s ∷ ss) ]
item_texts (cons v vs) = none

abbrev pub source_paths : Value → Option (List String)
source_paths (arr vs) = item_texts vs
source_paths v = none

abbrev pub is_scope : String → Bool
is_scope String.[] = false
is_scope (String.◌∷◌ c s) = nat_eq (code c) b'@' && not (is_blank s)

-- `((?:@[^/]+\/)?[^/]+)\/` at the head of a path's segments.
abbrev pub package_name : List String → Option String
package_name (s ∷ t ∷ u ∷ segments) =
    if is_scope s && not (is_blank t)
    then some (s <> ("/" <> t))
    else if is_blank s
    then none
    else some s
package_name (s ∷ t ∷ []) = if is_blank s then none else some s
package_name segments = none

-- The two groups of the pattern, from a segment on.
abbrev pub match_here : List String → Option (String × String)
match_here (modules ∷ store ∷ locator ∷ inner ∷ segments) =
    let name = package_name segments in
    if modules == "node_modules"
      && store == ".pnpm"
      && not (is_blank locator)
      && inner == "node_modules"
    then elim name [ none ↦ none | some n ↦ some (locator, n) ]
    else none
match_here segments = none

-- The groups of the first match in a path, given by its segments.
abbrev pub match_path : List String → Option (String × String)
match_path [] = none
match_path (s ∷ segments) =
    let rest = match_path segments in
    elim (match_here (s ∷ segments)) [ none ↦ rest | some groups ↦ some groups ]

abbrev pub first_part : List String → String
first_part [] = ""
first_part (s ∷ ss) = s

abbrev last_part : List String → String
last_part [] = ""
last_part (s ∷ []) = s
last_part (s ∷ t ∷ ss) = last_part (t ∷ ss)

-- `replace('/', '+')`, which is of the first.
abbrev pub replace_slash : String → String
replace_slash String.[] = String.[]
replace_slash (String.◌∷◌ c s) =
    let rest = replace_slash s in if nat_eq (code c) b'/' then "+" <> s else String.◌∷◌ c rest

abbrev is_digit : Char → Bool
is_digit c = leb b'0' (code c) && leb (code c) b'9'

-- `[\w.-]`
abbrev is_tag_char : Char → Bool
is_tag_char c =
    leb b'A' (code c) && leb (code c) b'Z'
    || leb b'a' (code c) && leb (code c) b'z'
    || is_digit c
    || nat_eq (code c) b'_'
    || nat_eq (code c) b'.'
    || nat_eq (code c) b'-'

abbrev all_tag_chars : String → Bool
all_tag_chars String.[] = true
all_tag_chars (String.◌∷◌ c s) = is_tag_char c && all_tag_chars s

-- `(?:[-+][\w.-]+)?$`
abbrev is_tag : String → Bool
is_tag String.[] = true
is_tag (String.◌∷◌ c s) =
    (nat_eq (code c) b'-' || nat_eq (code c) b'+') && not (is_blank s) && all_tag_chars s

-- What follows on the digits and the dots of the pattern, which leave no choice.
abbrev skip_digits : String → String
skip_digits String.[] = String.[]
skip_digits (String.◌∷◌ c s) =
    let rest = skip_digits s in if is_digit c then rest else String.◌∷◌ c s

abbrev after_digits : String → Option String
after_digits String.[] = none
after_digits (String.◌∷◌ c s) = if is_digit c then some (skip_digits s) else none

abbrev after_dot : Option String → Option String
after_dot none = none
after_dot (some String.[]) = none
after_dot (some (String.◌∷◌ c s)) = if nat_eq (code c) b'.' then some s else none

abbrev digits_of : Option String → Option String
digits_of none = none
digits_of (some s) = after_digits s

-- `/^\d+\.\d+\.\d+(?:[-+][\w.-]+)?$/`
abbrev pub is_version : String → Bool
is_version s = elim (digits_of (after_dot (digits_of (after_dot (after_digits s))))) [
  | none ↦ false
  | some rest ↦ is_tag rest
]

-- A package's identity by the locator of its folder and its name.
abbrev pub locator_of : String → String
unfolding split
locator_of group = first_part (split b'_' group)

abbrev pub version_of : String → String
unfolding split
version_of locator = last_part (split b'@' locator)

abbrev pub is_identity : String → String → String → Bool
is_identity locator name version =
    locator == replace_slash name <> ("@" <> version) && is_version version

-- The package that a path of a source names.
unfoldable pub read_identity : String → Outcome String
unfolding split
read_identity source = do
  groups ←
      or_throw (match_path (split b'/' source))
        (error ("Unsupported embedded dependency source path: " <> source))
  let locator = locator_of groups.0 in
      let version = version_of locator in
      require (is_identity locator groups.1 version)
        (error ("Invalid embedded dependency identity: " <> source))
      >> ok (groups.1 <> ("@" <> version))

abbrev pub is_embedded : String → Bool
is_embedded source = contains "node_modules/" source

-- `packages.add(…)`, with the packages in a list.
abbrev pub add_once : String → List String → List String
add_once key [] = key ∷ []
add_once key (k ∷ keys) = let rest = add_once key keys in if k == key then k ∷ keys else k ∷ rest

unfoldable pub collect_references : List String → List String → Outcome (List String)
unfolding read_identity
collect_references [] packages = ok packages
collect_references (source ∷ sources) packages =
    let skipped = collect_references sources packages in
    if is_embedded source
    then elim (read_identity source) [
      | throw e ↦ throw e
      | ok key ↦ collect_references sources (add_once key packages)
    ]
    else skipped

unfoldable pub embedded_package_references : Value → Outcome (List String)
unfolding collect_references
embedded_package_references sources = do
  paths ←
      or_throw (source_paths sources) (type_error "Dependency source map must contain source paths")
  packages ← collect_references paths []
  ok (sort packages)
