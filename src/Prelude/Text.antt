-- ===== src/Prelude/Text.antt =====
-- The operations of JavaScript's strings that the code uses. A text is a list of code points; a
-- lone surrogate, which a JavaScript string may hold, is no text here.
use Prim.Native.Nat.{ℕ, ◌+◌, ◌-◌, ◌/◌, ◌%◌}
use Prim.Native.Char.{Char, code}
use Prim.Native.String.{String, [], ◌∷◌, ◌++◌, len}
use mathlib.Core.Bool.{Bool, true, false, ◌&&◌, ◌||◌}
use mathlib.Core.List.{List}
use mathlib.Core.Path.{◌≡◌, refl}
use kestrel_feature_mcp.Prelude.Tests.{leb, nat_eq, if◌then◌else◌}

-- `WhiteSpace` and `LineTerminator` of ECMAScript, which `trim` removes.
abbrev pub is_space : Char → Bool
is_space c =
    (leb 9 (code c) && leb (code c) 13)
    || nat_eq (code c) 32
    || nat_eq (code c) 160
    || nat_eq (code c) 0x1680
    || (leb 0x2000 (code c) && leb (code c) 0x200a)
    || nat_eq (code c) 0x2028
    || nat_eq (code c) 0x2029
    || nat_eq (code c) 0x202f
    || nat_eq (code c) 0x205f
    || nat_eq (code c) 0x3000
    || nat_eq (code c) 0xfeff

unfoldable pub trim_start : String → String
trim_start [] = []
trim_start (c ∷ s) = if is_space c then trim_start s else c ∷ s

-- A space is kept in front of what is left of the rest.
abbrev pub keep_space : Char → String → String
keep_space c [] = if is_space c then [] else c ∷ []
keep_space c (d ∷ s) = c ∷ d ∷ s

unfoldable pub trim_end : String → String
trim_end [] = []
trim_end (c ∷ s) = keep_space c (trim_end s)

unfoldable pub trim : String → String
unfolding trim_start trim_end
trim s = trim_end (trim_start s)

abbrev pub is_blank : String → Bool
is_blank [] = true
is_blank (c ∷ s) = false

pub blank_lem : (s : String) → is_blank s ≡ true → s ≡ []
blank_lem [] h = refl
blank_lem (c ∷ s) h = cc

-- `join` of an array of texts.
unfoldable pub join : String → List String → String
join sep List.[] = []
join sep (List.◌∷◌ s List.[]) = s
join sep (List.◌∷◌ s (List.◌∷◌ t ts)) = s ++ (sep ++ join sep (List.◌∷◌ t ts))

abbrev pub add_first : Char → List String → List String
add_first c List.[] = List.◌∷◌ (c ∷ []) List.[]
add_first c (List.◌∷◌ s ss) = List.◌∷◌ (c ∷ s) ss

-- `split` at a character.
unfoldable pub split : ℕ → String → List String
split sep [] = List.◌∷◌ [] List.[]
split sep (c ∷ s) =
    if nat_eq (code c) sep then List.◌∷◌ [] (split sep s) else add_first c (split sep s)

-- `replaceAll` of one character by a text.
unfoldable pub replace_all : ℕ → String → String → String
replace_all old new [] = []
replace_all old new (c ∷ s) =
    if nat_eq (code c) old then new ++ replace_all old new s else c ∷ replace_all old new s

-- `length` of a string: its UTF-16 code units.
unfoldable pub utf16_length : String → ℕ
utf16_length [] = 0
utf16_length (c ∷ s) = (if leb 0x10000 (code c) then 2 else 1) + utf16_length s

-- `new TextEncoder().encode(s).byteLength`
abbrev pub utf8_length : String → ℕ
utf8_length = len

-- `startsWith`, with the text that is looked for first.
abbrev pub starts_with : String → String → Bool
starts_with [] s = true
starts_with (c ∷ prefix) [] = false
starts_with (c ∷ prefix) (d ∷ s) = nat_eq (code c) (code d) && starts_with prefix s

-- `includes` of a text.
abbrev pub contains : String → String → Bool
contains part [] = is_blank part
contains part (c ∷ s) = starts_with part (c ∷ s) || contains part s

-- A text as UTF-16 code units.
abbrev pub utf16_units : String → List ℕ
utf16_units [] = List.[]
utf16_units (c ∷ s) =
    let n = code c in
    if leb 0x10000 n
    then List.◌∷◌ (0xd800 + (n - 0x10000) / 1024)
        (List.◌∷◌ (0xdc00 + (n - 0x10000) % 1024) (utf16_units s))
    else List.◌∷◌ n (utf16_units s)
