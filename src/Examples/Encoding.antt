-- ===== src/Examples/Encoding.antt =====
-- An encoding of texts for the tests, one number for a character, with its decoder.
use Prim.Native.Char.{Char, char, code, IsLt}
use Prim.Native.Nat.{Ordering, compare}
use kestrel_feature_mcp.Prelude.{ℕ, String, Option, none, some, [], ◌∷◌, ◌≡◌, refl, ap, ◌∙◌}
use kestrel_feature_mcp.Assets.{Bytes}

abbrev BothLt : Ordering → Ordering → Type 0
BothLt Ordering.lt o = IsLt o
BothLt Ordering.eq o = ⊥
BothLt Ordering.gt o = ⊥

-- Whether a number is a character's, by its comparisons with the bounds of the surrogates and the end.
abbrev IsCode : Ordering → Ordering → Ordering → Type 0
IsCode Ordering.lt o p = Unit
IsCode Ordering.eq o p = BothLt o p
IsCode Ordering.gt o p = BothLt o p

abbrev check_below : (o : Ordering) → Option (IsLt o)
check_below Ordering.lt = some tt
check_below Ordering.eq = none
check_below Ordering.gt = none

abbrev check_both : (o p : Ordering) → Option (BothLt o p)
check_both Ordering.lt p = check_below p
check_both Ordering.eq p = none
check_both Ordering.gt p = none

abbrev check_code : (o p q : Ordering) → Option (IsCode o p q)
check_code Ordering.lt p q = some tt
check_code Ordering.eq p q = check_both p q
check_code Ordering.gt p q = check_both p q

check_both_lem : (o p : Ordering) (h : BothLt o p) → check_both o p ≡ some h
check_both_lem Ordering.lt Ordering.lt h = refl
check_both_lem Ordering.lt Ordering.eq h = elim h [ ]
check_both_lem Ordering.lt Ordering.gt h = elim h [ ]
check_both_lem Ordering.eq p h = elim h [ ]
check_both_lem Ordering.gt p h = elim h [ ]

check_code_lem : (o p q : Ordering) (h : IsCode o p q) → check_code o p q ≡ some h
check_code_lem Ordering.lt p q h = refl
check_code_lem Ordering.eq p q h = check_both_lem p q h
check_code_lem Ordering.gt p q h = check_both_lem p q h

abbrev IsCharCode : ℕ → Type 0
IsCharCode n = IsCode (compare n 55296) (compare 57343 n) (compare n 1114112)

abbrev char_from : (n : ℕ) → Option (IsCharCode n) → Option Char
char_from n none = none
char_from n (some h) = some (char n h)

abbrev char_of : ℕ → Option Char
char_of n = char_from n (check_code (compare n 55296) (compare 57343 n) (compare n 1114112))

char_of_lem : (n : ℕ) (h : IsCharCode n) → char_of n ≡ some (char n h)
char_of_lem n h =
    ap (char_from n) (check_code_lem (compare n 55296) (compare 57343 n) (compare n 1114112) h)

abbrev joined : Option Char → Option String → Option String
joined (some c) (some s) = some (String.◌∷◌ c s)
joined o p = none

abbrev pub encode_text : String → Bytes
encode_text String.[] = []
encode_text (String.◌∷◌ c s) = code c ∷ encode_text s

abbrev pub decode_codes : Bytes → Option String
decode_codes [] = some String.[]
decode_codes (n ∷ ns) = joined (char_of n) (decode_codes ns)

pub decode_codes-encode_text : (s : String) → decode_codes (encode_text s) ≡ some s
decode_codes-encode_text String.[] = refl
decode_codes-encode_text (String.◌∷◌ (char n h) s) =
    ap (λ (o : Option Char). joined o (decode_codes (encode_text s))) (char_of_lem n h)
    ∙ ap (joined (some (char n h))) (decode_codes-encode_text s)
