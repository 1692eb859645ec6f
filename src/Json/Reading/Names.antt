-- ===== src/Json/Reading/Names.antt =====
-- The texts that `JSON.stringify` makes of arrays of names: two of them are the same only for the same
-- names.
use Prim.Native.Char.{Char, char, code}
use text.Mathlib.TextLemmas.{
  nil-append, cons-append, append_assoc, head-eq_of_cons-eq, tail-eq_of_cons-eq,
}
use kestrel_feature_mcp.Prelude.{
  ℕ, String, false, ◌≡◌, ◌≢◌, refl, sym, ap, ◌∙◌, List, [], ◌∷◌, nat_eq, arith,
}
use mathlib.Core.Option.{some-injective}
use kestrel_feature_mcp.Value.{arr, strings}
use kestrel_feature_mcp.Json.{◌<>◌, escape_all, quote, comma, stringify_items, stringify}
use kestrel_feature_mcp.Json.Reading.{plain, read, codes, read-escape_all, codes-injective}

-- The text of the items of an array of names.
abbrev names : List String → String
names ns = stringify_items (strings ns)

-- What follows a name in the text of an array.
abbrev after : List String → String
after [] = "]"
after (n ∷ ns) = String.◌∷◌ (char 44 tt) (names (n ∷ ns) <> "]")

quote-append :
    (n t : String)
    → quote n <> t ≡ String.◌∷◌ (char 34 tt) (escape_all n <> String.◌∷◌ (char 34 tt) t)
unfolding quote
quote-append n t =
    rw (append_assoc, cons-append, nil-append, append_assoc, cons-append, nil-append) refl

opens :
    (n : String) (ns : List String)
    → (rest : String) × (names (n ∷ ns) ≡ String.◌∷◌ (char 34 tt) rest)
unfolding stringify_items quote
opens n [] = (escape_all n <> "\"", rw (cons-append, nil-append) refl)
opens n (m ∷ ns) =
    let (rest, e) = opens m ns in
    (_, ap (comma (quote n)) e ∙ quote-append n ("," <> String.◌∷◌ (char 34 tt) rest))

then_comma : (s t : String) → ("," <> s) <> t ≡ String.◌∷◌ (char 44 tt) (s <> t)
then_comma s t = rw (append_assoc, cons-append, nil-append) refl

names-read :
    (n : String) (ns : List String)
    → names (n ∷ ns) <> "]"
      ≡ String.◌∷◌ (char 34 tt) (escape_all n <> String.◌∷◌ (char 34 tt) (after ns))
unfolding stringify_items
names-read n [] = quote-append n "]"
names-read n (m ∷ ns) =
    let (rest, e) = opens m ns in
    ap (λ (x : String). comma (quote n) x <> "]") e
    ∙ rw append_assoc (quote-append n (("," <> String.◌∷◌ (char 34 tt) rest) <> "]"))
    ∙ ap (λ (x : String). String.◌∷◌ (char 34 tt) (escape_all n <> String.◌∷◌ (char 34 tt) x))
        (then_comma (String.◌∷◌ (char 34 tt) rest) "]"
          ∙ ap (λ (x : String). String.◌∷◌ (char 44 tt) (x <> "]")) (sym e))

apart :
    (a b : Char) (s t : String) → nat_eq (code a) (code b) ≡ false → String.◌∷◌ a s ≢ String.◌∷◌ b t
apart a b s t other h = let same : code a ≡ code b = ap code (head-eq_of_cons-eq h) in ground arith

first_name :
    (n m : String) (ns ms : List String)
    → names (n ∷ ns) <> "]" ≡ names (m ∷ ms) <> "]"
    → (n ≡ m) × (after ns ≡ after ms)
first_name n m ns ms h =
    let bodies = tail-eq_of_cons-eq (sym (names-read n ns) ∙ h ∙ names-read m ms) in
    let parts =
      some-injective (codes n, after ns) (codes m, after ms)
        (sym (read-escape_all n (after ns))
          ∙ ap (read plain) bodies
          ∙ read-escape_all m (after ms)) in
    (
      codes-injective n m (ap (λ (x : List ℕ × String). x.0) parts),
      ap (λ (x : List ℕ × String). x.1) parts,
    )

after-injective : (ns ms : List String) → after ns ≡ after ms → ns ≡ ms
after-injective [] [] h = refl
after-injective [] (m ∷ ms) h = absurd (apart (char 93 tt) (char 44 tt) _ _ refl h)
after-injective (n ∷ ns) [] h = absurd (apart (char 44 tt) (char 93 tt) _ _ refl h)
after-injective (n ∷ ns) (m ∷ ms) h =
    let (first, rest) = first_name n m ns ms (tail-eq_of_cons-eq h) in
    let same = after-injective ns ms rest in cc

names-injective : (ns ms : List String) → names ns <> "]" ≡ names ms <> "]" → ns ≡ ms
unfolding stringify_items
names-injective [] [] h = refl
names-injective [] (m ∷ ms) h =
    absurd (apart (char 93 tt) (char 34 tt) _ _ refl (sym (nil-append "]") ∙ h ∙ names-read m ms))
names-injective (n ∷ ns) [] h =
    absurd (apart (char 34 tt) (char 93 tt) _ _ refl (sym (names-read n ns) ∙ h ∙ nil-append "]"))
names-injective (n ∷ ns) (m ∷ ms) h =
    let (first, rest) = first_name n m ns ms h in let same = after-injective ns ms rest in cc

-- Arrays of texts with one JSON text are the same.
pub stringify-strings_injective :
    (ns ms : List String) → stringify (arr (strings ns)) ≡ stringify (arr (strings ms)) → ns ≡ ms
unfolding stringify
stringify-strings_injective ns ms h =
    names-injective ns ms
      (tail-eq_of_cons-eq (sym (bracketed ns) ∙ some-injective _ _ h ∙ bracketed ms))
  where
    bracketed :
        (ks : List String) → "[" <> (names ks <> "]") ≡ String.◌∷◌ (char 91 tt) (names ks <> "]")
    bracketed ks = rw (cons-append, nil-append) refl
