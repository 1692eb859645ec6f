-- ===== src/Json/Reading.antt =====
-- A quoted text of `JSON.stringify` is read back, up to its closing quote.
pub mod Names
use Prim.Native.String.{slice}
use Prim.Native.String
use Prim.Native.Char.{Char, char, code}
use text.Mathlib.TextLemmas.{
  nil-append, cons-append, append_assoc, head-eq_of_cons-eq, tail-eq_of_cons-eq,
}
use text.Mathlib.TextEquality.{Char-path}
use mathlib.Core.Path.{subst}
use kestrel_feature_mcp.Prelude.{
  ℕ, zero, suc, ◌+◌, ◌*◌, ◌-◌, ◌/◌, ◌%◌, ◌<◌, String, Bool, true, false, ◌≡◌, ◌≢◌, refl, sym, ap,
  ◌∙◌, Option, none, some, List, [], ◌∷◌, inl, inr, Bool-cases, nat_eq, leb, ltb, arith,
  if◌then◌else◌,
}
use mathlib.Core.Option.{some-injective}
use kestrel_feature_mcp.Value.{arr, str, cons, nil, strings}
use kestrel_feature_mcp.Json.{
  ◌<>◌, digit, escape, escape_all, quote, comma, stringify_value, stringify_items, stringify,
}

-- Where a reader stands in a quoted text: `hex k v` has read digits of the value `v`, and `k + 1` more
-- are to come.
data Mode : Type 0 where
  plain escaped : Mode
  hex : ℕ → ℕ → Mode

data Action : Type 0 where
  stop : Action
  emit : ℕ → Action
  turn : Mode → Action

abbrev hex_value : ℕ → ℕ
hex_value c = if leb c b'9' then c - b'0' else c - 87

abbrev unescaped : ℕ → ℕ
unescaped c =
    if nat_eq c b'b'
    then 8
    else if nat_eq c b't'
    then 9
    else if nat_eq c b'n'
    then 10
    else if nat_eq c b'f'
    then 12
    else if nat_eq c b'r'
    then 13
    else c

abbrev next : Mode → ℕ → Action
next plain c = if nat_eq c b'"' then stop else if nat_eq c 92 then turn escaped else emit c
next escaped c = if nat_eq c b'u' then turn (hex 3 0) else emit (unescaped c)
next (hex zero v) c = emit (v * 16 + hex_value c)
next (hex (suc k) v) c = turn (hex k (v * 16 + hex_value c))

abbrev push : ℕ → Option (List ℕ × String) → Option (List ℕ × String)
push n none = none
push n (some (ns, rest)) = some (n ∷ ns, rest)

-- The codes up to the closing quote, with what follows it.
abbrev read : Mode → String → Option (List ℕ × String)
read m String.[] = none
read m (String.◌∷◌ c s) = elim (next m (code c)) [
  | stop ↦ some ([], s)
  | emit n ↦ push n (read plain s)
  | turn m' ↦ read m' s
]

-- One turn of the reader.
abbrev act : String → Action → Option (List ℕ × String)
act s stop = some ([], s)
act s (emit n) = push n (read plain s)
act s (turn m) = read m s

read-next :
    (m : Mode) (c : Char) (s : String) (a : Action)
    → next m (code c) ≡ a
    → read m (String.◌∷◌ c s) ≡ act s a
read-next m c s a h = made (next m (code c)) ∙ ap (act s) h
  where
    made :
        (x : Action)
        → elim x [ stop ↦ some ([], s) | emit n ↦ push n (read plain s) | turn m' ↦ read m' s ]
          ≡ act s x
    made stop = refl
    made (emit n) = refl
    made (turn m') = refl

-- A statement for each number below a bound, from the last one down.
abbrev Table : (ℕ → Type 0) → ℕ → Type 0
Table P zero = Unit
Table P (suc k) = P k × Table P k

by_table : (P : ℕ → Type 0) (k n : ℕ) → Table P k → n < k → P n
by_table P zero n t h = absurd (omega arith)
by_table P (suc k) n t h = elim (Bool-cases (nat_eq n k)) [
  | inl same ↦ (let e : k ≡ n = ground arith in subst P e t.0)
  | inr other ↦ by_table P k n t.1 (ground arith)
]

abbrev IsDigit : ℕ → Type 0
IsDigit n = (c : Char) × (digit n ≡ String.◌∷◌ c String.[]) × (hex_value (code c) ≡ n)

digits : Table IsDigit 16
unfolding digit
digits = (
  (char 102 tt, refl, refl),
  (
    (char 101 tt, refl, refl),
    (
      (char 100 tt, refl, refl),
      (
        (char 99 tt, refl, refl),
        (
          (char 98 tt, refl, refl),
          (
            (char 97 tt, refl, refl),
            (
              (char 57 tt, refl, refl),
              (
                (char 56 tt, refl, refl),
                (
                  (char 55 tt, refl, refl),
                  (
                    (char 54 tt, refl, refl),
                    (
                      (char 53 tt, refl, refl),
                      (
                        (char 52 tt, refl, refl),
                        (
                          (char 51 tt, refl, refl),
                          (
                            (char 50 tt, refl, refl),
                            ((char 49 tt, refl, refl), ((char 48 tt, refl, refl), tt)),
                          ),
                        ),
                      ),
                    ),
                  ),
                ),
              ),
            ),
          ),
        ),
      ),
    ),
  ),
)

digit_lem : (n : ℕ) → n < 16 → IsDigit n
digit_lem n h = by_table IsDigit 16 n digits h

two :
    (a b : Char) (t : String)
    → String.◌∷◌ a (String.◌∷◌ b String.[]) <> t ≡ String.◌∷◌ a (String.◌∷◌ b t)
two a b t = rw (cons-append, cons-append, nil-append) refl

short_escape :
    (e : Char) (t : String)
    → nat_eq (code e) b'u' ≡ false
    → read plain (String.◌∷◌ (char 92 tt) (String.◌∷◌ e String.[]) <> t)
      ≡ push (unescaped (code e)) (read plain t)
short_escape e t h =
    rw (two (char 92 tt) e t) (read-next escaped e t (emit (unescaped (code e))) (rw h refl))

shown :
    (c : Char) (n : ℕ) (t : String)
    → nat_eq (code c) n ≡ true
    → push n (read plain t) ≡ push (code c) (read plain t)
shown c n t h = let same : n ≡ code c = ground arith in ap (λ (m : ℕ). push m (read plain t)) same

plain_char :
    (c : Char) (t : String)
    → nat_eq (code c) 34 ≡ false
    → nat_eq (code c) 92 ≡ false
    → read plain (String.◌∷◌ c String.[] <> t) ≡ push (code c) (read plain t)
plain_char c t e34 e92 =
    rw (cons-append, nil-append) (read-next plain c t (emit (code c)) (rw (e34, e92) refl))

four :
    (t : String)
    → "\\u00" <> t
      ≡ String.◌∷◌
          (char 92 tt)
          (String.◌∷◌ (char 117 tt) (String.◌∷◌ (char 48 tt) (String.◌∷◌ (char 48 tt) t)))
four t = rw (cons-append, cons-append, cons-append, cons-append, nil-append) refl

six :
    (x y : Char) (t : String)
    → ("\\u00" <> String.◌∷◌ x String.[] <> String.◌∷◌ y String.[]) <> t
      ≡ String.◌∷◌ (char 92 tt) (
          String.◌∷◌
            (char 117 tt)
            (String.◌∷◌ (char 48 tt) (String.◌∷◌ (char 48 tt) (String.◌∷◌ x (String.◌∷◌ y t)))))
six x y t =
    rw (append_assoc, append_assoc, four, cons-append, nil-append, cons-append, nil-append) refl

control_code : (x y n : ℕ) → x ≡ n / 16 → y ≡ n % 16 → (0 * 16 + x) * 16 + y ≡ n
control_code x y n h k = omega arith

control_escape :
    (c : Char) (t : String)
    → ltb (code c) 32 ≡ true
    → read plain (("\\u00" <> digit (code c / 16) <> digit (code c % 16)) <> t)
      ≡ push (code c) (read plain t)
control_escape c t low =
    let (x, shows_x, is_x) = digit_lem (code c / 16) (ground arith) in
    let (y, shows_y, is_y) = digit_lem (code c % 16) (omega arith) in
    rw (shows_x, shows_y, six x y t)
      (ap (λ (n : ℕ). push n (read plain t)) (control_code _ _ (code c) is_x is_y))

read-escape : (c : Char) (t : String) → read plain (escape c <> t) ≡ push (code c) (read plain t)
unfolding escape
read-escape c t = elim (Bool-cases (nat_eq (code c) 34)) [
  | inl e ↦ rw e (short_escape (char 34 tt) t refl ∙ shown c 34 t e)
  | inr e34 ↦ elim (Bool-cases (nat_eq (code c) 92)) [
    | inl e ↦ rw (e34, e) (short_escape (char 92 tt) t refl ∙ shown c 92 t e)
    | inr e92 ↦ elim (Bool-cases (nat_eq (code c) 8)) [
      | inl e ↦ rw (e34, e92, e) (short_escape (char 98 tt) t refl ∙ shown c 8 t e)
      | inr e8 ↦ elim (Bool-cases (nat_eq (code c) 9)) [
        | inl e ↦ rw (e34, e92, e8, e) (short_escape (char 116 tt) t refl ∙ shown c 9 t e)
        | inr e9 ↦ elim (Bool-cases (nat_eq (code c) 10)) [
          | inl e ↦ rw (e34, e92, e8, e9, e) (short_escape (char 110 tt) t refl ∙ shown c 10 t e)
          | inr e10 ↦ elim (Bool-cases (nat_eq (code c) 12)) [
            | inl e ↦
                rw (e34, e92, e8, e9, e10, e) (short_escape (char 102 tt) t refl ∙ shown c 12 t e)
            | inr e12 ↦ elim (Bool-cases (nat_eq (code c) 13)) [
              | inl e ↦
                  rw (e34, e92, e8, e9, e10, e12, e)
                    (short_escape (char 114 tt) t refl ∙ shown c 13 t e)
              | inr e13 ↦ elim (Bool-cases (ltb (code c) 32)) [
                | inl low ↦ rw (e34, e92, e8, e9, e10, e12, e13, low) (control_escape c t low)
                | inr high ↦ rw (e34, e92, e8, e9, e10, e12, e13, high) (plain_char c t e34 e92)
              ]
            ]
          ]
        ]
      ]
    ]
  ]
]

abbrev codes : String → List ℕ
codes String.[] = []
codes (String.◌∷◌ c s) = code c ∷ codes s

read-escape_all :
    (s t : String) → read plain (escape_all s <> (String.◌∷◌ (char 34 tt) t)) ≡ some (codes s, t)
unfolding escape_all
read-escape_all String.[] t = rw nil-append refl
read-escape_all (String.◌∷◌ c s) t = rw append_assoc (
    read-escape c (escape_all s <> String.◌∷◌ (char 34 tt) t)
    ∙ ap (push (code c)) (read-escape_all s t))

abbrev head_code : List ℕ → ℕ
head_code [] = 0
head_code (n ∷ ns) = n

abbrev tail_codes : List ℕ → List ℕ
tail_codes [] = []
tail_codes (n ∷ ns) = ns

codes-injective : (s t : String) → codes s ≡ codes t → s ≡ t
codes-injective String.[] String.[] h = refl
codes-injective String.[] (String.◌∷◌ d t) h = cc
codes-injective (String.◌∷◌ c s) String.[] h = cc
codes-injective (String.◌∷◌ c s) (String.◌∷◌ d t) h =
    let first = Char-path c d (ap head_code h) in
    let rest = codes-injective s t (ap tail_codes h) in cc
