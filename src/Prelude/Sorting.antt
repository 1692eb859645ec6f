-- ===== src/Prelude/Sorting.antt =====
-- `sort` of an array of texts: by insertion, stable, in the order of their UTF-16 code units.
use Prim.Native.Nat.{ℕ}
use Prim.Native.String.{String}
use mathlib.Core.Path.{◌≡◌, refl, ◌∙◌}
use mathlib.Core.Logic.{inl, inr}
use mathlib.Core.Bool.{Bool, true, false, ◌&&◌, ◌||◌}
use mathlib.Core.List.{List, [], ◌∷◌}
use native.Mathlib.Omega.{arith}
use text.Mathlib.Text.{◌==◌}
use kestrel_feature_mcp.Prelude.Tests.{ltb, nat_eq, Bool-cases, if◌then◌else◌}
use kestrel_feature_mcp.Prelude.Lists.{includes}
use kestrel_feature_mcp.Prelude.Text.{utf16_units}

abbrev pub units_leb : List ℕ → List ℕ → Bool
units_leb [] ns = true
units_leb (m ∷ ms) [] = false
units_leb (m ∷ ms) (n ∷ ns) = ltb m n || nat_eq m n && units_leb ms ns

abbrev pub text_leb : String → String → Bool
text_leb s t = units_leb (utf16_units s) (utf16_units t)

abbrev pub insert : String → List String → List String
insert s [] = s ∷ []
insert s (t ∷ ts) = let rest = insert s ts in if text_leb s t then s ∷ t ∷ ts else t ∷ rest

abbrev pub sort : List String → List String
sort [] = []
sort (s ∷ ss) = insert s (sort ss)

abbrev pub is_sorted : List String → Bool
is_sorted [] = true
is_sorted (s ∷ []) = true
is_sorted (s ∷ t ∷ ts) = text_leb s t && is_sorted (t ∷ ts)

units_total : (ms ns : List ℕ) → units_leb ms ns ≡ false → units_leb ns ms ≡ true
units_total [] ns h = ground arith
units_total (m ∷ ms) [] h = refl
units_total (m ∷ ms) (n ∷ ns) h = elim (Bool-cases (units_leb ms ns)) [
  | inl e ↦ ground arith
  | inr e ↦ (let back = units_total ms ns e in ground arith)
]

text_total : (s t : String) → text_leb s t ≡ false → text_leb t s ≡ true
text_total s t h = units_total (utf16_units s) (utf16_units t) h

insert_sorted :
    (s : String) (ts : List String) → is_sorted ts ≡ true → is_sorted (insert s ts) ≡ true
insert_sorted s [] h = refl
insert_sorted s (t ∷ []) h = elim (Bool-cases (text_leb s t)) [
  | inl e ↦ rw (e, e) refl
  | inr e ↦ rw (e, text_total s t e) refl
]
insert_sorted s (t ∷ u ∷ ts) h =
    let rest = insert_sorted s (u ∷ ts) (ground arith) in
    elim (Bool-cases (text_leb s t)) [
      | inl e ↦ ground arith
      | inr e ↦ (let back = text_total s t e in ground arith)
    ]

pub sort_sorted : (ss : List String) → is_sorted (sort ss) ≡ true
sort_sorted [] = refl
sort_sorted (s ∷ ss) = insert_sorted s (sort ss) (sort_sorted ss)

includes-insert :
    (s k : String) (ts : List String) → includes (insert s ts) k ≡ (s == k || includes ts k)
includes-insert s k [] = refl
includes-insert s k (t ∷ ts) = let rest = includes-insert s k ts in ground arith

pub includes-sort : (ss : List String) (k : String) → includes (sort ss) k ≡ includes ss k
includes-sort [] k = refl
includes-sort (s ∷ ss) k =
    let rest = includes-sort ss k in includes-insert s k (sort ss) ∙ rw rest refl
