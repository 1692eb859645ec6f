-- ===== src/Prelude/Words.antt =====
-- Splitting a joined text at its separators gives the parts back.
use Prim.Native.String.{[], ◌∷◌, ◌++◌}
use Prim.Native.String
use text.Mathlib.TextLemmas.{nil-append, cons-append}
use mathlib.Core.List
use mathlib.Core.List.{List, map}
use mathlib.Core.Path.{◌≡◌, refl, ap, ◌∙◌}
use mathlib.Core.Bool.{Bool, true, not, ◌&&◌}
use mathlib.Core.Logic.{◌≢◌, inl, inr}
use native.Mathlib.Omega.{arith}
use Prim.Native.Nat.{ℕ}
use Prim.Native.Char.{Char, code}
use kestrel_feature_mcp.Prelude.Tests.{nat_eq, Bool-cases}
use kestrel_feature_mcp.Prelude.Lists.{All, select}
use kestrel_feature_mcp.Prelude.Text.{split, join, add_first, is_blank}

abbrev Text : Type 0
Text = String.String

infixr 65 ◌<+>◌
abbrev ◌<+>◌ : List Text → List Text → List Text
xs <+> ys = List.◌++◌ xs ys

-- No character of the text has the code.
abbrev pub lacks : ℕ → Text → Bool
lacks n [] = true
lacks n (c ∷ s) = not (nat_eq (code c) n) && lacks n s

-- The parts between spaces, the empty ones left out.
abbrev pub words : Text → List Text
words s = select (λ w. not (is_blank w)) (split b' ' s)

pub lacks-append : (n : ℕ) (s t : Text) → lacks n (s ++ t) ≡ (lacks n s && lacks n t)
lacks-append n [] t = rw nil-append
lacks-append n (c ∷ s) t = rw cons-append (ground (arith, lacks-append n s t))

add_first-ne-nil : (c : Char) (xs : List Text) → add_first c xs ≢ List.[]
add_first-ne-nil c List.[] h = cc
add_first-ne-nil c (List.◌∷◌ x xs) h = cc

split-ne-nil : (sep : ℕ) (s : Text) → split sep s ≢ List.[]
unfolding split
split-ne-nil sep [] h = cc
split-ne-nil sep (c ∷ s) h = elim (Bool-cases (nat_eq (code c) sep)) [
  | inl same ↦ cc (rw (same, split) at h)
  | inr other ↦ add_first-ne-nil c (split sep s) (rw (other, split) at h)
]

add_first-append :
    (c : Char) (xs ys : List Text) → xs ≢ List.[] → add_first c (xs <+> ys) ≡ add_first c xs <+> ys
add_first-append c List.[] ys h = absurd (h refl)
add_first-append c (List.◌∷◌ x xs) ys h = refl

-- A separator inside a text splits it in two.
split-append :
    (sep : ℕ) (s t : Text) (c : Char)
    → nat_eq (code c) sep ≡ true
    → split sep (s ++ (c ∷ t)) ≡ split sep s <+> split sep t
unfolding split
split-append sep [] t c h = rw (nil-append, h)
split-append sep (d ∷ s) t c h = rw cons-append (elim (Bool-cases (nat_eq (code d) sep)) [
  | inl same ↦ rw same (ap (λ r. List.◌∷◌ [] r) (split-append sep s t c h))
  | inr other ↦ rw other (
      ap (add_first d) (split-append sep s t c h)
      ∙ add_first-append d (split sep s) (split sep t) (split-ne-nil sep s))
])

split_of_lacks : (sep : ℕ) (s : Text) → lacks sep s ≡ true → split sep s ≡ List.◌∷◌ s List.[]
unfolding split
split_of_lacks sep [] h = refl
split_of_lacks sep (c ∷ s) h = ground (arith, split_of_lacks sep s)

select-append {ℓ} :
    {A : Type ℓ} (p : A → Bool) (xs ys : List A)
    → select p (List.◌++◌ xs ys) ≡ List.◌++◌ (select p xs) (select p ys)
select-append p List.[] ys = refl
select-append p (List.◌∷◌ x xs) ys = ground (arith, select-append p xs ys)

-- A space between two texts separates their words.
pub words-append : (s t : Text) → words (s ++ (" " ++ t)) ≡ words s <+> words t
words-append s t =
    rw (cons-append, nil-append, split-append b' ' s t)
      (select-append _ (split b' ' s) (split b' ' t))

-- A word: not empty, and without a space.
abbrev pub is_word : Text → Bool
is_word s = not (is_blank s) && lacks b' ' s

pub words_of_word : (s : Text) → is_word s ≡ true → words s ≡ List.◌∷◌ s List.[]
words_of_word s h = ground (arith, split_of_lacks b' ' s)

pub words-join : (ss : List Text) → All (λ s. is_word s ≡ true) ss → words (join " " ss) ≡ ss
unfolding join split
words-join List.[] h = refl
words-join (List.◌∷◌ s List.[]) h = words_of_word s h.0
words-join (List.◌∷◌ s (List.◌∷◌ t ts)) h =
    words-append s (join " " (List.◌∷◌ t ts))
    ∙ ap (λ r. r <+> words (join " " (List.◌∷◌ t ts))) (words_of_word s h.0)
    ∙ ap (λ r. List.◌∷◌ s r) (words-join (List.◌∷◌ t ts) h.1)

pub lacks-join :
    (n : ℕ) (sep : Text) (ss : List Text)
    → lacks n sep ≡ true
    → All (λ s. lacks n s ≡ true) ss
    → lacks n (join sep ss) ≡ true
unfolding join
lacks-join n sep List.[] k h = refl
lacks-join n sep (List.◌∷◌ s List.[]) k h = h.0
lacks-join n sep (List.◌∷◌ s (List.◌∷◌ t ts)) k h =
    rw (lacks-append n s, lacks-append n sep, h.0, k) (lacks-join n sep (List.◌∷◌ t ts) k h.1)

words_of_space : (x : Text) → words (" " ∷ x) ≡ words x
unfolding split
words_of_space x = refl

space-append : (u : Text) → " " ++ u ≡ " " ∷ u
space-append u = cons-append " " "" u ∙ ap (λ r. " " ∷ r) (nil-append u)

-- What does not read a space in front of a text gives the same for the parts of a list that "; "
-- joins as for the list.
module _ {ℓ} {B : Type ℓ} (f : Text → B) (skips : (x : Text) → f (" " ∷ x) ≡ f x) where
  map-add_first_space : (xs : List Text) → xs ≢ List.[] → map f (add_first " " xs) ≡ map f xs
  map-add_first_space List.[] h = absurd (h refl)
  map-add_first_space (List.◌∷◌ x xs) h = ap (λ r. List.◌∷◌ r (map f xs)) (skips x)

  map-split_space : (u : Text) → map f (split b';' (" " ++ u)) ≡ map f (split b';' u)
  unfolding split
  map-split_space u = rw (space-append u) (map-add_first_space (split b';' u) (split-ne-nil b';' u))

  pub map-split-join :
      (s : Text) (ss : List Text)
      → All (λ t. lacks b';' t ≡ true) (List.◌∷◌ s ss)
      → map f (split b';' (join "; " (List.◌∷◌ s ss))) ≡ map f (List.◌∷◌ s ss)
  unfolding join
  map-split-join s List.[] h = ap (map f) (split_of_lacks b';' s h.0)
  map-split-join s (List.◌∷◌ t ts) h =
      let rest = join "; " (List.◌∷◌ t ts) in
      ap (map f) (
        ap (split b';') (ap (λ r. s ++ r) (cons-append ";" " " rest))
        ∙ split-append b';' s (" " ++ rest) ";" refl
        ∙ ap (λ r. r <+> split b';' (" " ++ rest)) (split_of_lacks b';' s h.0))
      ∙ ap (λ r. List.◌∷◌ (f s) r) (map-split_space rest ∙ map-split-join t ts h.1)

-- The words of the parts of a list that "; " joins.
pub words-split :
    (s : Text) (ss : List Text)
    → All (λ t. lacks b';' t ≡ true) (List.◌∷◌ s ss)
    → map words (split b';' (join "; " (List.◌∷◌ s ss))) ≡ map words (List.◌∷◌ s ss)
words-split = map-split-join words words_of_space
