-- ===== src/Prelude/Maps.antt =====
-- Maps as lists of pairs: `Map`, the properties of an object, the storage of a tab, a folder.
use Prim.Native.String.{String}
use mathlib.Core.Path.{◌≡◌, refl, sym, ◌∙◌, subst}
use mathlib.Core.Logic.{inl, inr}
use mathlib.Core.Bool.{Bool, true, false, not, ◌&&◌, ◌||◌}
use mathlib.Core.Option.{none, some}
use mathlib.Core.List.{List, [], ◌∷◌}
use native.Mathlib.Omega.{arith}
use text.Mathlib.Text.{◌==◌}
use text.Mathlib.TextEquality.{eq_iff}
use text.Mathlib.TextPositions.{eq_refl}
use kestrel_feature_mcp.Prelude.Tests.{if◌then◌else◌, Bool-cases}
use kestrel_feature_mcp.Prelude.Lists.{all, All, lookup, includes}

away : (key k j : String) → (key == k) ≡ true → (j == key) ≡ false → (j == k) ≡ false
away key k j h n = subst (λ (x : String). (j == x) ≡ false) ((eq_iff key k).0 h) n

pub eq_sym : (s t : String) → (s == t) ≡ false → (t == s) ≡ false
eq_sym s t h = elim (Bool-cases (t == s)) [
  | inl same ↦
      (let back = subst (λ (x : String). (x == t) ≡ false) (sym ((eq_iff t s).0 same)) h in
        let clash = eq_refl t in cc)
  | inr other ↦ other
]

-- Two names are apart where one is listed and the other is not.
pub listed_apart :
    (j k : String) (names : List String)
    → includes names j ≡ true
    → includes names k ≡ false
    → (j == k) ≡ false
listed_apart j k names here missing = elim (Bool-cases (j == k)) [
  | inl same ↦
      (let clash = subst (λ (x : String). includes names x ≡ true) ((eq_iff j k).0 same) here in cc)
  | inr other ↦ other
]

pub listed_all :
    (p : String → Bool) (k : String) (names : List String)
    → all p names ≡ true
    → includes names k ≡ true
    → p k ≡ true
listed_all p k [] h here = cc
listed_all p k (n ∷ names) h here = elim (Bool-cases (n == k)) [
  | inl same ↦ subst (λ (x : String). p x ≡ true) ((eq_iff n k).0 same) (ground arith)
  | inr other ↦ listed_all p k names (ground arith) (ground arith)
]

module _ {ℓ} {V : Type ℓ} where
  -- `set`: a key that is there keeps its place.
  abbrev pub set_item : String → V → List (String × V) → List (String × V)
  set_item key v [] = (key, v) ∷ []
  set_item key v ((k, w) ∷ m) =
      let rest = set_item key v m in if k == key then (k, v) ∷ m else (k, w) ∷ rest

  abbrev pub remove_item : String → List (String × V) → List (String × V)
  remove_item key [] = []
  remove_item key ((k, w) ∷ m) =
      let rest = remove_item key m in if k == key then rest else (k, w) ∷ rest

  abbrev pub keys : List (String × V) → List String
  keys [] = []
  keys ((k, v) ∷ m) = k ∷ keys m

  pub lookup-set_item :
      (key k : String) (v : V) (m : List (String × V))
      → lookup k (set_item key v m) ≡ (if key == k then some v else lookup k m)
  unfolding lookup
  lookup-set_item key k v [] = refl
  lookup-set_item key k v ((j, w) ∷ m) =
      let rest = lookup-set_item key k v m in
      elim (Bool-cases (j == key)) [
        | inl same ↦ rw (same, (eq_iff j key).0 same) (ground arith)
        | inr other ↦ elim (Bool-cases (key == k)) [
          | inl found ↦ rw (other, rest, found, away key k j found other) refl
          | inr missed ↦ rw (other, rest, missed) refl
        ]
      ]

  pub lookup-remove_item :
      (key k : String) (m : List (String × V))
      → lookup k (remove_item key m) ≡ (if key == k then none else lookup k m)
  unfolding lookup
  lookup-remove_item key k [] = ground arith
  lookup-remove_item key k ((j, w) ∷ m) =
      let rest = lookup-remove_item key k m in
      elim (Bool-cases (j == key)) [
        | inl same ↦ rw (same, (eq_iff j key).0 same, rest) (ground arith)
        | inr other ↦ elim (Bool-cases (key == k)) [
          | inl found ↦ rw (other, rest, found, away key k j found other) refl
          | inr missed ↦ rw (other, rest, missed) refl
        ]
      ]

  pub includes-keys-set_item :
      (key k : String) (v : V) (m : List (String × V))
      → includes (keys (set_item key v m)) k ≡ (key == k || includes (keys m) k)
  includes-keys-set_item key k v [] = refl
  includes-keys-set_item key k v ((j, w) ∷ m) =
      let rest = includes-keys-set_item key k v m in
      elim (Bool-cases (j == key)) [
        | inl same ↦ rw (same, (eq_iff j key).0 same) (ground arith)
        | inr other ↦ rw (other, rest) (ground arith)
      ]

  -- Each key stands once.
  abbrev pub are_distinct : List (String × V) → Bool
  are_distinct [] = true
  are_distinct ((k, v) ∷ m) = not (includes (keys m) k) && are_distinct m

  pub set_item_distinct :
      (key : String) (v : V) (m : List (String × V))
      → are_distinct m ≡ true
      → are_distinct (set_item key v m) ≡ true
  set_item_distinct key v [] h = refl
  set_item_distinct key v ((j, w) ∷ m) h = elim (Bool-cases (j == key)) [
    | inl same ↦ rw same h
    | inr other ↦
        (let rest = set_item_distinct key v m (ground arith) in
          rw (other, includes-keys-set_item key j v m, eq_sym j key other, rest) (ground arith))
  ]

  pub set_item-all :
      (p : String → Bool) (key : String) (v : V) (m : List (String × V))
      → p key ≡ true
      → all p (keys m) ≡ true
      → all p (keys (set_item key v m)) ≡ true
  set_item-all p key v [] h ps = rw h refl
  set_item-all p key v ((j, w) ∷ m) h ps = elim (Bool-cases (j == key)) [
    | inl same ↦ rw same (ground arith)
    | inr other ↦ (let rest = set_item-all p key v m h (ground arith) in rw other (ground arith))
  ]

  -- A key that is not there has no value.
  pub lookup_missing :
      (k : String) (m : List (String × V)) → includes (keys m) k ≡ false → lookup k m ≡ none
  unfolding lookup
  lookup_missing k [] h = refl
  lookup_missing k ((j, w) ∷ m) h =
      let rest = lookup_missing k m (ground arith) in
      let other : (j == k) ≡ false = ground arith in rw other rest

  pub lookup_present :
      (k : String) (v : V) (m : List (String × V))
      → lookup k m ≡ some v
      → includes (keys m) k ≡ true
  lookup_present k v m h = elim (Bool-cases (includes (keys m) k)) [
    | inl here ↦ here
    | inr missing ↦ (let clash = sym (lookup_missing k m missing) ∙ h in cc)
  ]

  pub lookup_found :
      (k : String) (m : List (String × V))
      → includes (keys m) k ≡ true
      → (v : V) × (lookup k m ≡ some v)
  unfolding lookup
  lookup_found k [] h = cc
  lookup_found k ((j, w) ∷ m) h = elim (Bool-cases (j == k)) [
    | inl same ↦ (w, rw same refl)
    | inr other ↦ (let (v, e) = lookup_found k m (ground arith) in (v, rw other e))
  ]

  -- What holds of each value by its key holds of the pairs.
  pub pairs_all {κ} :
      (Q : String → V → Type κ) (m : List (String × V))
      → are_distinct m ≡ true
      → ((k : String) (v : V) → lookup k m ≡ some v → Q k v)
      → All (λ (e : String × V). Q e.0 e.1) m
  unfolding lookup
  pairs_all Q [] d f = tt
  pairs_all Q ((j, w) ∷ m) d f = (
    f j w (rw (eq_refl j) refl),
    pairs_all Q m (ground arith)
        λ k v h. let here = lookup_present k v m h in f k v (rw (apart k here) h),
  )
    where
      apart : (k : String) → includes (keys m) k ≡ true → (j == k) ≡ false
      apart k here = elim (Bool-cases (j == k)) [
        | inl same ↦
            (let there =
                subst (λ (x : String). includes (keys m) x ≡ true) (sym ((eq_iff j k).0 same))
                  here in
              ground arith)
        | inr other ↦ other
      ]
