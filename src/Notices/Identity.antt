-- ===== src/Notices/Identity.antt =====
-- web/build-notices.mjs: the package that a path of a source map names, by the parts of the path.
use kestrel_feature_mcp.Prelude.{
  lacks, All, nat_eq, code, ℕ, add_first, String, Bool, true, false, ◌≡◌, refl, ap, sym, ◌∙◌, ◌⊎◌,
  inl, inr, ◌&&◌, not, Option, none, some, List, [], ◌∷◌, ◌++◌, split, is_blank, eq_iff, arith,
  Bool-cases, ok, ok-injective, >>=-eq-ok, require->>=, or_throw-eq-ok, or_throw, error, ◌==◌,
  if◌then◌else◌, and-true_parts,
}
use mathlib.Core.Path.{subst}
use text.Mathlib.TextLemmas.{nil-append, cons-append}
use kestrel_feature_mcp.Json.{◌<>◌}
use kestrel_feature_mcp.Notices.{
  is_scope, package_name, match_here, match_path, replace_slash, first_part, locator_of, version_of,
  is_version, is_identity, read_identity,
}

-- The segments begin with a scope and a name in it, and go on.
pub record IsScoped (segments : List String) (name : String) : Type 0 where
  pub scope : String
  pub inner : String
  pub next : String
  pub rest : List String
  pub parts : segments ≡ scope ∷ inner ∷ next ∷ rest
  pub at : is_scope scope ≡ true
  pub named : is_blank inner ≡ false
  pub whole : name ≡ scope <> ("/" <> inner)

-- They begin with a name alone, and go on: it is no scope, or no name in it follows that goes on.
pub record IsPlain (segments : List String) (name : String) : Type 0 where
  pub next : String
  pub rest : List String
  pub parts : segments ≡ name ∷ next ∷ rest
  pub named : is_blank name ≡ false
  pub alone : (is_scope name ≡ false) ⊎ ((is_blank next ≡ true) ⊎ (rest ≡ []))

some-injective : {a b : String} → some a ≡ some b → a ≡ b
some-injective h = cc

plain :
    (s t : String) (rest : List String) (name : String)
    → (if is_blank s then none else some s) ≡ some name
    → (is_scope s ≡ false) ⊎ ((is_blank t ≡ true) ⊎ (rest ≡ []))
    → IsPlain (s ∷ t ∷ rest) name
plain s t rest name h alone = elim (Bool-cases (is_blank s)) [
  | inl blank ↦ (let none_is : none ≡ some name = rw blank at h in cc)
  | inr named ↦
      (let same : some s ≡ some name = rw named at h in
        subst (λ (n : String). IsPlain (s ∷ t ∷ rest) n) (some-injective same)
          (record { next = t; rest = rest; parts = refl; named = named; alone = alone }))
]

package_name_lem :
    (segments : List String) (name : String)
    → package_name segments ≡ some name
    → IsScoped segments name ⊎ IsPlain segments name
package_name_lem [] name h = cc
package_name_lem (s ∷ []) name h = cc
package_name_lem (s ∷ t ∷ []) name h = inr (plain s t [] name h (inr (inr refl)))
package_name_lem (s ∷ t ∷ u ∷ segments) name h =
    elim (Bool-cases (is_scope s && not (is_blank t))) [
      | inl scoped ↦
          (let whole : some (s <> ("/" <> t)) ≡ some name = rw scoped at h in
            inl (record {
              scope = s;
              inner = t;
              next = u;
              rest = segments;
              parts = refl;
              at = ground arith;
              named = ground arith;
              whole = sym (some-injective whole);
            }))
      | inr other ↦ inr (
          plain s t (u ∷ segments) name (rw other at h) (elim (Bool-cases (is_scope s)) [
            | inl is_one ↦ inr (inl (ground arith))
            | inr not_one ↦ inl not_one
          ]))
    ]

-- The folder of a package in the store of pnpm, and its name, among the segments of a path.
pub record IsPlaced (segments : List String) (group name : String) : Type 0 where
  pub before : List String
  pub after : List String
  pub parts : segments ≡ before ++ "node_modules" ∷ ".pnpm" ∷ group ∷ "node_modules" ∷ after
  pub folder : is_blank group ≡ false
  pub called : IsScoped after name ⊎ IsPlain after name

match_here_lem :
    (segments : List String) (group name : String)
    → match_here segments ≡ some (group, name)
    → IsPlaced segments group name
match_here_lem [] group name h = cc
match_here_lem (a ∷ []) group name h = cc
match_here_lem (a ∷ b ∷ []) group name h = cc
match_here_lem (a ∷ b ∷ c ∷ []) group name h = cc
match_here_lem (a ∷ b ∷ c ∷ d ∷ after) group name h =
    by_name (a == "node_modules" && b == ".pnpm" && not (is_blank c) && d == "node_modules") refl
      (package_name after) refl h
  where
    by_name :
        (x : Bool)
        → (a == "node_modules" && b == ".pnpm" && not (is_blank c) && d == "node_modules") ≡ x
        → (o : Option String) → package_name after ≡ o
        → if◌then◌else◌ {A = Option (String × String)} x
            (elim o [ none ↦ none | some n ↦ some (c, n) ])
            none
          ≡ some (group, name)
        → IsPlaced (a ∷ b ∷ c ∷ d ∷ after) group name
    by_name false t o e h = cc
    by_name true t none e h = cc
    by_name true t (some n) e h =
        let first : a ≡ "node_modules" = (eq_iff a "node_modules").0 (ground arith) in
        let second : b ≡ ".pnpm" = (eq_iff b ".pnpm").0 (ground arith) in
        let fourth : d ≡ "node_modules" = (eq_iff d "node_modules").0 (ground arith) in
        let third : c ≡ group = cc in
        let last : n ≡ name = cc in
        record {
          before = [];
          after = after;
          parts = rw (first, second, third, fourth) refl;
          folder = subst (λ (g : String). is_blank g ≡ false) third (ground arith);
          called = package_name_lem after name (e ∙ ap some last);
        }

match_path_lem :
    (segments : List String) (group name : String)
    → match_path segments ≡ some (group, name)
    → IsPlaced segments group name
match_path_lem [] group name h = cc
match_path_lem (s ∷ segments) group name h =
    by_match (match_here (s ∷ segments)) refl h (match_path_lem segments group name)
  where
    by_match :
        (o : Option (String × String))
        → match_here (s ∷ segments) ≡ o
        → elim o [ none ↦ match_path segments | some groups ↦ some groups ] ≡ some (group, name)
        → (match_path segments ≡ some (group, name) → IsPlaced segments group name)
        → IsPlaced (s ∷ segments) group name
    by_match (some groups) e h later = match_here_lem (s ∷ segments) group name (e ∙ h)
    by_match none e h later =
        let i = later h in
        record {
          before = s ∷ i.before;
          after = i.after;
          parts = ap (λ (ss : List String). s ∷ ss) i.parts;
          folder = i.folder;
          called = i.called;
        }

flat_plain : (s : String) → lacks b'/' s ≡ true → replace_slash s ≡ s
flat_plain String.[] h = refl
flat_plain (String.◌∷◌ c s) h =
    let (other, rest) = and-true_parts (not (nat_eq (code c) b'/')) (lacks b'/' s) h in
    let here : nat_eq (code c) b'/' ≡ false = ground arith in
    rw here (ap (λ (t : String). String.◌∷◌ c t) (flat_plain s rest))

flat_scoped :
    (s t : String) → lacks b'/' s ≡ true → replace_slash (s <> ("/" <> t)) ≡ s <> ("+" <> t)
flat_scoped String.[] t h =
    rw (nil-append ("/" <> t), nil-append ("+" <> t), cons-append "/" String.[] t, nil-append t)
      refl
flat_scoped (String.◌∷◌ c s) t h =
    let (other, rest) = and-true_parts (not (nat_eq (code c) b'/')) (lacks b'/' s) h in
    let here : nat_eq (code c) b'/' ≡ false = ground arith in
    rw (cons-append c s ("/" <> t), cons-append c s ("+" <> t), here)
      (ap (λ (u : String). String.◌∷◌ c u) (flat_scoped s t rest))

split-All_lacks : (n : ℕ) (s : String) → All (λ (t : String). lacks n t ≡ true) (split n s)
unfolding split
split-All_lacks n String.[] = (refl, tt)
split-All_lacks n (String.◌∷◌ c s) = elim (Bool-cases (nat_eq (code c) n)) [
  | inl here ↦ rw here (refl, split-All_lacks n s)
  | inr other ↦ rw other (firsts (split n s) other (split-All_lacks n s))
]
  where
    firsts :
        (ss : List String)
        → nat_eq (code c) n ≡ false
        → All (λ (t : String). lacks n t ≡ true) ss
        → All (λ (t : String). lacks n t ≡ true) (add_first c ss)
    firsts [] other a = rw other (refl, tt)
    firsts (t ∷ ss) other a = rw other a

-- The name with `+` for the slash behind its scope.
abbrev pub flat_of :
    {after : List String} {name : String} → IsScoped after name ⊎ IsPlain after name → String
flat_of (inl s) = s.scope <> ("+" <> s.inner)
flat_of {after} {name} (inr p) = name

All-after :
    (P : String → Type 0) (before after : List String) → All P (before ++ after) → All P after
All-after P [] after a = a
All-after P (s ∷ before) after a = All-after P before after a.1

replace_slash_lem :
    (after : List String) (name : String) (called : IsScoped after name ⊎ IsPlain after name)
    → All (λ (s : String). lacks b'/' s ≡ true) after
    → replace_slash name ≡ flat_of called
replace_slash_lem after name (inl s) a =
    let parts = subst (All (λ (x : String). lacks b'/' x ≡ true)) s.parts a in
    ap replace_slash s.whole ∙ flat_scoped s.scope s.inner parts.0
replace_slash_lem after name (inr p) a =
    let parts = subst (All (λ (x : String). lacks b'/' x ≡ true)) p.parts a in
    flat_plain name parts.0

-- A path names a package: the segments have its folder in the store and then its name, the folder's
-- name up to its first `_` is this name and a version, and the version is one.
pub record IsIdentity (source key : String) : Type 0 where
  pub group : String
  pub name : String
  pub version : String
  pub suffixes : List String
  pub placed : IsPlaced (split b'/' source) group name
  pub locator : split b'_' group ≡ (flat_of placed.called <> ("@" <> version)) ∷ suffixes
  pub release : is_version version ≡ true
  pub key_is : key ≡ name <> ("@" <> version)

locator_lem :
    (parts : List String) (name version : String)
    → (first_part parts == replace_slash name <> ("@" <> version)) ≡ true
    → is_version (version_of (first_part parts)) ≡ true
    → (suffixes : List String) × (parts ≡ (replace_slash name <> ("@" <> version)) ∷ suffixes)
unfolding split
locator_lem [] name version h v = cc
locator_lem (s ∷ parts) name version h v =
    (parts, ap (λ (t : String). t ∷ parts) ((eq_iff s _).0 h))

pub read_identity-IsIdentity :
    (source key : String) → read_identity source ≡ ok key → IsIdentity source key
unfolding read_identity
read_identity-IsIdentity source key h =
    let (groups, found, h1) =
      >>=-eq-ok
        (or_throw (match_path (split b'/' source))
          (error ("Unsupported embedded dependency source path: " <> source)))
        _ h in
    let (good, made) =
      require->>= (is_identity (locator_of groups.0) groups.1 (version_of (locator_of groups.0))) _
        _ h1 in
    let (same, release) = and-true_parts _ _ good in
    let (suffixes, parts) =
      locator_lem (split b'_' groups.0) groups.1 (version_of (locator_of groups.0)) same release in
    let placed =
      match_path_lem (split b'/' source) groups.0 groups.1
        (or_throw-eq-ok (match_path (split b'/' source)) _ found) in
    let segments =
      subst (All (λ (x : String). lacks b'/' x ≡ true)) placed.parts
        (split-All_lacks b'/' source) in
    let within = (All-after _ placed.before _ segments).1.1.1.1 in
    let flat = replace_slash_lem placed.after groups.1 placed.called within in
    record {
      group = groups.0;
      name = groups.1;
      version = version_of (locator_of groups.0);
      suffixes = suffixes;
      placed = placed;
      locator =
          parts
          ∙ ap (λ (f : String). (f <> ("@" <> version_of (locator_of groups.0))) ∷ suffixes) flat;
      release = release;
      key_is = sym (ok-injective made);
    }
