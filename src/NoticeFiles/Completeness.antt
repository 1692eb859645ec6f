-- ===== src/NoticeFiles/Completeness.antt =====
-- Each package that an input embeds has its notice.
use kestrel_feature_mcp.Prelude.{
  String, Bool, true, false, ◌≡◌, refl, sym, ◌∙◌, inl, inr, not, ◌&&◌, some, List, [], ◌∷◌, ◌++◌,
  any, All, All-append, includes, is_empty, lookup, sort, includes-sort, ◌==◌, eq_iff, arith,
  Bool-cases, ok, >>=-eq-ok, or_throw-eq-ok, require->>=, or_throw, ok-injective, type_error,
  if◌then◌else◌,
}
use mathlib.Core.Path.{subst}
use mathlib.Core.Option.{some-injective}
use kestrel_feature_mcp.Json.{◌<>◌, string_of}
use kestrel_feature_mcp.Value.{Value, member, array_items, get}
use kestrel_feature_mcp.Assets.{Bytes}
use kestrel_feature_mcp.NoticeFiles.{
  Disk, License, Dependency, Notices, has_known, known_of, is_notice_inventory, read_source_map,
  gather, insert_entry, sort_entries, read_license, read_licenses, license_entries, license_text,
  notice_of, notices_of, collect_embedded_notices,
}
use kestrel_feature_mcp.NoticeFiles.Gathering.{has_input, gather_lem, sort_entries_lem}

-- The identity of a record of the inventory, or of a notice.
abbrev pub identity_of : Value → Value → String
identity_of name version = string_of name <> ("@" <> string_of version)

-- A notice for a package that an input embeds, with a licence at least.
abbrev pub is_notice : String → String → Dependency → Bool
is_notice key input n =
    identity_of n.name n.version == key && includes n.embedded_in input && not (is_empty n.licenses)

module _ (d : Disk) where
  abbrev IsKeyed : String × Value → Type 0
  IsKeyed e = e.0 ≡ identity_of (member e.1 "name") (member e.1 "version")

  get_lem : (v : Value) (k : String) (w : Value) → get v k ≡ ok w → w ≡ member v k
  unfolding get
  get_lem v k w h = ground arith

  known_of-IsKeyed :
      (rs : List Value) (known after : List (String × Value))
      → known_of rs known ≡ ok after
      → All IsKeyed known
      → All IsKeyed after
  unfolding known_of
  known_of-IsKeyed [] known after h keyed = subst (All IsKeyed) (ok-injective h) keyed
  known_of-IsKeyed (r ∷ rs) known after h keyed =
      let (name, named, h1) = >>=-eq-ok (get r "name") _ h in
      let (version, versioned, h2) = >>=-eq-ok (get r "version") _ h1 in
      let key = identity_of name version in
      let (fresh, rest) = require->>= (not (has_known key known)) _ _ h2 in
      known_of-IsKeyed rs (known ++ (key, r) ∷ []) after rest (
        All-append IsKeyed known ((key, r) ∷ []) keyed
          (rw (get_lem r "name" name named, get_lem r "version" version versioned) refl, tt))

  lookup_keyed :
      (key : String) (known : List (String × Value)) (r : Value)
      → lookup key known ≡ some r
      → All IsKeyed known
      → key ≡ identity_of (member r "name") (member r "version")
  unfolding lookup
  lookup_keyed key [] r h keyed = cc
  lookup_keyed key ((j, v) ∷ known) r h keyed =
      by_test (j == key) refl h (λ rest. lookup_keyed key known r rest keyed.1)
    where
      by_test :
          (b : Bool)
          → (j == key) ≡ b
          → (if b then some v else lookup key known) ≡ some r
          → (lookup key known ≡ some r → key ≡ identity_of (member r "name") (member r "version"))
          → key ≡ identity_of (member r "name") (member r "version")
      by_test true e h rest =
          sym ((eq_iff j key).0 e)
          ∙ subst (λ (w : Value). j ≡ identity_of (member w "name") (member w "version"))
              (some-injective v r h) keyed.0
      by_test false e h rest = rest h

  sorted_filled :
      (es : List (String × Value)) → is_empty es ≡ false → is_empty (sort_entries d es) ≡ false
  sorted_filled [] h = h
  sorted_filled (e ∷ es) h = inserted (sort_entries d es)
    where
      inserted : (fs : List (String × Value)) → is_empty (insert_entry d e fs) ≡ false
      inserted [] = refl
      inserted (f ∷ fs) = ground arith

  license_entries_filled :
      (v : Value) (es : List (String × Value)) → license_entries d v ≡ some es → is_empty es ≡ false
  license_entries_filled v es h = ground arith

  read_licenses_filled :
      (es : List (String × Value)) (ls : List License)
      → read_licenses d es ≡ ok ls
      → is_empty es ≡ false
      → is_empty ls ≡ false
  unfolding read_licenses
  read_licenses_filled [] ls h filled = cc
  read_licenses_filled ((filename, expected) ∷ es) ls h filled =
      let (l, read, h1) = >>=-eq-ok (read_license d filename expected) _ h in
      let (rest, others, made) = >>=-eq-ok (read_licenses d es) _ h1 in
      subst (λ (xs : List License). is_empty xs ≡ false) (ok-injective made) refl

  notice_of_lem :
      (known : List (String × Value)) (key : String) (inputs : List String) (n : Dependency)
      → notice_of d known key inputs ≡ ok n
      → All IsKeyed known
      → (input : String) → includes inputs input ≡ true
      → is_notice key input n ≡ true
  unfolding notice_of
  notice_of_lem known key inputs n h keyed input there =
      let (r, found, h1) =
        >>=-eq-ok (or_throw (lookup key known) (type_error "Cannot read properties of undefined")) _
          h in
      let (license, named, h2) =
        >>=-eq-ok (or_throw (license_text d (member r "license")) _) _ h1 in
      let (es, listed, h3) =
        >>=-eq-ok (or_throw (license_entries d (member r "licenseFiles")) _) _ h2 in
      let (ls, read, made) = >>=-eq-ok (read_licenses d (sort_entries d es)) _ h3 in
      let same = lookup_keyed key known r (or_throw-eq-ok (lookup key known) _ found) keyed in
      let filled = read_licenses_filled (sort_entries d es) ls read (
        sorted_filled es (
          license_entries_filled (member r "licenseFiles") es
            (or_throw-eq-ok (license_entries d (member r "licenseFiles")) _ listed))) in
      subst (λ (n : Dependency). is_notice key input n ≡ true) (ok-injective made)
        (ground (
          arith,
          (eq_iff (identity_of (member r "name") (member r "version")) key).1 (sym same),
          includes-sort inputs input,
          filled,
        ))

  notices_of_lem :
      (known : List (String × Value)) (refs : List (String × List String)) (ns : List Dependency)
      → notices_of d known refs ≡ ok ns
      → All IsKeyed known
      → (key input : String) → has_input key input refs ≡ true
      → any (is_notice key input) ns ≡ true
  unfolding notices_of
  notices_of_lem known [] ns h keyed key input there = cc
  notices_of_lem known ((k, inputs) ∷ refs) ns h keyed key input there =
      let (n, first, h1) = >>=-eq-ok (notice_of d known k inputs) _ h in
      let (rest, others, made) = >>=-eq-ok (notices_of d known refs) _ h1 in
      subst (λ (ns : List Dependency). any (is_notice key input) ns ≡ true) (ok-injective made)
        (elim (Bool-cases (k == key && includes inputs input)) [
          | inl here ↦
              (let same = (eq_iff k key).0 (ground arith) in
                let noticed = notice_of_lem known k inputs n first keyed input (ground arith) in
                let it : is_notice key input n ≡ true =
                  subst (λ (j : String). is_notice j input n ≡ true) same noticed in
                ground arith)
          | inr later ↦
              (let it = notices_of_lem known refs rest others keyed key input (ground arith) in
                ground arith)
        ])

  -- The notices are complete: where they are collected, the source map of each input that has one was
  -- read, and each package that it refers to has a notice by its name and version, which lists that
  -- input among those that embed the package, and has one licence text at least.
  pub collect_embedded_notices-lists :
      (inputs : List String) (n : Notices) (input : String) (bytes : Bytes)
      → collect_embedded_notices d inputs ≡ ok n
      → includes inputs input ≡ true
      → d.read (d.resolve (input <> ".map")) ≡ ok bytes
      → (ids : List String) × (read_source_map d bytes ≡ ok ids)
        × ((key : String)
            → includes ids key ≡ true
            → any (is_notice key input) n.dependencies ≡ true)
  unfolding collect_embedded_notices
  collect_embedded_notices-lists inputs n input bytes h there file =
      let (text, read, h1) = >>=-eq-ok d.inventory_text _ h in
      let (inventory, parsed, h2) = >>=-eq-ok (d.parse text) _ h1 in
      let (valid, h3) = require->>= (is_notice_inventory inventory) _ _ h2 in
      let (known, keyed, h4) =
        >>=-eq-ok (known_of (array_items (member inventory "packages")) []) _ h3 in
      let (g, gathered, h5) =
        >>=-eq-ok (gather d known (sort inputs) (record { referenced = []; source_maps = [] })) _
          h4 in
      let (ns, noticed, made) = >>=-eq-ok (notices_of d known (sort_entries d g.referenced)) _ h5 in
      let held =
        (gather_lem d known (sort inputs) (record { referenced = []; source_maps = [] }) g
            gathered).1
          input bytes (includes-sort inputs input ∙ there) file in
      (
        held.0,
        held.1,
        λ key m.
            subst (λ (n : Notices). any (is_notice key input) n.dependencies ≡ true)
              (ok-injective made)
              (notices_of_lem known (sort_entries d g.referenced) ns noticed
                (known_of-IsKeyed (array_items (member inventory "packages")) [] known keyed tt) key
                input (sort_entries_lem d key input g.referenced ∙ held.2 key m)),
      )
