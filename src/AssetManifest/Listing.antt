-- ===== src/AssetManifest/Listing.antt =====
-- Which packages the notices of a build list.
use kestrel_feature_mcp.Prelude.{
  String, Bool, true, ◌≡◌, refl, sym, ap, ◌∙◌, ◌||◌, Option, none, some, List, [], ◌∷◌, any, map,
  includes, lookup, set_item, keys, ◌==◌, eq_iff, eq_refl, lookup-set_item, includes-keys-set_item,
  lookup_found, All, Bool-cases, inl, inr, ok, ok-injective, >>=-eq-ok, require->>=, arith,
}
use mathlib.Core.Path.{subst}
use mathlib.Core.Option.{some-injective}
use kestrel_feature_mcp.Json.{string_of}
use kestrel_feature_mcp.NoticeFiles.{Disk, Dependency, insert_entry, sort_entries}
use kestrel_feature_mcp.AssetLicenses.{Tree, Package, license_for}
use kestrel_feature_mcp.AssetManifest.{
  package_key, add_packages, joined_package, add_embedded, values, order_packages,
}

abbrev pub key_of : Package → String
key_of p = package_key p.name p.version

-- A package of the name and version is listed.
abbrev pub is_listed : String → List Package → Bool
is_listed key packages = any (λ p. key_of p == key) packages

-- Each package stands under its own key.
abbrev AreKeyed : List (String × Package) → Type 0
AreKeyed m = (k : String) (p : Package) → lookup k m ≡ some p → key_of p ≡ k

set_item-AreKeyed :
    (key : String) (p : Package) (m : List (String × Package))
    → key_of p ≡ key
    → AreKeyed m
    → AreKeyed (set_item key p m)
set_item-AreKeyed key p m own keyed k q h = elim (Bool-cases (key == k)) [
  | inl same ↦
      (let e = some-injective p q (sym (lookup-set_item key k p m ∙ rw same refl) ∙ h) in
        ap key_of (sym e) ∙ own ∙ (eq_iff key k).0 same)
  | inr other ↦ keyed k q (sym (lookup-set_item key k p m ∙ rw other refl) ∙ h)
]

kept :
    (key k : String) (p : Package) (m : List (String × Package))
    → includes (keys m) k ≡ true
    → includes (keys (set_item key p m)) k ≡ true
kept key k p m here = rw (includes-keys-set_item key k p m) (ground arith)

placed :
    (key : String) (p : Package) (m : List (String × Package))
    → includes (keys (set_item key p m)) key ≡ true
placed key p m = rw (includes-keys-set_item key key p m, eq_refl key) refl

-- The packages of inputs, with those that were there.
pub add_packages_lem :
    (t : Tree) (inputs : List String) (m after : List (String × Package))
    → add_packages t inputs m ≡ ok after
    → AreKeyed m
    → AreKeyed after
      × ((k : String) → includes (keys m) k ≡ true → includes (keys after) k ≡ true)
      × ((input : String)
          → includes inputs input ≡ true
          → (p : Package) × (license_for t input ≡ ok p)
            × (includes (keys after) (key_of p) ≡ true))
unfolding add_packages
add_packages_lem t [] m after h keyed =
    subst
      (λ (x : List (String × Package)).
        AreKeyed x
        × ((k : String) → includes (keys m) k ≡ true → includes (keys x) k ≡ true)
        × ((input : String)
            → includes [] input ≡ true
            → (p : Package) × (license_for t input ≡ ok p) × (includes (keys x) (key_of p) ≡ true)))
      (ok-injective h) (keyed, λ k here. here, λ input here. cc)
add_packages_lem t (i ∷ inputs) m after h keyed =
    let (p, licensed, h1) = >>=-eq-ok (license_for t i) _ h in
    let (all_keyed, stays, rest) =
      add_packages_lem t inputs (set_item (key_of p) p m) after h1
        (set_item-AreKeyed (key_of p) p m refl keyed) in
    (
      all_keyed,
      λ k here. stays k (kept (key_of p) k p m here),
      λ input here. elim (Bool-cases (i == input)) [
        | inl same ↦ (
          p,
          subst (λ (x : String). license_for t x ≡ ok p) ((eq_iff i input).0 same) licensed,
          stays (key_of p) (placed (key_of p) p m),
        )
        | inr other ↦ rest input (ground arith)
      ],
    )

joined-key_of :
    (o : Option Package) (n : Dependency) (key : String)
    → key ≡ package_key n.name n.version
    → ((p : Package) → o ≡ some p → key_of p ≡ key)
    → key_of (joined_package o n) ≡ key
joined-key_of none n key e own = sym e
joined-key_of (some p) n key e own = own p refl

-- The packages that are embedded, with those that were there.
pub add_embedded_lem :
    (ns : List Dependency) (m : List (String × Package))
    → AreKeyed m
    → AreKeyed (add_embedded ns m)
      × ((k : String) → includes (keys m) k ≡ true → includes (keys (add_embedded ns m)) k ≡ true)
      × All (λ n. includes (keys (add_embedded ns m)) (package_key n.name n.version) ≡ true) ns
unfolding add_embedded
add_embedded_lem [] m keyed = (keyed, λ k here. here, tt)
add_embedded_lem (n ∷ ns) m keyed =
    let key = package_key n.name n.version in
    let p = joined_package (lookup key m) n in
    let own = joined-key_of (lookup key m) n key refl (keyed key) in
    let (all_keyed, stays, rest) =
      add_embedded_lem ns (set_item key p m) (set_item-AreKeyed key p m own keyed) in
    (all_keyed, λ k here. stays k (kept key k p m here), (stays key (placed key p m), rest))

lookup-values :
    (test : Package → Bool) (k : String) (p : Package) (m : List (String × Package))
    → lookup k m ≡ some p
    → test p ≡ true
    → any test (values m) ≡ true
unfolding lookup
lookup-values test k p [] h good = cc
lookup-values test k p ((j, q) ∷ m) h good = elim (Bool-cases (j == k)) [
  | inl same ↦ rw (some-injective q p (rw same at h), good) refl
  | inr other ↦ (let rest = lookup-values test k p m (rw other at h) good in ground arith)
]

-- A key of the map is listed among its values.
keyed_listed :
    (k : String) (m : List (String × Package))
    → AreKeyed m
    → includes (keys m) k ≡ true
    → is_listed k (values m) ≡ true
keyed_listed k m keyed here =
    let (p, there) = lookup_found k m here in
    lookup-values (λ q. key_of q == k) k p m there (rw (keyed k p there) (eq_refl k))

module _ (d : Disk) (test : Package → Bool) where
  values-insert_entry :
      (e : String × Package) (es : List (String × Package))
      → any test (values (insert_entry d e es)) ≡ (test e.1 || any test (values es))
  values-insert_entry (k, p) [] = refl
  values-insert_entry (k, p) ((j, q) ∷ es) =
      let rest = values-insert_entry (k, p) es in ground arith

  values-sort_entries :
      (es : List (String × Package)) → any test (values (sort_entries d es)) ≡ any test (values es)
  values-sort_entries [] = refl
  values-sort_entries ((k, p) ∷ es) =
      values-insert_entry (k, p) (sort_entries d es) ∙ rw (values-sort_entries es) refl

  values-map :
      (ps : List Package) → any test (values (map (λ p. (string_of p.name, p)) ps)) ≡ any test ps
  values-map [] = refl
  values-map (p ∷ ps) = ap (λ (b : Bool). test p || b) (values-map ps)

  order_packages-any :
      (ps qs : List Package) → order_packages d ps ≡ ok qs → any test qs ≡ any test ps
  unfolding order_packages
  order_packages-any ps qs h =
      let (sortable, made) = require->>= _ _ _ h in
      ap (any test) (sym (ok-injective made))
      ∙ values-sort_entries (map (λ p. (string_of p.name, p)) ps)
      ∙ values-map ps

-- Where the packages of inputs, with those that are embedded, are put in order, each of them is listed.
pub order_packages-is_listed :
    (t : Tree) (inputs : List String) (ns : List Dependency) (installed : List (String × Package))
    (packages : List Package)
    → add_packages t inputs [] ≡ ok installed
    → order_packages t.disk (values (add_embedded ns installed)) ≡ ok packages
    → ((input : String)
        → includes inputs input ≡ true
        → (p : Package) × (license_for t input ≡ ok p) × (is_listed (key_of p) packages ≡ true))
      × All (λ n. is_listed (package_key n.name n.version) packages ≡ true) ns
unfolding lookup
order_packages-is_listed t inputs ns installed packages added ordered =
    let (keyed, stays, found) = add_packages_lem t inputs [] installed added (λ k p h. cc) in
    let (all_keyed, all_stay, there) = add_embedded_lem ns installed keyed in
    let all = add_embedded ns installed in
    let listed : (k : String) → includes (keys all) k ≡ true → is_listed k packages ≡ true =
      λ k here.
        order_packages-any t.disk (λ q. key_of q == k) (values all) packages ordered
        ∙ keyed_listed k all all_keyed here in
    (
      λ input here.
          let (p, licensed, stands) = found input here in
          (p, licensed, listed (key_of p) (all_stay (key_of p) stands)),
      all_listed listed ns there,
    )
  where
    all_listed :
        ((k : String)
          → includes (keys (add_embedded ns installed)) k ≡ true
          → is_listed k packages ≡ true)
        → (ms : List Dependency)
        → All
            (λ n. includes (keys (add_embedded ns installed)) (package_key n.name n.version) ≡ true)
            ms
        → All (λ n. is_listed (package_key n.name n.version) packages ≡ true) ms
    all_listed listed [] there = tt
    all_listed listed (m ∷ ms) there =
        (listed (package_key m.name m.version) there.0, all_listed listed ms there.1)
