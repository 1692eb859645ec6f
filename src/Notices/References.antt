-- ===== src/Notices/References.antt =====
-- The references that a source map gives are the packages that its paths name.
use kestrel_feature_mcp.Prelude.{
  String, Bool, true, false, ◌≡◌, refl, ap, sym, ◌∙◌, ◌⊎◌, inl, inr, ◌||◌, some, List, [], ◌∷◌,
  includes, contains, sort, is_sorted, sort_sorted, includes-sort, ◌==◌, eq_iff, eq_refl, arith,
  Bool-cases, Outcome, ok, throw, ok-injective, >>=-eq-ok, or_throw-eq-ok, or_throw, type_error,
  if◌then◌else◌,
}
use mathlib.Core.Path.{subst}
use kestrel_feature_mcp.Value.{arr, strings}
use kestrel_feature_mcp.Notices.Identity.{IsIdentity, read_identity-IsIdentity}
use kestrel_feature_mcp.Notices.{
  is_embedded, read_identity, add_once, source_paths, collect_references,
  embedded_package_references,
}

-- A path that is given names an embedded package.
abbrev Names : List String → String → Type 0
Names sources key =
    (source : String) × (includes sources source ≡ true)
    × (is_embedded source ≡ true)
    × (read_identity source ≡ ok key)

pub includes-add_once :
    (key k : String) (keys : List String)
    → includes (add_once key keys) k ≡ (key == k || includes keys k)
includes-add_once key k [] = refl
includes-add_once key k (j ∷ keys) = elim (Bool-cases (j == key)) [
  | inl e ↦ rw (e, (eq_iff j key).0 e) (ground arith)
  | inr e ↦ (let rest = includes-add_once key k keys in ground arith)
]

-- The two ways on from the first path.
collect_first :
    (source : String) (sources packages keys : List String)
    → collect_references (source ∷ sources) packages ≡ ok keys
    → ((is_embedded source ≡ false) × (collect_references sources packages ≡ ok keys))
      ⊎ ((is_embedded source ≡ true)
          × ((key : String) × (read_identity source ≡ ok key)
              × (collect_references sources (add_once key packages) ≡ ok keys)))
unfolding collect_references
collect_first source sources packages keys h =
    by_test (is_embedded source) refl (read_identity source) refl h
  where
    by_test :
        (b : Bool)
        → is_embedded source ≡ b
        → (r : Outcome String) → read_identity source ≡ r
        → (if b
            then elim r [
              | throw e ↦ throw e
              | ok key ↦ collect_references sources (add_once key packages)
            ]
            else collect_references sources packages)
          ≡ ok keys
        → ((is_embedded source ≡ false) × (collect_references sources packages ≡ ok keys))
          ⊎ ((is_embedded source ≡ true)
              × ((key : String) × (read_identity source ≡ ok key)
                  × (collect_references sources (add_once key packages) ≡ ok keys)))
    by_test false e r f h = inl (e, h)
    by_test true e (throw x) f h = cc
    by_test true e (ok key) f h = inr (e, (key, f, h))

later :
    (source : String) (sources : List String) (k : String)
    → Names sources k
    → Names (source ∷ sources) k
later source sources k (path, there, embedded, read) = (path, ground arith, embedded, read)

-- What was collected stays, and each further package is one that a path names.
collect_sound :
    (sources packages keys : List String) (k : String)
    → collect_references sources packages ≡ ok keys
    → includes keys k ≡ true
    → (includes packages k ≡ true) ⊎ Names sources k
unfolding collect_references
collect_sound [] packages keys k h m = inl (rw (ok-injective h) m)
collect_sound (source ∷ sources) packages keys k h m =
    elim (collect_first source sources packages keys h) [
      | inl (other, rest) ↦ elim (collect_sound sources packages keys k rest m) [
        | inl before ↦ inl before
        | inr named ↦ inr (later source sources k named)
      ]
      | inr (embedded, (key, read, rest)) ↦
          elim (collect_sound sources (add_once key packages) keys k rest m) [
            | inl before ↦ elim (Bool-cases (key == k)) [
              | inl same ↦ inr (
                source,
                ground (arith, eq_refl source),
                embedded,
                read ∙ ap ok ((eq_iff key k).0 same),
              )
              | inr different ↦ inl (ground (arith, includes-add_once key k packages))
            ]
            | inr named ↦ inr (later source sources k named)
          ]
    ]

collect_kept :
    (sources packages keys : List String) (k : String)
    → collect_references sources packages ≡ ok keys
    → includes packages k ≡ true
    → includes keys k ≡ true
unfolding collect_references
collect_kept [] packages keys k h m = rw (sym (ok-injective h)) m
collect_kept (source ∷ sources) packages keys k h m =
    elim (collect_first source sources packages keys h) [
      | inl (other, rest) ↦ collect_kept sources packages keys k rest m
      | inr (embedded, (key, read, rest)) ↦
          collect_kept sources (add_once key packages) keys k rest
            (ground (arith, includes-add_once key k packages))
    ]

-- Each path of an embedded package was read.
collect_complete :
    (sources packages keys : List String) (path : String)
    → collect_references sources packages ≡ ok keys
    → includes sources path ≡ true
    → is_embedded path ≡ true
    → (key : String) × (read_identity path ≡ ok key) × (includes keys key ≡ true)
collect_complete [] packages keys path h there inside = cc
collect_complete (source ∷ sources) packages keys path h there inside =
    elim (collect_first source sources packages keys h) [
      | inl (other, rest) ↦ elim (Bool-cases (source == path)) [
        | inl same ↦
            (let clash : true ≡ false =
                sym inside ∙ ap is_embedded (sym ((eq_iff source path).0 same)) ∙ other in
              cc)
        | inr different ↦ collect_complete sources packages keys path rest (ground arith) inside
      ]
      | inr (embedded, (key, read, rest)) ↦ elim (Bool-cases (source == path)) [
        | inl same ↦ (
          key,
          ap read_identity (sym ((eq_iff source path).0 same)) ∙ read,
          collect_kept sources (add_once key packages) keys key rest
              (ground (arith, includes-add_once key key packages, eq_refl key)),
        )
        | inr different ↦
            collect_complete sources (add_once key packages) keys path rest (ground arith) inside
      ]
    ]

texts_lem : (sources : List String) → source_paths (arr (strings sources)) ≡ some sources
texts_lem [] = refl
texts_lem (s ∷ sources) = rw (texts_lem sources) refl

-- A path with a `node_modules` folder names the package.
abbrev pub IsNamed : List String → String → Type 0
IsNamed sources key =
    (path : String) × (includes sources path ≡ true)
    × (contains "node_modules/" path ≡ true)
    × IsIdentity path key

-- The references of paths: in order, each one named by a path, and each such path naming one.
pub record AreReferences (sources keys : List String) : Type 0 where
  pub ordered : is_sorted keys ≡ true
  pub named : (k : String) → includes keys k ≡ true → IsNamed sources k
  pub listed :
      (path : String)
      → includes sources path ≡ true
      → contains "node_modules/" path ≡ true
      → (key : String) × IsIdentity path key × (includes keys key ≡ true)

collected_lem :
    (sources packages : List String)
    → collect_references sources [] ≡ ok packages
    → AreReferences sources (sort packages)
collected_lem sources packages h = record {
  ordered = sort_sorted packages;
  named = λ k m.
      identified k (collect_sound sources [] packages k h (sym (includes-sort packages k) ∙ m));
  listed =
      λ path there inside. kept path (collect_complete sources [] packages path h there inside);
}
  where
    identified : (k : String) → (includes [] k ≡ true) ⊎ Names sources k → IsNamed sources k
    identified k (inl none_yet) = cc
    identified k (inr (path, there, inside, read)) =
        (path, there, inside, read_identity-IsIdentity path k read)

    kept :
        (path : String)
        → (key : String) × (read_identity path ≡ ok key) × (includes packages key ≡ true)
        → (key : String) × IsIdentity path key × (includes (sort packages) key ≡ true)
    kept path (key, read, m) =
        (key, read_identity-IsIdentity path key read, includes-sort packages key ∙ m)

-- The notices miss no embedded package: where the references of a source map are read, they are in
-- order, each is the package that one of its paths with a `node_modules` folder names, and each such
-- path names a package that is among them. A path names a package where its segments have the
-- package's folder in the store of pnpm, a `node_modules` and the package's name, with its scope, in
-- this order and with a further segment, and where the folder's name is up to its first `_` this name,
-- with `+` for the slash, and a version, of three numbers and perhaps a tag; the reference is the name
-- and the version.
pub embedded_package_references-lists :
    (sources keys : List String)
    → embedded_package_references (arr (strings sources)) ≡ ok keys
    → AreReferences sources keys
unfolding embedded_package_references
embedded_package_references-lists sources keys h =
    let (paths, got, h1) =
      >>=-eq-ok
        (or_throw (source_paths (arr (strings sources)))
          (type_error "Dependency source map must contain source paths"))
        _ h in
    let same : paths ≡ sources =
      ground
        (arith, texts_lem sources, or_throw-eq-ok (source_paths (arr (strings sources))) _ got) in
    let (packages, collected, made) = >>=-eq-ok (collect_references paths []) _ h1 in
    let all_collected : collect_references sources [] ≡ ok packages =
      subst (λ (ps : List String). collect_references ps [] ≡ ok packages) same collected in
    subst (λ (ks : List String). AreReferences sources ks) (ok-injective made)
      (collected_lem sources packages all_collected)
