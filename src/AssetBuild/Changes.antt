-- ===== src/AssetBuild/Changes.antt =====
-- A folder after the changes of a build.
use kestrel_feature_mcp.Prelude.{
  String, Bool, true, false, ◌≡◌, refl, sym, ap, ◌∙◌, ◌||◌, inl, inr, Option, none, some, List, [],
  ◌∷◌, ◌++◌, all, ◌⊎◌, includes, lookup, set_item, remove_item, keys, ◌==◌, eq_iff, lookup-set_item,
  lookup-remove_item, lookup_missing, are_distinct, set_item_distinct, set_item-all, Bool-cases,
  arith, if◌then◌else◌,
}
use mathlib.Core.Path.{subst}
use kestrel_feature_mcp.Assets.{Bytes, generated_files}
use kestrel_feature_mcp.AssetBuild.{
  Entry, Change, unlink, removals, writes, change, make_changes, contents,
}

changes-append :
    (cs ds : List Change) (folder : List (String × Bytes))
    → make_changes (cs ++ ds) folder ≡ make_changes ds (make_changes cs folder)
changes-append [] ds folder = refl
changes-append (c ∷ cs) ds folder = changes-append cs ds (change c folder)

-- The value that counts where the outputs are written over a folder.
abbrev or_else : Option Bytes → Option Bytes → Option Bytes
or_else none o = o
or_else (some bytes) o = some bytes

written :
    (k : String) (outputs folder : List (String × Bytes))
    → are_distinct outputs ≡ true
    → lookup k (make_changes (writes outputs) folder) ≡ or_else (lookup k outputs) (lookup k folder)
unfolding lookup
written k [] folder h = refl
written k ((name, bytes) ∷ outputs) folder h =
    written k outputs (set_item name bytes folder) (ground arith)
    ∙ rw (lookup-set_item name k bytes folder) (elim (Bool-cases (name == k)) [
      | inl same ↦
          rw
            (
              same,
              lookup_missing k outputs (
                  subst (λ (x : String). includes (keys outputs) x ≡ false) ((eq_iff name k).0 same)
                    (ground arith)),
            )
            refl
      | inr other ↦ rw other refl
    ])

absorbed :
    (a b : Bool) (o : Option Bytes)
    → (if a then none else (if b then none else o)) ≡ (if b || a then none else o)
absorbed a b o = ground arith

kept_away :
    (name k : String) (outputs : List (String × Bytes)) (bytes : Bytes)
    → lookup name outputs ≡ some bytes
    → lookup k outputs ≡ none
    → (name == k) ≡ false
kept_away name k outputs bytes e h = elim (Bool-cases (name == k)) [
  | inl same ↦
      (let clash = sym e ∙ ap (λ (x : String). lookup x outputs) ((eq_iff name k).0 same) ∙ h in cc)
  | inr other ↦ other
]

removed :
    (k : String) (names : List String) (outputs folder : List (String × Bytes))
    → lookup k outputs ≡ none
    → lookup k (make_changes (removals names outputs) folder)
      ≡ (if includes names k then none else lookup k folder)
removed k [] outputs folder h = refl
removed k (name ∷ names) outputs folder h =
    by_output (lookup name outputs) refl (λ f. removed k names outputs f h)
  where
    by_output :
        (o : Option Bytes)
        → lookup name outputs ≡ o
        → ((f : List (String × Bytes))
            → lookup k (make_changes (removals names outputs) f)
              ≡ (if includes names k then none else lookup k f))
        → lookup k (
            make_changes
              (elim o [
                | none ↦ unlink name ∷ removals names outputs
                | some bytes ↦ removals names outputs
              ])
              folder)
          ≡ (if includes (name ∷ names) k then none else lookup k folder)
    by_output none e rest =
        rest (remove_item name folder)
        ∙ rw (lookup-remove_item name k folder)
            (absorbed (includes names k) (name == k) (lookup k folder))
    by_output (some bytes) e rest = rest folder ∙ rw (kept_away name k outputs bytes e h) refl

-- The names of a folder.
keys-contents : (entries : List (String × Entry)) → keys (contents entries) ≡ keys entries
keys-contents [] = refl
keys-contents ((name, e) ∷ entries) = ap (λ (ks : List String). name ∷ ks) (keys-contents entries)

-- The outputs of a build: each once, under the names that the build owns.
abbrev pub AreOutputs : List (String × Bytes) → Type 0
AreOutputs outputs =
    (are_distinct outputs ≡ true) × (all (includes generated_files) (keys outputs) ≡ true)

pub set_item-AreOutputs :
    (name : String) (bytes : Bytes) (outputs : List (String × Bytes))
    → includes generated_files name ≡ true
    → AreOutputs outputs
    → AreOutputs (set_item name bytes outputs)
set_item-AreOutputs name bytes outputs own o = (
  set_item_distinct name bytes outputs o.0,
  set_item-all (includes generated_files) name bytes outputs own o.1,
)

-- A folder to which only the removed and the written files belong, after the changes.
pub exact :
    (entries : List (String × Entry)) (outputs : List (String × Bytes))
    → are_distinct outputs ≡ true
    → (k : String)
    → lookup k (make_changes (removals (keys entries) outputs ++ writes outputs) (contents entries))
      ≡ lookup k outputs
exact entries outputs h k =
    let cleared = make_changes (removals (keys entries) outputs) (contents entries) in
    ap (lookup k)
      (changes-append (removals (keys entries) outputs) (writes outputs) (contents entries))
    ∙ written k outputs cleared h
    ∙ by_output (lookup k outputs) refl
  where
    nothing :
        (includes (keys entries) k ≡ true) ⊎ (includes (keys entries) k ≡ false)
        → (if includes (keys entries) k then none else lookup k (contents entries)) ≡ none
    nothing (inl here) = rw here refl
    nothing (inr missing) = rw missing (
        lookup_missing k (contents entries)
          (ap (λ (ks : List String). includes ks k) (keys-contents entries) ∙ missing))

    by_output :
        (o : Option Bytes)
        → lookup k outputs ≡ o
        → or_else o (lookup k (make_changes (removals (keys entries) outputs) (contents entries)))
          ≡ o
    by_output (some bytes) e = refl
    by_output none e =
        removed k (keys entries) outputs (contents entries) e
        ∙ nothing (Bool-cases (includes (keys entries) k))
