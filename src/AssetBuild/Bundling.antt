-- ===== src/AssetBuild/Bundling.antt =====
-- What the calls of the bundler give together.
use kestrel_feature_mcp.Prelude.{
  String, true, false, ◌≡◌, refl, sym, ◌∙◌, ◌||◌, inl, inr, some, List, [], ◌∷◌, includes, lookup,
  set_item, keys, ◌==◌, lookup-set_item, includes-keys-set_item, All, Bool-cases, ok, ok-injective,
  >>=-eq-ok, require->>=, arith,
}
use mathlib.Core.Path.{subst}
use mathlib.Core.Option.{some-injective}
use kestrel_feature_mcp.Assets.{Bytes, generated_files}
use kestrel_feature_mcp.AssetBuild.{
  Builder, Target, Bundle, Bundled, add_outputs, add_inputs, bundle_all,
}

module _ (b : Builder) where
  abbrev pub base_names : List (String × Bytes) → List String
  base_names [] = []
  base_names ((path, bytes) ∷ files) = b.basename path ∷ base_names files

  abbrev pub IsText : Bytes → Type 0
  IsText bytes = (text : String) × (b.tree.disk.decode bytes ≡ some text)

  -- What the build relies on of the bundler: a call gives the file that it is asked for, no file under
  -- the manifest's name, and texts in UTF-8.
  pub record IsBundle (target : Target) (result : Bundle) : Type 0 where
    pub output : includes (base_names result.output_files) target.filename ≡ true
    pub no_manifest : includes (base_names result.output_files) "manifest.json" ≡ false
    pub texts : All (λ (file : String × Bytes). IsText file.1) result.output_files

  abbrev pub IsBundler : Type 0
  IsBundler =
      (destination : String) (target : Target) (result : Bundle)
      → b.bundle destination target ≡ ok result
      → IsBundle target result

  -- The outputs so far: texts, without a manifest.
  pub record AreTexts (outputs : List (String × Bytes)) : Type 0 where
    pub no_manifest : includes (keys outputs) "manifest.json" ≡ false
    pub texts : (k : String) (bytes : Bytes) → lookup k outputs ≡ some bytes → IsText bytes

  pub set_item-AreTexts :
      (name : String) (bytes : Bytes) (outputs : List (String × Bytes))
      → (name == "manifest.json") ≡ false
      → IsText bytes
      → AreTexts outputs
      → AreTexts (set_item name bytes outputs)
  set_item-AreTexts name bytes outputs other text t = record {
    no_manifest =
        includes-keys-set_item name "manifest.json" bytes outputs ∙ rw (other, t.no_manifest) refl;
    texts = λ k found h. elim (Bool-cases (name == k)) [
      | inl same ↦
          subst IsText
            (some-injective bytes found
              (sym (lookup-set_item name k bytes outputs ∙ rw same refl) ∙ h))
            text
      | inr different ↦
          t.texts k found (sym (lookup-set_item name k bytes outputs ∙ rw different refl) ∙ h)
    ];
  }

  -- The names that are there stay, and those of the files join them.
  add_outputs_lem :
      (files outputs after : List (String × Bytes))
      → add_outputs b files outputs ≡ ok after
      → includes (base_names files) "manifest.json" ≡ false
      → All (λ (file : String × Bytes). IsText file.1) files
      → AreTexts outputs
      → AreTexts after
        × ((k : String)
            → (includes (base_names files) k || includes (keys outputs) k) ≡ true
            → includes (keys after) k ≡ true)
  unfolding add_outputs
  add_outputs_lem [] outputs after h no_manifest texts t =
      subst
        (λ (x : List (String × Bytes)).
          AreTexts x
          × ((k : String)
              → (includes [] k || includes (keys outputs) k) ≡ true
              → includes (keys x) k ≡ true))
        (ok-injective h) (t, λ k here. here)
  add_outputs_lem ((path, bytes) ∷ files) outputs after h no_manifest texts t =
      let name = b.basename path in
      let (own, rest) = require->>= (includes generated_files name) _ _ h in
      let (after_texts, there) =
        add_outputs_lem files (set_item name bytes outputs) after rest (ground arith) texts.1
          (set_item-AreTexts name bytes outputs (ground arith) texts.0 t) in
      (
        after_texts,
        λ k here. there k (rw (includes-keys-set_item name k bytes outputs) (ground arith)),
      )

  pub bundle_all_lem :
      (destination : String) (ts : List Target) (so_far bundled : Bundled)
      → bundle_all b destination ts so_far ≡ ok bundled
      → IsBundler
      → AreTexts so_far.outputs
      → AreTexts bundled.outputs
        × ((k : String)
            → includes (keys so_far.outputs) k ≡ true
            → includes (keys bundled.outputs) k ≡ true)
        × All (λ (target : Target). includes (keys bundled.outputs) target.filename ≡ true) ts
  unfolding bundle_all
  bundle_all_lem destination [] so_far bundled h bundler t =
      subst
        (λ (x : Bundled).
          AreTexts x.outputs
          × ((k : String)
              → includes (keys so_far.outputs) k ≡ true
              → includes (keys x.outputs) k ≡ true)
          × Unit {0})
        (ok-injective h) (t, λ k here. here, tt)
  bundle_all_lem destination (target ∷ rest) so_far bundled h bundler t =
      let (result, called, h1) = >>=-eq-ok (b.bundle destination target) _ h in
      let (outputs, added, h2) =
        >>=-eq-ok (add_outputs b result.output_files so_far.outputs) _ h1 in
      let (inputs, hashed_inputs, h3) = >>=-eq-ok (add_inputs b result.inputs so_far.inputs) _ h2 in
      let bundle = bundler destination target result called in
      let (texts, there) =
        add_outputs_lem result.output_files so_far.outputs outputs added bundle.no_manifest
          bundle.texts t in
      let (all_texts, kept, all_there) =
        bundle_all_lem destination rest (record { outputs = outputs; inputs = inputs }) bundled h3
          bundler texts in
      (
        all_texts,
        λ k here. kept k (there k (ground arith)),
        (kept target.filename (there target.filename (rw bundle.output refl)), all_there),
      )
