-- ===== src/AssetBuild/Delivery.antt =====
-- What a build leaves is what the service's reader accepts: web/build-assets.mjs with
-- web/src/sandbox-assets.js.
use kestrel_feature_mcp.Prelude.{
  String, true, false, ◌≡◌, refl, sym, ap, ◌∙◌, some, List, [], includes, lookup, set_item, keys,
  ◌==◌, eq_iff, lookup-set_item, includes-keys-set_item, lookup_found, eq_sym, listed_apart,
  listed_all, lookup_present, pairs_all, ok,
}
use mathlib.Core.Path.{subst}
use mathlib.Core.Option.{some-injective}
use kestrel_feature_mcp.Value.{Value, str, num, nonneg, obj, member}
use kestrel_feature_mcp.Json.{json_copy}
use kestrel_feature_mcp.Assets.{
  Bytes, generated_files, is_hash, is_asset_name, settle_manifest, read_verified_sandbox_assets,
}
use kestrel_feature_mcp.NoticeFiles.{Notices, sort_entries}
use kestrel_feature_mcp.AssetLicenses.{Package}
use kestrel_feature_mcp.AssetManifest.{notices_text, text_fields, manifest_of}
use kestrel_feature_mcp.AssetBuild.{
  Builder, Bundled, Place, Built, targets, hashed, json_file, make_changes, contents, assets_of,
  build_manifest, assemble, build_sandbox_assets,
}
use kestrel_feature_mcp.AssetBuild.Changes.{AreOutputs}
use kestrel_feature_mcp.AssetBuild.Contents.{
  build_sandbox_assets-IsBuild, assets_of-AreOutputs, bundle_all-AreOutputs,
  build_sandbox_assets-IsBuilt,
}
use kestrel_feature_mcp.AssetBuild.Bundling.{IsBundler, IsText, AreTexts, bundle_all_lem}
use kestrel_feature_mcp.AssetBuild.Reading.{IsAsset, files_of, copy_texts, read_lem}
use kestrel_feature_mcp.AssetBuild.Ordering.{sorted_all, sorted_keys}

-- Each output stands in the folder.
abbrev pub Holds : List (String × Bytes) → List (String × Bytes) → Type 0
Holds folder outputs =
    (k : String) (bytes : Bytes) → lookup k outputs ≡ some bytes → lookup k folder ≡ some bytes

module _ (b : Builder) where
  -- What the reading of a build relies on: hashes in hexadecimal digits, the decoder of what is
  -- written in UTF-8, and the bundler.
  pub record IsReadable : Type 0 where
    pub hex : (bytes : Bytes) → is_hash (str (b.tree.disk.sha256 bytes)) ≡ true
    pub utf8 : (text : String) → b.tree.disk.decode (b.utf8 text) ≡ some text
    pub bundler : IsBundler b

  -- The texts that the service is given are the ones of the build.
  pub record IsDelivered (built : Built) (folder : List (String × Bytes)) : Type 0 where
    pub entry_bytes : Bytes
    pub entry : String
    pub packages : List Package
    pub entry_output : lookup "sandbox-entry.js" built.outputs ≡ some entry_bytes
    pub entry_text : b.tree.disk.decode entry_bytes ≡ some entry
    pub notices_output :
        lookup "THIRD_PARTY_NOTICES.txt" built.outputs ≡ some (b.utf8 (notices_text packages))
    pub accepted :
        read_verified_sandbox_assets (files_of b folder)
        ≡ ok (record {
          entry_javascript = some entry;
          third_party_notices = some (notices_text packages);
        })

  -- The texts that the reader decodes among the assets of a build.
  record HasTexts (assets : List (String × Bytes)) (entry notices : String) : Type 0 where
    outputs : AreOutputs assets
    no_manifest : includes (keys assets) "manifest.json" ≡ false
    service : includes (keys assets) "sandbox-service.mjs" ≡ true
    entry_bytes : Bytes
    entry_there : lookup "sandbox-entry.js" assets ≡ some entry_bytes
    entry_decoded : b.tree.disk.decode entry_bytes ≡ some entry
    notices_there : lookup "THIRD_PARTY_NOTICES.txt" assets ≡ some (b.utf8 notices)
    notices_decoded : b.tree.disk.decode (b.utf8 notices) ≡ some notices

  -- The reader finds each asset under its name.
  found_assets :
      (folder assets : List (String × Bytes)) (entry notices : String) (json : Bytes)
      → HasTexts assets entry notices
      → Holds folder (set_item "manifest.json" json assets)
      → (k : String) (bytes : Bytes) → lookup k assets ≡ some bytes
      → IsAsset b folder entry notices k bytes × (is_asset_name k ≡ true)
  found_assets folder assets entry notices json t there k bytes h =
      let here = lookup_present k bytes assets h in
      let other = listed_apart k "manifest.json" (keys assets) here t.no_manifest in
      let own = listed_all (includes generated_files) k (keys assets) t.outputs.1 here in
      (
        (
          there k bytes (
              lookup-set_item "manifest.json" k json assets
              ∙ rw (eq_sym k "manifest.json" other) h),
          λ same. at "sandbox-entry.js" t.entry_bytes same t.entry_there entry t.entry_decoded,
          λ same.
              at "THIRD_PARTY_NOTICES.txt" (b.utf8 notices) same t.notices_there notices
                t.notices_decoded,
        ),
        rw (other, own) refl,
      )
    where
      at :
          (key : String) (found : Bytes)
          → (k == key) ≡ true
          → lookup key assets ≡ some found
          → (text : String) → b.tree.disk.decode found ≡ some text
          → b.tree.disk.decode bytes ≡ some text
      at key found same there text decoded =
          let e = sym (ap (λ (x : String). lookup x assets) ((eq_iff k key).0 same) ∙ there) ∙ h in
          subst (λ (x : Bytes). b.tree.disk.decode x ≡ some text) (some-injective found bytes e)
            decoded

  delivered :
      (folder assets : List (String × Bytes)) (entry notices : String) (manifest : Value)
      → IsReadable
      → HasTexts assets entry notices
      → Holds folder (set_item "manifest.json" (b.utf8 (json_file manifest)) assets)
      → b.tree.disk.parse (b.tree.decode_text (b.utf8 (json_file manifest)))
        ≡ ok (json_copy manifest)
      → member (json_copy manifest) "format" ≡ num (nonneg 1)
      → member (json_copy manifest) "assets"
        ≡ obj (text_fields (hashed b (sort_entries b.tree.disk assets)))
      → read_verified_sandbox_assets (files_of b folder)
        ≡ ok (record { entry_javascript = some entry; third_party_notices = some notices })
  unfolding settle_manifest
  delivered folder assets entry notices manifest r t there parses format listed =
      let d = b.tree.disk in
      let json = b.utf8 (json_file manifest) in
      let found = found_assets folder assets entry notices json t there in
      let assets_found =
        sorted_all d (λ (x : String × Bytes). IsAsset b folder entry notices x.0 x.1) assets
          (pairs_all (IsAsset b folder entry notices) assets t.outputs.0
            λ k bytes h. (found k bytes h).0) in
      let names =
        sorted_all d (λ (x : String × Bytes). is_asset_name x.0 ≡ true) assets
          (pairs_all (λ k bytes. is_asset_name k ≡ true) assets t.outputs.0
            λ k bytes h. (found k bytes h).1) in
      read_lem b folder (sort_entries d assets) entry notices (json_copy manifest) r.hex
        (rw
          (there "manifest.json" json (lookup-set_item "manifest.json" "manifest.json" json assets))
          (rw parses refl))
        format listed names assets_found
        (sorted_keys d "sandbox-entry.js" assets
          ∙ lookup_present "sandbox-entry.js" t.entry_bytes assets t.entry_there)
        (sorted_keys d "sandbox-service.mjs" assets ∙ t.service)
        (sorted_keys d "THIRD_PARTY_NOTICES.txt" assets
          ∙ lookup_present "THIRD_PARTY_NOTICES.txt" (b.utf8 notices) assets t.notices_there)

  manifest_lem :
      (bundled : Bundled) (assets : List (String × Bytes)) (embedded : Notices)
      (packages : List Package) (sources : List (String × String))
      → let copy = json_copy (build_manifest b bundled assets embedded packages sources) in
        (member copy "format" ≡ num (nonneg 1))
        × (member copy "assets" ≡ obj (text_fields (hashed b (sort_entries b.tree.disk assets))))
  unfolding build_manifest manifest_of
  manifest_lem bundled assets embedded packages sources =
      (refl, ap obj (copy_texts b (hashed b (sort_entries b.tree.disk assets))))

  -- The assets of a build have the texts.
  assets_of-HasTexts :
      (bundled : Bundled) (css : Bytes) (packages : List Package)
      → IsReadable
      → AreOutputs bundled.outputs
      → AreTexts b bundled.outputs
      → includes (keys bundled.outputs) "sandbox-entry.js" ≡ true
      → includes (keys bundled.outputs) "sandbox-service.mjs" ≡ true
      → (entry : String) × HasTexts (assets_of b bundled css packages) entry (notices_text packages)
  unfolding assets_of
  assets_of-HasTexts bundled css packages r o t e s =
      let with_css = set_item "oauth-panel.css" css bundled.outputs in
      let json = b.utf8 (notices_text packages) in
      let (bytes, there) = lookup_found "sandbox-entry.js" bundled.outputs e in
      let (entry, decoded) = t.texts "sandbox-entry.js" bytes there in
      (
        entry,
        record {
          outputs = assets_of-AreOutputs b bundled css packages o;
          no_manifest =
              includes-keys-set_item "THIRD_PARTY_NOTICES.txt" "manifest.json" json with_css
              ∙ includes-keys-set_item "oauth-panel.css" "manifest.json" css bundled.outputs
              ∙ t.no_manifest;
          service =
              includes-keys-set_item "THIRD_PARTY_NOTICES.txt" "sandbox-service.mjs" json with_css
              ∙ includes-keys-set_item "oauth-panel.css" "sandbox-service.mjs" css bundled.outputs
              ∙ s;
          entry_bytes = bytes;
          entry_there =
              lookup-set_item "THIRD_PARTY_NOTICES.txt" "sandbox-entry.js" json with_css
              ∙ lookup-set_item "oauth-panel.css" "sandbox-entry.js" css bundled.outputs
              ∙ there;
          entry_decoded = decoded;
          notices_there =
              lookup-set_item "THIRD_PARTY_NOTICES.txt" "THIRD_PARTY_NOTICES.txt" json with_css;
          notices_decoded = r.utf8 (notices_text packages);
        },
      )

  nothing : (k : String) (bytes : Bytes) → lookup k [] ≡ some bytes → IsText b bytes
  unfolding lookup
  nothing k bytes h = cc

  assembled :
      (built : Built) (folder : List (String × Bytes)) (existing : List String)
      (assets : List (String × Bytes)) (entry : String) (packages : List Package) (manifest : Value)
      → IsReadable
      → HasTexts assets entry (notices_text packages)
      → built ≡ assemble b existing assets manifest
      → Holds folder built.outputs
      → b.tree.disk.parse (b.tree.decode_text (b.utf8 (json_file built.manifest)))
        ≡ ok (json_copy built.manifest)
      → (member (json_copy manifest) "format" ≡ num (nonneg 1))
        × (member (json_copy manifest) "assets"
            ≡ obj (text_fields (hashed b (sort_entries b.tree.disk assets))))
      → IsDelivered built folder
  unfolding assemble
  assembled built folder existing assets entry packages manifest r t made holds parses parts =
      let json = b.utf8 (json_file manifest) in
      let outputs : built.outputs ≡ set_item "manifest.json" json assets =
        ap (λ (x : Built). x.outputs) made in
      let same : built.manifest ≡ manifest = ap (λ (x : Built). x.manifest) made in
      let parsed =
        subst
          (λ (m : Value).
            b.tree.disk.parse (b.tree.decode_text (b.utf8 (json_file m))) ≡ ok (json_copy m))
          same parses in
      record {
        entry_bytes = t.entry_bytes;
        entry = entry;
        packages = packages;
        entry_output =
            ap (lookup "sandbox-entry.js") outputs
            ∙ lookup-set_item "manifest.json" "sandbox-entry.js" json assets
            ∙ t.entry_there;
        entry_text = t.entry_decoded;
        notices_output =
            ap (lookup "THIRD_PARTY_NOTICES.txt") outputs
            ∙ lookup-set_item "manifest.json" "THIRD_PARTY_NOTICES.txt" json assets
            ∙ t.notices_there;
        accepted =
            delivered folder assets entry (notices_text packages) manifest r t
              (λ k bytes h. holds k bytes (ap (lookup k) outputs ∙ h)) parsed parts.0 parts.1;
      }

  -- A folder that holds the outputs of a build can be read.
  pub folder-IsDelivered :
      (output_directory : String) (place : Place) (built : Built) (folder : List (String × Bytes))
      → IsReadable
      → build_sandbox_assets b output_directory (ok place) ≡ ok built
      → b.tree.disk.parse (b.tree.decode_text (b.utf8 (json_file built.manifest)))
        ≡ ok (json_copy built.manifest)
      → Holds folder built.outputs
      → IsDelivered built folder
  folder-IsDelivered output_directory place built folder r h parses holds =
      let p = build_sandbox_assets-IsBuild b output_directory place built h in
      let f = p.finished in
      let start : Bundled = record { outputs = []; inputs = [] } in
      let (texts, kept, (e, (s, others))) =
        bundle_all_lem b (b.absolute output_directory) targets start p.bundled p.called r.bundler
          (record { no_manifest = refl; texts = λ k bytes h. nothing k bytes h }) in
      let o =
        bundle_all-AreOutputs b (b.absolute output_directory) targets start p.bundled p.called
          (refl, refl) in
      let (entry, t) = assets_of-HasTexts p.bundled f.css f.packages r o texts e s in
      assembled built folder (keys place.entries) (assets_of b p.bundled f.css f.packages) entry
        f.packages
        (build_manifest b p.bundled (assets_of b p.bundled f.css f.packages) f.embedded f.packages
          f.sources)
        r t f.made holds parses
        (manifest_lem p.bundled (assets_of b p.bundled f.css f.packages) f.embedded f.packages
          f.sources)

  -- What is built can be served: with hashes, a decoder and a bundler as `IsReadable` has them, where a
  -- build returns, and its manifest is parsed back, the service's
  -- reader accepts the directory as the build leaves it, whatever build stood there before, and reads
  -- the text of the entry module that the bundler gave, and the notices of the build's packages.
  pub build_sandbox_assets-IsDelivered :
      (output_directory : String) (place : Place) (built : Built)
      → IsReadable
      → build_sandbox_assets b output_directory (ok place) ≡ ok built
      → b.tree.disk.parse (b.tree.decode_text (b.utf8 (json_file built.manifest)))
        ≡ ok (json_copy built.manifest)
      → IsDelivered built (make_changes built.changes (contents place.entries))
  build_sandbox_assets-IsDelivered output_directory place built r h parses =
      folder-IsDelivered output_directory place built
        (make_changes built.changes (contents place.entries)) r h parses
        λ k bytes there.
          (build_sandbox_assets-IsBuilt b output_directory place built h).1.exact k ∙ there
