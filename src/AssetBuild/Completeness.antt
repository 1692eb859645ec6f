-- ===== src/AssetBuild/Completeness.antt =====
-- The packages that the notices of a build list, beside what it leaves in its directory.
use kestrel_feature_mcp.Prelude.{
  String, Bool, true, ◌≡◌, refl, ap, sym, ◌∙◌, some, List, [], ◌∷◌, includes, includes-sort, select,
  sort, starts_with, lookup, lookup-set_item, set_item, keys, ◌==◌, eq_iff, Bool-cases, inl, inr,
  All, ok, arith,
}
use mathlib.Core.Path.{subst}
use kestrel_feature_mcp.NoticeFiles.{Notices, collect_embedded_notices}
use kestrel_feature_mcp.Assets.{Bytes}
use kestrel_feature_mcp.Value.{Value}
use kestrel_feature_mcp.AssetLicenses.{Package, license_for}
use kestrel_feature_mcp.AssetManifest.{package_key, notices_text}
use kestrel_feature_mcp.AssetManifest.Listing.{key_of, is_listed, order_packages-is_listed}
use kestrel_feature_mcp.AssetBuild.{
  Builder, Place, Built, Bundled, targets, bundle_all, assets_of, assemble, json_file,
  build_sandbox_assets,
}
use kestrel_feature_mcp.AssetBuild.Contents.{
  IsAllowed, IsBuilt, build_sandbox_assets-IsBuild, build_sandbox_assets-IsBuilt,
}

includes-select :
    (p : String → Bool) (names : List String) (k : String)
    → includes names k ≡ true
    → p k ≡ true
    → includes (select p names) k ≡ true
includes-select p [] k here good = cc
includes-select p (n ∷ names) k here good = elim (Bool-cases (n == k)) [
  | inl same ↦
      (let good_n = subst (λ (x : String). p x ≡ true) (sym ((eq_iff n k).0 same)) good in
        rw (good_n, same) refl)
  | inr other ↦ (let rest = includes-select p names k (ground arith) good in ground arith)
]

module _ (b : Builder) where
  -- The notices that a build writes, over the inputs of its bundles.
  pub record IsNoticed (destination : String) (built : Built) : Type 0 where
    pub bundled : Bundled
    pub called :
        bundle_all b destination targets (record { outputs = []; inputs = [] }) ≡ ok bundled
    pub embedded : Notices
    pub collected : collect_embedded_notices b.tree.disk (keys bundled.inputs) ≡ ok embedded
    pub packages : List Package
    pub text :
        lookup "THIRD_PARTY_NOTICES.txt" built.outputs ≡ some (b.utf8 (notices_text packages))
    pub installed_listed :
        (input : String)
        → includes (keys bundled.inputs) input ≡ true
        → starts_with "node_modules/" input ≡ true
        → (p : Package) × (license_for b.tree input ≡ ok p) × (is_listed (key_of p) packages ≡ true)
    pub embedded_listed :
        All (λ n. is_listed (package_key n.name n.version) packages ≡ true) embedded.dependencies

  notices_written :
      (existing : List String) (bundled : Bundled) (css : Bytes) (packages : List Package)
      (manifest : Value)
      → lookup "THIRD_PARTY_NOTICES.txt"
          (assemble b existing (assets_of b bundled css packages) manifest).outputs
        ≡ some (b.utf8 (notices_text packages))
  unfolding assemble assets_of
  notices_written existing bundled css packages manifest =
      let text = b.utf8 (notices_text packages) in
      let with_css = set_item "oauth-panel.css" css bundled.outputs in
      lookup-set_item "manifest.json" "THIRD_PARTY_NOTICES.txt" (b.utf8 (json_file manifest))
        (set_item "THIRD_PARTY_NOTICES.txt" text with_css)
      ∙ lookup-set_item "THIRD_PARTY_NOTICES.txt" "THIRD_PARTY_NOTICES.txt" text with_css

  -- A build that returns leaves just its own outputs, and its notices miss no package. Its
  -- directory is neither the web package's own folder nor a root, its path does not begin with the
  -- folder of the installed packages and a separator, and it held nothing but ordinary files under the
  -- names that the build owns; after its changes each name has the bytes of the output under it, and
  -- a name that is no output's has none. Among the outputs is the text of the notices of a list of
  -- packages, which has the name and version of the package of each input below `node_modules`, as
  -- `licenseFor` finds it, and of each package that an input embeds.
  pub build_sandbox_assets-IsNoticed :
      (output_directory : String) (place : Place) (built : Built)
      → build_sandbox_assets b output_directory (ok place) ≡ ok built
      → IsAllowed b (b.absolute output_directory)
        × IsBuilt b place built
        × IsNoticed (b.absolute output_directory) built
  build_sandbox_assets-IsNoticed output_directory place built h =
      let p = build_sandbox_assets-IsBuild b output_directory place built h in
      let f = p.finished in
      let (allowed, is_built) = build_sandbox_assets-IsBuilt b output_directory place built h in
      let own = starts_with "node_modules/" in
      let (installed, embedded) =
        order_packages-is_listed b.tree (sort (select own (keys p.bundled.inputs)))
          f.embedded.dependencies f.installed f.packages f.found f.ordered in
      (
        allowed,
        is_built,
        record {
          bundled = p.bundled;
          called = p.called;
          embedded = f.embedded;
          collected = f.collected;
          packages = f.packages;
          text =
              ap (λ (x : Built). lookup "THIRD_PARTY_NOTICES.txt" x.outputs) f.made
              ∙ notices_written (keys place.entries) p.bundled f.css f.packages _;
          installed_listed = λ input here below. installed input (
              includes-sort (select own (keys p.bundled.inputs)) input
              ∙ includes-select own (keys p.bundled.inputs) input here below);
          embedded_listed = embedded;
        },
      )
