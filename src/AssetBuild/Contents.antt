-- ===== src/AssetBuild/Contents.antt =====
-- What a build leaves in its directory.
use kestrel_feature_mcp.Prelude.{
  String, true, false, ◌≡◌, refl, sym, List, [], ◌∷◌, all, starts_with, includes, lookup, set_item,
  keys, ◌==◌, ok, ok-injective, >>=-eq-ok, require->>=, arith,
}
use mathlib.Core.Path.{subst}
use kestrel_feature_mcp.Value.{Value}
use kestrel_feature_mcp.Assets.{Bytes, generated_files}
use kestrel_feature_mcp.NoticeFiles.{Notices, collect_embedded_notices}
use kestrel_feature_mcp.AssetLicenses.{Package}
use kestrel_feature_mcp.AssetManifest.{notices_text, add_embedded, order_packages, values}
use kestrel_feature_mcp.AssetBuild.{
  assemble, assets_of, build_manifest, json_file, Builder, Target, Bundled, Place, Built, targets,
  check_destination, check_place, are_own_files, add_outputs, add_inputs, bundle_all, in_web_root,
  installed_packages, sources_of, finish_build, build_sandbox_assets, make_changes, contents,
}
use kestrel_feature_mcp.AssetBuild.Changes.{AreOutputs, set_item-AreOutputs, exact}

module _ (b : Builder) where
  add_outputs-AreOutputs :
      (files outputs after : List (String × Bytes))
      → add_outputs b files outputs ≡ ok after
      → AreOutputs outputs
      → AreOutputs after
  unfolding add_outputs
  add_outputs-AreOutputs [] outputs after h o = subst AreOutputs (ok-injective h) o
  add_outputs-AreOutputs ((path, bytes) ∷ files) outputs after h o =
      let (own, rest) = require->>= (includes generated_files (b.basename path)) _ _ h in
      add_outputs-AreOutputs files (set_item (b.basename path) bytes outputs) after rest
        (set_item-AreOutputs (b.basename path) bytes outputs own o)

  pub bundle_all-AreOutputs :
      (destination : String) (ts : List Target) (so_far bundled : Bundled)
      → bundle_all b destination ts so_far ≡ ok bundled
      → AreOutputs so_far.outputs
      → AreOutputs bundled.outputs
  unfolding bundle_all
  bundle_all-AreOutputs destination [] so_far bundled h o =
      subst (λ (x : Bundled). AreOutputs x.outputs) (ok-injective h) o
  bundle_all-AreOutputs destination (target ∷ rest) so_far bundled h o =
      let (result, called, h1) = >>=-eq-ok (b.bundle destination target) _ h in
      let (outputs, added, h2) =
        >>=-eq-ok (add_outputs b result.output_files so_far.outputs) _ h1 in
      let (inputs, hashed_inputs, h3) = >>=-eq-ok (add_inputs b result.inputs so_far.inputs) _ h2 in
      bundle_all-AreOutputs destination rest (record { outputs = outputs; inputs = inputs }) bundled
        h3 (add_outputs-AreOutputs result.output_files so_far.outputs outputs added o)

  -- A destination is not the web package's own folder and not a root, and its path does not begin with
  -- the folder of the installed packages and a separator. Nothing else of a path is excluded.
  abbrev pub IsAllowed : String → Type 0
  IsAllowed destination =
      ((destination == b.web_root) ≡ false)
      × ((destination == b.root_of destination) ≡ false)
      × (starts_with b.tree.modules_folder destination ≡ false)

  -- The build's directory before, and what is left in it.
  pub record IsBuilt (place : Place) (built : Built) : Type 0 where
    pub own : are_own_files place.entries ≡ true
    pub names : all (includes generated_files) (keys place.entries) ≡ true
    pub outputs : AreOutputs built.outputs
    pub exact :
        (k : String)
        → lookup k (make_changes built.changes (contents place.entries)) ≡ lookup k built.outputs

  -- What a build that finishes has read.
  pub record IsFinished (existing : List String) (bundled : Bundled) (built : Built) : Type 0 where
    pub css : Bytes
    pub embedded : Notices
    pub packages : List Package
    pub sources : List (String × String)
    pub installed : List (String × Package)
    pub found : installed_packages b bundled.inputs ≡ ok installed
    pub collected : collect_embedded_notices b.tree.disk (keys bundled.inputs) ≡ ok embedded
    pub ordered :
        order_packages b.tree.disk (values (add_embedded embedded.dependencies installed))
        ≡ ok packages
    pub made :
        built
        ≡ assemble b existing
            (assets_of b bundled css packages)
            (build_manifest b bundled (assets_of b bundled css packages) embedded packages sources)

  pub finish_build-IsFinished :
      (existing : List String) (bundled : Bundled) (built : Built)
      → finish_build b existing bundled ≡ ok built
      → IsFinished existing bundled built
  unfolding finish_build
  finish_build-IsFinished existing bundled built h =
      let (css, read, h1) =
        >>=-eq-ok (b.tree.disk.read (in_web_root b "src/oauth-panel.css")) _ h in
      let (installed, found, h2) = >>=-eq-ok (installed_packages b bundled.inputs) _ h1 in
      let (embedded, collected, h3) =
        >>=-eq-ok (collect_embedded_notices b.tree.disk (keys bundled.inputs)) _ h2 in
      let (packages, ordered, h4) =
        >>=-eq-ok
          (order_packages b.tree.disk (values (add_embedded embedded.dependencies installed))) _
          h3 in
      let (sources, hashed_sources, made) = >>=-eq-ok (sources_of b embedded) _ h4 in
      record {
        css = css;
        embedded = embedded;
        packages = packages;
        sources = sources;
        installed = installed;
        found = found;
        collected = collected;
        ordered = ordered;
        made = sym (ok-injective made);
      }

  pub assets_of-AreOutputs :
      (bundled : Bundled) (css : Bytes) (packages : List Package)
      → AreOutputs bundled.outputs
      → AreOutputs (assets_of b bundled css packages)
  unfolding assets_of
  assets_of-AreOutputs bundled css packages o =
      set_item-AreOutputs "THIRD_PARTY_NOTICES.txt" (b.utf8 (notices_text packages))
        (set_item "oauth-panel.css" css bundled.outputs) refl
        (set_item-AreOutputs "oauth-panel.css" css bundled.outputs refl o)

  assemble-IsBuilt :
      (place : Place) (assets : List (String × Bytes)) (manifest : Value)
      → are_own_files place.entries ≡ true
      → all (includes generated_files) (keys place.entries) ≡ true
      → AreOutputs assets
      → IsBuilt place (assemble b (keys place.entries) assets manifest)
  unfolding assemble
  assemble-IsBuilt place assets manifest own names o =
      let outputs =
        set_item-AreOutputs "manifest.json" (b.utf8 (json_file manifest)) assets refl o in
      record {
        own = own;
        names = names;
        outputs = outputs;
        exact =
            exact place.entries (set_item "manifest.json" (b.utf8 (json_file manifest)) assets)
              outputs.0;
      }

  place_checked :
      (place : Place) (existing : List String)
      → check_place place ≡ ok existing
      → (existing ≡ keys place.entries)
        × (are_own_files place.entries ≡ true)
        × (all (includes generated_files) (keys place.entries) ≡ true)
  unfolding check_place
  place_checked place existing h = (ground arith, ground arith, ground arith)

  destination_checked :
      (destination : String) (u : Unit {0})
      → check_destination b destination ≡ ok u
      → IsAllowed destination
  unfolding check_destination
  destination_checked destination u h = (ground arith, ground arith, ground arith)

  -- The parts of a build that returns.
  pub record IsBuild (destination : String) (place : Place) (built : Built) : Type 0 where
    pub bundled : Bundled
    pub allowed : IsAllowed destination
    pub own : are_own_files place.entries ≡ true
    pub names : all (includes generated_files) (keys place.entries) ≡ true
    pub called :
        bundle_all b destination targets (record { outputs = []; inputs = [] }) ≡ ok bundled
    pub finished : IsFinished (keys place.entries) bundled built

  pub build_sandbox_assets-IsBuild :
      (output_directory : String) (place : Place) (built : Built)
      → build_sandbox_assets b output_directory (ok place) ≡ ok built
      → IsBuild (b.absolute output_directory) place built
  unfolding build_sandbox_assets
  build_sandbox_assets-IsBuild output_directory place built h =
      let destination = b.absolute output_directory in
      let (u, checked_path, h1) = >>=-eq-ok (check_destination b destination) _ h in
      let (existing, checked, h2) = >>=-eq-ok (check_place place) _ h1 in
      let (bundled, called, h3) =
        >>=-eq-ok (bundle_all b destination targets (record { outputs = []; inputs = [] })) _ h2 in
      let (same, own, names) = place_checked place existing checked in
      record {
        bundled = bundled;
        allowed = destination_checked destination u checked_path;
        own = own;
        names = names;
        called = called;
        finished =
            finish_build-IsFinished (keys place.entries) bundled built
              (subst (λ (names : List String). finish_build b names bundled ≡ ok built) same h3);
      }

  -- A build that returns leaves just its own outputs: its directory is neither the
  -- web package's own folder nor a root, its path does not begin with the folder of the installed
  -- packages and a separator, and it held nothing but ordinary files under the names that the build
  -- owns; after its changes each name has the bytes of the output under it, and a name that
  -- is no output's has none. The outputs stand under names that the build owns, each once.
  pub build_sandbox_assets-IsBuilt :
      (output_directory : String) (place : Place) (built : Built)
      → build_sandbox_assets b output_directory (ok place) ≡ ok built
      → IsAllowed (b.absolute output_directory) × IsBuilt place built
  build_sandbox_assets-IsBuilt output_directory place built h =
      let p = build_sandbox_assets-IsBuild output_directory place built h in
      let f = p.finished in
      let outputs =
        bundle_all-AreOutputs (b.absolute output_directory) targets
          (record { outputs = []; inputs = [] }) p.bundled p.called (refl, refl) in
      (
        p.allowed,
        subst (IsBuilt place) (sym f.made) (
            assemble-IsBuilt place (assets_of b p.bundled f.css f.packages)
              (build_manifest b p.bundled (assets_of b p.bundled f.css f.packages) f.embedded
                f.packages f.sources)
              p.own p.names (assets_of-AreOutputs p.bundled f.css f.packages outputs)),
      )
