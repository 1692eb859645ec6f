-- ===== src/AssetBuild.antt =====
-- web/build-assets.mjs: `buildSandboxAssets`, as the changes that it makes to the destination once
-- all is read and checked. The files that it reads do not change meanwhile.
pub mod Changes
pub mod Contents
pub mod Bundling
pub mod Ordering
pub mod Reading
pub mod Delivery
pub mod Completeness
use Prim.Native.String
use kestrel_feature_mcp.Prelude.{
  ℕ, String, code, Bool, true, false, not, ◌&&◌, ◌||◌, Option, none, some, List, [], ◌∷◌, ◌++◌, all,
  includes, is_blank, map, nat_eq, select, sort, starts_with, lookup, set_item, remove_item, keys,
  ◌==◌, Outcome, ok, throw, Exception, ◌>>=◌, ◌>>◌, require, or_throw, error, type_error,
  if◌then◌else◌,
}
use kestrel_feature_mcp.Json.{◌<>◌, stringify, pretty}
use kestrel_feature_mcp.Value.{Value, arr, strings}
use kestrel_feature_mcp.Assets.{Bytes, generated_files}
use kestrel_feature_mcp.NoticeFiles.{Notices, sort_entries, collect_embedded_notices}
use kestrel_feature_mcp.AssetLicenses.{Tree, Package}
use kestrel_feature_mcp.AssetManifest.{
  Parts, add_packages, add_embedded, values, order_packages, notices_text, manifest_of,
}

-- One of the four calls of the bundler.
pub record Target : Type 0 where
  pub entry : String
  pub filename : String
  pub platform : String
  pub target : String

-- What a call gives: the files by their paths, and the inputs of its metadata.
pub record Bundle : Type 0 where
  pub output_files : List (String × Bytes)
  pub inputs : List String

-- A file of a folder, with what `lstat` says of it.
pub record Entry : Type 0 where
  pub is_file : Bool
  pub is_link : Bool
  pub links : ℕ
  pub bytes : Bytes

-- The destination once it is made.
pub record Place : Type 0 where
  pub is_link : Bool
  pub is_directory : Bool
  pub entries : List (String × Entry)

-- What the build takes from Node and the bundler beside the tree; `absolute` is `path.resolve`, and
-- `root_of` is the root that `path.parse` gives. A text is hashed and written in UTF-8.
pub record Builder : Type 0 where
  pub tree : Tree
  pub web_root : String
  pub absolute : String → String
  pub root_of : String → String
  pub basename : String → String
  pub bundle : String → Target → Outcome Bundle  -- into a destination
  pub compiler_version : String
  pub sha256_text : String → String
  pub utf8 : String → Bytes

pub data Change : Type 0 where
  unlink : String → Change
  write_file : String → Bytes → Change

pub record Built : Type 0 where
  pub outputs : List (String × Bytes)
  pub manifest : Value
  pub changes : List Change

abbrev pub targets : List Target
targets =
    record {
      entry = "src/sandbox-entry.js";
      filename = "sandbox-entry.js";
      platform = "browser";
      target = "es2022";
    }
    ∷ record {
      entry = "src/sandbox-server-entry.js";
      filename = "sandbox-service.mjs";
      platform = "node";
      target = "node22";
    }
    ∷ record {
      entry = "src/parent-entry.js";
      filename = "parent-entry.js";
      platform = "browser";
      target = "es2022";
    }
    ∷ record {
      entry = "src/oauth-panel.js";
      filename = "oauth-panel.js";
      platform = "browser";
      target = "es2022";
    }
    ∷ []

-- The outputs and the hashes of the inputs of the calls so far.
pub record Bundled : Type 0 where
  pub outputs : List (String × Bytes)
  pub inputs : List (String × String)

abbrev pub is_own_file : Entry → Bool
is_own_file e = not (not e.is_file || e.is_link || not (nat_eq e.links 1))

abbrev pub are_own_files : List (String × Entry) → Bool
are_own_files [] = true
are_own_files ((name, e) ∷ entries) = is_own_file e && are_own_files entries

-- The checks of the destination's contents.
unfoldable pub check_place : Place → Outcome (List String)
check_place place = do
  require (not (place.is_link || not place.is_directory))
      (type_error "Build output must be a real directory")
  require (are_own_files place.entries)
      (type_error "Build output must contain only its own ordinary generated files")
  require (all (includes generated_files) (keys place.entries))
      (error "Build output directory contains files not owned by the Apps asset build")
  ok (keys place.entries)

abbrev ends_with : String → String → Bool
ends_with suffix String.[] = is_blank suffix
ends_with suffix (String.◌∷◌ c s) = suffix == String.◌∷◌ c s || ends_with suffix s

abbrev pub fixed_sources : List String
fixed_sources =
    "src/oauth-panel.css" ∷ "build.mjs" ∷ "build-assets.mjs" ∷ "build-notices.mjs" ∷ "package.json"
    ∷ "package-lock.json" ∷ []

abbrev pub json_file : Value → String
json_file v = elim (pretty v) [ none ↦ "undefined\n" | some text ↦ text <> "\n" ]

abbrev pub removals : List String → List (String × Bytes) → List Change
removals [] outputs = []
removals (name ∷ names) outputs = elim (lookup name outputs) [
  | none ↦ unlink name ∷ removals names outputs
  | some bytes ↦ removals names outputs
]

abbrev pub writes : List (String × Bytes) → List Change
writes [] = []
writes ((name, bytes) ∷ outputs) = write_file name bytes ∷ writes outputs

-- A folder after changes, by the bytes of its files.
abbrev pub change : Change → List (String × Bytes) → List (String × Bytes)
change (unlink name) folder = remove_item name folder
change (write_file name bytes) folder = set_item name bytes folder

abbrev pub make_changes : List Change → List (String × Bytes) → List (String × Bytes)
make_changes [] folder = folder
make_changes (c ∷ cs) folder = make_changes cs (change c folder)

abbrev pub contents : List (String × Entry) → List (String × Bytes)
contents [] = []
contents ((name, e) ∷ entries) = (name, e.bytes) ∷ contents entries

module _ (b : Builder) where
  unfoldable pub check_destination : String → Outcome (Unit {0})
  check_destination destination = do
    require (not (destination == b.web_root || destination == b.root_of destination))
        (type_error "Build output must use a dedicated asset directory")
    require (not (starts_with b.tree.modules_folder destination))
        (type_error "Build output cannot modify installed dependencies")

  unfoldable pub add_outputs :
      List (String × Bytes) → List (String × Bytes) → Outcome (List (String × Bytes))
  add_outputs [] outputs = ok outputs
  add_outputs ((path, bytes) ∷ files) outputs = do
    require (includes generated_files (b.basename path))
        (error ("Unexpected build output: " <> b.basename path))
    add_outputs files (set_item (b.basename path) bytes outputs)

  unfoldable pub add_inputs :
      List String → List (String × String) → Outcome (List (String × String))
  add_inputs [] hashes = ok hashes
  add_inputs (input ∷ inputs) hashes = do
    bytes ← b.tree.disk.read (b.tree.disk.resolve input)
    add_inputs inputs (set_item input (b.tree.disk.sha256 bytes) hashes)

  unfoldable pub bundle_all : String → List Target → Bundled → Outcome Bundled
  unfolding add_outputs add_inputs
  bundle_all destination [] so_far = ok so_far
  bundle_all destination (target ∷ rest) so_far = do
    result ← b.bundle destination target
    outputs ← add_outputs result.output_files so_far.outputs
    inputs ← add_inputs result.inputs so_far.inputs
    bundle_all destination rest (record { outputs = outputs; inputs = inputs })

  abbrev pub in_web_root : String → String
  in_web_root name = b.tree.join_path b.web_root name

  unfoldable pub hash_sources :
      List String → List (String × String) → Outcome (List (String × String))
  hash_sources [] hashes = ok hashes
  hash_sources (filename ∷ filenames) hashes = do
    bytes ← b.tree.disk.read (in_web_root filename)
    hash_sources filenames (set_item filename (b.tree.disk.sha256 bytes) hashes)

  -- The packages in which the inputs lie.
  abbrev pub installed_packages : List (String × String) → Outcome (List (String × Package))
  installed_packages inputs =
      add_packages b.tree (sort (select (starts_with "node_modules/") (keys inputs))) []

  unfoldable pub sources_of : Notices → Outcome (List (String × String))
  unfolding hash_sources
  sources_of embedded = do
    names ← b.tree.read_dir (in_web_root "src")
    let scripts = map (λ name. "src/" <> name) (select (ends_with ".js") names) in
        hash_sources (sort (fixed_sources ++ (embedded.source_files ++ scripts))) []

  abbrev pub hashed : List (String × Bytes) → List (String × String)
  hashed [] = []
  hashed ((name, bytes) ∷ outputs) = (name, b.tree.disk.sha256 bytes) ∷ hashed outputs

  -- The outputs beside the manifest.
  unfoldable pub assets_of : Bundled → Bytes → List Package → List (String × Bytes)
  assets_of bundled css packages =
      set_item "THIRD_PARTY_NOTICES.txt" (b.utf8 (notices_text packages))
        (set_item "oauth-panel.css" css bundled.outputs)

  unfoldable pub build_manifest :
      Bundled → List (String × Bytes) → Notices → List Package → List (String × String) → Value
  build_manifest bundled assets embedded packages sources = manifest_of b.sha256_text (record {
    compiler_version = b.compiler_version;
    sources = sources;
    bundled_inputs = sort_entries b.tree.disk bundled.inputs;
    source_maps = embedded.source_maps;
    packages = packages;
    assets = hashed (sort_entries b.tree.disk assets);
  })

  -- The end of the build, when the manifest is made.
  unfoldable pub assemble : List String → List (String × Bytes) → Value → Built
  assemble existing assets manifest =
      let outputs = set_item "manifest.json" (b.utf8 (json_file manifest)) assets in
      record {
        outputs = outputs;
        manifest = manifest;
        changes = removals existing outputs ++ writes outputs;
      }

  -- The build from what the bundler gave on.
  unfoldable pub finish_build : List String → Bundled → Outcome Built
  finish_build existing bundled = do
    css ← b.tree.disk.read (in_web_root "src/oauth-panel.css")
    installed ← installed_packages bundled.inputs
    embedded ← collect_embedded_notices b.tree.disk (keys bundled.inputs)
    packages ← order_packages b.tree.disk (values (add_embedded embedded.dependencies installed))
    sources ← sources_of embedded
    let assets = assets_of bundled css packages in
        ok (assemble existing assets (build_manifest bundled assets embedded packages sources))

  -- The build into a directory, by its name and what making it gives.
  unfoldable pub build_sandbox_assets : String → Outcome Place → Outcome Built
  unfolding check_destination bundle_all finish_build
  build_sandbox_assets output_directory made =
      let destination = b.absolute output_directory in
      do
        check_destination destination
        place ← made
        existing ← check_place place
        bundled ← bundle_all destination targets (record { outputs = []; inputs = [] })
        finish_build existing bundled
