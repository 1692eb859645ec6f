-- ===== src/Examples/Builds.antt =====
-- A build of the tests, over one installed package, with its directory before and after.
use kestrel_feature_mcp.Prelude.{
  ◌↔◌, String, Bool, true, false, ◌≡◌, refl, ◌||◌, none, some, List, [], ◌∷◌, nat_eq, code, eq_refl,
  join, trim, lookup, includes, set_item, utf16_length, Outcome, ok, throw, error, ◌==◌,
  ok-injective, if◌then◌else◌,
}
use mathlib.Core.Path.{subst}
use kestrel_feature_mcp.Json.{◌<>◌, json_copy, pretty, stringify}
use kestrel_feature_mcp.Value.{Value, obj, arr, nil, num, str, nonneg, field, end}
use kestrel_feature_mcp.Assets.{Bytes}
use kestrel_feature_mcp.NoticeFiles.{
  Disk, collect_embedded_notices, known_of, gather, visit, notices_of,
}
use kestrel_feature_mcp.AssetLicenses.{
  Tree, Package, license_for, climb, package_at, read_metadata, read_package, read_text,
  read_license_texts,
}
use kestrel_feature_mcp.AssetManifest.{
  Parts, manifest_of, add_packages, add_embedded, order_packages, notices_text,
}
use kestrel_feature_mcp.AssetBuild.{
  Target, Bundle, Bundled, targets, Place, Builder, Built, build_sandbox_assets, check_destination,
  check_place, bundle_all, add_outputs, add_inputs, finish_build, sources_of, hash_sources,
  build_manifest, assemble, assets_of, json_file, make_changes,
}
use kestrel_feature_mcp.AssetBuild.Bundling.{IsBundler, IsBundle}
use kestrel_feature_mcp.AssetCheck.{compare_files, verify_sandbox_build}
use kestrel_feature_mcp.AssetBuild.Contents.{IsAllowed, IsBuilt}
use kestrel_feature_mcp.AssetBuild.Completeness.{IsNoticed, build_sandbox_assets-IsNoticed}
use kestrel_feature_mcp.AssetBuild.Delivery.{IsReadable}
use kestrel_feature_mcp.AssetCheck.Verification.{IsShipped, verify_sandbox_build_iff}
use kestrel_feature_mcp.Examples.Encoding.{encode_text, decode_codes, decode_codes-encode_text}

abbrev hash : String
hash = "00000000000000000000000000000000000000000000000000000000000000aa"

abbrev has_slash : String → Bool
has_slash String.[] = false
has_slash (String.◌∷◌ c s) = nat_eq (code c) b'/' || has_slash s

-- What stands before the last slash.
abbrev parent : String → String
parent String.[] = ""
parent (String.◌∷◌ c s) = let rest = parent s in if has_slash s then String.◌∷◌ c rest else ""

abbrev decoded : Bytes → String
decoded bytes = elim (decode_codes bytes) [ none ↦ "" | some text ↦ text ]

abbrev inventory : Value
inventory = obj (field "format" (num (nonneg 1)) (field "packages" (arr nil) end))

abbrev metadata : Value
metadata =
    obj
      (field "name" (str "zod") (field "version" (str "3.25.1") (field "license" (str "MIT") end)))

abbrev zod : Package
zod = record {
  name = str "zod";
  version = str "3.25.1";
  license = str "MIT";
  licenses = record { name = "LICENSE"; text = "text" } ∷ [];
  embedded_in = none;
}

abbrev parts : Parts
parts = record {
  compiler_version = "0.25.0";
  sources =
      ("build-assets.mjs", hash)
      ∷ ("build-notices.mjs", hash)
      ∷ ("build.mjs", hash)
      ∷ ("package-lock.json", hash)
      ∷ ("package.json", hash)
      ∷ ("src/app.js", hash)
      ∷ ("src/oauth-panel.css", hash)
      ∷ ("vendor-notices.json", hash)
      ∷ [];
  bundled_inputs = ("src/sandbox-entry.js", hash) ∷ ("node_modules/zod/lib/index.js", hash) ∷ [];
  source_maps = [];
  packages = zod ∷ [];
  assets =
      ("sandbox-entry.js", hash)
      ∷ ("sandbox-service.mjs", hash)
      ∷ ("parent-entry.js", hash)
      ∷ ("oauth-panel.js", hash)
      ∷ ("oauth-panel.css", hash)
      ∷ ("THIRD_PARTY_NOTICES.txt", hash)
      ∷ [];
}

abbrev manifest : Value
manifest = manifest_of (λ text. hash) parts

abbrev missing : List String
missing =
    "/web/src/sandbox-entry.js.map" ∷ "/web/node_modules/zod/lib/index.js.map"
    ∷ "/web/node_modules/zod/lib/package.json" ∷ []

abbrev disk : Disk
disk = record {
  inventory_text = ok "inventory";
  read = λ path.
      if includes missing path
      then throw (error "ENOENT")
      else if path == "/web/node_modules/zod/package.json"
      then ok (encode_text "package")
      else ok (encode_text "text");
  stat = λ path. ok (true, false);
  is_missing = λ e. true;
  parse = λ text. ok (
      if text == "inventory"
      then inventory
      else if text == "package"
      then metadata
      else json_copy manifest);
  sha256 = λ bytes. hash;
  decode = decode_codes;
  resolve = λ name. "/web/" <> name;
  licenses_folder = "/web/licenses/";
  locale_leb = λ a b. true;
}

abbrev tree : Tree
tree = record {
  disk = disk;
  read_dir = λ folder.
      ok (if folder == "/web/src" then "app.js" ∷ "app.css" ∷ [] else "LICENSE" ∷ "index.js" ∷ []);
  decode_text = decoded;
  dirname = parent;
  join_path = λ folder name. folder <> "/" <> name;
  modules_folder = "/web/node_modules/";
}

abbrev bundle_target : String → Target → Outcome Bundle
bundle_target destination target =
    if target.filename == "manifest.json"
    then throw (error "reserved")
    else ok (record {
      output_files = (target.filename, encode_text "run()") ∷ [];
      inputs = "src/sandbox-entry.js" ∷ "node_modules/zod/lib/index.js" ∷ [];
    })

abbrev builder : Builder
builder = record {
  tree = tree;
  web_root = "/web";
  absolute = λ path. path;
  root_of = λ path. "/";
  basename = λ path. path;
  bundle = bundle_target;
  compiler_version = "0.25.0";
  sha256_text = λ text. hash;
  utf8 = encode_text;
}

-- The nearest folder with metadata is above that of the input.
licensed : license_for tree "node_modules/zod/lib/index.js" ≡ ok zod
unfolding license_for climb package_at read_metadata read_package read_text read_license_texts
    utf16_length
licensed = refl

-- The directory holds what is left of an earlier build.
abbrev place : Place
place = record {
  is_link = false;
  is_directory = true;
  entries =
      (
        "parent-entry.js",
        record { is_file = true; is_link = false; links = 1; bytes = encode_text "old" },
      )
      ∷ [];
}

abbrev bundled : Bundled
bundled = record {
  outputs =
      ("sandbox-entry.js", encode_text "run()")
      ∷ ("sandbox-service.mjs", encode_text "run()")
      ∷ ("parent-entry.js", encode_text "run()")
      ∷ ("oauth-panel.js", encode_text "run()")
      ∷ [];
  inputs = ("src/sandbox-entry.js", hash) ∷ ("node_modules/zod/lib/index.js", hash) ∷ [];
}

abbrev assets : List (String × Bytes)
assets = assets_of builder bundled (encode_text "text") (zod ∷ [])

abbrev built : Built
built = assemble builder ("parent-entry.js" ∷ []) assets manifest

bundles : bundle_all builder "/out" targets (record { outputs = []; inputs = [] }) ≡ ok bundled
unfolding bundle_all add_outputs add_inputs
bundles = refl

builds : build_sandbox_assets builder "/out" (ok place) ≡ ok built
unfolding build_sandbox_assets check_destination check_place bundle_all add_outputs add_inputs
    finish_build add_packages license_for climb package_at read_metadata read_package read_text
    read_license_texts utf16_length collect_embedded_notices known_of gather visit notices_of
    add_embedded order_packages sources_of hash_sources build_manifest assets_of
builds = refl

build_sandbox_assets-IsNoticed_example :
    IsAllowed builder "/out" × IsBuilt builder place built × IsNoticed builder "/out" built
build_sandbox_assets-IsNoticed_example =
    build_sandbox_assets-IsNoticed builder "/out" place built builds

own_outputs : IsBundler builder
own_outputs destination target result h = by_name (target.filename == "manifest.json") refl h
  where
    by_name :
        (b : Bool)
        → (target.filename == "manifest.json") ≡ b
        → (if b
            then throw (error "reserved")
            else ok (record {
              output_files = (target.filename, encode_text "run()") ∷ [];
              inputs = "src/sandbox-entry.js" ∷ "node_modules/zod/lib/index.js" ∷ [];
            }))
          ≡ ok result
        → IsBundle builder target result
    by_name true e h = cc
    by_name false e h = subst (IsBundle builder target) (ok-injective h) (record {
      output = rw (eq_refl target.filename) refl;
      no_manifest = rw e refl;
      texts = (("run()", refl), tt);
    })

readable : IsReadable builder
readable = record { hex = λ bytes. refl; utf8 = decode_codes-encode_text; bundler = own_outputs }

-- What a build leaves passes the comparison with a new build; an asset that was changed does not.
abbrev scratch : Built
scratch = assemble builder [] assets manifest

verifies :
    verify_sandbox_build builder "/tmp/check" (ok (make_changes scratch.changes [])) ≡ ok manifest
unfolding verify_sandbox_build compare_files build_sandbox_assets check_destination check_place
    bundle_all add_outputs add_inputs finish_build add_packages license_for climb package_at
    read_metadata read_package read_text read_license_texts utf16_length collect_embedded_notices
    known_of gather visit notices_of add_embedded order_packages sources_of hash_sources
    build_manifest assets_of assemble stringify lookup notices_text join trim manifest_of pretty
verifies = refl

differs :
    verify_sandbox_build builder "/tmp/check"
      (ok (set_item "oauth-panel.js" (encode_text "go()") (make_changes scratch.changes [])))
    ≡ throw (error "Shipped sandbox asset differs from the clean build: oauth-panel.js")
unfolding verify_sandbox_build compare_files build_sandbox_assets check_destination check_place
    bundle_all add_outputs add_inputs finish_build add_packages license_for climb package_at
    read_metadata read_package read_text read_license_texts utf16_length collect_embedded_notices
    known_of gather visit notices_of add_embedded order_packages sources_of hash_sources
    build_manifest assets_of assemble stringify lookup notices_text join trim manifest_of pretty
differs = refl

parsed_back : tree.disk.parse (decoded (encode_text (json_file manifest))) ≡ ok (json_copy manifest)
unfolding manifest_of pretty
parsed_back = refl

verify_sandbox_build_iff_example :
    (verify_sandbox_build builder "/tmp/check" (ok (make_changes scratch.changes [])) ≡ ok manifest)
    ↔ IsShipped builder "/tmp/check" (make_changes scratch.changes []) manifest
verify_sandbox_build_iff_example =
    verify_sandbox_build_iff builder "/tmp/check" (make_changes scratch.changes []) manifest
      readable parsed_back
