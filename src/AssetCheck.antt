-- ===== src/AssetCheck.antt =====
-- web/build-assets.mjs, `verifySandboxBuild`: the shipped files against a clean build; and web/build.mjs,
-- which calls the build or the check.
pub mod Verification
use Prim.Native.String
use kestrel_feature_mcp.Prelude.{
  ℕ, String, code, Bool, true, false, not, ◌&&◌, ◌||◌, Option, none, some, List, [], ◌∷◌, ◌++◌, all,
  includes, is_blank, map, nat_eq, select, sort, starts_with, lookup, set_item, remove_item, keys,
  ◌==◌, Outcome, ok, throw, Exception, ◌>>=◌, ◌>>◌, require, or_throw, error, type_error,
  if◌then◌else◌,
}
use kestrel_feature_mcp.Json.{◌<>◌, stringify, pretty}
use kestrel_feature_mcp.Value.{Value, arr, strings}
use kestrel_feature_mcp.Assets.{Bytes, generated_files}
use kestrel_feature_mcp.NoticeFiles.{Notices, sort_entries, collect_embedded_notices}
use kestrel_feature_mcp.AssetLicenses.{Tree, Package}
use kestrel_feature_mcp.AssetManifest.{
  Parts, add_packages, add_embedded, values, order_packages, notices_text, manifest_of,
}
use kestrel_feature_mcp.AssetBuild.{
  Builder, Place, Entry, Built, Change, make_changes, build_sandbox_assets,
}

-- `JSON.stringify` of names.
abbrev pub names_text : List String → Option String
names_text names = stringify (arr (strings names))

abbrev same_text : Option String → Option String → Bool
same_text (some s) (some t) = s == t
same_text none none = true
same_text a b = false

abbrev pub same_bytes : Bytes → Bytes → Bool
same_bytes [] [] = true
same_bytes (m ∷ ms) (n ∷ ns) = nat_eq m n && same_bytes ms ns
same_bytes ms ns = false

module _ (b : Builder) where
  -- The comparison of the files, in the order of their names.
  unfoldable pub compare_files :
      List String → List (String × Bytes) → List (String × Bytes) → Outcome (Unit {0})
  compare_files [] built shipped = ok tt
  compare_files (name ∷ names) built shipped = do
    ours ← or_throw (lookup name built) (error "ENOENT")
    theirs ← or_throw (lookup name shipped) (error "ENOENT")
    require (same_bytes ours theirs)
        (error ("Shipped sandbox asset differs from the clean build: " <> name))
    compare_files names built shipped

  -- The build into a new folder, against the shipped files; the new folder is removed in any case.
  unfoldable pub verify_sandbox_build : String → Outcome (List (String × Bytes)) → Outcome Value
  unfolding build_sandbox_assets compare_files
  verify_sandbox_build scratch shipped_files = do
    built ←
        build_sandbox_assets b scratch
          (ok (record { is_link = false; is_directory = true; entries = [] }))
    let folder = make_changes built.changes [] in
        let expected = sort (keys folder) in
        shipped_files >>= λ shipped.
        require (same_text (names_text (sort (keys shipped))) (names_text expected))
          (error "Shipped sandbox asset inventory differs from the clean build")
        >> compare_files expected folder shipped
        >>= λ u. ok built.manifest

  -- `values.outdir ?? path.resolve(webRoot, …)`
  abbrev destination_of : Option String → String
  destination_of none = b.tree.disk.resolve "../kestrel_feature_mcp/apps_sandbox"
  destination_of (some outdir) = outdir

  -- web/build.mjs: `--check` compares the directory with a clean build and changes nothing; else the
  -- build goes into it.
  unfoldable pub run_build :
      Option String
      → Bool
      → (String → Outcome Place)
      → String
      → (String → Outcome (List (String × Bytes)))
      → Outcome (List Change)
  unfolding verify_sandbox_build
  run_build outdir check make scratch read_shipped =
      let destination = destination_of outdir in
      if check
      then (verify_sandbox_build scratch (read_shipped destination) >>= λ manifest. ok [])
      else (build_sandbox_assets b destination (make destination) >>= λ built. ok built.changes)
