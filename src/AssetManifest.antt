-- ===== src/AssetManifest.antt =====
-- web/build-assets.mjs: the packages of a build, the text of their notices, and the manifest.
pub mod Listing
use kestrel_feature_mcp.Prelude.{
  String, Bool, true, false, ◌||◌, Option, none, some, List, [], ◌∷◌, ◌++◌, map, all, join, trim,
  lookup, set_item, Outcome, ok, ◌>>=◌, ◌>>◌, require, type_error,
}
use kestrel_feature_mcp.Json.{◌<>◌, string_of}
use kestrel_feature_mcp.Value.{
  nonneg, Value, num, str, arr, obj, items, strings, Fields, end, field,
}
use kestrel_feature_mcp.NoticeFiles.{Disk, License, Dependency, sort_entries}
use kestrel_feature_mcp.AssetLicenses.{Tree, Package, license_for}

-- `item.name + '@' + item.version`
abbrev pub package_key : Value → Value → String
package_key name version = string_of name <> ("@" <> string_of version)

module _ (t : Tree) where
  -- The packages of the inputs that lie below `node_modules`.
  unfoldable pub add_packages :
      List String → List (String × Package) → Outcome (List (String × Package))
  unfolding license_for
  add_packages [] packages = ok packages
  add_packages (input ∷ inputs) packages = do
    p ← license_for t input
    add_packages inputs (set_item (package_key p.name p.version) p packages)

-- A package is installed, or only embedded.
abbrev pub joined_package : Option Package → Dependency → Package
joined_package (some p) n = record p {
  embedded_in = some n.embedded_in;
  licenses = p.licenses ++ n.licenses;
}
joined_package none n = record {
  name = n.name;
  version = n.version;
  license = str n.license;
  licenses = n.licenses;
  embedded_in = some n.embedded_in;
}

unfoldable pub add_embedded : List Dependency → List (String × Package) → List (String × Package)
add_embedded [] packages = packages
add_embedded (n ∷ ns) packages =
    let key = package_key n.name n.version in
    add_embedded ns (set_item key (joined_package (lookup key packages) n) packages)

abbrev pub values : List (String × Package) → List Package
values [] = []
values ((key, p) ∷ packages) = p ∷ values packages

abbrev is_name : Package → Bool
is_name p = elim p.name [ str s ↦ true | _ ↦ false ]

abbrev one_at_most : List Package → Bool
one_at_most (p ∷ q ∷ packages) = false
one_at_most packages = true

-- A name that is compared is a text, or has no `localeCompare`.
unfoldable pub order_packages : Disk → List Package → Outcome (List Package)
order_packages d packages = do
  require (one_at_most packages || all is_name packages)
      (type_error "a.name.localeCompare is not a function")
  ok (values (sort_entries d (map (λ p. (string_of p.name, p)) packages)))

abbrev pub license_notice : License → String
unfolding trim
license_notice l = "--- " <> (l.name <> (" ---\n" <> (trim l.text <> "\n")))

abbrev pub package_notice : Package → String
unfolding join
package_notice p =
    string_of p.name
    <> (" " <> (string_of p.version <> (" (" <> (string_of p.license <> ")\n"))))
    <> join "\n" (map license_notice p.licenses)

unfoldable pub notices_text : List Package → String
unfolding join
notices_text packages = join "\n" (map package_notice packages)

-- `Object.fromEntries` of texts.
abbrev pub text_fields : List (String × String) → Fields
text_fields [] = end
text_fields ((name, text) ∷ entries) = field name (str text) (text_fields entries)

-- `Object.fromEntries` of the licences' hashes; the last one of a name counts.
abbrev pub license_hashes :
    (String → String) → List License → List (String × String) → List (String × String)
license_hashes hash [] entries = entries
license_hashes hash (l ∷ ls) entries =
    license_hashes hash ls (set_item l.name (hash l.text) entries)

abbrev embedded_field : Option (List String) → Fields
embedded_field none = end
embedded_field (some inputs) = field "embeddedIn" (arr (strings inputs)) end

unfoldable pub package_value : (String → String) → Package → Value
package_value hash p = obj (
    field "name" p.name (
      field "version" p.version (
        field "license" p.license (
          field "licenseFiles" (obj (text_fields (license_hashes hash p.licenses [])))
            (embedded_field p.embedded_in)))))

-- What the manifest is made of.
pub record Parts : Type 0 where
  pub compiler_version : String
  pub sources : List (String × String)
  pub bundled_inputs : List (String × String)
  pub source_maps : List (String × String)
  pub packages : List Package
  pub assets : List (String × String)

unfoldable pub manifest_of : (String → String) → Parts → Value
unfolding package_value
manifest_of hash parts = obj (
    field "format" (num (nonneg 1)) (
      field "compiler"
        (obj (field "name" (str "esbuild") (field "version" (str parts.compiler_version) end)))
        (field "sources" (obj (text_fields parts.sources)) (
          field "bundledInputs" (obj (text_fields parts.bundled_inputs)) (
            field "embeddedSourceMaps" (obj (text_fields parts.source_maps)) (
              field "dependencies" (arr (items (map (package_value hash) parts.packages)))
                (field "assets" (obj (text_fields parts.assets)) end)))))))
