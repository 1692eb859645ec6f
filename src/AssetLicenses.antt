-- ===== src/AssetLicenses.antt =====
-- web/build-assets.mjs, `licenseFor`: the package in which an input of a bundle lies, found in the
-- nearest folder above it with a `package.json` that names one, and the package's licence files.
pub mod Termination
use Prim.Native.String
use kestrel_feature_mcp.Prelude.{
  ℕ, zero, suc, ◌+◌, String, code, Bool, true, false, ◌&&◌, ◌||◌, Option, none, some, List, [], ◌∷◌,
  any, is_empty, leb, nat_eq, select, sort, starts_with, utf16_length, Outcome, ok, throw,
  Exception, ◌>>=◌, ◌>>◌, require, error, foreign, if◌then◌else◌,
}
use kestrel_feature_mcp.Json.{◌<>◌, string_of}
use kestrel_feature_mcp.Value.{Value, undefined, member, is_truthy}
use kestrel_feature_mcp.Assets.{Bytes}
use kestrel_feature_mcp.NoticeFiles.{Disk, License}

-- What the build takes from Node beside the files: folders, the forgiving decoder of
-- `readFile(…, 'utf8')`, `path.dirname` and `path.join`, and the folder of the installed packages
-- with a separator.
pub record Tree : Type 0 where
  pub disk : Disk
  pub read_dir : String → Outcome (List String)
  pub decode_text : Bytes → String
  pub dirname : String → String
  pub join_path : String → String → String
  pub modules_folder : String

-- A package with its notices; `embedded_in` names the inputs where it is embedded.
pub record Package : Type 0 where
  pub name : Value
  pub version : Value
  pub license : Value
  pub licenses : List License
  pub embedded_in : Option (List String)

abbrev lower_case : ℕ → ℕ
lower_case n = if leb b'A' n && leb n b'Z' then n + 32 else n

abbrev same_letters : String → String → Bool
same_letters String.[] String.[] = true
same_letters (String.◌∷◌ c s) (String.◌∷◌ d t) =
    nat_eq (lower_case (code c)) (lower_case (code d)) && same_letters s t
same_letters s t = false

-- `/^licen[cs]e(?:\.(?:txt|md))?$/i`
abbrev pub is_license_name : String → Bool
is_license_name name =
    any (same_letters name)
      ("licence" ∷ "license" ∷ "licence.txt" ∷ "license.txt" ∷ "licence.md" ∷ "license.md" ∷ [])

module _ (t : Tree) where
  unfoldable pub read_text : String → Outcome String
  read_text path = do bytes ← t.disk.read path; ok (t.decode_text bytes)

  -- The `try` around the reading of the metadata, `undefined` where there is no such file.
  unfoldable pub read_metadata : String → Outcome Value
  unfolding read_text
  read_metadata folder = elim (read_text (t.join_path folder "package.json") >>= t.disk.parse) [
    | ok metadata ↦ ok metadata
    | throw e ↦ if t.disk.is_missing e then ok undefined else throw e
  ]

  unfoldable pub read_license_texts : String → List String → Outcome (List License)
  unfolding read_text
  read_license_texts folder [] = ok []
  read_license_texts folder (name ∷ names) = do
    text ← read_text (t.join_path folder name)
    licenses ← read_license_texts folder names
    ok (record { name = name; text = text } ∷ licenses)

  abbrev pub is_named : Value → Bool
  is_named metadata = is_truthy (member metadata "name") && is_truthy (member metadata "version")

  unfoldable pub read_package : String → Value → Outcome Package
  unfolding read_license_texts
  read_package folder metadata = do
    names ← t.read_dir folder
    let licenses = sort (select is_license_name names) in
        require (if is_empty licenses then false else true)
          (error ("Bundled dependency has no license file: " <> string_of (member metadata "name")))
        >> read_license_texts folder licenses
        >>= λ texts. ok (record {
          name = member metadata "name";
          version = member metadata "version";
          license = member metadata "license";
          licenses = texts;
          embedded_in = none;
        })

  -- One turn of the loop; `none` goes on to the folder above.
  unfoldable pub package_at : String → Outcome (Option Package)
  unfolding read_metadata read_package
  package_at folder = do
    metadata ← read_metadata folder
    if is_named metadata then (read_package folder metadata >>= λ p. ok (some p)) else ok none

  -- The loop, on fuel; `none` is a run out of fuel.
  unfoldable pub climb : ℕ → String → String → Option (Outcome Package)
  unfolding package_at
  climb zero input folder = none
  climb (suc n) input folder =
      let above = climb n input (t.dirname folder) in
      if starts_with t.modules_folder folder
      then elim (package_at folder) [
        | throw e ↦ some (throw e)
        | ok (some p) ↦ some (ok p)
        | ok none ↦ above
      ]
      else some (throw (error ("Cannot identify the bundled dependency: " <> input)))

  -- A folder's path is shorter than that of what lies in it, so as much fuel is enough.
  unfoldable pub license_for : String → Outcome Package
  unfolding climb
  license_for input =
      let folder = t.dirname (t.disk.resolve input) in
      elim (climb (suc (utf16_length folder)) input folder) [
        | some result ↦ result
        | none ↦ throw (foreign "out of fuel")
      ]
