-- ===== src/NoticeFiles.antt =====
-- web/build-notices.mjs, `collectEmbeddedNotices`: the offline notices for the packages that the
-- inputs of a bundle embed, from the inventory and the licence files of the repository.
pub mod Gathering
pub mod Completeness
use kestrel_feature_mcp.Prelude.{
  set_item, String, Bool, true, false, not, ◌&&◌, ◌||◌, Option, none, some, List, [], ◌∷◌, ◌++◌,
  starts_with, is_empty, lookup, ◌==◌, sort, Outcome, ok, throw, Exception, ◌>>=◌, ◌>>◌, require,
  or_throw, error, type_error, if◌then◌else◌,
}
use kestrel_feature_mcp.Json.{◌<>◌, string_of}
use kestrel_feature_mcp.Value.{
  Number, nonneg, Value, undefined, null, num, str, arr, obj, Fields, end, field, member, get,
  is_array, is_text, array_items, strictly_equal,
}
use kestrel_feature_mcp.Assets.{Bytes, is_hash}
use kestrel_feature_mcp.Notices.{add_once, embedded_package_references}

-- What the code takes from Node and the library of the language: the text of the inventory, the
-- files by their resolved paths, with whether one is an ordinary file and whether it is a link,
-- `JSON.parse`, SHA-256, the strict decoder, `path.resolve` below the root of the web package, its
-- folder of licences with a separator, and the English order of texts.
pub record Disk : Type 0 where
  pub inventory_text : Outcome String
  pub read : String → Outcome Bytes
  pub stat : String → Outcome (Bool × Bool)
  pub is_missing : Exception → Bool  -- `error.code === 'ENOENT'`
  pub parse : String → Outcome Value
  pub sha256 : Bytes → String
  pub decode : Bytes → Option String  -- `none` is its TypeError
  pub resolve : String → String
  pub licenses_folder : String
  pub locale_leb : String → String → Bool

pub record License : Type 0 where
  pub name : String
  pub text : String

pub record Dependency : Type 0 where
  pub name : Value
  pub version : Value
  pub license : String
  pub licenses : List License
  pub embedded_in : List String

pub record Notices : Type 0 where
  pub dependencies : List Dependency
  pub source_maps : List (String × String)
  pub source_files : List String

-- The inputs that embed each package, and the hashes of their source maps.
pub record Gathered : Type 0 where
  pub referenced : List (String × List String)
  pub source_maps : List (String × String)

abbrev pub has_known : String → List (String × Value) → Bool
has_known key [] = false
has_known key ((k, v) ∷ known) = k == key || has_known key known

-- The inventory's records by their identities.
unfoldable pub known_of : List Value → List (String × Value) → Outcome (List (String × Value))
unfolding get
known_of [] known = ok known
known_of (r ∷ rs) known = do
  name ← get r "name"
  version ← get r "version"
  let key = string_of name <> ("@" <> string_of version) in
      require (not (has_known key known)) (error ("Duplicate embedded notice identity: " <> key))
      >> known_of rs (known ++ (key, r) ∷ [])

abbrev pub is_notice_inventory : Value → Bool
is_notice_inventory inventory =
    strictly_equal (member inventory "format") (num (nonneg 1))
    && is_array (member inventory "packages")

abbrev pub add_input : String → String → List (String × List String) → List (String × List String)
add_input key input [] = (key, input ∷ []) ∷ []
add_input key input ((k, inputs) ∷ referenced) =
    let rest = add_input key input referenced in
    if k == key then (k, add_once input inputs) ∷ referenced else (k, inputs) ∷ rest

-- The inner loop, over the identities of one input.
unfoldable pub add_identities :
    List (String × Value)
    → String
    → List String
    → List (String × List String)
    → Outcome (List (String × List String))
add_identities known input [] referenced = ok referenced
add_identities known input (key ∷ keys) referenced = do
  require (has_known key known) (error ("Missing original notice for embedded dependency: " <> key))
  add_identities known input keys (add_input key input referenced)

module _ (d : Disk) where
  -- The references of a source map that is there.
  unfoldable pub read_source_map : Bytes → Outcome (List String)
  unfolding get
  read_source_map bytes = do
    text ← or_throw (d.decode bytes) (type_error "The encoded data was not valid")
    map ← d.parse text
    version ← get map "version"
    require (strictly_equal version (num (nonneg 3)))
        (type_error "Unsupported dependency source map version")
    embedded_package_references (member map "sources")

  unfoldable pub add_source_map :
      List (String × Value) → String → Gathered → Bytes → Outcome Gathered
  unfolding read_source_map add_identities
  add_source_map known input g bytes = do
    identities ← read_source_map bytes
    let maps = set_item (input <> ".map") (d.sha256 bytes) g.source_maps in
        if is_empty identities
        then ok g
        else add_identities known input identities g.referenced >>= λ referenced.
            ok (record { referenced = referenced; source_maps = maps })

  -- One input; a source map that is not there is passed over.
  unfoldable pub visit : List (String × Value) → String → Gathered → Outcome Gathered
  unfolding add_source_map
  visit known input g = elim (d.read (d.resolve (input <> ".map"))) [
    | ok bytes ↦ add_source_map known input g bytes
    | throw e ↦ if d.is_missing e then ok g else throw e
  ]

  unfoldable pub gather : List (String × Value) → List String → Gathered → Outcome Gathered
  unfolding visit
  gather known [] g = ok g
  gather known (input ∷ inputs) g = do next ← visit known input g; gather known inputs next

  -- `sort(([a], [b]) => a.localeCompare(b, 'en'))`
  abbrev pub insert_entry {ℓ} : {A : Type ℓ} → String × A → List (String × A) → List (String × A)
  insert_entry e [] = e ∷ []
  insert_entry e (f ∷ fs) =
      let rest = insert_entry e fs in if d.locale_leb e.0 f.0 then e ∷ f ∷ fs else f ∷ rest

  abbrev pub sort_entries {ℓ} : {A : Type ℓ} → List (String × A) → List (String × A)
  sort_entries [] = []
  sort_entries (e ∷ es) = insert_entry e (sort_entries es)

  abbrev is_license_path : String → Value → Bool
  is_license_path filename expected = not (
      not (starts_with "licenses/" filename)
      || not (starts_with d.licenses_folder (d.resolve filename))
      || not (is_hash expected))

  unfoldable pub read_license : String → Value → Outcome License
  read_license filename expected = do
    require (is_license_path filename expected)
        (type_error "Embedded notice must name a hashed license file")
    stat ← d.stat (d.resolve filename)
    require (stat.0 && not stat.1) (type_error "Embedded notice must be an ordinary file")
    bytes ← d.read (d.resolve filename)
    require (is_text expected (d.sha256 bytes))
        (error ("Embedded dependency notice hash mismatch: " <> filename))
    text ← or_throw (d.decode bytes) (type_error "The encoded data was not valid")
    ok (record { name = filename; text = text })

  unfoldable pub read_licenses : List (String × Value) → Outcome (List License)
  unfolding read_license
  read_licenses [] = ok []
  read_licenses ((filename, expected) ∷ entries) = do
    license ← read_license filename expected
    licenses ← read_licenses entries
    ok (license ∷ licenses)

  abbrev entries_of : Fields → List (String × Value)
  entries_of end = []
  entries_of (field k v fs) = (k, v) ∷ entries_of fs

  -- The licence files of a record, which has one at least; `none` is refused.
  abbrev pub license_entries : Value → Option (List (String × Value))
  license_entries (obj (field k v fs)) = some (entries_of (field k v fs))
  license_entries v = none

  abbrev pub license_text : Value → Option String
  license_text (str s) = some s
  license_text v = none

  unfoldable pub notice_of : List (String × Value) → String → List String → Outcome Dependency
  unfolding read_licenses
  notice_of known key inputs = do
    r ← or_throw (lookup key known) (type_error "Cannot read properties of undefined")
    license ←
        or_throw (license_text (member r "license"))
          (type_error ("Embedded dependency requires original license files: " <> key))
    entries ←
        or_throw (license_entries (member r "licenseFiles"))
          (type_error ("Embedded dependency requires original license files: " <> key))
    licenses ← read_licenses (sort_entries entries)
    ok (record {
      name = member r "name";
      version = member r "version";
      license = license;
      licenses = licenses;
      embedded_in = sort inputs;
    })

  unfoldable pub notices_of :
      List (String × Value) → List (String × List String) → Outcome (List Dependency)
  unfolding notice_of
  notices_of known [] = ok []
  notices_of known ((key, inputs) ∷ referenced) = do
    dependency ← notice_of known key inputs
    dependencies ← notices_of known referenced
    ok (dependency ∷ dependencies)

  abbrev add_names : List License → List String → List String
  add_names [] files = files
  add_names (l ∷ ls) files = add_names ls (add_once l.name files)

  abbrev pub source_files_of : List Dependency → List String → List String
  source_files_of [] files = files
  source_files_of (x ∷ xs) files = source_files_of xs (add_names x.licenses files)

  unfoldable pub collect_embedded_notices : List String → Outcome Notices
  unfolding known_of gather notices_of
  collect_embedded_notices input_names = do
    text ← d.inventory_text
    inventory ← d.parse text
    require (is_notice_inventory inventory)
        (type_error "Embedded dependency notice inventory is invalid")
    known ← known_of (array_items (member inventory "packages")) []
    gathered ← gather known (sort input_names) (record { referenced = []; source_maps = [] })
    dependencies ← notices_of known (sort_entries gathered.referenced)
    ok (record {
      dependencies = dependencies;
      source_maps = gathered.source_maps;
      source_files = sort (source_files_of dependencies ("vendor-notices.json" ∷ []));
    })
