-- ===== src/Assets.antt =====
-- web/src/sandbox-assets.js: the packaged files that the service hands out, checked against the
-- hashes of their manifest.
pub mod Integrity
use Prim.Native.String
use kestrel_feature_mcp.Prelude.{
  ℕ, zero, suc, String, Char, code, Bool, true, false, not, ◌&&◌, ◌||◌, Option, none, some, List,
  [], ◌∷◌, all, includes, leb, ◌==◌, Outcome, ok, throw, Exception, type_error, error, range_error,
  foreign, ◌>>=◌, ◌>>◌, require, or_throw, if◌then◌else◌,
}
use kestrel_feature_mcp.Json.{◌<>◌}
use kestrel_feature_mcp.Value.{
  Number, nonneg, Value, undefined, null, obj, num, str, Fields, end, field, member, has_key,
  is_text, is_object_with, strictly_equal,
}

abbrev pub Bytes : Type 0
Bytes = List ℕ

-- What the code takes from Node: the files beside the service, `JSON.parse`, SHA-256 in lower-case
-- hexadecimal digits, and the strict decoder of UTF-8.
pub record Files : Type 0 where
  pub manifest_text : Outcome String
  pub parse : String → Outcome Value
  pub is_missing : Exception → Bool  -- `error.code === 'ENOENT'`
  pub read : String → Outcome Bytes
  pub sha256 : Bytes → String
  pub decode : Bytes → Option String  -- `none` is its TypeError

abbrev pub generated_files : List String
generated_files =
    "sandbox-entry.js" ∷ "sandbox-service.mjs" ∷ "parent-entry.js" ∷ "oauth-panel.js"
    ∷ "oauth-panel.css" ∷ "THIRD_PARTY_NOTICES.txt" ∷ "manifest.json" ∷ []

abbrev pub required_files : List String
required_files = "sandbox-entry.js" ∷ "sandbox-service.mjs" ∷ "THIRD_PARTY_NOTICES.txt" ∷ []

-- `error instanceof SyntaxError`
abbrev pub is_syntax_error : Exception → Bool
is_syntax_error (foreign name) = name == "SyntaxError"
is_syntax_error e = false

-- The `catch` around the reading of the manifest.
unfoldable pub settle_manifest : Files → Outcome Value → Outcome Value
settle_manifest f (ok manifest) = ok manifest
settle_manifest f (throw e) =
    if not (f.is_missing e) && not (is_syntax_error e)
    then throw e
    else throw (
        type_error
          "Sandbox built asset manifest is unavailable or invalid; rebuild the packaged assets")

-- A name that the manifest may list.
abbrev pub is_asset_name : String → Bool
is_asset_name name = not (name == "manifest.json") && includes generated_files name

-- `manifest?.assets` and `manifest?.format` are `undefined` where `member` is.
abbrev pub is_inventory : Value → Bool
is_inventory manifest =
    strictly_equal (member manifest "format") (num (nonneg 1))
    && is_object_with is_asset_name (member manifest "assets")
    && all (has_key (member manifest "assets")) required_files

abbrev pub fields_of : Value → Fields
fields_of (obj fs) = fs
fields_of v = end

abbrev pub is_hex : Char → Bool
is_hex c = leb b'0' (code c) && leb (code c) b'9' || leb b'a' (code c) && leb (code c) b'f'

-- `^[a-f0-9]{n}$`
abbrev pub is_hex_text : ℕ → String → Bool
is_hex_text zero String.[] = true
is_hex_text (suc n) (String.◌∷◌ c s) = is_hex c && is_hex_text n s
is_hex_text n s = false

abbrev pub is_hash : Value → Bool
is_hash (str s) = is_hex_text 64 s
is_hash v = false

-- The texts of `decoded`; `none` is a missing property.
pub record Decoded : Type 0 where
  pub entry_javascript : Option String
  pub third_party_notices : Option String

module _ (f : Files) where
  abbrev pub decoded_text : Bytes → Outcome String
  decoded_text bytes = or_throw (f.decode bytes) (type_error "The encoded data was not valid")

  unfoldable pub keep : Decoded → String → Bytes → Outcome Decoded
  keep d name bytes =
      if name == "sandbox-entry.js"
      then (decoded_text bytes >>= λ t. ok (record d { entry_javascript = some t }))
      else if name == "THIRD_PARTY_NOTICES.txt"
      then (decoded_text bytes >>= λ t. ok (record d { third_party_notices = some t }))
      else ok d

  -- The loop over the entries of `assets`.
  unfoldable pub verify_assets : Decoded → Fields → Outcome Decoded
  verify_assets d end = ok d
  verify_assets d (field name expected rest) = do
    require (is_hash expected) (type_error "Sandbox built asset manifest requires SHA-256 hashes")
    bytes ← f.read name
    require (is_text expected (f.sha256 bytes))
        (error ("Sandbox packaged asset failed integrity verification: " <> name))
    kept ← keep d name bytes
    verify_assets kept rest

  unfoldable pub read_verified_sandbox_assets : Outcome Decoded
  read_verified_sandbox_assets = do
    manifest ← settle_manifest f (f.manifest_text >>= f.parse)
    require (is_inventory manifest)
        (type_error "Sandbox built asset manifest has an invalid file inventory")
    verify_assets (record { entry_javascript = none; third_party_notices = none })
        (fields_of (member manifest "assets"))
