-- ===== src/AssetBuild/Reading.antt =====
-- How the service's reader, web/src/sandbox-assets.js, goes through a directory with a manifest that
-- web/build-assets.mjs made.
use kestrel_feature_mcp.Prelude.{
  String, Bool, true, false, ◌≡◌, refl, ap, ◌⊎◌, inl, inr, Option, none, some, List, [], ◌∷◌,
  includes, lookup, keys, ◌==◌, eq_iff, eq_refl, All, Bool-cases, ok, ◌>>=◌, or_throw, error, arith,
}
use kestrel_feature_mcp.Value.{Value, str, num, nonneg, obj, field, member, has_key, all_keys}
use kestrel_feature_mcp.Json.{copy_fields}
use kestrel_feature_mcp.Assets.{
  Bytes, Files, Decoded, is_hash, is_asset_name, keep, verify_assets, settle_manifest,
  read_verified_sandbox_assets,
}
use kestrel_feature_mcp.AssetManifest.{text_fields}
use kestrel_feature_mcp.AssetBuild.{Builder, hashed}

module _ (b : Builder) where
  -- A directory as `readVerifiedSandboxAssets` reads it, beside the service.
  abbrev pub files_of : List (String × Bytes) → Files
  files_of folder = record {
    manifest_text = or_throw (lookup "manifest.json" folder) (error "ENOENT") >>= λ bytes.
        ok (b.tree.decode_text bytes);
    parse = b.tree.disk.parse;
    is_missing = b.tree.disk.is_missing;
    read = λ name. or_throw (lookup name folder) (error "ENOENT");
    sha256 = b.tree.disk.sha256;
    decode = b.tree.disk.decode;
  }

  -- An asset that the reader finds, with the texts that it decodes.
  abbrev pub IsAsset : List (String × Bytes) → String → String → String → Bytes → Type 0
  IsAsset folder entry notices name bytes =
      (lookup name folder ≡ some bytes)
      × ((name == "sandbox-entry.js") ≡ true → b.tree.disk.decode bytes ≡ some entry)
      × ((name == "THIRD_PARTY_NOTICES.txt") ≡ true → b.tree.disk.decode bytes ≡ some notices)

  -- A text has been read, or is still among the assets.
  abbrev IsDue : String → String → Option String → List (String × Bytes) → Type 0
  IsDue name text o es = (o ≡ some text) ⊎ (includes (keys es) name ≡ true)

  still-IsDue :
      (key text name : String) (bytes : Bytes) (o : Option String) (es : List (String × Bytes))
      → (name == key) ≡ false
      → IsDue key text o ((name, bytes) ∷ es)
      → IsDue key text o es
  still-IsDue key text name bytes o es other (inl done) = inl done
  still-IsDue key text name bytes o es other (inr due) = inr (ground arith)

  keep_lem :
      (folder : List (String × Bytes)) (entry notices name : String) (bytes : Bytes) (d : Decoded)
      (es : List (String × Bytes))
      → IsAsset folder entry notices name bytes
      → IsDue "sandbox-entry.js" entry d.entry_javascript ((name, bytes) ∷ es)
      → IsDue "THIRD_PARTY_NOTICES.txt" notices d.third_party_notices ((name, bytes) ∷ es)
      → (kept : Decoded) × (keep (files_of folder) d name bytes ≡ ok kept)
        × IsDue "sandbox-entry.js" entry kept.entry_javascript es
        × IsDue "THIRD_PARTY_NOTICES.txt" notices kept.third_party_notices es
  unfolding keep
  keep_lem folder entry notices name bytes d es a e n =
      elim (Bool-cases (name == "sandbox-entry.js")) [
        | inl is_entry ↦
            (let same = (eq_iff name "sandbox-entry.js").0 is_entry in
              (
                record d { entry_javascript = some entry },
                rw (is_entry, a.1 is_entry) refl,
                inl refl,
                still-IsDue "THIRD_PARTY_NOTICES.txt" notices name bytes d.third_party_notices es
                    (rw same refl) n,
              ))
        | inr not_entry ↦ elim (Bool-cases (name == "THIRD_PARTY_NOTICES.txt")) [
          | inl is_notices ↦ (
            record d { third_party_notices = some notices },
            rw (not_entry, is_notices, a.2 is_notices) refl,
            still-IsDue "sandbox-entry.js" entry name bytes d.entry_javascript es not_entry e,
            inl refl,
          )
          | inr neither ↦ (
            d,
            rw (not_entry, neither) refl,
            still-IsDue "sandbox-entry.js" entry name bytes d.entry_javascript es not_entry e,
            still-IsDue "THIRD_PARTY_NOTICES.txt" notices name bytes d.third_party_notices es
                neither n,
          )
        ]
      ]

  verify_lem :
      (folder : List (String × Bytes)) (entry notices : String) (d : Decoded)
      (es : List (String × Bytes))
      → ((bytes : Bytes) → is_hash (str (b.tree.disk.sha256 bytes)) ≡ true)
      → All (λ (x : String × Bytes). IsAsset folder entry notices x.0 x.1) es
      → IsDue "sandbox-entry.js" entry d.entry_javascript es
      → IsDue "THIRD_PARTY_NOTICES.txt" notices d.third_party_notices es
      → verify_assets (files_of folder) d (text_fields (hashed b es))
        ≡ ok (record { entry_javascript = some entry; third_party_notices = some notices })
  unfolding verify_assets
  verify_lem folder entry notices d [] hex a (inl e) (inl n) =
      ap ok (λ i. record { entry_javascript = e i; third_party_notices = n i })
  verify_lem folder entry notices d [] hex a (inr e) n = cc
  verify_lem folder entry notices d [] hex a e (inr n) = cc
  verify_lem folder entry notices d ((name, bytes) ∷ es) hex a e n =
      let (kept, keeps, e', n') = keep_lem folder entry notices name bytes d es a.0 e n in
      let rest = verify_lem folder entry notices kept es hex a.1 e' n' in
      rw (hex bytes, a.0.0, eq_refl (b.tree.disk.sha256 bytes), keeps) rest

  pub copy_texts : (es : List (String × String)) → copy_fields (text_fields es) ≡ text_fields es
  copy_texts [] = refl
  copy_texts ((name, text) ∷ es) = ap (field name (str text)) (copy_texts es)

  has_key_texts :
      (k : String) (es : List (String × Bytes))
      → has_key (obj (text_fields (hashed b es))) k ≡ includes (keys es) k
  has_key_texts k [] = refl
  has_key_texts k ((name, bytes) ∷ es) = let rest = has_key_texts k es in ground arith

  all_keys_texts :
      (p : String → Bool) (es : List (String × Bytes))
      → All (λ (x : String × Bytes). p x.0 ≡ true) es
      → all_keys p (text_fields (hashed b es)) ≡ true
  all_keys_texts p [] h = refl
  all_keys_texts p ((name, bytes) ∷ es) h = rw (h.0, all_keys_texts p es h.1) refl

  -- The reading of a manifest with the hashes of the assets.
  pub read_lem :
      (folder assets : List (String × Bytes)) (entry notices : String) (manifest : Value)
      → ((bytes : Bytes) → is_hash (str (b.tree.disk.sha256 bytes)) ≡ true)
      → (settle_manifest
          (files_of folder)
          ((files_of folder).manifest_text >>= (files_of folder).parse))
        ≡ ok manifest
      → member manifest "format" ≡ num (nonneg 1)
      → member manifest "assets" ≡ obj (text_fields (hashed b assets))
      → All (λ (x : String × Bytes). is_asset_name x.0 ≡ true) assets
      → All (λ (x : String × Bytes). IsAsset folder entry notices x.0 x.1) assets
      → includes (keys assets) "sandbox-entry.js" ≡ true
      → includes (keys assets) "sandbox-service.mjs" ≡ true
      → includes (keys assets) "THIRD_PARTY_NOTICES.txt" ≡ true
      → read_verified_sandbox_assets (files_of folder)
        ≡ ok (record { entry_javascript = some entry; third_party_notices = some notices })
  unfolding read_verified_sandbox_assets
  read_lem folder assets entry notices manifest hex settled format listed names found e s n =
      rw (settled, listed, format)
        (rw
          (
            all_keys_texts is_asset_name assets names,
            has_key_texts "sandbox-entry.js" assets,
            has_key_texts "sandbox-service.mjs" assets,
            has_key_texts "THIRD_PARTY_NOTICES.txt" assets,
            e,
            s,
            n,
          )
          (verify_lem folder entry notices
            (record { entry_javascript = none; third_party_notices = none }) assets hex found
            (inr e) (inr n)))
