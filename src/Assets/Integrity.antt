-- ===== src/Assets/Integrity.antt =====
-- Nothing is handed out whose hash is not the listed one.
use kestrel_feature_mcp.Prelude.{
  String, true, false, ◌≡◌, refl, ◌&&◌, [], ◌∷◌, Option, some, ◌⊎◌, inl, inr, Bool-cases,
  and-true_parts, ◌==◌, eq_iff, ok, ok-injective, ◌>>=◌, require->>=, >>=-eq-ok, or_throw-eq-ok,
  arith, all,
}
use kestrel_feature_mcp.Value.{
  nonneg, num, strictly_equal, Value, str, obj, Fields, end, field, has_key, is_text, member,
  is_object_with,
}
use kestrel_feature_mcp.Config.Validity.{is_text_lem}
use kestrel_feature_mcp.Assets.{
  Bytes, Files, Decoded, settle_manifest, is_inventory, required_files, is_asset_name, fields_of,
  is_hash, decoded_text, keep, verify_assets, read_verified_sandbox_assets,
}
use mathlib.Core.Path.{subst}

module _ (f : Files) where
  -- A listed file: its name is an asset's, and its hash is the listed one.
  abbrev pub IsAsset : String → Value → Type 0
  IsAsset name expected =
      (bytes : Bytes) × (f.read name ≡ ok bytes) × (expected ≡ str (f.sha256 bytes))

  abbrev pub AreAssets : Fields → Type 0
  AreAssets end = Unit
  AreAssets (field name expected rest) = IsAsset name expected × AreAssets rest

  -- The text of a file.
  abbrev pub IsTextOf : String → Option String → Type 0
  IsTextOf name o =
      (bytes : Bytes) × (t : String) × (f.read name ≡ ok bytes)
      × (f.decode bytes ≡ some t)
      × (o ≡ some t)

  -- A text that was read, or is still to come.
  abbrev Pending : String → Option String → Fields → Type 0
  Pending name o fs = IsTextOf name o ⊎ (has_key (obj fs) name ≡ true)

  abbrev ArePending : Decoded → Fields → Type 0
  ArePending d fs =
      Pending "sandbox-entry.js" d.entry_javascript fs
      × Pending "THIRD_PARTY_NOTICES.txt" d.third_party_notices fs

  later :
      (name key : String) (o : Option String) (v : Value) (fs : Fields)
      → (key == name) ≡ false
      → Pending name o (field key v fs)
      → Pending name o fs
  later name key o v fs other (inl done) = inl done
  later name key o v fs other (inr due) = inr (ground arith)

  keep-ArePending :
      (d kept : Decoded) (name : String) (v : Value) (bytes : Bytes) (rest : Fields)
      → f.read name ≡ ok bytes
      → keep f d name bytes ≡ ok kept
      → ArePending d (field name v rest)
      → ArePending kept rest
  unfolding keep
  keep-ArePending d kept name v bytes rest r h pending =
      elim (Bool-cases (name == "sandbox-entry.js")) [
        | inl entry ↦
            let same : name ≡ "sandbox-entry.js" = (eq_iff name "sandbox-entry.js").0 entry in
            let (t, text, made) = >>=-eq-ok (decoded_text f bytes) _ (rw entry at h) in
            subst (λ k. ArePending k rest) (ok-injective made)
              (
                inl (bytes, t, rw same at r, or_throw-eq-ok _ _ text, refl),
                later "THIRD_PARTY_NOTICES.txt" name d.third_party_notices v rest (rw same refl)
                    pending.1,
              )
        | inr not_entry ↦ elim (Bool-cases (name == "THIRD_PARTY_NOTICES.txt")) [
          | inl notices ↦
              let same : name ≡ "THIRD_PARTY_NOTICES.txt" =
                (eq_iff name "THIRD_PARTY_NOTICES.txt").0 notices in
              let (t, text, made) =
                >>=-eq-ok (decoded_text f bytes) _ (rw (not_entry, notices) at h) in
              subst (λ k. ArePending k rest) (ok-injective made)
                (
                  later "sandbox-entry.js" name d.entry_javascript v rest not_entry pending.0,
                  inl (bytes, t, rw same at r, or_throw-eq-ok _ _ text, refl),
                )
          | inr neither ↦
              subst (λ k. ArePending k rest) (ok-injective (rw (not_entry, neither) at h))
                (
                  later "sandbox-entry.js" name d.entry_javascript v rest not_entry pending.0,
                  later "THIRD_PARTY_NOTICES.txt" name d.third_party_notices v rest neither
                      pending.1,
                )
        ]
      ]

  finished : (name : String) (o : Option String) → Pending name o end → IsTextOf name o
  finished name o (inl done) = done
  finished name o (inr due) = cc

  verify_assets-AreAssets :
      (d a : Decoded) (fs : Fields)
      → verify_assets f d fs ≡ ok a
      → ArePending d fs
      → AreAssets fs
        × IsTextOf "sandbox-entry.js" a.entry_javascript
        × IsTextOf "THIRD_PARTY_NOTICES.txt" a.third_party_notices
  unfolding verify_assets
  verify_assets-AreAssets d a end h (e, n) =
      subst
        (λ k.
          Unit
          × IsTextOf "sandbox-entry.js" k.entry_javascript
          × IsTextOf "THIRD_PARTY_NOTICES.txt" k.third_party_notices)
        (ok-injective h) (tt, finished _ _ e, finished _ _ n)
  verify_assets-AreAssets d a (field name v rest) h pending =
      let (_, h1) = require->>= (is_hash v) _ _ h in
      let (bytes, r, h2) = >>=-eq-ok (f.read name) _ h1 in
      let (matches, h3) = require->>= (is_text v (f.sha256 bytes)) _ _ h2 in
      let (kept, k, h4) = >>=-eq-ok (keep f d name bytes) _ h3 in
      let (assets, entry, notices) =
        verify_assets-AreAssets kept a rest h4
          (keep-ArePending d kept name v bytes rest r k pending) in
      (((bytes, r, is_text_lem v (f.sha256 bytes) matches), assets), entry, notices)

  -- What the packaged files must be for the texts to be handed out.
  pub record IsAuthentic (a : Decoded) : Type 0 where
    pub manifest : Value
    pub loaded : settle_manifest f (f.manifest_text >>= f.parse) ≡ ok manifest
    pub inventory : is_inventory manifest ≡ true
    pub assets : AreAssets (fields_of (member manifest "assets"))
    pub entry : IsTextOf "sandbox-entry.js" a.entry_javascript
    pub notices : IsTextOf "THIRD_PARTY_NOTICES.txt" a.third_party_notices

  has_required :
      (v : Value) (a b c : String)
      → is_object_with is_asset_name v ≡ true
      → all (has_key v) (a ∷ b ∷ c ∷ []) ≡ true
      → (has_key (obj (fields_of v)) a ≡ true) × (has_key (obj (fields_of v)) c ≡ true)
  has_required (obj fs) a b c o h = ground arith
  has_required v a b c o h = cc

  inventory_parts :
      (m : Value)
      → is_inventory m ≡ true
      → (is_object_with is_asset_name (member m "assets") ≡ true)
        × (all (has_key (member m "assets")) required_files ≡ true)
  inventory_parts m h =
      let first = strictly_equal (member m "format") (num (nonneg 1)) in
      let second = is_object_with is_asset_name (member m "assets") in
      let third = all (has_key (member m "assets")) required_files in
      let (both, last) = and-true_parts (first && second) third h in
      ((and-true_parts first second both).1, last)

  -- The sandbox hands out no file that is not the packaged one: when `readVerifiedSandboxAssets`
  -- returns, the manifest has the expected inventory, every file that it lists has the listed
  -- SHA-256 hash, and the two texts are both there and are the decoded bytes of the entry module and
  -- of the notices, which are among the listed files.
  pub read_verified_sandbox_assets-IsAuthentic :
      (a : Decoded) → read_verified_sandbox_assets f ≡ ok a → IsAuthentic a
  unfolding read_verified_sandbox_assets
  read_verified_sandbox_assets-IsAuthentic a h =
      let (m, loaded, h1) = >>=-eq-ok (settle_manifest f (f.manifest_text >>= f.parse)) _ h in
      let (listed, h2) = require->>= (is_inventory m) _ _ h1 in
      let (names, required) = inventory_parts m listed in
      let (entry, notices) =
        has_required (member m "assets") "sandbox-entry.js" "sandbox-service.mjs"
          "THIRD_PARTY_NOTICES.txt" names required in
      let (assets, text, legal) =
        verify_assets-AreAssets _ a (fields_of (member m "assets")) h2 (inr entry, inr notices) in
      record {
        manifest = m;
        loaded = loaded;
        inventory = listed;
        assets = assets;
        entry = text;
        notices = legal;
      }
