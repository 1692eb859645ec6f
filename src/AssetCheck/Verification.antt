-- ===== src/AssetCheck/Verification.antt =====
-- What `verifySandboxBuild` of web/build-assets.mjs accepts.
use kestrel_feature_mcp.Prelude.{
  ◌↔◌, eq_refl, lookup_found, lookup_missing, String, true, false, ◌≡◌, refl, sym, ap, ◌∙◌, Option,
  none, some, List, [], ◌∷◌, includes, includes-sort, sort, lookup, keys, ◌==◌, eq_iff, Bool-cases,
  inl, inr, ok, ok-injective, >>=-eq-ok, require->>=, require, ◌>>◌, or_throw, or_throw-eq-ok,
  error, arith,
}
use mathlib.Core.Path.{subst}
use kestrel_feature_mcp.Value.{Value}
use kestrel_feature_mcp.Json.{json_copy}
use kestrel_feature_mcp.Json.Reading.Names.{stringify-strings_injective}
use kestrel_feature_mcp.Assets.{Bytes}
use kestrel_feature_mcp.AssetBuild.{
  Builder, Place, Built, json_file, make_changes, build_sandbox_assets,
}
use kestrel_feature_mcp.AssetCheck.{
  names_text, same_text, same_bytes, compare_files, verify_sandbox_build,
}
use kestrel_feature_mcp.AssetBuild.Contents.{build_sandbox_assets-IsBuilt}
use kestrel_feature_mcp.AssetBuild.Delivery.{IsReadable, IsDelivered, folder-IsDelivered}

same_bytes_lem : (ms ns : Bytes) → same_bytes ms ns ≡ true → ms ≡ ns
same_bytes_lem [] [] h = refl
same_bytes_lem [] (n ∷ ns) h = cc
same_bytes_lem (m ∷ ms) [] h = cc
same_bytes_lem (m ∷ ms) (n ∷ ns) h =
    let rest = same_bytes_lem ms ns (ground arith) in let first : m ≡ n = ground arith in cc

same_text_lem : (o p : Option String) → same_text o p ≡ true → o ≡ p
same_text_lem none none h = refl
same_text_lem none (some t) h = cc
same_text_lem (some s) none h = cc
same_text_lem (some s) (some t) h = ap some ((eq_iff s t).0 h)

same_bytes_same : (ns : Bytes) → same_bytes ns ns ≡ true
same_bytes_same [] = refl
same_bytes_same (n ∷ ns) = let rest = same_bytes_same ns in ground arith

same_text_same : (o : Option String) → same_text o o ≡ true
same_text_same none = refl
same_text_same (some s) = eq_refl s

module _ (b : Builder) where
  compare_files_lem :
      (names : List String) (built shipped : List (String × Bytes)) (u : Unit {0}) (k : String)
      → compare_files b names built shipped ≡ ok u
      → includes names k ≡ true
      → (bytes : Bytes) × (lookup k built ≡ some bytes) × (lookup k shipped ≡ some bytes)
  unfolding compare_files
  compare_files_lem [] built shipped u k h here = cc
  compare_files_lem (name ∷ names) built shipped u k h here =
      let (ours, o, h1) = >>=-eq-ok (or_throw (lookup name built) (error "ENOENT")) _ h in
      let (theirs, t, h2) = >>=-eq-ok (or_throw (lookup name shipped) (error "ENOENT")) _ h1 in
      let (same, h3) = require->>= (same_bytes ours theirs) _ _ h2 in
      elim (Bool-cases (name == k)) [
        | inl is_k ↦
            subst
              (λ (x : String).
                (bytes : Bytes) × (lookup x built ≡ some bytes) × (lookup x shipped ≡ some bytes))
              ((eq_iff name k).0 is_k)
              (
                ours,
                or_throw-eq-ok _ _ o,
                or_throw-eq-ok _ _ t ∙ ap some (sym (same_bytes_lem ours theirs same)),
              )
        | inr other ↦ compare_files_lem names built shipped u k h3 (ground arith)
      ]

  compare_files_complete :
      (names : List String) (built shipped : List (String × Bytes))
      → ((k : String)
          → includes names k ≡ true
          → (bytes : Bytes) × (lookup k built ≡ some bytes) × (lookup k shipped ≡ some bytes))
      → compare_files b names built shipped ≡ ok tt
  unfolding compare_files
  compare_files_complete [] built shipped both = refl
  compare_files_complete (name ∷ names) built shipped both =
      let (bytes, ours, theirs) = both name (rw (eq_refl name) refl) in
      rw (ours, theirs, same_bytes_same bytes)
        (compare_files_complete names built shipped λ k here. both k (ground arith))

  abbrev pub new_folder : Place
  new_folder = record { is_link = false; is_directory = true; entries = [] }

  -- A shipped directory that is the same as a clean build, and can be read.
  pub record IsShipped (scratch : String) (shipped : List (String × Bytes)) (manifest : Value)
      : Type 0 where
    pub built : Built
    pub clean : build_sandbox_assets b scratch (ok new_folder) ≡ ok built
    pub manifest_is : built.manifest ≡ manifest
    pub inventory : sort (keys shipped) ≡ sort (keys (make_changes built.changes []))
    pub files : (k : String) → lookup k shipped ≡ lookup k built.outputs
    pub delivered : IsDelivered b built shipped

  -- What a comparison that passed says of every name, listed or not.
  compared_files :
      (folder shipped : List (String × Bytes)) (u : Unit {0})
      → sort (keys shipped) ≡ sort (keys folder)
      → compare_files b (sort (keys folder)) folder shipped ≡ ok u
      → (k : String) → lookup k shipped ≡ lookup k folder
  compared_files folder shipped u inventory compared k =
      elim (Bool-cases (includes (keys folder) k)) [
        | inl here ↦
            (let (bytes, ours, theirs) =
                compare_files_lem (sort (keys folder)) folder shipped u k compared
                  (includes-sort (keys folder) k ∙ here) in
              theirs ∙ sym ours)
        | inr missing ↦
            lookup_missing k shipped (
              sym (includes-sort (keys shipped) k)
              ∙ ap (λ (names : List String). includes names k) inventory
              ∙ includes-sort (keys folder) k
              ∙ missing)
            ∙ sym (lookup_missing k folder missing)
      ]

  module _ (scratch : String) (shipped : List (String × Bytes)) (manifest : Value) where
    pub verify_sandbox_build-IsShipped :
        IsReadable b
        → verify_sandbox_build b scratch (ok shipped) ≡ ok manifest
        → b.tree.disk.parse (b.tree.decode_text (b.utf8 (json_file manifest)))
          ≡ ok (json_copy manifest)
        → IsShipped scratch shipped manifest
    unfolding verify_sandbox_build
    verify_sandbox_build-IsShipped r h parses =
        let (built, clean, h1) = >>=-eq-ok (build_sandbox_assets b scratch (ok new_folder)) _ h in
        let folder = make_changes built.changes [] in
        let (u, guarded, h2) =
          >>=-eq-ok
            (require
                (same_text (names_text (sort (keys shipped))) (names_text (sort (keys folder))))
                (error "Shipped sandbox asset inventory differs from the clean build")
              >> compare_files b (sort (keys folder)) folder shipped)
            _ h1 in
        let (listed, compared) =
          require->>=
            (same_text (names_text (sort (keys shipped))) (names_text (sort (keys folder)))) _ _
            guarded in
        let inventory = stringify-strings_injective _ _ (same_text_lem _ _ listed) in
        let same = ok-injective h2 in
        let exact = (build_sandbox_assets-IsBuilt b scratch new_folder built clean).1.exact in
        let files : (k : String) → lookup k shipped ≡ lookup k built.outputs =
          λ k. compared_files folder shipped u inventory compared k ∙ exact k in
        record {
          built = built;
          clean = clean;
          manifest_is = same;
          inventory = inventory;
          files = files;
          delivered =
              folder-IsDelivered b scratch new_folder built shipped r clean
                (subst
                  (λ (m : Value).
                    b.tree.disk.parse (b.tree.decode_text (b.utf8 (json_file m)))
                    ≡ ok (json_copy m))
                  (sym same) parses)
                (λ k bytes there. files k ∙ there);
        }

    complete :
        IsShipped scratch shipped manifest
        → verify_sandbox_build b scratch (ok shipped) ≡ ok manifest
    unfolding verify_sandbox_build
    complete s =
        let folder = make_changes s.built.changes [] in
        let exact = (build_sandbox_assets-IsBuilt b scratch new_folder s.built s.clean).1.exact in
        rw
          (
            s.clean,
            s.inventory,
            same_text_same (names_text (sort (keys folder))),
            compare_files_complete (sort (keys folder)) folder shipped λ k here.
                let (bytes, there) =
                  lookup_found k folder (sym (includes-sort (keys folder) k) ∙ here) in
                (bytes, there, s.files k ∙ sym (exact k) ∙ there),
            s.manifest_is,
          )
          refl

    -- The check of the shipped files accepts exactly a clean build, and that can be served. The hashes
    -- are 64 lower-case hexadecimal digits, the decoder reads what is written in UTF-8, the bundler
    -- gives each file that it is asked for, texts in UTF-8 only, and none under the manifest's name,
    -- and the manifest is parsed back. Then `verifySandboxBuild` returns that manifest exactly if a
    -- clean build returns and has it, the shipped names are, in order, those that the build left, each
    -- name has the bytes of the build's output under it, or is in neither, and the service's reader
    -- accepts the shipped directory and reads the text of the entry module of that build and the
    -- notices of its packages.
    pub verify_sandbox_build_iff :
        IsReadable b
        → b.tree.disk.parse (b.tree.decode_text (b.utf8 (json_file manifest)))
          ≡ ok (json_copy manifest)
        → (verify_sandbox_build b scratch (ok shipped) ≡ ok manifest)
          ↔ IsShipped scratch shipped manifest
    verify_sandbox_build_iff r parses = (λ h. verify_sandbox_build-IsShipped r h parses, complete)
