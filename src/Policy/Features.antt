-- ===== src/Policy/Features.antt =====
-- The Permissions-Policy header, over what the SDK documents of `buildAllowAttribute`: it joins by
-- "; " the feature names of the granted permissions, in the order camera, microphone, geolocation,
-- clipboardWrite.
use kestrel_feature_mcp.Prelude.{
  String, Bool, true, false, ◌≡◌, refl, ap, ◌∙◌, not, ◌&&◌, List, [], ◌∷◌, map, All, includes,
  select, is_blank, lacks, map-split-join, trim, split, join, eq_iff, ok, ◌>>=◌, >>=-eq-ok, sym,
  arith, if◌then◌else◌,
}
use kestrel_feature_mcp.Json.{◌<>◌}
use kestrel_feature_mcp.Value.{Value, obj, end, str, array_items, member, includes_text}
use kestrel_feature_mcp.Platform.{Platform}
use kestrel_feature_mcp.Policy.{
  device_keys, features, key_texts, permission_entry, sandbox_permissions_policy,
  approve_sandbox_policy,
}

-- The name of a feature: not empty, without a semicolon, and unchanged by `trim`.
abbrev pub IsFeature : String → Type 0
IsFeature s = (is_blank s ≡ false) × (lacks b';' s ≡ true) × (trim s ≡ s)

-- What is relied on of `buildAllowAttribute`, with the feature name of each permission.
pub record IsAllowAttribute (build : List String → String) (name : String → String) : Type 0 where
  pub joined :
      (keys : List String) → build keys ≡ join "; " (map name (select (includes keys) device_keys))
  pub feature : (key : String) → includes device_keys key ≡ true → IsFeature (name key)
  pub injective :
      (j k : String)
      → includes device_keys j ≡ true
      → includes device_keys k ≡ true
      → name j ≡ name k
      → j ≡ k

trim_space : (x : String) → trim (String.◌∷◌ " " x) ≡ trim x
unfolding trim
trim_space x = refl

select_features :
    (ss : List String) → All IsFeature ss → select (λ s. not (is_blank s)) (map trim ss) ≡ ss
select_features [] h = refl
select_features (s ∷ ss) ((filled, _, same), h) =
    rw (same, filled) (ap (λ r. s ∷ r) (select_features ss h))

IsFeature-lacks : (ss : List String) → All IsFeature ss → All (λ s. lacks b';' s ≡ true) ss
IsFeature-lacks [] h = tt
IsFeature-lacks (s ∷ ss) ((_, clean, _), h) = (clean, IsFeature-lacks ss h)

select-join :
    (ss : List String)
    → All IsFeature ss
    → select (λ s. not (is_blank s)) (map trim (split b';' (join "; " ss))) ≡ ss
unfolding join trim split
select-join [] h = refl
select-join (s ∷ ss) h =
    ap (select (λ t. not (is_blank t)))
      (map-split-join trim trim_space s ss (IsFeature-lacks (s ∷ ss) h))
    ∙ select_features (s ∷ ss) h

includes-key_texts : (vs : List Value) (k : String) → includes (key_texts vs) k ≡ includes_text vs k
includes-key_texts [] k = refl
includes-key_texts (str s ∷ vs) k = ground (arith, includes-key_texts vs k)
includes-key_texts (v ∷ vs) k = includes-key_texts vs k

-- The header's value for a policy: each feature is open to any origin if the operator lists its
-- permission, and closed otherwise.
abbrev pub feature_entry : (String → String) → List Value → String → String
feature_entry name listed key = name key <> "=" <> (if includes_text listed key then "*" else "()")

module _ (build : List String → String) (name : String → String)
    (b : IsAllowAttribute build name) where
  named_features :
      (p : String → Bool) (keys : List String)
      → All (λ k. includes device_keys k ≡ true) keys
      → All IsFeature (map name (select p keys))
  named_features p [] h = tt
  named_features p (k ∷ ks) h = ground (arith, named_features p ks h.1, b.feature k h.0)

  features_lem :
      (keys : List String) → features build keys ≡ map name (select (includes keys) device_keys)
  unfolding features
  features_lem keys = rw (b.joined keys) (
      select-join _ (named_features (includes keys) device_keys (refl, (refl, (refl, (refl, tt))))))

  includes-map_name :
      (p : String → Bool) (k : String) (keys : List String)
      → includes device_keys k ≡ true
      → All (λ j. includes device_keys j ≡ true) keys
      → includes (map name (select p keys)) (name k) ≡ (includes keys k && p k)
  includes-map_name p k [] h hs = refl
  includes-map_name p k (j ∷ js) h hs = ground (
    arith,
    includes-map_name p k js h hs.1,
    eq_iff j k,
    eq_iff (name j) (name k),
    b.injective j k hs.0 h,
    ap name {x = j} {y = k},
  )

  -- One entry of the header.
  entry_lem :
      (vs : List Value) (k : String)
      → includes device_keys k ≡ true
      → permission_entry (features build (key_texts vs)) (name k) ≡ feature_entry name vs k
  unfolding permission_entry
  entry_lem vs k h =
      let open_to : includes (map name (select (includes (key_texts vs)) device_keys)) (name k)
          ≡ includes_text vs k =
        includes-map_name (includes (key_texts vs)) k device_keys h
          (refl, (refl, (refl, (refl, tt))))
        ∙ rw h (includes-key_texts vs k) in
      rw (features_lem (key_texts vs), open_to)

  -- The header says what the operator's policy says: with `buildAllowAttribute` as documented, a
  -- Permissions-Policy that is returned names each of the four features once, in order, open to any
  -- origin exactly if the policy's `permissions` lists its permission.
  pub sandbox_permissions_policy-eq-ok :
      (p : Platform) (policy : Value) (header : String)
      → sandbox_permissions_policy build p policy ≡ ok header
      → header
        ≡ join ", "
            (map (feature_entry name (array_items (member policy "permissions"))) device_keys)
  unfolding sandbox_permissions_policy
  sandbox_permissions_policy-eq-ok p policy header h =
      let listed = array_items (member policy "permissions") in
      let (_, _, e) =
        >>=-eq-ok (approve_sandbox_policy p (obj end) (obj end) policy >>= λ _. ok tt) _ h in
      let text : join ", " (
            map (permission_entry (features build (key_texts listed))) (features build device_keys))
          ≡ header =
        ground arith in
      sym text
      ∙ rw (
        features_lem device_keys,
        entry_lem listed "camera" refl,
        entry_lem listed "microphone" refl,
        entry_lem listed "geolocation" refl,
        entry_lem listed "clipboardWrite" refl,
      )
