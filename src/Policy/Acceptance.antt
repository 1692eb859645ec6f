-- ===== src/Policy/Acceptance.antt =====
-- When `approveSandboxPolicy` accepts, and what it makes of its own answer.
use kestrel_feature_mcp.Prelude.{
  String, Bool, true, false, ◌≡◌, refl, not, ◌&&◌, ◌||◌, List, [], ◌∷◌, all, is_empty, ◌==◌,
  Ensures, ok, is_ok, ◌>>=◌, Outcome, Exception, require, ◌>>◌, and-true_parts, ◌∙◌, arith, some,
  none,
}
use kestrel_feature_mcp.Value.{
  Value, undefined, null, arr, member, get, has_own, array_items, or_object, is_text, is_undefined,
  is_array, is_object_with,
}
use kestrel_feature_mcp.Platform.{Platform}
use kestrel_feature_mcp.Policy.{
  filterable, exact_origin, exact_origins, allowed_origins, approve_domain, approve_devices,
  approve_sandbox_policy, device_keys, domain_keys, is_http, is_policy_key, has_device_grants,
}

-- What the bridge accepts as a request for one key.
abbrev pub is_list_request : Value → Bool
is_list_request undefined = true
is_list_request null = true
is_list_request (arr vs) = true
is_list_request v = false

abbrev pub is_null : Value → Bool
is_null null = true
is_null v = false

-- A View's metadata: `csp` and `permissions` are not `null`, and each domain key is absent, `null`
-- or an array.
abbrev pub is_request : Value → Value → Bool
is_request requested permissions =
    not (is_null requested)
    && not (is_null permissions)
    && all (λ key. is_list_request (member (or_object requested) key)) domain_keys

not_parts : (a b : Bool) → (not a && not b) ≡ true → (a ≡ false) × (b ≡ false)
not_parts a b h = ground arith

regroup :
    (a h c r f b e : Bool)
    → (a && (h && ((c && true) && ((r && true) && ((f && not (not e)) && ((b && true) && true))))))
      ≡ (a && h && (c && (r && (f && (b && true)))) && e)
regroup a h c r f b e = ground arith

-- A sequence of two tests and five steps, the last of which returns.
chain_ok :
    {A B : Type 0} (t u : Bool) (e x : Exception) (a b c d m : Outcome A)
    → is_ok m ≡ true
    → (k : A → A → A → A → A → B)
    → is_ok
        (require t e >> (require u x >> (do v ← a; w ← b; y ← c; z ← d; r ← m; ok (k v w y z r))))
      ≡ (t && (u && (is_ok a && (is_ok b && (is_ok c && (is_ok d && true))))))
chain_ok t u e x a b c d m h k = ground arith

module _ (p : Platform) where
  -- An exact HTTP(S) origin: the text of the origin of the URL that it spells.
  abbrev pub is_exact : Value → Bool
  is_exact v = elim (p.new_url v) [
    | none ↦ false
    | some url ↦ is_text v url.origin && is_http url.protocol
  ]

  unfoldable pub is_domain_grant : Value → String → Bool
  is_domain_grant policy key =
      (is_undefined (member policy key) || is_array (member policy key))
      && all is_exact (array_items (member policy key))

  -- The operator's policies: an object with no other key than the domain keys and `permissions`,
  -- supported devices only, arrays of exact origins, and no frame origin.
  abbrev pub is_policy : Value → Bool
  is_policy policy =
      is_object_with is_policy_key policy
      && has_device_grants policy
      && all (is_domain_grant policy) domain_keys
      && is_empty (array_items (member policy "frameDomains"))

  exact_origins_ok : (vs : List Value) → is_ok (exact_origins p vs) ≡ all is_exact vs
  unfolding exact_origins exact_origin
  exact_origins_ok [] = refl
  exact_origins_ok (v ∷ vs) = ground (arith, exact_origins_ok vs)

  exact_origins_empty :
      (vs : List Value) → Ensures (λ os. is_empty os ≡ is_empty vs) (exact_origins p vs)
  unfolding exact_origins
  exact_origins_empty [] = refl
  exact_origins_empty (v ∷ vs) = ground arith

  allowed_origins_ok :
      (policy : Value) (key : String)
      → is_ok (allowed_origins p policy key) ≡ (
          is_domain_grant policy key
          && not (key == "frameDomains" && not (is_empty (array_items (member policy key)))))
  unfolding allowed_origins is_domain_grant
  allowed_origins_ok policy key = ground (
    arith,
    exact_origins_ok (array_items (member policy key)),
    exact_origins_empty (array_items (member policy key)),
  )

  approve_domain_ok :
      (requested policy : Value) (key : String)
      → is_null requested ≡ false
      → is_list_request (member (or_object requested) key) ≡ true
      → is_ok (approve_domain p (or_object requested) policy key)
        ≡ is_ok (allowed_origins p policy key)
  unfolding approve_domain get filterable
  approve_domain_ok requested policy key h k = ground arith

  approve_devices_ok :
      (permissions : Value) (granted : List Value) (keys : List String)
      → is_null permissions ≡ false
      → is_ok (approve_devices (or_object permissions) granted keys) ≡ true
  unfolding approve_devices has_own
  approve_devices_ok permissions granted [] h = refl
  approve_devices_ok permissions granted (key ∷ keys) h =
      ground (arith, approve_devices_ok permissions granted keys h)

  approve_domain-is_domain_grant :
      (requested policy : Value) (key : String)
      → is_null requested ≡ false
      → is_list_request (member (or_object requested) key) ≡ true
      → is_ok (approve_domain p (or_object requested) policy key) ≡ (
          is_domain_grant policy key
          && not (key == "frameDomains" && not (is_empty (array_items (member policy key)))))
  approve_domain-is_domain_grant requested policy key h k =
      approve_domain_ok requested policy key h k ∙ allowed_origins_ok policy key

  -- The four keys in turn, and the devices.
  approve_ok_parts :
      (requested permissions policy : Value)
      → is_null permissions ≡ false
      → is_ok (approve_sandbox_policy p requested permissions policy) ≡ (
          is_object_with is_policy_key policy
          && (has_device_grants policy
              && (is_ok (approve_domain p (or_object requested) policy "connectDomains")
                  && (is_ok (approve_domain p (or_object requested) policy "resourceDomains")
                      && (is_ok (approve_domain p (or_object requested) policy "frameDomains")
                          && (is_ok (approve_domain p (or_object requested) policy "baseUriDomains")
                              && true))))))
  unfolding approve_sandbox_policy
  approve_ok_parts requested permissions policy h =
      chain_ok (is_object_with is_policy_key policy) (has_device_grants policy) _ _
        (approve_domain p (or_object requested) policy "connectDomains")
        (approve_domain p (or_object requested) policy "resourceDomains")
        (approve_domain p (or_object requested) policy "frameDomains")
        (approve_domain p (or_object requested) policy "baseUriDomains") _
        (approve_devices_ok permissions (array_items (member policy "permissions")) device_keys h)
        λ connect resource frame base granted. record {
          csp = record {
            connect_domains = connect;
            resource_domains = resource;
            frame_domains = frame;
            base_uri_domains = base;
          };
          permissions = granted;
        }

  -- Whether a View's request is approved depends on the operator's policy only: for metadata that is
  -- not `null` and whose domain keys are absent, `null` or arrays, `approveSandboxPolicy` returns
  -- exactly if the policy is an object with supported keys, supported devices, arrays of exact
  -- HTTP(S) origins and no frame origin.
  pub approve-is_policy :
      (requested permissions policy : Value)
      → is_request requested permissions ≡ true
      → is_ok (approve_sandbox_policy p requested permissions policy) ≡ is_policy policy
  approve-is_policy requested permissions policy h =
      let (here, lists) =
        and-true_parts (not (is_null requested) && not (is_null permissions)) _ h in
      let (not_null, given) = not_parts (is_null requested) (is_null permissions) here in
      let (connect, later) = and-true_parts _ _ lists in
      let (resource, later') = and-true_parts _ _ later in
      let (frame, last) = and-true_parts _ _ later' in
      let (base, _) = and-true_parts _ _ last in
      approve_ok_parts requested permissions policy given
      ∙ rw
          (
            approve_domain-is_domain_grant requested policy "connectDomains" not_null connect,
            approve_domain-is_domain_grant requested policy "resourceDomains" not_null resource,
            approve_domain-is_domain_grant requested policy "frameDomains" not_null frame,
            approve_domain-is_domain_grant requested policy "baseUriDomains" not_null base,
          )
          (regroup (is_object_with is_policy_key policy) (has_device_grants policy)
            (is_domain_grant policy "connectDomains") (is_domain_grant policy "resourceDomains")
            (is_domain_grant policy "frameDomains") (is_domain_grant policy "baseUriDomains")
            (is_empty (array_items (member policy "frameDomains"))))
