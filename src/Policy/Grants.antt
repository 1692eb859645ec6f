-- ===== src/Policy/Grants.antt =====
-- What `approveSandboxPolicy` grants, against the operator's policy and the View's request.
use kestrel_feature_mcp.Prelude.{
  String, Bool, true, ◌≡◌, refl, ◌&&◌, List, [], ◌∷◌, includes, eq_iff, ok, and-true_parts, Ensures,
  Outcome-cases, arith, Bool-cases, Option-cases, some, inl, inr,
}
use kestrel_feature_mcp.Value.{
  Value, undefined, null, func, bool, num, str, arr, obj, member, has_key, get, has_own,
  array_items, includes_text, or_object, is_text,
}
use kestrel_feature_mcp.Platform.{Url, Platform}
use kestrel_feature_mcp.Policy.{
  Approved, is_http, granted_origins, filterable, exact_origin, exact_origins, allowed_origins,
  approve_domain, approve_devices, approve_sandbox_policy, device_keys,
}

-- A text is granted if it is allowed and wanted.
pub includes-granted_origins :
    (allowed : List String) (wanted : List Value) (o : String)
    → includes (granted_origins allowed wanted) o ≡ (includes allowed o && includes_text wanted o)
includes-granted_origins allowed [] o = ground arith
includes-granted_origins allowed (str s ∷ vs) o =
    ground (arith, includes-granted_origins allowed vs o, eq_iff s o)
includes-granted_origins allowed (v ∷ vs) o = includes-granted_origins allowed vs o

no_origins : (wanted : List Value) → granted_origins [] wanted ≡ []
no_origins [] = refl
no_origins (str s ∷ vs) = no_origins vs
no_origins (v ∷ vs) = no_origins vs

pub is_text_lem : (v : Value) (o : String) → is_text v o ≡ true → v ≡ str o
is_text_lem (str s) o h = ground (arith, eq_iff s o)
is_text_lem undefined o h = cc
is_text_lem null o h = cc
is_text_lem func o h = cc
is_text_lem (bool b) o h = cc
is_text_lem (num n) o h = cc
is_text_lem (arr vs) o h = cc
is_text_lem (obj fs) o h = cc

module _ (p : Platform) where
  -- An origin that is accepted is a text, and the origin of the URL that it names.
  abbrev pub IsExact : Value → String → Type 0
  IsExact v o =
      (v ≡ str o)
      × ((url : Url) × (p.new_url v ≡ some url) × (url.origin ≡ o) × (is_http url.protocol ≡ true))

  exact_origin_lem : (v : Value) → Ensures (IsExact v) (exact_origin p v)
  unfolding exact_origin
  exact_origin_lem v = elim (Option-cases (p.new_url v)) [
    | inl bad ↦ rw bad tt
    | inr (url, parsed) ↦
        rw parsed (elim (Bool-cases (is_text v url.origin && is_http url.protocol)) [
          | inl passed ↦
              let (same, http) = and-true_parts _ _ passed in
              rw passed (is_text_lem v url.origin same, (url, parsed, refl, http))
          | inr failed ↦ rw failed tt
        ])
  ]

  -- The texts of a checked array are its items.
  exact_origins_lem :
      (vs : List Value) (o : String)
      → Ensures (λ os. includes os o ≡ includes_text vs o) (exact_origins p vs)
  unfolding exact_origins
  exact_origins_lem [] o = ground arith
  exact_origins_lem (v ∷ vs) o = elim (Outcome-cases (exact_origin p v)) [
    | inl (origin, exact) ↦
        rw exact (ground (arith, exact_origins_lem vs o, rw exact at (exact_origin_lem v)))
    | inr (e, failed) ↦ rw failed tt
  ]

  module _ (policy : Value) where
    abbrev pub operator : String → List Value
    operator key = array_items (member policy key)

    allowed_origins_lem :
        (key : String) (o : String)
        → Ensures
            (λ os. includes os o ≡ includes_text (operator key) o)
            (allowed_origins p policy key)
    unfolding allowed_origins
    allowed_origins_lem key o = ground (arith, exact_origins_lem (operator key) o)

    allowed_frames : Ensures (λ os. os ≡ []) (allowed_origins p policy "frameDomains")
    unfolding allowed_origins
    allowed_frames = ground (arith)

    approve_domain_lem :
        (requested : Value) (key o : String)
        → Ensures
            (λ os. includes os o ≡ (
              includes_text (operator key) o
              && includes_text (array_items (member requested key)) o))
            (approve_domain p requested policy key)
    unfolding approve_domain get filterable
    approve_domain_lem requested key o = elim (Outcome-cases (allowed_origins p policy key)) [
      | inl (allowed, e) ↦
          let listed = rw e at (allowed_origins_lem key o) in
          rw e (
            ground (
              arith,
              listed,
              includes-granted_origins allowed (array_items (member requested key)) o,
            ))
      | inr (x, e) ↦ rw e tt
    ]

    approve_frames :
        (requested : Value)
        → Ensures (λ os. os ≡ []) (approve_domain p requested policy "frameDomains")
    unfolding approve_domain get filterable
    approve_frames requested = elim (Outcome-cases (allowed_origins p policy "frameDomains")) [
      | inl (allowed, e) ↦
          let none_allowed = rw e at allowed_frames in
          rw (e, none_allowed)
            (ground (arith, no_origins (array_items (member requested "frameDomains"))))
      | inr (x, e) ↦ rw e tt
    ]

-- A device is granted if the request names it and the operator's list has it.
approve_devices_lem :
    (permissions : Value) (granted : List Value) (keys : List String) (d : String)
    → Ensures
        (λ ds.
          includes ds d ≡ (includes keys d && has_key permissions d && includes_text granted d))
        (approve_devices permissions granted keys)
unfolding approve_devices has_own
approve_devices_lem permissions granted [] d = refl
approve_devices_lem permissions granted (k ∷ ks) d =
    ground (arith, approve_devices_lem permissions granted ks d, eq_iff k d)

module _ (p : Platform) (requested permissions policy : Value) where
  -- The operator's list for a key, and the View's.
  abbrev pub offered : String → String → Bool
  offered key o = includes_text (array_items (member policy key)) o

  abbrev pub wanted : String → String → Bool
  wanted key o = includes_text (array_items (member (or_object requested) key)) o

  -- What is granted at one origin and one device.
  abbrev pub IsGrant : String → String → Approved → Type 0
  IsGrant o d a =
      (includes a.csp.connect_domains o ≡ (offered "connectDomains" o && wanted "connectDomains" o))
      × (includes a.csp.resource_domains o
          ≡ (offered "resourceDomains" o && wanted "resourceDomains" o))
      × (includes a.csp.base_uri_domains o
          ≡ (offered "baseUriDomains" o && wanted "baseUriDomains" o))
      × (a.csp.frame_domains ≡ [])
      × (includes a.permissions d ≡ (
          includes device_keys d && has_key (or_object permissions) d && offered "permissions" d))

  approve-IsGrant_at :
      (o d : String) → Ensures (IsGrant o d) (approve_sandbox_policy p requested permissions policy)
  unfolding approve_sandbox_policy
  approve-IsGrant_at o d = ground (
    arith,
    approve_domain_lem p policy (or_object requested) "connectDomains" o,
    approve_domain_lem p policy (or_object requested) "resourceDomains" o,
    approve_domain_lem p policy (or_object requested) "baseUriDomains" o,
    approve_frames p policy (or_object requested),
    approve_devices_lem (or_object permissions) (array_items (member policy "permissions"))
        device_keys d,
  )

  -- Metadata requests and only the operator grants: when `approveSandboxPolicy` returns, an origin
  -- is granted for connections, resources or base URIs exactly if both the operator's list and the
  -- View's list for that key have it; no frame origin is granted; and a device is granted exactly
  -- if it is a supported one that the View asks for and the operator lists.
  pub approve-IsGrant :
      (a : Approved)
      → approve_sandbox_policy p requested permissions policy ≡ ok a
      → (o d : String) → IsGrant o d a
  approve-IsGrant a e o d = rw e at (approve-IsGrant_at o d)
