-- ===== src/Policy.antt =====
-- web/src/sandbox-proxy.js, lines 8 to 62 and 171 to 178: what a View is granted, and how the grants
-- are written into its Content-Security-Policy and the Permissions-Policy header.
pub mod Grants
pub mod Acceptance
pub mod Directives
pub mod Features
use kestrel_feature_mcp.Prelude.{
  String, Bool, false, not, ◌&&◌, ◌||◌, List, [], ◌∷◌, map, all, includes, select, is_empty,
  is_blank, trim, split, join, ◌==◌, Outcome, ok, throw, ◌>>=◌, ◌>>◌, require, or_throw, type_error,
  if◌then◌else◌,
}
use kestrel_feature_mcp.Json.{◌<>◌}
use kestrel_feature_mcp.Value.{
  Value, undefined, null, arr, obj, end, str, elems, member, get, has_own, is_undefined, is_array,
  is_object_with, array_items, is_text, includes_text, or_object,
}
use kestrel_feature_mcp.Platform.{Platform}

abbrev pub reserved : String
reserved = "ui/notifications/sandbox-"

abbrev pub domain_keys : List String
domain_keys = "connectDomains" ∷ "resourceDomains" ∷ "frameDomains" ∷ "baseUriDomains" ∷ []

abbrev pub device_keys : List String
device_keys = "camera" ∷ "microphone" ∷ "geolocation" ∷ "clipboardWrite" ∷ []

-- The object `csp`, which has the four domain keys.
pub record Csp : Type 0 where
  pub connect_domains : List String
  pub resource_domains : List String
  pub frame_domains : List String
  pub base_uri_domains : List String

-- `permissions` has the granted keys; each has the value `{}`.
pub record Approved : Type 0 where
  pub csp : Csp
  pub permissions : List String

abbrev pub is_http : String → Bool
is_http protocol = includes ("https:" ∷ "http:" ∷ []) protocol

-- The text of a value that is one of the texts of a list.
abbrev pub is_key : List String → Value → Bool
is_key keys (str s) = includes keys s
is_key keys v = false

-- `allowed.has(origin)` for the items of an array, and the texts among which it holds.
abbrev pub granted_origins : List String → List Value → List String
granted_origins allowed [] = []
granted_origins allowed (str s ∷ vs) =
    if includes allowed s then s ∷ granted_origins allowed vs else granted_origins allowed vs
granted_origins allowed (v ∷ vs) = granted_origins allowed vs

-- `(v ?? [])` where `filter` is called.
unfoldable pub filterable : Value → Outcome (List Value)
filterable undefined = ok []
filterable null = ok []
filterable (arr vs) = ok (elems vs)
filterable v = throw (type_error "filter is not a function")

-- The loop over `DEVICE_KEYS`.
unfoldable pub approve_devices : Value → List Value → List String → Outcome (List String)
approve_devices permissions granted [] = ok []
approve_devices permissions granted (key ∷ keys) = do
  wanted ← has_own permissions key
  rest ← approve_devices permissions granted keys
  ok (if wanted && includes_text granted key then key ∷ rest else rest)

abbrev pub is_policy_key : String → Bool
is_policy_key key = includes domain_keys key || key == "permissions"

abbrev pub has_device_grants : Value → Bool
has_device_grants policy =
    is_undefined (member policy "permissions")
    || is_array (member policy "permissions")
      && all (is_key device_keys) (array_items (member policy "permissions"))

module _ (p : Platform) where
  unfoldable pub exact_origin : Value → Outcome String
  exact_origin v = do
    url ← or_throw (p.new_url v) (type_error "Invalid URL")
    require (is_text v url.origin && is_http url.protocol)
        (type_error "Sandbox policy requires exact HTTP(S) origins")
    ok url.origin

  unfoldable pub exact_origins : List Value → Outcome (List String)
  exact_origins [] = ok []
  exact_origins (v ∷ vs) = do origin ← exact_origin v; rest ← exact_origins vs; ok (origin ∷ rest)

  -- The checks of one domain key, which read the operator's policy only.
  unfoldable pub allowed_origins : Value → String → Outcome (List String)
  allowed_origins policy key = do
    require (is_undefined (member policy key) || is_array (member policy key))
        (type_error "Sandbox domain grants must be arrays of exact origins")
    allowed ← exact_origins (array_items (member policy key))
    require (not (key == "frameDomains" && not (is_empty allowed)))
        (type_error "Sandbox proxy does not support nested network frame grants")
    ok allowed

  -- One round of the loop over `DOMAIN_KEYS`.
  unfoldable pub approve_domain : Value → Value → String → Outcome (List String)
  approve_domain requested policy key = do
    allowed ← allowed_origins policy key
    wanted ← get requested key
    origins ← filterable wanted
    ok (granted_origins allowed origins)

  unfoldable pub approve_sandbox_policy : Value → Value → Value → Outcome Approved
  approve_sandbox_policy requested permissions policy = do
    require (is_object_with is_policy_key policy)
        (type_error "Sandbox policy must contain only domain and device grants")
    require (has_device_grants policy)
        (type_error "Sandbox device grants must name supported permissions")
    connect ← approve_domain (or_object requested) policy "connectDomains"
    resource ← approve_domain (or_object requested) policy "resourceDomains"
    frame ← approve_domain (or_object requested) policy "frameDomains"
    base ← approve_domain (or_object requested) policy "baseUriDomains"
    granted ←
        approve_devices (or_object permissions) (array_items (member policy "permissions"))
          device_keys
    ok (record {
      csp = record {
        connect_domains = connect;
        resource_domains = resource;
        frame_domains = frame;
        base_uri_domains = base;
      };
      permissions = granted;
    })

abbrev domains : List String → String
domains [] = "'none'"
domains (o ∷ os) = join " " (o ∷ os)

-- The directives, in the order of the array that `sandboxCsp` joins.
unfoldable pub csp_directives : Csp → List String
csp_directives csp =
    let resources = join " " csp.resource_domains in
    "default-src 'none'"
    ∷ ("script-src 'unsafe-inline' " <> resources)
    ∷ ("style-src 'unsafe-inline' " <> resources)
    ∷ ("img-src data: " <> resources)
    ∷ ("media-src data: " <> resources)
    ∷ ("font-src " <> domains csp.resource_domains)
    ∷ ("connect-src " <> domains csp.connect_domains)
    ∷ ("frame-src " <> domains csp.frame_domains)
    ∷ ("base-uri " <> domains csp.base_uri_domains)
    ∷ "object-src 'none'"
    ∷ "form-action 'none'"
    ∷ "worker-src 'none'"
    ∷ []

unfoldable pub sandbox_csp : Csp → String
unfolding csp_directives
sandbox_csp csp = join "; " (csp_directives csp)

-- The texts of the permissions that a policy grants.
abbrev pub key_texts : List Value → List String
key_texts [] = []
key_texts (str s ∷ vs) = s ∷ key_texts vs
key_texts (v ∷ vs) = key_texts vs

unfoldable pub permission_entry : List String → String → String
permission_entry granted name = name <> "=" <> (if includes granted name then "*" else "()")

-- `buildAllowAttribute` of the MCP Apps SDK is a parameter: the granted keys to the attribute's text.
module _ (build_allow_attribute : List String → String) where
  unfoldable pub features : List String → List String
  features keys =
      select (λ s. not (is_blank s)) (map trim (split b';' (build_allow_attribute keys)))

  unfoldable pub sandbox_permissions_policy : Platform → Value → Outcome String
  sandbox_permissions_policy p policy = do
    approve_sandbox_policy p (obj end) (obj end) policy >>= λ _. ok tt
    let granted = features (key_texts (array_items (member policy "permissions")))
    ok (join ", " (map (permission_entry granted) (features device_keys)))
