-- ===== src/Examples/Policies.antt =====
-- The theorems on the grants and their texts at the tests' policy, and texts of the tests.
use kestrel_feature_mcp.Prelude.{true, ◌≡◌, refl, [], ◌∷◌, ok, join, split, trim, is_ok, some}
use kestrel_feature_mcp.Json.{stringify}
use kestrel_feature_mcp.Value.{
  Value, undefined, func, bool, num, str, arr, obj, negative, nil, cons, end, field, strings, get,
  has_own,
}
use kestrel_feature_mcp.Policy.{
  Csp, Approved, approve_sandbox_policy, approve_domain, allowed_origins, exact_origins,
  exact_origin, filterable, approve_devices, sandbox_csp, sandbox_permissions_policy, features,
  permission_entry,
}
use kestrel_feature_mcp.Policy.Grants.{IsGrant, approve-IsGrant}
use kestrel_feature_mcp.Policy.Acceptance.{approve-is_policy, is_policy}
use kestrel_feature_mcp.Policy.Directives.{parse_csp, view_policy, parse_csp-sandbox_csp}
use kestrel_feature_mcp.Policy.Features.{sandbox_permissions_policy-eq-ok, feature_entry}
use kestrel_feature_mcp.Examples.Fixture.{
  platform, grants, build_allow, feature_name, build_allow-IsAllowAttribute,
}

stringify_nested :
    stringify (
      obj (
        field "a\n<"
          (arr (cons (num (negative 41)) (cons undefined (cons (bool true) nil))))
          (field "f" func (field "b" (str "é") end))))
    ≡ some "{\"a\\n<\":[-42,null,true],\"b\":\"é\"}"
unfolding stringify
stringify_nested = refl

-- A View that asks for more than the operator grants.
abbrev pub requested : Value
requested = obj (
    field "connectDomains"
      (arr (strings ("https://cdn.example" ∷ "https://elsewhere.example" ∷ [])))
      (field "frameDomains" (arr (strings ("https://cdn.example" ∷ []))) end))

abbrev pub permissions : Value
permissions = obj (field "camera" (obj end) (field "microphone" (obj end) end))

abbrev pub cdn_csp : Csp
cdn_csp = record {
  connect_domains = "https://cdn.example" ∷ [];
  resource_domains = [];
  frame_domains = [];
  base_uri_domains = [];
}

abbrev pub approved : Approved
approved = record { csp = cdn_csp; permissions = "camera" ∷ [] }

pub approve_requested : approve_sandbox_policy platform requested permissions grants ≡ ok approved
unfolding approve_sandbox_policy approve_domain allowed_origins exact_origins exact_origin
    filterable approve_devices get has_own
approve_requested = refl

approve-IsGrant_example :
    IsGrant platform requested permissions grants "https://cdn.example" "camera" approved
approve-IsGrant_example =
    approve-IsGrant platform requested permissions grants approved approve_requested
      "https://cdn.example" "camera"

approve-is_policy_example :
    is_ok (approve_sandbox_policy platform requested permissions grants) ≡ is_policy platform grants
approve-is_policy_example = approve-is_policy platform requested permissions grants refl

parse_csp-sandbox_csp_example : parse_csp (sandbox_csp cdn_csp) ≡ view_policy cdn_csp
parse_csp-sandbox_csp_example = parse_csp-sandbox_csp cdn_csp (refl, tt) tt tt tt

permissions_header :
    sandbox_permissions_policy build_allow platform grants
    ≡ ok "camera=*, microphone=(), geolocation=(), clipboard-write=()"
unfolding sandbox_permissions_policy features permission_entry join split trim
    approve_sandbox_policy approve_domain allowed_origins exact_origins exact_origin filterable
    approve_devices get has_own
permissions_header = refl

sandbox_permissions_policy-eq-ok_example :
    "camera=*, microphone=(), geolocation=(), clipboard-write=()"
    ≡ join ", " (
        feature_entry feature_name (str "camera" ∷ []) "camera"
        ∷ feature_entry feature_name (str "camera" ∷ []) "microphone"
        ∷ feature_entry feature_name (str "camera" ∷ []) "geolocation"
        ∷ feature_entry feature_name (str "camera" ∷ []) "clipboardWrite"
        ∷ [])
sandbox_permissions_policy-eq-ok_example =
    sandbox_permissions_policy-eq-ok build_allow feature_name build_allow-IsAllowAttribute platform
      grants "camera=*, microphone=(), geolocation=(), clipboard-write=()" permissions_header
