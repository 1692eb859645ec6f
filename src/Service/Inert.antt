-- ===== src/Service/Inert.antt =====
-- What a created service serves: a checked configuration whose text is inert inside the page.
use Prim.Native.String.{[], ◌∷◌}
use mathlib.Core.Path.{subst}
use kestrel_feature_mcp.Prelude.{
  ok-injective, ℕ, ◌≤◌, ◌<◌, String, true, ◌≡◌, refl, ap, lacks, lacks-append, replace_all,
  Option-cases, inl, inr, ok, >>=-eq-ok, require->>=, arith, List, Ensures,
}
use kestrel_feature_mcp.Json.{◌<>◌, stringify}
use kestrel_feature_mcp.Value.{
  Value, undefined, null, func, bool, num, str, arr, obj, or_object, max_safe_integer,
}
use kestrel_feature_mcp.Platform.{Platform}
use kestrel_feature_mcp.Policy.{sandbox_permissions_policy}
use kestrel_feature_mcp.Config.{SandboxConfig, text_of, validate_sandbox_config}
use kestrel_feature_mcp.Config.Validity.{
  IsConfig, validate_sandbox_config_iff, positive_safe_integer_lem,
}
use kestrel_feature_mcp.Service.{
  Service, Limits, inert_json, is_filled, page_head, page_tail, merge_limits, limit_value,
  create_sandbox_service,
}

lacks-replace_all :
    (n : ℕ) (new s : String) → lacks n new ≡ true → lacks n (replace_all n new s) ≡ true
unfolding replace_all
lacks-replace_all n new [] h = refl
lacks-replace_all n new (c ∷ s) h =
    ground (arith, lacks-replace_all n new s h, lacks-append n new (replace_all n new s))

replace_all_of_lacks : (n : ℕ) (new s : String) → lacks n s ≡ true → replace_all n new s ≡ s
unfolding replace_all
replace_all_of_lacks n new [] h = refl
replace_all_of_lacks n new (c ∷ s) h = ground (arith, replace_all_of_lacks n new s)

inert_json-lacks : (v : Value) → lacks b'<' (inert_json v) ≡ true
unfolding inert_json
inert_json-lacks v = elim (Option-cases (stringify v)) [
  | inl e ↦ rw (e, inert_json) refl
  | inr (s, e) ↦ rw (e, inert_json) (lacks-replace_all b'<' "\\u003c" s refl)
]

-- A limit that the server can be given.
abbrev pub IsLimit : ℕ → Type 0
IsLimit n = (0 < n) × (n ≤ max_safe_integer)

pub record HasLimits (l : Limits) : Type 0 where
  pub header : IsLimit l.max_header_bytes
  pub request : IsLimit l.request_timeout_ms
  pub headers : IsLimit l.headers_timeout_ms
  pub keep_alive : IsLimit l.keep_alive_timeout_ms

merge_limits-HasLimits : (given : Value) → Ensures HasLimits (merge_limits given)
unfolding merge_limits
merge_limits-HasLimits given = ground (
  arith,
  positive_safe_integer_lem (limit_value (or_object given) "maxHeaderBytes" 16384) "maxHeaderBytes",
  positive_safe_integer_lem (limit_value (or_object given) "requestTimeoutMs" 5000)
      "requestTimeoutMs",
  positive_safe_integer_lem (limit_value (or_object given) "headersTimeoutMs" 5000)
      "headersTimeoutMs",
  positive_safe_integer_lem (limit_value (or_object given) "keepAliveTimeoutMs" 5000)
      "keepAliveTimeoutMs",
)

is_filled_lem : (v : Value) → is_filled v ≡ true → v ≡ str (text_of v)
is_filled_lem (str s) h = refl
is_filled_lem undefined h = cc
is_filled_lem null h = cc
is_filled_lem func h = cc
is_filled_lem (bool b) h = cc
is_filled_lem (num n) h = cc
is_filled_lem (arr vs) h = cc
is_filled_lem (obj fs) h = cc

module _ (build : List String → String) (p : Platform) (config entry notices limits : Value) where
  -- What a service that was created is.
  pub record IsService (s : Service) : Type 0 where
    pub approved : SandboxConfig
    pub checked : IsConfig p config approved
    pub origin : s.host_origin ≡ approved.host_origin
    pub header : sandbox_permissions_policy build p approved.policy ≡ ok s.permission_policy
    pub snapshot : s.config_json ≡ inert_json config
    pub inert : lacks b'<' s.config_json ≡ true
    pub page : s.html ≡ page_head <> s.config_json <> page_tail
    pub module_text : entry ≡ str s.entry_javascript
    pub notices_text : notices ≡ str s.third_party_notices
    pub has_limits : HasLimits s.limits

  -- A service is created only from a checked configuration, and serves that snapshot: its JSON, in
  -- which no `<` can end the page's script element, inside the page; with the Permissions-Policy of
  -- the checked policy, the given module and notices, and four limits from 1 to the largest safe
  -- integer.
  pub create_sandbox_service-IsService :
      (s : Service)
      → create_sandbox_service build p config entry notices limits ≡ ok s
      → IsService s
  unfolding create_sandbox_service
  create_sandbox_service-IsService s e =
      let (l, merged, e1) = >>=-eq-ok (merge_limits limits) _ e in
      let (c, valid, e2) = >>=-eq-ok (validate_sandbox_config p config) _ e1 in
      let (has_entry, e3) = require->>= (is_filled entry) _ _ e2 in
      let (has_notices, e4) = require->>= (is_filled notices) _ _ e3 in
      let (policy, header, e5) = >>=-eq-ok (sandbox_permissions_policy build p c.policy) _ e4 in
      let v = (validate_sandbox_config_iff p config c).0 valid in
      subst IsService (ok-injective e5) (record {
        approved = c;
        checked = v;
        origin = refl;
        header = header;
        snapshot = ap inert_json v.snapshot;
        inert = inert_json-lacks c.value;
        page = refl;
        module_text = is_filled_lem entry has_entry;
        notices_text = is_filled_lem notices has_notices;
        has_limits = rw merged at (merge_limits-HasLimits limits);
      })
