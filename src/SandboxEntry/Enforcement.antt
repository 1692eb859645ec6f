-- ===== src/SandboxEntry/Enforcement.antt =====
-- The proxy that the page of a service starts.
use kestrel_feature_mcp.Prelude.{
  ℕ, zero, suc, ◌≤◌, ◌<◌, String, Bool, true, false, ◌≡◌, refl, sym, ap, ◌∙◌, ◌&&◌, some, List, [],
  ◌∷◌, inl, inr, ◌==◌, eq_refl, Outcome-cases, ok, arith,
}
use kestrel_feature_mcp.Json.{json_copy}
use kestrel_feature_mcp.Value.{
  Value, nonneg, undefined, null, func, bool, num, str, arr, obj, end, member, is_truthy,
  is_object_with, structured_clone-member, max_safe_integer,
}
use kestrel_feature_mcp.Platform.{Platform}
use kestrel_feature_mcp.Policy.{
  Approved, exact_origin, approve_sandbox_policy, sandbox_permissions_policy,
}
use kestrel_feature_mcp.Policy.Acceptance.{is_policy, approve-is_policy}
use kestrel_feature_mcp.Config.{SandboxConfig, validate_sandbox_config}
use kestrel_feature_mcp.Config.Validity.{IsConfig, validate_sandbox_config_iff}
use kestrel_feature_mcp.Service.{Service, create_sandbox_service}
use kestrel_feature_mcp.Service.Inert.{create_sandbox_service-IsService}
use kestrel_feature_mcp.Proxy.{
  Settings, restrict, listen, to_host, fresh, proxy_limit, proxy_ready, start_sandbox_proxy,
}
use kestrel_feature_mcp.SandboxEntry.{Page, Entered, entry_options, start_entry}

proxy_limit_complete :
    (v : Value) (n : ℕ) → v ≡ num (nonneg n) → 0 < n → n ≤ max_safe_integer → proxy_limit v ≡ ok n
unfolding proxy_limit
proxy_limit_complete v zero e h k = absurd (omega arith)
proxy_limit_complete v (suc n) e h k = rw e (ground arith)

object_truthy : (p : String → Bool) (v : Value) → is_object_with p v ≡ true → is_truthy v ≡ true
object_truthy p (obj fs) h = refl
object_truthy p undefined h = cc
object_truthy p null h = cc
object_truthy p func h = cc
object_truthy p (bool b) h = cc
object_truthy p (num n) h = cc
object_truthy p (str s) h = cc
object_truthy p (arr vs) h = cc

first_of : (a b c d : Bool) → (a && b && c && d) ≡ true → a ≡ true
first_of a b c d h = ground arith

-- The settings of a proxy that was given a configuration.
abbrev pub settings_of : SandboxConfig → Settings
settings_of c = record {
  host_origin = c.host_origin;
  max_message_bytes = c.max_message_bytes;
  max_html_bytes = c.max_html_bytes;
  grants = c.policy;
}

module _ (p : Platform) (config : Value) (c : SandboxConfig) where
  origin_accepted :
      IsConfig p config c → exact_origin p (member config "hostOrigin") ≡ ok c.host_origin
  unfolding exact_origin
  origin_accepted v = rw (v.parsed, v.exact, v.origin) (rw (v.http, eq_refl c.host_origin) refl)

  is_granted : IsConfig p config c → is_policy p (member config "policy") ≡ true
  is_granted v = rw (← v.policy_is) v.granted

  policy_accepted :
      IsConfig p config c
      → (a : Approved) × (approve_sandbox_policy p (obj end) (obj end) (member config "policy")
          ≡ ok a)
  policy_accepted v =
      let accepted =
        approve-is_policy p (obj end) (obj end) (member config "policy") refl ∙ is_granted v in
      elim (Outcome-cases (approve_sandbox_policy p (obj end) (obj end) (member config "policy"))) [
        | inl returned ↦ returned
        | inr (x, failed) ↦ cc (rw failed at accepted)
      ]

  is_object : IsConfig p config c → is_truthy (member config "policy") ≡ true
  is_object v = object_truthy _ (member config "policy") (first_of _ _ _ _ (is_granted v))

  starts :
      (location : String)
      → IsConfig p config c
      → (c.host_origin == location) ≡ false
      → start_sandbox_proxy p location false (entry_options config)
        ≡ ok (settings_of c, fresh, restrict "frame-src 'none'" ∷ listen ∷ to_host proxy_ready ∷ [])
  unfolding start_sandbox_proxy
  starts location v apart =
      rw
        (
          origin_accepted v,
          apart,
          proxy_limit_complete (member config "maxMessageBytes") c.max_message_bytes v.message_limit
              v.message_range.0 v.message_range.1,
          proxy_limit_complete (member config "maxHtmlBytes") c.max_html_bytes v.html_limit
              v.html_range.0 v.html_range.1,
          is_object v,
          structured_clone-member config "policy" v.cloned,
          (policy_accepted v).1,
          v.policy_is,
        )
        refl

module _ (build : List String → String) (page : Page) (config entry notices limits : Value) where
  -- The window of a service's page holds to the service's configuration.
  pub record IsEnforced (s : Service) (e : Entered) : Type 0 where
    pub validated : validate_sandbox_config page.platform config ≡ ok e.config
    pub host : e.settings.host_origin ≡ s.host_origin
    pub message_limit : member config "maxMessageBytes" ≡ num (nonneg e.settings.max_message_bytes)
    pub html_limit : member config "maxHtmlBytes" ≡ num (nonneg e.settings.max_html_bytes)
    pub grants : e.settings.grants ≡ member config "policy"
    pub header :
        sandbox_permissions_policy build page.platform e.settings.grants ≡ ok s.permission_policy
    pub start : e.proxy ≡ fresh
    pub effects : e.effects ≡ restrict "frame-src 'none'" ∷ listen ∷ to_host proxy_ready ∷ []

  abbrev entered : SandboxConfig → Entered
  entered c = record {
    config = c;
    settings = settings_of c;
    proxy = fresh;
    effects = restrict "frame-src 'none'" ∷ listen ∷ to_host proxy_ready ∷ [];
  }

  enters :
      (c : SandboxConfig) (text : String)
      → IsConfig page.platform config c
      → page.config_text ≡ some text
      → page.parse text ≡ ok config
      → page.is_top ≡ false
      → (c.host_origin == page.location) ≡ false
      → start_entry page ≡ ok (entered c)
  unfolding start_entry
  enters c text v there parsed framed apart =
      rw
        (
          there,
          parsed,
          (validate_sandbox_config_iff page.platform config c).1 v,
          v.snapshot,
          framed,
          starts page.platform config c page.location v apart,
        )
        refl

  -- A page that a service handed out always starts, and enforces what the service was created with.
  -- Where the service's configuration is data of JSON, the page's element has the text that the
  -- service put into it, that text is parsed back, and the page is framed by a window and lies at
  -- another origin than the host, the entry module starts a proxy, with no View yet, for the service's
  -- host origin, with the byte limits and the policy of the configuration, and the Permissions-Policy
  -- of the service's responses is that policy's.
  pub start_entry-IsEnforced :
      (s : Service)
      → create_sandbox_service build page.platform config entry notices limits ≡ ok s
      → json_copy config ≡ config
      → page.config_text ≡ some s.config_json
      → page.parse s.config_json ≡ ok (json_copy config)
      → page.is_top ≡ false
      → (s.host_origin == page.location) ≡ false
      → (e : Entered) × (start_entry page ≡ ok e) × IsEnforced s e
  start_entry-IsEnforced s created json there parsed framed apart =
      let served =
        create_sandbox_service-IsService build page.platform config entry notices limits s
          created in
      let c = served.approved in
      let v = served.checked in
      (
        entered c,
        enters c s.config_json v there (parsed ∙ ap ok json) framed (rw (← served.origin) apart),
        record {
          validated = (validate_sandbox_config_iff page.platform config c).1 v;
          host = sym served.origin;
          message_limit = v.message_limit;
          html_limit = v.html_limit;
          grants = v.policy_is;
          header = served.header;
          start = refl;
          effects = refl;
        },
      )
