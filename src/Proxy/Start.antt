-- ===== src/Proxy/Start.antt =====
-- What a proxy that starts was given.
use kestrel_feature_mcp.Prelude.{◌≤◌, ◌<◌, String, Bool, true, false, ◌≡◌, ◌==◌}
use kestrel_feature_mcp.Value.{Value, nonneg, num, str, max_safe_integer}
use kestrel_feature_mcp.Platform.{Platform}
use kestrel_feature_mcp.Policy.Acceptance.{is_policy}
use kestrel_feature_mcp.Proxy.{Settings, Proxy, Options}

module _ (p : Platform) where
  -- A start in a window of an origin, which may be its own parent.
  pub record IsStarted (location : String) (is_top : Bool) (o : Options) (g : Settings)
      : Type 0 where
    pub host : o.host_origin ≡ str g.host_origin
    pub foreign_host : (g.host_origin == location) ≡ false
    pub framed : is_top ≡ false
    pub message_limit : o.max_message_bytes ≡ num (nonneg g.max_message_bytes)
    pub message_range : (0 < g.max_message_bytes) × (g.max_message_bytes ≤ max_safe_integer)
    pub html_limit : o.max_html_bytes ≡ num (nonneg g.max_html_bytes)
    pub html_range : (0 < g.max_html_bytes) × (g.max_html_bytes ≤ max_safe_integer)
    pub snapshot : g.grants ≡ o.policy
    pub granted : is_policy p g.grants ≡ true
