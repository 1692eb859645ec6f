-- ===== src/Platform.antt =====
-- What the code takes from the browser, Node and the MCP Apps SDK.
use kestrel_feature_mcp.Prelude.{String, Bool, Option}
use kestrel_feature_mcp.Value.{Value}

-- The parts of a parsed `URL` that the code reads.
pub record Url : Type 0 where
  pub href : String
  pub protocol : String
  pub origin : String
  pub username : String
  pub password : String
  pub pathname : String
  pub search : String
  pub hash : String

-- What `McpUiSandboxResourceReadyNotificationSchema` makes of a message's `params`.
pub record ResourceReady : Type 0 where
  pub html : String
  pub sandbox : Option String
  pub csp : Value
  pub permissions : Value

pub record Platform : Type 0 where
  pub new_url : Value → Option Url  -- `new URL(v)`; `none` is its TypeError
  pub json_value : Value → Option Value  -- `JSONValueSchema.safeParse`
  pub rpc_message : Value → Option Value  -- `JSONRPCMessageSchema.safeParse`
  pub resource_ready : Value → Option ResourceReady  -- `…ResourceReadyNotificationSchema.parse`
  pub is_initialized : Value → Bool  -- `McpUiInitializedNotificationSchema.safeParse(m).success`
  pub outer_html : String → String  -- `outerHTML` of a CSP `meta` element with this content
