-- ===== src/SandboxEntry.antt =====
-- web/src/sandbox-entry.js: the module of the sandbox's page, which starts the proxy with the page's
-- configuration and asks the host to tear down what the proxy rejects.
pub mod Enforcement
use Prim.Native.String
use kestrel_feature_mcp.Prelude.{
  String, Bool, Option, none, some, List, [], ◌∷◌, Outcome, ok, throw, Exception, type_error,
  range_error, error, foreign, ◌>>=◌, or_throw, ◌==◌, if◌then◌else◌,
}
use kestrel_feature_mcp.Json.{◌<>◌}
use kestrel_feature_mcp.Value.{Value, func, str, obj, Fields, end, field, member, own}
use kestrel_feature_mcp.Platform.{Platform}
use kestrel_feature_mcp.Config.{SandboxConfig, validate_sandbox_config}
use kestrel_feature_mcp.Proxy.{Settings, Proxy, Effect, Options, start_sandbox_proxy}

-- What the module takes from the browser and the SDK: the text of the element `sandbox-config`, where
-- there is one, `JSON.parse`, the origin of the page, whether it is its own parent, and the reading of
-- `McpUiRequestTeardownNotificationSchema`.
pub record Page : Type 0 where
  pub platform : Platform
  pub config_text : Option String
  pub parse : String → Outcome Value
  pub location : String
  pub is_top : Bool
  pub teardown : Value → Outcome Value

-- The page once its proxy runs: the configuration that `onerror` closes over, and the proxy.
pub record Entered : Type 0 where
  pub config : SandboxConfig
  pub settings : Settings
  pub proxy : Proxy
  pub effects : List Effect

-- What `onerror` does: it writes to the console, posts a message to the parent for an origin, and may
-- throw.
pub data Report : Type 0 where
  console_error : String → String → Report
  post : Value → Value → Report
  uncaught : Exception → Report

-- `{ ...config, onerror }`
abbrev pub entry_options : Value → Options
entry_options config = record {
  host_origin = member config "hostOrigin";
  max_message_bytes = member config "maxMessageBytes";
  max_html_bytes = member config "maxHtmlBytes";
  policy = member config "policy";
  onerror = func;
}

abbrev pub error_name : Exception → String
error_name (type_error message) = "TypeError"
error_name (range_error message) = "RangeError"
error_name (error message) = "Error"
error_name (foreign name) = name

-- The fields of an object that `...` adds to others.
abbrev pub put_field : String → Value → Fields → Fields
put_field key v end = field key v end
put_field key v (field k w fs) =
    let rest = put_field key v fs in if k == key then field k v fs else field k w rest

abbrev pub spread : Fields → Fields → Fields
spread fs end = fs
spread fs (field k v gs) = spread (put_field k v fs) gs

abbrev notification_fields : Value → Fields
notification_fields (obj fs) = fs
notification_fields v = end

abbrev pub teardown_request : Value
teardown_request =
    obj (field "method" (str "ui/notifications/request-teardown") (field "params" (obj end) end))

module _ (page : Page) where
  unfoldable pub start_entry : Outcome Entered
  start_entry = do
    text ←
        or_throw page.config_text
          (type_error "Cannot read properties of null (reading 'textContent')")
    value ← page.parse text
    config ← validate_sandbox_config page.platform value
    (settings, proxy, effects) ←
        start_sandbox_proxy page.platform page.location page.is_top (entry_options config.value)
    ok (record { config = config; settings = settings; proxy = proxy; effects = effects })

  unfoldable pub report_error : SandboxConfig → Exception → List Report
  report_error config e =
      console_error "MCP Apps sandbox rejected a resource:" (error_name e)
      ∷ (elim (page.teardown teardown_request) [
        | ok notification ↦
            post (obj (spread (field "jsonrpc" (str "2.0") end) (notification_fields notification)))
              (member config.value "hostOrigin")
            ∷ []
        | throw x ↦ uncaught x ∷ []
      ])
