-- ===== src/Config.antt =====
-- web/src/sandbox-config.js, and `validateDeploymentConfig` of web/src/sandbox-cli.js.
pub mod Validity
pub mod Listening
use kestrel_feature_mcp.Prelude.{
  ℕ, zero, suc, String, Bool, false, not, ◌&&◌, ◌||◌, List, [], ◌∷◌, leb, includes, is_blank, trim,
  ◌==◌, Outcome, ok, throw, ◌>>=◌, ◌>>◌, require, or_throw, type_error, if◌then◌else◌,
}
use kestrel_feature_mcp.Json.{◌<>◌}
use kestrel_feature_mcp.Value.{
  Number, nonneg, Value, obj, str, num, end, member, get, is_text, is_object_with, structured_clone,
  max_safe_integer,
}
use kestrel_feature_mcp.Platform.{Platform}
use kestrel_feature_mcp.Policy.{is_http, approve_sandbox_policy}

-- `Number.isSafeInteger(v) && v > 0`, with the number.
unfoldable pub require_positive_safe_integer : Value → String → Outcome ℕ
require_positive_safe_integer (num (nonneg (suc n))) name =
    if leb (suc n) max_safe_integer
    then ok (suc n)
    else throw (type_error (name <> " must be a positive safe integer"))
require_positive_safe_integer v name =
    throw (type_error (name <> " must be a positive safe integer"))

abbrev pub config_keys : List String
config_keys = "hostOrigin" ∷ "maxMessageBytes" ∷ "maxHtmlBytes" ∷ "policy" ∷ []

-- A validated configuration: the clone that `validateSandboxConfig` returns, and its fields, read
-- at the types that the checks establish.
pub record SandboxConfig : Type 0 where
  pub value : Value
  pub host_origin : String
  pub max_message_bytes : ℕ
  pub max_html_bytes : ℕ
  pub policy : Value

abbrev pub deployment_keys : List String
deployment_keys = "listen" ∷ "sandbox" ∷ "httpLimits" ∷ []

-- A validated deployment; `http_limits` is left to the service, as in the code.
pub record Deployment : Type 0 where
  pub host : String
  pub port : ℕ
  pub sandbox : SandboxConfig
  pub http_limits : Value

-- A text that is not blank, with no space at its ends.
abbrev pub is_trimmed : Value → Bool
is_trimmed (str s) = not (is_blank (trim s)) && s == trim s
is_trimmed v = false

abbrev pub text_of : Value → String
text_of (str s) = s
text_of v = ""

unfoldable pub listener_port : Value → Outcome ℕ
listener_port (num (nonneg n)) =
    if leb n 65535
    then ok n
    else throw (type_error "Sandbox listener port must be an integer between 0 and 65535")
listener_port v = throw (type_error "Sandbox listener port must be an integer between 0 and 65535")

module _ (p : Platform) where
  unfoldable pub validate_sandbox_config : Value → Outcome SandboxConfig
  validate_sandbox_config value = do
    require (is_object_with (includes config_keys) value)
        (type_error "Sandbox configuration contains unsupported fields")
    config ← structured_clone value
    host ← or_throw (p.new_url (member config "hostOrigin")) (type_error "Invalid URL")
    require (is_http host.protocol && is_text (member config "hostOrigin") host.origin)
        (type_error "Sandbox hostOrigin must be an exact HTTP(S) origin")
    message_bytes ←
        require_positive_safe_integer (member config "maxMessageBytes") "Sandbox maxMessageBytes"
    html_bytes ← require_positive_safe_integer (member config "maxHtmlBytes") "Sandbox maxHtmlBytes"
    approve_sandbox_policy p (obj end) (obj end) (member config "policy") >>= λ _. ok tt
    ok (record {
      value = config;
      host_origin = host.origin;
      max_message_bytes = message_bytes;
      max_html_bytes = html_bytes;
      policy = member config "policy";
    })

  unfoldable pub validate_deployment_config : Value → Outcome Deployment
  validate_deployment_config value = do
    require (is_object_with (includes deployment_keys) value)
        (type_error "Sandbox deployment configuration contains unsupported fields")
    config ← structured_clone value
    require
        (is_object_with (includes ("host" ∷ "port" ∷ [])) (member config "listen")
          && is_trimmed (member (member config "listen") "host"))
        (type_error "Sandbox listener requires an explicit host and port")
    port ← listener_port (member (member config "listen") "port")
    sandbox ← validate_sandbox_config (member config "sandbox")
    ok (record {
      host = text_of (member (member config "listen") "host");
      port = port;
      sandbox = sandbox;
      http_limits = member config "httpLimits";
    })
