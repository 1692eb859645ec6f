-- ===== src/Cli.antt =====
-- web/src/sandbox-cli.js, `runSandboxService` and `main` up to the listening server: from the
-- command line to a service whose files are verified.
pub mod Process
pub mod Startup
pub mod Stopping
use kestrel_feature_mcp.Prelude.{
  ℕ, String, not, Option, none, some, List, is_blank, ◌==◌, Outcome, ok, throw, Exception,
  type_error, foreign, ◌>>=◌, ◌>>◌, require, or_throw, if◌then◌else◌,
}
use kestrel_feature_mcp.Value.{Value, undefined, str}
use kestrel_feature_mcp.Platform.{Platform}
use kestrel_feature_mcp.Config.{Deployment, validate_deployment_config}
use kestrel_feature_mcp.Service.{Service, create_sandbox_service}
use kestrel_feature_mcp.Assets.{Files, Decoded, is_syntax_error, read_verified_sandbox_assets}

-- What the command takes from Node: the `--config` of `parseArgs`, files, and the listening of a
-- server at a port and a host.
pub record Node : Type 0 where
  pub files : Files
  pub config_option : List String → Outcome (Option String)
  pub read_text : String → Outcome String
  pub listen : ℕ → String → Outcome (Unit {0})

-- A listening server.
pub record Server : Type 0 where
  pub service : Service
  pub host : String
  pub port : ℕ

abbrev pub text_value : Option String → Value
text_value none = undefined
text_value (some s) = str s

abbrev pub given_option : Option String → Outcome String
given_option none = throw (type_error "Pass --config with a sandbox deployment JSON file")
given_option (some path) =
    if is_blank path
    then throw (type_error "Pass --config with a sandbox deployment JSON file")
    else ok path

-- The `catch` around `JSON.parse`.
unfoldable pub settle_deployment : Outcome Value → Outcome Value
settle_deployment (ok deployment) = ok deployment
settle_deployment (throw e) =
    if not (is_syntax_error e)
    then throw e
    else throw (type_error "Sandbox deployment configuration must contain valid JSON")

module _ (build_allow_attribute : List String → String) (p : Platform) (n : Node) where
  unfoldable pub run_sandbox_service : Value → Value → Value → Outcome Server
  run_sandbox_service deployment entry_javascript third_party_notices = do
    config ← validate_deployment_config p deployment
    service ←
        create_sandbox_service build_allow_attribute p config.sandbox.value entry_javascript
          third_party_notices config.http_limits
    n.listen config.port config.host
    ok (record { service = service; host = config.host; port = config.port })

  unfoldable pub main : List String → Outcome Server
  main args = do
    option ← n.config_option args
    path ← given_option option
    text ← n.read_text path
    deployment ← settle_deployment (n.files.parse text)
    assets ← read_verified_sandbox_assets n.files
    run_sandbox_service deployment (text_value assets.entry_javascript)
        (text_value assets.third_party_notices)
