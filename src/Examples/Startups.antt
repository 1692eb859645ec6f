-- ===== src/Examples/Startups.antt =====
-- The theorems on the packaged files and the command at the tests' deployment.
use kestrel_feature_mcp.Prelude.{
  String, false, ◌≡◌, refl, Option, none, some, [], ◌∷◌, ok, throw, error, type_error, foreign, ◌↔◌,
  if◌then◌else◌, ◌==◌, join, split, trim, replace_all, Outcome,
}
use kestrel_feature_mcp.Json.{stringify, ◌<>◌}
use kestrel_feature_mcp.Value.{
  Value, obj, field, end, str, num, nonneg, undefined, get, has_own, structured_clone,
}
use kestrel_feature_mcp.Policy.{
  approve_sandbox_policy, approve_domain, allowed_origins, exact_origins, exact_origin, filterable,
  approve_devices, sandbox_permissions_policy, features, permission_entry,
}
use kestrel_feature_mcp.Config.{
  Deployment, validate_deployment_config, listener_port, validate_sandbox_config,
  require_positive_safe_integer,
}
use kestrel_feature_mcp.Config.Listening.{IsDeployment, validate_deployment_config_iff}
use kestrel_feature_mcp.Service.{create_sandbox_service, merge_limits, inert_json}
use kestrel_feature_mcp.Assets.{
  Bytes, Files, Decoded, settle_manifest, keep, verify_assets, read_verified_sandbox_assets,
}
use kestrel_feature_mcp.Assets.Integrity.{IsAuthentic, read_verified_sandbox_assets-IsAuthentic}
use kestrel_feature_mcp.Cli.{Node, Server, settle_deployment, run_sandbox_service, main}
use kestrel_feature_mcp.Cli.Process.{
  sigterm, sigint, signal, close_settled, close_server, close_connections, default_action,
  listening, stop, step, run, report_start,
}
use kestrel_feature_mcp.Cli.Startup.{IsRunning, main-IsRunning}
use kestrel_feature_mcp.Examples.Fixture.{platform, config, build_allow}
use kestrel_feature_mcp.Examples.Services.{checked, service}

abbrev deployment_value : Value
deployment_value = obj (
    field "listen" (obj (field "host" (str "127.0.0.1") (field "port" (num (nonneg 8080)) end)))
      (field "sandbox" config end))

abbrev deployment : Deployment
deployment = record { host = "127.0.0.1"; port = 8080; sandbox = checked; http_limits = undefined }

validate_deployment : validate_deployment_config platform deployment_value ≡ ok deployment
unfolding validate_deployment_config listener_port trim validate_sandbox_config structured_clone
    require_positive_safe_integer approve_sandbox_policy approve_domain allowed_origins
    exact_origins exact_origin filterable approve_devices get has_own
validate_deployment = refl

validate_deployment_config_iff_example :
    (validate_deployment_config platform deployment_value ≡ ok deployment)
    ↔ IsDeployment platform deployment_value deployment
validate_deployment_config_iff_example =
    validate_deployment_config_iff platform deployment_value deployment

-- Files of one, two and three bytes, and hashes that tell them apart.
abbrev read_file : String → Outcome Bytes
read_file name =
    if name == "sandbox-entry.js"
    then ok (1 ∷ [])
    else if name == "sandbox-service.mjs"
    then ok (1 ∷ 2 ∷ [])
    else if name == "THIRD_PARTY_NOTICES.txt"
    then ok (1 ∷ 2 ∷ 3 ∷ [])
    else throw (error "ENOENT")

abbrev zeros : String
zeros = "000000000000000000000000000000000000000000000000000000000000000"

abbrev digest : Bytes → String
digest (a ∷ []) = zeros <> "1"
digest (a ∷ b ∷ []) = zeros <> "2"
digest (a ∷ b ∷ c ∷ []) = zeros <> "3"
digest bytes = zeros <> "f"

abbrev decode_bytes : Bytes → Option String
decode_bytes (a ∷ []) = some "run()"
decode_bytes (a ∷ b ∷ c ∷ []) = some "notices"
decode_bytes bytes = none

abbrev manifest : Value
manifest = obj (
    field "format" (num (nonneg 1)) (
      field "assets"
        (obj (
          field "sandbox-entry.js" (str (zeros <> "1")) (
            field "sandbox-service.mjs" (str (zeros <> "2"))
              (field "THIRD_PARTY_NOTICES.txt" (str (zeros <> "3")) end))))
        end))

abbrev files : Files
files = record {
  manifest_text = ok "manifest";
  parse = λ text.
      if text == "manifest"
      then ok manifest
      else if text == "deployment"
      then ok deployment_value
      else throw (foreign "SyntaxError");
  is_missing = λ e. false;
  read = read_file;
  sha256 = digest;
  decode = decode_bytes;
}

abbrev texts : Decoded
texts = record { entry_javascript = some "run()"; third_party_notices = some "notices" }

verified_texts : read_verified_sandbox_assets files ≡ ok texts
unfolding read_verified_sandbox_assets settle_manifest verify_assets keep
verified_texts = refl

-- A file that is not the listed one is refused.
refused_text :
    read_verified_sandbox_assets (record files { read = λ name. ok (1 ∷ 2 ∷ []) })
    ≡ throw (error "Sandbox packaged asset failed integrity verification: sandbox-entry.js")
unfolding read_verified_sandbox_assets settle_manifest verify_assets
refused_text = refl

read_verified_sandbox_assets-IsAuthentic_example : IsAuthentic files texts
read_verified_sandbox_assets-IsAuthentic_example =
    read_verified_sandbox_assets-IsAuthentic files texts verified_texts

abbrev node : Node
node = record {
  files = files;
  config_option = λ args. ok (some "sandbox.json");
  read_text = λ path. ok "deployment";
  listen = λ port host. ok tt;
}

abbrev server : Server
server = record { service = service; host = "127.0.0.1"; port = 8080 }

main_starts : main build_allow platform node [] ≡ ok server
unfolding main settle_deployment run_sandbox_service read_verified_sandbox_assets settle_manifest
    verify_assets keep create_sandbox_service merge_limits inert_json stringify replace_all
    sandbox_permissions_policy features permission_entry join split validate_deployment_config
    listener_port trim validate_sandbox_config structured_clone require_positive_safe_integer
    approve_sandbox_policy approve_domain allowed_origins exact_origins exact_origin filterable
    approve_devices get has_own
main_starts = refl

main-IsRunning_example : IsRunning build_allow platform node server
main-IsRunning_example = main-IsRunning build_allow platform node [] server main_starts

-- A first signal closes the server; a second one has its default effect.
stopped :
    (run listening (signal sigterm ∷ close_settled none ∷ signal sigint ∷ [])).1
    ≡ close_server ∷ close_connections ∷ default_action sigint ∷ []
unfolding run step stop
stopped = refl

failed_start :
    report_start
      (λ name. "")
      (throw (type_error "Pass --config with a sandbox deployment JSON file"))
    ≡ (
      some
          "{\"level\":\"error\",\"event\":\"mcp-apps-sandbox-start-failed\",\"name\":\"TypeError\",\"message\":\"Pass --config with a sandbox deployment JSON file\"}",
      some 1,
    )
unfolding report_start stringify
failed_start = refl
