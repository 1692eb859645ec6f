-- ===== src/Examples/Services.antt =====
-- The theorems on the configuration and the service at the tests' configuration, and requests.
use kestrel_feature_mcp.Prelude.{
  String, ◌≡◌, refl, Option, none, some, ok, join, split, trim, replace_all, ◌↔◌, nat_eq, lookup,
}
use kestrel_feature_mcp.Json.{stringify, ◌<>◌}
use kestrel_feature_mcp.Value.{str, get, has_own, structured_clone, undefined}
use kestrel_feature_mcp.Platform.{Url}
use kestrel_feature_mcp.Policy.{
  approve_sandbox_policy, approve_domain, allowed_origins, exact_origins, exact_origin, filterable,
  approve_devices, sandbox_permissions_policy, features, permission_entry,
}
use kestrel_feature_mcp.Config.{
  SandboxConfig, validate_sandbox_config, require_positive_safe_integer,
}
use kestrel_feature_mcp.Config.Validity.{IsConfig, validate_sandbox_config_iff}
use kestrel_feature_mcp.Service.{
  Service, Request, create_sandbox_service, merge_limits, inert_json, handle, page_head, page_tail,
}
use kestrel_feature_mcp.Service.Access.{is_served, handle-is_served}
use kestrel_feature_mcp.Service.Headers.{handle-allow_origin, handle_head}
use kestrel_feature_mcp.Service.Inert.{IsService, create_sandbox_service-IsService}
use kestrel_feature_mcp.Examples.Fixture.{platform, grants, config, build_allow, site}

abbrev pub checked : SandboxConfig
checked = record {
  value = config;
  host_origin = "https://host.example";
  max_message_bytes = 4096;
  max_html_bytes = 1024;
  policy = grants;
}

validate_sandbox_config_iff_example :
    (validate_sandbox_config platform config ≡ ok checked) ↔ IsConfig platform config checked
validate_sandbox_config_iff_example = validate_sandbox_config_iff platform config checked

validate_config : validate_sandbox_config platform config ≡ ok checked
unfolding validate_sandbox_config structured_clone require_positive_safe_integer
    approve_sandbox_policy approve_domain allowed_origins exact_origins exact_origin filterable
    approve_devices get has_own
validate_config = refl

abbrev json : String
json =
    "{\"hostOrigin\":\"https://host.example\",\"maxMessageBytes\":4096,\"maxHtmlBytes\":1024,\"policy\":{\"connectDomains\":[\"https://cdn.example\"],\"permissions\":[\"camera\"]}}"

abbrev pub service : Service
service = record {
  host_origin = "https://host.example";
  config_json = json;
  html = page_head <> json <> page_tail;
  permission_policy = "camera=*, microphone=(), geolocation=(), clipboard-write=()";
  entry_javascript = "run()";
  third_party_notices = "notices";
  limits = record {
    max_header_bytes = 16384;
    request_timeout_ms = 5000;
    headers_timeout_ms = 5000;
    keep_alive_timeout_ms = 5000;
  };
}

pub create_service :
    create_sandbox_service build_allow platform config (str "run()") (str "notices") undefined
    ≡ ok service
unfolding create_sandbox_service merge_limits inert_json stringify replace_all
    sandbox_permissions_policy features permission_entry join split trim validate_sandbox_config
    structured_clone require_positive_safe_integer approve_sandbox_policy approve_domain
    allowed_origins exact_origins exact_origin filterable approve_devices get has_own
create_service = refl

create_sandbox_service-IsService_example :
    IsService build_allow platform config (str "run()") (str "notices") undefined service
create_sandbox_service-IsService_example =
    create_sandbox_service-IsService build_allow platform config (str "run()") (str "notices")
      undefined service create_service

abbrev request : Request
request = record {
  method = "GET";
  url = "/config";
  cookie = none;
  authorization = none;
  x_api_key = none;
  transfer_encoding = none;
  content_length = none;
  origin = some "https://host.example";
}

-- Targets on the invalid base, without queries.
abbrev resolve : String → Option Url
resolve path = some (record (site "http:" "http://sandbox.invalid") { pathname = path })

handle-is_served_example :
    nat_eq (handle service request resolve).status 200 ≡ is_served service request resolve
handle-is_served_example = handle-is_served service request resolve

handle-allow_origin_example :
    lookup "Access-Control-Allow-Origin" (handle service request resolve).headers
    ≡ some "https://host.example"
handle-allow_origin_example = handle-allow_origin service request resolve

handle_head_example :
    let head = handle service (record request { method = "HEAD" }) resolve in
    let get = handle service (record request { method = "GET" }) resolve in
    (head.status ≡ get.status)
    × (head.headers ≡ get.headers)
    × (head.body ≡ none)
    × ((body : String) × (get.body ≡ some body))
handle_head_example = handle_head service request resolve
