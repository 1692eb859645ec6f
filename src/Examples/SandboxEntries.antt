-- ===== src/Examples/SandboxEntries.antt =====
-- The page of the tests' service, in a frame of the host.
use kestrel_feature_mcp.Prelude.{false, ◌≡◌, refl, some, [], ◌∷◌, ok, throw, type_error, error}
use kestrel_feature_mcp.Value.{obj, field, end, str, undefined}
use kestrel_feature_mcp.SandboxEntry.{
  Page, Entered, console_error, post, uncaught, start_entry, report_error,
}
use kestrel_feature_mcp.SandboxEntry.Enforcement.{IsEnforced, start_entry-IsEnforced}
use kestrel_feature_mcp.Examples.Fixture.{platform, config, build_allow}
use kestrel_feature_mcp.Examples.Services.{checked, service, create_service}

abbrev page : Page
page = record {
  platform = platform;
  config_text = some service.config_json;
  parse = λ text. ok config;
  location = "https://sandbox.example";
  is_top = false;
  teardown = ok;
}

start_entry-IsEnforced_example :
    (e : Entered) × (start_entry page ≡ ok e)
    × IsEnforced build_allow page config (str "run()") (str "notices") undefined service e
start_entry-IsEnforced_example =
    start_entry-IsEnforced build_allow page config (str "run()") (str "notices") undefined service
      create_service refl refl refl refl refl

-- A rejected resource is named, and the host is asked to tear the View down.
reported :
    report_error page checked (error "Sandbox HTML exceeds its byte limit")
    ≡ console_error "MCP Apps sandbox rejected a resource:" "Error"
      ∷ post
          (obj (
            field "jsonrpc" (str "2.0") (
              field "method"
                (str "ui/notifications/request-teardown")
                (field "params" (obj end) end))))
          (str "https://host.example")
      ∷ []
unfolding report_error
reported = refl

unreported :
    report_error
      (record page { teardown = λ v. throw (type_error "schema") })
      checked
      (type_error "text")
    ≡ console_error "MCP Apps sandbox rejected a resource:" "TypeError"
      ∷ uncaught (type_error "schema")
      ∷ []
unfolding report_error
unreported = refl
