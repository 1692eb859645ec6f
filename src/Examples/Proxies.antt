-- ===== src/Examples/Proxies.antt =====
-- The theorems on the proxy at a start of the tests' proxy.
use kestrel_feature_mcp.Prelude.{
  ◌+◌, ◌≤◌, String, true, false, ◌≡◌, refl, none, some, List, [], ◌∷◌, ok, All, utf16_length, arith,
  if◌then◌else◌,
}
use kestrel_feature_mcp.Json.{stringify}
use kestrel_feature_mcp.Value.{Value, Fields, obj, field, end, str, num, nonneg, func}
use kestrel_feature_mcp.Platform.{ResourceReady}
use kestrel_feature_mcp.Transport.{validate_message}
use kestrel_feature_mcp.Proxy.{
  Settings, initialized, Proxy, to_host, to_view, mount, Event, message, view_load, disposal,
  is_reserved, host_window, view_window, fresh, play, view_of,
}
use kestrel_feature_mcp.Proxy.{Options}
use kestrel_feature_mcp.Proxy.Handshake.{
  IsHistory, HasCrossed, crossings, play-IsHistory, play-HasCrossed,
}
use kestrel_feature_mcp.Proxy.Errors.{ends_at_report, IsShown, play-ends_at_report, play-IsShown}
use kestrel_feature_mcp.Proxy.Closing.{mounts, unlistens, room, play_once}
use kestrel_feature_mcp.Proxy.Progress.{IsStart, play_handshake}
use kestrel_feature_mcp.Proxy.Relay.{Letter, outward, inward, stray, play_relays}
use kestrel_feature_mcp.Examples.Fixture.{platform, grants, build_allow}
use kestrel_feature_mcp.Examples.Policies.{requested, permissions, approved, approve_requested}

abbrev settings : Settings
settings = record {
  host_origin = "https://host.example";
  max_message_bytes = 4096;
  max_html_bytes = 1024;
  grants = grants;
}

abbrev options : Options
options = record {
  host_origin = str "https://host.example";
  max_message_bytes = num (nonneg 4096);
  max_html_bytes = num (nonneg 1024);
  policy = grants;
  onerror = func;
}

abbrev named : String → Fields → Value
named method rest = obj (field "jsonrpc" (str "2.0") (field "method" (str method) rest))

abbrev resource : Value
resource = named "ui/notifications/sandbox-resource-ready" (
    field "params"
      (obj (
        field "html" (str "<p>View</p>")
          (field "csp" requested (field "permissions" permissions end))))
      end)

abbrev opening : Value
opening = named "ui/initialize" (field "id" (num (nonneg 1)) end)

abbrev answer : Value
answer = obj (field "id" (num (nonneg 1)) (field "result" (obj end) end))

abbrev notice : Value
notice = named "ui/notifications/initialized" end

abbrev events : List Event
events =
    message host_window "https://host.example" resource
    ∷ view_load
    ∷ message view_window "null" opening
    ∷ message host_window "https://host.example" answer
    ∷ message view_window "null" notice
    ∷ view_load
    ∷ disposal
    ∷ []

play-IsHistory_example :
    IsHistory build_allow platform settings
      (play build_allow platform settings fresh events).0
      (crossings (play build_allow platform settings fresh events).1)
play-IsHistory_example = play-IsHistory build_allow platform settings events

play-ends_at_report_example :
    ends_at_report (play build_allow platform settings fresh events).1 ≡ true
play-ends_at_report_example = play-ends_at_report build_allow platform settings fresh events

play-HasCrossed_example :
    All
      (HasCrossed build_allow platform settings)
      (play build_allow platform settings fresh events).1
play-HasCrossed_example = play-HasCrossed build_allow platform settings fresh events

play-IsShown_example :
    All
      (IsShown build_allow platform settings events)
      (play build_allow platform settings fresh events).1
play-IsShown_example = play-IsShown build_allow platform settings fresh events

play_once_example :
    (mounts (play build_allow platform settings fresh events).1
        + room (play build_allow platform settings fresh events).0
      ≤ 1)
    × (unlistens (play build_allow platform settings fresh events).1
        ≡ (if (play build_allow platform settings fresh events).0.closed then 1 else 0))
play_once_example = play_once build_allow platform settings events

abbrev params : ResourceReady
params = record { html = "<p>View</p>"; sandbox = none; csp = requested; permissions = permissions }

start : IsStart build_allow platform settings resource opening answer notice
unfolding validate_message stringify utf16_length is_reserved
start = record {
  ready = resource;
  params = params;
  approved = approved;
  request = opening;
  result = answer;
  done = notice;
  reads_ready = (refl, refl);
  names_ready = refl;
  parsed = refl;
  within = omega arith;
  opaque = refl;
  granted = approve_requested;
  reads_request = (refl, refl);
  names_request = refl;
  has_id = refl;
  reads_result = (refl, refl);
  same_id = refl;
  has_result = refl;
  reads_notice = (refl, refl);
  is_notice = refl;
}

play_handshake_example :
    play build_allow platform settings fresh (
      message host_window "https://host.example" resource
      ∷ message view_window "null" opening
      ∷ message host_window "https://host.example" answer
      ∷ message view_window "null" notice
      ∷ [])
    ≡ (
      record {
        view = some (view_of build_allow platform settings params approved);
        closed = false;
        initialize_id = num (nonneg 1);
        phase = initialized;
      },
      mount (view_of build_allow platform settings params approved)
          ∷ to_host opening
          ∷ to_view answer
          ∷ to_host notice
          ∷ [],
    )
unfolding start
play_handshake_example =
    play_handshake build_allow platform settings resource opening answer notice start

-- The proxy after that start, and a call of the View's.
abbrev running : Proxy
running = record {
  view = some (view_of build_allow platform settings params approved);
  closed = false;
  initialize_id = num (nonneg 1);
  phase = initialized;
}

abbrev ping : Value
ping = named "ping" (field "id" (num (nonneg 2)) end)

reads_ping : validate_message platform ping 4096 ≡ ok ping
unfolding validate_message stringify utf16_length
reads_ping = refl

names_ping : is_reserved (str "ping") ≡ ok false
unfolding is_reserved
names_ping = refl

abbrev letters : List (Letter build_allow platform settings)
letters =
    outward ping ping (reads_ping, names_ping)
    ∷ stray host_window "https://other.example" ping refl
    ∷ inward ping ping (reads_ping, names_ping)
    ∷ []

play_relays_example :
    play build_allow platform settings fresh (
      message host_window "https://host.example" resource
      ∷ message view_window "null" opening
      ∷ message host_window "https://host.example" answer
      ∷ message view_window "null" notice
      ∷ message view_window "null" ping
      ∷ message host_window "https://other.example" ping
      ∷ message host_window "https://host.example" ping
      ∷ [])
    ≡ (
      running,
      mount (view_of build_allow platform settings params approved)
          ∷ to_host opening
          ∷ to_view answer
          ∷ to_host notice
          ∷ to_host ping
          ∷ to_view ping
          ∷ [],
    )
unfolding start
play_relays_example =
    play_relays build_allow platform settings resource opening answer notice start letters
