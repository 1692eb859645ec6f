-- ===== src/Examples/AppViews.antt =====
-- The theorems on an app's View, at a View of the tests that opens, works and is closed.
use mathlib.Core.List.{Mem}
use kestrel_feature_mcp.Prelude.{
  true, ◌≡◌, refl, none, some, List, [], ◌∷◌, ◌++◌, all, All, ok, throw, error,
}
use kestrel_feature_mcp.Json.{◌<>◌}
use kestrel_feature_mcp.Value.{Value, obj, field, end, str, num, nonneg, member, get, has_own}
use kestrel_feature_mcp.Policy.{
  approve_sandbox_policy, approve_domain, allowed_origins, exact_origins, exact_origin, filterable,
  approve_devices,
}
use kestrel_feature_mcp.Transport.{create_transport, byte_limit}
use kestrel_feature_mcp.Launcher.{reference_text}
use kestrel_feature_mcp.AppReply.{Opened, pixels, read_opened, frame_of, clamp_height}
use kestrel_feature_mcp.AppState.{
  fulfilled, closed, AppView, delete, abort, close_bridge, remove_frame, Event, answered, connected,
  disposal, proceeding, bridge_closed, deleted, bridge_error, call_answered, sandbox_ready,
  view_initialized, input_sent, result_sent, resized, Lane, has_frame, when,
}
use kestrel_feature_mcp.AppView.{
  closing_text, view_path, query, open_frame, take_id, read_answer, answer, finish_opening,
  send_resource_of, sandbox_readied, resize, start_view, receive, connect_settled, input_settled,
  result_settled, step, mount_steps, mount_app, mounting,
}
use kestrel_feature_mcp.AppView.Soundness.{IsSound, mount_app-IsSound}
use kestrel_feature_mcp.AppView.Retirement.{is_quiet, mount_steps_disposed}
use kestrel_feature_mcp.AppView.Ownership.{mount_steps_closes, mount_steps_late}
use kestrel_feature_mcp.AppView.Bridging.{IsApproved}
use kestrel_feature_mcp.AppView.Approval.{mount_steps-IsApproved}
use kestrel_feature_mcp.Examples.Fixture.{platform, grants, build_allow}

abbrev lane : Lane
lane = record {
  reference = "AAAAAAAAAAAAAAAAAAAAAAAAAAAAAAAAAAAAAAAAAAA";
  session_id = "chat";
  location = "https://host.example";
  encode = λ s. s;
  clamp_fraction = λ s. pixels 64;
}

abbrev initial : Value
initial = obj (
    field "view_id" (str "BBBBBBBBBBBBBBBBBBBBBBBBBBBBBBBBBBBBBBBBBBB") (
      field "host_origin" (str "https://host.example") (
        field "sandbox_url" (str "https://cdn.example") (
          field "resource" (obj (field "html" (str "<p>hello</p>") end))
            (field "policy" grants (field "max_message_bytes" (num (nonneg 4096)) end))))))

abbrev working : List Event
working =
    answered true (ok initial)
    ∷ connected true (ok tt)
    ∷ sandbox_ready true
    ∷ view_initialized true
    ∷ input_sent true (ok tt)
    ∷ result_sent true (ok tt)
    ∷ resized (nonneg 40)
    ∷ []

-- The View after these events shows that it is ready, at the least height.
works :
    (mount_steps build_allow platform lane
      (mount_app build_allow platform lane true).0
      working).0.status
    ≡ "App ready."
unfolding mount_steps mount_app step receive answer read_answer take_id open_frame read_opened
    byte_limit approve_sandbox_policy approve_domain allowed_origins exact_origins exact_origin
    filterable approve_devices get has_own create_transport frame_of connect_settled finish_opening
    sandbox_readied send_resource_of start_view input_settled result_settled resize clamp_height
works = refl

mount_steps_disposed_example :
    let s =
      (mount_steps build_allow platform lane
        (mount_app build_allow platform lane true).0
        working).0 in
    let t = (step build_allow platform lane s disposal).0 in
    (t.retired ≡ true)
    × (t.frame ≡ none)
    × (all is_quiet
          (mount_steps build_allow platform lane t
            (call_answered 1 true (ok initial) ∷ bridge_error ∷ [])).1
        ≡ true)
mount_steps_disposed_example =
    mount_steps_disposed build_allow platform lane true working
      (call_answered 1 true (ok initial) ∷ bridge_error ∷ [])

abbrev unconfirmed : List Event
unconfirmed =
    disposal ∷ proceeding ∷ bridge_closed (ok tt) ∷ deleted (throw (error "unreachable")) ∷ []

-- What the tests' View was opened with.
abbrev opened : Opened
opened = record {
  initial = initial;
  url = record {
    href = "https://cdn.example/";
    protocol = "https:";
    origin = "https://cdn.example";
    username = "";
    password = "";
    pathname = "/";
    search = "";
    hash = "";
  };
  approved = record {
    csp = record {
      connect_domains = [];
      resource_domains = [];
      frame_domains = [];
      base_uri_domains = [];
    };
    permissions = [];
  };
}

abbrev open_view : AppView
open_view = record mounting {
  opening = fulfilled;
  view_id = some "BBBBBBBBBBBBBBBBBBBBBBBBBBBBBBBBBBBBBBBBBBB";
  bridge = some opened;
}

mount_steps_closes_example :
    let r =
      mount_steps build_allow platform lane open_view
        (disposal ∷ proceeding ∷ bridge_closed (ok tt) ∷ deleted (ok tt) ∷ []) in
    (r.0.cleanup ≡ closed)
    × (r.0.view_id ≡ none)
    × (r.0.status ≡ closing_text fulfilled)
    × (r.1
        ≡ abort
          ∷ close_bridge
          ∷ (when (has_frame open_view.frame) remove_frame
              ++ delete (
                  view_path build_allow platform lane "BBBBBBBBBBBBBBBBBBBBBBBBBBBBBBBBBBBBBBBBBBB"
                  <> query build_allow platform lane)
                ∷ []))
mount_steps_closes_example =
    mount_steps_closes build_allow platform lane open_view
      "BBBBBBBBBBBBBBBBBBBBBBBBBBBBBBBBBBBBBBBBBBB" refl refl refl refl

named :
    reference_text (member initial "view_id") ≡ some "BBBBBBBBBBBBBBBBBBBBBBBBBBBBBBBBBBBBBBBBBBB"
unfolding get has_own
named = refl

mounting-IsSound : IsSound mounting
unfolding mount_app
mounting-IsSound = mount_app-IsSound build_allow platform lane true

mount_steps_late_example :
    let r =
      mount_steps build_allow platform lane mounting
        (disposal ∷ answered true (ok initial) ∷ proceeding ∷ deleted (ok tt) ∷ []) in
    (r.0.cleanup ≡ closed)
    × (r.0.view_id ≡ none)
    × (r.0.bridge ≡ none)
    × (r.0.frame ≡ none)
    × (r.1
        ≡ abort
          ∷ delete (
              view_path build_allow platform lane "BBBBBBBBBBBBBBBBBBBBBBBBBBBBBBBBBBBBBBBBBBB"
              <> query build_allow platform lane)
          ∷ [])
mount_steps_late_example =
    mount_steps_late build_allow platform lane mounting true initial
      "BBBBBBBBBBBBBBBBBBBBBBBBBBBBBBBBBBBBBBBBBBB" mounting-IsSound refl refl named

mount_steps-IsApproved_example :
    All
      (IsApproved build_allow platform lane (λ e. Mem e working))
      (mount_steps build_allow platform lane (mount_app build_allow platform lane true).0 working).1
mount_steps-IsApproved_example = mount_steps-IsApproved build_allow platform lane true working
