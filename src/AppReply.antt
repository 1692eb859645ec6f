-- ===== src/AppReply.antt =====
-- web/src/parent-view.js: what `mountMCPApp` reads in the host's answer to an opening, and in the
-- View's tool calls.
use kestrel_feature_mcp.Prelude.{
  ℕ, String, Bool, true, false, not, ◌&&◌, ◌||◌, Option, none, some, List, [], ◌∷◌, ltb, includes,
  is_blank, ◌==◌, Outcome, ok, throw, ◌>>=◌, ◌>>◌, require, or_throw, error, type_error,
  if◌then◌else◌,
}
use kestrel_feature_mcp.Json.{stringify}
use kestrel_feature_mcp.Value.{
  Number, nonneg, negative, float, Value, undefined, null, str, arr, obj, cons, end, field,
  all_keys, member, is_text, is_truthy,
}
use kestrel_feature_mcp.Platform.{Platform, Url}
use kestrel_feature_mcp.Policy.{Approved, approve_sandbox_policy, is_http}
use kestrel_feature_mcp.Launcher.{reference_text}

-- A number of pixels; `fractional` is the text of one that is no integer.
pub data Height : Type 0 where
  pixels : ℕ → Height
  fractional : String → Height

-- The frame of the sandbox, with its attributes; `src` is set when the bridge is connected.
pub record Frame : Type 0 where
  pub title : String
  pub referrer_policy : String
  pub sandbox : String
  pub allow : String
  pub width : String
  pub height : Height
  pub border : String
  pub src : Option String

-- `?? {}`
abbrev pub or_empty : Value → Value
or_empty undefined = obj end
or_empty null = obj end
or_empty v = v

-- What an accepted answer gives.
pub record Opened : Type 0 where
  pub initial : Value
  pub url : Url
  pub approved : Approved

abbrev pub is_sandbox_url : String → Url → Bool
is_sandbox_url location url = not (
    not (is_blank url.username)
    || not (is_blank url.password)
    || not (is_blank url.search)
    || not (is_blank url.hash)
    || url.origin == location
    || not (is_http url.protocol))

-- `initial.resource?._meta?.ui ?? {}`
abbrev pub ui_of : Value → Value
ui_of initial = or_empty (member (member (member initial "resource") "_meta") "ui")

-- The checks between the View's id and its frame, in a console of the given origin.
unfoldable pub read_opened : Platform → String → Bool → Value → Outcome Opened
read_opened p location is_current initial = do
  require is_current (error "The original App chat is no longer active")
  require (is_text (member initial "host_origin") location)
      (type_error "The App host origin does not match this console")
  url ← or_throw (p.new_url (member initial "sandbox_url")) (type_error "Invalid URL")
  require (is_sandbox_url location url)
      (type_error "The App sandbox requires a different credential-free origin")
  approved ←
      approve_sandbox_policy p (member (ui_of initial) "csp") (member (ui_of initial) "permissions")
        (member initial "policy")
  ok (record { initial = initial; url = url; approved = approved })

unfoldable pub frame_of : (List String → String) → Approved → Frame
frame_of build_allow_attribute approved = record {
  title = "MCP App";
  referrer_policy = "no-referrer";
  sandbox = "allow-scripts allow-same-origin";
  allow = build_allow_attribute approved.permissions;
  width = "100%";
  height = pixels 360;
  border = "0";
  src = none;
}

-- Every key that `Object.keys` gives passes a test; the indices of texts and arrays do not.
abbrev pub has_only_keys : (String → Bool) → Value → Bool
has_only_keys test (obj fs) = all_keys test fs
has_only_keys test (arr (cons v vs)) = false
has_only_keys test (str s) = is_blank s
has_only_keys test v = true

abbrev pub call_keys : List String
call_keys = "name" ∷ "arguments" ∷ "_meta" ∷ []

-- `JSON.stringify(v)` of an object, which has a JSON text.
abbrev pub json_text : Value → String
json_text v = elim (stringify v) [ none ↦ "" | some s ↦ s ]

-- The body of a tool call.
unfoldable pub call_body : Value → String → Outcome String
call_body params operation_id = do
  require (is_truthy params && has_only_keys (includes call_keys) params) (
      type_error
        "This App host supports ordinary governed tool calls; Tasks require separate host support")
  ok (
      json_text (
        obj (
          field "name" (member params "name") (
            field "arguments" (or_empty (member params "arguments"))
              (field "operation_id" (str operation_id) end)))))

-- `Number.isFinite(height)`, and the height between 64 and 2048; the clamping of a number that is no
-- integer is a parameter.
unfoldable pub clamp_height : (String → Height) → Number → Option Height
clamp_height clamp_fraction (nonneg n) =
    some (if ltb 2048 n then pixels 2048 else if ltb n 64 then pixels 64 else pixels n)
clamp_height clamp_fraction (negative n) = some (pixels 64)
clamp_height clamp_fraction (float s) =
    if s == "NaN" || s == "Infinity" || s == "-Infinity" then none else some (clamp_fraction s)

-- The checks of the call's arguments, of which two are functions: the reference and the session.
unfoldable pub check_arguments : Value → Value → Bool → Bool → Outcome (String × String)
check_arguments reference (str session_id) has_request has_current = do
  text ←
      or_throw (reference_text reference)
        (type_error "An original chat and authenticated App request lane are required")
  require (not (is_blank session_id) && has_request && has_current)
      (type_error "An original chat and authenticated App request lane are required")
  ok (text, session_id)
check_arguments reference session_id has_request has_current =
    throw (type_error "An original chat and authenticated App request lane are required")
