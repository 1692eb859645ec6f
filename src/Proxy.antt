-- ===== src/Proxy.antt =====
-- web/src/sandbox-proxy.js, `startSandboxProxy`: the window between the host and one View, as a
-- machine that answers each event of its window by a list of effects.
pub mod Steps
pub mod Handshake
pub mod Closing
pub mod Errors
pub mod Progress
pub mod Relay
pub mod Start
use Prim.Native.String
use kestrel_feature_mcp.Prelude.{
  ℕ, zero, suc, ◌+◌, String, Bool, true, false, not, ◌&&◌, ◌||◌, Option, none, some, List, [], ◌∷◌,
  ◌++◌, ltb, leb, utf8_length, ◌==◌, Outcome, ok, throw, Exception, error, range_error, foreign,
  ◌>>=◌, ◌>>◌, require, or_throw, type_error, if◌then◌else◌,
}
use text.Mathlib.Text.{starts_with}
use kestrel_feature_mcp.Json.{◌<>◌}
use kestrel_feature_mcp.Value.{
  Number, nonneg, Value, undefined, null, obj, str, num, func, end, field, member, has_key, is_text,
  is_truthy, strictly_equal, structured_clone, max_safe_integer,
}
use kestrel_feature_mcp.Platform.{Platform, ResourceReady}
use kestrel_feature_mcp.Policy.{
  reserved, Approved, approve_sandbox_policy, exact_origin, sandbox_csp,
}
use kestrel_feature_mcp.Transport.{validate_message}

-- What a started proxy was given, with the clone of its policy.
pub record Settings : Type 0 where
  pub host_origin : String
  pub max_message_bytes : ℕ
  pub max_html_bytes : ℕ
  pub grants : Value

pub data Phase : Type 0 where
  empty loaded initializing responded initialized : Phase

-- The View's frame with its attributes, and how often it has loaded.
pub record View : Type 0 where
  pub sandbox : String
  pub referrer_policy : String
  pub style : String
  pub allow : String
  pub srcdoc : String
  pub loads : ℕ

pub record Proxy : Type 0 where
  pub view : Option View
  pub closed : Bool
  pub initialize_id : Value
  pub phase : Phase

pub data Effect : Type 0 where
  to_host to_view : Value → Effect  -- `postMessage` to the host's origin, and to the View
  mount : View → Effect  -- the frame is appended
  unmount unlisten listen : Effect
  restrict : String → Effect  -- a CSP `meta` element in the proxy's own head
  report : Exception → Effect  -- `onerror`

-- The window that a message comes from.
pub data Source : Type 0 where
  host_window view_window other_window : Source

pub data Event : Type 0 where
  message : Source → String → Value → Event  -- with the event's origin and data
  view_load : Event
  disposal : Event

abbrev pub is_host : Source → Bool
is_host host_window = true
is_host source = false

abbrev pub is_view : Source → Bool
is_view view_window = true
is_view source = false

abbrev pub has_view : Option View → Bool
has_view none = false
has_view (some v) = true

abbrev pub fresh : Proxy
fresh = record { view = none; closed = false; initialize_id = undefined; phase = empty }

-- `message.method?.startsWith(RESERVED)`
unfoldable pub is_reserved : Value → Outcome Bool
is_reserved undefined = ok false
is_reserved null = ok false
is_reserved (str method) = ok (starts_with method reserved)
is_reserved method = throw (type_error "startsWith is not a function")

unfoldable pub dispose : Proxy → Proxy × List Effect
dispose s =
    if s.closed
    then (s, [])
    else (record s { closed = true }, unlisten ∷ (if has_view s.view then unmount ∷ [] else []))

-- The `catch` of the listener.
unfoldable pub settle : Proxy → Outcome (Proxy × List Effect) → Proxy × List Effect
settle s (ok r) = r
settle s (throw e) = ((dispose s).0, (dispose s).1 ++ report e ∷ [])

abbrev pub is_empty_phase : Phase → Bool
is_empty_phase empty = true
is_empty_phase phase = false

-- `params.sandbox` is absent or "allow-scripts".
abbrev pub is_opaque : Option String → Bool
is_opaque none = true
is_opaque (some s) = s == "allow-scripts"

-- A message of the View: a step of the handshake, or a message to pass on.
unfoldable pub from_view : Platform → Proxy → Phase → Value → Outcome (Proxy × List Effect)
from_view p s initialized m = ok (s, to_host m ∷ [])
from_view p s loaded m =
    if is_text (member m "method") "ui/initialize" && has_key m "id"
    then ok (record s { initialize_id = member m "id"; phase = initializing }, to_host m ∷ [])
    else throw (error "Sandbox View used the bridge before initialization")
from_view p s responded m =
    if p.is_initialized m
    then ok (record s { phase = initialized }, to_host m ∷ [])
    else throw (error "Sandbox View used the bridge before initialization")
from_view p s phase m = throw (error "Sandbox View used the bridge before initialization")

-- A message of the host for the View.
unfoldable pub from_host : Proxy → Phase → Value → Outcome (Proxy × List Effect)
from_host s initialized m = ok (s, to_view m ∷ [])
from_host s initializing m =
    if strictly_equal (member m "id") s.initialize_id && has_key m "result"
    then ok (record s { phase = responded }, to_view m ∷ [])
    else throw (error "Host sent a View message before initialization")
from_host s phase m = throw (error "Host sent a View message before initialization")

module _ (build_allow_attribute : List String → String) (p : Platform) (g : Settings) where
  unfoldable pub view_of : ResourceReady → Approved → View
  view_of params approved = record {
    sandbox = "allow-scripts";
    referrer_policy = "no-referrer";
    style = "position:fixed;inset:0;width:100%;height:100%;border:0;display:block";
    allow = build_allow_attribute approved.permissions;
    srcdoc =
        "<!doctype html><html><head>"
        <> p.outer_html (sandbox_csp approved.csp)
        <> "<meta name=\"referrer\" content=\"no-referrer\">"
        <> params.html
        <> "</html>";
    loads = 0;
  }

  unfoldable pub load_resource : Proxy → Value → Outcome (Proxy × List Effect)
  load_resource s m = do
    require (is_empty_phase s.phase) (error "Sandbox resource cannot be replaced")
    params ← or_throw (p.resource_ready m) (foreign "ZodError")
    require (not (ltb g.max_html_bytes (utf8_length params.html)))
        (range_error "Sandbox HTML exceeds its byte limit")
    require (is_opaque params.sandbox) (type_error "The View must retain an opaque sandbox origin")
    approved ← approve_sandbox_policy p params.csp params.permissions g.grants
    ok (
      record s { view = some (view_of params approved); phase = loaded },
      mount (view_of params approved) ∷ [],
    )

  -- A message that is not the proxy's own goes on, if there is a View.
  unfoldable pub pass_on : Proxy → Source → Value → Outcome (Proxy × List Effect)
  pass_on s source m = do
    require (has_view s.view) (error "Sandbox View is not loaded")
    if is_view source then from_view p s s.phase m else from_host s s.phase m

  unfoldable pub relay : Proxy → Source → Value → Bool → Outcome (Proxy × List Effect)
  relay s source m own =
      if own
      then if is_host source
          && is_text (member m "method") "ui/notifications/sandbox-resource-ready"
        then load_resource s m
        else ok (s, [])
      else pass_on s source m

  -- The `try` of the listener.
  unfoldable pub handle : Proxy → Source → Value → Outcome (Proxy × List Effect)
  handle s source value = do
    m ← validate_message p value g.max_message_bytes
    own ← is_reserved (member m "method")
    relay s source m own

  -- The sources and origins that the listener hears.
  abbrev pub is_heard : Proxy → Source → String → Bool
  is_heard s source origin =
      is_host source && origin == g.host_origin
      || has_view s.view && is_view source && origin == "null"

  unfoldable pub loaded_again : Proxy → Option View → Proxy × List Effect
  loaded_again s none = (s, [])
  loaded_again s (some v) =
      let s' = record s { view = some (record v { loads = v.loads + 1 }) } in
      if ltb 1 (v.loads + 1)
      then (
        (dispose s').0,
        (dispose s').1
            ++ report (error "Sandbox View navigated away from its original resource") ∷ [],
      )
      else (s', [])

  unfoldable pub step : Proxy → Event → Proxy × List Effect
  step s (message source origin value) =
      if s.closed || not (is_heard s source origin)
      then (s, [])
      else settle s (handle s source value)
  step s view_load = loaded_again s s.view
  step s disposal = dispose s

  unfoldable pub play : Proxy → List Event → Proxy × List Effect
  play s [] = (s, [])
  play s (e ∷ es) = ((play (step s e).0 es).0, (step s e).1 ++ (play (step s e).0 es).1)

unfoldable pub proxy_limit : Value → Outcome ℕ
proxy_limit (num (nonneg (suc n))) =
    if leb (suc n) max_safe_integer
    then ok (suc n)
    else throw (type_error "Sandbox byte limits must be positive safe integers")
proxy_limit v = throw (type_error "Sandbox byte limits must be positive safe integers")

abbrev pub is_func : Value → Bool
is_func func = true
is_func v = false

abbrev pub proxy_ready : Value
proxy_ready = obj (
    field "jsonrpc" (str "2.0")
      (field "method" (str "ui/notifications/sandbox-proxy-ready") (field "params" (obj end) end)))

-- The options of `startSandboxProxy`.
pub record Options : Type 0 where
  pub host_origin : Value
  pub max_message_bytes : Value
  pub max_html_bytes : Value
  pub policy : Value
  pub onerror : Value

-- The start, in a window of the given origin that may be its own parent.
unfoldable pub start_sandbox_proxy :
    Platform → String → Bool → Options → Outcome (Settings × Proxy × List Effect)
start_sandbox_proxy p location_origin is_top o = do
  host ← exact_origin p o.host_origin
  require (not (host == location_origin || is_top))
      (type_error "Sandbox proxy requires a different-origin parent")
  message_bytes ← proxy_limit o.max_message_bytes
  html_bytes ← proxy_limit o.max_html_bytes
  require (is_truthy o.policy && is_func o.onerror)
      (type_error "Sandbox policy and error handler are required")
  grants ← structured_clone o.policy
  approve_sandbox_policy p (obj end) (obj end) grants >>= λ _. ok tt
  ok (
    record {
      host_origin = host;
      max_message_bytes = message_bytes;
      max_html_bytes = html_bytes;
      grants = grants;
    },
    fresh,
    restrict "frame-src 'none'" ∷ listen ∷ to_host proxy_ready ∷ [],
  )
