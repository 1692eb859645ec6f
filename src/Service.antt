-- ===== src/Service.antt =====
-- web/src/sandbox-service.js: the HTTP service that hands out the sandbox, its configuration and its
-- third-party notices.
pub mod Access
pub mod Headers
pub mod Inert
use kestrel_feature_mcp.Prelude.{
  ℕ, String, Bool, true, false, not, ◌&&◌, ◌||◌, Option, none, some, List, [], ◌∷◌, ◌++◌, ◌*◌,
  includes, is_blank, trim, replace_all, ◌==◌, Outcome, ok, throw, ◌>>=◌, ◌>>◌, require, or_throw,
  type_error, if◌then◌else◌,
}
use kestrel_feature_mcp.Json.{◌<>◌, stringify}
use kestrel_feature_mcp.Value.{
  Number, nonneg, Value, obj, str, num, Fields, end, own, is_object_with, or_object,
}
use kestrel_feature_mcp.Platform.{Platform, Url}
use kestrel_feature_mcp.Policy.{sandbox_permissions_policy}
use kestrel_feature_mcp.Config.{text_of, require_positive_safe_integer, validate_sandbox_config}

-- The limits of the HTTP server, in the order of `DEFAULT_HTTP_LIMITS`.
pub record Limits : Type 0 where
  pub max_header_bytes : ℕ
  pub request_timeout_ms : ℕ
  pub headers_timeout_ms : ℕ
  pub keep_alive_timeout_ms : ℕ

abbrev pub limit_keys : List String
limit_keys = "maxHeaderBytes" ∷ "requestTimeoutMs" ∷ "headersTimeoutMs" ∷ "keepAliveTimeoutMs" ∷ []

-- An own property of `httpLimits`, also one that is `undefined`, replaces the default.
abbrev pub limit_value : Value → String → ℕ → Value
limit_value (obj fs) key default = elim (own fs key) [ none ↦ num (nonneg default) | some v ↦ v ]
limit_value v key default = num (nonneg default)

unfoldable pub merge_limits : Value → Outcome Limits
merge_limits given = do
  require (is_object_with (includes limit_keys) (or_object given))
      (type_error "Sandbox HTTP limits contain unsupported fields")
  header ←
      require_positive_safe_integer (limit_value (or_object given) "maxHeaderBytes" (16 * 1024))
        "maxHeaderBytes"
  request ←
      require_positive_safe_integer (limit_value (or_object given) "requestTimeoutMs" 5000)
        "requestTimeoutMs"
  headers ←
      require_positive_safe_integer (limit_value (or_object given) "headersTimeoutMs" 5000)
        "headersTimeoutMs"
  keep_alive ←
      require_positive_safe_integer (limit_value (or_object given) "keepAliveTimeoutMs" 5000)
        "keepAliveTimeoutMs"
  ok (record {
    max_header_bytes = header;
    request_timeout_ms = request;
    headers_timeout_ms = headers;
    keep_alive_timeout_ms = keep_alive;
  })

-- What the request handler closes over, and the server's limits.
pub record Service : Type 0 where
  pub host_origin : String
  pub config_json : String
  pub html : String
  pub permission_policy : String
  pub entry_javascript : String
  pub third_party_notices : String
  pub limits : Limits

-- The headers that the handler reads; `none` is a header that was not sent.
pub record Request : Type 0 where
  pub method : String
  pub url : String
  pub cookie : Option String
  pub authorization : Option String
  pub x_api_key : Option String
  pub transfer_encoding : Option String
  pub content_length : Option String
  pub origin : Option String

pub record Response : Type 0 where
  pub status : ℕ
  pub headers : List (String × String)
  pub body : Option String

-- A header as a condition: `undefined` and the empty text are false.
abbrev pub truthy : Option String → Bool
truthy none = false
truthy (some s) = not (is_blank s)

abbrev pub is_filled : Value → Bool
is_filled (str s) = not (is_blank (trim s))
is_filled v = false

-- `JSON.stringify(approved).replaceAll('<', '\\u003c')`; an approved object has a JSON text.
unfoldable pub inert_json : Value → String
inert_json v = elim (stringify v) [ none ↦ "" | some s ↦ replace_all b'<' "\\u003c" s ]

abbrev pub page_head : String
page_head =
    "<!doctype html><html><head><meta charset=\"utf-8\"><meta name=\"referrer\" content=\"no-referrer\"></head><body><script type=\"application/json\" id=\"sandbox-config\">"

abbrev pub page_tail : String
page_tail = "</script><script type=\"module\" src=\"/sandbox-entry.js\"></script></body></html>"

unfoldable pub create_sandbox_service :
    (List String → String) → Platform → Value → Value → Value → Value → Outcome Service
create_sandbox_service build_allow p config entry_javascript third_party_notices http_limits = do
  limits ← merge_limits http_limits
  approved ← validate_sandbox_config p config
  require (is_filled entry_javascript) (type_error "A built sandbox entry module is required")
  require (is_filled third_party_notices)
      (type_error "The sandbox requires its bundled third-party license notices")
  permission_policy ← sandbox_permissions_policy build_allow p approved.policy
  ok (record {
    host_origin = approved.host_origin;
    config_json = inert_json approved.value;
    html = page_head <> inert_json approved.value <> page_tail;
    permission_policy = permission_policy;
    entry_javascript = text_of entry_javascript;
    third_party_notices = text_of third_party_notices;
    limits = limits;
  })

-- The headers of every response.
abbrev pub base_headers : Service → List (String × String)
base_headers s =
    ("Cache-Control", "no-store")
    ∷ ("Referrer-Policy", "no-referrer")
    ∷ ("X-Content-Type-Options", "nosniff")
    ∷ ("Origin-Agent-Cluster", "?1")
    ∷ (
      "Content-Security-Policy",
      "frame-ancestors " <> s.host_origin
          <> "; frame-src 'none'; object-src 'none'; form-action 'none'; worker-src 'none'",
    )
    ∷ ("Permissions-Policy", s.permission_policy)
    ∷ []

-- What a branch of the handler decides: the headers that it sets, and the arguments of `end`.
pub record Reply : Type 0 where
  pub added : List (String × String)
  pub status : ℕ
  pub text : String

abbrev pub reply : List (String × String) → ℕ → String → Reply
reply added status text = record { added = added; status = status; text = text }

-- The headers of every response, those of the branch, and `end`: a HEAD request has no body.
unfoldable pub respond : Service → Request → Reply → Response
respond s r answer = record {
  status = answer.status;
  headers = base_headers s ++ answer.added;
  body = if r.method == "HEAD" then none else some answer.text;
}

abbrev pub has_credentials : Request → Bool
has_credentials r = truthy r.cookie || truthy r.authorization || truthy r.x_api_key

-- `content-length` is sent and not the text "0".
abbrev pub has_length : Option String → Bool
has_length none = false
has_length (some s) = not (s == "0")

abbrev pub has_body : Request → Bool
has_body r = truthy r.transfer_encoding || has_length r.content_length

abbrev pub foreign_origin : Service → Option String → Bool
foreign_origin s none = false
foreign_origin s (some o) = not (is_blank o) && not (o == s.host_origin)

module _ (s : Service) (r : Request) where
  unfoldable pub serve_config : Reply
  serve_config =
      if foreign_origin s r.origin
      then reply [] 403 "Sandbox host origin is not allowed"
      else reply
          (("Access-Control-Allow-Origin", s.host_origin)
            ∷ ("Vary", "Origin")
            ∷ ("Content-Type", "application/json")
            ∷ [])
          200 s.config_json

  -- The resources by their paths.
  unfoldable pub serve_path : String → Reply
  serve_path path =
      if path == "/config"
      then serve_config
      else if path == "/sandbox-entry.js"
      then reply (("Content-Type", "text/javascript; charset=utf-8") ∷ []) 200 s.entry_javascript
      else if path == "/THIRD_PARTY_NOTICES.txt"
      then reply (("Content-Type", "text/plain; charset=utf-8") ∷ []) 200 s.third_party_notices
      else if path == "/proxy"
      then reply (("Content-Type", "text/html; charset=utf-8") ∷ []) 200 s.html
      else if path == "/health"
      then reply (("Content-Type", "application/json") ∷ []) 200 "{\"status\":\"ok\"}"
      else reply [] 404 "Sandbox resource not found"

  -- `new URL(request.url, 'http://sandbox.invalid')` is a parameter; `none` is its TypeError.
  unfoldable pub route : (String → Option Url) → Reply
  route resolve =
      if has_credentials r
      then reply (("Connection", "close") ∷ []) 400
          "Sandbox requests must not carry identity credentials"
      else if not (includes ("GET" ∷ "HEAD" ∷ []) r.method)
      then reply (("Allow", "GET, HEAD") ∷ ("Connection", "close") ∷ []) 405
          "Sandbox service is read-only"
      else if has_body r
      then reply (("Connection", "close") ∷ []) 400 "Sandbox requests must not carry bodies"
      else elim (resolve r.url) [
        | none ↦ reply [] 400 "Invalid sandbox request target"
        | some target ↦
            if not (is_blank target.search) || not (is_blank target.hash)
            then reply [] 404 "Sandbox resource not found"
            else serve_path target.pathname
      ]

  -- The request handler.
  unfoldable pub handle : (String → Option Url) → Response
  handle resolve = respond s r (route resolve)
