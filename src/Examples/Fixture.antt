-- ===== src/Examples/Fixture.antt =====
-- The platform of the tests: URLs of three sites, schemas that read what the tests send, and the
-- `buildAllowAttribute` that the SDK documents.
use kestrel_feature_mcp.Prelude.{
  String, true, ◌≡◌, refl, Option, none, some, List, [], ◌∷◌, map, includes, select, join, trim,
  ◌==◌, eq_iff, ◌⊎◌, inl, inr, sym, ap, ◌∙◌, arith, if◌then◌else◌,
}
use kestrel_feature_mcp.Json.{◌<>◌}
use kestrel_feature_mcp.Value.{
  Value, num, str, arr, obj, end, field, nonneg, strings, member, is_text,
}
use kestrel_feature_mcp.Platform.{Platform, Url, ResourceReady}
use kestrel_feature_mcp.Policy.{device_keys}
use kestrel_feature_mcp.Policy.Features.{IsAllowAttribute, IsFeature}

abbrev pub site : String → String → Url
site protocol origin = record {
  href = origin <> "/";
  protocol = protocol;
  origin = origin;
  username = "";
  password = "";
  pathname = "/";
  search = "";
  hash = "";
}

abbrev pub parse_url : Value → Option Url
parse_url (str s) =
    if s == "https://host.example"
    then some (site "https:" "https://host.example")
    else if s == "https://cdn.example"
    then some (site "https:" "https://cdn.example")
    else if s == "https://cdn.example/"
    then some (site "https:" "https://cdn.example")
    else if s == "ftp://files.example"
    then some (site "ftp:" "ftp://files.example")
    else none
parse_url v = none

abbrev read_params : Value → Option ResourceReady
read_params (obj fs) = elim (member (obj fs) "html") [
  | str html ↦ some (record {
    html = html;
    sandbox = none;
    csp = member (obj fs) "csp";
    permissions = member (obj fs) "permissions";
  })
  | _ ↦ none
]
read_params v = none

abbrev pub platform : Platform
platform = record {
  new_url = parse_url;
  json_value = some;
  rpc_message = some;
  resource_ready = λ m. read_params (member m "params");
  is_initialized = λ m. is_text (member m "method") "ui/notifications/initialized";
  outer_html = λ content. "<meta content=\"" <> content <> "\">";
}

abbrev pub feature_name : String → String
feature_name key = if key == "clipboardWrite" then "clipboard-write" else key

abbrev pub build_allow : List String → String
build_allow keys = join "; " (map feature_name (select (includes keys) device_keys))

device_cases :
    (k : String)
    → includes device_keys k ≡ true
    → (k ≡ "camera") ⊎ ((k ≡ "microphone") ⊎ ((k ≡ "geolocation") ⊎ (k ≡ "clipboardWrite")))
device_cases k h = ground (
  arith,
  eq_iff "camera" k,
  eq_iff "microphone" k,
  eq_iff "geolocation" k,
  eq_iff "clipboardWrite" k,
)

feature_lem : (key : String) → includes device_keys key ≡ true → IsFeature (feature_name key)
unfolding trim
feature_lem key h = elim (device_cases key h) [
  | inl e ↦ rw e (refl, refl, refl)
  | inr (inl e) ↦ rw e (refl, refl, refl)
  | inr (inr (inl e)) ↦ rw e (refl, refl, refl)
  | inr (inr (inr e)) ↦ rw e (refl, refl, refl)
]

-- The permission of a feature's name.
abbrev key_of : String → String
key_of name = if name == "clipboard-write" then "clipboardWrite" else name

key_of-feature_name :
    (key : String) → includes device_keys key ≡ true → key_of (feature_name key) ≡ key
key_of-feature_name key h = elim (device_cases key h) [
  | inl e ↦ rw e refl
  | inr (inl e) ↦ rw e refl
  | inr (inr (inl e)) ↦ rw e refl
  | inr (inr (inr e)) ↦ rw e refl
]

pub build_allow-IsAllowAttribute : IsAllowAttribute build_allow feature_name
build_allow-IsAllowAttribute = record {
  joined = λ keys. refl;
  feature = feature_lem;
  injective =
      λ j k hj hk e. sym (key_of-feature_name j hj) ∙ ap key_of e ∙ key_of-feature_name k hk;
}

-- The operator's policy of the tests.
abbrev pub grants : Value
grants = obj (
    field "connectDomains" (arr (strings ("https://cdn.example" ∷ [])))
      (field "permissions" (arr (strings ("camera" ∷ []))) end))

abbrev pub config : Value
config = obj (
    field "hostOrigin" (str "https://host.example") (
      field "maxMessageBytes" (num (nonneg 4096))
        (field "maxHtmlBytes" (num (nonneg 1024)) (field "policy" grants end))))
