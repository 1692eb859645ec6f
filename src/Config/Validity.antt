-- ===== src/Config/Validity.antt =====
-- What a configuration that was accepted satisfies.
use kestrel_feature_mcp.Prelude.{
  ℕ, ◌≤◌, ◌<◌, zero, suc, String, true, ◌≡◌, refl, ◌&&◌, includes, ◌↔◌, eq_refl, eq_iff, Ensures,
  Outcome-cases, some, inl, inr, ok, is_ok, sym, ap, ◌∙◌, ◌>>=◌, require->>=, and-true_parts,
  or_throw, >>=-eq-ok, or_throw-eq-ok, arith,
}
use kestrel_feature_mcp.Value.{
  nonneg, Value, undefined, null, func, bool, num, str, arr, obj, end, member, is_text,
  is_object_with, structured_clone, max_safe_integer,
}
use kestrel_feature_mcp.Platform.{Platform, Url}
use kestrel_feature_mcp.Policy.{is_http, approve_sandbox_policy}
use kestrel_feature_mcp.Policy.Acceptance.{is_policy, approve-is_policy}
use kestrel_feature_mcp.Config.{
  SandboxConfig, require_positive_safe_integer, validate_sandbox_config, config_keys,
}

pub positive_safe_integer_lem :
    (v : Value) (name : String)
    → Ensures
        (λ n. (v ≡ num (nonneg n)) × (0 < n) × (n ≤ max_safe_integer))
        (require_positive_safe_integer v name)
unfolding require_positive_safe_integer
positive_safe_integer_lem (num (nonneg (suc n))) name = ground arith
positive_safe_integer_lem v name = tt

positive_safe_integer_complete :
    (v : Value) (name : String) (n : ℕ)
    → v ≡ num (nonneg n)
    → 0 < n
    → n ≤ max_safe_integer
    → require_positive_safe_integer v name ≡ ok n
unfolding require_positive_safe_integer
positive_safe_integer_complete v name zero e h k = absurd (omega arith)
positive_safe_integer_complete v name (suc n) e h k = rw e (ground arith)

pub is_text_lem : (v : Value) (s : String) → is_text v s ≡ true → v ≡ str s
is_text_lem (str t) s h = ground (arith, eq_iff t s)
is_text_lem undefined s h = cc
is_text_lem null s h = cc
is_text_lem func s h = cc
is_text_lem (bool b) s h = cc
is_text_lem (num n) s h = cc
is_text_lem (arr vs) s h = cc
is_text_lem (obj fs) s h = cc

pub clone_ok : (v w : Value) → structured_clone v ≡ ok w → structured_clone v ≡ ok v
unfolding structured_clone
clone_ok v w h = ground arith

is_text_complete : (v : Value) (s : String) → v ≡ str s → is_text v s ≡ true
is_text_complete v s e = rw e (eq_refl s)

module _ (p : Platform) (value : Value) where
  -- A configuration object that the code accepts, and its typed reading.
  pub record IsConfig (c : SandboxConfig) : Type 0 where
    pub supported : is_object_with (includes config_keys) value ≡ true
    pub cloned : structured_clone value ≡ ok value
    pub snapshot : c.value ≡ value
    pub host : Url
    pub parsed : p.new_url (member value "hostOrigin") ≡ some host
    pub exact : member value "hostOrigin" ≡ str c.host_origin
    pub origin : host.origin ≡ c.host_origin
    pub http : is_http host.protocol ≡ true
    pub message_limit : member value "maxMessageBytes" ≡ num (nonneg c.max_message_bytes)
    pub message_range : (0 < c.max_message_bytes) × (c.max_message_bytes ≤ max_safe_integer)
    pub html_limit : member value "maxHtmlBytes" ≡ num (nonneg c.max_html_bytes)
    pub html_range : (0 < c.max_html_bytes) × (c.max_html_bytes ≤ max_safe_integer)
    pub policy_is : c.policy ≡ member value "policy"
    pub granted : is_policy p c.policy ≡ true

  no_request :
      (policy : Value)
      → is_ok (approve_sandbox_policy p (obj end) (obj end) policy) ≡ is_policy p policy
  no_request policy = approve-is_policy p (obj end) (obj end) policy refl

  sound : (c : SandboxConfig) → validate_sandbox_config p value ≡ ok c → IsConfig c
  unfolding validate_sandbox_config
  sound c e =
      let (supported, e1) = require->>= (is_object_with (includes config_keys) value) _ _ e in
      let (config, clone, _) = >>=-eq-ok (structured_clone value) _ e1 in
      let cloned : structured_clone value ≡ ok value = clone_ok value config clone in
      let (host, parsed, e2) =
        >>=-eq-ok (or_throw (p.new_url (member value "hostOrigin")) _) _ (rw cloned at e1) in
      let (checked, e3) =
        require->>= (is_http host.protocol && is_text (member value "hostOrigin") host.origin) _ _
          e2 in
      let (message, m, e4) =
        >>=-eq-ok
          (require_positive_safe_integer (member value "maxMessageBytes") "Sandbox maxMessageBytes")
          _ e3 in
      let (html, l, e5) =
        >>=-eq-ok
          (require_positive_safe_integer (member value "maxHtmlBytes") "Sandbox maxHtmlBytes") _
          e4 in
      let (_, approved, e6) =
        >>=-eq-ok
          (approve_sandbox_policy p (obj end) (obj end) (member value "policy") >>= λ _. ok tt) _
          e5 in
      let (a, ok_policy, _) =
        >>=-eq-ok (approve_sandbox_policy p (obj end) (obj end) (member value "policy")) _
          approved in
      let (message_is, message_pos, message_max) =
        rw m at
          (positive_safe_integer_lem (member value "maxMessageBytes") "Sandbox maxMessageBytes") in
      let (html_is, html_pos, html_max) =
        rw l at (positive_safe_integer_lem (member value "maxHtmlBytes") "Sandbox maxHtmlBytes") in
      let made : record {
        value = value;
        host_origin = host.origin;
        max_message_bytes = message;
        max_html_bytes = html;
        policy = member value "policy";
      }
          ≡ c =
        ground arith in
      rw (← made) (record {
        supported = supported;
        cloned = cloned;
        snapshot = refl;
        host = host;
        parsed = or_throw-eq-ok _ _ parsed;
        exact = is_text_lem _ _ (and-true_parts _ _ checked).1;
        origin = refl;
        http = (and-true_parts _ _ checked).0;
        message_limit = message_is;
        message_range = (message_pos, message_max);
        html_limit = html_is;
        html_range = (html_pos, html_max);
        policy_is = refl;
        granted = sym (no_request (member value "policy")) ∙ ap is_ok ok_policy;
      })

  complete : (c : SandboxConfig) → IsConfig c → validate_sandbox_config p value ≡ ok c
  unfolding validate_sandbox_config
  complete c v =
      let accepted : is_ok (approve_sandbox_policy p (obj end) (obj end) (member value "policy"))
          ≡ true =
        no_request (member value "policy") ∙ rw (← v.policy_is) v.granted in
      rw
        (
          v.supported,
          v.cloned,
          v.parsed,
          v.http,
          is_text_complete (member value "hostOrigin") v.host.origin (rw v.origin v.exact),
          positive_safe_integer_complete (member value "maxMessageBytes") "Sandbox maxMessageBytes"
              c.max_message_bytes v.message_limit v.message_range.0 v.message_range.1,
          positive_safe_integer_complete (member value "maxHtmlBytes") "Sandbox maxHtmlBytes"
              c.max_html_bytes v.html_limit v.html_range.0 v.html_range.1,
        )
        (elim (Outcome-cases
          (approve_sandbox_policy p (obj end) (obj end) (member value "policy"))) [
            | inl (a, returned) ↦ rw returned (ground arith)
            | inr (x, failed) ↦ cc (rw failed at accepted)
          ])

  -- `validateSandboxConfig` returns a configuration exactly if the value is an object with supported
  -- keys only, holds no function, spells its HTTP(S) host origin exactly, has two byte limits from 1
  -- to the largest safe integer and a policy that grants nothing unsupported; what it returns is the
  -- value itself, with those fields.
  pub validate_sandbox_config_iff :
      (c : SandboxConfig) → (validate_sandbox_config p value ≡ ok c) ↔ IsConfig c
  validate_sandbox_config_iff c = (sound c, complete c)
