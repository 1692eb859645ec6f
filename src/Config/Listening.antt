-- ===== src/Config/Listening.antt =====
-- What a deployment that was accepted satisfies.
use kestrel_feature_mcp.Prelude.{
  ℕ, ◌≤◌, String, true, false, ◌≡◌, refl, ap, ◌∙◌, not, ◌&&◌, [], ◌∷◌, includes, is_blank, trim,
  ◌==◌, eq_iff, eq_refl, ◌↔◌, Ensures, ok, ok-injective, >>=-eq-ok, require->>=, and-true_parts,
  arith,
}
use mathlib.Core.Path.{subst}
use kestrel_feature_mcp.Value.{
  nonneg, Value, undefined, null, func, bool, num, str, arr, obj, member, is_object_with,
  structured_clone,
}
use kestrel_feature_mcp.Platform.{Platform}
use kestrel_feature_mcp.Config.{
  Deployment, deployment_keys, is_trimmed, text_of, listener_port, validate_sandbox_config,
  validate_deployment_config,
}
use kestrel_feature_mcp.Config.Validity.{IsConfig, validate_sandbox_config_iff, clone_ok}

-- A host: not blank, and without spaces at its ends.
abbrev pub IsHost : String → Type 0
IsHost s = (is_blank s ≡ false) × (s ≡ trim s)

host_parts : (s : String) → (not (is_blank (trim s)) && s == trim s) ≡ true → IsHost s
host_parts s h =
    let (filled, same) = and-true_parts (not (is_blank (trim s))) (s == trim s) h in
    let e : s ≡ trim s = (eq_iff s (trim s)).0 same in (ap is_blank e ∙ ground arith, e)

is_trimmed-IsHost : (v : Value) → is_trimmed v ≡ true → (v ≡ str (text_of v)) × IsHost (text_of v)
is_trimmed-IsHost (str s) h = (refl, host_parts s h)
is_trimmed-IsHost undefined h = cc
is_trimmed-IsHost null h = cc
is_trimmed-IsHost func h = cc
is_trimmed-IsHost (bool b) h = cc
is_trimmed-IsHost (num n) h = cc
is_trimmed-IsHost (arr vs) h = cc
is_trimmed-IsHost (obj fs) h = cc

IsHost-is_trimmed : (v : Value) (s : String) → v ≡ str s → IsHost s → is_trimmed v ≡ true
IsHost-is_trimmed v s e (filled, same) = rw (e, ← same, filled) (eq_refl s)

listener_port_lem :
    (v : Value) → Ensures (λ port. (v ≡ num (nonneg port)) × (port ≤ 65535)) (listener_port v)
unfolding listener_port
listener_port_lem v = ground arith

listener_port_complete :
    (v : Value) (n : ℕ) → v ≡ num (nonneg n) → n ≤ 65535 → listener_port v ≡ ok n
unfolding listener_port
listener_port_complete v n e h = rw e (ground arith)

module _ (p : Platform) (value : Value) where
  -- A deployment object that the code accepts, and its typed reading.
  pub record IsDeployment (d : Deployment) : Type 0 where
    pub supported : is_object_with (includes deployment_keys) value ≡ true
    pub cloned : structured_clone value ≡ ok value
    pub listen_keys :
        is_object_with (includes ("host" ∷ "port" ∷ [])) (member value "listen") ≡ true
    pub host : member (member value "listen") "host" ≡ str d.host
    pub is_host : IsHost d.host
    pub port : member (member value "listen") "port" ≡ num (nonneg d.port)
    pub port_range : d.port ≤ 65535
    pub sandbox : IsConfig p (member value "sandbox") d.sandbox
    pub http_limits : d.http_limits ≡ member value "httpLimits"

  deployment_sound : (d : Deployment) → validate_deployment_config p value ≡ ok d → IsDeployment d
  unfolding validate_deployment_config
  deployment_sound d h =
      let (supported, h1) = require->>= (is_object_with (includes deployment_keys) value) _ _ h in
      let (config, clone, _) = >>=-eq-ok (structured_clone value) _ h1 in
      let cloned : structured_clone value ≡ ok value = clone_ok value config clone in
      let listen = member value "listen" in
      let keys = is_object_with (includes ("host" ∷ "port" ∷ [])) listen in
      let (listens, h2) =
        require->>= (keys && is_trimmed (member listen "host")) _ _ (rw cloned at h1) in
      let (listen_keys, trimmed) =
        and-true_parts keys (is_trimmed (member listen "host")) listens in
      let (host, is_host) = is_trimmed-IsHost (member listen "host") trimmed in
      let (port, ported, h3) = >>=-eq-ok (listener_port (member listen "port")) _ h2 in
      let (named, range) = rw ported at (listener_port_lem (member listen "port")) in
      let (sandbox, valid, made) =
        >>=-eq-ok (validate_sandbox_config p (member value "sandbox")) _ h3 in
      subst IsDeployment (ok-injective made) (record {
        supported = supported;
        cloned = cloned;
        listen_keys = listen_keys;
        host = host;
        is_host = is_host;
        port = named;
        port_range = range;
        sandbox = (validate_sandbox_config_iff p (member value "sandbox") sandbox).0 valid;
        http_limits = refl;
      })

  deployment_complete :
      (d : Deployment) → IsDeployment d → validate_deployment_config p value ≡ ok d
  unfolding validate_deployment_config
  deployment_complete d v =
      rw
        (
          v.supported,
          v.cloned,
          v.listen_keys,
          IsHost-is_trimmed (member (member value "listen") "host") d.host v.host v.is_host,
          listener_port_complete (member (member value "listen") "port") d.port v.port v.port_range,
          (validate_sandbox_config_iff p (member value "sandbox") d.sandbox).1 v.sandbox,
          v.host,
        )
        (ground arith)

  -- `validateDeploymentConfig` returns a deployment exactly if the value is an object with supported
  -- keys only, holds no function, names a listener by a host that is not blank and has no space at
  -- its ends and a port of at most 65535, and has a valid sandbox configuration; what it returns has
  -- that host, that port, that configuration and the value's HTTP limits.
  pub validate_deployment_config_iff :
      (d : Deployment) → (validate_deployment_config p value ≡ ok d) ↔ IsDeployment d
  validate_deployment_config_iff d = (deployment_sound d, deployment_complete d)
