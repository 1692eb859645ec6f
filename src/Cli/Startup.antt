-- ===== src/Cli/Startup.antt =====
-- What runs after a start of the command.
use kestrel_feature_mcp.Prelude.{
  String, ◌≡◌, refl, Option, none, some, List, ok, ok-injective, >>=-eq-ok,
}
use mathlib.Core.Path.{subst}
use kestrel_feature_mcp.Value.{Value, str}
use kestrel_feature_mcp.Platform.{Platform}
use kestrel_feature_mcp.Config.{Deployment, validate_deployment_config}
use kestrel_feature_mcp.Config.Listening.{IsDeployment, validate_deployment_config_iff}
use kestrel_feature_mcp.Service.{create_sandbox_service}
use kestrel_feature_mcp.Service.Inert.{IsService, create_sandbox_service-IsService}
use kestrel_feature_mcp.Assets.{Decoded, read_verified_sandbox_assets}
use kestrel_feature_mcp.Assets.Integrity.{IsAuthentic, read_verified_sandbox_assets-IsAuthentic}
use kestrel_feature_mcp.Cli.{
  Node, Server, text_value, given_option, settle_deployment, run_sandbox_service, main,
}

text_value-injective : (o : Option String) (s : String) → text_value o ≡ str s → o ≡ some s
text_value-injective none s h = cc
text_value-injective (some t) s h = cc

module _ (build : List String → String) (p : Platform) (n : Node) where
  -- A server of a start: its deployment, its files and its place.
  pub record IsRunning (r : Server) : Type 0 where
    pub value : Value
    pub deployment : Deployment
    pub valid : IsDeployment p value deployment
    pub assets : Decoded
    pub verified : IsAuthentic n.files assets
    pub service :
        IsService build p deployment.sandbox.value
          (text_value assets.entry_javascript)
          (text_value assets.third_party_notices)
          deployment.http_limits
          r.service
    pub entry : assets.entry_javascript ≡ some r.service.entry_javascript
    pub notices : assets.third_party_notices ≡ some r.service.third_party_notices
    pub host : r.host ≡ deployment.host
    pub port : r.port ≡ deployment.port
    pub listens : n.listen r.port r.host ≡ ok tt

  -- The command opens a server only for a valid deployment, at its host and port, and what that
  -- server hands out as entry module and notices are the packaged files whose SHA-256 hashes the
  -- manifest lists.
  pub main-IsRunning : (args : List String) (r : Server) → main build p n args ≡ ok r → IsRunning r
  unfolding main run_sandbox_service
  main-IsRunning args r h =
      let (option, _, h1) = >>=-eq-ok (n.config_option args) _ h in
      let (path, _, h2) = >>=-eq-ok (given_option option) _ h1 in
      let (text, _, h3) = >>=-eq-ok (n.read_text path) _ h2 in
      let (value, _, h4) = >>=-eq-ok (settle_deployment (n.files.parse text)) _ h3 in
      let (a, verified, h5) = >>=-eq-ok (read_verified_sandbox_assets n.files) _ h4 in
      let (d, valid, h6) = >>=-eq-ok (validate_deployment_config p value) _ h5 in
      let (s, created, h7) =
        >>=-eq-ok
          (create_sandbox_service build p d.sandbox.value (text_value a.entry_javascript)
            (text_value a.third_party_notices) d.http_limits)
          _ h6 in
      let (_, listens, made) = >>=-eq-ok (n.listen d.port d.host) _ h7 in
      let serves =
        create_sandbox_service-IsService build p d.sandbox.value (text_value a.entry_javascript)
          (text_value a.third_party_notices) d.http_limits s created in
      subst IsRunning (ok-injective made) (record {
        value = value;
        deployment = d;
        valid = (validate_deployment_config_iff p value d).0 valid;
        assets = a;
        verified = read_verified_sandbox_assets-IsAuthentic n.files a verified;
        service = serves;
        entry = text_value-injective a.entry_javascript s.entry_javascript serves.module_text;
        notices =
            text_value-injective a.third_party_notices s.third_party_notices serves.notices_text;
        host = refl;
        port = refl;
        listens = listens;
      })
