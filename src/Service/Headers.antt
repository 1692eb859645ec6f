-- ===== src/Service/Headers.antt =====
-- The headers of the responses, and HEAD requests.
use kestrel_feature_mcp.Prelude.{
  String, Bool, true, false, ◌≡◌, refl, ap, ◌∙◌, not, ◌&&◌, ◌||◌, Option, none, some, [], ◌∷◌,
  includes, is_blank, lookup, ◌==◌, if◌then◌else◌, arith,
}
use kestrel_feature_mcp.Platform.{Url}
use kestrel_feature_mcp.Service.{
  Service, Request, Reply, reply, respond, has_credentials, has_body, foreign_origin, serve_config,
  serve_path, route, handle,
}

abbrev shared : Reply → Option String
shared r = lookup "Access-Control-Allow-Origin" r.added

shared_path :
    (a b c d e : Bool) (ra rb rc rd re rf : Reply)
    → shared rb ≡ none
    → shared rc ≡ none
    → shared rd ≡ none
    → shared re ≡ none
    → shared rf ≡ none
    → shared (
        if a
        then ra
        else if b
        then rb
        else if c
        then rc
        else if d
        then rd
        else if e
        then re
        else rf)
      ≡ (if a then shared ra else none)
shared_path true b c d e ra rb rc rd re rf _ _ _ _ _ = refl
shared_path false true c d e ra rb rc rd re rf h _ _ _ _ = h
shared_path false false true d e ra rb rc rd re rf _ h _ _ _ = h
shared_path false false false true e ra rb rc rd re rf _ _ h _ _ = h
shared_path false false false false true ra rb rc rd re rf _ _ _ h _ = h
shared_path false false false false false ra rb rc rd re rf _ _ _ _ h = h

shared_guards :
    (a b c : Bool) (ra rb rc rd : Reply)
    → shared ra ≡ none
    → shared rb ≡ none
    → shared rc ≡ none
    → shared (if a then ra else if not b then rb else if c then rc else rd)
      ≡ (if not a && b && not c then shared rd else none)
shared_guards true b c ra rb rc rd h _ _ = h
shared_guards false false c ra rb rc rd _ h _ = h
shared_guards false true true ra rb rc rd _ _ h = h
shared_guards false true false ra rb rc rd _ _ _ = refl

shared_found :
    (u c f : Bool) (found : Reply) (o : String)
    → shared found ≡ (if c then if not f then some o else none else none)
    → shared (if u then reply [] 404 "Sandbox resource not found" else found)
      ≡ (if not u && c && not f then some o else none)
unfolding lookup
shared_found true c f found o h = refl
shared_found false true f found o h = h
shared_found false false f found o h = h

shared_answer :
    (g t : Bool) (o : String) {answer : Option String}
    → answer ≡ (if t then some o else none)
    → (if g then answer else none) ≡ (if g && t then some o else none)
shared_answer true t o h = h
shared_answer false t o h = refl

module _ (s : Service) (r : Request) where
  -- The target is the configuration's, and the request comes from no other origin than the host's.
  abbrev pub is_config_target : Option Url → Bool
  is_config_target none = false
  is_config_target (some t) =
      not (not (is_blank t.search) || not (is_blank t.hash))
      && t.pathname == "/config"
      && not (foreign_origin s r.origin)

  shared_config :
      shared (serve_config s r)
      ≡ (if not (foreign_origin s r.origin) then some s.host_origin else none)
  unfolding serve_config lookup
  shared_config = ground arith

  shared_target :
      (o : Option Url)
      → shared (elim o [
        | none ↦ reply [] 400 "Invalid sandbox request target"
        | some target ↦
            if not (is_blank target.search) || not (is_blank target.hash)
            then reply [] 404 "Sandbox resource not found"
            else serve_path s r target.pathname
      ])
        ≡ (if is_config_target o then some s.host_origin else none)
  unfolding serve_path lookup
  shared_target none = refl
  shared_target (some t) =
      shared_found (not (is_blank t.search) || not (is_blank t.hash)) (t.pathname == "/config")
        (foreign_origin s r.origin) (serve_path s r t.pathname) s.host_origin
        (shared_path (t.pathname == "/config") (t.pathname == "/sandbox-entry.js")
            (t.pathname == "/THIRD_PARTY_NOTICES.txt") (t.pathname == "/proxy")
            (t.pathname == "/health") (serve_config s r) _ _ _ _ _ refl refl refl refl refl
          ∙ ap (λ o. if t.pathname == "/config" then o else none) shared_config)

  -- The header Access-Control-Allow-Origin is sent, with the host's origin, exactly in the answer to
  -- a GET or HEAD request without credentials and body for the configuration, with neither query nor
  -- fragment, that names no origin or the host's; no other response has the header.
  pub handle-allow_origin :
      (resolve : String → Option Url)
      → lookup "Access-Control-Allow-Origin" (handle s r resolve).headers ≡ (
          if not (has_credentials r)
            && includes ("GET" ∷ "HEAD" ∷ []) r.method
            && not (has_body r)
            && is_config_target (resolve r.url)
          then some s.host_origin
          else none)
  unfolding handle respond route lookup
  handle-allow_origin resolve =
      shared_guards (has_credentials r) (includes ("GET" ∷ "HEAD" ∷ []) r.method) (has_body r) _ _ _
        _ refl refl refl
      ∙ shared_answer
          (not (has_credentials r) && includes ("GET" ∷ "HEAD" ∷ []) r.method && not (has_body r))
          (is_config_target (resolve r.url)) s.host_origin (shared_target (resolve r.url))

  -- A HEAD request gets the status and the headers of the same GET request, and no body, which the
  -- GET request always has.
  pub handle_head :
      (resolve : String → Option Url)
      → let head = handle s (record r { method = "HEAD" }) resolve in
        let get = handle s (record r { method = "GET" }) resolve in
        (head.status ≡ get.status)
        × (head.headers ≡ get.headers)
        × (head.body ≡ none)
        × ((body : String) × (get.body ≡ some body))
  unfolding handle respond route serve_path serve_config
  handle_head resolve = (refl, refl, refl, (_, refl))
