-- ===== src/Service/Access.antt =====
-- Who is served what.
use kestrel_feature_mcp.Prelude.{
  String, Bool, true, false, ◌≡◌, refl, not, ◌&&◌, ◌||◌, Option, none, some, [], ◌∷◌, includes,
  is_blank, ◌==◌, arith, if◌then◌else◌, nat_eq,
}
use kestrel_feature_mcp.Platform.{Url}
use kestrel_feature_mcp.Service.{
  Service, Request, Reply, reply, respond, has_credentials, has_body, foreign_origin, serve_config,
  serve_path, route, handle,
}

abbrev pub is_public_path : String → Bool
is_public_path path =
    path == "/config"
    || path == "/sandbox-entry.js"
    || path == "/THIRD_PARTY_NOTICES.txt"
    || path == "/proxy"
    || path == "/health"

abbrev is_200 : Reply → Bool
is_200 r = nat_eq r.status 200

-- A ladder of tests over responses, of which some are served.
path_ladder :
    (a b c d e : Bool) (ra rb rc rd re rf : Reply)
    → is_200 rb ≡ true
    → is_200 rc ≡ true
    → is_200 rd ≡ true
    → is_200 re ≡ true
    → is_200 rf ≡ false
    → is_200 (
        if a
        then ra
        else if b
        then rb
        else if c
        then rc
        else if d
        then rd
        else if e
        then re
        else rf)
      ≡ ((a || b || c || d || e) && (if a then is_200 ra else true))
path_ladder true b c d e ra rb rc rd re rf _ _ _ _ _ = refl
path_ladder false true c d e ra rb rc rd re rf h _ _ _ _ = h
path_ladder false false true d e ra rb rc rd re rf _ h _ _ _ = h
path_ladder false false false true e ra rb rc rd re rf _ _ h _ _ = h
path_ladder false false false false true ra rb rc rd re rf _ _ _ h _ = h
path_ladder false false false false false ra rb rc rd re rf _ _ _ _ h = h

guard_ladder :
    (a b c : Bool) (ra rb rc rd : Reply)
    → is_200 ra ≡ false
    → is_200 rb ≡ false
    → is_200 rc ≡ false
    → is_200 (if a then ra else if not b then rb else if c then rc else rd)
      ≡ (not a && b && not c && is_200 rd)
guard_ladder true b c ra rb rc rd h _ _ = h
guard_ladder false false c ra rb rc rd _ h _ = h
guard_ladder false true true ra rb rc rd _ _ h = h
guard_ladder false true false ra rb rc rd _ _ _ = refl

module _ (s : Service) (r : Request) where
  -- A target without query and fragment that names a public resource; the configuration is for
  -- requests that name no origin or the host's.
  abbrev pub is_public : Option Url → Bool
  is_public none = false
  is_public (some t) =
      not (not (is_blank t.search) || not (is_blank t.hash))
      && (is_public_path t.pathname
          && (if t.pathname == "/config" then not (foreign_origin s r.origin) else true))

  abbrev pub is_served : (String → Option Url) → Bool
  is_served resolve =
      not (has_credentials r)
      && includes ("GET" ∷ "HEAD" ∷ []) r.method
      && not (has_body r)
      && is_public (resolve r.url)

  served_config : is_200 (serve_config s r) ≡ not (foreign_origin s r.origin)
  unfolding serve_config
  served_config = ground arith

  served_path :
      (path : String)
      → is_200 (serve_path s r path) ≡ (
          is_public_path path
          && (if path == "/config" then not (foreign_origin s r.origin) else true))
  unfolding serve_path
  served_path path = rw (← served_config) (
      path_ladder (path == "/config") (path == "/sandbox-entry.js")
        (path == "/THIRD_PARTY_NOTICES.txt") (path == "/proxy") (path == "/health") _ _ _ _ _ _ refl
        refl refl refl refl)

  served_target :
      (o : Option Url)
      → is_200 (elim o [
        | none ↦ reply [] 400 "Invalid sandbox request target"
        | some target ↦
            if not (is_blank target.search) || not (is_blank target.hash)
            then reply [] 404 "Sandbox resource not found"
            else serve_path s r target.pathname
      ])
        ≡ is_public o
  served_target none = refl
  served_target (some t) = rw (← served_path t.pathname) (ground arith)

  -- The service answers 200 exactly to a GET or HEAD request without cookie, authorization header,
  -- API key and body, whose target has neither query nor fragment and names one of the five public
  -- resources, where the configuration is refused to a foreign origin.
  pub handle-is_served :
      (resolve : String → Option Url) → nat_eq (handle s r resolve).status 200 ≡ is_served resolve
  unfolding handle respond route
  handle-is_served resolve = rw (← served_target (resolve r.url)) (
      guard_ladder (has_credentials r) (includes ("GET" ∷ "HEAD" ∷ []) r.method) (has_body r) _ _ _
        _ refl refl refl)
