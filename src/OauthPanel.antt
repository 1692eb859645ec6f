-- ===== src/OauthPanel.antt =====
-- web/src/oauth-panel.js, `mountOAuthPanel`: the panel of the MCP connectors in the console, as a
-- machine over clicks, the host's answers and changes of the actor. Code up to an `await` is one
-- step. The elements of the page are what they show.
pub mod Outcomes
pub mod Turns
pub mod Isolation
pub mod Lanes
pub mod Consent
pub mod Progress
use Prim.Native.String
use kestrel_feature_mcp.Prelude.{
  set_item, remove_item, ℕ, zero, suc, ◌+◌, String, Bool, true, false, not, ◌&&◌, ◌||◌, Option,
  none, some, List, [], ◌∷◌, ◌++◌, nat_eq, is_blank, replace_all, ◌==◌, code, Outcome, ok, throw,
  if◌then◌else◌,
}
use kestrel_feature_mcp.Json.{◌<>◌}
use kestrel_feature_mcp.Value.{Value, obj, bool, Fields, end, field, member, array_items, is_array}
use kestrel_feature_mcp.Platform.{Platform, Url}
use kestrel_feature_mcp.AppReply.{json_text}
use kestrel_feature_mcp.OauthPage.{first_status}
use kestrel_feature_mcp.OauthReply.{
  Operation, reload, submit, connect, disconnect, prepare, cancel, Card, render_rows, slice_end,
  hint_key, hint_buttons, read_form, begin_body, Authorization, read_authorization, hint_of,
}
use kestrel_feature_mcp.OauthState.{
  Console, Effect, Event, Job, Owner, Panel, Reply, Waiting, abort, actor_changed, authorizing,
  changing, clicked, disposal, failure, loading, navigate, replied, request, stored, success, typed,
}

abbrev pub root : String
root = "/api/mcp/oauth"

abbrev pub remove_some : Option String → List (String × String) → List (String × String)
remove_some none storage = storage
remove_some (some key) storage = remove_item key storage

-- `replace(/=+$/, '')`
abbrev pub strip_padding : String → String
strip_padding String.[] = String.[]
strip_padding (String.◌∷◌ c s) =
    let rest = strip_padding s in
    if is_blank rest && nat_eq (code c) b'=' then String.[] else String.◌∷◌ c rest

abbrev pub status_text : ℕ → String
status_text status =
    if nat_eq status 404
    then "Enable OAuth in the MCP feature settings before connecting."
    else if nat_eq status 403
    then "This account or host cannot use OAuth here."
    else if nat_eq status 503
    then "The outcome is uncertain. Refresh connections before another action; do not repeat it."
    else "The request could not be completed. Check the URL and scopes, then refresh connections."

-- The job at a place, and the others.
abbrev pub take_job : ℕ → List Job → Option (Job × List Job)
take_job n [] = none
take_job zero (j ∷ js) = some (j, js)
take_job (suc n) (j ∷ js) = elim (take_job n js) [ none ↦ none | some (k, ks) ↦ some (k, j ∷ ks) ]

-- `current`, the negation of what `check` throws at.
abbrev pub owns : Panel → String → Owner → Bool
owns s agent owner = not s.disposed && (nat_eq owner.token s.generation && owner.agent == agent)

abbrev pub reset_text : String
reset_text = "Choose Refresh to read the current account’s connections."

unfoldable pub reset : Panel → Panel × List Effect
reset s = (
  record s {
    generation = suc s.generation;
    busy = false;
    status = reset_text;
    server = "";
    scopes = "";
    acknowledge = false;
    connections = [];
    pending = [];
  },
  if s.has_controller then abort ∷ [] else [],
)

unfoldable pub dispose : Panel → Panel × List Effect
unfolding reset
dispose s = if s.disposed then (s, []) else (record ((reset s).0) { disposed = true }, (reset s).1)

-- The `catch` and the `finally` of `perform`, after a failure of the given status.
unfoldable pub fail : Panel → String → Owner → ℕ → Panel × List Effect
fail s agent owner status =
    if owns s agent owner
    then (record s { status = status_text status; busy = false }, [])
    else (s, [])

-- The `finally` after a success.
unfoldable pub finish : Panel → String → Owner → Panel × List Effect
finish s agent owner = if owns s agent owner then (record s { busy = false }, []) else (s, [])

-- `request` up to its answer.
unfoldable pub send :
    Panel → String → Owner → String → String → String → Waiting → Panel × List Effect
unfolding fail
send s agent owner method path body waiting =
    if owns s agent owner
    then (
      record s { jobs = record { owner = owner; waiting = waiting } ∷ s.jobs },
      request method (owner.base <> path) body ∷ [],
    )
    else fail s agent owner 0

-- The letters of base64url for those of base64, without padding.
abbrev pub base64url : String → String
unfolding replace_all
base64url s = strip_padding (replace_all b'/' "_" (replace_all b'+' "-" s))

module _ (c : Console) where
  abbrev pub base_of : String → String
  base_of agent =
      if is_blank agent
      then c.agent_url root
      else "/api/agent-routes/" <> (base64url (c.btoa agent) <> root)

  abbrev pub capture : Panel → String → Owner
  capture s agent = record { base = base_of agent; token = s.generation; agent = agent }

  -- `base.slice(0, -ROOT.length)`
  abbrev pub prefix_of : Owner → String
  prefix_of owner = slice_end 14 owner.base

  abbrev pub after_load : Option String → Bool → String
  after_load (some text) empty = text
  after_load none true = "No saved connectors for your account."
  after_load none false = "Connections loaded for your account."

  abbrev pub no_rows : List Value → Bool
  no_rows [] = true
  no_rows (v ∷ vs) = false

  -- `load` from the host's answer on.
  unfoldable pub show : Panel → String → Owner → Option String → Value → Panel × List Effect
  unfolding fail finish
  show s agent owner text result =
      if is_array (member result "connections")
      then (let rows = array_items (member result "connections") in
          let (cards, whole) = render_rows c.encode rows in
          if whole
          then finish
              (record s {
                connections = cards;
                pending = hint_buttons c.parse (prefix_of owner) s.storage;
                status = after_load text (no_rows rows);
              })
              agent owner
          else fail (record s { connections = cards }) agent owner 0)
      else fail s agent owner 0

  -- The end of the submission, with the checks around the storage of the hint.
  unfoldable pub consent :
      Panel → String → Bool → Owner → Outcome Authorization → Panel × List Effect
  unfolding fail finish
  consent s agent can_store owner (throw e) = fail s agent owner 0
  consent s agent can_store owner (ok a) =
      if owns s agent owner && can_store
      then (let hint = json_text (hint_of (prefix_of owner) a.operation_id) in
          let (t, es) =
            finish (record s { storage = set_item (hint_key <> a.state) hint s.storage }) agent
              owner in
          (t, navigate a.destination.href ∷ es))
      else fail s agent owner 0

  -- What an operation does with the answer that it awaits.
  unfoldable pub proceed : Panel → String → Bool → Owner → Waiting → Value → Panel × List Effect
  unfolding send show consent
  proceed s agent can_store owner (loading text) result = show s agent owner text result
  proceed s agent can_store owner (changing key text) result =
      send (record s { storage = remove_some key s.storage }) agent owner "GET" "/connections" ""
        (loading text)
  proceed s agent can_store owner authorizing started =
      consent s agent can_store owner (read_authorization c.platform c.states_of started)

  unfoldable pub settle : Panel → String → Bool → Job → Reply → Panel × List Effect
  unfolding fail proceed
  settle s agent can_store job (failure status) = fail s agent job.owner status
  settle s agent can_store job (success v) =
      if owns s agent job.owner
      then proceed s agent can_store job.owner job.waiting v
      else fail s agent job.owner 0

  -- A submission up to its request; the storage is tried first.
  unfoldable pub begin_authorization :
      Panel → String → Bool → Owner → Outcome (List String) → Panel × List Effect
  unfolding fail send
  begin_authorization s agent can_store owner (throw e) = fail s agent owner 0
  begin_authorization s agent can_store owner (ok requested) =
      if can_store
      then send (record s { storage = remove_item (hint_key <> "storage-check") s.storage }) agent
          owner "POST" "/authorizations" (json_text (begin_body s.server requested s.acknowledge))
          authorizing
      else fail s agent owner 0

  -- The body of an operation up to its first request.
  unfoldable pub begin : Panel → String → Bool → Owner → Operation → Panel × List Effect
  unfolding send begin_authorization finish
  begin s agent can_store owner reload = send s agent owner "GET" "/connections" "" (loading none)
  begin s agent can_store owner submit =
      begin_authorization s agent can_store owner (read_form c.platform s.server s.scopes)
  begin s agent can_store owner (connect path refresh) =
      send s agent owner "POST" (path <> "/connect")
        (json_text (obj (field "refresh" (bool refresh) end))) (changing none none)
  begin s agent can_store owner (disconnect path) = send s agent owner "DELETE" path "" (
      changing none (
        some
          "Local tokens and saved connection removed. Provider-side revocation was not attempted."))
  begin s agent can_store owner (prepare server scopes) =
      finish (record s { server = server; scopes = scopes }) agent owner
  begin s agent can_store owner (cancel key id) =
      send s agent owner "DELETE" ("/authorizations/" <> id) "" (changing (some key) none)

  unfoldable pub perform : Panel → String → Bool → Operation → Panel × List Effect
  unfolding begin
  perform s agent can_store operation =
      if s.busy || s.disposed
      then (s, [])
      else begin (record s { busy = true; has_controller = true }) agent can_store (capture s agent)
          operation

  unfoldable pub receive :
      Panel → String → Bool → Option (Job × List Job) → Reply → Panel × List Effect
  unfolding settle
  receive s agent can_store none reply = (s, [])
  receive s agent can_store (some (job, jobs)) reply =
      settle (record s { jobs = jobs }) agent can_store job reply

  unfoldable pub step : Panel → Event → Panel × List Effect
  unfolding perform receive reset dispose
  step s (clicked agent can_store operation) = perform s agent can_store operation
  step s (replied agent can_store place reply) =
      receive s agent can_store (take_job place s.jobs) reply
  step s actor_changed = if s.disposed then (s, []) else reset s
  step s disposal = dispose s
  step s (typed server scopes acknowledge) =
      (record s { server = server; scopes = scopes; acknowledge = acknowledge }, [])
  step s (stored storage) = (record s { storage = storage }, [])

  unfoldable pub play : Panel → List Event → Panel × List Effect
  unfolding step
  play s [] = (s, [])
  play s (e ∷ es) = ((play (step s e).0 es).0, (step s e).1 ++ (play (step s e).0 es).1)

-- The panel when it is mounted, over what the tab's storage holds.
unfoldable pub mounted_panel : List (String × String) → Panel
mounted_panel storage = record {
  generation = 0;
  busy = false;
  disposed = false;
  has_controller = false;
  jobs = [];
  status = first_status;
  server = "";
  scopes = "";
  acknowledge = false;
  connections = [];
  pending = [];
  storage = storage;
}
