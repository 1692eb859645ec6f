-- ===== src/OauthPanel/Outcomes.antt =====
-- What one operation of the panel does to the state that it starts in.
use kestrel_feature_mcp.Prelude.{
  set_item, remove_item, ℕ, String, Bool, true, false, ◌≡◌, refl, ◌⊎◌, inl, inr, ◌&&◌, Option, List,
  [], ◌∷◌, Outcome, ok, throw, All, Bool-cases, if◌then◌else◌,
}
use kestrel_feature_mcp.Json.{◌<>◌}
use kestrel_feature_mcp.Value.{Value, member, is_array, array_items}
use kestrel_feature_mcp.AppReply.{json_text}
use kestrel_feature_mcp.OauthReply.{
  Operation, reload, submit, connect, disconnect, prepare, cancel, render_rows, hint_buttons,
  hint_key, hint_of, Authorization, read_form, read_authorization,
}
use kestrel_feature_mcp.OauthState.{
  Owner, Waiting, loading, changing, authorizing, Job, Panel, Effect, request, abort, navigate,
  Reply, success, failure, Console,
}
use kestrel_feature_mcp.OauthPanel.{
  owns, remove_some, prefix_of, after_load, no_rows, fail, finish, send, show, consent, proceed,
  settle, begin_authorization, begin,
}

-- A request of an operation goes to its owner's lane, while the owner is the actor.
abbrev pub IsOwn : Panel → String → Owner → Effect → Type 0
IsOwn s agent owner (request method path body) =
    (owns s agent owner ≡ true) × ((suffix : String) × (path ≡ (owner.base <> suffix)))
IsOwn s agent owner abort = Unit
IsOwn s agent owner (navigate href) = Unit

-- The operation ends, or awaits one more answer.
abbrev pub Awaits : Panel → String → Owner → Panel → Type 0
Awaits s agent owner t =
    (t.jobs ≡ s.jobs)
    ⊎ ((w : Waiting) × (t.jobs ≡ record { owner = owner; waiting = w } ∷ s.jobs)
        × (t.busy ≡ s.busy)
        × (owns s agent owner ≡ true))

-- With the generation and the disposal as they were, and each effect the owner's.
abbrev pub Follows : Panel → String → Owner → Panel × List Effect → Type 0
Follows s agent owner r =
    (r.0.generation ≡ s.generation)
    × (r.0.disposed ≡ s.disposed)
    × Awaits s agent owner r.0
    × All (IsOwn s agent owner) r.1

pub fail-Follows :
    (s : Panel) (agent : String) (owner : Owner) (n : ℕ)
    → Follows s agent owner (fail s agent owner n)
unfolding fail
fail-Follows s agent owner n = elim (Bool-cases (owns s agent owner)) [
  | inl h ↦ rw h (refl, refl, inl refl, tt)
  | inr h ↦ rw h (refl, refl, inl refl, tt)
]

finish-Follows :
    (s : Panel) (agent : String) (owner : Owner) → Follows s agent owner (finish s agent owner)
unfolding finish
finish-Follows s agent owner = elim (Bool-cases (owns s agent owner)) [
  | inl h ↦ rw h (refl, refl, inl refl, tt)
  | inr h ↦ rw h (refl, refl, inl refl, tt)
]

send-Follows :
    (s : Panel) (agent : String) (owner : Owner) (method path body : String) (w : Waiting)
    → Follows s agent owner (send s agent owner method path body w)
unfolding send fail
send-Follows s agent owner method path body w = elim (Bool-cases (owns s agent owner)) [
  | inl h ↦ rw h (refl, refl, inr (w, refl, refl, refl), ((h, (path, refl)), tt))
  | inr h ↦ rw h (refl, refl, inl refl, tt)
]

module _ (c : Console) where
  show-Follows :
      (s : Panel) (agent : String) (owner : Owner) (text : Option String) (result : Value)
      → Follows s agent owner (show c s agent owner text result)
  unfolding show
  show-Follows s agent owner text result =
      elim (Bool-cases (is_array (member result "connections"))) [
        | inl h ↦ rw h (shown (render_rows c.encode (array_items (member result "connections"))).1)
        | inr h ↦ rw h (fail-Follows s agent owner 0)
      ]
    where
      rows : List Value
      rows = array_items (member result "connections")

      shown :
          (whole : Bool)
          → Follows s agent owner (
              if whole
              then finish
                  (record s {
                    connections = (render_rows c.encode rows).0;
                    pending = hint_buttons c.parse (prefix_of c owner) s.storage;
                    status = after_load c text (no_rows c rows);
                  })
                  agent
                  owner
              else fail (record s { connections = (render_rows c.encode rows).0 }) agent owner 0)
      shown true =
          finish-Follows
            (record s {
              connections = (render_rows c.encode rows).0;
              pending = hint_buttons c.parse (prefix_of c owner) s.storage;
              status = after_load c text (no_rows c rows);
            })
            agent owner
      shown false =
          fail-Follows (record s { connections = (render_rows c.encode rows).0 }) agent owner 0

  consent-Follows :
      (s : Panel) (agent : String) (can_store : Bool) (owner : Owner) (a : Outcome Authorization)
      → Follows s agent owner (consent c s agent can_store owner a)
  unfolding consent
  consent-Follows s agent can_store owner (throw e) = fail-Follows s agent owner 0
  consent-Follows s agent can_store owner (ok a) =
      elim (Bool-cases (owns s agent owner && can_store)) [
        | inl h ↦ rw h (
            let f =
              finish-Follows
                (record s {
                  storage =
                      set_item (hint_key <> a.state)
                        (json_text (hint_of (prefix_of c owner) a.operation_id)) s.storage;
                })
                agent owner in
            (f.0, f.1, f.2, (tt, f.3)))
        | inr h ↦ rw h (fail-Follows s agent owner 0)
      ]

  proceed-Follows :
      (s : Panel) (agent : String) (can_store : Bool) (owner : Owner) (w : Waiting) (v : Value)
      → Follows s agent owner (proceed c s agent can_store owner w v)
  unfolding proceed
  proceed-Follows s agent can_store owner (loading text) v = show-Follows s agent owner text v
  proceed-Follows s agent can_store owner (changing key text) v =
      send-Follows (record s { storage = remove_some key s.storage }) agent owner "GET"
        "/connections" "" (loading text)
  proceed-Follows s agent can_store owner authorizing v =
      consent-Follows s agent can_store owner (read_authorization c.platform c.states_of v)

  pub settle-Follows :
      (s : Panel) (agent : String) (can_store : Bool) (job : Job) (reply : Reply)
      → Follows s agent job.owner (settle c s agent can_store job reply)
  unfolding settle fail
  settle-Follows s agent can_store job (failure n) = fail-Follows s agent job.owner n
  settle-Follows s agent can_store job (success v) = either (owns s agent job.owner)
    where
      either :
          (b : Bool)
          → Follows s agent job.owner (
              if b
              then proceed c s agent can_store job.owner job.waiting v
              else fail s agent job.owner 0)
      either true = proceed-Follows s agent can_store job.owner job.waiting v
      either false = fail-Follows s agent job.owner 0

  begin_authorization-Follows :
      (s : Panel) (agent : String) (can_store : Bool) (owner : Owner) (r : Outcome (List String))
      → Follows s agent owner (begin_authorization c s agent can_store owner r)
  unfolding begin_authorization
  begin_authorization-Follows s agent can_store owner (throw e) = fail-Follows s agent owner 0
  begin_authorization-Follows s agent true owner (ok requested) =
      send-Follows (record s { storage = remove_item (hint_key <> "storage-check") s.storage })
        agent owner _ _ _ _
  begin_authorization-Follows s agent false owner (ok requested) = fail-Follows s agent owner 0

  pub begin-Follows :
      (s : Panel) (agent : String) (can_store : Bool) (owner : Owner) (o : Operation)
      → Follows s agent owner (begin c s agent can_store owner o)
  unfolding begin
  begin-Follows s agent can_store owner reload = send-Follows s agent owner _ _ _ _
  begin-Follows s agent can_store owner submit =
      begin_authorization-Follows s agent can_store owner (read_form c.platform s.server s.scopes)
  begin-Follows s agent can_store owner (connect path refresh) = send-Follows s agent owner _ _ _ _
  begin-Follows s agent can_store owner (disconnect path) = send-Follows s agent owner _ _ _ _
  begin-Follows s agent can_store owner (prepare server scopes) =
      finish-Follows (record s { server = server; scopes = scopes }) agent owner
  begin-Follows s agent can_store owner (cancel key id) = send-Follows s agent owner _ _ _ _

  -- An answer that comes when its owner is not the actor does nothing.
  pub settle_stale :
      (s : Panel) (agent : String) (can_store : Bool) (job : Job) (reply : Reply)
      → owns s agent job.owner ≡ false
      → settle c s agent can_store job reply ≡ (s, [])
  unfolding settle fail
  settle_stale s agent can_store job (failure n) h = rw h refl
  settle_stale s agent can_store job (success v) h = rw h refl
