-- ===== src/OauthPanel/Lanes.antt =====
-- What the panel asks of the host, and where it sends the browser.
use kestrel_feature_mcp.Prelude.{
  ℕ, String, Bool, true, false, ◌≡◌, refl, ap, ◌∙◌, ◌||◌, inl, inr, Option, none, some, List, [],
  ◌∷◌, eq_iff, All, arith, Bool-cases,
}
use kestrel_feature_mcp.Json.{◌<>◌}
use kestrel_feature_mcp.OauthState.{
  Owner, Job, Panel, Effect, request, abort, navigate, Event, clicked, replied, actor_changed,
  disposal, typed, stored, Console, Reply,
}
use kestrel_feature_mcp.OauthPanel.{
  take_job, reset, dispose, base_of, capture, perform, receive, step, play, mounted_panel,
}
use kestrel_feature_mcp.OauthPanel.Outcomes.{IsOwn, settle-Follows, begin-Follows}
use kestrel_feature_mcp.OauthPanel.Turns.{
  taken_lanes, IsLane, play-IsOrderly, mounted_panel-IsOrderly,
}

abbrev pub agent_of : Event → Option String
agent_of (clicked agent can_store o) = some agent
agent_of (replied agent can_store n reply) = some agent
agent_of e = none

All-map :
    {P Q : Effect → Type 0} → ((x : Effect) → P x → Q x) → (xs : List Effect) → All P xs → All Q xs
All-map f [] a = tt
All-map f (x ∷ xs) a = (f x a.0, All-map f xs a.1)

module _ (c : Console) where
  -- A request at an event of a panel that is there goes to the lane of the agent at the event.
  abbrev pub IsRouted : Panel → Event → Effect → Type 0
  IsRouted s e (request method path body) =
      (s.disposed ≡ false)
      × ((agent : String) × (agent_of e ≡ some agent)
          × ((suffix : String) × (path ≡ (base_of c agent <> suffix))))
  IsRouted s e abort = Unit
  IsRouted s e (navigate href) = Unit

  own-IsRouted :
      (s : Panel) (e : Event) (agent : String) (owner : Owner)
      → agent_of e ≡ some agent
      → owner.base ≡ base_of c owner.agent
      → (x : Effect) → IsOwn s agent owner x
      → IsRouted s e x
  own-IsRouted s e agent owner at lane (request method path body) (owned, (suffix, there)) =
      let same = (eq_iff owner.agent agent).0 (ground arith) in
      (
        ground arith,
        (
          agent,
          at,
          (suffix, there ∙ ap (λ (base : String). base <> suffix) (lane ∙ ap (base_of c) same)),
        ),
      )
  own-IsRouted s e agent owner at lane abort h = tt
  own-IsRouted s e agent owner at lane (navigate href) h = tt

  receive-IsRouted :
      (s : Panel) (e : Event) (agent : String) (can_store : Bool) (n : ℕ)
      (o : Option (Job × List Job)) (reply : Reply)
      → agent_of e ≡ some agent
      → take_job n s.jobs ≡ o
      → All (IsLane c) s.jobs
      → All (IsRouted s e) (receive c s agent can_store o reply).1
  unfolding receive
  receive-IsRouted s e agent can_store n none reply at h lanes = tt
  receive-IsRouted s e agent can_store n (some (j, js)) reply at h lanes =
      let left = record s { jobs = js } in
      All-map (own-IsRouted s e agent j.owner at (taken_lanes c n s.jobs j js h lanes).0) _
        (settle-Follows c left agent can_store j reply).3

  step-IsRouted :
      (s : Panel) (e : Event) → All (IsLane c) s.jobs → All (IsRouted s e) (step c s e).1
  unfolding step perform reset dispose
  step-IsRouted s (clicked agent can_store o) lanes = elim (Bool-cases (s.busy || s.disposed)) [
    | inl h ↦ rw h tt
    | inr h ↦ rw h (
        let t = record s { busy = true; has_controller = true } in
        All-map (own-IsRouted s (clicked agent can_store o) agent (capture c s agent) refl refl) _
          (begin-Follows c t agent can_store (capture c s agent) o).3)
  ]
  step-IsRouted s (replied agent can_store n reply) lanes =
      receive-IsRouted s (replied agent can_store n reply) agent can_store n (take_job n s.jobs)
        reply refl refl lanes
  step-IsRouted s actor_changed lanes = ground arith
  step-IsRouted s disposal lanes = ground arith
  step-IsRouted s (typed server scopes acknowledge) lanes = tt
  step-IsRouted s (stored storage) lanes = tt

  -- No request leaves its actor: whatever has happened to a panel, each request at the next event is
  -- made while the panel is there, and goes to the address of the agent that is selected at that very
  -- moment, also where it follows on an answer to one of before.
  pub play-IsRouted :
      (storage : List (String × String)) (before : List Event) (e : Event)
      → let s = (play c (mounted_panel storage) before).0 in All (IsRouted s e) (step c s e).1
  play-IsRouted storage before e =
      let s = (play c (mounted_panel storage) before).0 in
      let i = play-IsOrderly c (mounted_panel storage) before (mounted_panel-IsOrderly c storage) in
      step-IsRouted s e i.lanes
