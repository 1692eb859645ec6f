-- ===== src/OauthPanel/Consent.antt =====
-- Where the panel sends the browser for consent.
use kestrel_feature_mcp.Prelude.{
  blank_lem, ◌≤◌, utf16_length, set_item, lookup-set_item, ℕ, String, Bool, true, ◌≡◌, refl, ap,
  ◌∙◌, ◌&&◌, ◌||◌, inl, inr, Option, none, some, List, [], ◌∷◌, eq_iff, eq_refl, All, arith,
  Bool-cases, if_both, Outcome, ok, throw, >>=-eq-ok, or_throw-eq-ok, require->>=, or_throw,
  type_error, error, lookup, ok-injective,
}
use mathlib.Core.Path.{subst}
use kestrel_feature_mcp.Json.{◌<>◌}
use kestrel_feature_mcp.Value.{Value, member, is_array, array_items, get}
use kestrel_feature_mcp.Platform.{Platform, Url}
use kestrel_feature_mcp.AppReply.{json_text}
use kestrel_feature_mcp.Launcher.{reference_text}
use kestrel_feature_mcp.OauthReply.{
  Operation, reload, submit, connect, disconnect, prepare, cancel, render_rows, hint_key, hint_of,
  slice_end, Authorization, read_form, read_authorization, is_destination, has_reference, single,
}
use kestrel_feature_mcp.OauthState.{
  Owner, Waiting, loading, changing, authorizing, Job, Panel, Effect, navigate, Event, clicked,
  replied, actor_changed, disposal, typed, stored, Reply, success, failure, Console,
}
use kestrel_feature_mcp.OauthPanel.{
  take_job, owns, fail, finish, send, reset, dispose, prefix_of, base_of, capture, show, consent,
  proceed, settle, begin_authorization, begin, perform, receive, step, play, mounted_panel,
}
use kestrel_feature_mcp.OauthPanel.Turns.{
  IsLane, taken_lanes, play-IsOrderly, mounted_panel-IsOrderly,
}
use kestrel_feature_mcp.OauthPanel.Lanes.{agent_of}

single_lem : (ss : List String) (s : String) → single ss ≡ some s → ss ≡ s ∷ []
single_lem [] s h = ground arith
single_lem (t ∷ []) s h = ground arith
single_lem (t ∷ u ∷ ss) s h = ground arith

-- What the code checks of an authorization against the host's answer, in the words of its URLs: the
-- destination is the URL that the answer gives, and the issuer the one that it names.
pub record IsAuthorization (p : Platform) (states_of : Url → List String) (started : Value)
    (a : Authorization) : Type 0 where
  pub address : Value
  pub given : get started "authorization_url" ≡ ok address
  pub read : p.new_url address ≡ some a.destination
  pub issuer : Url
  pub named : p.new_url (member started "issuer") ≡ some issuer
  pub protocol : a.destination.protocol ≡ "https:"
  pub username : a.destination.username ≡ ""
  pub password : a.destination.password ≡ ""
  pub origin : a.destination.origin ≡ issuer.origin
  pub states : states_of a.destination ≡ a.state ∷ []
  pub long : 16 ≤ utf16_length a.state
  pub short : utf16_length a.state ≤ 1024
  pub operation : a.operation_id ≡ member started "operation_id"
  pub id : String
  pub reference : reference_text (member started "operation_id") ≡ some id

-- The host's answer that an event brings.
abbrev pub answer_of : Event → Option Value
answer_of (replied agent can_store n (success v)) = some v
answer_of e = none

reference_lem : (v : Value) → has_reference v ≡ true → (id : String) × (reference_text v ≡ some id)
reference_lem v h = named (reference_text v) refl
  where
    named :
        (o : Option String) → reference_text v ≡ o → (id : String) × (reference_text v ≡ some id)
    named none e = cc
    named (some id) e = (id, e)

module _ (p : Platform) (states_of : Url → List String) where
  read_authorization-IsAuthorization :
      (started : Value) (a : Authorization)
      → read_authorization p states_of started ≡ ok a
      → IsAuthorization p states_of started a
  unfolding read_authorization
  read_authorization-IsAuthorization started a h =
      let (address, got, h1) = >>=-eq-ok (get started "authorization_url") _ h in
      let (destination, parsed, h2) =
        >>=-eq-ok (or_throw (p.new_url address) (type_error "Invalid URL")) _ h1 in
      let (issuer, issued, h3) =
        >>=-eq-ok (or_throw (p.new_url (member started "issuer")) (type_error "Invalid URL")) _
          h2 in
      let (state, only, h4) =
        >>=-eq-ok (or_throw (single (states_of destination)) (error "Invalid authorization owner"))
          _ h3 in
      let (checked, made) =
        require->>=
          (is_destination destination issuer state && has_reference (member started "operation_id"))
          _ _ h4 in
      let (id, reference) = reference_lem (member started "operation_id") (ground arith) in
      subst (λ (a : Authorization). IsAuthorization p states_of started a) (ok-injective made)
        (record {
          address = address;
          given = got;
          read = or_throw-eq-ok (p.new_url address) _ parsed;
          issuer = issuer;
          named = or_throw-eq-ok (p.new_url (member started "issuer")) _ issued;
          protocol = (eq_iff destination.protocol "https:").0 (ground arith);
          username = blank_lem destination.username (ground arith);
          password = blank_lem destination.password (ground arith);
          origin = (eq_iff destination.origin issuer.origin).0 (ground arith);
          states =
              single_lem (states_of destination) state
                (or_throw-eq-ok (single (states_of destination)) _ only);
          long = ground arith;
          short = ground arith;
          operation = refl;
          id = id;
          reference = reference;
        })

module _ (c : Console) where
  -- The browser is sent to the URL of an authorization that is checked against the answer of the event,
  -- whose hint the storage has.
  abbrev pub IsConsented : Event → List (String × String) → Effect → Type 0
  IsConsented e storage (navigate href) =
      (agent : String) × (started : Value) × (a : Authorization) × (agent_of e ≡ some agent)
      × (answer_of e ≡ some started)
      × IsAuthorization c.platform c.states_of started a
      × (href ≡ a.destination.href)
      × (lookup (hint_key <> a.state) storage
          ≡ some (json_text (hint_of (slice_end 14 (base_of c agent)) a.operation_id)))
  IsConsented e storage effect = Unit

  abbrev Consents : Event → Panel × List Effect → Type 0
  Consents e r = All (IsConsented e r.0.storage) r.1

  fail-Consents :
      (e : Event) (s : Panel) (agent : String) (owner : Owner) (n : ℕ)
      → Consents e (fail s agent owner n)
  unfolding fail
  fail-Consents e s agent owner n = if_both (Consents e) (owns s agent owner) tt tt

  finish-Consents :
      (e : Event) (s : Panel) (agent : String) (owner : Owner) → Consents e (finish s agent owner)
  unfolding finish
  finish-Consents e s agent owner = if_both (Consents e) (owns s agent owner) tt tt

  send-Consents :
      (e : Event) (s : Panel) (agent : String) (owner : Owner) (method path body : String)
      (w : Waiting)
      → Consents e (send s agent owner method path body w)
  unfolding send
  send-Consents e s agent owner method path body w =
      if_both (Consents e) (owns s agent owner) (tt, tt) (fail-Consents e s agent owner 0)

  show-Consents :
      (e : Event) (s : Panel) (agent : String) (owner : Owner) (text : Option String) (v : Value)
      → Consents e (show c s agent owner text v)
  unfolding show
  show-Consents e s agent owner text v =
      if_both (Consents e) (is_array (member v "connections"))
        (if_both (Consents e) (render_rows c.encode (array_items (member v "connections"))).1
          (finish-Consents e _ agent owner) (fail-Consents e _ agent owner 0))
        (fail-Consents e s agent owner 0)

  finish_stores :
      (s : Panel) (agent : String) (owner : Owner) → (finish s agent owner).0.storage ≡ s.storage
  unfolding finish
  finish_stores s agent owner = ground arith

  consent-Consents :
      (s : Panel) (agent : String) (can_store : Bool) (n : ℕ) (owner : Owner) (v : Value)
      → owner.base ≡ base_of c owner.agent
      → Consents
          (replied agent can_store n (success v))
          (consent c s agent can_store owner (read_authorization c.platform c.states_of v))
  unfolding consent
  consent-Consents s agent can_store n owner v lane =
      by_answer (read_authorization c.platform c.states_of v) refl
    where
      by_answer :
          (r : Outcome Authorization)
          → read_authorization c.platform c.states_of v ≡ r
          → Consents (replied agent can_store n (success v)) (consent c s agent can_store owner r)
      by_answer (throw e) h = fail-Consents (replied agent can_store n (success v)) s agent owner 0
      by_answer (ok a) h = elim (Bool-cases (owns s agent owner && can_store)) [
        | inl mine ↦ rw mine (
            let hint = json_text (hint_of (prefix_of c owner) a.operation_id) in
            let t = record s { storage = set_item (hint_key <> a.state) hint s.storage } in
            let same = (eq_iff owner.agent agent).0 (ground arith) in
            let base = lane ∙ ap (base_of c) same in
            let kept =
              ap (lookup (hint_key <> a.state)) (finish_stores t agent owner)
              ∙ (lookup-set_item (hint_key <> a.state) (hint_key <> a.state) hint s.storage
                  ∙ rw (eq_refl (hint_key <> a.state)) refl) in
            (
              (
                agent,
                v,
                a,
                refl,
                refl,
                read_authorization-IsAuthorization c.platform c.states_of v a h,
                refl,
                kept
                    ∙ ap
                        (λ (b : String). some (json_text (hint_of (slice_end 14 b) a.operation_id)))
                        base,
              ),
              finish-Consents (replied agent can_store n (success v)) t agent owner,
            ))
        | inr late ↦ rw late (fail-Consents (replied agent can_store n (success v)) s agent owner 0)
      ]

  proceed-Consents :
      (s : Panel) (agent : String) (can_store : Bool) (n : ℕ) (owner : Owner) (w : Waiting)
      (v : Value)
      → owner.base ≡ base_of c owner.agent
      → Consents (replied agent can_store n (success v)) (proceed c s agent can_store owner w v)
  unfolding proceed
  proceed-Consents s agent can_store n owner (loading text) v lane =
      show-Consents (replied agent can_store n (success v)) s agent owner text v
  proceed-Consents s agent can_store n owner (changing key text) v lane =
      send-Consents (replied agent can_store n (success v)) _ agent owner _ _ _ _
  proceed-Consents s agent can_store n owner authorizing v lane =
      consent-Consents s agent can_store n owner v lane

  settle-Consents :
      (s : Panel) (agent : String) (can_store : Bool) (n : ℕ) (job : Job) (reply : Reply)
      → job.owner.base ≡ base_of c job.owner.agent
      → Consents (replied agent can_store n reply) (settle c s agent can_store job reply)
  unfolding settle
  settle-Consents s agent can_store n job (failure status) lane =
      fail-Consents (replied agent can_store n (failure status)) s agent job.owner status
  settle-Consents s agent can_store n job (success v) lane =
      if_both (Consents (replied agent can_store n (success v))) (owns s agent job.owner)
        (proceed-Consents s agent can_store n job.owner job.waiting v lane)
        (fail-Consents (replied agent can_store n (success v)) s agent job.owner 0)

  begin-Consents :
      (e : Event) (s : Panel) (agent : String) (can_store : Bool) (owner : Owner) (o : Operation)
      → Consents e (begin c s agent can_store owner o)
  unfolding begin begin_authorization
  begin-Consents e s agent can_store owner reload = send-Consents e s agent owner _ _ _ _
  begin-Consents e s agent can_store owner submit = begins (read_form c.platform s.server s.scopes)
    where
      begins :
          (r : Outcome (List String)) → Consents e (begin_authorization c s agent can_store owner r)
      begins (throw x) = fail-Consents e s agent owner 0
      begins (ok requested) =
          if_both (Consents e) can_store (send-Consents e _ agent owner _ _ _ _)
            (fail-Consents e s agent owner 0)
  begin-Consents e s agent can_store owner (connect path refresh) =
      send-Consents e s agent owner _ _ _ _
  begin-Consents e s agent can_store owner (disconnect path) = send-Consents e s agent owner _ _ _ _
  begin-Consents e s agent can_store owner (prepare server scopes) = finish-Consents e _ agent owner
  begin-Consents e s agent can_store owner (cancel key id) = send-Consents e s agent owner _ _ _ _

  receive-Consents :
      (s : Panel) (agent : String) (can_store : Bool) (n : ℕ) (o : Option (Job × List Job))
      (reply : Reply)
      → take_job n s.jobs ≡ o
      → All (IsLane c) s.jobs
      → Consents (replied agent can_store n reply) (receive c s agent can_store o reply)
  unfolding receive
  receive-Consents s agent can_store n none reply h lanes = tt
  receive-Consents s agent can_store n (some (j, js)) reply h lanes =
      settle-Consents (record s { jobs = js }) agent can_store n j reply
        (taken_lanes c n s.jobs j js h lanes).0

  reset-Consents : (e : Event) (s : Panel) → Consents e (reset s)
  unfolding reset
  reset-Consents e s = if_both (All (IsConsented e s.storage)) s.has_controller (tt, tt) tt

  dispose-Consents : (e : Event) (s : Panel) → Consents e (dispose s)
  unfolding dispose reset
  dispose-Consents e s =
      if_both (Consents e) s.disposed tt
        (if_both (All (IsConsented e s.storage)) s.has_controller (tt, tt) tt)

  step-Consents : (s : Panel) (e : Event) → All (IsLane c) s.jobs → Consents e (step c s e)
  unfolding step perform
  step-Consents s (clicked agent can_store o) lanes =
      if_both (Consents (clicked agent can_store o)) (s.busy || s.disposed) tt (
        begin-Consents (clicked agent can_store o) (record s { busy = true; has_controller = true })
          agent can_store (capture c s agent) o)
  step-Consents s (replied agent can_store n reply) lanes =
      receive-Consents s agent can_store n (take_job n s.jobs) reply refl lanes
  step-Consents s actor_changed lanes =
      if_both (Consents actor_changed) s.disposed tt (reset-Consents actor_changed s)
  step-Consents s disposal lanes = dispose-Consents disposal s
  step-Consents s (typed server scopes acknowledge) lanes = tt
  step-Consents s (stored storage) lanes = tt

  -- Consent is asked of the issuer alone: whatever has happened to a panel, where the next event sends
  -- the browser to a URL, that event brings an answer of the host, and the URL is the one that this
  -- answer gives as `authorization_url`: of `https` and without credentials, of the origin of the URL
  -- that the same answer names as the `issuer`, with one `state` of 16 to 1024 code units, beside an
  -- operation's id of the right form. The storage then has the hint for that `state`, with the
  -- operation's id and the address of the agent that is selected at that moment.
  pub play-IsConsented :
      (storage : List (String × String)) (before : List Event) (e : Event)
      → let s = (play c (mounted_panel storage) before).0 in
        All (IsConsented e (step c s e).0.storage) (step c s e).1
  play-IsConsented storage before e =
      let s = (play c (mounted_panel storage) before).0 in
      let i = play-IsOrderly c (mounted_panel storage) before (mounted_panel-IsOrderly c storage) in
      step-Consents s e i.lanes
