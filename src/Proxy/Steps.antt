-- ===== src/Proxy/Steps.antt =====
-- What the proxy can do at one event, as a relation, and that it does no more.
use kestrel_feature_mcp.Prelude.{
  eq_iff, ◌+◌, ◌≤◌, String, Bool, true, false, ◌≡◌, refl, sym, ap, not, ◌&&◌, ◌||◌, Option, none,
  some, List, [], ◌∷◌, ◌++◌, ltb, utf8_length, Outcome, ok, throw, Exception, foreign, >>=-eq-ok,
  ok-injective, or_throw-eq-ok, require->>=, conditional, or_throw, and-true_parts, Bool-cases, inl,
  inr, arith, ◌⊎◌,
}
use kestrel_feature_mcp.Value.{Value, member, has_key, is_text, strictly_equal}
use kestrel_feature_mcp.Platform.{Platform, ResourceReady}
use kestrel_feature_mcp.Policy.{Approved, approve_sandbox_policy}
use kestrel_feature_mcp.Transport.{validate_message}
use kestrel_feature_mcp.Proxy.{
  Settings, Phase, empty, loaded, initializing, responded, initialized, View, Proxy, Effect,
  to_host, to_view, mount, report, Source, host_window, view_window, other_window, Event, message,
  view_load, disposal, is_host, has_view, is_empty_phase, is_reserved, is_opaque, dispose, settle,
  from_view, from_host, view_of, load_resource, pass_on, relay, handle, is_heard, loaded_again,
  step,
}

module _ (build : List String → String) (p : Platform) (g : Settings) where
  -- A message that may cross: validated, within the byte limit, and not the proxy's own.
  pub record Crosses (m : Value) : Type 0 where
    pub received : Value
    pub valid : validate_message p received g.max_message_bytes ≡ ok m
    pub free : is_reserved (member m "method") ≡ ok false

  -- The value that a View is shown for: a valid message that names the ready resource, which the
  -- schema reads, within the HTML limit, opaque, and with the grants that the policy approves for the
  -- domains and the devices that this resource asks for.
  pub record IsResource (received : Value) (v : View) : Type 0 where
    pub ready : Value
    pub valid : validate_message p received g.max_message_bytes ≡ ok ready
    pub named : is_text (member ready "method") "ui/notifications/sandbox-resource-ready" ≡ true
    pub params : ResourceReady
    pub parsed : p.resource_ready ready ≡ some params
    pub approved : Approved
    pub within : utf8_length params.html ≤ g.max_html_bytes
    pub opaque : (params.sandbox ≡ none) ⊎ (params.sandbox ≡ some "allow-scripts")
    pub granted : approve_sandbox_policy p params.csp params.permissions g.grants ≡ ok approved
    pub shown : v ≡ view_of build p g params approved

  -- A message that is answered without an error.
  pub data Move (source : Source) (received : Value) (s : Proxy) (t : Proxy) (es : List Effect)
      : Type 0 where
    ignore : t ≡ s → es ≡ [] → Move source received s t es
    load :
        (v : View)
        → is_host source ≡ true
        → s.phase ≡ empty
        → IsResource received v
        → t ≡ record s { view = some v; phase = loaded }
        → es ≡ mount v ∷ []
        → Move source received s t es
    initialize :
        (m : Value)
        → Crosses m
        → s.phase ≡ loaded
        → is_text (member m "method") "ui/initialize" ≡ true
        → has_key m "id" ≡ true
        → t ≡ record s { initialize_id = member m "id"; phase = initializing }
        → es ≡ to_host m ∷ []
        → Move source received s t es
    respond :
        (m : Value)
        → Crosses m
        → s.phase ≡ initializing
        → strictly_equal (member m "id") s.initialize_id ≡ true
        → has_key m "result" ≡ true
        → t ≡ record s { phase = responded }
        → es ≡ to_view m ∷ []
        → Move source received s t es
    confirm :
        (m : Value)
        → Crosses m
        → s.phase ≡ responded
        → p.is_initialized m ≡ true
        → t ≡ record s { phase = initialized }
        → es ≡ to_host m ∷ []
        → Move source received s t es
    speak :
        (m : Value)
        → Crosses m
        → s.phase ≡ initialized
        → t ≡ s
        → (es ≡ to_host m ∷ []) ⊎ (es ≡ to_view m ∷ [])
        → Move source received s t es

  from_view-Move :
      {source : Source} {received : Value} (s : Proxy) (ph : Phase) (m : Value) {t : Proxy}
      {es : List Effect}
      → s.phase ≡ ph
      → Crosses m
      → from_view p s ph m ≡ ok (t, es)
      → Move source received s t es
  unfolding from_view
  from_view-Move s initialized m e c h = speak m c e (ground arith) (inl (ground arith))
  from_view-Move s loaded m e c h =
      let x = conditional _ _ _ h in
      let (a, b) = and-true_parts _ _ x.0 in
      initialize m c e a b (ground (arith, x.1)) (ground (arith, x.1))
  from_view-Move s responded m e c h =
      let x = conditional _ _ _ h in confirm m c e x.0 (ground (arith, x.1)) (ground (arith, x.1))
  from_view-Move s empty m e c h = cc
  from_view-Move s initializing m e c h = cc

  from_host-Move :
      {source : Source} {received : Value} (s : Proxy) (ph : Phase) (m : Value) {t : Proxy}
      {es : List Effect}
      → s.phase ≡ ph
      → Crosses m
      → from_host s ph m ≡ ok (t, es)
      → Move source received s t es
  unfolding from_host
  from_host-Move s initialized m e c h = speak m c e (ground arith) (inr (ground arith))
  from_host-Move s initializing m e c h =
      let x = conditional _ _ _ h in
      let (a, b) = and-true_parts _ _ x.0 in
      respond m c e a b (ground (arith, x.1)) (ground (arith, x.1))
  from_host-Move s empty m e c h = cc
  from_host-Move s loaded m e c h = cc
  from_host-Move s responded m e c h = cc

  empty_phase : (ph : Phase) → is_empty_phase ph ≡ true → ph ≡ empty
  empty_phase empty h = refl
  empty_phase loaded h = cc
  empty_phase initializing h = cc
  empty_phase responded h = cc
  empty_phase initialized h = cc

  opaque_lem : (o : Option String) → is_opaque o ≡ true → (o ≡ none) ⊎ (o ≡ some "allow-scripts")
  opaque_lem none h = inl refl
  opaque_lem (some s) h = inr (ap some ((eq_iff s "allow-scripts").0 h))

  load_resource-Move :
      (s : Proxy) (source : Source) (received m : Value) {t : Proxy} {es : List Effect}
      → is_host source ≡ true
      → validate_message p received g.max_message_bytes ≡ ok m
      → is_text (member m "method") "ui/notifications/sandbox-resource-ready" ≡ true
      → load_resource build p g s m ≡ ok (t, es)
      → Move source received s t es
  unfolding load_resource
  load_resource-Move s source received m host valid named h =
      let (vacant, h1) = require->>= (is_empty_phase s.phase) _ _ h in
      let (params, parsed, h2) =
        >>=-eq-ok (or_throw (p.resource_ready m) (foreign "ZodError")) _ h1 in
      let (within, h3) =
        require->>= (not (ltb g.max_html_bytes (utf8_length params.html))) _ _ h2 in
      let (opaque, h4) = require->>= (is_opaque params.sandbox) _ _ h3 in
      let (approved, granted, h5) =
        >>=-eq-ok (approve_sandbox_policy p params.csp params.permissions g.grants) _ h4 in
      let made = ok-injective h5 in
      load (view_of build p g params approved) host (empty_phase s.phase vacant)
        (record {
          ready = m;
          valid = valid;
          named = named;
          params = params;
          parsed = or_throw-eq-ok (p.resource_ready m) _ parsed;
          approved = approved;
          within = ground arith;
          opaque = opaque_lem params.sandbox opaque;
          granted = granted;
          shown = refl;
        })
        (sym (ap (λ r. r.0) made)) (sym (ap (λ r. r.1) made))

  pass_on-Move :
      {received : Value} (s : Proxy) (source : Source) (m : Value) {t : Proxy} {es : List Effect}
      → Crosses m
      → pass_on build p g s source m ≡ ok (t, es)
      → Move source received s t es
  unfolding pass_on
  pass_on-Move s view_window m c h =
      from_view-Move s s.phase m refl c (require->>= (has_view s.view) _ _ h).1
  pass_on-Move s host_window m c h =
      from_host-Move s s.phase m refl c (require->>= (has_view s.view) _ _ h).1
  pass_on-Move s other_window m c h =
      from_host-Move s s.phase m refl c (require->>= (has_view s.view) _ _ h).1

  relay-Move :
      (s : Proxy) (source : Source) (m value : Value) (own : Bool) {t : Proxy} {es : List Effect}
      → validate_message p value g.max_message_bytes ≡ ok m
      → is_reserved (member m "method") ≡ ok own
      → relay build p g s source m own ≡ ok (t, es)
      → Move source value s t es
  unfolding relay
  relay-Move s source m value false v r h =
      pass_on-Move s source m (record { received = value; valid = v; free = r }) h
  relay-Move s source m value true v r h =
      elim (Bool-cases
        (is_host source && is_text (member m "method") "ui/notifications/sandbox-resource-ready")) [
          | inl ready ↦
              let (host, named) = and-true_parts (is_host source) _ ready in
              load_resource-Move s source value m host v named (rw ready at h)
          | inr not_ready ↦
              let same = ok-injective (rw not_ready at h) in
              ignore (sym (ap (λ r. r.0) same)) (sym (ap (λ r. r.1) same))
        ]

  handle-Move :
      (s : Proxy) (source : Source) (value : Value) {t : Proxy} {es : List Effect}
      → handle build p g s source value ≡ ok (t, es)
      → Move source value s t es
  unfolding handle
  handle-Move s source value h =
      let (m, valid, h1) = >>=-eq-ok (validate_message p value g.max_message_bytes) _ h in
      let (own, named, h2) = >>=-eq-ok (is_reserved (member m "method")) _ h1 in
      relay-Move s source m value own valid named h2

  -- A message of an event that the proxy listens to.
  abbrev pub Hears : Proxy → Event → Source → Value → Type 0
  Hears s e source received =
      (origin : String) × (e ≡ message source origin received)
      × (is_heard build p g s source origin ≡ true)

  -- What happens at one event. Nothing but an open proxy moves or fails.
  pub data Step (e : Event) (s : Proxy) (t : Proxy) (es : List Effect) : Type 0 where
    quiet : t ≡ s → es ≡ [] → Step e s t es
    move :
        (source : Source) (received : Value)
        → Hears s e source received
        → s.closed ≡ false
        → Move source received s t es
        → Step e s t es
    fail :
        (x : Exception)
        → s.closed ≡ false
        → t ≡ (dispose s).0
        → es ≡ (dispose s).1 ++ report x ∷ []
        → Step e s t es
    settle_load :
        (v : View)
        → s.view ≡ some v
        → v.loads ≡ 0
        → t ≡ record s { view = some (record v { loads = v.loads + 1 }) }
        → es ≡ []
        → Step e s t es
    navigate :
        (v : View) (x : Exception)
        → s.view ≡ some v
        → t ≡ (dispose (record s { view = some (record v { loads = v.loads + 1 }) })).0
        → es
          ≡ (dispose (record s { view = some (record v { loads = v.loads + 1 }) })).1
            ++ report x ∷ []
        → Step e s t es
    retire : t ≡ (dispose s).0 → es ≡ (dispose s).1 → Step e s t es

  settle-Step :
      (e : Event) (source : Source) (received : Value) (s : Proxy)
      (r : Outcome (Proxy × List Effect))
      → Hears s e source received
      → s.closed ≡ false
      → ((t : Proxy) (es : List Effect) → r ≡ ok (t, es) → Move source received s t es)
      → Step e s (settle s r).0 (settle s r).1
  unfolding settle
  settle-Step e source received s (ok (t, es)) heard o k =
      move source received heard o (k t es refl)
  settle-Step e source received s (throw x) heard o k = fail x o refl refl

  loaded_again-Step :
      (e : Event) (s : Proxy) (o : Option View)
      → s.view ≡ o
      → Step e s (loaded_again build p g s o).0 (loaded_again build p g s o).1
  unfolding loaded_again
  loaded_again-Step event s none e = quiet refl refl
  loaded_again-Step event s (some v) e = elim (Bool-cases (ltb 1 (v.loads + 1))) [
    | inl again ↦ rw again (navigate v _ e refl refl)
    | inr first ↦ rw first (settle_load v e (ground arith) refl refl)
  ]

  -- Every event of the window is one of these steps.
  pub step-Step : (s : Proxy) (e : Event) → Step e s (step build p g s e).0 (step build p g s e).1
  unfolding step
  step-Step s (message source origin value) =
      elim (Bool-cases (s.closed || not (is_heard build p g s source origin))) [
        | inl deaf ↦ rw deaf (quiet refl refl)
        | inr heard ↦ rw heard (
            settle-Step (message source origin value) source value s
              (handle build p g s source value) (origin, refl, ground arith) (ground arith)
              λ t es h. handle-Move s source value h)
      ]
  step-Step s view_load = loaded_again-Step view_load s s.view refl
  step-Step s disposal = retire refl refl
