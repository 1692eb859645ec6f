-- ===== src/AppView/Approval.antt =====
-- What the app shows, connects to and sends was approved.
use kestrel_feature_mcp.Prelude.{
  String, Bool, true, false, ◌≡◌, ◌⊎◌, eq_iff, or_throw-eq-ok, blank_lem, refl, ap, sym, not, ◌&&◌,
  Option, none, some, List, [], ◌∷◌, All, All-append, arith, Outcome, ok, throw, ok-injective,
  >>=-eq-ok, require->>=, or_throw, type_error, ◌==◌, if◌then◌else◌, Bool-cases, inl, inr,
}
use mathlib.Core.Path.{subst}
use mathlib.Core.List.{Mem, mem-cons_self, mem-cons_of_mem}
use kestrel_feature_mcp.Value.{Value, member, is_text, str}
use kestrel_feature_mcp.Platform.{Platform}
use kestrel_feature_mcp.Policy.{approve_sandbox_policy, is_http}
use kestrel_feature_mcp.Policy.Grants.{is_text_lem}
use kestrel_feature_mcp.Transport.{Transport, create_transport, byte_limit}
use kestrel_feature_mcp.Launcher.{reference_text}
use kestrel_feature_mcp.AppReply.{Opened, is_sandbox_url, ui_of, read_opened, frame_of}
use kestrel_feature_mcp.AppState.{
  Opening, asking, rejected, done, AppView, Effect, Event, answered, connected, disposal,
  proceeding, bridge_closed, deleted, bridge_error, resource_failed, tool_call, tool_list,
  call_answered, sandbox_ready, view_initialized, input_sent, result_sent, resized, Lane,
  has_bridge,
}
use kestrel_feature_mcp.AppView.{
  retire, fail, reject_opening, settling, has_settled, goes_on, is_active, open_frame, transport_of,
  take_id, read_answer, answer, send_resource_of, sandbox_readied, receive, step, mount_steps,
  mount_app,
}
use kestrel_feature_mcp.AppView.Bridging.{
  IsAccepted, IsApproved, IsMade, Keeps, retire-Keeps, fail-Keeps, connect_settled-Keeps,
  go_on_closing-Keeps, settled_same, handlers-Keeps, call-Keeps, list-Keeps, answer_call-Keeps,
  resized-Keeps,
}

-- The origin of a transport is the one that it is given.
create_transport_origin :
    (p : Platform) (location origin : String) (limit : Value) (t : Transport)
    → create_transport p location (str origin) limit ≡ ok t
    → t.origin ≡ origin
unfolding create_transport
create_transport_origin p location origin limit t h =
    let (url, parsed, h1) =
      >>=-eq-ok (or_throw (p.new_url (str origin)) (type_error "Invalid URL")) _ h in
    let (exact, h2) =
      require->>= (is_text (str origin) url.origin && is_http url.protocol) _ _ h1 in
    let (apart, h3) = require->>= (not (url.origin == location)) _ _ h2 in
    let (n, limited, made) = >>=-eq-ok (byte_limit limit) _ h3 in
    let same = (eq_iff origin url.origin).0 (ground arith) in
    subst (λ (t : Transport). t.origin ≡ origin) (ok-injective made) (sym same)

module _ (build : List String → String) (p : Platform) (l : Lane) (R : Event → Type 0) where
  http_protocol : (s : String) → is_http s ≡ true → (s ≡ "https:") ⊎ (s ≡ "http:")
  http_protocol s h = elim (Bool-cases ("https:" == s)) [
    | inl secure ↦ inl (sym ((eq_iff "https:" s).0 secure))
    | inr other ↦ inr (sym ((eq_iff "http:" s).0 (ground arith)))
  ]

  read_opened-IsAccepted :
      (is_current : Bool) (v : Value) (o : Opened)
      → read_opened p l.location is_current v ≡ ok o
      → R (answered is_current (ok v))
      → IsAccepted build p l R o
  unfolding read_opened
  read_opened-IsAccepted is_current v o h came =
      let (current, h1) = require->>= is_current _ _ h in
      let (host, h2) = require->>= (is_text (member v "host_origin") l.location) _ _ h1 in
      let (url, parsed, h3) =
        >>=-eq-ok (or_throw (p.new_url (member v "sandbox_url")) (type_error "Invalid URL")) _ h2 in
      let (good, h4) = require->>= (is_sandbox_url l.location url) _ _ h3 in
      let (approved, granted, made) =
        >>=-eq-ok
          (approve_sandbox_policy p (member (ui_of v) "csp") (member (ui_of v) "permissions")
            (member v "policy"))
          _ h4 in
      subst (IsAccepted build p l R) (ok-injective made) (record {
        came = subst (λ (c : Bool). R (answered c (ok v))) current came;
        host = is_text_lem (member v "host_origin") l.location host;
        sandbox = or_throw-eq-ok (p.new_url (member v "sandbox_url")) _ parsed;
        protocol = http_protocol url.protocol (ground arith);
        apart = ground arith;
        username = blank_lem url.username (ground arith);
        password = blank_lem url.password (ground arith);
        search = blank_lem url.search (ground arith);
        hash = blank_lem url.hash (ground arith);
        granted = granted;
      })

  -- The bridge after a step is made of an accepted answer, and its effects are approved.
  abbrev IsProper : AppView × List Effect → Type 0
  IsProper r = IsMade build p l R r.0.bridge × All (IsApproved build p l R) r.1

  Keeps-IsProper :
      (s : AppView) (r : AppView × List Effect)
      → Keeps build p l R s r
      → IsMade build p l R s.bridge
      → IsProper r
  Keeps-IsProper s r (same, approved) made = (rw same made, approved)

  reject_opening-IsProper :
      (s : AppView) → IsMade build p l R s.bridge → IsProper (reject_opening s)
  unfolding reject_opening
  reject_opening-IsProper s made =
      Keeps-IsProper s (fail (record s { opening = rejected }))
        (fail-Keeps build p l R (record s { opening = rejected })) made

  open_frame-IsProper :
      (s : AppView) (opened : Outcome Opened)
      → IsMade build p l R s.bridge
      → ((o : Opened) → opened ≡ ok o → IsAccepted build p l R o)
      → IsProper (open_frame build p l s opened (transport_of build p l opened))
  unfolding open_frame reject_opening
  open_frame-IsProper s (throw e) made k = reject_opening-IsProper s made
  open_frame-IsProper s (ok o) made k = connects (transport_of build p l (ok o)) refl
    where
      connects :
          (t : Outcome Transport)
          → transport_of build p l (ok o) ≡ t
          → IsProper (open_frame build p l s (ok o) t)
      connects (throw e) h =
          let (same, approved) = fail-Keeps build p l R (record s {
            frame = some (frame_of build o.approved);
            bridge = some o;
            opening = rejected;
          }) in
          (rw same (k o refl), ((o, k o refl, refl), approved))
      connects (ok t) h = (
        k o refl,
        (
          (o, k o refl, refl),
          ((o, k o refl, create_transport_origin p l.location o.url.origin _ t h), tt),
        ),
      )

  take_id-IsProper :
      (s : AppView) (gone : Bool) (id : String) (is_current : Bool) (v : Value)
      → R (answered is_current (ok v))
      → IsMade build p l R s.bridge
      → IsProper (take_id build p l s gone id (read_opened p l.location is_current v))
  unfolding take_id
  take_id-IsProper s true id is_current v came made = (made, tt)
  take_id-IsProper s false id is_current v came made =
      open_frame-IsProper (record s { view_id = some id }) (read_opened p l.location is_current v)
        made λ o e. read_opened-IsAccepted is_current v o e came

  receive-IsProper :
      (s : AppView) (o : Opening) (is_current : Bool) (reply : Outcome Value)
      → R (answered is_current reply)
      → IsMade build p l R s.bridge
      → IsProper (receive build p l s o is_current reply)
  unfolding receive answer
  receive-IsProper s asking is_current (throw e) came made = reject_opening-IsProper s made
  receive-IsProper s asking is_current (ok v) came made = read (reference_text (member v "view_id"))
    where
      read :
          (id : Option String)
          → IsProper (read_answer build p l s id (read_opened p l.location is_current v))
      read none = reject_opening-IsProper s made
      read (some id) = take_id-IsProper s s.retired id is_current v came made
  receive-IsProper s o is_current reply came made = (made, tt)

  sandbox_readied-IsProper :
      (s : AppView) (o : Option Opened) (b : Bool)
      → IsMade build p l R o
      → s.bridge ≡ o
      → IsProper (sandbox_readied build p l s o b)
  unfolding sandbox_readied send_resource_of
  sandbox_readied-IsProper s none b made e = (rw e tt, tt)
  sandbox_readied-IsProper s (some o) true made e = send (member o.initial "resource") refl
    where
      failed_send : IsProper (fail s)
      failed_send = Keeps-IsProper s (fail s) (fail-Keeps build p l R s) (rw e made)

      send :
          (v : Value)
          → member o.initial "resource" ≡ v
          → IsProper (send_resource_of build p l s o v)
      send Value.undefined h = failed_send
      send Value.null h = failed_send
      send v h = (rw e made, ((o, made, refl, ap (λ (u : Value). member u "html") (sym h)), tt))
  sandbox_readied-IsProper s (some o) false made e =
      Keeps-IsProper s (fail s) (fail-Keeps build p l R s) (rw e made)

  fails :
      (s : AppView)
      → IsMade build p l R s.bridge
      → IsProper (if has_bridge s.bridge then fail s else (s, []))
  fails s m = elim (Bool-cases (has_bridge s.bridge)) [
    | inl there ↦ rw there (Keeps-IsProper s (fail s) (fail-Keeps build p l R s) m)
    | inr not_there ↦ rw not_there (m, tt)
  ]

  step-IsProper :
      (s : AppView) (e : Event) → R e → IsMade build p l R s.bridge → IsProper (step build p l s e)
  unfolding step
  step-IsProper s (answered is_current reply) came m =
      receive-IsProper s s.opening is_current reply came m
  step-IsProper s (connected is_current reply) came m =
      Keeps-IsProper s (step build p l s (connected is_current reply))
        (connect_settled-Keeps build p l R s s.opening (goes_on build p l s is_current reply)) m
  step-IsProper s disposal came m =
      Keeps-IsProper s (retire s s.cleanup) (retire-Keeps build p l R s s.cleanup) m
  step-IsProper s proceeding came m =
      Keeps-IsProper s (step build p l s proceeding)
        (go_on_closing-Keeps build p l R s s.cleanup (has_settled s.opening)) m
  step-IsProper s (bridge_closed reply) came m =
      (rw (settled_same build p l R s s.cleanup (settling reply) (ok tt)).0 m, tt)
  step-IsProper s (deleted reply) came m =
      (rw (settled_same build p l R s s.cleanup done reply).1 m, tt)
  step-IsProper s bridge_error came m = fails s m
  step-IsProper s resource_failed came m = fails s m
  step-IsProper s (tool_call call is_current operation_id params) came m =
      Keeps-IsProper s (step build p l s (tool_call call is_current operation_id params))
        (call-Keeps build p l R s call is_current operation_id params) m
  step-IsProper s (tool_list call is_current) came m =
      Keeps-IsProper s (step build p l s (tool_list call is_current))
        (list-Keeps build p l R s call is_current) m
  step-IsProper s (call_answered call is_current reply) came m =
      Keeps-IsProper s (step build p l s (call_answered call is_current reply))
        (answer_call-Keeps build p l R s call is_current reply) m
  step-IsProper s (sandbox_ready is_current) came m = sandbox_readied-IsProper s s.bridge _ m refl
  step-IsProper s (view_initialized is_current) came m =
      Keeps-IsProper s (step build p l s (view_initialized is_current))
        (handlers-Keeps build p l R s s.bridge s.startup (is_active build p l s is_current)).0 m
  step-IsProper s (input_sent is_current reply) came m =
      Keeps-IsProper s (step build p l s (input_sent is_current reply))
        (handlers-Keeps build p l R s none s.startup (goes_on build p l s is_current reply)).1 m
  step-IsProper s (result_sent is_current reply) came m =
      Keeps-IsProper s (step build p l s (result_sent is_current reply))
        (handlers-Keeps build p l R s none s.startup (goes_on build p l s is_current reply)).2 m
  step-IsProper s (resized height) came m =
      Keeps-IsProper s (step build p l s (resized height)) (resized-Keeps build p l R s height) m

  play-IsApproved :
      (s : AppView) (events : List Event)
      → ((e : Event) → Mem e events → R e)
      → IsMade build p l R s.bridge
      → All (IsApproved build p l R) (mount_steps build p l s events).1
  unfolding mount_steps
  play-IsApproved s [] came m = tt
  play-IsApproved s (e ∷ events) came m =
      let (made, approved) = step-IsProper s e (came e mem-cons_self) m in
      All-append (IsApproved build p l R) (step build p l s e).1
        (mount_steps build p l (step build p l s e).0 events).1 approved
        (play-IsApproved (step build p l s e).0 events (λ x among. came x (mem-cons_of_mem e among))
          made)

module _ (build : List String → String) (p : Platform) (l : Lane) where
  unmade : (is_current : Bool) → (mount_app build p l is_current).0.bridge ≡ none
  unfolding mount_app
  unmade is_current = ground arith

  -- What an app is shown was approved: over any events, every frame, every transport and every
  -- resource that is sent belongs to an answer of the host among these events, which came while the
  -- chat was current, names the console's origin as the host's, and gives the sandbox an HTTP or HTTPS
  -- URL without credentials, query and fragment at another origin than the console's. The frame has
  -- just the device grants that `approveSandboxPolicy` gives for the domains and devices that the
  -- answer's resource asks for under the answer's policy, the transport is bound to the origin of that
  -- URL, and the HTML that is sent is the answer's, with the same grants.
  pub mount_steps-IsApproved :
      (is_current : Bool) (events : List Event)
      → All
          (IsApproved build p l (λ e. Mem e events))
          (mount_steps build p l (mount_app build p l is_current).0 events).1
  mount_steps-IsApproved is_current events =
      play-IsApproved build p l (λ e. Mem e events) _ events (λ e among. among)
        (rw (unmade is_current) tt)
