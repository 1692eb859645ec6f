-- ===== src/AppView/Retirement.antt =====
-- After its disposal a View is silent.
use kestrel_feature_mcp.Prelude.{
  String, Bool, true, false, ◌≡◌, refl, Option, none, some, List, [], ◌∷◌, ◌++◌, all, arith,
  Outcome, ok, throw,
}
use kestrel_feature_mcp.Value.{Value, member}
use kestrel_feature_mcp.Platform.{Platform}
use kestrel_feature_mcp.Launcher.{reference_text}
use kestrel_feature_mcp.AppReply.{Frame, Opened}
use kestrel_feature_mcp.AppState.{
  Opening, asking, connecting, Settling, pending, done, failed, Cleanup, awaiting, closing, Startup,
  unsent, sending_input, sending_result, ended, AppView, Effect, delete, abort, close_bridge,
  remove_frame, refuse, Event, answered, connected, disposal, proceeding, bridge_closed, deleted,
  bridge_error, resource_failed, tool_call, tool_list, call_answered, sandbox_ready,
  view_initialized, input_sent, result_sent, resized, Lane, has_frame, rejected,
}
use kestrel_feature_mcp.AppView.{
  retire, fail, reject_opening, close, goes_on, is_active, proceed, take_id, read_answer, answer,
  sandbox_readied, answer_call, start_view, receive, connect_settled, go_on_closing, bridge_settled,
  server_settled, input_settled, result_settled, step, mount_steps, mount_app,
}
use kestrel_feature_mcp.AppView.Soundness.{IsSound, step-IsSound, play-IsSound, mount_app-IsSound}

-- Nothing is asked of the host but the View's closing, no frame is shown, and nothing is sent to the
-- View; a call of the View's is refused.
abbrev pub is_quiet : Effect → Bool
is_quiet (delete path) = true
is_quiet abort = true
is_quiet close_bridge = true
is_quiet remove_frame = true
is_quiet (refuse call e) = true
is_quiet effect = false

abbrev are_quiet : List Effect → Bool
are_quiet es = all is_quiet es

are_quiet-append :
    (xs ys : List Effect) → are_quiet xs ≡ true → are_quiet ys ≡ true → are_quiet (xs ++ ys) ≡ true
are_quiet-append [] ys h k = k
are_quiet-append (x ∷ xs) ys h k = ground (arith, are_quiet-append xs ys)

-- A step that is silent, and of which the View is retired.
abbrev IsSilent : AppView × List Effect → Type 0
IsSilent r = (r.0.retired ≡ true) × (are_quiet r.1 ≡ true)

retire-IsSilent : (s : AppView) → IsSound s → IsSilent (retire s s.cleanup)
unfolding retire
retire-IsSilent s i = ground arith

fail-IsSilent : (s : AppView) → s.retired ≡ true → IsSilent (fail s)
unfolding fail
fail-IsSilent s r = ground arith

module _ (build : List String → String) (p : Platform) (l : Lane) where
  close_retired : (s : AppView) (b t : Settling) → s.retired ≡ true → (close s b t).retired ≡ true
  unfolding close
  close_retired s b t r = ground arith

  take_id-IsSilent :
      (s : AppView) (gone : Bool) (id : String) (o : Outcome Opened)
      → gone ≡ true
      → s.retired ≡ true
      → IsSilent (take_id build p l s gone id o)
  unfolding take_id
  take_id-IsSilent s true id o h r = (r, refl)
  take_id-IsSilent s false id o h r = cc

  answer-IsSilent :
      (s : AppView) (is_current : Bool) (reply : Outcome Value)
      → s.retired ≡ true
      → IsSilent (answer build p l s is_current reply)
  unfolding answer
  answer-IsSilent s is_current (throw e) r = fail-IsSilent (record s { opening = rejected }) r
  answer-IsSilent s is_current (ok initial) r = read (reference_text (member initial "view_id")) _
    where
      read : (id : Option String) (o : Outcome Opened) → IsSilent (read_answer build p l s id o)
      read none o = fail-IsSilent (record s { opening = rejected }) r
      read (some id) o = take_id-IsSilent s s.retired id o r r

  receive-IsSilent :
      (s : AppView) (o : Opening) (is_current : Bool) (reply : Outcome Value)
      → s.retired ≡ true
      → IsSilent (receive build p l s o is_current reply)
  unfolding receive
  receive-IsSilent s asking is_current reply r = answer-IsSilent s is_current reply r
  receive-IsSilent s opening is_current reply r = (r, refl)

  connect_settled-IsSilent :
      (s : AppView) (o : Opening) (on : Bool)
      → s.retired ≡ true
      → on ≡ false
      → IsSilent (connect_settled build p l s o on)
  unfolding connect_settled reject_opening
  connect_settled-IsSilent s connecting true r h = cc
  connect_settled-IsSilent s connecting false r h =
      fail-IsSilent (record s { opening = rejected }) r
  connect_settled-IsSilent s opening on r h = (r, refl)

  go_on_closing-IsSilent :
      (s : AppView) (c : Cleanup) (settled : Bool)
      → s.retired ≡ true
      → IsSilent (go_on_closing build p l s c settled)
  unfolding go_on_closing proceed
  go_on_closing-IsSilent s awaiting true r = ground (arith, close_retired s)
  go_on_closing-IsSilent s cleanup settled r = (r, refl)

  bridge_settled_retired :
      (s : AppView) (c : Cleanup) (reply : Settling)
      → s.retired ≡ true
      → (bridge_settled build p l s c reply).retired ≡ true
  unfolding bridge_settled
  bridge_settled_retired s (closing pending server) reply r = close_retired s reply server r
  bridge_settled_retired s cleanup reply r = r

  server_settled_retired :
      (s : AppView) (c : Cleanup) (reply : Outcome (Unit {0}))
      → s.retired ≡ true
      → (server_settled build p l s c reply).retired ≡ true
  unfolding server_settled
  server_settled_retired s (closing bridge pending) (ok u) r = close_retired _ bridge done r
  server_settled_retired s (closing bridge pending) (throw x) r = close_retired s bridge failed r
  server_settled_retired s cleanup reply r = r

  sandbox_readied-IsSilent :
      (s : AppView) (o : Option Opened) (active : Bool)
      → s.retired ≡ true
      → active ≡ false
      → IsSilent (sandbox_readied build p l s o active)
  unfolding sandbox_readied
  sandbox_readied-IsSilent s none active r h = (r, refl)
  sandbox_readied-IsSilent s (some o) true r h = cc
  sandbox_readied-IsSilent s (some o) false r h = fail-IsSilent s r

  start_view-IsSilent :
      (s : AppView) (o : Option Opened) (st : Startup) (active : Bool)
      → s.retired ≡ true
      → active ≡ false
      → IsSilent (start_view build p l s o st active)
  unfolding start_view
  start_view-IsSilent s (some o) unsent true r h = cc
  start_view-IsSilent s (some o) unsent false r h = fail-IsSilent (record s { startup = ended }) r
  start_view-IsSilent s o st active r h = (r, refl)

  input_settled-IsSilent :
      (s : AppView) (st : Startup) (on : Bool)
      → s.retired ≡ true
      → on ≡ false
      → IsSilent (input_settled build p l s st on)
  unfolding input_settled
  input_settled-IsSilent s sending_input true r h = cc
  input_settled-IsSilent s sending_input false r h = fail-IsSilent (record s { startup = ended }) r
  input_settled-IsSilent s st on r h = (r, refl)

  result_settled-IsSilent :
      (s : AppView) (st : Startup) (on : Bool)
      → s.retired ≡ true
      → on ≡ false
      → IsSilent (result_settled build p l s st on)
  unfolding result_settled
  result_settled-IsSilent s sending_result true r h = cc
  result_settled-IsSilent s sending_result false r h =
      fail-IsSilent (record s { startup = ended }) r
  result_settled-IsSilent s st on r h = (r, refl)

  goes_on_retired :
      (s : AppView) (is_current : Bool) (reply : Outcome (Unit {0}))
      → s.retired ≡ true
      → goes_on build p l s is_current reply ≡ false
  goes_on_retired s is_current (ok u) r = rw r refl
  goes_on_retired s is_current (throw e) r = refl

  active_retired :
      (s : AppView) (is_current : Bool)
      → s.retired ≡ true
      → is_active build p l s is_current ≡ false
  active_retired s is_current r = rw r refl

  step-IsSilent :
      (s : AppView) (e : Event) → IsSound s → s.retired ≡ true → IsSilent (step build p l s e)
  unfolding step answer_call
  step-IsSilent s (answered is_current reply) i r = receive-IsSilent s s.opening is_current reply r
  step-IsSilent s (connected is_current reply) i r =
      connect_settled-IsSilent s s.opening _ r (goes_on_retired s is_current reply r)
  step-IsSilent s disposal i r = retire-IsSilent s i
  step-IsSilent s proceeding i r = go_on_closing-IsSilent s s.cleanup _ r
  step-IsSilent s (bridge_closed reply) i r = (bridge_settled_retired s s.cleanup _ r, refl)
  step-IsSilent s (deleted reply) i r = (server_settled_retired s s.cleanup reply r, refl)
  step-IsSilent s bridge_error i r = ground (arith, fail-IsSilent s r)
  step-IsSilent s resource_failed i r = ground (arith, fail-IsSilent s r)
  step-IsSilent s (tool_call call is_current operation_id params) i r = ground arith
  step-IsSilent s (tool_list call is_current) i r = ground arith
  step-IsSilent s (call_answered call is_current (throw e)) i r = (r, refl)
  step-IsSilent s (call_answered call is_current (ok v)) i r = ground arith
  step-IsSilent s (sandbox_ready is_current) i r =
      sandbox_readied-IsSilent s s.bridge _ r (active_retired s is_current r)
  step-IsSilent s (view_initialized is_current) i r =
      start_view-IsSilent s s.bridge s.startup _ r (active_retired s is_current r)
  step-IsSilent s (input_sent is_current reply) i r =
      input_settled-IsSilent s s.startup _ r (goes_on_retired s is_current reply r)
  step-IsSilent s (result_sent is_current reply) i r =
      result_settled-IsSilent s s.startup _ r (goes_on_retired s is_current reply r)
  step-IsSilent s (resized height) i r = ground arith

  play-IsSilent :
      (s : AppView) (events : List Event)
      → IsSound s
      → s.retired ≡ true
      → are_quiet (mount_steps build p l s events).1 ≡ true
  unfolding mount_steps
  play-IsSilent s [] i r = refl
  play-IsSilent s (e ∷ events) i r =
      let (still, quietly) = step-IsSilent s e i r in
      are_quiet-append (step build p l s e).1 _ quietly
        (play-IsSilent (step build p l s e).0 events (step-IsSound build p l s e i) still)

  retires_now : (s : AppView) → IsSound s → (step build p l s disposal).0.retired ≡ true
  unfolding step retire
  retires_now s i = ground arith

  no_frame : (f : Option Frame) → has_frame f ≡ false → f ≡ none
  no_frame none h = refl
  no_frame (some f) h = cc

  unframed : (s : AppView) → IsSound s → s.retired ≡ true → has_frame s.frame ≡ false
  unframed s i r = ground arith

  -- Disposal is final. Whatever has happened to a View, once it is disposed of it is retired without a
  -- frame, and from then on, whatever happens, nothing is asked of the host but the closing of the
  -- server's View, no frame is shown, nothing is sent to the View, and no call of the View's returns.
  pub mount_steps_disposed :
      (is_current : Bool) (before after : List Event)
      → let s = (mount_steps build p l (mount_app build p l is_current).0 before).0 in
        let t = (step build p l s disposal).0 in
        (t.retired ≡ true)
        × (t.frame ≡ none)
        × (all is_quiet (mount_steps build p l t after).1 ≡ true)
  mount_steps_disposed is_current before after =
      let s = (mount_steps build p l (mount_app build p l is_current).0 before).0 in
      let i = play-IsSound build p l _ before (mount_app-IsSound build p l is_current) in
      let t = (step build p l s disposal).0 in
      let j = step-IsSound build p l s disposal i in
      let gone = retires_now s i in
      (gone, no_frame t.frame (unframed t j gone), play-IsSilent t after j gone)
