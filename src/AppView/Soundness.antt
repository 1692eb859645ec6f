-- ===== src/AppView/Soundness.antt =====
-- The invariant of a View.
use kestrel_feature_mcp.Prelude.{
  ℕ, String, Bool, true, false, ◌≡◌, refl, not, ◌&&◌, ◌||◌, Option, none, some, List, [], ◌∷◌,
  arith, Outcome, ok, throw,
}
use kestrel_feature_mcp.Value.{Value, member}
use kestrel_feature_mcp.Platform.{Platform}
use kestrel_feature_mcp.Transport.{Transport}
use kestrel_feature_mcp.Launcher.{reference_text}
use kestrel_feature_mcp.AppReply.{Frame, Height, Opened, clamp_height}
use kestrel_feature_mcp.AppState.{
  Opening, asking, connecting, Settling, pending, done, failed, Cleanup, absent, awaiting, closed,
  broken, closing, Startup, unsent, sending_input, sending_result, AppView, Event, answered,
  connected, disposal, proceeding, bridge_closed, deleted, bridge_error, resource_failed, tool_call,
  tool_list, call_answered, sandbox_ready, view_initialized, input_sent, result_sent, resized, Lane,
  has_bridge, has_frame,
}
use kestrel_feature_mcp.AppView.{
  has_settled, retire, fail, reject_opening, close, settling, proceed, goes_on, open_frame, take_id,
  read_answer, answer, finish_opening, send_resource_of, start_call, answer_call, resize,
  start_view, receive, connect_settled, go_on_closing, bridge_settled, server_settled,
  input_settled, result_settled, sandbox_readied, step, mount_steps, mount_app,
}

abbrev pub is_absent : Cleanup → Bool
is_absent absent = true
is_absent cleanup = false

abbrev pub is_asking : Opening → Bool
is_asking asking = true
is_asking opening = false

abbrev pub has_id : Option String → Bool
has_id none = false
has_id (some id) = true

-- The cleanup has gone past the opening.
abbrev pub is_past : Cleanup → Bool
is_past absent = false
is_past awaiting = false
is_past cleanup = true

-- The server's View is gone.
abbrev pub is_released : Cleanup → Bool
is_released closed = true
is_released (closing bridge done) = true
is_released cleanup = false

-- A View is retired exactly if its cleanup is there, and then it has no frame; while the host's answer
-- is awaited there is no id, bridge or frame; the cleanup goes on only after the opening has settled;
-- and where it takes the server's View for closed, no id is left.
pub record IsSound (s : AppView) : Type 0 where
  pub retires : s.retired ≡ not (is_absent s.cleanup)
  pub hidden : (s.retired && has_frame s.frame) ≡ false
  pub unopened :
      (is_asking s.opening && (has_id s.view_id || has_bridge s.bridge || has_frame s.frame))
      ≡ false
  pub settled : (is_past s.cleanup && not (has_settled s.opening)) ≡ false
  pub released : (is_released s.cleanup && has_id s.view_id) ≡ false

retire-IsSound : (s : AppView) → IsSound s → IsSound (retire s s.cleanup).0
unfolding retire
retire-IsSound s i = ground arith

fail-IsSound : (s : AppView) → IsSound s → IsSound (fail s).0
unfolding fail
fail-IsSound s i = ground arith

close-IsSound :
    (s : AppView) (bridge server : Settling)
    → IsSound s
    → has_settled s.opening ≡ true
    → s.retired ≡ true
    → not (is_absent s.cleanup) ≡ true
    → (is_released (closing bridge server) && has_id s.view_id) ≡ false
    → IsSound (close s bridge server)
unfolding close
close-IsSound s bridge server i o r c d = ground arith

module _ (build : List String → String) (p : Platform) (l : Lane) where
  open_frame-IsSound :
      (s : AppView) (opened : Outcome Opened) (t : Outcome Transport)
      → s.retired ≡ false
      → s.cleanup ≡ absent
      → IsSound (open_frame build p l s opened t).0
  unfolding open_frame
  open_frame-IsSound s (throw e) t r c = ground arith
  open_frame-IsSound s (ok o) (throw e) r c = ground arith
  open_frame-IsSound s (ok o) (ok t) r c = ground arith

  absent_cleanup : (c : Cleanup) → is_absent c ≡ true → c ≡ absent
  absent_cleanup absent h = refl
  absent_cleanup awaiting h = cc
  absent_cleanup closed h = cc
  absent_cleanup broken h = cc
  absent_cleanup (closing b t) h = cc

  reject_opening-IsSound :
      (s : AppView) → IsSound s → has_settled s.opening ≡ false → IsSound (reject_opening s).0
  unfolding reject_opening
  reject_opening-IsSound s i h = ground arith

  take_id-IsSound :
      (s : AppView) (gone : Bool) (id : String) (o : Outcome Opened)
      → IsSound s
      → s.opening ≡ asking
      → s.retired ≡ gone
      → IsSound (take_id build p l s gone id o).0
  unfolding take_id
  take_id-IsSound s true id o i a r = ground arith
  take_id-IsSound s false id o i a r =
      open_frame-IsSound (record s { view_id = some id }) o _ r
        (absent_cleanup s.cleanup (ground arith))

  answer-IsSound :
      (s : AppView) (is_current : Bool) (reply : Outcome Value)
      → IsSound s
      → s.opening ≡ asking
      → IsSound (answer build p l s is_current reply).0
  unfolding answer
  answer-IsSound s is_current (throw e) i a = reject_opening-IsSound s i (ground arith)
  answer-IsSound s is_current (ok initial) i a = read (reference_text (member initial "view_id")) _
    where
      read : (id : Option String) (o : Outcome Opened) → IsSound (read_answer build p l s id o).0
      read none o = reject_opening-IsSound s i (ground arith)
      read (some id) o = take_id-IsSound s s.retired id o i a refl

  receive-IsSound :
      (s : AppView) (o : Opening) (is_current : Bool) (reply : Outcome Value)
      → IsSound s
      → s.opening ≡ o
      → IsSound (receive build p l s o is_current reply).0
  unfolding receive
  receive-IsSound s asking is_current reply i e = answer-IsSound s is_current reply i e
  receive-IsSound s opening is_current reply i e = i

  connect_settled-IsSound :
      (s : AppView) (o : Opening) (on : Bool)
      → IsSound s
      → s.opening ≡ o
      → (on && s.retired) ≡ false
      → IsSound (connect_settled build p l s o on).0
  unfolding connect_settled finish_opening
  connect_settled-IsSound s connecting true i e r = ground arith
  connect_settled-IsSound s connecting false i e r = reject_opening-IsSound s i (ground arith)
  connect_settled-IsSound s opening on i e r = i

  go_on_closing-IsSound :
      (s : AppView) (c : Cleanup) (settled : Bool)
      → IsSound s
      → s.cleanup ≡ c
      → has_settled s.opening ≡ settled
      → IsSound (go_on_closing build p l s c settled).0
  unfolding go_on_closing proceed
  go_on_closing-IsSound s awaiting true i e h = ground arith
  go_on_closing-IsSound s cleanup settled i e h = i

  bridge_settled-IsSound :
      (s : AppView) (c : Cleanup) (reply : Settling)
      → IsSound s
      → s.cleanup ≡ c
      → IsSound (bridge_settled build p l s c reply)
  unfolding bridge_settled
  bridge_settled-IsSound s (closing pending server) reply i e =
      ground (arith, close-IsSound s reply server)
  bridge_settled-IsSound s cleanup reply i e = i

  server_settled-IsSound :
      (s : AppView) (c : Cleanup) (reply : Outcome (Unit {0}))
      → IsSound s
      → s.cleanup ≡ c
      → IsSound (server_settled build p l s c reply)
  unfolding server_settled
  server_settled-IsSound s (closing bridge pending) (ok u) i e =
      ground (arith, close-IsSound (record s { view_id = none }) bridge done)
  server_settled-IsSound s (closing bridge pending) (throw x) i e =
      ground (arith, close-IsSound s bridge failed)
  server_settled-IsSound s cleanup reply i e = i

  start_view-IsSound :
      (s : AppView) (o : Option Opened) (st : Startup) (active : Bool)
      → IsSound s
      → IsSound (start_view build p l s o st active).0
  unfolding start_view
  start_view-IsSound s (some o) unsent true i = ground arith
  start_view-IsSound s (some o) unsent false i = fail-IsSound _ (ground arith)
  start_view-IsSound s o st active i = i

  sandbox_readied-IsSound :
      (s : AppView) (o : Option Opened) (active : Bool)
      → IsSound s
      → IsSound (sandbox_readied build p l s o active).0
  unfolding sandbox_readied send_resource_of fail
  sandbox_readied-IsSound s none active i = i
  sandbox_readied-IsSound s (some o) false i = fail-IsSound s i
  sandbox_readied-IsSound s (some o) true i = send (member o.initial "resource")
    where
      send : (v : Value) → IsSound (send_resource_of build p l s o v).0
      send Value.undefined = fail-IsSound s i
      send Value.null = fail-IsSound s i
      send v = i

  input_settled-IsSound :
      (s : AppView) (st : Startup) (on : Bool)
      → IsSound s
      → IsSound (input_settled build p l s st on).0
  unfolding input_settled
  input_settled-IsSound s sending_input true i = ground arith
  input_settled-IsSound s sending_input false i = fail-IsSound _ (ground arith)
  input_settled-IsSound s st on i = i

  result_settled-IsSound :
      (s : AppView) (st : Startup) (on : Bool)
      → IsSound s
      → IsSound (result_settled build p l s st on).0
  unfolding result_settled
  result_settled-IsSound s sending_result true i = ground arith
  result_settled-IsSound s sending_result false i = fail-IsSound _ (ground arith)
  result_settled-IsSound s st on i = i

  pub start_call_same :
      (s : AppView) (call : ℕ) (operation_id : String) (params : Value)
      → (start_call build p l s call operation_id params).0 ≡ s
  unfolding start_call
  start_call_same s call operation_id params = ground arith

  pub answer_call_same :
      (s : AppView) (call : ℕ) (is_current : Bool) (reply : Outcome Value)
      → (answer_call build p l s call is_current reply).0 ≡ s
  unfolding answer_call
  answer_call_same s call is_current reply = ground arith

  resize-IsSound :
      (s : AppView) (f : Option Frame) (h : Option Height)
      → IsSound s
      → s.retired ≡ false
      → s.frame ≡ f
      → IsSound (resize build p l s f h)
  unfolding resize
  resize-IsSound s (some f) (some h) i r e = ground arith
  resize-IsSound s none h i r e = i
  resize-IsSound s (some f) none i r e = i

  pub step-IsSound : (s : AppView) (e : Event) → IsSound s → IsSound (step build p l s e).0
  unfolding step
  step-IsSound s (answered is_current reply) i = receive-IsSound s s.opening is_current reply i refl
  step-IsSound s (connected is_current reply) i =
      connect_settled-IsSound s s.opening (goes_on build p l s is_current reply) i refl
        (ground arith)
  step-IsSound s disposal i = retire-IsSound s i
  step-IsSound s proceeding i = go_on_closing-IsSound s s.cleanup _ i refl refl
  step-IsSound s (bridge_closed reply) i =
      bridge_settled-IsSound s s.cleanup (settling reply) i refl
  step-IsSound s (deleted reply) i = server_settled-IsSound s s.cleanup reply i refl
  step-IsSound s bridge_error i = ground (arith, fail-IsSound s i)
  step-IsSound s resource_failed i = ground (arith, fail-IsSound s i)
  step-IsSound s (tool_call call is_current operation_id params) i =
      ground (arith, start_call_same s call operation_id params)
  step-IsSound s (tool_list call is_current) i = ground arith
  step-IsSound s (call_answered call is_current reply) i =
      rw (answer_call_same s call is_current reply) i
  step-IsSound s (sandbox_ready is_current) i = sandbox_readied-IsSound s s.bridge _ i
  step-IsSound s (view_initialized is_current) i = start_view-IsSound s s.bridge s.startup _ i
  step-IsSound s (input_sent is_current reply) i = input_settled-IsSound s s.startup _ i
  step-IsSound s (result_sent is_current reply) i = result_settled-IsSound s s.startup _ i
  step-IsSound s (resized height) i =
      ground (arith, resize-IsSound s s.frame (clamp_height l.clamp_fraction height) i)

  pub play-IsSound :
      (s : AppView) (events : List Event) → IsSound s → IsSound (mount_steps build p l s events).0
  unfolding mount_steps
  play-IsSound s [] i = i
  play-IsSound s (e ∷ events) i = play-IsSound (step build p l s e).0 events (step-IsSound s e i)

  pub mount_app-IsSound : (is_current : Bool) → IsSound (mount_app build p l is_current).0
  unfolding mount_app
  mount_app-IsSound is_current = ground arith
