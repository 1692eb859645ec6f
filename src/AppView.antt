-- ===== src/AppView.antt =====
-- web/src/parent-view.js, `mountMCPApp`: one View of an app in the chat, as a machine over what its
-- callers, its bridge and the host's answers do. Code up to an `await` is one step; the handlers of
-- a promise that has settled run in the step that settles it, but for the cleanup, which goes on in
-- a step of its own.
pub mod Soundness
pub mod Retirement
pub mod Ownership
pub mod Bridging
pub mod Approval
use kestrel_feature_mcp.Prelude.{
  ℕ, String, Bool, true, false, not, ◌&&◌, ◌||◌, Option, none, some, List, [], ◌∷◌, ◌++◌, is_blank,
  ◌==◌, Outcome, ok, throw, Exception, ◌>>=◌, ◌>>◌, require, error, type_error, if◌then◌else◌,
}
use kestrel_feature_mcp.Json.{◌<>◌}
use kestrel_feature_mcp.Value.{Number, Value, undefined, null, obj, Fields, end, field, str, member}
use kestrel_feature_mcp.Platform.{Platform, Url}
use kestrel_feature_mcp.Policy.{Approved}
use kestrel_feature_mcp.Transport.{Transport, create_transport}
use kestrel_feature_mcp.Launcher.{reference_text}
use kestrel_feature_mcp.AppReply.{
  Height, Frame, Opened, read_opened, frame_of, call_body, clamp_height,
}
use kestrel_feature_mcp.AppState.{
  AppView, Cleanup, Effect, Event, Lane, Opening, Settling, Startup, abort, absent, answered,
  append_frame, ask, asking, awaiting, bridge_closed, bridge_error, broken, call_answered,
  close_bridge, closed, closing, connect, connected, connecting, delete, deleted, disposal, done,
  ended, failed, fetch, fulfilled, has_bridge, has_frame, inactive, input_sent, pending, post,
  proceeding, refuse, rejected, remove_frame, resized, resource_failed, respond, result_sent,
  sandbox_ready, send_input, send_resource, send_result, sending_input, sending_result, tool_call,
  tool_list, unavailable, unconfirmed_text, unsent, view_initialized, when,
}

-- The synchronous part of `dispose`.
unfoldable pub retire : AppView → Cleanup → AppView × List Effect
retire s absent = (
  record s { retired = true; cleanup = awaiting; frame = none },
  abort ∷ (when (has_bridge s.bridge) close_bridge ++ when (has_frame s.frame) remove_frame),
)
retire s cleanup = (s, [])

abbrev pub is_broken : Cleanup → Bool
is_broken broken = true
is_broken cleanup = false

unfoldable pub fail : AppView → AppView × List Effect
unfolding retire
fail s =
    let status = if is_broken s.cleanup then unconfirmed_text else unavailable in
    retire (record s { status = status; watched = true }) s.cleanup

unfoldable pub reject_opening : AppView → AppView × List Effect
unfolding fail
reject_opening s = fail (record s { opening = rejected })

abbrev pub closing_text : Opening → String
closing_text rejected =
    "App unavailable; private View closed. The completed tool will not be replayed."
closing_text opening = "App closed."

-- The two promises of the cleanup: when both have settled it closes, or breaks.
unfoldable pub close : AppView → Settling → Settling → AppView
close s done done = record s { cleanup = closed; status = closing_text s.opening }
close s pending server = record s { cleanup = closing pending server }
close s bridge pending = record s { cleanup = closing bridge pending }
close s bridge server = record s {
  cleanup = broken;
  status = if s.watched then unconfirmed_text else s.status;
}

abbrev pub settling : Outcome (Unit {0}) → Settling
settling (ok u) = done
settling (throw e) = failed

-- The variables at the start.
abbrev pub mounting : AppView
mounting = record {
  opening = asking;
  view_id = none;
  bridge = none;
  frame = none;
  retired = false;
  cleanup = absent;
  watched = false;
  startup = unsent;
  status = "Opening App…";
}

abbrev pub has_settled : Opening → Bool
has_settled fulfilled = true
has_settled rejected = true
has_settled opening = false

module _ (build_allow_attribute : List String → String) (p : Platform) (l : Lane) where
  abbrev pub query : String
  query = "?session_id=" <> l.encode l.session_id

  abbrev pub view_path : String → String
  view_path id = "/api/mcp/apps/views/" <> l.encode id

  -- The path of the View, whose id has been set before a bridge is there.
  abbrev pub path_of : Option String → String
  path_of none = view_path "undefined"
  path_of (some id) = view_path id

  -- `closeServerView` up to its answer.
  unfoldable pub proceed : AppView → Option String → AppView × List Effect
  unfolding close
  proceed s none = (close s (if has_bridge s.bridge then pending else done) done, [])
  proceed s (some id) = (
    close s (if has_bridge s.bridge then pending else done) pending,
    delete (view_path id <> query) ∷ [],
  )

  -- The opening after the View's id is known.
  unfoldable pub open_frame : AppView → Outcome Opened → Outcome Transport → AppView × List Effect
  unfolding reject_opening
  open_frame s (throw e) transport = reject_opening s
  open_frame s (ok o) (throw e) =
      let frame = frame_of build_allow_attribute o.approved in
      let (s', es) = reject_opening (record s { frame = some frame; bridge = some o }) in
      (s', append_frame frame ∷ es)
  open_frame s (ok o) (ok transport) =
      let frame = frame_of build_allow_attribute o.approved in
      (
        record s { frame = some frame; bridge = some o; opening = connecting },
        append_frame frame ∷ connect transport ∷ [],
      )

  -- The transport for the sandbox of an accepted answer.
  abbrev pub transport_of : Outcome Opened → Outcome Transport
  transport_of opened = do
    o ← opened
    create_transport p l.location (str o.url.origin) (member o.initial "max_message_bytes")

  -- The opening with the View's id, which is kept for the cleanup also where the View has retired.
  unfoldable pub take_id : AppView → Bool → String → Outcome Opened → AppView × List Effect
  unfolding open_frame
  take_id s true id opened = (record s { view_id = some id; opening = fulfilled }, [])
  take_id s false id opened =
      open_frame (record s { view_id = some id }) opened (transport_of opened)

  unfoldable pub read_answer : AppView → Option String → Outcome Opened → AppView × List Effect
  unfolding take_id
  read_answer s none opened = reject_opening s
  read_answer s (some id) opened = take_id s s.retired id opened

  -- The opening from the host's answer on.
  unfoldable pub answer : AppView → Bool → Outcome Value → AppView × List Effect
  unfolding read_answer
  answer s is_current (throw e) = reject_opening s
  answer s is_current (ok initial) =
      read_answer s (reference_text (member initial "view_id"))
        (read_opened p l.location is_current initial)

  unfoldable pub finish_opening : AppView → Option Opened → AppView × List Effect
  finish_opening s (some o) =
      let src = λ (f : Frame). record f { src = some o.url.href } in
      (
        record s {
          opening = fulfilled;
          frame = elim s.frame [ none ↦ none | some f ↦ some (src f) ];
        },
        [],
      )
  finish_opening s none = (record s { opening = fulfilled }, [])

  -- A handler of the bridge that throws in its first line, or goes on.
  abbrev pub is_active : AppView → Bool → Bool
  is_active s is_current = not s.retired && is_current

  unfoldable pub send_resource_of : AppView → Opened → Value → AppView × List Effect
  send_resource_of s o undefined = fail s
  send_resource_of s o null = fail s
  send_resource_of s o resource = (s, send_resource (member resource "html") o.approved ∷ [])

  unfoldable pub sandbox_readied : AppView → Option Opened → Bool → AppView × List Effect
  sandbox_readied s (some o) true = send_resource_of s o (member o.initial "resource")
  sandbox_readied s (some o) false = fail s
  sandbox_readied s none active = (s, [])

  abbrev pub initial_of : Option Opened → Value
  initial_of none = undefined
  initial_of (some o) = o.initial

  -- One handler's turn after a promise: a rejection or a chat that is no longer active fails.
  abbrev pub goes_on : AppView → Bool → Outcome (Unit {0}) → Bool
  goes_on s is_current (ok u) = is_active s is_current
  goes_on s is_current (throw e) = false

  unfoldable pub start_call : AppView → ℕ → String → Value → AppView × List Effect
  start_call s call operation_id params = elim (call_body params operation_id) [
    | throw e ↦ (s, refuse call e ∷ [])
    | ok body ↦ (s, post call (path_of s.view_id <> "/tools/call" <> query) body ∷ [])
  ]

  unfoldable pub answer_call : AppView → ℕ → Bool → Outcome Value → AppView × List Effect
  answer_call s call is_current (throw e) = (s, refuse call e ∷ [])
  answer_call s call is_current (ok result) =
      if is_active s is_current
      then (s, respond call result ∷ [])
      else (s, refuse call inactive ∷ [])

  unfoldable pub resize : AppView → Option Frame → Option Height → AppView
  resize s (some f) (some height) = record s { frame = some (record f { height = height }) }
  resize s frame height = s

  unfoldable pub start_view : AppView → Option Opened → Startup → Bool → AppView × List Effect
  start_view s (some o) unsent true =
      (record s { startup = sending_input }, send_input (member o.initial "arguments") ∷ [])
  start_view s (some o) unsent false = fail (record s { startup = ended })
  start_view s bridge startup active = (s, [])

  -- Each promise is settled once: where it is not awaited, its event does nothing.
  unfoldable pub receive : AppView → Opening → Bool → Outcome Value → AppView × List Effect
  receive s asking is_current reply = answer s is_current reply
  receive s opening is_current reply = (s, [])

  unfoldable pub connect_settled : AppView → Opening → Bool → AppView × List Effect
  connect_settled s connecting true = finish_opening s s.bridge
  connect_settled s connecting false = reject_opening s
  connect_settled s opening on = (s, [])

  unfoldable pub go_on_closing : AppView → Cleanup → Bool → AppView × List Effect
  go_on_closing s awaiting true = proceed s s.view_id
  go_on_closing s cleanup settled = (s, [])

  unfoldable pub bridge_settled : AppView → Cleanup → Settling → AppView
  bridge_settled s (closing pending server) reply = close s reply server
  bridge_settled s cleanup reply = s

  unfoldable pub server_settled : AppView → Cleanup → Outcome (Unit {0}) → AppView
  server_settled s (closing bridge pending) (ok u) = close (record s { view_id = none }) bridge done
  server_settled s (closing bridge pending) (throw e) = close s bridge failed
  server_settled s cleanup reply = s

  unfoldable pub input_settled : AppView → Startup → Bool → AppView × List Effect
  input_settled s sending_input true = (
    record s { startup = sending_result },
    send_result (member (initial_of s.bridge) "result") ∷ [],
  )
  input_settled s sending_input false = fail (record s { startup = ended })
  input_settled s startup on = (s, [])

  unfoldable pub result_settled : AppView → Startup → Bool → AppView × List Effect
  result_settled s sending_result true = (record s { startup = ended; status = "App ready." }, [])
  result_settled s sending_result false = fail (record s { startup = ended })
  result_settled s startup on = (s, [])

  unfoldable pub step : AppView → Event → AppView × List Effect
  step s (answered is_current reply) = receive s s.opening is_current reply
  step s (connected is_current reply) = connect_settled s s.opening (goes_on s is_current reply)
  step s disposal = retire s s.cleanup
  step s proceeding = go_on_closing s s.cleanup (has_settled s.opening)
  step s (bridge_closed reply) = (bridge_settled s s.cleanup (settling reply), [])
  step s (deleted reply) = (server_settled s s.cleanup reply, [])
  step s bridge_error = if has_bridge s.bridge then fail s else (s, [])
  step s resource_failed = if has_bridge s.bridge then fail s else (s, [])
  step s (tool_call call is_current operation_id params) =
      if is_active s is_current
      then start_call s call operation_id params
      else (s, refuse call inactive ∷ [])
  step s (tool_list call is_current) =
      if is_active s is_current
      then (s, fetch call (path_of s.view_id <> "/tools" <> query) ∷ [])
      else (s, refuse call inactive ∷ [])
  step s (call_answered call is_current reply) = answer_call s call is_current reply
  step s (sandbox_ready is_current) = sandbox_readied s s.bridge (is_active s is_current)
  step s (view_initialized is_current) = start_view s s.bridge s.startup (is_active s is_current)
  step s (input_sent is_current reply) = input_settled s s.startup (goes_on s is_current reply)
  step s (result_sent is_current reply) = result_settled s s.startup (goes_on s is_current reply)
  step s (resized height) =
      if s.retired then (s, []) else (resize s s.frame (clamp_height l.clamp_fraction height), [])

  unfoldable pub mount_steps : AppView → List Event → AppView × List Effect
  mount_steps s [] = (s, [])
  mount_steps s (e ∷ es) =
      ((mount_steps (step s e).0 es).0, (step s e).1 ++ (mount_steps (step s e).0 es).1)

  -- The call of `mountMCPApp` with valid arguments, up to its first `await`.
  unfoldable pub mount_app : Bool → AppView × List Effect
  unfolding reject_opening
  mount_app is_current =
      if is_current
      then (mounting, ask ("/api/mcp/apps/publications/" <> l.reference <> "/views" <> query) ∷ [])
      else reject_opening mounting
