-- ===== src/AppView/Bridging.antt =====
-- The steps that leave the bridge as it is, and show and send nothing that was not approved.
use kestrel_feature_mcp.Prelude.{
  ℕ, String, Bool, true, false, ◌≡◌, ◌⊎◌, refl, Option, none, some, List, All, arith, Outcome, ok,
  throw, ◌==◌, if◌then◌else◌,
}
use kestrel_feature_mcp.Value.{Value, Number, member, str}
use kestrel_feature_mcp.Platform.{Platform}
use kestrel_feature_mcp.AppReply.{Opened, or_empty, frame_of}
use kestrel_feature_mcp.Policy.{approve_sandbox_policy}
use kestrel_feature_mcp.AppState.{
  Opening, connecting, rejected, Settling, pending, done, failed, Cleanup, absent, awaiting,
  closing, Startup, unsent, sending_input, sending_result, ended, AppView, Effect, Event, answered,
  append_frame, connect, send_resource, tool_call, tool_list, resized, Lane, unconfirmed_text,
  unavailable, has_bridge,
}
use kestrel_feature_mcp.AppView.{
  retire, fail, reject_opening, close, is_broken, proceed, finish_opening, start_call, answer_call,
  resize, start_view, connect_settled, go_on_closing, bridge_settled, server_settled, input_settled,
  result_settled, step,
}

module _ (build : List String → String) (p : Platform) (l : Lane) (R : Event → Type 0) where
  -- An answer of the host that the app accepts: it came while the chat was current, in one of the
  -- events; it names the console's origin as the host's; its sandbox is at an HTTP or HTTPS URL of
  -- another origin, without credentials, query and fragment; and the policy approves just these
  -- grants for the domains and the devices that its resource asks for.
  pub record IsAccepted (o : Opened) : Type 0 where
    pub came : R (answered true (ok o.initial))
    pub host : member o.initial "host_origin" ≡ str l.location
    pub sandbox : p.new_url (member o.initial "sandbox_url") ≡ some o.url
    pub protocol : (o.url.protocol ≡ "https:") ⊎ (o.url.protocol ≡ "http:")
    pub apart : (o.url.origin == l.location) ≡ false
    pub username : o.url.username ≡ ""
    pub password : o.url.password ≡ ""
    pub search : o.url.search ≡ ""
    pub hash : o.url.hash ≡ ""
    pub granted :
        approve_sandbox_policy p
          (member (or_empty (member (member (member o.initial "resource") "_meta") "ui")) "csp")
          (member
            (or_empty (member (member (member o.initial "resource") "_meta") "ui"))
            "permissions")
          (member o.initial "policy")
        ≡ ok o.approved

  -- What an effect shows or reaches.
  abbrev pub IsApproved : Effect → Type 0
  IsApproved (append_frame f) = (o : Opened) × IsAccepted o × (f ≡ frame_of build o.approved)
  IsApproved (connect t) = (o : Opened) × IsAccepted o × (t.origin ≡ o.url.origin)
  IsApproved (send_resource html approved) =
      (o : Opened) × IsAccepted o
      × (approved ≡ o.approved)
      × (html ≡ member (member o.initial "resource") "html")
  IsApproved effect = Unit

  abbrev pub IsMade : Option Opened → Type 0
  IsMade none = Unit
  IsMade (some o) = IsAccepted o

  abbrev pub Keeps : AppView → AppView × List Effect → Type 0
  Keeps s r = (r.0.bridge ≡ s.bridge) × All IsApproved r.1

  pub retire-Keeps : (s : AppView) (c : Cleanup) → Keeps s (retire s c)
  unfolding retire
  retire-Keeps s absent = (refl, ground arith)
  retire-Keeps s c = (refl, tt)

  pub fail-Keeps : (s : AppView) → Keeps s (fail s)
  unfolding fail
  fail-Keeps s =
      retire-Keeps
        (record s {
          status = if is_broken s.cleanup then unconfirmed_text else unavailable;
          watched = true;
        })
        s.cleanup

  pub connect_settled-Keeps :
      (s : AppView) (o : Opening) (on : Bool) → Keeps s (connect_settled build p l s o on)
  unfolding connect_settled finish_opening reject_opening
  connect_settled-Keeps s connecting true = finish s.bridge
    where
      finish : (o : Option Opened) → Keeps s (finish_opening build p l s o)
      finish none = (refl, tt)
      finish (some o) = (refl, tt)
  connect_settled-Keeps s connecting false = fail-Keeps (record s { opening = rejected })
  connect_settled-Keeps s o on = (refl, tt)

  close_bridge_same : (s : AppView) (b t : Settling) → (close s b t).bridge ≡ s.bridge
  unfolding close
  close_bridge_same s b t = ground arith

  pub go_on_closing-Keeps :
      (s : AppView) (c : Cleanup) (settled : Bool) → Keeps s (go_on_closing build p l s c settled)
  unfolding go_on_closing proceed
  go_on_closing-Keeps s awaiting true =
      ground (arith, close_bridge_same s (if has_bridge s.bridge then pending else done))
  go_on_closing-Keeps s c settled = (refl, tt)

  pub settled_same :
      (s : AppView) (c : Cleanup) (bridge : Settling) (server : Outcome (Unit {0}))
      → ((bridge_settled build p l s c bridge).bridge ≡ s.bridge)
        × ((server_settled build p l s c server).bridge ≡ s.bridge)
  unfolding bridge_settled server_settled
  settled_same s c bridge server = (bridged c bridge, served c server)
    where
      bridged : (c : Cleanup) (b : Settling) → (bridge_settled build p l s c b).bridge ≡ s.bridge
      bridged (closing pending server) b = close_bridge_same s b server
      bridged c b = refl

      served :
          (c : Cleanup) (r : Outcome (Unit {0}))
          → (server_settled build p l s c r).bridge ≡ s.bridge
      served (closing bridge pending) (ok u) =
          close_bridge_same (record s { view_id = none }) bridge done
      served (closing bridge pending) (throw e) = close_bridge_same s bridge failed
      served c r = refl

  pub handlers-Keeps :
      (s : AppView) (o : Option Opened) (st : Startup) (b : Bool)
      → Keeps s (start_view build p l s o st b)
        × Keeps s (input_settled build p l s st b)
        × Keeps s (result_settled build p l s st b)
  unfolding start_view input_settled result_settled
  handlers-Keeps s o st b = (starts o st b, inputs st b, results st b)
    where
      ending : Keeps s (fail (record s { startup = ended }))
      ending = fail-Keeps (record s { startup = ended })

      starts :
          (o : Option Opened) (st : Startup) (b : Bool) → Keeps s (start_view build p l s o st b)
      starts (some o) unsent true = (refl, (tt, tt))
      starts (some o) unsent false = ending
      starts o st b = (refl, tt)

      inputs : (st : Startup) (b : Bool) → Keeps s (input_settled build p l s st b)
      inputs sending_input true = (refl, (tt, tt))
      inputs sending_input false = ending
      inputs st b = (refl, tt)

      results : (st : Startup) (b : Bool) → Keeps s (result_settled build p l s st b)
      results sending_result true = (refl, tt)
      results sending_result false = ending
      results st b = (refl, tt)

  pub call-Keeps :
      (s : AppView) (call : ℕ) (is_current : Bool) (operation_id : String) (params : Value)
      → Keeps s (step build p l s (tool_call call is_current operation_id params))
  unfolding step start_call
  call-Keeps s call is_current operation_id params = ground arith

  pub list-Keeps :
      (s : AppView) (call : ℕ) (b : Bool) → Keeps s (step build p l s (tool_list call b))
  unfolding step
  list-Keeps s call b = ground arith

  pub answer_call-Keeps :
      (s : AppView) (call : ℕ) (is_current : Bool) (reply : Outcome Value)
      → Keeps s (answer_call build p l s call is_current reply)
  unfolding answer_call
  answer_call-Keeps s call is_current reply = ground arith

  pub resized-Keeps : (s : AppView) (height : Number) → Keeps s (step build p l s (resized height))
  unfolding step resize
  resized-Keeps s height = ground arith
