-- ===== src/AppState.antt =====
-- web/src/parent-view.js: the variables of `mountMCPApp`, what it is told, and what it does.
use kestrel_feature_mcp.Prelude.{
  ℕ, String, Bool, true, false, Option, none, some, List, [], ◌∷◌, Outcome, Exception, error,
}
use kestrel_feature_mcp.Value.{Number, Value}
use kestrel_feature_mcp.Policy.{Approved}
use kestrel_feature_mcp.Transport.{Transport}
use kestrel_feature_mcp.AppReply.{Height, Frame, Opened}

-- Where the promise `opening` stands: the host's answer or the bridge is awaited, or it has settled.
pub data Opening : Type 0 where
  asking connecting fulfilled rejected : Opening

-- A promise that the cleanup awaits.
pub data Settling : Type 0 where
  pending done failed : Settling

-- `cleanup`: it is not there, it awaits the opening, then the bridge and the server, and settles.
pub data Cleanup : Type 0 where
  absent awaiting closed broken : Cleanup
  closing : Settling → Settling → Cleanup

-- What the handler of `oninitialized` sends: nothing yet, the input, the result, and then it ends.
pub data Startup : Type 0 where
  unsent sending_input sending_result ended : Startup

-- The variables of `mountMCPApp`. `bridge` stands for the bridge with what it was made of; `frame`
-- is the proxy while it is in the page; `watched` says that a failure waits for the cleanup.
pub record AppView : Type 0 where
  pub opening : Opening
  pub view_id : Option String
  pub bridge : Option Opened
  pub frame : Option Frame
  pub retired : Bool
  pub cleanup : Cleanup
  pub watched : Bool
  pub startup : Startup
  pub status : String

pub data Effect : Type 0 where
  ask : String → Effect  -- POST of `{}` to a path
  delete : String → Effect  -- DELETE of a path
  post : ℕ → String → String → Effect  -- a call's POST of a body to a path
  fetch : ℕ → String → Effect  -- a call's GET
  abort close_bridge remove_frame : Effect
  append_frame : Frame → Effect
  connect : Transport → Effect
  send_resource : Value → Approved → Effect  -- with the HTML
  send_input send_result : Value → Effect
  respond : ℕ → Value → Effect  -- a call's handler returns
  refuse : ℕ → Exception → Effect  -- it throws

-- What `isCurrentChat` answers comes with the event in which it is called.
pub data Event : Type 0 where
  answered : Bool → Outcome Value → Event  -- the POST that opens the View
  connected : Bool → Outcome (Unit {0}) → Event
  disposal proceeding : Event  -- `dispose`, and the cleanup after the opening
  bridge_closed deleted : Outcome (Unit {0}) → Event
  bridge_error resource_failed : Event
  tool_call : ℕ → Bool → String → Value → Event  -- with a random UUID, and the parameters
  tool_list : ℕ → Bool → Event
  call_answered : ℕ → Bool → Outcome Value → Event
  sandbox_ready view_initialized : Bool → Event
  input_sent result_sent : Bool → Outcome (Unit {0}) → Event
  resized : Number → Event

abbrev pub unavailable : String
unavailable = "App unavailable. The completed tool will not be replayed."

abbrev pub unconfirmed_text : String
unconfirmed_text = "App closed locally; server cleanup could not be confirmed."

abbrev pub inactive : Exception
inactive = error "The original App chat is no longer active"

abbrev pub has_bridge : Option Opened → Bool
has_bridge none = false
has_bridge (some o) = true

abbrev pub has_frame : Option Frame → Bool
has_frame none = false
has_frame (some f) = true

abbrev pub when : Bool → Effect → List Effect
when true e = e ∷ []
when false e = []

-- The parameters of `mountMCPApp` and of its window, `encodeURIComponent` among them.
pub record Lane : Type 0 where
  pub reference : String
  pub session_id : String
  pub location : String
  pub encode : String → String
  pub clamp_fraction : String → Height
