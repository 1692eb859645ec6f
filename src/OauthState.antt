-- ===== src/OauthState.antt =====
-- web/src/oauth-panel.js: the variables of `mountOAuthPanel`, what it is told, and what it does.
use kestrel_feature_mcp.Prelude.{ℕ, String, Bool, Option, List}
use kestrel_feature_mcp.Value.{Value}
use kestrel_feature_mcp.Platform.{Platform, Url}
use kestrel_feature_mcp.OauthReply.{Operation, Card}

-- What `capture` gives: the actor at the start of an operation. An agent is its name, blank where
-- there is none.
pub record Owner : Type 0 where
  pub base : String
  pub token : ℕ
  pub agent : String

-- What an operation awaits: the connections, after which a text is shown; a change, after which a
-- key leaves the storage and the connections are loaded; or the beginning of an authorization.
pub data Waiting : Type 0 where
  loading : Option String → Waiting
  changing : Option String → Option String → Waiting
  authorizing : Waiting

pub record Job : Type 0 where
  pub owner : Owner
  pub waiting : Waiting

-- The variables of `mountOAuthPanel`, what its elements show, and the tab's storage; `jobs` are the
-- operations that await an answer, the latest first.
pub record Panel : Type 0 where
  pub generation : ℕ
  pub busy : Bool
  pub disposed : Bool
  pub has_controller : Bool
  pub jobs : List Job
  pub status : String
  pub server : String
  pub scopes : String
  pub acknowledge : Bool
  pub connections : List Card
  pub pending : List (String × Operation)
  pub storage : List (String × String)

pub data Effect : Type 0 where
  request : String → String → String → Effect  -- a method, a path, and a body
  abort : Effect
  navigate : String → Effect

-- What comes from the host: a value, or a failure with its status, 0 where it has none.
pub data Reply : Type 0 where
  success : Value → Reply
  failure : ℕ → Reply

-- The agent of the console at an event comes with it, and whether the storage takes a text.
pub data Event : Type 0 where
  clicked : String → Bool → Operation → Event
  replied : String → Bool → ℕ → Reply → Event  -- to the job at a place
  actor_changed : Event  -- the agent, or the account
  disposal : Event
  typed : String → String → Bool → Event  -- into the form
  stored : List (String × String) → Event  -- by other code of the tab

-- Where the code takes the URL parser, `encodeURIComponent`, `JSON.parse`, the values of `state` in
-- a URL, `btoa` of the UTF-8 bytes of a text, and `buildAgentUrl` from.
pub record Console : Type 0 where
  pub platform : Platform
  pub encode : String → String
  pub parse : String → Option Value
  pub states_of : Url → List String
  pub btoa : String → String
  pub agent_url : String → String
