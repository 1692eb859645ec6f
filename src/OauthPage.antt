-- ===== src/OauthPage.antt =====
-- web/src/oauth-panel.js, `mountOAuthPanel`: the elements of a panel that is mounted, before its first
-- answer, and the registration of the panel.
use kestrel_feature_mcp.Prelude.{
  String, Bool, true, false, Option, none, some, List, [], ◌∷◌, ◌==◌, if◌then◌else◌,
}

-- An element with its attributes, in the order in which they are set, and what it contains.
mutual
  pub data Node : Type 0 where
    text : String → Node
    element : String → List (String × String) → Nodes → Node

  pub data Nodes : Type 0 where
    no_nodes : Nodes
    add_node : Node → Nodes → Nodes

abbrev pub nodes : List Node → Nodes
nodes [] = no_nodes
nodes (n ∷ ns) = add_node n (nodes ns)

-- What the panel makes of its root.
pub record Root : Type 0 where
  pub added_class : String
  pub content : Nodes

pub record Registration : Type 0 where
  pub panel_id : String
  pub label : String
  pub render : Root

-- `element(tag, text)`, with the attributes that are set afterwards.
abbrev pub make_element : String → Option String → List (String × String) → Node
make_element tag none attributes = element tag attributes no_nodes
make_element tag (some content) attributes = element tag attributes (nodes (text content ∷ []))

abbrev required_attribute : Bool → List (String × String)
required_attribute true = ("required", "") ∷ []
required_attribute false = []

-- `input(label, type)`: the control of a checkbox stands before its label.
abbrev pub make_input : String → String → Bool → Node
make_input label type required =
    let control =
      make_element "input" none
        (("type", type) ∷ ("aria-label", label) ∷ required_attribute required) in
    if type == "checkbox"
    then element "label" (("class", "mcp-oauth-choice") ∷ []) (nodes (control ∷ text label ∷ []))
    else element "label" (("class", "mcp-oauth-field") ∷ []) (nodes (text label ∷ control ∷ []))

abbrev pub make_button : String → String → String → Node
make_button label type class =
    make_element "button" (some label) (("type", type) ∷ ("class", class) ∷ [])

abbrev pub form_page : Node
form_page = element "form" [] (
    nodes (
      make_input "MCP server URL" "url" true
      ∷ make_input "Scopes" "text" true
      ∷ make_input "Start a new authorization after an uncertain outcome" "checkbox" false
      ∷ make_button "Authorize connector" "submit" "btn btn-primary"
      ∷ []))

abbrev pub first_status : String
first_status = "Choose Refresh to read your connections."

unfoldable pub panel_page : Root
panel_page = record {
  added_class = "mcp-connectors-panel";
  content = nodes (
      make_element "h2" (some "MCP connectors") []
      ∷ make_element "p"
          (some
            "Authorize a connector for your signed-in account, then connect its tools to this agent.")
          []
      ∷ make_element "p" (some first_status) (("role", "status") ∷ ("aria-live", "polite") ∷ [])
      ∷ form_page
      ∷ make_button "Refresh connections" "button" "btn btn-secondary"
      ∷ make_element "div" none []
      ∷ make_element "div" none []
      ∷ []);
}

unfoldable pub registration : Registration
unfolding panel_page
registration = record { panel_id = "mcp-connectors"; label = "MCP connectors"; render = panel_page }
