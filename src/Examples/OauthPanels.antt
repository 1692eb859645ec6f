-- ===== src/Examples/OauthPanels.antt =====
-- The theorems on the panel of the connectors, at a tab of the tests.
use kestrel_feature_mcp.Prelude.{
  true, false, ◌≡◌, refl, none, some, List, [], ◌∷◌, All, leb, trim, replace_all, utf16_length,
  if◌then◌else◌,
}
use kestrel_feature_mcp.Json.{stringify}
use kestrel_feature_mcp.Value.{Value, obj, arr, field, end, str, strings, nil, cons, get, is_text}
use kestrel_feature_mcp.OauthPage.{text, element, no_nodes, nodes, make_input}
use kestrel_feature_mcp.OauthReply.{
  reload, submit, disconnect, render_row, slice_end, read_form, begin_body, read_authorization,
  hint_of,
}
use kestrel_feature_mcp.OauthState.{
  request, navigate, Event, clicked, replied, actor_changed, typed, success, failure, Console,
}
use kestrel_feature_mcp.OauthPanel.{
  finish, send, show, consent, proceed, settle, begin_authorization, begin, perform, receive, step,
  play, mounted_panel,
}
use kestrel_feature_mcp.OauthPanel.Turns.{count, play_single}
use kestrel_feature_mcp.OauthPanel.Isolation.{IsReset, play_isolated}
use kestrel_feature_mcp.OauthPanel.Lanes.{IsRouted, play-IsRouted}
use kestrel_feature_mcp.OauthPanel.Consent.{IsConsented, play-IsConsented}
use kestrel_feature_mcp.OauthPanel.Progress.{play_ends}
use kestrel_feature_mcp.Examples.Fixture.{platform, site}

abbrev console : Console
console = record {
  platform = record platform {
    new_url = λ v.
        if is_text v "https://mcp.example"
        then some (site "https:" "https://mcp.example")
        else if is_text v "https://issuer.example"
        then some (site "https:" "https://issuer.example")
        else none;
  };
  encode = λ s. s;
  parse = λ s. none;
  states_of = λ url. "0123456789abcdef" ∷ [];
  btoa = λ s. s;
  agent_url = λ s. s;
}

abbrev started : Value
started = obj (
    field "authorization_url" (str "https://issuer.example") (
      field "issuer" (str "https://issuer.example")
        (field "operation_id" (str "CCCCCCCCCCCCCCCCCCCCCCCCCCCCCCCCCCCCCCCCCCC") end)))

abbrev rows : Value
rows = obj (
    field "connections"
      (arr (
        cons
          (obj (
            field "server_url" (str "https://mcp.example") (
              field "scopes" (arr (strings ("read" ∷ "write" ∷ [])))
                (field "state" (str "revoked") end))))
          nil))
      end)

abbrev submitting : List Event
submitting = typed "https://mcp.example" "read" false ∷ clicked "fox" true submit ∷ []

-- A submission, and where the browser goes.
submits :
    (play console (mounted_panel []) (
      typed "https://mcp.example" "read" false
      ∷ clicked "fox" true submit
      ∷ replied "fox" true 0 (success started)
      ∷ [])).1
    ≡ request "POST" "/api/agent-routes/fox/api/mcp/oauth/authorizations"
        "{\"server_url\":\"https://mcp.example\",\"scopes\":[\"read\"],\"acknowledge_unknown\":false}"
      ∷ navigate "https://issuer.example/"
      ∷ []
unfolding mounted_panel play step perform begin begin_authorization send receive settle proceed
    consent finish read_form begin_body read_authorization hint_of slice_end utf16_length trim get
    stringify replace_all
submits = refl

-- The connections that are shown.
loads :
    (play console
      (mounted_panel [])
      (clicked "fox" true reload ∷ replied "fox" true 0 (success rows) ∷ [])).0.status
    ≡ "Connections loaded for your account."
unfolding mounted_panel play step perform begin send receive settle proceed show finish render_row
loads = refl

play_single_example :
    let s = (play console (mounted_panel []) submitting).0 in
    leb (count s.generation s.jobs) (if s.busy then 1 else 0) ≡ true
play_single_example = play_single console [] submitting

alive : (play console (mounted_panel []) submitting).0.disposed ≡ false
unfolding mounted_panel play step perform begin begin_authorization send read_form trim
alive = refl

play_isolated_example :
    let s = (play console (mounted_panel []) submitting).0 in
    IsReset console s
      (play console (step console s actor_changed).0 (replied "owl" true 0 (success started) ∷ []))
play_isolated_example =
    play_isolated console [] submitting (replied "owl" true 0 (success started) ∷ []) alive refl

play-IsRouted_example :
    let s = (play console (mounted_panel []) []).0 in
    All
      (IsRouted console s (clicked "fox" true reload))
      (step console s (clicked "fox" true reload)).1
play-IsRouted_example = play-IsRouted console [] [] (clicked "fox" true reload)

play-IsConsented_example :
    let s = (play console (mounted_panel []) submitting).0 in
    All
      (IsConsented console
        (replied "fox" true 0 (success started))
        (step console s (replied "fox" true 0 (success started))).0.storage)
      (step console s (replied "fox" true 0 (success started))).1
play-IsConsented_example =
    play-IsConsented console [] submitting (replied "fox" true 0 (success started))

free :
    ((play console (mounted_panel []) []).0.busy ≡ false)
    × ((play console (mounted_panel []) []).0.disposed ≡ false)
unfolding mounted_panel play
free = (refl, refl)

play_ends_example :
    (play console (play console (mounted_panel []) []).0 (
      clicked "fox" true (disconnect "/connections/7")
      ∷ replied "fox" true 0 (success started)
      ∷ replied "fox" true 0 (failure 503)
      ∷ [])).0.busy
    ≡ false
play_ends_example =
    play_ends console [] [] "fox" true (disconnect "/connections/7") (success started) (failure 503)
      free.0 free.1

-- The checkbox stands before its label, and has it as its name.
choice :
    make_input "Start a new authorization after an uncertain outcome" "checkbox" false
    ≡ element "label" (("class", "mcp-oauth-choice") ∷ []) (
        nodes (
          element "input"
            (("type", "checkbox")
              ∷ ("aria-label", "Start a new authorization after an uncertain outcome")
              ∷ [])
            no_nodes
          ∷ text "Start a new authorization after an uncertain outcome"
          ∷ []))
choice = refl
