-- ===== src/Examples/Launchers.antt =====
-- The launcher at a run with two apps.
use kestrel_feature_mcp.Prelude.{true, ◌≡◌, refl, none, List, [], ◌∷◌, ok, all, false}
use kestrel_feature_mcp.Value.{obj, field, end, str}
use kestrel_feature_mcp.Launcher.{
  Event, open_click, close_click, retirement, settlement, opened, disposed, unconfirmed, unopened,
  step, follow, open_app, mounted, close_app, settle_disposal, render,
}
use kestrel_feature_mcp.Launcher.Lifetime.{opens_nothing, follow_retired}

abbrev events : List Event
events =
    open_click true (ok 1)
    ∷ open_click true (ok 2)
    ∷ close_click
    ∷ open_click true (ok 3)
    ∷ settlement false
    ∷ open_click true (ok 4)
    ∷ retirement
    ∷ []

follows :
    (follow unopened events).1 ≡ opened 1 ∷ disposed 1 ∷ unconfirmed ∷ opened 4 ∷ disposed 4 ∷ []
unfolding follow step open_app mounted close_app settle_disposal
follows = refl

renders_nothing :
    render (obj (field "reference" (str "short") (field "session_id" (str "s") end))) "s" true
    ≡ "<p>App unavailable for this conversation.</p>"
unfolding render
renders_nothing = refl

follow_retired_example :
    (all opens_nothing (follow (step unopened retirement).0 events).1 ≡ true)
    × ((follow (step unopened retirement).0 events).0.app ≡ none)
follow_retired_example = follow_retired unopened events
