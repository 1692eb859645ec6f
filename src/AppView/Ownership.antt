-- ===== src/AppView/Ownership.antt =====
-- The server's View is closed with the app's, and not before.
use kestrel_feature_mcp.Prelude.{
  String, Bool, true, false, ◌≡◌, none, some, List, [], ◌∷◌, ◌++◌, arith, ok,
}
use kestrel_feature_mcp.Value.{Value, member}
use kestrel_feature_mcp.Platform.{Platform}
use kestrel_feature_mcp.Json.{◌<>◌}
use kestrel_feature_mcp.Launcher.{reference_text}
use kestrel_feature_mcp.AppState.{
  asking, absent, closed, AppView, delete, abort, close_bridge, remove_frame, Event, answered,
  disposal, proceeding, bridge_closed, deleted, Lane, has_bridge, has_frame, when,
}
use kestrel_feature_mcp.AppView.{
  retire, close, closing_text, has_settled, view_path, query, proceed, answer, receive,
  go_on_closing, bridge_settled, server_settled, step, mount_steps,
}
use kestrel_feature_mcp.AppView.Soundness.{IsSound}

-- The host confirms that the View is closed.
abbrev pub is_confirmation : Event → Bool
is_confirmation (deleted (ok u)) = true
is_confirmation e = false

module _ (build : List String → String) (p : Platform) (l : Lane) where
  -- A View that is open is closed everywhere: disposal cuts its calls, its bridge and its frame off, and
  -- asks the host to close the server's View; when the bridge is closed and the host has confirmed,
  -- the cleanup is done, and no id is left.
  pub mount_steps_closes :
      (s : AppView) (id : String)
      → s.cleanup ≡ absent
      → has_settled s.opening ≡ true
      → has_bridge s.bridge ≡ true
      → s.view_id ≡ some id
      → let r =
          mount_steps build p l s
            (disposal ∷ proceeding ∷ bridge_closed (ok tt) ∷ deleted (ok tt) ∷ []) in
        (r.0.cleanup ≡ closed)
        × (r.0.view_id ≡ none)
        × (r.0.status ≡ closing_text s.opening)
        × (r.1
            ≡ abort
              ∷ close_bridge
              ∷ (when (has_frame s.frame) remove_frame
                  ++ delete (view_path build p l id <> query build p l) ∷ []))
  unfolding mount_steps step retire go_on_closing proceed close bridge_settled server_settled
  mount_steps_closes s id c o b v = (ground arith, ground arith, ground arith, ground arith)

  -- A View that opens late is closed unseen: where disposal comes before the host's answer, the View
  -- that the answer names is closed on the server, and never has a bridge or a frame.
  pub mount_steps_late :
      (s : AppView) (is_current : Bool) (initial : Value) (id : String)
      → IsSound s
      → s.opening ≡ asking
      → s.cleanup ≡ absent
      → reference_text (member initial "view_id") ≡ some id
      → let r =
          mount_steps build p l s
            (disposal ∷ answered is_current (ok initial) ∷ proceeding ∷ deleted (ok tt) ∷ []) in
        (r.0.cleanup ≡ closed)
        × (r.0.view_id ≡ none)
        × (r.0.bridge ≡ none)
        × (r.0.frame ≡ none)
        × (r.1 ≡ abort ∷ delete (view_path build p l id <> query build p l) ∷ [])
  unfolding mount_steps step retire receive answer go_on_closing proceed close server_settled
  mount_steps_late s is_current initial id i o c v =
      (ground arith, ground arith, ground arith, ground arith, ground arith)
