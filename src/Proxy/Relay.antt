-- ===== src/Proxy/Relay.antt =====
-- web/src/proxy.js: the traffic of a proxy after its start.
use mathlib.Core.List.{append_assoc}
use kestrel_feature_mcp.Prelude.{
  String, true, false, ◌≡◌, refl, ◌∙◌, not, ◌||◌, some, List, [], ◌∷◌, ◌++◌, arith, ◌==◌,
}
use kestrel_feature_mcp.Value.{Value, member}
use kestrel_feature_mcp.Platform.{Platform}
use kestrel_feature_mcp.Proxy.{
  Settings, initialized, Proxy, Effect, to_host, to_view, mount, Event, message, Source,
  host_window, view_window, other_window, fresh, has_view, is_heard, step, play, view_of,
}
use kestrel_feature_mcp.Proxy.Progress.{
  Reads, step_of_handle, handle_of_Reads, hears_host, hears_view, passes_view, passes_host, IsStart,
  play_handshake,
}

module _ (build : List String → String) (p : Platform) (g : Settings) where
  -- Not the host's window at the host's origin, nor the View's at its opaque one.
  abbrev pub IsStray : Source → String → Type 0
  IsStray host_window origin = (origin == g.host_origin) ≡ false
  IsStray view_window origin = (origin == "null") ≡ false
  IsStray other_window origin = Unit

  -- What comes in: a message of the View's or of the host's that may cross, or any value of another
  -- sender.
  pub data Letter : Type 0 where
    outward : (value m : Value) → Reads build p g value m false → Letter
    inward : (value m : Value) → Reads build p g value m false → Letter
    stray : (source : Source) (origin : String) (value : Value) → IsStray source origin → Letter

  -- The events of letters.
  abbrev pub arrivals : List Letter → List Event
  arrivals [] = []
  arrivals (outward value m r ∷ letters) = message view_window "null" value ∷ arrivals letters
  arrivals (inward value m r ∷ letters) = message host_window g.host_origin value ∷ arrivals letters
  arrivals (stray source origin value out ∷ letters) =
      message source origin value ∷ arrivals letters

  -- What they are to have for effects: each message at the other side.
  abbrev pub deliveries : List Letter → List Effect
  deliveries [] = []
  deliveries (outward value m r ∷ letters) = to_host m ∷ deliveries letters
  deliveries (inward value m r ∷ letters) = to_view m ∷ deliveries letters
  deliveries (stray source origin value out ∷ letters) = deliveries letters

  stray_unheard :
      (s : Proxy) (source : Source) (origin : String)
      → IsStray source origin
      → is_heard build p g s source origin ≡ false
  stray_unheard s host_window origin out = ground (arith, out)
  stray_unheard s view_window origin out = ground (arith, out)
  stray_unheard s other_window origin out = ground arith

  step_stray :
      (s : Proxy) (source : Source) (origin : String) (value : Value)
      → IsStray source origin
      → step build p g s (message source origin value) ≡ (s, [])
  unfolding step
  step_stray s source origin value out =
      let deaf : (s.closed || not (is_heard build p g s source origin)) ≡ true =
        ground (arith, stray_unheard s source origin out) in
      rw deaf refl

  relays :
      (s : Proxy) (letters : List Letter)
      → s.closed ≡ false
      → has_view s.view ≡ true
      → s.phase ≡ initialized
      → play build p g s (arrivals letters) ≡ (s, deliveries letters)
  unfolding play
  relays s [] o v ph = refl
  relays s (outward value m r ∷ letters) o v ph =
      rw
        (
          step_of_handle build p g s view_window "null" value _ o (hears_view build p g s v) (
              handle_of_Reads build p g s view_window value m false r
              ∙ passes_view build p g s m v ph),
          relays s letters o v ph,
        )
        refl
  relays s (inward value m r ∷ letters) o v ph =
      rw
        (
          step_of_handle build p g s host_window g.host_origin value _ o (hears_host build p g s) (
              handle_of_Reads build p g s host_window value m false r
              ∙ passes_host build p g s m v ph),
          relays s letters o v ph,
        )
        refl
  relays s (stray source origin value out ∷ letters) o v ph =
      rw (step_stray s source origin value out, relays s letters o v ph) refl

  play_append :
      (s : Proxy) (before later : List Event)
      → play build p g s (before ++ later) ≡ (
        (play build p g (play build p g s before).0 later).0,
        (play build p g s before).1 ++ (play build p g (play build p g s before).0 later).1,
      )
  unfolding play
  play_append s [] later = refl
  play_append s (e ∷ before) later =
      rw (play_append (step build p g s e).0 before later)
        (rw (append_assoc (step build p g s e).1) refl)

  -- A started proxy loses, changes, reorders and adds nothing: from a new proxy, whose host and View
  -- start it as they should, any further messages of the two that are valid and not the proxy's own,
  -- mixed with any values of other senders, are passed on to the other side, each once and in the
  -- order of their arrival; the other senders' cause nothing, and the proxy is open and initialized
  -- as it was after the start.
  pub play_relays :
      (resource opening reply notice : Value) (i : IsStart build p g resource opening reply notice)
      (letters : List Letter)
      → play build p g fresh (
          message host_window g.host_origin resource
          ∷ message view_window "null" opening
          ∷ message host_window g.host_origin reply
          ∷ message view_window "null" notice
          ∷ arrivals letters)
        ≡ (
          record {
            view = some (view_of build p g i.params i.approved);
            closed = false;
            initialize_id = member i.request "id";
            phase = initialized;
          },
          mount (view_of build p g i.params i.approved)
              ∷ to_host i.request
              ∷ to_view i.result
              ∷ to_host i.done
              ∷ deliveries letters,
        )
  play_relays resource opening reply notice i letters =
      play_append fresh
        (message host_window g.host_origin resource
          ∷ message view_window "null" opening
          ∷ message host_window g.host_origin reply
          ∷ message view_window "null" notice
          ∷ [])
        (arrivals letters)
      ∙ rw (play_handshake build p g resource opening reply notice i) (
          rw
            (relays
              (record {
                view = some (view_of build p g i.params i.approved);
                closed = false;
                initialize_id = member i.request "id";
                phase = initialized;
              })
              letters refl refl refl)
            refl)
