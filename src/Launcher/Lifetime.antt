-- ===== src/Launcher/Lifetime.antt =====
-- The apps of one launcher over any events.
use kestrel_feature_mcp.Prelude.{
  ℕ, Bool, true, false, ◌≡◌, refl, not, ◌&&◌, ◌||◌, Option, none, some, List, [], ◌∷◌, ◌++◌, all,
  nat_eq, arith, if◌then◌else◌,
}
use kestrel_feature_mcp.Launcher.{
  Launcher, Effect, opened, disposed, unconfirmed, failed, Event, open_click, close_click,
  bus_event, retirement, settlement, is_open, mounted, open_app, close_app, settle_disposal, step,
  follow,
}

-- The app that is alive after some effects; `none` if one was opened beside another, or one disposed
-- of that was not alive.
abbrev pub alive : Option ℕ → List Effect → Option (Option ℕ)
alive app [] = some app
alive none (opened a ∷ es) = alive (some a) es
alive (some b) (opened a ∷ es) = none
alive none (disposed a ∷ es) = none
alive (some b) (disposed a ∷ es) = if nat_eq b a then alive none es else none
alive app (unconfirmed ∷ es) = alive app es
alive app (failed e ∷ es) = alive app es

-- The buttons say what can be done: an app that is open can be closed, and none is open while a
-- disposal is pending, or after retirement.
abbrev pub IsConsistent : Launcher → Type 0
IsConsistent s =
    (s.close_hidden ≡ not (is_open s.app))
    × ((is_open s.app && (s.closing || s.retired)) ≡ false)
    × (s.listening ≡ not s.retired)
    × ((not (s.closing || is_open s.app) || s.disabled) ≡ true)

abbrev pub opens_nothing : Effect → Bool
opens_nothing (opened a) = false
opens_nothing e = true

opens_nothing-append :
    (xs ys : List Effect)
    → all opens_nothing xs ≡ true
    → all opens_nothing ys ≡ true
    → all opens_nothing (xs ++ ys) ≡ true
opens_nothing-append [] ys h k = k
opens_nothing-append (x ∷ xs) ys h k = ground (arith, opens_nothing-append xs ys)

-- A retired launcher without an app.
abbrev IsRetired : Launcher → Type 0
IsRetired s = (s.retired ≡ true) × (s.listening ≡ false) × (s.app ≡ none)

step-IsRetired :
    (s : Launcher) (e : Event)
    → IsRetired s
    → IsRetired (step s e).0 × (all opens_nothing (step s e).1 ≡ true)
unfolding step open_app mounted close_app settle_disposal
step-IsRetired s (open_click current result) r = ground arith
step-IsRetired s close_click r = ground arith
step-IsRetired s bus_event r = ground arith
step-IsRetired s retirement r = ground arith
step-IsRetired s (settlement fulfilled) r = ground arith

follow-IsRetired :
    (s : Launcher) (events : List Event)
    → IsRetired s
    → IsRetired (follow s events).0 × (all opens_nothing (follow s events).1 ≡ true)
unfolding follow
follow-IsRetired s [] r = (r, refl)
follow-IsRetired s (e ∷ events) r =
    let (still, quietly) = step-IsRetired s e r in
    let (later, silent) = follow-IsRetired (step s e).0 events still in
    (later, opens_nothing-append (step s e).1 _ quietly silent)

retires : (s : Launcher) → IsRetired (step s retirement).0
unfolding step close_app
retires s = ground arith

-- Retirement is final: after it, from any state and whatever happens, no app is opened and none is
-- held.
pub follow_retired :
    (s : Launcher) (events : List Event)
    → (all opens_nothing (follow (step s retirement).0 events).1 ≡ true)
      × ((follow (step s retirement).0 events).0.app ≡ none)
follow_retired s events =
    let ((_, _, gone), silent) = follow-IsRetired (step s retirement).0 events (retires s) in
    (silent, gone)
