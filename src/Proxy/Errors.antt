-- ===== src/Proxy/Errors.antt =====
-- An error is final, and what is shown was granted.
use mathlib.Core.List.{append-nil}
use mathlib.Core.List.{Mem, mem-cons_self, mem-cons_of_mem}
use mathlib.Core.Path.{subst}
use kestrel_feature_mcp.Prelude.{
  eq_iff, ap, String, Bool, true, false, ◌≡◌, refl, ◌∙◌, ◌&&◌, List, [], ◌∷◌, ◌++◌, All, All-append,
  all, ◌⊎◌, inl, inr, Bool-cases, and-true_parts, arith,
}
use kestrel_feature_mcp.Platform.{Platform}
use kestrel_feature_mcp.Value.{Value}
use kestrel_feature_mcp.Proxy.{
  Source, host_window, view_window, other_window, message, is_host, Settings, Proxy, Effect,
  to_host, to_view, mount, report, Event, has_view, dispose, step, play,
}
use kestrel_feature_mcp.Proxy.Steps.{
  IsResource, ignore, load, initialize, respond, confirm, speak, Step, quiet, move, fail,
  settle_load, navigate, retire, step-Step, Hears,
}

-- Neither a message nor a new View.
abbrev pub is_inert : Effect → Bool
is_inert (to_host m) = false
is_inert (to_view m) = false
is_inert (mount v) = false
is_inert e = true

-- No message and no View after a report.
abbrev pub ends_at_report : List Effect → Bool
ends_at_report [] = true
ends_at_report (report x ∷ es) = all is_inert es && ends_at_report es
ends_at_report (e ∷ es) = ends_at_report es

abbrev pub is_report_free : List Effect → Bool
is_report_free [] = true
is_report_free (report x ∷ es) = false
is_report_free (e ∷ es) = is_report_free es

inert-append :
    (xs ys : List Effect) → all is_inert (xs ++ ys) ≡ (all is_inert xs && all is_inert ys)
inert-append [] ys = refl
inert-append (x ∷ xs) ys = ground (arith, inert-append xs ys)

-- Inert effects end at any report.
ends_of_inert : (es : List Effect) → all is_inert es ≡ true → ends_at_report es ≡ true
ends_of_inert [] h = refl
ends_of_inert (report x ∷ es) h = ground (arith, ends_of_inert es)
ends_of_inert (e ∷ es) h = ends_of_inert es (and-true_parts (is_inert e) (all is_inert es) h).1

ends_of_free :
    (xs ys : List Effect)
    → is_report_free xs ≡ true
    → ends_at_report ys ≡ true
    → ends_at_report (xs ++ ys) ≡ true
ends_of_free [] ys h k = k
ends_of_free (report x ∷ xs) ys h k = cc
ends_of_free (e ∷ xs) ys h k = ends_of_free xs ys h k

ends_of_append :
    (xs ys : List Effect)
    → all is_inert xs ≡ true
    → all is_inert ys ≡ true
    → ends_at_report (xs ++ ys) ≡ true
ends_of_append xs ys h k = ends_of_inert (xs ++ ys) (inert-append xs ys ∙ ground arith)

dispose_inert :
    (s : Proxy) (rest : List Effect)
    → ((dispose s).0.closed ≡ true) × (all is_inert ((dispose s).1 ++ rest) ≡ all is_inert rest)
unfolding dispose
dispose_inert s rest = ground arith

dispose_free : (s : Proxy) → is_report_free (dispose s).1 ≡ true
unfolding dispose
dispose_free s = ground arith

module _ (build : List String → String) (p : Platform) (g : Settings) where
  -- A step without a report, or one that closes and is inert.
  Step-reports :
      (e : Event) (s t : Proxy) (es : List Effect)
      → Step build p g e s t es
      → (is_report_free es ≡ true) ⊎ ((t.closed ≡ true) × (all is_inert es ≡ true))
  Step-reports e s t es (quiet et ee) = inl (rw ee refl)
  Step-reports e s t es (move source received heard o (ignore et ee)) = inl (rw ee refl)
  Step-reports e s t es (move source received heard o (load v host ph r et ee)) = inl (rw ee refl)
  Step-reports e s t es (move source received heard o (initialize m c ph a b et ee)) =
      inl (rw ee refl)
  Step-reports e s t es (move source received heard o (respond m c ph a b et ee)) = inl (rw ee refl)
  Step-reports e s t es (move source received heard o (confirm m c ph a et ee)) = inl (rw ee refl)
  Step-reports e s t es (move source received heard o (speak m c ph et (inl ee))) = inl (rw ee refl)
  Step-reports e s t es (move source received heard o (speak m c ph et (inr ee))) = inl (rw ee refl)
  Step-reports e s t es (fail x o et ee) = inr (rw (et, ee) (dispose_inert s (report x ∷ [])))
  Step-reports e s t es (settle_load v there z et ee) = inl (rw ee refl)
  Step-reports e s t es (navigate v x there et ee) =
      inr (rw (et, ee) (dispose_inert _ (report x ∷ [])))
  Step-reports e s t es (retire et ee) = inl (rw ee (dispose_free s))

  Step-closed :
      (e : Event) (s t : Proxy) (es : List Effect)
      → Step build p g e s t es
      → s.closed ≡ true
      → (t.closed ≡ true) × (all is_inert es ≡ true)
  Step-closed e s t es (quiet et ee) h = rw (et, ee) (h, refl)
  Step-closed e s t es (move source received heard o m) h = cc
  Step-closed e s t es (fail x o et ee) h = cc
  Step-closed e s t es (settle_load v there z et ee) h = rw (et, ee) (h, refl)
  Step-closed e s t es (navigate v x there et ee) h = rw (et, ee) (dispose_inert _ (report x ∷ []))
  Step-closed e s t es (retire et ee) h =
      rw (et, ee) ((dispose_inert s []).0, rw append-nil at (dispose_inert s []).1)

  -- A closed proxy stays closed, passes no message on and shows nothing, whatever happens.
  pub play_closed :
      (s : Proxy) (events : List Event)
      → s.closed ≡ true
      → ((play build p g s events).0.closed ≡ true)
        × (all is_inert (play build p g s events).1 ≡ true)
  unfolding play
  play_closed s [] h = (h, refl)
  play_closed s (e ∷ events) h =
      let (still, inert) = Step-closed e s _ _ (step-Step build p g s e) h in
      let (closed, later) = play_closed (step build p g s e).0 events still in
      (closed, inert-append (step build p g s e).1 _ ∙ ground arith)

  -- An error is final: over any events from any state, after the first report to `onerror` the proxy
  -- passes no message on and shows no View.
  pub play-ends_at_report :
      (s : Proxy) (events : List Event) → ends_at_report (play build p g s events).1 ≡ true
  unfolding play
  play-ends_at_report s [] = refl
  play-ends_at_report s (e ∷ events) = elim (Step-reports e s _ _ (step-Step build p g s e)) [
    | inl none_yet ↦
        ends_of_free (step build p g s e).1 _ none_yet
          (play-ends_at_report (step build p g s e).0 events)
    | inr (closed, inert) ↦
        ends_of_append (step build p g s e).1 _ inert
          (play_closed (step build p g s e).0 events closed).1
  ]

  -- What is shown was read from a message of the host's window, at the host's origin, among events.
  abbrev pub IsShown : List Event → Effect → Type 0
  IsShown events (mount v) =
      (received : Value) × Mem (message host_window g.host_origin received) events
      × IsResource build p g received v
  IsShown events e = Unit

  dispose-IsShown :
      (events : List Event) (s : Proxy) (rest : List Effect)
      → All (IsShown events) rest
      → All (IsShown events) ((dispose s).1 ++ rest)
  unfolding dispose
  dispose-IsShown events s rest h = elim (Bool-cases s.closed) [
    | inl e ↦ rw e h
    | inr e ↦ elim (Bool-cases (has_view s.view)) [
      | inl v ↦ rw (e, v) (tt, (tt, h))
      | inr v ↦ rw (e, v) (tt, h)
    ]
  ]

  heard_host :
      (s : Proxy) (e : Event) (source : Source) (received : Value)
      → is_host source ≡ true
      → Hears build p g s e source received
      → e ≡ message host_window g.host_origin received
  heard_host s e host_window received h (origin, same, heard) =
      let at_host = (eq_iff origin g.host_origin).0 (ground arith) in
      same ∙ ap (λ (o : String). message host_window o received) at_host
  heard_host s e view_window received h heard = cc
  heard_host s e other_window received h heard = cc

  Step-IsShown :
      (events : List Event) (e : Event) (s t : Proxy) (es : List Effect)
      → Mem e events
      → Step build p g e s t es
      → All (IsShown events) es
  Step-IsShown events e s t es among (quiet et ee) = rw ee tt
  Step-IsShown events e s t es among (move source received heard o (ignore et ee)) = rw ee tt
  Step-IsShown events e s t es among (move source received heard o (load v host ph r et ee)) =
      let same = heard_host s e source received host heard in
      rw ee ((received, subst (λ (x : Event). Mem x events) same among, r), tt)
  Step-IsShown events e s t es among (move source received heard o (initialize m c ph a b et ee)) =
      rw ee (tt, tt)
  Step-IsShown events e s t es among (move source received heard o (respond m c ph a b et ee)) =
      rw ee (tt, tt)
  Step-IsShown events e s t es among (move source received heard o (confirm m c ph a et ee)) =
      rw ee (tt, tt)
  Step-IsShown events e s t es among (move source received heard o (speak m c ph et (inl ee))) =
      rw ee (tt, tt)
  Step-IsShown events e s t es among (move source received heard o (speak m c ph et (inr ee))) =
      rw ee (tt, tt)
  Step-IsShown events e s t es among (fail x o et ee) = rw ee (dispose-IsShown events s _ (tt, tt))
  Step-IsShown events e s t es among (settle_load v there z et ee) = rw ee tt
  Step-IsShown events e s t es among (navigate v x there et ee) =
      rw ee (dispose-IsShown events _ _ (tt, tt))
  Step-IsShown events e s t es among (retire et ee) =
      rw (ee, ← append-nil (dispose s).1) (dispose-IsShown events s [] tt)

  play_shows :
      (all_events : List Event) (s : Proxy) (events : List Event)
      → ((e : Event) → Mem e events → Mem e all_events)
      → All (IsShown all_events) (play build p g s events).1
  unfolding play
  play_shows all_events s [] among = tt
  play_shows all_events s (e ∷ events) among =
      All-append (IsShown all_events) (step build p g s e).1
        (play build p g (step build p g s e).0 events).1
        (Step-IsShown all_events e s _ _ (among e mem-cons_self) (step-Step build p g s e))
        (play_shows all_events (step build p g s e).0 events (λ x m. among x (mem-cons_of_mem e m)))

  -- Whatever the events, every View that is shown was read from a message among them, of the host's
  -- window and origin: this message is valid and names the ready resource, what the schema reads in
  -- it is within the HTML limit and leaves the sandbox opaque, and the View is made of it and of what
  -- the proxy's own copy of the policy approves for the domains and the devices that it asks for.
  pub play-IsShown :
      (s : Proxy) (events : List Event) → All (IsShown events) (play build p g s events).1
  play-IsShown s events = play_shows events s events (λ e m. m)
