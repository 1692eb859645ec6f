-- ===== src/Proxy/Handshake.antt =====
-- What crosses the proxy over any sequence of events.
use kestrel_feature_mcp.Prelude.{
  ◌+◌, String, Bool, true, false, ◌≡◌, refl, ap, some, List, [], ◌∷◌, ◌++◌, All, All-append,
  if◌then◌else◌, inl, inr, Bool-cases, arith,
}
use mathlib.Core.List.{append-nil, append_assoc}
use kestrel_feature_mcp.Value.{Value, member, has_key, is_text, strictly_equal}
use kestrel_feature_mcp.Platform.{Platform}
use kestrel_feature_mcp.Proxy.{
  Source, Settings, Phase, empty, loaded, initializing, responded, initialized, Proxy, Effect,
  to_host, to_view, report, Event, fresh, has_view, dispose, step, play,
}
use kestrel_feature_mcp.Proxy.Steps.{
  Crosses, Move, ignore, load, initialize, respond, confirm, speak, Step, quiet, move, fail,
  settle_load, navigate, retire, step-Step,
}

abbrev pub crosses : Effect → Bool
crosses (to_host m) = true
crosses (to_view m) = true
crosses e = false

-- The messages among the effects, in order.
abbrev pub crossings : List Effect → List Effect
crossings [] = []
crossings (e ∷ es) = if crosses e then e ∷ crossings es else crossings es

crossings-append : (xs ys : List Effect) → crossings (xs ++ ys) ≡ crossings xs ++ crossings ys
crossings-append [] ys = refl
crossings-append (x ∷ xs) ys = ground (arith, crossings-append xs ys)

-- Closing sends no message.
crossings-dispose :
    (s : Proxy) (rest : List Effect) → crossings ((dispose s).1 ++ rest) ≡ crossings rest
unfolding dispose
crossings-dispose s rest = elim (Bool-cases s.closed) [
  | inl e ↦ rw e refl
  | inr e ↦ elim (Bool-cases (has_view s.view)) [ inl v ↦ rw (e, v) refl | inr v ↦ rw (e, v) refl ]
]

module _ (build : List String → String) (p : Platform) (g : Settings) where
  abbrev pub IsOpening : Value → Value → Type 0
  IsOpening m id =
      (is_text (member m "method") "ui/initialize" ≡ true)
      × (has_key m "id" ≡ true)
      × (id ≡ member m "id")

  abbrev pub IsReply : Value → Value → Type 0
  IsReply r id = (strictly_equal (member r "id") id ≡ true) × (has_key r "result" ≡ true)

  -- What has crossed when the proxy is in a phase: nothing before the View is loaded; then the
  -- View's `ui/initialize` request; then the host's result for its id; then the View's
  -- `initialized` notification, and after that anything.
  abbrev pub History : Phase → Value → List Effect → Type 0
  History empty id log = log ≡ []
  History loaded id log = log ≡ []
  History initializing id log = (m : Value) × IsOpening m id × (log ≡ to_host m ∷ [])
  History responded id log =
      (m : Value) × (r : Value) × IsOpening m id × IsReply r id × (log ≡ to_host m ∷ to_view r ∷ [])
  History initialized id log =
      (m : Value) × (r : Value) × (n : Value) × (rest : List Effect) × IsOpening m id
      × IsReply r id
      × (p.is_initialized n ≡ true)
      × (log ≡ to_host m ∷ to_view r ∷ to_host n ∷ rest)

  abbrev pub IsHistory : Proxy → List Effect → Type 0
  IsHistory s log = History s.phase s.initialize_id log

  Move-IsHistory :
      (source : Source) (received : Value) (s t : Proxy) (es log : List Effect)
      → Move build p g source received s t es
      → IsHistory s log
      → IsHistory t (log ++ crossings es)
  Move-IsHistory source received s t es log (ignore et ee) h = rw (et, ee, append-nil log) h
  Move-IsHistory source received s t es log (load v host ph r et ee) h =
      let before : log ≡ [] = rw (ph, History) at h in rw (et, ee, append-nil log) before
  Move-IsHistory source received s t es log (initialize m c ph a b et ee) h =
      let before : log ≡ [] = rw (ph, History) at h in
      rw (et, ee) (m, (a, b, refl), ap (λ l. l ++ to_host m ∷ []) before)
  Move-IsHistory source received s t es log (respond r c ph a b et ee) h =
      let (m, opening, before) = rw (ph, History) at h in
      rw (et, ee) (m, r, opening, (a, b), ap (λ l. l ++ to_view r ∷ []) before)
  Move-IsHistory source received s t es log (confirm n c ph a et ee) h =
      let (m, r, opening, reply, before) = rw (ph, History) at h in
      rw (et, ee) (m, r, n, [], opening, reply, a, ap (λ l. l ++ to_host n ∷ []) before)
  Move-IsHistory source received s t es log (speak m' c ph et ee) h =
      let (m, r, n, rest, opening, reply, a, before) = rw (ph, History) at h in
      rw (et, ph)
        (m, r, n, rest ++ crossings es, opening, reply, a, ap (λ l. l ++ crossings es) before)

  dispose-IsHistory :
      (s : Proxy) (log : List Effect) → IsHistory s log → IsHistory (dispose s).0 log
  unfolding dispose
  dispose-IsHistory s log h = elim (Bool-cases s.closed) [ inl e ↦ rw e h | inr e ↦ rw e h ]

  closing :
      (s : Proxy) (log rest : List Effect)
      → crossings rest ≡ []
      → IsHistory s log
      → IsHistory (dispose s).0 (log ++ crossings ((dispose s).1 ++ rest))
  closing s log rest quietly h =
      rw (crossings-dispose s rest, quietly, append-nil log) (dispose-IsHistory s log h)

  Step-IsHistory :
      (e : Event) (s t : Proxy) (es log : List Effect)
      → Step build p g e s t es
      → IsHistory s log
      → IsHistory t (log ++ crossings es)
  Step-IsHistory e s t es log (quiet et ee) h = rw (et, ee, append-nil log) h
  Step-IsHistory e s t es log (move source received heard o m) h =
      Move-IsHistory source received s t es log m h
  Step-IsHistory e s t es log (fail x o et ee) h =
      rw (et, ee) (closing s log (report x ∷ []) refl h)
  Step-IsHistory e s t es log (settle_load v there z et ee) h = rw (et, ee, append-nil log) h
  Step-IsHistory e s t es log (navigate v x there et ee) h =
      rw (et, ee)
        (closing (record s { view = some (record v { loads = v.loads + 1 }) }) log (report x ∷ [])
          refl h)
  Step-IsHistory e s t es log (retire et ee) h =
      rw (et, ee) (rw append-nil at (closing s log [] refl h))

  play-IsHistory_from :
      (s : Proxy) (log : List Effect) (events : List Event)
      → IsHistory s log
      → IsHistory (play build p g s events).0 (log ++ crossings (play build p g s events).1)
  unfolding play
  play-IsHistory_from s log [] h = rw append-nil h
  play-IsHistory_from s log (e ∷ events) h =
      rw (crossings-append (step build p g s e).1, ← append_assoc)
        (play-IsHistory_from (step build p g s e).0 (log ++ crossings (step build p g s e).1) events
          (Step-IsHistory e s (step build p g s e).0 (step build p g s e).1 log
            (step-Step build p g s e) h))

  -- The handshake: whatever events a new proxy gets, the messages that it has passed on are none
  -- until its View is loaded; then first the View's `ui/initialize` request, then the host's result
  -- for that request's id, then the View's `initialized` notification, and only after these three
  -- any others, in step with the proxy's phase.
  pub play-IsHistory :
      (events : List Event)
      → IsHistory (play build p g fresh events).0 (crossings (play build p g fresh events).1)
  play-IsHistory events = play-IsHistory_from fresh [] events refl

  -- Every message that is passed on has been validated within the byte limit, and is not one of the
  -- proxy's own.
  abbrev pub HasCrossed : Effect → Type 0
  HasCrossed (to_host m) = Crosses build p g m
  HasCrossed (to_view m) = Crosses build p g m
  HasCrossed e = Unit

  dispose-HasCrossed :
      (s : Proxy) (rest : List Effect)
      → All HasCrossed rest
      → All HasCrossed ((dispose s).1 ++ rest)
  unfolding dispose
  dispose-HasCrossed s rest h = elim (Bool-cases s.closed) [
    | inl e ↦ rw e h
    | inr e ↦ elim (Bool-cases (has_view s.view)) [
      | inl v ↦ rw (e, v) (tt, (tt, h))
      | inr v ↦ rw (e, v) (tt, h)
    ]
  ]

  Move-HasCrossed :
      (source : Source) (received : Value) (s t : Proxy) (es : List Effect)
      → Move build p g source received s t es
      → All HasCrossed es
  Move-HasCrossed source received s t es (ignore et ee) = rw ee tt
  Move-HasCrossed source received s t es (load v host ph r et ee) = rw ee (tt, tt)
  Move-HasCrossed source received s t es (initialize m c ph a b et ee) = rw ee (c, tt)
  Move-HasCrossed source received s t es (respond m c ph a b et ee) = rw ee (c, tt)
  Move-HasCrossed source received s t es (confirm m c ph a et ee) = rw ee (c, tt)
  Move-HasCrossed source received s t es (speak m c ph et (inl ee)) = rw ee (c, tt)
  Move-HasCrossed source received s t es (speak m c ph et (inr ee)) = rw ee (c, tt)

  Step-HasCrossed :
      (e : Event) (s t : Proxy) (es : List Effect) → Step build p g e s t es → All HasCrossed es
  Step-HasCrossed e s t es (quiet et ee) = rw ee tt
  Step-HasCrossed e s t es (move source received heard o m) =
      Move-HasCrossed source received s t es m
  Step-HasCrossed e s t es (fail x o et ee) = rw ee (dispose-HasCrossed s _ (tt, tt))
  Step-HasCrossed e s t es (settle_load v there z et ee) = rw ee tt
  Step-HasCrossed e s t es (navigate v x there et ee) = rw ee (dispose-HasCrossed _ _ (tt, tt))
  Step-HasCrossed e s t es (retire et ee) =
      rw (ee, ← append-nil (dispose s).1) (dispose-HasCrossed s [] tt)

  -- Over any events, every message that the proxy passes on in either direction is one that passed
  -- the validation with its byte limit and whose method is not reserved for the proxy itself.
  pub play-HasCrossed :
      (s : Proxy) (events : List Event) → All HasCrossed (play build p g s events).1
  unfolding play
  play-HasCrossed s [] = tt
  play-HasCrossed s (e ∷ events) =
      All-append HasCrossed (step build p g s e).1 (play build p g (step build p g s e).0 events).1
        (Step-HasCrossed e s _ _ (step-Step build p g s e))
        (play-HasCrossed (step build p g s e).0 events)
