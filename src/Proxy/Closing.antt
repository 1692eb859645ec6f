-- ===== src/Proxy/Closing.antt =====
-- What is shown, how often, and what follows an error.
use mathlib.Core.List.{append-nil}
use kestrel_feature_mcp.Prelude.{
  ℕ, suc, ◌+◌, ◌≤◌, String, Bool, true, false, ◌≡◌, some, List, [], ◌∷◌, ◌++◌, if◌then◌else◌, inl,
  inr, arith,
}
use kestrel_feature_mcp.Platform.{Platform}
use kestrel_feature_mcp.Proxy.{
  Settings, Proxy, Effect, mount, unlisten, report, Event, fresh, is_empty_phase, dispose, step,
  play,
}
use kestrel_feature_mcp.Proxy.Steps.{
  ignore, load, initialize, respond, confirm, speak, Step, quiet, move, fail, settle_load, navigate,
  retire, step-Step,
}

-- How often a View is shown, and how often the listener is taken off.
abbrev pub mounts : List Effect → ℕ
mounts [] = 0
mounts (mount v ∷ es) = suc (mounts es)
mounts (e ∷ es) = mounts es

abbrev pub unlistens : List Effect → ℕ
unlistens [] = 0
unlistens (unlisten ∷ es) = suc (unlistens es)
unlistens (e ∷ es) = unlistens es

mounts-append : (xs ys : List Effect) → mounts (xs ++ ys) ≡ mounts xs + mounts ys
mounts-append [] ys = omega arith
mounts-append (mount v ∷ xs) ys = omega (arith, mounts-append xs ys)
mounts-append (e ∷ xs) ys = mounts-append xs ys

unlistens-append : (xs ys : List Effect) → unlistens (xs ++ ys) ≡ unlistens xs + unlistens ys
unlistens-append [] ys = omega arith
unlistens-append (unlisten ∷ xs) ys = omega (arith, unlistens-append xs ys)
unlistens-append (e ∷ xs) ys = unlistens-append xs ys

-- Room for one more View, and for one more closing.
abbrev pub room : Proxy → ℕ
room s = if is_empty_phase s.phase then 1 else 0

abbrev pub open_count : Proxy → ℕ
open_count s = if s.closed then 0 else 1

dispose_counts :
    (s : Proxy) (rest : List Effect)
    → (mounts ((dispose s).1 ++ rest) ≡ mounts rest)
      × (room (dispose s).0 ≡ room s)
      × (open_count (dispose s).0 ≡ 0)
      × (unlistens ((dispose s).1 ++ rest) ≡ open_count s + unlistens rest)
unfolding dispose
dispose_counts s rest = ground arith

complement : (b : Bool) (n : ℕ) → n + (if b then 0 else 1) ≡ 1 → n ≡ (if b then 1 else 0)
complement true n h = omega arith
complement false n h = omega arith

module _ (build : List String → String) (p : Platform) (g : Settings) where
  Step-counts :
      (e : Event) (s t : Proxy) (es : List Effect)
      → Step build p g e s t es
      → (mounts es + room t ≤ room s) × (unlistens es + open_count t ≡ open_count s)
  Step-counts e s t es (quiet et ee) = ground arith
  Step-counts e s t es (move source received heard o (ignore et ee)) = ground arith
  Step-counts e s t es (move source received heard o (load v host ph r et ee)) = ground arith
  Step-counts e s t es (move source received heard o (initialize m c ph a b et ee)) = ground arith
  Step-counts e s t es (move source received heard o (respond m c ph a b et ee)) = ground arith
  Step-counts e s t es (move source received heard o (confirm m c ph a et ee)) = ground arith
  Step-counts e s t es (move source received heard o (speak m c ph et (inl ee))) = ground arith
  Step-counts e s t es (move source received heard o (speak m c ph et (inr ee))) = ground arith
  Step-counts e s t es (fail x o et ee) =
      rw (et, ee) (omega (arith, dispose_counts s (report x ∷ [])))
  Step-counts e s t es (settle_load v there z et ee) = ground arith
  Step-counts e s t es (navigate v x there et ee) =
      rw (et, ee)
        (omega (
          arith,
          dispose_counts (record s { view = some (record v { loads = v.loads + 1 }) })
              (report x ∷ []),
        ))
  Step-counts e s t es (retire et ee) =
      rw (et, ee, ← append-nil (dispose s).1) (omega (arith, dispose_counts s []))

  play_counts :
      (s : Proxy) (events : List Event)
      → (mounts (play build p g s events).1 + room (play build p g s events).0 ≤ room s)
        × (unlistens (play build p g s events).1 + open_count (play build p g s events).0
            ≡ open_count s)
  unfolding play
  play_counts s [] = omega arith
  play_counts s (e ∷ events) = omega (
    arith,
    mounts-append (step build p g s e).1 (play build p g (step build p g s e).0 events).1,
    unlistens-append (step build p g s e).1 (play build p g (step build p g s e).0 events).1,
    Step-counts e s _ _ (step-Step build p g s e),
    play_counts (step build p g s e).0 events,
  )

  -- Over any events a new proxy shows at most one View, none while it is in its first phase, and
  -- takes its listener off exactly once if it has closed and never before.
  pub play_once :
      (events : List Event)
      → (mounts (play build p g fresh events).1 + room (play build p g fresh events).0 ≤ 1)
        × (unlistens (play build p g fresh events).1
            ≡ (if (play build p g fresh events).0.closed then 1 else 0))
  play_once events =
      let (shown, closings) = play_counts fresh events in
      (shown, complement (play build p g fresh events).0.closed _ closings)
