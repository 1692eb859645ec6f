-- ===== src/OauthPanel/Isolation.antt =====
-- A change of the actor cuts the operations of the one before off.
use kestrel_feature_mcp.Prelude.{
  ℕ, String, Bool, true, false, ◌≡◌, refl, sym, Option, none, some, List, [], ◌∷◌, all, arith,
}
use mathlib.Core.Path.{subst}
use kestrel_feature_mcp.OauthState.{
  Job, Panel, Effect, Event, clicked, replied, actor_changed, disposal, typed, stored, Console,
  Reply,
}
use kestrel_feature_mcp.OauthPanel.{take_job, reset, reset_text, receive, step, play, mounted_panel}
use kestrel_feature_mcp.OauthPanel.Outcomes.{settle_stale}
use kestrel_feature_mcp.OauthPanel.Turns.{
  count, taken, later, IsOrderly, play-IsOrderly, mounted_panel-IsOrderly,
}

abbrev pub is_reply : Event → Bool
is_reply (replied agent can_store n reply) = true
is_reply e = false

module _ (c : Console) where
  -- Only the operations that await an answer differ.
  abbrev pub Drops : Panel → Panel × List Effect → Type 0
  Drops s r = (js : List Job) × (count s.generation js ≡ 0) × (r ≡ (record s { jobs = js }, []))

  -- An answer to an operation that is not of the present generation.
  receive_stale :
      (s : Panel) (agent : String) (can_store : Bool) (n : ℕ) (o : Option (Job × List Job))
      (reply : Reply)
      → take_job n s.jobs ≡ o
      → count s.generation s.jobs ≡ 0
      → Drops s (receive c s agent can_store o reply)
  unfolding receive
  receive_stale s agent can_store n none reply h none_left = (s.jobs, none_left, refl)
  receive_stale s agent can_store n (some (j, js)) reply h none_left =
      let (counted, all_past) = taken s.generation n s.jobs j js h in
      (
        js,
        ground arith,
        settle_stale c (record s { jobs = js }) agent can_store j reply (ground arith),
      )

  pub play_stale :
      (s : Panel) (events : List Event)
      → count s.generation s.jobs ≡ 0
      → all is_reply events ≡ true
      → Drops s (play c s events)
  unfolding play step
  play_stale s [] none_left h = (s.jobs, none_left, refl)
  play_stale s (replied agent can_store n reply ∷ events) none_left h =
      let (js, left, first) =
        receive_stale s agent can_store n (take_job n s.jobs) reply refl none_left in
      let (ks, kept, rest) = play_stale (record s { jobs = js }) events left h in
      (ks, kept, rw (first, rest) refl)
  play_stale s (clicked agent can_store o ∷ events) none_left h = ground arith
  play_stale s (actor_changed ∷ events) none_left h = ground arith
  play_stale s (disposal ∷ events) none_left h = ground arith
  play_stale s (typed server scopes acknowledge ∷ events) none_left h = ground arith
  play_stale s (stored storage ∷ events) none_left h = ground arith

  -- The panel as a change of the actor leaves it, over the storage as it was, and nothing else.
  abbrev pub IsReset : Panel → Panel × List Effect → Type 0
  IsReset s r =
      (r.1 ≡ [])
      × (r.0.connections ≡ [])
      × (r.0.pending ≡ [])
      × (r.0.status ≡ reset_text)
      × (r.0.server ≡ "")
      × (r.0.scopes ≡ "")
      × (r.0.busy ≡ false)
      × (r.0.storage ≡ s.storage)

  reset_stale :
      (s : Panel) (events : List Event)
      → IsOrderly c s
      → all is_reply events ≡ true
      → IsReset s (play c (reset s).0 events)
  unfolding reset
  reset_stale s events i h =
      let (js, left, same) = play_stale (reset s).0 events (later s.generation s.jobs i.past).0 h in
      rw same (refl, refl, refl, refl, refl, refl, refl, refl)

  changed : (s : Panel) → s.disposed ≡ false → step c s actor_changed ≡ reset s
  unfolding step
  changed s h = ground arith

  -- The actors are apart: whatever a panel has begun, once the agent or the account has changed, no
  -- answer that comes has an effect: nothing is requested, no page is opened, nothing is stored, and
  -- the panel stays as a change of the actor leaves it, without connections, hints or texts.
  pub play_isolated :
      (storage : List (String × String)) (before after : List Event)
      → (play c (mounted_panel storage) before).0.disposed ≡ false
      → all is_reply after ≡ true
      → let s = (play c (mounted_panel storage) before).0 in
        IsReset s (play c (step c s actor_changed).0 after)
  play_isolated storage before after alive h =
      let s = (play c (mounted_panel storage) before).0 in
      subst (λ (r : Panel × List Effect). IsReset s (play c r.0 after)) (sym (changed s alive))
        (reset_stale s after
          (play-IsOrderly c (mounted_panel storage) before (mounted_panel-IsOrderly c storage)) h)
