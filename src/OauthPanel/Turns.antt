-- ===== src/OauthPanel/Turns.antt =====
-- The operations of the panel take turns.
use kestrel_feature_mcp.Prelude.{
  ℕ, zero, suc, ◌+◌, String, Bool, true, ◌≡◌, refl, ◌&&◌, ◌||◌, inl, inr, Option, none, some, List,
  [], ◌∷◌, nat_eq, leb, all, All, arith, Bool-cases, Option-cases, if_both, if◌then◌else◌,
}
use mathlib.Core.Path.{subst}
use kestrel_feature_mcp.OauthState.{
  Owner, Job, Panel, Effect, Event, clicked, replied, actor_changed, disposal, typed, stored,
  Console, Reply,
}
use kestrel_feature_mcp.OauthPanel.{
  take_job, owns, reset, dispose, base_of, capture, settle, begin, perform, receive, step, play,
  mounted_panel,
}
use kestrel_feature_mcp.OauthPanel.Outcomes.{Follows, settle-Follows, begin-Follows, settle_stale}

-- How many operations of a generation await an answer.
abbrev pub count : ℕ → List Job → ℕ
count g [] = 0
count g (j ∷ js) = (if nat_eq j.owner.token g then 1 else 0) + count g js

abbrev pub is_past : ℕ → Job → Bool
is_past g j = leb j.owner.token g

pub taken :
    (g n : ℕ) (jobs : List Job) (j : Job) (js : List Job)
    → take_job n jobs ≡ some (j, js)
    → (count g jobs ≡ (if nat_eq j.owner.token g then 1 else 0) + count g js)
      × (all (is_past g) jobs ≡ (is_past g j && all (is_past g) js))
taken g n [] j js h = ground arith
taken g zero (k ∷ ks) j js h = ground arith
taken g (suc n) (k ∷ ks) j js h = elim (Option-cases (take_job n ks)) [
  | inl e ↦ ground (arith, e)
  | inr ((i, is), e) ↦ (let (a, b) = taken g n ks i is e in ground (arith, e, a, b))
]

pub later :
    (g : ℕ) (jobs : List Job)
    → all (is_past g) jobs ≡ true
    → (count (suc g) jobs ≡ 0) × (all (is_past (suc g)) jobs ≡ true)
later g [] h = (refl, refl)
later g (j ∷ js) h =
    let (none_left, past) = later g js (ground arith) in (ground arith, ground arith)

module _ (c : Console) where
  -- The owner of an operation has the lane of its agent.
  abbrev pub IsLane : Job → Type 0
  IsLane j = j.owner.base ≡ base_of c j.owner.agent

  abbrev AreLanes : Option (Job × List Job) → Type 0
  AreLanes none = Unit
  AreLanes (some (j, js)) = IsLane j × All IsLane js

  take_job-AreLanes : (n : ℕ) (jobs : List Job) → All IsLane jobs → AreLanes (take_job n jobs)
  take_job-AreLanes n [] l = tt
  take_job-AreLanes zero (k ∷ ks) l = l
  take_job-AreLanes (suc n) (k ∷ ks) l = kept (take_job n ks) (take_job-AreLanes n ks l.1)
    where
      kept :
          (o : Option (Job × List Job))
          → AreLanes o
          → AreLanes (elim o [ none ↦ none | some (i, is) ↦ some (i, k ∷ is) ])
      kept none m = tt
      kept (some (i, is)) m = (m.0, (l.0, m.1))

  pub taken_lanes :
      (n : ℕ) (jobs : List Job) (j : Job) (js : List Job)
      → take_job n jobs ≡ some (j, js)
      → All IsLane jobs
      → IsLane j × All IsLane js
  taken_lanes n jobs j js h l = subst AreLanes h (take_job-AreLanes n jobs l)

  -- Operations of the present generation are one at most, and none where the panel is not busy; no
  -- operation is of a later generation, and each has the lane of its agent.
  pub record IsOrderly (s : Panel) : Type 0 where
    pub past : all (is_past s.generation) s.jobs ≡ true
    pub turn : leb (count s.generation s.jobs) (if s.busy then 1 else 0) ≡ true
    pub lanes : All IsLane s.jobs

  Follows-IsOrderly :
      (s : Panel) (agent : String) (owner : Owner) (r : Panel × List Effect)
      → Follows s agent owner r
      → all (is_past s.generation) s.jobs ≡ true
      → count s.generation s.jobs ≡ 0
      → s.busy ≡ true
      → owner.base ≡ base_of c owner.agent
      → All IsLane s.jobs
      → IsOrderly r.0
  Follows-IsOrderly s agent owner r (g, d, inl same, es) past none_left busy lane lanes = record {
    past = rw (g, same) past;
    turn = rw (g, same, none_left) (ground arith);
    lanes = rw same lanes;
  }
  Follows-IsOrderly s agent owner r (g, d, inr (w, more, still, owned), es) past none_left busy lane
        lanes =
      record {
        past = rw (g, more) (ground arith);
        turn = rw (g, more, none_left, still, busy) (ground arith);
        lanes = rw more (lane, lanes);
      }

  settle-IsOrderly :
      (s : Panel) (agent : String) (can_store : Bool) (o : Option (Job × List Job)) (n : ℕ)
      (reply : Reply)
      → take_job n s.jobs ≡ o
      → IsOrderly s
      → IsOrderly (receive c s agent can_store o reply).0
  unfolding receive
  settle-IsOrderly s agent can_store none n reply h i = i
  settle-IsOrderly s agent can_store (some (j, js)) n reply h i =
      let (counted, all_past) = taken s.generation n s.jobs j js h in
      let (lane, lanes) = taken_lanes n s.jobs j js h i.lanes in
      let left = record s { jobs = js } in
      elim (Bool-cases (owns s agent j.owner)) [
        | inl mine ↦
            Follows-IsOrderly left agent j.owner (settle c left agent can_store j reply)
              (settle-Follows c left agent can_store j reply) (ground (arith, i.past))
              (ground (arith, i.turn)) (ground (arith, i.turn)) lane lanes
        | inr late ↦
            rw (settle_stale c left agent can_store j reply late) (record {
              past = ground (arith, i.past);
              turn = ground (arith, i.turn);
              lanes = lanes;
            })
      ]

  reset-IsOrderly : (s : Panel) → IsOrderly s → IsOrderly (reset s).0
  unfolding reset
  reset-IsOrderly s i =
      let (none_left, past) = later s.generation s.jobs i.past in
      record { past = past; turn = ground arith; lanes = i.lanes }

  pub step-IsOrderly : (s : Panel) (e : Event) → IsOrderly s → IsOrderly (step c s e).0
  unfolding step perform dispose
  step-IsOrderly s (clicked agent can_store o) i = elim (Bool-cases (s.busy || s.disposed)) [
    | inl h ↦ rw h i
    | inr h ↦ rw h (
        let t = record s { busy = true; has_controller = true } in
        Follows-IsOrderly t agent (capture c s agent)
          (begin c t agent can_store (capture c s agent) o)
          (begin-Follows c t agent can_store (capture c s agent) o) i.past (ground (arith, i.turn))
          refl refl i.lanes)
  ]
  step-IsOrderly s (replied agent can_store n reply) i =
      settle-IsOrderly s agent can_store (take_job n s.jobs) n reply refl i
  step-IsOrderly s actor_changed i =
      if_both (λ (r : Panel × List Effect). IsOrderly r.0) s.disposed i (reset-IsOrderly s i)
  step-IsOrderly s disposal i =
      let j = reset-IsOrderly s i in
      if_both (λ (r : Panel × List Effect). IsOrderly r.0) s.disposed i
        (record { past = j.past; turn = j.turn; lanes = j.lanes })
  step-IsOrderly s (typed server scopes acknowledge) i = record {
    past = i.past;
    turn = i.turn;
    lanes = i.lanes;
  }
  step-IsOrderly s (stored storage) i = record { past = i.past; turn = i.turn; lanes = i.lanes }

  pub play-IsOrderly :
      (s : Panel) (events : List Event) → IsOrderly s → IsOrderly (play c s events).0
  unfolding play
  play-IsOrderly s [] i = i
  play-IsOrderly s (e ∷ events) i = play-IsOrderly (step c s e).0 events (step-IsOrderly s e i)

  pub mounted_panel-IsOrderly :
      (storage : List (String × String)) → IsOrderly (mounted_panel storage)
  unfolding mounted_panel
  mounted_panel-IsOrderly storage = record { past = refl; turn = refl; lanes = tt }

  -- The operations take turns: whatever happens to a panel, at most one operation of the present actor
  -- awaits an answer, and none does where its buttons are not disabled.
  pub play_single :
      (storage : List (String × String)) (events : List Event)
      → let s = (play c (mounted_panel storage) events).0 in
        leb (count s.generation s.jobs) (if s.busy then 1 else 0) ≡ true
  play_single storage events =
      (play-IsOrderly (mounted_panel storage) events (mounted_panel-IsOrderly storage)).turn
