-- ===== src/OauthPanel/Progress.antt =====
-- Every operation of the panel ends.
use kestrel_feature_mcp.Prelude.{
  remove_item, ℕ, String, Bool, true, false, ◌≡◌, refl, ap, ◌∙◌, ◌&&◌, ◌⊎◌, inl, inr, Option, List,
  [], ◌∷◌, eq_refl, arith, Outcome, ok, throw, all, if_both,
}
use mathlib.Core.Path.{subst}
use kestrel_feature_mcp.Value.{Value, member, is_array, array_items}
use kestrel_feature_mcp.OauthReply.{
  Operation, reload, submit, connect, disconnect, prepare, cancel, hint_key, render_rows,
  Authorization, read_form,
}
use kestrel_feature_mcp.OauthState.{
  Owner, Waiting, loading, changing, authorizing, Job, Panel, Effect, Event, clicked, replied,
  Reply, success, failure, Console,
}
use kestrel_feature_mcp.OauthPanel.{
  take_job, owns, fail, finish, send, capture, show, consent, proceed, settle, begin_authorization,
  begin, perform, receive, step, play, mounted_panel,
}
use kestrel_feature_mcp.OauthPanel.Turns.{
  IsOrderly, step-IsOrderly, play-IsOrderly, mounted_panel-IsOrderly,
}
use kestrel_feature_mcp.OauthPanel.Isolation.{is_reply, play_stale}
use kestrel_feature_mcp.OauthPanel.Outcomes.{settle-Follows, begin-Follows}
use kestrel_feature_mcp.Json.{◌<>◌}

-- Whether an answer ends the operation that awaits it, whatever it is.
abbrev pub is_last : Waiting → Bool
is_last (changing key text) = false
is_last w = true

module _ (c : Console) where
  -- The operation of an actor has ended, or awaits its last answer.
  abbrev pub IsEnding : Owner → Panel → Type 0
  IsEnding owner t =
      (t.busy ≡ false)
      ⊎ ((w : Waiting) × (js : List Job) × (is_last w ≡ true)
          × (t.jobs ≡ record { owner = owner; waiting = w } ∷ js))

  fail_ends :
      (s : Panel) (agent : String) (owner : Owner) (n : ℕ)
      → owns s agent owner ≡ true
      → (fail s agent owner n).0.busy ≡ false
  unfolding fail
  fail_ends s agent owner n h = rw h refl

  finish_ends :
      (s : Panel) (agent : String) (owner : Owner)
      → owns s agent owner ≡ true
      → (finish s agent owner).0.busy ≡ false
  unfolding finish
  finish_ends s agent owner h = rw h refl

  send_ends :
      (s : Panel) (agent : String) (owner : Owner) (method path body : String) (w : Waiting)
      → owns s agent owner ≡ true
      → is_last w ≡ true
      → IsEnding owner (send s agent owner method path body w).0
  unfolding send
  send_ends s agent owner method path body w h k = rw h (inr (w, s.jobs, k, refl))

  show_ends :
      (s : Panel) (agent : String) (owner : Owner) (text : Option String) (v : Value)
      → owns s agent owner ≡ true
      → (show c s agent owner text v).0.busy ≡ false
  unfolding show
  show_ends s agent owner text v h =
      if_both (λ (r : Panel × List Effect). r.0.busy ≡ false) (is_array (member v "connections"))
        (if_both (λ (r : Panel × List Effect). r.0.busy ≡ false)
          (render_rows c.encode (array_items (member v "connections"))).1
          (finish_ends _ agent owner h) (fail_ends _ agent owner 0 h))
        (fail_ends s agent owner 0 h)

  consent_ends :
      (s : Panel) (agent : String) (can_store : Bool) (owner : Owner) (a : Outcome Authorization)
      → owns s agent owner ≡ true
      → (consent c s agent can_store owner a).0.busy ≡ false
  unfolding consent
  consent_ends s agent can_store owner (throw e) h = fail_ends s agent owner 0 h
  consent_ends s agent can_store owner (ok a) h =
      if_both (λ (r : Panel × List Effect). r.0.busy ≡ false) (owns s agent owner && can_store)
        (finish_ends _ agent owner h) (fail_ends s agent owner 0 h)

  -- An answer ends the operation, or is followed by its last request.
  settle_ends :
      (s : Panel) (agent : String) (can_store : Bool) (job : Job) (reply : Reply)
      → owns s agent job.owner ≡ true
      → IsEnding job.owner (settle c s agent can_store job reply).0
  unfolding settle proceed
  settle_ends s agent can_store job (failure n) h = inl (fail_ends s agent job.owner n h)
  settle_ends s agent can_store job (success v) h = rw h (proceeds job.waiting)
    where
      proceeds : (w : Waiting) → IsEnding job.owner (proceed c s agent can_store job.owner w v).0
      proceeds (loading text) = inl (show_ends s agent job.owner text v h)
      proceeds (changing key text) = send_ends _ agent job.owner _ _ _ _ h refl
      proceeds authorizing = inl (consent_ends s agent can_store job.owner _ h)

  settle_last :
      (s : Panel) (agent : String) (can_store : Bool) (owner : Owner) (w : Waiting) (reply : Reply)
      → owns s agent owner ≡ true
      → is_last w ≡ true
      → (settle c s agent can_store (record { owner = owner; waiting = w }) reply).0.busy ≡ false
  unfolding settle proceed
  settle_last s agent can_store owner w (failure n) h k = fail_ends s agent owner n h
  settle_last s agent can_store owner w (success v) h k = rw h (proceeds w k)
    where
      proceeds :
          (w : Waiting) → is_last w ≡ true → (proceed c s agent can_store owner w v).0.busy ≡ false
      proceeds (loading text) k = show_ends s agent owner text v h
      proceeds (changing key text) k = cc
      proceeds authorizing k = consent_ends s agent can_store owner _ h

  -- An operation has ended, or its job is the latest.
  abbrev IsStarted : Owner → Panel → Type 0
  IsStarted owner t =
      (t.busy ≡ false)
      ⊎ ((w : Waiting) × (js : List Job) × (t.jobs ≡ record { owner = owner; waiting = w } ∷ js))

  send-IsStarted :
      (s : Panel) (agent : String) (owner : Owner) (method path body : String) (w : Waiting)
      → owns s agent owner ≡ true
      → IsStarted owner (send s agent owner method path body w).0
  unfolding send
  send-IsStarted s agent owner method path body w h = rw h (inr (w, s.jobs, refl))

  begin-IsStarted :
      (s : Panel) (agent : String) (can_store : Bool) (owner : Owner) (o : Operation)
      → owns s agent owner ≡ true
      → IsStarted owner (begin c s agent can_store owner o).0
  unfolding begin begin_authorization
  begin-IsStarted s agent can_store owner reload h = send-IsStarted s agent owner _ _ _ _ h
  begin-IsStarted s agent can_store owner submit h = begins (read_form c.platform s.server s.scopes)
    where
      begins :
          (r : Outcome (List String))
          → IsStarted owner (begin_authorization c s agent can_store owner r).0
      begins (throw e) = inl (fail_ends s agent owner 0 h)
      begins (ok requested) =
          if_both (λ (r : Panel × List Effect). IsStarted owner r.0) can_store
            (send-IsStarted
              (record s { storage = remove_item (hint_key <> "storage-check") s.storage }) agent
              owner _ _ _ _ h)
            (inl (fail_ends s agent owner 0 h))
  begin-IsStarted s agent can_store owner (connect path refresh) h =
      send-IsStarted s agent owner _ _ _ _ h
  begin-IsStarted s agent can_store owner (disconnect path) h =
      send-IsStarted s agent owner _ _ _ _ h
  begin-IsStarted s agent can_store owner (prepare server scopes) h =
      inl (finish_ends (record s { server = server; scopes = scopes }) agent owner h)
  begin-IsStarted s agent can_store owner (cancel key id) h = send-IsStarted s agent owner _ _ _ _ h

  -- An answer to the latest job.
  reply_latest :
      (t : Panel) (agent : String) (can_store : Bool) (job : Job) (js : List Job) (reply : Reply)
      → t.jobs ≡ job ∷ js
      → step c t (replied agent can_store 0 reply)
        ≡ settle c (record t { jobs = js }) agent can_store job reply
  unfolding step receive
  reply_latest t agent can_store job js reply h =
      ap (λ (o : Option (Job × List Job)). receive c t agent can_store o reply) (ap (take_job 0) h)

  idle :
      (s : Panel) (events : List Event)
      → IsOrderly c s
      → s.busy ≡ false
      → all is_reply events ≡ true
      → (play c s events).0.busy ≡ false
  idle s events i h k =
      let (js, left, same) = play_stale c s events (ground (arith, i.turn)) k in
      ap (λ (r : Panel × List Effect). r.0.busy) same ∙ h

  last_answer :
      (t : Panel) (agent : String) (can_store : Bool) (owner : Owner) (reply : Reply)
      → IsOrderly c t
      → owns t agent owner ≡ true
      → IsEnding owner t
      → (step c t (replied agent can_store 0 reply)).0.busy ≡ false
  unfolding play
  last_answer t agent can_store owner reply i h (inl free) =
      idle t (replied agent can_store 0 reply ∷ []) i free refl
  last_answer t agent can_store owner reply i h (inr (w, js, k, jobs)) =
      ap (λ (r : Panel × List Effect). r.0.busy)
        (reply_latest t agent can_store (record { owner = owner; waiting = w }) js reply jobs)
      ∙ settle_last (record t { jobs = js }) agent can_store owner w reply h k

  two_answers :
      (t : Panel) (agent : String) (can_store : Bool) (owner : Owner) (first second : Reply)
      → IsOrderly c t
      → owns t agent owner ≡ true
      → IsStarted owner t
      → (play c t (replied agent can_store 0 first ∷ replied agent can_store 0 second ∷ [])).0.busy
        ≡ false
  unfolding play
  two_answers t agent can_store owner first second i h (inl free) =
      idle t (replied agent can_store 0 first ∷ replied agent can_store 0 second ∷ []) i free refl
  two_answers t agent can_store owner first second i h (inr (w, js, jobs)) =
      let job : Job = record { owner = owner; waiting = w } in
      let left = record t { jobs = js } in
      let e = reply_latest t agent can_store job js first jobs in
      let f = settle-Follows c left agent can_store job first in
      let r = settle c left agent can_store job first in
      let j =
        subst (λ (r : Panel × List Effect). IsOrderly c r.0) e
          (step-IsOrderly c t (replied agent can_store 0 first) i) in
      let owned : owns r.0 agent owner ≡ true = rw (f.0, f.1) h in
      ap (λ (r : Panel × List Effect). (step c r.0 (replied agent can_store 0 second)).0.busy) e
      ∙ last_answer r.0 agent can_store owner second j owned
          (settle_ends left agent can_store job first h)

  own_capture :
      (s : Panel) (agent : String) → s.disposed ≡ false → owns s agent (capture c s agent) ≡ true
  own_capture s agent h = ground (arith, eq_refl agent)

  click :
      (s : Panel) (agent : String) (can_store : Bool) (o : Operation)
      → s.busy ≡ false
      → s.disposed ≡ false
      → step c s (clicked agent can_store o)
        ≡ begin c
            (record s { busy = true; has_controller = true })
            agent
            can_store
            (capture c s agent)
            o
  unfolding step perform
  click s agent can_store o free alive = ground arith

  clicked-IsStarted :
      (s : Panel) (agent : String) (can_store : Bool) (o : Operation)
      → s.busy ≡ false
      → s.disposed ≡ false
      → IsStarted (capture c s agent) (step c s (clicked agent can_store o)).0
        × (owns (step c s (clicked agent can_store o)).0 agent (capture c s agent) ≡ true)
  clicked-IsStarted s agent can_store o free alive =
      let t = record s { busy = true; has_controller = true } in
      let owner = capture c s agent in
      let f = begin-Follows c t agent can_store owner o in
      rw (click s agent can_store o free alive) (
        begin-IsStarted t agent can_store owner o (own_capture s agent alive),
        rw (f.0, f.1) (own_capture s agent alive),
      )

  -- Every operation ends: whatever a panel has been through, an operation that begins while its
  -- buttons are enabled has ended, and they are enabled again, after two answers to its requests at
  -- most, whatever these answers are, if the agent stays.
  pub play_ends :
      (storage : List (String × String)) (before : List Event) (agent : String) (can_store : Bool)
      (o : Operation) (first second : Reply)
      → (play c (mounted_panel storage) before).0.busy ≡ false
      → (play c (mounted_panel storage) before).0.disposed ≡ false
      → (play c (play c (mounted_panel storage) before).0 (
          clicked agent can_store o
          ∷ replied agent can_store 0 first
          ∷ replied agent can_store 0 second
          ∷ [])).0.busy
        ≡ false
  unfolding play
  play_ends storage before agent can_store o first second free alive =
      let s = (play c (mounted_panel storage) before).0 in
      let i = play-IsOrderly c (mounted_panel storage) before (mounted_panel-IsOrderly c storage) in
      let started = clicked-IsStarted s agent can_store o free alive in
      two_answers (step c s (clicked agent can_store o)).0 agent can_store (capture c s agent) first
        second (step-IsOrderly c s (clicked agent can_store o) i) started.1 started.0
