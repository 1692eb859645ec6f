-- ===== src/Transport/Lifecycle.antt =====
-- A transport is idle, then active, then closed.
use kestrel_feature_mcp.Prelude.{
  String, Bool, true, false, ◌≡◌, refl, not, ◌&&◌, List, [], ◌∷◌, All, ◌==◌, Outcome, ok, throw,
  type_error, range_error, error, foreign, ◌>>=◌, if◌then◌else◌, arith, ℕ,
}
use kestrel_feature_mcp.Value.{Value}
use kestrel_feature_mcp.Platform.{Platform}
use kestrel_feature_mcp.Transport.{
  Transport, Effect, post, deliver, report, onclose, Call, start, close, send, event,
  validate_message, settle, listener, step, run,
}

pub data Phase : Type 0 where
  idle active ended : Phase

-- The phase that the private fields stand for.
abbrev pub phase_of : Bool → Bool → Phase
phase_of started true = ended
phase_of true false = active
phase_of false false = idle

abbrev pub phase : Transport → Phase
phase t = phase_of t.started t.closed

-- The listener is on the window while the transport is active.
abbrev pub IsValid : Transport → Type 0
IsValid t = t.listening ≡ (t.started && not t.closed)

-- The contract of a transport to one origin with one byte limit: its phases, and its answers.
abbrev pub next : Phase → Call → Phase
next idle start = active
next phase close = ended
next phase c = phase

module _ (p : Platform) (origin : String) (limit : ℕ) where
  abbrev pub answer : Phase → Call → Outcome (List Effect)
  answer idle start = ok []
  answer phase start = throw (error "Sandbox transport cannot be restarted")
  answer active (send m) = validate_message p m limit >>= λ m'. ok (post m' origin ∷ [])
  answer phase (send m) = throw (error "Sandbox transport is not active")
  answer ended close = ok []
  answer phase close = ok (onclose ∷ [])
  answer active (event source from value) =
      if source && from == origin then settle p (validate_message p value limit) else ok []
  answer phase (event source from value) = ok []

  abbrev pub answers : Phase → List Call → List (Outcome (List Effect))
  answers phase [] = []
  answers phase (c ∷ cs) = answer phase c ∷ answers (next phase c) cs

module _ (p : Platform) where
  step-phase :
      (t : Transport) (c : Call)
      → IsValid t
      → IsValid (step p t c).0
        × (phase (step p t c).0 ≡ next (phase t) c)
        × ((step p t c).1 ≡ answer p t.origin t.limit (phase t) c)
        × ((step p t c).0.origin ≡ t.origin)
        × ((step p t c).0.limit ≡ t.limit)
  unfolding step listener
  step-phase t start v = ground arith
  step-phase t close v = ground arith
  step-phase t (send m) v = ground arith
  step-phase t (event source from value) v = ground arith

  -- The answers to any sequence of calls are those of the contract, which knows no listener and no
  -- private field: a transport starts once, sends and delivers only while it is active, to and from
  -- its one origin and window and within its byte limit, and closes once for good.
  pub run-answers :
      (t : Transport) (cs : List Call)
      → IsValid t
      → run p t cs ≡ answers p t.origin t.limit (phase t) cs
  unfolding run
  run-answers t [] v = refl
  run-answers t (c ∷ cs) v =
      let (v', moved, answered, same_origin, same_limit) = step-phase t c v in
      let later = run-answers (step p t c).0 cs v' in ground (arith, later)

  -- What an answer may do: no more than post to the origin messages that were accepted, deliver
  -- accepted messages, report errors and close.
  abbrev pub IsBound : String → ℕ → Effect → Type 0
  IsBound origin limit (post m o) =
      (o ≡ origin) × ((v : Value) × (validate_message p v limit ≡ ok m))
  IsBound origin limit (deliver m) = (v : Value) × (validate_message p v limit ≡ ok m)
  IsBound origin limit (report e) = Unit
  IsBound origin limit onclose = Unit

  abbrev pub AreBound : String → ℕ → Outcome (List Effect) → Type 0
  AreBound origin limit (ok es) = All (IsBound origin limit) es
  AreBound origin limit (throw e) = Unit

  settle-AreBound :
      (origin : String) (limit : ℕ) (v : Value) (r : Outcome Value)
      → validate_message p v limit ≡ r
      → AreBound origin limit (settle p r)
  unfolding settle
  settle-AreBound origin limit v (ok m) e = ((v, e), tt)
  settle-AreBound origin limit v (throw (type_error m)) e = (tt, tt)
  settle-AreBound origin limit v (throw (range_error m)) e = (tt, tt)
  settle-AreBound origin limit v (throw (error m)) e = tt
  settle-AreBound origin limit v (throw (foreign m)) e = tt

  sent-AreBound :
      (origin : String) (limit : ℕ) (v : Value) (r : Outcome Value)
      → validate_message p v limit ≡ r
      → AreBound origin limit (r >>= λ m. ok (post m origin ∷ []))
  sent-AreBound origin limit v (ok m) e = ((refl, (v, e)), tt)
  sent-AreBound origin limit v (throw x) e = tt

  event-AreBound :
      (origin : String) (limit : ℕ) (b : Bool) (v : Value)
      → AreBound origin limit (if b then settle p (validate_message p v limit) else ok [])
  event-AreBound origin limit true v = settle-AreBound origin limit v _ refl
  event-AreBound origin limit false v = tt

  answer-AreBound :
      (origin : String) (limit : ℕ) (ph : Phase) (c : Call)
      → AreBound origin limit (answer p origin limit ph c)
  answer-AreBound origin limit idle start = tt
  answer-AreBound origin limit active start = tt
  answer-AreBound origin limit ended start = tt
  answer-AreBound origin limit idle close = (tt, tt)
  answer-AreBound origin limit active close = (tt, tt)
  answer-AreBound origin limit ended close = tt
  answer-AreBound origin limit idle (send m) = tt
  answer-AreBound origin limit active (send m) = sent-AreBound origin limit m _ refl
  answer-AreBound origin limit ended (send m) = tt
  answer-AreBound origin limit idle (event s o v) = tt
  answer-AreBound origin limit active (event s o v) = event-AreBound origin limit _ v
  answer-AreBound origin limit ended (event s o v) = tt

  -- Whatever is called, every message that leaves goes to the transport's origin, and every message
  -- that leaves or arrives has passed the validation with the transport's byte limit.
  pub run-AreBound :
      (t : Transport) (cs : List Call) → IsValid t → All (AreBound t.origin t.limit) (run p t cs)
  run-AreBound t cs v = rw (run-answers t cs v) (bound (phase t) cs)
    where
      bound :
          (ph : Phase) (cs : List Call)
          → All (AreBound t.origin t.limit) (answers p t.origin t.limit ph cs)
      bound ph [] = tt
      bound ph (c ∷ cs) = (answer-AreBound t.origin t.limit ph c, bound (next ph c) cs)
