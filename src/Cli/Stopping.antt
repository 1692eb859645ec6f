-- ===== src/Cli/Stopping.antt =====
-- How often a server that listens is closed.
use kestrel_feature_mcp.Prelude.{
  ℕ, suc, Bool, true, false, ◌≡◌, refl, ap, Option, none, some, List, [], ◌∷◌, any, if◌then◌else◌,
}
use kestrel_feature_mcp.Cli.Process.{
  sigterm, sigint, Process, Event, signal, close_settled, Effect, close_server, listening, stop,
  step, run,
}

abbrev closes : List Effect → ℕ
closes [] = 0
closes (close_server ∷ es) = suc (closes es)
closes (e ∷ es) = closes es

abbrev is_signal : Event → Bool
is_signal (signal s) = true
is_signal e = false

abbrev stopped : Option ℕ → Process
stopped code = record { on_term = false; on_interrupt = false; exit_code = code }

closes-stopped : (es : List Event) (code : Option ℕ) → closes (run (stopped code) es).1 ≡ 0
unfolding run step
closes-stopped [] code = refl
closes-stopped (signal sigterm ∷ es) code = closes-stopped es code
closes-stopped (signal sigint ∷ es) code = closes-stopped es code
closes-stopped (close_settled none ∷ es) code = closes-stopped es code
closes-stopped (close_settled (some c) ∷ es) code = closes-stopped es (some 1)

-- The first signal that a listening process is sent closes its server, and no other one does so
-- again; without a signal the server is left open.
pub run-closes :
    (es : List Event) (code : Option ℕ)
    → closes (run (record listening { exit_code = code }) es).1
      ≡ (if any is_signal es then 1 else 0)
unfolding run step stop
run-closes [] code = refl
run-closes (signal sigterm ∷ es) code = ap suc (closes-stopped es code)
run-closes (signal sigint ∷ es) code = ap suc (closes-stopped es code)
run-closes (close_settled none ∷ es) code = run-closes es code
run-closes (close_settled (some c) ∷ es) code = run-closes es (some 1)
