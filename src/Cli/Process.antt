-- ===== src/Cli/Process.antt =====
-- web/src/sandbox-cli.js, `main` once the server listens: its log line and the stop by a signal; and
-- web/src/sandbox-server-entry.js, the report of a start that failed.
use kestrel_feature_mcp.Prelude.{
  ℕ, String, Bool, true, false, Option, none, some, List, [], ◌∷◌, ◌++◌, Outcome, ok, throw,
  Exception, type_error, range_error, error, foreign, if◌then◌else◌,
}
use kestrel_feature_mcp.Json.{stringify}
use kestrel_feature_mcp.Value.{Value, str, obj, field, end}
use kestrel_feature_mcp.SandboxEntry.{error_name}
use kestrel_feature_mcp.Cli.{Server}

pub data Signal : Type 0 where
  sigterm sigint : Signal

-- The process of a server that listens: which signals have a listener, and `process.exitCode`.
pub record Process : Type 0 where
  pub on_term : Bool
  pub on_interrupt : Bool
  pub exit_code : Option ℕ

-- What happens to it: a signal, and the callback of `close` with the code of its error.
pub data Event : Type 0 where
  signal : Signal → Event
  close_settled : Option Value → Event

-- What it does. A signal without a listener has the effect that it has by default.
pub data Effect : Type 0 where
  close_server close_connections : Effect
  log_error log_info : Option String → Effect
  default_action : Signal → Effect

abbrev pub listening : Process
listening = record { on_term = true; on_interrupt = true; exit_code = none }

unfoldable pub listening_line : Value → Option String
listening_line address = stringify (
    obj (
      field "level" (str "info")
        (field "event" (str "mcp-apps-sandbox-listening") (field "address" address end))))

unfoldable pub close_failed_line : Value → Option String
close_failed_line code = stringify (
    obj (
      field "level" (str "error")
        (field "event" (str "mcp-apps-sandbox-close-failed") (field "code" code end))))

-- The state in which `main` returns, with its line on the console.
unfoldable pub start_process : Value → Process × List Effect
start_process address = (listening, log_info (listening_line address) ∷ [])

-- The listener of both signals, which removes itself from both.
unfoldable pub stop : Process → Process × List Effect
stop p = (record p { on_term = false; on_interrupt = false }, close_server ∷ close_connections ∷ [])

abbrev pub listens : Process → Signal → Bool
listens p sigterm = p.on_term
listens p sigint = p.on_interrupt

unfoldable pub step : Process → Event → Process × List Effect
unfolding stop
step p (signal s) = if listens p s then stop p else (p, default_action s ∷ [])
step p (close_settled none) = (p, [])
step p (close_settled (some code)) =
    (record p { exit_code = some 1 }, log_error (close_failed_line code) ∷ [])

unfoldable pub run : Process → List Event → Process × List Effect
unfolding step
run p [] = (p, [])
run p (e ∷ es) = let rest = run (step p e).0 es in (rest.0, (step p e).1 ++ rest.1)

-- The text of an error; that of a class that the code does not throw is the runtime's.
abbrev pub error_message : (String → String) → Exception → String
error_message others (type_error message) = message
error_message others (range_error message) = message
error_message others (error message) = message
error_message others (foreign name) = others name

-- What `main().catch(…)` leaves: a line on the console, and the exit code.
unfoldable pub report_start : (String → String) → Outcome Server → Option String × Option ℕ
report_start others (ok server) = (none, none)
report_start others (throw e) = (
  stringify (
      obj (
        field "level" (str "error") (
          field "event" (str "mcp-apps-sandbox-start-failed") (
            field "name" (str (error_name e))
              (field "message" (str (error_message others e)) end))))),
  some 1,
)
