-- ===== src/Launcher.antt =====
-- web/src/parent-entry.js: the button of a chat message that opens an app and closes it again.
pub mod Lifetime
use Prim.Native.String
use kestrel_feature_mcp.Prelude.{
  ℕ, zero, suc, String, Char, code, Bool, true, false, not, ◌&&◌, ◌||◌, Option, none, some, List,
  [], ◌∷◌, ◌++◌, leb, nat_eq, ◌==◌, includes, Outcome, ok, throw, Exception, if◌then◌else◌,
}
use kestrel_feature_mcp.Json.{◌<>◌}
use kestrel_feature_mcp.Value.{Value, obj, arr, str, nil, cons, member, is_text, is_object_with}

-- `[A-Za-z0-9_-]`
abbrev pub is_reference_char : Char → Bool
is_reference_char c =
    leb b'A' (code c) && leb (code c) b'Z'
    || leb b'a' (code c) && leb (code c) b'z'
    || leb b'0' (code c) && leb (code c) b'9'
    || nat_eq (code c) b'_'
    || nat_eq (code c) b'-'

abbrev pub is_reference_text : ℕ → String → Bool
is_reference_text zero String.[] = true
is_reference_text (suc n) (String.◌∷◌ c s) = is_reference_char c && is_reference_text n s
is_reference_text n s = false

-- The text of a value where `test` may match it: of texts, and of arrays of one such value. The text
-- of any other value is shorter than 43 characters or holds one that the pattern has not.
abbrev pub reference_text : Value → Option String
reference_text (str s) = if is_reference_text 43 s then some s else none
reference_text (arr (cons v nil)) = reference_text v
reference_text v = none

-- `render`, for the chat's session, which a message names by its text, and whether the context has
-- `isCurrentChat`.
unfoldable pub render : Value → String → Bool → String
render message session_id has_current = elim (reference_text (member message "reference")) [
  | none ↦ "<p>App unavailable for this conversation.</p>"
  | some reference ↦
      if not (is_object_with (includes ("reference" ∷ "session_id" ∷ [])) message)
        || not (is_text (member message "session_id") session_id)
        || not has_current
      then "<p>App unavailable for this conversation.</p>"
      else "<div class=\"mcp-app-view\"><button type=\"button\" value=\"" <> reference
        <> "\">Open App</button><button class=\"mcp-app-close\" type=\"button\" hidden>Close App</button></div>"
]

-- The variables of `mount`, and its two buttons; `listening` says whether its listeners are on. An
-- app that `mountMCPApp` has returned is a number.
pub record Launcher : Type 0 where
  pub app : Option ℕ
  pub closing : Bool
  pub retired : Bool
  pub listening : Bool
  pub disabled : Bool
  pub close_hidden : Bool

pub data Effect : Type 0 where
  opened disposed : ℕ → Effect
  unconfirmed : Effect  -- the message that the cleanup could not be confirmed
  failed : Exception → Effect  -- what `mountMCPApp` throws leaves the listener

-- A click on the first button comes with the answer of `isCurrentChat` and what `mountMCPApp` would
-- return; a disposal settles, fulfilled or rejected.
pub data Event : Type 0 where
  open_click : Bool → Outcome ℕ → Event
  close_click bus_event retirement : Event
  settlement : Bool → Event

abbrev pub unopened : Launcher
unopened = record {
  app = none;
  closing = false;
  retired = false;
  listening = true;
  disabled = false;
  close_hidden = true;
}

abbrev pub is_open : Option ℕ → Bool
is_open none = false
is_open (some app) = true

unfoldable pub mounted : Launcher → Outcome ℕ → Launcher × List Effect
mounted s (ok app) = (record s { app = some app; close_hidden = false }, opened app ∷ [])
mounted s (throw e) = (s, failed e ∷ [])

unfoldable pub open_app : Launcher → Bool → Outcome ℕ → Launcher × List Effect
open_app s is_current result =
    if s.retired || is_open s.app || s.closing || not is_current
    then (s, [])
    else mounted (record s { disabled = true }) result

unfoldable pub close_app : Launcher → Option ℕ → Launcher × List Effect
close_app s none = (record s { close_hidden = true }, [])
close_app s (some app) = (
  record s { app = none; close_hidden = true; disabled = true; closing = true },
  disposed app ∷ [],
)

-- `catch` and `finally` of a disposal.
unfoldable pub settle_disposal : Launcher → Bool → Launcher × List Effect
settle_disposal s fulfilled =
    (record s { closing = false; disabled = false }, if fulfilled then [] else unconfirmed ∷ [])

unfoldable pub step : Launcher → Event → Launcher × List Effect
step s (open_click is_current result) =
    if s.listening then open_app s is_current result else (s, [])
step s close_click = if s.listening then close_app s s.app else (s, [])
step s bus_event = if s.listening then close_app s s.app else (s, [])
step s retirement = close_app (record s { retired = true; listening = false }) s.app
step s (settlement fulfilled) = if s.closing then settle_disposal s fulfilled else (s, [])

unfoldable pub follow : Launcher → List Event → Launcher × List Effect
follow s [] = (s, [])
follow s (e ∷ es) = ((follow (step s e).0 es).0, (step s e).1 ++ (follow (step s e).0 es).1)
