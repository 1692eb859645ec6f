-- ===== src/Transport.antt =====
-- web/src/origin-transport.js: messages to and from the sandbox's window.
pub mod Limit
pub mod Lifecycle
use kestrel_feature_mcp.Prelude.{
  ℕ, zero, suc, String, Bool, true, false, not, ◌&&◌, ◌||◌, Option, none, some, List, [], ◌∷◌, ltb,
  leb, utf16_length, utf8_length, ◌==◌, Outcome, ok, throw, Exception, error, range_error, foreign,
  ◌>>=◌, ◌>>◌, require, or_throw, type_error, if◌then◌else◌,
}
use kestrel_feature_mcp.Json.{stringify}
use kestrel_feature_mcp.Value.{Number, nonneg, Value, num, is_text, max_safe_integer}
use kestrel_feature_mcp.Platform.{Platform}
use kestrel_feature_mcp.Policy.{is_http}

abbrev pub exceeds : Exception
exceeds = type_error "Sandbox message exceeds its byte limit or is not JSON"

abbrev pub invalid : Exception
invalid = type_error "Sandbox sent an invalid MCP JSON-RPC message"

-- `OriginBoundTransport.validateMessage`
unfoldable pub validate_message : Platform → Value → ℕ → Outcome Value
validate_message p value max_message_bytes = do
  encoded ← or_throw (stringify value) exceeds
  require
      (not (
        ltb max_message_bytes (utf16_length encoded)
        || ltb max_message_bytes (utf8_length encoded)))
      exceeds
  json ← or_throw (p.json_value value) invalid
  or_throw (p.rpc_message json) invalid

-- A transport, with its private fields; `listening` says whether its listener is on the window.
pub record Transport : Type 0 where
  pub origin : String
  pub limit : ℕ
  pub started : Bool
  pub closed : Bool
  pub listening : Bool

-- What the transport does to the world around it.
pub data Effect : Type 0 where
  post : Value → String → Effect  -- `targetWindow.postMessage(message, origin)`
  deliver : Value → Effect  -- `onmessage`
  report : Exception → Effect  -- `onerror`
  onclose : Effect

unfoldable pub byte_limit : Value → Outcome ℕ
byte_limit (num (nonneg (suc n))) =
    if leb (suc n) max_safe_integer
    then ok (suc n)
    else throw (type_error "Sandbox message byte limit must be a positive safe integer")
byte_limit v = throw (type_error "Sandbox message byte limit must be a positive safe integer")

-- The constructor, for the origin of the window that it stands in.
unfoldable pub create_transport : Platform → String → Value → Value → Outcome Transport
create_transport p location_origin origin max_message_bytes = do
  parsed ← or_throw (p.new_url origin) (type_error "Invalid URL")
  require (is_text origin parsed.origin && is_http parsed.protocol)
      (type_error "Sandbox origin must be an exact HTTP(S) origin")
  require (not (parsed.origin == location_origin))
      (type_error "Sandbox must use a different origin from the host")
  limit ← byte_limit max_message_bytes
  ok (record {
    origin = parsed.origin;
    limit = limit;
    started = false;
    closed = false;
    listening = false;
  })

-- The calls of a transport, and the messages of its window: whether the source is the target
-- window, the origin and the data of the event.
pub data Call : Type 0 where
  start close : Call
  send : Value → Call
  event : Bool → String → Value → Call

module _ (p : Platform) where
  -- The listener's answer to what its validation gave.
  unfoldable pub settle : Outcome Value → Outcome (List Effect)
  settle (ok message) = ok (deliver message ∷ [])
  settle (throw (type_error m)) = ok (report (type_error m) ∷ [])
  settle (throw (range_error m)) = ok (report (range_error m) ∷ [])
  settle (throw (error m)) = throw (error m)
  settle (throw (foreign m)) = throw (foreign m)

  unfoldable pub listener : Transport → Bool → String → Value → Outcome (List Effect)
  listener t source origin value =
      if not source || not (origin == t.origin)
      then ok []
      else settle (validate_message p value t.limit)

  -- A call: the state after it, and what it returns or throws.
  unfoldable pub step : Transport → Call → Transport × Outcome (List Effect)
  step t start =
      if t.closed || t.started
      then (t, throw (error "Sandbox transport cannot be restarted"))
      else (record t { started = true; listening = true }, ok [])
  step t (send message) =
      if not t.started || t.closed
      then (t, throw (error "Sandbox transport is not active"))
      else (t, validate_message p message t.limit >>= λ m. ok (post m t.origin ∷ []))
  step t close =
      if t.closed
      then (t, ok [])
      else (record t { closed = true; listening = false }, ok (onclose ∷ []))
  step t (event source origin value) =
      if t.listening then (t, listener t source origin value) else (t, ok [])

  -- The answers to a sequence of calls.
  unfoldable pub run : Transport → List Call → List (Outcome (List Effect))
  run t [] = []
  run t (c ∷ cs) = (step t c).1 ∷ run (step t c).0 cs
