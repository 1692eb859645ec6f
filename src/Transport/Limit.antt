-- ===== src/Transport/Limit.antt =====
-- The byte limit of a message.
use Prim.Native.String.{[], ◌∷◌}
use Prim.Native.String.len as Len
use Prim.Native.Char.{Char, len_utf8, len_utf8_def}
use kestrel_feature_mcp.Prelude.{
  ℕ, ◌≤◌, String, code, true, ◌≡◌, refl, not, ◌||◌, some, ok, >>=-eq-ok, require->>=, or_throw,
  or_throw-eq-ok, ltb, leb, utf16_length, utf8_length, arith, ◌↔◌, if◌then◌else◌,
}
use kestrel_feature_mcp.Json.{stringify}
use kestrel_feature_mcp.Value.{Value}
use kestrel_feature_mcp.Platform.{Platform}
use kestrel_feature_mcp.Transport.{validate_message, exceeds, invalid}

-- A code point takes at least as many bytes as UTF-16 units.
units-le-bytes : (c : Char) → (if leb 0x10000 (code c) then 2 else 1) ≤ len_utf8 c
units-le-bytes c = rw len_utf8_def (ground arith)

pub utf16_length-le : (s : String) → utf16_length s ≤ utf8_length s
unfolding utf16_length
utf16_length-le [] = omega arith
utf16_length-le (c ∷ s) = rw (Len.cons c s) (omega (arith, units-le-bytes c, utf16_length-le s))

bounded_iff :
    (s : String) (n : ℕ)
    → (not (ltb n (utf16_length s) || ltb n (utf8_length s)) ≡ true) ↔ (utf8_length s ≤ n)
bounded_iff s n = ((λ h. ground arith), (λ h. ground (arith, utf16_length-le s)))

module _ (p : Platform) (value : Value) (limit : ℕ) (m : Value) where
  -- A JSON-RPC message of at most `limit` bytes of JSON, as the SDK's schemas read it.
  abbrev pub IsMessage : Type 0
  IsMessage =
      (encoded : String) × (stringify value ≡ some encoded)
      × (utf8_length encoded ≤ limit)
      × ((json : Value) × (p.json_value value ≡ some json) × (p.rpc_message json ≡ some m))

  accepted : validate_message p value limit ≡ ok m → IsMessage
  unfolding validate_message
  accepted h =
      let (encoded, text, h1) = >>=-eq-ok (or_throw (stringify value) exceeds) _ h in
      let (within, h2) =
        require->>= (not (ltb limit (utf16_length encoded) || ltb limit (utf8_length encoded)))
          exceeds _ h1 in
      let (json, parsed, h3) = >>=-eq-ok (or_throw (p.json_value value) invalid) _ h2 in
      (
        encoded,
        or_throw-eq-ok _ _ text,
        (bounded_iff encoded limit).0 within,
        (json, or_throw-eq-ok _ _ parsed, or_throw-eq-ok _ _ h3),
      )

  accepts : IsMessage → validate_message p value limit ≡ ok m
  unfolding validate_message
  accepts (encoded, text, within, (json, parsed, valid)) =
      rw (text, (bounded_iff encoded limit).1 within, parsed, valid) refl

  -- `validateMessage` returns a message exactly if the value has a JSON text of at most the given
  -- number of UTF-8 bytes and both schemas accept it, and it returns what they read. The first test,
  -- on UTF-16 units, refuses nothing that the test on bytes would accept.
  pub validate_message_iff : (validate_message p value limit ≡ ok m) ↔ IsMessage
  validate_message_iff = (accepted, accepts)
