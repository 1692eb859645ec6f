-- ===== src/Examples/Transports.antt =====
-- The theorems on the transport at a transport to the tests' sandbox.
use kestrel_feature_mcp.Prelude.{
  true, false, ◌≡◌, refl, List, [], ◌∷◌, ok, throw, error, All, ◌↔◌, utf16_length,
}
use kestrel_feature_mcp.Json.{stringify}
use kestrel_feature_mcp.Value.{Value, obj, field, end, str, num, nonneg}
use kestrel_feature_mcp.Transport.{
  Transport, create_transport, byte_limit, validate_message, Call, start, close, send, event, post,
  deliver, onclose, run, step, settle, listener,
}
use kestrel_feature_mcp.Transport.Limit.{IsMessage, validate_message_iff}
use kestrel_feature_mcp.Transport.Lifecycle.{answers, idle, AreBound, run-answers, run-AreBound}
use kestrel_feature_mcp.Examples.Fixture.{platform}

abbrev ping : Value
ping = obj (field "id" (num (nonneg 1)) (field "method" (str "ping") end))

abbrev transport : Transport
transport = record {
  origin = "https://cdn.example";
  limit = 64;
  started = false;
  closed = false;
  listening = false;
}

create_cdn :
    create_transport platform "https://host.example" (str "https://cdn.example") (num (nonneg 64))
    ≡ ok transport
unfolding create_transport byte_limit
create_cdn = refl

abbrev calls : List Call
calls = send ping ∷ start ∷ send ping ∷ event true "https://cdn.example" ping ∷ close ∷ start ∷ []

calls_work :
    run platform transport calls
    ≡ throw (error "Sandbox transport is not active")
      ∷ ok []
      ∷ ok (post ping "https://cdn.example" ∷ [])
      ∷ ok (deliver ping ∷ [])
      ∷ ok (onclose ∷ [])
      ∷ throw (error "Sandbox transport cannot be restarted")
      ∷ []
unfolding run step listener settle validate_message stringify utf16_length
calls_work = refl

validate_message_iff_example :
    (validate_message platform ping 64 ≡ ok ping) ↔ IsMessage platform ping 64 ping
validate_message_iff_example = validate_message_iff platform ping 64 ping

run-answers_example :
    run platform transport calls ≡ answers platform "https://cdn.example" 64 idle calls
run-answers_example = run-answers platform transport calls refl

run-AreBound_example :
    All (AreBound platform "https://cdn.example" 64) (run platform transport calls)
run-AreBound_example = run-AreBound platform transport calls refl
