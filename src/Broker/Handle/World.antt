-- ===== src/Broker/Handle/World.antt =====
-- What a line of the socket does to the host.
use yunohost_mcp.Prelude.{
  ℕ, String, ◌≡◌, refl, Bool, true, false, Option, List, arith, inl, inr, ◌⊎◌, ◌∙◌,
}
use yunohost_mcp.Prelude.Json.{Json}
use yunohost_mcp.Prelude.Result.{Result, ok, err}
use yunohost_mcp.Platform.{Platform}
use yunohost_mcp.Broker.Protocol.{BrokerProtocolError, BrokerRequest, decode_request}
use yunohost_mcp.Broker.Calls.Arguments.{ArgumentError, AdapterCall}
use yunohost_mcp.Broker.Calls.Registry.{adapter_call}
use yunohost_mcp.Broker.Helper.{BrokerError, Clock, Settings, Broker, Adapter}
use yunohost_mcp.Broker.Handle.Checks.{IsAdmitted, admit_sound}
use yunohost_mcp.Broker.Handle.{
  admit, admitted, called, invoked, finished, handle, finalize_confirmation,
}

module _ (p : Platform) (cfg : Settings) (clock : Clock) where
  module _ {W : Type 0} (adapter : Adapter W) (w : W) where
    -- The adapter's one call, of an admitted request whose arguments its operation accepts.
    pub record IsCalled (line : List ℕ) (b : Broker) (after : W) : Type 0 where
      pub request : BrokerRequest
      pub held : Option String
      pub call : AdapterCall
      pub decoded : decode_request p line ≡ ok request
      pub admitted : IsAdmitted p cfg clock adapter w request b held
      pub accepted : adapter_call request.operation request.arguments ≡ ok call
      pub made : after ≡ (adapter.invoke call w).1

    finished_world :
        (id : String) (held : Option String) (result : Json) (w' : W)
        (answer : Result BrokerError (Unit {0}) × Broker)
        → (finished p cfg clock adapter w id held result w' answer).world ≡ w'
    unfolding finished
    finished_world id held result w' (err e, b) = refl
    finished_world id held result w' (ok u, b) = ground arith

    invoked_world :
        (id : String) (held : Option String) (b : Broker) (answer : Result BrokerError Json × W)
        → (invoked p cfg clock adapter w id held b answer).world ≡ answer.1
    unfolding invoked
    invoked_world id held b (err e, w') = refl
    invoked_world id held b (ok v, w') = finished_world id held v w' (finalize_confirmation held b)

    called_world :
        (operation : String) (answer : Result ArgumentError AdapterCall)
        → ((called p cfg clock adapter w operation answer).1 ≡ w)
          ⊎ ((call : AdapterCall) × (answer ≡ ok call)
              × ((called p cfg clock adapter w operation answer).1 ≡ (adapter.invoke call w).1))
    unfolding called
    called_world operation (err e) = inl refl
    called_world operation (ok call) = inr (call, refl, ground arith)

    admitted_world :
        (request : BrokerRequest) (answer : Result BrokerError (Option String) × Broker)
        → ((admitted p cfg clock adapter w request answer).world ≡ w)
          ⊎ ((held : Option String) × (b' : Broker) × (answer ≡ (ok held, b'))
              × (call : AdapterCall) × (adapter_call request.operation request.arguments ≡ ok call)
              × ((admitted p cfg clock adapter w request answer).world ≡ (adapter.invoke call w).1))
    unfolding admitted
    admitted_world request (err e, b) = inl refl
    admitted_world request (ok held, b) =
        let answer = adapter_call request.operation request.arguments in
        let left =
          invoked_world request.request_id held b
            (called p cfg clock adapter w request.operation answer) in
        elim (called_world request.operation answer) [
          | inl same ↦ inl (left ∙ same)
          | inr (call, accepted, made) ↦ inr (held, b, refl, call, accepted, left ∙ made)
        ]

    read_world :
        (line : List ℕ) (b : Broker) (read : Result BrokerProtocolError BrokerRequest)
        → decode_request p line ≡ read
        → ((handle p cfg clock adapter w true line b).world ≡ w)
          ⊎ IsCalled line b (handle p cfg clock adapter w true line b).world
    unfolding handle
    read_world line b (err e) r = inl (ground (arith, r))
    read_world line b (ok request) r =
        elim (admitted_world request (admit p cfg clock adapter w request b)) [
          | inl same ↦ inl (ground (arith, r, same))
          | inr (held, b', passed, call, accepted, made) ↦ inr (record {
            request = request;
            held = held;
            call = call;
            decoded = r;
            admitted = admit_sound p cfg clock adapter w request b b' held passed;
            accepted = accepted;
            made = ground (arith, r, made);
          })
        ]

    -- A line leaves the host as it was, or as the adapter's one call leaves it: the call that the
    -- operation makes of the line's request, which has passed all checks.
    pub handle_world :
        (peer : Bool) (line : List ℕ) (b : Broker)
        → ((handle p cfg clock adapter w peer line b).world ≡ w)
          ⊎ IsCalled line b (handle p cfg clock adapter w peer line b).world
    unfolding handle
    handle_world false line b = inl refl
    handle_world true line b = read_world line b (decode_request p line) refl
