-- ===== src/Broker/Handle/Checks.antt =====
-- What has been checked when the adapter is called.
use yunohost_mcp.Prelude.{
  ℕ, String, ◌≡◌, refl, Bool, true, false, Option, some, List, arith, Option-cases, Bool-cases, inl,
  inr,
}
use yunohost_mcp.Prelude.Dict
use yunohost_mcp.Prelude.Json.{Json}
use yunohost_mcp.Prelude.Result.{Result, ok, err, is_ok}
use yunohost_mcp.Platform.{Platform}
use yunohost_mcp.Policy.Scopes.{Scope, of_value}
use yunohost_mcp.Auth.Identity.{AuthenticatedRequest, has_scope}
use yunohost_mcp.Auth.Replay.{ReplayCache}
use yunohost_mcp.Broker.Protocol.{BrokerProtocolError, BrokerRequest, decode_request}
use yunohost_mcp.Broker.Calls.Registry.{adapter_call}
use yunohost_mcp.Broker.Operations.{operations}
use yunohost_mcp.Broker.Helper.{
  BrokerError, Clock, Settings, Broker, Adapter, authorize_request, check_operation_policy,
}
use yunohost_mcp.Broker.Handle.{
  scoped, confirmed_session, admit, admitted, called, invoked, finished, handle,
  check_package_test_session, finalize_confirmation,
}

module _ (p : Platform) (cfg : Settings) (clock : Clock) where
  module _ {W : Type 0} (adapter : Adapter W) (w : W) where
    -- The request's checks have passed: its operation, its caller's signature and scope, its policy
    -- and its session. `held` is the id of the confirmation that was taken.
    pub record IsAdmitted (request : BrokerRequest) (b : Broker) (held : Option String)
        : Type 0 where
      pub value : String
      pub registered : Dict.get operations request.operation ≡ some value
      pub scope : Scope
      pub known : of_value value ≡ some scope
      pub caller : AuthenticatedRequest
      pub cache : ReplayCache
      pub authentic : authorize_request p cfg clock request b.replay_cache ≡ (ok caller, cache)
      pub allowed : has_scope caller scope ≡ true
      pub checked : Broker
      pub policy :
          check_operation_policy p cfg clock adapter w request caller.pubkey
            (record b { replay_cache = cache })
          ≡ (ok held, checked)
      pub tested : (check_package_test_session p cfg clock request caller.pubkey checked).0 ≡ ok tt

    confirmed_session_sound :
        (request : BrokerRequest) (pubkey : String)
        (policy : Result BrokerError (Option String) × Broker) (b' : Broker) (held : Option String)
        → confirmed_session p cfg clock request pubkey policy ≡ (ok held, b')
        → (b1 : Broker) × (policy ≡ (ok held, b1))
          × ((check_package_test_session p cfg clock request pubkey b1).0 ≡ ok tt)
    unfolding confirmed_session
    confirmed_session_sound request pubkey (err e, b) b' held h = absurd (ground arith)
    confirmed_session_sound request pubkey (ok id, b) b' held h = (b, ground arith, ground arith)

    scoped_sound :
        (request : BrokerRequest) (value : String)
        (authorized : Result BrokerError AuthenticatedRequest × ReplayCache) (b b' : Broker)
        (held : Option String)
        → Dict.get operations request.operation ≡ some value
        → authorize_request p cfg clock request b.replay_cache ≡ authorized
        → scoped p cfg clock adapter w request value authorized b ≡ (ok held, b')
        → IsAdmitted request b held
    unfolding scoped
    scoped_sound request value (err e, cache) b b' held r a h = absurd (ground arith)
    scoped_sound request value (ok who, cache) b b' held r a h =
        elim (Option-cases (of_value value)) [
          | inl missing ↦ absurd (ground (arith, missing, h))
          | inr (scope, known) ↦ elim (Bool-cases (has_scope who scope)) [
            | inr lacking ↦ absurd (ground (arith, known, lacking, h))
            | inl allowed ↦
                let (checked, policy, tested) =
                  confirmed_session_sound request who.pubkey
                    (check_operation_policy p cfg clock adapter w request who.pubkey
                      (record b { replay_cache = cache }))
                    b' held (ground (arith, known, allowed, h)) in
                record {
                  value = value;
                  registered = r;
                  scope = scope;
                  known = known;
                  caller = who;
                  cache = cache;
                  authentic = a;
                  allowed = allowed;
                  checked = checked;
                  policy = policy;
                  tested = tested;
                }
          ]
        ]

    -- A request is admitted only if its operation is registered, its caller signed it and has the
    -- operation's scope, and the policy and the package-test session pass for this caller.
    pub admit_sound :
        (request : BrokerRequest) (b b' : Broker) (held : Option String)
        → admit p cfg clock adapter w request b ≡ (ok held, b')
        → IsAdmitted request b held
    unfolding admit
    admit_sound request b b' held h = elim (Option-cases (Dict.get operations request.operation)) [
      | inl missing ↦ absurd (ground (arith, missing, h))
      | inr (value, found) ↦
          scoped_sound request value (authorize_request p cfg clock request b.replay_cache) b b'
            held found refl (ground (arith, found, h))
    ]

    finished_allowed :
        (id : String) (held : Option String) (result : Json) (w' : W)
        (answer : Result BrokerError (Unit {0}) × Broker)
        → (finished p cfg clock adapter w id held result w' answer).allowed ≡ true
    unfolding finished
    finished_allowed id held result w' (err e, b) = refl
    finished_allowed id held result w' (ok u, b) = ground arith

    invoked_allowed :
        (id : String) (held : Option String) (b : Broker) (answer : Result BrokerError Json × W)
        → (invoked p cfg clock adapter w id held b answer).allowed ≡ true
    unfolding invoked
    invoked_allowed id held b (err e, w') = refl
    invoked_allowed id held b (ok v, w') =
        finished_allowed id held v w' (finalize_confirmation held b)

    admitted_denied :
        (request : BrokerRequest) (answer : Result BrokerError (Option String) × Broker)
        → (admitted p cfg clock adapter w request answer).allowed ≡ false
        → ((admitted p cfg clock adapter w request answer).world ≡ w)
          × (is_ok (admitted p cfg clock adapter w request answer).reply ≡ false)
    unfolding admitted
    admitted_denied request (err e, b) h = (refl, refl)
    admitted_denied request (ok held, b) h = absurd (
        cc (
          h,
          invoked_allowed request.request_id held b (
              called p cfg clock adapter w request.operation
                (adapter_call request.operation request.arguments)),
        ))

    -- A request that is denied leaves the host as it was, and its reply is an error.
    pub handle_denied :
        (peer : Bool) (line : List ℕ) (b : Broker)
        → (handle p cfg clock adapter w peer line b).allowed ≡ false
        → ((handle p cfg clock adapter w peer line b).world ≡ w)
          × (is_ok (handle p cfg clock adapter w peer line b).reply ≡ false)
    unfolding handle
    handle_denied false line b h = (refl, refl)
    handle_denied true line b h = by_read (decode_request p line) refl
      where
        by_read :
            (read : Result BrokerProtocolError BrokerRequest)
            → decode_request p line ≡ read
            → ((handle p cfg clock adapter w true line b).world ≡ w)
              × (is_ok (handle p cfg clock adapter w true line b).reply ≡ false)
        by_read (err e) r = ground (arith, r)
        by_read (ok request) r =
            let denied =
              admitted_denied request (admit p cfg clock adapter w request b)
                (ground (arith, r, h)) in
            ground (arith, r, denied)
