-- ===== src/Broker/Handle.antt =====
-- src/yunohost_mcp/broker/helper.py: `handle`, from a line of the socket to the reply, and what it
-- leaves of the confirmation. Its audit entry is not modelled, but for the decision.
pub mod Checks
pub mod World
use Prim.Native.String
use text.Mathlib.Text.{starts_with}
use yunohost_mcp.Prelude.{
  ℕ, String, Bool, true, false, not, ◌&&◌, ◌||◌, Option, none, some, List, [], ◌∷◌, ◌++◌, ◌==◌, leb,
  eqb, length, if◌then◌else◌,
}
use yunohost_mcp.Prelude.Dict
use yunohost_mcp.Prelude.Dict.{Dict}
use yunohost_mcp.Prelude.Int.{ℤ, pos}
use yunohost_mcp.Prelude.Json.{Json, Fields, null, bool, int, str, obj, end, field, get_field}
use yunohost_mcp.Prelude.Result.{Result, ok, err, ◌>>=◌}
use yunohost_mcp.Platform.{Platform}
use yunohost_mcp.Policy.Scopes.{Scope, has, of_value}
use yunohost_mcp.Policy.Rules.{truthy, PolicyRule, check_free_space, check_recent_backup}
use yunohost_mcp.Policy.PackageSessions
use yunohost_mcp.Policy.PackageSessions.{
  PackageTestSessionStore, PackageTestSessionError, PackageTestSession,
}
use yunohost_mcp.Policy.Confirmation.{Call}
use yunohost_mcp.Policy.Confirmation.Ticket.{ConfirmationTicket}
use yunohost_mcp.Policy.Confirmation.Sqlite
use yunohost_mcp.Policy.Confirmation.Sqlite.{StoreError, SqliteConfirmationStore}
use yunohost_mcp.Auth.Nip98.{Nip98Error, Nip98Identity, HttpRequest, verify_nip98_request}
use yunohost_mcp.Auth.Replay.{ReplayCache}
use yunohost_mcp.Auth.Identity.{AuthenticatedRequest, IdentityRecord, IdentityStore, has_scope}
use yunohost_mcp.Auth.Revocation.{RevocationStore}
use yunohost_mcp.Auth.Middleware.{resolve_identity}
use yunohost_mcp.Broker.Protocol.{
  BrokerProtocolError, BrokerRequest, decode_request, decode_original_body, encode_response,
}
use yunohost_mcp.Broker.Calls.Arguments.{ArgumentError, AdapterCall}
use yunohost_mcp.Broker.Calls.Registry.{adapter_call, result_of}
use yunohost_mcp.Broker.Operations.{
  operations, confirmation_argument_keys, policy_name_for_operation,
}
use yunohost_mcp.Broker.Helper.{
  BrokerError, forbidden_peer, no_operation, no_scope, no_session, session, protocol, confirmation,
  refused, failed, Clock, Settings, Broker, Adapter, app_argument, authorize_request,
  check_operation_policy,
}

-- `operation.startswith("package.") and operation not in {"package.inspect", "package.lint"}`
abbrev pub needs_session : String → Bool
needs_session operation =
    starts_with operation "package."
    && not (operation == "package.inspect")
    && not (operation == "package.lint")

-- `_revert_confirmation`: an error of the table is logged and dropped
unfoldable pub revert_confirmation : Option String → Broker → Broker
revert_confirmation none b = b
revert_confirmation (some id) b = elim b.confirmation_store [
  | none ↦ b
  | some s ↦ record b { confirmation_store = some ((Sqlite.revert id s).1) }
]

-- The store's `finalize`, where there is a confirmation.
unfoldable pub finalize_confirmation :
    Option String → Broker → Result BrokerError (Unit {0}) × Broker
finalize_confirmation none b = (ok tt, b)
finalize_confirmation (some id) b = elim b.confirmation_store [
  | none ↦ (ok tt, b)
  | some s ↦
      let (answer, s') = Sqlite.finalize id s in
      let b' = record b { confirmation_store = some s' } in
      elim answer [ err e ↦ (err (confirmation e), b') | ok _ ↦ (ok tt, b') ]
]

-- What handling a request leaves: the reply, the audit's decision, and both states.
pub record Outcome (W : Type 0) : Type 0 where
  pub reply : Result BrokerError Json
  pub allowed : Bool
  pub broker : Broker
  pub world : W

module _ (p : Platform) (cfg : Settings) (clock : Clock) where
  session_checked :
      Result PackageTestSessionError PackageTestSession × PackageTestSessionStore
      → Broker
      → Result BrokerError (Unit {0}) × Broker
  session_checked (err e, s) b = (err (session e), record b { package_test_sessions = s })
  session_checked (ok _, s) b = (ok tt, record b { package_test_sessions = s })

  session_by_id :
      BrokerRequest → String → Option Json → Broker → Result BrokerError (Unit {0}) × Broker
  unfolding session_checked
  session_by_id request pubkey (some (str id)) b =
      if id == ""
      then (err no_session, b)
      else session_checked
          (PackageSessions.get p clock.now id pubkey (get_field request.arguments "source")
            (app_argument request.arguments) b.package_test_sessions)
          b
  session_by_id request pubkey _ b = (err no_session, b)

  -- `_check_package_test_session`
  unfoldable pub check_package_test_session :
      BrokerRequest → String → Broker → Result BrokerError (Unit {0}) × Broker
  unfolding session_by_id
  check_package_test_session request pubkey b =
      if needs_session request.operation
      then session_by_id request pubkey (get_field request.arguments "session_id") b
      else (ok tt, b)

  -- The session's check after that of the policy: an error gives the confirmation back.
  confirmed_session :
      BrokerRequest
      → String
      → Result BrokerError (Option String) × Broker
      → Result BrokerError (Option String) × Broker
  confirmed_session request pubkey (err e, b) = (err e, b)
  confirmed_session request pubkey (ok held, b) =
      let (answer, b') = check_package_test_session request pubkey b in
      elim answer [ err e ↦ (err e, revert_confirmation held b') | ok _ ↦ (ok held, b') ]

  module _ {W : Type 0} (adapter : Adapter W) (w : W) where
    scoped :
        BrokerRequest
        → String
        → Result BrokerError AuthenticatedRequest × ReplayCache
        → Broker
        → Result BrokerError (Option String) × Broker
    unfolding confirmed_session
    scoped request scope (err e, cache) b = (err e, record b { replay_cache = cache })
    scoped request scope (ok who, cache) b =
        let b' = record b { replay_cache = cache } in
        elim (of_value scope) [
          | none ↦ (err no_scope, b')
          | some required ↦
              if has_scope who required
              then confirmed_session request who.pubkey
                  (check_operation_policy p cfg clock adapter w request who.pubkey b')
              else (err no_scope, b')
        ]

    -- All checks of a request, in order; the id is of the confirmation that is held for the call.
    unfoldable pub admit : BrokerRequest → Broker → Result BrokerError (Option String) × Broker
    unfolding scoped
    admit request b = elim (Dict.get operations request.operation) [
      | none ↦ (err no_operation, b)
      | some scope ↦ scoped request scope (authorize_request p cfg clock request b.replay_cache) b
    ]

    -- After the adapter has returned: finalize, and send.
    finished :
        String → Option String → Json → W → Result BrokerError (Unit {0}) × Broker → Outcome W
    finished request_id held result w' (err e, b) = record {
      reply = err e;
      allowed = true;
      broker = revert_confirmation held b;
      world = w';
    }
    finished request_id held result w' (ok _, b) = elim (encode_response p request_id result) [
      | err e ↦ record {
        reply = err (protocol e);
        allowed = true;
        broker = revert_confirmation held b;
        world = w';
      }
      | ok _ ↦ record { reply = ok result; allowed = true; broker = b; world = w' }
    ]

    -- `operation.invoke(adapter, arguments)`
    called : String → Result ArgumentError AdapterCall → Result BrokerError Json × W
    called operation (err e) = (err (refused e), w)
    called operation (ok call) =
        let (answer, w') = adapter.invoke call w in
        elim answer [
          | err e ↦ (err (failed e), w')
          | ok result ↦ (ok (result_of operation result), w')
        ]

    invoked : String → Option String → Broker → Result BrokerError Json × W → Outcome W
    unfolding finished
    invoked request_id held b (err e, w') = record {
      reply = err e;
      allowed = true;
      broker = revert_confirmation held b;
      world = w';
    }
    invoked request_id held b (ok result, w') =
        finished request_id held result w' (finalize_confirmation held b)

    admitted : BrokerRequest → Result BrokerError (Option String) × Broker → Outcome W
    unfolding invoked called
    admitted request (err e, b) = record { reply = err e; allowed = false; broker = b; world = w }
    admitted request (ok held, b) =
        invoked request.request_id held b
          (called request.operation (adapter_call request.operation request.arguments))

    -- `handle`: `peer` says whether the peer is the allowed user, `line` is without its end.
    unfoldable pub handle : Bool → List ℕ → Broker → Outcome W
    unfolding admitted
    handle false line b = record {
      reply = err forbidden_peer;
      allowed = false;
      broker = b;
      world = w;
    }
    handle true line b = elim (decode_request p line) [
      | err e ↦ record { reply = err (protocol e); allowed = false; broker = b; world = w }
      | ok request ↦ admitted request (admit request b)
    ]
