-- ===== src/Broker/Helper.antt =====
-- src/yunohost_mcp/broker/helper.py: a request from the socket, its checks, the call of the adapter
-- and what is left of its confirmation. The broker's state is the replay cache and the confirmation
-- table; W is the state of the host, which only the adapter changes.
pub mod Confirmed
use yunohost_mcp.Prelude.{
  ℕ, String, Bool, true, false, not, ◌||◌, Option, none, some, List, [], ◌∷◌, ◌==◌, eqb, length,
  if◌then◌else◌,
}
use yunohost_mcp.Prelude.Dict
use yunohost_mcp.Prelude.Dict.{Dict}
use yunohost_mcp.Prelude.Int.{ℤ}
use yunohost_mcp.Prelude.Json.{Json, Fields, null, str, end, field, get_field}
use yunohost_mcp.Prelude.Result.{Result, ok, err}
use yunohost_mcp.Platform.{Platform}
use yunohost_mcp.Policy.Rules.{truthy, PolicyRule, check_free_space, check_recent_backup}
use yunohost_mcp.Policy.PackageSessions.{PackageTestSessionStore, PackageTestSessionError}
use yunohost_mcp.Policy.Confirmation.{Call}
use yunohost_mcp.Policy.Confirmation.Ticket.{ConfirmationTicket}
use yunohost_mcp.Policy.Confirmation.Sqlite
use yunohost_mcp.Policy.Confirmation.Sqlite.{StoreError, SqliteConfirmationStore}
use yunohost_mcp.Auth.Nip98.{Nip98Error, Nip98Identity, verify_nip98_request}
use yunohost_mcp.Auth.Replay.{ReplayCache}
use yunohost_mcp.Auth.Identity.{AuthenticatedRequest, IdentityRecord, IdentityStore}
use yunohost_mcp.Auth.Revocation.{RevocationStore}
use yunohost_mcp.Auth.Middleware.{resolve_identity}
use yunohost_mcp.Broker.Protocol.{BrokerProtocolError, BrokerRequest, decode_original_body}
use yunohost_mcp.Broker.Calls.Arguments.{ArgumentError, AdapterCall}
use yunohost_mcp.Broker.Operations.{confirmation_argument_keys, policy_name_for_operation}

-- What is raised while a request is handled, by its messages.
pub data BrokerError : Type 0 where
  forbidden_peer incomplete not_authentic not_authorized no_operation no_scope : BrokerError
  low_space no_backup confirmation_required no_binding no_session : BrokerError
  session : PackageTestSessionError → BrokerError
  reply_too_long : BrokerError
  protocol : BrokerProtocolError → BrokerError
  confirmation : StoreError → BrokerError
  refused : ArgumentError → BrokerError
  failed : String → BrokerError

-- Readings of the clocks while one request is handled: in seconds, the monotonic one, and two of the
-- confirmation table's.
pub record Clock : Type 0 where
  pub seconds : ℤ
  pub tick : ℕ
  pub now : ℕ
  pub second : ℕ

-- What the broker reads of its configuration, and the skew that `verify_nip98_request` has by default.
pub record Settings : Type 0 where
  pub policy_rules : Dict PolicyRule
  pub identity_store : IdentityStore
  pub server_pubkey : String
  pub revocation_store : RevocationStore

pub record Broker : Type 0 where
  pub replay_cache : ReplayCache
  pub confirmation_store : Option SqliteConfirmationStore
  pub package_test_sessions : PackageTestSessionStore

abbrev pub default_clock_skew_seconds : ℕ
default_clock_skew_seconds = 60

-- The adapter: two readings of the host, and a call, which returns a value or raises.
pub record Adapter (W : Type 0) : Type 0 where
  pub free_space : W → ℕ
  pub backups : W → List (String × ℕ)
  pub invoke : AdapterCall → W → Result String Json × W

-- `{key: arguments.get(key) for key in keys}`
unfoldable pub bound_arguments : List String → Fields → Fields
bound_arguments [] arguments = end
bound_arguments (k ∷ ks) arguments =
    let rest = bound_arguments ks arguments in
    field k (elim (get_field arguments k) [ none ↦ null | some v ↦ v ]) rest

-- `bool(o)`, of an optional text
abbrev pub given : Option String → Bool
given none = false
given (some s) = not (s == "")

text_or_empty : Option String → String
text_or_empty none = ""
text_or_empty (some s) = s

module _ (p : Platform) (cfg : Settings) (clock : Clock) where
  identified : Nip98Identity → Option IdentityRecord → Result BrokerError AuthenticatedRequest
  identified who none = err not_authorized
  identified who (some r) = ok (record {
    pubkey = who.pubkey;
    event_id = who.event_id;
    event_created_at = who.created_at;
    identity = some r;
  })

  authorize_caller :
      Option String → Result Nip98Error Nip98Identity → Result BrokerError AuthenticatedRequest
  authorize_caller delegation (err e) = err not_authentic
  authorize_caller delegation (ok who) =
      elim (resolve_identity p clock.seconds cfg.identity_store (some cfg.server_pubkey)
        cfg.revocation_store who.pubkey delegation) [
          | err e ↦ err (failed "")
          | ok found ↦ identified who found
        ]

  authorize_body :
      BrokerRequest
      → Result BrokerProtocolError (List ℕ)
      → ReplayCache
      → Result BrokerError AuthenticatedRequest × ReplayCache
  unfolding text_or_empty authorize_caller identified
  authorize_body request (err e) cache = (err (protocol e), cache)
  authorize_body request (ok body) cache =
      let (verified, cache') =
        verify_nip98_request p clock.seconds clock.tick default_clock_skew_seconds
          request.authorization
          (record {
            method = text_or_empty request.method;
            url = text_or_empty request.url;
            body = body;
          })
          cache in
      (authorize_caller request.delegation verified, cache')

  -- `authorize_request`
  unfoldable pub authorize_request :
      BrokerRequest → ReplayCache → Result BrokerError AuthenticatedRequest × ReplayCache
  unfolding authorize_body identified
  authorize_request request cache =
      if not (given request.authorization) || not (given request.method) || not (given request.url)
      then (err incomplete, cache)
      else authorize_body request (decode_original_body p request) cache

-- The table, unless it is not configured or empty: `not store` is true of an empty one, by its length.
abbrev pub usable : Option SqliteConfirmationStore → Option SqliteConfirmationStore
usable none = none
usable (some s) = if eqb (length s.rows) 0 then none else some s

-- `arguments.get("app") or arguments.get("app_id")`
abbrev pub app_argument : Fields → Option Json
app_argument arguments = elim (get_field arguments "app") [
  | none ↦ get_field arguments "app_id"
  | some v ↦ if truthy v then some v else get_field arguments "app_id"
]

module _ (p : Platform) (cfg : Settings) (clock : Clock) where
  consumed :
      String
      → Result StoreError ConfirmationTicket × SqliteConfirmationStore
      → Broker
      → Result BrokerError (Option String) × Broker
  consumed id (err e, s) b = (err (confirmation e), record b { confirmation_store = some s })
  consumed id (ok t, s) b = (ok (some id), record b { confirmation_store = some s })

  consume_bound :
      String
      → Call
      → Bool
      → Option SqliteConfirmationStore
      → Broker
      → Result BrokerError (Option String) × Broker
  unfolding consumed
  consume_bound id call owner none b = (err confirmation_required, b)
  consume_bound id call owner (some s) b =
      consumed id (Sqlite.consume p clock.now clock.second id call owner true s) b

  -- The confirmation of `_check_operation_policy`.
  confirm :
      BrokerRequest
      → String
      → String
      → PolicyRule
      → Option Json
      → Broker
      → Result BrokerError (Option String) × Broker
  unfolding consume_bound
  confirm request pubkey policy_name rule (some (str id)) b = elim (usable b.confirmation_store) [
    | none ↦ (err confirmation_required, b)
    | some s ↦ elim (Dict.get confirmation_argument_keys request.operation) [
      | none ↦ (err no_binding, b)
      | some keys ↦
          consume_bound id
            (record {
              pubkey = pubkey;
              tool = policy_name;
              arguments = bound_arguments keys request.arguments;
            })
            rule.require_owner_signature (some s) b
    ]
  ]
  confirm request pubkey policy_name rule _ b = (err confirmation_required, b)

  module _ {W : Type 0} (adapter : Adapter W) (w : W) where
    -- The two hard requirements; a safe upgrade makes its own backup.
    hard : String → PolicyRule → Result BrokerError (Unit {0})
    hard name rule = elim (check_free_space rule (adapter.free_space w)) [
      | err _ ↦ err low_space
      | ok _ ↦
          if name == "safe.upgrade"
          then ok tt
          else elim (check_recent_backup rule (adapter.backups w) clock.now) [
            | err _ ↦ err no_backup
            | ok _ ↦ ok tt
          ]
    ]

    check_rule :
        BrokerRequest
        → String
        → String
        → PolicyRule
        → Broker
        → Result BrokerError (Option String) × Broker
    unfolding hard confirm
    check_rule request pubkey policy_name rule b = elim (hard request.operation rule) [
      | err e ↦ (err e, b)
      | ok _ ↦
          if rule.require_confirmation
          then confirm request pubkey policy_name rule
              (get_field request.arguments "confirmation_id") b
          else (ok none, b)
    ]

    -- `_check_operation_policy`, with the id of the confirmation that it holds
    unfoldable pub check_operation_policy :
        BrokerRequest → String → Broker → Result BrokerError (Option String) × Broker
    unfolding check_rule
    check_operation_policy request pubkey b =
        elim (policy_name_for_operation request.operation request.arguments) [
          | none ↦ (ok none, b)
          | some policy_name ↦ elim (Dict.get cfg.policy_rules policy_name) [
            | none ↦ (ok none, b)
            | some rule ↦ check_rule request pubkey policy_name rule b
          ]
        ]
