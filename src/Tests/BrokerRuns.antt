-- ===== src/Tests/BrokerRuns.antt =====
-- The broker on requests of alice.
use yunohost_mcp.Prelude.{ℕ, suc, String, ◌≡◌, refl, ◌⊎◌, true, false, none, some, [], ◌∷◌, arith}
use yunohost_mcp.Prelude.Dict
use yunohost_mcp.Prelude.Int.{pos}
use yunohost_mcp.Prelude.Json.{field, end, str, obj, null, get_field}
use yunohost_mcp.Prelude.Result.{ok}
use yunohost_mcp.Platform.{Platform}
use yunohost_mcp.Policy.Roles.{readonly}
use yunohost_mcp.Policy.Rules.{confirmed, default_policy, check_free_space, check_recent_backup}
use yunohost_mcp.Policy.Confirmation.Ticket.{new_ticket, hash_arguments, operation_hash}
use yunohost_mcp.Policy.Confirmation.Sqlite
use yunohost_mcp.Policy.Confirmation.Sqlite.{SqliteConfirmationStore, row_of, ticket_of}
use yunohost_mcp.Auth.Nip98.{nip98_kind}
use yunohost_mcp.Auth.Replay.{new_cache}
use yunohost_mcp.Auth.Revocation
use yunohost_mcp.Auth.Identity.{IdentityRecord, fixed}
use yunohost_mcp.Broker.Protocol.{BrokerRequest, to_dict, decode_request}
use yunohost_mcp.Broker.Protocol.Roundtrip.{IsBounded, decode_request-to_dict}
use yunohost_mcp.Broker.Operations.{operations, policy_name_for_operation}
use yunohost_mcp.Broker.Helper.{
  Clock, Settings, Broker, Adapter, check_operation_policy, bound_arguments,
}
use yunohost_mcp.Broker.Helper.Confirmed.{Takes, check_operation_policy_sound}
use yunohost_mcp.Broker.Handle.{handle}
use yunohost_mcp.Broker.Handle.World.{IsCalled, handle_world}
use yunohost_mcp.Tests.Demo.{demo, alice, server, event_of}

abbrev request : BrokerRequest
request = record {
  request_id = "r1";
  operation = "server.info";
  arguments = end;
  authorization = some "nostr abc";
  method = some "GET";
  url = some "https://host/mcp";
  body_sha256 = none;
  body_b64 = none;
  delegation = none;
}

abbrev p : Platform
p =
    record (demo
      (event_of nip98_kind (("u" ∷ "https://host/mcp" ∷ []) ∷ ("method" ∷ "GET" ∷ []) ∷ []))) {
        loads = λ b. some (obj (to_dict request));
      }

request-IsBounded : IsBounded request
request-IsBounded = record { request_id = refl; operation = refl }

decode_request-to_dict_example : decode_request p (123 ∷ 125 ∷ []) ≡ ok request
decode_request-to_dict_example =
    decode_request-to_dict p request (123 ∷ 125 ∷ []) request-IsBounded (ground arith) refl

abbrev reader : IdentityRecord
reader = record {
  pubkey = alice;
  name = "alice";
  roles = "readonly" ∷ [];
  scopes = readonly;
  expires = none;
  armada_key_path = none;
}

abbrev cfg : Settings
cfg = record {
  policy_rules = default_policy;
  identity_store = fixed ((alice, reader) ∷ []);
  server_pubkey = server;
  revocation_store = Revocation.fixed [];
}

abbrev clock : Clock
clock = record { seconds = pos 110; tick = 7; now = 5; second = 6 }

-- A host that counts the calls of the adapter.
abbrev adapter : Adapter ℕ
adapter = record {
  free_space = λ w. 3000000000;
  backups = λ w. [];
  invoke = λ call w. (ok null, suc w);
}

abbrev idle : Broker
idle = record {
  replay_cache = new_cache 300;
  confirmation_store = none;
  package_test_sessions = record { ttl_seconds = 1800; rows = [] };
}

handle_world_example :
    ((handle p cfg clock adapter 0 true [] idle).world ≡ 0)
    ⊎ IsCalled p cfg clock adapter 0 [] idle (handle p cfg clock adapter 0 true [] idle).world
handle_world_example = handle_world p cfg clock adapter 0 true [] idle

denied : (handle p cfg clock adapter 0 false [] idle).allowed ≡ false
unfolding handle
denied = refl

info_registered : Dict.get operations "server.info" ≡ some "server.read"
unfolding Dict.get
info_registered = refl

stop_named : policy_name_for_operation "service.stop" end ≡ some "services.stop"
unfolding policy_name_for_operation Dict.get
stop_named = refl

abbrev stop : BrokerRequest
stop = record request {
  operation = "service.stop";
  arguments = field "confirmation_id" (str "t1") end;
}

abbrev with_ticket : Broker
with_ticket = record idle {
  confirmation_store = some (record {
    ttl_seconds = 60;
    owner_approval_ttl_seconds = 300;
    rows =
        (
          "t1",
          row_of p (new_ticket p "t1" alice "services.stop" (field "names" null end) null 0 60),
        )
        ∷ [];
  });
}

stop_key : policy_name_for_operation stop.operation stop.arguments ≡ some "services.stop"
unfolding policy_name_for_operation Dict.get
stop_key = refl

stop_rule : Dict.get cfg.policy_rules "services.stop" ≡ some confirmed
unfolding Dict.get
stop_rule = refl

stop_checked :
    check_operation_policy p cfg clock adapter 0 stop alice with_ticket
    ≡ (ok (some "t1"), (check_operation_policy p cfg clock adapter 0 stop alice with_ticket).1)
unfolding check_operation_policy policy_name_for_operation Dict.get Dict.put get_field
    check_free_space check_recent_backup bound_arguments Sqlite.consume row_of ticket_of new_ticket
    hash_arguments operation_hash
stop_checked = refl

check_operation_policy_sound_example :
    (check_free_space confirmed 3000000000 ≡ ok tt)
    × (true ≡ true
        → (id : String) × (some "t1" ≡ some id)
          × Takes p cfg clock stop alice "services.stop" confirmed with_ticket id)
check_operation_policy_sound_example =
    check_operation_policy_sound p cfg clock adapter 0 stop alice "services.stop" confirmed
      with_ticket (check_operation_policy p cfg clock adapter 0 stop alice with_ticket).1
      (some "t1") stop_key stop_rule stop_checked
