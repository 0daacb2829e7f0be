-- ===== src/Tests/EnforcementRuns.antt =====
-- A write tool of alice, who may restart services, under a rule that asks for a confirmation.
use yunohost_mcp.Prelude.{ℕ, suc, ◌≡◌, ◌⊎◌, refl, true, false, none, some, [], ◌∷◌, arith}
use yunohost_mcp.Prelude.Dict
use yunohost_mcp.Prelude.Int.{pos}
use yunohost_mcp.Prelude.Json.{Fields, field, end, str, obj, null, get_field}
use yunohost_mcp.Prelude.Result.{ok}
use yunohost_mcp.Platform.{Platform}
use yunohost_mcp.Policy.Scopes.{services_restart}
use yunohost_mcp.Policy.Roles.{operator}
use yunohost_mcp.Policy.Rules.{confirmed}
use yunohost_mcp.Policy.Confirmation.{new_store, drop}
use yunohost_mcp.Policy.Confirmation.Ticket.{ConfirmationTicket}
use yunohost_mcp.Policy.Locks.{new_lock}
use yunohost_mcp.Policy.Enforcement.{Server, Tool, Gate, rule_of, require_confirmation}
use yunohost_mcp.Policy.Enforcement.Cleared.{Cleared}
use yunohost_mcp.Policy.Enforcement.Confirming.{require_confirmation-twice}
use yunohost_mcp.Auth.Identity.{AuthenticatedRequest, has_scope}
use yunohost_mcp.Audit.Decorator.{Audited, write_tool}
use yunohost_mcp.Audit.Decorator.Guarded.{write_tool-guarded}
use yunohost_mcp.Tests.Demo.{demo, alice, event_of}

abbrev p : Platform
p = demo (event_of (pos 1) [])

abbrev restart : Fields
restart = field "names" (str "nginx") end

abbrev caller : AuthenticatedRequest
caller = record {
  pubkey = alice;
  event_id = "e1";
  event_created_at = pos 100;
  identity = some (record {
    pubkey = alice;
    name = "alice";
    roles = "operator" ∷ [];
    scopes = operator;
    expires = none;
    armada_key_path = none;
  });
}

abbrev gate : Gate ℕ
gate = record {
  policy_key = λ arguments. "services.restart";
  policy = ("services.restart", confirmed) ∷ [];
  plan_builder = none;
  checks = λ rule w. ok tt;
  defer_to_broker = λ w. false;
  owner_signature_pending_hook = true;
  hint = λ ticket. "";
}

abbrev audited : Audited
audited = record {
  tool_name = "services.restart";
  function_name = "service_restart";
  argument_sanitizer = none;
  message = λ e. "";
  audit_id = "mcp-1";
  timestamp = pos 100;
}

-- A tool that counts its calls.
abbrev count_call : Tool ℕ
count_call id arguments s = (ok null, record s { world = suc s.world })

abbrev idle : Server ℕ
idle = record {
  confirmation_store = new_store 300 none;
  consumed_ticket = none;
  notified = [];
  denials = [];
  write_lock = new_lock;
  audit_log = none;
  world = 0;
}

rule_asks : (rule_of gate.policy (gate.policy_key restart)).require_confirmation ≡ true
unfolding Dict.get
rule_asks = refl

rule_alone : (rule_of gate.policy (gate.policy_key restart)).require_owner_signature ≡ false
unfolding Dict.get
rule_alone = refl

none_empty : Dict.get idle.confirmation_store.pending "" ≡ none
unfolding Dict.get
none_empty = refl

require_confirmation-twice_example :
    (fields : Fields) × (s' : Server ℕ) × (ticket : ConfirmationTicket) × (require_confirmation p
        gate 10 "c1"
        (some caller)
        count_call
        none
        restart
        idle
      ≡ (ok (obj fields), s'))
    × (get_field fields "confirmation_id" ≡ some (str "c1"))
    × (s'.world ≡ 0)
    × (require_confirmation p gate 20 "c2" (some caller) count_call (some "c1") restart s'
        ≡ count_call (some "c1") restart (record s' {
          confirmation_store = drop "c1" s'.confirmation_store;
          consumed_ticket = some ticket;
        }))
require_confirmation-twice_example =
    require_confirmation-twice p gate 10 20 "c1" "c2" caller count_call restart idle rule_asks
      rule_alone refl refl none_empty (ground arith)

write_tool-guarded_example :
    ((write_tool p audited gate services_restart 10 "c1"
        (some caller)
        count_call
        none
        restart
        idle).1.world
      ≡ 0)
    ⊎ ((request : AuthenticatedRequest) × (some caller ≡ some request)
        × (has_scope request services_restart ≡ true)
        × (false ≡ false)
        × (gate.checks (rule_of gate.policy (gate.policy_key restart)) 0 ≡ ok tt)
        × Cleared p gate 10 "c1" none
            (record {
              pubkey = request.pubkey;
              tool = gate.policy_key restart;
              arguments = restart;
            })
            (rule_of gate.policy (gate.policy_key restart))
            idle.confirmation_store)
write_tool-guarded_example =
    write_tool-guarded p audited gate services_restart 10 "c1" (some caller) count_call none restart
      idle
