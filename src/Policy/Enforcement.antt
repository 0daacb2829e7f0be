-- ===== src/Policy/Enforcement.antt =====
-- src/yunohost_mcp/policy/enforcement.py: the wrappers of a tool, over what a tool call changes. The
-- argument confirmation_id is kept apart from the others here. The two hooks are recorded as what they
-- have been called with.
pub mod Cleared
pub mod Confirming
use yunohost_mcp.Prelude.{
  ℕ, String, Bool, true, false, not, ◌&&◌, ◌||◌, Option, none, some, List, [], ◌∷◌, ◌==◌, is_some,
  if◌then◌else◌,
}
use yunohost_mcp.Prelude.Dict
use yunohost_mcp.Prelude.Dict.{Dict}
use yunohost_mcp.Prelude.Int.{pos}
use yunohost_mcp.Prelude.Json.{Json, Fields, bool, int, str, obj, end, field}
use yunohost_mcp.Prelude.Result.{Result, ok, err}
use yunohost_mcp.Platform.{Platform}
use yunohost_mcp.Policy.Scopes.{Scope}
use yunohost_mcp.Policy.Rules.{PolicyRule, PolicyViolation, no_rule}
use yunohost_mcp.Policy.Confirmation.{ConfirmationStore, Call, consume, create, peek}
use yunohost_mcp.Policy.Confirmation.Ticket.{ConfirmationError, ConfirmationTicket, hash_arguments}
use yunohost_mcp.Policy.Locks.{WriteLock}
use yunohost_mcp.Auth.Identity.{AuthenticatedRequest, has_scope}
use yunohost_mcp.Audit.Log.{AuditError, File}

-- A ConfirmationError: the store's, or one of the three of the deferred branch.
pub data Refusal : Type 0 where
  stored : ConfirmationError → Refusal
  other_request other_arguments unapproved : Refusal

-- What a wrapped tool raises.
pub data Raised : Type 0 where
  no_request scope_error : Raised
  policy_violation : PolicyViolation → Raised
  confirmation_error : Refusal → Raised
  owner_config tool_input unavailable : String → Raised
  locked_error : Raised
  audit_error : AuditError → Raised
  unexpected : String → Raised
  tool_error : Raised → Raised

-- What a tool call changes: W is the state of the host, which only the tools themselves change.
pub record Server (W : Type 0) : Type 0 where
  pub confirmation_store : ConfirmationStore
  pub consumed_ticket : Option ConfirmationTicket
  pub notified : List ConfirmationTicket
  pub denials : List (String × Scope)
  pub write_lock : WriteLock
  pub audit_log : File
  pub world : W

-- A call of a function with its confirmation_id and its other arguments.
abbrev pub Tool : Type 0 → Type 0
Tool W = Option String → Fields → Server W → Result Raised Json × Server W

-- The arguments of `require_confirmation`; `hint` is the wording of next_step.
pub record Gate (W : Type 0) : Type 0 where
  pub policy_key : Fields → String
  pub policy : Dict PolicyRule
  pub plan_builder : Option (Fields → Json)
  pub checks : PolicyRule → W → Result PolicyViolation (Unit {0})
  pub defer_to_broker : W → Bool
  pub owner_signature_pending_hook : Bool
  pub hint : ConfirmationTicket → String

-- bool(confirmation_id), and `confirmation_id or ""`
abbrev pub presented : Option String → Bool
presented none = false
presented (some s) = not (s == "")

abbrev pub id_or_empty : Option String → String
id_or_empty none = ""
id_or_empty (some s) = s

-- policy.get(key, PolicyRule())
abbrev pub rule_of : Dict PolicyRule → String → PolicyRule
rule_of policy key = elim (Dict.get policy key) [ none ↦ no_rule | some rule ↦ rule ]

-- _KNOWN_EXPECTED_ERRORS
translated : Raised → Raised
translated scope_error = tool_error scope_error
translated (policy_violation v) = tool_error (policy_violation v)
translated (confirmation_error e) = tool_error (confirmation_error e)
translated (owner_config m) = tool_error (owner_config m)
translated (tool_input m) = tool_error (tool_input m)
translated (unavailable m) = tool_error (unavailable m)
translated e = e

module _ {W : Type 0} where
  -- `require_scope`
  unfoldable pub require_scope :
      Bool → String → Scope → Option AuthenticatedRequest → Tool W → Tool W
  require_scope hook name scope none fn id arguments s = (err no_request, s)
  require_scope hook name scope (some request) fn id arguments s =
      if has_scope request scope
      then fn id arguments s
      else (err scope_error, if hook then record s { denials = (name, scope) ∷ s.denials } else s)

  translated_answer : Result Raised Json × Server W → Result Raised Json × Server W
  translated_answer (err e, s) = (err (translated e), s)
  translated_answer (ok v, s) = (ok v, s)

  -- `translate_known_errors`
  unfoldable pub translate_known_errors : Tool W → Tool W
  unfolding translated_answer translated
  translate_known_errors fn id arguments s = translated_answer (fn id arguments s)

  module _ (p : Platform) (gate : Gate W) (now : ℕ) (new_id : String) where
    -- The checks of a ticket that the broker is to consume.
    deferred_check :
        Call
        → Bool
        → Result ConfirmationError ConfirmationTicket × ConfirmationStore
        → Result Refusal ConfirmationTicket × ConfirmationStore
    deferred_check call owner (err e, store) = (err (stored e), store)
    deferred_check call owner (ok ticket, store) =
        if not (ticket.pubkey == call.pubkey) || not (ticket.tool == call.tool)
        then (err other_request, store)
        else if not (ticket.arguments_hash == hash_arguments p call.arguments)
        then (err other_arguments, store)
        else if owner && not (is_some ticket.owner_approved_by)
        then (err unapproved, store)
        else (ok ticket, store)

    consumed_now :
        Result ConfirmationError ConfirmationTicket × ConfirmationStore
        → Result Refusal ConfirmationTicket × ConfirmationStore
    consumed_now (err e, store) = (err (stored e), store)
    consumed_now (ok ticket, store) = (ok ticket, store)

    -- The `try` of the wrapper, without set_consumed_ticket.
    confirm :
        Option String
        → Call
        → Bool
        → Server W
        → Result Refusal ConfirmationTicket × ConfirmationStore
    unfolding deferred_check consumed_now
    confirm id call owner s =
        if presented id && gate.defer_to_broker s.world
        then deferred_check call owner (peek now (id_or_empty id) s.confirmation_store)
        else consumed_now (consume p now (id_or_empty id) call owner false s.confirmation_store)

    abbrev plan_of : Call → Json
    plan_of call = elim gate.plan_builder [
      | none ↦ obj (field "tool" (str call.tool) (field "arguments" (obj call.arguments) end))
      | some build ↦ build call.arguments
    ]

    abbrev next_step : Bool → ConfirmationTicket → Fields
    next_step false ticket = end
    next_step true ticket = field "next_step" (str (gate.hint ticket)) end

    -- The answer that asks for a confirmation.
    abbrev pub response : ConfirmationTicket → Bool → Fields
    response ticket owner = field "confirmation_required" (bool true) (
        field "operation_plan" ticket.plan (
          field "confirmation_id" (str ticket.confirmation_id) (
            field "operation_hash" (str ticket.operation_hash) (
              field "expires_at" (int (pos ticket.expires_at))
                (field "owner_signature_required" (bool owner) (next_step owner ticket))))))

    -- The `except` of the wrapper, where no confirmation_id was given.
    issue : Call → Bool → Server W → Result Raised Json × Server W
    issue call owner s =
        let (ticket, store) = create p now new_id call (plan_of call) owner s.confirmation_store in
        let notified =
          if owner && gate.owner_signature_pending_hook then ticket ∷ s.notified else s.notified in
        (
          ok (obj (response ticket owner)),
          record s { confirmation_store = store; notified = notified },
        )

    confirmed :
        Tool W
        → Option String
        → Call
        → Bool
        → Server W
        → Result Refusal ConfirmationTicket × ConfirmationStore
        → Result Raised Json × Server W
    unfolding issue
    confirmed fn id call owner s (ok ticket, store) =
        fn id call.arguments
          (record s { confirmation_store = store; consumed_ticket = some ticket })
    confirmed fn id call owner s (err e, store) =
        let s' = record s { confirmation_store = store } in
        if presented id then (err (confirmation_error e), s') else issue call owner s'

    ruled : Tool W → Option String → Call → PolicyRule → Server W → Result Raised Json × Server W
    unfolding confirm confirmed
    ruled fn id call rule s = elim (gate.checks rule s.world) [
      | err v ↦ (err (policy_violation v), s)
      | ok _ ↦
          if rule.require_confirmation
          then confirmed fn id call rule.require_owner_signature s
              (confirm id call rule.require_owner_signature s)
          else fn id call.arguments s
    ]

    -- `require_confirmation`
    unfoldable pub require_confirmation : Option AuthenticatedRequest → Tool W → Tool W
    unfolding ruled
    require_confirmation none fn id arguments s = (err no_request, s)
    require_confirmation (some request) fn id arguments s =
        let key = gate.policy_key arguments in
        ruled fn id (record { pubkey = request.pubkey; tool = key; arguments = arguments })
          (rule_of gate.policy key) s
