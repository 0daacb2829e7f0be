-- ===== src/Audit/Decorator.antt =====
-- src/yunohost_mcp/audit/decorator.py: `audited_write`, which runs a tool under the write lock and
-- records what became of it. The ids of operations are texts here.
pub mod Guarded
use yunohost_mcp.Prelude.{
  ℕ, String, Bool, true, false, Option, none, some, List, [], ◌∷◌, if◌then◌else◌,
}
use yunohost_mcp.Prelude.Int.{ℤ}
use yunohost_mcp.Prelude.Json.{Json, Fields, null, bool, int, str, arr, obj, end, field, get_field}
use yunohost_mcp.Prelude.Result.{Result, ok, err}
use yunohost_mcp.Platform.{Platform}
use yunohost_mcp.Redaction.{redact_response}
use yunohost_mcp.Policy.Scopes.{Scope}
use yunohost_mcp.Policy.Rules.{truthy}
use yunohost_mcp.Policy.Locks.{WriteLock, acquire, release}
use yunohost_mcp.Policy.Confirmation.Ticket.{ConfirmationTicket}
use yunohost_mcp.Policy.Enforcement.{
  Raised, no_request, locked_error, audit_error, Server, Tool, Gate, require_scope,
  translate_known_errors, require_confirmation,
}
use yunohost_mcp.Auth.Identity.{AuthenticatedRequest}
use yunohost_mcp.Audit.Log.{AuditEntry, File, text_of, append_fields, record_entry}

-- What a call of a tool is recorded with: `result`, `yunohost_operation` and `error`.
pub record AuditOutcome : Type 0 where
  pub result : String
  pub yunohost_operation : Option String
  pub error : Option String

-- The keyword arguments of a call.
abbrev pub kwargs_of : Option String → Fields → Fields
kwargs_of none arguments = arguments
kwargs_of (some id) arguments = append_fields arguments (field "confirmation_id" (str id) end)

abbrev is_given : Option Json → Bool
is_given none = false
is_given (some v) = truthy v

-- The outcome of a result that is returned.
abbrev pub outcome_of_result : Json → AuditOutcome
outcome_of_result (obj fs) =
    if is_given (get_field fs "confirmation_required")
    then record { result = "confirmation_pending"; yunohost_operation = none; error = none }
    else record {
      result = "success";
      yunohost_operation = text_of (get_field fs "operation_id");
      error = none;
    }
outcome_of_result _ = record { result = "success"; yunohost_operation = none; error = none }

-- The parts of a tool that `audited_write` is given, the name of its function, and the id and the time
-- of the new entry.
pub record Audited : Type 0 where
  pub tool_name : String
  pub function_name : String
  pub argument_sanitizer : Option (Fields → Fields)
  pub message : Raised → String
  pub audit_id : String
  pub timestamp : ℤ

abbrev pub audit_arguments : Option (Fields → Fields) → Fields → Fields
audit_arguments none arguments = arguments
audit_arguments (some sanitize) arguments = sanitize arguments

-- `ticket.owner_approved_by if ticket else None`
abbrev pub approved_by_of : Option ConfirmationTicket → Option String
approved_by_of none = none
approved_by_of (some ticket) = ticket.owner_approved_by

module _ (p : Platform) (audited : Audited) where
  unfoldable pub outcome_of : Result Raised Json → AuditOutcome
  outcome_of (ok v) = outcome_of_result v
  outcome_of (err locked_error) = record {
    result = "locked";
    yunohost_operation = none;
    error = some (audited.message locked_error);
  }
  outcome_of (err e) = record {
    result = "error";
    yunohost_operation = none;
    error = some (audited.message e);
  }

  -- The entry of a call.
  abbrev pub entry_of : String → Option ConfirmationTicket → Fields → AuditOutcome → AuditEntry
  entry_of caller ticket kwargs outcome = record {
    tool = audited.tool_name;
    arguments = audit_arguments audited.argument_sanitizer kwargs;
    caller_pubkey = caller;
    decision = "allowed";
    result = outcome.result;
    yunohost_operation = outcome.yunohost_operation;
    error = outcome.error;
    approved_by = approved_by_of ticket;
    request_id = none;
    execution_context = none;
  }

  module _ {W : Type 0} where
    -- audit_log.record, and what is then returned or raised
    recorded : String → Fields → Result Raised Json × Server W → Result Raised Json × Server W
    recorded caller kwargs (answer, s) =
        let s' = record s { consumed_ticket = none } in
        elim (record_entry p audited.audit_id audited.timestamp
          (entry_of caller s.consumed_ticket kwargs (outcome_of answer)) s.audit_log) [
            | err e ↦ (err (audit_error e), s')
            | ok file ↦ (answer, record s' { audit_log = file })
          ]

    unlocked : Result Raised Json × Server W → Result Raised Json × Server W
    unlocked (answer, s) = (answer, record s { write_lock = release s.write_lock })

    -- `with lock.locked(): result = fn(*args, **kwargs)`
    unfoldable pub under_lock : Tool W → Tool W
    unfolding unlocked
    under_lock fn id arguments s = elim (acquire s.write_lock) [
      | none ↦ (err locked_error, s)
      | some l ↦ unlocked (fn id arguments (record s { write_lock = l }))
    ]

    -- `audited_write`
    unfoldable pub audited_write : Option AuthenticatedRequest → Tool W → Tool W
    unfolding recorded under_lock
    audited_write none fn id arguments s = (err no_request, s)
    audited_write (some request) fn id arguments s =
        recorded request.pubkey (kwargs_of id arguments) (under_lock fn id arguments s)

-- What redact_response makes of an answer.
abbrev redacted_answer :
    {W : Type 0} → Platform → Result Raised Json × Server W → Result Raised Json × Server W
redacted_answer p (err e, s) = (err e, s)
redacted_answer p (ok v, s) = (ok (redact_response p v), s)

-- A write tool with all its wrappers, in their order.
unfoldable pub write_tool :
    {W : Type 0}
    → Platform
    → Audited
    → Gate W
    → Scope
    → ℕ
    → String
    → Option AuthenticatedRequest
    → Tool W
    → Tool W
write_tool p audited gate scope now new_id who fn id arguments s = redacted_answer p (
    translate_known_errors
      (require_scope true audited.function_name scope who
        (audited_write p audited who (require_confirmation p gate now new_id who fn)))
      id arguments s)
