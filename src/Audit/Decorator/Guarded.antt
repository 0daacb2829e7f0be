-- ===== src/Audit/Decorator/Guarded.antt =====
-- A write tool as src/yunohost_mcp/server.py wraps it.
use yunohost_mcp.Prelude.{
  ℕ, String, ◌≡◌, ◌⊎◌, ◌∙◌, refl, ap, true, false, Option, none, some, arith, Bool-cases, inl, inr,
}
use yunohost_mcp.Prelude.Json.{Json, Fields}
use yunohost_mcp.Prelude.Result.{Result, ok, err}
use yunohost_mcp.Platform.{Platform}
use yunohost_mcp.Policy.Scopes.{Scope}
use yunohost_mcp.Policy.Enforcement.{
  Raised, audit_error, Server, Tool, Gate, rule_of, require_confirmation, require_scope,
  translate_known_errors,
}
use yunohost_mcp.Policy.Enforcement.Cleared.{
  Cleared, require_confirmation-Cleared, translate_known_errors-left,
}
use yunohost_mcp.Auth.Identity.{AuthenticatedRequest, has_scope}
use yunohost_mcp.Audit.Log.{AuditError, File, record_entry}
use yunohost_mcp.Audit.Decorator.{
  Audited, audited_write, recorded, unlocked, under_lock, outcome_of, entry_of, kwargs_of,
  redacted_answer, write_tool,
}

module _ {W : Type 0} (p : Platform) (audited : Audited) where
  recorded_world :
      (caller : String) (kwargs : Fields) (answer : Result Raised Json × Server W)
      → ((recorded p audited caller kwargs answer).1.world ≡ answer.1.world)
        × ((recorded p audited caller kwargs answer).1.write_lock ≡ answer.1.write_lock)
        × ((recorded p audited caller kwargs answer).1.consumed_ticket ≡ none)
  unfolding recorded
  recorded_world caller kwargs (answer, s) = (ground arith, ground arith, ground arith)

  unlocked_lem :
      (answer : Result Raised Json × Server W)
      → ((unlocked p audited answer).1.world ≡ answer.1.world)
        × ((unlocked p audited answer).1.write_lock.held ≡ false)
  unfolding unlocked
  unlocked_lem (answer, s) = (refl, refl)

  under_lock_world :
      (fn : Tool W) (id : Option String) (arguments : Fields) (s : Server W)
      → ((under_lock p audited fn id arguments s).1.world ≡ s.world)
        ⊎ ((s.write_lock.held ≡ false)
            × ((under_lock p audited fn id arguments s).1.world
                ≡ (fn id arguments (record s { write_lock = record { held = true } })).1.world))
  unfolding under_lock
  under_lock_world fn id arguments s = elim (Bool-cases s.write_lock.held) [
    | inl held ↦ inl (ground (arith, held))
    | inr free ↦
        let (world, released) =
          unlocked_lem (fn id arguments (record s { write_lock = record { held = true } })) in
        inr (free, ground (arith, free, world))
  ]

  -- The log has one entry more, or its error is raised.
  pub IsRecorded :
      String → Fields → Result Raised Json → Server W → Result Raised Json × Server W → Type 0
  IsRecorded caller kwargs answer s after =
      ((file : File) × (record_entry p audited.audit_id audited.timestamp
            (entry_of p audited caller s.consumed_ticket kwargs (outcome_of p audited answer))
            s.audit_log
          ≡ ok file)
        × (after.0 ≡ answer)
        × (after.1.audit_log ≡ file))
      ⊎ ((e : AuditError) × (after.0 ≡ err (audit_error e)))

  recorded_lem :
      (caller : String) (kwargs : Fields) (answer : Result Raised Json) (s : Server W)
      → IsRecorded caller kwargs answer s (recorded p audited caller kwargs (answer, s))
  unfolding IsRecorded recorded
  recorded_lem caller kwargs answer s =
      by_log
        (record_entry p audited.audit_id audited.timestamp
          (entry_of p audited caller s.consumed_ticket kwargs (outcome_of p audited answer))
          s.audit_log)
        refl
    where
      by_log :
          (read : Result AuditError File)
          → record_entry p audited.audit_id audited.timestamp
              (entry_of p audited caller s.consumed_ticket kwargs (outcome_of p audited answer))
              s.audit_log
            ≡ read
          → IsRecorded caller kwargs answer s (recorded p audited caller kwargs (answer, s))
      by_log (err e) failed = inr (e, ground (arith, failed))
      by_log (ok file) written =
          inl (file, written, ground (arith, written), ground (arith, written))

  -- What a call of a known caller leaves on the log: one entry with the outcome of the tool, after what
  -- the tool itself has left there; or the log's error is raised in place of the outcome.
  pub audited_write-IsRecorded :
      (request : AuthenticatedRequest) (fn : Tool W) (id : Option String) (arguments : Fields)
      (s : Server W)
      → IsRecorded request.pubkey
          (kwargs_of id arguments)
          (under_lock p audited fn id arguments s).0
          (under_lock p audited fn id arguments s).1
          (audited_write p audited (some request) fn id arguments s)
  unfolding audited_write
  audited_write-IsRecorded request fn id arguments s =
      let (answer, s') = under_lock p audited fn id arguments s in
      recorded_lem request.pubkey (kwargs_of id arguments) answer s'

  audited_write_world :
      (request : AuthenticatedRequest) (fn : Tool W) (id : Option String) (arguments : Fields)
      (s : Server W)
      → ((audited_write p audited (some request) fn id arguments s).1.world ≡ s.world)
        ⊎ ((s.write_lock.held ≡ false)
            × ((audited_write p audited (some request) fn id arguments s).1.world
                ≡ (fn id arguments (record s { write_lock = record { held = true } })).1.world))
  unfolding audited_write
  audited_write_world request fn id arguments s =
      let (world, _, _) =
        recorded_world request.pubkey (kwargs_of id arguments)
          (under_lock p audited fn id arguments s) in
      elim (under_lock_world fn id arguments s) [
        | inl same ↦ inl (world ∙ same)
        | inr (free, ran) ↦ inr (free, world ∙ ran)
      ]

  module _ (gate : Gate W) (scope : Scope) (now : ℕ) (new_id : String) where
    redacted_answer_left :
        (answer : Result Raised Json × Server W)
        → (redacted_answer p answer).1.world ≡ answer.1.world
    redacted_answer_left (err e, s) = refl
    redacted_answer_left (ok v, s) = refl

    write_tool_world :
        (who : Option AuthenticatedRequest) (fn : Tool W) (id : Option String) (arguments : Fields)
        (s : Server W)
        → (write_tool p audited gate scope now new_id who fn id arguments s).1.world
          ≡ (require_scope true audited.function_name scope who
              (audited_write p audited who (require_confirmation p gate now new_id who fn))
              id
              arguments
              s).1.world
    unfolding write_tool
    write_tool_world who fn id arguments s =
        let inner =
          require_scope true audited.function_name scope who
            (audited_write p audited who (require_confirmation p gate now new_id who fn)) in
        redacted_answer_left (translate_known_errors inner id arguments s)
        ∙ ap (λ after. after.world) (translate_known_errors-left inner id arguments s)

    -- A write tool leaves the host as it was, unless the caller has the tool's scope, the write lock is
    -- free, the hard checks of the tool's policy rule pass, and the rule asks for no confirmation or a
    -- live ticket for this caller, policy key and arguments is presented, which the owner has approved
    -- where the rule asks for it.
    pub write_tool-guarded :
        (who : Option AuthenticatedRequest) (fn : Tool W) (id : Option String) (arguments : Fields)
        (s : Server W)
        → ((write_tool p audited gate scope now new_id who fn id arguments s).1.world ≡ s.world)
          ⊎ ((request : AuthenticatedRequest) × (who ≡ some request)
              × (has_scope request scope ≡ true)
              × (s.write_lock.held ≡ false)
              × (gate.checks (rule_of gate.policy (gate.policy_key arguments)) s.world ≡ ok tt)
              × Cleared p gate now new_id id
                  (record {
                    pubkey = request.pubkey;
                    tool = gate.policy_key arguments;
                    arguments = arguments;
                  })
                  (rule_of gate.policy (gate.policy_key arguments))
                  s.confirmation_store)
    unfolding require_scope
    write_tool-guarded none fn id arguments s = inl (write_tool_world none fn id arguments s)
    write_tool-guarded (some request) fn id arguments s =
        let same = write_tool_world (some request) fn id arguments s in
        let inner = require_confirmation p gate now new_id (some request) fn in
        let locked = record s { write_lock = record { held = true } } in
        elim (Bool-cases (has_scope request scope)) [
          | inr lacking ↦ inl (ground (arith, same, lacking))
          | inl allowed ↦ elim (audited_write_world request inner id arguments s) [
            | inl unchanged ↦ inl (ground (arith, same, allowed, unchanged))
            | inr (free, ran) ↦
                elim (require_confirmation-Cleared p gate now new_id (some request) fn id arguments
                  locked) [
                    | inl kept ↦ inl (ground (arith, same, allowed, ran, kept))
                    | inr (known, is, passed, cleared) ↦
                        inr (known, is, cc (is, allowed), free, passed, cleared)
                  ]
          ]
        ]
