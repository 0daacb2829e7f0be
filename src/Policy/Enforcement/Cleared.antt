-- ===== src/Policy/Enforcement/Cleared.antt =====
-- A confirmed tool runs only on a ticket for this call.
use yunohost_mcp.Prelude.{
  ℕ, String, ◌≡◌, ◌⊎◌, refl, Bool, true, false, ◌&&◌, Option, none, some, eq_iff, arith, is_some,
  Bool-cases, inl, inr,
}
use yunohost_mcp.Prelude.Dict
use yunohost_mcp.Prelude.Json.{Json, Fields}
use yunohost_mcp.Prelude.Result.{Result, ok, err}
use yunohost_mcp.Platform.{Platform}
use yunohost_mcp.Policy.Rules.{PolicyRule, PolicyViolation}
use yunohost_mcp.Policy.Confirmation.{ConfirmationStore, Call, consume, peek}
use yunohost_mcp.Policy.Confirmation.Binding.{Authorises, consume_iff, peek_sound}
use yunohost_mcp.Policy.Confirmation.Ticket.{ConfirmationError, ConfirmationTicket, hash_arguments}
use yunohost_mcp.Auth.Identity.{AuthenticatedRequest}
use yunohost_mcp.Policy.Enforcement.{
  Refusal, Raised, translated_answer, translate_known_errors, Server, Tool, Gate, id_or_empty,
  presented, rule_of, deferred_check, consumed_now, confirm, confirmed, issue, ruled,
  require_confirmation,
}

module _ {W : Type 0} where
  translated_answer_left :
      (answer : Result Raised Json × Server W) → (translated_answer answer).1 ≡ answer.1
  unfolding translated_answer
  translated_answer_left (err e, s) = refl
  translated_answer_left (ok v, s) = refl

  -- The translation of errors changes no state.
  pub translate_known_errors-left :
      (fn : Tool W) (id : Option String) (arguments : Fields) (s : Server W)
      → (translate_known_errors fn id arguments s).1 ≡ (fn id arguments s).1
  unfolding translate_known_errors
  translate_known_errors-left fn id arguments s = translated_answer_left (fn id arguments s)

module _ {W : Type 0} (p : Platform) (gate : Gate W) (now : ℕ) (new_id : String) where
  -- The ticket is pending and is for this call.
  abbrev pub Holds : Option String → Call → Bool → ConfirmationStore → Type 0
  Holds id call owner store =
      (ticket : ConfirmationTicket) × (Dict.get store.pending (id_or_empty id) ≡ some ticket)
      × Authorises p now call owner ticket

  deferred_check_sound :
      (call : Call) (owner : Bool)
      (peeked : Result ConfirmationError ConfirmationTicket × ConfirmationStore)
      (ticket : ConfirmationTicket) (store' : ConfirmationStore)
      → deferred_check p gate now new_id call owner peeked ≡ (ok ticket, store')
      → (peeked ≡ (ok ticket, store'))
        × (ticket.pubkey ≡ call.pubkey)
        × (ticket.tool ≡ call.tool)
        × (ticket.arguments_hash ≡ hash_arguments p call.arguments)
        × (owner ≡ true → is_some ticket.owner_approved_by ≡ true)
  unfolding deferred_check
  deferred_check_sound call owner (err e, store) ticket store' h = absurd (ground arith)
  deferred_check_sound call owner (ok t, store) ticket store' h = ground (
    arith,
    eq_iff t.pubkey call.pubkey,
    eq_iff t.tool call.tool,
    eq_iff t.arguments_hash (hash_arguments p call.arguments),
  )

  consumed_now_sound :
      (answer : Result ConfirmationError ConfirmationTicket × ConfirmationStore)
      (ticket : ConfirmationTicket) (store' : ConfirmationStore)
      → consumed_now p gate now new_id answer ≡ (ok ticket, store')
      → answer ≡ (ok ticket, store')
  unfolding consumed_now
  consumed_now_sound (err e, store) ticket store' h = absurd (ground arith)
  consumed_now_sound (ok t, store) ticket store' h = ground arith

  confirm_sound :
      (id : Option String) (call : Call) (owner : Bool) (s : Server W) (ticket : ConfirmationTicket)
      (store' : ConfirmationStore)
      → confirm p gate now new_id id call owner s ≡ (ok ticket, store')
      → Holds id call owner s.confirmation_store
  unfolding confirm
  confirm_sound id call owner s ticket store' h =
      elim (Bool-cases (presented id && gate.defer_to_broker s.world)) [
        | inl deferred ↦
            let peeked = peek now (id_or_empty id) s.confirmation_store in
            let (same, identity, tool, arguments, approved) =
              deferred_check_sound call owner peeked ticket store' (ground (arith, deferred, h)) in
            let (found, live) =
              peek_sound now (id_or_empty id) s.confirmation_store store' ticket same in
            (
              ticket,
              found,
              record {
                live = live;
                identity = identity;
                tool = tool;
                arguments = arguments;
                approved = approved;
              },
            )
        | inr here ↦
            let answer = consume p now (id_or_empty id) call owner false s.confirmation_store in
            let same = consumed_now_sound answer ticket store' (ground (arith, here, h)) in
            let (found, authorises, _, _) =
              (consume_iff p now (id_or_empty id) call owner false s.confirmation_store ticket
                  store').0
                same in
            (ticket, found, authorises)
      ]

  -- The call needs no confirmation, or its ticket is held.
  abbrev pub Cleared : Option String → Call → PolicyRule → ConfirmationStore → Type 0
  Cleared id call rule store =
      (rule.require_confirmation ≡ false) ⊎ Holds id call rule.require_owner_signature store

  confirmed_world :
      (fn : Tool W) (id : Option String) (call : Call) (owner : Bool) (s : Server W)
      (answer : Result Refusal ConfirmationTicket × ConfirmationStore)
      → ((confirmed p gate now new_id fn id call owner s answer).1.world ≡ s.world)
        ⊎ ((ticket : ConfirmationTicket) × (store' : ConfirmationStore) × (answer
              ≡ (ok ticket, store')))
  unfolding confirmed issue
  confirmed_world fn id call owner s (ok ticket, store) = inr (ticket, store, refl)
  confirmed_world fn id call owner s (err e, store) = inl (ground arith)

  ruled_world :
      (fn : Tool W) (id : Option String) (call : Call) (rule : PolicyRule) (s : Server W)
      → ((ruled p gate now new_id fn id call rule s).1.world ≡ s.world)
        ⊎ ((gate.checks rule s.world ≡ ok tt) × Cleared id call rule s.confirmation_store)
  unfolding ruled
  ruled_world fn id call rule s = by_checks (gate.checks rule s.world) refl
    where
      by_checks :
          (checked : Result PolicyViolation (Unit {0}))
          → gate.checks rule s.world ≡ checked
          → ((ruled p gate now new_id fn id call rule s).1.world ≡ s.world)
            ⊎ ((gate.checks rule s.world ≡ ok tt) × Cleared id call rule s.confirmation_store)
      by_checks (err v) failed = inl (ground (arith, failed))
      by_checks (ok u) passed = elim (Bool-cases rule.require_confirmation) [
        | inr free ↦ inr (passed, inl free)
        | inl needed ↦
            let owner = rule.require_owner_signature in
            elim (confirmed_world fn id call owner s (confirm p gate now new_id id call owner s)) [
              | inl same ↦ inl (ground (arith, passed, needed, same))
              | inr (ticket, store', held) ↦
                  inr (passed, inr (confirm_sound id call owner s ticket store' held))
            ]
      ]

  -- A tool under require_confirmation leaves the host as it was, unless the caller is known, the hard
  -- checks of the rule pass, and the rule asks for no confirmation, or the confirmation_id is that of a
  -- live ticket issued to this caller for this policy key and these arguments, which the owner has
  -- approved where the rule asks for it.
  pub require_confirmation-Cleared :
      (who : Option AuthenticatedRequest) (fn : Tool W) (id : Option String) (arguments : Fields)
      (s : Server W)
      → ((require_confirmation p gate now new_id who fn id arguments s).1.world ≡ s.world)
        ⊎ ((request : AuthenticatedRequest) × (who ≡ some request)
            × (gate.checks (rule_of gate.policy (gate.policy_key arguments)) s.world ≡ ok tt)
            × Cleared id
                (record {
                  pubkey = request.pubkey;
                  tool = gate.policy_key arguments;
                  arguments = arguments;
                })
                (rule_of gate.policy (gate.policy_key arguments))
                s.confirmation_store)
  unfolding require_confirmation
  require_confirmation-Cleared none fn id arguments s = inl refl
  require_confirmation-Cleared (some request) fn id arguments s =
      let key = gate.policy_key arguments in
      let call : Call = record { pubkey = request.pubkey; tool = key; arguments = arguments } in
      elim (ruled_world fn id call (rule_of gate.policy key) s) [
        | inl same ↦ inl same
        | inr (passed, cleared) ↦ inr (request, refl, passed, cleared)
      ]
