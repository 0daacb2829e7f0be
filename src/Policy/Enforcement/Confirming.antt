-- ===== src/Policy/Enforcement/Confirming.antt =====
-- A tool that asks for a confirmation runs once it is given.
use yunohost_mcp.Prelude.{
  ℕ, ◌+◌, ◌<◌, String, ◌≡◌, ◌∙◌, refl, ap, Bool, true, false, none, some, eq_refl, arith,
  if◌then◌else◌,
}
use yunohost_mcp.Prelude.Dict
use yunohost_mcp.Prelude.Dict.{get-put}
use yunohost_mcp.Prelude.Json.{Fields, str, obj, get_field}
use yunohost_mcp.Prelude.Result.{ok}
use yunohost_mcp.Platform.{Platform}
use yunohost_mcp.Policy.Confirmation.{ConfirmationStore, Call, create, drop}
use yunohost_mcp.Policy.Confirmation.Binding.{Authorises, consume_iff, consume-missing}
use yunohost_mcp.Policy.Confirmation.Ticket.{ConfirmationTicket, new_ticket}
use yunohost_mcp.Auth.Identity.{AuthenticatedRequest}
use yunohost_mcp.Policy.Enforcement.{
  Server, Tool, Gate, response, rule_of, plan_of, confirm, consumed_now, confirmed, issue, ruled,
  require_confirmation,
}

module _ {W : Type 0} (p : Platform) (gate : Gate W) where
  -- A ticket that authorises a call is taken, and the tool runs.
  pub require_confirmation-runs :
      (now : ℕ) (new_id id : String) (request : AuthenticatedRequest) (fn : Tool W)
      (arguments : Fields) (s : Server W) (ticket : ConfirmationTicket)
      → (rule_of gate.policy (gate.policy_key arguments)).require_confirmation ≡ true
      → gate.checks (rule_of gate.policy (gate.policy_key arguments)) s.world ≡ ok tt
      → gate.defer_to_broker s.world ≡ false
      → Dict.get s.confirmation_store.pending id ≡ some ticket
      → Authorises p now
          (record {
            pubkey = request.pubkey;
            tool = gate.policy_key arguments;
            arguments = arguments;
          })
          (rule_of gate.policy (gate.policy_key arguments)).require_owner_signature
          ticket
      → require_confirmation p gate now new_id (some request) fn (some id) arguments s
        ≡ fn (some id) arguments (record s {
          confirmation_store = drop id s.confirmation_store;
          consumed_ticket = some ticket;
        })
  unfolding require_confirmation ruled confirm confirmed consumed_now
  require_confirmation-runs now new_id id request fn arguments s ticket needed passed here found
        authorises =
      let key = gate.policy_key arguments in
      let rule = rule_of gate.policy key in
      let call : Call = record { pubkey = request.pubkey; tool = key; arguments = arguments } in
      let taken =
        (consume_iff p now id call rule.require_owner_signature false s.confirmation_store ticket
            (drop id s.confirmation_store)).1
          (found, authorises, λ h. absurd cc, refl) in
      ground (arith, needed, passed, here, taken)

  abbrev pub requested : AuthenticatedRequest → Fields → Call
  requested request arguments = record {
    pubkey = request.pubkey;
    tool = gate.policy_key arguments;
    arguments = arguments;
  }

  -- The ticket that a call without a confirmation_id is given.
  abbrev pub issued : ℕ → String → Call → Bool → Server W → ConfirmationTicket × ConfirmationStore
  issued now new_id call owner s =
      create p now new_id call (plan_of p gate now new_id call) owner s.confirmation_store

  require_confirmation-asks :
      (now : ℕ) (new_id : String) (request : AuthenticatedRequest) (fn : Tool W)
      (arguments : Fields) (s : Server W)
      → (rule_of gate.policy (gate.policy_key arguments)).require_confirmation ≡ true
      → (rule_of gate.policy (gate.policy_key arguments)).require_owner_signature ≡ false
      → gate.checks (rule_of gate.policy (gate.policy_key arguments)) s.world ≡ ok tt
      → Dict.get s.confirmation_store.pending "" ≡ none
      → require_confirmation p gate now new_id (some request) fn none arguments s ≡ (
        ok (
            obj (
              response p gate now new_id
                (issued now new_id (requested request arguments) false s).0
                false)),
        record s {
          confirmation_store = (issued now new_id (requested request arguments) false s).1;
        },
      )
  unfolding require_confirmation ruled confirm confirmed consumed_now issue create
  require_confirmation-asks now new_id request fn arguments s needed alone passed no_empty =
      let key = gate.policy_key arguments in
      let call : Call = record { pubkey = request.pubkey; tool = key; arguments = arguments } in
      let missing = consume-missing p now "" call false false s.confirmation_store no_empty in
      ground (arith, needed, alone, passed, missing)

  -- A call under a rule that asks for a confirmation, but not for the owner's, whose hard checks pass on
  -- the host, made where no broker takes the confirmation and no ticket is pending under the empty id, is
  -- answered with a new confirmation_id and leaves the host as it was; the same call with this
  -- confirmation_id, made before the ticket expires, runs the tool.
  pub require_confirmation-twice :
      (now later : ℕ) (new_id other_id : String) (request : AuthenticatedRequest) (fn : Tool W)
      (arguments : Fields) (s : Server W)
      → (rule_of gate.policy (gate.policy_key arguments)).require_confirmation ≡ true
      → (rule_of gate.policy (gate.policy_key arguments)).require_owner_signature ≡ false
      → gate.checks (rule_of gate.policy (gate.policy_key arguments)) s.world ≡ ok tt
      → gate.defer_to_broker s.world ≡ false
      → Dict.get s.confirmation_store.pending "" ≡ none
      → later < now + s.confirmation_store.ttl_seconds
      → (fields : Fields) × (s' : Server W) × (ticket : ConfirmationTicket) × (require_confirmation
            p gate now new_id
            (some request)
            fn
            none
            arguments
            s
          ≡ (ok (obj fields), s'))
        × (get_field fields "confirmation_id" ≡ some (str new_id))
        × (s'.world ≡ s.world)
        × (require_confirmation p gate later other_id (some request) fn (some new_id) arguments s'
            ≡ fn (some new_id) arguments (record s' {
              confirmation_store = drop new_id s'.confirmation_store;
              consumed_ticket = some ticket;
            }))
  unfolding create new_ticket get_field
  require_confirmation-twice now later new_id other_id request fn arguments s needed alone passed
        here no_empty live =
      let key = gate.policy_key arguments in
      let call : Call = record { pubkey = request.pubkey; tool = key; arguments = arguments } in
      let (ticket, store) = issued now new_id call false s in
      let s' = record s { confirmation_store = store } in
      let asked =
        require_confirmation-asks now new_id request fn arguments s needed alone passed no_empty in
      let found : Dict.get store.pending new_id ≡ some ticket =
        get-put s.confirmation_store.pending new_id ticket new_id
        ∙ ap (λ b. if b then some ticket else Dict.get s.confirmation_store.pending new_id)
            (eq_refl new_id) in
      let authorises : Authorises p later call (rule_of gate.policy key).require_owner_signature
          ticket =
        record {
          live = live;
          identity = refl;
          tool = refl;
          arguments = refl;
          approved = λ h. absurd (cc (h, alone));
        } in
      (
        response p gate now new_id ticket false,
        s',
        ticket,
        asked,
        refl,
        refl,
        require_confirmation-runs later other_id new_id request fn arguments s' ticket needed passed
            here found authorises,
      )
