-- ===== src/Policy/Confirmation.antt =====
-- src/yunohost_mcp/policy/confirmation.py: confirmation tickets, their approval by the owner, and
-- the in-memory store. A method returns its result or error beside the store that it leaves, since
-- several errors remove the ticket first. Clock readings (`time.time()`) and fresh ids (`uuid4`)
-- are arguments; times are natural numbers of one unit.
pub mod Ticket
pub mod Binding
pub mod Trace
pub mod Spending
pub mod Approval
pub mod Sqlite
use yunohost_mcp.Prelude.{
  ℕ, ◌+◌, String, Bool, true, false, not, ◌&&◌, Option, none, some, List, [], ◌==◌, leb, is_some,
  length, if◌then◌else◌,
}
use yunohost_mcp.Prelude.Dict
use yunohost_mcp.Prelude.Dict.{Dict}
use yunohost_mcp.Prelude.Texts
use yunohost_mcp.Prelude.Json.{Json, Fields}
use yunohost_mcp.Prelude.Result.{Result, ok, err}
use yunohost_mcp.Platform.{Platform}
use Ticket.{
  ConfirmationError, unknown, expired, already_consumed, other_identity, other_tool,
  other_arguments, needs_owner, SignedApproval, ConfirmationTicket, hash_arguments, new_ticket,
  owner_approval,
}

pub record ConfirmationStore : Type 0 where
  pub ttl_seconds : ℕ
  pub owner_approval_ttl_seconds : ℕ
  pub pending : Dict ConfirmationTicket
  pub in_flight : List String

-- ConfirmationStore(ttl_seconds, owner_approval_ttl_seconds=...)
abbrev pub new_store : ℕ → Option ℕ → ConfirmationStore
new_store ttl none = record {
  ttl_seconds = ttl;
  owner_approval_ttl_seconds = ttl;
  pending = [];
  in_flight = [];
}
new_store ttl (some owner_ttl) = record {
  ttl_seconds = ttl;
  owner_approval_ttl_seconds = owner_ttl;
  pending = [];
  in_flight = [];
}

-- What a caller asks to be confirmed: who, which tool, on what.
pub record Call : Type 0 where
  pub pubkey : String
  pub tool : String
  pub arguments : Fields

abbrev pub Answer : Type 0 → Type 0
Answer A = Result ConfirmationError A × ConfirmationStore

-- del self._pending[confirmation_id]
abbrev pub drop : String → ConfirmationStore → ConfirmationStore
drop id s = record s { pending = Dict.remove s.pending id }

abbrev pub mark : String → ConfirmationStore → ConfirmationStore
mark id s = record s { in_flight = Texts.add s.in_flight id }

abbrev pub unmark : String → ConfirmationStore → ConfirmationStore
unmark id s = record s { in_flight = Texts.discard s.in_flight id }

-- The ticket's time to live, `ttl` in `create`.
abbrev pub ttl_of : ConfirmationStore → Bool → ℕ
ttl_of s owner = if owner then s.owner_approval_ttl_seconds else s.ttl_seconds

module _ (p : Platform) where
  -- `id` is the new confirmation_id.
  unfoldable pub create :
      ℕ → String → Call → Json → Bool → ConfirmationStore → ConfirmationTicket × ConfirmationStore
  create now id call plan require_owner_signature s =
      let ticket =
        new_ticket p id call.pubkey call.tool call.arguments plan now
          (now + ttl_of s require_owner_signature) in
      (ticket, record s { pending = Dict.put s.pending id ticket })

  approve_ticket :
      String
      → String
      → SignedApproval
      → ConfirmationStore
      → ConfirmationTicket
      → Result ConfirmationError String
      → Answer ConfirmationTicket
  approve_ticket id owner_pubkey signed_approval s ticket (err e) = (err e, s)
  approve_ticket id owner_pubkey signed_approval s ticket (ok approver) =
      let updated = record ticket { owner_approved_by = some approver } in
      (ok updated, record s { pending = Dict.put s.pending id updated })

  approve_found :
      ℕ
      → String
      → String
      → SignedApproval
      → ConfirmationStore
      → Option ConfirmationTicket
      → Answer ConfirmationTicket
  unfolding approve_ticket
  approve_found now id owner_pubkey signed_approval s none = (err unknown, s)
  approve_found now id owner_pubkey signed_approval s (some ticket) =
      if leb ticket.expires_at now
      then (err expired, drop id s)
      else if Texts.contains s.in_flight id
      then (err already_consumed, s)
      else approve_ticket id owner_pubkey signed_approval s ticket (
          owner_approval p owner_pubkey ticket.confirmation_id ticket.operation_hash
            signed_approval)

  unfoldable pub approve :
      ℕ → String → String → SignedApproval → ConfirmationStore → Answer ConfirmationTicket
  unfolding approve_found
  approve now id owner_pubkey signed_approval s =
      approve_found now id owner_pubkey signed_approval s (Dict.get s.pending id)

  consume_live :
      String
      → Call
      → Bool
      → Bool
      → ConfirmationStore
      → ConfirmationTicket
      → Answer ConfirmationTicket
  consume_live id call require_owner_approval defer s ticket =
      if not (ticket.pubkey == call.pubkey)
      then (err other_identity, drop id s)
      else if not (ticket.tool == call.tool)
      then (err other_tool, drop id s)
      else if not (ticket.arguments_hash == hash_arguments p call.arguments)
      then (err other_arguments, drop id s)
      else if require_owner_approval && not (is_some ticket.owner_approved_by)
      then (err needs_owner, s)
      else if not defer
      then (ok ticket, drop id s)
      else if Texts.contains s.in_flight id
      then (err already_consumed, s)
      else (ok ticket, mark id s)

  consume_found :
      ℕ
      → String
      → Call
      → Bool
      → Bool
      → ConfirmationStore
      → Option ConfirmationTicket
      → Answer ConfirmationTicket
  unfolding consume_live
  consume_found now id call require_owner_approval defer s none = (err unknown, s)
  consume_found now id call require_owner_approval defer s (some ticket) =
      if leb ticket.expires_at now
      then (err expired, drop id s)
      else consume_live id call require_owner_approval defer s ticket

  unfoldable pub consume :
      ℕ → String → Call → Bool → Bool → ConfirmationStore → Answer ConfirmationTicket
  unfolding consume_found
  consume now id call require_owner_approval defer s =
      consume_found now id call require_owner_approval defer s (Dict.get s.pending id)

peek_found : ℕ → String → ConfirmationStore → Option ConfirmationTicket → Answer ConfirmationTicket
peek_found now id s none = (err unknown, s)
peek_found now id s (some ticket) =
    if leb ticket.expires_at now
    then (err expired, drop id s)
    else if Texts.contains s.in_flight id
    then (err already_consumed, s)
    else (ok ticket, s)

pub peek : ℕ → String → ConfirmationStore → Answer ConfirmationTicket
unfolding peek_found
peek now id s = peek_found now id s (Dict.get s.pending id)

pub finalize : String → ConfirmationStore → Answer (Unit {0})
finalize id s =
    if not (is_some (Dict.get s.pending id))
    then (err unknown, s)
    else (ok tt, unmark id (drop id s))

pub revert : String → ConfirmationStore → Answer (Unit {0})
revert id s =
    if not (is_some (Dict.get s.pending id)) then (err unknown, s) else (ok tt, unmark id s)

-- len(store)
pub size : ConfirmationStore → ℕ
size s = length s.pending
