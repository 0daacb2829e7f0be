-- ===== src/Policy/Confirmation/Ticket.antt =====
-- src/yunohost_mcp/policy/confirmation.py: the ticket, its two digests, and the check of an owner's
-- signed approval.
pub mod Evidence
use yunohost_mcp.Prelude.{
  ℕ, String, Bool, false, not, ◌||◌, Option, none, some, ◌==◌, if◌then◌else◌,
}
use yunohost_mcp.Prelude.Int.{ℤ, pos, eqb_ℤ}
use yunohost_mcp.Prelude.Json.{Json, Fields, end, field, str, obj}
use yunohost_mcp.Prelude.Result.{Result, ok, err, ◌>>=◌}
use yunohost_mcp.Platform.{Platform, NostrEvent}
use yunohost_mcp.Auth.Nostr.{tag, is_text, verify_event, model_validate}

-- `ConfirmationError`, by its messages
pub data ConfirmationError : Type 0 where
  unknown expired already_consumed other_identity other_tool other_arguments : ConfirmationError
  needs_owner not_json not_event malformed bad_signature : ConfirmationError
  not_owner wrong_kind not_this_ticket : ConfirmationError
  -- raised by require_confirmation, when it peeks
  other_request other_request_arguments owner_pending : ConfirmationError

pub record ConfirmationTicket : Type 0 where
  pub confirmation_id : String
  pub pubkey : String
  pub tool : String
  pub arguments_hash : String
  pub plan : Json
  pub created_at : ℕ
  pub expires_at : ℕ
  pub operation_hash : String
  pub owner_approved_by : Option String

-- An approval as a caller hands it in: a text, an object, an event that is already parsed, or a
-- value of another type.
pub data SignedApproval : Type 0 where
  text : String → SignedApproval
  object : Json → SignedApproval
  event : NostrEvent → SignedApproval
  other : SignedApproval

abbrev pub owner_approval_kind : ℤ
owner_approval_kind = pos 24243

module _ (p : Platform) where
  unfoldable pub hash_arguments : Fields → String
  hash_arguments arguments = p.sha256 (p.encode (p.dumps_sorted (obj arguments)))

  unfoldable pub operation_hash : String → String → String → Fields → String
  operation_hash id pubkey tool arguments = p.sha256 (
      p.encode (
        p.dumps_sorted (
          obj (
            field "confirmation_id" (str id) (
              field "requester_pubkey" (str pubkey)
                (field "tool" (str tool) (field "arguments" (obj arguments) end)))))))

  -- The ticket that `create` builds, of both stores.
  unfoldable pub new_ticket : String → String → String → Fields → Json → ℕ → ℕ → ConfirmationTicket
  new_ticket id pubkey tool arguments plan now expires = record {
    confirmation_id = id;
    pubkey = pubkey;
    tool = tool;
    arguments_hash = hash_arguments arguments;
    plan = plan;
    created_at = now;
    expires_at = expires;
    operation_hash = operation_hash id pubkey tool arguments;
    owner_approved_by = none;
  }

  validated : Option NostrEvent → Result ConfirmationError NostrEvent
  validated none = err malformed
  validated (some e) = ok e

  pub parse_owner_approval : SignedApproval → Result ConfirmationError NostrEvent
  unfolding validated
  parse_owner_approval (event e) = ok e
  parse_owner_approval (object value) = validated (model_validate p value)
  parse_owner_approval (text t) = elim (p.loads (p.encode t)) [
    | none ↦ err not_json
    | some value ↦ validated (model_validate p value)
  ]
  parse_owner_approval other = err not_event

  verify_owner_approval : NostrEvent → String → String → String → Result ConfirmationError String
  verify_owner_approval e owner_pubkey confirmation_id operation_digest = elim (verify_event p e) [
    | err _ ↦ err bad_signature
    | ok _ ↦
        if not (e.pubkey == owner_pubkey)
        then err not_owner
        else if not (eqb_ℤ e.kind owner_approval_kind)
        then err wrong_kind
        else if not (is_text (tag e "confirmation_id") confirmation_id)
            || not (is_text (tag e "operation_hash") operation_digest)
        then err not_this_ticket
        else ok e.pubkey
  ]

  -- `_verify_owner_approval(_parse_owner_approval(...), ...)`, as `approve` calls them
  unfoldable pub owner_approval :
      String → String → String → SignedApproval → Result ConfirmationError String
  unfolding parse_owner_approval verify_owner_approval
  owner_approval owner_pubkey confirmation_id operation_digest signed = do
    e ← parse_owner_approval signed
    verify_owner_approval e owner_pubkey confirmation_id operation_digest
