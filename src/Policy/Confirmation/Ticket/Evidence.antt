-- ===== src/Policy/Confirmation/Ticket/Evidence.antt =====
-- What an accepted owner approval proves: `_parse_owner_approval` and `_verify_owner_approval` of
-- src/yunohost_mcp/policy/confirmation.py.
use yunohost_mcp.Prelude.{String, ◌≡◌, refl, some, arith, eq_iff}
use yunohost_mcp.Prelude.Int.{eq_of_eqb_ℤ}
use yunohost_mcp.Prelude.Result.{Result, ok, err, >>=-returns}
use yunohost_mcp.Platform.{Platform, NostrEvent}
use yunohost_mcp.Auth.Nostr.{
  NostrEventError, tag, verify_event, IsSigned, verify_event_sound, verify_event_complete,
  eq_of_is_text, is_text_of,
}
use yunohost_mcp.Policy.Confirmation.Ticket.{
  SignedApproval, event, owner_approval, owner_approval_kind, parse_owner_approval,
  verify_owner_approval,
}

-- `e` is a valid event of `by` that approves the operation with these two tags.
pub record Approves (p : Platform) (by id digest : String) (e : NostrEvent) : Type 0 where
  pub signed : IsSigned p e
  pub author : e.pubkey ≡ by
  pub kind : e.kind ≡ owner_approval_kind
  pub names_ticket : tag e "confirmation_id" ≡ some id
  pub names_operation : tag e "operation_hash" ≡ some digest

module _ (p : Platform) (owner id digest : String) where
  verified_sound :
      (e : NostrEvent) (by : String) (r : Result NostrEventError (Unit {0}))
      → verify_event p e ≡ r
      → verify_owner_approval p e owner id digest ≡ ok by
      → (by ≡ owner) × Approves p owner id digest e
  unfolding verify_owner_approval
  verified_sound e by (err x) v h = cc
  verified_sound e by (ok u) v h = ground (
    arith,
    verify_event_sound p e u v,
    eq_iff e.pubkey owner,
    eq_of_eqb_ℤ e.kind owner_approval_kind,
    eq_of_is_text (tag e "confirmation_id") id,
    eq_of_is_text (tag e "operation_hash") digest,
  )

  -- An accepted approval is the owner's: the event that `_parse_owner_approval` reads from what the
  -- caller handed in is validly signed by the configured owner, is of the approval kind, and names
  -- this ticket and this operation.
  pub owner_approval_sound :
      (signed : SignedApproval) (by : String)
      → owner_approval p owner id digest signed ≡ ok by
      → (by ≡ owner)
        × ((e : NostrEvent) × (parse_owner_approval p signed ≡ ok e) × Approves p owner id digest e)
  unfolding owner_approval
  owner_approval_sound signed by h =
      let (e, parsed, verified) = >>=-returns (parse_owner_approval p signed) _ h in
      let (same, proof) = verified_sound e by (verify_event p e) refl verified in
      (same, (e, parsed, proof))

  -- Such an event, handed in as it is, is accepted.
  pub owner_approval_complete :
      (e : NostrEvent)
      → Approves p owner id digest e
      → owner_approval p owner id digest (event e) ≡ ok owner
  unfolding owner_approval
  owner_approval_complete e a = ground (
    arith,
    verify_event_complete p e a.signed,
    a.author,
    a.kind,
    eq_iff e.pubkey owner,
    is_text_of (tag e "confirmation_id") id a.names_ticket,
    is_text_of (tag e "operation_hash") digest a.names_operation,
  )
