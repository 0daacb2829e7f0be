-- ===== src/Policy/Confirmation/Approval.antt =====
-- Where a ticket's approval comes from: an event that the owner signed over this very operation.
use yunohost_mcp.Prelude.{
  ℕ, String, Bool, true, ◌≡◌, refl, Option, none, some, List, [], ◌∷◌, arith, ◌==◌, eq_iff, is_some,
  Bool-cases, inl, inr, subst, leb,
}
use yunohost_mcp.Prelude.Dict
use yunohost_mcp.Prelude.Texts
use yunohost_mcp.Prelude.Dict.{Dict, get-put, get-remove, get-nil}
use yunohost_mcp.Prelude.Json.{Json, Fields}
use yunohost_mcp.Prelude.Result.{Result, ok, err}
use yunohost_mcp.Platform.{Platform, NostrEvent}
use yunohost_mcp.Policy.Confirmation
use yunohost_mcp.Policy.Confirmation.{
  ConfirmationStore, Call, new_store, drop, approve_ticket, approve_found,
}
use yunohost_mcp.Policy.Confirmation.Binding.{consume_iff}
use yunohost_mcp.Policy.Confirmation.Ticket.{
  ConfirmationError, ConfirmationTicket, SignedApproval, owner_approval, hash_arguments,
  operation_hash, new_ticket,
}
use yunohost_mcp.Policy.Confirmation.Ticket.Evidence.{Approves, owner_approval_sound}
use yunohost_mcp.Policy.Confirmation.Trace.{
  Action, create, approve, peek, consume, finalize, revert, run,
}

-- The two digests of a ticket are those of one list of arguments.
pub record IsBound (p : Platform) (t : ConfirmationTicket) : Type 0 where
  pub arguments : Fields
  pub arguments_digest : t.arguments_hash ≡ hash_arguments p arguments
  pub operation_digest :
      t.operation_hash ≡ operation_hash p t.confirmation_id t.pubkey t.tool arguments

pub record IsVouched (p : Platform) (owner id : String) (t : ConfirmationTicket) : Type 0 where
  pub named : t.confirmation_id ≡ id
  pub bound : IsBound p t
  pub approved :
      is_some t.owner_approved_by ≡ true
      → (e : NostrEvent) × Approves p owner t.confirmation_id t.operation_hash e

-- Every pending ticket stands under its own id, is bound to one operation, and is marked as
-- approved only where the owner signed for that operation.
abbrev pub AreVouched : Platform → String → ConfirmationStore → Type 0
AreVouched p owner s =
    (id : String) (t : ConfirmationTicket) → Dict.get s.pending id ≡ some t → IsVouched p owner id t

module _ (p : Platform) (owner : String) where
  AreVouched-put :
      (s : ConfirmationStore) (k : String) (t : ConfirmationTicket)
      → AreVouched p owner s
      → IsVouched p owner k t
      → AreVouched p owner (record s { pending = Dict.put s.pending k t })
  AreVouched-put s k t h v j u e = elim (Bool-cases (k == j)) [
    | inl same ↦
        subst (λ x. IsVouched p owner x u) ((eq_iff k j).0 same)
          (subst (λ x. IsVouched p owner k x) (ground (arith, get-put s.pending k t j)) v)
    | inr other ↦ h j u (ground (arith, get-put s.pending k t j))
  ]

  AreVouched-drop :
      (s : ConfirmationStore) (k : String) → AreVouched p owner s → AreVouched p owner (drop k s)
  AreVouched-drop s k h j u e = h j u (ground (arith, get-remove s.pending k j))

  -- An approval writes the owner's key into the ticket, and nothing else.
  IsVouched-approved :
      (id by : String) (t : ConfirmationTicket)
      → IsVouched p owner id t
      → (e : NostrEvent) × Approves p owner t.confirmation_id t.operation_hash e
      → IsVouched p owner id (record t { owner_approved_by = some by })
  IsVouched-approved id by t v proof = record {
    named = v.named;
    bound = record {
      arguments = v.bound.arguments;
      arguments_digest = v.bound.arguments_digest;
      operation_digest = v.bound.operation_digest;
    };
    approved = λ _. proof;
  }

  module _ (now : ℕ) (id : String) (signed : SignedApproval) (s : ConfirmationStore)
      (h : AreVouched p owner s) where
    approve_ticket-AreVouched :
        (t : ConfirmationTicket) (r : Result ConfirmationError String)
        → Dict.get s.pending id ≡ some t
        → owner_approval p owner t.confirmation_id t.operation_hash signed ≡ r
        → AreVouched p owner (approve_ticket p id owner signed s t r).1
    unfolding approve_ticket
    approve_ticket-AreVouched t (err x) found e = h
    approve_ticket-AreVouched t (ok by) found e =
        AreVouched-put s id (record t { owner_approved_by = some by }) h
          (let (_, (approval, _, proof)) = owner_approval_sound p owner _ _ signed by e in
            IsVouched-approved id by t (h id t found) (approval, proof))

    approve_found-AreVouched :
        (found : Option ConfirmationTicket)
        → Dict.get s.pending id ≡ found
        → AreVouched p owner (approve_found p now id owner signed s found).1
    unfolding approve_found
    approve_found-AreVouched none found = h
    approve_found-AreVouched (some t) found = elim (Bool-cases (leb t.expires_at now)) [
      | inl late ↦ rw late (AreVouched-drop s id h)
      | inr live ↦ elim (Bool-cases (Texts.contains s.in_flight id)) [
        | inl held ↦ rw (live, held) h
        | inr free ↦ rw (live, free) (approve_ticket-AreVouched t _ found refl)
      ]
    ]

  new_ticket-IsVouched :
      (id : String) (call : Call) (plan : Json) (now expires : ℕ)
      → IsVouched p owner id (new_ticket p id call.pubkey call.tool call.arguments plan now expires)
  unfolding new_ticket
  new_ticket-IsVouched id call plan now expires = record {
    named = refl;
    bound = record { arguments = call.arguments; arguments_digest = refl; operation_digest = refl };
    approved = λ h. cc;
  }

  -- Approvals in a sequence of calls are checked against this owner.
  abbrev pub IsFor : Action → Type 0
  IsFor (approve now id by signed) = by ≡ owner
  IsFor _ = Unit

  AreVouched-run :
      (a : Action) (s : ConfirmationStore)
      → IsFor a
      → AreVouched p owner s
      → AreVouched p owner (run p a s)
  unfolding run Confirmation.create Confirmation.approve Confirmation.peek Confirmation.consume
      Confirmation.finalize Confirmation.revert
  AreVouched-run (create now j call plan signature) s u h =
      AreVouched-put s j (Confirmation.create p now j call plan signature s).0 h
        (new_ticket-IsVouched j call plan now _)
  AreVouched-run (approve now j by signed) s same h =
      rw same (approve_found-AreVouched now j signed s h (Dict.get s.pending j) refl)
  AreVouched-run (peek now j) s u h = λ k t e. h k t (ground (arith, get-remove s.pending j k))
  AreVouched-run (consume now j call signature defer) s u h =
      λ k t e. h k t (ground (arith, get-remove s.pending j k))
  AreVouched-run (finalize j) s u h = λ k t e. h k t (ground (arith, get-remove s.pending j k))
  AreVouched-run (revert j) s u h = λ k t e. h k t (ground arith)

  -- Along a sequence of calls whose approvals are checked against the owner.
  abbrev pub AllFor : List Action → Type 0
  AllFor [] = Unit
  AllFor (a ∷ rest) = IsFor a × AllFor rest

  unfoldable pub run_all : List Action → ConfirmationStore → ConfirmationStore
  run_all [] s = s
  run_all (a ∷ rest) s = run_all rest (run p a s)

  AreVouched-run_all :
      (actions : List Action) (s : ConfirmationStore)
      → AllFor actions
      → AreVouched p owner s
      → AreVouched p owner (run_all actions s)
  unfolding run_all
  AreVouched-run_all [] s u h = h
  AreVouched-run_all (a ∷ rest) s (f, fs) h =
      AreVouched-run_all rest (run p a s) fs (AreVouched-run a s f h)

  AreVouched-new_store : (ttl : ℕ) (o : Option ℕ) → AreVouched p owner (new_store ttl o)
  AreVouched-new_store ttl none id t e = cc (get-nil {V = ConfirmationTicket} id)
  AreVouched-new_store ttl (some x) id t e = cc (get-nil {V = ConfirmationTicket} id)

  -- Whatever calls came before on a new store, if all approvals were checked against the owner: a
  -- consume that requires the owner's approval succeeds only if the owner validly signed an approval
  -- event that names this confirmation and the digest of this caller, this tool and arguments with
  -- the digest of the call's.
  pub consume-needs-owner :
      (ttl : ℕ) (o : Option ℕ) (actions : List Action)
      → AllFor actions
      → (now : ℕ) (id : String) (call : Call) (defer : Bool) (t : ConfirmationTicket)
        (s' : ConfirmationStore)
      → Confirmation.consume p now id call true defer (run_all actions (new_store ttl o))
        ≡ (ok t, s')
      → (e : NostrEvent) × (arguments : Fields) × Approves p owner id
          (operation_hash p id call.pubkey call.tool arguments)
          e
        × (hash_arguments p arguments ≡ hash_arguments p call.arguments)
  consume-needs-owner ttl o actions fs now id call defer t s' h =
      let s = run_all actions (new_store ttl o) in
      let (found, a, _, _) = (consume_iff p now id call true defer s t s').0 h in
      let v = AreVouched-run_all actions _ fs (AreVouched-new_store ttl o) id t found in
      let (e, proof) = v.approved (a.approved refl) in
      (
        e,
        v.bound.arguments,
        record {
          signed = proof.signed;
          author = proof.author;
          kind = proof.kind;
          names_ticket = cc (proof.names_ticket, v.named);
          names_operation =
              cc (proof.names_operation, v.bound.operation_digest, v.named, a.identity, a.tool);
        },
        cc (v.bound.arguments_digest, a.arguments),
      )
