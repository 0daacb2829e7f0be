-- ===== src/Policy/Confirmation/Spending.antt =====
-- A ticket is used at most once, along any sequence of calls.
use yunohost_mcp.Prelude.{
  ℕ, ◌+◌, ◌≤◌, String, Bool, true, false, not, ◌&&◌, ◌||◌, ◌≡◌, refl, Option, none, some, List, [],
  ◌∷◌, arith, ◌==◌, eq_iff, is_some,
}
use yunohost_mcp.Prelude.Dict
use yunohost_mcp.Prelude.Dict.{Dict, get-put, get-remove}
use yunohost_mcp.Prelude.Texts
use yunohost_mcp.Prelude.Texts.{contains-add, contains-discard}
use yunohost_mcp.Prelude.Result.{Result, ok, err}
use yunohost_mcp.Platform.{Platform}
use yunohost_mcp.Policy.Confirmation
use yunohost_mcp.Policy.Confirmation.{ConfirmationStore, Call, approve_ticket, approve_found}
use yunohost_mcp.Policy.Confirmation.Ticket.{
  ConfirmationError, ConfirmationTicket, SignedApproval, owner_approval,
}
use yunohost_mcp.Policy.Confirmation.Trace.{
  Action, create, approve, peek, consume, finalize, revert, one_if, creates, run, spends, claims,
  releases, spent_along, claimed_along, released_along, created_along,
}

abbrev pub is_pending : String → ConfirmationStore → Bool
is_pending id s = is_some (Dict.get s.pending id)

-- Pending and held by no deferred consume.
abbrev pub is_free : String → ConfirmationStore → Bool
is_free id s = is_pending id s && not (Texts.contains s.in_flight id)

is_pending-put :
    (d : Dict ConfirmationTicket) (k : String) (t : ConfirmationTicket) (j : String)
    → is_some (Dict.get (Dict.put d k t) j) ≡ (k == j || is_some (Dict.get d j))
is_pending-put d k t j = ground (arith, get-put d k t j)

-- What `approve` does to the ids that are pending or in flight.
module _ (p : Platform) (now : ℕ) (j owner : String) (signed : SignedApproval)
    (s : ConfirmationStore) (id : String) where
  approve_ticket_pending :
      (t : ConfirmationTicket) (r : Result ConfirmationError String)
      → Dict.get s.pending j ≡ some t
      → let s' = (approve_ticket p j owner signed s t r).1 in
        (s'.in_flight ≡ s.in_flight) × (is_pending id s' ≡ is_pending id s)
  unfolding approve_ticket
  approve_ticket_pending t (err e) h = (refl, refl)
  approve_ticket_pending t (ok by) h = (
    refl,
    ground (
      arith,
      is_pending-put s.pending j (record t { owner_approved_by = some by }) id,
      eq_iff j id,
    ),
  )

  approve_found_pending :
      (found : Option ConfirmationTicket)
      → Dict.get s.pending j ≡ found
      → let s' = (approve_found p now j owner signed s found).1 in
        (s'.in_flight ≡ s.in_flight) × (one_if (is_pending id s') ≤ one_if (is_pending id s))
  unfolding approve_found
  approve_found_pending none h = (refl, omega arith)
  approve_found_pending (some t) h = ground (
    arith,
    get-remove s.pending j id,
    approve_ticket_pending t (owner_approval p owner t.confirmation_id t.operation_hash signed) h,
  )

  approve-pending :
      let s' = (Confirmation.approve p now j owner signed s).1 in
      (s'.in_flight ≡ s.in_flight) × (one_if (is_pending id s') ≤ one_if (is_pending id s))
  unfolding Confirmation.approve
  approve-pending = approve_found_pending (Dict.get s.pending j) refl

module _ (p : Platform) (id : String) where
  spends_step :
      (a : Action) (s : ConfirmationStore)
      → one_if (spends p id a s) + one_if (is_pending id (run p a s))
        ≤ one_if (creates id a) + one_if (is_pending id s)
  unfolding spends run Confirmation.create Confirmation.peek Confirmation.consume
      Confirmation.finalize Confirmation.revert
  spends_step (create now j call plan owner) s =
      ground
        (arith, is_pending-put s.pending j (Confirmation.create p now j call plan owner s).0 id)
  spends_step (approve now j owner signed) s =
      omega (arith, (approve-pending p now j owner signed s id).1)
  spends_step (peek now j) s = ground (arith, get-remove s.pending j id)
  spends_step (consume now j call owner true) s = ground (arith, get-remove s.pending j id)
  spends_step (consume now j call owner false) s =
      ground (arith, eq_iff j id, get-remove s.pending j id)
  spends_step (finalize j) s = ground (arith, eq_iff j id, get-remove s.pending j id)
  spends_step (revert j) s = ground arith

  claims_step :
      (a : Action) (s : ConfirmationStore)
      → one_if (claims p id a s) + one_if (is_free id (run p a s))
        ≤ one_if (creates id a) + one_if (releases p id a s) + one_if (is_free id s)
  unfolding claims releases run Confirmation.create Confirmation.peek Confirmation.consume
      Confirmation.finalize Confirmation.revert
  claims_step (create now j call plan owner) s =
      ground
        (arith, is_pending-put s.pending j (Confirmation.create p now j call plan owner s).0 id)
  claims_step (approve now j owner signed) s =
      ground (arith, approve-pending p now j owner signed s id)
  claims_step (peek now j) s = ground (arith, get-remove s.pending j id)
  claims_step (consume now j call owner true) s =
      ground (arith, eq_iff j id, get-remove s.pending j id, contains-add s.in_flight j id)
  claims_step (consume now j call owner false) s = ground (arith, get-remove s.pending j id)
  claims_step (finalize j) s =
      ground (arith, eq_iff j id, get-remove s.pending j id, contains-discard s.in_flight j id)
  claims_step (revert j) s = ground (arith, eq_iff j id, contains-discard s.in_flight j id)

  -- Along any sequence of calls, a ticket's id is used up at most as often as it was created, one
  -- more if it was pending at the start: each ticket at most once.
  pub spent_along-le :
      (actions : List Action) (s : ConfirmationStore)
      → spent_along p id actions s ≤ created_along id actions + one_if (is_pending id s)
  unfolding spent_along created_along
  spent_along-le [] s = omega arith
  spent_along-le (a ∷ rest) s = omega (arith, spends_step a s, spent_along-le rest (run p a s))

  -- Along any sequence of calls, deferred consumes hand out a ticket's id at most as often as it
  -- was created or given back after a failure, one more if it was free at the start. So between
  -- its creation and a failed operation, one privileged operation at most runs on it.
  pub claimed_along-le :
      (actions : List Action) (s : ConfirmationStore)
      → claimed_along p id actions s
        ≤ created_along id actions + released_along p id actions s + one_if (is_free id s)
  unfolding claimed_along released_along created_along
  claimed_along-le [] s = omega arith
  claimed_along-le (a ∷ rest) s = omega (arith, claims_step a s, claimed_along-le rest (run p a s))
