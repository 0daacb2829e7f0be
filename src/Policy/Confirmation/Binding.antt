-- ===== src/Policy/Confirmation/Binding.antt =====
-- What `consume` and `peek` have checked when they hand a ticket out, and what they leave behind.
use yunohost_mcp.Prelude.{
  ℕ, ◌<◌, String, ◌≡◌, refl, ap, ◌↔◌, inl, inr, Bool, true, false, Option, none, some, arith, ◌==◌,
  eq_iff, is_some, Option-cases, if◌then◌else◌,
}
use yunohost_mcp.Prelude.Dict
use yunohost_mcp.Prelude.Dict.{get-remove}
use yunohost_mcp.Prelude.Texts
use yunohost_mcp.Prelude.Texts.{contains-discard}
use yunohost_mcp.Prelude.Result.{ok, err}
use yunohost_mcp.Platform.{Platform}
use yunohost_mcp.Policy.Confirmation.{
  peek, peek_found, ConfirmationStore, Call, drop, mark, unmark, consume, consume_found, revert,
}
use yunohost_mcp.Policy.Confirmation.Ticket.{
  ConfirmationError, unknown, already_consumed, needs_owner, ConfirmationTicket, hash_arguments,
}

-- The ticket was issued to this caller for this tool and these arguments, is live, and has the
-- owner's approval where the call needs it.
pub record Authorises (p : Platform) (now : ℕ) (call : Call) (owner : Bool)
    (ticket : ConfirmationTicket) : Type 0 where
  pub live : now < ticket.expires_at
  pub identity : ticket.pubkey ≡ call.pubkey
  pub tool : ticket.tool ≡ call.tool
  pub arguments : ticket.arguments_hash ≡ hash_arguments p call.arguments
  pub approved : owner ≡ true → is_some ticket.owner_approved_by ≡ true

-- The store after a successful consume.
abbrev pub spent : Bool → String → ConfirmationStore → ConfirmationStore
spent defer id s = if defer then mark id s else drop id s

-- The errors that leave the ticket in place.
abbrev pub keeps_ticket : ConfirmationError → Bool
keeps_ticket unknown = true
keeps_ticket needs_owner = true
keeps_ticket already_consumed = true
keeps_ticket _ = false

module _ (p : Platform) (now : ℕ) (id : String) (call : Call) (owner defer : Bool)
    (s : ConfirmationStore) where
  consume_found_sound :
      (found : Option ConfirmationTicket) (t : ConfirmationTicket) (s' : ConfirmationStore)
      → consume_found p now id call owner defer s found ≡ (ok t, s')
      → (found ≡ some t)
        × Authorises p now call owner t
        × (defer ≡ true → Texts.contains s.in_flight id ≡ false)
        × (s' ≡ spent defer id s)
  unfolding consume_found
  consume_found_sound none t s' h = absurd (ground arith)
  consume_found_sound (some u) t s' h = ground (
    arith,
    eq_iff u.pubkey call.pubkey,
    eq_iff u.tool call.tool,
    eq_iff u.arguments_hash (hash_arguments p call.arguments),
  )

  consume_found_complete :
      (t : ConfirmationTicket)
      → Authorises p now call owner t
      → (defer ≡ true → Texts.contains s.in_flight id ≡ false)
      → consume_found p now id call owner defer s (some t) ≡ (ok t, spent defer id s)
  unfolding consume_found
  consume_found_complete t a free = ground (
    arith,
    a.approved,
    free,
    eq_iff t.pubkey call.pubkey,
    eq_iff t.tool call.tool,
    eq_iff t.arguments_hash (hash_arguments p call.arguments),
  )

  -- A consume succeeds exactly when the id is pending, its ticket authorises the call, and, for a
  -- deferred one, nobody holds it already. It then hands that ticket out, and leaves the store
  -- with the ticket removed, or marked as in flight if deferred.
  pub consume_iff :
      (t : ConfirmationTicket) (s' : ConfirmationStore)
      → (consume p now id call owner defer s ≡ (ok t, s')) ↔ (
          (Dict.get s.pending id ≡ some t)
          × Authorises p now call owner t
          × (defer ≡ true → Texts.contains s.in_flight id ≡ false)
          × (s' ≡ spent defer id s))
  unfolding consume
  consume_iff t s' = (
    consume_found_sound (Dict.get s.pending id) t s',
    λ (found, a, free, left). rw (found, left) (consume_found_complete t a free),
  )

  consume_found_failed :
      (found : Option ConfirmationTicket) (e : ConfirmationError) (s' : ConfirmationStore)
      → consume_found p now id call owner defer s found ≡ (err e, s')
      → s' ≡ (if keeps_ticket e then s else drop id s)
  unfolding consume_found
  consume_found_failed none e s' h = ground arith
  consume_found_failed (some u) e s' h = ground arith

  -- A consume that fails removes the ticket, whatever the call was wrong about, but for three
  -- errors: an unknown id, a missing approval of the owner, and a ticket that is in flight leave
  -- the whole store as it was.
  pub consume_failed :
      (e : ConfirmationError) (s' : ConfirmationStore)
      → consume p now id call owner defer s ≡ (err e, s')
      → s' ≡ (if keeps_ticket e then s else drop id s)
  unfolding consume
  consume_failed e s' h = consume_found_failed (Dict.get s.pending id) e s' h

  -- The answer of an immediate consume does not depend on the in-flight markers: a ticket that a
  -- deferred consume holds is handed out again.
  pub consume-mark :
      (held : String)
      → (consume p now id call owner false (mark held s)).0
        ≡ (consume p now id call owner false s).0
  unfolding consume
  consume-mark held = elim (Option-cases (Dict.get s.pending id)) [
    | inl e ↦ rw e (unfold consume_found in refl)
    | inr (t, e) ↦ rw e (unfold consume_found in ground arith)
  ]

-- No call changes what is in flight or pending under another id.
module _ (p : Platform) (now : ℕ) (id : String) (call : Call) (owner defer : Bool) where
  consume_found-other :
      (s : ConfirmationStore) (found : Option ConfirmationTicket) (j : String)
      → (id == j) ≡ false
      → Dict.get (consume_found p now id call owner defer s found).1.pending j
        ≡ Dict.get s.pending j
  unfolding consume_found
  consume_found-other s none j h = refl
  consume_found-other s (some u) j h = ground (arith, get-remove s.pending id j)

  pub consume-other :
      (s : ConfirmationStore) (j : String)
      → (id == j) ≡ false
      → Dict.get (consume p now id call owner defer s).1.pending j ≡ Dict.get s.pending j
  unfolding consume
  consume-other s j h = consume_found-other s (Dict.get s.pending id) j h

-- A ticket that a deferred consume has taken and that is given back after a failure can be taken
-- again for the same call, as long as it is live.
pub consume-revert :
    (p : Platform) (now later : ℕ) (id : String) (call : Call) (owner : Bool)
    (s s' : ConfirmationStore) (t : ConfirmationTicket)
    → consume p now id call owner true s ≡ (ok t, s')
    → later < t.expires_at
    → (consume p later id call owner true (revert id s').1).0 ≡ ok t
unfolding revert
consume-revert p now later id call owner s s' t h live =
    let (found, a, _, left) = (consume_iff p now id call owner true s t s').0 h in
    let back : (revert id s').1 ≡ unmark id (mark id s) = ground (arith, left, found) in
    let again : Authorises p later call owner t = record {
      live = live;
      identity = a.identity;
      tool = a.tool;
      arguments = a.arguments;
      approved = a.approved;
    } in
    let free : Texts.contains (unmark id (mark id s)).in_flight id ≡ false =
      ground (arith, eq_iff id id, contains-discard (Texts.add s.in_flight id) id id) in
    rw back (
      ap (λ x. x.0)
        ((consume_iff p later id call owner true (unmark id (mark id s)) t
            (spent true id (unmark id (mark id s)))).1
          (found, again, λ u. free, refl)))

peek_found_sound :
    (now : ℕ) (id : String) (s s' : ConfirmationStore) (found : Option ConfirmationTicket)
    (t : ConfirmationTicket)
    → peek_found now id s found ≡ (ok t, s')
    → (found ≡ some t) × (now < t.expires_at)
unfolding peek_found
peek_found_sound now id s s' none t h = absurd (ground arith)
peek_found_sound now id s s' (some u) t h = (ground arith, ground arith)

-- A ticket that is looked at is pending under this id, and is live.
pub peek_sound :
    (now : ℕ) (id : String) (s s' : ConfirmationStore) (t : ConfirmationTicket)
    → peek now id s ≡ (ok t, s')
    → (Dict.get s.pending id ≡ some t) × (now < t.expires_at)
unfolding peek
peek_sound now id s s' t h = peek_found_sound now id s s' (Dict.get s.pending id) t h

-- An id that is not pending is unknown.
pub consume-missing :
    (p : Platform) (now : ℕ) (id : String) (call : Call) (owner defer : Bool)
    (s : ConfirmationStore)
    → Dict.get s.pending id ≡ none
    → consume p now id call owner defer s ≡ (err unknown, s)
unfolding consume consume_found
consume-missing p now id call owner defer s missing = ground (arith, missing)
