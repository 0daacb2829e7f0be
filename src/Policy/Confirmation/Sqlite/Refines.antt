-- ===== src/Policy/Confirmation/Sqlite/Refines.antt =====
-- The table implements the in-memory store: from stores that show the same tickets, the same calls
-- have the same answers, and leave stores that show the same tickets.
use yunohost_mcp.Prelude.{
  ℕ, String, Bool, false, ◌≡◌, refl, Option, none, some, arith, eq_iff, is_some, Option-cases, inl,
  inr,
}
use yunohost_mcp.Prelude.Dict
use yunohost_mcp.Prelude.Dict.{get-put, get-remove}
use yunohost_mcp.Prelude.Texts
use yunohost_mcp.Prelude.Texts.{contains-add, contains-discard}
use yunohost_mcp.Prelude.Json.{Json}
use yunohost_mcp.Prelude.Result.{Result, ok, err}
use yunohost_mcp.Platform.{Platform}
use yunohost_mcp.Policy.Confirmation
use yunohost_mcp.Policy.Confirmation.{ConfirmationStore, Call}
use yunohost_mcp.Policy.Confirmation.Ticket.{
  ConfirmationError, ConfirmationTicket, SignedApproval, owner_approval, new_ticket,
}
use yunohost_mcp.Policy.Confirmation.Sqlite
use yunohost_mcp.Policy.Confirmation.Sqlite.{
  StoreError, refused, Row, SqliteConfirmationStore, row_of, ticket_of, with_live, consume_live,
}

-- What a store shows under an id: its ticket, and whether a deferred consume holds it.
abbrev pub memory_view : ConfirmationStore → String → Option (Option ConfirmationTicket × Bool)
memory_view m id = elim (Dict.get m.pending id) [
  | none ↦ none
  | some t ↦ some (some t, Texts.contains m.in_flight id)
]

abbrev pub table_view :
    Platform → SqliteConfirmationStore → String → Option (Option ConfirmationTicket × Bool)
table_view p s id = elim (Dict.get s.rows id) [
  | none ↦ none
  | some r ↦ some (ticket_of p id r, is_some r.consumed_at)
]

pub record Refines (p : Platform) (m : ConfirmationStore) (s : SqliteConfirmationStore)
    : Type 0 where
  pub ttl : m.ttl_seconds ≡ s.ttl_seconds
  pub owner_ttl : m.owner_approval_ttl_seconds ≡ s.owner_approval_ttl_seconds
  pub views : (id : String) → memory_view m id ≡ table_view p s id

-- The answer of the in-memory store, as the other one gives it.
abbrev pub lifted : {A : Type 0} → Result ConfirmationError A → Result StoreError A
lifted (ok a) = ok a
lifted (err e) = err (refused e)

-- Columns that a ticket does not show.
ticket_of-consumed_at :
    (p : Platform) (id : String) (r : Row) (c : Option ℕ)
    → ticket_of p id (record r { consumed_at = c }) ≡ ticket_of p id r
unfolding ticket_of
ticket_of-consumed_at p id r c = refl

ticket_of-approved :
    (p : Platform) (id by : String) (r : Row) (t : ConfirmationTicket)
    → ticket_of p id r ≡ some t
    → ticket_of p id (record r { owner_approved_by = some by })
      ≡ some (record t { owner_approved_by = some by })
unfolding ticket_of
ticket_of-approved p id by r t e = ground arith

-- A plan that reads back makes a row that reads back.
ticket_of-row_of :
    (p : Platform) (t : ConfirmationTicket)
    → p.loads (p.encode (p.dumps t.plan)) ≡ some t.plan
    → ticket_of p t.confirmation_id (row_of p t) ≡ some t
unfolding ticket_of row_of
ticket_of-row_of p t e = ground arith

created_under :
    (p : Platform) (now : ℕ) (id : String) (call : Call) (plan : Json) (owner : Bool)
    (m : ConfirmationStore)
    → (Confirmation.create p now id call plan owner m).0.confirmation_id ≡ id
unfolding Confirmation.create new_ticket
created_under p now id call plan owner m = refl

module _ (p : Platform) (m : ConfirmationStore) (s : SqliteConfirmationStore)
    (h : Refines p m s) where
  pub consume-answer :
      (now now' : ℕ) (id : String) (call : Call) (owner defer : Bool)
      → (Sqlite.consume p now now' id call owner defer s).0
        ≡ lifted (Confirmation.consume p now id call owner defer m).0
  unfolding Confirmation.consume Sqlite.consume
  consume-answer now now' id call owner defer = ground (arith, h.views id)

  pub consume-views :
      (now now' : ℕ) (id : String) (call : Call) (owner defer : Bool) (j : String)
      → memory_view (Confirmation.consume p now id call owner defer m).1 j
        ≡ table_view p (Sqlite.consume p now now' id call owner defer s).1 j
  unfolding Confirmation.consume Sqlite.consume
  consume-views now now' id call owner defer j = elim (Option-cases (Dict.get s.rows id)) [
    | inl e ↦ ground (arith, h.views id, h.views j)
    | inr (r, e) ↦ ground (
      arith,
      h.views id,
      h.views j,
      eq_iff id j,
      get-remove m.pending id j,
      get-remove s.rows id j,
      contains-add m.in_flight id j,
      get-put s.rows id (record r { consumed_at = some now' }) j,
      ticket_of-consumed_at p id r (some now'),
    )
  ]

  both_there :
      (id : String) (r : Row)
      → Dict.get s.rows id ≡ some r
      → (t : ConfirmationTicket) × (Dict.get m.pending id ≡ some t)
  both_there id r g = elim (Option-cases (Dict.get m.pending id)) [
    | inl f ↦ absurd (ground (arith, h.views id))
    | inr found ↦ found
  ]

  pub create-views :
      (now : ℕ) (id : String) (call : Call) (plan : Json) (owner : Bool)
      → Dict.get m.pending id ≡ none
      → Texts.contains m.in_flight id ≡ false
      → p.loads (p.encode (p.dumps plan)) ≡ some plan
      → let m' = Confirmation.create p now id call plan owner m in
        let s' = Sqlite.create p now id call plan owner s in
        (s'.0 ≡ ok m'.0) × ((j : String) → memory_view m'.1 j ≡ table_view p s'.1 j)
  unfolding Confirmation.create Sqlite.create new_ticket
  create-views now id call plan owner new free plain =
      let t = (Confirmation.create p now id call plan owner m).0 in
      (
        ground (arith, h.views id, h.ttl, h.owner_ttl),
        λ j. ground (
          arith,
          h.ttl,
          h.owner_ttl,
          h.views id,
          h.views j,
          eq_iff id j,
          get-put m.pending id t j,
          get-put s.rows id (row_of p t) j,
          ticket_of-row_of p t plain,
          created_under p now id call plan owner m,
        ),
      )

  module _ (now : ℕ) (id owner : String) (signed : SignedApproval) where
    approve_found-answer :
        (t : ConfirmationTicket) (r : Row) (res : Result ConfirmationError String)
        → Dict.get m.pending id ≡ some t
        → Dict.get s.rows id ≡ some r
        → owner_approval p owner t.confirmation_id t.operation_hash signed ≡ res
        → (Sqlite.approve p now id owner signed s).0
          ≡ lifted (Confirmation.approve p now id owner signed m).0
    unfolding Confirmation.approve Sqlite.approve
    approve_found-answer t r (ok by) f g e = ground (arith, h.views id)
    approve_found-answer t r (err x) f g e = ground (arith, h.views id)

    approve_found-views :
        (t : ConfirmationTicket) (r : Row) (res : Result ConfirmationError String)
        → Dict.get m.pending id ≡ some t
        → Dict.get s.rows id ≡ some r
        → owner_approval p owner t.confirmation_id t.operation_hash signed ≡ res
        → (j : String)
        → memory_view (Confirmation.approve p now id owner signed m).1 j
          ≡ table_view p (Sqlite.approve p now id owner signed s).1 j
    unfolding Confirmation.approve Sqlite.approve
    approve_found-views t r (ok by) f g e j = ground (
      arith,
      h.views id,
      h.views j,
      eq_iff id j,
      get-remove m.pending id j,
      get-remove s.rows id j,
      get-put m.pending id (record t { owner_approved_by = some by }) j,
      get-put s.rows id (record r { owner_approved_by = some by }) j,
      ticket_of-approved p id by r t,
    )
    approve_found-views t r (err x) f g e j =
        ground (arith, h.views id, h.views j, get-remove m.pending id j, get-remove s.rows id j)

    pub approve-answer :
        (Sqlite.approve p now id owner signed s).0
        ≡ lifted (Confirmation.approve p now id owner signed m).0
    approve-answer = elim (Option-cases (Dict.get s.rows id)) [
      | inl g ↦ unfold Confirmation.approve Sqlite.approve in ground (arith, h.views id)
      | inr (r, g) ↦ let (t, f) = both_there id r g in approve_found-answer t r _ f g refl
    ]

    pub approve-views :
        (j : String)
        → memory_view (Confirmation.approve p now id owner signed m).1 j
          ≡ table_view p (Sqlite.approve p now id owner signed s).1 j
    approve-views j = elim (Option-cases (Dict.get s.rows id)) [
      | inl g ↦ unfold Confirmation.approve Sqlite.approve in ground (arith, h.views id, h.views j)
      | inr (r, g) ↦ let (t, f) = both_there id r g in approve_found-views t r _ f g refl j
    ]

  pub peek-answer :
      (now : ℕ) (id : String) → (Sqlite.peek p now id s).0 ≡ lifted (Confirmation.peek now id m).0
  unfolding Confirmation.peek Sqlite.peek
  peek-answer now id = ground (arith, h.views id)

  pub peek-views :
      (now : ℕ) (id j : String)
      → memory_view (Confirmation.peek now id m).1 j ≡ table_view p (Sqlite.peek p now id s).1 j
  unfolding Confirmation.peek Sqlite.peek
  peek-views now id j =
      ground (arith, h.views id, h.views j, get-remove m.pending id j, get-remove s.rows id j)

  pub finalize-answer :
      (id : String) → (Sqlite.finalize id s).0 ≡ lifted (Confirmation.finalize id m).0
  unfolding Confirmation.finalize Sqlite.finalize
  finalize-answer id = ground (arith, h.views id)

  pub finalize-views :
      (id j : String)
      → memory_view (Confirmation.finalize id m).1 j ≡ table_view p (Sqlite.finalize id s).1 j
  unfolding Confirmation.finalize Sqlite.finalize
  finalize-views id j = ground (
    arith,
    h.views id,
    h.views j,
    get-remove m.pending id j,
    get-remove s.rows id j,
    contains-discard m.in_flight id j,
  )

  pub revert-answer : (id : String) → (Sqlite.revert id s).0 ≡ lifted (Confirmation.revert id m).0
  unfolding Confirmation.revert Sqlite.revert
  revert-answer id = ground (arith, h.views id)

  pub revert-views :
      (id j : String)
      → memory_view (Confirmation.revert id m).1 j ≡ table_view p (Sqlite.revert id s).1 j
  unfolding Confirmation.revert Sqlite.revert
  revert-views id j = elim (Option-cases (Dict.get s.rows id)) [
    | inl e ↦ ground (arith, h.views id, h.views j)
    | inr (r, e) ↦ ground (
      arith,
      h.views id,
      h.views j,
      eq_iff id j,
      contains-discard m.in_flight id j,
      get-put s.rows id (record r { consumed_at = none }) j,
      ticket_of-consumed_at p id r none,
    )
  ]
