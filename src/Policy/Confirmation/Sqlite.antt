-- ===== src/Policy/Confirmation/Sqlite.antt =====
-- `SQLiteConfirmationStore` of src/yunohost_mcp/policy/confirmation.py: the table `confirmations`,
-- one row to a ticket, under its primary key. Each method but `peek` is one transaction (BEGIN
-- IMMEDIATE), and a rollback comes before any write of it, so it is a function of the table. `peek` has
-- no BEGIN: here no other process comes between its two reads. The two clock
-- readings of a deferred consume are two arguments.
pub mod Refines
pub mod Replies
use yunohost_mcp.Prelude.{
  ℕ, ◌+◌, String, Bool, true, false, not, ◌&&◌, Option, none, some, List, [], ◌==◌, eqb, leb,
  is_some, length, if◌then◌else◌,
}
use yunohost_mcp.Prelude.Dict
use yunohost_mcp.Prelude.Dict.{Dict}
use yunohost_mcp.Prelude.Json.{Json}
use yunohost_mcp.Prelude.Result.{Result, ok, err}
use yunohost_mcp.Platform.{Platform}
use yunohost_mcp.Policy.Confirmation.{Call}
use yunohost_mcp.Policy.Confirmation.Ticket.{
  ConfirmationError, unknown, expired, already_consumed, other_identity, other_tool,
  other_arguments, needs_owner, SignedApproval, ConfirmationTicket, hash_arguments, new_ticket,
  owner_approval,
}

-- What a method raises: a ConfirmationError, sqlite3.IntegrityError for a key that is taken, or
-- JSONDecodeError for a plan that does not read back.
pub data StoreError : Type 0 where
  refused : ConfirmationError → StoreError
  key_taken bad_plan : StoreError

pub record Row : Type 0 where
  pub pubkey : String
  pub tool : String
  pub arguments_hash : String
  pub plan : String
  pub created_at : ℕ
  pub expires_at : ℕ
  pub operation_hash : String
  pub owner_approved_by : Option String
  pub consumed_at : Option ℕ

pub record SqliteConfirmationStore : Type 0 where
  pub ttl_seconds : ℕ
  pub owner_approval_ttl_seconds : ℕ
  pub rows : Dict Row

-- `owner_approval_ttl_seconds or ttl_seconds`: zero counts as not given
abbrev pub owner_ttl : ℕ → Option ℕ → ℕ
owner_ttl ttl none = ttl
owner_ttl ttl (some o) = if eqb o 0 then ttl else o

-- SQLiteConfirmationStore(path, ...), on a new file
abbrev pub new_store : ℕ → Option ℕ → SqliteConfirmationStore
new_store ttl o = record {
  ttl_seconds = ttl;
  owner_approval_ttl_seconds = owner_ttl ttl o;
  rows = [];
}

abbrev pub Answer : Type 0 → Type 0
Answer A = Result StoreError A × SqliteConfirmationStore

-- DELETE FROM confirmations WHERE id=?
abbrev pub delete : String → SqliteConfirmationStore → SqliteConfirmationStore
delete id s = record s { rows = Dict.remove s.rows id }

-- UPDATE confirmations SET ... WHERE id=?, on a row that was read
abbrev pub update : String → Row → SqliteConfirmationStore → SqliteConfirmationStore
update id row s = record s { rows = Dict.put s.rows id row }

abbrev pub ttl_of : SqliteConfirmationStore → Bool → ℕ
ttl_of s owner = if owner then s.owner_approval_ttl_seconds else s.ttl_seconds

module _ (p : Platform) where
  -- `_row`
  unfoldable pub row_of : ConfirmationTicket → Row
  row_of t = record {
    pubkey = t.pubkey;
    tool = t.tool;
    arguments_hash = t.arguments_hash;
    plan = p.dumps t.plan;
    created_at = t.created_at;
    expires_at = t.expires_at;
    operation_hash = t.operation_hash;
    owner_approved_by = t.owner_approved_by;
    consumed_at = none;
  }

  -- `_get`, on the row that it found
  unfoldable pub ticket_of : String → Row → Option ConfirmationTicket
  ticket_of id r = elim (p.loads (p.encode r.plan)) [
    | none ↦ none
    | some plan ↦ some (record {
      confirmation_id = id;
      pubkey = r.pubkey;
      tool = r.tool;
      arguments_hash = r.arguments_hash;
      plan = plan;
      created_at = r.created_at;
      expires_at = r.expires_at;
      operation_hash = r.operation_hash;
      owner_approved_by = r.owner_approved_by;
    })
  ]

  pub create : ℕ → String → Call → Json → Bool → SqliteConfirmationStore → Answer ConfirmationTicket
  unfolding row_of
  create now id call plan require_owner_signature s =
      let ticket =
        new_ticket p id call.pubkey call.tool call.arguments plan now
          (now + ttl_of s require_owner_signature) in
      if is_some (Dict.get s.rows id)
      then (err key_taken, s)
      else (ok ticket, record s { rows = Dict.put s.rows id (row_of ticket) })

  -- `_get`, then `_check_live`, then the rest of the method
  with_live :
      {A : Type 0}
      → ℕ
      → String
      → SqliteConfirmationStore
      → (Row → ConfirmationTicket → Answer A)
      → Option Row
      → Answer A
  unfolding ticket_of
  with_live now id s body none = (err (refused unknown), s)
  with_live now id s body (some row) = elim (ticket_of id row) [
    | none ↦ (err bad_plan, s)
    | some ticket ↦
        if leb ticket.expires_at now then (err (refused expired), delete id s) else body row ticket
  ]

  approve_row :
      String
      → SqliteConfirmationStore
      → Row
      → ConfirmationTicket
      → Result ConfirmationError String
      → Answer ConfirmationTicket
  approve_row id s row ticket (err e) = (err (refused e), s)
  approve_row id s row ticket (ok approver) = (
    ok (record ticket { owner_approved_by = some approver }),
    update id (record row { owner_approved_by = some approver }) s,
  )

  approve_live :
      String
      → String
      → SignedApproval
      → SqliteConfirmationStore
      → Row
      → ConfirmationTicket
      → Answer ConfirmationTicket
  unfolding approve_row
  approve_live id owner_pubkey signed_approval s row ticket =
      if is_some row.consumed_at
      then (err (refused already_consumed), s)
      else approve_row id s row ticket (
          owner_approval p owner_pubkey ticket.confirmation_id ticket.operation_hash
            signed_approval)

  pub approve :
      ℕ → String → String → SignedApproval → SqliteConfirmationStore → Answer ConfirmationTicket
  unfolding approve_live with_live
  approve now id owner_pubkey signed_approval s =
      with_live now id s (approve_live id owner_pubkey signed_approval s) (Dict.get s.rows id)

  peek_live : SqliteConfirmationStore → Row → ConfirmationTicket → Answer ConfirmationTicket
  peek_live s row ticket =
      if is_some row.consumed_at then (err (refused already_consumed), s) else (ok ticket, s)

  pub peek : ℕ → String → SqliteConfirmationStore → Answer ConfirmationTicket
  unfolding peek_live with_live
  peek now id s = with_live now id s (peek_live s) (Dict.get s.rows id)

  consume_live :
      ℕ
      → String
      → Call
      → Bool
      → Bool
      → SqliteConfirmationStore
      → Row
      → ConfirmationTicket
      → Answer ConfirmationTicket
  consume_live now' id call require_owner_approval defer s row ticket =
      if not (ticket.pubkey == call.pubkey)
      then (err (refused other_identity), delete id s)
      else if not (ticket.tool == call.tool)
      then (err (refused other_tool), delete id s)
      else if not (ticket.arguments_hash == hash_arguments p call.arguments)
      then (err (refused other_arguments), delete id s)
      else if require_owner_approval && not (is_some ticket.owner_approved_by)
      then (err (refused needs_owner), s)
      else if not defer
      then (ok ticket, delete id s)
      else if is_some row.consumed_at
      then (err (refused already_consumed), s)
      else (ok ticket, update id (record row { consumed_at = some now' }) s)

  unfoldable pub consume :
      ℕ → ℕ → String → Call → Bool → Bool → SqliteConfirmationStore → Answer ConfirmationTicket
  unfolding consume_live with_live
  consume now now' id call require_owner_approval defer s =
      with_live now id s (consume_live now' id call require_owner_approval defer s)
        (Dict.get s.rows id)

pub finalize : String → SqliteConfirmationStore → Answer (Unit {0})
finalize id s =
    if not (is_some (Dict.get s.rows id)) then (err (refused unknown), s) else (ok tt, delete id s)

revert_row : String → SqliteConfirmationStore → Option Row → Answer (Unit {0})
revert_row id s none = (err (refused unknown), s)
revert_row id s (some row) = (ok tt, update id (record row { consumed_at = none }) s)

pub revert : String → SqliteConfirmationStore → Answer (Unit {0})
unfolding revert_row
revert id s = revert_row id s (Dict.get s.rows id)

-- len(store)
pub size : SqliteConfirmationStore → ℕ
size s = length s.rows
