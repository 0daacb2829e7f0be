-- ===== src/Concord/PendingSignature.antt =====
-- src/yunohost_mcp/concord_pending_signature.py: drafts that wait for the caller's signature. The table
-- is a dictionary by draft id; a JSON column is the value that it is read back as. Each statement is a
-- transaction of its own, since the connection commits by itself.
pub mod Race
use yunohost_mcp.Prelude.{
  ℕ, ◌+◌, String, Bool, true, false, not, Option, none, some, List, [], ◌∷◌, ◌==◌, leb, is_some,
  if◌then◌else◌,
}
use yunohost_mcp.Prelude.Dict
use yunohost_mcp.Prelude.Dict.{Dict}
use yunohost_mcp.Prelude.Json.{Fields, end}
use yunohost_mcp.Prelude.Result.{Result, ok, err}

-- `PendingSignatureError`, by its messages, and sqlite3.IntegrityError
pub data PendingSignatureError : Type 0 where
  unknown expired other_identity other_operation duplicate : PendingSignatureError

pub record PendingSignature : Type 0 where
  pub draft_id : String
  pub pubkey : String
  pub purpose : String
  pub rumor : Fields
  pub seal_template : Fields
  pub stream_key : Fields
  pub context : Fields
  pub created_at : ℕ
  pub expires_at : ℕ

pub record PendingSignatureStore : Type 0 where
  pub ttl_seconds : ℕ
  pub rows : Dict PendingSignature

-- What `create` is called with.
pub record Draft : Type 0 where
  pub pubkey : String
  pub purpose : String
  pub rumor : Fields
  pub seal_template : Fields
  pub stream_key : Fields
  pub context : Option Fields

-- `context or {}`
abbrev pub context_or_empty : Option Fields → Fields
context_or_empty none = end
context_or_empty (some fs) = fs

-- `create`, at this time and with this new id
unfoldable pub create :
    ℕ
    → String
    → Draft
    → PendingSignatureStore
    → Result PendingSignatureError PendingSignature × PendingSignatureStore
create now id draft s =
    let pending : PendingSignature = record {
      draft_id = id;
      pubkey = draft.pubkey;
      purpose = draft.purpose;
      rumor = draft.rumor;
      seal_template = draft.seal_template;
      stream_key = draft.stream_key;
      context = context_or_empty draft.context;
      created_at = now;
      expires_at = now + s.ttl_seconds;
    } in
    if is_some (Dict.get s.rows id)
    then (err duplicate, s)
    else (ok pending, record s { rows = Dict.put s.rows id pending })

-- Who asks for a draft, for which operation, and the reading of the clock.
pub record Attempt : Type 0 where
  pub now : ℕ
  pub pubkey : String
  pub purpose : String

-- DELETE FROM pending_signatures WHERE id = ?
abbrev pub delete : String → PendingSignatureStore → PendingSignatureStore
delete id s = record s { rows = Dict.remove s.rows id }

-- The checks of the row after it is deleted.
unfoldable pub checked : Attempt → PendingSignature → Result PendingSignatureError PendingSignature
checked a row =
    if leb row.expires_at a.now
    then err expired
    else if not (row.pubkey == a.pubkey)
    then err other_identity
    else if not (row.purpose == a.purpose)
    then err other_operation
    else ok row

-- `consume`, when no other process comes between its statements
unfoldable pub consume :
    String
    → Attempt
    → PendingSignatureStore
    → Result PendingSignatureError PendingSignature × PendingSignatureStore
consume id a s = elim (Dict.get s.rows id) [
  | none ↦ (err unknown, s)
  | some row ↦ (checked a row, delete id s)
]

-- How far a call of `consume` has come.
pub data Phase : Type 0 where
  waiting : Phase
  selected : PendingSignature → Phase
  answered : Result PendingSignatureError PendingSignature → Phase

-- The next statement of a call: SELECT, then DELETE.
unfoldable pub step :
    String → Attempt → Phase → PendingSignatureStore → Phase × PendingSignatureStore
step id a waiting s = elim (Dict.get s.rows id) [
  | none ↦ (answered (err unknown), s)
  | some row ↦ (selected row, s)
]
step id a (selected row) s = (answered (checked a row), delete id s)
step id a (answered r) s = (answered r, s)

-- Two calls for one draft, by the order of their statements: `true` is a statement of the first.
unfoldable pub run :
    String
    → Attempt
    → Attempt
    → List Bool
    → Phase
    → Phase
    → PendingSignatureStore
    → Phase × Phase × PendingSignatureStore
run id a b [] first second s = (first, second, s)
run id a b (true ∷ schedule) first second s =
    let (first', s') = step id a first s in run id a b schedule first' second s'
run id a b (false ∷ schedule) first second s =
    let (second', s') = step id b second s in run id a b schedule first second' s'
