-- ===== src/Audit/Log.antt =====
-- src/yunohost_mcp/audit/log.py: AuditLog. Its file is a list of bytes, or absent. Rights of the file,
-- its directory and symbolic links are not modelled.
use yunohost_mcp.Prelude.{
  ℕ, ◌-◌, zero, suc, String, Bool, true, false, not, Option, none, some, List, [], ◌∷◌, ◌++◌, ◌==◌,
  ltb, length, if◌then◌else◌,
}
use yunohost_mcp.Prelude.Int.{ℤ}
use yunohost_mcp.Prelude.Json.{Json, Fields, null, int, str, obj, end, field, get_field}
use yunohost_mcp.Prelude.Result.{Result, ok, err, ◌>>=◌}
use yunohost_mcp.Platform.{Platform}
use yunohost_mcp.Redaction.{redact_fields}
use yunohost_mcp.Audit.Lines.{Codes, splitlines, line_value, line_values}

-- A line that is JSON and no object (AttributeError), and a text that is not UTF-8 (UnicodeDecodeError).
pub data AuditError : Type 0 where
  not_object bad_text : AuditError

abbrev pub File : Type 0
File = Option (List ℕ)

-- _GENESIS_HASH
abbrev pub genesis_hash : String
genesis_hash = "0000000000000000000000000000000000000000000000000000000000000000"

-- _MAX_READ_BYTES, and the window of `_last_entry_hash`
abbrev pub max_read_bytes : ℕ
max_read_bytes = 67108864

abbrev pub tail_bytes : ℕ
tail_bytes = 1048576

-- The bytes from a position on.
unfoldable pub seek : ℕ → List ℕ → List ℕ
seek zero bytes = bytes
seek (suc n) [] = []
seek (suc n) (b ∷ bytes) = seek n bytes

-- The last so many bytes.
abbrev pub tail : ℕ → List ℕ → List ℕ
tail window bytes = seek (length bytes - window) bytes

abbrev pub reverse {ℓ} : {A : Type ℓ} → List A → List A
reverse [] = []
reverse (x ∷ xs) = reverse xs ++ (x ∷ [])

-- What `record` is called with.
pub record AuditEntry : Type 0 where
  pub tool : String
  pub arguments : Fields
  pub caller_pubkey : String
  pub decision : String
  pub result : String
  pub yunohost_operation : Option String
  pub error : Option String
  pub approved_by : Option String
  pub request_id : Option String
  pub execution_context : Option String

abbrev pub or_none : Option String → Json
or_none none = null
or_none (some s) = str s

-- payload[key] = value, where there is a value
abbrev pub field_if : String → Option String → Fields → Fields
field_if key none rest = rest
field_if key (some s) rest = field key (str s) rest

unfoldable pub append_fields : Fields → Fields → Fields
append_fields end gs = gs
append_fields (field k v fs) gs = field k v (append_fields fs gs)

-- dict(entry) without `entry_hash`
unfoldable pub without_self : Fields → Fields
without_self end = end
without_self (field k v fs) =
    let rest = without_self fs in if k == "entry_hash" then rest else field k v rest

-- The problems that `verify` reports, each with the number of its entry.
pub data Problem : Type 0 where
  prev_hash_mismatch missing_entry_hash wrong_entry_hash : ℕ → Problem

-- A value that is a text.
abbrev pub text_of : Option Json → Option String
text_of (some (str s)) = some s
text_of _ = none

abbrev pub is_text : String → Option Json → Bool
is_text expected (some (str s)) = s == expected
is_text expected _ = false

abbrev pub problem_if : Bool → Problem → List Problem
problem_if true problem = problem ∷ []
problem_if false problem = []

abbrev pub after :
    List Problem → Result AuditError (List Problem) → Result AuditError (List Problem)
after problems (err e) = err e
after problems (ok more) = ok (problems ++ more)

-- isinstance(value, str) and value
abbrev pub non_empty : Option String → Option String
non_empty none = none
non_empty (some s) = if s == "" then none else some s

-- The hash of a line's entry, if it has one.
abbrev pub own_hash : Option Json → Result AuditError (Option String)
own_hash none = ok none
own_hash (some (obj fs)) = ok (non_empty (text_of (get_field fs "entry_hash")))
own_hash (some _) = err not_object

abbrev pub or_older :
    Result AuditError (Option String)
    → Result AuditError (Option String)
    → Result AuditError (Option String)
or_older (ok none) older = older
or_older (ok (some h)) older = ok (some h)
or_older (err e) older = err e

abbrev pub or_genesis : Option String → String
or_genesis none = genesis_hash
or_genesis (some h) = h

abbrev pub bytes_of : File → List ℕ
bytes_of none = []
bytes_of (some bytes) = bytes

unfoldable pub take {ℓ} : {A : Type ℓ} → ℕ → List A → List A
take zero xs = []
take (suc n) [] = []
take (suc n) (x ∷ xs) = x ∷ take n xs

module _ (p : Platform) where
  -- The object that `record` hashes.
  abbrev pub payload : String → ℤ → AuditEntry → String → Fields
  payload audit_id timestamp e prev_hash = field "audit_id" (str audit_id) (
      field "timestamp" (int timestamp) (
        field "caller" (str e.caller_pubkey) (
          field "tool" (str e.tool) (
            field "arguments" (obj (redact_fields p e.arguments)) (
              field "decision" (str e.decision) (
                field "yunohost_operation" (or_none e.yunohost_operation) (
                  field "result" (str e.result) (
                    field "error" (or_none e.error) (
                      field "approved_by" (or_none e.approved_by) (
                        field_if "request_id" e.request_id (
                          field_if "execution_context" e.execution_context
                            (field "prev_hash" (str prev_hash) end))))))))))))

  unfoldable pub hash_of : Fields → String
  hash_of fs = p.sha256 (p.encode (p.dumps_sorted (obj fs)))

  -- `{**payload, "entry_hash": entry_hash}`
  unfoldable pub sealed : Fields → Fields
  sealed fs = append_fields fs (field "entry_hash" (str (hash_of fs)) end)

  -- The loop of `_last_entry_hash`, over the lines from the last.
  unfoldable pub newest_hash : List Codes → Result AuditError (Option String)
  newest_hash [] = ok none
  newest_hash (line ∷ lines) = or_older (own_hash (line_value p line)) (newest_hash lines)

  -- `_last_entry_hash`
  unfoldable pub last_entry_hash : File → Result AuditError (Option String)
  last_entry_hash none = ok none
  last_entry_hash (some bytes) =
      newest_hash (reverse (splitlines (p.decode_replace (tail tail_bytes bytes))))

  -- The line of an entry, without its end.
  unfoldable pub line_of : Fields → List ℕ
  line_of fs = p.encode (p.dumps_default (obj fs))

  -- The file after its line is written.
  unfoldable pub append_line : Fields → File → List ℕ
  append_line fs file = bytes_of file ++ (line_of fs ++ 10 ∷ [])

  -- `record`
  unfoldable pub record_entry : String → ℤ → AuditEntry → File → Result AuditError File
  record_entry audit_id timestamp e file = do
    last ← last_entry_hash file
    ok (some (append_line (sealed (payload audit_id timestamp e (or_genesis last))) file))

  -- `_read_all`
  unfoldable pub read_all : File → Result AuditError (List Json)
  read_all none = ok []
  read_all (some bytes) =
      if ltb max_read_bytes (length bytes)
      then ok (line_values p (splitlines (p.decode_replace (tail max_read_bytes bytes))))
      else elim (p.decode bytes) [
        | none ↦ err bad_text
        | some text ↦ ok (line_values p (splitlines text))
      ]

  -- `list`, of no limit or a natural one
  unfoldable pub list : Option ℕ → File → Result AuditError (List Json)
  list limit file = do
    entries ← read_all file
    ok (elim limit [ none ↦ reverse entries | some n ↦ take n (reverse entries) ])

  unfoldable pub find_entry : String → List Json → Result AuditError (Option Fields)
  find_entry audit_id [] = ok none
  find_entry audit_id (obj fs ∷ entries) =
      let rest = find_entry audit_id entries in
      if is_text audit_id (get_field fs "audit_id") then ok (some fs) else rest
  find_entry audit_id (_ ∷ entries) = err not_object

  -- `get`
  unfoldable pub get : String → File → Result AuditError (Option Fields)
  get audit_id file = do entries ← read_all file; find_entry audit_id entries

  -- The loop of `verify`.
  unfoldable pub verify_from : String → ℕ → List Json → Result AuditError (List Problem)
  verify_from expected_prev line [] = ok []
  verify_from expected_prev line (obj fs ∷ entries) =
      let linked = is_text expected_prev (get_field fs "prev_hash") in
      let mismatch = problem_if (not linked) (prev_hash_mismatch line) in
      elim (text_of (get_field fs "entry_hash")) [
        | none ↦
            after (mismatch ++ missing_entry_hash line ∷ [])
              (verify_from expected_prev (suc line) entries)
        | some stored_hash ↦
            let matches = stored_hash == hash_of (without_self fs) in
            after (mismatch ++ problem_if (not matches) (wrong_entry_hash line))
              (verify_from stored_hash (suc line) entries)
      ]
  verify_from expected_prev line (_ ∷ entries) = err not_object

  -- `verify`
  unfoldable pub verify : File → Result AuditError (List Problem)
  verify file = do entries ← read_all file; verify_from genesis_hash 1 entries
