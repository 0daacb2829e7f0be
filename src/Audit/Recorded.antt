-- ===== src/Audit/Recorded.antt =====
-- What is found of an entry after it is recorded.
use yunohost_mcp.Prelude.{
  ℕ, String, ◌≡◌, ◌≤◌, refl, ap, true, Option, none, some, List, [], ◌∷◌, ◌++◌, eq_refl, arith,
  length,
}
use yunohost_mcp.Prelude.Int.{ℤ}
use yunohost_mcp.Prelude.Json.{Json, Fields, null, bool, int, str, arr, obj, get_field}
use yunohost_mcp.Prelude.Result.{Result, ok, err, ◌>>=◌}
use yunohost_mcp.Platform.{Platform}
use yunohost_mcp.Redaction.Secrets.{IsAlikeFields, redact_fields-alike}
use yunohost_mcp.Audit.Lines.{Codes, line_values, splitlines}
use yunohost_mcp.Audit.Lines.Laws.{ends_line}
use yunohost_mcp.Audit.Log.{
  AuditError, last_entry_hash, or_genesis, AuditEntry, File, is_text, append_fields, append_line,
  sealed, payload, genesis_hash, record_entry, get, find_entry, bytes_of, tail_bytes,
  max_read_bytes,
}
use yunohost_mcp.Audit.Chain.{IsChain}
use yunohost_mcp.Audit.Records.{IsUtf8, IsWritten, record_entry-verify}

module _ (p : Platform) where
  -- What is under sensitive keys of the arguments has no effect on the log, at any depth.
  pub record_entry-alike :
      (audit_id : String) (timestamp : ℤ) (e : AuditEntry) (arguments : Fields) (file : File)
      → IsAlikeFields p e.arguments arguments
      → record_entry p audit_id timestamp e file
        ≡ record_entry p audit_id timestamp (record e { arguments = arguments }) file
  unfolding record_entry
  record_entry-alike audit_id timestamp e arguments file alike = by_last (last_entry_hash p file)
    where
      -- what the same reading of the log makes of both entries
      by_last :
          (read : Result AuditError (Option String))
          → (read >>= λ last. ok (
              some
                (append_line p (sealed p (payload p audit_id timestamp e (or_genesis last))) file)))
            ≡ (read >>= λ last. ok (
                some (
                  append_line p
                    (sealed p (
                      payload p audit_id timestamp
                        (record e { arguments = arguments })
                        (or_genesis last)))
                    file)))
      by_last (err e') = refl
      by_last (ok last) =
          let same : payload p audit_id timestamp e (or_genesis last)
              ≡ payload p audit_id timestamp (record e { arguments = arguments })
                  (or_genesis last) =
            cc (redact_fields-alike p alike) in
          ap (λ fs. ok (some (append_line p (sealed p fs) file))) same

  find_entry-append :
      (audit_id : String) (entries : List Json) (fs : Fields)
      → find_entry p audit_id entries ≡ ok none
      → is_text audit_id (get_field fs "audit_id") ≡ true
      → find_entry p audit_id (entries ++ obj fs ∷ []) ≡ ok (some fs)
  unfolding find_entry
  find_entry-append audit_id [] fs absent found = ground (arith, found)
  find_entry-append audit_id (obj gs ∷ entries) fs absent found =
      let later = find_entry-append audit_id entries fs in ground (arith, absent, found, later)
  find_entry-append audit_id (null ∷ entries) fs absent found = absurd cc
  find_entry-append audit_id (bool b ∷ entries) fs absent found = absurd cc
  find_entry-append audit_id (int n ∷ entries) fs absent found = absurd cc
  find_entry-append audit_id (str s ∷ entries) fs absent found = absurd cc
  find_entry-append audit_id (arr vs ∷ entries) fs absent found = absurd cc

  sealed-id :
      (audit_id : String) (timestamp : ℤ) (e : AuditEntry) (prev : String)
      → is_text audit_id (get_field (sealed p (payload p audit_id timestamp e prev)) "audit_id")
        ≡ true
  unfolding sealed append_fields get_field
  sealed-id audit_id timestamp e prev = eq_refl audit_id

  -- An entry that `record` has added to such a log is what `get` gives for its id, where no older entry
  -- has this id.
  pub record_entry-get :
      (audit_id : String) (timestamp : ℤ) (e : AuditEntry) (file : File) (text : Codes)
      (last : String)
      → IsUtf8 p
      → p.decode (bytes_of file) ≡ some text
      → ends_line text ≡ true
      → IsChain p genesis_hash (line_values p (splitlines text)) last
      → IsWritten p (sealed p (payload p audit_id timestamp e last))
      → length (bytes_of file) ≤ tail_bytes
      → length (append_line p (sealed p (payload p audit_id timestamp e last)) file)
        ≤ max_read_bytes
      → find_entry p audit_id (line_values p (splitlines text)) ≡ ok none
      → (after : List ℕ) × (record_entry p audit_id timestamp e file ≡ ok (some after))
        × (get p audit_id (some after) ≡ ok (some (sealed p (payload p audit_id timestamp e last))))
  unfolding get
  record_entry-get audit_id timestamp e file text last u d ends chain written small small_after
        new =
      let (after, recorded, reread, intact) =
        record_entry-verify p audit_id timestamp e file text last u d ends chain written small
          small_after in
      let found =
        find_entry-append audit_id (line_values p (splitlines text))
          (sealed p (payload p audit_id timestamp e last)) new
          (sealed-id audit_id timestamp e last) in
      (after, recorded, cc (reread, found))
