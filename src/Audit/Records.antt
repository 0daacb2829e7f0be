-- ===== src/Audit/Records.antt =====
-- `record` keeps the log without problems.
use yunohost_mcp.Prelude.{
  ℕ, String, ◌≡◌, ◌≤◌, ◌-◌, refl, ap, subst, sym, ◌∙◌, true, false, Option, none, some, List, [],
  ◌∷◌, ◌++◌, ◌==◌, arith, length, inl, inr,
}
use yunohost_mcp.Prelude.Int.{ℤ}
use yunohost_mcp.Prelude.Json.{Json, Fields, str, obj, get_field}
use yunohost_mcp.Prelude.Result.{ok}
use yunohost_mcp.Platform.{Platform}
use yunohost_mcp.Audit.Lines.{Codes, split_after, with_value, line_value, line_values, splitlines}
use yunohost_mcp.Audit.Lines.Laws.{ends_line, is_printable, splitlines-line, line_values-append}
use yunohost_mcp.Audit.Log.{
  AuditEntry, File, reverse, newest_hash, last_entry_hash, hash_of, without_self, append_fields,
  append_line, line_of, sealed, payload, or_genesis, genesis_hash, record_entry, read_all, verify,
  bytes_of, seek, tail_bytes, max_read_bytes,
}
use yunohost_mcp.Audit.Chain.{IsChain, empty, linked}
use yunohost_mcp.Audit.Newest.{newest_hash-reverse}
use yunohost_mcp.Audit.Tampering.{verify_iff}

module _ (p : Platform) where
  IsChain-append :
      {prev middle last : String} {es fs : List Json}
      → IsChain p prev es middle
      → IsChain p middle fs last
      → IsChain p prev (es ++ fs) last
  IsChain-append empty more = more
  IsChain-append (linked fs h before own right rest) more =
      linked fs h before own right (IsChain-append rest more)

  -- What the platform does with UTF-8 and with digests.
  pub record IsUtf8 : Type 0 where
    pub nothing : p.decode [] ≡ some []
    pub replaces : (b : List ℕ) (text : Codes) → p.decode b ≡ some text → p.decode_replace b ≡ text
    pub appends :
        (b line : List ℕ) (text : Codes)
        → p.decode b ≡ some text
        → is_printable line ≡ true
        → p.decode (b ++ (line ++ 10 ∷ [])) ≡ some (text ++ (line ++ 10 ∷ []))
    pub digests : (b : List ℕ) → (p.sha256 b == "") ≡ false

  -- What json.dumps makes of these fields is one printable line, and json.loads reads it back.
  pub record IsWritten (fs : Fields) : Type 0 where
    pub printable : is_printable (line_of p fs) ≡ true
    pub value : line_value p (line_of p fs) ≡ some (obj fs)

  -- The entry that `record` writes continues a chain.
  sealed-links :
      (audit_id : String) (timestamp : ℤ) (e : AuditEntry) (prev : String)
      → (get_field (sealed p (payload p audit_id timestamp e prev)) "prev_hash" ≡ some (str prev))
        × (get_field (sealed p (payload p audit_id timestamp e prev)) "entry_hash"
            ≡ some (str (hash_of p (payload p audit_id timestamp e prev))))
        × (without_self (sealed p (payload p audit_id timestamp e prev))
            ≡ payload p audit_id timestamp e prev)
  unfolding sealed append_fields without_self get_field
  sealed-links audit_id timestamp e prev = (ground arith, ground arith, ground arith)

  read_all-text :
      (file : File) (text : Codes)
      → IsUtf8
      → p.decode (bytes_of file) ≡ some text
      → length (bytes_of file) ≤ max_read_bytes
      → read_all p file ≡ ok (line_values p (splitlines text))
  unfolding read_all line_values split_after
  read_all-text none text u d small =
      let same : [] ≡ text = cc (u.nothing, d) in
      subst (λ t. read_all p none ≡ ok (line_values p (splitlines t))) same refl
  read_all-text (some bytes) text u d small = ground (arith, d, small)

  last_entry_hash-text :
      (file : File) (text : Codes)
      → IsUtf8
      → p.decode (bytes_of file) ≡ some text
      → length (bytes_of file) ≤ tail_bytes
      → last_entry_hash p file ≡ newest_hash p (reverse (splitlines text))
  unfolding last_entry_hash seek newest_hash split_after
  last_entry_hash-text none text u d small =
      let same : [] ≡ text = cc (u.nothing, d) in
      subst (λ t. last_entry_hash p none ≡ newest_hash p (reverse (splitlines t))) same refl
  last_entry_hash-text (some bytes) text u d small =
      let whole : length bytes - tail_bytes ≡ 0 = ground arith in
      let replaced = u.replaces bytes text d in cc (whole, replaced)

  last_entry_hash-chain :
      (file : File) (text : Codes) (last : String)
      → IsUtf8
      → p.decode (bytes_of file) ≡ some text
      → length (bytes_of file) ≤ tail_bytes
      → IsChain p genesis_hash (line_values p (splitlines text)) last
      → (found : Option String) × (last_entry_hash p file ≡ ok found) × (or_genesis found ≡ last)
  unfolding hash_of
  last_entry_hash-chain file text last u d small chain =
      let read = last_entry_hash-text file text u d small in
      elim (newest_hash-reverse p (λ fs. u.digests (p.encode (p.dumps_sorted (obj fs))))
        (splitlines text) chain) [
          | inl (nothing, same) ↦ (none, read ∙ nothing, same)
          | inr found ↦ (some last, read ∙ found, refl)
        ]

  line_values-line :
      (text line : Codes) (fs : Fields)
      → ends_line text ≡ true
      → is_printable line ≡ true
      → line_value p line ≡ some (obj fs)
      → line_values p (splitlines (text ++ (line ++ 10 ∷ [])))
        ≡ line_values p (splitlines text) ++ obj fs ∷ []
  unfolding line_values
  line_values-line text line fs ends printable value =
      ap (line_values p) (splitlines-line text line ends printable)
      ∙ line_values-append p (splitlines text) (line ∷ [])
      ∙ ap (λ v. line_values p (splitlines text) ++ with_value p v []) value

  -- On a log without problems, whose last entry has this hash and whose lines end, `record` appends one
  -- entry, and the log is without problems again. The log has at most 1 MiB before, so that the hash is
  -- in the tail that is read, and at most 64 MiB after.
  pub record_entry-verify :
      (audit_id : String) (timestamp : ℤ) (e : AuditEntry) (file : File) (text : Codes)
      (last : String)
      → IsUtf8
      → p.decode (bytes_of file) ≡ some text
      → ends_line text ≡ true
      → IsChain p genesis_hash (line_values p (splitlines text)) last
      → IsWritten (sealed p (payload p audit_id timestamp e last))
      → length (bytes_of file) ≤ tail_bytes
      → length (append_line p (sealed p (payload p audit_id timestamp e last)) file)
        ≤ max_read_bytes
      → (after : List ℕ) × (record_entry p audit_id timestamp e file ≡ ok (some after))
        × (read_all p (some after)
            ≡ ok (
                line_values p (splitlines text)
                ++ obj (sealed p (payload p audit_id timestamp e last)) ∷ []))
        × (verify p (some after) ≡ ok [])
  unfolding record_entry append_line
  record_entry-verify audit_id timestamp e file text last u d ends chain written small small_after =
      let fs = payload p audit_id timestamp e last in
      let line = line_of p (sealed p fs) in
      let (found, read, newest) = last_entry_hash-chain file text last u d small chain in
      let recorded : record_entry p audit_id timestamp e file
          ≡ ok (some (append_line p (sealed p fs) file)) =
        cc (read, newest) in
      let entries = line_values-line text line (sealed p fs) ends written.printable written.value in
      let reread =
        read_all-text (some (append_line p (sealed p fs) file)) (text ++ (line ++ 10 ∷ [])) u
          (u.appends (bytes_of file) line text d written.printable) small_after
        ∙ ap (λ es. ok es) entries in
      let (before, own, body) = sealed-links audit_id timestamp e last in
      let one = linked (sealed p fs) (hash_of p fs) before own (ap (hash_of p) (sym body)) empty in
      let intact = (verify_iff p (some (append_line p (sealed p fs) file))).1 (
        line_values p (splitlines text) ++ obj (sealed p fs) ∷ [],
        hash_of p fs,
        reread,
        IsChain-append chain one,
      ) in
      (append_line p (sealed p fs) file, recorded, reread, intact)
