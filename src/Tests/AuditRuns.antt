-- ===== src/Tests/AuditRuns.antt =====
-- Redaction, and the audit log on a first entry.
use yunohost_mcp.Prelude.{
  map, eqb, if◌then◌else◌, ℕ, zero, suc, String, ◌≡◌, ◌↔◌, refl, none, some, List, [], ◌∷◌, ◌++◌,
  arith,
}
use yunohost_mcp.Prelude.Int.{pos}
use yunohost_mcp.Prelude.Json.{Json, Fields, field, end, str, obj, get_field}
use yunohost_mcp.Prelude.Result.{ok}
use yunohost_mcp.Platform.{Platform}
use yunohost_mcp.Redaction.{redact, is_sensitive_key}
use yunohost_mcp.Redaction.Secrets.{IsAlikeFields, secret, same, no_fields, objects, redact-alike}
use yunohost_mcp.Audit.Lines.{
  splitlines, split_after, lstrip, rstrip, strip, line_value, line_values,
}
use yunohost_mcp.Audit.Log.{
  AuditEntry, payload, sealed, append_fields, append_line, line_of, genesis_hash, record_entry,
  read_all, verify, verify_from, get, find_entry, hash_of, take, without_self,
}
use yunohost_mcp.Audit.Chain.{IsChain, empty}
use yunohost_mcp.Audit.Records.{IsUtf8, IsWritten, record_entry-verify}
use yunohost_mcp.Audit.Recorded.{record_entry-alike, record_entry-get}
use yunohost_mcp.Audit.Tampering.{
  verify_iff, verify_unique, verify_from-take, value_of, NoCollision,
}
use yunohost_mcp.Tests.Demo.{demo, digest, alice, event_of}

abbrev q : Platform
q = record (demo (event_of (pos 1) [])) { encode = λ s. 123 ∷ 125 ∷ [] }

abbrev arguments : Fields
arguments = field "username" (str "bob") (field "password" (str "hunter2") end)

abbrev other_arguments : Fields
other_arguments = field "username" (str "bob") (field "password" (str "letmein") end)

alike : IsAlikeFields q arguments other_arguments
unfolding is_sensitive_key
alike = IsAlikeFields.open_field same (secret refl no_fields)

redact-alike_example : redact q (obj arguments) ≡ redact q (obj other_arguments)
redact-alike_example = redact-alike q (objects alike)

abbrev entry : AuditEntry
entry = record {
  tool = "users.create";
  arguments = arguments;
  caller_pubkey = alice;
  decision = "allowed";
  result = "success";
  yunohost_operation = none;
  error = none;
  approved_by = none;
  request_id = some "r1";
  execution_context = none;
}

abbrev written_fields : Fields
written_fields = sealed q (payload q "mcp-1" (pos 100) entry genesis_hash)

-- The platform on which the written line is read back.
abbrev p : Platform
p = record q { loads_text = λ s. some (obj written_fields) }

utf8 : IsUtf8 p
utf8 = record {
  nothing = refl;
  replaces = λ b text h. cc h;
  appends = λ b line text h printable. cc h;
  digests = λ b. refl;
}

written : IsWritten p (sealed p (payload p "mcp-1" (pos 100) entry genesis_hash))
unfolding line_of line_value strip lstrip rstrip sealed hash_of append_fields redact
    is_sensitive_key
written = record { printable = refl; value = refl }

record_entry-verify_example :
    (after : List ℕ) × (record_entry p "mcp-1" (pos 100) entry none ≡ ok (some after))
    × (read_all p (some after)
        ≡ ok (
            line_values p (splitlines [])
            ++ obj (sealed p (payload p "mcp-1" (pos 100) entry genesis_hash)) ∷ []))
    × (verify p (some after) ≡ ok [])
unfolding line_values split_after append_line line_of
record_entry-verify_example =
    record_entry-verify p "mcp-1" (pos 100) entry none [] genesis_hash utf8 refl refl empty written
      (ground arith) (ground arith)

record_entry-get_example :
    (after : List ℕ) × (record_entry p "mcp-1" (pos 100) entry none ≡ ok (some after))
    × (get p "mcp-1" (some after)
        ≡ ok (some (sealed p (payload p "mcp-1" (pos 100) entry genesis_hash))))
unfolding line_values split_after append_line line_of find_entry
record_entry-get_example =
    record_entry-get p "mcp-1" (pos 100) entry none [] genesis_hash utf8 refl refl empty written
      (ground arith) (ground arith) refl

record_entry-alike_example :
    record_entry q "mcp-1" (pos 100) entry none
    ≡ record_entry q "mcp-1" (pos 100) (record entry { arguments = other_arguments }) none
record_entry-alike_example = record_entry-alike q "mcp-1" (pos 100) entry other_arguments none alike

verify_iff_example : (verify p none ≡ ok []) ↔ (
    (entries : List Json) × (last : String) × (read_all p none ≡ ok entries)
    × IsChain p genesis_hash entries last)
verify_iff_example = verify_iff p none

abbrev first : List Json
first = obj (field "prev_hash" (str genesis_hash) (field "entry_hash" (str digest) end)) ∷ []

-- The same entry with its hash in front.
abbrev second : List Json
second = obj (field "entry_hash" (str digest) (field "prev_hash" (str genesis_hash) end)) ∷ []

-- The platform on which the bytes 49 are the line of the one entry, and 50 of the other.
abbrev lines : Platform
lines = record q {
  loads_text = λ s. elim s [
    | [] ↦ none
    | c ∷ cs ↦
        if eqb c 49
        then some (obj (field "prev_hash" (str genesis_hash) (field "entry_hash" (str digest) end)))
        else some (obj (field "entry_hash" (str digest) (field "prev_hash" (str genesis_hash) end)))
  ];
}

first_read : read_all lines (some (49 ∷ [])) ≡ ok first
unfolding read_all line_values line_value strip lstrip rstrip split_after
first_read = refl

second_read : read_all lines (some (50 ∷ [])) ≡ ok second
unfolding read_all line_values line_value strip lstrip rstrip split_after
second_read = refl

one_problem_free :
    (verify_from lines genesis_hash 1 first ≡ ok [])
    × (verify_from lines genesis_hash 1 second ≡ ok [])
unfolding verify_from get_field hash_of
one_problem_free = (refl, refl)

no_collision : NoCollision lines first second
unfolding without_self
no_collision zero a b h k same_hash = cc (h, k)
no_collision (suc n) a b h k same_hash = absurd cc

verify_unique_example : map (value_of "prev_hash") first ≡ map (value_of "prev_hash") second
unfolding verify get_field
verify_unique_example =
    verify_unique lines (some (49 ∷ [])) (some (50 ∷ [])) first second first_read second_read
      (ground (arith, first_read, one_problem_free)) (ground (arith, second_read, one_problem_free))
      refl refl no_collision "prev_hash"

first_verified : verify_from q genesis_hash 1 first ≡ ok []
unfolding verify_from get_field hash_of
first_verified = refl

verify_from-take_example : verify_from q genesis_hash 1 (take 0 first) ≡ ok []
verify_from-take_example = verify_from-take q first 0 first_verified
