-- ===== src/Tests/Demo.antt =====
-- A platform whose functions have one value each where a run does not need more, and its events.
use yunohost_mcp.Prelude.{String, true, none, some, List, []}
use yunohost_mcp.Prelude.Int.{ℤ, pos}
use yunohost_mcp.Prelude.Json.{obj, end}
use yunohost_mcp.Platform.{Platform, NostrEvent}

abbrev pub digest : String
digest = "aaaaaaaaaaaaaaaaaaaaaaaaaaaaaaaaaaaaaaaaaaaaaaaaaaaaaaaaaaaaaaaa"

abbrev pub alice : String
alice = "bbbbbbbbbbbbbbbbbbbbbbbbbbbbbbbbbbbbbbbbbbbbbbbbbbbbbbbbbbbbbbbb"

abbrev pub server : String
server = "cccccccccccccccccccccccccccccccccccccccccccccccccccccccccccccccc"

abbrev pub signature : String
signature =
    "dddddddddddddddddddddddddddddddddddddddddddddddddddddddddddddddddddddddddddddddddddddddddddddddddddddddddddddddddddddddddddddddd"

-- An event of alice.
abbrev pub event_of : ℤ → List (List String) → NostrEvent
event_of kind tags = record {
  id = digest;
  pubkey = alice;
  created_at = pos 100;
  kind = kind;
  tags = tags;
  content = "";
  sig = signature;
}

-- A platform on which all texts decode to this event, and all digests and signatures are good.
abbrev pub demo : NostrEvent → Platform
demo e = record {
  sha256 = λ b. digest;
  encode = λ s. [];
  dumps_sorted = λ v. "";
  dumps = λ v. "";
  dumps_compact = λ v. "";
  text_of = λ v. "";
  loads = λ b. some (obj end);
  loads_text = λ s. some (obj end);
  dumps_default = λ v. "";
  decode = λ b. some b;
  decode_replace = λ b. b;
  b64decode = λ s. some [];
  is_hex_text = λ s. true;
  lower = λ s. s;
  upper = λ s. s;
  int_of = λ s. some (pos 2000);
  npub_to_hex = λ s. some s;
  fromisoformat = λ s. none;
  event_fields = λ v. some e;
  verify_signature = λ e. some true;
}
