-- ===== src/Platform.antt =====
-- What the program calls and does not implement: hashlib, json, base64, pydantic's reading of an
-- event's fields, the string methods of Python, and nostr_sdk's check of a Schnorr signature.
-- Every operation that uses one of them takes a `Platform`.
use yunohost_mcp.Prelude.{ℕ, String, Bool, Option, List}
use yunohost_mcp.Prelude.Int.{ℤ}
use yunohost_mcp.Prelude.Json.{Json}

-- An event as pydantic reads it, before the validators of its class have run.
pub record NostrEvent : Type 0 where
  pub id : String
  pub pubkey : String
  pub created_at : ℤ
  pub kind : ℤ
  pub tags : List (List String)
  pub content : String
  pub sig : String

-- datetime, in seconds: with a UTC offset, as a time stamp, or without one
pub data DateTime : Type 0 where
  aware naive : ℤ → DateTime

pub record Platform : Type 0 where
  -- hashlib.sha256(b).hexdigest()
  pub sha256 : List ℕ → String
  -- s.encode()
  pub encode : String → List ℕ
  -- json.dumps(v, sort_keys=True, default=str)
  pub dumps_sorted : Json → String
  -- json.dumps(v)
  pub dumps : Json → String
  -- json.dumps(v, separators=(",", ":"), ensure_ascii=False)
  pub dumps_compact : Json → String
  -- str(v)
  pub text_of : Json → String
  -- json.loads(b), `none` for an error
  pub loads : List ℕ → Option Json
  -- json.loads(s) of a text by its codes, `none` for JSONDecodeError
  pub loads_text : List ℕ → Option Json
  -- json.dumps(v, default=str)
  pub dumps_default : Json → String
  -- b.decode(), by the codes of the text; `none` for UnicodeDecodeError
  pub decode : List ℕ → Option (List ℕ)
  -- b.decode("utf-8", "replace")
  pub decode_replace : List ℕ → List ℕ
  -- base64.b64decode(s, validate=True), `none` for an error
  pub b64decode : String → Option (List ℕ)
  -- bytes.fromhex(s) succeeds
  pub is_hex_text : String → Bool
  -- s.lower(), s.upper()
  pub lower : String → String
  pub upper : String → String
  -- int(s), `none` for ValueError
  pub int_of : String → Option ℤ
  -- npub_to_hex(s), `none` for Bech32Error
  pub npub_to_hex : String → Option String
  -- datetime.fromisoformat(s), `none` for ValueError
  pub fromisoformat : String → Option DateTime
  -- the fields of `NostrEvent` in an object, each of its declared type
  pub event_fields : Json → Option NostrEvent
  -- Event.from_json(...).verify_signature(), `none` for an exception
  pub verify_signature : NostrEvent → Option Bool
