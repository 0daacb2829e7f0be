-- ===== src/Auth/Nip98.antt =====
-- src/yunohost_mcp/auth/nip98.py: the check of an Authorization header against the request that it
-- claims to sign. The readings of the wall clock and of the monotonic clock are arguments.
pub mod Accepts
use Prim.Native.Char.{code}
use Prim.Native.String
use yunohost_mcp.Prelude.{
  ℕ, String, Bool, true, false, not, ◌&&◌, ◌||◌, Option, none, some, List, [], ◌∷◌, ◌==◌, ltb, eqb,
  if◌then◌else◌,
}
use yunohost_mcp.Prelude.Int.{ℤ, pos, ◌-ℤ◌, abs, eqb_ℤ}
use yunohost_mcp.Prelude.Result.{Result, ok, err}
use yunohost_mcp.Platform.{Platform, NostrEvent}
use yunohost_mcp.Auth.Nostr.{tag, is_text, verify_event, model_validate}
use yunohost_mcp.Auth.Replay.{ReplayCache, ReplayError, check_and_record}

-- `Nip98Error`, by its messages
pub data Nip98Error : Type 0 where
  missing_header bad_header malformed wrong_kind outside_skew wrong_url wrong_method : Nip98Error
  wrong_payload bad_signature replayed : Nip98Error

abbrev pub nip98_kind : ℤ
nip98_kind = pos 27235

pub record Nip98Identity : Type 0 where
  pub pubkey : String
  pub event_id : String
  pub created_at : ℤ

-- The concrete request.
pub record HttpRequest : Type 0 where
  pub method : String
  pub url : String
  pub body : List ℕ

-- header.partition(" "), without the separator
unfoldable pub partition_space : String → String × String
partition_space String.[] = ("", "")
partition_space (String.◌∷◌ c s) =
    let (scheme, rest) = partition_space s in
    if eqb (code c) 32 then ("", s) else (String.◌∷◌ c scheme, rest)

-- bool(s), for a text
abbrev is_nonempty : String → Bool
is_nonempty s = not (s == "")

abbrev has_bytes : List ℕ → Bool
has_bytes [] = false
has_bytes (b ∷ bs) = true

module _ (p : Platform) where
  event_of : Option (List ℕ) → Option NostrEvent
  event_of none = none
  event_of (some bytes) = elim (p.loads bytes) [ none ↦ none | some raw ↦ model_validate p raw ]

  -- The event in a header, or the error.
  unfoldable pub parse_header : Option String → Result Nip98Error NostrEvent
  unfolding event_of
  parse_header none = err missing_header
  parse_header (some header) =
      let (scheme, encoded) = partition_space header in
      if header == ""
      then err missing_header
      else if not (p.lower scheme == "nostr") || not (is_nonempty encoded)
      then err bad_header
      else elim (event_of (p.b64decode encoded)) [ none ↦ err malformed | some e ↦ ok e ]

  method_matches : Option String → String → Bool
  method_matches none method = false
  method_matches (some m) method = p.upper m == p.upper method

  -- The checks of the event, but for the replay.
  unfoldable pub check_event : ℤ → ℕ → HttpRequest → NostrEvent → Result Nip98Error (Unit {0})
  unfolding method_matches
  check_event now skew r e =
      if not (eqb_ℤ e.kind nip98_kind)
      then err wrong_kind
      else if ltb skew (abs (now -ℤ e.created_at))
      then err outside_skew
      else if not (is_text (tag e "u") r.url)
      then err wrong_url
      else if not (method_matches (tag e "method") r.method)
      then err wrong_method
      else if has_bytes r.body && not (is_text (tag e "payload") (p.sha256 r.body))
      then err wrong_payload
      else elim (verify_event p e) [ err _ ↦ err bad_signature | ok _ ↦ ok tt ]

  recorded :
      NostrEvent
      → Result ReplayError (Unit {0}) × ReplayCache
      → Result Nip98Error Nip98Identity × ReplayCache
  recorded e (err x, c) = (err replayed, c)
  recorded e (ok u, c) =
      (ok (record { pubkey = e.pubkey; event_id = e.id; created_at = e.created_at }), c)

  check_parsed :
      ℤ
      → ℕ
      → ℕ
      → HttpRequest
      → ReplayCache
      → Result Nip98Error NostrEvent
      → Result Nip98Error Nip98Identity × ReplayCache
  unfolding recorded
  check_parsed now tick skew r c (err x) = (err x, c)
  check_parsed now tick skew r c (ok e) = elim (check_event now skew r e) [
    | err x ↦ (err x, c)
    | ok _ ↦ recorded e (check_and_record tick e.id c)
  ]

  -- `tick` is the reading of the monotonic clock.
  unfoldable pub verify_nip98_request :
      ℤ
      → ℕ
      → ℕ
      → Option String
      → HttpRequest
      → ReplayCache
      → Result Nip98Error Nip98Identity × ReplayCache
  unfolding check_parsed
  verify_nip98_request now tick skew header r c =
      check_parsed now tick skew r c (parse_header header)
