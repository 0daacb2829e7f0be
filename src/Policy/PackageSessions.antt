-- ===== src/Policy/PackageSessions.antt =====
-- src/yunohost_mcp/policy/package_sessions.py: package-test sessions, each of one identity, one source
-- and one app. The table is a dictionary by session id; a fresh id is an argument.
use yunohost_mcp.Prelude.{
  ℕ, ◌+◌, String, Bool, true, false, not, ◌||◌, Option, none, some, ◌==◌, leb, if◌then◌else◌,
}
use yunohost_mcp.Prelude.Dict
use yunohost_mcp.Prelude.Dict.{Dict}
use yunohost_mcp.Prelude.Json.{Json, null, str}
use yunohost_mcp.Prelude.Result.{Result, ok, err}
use yunohost_mcp.Platform.{Platform}

-- `PackageTestSessionError`, by its messages
pub data PackageTestSessionError : Type 0 where
  unknown expired other_identity other_source other_app : PackageTestSessionError

pub record PackageTestSession : Type 0 where
  pub session_id : String
  pub pubkey : String
  pub source : String
  pub source_hash : String
  pub app_id : String
  pub created_at : ℕ
  pub expires_at : ℕ

pub record PackageTestSessionStore : Type 0 where
  pub ttl_seconds : ℕ
  pub rows : Dict PackageTestSession

-- A value from the arguments, where `null` and a missing one are both None: it is not that text.
abbrev pub differs : Option Json → String → Bool
differs none s = false
differs (some null) s = false
differs (some (str t)) s = not (t == s)
differs (some _) s = true

module _ (p : Platform) where
  unfoldable pub source_hash : String → String
  source_hash source = p.sha256 (p.encode source)

  unfoldable pub create :
      ℕ
      → String
      → String
      → String
      → String
      → PackageTestSessionStore
      → PackageTestSession × PackageTestSessionStore
  create now id pubkey source app_id s =
      let session : PackageTestSession = record {
        session_id = id;
        pubkey = pubkey;
        source = source;
        source_hash = source_hash source;
        app_id = app_id;
        created_at = now;
        expires_at = now + s.ttl_seconds;
      } in
      (session, record s { rows = Dict.put s.rows id session })

  -- The source is compared as a text and by its hash.
  other_text : Option Json → PackageTestSession → Bool
  other_text (some (str t)) session =
      not (t == session.source) || not (source_hash t == session.source_hash)
  other_text given session = differs given session.source

  get_found :
      ℕ
      → String
      → String
      → Option Json
      → Option Json
      → PackageTestSessionStore
      → Option PackageTestSession
      → Result PackageTestSessionError PackageTestSession × PackageTestSessionStore
  unfolding other_text
  get_found now id pubkey source app_id s none = (err unknown, s)
  get_found now id pubkey source app_id s (some session) =
      if leb session.expires_at now
      then (err expired, record s { rows = Dict.remove s.rows id })
      else if not (session.pubkey == pubkey)
      then (err other_identity, s)
      else if other_text source session
      then (err other_source, s)
      else if differs app_id session.app_id
      then (err other_app, s)
      else (ok session, s)

  unfoldable pub get :
      ℕ
      → String
      → String
      → Option Json
      → Option Json
      → PackageTestSessionStore
      → Result PackageTestSessionError PackageTestSession × PackageTestSessionStore
  unfolding get_found
  get now id pubkey source app_id s = get_found now id pubkey source app_id s (Dict.get s.rows id)

-- Another identity's session stays.
pub delete : String → String → PackageTestSessionStore → PackageTestSessionStore
delete id pubkey s = elim (Dict.get s.rows id) [
  | none ↦ s
  | some session ↦ if session.pubkey == pubkey then record s { rows = Dict.remove s.rows id } else s
]
