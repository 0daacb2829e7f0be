-- ===== src/Auth/Identity.antt =====
-- src/yunohost_mcp/auth/identity.py: identity.toml, the records that it resolves to, and the store of
-- them. A store either holds records or reads the file at each call: its methods take what the file
-- holds at that time. Times are time stamps in seconds.
pub mod Records
use Prim.Native.Char.{code}
use Prim.Native.String
use Prim.Native.String.{count}
use text.Mathlib.Text.{starts_with}
use yunohost_mcp.Prelude.{
  String, Bool, true, false, not, ◌&&◌, ◌||◌, Option, none, some, List, [], ◌∷◌, ◌==◌, leb, eqb,
  any, if◌then◌else◌,
}
use yunohost_mcp.Prelude.Int.{ℤ, leb_ℤ}
use yunohost_mcp.Prelude.Dict
use yunohost_mcp.Prelude.Dict.{Dict}
use yunohost_mcp.Prelude.Json.{Json, str}
use yunohost_mcp.Prelude.Result.{Result, ok, err, ◌>>=◌}
use yunohost_mcp.Platform.{Platform, DateTime, aware, naive}
use yunohost_mcp.Policy.Scopes.{Scope, has, all_scopes}
use yunohost_mcp.Policy.Roles.{UnknownRole, scopes_for_roles}

pub record IdentityRecord : Type 0 where
  pub pubkey : String
  pub name : String
  pub roles : List String
  pub scopes : List Scope
  pub expires : Option DateTime
  pub armada_key_path : Option String

-- The ValueError of `datetime.fromisoformat`, which is no IdentityConfigError, and the TypeError of
-- comparing a date without a UTC offset with one that has it.
pub data DateError : Type 0 where
  bad_date no_offset : DateError

-- now >= expires, where `now` has a UTC offset
abbrev pub is_past : Option DateTime → ℤ → Result DateError Bool
is_past none now = ok false
is_past (some (aware expires)) now = ok (leb_ℤ expires now)
is_past (some (naive expires)) now = err no_offset

-- record.is_expired(now=now)
unfoldable pub is_expired : IdentityRecord → ℤ → Result DateError Bool
is_expired r now = is_past r.expires now

-- `IdentityConfigError`, by its messages
pub data IdentityConfigError : Type 0 where
  invalid_toml private_key bad_npub bad_key unknown_role bad_armada_path : IdentityConfigError

-- What loading may raise.
pub data LoadError : Type 0 where
  config : IdentityConfigError → LoadError
  date : DateError → LoadError

-- One [identity.<key>] table.
pub record Entry : Type 0 where
  pub roles : List String
  pub name : Option String
  pub expires : Option String
  pub armada_key_path : Option Json

-- identity.toml: missing, not TOML, or its tables in order
pub data IdentityFile : Type 0 where
  missing invalid : IdentityFile
  tables : List (String × Entry) → IdentityFile

-- [0-9a-f]*
abbrev hex_digits : String → Bool
hex_digits String.[] = true
hex_digits (String.◌∷◌ c s) =
    let n = code c in ((leb b'0' n && leb n b'9') || (leb b'a' n && leb n b'f')) && hex_digits s

-- A fixed snapshot, or the file at each call.
pub data IdentityStore : Type 0 where
  fixed : Dict IdentityRecord → IdentityStore
  live : IdentityFile → IdentityStore

module _ (p : Platform) where
  unfoldable pub resolve_key_to_hex : String → Result LoadError String
  resolve_key_to_hex raw_key =
      if starts_with raw_key "nsec1"
      then err (config private_key)
      else if starts_with raw_key "npub1"
      then elim (p.npub_to_hex raw_key) [ none ↦ err (config bad_npub) | some hex ↦ ok hex ]
      else let candidate = p.lower raw_key in
        if eqb (count candidate) 64 && hex_digits candidate
        then ok candidate
        else err (config bad_key)

  resolved_scopes : List String → Result LoadError (List Scope)
  resolved_scopes roles = elim (scopes_for_roles roles) [
    | err _ ↦ err (config unknown_role)
    | ok s ↦ ok s
  ]

  -- datetime.fromisoformat(expires_raw) if expires_raw else None
  expiry : Option String → Result LoadError (Option DateTime)
  expiry none = ok none
  expiry (some raw) =
      if raw == ""
      then ok none
      else elim (p.fromisoformat raw) [ none ↦ err (date bad_date) | some t ↦ ok (some t) ]

  armada_path : Option Json → Result LoadError (Option String)
  armada_path none = ok none
  armada_path (some (str path)) = ok (if path == "" then none else some path)
  armada_path (some _) = err (config bad_armada_path)

  -- One table of the file.
  unfoldable pub record_of : String → Entry → Result LoadError IdentityRecord
  unfolding resolved_scopes expiry armada_path
  record_of raw_key entry = do
    pubkey ← resolve_key_to_hex raw_key
    scopes ← resolved_scopes entry.roles
    expires ← expiry entry.expires
    path ← armada_path entry.armada_key_path
    ok (record {
      pubkey = pubkey;
      name = elim entry.name [ none ↦ raw_key | some name ↦ name ];
      roles = entry.roles;
      scopes = scopes;
      expires = expires;
      armada_key_path = path;
    })

  records_from :
      Dict IdentityRecord → List (String × Entry) → Result LoadError (Dict IdentityRecord)
  records_from records [] = ok records
  records_from records ((raw_key, entry) ∷ rest) = do
    r ← record_of raw_key entry
    records_from (Dict.put records r.pubkey r) rest

  unfoldable pub load_records : IdentityFile → Result LoadError (Dict IdentityRecord)
  unfolding records_from
  load_records missing = ok []
  load_records invalid = err (config invalid_toml)
  load_records (tables entries) = records_from [] entries

  -- What is caught of a failed load: an IdentityConfigError leaves no records.
  caught : Result LoadError (Dict IdentityRecord) → Result DateError (Dict IdentityRecord)
  caught (ok records) = ok records
  caught (err (config e)) = ok []
  caught (err (date e)) = err e

  unfoldable pub current_records : IdentityStore → Result DateError (Dict IdentityRecord)
  unfolding caught
  current_records (fixed records) = ok records
  current_records (live file) = caught (load_records file)

  unfoldable pub lookup : IdentityStore → String → Result DateError (Option IdentityRecord)
  unfolding current_records
  lookup store pubkey = do records ← current_records store; ok (Dict.get records pubkey)

  with_role : String → Dict IdentityRecord → List String
  with_role role [] = []
  with_role role ((pubkey, r) ∷ rest) =
      let others = with_role role rest in
      if any (λ x. x == role) r.roles then pubkey ∷ others else others

  unfoldable pub pubkeys_with_role : IdentityStore → String → Result DateError (List String)
  unfolding with_role current_records
  pubkeys_with_role store role = do records ← current_records store; ok (with_role role records)

-- Who asks, after authentication and authorization. The HTTP material is left out: it is carried
-- along for the broker.
pub record AuthenticatedRequest : Type 0 where
  pub pubkey : String
  pub event_id : String
  pub event_created_at : ℤ
  pub identity : Option IdentityRecord

-- request.has_scope(scope)
unfoldable pub has_scope : AuthenticatedRequest → Scope → Bool
has_scope r s = elim r.identity [ none ↦ false | some i ↦ has i.scopes s ]
