-- ===== src/Auth/Middleware.antt =====
-- src/yunohost_mcp/auth/middleware.py: who may call, once the request is authenticated. The headers
-- are given as the value of `x-nostr-delegation`.
pub mod Access
use yunohost_mcp.Prelude.{String, Bool, true, false, Option, none, some, ◌==◌, if◌then◌else◌}
use yunohost_mcp.Prelude.Int.{ℤ}
use yunohost_mcp.Prelude.Json.{Json}
use yunohost_mcp.Prelude.Result.{Result, ok, err, ◌>>=◌}
use yunohost_mcp.Platform.{Platform, NostrEvent}
use yunohost_mcp.Auth.Nostr.{model_validate}
use yunohost_mcp.Auth.Identity.{
  IdentityRecord, IdentityStore, DateError, no_offset, lookup, is_expired,
}
use yunohost_mcp.Auth.Revocation.{RevocationStore}
use yunohost_mcp.Auth.Delegation.{
  DelegationError, naive_date, DelegationClaim, verify_delegation_event, resolve_delegated_identity,
}

-- bool(header)
abbrev nonempty : Option String → Option String
nonempty none = none
nonempty (some s) = if s == "" then none else some s

module _ (p : Platform) where
  -- NostrEvent.model_validate(json.loads(base64.b64decode(header, validate=True)))
  unfoldable pub delegation_event : String → Option NostrEvent
  delegation_event header = elim (p.b64decode header) [
    | none ↦ none
    | some bytes ↦ elim (p.loads bytes) [ none ↦ none | some raw ↦ model_validate p raw ]
  ]

  -- `naive_date` is a TypeError, which the `except` of `_resolve_identity` does not name.
  abbrev is_type_error : DelegationError → Bool
  is_type_error naive_date = true
  is_type_error _ = false

  identity_or_none :
      Result DelegationError IdentityRecord → Result DateError (Option IdentityRecord)
  identity_or_none (err e) = if is_type_error e then err no_offset else ok none
  identity_or_none (ok r) = ok (some r)

  module _ (now : ℤ) (store : IdentityStore) (server : Option String)
      (revocations : RevocationStore) (pubkey : String) where
    -- The second half of `_resolve_identity`: a delegation, if this server takes any.
    by_delegation : Option String → Option String → Result DateError (Option IdentityRecord)
    by_delegation none header = ok none
    by_delegation (some server_pubkey) none = ok none
    by_delegation (some server_pubkey) (some header) = elim (delegation_event header) [
      | none ↦ ok none
      | some e ↦ identity_or_none (do
        claim ← verify_delegation_event p now e pubkey server_pubkey revocations
        resolve_delegated_identity p now claim store)
    ]

    direct_or :
        Option IdentityRecord
        → Result DateError (Option IdentityRecord)
        → Result DateError (Option IdentityRecord)
    direct_or none other = other
    direct_or (some r) other = elim (is_expired r now) [
      | err e ↦ err e
      | ok expired ↦ if expired then other else ok (some r)
    ]

    -- The first lookup stands outside the `try`, so its errors pass through.
    unfoldable pub resolve_identity : Option String → Result DateError (Option IdentityRecord)
    unfolding direct_or by_delegation identity_or_none
    resolve_identity header = do
      found ← lookup p store pubkey
      direct_or found (by_delegation server (nonempty header))
