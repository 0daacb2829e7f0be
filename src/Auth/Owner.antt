-- ===== src/Auth/Owner.antt =====
-- src/yunohost_mcp/auth/owner.py: the one owner that may approve, or none.
use text.Mathlib.Text.{starts_with}
use yunohost_mcp.Prelude.{String, Option, none, some, List, [], ◌∷◌, ◌==◌, if◌then◌else◌}
use yunohost_mcp.Prelude.Result.{Result, ok, err}
use yunohost_mcp.Platform.{Platform}
use yunohost_mcp.Auth.Identity.{IdentityStore, pubkeys_with_role}

-- `OwnerConfigError`, by its messages
pub data OwnerConfigError : Type 0 where
  private_key bad_npub : OwnerConfigError
  -- the ValueError of the identity store, which passes through
  no_records : OwnerConfigError

-- administrators[0] if there is exactly one
only : List String → Option String
only (pubkey ∷ []) = some pubkey
only _ = none

module _ (p : Platform) where
  to_hex : String → Result OwnerConfigError String
  to_hex raw =
      if starts_with raw "nsec1"
      then err private_key
      else if starts_with raw "npub1"
      then elim (p.npub_to_hex raw) [ none ↦ err bad_npub | some hex ↦ ok hex ]
      else ok (p.lower raw)

  bootstrap : IdentityStore → Result OwnerConfigError (Option String)
  bootstrap store = elim (pubkeys_with_role p store "administrator") [
    | err _ ↦ err no_records
    | ok administrators ↦ ok (only administrators)
  ]

  unfoldable pub resolve_owner_pubkey :
      Option String → IdentityStore → Result OwnerConfigError (Option String)
  unfolding to_hex only bootstrap
  resolve_owner_pubkey none store = bootstrap store
  resolve_owner_pubkey (some owner_npub) store =
      if owner_npub == ""
      then bootstrap store
      else elim (to_hex owner_npub) [ err e ↦ err e | ok hex ↦ ok (some hex) ]
