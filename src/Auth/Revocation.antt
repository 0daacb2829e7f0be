-- ===== src/Auth/Revocation.antt =====
-- src/yunohost_mcp/auth/revocation.py: the ids of delegations that were revoked. A file that does not
-- load revokes all.
use yunohost_mcp.Prelude.{String, Bool, true, List, []}
use yunohost_mcp.Prelude.Texts
use yunohost_mcp.Prelude.Result.{Result, ok, err}

-- `RevocationConfigError`, by its messages
pub data RevocationConfigError : Type 0 where
  invalid_toml not_id_list : RevocationConfigError

-- revoked_delegations.toml: missing, not TOML, with a `revoked` that is no list of texts, or its ids
pub data RevocationFile : Type 0 where
  missing invalid other_shape : RevocationFile
  revoked : List String → RevocationFile

unfoldable pub load_revoked_ids : RevocationFile → Result RevocationConfigError (List String)
load_revoked_ids missing = ok []
load_revoked_ids invalid = err invalid_toml
load_revoked_ids other_shape = err not_id_list
load_revoked_ids (revoked ids) = ok ids

pub data RevocationStore : Type 0 where
  fixed : List String → RevocationStore
  live : RevocationFile → RevocationStore

unfoldable pub is_revoked : RevocationStore → String → Bool
unfolding load_revoked_ids
is_revoked (fixed ids) event_id = Texts.contains ids event_id
is_revoked (live file) event_id = elim (load_revoked_ids file) [
  | err _ ↦ true
  | ok ids ↦ Texts.contains ids event_id
]
