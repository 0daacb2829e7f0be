-- ===== src/Auth/Groups/Granted.antt =====
-- What the groups of a user grant.
use yunohost_mcp.Prelude.{
  String, ◌≡◌, ◌∙◌, refl, ap, Option, none, some, List, [], ◌∷◌, ◌==◌, arith, any, Option-cases,
  inl, inr,
}
use yunohost_mcp.Prelude.Result.{Result, ok, err, >>=-returns}
use yunohost_mcp.Platform.{Platform}
use yunohost_mcp.Policy.Scopes.{has, owner_approve}
use yunohost_mcp.Policy.Roles.{scopes_for_roles}
use yunohost_mcp.Policy.Roles.Hierarchy.{owner_approve_iff_administrator}
use yunohost_mcp.Auth.Identity.{IdentityRecord, LoadError, resolve_key_to_hex}
use yunohost_mcp.Auth.Groups.{
  default_group_roles, Accounts, is_in, groups_for_user, roles_of_groups, record_of, found_user,
  lookup_group,
}

-- Only the administrators' group gives the role of administrator.
administrator_group :
    (groups : List String)
    → any (λ role. "administrator" == role) (roles_of_groups default_group_roles groups)
      ≡ is_in "yunohost-mcp-administrator" groups
unfolding roles_of_groups
administrator_group groups = ground arith

module _ (p : Platform) (accounts : Accounts) where
  record_of_sound :
      (pubkey username : String) (roles : List String) (r : IdentityRecord)
      → record_of p accounts pubkey username roles ≡ ok (some r)
      → (r.pubkey ≡ pubkey) × (scopes_for_roles roles ≡ ok r.scopes)
  unfolding record_of
  record_of_sound pubkey username [] r h = absurd cc
  record_of_sound pubkey username (role ∷ roles) r h =
      let (scopes, found, made) =
        >>=-returns (scopes_for_roles (role ∷ roles))
          (λ scopes. ok (
            some (record {
              pubkey = pubkey;
              name = username;
              roles = role ∷ roles;
              scopes = scopes;
              expires = none;
              armada_key_path = none;
            })))
          h in
      (ground (arith, made), found ∙ ap (λ x. ok x) (ground (arith, made)))

  -- A record that the groups give for a key is of the user that the key is linked to, and may approve
  -- for the owner exactly when that user is in the administrators' group.
  pub lookup_group-owner_approve :
      (username_lookup : String → Option String) (key : String) (r : IdentityRecord)
      → lookup_group p accounts
          (record { username_lookup = username_lookup; group_roles = default_group_roles })
          key
        ≡ ok (some r)
      → (pubkey username : String) × (resolve_key_to_hex p key ≡ ok pubkey)
        × (username_lookup pubkey ≡ some username)
        × (r.pubkey ≡ pubkey)
        × (has r.scopes owner_approve
            ≡ is_in "yunohost-mcp-administrator" (groups_for_user accounts username))
  unfolding lookup_group found_user
  lookup_group-owner_approve username_lookup key r h = by_key (resolve_key_to_hex p key) refl
    where
      by_key :
          (resolved : Result LoadError String)
          → resolve_key_to_hex p key ≡ resolved
          → (pubkey username : String) × (resolve_key_to_hex p key ≡ ok pubkey)
            × (username_lookup pubkey ≡ some username)
            × (r.pubkey ≡ pubkey)
            × (has r.scopes owner_approve
                ≡ is_in "yunohost-mcp-administrator" (groups_for_user accounts username))
      by_key (err e) k = absurd (ground (arith, k, h))
      by_key (ok pubkey) k = elim (Option-cases (username_lookup pubkey)) [
        | inl missing ↦ absurd (ground (arith, k, missing, h))
        | inr (username, found) ↦
            let groups = groups_for_user accounts username in
            let roles = roles_of_groups default_group_roles groups in
            let (own, scopes) =
              record_of_sound pubkey username roles r (ground (arith, k, found, h)) in
            (
              pubkey,
              username,
              k,
              found,
              own,
              owner_approve_iff_administrator roles r.scopes scopes ∙ administrator_group groups,
            )
      ]
