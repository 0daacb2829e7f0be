-- ===== src/Auth/Groups.antt =====
-- src/yunohost_mcp/auth/groups.py: identities from the groups of the YunoHost user that a public key is
-- linked to. The look-up of the user name, and the group database, are arguments.
pub mod Granted
use yunohost_mcp.Prelude.{
  String, Bool, true, false, Option, none, some, List, [], ◌∷◌, ◌++◌, ◌==◌, any, map, if◌then◌else◌,
}
use yunohost_mcp.Prelude.Dict
use yunohost_mcp.Prelude.Dict.{Dict}
use yunohost_mcp.Prelude.Result.{Result, ok, err, ◌>>=◌}
use yunohost_mcp.Platform.{Platform}
use yunohost_mcp.Policy.Scopes.{Scope}
use yunohost_mcp.Policy.Roles.{UnknownRole, scopes_for_roles}
use yunohost_mcp.Auth.Identity.{IdentityRecord, resolve_key_to_hex}

-- DEFAULT_GROUP_ROLES
abbrev pub default_group_roles : Dict String
default_group_roles =
    ("yunohost-mcp-readonly", "readonly")
    ∷ ("yunohost-mcp-operator", "operator")
    ∷ ("yunohost-mcp-app-admin", "app-admin")
    ∷ ("yunohost-mcp-package-developer", "package-developer")
    ∷ ("yunohost-mcp-administrator", "administrator")
    ∷ []

-- An entry of grp.getgrall().
pub record Group : Type 0 where
  pub name : String
  pub members : List String

-- pwd and grp: the name of a user's own group, where both are known, and all groups.
pub record Accounts : Type 0 where
  pub has_user : String → Bool
  pub own_group : String → Option String
  pub all_groups : List Group

abbrev pub is_in : String → List String → Bool
is_in name names = any (λ n. n == name) names

abbrev own : Option String → List String
own none = []
own (some name) = name ∷ []

unfoldable pub groups_with : String → List Group → List String
groups_with username [] = []
groups_with username (g ∷ gs) =
    let rest = groups_with username gs in if is_in username g.members then g.name ∷ rest else rest

-- `_groups_for_user`
unfoldable pub groups_for_user : Accounts → String → List String
groups_for_user accounts username =
    if accounts.has_user username
    then own (accounts.own_group username) ++ groups_with username accounts.all_groups
    else []

-- The roles of the groups that the user is in, in the order of the table.
unfoldable pub roles_of_groups : Dict String → List String → List String
roles_of_groups [] groups = []
roles_of_groups ((group, role) ∷ table) groups =
    let rest = roles_of_groups table groups in if is_in group groups then role ∷ rest else rest

pub record GroupIdentityStore : Type 0 where
  pub username_lookup : String → Option String
  pub group_roles : Dict String

module _ (p : Platform) (accounts : Accounts) where
  record_of : String → String → List String → Result UnknownRole (Option IdentityRecord)
  record_of pubkey username [] = ok none
  record_of pubkey username (role ∷ roles) = do
    scopes ← scopes_for_roles (role ∷ roles)
    ok (
        some (record {
          pubkey = pubkey;
          name = username;
          roles = role ∷ roles;
          scopes = scopes;
          expires = none;
          armada_key_path = none;
        }))

  found_user :
      GroupIdentityStore → String → Option String → Result UnknownRole (Option IdentityRecord)
  unfolding record_of
  found_user s pubkey none = ok none
  found_user s pubkey (some username) =
      record_of pubkey username (roles_of_groups s.group_roles (groups_for_user accounts username))

  -- `lookup`
  unfoldable pub lookup_group :
      GroupIdentityStore → String → Result UnknownRole (Option IdentityRecord)
  unfolding found_user
  lookup_group s pubkey_hex = elim (resolve_key_to_hex p pubkey_hex) [
    | err _ ↦ ok none
    | ok pubkey ↦ found_user s pubkey (s.username_lookup pubkey)
  ]
