-- ===== src/Policy/Roles.antt =====
-- src/yunohost_mcp/policy/roles.py: roles as sets of scopes. The first role's scopes are listed, and
-- each later role adds its own.
pub mod Hierarchy
use yunohost_mcp.Prelude.{String, Option, none, some, List, [], ◌∷◌, ◌++◌}
use yunohost_mcp.Prelude.Dict
use yunohost_mcp.Prelude.Dict.{Dict}
use yunohost_mcp.Prelude.Result.{Result, ok, err, ◌>>=◌}
use yunohost_mcp.Policy.Scopes.{
  Scope, all_scopes, server_read, diagnosis_read, system_update, apps_read, services_read,
  logs_read, backups_read, users_read, domains_read, packages_inspect, catalog_inspect,
  catalog_verify, firewall_read, apps_config_read, apps_setting_read, settings_read, regenconf_read,
  services_restart, services_stop, services_start, backups_create, apps_install, apps_upgrade,
  apps_remove, apps_config_write, apps_setting_write, backups_restore, backups_delete,
  domains_write, users_write, users_delete, system_upgrade, audit_read, firewall_write,
  system_migrate, settings_write, regenconf_write, system_power, packages_test, catalog_publish,
  armada_write, memory_read, memory_write, memory_feedback,
}

abbrev pub readonly : List Scope
readonly =
    server_read ∷ diagnosis_read ∷ system_update ∷ apps_read ∷ services_read ∷ logs_read
    ∷ backups_read ∷ users_read ∷ domains_read ∷ packages_inspect ∷ catalog_inspect ∷ catalog_verify
    ∷ firewall_read ∷ apps_config_read ∷ apps_setting_read ∷ settings_read ∷ regenconf_read ∷ []

abbrev pub operator : List Scope
operator = readonly ++ (services_restart ∷ services_stop ∷ services_start ∷ backups_create ∷ [])

abbrev pub app_admin : List Scope
app_admin =
    operator
    ++ (apps_install ∷ apps_upgrade ∷ apps_remove ∷ apps_config_write ∷ apps_setting_write
        ∷ backups_restore ∷ backups_delete ∷ domains_write ∷ users_write ∷ users_delete
        ∷ system_upgrade ∷ audit_read ∷ firewall_write ∷ system_migrate ∷ settings_write
        ∷ regenconf_write ∷ system_power ∷ [])

abbrev pub package_developer : List Scope
package_developer =
    app_admin
    ++ (packages_test ∷ catalog_publish ∷ armada_write ∷ memory_read ∷ memory_write
        ∷ memory_feedback ∷ [])

abbrev pub administrator : List Scope
administrator = all_scopes

abbrev pub role_scopes : Dict (List Scope)
role_scopes =
    ("readonly", readonly)
    ∷ ("operator", operator)
    ∷ ("app-admin", app_admin)
    ∷ ("package-developer", package_developer)
    ∷ ("administrator", administrator)
    ∷ []

-- `UnknownRoleError`, with the role
pub record UnknownRole : Type 0 where
  pub role : String

add_role : List Scope → String → Option (List Scope) → Result UnknownRole (List Scope)
add_role result role none = err (record { role = role })
add_role result role (some scopes) = ok (result ++ scopes)

-- The loop of `scopes_for_roles`.
scopes_from : List Scope → List String → Result UnknownRole (List Scope)
unfolding add_role
scopes_from result [] = ok result
scopes_from result (role ∷ roles) = do
  next ← add_role result role (Dict.get role_scopes role)
  scopes_from next roles

unfoldable pub scopes_for_roles : List String → Result UnknownRole (List Scope)
unfolding scopes_from
scopes_for_roles roles = scopes_from [] roles
