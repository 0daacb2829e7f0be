-- ===== src/Policy/Scopes.antt =====
-- src/yunohost_mcp/policy/scopes.py: the scopes, their names, and sets of them.
pub mod Laws
use yunohost_mcp.Prelude.{
  String, Bool, true, false, ◌||◌, Option, none, some, List, [], ◌∷◌, ◌==◌, if◌then◌else◌,
}

pub data Scope : Type 0 where
  server_read diagnosis_read apps_read apps_install apps_upgrade apps_remove : Scope
  apps_config_read apps_config_write apps_setting_read apps_setting_write services_read
        services_restart :
      Scope
  services_stop services_start logs_read backups_read backups_create backups_restore : Scope
  backups_delete users_read users_write users_delete domains_read domains_write : Scope
  system_update system_upgrade system_migrate system_power firewall_read firewall_write : Scope
  settings_read settings_write regenconf_read regenconf_write packages_inspect packages_test : Scope
  catalog_inspect catalog_verify catalog_publish armada_write memory_read memory_write : Scope
  memory_feedback audit_read owner_approve : Scope

-- The value of each member of the `StrEnum`.
unfoldable pub scope_value : Scope → String
scope_value server_read = "server.read"
scope_value diagnosis_read = "diagnosis.read"
scope_value apps_read = "apps.read"
scope_value apps_install = "apps.install"
scope_value apps_upgrade = "apps.upgrade"
scope_value apps_remove = "apps.remove"
scope_value apps_config_read = "apps.config.read"
scope_value apps_config_write = "apps.config.write"
scope_value apps_setting_read = "apps.setting.read"
scope_value apps_setting_write = "apps.setting.write"
scope_value services_read = "services.read"
scope_value services_restart = "services.restart"
scope_value services_stop = "services.stop"
scope_value services_start = "services.start"
scope_value logs_read = "logs.read"
scope_value backups_read = "backups.read"
scope_value backups_create = "backups.create"
scope_value backups_restore = "backups.restore"
scope_value backups_delete = "backups.delete"
scope_value users_read = "users.read"
scope_value users_write = "users.write"
scope_value users_delete = "users.delete"
scope_value domains_read = "domains.read"
scope_value domains_write = "domains.write"
scope_value system_update = "system.update"
scope_value system_upgrade = "system.upgrade"
scope_value system_migrate = "system.migrate"
scope_value system_power = "system.power"
scope_value firewall_read = "firewall.read"
scope_value firewall_write = "firewall.write"
scope_value settings_read = "settings.read"
scope_value settings_write = "settings.write"
scope_value regenconf_read = "regenconf.read"
scope_value regenconf_write = "regenconf.write"
scope_value packages_inspect = "packages.inspect"
scope_value packages_test = "packages.test"
scope_value catalog_inspect = "catalog.inspect"
scope_value catalog_verify = "catalog.verify"
scope_value catalog_publish = "catalog.publish"
scope_value armada_write = "communications.armada.write"
scope_value memory_read = "memory.read"
scope_value memory_write = "memory.write"
scope_value memory_feedback = "memory.feedback"
scope_value audit_read = "audit.read"
scope_value owner_approve = "owner.approve"

-- `frozenset(Scope)`
abbrev pub all_scopes : List Scope
all_scopes =
    server_read ∷ diagnosis_read ∷ apps_read ∷ apps_install ∷ apps_upgrade ∷ apps_remove
    ∷ apps_config_read ∷ apps_config_write ∷ apps_setting_read ∷ apps_setting_write ∷ services_read
    ∷ services_restart ∷ services_stop ∷ services_start ∷ logs_read ∷ backups_read ∷ backups_create
    ∷ backups_restore ∷ backups_delete ∷ users_read ∷ users_write ∷ users_delete ∷ domains_read
    ∷ domains_write ∷ system_update ∷ system_upgrade ∷ system_migrate ∷ system_power ∷ firewall_read
    ∷ firewall_write ∷ settings_read ∷ settings_write ∷ regenconf_read ∷ regenconf_write
    ∷ packages_inspect ∷ packages_test ∷ catalog_inspect ∷ catalog_verify ∷ catalog_publish
    ∷ armada_write ∷ memory_read ∷ memory_write ∷ memory_feedback ∷ audit_read ∷ owner_approve ∷ []

find_value : String → List Scope → Option Scope
find_value v [] = none
find_value v (s ∷ rest) = if scope_value s == v then some s else find_value v rest

-- `Scope(v)`, `none` for ValueError
unfoldable pub of_value : String → Option Scope
unfolding find_value scope_value
of_value v = find_value v all_scopes

-- a == b
unfoldable pub scope_eq : Scope → Scope → Bool
scope_eq a b = scope_value a == scope_value b

-- scope in scopes
unfoldable pub has : List Scope → Scope → Bool
unfolding scope_eq
has [] s = false
has (t ∷ ts) s = scope_eq t s || has ts s

-- a & b
unfoldable pub intersect : List Scope → List Scope → List Scope
intersect [] b = []
intersect (s ∷ a) b = let rest = intersect a b in if has b s then s ∷ rest else rest
