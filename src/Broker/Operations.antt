-- ===== src/Broker/Operations.antt =====
-- src/yunohost_mcp/broker/operations.py: the operations with the scope that each requires; what
-- each checks and calls is in Calls. And the two tables of src/yunohost_mcp/broker/helper.py: the
-- policy key of an operation, and the arguments that its confirmation binds.
pub mod Tables
use yunohost_mcp.Prelude.{
  String, Option, some, List, [], ◌∷◌, ◌==◌, Bool, true, ◌&&◌, if◌then◌else◌,
}
use yunohost_mcp.Prelude.Dict
use yunohost_mcp.Prelude.Dict.{Dict}
use yunohost_mcp.Prelude.Json.{Fields, get_field}
use yunohost_mcp.Policy.Rules.{
  is_str, is_true, app_config_policy_key, app_setting_policy_key, app_upgrade_policy_key,
  app_remove_policy_key, app_change_url_policy_key, app_install_policy_key,
}

-- OPERATIONS, by their required scope
abbrev pub operations : Dict String
operations =
    ("server.info", "server.read")
    ∷ ("health.check", "diagnosis.read")
    ∷ ("diagnosis.run", "diagnosis.read")
    ∷ ("catalog.package_inspect", "catalog.inspect")
    ∷ ("catalog.verify", "catalog.verify")
    ∷ ("catalog.list", "catalog.inspect")
    ∷ ("catalog.publish_plan", "catalog.inspect")
    ∷ ("catalog.publish", "catalog.publish")
    ∷ ("package.inspect", "packages.inspect")
    ∷ ("package.lint", "packages.inspect")
    ∷ ("package.run_tests", "packages.test")
    ∷ ("package.install_test", "packages.test")
    ∷ ("package.upgrade_test", "packages.test")
    ∷ ("package.backup_test", "packages.test")
    ∷ ("package.restore_test", "packages.test")
    ∷ ("package.change_url_test", "packages.test")
    ∷ ("package.remove_test", "packages.test")
    ∷ ("safe.upgrade", "apps.upgrade")
    ∷ ("repair.app", "services.restart")
    ∷ ("diagnose.app", "apps.read")
    ∷ ("validate.server", "server.read")
    ∷ ("apps.list", "apps.read")
    ∷ ("app.info", "apps.read")
    ∷ ("app.resources", "apps.read")
    ∷ ("app.config_get", "apps.config.read")
    ∷ ("app.setting_get", "apps.setting.read")
    ∷ ("services.status", "services.read")
    ∷ ("domains.list", "domains.read")
    ∷ ("users.list", "users.read")
    ∷ ("backups.list", "backups.read")
    ∷ ("backups.created_at", "backups.read")
    ∷ ("system.free_space", "server.read")
    ∷ ("operations.list", "logs.read")
    ∷ ("operation.status", "logs.read")
    ∷ ("operation.logs", "logs.read")
    ∷ ("domain.certificate_info", "domains.read")
    ∷ ("user.groups", "users.read")
    ∷ ("user.permissions", "users.read")
    ∷ ("user.permission_info", "users.read")
    ∷ ("service.logs", "logs.read")
    ∷ ("journal.query", "logs.read")
    ∷ ("web.logs", "logs.read")
    ∷ ("system.snapshot", "server.read")
    ∷ ("service.history", "services.read")
    ∷ ("ssh.diagnose", "diagnosis.read")
    ∷ ("network.snapshot", "server.read")
    ∷ ("http.probe", "diagnosis.read")
    ∷ ("incident.snapshot", "diagnosis.read")
    ∷ ("updates.check", "system.update")
    ∷ ("updates.refresh", "system.update")
    ∷ ("migrations.list", "system.update")
    ∷ ("migrations.state", "system.update")
    ∷ ("firewall.list", "firewall.read")
    ∷ ("firewall.is_open", "firewall.read")
    ∷ ("service.restart", "services.restart")
    ∷ ("service.stop", "services.stop")
    ∷ ("service.start", "services.start")
    ∷ ("backup.create", "backups.create")
    ∷ ("backup.info", "backups.read")
    ∷ ("backup.delete", "backups.delete")
    ∷ ("app.install", "apps.install")
    ∷ ("app.upgrade", "apps.upgrade")
    ∷ ("app.remove", "apps.remove")
    ∷ ("app.change_url", "apps.upgrade")
    ∷ ("app.config_set", "apps.config.write")
    ∷ ("app.setting_set", "apps.setting.write")
    ∷ ("backup.restore", "backups.restore")
    ∷ ("system.upgrade", "system.upgrade")
    ∷ ("system.reboot", "system.power")
    ∷ ("system.shutdown", "system.power")
    ∷ ("migrations.run", "system.migrate")
    ∷ ("firewall.open", "firewall.write")
    ∷ ("firewall.close", "firewall.write")
    ∷ ("firewall.reload", "firewall.write")
    ∷ ("user.create", "users.write")
    ∷ ("user.update", "users.write")
    ∷ ("user.delete", "users.delete")
    ∷ ("user.group_create", "users.write")
    ∷ ("user.group_update", "users.write")
    ∷ ("user.group_delete", "users.delete")
    ∷ ("user.permission_add", "users.write")
    ∷ ("user.permission_remove", "users.write")
    ∷ ("user.permission_update", "users.write")
    ∷ ("domain.add", "domains.write")
    ∷ ("domain.remove", "domains.write")
    ∷ ("domain.cert_install", "domains.write")
    ∷ ("domain.dns_suggest", "domains.read")
    ∷ ("domain.dns_push_preview", "domains.read")
    ∷ ("domain.dns_push", "domains.write")
    ∷ ("settings.list", "settings.read")
    ∷ ("settings.get", "settings.read")
    ∷ ("settings.set", "settings.write")
    ∷ ("regenconf.pending", "regenconf.read")
    ∷ ("regenconf.apply", "regenconf.write")
    ∷ []

-- _POLICY_NAME_BY_OPERATION
abbrev pub policy_name_by_operation : Dict String
policy_name_by_operation =
    ("app.upgrade", "apps.upgrade")
    ∷ ("app.remove", "apps.remove")
    ∷ ("app.change_url", "apps.change_url")
    ∷ ("app.config_set", "apps.config")
    ∷ ("app.setting_set", "apps.setting")
    ∷ ("backup.restore", "backups.restore")
    ∷ ("system.upgrade", "system.upgrade")
    ∷ ("migrations.run", "system.migrate")
    ∷ ("firewall.open", "firewall.write")
    ∷ ("firewall.close", "firewall.write")
    ∷ ("firewall.reload", "firewall.write")
    ∷ ("user.create", "users.write")
    ∷ ("user.update", "users.write")
    ∷ ("user.delete", "users.delete")
    ∷ ("user.group_create", "users.write")
    ∷ ("user.group_update", "users.write")
    ∷ ("user.group_delete", "users.delete")
    ∷ ("user.permission_add", "users.permissions")
    ∷ ("user.permission_remove", "users.permissions")
    ∷ ("user.permission_update", "users.permissions")
    ∷ ("domain.add", "domains.write")
    ∷ ("domain.cert_install", "domains.cert")
    ∷ ("domain.dns_push", "domains.dns")
    ∷ ("domain.remove", "domains.remove")
    ∷ ("app.install", "apps.install")
    ∷ ("backup.create", "backups.create")
    ∷ ("backup.delete", "backups.delete")
    ∷ ("service.restart", "services.restart")
    ∷ ("service.stop", "services.stop")
    ∷ ("system.reboot", "system.power")
    ∷ ("system.shutdown", "system.power")
    ∷ ("settings.set", "settings.write")
    ∷ ("regenconf.apply", "regenconf.write")
    ∷ ("catalog.publish", "catalog.publish")
    ∷ ("package.run_tests", "packages.test")
    ∷ ("package.install_test", "packages.test")
    ∷ ("package.upgrade_test", "packages.test")
    ∷ ("package.backup_test", "packages.test")
    ∷ ("package.restore_test", "packages.test")
    ∷ ("package.change_url_test", "packages.test")
    ∷ ("package.remove_test", "packages.test")
    ∷ ("safe.upgrade", "apps.upgrade")
    ∷ []

-- _CONFIRMATION_ARGUMENT_KEYS
abbrev pub confirmation_argument_keys : Dict (List String)
confirmation_argument_keys =
    ("app.upgrade", ("app" ∷ "force" ∷ "url" ∷ []))
    ∷ ("safe.upgrade", ("app" ∷ []))
    ∷ ("app.remove", ("app" ∷ "purge" ∷ []))
    ∷ ("app.change_url", ("app" ∷ "domain" ∷ "path" ∷ []))
    ∷ ("app.config_set", ("app" ∷ "key" ∷ "value" ∷ []))
    ∷ ("app.setting_set", ("app" ∷ "key" ∷ "value" ∷ "delete" ∷ []))
    ∷ ("backup.restore", ("name" ∷ "apps" ∷ "system" ∷ "force" ∷ []))
    ∷ ("system.upgrade", [])
    ∷ (
      "migrations.run",
      ("targets" ∷ "skip" ∷ "auto" ∷ "force_rerun" ∷ "accept_disclaimer" ∷ "skip_postmigrations"
          ∷ []),
    )
    ∷ ("firewall.open", ("port" ∷ "protocol" ∷ "comment" ∷ "upnp" ∷ "no_reload" ∷ []))
    ∷ ("firewall.close", ("port" ∷ "protocol" ∷ "upnp_only" ∷ "no_reload" ∷ []))
    ∷ ("firewall.reload", ("skip_upnp" ∷ []))
    ∷ (
      "user.create",
      ("username" ∷ "domain" ∷ "password" ∷ "fullname" ∷ "mailbox_quota" ∷ "admin" ∷ []),
    )
    ∷ (
      "user.update",
      ("username" ∷ "mail" ∷ "change_password" ∷ "add_mailforward" ∷ "remove_mailforward"
          ∷ "add_mailalias" ∷ "remove_mailalias" ∷ "mailbox_quota" ∷ "fullname" ∷ []),
    )
    ∷ ("user.delete", ("username" ∷ "purge" ∷ []))
    ∷ ("user.group_create", ("groupname" ∷ []))
    ∷ ("user.group_update", ("groupname" ∷ "add" ∷ "remove" ∷ []))
    ∷ ("user.group_delete", ("groupname" ∷ []))
    ∷ ("user.permission_add", ("permission" ∷ "names" ∷ []))
    ∷ ("user.permission_remove", ("permission" ∷ "names" ∷ []))
    ∷ ("user.permission_update", ("permission" ∷ "label" ∷ "show_tile" ∷ "protected" ∷ []))
    ∷ ("domain.add", ("domain" ∷ "install_letsencrypt_cert" ∷ []))
    ∷ ("domain.cert_install", ("domain" ∷ "letsencrypt" ∷ "staging" ∷ []))
    ∷ ("domain.dns_push", ("domain" ∷ "force" ∷ "purge" ∷ []))
    ∷ ("domain.remove", ("domain" ∷ "remove_apps" ∷ "force" ∷ []))
    ∷ ("app.install", ("app" ∷ "label" ∷ "args" ∷ "force" ∷ []))
    ∷ ("backup.create", ("name" ∷ "description" ∷ "apps" ∷ "system" ∷ []))
    ∷ ("backup.delete", ("name" ∷ []))
    ∷ ("service.restart", ("names" ∷ []))
    ∷ ("service.stop", ("names" ∷ []))
    ∷ ("system.reboot", [])
    ∷ ("system.shutdown", [])
    ∷ ("settings.set", ("key" ∷ "value" ∷ []))
    ∷ ("regenconf.apply", ("names" ∷ "force" ∷ []))
    ∷ ("catalog.publish", ("plan_id" ∷ []))
    ∷ ("package.run_tests", ("source" ∷ "app_id" ∷ []))
    ∷ ("package.install_test", ("source" ∷ "session_id" ∷ "label" ∷ "args" ∷ []))
    ∷ ("package.upgrade_test", ("app" ∷ "source" ∷ "session_id" ∷ []))
    ∷ ("package.backup_test", ("app" ∷ "session_id" ∷ []))
    ∷ ("package.restore_test", ("app" ∷ "archive_name" ∷ "session_id" ∷ []))
    ∷ ("package.change_url_test", ("app" ∷ "domain" ∷ "path" ∷ "session_id" ∷ []))
    ∷ ("package.remove_test", ("app" ∷ "purge" ∷ "session_id" ∷ []))
    ∷ []

-- `_policy_name_for_operation`
unfoldable pub policy_name_for_operation : String → Fields → Option String
policy_name_for_operation name arguments =
    if name == "app.upgrade"
    then some (app_upgrade_policy_key arguments)
    else if name == "safe.upgrade"
    then some (app_upgrade_policy_key arguments)
    else if name == "app.config_set"
    then some (app_config_policy_key arguments)
    else if name == "app.setting_set"
    then some (app_setting_policy_key arguments)
    else if name == "app.remove"
    then some (app_remove_policy_key arguments)
    else if name == "app.change_url"
    then some (app_change_url_policy_key arguments)
    else if name == "app.install"
    then some (app_install_policy_key arguments)
    else if name == "user.create" && is_true (get_field arguments "admin")
    then some "users.admin_access"
    else if name == "user.group_update" && is_str (get_field arguments "groupname") "admins"
    then some "users.admin_access"
    else Dict.get policy_name_by_operation name
