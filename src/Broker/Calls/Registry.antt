-- ===== src/Broker/Calls/Registry.antt =====
-- src/yunohost_mcp/broker/operations.py: the registry, and what `operation.invoke` does.
use yunohost_mcp.Prelude.{String, [], ◌∷◌, none, some}
use yunohost_mcp.Prelude.Dict
use yunohost_mcp.Prelude.Dict.{Dict}
use yunohost_mcp.Prelude.Json.{Json, Fields}
use yunohost_mcp.Prelude.Result.{Result, err}
use yunohost_mcp.Broker.Calls.Arguments.{
  Operation, ArgumentError, missing_key, AdapterCall, no_arguments, returned, call_of,
}
use yunohost_mcp.Broker.Calls.Reads.{
  diagnosis_run, diagnose_app, apps_list, app_info, app_resources, app_config_get, app_setting_get,
  service_status, backup_times, free_space, domain_name, permission_info, updates_check,
  updates_refresh, migrations_list, firewall_list, firewall_is_open, backup_info,
  domain_dns_suggest, domain_dns_push_preview, settings_list, settings_get, regenconf_pending,
}
use yunohost_mcp.Broker.Calls.Packages.{
  catalog_package_inspect, catalog_verify, catalog_publish_plan, catalog_publish, package_inspect,
  package_lint, package_run_tests, package_install_test, package_upgrade_test, package_backup_test,
  package_restore_test, package_change_url_test, package_remove_test,
}
use yunohost_mcp.Broker.Calls.Apps.{
  safe_upgrade, repair_app, backup_create, backup_delete, app_install, app_upgrade, app_remove,
  app_change_url, app_config_set, app_setting_set, backup_restore,
}
use yunohost_mcp.Broker.Calls.Logs.{
  operations_list, operation_name, operation_logs, service_logs, journal_query, web_logs,
  system_snapshot, service_history, ssh_diagnose, network_snapshot, http_probe, incident_snapshot,
}
use yunohost_mcp.Broker.Calls.System.{
  service_restart, service_stop, service_start, system_upgrade, system_reboot, system_shutdown,
  migrations_run, firewall_open, firewall_close, firewall_reload, settings_set, regenconf_apply,
}
use yunohost_mcp.Broker.Calls.Users.{
  user_create, user_update, user_delete, group_create, group_update, group_delete, permission_add,
  permission_remove, permission_update,
}
use yunohost_mcp.Broker.Calls.Domains.{
  domain_add, domain_remove, domain_cert_install, domain_dns_push,
}

-- `_no_args`
unfoldable pub without_arguments : String → Operation
without_arguments method = record {
  checks = no_arguments ∷ [];
  method = method;
  returns = none;
  passes = [];
}

-- OPERATIONS, by their `invoke`
abbrev pub handlers : Dict Operation
handlers =
    ("server.info", without_arguments "server_info")
    ∷ ("health.check", without_arguments "health_check")
    ∷ ("diagnosis.run", diagnosis_run)
    ∷ ("catalog.package_inspect", catalog_package_inspect)
    ∷ ("catalog.verify", catalog_verify)
    ∷ ("catalog.list", without_arguments "catalog_list")
    ∷ ("catalog.publish_plan", catalog_publish_plan)
    ∷ ("catalog.publish", catalog_publish)
    ∷ ("package.inspect", package_inspect)
    ∷ ("package.lint", package_lint)
    ∷ ("package.run_tests", package_run_tests)
    ∷ ("package.install_test", package_install_test)
    ∷ ("package.upgrade_test", package_upgrade_test)
    ∷ ("package.backup_test", package_backup_test)
    ∷ ("package.restore_test", package_restore_test)
    ∷ ("package.change_url_test", package_change_url_test)
    ∷ ("package.remove_test", package_remove_test)
    ∷ ("safe.upgrade", safe_upgrade)
    ∷ ("repair.app", repair_app)
    ∷ ("diagnose.app", diagnose_app)
    ∷ ("validate.server", without_arguments "validate_server")
    ∷ ("apps.list", apps_list)
    ∷ ("app.info", app_info)
    ∷ ("app.resources", app_resources)
    ∷ ("app.config_get", app_config_get)
    ∷ ("app.setting_get", app_setting_get)
    ∷ ("services.status", service_status)
    ∷ ("domains.list", without_arguments "domains_list")
    ∷ ("users.list", without_arguments "users_list")
    ∷ ("backups.list", without_arguments "backups_list")
    ∷ ("backups.created_at", backup_times)
    ∷ ("system.free_space", free_space)
    ∷ ("operations.list", operations_list)
    ∷ ("operation.status", operation_name)
    ∷ ("operation.logs", operation_logs)
    ∷ ("domain.certificate_info", domain_name)
    ∷ ("user.groups", without_arguments "user_group_list")
    ∷ ("user.permissions", without_arguments "user_permission_list")
    ∷ ("user.permission_info", permission_info)
    ∷ ("service.logs", service_logs)
    ∷ ("journal.query", journal_query)
    ∷ ("web.logs", web_logs)
    ∷ ("system.snapshot", system_snapshot)
    ∷ ("service.history", service_history)
    ∷ ("ssh.diagnose", ssh_diagnose)
    ∷ ("network.snapshot", network_snapshot)
    ∷ ("http.probe", http_probe)
    ∷ ("incident.snapshot", incident_snapshot)
    ∷ ("updates.check", updates_check)
    ∷ ("updates.refresh", updates_refresh)
    ∷ ("migrations.list", migrations_list)
    ∷ ("migrations.state", without_arguments "migrations_state")
    ∷ ("firewall.list", firewall_list)
    ∷ ("firewall.is_open", firewall_is_open)
    ∷ ("service.restart", service_restart)
    ∷ ("service.stop", service_stop)
    ∷ ("service.start", service_start)
    ∷ ("backup.create", backup_create)
    ∷ ("backup.info", backup_info)
    ∷ ("backup.delete", backup_delete)
    ∷ ("app.install", app_install)
    ∷ ("app.upgrade", app_upgrade)
    ∷ ("app.remove", app_remove)
    ∷ ("app.change_url", app_change_url)
    ∷ ("app.config_set", app_config_set)
    ∷ ("app.setting_set", app_setting_set)
    ∷ ("backup.restore", backup_restore)
    ∷ ("system.upgrade", system_upgrade)
    ∷ ("system.reboot", system_reboot)
    ∷ ("system.shutdown", system_shutdown)
    ∷ ("migrations.run", migrations_run)
    ∷ ("firewall.open", firewall_open)
    ∷ ("firewall.close", firewall_close)
    ∷ ("firewall.reload", firewall_reload)
    ∷ ("user.create", user_create)
    ∷ ("user.update", user_update)
    ∷ ("user.delete", user_delete)
    ∷ ("user.group_create", group_create)
    ∷ ("user.group_update", group_update)
    ∷ ("user.group_delete", group_delete)
    ∷ ("user.permission_add", permission_add)
    ∷ ("user.permission_remove", permission_remove)
    ∷ ("user.permission_update", permission_update)
    ∷ ("domain.add", domain_add)
    ∷ ("domain.remove", domain_remove)
    ∷ ("domain.cert_install", domain_cert_install)
    ∷ ("domain.dns_suggest", domain_dns_suggest)
    ∷ ("domain.dns_push_preview", domain_dns_push_preview)
    ∷ ("domain.dns_push", domain_dns_push)
    ∷ ("settings.list", settings_list)
    ∷ ("settings.get", settings_get)
    ∷ ("settings.set", settings_set)
    ∷ ("regenconf.pending", regenconf_pending)
    ∷ ("regenconf.apply", regenconf_apply)
    ∷ []

-- `operation.invoke(adapter, arguments)` without the adapter: the call that it makes of it.
unfoldable pub adapter_call : String → Fields → Result ArgumentError AdapterCall
adapter_call operation arguments = elim (Dict.get handlers operation) [
  | none ↦ err missing_key
  | some handler ↦ call_of handler arguments
]

-- What the operation returns of the result of that call.
unfoldable pub result_of : String → Json → Json
result_of operation result = elim (Dict.get handlers operation) [
  | none ↦ result
  | some handler ↦ returned handler.returns result
]
