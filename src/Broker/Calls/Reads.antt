-- ===== src/Broker/Calls/Reads.antt =====
-- src/yunohost_mcp/broker/operations.py: what reads the host: applications, catalogs, updates and settings.
use yunohost_mcp.Prelude.{Bool, true, false, none, some, [], ◌∷◌}
use yunohost_mcp.Prelude.Json.{Json, null, bool, int, str, arr, nil}
use yunohost_mcp.Broker.Calls.Arguments.{
  Operation, reject_unknown_keys, exactly, no_arguments, is_text, or_null, require_str,
  require_bool, require_text, is_names, require_list, optional_list, require_one_of, require_that,
}

-- isinstance(port, (int, str)) and not isinstance(port, bool)
abbrev is_int_or_text : Json → Bool
is_int_or_text (int n) = true
is_int_or_text (str s) = true
is_int_or_text _ = false

-- `_service_status`
abbrev pub service_status : Operation
service_status = record {
  checks = require_list "names" (arr nil) 0 128 (is_text none) ∷ [];
  method = "service_status";
  returns = none;
  passes = ("names", arr nil) ∷ [];
}

-- `_apps_list`
abbrev pub apps_list : Operation
apps_list = record {
  checks = require_bool "full" false ∷ [];
  method = "apps_list";
  returns = none;
  passes = ("full", bool false) ∷ [];
}

-- `_app_info`
abbrev pub app_info : Operation
app_info = record {
  checks = require_str "app" (some 128) ∷ require_bool "full" false ∷ [];
  method = "app_info";
  returns = none;
  passes = ("app", null) ∷ ("full", bool false) ∷ [];
}

-- `_app_resources`
abbrev pub app_resources : Operation
app_resources = record {
  checks = require_str "app" (some 128) ∷ [];
  method = "app_resources";
  returns = none;
  passes = ("app", null) ∷ [];
}

-- `_app_config_get`
abbrev pub app_config_get : Operation
app_config_get = record {
  checks =
      require_str "app" (some 128)
      ∷ require_text "key" (str "") none
      ∷ require_bool "full" false
      ∷ require_bool "export" false
      ∷ [];
  method = "app_config_get";
  returns = none;
  passes = ("app", null) ∷ ("key", str "") ∷ ("full", bool false) ∷ ("export", bool false) ∷ [];
}

-- `_app_setting_get`
abbrev pub app_setting_get : Operation
app_setting_get = record {
  checks =
      reject_unknown_keys ("app" ∷ "key" ∷ [])
      ∷ require_str "app" (some 128)
      ∷ require_str "key" (some 512)
      ∷ [];
  method = "app_setting_get";
  returns = none;
  passes = ("app", null) ∷ ("key", null) ∷ [];
}

-- `_free_space`
abbrev pub free_space : Operation
free_space = record {
  checks = require_one_of "path" (str "/") ("/" ∷ "/home" ∷ "/var" ∷ []) ∷ [];
  method = "free_space_bytes";
  returns = some "free_bytes";
  passes = ("path", str "/") ∷ [];
}

-- `_backup_times`
abbrev pub backup_times : Operation
backup_times = record {
  checks = no_arguments ∷ [];
  method = "backup_created_at_times";
  returns = some "created_at";
  passes = [];
}

-- `_domain_name`
abbrev pub domain_name : Operation
domain_name = record {
  checks = require_str "domain" (some 253) ∷ [];
  method = "domain_cert_info";
  returns = none;
  passes = ("domain", null) ∷ [];
}

-- `_updates_check`
abbrev pub updates_check : Operation
updates_check = record {
  checks = no_arguments ∷ [];
  method = "updates_check";
  returns = none;
  passes = [];
}

-- `_updates_refresh`
abbrev pub updates_refresh : Operation
updates_refresh = record {
  checks =
      reject_unknown_keys ("target" ∷ [])
      ∷ require_one_of "target" (str "apps") ("system" ∷ "apps" ∷ "all" ∷ [])
      ∷ [];
  method = "updates_refresh";
  returns = none;
  passes = ("target", str "apps") ∷ [];
}

-- `_diagnosis_run`
abbrev pub diagnosis_run : Operation
diagnosis_run = record {
  checks =
      reject_unknown_keys ("categories" ∷ "force" ∷ [])
      ∷ optional_list "categories" 64 (is_text (some 128))
      ∷ require_bool "force" false
      ∷ [];
  method = "diagnosis_run";
  returns = none;
  passes = ("categories", null) ∷ ("force", bool false) ∷ [];
}

-- `_diagnose_app`
abbrev pub diagnose_app : Operation
diagnose_app = record {
  checks = exactly ("app" ∷ []) ∷ require_str "app" (some 128) ∷ [];
  method = "diagnose_app";
  returns = none;
  passes = ("app", null) ∷ [];
}

-- `_migrations_list`
abbrev pub migrations_list : Operation
migrations_list = record {
  checks = require_bool "pending" false ∷ require_bool "done" false ∷ [];
  method = "migrations_list";
  returns = none;
  passes = ("pending", bool false) ∷ ("done", bool false) ∷ [];
}

-- `_firewall_list`
abbrev pub firewall_list : Operation
firewall_list = record {
  checks =
      require_bool "raw" false
      ∷ require_bool "forwarded" false
      ∷ require_text "protocol" (str "tcp") none
      ∷ [];
  method = "firewall_list";
  returns = none;
  passes = ("raw", bool false) ∷ ("protocol", str "tcp") ∷ ("forwarded", bool false) ∷ [];
}

-- `_firewall_is_open`
abbrev pub firewall_is_open : Operation
firewall_is_open = record {
  checks = require_that "port" null is_int_or_text ∷ require_text "protocol" null none ∷ [];
  method = "firewall_is_open";
  returns = none;
  passes = ("port", null) ∷ ("protocol", null) ∷ [];
}

-- `_backup_info`
abbrev pub backup_info : Operation
backup_info = record {
  checks =
      reject_unknown_keys ("name" ∷ "with_details" ∷ [])
      ∷ require_str "name" (some 256)
      ∷ require_bool "with_details" false
      ∷ [];
  method = "backup_info";
  returns = none;
  passes = ("name", null) ∷ ("with_details", bool false) ∷ [];
}

-- `_permission_info`
abbrev pub permission_info : Operation
permission_info = record {
  checks = reject_unknown_keys ("permission" ∷ []) ∷ require_str "permission" (some 256) ∷ [];
  method = "user_permission_info";
  returns = none;
  passes = ("permission", null) ∷ [];
}

-- `_domain_dns_suggest`
abbrev pub domain_dns_suggest : Operation
domain_dns_suggest = record {
  checks = reject_unknown_keys ("domain" ∷ []) ∷ require_str "domain" (some 253) ∷ [];
  method = "domain_dns_suggest";
  returns = none;
  passes = ("domain", null) ∷ [];
}

-- `_domain_dns_push_preview`
abbrev pub domain_dns_push_preview : Operation
domain_dns_push_preview = record {
  checks =
      reject_unknown_keys ("domain" ∷ "force" ∷ "purge" ∷ [])
      ∷ require_str "domain" (some 253)
      ∷ require_bool "force" false
      ∷ require_bool "purge" false
      ∷ [];
  method = "domain_dns_push_preview";
  returns = none;
  passes = ("domain", null) ∷ ("force", bool false) ∷ ("purge", bool false) ∷ [];
}

-- `_settings_list`
abbrev pub settings_list : Operation
settings_list = record {
  checks = reject_unknown_keys ("full" ∷ []) ∷ require_bool "full" false ∷ [];
  method = "settings_list";
  returns = none;
  passes = ("full", bool false) ∷ [];
}

-- `_settings_get`
abbrev pub settings_get : Operation
settings_get = record {
  checks =
      reject_unknown_keys ("key" ∷ "full" ∷ [])
      ∷ require_str "key" (some 128)
      ∷ require_bool "full" false
      ∷ [];
  method = "settings_get";
  returns = none;
  passes = ("key", null) ∷ ("full", bool false) ∷ [];
}

-- `_regenconf_pending`
abbrev pub regenconf_pending : Operation
regenconf_pending = record {
  checks =
      reject_unknown_keys ("names" ∷ "with_diff" ∷ [])
      ∷ require_bool "with_diff" false
      ∷ require_that "names" null (or_null (is_names 128))
      ∷ [];
  method = "regenconf_pending";
  returns = none;
  passes = ("names", null) ∷ ("with_diff", bool false) ∷ [];
}
