-- ===== src/Broker/Calls/Apps.antt =====
-- src/yunohost_mcp/broker/operations.py: apps and backups.
use text.Mathlib.Text.{find?}
use yunohost_mcp.Prelude.{Bool, false, not, ◌&&◌, none, some, [], ◌∷◌, ◌==◌, is_some}
use yunohost_mcp.Prelude.Json.{Json, null, bool, str}
use yunohost_mcp.Broker.Calls.Arguments.{
  Operation, reject_unknown_keys, present, is_text, or_null, require_str, optional_str,
  require_bool, is_any_text, optional_text, is_list, optional_list, require_one_of, require_that,
  confirmation_id_check,
}

-- A name of 1 to 128 characters, or a list of 1 to 128 such names.
abbrev pub is_app_or_apps : Json → Bool
is_app_or_apps (str s) = is_text (some 128) (str s)
is_app_or_apps v = is_list 1 128 (is_text (some 128)) v

-- No path: neither "/" nor "\\" in name, nor one of the two dots.
abbrev pub is_archive_name : Json → Bool
is_archive_name (str s) =
    not (is_some (find? s "/")) && not (is_some (find? s "\\")) && not (s == ".") && not (s == "..")
is_archive_name _ = false

-- `_safe_upgrade`
abbrev pub safe_upgrade : Operation
safe_upgrade = record {
  checks =
      reject_unknown_keys ("app" ∷ "confirmation_id" ∷ [])
      ∷ present "app"
      ∷ require_str "app" (some 128)
      ∷ [];
  method = "safe_upgrade";
  returns = none;
  passes = ("app", null) ∷ [];
}

-- `_repair_app`
abbrev pub repair_app : Operation
repair_app = record {
  checks =
      reject_unknown_keys ("app" ∷ "strategy" ∷ [])
      ∷ require_str "app" (some 128)
      ∷ require_one_of "strategy" (str "conservative") ("conservative" ∷ [])
      ∷ [];
  method = "repair_app";
  returns = none;
  passes = ("app", null) ∷ ("strategy", str "conservative") ∷ [];
}

-- `_app_install`
abbrev pub app_install : Operation
app_install = record {
  checks =
      reject_unknown_keys ("app" ∷ "label" ∷ "args" ∷ "force" ∷ "confirmation_id" ∷ [])
      ∷ require_str "app" (some 128)
      ∷ optional_str "label" (some 8192)
      ∷ optional_str "args" (some 8192)
      ∷ require_bool "force" false
      ∷ confirmation_id_check
      ∷ [];
  method = "app_install";
  returns = none;
  passes =
      ("app", null)
      ∷ ("label", null)
      ∷ ("args", null)
      ∷ ("force", bool false)
      ∷ ("confirmation_id", null)
      ∷ [];
}

-- `_app_upgrade`
abbrev pub app_upgrade : Operation
app_upgrade = record {
  checks =
      reject_unknown_keys ("app" ∷ "force" ∷ "url" ∷ "confirmation_id" ∷ [])
      ∷ require_that "app" null (or_null is_app_or_apps)
      ∷ require_bool "force" false
      ∷ optional_text "url" null (some 8192)
      ∷ confirmation_id_check
      ∷ [];
  method = "app_upgrade";
  returns = none;
  passes = ("app", null) ∷ ("force", bool false) ∷ ("url", null) ∷ ("confirmation_id", null) ∷ [];
}

-- `_app_remove`
abbrev pub app_remove : Operation
app_remove = record {
  checks =
      reject_unknown_keys ("app" ∷ "purge" ∷ "confirmation_id" ∷ [])
      ∷ require_str "app" (some 128)
      ∷ require_bool "purge" false
      ∷ confirmation_id_check
      ∷ [];
  method = "app_remove";
  returns = none;
  passes = ("app", null) ∷ ("purge", bool false) ∷ ("confirmation_id", null) ∷ [];
}

-- `_app_change_url`
abbrev pub app_change_url : Operation
app_change_url = record {
  checks =
      reject_unknown_keys ("app" ∷ "domain" ∷ "path" ∷ "confirmation_id" ∷ [])
      ∷ require_str "app" (some 128)
      ∷ require_str "domain" (some 253)
      ∷ require_str "path" (some 4096)
      ∷ confirmation_id_check
      ∷ [];
  method = "app_change_url";
  returns = none;
  passes = ("app", null) ∷ ("domain", null) ∷ ("path", null) ∷ ("confirmation_id", null) ∷ [];
}

-- `_app_config_set`
abbrev pub app_config_set : Operation
app_config_set = record {
  checks =
      reject_unknown_keys ("app" ∷ "key" ∷ "value" ∷ "confirmation_id" ∷ [])
      ∷ require_str "app" (some 128)
      ∷ require_str "key" (some 512)
      ∷ require_str "value" (some 8192)
      ∷ confirmation_id_check
      ∷ [];
  method = "app_config_set";
  returns = none;
  passes = ("app", null) ∷ ("key", null) ∷ ("value", null) ∷ ("confirmation_id", null) ∷ [];
}

-- `_app_setting_set`
abbrev pub app_setting_set : Operation
app_setting_set = record {
  checks =
      reject_unknown_keys ("app" ∷ "key" ∷ "value" ∷ "delete" ∷ "confirmation_id" ∷ [])
      ∷ require_str "app" (some 128)
      ∷ require_str "key" (some 512)
      ∷ optional_text "value" null (some 8192)
      ∷ require_bool "delete" false
      ∷ confirmation_id_check
      ∷ [];
  method = "app_setting_set";
  returns = none;
  passes =
      ("app", null)
      ∷ ("key", null)
      ∷ ("value", null)
      ∷ ("delete", bool false)
      ∷ ("confirmation_id", null)
      ∷ [];
}

-- `_backup_create`
abbrev pub backup_create : Operation
backup_create = record {
  checks =
      reject_unknown_keys ("name" ∷ "description" ∷ "apps" ∷ "system" ∷ "confirmation_id" ∷ [])
      ∷ optional_text "name" null none
      ∷ optional_text "description" null none
      ∷ optional_list "apps" 128 (is_any_text none)
      ∷ optional_list "system" 128 (is_any_text none)
      ∷ confirmation_id_check
      ∷ [];
  method = "backup_create";
  returns = none;
  passes =
      ("name", null)
      ∷ ("description", null)
      ∷ ("apps", null)
      ∷ ("system", null)
      ∷ ("confirmation_id", null)
      ∷ [];
}

-- `_backup_delete`
abbrev pub backup_delete : Operation
backup_delete = record {
  checks =
      reject_unknown_keys ("name" ∷ "confirmation_id" ∷ [])
      ∷ require_str "name" (some 256)
      ∷ require_that "name" null is_archive_name
      ∷ confirmation_id_check
      ∷ [];
  method = "backup_delete";
  returns = none;
  passes = ("name", null) ∷ ("confirmation_id", null) ∷ [];
}

-- `_backup_restore`
abbrev pub backup_restore : Operation
backup_restore = record {
  checks =
      reject_unknown_keys ("name" ∷ "apps" ∷ "system" ∷ "force" ∷ "confirmation_id" ∷ [])
      ∷ require_str "name" (some 256)
      ∷ optional_list "apps" 128 (is_text none)
      ∷ optional_list "system" 128 (is_text none)
      ∷ require_bool "force" false
      ∷ confirmation_id_check
      ∷ [];
  method = "backup_restore";
  returns = none;
  passes =
      ("name", null)
      ∷ ("apps", null)
      ∷ ("system", null)
      ∷ ("force", bool false)
      ∷ ("confirmation_id", null)
      ∷ [];
}
