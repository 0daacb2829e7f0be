-- ===== src/Broker/Calls/Packages.antt =====
-- src/yunohost_mcp/broker/operations.py: package tests, and the catalog.
use yunohost_mcp.Prelude.{true, none, some, [], ◌∷◌}
use yunohost_mcp.Prelude.Json.{null, bool}
use yunohost_mcp.Broker.Calls.Arguments.{
  Check, Operation, reject_unknown_keys, exactly, with_keys, present, is_text, or_null, require_str,
  optional_str, require_bool, require_all, require_that, is_obj, confirmation_id_check,
}

-- The first half of `_validate_ci_result_arguments`.
unfoldable pub ci_result_check : Check
ci_result_check = require_that "ci_result" null (or_null is_obj)

-- `_catalog_package_inspect`
abbrev pub catalog_package_inspect : Operation
catalog_package_inspect = record {
  checks =
      reject_unknown_keys ("source" ∷ "ref" ∷ [])
      ∷ require_str "source" (some 8192)
      ∷ optional_str "ref" (some 256)
      ∷ [];
  method = "catalog_package_inspect";
  returns = none;
  passes = ("source", null) ∷ ("ref", null) ∷ [];
}

-- `_catalog_verify`
abbrev pub catalog_verify : Operation
catalog_verify = record {
  checks = exactly ("event_or_naddr" ∷ []) ∷ require_str "event_or_naddr" (some 1000000) ∷ [];
  method = "catalog_verify";
  returns = none;
  passes = ("event_or_naddr", null) ∷ [];
}

-- `_catalog_publish_plan`
abbrev pub catalog_publish_plan : Operation
catalog_publish_plan = record {
  checks =
      reject_unknown_keys ("source" ∷ "ref" ∷ "ci_result" ∷ "ci_provider" ∷ "ci_ref" ∷ [])
      ∷ require_str "source" (some 8192)
      ∷ optional_str "ref" (some 256)
      ∷ ci_result_check
      ∷ optional_str "ci_provider" (some 512)
      ∷ optional_str "ci_ref" (some 512)
      ∷ [];
  method = "catalog_publish_plan";
  returns = none;
  passes =
      ("source", null)
      ∷ ("ref", null)
      ∷ ("ci_result", null)
      ∷ ("ci_provider", null)
      ∷ ("ci_ref", null)
      ∷ [];
}

-- `_catalog_publish`
abbrev pub catalog_publish : Operation
catalog_publish = record {
  checks =
      reject_unknown_keys (
        "source" ∷ "ref" ∷ "confirmation_id" ∷ "plan_id" ∷ "ci_result" ∷ "ci_provider" ∷ "ci_ref"
        ∷ [])
      ∷ require_str "source" (some 8192)
      ∷ optional_str "ref" (some 256)
      ∷ confirmation_id_check
      ∷ optional_str "plan_id" (some 128)
      ∷ ci_result_check
      ∷ optional_str "ci_provider" (some 512)
      ∷ optional_str "ci_ref" (some 512)
      ∷ [];
  method = "catalog_publish";
  returns = none;
  passes =
      ("source", null)
      ∷ ("ref", null)
      ∷ ("confirmation_id", null)
      ∷ ("plan_id", null)
      ∷ ("ci_result", null)
      ∷ ("ci_provider", null)
      ∷ ("ci_ref", null)
      ∷ [];
}

-- `_package_inspect`
abbrev pub package_inspect : Operation
package_inspect = record {
  checks = exactly ("source" ∷ []) ∷ require_str "source" (some 8192) ∷ [];
  method = "package_inspect";
  returns = none;
  passes = ("source", null) ∷ [];
}

-- `_package_lint`
abbrev pub package_lint : Operation
package_lint = record {
  checks = exactly ("source" ∷ []) ∷ require_str "source" (some 8192) ∷ [];
  method = "package_lint";
  returns = none;
  passes = ("source", null) ∷ [];
}

-- `_package_run_tests`
abbrev pub package_run_tests : Operation
package_run_tests = record {
  checks =
      reject_unknown_keys ("source" ∷ "app_id" ∷ "confirmation_id" ∷ "session_id" ∷ [])
      ∷ require_str "source" (some 8192)
      ∷ optional_str "app_id" (some 128)
      ∷ confirmation_id_check
      ∷ require_str "session_id" none
      ∷ [];
  method = "package_run_tests";
  returns = none;
  passes =
      ("source", null) ∷ ("app_id", null) ∷ ("confirmation_id", null) ∷ ("session_id", null) ∷ [];
}

-- `_package_install_test`
abbrev pub package_install_test : Operation
package_install_test = record {
  checks =
      reject_unknown_keys ("source" ∷ "label" ∷ "args" ∷ "session_id" ∷ "confirmation_id" ∷ [])
      ∷ require_str "source" (some 8192)
      ∷ optional_str "label" (some 8192)
      ∷ optional_str "args" (some 8192)
      ∷ present "session_id"
      ∷ [];
  method = "package_install_test";
  returns = none;
  passes =
      ("source", null)
      ∷ ("label", null)
      ∷ ("args", null)
      ∷ ("session_id", null)
      ∷ ("confirmation_id", null)
      ∷ [];
}

-- `_package_upgrade_test`
abbrev pub package_upgrade_test : Operation
package_upgrade_test = record {
  checks =
      exactly ("app" ∷ "source" ∷ "session_id" ∷ "confirmation_id" ∷ [])
      ∷ require_str "app" (some 128)
      ∷ require_str "source" (some 8192)
      ∷ require_str "session_id" none
      ∷ [];
  method = "package_upgrade_test";
  returns = none;
  passes = ("app", null) ∷ ("source", null) ∷ ("session_id", null) ∷ ("confirmation_id", null) ∷ [];
}

-- `_package_backup_test`
abbrev pub package_backup_test : Operation
package_backup_test = record {
  checks =
      reject_unknown_keys ("app" ∷ "session_id" ∷ "confirmation_id" ∷ [])
      ∷ with_keys ("app" ∷ [])
      ∷ require_str "app" (some 128)
      ∷ require_str "session_id" none
      ∷ [];
  method = "package_backup_test";
  returns = none;
  passes = ("app", null) ∷ ("session_id", null) ∷ ("confirmation_id", null) ∷ [];
}

-- `_package_restore_test`
abbrev pub package_restore_test : Operation
package_restore_test = record {
  checks =
      reject_unknown_keys ("app" ∷ "archive_name" ∷ "session_id" ∷ "confirmation_id" ∷ [])
      ∷ with_keys ("app" ∷ "archive_name" ∷ [])
      ∷ require_str "app" (some 256)
      ∷ require_str "archive_name" (some 256)
      ∷ require_str "session_id" none
      ∷ [];
  method = "package_restore_test";
  returns = none;
  passes =
      ("app", null)
      ∷ ("archive_name", null)
      ∷ ("session_id", null)
      ∷ ("confirmation_id", null)
      ∷ [];
}

-- `_package_change_url_test`
abbrev pub package_change_url_test : Operation
package_change_url_test = record {
  checks =
      reject_unknown_keys ("app" ∷ "domain" ∷ "path" ∷ "session_id" ∷ "confirmation_id" ∷ [])
      ∷ with_keys ("app" ∷ "domain" ∷ "path" ∷ [])
      ∷ require_all (is_text (some 8192))
      ∷ require_str "session_id" none
      ∷ [];
  method = "package_change_url_test";
  returns = none;
  passes =
      ("app", null)
      ∷ ("domain", null)
      ∷ ("path", null)
      ∷ ("session_id", null)
      ∷ ("confirmation_id", null)
      ∷ [];
}

-- `_package_remove_test`
abbrev pub package_remove_test : Operation
package_remove_test = record {
  checks =
      reject_unknown_keys ("app" ∷ "purge" ∷ "session_id" ∷ "confirmation_id" ∷ [])
      ∷ require_str "app" (some 128)
      ∷ require_bool "purge" true
      ∷ require_str "session_id" none
      ∷ [];
  method = "package_remove_test";
  returns = none;
  passes =
      ("app", null) ∷ ("purge", bool true) ∷ ("session_id", null) ∷ ("confirmation_id", null) ∷ [];
}
