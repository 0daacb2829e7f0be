-- ===== src/Broker/Calls/Users.antt =====
-- src/yunohost_mcp/broker/operations.py: users, groups and permissions.
use yunohost_mcp.Prelude.{false, none, some, [], ◌∷◌}
use yunohost_mcp.Prelude.Json.{null, bool, str}
use yunohost_mcp.Broker.Calls.Arguments.{
  Operation, reject_unknown_keys, is_text, require_str, optional_str, require_bool, optional_bool,
  optional_text, require_list, optional_list, confirmation_id_check,
}

-- `_user_create`
abbrev pub user_create : Operation
user_create = record {
  checks =
      reject_unknown_keys (
        "username" ∷ "domain" ∷ "password" ∷ "fullname" ∷ "mailbox_quota" ∷ "admin"
        ∷ "confirmation_id" ∷ [])
      ∷ require_str "username" (some 128)
      ∷ require_str "domain" (some 253)
      ∷ require_str "password" (some 4096)
      ∷ require_str "fullname" (some 512)
      ∷ optional_text "mailbox_quota" (str "0") (some 64)
      ∷ require_bool "admin" false
      ∷ confirmation_id_check
      ∷ [];
  method = "user_create";
  returns = none;
  passes =
      ("username", null)
      ∷ ("domain", null)
      ∷ ("password", null)
      ∷ ("fullname", null)
      ∷ ("mailbox_quota", str "0")
      ∷ ("admin", bool false)
      ∷ ("confirmation_id", null)
      ∷ [];
}

-- `_user_update`
abbrev pub user_update : Operation
user_update = record {
  checks =
      reject_unknown_keys (
        "username" ∷ "mail" ∷ "change_password" ∷ "add_mailforward" ∷ "remove_mailforward"
        ∷ "add_mailalias" ∷ "remove_mailalias" ∷ "mailbox_quota" ∷ "fullname" ∷ "confirmation_id"
        ∷ [])
      ∷ require_str "username" (some 128)
      ∷ optional_str "mail" (some 512)
      ∷ optional_str "change_password" (some 4096)
      ∷ optional_str "mailbox_quota" (some 64)
      ∷ optional_str "fullname" (some 512)
      ∷ optional_list "add_mailforward" 128 (is_text (some 512))
      ∷ optional_list "remove_mailforward" 128 (is_text (some 512))
      ∷ optional_list "add_mailalias" 128 (is_text (some 512))
      ∷ optional_list "remove_mailalias" 128 (is_text (some 512))
      ∷ confirmation_id_check
      ∷ [];
  method = "user_update";
  returns = none;
  passes =
      ("username", null)
      ∷ ("mail", null)
      ∷ ("change_password", null)
      ∷ ("add_mailforward", null)
      ∷ ("remove_mailforward", null)
      ∷ ("add_mailalias", null)
      ∷ ("remove_mailalias", null)
      ∷ ("mailbox_quota", null)
      ∷ ("fullname", null)
      ∷ ("confirmation_id", null)
      ∷ [];
}

-- `_user_delete`
abbrev pub user_delete : Operation
user_delete = record {
  checks =
      reject_unknown_keys ("username" ∷ "purge" ∷ "confirmation_id" ∷ [])
      ∷ require_str "username" (some 128)
      ∷ require_bool "purge" false
      ∷ confirmation_id_check
      ∷ [];
  method = "user_delete";
  returns = none;
  passes = ("username", null) ∷ ("purge", bool false) ∷ ("confirmation_id", null) ∷ [];
}

-- `_group_create`
abbrev pub group_create : Operation
group_create = record {
  checks =
      reject_unknown_keys ("groupname" ∷ "confirmation_id" ∷ [])
      ∷ require_str "groupname" (some 128)
      ∷ confirmation_id_check
      ∷ [];
  method = "user_group_create";
  returns = none;
  passes = ("groupname", null) ∷ ("confirmation_id", null) ∷ [];
}

-- `_group_update`
abbrev pub group_update : Operation
group_update = record {
  checks =
      reject_unknown_keys ("groupname" ∷ "add" ∷ "remove" ∷ "confirmation_id" ∷ [])
      ∷ require_str "groupname" (some 128)
      ∷ confirmation_id_check
      ∷ optional_list "add" 128 (is_text (some 128))
      ∷ optional_list "remove" 128 (is_text (some 128))
      ∷ [];
  method = "user_group_update";
  returns = none;
  passes = ("groupname", null) ∷ ("add", null) ∷ ("remove", null) ∷ ("confirmation_id", null) ∷ [];
}

-- `_group_delete`
abbrev pub group_delete : Operation
group_delete = record {
  checks =
      reject_unknown_keys ("groupname" ∷ "confirmation_id" ∷ [])
      ∷ require_str "groupname" (some 128)
      ∷ confirmation_id_check
      ∷ [];
  method = "user_group_delete";
  returns = none;
  passes = ("groupname", null) ∷ ("confirmation_id", null) ∷ [];
}

-- `_permission_add`
abbrev pub permission_add : Operation
permission_add = record {
  checks =
      reject_unknown_keys ("permission" ∷ "names" ∷ "confirmation_id" ∷ [])
      ∷ require_str "permission" (some 256)
      ∷ require_list "names" null 1 128 (is_text (some 128))
      ∷ confirmation_id_check
      ∷ [];
  method = "user_permission_add";
  returns = none;
  passes = ("permission", null) ∷ ("names", null) ∷ ("confirmation_id", null) ∷ [];
}

-- `_permission_remove`
abbrev pub permission_remove : Operation
permission_remove = record {
  checks =
      reject_unknown_keys ("permission" ∷ "names" ∷ "confirmation_id" ∷ [])
      ∷ require_str "permission" (some 256)
      ∷ require_list "names" null 1 128 (is_text (some 128))
      ∷ confirmation_id_check
      ∷ [];
  method = "user_permission_remove";
  returns = none;
  passes = ("permission", null) ∷ ("names", null) ∷ ("confirmation_id", null) ∷ [];
}

-- `_permission_update`
abbrev pub permission_update : Operation
permission_update = record {
  checks =
      reject_unknown_keys
        ("permission" ∷ "label" ∷ "show_tile" ∷ "protected" ∷ "confirmation_id" ∷ [])
      ∷ require_str "permission" (some 256)
      ∷ optional_str "label" (some 256)
      ∷ optional_bool "show_tile"
      ∷ optional_bool "protected"
      ∷ confirmation_id_check
      ∷ [];
  method = "user_permission_update";
  returns = none;
  passes =
      ("permission", null)
      ∷ ("label", null)
      ∷ ("show_tile", null)
      ∷ ("protected", null)
      ∷ ("confirmation_id", null)
      ∷ [];
}
