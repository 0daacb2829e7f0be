-- ===== src/Broker/Calls/Domains.antt =====
-- src/yunohost_mcp/broker/operations.py: domains.
use yunohost_mcp.Prelude.{true, false, none, some, [], ◌∷◌}
use yunohost_mcp.Prelude.Json.{null, bool}
use yunohost_mcp.Broker.Calls.Arguments.{
  Operation, reject_unknown_keys, require_str, require_bool, confirmation_id_check,
}

-- `_domain_add`
abbrev pub domain_add : Operation
domain_add = record {
  checks =
      reject_unknown_keys ("domain" ∷ "install_letsencrypt_cert" ∷ "confirmation_id" ∷ [])
      ∷ require_str "domain" (some 253)
      ∷ require_bool "install_letsencrypt_cert" false
      ∷ confirmation_id_check
      ∷ [];
  method = "domain_add";
  returns = none;
  passes =
      ("domain", null) ∷ ("install_letsencrypt_cert", bool false) ∷ ("confirmation_id", null) ∷ [];
}

-- `_domain_remove`
abbrev pub domain_remove : Operation
domain_remove = record {
  checks =
      reject_unknown_keys ("domain" ∷ "remove_apps" ∷ "force" ∷ "confirmation_id" ∷ [])
      ∷ require_str "domain" (some 253)
      ∷ require_bool "remove_apps" false
      ∷ require_bool "force" false
      ∷ confirmation_id_check
      ∷ [];
  method = "domain_remove";
  returns = none;
  passes =
      ("domain", null)
      ∷ ("remove_apps", bool false)
      ∷ ("force", bool false)
      ∷ ("confirmation_id", null)
      ∷ [];
}

-- `_domain_cert_install`
abbrev pub domain_cert_install : Operation
domain_cert_install = record {
  checks =
      reject_unknown_keys ("domain" ∷ "letsencrypt" ∷ "staging" ∷ "confirmation_id" ∷ [])
      ∷ require_str "domain" (some 253)
      ∷ require_bool "letsencrypt" true
      ∷ require_bool "staging" false
      ∷ confirmation_id_check
      ∷ [];
  method = "domain_cert_install";
  returns = none;
  passes =
      ("domain", null)
      ∷ ("letsencrypt", bool true)
      ∷ ("staging", bool false)
      ∷ ("confirmation_id", null)
      ∷ [];
}

-- `_domain_dns_push`
abbrev pub domain_dns_push : Operation
domain_dns_push = record {
  checks =
      reject_unknown_keys ("domain" ∷ "force" ∷ "purge" ∷ "confirmation_id" ∷ [])
      ∷ require_str "domain" (some 253)
      ∷ require_bool "force" false
      ∷ require_bool "purge" false
      ∷ confirmation_id_check
      ∷ [];
  method = "domain_dns_push";
  returns = none;
  passes =
      ("domain", null)
      ∷ ("force", bool false)
      ∷ ("purge", bool false)
      ∷ ("confirmation_id", null)
      ∷ [];
}
