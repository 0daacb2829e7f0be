-- ===== src/Broker/Calls/System.antt =====
-- src/yunohost_mcp/broker/operations.py: services, the system, migrations, the firewall,
-- settings and configuration files.
use Prim.Native.String.{count}
use yunohost_mcp.Prelude.{
  ℕ, String, Bool, true, false, not, ◌&&◌, none, some, List, [], ◌∷◌, ◌++◌, ◌==◌, leb, eqb, all,
}
use yunohost_mcp.Prelude.Json.{Json, null, bool, int, str}
use yunohost_mcp.Policy.Rules.Sizes.{is_digit, number_from, codes}
use yunohost_mcp.Broker.Calls.Arguments.{
  Operation, reject_unknown_keys, is_text, or_null, require_str, require_bool, require_text,
  is_between, is_names, require_list, optional_list, require_one_of, require_that,
  confirmation_id_check,
}

-- The parts of text.split("-"), over code points.
unfoldable pub parts : List ℕ → List ℕ → List (List ℕ)
parts run [] = run ∷ []
parts run (c ∷ s) = elim (eqb c b'-') [
  | true ↦ run ∷ parts [] s
  | false ↦ parts (run ++ (c ∷ [])) s
]

-- part.isdigit() and 1 <= int(part) <= 65535, over ASCII
abbrev pub is_port_number : List ℕ → Bool
is_port_number [] = false
is_port_number (d ∷ ds) =
    let n = number_from 0 (d ∷ ds) in all is_digit (d ∷ ds) && leb 1 n && leb n 65535

-- The port of `_port_and_protocol`: a number, or a text of one port or of ports with dashes between.
abbrev pub is_port : Json → Bool
is_port (int n) = is_between 1 65535 (int n)
is_port (str s) = leb (count s) 11 && not (s == "") && all is_port_number (parts [] (codes s))
is_port _ = false

-- `_service_restart`
abbrev pub service_restart : Operation
service_restart = record {
  checks =
      reject_unknown_keys ("names" ∷ "confirmation_id" ∷ [])
      ∷ require_list "names" null 1 16 (is_text none)
      ∷ confirmation_id_check
      ∷ [];
  method = "service_restart";
  returns = none;
  passes = ("names", null) ∷ ("confirmation_id", null) ∷ [];
}

-- `_service_stop`
abbrev pub service_stop : Operation
service_stop = record {
  checks =
      reject_unknown_keys ("names" ∷ "confirmation_id" ∷ [])
      ∷ require_list "names" null 1 16 (is_text none)
      ∷ confirmation_id_check
      ∷ [];
  method = "service_stop";
  returns = none;
  passes = ("names", null) ∷ ("confirmation_id", null) ∷ [];
}

-- `_service_start`
abbrev pub service_start : Operation
service_start = record {
  checks =
      reject_unknown_keys ("names" ∷ "confirmation_id" ∷ [])
      ∷ require_list "names" null 1 16 (is_text none)
      ∷ confirmation_id_check
      ∷ [];
  method = "service_start";
  returns = none;
  passes = ("names", null) ∷ ("confirmation_id", null) ∷ [];
}

-- `_system_upgrade`
abbrev pub system_upgrade : Operation
system_upgrade = record {
  checks = reject_unknown_keys ("confirmation_id" ∷ []) ∷ confirmation_id_check ∷ [];
  method = "system_upgrade";
  returns = none;
  passes = ("confirmation_id", null) ∷ [];
}

-- `_confirmation_only`
unfoldable pub confirmation_only : String → Operation
confirmation_only method = record {
  checks = reject_unknown_keys ("confirmation_id" ∷ []) ∷ confirmation_id_check ∷ [];
  method = method;
  returns = none;
  passes = ("confirmation_id", null) ∷ [];
}

-- `_system_reboot`
abbrev pub system_reboot : Operation
system_reboot = confirmation_only "system_reboot"

-- `_system_shutdown`
abbrev pub system_shutdown : Operation
system_shutdown = confirmation_only "system_shutdown"

-- `_migrations_run`
abbrev pub migrations_run : Operation
migrations_run = record {
  checks =
      reject_unknown_keys (
        "targets" ∷ "skip" ∷ "auto" ∷ "force_rerun" ∷ "accept_disclaimer" ∷ "skip_postmigrations"
        ∷ "confirmation_id" ∷ [])
      ∷ optional_list "targets" 128 (is_text (some 256))
      ∷ require_bool "skip" false
      ∷ require_bool "auto" false
      ∷ require_bool "force_rerun" false
      ∷ require_bool "accept_disclaimer" false
      ∷ require_bool "skip_postmigrations" false
      ∷ confirmation_id_check
      ∷ [];
  method = "migrations_run";
  returns = none;
  passes =
      ("targets", null)
      ∷ ("skip", bool false)
      ∷ ("auto", bool false)
      ∷ ("force_rerun", bool false)
      ∷ ("accept_disclaimer", bool false)
      ∷ ("skip_postmigrations", bool false)
      ∷ ("confirmation_id", null)
      ∷ [];
}

-- `_firewall_open`
abbrev pub firewall_open : Operation
firewall_open = record {
  checks =
      reject_unknown_keys
        ("port" ∷ "protocol" ∷ "comment" ∷ "upnp" ∷ "no_reload" ∷ "confirmation_id" ∷ [])
      ∷ require_that "port" null is_port
      ∷ require_one_of "protocol" null ("tcp" ∷ "udp" ∷ [])
      ∷ require_text "comment" (str "") (some 1024)
      ∷ require_bool "upnp" false
      ∷ require_bool "no_reload" false
      ∷ confirmation_id_check
      ∷ [];
  method = "firewall_open";
  returns = none;
  passes =
      ("port", null)
      ∷ ("protocol", null)
      ∷ ("comment", str "")
      ∷ ("upnp", bool false)
      ∷ ("no_reload", bool false)
      ∷ ("confirmation_id", null)
      ∷ [];
}

-- `_firewall_close`
abbrev pub firewall_close : Operation
firewall_close = record {
  checks =
      reject_unknown_keys ("port" ∷ "protocol" ∷ "upnp_only" ∷ "no_reload" ∷ "confirmation_id" ∷ [])
      ∷ require_that "port" null is_port
      ∷ require_one_of "protocol" null ("tcp" ∷ "udp" ∷ [])
      ∷ require_bool "upnp_only" false
      ∷ require_bool "no_reload" false
      ∷ confirmation_id_check
      ∷ [];
  method = "firewall_close";
  returns = none;
  passes =
      ("port", null)
      ∷ ("protocol", null)
      ∷ ("upnp_only", bool false)
      ∷ ("no_reload", bool false)
      ∷ ("confirmation_id", null)
      ∷ [];
}

-- `_firewall_reload`
abbrev pub firewall_reload : Operation
firewall_reload = record {
  checks =
      reject_unknown_keys ("skip_upnp" ∷ "confirmation_id" ∷ [])
      ∷ require_bool "skip_upnp" false
      ∷ confirmation_id_check
      ∷ [];
  method = "firewall_reload";
  returns = none;
  passes = ("skip_upnp", bool false) ∷ ("confirmation_id", null) ∷ [];
}

-- `_settings_set`
abbrev pub settings_set : Operation
settings_set = record {
  checks =
      reject_unknown_keys ("key" ∷ "value" ∷ "confirmation_id" ∷ [])
      ∷ require_str "key" (some 128)
      ∷ require_text "value" null (some 8192)
      ∷ confirmation_id_check
      ∷ [];
  method = "settings_set";
  returns = none;
  passes = ("key", null) ∷ ("value", null) ∷ ("confirmation_id", null) ∷ [];
}

-- `_regenconf_apply`
abbrev pub regenconf_apply : Operation
regenconf_apply = record {
  checks =
      reject_unknown_keys ("names" ∷ "force" ∷ "confirmation_id" ∷ [])
      ∷ require_bool "force" false
      ∷ confirmation_id_check
      ∷ require_that "names" null (or_null (is_names 128))
      ∷ [];
  method = "regenconf_apply";
  returns = none;
  passes = ("names", null) ∷ ("force", bool false) ∷ ("confirmation_id", null) ∷ [];
}
