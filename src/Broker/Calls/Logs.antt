-- ===== src/Broker/Calls/Logs.antt =====
-- src/yunohost_mcp/broker/operations.py: operation logs, service logs, snapshots and probes.
use text.Mathlib.Text.{starts_with}
use yunohost_mcp.Prelude.{Bool, false, none, some, [], ◌∷◌}
use yunohost_mcp.Prelude.Int.{pos}
use yunohost_mcp.Prelude.Json.{Json, null, bool, int, str}
use yunohost_mcp.Broker.Calls.Arguments.{
  Operation, reject_unknown_keys, no_arguments, is_text, or_null, require_str, optional_str,
  require_bool, require_text, optional_text, require_int, optional_int, require_list, require_that,
}

-- path.startswith("/")
abbrev is_absolute : Json → Bool
is_absolute (str s) = starts_with s "/"
is_absolute _ = false

-- `_operations_list`
abbrev pub operations_list : Operation
operations_list = record {
  checks = optional_int "limit" 1 1000 ∷ require_bool "with_suboperations" false ∷ [];
  method = "operations_list";
  returns = none;
  passes = ("limit", null) ∷ ("with_suboperations", bool false) ∷ [];
}

-- `_operation_name`
abbrev pub operation_name : Operation
operation_name = record {
  checks = require_str "name" (some 256) ∷ [];
  method = "operation_status";
  returns = none;
  passes = ("name", null) ∷ [];
}

-- `_operation_logs`
abbrev pub operation_logs : Operation
operation_logs = record {
  checks = require_str "name" (some 256) ∷ optional_int "tail_lines" 1 10000 ∷ [];
  method = "operation_logs";
  returns = none;
  passes = ("name", null) ∷ ("tail_lines", null) ∷ [];
}

-- `_service_logs`
abbrev pub service_logs : Operation
service_logs = record {
  checks =
      require_str "service" (some 128)
      ∷ require_int "lines" 200 1 2000
      ∷ optional_text "since" null none
      ∷ optional_text "until" null none
      ∷ optional_text "priority" null none
      ∷ optional_text "grep" null none
      ∷ [];
  method = "service_logs";
  returns = none;
  passes =
      ("service", null)
      ∷ ("lines", int (pos 200))
      ∷ ("since", null)
      ∷ ("until", null)
      ∷ ("priority", null)
      ∷ ("grep", null)
      ∷ [];
}

-- `_journal_query`
abbrev pub journal_query : Operation
journal_query = record {
  checks =
      reject_unknown_keys ("units" ∷ "since" ∷ "until" ∷ "priority" ∷ "grep" ∷ "lines" ∷ [])
      ∷ require_list "units" null 1 16 (is_text none)
      ∷ optional_text "since" null (some 256)
      ∷ optional_text "until" null (some 256)
      ∷ optional_text "priority" null (some 256)
      ∷ optional_text "grep" null (some 256)
      ∷ require_int "lines" 200 1 2000
      ∷ [];
  method = "journal_query";
  returns = none;
  passes =
      ("units", null)
      ∷ ("since", null)
      ∷ ("until", null)
      ∷ ("priority", null)
      ∷ ("grep", null)
      ∷ ("lines", int (pos 200))
      ∷ [];
}

-- `_web_logs`
abbrev pub web_logs : Operation
web_logs = record {
  checks =
      reject_unknown_keys ("host" ∷ "path" ∷ "status" ∷ "since" ∷ "until" ∷ "lines" ∷ [])
      ∷ optional_str "host" none
      ∷ require_that "path" null (or_null is_absolute)
      ∷ optional_int "status" 100 599
      ∷ optional_text "since" null (some 256)
      ∷ optional_text "until" null (some 256)
      ∷ optional_text "priority" null (some 256)
      ∷ optional_text "grep" null (some 256)
      ∷ require_int "lines" 200 1 2000
      ∷ [];
  method = "web_logs";
  returns = none;
  passes =
      ("host", null)
      ∷ ("path", null)
      ∷ ("status", null)
      ∷ ("since", null)
      ∷ ("until", null)
      ∷ ("lines", int (pos 200))
      ∷ [];
}

-- `_system_snapshot`
abbrev pub system_snapshot : Operation
system_snapshot = record {
  checks = no_arguments ∷ [];
  method = "system_snapshot";
  returns = none;
  passes = [];
}

-- `_service_history`
abbrev pub service_history : Operation
service_history = record {
  checks =
      reject_unknown_keys ("names" ∷ "lines" ∷ [])
      ∷ require_list "names" null 1 32 (is_text none)
      ∷ require_int "lines" 50 1 2000
      ∷ [];
  method = "service_history";
  returns = none;
  passes = ("names", null) ∷ ("lines", int (pos 50)) ∷ [];
}

-- `_ssh_diagnose`
abbrev pub ssh_diagnose : Operation
ssh_diagnose = record {
  checks =
      reject_unknown_keys ("since" ∷ "lines" ∷ [])
      ∷ require_text "since" (str "-24h") (some 256)
      ∷ require_int "lines" 200 1 2000
      ∷ [];
  method = "ssh_diagnose";
  returns = none;
  passes = ("since", str "-24h") ∷ ("lines", int (pos 200)) ∷ [];
}

-- `_network_snapshot`
abbrev pub network_snapshot : Operation
network_snapshot = record {
  checks = no_arguments ∷ [];
  method = "network_snapshot";
  returns = none;
  passes = [];
}

-- `_http_probe`
abbrev pub http_probe : Operation
http_probe = record {
  checks =
      reject_unknown_keys ("url" ∷ "timeout_seconds" ∷ [])
      ∷ require_str "url" (some 4096)
      ∷ require_int "timeout_seconds" 10 1 60
      ∷ [];
  method = "http_probe";
  returns = none;
  passes = ("url", null) ∷ ("timeout_seconds", int (pos 10)) ∷ [];
}

-- `_incident_snapshot`
abbrev pub incident_snapshot : Operation
incident_snapshot = record {
  checks =
      reject_unknown_keys ("since" ∷ "until" ∷ "lines" ∷ [])
      ∷ require_text "since" (str "-24h") (some 256)
      ∷ optional_text "until" null (some 256)
      ∷ require_int "lines" 100 1 500
      ∷ [];
  method = "incident_snapshot";
  returns = none;
  passes = ("since", str "-24h") ∷ ("until", null) ∷ ("lines", int (pos 100)) ∷ [];
}
