-- ===== src/Tests/CallRuns.antt =====
-- The operations of the broker on a few arguments.
use yunohost_mcp.Prelude.{ℕ, String, ◌≡◌, ◌≢◌, eq_iff, ◌≤◌, refl, false, some, List, [], ◌∷◌}
use yunohost_mcp.Prelude.Dict
use yunohost_mcp.Prelude.Int.{pos}
use yunohost_mcp.Prelude.Json.{
  Json, Fields, field, end, str, int, arr, cons, nil, null, bool, get_field,
}
use yunohost_mcp.Prelude.Result.{ok, err}
use yunohost_mcp.Broker.Operations.{confirmation_argument_keys}
use yunohost_mcp.Broker.Helper.{bound_arguments}
use yunohost_mcp.Broker.Calls.Arguments.{
  AdapterCall, run_checks, pass, call_of, get, invalid, reject_unknown_keys, require_str,
  require_int, require_bool, optional_text, require_list, confirmation_id_check, optional_str,
  require_that, require_one_of, require_text,
}
use yunohost_mcp.Policy.Rules.Sizes.{number_from}
use yunohost_mcp.Broker.Calls.System.{parts}
use yunohost_mcp.Broker.Calls.Bound.{checked, adapter_call-bound}
use yunohost_mcp.Broker.Calls.Bounds.{lines_limits, adapter_call-lines}
use yunohost_mcp.Broker.Calls.Publish.{publish_arguments, adapter_call-publish_unbound}
use yunohost_mcp.Broker.Calls.Registry.{adapter_call}

abbrev stop : Fields
stop = field "names" (arr (cons (str "nginx") nil)) end

abbrev stop_call : AdapterCall
stop_call = record {
  method = "service_stop";
  passed = ("names", arr (cons (str "nginx") nil)) ∷ ("confirmation_id", null) ∷ [];
}

stop_accepted : adapter_call "service.stop" stop ≡ ok stop_call
unfolding adapter_call Dict.get call_of run_checks pass get_field reject_unknown_keys require_list
    confirmation_id_check optional_str
stop_accepted = refl

stop_bound : Dict.get confirmation_argument_keys "service.stop" ≡ some ("names" ∷ [])
unfolding Dict.get
stop_bound = refl

-- The same names, after a confirmation_id that is null.
abbrev stop_null : Fields
stop_null = field "confirmation_id" null stop

stop_null_accepted : adapter_call "service.stop" stop_null ≡ ok stop_call
unfolding adapter_call Dict.get call_of run_checks pass get_field reject_unknown_keys require_list
    confirmation_id_check optional_str
stop_null_accepted = refl

same_bound :
    bound_arguments (checked ("names" ∷ [])) stop
    ≡ bound_arguments (checked ("names" ∷ [])) stop_null
unfolding bound_arguments get_field
same_bound = refl

adapter_call-bound_example : stop_call ≡ stop_call
adapter_call-bound_example =
    adapter_call-bound "service.stop" ("names" ∷ []) stop stop_null stop_call stop_call stop_bound
      refl same_bound stop_accepted stop_null_accepted

-- Creating a user with no mailbox_quota and with null for it binds the same arguments, and passes "0"
-- and None.
abbrev new_user : Fields → Fields
new_user rest = field "username" (str "bob") (
    field "domain" (str "example.org")
      (field "password" (str "hunter2") (field "fullname" (str "Bob") rest)))

abbrev quota_keys : List String
quota_keys = "username" ∷ "domain" ∷ "password" ∷ "fullname" ∷ "mailbox_quota" ∷ "admin" ∷ []

quota_unbound :
    bound_arguments quota_keys (new_user end)
    ≡ bound_arguments quota_keys (new_user (field "mailbox_quota" null end))
unfolding bound_arguments get_field
quota_unbound = refl

user_call : Json → AdapterCall
user_call quota = record {
  method = "user_create";
  passed =
      ("username", str "bob")
      ∷ ("domain", str "example.org")
      ∷ ("password", str "hunter2")
      ∷ ("fullname", str "Bob")
      ∷ ("mailbox_quota", quota)
      ∷ ("admin", bool false)
      ∷ ("confirmation_id", null)
      ∷ [];
}

quota_missing : adapter_call "user.create" (new_user end) ≡ ok (user_call (str "0"))
unfolding adapter_call Dict.get call_of run_checks pass get_field reject_unknown_keys require_str
    optional_text require_bool confirmation_id_check optional_str user_call
quota_missing = refl

quota_null :
    adapter_call "user.create" (new_user (field "mailbox_quota" null end)) ≡ ok (user_call null)
unfolding adapter_call Dict.get call_of run_checks pass get_field reject_unknown_keys require_str
    optional_text require_bool confirmation_id_check optional_str user_call
quota_null = refl

abbrev logs : Fields
logs = field "service" (str "nginx") end

abbrev logs_call : AdapterCall
logs_call = record {
  method = "service_logs";
  passed =
      ("service", str "nginx")
      ∷ ("lines", int (pos 200))
      ∷ ("since", null)
      ∷ ("until", null)
      ∷ ("priority", null)
      ∷ ("grep", null)
      ∷ [];
}

logs_accepted : adapter_call "service.logs" logs ≡ ok logs_call
unfolding adapter_call Dict.get call_of run_checks pass get_field require_str require_int
    optional_text
logs_accepted = refl

logs_lines : Dict.get logs_call.passed "lines" ≡ some (int (pos 200))
unfolding Dict.get
logs_lines = refl

adapter_call-lines_example :
    (default : ℕ) × (most : ℕ) × (n : ℕ) × (Dict.get lines_limits "service.logs"
      ≡ some (default, most))
    × (int (pos 200) ≡ int (pos n))
    × (get "lines" (int (pos default)) logs ≡ int (pos n))
    × (1 ≤ n)
    × (n ≤ most)
adapter_call-lines_example =
    adapter_call-lines "service.logs" logs logs_call (int (pos 200)) logs_accepted logs_lines

adapter_call-publish_unbound_example :
    (keys : List String) × (Dict.get confirmation_argument_keys "catalog.publish" ≡ some keys)
    × (bound_arguments keys (publish_arguments "plan" "/srv/a")
        ≡ bound_arguments keys (publish_arguments "plan" "/srv/b"))
    × (c : AdapterCall) × (c' : AdapterCall) × (adapter_call "catalog.publish"
          (publish_arguments "plan" "/srv/a")
        ≡ ok c)
    × (adapter_call "catalog.publish" (publish_arguments "plan" "/srv/b") ≡ ok c')
    × (c ≢ c')
adapter_call-publish_unbound_example =
    adapter_call-publish_unbound "plan" "/srv/a" "/srv/b" refl refl refl
      (λ same. cc ((eq_iff "/srv/a" "/srv/b").1 same))

-- A range of ports is accepted, port 0 is not.
open_range :
    adapter_call "firewall.open" (field "port" (str "8000-8010") (field "protocol" (str "tcp") end))
    ≡ ok (record {
      method = "firewall_open";
      passed =
          ("port", str "8000-8010")
          ∷ ("protocol", str "tcp")
          ∷ ("comment", str "")
          ∷ ("upnp", bool false)
          ∷ ("no_reload", bool false)
          ∷ ("confirmation_id", null)
          ∷ [];
    })
unfolding adapter_call Dict.get call_of run_checks pass get_field reject_unknown_keys require_that
    require_one_of require_bool confirmation_id_check require_text optional_str parts number_from
open_range = refl

open_zero :
    adapter_call "firewall.open" (field "port" (str "0") (field "protocol" (str "tcp") end))
    ≡ err invalid
unfolding adapter_call Dict.get call_of run_checks pass get_field reject_unknown_keys require_that
    parts number_from
open_zero = refl
