-- ===== src/Broker/Calls/Bound/Given.antt =====
-- src/yunohost_mcp/broker/operations.py: where an argument has a default other than None, an
-- accepted request does not have None for it.
use yunohost_mcp.Prelude.{
  ℕ, String, ◌≡◌, ◌≢◌, refl, Bool, true, false, not, ◌&&◌, ◌||◌, ◌==◌, Option, some, List, [], ◌∷◌,
  arith, eq_iff, Bool-cases, inl, inr, is_some, subst,
}
use yunohost_mcp.Prelude.Dict
use yunohost_mcp.Prelude.Dict.{Dict}
use yunohost_mcp.Prelude.Json.{Json, Fields, null, bool, int, str, arr, obj, get_field}
use yunohost_mcp.Prelude.Result.{ok}
use yunohost_mcp.Broker.Operations.{confirmation_argument_keys}
use yunohost_mcp.Broker.Calls.Arguments.{Check, Operation, run_checks, require_bool, require_text}
use yunohost_mcp.Broker.Calls.Arguments.Sound.{check_at, run_checks-at}
use yunohost_mcp.Broker.Calls.Registry.{handlers, without_arguments}
use yunohost_mcp.Broker.Calls.Packages.{package_remove_test}
use yunohost_mcp.Broker.Calls.Apps.{
  app_install, app_upgrade, app_remove, app_setting_set, backup_restore,
}
use yunohost_mcp.Broker.Calls.System.{
  migrations_run, firewall_open, firewall_close, firewall_reload, regenconf_apply,
  confirmation_only,
}
use yunohost_mcp.Broker.Calls.Users.{user_delete}
use yunohost_mcp.Broker.Calls.Domains.{
  domain_add, domain_remove, domain_cert_install, domain_dns_push,
}

-- Where the default is not null, neither is the argument.
abbrev pub AreGiven : List (String × Json) → Fields → Type 0
AreGiven [] fs = Unit
AreGiven ((k, null) ∷ ps) fs = AreGiven ps fs
AreGiven ((k, bool b) ∷ ps) fs = (get_field fs k ≢ some null) × AreGiven ps fs
AreGiven ((k, int n) ∷ ps) fs = (get_field fs k ≢ some null) × AreGiven ps fs
AreGiven ((k, str s) ∷ ps) fs = (get_field fs k ≢ some null) × AreGiven ps fs
AreGiven ((k, arr vs) ∷ ps) fs = (get_field fs k ≢ some null) × AreGiven ps fs
AreGiven ((k, obj os) ∷ ps) fs = (get_field fs k ≢ some null) × AreGiven ps fs

-- The checks of the operation refuse null where the default is another value.
abbrev pub IsStrict : Operation → Type 0
IsStrict operation =
    (fs : Fields) → run_checks operation.checks fs ≡ ok tt → AreGiven operation.passes fs

abbrev has_default : List (String × Json) → Bool
has_default [] = false
has_default ((k, null) ∷ ps) = has_default ps
has_default ((k, bool b) ∷ ps) = true
has_default ((k, int n) ∷ ps) = true
has_default ((k, str s) ∷ ps) = true
has_default ((k, arr vs) ∷ ps) = true
has_default ((k, obj os) ∷ ps) = true

no_default-AreGiven :
    (ps : List (String × Json)) (fs : Fields) → has_default ps ≡ false → AreGiven ps fs
no_default-AreGiven [] fs h = tt
no_default-AreGiven ((k, null) ∷ ps) fs h = no_default-AreGiven ps fs h
no_default-AreGiven ((k, bool b) ∷ ps) fs h = absurd cc
no_default-AreGiven ((k, int n) ∷ ps) fs h = absurd cc
no_default-AreGiven ((k, str s) ∷ ps) fs h = absurd cc
no_default-AreGiven ((k, arr vs) ∷ ps) fs h = absurd cc
no_default-AreGiven ((k, obj os) ∷ ps) fs h = absurd cc

-- `_user_create` takes None for mailbox_quota, whose default is "0".
abbrev pub is_lenient : String → Bool
is_lenient name = name == "catalog.publish" || name == "user.create"

needs_check : String → Operation → Bool
needs_check name operation =
    is_some (Dict.get confirmation_argument_keys name)
    && not (is_lenient name)
    && has_default operation.passes

abbrev IfNeeded : Bool → Type 0 → Type 0 → Type 0
IfNeeded true S T = S × T
IfNeeded false S T = T

AllStrict : Dict Operation → Type 0
AllStrict [] = Unit
AllStrict ((name, operation) ∷ d) =
    IfNeeded (needs_check name operation) (IsStrict operation) (AllStrict d)

first_of : (S T : Type 0) (b : Bool) → IfNeeded b S T → b ≡ true → S
first_of S T true h e = h.0
first_of S T false h e = absurd cc

rest_of : (S T : Type 0) (b : Bool) → IfNeeded b S T → T
rest_of S T true h = h.1
rest_of S T false h = h

AllStrict-get :
    (d : Dict Operation) (name : String) (operation : Operation)
    → AllStrict d
    → Dict.get d name ≡ some operation
    → needs_check name operation ≡ true
    → IsStrict operation
unfolding AllStrict Dict.get
AllStrict-get [] name operation h e need = absurd cc
AllStrict-get ((k, v) ∷ d) name operation h e need = elim (Bool-cases (k == name)) [
  | inl same ↦
      let named : k ≡ name = (eq_iff k name).0 same in
      let is : v ≡ operation = ground (arith, same, e) in
      subst IsStrict is (first_of _ _ (needs_check k v) h (cc (named, is, need)))
  | inr other ↦
      AllStrict-get d name operation (rest_of _ _ (needs_check k v) h) (ground (arith, other, e))
        need
]

bool_given :
    (checks : List Check) (at : ℕ) (key : String) (default : Bool) (fs : Fields)
    → check_at checks at ≡ some (require_bool key default)
    → run_checks checks fs ≡ ok tt
    → get_field fs key ≢ some null
unfolding require_bool
bool_given checks at key default fs listed run missing =
    let checked = run_checks-at checks at (require_bool key default) fs listed run in
    absurd (ground (arith, checked, missing))

text_given :
    (checks : List Check) (at : ℕ) (key : String) (default : Json) (max : Option ℕ) (fs : Fields)
    → check_at checks at ≡ some (require_text key default max)
    → run_checks checks fs ≡ ok tt
    → get_field fs key ≢ some null
unfolding require_text
text_given checks at key default max fs listed run missing =
    let checked = run_checks-at checks at (require_text key default max) fs listed run in
    absurd (ground (arith, checked, missing))

all_strict : AllStrict handlers
unfolding AllStrict needs_check Dict.get check_at without_arguments confirmation_only
all_strict = (
  λ fs run. (bool_given package_remove_test.checks 2 "purge" true fs refl run, tt),
  (
    λ fs run. (bool_given app_install.checks 4 "force" false fs refl run, tt),
    (
      λ fs run. (bool_given app_upgrade.checks 2 "force" false fs refl run, tt),
      (
        λ fs run. (bool_given app_remove.checks 2 "purge" false fs refl run, tt),
        (
          λ fs run. (bool_given app_setting_set.checks 4 "delete" false fs refl run, tt),
          (
            λ fs run. (bool_given backup_restore.checks 4 "force" false fs refl run, tt),
            (
              λ fs run. (
                bool_given migrations_run.checks 2 "skip" false fs refl run,
                (
                  bool_given migrations_run.checks 3 "auto" false fs refl run,
                  (
                    bool_given migrations_run.checks 4 "force_rerun" false fs refl run,
                    (
                      bool_given migrations_run.checks 5 "accept_disclaimer" false fs refl run,
                      (
                        bool_given migrations_run.checks 6 "skip_postmigrations" false fs refl run,
                        tt,
                      ),
                    ),
                  ),
                ),
              ),
              (
                λ fs run. (
                  text_given firewall_open.checks 3 "comment" (str "") (some 1024) fs refl run,
                  (
                    bool_given firewall_open.checks 4 "upnp" false fs refl run,
                    (bool_given firewall_open.checks 5 "no_reload" false fs refl run, tt),
                  ),
                ),
                (
                  λ fs run. (
                    bool_given firewall_close.checks 3 "upnp_only" false fs refl run,
                    (bool_given firewall_close.checks 4 "no_reload" false fs refl run, tt),
                  ),
                  (
                    λ fs run.
                        (bool_given firewall_reload.checks 1 "skip_upnp" false fs refl run, tt),
                    (
                      λ fs run. (bool_given user_delete.checks 2 "purge" false fs refl run, tt),
                      (
                        λ fs run. (
                          bool_given domain_add.checks 2 "install_letsencrypt_cert" false fs refl
                              run,
                          tt,
                        ),
                        (
                          λ fs run. (
                            bool_given domain_remove.checks 2 "remove_apps" false fs refl run,
                            (bool_given domain_remove.checks 3 "force" false fs refl run, tt),
                          ),
                          (
                            λ fs run. (
                              bool_given domain_cert_install.checks 2 "letsencrypt" true fs refl
                                  run,
                              (
                                bool_given domain_cert_install.checks 3 "staging" false fs refl run,
                                tt,
                              ),
                            ),
                            (
                              λ fs run. (
                                bool_given domain_dns_push.checks 2 "force" false fs refl run,
                                (bool_given domain_dns_push.checks 3 "purge" false fs refl run, tt),
                              ),
                              (
                                λ fs run. (
                                  bool_given regenconf_apply.checks 1 "force" false fs refl run,
                                  tt,
                                ),
                                tt,
                              ),
                            ),
                          ),
                        ),
                      ),
                    ),
                  ),
                ),
              ),
            ),
          ),
        ),
      ),
    ),
  ),
)

-- An accepted request to a confirmable operation, other than the two, has no None where the default is
-- another value.
pub handler-AreGiven :
    (name : String) (operation : Operation) (fs : Fields)
    → Dict.get handlers name ≡ some operation
    → is_some (Dict.get confirmation_argument_keys name) ≡ true
    → is_lenient name ≡ false
    → run_checks operation.checks fs ≡ ok tt
    → AreGiven operation.passes fs
unfolding needs_check
handler-AreGiven name operation fs found listed strict run =
    elim (Bool-cases (has_default operation.passes)) [
      | inr none_left ↦ no_default-AreGiven operation.passes fs none_left
      | inl some_left ↦
          AllStrict-get handlers name operation all_strict found
            (ground (arith, listed, strict, some_left)) fs run
    ]
