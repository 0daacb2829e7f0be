-- ===== src/Broker/Calls/Bounds.antt =====
-- The numbers that reach the adapter are within the bounds of their checks.
use yunohost_mcp.Prelude.{
  ℕ, String, ◌≡◌, ◌≤◌, refl, subst, sym, Bool, true, false, some, [], ◌∷◌, ◌==◌, arith, eq_iff,
  Bool-cases, Option-cases, inl, inr, not, ◌||◌, List, is_some,
}
use yunohost_mcp.Prelude.Dict
use yunohost_mcp.Prelude.Dict.{Dict}
use yunohost_mcp.Prelude.Int.{pos, negsuc}
use yunohost_mcp.Prelude.Json.{Json, Fields, null, bool, int, str, arr, obj}
use yunohost_mcp.Prelude.Result.{ok}
use yunohost_mcp.Broker.Calls.Arguments.{
  Operation, AdapterCall, require, require_int, is_between, get, pass, call_of,
}
use yunohost_mcp.Broker.Calls.Arguments.Sound.{call_of_sound, check_at, run_checks-at}
use yunohost_mcp.Broker.Calls.Registry.{handlers, adapter_call, without_arguments}
use yunohost_mcp.Broker.Calls.System.{confirmation_only}
use yunohost_mcp.Broker.Calls.Bound.{all_handlers, all_handlers-get}
use yunohost_mcp.Broker.Calls.Logs.{
  service_logs, journal_query, web_logs, service_history, ssh_diagnose, incident_snapshot,
}

is_between_natural :
    (least most : ℕ) (v : Json)
    → is_between least most v ≡ true
    → (n : ℕ) × (v ≡ int (pos n)) × (least ≤ n) × (n ≤ most)
is_between_natural least most null h = absurd cc
is_between_natural least most (bool b) h = absurd cc
is_between_natural least most (str s) h = absurd cc
is_between_natural least most (arr vs) h = absurd cc
is_between_natural least most (obj fs) h = absurd cc
is_between_natural least most (int (pos n)) h = (n, refl, ground arith, ground arith)
is_between_natural least most (int (negsuc n)) h = absurd (ground arith)

require_returns : (b : Bool) → require b ≡ ok tt → b ≡ true
require_returns true h = refl
require_returns false h = absurd cc

-- A call passes a number within bounds, where the operation checks it.
call_of-number :
    (operation : Operation) (key : String) (default least most at : ℕ) (arguments : Fields)
    (call : AdapterCall)
    → check_at operation.checks at ≡ some (require_int key default least most)
    → ((fs : Fields)
        → Dict.get (pass operation.passes fs) key ≡ some (get key (int (pos default)) fs))
    → call_of operation arguments ≡ ok call
    → (n : ℕ) × (Dict.get call.passed key ≡ some (int (pos n)))
      × (get key (int (pos default)) arguments ≡ int (pos n))
      × (least ≤ n)
      × (n ≤ most)
unfolding require_int
call_of-number operation key default least most at arguments call listed passed e =
    let (run, made) = call_of_sound operation arguments call e in
    let checked =
      run_checks-at operation.checks at (require_int key default least most) arguments listed run in
    let v = get key (int (pos default)) arguments in
    let (n, is, low, high) =
      is_between_natural least most v (require_returns (is_between least most v) checked) in
    (
      n,
      subst (λ c. Dict.get c.passed key ≡ some (int (pos n))) (sym made)
          (cc (passed arguments, is)),
      is,
      low,
      high,
    )

-- The operations that read a number of lines: how many where the request does not say, and at most.
abbrev pub lines_limits : Dict (ℕ × ℕ)
lines_limits =
    ("service.logs", (200, 2000))
    ∷ ("journal.query", (200, 2000))
    ∷ ("web.logs", (200, 2000))
    ∷ ("service.history", (50, 2000))
    ∷ ("ssh.diagnose", (200, 2000))
    ∷ ("incident.snapshot", (100, 500))
    ∷ []

-- The call passes a number of lines, the request's or the default, which is at least 1.
pub PassesLines : String → ℕ × ℕ → Type 0
PassesLines name (default, most) =
    (arguments : Fields) (call : AdapterCall)
    → adapter_call name arguments ≡ ok call
    → (n : ℕ) × (Dict.get call.passed "lines" ≡ some (int (pos n)))
      × (get "lines" (int (pos default)) arguments ≡ int (pos n))
      × (1 ≤ n)
      × (n ≤ most)

AllPassLines : Dict (ℕ × ℕ) → Type 0
AllPassLines [] = Unit
AllPassLines ((name, limits) ∷ d) = PassesLines name limits × AllPassLines d

AllPassLines-get :
    (d : Dict (ℕ × ℕ)) (name : String) (limits : ℕ × ℕ)
    → AllPassLines d
    → Dict.get d name ≡ some limits
    → PassesLines name limits
unfolding AllPassLines Dict.get
AllPassLines-get [] name limits h e = absurd cc
AllPassLines-get ((k, v) ∷ d) name limits (first, rest) e = elim (Bool-cases (k == name)) [
  | inl same ↦
      let named : k ≡ name = (eq_iff k name).0 same in
      let limited : v ≡ limits = ground (arith, same, e) in
      subst (λ n. PassesLines n limits) named (subst (PassesLines k) limited first)
  | inr other ↦ AllPassLines-get d name limits rest (ground (arith, other, e))
]

all_lines : AllPassLines lines_limits
unfolding AllPassLines PassesLines adapter_call Dict.get check_at pass
all_lines = (
  λ fs c e. call_of-number service_logs "lines" 200 1 2000 1 fs c refl (λ gs. refl) e,
  (
    λ fs c e. call_of-number journal_query "lines" 200 1 2000 6 fs c refl (λ gs. refl) e,
    (
      λ fs c e. call_of-number web_logs "lines" 200 1 2000 8 fs c refl (λ gs. refl) e,
      (
        λ fs c e. call_of-number service_history "lines" 50 1 2000 2 fs c refl (λ gs. refl) e,
        (
          λ fs c e. call_of-number ssh_diagnose "lines" 200 1 2000 2 fs c refl (λ gs. refl) e,
          (
            λ fs c e. call_of-number incident_snapshot "lines" 100 1 500 3 fs c refl (λ gs. refl) e,
            tt,
          ),
        ),
      ),
    ),
  ),
)

has_key : String → List (String × Json) → Bool
has_key key [] = false
has_key key ((k, default) ∷ ps) = k == key || has_key key ps

pass-has_key :
    (key : String) (ps : List (String × Json)) (fs : Fields) (v : Json)
    → Dict.get (pass ps fs) key ≡ some v
    → has_key key ps ≡ true
unfolding pass has_key Dict.get
pass-has_key key [] fs v h = absurd cc
pass-has_key key ((k, default) ∷ ps) fs v h = elim (Bool-cases (k == key)) [
  | inl same ↦ ground (arith, same)
  | inr other ↦
      let rest = pass-has_key key ps fs v (ground (arith, other, h)) in ground (arith, rest)
]

-- An operation that passes `lines` is listed.
listed_lines : String → Operation → Bool
listed_lines name operation =
    not (has_key "lines" operation.passes) || is_some (Dict.get lines_limits name)

handlers-listed : all_handlers listed_lines handlers ≡ true
unfolding all_handlers listed_lines has_key Dict.get without_arguments confirmation_only
handlers-listed = refl

-- Whatever operation an accepted request is to: if the call of the adapter passes an argument `lines`,
-- the operation is one of the six that are listed, and `lines` is a number, the request's or else the
-- operation's default, from 1 to the operation's limit.
pub adapter_call-lines :
    (name : String) (arguments : Fields) (call : AdapterCall) (v : Json)
    → adapter_call name arguments ≡ ok call
    → Dict.get call.passed "lines" ≡ some v
    → (default : ℕ) × (most : ℕ) × (n : ℕ) × (Dict.get lines_limits name ≡ some (default, most))
      × (v ≡ int (pos n))
      × (get "lines" (int (pos default)) arguments ≡ int (pos n))
      × (1 ≤ n)
      × (n ≤ most)
unfolding PassesLines adapter_call listed_lines
adapter_call-lines name arguments call v e passed = elim (Option-cases (Dict.get handlers name)) [
  | inl missing ↦ absurd (ground (arith, missing, e))
  | inr (operation, found) ↦
      let (_, made) = call_of_sound operation arguments call (ground (arith, found, e)) in
      let here : Dict.get (pass operation.passes arguments) "lines" ≡ some v =
        subst (λ c. Dict.get c.passed "lines" ≡ some v) made passed in
      let keyed = pass-has_key "lines" operation.passes arguments v here in
      let covered = all_handlers-get listed_lines handlers name operation handlers-listed found in
      elim (Option-cases (Dict.get lines_limits name)) [
        | inl missing ↦ absurd (ground (arith, covered, keyed, missing))
        | inr ((default, most), limited) ↦
            let (n, is, asked, low, high) =
              AllPassLines-get lines_limits name (default, most) all_lines limited arguments call
                e in
            let same : some v ≡ some (int (pos n)) = cc (passed, is) in
            (default, most, n, limited, cc same, asked, low, high)
      ]
]
