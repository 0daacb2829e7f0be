-- ===== src/Broker/Calls/Arguments.antt =====
-- src/yunohost_mcp/broker/operations.py: the checks of an operation's arguments, and the call of the
-- adapter that they guard. JSON numbers are integers here.
pub mod Sound
use Prim.Native.String.{count}
use yunohost_mcp.Prelude.{
  ℕ, ◌+◌, String, Bool, true, false, not, ◌&&◌, Option, none, some, List, [], ◌∷◌, ◌==◌, leb, all,
  any, is_some, if◌then◌else◌,
}
use yunohost_mcp.Prelude.Int.{pos, leb_ℤ}
use yunohost_mcp.Prelude.Json.{
  Json, Items, Fields, null, bool, int, str, arr, obj, nil, cons, end, field, get_field,
}
use yunohost_mcp.Prelude.Result.{Result, ok, err, ◌>>=◌}

-- The ValueError of an argument that is refused, and the KeyError of `arguments[key]`.
pub data ArgumentError : Type 0 where
  invalid missing_key : ArgumentError

abbrev pub Check : Type 0
Check = Fields → Result ArgumentError (Unit {0})

abbrev pub require : Bool → Result ArgumentError (Unit {0})
require true = ok tt
require false = err invalid

-- arguments.get(key, default)
abbrev pub get : String → Json → Fields → Json
get key default arguments = elim (get_field arguments key) [ none ↦ default | some v ↦ v ]

abbrev pub only_keys : List String → Fields → Bool
only_keys allowed end = true
only_keys allowed (field k v fs) = any (λ a. a == k) allowed && only_keys allowed fs

abbrev pub has_keys : List String → Fields → Bool
has_keys keys arguments = all (λ k. is_some (get_field arguments k)) keys

-- `_reject_unknown_keys`
unfoldable pub reject_unknown_keys : List String → Check
reject_unknown_keys allowed arguments = require (only_keys allowed arguments)

-- set(arguments) == keys
unfoldable pub exactly : List String → Check
exactly keys arguments = require (only_keys keys arguments && has_keys keys arguments)

-- keys.issubset(arguments)
unfoldable pub with_keys : List String → Check
with_keys keys arguments = require (has_keys keys arguments)

-- arguments[key] does not raise
unfoldable pub present : String → Check
present key arguments = if is_some (get_field arguments key) then ok tt else err missing_key

-- not arguments
abbrev is_end : Fields → Bool
is_end end = true
is_end (field k v fs) = false

unfoldable pub no_arguments : Check
no_arguments arguments = require (is_end arguments)

-- len(s) <= max, where there is a limit
abbrev pub at_most : Option ℕ → ℕ → Bool
at_most none n = true
at_most (some max) n = leb n max

abbrev pub is_text : Option ℕ → Json → Bool
is_text max (str s) = not (s == "") && at_most max (count s)
is_text max _ = false

abbrev pub or_null : (Json → Bool) → Json → Bool
or_null test null = true
or_null test v = test v

abbrev pub is_null : Json → Bool
is_null null = true
is_null _ = false

-- `_require_str`, which `_bounded_string` is too
unfoldable pub require_str : String → Option ℕ → Check
require_str key max arguments = require (is_text max (get key null arguments))

-- `_require_str(..., required=False)`, and `_bounded_string` by default
unfoldable pub optional_str : String → Option ℕ → Check
optional_str key max arguments = require (or_null (is_text max) (get key null arguments))

abbrev pub is_bool : Json → Bool
is_bool (bool b) = true
is_bool _ = false

-- `_require_bool`, of a default that is a boolean
unfoldable pub require_bool : String → Bool → Check
require_bool key default arguments = require (is_bool (get key (bool default) arguments))

-- `_require_bool(..., None, optional=True)`
unfoldable pub optional_bool : String → Check
optional_bool key arguments = require (or_null is_bool (get key null arguments))

-- isinstance(v, str) and len(v) <= max
abbrev pub is_any_text : Option ℕ → Json → Bool
is_any_text max (str s) = at_most max (count s)
is_any_text max _ = false

unfoldable pub require_text : String → Json → Option ℕ → Check
require_text key default max arguments = require (is_any_text max (get key default arguments))

unfoldable pub optional_text : String → Json → Option ℕ → Check
optional_text key default max arguments =
    require (or_null (is_any_text max) (get key default arguments))

-- isinstance(v, int) and not isinstance(v, bool) and least <= v <= most
abbrev pub is_between : ℕ → ℕ → Json → Bool
is_between least most (int n) = leb_ℤ (pos least) n && leb_ℤ n (pos most)
is_between least most _ = false

unfoldable pub require_int : String → ℕ → ℕ → ℕ → Check
require_int key default least most arguments =
    require (is_between least most (get key (int (pos default)) arguments))

unfoldable pub optional_int : String → ℕ → ℕ → Check
optional_int key least most arguments =
    require (or_null (is_between least most) (get key null arguments))

-- len(items), and all(test(item) for item in items)
abbrev pub items_count : Items → ℕ
items_count nil = 0
items_count (cons v vs) = items_count vs + 1

abbrev pub all_items : (Json → Bool) → Items → Bool
all_items test nil = true
all_items test (cons v vs) = test v && all_items test vs

-- A list of at least and at most so many items that pass.
abbrev pub is_list : ℕ → ℕ → (Json → Bool) → Json → Bool
is_list least most test (arr vs) =
    leb least (items_count vs) && leb (items_count vs) most && all_items test vs
is_list least most test _ = false

unfoldable pub require_list : String → Json → ℕ → ℕ → (Json → Bool) → Check
require_list key default least most test arguments =
    require (is_list least most test (get key default arguments))

unfoldable pub optional_list : String → ℕ → (Json → Bool) → Check
optional_list key most test arguments =
    require (or_null (is_list 0 most test) (get key null arguments))

-- value in {...}
abbrev pub is_one_of : List String → Json → Bool
is_one_of texts (str s) = any (λ t. t == s) texts
is_one_of texts _ = false

unfoldable pub require_one_of : String → Json → List String → Check
require_one_of key default texts arguments = require (is_one_of texts (get key default arguments))

-- all(is_text(v) for v in arguments.values())
abbrev all_values : (Json → Bool) → Fields → Bool
all_values test end = true
all_values test (field k v fs) = test v && all_values test fs

unfoldable pub require_all : (Json → Bool) → Check
require_all test arguments = require (all_values test arguments)

-- names is None or a list of texts of at most so many characters
abbrev pub is_names : ℕ → Json → Bool
is_names max (arr vs) = all_items (is_any_text (some max)) vs
is_names max _ = false

-- A test of one argument's value.
unfoldable pub require_that : String → Json → (Json → Bool) → Check
require_that key default test arguments = require (test (get key default arguments))

abbrev pub is_obj : Json → Bool
is_obj (obj fs) = true
is_obj _ = false

-- A call of the adapter: its method, and what is passed under the names of the arguments.
pub record AdapterCall : Type 0 where
  pub method : String
  pub passed : List (String × Json)

-- An operation: its checks in order, the method, which arguments are passed with which default, and
-- the key under which the adapter's result is returned, where it is not returned as it is.
pub record Operation : Type 0 where
  pub checks : List Check
  pub method : String
  pub returns : Option String
  pub passes : List (String × Json)

-- return {key: adapter.method(...)}, or the result itself
abbrev pub returned : Option String → Json → Json
returned none result = result
returned (some key) result = obj (field key result end)

unfoldable pub run_checks : List Check → Check
run_checks [] arguments = ok tt
run_checks (check ∷ checks) arguments = do _ ← check arguments; run_checks checks arguments

unfoldable pub pass : List (String × Json) → Fields → List (String × Json)
pass [] arguments = []
pass ((key, default) ∷ rest) arguments = (key, get key default arguments) ∷ pass rest arguments

unfoldable pub call_of : Operation → Fields → Result ArgumentError AdapterCall
call_of operation arguments = do
  _ ← run_checks operation.checks arguments
  ok (record { method = operation.method; passed = pass operation.passes arguments })

-- The optional `confirmation_id`, which every operation that takes one checks alike.
unfoldable pub confirmation_id_check : Check
confirmation_id_check = optional_str "confirmation_id" (some 128)
