-- ===== src/Broker/Operations/Tables.antt =====
-- The tables agree.
use yunohost_mcp.Prelude.{
  String, ◌≡◌, refl, Bool, true, ◌&&◌, some, [], ◌∷◌, ◌==◌, arith, is_some, Bool-cases, inl, inr,
  eq_iff, subst, sym,
}
use yunohost_mcp.Prelude.Dict
use yunohost_mcp.Prelude.Dict.{Dict}
use yunohost_mcp.Policy.Scopes.{of_value, scope_value}
use yunohost_mcp.Prelude.Json.{Fields}
use yunohost_mcp.Broker.Operations.{
  operations, policy_name_by_operation, policy_name_for_operation, confirmation_argument_keys,
}

all_entries : (String → String → Bool) → Dict String → Bool
all_entries f [] = true
all_entries f ((k, v) ∷ d) = f k v && all_entries f d

all_entries-get :
    (f : String → String → Bool) (d : Dict String) (key value : String)
    → all_entries f d ≡ true
    → Dict.get d key ≡ some value
    → f key value ≡ true
unfolding all_entries Dict.get
all_entries-get f [] key value h e = cc
all_entries-get f ((k, v) ∷ d) key value h e = elim (Bool-cases (k == key)) [
  | inl same ↦ ground (arith, same, eq_iff k key)
  | inr other ↦ all_entries-get f d key value (ground arith) (ground (arith, other))
]

known_scope : String → String → Bool
known_scope name value = is_some (of_value value)

bound : String → String → Bool
bound name key =
    is_some (Dict.get operations name) && is_some (Dict.get confirmation_argument_keys name)

-- The scope that an operation requires is a scope: `Scope(operation.required_scope)` does not raise.
pub operations-scopes :
    (name value : String) → Dict.get operations name ≡ some value → is_some (of_value value) ≡ true
unfolding all_entries known_scope of_value scope_value
operations-scopes name value e = all_entries-get known_scope operations name value refl e

table-bound :
    (name key : String)
    → Dict.get policy_name_by_operation name ≡ some key
    → is_some (Dict.get operations name) && is_some (Dict.get confirmation_argument_keys name)
      ≡ true
unfolding all_entries bound Dict.get
table-bound name key e = all_entries-get bound policy_name_by_operation name key refl e

literal-bound :
    (literal name : String)
    → bound literal "" ≡ true
    → (name == literal) ≡ true
    → bound name "" ≡ true
literal-bound literal name h e = subst (λ x. bound x "" ≡ true) (sym ((eq_iff name literal).0 e)) h

literals-bound :
    (bound "app.upgrade" "" ≡ true)
    × (bound "safe.upgrade" "" ≡ true)
    × (bound "app.config_set" "" ≡ true)
    × (bound "app.setting_set" "" ≡ true)
    × (bound "app.remove" "" ≡ true)
    × (bound "app.change_url" "" ≡ true)
    × (bound "app.install" "" ≡ true)
    × (bound "user.create" "" ≡ true)
    × (bound "user.group_update" "" ≡ true)
unfolding bound Dict.get
literals-bound = (refl, refl, refl, refl, refl, refl, refl, refl, refl)

named-bound :
    (name key : String) (arguments : Fields)
    → (Dict.get policy_name_by_operation name ≡ some key → bound name "" ≡ true)
    → policy_name_for_operation name arguments ≡ some key
    → bound name "" ≡ true
unfolding policy_name_for_operation
named-bound name key arguments listed h =
    let (a, b, c, d, e, f, g, i, j) = literals-bound in
    ground (
      arith,
      literal-bound "app.upgrade" name a,
      literal-bound "safe.upgrade" name b,
      literal-bound "app.config_set" name c,
      literal-bound "app.setting_set" name d,
      literal-bound "app.remove" name e,
      literal-bound "app.change_url" name f,
      literal-bound "app.install" name g,
      literal-bound "user.create" name i,
      literal-bound "user.group_update" name j,
    )

-- Whatever its arguments, an operation that has a policy key is in the registry, and the arguments that
-- its confirmation binds are listed.
pub policy_name_for_operation-bound :
    (name key : String) (arguments : Fields)
    → policy_name_for_operation name arguments ≡ some key
    → (is_some (Dict.get operations name) ≡ true)
      × (is_some (Dict.get confirmation_argument_keys name) ≡ true)
unfolding bound
policy_name_for_operation-bound name key arguments h =
    let both = named-bound name key arguments (table-bound name key) h in ground (arith, both)
