-- ===== src/Policy/Scopes/Laws.antt =====
-- Scope names and sets of scopes.
use yunohost_mcp.Prelude.{
  ◌≡◌, refl, ap, sym, ◌∙◌, true, ◌&&◌, ◌||◌, some, List, [], ◌∷◌, ◌++◌, eq_iff, arith, ◌↔◌,
  Bool-cases, inl, inr,
}
use yunohost_mcp.Policy.Scopes.{
  Scope, server_read, scope_value, of_value, scope_eq, has, intersect, all_scopes,
}

-- Every scope is found again by its name: no two members share a value.
pub of_value-scope_value : (s : Scope) → of_value (scope_value s) ≡ some s
unfolding of_value
of_value-scope_value server_read = refl
of_value-scope_value _ = refl

-- The comparison of scopes decides equality.
pub scope_eq_iff : (a b : Scope) → (scope_eq a b ≡ true) ↔ (a ≡ b)
unfolding scope_eq
scope_eq_iff a b = (
  λ h.
      some_eq
        (sym (of_value-scope_value a) ∙ ap of_value ((eq_iff _ _).0 h) ∙ of_value-scope_value b),
  λ h. (eq_iff _ _).1 (ap scope_value h),
)
  where
    some_eq : {x y : Scope} → some x ≡ some y → x ≡ y
    some_eq h = cc

pub has-append : (a b : List Scope) (s : Scope) → has (a ++ b) s ≡ (has a s || has b s)
unfolding has
has-append [] b s = refl
has-append (t ∷ a) b s = ground (arith, has-append a b s)

-- A scope is in the intersection of two sets exactly when it is in both.
pub has-intersect : (a b : List Scope) (s : Scope) → has (intersect a b) s ≡ (has a s && has b s)
unfolding has intersect
has-intersect [] b s = refl
has-intersect (t ∷ a) b s = elim (Bool-cases (has b t)) [
  | inl inside ↦ ground (arith, inside, scope_eq_iff t s, has-intersect a b s)
  | inr outside ↦ ground (arith, outside, scope_eq_iff t s, has-intersect a b s)
]

-- The set of all scopes has every scope.
pub has-all_scopes : (s : Scope) → has all_scopes s ≡ true
unfolding has scope_value
has-all_scopes server_read = refl
has-all_scopes _ = refl
