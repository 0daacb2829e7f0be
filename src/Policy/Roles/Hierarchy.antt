-- ===== src/Policy/Roles/Hierarchy.antt =====
-- Which role holds which scope.
use yunohost_mcp.Prelude.{
  String, ◌≡◌, refl, Bool, true, false, ◌||◌, none, some, List, [], ◌∷◌, ◌==◌, arith, any, eq_iff,
  Option-cases, Bool-cases, inl, inr, subst, ◌∙◌, ◌++◌,
}
use yunohost_mcp.Prelude.Dict
use yunohost_mcp.Prelude.Result.{ok, err}
use yunohost_mcp.Policy.Scopes.{Scope, has, scope_value, owner_approve, audit_read}
use yunohost_mcp.Policy.Scopes.Laws.{has-append, has-all_scopes}
use yunohost_mcp.Policy.Roles.{
  UnknownRole, readonly, operator, app_admin, package_developer, administrator, role_scopes,
  scopes_from, scopes_for_roles,
}

-- The role is known and has the scope.
abbrev pub role_has : String → Scope → Bool
role_has role s = elim (Dict.get role_scopes role) [ none ↦ false | some scopes ↦ has scopes s ]

-- Each role has every scope of the one before it.
pub roles_increase :
    (s : Scope)
    → (has readonly s ≡ true → has operator s ≡ true)
      × (has operator s ≡ true → has app_admin s ≡ true)
      × (has app_admin s ≡ true → has package_developer s ≡ true)
      × (has package_developer s ≡ true → has administrator s ≡ true)
roles_increase s = (
  λ h. rw (has-append readonly _ s) (ground arith),
  λ h. rw (has-append operator _ s) (ground arith),
  λ h. rw (has-append app_admin _ s) (ground arith),
  λ h. has-all_scopes s,
)

scopes_from-has :
    (result : List Scope) (roles : List String) (r : List Scope) (s : Scope)
    → scopes_from result roles ≡ ok r
    → has r s ≡ (has result s || any (λ role. role_has role s) roles)
unfolding scopes_from
scopes_from-has result [] r s h = ground arith
scopes_from-has result (role ∷ roles) r s h = elim (Option-cases (Dict.get role_scopes role)) [
  | inl missing ↦ absurd (ground arith)
  | inr (scopes, found) ↦ ground (
    arith,
    found,
    scopes_from-has (result ++ scopes) roles r s (ground (arith, found)),
    has-append result scopes s,
  )
]

-- A statement about every text holds for it if it holds for the five role names and for the texts
-- that are none of them.
role_cases :
    (P : String → Type 0)
    → P "readonly"
    → P "operator"
    → P "app-admin"
    → P "package-developer"
    → P "administrator"
    → ((role : String)
        → Dict.get role_scopes role ≡ none
        → ("administrator" == role) ≡ false
        → P role)
    → (role : String) → P role
unfolding Dict.get
role_cases P a b c d e other role = elim (Bool-cases ("readonly" == role)) [
  | inl h ↦ subst P ((eq_iff _ _).0 h) a
  | inr na ↦ elim (Bool-cases ("operator" == role)) [
    | inl h ↦ subst P ((eq_iff _ _).0 h) b
    | inr nb ↦ elim (Bool-cases ("app-admin" == role)) [
      | inl h ↦ subst P ((eq_iff _ _).0 h) c
      | inr nc ↦ elim (Bool-cases ("package-developer" == role)) [
        | inl h ↦ subst P ((eq_iff _ _).0 h) d
        | inr nd ↦ elim (Bool-cases ("administrator" == role)) [
          | inl h ↦ subst P ((eq_iff _ _).0 h) e
          | inr ne ↦ other role (rw (na, nb, nc, nd, ne)) ne
        ]
      ]
    ]
  ]
]

role_has-owner_approve : (role : String) → role_has role owner_approve ≡ ("administrator" == role)
unfolding has scope_value Dict.get
role_has-owner_approve =
    role_cases (λ role. role_has role owner_approve ≡ ("administrator" == role)) refl refl refl refl
      refl (λ role unknown ne. ground arith)

-- The scopes of a list of roles are the union of the scopes of each.
pub scopes_for_roles-has :
    (roles : List String) (r : List Scope) (s : Scope)
    → scopes_for_roles roles ≡ ok r
    → has r s ≡ any (λ role. role_has role s) roles
unfolding scopes_for_roles has
scopes_for_roles-has roles r s h = scopes_from-has [] roles r s h

any-ext :
    (f g : String → Bool) → ((x : String) → f x ≡ g x) → (xs : List String) → any f xs ≡ any g xs
any-ext f g h [] = refl
any-ext f g h (x ∷ xs) = ground (arith, h x, any-ext f g h xs)

-- A list of roles gives the scope to approve for the owner exactly when it has "administrator".
pub owner_approve_iff_administrator :
    (roles : List String) (r : List Scope)
    → scopes_for_roles roles ≡ ok r
    → has r owner_approve ≡ any (λ role. "administrator" == role) roles
owner_approve_iff_administrator roles r h =
    scopes_for_roles-has roles r owner_approve h
    ∙ any-ext (λ role. role_has role owner_approve) (λ role. "administrator" == role)
        role_has-owner_approve roles

-- The audit trail can be read by a role that is not administrator.
app_admin-audit_read : has app_admin audit_read ≡ true
unfolding has scope_value
app_admin-audit_read = refl

scopes_from_error :
    (result : List Scope) (roles : List String) (u : UnknownRole)
    → scopes_from result roles ≡ err u
    → (Dict.get role_scopes u.role ≡ none) × (any (λ role. role == u.role) roles ≡ true)
unfolding scopes_from
scopes_from_error result [] u h = cc
scopes_from_error result (role ∷ roles) u h = elim (Option-cases (Dict.get role_scopes role)) [
  | inl missing ↦ ground (arith, missing, eq_iff role u.role)
  | inr (scopes, found) ↦
      let (a, b) = scopes_from_error (result ++ scopes) roles u (ground (arith, found)) in
      (a, ground (arith, b))
]

-- An error names a role of the list that is not defined.
pub scopes_for_roles_error :
    (roles : List String) (u : UnknownRole)
    → scopes_for_roles roles ≡ err u
    → (Dict.get role_scopes u.role ≡ none) × (any (λ role. role == u.role) roles ≡ true)
unfolding scopes_for_roles
scopes_for_roles_error roles u h = scopes_from_error [] roles u h
