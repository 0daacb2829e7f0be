-- ===== src/Policy/Rules/Loading.antt =====
-- What policy.toml changes of the built-in policy.
use yunohost_mcp.Prelude.{
  String, ◌≡◌, Option, none, some, List, [], ◌∷◌, ◌==◌, arith, eq_iff, Bool-cases, inl, inr,
}
use yunohost_mcp.Prelude.Dict
use yunohost_mcp.Prelude.Dict.{Dict, get-put, get-cons}
use yunohost_mcp.Prelude.Json.{Fields, get_field}
use yunohost_mcp.Prelude.Result.{Result, ok, ◌>>=◌, >>=-returns}
use yunohost_mcp.Platform.{Platform}
use yunohost_mcp.Policy.Rules.{
  PolicyRule, sections, default_policy, override, override_all, rule_or, quantity, load_policy,
}
use yunohost_mcp.Policy.Rules.Sizes.{PolicyConfigError, parse_size, parse_duration}

-- A TOML file names each table once.
abbrev pub IsDistinct : List (String × Fields) → Type 0
IsDistinct [] = Unit
IsDistinct ((key, entry) ∷ rest) = (Dict.get rest key ≡ none) × IsDistinct rest

module _ (p : Platform) where
  -- The rule that a file gives to a key: the standing one, or that with the table's fields over it.
  abbrev pub expected :
      Option Fields → Option PolicyRule → Result PolicyConfigError (Option PolicyRule)
  expected none standing = ok standing
  expected (some entry) standing = do r ← override p entry (rule_or standing); ok (some r)

  override-keeps_owner :
      (entry : Fields) (base r : PolicyRule)
      → get_field entry "require_owner_signature" ≡ none
      → override p entry base ≡ ok r
      → r.require_owner_signature ≡ base.require_owner_signature
  unfolding override
  override-keeps_owner entry base r silent h =
      let (space, _, h') =
        >>=-returns
          (quantity p parse_size (get_field entry "minimum_free_space")
            base.minimum_free_space_bytes)
          _ h in
      let (age, _, h'') =
        >>=-returns
          (quantity p parse_duration (get_field entry "max_backup_age") base.max_backup_age_seconds)
          _ h' in
      ground (arith, silent, h'')

  expected-keeps_owner :
      (entry : Fields) (standing loaded : Option PolicyRule)
      → get_field entry "require_owner_signature" ≡ none
      → expected (some entry) standing ≡ ok loaded
      → (rule_or loaded).require_owner_signature ≡ (rule_or standing).require_owner_signature
  expected-keeps_owner entry standing loaded silent h =
      let (r, o, same) = >>=-returns (override p entry (rule_or standing)) _ h in
      let kept = override-keeps_owner entry (rule_or standing) r silent o in
      ground (arith, same, kept)

  override_all_lem :
      (tables : List (String × Fields)) (d rules : Dict PolicyRule) (key : String)
      → IsDistinct tables
      → override_all p tables d ≡ ok rules
      → expected (Dict.get tables key) (Dict.get d key) ≡ ok (Dict.get rules key)
  unfolding override_all
  override_all_lem [] d rules key u h = unfold Dict.get in ground (arith, h)
  override_all_lem ((k, e) ∷ rest) d rules key (new, u) h =
      let (r, here, later) = >>=-returns (override p e (rule_or (Dict.get d k))) _ h in
      let ih = override_all_lem rest (Dict.put d k r) rules key u later in
      elim (Bool-cases (k == key)) [
        | inl same ↦
            ground
              (arith, same, eq_iff k key, new, here, ih, get-put d k r key, get-cons k e rest key)
        | inr other ↦ ground (arith, other, ih, get-put d k r key, get-cons k e rest key)
      ]

  pub load_policy_lem :
      (tables : List (String × Fields)) (rules : Dict PolicyRule) (key : String)
      → IsDistinct tables
      → load_policy p (sections tables) ≡ ok rules
      → expected (Dict.get tables key) (Dict.get default_policy key) ≡ ok (Dict.get rules key)
  unfolding load_policy
  load_policy_lem tables rules key u h = override_all_lem tables default_policy rules key u h

  -- A table that does not set the owner's signature leaves a rule that asks for it exactly where the
  -- built-in one does, whatever else the table sets.
  pub load_policy-keeps_owner :
      (tables : List (String × Fields)) (rules : Dict PolicyRule) (key : String) (entry : Fields)
      → IsDistinct tables
      → load_policy p (sections tables) ≡ ok rules
      → Dict.get tables key ≡ some entry
      → get_field entry "require_owner_signature" ≡ none
      → (rule_or (Dict.get rules key)).require_owner_signature
        ≡ (rule_or (Dict.get default_policy key)).require_owner_signature
  load_policy-keeps_owner tables rules key entry u h e silent =
      expected-keeps_owner entry (Dict.get default_policy key) (Dict.get rules key) silent
        (rw e at (load_policy_lem tables rules key u h))
