-- ===== src/Policy/Rules.antt =====
-- src/yunohost_mcp/policy/rules.py: the rules of policy.toml over the built-in defaults, the policy
-- key of a call, and the two hard requirements. Sizes and durations are read as ASCII text.
pub mod Sizes
pub mod Gates
pub mod Loading
use yunohost_mcp.Prelude.{
  ℕ, ◌-◌, ◌*◌, ◌^◌, String, Bool, true, false, not, ◌&&◌, Option, none, some, List, [], ◌∷◌, ◌==◌,
  ltb, is_some, if◌then◌else◌,
}
use text.Mathlib.Text.{find?}
use yunohost_mcp.Prelude.Int.{ℤ, pos, negsuc}
use yunohost_mcp.Prelude.Dict
use yunohost_mcp.Prelude.Dict.{Dict}
use yunohost_mcp.Prelude.Json.{
  Json, Items, Fields, null, bool, int, str, arr, obj, nil, cons, end, field, get_field,
}
use yunohost_mcp.Prelude.Result.{Result, ok, err, ◌>>=◌}
use yunohost_mcp.Platform.{Platform}
use Sizes.{PolicyConfigError, parse_size, parse_duration, invalid_toml}

pub record PolicyRule : Type 0 where
  pub require_confirmation : Bool
  pub require_backup : Bool
  pub minimum_free_space_bytes : Option ℕ
  pub max_backup_age_seconds : Option ℕ
  pub require_owner_signature : Bool

-- PolicyRule()
abbrev pub no_rule : PolicyRule
no_rule = record {
  require_confirmation = false;
  require_backup = false;
  minimum_free_space_bytes = none;
  max_backup_age_seconds = none;
  require_owner_signature = false;
}

abbrev pub confirmed : PolicyRule
confirmed = record no_rule { require_confirmation = true }

abbrev pub owner_signed : PolicyRule
owner_signed = record confirmed { require_owner_signature = true }

abbrev pub control_plane_app_id : String
control_plane_app_id = "yunohost_mcp"

-- arguments.get(key) == value
abbrev pub is_str : Option Json → String → Bool
is_str (some (str s)) v = s == v
is_str _ v = false

-- arguments.get("app") in (None, CONTROL_PLANE_APP_ID)
abbrev pub is_missing : Option Json → Bool
is_missing none = true
is_missing (some null) = true
is_missing (some _) = false

-- isinstance(app, str) and "yunohost_mcp" in app
abbrev pub names_control_plane : Option Json → Bool
names_control_plane (some (str s)) = is_some (find? s "yunohost_mcp")
names_control_plane _ = false

-- arguments.get(key, False) is True
abbrev pub is_true : Option Json → Bool
is_true (some (bool b)) = b
is_true _ = false

unfoldable pub app_config_policy_key : Fields → String
unfolding get_field
app_config_policy_key arguments =
    if is_str (get_field arguments "app") control_plane_app_id
    then "apps.control_plane_config"
    else "apps.config"

unfoldable pub app_setting_policy_key : Fields → String
unfolding get_field
app_setting_policy_key arguments =
    if is_str (get_field arguments "app") control_plane_app_id
    then "apps.control_plane_setting"
    else "apps.setting"

unfoldable pub app_upgrade_policy_key : Fields → String
unfolding get_field
app_upgrade_policy_key arguments =
    let app = get_field arguments "app" in
    if is_missing app
    then "apps.control_plane_upgrade"
    else if is_str app control_plane_app_id
    then "apps.control_plane_upgrade"
    else "apps.upgrade"

unfoldable pub app_remove_policy_key : Fields → String
unfolding get_field
app_remove_policy_key arguments =
    if is_str (get_field arguments "app") control_plane_app_id
    then "apps.control_plane_remove"
    else "apps.remove"

unfoldable pub app_change_url_policy_key : Fields → String
unfolding get_field
app_change_url_policy_key arguments =
    if is_str (get_field arguments "app") control_plane_app_id
    then "apps.control_plane_change_url"
    else "apps.change_url"

unfoldable pub app_install_policy_key : Fields → String
unfolding get_field
app_install_policy_key arguments =
    let app = get_field arguments "app" in
    if is_str app control_plane_app_id
    then "apps.control_plane_install"
    else if names_control_plane app
    then "apps.control_plane_install"
    else "apps.install"

unfoldable pub user_create_policy_key : Fields → String
unfolding get_field
user_create_policy_key arguments =
    if is_true (get_field arguments "admin") then "users.admin_access" else "users.write"

unfoldable pub user_group_update_policy_key : Fields → String
unfolding get_field
user_group_update_policy_key arguments =
    if is_str (get_field arguments "groupname") "admins"
    then "users.admin_access"
    else "users.write"

-- `DEFAULT_POLICY`; `_parse_size("2GB")` and `_parse_duration("24h")` are their values.
abbrev pub default_policy : Dict PolicyRule
default_policy =
    ("catalog.publish", owner_signed)
    ∷ ("domains.write", confirmed)
    ∷ ("domains.cert", confirmed)
    ∷ ("domains.dns", owner_signed)
    ∷ ("packages.test", owner_signed)
    ∷ (
      "apps.upgrade",
      (record no_rule { require_backup = true; minimum_free_space_bytes = some (2 * 1000 ^ 3) }),
    )
    ∷ (
      "apps.control_plane_upgrade",
      (record owner_signed {
        require_backup = true;
        minimum_free_space_bytes = some (2 * 1000 ^ 3);
      }),
    )
    ∷ ("apps.install", (record confirmed { minimum_free_space_bytes = some (2 * 1000 ^ 3) }))
    ∷ ("apps.control_plane_install", owner_signed)
    ∷ (
      "apps.control_plane_remove",
      (record owner_signed { require_backup = true; max_backup_age_seconds = some (24 * 3600) }),
    )
    ∷ (
      "apps.remove",
      (record confirmed { require_backup = true; max_backup_age_seconds = some (24 * 3600) }),
    )
    ∷ ("apps.change_url", confirmed)
    ∷ ("apps.control_plane_change_url", owner_signed)
    ∷ ("apps.config", confirmed)
    ∷ ("apps.control_plane_config", owner_signed)
    ∷ ("apps.setting", confirmed)
    ∷ ("apps.control_plane_setting", owner_signed)
    ∷ ("services.stop", confirmed)
    ∷ ("backups.restore", owner_signed)
    ∷ ("domains.remove", owner_signed)
    ∷ ("backups.delete", owner_signed)
    ∷ ("system.upgrade", owner_signed)
    ∷ ("system.migrate", owner_signed)
    ∷ ("users.write", confirmed)
    ∷ ("users.admin_access", owner_signed)
    ∷ ("users.delete", owner_signed)
    ∷ ("users.permissions", owner_signed)
    ∷ ("firewall.write", owner_signed)
    ∷ ("settings.write", owner_signed)
    ∷ ("regenconf.write", owner_signed)
    ∷ ("system.power", owner_signed)
    ∷ ("audit.read", owner_signed)
    ∷ []

-- bool(value)
unfoldable pub truthy : Json → Bool
truthy null = false
truthy (bool b) = b
truthy (int (pos n)) = ltb 0 n
truthy (int (negsuc n)) = true
truthy (str s) = not (s == "")
truthy (arr nil) = false
truthy (arr (cons v vs)) = true
truthy (obj end) = false
truthy (obj (field k v fs)) = true

-- policy.toml: missing, not TOML, or the tables under [policy]
pub data PolicyFile : Type 0 where
  missing invalid : PolicyFile
  sections : List (String × Fields) → PolicyFile

-- bool(entry[key]) if key in entry else base
abbrev pub flag : Option Json → Bool → Bool
flag none base = base
flag (some v) base = truthy v

-- rules.get(key, PolicyRule())
abbrev pub rule_or : Option PolicyRule → PolicyRule
rule_or none = no_rule
rule_or (some r) = r

module _ (p : Platform) where
  -- str(value)
  abbrev as_text : Json → String
  as_text (str s) = s
  as_text v = p.text_of v

  quantity :
      (String → Result PolicyConfigError ℕ)
      → Option Json
      → Option ℕ
      → Result PolicyConfigError (Option ℕ)
  quantity parse none base = ok base
  quantity parse (some v) base = do n ← parse (as_text v); ok (some n)

  -- The rule of one [policy.<key>] table over the rule that stands.
  unfoldable pub override : Fields → PolicyRule → Result PolicyConfigError PolicyRule
  unfolding quantity
  override entry base = do
    space ← quantity parse_size (get_field entry "minimum_free_space") base.minimum_free_space_bytes
    age ← quantity parse_duration (get_field entry "max_backup_age") base.max_backup_age_seconds
    ok (record {
      require_confirmation =
          flag (get_field entry "require_confirmation") base.require_confirmation;
      require_backup = flag (get_field entry "require_backup") base.require_backup;
      minimum_free_space_bytes = space;
      max_backup_age_seconds = age;
      require_owner_signature =
          flag (get_field entry "require_owner_signature") base.require_owner_signature;
    })

  override_all :
      List (String × Fields) → Dict PolicyRule → Result PolicyConfigError (Dict PolicyRule)
  override_all [] rules = ok rules
  override_all ((key, entry) ∷ rest) rules = do
    rule ← override entry (rule_or (Dict.get rules key))
    override_all rest (Dict.put rules key rule)

  unfoldable pub load_policy : PolicyFile → Result PolicyConfigError (Dict PolicyRule)
  unfolding override_all
  load_policy missing = ok default_policy
  load_policy invalid = err invalid_toml
  load_policy (sections tables) = override_all tables default_policy

-- `PolicyViolation`, by its messages
pub data PolicyViolation : Type 0 where
  low_space no_backup old_backup : PolicyViolation

unfoldable pub check_free_space : PolicyRule → ℕ → Result PolicyViolation (Unit {0})
check_free_space rule free_bytes = elim rule.minimum_free_space_bytes [
  | none ↦ ok tt
  | some least ↦ if ltb free_bytes least then err low_space else ok tt
]

-- max(archive_created_at.values())
abbrev pub newest : ℕ → List (String × ℕ) → ℕ
newest best [] = best
newest best ((name, t) ∷ rest) = newest (if ltb best t then t else best) rest

-- `now - newest` is not negative where it counts: an archive from the future is not too old.
too_old : Option ℕ → ℕ → Bool
too_old none age = false
too_old (some limit) age = ltb limit age

unfoldable pub check_recent_backup :
    PolicyRule → List (String × ℕ) → ℕ → Result PolicyViolation (Unit {0})
unfolding too_old
check_recent_backup rule [] now = if not rule.require_backup then ok tt else err no_backup
check_recent_backup rule ((name, t) ∷ rest) now =
    if not rule.require_backup
    then ok tt
    else if too_old rule.max_backup_age_seconds (now - newest t rest)
    then err old_backup
    else ok tt
