-- ===== src/Tests/PolicyRuns.antt =====
-- Roles, scopes and the policy.
use yunohost_mcp.Prelude.{◌≡◌, refl, true, none, some, [], ◌∷◌}
use yunohost_mcp.Prelude.Dict
use yunohost_mcp.Prelude.Int.{pos}
use yunohost_mcp.Prelude.Json.{Fields, field, end, str, bool, get_field}
use yunohost_mcp.Prelude.Result.{ok, err}
use yunohost_mcp.Platform.{Platform}
use yunohost_mcp.Policy.Roles.{UnknownRole, readonly, scopes_for_roles}
use yunohost_mcp.Policy.Rules.{
  PolicyRule, default_policy, owner_signed, sections, override, load_policy, control_plane_app_id,
  truthy,
}
use yunohost_mcp.Tests.Demo.{demo, event_of}

readonly_scopes : scopes_for_roles ("readonly" ∷ []) ≡ ok readonly
unfolding scopes_for_roles Dict.get
readonly_scopes = refl

abbrev root_role : UnknownRole
root_role = record { role = "root" }

unknown_role : scopes_for_roles ("readonly" ∷ "root" ∷ []) ≡ err root_role
unfolding scopes_for_roles Dict.get
unknown_role = refl

abbrev own : Fields
own = field "app" (str control_plane_app_id) end

abbrev new_admin : Fields
new_admin = field "admin" (bool true) end

owner_rule : Dict.get default_policy "catalog.publish" ≡ some owner_signed
unfolding Dict.get
owner_rule = refl

abbrev strict : PolicyRule
strict = record owner_signed {
  require_backup = true;
  max_backup_age_seconds = some 10;
  minimum_free_space_bytes = some 100;
}

abbrev p : Platform
p = demo (event_of (pos 1) [])

abbrev entry : Fields
entry = field "require_backup" (bool true) end

abbrev changed : Dict.Dict PolicyRule
changed = Dict.put default_policy "catalog.publish" (record owner_signed { require_backup = true })

loaded : load_policy p (sections (("catalog.publish", entry) ∷ [])) ≡ ok changed
unfolding load_policy override get_field Dict.get Dict.put truthy
loaded = refl

silent : get_field entry "require_owner_signature" ≡ none
unfolding get_field
silent = refl

entered : Dict.get (("catalog.publish", entry) ∷ []) "catalog.publish" ≡ some entry
unfolding Dict.get
entered = refl
