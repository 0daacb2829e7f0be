-- ===== src/Tests/IdentityRuns.antt =====
-- Identities: records of identity.toml, and a delegation by alice to dave.
use yunohost_mcp.Prelude.{String, ◌≡◌, ◌≢◌, refl, ◌⊎◌, false, none, some, [], ◌∷◌, arith, eq_iff}
use yunohost_mcp.Prelude.Dict
use yunohost_mcp.Prelude.Texts
use yunohost_mcp.Prelude.Int.{pos, ◌-ℤ◌, ◌+ℤ◌}
use yunohost_mcp.Prelude.Result.{ok, err}
use yunohost_mcp.Platform.{Platform, NostrEvent, aware}
use yunohost_mcp.Policy.Scopes.{has, apps_read, apps_upgrade, scope_value, of_value, intersect}
use yunohost_mcp.Policy.Roles.{scopes_for_roles, readonly}
use yunohost_mcp.Auth.Nostr.{compute_event_id, verify_event, model_validate, tag, tag_in}
use yunohost_mcp.Auth.Identity.{
  IdentityRecord, live, IdentityFile, tables, invalid, Entry, bad_date, invalid_toml, config,
  resolve_key_to_hex, record_of, load_records, current_records, lookup, is_expired,
}
use yunohost_mcp.Auth.Identity.Records.{lookup_bad_date}
use yunohost_mcp.Auth.Revocation
use yunohost_mcp.Auth.Revocation.{RevocationStore, is_revoked}
use yunohost_mcp.Auth.Delegation.{
  DelegationClaim, delegation_kind, scope_values, scopes_of, verify_delegation_event,
  resolve_delegated_identity,
}
use yunohost_mcp.Auth.Delegation.Limits.{
  IsBinding, IsTimely, IsLent, verify_delegation_event_sound, resolve_delegated_identity_sound,
}
use yunohost_mcp.Auth.Middleware.{resolve_identity, delegation_event}
use yunohost_mcp.Auth.Middleware.Access.{Lends, resolve_identity_sound}
use yunohost_mcp.Tests.Demo.{demo, alice, digest, server, event_of}

abbrev lending : NostrEvent
lending = event_of delegation_kind (
    ("p" ∷ "dave" ∷ [])
    ∷ ("server" ∷ server ∷ [])
    ∷ ("expiry" ∷ "2000" ∷ [])
    ∷ ("scope" ∷ "apps.read" ∷ [])
    ∷ ("scope" ∷ "apps.upgrade" ∷ [])
    ∷ [])

abbrev p : Platform
p = demo lending

abbrev reader : Entry
reader = record {
  roles = "readonly" ∷ [];
  name = some "alice";
  expires = none;
  armada_key_path = none;
}

abbrev file : IdentityFile
file = tables ((alice, reader) ∷ [])

abbrev record_of_alice : IdentityRecord
record_of_alice = record {
  pubkey = alice;
  name = "alice";
  roles = "readonly" ∷ [];
  scopes = readonly;
  expires = none;
  armada_key_path = none;
}

found : lookup p (live file) alice ≡ ok (some record_of_alice)
unfolding lookup current_records load_records record_of resolve_key_to_hex scopes_for_roles Dict.get
    Dict.put
found = refl

invalid_fails : load_records p invalid ≡ err (config invalid_toml)
unfolding load_records
invalid_fails = refl

readonly_scopes : scopes_for_roles ("readonly" ∷ []) ≡ ok readonly
unfolding scopes_for_roles Dict.get
readonly_scopes = refl

own_key : resolve_key_to_hex p alice ≡ ok alice
unfolding resolve_key_to_hex
own_key = refl

-- One typing error in the date of alice's record shuts every one out.
lookup_bad_date_example :
    lookup p (live (tables ((alice, record reader { expires = some "20x6-01-01" }) ∷ []))) server
    ≡ err bad_date
lookup_bad_date_example =
    lookup_bad_date p alice (record reader { expires = some "20x6-01-01" }) [] alice "20x6-01-01"
      server readonly own_key readonly_scopes refl (λ h. ground (arith, (eq_iff _ _).1 h)) refl

abbrev claim : DelegationClaim
claim = record {
  event_id = digest;
  delegator_pubkey = alice;
  delegate_pubkey = "dave";
  requested_scopes = apps_read ∷ apps_upgrade ∷ [];
  server_pubkey = server;
  expires_at = pos 2000;
}

abbrev none_revoked : RevocationStore
none_revoked = Revocation.fixed []

claimed : verify_delegation_event p (pos 110) lending "dave" server none_revoked ≡ ok claim
unfolding verify_delegation_event verify_event compute_event_id tag_in is_revoked Texts.contains
    scope_values scopes_of of_value ◌-ℤ◌ scope_value ◌+ℤ◌
claimed = refl

verify_delegation_event_sound_example :
    IsBinding p lending "dave" server none_revoked
    × IsTimely (pos 110) (pos 100) (pos 2000)
    × ((raw : String) × (tag lending "expiry" ≡ some raw) × (p.int_of raw ≡ some (pos 2000)))
    × (scope_values lending.tags ≢ [])
    × (scopes_of (scope_values lending.tags) ≡ some claim.requested_scopes)
    × (alice ≡ alice)
    × (claim.delegate_pubkey ≡ "dave")
verify_delegation_event_sound_example =
    verify_delegation_event_sound p lending "dave" server none_revoked (pos 110) claim claimed

abbrev lent : IdentityRecord
lent = record {
  pubkey = "dave";
  name = "alice (delegated)";
  roles = [];
  scopes = apps_read ∷ [];
  expires = some (aware (pos 2000));
  armada_key_path = none;
}

resolved : resolve_delegated_identity p (pos 110) claim (live file) ≡ ok lent
unfolding resolve_delegated_identity lookup current_records load_records record_of
    resolve_key_to_hex scopes_for_roles Dict.get Dict.put is_expired intersect has scope_value
resolved = refl

resolve_delegated_identity_sound_example :
    (delegator : IdentityRecord) × (lookup p (live file) alice ≡ ok (some delegator))
    × (is_expired delegator (pos 110) ≡ ok false)
    × IsLent claim delegator lent
resolve_delegated_identity_sound_example =
    resolve_delegated_identity_sound p (pos 110) claim (live file) lent resolved

dave_resolved :
    resolve_identity p (pos 110) (live file) (some server) none_revoked "dave" (some "abc")
    ≡ ok (some lent)
unfolding resolve_identity delegation_event model_validate verify_delegation_event verify_event
    compute_event_id tag_in is_revoked Texts.contains scope_values scopes_of of_value ◌-ℤ◌
    scope_value ◌+ℤ◌ resolve_delegated_identity lookup current_records load_records record_of
    resolve_key_to_hex scopes_for_roles Dict.get Dict.put is_expired intersect has
dave_resolved = refl

resolve_identity_sound_example :
    ((lookup p (live file) "dave" ≡ ok (some lent)) × (is_expired lent (pos 110) ≡ ok false))
    ⊎ Lends p (pos 110) (live file) none_revoked "dave" (some server) (some "abc") lent
resolve_identity_sound_example =
    resolve_identity_sound p (pos 110) (live file) none_revoked "dave" (some server) (some "abc")
      lent dave_resolved

unexpired : is_expired record_of_alice (pos 110) ≡ ok false
unfolding is_expired
unexpired = refl
