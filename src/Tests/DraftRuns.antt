-- ===== src/Tests/DraftRuns.antt =====
-- A draft of alice, and the groups of her user.
use yunohost_mcp.Prelude.{String, ◌≡◌, refl, true, false, none, some, List, [], ◌∷◌, arith}
use yunohost_mcp.Prelude.Dict
use yunohost_mcp.Prelude.Int.{pos}
use yunohost_mcp.Prelude.Json.{end}
use yunohost_mcp.Prelude.Result.{ok, err}
use yunohost_mcp.Platform.{Platform}
use yunohost_mcp.Policy.Scopes.{has, owner_approve}
use yunohost_mcp.Policy.Roles.{administrator, scopes_for_roles}
use yunohost_mcp.Auth.Identity.{IdentityRecord, resolve_key_to_hex}
use yunohost_mcp.Auth.Groups.{
  Accounts, default_group_roles, is_in, groups_with, groups_for_user, roles_of_groups, lookup_group,
}
use yunohost_mcp.Auth.Groups.Granted.{lookup_group-owner_approve}
use yunohost_mcp.Concord.PendingSignature.{
  PendingSignature, PendingSignatureStore, Draft, Attempt, delete, checked, consume, unknown,
  waiting, answered, run,
}
use yunohost_mcp.Concord.PendingSignature.Race.{
  Fits, Call, creates, consumes, after, consume_once, run_twice,
}
use yunohost_mcp.Tests.Demo.{demo, alice, event_of}

abbrev draft : PendingSignature
draft = record {
  draft_id = "armada-draft-1";
  pubkey = alice;
  purpose = "armada_join";
  rumor = end;
  seal_template = end;
  stream_key = end;
  context = end;
  created_at = 0;
  expires_at = 300;
}

abbrev drafts : PendingSignatureStore
drafts = record { ttl_seconds = 300; rows = ("armada-draft-1", draft) ∷ [] }

abbrev attempt : Attempt
attempt = record { now = 10; pubkey = alice; purpose = "armada_join" }

stored : Dict.get drafts.rows "armada-draft-1" ≡ some draft
unfolding Dict.get
stored = refl

fits : Fits attempt draft
fits = record { live = ground arith; identity = refl; operation = refl }

handed_out : consume "armada-draft-1" attempt drafts ≡ (ok draft, delete "armada-draft-1" drafts)
unfolding consume checked Dict.get
handed_out = refl

abbrev other_draft : Draft
other_draft = record {
  pubkey = alice;
  purpose = "armada_leave";
  rumor = end;
  seal_template = end;
  stream_key = end;
  context = none;
}

abbrev later_calls : List Call
later_calls =
    creates 2 "armada-draft-2" other_draft
    ∷ consumes "armada-draft-1" attempt
    ∷ consumes "armada-draft-2" attempt
    ∷ []

consume_once_example :
    (Dict.get drafts.rows "armada-draft-1" ≡ some draft)
    × Fits attempt draft
    × (consume "armada-draft-1" attempt (after later_calls (delete "armada-draft-1" drafts))
        ≡ (err unknown, after later_calls (delete "armada-draft-1" drafts)))
consume_once_example =
    consume_once "armada-draft-1" attempt attempt drafts (delete "armada-draft-1" drafts) draft
      later_calls handed_out refl

run_twice_example :
    (s' : PendingSignatureStore) × (run "armada-draft-1" attempt attempt
        (true ∷ false ∷ false ∷ true ∷ [])
        waiting
        waiting
        drafts
      ≡ (answered (ok draft), answered (ok draft), s'))
run_twice_example =
    run_twice "armada-draft-1" attempt attempt drafts draft true false stored fits fits

abbrev p : Platform
p = demo (event_of (pos 1) [])

abbrev accounts : Accounts
accounts = record {
  has_user = λ username. true;
  own_group = λ username. some "alice";
  all_groups = record { name = "yunohost-mcp-administrator"; members = "alice" ∷ [] } ∷ [];
}

abbrev alice_record : IdentityRecord
alice_record = record {
  pubkey = alice;
  name = "alice";
  roles = "administrator" ∷ [];
  scopes = administrator;
  expires = none;
  armada_key_path = none;
}

alice_found :
    lookup_group p accounts
      (record { username_lookup = λ key. some "alice"; group_roles = default_group_roles })
      alice
    ≡ ok (some alice_record)
unfolding lookup_group resolve_key_to_hex groups_for_user groups_with roles_of_groups
    scopes_for_roles Dict.get
alice_found = refl

lookup_group-owner_approve_example :
    (pubkey username : String) × (resolve_key_to_hex p alice ≡ ok pubkey)
    × (some "alice" ≡ some username)
    × (alice ≡ pubkey)
    × (has alice_record.scopes owner_approve
        ≡ is_in "yunohost-mcp-administrator" (groups_for_user accounts username))
lookup_group-owner_approve_example =
    lookup_group-owner_approve p accounts (λ key. some "alice") alice alice_record alice_found
