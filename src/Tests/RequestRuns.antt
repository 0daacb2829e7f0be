-- ===== src/Tests/RequestRuns.antt =====
-- Requests: authentication, delegation and identity.toml.
use yunohost_mcp.Prelude.{String, ◌≡◌, refl, false, Option, some, [], ◌∷◌, arith}
use yunohost_mcp.Prelude.Dict
use yunohost_mcp.Prelude.Dict.{Dict}
use yunohost_mcp.Prelude.Int.{pos, ◌-ℤ◌}
use yunohost_mcp.Prelude.Result.{ok, err, is_ok}
use yunohost_mcp.Platform.{Platform, NostrEvent}
use yunohost_mcp.Auth.Nostr.{compute_event_id, verify_event, model_validate, tag_in}
use yunohost_mcp.Auth.Replay.{ReplayCache, new_cache, check_and_record, already_used}
use yunohost_mcp.Auth.Replay.Memory.{after, no_replay}
use yunohost_mcp.Auth.Nip98.{
  Nip98Identity, HttpRequest, nip98_kind, parse_header, partition_space, check_event,
  verify_nip98_request,
}
use yunohost_mcp.Auth.Nip98.Accepts.{
  Signs, verify_nip98_request_sound, verify_nip98_request_complete, accepted_once,
}
use yunohost_mcp.Tests.Demo.{demo, alice, digest, event_of}

abbrev request : HttpRequest
request = record { method = "GET"; url = "https://host/mcp"; body = [] }

abbrev signed : NostrEvent
signed = event_of nip98_kind (("u" ∷ "https://host/mcp" ∷ []) ∷ ("method" ∷ "GET" ∷ []) ∷ [])

abbrev p : Platform
p = demo signed

abbrev header : Option String
header = some "nostr abc"

abbrev caller : Nip98Identity
caller = record { pubkey = alice; event_id = digest; created_at = pos 100 }

abbrev recorded : ReplayCache
recorded = record { ttl_seconds = 300; seen = (digest, 307) ∷ [] }

fresh : check_and_record 7 digest (new_cache 300) ≡ (ok tt, recorded)
unfolding check_and_record Dict.get Dict.put
fresh = refl

parsed : parse_header p header ≡ ok signed
unfolding parse_header partition_space model_validate
parsed = refl

accepted :
    verify_nip98_request p (pos 110) 7 60 header request (new_cache 300) ≡ (ok caller, recorded)
unfolding verify_nip98_request parse_header partition_space model_validate check_event verify_event
    compute_event_id tag_in check_and_record Dict.get Dict.put ◌-ℤ◌
accepted = refl

signed-Signs : Signs p (pos 110) 60 request signed
unfolding compute_event_id tag_in ◌-ℤ◌
signed-Signs = record {
  signed = record { own_id = refl; signed = refl };
  kind = refl;
  recent = ground arith;
  url = refl;
  method = ("GET", refl, refl);
  payload = λ h. cc;
}

no_replay_example :
    (check_and_record 200 digest (after ((50, alice) ∷ []) recorded)).0 ≡ err already_used
no_replay_example =
    no_replay 7 digest (new_cache 300) recorded ((50, alice) ∷ []) 200 fresh (ground arith, tt)
      (ground arith)

verify_nip98_request_sound_example :
    (e : NostrEvent) × (parse_header p header ≡ ok e)
    × Signs p (pos 110) 60 request e
    × (check_and_record 7 e.id (new_cache 300) ≡ (ok tt, recorded))
    × (caller ≡ record { pubkey = e.pubkey; event_id = e.id; created_at = e.created_at })
verify_nip98_request_sound_example =
    verify_nip98_request_sound p (pos 110) 60 request 7 header (new_cache 300) recorded caller
      accepted

verify_nip98_request_complete_example :
    verify_nip98_request p (pos 110) 7 60 header request (new_cache 300) ≡ (ok caller, recorded)
verify_nip98_request_complete_example =
    verify_nip98_request_complete p (pos 110) 60 request 7 header (new_cache 300) recorded signed
      parsed signed-Signs fresh

accepted_once_example :
    is_ok
      (verify_nip98_request p (pos 115) 12 60 header request (after ((9, alice) ∷ []) recorded)).0
    ≡ false
accepted_once_example =
    accepted_once p 60 5 (new_cache 300) recorded ((9, alice) ∷ []) (pos 110) (pos 115) 7 12 header
      header request request caller (ground arith) (ground arith) (ground arith, tt) accepted refl
