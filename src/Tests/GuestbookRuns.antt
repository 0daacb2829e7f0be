-- ===== src/Tests/GuestbookRuns.antt =====
-- A guestbook that alice has joined.
use yunohost_mcp.Prelude.{String, ◌≡◌, refl, false, none, some, List, [], ◌∷◌, ◌==◌, any}
use yunohost_mcp.Prelude.Dict
use yunohost_mcp.Prelude.Int.{pos, ◌+ℤ◌}
use yunohost_mcp.Prelude.Json.{Fields, field, end, str, int, get_field}
use yunohost_mcp.Platform.{Platform}
use yunohost_mcp.Concord.Guestbook.{
  GuestbookState, Authority, claim_of, candidates, millisecond, newer, offer, offer_all,
  fold_rumors, without_banned, fold_guestbook,
}
use yunohost_mcp.Concord.Guestbook.Candidates.{AllOf, SaidIn}
use yunohost_mcp.Concord.Guestbook.Members.{IsLatest, fold_guestbook_sound}
use yunohost_mcp.Tests.Demo.{demo, alice, digest, event_of}

abbrev p : Platform
p = demo (event_of (pos 1) [])

abbrev authority : Authority
authority = record {
  now_ms = pos 200000;
  future_skew_ms = 3600000;
  authorize_kick = none;
  authorize_snapshot = none;
  banned_members = [];
}

abbrev rumor : String → Fields
rumor content = field "kind" (int (pos 3306)) (
    field "pubkey" (str alice) (
      field "id" (str digest)
        (field "created_at" (int (pos 100)) (field "content" (str content) end))))

abbrev joined : GuestbookState
joined = record { member = alice; status = "join"; timestamp_ms = pos 100000; rumor_id = digest }

-- The member's own Leave of an earlier time, and its Join.
abbrev rumors : List Fields
rumors =
    field "kind" (int (pos 3306)) (
      field "pubkey" (str alice) (
        field "id" (str digest)
          (field "created_at" (int (pos 90)) (field "content" (str "leave") end))))
    ∷ rumor "join"
    ∷ []

joined_run : Dict.get (fold_guestbook p authority rumors) alice ≡ some joined
unfolding fold_guestbook fold_rumors without_banned offer_all offer newer candidates claim_of
    millisecond get_field Dict.get Dict.put ◌+ℤ◌
joined_run = refl

fold_guestbook_sound_example :
    (any (λ b. b == alice) authority.banned_members ≡ false)
    × (alice ≡ alice)
    × SaidIn p authority rumors joined
    × AllOf (λ r. AllOf (IsLatest p authority joined) (candidates p authority r)) rumors
fold_guestbook_sound_example = fold_guestbook_sound p authority rumors alice joined joined_run
