-- ===== src/Tests/ConfirmationRuns.antt =====
-- The confirmation stores on a ticket of alice.
use yunohost_mcp.Prelude.{
  ◌<◌, arith, ◌≤◌, ◌+◌, ◌≡◌, refl, ◌↔◌, true, false, none, some, List, [], ◌∷◌, if◌then◌else◌,
}
use yunohost_mcp.Prelude.Dict
use yunohost_mcp.Prelude.Texts
use yunohost_mcp.Prelude.Json.{Fields, field, end, str, obj}
use yunohost_mcp.Prelude.Result.{ok}
use yunohost_mcp.Platform.{Platform, NostrEvent}
use yunohost_mcp.Auth.Nostr.{compute_event_id, verify_event, tag_in}
use yunohost_mcp.Policy.Confirmation
use yunohost_mcp.Policy.Confirmation.{ConfirmationStore, Call, new_store, drop, mark}
use yunohost_mcp.Policy.Confirmation.Ticket.{
  ConfirmationTicket, hash_arguments, operation_hash, new_ticket, owner_approval, event, other_tool,
  owner_approval_kind, parse_owner_approval,
}
use yunohost_mcp.Policy.Confirmation.Ticket.Evidence.{
  Approves, owner_approval_sound, owner_approval_complete,
}
use yunohost_mcp.Policy.Confirmation.Binding.{
  Authorises, spent, keeps_ticket, consume_iff, consume_failed, consume-mark, consume-revert,
}
use yunohost_mcp.Policy.Confirmation.Trace.{
  Action, create, approve, consume, finalize, revert, spent_along, created_along, one_if,
  claimed_along, released_along, run,
}
use yunohost_mcp.Policy.Confirmation.Spending.{
  is_pending, is_free, spent_along-le, claimed_along-le,
}
use yunohost_mcp.Policy.Confirmation.Approval.{run_all, consume-needs-owner}
use yunohost_mcp.Policy.Confirmation.Sqlite
use yunohost_mcp.Policy.Confirmation.Sqlite.Replies.{
  AllFresh, replies, table_replies, table_replies_eq,
}
use yunohost_mcp.Tests.Demo.{demo, alice, digest, event_of}

-- The owner's approval of ticket "t1".
abbrev approval : NostrEvent
approval =
    event_of owner_approval_kind
      (("confirmation_id" ∷ "t1" ∷ []) ∷ ("operation_hash" ∷ digest ∷ []) ∷ [])

abbrev p : Platform
p = demo approval

abbrev call : Call
call = record { pubkey = alice; tool = "apps.remove"; arguments = field "app" (str "blog") end }

abbrev issue : Action
issue = create 0 "t1" call (obj end) true

abbrev ticket : ConfirmationTicket
ticket = new_ticket p "t1" alice "apps.remove" call.arguments (obj end) 0 300

abbrev issued : ConfirmationStore
issued = record {
  ttl_seconds = 60;
  owner_approval_ttl_seconds = 300;
  pending = ("t1", ticket) ∷ [];
  in_flight = [];
}

consume_iff_example :
    (Confirmation.consume p 5 "t1" call false true issued ≡ (ok ticket, mark "t1" issued)) ↔ (
      (Dict.get issued.pending "t1" ≡ some ticket)
      × Authorises p 5 call false ticket
      × (true ≡ true → Texts.contains issued.in_flight "t1" ≡ false)
      × (mark "t1" issued ≡ spent true "t1" issued))
consume_iff_example = consume_iff p 5 "t1" call false true issued ticket (mark "t1" issued)

-- A call of another tool removes the ticket.
consume_failed_example :
    drop "t1" issued ≡ (if keeps_ticket other_tool then issued else drop "t1" issued)
unfolding Confirmation.consume hash_arguments new_ticket Dict.get Dict.remove
consume_failed_example =
    consume_failed p 5 "t1" (record call { tool = "apps.upgrade" }) false true issued other_tool
      (drop "t1" issued) refl

consume-mark_example :
    (Confirmation.consume p 5 "t1" call false false (mark "t1" issued)).0
    ≡ (Confirmation.consume p 5 "t1" call false false issued).0
consume-mark_example = consume-mark p 5 "t1" call false false issued "t1"

-- Issued, taken, given back, taken again and used up.
abbrev calls : List Action
calls =
    issue
    ∷ consume 1 "t1" call false true
    ∷ revert "t1"
    ∷ consume 2 "t1" call false true
    ∷ finalize "t1"
    ∷ []

spent_along-le_example :
    spent_along p "t1" calls (new_store 60 none)
    ≤ created_along "t1" calls + one_if (is_pending "t1" (new_store 60 none))
spent_along-le_example = spent_along-le p "t1" calls (new_store 60 none)

claimed_along-le_example :
    claimed_along p "t1" calls (new_store 60 none)
    ≤ created_along "t1" calls
      + released_along p "t1" calls (new_store 60 none)
      + one_if (is_free "t1" (new_store 60 none))
claimed_along-le_example = claimed_along-le p "t1" calls (new_store 60 none)

approval-Approves : Approves p alice "t1" digest approval
unfolding compute_event_id tag_in
approval-Approves = record {
  signed = record { own_id = refl; signed = refl };
  author = refl;
  kind = refl;
  names_ticket = refl;
  names_operation = refl;
}

owner_approval_sound_example :
    (alice ≡ alice)
    × ((e : NostrEvent) × (parse_owner_approval p (event approval) ≡ ok e)
        × Approves p alice "t1" digest e)
owner_approval_sound_example =
    owner_approval_sound p alice "t1" digest (event approval) alice
      (owner_approval_complete p alice "t1" digest approval approval-Approves)

abbrev approved : ConfirmationTicket
approved = record ticket { owner_approved_by = some alice }

abbrev steps : List Action
steps = issue ∷ approve 3 "t1" alice (event approval) ∷ []

approved_consume :
    Confirmation.consume p 5 "t1" call true false (run_all p alice steps (new_store 60 (some 300)))
    ≡ (ok approved, record issued { pending = [] })
unfolding run_all run Confirmation.create Confirmation.approve Confirmation.consume owner_approval
    verify_event compute_event_id tag_in Dict.get Dict.put Dict.remove Texts.contains hash_arguments
    operation_hash new_ticket
approved_consume = refl

consume-needs-owner_example :
    (e : NostrEvent) × (arguments : Fields) × Approves p alice "t1"
      (operation_hash p "t1" alice "apps.remove" arguments)
      e
    × (hash_arguments p arguments ≡ hash_arguments p call.arguments)
consume-needs-owner_example =
    consume-needs-owner p alice 60 (some 300) steps (tt, (refl, tt)) 5 "t1" call false approved
      (record issued { pending = [] }) approved_consume

fresh_calls : AllFresh p (λ n. n) calls (new_store 60 (some 300))
unfolding Dict.get Texts.contains
fresh_calls = ((refl, refl, refl), (tt, (tt, (tt, (tt, tt)))))

table_replies_eq_example :
    table_replies p (λ n. n) calls (Sqlite.new_store 60 (some 300))
    ≡ replies p (λ n. n) calls (new_store 60 (some 300))
table_replies_eq_example = table_replies_eq p (λ n. n) 60 (some 300) (λ h. cc) calls fresh_calls

taken : Confirmation.consume p 5 "t1" call false true issued ≡ (ok ticket, mark "t1" issued)
unfolding Confirmation.consume hash_arguments new_ticket Dict.get Texts.contains
taken = refl

still_live : 10 < ticket.expires_at
unfolding new_ticket
still_live = ground arith

consume-revert_example :
    (Confirmation.consume p 10 "t1" call false true
      (Confirmation.revert "t1" (mark "t1" issued)).1).0
    ≡ ok ticket
consume-revert_example =
    consume-revert p 5 10 "t1" call false issued (mark "t1" issued) ticket taken still_live
