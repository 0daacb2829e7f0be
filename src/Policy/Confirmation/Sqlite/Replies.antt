-- ===== src/Policy/Confirmation/Sqlite/Replies.antt =====
-- Sequences of calls of the two stores, and what the callers see.
use yunohost_mcp.Prelude.{
  ℕ, String, false, ◌≡◌, ◌≢◌, refl, Option, none, some, List, [], ◌∷◌, arith,
}
use yunohost_mcp.Prelude.Dict
use yunohost_mcp.Prelude.Dict.{get-nil}
use yunohost_mcp.Prelude.Texts
use yunohost_mcp.Prelude.Result.{Result, ok, err}
use yunohost_mcp.Platform.{Platform}
use yunohost_mcp.Policy.Confirmation
use yunohost_mcp.Policy.Confirmation.{ConfirmationStore}
use yunohost_mcp.Policy.Confirmation.Ticket.{ConfirmationError, ConfirmationTicket}
use yunohost_mcp.Policy.Confirmation.Trace.{
  Action, create, approve, peek, consume, finalize, revert, run,
}
use yunohost_mcp.Policy.Confirmation.Sqlite
use yunohost_mcp.Policy.Confirmation.Sqlite.{StoreError, SqliteConfirmationStore}
use yunohost_mcp.Policy.Confirmation.Sqlite.Refines.{
  Refines, lifted, memory_view, table_view, create-views, approve-answer, approve-views,
  peek-answer, peek-views, consume-answer, consume-views, finalize-answer, finalize-views,
  revert-answer, revert-views,
}

-- What a call hands back: a ticket, or nothing.
abbrev pub Reply : Type 0 → Type 0
Reply E = Result E (Option ConfirmationTicket)

abbrev pub with_ticket : {E : Type 0} → Result E ConfirmationTicket → Reply E
with_ticket (ok t) = ok (some t)
with_ticket (err e) = err e

abbrev pub with_nothing : {E : Type 0} → Result E (Unit {0}) → Reply E
with_nothing (ok u) = ok none
with_nothing (err e) = err e

Refines-new :
    {p : Platform} (ttl : ℕ) (o : Option ℕ)
    → o ≢ some 0
    → Refines p (Confirmation.new_store ttl o) (Sqlite.new_store ttl o)
Refines-new ttl none n = record {
  ttl = refl;
  owner_ttl = refl;
  views = λ id. grind (arith, get-nil);
}
Refines-new ttl (some x) n = record {
  ttl = refl;
  owner_ttl = ground arith;
  views = λ id. grind (arith, get-nil);
}

-- `second` gives the second clock reading of a call after the first.
module _ (p : Platform) (second : ℕ → ℕ) where
  unfoldable pub reply : Action → ConfirmationStore → Reply ConfirmationError
  reply (create now id call plan owner) m =
      ok (some (Confirmation.create p now id call plan owner m).0)
  reply (approve now id by signed) m = with_ticket (Confirmation.approve p now id by signed m).0
  reply (peek now id) m = with_ticket (Confirmation.peek now id m).0
  reply (consume now id call owner defer) m =
      with_ticket (Confirmation.consume p now id call owner defer m).0
  reply (finalize id) m = with_nothing (Confirmation.finalize id m).0
  reply (revert id) m = with_nothing (Confirmation.revert id m).0

  unfoldable pub table_reply : Action → SqliteConfirmationStore → Reply StoreError
  table_reply (create now id call plan owner) s =
      with_ticket (Sqlite.create p now id call plan owner s).0
  table_reply (approve now id by signed) s = with_ticket (Sqlite.approve p now id by signed s).0
  table_reply (peek now id) s = with_ticket (Sqlite.peek p now id s).0
  table_reply (consume now id call owner defer) s =
      with_ticket (Sqlite.consume p now (second now) id call owner defer s).0
  table_reply (finalize id) s = with_nothing (Sqlite.finalize id s).0
  table_reply (revert id) s = with_nothing (Sqlite.revert id s).0

  unfoldable pub table_run : Action → SqliteConfirmationStore → SqliteConfirmationStore
  table_run (create now id call plan owner) s = (Sqlite.create p now id call plan owner s).1
  table_run (approve now id by signed) s = (Sqlite.approve p now id by signed s).1
  table_run (peek now id) s = (Sqlite.peek p now id s).1
  table_run (consume now id call owner defer) s =
      (Sqlite.consume p now (second now) id call owner defer s).1
  table_run (finalize id) s = (Sqlite.finalize id s).1
  table_run (revert id) s = (Sqlite.revert id s).1

  unfoldable pub replies : List Action → ConfirmationStore → List (Reply StoreError)
  replies [] m = []
  replies (a ∷ rest) m = lifted (reply a m) ∷ replies rest (run p a m)

  unfoldable pub table_replies : List Action → SqliteConfirmationStore → List (Reply StoreError)
  table_replies [] s = []
  table_replies (a ∷ rest) s = table_reply a s ∷ table_replies rest (table_run a s)

  -- A new ticket has an id that no call has used, and a plan that reads back from its text.
  abbrev pub IsFresh : Action → ConfirmationStore → Type 0
  IsFresh (create now id call plan owner) m =
      (Dict.get m.pending id ≡ none)
      × (Texts.contains m.in_flight id ≡ false)
      × (p.loads (p.encode (p.dumps plan)) ≡ some plan)
  IsFresh _ m = Unit

  abbrev pub AllFresh : List Action → ConfirmationStore → Type 0
  AllFresh [] m = Unit
  AllFresh (a ∷ rest) m = IsFresh a m × AllFresh rest (run p a m)

  reply_step :
      (a : Action) (m : ConfirmationStore) (s : SqliteConfirmationStore)
      → Refines p m s
      → IsFresh a m
      → table_reply a s ≡ lifted (reply a m)
  unfolding reply table_reply
  reply_step (create now id call plan owner) m s h (new, free, plain) =
      rw (create-views p m s h now id call plan owner new free plain).0
  reply_step (approve now id by signed) m s h f =
      ground (arith, approve-answer p m s h now id by signed)
  reply_step (peek now id) m s h f = ground (arith, peek-answer p m s h now id)
  reply_step (consume now id call owner defer) m s h f =
      ground (arith, consume-answer p m s h now (second now) id call owner defer)
  reply_step (finalize id) m s h f = ground (arith, finalize-answer p m s h id)
  reply_step (revert id) m s h f = ground (arith, revert-answer p m s h id)

  views_step :
      (a : Action) (m : ConfirmationStore) (s : SqliteConfirmationStore)
      → Refines p m s
      → IsFresh a m
      → (j : String) → memory_view (run p a m) j ≡ table_view p (table_run a s) j
  unfolding run table_run
  views_step (create now id call plan owner) m s h (new, free, plain) j =
      (create-views p m s h now id call plan owner new free plain).1 j
  views_step (approve now id by signed) m s h f j = approve-views p m s h now id by signed j
  views_step (peek now id) m s h f j = peek-views p m s h now id j
  views_step (consume now id call owner defer) m s h f j =
      consume-views p m s h now (second now) id call owner defer j
  views_step (finalize id) m s h f j = finalize-views p m s h id j
  views_step (revert id) m s h f j = revert-views p m s h id j

  -- No call changes a time to live.
  ttl-run :
      (a : Action) (m : ConfirmationStore)
      → ((run p a m).ttl_seconds ≡ m.ttl_seconds)
        × ((run p a m).owner_approval_ttl_seconds ≡ m.owner_approval_ttl_seconds)
  unfolding run Confirmation.create Confirmation.approve Confirmation.peek Confirmation.consume
      Confirmation.finalize Confirmation.revert
  ttl-run (create now id call plan owner) m = (refl, refl)
  ttl-run _ m = ground arith

  ttl-table_run :
      (a : Action) (s : SqliteConfirmationStore)
      → ((table_run a s).ttl_seconds ≡ s.ttl_seconds)
        × ((table_run a s).owner_approval_ttl_seconds ≡ s.owner_approval_ttl_seconds)
  unfolding table_run Sqlite.create Sqlite.approve Sqlite.peek Sqlite.consume Sqlite.finalize
      Sqlite.revert
  ttl-table_run (create now id call plan owner) s = ground arith
  ttl-table_run _ s = ground arith

  Refines-run :
      (a : Action) (m : ConfirmationStore) (s : SqliteConfirmationStore)
      → Refines p m s
      → IsFresh a m
      → Refines p (run p a m) (table_run a s)
  Refines-run a m s h f =
      let (mt, mo) = ttl-run a m in
      let (st, so) = ttl-table_run a s in
      record {
        ttl = cc (mt, st, h.ttl);
        owner_ttl = cc (mo, so, h.owner_ttl);
        views = views_step a m s h f;
      }

  replies_agree :
      (actions : List Action) (m : ConfirmationStore) (s : SqliteConfirmationStore)
      → Refines p m s
      → AllFresh actions m
      → table_replies actions s ≡ replies actions m
  unfolding replies table_replies
  replies_agree [] m s h fs = refl
  replies_agree (a ∷ rest) m s h (f, fs) = cc (
    reply_step a m s h f,
    replies_agree rest (run p a m) (table_run a s) (Refines-run a m s h f) fs,
  )

  -- The table implements the in-memory store: on two new stores with the same times to live, where
  -- the owner's is left out or not zero, any sequence of calls has the same replies, errors
  -- included, if each new ticket has an unused id and a plan that reads back from its text.
  pub table_replies_eq :
      (ttl : ℕ) (o : Option ℕ)
      → o ≢ some 0
      → (actions : List Action) → AllFresh actions (Confirmation.new_store ttl o)
      → table_replies actions (Sqlite.new_store ttl o)
        ≡ replies actions (Confirmation.new_store ttl o)
  table_replies_eq ttl o nonzero actions fs =
      replies_agree actions (Confirmation.new_store ttl o) (Sqlite.new_store ttl o)
        (Refines-new ttl o nonzero) fs
