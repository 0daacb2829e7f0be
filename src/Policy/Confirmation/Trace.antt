-- ===== src/Policy/Confirmation/Trace.antt =====
-- Sequences of calls of the in-memory store, in the order in which they take effect: the store's
-- methods do not wait, so calls of several threads are some such sequence.
use yunohost_mcp.Prelude.{ℕ, String, Bool, true, false, ◌&&◌, List, [], ◌∷◌, ◌==◌, ◌+◌}
use yunohost_mcp.Prelude.Json.{Json}
use yunohost_mcp.Prelude.Result.{is_ok}
use yunohost_mcp.Platform.{Platform}
use yunohost_mcp.Policy.Confirmation
use yunohost_mcp.Policy.Confirmation.{ConfirmationStore, Call}
use yunohost_mcp.Policy.Confirmation.Ticket.{SignedApproval}

pub data Action : Type 0 where
  create : ℕ → String → Call → Json → Bool → Action
  approve : ℕ → String → String → SignedApproval → Action
  peek : ℕ → String → Action
  -- the flags: require_owner_approval, defer
  consume : ℕ → String → Call → Bool → Bool → Action
  finalize : String → Action
  revert : String → Action

abbrev pub one_if : Bool → ℕ
one_if true = 1
one_if false = 0

abbrev pub creates : String → Action → Bool
creates id (create now j call plan owner) = j == id
creates id _ = false

module _ (p : Platform) where
  unfoldable pub run : Action → ConfirmationStore → ConfirmationStore
  run (create now id call plan owner) s = (Confirmation.create p now id call plan owner s).1
  run (approve now id owner_pubkey signed) s =
      (Confirmation.approve p now id owner_pubkey signed s).1
  run (peek now id) s = (Confirmation.peek now id s).1
  run (consume now id call owner defer) s = (Confirmation.consume p now id call owner defer s).1
  run (finalize id) s = (Confirmation.finalize id s).1
  run (revert id) s = (Confirmation.revert id s).1

  -- The action uses the ticket up: an immediate consume or a finalize that succeeds.
  unfoldable pub spends : String → Action → ConfirmationStore → Bool
  spends id (consume now j call owner false) s =
      j == id && is_ok (Confirmation.consume p now j call owner false s).0
  spends id (finalize j) s = j == id && is_ok (Confirmation.finalize j s).0
  spends id _ s = false

  -- The action is a deferred consume that succeeds: the privileged operation may now run.
  unfoldable pub claims : String → Action → ConfirmationStore → Bool
  claims id (consume now j call owner true) s =
      j == id && is_ok (Confirmation.consume p now j call owner true s).0
  claims id _ s = false

  -- The action gives a claimed ticket back after a failed operation.
  unfoldable pub releases : String → Action → ConfirmationStore → Bool
  releases id (revert j) s = j == id && is_ok (Confirmation.revert j s).0
  releases id _ s = false

  -- How often each of these happens along a sequence of calls.
  unfoldable pub spent_along : String → List Action → ConfirmationStore → ℕ
  spent_along id [] s = 0
  spent_along id (a ∷ rest) s = one_if (spends id a s) + spent_along id rest (run a s)

  unfoldable pub claimed_along : String → List Action → ConfirmationStore → ℕ
  claimed_along id [] s = 0
  claimed_along id (a ∷ rest) s = one_if (claims id a s) + claimed_along id rest (run a s)

  unfoldable pub released_along : String → List Action → ConfirmationStore → ℕ
  released_along id [] s = 0
  released_along id (a ∷ rest) s = one_if (releases id a s) + released_along id rest (run a s)

unfoldable pub created_along : String → List Action → ℕ
created_along id [] = 0
created_along id (a ∷ rest) = one_if (creates id a) + created_along id rest
