-- ===== src/Auth/Delegation.antt =====
-- src/yunohost_mcp/auth/delegation.py: a delegation event, its checks, and the identity that it lends.
pub mod Limits
use Prim.Native.String
use yunohost_mcp.Prelude.{
  ℕ, String, Bool, true, false, not, ◌&&◌, Option, none, some, List, [], ◌∷◌, ◌==◌, ◌*◌,
  if◌then◌else◌,
}
use yunohost_mcp.Prelude.Int.{ℤ, pos, ◌+ℤ◌, ◌-ℤ◌, leb_ℤ, ltb_ℤ, eqb_ℤ, min_ℤ}
use yunohost_mcp.Prelude.Result.{Result, ok, err, ◌>>=◌}
use yunohost_mcp.Platform.{Platform, NostrEvent, DateTime, aware, naive}
use yunohost_mcp.Policy.Scopes.{Scope, of_value, intersect}
use yunohost_mcp.Auth.Nostr.{tag, is_text, verify_event}
use yunohost_mcp.Auth.Identity.{IdentityRecord, IdentityStore, DateError, lookup, is_expired}
use yunohost_mcp.Auth.Revocation.{RevocationStore, is_revoked}

-- `DelegationError`, by its messages
pub data DelegationError : Type 0 where
  wrong_kind bad_signature revoked wrong_delegate wrong_server no_expiry bad_expiry :
      DelegationError
  expired from_future too_long no_scopes unknown_scope : DelegationError
  unknown_delegator expired_delegator nothing_left : DelegationError
  -- the ValueError of the identity store, which passes through
  no_records : DelegationError
  -- the TypeError of a delegator's date without a UTC offset, which passes through
  naive_date : DelegationError

abbrev pub delegation_kind : ℤ
delegation_kind = pos 27236

abbrev pub default_max_lifetime_seconds : ℕ
default_max_lifetime_seconds = 30 * 24 * 3600

abbrev pub clock_skew_seconds : ℕ
clock_skew_seconds = 5 * 60

pub record DelegationClaim : Type 0 where
  pub event_id : String
  pub delegator_pubkey : String
  pub delegate_pubkey : String
  pub requested_scopes : List Scope
  pub server_pubkey : String
  pub expires_at : ℤ

-- [t[1] for t in event.tags if len(t) >= 2 and t[0] == "scope"]
unfoldable pub scope_values : List (List String) → List String
scope_values [] = []
scope_values ((k ∷ v ∷ more) ∷ tags) =
    let rest = scope_values tags in if k == "scope" then v ∷ rest else rest
scope_values (_ ∷ tags) = scope_values tags

add_scope : Scope → Option (List Scope) → Option (List Scope)
add_scope s none = none
add_scope s (some ss) = some (s ∷ ss)

-- frozenset(Scope(v) for v in scope_values), `none` for an unknown one
unfoldable pub scopes_of : List String → Option (List Scope)
unfolding add_scope
scopes_of [] = some []
scopes_of (v ∷ vs) =
    let rest = scopes_of vs in elim (of_value v) [ none ↦ none | some s ↦ add_scope s rest ]

module _ (p : Platform) where
  expiry_of : Option String → Result DelegationError ℤ
  expiry_of none = err no_expiry
  expiry_of (some raw) = elim (p.int_of raw) [ none ↦ err bad_expiry | some t ↦ ok t ]

  check_times : ℤ → ℤ → ℤ → Result DelegationError (Unit {0})
  check_times now created_at expires_at =
      if leb_ℤ expires_at now
      then err expired
      else if ltb_ℤ (now +ℤ pos clock_skew_seconds) created_at
      then err from_future
      else if ltb_ℤ (pos default_max_lifetime_seconds) (expires_at -ℤ now)
      then err too_long
      else ok tt

  requested : List String → Result DelegationError (List Scope)
  requested [] = err no_scopes
  requested (v ∷ vs) = elim (scopes_of (v ∷ vs)) [ none ↦ err unknown_scope | some ss ↦ ok ss ]

  check_binding : NostrEvent → String → String → RevocationStore → Result DelegationError (Unit {0})
  check_binding e delegate server revocations =
      if not (eqb_ℤ e.kind delegation_kind) then err wrong_kind else elim (verify_event p e) [
        | err _ ↦ err bad_signature
        | ok _ ↦
            if is_revoked revocations e.id
            then err revoked
            else if not (is_text (tag e "p") delegate)
            then err wrong_delegate
            else if not (is_text (tag e "server") server)
            then err wrong_server
            else ok tt
      ]

  unfoldable pub verify_delegation_event :
      ℤ → NostrEvent → String → String → RevocationStore → Result DelegationError DelegationClaim
  unfolding check_binding check_times requested expiry_of
  verify_delegation_event now e expected_delegate_pubkey server_pubkey_hex revocations = do
    _ ← check_binding e expected_delegate_pubkey server_pubkey_hex revocations
    expires_at ← expiry_of (tag e "expiry")
    _ ← check_times now e.created_at expires_at
    scopes ← requested (scope_values e.tags)
    ok (record {
      event_id = e.id;
      delegator_pubkey = e.pubkey;
      delegate_pubkey = expected_delegate_pubkey;
      requested_scopes = scopes;
      server_pubkey = server_pubkey_hex;
      expires_at = expires_at;
    })

  -- min(expires_at, int(expires.timestamp())), where there is an `expires`. It is not reached with a date
  -- without a UTC offset, on which `is_expired` has raised.
  earliest : ℤ → Option DateTime → Result DelegationError ℤ
  earliest expires_at none = ok expires_at
  earliest expires_at (some (aware expires)) = ok (min_ℤ expires_at expires)
  earliest expires_at (some (naive expires)) = err naive_date

  delegated : DelegationClaim → IdentityRecord → List Scope → Result DelegationError IdentityRecord
  unfolding earliest
  delegated claim delegator [] = err nothing_left
  delegated claim delegator (s ∷ ss) = do
    expires_at ← earliest claim.expires_at delegator.expires
    ok (record {
      pubkey = claim.delegate_pubkey;
      name = String.◌++◌ delegator.name " (delegated)";
      roles = [];
      scopes = s ∷ ss;
      expires = some (aware expires_at);
      armada_key_path = none;
    })

  -- What is left to do, by `delegator_record.is_expired()`.
  if_live :
      DelegationClaim
      → IdentityRecord
      → Result DateError Bool
      → Result DelegationError IdentityRecord
  unfolding delegated
  if_live claim delegator (err e) = err naive_date
  if_live claim delegator (ok true) = err expired_delegator
  if_live claim delegator (ok false) =
      delegated claim delegator (intersect claim.requested_scopes delegator.scopes)

  delegated_by :
      ℤ
      → DelegationClaim
      → Result DateError (Option IdentityRecord)
      → Result DelegationError IdentityRecord
  unfolding if_live
  delegated_by now claim (err e) = err no_records
  delegated_by now claim (ok none) = err unknown_delegator
  delegated_by now claim (ok (some delegator)) = if_live claim delegator (is_expired delegator now)

  unfoldable pub resolve_delegated_identity :
      ℤ → DelegationClaim → IdentityStore → Result DelegationError IdentityRecord
  unfolding delegated_by
  resolve_delegated_identity now claim store =
      delegated_by now claim (lookup p store claim.delegator_pubkey)
