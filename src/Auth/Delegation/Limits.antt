-- ===== src/Auth/Delegation/Limits.antt =====
-- What a delegation can lend.
use yunohost_mcp.Prelude.{
  Bool, true, String, ◌≡◌, ◌≢◌, false, Option, none, some, List, [], ◌∷◌, ◌&&◌, arith, subst, refl,
}
use yunohost_mcp.Prelude.Int.{ℤ, pos, ◌+ℤ◌, ◌-ℤ◌, ◌≤ℤ◌, ◌<ℤ◌, min_ℤ, eq_of_eqb_ℤ}
use yunohost_mcp.Prelude.Result.{Result, ok, err, >>=-returns}
use yunohost_mcp.Platform.{Platform, NostrEvent, DateTime, aware, naive}
use yunohost_mcp.Policy.Scopes.{Scope, has, intersect}
use yunohost_mcp.Policy.Scopes.Laws.{has-intersect}
use yunohost_mcp.Auth.Nostr.{
  NostrEventError, tag, verify_event, IsSigned, verify_event_sound, eq_of_is_text,
}
use yunohost_mcp.Auth.Identity.{IdentityRecord, IdentityStore, DateError, lookup, is_expired}
use yunohost_mcp.Auth.Revocation.{RevocationStore, is_revoked}
use yunohost_mcp.Auth.Delegation.{
  DelegationClaim, delegation_kind, default_max_lifetime_seconds, clock_skew_seconds, scope_values,
  scopes_of, expiry_of, check_times, requested, check_binding, verify_delegation_event, delegated,
  earliest, if_live, delegated_by, resolve_delegated_identity,
}

-- The event is signed, not revoked, and lends to this delegate on this server.
pub record IsBinding (p : Platform) (e : NostrEvent) (agent host : String)
    (revocations : RevocationStore) : Type 0 where
  pub kind : e.kind ≡ delegation_kind
  pub signed : IsSigned p e
  pub standing : is_revoked revocations e.id ≡ false
  pub delegate : tag e "p" ≡ some agent
  pub server : tag e "server" ≡ some host

-- It has not expired, is not from the future, and has at most the longest lifetime left.
pub record IsTimely (now created_at expires_at : ℤ) : Type 0 where
  pub live : now <ℤ expires_at
  pub made : created_at ≤ℤ now +ℤ pos clock_skew_seconds
  pub bounded : expires_at -ℤ now ≤ℤ pos default_max_lifetime_seconds

check_times_sound :
    (p : Platform) (now created_at expires_at : ℤ) (u : Unit {0})
    → check_times p now created_at expires_at ≡ ok u
    → IsTimely now created_at expires_at
unfolding check_times
check_times_sound p now created_at expires_at u h = ground arith

module _ (p : Platform) (e : NostrEvent) (delegate server : String)
    (revocations : RevocationStore) where
  check_binding_sound :
      (v : Result NostrEventError (Unit {0})) (u : Unit {0})
      → verify_event p e ≡ v
      → check_binding p e delegate server revocations ≡ ok u
      → IsBinding p e delegate server revocations
  unfolding check_binding
  check_binding_sound (err x) u s h = absurd (ground arith)
  check_binding_sound (ok w) u s h = ground (
    arith,
    verify_event_sound p e w s,
    eq_of_eqb_ℤ e.kind delegation_kind,
    eq_of_is_text (tag e "p") delegate,
    eq_of_is_text (tag e "server") server,
  )

  expiry_of_sound :
      (o : Option String) (t : ℤ)
      → expiry_of p o ≡ ok t
      → (raw : String) × (o ≡ some raw) × (p.int_of raw ≡ some t)
  unfolding expiry_of
  expiry_of_sound none t h = cc
  expiry_of_sound (some raw) t h = (raw, refl, ground arith)

  requested_sound :
      (vs : List String) (ss : List Scope)
      → requested p vs ≡ ok ss
      → (vs ≢ []) × (scopes_of vs ≡ some ss)
  unfolding requested
  requested_sound [] ss h = cc
  requested_sound (v ∷ vs) ss h = (λ x. cc, ground arith)

  -- A claim is made only of an event that its delegator signed and that is not revoked, that names
  -- the requesting key and this server, whose expiry is ahead and at most the longest lifetime away,
  -- that is not from the future, and that asks for known scopes, one at least.
  pub verify_delegation_event_sound :
      (now : ℤ) (c : DelegationClaim)
      → verify_delegation_event p now e delegate server revocations ≡ ok c
      → IsBinding p e delegate server revocations
        × IsTimely now e.created_at c.expires_at
        × ((raw : String) × (tag e "expiry" ≡ some raw) × (p.int_of raw ≡ some c.expires_at))
        × (scope_values e.tags ≢ [])
        × (scopes_of (scope_values e.tags) ≡ some c.requested_scopes)
        × (c.delegator_pubkey ≡ e.pubkey)
        × (c.delegate_pubkey ≡ delegate)
  unfolding verify_delegation_event
  verify_delegation_event_sound now c h =
      let (u, bound, h1) = >>=-returns (check_binding p e delegate server revocations) _ h in
      let (t, expires, h2) = >>=-returns (expiry_of p (tag e "expiry")) _ h1 in
      let (w, timely, h3) = >>=-returns (check_times p now e.created_at t) _ h2 in
      let (ss, asked, h4) = >>=-returns (requested p (scope_values e.tags)) _ h3 in
      let b = check_binding_sound (verify_event p e) u refl bound in
      let timed = check_times_sound p now e.created_at t w timely in
      let (raw, found, read) = expiry_of_sound (tag e "expiry") t expires in
      let (some_asked, known) = requested_sound (scope_values e.tags) ss asked in
      let same_time : t ≡ c.expires_at = ground (arith, h4) in
      let same_scopes : ss ≡ c.requested_scopes = ground (arith, h4) in
      (
        b,
        subst (λ x. IsTimely now e.created_at x) same_time timed,
        (raw, found, ground (arith, read, same_time)),
        some_asked,
        ground (arith, known, same_scopes),
        ground (arith, h4),
        ground (arith, h4),
      )

-- What an identity made from a claim has: the delegate's key, no roles, one scope at least, only scopes that the claim
-- asks for and that the delegator has, and an expiry that is neither after the claim's nor after the
-- delegator's.
pub record IsLent (c : DelegationClaim) (delegator r : IdentityRecord) : Type 0 where
  pub own_key : r.pubkey ≡ c.delegate_pubkey
  pub no_roles : r.roles ≡ []
  pub not_empty : r.scopes ≢ []
  pub within : (s : Scope) → has r.scopes s ≡ (has c.requested_scopes s && has delegator.scopes s)
  pub ends :
      (t : ℤ) × (r.expires ≡ some (aware t))
      × (t ≤ℤ c.expires_at)
      × ((d : ℤ) → delegator.expires ≡ some (aware d) → t ≤ℤ d)

min_le : (a b : ℤ) → (min_ℤ a b ≤ℤ a) × (min_ℤ a b ≤ℤ b)
min_le a b = ground arith

module _ (p : Platform) (now : ℤ) (c : DelegationClaim) where
  earliest_sound :
      (expires_at t : ℤ) (expires : Option DateTime)
      → earliest p expires_at expires ≡ ok t
      → (t ≤ℤ expires_at) × ((d : ℤ) → expires ≡ some (aware d) → t ≤ℤ d)
  unfolding earliest
  earliest_sound expires_at t none h =
      let same : expires_at ≡ t = ground (arith, h) in
      (subst (λ x. x ≤ℤ expires_at) same (ground arith), λ d x. absurd cc)
  earliest_sound expires_at t (some (naive u)) h = absurd cc
  earliest_sound expires_at t (some (aware u)) h =
      let same : min_ℤ expires_at u ≡ t = ground (arith, h) in
      (
        subst (λ x. x ≤ℤ expires_at) same (min_le expires_at u).0,
        λ d x.
            let is : u ≡ d = ground (arith, x) in
            subst (λ y. t ≤ℤ y) is (subst (λ y. y ≤ℤ u) same (min_le expires_at u).1),
      )

  delegated_sound :
      (delegator r : IdentityRecord) (lent : List Scope)
      → intersect c.requested_scopes delegator.scopes ≡ lent
      → delegated p c delegator lent ≡ ok r
      → IsLent c delegator r
  unfolding delegated
  delegated_sound delegator r [] e h = absurd (ground arith)
  delegated_sound delegator r (s ∷ ss) e h =
      let (t, until, made) = >>=-returns (earliest p c.expires_at delegator.expires) _ h in
      let (before, within_own) = earliest_sound c.expires_at t delegator.expires until in
      record {
        own_key = ground (arith, made);
        no_roles = ground (arith, made);
        not_empty = ground (arith, made);
        within = λ x. ground (arith, made, e, has-intersect c.requested_scopes delegator.scopes x);
        ends = (t, ground (arith, made), before, within_own);
      }

  if_live_sound :
      (delegator r : IdentityRecord) (expired : Result DateError Bool)
      → if_live p c delegator expired ≡ ok r
      → (expired ≡ ok false) × IsLent c delegator r
  unfolding if_live
  if_live_sound delegator r (err e) h = absurd cc
  if_live_sound delegator r (ok true) h = absurd cc
  if_live_sound delegator r (ok false) h =
      (refl, delegated_sound delegator r (intersect c.requested_scopes delegator.scopes) refl h)

  delegated_by_sound :
      (found : Result DateError (Option IdentityRecord)) (r : IdentityRecord)
      → delegated_by p now c found ≡ ok r
      → (delegator : IdentityRecord) × (found ≡ ok (some delegator))
        × (is_expired delegator now ≡ ok false)
        × IsLent c delegator r
  unfolding delegated_by
  delegated_by_sound (err e) r h = absurd (ground arith)
  delegated_by_sound (ok none) r h = absurd (ground arith)
  delegated_by_sound (ok (some delegator)) r h =
      let (live, lent) = if_live_sound delegator r (is_expired delegator now) h in
      (delegator, refl, live, lent)

  -- A delegated identity comes from a delegator that the store has and that has not expired, and it
  -- lends what that delegator has now.
  pub resolve_delegated_identity_sound :
      (store : IdentityStore) (r : IdentityRecord)
      → resolve_delegated_identity p now c store ≡ ok r
      → (delegator : IdentityRecord) × (lookup p store c.delegator_pubkey ≡ ok (some delegator))
        × (is_expired delegator now ≡ ok false)
        × IsLent c delegator r
  unfolding resolve_delegated_identity
  resolve_delegated_identity_sound store r h =
      delegated_by_sound (lookup p store c.delegator_pubkey) r h
