-- ===== src/Auth/Middleware/Access.antt =====
-- Where the identity of a request comes from.
use yunohost_mcp.Prelude.{
  String, ◌≡◌, refl, ap, Bool, true, false, Option, none, some, arith, ◌⊎◌, inl, inr, Bool-cases,
  subst,
}
use yunohost_mcp.Prelude.Int.{ℤ}
use yunohost_mcp.Prelude.Result.{Result, ok, err, ◌>>=◌, >>=-returns}
use yunohost_mcp.Platform.{Platform, NostrEvent}
use yunohost_mcp.Auth.Identity.{DateError, IdentityRecord, IdentityStore, lookup, is_expired}
use yunohost_mcp.Auth.Revocation.{RevocationStore}
use yunohost_mcp.Auth.Delegation.{
  DelegationError, DelegationClaim, verify_delegation_event, resolve_delegated_identity,
}
use yunohost_mcp.Auth.Middleware.{
  is_type_error, nonempty, delegation_event, identity_or_none, by_delegation, direct_or,
  resolve_identity,
}

module _ (p : Platform) (now : ℤ) (store : IdentityStore) (revocations : RevocationStore)
    (pubkey : String) where
  -- The identity r is lent by an event in the header, which this server accepts.
  pub record Lends (server : Option String) (header : Option String) (r : IdentityRecord)
      : Type 0 where
    pub server_pubkey : String
    pub for_server : server ≡ some server_pubkey
    pub text : String
    pub given : header ≡ some text
    pub event : NostrEvent
    pub decoded : delegation_event p text ≡ some event
    pub claim : DelegationClaim
    pub accepted : verify_delegation_event p now event pubkey server_pubkey revocations ≡ ok claim
    pub resolved : resolve_delegated_identity p now claim store ≡ ok r

  or_none_sound :
      (v : Result DelegationError IdentityRecord) (r : IdentityRecord)
      → identity_or_none p v ≡ ok (some r)
      → v ≡ ok r
  unfolding identity_or_none
  or_none_sound (err e) r h = elim (Bool-cases (is_type_error p e)) [
    | inl raised ↦ absurd (ground (arith, raised, h))
    | inr caught ↦ absurd (ground (arith, caught, h))
  ]
  or_none_sound (ok x) r h = ground arith

  event-Lends :
      (any : Option String) (host text : String) (o : Option NostrEvent) (r : IdentityRecord)
      → delegation_event p text ≡ o
      → by_delegation p now store any revocations pubkey (some host) (some text) ≡ ok (some r)
      → Lends (some host) (some text) r
  unfolding by_delegation
  event-Lends any host text none r e h = absurd (ground (arith, e, h))
  event-Lends any host text (some event) r e h =
      let lent =
        or_none_sound
          (do
            claim ← verify_delegation_event p now event pubkey host revocations
            resolve_delegated_identity p now claim store)
          r (ground (arith, h, e)) in
      let (claim, accepted, resolved) =
        >>=-returns (verify_delegation_event p now event pubkey host revocations) _ lent in
      record {
        server_pubkey = host;
        for_server = refl;
        text = text;
        given = refl;
        event = event;
        decoded = e;
        claim = claim;
        accepted = accepted;
        resolved = resolved;
      }

  by_delegation_sound :
      (any server header : Option String) (r : IdentityRecord)
      → by_delegation p now store any revocations pubkey server header ≡ ok (some r)
      → Lends server header r
  unfolding by_delegation
  by_delegation_sound any none header r h = absurd (ground arith)
  by_delegation_sound any (some host) none r h = absurd (ground arith)
  by_delegation_sound any (some host) (some text) r h =
      event-Lends any host text (delegation_event p text) r refl h

  direct_or_sound :
      (server : Option String) (found : Option IdentityRecord)
      (other : Result DateError (Option IdentityRecord)) (r : IdentityRecord)
      → direct_or p now store server revocations pubkey found other ≡ ok (some r)
      → ((found ≡ some r) × (is_expired r now ≡ ok false)) ⊎ (other ≡ ok (some r))
  unfolding direct_or
  direct_or_sound server none other r h = inr h
  direct_or_sound server (some d) other r h = by_expiry (is_expired d now) refl
    where
      by_expiry :
          (expired : Result DateError Bool)
          → is_expired d now ≡ expired
          → ((some d ≡ some r) × (is_expired r now ≡ ok false)) ⊎ (other ≡ ok (some r))
      by_expiry (err e) x = absurd (ground (arith, h, x))
      by_expiry (ok true) x = inr (ground (arith, h, x))
      by_expiry (ok false) x =
          let same : d ≡ r = ground (arith, h, x) in
          inl (ap some same, subst (λ y. is_expired y now ≡ ok false) same x)

  -- A request acts under an identity only when identity.toml has an unexpired record of its key, or
  -- when its delegation header holds an event that this server accepts and whose delegator's record
  -- lends the identity.
  pub resolve_identity_sound :
      (server header : Option String) (r : IdentityRecord)
      → resolve_identity p now store server revocations pubkey header ≡ ok (some r)
      → ((lookup p store pubkey ≡ ok (some r)) × (is_expired r now ≡ ok false))
        ⊎ Lends server (nonempty header) r
  unfolding resolve_identity
  resolve_identity_sound server header r h =
      let (found, looked, h1) = >>=-returns (lookup p store pubkey) _ h in
      elim (direct_or_sound server found
        (by_delegation p now store server revocations pubkey server (nonempty header)) r
        (ground (arith, h1))) [
          | inl (same, live) ↦ inl (ground (arith, looked, same), live)
          | inr lent ↦ inr (by_delegation_sound server server (nonempty header) r lent)
        ]

  -- A record of the key that has not expired wins over any delegation header.
  pub resolve_identity-direct :
      (server header : Option String) (r : IdentityRecord)
      → lookup p store pubkey ≡ ok (some r)
      → is_expired r now ≡ ok false
      → resolve_identity p now store server revocations pubkey header ≡ ok (some r)
  unfolding resolve_identity direct_or
  resolve_identity-direct server header r found live = ground (arith, found, live)
