-- ===== src/Auth/Nip98/Accepts.antt =====
-- What an accepted header proves, and that it is accepted once.
use yunohost_mcp.Prelude.{
  [], ◌∷◌, subst, suc, ℕ, ◌+◌, ◌≤◌, ◌<◌, String, ◌≡◌, refl, true, false, Option, none, some, arith,
  eq_iff,
}
use yunohost_mcp.Prelude.Int.{ℤ, ◌-ℤ◌, abs, pos_part, eq_of_eqb_ℤ}
use yunohost_mcp.Prelude.Result.{Result, ok, err, is_ok}
use yunohost_mcp.Platform.{Platform, NostrEvent}
use yunohost_mcp.Auth.Nostr.{
  NostrEventError, tag, verify_event, IsSigned, verify_event_sound, verify_event_complete,
  eq_of_is_text, is_text_of,
}
use yunohost_mcp.Auth.Replay.{ReplayCache, check_and_record}
use yunohost_mcp.Auth.Replay.Memory.{Checks, AllBefore, after, no_replay}
use yunohost_mcp.Auth.Nip98.{
  Nip98Error, Nip98Identity, HttpRequest, nip98_kind, parse_header, check_event, method_matches,
  has_bytes, check_parsed, verify_nip98_request,
}

-- The event signs this very request, now.
pub record Signs (p : Platform) (now : ℤ) (skew : ℕ) (r : HttpRequest) (e : NostrEvent)
    : Type 0 where
  pub signed : IsSigned p e
  pub kind : e.kind ≡ nip98_kind
  pub recent : abs (now -ℤ e.created_at) ≤ skew
  pub url : tag e "u" ≡ some r.url
  pub method : (m : String) × (tag e "method" ≡ some m) × (p.upper m ≡ p.upper r.method)
  pub payload : has_bytes r.body ≡ true → tag e "payload" ≡ some (p.sha256 r.body)

method_matches_sound :
    (p : Platform) (o : Option String) (method : String)
    → method_matches p o method ≡ true
    → (m : String) × (o ≡ some m) × (p.upper m ≡ p.upper method)
unfolding method_matches
method_matches_sound p none method h = cc
method_matches_sound p (some m) method h = (m, refl, (eq_iff _ _).0 h)

method_matches_complete :
    (p : Platform) (o : Option String) (method : String)
    → (m : String) × (o ≡ some m) × (p.upper m ≡ p.upper method)
    → method_matches p o method ≡ true
unfolding method_matches
method_matches_complete p none method (m, e, h) = cc
method_matches_complete p (some n) method (m, e, h) = (eq_iff _ _).1 (cc (e, h))

module _ (p : Platform) (now : ℤ) (skew : ℕ) (r : HttpRequest) where
  check_event_sound :
      (e : NostrEvent) (v : Result NostrEventError (Unit {0}))
      → verify_event p e ≡ v
      → check_event p now skew r e ≡ ok tt
      → Signs p now skew r e
  unfolding check_event
  check_event_sound e (err x) s h = absurd (ground arith)
  check_event_sound e (ok u) s h = ground (
    arith,
    verify_event_sound p e u s,
    eq_of_eqb_ℤ e.kind nip98_kind,
    method_matches_sound p (tag e "method") r.method,
    eq_of_is_text (tag e "u") r.url,
    eq_of_is_text (tag e "payload") (p.sha256 r.body),
  )

  check_event_complete :
      (e : NostrEvent) → Signs p now skew r e → check_event p now skew r e ≡ ok tt
  unfolding check_event
  check_event_complete e s = ground (
    arith,
    verify_event_complete p e s.signed,
    s.kind,
    s.recent,
    method_matches_complete p (tag e "method") r.method s.method,
    s.payload,
    is_text_of (tag e "u") r.url s.url,
    is_text_of (tag e "payload") (p.sha256 r.body),
  )

  check_parsed_sound :
      (tick : ℕ) (c c' : ReplayCache) (parsed : Result Nip98Error NostrEvent) (i : Nip98Identity)
      → check_parsed p now tick skew r c parsed ≡ (ok i, c')
      → (e : NostrEvent) × (parsed ≡ ok e)
        × (check_event p now skew r e ≡ ok tt)
        × (check_and_record tick e.id c ≡ (ok tt, c'))
        × (i ≡ record { pubkey = e.pubkey; event_id = e.id; created_at = e.created_at })
  unfolding check_parsed
  check_parsed_sound tick c c' (err x) i h = absurd (ground arith)
  check_parsed_sound tick c c' (ok e) i h = (e, refl, ground arith, ground arith, ground arith)

  -- An accepted header holds an event that signs this very request: its id and signature are valid,
  -- it has the kind of NIP-98, was made within the skew of the server's time, names the request's url
  -- and method, and the digest of its body if there is one; the identity is the event's, and its id
  -- had not been used.
  pub verify_nip98_request_sound :
      (tick : ℕ) (header : Option String) (c c' : ReplayCache) (i : Nip98Identity)
      → verify_nip98_request p now tick skew header r c ≡ (ok i, c')
      → (e : NostrEvent) × (parse_header p header ≡ ok e)
        × Signs p now skew r e
        × (check_and_record tick e.id c ≡ (ok tt, c'))
        × (i ≡ record { pubkey = e.pubkey; event_id = e.id; created_at = e.created_at })
  unfolding verify_nip98_request
  verify_nip98_request_sound tick header c c' i h =
      let (e, parsed, checked, fresh, same) =
        check_parsed_sound tick c c' (parse_header p header) i h in
      (e, parsed, check_event_sound e (verify_event p e) refl checked, fresh, same)

  -- A header with such an event, whose id has not been used, is accepted.
  pub verify_nip98_request_complete :
      (tick : ℕ) (header : Option String) (c c' : ReplayCache) (e : NostrEvent)
      → parse_header p header ≡ ok e
      → Signs p now skew r e
      → check_and_record tick e.id c ≡ (ok tt, c')
      → verify_nip98_request p now tick skew header r c
        ≡ (ok (record { pubkey = e.pubkey; event_id = e.id; created_at = e.created_at }), c')
  unfolding verify_nip98_request check_parsed
  verify_nip98_request_complete tick header c c' e parsed s fresh =
      let checked = check_event_complete e s in ground (arith, parsed, checked, fresh)

-- Within the skew of one moment, two times are not far apart.
within_skew :
    (now later created : ℤ) (skew : ℕ)
    → abs (now -ℤ created) ≤ skew
    → abs (later -ℤ created) ≤ skew
    → pos_part (later -ℤ now) ≤ skew + skew
unfolding ◌-ℤ◌
within_skew now later created skew h k = ground arith

AllBefore-mono : (s t : ℕ) (checks : Checks) → s ≤ t → AllBefore s checks → AllBefore t checks
AllBefore-mono s t [] h u = tt
AllBefore-mono s t ((now, id) ∷ rest) h (a, u) = (omega arith, AllBefore-mono s t rest h u)

not_twice :
    (p : Platform) (skew drift : ℕ) (c c' d : ReplayCache) (between : Checks) (now later : ℤ)
    (tick tick' : ℕ) (header header' : Option String) (r r' : HttpRequest) (i j : Nip98Identity)
    → skew + skew + drift < c.ttl_seconds
    → tick' ≤ tick + pos_part (later -ℤ now) + drift
    → AllBefore (suc tick') between
    → verify_nip98_request p now tick skew header r c ≡ (ok i, c')
    → parse_header p header' ≡ parse_header p header
    → verify_nip98_request p later tick' skew header' r' (after between c') ≡ (ok j, d)
    → ⊥
not_twice p skew drift c c' d between now later tick tick' header header' r r' i j room clocks order
      h same k =
    let (e, parsed, s, fresh, _) = verify_nip98_request_sound p now skew r tick header c c' i h in
    let (e', parsed', s', fresh', _) =
      verify_nip98_request_sound p later skew r' tick' header' (after between c') d j k in
    let one : e' ≡ e = cc (parsed, parsed', same) in
    let made : abs (later -ℤ e.created_at) ≤ skew =
      subst (λ x. abs (later -ℤ x.created_at) ≤ skew) one s'.recent in
    let near = within_skew now later e.created_at skew s.recent made in
    let soon : suc tick' ≤ tick + c.ttl_seconds = omega (arith, near) in
    let refused =
      no_replay tick e.id c c' between tick' fresh
        (AllBefore-mono (suc tick') (tick + c.ttl_seconds) between soon order) soon in
    let passed : check_and_record tick' e.id (after between c') ≡ (ok tt, d) =
      subst (λ x. check_and_record tick' x.id (after between c') ≡ (ok tt, d)) one fresh' in
    cc (refused, passed)

-- A signed event is accepted once: after a header was accepted, no header with the same event is, for
-- any request and after any other checks of the cache, if the clocks agree up to `drift` and twice the
-- skew and the drift are within the cache's time to live. Then a second one either comes while the
-- id is remembered, or the event is too old.
pub accepted_once :
    (p : Platform) (skew drift : ℕ) (c c' : ReplayCache) (between : Checks) (now later : ℤ)
    (tick tick' : ℕ) (header header' : Option String) (r r' : HttpRequest) (i : Nip98Identity)
    → skew + skew + drift < c.ttl_seconds
    → tick' ≤ tick + pos_part (later -ℤ now) + drift
    → AllBefore (suc tick') between
    → verify_nip98_request p now tick skew header r c ≡ (ok i, c')
    → parse_header p header' ≡ parse_header p header
    → is_ok (verify_nip98_request p later tick' skew header' r' (after between c')).0 ≡ false
accepted_once p skew drift c c' between now later tick tick' header header' r r' i room clocks order
      h same =
    let second = verify_nip98_request p later tick' skew header' r' (after between c') in
    refused second refl
  where
    refused :
        (second : Result Nip98Error Nip98Identity × ReplayCache)
        → verify_nip98_request p later tick' skew header' r' (after between c') ≡ second
        → is_ok second.0 ≡ false
    refused (err x, d) e = refl
    refused (ok j, d) e = absurd (
        not_twice p skew drift c c' d between now later tick tick' header header' r r' i j room
          clocks order h same e)
