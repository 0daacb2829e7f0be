-- ===== src/Concord/Guestbook/Members.antt =====
-- Where the state of a member comes from.
use yunohost_mcp.Prelude.{
  String, ◌≡◌, ap, subst, ◌∙◌, true, false, none, some, List, [], ◌∷◌, ◌==◌, eq_iff, eq_refl, arith,
  any, Bool-cases, Option-cases, inl, inr, if◌then◌else◌,
}
use yunohost_mcp.Prelude.Dict
use yunohost_mcp.Prelude.Dict.{Dict, get-put}
use yunohost_mcp.Prelude.Int.{ℤ, ltb_ℤ}
use yunohost_mcp.Prelude.Json.{Fields}
use yunohost_mcp.Platform.{Platform}
use yunohost_mcp.Concord.Guestbook.Candidates.{AllOf, AllOf-map, SaidIn, all_said}
use yunohost_mcp.Concord.Guestbook.{
  GuestbookState, Authority, candidates, wins, newer, offer, offer_all, fold_rumors, without_banned,
  fold_guestbook,
}

module _ (p : Platform) (authority : Authority) where
  module _ (good : GuestbookState → Type 0) where
    -- Each member's state is its own and is good.
    AllGood : Dict GuestbookState → Type 0
    AllGood states =
        (member : String) (state : GuestbookState)
        → Dict.get states member ≡ some state
        → (state.member ≡ member) × good state

    offer-AllGood :
        (states : Dict GuestbookState) (c : GuestbookState)
        → good c
        → AllGood states
        → AllGood (offer p authority states c)
    unfolding AllGood offer
    offer-AllGood states c h kept member state found =
        elim (Bool-cases (wins p authority c (Dict.get states c.member))) [
          | inr loses ↦ kept member state (ground (arith, loses, found))
          | inl won ↦
              let put = get-put states c.member c member in
              elim (Bool-cases (c.member == member)) [
                | inl same ↦
                    let is : c ≡ state = ground (arith, won, found, put, same) in
                    (
                      subst (λ s. s.member ≡ member) is ((eq_iff c.member member).0 same),
                      subst good is h,
                    )
                | inr other ↦ kept member state (ground (arith, won, found, put, other))
              ]
        ]

    offer_all-AllGood :
        (states : Dict GuestbookState) (cs : List GuestbookState)
        → AllOf good cs
        → AllGood states
        → AllGood (offer_all p authority states cs)
    unfolding offer_all
    offer_all-AllGood states [] h kept = kept
    offer_all-AllGood states (c ∷ cs) h kept =
        offer_all-AllGood (offer p authority states c) cs h.1 (offer-AllGood states c h.0 kept)

    fold_rumors-AllGood :
        (states : Dict GuestbookState) (rumors : List Fields)
        → AllOf (λ r. AllOf good (candidates p authority r)) rumors
        → AllGood states
        → AllGood (fold_rumors p authority states rumors)
    unfolding fold_rumors
    fold_rumors-AllGood states [] h kept = kept
    fold_rumors-AllGood states (r ∷ rumors) h kept =
        fold_rumors-AllGood (offer_all p authority states (candidates p authority r)) rumors h.1
          (offer_all-AllGood states (candidates p authority r) h.0 kept)

  -- The states have one of the member that is not older than this time.
  AreSince : String → ℤ → Dict GuestbookState → Type 0
  AreSince member time states =
      (state : GuestbookState) × (Dict.get states member ≡ some state)
      × (ltb_ℤ state.timestamp_ms time ≡ false)

  offer-AreSince :
      (member : String) (time : ℤ) (states : Dict GuestbookState) (c : GuestbookState)
      → AreSince member time states
      → AreSince member time (offer p authority states c)
  unfolding AreSince offer newer
  offer-AreSince member time states c (state, found, since) =
      elim (Bool-cases (wins p authority c (Dict.get states c.member))) [
        | inr loses ↦ (state, ground (arith, loses, found), since)
        | inl won ↦
            let put = get-put states c.member c member in
            elim (Bool-cases (c.member == member)) [
              | inr other ↦ (state, ground (arith, won, found, put, other), since)
              | inl same ↦
                  let named = (eq_iff c.member member).0 same in
                  let stored : Dict.get states c.member ≡ some state =
                    ap (Dict.get states) named ∙ found in
                  let newer_than : newer p authority c state ≡ true = ground (arith, stored, won) in
                  (c, ground (arith, won, put, same), ground (arith, newer_than, since))
            ]
      ]

  offer-AreSince_own :
      (states : Dict GuestbookState) (c : GuestbookState)
      → AreSince c.member c.timestamp_ms (offer p authority states c)
  unfolding AreSince offer newer
  offer-AreSince_own states c =
      let put = get-put states c.member c c.member in
      let self = eq_refl c.member in
      elim (Option-cases (Dict.get states c.member)) [
        | inl missing ↦ (c, ground (arith, missing, put, self), ground arith)
        | inr (state, found) ↦ elim (Bool-cases (newer p authority c state)) [
          | inl won ↦ (c, ground (arith, found, won, put, self), ground arith)
          | inr loses ↦ (state, ground (arith, found, loses), ground (arith, loses))
        ]
      ]

  offer_all-AreSince :
      (member : String) (time : ℤ) (states : Dict GuestbookState) (cs : List GuestbookState)
      → AreSince member time states
      → AreSince member time (offer_all p authority states cs)
  unfolding offer_all
  offer_all-AreSince member time states [] h = h
  offer_all-AreSince member time states (c ∷ cs) h =
      offer_all-AreSince member time (offer p authority states c) cs
        (offer-AreSince member time states c h)

  fold_rumors-AreSince :
      (member : String) (time : ℤ) (states : Dict GuestbookState) (rumors : List Fields)
      → AreSince member time states
      → AreSince member time (fold_rumors p authority states rumors)
  unfolding fold_rumors
  fold_rumors-AreSince member time states [] h = h
  fold_rumors-AreSince member time states (r ∷ rumors) h =
      fold_rumors-AreSince member time (offer_all p authority states (candidates p authority r))
        rumors (offer_all-AreSince member time states (candidates p authority r) h)

  -- The states have one of the candidate's member that is not older.
  Covers : Dict GuestbookState → GuestbookState → Type 0
  Covers states c = AreSince c.member c.timestamp_ms states

  offer_all-Covers :
      (states : Dict GuestbookState) (cs : List GuestbookState)
      → AllOf (Covers (offer_all p authority states cs)) cs
  unfolding offer_all Covers
  offer_all-Covers states [] = tt
  offer_all-Covers states (c ∷ cs) = (
    offer_all-AreSince c.member c.timestamp_ms (offer p authority states c) cs
        (offer-AreSince_own states c),
    offer_all-Covers (offer p authority states c) cs,
  )

  fold_rumors-Covers :
      (states : Dict GuestbookState) (rumors : List Fields)
      → AllOf
          (λ r. AllOf (Covers (fold_rumors p authority states rumors)) (candidates p authority r))
          rumors
  unfolding fold_rumors Covers
  fold_rumors-Covers states [] = tt
  fold_rumors-Covers states (r ∷ rumors) =
      let offered = offer_all p authority states (candidates p authority r) in
      (
        AllOf-map (Covers offered) (Covers (fold_rumors p authority offered rumors))
            (candidates p authority r)
            (λ c h. fold_rumors-AreSince c.member c.timestamp_ms offered rumors h)
            (offer_all-Covers states (candidates p authority r)),
        fold_rumors-Covers offered rumors,
      )

  get-without_banned :
      (states : Dict GuestbookState) (member : String)
      → Dict.get (without_banned p authority states) member
        ≡ (if any (λ b. b == member) authority.banned_members then none else Dict.get states member)
  unfolding without_banned Dict.get
  get-without_banned [] member = ground arith
  get-without_banned ((k, v) ∷ states) member = elim (Bool-cases (k == member)) [
    | inl same ↦
        let is = (eq_iff k member).0 same in
        let banned = ap (λ x. any (λ b. b == x) authority.banned_members) is in
        ground (arith, same, banned, get-without_banned states member)
    | inr other ↦ ground (arith, other, get-without_banned states member)
  ]

  -- No candidate of the member is newer than the state, by the clock of the rumors.
  abbrev pub IsLatest : GuestbookState → GuestbookState → Type 0
  IsLatest state c = c.member ≡ state.member → ltb_ℤ state.timestamp_ms c.timestamp_ms ≡ false

  -- A member that has a state after the fold is not banned, and the state is its own. Some rumor of the
  -- list says what it has, at its time and under its id, not after the clock with the skew: a Join or
  -- Leave by the member, an authorized kick of it, which leaves, or an authorized snapshot that lists it,
  -- which joins. No candidate of a rumor of the list about the member has a later time.
  pub fold_guestbook_sound :
      (rumors : List Fields) (member : String) (state : GuestbookState)
      → Dict.get (fold_guestbook p authority rumors) member ≡ some state
      → (any (λ b. b == member) authority.banned_members ≡ false)
        × (state.member ≡ member)
        × SaidIn p authority rumors state
        × AllOf (λ r. AllOf (IsLatest state) (candidates p authority r)) rumors
  unfolding fold_guestbook AllGood Dict.get Covers AreSince
  fold_guestbook_sound rumors member state found =
      let states = fold_rumors p authority [] rumors in
      let left = get-without_banned states member in
      let kept : Dict.get states member ≡ some state = ground (arith, left, found) in
      let (own, good) =
        fold_rumors-AllGood (SaidIn p authority rumors) [] rumors (all_said p authority rumors)
          (λ m s h. absurd cc) member state kept in
      let latest : (c : GuestbookState) → Covers states c → IsLatest state c =
        λ c (s, has, since) same.
          let is : s ≡ state = cc (has, kept, same, own) in
          subst (λ x. ltb_ℤ x.timestamp_ms c.timestamp_ms ≡ false) is since in
      (
        ground (arith, left, found),
        own,
        good,
        AllOf-map (λ r. AllOf (Covers states) (candidates p authority r))
            (λ r. AllOf (IsLatest state) (candidates p authority r)) rumors
            (λ r. AllOf-map (Covers states) (IsLatest state) (candidates p authority r) latest)
            (fold_rumors-Covers [] rumors),
      )
