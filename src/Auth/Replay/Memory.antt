-- ===== src/Auth/Replay/Memory.antt =====
-- An id that was recorded is refused until its time is over, whatever is checked in between.
use yunohost_mcp.Prelude.{
  ℕ, ◌+◌, ◌<◌, String, ◌≡◌, refl, some, List, [], ◌∷◌, arith, ◌==◌, eq_iff, Bool-cases, inl, inr,
}
use yunohost_mcp.Prelude.Dict
use yunohost_mcp.Prelude.Dict.{Dict, get-put, get-cons}
use yunohost_mcp.Prelude.Result.{ok, err}
use yunohost_mcp.Auth.Replay.{ReplayCache, already_used, prune, check_and_record}

-- Pruning keeps what has not expired.
get-prune :
    (now : ℕ) (d : Dict ℕ) (id : String) (expiry : ℕ)
    → now < expiry
    → Dict.get d id ≡ some expiry
    → Dict.get (prune now d) id ≡ some expiry
unfolding prune
get-prune now [] id expiry live h = h
get-prune now ((j, e) ∷ d) id expiry live h = elim (Bool-cases (j == id)) [
  | inl same ↦ ground (arith, same, get-cons j e d id, get-cons j e (prune now d) id)
  | inr other ↦ ground (
    arith,
    other,
    get-cons j e d id,
    get-cons j e (prune now d) id,
    get-prune now d id expiry live,
  )
]

-- The id is remembered until `expiry`.
abbrev pub Remembers : ReplayCache → String → ℕ → Type 0
Remembers c id expiry = Dict.get c.seen id ≡ some expiry

-- A check that passes remembers the id for the time to live.
check-Remembers :
    (now : ℕ) (id : String) (c c' : ReplayCache)
    → check_and_record now id c ≡ (ok tt, c')
    → Remembers c' id (now + c.ttl_seconds) × (c'.ttl_seconds ≡ c.ttl_seconds)
unfolding check_and_record
check-Remembers now id c c' h =
    ground (arith, get-put (prune now c.seen) id (now + c.ttl_seconds) id, eq_iff id id)

-- Before then every check of it fails, and no check forgets it.
check_step :
    (now : ℕ) (j id : String) (expiry : ℕ) (c : ReplayCache)
    → now < expiry
    → Remembers c id expiry
    → Remembers (check_and_record now j c).1 id expiry
      × ((j ≡ id) → (check_and_record now j c).0 ≡ err already_used)
unfolding check_and_record
check_step now j id expiry c live h =
    let kept = get-prune now c.seen id expiry live h in
    (
      ground (arith, kept, eq_iff j id, get-put (prune now c.seen) j (now + c.ttl_seconds) id),
      λ same. ground (arith, kept, same),
    )

-- Checks of one cache, in order, with the clock's readings.
abbrev pub Checks : Type 0
Checks = List (ℕ × String)

unfoldable pub after : Checks → ReplayCache → ReplayCache
after [] c = c
after ((now, id) ∷ rest) c = after rest (check_and_record now id c).1

-- All readings come before this time.
abbrev pub AllBefore : ℕ → Checks → Type 0
AllBefore t [] = Unit
AllBefore t ((now, id) ∷ rest) = (now < t) × AllBefore t rest

after-Remembers :
    (checks : Checks) (id : String) (expiry : ℕ) (c : ReplayCache)
    → AllBefore expiry checks
    → Remembers c id expiry
    → Remembers (after checks c) id expiry
unfolding after
after-Remembers [] id expiry c u h = h
after-Remembers ((now, j) ∷ rest) id expiry c (live, u) h =
    after-Remembers rest id expiry _ u (check_step now j id expiry c live h).0

-- An id that a check has accepted is refused by every later check within the time to live, whatever
-- ids are checked in between.
pub no_replay :
    (now : ℕ) (id : String) (c c' : ReplayCache) (between : Checks) (later : ℕ)
    → check_and_record now id c ≡ (ok tt, c')
    → AllBefore (now + c.ttl_seconds) between
    → later < now + c.ttl_seconds
    → (check_and_record later id (after between c')).0 ≡ err already_used
no_replay now id c c' between later h u live =
    let (remembered, _) = check-Remembers now id c c' h in
    (check_step later id id (now + c.ttl_seconds) (after between c') live
        (after-Remembers between id (now + c.ttl_seconds) c' u remembered)).1
      refl
