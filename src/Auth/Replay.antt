-- ===== src/Auth/Replay.antt =====
-- src/yunohost_mcp/auth/replay.py: event ids that were used, each until its time to live is over.
-- Times are readings of the monotonic clock.
pub mod Memory
use yunohost_mcp.Prelude.{
  ℕ, ◌+◌, String, Bool, Option, none, some, List, [], ◌∷◌, leb, is_some, length, if◌then◌else◌,
}
use yunohost_mcp.Prelude.Dict
use yunohost_mcp.Prelude.Dict.{Dict}
use yunohost_mcp.Prelude.Result.{Result, ok, err}

pub record ReplayCache : Type 0 where
  pub ttl_seconds : ℕ
  pub seen : Dict ℕ

-- ReplayCache(ttl_seconds)
abbrev pub new_cache : ℕ → ReplayCache
new_cache ttl = record { ttl_seconds = ttl; seen = [] }

-- `ReplayError`
pub data ReplayError : Type 0 where
  already_used : ReplayError

-- `_prune`, on the dictionary
prune : ℕ → Dict ℕ → Dict ℕ
prune now [] = []
prune now ((id, expiry) ∷ d) =
    let rest = prune now d in if leb expiry now then rest else (id, expiry) ∷ rest

unfoldable pub check_and_record :
    ℕ → String → ReplayCache → Result ReplayError (Unit {0}) × ReplayCache
unfolding prune
check_and_record now id c =
    let seen = prune now c.seen in
    if is_some (Dict.get seen id)
    then (err already_used, record c { seen = seen })
    else (ok tt, record c { seen = Dict.put seen id (now + c.ttl_seconds) })

-- len(cache)
pub size : ReplayCache → ℕ
size c = length c.seen
