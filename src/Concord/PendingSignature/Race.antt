-- ===== src/Concord/PendingSignature/Race.antt =====
-- How often a draft is handed out.
use yunohost_mcp.Prelude.{
  ℕ, String, ◌≡◌, ◌<◌, ap, sym, subst, ◌∙◌, Bool, true, false, not, none, some, List, [], ◌∷◌, ◌==◌,
  any, is_some, arith, eq_iff, eq_refl, Option-cases, inl, inr, if◌then◌else◌,
}
use yunohost_mcp.Prelude.Dict
use yunohost_mcp.Prelude.Dict.{Dict, get-put, get-remove}
use yunohost_mcp.Prelude.Result.{ok, err}
use yunohost_mcp.Concord.PendingSignature.{
  unknown, PendingSignature, PendingSignatureStore, Draft, Attempt, create, delete, checked,
  consume, waiting, answered, step, run,
}

-- What a draft that is handed out is good for.
pub record Fits (a : Attempt) (row : PendingSignature) : Type 0 where
  pub live : a.now < row.expires_at
  pub identity : row.pubkey ≡ a.pubkey
  pub operation : row.purpose ≡ a.purpose

Fits-checked : (a : Attempt) (row : PendingSignature) → Fits a row → checked a row ≡ ok row
unfolding checked
Fits-checked a row fits = ground (
  arith,
  fits.live,
  (eq_iff row.pubkey a.pubkey).1 fits.identity,
  (eq_iff row.purpose a.purpose).1 fits.operation,
)

checked_sound :
    (a : Attempt) (row got : PendingSignature) → checked a row ≡ ok got → (got ≡ row) × Fits a row
unfolding checked
checked_sound a row got h = ground (arith, eq_iff row.pubkey a.pubkey, eq_iff row.purpose a.purpose)

removed : (id : String) (s : PendingSignatureStore) → Dict.get (delete id s).rows id ≡ none
removed id s =
    get-remove s.rows id id ∙ ap (λ b. if b then none else Dict.get s.rows id) (eq_refl id)

-- A later call of the store, with no other statement between its own.
pub data Call : Type 0 where
  creates : ℕ → String → Draft → Call
  consumes : String → Attempt → Call

abbrev pub is_create_of : String → Call → Bool
is_create_of id (creates now other draft) = other == id
is_create_of id (consumes other a) = false

-- The store after one call, and after several.
abbrev pub after_call : Call → PendingSignatureStore → PendingSignatureStore
after_call (creates now other draft) s = (create now other draft s).1
after_call (consumes other a) s = (consume other a s).1

abbrev pub after : List Call → PendingSignatureStore → PendingSignatureStore
after [] s = s
after (c ∷ cs) s = after cs (after_call c s)

put-missing :
    (d : Dict PendingSignature) (other id : String) (row : PendingSignature)
    → (other == id) ≡ false
    → Dict.get d id ≡ none
    → Dict.get (Dict.put d other row) id ≡ none
put-missing d other id row ne h = ground (arith, get-put d other row id)

if-missing :
    {R : Type 0} (id : String) (b : Bool) (x y : R) (s t : PendingSignatureStore)
    → Dict.get s.rows id ≡ none
    → Dict.get t.rows id ≡ none
    → Dict.get (if◌then◌else◌ {A = R × PendingSignatureStore} b (x, s) (y, t)).1.rows id ≡ none
if-missing id true x y s t h k = h
if-missing id false x y s t h k = k

after_call-missing :
    (id : String) (c : Call) (s : PendingSignatureStore)
    → is_create_of id c ≡ false
    → Dict.get s.rows id ≡ none
    → Dict.get (after_call c s).rows id ≡ none
unfolding create consume
after_call-missing id (creates now other draft) s ne h =
    if-missing id (is_some (Dict.get s.rows other)) _ _ s _ h (put-missing s.rows other id _ ne h)
after_call-missing id (consumes other a) s ne h = elim (Option-cases (Dict.get s.rows other)) [
  | inl missing ↦ ground (arith, missing)
  | inr (row, found) ↦ ground (arith, found, get-remove s.rows other id)
]

after-missing :
    (id : String) (cs : List Call) (s : PendingSignatureStore)
    → any (is_create_of id) cs ≡ false
    → Dict.get s.rows id ≡ none
    → Dict.get (after cs s).rows id ≡ none
after-missing id [] s fresh h = h
after-missing id (c ∷ cs) s fresh h =
    after-missing id cs (after_call c s) (ground (arith, fresh))
      (after_call-missing id c s (ground (arith, fresh)) h)

-- Where no other call comes between the statements of a call: a draft is handed out only to the
-- identity and for the operation that it was made for, before it expires; and after any sequence of
-- later calls that create and consume drafts, none of which creates one with its id, a consume of its
-- id fails.
pub consume_once :
    (id : String) (a b : Attempt) (s s' : PendingSignatureStore) (row : PendingSignature)
    (later : List Call)
    → consume id a s ≡ (ok row, s')
    → any (is_create_of id) later ≡ false
    → (Dict.get s.rows id ≡ some row)
      × Fits a row
      × (consume id b (after later s') ≡ (err unknown, after later s'))
unfolding consume
consume_once id a b s s' row later h fresh = elim (Option-cases (Dict.get s.rows id)) [
  | inl missing ↦ absurd (ground (arith, missing, h))
  | inr (stored, found) ↦
      let (same, fits) = checked_sound a stored row (ground (arith, found, h)) in
      let left : delete id s ≡ s' = ground (arith, found, h) in
      let gone : Dict.get s'.rows id ≡ none =
        subst (λ t. Dict.get t.rows id ≡ none) left (removed id s) in
      let still = after-missing id later s' fresh gone in
      (found ∙ ap some (sym same), subst (Fits a) (sym same) fits, ground (arith, still))
]

-- Two calls for one stored draft that fits both of them are both handed the draft, whichever comes
-- first at each of the two statements, when both SELECTs come before the first DELETE.
pub run_twice :
    (id : String) (a b : Attempt) (s : PendingSignatureStore) (row : PendingSignature)
    (selects deletes : Bool)
    → Dict.get s.rows id ≡ some row
    → Fits a row
    → Fits b row
    → (s' : PendingSignatureStore) × (run id a b
          (selects ∷ not selects ∷ deletes ∷ not deletes ∷ [])
          waiting
          waiting
          s
        ≡ (answered (ok row), answered (ok row), s'))
unfolding run step
run_twice id a b s row true true found fits fits' = (
  delete id (delete id s),
  ground (arith, found, Fits-checked a row fits, Fits-checked b row fits'),
)
run_twice id a b s row true false found fits fits' = (
  delete id (delete id s),
  ground (arith, found, Fits-checked a row fits, Fits-checked b row fits'),
)
run_twice id a b s row false true found fits fits' = (
  delete id (delete id s),
  ground (arith, found, Fits-checked a row fits, Fits-checked b row fits'),
)
run_twice id a b s row false false found fits fits' = (
  delete id (delete id s),
  ground (arith, found, Fits-checked a row fits, Fits-checked b row fits'),
)

-- A call whose two statements come one after the other is `consume`.
pub run-consume :
    (id : String) (a b : Attempt) (s : PendingSignatureStore)
    → run id a b (true ∷ true ∷ []) waiting waiting s
      ≡ (answered (consume id a s).0, waiting, (consume id a s).1)
unfolding run step consume
run-consume id a b s = elim (Option-cases (Dict.get s.rows id)) [
  | inl missing ↦ ground (arith, missing)
  | inr (row, found) ↦ ground (arith, found)
]
