-- ===== src/Broker/Calls/Arguments/Sound.antt =====
-- What holds of a call that is made: every check has passed.
use yunohost_mcp.Prelude.{ℕ, suc, zero, ◌≡◌, Option, some, none, List, [], ◌∷◌, arith, subst}
use yunohost_mcp.Prelude.Json.{Fields}
use yunohost_mcp.Prelude.Result.{ok, >>=-returns}
use yunohost_mcp.Broker.Calls.Arguments.{Check, AdapterCall, Operation, run_checks, pass, call_of}

pub call_of_sound :
    (operation : Operation) (arguments : Fields) (call : AdapterCall)
    → call_of operation arguments ≡ ok call
    → (run_checks operation.checks arguments ≡ ok tt)
      × (call ≡ record { method = operation.method; passed = pass operation.passes arguments })
unfolding call_of
call_of_sound operation arguments call e =
    let (u, passed, made) =
      >>=-returns (run_checks operation.checks arguments)
        (λ _. ok (record { method = operation.method; passed = pass operation.passes arguments }))
        e in
    (passed, cc made)

-- The check at a position of a list.
unfoldable pub check_at : List Check → ℕ → Option Check
check_at [] n = none
check_at (c ∷ cs) zero = some c
check_at (c ∷ cs) (suc n) = check_at cs n

pub run_checks-at :
    (checks : List Check) (n : ℕ) (check : Check) (arguments : Fields)
    → check_at checks n ≡ some check
    → run_checks checks arguments ≡ ok tt
    → check arguments ≡ ok tt
unfolding check_at run_checks
run_checks-at [] n check arguments at h = absurd cc
run_checks-at (c ∷ cs) zero check arguments at h =
    let (u, first, rest) = >>=-returns (c arguments) (λ _. run_checks cs arguments) h in
    let same : c ≡ check = ground (arith, at) in subst (λ f. f arguments ≡ ok tt) same first
run_checks-at (c ∷ cs) (suc n) check arguments at h =
    let (u, first, rest) = >>=-returns (c arguments) (λ _. run_checks cs arguments) h in
    run_checks-at cs n check arguments at rest
