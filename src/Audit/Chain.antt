-- ===== src/Audit/Chain.antt =====
-- The chain of hashes that `verify` walks, and what it tells of a log.
use yunohost_mcp.Prelude.{
  ℕ, suc, String, ◌≡◌, refl, ap, Bool, true, false, not, Option, some, none, List, [], ◌∷◌, ◌++◌,
  ◌==◌, eq_iff, arith, ◌↔◌, Option-cases, inl, inr,
}
use yunohost_mcp.Prelude.Json.{Json, Fields, null, bool, int, str, arr, obj, get_field}
use yunohost_mcp.Prelude.Result.{Result, ok, err}
use yunohost_mcp.Platform.{Platform}
use yunohost_mcp.Audit.Log.{
  AuditError, Problem, prev_hash_mismatch, missing_entry_hash, wrong_entry_hash, text_of, is_text,
  problem_if, after, without_self, hash_of, verify_from,
}

module _ (p : Platform) where
  -- Entries whose hashes are their own, from the hash before the first to that of the last.
  pub data IsChain : String → List Json → String → Type 0 where
    empty : {h : String} → IsChain h [] h
    linked :
        {prev last : String} {es : List Json}
        → (fs : Fields) (h : String) → get_field fs "prev_hash" ≡ some (str prev)
        → get_field fs "entry_hash" ≡ some (str h)
        → h ≡ hash_of p (without_self fs)
        → IsChain h es last
        → IsChain prev (obj fs ∷ es) last

  is_text_iff : (s : String) (v : Option Json) → (is_text s v ≡ true) ↔ (v ≡ some (str s))
  is_text_iff s none = (λ h. absurd cc, λ h. absurd cc)
  is_text_iff s (some (str t)) =
      (λ h. ap (λ x. some (str x)) ((eq_iff t s).0 h), λ h. (eq_iff t s).1 (ground (arith, h)))
  is_text_iff s (some null) = (λ h. absurd cc, λ h. absurd cc)
  is_text_iff s (some (bool b)) = (λ h. absurd cc, λ h. absurd cc)
  is_text_iff s (some (int n)) = (λ h. absurd cc, λ h. absurd cc)
  is_text_iff s (some (arr vs)) = (λ h. absurd cc, λ h. absurd cc)
  is_text_iff s (some (obj fs)) = (λ h. absurd cc, λ h. absurd cc)

  text_of_some : (v : Option Json) (s : String) → text_of v ≡ some s → v ≡ some (str s)
  text_of_some none s h = absurd cc
  text_of_some (some (str t)) s h = cc h
  text_of_some (some null) s h = absurd cc
  text_of_some (some (bool b)) s h = absurd cc
  text_of_some (some (int n)) s h = absurd cc
  text_of_some (some (arr vs)) s h = absurd cc
  text_of_some (some (obj fs)) s h = absurd cc

  after_none :
      (problems : List Problem) (rest : Result AuditError (List Problem))
      → after problems rest ≡ ok []
      → (problems ≡ []) × (rest ≡ ok [])
  after_none [] (ok more) h = (refl, h)
  after_none (q ∷ qs) (ok more) h = absurd cc
  after_none problems (err e) h = absurd cc

  both_none :
      (shown : Bool) (q : Problem) (qs : List Problem)
      → problem_if shown q ++ qs ≡ []
      → (shown ≡ false) × (qs ≡ [])
  both_none true q qs h = absurd cc
  both_none false q qs h = (refl, h)

  not-false : (b : Bool) → not b ≡ false → b ≡ true
  not-false true h = refl
  not-false false h = absurd cc

  first_linked :
      (prev : String) (line : ℕ) (fs : Fields) (es : List Json)
      → verify_from p prev line (obj fs ∷ es) ≡ ok []
      → (h : String) × (get_field fs "prev_hash" ≡ some (str prev))
        × (get_field fs "entry_hash" ≡ some (str h))
        × (h ≡ hash_of p (without_self fs))
        × (verify_from p h (suc line) es ≡ ok [])
  unfolding verify_from
  first_linked prev line fs es h = elim (Option-cases (text_of (get_field fs "entry_hash"))) [
    | inl missing ↦ absurd (ground (arith, missing, no_hash (ground (arith, missing, h))))
    | inr (stored, found) ↦
        let own = stored == hash_of p (without_self fs) in
        let wrong = problem_if (not own) (wrong_entry_hash line) in
        let (no_problems, more) =
          after_none (problem_if (not linked_here) (prev_hash_mismatch line) ++ wrong)
            (verify_from p stored (suc line) es) (ground (arith, found, h)) in
        let (joined, none_wrong) =
          both_none (not linked_here) (prev_hash_mismatch line) wrong no_problems in
        let (matched, nothing) =
          both_none (not own) (wrong_entry_hash line) [] (ground (arith, none_wrong)) in
        (
          stored,
          (is_text_iff prev (get_field fs "prev_hash")).0 (not-false linked_here joined),
          text_of_some (get_field fs "entry_hash") stored found,
          (eq_iff stored (hash_of p (without_self fs))).0 (not-false own matched),
          more,
        )
  ]
    where
      linked_here : Bool
      linked_here = is_text prev (get_field fs "prev_hash")

      no_hash :
          after
              (problem_if (not linked_here) (prev_hash_mismatch line)
                ++ missing_entry_hash line ∷ [])
              (verify_from p prev (suc line) es)
            ≡ ok []
          → ⊥
      no_hash shown =
          let (no_problems, more) =
            after_none
              (problem_if (not linked_here) (prev_hash_mismatch line)
                ++ missing_entry_hash line ∷ [])
              (verify_from p prev (suc line) es) shown in
          let (joined, nothing) =
            both_none (not linked_here) (prev_hash_mismatch line) (missing_entry_hash line ∷ [])
              no_problems in
          cc nothing

  pub verify_from-IsChain :
      (prev : String) (line : ℕ) (es : List Json)
      → verify_from p prev line es ≡ ok []
      → (last : String) × IsChain prev es last
  unfolding verify_from
  verify_from-IsChain prev line [] h = (prev, empty)
  verify_from-IsChain prev line (obj fs ∷ es) h =
      let (stored, before, own, right, more) = first_linked prev line fs es h in
      let (last, rest) = verify_from-IsChain stored (suc line) es more in
      (last, linked fs stored before own right rest)
  verify_from-IsChain prev line (null ∷ es) h = absurd cc
  verify_from-IsChain prev line (bool b ∷ es) h = absurd cc
  verify_from-IsChain prev line (int n ∷ es) h = absurd cc
  verify_from-IsChain prev line (str s ∷ es) h = absurd cc
  verify_from-IsChain prev line (arr vs ∷ es) h = absurd cc

  pub chain-verify_from :
      {prev last : String} {es : List Json} (line : ℕ)
      → IsChain prev es last
      → verify_from p prev line es ≡ ok []
  unfolding verify_from
  chain-verify_from line empty = refl
  chain-verify_from {prev} {last} line (linked {es} fs h before own right rest) =
      let linked_here = (is_text_iff prev (get_field fs "prev_hash")).1 before in
      let right_here = (eq_iff h (hash_of p (without_self fs))).1 right in
      let found = ap text_of own in
      ground (arith, found, linked_here, right_here, chain-verify_from (suc line) rest)
