-- ===== src/Audit/Newest.antt =====
-- The hash that `record` takes up is the last of the chain.
use yunohost_mcp.Prelude.{
  String, ◌≡◌, refl, ap, subst, sym, ◌∙◌, ◌⊎◌, false, Option, none, some, List, [], ◌∷◌, ◌++◌, ◌==◌,
  arith, Option-cases, inl, inr,
}
use yunohost_mcp.Prelude.Json.{Json, Fields, str, obj, get_field}
use yunohost_mcp.Prelude.Result.{Result, ok, err}
use yunohost_mcp.Platform.{Platform}
use yunohost_mcp.Audit.Lines.{Codes, line_value, line_values}
use yunohost_mcp.Audit.Log.{
  AuditError, own_hash, or_older, reverse, newest_hash, hash_of, without_self, text_of,
}
use yunohost_mcp.Audit.Chain.{IsChain, empty, linked}

module _ (p : Platform) where
  or_older_assoc :
      (a b c : Result AuditError (Option String))
      → or_older a (or_older b c) ≡ or_older (or_older a b) c
  or_older_assoc (ok none) b c = refl
  or_older_assoc (ok (some h)) b c = refl
  or_older_assoc (err e) b c = refl

  newest_hash-append :
      (xs ys : List Codes)
      → newest_hash p (xs ++ ys) ≡ or_older (newest_hash p xs) (newest_hash p ys)
  unfolding newest_hash
  newest_hash-append [] ys = refl
  newest_hash-append (x ∷ xs) ys =
      ap (or_older (own_hash (line_value p x))) (newest_hash-append xs ys)
      ∙ or_older_assoc (own_hash (line_value p x)) (newest_hash p xs) (newest_hash p ys)

  IsChain-head :
      {prev last : String} {v : Json} {es : List Json}
      → IsChain p prev (v ∷ es) last
      → (fs : Fields) × (h : String) × (v ≡ obj fs)
        × (get_field fs "entry_hash" ≡ some (str h))
        × (h ≡ hash_of p (without_self fs))
        × IsChain p h es last
  IsChain-head (linked fs h before own right rest) = (fs, h, refl, own, right, rest)

  newest_of_one :
      (line : Codes) (fs : Fields) (h : String)
      → line_value p line ≡ some (obj fs)
      → get_field fs "entry_hash" ≡ some (str h)
      → (h == "") ≡ false
      → newest_hash p (line ∷ []) ≡ ok (some h)
  unfolding newest_hash
  newest_of_one line fs h found own some_text =
      let stored = ap text_of own in ground (arith, found, stored, some_text)

  newest_of_blank : (line : Codes) → line_value p line ≡ none → newest_hash p (line ∷ []) ≡ ok none
  unfolding newest_hash
  newest_of_blank line blank = ground (arith, blank)

  pub newest_hash-reverse :
      ((fs : Fields) → (hash_of p fs == "") ≡ false)
      → (lines : List Codes) → {prev last : String} → IsChain p prev (line_values p lines) last
      → ((newest_hash p (reverse lines) ≡ ok none) × (prev ≡ last))
        ⊎ (newest_hash p (reverse lines) ≡ ok (some last))
  unfolding line_values newest_hash
  newest_hash-reverse some_text [] empty = inl (refl, refl)
  newest_hash-reverse some_text (line ∷ lines) {prev} {last} chain =
      let snoc = newest_hash-append (reverse lines) (line ∷ []) in
      elim (Option-cases (line_value p line)) [
        | inl blank ↦
            let rest : IsChain p prev (line_values p lines) last =
              subst (λ es. IsChain p prev es last) (ground (arith, blank)) chain in
            elim (newest_hash-reverse some_text lines rest) [
              | inl (nothing, same) ↦ inl (cc (snoc, nothing, newest_of_blank line blank), same)
              | inr found ↦ inr (cc (snoc, found))
            ]
        | inr (v, value) ↦
            let here : IsChain p prev (v ∷ line_values p lines) last =
              subst (λ es. IsChain p prev es last) (ground (arith, value)) chain in
            let (fs, h, is, own, right, rest) = IsChain-head here in
            let full : (h == "") ≡ false =
              subst (λ x. (x == "") ≡ false) (sym right) (some_text (without_self fs)) in
            let one = newest_of_one line fs h (cc (value, is)) own full in
            elim (newest_hash-reverse some_text lines rest) [
              | inl (nothing, same) ↦ inr (
                  snoc
                  ∙ ap (λ newer. or_older newer (newest_hash p (line ∷ []))) nothing
                  ∙ one
                  ∙ ap (λ x. ok (some x)) same)
              | inr found ↦
                  inr (snoc ∙ ap (λ newer. or_older newer (newest_hash p (line ∷ []))) found)
            ]
      ]
