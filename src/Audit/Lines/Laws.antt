-- ===== src/Audit/Lines/Laws.antt =====
-- Appending a line to a text that is empty or ends with a line feed.
use yunohost_mcp.Prelude.{
  ℕ, ◌≡◌, refl, subst, ap, ◌∙◌, sym, Bool, true, false, ◌&&◌, List, [], ◌∷◌, ◌++◌, eqb, leb, all,
  arith, Bool-cases, Option-cases, inl, inr,
}
use yunohost_mcp.Platform.{Platform}
use yunohost_mcp.Audit.Lines.{
  Codes, is_break, onto_first, split_after, splitlines, line_value, line_values,
}

-- Nothing, or a text whose last code is a line feed.
abbrev pub ends_line : Codes → Bool
ends_line [] = true
ends_line (c ∷ []) = eqb c 10
ends_line (c ∷ d ∷ s) = ends_line (d ∷ s)

onto_first-append :
    (c : ℕ) (line : Codes) (xs ys : List Codes)
    → onto_first c ((line ∷ xs) ++ ys) ≡ onto_first c (line ∷ xs) ++ ys
onto_first-append c line xs ys = refl

-- A text of at least one code has a first line.
split_first :
    (c : ℕ) (s : Codes)
    → (line : Codes) × (rest : List Codes) × (split_after false (c ∷ s) ≡ line ∷ rest)
unfolding split_after
split_first c s = elim (Bool-cases (is_break c)) [
  | inl h ↦ ([], split_after (eqb c 13) s, ground (arith, h))
  | inr h ↦
      elim (split_after false s)
        as (λ lines.
          (line : Codes) × (rest : List Codes) × (elim (is_break c) [
            | true ↦ [] ∷ split_after (eqb c 13) s
            | false ↦ onto_first c lines
          ]
            ≡ line ∷ rest)) [
              | [] ↦ (c ∷ [], [], ground (arith, h))
              | line ∷ rest ↦ (c ∷ line, rest, ground (arith, h))
            ]
]

split_line_feed :
    (cr : Bool) (t : Codes)
    → split_after cr (10 ∷ t) ≡ split_after cr (10 ∷ []) ++ split_after false t
unfolding split_after
split_line_feed true t = refl
split_line_feed false t = refl

pub split_after-append :
    (cr : Bool) (c : ℕ) (s t : Codes)
    → ends_line (c ∷ s) ≡ true
    → split_after cr ((c ∷ s) ++ t) ≡ split_after cr (c ∷ s) ++ split_after false t
unfolding split_after
split_after-append cr c [] t h =
    let line_feed : c ≡ 10 = ground arith in
    subst (λ x. split_after cr (x ∷ t) ≡ split_after cr (x ∷ []) ++ split_after false t)
      (sym line_feed) (split_line_feed cr t)
split_after-append cr c (d ∷ s) t h =
    let more = split_after-append false d s t h in
    let after_break = split_after-append (eqb c 13) d s t h in
    let (line, rest, first) = split_first d s in
    elim (Bool-cases (cr && eqb c 10)) [
      | inl whole ↦ ground (arith, whole, more)
      | inr fresh ↦ elim (Bool-cases (is_break c)) [
        | inl ends ↦ ground (arith, fresh, ends, after_break)
        | inr inside ↦
            let joined : onto_first c (split_after false ((d ∷ s) ++ t))
                ≡ onto_first c (split_after false (d ∷ s)) ++ split_after false t =
              cc (more, first) in
            ground (arith, fresh, inside, joined)
      ]
    ]

-- The codes of a line that json.dumps makes.
abbrev pub is_printable : Codes → Bool
is_printable s = all (λ c. leb 32 c && leb c 126) s

split_line :
    (line : Codes) → is_printable line ≡ true → split_after false (line ++ 10 ∷ []) ≡ line ∷ []
unfolding split_after
split_line [] h = refl
split_line (c ∷ line) h =
    let inside : is_break c ≡ false = ground arith in
    ground (arith, inside, split_line line (ground arith))

-- A printable line after a text that is empty or ends with a line feed is one line more.
pub splitlines-line :
    (s line : Codes)
    → ends_line s ≡ true
    → is_printable line ≡ true
    → splitlines (s ++ (line ++ 10 ∷ [])) ≡ splitlines s ++ line ∷ []
unfolding split_after
splitlines-line [] line h printable = split_line line printable
splitlines-line (c ∷ s) line h printable =
    split_after-append false c s (line ++ 10 ∷ []) h
    ∙ ap (λ more. splitlines (c ∷ s) ++ more) (split_line line printable)

pub ends_line-append : (s : Codes) → ends_line (s ++ 10 ∷ []) ≡ true
ends_line-append [] = refl
ends_line-append (c ∷ []) = refl
ends_line-append (c ∷ d ∷ s) = ends_line-append (d ∷ s)

module _ (p : Platform) where
  pub line_values-append :
      (xs ys : List Codes) → line_values p (xs ++ ys) ≡ line_values p xs ++ line_values p ys
  unfolding line_values
  line_values-append [] ys = refl
  line_values-append (x ∷ xs) ys = elim (Option-cases (line_value p x)) [
    | inl blank ↦ ground (arith, blank, line_values-append xs ys)
    | inr (v, found) ↦ ground (arith, found, line_values-append xs ys)
  ]
