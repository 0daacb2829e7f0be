-- ===== src/Audit/Lines.antt =====
-- The lines of a text, as code points, that src/yunohost_mcp/audit/log.py reads: str.splitlines,
-- str.strip and the JSON value of each line.
pub mod Laws
use yunohost_mcp.Prelude.{
  ℕ, Bool, true, false, ◌&&◌, ◌||◌, Option, none, some, List, [], ◌∷◌, ◌++◌, eqb, leb,
  if◌then◌else◌,
}
use yunohost_mcp.Prelude.Json.{Json}
use yunohost_mcp.Platform.{Platform}

abbrev pub Codes : Type 0
Codes = List ℕ

-- The ends of lines of str.splitlines.
abbrev pub is_break : ℕ → Bool
is_break c =
    (leb 10 c && leb c 13) || (leb 28 c && leb c 30) || eqb c 133 || eqb c 8232 || eqb c 8233

-- str.isspace
abbrev pub is_space : ℕ → Bool
is_space c =
    (leb 9 c && leb c 13)
    || (leb 28 c && leb c 32)
    || eqb c 133
    || eqb c 160
    || eqb c 5760
    || (leb 8192 c && leb c 8202)
    || eqb c 8232
    || eqb c 8233
    || eqb c 8239
    || eqb c 8287
    || eqb c 12288

-- One more code in front of the first line.
abbrev pub onto_first : ℕ → List Codes → List Codes
onto_first c [] = (c ∷ []) ∷ []
onto_first c (line ∷ lines) = (c ∷ line) ∷ lines

-- `after_cr` says that the code before was a carriage return, which a line feed then belongs to.
unfoldable pub split_after : Bool → Codes → List Codes
split_after after_cr [] = []
split_after after_cr (c ∷ s) = elim (after_cr && eqb c 10) [
  | true ↦ split_after false s
  | false ↦ elim (is_break c) [
    | true ↦ [] ∷ split_after (eqb c 13) s
    | false ↦ onto_first c (split_after false s)
  ]
]

abbrev pub splitlines : Codes → List Codes
splitlines s = split_after false s

unfoldable pub lstrip : Codes → Codes
lstrip [] = []
lstrip (c ∷ s) = elim (is_space c) [ true ↦ lstrip s | false ↦ c ∷ s ]

abbrev strip_end : ℕ → Codes → Codes
strip_end c [] = if is_space c then [] else c ∷ []
strip_end c (d ∷ s) = c ∷ d ∷ s

unfoldable pub rstrip : Codes → Codes
rstrip [] = []
rstrip (c ∷ s) = strip_end c (rstrip s)

-- str.strip
unfoldable pub strip : Codes → Codes
strip s = rstrip (lstrip s)

module _ (p : Platform) where
  loaded : Codes → Option Json
  loaded [] = none
  loaded (c ∷ s) = p.loads_text (c ∷ s)

  -- The JSON value of a line, where it is not blank and json.loads does not raise JSONDecodeError.
  unfoldable pub line_value : Codes → Option Json
  unfolding loaded
  line_value line = loaded (strip line)

  abbrev pub with_value : Option Json → List Json → List Json
  with_value none entries = entries
  with_value (some entry) entries = entry ∷ entries

  -- The loop of `_read_all`.
  unfoldable pub line_values : List Codes → List Json
  line_values [] = []
  line_values (line ∷ lines) = with_value (line_value line) (line_values lines)
