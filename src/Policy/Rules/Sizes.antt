-- ===== src/Policy/Rules/Sizes.antt =====
-- `_parse_size` and `_parse_duration` of src/yunohost_mcp/policy/rules.py, over the code points of an
-- ASCII text. The pattern is `\s*(\d+)\s*([A-Za-z]*)\s*`: its parts are disjoint sets of characters,
-- so that each repetition takes all it can.
use Prim.Native.Char.{code}
use yunohost_mcp.Prelude.{
  ℕ, ◌+◌, ◌-◌, ◌*◌, ◌^◌, String, Bool, true, false, ◌&&◌, ◌||◌, Option, none, some, List, [], ◌∷◌,
  map, leb, eqb, if◌then◌else◌,
}
use yunohost_mcp.Prelude.Result.{Result, ok, err}

-- `PolicyConfigError`, by its messages
pub data PolicyConfigError : Type 0 where
  not_quantity unknown_unit invalid_toml : PolicyConfigError

abbrev pub codes : String → List ℕ
codes String.[] = []
codes (String.◌∷◌ c s) = code c ∷ codes s

abbrev pub is_space : ℕ → Bool
is_space c = (leb 9 c && leb c 13) || (leb 28 c && leb c 32)

abbrev pub is_digit : ℕ → Bool
is_digit c = leb b'0' c && leb c b'9'

abbrev pub is_lower : ℕ → Bool
is_lower c = leb b'a' c && leb c b'z'

abbrev pub is_upper : ℕ → Bool
is_upper c = leb b'A' c && leb c b'Z'

abbrev pub is_letter : ℕ → Bool
is_letter c = is_lower c || is_upper c

-- The longest run at the front whose characters pass, and the rest.
unfoldable pub span : (ℕ → Bool) → List ℕ → List ℕ × List ℕ
span f [] = ([], [])
span f (c ∷ s) = let (run, rest) = span f s in if f c then (c ∷ run, rest) else ([], c ∷ s)

-- int(digits)
unfoldable pub number_from : ℕ → List ℕ → ℕ
number_from n [] = n
number_from n (c ∷ s) = number_from (n * 10 + (c - 48)) s

-- The two groups of the pattern, where the whole text matches.
ends : ℕ → List ℕ → List ℕ → Option (ℕ × List ℕ)
ends n unit [] = some (n, unit)
ends n unit (c ∷ s) = none

after_digits : List ℕ → List ℕ → Option (ℕ × List ℕ)
unfolding ends span number_from
after_digits [] s = none
after_digits (d ∷ ds) s =
    let (unit, s') = span is_letter (span is_space s).1 in
    ends (number_from 0 (d ∷ ds)) unit (span is_space s').1

unfoldable pub groups : List ℕ → Option (ℕ × List ℕ)
unfolding after_digits
groups s = let (digits, s') = span is_digit (span is_space s).1 in after_digits digits s'

unfoldable pub same : List ℕ → List ℕ → Bool
same [] [] = true
same (a ∷ s) (b ∷ t) = eqb a b && same s t
same _ _ = false

abbrev pub to_upper : ℕ → ℕ
to_upper c = if is_lower c then c - 32 else c

abbrev pub to_lower : ℕ → ℕ
to_lower c = if is_upper c then c + 32 else c

-- _SIZE_UNITS[unit.upper()]
unfoldable pub size_unit : List ℕ → Option ℕ
unfolding same
size_unit unit =
    let u = map to_upper unit in
    if same u []
    then some 1
    else if same u (codes "B")
    then some 1
    else if same u (codes "KB")
    then some 1000
    else if same u (codes "MB")
    then some (1000 ^ 2)
    else if same u (codes "GB")
    then some (1000 ^ 3)
    else if same u (codes "TB")
    then some (1000 ^ 4)
    else none

-- _DURATION_UNITS[unit.lower() or "s"]
unfoldable pub duration_unit : List ℕ → Option ℕ
unfolding same
duration_unit unit =
    let u = map to_lower unit in
    if same u []
    then some 1
    else if same u (codes "s")
    then some 1
    else if same u (codes "m")
    then some 60
    else if same u (codes "h")
    then some 3600
    else if same u (codes "d")
    then some 86400
    else none

with_unit : ℕ → Option ℕ → Result PolicyConfigError ℕ
with_unit n none = err unknown_unit
with_unit n (some multiplier) = ok (n * multiplier)

measured : (List ℕ → Option ℕ) → Option (ℕ × List ℕ) → Result PolicyConfigError ℕ
unfolding with_unit
measured units none = err not_quantity
measured units (some (n, unit)) = with_unit n (units unit)

unfoldable pub parse_size : String → Result PolicyConfigError ℕ
unfolding measured groups size_unit
parse_size value = measured size_unit (groups (codes value))

unfoldable pub parse_duration : String → Result PolicyConfigError ℕ
unfolding measured groups duration_unit
parse_duration value = measured duration_unit (groups (codes value))
