-- ===== src/Prelude/Texts.antt =====
-- Python's `set` of texts, in which only membership is observed.
use mathlib.Core.Path.{◌≡◌, refl}
use mathlib.Core.Bool.{Bool, false, ◌||◌}
use mathlib.Core.List.{List, [], ◌∷◌}
use Prim.Native.String.{String}
use native.Mathlib.Omega.{arith}
use text.Mathlib.Text.{◌==◌}
use text.Mathlib.TextEquality.{eq_iff}
use yunohost_mcp.Prelude.Tests.{if◌then◌else◌}

-- k in s
unfoldable pub contains : List String → String → Bool
contains [] k = false
contains (j ∷ s) k = j == k || contains s k

-- s.add(k)
unfoldable pub add : List String → String → List String
add s k = k ∷ s

-- s.discard(k)
unfoldable pub discard : List String → String → List String
discard [] k = []
discard (j ∷ s) k = let rest = discard s k in if j == k then rest else j ∷ rest

pub contains-add :
    (s : List String) (k j : String) → contains (add s k) j ≡ (k == j || contains s j)
unfolding contains add
contains-add s k j = refl

pub contains-discard :
    (s : List String) (k j : String)
    → contains (discard s k) j ≡ (if k == j then false else contains s j)
unfolding contains discard
contains-discard [] k j = ground arith
contains-discard (i ∷ s) k j =
    ground (arith, contains-discard s k j, eq_iff i k, eq_iff i j, eq_iff k j)

pub contains-nil : (k : String) → contains [] k ≡ false
unfolding contains
contains-nil k = refl

pub ruleset set_laws = (contains-add, contains-discard, contains-nil)
