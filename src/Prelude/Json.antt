-- ===== src/Prelude/Json.antt =====
-- JSON values: a tool's arguments, a tool's result, the content of a message.
use mathlib.Core.Bool.{Bool}
use mathlib.Core.Option.{Option, none, some}
use Prim.Native.String.{String}
use text.Mathlib.Text.{◌==◌}
use yunohost_mcp.Prelude.Tests.{if◌then◌else◌}
use yunohost_mcp.Prelude.Int.{ℤ}

mutual
  pub data Json : Type 0 where
    null : Json
    bool : Bool → Json
    int : ℤ → Json
    str : String → Json
    arr : Items → Json
    obj : Fields → Json

  pub data Items : Type 0 where
    nil : Items
    cons : Json → Items → Items

  -- the entries of an object, in order
  pub data Fields : Type 0 where
    end : Fields
    field : String → Json → Fields → Fields

-- arguments.get(key)
unfoldable pub get_field : Fields → String → Option Json
get_field end k = none
get_field (field j v fs) k = if j == k then some v else get_field fs k
