-- ===== src/Base/Json.antt =====
-- The values of a `dict[str, Any]`. A number is kept as its literal.
use mathlib.Core.Bool.{Bool}
use mathlib.Core.Option.{Option, none, some}
use mathlib.Core.List.{List, [], ◌∷◌}
use text.Mathlib.Text.{◌==◌}
use alpilab_ai.Base.Tests.{if◌then◌else◌}
use Prim.Native.String.{String}

mutual
  pub data Json : Type 0 where
    null : Json
    boolean : Bool → Json
    number : String → Json
    string : String → Json
    array : Items → Json
    object : Fields → Json

  pub data Items : Type 0 where
    nil : Items
    cons : Json → Items → Items

  pub data Fields : Type 0 where
    end : Fields
    field : String → Json → Fields → Fields

-- `d.keys()`
unfoldable pub keys : Fields → List String
keys end = []
keys (field k v rest) = k ∷ keys rest

-- `d.get(k)`
unfoldable pub lookup : String → Fields → Option Json
lookup k end = none
lookup k (field j v rest) = if j == k then some v else lookup k rest
