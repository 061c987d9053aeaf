-- ===== src/Prelude/Json.antt =====
-- The values of JSON, with a type of numbers.
use Prim.Native.String.{String}
use mathlib.Core.Bool.{Bool}
use mathlib.Core.Option.{Option, none, some}
use package.text.Mathlib.Text.{◌==◌ as str_eq}
use alphaping.Prelude.Tests.{if◌then◌else◌}

-- A value that JSON.parse gives.
mutual
  pub data Value (N : Type 0) : Type 0 where
    null : Value N
    boolean : Bool → Value N
    number : N → Value N
    text : String → Value N
    array : Items N → Value N
    object : Fields N → Value N

  pub data Items (N : Type 0) : Type 0 where
    nil : Items N
    cons : Value N → Items N → Items N

  pub data Fields (N : Type 0) : Type 0 where
    end : Fields N
    field : String → Value N → Fields N → Fields N

-- `object[key]`: the own field, or what an object inherits. The inherited methods are equal to no
-- value of JSON; the prototype is an object without entries.
unfoldable pub get_field : {N : Type 0} → Fields N → String → Option (Value N)
get_field end key = if str_eq key "__proto__" then some (object end) else none
get_field (field name value fields) key =
    let rest = get_field fields key in if str_eq name key then some value else rest
