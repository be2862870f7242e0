-- ===== src/Domain/Json.antt =====
-- The values of Go's `map[string]any` as encoding/json decodes them. A number is its literal.
use mathlib.Core.Bool.{Bool}
use agent_console.Prelude.{Str}

mutual
  -- The entries of an object, in the order in which they stand.
  pub data Fields : Type 0 where
    no_fields : Fields
    field : Str → Value → Fields → Fields

  pub data Value : Type 0 where
    null : Value
    bool : Bool → Value
    text number : Str → Value
    object : Fields → Value
    array : Items → Value

  pub data Items : Type 0 where
    no_items : Items
    item : Value → Items → Items
