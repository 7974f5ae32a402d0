-- ===== src/Json.antt =====
-- JSON values as trees. `JSON.parse` and `JSON.stringify` are the engine's, a parameter of the
-- model (Js.Effects); this module has what JavaScript code does with a value that it holds.
pub mod Print
use plissken.Base.{Text, text_eq, Bool, Option, none, some, if◌then◌else◌}

-- A number is kept as the text that JavaScript prints for it.
mutual
  pub data Json : Type 0 where
    null : Json
    bool : Bool → Json
    num : Text → Json
    str : Text → Json
    arr : Items → Json
    obj : Fields → Json

  pub data Items : Type 0 where
    nil : Items
    cons : Json → Items → Items

  pub data Fields : Type 0 where
    end : Fields
    field : Text → Json → Fields → Fields

-- `object.k`, where `none` is `undefined`; of a key that stands twice the last value counts.
unfoldable pub field_of : Text → Fields → Option Json
field_of k end = none
field_of k (field j v fs) = elim (field_of k fs) [
  | some w ↦ some w
  | none ↦ if text_eq j k then some v else none
]
