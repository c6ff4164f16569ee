-- ===== src/Snapshot/Json.antt =====
-- Values of JSON, as the snapshots store them.
use stock_content.Prelude.{String, Option, none, some, List, [], ◌∷◌, if◌then◌else◌, ◌==◌}

mutual
  -- a value of JSON; numbers and truth values are literals
  pub data Json : Type 0 where
    null : Json
    text literal : String → Json
    array : Items → Json
    object : Fields → Json

  pub data Items : Type 0 where
    empty : Items
    item : Json → Items → Items

  pub data Fields : Type 0 where
    no_fields : Fields
    field : String → Json → Fields → Fields

abbrev pub field_get : Fields → String → Option Json
field_get no_fields k = none
field_get (field j v d) k = if j == k then some v else field_get d k

abbrev pub field_set : Fields → String → Json → Fields
field_set no_fields k v = field k v no_fields
field_set (field j w d) k v = if j == k then field j v d else field j w (field_set d k v)

abbrev pub fields_of : List (String × Json) → Fields
fields_of [] = no_fields
fields_of ((k, v) ∷ l) = field k v (fields_of l)
