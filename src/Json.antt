-- ===== src/Json.antt =====
-- The values of `serde_json::Value`, as far as the runtime builds and reads them.
use open_pincery.Prelude.{String, Bool, Option, none, some, if◌then◌else◌, ◌==ˢ◌}

-- A number is kept by its printed text.
mutual
  pub data Json : Type 0 where
    null : Json
    bool : Bool → Json
    num : String → Json
    str : String → Json
    arr : Items → Json
    obj : Fields → Json

  pub data Items : Type 0 where
    nil : Items
    cons : Json → Items → Items

  pub data Fields : Type 0 where
    end : Fields
    field : String → Json → Fields → Fields

-- `Value::get` on an object.
unfoldable pub get_field : String → Fields → Option Json
get_field k end = none
get_field k (field j v rest) = if j ==ˢ k then some v else get_field k rest
