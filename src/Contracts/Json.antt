-- ===== src/Contracts/Json.antt =====
-- The values that Python's `json` module reads and writes.
use sisyphus_harness.Prelude.{String, Bool}
use sisyphus_harness.Prelude.Float.{ℤ, Float}

mutual
  pub data Json : Type 0 where
    null : Json
    boolean : Bool → Json
    integer : ℤ → Json
    number : Float → Json
    text : String → Json
    array : Items → Json
    object : Fields → Json

  pub data Items : Type 0 where
    nil : Items
    item : Json → Items → Items

  pub data Fields : Type 0 where
    end : Fields
    field : String → Json → Fields → Fields
