-- ===== src/Values.antt =====
-- Values of a JSON shape: what a `structpb.Struct`, a Go `map[string]any` and a Helm values map hold.
-- A float64 is given by its bit pattern; a Go map that is nil is told apart from an empty one.
use cofidectl.Common.{ℕ, String, Bool}

mutual
  pub data Value : Type 0 where
    null : Value
    bool : Bool → Value
    num : ℕ → Value
    text : String → Value
    list : Items → Value
    nil_map : Value
    object : Fields → Value

  pub data Items : Type 0 where
    no_items : Items
    item : Value → Items → Items

  pub data Fields : Type 0 where
    no_fields : Fields
    field : String → Value → Fields → Fields
