-- ===== src/Api/CelValue.antt =====
-- The values of CEL expressions as pkg/cel/evaluator.go tells them apart: `ref.Val` of cel-go and the
-- Go values that `Value()` and the conversion give.
use git_change_operator.Base.{ℕ, Text, Bool}

-- `Other` stands for Go values of any other type.
mutual
  pub data CelValue (Other : Type 0) : Type 0 where
    string : Text → CelValue Other
    int double : ℕ → CelValue Other
    bool : Bool → CelValue Other
    null : CelValue Other
    complex : GoValue Other → CelValue Other

  pub data GoValue (Other : Type 0) : Type 0 where
    text_value : Text → GoValue Other
    int_value double_value : ℕ → GoValue Other
    bool_value : Bool → GoValue Other
    nil_value : GoValue Other
    map_value : Entries Other → GoValue Other
    slice_value : Items Other → GoValue Other
    cel_value : CelValue Other → GoValue Other
    other_value : Other → GoValue Other

  pub data Entries (Other : Type 0) : Type 0 where
    no_entries : Entries Other
    entry : Text → GoValue Other → Entries Other → Entries Other

  pub data Items (Other : Type 0) : Type 0 where
    no_items : Items Other
    item : GoValue Other → Items Other → Items Other
