-- ===== src/Adapters/Value.antt =====
-- `serde_json::Value` as the adapters use it (crates/metrune-core/src/adapters/common.rs). A number
-- is an unsigned one, a negative one by its size, or a float.
use metrune.Prelude.{ℕ, Bool, false, Option, none, some, List, [], ◌∷◌, if◌then◌else◌}
use metrune.Prelude.Float.{Float}
use metrune.Prelude.Text.{Text, text_eq}

pub data Number (F : Type 0) : Type 0 where
  unsigned negative : ℕ → Number F
  float : F → Number F

mutual
  pub data Value (F : Type 0) : Type 0 where
    null : Value F
    bool : Bool → Value F
    number : Number F → Value F
    string : Text → Value F
    array : Items F → Value F
    object : Fields F → Value F

  pub data Items (F : Type 0) : Type 0 where
    no_items : Items F
    item : Value F → Items F → Items F

  pub data Fields (F : Type 0) : Type 0 where
    no_fields : Fields F
    field : Text → Value F → Fields F → Fields F

module _ {F : Type 0} where
  abbrev pub field_at : Fields F → Text → Option (Value F)
  field_at no_fields key = none
  field_at (field name value fields) key =
      let rest = field_at fields key in if text_eq name key then some value else rest

  -- `value.get(key)`
  abbrev pub get_key : Value F → Text → Option (Value F)
  get_key (object fields) key = field_at fields key
  get_key _ key = none

  -- `try_fold` over the keys of a path.
  abbrev pub at_path : Value F → List Text → Option (Value F)
  at_path value [] = some value
  at_path value (key ∷ path) = elim (get_key value key) [
    | none ↦ none
    | some inner ↦ at_path inner path
  ]

  abbrev pub or_value : Option (Value F) → Option (Value F) → Option (Value F)
  or_value none second = second
  or_value (some value) second = some value

  -- The first path that leads to a value.
  unfoldable pub value_at : Value F → List (List Text) → Option (Value F)
  value_at value [] = none
  value_at value (path ∷ paths) = or_value (at_path value path) (value_at value paths)

  abbrev pub as_str : Option (Value F) → Option Text
  as_str (some (string text)) = some text
  as_str _ = none

  abbrev pub items_list : Items F → List (Value F)
  items_list no_items = []
  items_list (item value items) = value ∷ items_list items

  -- The elements of an array, and none of anything else.
  abbrev pub elements : Option (Value F) → List (Value F)
  elements (some (array items)) = items_list items
  elements _ = []

  -- `as_u64`, or else `as_i64` with what is negative as 0, or else 0.
  abbrev pub as_count : Option (Value F) → ℕ
  as_count (some (number (unsigned n))) = n
  as_count _ = 0

  abbrev pub is_true : Value F → Bool
  is_true (bool b) = b
  is_true _ = false

module _ {F : Type 0} ⦃o : Float F⦄ where
  -- `as_f64`
  abbrev pub as_f64 : Option (Value F) → Option F
  as_f64 (some (number (unsigned n))) = some (o.of_u64 n)
  as_f64 (some (number (negative n))) = some (o.sub_f o.zero_f (o.of_u64 n))
  as_f64 (some (number (float x))) = some x
  as_f64 _ = none
