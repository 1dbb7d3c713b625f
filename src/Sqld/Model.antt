-- ===== src/Sqld/Model.antt =====
-- ormx/sqld/model_manager.go: the registered models and GetValue.
pub mod Reading
pub mod Columns
use freego.Prelude.{
  ℕ, ℤ, pos, Text, String, Bool, true, false, ◌&&◌, List, [], ◌∷◌, ltb_ℤ, leb_ℤ, if◌then◌else◌,
}
pub use freego.Errors.{Arg, lit, text, num, Err, Result, done, failed}
use freego.Sqlc.Value.{Value, nil, int, str}
use freego.Sqlc.Object.{Object}

-- reflect.Kind, as far as GetValue and SetValue tell the kinds apart.
pub data FieldKind : Type 0 where
  string_kind int_kind int8_kind int16_kind int32_kind int64_kind : FieldKind
  uint_kind uint8_kind uint16_kind uint32_kind uint64_kind : FieldKind
  float32_kind float64_kind bool_kind slice_kind map_kind ptr_kind struct_kind : FieldKind
  other_kind : FieldKind

-- FieldElem, as far as the relational manager reads it. `is_known_slice` says that FieldType is
-- one of the slice types that GetValue and SetValue list, `is_bytes` that it is "[]uint8", and
-- `is_known_map` that it is one of the map types that SetValue lists.
pub record FieldElem : Type 0 where
  pub auto_id : Bool
  pub primary : Bool
  pub ignore : Bool
  pub is_date : Bool
  pub is_blob : Bool
  pub is_known_slice : Bool
  pub is_known_map : Bool
  pub is_bytes : Bool
  pub is_decimal : Bool
  pub field_name : Text
  pub field_json_name : Text
  pub field_kind : FieldKind
  pub field_offset : ℕ

-- MdlDriver; `is_object_id` says that PkType is "primitive.ObjectID".
pub record MdlDriver : Type 0 where
  pub table_name : Text
  pub to_mongo : Bool
  pub pk_offset : ℕ
  pub pk_kind : FieldKind
  pub is_object_id : Bool
  pub pk_name : Text
  pub auto_id : Bool
  pub field_elem : List FieldElem

-- The Go runtime, as far as the managers call it: the time formats, JSON, floats and decimals both
-- ways, the clock and the ids of the snowflake node, in the order in which they are drawn.
-- `unmarshal` reads a new value of the field's type.
pub record Runtime : Type 0 where
  pub format_time : ℤ → Text
  pub now_text : Text
  pub marshal : Value → Result Text
  pub decimal_string : Value → Text
  pub read_time : Text → Result ℤ
  pub unmarshal : FieldElem → Text → Result Value
  pub parse_decimal : Text → Result Value
  pub parse_float64 : Text → Result Value
  pub to_float32 : Value → Value
  pub bool_value : Bool → Value
  pub next_iid : ℕ → ℤ
  pub next_sid : ℕ → Text

-- A typed read through a pointer; the value at an Int64 field is an `int`, at a String field a
-- `str`.
abbrev pub get_int64 : Value → ℤ
get_int64 (int z) = z
get_int64 _ = pos 0

abbrev pub get_string : Value → Text
get_string (str t) = t
get_string _ = []

-- `fval == ""`
abbrev pub is_blank : Value → Bool
is_blank (str []) = true
is_blank _ = false

text_or_nil : Result Text → Result Value
text_or_nil (failed e) = failed e
text_or_nil (done []) = done nil
text_or_nil (done t) = done (str t)

-- getValueOfMapStr, and the test of its result: an empty text is stored as NULL.
map_value : Runtime → Value → Result Value
unfolding text_or_nil
map_value rt nil = done nil
map_value rt v = text_or_nil (rt.marshal v)

-- getValueJsonStr
json_value : Runtime → Value → Result Value
json_value rt v = elim (rt.marshal v) [ failed e ↦ failed e | done t ↦ done (str t) ]

-- An Int or Int32 field that holds a date is written as a text, and a negative one as time 0.
date_text : Runtime → ℤ → Value
date_text rt z = str (rt.format_time (if ltb_ℤ z (pos 0) then pos 0 else z))

get_kind : Runtime → FieldElem → Value → FieldKind → Result Value
unfolding map_value json_value date_text
get_kind rt e v int_kind = done (if e.is_date then date_text rt (get_int64 v) else v)
get_kind rt e v int32_kind = done (if e.is_date then date_text rt (get_int64 v) else v)
get_kind rt e v int64_kind = done (
    if e.is_date
    then (if leb_ℤ (get_int64 v) (pos 0) then str [] else str (rt.format_time (get_int64 v)))
    else v)
get_kind rt e v slice_kind =
    if e.is_known_slice
    then (if e.is_bytes && e.is_blob then done v else json_value rt v)
    else done nil
get_kind rt e v map_kind = map_value rt v
get_kind rt e v ptr_kind = map_value rt v
get_kind rt e v struct_kind =
    if e.is_decimal
    then done (str (rt.decimal_string v))
    else failed (lit "please use pointer type: " ∷ text e.field_name ∷ [])
get_kind rt e v other_kind = done nil
get_kind rt e v string_kind = done v
get_kind rt e v _ = done v

-- GetValue
unfoldable pub get_value : Runtime → Object → FieldElem → Result Value
unfolding get_kind
get_value rt o e = get_kind rt e (o.field e.field_offset) e.field_kind
