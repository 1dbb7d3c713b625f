-- ===== src/Sqld/Model/Reading.antt =====
-- ormx/sqld/model_manager.go: SetValue.
use freego.Prelude.{
  suc, ◌/◌, ◌%◌, ℤ, pos, pos_part, Text, codes, text_eq, ◌&&◌, Option, none, some, [], ◌∷◌,
  if◌then◌else◌,
}
use freego.Errors.{Result, done, failed}
use freego.Reflect.{
  new_int, new_int8, new_int16, new_int32, new_int64, new_uint16, new_uint32, new_uint64, to_signed,
}
use freego.Sqlc.Value.{Value, int, str}
use freego.Sqlc.Object.{Object, set_field}
use freego.Sqld.Model.{
  FieldKind, string_kind, int_kind, int8_kind, int16_kind, int32_kind, int64_kind, uint_kind,
  uint8_kind, uint16_kind, uint32_kind, uint64_kind, float32_kind, float64_kind, bool_kind,
  slice_kind, map_kind, ptr_kind, struct_kind, other_kind, FieldElem, Runtime,
}

-- A column of a row: NULL, or its bytes.
abbrev pub Cell : Type 0
Cell = Option Text

-- NewString, which reads a nil slice as an empty text.
abbrev pub new_string : Cell → Text
new_string none = []
new_string (some b) = b

-- `utils.SetX(ptr, ret)` behind a conversion that may fail.
unfoldable pub write : Object → FieldElem → Result Value → Result Object
write o e (failed err) = failed err
write o e (done v) = done (set_field o e.field_offset v)

unfoldable pub write_int : Object → FieldElem → Result ℤ → Result Object
write_int o e (failed err) = failed err
write_int o e (done z) = done (set_field o e.field_offset (int z))

-- A date: an empty column leaves the field as it is.
unfoldable pub write_date : Runtime → Object → FieldElem → (ℤ → ℤ) → Text → Result Object
write_date rt o e f [] = done o
write_date rt o e f (c ∷ b) = elim (rt.read_time (c ∷ b)) [
  | failed err ↦ failed err
  | done z ↦ done (set_field o e.field_offset (int (f z)))
]

-- A slice, a map or a pointer, by getValueJsonObj and JsonUnmarshal.
unfoldable pub write_json : Runtime → Object → FieldElem → Text → Result Object
unfolding write
write_json rt o e [] = done o
write_json rt o e (c ∷ b) = write o e (rt.unmarshal e (c ∷ b))

-- A blob, as it is.
unfoldable pub write_blob : Object → FieldElem → Text → Result Object
write_blob o e [] = done o
write_blob o e (c ∷ b) = done (set_field o e.field_offset (str (c ∷ b)))

-- SetUint16 through the pointer to a Uint8 field: the low byte goes to the field, and the high one
-- to the byte behind it.
unfoldable pub write_two_bytes : Object → FieldElem → Result ℤ → Result Object
write_two_bytes o e (failed err) = failed err
write_two_bytes o e (done z) = done (
    set_field (set_field o e.field_offset (int (pos (pos_part z % 256)))) (suc e.field_offset)
      (int (pos (pos_part z / 256))))

unfoldable pub write_decimal : Runtime → Object → FieldElem → Text → Result Object
unfolding write
write_decimal rt o e [] = write o e (rt.parse_decimal (codes "0"))
write_decimal rt o e (c ∷ b) = write o e (rt.parse_decimal (c ∷ b))

abbrev narrow : (Value → Value) → Result Value → Result Value
narrow f (failed err) = failed err
narrow f (done v) = done (f v)

-- The slices: a type that is not listed is passed over.
unfoldable pub set_slice : Runtime → Object → FieldElem → Text → Result Object
unfolding write_json write_blob
set_slice rt o e b =
    if e.is_known_slice
    then (if e.is_bytes && e.is_blob then write_blob o e b else write_json rt o e b)
    else done o

-- The maps: a type that is not listed is passed over.
unfoldable pub set_map : Runtime → Object → FieldElem → Text → Result Object
unfolding write_json
set_map rt o e b = if e.is_known_map then write_json rt o e b else done o

-- The `switch elem.FieldKind`.
unfoldable pub set_kind : Runtime → Object → FieldElem → Text → FieldKind → Result Object
unfolding write write_int write_date write_json write_two_bytes write_decimal set_slice set_map
set_kind rt o e b string_kind = done (set_field o e.field_offset (str b))
set_kind rt o e b int_kind =
    if e.is_date then write_date rt o e (λ z. z) b else write_int o e (new_int b)
set_kind rt o e b int8_kind = write_int o e (new_int8 b)
set_kind rt o e b int16_kind = write_int o e (new_int16 b)
set_kind rt o e b int32_kind =
    if e.is_date then write_date rt o e (to_signed 32) b else write_int o e (new_int32 b)
set_kind rt o e b int64_kind =
    if e.is_date then write_date rt o e (λ z. z) b else write_int o e (new_int64 b)
set_kind rt o e b float32_kind = write o e (narrow rt.to_float32 (rt.parse_float64 b))
set_kind rt o e b float64_kind = write o e (rt.parse_float64 b)
set_kind rt o e b bool_kind =
    done (set_field o e.field_offset (rt.bool_value (text_eq b (codes "true"))))
set_kind rt o e b uint_kind = write_int o e (new_uint64 b)
set_kind rt o e b uint8_kind = write_two_bytes o e (new_uint16 b)
set_kind rt o e b uint16_kind = write_int o e (new_uint16 b)
set_kind rt o e b uint32_kind = write_int o e (new_uint32 b)
set_kind rt o e b uint64_kind = write_int o e (new_uint64 b)
set_kind rt o e b struct_kind = if e.is_decimal then write_decimal rt o e b else done o
set_kind rt o e b slice_kind = set_slice rt o e b
set_kind rt o e b map_kind = set_map rt o e b
set_kind rt o e b ptr_kind = write_json rt o e b
set_kind rt o e b other_kind = done o

-- SetValue
unfoldable pub set_value : Runtime → Object → FieldElem → Cell → Result Object
unfolding set_kind
set_value rt o e c = set_kind rt o e (new_string c) e.field_kind
