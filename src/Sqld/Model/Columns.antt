-- ===== src/Sqld/Model/Columns.antt =====
-- SetValue reads what GetValue writes of a whole number.
use freego.Prelude.{
  ◌-◌, ◌^◌, ℤ, pos, negsuc, ◌≤ℤ◌, format_int, false, some, ◌≡◌, refl, ap, ◌∙◌, arith,
}
use freego.Errors.{done}
use freego.Reflect.{
  convert, new_int64, new_int, new_int8, new_int16, new_int32, new_uint16, new_uint32, new_uint64,
  to_signed, to_unsigned,
}
use freego.Reflect.Digits.{new_int64-format_int}
use freego.Sqlc.Value.{int}
use freego.Sqlc.Object.{Object, set_field}
use freego.Sqld.Model.{
  FieldKind, int_kind, int8_kind, int16_kind, int32_kind, int64_kind, uint_kind, uint16_kind,
  uint32_kind, uint64_kind, FieldElem, Runtime, get_kind, get_value,
}
use freego.Sqld.Model.Reading.{set_kind, set_value, write_int}

abbrev pub Between : ℤ → ℤ → ℤ → Type 0
Between lo hi z = (lo ≤ℤ z) × (z ≤ℤ hi)

-- The field can hold the number, and NewInt64 can read it. A Uint8 field is left out: SetValue
-- writes two bytes there.
abbrev pub Holds : FieldKind → ℤ → Type 0
Holds int_kind z = Between (negsuc (2 ^ 63 - 1)) (pos (2 ^ 63 - 1)) z
Holds int8_kind z = Between (negsuc (2 ^ 7 - 1)) (pos (2 ^ 7 - 1)) z
Holds int16_kind z = Between (negsuc (2 ^ 15 - 1)) (pos (2 ^ 15 - 1)) z
Holds int32_kind z = Between (negsuc (2 ^ 31 - 1)) (pos (2 ^ 31 - 1)) z
Holds int64_kind z = Between (negsuc (2 ^ 63 - 1)) (pos (2 ^ 63 - 1)) z
Holds uint_kind z = Between (pos 0) (pos (2 ^ 63 - 1)) z
Holds uint16_kind z = Between (pos 0) (pos (2 ^ 16 - 1)) z
Holds uint32_kind z = Between (pos 0) (pos (2 ^ 32 - 1)) z
Holds uint64_kind z = Between (pos 0) (pos (2 ^ 63 - 1)) z
Holds _ z = ⊥

to_signed-8 : (z : ℤ) → Holds int8_kind z → to_signed 8 z ≡ z
unfolding to_signed
to_signed-8 (pos n) h = ground arith
to_signed-8 (negsuc n) h = ground arith

to_signed-16 : (z : ℤ) → Holds int16_kind z → to_signed 16 z ≡ z
unfolding to_signed
to_signed-16 (pos n) h = ground arith
to_signed-16 (negsuc n) h = ground arith

to_signed-32 : (z : ℤ) → Holds int32_kind z → to_signed 32 z ≡ z
unfolding to_signed
to_signed-32 (pos n) h = ground arith
to_signed-32 (negsuc n) h = ground arith

to_unsigned-16 : (z : ℤ) → Holds uint16_kind z → to_unsigned 16 z ≡ z
unfolding to_unsigned
to_unsigned-16 (pos n) h = ground arith
to_unsigned-16 (negsuc n) h = ground arith

to_unsigned-32 : (z : ℤ) → Holds uint32_kind z → to_unsigned 32 z ≡ z
unfolding to_unsigned
to_unsigned-32 (pos n) h = ground arith
to_unsigned-32 (negsuc n) h = ground arith

to_unsigned-64 : (z : ℤ) → Holds uint64_kind z → to_unsigned 64 z ≡ z
unfolding to_unsigned
to_unsigned-64 (pos n) h = ground arith
to_unsigned-64 (negsuc n) h = ground arith

-- The text of an int64 is converted as the number.
converted :
    (f : ℤ → ℤ) (z : ℤ)
    → Holds int64_kind z
    → f z ≡ z
    → convert f (new_int64 (format_int z)) ≡ done z
converted f z h e = ap (convert f) (new_int64-format_int z h.0 h.1) ∙ ap done e

module _ (rt : Runtime) (o : Object) (e : FieldElem) (z : ℤ) (plain : e.is_date ≡ false) where
  read_back :
      (k : FieldKind)
      → Holds k z
      → (get_kind rt e (int z) k ≡ done (int z))
        × (set_kind rt o e (format_int z) k ≡ done (set_field o e.field_offset (int z)))
  unfolding get_kind set_kind new_int new_int8 new_int16 new_int32 new_uint16 new_uint32 new_uint64
      write_int
  read_back int_kind h =
      (rw plain refl, rw plain (ap (write_int o e) (new_int64-format_int z h.0 h.1)))
  read_back int64_kind h =
      (rw plain refl, rw plain (ap (write_int o e) (new_int64-format_int z h.0 h.1)))
  read_back int32_kind h = (
    rw plain refl,
    rw plain (ap (write_int o e) (converted (to_signed 32) z (omega arith) (to_signed-32 z h))),
  )
  read_back int8_kind h =
      (refl, ap (write_int o e) (converted (to_signed 8) z (omega arith) (to_signed-8 z h)))
  read_back int16_kind h =
      (refl, ap (write_int o e) (converted (to_signed 16) z (omega arith) (to_signed-16 z h)))
  read_back uint_kind h =
      (refl, ap (write_int o e) (converted (to_unsigned 64) z (omega arith) (to_unsigned-64 z h)))
  read_back uint16_kind h =
      (refl, ap (write_int o e) (converted (to_unsigned 16) z (omega arith) (to_unsigned-16 z h)))
  read_back uint32_kind h =
      (refl, ap (write_int o e) (converted (to_unsigned 32) z (omega arith) (to_unsigned-32 z h)))
  read_back uint64_kind h =
      (refl, ap (write_int o e) (converted (to_unsigned 64) z (omega arith) (to_unsigned-64 z h)))
  read_back _ h = absurd h

-- A whole number that a field holds and that is no date comes back: GetValue gives the number to
-- the database, and SetValue reads it from its decimal text.
pub set_value-get_value :
    (rt : Runtime) (o p : Object) (e : FieldElem) (z : ℤ)
    → o.field e.field_offset ≡ int z
    → e.is_date ≡ false
    → Holds e.field_kind z
    → (get_value rt o e ≡ done (int z))
      × (set_value rt p e (some (format_int z)) ≡ done (set_field p e.field_offset (int z)))
unfolding get_value set_value
set_value-get_value rt o p e z v plain h =
    let r = read_back rt p e z plain e.field_kind h in
    (ap (λ x. get_kind rt e x e.field_kind) v ∙ r.0, r.1)
