-- ===== src/Reflect.antt =====
-- utils/reflect_value.go: numbers read from the bytes of a column.
pub mod Digits
use freego.Prelude.{
  ℕ, ◌+◌, ◌-◌, ◌*◌, ◌%◌, ◌^◌, ℤ, pos, negsuc, pos_part, neg_part, sub_ℕ, ltb, leb, ◌==◌, Text, Bool,
  ◌&&◌, Option, none, some, [], ◌∷◌, if◌then◌else◌,
}
use freego.Errors.{lit, text, Err, Result, done, failed}

-- The loop of strconv.ParseUint in base 10.
unfoldable pub parse_digits : ℕ → Text → Option ℕ
parse_digits n [] = some n
parse_digits n (c ∷ s) =
    if leb b'0' c && leb c b'9' then parse_digits (n * 10 + (c - 48)) s else none

-- strconv.ParseUint in base 10, without its bound.
unfoldable pub parse_uint : Text → Option ℕ
unfolding parse_digits
parse_uint [] = none
parse_uint (c ∷ s) = parse_digits 0 (c ∷ s)

-- The error of strconv.ParseInt, of syntax or of range.
abbrev pub parse_error : Text → Err
parse_error s = lit "strconv.ParseInt: parsing " ∷ text s ∷ []

unfoldable pub not_negative : Text → Option ℕ → Result ℤ
not_negative s none = failed (parse_error s)
not_negative s (some n) = if ltb n (2 ^ 63) then done (pos n) else failed (parse_error s)

unfoldable pub negative : Text → Option ℕ → Result ℤ
negative s none = failed (parse_error s)
negative s (some n) = if leb n (2 ^ 63) then done (sub_ℕ 0 n) else failed (parse_error s)

-- strconv.ParseInt(s, 10, 64), which is NewInt64.
unfoldable pub new_int64 : Text → Result ℤ
unfolding parse_uint not_negative negative
new_int64 [] = failed (parse_error [])
new_int64 (c ∷ s) =
    if c == b'-'
    then negative (c ∷ s) (parse_uint s)
    else not_negative (c ∷ s) (parse_uint (if c == b'+' then s else c ∷ s))

-- The low w bits of a conversion to an unsigned type.
unfoldable pub low_bits : ℕ → ℤ → ℕ
low_bits w z = (pos_part z + (2 ^ w - neg_part z % 2 ^ w)) % 2 ^ w

-- A conversion to a signed type of w bits.
unfoldable pub to_signed : ℕ → ℤ → ℤ
unfolding low_bits
to_signed w z =
    let u = low_bits w z in if ltb u (2 ^ (w - 1)) then pos u else negsuc (2 ^ w - u - 1)

unfoldable pub to_unsigned : ℕ → ℤ → ℤ
unfolding low_bits
to_unsigned w z = pos (low_bits w z)

abbrev pub convert : (ℤ → ℤ) → Result ℤ → Result ℤ
convert f (failed e) = failed e
convert f (done z) = done (f z)

-- NewInt, NewInt8, NewInt16 and NewInt32: int is 64 bits wide, and the others keep the low bits.
unfoldable pub new_int : Text → Result ℤ
unfolding new_int64
new_int s = new_int64 s

unfoldable pub new_int8 : Text → Result ℤ
unfolding new_int64 to_signed
new_int8 s = convert (to_signed 8) (new_int64 s)

unfoldable pub new_int16 : Text → Result ℤ
unfolding new_int64 to_signed
new_int16 s = convert (to_signed 16) (new_int64 s)

unfoldable pub new_int32 : Text → Result ℤ
unfolding new_int64 to_signed
new_int32 s = convert (to_signed 32) (new_int64 s)

-- NewUint16, NewUint32 and NewUint64
unfoldable pub new_uint16 : Text → Result ℤ
unfolding new_int64 to_unsigned
new_uint16 s = convert (to_unsigned 16) (new_int64 s)

unfoldable pub new_uint32 : Text → Result ℤ
unfolding new_int64 to_unsigned
new_uint32 s = convert (to_unsigned 32) (new_int64 s)

unfoldable pub new_uint64 : Text → Result ℤ
unfolding new_int64 to_unsigned
new_uint64 s = convert (to_unsigned 64) (new_int64 s)
