-- ===== src/Sqld/Save/Entries.antt =====
-- What stands for a field in the statement of Save: its column and its argument.
use freego.Prelude.{
  ℕ, pos, eq_ℤ, Text, codes, ◌≡◌, ◌⊎◌, Bool, true, false, ◌&&◌, List, [], ◌∷◌, ◌++◌, if◌then◌else◌,
}
use freego.Sqlc.Value.{Value, int, str}
use freego.Sqlc.Object.{Object, set_field}
use freego.Sqld.Where.Clauses.{flat}
use freego.Sqld.Model.{
  Err, done, failed, FieldKind, int64_kind, string_kind, FieldElem, MdlDriver, get_int64,
  get_string, get_value, is_blank,
}
use freego.Sqld.Delete.{is_empty}
use freego.Sqld.Exec.{Env}

-- The object, with other values in fields that are primary keys.
pub data Rekeyed (o : Object) : Object → Type 0 where
  same : Rekeyed o o
  keyed :
      {p : Object} (e : FieldElem) (v : Value)
      → e.primary ≡ true
      → Rekeyed o p
      → Rekeyed o (set_field p e.field_offset v)

-- A column of a row, with its argument.
abbrev pub Entry : Type 0
Entry = FieldElem × Value

-- The argument of a key: the id that the object has, or a number that the runtime draws; for an
-- object without a text for its id it is the empty text.
abbrev pub IsKey : Env → MdlDriver → Object → FieldKind → Value → Type 0
IsKey env obv p int64_kind v =
    (eq_ℤ (get_int64 (p.field obv.pk_offset)) (pos 0) ≡ false)
      × (v ≡ int (get_int64 (p.field obv.pk_offset)))
    ⊎ ((n : ℕ) × (v ≡ int (env.runtime.next_iid n)))
IsKey env obv p string_kind v =
    (is_empty (get_string (p.field obv.pk_offset)) ≡ false)
      × (v ≡ str (get_string (p.field obv.pk_offset)))
    ⊎ (is_empty (get_string (p.field obv.pk_offset)) ≡ true) × (v ≡ str [])
IsKey env obv p _ v = ⊥

-- The argument of a field: that of a key, or else the value of the field, or the present time for a
-- date without a value.
abbrev pub IsEntry : Env → MdlDriver → Object → FieldElem → Value → Type 0
IsEntry env obv o e v =
    (e.ignore ≡ false)
    × ((e.primary ≡ true) × ((p : Object) × Rekeyed o p × IsKey env obv p e.field_kind v)
        ⊎ ((p : Object) × (w : Value) × Rekeyed o p
            × (get_value env.runtime p e ≡ done w)
            × (v ≡ (if e.is_date && is_blank w then str env.runtime.now_text else w))))

-- A field that has no column: it is ignored, or a key, or its value cannot be had.
abbrev pub IsLeftOut : Env → Object → FieldElem → Type 0
IsLeftOut env o e =
    (e.ignore ≡ true)
    ⊎ ((e.primary ≡ true)
        ⊎ ((p : Object) × (err : Err) × Rekeyed o p × (get_value env.runtime p e ≡ failed err)))

-- The entries stand for the fields, in their order, but for those that are left out.
abbrev pub IsPick : Env → MdlDriver → Object → List Entry → List FieldElem → Type 0
IsPick env obv o ks [] = ks ≡ []
IsPick env obv o ks (e ∷ es) =
    IsLeftOut env o e × IsPick env obv o ks es
    ⊎ ((v : Value) × (ls : List Entry) × (ks ≡ (e, v) ∷ ls)
        × IsEntry env obv o e v
        × IsPick env obv o ls es)

-- The columns in backquotes, and the arguments.
abbrev pub named : List Entry → List Text
named [] = []
named ((e, v) ∷ ks) = (codes "`" ++ (e.field_json_name ++ codes "`")) ∷ named ks

abbrev pub arguments : List Entry → List Value
arguments [] = []
arguments ((e, v) ∷ ks) = v ∷ arguments ks

-- What is added to the columns, if they are not complete.
abbrev pub columns_part : Bool → List Entry → Text
columns_part true ks = []
columns_part false ks = flat (codes ",") (named ks)
