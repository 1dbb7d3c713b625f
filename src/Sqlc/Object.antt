-- ===== src/Sqlc/Object.antt =====
-- ormx/sqlc/object.go: a row object, through the interface and the field offsets by which the
-- managers read and write it.
use freego.Prelude.{ℕ, Text, ◌==◌, if◌then◌else◌}
use freego.Sqlc.Value.{Value}

-- GetTable() and the memory at each field offset.
pub record Object : Type 0 where
  pub table : Text
  pub field : ℕ → Value

-- A write through utils.GetPtr(obj, offset).
unfoldable pub set_field : Object → ℕ → Value → Object
set_field o offset v = record o { field = λ k. if k == offset then v else o.field k }
