-- ===== src/Sqld/Save/Safety.antt =====
-- What Save sends to the database.
use freego.Prelude.{codes, ◌++◌, ◌≡◌, false, ltb, some, List, [], ◌∷◌, length}
use freego.Sqlc.Object.{Object}
use freego.Sqld.Model.{MdlDriver}
use freego.Sqld.Exec.{Stmt, Env, Exec}
use freego.Sqld.Exec.Adds.{Adds}
use freego.Sqld.Save.{columns, SaveState}
use freego.Sqld.Where.Clauses.{join}
use freego.Sqld.Save.Entries.{Entry}
use freego.Sqld.Save.Objects.{AreRows, column_names, row_texts, all_arguments}

-- The statement is ``insert into T (`f1`,`f2`) values (?,?), (?,?)``: T is the table of the first
-- object's registered model, the f's are the columns of the first row, and there is a row for each
-- object, of which there are at most 2000. A row has a placeholder for each of its entries, and the
-- arguments are those of the entries, row by row.
pub record IsInsertion (env : Env) (o : Object) (os : List Object) (t : Stmt) : Type 0 where
  pub obv : MdlDriver
  pub registered : env.model_drivers o.table ≡ some obv
  pub entries : List (List Entry)
  pub picked : AreRows env obv (o ∷ os) entries
  pub text :
      t.sql
      ≡ codes "insert into "
        ++ (obv.table_name
            ++ (codes " ("
                ++ (join (codes ",") (column_names entries)
                    ++ (codes ") values " ++ join (codes ",") (row_texts entries)))))
  pub params : t.params ≡ all_arguments entries
  pub few : ltb 2000 (length (o ∷ os)) ≡ false

abbrev empty_rows : SaveState
empty_rows = record { columns = []; rows = []; params = []; objects = [] }
