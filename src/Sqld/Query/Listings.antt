-- ===== src/Sqld/Query/Listings.antt =====
-- What FindOne and FindList ask the database.
use freego.Prelude.{
  pos, Text, codes, ok, trim_end, ◌≡◌, refl, ap, ◌∙◌, sym, Bool, true, false, some, List, [], ◌∷◌,
  ◌++◌, if◌then◌else◌,
}
use mathlib.Core.List.{append_assoc}
use freego.Sqlc.Value.{Value}
use freego.Sqlc.Object.{Object}
use freego.Sqlc.Builder.{offset}
use freego.Sqlc.Cnd.{Cnd}
use freego.Sqld.Where.Clauses.{join, flat, clauses, args}
use freego.Sqld.Where.Cuts.{cut_flat}
use freego.Sqld.Model.{FieldElem, MdlDriver, Runtime}
use freego.Sqld.Exec.{Stmt, Env}
use freego.Sqld.Exec.Adds.{
  Adds, Adds-query, Adds-pure, Adds-bind, Adds-lift-bind, Adds-find_model-bind, adds_rules,
}
use freego.Sqld.Order.{build_sort_by}
use freego.Sqld.Query.{Row, field_names}
use freego.Sqld.Query.Find.{find_one_sql, read_first, run_find_one, find_one_where, find_one}
use freego.Sqld.Query.Selections.{
  where_clause, Adds-or_error, Adds-filled, Adds-query_rows, where_of-Adds, where_tail-Adds,
}

-- The columns: the fields that are not ignored, in backquotes.
abbrev pub quoted : List FieldElem → List Text
quoted [] = []
quoted (e ∷ es) =
    let rest = quoted es in
    if e.ignore then rest else (codes "`" ++ (e.field_json_name ++ codes "`")) ∷ rest

field_round :
    (b : Bool) (n rest : Text) (xs : List Text)
    → rest ≡ flat (codes ",") xs
    → (if b then rest else codes "`" ++ (n ++ (codes "`," ++ rest)))
      ≡ flat (codes ",") (if b then xs else (codes "`" ++ (n ++ codes "`")) ∷ xs)
unfolding flat
field_round true n rest xs h = h
field_round false n rest xs h = rw h (ap (λ t. codes "`" ++ t) (regroup n))
  where
    regroup :
        (s : Text)
        → s ++ (codes "`," ++ flat (codes ",") xs)
          ≡ ((s ++ codes "`") ++ codes ",") ++ flat (codes ",") xs
    regroup s = simp append_assoc

field_names-flat : (es : List FieldElem) → field_names es ≡ flat (codes ",") (quoted es)
unfolding field_names
field_names-flat [] = unfold flat in refl
field_names-flat (e ∷ es) = field_round e.ignore e.field_json_name _ _ (field_names-flat es)

-- The text of the columns, with commas between them.
pub columns_text :
    (es : List FieldElem) (fields : Text)
    → trim_end 1 (field_names es) ≡ ok fields
    → fields ≡ join (codes ",") (quoted es)
columns_text es fields h =
    cut_flat (quoted es) fields (ap (trim_end 1) (sym (field_names-flat es)) ∙ h)

module _ {M : Stmt → Type 0} where
  read_first-Adds :
      (rt : Runtime) (obv : MdlDriver) (o : Object) (out : List Row)
      → Adds M (read_first rt obv o out)
  unfolding read_first
  read_first-Adds rt obv o [] = Adds-pure o
  read_first-Adds rt obv o (first ∷ rows) = Adds-filled _

  run_find_one-Adds :
      (env : Env) (obv : MdlDriver) (o : Object) (vs : List Value) (sql : Text)
      → ((t : Bool) → M (record { in_tx = t; sql = sql; params = vs }))
      → Adds M (run_find_one env obv o vs sql)
  unfolding run_find_one
  run_find_one-Adds env obv o vs sql k =
      search (adds_rules, Adds-query, Adds-query_rows, Adds-or_error, read_first-Adds) depth 20

-- The statement is `select f1,f2 from T where c1 and c2 … order by … limit 1`: T is the table of
-- the object's registered model, the f's are its columns, and the arguments are those of the
-- clauses. The where clause and the order are left out if they are empty.
pub record IsTopRow (env : Env) (cnd : Cnd) (o : Object) (t : Stmt) : Type 0 where
  pub obv : MdlDriver
  pub registered : env.model_drivers o.table ≡ some obv
  pub sortby : Text
  pub sorted : build_sort_by (some cnd) ≡ ok sortby
  pub text :
      t.sql
      ≡ codes "select "
        ++ (join (codes ",") (quoted obv.field_elem)
            ++ (codes " from "
                ++ (obv.table_name
                    ++ (codes " "
                        ++ (where_clause (clauses cnd.escape cnd.conditions)
                            ++ (sortby ++ codes " limit 1"))))))
  pub params : t.params ≡ args cnd.conditions

module _ (env : Env) (cnd : Cnd) (o : Object) where
  first_where-Adds :
      (c : Cnd) (obv : MdlDriver)
      → build_sort_by (some c) ≡ build_sort_by (some cnd)
      → env.model_drivers o.table ≡ some obv
      → Adds (IsTopRow env cnd o) (
          find_one_where env c o obv
            (flat (codes " and") (clauses cnd.escape cnd.conditions), args cnd.conditions))
  unfolding find_one_where find_one_sql
  first_where-Adds c obv same reg = where_tail-Adds (clauses cnd.escape cnd.conditions) _ (
      Adds-lift-bind (build_sort_by (some c)) _ (λ sortby s.
        Adds-lift-bind (trim_end 1 (field_names obv.field_elem)) _ (λ fields f.
          run_find_one-Adds env obv o _ _ (λ t. record {
            obv = obv;
            registered = reg;
            sortby = sortby;
            sorted = sym same ∙ s;
            text =
                ap
                  (λ l.
                    codes "select "
                    ++ (l
                        ++ (codes " from "
                            ++ (obv.table_name
                                ++ (codes " "
                                    ++ (where_clause (clauses cnd.escape cnd.conditions)
                                        ++ (sortby ++ codes " limit 1")))))))
                  (columns_text obv.field_elem fields f);
            params = refl;
          }))))

  -- Every statement that FindOne runs selects the columns of the object's table, at most one row,
  -- by the clauses of the builder and in its order, with the arguments of the clauses.
  pub find_one-IsTopRow : Adds (IsTopRow env cnd o) (find_one env cnd (some o))
  unfolding find_one offset
  find_one-IsTopRow = Adds-find_model-bind env "[Mysql.FindOne] " o.table _ (λ obv reg.
      where_of-Adds (offset (pos 0) (pos 1) cnd) _ (
        Adds-bind _ _ (first_where-Adds (offset (pos 0) (pos 1) cnd) obv refl reg)
          (λ o'. Adds-pure _)))
