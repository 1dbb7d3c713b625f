-- ===== src/Sqld/Query/Lists.antt =====
-- What FindList asks the database.
use freego.Prelude.{
  ◌++◌, if◌then◌else◌, Text, codes, Go, panic, ok, trim_end, ◌≡◌, refl, ◌⊎◌, inl, inr, Bool, Option,
  none, some, List, [], ◌∷◌,
}
use freego.Dialect.{Dialect, count_sql}
use freego.Errors.{Result, done, failed}
use freego.Sqlc.Value.{Value}
use freego.Sqlc.Object.{Object}
use freego.Sqlc.Cnd.{Cnd}
use freego.Sqld.Where.Clauses.{join, flat, clauses, args}
use freego.Sqld.Model.{MdlDriver}
use freego.Sqld.Exec.{Stmt, Rdb, Env, Exec, ◌>>=◌, error}
use freego.Sqld.Exec.Adds.{
  Adds, Added, Adds-query, Adds-pure, Adds-error, Adds-bind, Adds-lift-bind, Adds-find_model-bind,
  adds_rules,
}
use freego.Sqld.Exec.Yields.{Yields, Yielded, Adds-Yields-bind}
use freego.Sqld.Order.{build_group_by, build_sort_by}
use freego.Sqld.Query.{Row, field_names, record_again, build_pagination}
use freego.Sqld.Query.Find.{
  Target, no_target, not_pointer, not_slice, slice, list_sql, fill_target, fill_list, run_find_list,
  find_list_where, find_list_model, find_list,
}
use freego.Sqld.Query.Selections.{
  where_clause, Adds-or_error, Adds-filled, Adds-query_rows, where_of-Adds, where_tail-Adds,
}
use freego.Sqld.Query.Listings.{quoted, columns_text}
use freego.Sqld.Query.Paging.{
  page_limit, no_page, IsCounted, build_pagination-Adds, build_pagination-Yields,
}

module _ {A : Type 0} (m : Exec A) where
  record_again-Adds : {M : Stmt → Type 0} → Adds M m → Adds M (record_again m)
  unfolding record_again error
  record_again-Adds {M = M} h = record { at = λ s. again s (m s) (h.at s) }
    where
      again :
          (s : Rdb) (g : Go (Result A × Rdb))
          → Added M s g
          → Added M s (elim g [
            | panic ↦ panic
            | ok (failed e, t) ↦ error e t
            | ok (done a, t) ↦ ok (done a, t)
          ])
      again s panic k = k
      again s (ok (failed e, t)) k = k
      again s (ok (done a, t)) k = k

  record_again-Yields : {P : A → Type 0} → Yields P m → Yields P (record_again m)
  unfolding record_again error
  record_again-Yields {P = P} h = record { at = λ s. again (m s) (h.at s) }
    where
      again :
          (g : Go (Result A × Rdb))
          → Yielded P g
          → Yielded P (elim g [
            | panic ↦ panic
            | ok (failed e, t) ↦ error e t
            | ok (done a, t) ↦ ok (done a, t)
          ])
      again panic k = k
      again (ok (failed e, t)) k = tt
      again (ok (done a, t)) k = k

module _ {M : Stmt → Type 0} where
  fill_target-Adds :
      (dest : Target) (out : List Row) (read : List Object → Go (Result (List Object)))
      → Adds M (fill_target dest out read)
  unfolding fill_target
  fill_target-Adds no_target out read = Adds-error _
  fill_target-Adds not_pointer out read = Adds-error _
  fill_target-Adds not_slice out read = Adds-error _
  fill_target-Adds (slice olds) out read = Adds-bind _ _ (Adds-filled _) (λ all. Adds-pure _)

  pub fill_list-Adds :
      (dest : Target) (out : List Row) (read : List Object → Go (Result (List Object))) (c : Cnd)
      → Adds M (fill_list dest out read c)
  unfolding fill_list
  fill_list-Adds dest [] read c = Adds-pure _
  fill_list-Adds dest (row ∷ rows) read c =
      Adds-bind _ _ (fill_target-Adds dest (row ∷ rows) read) (λ objects. Adds-pure _)

  run_find_list-Adds :
      (env : Env) (dest : Target) (model : Object) (obv : MdlDriver) (vs : List Value)
      (page : Text × Cnd)
      → ((t : Bool) → M (record { in_tx = t; sql = page.0; params = vs }))
      → Adds M (run_find_list env dest model obv vs page)
  unfolding run_find_list
  run_find_list-Adds env dest model obv vs (sql, c) k =
      search (adds_rules, Adds-query, Adds-query_rows, Adds-or_error, fill_list-Adds, k) depth 20

-- The text is the listing with the limit of the page, or without it if there is no page, or else the
-- count of its rows, if the totals of the page are asked for.
abbrev pub IsPage : Dialect → Text → Text → Type 0
IsPage d listing t =
    (t ≡ (if no_page d then listing else listing ++ page_limit d))
    ⊎ IsCounted d × (t ≡ codes "select count(1) from (" ++ (listing ++ codes ") as cba1"))

-- The statement is the listing `select f1,f2 from T where … group by … order by …`, with the
-- limit of the page, or the count of the rows of the listing. T is the table of the builder's
-- registered model, the f's are its columns, and the arguments are those of the clauses.
pub record IsListing (env : Env) (cnd : Cnd) (t : Stmt) : Type 0 where
  pub model : Object
  pub obv : MdlDriver
  pub of_model : cnd.model ≡ some model
  pub registered : env.model_drivers model.table ≡ some obv
  pub groupby : Text
  pub sortby : Text
  pub grouped : build_group_by (some cnd) ≡ ok groupby
  pub sorted : build_sort_by (some cnd) ≡ ok sortby
  pub listing : Text
  pub text :
      listing
      ≡ codes "select "
        ++ (join (codes ",") (quoted obv.field_elem)
            ++ (codes " from "
                ++ (obv.table_name
                    ++ (codes " "
                        ++ (where_clause (clauses cnd.escape cnd.conditions)
                            ++ (groupby ++ sortby))))))
  pub sent : IsPage cnd.pagination listing t.sql
  pub params : t.params ≡ args cnd.conditions

counted :
    (sql : Text) → count_sql sql ≡ codes "select count(1) from (" ++ (sql ++ codes ") as cba1")
unfolding count_sql
counted sql = refl

module _ (env : Env) (cnd : Cnd) (dest : Target) (model : Object) (obv : MdlDriver) where
  written_out :
      (d : MdlDriver) (groupby sortby fields want : Text)
      → fields ≡ want
      → list_sql d fields (where_clause (clauses cnd.escape cnd.conditions)) groupby sortby
        ≡ codes "select "
          ++ (want
              ++ (codes " from "
                  ++ (d.table_name
                      ++ (codes " "
                          ++ (where_clause (clauses cnd.escape cnd.conditions)
                              ++ (groupby ++ sortby))))))
  unfolding list_sql
  written_out d groupby sortby fields want e = rw e refl

  paged-Adds :
      (groupby sortby fields : Text)
      → cnd.model ≡ some model
      → env.model_drivers model.table ≡ some obv
      → build_group_by (some cnd) ≡ ok groupby
      → build_sort_by (some cnd) ≡ ok sortby
      → trim_end 1 (field_names obv.field_elem) ≡ ok fields
      → (let sql =
            list_sql obv fields (where_clause (clauses cnd.escape cnd.conditions)) groupby sortby in
          Adds (IsListing env cnd) (
            record_again (build_pagination env cnd sql (args cnd.conditions))
            >>= run_find_list env dest model obv (args cnd.conditions)))
  paged-Adds groupby sortby fields m reg g s f =
      let tail = where_clause (clauses cnd.escape cnd.conditions) in
      let sql = list_sql obv fields tail groupby sortby in
      let sent_by : (u : Text) (t : Bool)
          → IsPage cnd.pagination sql u
          → IsListing env cnd (record { in_tx = t; sql = u; params = args cnd.conditions }) =
        λ u t h. record {
          model = model;
          obv = obv;
          of_model = m;
          registered = reg;
          groupby = groupby;
          sortby = sortby;
          grouped = g;
          sorted = s;
          listing = sql;
          text = written_out obv groupby sortby fields _ (columns_text obv.field_elem fields f);
          sent = h;
          params = refl;
        } in
      Adds-Yields-bind _ _
        (record_again-Adds _ (
          build_pagination-Adds env cnd sql (args cnd.conditions)
            (λ n t. sent_by (count_sql sql) t (inr (n, counted sql)))))
        (record_again-Yields _ (build_pagination-Yields env cnd sql (args cnd.conditions)))
        (λ page p.
          run_find_list-Adds env dest model obv (args cnd.conditions) page
            (λ t. sent_by page.0 t (inl p)))

  list_where-Adds :
      cnd.model ≡ some model
      → env.model_drivers model.table ≡ some obv
      → Adds (IsListing env cnd) (
          find_list_where env cnd dest model obv
            (flat (codes " and") (clauses cnd.escape cnd.conditions), args cnd.conditions))
  unfolding find_list_where
  list_where-Adds m reg = where_tail-Adds (clauses cnd.escape cnd.conditions) _ (
      Adds-lift-bind (build_group_by (some cnd)) _ (λ groupby g.
        Adds-lift-bind (build_sort_by (some cnd)) _ (λ sortby s.
          Adds-lift-bind (trim_end 1 (field_names obv.field_elem)) _
            (λ fields f. paged-Adds groupby sortby fields m reg g s f))))

module _ (env : Env) (cnd : Cnd) where
  list_model-Adds :
      (dest : Target) (m : Option Object)
      → cnd.model ≡ m
      → Adds (IsListing env cnd) (find_list_model env cnd dest m)
  unfolding find_list_model
  list_model-Adds dest none e = Adds-error _
  list_model-Adds dest (some model) e =
      Adds-find_model-bind env "[Mysql.FindList] " model.table _
        (λ obv reg. where_of-Adds cnd _ (list_where-Adds env cnd dest model obv e reg))

  -- Every statement that FindList runs is the builder's listing with the limit of its page, or without
  -- it if page and size are zero, or, if the page is given by its number and its totals are asked for,
  -- counts the rows of the listing; each has the arguments of the clauses.
  pub find_list-IsListing : (dest : Target) → Adds (IsListing env cnd) (find_list env cnd dest)
  unfolding find_list
  find_list-IsListing no_target = Adds-error _
  find_list-IsListing not_pointer = list_model-Adds not_pointer cnd.model refl
  find_list-IsListing not_slice = list_model-Adds not_slice cnd.model refl
  find_list-IsListing (slice olds) = list_model-Adds (slice olds) cnd.model refl
