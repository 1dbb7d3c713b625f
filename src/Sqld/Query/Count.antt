-- ===== src/Sqld/Query/Count.antt =====
-- ormx/sqld/base_manager.go: Count and Exists of RDBManager.
use freego.Prelude.{
  ℤ, pos, ltb_ℤ, Text, codes, Bool, ◌&&◌, Option, none, some, List, [], ◌∷◌, ◌++◌, if◌then◌else◌,
}
use freego.Errors.{lit}
use freego.Sqlc.Value.{Value}
use freego.Sqlc.Object.{Object}
use freego.Sqlc.Cnd.{Cnd}
use freego.Sqld.Where.{Part}
use freego.Sqld.Model.{MdlDriver}
use freego.Sqld.Exec.{Env, Exec, ◌>>=◌, pure, error, lift, prepare, query, find_model}
use freego.Sqld.Delete.{where_of}
use freego.Sqld.Query.{query_totals, scan_total, where_tail, page_count, set_totals}

unfoldable pub count_rows_sql : MdlDriver → Text → Text
count_rows_sql obv tail = codes "select count(1) from " ++ (obv.table_name ++ (codes " " ++ tail))

-- The pages of the total, if both the total and the size are positive.
unfoldable pub counted_pages : Cnd → ℤ → Exec (ℤ × Cnd)
unfolding page_count set_totals
counted_pages c total =
    if ltb_ℤ (pos 0) total && ltb_ℤ (pos 0) c.pagination.page_size
    then (lift (page_count total c.pagination.page_size) >>= λ n.
        pure (total, set_totals total n c))
    else pure (total, set_totals total (pos 0) c)

-- The end of Count, behind the construction of the statement.
unfoldable pub run_count : Env → Cnd → List Value → Text → Exec (ℤ × Cnd)
unfolding prepare query query_totals scan_total counted_pages
run_count env c params sql = prepare env "[Mysql.Count] [ " sql do
  r ← query env sql params
  rows ← query_totals "[Mysql.Count] query failed: " r
  total ←
      scan_total "[Mysql.Count] read total failed: " "[Mysql.Count] read result failed: " (pos 0)
        rows.err rows.totals
  counted_pages c total

unfoldable pub count_where : Env → Cnd → MdlDriver → Part → Exec (ℤ × Cnd)
unfolding where_tail run_count
count_where env c obv (case_part, case_arg) =
    lift (where_tail case_part) >>= λ tail. run_count env c case_arg (count_rows_sql obv tail)

unfoldable pub count_model : Env → Cnd → Option Object → Exec (ℤ × Cnd)
unfolding error find_model where_of count_where
count_model env c none = error (lit "[Mysql.Count] data is nil" ∷ [])
count_model env c (some model) = do
  obv ← find_model env "[Mysql.Count] " model.table
  part ← where_of c
  count_where env c obv part

-- Count; it leaves the totals in the builder.
unfoldable pub count : Env → Cnd → Exec (ℤ × Cnd)
unfolding count_model
count env c = count_model env c c.model

unfoldable pub exists_sql : MdlDriver → Text → Text
exists_sql obv tail =
    codes "select exists(select 1 from "
    ++ (obv.table_name ++ (codes " " ++ (tail ++ codes " limit 1  ) as pub_exists")))

-- The end of Exists, behind the construction of the statement.
unfoldable pub run_exists : Env → List Value → Text → Exec Bool
unfolding prepare query query_totals scan_total
run_exists env params sql = prepare env "[Mysql.Exists] [ " sql do
  r ← query env sql params
  rows ← query_totals "[Mysql.Exists] query failed: " r
  n ←
      scan_total "[Mysql.Exists] read total failed: " "[Mysql.Exists] read result failed: " (pos 0)
        rows.err rows.totals
  pure (ltb_ℤ (pos 0) n)

unfoldable pub exists_where : Env → MdlDriver → Part → Exec Bool
unfolding where_tail run_exists
exists_where env obv (case_part, case_arg) =
    lift (where_tail case_part) >>= λ tail. run_exists env case_arg (exists_sql obv tail)

unfoldable pub exists_model : Env → Cnd → Option Object → Exec Bool
unfolding error find_model where_of exists_where
exists_model env c none = error (lit "[Mysql.Exists] data is nil" ∷ [])
exists_model env c (some model) = do
  obv ← find_model env "[Mysql.Exists] " model.table
  part ← where_of c
  exists_where env obv part

-- Exists
unfoldable pub exists : Env → Cnd → Exec Bool
unfolding exists_model
exists env c = exists_model env c c.model
