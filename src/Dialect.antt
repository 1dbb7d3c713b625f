-- ===== src/Dialect.antt =====
-- ormx/sqld/dialect/dialect.go: the pagination record and the dialects that render it as SQL.
use freego.Prelude.{
  ℤ, pos, ◌-ℤ◌, ◌*ℤ◌, Text, String, codes, Bool, true, false, List, [], ◌++◌, if◌then◌else◌,
  format_int, wrap64,
}

-- Dialect. The fields of one page request and, after a count, of its totals.
pub record Dialect : Type 0 where
  pub page_no : ℤ
  pub page_size : ℤ
  pub page_total : ℤ
  pub page_count : ℤ
  pub spilled : Bool
  pub is_offset : Bool
  pub is_page : Bool
  pub is_fast_page : Bool
  pub fast_page_key : Text
  pub fast_page_sort : ℤ
  pub fast_page_param : List ℤ
  pub fast_page_sort_param : ℤ
  pub fast_page_sort_count_q : Bool

-- Go's zero value of the struct.
abbrev pub zero_dialect : Dialect
zero_dialect = record {
  page_no = pos 0;
  page_size = pos 0;
  page_total = pos 0;
  page_count = pos 0;
  spilled = false;
  is_offset = false;
  is_page = false;
  is_fast_page = false;
  fast_page_key = [];
  fast_page_sort = pos 0;
  fast_page_param = [];
  fast_page_sort_param = pos 0;
  fast_page_sort_count_q = false;
}

pub record PageResult : Type 0 where
  pub page_no : ℤ
  pub page_size : ℤ
  pub page_total : ℤ
  pub page_count : ℤ

unfoldable pub get_result : Dialect → PageResult
get_result d = record {
  page_no = d.page_no;
  page_size = d.page_size;
  page_total = d.page_total;
  page_count = d.page_count;
}

-- The types that implement IDialect: the base type and one for each database.
pub data Kind : Type 0 where
  base mysql oracle db2 hsql sql_server sql_server2005 sybase postgresql derby : Kind

-- A result of type (T, error).
pub data Reply {ℓ} (A : Type ℓ) : Type ℓ where
  reply : A → Reply A
  refuse : String → Reply A

-- Support: only MySQL's returns true.
unfoldable pub support : Kind → Reply Bool
support mysql = reply true
support _ = refuse "No implementation method [Support] was found"

-- MysqlDialect.GetCountSql
unfoldable pub count_sql : Text → Text
count_sql sql = codes "select count(1) from (" ++ (sql ++ codes ") as cba1")

unfoldable pub get_count_sql : Kind → Text → Reply Text
unfolding count_sql
get_count_sql mysql sql = reply (count_sql sql)
get_count_sql _ sql = refuse "No implementation method [GetCountSql] was found"

-- The offset of MysqlDialect.GetLimitSql, in int64 arithmetic.
unfoldable pub limit_offset : Dialect → ℤ
limit_offset d =
    if d.is_offset then d.page_no else wrap64 (wrap64 (d.page_no -ℤ pos 1) *ℤ d.page_size)

-- MysqlDialect.GetLimitSql
unfoldable pub limit_sql : Dialect → Text → Text
unfolding limit_offset
limit_sql d sql =
    sql
    ++ (codes " limit " ++ (format_int (limit_offset d) ++ (codes "," ++ format_int d.page_size)))

unfoldable pub get_limit_sql : Kind → Dialect → Text → Reply Text
unfolding limit_sql
get_limit_sql mysql d sql = reply (limit_sql d sql)
get_limit_sql _ d sql = refuse "No implementation method [GetLimitSql] was found"
