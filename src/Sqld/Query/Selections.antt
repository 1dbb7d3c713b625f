-- ===== src/Sqld/Query/Selections.antt =====
-- What Count, Exists and FindOne ask the database.
use freego.Prelude.{
  ℤ, Text, String, codes, Go, ok, ◌≡◌, refl, sym, Bool, false, Option, none, some, List, [], ◌∷◌,
  ◌++◌,
}
use mathlib.Core.List.{append-nil}
use mathlib.Core.Path.{subst}
use freego.Errors.{Result, done, failed}
use freego.Sqlc.Value.{Value}
use freego.Sqlc.Object.{Object}
use freego.Sqlc.Cnd.{Cnd}
use freego.Sqld.Where.{Part, build_where_case}
use freego.Sqld.Where.Clauses.{join, flat, clauses, args}
use freego.Sqld.Where.Placeholders.{build_where_case-ok}
use freego.Sqld.Model.{MdlDriver}
use freego.Sqld.Exec.{Stmt, QueryReply, query_failed, queried, Env, Exec, lift, ◌>>=◌}
use freego.Sqld.Exec.Adds.{
  Adds, Adds-query, Adds-pure, Adds-throw, Adds-error, Adds-lift, Adds-lift-bind,
  Adds-find_model-bind, adds_rules,
}
use freego.Sqld.Delete.{is_empty, where_of}
use freego.Sqld.Delete.WhereText.{where_text-flat}
use freego.Sqld.Query.{or_error, query_rows, query_totals, scan_total, where_tail, filled}
use freego.Sqld.Query.Count.{
  count_rows_sql, counted_pages, run_count, count_where, count_model, count, exists_sql, run_exists,
  exists_where, exists_model, exists,
}

-- `where c1 and c2 …`, and nothing without a clause.
abbrev pub where_clause : List Text → Text
where_clause [] = []
where_clause (x ∷ xs) = codes "where" ++ join (codes " and") (x ∷ xs)

flat-filled : (x : Text) (xs : List Text) → is_empty (flat (codes " and") (x ∷ xs)) ≡ false
unfolding flat
flat-filled [] xs = refl
flat-filled (c ∷ x) xs = refl

pub where_tail-flat :
    (cls : List Text) → where_tail (flat (codes " and") cls) ≡ ok (where_clause cls)
unfolding where_tail
where_tail-flat [] = unfold flat in refl
where_tail-flat (x ∷ xs) = rw (flat-filled x xs) (where_text-flat "where" x xs)

module _ {A : Type 0} {M : Stmt → Type 0} where
  pub Adds-or_error : (label : String) (r : Result A) → Adds M (or_error label r)
  unfolding or_error
  Adds-or_error label (failed e) = Adds-error _
  Adds-or_error label (done a) = Adds-pure a

  pub Adds-filled : (g : Go (Result A)) → Adds M (filled g)
  unfolding filled
  Adds-filled Go.panic = Adds-lift Go.panic
  Adds-filled (ok (failed e)) = Adds-error e
  Adds-filled (ok (done a)) = Adds-pure a

module _ {M : Stmt → Type 0} where
  pub Adds-query_rows : (label : String) (r : QueryReply) → Adds M (query_rows label r)
  unfolding query_rows
  Adds-query_rows label (query_failed e) = Adds-error _
  Adds-query_rows label (queried rows) = Adds-pure rows

  pub Adds-query_totals : (label : String) (r : QueryReply) → Adds M (query_totals label r)
  unfolding query_totals
  Adds-query_totals label (query_failed e) = Adds-throw _
  Adds-query_totals label (queried rows) = Adds-pure rows

  pub Adds-scan_total :
      (a b : String) (n : ℤ) (e : Option Text) (rs : List (Result ℤ))
      → Adds M (scan_total a b n e rs)
  unfolding scan_total
  Adds-scan_total a b n none [] = Adds-pure n
  Adds-scan_total a b n (some e) [] = Adds-error _
  Adds-scan_total a b n none (failed err ∷ rs) = Adds-error _
  Adds-scan_total a b n (some e) (failed err ∷ rs) = Adds-error _
  Adds-scan_total a b n none (done m ∷ rs) = Adds-scan_total a b m none rs
  Adds-scan_total a b n (some e) (done m ∷ rs) = Adds-scan_total a b m (some e) rs

  Adds-counted_pages : (c : Cnd) (n : ℤ) → Adds M (counted_pages c n)
  unfolding counted_pages
  Adds-counted_pages c n = search adds_rules depth 10

  run_count-Adds :
      (env : Env) (c : Cnd) (vs : List Value) (sql : Text)
      → ((t : Bool) → M (record { in_tx = t; sql = sql; params = vs }))
      → Adds M (run_count env c vs sql)
  unfolding run_count
  run_count-Adds env c vs sql k =
      search (adds_rules, Adds-query, Adds-query_totals, Adds-scan_total, Adds-counted_pages) depth
        20

  run_exists-Adds :
      (env : Env) (vs : List Value) (sql : Text)
      → ((t : Bool) → M (record { in_tx = t; sql = sql; params = vs }))
      → Adds M (run_exists env vs sql)
  unfolding run_exists
  run_exists-Adds env vs sql k =
      search (adds_rules, Adds-query, Adds-query_totals, Adds-scan_total) depth 20

module _ {A : Type 0} {M : Stmt → Type 0} where
  pub where_of-Adds :
      (cnd : Cnd) (k : Part → Exec A)
      → Adds M (k (flat (codes " and") (clauses cnd.escape cnd.conditions), args cnd.conditions))
      → Adds M (where_of cnd >>= k)
  unfolding where_of
  where_of-Adds cnd k h = Adds-lift-bind (build_where_case cnd.escape cnd.conditions) k (λ p e.
      subst (λ part. Adds M (k part)) (build_where_case-ok cnd.escape cnd.conditions p e).1 h)

  pub where_tail-Adds :
      (cls : List Text) (f : Text → Exec A)
      → Adds M (f (where_clause cls))
      → Adds M (lift (where_tail (flat (codes " and") cls)) >>= f)
  where_tail-Adds cls f h = subst (λ g. Adds M (lift g >>= f)) (sym (where_tail-flat cls)) h

-- The statement is `before T where c1 and c2 … after` for the table T of the builder's registered
-- model and the clauses of its conditions, or `before T after` without a clause; the arguments are
-- the clauses'.
pub record IsQuery (before after : Text) (env : Env) (cnd : Cnd) (t : Stmt) : Type 0 where
  pub model : Object
  pub obv : MdlDriver
  pub of_model : cnd.model ≡ some model
  pub registered : env.model_drivers model.table ≡ some obv
  pub text :
      t.sql
      ≡ before
        ++ (obv.table_name
            ++ (codes " " ++ (where_clause (clauses cnd.escape cnd.conditions) ++ after)))
  pub params : t.params ≡ args cnd.conditions

module _ (env : Env) (cnd : Cnd) where
  asked :
      (before after : Text) (sql : MdlDriver → Text → Text) (model : Object) (obv : MdlDriver)
      → sql obv (where_clause (clauses cnd.escape cnd.conditions))
        ≡ before
          ++ (obv.table_name
              ++ (codes " " ++ (where_clause (clauses cnd.escape cnd.conditions) ++ after)))
      → cnd.model ≡ some model
      → env.model_drivers model.table ≡ some obv
      → (t : Bool)
      → IsQuery before after env cnd (record {
        in_tx = t;
        sql = sql obv (where_clause (clauses cnd.escape cnd.conditions));
        params = args cnd.conditions;
      })
  asked before after sql model obv e m reg t = record {
    model = model;
    obv = obv;
    of_model = m;
    registered = reg;
    text = e;
    params = refl;
  }

  counts :
      (obv : MdlDriver) (w : Text)
      → count_rows_sql obv w
        ≡ codes "select count(1) from " ++ (obv.table_name ++ (codes " " ++ (w ++ [])))
  unfolding count_rows_sql
  counts obv w = rw (append-nil w) refl

  asks_exists :
      (obv : MdlDriver) (w : Text)
      → exists_sql obv w
        ≡ codes "select exists(select 1 from "
          ++ (obv.table_name ++ (codes " " ++ (w ++ codes " limit 1  ) as pub_exists")))
  unfolding exists_sql
  asks_exists obv w = refl

  count_model-Adds :
      (m : Option Object)
      → cnd.model ≡ m
      → Adds (IsQuery (codes "select count(1) from ") [] env cnd) (count_model env cnd m)
  unfolding count_model count_where
  count_model-Adds none e = Adds-error _
  count_model-Adds (some model) e =
      Adds-find_model-bind env "[Mysql.Count] " model.table
        (λ obv. where_of cnd >>= count_where env cnd obv)
        (λ obv reg. where_of-Adds cnd (count_where env cnd obv) (
          where_tail-Adds (clauses cnd.escape cnd.conditions) _ (
            run_count-Adds env cnd _ _ (
              asked (codes "select count(1) from ") [] count_rows_sql model obv (counts obv _) e
                reg))))

  -- Every statement that Count runs counts the rows of the builder's table that satisfy its clauses,
  -- with the arguments of the clauses.
  pub count-IsQuery : Adds (IsQuery (codes "select count(1) from ") [] env cnd) (count env cnd)
  unfolding count
  count-IsQuery = count_model-Adds cnd.model refl

  exists_model-Adds :
      (m : Option Object)
      → cnd.model ≡ m
      → Adds
          (IsQuery
            (codes "select exists(select 1 from ")
            (codes " limit 1  ) as pub_exists")
            env
            cnd)
          (exists_model env cnd m)
  unfolding exists_model exists_where
  exists_model-Adds none e = Adds-error _
  exists_model-Adds (some model) e =
      Adds-find_model-bind env "[Mysql.Exists] " model.table
        (λ obv. where_of cnd >>= exists_where env obv)
        (λ obv reg. where_of-Adds cnd (exists_where env obv) (
          where_tail-Adds (clauses cnd.escape cnd.conditions) _ (
            run_exists-Adds env _ _ (
              asked (codes "select exists(select 1 from ") (codes " limit 1  ) as pub_exists")
                exists_sql model obv (asks_exists obv _) e reg))))

  -- Every statement that Exists runs asks for a row of the builder's table that satisfies its
  -- clauses, with the arguments of the clauses.
  pub exists-IsQuery :
      Adds
        (IsQuery (codes "select exists(select 1 from ") (codes " limit 1  ) as pub_exists") env cnd)
        (exists env cnd)
  unfolding exists
  exists-IsQuery = exists_model-Adds cnd.model refl

-- Every statement that Count runs counts the rows of the builder's table that satisfy its clauses, and
-- every statement that Exists runs asks for one of them; both have the arguments of the clauses.
pub count-exists-IsQuery :
    (env : Env) (cnd : Cnd)
    → Adds (IsQuery (codes "select count(1) from ") [] env cnd) (count env cnd)
      × Adds
          (IsQuery
            (codes "select exists(select 1 from ")
            (codes " limit 1  ) as pub_exists")
            env
            cnd)
          (exists env cnd)
count-exists-IsQuery env cnd = (count-IsQuery env cnd, exists-IsQuery env cnd)
