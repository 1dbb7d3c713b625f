-- ===== src/Sqld/Query/Paging.antt =====
-- What BuildPagination asks the database, and the text that it makes.
use freego.Prelude.{
  pos, eq_ℤ, leb_ℤ, ◌-ℤ◌, ◌*ℤ◌, wrap64, format_int, sym, false, true, ◌++◌, if◌then◌else◌, ◌∙◌,
  Text, codes, ◌≡◌, refl, Bool, not, ◌&&◌, List,
}
use freego.Dialect.{Dialect, count_sql, get_count_sql, limit_offset, limit_sql, get_limit_sql}
use freego.Sqlc.Value.{Value}
use freego.Sqlc.Cnd.{Cnd}
use freego.Sqld.Exec.{Stmt, Env, Exec, lift, pure, query}
use freego.Sqld.Exec.Adds.{Adds, Adds-if, Adds-query, Adds-pure, adds_rules}
use freego.Sqld.Exec.Yields.{Yields, Yields-pure, Yields-if, Yields-then, Yields-map}
use freego.Sqld.Query.{
  set_totals, query_rows, scan_total, page_count, sized, count_page, build_pagination,
}
use freego.Sqld.Query.Selections.{Adds-query_rows, Adds-scan_total}

-- `limit offset,size` for a page: the size is 10 if the one that is asked for is not positive, and the
-- offset is the page number itself, or the rows of the pages before it.
abbrev pub page_limit : Dialect → Text
page_limit d =
    let size = if leb_ℤ d.page_size (pos 0) then pos 10 else d.page_size in
    codes " limit "
    ++ (format_int (if d.is_offset then d.page_no else wrap64 (wrap64 (d.page_no -ℤ pos 1) *ℤ size))
        ++ (codes "," ++ format_int size))

-- The page is zero and of size zero: nothing is limited.
abbrev pub no_page : Dialect → Bool
no_page d = eq_ℤ d.page_no (pos 0) && eq_ℤ d.page_size (pos 0)

-- The listing is counted: there is a page, given by its number, and the totals are asked for.
abbrev pub IsCounted : Dialect → Type 0
IsCounted d = (no_page d ≡ false) × (d.is_page ≡ true) × (d.is_offset ≡ false)

limited_by :
    (d : Dialect) (sql : Text) (b : Bool)
    → limit_sql (if b then record d { page_size = pos 10 } else d) sql ≡ (
        let size = if b then pos 10 else d.page_size in
        sql
        ++ (codes " limit "
            ++ (format_int
                  (if d.is_offset then d.page_no else wrap64 (wrap64 (d.page_no -ℤ pos 1) *ℤ size))
                ++ (codes "," ++ format_int size))))
unfolding limit_sql limit_offset
limited_by d sql true = refl
limited_by d sql false = refl

sized-page_limit : (d : Dialect) (sql : Text) → limit_sql (sized d) sql ≡ sql ++ page_limit d
unfolding sized
sized-page_limit d sql = limited_by d sql (leb_ℤ d.page_size (pos 0))

flag_set : (b : Bool) → not b ≡ false → b ≡ true
flag_set true h = refl
flag_set false h = sym h

flag_unset : (b : Bool) → not b ≡ true → b ≡ false
flag_unset true h = sym h
flag_unset false h = refl

module _ {M : Stmt → Type 0} (env : Env) (c : Cnd) (sql : Text) (vs : List Value) where
  count_page-Adds :
      (limited : Text)
      → ((t : Bool) → M (record { in_tx = t; sql = count_sql sql; params = vs }))
      → Adds M (count_page env c vs limited (count_sql sql))
  unfolding count_page
  count_page-Adds limited k =
      search (adds_rules, Adds-query, Adds-query_rows, Adds-scan_total) depth 20

  pub build_pagination-Adds :
      (IsCounted c.pagination
        → (t : Bool) → M (record { in_tx = t; sql = count_sql sql; params = vs }))
      → Adds M (build_pagination env c sql vs)
  unfolding build_pagination get_limit_sql get_count_sql
  build_pagination-Adds k =
      Adds-if (no_page c.pagination) _ _ (λ _. Adds-pure _)
        (λ p.
          Adds-if (not c.pagination.is_page) _ _ (λ _. Adds-pure _)
            (λ q.
              Adds-if (not c.pagination.is_offset) _ _
                (λ o. count_page-Adds _ (k (p, flag_set _ q, flag_unset _ o))) (λ _. Adds-pure _)))

module _ (env : Env) (c : Cnd) (sql : Text) (vs : List Value) where
  -- The text is the one that is limited, whatever the count is.
  count_page-Yields :
      (limited counting : Text)
      → Yields (λ page. page.0 ≡ limited) (count_page env c vs limited counting)
  unfolding count_page
  count_page-Yields limited counting = Yields-then (query env counting vs) _ (λ r.
      Yields-then (query_rows "count query failed: " r) _ (λ rows.
        Yields-then (scan_total "rows scan failed: " "rows.Err(): " (pos 0) rows.err rows.totals) _
          (λ total.
            Yields-then (lift (page_count total c.pagination.page_size)) _
              (λ n. Yields-pure (limited, set_totals total n c) refl))))

  page_case :
      (b : Bool) (limited : Text) (m : Exec (Text × Cnd))
      → Yields (λ page. page.0 ≡ limited) m
      → Yields (λ page. page.0 ≡ (if b then sql else limited)) (if b then pure (sql, c) else m)
  page_case true limited m h = Yields-pure (sql, c) refl
  page_case false limited m h = h

  -- The text has the limit of the page, but for no page.
  pub build_pagination-Yields :
      Yields
        (λ page. page.0 ≡ (if no_page c.pagination then sql else sql ++ page_limit c.pagination))
        (build_pagination env c sql vs)
  unfolding build_pagination get_limit_sql get_count_sql
  build_pagination-Yields =
      let limited = limit_sql (sized c.pagination) sql in
      let e = sized-page_limit c.pagination sql in
      page_case (no_page c.pagination) _ _ (
        Yields-if (not c.pagination.is_page) _ _ (Yields-pure (limited, c) e) (
          Yields-if (not c.pagination.is_offset) _ _
            (Yields-map (λ page h. h ∙ e) (count_page-Yields limited (count_sql sql)))
            (Yields-pure (limited, c) e)))
