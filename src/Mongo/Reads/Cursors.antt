-- ===== src/Mongo/Reads/Cursors.antt =====
-- The pages of FindList that begin behind a document.
use freego.Prelude.{
  ℕ, suc, ℤ, pos, negsuc, Text, ok, ◌>>=◌, ◌≡◌, Bool, true, false, none, some, List, [], ◌∷◌,
  if◌then◌else◌,
}
use freego.Sqlc.Value.{lt, gt, int, no_value, Condition, condit, append_condition}
use freego.Sqlc.Builder.{page_size_or_default}
use freego.Sqlc.Cnd.{Cnd}
use freego.Mongo.Match.{Test, test, get_key, build_mongo_match}
use freego.Mongo.Match.Lookup.{lookup, last_test, over, entries_of}
use freego.Mongo.Options.{SortBy, build_mongo_sort_by, build_mongo_limit}

-- How a fast page is asked for: sorted up or down, behind the last document of a page or before
-- the first one. The two ids, whether the bound is a lower one, and the id in it.
pub data IsTurn : ℤ → ℤ → ℤ → Bool → ℤ → Type 0 where
  up_next : (n : ℕ) → IsTurn (pos 1) (pos 0) (pos (suc n)) true (pos (suc n))
  up_back : (n : ℕ) → IsTurn (pos 1) (pos (suc n)) (pos 0) false (pos (suc n))
  down_next : (n : ℕ) → IsTurn (pos 2) (pos 0) (pos (suc n)) false (pos (suc n))
  down_back : (n : ℕ) → IsTurn (pos 2) (pos (suc n)) (pos 0) true (pos (suc n))

abbrev pub bound : Bool → Text → ℤ → Condition
bound up key id = condit (if up then gt else lt) key (int id) no_value []

abbrev pub bound_test : Bool → ℤ → Test
bound_test up id = test (if up then "$gt" else "$lt") (int id)

-- The builder with the bound, and with the order in which the page is read.
turned : Bool → Text → ℤ → Cnd → Cnd
turned up key id c = record c {
  conditions = append_condition c.conditions (bound up key id);
  pagination = record c.pagination { fast_page_sort_param = if up then pos 1 else pos 2 };
}

-- What a page holds: the documents beyond the bound, read away from it, and at most as many as the
-- size of the page.
abbrev pub IsPageBeyond : Cnd → Text → Bool → ℤ → ℤ → Cnd → Type 0
IsPageBeyond c key up id size d =
    (over (λ q. lookup (get_key key) (entries_of q)) (build_mongo_match d.conditions)
      ≡ (last_test (get_key key) none c.conditions >>= λ _. ok (some (bound_test up id))))
    × ((rest : List SortBy) × (build_mongo_sort_by d
          ≡ record { key = get_key key; sort = if up then pos 1 else negsuc 0 } ∷ rest))
    × (build_mongo_limit d ≡ (pos 0, page_size_or_default size))
