-- ===== src/Sqld/Order/Texts.antt =====
-- What BuildGroupBy and BuildSortBy promise: the fields with commas between them.
use mathlib.Core.List.{append_assoc}
use mathlib.Core.Bool.{false≢true}
use freego.Prelude.{
  both_true, pos, eq_ℤ, Text, String, codes, ok, trim_end, trim_end-append, ◌≡◌, refl, ap, ◌∙◌, sym,
  Bool, true, false, not, ◌&&◌, ◌||◌, some, List, [], ◌∷◌, ◌++◌, if◌then◌else◌,
}
use freego.Sqlc.Value.{int, Condition, condit}
use freego.Sqlc.Cnd.{Cnd}
use freego.Sqld.Where.Clauses.{join, flat, none_in}
use freego.Sqld.Where.Refinement.{flat-join}
use freego.Sqld.Delete.{is_empty}
use freego.Sqld.Order.{field_key, group_loop, build_group_by, direction, sort_loop, build_sort_by}

-- The fields of the names that are not empty.
abbrev pub group_fields : Bool → List Text → List Text
group_fields e [] = []
group_fields e (v ∷ vs) =
    let rest = group_fields e vs in if is_empty v then rest else field_key e v ∷ rest

-- The field of an order, and its direction: 2 is DESC_.
abbrev pub sort_field : Bool → Condition → Text
sort_field e (condit _ key (int n) _ _) =
    field_key e key ++ (if eq_ℤ n (pos 2) then codes " desc" else codes " asc")
sort_field e (condit _ key _ _ _) = field_key e key

abbrev pub sort_fields : Bool → List Condition → List Text
sort_fields e [] = []
sort_fields e (v ∷ vs) = sort_field e v ∷ sort_fields e vs

-- The order is ASC_ or DESC_.
abbrev pub is_sort : Condition → Bool
is_sort (condit _ _ (int n) _ _) = eq_ℤ n (pos 1) || eq_ℤ n (pos 2)
is_sort _ = false

abbrev pub all_sorts : List Condition → Bool
all_sorts [] = true
all_sorts (v ∷ vs) = is_sort v && all_sorts vs

-- Fields with a comma behind each lose the last one.
cut_commas :
    (word : String) (x : Text) (xs : List Text)
    → trim_end 1 (codes word ++ flat (codes ",") (x ∷ xs))
      ≡ ok (codes word ++ join (codes ",") (x ∷ xs))
cut_commas word x xs =
    ap (λ t. trim_end 1 (codes word ++ t)) (flat-join (codes ",") x xs)
    ∙ ap (trim_end 1) (sym (append_assoc (codes word) (join (codes ",") (x ∷ xs)) (codes ",")))
    ∙ trim_end-append 1 (codes word ++ join (codes ",") (x ∷ xs)) (codes ",") refl

group_loop-flat :
    (e : Bool) (vs : List Text) → group_loop e vs ≡ flat (codes ",") (group_fields e vs)
unfolding group_loop flat
group_loop-flat e [] = refl
group_loop-flat e ([] ∷ vs) = group_loop-flat e vs
group_loop-flat e ((c ∷ v) ∷ vs) =
    ap (λ t. (field_key e (c ∷ v) ++ codes ",") ++ t) (group_loop-flat e vs)

-- The three ways of a direction.
sort_text :
    (k : Text) (a d : Bool)
    → (a || d) ≡ true
    → k ++ (if d then codes " desc," else if a then codes " asc," else [])
      ≡ (k ++ (if d then codes " desc" else codes " asc")) ++ codes ","
sort_text k a true h = sym (append_assoc k (codes " desc") (codes ","))
sort_text k true false h = sym (append_assoc k (codes " asc") (codes ","))
sort_text k false false h = absurd (false≢true h)

sort_round :
    (e : Bool) (c : Condition) (rest : Text) (cs : List Condition)
    → is_sort c ≡ true
    → sort_loop e cs ≡ rest
    → sort_loop e (c ∷ cs) ≡ (sort_field e c ++ codes ",") ++ rest
unfolding sort_loop direction
sort_round e (condit _ key (int n) _ _) rest cs h r =
    rw (sort_text (field_key e key) (eq_ℤ n (pos 1)) (eq_ℤ n (pos 2)) h, r) refl
sort_round e (condit _ key _ _ _) rest cs h r = absurd (false≢true h)

sort_loop-flat :
    (e : Bool) (cs : List Condition)
    → all_sorts cs ≡ true
    → sort_loop e cs ≡ flat (codes ",") (sort_fields e cs)
unfolding flat
sort_loop-flat e [] h = unfold sort_loop in refl
sort_loop-flat e (c ∷ cs) h =
    let (one, others) = both_true (is_sort c) (all_sorts cs) h in
    sort_round e c _ cs one (sort_loop-flat e cs others)

-- The text of a clause: nothing without a field.
abbrev pub clause_of : String → List Text → Text
clause_of word [] = []
clause_of word (x ∷ xs) = codes word ++ join (codes ",") (x ∷ xs)

sort_case :
    (e : Bool) (cs : List Condition)
    → all_sorts cs ≡ true
    → (if is_empty cs then ok [] else trim_end 1 (codes " order by" ++ sort_loop e cs))
      ≡ ok (clause_of " order by" (sort_fields e cs))
sort_case e [] h = refl
sort_case e (c ∷ cs) h =
    ap (λ t. trim_end 1 (codes " order by" ++ t)) (sort_loop-flat e (c ∷ cs) h)
    ∙ cut_commas " order by" (sort_field e c) (sort_fields e cs)

-- For orders that are ASC_ or DESC_, BuildSortBy returns the fields with their directions, commas
-- between them and " order by" before them, and nothing if there is none.
pub build_sort_by-text :
    (c : Cnd)
    → all_sorts c.orderbys ≡ true
    → build_sort_by (some c) ≡ ok (clause_of " order by" (sort_fields c.escape c.orderbys))
unfolding build_sort_by
build_sort_by-text c h = sort_case c.escape c.orderbys h

group_case :
    (e : Bool) (vs : List Text)
    → none_in vs || not (none_in (group_fields e vs)) ≡ true
    → (if is_empty vs then ok [] else trim_end 1 (codes " group by" ++ group_loop e vs))
      ≡ ok (clause_of " group by" (group_fields e vs))
group_case e [] h = refl
group_case e (v ∷ vs) h =
    ap (λ t. trim_end 1 (codes " group by" ++ t)) (group_loop-flat e (v ∷ vs))
    ∙ some_field (group_fields e (v ∷ vs)) h
  where
    some_field :
        (xs : List Text)
        → not (none_in xs) ≡ true
        → trim_end 1 (codes " group by" ++ flat (codes ",") xs) ≡ ok (clause_of " group by" xs)
    some_field [] k = absurd (false≢true k)
    some_field (x ∷ xs) k = cut_commas " group by" x xs

-- If a builder has no names to group by, or one of them is not empty, BuildGroupBy returns the
-- fields of those that are not empty, with commas between them and " group by" before them, and
-- nothing if there is none.
pub build_group_by-text :
    (c : Cnd)
    → none_in c.groupbys || not (none_in (group_fields c.escape c.groupbys)) ≡ true
    → build_group_by (some c) ≡ ok (clause_of " group by" (group_fields c.escape c.groupbys))
unfolding build_group_by
build_group_by-text c h = group_case c.escape c.groupbys h
