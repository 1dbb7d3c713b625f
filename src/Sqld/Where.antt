-- ===== src/Sqld/Where.antt =====
-- ormx/sqld/base_manager.go: BuildCondKey and BuildWhereCase of RDBManager.
pub mod Clauses
pub mod Cuts
pub mod Refinement
pub mod Placeholders
pub mod Totality
use freego.Prelude.{
  Text, String, codes, Go, panic, ok, ◌>>=◌, trim_end, Bool, true, false, Option, none, some, List,
  [], ◌∷◌, ◌++◌, if◌then◌else◌,
}
use freego.Sqlc.Value.{
  Logic, eq, not_eq, lt, lte, gt, gte, is_null, is_not_null, between, between2, not_between, in_,
  not_in, like, not_like, or_, Value, nil_cnd, cnd, Values, no_value, value, Condition, condit,
  Conditions, no_condition, condition, to_list,
}

-- BuildCondKey
unfoldable pub build_cond_key : Bool → Text → Text
build_cond_key escape key = if escape then codes " `" ++ (key ++ codes "`") else codes " " ++ key

-- What one condition writes to case_part and appends to case_arg.
abbrev pub Part : Type 0
Part = Text × List Value

-- `values[0], values[1]`, which panics when there are fewer.
unfoldable pub two_values : Values → Go (List Value)
two_values (value a (value b _)) = ok (a ∷ b ∷ [])
two_values _ = panic

-- The loop of IN_ and NOT_IN_ over `buf`.
unfoldable pub marks_of : Values → Text
marks_of no_value = []
marks_of (value _ vs) = codes "?," ++ marks_of vs

-- A case with one placeholder.
unfoldable pub one_arg : Bool → Text → String → Value → Go Part
unfolding build_cond_key
one_arg escape key op v = ok (build_cond_key escape key ++ codes op, v ∷ [])

unfoldable pub two_args : Bool → Text → String → Values → Go Part
unfolding build_cond_key two_values
two_args escape key op vs =
    two_values vs >>= λ args. ok (build_cond_key escape key ++ codes op, args)

unfoldable pub list_args : Bool → Text → String → Values → Go Part
unfolding build_cond_key marks_of
list_args escape key op vs = trim_end 1 (marks_of vs) >>= λ marks.
    ok (build_cond_key escape key ++ (codes op ++ (marks ++ codes ") and")), to_list vs)

-- The end of the case OR_, behind its loop.
unfoldable pub close_or : Part → Go Part
close_or (orpart, args) = trim_end 3 orpart >>= λ s. ok (codes " (" ++ (s ++ codes ") and"), args)

-- One round of the loop of OR_ over a nested builder's result.
unfoldable pub add_or : Part → Part → Go Part
add_or (orpart, args) (s, arg) =
    trim_end 3 s >>= λ s'. ok (orpart ++ (s' ++ codes " or"), args ++ arg)

unfoldable mutual
  -- The `switch v.Logic`; a logic with no case writes nothing.
  unfolding one_arg two_args list_args close_or add_or build_cond_key

  pub condition_case : Bool → Condition → Go Part
  condition_case e (condit eq key v vs _) = one_arg e key " = ? and" v
  condition_case e (condit not_eq key v vs _) = one_arg e key " <> ? and" v
  condition_case e (condit lt key v vs _) = one_arg e key " < ? and" v
  condition_case e (condit lte key v vs _) = one_arg e key " <= ? and" v
  condition_case e (condit gt key v vs _) = one_arg e key " > ? and" v
  condition_case e (condit gte key v vs _) = one_arg e key " >= ? and" v
  condition_case e (condit is_null key v vs _) =
      ok (build_cond_key e key ++ codes " is null and", [])
  condition_case e (condit is_not_null key v vs _) =
      ok (build_cond_key e key ++ codes " is not null and", [])
  condition_case e (condit between key v vs _) = two_args e key " between ? and ? and" vs
  condition_case e (condit not_between key v vs _) = two_args e key " not between ? and ? and" vs
  condition_case e (condit in_ key v vs _) = list_args e key " in(" vs
  condition_case e (condit not_in key v vs _) = list_args e key " not in(" vs
  condition_case e (condit like key v vs _) = one_arg e key " like concat('%',?,'%') and" v
  condition_case e (condit not_like key v vs _) = one_arg e key " not like concat('%',?,'%') and" v
  condition_case e (condit or_ key v vs _) = or_loop ([], []) vs >>= close_or
  condition_case e _ = ok ([], [])

  -- The loop over `values` of OR_; a value that is no *Cnd is skipped, and the builder of a nil
  -- *Cnd returns an empty buffer.
  pub or_loop : Part → Values → Go Part
  or_loop acc no_value = ok acc
  or_loop acc (value v vs) = or_round acc v >>= λ acc'. or_loop acc' vs

  pub or_round : Part → Value → Go Part
  or_round acc nil_cnd = add_or acc ([], [])
  or_round acc (cnd escape cs) = where_loop escape ([], []) cs >>= add_or acc
  or_round acc _ = ok acc

  -- The loop over `cnd.Conditions`.
  pub where_loop : Bool → Part → Conditions → Go Part
  where_loop e acc no_condition = ok acc
  where_loop e acc (condition c cs) =
      condition_case e c >>= λ p. where_loop e (acc.0 ++ p.0, acc.1 ++ p.1) cs

-- BuildWhereCase of a Cnd with this Escape and these Conditions.
unfoldable pub build_where_case : Bool → Conditions → Go Part
unfolding where_loop
build_where_case e cs = where_loop e ([], []) cs
