-- ===== src/Sqld/Where/Clauses.antt =====
-- What BuildWhereCase promises: the clauses of a condition list, written down without buffers
-- and without trimming, and the inputs for which the code does not panic.
use freego.Prelude.{
  Text, String, codes, Go, panic, ok, Bool, true, false, not, ◌&&◌, List, [], ◌∷◌, ◌++◌,
}
use freego.Sqlc.Value.{
  eq, not_eq, lt, lte, gt, gte, is_null, is_not_null, between, not_between, in_, not_in, like,
  not_like, or_, Value, nil_cnd, cnd, Values, no_value, value, Condition, condit, Conditions,
  no_condition, condition, to_list,
}
use freego.Sqld.Where.{build_cond_key}

-- The texts with a separator between them.
unfoldable pub join : Text → List Text → Text
join sep [] = []
join sep (x ∷ []) = x
join sep (x ∷ (y ∷ xs)) = x ++ (sep ++ join sep (y ∷ xs))

-- The texts with the separator behind each.
unfoldable pub flat : Text → List Text → Text
flat sep [] = []
flat sep (x ∷ xs) = (x ++ sep) ++ flat sep xs

abbrev pub none_in {ℓ} : {A : Type ℓ} → List A → Bool
none_in [] = true
none_in _ = false

-- A placeholder for each value.
unfoldable pub marks : Values → List Text
marks no_value = []
marks (value _ vs) = codes "?" ∷ marks vs

unfoldable pub first_two : Values → List Value
first_two (value a (value b _)) = a ∷ b ∷ []
first_two _ = []

abbrev pub has_two : Values → Bool
has_two (value _ (value _ _)) = true
has_two _ = false

abbrev pub has_value : Values → Bool
has_value no_value = false
has_value _ = true

-- `key op`, `key in(?,?)`
unfoldable pub plain : Bool → Text → String → List Text
unfolding build_cond_key
plain e key op = (build_cond_key e key ++ codes op) ∷ []

unfoldable pub listed : Bool → Text → String → Values → List Text
unfolding build_cond_key join marks
listed e key op vs =
    (build_cond_key e key ++ (codes op ++ (join (codes ",") (marks vs) ++ codes ")"))) ∷ []

unfoldable mutual
  unfolding plain listed join

  -- The clause of a condition; none for a logic that the builder does not know.
  pub clause : Bool → Condition → List Text
  clause e (condit eq key v vs _) = plain e key " = ?"
  clause e (condit not_eq key v vs _) = plain e key " <> ?"
  clause e (condit lt key v vs _) = plain e key " < ?"
  clause e (condit lte key v vs _) = plain e key " <= ?"
  clause e (condit gt key v vs _) = plain e key " > ?"
  clause e (condit gte key v vs _) = plain e key " >= ?"
  clause e (condit is_null key v vs _) = plain e key " is null"
  clause e (condit is_not_null key v vs _) = plain e key " is not null"
  clause e (condit between key v vs _) = plain e key " between ? and ?"
  clause e (condit not_between key v vs _) = plain e key " not between ? and ?"
  clause e (condit in_ key v vs _) = listed e key " in(" vs
  clause e (condit not_in key v vs _) = listed e key " not in(" vs
  clause e (condit like key v vs _) = plain e key " like concat('%',?,'%')"
  clause e (condit not_like key v vs _) = plain e key " not like concat('%',?,'%')"
  clause e (condit or_ key v vs _) =
      (codes " (" ++ (join (codes " or") (alternatives vs) ++ codes ")")) ∷ []
  clause e _ = []

  -- The conjunctions of the builders among the values, each with a space behind it.
  pub alternatives : Values → List Text
  alternatives no_value = []
  alternatives (value v vs) = alternative v ++ alternatives vs

  pub alternative : Value → List Text
  alternative (cnd escape cs) = (join (codes " and") (clauses escape cs) ++ codes " ") ∷ []
  alternative _ = []

  pub clauses : Bool → Conditions → List Text
  clauses e no_condition = []
  clauses e (condition c cs) = clause e c ++ clauses e cs

unfoldable mutual
  unfolding first_two

  -- The arguments, in the order of their placeholders.
  pub clause_args : Condition → List Value
  clause_args (condit is_null key v vs _) = []
  clause_args (condit is_not_null key v vs _) = []
  clause_args (condit between key v vs _) = first_two vs
  clause_args (condit not_between key v vs _) = first_two vs
  clause_args (condit in_ key v vs _) = to_list vs
  clause_args (condit not_in key v vs _) = to_list vs
  clause_args (condit or_ key v vs _) = alternative_args vs
  clause_args (condit eq key v vs _) = v ∷ []
  clause_args (condit not_eq key v vs _) = v ∷ []
  clause_args (condit lt key v vs _) = v ∷ []
  clause_args (condit lte key v vs _) = v ∷ []
  clause_args (condit gt key v vs _) = v ∷ []
  clause_args (condit gte key v vs _) = v ∷ []
  clause_args (condit like key v vs _) = v ∷ []
  clause_args (condit not_like key v vs _) = v ∷ []
  clause_args _ = []

  pub alternative_args : Values → List Value
  alternative_args no_value = []
  alternative_args (value v vs) = value_args v ++ alternative_args vs

  pub value_args : Value → List Value
  value_args (cnd _ cs) = args cs
  value_args _ = []

  pub args : Conditions → List Value
  args no_condition = []
  args (condition c cs) = clause_args c ++ args cs

unfoldable mutual
  unfolding clause

  -- Two values for a range, one at least for a list, and for OR one builder at least, each of
  -- which has a clause.
  pub sound_condition : Condition → Bool
  sound_condition (condit between key v vs _) = has_two vs
  sound_condition (condit not_between key v vs _) = has_two vs
  sound_condition (condit in_ key v vs _) = has_value vs
  sound_condition (condit not_in key v vs _) = has_value vs
  sound_condition (condit or_ key v vs _) = sound_values vs && not (none_in (alternatives vs))
  sound_condition _ = true

  pub sound_values : Values → Bool
  sound_values no_value = true
  sound_values (value v vs) = sound_value v && sound_values vs

  pub sound_value : Value → Bool
  sound_value nil_cnd = false
  sound_value (cnd e cs) = sound cs && not (none_in (clauses e cs))
  sound_value _ = true

  pub sound : Conditions → Bool
  sound no_condition = true
  sound (condition c cs) = sound_condition c && sound cs

-- A call that returns exactly if the test holds.
abbrev pub when {ℓ} : {A : Type ℓ} → Bool → A → Go A
when true a = ok a
when false a = panic
