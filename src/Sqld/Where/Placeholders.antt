-- ===== src/Sqld/Where/Placeholders.antt =====
-- The placeholders of a where clause are as many as its arguments.
use freego.Prelude.{
  ℕ, suc, ◌+◌, Text, String, codes, Go, ok, ◌==◌, if◌then◌else◌, ◌≡◌, refl, ◌∙◌, sym, arith, Bool,
  true, false, ◌&&◌, List, [], ◌∷◌, ◌++◌, length, length-append,
}
use freego.Sqlc.Value.{
  eq, not_eq, lt, lte, gt, gte, is_null, is_not_null, between, not_between, in_, not_in, like,
  not_like, or_, Value, cnd, Values, no_value, value, Condition, condit, Conditions, no_condition,
  condition, to_list,
}
use freego.Sqld.Where.{Part, build_cond_key, build_where_case}
use freego.Sqld.Where.Clauses.{
  join, flat, marks, first_two, has_two, plain, listed, clause, alternatives, alternative, clauses,
  clause_args, alternative_args, value_args, args, sound_condition, sound_values, sound_value,
  sound, when,
}
use freego.Sqld.Where.Refinement.{build_where_case_lem}

-- How many bytes of the text are a question mark.
unfoldable pub question_marks : Text → ℕ
question_marks [] = 0
question_marks (c ∷ t) = if c == b'?' then suc (question_marks t) else question_marks t

pub question_marks-append :
    (s t : Text) → question_marks (s ++ t) ≡ question_marks s + question_marks t
unfolding question_marks
question_marks-append [] t = omega arith
question_marks-append (c ∷ s) t = ground (arith, question_marks-append s t)

unfoldable pub marks_in : List Text → ℕ
marks_in [] = 0
marks_in (t ∷ ts) = question_marks t + marks_in ts

marks_in-append : (xs ys : List Text) → marks_in (xs ++ ys) ≡ marks_in xs + marks_in ys
unfolding marks_in
marks_in-append [] ys = omega arith
marks_in-append (x ∷ xs) ys = omega (arith, marks_in-append xs ys)

question_marks-flat :
    (sep : Text) (ts : List Text)
    → question_marks sep ≡ 0
    → question_marks (flat sep ts) ≡ marks_in ts
unfolding flat marks_in question_marks
question_marks-flat sep [] h = refl
question_marks-flat sep (t ∷ ts) h = omega (
  arith,
  question_marks-flat sep ts h,
  question_marks-append (t ++ sep) (flat sep ts),
  question_marks-append t sep,
)

question_marks-join :
    (sep : Text) (ts : List Text)
    → question_marks sep ≡ 0
    → question_marks (join sep ts) ≡ marks_in ts
unfolding join marks_in question_marks
question_marks-join sep [] h = refl
question_marks-join sep (t ∷ []) h = omega arith
question_marks-join sep (t ∷ (u ∷ ts)) h = omega (
  arith,
  question_marks-join sep (u ∷ ts) h,
  question_marks-append t (sep ++ join sep (u ∷ ts)),
  question_marks-append sep (join sep (u ∷ ts)),
)

marks_in-marks : (vs : Values) → marks_in (marks vs) ≡ length (to_list vs)
unfolding marks marks_in question_marks
marks_in-marks no_value = refl
marks_in-marks (value v vs) = omega (arith, marks_in-marks vs)

question_marks-key :
    (e : Bool) (key : Text) → question_marks (build_cond_key e key) ≡ question_marks key
unfolding build_cond_key question_marks
question_marks-key true key =
    question_marks-append key (codes "`") ∙ unfold question_marks in omega arith
question_marks-key false key = refl

marks_in-plain :
    (e : Bool) (key : Text) (op : String)
    → marks_in (plain e key op) ≡ question_marks key + question_marks (codes op)
unfolding marks_in plain
marks_in-plain e key op =
    omega (arith, question_marks-append (build_cond_key e key) (codes op), question_marks-key e key)

marks_in-listed :
    (e : Bool) (key : Text) (op : String) (vs : Values)
    → question_marks (codes op) ≡ 0
    → marks_in (listed e key op vs) ≡ question_marks key + length (to_list vs)
unfolding marks_in listed
marks_in-listed e key op vs h =
    let list = join (codes ",") (marks vs) in
    omega (
      arith,
      h,
      question_marks-append (build_cond_key e key) (codes op ++ (list ++ codes ")")),
      question_marks-append (codes op) (list ++ codes ")"),
      question_marks-append list (codes ")"),
      question_marks-key e key,
      question_marks-join (codes ",") (marks vs) (unfold question_marks in refl),
      marks_in-marks vs,
      closing,
    )
  where
    closing : question_marks (codes ")") ≡ 0
    closing = unfold question_marks in refl

-- The question marks of the keys that the clauses show.
unfoldable mutual
  pub key_marks_condition : Condition → ℕ
  key_marks_condition (condit or_ key v vs _) = key_marks_values vs
  key_marks_condition (condit eq key v vs _) = question_marks key
  key_marks_condition (condit not_eq key v vs _) = question_marks key
  key_marks_condition (condit lt key v vs _) = question_marks key
  key_marks_condition (condit lte key v vs _) = question_marks key
  key_marks_condition (condit gt key v vs _) = question_marks key
  key_marks_condition (condit gte key v vs _) = question_marks key
  key_marks_condition (condit is_null key v vs _) = question_marks key
  key_marks_condition (condit is_not_null key v vs _) = question_marks key
  key_marks_condition (condit between key v vs _) = question_marks key
  key_marks_condition (condit not_between key v vs _) = question_marks key
  key_marks_condition (condit in_ key v vs _) = question_marks key
  key_marks_condition (condit not_in key v vs _) = question_marks key
  key_marks_condition (condit like key v vs _) = question_marks key
  key_marks_condition (condit not_like key v vs _) = question_marks key
  key_marks_condition _ = 0

  pub key_marks_values : Values → ℕ
  key_marks_values no_value = 0
  key_marks_values (value v vs) = key_marks_value v + key_marks_values vs

  pub key_marks_value : Value → ℕ
  key_marks_value (cnd _ cs) = key_marks cs
  key_marks_value _ = 0

  pub key_marks : Conditions → ℕ
  key_marks no_condition = 0
  key_marks (condition c cs) = key_marks_condition c + key_marks cs

&&-true : (b c : Bool) → (b && c) ≡ true → (b ≡ true) × (c ≡ true)
&&-true b c h = ground arith

plain_marks :
    (e : Bool) (key : Text) (op : String) (vs : List Value)
    → question_marks (codes op) ≡ length vs
    → marks_in (plain e key op) ≡ length vs + question_marks key
plain_marks e key op vs h = omega (arith, marks_in-plain e key op)

range_marks :
    (e : Bool) (key : Text) (op : String) (vs : Values)
    → question_marks (codes op) ≡ 2
    → has_two vs ≡ true
    → marks_in (plain e key op) ≡ length (first_two vs) + question_marks key
range_marks e key op no_value h s = cc
range_marks e key op (value a no_value) h s = cc
range_marks e key op (value a (value b vs)) h s =
    plain_marks e key op (first_two (value a (value b vs))) (unfold first_two in h)

or_marks :
    (alts : List Text)
    → question_marks (codes " (" ++ (join (codes " or") alts ++ codes ")")) ≡ marks_in alts
or_marks alts = omega (
  arith,
  question_marks-append (codes " (") (join (codes " or") alts ++ codes ")"),
  question_marks-append (join (codes " or") alts) (codes ")"),
  question_marks-join (codes " or") alts (unfold question_marks in refl),
  opening,
  closing,
)
  where
    opening : question_marks (codes " (") ≡ 0
    opening = unfold question_marks in refl

    closing : question_marks (codes ")") ≡ 0
    closing = unfold question_marks in refl

builder_marks :
    (e : Bool) (cs : Conditions)
    → marks_in (clauses e cs) ≡ length (args cs) + key_marks cs
    → marks_in (alternative (cnd e cs)) ≡ length (args cs) + key_marks cs
unfolding marks_in alternative
builder_marks e cs h = omega (
  arith,
  h,
  question_marks-append (join (codes " and") (clauses e cs)) (codes " "),
  question_marks-join (codes " and") (clauses e cs) (unfold question_marks in refl),
  space,
)
  where
    space : question_marks (codes " ") ≡ 0
    space = unfold question_marks in refl

mutual
  unfolding clause clause_args sound_condition key_marks alternatives alternative marks_in
      question_marks

  clause_marks :
      (e : Bool) (c : Condition)
      → sound_condition c ≡ true
      → marks_in (clause e c) ≡ length (clause_args c) + key_marks_condition c
  clause_marks e (condit eq key v vs _) s = plain_marks e key " = ?" (v ∷ []) refl
  clause_marks e (condit not_eq key v vs _) s = plain_marks e key " <> ?" (v ∷ []) refl
  clause_marks e (condit lt key v vs _) s = plain_marks e key " < ?" (v ∷ []) refl
  clause_marks e (condit lte key v vs _) s = plain_marks e key " <= ?" (v ∷ []) refl
  clause_marks e (condit gt key v vs _) s = plain_marks e key " > ?" (v ∷ []) refl
  clause_marks e (condit gte key v vs _) s = plain_marks e key " >= ?" (v ∷ []) refl
  clause_marks e (condit is_null key v vs _) s = plain_marks e key " is null" [] refl
  clause_marks e (condit is_not_null key v vs _) s = plain_marks e key " is not null" [] refl
  clause_marks e (condit between key v vs _) s = range_marks e key " between ? and ?" vs refl s
  clause_marks e (condit not_between key v vs _) s =
      range_marks e key " not between ? and ?" vs refl s
  clause_marks e (condit in_ key v vs _) s = omega (arith, marks_in-listed e key " in(" vs refl)
  clause_marks e (condit not_in key v vs _) s =
      omega (arith, marks_in-listed e key " not in(" vs refl)
  clause_marks e (condit like key v vs _) s =
      plain_marks e key " like concat('%',?,'%')" (v ∷ []) refl
  clause_marks e (condit not_like key v vs _) s =
      plain_marks e key " not like concat('%',?,'%')" (v ∷ []) refl
  clause_marks e (condit or_ key v vs _) s =
      omega
        (arith, or_marks (alternatives vs), alternatives_marks vs (&&-true (sound_values vs) _ s).0)
  clause_marks e _ s = refl

  alternatives_marks :
      (vs : Values)
      → sound_values vs ≡ true
      → marks_in (alternatives vs) ≡ length (alternative_args vs) + key_marks_values vs
  alternatives_marks no_value s = refl
  alternatives_marks (value v vs) s =
      let both = &&-true (sound_value v) (sound_values vs) s in
      omega (
        arith,
        marks_in-append (alternative v) (alternatives vs),
        alternative_marks v both.0,
        alternatives_marks vs both.1,
        length-append (value_args v) (alternative_args vs),
      )

  alternative_marks :
      (v : Value)
      → sound_value v ≡ true
      → marks_in (alternative v) ≡ length (value_args v) + key_marks_value v
  alternative_marks (cnd e cs) s =
      builder_marks e cs (clauses_marks e cs (&&-true (sound cs) _ s).0)
  alternative_marks _ s = refl

  clauses_marks :
      (e : Bool) (cs : Conditions)
      → sound cs ≡ true
      → marks_in (clauses e cs) ≡ length (args cs) + key_marks cs
  clauses_marks e no_condition s = refl
  clauses_marks e (condition c cs) s =
      let both = &&-true (sound_condition c) (sound cs) s in
      omega (
        arith,
        marks_in-append (clause e c) (clauses e cs),
        clause_marks e c both.0,
        clauses_marks e cs both.1,
        length-append (clause_args c) (args cs),
      )

when-ok : (b : Bool) (p q : Part) → ◌≡◌ {A = Go Part} (when b p) (ok q) → (b ≡ true) × (p ≡ q)
when-ok true p q h = (refl, cc)
when-ok false p q h = cc

-- When BuildWhereCase returns, the conditions are sound and its results are their clauses.
pub build_where_case-ok :
    (e : Bool) (cs : Conditions) (p : Part)
    → build_where_case e cs ≡ ok p
    → (sound cs ≡ true) × ((flat (codes " and") (clauses e cs), args cs) ≡ p)
build_where_case-ok e cs p h =
    when-ok (sound cs) (flat (codes " and") (clauses e cs), args cs) p
      (sym (build_where_case_lem e cs) ∙ h)

-- A where clause that BuildWhereCase returns has one placeholder for each argument, and beyond
-- these only the question marks that the keys themselves contain.
pub build_where_case-placeholders :
    (e : Bool) (cs : Conditions) (p : Part)
    → build_where_case e cs ≡ ok p
    → question_marks p.0 ≡ length p.1 + key_marks cs
build_where_case-placeholders e cs p h =
    let (s, q) = build_where_case-ok e cs p h in
    rw (← q) (
      question_marks-flat (codes " and") (clauses e cs) (unfold question_marks in refl)
      ∙ clauses_marks e cs s)
