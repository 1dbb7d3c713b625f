-- ===== src/Sqld/Where/Refinement.antt =====
-- BuildWhereCase writes exactly the clauses of its conditions, and panics on the unsound ones.
use mathlib.Core.List.{append-nil, append_assoc}
use freego.Prelude.{
  Text, String, codes, Go, ok, ◌>>=◌, trim_end, trim_end-append, trim_end-short, arith, ◌≡◌, refl,
  ap, ◌∙◌, sym, Bool, true, false, not, ◌&&◌, List, [], ◌∷◌, ◌++◌,
}
use freego.Sqlc.Value.{
  eq, not_eq, lt, lte, gt, gte, is_null, is_not_null, between, not_between, in_, not_in, like,
  not_like, or_, Value, nil_cnd, cnd, Values, no_value, value, Condition, condit, Conditions,
  no_condition, condition, to_list,
}
use freego.Sqld.Where.{
  Part, build_cond_key, two_args, list_args, marks_of, close_or, add_or, condition_case, or_loop,
  or_round, where_loop, build_where_case,
}
use freego.Sqld.Where.Clauses.{
  join, flat, none_in, marks, first_two, has_two, has_value, plain, listed, clause, alternatives,
  alternative, clauses, clause_args, alternative_args, value_args, args, sound_condition,
  sound_values, sound_value, sound, when,
}

pub flat-join : (sep x : Text) (xs : List Text) → flat sep (x ∷ xs) ≡ join sep (x ∷ xs) ++ sep
unfolding flat join
flat-join sep x [] = append-nil (x ++ sep)
flat-join sep x (y ∷ xs) = simp (flat-join sep y xs, append_assoc)

flat-append : (sep : Text) (xs ys : List Text) → flat sep (xs ++ ys) ≡ flat sep xs ++ flat sep ys
unfolding flat
flat-append sep [] ys = refl
flat-append sep (x ∷ xs) ys = simp (flat-append sep xs ys, append_assoc)

marks_of-flat : (vs : Values) → marks_of vs ≡ flat (codes ",") (marks vs)
unfolding marks_of flat marks
marks_of-flat no_value = refl
marks_of-flat (value v vs) = ap (λ t. codes "?," ++ t) (marks_of-flat vs)

bind-when {ℓ κ} :
    {A : Type ℓ} {B : Type κ} (m : Go A) (f : A → Go B) (b c : Bool) (a : A) (r : B)
    → m ≡ when b a
    → f a ≡ when c r
    → (m >>= f) ≡ when (b && c) r
bind-when m f true c a r h k = rw h k
bind-when m f false c a r h k = rw h

abbrev and_ : Text
and_ = codes " and"

plain_part :
    (e : Bool) (key : Text) (op full : String) (vs : List Value)
    → codes full ≡ codes op ++ and_
    → ◌≡◌ {A = Go Part}
        (ok (build_cond_key e key ++ codes full, vs))
        (ok (flat and_ (plain e key op), vs))
unfolding flat plain
plain_part e key op full vs h = simp (h, append_assoc, append-nil)

two_args-eq :
    (e : Bool) (key : Text) (op full : String) (vs : Values)
    → codes full ≡ codes op ++ and_
    → two_args e key full vs ≡ when (has_two vs) (flat and_ (plain e key op), first_two vs)
unfolding two_args first_two
two_args-eq e key op full no_value h = refl
two_args-eq e key op full (value a no_value) h = refl
two_args-eq e key op full (value a (value b vs)) h = plain_part e key op full (a ∷ b ∷ []) h

trim_marks :
    (v : Value) (vs : Values)
    → trim_end 1 (marks_of (value v vs)) ≡ ok (join (codes ",") (marks (value v vs)))
unfolding marks
trim_marks v vs =
    ap (trim_end 1) (marks_of-flat (value v vs) ∙ flat-join (codes ",") (codes "?") (marks vs))
    ∙ trim_end-append 1 (join (codes ",") (marks (value v vs))) (codes ",") refl

list_args-eq :
    (e : Bool) (key : Text) (op : String) (vs : Values)
    → list_args e key op vs ≡ when (has_value vs) (flat and_ (listed e key op vs), to_list vs)
unfolding list_args
list_args-eq e key op no_value =
    rw (trim_end-short 1 (marks_of no_value) (unfold marks_of in omega arith))
list_args-eq e key op (value v vs) =
    rw (trim_marks v vs) (unfold flat listed in simp (append_assoc, append-nil))

add_or-flat :
    (acc : Part) (cl : List Text) (vs : List Value)
    → add_or acc (flat and_ cl, vs)
      ≡ when
          (not (none_in cl))
          (acc.0 ++ flat (codes " or") ((join and_ cl ++ codes " ") ∷ []), acc.1 ++ vs)
unfolding add_or
add_or-flat acc [] vs = rw (trim_end-short 3 (flat and_ []) (unfold flat in omega arith))
add_or-flat acc (x ∷ xs) vs =
    let e : trim_end 3 (flat and_ (x ∷ xs)) ≡ ok (join and_ (x ∷ xs) ++ codes " ") =
      ap (trim_end 3)
        (flat-join and_ x xs ∙ sym (append_assoc (join and_ (x ∷ xs)) (codes " ") (codes "and")))
      ∙ trim_end-append 3 (join and_ (x ∷ xs) ++ codes " ") (codes "and") refl in
    rw e (unfold flat in simp (append_assoc, append-nil))

close_or-flat :
    (alts : List Text) (vs : List Value)
    → close_or (flat (codes " or") alts, vs)
      ≡ when
          (not (none_in alts))
          (flat and_ ((codes " (" ++ (join (codes " or") alts ++ codes ")")) ∷ []), vs)
unfolding close_or
close_or-flat [] vs = rw (trim_end-short 3 (flat (codes " or") []) (unfold flat in omega arith))
close_or-flat (x ∷ xs) vs =
    let e : trim_end 3 (flat (codes " or") (x ∷ xs)) ≡ ok (join (codes " or") (x ∷ xs)) =
      ap (trim_end 3) (flat-join (codes " or") x xs)
      ∙ trim_end-append 3 (join (codes " or") (x ∷ xs)) (codes " or") refl in
    rw e (unfold flat in simp (append_assoc, append-nil))

-- What `where_loop` adds to its buffers.
abbrev WhereSpec : Bool → Part → Conditions → Type 0
WhereSpec e acc cs =
    where_loop e acc cs ≡ when (sound cs) (acc.0 ++ flat and_ (clauses e cs), acc.1 ++ args cs)

abbrev OrSpec : Part → Values → Type 0
OrSpec acc vs =
    or_loop acc vs
    ≡ when (sound_values vs)
        (acc.0 ++ flat (codes " or") (alternatives vs), acc.1 ++ alternative_args vs)

abbrev RoundSpec : Part → Value → Type 0
RoundSpec acc v =
    or_round acc v
    ≡ when (sound_value v) (acc.0 ++ flat (codes " or") (alternative v), acc.1 ++ value_args v)

abbrev CaseSpec : Bool → Condition → Type 0
CaseSpec e c = condition_case e c ≡ when (sound_condition c) (flat and_ (clause e c), clause_args c)

where_step :
    (e : Bool) (acc : Part) (c : Condition) (cs : Conditions)
    → CaseSpec e c
    → ((acc' : Part) → WhereSpec e acc' cs)
    → WhereSpec e acc (condition c cs)
unfolding where_loop clauses args sound
where_step e acc c cs h ih =
    bind-when (condition_case e c) (λ p. where_loop e (acc.0 ++ p.0, acc.1 ++ p.1) cs)
      (sound_condition c) (sound cs) (flat and_ (clause e c), clause_args c)
      (acc.0 ++ flat and_ (clause e c ++ clauses e cs), acc.1 ++ (clause_args c ++ args cs)) h
      (ih (acc.0 ++ flat and_ (clause e c), acc.1 ++ clause_args c)
        ∙ simp (flat-append, append_assoc))

or_step :
    (acc : Part) (v : Value) (vs : Values)
    → RoundSpec acc v
    → ((acc' : Part) → OrSpec acc' vs)
    → OrSpec acc (value v vs)
unfolding or_loop alternatives alternative_args sound_values
or_step acc v vs h ih =
    bind-when (or_round acc v) (λ acc'. or_loop acc' vs) (sound_value v) (sound_values vs)
      (acc.0 ++ flat (codes " or") (alternative v), acc.1 ++ value_args v)
      (
        acc.0 ++ flat (codes " or") (alternative v ++ alternatives vs),
        acc.1 ++ (value_args v ++ alternative_args vs),
      )
      h
      (ih (acc.0 ++ flat (codes " or") (alternative v), acc.1 ++ value_args v)
        ∙ simp (flat-append, append_assoc))

round_step :
    (acc : Part) (e : Bool) (cs : Conditions) → WhereSpec e ([], []) cs → RoundSpec acc (cnd e cs)
unfolding or_round sound_value alternative value_args
round_step acc e cs h =
    bind-when (where_loop e ([], []) cs) (add_or acc) (sound cs) (not (none_in (clauses e cs)))
      (flat and_ (clauses e cs), args cs)
      (acc.0 ++ flat (codes " or") ((join and_ (clauses e cs) ++ codes " ") ∷ []), acc.1 ++ args cs)
      h (add_or-flat acc (clauses e cs) (args cs))

skip_round : (acc : Part) → ◌≡◌ {A = Go Part} (ok acc) (ok (acc.0 ++ [], acc.1 ++ []))
skip_round acc = simp append-nil

nil_round : (acc : Part) → RoundSpec acc nil_cnd
unfolding or_round sound_value add_or
nil_round acc = rw (trim_end-short 3 [] (omega arith))

or_case :
    (e : Bool) (key : Text) (v : Value) (vs : Values) (alias : Text)
    → OrSpec ([], []) vs
    → CaseSpec e (condit or_ key v vs alias)
unfolding condition_case sound_condition clause clause_args
or_case e key v vs alias h =
    bind-when (or_loop ([], []) vs) close_or (sound_values vs) (not (none_in (alternatives vs)))
      (flat (codes " or") (alternatives vs), alternative_args vs)
      (
        flat and_ ((codes " (" ++ (join (codes " or") (alternatives vs) ++ codes ")")) ∷ []),
        alternative_args vs,
      )
      h (close_or-flat (alternatives vs) (alternative_args vs))

mutual
  unfolding condition_case sound_condition clause clause_args or_loop or_round where_loop flat

  condition_case-eq : (e : Bool) (c : Condition) → CaseSpec e c
  condition_case-eq e (condit eq key v vs _) = plain_part e key " = ?" " = ? and" (v ∷ []) refl
  condition_case-eq e (condit not_eq key v vs _) =
      plain_part e key " <> ?" " <> ? and" (v ∷ []) refl
  condition_case-eq e (condit lt key v vs _) = plain_part e key " < ?" " < ? and" (v ∷ []) refl
  condition_case-eq e (condit lte key v vs _) = plain_part e key " <= ?" " <= ? and" (v ∷ []) refl
  condition_case-eq e (condit gt key v vs _) = plain_part e key " > ?" " > ? and" (v ∷ []) refl
  condition_case-eq e (condit gte key v vs _) = plain_part e key " >= ?" " >= ? and" (v ∷ []) refl
  condition_case-eq e (condit is_null key v vs _) =
      plain_part e key " is null" " is null and" [] refl
  condition_case-eq e (condit is_not_null key v vs _) =
      plain_part e key " is not null" " is not null and" [] refl
  condition_case-eq e (condit between key v vs _) =
      two_args-eq e key " between ? and ?" " between ? and ? and" vs refl
  condition_case-eq e (condit not_between key v vs _) =
      two_args-eq e key " not between ? and ?" " not between ? and ? and" vs refl
  condition_case-eq e (condit in_ key v vs _) = list_args-eq e key " in(" vs
  condition_case-eq e (condit not_in key v vs _) = list_args-eq e key " not in(" vs
  condition_case-eq e (condit like key v vs _) =
      plain_part e key " like concat('%',?,'%')" " like concat('%',?,'%') and" (v ∷ []) refl
  condition_case-eq e (condit not_like key v vs _) =
      plain_part e key " not like concat('%',?,'%')" " not like concat('%',?,'%') and" (v ∷ []) refl
  condition_case-eq e (condit or_ key v vs alias) =
      or_case e key v vs alias (or_loop-eq ([], []) vs)
  condition_case-eq e (condit _ key v vs _) = refl

  or_loop-eq : (acc : Part) (vs : Values) → OrSpec acc vs
  or_loop-eq acc no_value = skip_round acc
  or_loop-eq acc (value v vs) = or_step acc v vs (or_round-eq acc v) (λ acc'. or_loop-eq acc' vs)

  or_round-eq : (acc : Part) (v : Value) → RoundSpec acc v
  or_round-eq acc nil_cnd = nil_round acc
  or_round-eq acc (cnd e cs) = round_step acc e cs (where_loop-eq e ([], []) cs)
  or_round-eq acc _ = skip_round acc

  where_loop-eq : (e : Bool) (acc : Part) (cs : Conditions) → WhereSpec e acc cs
  where_loop-eq e acc no_condition = skip_round acc
  where_loop-eq e acc (condition c cs) =
      where_step e acc c cs (condition_case-eq e c) (λ acc'. where_loop-eq e acc' cs)

-- BuildWhereCase returns exactly on the sound conditions; it then has written each clause with
-- " and" behind it, and collected the arguments of the clauses in their order.
pub build_where_case_lem :
    (e : Bool) (cs : Conditions)
    → build_where_case e cs ≡ when (sound cs) (flat (codes " and") (clauses e cs), args cs)
unfolding build_where_case
build_where_case_lem e cs = where_loop-eq e ([], []) cs
