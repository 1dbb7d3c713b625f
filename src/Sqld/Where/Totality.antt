-- ===== src/Sqld/Where/Totality.antt =====
-- Where clauses of the builders that the methods of Cnd make.
use mathlib.Core.Bool.{and_assoc}
use freego.Prelude.{
  Text, ok, ◌≡◌, refl, ap, ◌∙◌, sym, Bool, true, false, ◌&&◌, ◌||◌, Option, List, [], ◌∷◌,
  if◌then◌else◌, arith, codes,
}
use freego.Sqlc.Value.{
  Logic, or_, Value, Values, no_value, value, Condition, condit, Conditions, no_condition,
  condition, append_condition, is_nil,
}
use freego.Sqlc.Object.{Object}
use freego.Sqlc.Cnd.{Cnd, new_cnd}
use freego.Sqlc.Builder.{
  un_escape, add_default_condit, compare_condit, range_condit, list_condit, is_null_condit,
  is_not_null_condit,
}
use freego.Sqlc.Calls.{
  CondCall, eq_call, not_eq_call, lt_call, lte_call, gt_call, gte_call, like_call, not_like_call,
  is_null_call, is_not_null_call, between_call, in_date_call, not_between_call, in_call,
  not_in_call, or_call, un_escape_call, call, chain,
}
use freego.Sqld.Exec.Adds.{All}
use freego.Sqld.Where.{build_where_case}
use freego.Sqld.Where.Clauses.{
  flat, none_in, alternatives, clauses, args, sound_condition, sound_values, sound, has_value,
}
use freego.Sqld.Where.Refinement.{build_where_case_lem}

-- Or is given builders only, each of them with a clause, and of sound conditions.
abbrev pub IsSafe : CondCall → Type 0
IsSafe (or_call vs) = (sound_values vs ≡ true) × (none_in (alternatives vs) ≡ false)
IsSafe _ = Unit

and_true : (b : Bool) → (b && true) ≡ b
and_true b = ground arith

sound-append :
    (cs : Conditions) (c : Condition)
    → sound (append_condition cs c) ≡ (sound cs && sound_condition c)
unfolding append_condition sound
sound-append no_condition c = and_true (sound_condition c)
sound-append (condition d cs) c =
    ap (λ b. sound_condition d && b) (sound-append cs c)
    ∙ sym (and_assoc (sound_condition d) (sound cs) (sound_condition c))

added :
    (c : Cnd) (d : Condition)
    → sound c.conditions ≡ true
    → sound_condition d ≡ true
    → sound (add_default_condit c d).conditions ≡ true
unfolding add_default_condit
added c d h k = sound-append c.conditions d ∙ rw (h, k) refl

compare-sound :
    (l : Logic) (k : Text) (v : Value) (c : Cnd)
    → sound c.conditions ≡ true
    → sound_condition (condit l k v no_value []) ≡ true
    → sound (compare_condit l k v c).conditions ≡ true
unfolding compare_condit
compare-sound l k v c h d = by_nil (is_nil v)
  where
    by_nil :
        (b : Bool)
        → sound (if b then c else add_default_condit c (condit l k v no_value [])).conditions ≡ true
    by_nil true = h
    by_nil false = added c _ h d

range-sound :
    (l : Logic) (k : Text) (v w : Value) (c : Cnd)
    → sound c.conditions ≡ true
    → sound_condition (condit l k Value.nil (value v (value w no_value)) []) ≡ true
    → sound (range_condit l k v w c).conditions ≡ true
unfolding range_condit
range-sound l k v w c h d = by_nil (is_nil v || is_nil w)
  where
    by_nil :
        (b : Bool)
        → sound
            (if b
              then c
              else add_default_condit c
                  (condit l k Value.nil (value v (value w no_value)) [])).conditions
          ≡ true
    by_nil true = h
    by_nil false = added c _ h d

list-sound :
    (l : Logic) (k : Text) (vs : Values) (c : Cnd)
    → sound c.conditions ≡ true
    → (has_value vs ≡ true → sound_condition (condit l k Value.nil vs []) ≡ true)
    → sound (list_condit l k vs c).conditions ≡ true
unfolding list_condit
list-sound l k no_value c h d = h
list-sound l k (value v vs) c h d = added c _ h (d refl)

or_sound :
    (vs : Values)
    → sound_values vs ≡ true
    → none_in (alternatives vs) ≡ false
    → sound_condition (condit or_ [] Value.nil vs []) ≡ true
unfolding sound_condition
or_sound vs h k = ground (arith, h, k)

call-sound :
    (f : CondCall) (c : Cnd)
    → IsSafe f
    → sound c.conditions ≡ true
    → sound (call f c).conditions ≡ true
unfolding call sound_condition is_null_condit is_not_null_condit un_escape
call-sound (eq_call k v) c s h = compare-sound _ k v c h refl
call-sound (not_eq_call k v) c s h = compare-sound _ k v c h refl
call-sound (lt_call k v) c s h = compare-sound _ k v c h refl
call-sound (lte_call k v) c s h = compare-sound _ k v c h refl
call-sound (gt_call k v) c s h = compare-sound _ k v c h refl
call-sound (gte_call k v) c s h = compare-sound _ k v c h refl
call-sound (like_call k v) c s h = compare-sound _ k v c h refl
call-sound (not_like_call k v) c s h = compare-sound _ k v c h refl
call-sound (is_null_call k) c s h = added c _ h refl
call-sound (is_not_null_call k) c s h = added c _ h refl
call-sound (between_call k a b) c s h = range-sound _ k a b c h refl
call-sound (in_date_call k a b) c s h = range-sound _ k a b c h refl
call-sound (not_between_call k a b) c s h = range-sound _ k a b c h refl
call-sound (in_call k vs) c s h = list-sound _ k vs c h (λ e. e)
call-sound (not_in_call k vs) c s h = list-sound _ k vs c h (λ e. e)
call-sound (or_call vs) c s h = list-sound _ [] vs c h (λ e. or_sound vs s.0 s.1)
call-sound un_escape_call c s h = h

chain-sound :
    (fs : List CondCall) (c : Cnd)
    → All IsSafe fs
    → sound c.conditions ≡ true
    → sound (chain fs c).conditions ≡ true
unfolding chain
chain-sound [] c s h = h
chain-sound (f ∷ fs) c s h = chain-sound fs (call f c) s.1 (call-sound f c s.0 h)

-- BuildWhereCase never panics on a builder that the methods of Cnd made, where each call of Or was
-- given builders of sound conditions with one clause at least: it returns their clauses and
-- arguments.
pub build_where_case-total :
    (e : Bool) (m : Option Object) (fs : List CondCall)
    → All IsSafe fs
    → build_where_case e (chain fs (new_cnd m)).conditions
      ≡ ok (
        flat (codes " and") (clauses e (chain fs (new_cnd m)).conditions),
        args (chain fs (new_cnd m)).conditions,
      )
build_where_case-total e m fs h =
    let s : sound (chain fs (new_cnd m)).conditions ≡ true =
      chain-sound fs (new_cnd m) h (unfold new_cnd sound in refl) in
    build_where_case_lem e (chain fs (new_cnd m)).conditions ∙ rw s refl
