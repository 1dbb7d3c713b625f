-- ===== src/Sqlc/Builder/Upsets.antt =====
-- What Upset leaves for UpdateByCnd.
use freego.Prelude.{
  Text, text_eq, eq_of_text_eq, ◌==◌, length, ◌≡◌, refl, ap, ◌∙◌, sym, Bool, true, false, not, ◌||◌,
  Option, none, some, List, [], ◌∷◌, if◌then◌else◌,
}
use mathlib.Core.Path.{subst}
use mathlib.Core.Bool.{false≢true}
use freego.Sqlc.Value.{Value}
use freego.Sqlc.Cnd.{Cnd}
use freego.Sqlc.Builder.{put_entry, put_entries, upset}

-- The value of a key in the map.
unfoldable pub lookup : Text → List (Text × Value) → Option Value
lookup k [] = none
lookup k ((j, v) ∷ m) = if text_eq j k then some v else lookup k m

abbrev pub or_old : Option Value → Option Value → Option Value
or_old none old = old
or_old (some v) old = some v

-- The value that the call gives to the key last.
unfoldable pub last_given : Text → List Text → List Value → Option Value
last_given k (j ∷ js) (v ∷ vs) = or_old (last_given k js vs) (if text_eq j k then some v else none)
last_given k _ _ = none

swap :
    (a b : Bool) (x y z : Option Value)
    → (a ≡ true → b ≡ true → ⊥)
    → (if a then x else (if b then y else z)) ≡ (if b then y else (if a then x else z))
swap true true x y z h = absurd (h refl refl)
swap true false x y z h = refl
swap false b x y z h = refl

overwrite :
    (a : Bool) (x y z : Option Value)
    → (if a then x else z) ≡ (if a then x else (if a then y else z))
overwrite true x y z = refl
overwrite false x y z = refl

one_key : (i j k : Text) → text_eq i j ≡ false → text_eq i k ≡ true → text_eq j k ≡ true → ⊥
one_key i j k e p q = false≢true (sym e ∙ ap (λ x. text_eq i x) (eq_of_text_eq j k q) ∙ p)

put_step :
    (k i j : Text) (v w : Value) (m : List (Text × Value)) (b : Bool)
    → text_eq i j ≡ b
    → lookup k (put_entry j v m) ≡ (if text_eq j k then some v else lookup k m)
    → lookup k (if b then (i, v) ∷ m else (i, w) ∷ put_entry j v m)
      ≡ (if text_eq j k then some v else (if text_eq i k then some w else lookup k m))
unfolding lookup
put_step k i j v w m true e h =
    subst
      (λ x.
        (if text_eq i k then some v else lookup k m)
        ≡ (if text_eq x k then some v else (if text_eq i k then some w else lookup k m)))
      (eq_of_text_eq i j e) (overwrite (text_eq i k) (some v) (some w) (lookup k m))
put_step k i j v w m false e h =
    ap (λ x. if text_eq i k then some w else x) h
    ∙ swap (text_eq i k) (text_eq j k) (some w) (some v) (lookup k m) (one_key i j k e)

lookup-put_entry :
    (k j : Text) (v : Value) (m : List (Text × Value))
    → lookup k (put_entry j v m) ≡ (if text_eq j k then some v else lookup k m)
unfolding lookup put_entry
lookup-put_entry k j v [] = refl
lookup-put_entry k j v ((i, w) ∷ m) =
    put_step k i j v w m (text_eq i j) refl (lookup-put_entry k j v m)

or_old-if :
    (g old : Option Value) (b : Bool) (v : Value)
    → or_old g (if b then some v else old) ≡ or_old (or_old g (if b then some v else none)) old
or_old-if (some x) old b v = refl
or_old-if none old true v = refl
or_old-if none old false v = refl

lookup-put_entries :
    (k : Text) (ks : List Text) (vs : List Value) (m : List (Text × Value))
    → lookup k (put_entries ks vs m) ≡ or_old (last_given k ks vs) (lookup k m)
unfolding put_entries last_given
lookup-put_entries k [] vs m = refl
lookup-put_entries k (j ∷ ks) [] m = refl
lookup-put_entries k (j ∷ ks) (v ∷ vs) m =
    lookup-put_entries k ks vs (put_entry j v m)
    ∙ ap (or_old (last_given k ks vs)) (lookup-put_entry k j v m)
    ∙ or_old-if (last_given k ks vs) (lookup k m) (text_eq j k) v

lookup-case :
    (k : Text) (keys : List Text) (values : List Value) (c : Cnd) (b : Bool)
    → b ≡ (length values == 0 || (length keys == 0 || not (length keys == length values)))
    → lookup k (if b then c else record c { upsets = put_entries keys values c.upsets }).upsets
      ≡ (if b then lookup k c.upsets else or_old (last_given k keys values) (lookup k c.upsets))
lookup-case k keys values c true h = refl
lookup-case k keys values c false h = lookup-put_entries k keys values c.upsets

-- After Upset with as many values as keys, one at least, each key has the value that the call gave
-- it last, and a key that the call does not name has its old value; any other call changes nothing.
pub lookup-upset :
    (k : Text) (keys : List Text) (values : List Value) (c : Cnd)
    → lookup k (upset keys values c).upsets ≡ (
        if length values == 0 || (length keys == 0 || not (length keys == length values))
        then lookup k c.upsets
        else or_old (last_given k keys values) (lookup k c.upsets))
unfolding upset
lookup-upset k keys values c = lookup-case k keys values c _ refl
