-- ===== src/Sqld/Query/Fields.antt =====
-- Which columns FindById, FindOne and FindList read into which fields.
use freego.Prelude.{
  ℕ, zero, suc, ◌+◌, ◌<◌, ◌≤◌, Go, panic, ok, ◌≡◌, refl, ap, ◌∙◌, sym, arith, Bool, true, false,
  ◌&&◌, ◌||◌, not, Option, none, some, List, [], ◌∷◌, ◌++◌, length, get_elem?, if◌then◌else◌,
}
use mathlib.Core.List.{append_assoc}
use mathlib.Core.Bool.{false≢true}
use freego.Sqld.Delete.WhereText.{||-false}
use freego.Errors.{Result, done, failed}
use freego.Sqlc.Object.{Object}
use freego.Sqld.Model.{FieldElem, Runtime}
use freego.Sqld.Model.Reading.{Cell, set_value}
use freego.Sqld.Query.{Row, is_null_cell, read_fields}
use freego.Sqld.Query.Listings.{quoted}

abbrev pub any_ignored : List FieldElem → Bool
any_ignored [] = false
any_ignored (e ∷ es) = e.ignore || any_ignored es

-- Each field takes the column at its place.
unfoldable pub assign : Runtime → Bool → List FieldElem → Row → Object → Result Object
assign rt skip_dates (e ∷ es) (c ∷ row) o =
    if e.is_date && skip_dates && is_null_cell c
    then assign rt skip_dates es row o
    else elim (set_value rt o e c) [
      | failed err ↦ failed err
      | done o' ↦ assign rt skip_dates es row o'
    ]
assign rt skip_dates _ _ o = done o

get_elem-append :
    {A : Type 0} (pre : List A) (c : A) (rest : List A)
    → get_elem? (pre ++ c ∷ rest) (length pre) ≡ some c
get_elem-append [] c rest = refl
get_elem-append (x ∷ pre) c rest = get_elem-append pre c rest

-- One field, whose column is there.
field_case :
    (b : Bool) (r : Result Object) (o : Object) (f : Object → Go (Result Object))
    (g : Object → Result Object)
    → ((x : Object) → f x ≡ ok (g x))
    → (if b then f o else elim r [ failed err ↦ ok (failed err) | done o' ↦ f o' ])
      ≡ ok (if b then g o else elim r [ failed err ↦ failed err | done o' ↦ g o' ])
field_case true r o f g h = h o
field_case false (failed err) o f g h = refl
field_case false (done o') o f g h = h o'

column_case :
    (ignored : Bool) (at : Option Cell) (c : Cell) (t : Cell → Bool) (r : Cell → Result Object)
    (o : Object) (f : Object → Go (Result Object)) (g : Object → Result Object)
    → ignored ≡ false
    → at ≡ some c
    → ((x : Object) → f x ≡ ok (g x))
    → (if ignored then f o else elim at [
      | none ↦ panic
      | some x ↦ if t x then f o else elim (r x) [ failed err ↦ ok (failed err) | done o' ↦ f o' ]
    ])
      ≡ ok (if t c then g o else elim (r c) [ failed err ↦ failed err | done o' ↦ g o' ])
column_case ignored at c t r o f g i a h = rw i (rw a (field_case (t c) (r c) o f g h))

length-snoc : {A : Type 0} (pre : List A) (c : A) → length (pre ++ c ∷ []) ≡ suc (length pre)
length-snoc [] c = refl
length-snoc (x ∷ pre) c = ap suc (length-snoc pre c)

-- The fields from the place of the row's rest on, in a model without ignored fields.
read_fields-assign :
    (rt : Runtime) (skip_dates : Bool) (pre row : Row) (es : List FieldElem) (o : Object)
    → any_ignored es ≡ false
    → length row ≡ length es
    → read_fields rt skip_dates (pre ++ row) es (length pre) o ≡ ok (assign rt skip_dates es row o)
unfolding read_fields assign
read_fields-assign rt skip_dates pre row [] o h l = refl
read_fields-assign rt skip_dates pre [] (e ∷ es) o h l = absurd (omega (arith, l))
read_fields-assign rt skip_dates pre (c ∷ row) (e ∷ es) o h l =
    let (kept, others) = ||-false e.ignore (any_ignored es) h in
    let next : (x : Object)
        → read_fields rt skip_dates (pre ++ c ∷ row) es (suc (length pre)) x
          ≡ ok (assign rt skip_dates es row x) =
      λ x.
        ap (λ whole. read_fields rt skip_dates whole es (suc (length pre)) x)
          (sym (append_assoc pre (c ∷ []) row))
        ∙ ap (λ i. read_fields rt skip_dates ((pre ++ c ∷ []) ++ row) es i x)
            (sym (length-snoc pre c))
        ∙ read_fields-assign rt skip_dates (pre ++ c ∷ []) row es x others (omega (arith, l)) in
    column_case e.ignore (get_elem? (pre ++ c ∷ row) (length pre)) c
      (λ x. e.is_date && skip_dates && is_null_cell x) (set_value rt o e) o
      (read_fields rt skip_dates (pre ++ c ∷ row) es (suc (length pre)))
      (assign rt skip_dates es row) kept (get_elem-append pre c row) next

-- If no field of the model is ignored, each field takes the column at its place.
pub read_fields-all :
    (rt : Runtime) (skip_dates : Bool) (row : Row) (es : List FieldElem) (o : Object)
    → any_ignored es ≡ false
    → length row ≡ length es
    → read_fields rt skip_dates row es 0 o ≡ ok (assign rt skip_dates es row o)
read_fields-all rt skip_dates row es o h l = read_fields-assign rt skip_dates [] row es o h l

abbrev pub last_kept : List FieldElem → Bool
last_kept [] = false
last_kept (e ∷ []) = not e.ignore
last_kept (e ∷ (f ∷ es)) = last_kept (f ∷ es)

-- No object comes out.
abbrev pub Fails : Go (Result Object) → Type 0
Fails panic = Unit
Fails (ok (failed _)) = Unit
Fails (ok (done _)) = ⊥

step-Fails :
    (ignored : Bool) (c : Option Cell) (r : Cell → Result Object) (o : Object)
    (f : Object → Go (Result Object)) (t : Cell → Bool)
    → ((x : Object) → Fails (f x))
    → Fails (
        if ignored then f o else elim c [
          | none ↦ panic
          | some x ↦
              if t x then f o else elim (r x) [ failed err ↦ ok (failed err) | done o' ↦ f o' ]
        ])
step-Fails true c r o f t h = h o
step-Fails false none r o f t h = tt
step-Fails false (some x) r o f t h = by_test (t x) (r x)
  where
    by_test :
        (b : Bool) (r : Result Object)
        → Fails (if b then f o else elim r [ failed err ↦ ok (failed err) | done o' ↦ f o' ])
    by_test true r = h o
    by_test false (failed err) = tt
    by_test false (done o') = h o'

get_elem-short : {A : Type 0} (xs : List A) (i : ℕ) → length xs ≤ i → get_elem? xs i ≡ none
get_elem-short [] i h = refl
get_elem-short (x ∷ xs) zero h = absurd (omega arith)
get_elem-short (x ∷ xs) (suc i) h = get_elem-short xs i (omega arith)

kept : (b : Bool) → not b ≡ true → b ≡ false
kept true h = absurd (false≢true h)
kept false h = refl

read_fields-Fails :
    (rt : Runtime) (skip_dates : Bool) (row : Row) (es : List FieldElem) (i : ℕ) (o : Object)
    → last_kept es ≡ true
    → length row < i + length es
    → Fails (read_fields rt skip_dates row es i o)
unfolding read_fields
read_fields-Fails rt skip_dates row [] i o k h = absurd (false≢true k)
read_fields-Fails rt skip_dates row (e ∷ []) i o k h =
    let out : length row ≤ i = omega arith in
    rw (kept e.ignore k) (rw (get_elem-short row i out) tt)
read_fields-Fails rt skip_dates row (e ∷ (f ∷ es)) i o k h =
    step-Fails e.ignore (get_elem? row i) (set_value rt o e) o
      (read_fields rt skip_dates row (f ∷ es) (suc i))
      (λ c. e.is_date && skip_dates && is_null_cell c)
      (λ x. read_fields-Fails rt skip_dates row (f ∷ es) (suc i) x k (omega arith))

length-quoted-le : (es : List FieldElem) → length (quoted es) ≤ length es
length-quoted-le [] = omega arith
length-quoted-le (e ∷ es) = ground (arith, length-quoted-le es)

-- The columns are fewer than the fields if a field is ignored.
length-quoted-lt : (es : List FieldElem) → any_ignored es ≡ true → length (quoted es) < length es
length-quoted-lt [] h = absurd (false≢true h)
length-quoted-lt (e ∷ es) h = ground (arith, length-quoted-le es, length-quoted-lt es)

-- A model with an ignored field whose last field is not ignored: no object is ever read from a row
-- of its columns, since the columns are taken by the places of the fields.
pub ignored_field-Fails :
    (rt : Runtime) (skip_dates : Bool) (row : Row) (es : List FieldElem) (o : Object)
    → any_ignored es ≡ true
    → last_kept es ≡ true
    → length row ≡ length (quoted es)
    → Fails (read_fields rt skip_dates row es 0 o)
ignored_field-Fails rt skip_dates row es o h k l =
    read_fields-Fails rt skip_dates row es 0 o k (omega (arith, l, length-quoted-lt es h))
