-- ===== src/Sqld/Delete/WhereText.antt =====
-- The where clause that UpdateByCnd and DeleteByCnd cut out of the buffer of BuildWhereCase.
use mathlib.Core.List.{append_assoc}
use freego.Prelude.{
  Text, String, codes, ok, trim_end, trim_end-append, ◌≡◌, refl, ap, ◌∙◌, sym, arith, Bool, false,
  ◌||◌, List, [], ◌∷◌, ◌++◌,
}
use freego.Sqld.Where.Clauses.{join, flat, none_in}
use freego.Sqld.Where.Refinement.{flat-join}
use freego.Sqld.Delete.{where_text, is_empty}

-- The clauses come out joined by " and", behind the word.
pub where_text-flat :
    (word : String) (x : Text) (xs : List Text)
    → where_text word (flat (codes " and") (x ∷ xs))
      ≡ ok (codes word ++ join (codes " and") (x ∷ xs))
unfolding where_text
where_text-flat word x xs =
    let all = join (codes " and") (x ∷ xs) in
    let e : trim_end 3 (flat (codes " and") (x ∷ xs)) ≡ ok (all ++ codes " ") =
      ap (trim_end 3)
        (flat-join (codes " and") x xs ∙ sym (append_assoc all (codes " ") (codes "and")))
      ∙ trim_end-append 3 (all ++ codes " ") (codes "and") refl in
    let f : trim_end 1 (codes word ++ (all ++ codes " ")) ≡ ok (codes word ++ all) =
      ap (trim_end 1) (sym (append_assoc (codes word) all (codes " ")))
      ∙ trim_end-append 1 (codes word ++ all) (codes " ") refl in
    rw e (rw f)

pub is_empty-flat :
    (xs : List Text) → is_empty (flat (codes " and") xs) ≡ false → none_in xs ≡ false
is_empty-flat [] h = unfold flat in cc h
is_empty-flat (x ∷ xs) h = refl

pub ||-false : (a b : Bool) → (a || b) ≡ false → (a ≡ false) × (b ≡ false)
||-false a b h = ground arith
