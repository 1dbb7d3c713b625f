-- ===== src/Sqld/Where/Cuts.antt =====
-- The cut of the last separator of a text that the loops of base_manager.go write.
use freego.Prelude.{
  Text, codes, panic, ok, trim_end, trim_end-append, trim_end-short, arith, ◌≡◌, refl, ap, ◌∙◌, sym,
  List, [], ◌∷◌,
}
use freego.Sqld.Where.Clauses.{join, flat}
use freego.Sqld.Where.Refinement.{flat-join}

-- A placeholder for each element.
abbrev pub questions : {A : Type 0} → List A → List Text
questions [] = []
questions (_ ∷ ds) = codes "?" ∷ questions ds

pub of_ok : {A : Type 0} {a b : A} → ok a ≡ ok b → a ≡ b
of_ok h = cc

no_panic : {A : Type 0} {a : A} → panic ≡ ok a → ⊥
no_panic h = cc

-- What is left of a text with a comma behind each part is the parts with commas between them.
pub cut_flat :
    (xs : List Text) (fields : Text)
    → trim_end 1 (flat (codes ",") xs) ≡ ok fields
    → fields ≡ join (codes ",") xs
cut_flat [] fields h =
    let none_left : flat (codes ",") [] ≡ [] = unfold flat in refl in
    let stuck = trim_end-short 1 [] (omega arith) in
    absurd (no_panic (sym stuck ∙ ap (trim_end 1) (sym none_left) ∙ h))
cut_flat (x ∷ xs) fields h = of_ok (
    sym h
    ∙ ap (trim_end 1) (flat-join (codes ",") x xs)
    ∙ trim_end-append 1 (join (codes ",") (x ∷ xs)) (codes ",") refl)
