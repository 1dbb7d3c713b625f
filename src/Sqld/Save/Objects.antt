-- ===== src/Sqld/Save/Objects.antt =====
-- What the loop of Save over the objects writes: the columns, the rows and the arguments.
use mathlib.Core.List.{append_assoc, append-nil}
use freego.Prelude.{
  Text, codes, ok, trim_end, trim_end-append, ◌≡◌, refl, ap, ◌∙◌, sym, Bool, true, false, List, [],
  ◌∷◌, ◌++◌,
}
use freego.Sqlc.Value.{Value}
use freego.Sqlc.Object.{Object}
use freego.Sqld.Where.Clauses.{join, flat}
use freego.Sqld.Where.Refinement.{flat-join}
use freego.Sqld.Where.Cuts.{questions, of_ok}
use freego.Sqld.Model.{MdlDriver}
use freego.Sqld.Exec.{Env}
use freego.Sqld.Exec.Yields.{Yields, Yields-pure, Yields-bind, Yields-map, Yields-lift-bind}
use freego.Sqld.Save.{RowState, SaveState, rows_of}
use freego.Sqld.Save.Entries.{Entry, IsPick, named, arguments, columns_part, same}
use freego.Sqld.Save.Rows.{Written, columns-Yields}

-- Each row stands for one object.
abbrev pub AreRows : Env → MdlDriver → List Object → List (List Entry) → Type 0
AreRows env obv [] [] = Unit
AreRows env obv (o ∷ os) (ks ∷ rows) = IsPick env obv o ks obv.field_elem × AreRows env obv os rows
AreRows env obv _ _ = ⊥

-- The columns are those of the first row.
abbrev pub column_names : List (List Entry) → List Text
column_names [] = []
column_names (ks ∷ _) = named ks

-- ` (?,?)`, and without a placeholder ` )`.
abbrev pub row_text : List Entry → Text
row_text [] = codes " )"
row_text (k ∷ ks) = codes " (" ++ (join (codes ",") (questions (k ∷ ks)) ++ codes ")")

abbrev pub row_texts : List (List Entry) → List Text
row_texts [] = []
row_texts (ks ∷ rows) = row_text ks ∷ row_texts rows

abbrev pub all_arguments : List (List Entry) → List Value
all_arguments [] = []
all_arguments (ks ∷ rows) = arguments ks ++ all_arguments rows

abbrev all_columns : Bool → List (List Entry) → Text
all_columns true rows = []
all_columns false rows = flat (codes ",") (column_names rows)

-- The state behind the objects.
pub record Saved (env : Env) (obv : MdlDriver) (fready : Bool) (os : List Object)
    (st st' : SaveState) : Type 0 where
  pub entries : List (List Entry)
  pub picked : AreRows env obv os entries
  pub columns : st'.columns ≡ st.columns ++ all_columns fready entries
  pub rows : st'.rows ≡ st.rows ++ flat (codes ",") (row_texts entries)
  pub params : st'.params ≡ st.params ++ all_arguments entries

-- The placeholders behind the bracket, with the last byte cut.
cut_row :
    (ks : List Entry) (vstr : Text)
    → trim_end 1 (codes " (" ++ flat (codes ",") (questions ks)) ≡ ok vstr
    → vstr ++ codes ")" ≡ row_text ks
cut_row [] vstr h =
    let e : trim_end 1 (codes " (" ++ flat (codes ",") []) ≡ ok (codes " ") =
      unfold flat in trim_end-append 1 (codes " ") (codes "(") refl in
    ap (λ t. t ++ codes ")") (of_ok (sym h ∙ e))
cut_row (k ∷ ks) vstr h =
    let inner = join (codes ",") (questions (k ∷ ks)) in
    let e : vstr ≡ codes " (" ++ inner = of_ok (
      sym h
      ∙ ap (λ t. trim_end 1 (codes " (" ++ t)) (flat-join (codes ",") (codes "?") (questions ks))
      ∙ trim_end-append 1 (codes " (" ++ inner) (codes ",") refl) in
    ap (λ t. t ++ codes ")") e

no_columns : (b : Bool) (t : Text) → t ≡ t ++ all_columns b []
unfolding flat
no_columns true t = sym (append-nil t)
no_columns false t = sym (append-nil t)

-- Only the first row adds columns.
first_columns :
    (b : Bool) (ks : List Entry) (rows : List (List Entry)) (t u : Text)
    → u ≡ t ++ columns_part b ks
    → u ++ all_columns true rows ≡ t ++ all_columns b (ks ∷ rows)
first_columns true ks rows t u h = append-nil u ∙ h
first_columns false ks rows t u h = append-nil u ∙ h

first_text :
    (ks : List Entry) (rows : List (List Entry)) (t vstr : Text)
    → vstr ++ codes ")" ≡ row_text ks
    → (t ++ (vstr ++ codes "),")) ++ flat (codes ",") (row_texts rows)
      ≡ t ++ flat (codes ",") (row_texts (ks ∷ rows))
unfolding flat
first_text ks rows t vstr h =
    let e : vstr ++ codes ")," ≡ row_text ks ++ codes "," =
      sym (append_assoc vstr (codes ")") (codes ",")) ∙ ap (λ r. r ++ codes ",") h in
    ap (λ r. (t ++ r) ++ flat (codes ",") (row_texts rows)) e
    ∙ append_assoc t (row_text ks ++ codes ",") (flat (codes ",") (row_texts rows))

module _ (env : Env) (auto_id : Bool) (obv : MdlDriver) where
  row_done :
      (fready : Bool) (o : Object) (os : List Object) (st : SaveState) (row : RowState)
      (vstr : Text)
      (w : Written env obv o fready obv.field_elem
        (record { object = o; fpart = st.columns; vpart = codes " ("; parameter = st.params })
        row)
      → trim_end 1 row.vpart ≡ ok vstr
      → {end : SaveState}
      → Saved env obv true os
          (record {
            columns = row.fpart;
            rows = st.rows ++ (vstr ++ codes "),");
            params = row.parameter;
            objects = st.objects ++ row.object ∷ [];
          })
          end
      → Saved env obv fready (o ∷ os) st end
  row_done b o os st row vstr w e r =
      let shape = cut_row w.entries vstr (ap (trim_end 1) (sym w.vpart) ∙ e) in
      record {
        entries = w.entries ∷ r.entries;
        picked = (w.picked, r.picked);
        columns = r.columns ∙ first_columns b w.entries r.entries st.columns row.fpart w.fpart;
        rows = r.rows ∙ first_text w.entries r.entries st.rows vstr shape;
        params =
            r.params
            ∙ ap (λ l. l ++ all_arguments r.entries) w.params
            ∙ append_assoc st.params (arguments w.entries) (all_arguments r.entries);
      }

  pub rows_of-Yields :
      (fready : Bool) (os : List Object) (st : SaveState)
      → Yields (Saved env obv fready os st) (rows_of env auto_id fready obv os st)
  unfolding rows_of
  rows_of-Yields b [] st = Yields-pure st (record {
    entries = [];
    picked = tt;
    columns = no_columns b st.columns;
    rows = unfold flat in sym (append-nil st.rows);
    params = sym (append-nil st.params);
  })
  rows_of-Yields b (o ∷ os) st =
      Yields-bind _ _ (columns-Yields env obv o b auto_id obv.field_elem _ same) (λ row w.
        Yields-lift-bind _ _ (λ vstr e.
          Yields-map (λ end r. row_done b o os st row vstr w e r) (rows_of-Yields true os _)))
