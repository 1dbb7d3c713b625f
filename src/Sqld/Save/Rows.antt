-- ===== src/Sqld/Save/Rows.antt =====
-- What the loop of Save over the fields of an object writes: columns, placeholders and arguments.
use mathlib.Core.List.{append_assoc, append-nil}
use mathlib.Core.Path.{subst}
use freego.Prelude.{
  ℕ, pos, eq_ℤ, Text, codes, ◌≡◌, refl, ap, ◌∙◌, sym, ◌⊎◌, inl, inr, Bool, true, false, not, List,
  [], ◌∷◌, ◌++◌, if◌then◌else◌,
}
use freego.Sqlc.Value.{Value, int, str}
use freego.Sqlc.Object.{Object}
use freego.Sqld.Where.Clauses.{flat}
use freego.Sqld.Where.Cuts.{questions}
use freego.Sqld.Model.{
  Result, done, failed, FieldKind, int64_kind, string_kind, FieldElem, MdlDriver, get_int64,
  get_string, get_value,
}
use freego.Sqld.Delete.{is_empty}
use freego.Sqld.Exec.{Env, Exec, ◌>>=◌, pure}
use freego.Sqld.Exec.Yields.{
  Yields, Yields-pure, Yields-throw, Yields-cases, Yields-bind, Yields-map,
}
use freego.Sqld.Save.{
  RowState, next_iid, next_sid, add_column, primary_column, value_column, column, columns,
}
use freego.Sqld.Save.Entries.{
  Rekeyed, keyed, Entry, IsKey, IsEntry, IsLeftOut, IsPick, arguments, columns_part,
}

-- The state behind the fields.
pub record Written (env : Env) (obv : MdlDriver) (o : Object) (fready : Bool) (es : List FieldElem)
    (st st' : RowState) : Type 0 where
  pub entries : List Entry
  pub picked : IsPick env obv o entries es
  pub fpart : st'.fpart ≡ st.fpart ++ columns_part fready entries
  pub vpart : st'.vpart ≡ st.vpart ++ flat (codes ",") (questions entries)
  pub params : st'.parameter ≡ st.parameter ++ arguments entries

-- One field: it is left out, or added with an argument.
abbrev IsColumn : Env → MdlDriver → Object → Bool → FieldElem → RowState → RowState → Type 0
IsColumn env obv o fready e st st' =
    Rekeyed o st'.object
    × ((IsLeftOut env o e
          × (st'.fpart ≡ st.fpart)
          × (st'.vpart ≡ st.vpart)
          × (st'.parameter ≡ st.parameter))
        ⊎ ((v : Value) × IsEntry env obv o e v
            × (st'.fpart ≡ (
                if fready
                then st.fpart
                else st.fpart ++ (codes "`" ++ (e.field_json_name ++ codes "`,"))))
            × (st'.vpart ≡ st.vpart ++ codes "?,")
            × (st'.parameter ≡ st.parameter ++ v ∷ [])))

no_part : (b : Bool) (t : Text) → t ≡ t ++ columns_part b []
unfolding flat
no_part true t = sym (append-nil t)
no_part false t = sym (append-nil t)

more_part :
    (b : Bool) (e : FieldElem) (v : Value) (ks : List Entry) (t u : Text)
    → u ≡ (if b then t else t ++ (codes "`" ++ (e.field_json_name ++ codes "`,")))
    → u ++ columns_part b ks ≡ t ++ columns_part b ((e, v) ∷ ks)
unfolding flat
more_part true e v ks t u h = rw h refl
more_part false e v ks t u h = simp (h, append_assoc)

more_marks :
    (k : Entry) (ks : List Entry) (t : Text)
    → (t ++ codes "?,") ++ flat (codes ",") (questions ks)
      ≡ t ++ flat (codes ",") (questions (k ∷ ks))
unfolding flat
more_marks k ks t = append_assoc t (codes "?,") (flat (codes ",") (questions ks))

-- A field, and then the others.
Written-more :
    {env : Env} {obv : MdlDriver} {o : Object} {fready : Bool} {e : FieldElem} {es : List FieldElem}
    {st mid end : RowState}
    → IsColumn env obv o fready e st mid
    → Written env obv o fready es mid end
    → Written env obv o fready (e ∷ es) st end
Written-more {fready = b} (r, inl (l, f, v, p)) w = record {
  entries = w.entries;
  picked = inl (l, w.picked);
  fpart = w.fpart ∙ ap (λ t. t ++ columns_part b w.entries) f;
  vpart = w.vpart ∙ ap (λ t. t ++ flat (codes ",") (questions w.entries)) v;
  params = w.params ∙ ap (λ l. l ++ arguments w.entries) p;
}
Written-more {fready = b} {e = e} {st = st} {mid = mid} (r, inr (a, n, f, v, p)) w = record {
  entries = (e, a) ∷ w.entries;
  picked = inr (a, w.entries, refl, n, w.picked);
  fpart = w.fpart ∙ more_part b e a w.entries st.fpart mid.fpart f;
  vpart =
      w.vpart
      ∙ ap (λ t. t ++ flat (codes ",") (questions w.entries)) v
      ∙ more_marks (e, a) w.entries st.vpart;
  params =
      w.params
      ∙ ap (λ l. l ++ arguments w.entries) p
      ∙ append_assoc st.parameter (a ∷ []) (arguments w.entries);
}

module _ (env : Env) (obv : MdlDriver) (o : Object) (fready : Bool) where
  added :
      (e : FieldElem) (v : Value) (st : RowState) (p : Object)
      → IsEntry env obv o e v
      → Rekeyed o p
      → IsColumn env obv o fready e st (add_column fready e v (record st { object = p }))
  unfolding add_column
  added e v st p n r = (r, inr (v, n, refl, refl, refl))

  left_out :
      (e : FieldElem) (st : RowState)
      → IsLeftOut env o e
      → Rekeyed o st.object
      → IsColumn env obv o fready e st st
  left_out e st l r = (r, inl (l, refl, refl, refl))

  next_iid-Yields : Yields (λ new. (n : ℕ) × (new ≡ env.runtime.next_iid n)) (next_iid env)
  unfolding next_iid
  next_iid-Yields = record { at = λ s. (s.drawn, refl) }

  next_sid-Yields : Yields (λ _. Unit {0}) (next_sid env)
  unfolding next_sid
  next_sid-Yields = record { at = λ s. tt }

  -- The three ways of the primary key: an id, none that is drawn here, and a new one.
  chosen-Yields :
      {A : Type 0} (P : RowState → Type 0) (Q : A → Type 0) (b c : Bool) (x y : RowState)
      (m : Exec A) (f : A → RowState)
      → (b ≡ false → P x)
      → P y
      → Yields Q m
      → (b ≡ true → (a : A) → Q a → P (f a))
      → Yields P (if not b then pure x else if c then pure y else (m >>= λ a. pure (f a)))
  chosen-Yields P Q false c x y m f hx hy hm hf = Yields-pure x (hx refl)
  chosen-Yields P Q true true x y m f hx hy hm hf = Yields-pure y hy
  chosen-Yields P Q true false x y m f hx hy hm hf =
      Yields-bind m (λ a. pure (f a)) hm (λ a q. Yields-pure (f a) (hf refl a q))

  primary_column-Yields :
      (e : FieldElem) (st : RowState) (kind : FieldKind)
      → e.ignore ≡ false
      → e.primary ≡ true
      → e.field_kind ≡ kind
      → Rekeyed o st.object
      → Yields (IsColumn env obv o fready e st) (primary_column env fready obv e st kind)
  unfolding primary_column
  primary_column-Yields e st int64_kind i k h r =
      let p = st.object in
      let entry : (v : Value) → IsKey env obv p int64_kind v → IsEntry env obv o e v =
        λ v g. (i, inl (k, (p, r, subst (λ t. IsKey env obv p t v) (sym h) g))) in
      chosen-Yields (IsColumn env obv o fready e st) _
        (eq_ℤ (get_int64 (p.field obv.pk_offset)) (pos 0)) obv.auto_id
        (add_column fready e (int (get_int64 (p.field obv.pk_offset))) st) st (next_iid env) _
        (λ n. added e _ st p (entry _ (inl (n, refl))) r) (left_out e st (inr (inl k)) r)
        next_iid-Yields
        (λ _ new (n, d).
          added e (int new) st _ (entry _ (inr (n, ap int d))) (keyed e (int new) k r))
  primary_column-Yields e st string_kind i k h r =
      let p = st.object in
      let entry : (v : Value) → IsKey env obv p string_kind v → IsEntry env obv o e v =
        λ v g. (i, inl (k, (p, r, subst (λ t. IsKey env obv p t v) (sym h) g))) in
      chosen-Yields (IsColumn env obv o fready e st) _
        (is_empty (get_string (p.field obv.pk_offset))) obv.auto_id
        (add_column fready e (str (get_string (p.field obv.pk_offset))) st) st (next_sid env) _
        (λ n. added e _ st p (entry _ (inl (n, refl))) r) (left_out e st (inr (inl k)) r)
        next_sid-Yields
        (λ n new _. added e (str []) st _ (entry _ (inr (n, refl))) (keyed e (str new) k r))
  primary_column-Yields e st _ i k h r = Yields-throw _

  value_column-IsColumn :
      (e : FieldElem) (st : RowState) (g : Result Value)
      → e.ignore ≡ false
      → Rekeyed o st.object
      → get_value env.runtime st.object e ≡ g
      → IsColumn env obv o fready e st (value_column env fready e st g)
  unfolding value_column
  value_column-IsColumn e st (failed err) i r h = left_out e st (inr (inr (st.object, err, r, h))) r
  value_column-IsColumn e st (done w) i r h =
      added e _ st st.object (i, inr (st.object, w, r, h, refl)) r

  column-Yields :
      (auto_id : Bool) (e : FieldElem) (st : RowState)
      → Rekeyed o st.object
      → Yields (IsColumn env obv o fready e st) (column env auto_id fready obv e st)
  unfolding column
  column-Yields auto_id e st r =
      Yields-cases e.ignore _ _ (λ i. Yields-pure st (left_out e st (inl i) r))
        (λ i.
          Yields-cases e.primary _ _
            (λ k.
              Yields-cases auto_id _ _ (λ _. Yields-pure st (left_out e st (inr (inl k)) r))
                (λ _. primary_column-Yields e st e.field_kind i k refl r))
            (λ _. Yields-pure _ (value_column-IsColumn e st _ i r refl)))

  pub columns-Yields :
      (auto_id : Bool) (es : List FieldElem) (st : RowState)
      → Rekeyed o st.object
      → Yields (Written env obv o fready es st) (columns env auto_id fready obv es st)
  unfolding columns
  columns-Yields auto_id [] st r = Yields-pure st (record {
    entries = [];
    picked = refl;
    fpart = no_part fready st.fpart;
    vpart = unfold flat in sym (append-nil st.vpart);
    params = sym (append-nil st.parameter);
  })
  columns-Yields auto_id (e ∷ es) st r =
      Yields-bind _ _ (column-Yields auto_id e st r)
        (λ mid c. Yields-map (λ end w. Written-more c w) (columns-Yields auto_id es mid c.0))
