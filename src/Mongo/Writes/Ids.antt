-- ===== src/Mongo/Writes/Ids.antt =====
-- What the id of an object is, and the list of ids that Delete asks for.
use freego.Prelude.{
  pos, eq_ℤ, ◌==◌, length, ◌≡◌, refl, ap, ◌⊎◌, inl, inr, Bool, true, false, List, [], ◌∷◌,
  if◌then◌else◌,
}
use freego.Sqlc.Value.{Value, to_list, int, str, other}
use freego.Sqlc.Object.{Object}
use freego.Sqld.Model.{MdlDriver, FieldKind, int64_kind, string_kind, get_int64, get_string}
use freego.Mongo.Session.{no_key, key_of, key_type_of, key_type, get_object_id, key_in, pk}
use freego.Mongo.Writes.{id_values}

-- The id of the object, at the place of the key: an Int64 that is not zero, a String that is not
-- empty, or an ObjectID that is not zero.
abbrev pub IsIdOf : MdlDriver → Object → Value → Type 0
IsIdOf obv o v =
    let f = o.field obv.pk_offset in
    (obv.pk_kind ≡ int64_kind) × (eq_ℤ (get_int64 f) (pos 0) ≡ false) × (v ≡ int (get_int64 f))
    ⊎ ((obv.pk_kind ≡ string_kind)
          × ((length (get_string f) == 0) ≡ false)
          × (v ≡ str (get_string f))
        ⊎ (obv.is_object_id ≡ true)
          × ((get_object_id f == 0) ≡ false)
          × (v ≡ other (get_object_id f)))

key_filled :
    (b : Bool) (w v : Value) → (if b then no_key else key_of w) ≡ key_of v → (b ≡ false) × (v ≡ w)
key_filled true w v h = absurd (cc h)
key_filled false w v h = (refl, cc)

kind_case :
    (obv : MdlDriver) (o : Object) (b : Bool) (k : FieldKind) (v : Value)
    → obv.is_object_id ≡ b
    → obv.pk_kind ≡ k
    → key_in (key_type_of b k) (o.field obv.pk_offset) ≡ key_of v
    → IsIdOf obv o v
unfolding key_in key_type_of
kind_case obv o b int64_kind v e k h = let r = key_filled _ _ v h in inl (k, r.0, r.1)
kind_case obv o b string_kind v e k h = let r = key_filled _ _ v h in inr (inl (k, r.0, r.1))
kind_case obv o true _ v e k h = let r = key_filled _ _ v h in inr (inr (e, r.0, r.1))
kind_case obv o false _ v e k h = absurd (cc h)

pub key-IsIdOf : (obv : MdlDriver) (o : Object) (v : Value) → pk obv o ≡ key_of v → IsIdOf obv o v
unfolding key_type
key-IsIdOf obv o v h = kind_case obv o obv.is_object_id obv.pk_kind v refl refl h

pub listed_ids : (ids : List Value) → to_list (id_values ids) ≡ ids
unfolding id_values
listed_ids [] = refl
listed_ids (v ∷ vs) = ap (λ l. v ∷ l) (listed_ids vs)
