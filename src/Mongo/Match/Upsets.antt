-- ===== src/Mongo/Match/Upsets.antt =====
-- The fields that buildMongoUpset sets.
use freego.Prelude.{
  Text, codes, text_eq, eq_of_text_eq, ◌≡◌, refl, ap, ◌∙◌, sym, Bool, true, false, ◌||◌, Option,
  none, some, List, [], ◌∷◌, if◌then◌else◌,
}
use mathlib.Core.Bool.{false≢true}
use freego.Sqlc.Value.{Value}
use freego.Sqlc.Cnd.{Cnd}
use freego.Mongo.Match.{
  is, Test, Entries, no_entry, entry, nil_query, bson_m, put_test, is_empty_query, upset_loop,
  build_mongo_upset,
}
use freego.Mongo.Match.Lookup.{lookup, lookup-put_test}

-- A key of a document, which is never set.
abbrev pub id_key : Text → Bool
id_key k = text_eq k (codes "id") || text_eq k (codes "_id")

-- The value that is given last for this field, or else d.
abbrev pub last_value : Text → Option Test → List (Text × Value) → Option Test
last_value k d [] = d
last_value k d ((j, v) ∷ m) = last_value k (if text_eq j k then some (is v) else d) m

apart : (j k : Text) (b : Bool) → id_key j ≡ true → id_key k ≡ false → text_eq j k ≡ b → b ≡ false
apart j k true x y e = absurd (false≢true (sym y ∙ ap id_key (sym (eq_of_text_eq j k e)) ∙ x))
apart j k false x y e = refl

id_apart :
    (j k : Text) (b : Bool) → id_key j ≡ false → id_key k ≡ true → text_eq j k ≡ b → b ≡ false
id_apart j k true x y e = absurd (false≢true (sym x ∙ ap id_key (eq_of_text_eq j k e) ∙ y))
id_apart j k false x y e = refl

one_field :
    (k j : Text) (v : Value) (m : List (Text × Value)) (q : Entries) (a b : Bool)
    → id_key j ≡ a
    → id_key k ≡ b
    → (if b
        then lookup k (if a then q else put_test j (is v) q)
        else last_value k (lookup k (if a then q else put_test j (is v) q)) m)
      ≡ (if b then lookup k q else last_value k (if text_eq j k then some (is v) else lookup k q) m)
one_field k j v m q true true x y = refl
one_field k j v m q true false x y = rw (apart j k (text_eq j k) x y refl) refl
one_field k j v m q false true x y =
    lookup-put_test k j (is v) q ∙ rw (id_apart j k (text_eq j k) x y refl) refl
one_field k j v m q false false x y = ap (λ d. last_value k d m) (lookup-put_test k j (is v) q)

pub lookup-upset_loop :
    (k : Text) (m : List (Text × Value)) (q : Entries)
    → lookup k (upset_loop m q) ≡ (if id_key k then lookup k q else last_value k (lookup k q) m)
unfolding upset_loop
lookup-upset_loop k [] q = same (id_key k)
  where
    same : (b : Bool) → lookup k q ≡ (if b then lookup k q else lookup k q)
    same true = refl
    same false = refl
lookup-upset_loop k ((j, v) ∷ m) q =
    lookup-upset_loop k m (if id_key j then q else put_test j (is v) q)
    ∙ one_field k j v m q (id_key j) (id_key k) refl refl

-- The entries that a builder sets: each field but the ids has the value that is given last for it.
pub record IsUpset (c : Cnd) (es : Entries) : Type 0 where
  pub at : (k : Text) → lookup k es ≡ (if id_key k then none else last_value k none c.upsets)

pub build_mongo_upset-IsUpset :
    (c : Cnd)
    → is_empty_query (build_mongo_upset c) ≡ false
    → (es : Entries) × (build_mongo_upset c ≡ bson_m es) × IsUpset c es
unfolding build_mongo_upset
build_mongo_upset-IsUpset c h = by_entries (upset_loop c.upsets no_entry) refl h
  where
    by_entries :
        (es : Entries)
        → upset_loop c.upsets no_entry ≡ es
        → is_empty_query (elim es [ no_entry ↦ nil_query | entry k t q ↦ bson_m (entry k t q) ])
          ≡ false
        → (fs : Entries) × (elim es [ no_entry ↦ nil_query | entry k t q ↦ bson_m (entry k t q) ]
            ≡ bson_m fs)
          × IsUpset c fs
    by_entries no_entry e n = absurd (false≢true (sym n))
    by_entries (entry k t q) e n = (
      entry k t q,
      refl,
      record { at = λ i. ap (lookup i) (sym e) ∙ lookup-upset_loop i c.upsets no_entry },
    )
