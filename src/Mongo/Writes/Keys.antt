-- ===== src/Mongo/Writes/Keys.antt =====
-- The ids of the documents that Save, Update and Delete name.
use mathlib.Core.List.{Memᴰ}
use freego.Prelude.{ℤ, pos, Text, codes, String, ◌≡◌, refl, ◌⊎◌, some, List, [], ◌∷◌}
use freego.Errors.{lit, Result, done, failed}
use freego.Sqlc.Value.{Value, Values, to_list}
use freego.Mongo.Match.{is, among, no_entry, entry, bson_m}
use freego.Sqlc.Object.{Object, set_field}
use freego.Sqld.Model.{MdlDriver}
use freego.Mongo.Session.{
  insert_many, replace_one, delete_many, MongoCall, Env, Mgo, Exec, call_of, Key, no_key, key_of,
  unsupported, pk, or_record,
}
use freego.Mongo.Session.Runs.{
  Holds, Runs, Runs-pure, Runs-error, Runs-guard, Runs-or_record, Runs-or_record-bind, Runs-bind,
  Runs-run_op, Runs-checked_data,
}
use freego.Mongo.Writes.{
  required_key, id_query, replaced, replace_each, mongo_update, required_keys, id_values, ids_query,
  delete_ids, mongo_delete,
}
use freego.Mongo.Writes.Ids.{IsIdOf, key-IsIdOf, listed_ids}

-- The key is an id.
abbrev pub IsId : Key → Type 0
IsId k = (v : Value) × (k ≡ key_of v)

-- The object itself if it has an id, and else the object with an id.
abbrev pub IsFilled : MdlDriver → Object → Object → Type 0
IsFilled obv o o' =
    ((o' ≡ o) ⊎ ((pk obv o ≡ no_key) × ((v : Value) × (o' ≡ set_field o obv.pk_offset v))))
    × IsId (pk obv o')

abbrev pub AreFilled : MdlDriver → List Object → List Object → Type 0
AreFilled obv [] [] = Unit
AreFilled obv (o ∷ os) (p ∷ ps) = IsFilled obv o p × AreFilled obv os ps
AreFilled obv _ _ = ⊥

abbrev pub IsInsertion : Env → List Object → MongoCall → Type 0
IsInsertion env os call =
    (obv : MdlDriver) × (adds : List Object) × (env.model_drivers call.table ≡ some obv)
    × (call.op ≡ insert_many adds)
    × AreFilled obv os adds

any_number : (r : Result ℤ) → Holds (λ _. Unit {0}) r
any_number (failed e) = tt
any_number (done n) = tt

-- A replacement by one of the objects of the document whose `_id` is its id.
abbrev pub IsReplacement : Env → List Object → MongoCall → Type 0
IsReplacement env os call =
    (obv : MdlDriver) × (o : Object) × (v : Value) × (env.model_drivers call.table ≡ some obv)
    × Memᴰ o os
    × IsIdOf obv o v
    × (call.op ≡ replace_one (bson_m (entry (codes "_id") (is v) no_entry)) o)

required_key-Runs :
    (M : MongoCall → Type 0) (label : String) (k : Key)
    → Runs M (λ v. k ≡ key_of v) (required_key label k)
unfolding required_key
required_key-Runs M label no_key = Runs-error _
required_key-Runs M label (key_of v) = Runs-pure v refl
required_key-Runs M label unsupported = Runs-error _

replaced-Runs :
    (M : MongoCall → Type 0) (next : Exec (Unit {0})) (r : Result ℤ)
    → Runs M (λ _. Unit {0}) next
    → Runs M (λ _. Unit {0}) (replaced next r)
unfolding replaced
replaced-Runs M next r k = search (Runs-or_record-bind, Runs-guard, k) depth 12

replace_each-Runs :
    (M : MongoCall → Type 0) (env : Env) (obv : MdlDriver) (table : Text) (os : List Object)
    → ((o : Object) (v : Value)
        → Memᴰ o os
        → pk obv o ≡ key_of v
        → (s : Mgo) → M (call_of s table (replace_one (id_query v) o)))
    → Runs M (λ _. Unit {0}) (replace_each env obv table os)
unfolding replace_each
replace_each-Runs M env obv table [] k = Runs-pure tt tt
replace_each-Runs M env obv table (o ∷ os) k =
    Runs-bind _ _ (required_key-Runs M "[Mongo.Update] " (pk obv o)) λ v h.
      Runs-bind _ (replaced (replace_each env obv table os))
        (Runs-run_op env table (replace_one (id_query v) o) (k o v (Memᴰ.head refl) h))
        λ r _.
          replaced-Runs M _ r (replace_each-Runs M env obv table os λ p w m. k p w (Memᴰ.tail m))

-- Every operation that Update runs replaces the document with the id of one of its objects, which
-- is not nil, by this object, in a table that is registered.
pub mongo_update-IsReplacement :
    (env : Env) (os : List Object)
    → Runs (IsReplacement env os) (λ _. Unit {0}) (mongo_update env os)
unfolding mongo_update
mongo_update-IsReplacement env os = Runs-checked_data env "[Mongo.Update] " os _ λ obv table e.
    replace_each-Runs _ env obv table os λ o v m h s. (obv, o, v, e, m, key-IsIdOf obv o v h, refl)

-- The ids are those of the objects, in order.
abbrev pub AreIds : MdlDriver → List Object → List Value → Type 0
AreIds obv [] [] = Unit
AreIds obv (o ∷ os) (v ∷ vs) = IsIdOf obv o v × AreIds obv os vs
AreIds obv _ _ = ⊥

-- A deletion of the documents whose `_id` is among the ids of the objects.
abbrev pub IsDeletionOf : Env → List Object → MongoCall → Type 0
IsDeletionOf env os call =
    (obv : MdlDriver) × (ids : List Value) × (vs : Values) × (env.model_drivers call.table
      ≡ some obv)
    × AreIds obv os ids
    × (to_list vs ≡ ids)
    × (call.op ≡ delete_many (bson_m (entry (codes "_id") (among "$in" vs) no_entry)))

required_keys-Runs :
    (M : MongoCall → Type 0) (obv : MdlDriver) (os : List Object)
    → Runs M (AreIds obv os) (required_keys obv os)
unfolding required_keys
required_keys-Runs M obv [] = Runs-pure [] tt
required_keys-Runs M obv (o ∷ os) = Runs-bind _ _ (required_key-Runs M _ (pk obv o)) λ v h.
    Runs-bind _ _ (required_keys-Runs M obv os) λ vs k. Runs-pure (v ∷ vs) (key-IsIdOf obv o v h, k)

delete_ids-Runs :
    (M : MongoCall → Type 0) (env : Env) (label : String) (table : Text) (ids : List Value)
    → ((s : Mgo) → M (call_of s table (delete_many (ids_query ids))))
    → Runs M (λ _. Unit {0}) (delete_ids env label table ids)
unfolding delete_ids
delete_ids-Runs M env label table [] k = Runs-pure (pos 0) tt
delete_ids-Runs M env label table (v ∷ vs) k =
    Runs-bind _ (or_record (lit label ∷ lit "delete failed: " ∷ []))
      (Runs-run_op env table (delete_many (ids_query (v ∷ vs))) k)
      λ r _. Runs-or_record (lit label ∷ lit "delete failed: " ∷ []) r (any_number r)

-- Every operation that Delete runs deletes the documents with the ids of its objects, none of which
-- is nil, in a table that is registered.
pub mongo_delete-IsDeletionOf :
    (env : Env) (os : List Object)
    → Runs (IsDeletionOf env os) (λ _. Unit {0}) (mongo_delete env os)
unfolding mongo_delete ids_query
mongo_delete-IsDeletionOf env os = Runs-checked_data env "[Mongo.Delete] " os _ λ obv table e.
    Runs-bind _ _ (required_keys-Runs _ obv os) λ ids h.
      Runs-bind _ _
        (delete_ids-Runs _ env "[Mongo.Delete] " table ids
          λ s. (obv, ids, id_values ids, e, h, listed_ids ids, refl))
        λ n _. Runs-pure tt tt
