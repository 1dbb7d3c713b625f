-- ===== src/Mongo/Writes.antt =====
-- ormx/sqld/mongo_manager.go: Save, Update, Delete, DeleteById, UpdateByCnd and DeleteByCnd of
-- MGOManager.
pub mod Filters
pub mod Ids
pub mod Keys
use freego.Prelude.{
  suc, ℤ, pos, eq_ℤ, Text, String, Option, none, some, List, [], ◌∷◌, length, if◌then◌else◌, ok,
}
use freego.Errors.{lit, Err, Result, done}
use freego.Sqlc.Value.{Value, int, str, other, Values, no_value, value}
use freego.Sqlc.Object.{Object, set_field}
use freego.Sqlc.Cnd.{Cnd}
use freego.Sqld.Model.{MdlDriver}
use freego.Mongo.Match.{
  is, among, no_entry, entry, Query, bson_m, bid, build_mongo_match, build_mongo_upset,
  is_empty_query,
}
use freego.Mongo.Session.{
  insert_many, replace_one, update_many, delete_many, Env, Exec, ◌>>=◌, ◌>>◌, pure, mongo_error,
  lift, or_record, get_database, run_op, Key, no_key, key_of, unsupported, KeyType, int64_key,
  string_key, key_type, pk, checked_model, checked_data,
}

abbrev unsupported_key : Err
unsupported_key = lit "only Int64 and string and ObjectID type IDs are supported" ∷ []

-- utils.NextIID, utils.NextSID and primitive.NewObjectID
unfoldable pub fresh_key : Env → KeyType → Exec Value
fresh_key env int64_key s =
    ok (done (int (env.runtime.next_iid s.drawn)), record s { drawn = suc s.drawn })
fresh_key env string_key s =
    ok (done (str (env.runtime.next_sid s.drawn)), record s { drawn = suc s.drawn })
fresh_key env _ s =
    ok (done (other (env.client.new_object_id s.drawn)), record s { drawn = suc s.drawn })

-- The round of Save for one object, which is given an id if it has none.
unfoldable pub with_key : Env → MdlDriver → Object → Key → Exec Object
unfolding mongo_error fresh_key
with_key env obv o no_key = do v ← fresh_key env (key_type obv); pure (set_field o obv.pk_offset v)
with_key env obv o (key_of _) = pure o
with_key env obv o unsupported = mongo_error unsupported_key

unfoldable pub with_keys : Env → MdlDriver → List Object → Exec (List Object)
unfolding with_key
with_keys env obv [] = pure []
with_keys env obv (o ∷ os) = do
  o' ← with_key env obv o (pk obv o)
  adds ← with_keys env obv os
  pure (o' ∷ adds)

unfoldable pub inserted : List Object → Result ℤ → Exec (List Object)
unfolding mongo_error or_record
inserted adds r = or_record (lit "[Mongo.Save] save failed: " ∷ []) r >>= λ n.
    if eq_ℤ n (pos (length adds))
    then pure adds
    else mongo_error (lit "[Mongo.Save] save failed: InsertedIDs length invalid" ∷ [])

-- Save; it returns the objects, which the caller holds by pointer.
unfoldable pub mongo_save : Env → List Object → Exec (List Object)
unfolding with_keys run_op checked_data inserted
mongo_save env os = checked_data env "[Mongo.Save] " os λ obv table. do
  adds ← with_keys env obv os
  r ← run_op env table (insert_many adds)
  inserted adds r

-- The id of an object that must have one.
unfoldable pub required_key : String → Key → Exec Value
unfolding mongo_error
required_key label no_key = mongo_error (lit label ∷ lit "data object id is nil" ∷ [])
required_key label (key_of v) = pure v
required_key label unsupported = mongo_error unsupported_key

-- bson.M{"_id": lastInsertId}
abbrev pub id_query : Value → Query
id_query v = bson_m (entry bid (is v) no_entry)

-- The end of a round of Update, and the other rounds.
unfoldable pub replaced : Exec (Unit {0}) → Result ℤ → Exec (Unit {0})
unfolding mongo_error or_record
replaced next r = or_record (lit "[Mongo.Update] update failed: " ∷ []) r >>= λ n.
    if eq_ℤ n (pos 0)
    then mongo_error (lit "[Mongo.Update] update failed: ModifiedCount = 0" ∷ [])
    else next

-- The loop of Update.
unfoldable pub replace_each : Env → MdlDriver → Text → List Object → Exec (Unit {0})
unfolding required_key run_op replaced
replace_each env obv table [] = pure tt
replace_each env obv table (o ∷ os) = do
  id ← required_key "[Mongo.Update] " (pk obv o)
  r ← run_op env table (replace_one (id_query id) o)
  replaced (replace_each env obv table os) r

-- Update
unfoldable pub mongo_update : Env → List Object → Exec (Unit {0})
unfolding checked_data replace_each
mongo_update env os =
    checked_data env "[Mongo.Update] " os λ obv table. replace_each env obv table os

-- Delete names Update in its message about an object id.
delete_label : KeyType → String
delete_label int64_key = "[Mongo.Delete] "
delete_label string_key = "[Mongo.Delete] "
delete_label _ = "[Mongo.Update] "

unfoldable pub required_keys : MdlDriver → List Object → Exec (List Value)
unfolding required_key delete_label
required_keys obv [] = pure []
required_keys obv (o ∷ os) = do
  id ← required_key (delete_label (key_type obv)) (pk obv o)
  ids ← required_keys obv os
  pure (id ∷ ids)

unfoldable pub id_values : List Value → Values
id_values [] = no_value
id_values (v ∷ vs) = value v (id_values vs)

-- bson.M{"_id": bson.M{"$in": ids}}
unfoldable pub ids_query : List Value → Query
unfolding id_values
ids_query ids = bson_m (entry bid (among "$in" (id_values ids)) no_entry)

unfoldable pub delete_ids : Env → String → Text → List Value → Exec ℤ
unfolding ids_query run_op or_record
delete_ids env label table [] = pure (pos 0)
delete_ids env label table (v ∷ vs) = do
  r ← run_op env table (delete_many (ids_query (v ∷ vs)))
  or_record (lit label ∷ lit "delete failed: " ∷ []) r

-- Delete
unfoldable pub mongo_delete : Env → List Object → Exec (Unit {0})
unfolding checked_data required_keys delete_ids
mongo_delete env os = checked_data env "[Mongo.Delete] " os λ obv table. do
  ids ← required_keys obv os
  _ ← delete_ids env "[Mongo.Delete] " table ids
  pure tt

-- DeleteById
unfoldable pub mongo_delete_by_id : Env → Object → List Value → Exec ℤ
unfolding mongo_error checked_model delete_ids
mongo_delete_by_id env o [] = mongo_error (lit "[Mongo.DeleteById] data is nil" ∷ [])
mongo_delete_by_id env o (v ∷ vs) =
    checked_model env "[Mongo.DeleteById] " (length (v ∷ vs)) o
      λ _ table. delete_ids env "[Mongo.DeleteById] " table (v ∷ vs)

-- The number of documents that were changed, which must not be 0.
unfoldable pub changed : Err → Err → Result ℤ → Exec ℤ
unfolding mongo_error or_record
changed failed_msg zero_msg r =
    or_record failed_msg r >>= λ n. if eq_ℤ n (pos 0) then mongo_error zero_msg else pure n

abbrev pub update_failed : Err
update_failed = lit "[Mongo.UpdateByCnd] update failed: " ∷ []

abbrev pub no_update : Err
no_update = lit "[Mongo.Update] update failed: ModifiedCount = 0" ∷ []

unfoldable pub update_matched : Env → Cnd → Text → Query → Exec ℤ
unfolding mongo_error run_op changed
update_matched env c table match =
    if is_empty_query match
    then mongo_error (lit "pipe match is nil" ∷ [])
    else if is_empty_query (build_mongo_upset c)
    then mongo_error (lit "pipe upset is nil" ∷ [])
    else (run_op env table (update_many match (build_mongo_upset c))
        >>= changed update_failed no_update)

unfoldable pub update_model : Env → Cnd → Option Object → Exec ℤ
unfolding mongo_error get_database update_matched
update_model env c none = mongo_error (lit "[Mongo.UpdateByCnd] data model is nil" ∷ [])
update_model env c (some model) = do
  get_database env model.table
  match ← lift (build_mongo_match c.conditions)
  update_matched env c model.table match

-- UpdateByCnd
unfoldable pub mongo_update_with_cnd : Env → Cnd → Exec ℤ
unfolding update_model
mongo_update_with_cnd env c = update_model env c c.model

abbrev pub delete_failed : Err
delete_failed = lit "[Mongo.DeleteByCnd] delete failed: " ∷ []

abbrev pub no_deletion : Err
no_deletion = lit "[Mongo.DeleteByCnd] delete failed: ModifiedCount = 0" ∷ []

unfoldable pub delete_matched : Env → Text → Query → Exec ℤ
unfolding mongo_error run_op changed
delete_matched env table match =
    if is_empty_query match
    then mongo_error (lit "pipe match is nil" ∷ [])
    else (run_op env table (delete_many match) >>= changed delete_failed no_deletion)

unfoldable pub delete_model : Env → Option Object → Cnd → Exec ℤ
unfolding mongo_error get_database delete_matched
delete_model env none c = mongo_error (lit "[Mongo.DeleteByCnd] data model is nil" ∷ [])
delete_model env (some model) c = do
  get_database env model.table
  match ← lift (build_mongo_match c.conditions)
  delete_matched env model.table match

-- DeleteByCnd
unfoldable pub mongo_delete_by_cnd : Env → Cnd → Exec ℤ
unfolding delete_model
mongo_delete_by_cnd env c = delete_model env c.model c
