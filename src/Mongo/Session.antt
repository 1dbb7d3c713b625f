-- ===== src/Mongo/Session.antt =====
-- ormx/sqld/mongo_manager.go: the state of MGOManager, its calls of the driver, and its errors.
pub mod Runs
use freego.Prelude.{
  ℕ, suc, ℤ, pos, eq_ℤ, Text, String, Go, panic, ok, ltb, ◌==◌, Bool, true, false, Option, none,
  some, List, [], ◌∷◌, ◌++◌, length, if◌then◌else◌,
}
use freego.Errors.{lit, text, Err, Result, done, failed}
use freego.Sqlc.Value.{Value, int, str, other}
use freego.Sqlc.Object.{Object}
use freego.Sqld.Model.{
  FieldKind, int64_kind, string_kind, MdlDriver, Runtime, get_int64, get_string,
}
use freego.Sqld.Exec.{MgoSyncData}
use freego.Mongo.Match.{Query}
use freego.Mongo.Options.{QueryOption}

-- An operation on a collection. The map of `update_many` is the one under `$set`.
pub data Op : Type 0 where
  insert_many : List Object → Op
  replace_one : Query → Object → Op
  update_many : Query → Query → Op
  delete_many : Query → Op
  estimated_count : Op
  count_documents : Query → Op
  find_one_op : Query → List QueryOption → Op
  find_op : Query → List QueryOption → Op

-- An operation that was run, in the session of a transaction or not.
pub record MongoCall : Type 0 where
  pub in_session : Bool
  pub table : Text
  pub op : Op

-- What Decode and All give back.
pub data Found {ℓ} (A : Type ℓ) : Type ℓ where
  found : A → Found A
  no_documents : Found A
  broken : Err → Found A

-- The MongoDB driver, whose answers may depend on the operations run before: whether there is a
-- collection; the number of the InsertedIDs, the ModifiedCount, the DeletedCount or the count;
-- the documents of a query; and the new object ids.
pub record Client : Type 0 where
  pub has_collection : Text → Bool
  pub run : List MongoCall → MongoCall → Result ℤ
  pub decode : List MongoCall → MongoCall → Found Object
  pub all : List MongoCall → MongoCall → Result (Found (List Object))
  pub new_object_id : ℕ → ℕ

-- What the methods read besides their receiver.
pub record Env : Type 0 where
  pub client : Client
  pub runtime : Runtime
  pub model_drivers : Text → Option MdlDriver

-- MGOManager. `history` holds the operations run so far, and `drawn` counts the new ids.
pub record Mgo : Type 0 where
  pub in_session : Bool
  pub errors : List Err
  pub mgo_sync_data : List MgoSyncData
  pub history : List MongoCall
  pub drawn : ℕ

-- A method: it panics, or returns (A, error) and leaves the receiver in a new state.
abbrev pub Exec : Type 0 → Type 0
Exec A = Mgo → Go (Result A × Mgo)

infixl 5 ◌>>=◌ ◌>>◌
abbrev pub continue : {A B : Type 0} → Result A × Mgo → (A → Exec B) → Go (Result B × Mgo)
continue (failed e, s) f = ok (failed e, s)
continue (done a, s) f = f a s

abbrev pub ◌>>=◌ : {A B : Type 0} → Exec A → (A → Exec B) → Exec B
◌>>=◌ m f s = elim (m s) [ panic ↦ panic | ok r ↦ continue r f ]

abbrev pub ◌>>◌ : {A B : Type 0} → Exec A → Exec B → Exec B
m >> n = m >>= λ _. n

abbrev pub pure : {A : Type 0} → A → Exec A
pure a s = ok (done a, s)

-- `return self.Error(...)`
unfoldable pub mongo_error : {A : Type 0} → Err → Exec A
mongo_error e s = ok (failed e, record s { errors = s.errors ++ e ∷ [] })

-- A call that may panic.
abbrev pub lift : {A : Type 0} → Go A → Exec A
lift panic s = panic
lift (ok a) s = ok (done a, s)

-- `self.Error(label, err)` for the error of a call, or `self.Error(err)` without a label.
unfoldable pub or_record : {A : Type 0} → Err → Result A → Exec A
unfolding mongo_error
or_record label (failed e) = mongo_error (label ++ e)
or_record label (done a) = pure a

-- GetDatabase
unfoldable pub get_database : Env → Text → Exec (Unit {0})
unfolding mongo_error
get_database env table =
    if env.client.has_collection table
    then pure tt
    else mongo_error (lit "failed to get Mongo collection" ∷ [])

-- GetDatabase, whose error is recorded once more.
unfoldable pub open_collection : Env → Text → Exec (Unit {0})
unfolding mongo_error
open_collection env table = if env.client.has_collection table then pure tt else λ s.
    let e : Err = lit "failed to get Mongo collection" ∷ [] in
    mongo_error e (record s { errors = s.errors ++ e ∷ [] })

abbrev pub call_of : Mgo → Text → Op → MongoCall
call_of s table op = record { in_session = s.in_session; table = table; op = op }

abbrev pub called : Mgo → MongoCall → Mgo
called s c = record s { history = s.history ++ c ∷ [] }

-- An operation of the driver that gives a number, with the context of GetSessionContext.
unfoldable pub run_op : Env → Text → Op → Exec (Result ℤ)
run_op env table op s =
    let c = call_of s table op in ok (done (env.client.run s.history c), called s c)

-- `d := data[0]`, or the model of the first entry that is passed on.
abbrev first_model : Object → List MgoSyncData → Object
first_model o [] = o
first_model o (d ∷ _) = d.cache_model

unfoldable pub sync_model : Object → Exec Object
sync_model o s = ok (done (first_model o s.mgo_sync_data), s)

-- modelDrivers[table]
unfoldable pub driver_of : String → Text → Option MdlDriver → Exec MdlDriver
unfolding mongo_error
driver_of label table none =
    mongo_error (lit label ∷ lit "registration object type not found [" ∷ text table ∷ lit "]" ∷ [])
driver_of label table (some obv) = pure obv

-- What an object's primary key holds: nothing, an id, or a value of another type.
pub data Key : Type 0 where
  no_key : Key
  key_of : Value → Key
  unsupported : Key

-- GetObjectID; an object id is an `other`, and 0 stands for the null one.
abbrev pub get_object_id : Value → ℕ
get_object_id (other n) = n
get_object_id _ = 0

-- The tests of obv.PkKind and obv.PkType.
pub data KeyType : Type 0 where
  int64_key string_key object_key other_key : KeyType

unfoldable pub key_type_of : Bool → FieldKind → KeyType
key_type_of b int64_kind = int64_key
key_type_of b string_kind = string_key
key_type_of b _ = if b then object_key else other_key

unfoldable pub key_type : MdlDriver → KeyType
unfolding key_type_of
key_type obv = key_type_of obv.is_object_id obv.pk_kind

unfoldable pub key_in : KeyType → Value → Key
key_in int64_key v = if eq_ℤ (get_int64 v) (pos 0) then no_key else key_of (int (get_int64 v))
key_in string_key v = if length (get_string v) == 0 then no_key else key_of (str (get_string v))
key_in object_key v = if get_object_id v == 0 then no_key else key_of (other (get_object_id v))
key_in other_key v = unsupported

-- What the object holds at obv.PkOffset.
abbrev pub pk : MdlDriver → Object → Key
pk obv o = key_in (key_type obv) (o.field obv.pk_offset)

-- The tests at the beginning of Save, Update, Delete and DeleteById on the number of data, the model
-- of the table, and the collection.
unfoldable pub checked_model :
    Env → {A : Type 0} → String → ℕ → Object → (MdlDriver → Text → Exec A) → Exec A
unfolding mongo_error sync_model driver_of open_collection
checked_model env label n o f =
    if ltb 2000 n
    then mongo_error (lit label ∷ lit "data length > 2000" ∷ [])
    else (sync_model o >>= λ d. driver_of label d.table (env.model_drivers d.table) >>= λ obv.
        open_collection env d.table >> f obv d.table)

unfoldable pub checked_data :
    Env → {A : Type 0} → String → List Object → (MdlDriver → Text → Exec A) → Exec A
unfolding mongo_error checked_model
checked_data env label [] f = mongo_error (lit label ∷ lit "data is nil" ∷ [])
checked_data env label (o ∷ os) f = checked_model env label (length (o ∷ os)) o f
