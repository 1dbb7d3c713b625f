-- ===== src/Sqld/Exec.antt =====
-- ormx/sqld/base_manager.go: the state of RDBManager, its calls of database/sql, and Error.
pub mod Adds
pub mod Obeys
pub mod Yields
use freego.Prelude.{
  ℕ, ℤ, Text, String, Go, panic, ok, Bool, true, false, ◌&&◌, Option, none, some, List, [], ◌∷◌,
  ◌++◌, if◌then◌else◌,
}
use freego.Sqlc.Value.{Value}
use freego.Sqlc.Object.{Object}
use freego.Sqlc.Cnd.{Cnd}
use freego.Sqld.Model.Reading.{Cell}
use freego.Sqld.Model.{Arg, lit, text, Err, Result, done, failed, MdlDriver, Runtime}

-- SAVE, UPDATE, DELETE and UPDATE_BY_CND
pub data CacheOption : Type 0 where
  save update delete update_by_cnd : CacheOption

pub record MgoSyncData : Type 0 where
  pub cache_option : CacheOption
  pub cache_model : Object
  pub cache_cnd : Option Cnd
  pub cache_object : List Object

-- A statement that was run with its arguments, through self.Tx or through self.Db.
pub record Stmt : Type 0 where
  pub in_tx : Bool
  pub sql : Text
  pub params : List Value

-- What ExecContext gives back: an error, a result whose RowsAffected fails, or the number of rows
-- with the answer of LastInsertId.
pub data ExecReply : Type 0 where
  exec_failed : Text → ExecReply
  no_count : Text → ExecReply
  affected : ℤ → Result ℤ → ExecReply

-- The rows of a query: the answer of Columns, the answers of Scan to byte slices for each row, or
-- to an int64, and the error of Err behind the last row.
pub record Rows : Type 0 where
  pub columns : Result (List Text)
  pub scanned : List (Result (List Cell))
  pub totals : List (Result ℤ)
  pub err : Option Text

pub data QueryReply : Type 0 where
  query_failed : Text → QueryReply
  queried : Rows → QueryReply

-- database/sql, whose answers may depend on the statements run before: the error of
-- PrepareContext, and the answers of ExecContext and QueryContext.
pub record Driver : Type 0 where
  pub prepare : List Stmt → Bool → Text → Option Text
  pub exec : List Stmt → Stmt → ExecReply
  pub query : List Stmt → Stmt → QueryReply

-- What the methods of RDBManager read besides their receiver: the driver, the runtime, the
-- registered models, modelDrivers, and the NewObject of the models.
pub record Env : Type 0 where
  pub driver : Driver
  pub runtime : Runtime
  pub model_drivers : Text → Option MdlDriver
  pub new_object : Object → Object

-- RDBManager. `tx` says that a transaction was begun, `history` holds the statements run so
-- far, and `drawn` counts the snowflake ids.
pub record Rdb : Type 0 where
  pub ds_name : Text
  pub database : Text
  pub timeout : ℤ
  pub open_tx : Bool
  pub tx : Bool
  pub auto_id : Bool
  pub mongo_sync : Bool
  pub errors : List Err
  pub mgo_sync_data : List MgoSyncData
  pub history : List Stmt
  pub drawn : ℕ

-- A method: it panics, or returns (A, error) and leaves the receiver in a new state.
abbrev pub Exec : Type 0 → Type 0
Exec A = Rdb → Go (Result A × Rdb)

infixl 5 ◌>>=◌ ◌>>◌
abbrev continue : {A B : Type 0} → Result A × Rdb → (A → Exec B) → Go (Result B × Rdb)
continue (failed e, s) f = ok (failed e, s)
continue (done a, s) f = f a s

abbrev pub ◌>>=◌ : {A B : Type 0} → Exec A → (A → Exec B) → Exec B
◌>>=◌ m f s = elim (m s) [ panic ↦ panic | ok r ↦ continue r f ]

abbrev pub ◌>>◌ : {A B : Type 0} → Exec A → Exec B → Exec B
m >> n = m >>= λ _. n

abbrev pub pure : {A : Type 0} → A → Exec A
pure a s = ok (done a, s)

-- `return utils.Error(...)`: the error is returned and not recorded.
abbrev pub throw : {A : Type 0} → Err → Exec A
throw e s = ok (failed e, s)

-- `return self.Error(...)`: the error is recorded in self.Errors and returned.
unfoldable pub error : {A : Type 0} → Err → Exec A
error e s = ok (failed e, record s { errors = s.errors ++ e ∷ [] })

-- A call that may panic.
abbrev pub lift : {A : Type 0} → Go A → Exec A
lift panic s = panic
lift (ok a) s = ok (done a, s)

abbrev pub get_state : Exec Rdb
get_state s = ok (done s, s)

-- PrepareContext on self.Tx or self.Db, with the error that each method makes of its failure.
unfoldable pub prepare_error : {A : Type 0} → String → String → Text → Option Text → Exec A → Exec A
unfolding error
prepare_error label close sql none next = next
prepare_error label close sql (some e) next = error (lit label ∷ text sql ∷ lit close ∷ text e ∷ [])

unfoldable pub prepare_in : Env → {A : Type 0} → String → String → Text → Exec A → Exec A
unfolding prepare_error
prepare_in env label close sql next s =
    prepare_error label close sql (env.driver.prepare s.history s.open_tx sql) next s

unfoldable pub prepare : Env → {A : Type 0} → String → Text → Exec A → Exec A
unfolding prepare_in
prepare env label sql next = prepare_in env label " ] prepare failed: " sql next

-- ExecContext.
unfoldable pub exec : Env → Text → List Value → Exec ExecReply
exec env sql params s =
    let stmt : Stmt = record { in_tx = s.open_tx; sql = sql; params = params } in
    ok (done (env.driver.exec s.history stmt), record s { history = s.history ++ stmt ∷ [] })

-- QueryContext.
unfoldable pub query : Env → Text → List Value → Exec QueryReply
query env sql params s =
    let stmt : Stmt = record { in_tx = s.open_tx; sql = sql; params = params } in
    ok (done (env.driver.query s.history stmt), record s { history = s.history ++ stmt ∷ [] })

-- `stmt.ExecContext` and `ret.RowsAffected`, with the messages of the two failures.
unfoldable pub rows_affected : String → String → ExecReply → Exec (ℤ × Result ℤ)
unfolding error
rows_affected failed_msg count_msg (exec_failed e) = error (lit failed_msg ∷ text e ∷ [])
rows_affected failed_msg count_msg (no_count e) = error (lit count_msg ∷ text e ∷ [])
rows_affected failed_msg count_msg (affected n last_id) = pure (n, last_id)

-- self.MGOSyncData = append(...), under self.MongoSync && obv.ToMongo.
unfoldable pub add_sync : Bool → MgoSyncData → Exec (Unit {0})
add_sync to_mongo d s = ok (
  done tt,
  if s.mongo_sync && to_mongo then record s { mgo_sync_data = s.mgo_sync_data ++ d ∷ [] } else s,
)

-- modelDrivers[table], with the error of a table that is not registered.
unfoldable pub found_model : String → Text → Option MdlDriver → Exec MdlDriver
unfolding error
found_model label table none =
    error (lit label ∷ lit "registration object type not found [" ∷ text table ∷ lit "]" ∷ [])
found_model label table (some obv) = pure obv

unfoldable pub find_model : Env → String → Text → Exec MdlDriver
unfolding found_model
find_model env label table = found_model label table (env.model_drivers table)
