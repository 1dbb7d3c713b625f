-- ===== src/Sqld/Session.antt =====
-- ormx/sqld/base_manager.go: GetDB, Close and mongoSyncData of RDBManager.
use freego.Prelude.{
  ℤ, pos, Text, codes, ltb_ℤ, Bool, true, false, ◌&&◌, not, Option, none, some, List, [], ◌∷◌, ◌++◌,
  if◌then◌else◌,
}
use freego.Sqlc.Object.{Object}
use freego.Sqlc.Cnd.{Cnd}
use freego.Sqld.Model.{lit, text, Err}
use freego.Sqld.Exec.{CacheOption, save, update, delete, update_by_cnd, MgoSyncData, Rdb}
use freego.Sqld.Delete.{is_empty}

-- Option, as far as GetDB reads it.
pub record DbOption : Type 0 where
  pub ds_name : Text
  pub database : Text
  pub open_tx : Bool
  pub auto_id : Bool
  pub mongo_sync : Bool
  pub timeout : ℤ

-- A registered data source of `rdbs`.
pub record Source : Type 0 where
  pub ds_name : Text
  pub database : Text
  pub mongo_sync : Bool

abbrev or_else : Text → Text → Text
or_else [] t = t
or_else s t = s

-- `options[0]`, or the zero Option; with no name of its own an option that is given gets the
-- master's.
abbrev first_option : List DbOption → DbOption
first_option [] = record {
  ds_name = [];
  database = [];
  open_tx = false;
  auto_id = false;
  mongo_sync = false;
  timeout = pos 0;
}
first_option (o ∷ _) = record o { ds_name = or_else o.ds_name (codes "master") }

-- The manager of a source, before a transaction is begun.
opened : Source → DbOption → Rdb → Rdb
opened rdb o s = record s {
  ds_name = or_else o.ds_name rdb.ds_name;
  database = if is_empty o.ds_name then rdb.database else or_else o.database rdb.database;
  timeout = if not (is_empty o.ds_name) && ltb_ℤ (pos 0) o.timeout then o.timeout else pos 10000;
  open_tx = not (is_empty o.ds_name) && o.open_tx;
  auto_id = o.auto_id;
  mongo_sync = if not (is_empty o.ds_name) && o.mongo_sync then true else rdb.mongo_sync;
}

record_error : Err → Rdb → Option Err × Rdb
record_error e s = (some e, record s { errors = s.errors ++ e ∷ [] })

begin : Option Text → Rdb → Option Err × Rdb
unfolding record_error
begin none s = (none, record s { tx = true })
begin (some e) s = record_error (lit "database open transaction failed: " ∷ text e ∷ []) s

with_source : Option Text → DbOption → Text → Option Source → Rdb → Option Err × Rdb
unfolding record_error begin opened
with_source begun o ds_name none s =
    record_error (lit "datasource [" ∷ text ds_name ∷ lit "] not found..." ∷ []) s
with_source begun o ds_name (some rdb) s =
    let t = opened rdb o s in if t.open_tx then begin begun t else (none, t)

-- GetDB. `begun` is the error of Begin, if it fails.
unfoldable pub get_db :
    (Text → Option Source) → Option Text → List DbOption → Rdb → Option Err × Rdb
unfolding with_source
get_db rdbs begun options s =
    let o = first_option options in
    let ds_name = or_else o.ds_name (codes "master") in with_source begun o ds_name (rdbs ds_name) s

-- What mongoSyncData asks of the MongoDB manager.
pub data Action : Type 0 where
  commit rollback : Action
  mongo_save mongo_update mongo_delete : List Object → Action
  mongo_update_by_cnd : Cnd → Action

mongo_dispatch : CacheOption → Option Cnd → List Object → List Action
mongo_dispatch save c os = mongo_save os ∷ []
mongo_dispatch update c os = mongo_update os ∷ []
mongo_dispatch delete c os = mongo_delete os ∷ []
mongo_dispatch update_by_cnd none os = []
mongo_dispatch update_by_cnd (some c) os = mongo_update_by_cnd c ∷ []

-- mongoSyncData, over a connection that is had.
unfoldable pub mongo_sync_data : MgoSyncData → List Action
unfolding mongo_dispatch
mongo_sync_data d = mongo_dispatch d.cache_option d.cache_cnd d.cache_object

-- The loop of Close, which passes over an entry without objects.
unfoldable pub sync_all : List MgoSyncData → List Action
unfolding mongo_sync_data
sync_all [] = []
sync_all (d ∷ ds) = (if is_empty d.cache_object then [] else mongo_sync_data d) ++ sync_all ds

unfoldable pub sync : Rdb → List Action
unfolding sync_all
sync s =
    if is_empty s.errors && (s.mongo_sync && not (is_empty s.mgo_sync_data))
    then sync_all s.mgo_sync_data
    else []

-- Close. `committed` tells whether Commit succeeds; after a failed one, as after a rollback,
-- Close returns before the synchronisation.
unfoldable pub close : Bool → Rdb → List Action
unfolding sync
close committed s =
    if s.open_tx && s.tx
    then (if is_empty s.errors
        then (if committed then commit ∷ sync s else commit ∷ [])
        else rollback ∷ [])
    else sync s
