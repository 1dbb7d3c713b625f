-- ===== src/Lib.antt =====
-- freego is a Go framework: a query builder (ormx/sqlc), managers that run what it describes on
-- MySQL and MongoDB (ormx/sqld), a web node with a filter chain (node), tokens (utils/jwt), caches,
-- RPC and message queues. A caller builds a Cnd, opens an RDBManager with GetDB, calls its methods,
-- and closes it, which commits or rolls back the transaction and passes the writes on to MongoDB.
--
-- Prelude: bytes, panics (Go), the 64-bit integers of Go as ℤ, and utils.Substr (utils/common.go).
-- Dialect: ormx/sqld/dialect/dialect.go, the text of a count and of a page.
-- Sqlc: ormx/sqlc/cnd.go. Sqlc/Value has the logic constants and the conditions, Sqlc/Cnd the
--   builder, Sqlc/Builder its methods. The Upsets map is the list of its entries in the order in
--   which the loop over the map meets them.
-- Sqld/Where: BuildCondKey and BuildWhereCase of ormx/sqld/base_manager.go; Where/Clauses describes
--   their result without buffers.
-- Errors: utils.Error (utils/common.go). Reflect: the conversions of utils/reflect_value.go.
-- Sqld/Model: the registered models, GetValue and SetValue of ormx/sqld/model_manager.go. An object
--   is its table and a function from field offsets to values.
-- Sqld/Exec: RDBManager, its calls of database/sql and its error list. A method takes the manager's
--   state, may panic, and returns a result or an error with the new state. The driver is a parameter
--   that answers by the statements run before; the state keeps these in `history`.
-- Sqld/Save, Sqld/Update, Sqld/Delete: the writing methods (Save, Update, UpdateByCnd, Delete,
--   DeleteById, DeleteByCnd). What a failed Save has done to the caller's objects is not kept.
-- Sqld/Order: BuildGroupBy and BuildSortBy of ormx/sqld/base_manager.go.
-- Sqld/Query: the queries (FindById, FindOne, FindList, Count, Exists, FindListComplex and
--   FindOneComplex) with OutDest and BuildPagination. The answers of the driver are lists of rows.
-- Sqld/Session: GetDB, Close and mongoSyncData; the writes to MongoDB are the actions that Close
--   asks for. Sqld/Transaction: a session's calls in turn.
--
-- Mongo: ormx/sqld/mongo_manager.go. Mongo/Match and Mongo/Options build the query, the update and
--   the options from a Cnd; Mongo/Session has the state of MGOManager with the operations run so
--   far, and the driver, which is a parameter; Mongo/Writes and Mongo/Reads are the methods. A bson.M
--   is the list of its entries. The pagination of a failed query is not kept.
--
-- Cache/Lock: cache/redis_lock.go. The processes that ask for locks take their steps in any order: the
--   part of TryLockWithTimeout and of SpinLockWithTimeout before the call, the handler of the
--   subscription, the time-out, and the end. The server is a parameter; a command may fail after it
--   was run, and a key may expire.
--
-- Jwt: utils/jwt/subject.go, tokens. HMAC, base64 and JSON are parameters, as are the clock and the
--   keys of the process.
-- Node/Context: the Context of node/node.go and its errors. Node/Request: readParams, validJsonBody
--   and validReplayAttack. Node/Filter: node/filter.go and MatchFilterURL (utils/common.go). The
--   chain runs the filters from its position on; a filter of the application calls the chain once.
--   The cache is a parameter that answers by the signatures put before; `handled` keeps the requests
--   that reached the handler of their route. Node/Render: defaultRenderPre and defaultRenderTo of
--   node/node_http.go, which write the response. Node/Language: ErrorMsgToLang and defaultRenderError.
--
-- All loops are structural recursion, over conditions, fields, objects or keys; the digits of a
-- number are produced on a fuel of n + 1 rounds, which is more than n has digits.
--
-- Not modelled: logging, the time-outs of contexts, the registration of models by reflection,
-- the clients and transactions of MongoDB, the routes, the expiry of a remembered
-- signature, which is the cache's, and the packages that are copies of other libraries.
pub mod Prelude
pub mod Errors
pub mod Reflect
pub mod Dialect
pub mod Sqlc
pub mod Sqld
pub mod Mongo
pub mod Cache
pub mod Jwt
pub mod Node
