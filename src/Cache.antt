-- ===== src/Cache.antt =====
-- cache: the locks of cache/redis_lock.go.
mod Tests
pub mod Lock
