-- ===== src/Lock.antt =====
-- The lock service: lock_server.cc, lock_server_cache.cc and lock_client_cache.cc.
pub mod Protocol
pub mod Server
pub mod ServerCache
pub mod Exclusion
pub mod Waiting
pub mod ClientCache
pub mod Threads
pub mod ThreadSafety
