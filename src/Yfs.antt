-- ===== src/Yfs.antt =====
-- The file system client: yfs_client.cc.
pub mod Directory
pub mod Entries
pub mod Contents
pub mod Client
pub mod Files
pub mod Cached
