-- ===== src/Extent.antt =====
-- The extent service: extent_protocol.h, extent_server.cc and extent_client.cc.
pub mod Protocol
pub mod Server
pub mod Client
pub mod Queues
pub mod Flush
pub mod Contents
