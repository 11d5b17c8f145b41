-- ===== src/Rpc.antt =====
-- rpc/: marshalling, the client's window of replies, the server's at-most-once table.
pub mod Marshal
pub mod Codec
pub mod Basic
pub mod Structs
pub mod Header
pub mod Window
pub mod Received
pub mod Client
pub mod Acknowledged
pub mod Reply
pub mod AtMostOnce
pub mod Saved
pub mod EndToEnd
pub mod Connection
pub mod Timespec
pub mod Buffer
pub mod Fifo
pub mod Dispatch
