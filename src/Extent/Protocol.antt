-- ===== src/Extent/Protocol.antt =====
-- extent_protocol.h
use frangipani_yfs.Prelude.{ℕ}

-- The statuses that the servers and the client return; `rpc_failed` stands for a negative result of
-- a call that did not reach the server.
pub data Status : Type 0 where
  ok rpcerr noent ioerr fbig rpc_failed : Status

pub record Attr : Type 0 where
  pub atime : ℕ
  pub mtime : ℕ
  pub ctime : ℕ
  pub size : ℕ
