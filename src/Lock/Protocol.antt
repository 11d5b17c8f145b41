-- ===== src/Lock/Protocol.antt =====
-- lock_protocol.h

-- The statuses of lock_protocol and of rlock_protocol; `rpc_failed` stands for the negative result of
-- a call that did not reach the other end.
pub data Status : Type 0 where
  ok retry rpcerr noent ioerr rpc_failed : Status
