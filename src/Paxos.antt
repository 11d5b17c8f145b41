-- ===== src/Paxos.antt =====
-- paxos.h, paxos.cc, log.cc and the prop_t of paxos_protocol.h. Handlers run one at a time (each is
-- one RPC upcall); the log file is a text on disk, and an upcall to `paxos_change` is an entry of
-- `upcalls`.
pub mod Order
pub mod Record
pub mod Acceptor
pub mod Threads
pub mod Serial
pub mod Log
pub mod Safety
pub mod Replay
pub mod Recovery
pub mod Restart
pub mod Handlers
pub mod Proposer
pub mod Quorum
pub mod Choice
pub mod Decision
pub mod ReadEnds
