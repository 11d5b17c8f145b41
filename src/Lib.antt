-- ===== src/Lib.antt =====
-- frangipani_yfs: a file system (yfs) over an extent service and a lock service, whose replicas agree by
-- Paxos, all over one rpc library. Paths are those of the repository.
--
-- The parts, and how they meet. yfs_client.cc keeps files and directories as extents. It takes a lock
-- from lock_client_cache.cc for each operation and reads and writes through extent_client.cc, which
-- caches extents while their lock is held and flushes them to extent_server.cc when the lock goes back.
-- lock_server_cache.cc lends each lock to one client, asks for it back by `revoke` and calls the next
-- client by `retry`. paxos.cc decides the views of the replicas, and log.cc keeps what an acceptor must
-- not forget. config.cc turns decisions into views, rsm.cc chooses the primary of a view, and handle.cc keeps
-- the clients to the other nodes. fuse.cc turns requests of the kernel into operations of yfs_client.cc. rpc/
-- carries the calls: marshalling, and a window of replies for the at-most-once rule.
--
-- The files.
--   Prelude    tests on numbers, lists, byte strings and maps that the other files share
--   Text       the iostreams that log.cc and yfs_client.cc read and write with
--   Paxos      paxos.cc, paxos.h, paxos_protocol.h, log.cc. Order: prop_t. Record: the lines of the log.
--              Threads: the handlers as steps of threads that interleave at each access to a field, and
--              the mutex. Acceptor: what each handler does when no other comes between its steps.
--              Serial: that Threads does the same then; Handlers: what follows, and what breaks
--              otherwise. Log: logread and the start of an acceptor. Proposer: proposer::run and its
--              parts. The proofs are in Safety, Replay, ReadEnds, Recovery, Restart, Quorum, Choice and
--              Decision.
--   Rpc        rpc/. Marshal: `<<` and `>>` of the basic types, with Buffer on its bounds. Codec: their
--              interface, which Basic and Structs fill. Header: the two headers. Client: bind, call1, got_pdu
--              and cancel of rpcc, over Window (update_xid_rep), with Received and Acknowledged. Timespec: the
--              rounds of call1. Reply: rpcs::checkduplicate_and_update and add_reply, with AtMostOnce and
--              Saved. Fifo: fifo.h. Dispatch: got_pdu and dispatch of rpcs, and the connections that they
--              count; its proofs are in InFlight, References, Serving, Ends and Runs. EndToEnd: a client and a
--              server. Connection: the framing of connection.cc, with Framing.
--   Extent     extent_server.cc (Server) and extent_client.cc (Client); the proofs are in Queues, Flush and
--              Contents.
--   Lock       lock_server.cc (Server), lock_server_cache.cc (ServerCache, with Exclusion and Waiting),
--              lock_client_cache.cc (ClientCache, with Threads and ThreadSafety).
--   Yfs        yfs_client.cc. Directory: the text of a directory, with Entries. Contents: the bytes of a
--              file. Client: the operations, over an interface of the two clients, with Files. Cached: that
--              interface filled by Extent.
--   Config     config.cc: the views, and a round of the heartbeater. Members: `members` and `value`. Views,
--              Joining and Heartbeats: the proofs, on restarts, on joining nodes and on removals.
--   Fuse       fuse.cc: the handlers as the replies that they send, over Yfs, with Replies.
--   Rsm        rsm.cc and rsm_protocol.h, as far as they go, with Primary, and rsm_client.cc (Client).
--   Handle     handle.cc and handle.h, with Counts.
--   Tests      the theorems at concrete inputs
--
-- State. An object is a record of its fields, and a method a function from the record before to the
-- record after with the results. What runs under one mutex is one step; a thread that gives the mutex up
-- (a wait, a call) is cut there, and a run is any list of steps. The handlers of paxos.cc hold no mutex, so
-- they are cut at every access to a field; an access to a proposal or a string is taken as one. A `std::map` is a function, or a list of
-- entries where they are counted. A call of another process is a parameter: a function from the request
-- to an answer or none (Paxos.Proposer), or the fate of the call (Extent.Client), which may be lost on
-- either way.
--
-- Bounds and fuel. Numbers are natural numbers; where the code wraps, `% 2 ^ 32` stands in the
-- definition (setn, the 32-bit position of rawbytes). logread and the loops over a directory run on fuel
-- one above the length of the text, and each round reads a character at least; the printing of a number
-- n runs on fuel n. generate_unique_inum retries as often as its fuel says and gives none after that: the
-- code retries without a bound. `members` runs on fuel one above the length of the value, and each round
-- reads a character at least. The rounds of call1 run on fuel; each round doubles its time-out.
-- The loop of the heartbeater over the members runs on fuel, as the members may change in it.
-- rsm_client::invoke goes on as long as its list of answers, as the code retries without a bound.
--
-- Not modelled: printing, time (a parameter), sockets, polling and their threads (rpc/pollmgr.cc), the
-- choice of a connection in rpcc::get_refconn, the statistics of rpcs, the join and recovery threads of
-- rsm.cc with its parts that are empty, statfs and main of fuse.cc, the queue of threads of
-- extent_client.cc, the stubs of lock_client.cc, and the testers. The buffers that the rpc server frees are
-- followed in Rpc.Reply only.
pub mod Prelude
pub mod Text
pub mod Paxos
pub mod Rpc
pub mod Extent
pub mod Lock
pub mod Yfs
pub mod Config
pub mod Fuse
pub mod Rsm
pub mod Handle
pub mod Tests
