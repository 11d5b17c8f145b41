-- ===== src/Rpc/Dispatch.antt =====
-- The server side of the rpc library: rpcs::got_pdu, dispatch and its connections (rpc/rpc.cc), over the
-- queue of the thread pool. dispatch is cut at the call of the handler, whose result the
-- event `finishes` brings with the buffer of the packed reply. A connection is a number, 0 is NULL.
-- `none` is the end of the process: a failed assertion, or a use of NULL or of a deleted job.
pub mod InFlight
pub mod References
pub mod Serving
pub mod Ends
pub mod Runs
use frangipani_yfs.Prelude.{
  and_then, ltb, ◌||◌, ◌^◌, ℕ, ◌+◌, ◌-◌, Bool, true, false, not, ◌&&◌, [], ◌∷◌, ◌++◌, List, ◌==◌,
  if◌then◌else◌, Option, none, some, elem, remove_all, update, Bytes, zero, suc,
}
use frangipani_yfs.Rpc.Fifo.{enq, deq}
use frangipani_yfs.Rpc.Marshal.{Unmarshall}
use frangipani_yfs.Rpc.Header.{ReqHeader, ReplyHeader, unpack_req_header}
use frangipani_yfs.Rpc.Reply.{
  Table, RpcState, new, inprogress, forgotten, done, Checked, check, add_reply,
}

-- djob_t. `deleted` says that the job was deleted while the queue has it.
pub record Job : Type 0 where
  pub conn : ℕ
  pub buf : Bytes
  pub deleted : Bool

-- A handler at work.
pub record Running : Type 0 where
  pub conn : ℕ
  pub clt : ℕ
  pub xid : ℕ

pub data Answer : Type 0 where
  -- a reply header alone, for a failure
  header_only : ReplyHeader → Answer
  saved_reply : ℕ → ℕ → Answer

pub record Rpcs : Type 0 where
  pub nonce : ℕ
  pub reachable : Bool
  pub procs : List ℕ
  pub table : Table
  -- conns_: the latest connection of each client
  pub conns : List (ℕ × ℕ)
  -- refno_ of each connection, and the connections that the listener holds (tcpsconn::conns_)
  pub refs : ℕ → ℕ
  pub held : List ℕ
  pub queue : List Job
  pub running : List Running
  -- the requests whose handlers were called, and what was sent, the last one first
  pub started : List (ℕ × ℕ)
  pub sent : List (ℕ × Answer)

-- ThrPool(10, false): the queue holds 100 jobs for each thread.
abbrev pub max_jobs : ℕ
max_jobs = 1000

abbrev pub oldsrv_failure : ℕ
oldsrv_failure = 4294967291

abbrev pub atmostonce_failure : ℕ
atmostonce_failure = 4294967292

-- connection::incref, connection::decref
abbrev pub incref : ℕ → Rpcs → Rpcs
incref c s = record s { refs = update s.refs c (s.refs c + 1) }

unfoldable pub decref : ℕ → Rpcs → Option Rpcs
decref c s =
    if s.refs c == 0 then none else some (record s { refs = update s.refs c (s.refs c - 1) })

-- got_pdu. `reachable_` is read once more after the job was added.
unfoldable pub added : ℕ → Bool → Job → Rpcs → Option (List Job) → Option Rpcs
unfolding decref
added c later j s none = decref c (incref c s)
added c later j s (some q) =
    if later
    then some (record (incref c s) { queue = q })
    else decref c (record (incref c s) {
      queue = s.queue ++ record { conn = j.conn; buf = j.buf; deleted = true } ∷ [];
    })

unfoldable pub got_pdu : ℕ → Bytes → Bool → Rpcs → Option Rpcs
unfolding enq added
got_pdu c b later s =
    let j : Job = record { conn = c; buf = b; deleted = false } in
    if not s.reachable then some s else added c later j s (enq max_jobs j s.queue)

-- reg1: `none` where its assertion fails.
unfoldable pub reg1 : ℕ → Rpcs → Option Rpcs
reg1 proc s = if elem proc s.procs then none else some (record s { procs = proc ∷ s.procs })

-- The header, if the buffer has one.
unfoldable pub header_of : Bytes → Option ReqHeader
unfolding unpack_req_header
header_of b =
    let (h, u) = unpack_req_header (record { buf = b; ind = 0; ok = true; fault = false }) in
    if u.ok then some h else none

unfoldable pub find_conn : ℕ → List (ℕ × ℕ) → Option ℕ
find_conn clt [] = none
find_conn clt ((k, c) ∷ l) = if k == clt then some c else find_conn clt l

unfoldable pub set_conn : ℕ → ℕ → List (ℕ × ℕ) → List (ℕ × ℕ)
set_conn clt c [] = (clt, c) ∷ []
set_conn clt c ((k, d) ∷ l) = if k == clt then (k, c) ∷ l else (k, d) ∷ set_conn clt c l

unfoldable pub kept : ℕ → ℕ → Option Rpcs → Option Rpcs
kept clt c none = none
kept clt c (some s) = some (record (incref c s) { conns = set_conn clt c s.conns })

-- "save the latest good connection to the client"
unfoldable pub save_conn : ℕ → ℕ → Rpcs → Option ℕ → Option Rpcs
unfolding kept decref
save_conn clt c s none = kept clt c (some s)
save_conn clt c s (some d) = if d == c then some s else kept clt c (decref d s)

abbrev pub send : ℕ → Answer → Rpcs → Rpcs
send c a s = record s { sent = (c, a) ∷ s.sent }

-- case NEW, up to the call of the handler
abbrev pub start : ReqHeader → ℕ → Rpcs → Rpcs
start h c s = record s {
  started = (h.clt_nonce, h.xid) ∷ s.started;
  running = record { conn = c; clt = h.clt_nonce; xid = h.xid } ∷ s.running;
}

-- The switch of dispatch.
unfoldable pub switch : ReqHeader → ℕ → Rpcs → RpcState → Option Rpcs
unfolding decref
switch h c s new = some (start h c s)
switch h c s inprogress = decref c s
switch h c s (done b sz) = decref c (send c (saved_reply b sz) s)
switch h c s forgotten =
    decref c (send c (header_only (record { xid = h.xid; ret = atmostonce_failure })) s)

unfoldable pub screened : ReqHeader → ℕ → Option Rpcs → Option Rpcs
unfolding switch
screened h c none = none
screened h c (some s) =
    let k = check h.clt_nonce h.xid h.xid_rep s.table in
    switch h c (record s { table = k.table }) k.state

-- dispatch, up to the call of the handler
unfoldable pub dispatch : ℕ → Rpcs → Option ReqHeader → Option Rpcs
unfolding decref screened save_conn find_conn
dispatch c s none = decref c s
dispatch c s (some h) =
    if not (h.srv_nonce == 0) && not (h.srv_nonce == s.nonce)
    then some (send c (header_only (record { xid = h.xid; ret = oldsrv_failure })) s)
    else if not (elem h.proc s.procs)
    then decref c s
    else if h.clt_nonce == 0
    then some (start h c s)
    else screened h c (save_conn h.clt_nonce c s (find_conn h.clt_nonce s.conns))

-- A worker takes a job.
unfoldable pub take_job : Rpcs → Option (Job × List Job) → Option Rpcs
unfolding dispatch header_of
take_job s none = some s
take_job s (some (j, q)) =
    if j.deleted then none else dispatch j.conn (record s { queue = q }) (header_of j.buf)

-- The handler at a position, and the others.
unfoldable pub behind : Running → Option (Running × List Running) → Option (Running × List Running)
behind r none = none
behind r (some (q, rs)) = some (q, r ∷ rs)

unfoldable pub pick : ℕ → List Running → Option (Running × List Running)
unfolding behind
pick n [] = none
pick zero (r ∷ rs) = some (r, rs)
pick (suc n) (r ∷ rs) = behind r (pick n rs)

-- "get the latest connection to the client": `conns_[clt]` is NULL for a client without an entry.
unfoldable pub moved : ℕ → Option Rpcs → Option (ℕ × Rpcs)
moved d none = none
moved d (some s) = some (d, incref d s)

unfoldable pub move_conn : ℕ → Option ℕ → Rpcs → Option (ℕ × Rpcs)
unfolding moved decref
move_conn c none s = none
move_conn c (some d) s = if d == c then some (c, s) else moved d (decref c s)

unfoldable pub latest : Running → Bool → Rpcs → Option (ℕ × Rpcs)
unfolding move_conn find_conn
latest r dead s = if dead then move_conn r.conn (find_conn r.clt s.conns) s else some (r.conn, s)

unfoldable pub answer : ℕ → ℕ → Option (ℕ × Rpcs) → Option Rpcs
unfolding decref
answer b sz none = none
answer b sz (some (c, s)) = decref c (send c (saved_reply b sz) s)

unfoldable pub recorded : Running → Bool → ℕ → ℕ → Rpcs → Option Table → Option Rpcs
unfolding latest answer
recorded r dead b sz s none = none
recorded r dead b sz s (some t) = answer b sz (latest r dead (record s { table = t }))

-- The handler's result must not be negative, but for unmarshal_args_failure, -2.
unfoldable pub is_result : ℕ → Bool
is_result ret = ltb ret (2 ^ 31) || ret == 2 ^ 32 - 2

-- dispatch, from the return of the handler on
unfoldable pub finish : Bool → ℕ → ℕ → ℕ → Rpcs → Option (Running × List Running) → Option Rpcs
unfolding recorded add_reply is_result
finish dead ret b sz s none = some s
finish dead ret b sz s (some (r, rs)) =
    let t = if r.clt == 0 then some s.table else add_reply r.clt r.xid b sz s.table in
    if is_result ret then recorded r dead b sz (record s { running = rs }) t else none

-- tcpsconn::process_accept: a connection begins with one reference, and a dead one that only the
-- listener holds is dropped.
unfoldable pub accept : ℕ → Rpcs → Rpcs
accept c s = record s { refs = update s.refs c 1; held = c ∷ s.held }

unfoldable pub reap : ℕ → Rpcs → Option Rpcs
unfolding decref
reap c s =
    if elem c s.held && s.refs c == 1
    then decref c (record s { held = remove_all c s.held })
    else some s

-- The constructor, after procedures were registered.
abbrev pub fresh_server : ℕ → List ℕ → Rpcs
fresh_server nonce procs = record {
  nonce = nonce;
  reachable = true;
  procs = procs;
  table = λ _. [];
  conns = [];
  refs = λ _. 0;
  held = [];
  queue = [];
  running = [];
  started = [];
  sent = [];
}

pub data Event : Type 0 where
  accepts reaps : ℕ → Event
  reaches : Bool → Event
  arrives : ℕ → Bytes → Bool → Event
  begins : Event
  finishes : ℕ → Bool → ℕ → ℕ → ℕ → Event

unfoldable pub step : Event → Rpcs → Option Rpcs
unfolding got_pdu take_job deq finish pick accept reap
step (accepts c) s = some (accept c s)
step (reaps c) s = reap c s
step (reaches b) s = some (record s { reachable = b })
step (arrives c b later) s = got_pdu c b later s
step begins s = take_job s (deq s.queue)
step (finishes n dead ret b sz) s = finish dead ret b sz s (pick n s.running)

unfoldable pub run : List Event → Rpcs → Option Rpcs
unfolding step and_then
run [] s = some s
run (e ∷ es) s = and_then (step e s) (λ u. run es u)
