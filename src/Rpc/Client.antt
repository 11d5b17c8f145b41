-- ===== src/Rpc/Client.antt =====
-- The client side of a connection: rpcc (rpc/rpc.cc). A call is cut where its thread gives the mutex
-- up: it starts, it waits for its reply or for a time-out, and it ends. The bytes of a request are its
-- header; the retransmissions of a request are copies of the header that `call1` packed once.
use frangipani_yfs.Prelude.{
  ℕ, ◌+◌, ◌%◌, ◌^◌, Bool, true, false, not, ◌&&◌, ◌||◌, [], ◌∷◌, List, ◌==◌, if◌then◌else◌, Option,
  none, some,
}
use frangipani_yfs.Rpc.Header.{ReqHeader}
use frangipani_yfs.Rpc.Window.{front, update_xid_rep}

-- What a call returns: the server's result, or one of the failures of rpc_const.
pub data Result : Type 0 where
  replied : ℕ → Result
  timeout_failure bind_failure cancel_failure : Result

-- A caller in `calls_`: its result once it is done.
pub record Caller : Type 0 where
  pub xid : ℕ
  pub answer : Option Result

pub record Rpcc : Type 0 where
  pub clt_nonce : ℕ
  pub srv_nonce : ℕ
  pub bind_done : Bool
  pub next_xid : ℕ
  pub calls : List Caller
  pub window : List ℕ
  pub destroy_wait : Bool
  -- the headers packed so far, the last one first
  pub sent : List ReqHeader

-- rpc_const::bind
abbrev pub bind_proc : ℕ
bind_proc = 1

-- The constructor: xids start with 1, the window with 0.
abbrev pub fresh : ℕ → Rpcc
fresh nonce = record {
  clt_nonce = nonce;
  srv_nonce = 0;
  bind_done = false;
  next_xid = 1;
  calls = [];
  window = 0 ∷ [];
  destroy_wait = false;
  sent = [];
}

abbrev header_of : ℕ → Rpcc → ReqHeader
header_of proc c = record {
  xid = c.next_xid;
  proc = proc;
  clt_nonce = c.clt_nonce;
  srv_nonce = c.srv_nonce;
  xid_rep = front c.window;
}

-- call1 up to the first transmission: a failure, or the xid of the call.
unfoldable pub start_call : ℕ → Rpcc → Result × Rpcc
start_call proc c =
    if (not (proc == bind_proc) && not c.bind_done) || (proc == bind_proc && c.bind_done)
    then (bind_failure, c)
    else if c.destroy_wait
    then (cancel_failure, c)
    else (
      replied c.next_xid,
      record c {
        next_xid = (c.next_xid + 1) % 2 ^ 32;
        calls = record { xid = c.next_xid; answer = none } ∷ c.calls;
        sent = header_of proc c ∷ c.sent;
      },
    )

unfoldable pub first_of : Option Result → Result → Option Result
first_of none r = some r
first_of (some q) r = some q

-- The caller is done with the first result that it is given.
unfoldable pub answer_with : Result → Caller → Caller
unfolding first_of
answer_with r k = record { xid = k.xid; answer = first_of k.answer r }

-- The entry of `calls_` with this xid; a map has one at most.
unfoldable pub answer_call : ℕ → Result → List Caller → List Caller
unfolding answer_with
answer_call xid r [] = []
answer_call xid r (k ∷ ks) = (if k.xid == xid then answer_with r k else k) ∷ answer_call xid r ks

-- got_pdu, for a reply whose header could be read.
unfoldable pub got_reply : ℕ → ℕ → Rpcc → Rpcc
unfolding update_xid_rep answer_call
got_reply xid ret c = record c {
  window = update_xid_rep xid c.window;
  calls = answer_call xid (replied ret) c.calls;
}

-- The end of call1: the call leaves `calls_`, and its xid counts as received.
unfoldable pub find_call : ℕ → List Caller → Option Caller
find_call xid [] = none
find_call xid (k ∷ ks) = if k.xid == xid then some k else find_call xid ks

unfoldable pub erase_call : ℕ → List Caller → List Caller
erase_call xid [] = []
erase_call xid (k ∷ ks) = let rest = erase_call xid ks in if k.xid == xid then rest else k ∷ rest

unfoldable pub result_of : Option Caller → Result
result_of none = timeout_failure
result_of (some k) = given k.answer
  where
    given : Option Result → Result
    given none = timeout_failure
    given (some r) = r

unfoldable pub end_call : ℕ → Rpcc → Result × Rpcc
unfolding update_xid_rep find_call erase_call result_of
end_call xid c = (
  result_of (find_call xid c.calls),
  record c { window = update_xid_rep xid c.window; calls = erase_call xid c.calls },
)

-- cancel, up to its wait for the callers: each is done.
unfoldable pub cancel_calls : List Caller → List Caller
unfolding answer_with
cancel_calls [] = []
cancel_calls (k ∷ ks) = record { xid = k.xid; answer = some cancel_failure } ∷ cancel_calls ks

unfoldable pub is_empty : List Caller → Bool
is_empty [] = true
is_empty (k ∷ ks) = false

unfoldable pub cancel : Rpcc → Rpcc
unfolding cancel_calls is_empty
cancel c = record c {
  calls = cancel_calls c.calls;
  destroy_wait = if is_empty c.calls then c.destroy_wait else true;
}

-- bind, after its call has returned 0 with the server's nonce.
unfoldable pub bound : ℕ → Rpcc → Rpcc
bound r c = record c { bind_done = true; srv_nonce = r }

pub data Event : Type 0 where
  starts : ℕ → Event
  replies : ℕ → ℕ → Event
  ends : ℕ → Event
  cancels : Event
  binds : ℕ → Event

unfoldable pub step : Event → Rpcc → Rpcc
unfolding start_call got_reply end_call cancel bound
step (starts proc) c = (start_call proc c).1
step (replies xid ret) c = got_reply xid ret c
step (ends xid) c = (end_call xid c).1
step cancels c = cancel c
step (binds r) c = bound r c

unfoldable pub run : List Event → Rpcc → Rpcc
unfolding step
run [] c = c
run (e ∷ es) c = run es (step e c)
