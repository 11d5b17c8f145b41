-- ===== src/Lock/ClientCache.antt =====
-- lock_client_cache.cc. A thread in acquire gives the mutex up when it waits and during its call, and
-- the releaser during its call: the steps are the parts between.
use frangipani_yfs.Prelude.{
  ℕ, suc, Bool, true, false, [], ◌∷◌, ◌++◌, List, ◌==◌, if◌then◌else◌, Option, none, some, update,
  get_or, is_some, elem, remove_all,
}
use frangipani_yfs.Lock.Protocol.{Status, ok, retry, rpcerr}
use frangipani_yfs.Lock.ServerCache.{at, erase_at}

-- NONE, FREE, LOCKED, ACQUIRING and RELEASING.
pub data LockState : Type 0 where
  absent free locked acquiring releasing : LockState

pub record LockInfo : Type 0 where
  pub state : LockState
  pub sequence_number : ℕ
  pub waiting_threads : List ℕ
  pub to_be_revoked : Bool
  pub retry_received : Bool

abbrev pub new_info : LockInfo
new_info = record {
  state = absent;
  sequence_number = 0;
  waiting_threads = [];
  to_be_revoked = false;
  retry_received = false;
}

pub record LockClientCache : Type 0 where
  pub lock_cache : ℕ → Option LockInfo
  pub revoke_queue : List ℕ

abbrev pub empty_client : LockClientCache
empty_client = record { lock_cache = λ lid. none; revoke_queue = [] }

-- `lock_cache[lid]`.
unfoldable pub info : ℕ → LockClientCache → LockInfo
info lid c = get_or (c.lock_cache lid) new_info

unfoldable pub set_info : ℕ → LockInfo → LockClientCache → LockClientCache
set_info lid li c = record {
  lock_cache = update c.lock_cache lid (some li);
  revoke_queue = c.revoke_queue;
}

abbrev with_state : LockState → LockInfo → LockInfo
with_state st li = record {
  state = st;
  sequence_number = li.sequence_number;
  waiting_threads = li.waiting_threads;
  to_be_revoked = li.to_be_revoked;
  retry_received = li.retry_received;
}

abbrev with_threads : List ℕ → LockInfo → LockInfo
with_threads ts li = record {
  state = li.state;
  sequence_number = li.sequence_number;
  waiting_threads = ts;
  to_be_revoked = li.to_be_revoked;
  retry_received = li.retry_received;
}

-- The thread joins the queue, if it is not in it.
unfoldable pub enter : ℕ → LockInfo → LockInfo
enter tid li =
    with_threads
      (if elem tid li.waiting_threads then li.waiting_threads else li.waiting_threads ++ tid ∷ [])
      li

abbrev pop_front : List ℕ → List ℕ
pop_front [] = []
pop_front (t ∷ ts) = ts

abbrev is_front : ℕ → List ℕ → Bool
is_front tid [] = false
is_front tid (t ∷ ts) = t == tid

-- A turn of acquire's loop: the thread sleeps, has the lock, or calls the server.
pub data Turn : Type 0 where
  sleeps returns asks : Turn

unfoldable pub front_turn : LockInfo → LockState → Turn × LockInfo
front_turn li absent = (
  asks,
  record {
    state = acquiring;
    sequence_number = suc li.sequence_number;
    waiting_threads = li.waiting_threads;
    to_be_revoked = li.to_be_revoked;
    retry_received = false;
  },
)
front_turn li free = (returns, with_state locked (with_threads (pop_front li.waiting_threads) li))
front_turn li _ = (sleeps, li)

unfoldable pub turn : ℕ → LockInfo → Turn × LockInfo
unfolding front_turn
turn tid li =
    if li.to_be_revoked
    then (sleeps, li)
    else if is_front tid li.waiting_threads
    then front_turn li li.state
    else (sleeps, li)

-- What follows the call: the lock is granted; the thread waits for a retry; or, after any other
-- result, it starts a new turn with the state as it is.
unfoldable pub answered : Status → LockInfo → LockInfo
answered ok li = with_state locked (with_threads (pop_front li.waiting_threads) li)
answered retry li = with_state absent li
answered _ li = li

-- The test of the loop that waits for a retry.
unfoldable pub goes_on : LockInfo → Bool
goes_on li = li.retry_received

unfoldable pub release : ℕ → LockInfo → LockInfo
release tid li = with_state free (with_threads (remove_all tid li.waiting_threads) li)

-- The two handlers of the server's calls.
unfoldable pub revoke : ℕ → LockClientCache → Status × LockClientCache
unfolding info set_info
revoke lid c =
    let li = info lid c in
    let d =
      set_info lid
        (record {
          state = li.state;
          sequence_number = li.sequence_number;
          waiting_threads = li.waiting_threads;
          to_be_revoked = true;
          retry_received = li.retry_received;
        })
        c in
    (
      ok,
      record {
        lock_cache = d.lock_cache;
        revoke_queue =
            if elem lid c.revoke_queue then c.revoke_queue else c.revoke_queue ++ lid ∷ [];
      },
    )

unfoldable pub retried : LockInfo → LockInfo
retried li = record {
  state = li.state;
  sequence_number = li.sequence_number;
  waiting_threads = li.waiting_threads;
  to_be_revoked = li.to_be_revoked;
  retry_received = true;
}

unfoldable pub retry_call : ℕ → LockClientCache → Status × LockClientCache
unfolding info set_info retried
retry_call lid c =
    if is_some (c.lock_cache lid) then (ok, set_info lid (retried (info lid c)) c) else (rpcerr, c)

-- The releaser at its iterator, until its call: the lock that it gives back, unless a thread has it.
abbrev is_locked : LockState → Bool
is_locked locked = true
is_locked _ = false

abbrev leaving : LockInfo → LockInfo
leaving li = record {
  state = releasing;
  sequence_number = suc li.sequence_number;
  waiting_threads = li.waiting_threads;
  to_be_revoked = li.to_be_revoked;
  retry_received = li.retry_received;
}

unfoldable pub releaser_at : LockClientCache → Option ℕ → Option ℕ × LockClientCache
unfolding info set_info
releaser_at c none = (none, c)
releaser_at c (some lid) =
    if is_locked (info lid c).state
    then (none, c)
    else (some lid, set_info lid (leaving (info lid c)) c)

unfoldable pub releaser_call : ℕ → LockClientCache → Option ℕ × LockClientCache
unfolding at releaser_at
releaser_call it c = releaser_at c (at it c.revoke_queue)

-- And after it: the next index, and the client.
abbrev gone : LockInfo → LockInfo
gone li = record {
  state = absent;
  sequence_number = li.sequence_number;
  waiting_threads = li.waiting_threads;
  to_be_revoked = false;
  retry_received = li.retry_received;
}

unfoldable pub releaser_done : ℕ → ℕ → Bool → LockClientCache → ℕ × LockClientCache
unfolding info set_info erase_at
releaser_done it lid true c =
    let d = set_info lid (gone (info lid c)) c in
    (it, record { lock_cache = d.lock_cache; revoke_queue = erase_at it c.revoke_queue })
releaser_done it lid false c = (suc it, c)
