-- ===== src/Lock/ServerCache.antt =====
-- lock_server_cache.cc. A handler runs under the mutex; the two threads give it up during their calls,
-- so a turn of their loops is two steps, around the call, with the iterator as an index: the list it
-- walks grows at its end only, and only this thread erases from it.
use frangipani_yfs.Prelude.{
  ℕ, zero, suc, Bool, true, false, ◌&&◌, ◌||◌, [], ◌∷◌, ◌++◌, List, ◌==◌, if◌then◌else◌, Option,
  none, some, update, Bytes, str_eq, elem_str,
}
use frangipani_yfs.Lock.Protocol.{Status, ok, retry, rpcerr}

pub data LockState : Type 0 where
  free acquired : LockState

pub record LockInfo : Type 0 where
  pub clt_id : Bytes
  pub seq_num : ℕ
  pub state : LockState
  pub waiting_clients : List Bytes
  pub retryer_sent_to : Bytes

-- The entry that `locks[lid]` makes.
abbrev pub no_info : LockInfo
no_info = record {
  clt_id = [];
  seq_num = 0;
  state = free;
  waiting_clients = [];
  retryer_sent_to = [];
}

pub record LockServerCache : Type 0 where
  pub locks : ℕ → LockInfo
  pub revokes : List (ℕ × Bytes)
  pub free_locks : List ℕ

abbrev pub empty_server : LockServerCache
empty_server = record { locks = λ lid. no_info; revokes = []; free_locks = [] }

abbrev pub is_free : LockState → Bool
is_free free = true
is_free acquired = false

abbrev pub is_empty : {A : Type 0} → List A → Bool
is_empty [] = true
is_empty (x ∷ xs) = false

-- `std::find` in the queue of revocations.
unfoldable pub revoking : ℕ → Bytes → List (ℕ × Bytes) → Bool
revoking lid clt [] = false
revoking lid clt ((l, c) ∷ rs) = (l == lid && str_eq c clt) || revoking lid clt rs

abbrev pub add_revoke : ℕ → Bytes → List (ℕ × Bytes) → List (ℕ × Bytes)
add_revoke lid clt rs = if revoking lid clt rs then rs else rs ++ (lid, clt) ∷ []

-- The condition of a grant.
unfoldable pub may_grant : Bytes → LockInfo → Bool
may_grant clt li =
    is_free li.state
    && ((is_empty li.retryer_sent_to && is_empty li.waiting_clients)
        || str_eq li.retryer_sent_to clt)

unfoldable pub granted : Bytes → ℕ → ℕ → LockServerCache → LockServerCache
granted clt seq lid s = record {
  locks = update s.locks lid (record {
    clt_id = clt;
    seq_num = seq;
    state = acquired;
    waiting_clients = (s.locks lid).waiting_clients;
    retryer_sent_to = [];
  });
  revokes = s.revokes;
  free_locks = s.free_locks;
}

abbrev pub waiting : Bytes → LockInfo → LockInfo
waiting clt li = record {
  clt_id = li.clt_id;
  seq_num = li.seq_num;
  state = li.state;
  waiting_clients =
      if elem_str clt li.waiting_clients
      then li.waiting_clients
      else li.waiting_clients ++ clt ∷ [];
  retryer_sent_to = li.retryer_sent_to;
}

unfoldable pub refused : Bytes → ℕ → LockServerCache → LockServerCache
refused clt lid s = record {
  locks = update s.locks lid (waiting clt (s.locks lid));
  revokes =
      if is_free (s.locks lid).state
      then s.revokes
      else add_revoke lid (s.locks lid).clt_id s.revokes;
  free_locks = s.free_locks;
}

unfoldable pub acquire : Bytes → ℕ → ℕ → LockServerCache → Status × LockServerCache
unfolding may_grant granted refused
acquire clt seq lid s =
    if may_grant clt (s.locks lid) then (ok, granted clt seq lid s) else (retry, refused clt lid s)

unfoldable pub is_owner : Bytes → LockInfo → Bool
is_owner clt li = str_eq li.clt_id clt || str_eq li.retryer_sent_to clt

unfoldable pub released : ℕ → LockServerCache → LockServerCache
released lid s = record {
  locks = update s.locks lid (record {
    clt_id = [];
    seq_num = (s.locks lid).seq_num;
    state = free;
    waiting_clients = (s.locks lid).waiting_clients;
    retryer_sent_to = [];
  });
  revokes = s.revokes;
  free_locks = s.free_locks ++ lid ∷ [];
}

unfoldable pub release : Bytes → ℕ → LockServerCache → Status × LockServerCache
unfolding is_owner released
release clt lid s = if is_owner clt (s.locks lid) then (ok, released lid s) else (rpcerr, s)

-- The element at the iterator, and `erase` there.
unfoldable pub at {ℓ} : {A : Type ℓ} → ℕ → List A → Option A
at i [] = none
at zero (x ∷ xs) = some x
at (suc i) (x ∷ xs) = at i xs

unfoldable pub erase_at {ℓ} : {A : Type ℓ} → ℕ → List A → List A
erase_at i [] = []
erase_at zero (x ∷ xs) = xs
erase_at (suc i) (x ∷ xs) = x ∷ erase_at i xs

-- revoker: whom the call at the iterator goes to, and what follows the call. The next index comes back.
unfoldable pub revoker_call : ℕ → LockServerCache → Option (ℕ × Bytes)
unfolding at
revoker_call it s = at it s.revokes

unfoldable pub revoker_done : ℕ → Bool → LockServerCache → ℕ × LockServerCache
unfolding erase_at
revoker_done it true s =
    (it, record { locks = s.locks; revokes = erase_at it s.revokes; free_locks = s.free_locks })
revoker_done it false s = (suc it, s)

-- retryer: the client that the call at the iterator goes to, with the server at the time of the call.
-- Without a call the iterator moves on.
abbrev with_retryer : Bytes → List Bytes → LockInfo → LockInfo
with_retryer clt rest li = record {
  clt_id = li.clt_id;
  seq_num = li.seq_num;
  state = li.state;
  waiting_clients = rest;
  retryer_sent_to = clt;
}

unfoldable pub picked : ℕ → LockServerCache → List Bytes → Bytes → Option Bytes × LockServerCache
picked lid s (clt ∷ rest) [] = (
  some clt,
  record {
    locks = update s.locks lid (with_retryer clt rest (s.locks lid));
    revokes = s.revokes;
    free_locks = s.free_locks;
  },
)
picked lid s _ _ = (none, s)

unfoldable pub retryer_at : LockServerCache → Option ℕ → Option Bytes × LockServerCache
unfolding picked
retryer_at s none = (none, s)
retryer_at s (some lid) = picked lid s (s.locks lid).waiting_clients (s.locks lid).retryer_sent_to

unfoldable pub retryer_call : ℕ → LockServerCache → Option Bytes × LockServerCache
unfolding at retryer_at
retryer_call it s = retryer_at s (at it s.free_locks)

unfoldable pub retryer_done : ℕ → ℕ → Bytes → Bool → LockServerCache → ℕ × LockServerCache
unfolding erase_at
retryer_done it lid clt answered s =
    let rs =
      if is_empty (s.locks lid).waiting_clients then s.revokes else add_revoke lid clt s.revokes in
    (
      if answered then it else suc it,
      record {
        locks = s.locks;
        revokes = rs;
        free_locks = if answered then erase_at it s.free_locks else s.free_locks;
      },
    )
