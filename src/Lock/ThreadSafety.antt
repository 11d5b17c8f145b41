-- ===== src/Lock/ThreadSafety.antt =====
-- One thread of a client at a time has a lock (lock_client_cache.cc), and when two may.
use frangipani_yfs.Prelude.{ℕ, ◌≡◌, true, [], ◌∷◌, ◌==◌, if◌then◌else◌, some, elem, arith}
use frangipani_yfs.Lock.Protocol.{ok}
use frangipani_yfs.Lock.ServerCache.{at}
use frangipani_yfs.Lock.ClientCache.{
  absent, acquiring, LockClientCache, info, set_info, releaser_call, releaser_done,
}
use frangipani_yfs.Lock.Threads.{Threads, answers, releaser_asks, releaser_ends, step, run}

done-true :
    (it l lid : ℕ) (c : LockClientCache)
    → (info lid ((releaser_done it l true c).1)).state
      ≡ (if l == lid then absent else (info lid c).state)
unfolding releaser_done info set_info
done-true it l lid c = ground arith

-- The releaser may give a lock away under a thread: when the lock is being acquired and is in the
-- queue of revocations, the releaser takes it, the answer OK lets the thread in, and the answer to the
-- releaser's call leaves the thread inside and the client without the lock.
pub release_while_acquiring :
    (lid it t : ℕ) (s : Threads)
    → (info lid s.client).state ≡ acquiring
    → s.inside ≡ []
    → s.asking ≡ t ∷ []
    → at it s.client.revoke_queue ≡ some lid
    → let r = run lid (releaser_asks it ∷ answers t ok ∷ releaser_ends it lid true ∷ []) s in
      (r.inside ≡ t ∷ []) × ((info lid r.client).state ≡ absent)
unfolding run step releaser_call elem
release_while_acquiring lid it t s h i a q =
    (ground (arith, i, a), rw (done-true it lid lid _) (ground arith))
