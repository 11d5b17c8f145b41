-- ===== src/Tests/LockRuns.antt =====
-- The lock service at concrete inputs.
use frangipani_yfs.Prelude.{
  ◌≡◌, ◌≢◌, refl, ap, true, [], ◌∷◌, ◌||◌, List, length, Bytes, some, arith, elem, str_eq, elem_str,
}
use frangipani_yfs.Lock.Protocol.{ok, retry}
use frangipani_yfs.Lock.ServerCache.{
  LockServerCache, empty_server, acquire, release, revoking, at, acquired,
}
use frangipani_yfs.Lock.Exclusion.{
  acquires, releases, retryer_asks, run, NoRelease, Holds, granted-exclusive, retryer_releases,
}
use frangipani_yfs.Lock.Waiting.{waits, called, retry-waits}
use frangipani_yfs.Lock.ClientCache.{absent, acquiring, info, empty_client, turn, enter}
use frangipani_yfs.Lock.Threads.{
  Threads, enters, turns, answers, revokes, releaser_asks, releaser_ends,
}
use frangipani_yfs.Lock.Threads
use frangipani_yfs.Lock.ThreadSafety.{release_while_acquiring}

abbrev ann : Bytes
ann = 97 ∷ []

abbrev bob : Bytes
bob = 98 ∷ []

abbrev cyd : Bytes
cyd = 99 ∷ 99 ∷ []

abbrev ann_has : LockServerCache
ann_has = (acquire ann 0 7 empty_server).1

grants : (acquire ann 0 7 empty_server).0 ≡ ok
unfolding acquire
grants = refl

refuses : (acquire bob 0 7 ann_has).0 ≡ retry
unfolding acquire
refuses = refl

granted-exclusive_example :
    (acquire cyd 0 7 (run (acquires bob 0 7 ∷ retryer_asks 0 ∷ []) ann_has)).0 ≡ retry
granted-exclusive_example =
    granted-exclusive ann cyd 0 0 7 (acquires bob 0 7 ∷ retryer_asks 0 ∷ []) empty_server grants
      (unfold NoRelease in tt)

retry-waits_example :
    ((ann_has.locks 7).state ≡ acquired
      → revoking 7 (ann_has.locks 7).clt_id (acquire bob 0 7 ann_has).1.revokes ≡ true)
    × ((called 7 bob (releases ann 7 ∷ retryer_asks 0 ∷ []) ((acquire bob 0 7 ann_has).1)
          || waits 7 bob (run (releases ann 7 ∷ retryer_asks 0 ∷ []) ((acquire bob 0 7 ann_has).1)))
        ≡ true)
retry-waits_example = retry-waits 7 0 bob (releases ann 7 ∷ retryer_asks 0 ∷ []) ann_has refuses

-- The server after these steps: ann gives the lock back, bob gets it, cyd asks for it and waits, and
-- the retryer, which finds the lock still in its list, calls cyd.
abbrev cyd_called : LockServerCache
cyd_called =
    run (releases ann 7 ∷ acquires bob 0 7 ∷ acquires cyd 0 7 ∷ retryer_asks 0 ∷ []) ann_has

cyd_not_bob : cyd ≢ bob
cyd_not_bob e = omega (arith, ap length e)

bob-Holds : Holds bob 7 cyd_called
unfolding run acquire release str_eq elem_str
bob-Holds = (refl, refl)

cyd_sent :
    ((cyd_called.locks 7).retryer_sent_to ≡ cyd) × ((cyd_called.locks 7).waiting_clients ≡ [])
unfolding run acquire release str_eq elem_str
cyd_sent = (refl, refl)

retryer_releases_example :
    ((release cyd 7 cyd_called).0 ≡ ok) × ((acquire ann 1 7 ((release cyd 7 cyd_called).1)).0 ≡ ok)
retryer_releases_example =
    retryer_releases bob cyd ann 1 7 cyd_called bob-Holds cyd_not_bob (cyd_sent.0) (cyd_sent.1)

abbrev nobody : Threads
nobody = record { client = empty_client; inside = []; asking = [] }

abbrev steps : List Threads.Event
steps = enters 1 ∷ turns 1 ∷ enters 2 ∷ answers 1 ok ∷ turns 2 ∷ revokes 7 ∷ releaser_asks 0 ∷ []

-- Thread 1 asks the server for the lock, and a revocation of it comes before the answer.
abbrev revoked_early : Threads
revoked_early = Threads.run 7 (enters 1 ∷ turns 1 ∷ revokes 7 ∷ []) nobody

early_state :
    ((info 7 revoked_early.client).state ≡ acquiring)
    × (revoked_early.inside ≡ [])
    × (revoked_early.asking ≡ 1 ∷ [])
    × (at 0 revoked_early.client.revoke_queue ≡ some 7)
unfolding Threads.run info at turn enter elem
early_state = (refl, refl, refl, refl)

release_while_acquiring_example :
    let r =
      Threads.run 7 (releaser_asks 0 ∷ answers 1 ok ∷ releaser_ends 0 7 true ∷ []) revoked_early in
    (r.inside ≡ 1 ∷ []) × ((info 7 r.client).state ≡ absent)
release_while_acquiring_example =
    release_while_acquiring 7 0 1 revoked_early (early_state.0) (early_state.1) (early_state.2)
      (early_state.3)
