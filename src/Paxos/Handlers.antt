-- ===== src/Paxos/Handlers.antt =====
-- What the handlers of an acceptor (paxos.cc) give when they do not overlap, and what they break when
-- they do.
use frangipani_yfs.Prelude.{
  ℕ, zero, suc, ◌<◌, ◌≡◌, refl, sym, ap, subst, ◌∙◌, Bool, true, false, not, [], ◌∷◌, List, Bytes,
  leb, ltb, inl, inr, All, both_true, Bool-cases, arith, Option, some, none,
}
use frangipani_yfs.Text.Words.{is_line}
use frangipani_yfs.Paxos.Order.{PropT, gt, ge, ge-not-gt, ge_trans}
use frangipani_yfs.Paxos.Acceptor.{
  Acceptor, PrepareArg, PrepareRes, AcceptArg, DecideArg, Message, prepares, accepts, decides,
  commits, loghigh, logprop, loginstance, append_rec,
}
use frangipani_yfs.Paxos.Acceptor
use frangipani_yfs.Paxos.Threads.{
  Thread, prepare_tests, prepare_sets, prepare_logs, prepare_returns, accept_tests, accept_sets_n_h,
  accept_sets_n_a, accept_sets_v_a, accept_logs, accept_returns, decide_tests, decide_returns,
  commit_locks, wo_tests, wo_sets_value, wo_logs, wo_sets_instance, wo_sets_n_h, wo_sets_n_a,
  wo_clears_v_a, wo_unlocks, wo_tells, wo_relocks, wo_returns, commit_returns, Shared, advance,
  prepare_test, accept_test, decide_test, World, Event, arrives, steps, run, at_rest,
}
use frangipani_yfs.Paxos.Serial.{
  is_midway, is_quiet, others_quiet, is_serial, rest, Pending, settled, settled-quiet, AllArrive,
  run-Serial, run-at_rest, rest-quiet, settled_in,
}
use frangipani_yfs.Paxos.Log.{start, read}
use frangipani_yfs.Paxos.Recovery.{Agrees, IsClean}
use frangipani_yfs.Paxos.Restart.{boot, restart-Agrees}
use frangipani_yfs.Paxos.Safety.{Grows, run-Grows, Told, run-Told}

abbrev Unrestricted : Message → Type 0
Unrestricted m = Unit

has_any : (t : Thread) → Pending Unrestricted t
unfolding Pending
has_any (prepare_tests a) = tt
has_any (prepare_sets a r) = tt
has_any (prepare_logs a r) = tt
has_any (prepare_returns r) = tt
has_any (accept_tests a) = tt
has_any (accept_sets_n_h a) = tt
has_any (accept_sets_n_a a) = tt
has_any (accept_sets_v_a a) = tt
has_any (accept_logs a) = tt
has_any (accept_returns r) = tt
has_any (decide_tests a) = tt
has_any (decide_returns r) = tt
has_any (commit_locks i v) = tt
has_any (wo_tests c i v) = tt
has_any (wo_sets_value c i v) = tt
has_any (wo_logs c i v) = tt
has_any (wo_sets_instance c i v) = tt
has_any (wo_sets_n_h c i v) = tt
has_any (wo_sets_n_a c i v) = tt
has_any (wo_clears_v_a c i v) = tt
has_any (wo_unlocks c i v) = tt
has_any (wo_tells c i v) = tt
has_any (wo_relocks c) = tt
has_any (wo_returns c) = tt
has_any commit_returns = tt

have_any : (ts : List Thread) → All (Pending Unrestricted) ts
have_any [] = tt
have_any (t ∷ ts) = (has_any t, have_any ts)

arrive_any : (es : List Event) → AllArrive Unrestricted es
unfolding AllArrive
arrive_any [] = tt
arrive_any (arrives m ∷ es) = (tt, arrive_any es)
arrive_any (steps k ∷ es) = arrive_any es

-- A property of the acceptor that each message keeps holds at the end of a serial run.
serial_from :
    (Q : Acceptor → Type 0) (es : List Event) (w : World)
    → ((ms : List Message) → Q (Acceptor.run ms (settled_in w)))
    → is_serial es w ≡ true
    → is_quiet (run es w).threads ≡ true
    → Q ((run es w).shared.acceptor)
serial_from Q es w keep s q =
    let u = run es w in
    let (ms, ps, e) = run-Serial Unrestricted es w s (arrive_any es) (have_any w.threads) in
    subst Q (sym (sym (settled-quiet u.threads u.shared.acceptor q) ∙ e)) (keep ms)

-- While handlers do not overlap, an acceptor takes nothing back: from a state without a handler midway
-- to another one, over messages that arrive in any order and number, but with no thread taking a step
-- while another is midway, the decided instances only grow, the value of a decided instance never
-- changes, and while no instance is decided the promise never falls.
pub serial-Grows :
    (es : List Event) (w : World)
    → is_serial es w ≡ true
    → is_quiet w.threads ≡ true
    → is_quiet (run es w).threads ≡ true
    → Grows w.shared.acceptor (run es w).shared.acceptor
serial-Grows es w s p q =
    serial_from (Grows w.shared.acceptor) es w
      (λ ms.
        subst (λ a. Grows a (Acceptor.run ms (settled_in w)))
          (settled-quiet w.threads w.shared.acceptor p) (run-Grows ms (settled_in w)))
      s q

-- While handlers do not overlap, the upper layer is told in order: if it was told of instances in
-- increasing order, each at most once, none above `instance_h` and each with its value, then so it is
-- after any messages, as long as no thread takes a step while another is midway.
pub serial-Told :
    (es : List Event) (w : World)
    → is_serial es w ≡ true
    → is_quiet w.threads ≡ true
    → is_quiet (run es w).threads ≡ true
    → Told w.shared.acceptor
    → Told (run es w).shared.acceptor
serial-Told es w s p q t =
    serial_from Told es w
      (λ ms.
        run-Told ms (settled_in w)
          (subst Told (sym (settled-quiet w.threads w.shared.acceptor p)) t))
      s q

-- The thread at a position.
unfoldable pub thread_at : ℕ → List Thread → Option Thread
thread_at k [] = none
thread_at zero (t ∷ ts) = some t
thread_at (suc k) (t ∷ ts) = thread_at k ts

some_thread : (t u : Thread) → some t ≡ some u → t ≡ u
some_thread t u e = cc

settled-at :
    (k : ℕ) (t : Thread) (ts : List Thread) (s : Acceptor)
    → thread_at k ts ≡ some t
    → others_quiet k ts ≡ true
    → settled ts s ≡ rest t s
unfolding settled others_quiet thread_at
settled-at k t [] s h q = cc
settled-at zero t (u ∷ ts) s h q =
    settled-quiet ts (rest u s) q ∙ ap (λ x. rest x s) (some_thread u t h)
settled-at (suc k) t (u ∷ ts) s h q =
    let (m, r) = both_true (not (is_midway u)) (others_quiet k ts) q in
    ap (settled ts) (rest-quiet u s (ground arith)) ∙ settled-at k t ts s h r

refuses :
    (b : AcceptArg) (s : Shared)
    → ge b.n s.acceptor.n_h ≡ false
    → (advance (accept_tests b) s).0 ≡ accept_returns 0
unfolding advance accept_test
refuses b s low = ground arith

-- While handlers do not overlap, a promise is kept: once a thread has found that it can promise `a.n`,
-- and after any messages that decide no instance, if no thread takes a step while another is midway,
-- an accept request with a lower number fails its test and is answered with 0.
pub serial_promise :
    (k : ℕ) (a : PrepareArg) (r : PrepareRes) (b : AcceptArg) (es : List Event) (w : World)
    → thread_at k w.threads ≡ some (prepare_sets a r)
    → others_quiet k w.threads ≡ true
    → is_serial es w ≡ true
    → is_quiet (run es w).threads ≡ true
    → (run es w).shared.acceptor.instance_h ≡ w.shared.acceptor.instance_h
    → gt a.n b.n ≡ true
    → (advance (accept_tests b) (run es w).shared).0 ≡ accept_returns 0
unfolding rest loghigh append_rec
serial_promise k a r b es w at alone s q same lower =
    let t = rest (prepare_sets a r) w.shared.acceptor in
    let u = (run es w).shared.acceptor in
    let g : Grows t u =
      serial_from (Grows t) es w
        (λ ms.
          subst (λ z. Grows z (Acceptor.run ms (settled_in w)))
            (settled-at k (prepare_sets a r) w.threads w.shared.acceptor at alone)
            (run-Grows ms (settled_in w)))
        s q in
    let risen : ge u.n_h a.n ≡ true = g.promised same in
    refuses b (run es w).shared (elim (Bool-cases (ge b.n u.n_h)) [
      | inl high ↦ absurd (lower_than a.n b.n lower (ge_trans b.n u.n_h a.n high risen))
      | inr low ↦ low
    ])
  where
    lower_than : (x y : PropT) → gt x y ≡ true → ge y x ≡ true → ⊥
    lower_than x y h j = ground (arith, ge-not-gt y x)

-- While handlers do not overlap, a crash loses nothing decided: if the names and values of a node's
-- messages are words and lines and their numbers fit `unsigned`, no thread takes a step while another
-- is midway, and none is midway at the crash, then a node that starts again from the log file reads it
-- to the end and has back its decided instances and values, the value it accepted and that value's
-- number; its promise is at most the one it gave.
pub serial_restart :
    (junk : ℕ) (cfg first : Bool) (me value : Bytes) (es : List Event)
    → is_line value ≡ true
    → AllArrive IsClean es
    → is_serial es (at_rest (boot cfg first me value)) ≡ true
    → is_quiet (run es (at_rest (boot cfg first me value))).threads ≡ true
    → let s = (run es (at_rest (boot cfg first me value))).shared.acceptor in
      (r : Acceptor) × (start junk cfg first me value s.file ≡ read r) × Agrees s r
serial_restart junk cfg first me value es one clean s q =
    let (ms, ps, e) = run-at_rest IsClean es (boot cfg first me value) s clean q in
    subst (λ s. (r : Acceptor) × (start junk cfg first me value s.file ≡ read r) × Agrees s r)
      (sym e) (restart-Agrees cfg first me value junk ms one ps)

-- A promise that is broken: when a prepare request with a higher number is handled between the test
-- of an accept request and its writes, the higher number is promised, the lower proposal is accepted
-- all the same, and the promise falls back to the lower number.
pub overlap_breaks_promise :
    (a : PrepareArg) (b : AcceptArg) (s : Acceptor)
    → s.instance_h < a.at
    → s.instance_h < b.at
    → ge b.n s.n_h ≡ true
    → gt a.n b.n ≡ true
    → gt a.n s.n_h ≡ true
    → let w =
        run
          (arrives (accepts b)
            ∷ steps 0
            ∷ arrives (prepares a)
            ∷ steps 0
            ∷ steps 0
            ∷ steps 0
            ∷ steps 1
            ∷ steps 1
            ∷ steps 1
            ∷ steps 1
            ∷ [])
          (at_rest s) in
      (w.threads
        ≡ prepare_returns (record { oldinstance = 0; accept = 1; n_a = s.n_a; v_a = s.v_a })
          ∷ accept_returns 1
          ∷ [])
      × (w.shared.acceptor.n_h ≡ b.n)
unfolding run prepare_test accept_test
overlap_breaks_promise a b s old old' high lower higher =
    let f : leb b.at s.instance_h ≡ false = ground arith in
    let g : leb a.at s.instance_h ≡ false = ground arith in rw (f, high, g, higher) ((refl, refl))

-- A decidereq keeps the mutex: when the request decides a new instance and there is an upper layer,
-- its handler ends with pxs_mutex locked, and then a `commit` waits for it at every step.
pub decide_keeps_mutex :
    (a : DecideArg) (s : Acceptor)
    → s.instance_h < a.at
    → s.has_cfg ≡ true
    → let w =
        run
          (arrives (decides a)
            ∷ steps 0
            ∷ steps 0
            ∷ steps 0
            ∷ steps 0
            ∷ steps 0
            ∷ steps 0
            ∷ steps 0
            ∷ steps 0
            ∷ steps 0
            ∷ steps 0
            ∷ steps 0
            ∷ steps 0
            ∷ [])
          (at_rest s) in
      (w.threads ≡ decide_returns 1 ∷ [])
      × (w.shared.locked ≡ true)
      × ((i : ℕ) (v : Bytes) → advance (commit_locks i v) w.shared ≡ (commit_locks i v, w.shared))
unfolding run decide_test
decide_keeps_mutex a s new cfg =
    let f : leb a.at s.instance_h ≡ false = ground arith in
    let g : ltb s.instance_h a.at ≡ true = ground arith in
    rw (f, g, cfg) ((refl, refl, λ i v. refl))
