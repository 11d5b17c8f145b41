-- ===== src/Paxos/Restart.antt =====
-- A node (paxos.cc, log.cc) from its first start through a crash to its restart.
use frangipani_yfs.Prelude.{
  ℕ, ◌<◌, ◌≡◌, refl, sym, ◌∙◌, Bool, true, false, [], ◌∷◌, ◌++◌, List, arith, Bytes, inl, All, ap,
}
use frangipani_yfs.Text.Words.{is_line}
use frangipani_yfs.Paxos.Order.{gt, ge-not-gt, gt-ge}
use frangipani_yfs.Paxos.Record.{LogRec, done, prop, line_of, text_of, is_clean}
use frangipani_yfs.Paxos.Acceptor.{
  Acceptor, PrepareArg, AcceptArg, Message, accepts, preparereq, acceptreq, run,
}
use frangipani_yfs.Paxos.Log.{read, fresh, first_value, on_read, start}
use frangipani_yfs.Paxos.Replay.{replay_rec, replay, clean, logread-text_of}
use frangipani_yfs.Paxos.Safety.{run-Grows}
use frangipani_yfs.Paxos.Recovery.{
  Agrees, IsClean, Logged, run-Logged, text_of-append, replay-append, clean-append,
}

module _ (cfg first : Bool) (me value : Bytes) where
  -- A node before it has seen a message: its log was empty.
  unfoldable pub boot : Acceptor
  boot = first_value first value (fresh cfg me [])

  start_empty : (junk : ℕ) → start junk cfg first me value [] ≡ read boot
  unfolding start boot on_read clean text_of
  start_empty junk =
      rw (logread-text_of junk [] (fresh cfg me []) refl refl) (unfold replay in refl)

  fresh-Agrees : (file : Bytes) → Agrees (fresh cfg me []) (fresh cfg me file)
  unfolding fresh
  fresh-Agrees file = record {
    decided = λ i. refl;
    instance = refl;
    value = refl;
    number = refl;
    name = inl refl;
    promise = omega arith;
  }

module _ (cfg first : Bool) (me value : Bytes) (one : is_line value ≡ true) where
  first_Agrees :
      (a : Acceptor)
      → Agrees (fresh cfg me []) a
      → Agrees (boot cfg true me value) (replay_rec (done 1 value) a)
  unfolding boot first_value fresh replay_rec
  first_Agrees a g = record {
    decided = λ i. ground (arith, g.decided i);
    instance = refl;
    value = refl;
    number = refl;
    name = inl refl;
    promise = omega arith;
  }

pub boot-Logged :
    (cfg first : Bool) (me value : Bytes)
    → is_line value ≡ true
    → Logged (fresh cfg me []) (boot cfg first me value)
unfolding boot fresh
boot-Logged cfg true me value one = (
  done 1 value ∷ [],
  unfold first_value fresh text_of in refl,
  unfold clean is_clean in ground arith,
  λ a g. unfold replay in first_Agrees cfg true me value one a g,
)
boot-Logged cfg false me value one = (
  [],
  unfold first_value fresh text_of in refl,
  unfold clean in refl,
  λ a g. unfold first_value replay in g,
)

module _ (cfg first : Bool) (me value : Bytes) where
  -- On the first node view 1 is decided from the start, so that a restart does not log it again.
  first-kept :
      (f : Bool) (ms : List Message) → f ≡ true → 0 < (run ms (boot cfg f me value)).instance_h
  first-kept f ms e = omega (arith, (run-Grows ms (boot cfg f me value)).instances, booted)
    where
      booted : 0 < (boot cfg f me value).instance_h
      booted = unfold boot first_value fresh in ground arith

  on_read_first : (a : Acceptor) → (first ≡ true → 0 < a.instance_h) → first_value first value a ≡ a
  unfolding first_value
  on_read_first a h = ground arith

  start_logged :
      (junk : ℕ) (file : Bytes) (rs : List LogRec)
      → file ≡ text_of rs
      → clean rs ≡ true
      → (first ≡ true → 0 < (replay rs (fresh cfg me file)).instance_h)
      → start junk cfg first me value file ≡ read (replay rs (fresh cfg me file))
  unfolding start on_read
  start_logged junk file rs e c pos =
      rw (logread-text_of junk rs (fresh cfg me file) c (written ∙ e))
        (ap read (on_read_first _ pos))
    where
      written : (fresh cfg me file).file ≡ file
      written = unfold fresh in refl

  -- Crash and restart: after any messages whose numbers fit `unsigned` and whose names and values are
  -- words and lines, a node that starts again from its log file reads it to the end and has back its
  -- decided instances and values, the value it accepted and that value's number; its promise is at
  -- most the one it gave.
  pub restart-Agrees :
      (junk : ℕ) (ms : List Message)
      → is_line value ≡ true
      → All IsClean ms
      → (r : Acceptor) × (start junk cfg first me value (run ms (boot cfg first me value)).file
          ≡ read r)
        × Agrees (run ms (boot cfg first me value)) r
  restart-Agrees junk ms one clean_ms =
      let s = run ms (boot cfg first me value) in
      let (rs, e, c, back) =
        run-Logged (fresh cfg me []) ms (boot cfg first me value) clean_ms
          (boot-Logged cfg first me value one) in
      let g = back (fresh cfg me s.file) (fresh-Agrees cfg first me value s.file) in
      (
        replay rs (fresh cfg me s.file),
        start_logged junk s.file rs e c (λ f. rw (g.instance) (first-kept first ms f)),
        g,
      )

  accept_logs :
      (b : AcceptArg) (s : Acceptor)
      → (acceptreq b s).1 ≡ 1
      → ((acceptreq b s).0.file ≡ s.file ++ line_of (prop b.n b.v) [])
        × ((acceptreq b s).0.n_h ≡ b.n)
        × ((acceptreq b s).0.instance_h ≡ s.instance_h)
  unfolding acceptreq
  accept_logs b s h = ground arith

  refused_in_memory :
      (c : PrepareArg) (t : Acceptor)
      → t.instance_h < c.at
      → gt t.n_h c.n ≡ true
      → (preparereq c t).1.accept ≡ 0
  unfolding preparereq
  refused_in_memory c t new low = ground (arith, ge-not-gt c.n t.n_h, gt-ge c.n t.n_h)

  accepted_again :
      (c : PrepareArg) (t : Acceptor)
      → t.instance_h < c.at
      → t.n_h.n < c.n.n
      → (preparereq c t).1.accept ≡ 1
  unfolding preparereq gt
  accepted_again c t new low = ground arith

  -- The log loses a promise: if an acceptor accepts a proposal above its promise, as when it missed
  -- the prepare request, then a prepare request with a number between the two is refused, but after
  -- a restart it is accepted, since `logprop` is the only record and does not bring `n_h` back.
  pub lost_promise :
      (junk : ℕ) (ms : List Message) (b : AcceptArg) (c : PrepareArg)
      → is_line value ≡ true
      → All IsClean ms
      → IsClean (accepts b)
      → let s = run ms (boot cfg first me value) in
        (acceptreq b s).1 ≡ 1
        → s.instance_h < c.at
        → gt b.n c.n ≡ true
        → s.n_h.n < c.n.n
        → ((preparereq c (acceptreq b s).0).1.accept ≡ 0)
          × ((r : Acceptor) × (start junk cfg first me value (acceptreq b s).0.file ≡ read r)
              × ((preparereq c r).1.accept ≡ 1))
  lost_promise junk ms b c one clean_ms clean_b acc new above low =
      let s = run ms (boot cfg first me value) in
      let t = (acceptreq b s).0 in
      let (rs, e, k, back) =
        run-Logged (fresh cfg me []) ms (boot cfg first me value) clean_ms
          (boot-Logged cfg first me value one) in
      let (f, h, i) = accept_logs b s acc in
      let a = fresh cfg me t.file in
      let g = back a (fresh-Agrees cfg first me value t.file) in
      let q = replay rs a in
      let r = replay_rec (prop b.n b.v) q in
      (
        refused_in_memory c t (rw i new) (rw h above),
        (
          replay (rs ++ prop b.n b.v ∷ []) a,
          start_logged junk t.file (rs ++ prop b.n b.v ∷ [])
              (f
                ∙ ap (λ x. x ++ line_of (prop b.n b.v) []) e
                ∙ sym (text_of-append rs (prop b.n b.v)))
              (clean-append rs (prop b.n b.v) k (unfold is_clean in ground arith))
              (λ z.
                rw (replay-append rs (prop b.n b.v) a)
                  (unfold replay_rec in rw (g.instance) (first-kept first ms z))),
          rw (replay-append rs (prop b.n b.v) a) (
              accepted_again c r (unfold replay_rec in rw (g.instance) new)
                (unfold replay_rec in omega (arith, g.promise))),
        ),
      )
