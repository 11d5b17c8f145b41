-- ===== src/Config/Views.antt =====
-- The view of a node follows what its acceptor decides, also over a restart (config.cc, paxos.cc).
use frangipani_yfs.Prelude.{
  subst, ℕ, ◌≡◌, refl, ap, sym, ◌∙◌, Bool, true, false, [], ◌∷◌, List, Bytes, if◌then◌else◌, arith,
  All, if_cases, ltb, leb, update,
}
use frangipani_yfs.Paxos.Acceptor.{
  Acceptor, PrepareRes, Message, prepares, accepts, decides, commits, commit, preparereq, acceptreq,
  decidereq, loginstance, loghigh, logprop, append_rec, handle, run,
}
use frangipani_yfs.Paxos.Order.{gt, ge}
use frangipani_yfs.Paxos.Threads.{Event, at_rest}
use frangipani_yfs.Paxos.Threads
use frangipani_yfs.Paxos.Serial.{AllArrive, is_serial, is_quiet, run-at_rest}
use frangipani_yfs.Paxos.Log.{start, read, fresh, first_value}
use frangipani_yfs.Paxos.Proposer.{Proposer}
use frangipani_yfs.Paxos.Recovery.{IsClean}
use frangipani_yfs.Paxos.Restart.{boot, restart-Agrees}
use frangipani_yfs.Text.Words.{is_line}
use frangipani_yfs.Config.{new_config, Config, members, get_view, reconstruct, paxos_commit}

-- The calls of paxos_commit, the last one first, in their order.
unfoldable pub committed : List (ℕ × Bytes) → Config → Config
unfolding paxos_commit
committed [] c = c
committed ((i, v) ∷ l) c = paxos_commit i v (committed l c)

-- The view is the one that the acceptor decided last.
abbrev pub Follows : Acceptor → Config → Type 0
Follows a c =
    ((committed a.upcalls c).myvid ≡ a.instance_h)
    × ((committed a.upcalls c).mems ≡ members (a.values a.instance_h))

told :
    (i : ℕ) (v : Bytes) (l : List (ℕ × Bytes)) (b : Bool) (c : Config)
    → b ≡ true
    → ((committed (if b then (i, v) ∷ l else l) c).myvid ≡ i)
      × ((committed (if b then (i, v) ∷ l else l) c).mems ≡ members v)
unfolding committed paxos_commit
told i v l true c h = (refl, refl)
told i v l false c h = cc

here : (f : ℕ → Bytes) (i : ℕ) (v : Bytes) → update f i v i ≡ v
here f i v = ground arith

abbrev Told : Config → Acceptor → Type 0
Told c a = Follows a c × (a.has_cfg ≡ true) × (a.values 0 ≡ [])

commit-Follows : (i : ℕ) (v : Bytes) (a : Acceptor) (c : Config) → Told c a → Told c (commit i v a)
unfolding commit loginstance append_rec
commit-Follows i v a c (f, h, z) =
    if_cases (Told c) (ltb a.instance_h i)
      (λ t.
        let (x, y) = told i v a.upcalls a.has_cfg c h in
        ((x, y ∙ sym (ap members (here a.values i v))), h, ground arith))
      (λ n. (f, h, z))

handle-Follows : (m : Message) (a : Acceptor) (c : Config) → Told c a → Told c (handle m a)
unfolding handle preparereq acceptreq decidereq loghigh logprop append_rec
handle-Follows (prepares b) a c h =
    if_cases (λ (p : Acceptor × PrepareRes). Told c (p.0)) (leb b.at a.instance_h) (λ t. h)
      (λ f. if_cases (λ (p : Acceptor × PrepareRes). Told c (p.0)) (gt b.n a.n_h) (λ t. h) (λ g. h))
handle-Follows (accepts b) a c h =
    if_cases (λ (p : Acceptor × ℕ). Told c (p.0)) (leb b.at a.instance_h) (λ t. h)
      (λ f. if_cases (λ (p : Acceptor × ℕ). Told c (p.0)) (ge b.n a.n_h) (λ t. h) (λ g. h))
handle-Follows (decides b) a c h =
    if_cases (λ (p : Acceptor × ℕ). Told c (p.0)) (leb b.at a.instance_h) (λ t. h)
      (λ f. commit-Follows b.at b.v a c h)
handle-Follows (commits i v) a c h = commit-Follows i v a c h

pub run-Follows : (ms : List Message) (a : Acceptor) (c : Config) → Told c a → Told c (run ms a)
unfolding run
run-Follows [] a c h = h
run-Follows (m ∷ ms) a c h = run-Follows ms (handle m a) c (handle-Follows m a c h)

pub view_of :
    (me : Bytes) (pro : Proposer) (a : Acceptor)
    → a.values 0 ≡ []
    → ((new_config me pro a).myvid ≡ a.instance_h)
      × ((new_config me pro a).mems ≡ members (a.values a.instance_h))
unfolding new_config reconstruct get_view
view_of me pro a z =
    if_cases (λ (c : Config). (c.myvid ≡ a.instance_h) × (c.mems ≡ members (a.values a.instance_h)))
      (ltb 0 a.instance_h) (λ t. (refl, refl))
      (λ f. (ground arith, sym (ap members (none_yet (ground arith)))))
  where
    none_yet : a.instance_h ≡ 0 → a.values a.instance_h ≡ []
    none_yet e = rw e z

pub boot-Told :
    (first : Bool) (me v : Bytes) (pro : Proposer)
    → Told (new_config me pro (boot true first me v)) (boot true first me v)
unfolding boot first_value fresh loginstance append_rec committed
boot-Told true me v pro = (view_of me pro (boot true true me v) refl, refl, refl)
boot-Told false me v pro = (view_of me pro (boot true false me v) refl, refl, refl)

-- A node's view survives a crash: after any messages whose numbers fit `unsigned` and whose names and
-- values are words and lines, a node that starts again from its log file has the view number and the
-- members that paxos_commit had given it before.
pub restart_view :
    (junk : ℕ) (first : Bool) (me v : Bytes) (pro pro' : Proposer) (ms : List Message)
    → is_line v ≡ true
    → All IsClean ms
    → let s = run ms (boot true first me v) in
      let c = committed s.upcalls (new_config me pro (boot true first me v)) in
      (r : Acceptor) × (start junk true first me v s.file ≡ read r)
      × ((new_config me pro' r).myvid ≡ c.myvid)
      × ((new_config me pro' r).mems ≡ c.mems)
restart_view junk first me v pro pro' ms one clean =
    let a = boot true first me v in
    let s = run ms a in
    let ((i, m), h, z) = run-Follows ms a (new_config me pro a) (boot-Told first me v pro) in
    let (r, e, g) = restart-Agrees true first me v junk ms one clean in
    let (x, y) = view_of me pro' r (g.decided 0 ∙ z) in
    (
      r,
      e,
      x ∙ g.instance ∙ sym i,
      y ∙ ap members (g.decided r.instance_h ∙ ap s.values g.instance) ∙ sym m,
    )

-- A node's view survives a crash: if the names and values of its messages are words and lines and
-- their numbers fit `unsigned`, no thread of its acceptor takes a step while another handler is midway,
-- and none is midway at the crash, then a node that starts again from the log file has the view number
-- and the members that the calls of paxos_commit had given it before.
pub serial_view :
    (junk : ℕ) (first : Bool) (me v : Bytes) (pro pro' : Proposer) (es : List Event)
    → is_line v ≡ true
    → AllArrive IsClean es
    → is_serial es (at_rest (boot true first me v)) ≡ true
    → is_quiet (Threads.run es (at_rest (boot true first me v))).threads ≡ true
    → let s = (Threads.run es (at_rest (boot true first me v))).shared.acceptor in
      let c = committed s.upcalls (new_config me pro (boot true first me v)) in
      (r : Acceptor) × (start junk true first me v s.file ≡ read r)
      × ((new_config me pro' r).myvid ≡ c.myvid)
      × ((new_config me pro' r).mems ≡ c.mems)
serial_view junk first me v pro pro' es one clean serial quiet =
    let (ms, ps, e) = run-at_rest IsClean es (boot true first me v) serial clean quiet in
    subst
      (λ s.
        let c = committed s.upcalls (new_config me pro (boot true first me v)) in
        (r : Acceptor) × (start junk true first me v s.file ≡ read r)
        × ((new_config me pro' r).myvid ≡ c.myvid)
        × ((new_config me pro' r).mems ≡ c.mems))
      (sym e) (restart_view junk first me v pro pro' ms one ps)
