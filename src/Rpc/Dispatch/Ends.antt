-- ===== src/Rpc/Dispatch/Ends.antt =====
-- A handler of a server of rpc/rpc.cc that ends: its reply is recorded and sent.
use frangipani_yfs.Prelude.{
  Runs, ℕ, zero, suc, ◌+◌, ◌≤◌, ◌≡◌, ◌≢◌, refl, subst, Bool, true, false, not, ◌&&◌, ◌||◌, [], ◌∷◌,
  List, ◌==◌, if◌then◌else◌, Option, none, some, is_some, arith, elem, Option-cases, Bool-cases,
  inl, inr, if_cases,
}
use frangipani_yfs.Rpc.Reply.{Table, add_reply}
use frangipani_yfs.Rpc.AtMostOnce.{known, replies, keep_table, apply, apply-known}
use frangipani_yfs.Rpc.Dispatch.{
  send, saved_reply, Running, Rpcs, decref, find_conn, behind, pick, moved, move_conn, latest,
  answer, recorded, is_result, finish, Event, accepts, arrives, finishes,
}
use frangipani_yfs.Rpc.Dispatch.InFlight.{add_reply-in_flight, add_reply-some}
use frangipani_yfs.Rpc.Dispatch.References.{
  leaks, is_stale, uses_running, uses, hand, uses_conns-find,
}
use frangipani_yfs.Rpc.Dispatch.Serving.{at_work, Tracked, SoundBy, Sound, same_pair, drop-Sound}

-- The end of a handler.
pick-uses :
    (c n : ℕ) (rs qs : List Running) (r : Running)
    → pick n rs ≡ some (r, qs)
    → uses_running c rs ≡ uses_running c qs + hand r.conn c
unfolding pick behind uses_running
pick-uses c n [] qs r e = cc
pick-uses c zero (x ∷ rs) qs r e = ground arith
pick-uses c (suc n) (x ∷ rs) qs r e = elim (Option-cases (pick n rs)) [
  | inl z ↦ ground (arith, z)
  | inr (p, q) ↦ ground (arith, q, pick-uses c n rs (p.1) (p.0) q)
]

pick-at_work :
    (k x n : ℕ) (rs qs : List Running) (r : Running)
    → pick n rs ≡ some (r, qs)
    → at_work k x rs ≡ at_work k x qs + (if r.clt == k && r.xid == x then 1 else 0)
unfolding pick behind at_work
pick-at_work k x n [] qs r e = cc
pick-at_work k x zero (y ∷ rs) qs r e = ground arith
pick-at_work k x (suc n) (y ∷ rs) qs r e = elim (Option-cases (pick n rs)) [
  | inl z ↦ ground (arith, z)
  | inr (p, q) ↦ ground (arith, q, pick-at_work k x n rs (p.1) (p.0) q)
]

pick-Sound :
    (n : ℕ) (s : Rpcs) (r : Running) (qs : List Running)
    → pick n s.running ≡ some (r, qs)
    → Sound s
    → SoundBy (hand r.conn) (record s { running = qs })
unfolding uses
pick-Sound n s r qs e (b, (t, q)) = (
  (λ d. ground (arith, b d, pick-uses d n s.running qs r e)),
  (λ k x nz. shrinks k x (t k x nz), q),
)
  where
    shrinks : (k x : ℕ) → Tracked s k x → Tracked (record s { running = qs }) k x
    shrinks k x t = (
      ground (arith, pick-at_work k x n s.running qs r e),
      (λ l. t.1 (ground (arith, pick-at_work k x n s.running qs r e))),
      (λ l. t.2 (ground (arith, pick-at_work k x n s.running qs r e))),
      t.3,
      t.4,
      ground (arith, pick-at_work k x n s.running qs r e),
    )

add_reply-known :
    (c y clt xid b sz : ℕ) (t u : Table)
    → add_reply clt xid b sz t ≡ some u
    → known y (t c) ≡ true
    → known y (u c) ≡ true
unfolding keep_table apply
add_reply-known c y clt xid b sz t u e h =
    subst (λ o. known y (keep_table t o c) ≡ true) e (apply-known c y (replies clt xid b sz) t h)

-- The reply of a request on which no handler works any more.
reply-Tracked :
    (clt xid b sz k x : ℕ) (s : Rpcs) (u : Table)
    → add_reply clt xid b sz s.table ≡ some u
    → ((clt == k && xid == x) ≡ true → at_work k x s.running ≡ 0)
    → Tracked s k x
    → Tracked (record s { table = u }) k x
reply-Tracked clt xid b sz k x s u e n t = elim (Bool-cases (clt == k && xid == x)) [
  | inl a ↦ (
    t.0,
    (λ l. absurd (omega (arith, n a))),
    t.2,
    t.3,
    (λ l. add_reply-known k x clt xid b sz s.table u e (t.4 l)),
    t.5,
  )
  | inr a ↦ (
    t.0,
    (λ l. add_reply-in_flight k x clt xid b sz s.table u e a (t.1 l)),
    t.2,
    t.3,
    (λ l. add_reply-known k x clt xid b sz s.table u e (t.4 l)),
    t.5,
  )
]

abbrev InHand : Option (ℕ × Rpcs) → Type 0
InHand none = ⊥
InHand (some (c, s)) = SoundBy (hand c) s

move-Sound :
    (c d : ℕ) (s : Rpcs) (clt : ℕ)
    → find_conn clt s.conns ≡ some d
    → SoundBy (hand c) s
    → InHand (move_conn c (some d) s)
unfolding move_conn moved decref uses
move-Sound c d s clt e (b, w) =
    if_cases InHand (d == c) (λ t. (b, w))
      (λ n.
        if_cases (λ o. InHand (moved d o)) (s.refs c == 0) (λ z. absurd (ground (arith, b c)))
          (λ f. ((λ x. ground (arith, b x, b c, b d, uses_conns-find clt d s.conns e)), w)))

latest-Sound :
    (r : Running) (dead : Bool) (s : Rpcs)
    → (dead ≡ true → is_some (find_conn r.clt s.conns) ≡ true)
    → SoundBy (hand r.conn) s
    → InHand (latest r dead s)
unfolding latest
latest-Sound r true s f i = elim (Option-cases (find_conn r.clt s.conns)) [
  | inl n ↦ absurd (ground (arith, n, f refl))
  | inr (d, q) ↦ rw q (move-Sound r.conn d s r.clt q i)
]
latest-Sound r false s f i = i

answer-Sound : (b sz : ℕ) (o : Option (ℕ × Rpcs)) → InHand o → Runs Sound (answer b sz o)
unfolding answer uses leaks is_stale
answer-Sound b sz none i = i
answer-Sound b sz (some (c, s)) i =
    drop-Sound c (send c (saved_reply b sz) s) ((λ d. ground (arith, i.0 d)), i.1)

recorded-Sound :
    (r : Running) (dead : Bool) (b sz : ℕ) (s : Rpcs) (u : Table)
    → (dead ≡ true → is_some (find_conn r.clt s.conns) ≡ true)
    → SoundBy (hand r.conn) (record s { table = u })
    → Runs Sound (recorded r dead b sz s (some u))
unfolding recorded
recorded-Sound r dead b sz s u f i =
    answer-Sound b sz _ (latest-Sound r dead (record s { table = u }) f i)

-- What surrounds the server, at one step: a connection that is accepted is a new one, a packet comes on
-- a connection that the listener holds, the server is not made unreachable while a packet is added, and
-- when a handler ends its result is one that dispatch takes, and the connection of a client without a
-- nonce is alive.
unfoldable pub may_end : Bool → ℕ → Option (Running × List Running) → Bool
may_end dead ret none = true
may_end dead ret (some (r, rs)) = is_result ret && (not dead || not (r.clt == 0))

unfoldable pub allowed : Event → Rpcs → Bool
unfolding may_end pick
allowed (accepts c) s = s.refs c == 0
allowed (arrives c b later) s = elem c s.held && (not s.reachable || later)
allowed (finishes n dead ret b sz) s = may_end dead ret (pick n s.running)
allowed e s = true

-- The picked handler was at work, and was the only one on its request.
pick-once :
    (n : ℕ) (s : Rpcs) (r : Running) (qs : List Running)
    → pick n s.running ≡ some (r, qs)
    → r.clt ≢ 0
    → Sound s
    → (1 ≤ at_work r.clt r.xid s.running) × (at_work r.clt r.xid qs ≡ 0)
pick-once n s r qs e nz (b, (t, q)) = (
  ground (arith, pick-at_work r.clt r.xid n s.running qs r e),
  ground (arith, pick-at_work r.clt r.xid n s.running qs r e, (t r.clt r.xid nz).0),
)

replied-Sound :
    (n : ℕ) (dead : Bool) (b sz : ℕ) (s : Rpcs) (r : Running) (qs : List Running) (o : Option Table)
    → pick n s.running ≡ some (r, qs)
    → r.clt ≢ 0
    → Sound s
    → add_reply r.clt r.xid b sz s.table ≡ o
    → Runs Sound (recorded r dead b sz (record s { running = qs }) o)
unfolding uses
replied-Sound n dead b sz s r qs none e nz i q =
    let (l, z) = pick-once n s r qs e nz i in
    let t = (i.1).0 r.clt r.xid nz in
    absurd (ground (arith, q, add_reply-some r.clt r.xid b sz s.table (t.1 l)))
replied-Sound n dead b sz s r qs (some u) e nz i q =
    let (l, z) = pick-once n s r qs e nz i in
    let t = (i.1).0 r.clt r.xid nz in
    let (f, (w, d)) = pick-Sound n s r qs e i in
    recorded-Sound r dead b sz (record s { running = qs }) u (λ a. t.2 l)
      (
        f,
        (
          (λ k x nk.
              reply-Tracked r.clt r.xid b sz k x (record s { running = qs }) u q
                (λ a. same_pair (λ c y. at_work c y qs ≡ 0) r.clt r.xid k x a z) (w k x nk)),
          d,
        ),
      )

pub finish-Sound :
    (n : ℕ) (dead : Bool) (ret b sz : ℕ) (s : Rpcs) (o : Option (Running × List Running))
    → pick n s.running ≡ o
    → may_end dead ret o ≡ true
    → Sound s
    → Runs Sound (finish dead ret b sz s o)
unfolding finish may_end
finish-Sound n dead ret b sz s none e a i = i
finish-Sound n dead ret b sz s (some (r, qs)) e a i =
    if_cases (Runs Sound) (is_result ret)
      (λ y.
        if_cases (λ o. Runs Sound (recorded r dead b sz (record s { running = qs }) o)) (r.clt == 0)
          (λ z.
            recorded-Sound r dead b sz (record s { running = qs }) s.table
              (λ d. absurd (ground arith)) (pick-Sound n s r qs e i))
          (λ nz. replied-Sound n dead b sz s r qs _ e (λ q. ground arith) i refl))
      (λ y. absurd (ground arith))
