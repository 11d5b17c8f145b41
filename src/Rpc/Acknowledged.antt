-- ===== src/Rpc/Acknowledged.antt =====
-- A client of rpc/rpc.cc acknowledges no request that still waits for its reply.
use frangipani_yfs.Prelude.{
  both_true, ℕ, ◌+◌, ◌%◌, ◌^◌, ◌≤◌, ◌<◌, ◌≡◌, refl, Bool, true, false, not, ◌&&◌, ◌||◌, [], ◌∷◌,
  List, ◌==◌, if◌then◌else◌, Option, none, some, arith, length, ltb, All, Bool-cases, inl, inr,
  if_cases,
}
use frangipani_yfs.Rpc.Header.{ReqHeader}
use frangipani_yfs.Rpc.Window.{front}
use frangipani_yfs.Rpc.Received.{Asc, Closed, Good, update-Good}
use frangipani_yfs.Rpc.Client.{
  Result, replied, Caller, Rpcc, fresh, start_call, first_of, answer_with, answer_call, got_reply,
  erase_call, end_call, cancel_calls, cancel, bound, Event, starts, replies, ends, cancels, binds,
  step, run, bind_proc,
}

-- A caller that has no result yet, and that the call waits.
abbrev pub is_open : Option Result → Bool
is_open none = true
is_open (some r) = false

unfoldable pub waits : ℕ → List Caller → Bool
waits x [] = false
waits x (k ∷ ks) = (k.xid == x && is_open k.answer) || waits x ks

-- The request was issued, and its call waits no more.
abbrev pub Settled : Rpcc → ℕ → Type 0
Settled c y = (y < c.next_xid) × (waits y c.calls ≡ false)

-- What the client has acknowledged, by its window and by the headers that it has sent.
abbrev pub Acked : (ℕ → Type 0) → List ReqHeader → Type 0
Acked K [] = Unit
Acked K (h ∷ hs) = Closed K h.xid_rep × Acked K hs

abbrev pub Careful : Rpcc → Type 0
Careful c = Good (Settled c) c.window × Acked (Settled c) c.sent

-- The network brings replies to requests that were issued, and only calls that were started end.
unfoldable pub issued : Event → Rpcc → Bool
issued (replies x ret) c = ltb x c.next_xid
issued (ends x) c = ltb x c.next_xid
issued e c = true

unfoldable pub all_issued : List Event → Rpcc → Bool
unfolding issued step
all_issued [] c = true
all_issued (e ∷ es) c = issued e c && all_issued es (step e c)

module _ (K L : ℕ → Type 0) (f : (y : ℕ) → K y → L y) where
  All-map : (l : List ℕ) → All K l → All L l
  All-map [] h = tt
  All-map (x ∷ l) h = (f x (h.0), All-map l (h.1))

  Good-map : (w : List ℕ) → Good K w → Good L w
  Good-map w (n, a, k, c) = (n, a, All-map w k, λ y le. f y (c y le))

  Acked-map : (hs : List ReqHeader) → Acked K hs → Acked L hs
  Acked-map [] h = tt
  Acked-map (x ∷ hs) (c, h) = ((λ y le. f y (c y le)), Acked-map hs h)

first_of-closed : (o : Option Result) (r : Result) → is_open (first_of o r) ≡ false
unfolding first_of
first_of-closed none r = refl
first_of-closed (some q) r = refl

-- An answer settles its call and opens none.
waits-answer :
    (x y : ℕ) (r : Result) (ks : List Caller)
    → waits y (answer_call x r ks) ≡ (if x == y then false else waits y ks)
unfolding waits answer_call answer_with
waits-answer x y r [] = ground arith
waits-answer x y r (k ∷ ks) = ground (arith, first_of-closed k.answer r, waits-answer x y r ks)

waits-erase :
    (x y : ℕ) (ks : List Caller)
    → waits y (erase_call x ks) ≡ (if x == y then false else waits y ks)
unfolding waits erase_call
waits-erase x y [] = ground arith
waits-erase x y (k ∷ ks) = ground (arith, waits-erase x y ks)

waits-cancel : (y : ℕ) (ks : List Caller) → waits y (cancel_calls ks) ≡ false
unfolding waits cancel_calls
waits-cancel y [] = refl
waits-cancel y (k ∷ ks) = ground (arith, waits-cancel y ks)

-- The xids do not wrap within the run.
abbrev pub Room : ℕ → Rpcc → Type 0
Room n c = c.next_xid + n < 2 ^ 32

module _ (c : Rpcc) where
  reply-Careful : (x ret : ℕ) → ltb x c.next_xid ≡ true → Careful c → Careful (got_reply x ret c)
  unfolding got_reply
  reply-Careful x ret i (g, a) =
      let K = Settled c in
      let L = Settled (got_reply x ret c) in
      let f = λ (y : ℕ) (h : K y). grow y h in
      (
        update-Good L x c.window
            (ground arith, ground (arith, waits-answer x x (replied ret) c.calls))
            (Good-map K L f c.window g),
        Acked-map K L f c.sent a,
      )
    where
      grow : (y : ℕ) → Settled c y → Settled (got_reply x ret c) y
      grow y (l, w) = (l, ground (arith, waits-answer x y (replied ret) c.calls))

  end-Careful : (x : ℕ) → ltb x c.next_xid ≡ true → Careful c → Careful ((end_call x c).1)
  unfolding end_call
  end-Careful x i (g, a) =
      let K = Settled c in
      let L = Settled ((end_call x c).1) in
      let f = λ (y : ℕ) (h : K y). grow y h in
      (
        update-Good L x c.window (ground arith, ground (arith, waits-erase x x c.calls))
            (Good-map K L f c.window g),
        Acked-map K L f c.sent a,
      )
    where
      grow : (y : ℕ) → Settled c y → Settled ((end_call x c).1) y
      grow y (l, w) = (l, ground (arith, waits-erase x y c.calls))

  cancel-Careful : Careful c → Careful (cancel c)
  unfolding cancel
  cancel-Careful (g, a) =
      let K = Settled c in
      let L = Settled (cancel c) in
      let f = λ (y : ℕ) (h : K y). grow y h in (Good-map K L f c.window g, Acked-map K L f c.sent a)
    where
      grow : (y : ℕ) → Settled c y → Settled (cancel c) y
      grow y (l, w) = (l, waits-cancel y c.calls)

  abbrev started : ℕ → Rpcc
  started proc = record c {
    next_xid = (c.next_xid + 1) % 2 ^ 32;
    calls = record { xid = c.next_xid; answer = none } ∷ c.calls;
    sent =
        record {
          xid = c.next_xid;
          proc = proc;
          clt_nonce = c.clt_nonce;
          srv_nonce = c.srv_nonce;
          xid_rep = front c.window;
        }
        ∷ c.sent;
  }

  started-Careful : (proc : ℕ) → c.next_xid + 1 < 2 ^ 32 → Careful c → Careful (started proc)
  unfolding waits
  started-Careful proc room (g, a) =
      let K = Settled c in
      let L = Settled (started proc) in
      let f = λ (y : ℕ) (h : K y). grow y h in
      (Good-map K L f c.window g, ((λ y le. f y (g.3 y le)), Acked-map K L f c.sent a))
    where
      grow : (y : ℕ) → Settled c y → Settled (started proc) y
      grow y (l, w) = (omega arith, ground arith)

  start-Careful : (proc : ℕ) → c.next_xid + 1 < 2 ^ 32 → Careful c → Careful ((start_call proc c).1)
  unfolding start_call
  start-Careful proc room h =
      if_cases (λ (p : Result × Rpcc). Careful (p.1))
        ((not (proc == bind_proc) && not c.bind_done) || (proc == bind_proc && c.bind_done))
        (λ t. h)
        (λ f.
          if_cases (λ (p : Result × Rpcc). Careful (p.1)) c.destroy_wait (λ t. h)
            (λ n. started-Careful proc room h))

step-Careful :
    (e : Event) (c : Rpcc)
    → c.next_xid + 1 < 2 ^ 32
    → issued e c ≡ true
    → Careful c
    → Careful (step e c)
unfolding step issued bound
step-Careful (starts proc) c room i h = start-Careful c proc room h
step-Careful (replies x ret) c room i h = reply-Careful c x ret i h
step-Careful (ends x) c room i h = end-Careful c x i h
step-Careful cancels c room i h = cancel-Careful c h
step-Careful (binds r) c room i h = h

step-next : (e : Event) (c : Rpcc) → c.next_xid + 1 < 2 ^ 32 → (step e c).next_xid ≤ c.next_xid + 1
unfolding step start_call got_reply end_call cancel bound
step-next (starts proc) c h = ground arith
step-next (replies x ret) c h = omega arith
step-next (ends x) c h = omega arith
step-next cancels c h = omega arith
step-next (binds r) c h = omega arith

pub run-Careful :
    (es : List Event) (c : Rpcc)
    → Room (length es) c
    → all_issued es c ≡ true
    → Careful c
    → Careful (run es c)
unfolding run all_issued
run-Careful [] c room i h = h
run-Careful (e ∷ es) c room i h =
    let (p, q) = both_true (issued e c) (all_issued es (step e c)) i in
    run-Careful es (step e c) (omega (arith, step-next e c (omega arith))) q
      (step-Careful e c (omega arith) p h)

pub fresh-Careful : (nonce : ℕ) → Careful (fresh nonce)
unfolding Asc front waits
fresh-Careful nonce =
    (((λ e. cc), (omega arith, tt), ((omega arith, refl), tt), λ y le. (omega arith, refl)), tt)

Closed-below : (c : Rpcc) (x n : ℕ) → waits x c.calls ≡ true → Closed (Settled c) n → n < x
Closed-below c x n w k = elim (Bool-cases (ltb n x)) [
  | inl t ↦ ground arith
  | inr f ↦ absurd (clash ((k x (ground arith)).1))
]
  where
    clash : waits x c.calls ≡ false → ⊥
    clash e = cc

Acked-below :
    (c : Rpcc) (x : ℕ) (hs : List ReqHeader)
    → waits x c.calls ≡ true
    → Acked (Settled c) hs
    → All (λ h. h.xid_rep < x) hs
Acked-below c x [] w a = tt
Acked-below c x (h ∷ hs) w a = (Closed-below c x h.xid_rep w (a.0), Acked-below c x hs w (a.1))

-- A call that waits is not acknowledged: after any starts, replies, time-outs and cancellations, in
-- which only requests that were issued are answered or end, and the xids do not wrap, every request
-- that the client has ever sent acknowledges only xids below that of each call that still waits.
pub waiting-unacknowledged :
    (nonce x : ℕ) (es : List Event)
    → length es + 1 < 2 ^ 32
    → all_issued es (fresh nonce) ≡ true
    → waits x (run es (fresh nonce)).calls ≡ true
    → All (λ h. h.xid_rep < x) (run es (fresh nonce)).sent
waiting-unacknowledged nonce x es room i w =
    let c = run es (fresh nonce) in
    Acked-below c x c.sent w (run-Careful es (fresh nonce) (omega arith) i (fresh-Careful nonce)).1
