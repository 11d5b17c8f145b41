-- ===== src/Config.antt =====
-- The views of the replicas: config.cc and config.h, over the acceptor and the proposer of paxos.cc. The
-- mutex makes a call one step; where it is given up for a remote call, the answer is a parameter.
pub mod Members
pub mod Views
pub mod Joining
pub mod Heartbeats
use frangipani_yfs.Prelude.{
  ℕ, zero, suc, ◌+◌, ◌-◌, ◌%◌, ◌^◌, Bool, true, false, not, ◌&&◌, ◌||◌, [], ◌∷◌, ◌++◌, List, Bytes,
  ltb, leb, ◌==◌, if◌then◌else◌, Option, none, some, length, str_eq, elem_str,
}
use frangipani_yfs.Text.{Stream, read_word, read_num, space, max_u64}
use frangipani_yfs.Paxos.Acceptor.{Acceptor}
use frangipani_yfs.Paxos.Proposer.{Proposer, Network, Ran, isrunning, run}

-- config::members: `while (ist >> m)`. Each round reads a character at least.
unfoldable pub more_words : (Bytes → Stream → List Bytes) → Bytes × Stream → List Bytes
more_words next (w, none) = []
more_words next (w, some s) = w ∷ next w (some s)

unfoldable pub words_of : ℕ → Bytes → Stream → List Bytes
unfolding more_words read_word
words_of zero m s = []
words_of (suc f) m s = more_words (words_of f) (read_word m s)

unfoldable pub members : Bytes → List Bytes
unfolding words_of
members v = words_of (suc (length v)) [] (some v)

-- config::value: a space behind each member.
unfoldable pub value : List Bytes → Bytes
value [] = []
value (m ∷ ms) = m ++ space ∷ value ms

pub record Config : Type 0 where
  pub myvid : ℕ
  pub me : Bytes
  pub mems : List Bytes
  pub acc : Acceptor
  pub pro : Proposer
  -- the handles that paxos_commit deleted, and its calls of the upper layer
  pub deleted : List Bytes
  pub changes : ℕ

unfoldable pub get_view : ℕ → Config → List Bytes
unfolding members
get_view i c = members (c.acc.values i)

unfoldable pub reconstruct : Config → Config
unfolding get_view
reconstruct c =
    if ltb 0 c.acc.instance_h
    then record c { myvid = c.acc.instance_h; mems = get_view c.acc.instance_h c }
    else c

-- The constructor, over the acceptor that it makes.
unfoldable pub new_config : Bytes → Proposer → Acceptor → Config
unfolding reconstruct
new_config me pro acc =
    reconstruct
      (record { myvid = 0; me = me; mems = []; acc = acc; pro = pro; deleted = []; changes = 0 })

-- The loop of paxos_commit: the members that leave, but this node.
unfoldable pub leaving : Bytes → List Bytes → List Bytes → List Bytes
leaving me new [] = []
leaving me new (m ∷ ms) =
    let rest = leaving me new ms in
    if not (elem_str m new) && not (str_eq me m) then m ∷ rest else rest

unfoldable pub paxos_commit : ℕ → Bytes → Config → Config
unfolding members leaving
paxos_commit i v c = record c {
  mems = members v;
  myvid = i;
  deleted = c.deleted ++ leaving c.me (members v) c.mems;
  changes = suc c.changes;
}

unfoldable pub ismember : Bytes → Config → Bool
ismember m c = elem_str m c.mems

unfoldable pub get_curview : Config → List Bytes
unfolding get_view
get_curview c = get_view c.myvid c

-- `myvid - 1` is unsigned.
unfoldable pub get_prevview : Config → List Bytes
unfolding get_view
get_prevview c = get_view ((c.myvid + (2 ^ 32 - 1)) % 2 ^ 32) c

-- Paxos runs for the next view with the members of this one.
unfoldable pub propose : Network → List Bytes → Config → Ran
unfolding value
propose net new c = run net ((c.myvid + 1) % 2 ^ 32) c.mems (value new) c.pro c.acc

unfoldable pub add : Network → Bytes → Config → Ran
unfolding propose
add net m c = propose net (c.mems ++ m ∷ []) c

unfoldable pub without : Bytes → List Bytes → List Bytes
without m [] = []
without m (x ∷ xs) = let rest = without m xs in if str_eq x m then rest else x ∷ rest

unfoldable pub remove_wo : Network → Bytes → Config → Ran
unfolding propose without
remove_wo net m c = propose net (without m c.mems) c

-- config::heartbeat: `none` where its assertion fails.
pub data Status : Type 0 where
  ok err : Status

unfoldable pub heartbeat : ℕ → Config → Option Status
unfolding isrunning
heartbeat vid c =
    if vid == c.myvid
    then some ok
    else if isrunning c.pro
    then (if vid == (c.myvid + 1) % 2 ^ 32 || (vid + 1) % 2 ^ 32 == c.myvid then some ok else none)
    else some err

-- config::doheartbeat, from what the call returns; -1 (timeout_failure) is also the case of no handle.
pub data Heartbeat : Type 0 where
  same_view view_error failure : Heartbeat

abbrev pub atmostonce_failure : ℕ
atmostonce_failure = 2 ^ 32 - 4

abbrev pub oldsrv_failure : ℕ
oldsrv_failure = 2 ^ 32 - 5

-- The result, and whether the handle is deleted.
unfoldable pub doheartbeat : ℕ → Heartbeat × Bool
doheartbeat ret =
    if ret == 0
    then (same_view, false)
    else if ret == atmostonce_failure || ret == oldsrv_failure
    then (same_view, true)
    else if leb (2 ^ 31) ret
    then (failure, false)
    else (view_error, false)

-- The number that a member's name spells; `junk` is what the variable holds.
unfoldable pub number_of : ℕ → Bytes → ℕ
unfolding read_num
number_of junk m = (read_num max_u64 junk (some m)).0

unfoldable pub smallest : ℕ → Bytes → List Bytes → Bytes
unfolding number_of
smallest junk m [] = m
smallest junk m (x ∷ xs) =
    smallest junk (if ltb (number_of junk x) (number_of junk m) then x else m) xs

unfoldable pub is_ok : Heartbeat → Bool
is_ok same_view = true
is_ok view_error = false
is_ok failure = false

-- A position of a vector.
unfoldable pub at {ℓ} : {A : Type ℓ} → ℕ → List A → Option A
at k [] = none
at zero (x ∷ xs) = some x
at (suc k) (x ∷ xs) = at k xs

-- What a round of heartbeater comes to: nothing, a removal that is asked for, or a read of `mems` behind
-- its end. The loop over `mems` has no other bound than its length, which may change.
pub data Round : Type 0 where
  quiet beyond unending : Round
  asks : Bytes → Round

-- The node with the smallest number pings the others, up to the first that does not answer well. The
-- ping at position `i` gives the mutex up: it brings the answer and the members when the mutex is held
-- again, and `mems[i]` is then read from these.
unfoldable pub bad_at : Option Bytes → Round
bad_at none = beyond
bad_at (some m) = asks m

unfoldable pub pinged : (List Bytes → Round) → ℕ → Heartbeat × List Bytes → Round
unfolding is_ok at bad_at
pinged next i (h, ms) = if is_ok h then next ms else bad_at (at i ms)

unfoldable pub looked_at :
    (List Bytes → Round)
    → (ℕ → Bytes → Heartbeat × List Bytes)
    → Bytes
    → ℕ
    → List Bytes
    → Option Bytes
    → Round
unfolding pinged
looked_at next ping me i ms none = quiet
looked_at next ping me i ms (some x) = if str_eq x me then next ms else pinged next i (ping i x)

unfoldable pub first_bad : ℕ → (ℕ → Bytes → Heartbeat × List Bytes) → Bytes → ℕ → List Bytes → Round
unfolding looked_at at
first_bad zero ping me i ms = unending
first_bad (suc f) ping me i ms =
    looked_at (λ later. first_bad f ping me (i + 1) later) ping me i ms (at i ms)

-- One round of heartbeater.
unfoldable pub beat : ℕ → ℕ → (ℕ → Bytes → Heartbeat × List Bytes) → Config → Round
unfolding smallest first_bad is_ok
beat f junk ping c =
    let m = smallest junk c.me c.mems in
    if not (elem_str c.me c.mems)
    then quiet
    else if str_eq m c.me
    then first_bad f ping c.me 0 c.mems
    else if is_ok ((ping 0 m).0)
    then quiet
    else asks m
