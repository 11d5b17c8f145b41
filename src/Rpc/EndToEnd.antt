-- ===== src/Rpc/EndToEnd.antt =====
-- A client and a server of rpc/rpc.cc together: the requests that the server checks for the client are
-- copies of those that the client sent, in any number and order.
use frangipani_yfs.Prelude.{
  ℕ, ◌+◌, ◌^◌, ◌<◌, ◌≡◌, Bool, true, false, not, ◌&&◌, ◌||◌, [], ◌∷◌, List, ◌==◌, some, arith,
  length, All, Bool-cases, inl, inr,
}
use frangipani_yfs.Rpc.Header.{ReqHeader}
use frangipani_yfs.Rpc.Client.{Event, fresh, run}
use frangipani_yfs.Rpc.Acknowledged.{waits, all_issued, waiting-unacknowledged}
use frangipani_yfs.Rpc.Reply.{Table, done, check, add_reply}
use frangipani_yfs.Rpc.AtMostOnce.{Op, checks, replies, apply_all, known}
use frangipani_yfs.Rpc.Saved.{AllSpare, duplicate-done}

-- A header that was sent acknowledges up to this number.
unfoldable pub carried : ℕ → List ReqHeader → Bool
carried rep [] = false
carried rep (h ∷ hs) = h.xid_rep == rep || carried rep hs

-- The server's operations on a client's table: requests that carry what was sent, and no second reply
-- for the call.
unfoldable pub from_sent : ℕ → ℕ → List ReqHeader → List Op → Bool
unfolding carried
from_sent clt x hs [] = true
from_sent clt x hs (checks c y rep ∷ os) =
    (not (c == clt) || carried rep hs) && from_sent clt x hs os
from_sent clt x hs (replies c y b sz ∷ os) = not (c == clt && y == x) && from_sent clt x hs os

carried-below :
    (rep x : ℕ) (hs : List ReqHeader)
    → All (λ h. h.xid_rep < x) hs
    → carried rep hs ≡ true
    → rep < x
unfolding carried
carried-below rep x [] a c = cc
carried-below rep x (h ∷ hs) (l, a) c = ground (arith, carried-below rep x hs a)

from_sent-AllSpare :
    (clt x : ℕ) (hs : List ReqHeader) (os : List Op)
    → All (λ h. h.xid_rep < x) hs
    → from_sent clt x hs os ≡ true
    → AllSpare clt x os
unfolding from_sent
from_sent-AllSpare clt x hs [] a f = tt
from_sent-AllSpare clt x hs (checks c y rep ∷ os) a f = (
  elim (Bool-cases (c == clt)) [
    | inl e ↦ inr (carried-below rep x hs a (ground arith))
    | inr e ↦ inl (λ q. ground arith)
  ],
  from_sent-AllSpare clt x hs os a (ground arith),
)
from_sent-AllSpare clt x hs (replies c y b sz ∷ os) a f = (
  elim (Bool-cases (c == clt)) [
    | inl e ↦ inr (λ q. ground arith)
    | inr e ↦ inl (λ q. ground arith)
  ],
  from_sent-AllSpare clt x hs os a (ground arith),
)

-- A call that waits gets its reply: as long as a call of the client waits, each copy of its request that
-- reaches the server after the reply was recorded is answered with that very reply, whatever the client
-- has done, if the server's other requests from it are copies of what it sent, with no second reply.
pub waiting-answered :
    (nonce x rep b sz : ℕ) (es : List Event) (os : List Op) (t u : Table)
    → length es + 1 < 2 ^ 32
    → all_issued es (fresh nonce) ≡ true
    → waits x (run es (fresh nonce)).calls ≡ true
    → carried rep (run es (fresh nonce)).sent ≡ true
    → known x (t nonce) ≡ true
    → add_reply nonce x b sz t ≡ some u
    → from_sent nonce x (run es (fresh nonce)).sent os ≡ true
    → (check nonce x rep (apply_all os u)).state ≡ done b sz
waiting-answered nonce x rep b sz es os t u room i w c k r f =
    let hs = (run es (fresh nonce)).sent in
    let a = waiting-unacknowledged nonce x es room i w in
    duplicate-done nonce x rep b sz os t u k r (from_sent-AllSpare nonce x hs os a f)
      (carried-below rep x hs a c)
