-- ===== src/Rpc/Reply.antt =====
-- The server's table of replies: rpcs::checkduplicate_and_update and rpcs::add_reply (rpc/rpc.cc). A
-- buffer is a pointer, 0 for NULL; what is handed to free() is returned. Both functions work on a
-- copy of the client's list; the first stores the copy only for a new request.
use frangipani_yfs.Prelude.{
  ℕ, Bool, true, false, not, ◌&&◌, [], ◌∷◌, ◌++◌, List, leb, ltb, ◌==◌, if◌then◌else◌, Option, none,
  some, update,
}

pub record ReplyT : Type 0 where
  pub xid : ℕ
  pub cb_present : Bool
  pub buf : ℕ
  pub sz : ℕ

-- reply_window_, by the client's nonce
abbrev pub Table : Type 0
Table = ℕ → List ReplyT

pub data RpcState : Type 0 where
  new inprogress forgotten : RpcState
  -- the saved reply
  done : ℕ → ℕ → RpcState

-- The first loop, on one entry.
unfoldable pub clear_reply : ℕ → ReplyT → ReplyT
clear_reply xid_rep e =
    if leb e.xid xid_rep then record { xid = e.xid; cb_present = false; buf = 0; sz = 0 } else e

unfoldable pub clear_all : ℕ → List ReplyT → List ReplyT
unfolding clear_reply
clear_all xid_rep [] = []
clear_all xid_rep (e ∷ es) = clear_reply xid_rep e ∷ clear_all xid_rep es

-- The pointers that the loop frees; free(NULL) does nothing.
unfoldable pub freed : ℕ → List ReplyT → List ℕ
freed xid_rep [] = []
freed xid_rep (e ∷ es) =
    let rest = freed xid_rep es in
    if leb e.xid xid_rep && not (e.buf == 0) then e.buf ∷ rest else rest

-- The second loop: the first entry with this xid.
unfoldable pub find_reply : ℕ → List ReplyT → Option ReplyT
find_reply xid [] = none
find_reply xid (e ∷ es) = if e.xid == xid then some e else find_reply xid es

pub record Checked : Type 0 where
  pub table : Table
  pub state : RpcState
  pub frees : List ℕ

unfoldable pub state_of : ℕ → ℕ → ReplyT → RpcState
state_of xid xid_rep e =
    if e.cb_present then done e.buf e.sz else if ltb xid_rep xid then inprogress else forgotten

unfoldable pub checked : ℕ → ℕ → ℕ → Table → List ReplyT → List ℕ → Option ReplyT → Checked
unfolding state_of
checked clt xid xid_rep t copy frees none = record {
  table = update t clt (copy ++ record { xid = xid; cb_present = false; buf = 0; sz = 0 } ∷ []);
  state = new;
  frees = frees;
}
checked clt xid xid_rep t copy frees (some e) = record {
  table = t;
  state = state_of xid xid_rep e;
  frees = frees;
}

-- rpcs::checkduplicate_and_update
unfoldable pub check : ℕ → ℕ → ℕ → Table → Checked
unfolding clear_all freed find_reply checked
check clt xid xid_rep t =
    let copy = clear_all xid_rep (t clt) in
    checked clt xid xid_rep t copy (freed xid_rep (t clt)) (find_reply xid copy)

-- The loop of add_reply: `none` where its assertion fails.
unfoldable pub fill : ℕ → ℕ → ℕ → List ReplyT → Option (List ReplyT)
fill xid b sz [] = some []
fill xid b sz (e ∷ es) =
    let rest = fill xid b sz es in
    if e.xid == xid
    then (if not e.cb_present && e.buf == 0
        then some (record { xid = e.xid; cb_present = true; buf = b; sz = sz } ∷ es)
        else none)
    else elim rest [ none ↦ none | some r ↦ some (e ∷ r) ]

unfoldable pub on_filled : ℕ → Table → Option (List ReplyT) → Option Table
on_filled clt t none = none
on_filled clt t (some l) = some (update t clt l)

-- rpcs::add_reply
unfoldable pub add_reply : ℕ → ℕ → ℕ → ℕ → Table → Option Table
unfolding fill on_filled
add_reply clt xid b sz t = on_filled clt t (fill xid b sz (t clt))

-- rpcs::free_reply_window frees every saved buffer and forgets all clients.
unfoldable pub free_reply_window : Table → Table
free_reply_window t = λ _. []
