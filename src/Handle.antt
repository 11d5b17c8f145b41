-- ===== src/Handle.antt =====
-- The handles of handle.cc and handle.h: one bound client for each node, with a count of its users. A
-- handle is a pointer to an entry of the map; `none` is a use of an entry that is gone.
pub mod Counts
use frangipani_yfs.Prelude.{
  and_then, ℕ, ◌+◌, ◌-◌, Bool, true, false, ◌&&◌, [], ◌∷◌, List, Bytes, ◌==◌, if◌then◌else◌, Option,
  none, some, str_eq, update_str,
}

-- hinfo, with the client as a number
pub record Hinfo : Type 0 where
  pub cl : ℕ
  pub refcnt : ℕ
  pub del : Bool

pub record Manager : Type 0 where
  pub hmap : Bytes → Option Hinfo
  -- the handles that are out, with their clients, and the clients that were deleted
  pub out : List (Bytes × ℕ)
  pub gone : List ℕ
  -- the number of clients made so far, which is the number of the next one
  pub next_cl : ℕ

-- handle_mgr::get_handle: a client is made when the node has none, and `bound` says that its bind
-- succeeds; one that cannot be bound is neither kept nor deleted.
unfoldable pub fetch : Bytes → Bool → Manager → Option Hinfo → Manager
fetch m false s none = record s { next_cl = s.next_cl + 1 }
fetch m true s none = record s {
  hmap = update_str s.hmap m (some (record { cl = s.next_cl; refcnt = 1; del = false }));
  out = (m, s.next_cl) ∷ s.out;
  next_cl = s.next_cl + 1;
}
fetch m bound s (some h) = if h.del then s else record s {
  hmap = update_str s.hmap m (some (record h { refcnt = h.refcnt + 1 }));
  out = (m, h.cl) ∷ s.out;
}

unfoldable pub get_handle : Bytes → Bool → Manager → Manager
unfolding fetch
get_handle m bound s = fetch m bound s (s.hmap m)

-- handle_mgr::delete_handle_wo and delete_handle
unfoldable pub drop_entry : Bytes → Manager → Option Hinfo → Manager
drop_entry m s none = s
drop_entry m s (some h) =
    if h.refcnt == 0
    then record s { hmap = update_str s.hmap m none; gone = h.cl ∷ s.gone }
    else record s { hmap = update_str s.hmap m (some (record h { del = true })) }

unfoldable pub delete_handle : Bytes → Manager → Manager
unfolding drop_entry
delete_handle m s = drop_entry m s (s.hmap m)

unfoldable pub give_back : Bytes → List (Bytes × ℕ) → List (Bytes × ℕ)
give_back m [] = []
give_back m ((k, c) ∷ l) = if str_eq k m then l else (k, c) ∷ give_back m l

-- handle_mgr::done_handle
unfoldable pub returned : Bytes → Manager → Option Hinfo → Option Manager
unfolding drop_entry
returned m s none = none
returned m s (some h) =
    let k = record h { refcnt = h.refcnt - 1 } in
    let t = record s { hmap = update_str s.hmap m (some k); out = give_back m s.out } in
    if h.refcnt == 0
    then none
    else if k.refcnt == 0 && k.del
    then some (drop_entry m t (some k))
    else some t

unfoldable pub done_handle : Bytes → Manager → Option Manager
unfolding returned
done_handle m s = returned m s (s.hmap m)

pub data Use : Type 0 where
  gets : Bytes → Bool → Use
  dones deletes : Bytes → Use

unfoldable pub use_one : Use → Manager → Option Manager
unfolding get_handle done_handle delete_handle
use_one (gets m bound) s = some (get_handle m bound s)
use_one (dones m) s = done_handle m s
use_one (deletes m) s = some (delete_handle m s)

unfoldable pub uses : List Use → Manager → Option Manager
unfolding use_one and_then
uses [] s = some s
uses (u ∷ us) s = and_then (use_one u s) (λ t. uses us t)

abbrev pub no_handles : Manager
no_handles = record { hmap = λ _. none; out = []; gone = []; next_cl = 0 }
