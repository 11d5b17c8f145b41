-- ===== src/Rsm.antt =====
-- The replicated state machine of rsm.cc and rsm_protocol.h, as far as the source goes: the choice of
-- the primary, joining, and the test server. The functions that the source leaves empty are not here.
pub mod Primary
pub mod Client
use frangipani_yfs.Prelude.{
  ℕ, Bool, true, false, not, ◌&&◌, ◌||◌, [], ◌∷◌, ◌++◌, List, Bytes, ltb, leb, ◌==◌, if◌then◌else◌,
  Option, none, some, str_eq, elem_str, map,
}
use frangipani_yfs.Text.{decimal}
use frangipani_yfs.Paxos.Proposer.{Network, Ran}
use frangipani_yfs.Config.{Config, get_curview, get_prevview, ismember, add, number_of}

pub record Viewstamp : Type 0 where
  pub vid : ℕ
  pub seqno : ℕ

-- operator== and operator> of viewstamps
unfoldable pub vs_eq : Viewstamp → Viewstamp → Bool
vs_eq a b = a.vid == b.vid && a.seqno == b.seqno

unfoldable pub vs_gt : Viewstamp → Viewstamp → Bool
vs_gt a b = ltb b.vid a.vid || (a.vid == b.vid && ltb b.seqno a.seqno)

pub record Rsm : Type 0 where
  pub cfg : Config
  pub primary : Bytes
  pub inviewchange : Bool
  pub partitioned : Bool
  pub dopartition : Bool
  pub break1 : Bool
  pub break2 : Bool
  -- the calls of set_reachable on the clients of other nodes, the last one first, and on the server
  pub reached : List (Bytes × Bool)
  pub reachable : Bool

-- std::sort
unfoldable pub insert : ℕ → List ℕ → List ℕ
insert a [] = a ∷ []
insert a (x ∷ xs) = if leb a x then a ∷ (x ∷ xs) else x ∷ insert a xs

unfoldable pub sort : List ℕ → List ℕ
unfolding insert
sort [] = []
sort (x ∷ xs) = insert x (sort xs)

-- set_primary: the numbers of the previous view, and the first of them, in order, that is a member now.
-- `junk` is what the variable that a name is read into holds.
unfoldable pub numbers : ℕ → List Bytes → List ℕ
unfolding number_of
numbers junk [] = []
numbers junk (m ∷ ms) = number_of junk m ∷ numbers junk ms

unfoldable pub first_member : List ℕ → List Bytes → Option Bytes
unfolding decimal
first_member [] c = none
first_member (n ∷ ns) c =
    let rest = first_member ns c in if elem_str (decimal n) c then some (decimal n) else rest

unfoldable pub chosen : Rsm → Option Bytes → Option Rsm
chosen s none = none
chosen s (some m) = some (record s { primary = m })

-- `none` where an assertion fails.
unfoldable pub is_empty : List Bytes → Bool
is_empty [] = true
is_empty (m ∷ ms) = false

unfoldable pub set_primary : ℕ → Rsm → Option Rsm
unfolding get_curview get_prevview numbers sort first_member chosen is_empty
set_primary junk s =
    let c = get_curview s.cfg in
    let p = get_prevview s.cfg in
    if is_empty c
    then none
    else if elem_str s.primary c
    then some s
    else if is_empty p
    then none
    else chosen s (first_member (sort (numbers junk p)) c)

-- commit_change, for a node that is in the new view; one that is not goes on to `recovery`.
unfoldable pub commit_change : ℕ → Rsm → Option Rsm
unfolding set_primary
commit_change junk s = set_primary junk s

-- joinreq: the status, the log for the joining node, and the run of Paxos, if there is one.
pub data JoinResult : Type 0 where
  member : Bytes → JoinResult
  busy : JoinResult
  joined : Bytes → Ran → JoinResult

unfoldable pub joinreq : Network → Bytes → Rsm → JoinResult
unfolding ismember add
joinreq net m s =
    let r = add net m s.cfg in
    if ismember m s.cfg
    then member s.cfg.acc.file
    else if not (str_eq s.cfg.me s.primary)
    then busy
    else joined r.acceptor.file r

unfoldable pub client_members : Rsm → List Bytes
unfolding get_curview
client_members s = get_curview s.cfg ++ s.primary ∷ []

unfoldable pub amiprimary : Rsm → Bool
amiprimary s = str_eq s.primary s.cfg.me && not s.inviewchange

-- net_repair_wo: every other member that a handle can be had for is reached or not.
unfoldable pub repaired : (Bytes → Bool) → Bytes → Bool → List Bytes → List (Bytes × Bool)
repaired bound me heal [] = []
repaired bound me heal (m ∷ ms) =
    let rest = repaired bound me heal ms in
    if not (str_eq m me) && bound m then (m, heal) ∷ rest else rest

unfoldable pub net_repair_wo : (Bytes → Bool) → Bool → Rsm → Rsm
unfolding repaired get_curview
net_repair_wo bound heal s = record s {
  reached = repaired bound s.cfg.me heal (get_curview s.cfg) ++ s.reached;
  reachable = heal;
}

unfoldable pub test_net_repairreq : (Bytes → Bool) → Bool → Rsm → Rsm
unfolding net_repair_wo
test_net_repairreq bound heal s =
    if heal
    then record (net_repair_wo bound heal s) { partitioned = false }
    else record s { dopartition = true; partitioned = false }

-- breakpointreq: true for OK.
unfoldable pub breakpointreq : ℕ → Rsm → Rsm × Bool
breakpointreq b s =
    if b == 1
    then (record s { break1 = true }, true)
    else if b == 2
    then (record s { break2 = true }, true)
    else if b == 3
    then (record s { cfg = record s.cfg { pro = record s.cfg.pro { break1 = true } } }, true)
    else if b == 4
    then (record s { cfg = record s.cfg { pro = record s.cfg.pro { break2 = true } } }, true)
    else (s, false)
