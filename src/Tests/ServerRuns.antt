-- ===== src/Tests/ServerRuns.antt =====
-- The client and the server of the rpc library at concrete inputs.
use frangipani_yfs.Prelude.{
  ◌+◌, ℕ, ◌≡◌, ◌<◌, ◌≤◌, ◌++◌, refl, true, false, [], ◌∷◌, List, Bytes, some, none, arith, All,
  update, Option, elem,
}
use frangipani_yfs.Rpc.Marshal.{get_u32, get_byte}
use frangipani_yfs.Rpc.Basic.{enc_u32}
use frangipani_yfs.Rpc.Client.{Event, starts, replies, ends, binds, fresh, run}
use frangipani_yfs.Rpc.Acknowledged.{waits, all_issued, waiting-unacknowledged}
use frangipani_yfs.Rpc.Reply.{Table, done, check, add_reply}
use frangipani_yfs.Rpc.AtMostOnce.{Op, checks, apply_all, known}
use frangipani_yfs.Rpc.EndToEnd.{carried, from_sent, waiting-answered}
use frangipani_yfs.Rpc.Dispatch.{Rpcs, fresh_server, accepts, arrives, begins, finishes}
use frangipani_yfs.Rpc.Dispatch
use frangipani_yfs.Rpc.Dispatch.References.{uses, leaks}
use frangipani_yfs.Rpc.Dispatch.Serving.{calls_of}
use frangipani_yfs.Rpc.Dispatch.Runs.{all_allowed, serves_on, called_once}

-- The client binds, calls twice, and the first call is answered and ends.
abbrev two_calls : List Event
two_calls =
    starts 1 ∷ replies 1 0 ∷ ends 1 ∷ binds 9 ∷ starts 7 ∷ starts 8 ∷ replies 2 0 ∷ ends 2 ∷ []

two_calls-issued : all_issued two_calls (fresh 5) ≡ true
unfolding all_issued
two_calls-issued = refl

two_calls-waits : waits 3 (run two_calls (fresh 5)).calls ≡ true
unfolding waits run
two_calls-waits = refl

waiting-unacknowledged_example : All (λ h. h.xid_rep < 3) (run two_calls (fresh 5)).sent
waiting-unacknowledged_example =
    waiting-unacknowledged 5 3 two_calls (omega arith) two_calls-issued two_calls-waits

two_calls-carried : carried 1 (run two_calls (fresh 5)).sent ≡ true
unfolding carried run
two_calls-carried = refl

abbrev at_server : Table
at_server = (check 5 3 1 (λ c. [])).table

at_server-known : known 3 (at_server 5) ≡ true
unfolding known check
at_server-known = refl

abbrev replied_to : Table
replied_to = update at_server 5 (record { xid = 3; cb_present = true; buf = 70; sz = 30 } ∷ [])

replied_to_is : add_reply 5 3 70 30 at_server ≡ some replied_to
unfolding add_reply check
replied_to_is = refl

abbrev duplicates : List Op
duplicates = checks 5 3 1 ∷ checks 5 2 1 ∷ checks 6 3 8 ∷ []

duplicates-sent : from_sent 5 3 (run two_calls (fresh 5)).sent duplicates ≡ true
unfolding from_sent run
duplicates-sent = refl

waiting-answered_example : (check 5 3 1 (apply_all duplicates replied_to)).state ≡ done 70 30
waiting-answered_example =
    waiting-answered 5 3 1 70 30 two_calls duplicates at_server replied_to (omega arith)
      two_calls-issued two_calls-waits two_calls-carried at_server-known replied_to_is
      duplicates-sent

-- The packet of request 3 of client 5 for procedure 7.
abbrev packet : ℕ → ℕ → Bytes
packet clt srv =
    0 ∷ 0 ∷ 0 ∷ 0 ∷ (enc_u32 3 ++ (enc_u32 7 ++ (enc_u32 clt ++ (enc_u32 srv ++ enc_u32 1))))

abbrev server : Rpcs
server = fresh_server 9 (7 ∷ [])

-- The request comes three times: before, during and after the call of its handler, the last time on
-- another connection.
abbrev thrice : List Dispatch.Event
thrice =
    accepts 3
    ∷ accepts 4
    ∷ arrives 3 (packet 5 9) true
    ∷ begins
    ∷ arrives 3 (packet 5 9) true
    ∷ begins
    ∷ finishes 0 false 0 70 30
    ∷ arrives 4 (packet 5 9) true
    ∷ begins
    ∷ []

thrice-allowed : all_allowed thrice server ≡ true
unfolding all_allowed elem get_u32 get_byte check Dispatch.set_conn
thrice-allowed = refl

serves_on_example :
    (s : Rpcs) × (Dispatch.run thrice server ≡ some s)
    × ((c : ℕ) → s.refs c ≡ uses c s + leaks c s.sent)
serves_on_example = serves_on 9 (7 ∷ []) thrice thrice-allowed

-- A handler at work.
abbrev once : List Dispatch.Event
once = accepts 3 ∷ arrives 3 (packet 5 9) true ∷ begins ∷ []

once-allowed : all_allowed once server ≡ true
unfolding all_allowed elem get_u32 get_byte check
once-allowed = refl

abbrev after_once : Rpcs
after_once = record server {
  table = (check 5 3 1 (λ c. [])).table;
  conns = (5, 3) ∷ [];
  refs = update (update (update (λ c. 0) 3 1) 3 2) 3 3;
  held = 3 ∷ [];
  running = record { conn = 3; clt = 5; xid = 3 } ∷ [];
  started = (5, 3) ∷ [];
}

once_is : Dispatch.run once server ≡ some after_once
unfolding Dispatch.run check get_u32 get_byte elem Dispatch.set_conn
once_is = refl

called_once_example : calls_of 5 3 after_once.started ≤ 1
called_once_example =
    called_once 9 (7 ∷ []) once after_once 5 3 once-allowed once_is (λ e. absurd (omega arith))

-- The connection of a client without a nonce dies under its handler: NULL is used.
dead_without_nonce :
    Dispatch.run
      (accepts 3 ∷ arrives 3 (packet 0 9) true ∷ begins ∷ finishes 0 true 0 70 30 ∷ [])
      server
    ≡ none
unfolding Dispatch.run get_u32 get_byte elem
dead_without_nonce = refl

-- The server is made unreachable while it takes a packet: a deleted job runs.
unreachable_meanwhile :
    Dispatch.run (accepts 3 ∷ arrives 3 (packet 5 9) false ∷ begins ∷ []) server ≡ none
unfolding Dispatch.run
unreachable_meanwhile = refl

-- A request for an old instance of the server leaves a reference behind.
abbrev refs_after : Option Rpcs → ℕ
refs_after none = 0
refs_after (some s) = s.refs 3

old_instance :
    refs_after (Dispatch.run (accepts 3 ∷ arrives 3 (packet 5 8) true ∷ begins ∷ []) server) ≡ 2
unfolding Dispatch.run get_u32 get_byte
old_instance = refl
