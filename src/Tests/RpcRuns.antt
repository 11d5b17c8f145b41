-- ===== src/Tests/RpcRuns.antt =====
-- The rpc library at concrete inputs.
use frangipani_yfs.Prelude.{
  ℕ, ◌≡◌, ◌≢◌, ◌<◌, ◌≤◌, ◌++◌, ◌^◌, refl, true, false, [], ◌∷◌, length, drop, Bytes, some, arith,
  elem, replicate, update,
}
use frangipani_yfs.Paxos.Acceptor.{PrepareRes}
use frangipani_yfs.Rpc.Marshal.{Marshall, put_string, header_sz}
use frangipani_yfs.Rpc.Structs.{prepareres, prepareres-put-get}
use frangipani_yfs.Rpc.Header.{
  ReqHeader, pack_req_header, unpack_req_header, reader, unpack-pack_req,
}
use frangipani_yfs.Rpc.Reply.{Table, new, check, add_reply, find_reply}
use frangipani_yfs.Rpc.Window.{front}
use frangipani_yfs.Rpc.Received.{updates}
use frangipani_yfs.Rpc.AtMostOnce.{checks, replies, apply_all, known, new_once}
use frangipani_yfs.Rpc.Saved.{duplicate_double_free}

abbrev empty_table : Table
empty_table = λ c. []

first_time : (check 1 10 0 empty_table).state ≡ new
unfolding check
first_time = refl

new_once_example :
    (check 1 10 5
      (apply_all (replies 1 10 33 4 ∷ checks 1 11 10 ∷ []) (check 1 10 0 empty_table).table)).state
    ≢ new
new_once_example =
    new_once 1 10 0 5 (replies 1 10 33 4 ∷ checks 1 11 10 ∷ []) empty_table first_time

abbrev started : Table
started = (check 1 10 0 empty_table).table

abbrev after : Table
after = update started 1 (record { xid = 10; cb_present = true; buf = 33; sz = 4 } ∷ [])

after_is : add_reply 1 10 33 4 started ≡ some after
unfolding add_reply check
after_is = refl

started-known : known 10 (started 1) ≡ true
unfolding known check
started-known = refl

-- The client has acknowledged request 10, and a duplicate of request 11 comes.
abbrev two : Table
two = update empty_table 1 (
    record { xid = 10; cb_present = true; buf = 33; sz = 4 }
    ∷ record { xid = 11; cb_present = false; buf = 0; sz = 0 }
    ∷ [])

two_has : find_reply 10 (two 1) ≡ some (record { xid = 10; cb_present = true; buf = 33; sz = 4 })
unfolding find_reply
two_has = refl

eleven_old : (check 1 11 10 two).state ≢ new
unfolding check
eleven_old = λ e. cc

duplicate_double_free_example :
    (elem 33 (check 1 11 10 two).frees ≡ true)
    × (elem 33 (check 1 11 10 (check 1 11 10 two).table).frees ≡ true)
duplicate_double_free_example =
    duplicate_double_free 1 11 10 10 two (record { xid = 10; cb_present = true; buf = 33; sz = 4 })
      eleven_old two_has (omega arith) (λ e. absurd (omega arith))

abbrev header : ReqHeader
header = record { xid = 7; proc = 24577; clt_nonce = 1; srv_nonce = 2; xid_rep = 6 }

abbrev blank : Bytes
blank = replicate 24 0

abbrev arguments : Bytes
arguments = 1 ∷ 2 ∷ []

unpack-pack_req_example :
    let b = (pack_req_header header (record { buf = blank ++ arguments; capa = 32 })).buf in
    (unpack_req_header (reader b) ≡ (header, record (reader b) { ind = header_sz }))
    × (drop header_sz b ≡ arguments)
    × (length b ≡ length (blank ++ arguments))
unpack-pack_req_example =
    unpack-pack_req header blank arguments 32 refl
      (omega arith, omega arith, omega arith, omega arith, omega arith)

abbrev response : PrepareRes
response = record {
  oldinstance = 0;
  accept = 1;
  n_a = record { n = 4; m = 97 ∷ [] };
  v_a = 98 ∷ [];
}

abbrev empty_buffer : Marshall
empty_buffer = record { buf = []; capa = 32 }

response_fits : prepareres.fits response ≡ true
unfolding prepareres
response_fits = refl

response_small : length ((prepareres.put response empty_buffer).buf ++ arguments) < 2 ^ 31
unfolding prepareres put_string
response_small = omega arith

prepareres-put-get_example :
    prepareres.get (record {
      buf = (prepareres.put response empty_buffer).buf ++ arguments;
      ind = 0;
      ok = true;
      fault = false;
    })
    ≡ (
      response,
      record {
        buf = (prepareres.put response empty_buffer).buf ++ arguments;
        ind = length (prepareres.put response empty_buffer).buf;
        ok = true;
        fault = false;
      },
    )
prepareres-put-get_example =
    prepareres-put-get response empty_buffer arguments response_fits response_small

abbrev third : ℕ
third = 3

three_acknowledged : third ≤ front (updates (1 ∷ 3 ∷ 2 ∷ []) (0 ∷ []))
unfolding updates front
three_acknowledged = omega arith
