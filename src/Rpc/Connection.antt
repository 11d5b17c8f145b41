-- ===== src/Rpc/Connection.antt =====
-- A connection of the rpc library: how rpc/connection.cc cuts the stream of a socket into packets and
-- writes a packet to it. What a read or a write gives is a parameter. A size is the 32-bit word that
-- came; one from 2^31 on is negative in the source.
pub mod Framing
use frangipani_yfs.Prelude.{
  ℕ, ◌+◌, ◌-◌, ◌*◌, ◌^◌, Bool, true, false, not, ◌&&◌, ◌||◌, [], ◌∷◌, ◌++◌, List, Bytes, leb, ltb,
  ◌==◌, if◌then◌else◌, Option, none, some, length, take, drop,
}
use frangipani_yfs.Rpc.Marshal.{get_u32}
use frangipani_yfs.Rpc.Basic.{enc_u32}

abbrev pub max_pdu : ℕ
max_pdu = 10 * 2 ^ 20

-- read(): some bytes, 0 at the end of the stream, or -1. The flag says that errno is EAGAIN, which at
-- the end of the stream is what an earlier call left there.
pub data Read : Type 0 where
  got : Bytes → Read
  closed failed : Bool → Read

-- rpdu_: the bytes read so far, `solong` of them, with the size announced.
pub record Reader : Type 0 where
  pub buf : Option Bytes
  pub sz : ℕ

abbrev pub idle : Reader
idle = record { buf = none; sz = 0 }

-- What readpdu returns; `aborts` is a failed assertion or a write behind the buffer.
pub data Step : Type 0 where
  goes stops : Reader → Step
  aborts : Step

unfoldable pub ntohl : Bytes → ℕ
unfolding get_u32
ntohl b = (get_u32 (record { buf = b; ind = 0; ok = true; fault = false })).0

unfoldable pub on_header : Read → Reader → Step
unfolding ntohl
on_header (got b) r =
    let sz = ntohl b in
    if not (length b == 4)
    then stops r
    else if leb (2 ^ 31) sz
    then aborts
    else if ltb max_pdu sz
    then stops r
    else goes (record { buf = some b; sz = sz })
on_header (closed again) r = stops r
on_header (failed again) r = if again then aborts else stops r

-- The buffer has four bytes more than the size that came.
unfoldable pub on_bytes : Bytes → ℕ → Option Bytes → Step
on_bytes b sz none = aborts
on_bytes b sz (some a) =
    if ltb (sz + 4) (length a + length b)
    then aborts
    else goes (record { buf = some (a ++ b); sz = sz })

unfoldable pub on_data : Read → Reader → Step
unfolding on_bytes
on_data (got b) r = on_bytes b r.sz r.buf
on_data (closed again) r = if again then goes r else stops idle
on_data (failed again) r = if again then goes r else stops idle

unfoldable pub then_data : Read → Step → Step
unfolding on_data
then_data d (goes r) = on_data d r
then_data d (stops r) = stops r
then_data d aborts = aborts

-- readpdu, with what its two reads give
unfoldable pub readpdu : Read → Read → Reader → Step
unfolding on_header then_data
readpdu h d r = then_data d (if r.sz == 0 then on_header h r else goes r)

pub record Conn : Type 0 where
  pub dead : Bool
  pub rpdu : Reader
  -- the packets handed to got_pdu, the last one first
  pub handed : List Bytes

unfoldable pub is_whole : ℕ → Option Bytes → Bool
is_whole sz none = false
is_whole sz (some b) = sz == length b

unfoldable pub is_short : ℕ → Option Bytes → Bool
is_short sz none = true
is_short sz (some b) = ltb (length b) sz

unfoldable pub bytes_of : Option Bytes → Bytes
bytes_of none = []
bytes_of (some b) = b

-- The end of read_cb: a whole packet is handed over, and kept when got_pdu does not take it.
unfoldable pub hand_over : Bool → Conn → Conn
unfolding is_whole bytes_of
hand_over taken c =
    if is_whole c.rpdu.sz c.rpdu.buf
    then record c { handed = bytes_of c.rpdu.buf ∷ c.handed; rpdu = if taken then idle else c.rpdu }
    else c

unfoldable pub on_read : Bool → Conn → Step → Option Conn
unfolding hand_over
on_read taken c aborts = none
on_read taken c (goes r) = some (hand_over taken (record c { rpdu = r }))
on_read taken c (stops r) = some (hand_over taken (record c { rpdu = r; dead = true }))

unfoldable pub read_cb : Read → Read → Bool → Conn → Option Conn
unfolding readpdu on_read is_short
read_cb h d taken c =
    if c.dead
    then some c
    else on_read taken c (if is_short c.rpdu.sz c.rpdu.buf then readpdu h d c.rpdu else goes c.rpdu)

-- write(): a number of bytes, or -1, with errno EAGAIN or another.
pub data Write : Type 0 where
  wrote : ℕ → Write
  refused : Bool → Write

-- wpdu_, with what the socket took so far. `broken` is `solong` -1.
pub record Writer : Type 0 where
  pub buf : Bytes
  pub solong : ℕ
  pub broken : Bool
  pub wire : Bytes

-- htonl(sz) over the first four bytes
unfoldable pub framed : Bytes → Bytes
framed b = enc_u32 (length b) ++ drop 4 b

unfoldable pub on_write : Write → Writer → Writer
on_write (wrote n) w = record w {
  wire = w.wire ++ take n (drop w.solong w.buf);
  solong = w.solong + n;
}
on_write (refused again) w = if again then w else record w { broken = true }

unfoldable pub writepdu : Write → Writer → Writer
unfolding on_write framed
writepdu x w =
    if w.solong == length w.buf
    then w
    else on_write x (record w { buf = if w.solong == 0 then framed w.buf else w.buf })

-- send, and then write_cb for each time that the socket is ready, until all is written or it breaks.
unfoldable pub writes : List Write → Writer → Writer
unfolding writepdu
writes [] w = w
writes (x ∷ xs) w = let rest = writes xs (writepdu x w) in if w.broken then w else rest

unfoldable pub send : List Write → Bytes → Writer
unfolding writes
send xs b = writes xs (record { buf = b; solong = 0; broken = false; wire = [] })

unfoldable pub is_sent : Writer → Bool
is_sent w = not w.broken && w.solong == length w.buf
