-- ===== src/Tests/TransportRuns.antt =====
-- The connections, deadlines and buffers of the rpc library, and the FUSE handlers, at concrete inputs.
use frangipani_yfs.Prelude.{
  ℕ, ◌≡◌, ◌≤◌, ◌<◌, ◌^◌, ◌-◌, ◌++◌, refl, true, false, [], ◌∷◌, List, Bytes, some, arith, take,
  drop, length,
}
use frangipani_yfs.Rpc.Connection.{
  Read, got, failed, idle, Write, wrote, refused, framed, send, is_sent,
}
use frangipani_yfs.Rpc.Connection.Framing.{text, cuts, callbacks, send-arrives}
use frangipani_yfs.Rpc.Timespec.{Timespec}
use frangipani_yfs.Rpc.Buffer.{Put, byte, bytes, puts, content, puts-Bounded}
use frangipani_yfs.Rpc.Marshal.{marshall}

abbrev packet : Bytes
packet = 0 ∷ 0 ∷ 0 ∷ 0 ∷ 1 ∷ 2 ∷ 3 ∷ []

abbrev two_writes : List Write
two_writes = wrote 3 ∷ refused true ∷ wrote 4 ∷ []

abbrev two_reads : List Read
two_reads = failed true ∷ got (1 ∷ []) ∷ got (2 ∷ 3 ∷ []) ∷ []

two_writes-sent : is_sent (send two_writes packet) ≡ true
unfolding is_sent send
two_writes-sent = refl

two_reads-text : text two_reads ≡ drop 4 (send two_writes packet).wire
unfolding text send
two_reads-text = refl

two_reads-cuts : cuts (length packet - 4) two_reads ≡ true
unfolding cuts
two_reads-cuts = refl

send-arrives_example :
    callbacks
      (got (take 4 (send two_writes packet).wire))
      two_reads
      (some (record { dead = false; rpdu = idle; handed = [] }))
    ≡ some (record { dead = false; rpdu = idle; handed = framed packet ∷ [] })
send-arrives_example =
    send-arrives two_writes packet two_reads [] (omega arith) (omega arith) two_writes-sent
      two_reads-text two_reads-cuts

-- A clock that is exact: 0, 1, 3, 7, ... seconds.
abbrev clock : ℕ → Timespec
clock k = record { tv_sec = 2 ^ k - 1; tv_nsec = 0 }

abbrev three_bytes : List Put
three_bytes = byte 7 ∷ bytes (1 ∷ 2 ∷ []) ∷ []

puts-Bounded_example :
    (length (puts three_bytes marshall).buf ≤ (puts three_bytes marshall).capa)
    × ((puts three_bytes marshall).buf ≡ marshall.buf ++ content three_bytes)
    × ((puts three_bytes marshall).capa < 2 ^ 31)
puts-Bounded_example = puts-Bounded three_bytes (unfold content in omega arith)
