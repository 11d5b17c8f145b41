-- ===== src/Rpc/Buffer.antt =====
-- The bounds of the buffers of marshall and unmarshall (rpc/rpc.cc).
use frangipani_yfs.Prelude.{
  ap, ◌*◌, ℕ, ◌+◌, ◌^◌, ◌%◌, ◌≤◌, ◌<◌, ◌≡◌, ◌↔◌, sym, ◌∙◌, true, false, [], ◌∷◌, ◌++◌, List, Bytes,
  length, arith, length-append, append-nil, append_assoc, length-replicate,
}
use frangipani_yfs.Rpc.Marshal.{
  Marshall, marshall, put_byte, put_bytes, header_sz, Unmarshall, get_bytes,
}

-- What every `<<` is made of.
pub data Put : Type 0 where
  byte : ℕ → Put
  bytes : Bytes → Put

unfoldable pub puts : List Put → Marshall → Marshall
unfolding put_byte put_bytes
puts [] m = m
puts (byte x ∷ ps) m = puts ps (put_byte x m)
puts (bytes p ∷ ps) m = puts ps (put_bytes p m)

unfoldable pub content : List Put → Bytes
content [] = []
content (byte x ∷ ps) = x % 256 ∷ content ps
content (bytes p ∷ ps) = p ++ content ps

abbrev Fits : Marshall → Type 0
Fits m = (length m.buf ≤ m.capa) × (1 ≤ m.capa) × (m.capa ≤ 1024 + 2 * length m.buf)

put_byte-Fits : (x : ℕ) (m : Marshall) → length m.buf < 2 ^ 29 → Fits m → Fits (put_byte x m)
unfolding put_byte
put_byte-Fits x m small (l, p, u) = (
  ground (arith, length-append m.buf (x % 256 ∷ [])),
  ground arith,
  ground (arith, length-append m.buf (x % 256 ∷ [])),
)

put_bytes-Fits :
    (p : Bytes) (m : Marshall) → length m.buf + length p < 2 ^ 29 → Fits m → Fits (put_bytes p m)
unfolding put_bytes
put_bytes-Fits p m small (l, q, u) =
    (ground (arith, length-append m.buf p), ground arith, ground (arith, length-append m.buf p))

puts-Fits :
    (ps : List Put) (m : Marshall)
    → length m.buf + length (content ps) < 2 ^ 29
    → Fits m
    → Fits (puts ps m) × ((puts ps m).buf ≡ m.buf ++ content ps)
unfolding puts content
puts-Fits [] m small h = (h, sym (append-nil m.buf))
puts-Fits (byte x ∷ ps) m small h =
    let (f, e) =
      puts-Fits ps (put_byte x m)
        (unfold put_byte in omega (arith, length-append m.buf (x % 256 ∷ [])))
        (put_byte-Fits x m (omega arith) h) in
    (f, e ∙ unfold put_byte in append_assoc m.buf (x % 256 ∷ []) (content ps))
puts-Fits (bytes p ∷ ps) m small h =
    let (f, e) =
      puts-Fits ps (put_bytes p m)
        (unfold put_bytes in omega (arith, length-append m.buf p, length-append p (content ps)))
        (put_bytes-Fits p m (omega (arith, length-append p (content ps))) h) in
    (f, e ∙ unfold put_bytes in append_assoc m.buf p (content ps))

-- Marshalling stays in its buffer: as long as the content with the room for the header is shorter than
-- 2^29 bytes, the content never exceeds what was allocated, it is the room for the header with all that
-- was written behind it, and the capacity stays below 2^31, so that no `int` overflows.
pub puts-Bounded :
    (ps : List Put)
    → header_sz + length (content ps) < 2 ^ 29
    → (length (puts ps marshall).buf ≤ (puts ps marshall).capa)
      × ((puts ps marshall).buf ≡ marshall.buf ++ content ps)
      × ((puts ps marshall).capa < 2 ^ 31)
unfolding marshall
puts-Bounded ps small =
    let room = length-replicate {A = ℕ} header_sz 0 in
    let (f, e) =
      puts-Fits ps marshall (omega (arith, room))
        (omega (arith, room), omega arith, omega (arith, room)) in
    (f.0, e, omega (arith, f.2, ap length e, length-append marshall.buf (content ps), room))

-- A read leaves the buffer only by the wrap-around of its test: a read of `n` bytes from a position
-- within the buffer faults exactly if the sum of the two reaches 2^32 and what is left of it does not
-- exceed the length.
pub get_bytes-fault :
    (n : ℕ) (u : Unmarshall)
    → n < 2 ^ 32
    → u.ind ≤ length u.buf
    → length u.buf < 2 ^ 32
    → u.fault ≡ false
    → ((get_bytes n u).1.fault ≡ true)
      ↔ ((2 ^ 32 ≤ u.ind + n) × (u.ind + n ≤ 2 ^ 32 + length u.buf))
unfolding get_bytes
get_bytes-fault n u small at_in len ok = (λ h. (ground arith, ground arith), λ (a, b). ground arith)
