-- ===== src/Rpc/Marshal.antt =====
-- marshall and unmarshall (rpc/marshall.h, rpc/rpc.cc). An `int` or `unsigned` is its bit pattern.
use frangipani_yfs.Prelude.{
  ℕ, ◌+◌, ◌*◌, ◌/◌, ◌%◌, ◌^◌, Bool, true, false, ◌&&◌, [], ◌∷◌, ◌++◌, Bytes, leb, ltb, ◌==◌,
  if◌then◌else◌, length, drop, take, replicate,
}

-- RPC_HEADER_SZ without checksums: four bytes for the size and five for a request's header.
abbrev pub header_sz : ℕ
header_sz = 24

-- `buf` is the buffer up to `_ind`, so `_ind` is its length, and `capa` is what was allocated,
-- an `int`: it wraps around, and from 2^31 on it stands for a negative number.
pub record Marshall : Type 0 where
  pub buf : Bytes
  pub capa : ℕ

-- The constructor leaves room for the header.
unfoldable pub marshall : Marshall
marshall = record { buf = replicate header_sz 0; capa = 1024 }

unfoldable pub put_byte : ℕ → Marshall → Marshall
put_byte x m = record {
  buf = m.buf ++ x % 256 ∷ [];
  capa = if leb m.capa (length m.buf) then m.capa * 2 % 2 ^ 32 else m.capa;
}

unfoldable pub put_bytes : Bytes → Marshall → Marshall
put_bytes p m =
    let n = length p in
    record {
      buf = m.buf ++ p;
      capa =
          if ltb m.capa (length m.buf + n)
          then (if ltb n m.capa then 2 * m.capa % 2 ^ 32 else (m.capa + n) % 2 ^ 32)
          else m.capa;
    }

unfoldable pub put_u8 : ℕ → Marshall → Marshall
unfolding put_byte
put_u8 x m = put_byte x m

unfoldable pub put_u16 : ℕ → Marshall → Marshall
unfolding put_byte
put_u16 x m = put_byte x (put_byte (x / 2 ^ 8) m)

-- Network order. `marshall::pack` writes the same four bytes.
unfoldable pub put_u32 : ℕ → Marshall → Marshall
unfolding put_byte
put_u32 x m = put_byte x (put_byte (x / 2 ^ 8) (put_byte (x / 2 ^ 16) (put_byte (x / 2 ^ 24) m)))

unfoldable pub put_u64 : ℕ → Marshall → Marshall
unfolding put_u32
put_u64 x m = put_u32 (x % 2 ^ 32) (put_u32 (x / 2 ^ 32) m)

unfoldable pub put_string : Bytes → Marshall → Marshall
unfolding put_u32 put_bytes
put_string s m = put_bytes s (put_u32 (length s % 2 ^ 32) m)

-- `fault` records a read outside the buffer.
pub record Unmarshall : Type 0 where
  pub buf : Bytes
  pub ind : ℕ
  pub ok : Bool
  pub fault : Bool

unfoldable pub next_byte : Unmarshall → Bytes → ℕ × Unmarshall
next_byte u [] = (0, record u { ok = false })
next_byte u (c ∷ s) = (c, record u { ind = u.ind + 1 })

-- unmarshall::rawbyte. Every caller keeps the low eight bits.
unfoldable pub get_byte : Unmarshall → ℕ × Unmarshall
unfolding next_byte
get_byte u = next_byte u (drop u.ind u.buf)

-- unmarshall::rawbytes. The test is made in `unsigned`, so a length near 2^32 passes it.
unfoldable pub get_bytes : ℕ → Unmarshall → Bytes × Unmarshall
get_bytes n u =
    if ltb (length u.buf) ((u.ind + n) % 2 ^ 32)
    then ([], record u { ok = false })
    else if leb (u.ind + n) (length u.buf)
    then (take n (drop u.ind u.buf), record u { ind = u.ind + n })
    else ([], record u { fault = true })

unfoldable pub get_u8 : Unmarshall → ℕ × Unmarshall
unfolding get_byte
get_u8 u = get_byte u

unfoldable pub get_u16 : Unmarshall → ℕ × Unmarshall
get_u16 u = let (a, u1) = get_byte u in let (b, u2) = get_byte u1 in (a * 2 ^ 8 + b, u2)

-- `unmarshall::unpack` reads the same four bytes.
unfoldable pub get_u32 : Unmarshall → ℕ × Unmarshall
get_u32 u =
    let (a, u1) = get_byte u in
    let (b, u2) = get_byte u1 in
    let (c, u3) = get_byte u2 in
    let (d, u4) = get_byte u3 in (a * 2 ^ 24 + b * 2 ^ 16 + c * 2 ^ 8 + d, u4)

unfoldable pub get_u64 : Unmarshall → ℕ × Unmarshall
get_u64 u = let (h, u1) = get_u32 u in let (l, u2) = get_u32 u1 in (h * 2 ^ 32 + l, u2)

unfoldable pub get_string : Unmarshall → Bytes × Unmarshall
get_string u = let (n, u1) = get_u32 u in if u1.ok then get_bytes n u1 else ([], u1)

unfoldable pub okdone : Unmarshall → Bool
okdone u = u.ok && u.ind == length u.buf
