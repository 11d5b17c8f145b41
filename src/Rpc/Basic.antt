-- ===== src/Rpc/Basic.antt =====
-- The codecs of the number types and of strings (rpc/rpc.cc).
use frangipani_yfs.Prelude.{
  ℕ, ◌+◌, ◌*◌, ◌/◌, ◌%◌, ◌^◌, ◌≤◌, ◌<◌, ◌≡◌, refl, ap, ◌∙◌, true, [], ◌∷◌, ◌++◌, Bytes, ltb, ltb→lt,
  if_true, length, arith, length-append, take-append, append_assoc, length-drop,
}
use frangipani_yfs.Rpc.Marshal.{
  Marshall, Unmarshall, put_byte, put_bytes, put_u8, put_u16, put_u32, put_u64, put_string,
  get_bytes, get_u8, get_u16, get_u32, get_u64, get_string,
}
use frangipani_yfs.Rpc.Codec.{
  Codec, IsReady, advance, ahead, ahead-advance, ahead-tail, get_byte-at, get_u32-at,
}

-- unsigned and int
abbrev pub enc_u32 : ℕ → Bytes
enc_u32 x = (x / 2 ^ 24) % 256 ∷ (x / 2 ^ 16) % 256 ∷ (x / 2 ^ 8) % 256 ∷ x % 256 ∷ []

pub put_u32-enc : (x : ℕ) (m : Marshall) → (put_u32 x m).buf ≡ m.buf ++ enc_u32 x
unfolding put_u32 put_byte
put_u32-enc x m = simp append_assoc

pub get_u32-enc :
    (x : ℕ) (u : Unmarshall) (bs : Bytes)
    → x < 2 ^ 32
    → ahead u ≡ enc_u32 x ++ bs
    → get_u32 u ≡ (x, advance 4 u)
get_u32-enc x u bs small h = get_u32-at _ _ _ _ u bs h ∙ ap (λ k. (k, advance 4 u)) (omega arith)

unfoldable pub u32 : Codec ℕ
u32 = record {
  enc = enc_u32;
  fits = λ x. ltb x (2 ^ 32);
  put = put_u32;
  get = get_u32;
  put-enc = λ x m h. put_u32-enc x m;
  get-enc = λ x u bs small r h. get_u32-enc x u bs (ltb→lt _ _ small) h;
}

pub put_u8-enc : (x : ℕ) (m : Marshall) → (put_u8 x m).buf ≡ m.buf ++ x % 256 ∷ []
unfolding put_u8 put_byte
put_u8-enc x m = refl

pub get_u8-enc :
    (x : ℕ) (u : Unmarshall) (bs : Bytes)
    → x < 256
    → ahead u ≡ (x % 256 ∷ []) ++ bs
    → get_u8 u ≡ (x, advance 1 u)
unfolding get_u8
get_u8-enc x u bs small h = get_byte-at _ u bs h ∙ ap (λ k. (k, advance 1 u)) (omega arith)

unfoldable pub u8 : Codec ℕ
u8 = record {
  enc = λ x. x % 256 ∷ [];
  fits = λ x. ltb x 256;
  put = put_u8;
  get = get_u8;
  put-enc = λ x m h. put_u8-enc x m;
  get-enc = λ x u bs small r h. get_u8-enc x u bs (ltb→lt _ _ small) h;
}

abbrev pub enc_u16 : ℕ → Bytes
enc_u16 x = (x / 2 ^ 8) % 256 ∷ x % 256 ∷ []

pub put_u16-enc : (x : ℕ) (m : Marshall) → (put_u16 x m).buf ≡ m.buf ++ enc_u16 x
unfolding put_u16 put_byte
put_u16-enc x m = simp append_assoc

pub get_u16-enc :
    (x : ℕ) (u : Unmarshall) (bs : Bytes)
    → x < 2 ^ 16
    → ahead u ≡ enc_u16 x ++ bs
    → get_u16 u ≡ (x, advance 2 u)
unfolding get_u16
get_u16-enc x u bs small h =
    rw (get_byte-at _ u _ h, get_byte-at _ (advance 1 u) bs (ahead-tail _ u _ h))
      (λ i. (halves i, record u { ind = moved i }))
  where
    halves : (x / 2 ^ 8) % 256 * 2 ^ 8 + x % 256 ≡ x
    halves = omega arith

    moved : u.ind + 1 + 1 ≡ u.ind + 2
    moved = omega arith

unfoldable pub u16 : Codec ℕ
u16 = record {
  enc = enc_u16;
  fits = λ x. ltb x (2 ^ 16);
  put = put_u16;
  get = get_u16;
  put-enc = λ x m h. put_u16-enc x m;
  get-enc = λ x u bs small r h. get_u16-enc x u bs (ltb→lt _ _ small) h;
}

abbrev pub enc_u64 : ℕ → Bytes
enc_u64 x = enc_u32 (x / 2 ^ 32) ++ enc_u32 (x % 2 ^ 32)

pub put_u64-enc : (x : ℕ) (m : Marshall) → (put_u64 x m).buf ≡ m.buf ++ enc_u64 x
unfolding put_u64
put_u64-enc x m =
    put_u32-enc (x % 2 ^ 32) (put_u32 (x / 2 ^ 32) m)
    ∙ rw (put_u32-enc (x / 2 ^ 32) m)
        (append_assoc m.buf (enc_u32 (x / 2 ^ 32)) (enc_u32 (x % 2 ^ 32)))

pub get_u64-enc :
    (x : ℕ) (u : Unmarshall) (bs : Bytes)
    → x < 2 ^ 64
    → ahead u ≡ enc_u64 x ++ bs
    → get_u64 u ≡ (x, advance 8 u)
unfolding get_u64
get_u64-enc x u bs small h =
    rw
      (
        get_u32-enc (x / 2 ^ 32) u (enc_u32 (x % 2 ^ 32) ++ bs) (omega arith) h,
        get_u32-enc (x % 2 ^ 32) (advance 4 u) bs (omega arith)
            (ahead-advance u (enc_u32 (x / 2 ^ 32)) (enc_u32 (x % 2 ^ 32) ++ bs) h),
      )
      (λ i. (halves i, record u { ind = moved i }))
  where
    halves : (x / 2 ^ 32) * 2 ^ 32 + x % 2 ^ 32 ≡ x
    halves = omega arith

    moved : u.ind + 4 + 4 ≡ u.ind + 8
    moved = omega arith

unfoldable pub u64 : Codec ℕ
u64 = record {
  enc = enc_u64;
  fits = λ x. ltb x (2 ^ 64);
  put = put_u64;
  get = get_u64;
  put-enc = λ x m h. put_u64-enc x m;
  get-enc = λ x u bs small r h. get_u64-enc x u bs (ltb→lt _ _ small) h;
}

abbrev pub enc_string : Bytes → Bytes
enc_string s = enc_u32 (length s) ++ s

pub put_string-enc :
    (s : Bytes) (m : Marshall) → length s < 2 ^ 32 → (put_string s m).buf ≡ m.buf ++ enc_string s
unfolding put_string put_bytes
put_string-enc s m h =
    let e : length s % 2 ^ 32 ≡ length s = omega arith in
    rw e (rw (put_u32-enc (length s) m) (append_assoc m.buf (enc_u32 (length s)) s))

get_bytes-at :
    (s : Bytes) (u : Unmarshall) (bs : Bytes)
    → length s < 2 ^ 31
    → length u.buf < 2 ^ 31
    → u.ind + length s ≤ length u.buf
    → ahead u ≡ s ++ bs
    → get_bytes (length s) u ≡ (s, advance (length s) u)
unfolding get_bytes
get_bytes-at s u bs h small inside e = ground (arith, take-append s bs, e)

length-ahead :
    (u : Unmarshall) (x : ℕ) (xs : Bytes)
    → ahead u ≡ x ∷ xs
    → u.ind + length (x ∷ xs) ≡ length u.buf
length-ahead u x xs e = omega (arith, length-drop u.ind u.buf, ap length e)

pub get_string-enc :
    (s : Bytes) (u : Unmarshall) (bs : Bytes)
    → length s < 2 ^ 31
    → IsReady u
    → ahead u ≡ enc_string s ++ bs
    → get_string u ≡ (s, advance (length (enc_string s)) u)
unfolding get_string
get_string-enc s u bs h r e = rw (get_u32-enc (length s) u (s ++ bs) (omega arith) e) (
    if_true u.ok (get_bytes (length s) (advance 4 u)) ([], advance 4 u) r.ok
    ∙ get_bytes-at s (advance 4 u) bs h r.small
        (omega (arith, length-ahead u _ _ e, length-append s bs))
        (ahead-advance u (enc_u32 (length s)) (s ++ bs) e)
    ∙ λ i. (s, record u { ind = moved i }))
  where
    moved : u.ind + 4 + length s ≡ u.ind + length (enc_string s)
    moved = omega arith

pub below_2_32 : (n : ℕ) → ltb n (2 ^ 31) ≡ true → n < 2 ^ 32
below_2_32 n h = omega (arith, ltb→lt n (2 ^ 31) h)

-- The length of a string is an `unsigned`, and the buffer's an `int`.
unfoldable pub string : Codec Bytes
string = record {
  enc = enc_string;
  fits = λ s. ltb (length s) (2 ^ 31);
  put = put_string;
  get = get_string;
  put-enc = λ s m h. put_string-enc s m (below_2_32 _ h);
  get-enc = λ s u bs h r e. get_string-enc s u bs (ltb→lt _ _ h) r e;
}
