-- ===== src/Rpc/Connection/Framing.antt =====
-- A packet that is sent over a connection of rpc/connection.cc arrives whole.
use frangipani_yfs.Prelude.{
  ℕ, zero, suc, ◌+◌, ◌-◌, ◌^◌, ◌≤◌, ◌<◌, ◌≡◌, ◌≢◌, refl, ap, sym, ◌∙◌, Bool, true, false, ◌&&◌, [],
  ◌∷◌, ◌++◌, List, Bytes, leb, ltb, ◌==◌, if◌then◌else◌, Option, none, some, length, take, drop,
  arith, if_cases, append_assoc, append-nil, length-append, length-drop, Bool-cases, inl, inr,
}
use frangipani_yfs.Rpc.Marshal.{Unmarshall}
use frangipani_yfs.Rpc.Basic.{enc_u32, get_u32-enc}
use frangipani_yfs.Rpc.Connection.{
  max_pdu, Read, got, closed, failed, idle, goes, ntohl, on_header, on_bytes, on_data, then_data,
  readpdu, Conn, is_whole, is_short, bytes_of, hand_over, on_read, read_cb, Write, wrote, refused,
  Writer, framed, on_write, writepdu, writes, send, is_sent,
}

-- The reads of a body of `n` bytes: pieces that are not empty, and reads that must wait.
unfoldable pub cuts : ℕ → List Read → Bool
cuts n [] = n == 0
cuts n (got b ∷ ds) =
    let rest = cuts (n - length b) ds in ltb 0 (length b) && (leb (length b) n && rest)
cuts n (closed again ∷ ds) = false
cuts n (failed again ∷ ds) = let rest = cuts n ds in again && (ltb 0 n && rest)

unfoldable pub text : List Read → Bytes
text [] = []
text (got b ∷ ds) = b ++ text ds
text (closed again ∷ ds) = text ds
text (failed again ∷ ds) = text ds

-- The callbacks of a connection in turn; the reads of a header are those given.
unfoldable pub callbacks : Read → List Read → Option Conn → Option Conn
unfolding read_cb
callbacks h [] o = o
callbacks h (d ∷ ds) none = none
callbacks h (d ∷ ds) (some c) = callbacks h ds (read_cb h d true c)

-- A connection in the middle of a packet.
abbrev within : Bytes → ℕ → List Bytes → Conn
within a sz hs = record { dead = false; rpdu = record { buf = some a; sz = sz }; handed = hs }

abbrev resting : List Bytes → Conn
resting hs = record { dead = false; rpdu = idle; handed = hs }

read_cb-piece :
    (h : Read) (a b : Bytes) (sz : ℕ) (hs : List Bytes)
    → 4 ≤ length a
    → length a < sz
    → length a + length b < sz
    → read_cb h (got b) true (within a sz hs) ≡ some (within (a ++ b) sz hs)
unfolding read_cb readpdu then_data on_data on_bytes on_read hand_over is_whole is_short
read_cb-piece h a b sz hs four lt more = ground (arith, length-append a b)

read_cb-last :
    (h : Read) (a b : Bytes) (sz : ℕ) (hs : List Bytes)
    → length a < sz
    → length a + length b ≡ sz
    → read_cb h (got b) true (within a sz hs) ≡ some (resting ((a ++ b) ∷ hs))
unfolding read_cb readpdu then_data on_data on_bytes on_read hand_over is_whole is_short bytes_of
read_cb-last h a b sz hs lt all = ground (arith, length-append a b)

read_cb-wait :
    (h : Read) (a : Bytes) (sz : ℕ) (hs : List Bytes)
    → length a < sz
    → read_cb h (failed true) true (within a sz hs) ≡ some (within a sz hs)
unfolding read_cb readpdu then_data on_data on_bytes on_read hand_over is_whole is_short
read_cb-wait h a sz hs lt = ground arith

cuts-none : (ds : List Read) → cuts 0 ds ≡ true → ds ≡ []
unfolding cuts
cuts-none [] c = refl
cuts-none (got b ∷ ds) c = absurd (ground arith)
cuts-none (closed e ∷ ds) c = cc
cuts-none (failed e ∷ ds) c = absurd (ground arith)

callbacks-body :
    (h : Read) (ds : List Read) (a : Bytes) (sz : ℕ) (hs : List Bytes)
    → 4 ≤ length a
    → length a < sz
    → cuts (sz - length a) ds ≡ true
    → callbacks h ds (some (within a sz hs)) ≡ some (resting ((a ++ text ds) ∷ hs))
unfolding callbacks cuts text
callbacks-body h [] a sz hs four lt c = absurd (ground arith)
callbacks-body h (closed e ∷ ds) a sz hs four lt c = cc
callbacks-body h (failed true ∷ ds) a sz hs four lt c =
    rw (read_cb-wait h a sz hs lt) (callbacks-body h ds a sz hs four lt (ground arith))
callbacks-body h (failed false ∷ ds) a sz hs four lt c = cc
callbacks-body h (got b ∷ ds) a sz hs four lt c = elim (Bool-cases (length a + length b == sz)) [
  | inl e ↦
      let z : ds ≡ [] = cuts-none ds (ground arith) in
      rw (read_cb-last h a b sz hs lt (ground arith)) (rw z (rw append-nil refl))
  | inr e ↦ rw (read_cb-piece h a b sz hs four lt (ground arith)) (
      rw (sym (append_assoc a b (text ds))) (
        callbacks-body h ds (a ++ b) sz hs (omega (arith, length-append a b))
          (ground (arith, length-append a b)) (ground (arith, length-append a b))))
]

ntohl-enc : (n : ℕ) → n < 2 ^ 32 → ntohl (enc_u32 n) ≡ n
unfolding ntohl
ntohl-enc n h =
    ap (λ (p : ℕ × Unmarshall). p.0)
      (get_u32-enc n (record { buf = enc_u32 n; ind = 0; ok = true; fault = false }) [] h refl)

on_header-enc :
    (n : ℕ)
    → n ≤ max_pdu
    → on_header (got (enc_u32 n)) idle ≡ goes (record { buf = some (enc_u32 n); sz = n })
unfolding on_header
on_header-enc n max = rw (ntohl-enc n (omega arith)) (ground arith)

-- The read of a header puts the connection in the middle of a packet.
read_cb-first :
    (n : ℕ) (h d : Read) (hs : List Bytes)
    → 4 < n
    → n ≤ max_pdu
    → read_cb (got (enc_u32 n)) d true (resting hs) ≡ read_cb h d true (within (enc_u32 n) n hs)
unfolding read_cb readpdu then_data is_short
read_cb-first n h d hs four max = ground (arith, on_header-enc n max)

callbacks-first :
    (n : ℕ) (h : Read) (ds : List Read) (hs : List Bytes)
    → 4 < n
    → n ≤ max_pdu
    → cuts (n - 4) ds ≡ true
    → callbacks (got (enc_u32 n)) ds (some (resting hs))
      ≡ some (resting ((enc_u32 n ++ text ds) ∷ hs))
unfolding callbacks cuts
callbacks-first n h [] hs four max c = absurd (ground arith)
callbacks-first n h (d ∷ ds) hs four max c =
    ap (λ o. callbacks (got (enc_u32 n)) ds o) (read_cb-first n (got (enc_u32 n)) d hs four max)
    ∙ callbacks-body (got (enc_u32 n)) (d ∷ ds) (enc_u32 n) n hs (omega arith) four c

-- What the socket took is the front of the packet.
take-nil : (n : ℕ) → take {A = ℕ} n [] ≡ []
take-nil zero = refl
take-nil (suc n) = refl

take-take : (n m : ℕ) (xs : Bytes) → take n xs ++ take m (drop n xs) ≡ take (n + m) xs
take-take zero m xs = ap (λ k. take k xs) (plus m)
  where
    plus : (m : ℕ) → m ≡ 0 + m
    plus m = omega arith
take-take (suc n) m [] = take-nil m ∙ sym (take-nil (suc n + m))
take-take (suc n) m (x ∷ xs) = ap (◌∷◌ x) (take-take n m xs) ∙ ap (λ k. take k (x ∷ xs)) (plus n m)
  where
    plus : (n m : ℕ) → suc (n + m) ≡ suc n + m
    plus n m = omega arith

length-framed : (b : Bytes) → 4 ≤ length b → length (framed b) ≡ length b
unfolding framed
length-framed b h = omega (arith, length-drop 4 b)

framed-framed : (b : Bytes) → 4 ≤ length b → framed (framed b) ≡ framed b
unfolding framed
framed-framed b h = ap (λ n. enc_u32 n ++ drop 4 b) (length-framed b h)

abbrev Front : Bytes → Writer → Type 0
Front b w =
    (length w.buf ≡ length b)
    × (framed w.buf ≡ framed b)
    × (w.wire ≡ take w.solong (framed b))
    × (w.solong ≢ 0 → w.buf ≡ framed b)

on_write-Front :
    (x : Write) (b : Bytes) (w : Writer) → Front b w → w.buf ≡ framed b → Front b (on_write x w)
unfolding on_write
on_write-Front (wrote n) b w (l, f, e, k) q =
    (l, f, rw (e, q) (take-take w.solong n (framed b)), λ z. q)
on_write-Front (refused true) b w h q = h
on_write-Front (refused false) b w h q = h

headed-Front :
    (b : Bytes) (w : Writer)
    → 4 ≤ length b
    → Front b w
    → let v = record w { buf = if w.solong == 0 then framed w.buf else w.buf } in
      Front b v × (v.buf ≡ framed b)
headed-Front b w four (l, f, e, k) =
    if_cases (λ y. Front b (record w { buf = y }) × (y ≡ framed b)) (w.solong == 0)
      (λ t.
        ((ap length f ∙ length-framed b four, ap framed f ∙ framed-framed b four, e, λ z. f), f))
      (λ n. ((l, f, e, k), k (λ z. ground arith)))

writepdu-Front :
    (x : Write) (b : Bytes) (w : Writer) → 4 ≤ length b → Front b w → Front b (writepdu x w)
unfolding writepdu
writepdu-Front x b w four h =
    if_cases (Front b) (w.solong == length w.buf) (λ t. h)
      (λ n. let (g, q) = headed-Front b w four h in on_write-Front x b _ g q)

writes-Front :
    (xs : List Write) (b : Bytes) (w : Writer) → 4 ≤ length b → Front b w → Front b (writes xs w)
unfolding writes
writes-Front [] b w four h = h
writes-Front (x ∷ xs) b w four h =
    if_cases (Front b) w.broken (λ t. h)
      (λ n. writes-Front xs b (writepdu x w) four (writepdu-Front x b w four h))

take-all : (n : ℕ) (xs : Bytes) → n ≡ length xs → take n xs ≡ xs
take-all zero [] h = refl
take-all zero (x ∷ xs) h = absurd (omega (arith, h))
take-all (suc n) [] h = absurd (omega (arith, h))
take-all (suc n) (x ∷ xs) h = ap (◌∷◌ x) (take-all n xs (omega (arith, h)))

sent-framed :
    (xs : List Write) (b : Bytes)
    → 4 ≤ length b
    → is_sent (send xs b) ≡ true
    → (send xs b).wire ≡ framed b
unfolding send is_sent
sent-framed xs b four h =
    let w = writes xs (record { buf = b; solong = 0; broken = false; wire = [] }) in
    let (l, f, e, k) = writes-Front xs b _ four (refl, refl, refl, λ z. absurd (z refl)) in
    e ∙ take-all w.solong (framed b) (ground (arith, length-framed b four))

-- A packet that is sent arrives whole: when `send` has written a packet of more than 4 bytes and at
-- most 10 MB, in however many pieces, and the receiver reads what was written, its first four bytes at
-- once and the others in any pieces, with waits between them, then just that packet, its length in the
-- first four bytes, is handed over, and the connection is ready for the next one.
pub send-arrives :
    (xs : List Write) (b : Bytes) (ds : List Read) (hs : List Bytes)
    → 4 < length b
    → length b ≤ max_pdu
    → is_sent (send xs b) ≡ true
    → text ds ≡ drop 4 (send xs b).wire
    → cuts (length b - 4) ds ≡ true
    → callbacks
        (got (take 4 (send xs b).wire))
        ds
        (some (record { dead = false; rpdu = idle; handed = hs }))
      ≡ some (record { dead = false; rpdu = idle; handed = framed b ∷ hs })
unfolding framed
send-arrives xs b ds hs four max sent same c =
    let e = sent-framed xs b (omega arith) sent in
    ap (λ w. callbacks (got (take 4 w)) ds (some (resting hs))) e
    ∙ callbacks-first (length b) (got []) ds hs four max c
    ∙ ap (λ t. some (resting ((enc_u32 (length b) ++ t) ∷ hs))) (same ∙ ap (drop 4) e)
