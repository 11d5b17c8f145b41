-- ===== src/Yfs/Contents.antt =====
-- The contents of a file (yfs_client.cc): what setsize, write and read do to the bytes. The offset is
-- not negative, and no sum reaches 2 ^ 64.
use frangipani_yfs.Prelude.{
  ℕ, zero, suc, ◌+◌, ◌-◌, ◌≤◌, ◌≡◌, refl, sym, ap, ◌∙◌, true, false, [], ◌∷◌, ◌++◌, leb, ltb,
  if◌then◌else◌, Bytes, length, take, drop, replicate, arith, length-append, length-drop,
  length-take_le, length-replicate, take-append, drop-append, Bool-cases, inl, inr,
}

-- `buf.resize(size, '\0')`, which is also what `buf.resize(size)` fills with.
unfoldable pub resize : ℕ → Bytes → Bytes
resize n s = take n s ++ replicate (n - length s) 0

-- setsize's two branches are the same call.
unfoldable pub sized : ℕ → Bytes → Bytes
unfolding resize
sized size buf = if ltb (length buf) size then resize size buf else resize size buf

-- `memcpy(&s[off], data, …)` inside the string.
unfoldable pub copy_at : ℕ → Bytes → Bytes → Bytes
copy_at off buf s = take off s ++ (buf ++ drop (off + length buf) s)

unfoldable pub written : ℕ → Bytes → Bytes → Bytes
unfolding resize copy_at
written off buf s =
    if ltb (length s) (off + length buf)
    then copy_at off buf (resize (off + length buf) s)
    else copy_at off buf s

-- read's test of the offset, and the rest of it.
unfoldable pub read_part : ℕ → ℕ → Bytes → Bytes
read_part size off s =
    if leb (length s) off
    then []
    else if ltb (length s) (off + size)
    then take (length s - off) (drop off s)
    else take size (drop off s)

pub length-resize : (n : ℕ) (s : Bytes) → length (resize n s) ≡ n
unfolding resize
length-resize n s = elim (Bool-cases (leb n (length s))) [
  | inl y ↦ omega (
    arith,
    length-append (take n s) (replicate (n - length s) 0),
    length-take_le n s (ground arith),
    length-replicate {A = ℕ} (n - length s) 0,
    le_of n (length s) y,
  )
  | inr m ↦ omega (
    arith,
    length-append (take n s) (replicate (n - length s) 0),
    length-replicate {A = ℕ} (n - length s) 0,
    ap length (take_all n s (gt_of n (length s) m)),
    gt_of n (length s) m,
  )
]
  where
    le_of : (a b : ℕ) → leb a b ≡ true → a ≤ b
    le_of a b h = ground arith

    gt_of : (a b : ℕ) → leb a b ≡ false → b ≤ a
    gt_of a b h = ground arith

    take_all : (a : ℕ) (t : Bytes) → length t ≤ a → take a t ≡ t
    take_all zero [] h = refl
    take_all zero (x ∷ t) h = absurd (omega arith)
    take_all (suc a) [] h = refl
    take_all (suc a) (x ∷ t) h = ap (◌∷◌ x) (take_all a t (omega arith))

drop_split : (n : ℕ) (xs ys : Bytes) → n ≡ length xs → drop n (xs ++ ys) ≡ ys
drop_split n xs ys h = rw h (drop-append xs ys)

take_split : (n : ℕ) (xs ys : Bytes) → n ≡ length xs → take n (xs ++ ys) ≡ xs
take_split n xs ys h = rw h (take-append xs ys)

copy-is :
    (off : ℕ) (buf s : Bytes) → copy_at off buf s ≡ take off s ++ (buf ++ drop (off + length buf) s)
unfolding copy_at
copy-is off buf s = refl

copy-read :
    (off : ℕ) (buf s : Bytes)
    → off + length buf ≤ length s
    → take (length buf) (drop off (copy_at off buf s)) ≡ buf
copy-read off buf s h =
    let rest = drop (off + length buf) s in
    let e = drop_split off (take off s) (buf ++ rest) (sym (length-take_le off s (omega arith))) in
    ap (λ t. take (length buf) (drop off t)) (copy-is off buf s)
    ∙ ap (take (length buf)) e
    ∙ take-append buf rest

length-copy :
    (off : ℕ) (buf s : Bytes) → off + length buf ≤ length s → length (copy_at off buf s) ≡ length s
length-copy off buf s h =
    ap length (copy-is off buf s)
    ∙ omega (
      arith,
      length-append (take off s) (buf ++ drop (off + length buf) s),
      length-append buf (drop (off + length buf) s),
      length-take_le off s (omega arith),
      length-drop (off + length buf) s,
    )

-- A write at an offset keeps what precedes it and what follows it.
copy-before :
    (off : ℕ) (buf s : Bytes)
    → off + length buf ≤ length s
    → take off (copy_at off buf s) ≡ take off s
copy-before off buf s h =
    ap (take off) (copy-is off buf s)
    ∙ take_split off (take off s) (buf ++ drop (off + length buf) s)
        (sym (length-take_le off s (omega arith)))

assoc : (x y z : Bytes) → x ++ (y ++ z) ≡ (x ++ y) ++ z
assoc [] y z = refl
assoc (a ∷ x) y z = ap (◌∷◌ a) (assoc x y z)

copy-after :
    (off : ℕ) (buf s : Bytes)
    → off + length buf ≤ length s
    → drop (off + length buf) (copy_at off buf s) ≡ drop (off + length buf) s
copy-after off buf s h =
    let rest = drop (off + length buf) s in
    ap (drop (off + length buf)) (copy-is off buf s ∙ assoc (take off s) buf rest)
    ∙ drop_split (off + length buf) (take off s ++ buf) rest
        (omega (arith, length-append (take off s) buf, length-take_le off s (omega arith)))

-- The bytes that a write leaves: read there, they are the data; what precedes the offset and what
-- follows the data is that of the old content, filled with zeros up to the end of the data; and the
-- length is the larger of the old one and the end of the data.
pub written-read :
    (off : ℕ) (buf s : Bytes)
    → 1 ≤ length buf
    → (read_part (length buf) off (written off buf s) ≡ buf)
      × (take off (written off buf s)
          ≡ take off (if ltb (length s) (off + length buf) then resize (off + length buf) s else s))
      × (drop (off + length buf) (written off buf s)
          ≡ drop
              (off + length buf)
              (if ltb (length s) (off + length buf) then resize (off + length buf) s else s))
      × (length (written off buf s)
          ≡ (if ltb (length s) (off + length buf) then off + length buf else length s))
unfolding written read_part
written-read off buf s h = elim (Bool-cases (ltb (length s) (off + length buf))) [
  | inl y ↦
      let big = length-resize (off + length buf) s in
      rw y
        (copied off buf (resize (off + length buf) s) (off + length buf) h (omega (arith, big)) big)
  | inr n ↦ rw n (copied off buf s (length s) h (ground arith) refl)
]
  where
    copied :
        (off : ℕ) (buf t : Bytes) (n : ℕ)
        → 1 ≤ length buf
        → off + length buf ≤ length t
        → length t ≡ n
        → (read_part (length buf) off (copy_at off buf t) ≡ buf)
          × (take off (copy_at off buf t) ≡ take off t)
          × (drop (off + length buf) (copy_at off buf t) ≡ drop (off + length buf) t)
          × (length (copy_at off buf t) ≡ n)
    copied off buf t n k h e = (
      ground (arith, copy-read off buf t h, length-copy off buf t h),
      copy-before off buf t h,
      copy-after off buf t h,
      length-copy off buf t h ∙ e,
    )
