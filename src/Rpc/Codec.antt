-- ===== src/Rpc/Codec.antt =====
-- What `<<` and `>>` (rpc/marshall.h, rpc/rpc.cc) promise of a type, as an interface; the number and
-- string types, vectors, and the headers.
use frangipani_yfs.Prelude.{
  ℕ, zero, suc, ◌+◌, ◌*◌, ◌^◌, ◌<◌, ◌≡◌, refl, sym, ap, ◌∙◌, Bool, true, false, ◌&&◌, [], ◌∷◌, ◌++◌,
  List, Bytes, length, drop, arith, length-append, drop-append, append_assoc,
}
use native.Mathlib.Nat.{zero-add}
use frangipani_yfs.Rpc.Marshal.{Marshall, Unmarshall, get_byte, get_u32}

abbrev pub advance : ℕ → Unmarshall → Unmarshall
advance k u = record u { ind = u.ind + k }

-- The bytes at the read position.
abbrev pub ahead : Unmarshall → Bytes
ahead u = drop u.ind u.buf

-- An object that can be read from: no read failed, and the buffer's size is an `int`.
pub record IsReady (u : Unmarshall) : Type 0 where
  pub ok : u.ok ≡ true
  pub small : length u.buf < 2 ^ 31

-- `<<` appends `enc x`, and `>>` takes it off again and gives `x` back.
pub record Codec (A : Type 0) : Type 0 where
  pub enc : A → Bytes
  pub fits : A → Bool
  pub put : A → Marshall → Marshall
  pub get : Unmarshall → A × Unmarshall
  pub put-enc : (x : A) (m : Marshall) → fits x ≡ true → (put x m).buf ≡ m.buf ++ enc x
  pub get-enc :
      (x : A) (u : Unmarshall) (bs : Bytes)
      → fits x ≡ true
      → IsReady u
      → ahead u ≡ enc x ++ bs
      → get u ≡ (x, advance (length (enc x)) u)

drop_nil {ℓ} : {A : Type ℓ} (j : ℕ) → ◌≡◌ {A = List A} [] (drop j [])
drop_nil zero = refl
drop_nil (suc j) = refl

pub drop_add {ℓ} : {A : Type ℓ} (i j : ℕ) (xs : List A) → drop (i + j) xs ≡ drop j (drop i xs)
drop_add zero j xs = rw zero-add refl
drop_add (suc i) j [] = sym (drop_nil (suc i + j)) ∙ drop_nil j
drop_add (suc i) j (x ∷ xs) =
    let e : suc i + j ≡ suc (i + j) = omega arith in ap (λ k. drop k (x ∷ xs)) e ∙ drop_add i j xs

-- Behind what was read stands the rest.
pub ahead-advance :
    (u : Unmarshall) (xs bs : Bytes) → ahead u ≡ xs ++ bs → ahead (advance (length xs) u) ≡ bs
ahead-advance u xs bs h = drop_add u.ind (length xs) u.buf ∙ rw h (drop-append xs bs)

pub advance-IsReady : (k : ℕ) (u : Unmarshall) → IsReady u → IsReady (advance k u)
advance-IsReady k u r = record { ok = r.ok; small = r.small }

pub advance-advance : (i j : ℕ) (u : Unmarshall) → advance j (advance i u) ≡ advance (i + j) u
advance-advance i j u = ap (λ k. record u { ind = k }) (omega arith)

pub get_byte-at :
    (c : ℕ) (u : Unmarshall) (bs : Bytes) → ahead u ≡ c ∷ bs → get_byte u ≡ (c, advance 1 u)
unfolding get_byte
get_byte-at c u bs h = rw h

pub ahead-tail : (c : ℕ) (u : Unmarshall) (bs : Bytes) → ahead u ≡ c ∷ bs → ahead (advance 1 u) ≡ bs
ahead-tail c u bs h = ahead-advance u (c ∷ []) bs h

pub get_u32-at :
    (a b c d : ℕ) (u : Unmarshall) (bs : Bytes)
    → ahead u ≡ a ∷ b ∷ c ∷ d ∷ bs
    → get_u32 u ≡ (a * 2 ^ 24 + b * 2 ^ 16 + c * 2 ^ 8 + d, advance 4 u)
unfolding get_u32
get_u32-at a b c d u bs h =
    let h1 = ahead-tail a u _ h in
    let h2 = ahead-tail b (advance 1 u) _ h1 in
    let h3 = ahead-tail c (advance 1 (advance 1 u)) _ h2 in
    rw
      (
        get_byte-at a u _ h,
        get_byte-at b (advance 1 u) _ h1,
        get_byte-at c (advance 1 (advance 1 u)) _ h2,
        get_byte-at d (advance 1 (advance 1 (advance 1 u))) _ h3,
      )
      (ap (λ k. (a * 2 ^ 24 + b * 2 ^ 16 + c * 2 ^ 8 + d, record u { ind = k })) (omega arith))

-- One field after the other, as in the operators for a struct.
module _ {A B : Type 0} (a : Codec A) (b : Codec B) where
  pub seq_get : Unmarshall → (A × B) × Unmarshall
  seq_get u = let (x, u1) = a.get u in let (y, u2) = b.get u1 in ((x, y), u2)

  pub seq_put : A × B → Marshall → Marshall
  seq_put (x, y) m = b.put y (a.put x m)

  seq_put-enc :
      (p : A × B) (m : Marshall)
      → (a.fits p.0 && b.fits p.1) ≡ true
      → (seq_put p m).buf ≡ m.buf ++ (a.enc p.0 ++ b.enc p.1)
  unfolding seq_put
  seq_put-enc (x, y) m h =
      b.put-enc y (a.put x m) (ground arith)
      ∙ rw (a.put-enc x m (ground arith)) (append_assoc m.buf (a.enc x) (b.enc y))

  seq_get-enc :
      (p : A × B) (u : Unmarshall) (bs : Bytes)
      → (a.fits p.0 && b.fits p.1) ≡ true
      → IsReady u
      → ahead u ≡ (a.enc p.0 ++ b.enc p.1) ++ bs
      → seq_get u ≡ (p, advance (length (a.enc p.0 ++ b.enc p.1)) u)
  unfolding seq_get
  seq_get-enc (x, y) u bs h r e =
      let e1 = e ∙ append_assoc (a.enc x) (b.enc y) bs in
      let k = length (a.enc x) in
      rw
        (
          a.get-enc x u (b.enc y ++ bs) (ground arith) r e1,
          b.get-enc y (advance k u) bs (ground arith) (advance-IsReady k u r)
              (ahead-advance u (a.enc x) (b.enc y ++ bs) e1),
        )
        (λ i. ((x, y), record u { ind = moved i }))
    where
      moved : u.ind + length (a.enc x) + length (b.enc y) ≡ u.ind + length (a.enc x ++ b.enc y)
      moved = omega (arith, length-append (a.enc x) (b.enc y))

  unfoldable pub seq : Codec (A × B)
  unfolding seq_get seq_put seq_put-enc seq_get-enc
  seq = record {
    enc = λ p. a.enc p.0 ++ b.enc p.1;
    fits = λ p. a.fits p.0 && b.fits p.1;
    put = seq_put;
    get = seq_get;
    put-enc = seq_put-enc;
    get-enc = seq_get-enc;
  }

-- A struct in place of the tuple of its fields.
module _ {A B : Type 0} (make : A → B) (fields : B → A) (same : (y : B) → make (fields y) ≡ y) where
  pub via_get : Codec A → Unmarshall → B × Unmarshall
  via_get a u = let (x, u1) = a.get u in (make x, u1)

  via_get-enc :
      (a : Codec A) (y : B) (u : Unmarshall) (bs : Bytes)
      → a.fits (fields y) ≡ true
      → IsReady u
      → ahead u ≡ a.enc (fields y) ++ bs
      → via_get a u ≡ (y, advance (length (a.enc (fields y))) u)
  unfolding via_get
  via_get-enc a y u bs h r e =
      rw (a.get-enc (fields y) u bs h r e) (λ i. (same y i, advance (length (a.enc (fields y))) u))

  unfoldable pub via : Codec A → Codec B
  unfolding via_get via_get-enc
  via a = record {
    enc = λ y. a.enc (fields y);
    fits = λ y. a.fits (fields y);
    put = λ y m. a.put (fields y) m;
    get = via_get a;
    put-enc = λ y m h. a.put-enc (fields y) m h;
    get-enc = via_get-enc a;
  }

-- What is written is read back: into a buffer that starts with anything and ends with anything.
pub put-get :
    {A : Type 0} (c : Codec A) (x : A) (m : Marshall) (rest : Bytes)
    → c.fits x ≡ true
    → length ((c.put x m).buf ++ rest) < 2 ^ 31
    → c.get (record { buf = (c.put x m).buf ++ rest; ind = length m.buf; ok = true; fault = false })
      ≡ (
        x,
        record {
          buf = (c.put x m).buf ++ rest;
          ind = length (c.put x m).buf;
          ok = true;
          fault = false;
        },
      )
put-get c x m rest h small =
    let e = c.put-enc x m h in
    let b = (c.put x m).buf ++ rest in
    c.get-enc x (record { buf = b; ind = length m.buf; ok = true; fault = false }) rest h
      (record { ok = refl; small = small })
      (ap (λ y. drop (length m.buf) (y ++ rest)) e
        ∙ ap (drop (length m.buf)) (append_assoc m.buf (c.enc x) rest)
        ∙ drop-append m.buf (c.enc x ++ rest))
    ∙ ap (λ k. (x, record { buf = b; ind = k; ok = true; fault = false }))
        (omega (arith, ap length e, length-append m.buf (c.enc x)))
