-- ===== src/Rpc/Structs.antt =====
-- The operators `<<` and `>>` of the structs: vectors (rpc/marshall.h), paxos_protocol.h and
-- extent_protocol.h.
use frangipani_yfs.Prelude.{
  ℕ, zero, suc, ◌+◌, ◌^◌, ◌<◌, ◌≡◌, refl, sym, ◌∙◌, Bool, true, false, ◌&&◌, [], ◌∷◌, ◌++◌, List,
  Bytes, ltb, length, arith, length-append, append_assoc, append-nil,
}
use frangipani_yfs.Rpc.Marshal.{Marshall, Unmarshall, put_u32, get_u32}
use frangipani_yfs.Rpc.Codec.{
  Codec, IsReady, advance, ahead, ahead-advance, advance-IsReady, seq, via, put-get,
}
use frangipani_yfs.Rpc.Basic.{u32, string, enc_u32, put_u32-enc, get_u32-enc}
use frangipani_yfs.Paxos.Order.{PropT}
use frangipani_yfs.Paxos.Acceptor.{PrepareArg, PrepareRes, AcceptArg, DecideArg}
use frangipani_yfs.Extent.Protocol.{Attr}

-- template <class C> of std::vector<C>
module _ {A : Type 0} (c : Codec A) where
  enc_items : List A → Bytes
  enc_items [] = []
  enc_items (x ∷ xs) = c.enc x ++ enc_items xs

  fit_items : List A → Bool
  fit_items [] = true
  fit_items (x ∷ xs) = c.fits x && fit_items xs

  put_items : List A → Marshall → Marshall
  put_items [] m = m
  put_items (x ∷ xs) m = put_items xs (c.put x m)

  get_items : ℕ → Unmarshall → List A × Unmarshall
  get_items zero u = ([], u)
  get_items (suc n) u = let (x, u1) = c.get u in let (xs, u2) = get_items n u1 in (x ∷ xs, u2)

  put_vector : List A → Marshall → Marshall
  put_vector v m = put_items v (put_u32 (length v) m)

  get_vector : Unmarshall → List A × Unmarshall
  get_vector u = let (n, u1) = get_u32 u in get_items n u1

  put_items-enc :
      (xs : List A) (m : Marshall)
      → fit_items xs ≡ true
      → (put_items xs m).buf ≡ m.buf ++ enc_items xs
  unfolding put_items enc_items fit_items
  put_items-enc [] m h = sym (append-nil m.buf)
  put_items-enc (x ∷ xs) m h =
      put_items-enc xs (c.put x m) (ground arith)
      ∙ rw (c.put-enc x m (ground arith)) (append_assoc m.buf (c.enc x) (enc_items xs))

  get_items-enc :
      (xs : List A) (u : Unmarshall) (bs : Bytes)
      → fit_items xs ≡ true
      → IsReady u
      → ahead u ≡ enc_items xs ++ bs
      → get_items (length xs) u ≡ (xs, advance (length (enc_items xs)) u)
  unfolding get_items enc_items fit_items
  get_items-enc [] u bs h r e = λ i. ([], record u { ind = stay i })
    where
      stay : u.ind ≡ u.ind + 0
      stay = omega arith
  get_items-enc (x ∷ xs) u bs h r e =
      let e1 = e ∙ append_assoc (c.enc x) (enc_items xs) bs in
      let k = length (c.enc x) in
      rw (c.get-enc x u (enc_items xs ++ bs) (ground arith) r e1) (
        rw
          (get_items-enc xs (advance k u) bs (ground arith) (advance-IsReady k u r)
            (ahead-advance u (c.enc x) (enc_items xs ++ bs) e1))
          (λ i. (x ∷ xs, record u { ind = moved i })))
    where
      moved :
          u.ind + length (c.enc x) + length (enc_items xs)
          ≡ u.ind + length (c.enc x ++ enc_items xs)
      moved = omega (arith, length-append (c.enc x) (enc_items xs))

  put_vector-enc :
      (v : List A) (m : Marshall)
      → (ltb (length v) (2 ^ 32) && fit_items v) ≡ true
      → (put_vector v m).buf ≡ m.buf ++ (enc_u32 (length v) ++ enc_items v)
  unfolding put_vector
  put_vector-enc v m h =
      put_items-enc v (put_u32 (length v) m) (ground arith)
      ∙ rw (put_u32-enc (length v) m) (append_assoc m.buf (enc_u32 (length v)) (enc_items v))

  get_vector-enc :
      (v : List A) (u : Unmarshall) (bs : Bytes)
      → (ltb (length v) (2 ^ 32) && fit_items v) ≡ true
      → IsReady u
      → ahead u ≡ (enc_u32 (length v) ++ enc_items v) ++ bs
      → get_vector u ≡ (v, advance (length (enc_u32 (length v) ++ enc_items v)) u)
  unfolding get_vector
  get_vector-enc v u bs h r e =
      let e1 = e ∙ append_assoc (enc_u32 (length v)) (enc_items v) bs in
      rw (get_u32-enc (length v) u (enc_items v ++ bs) (ground arith) e1) (
        get_items-enc v (advance 4 u) bs (ground arith) (advance-IsReady 4 u r)
          (ahead-advance u (enc_u32 (length v)) (enc_items v ++ bs) e1)
        ∙ λ i. (v, record u { ind = moved i }))
    where
      moved : u.ind + 4 + length (enc_items v) ≡ u.ind + length (enc_u32 (length v) ++ enc_items v)
      moved = omega arith

  unfoldable pub vector : Codec (List A)
  unfolding put_vector get_vector enc_items fit_items put_items get_items put_vector-enc
      get_vector-enc put_items-enc get_items-enc
  vector = record {
    enc = λ v. enc_u32 (length v) ++ enc_items v;
    fits = λ v. ltb (length v) (2 ^ 32) && fit_items v;
    put = put_vector;
    get = get_vector;
    put-enc = put_vector-enc;
    get-enc = get_vector-enc;
  }

-- prop_t: n, m
unfoldable pub prop_codec : Codec PropT
unfolding seq via u32 string
prop_codec =
    via (λ (p : ℕ × Bytes). record { n = p.0; m = p.1 }) (λ p. (p.n, p.m)) (λ p. refl)
      (seq u32 string)

-- preparearg: instance, n, v
unfoldable pub preparearg : Codec PrepareArg
unfolding seq via prop_codec
preparearg =
    via (λ (p : ℕ × (PropT × Bytes)). record { at = p.0; n = p.1.0; v = p.1.1 })
      (λ a. (a.at, (a.n, a.v))) (λ a. refl) (seq u32 (seq prop_codec string))

-- prepareres: oldinstance, accept, n_a, v_a
unfoldable pub prepareres : Codec PrepareRes
unfolding seq via prop_codec
prepareres =
    via
      (λ (p : ℕ × (ℕ × (PropT × Bytes))). record {
        oldinstance = p.0;
        accept = p.1.0;
        n_a = p.1.1.0;
        v_a = p.1.1.1;
      })
      (λ r. (r.oldinstance, (r.accept, (r.n_a, r.v_a)))) (λ r. refl)
      (seq u32 (seq u32 (seq prop_codec string)))

-- acceptarg: instance, n, v
unfoldable pub acceptarg : Codec AcceptArg
unfolding seq via prop_codec
acceptarg =
    via (λ (p : ℕ × (PropT × Bytes)). record { at = p.0; n = p.1.0; v = p.1.1 })
      (λ a. (a.at, (a.n, a.v))) (λ a. refl) (seq u32 (seq prop_codec string))

-- decidearg: instance, v
unfoldable pub decidearg : Codec DecideArg
unfolding seq via
decidearg =
    via (λ (p : ℕ × Bytes). record { at = p.0; v = p.1 }) (λ a. (a.at, a.v)) (λ a. refl)
      (seq u32 string)

-- extent_protocol::attr: atime, mtime, ctime, size
unfoldable pub attr : Codec Attr
unfolding seq via u32
attr =
    via
      (λ (p : ℕ × (ℕ × (ℕ × ℕ))). record {
        atime = p.0;
        mtime = p.1.0;
        ctime = p.1.1.0;
        size = p.1.1.1;
      })
      (λ a. (a.atime, (a.mtime, (a.ctime, a.size)))) (λ a. refl) (seq u32 (seq u32 (seq u32 u32)))

-- A prepare response is read back as it was marshalled, whatever is in the buffer before it and behind
-- it, and the reader is then behind it, if its fields fit their types and the whole is shorter than
-- 2 ^ 31 bytes.
pub prepareres-put-get :
    (x : PrepareRes) (m : Marshall) (rest : Bytes)
    → prepareres.fits x ≡ true
    → length ((prepareres.put x m).buf ++ rest) < 2 ^ 31
    → prepareres.get (record {
      buf = (prepareres.put x m).buf ++ rest;
      ind = length m.buf;
      ok = true;
      fault = false;
    })
      ≡ (
        x,
        record {
          buf = (prepareres.put x m).buf ++ rest;
          ind = length (prepareres.put x m).buf;
          ok = true;
          fault = false;
        },
      )
prepareres-put-get x m rest fits small = put-get prepareres x m rest fits small
