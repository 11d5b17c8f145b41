-- ===== src/Rpc/Header.antt =====
-- The headers of requests and replies (rpc/marshall.h): packed into the room that the constructor
-- left, behind four bytes for the size, and unpacked again.
use frangipani_yfs.Prelude.{
  ℕ, true, false, ◌+◌, ◌^◌, ◌<◌, ◌≤◌, ◌≡◌, sym, ap, ◌∙◌, [], ◌++◌, Bytes, length, drop, take, arith,
  length-append, drop-append, length-take_le, length-drop, subst,
}
use frangipani_yfs.Rpc.Marshal.{Marshall, Unmarshall, get_u32, header_sz}
use frangipani_yfs.Rpc.Codec.{advance, ahead-advance, drop_add}
use frangipani_yfs.Rpc.Basic.{enc_u32, get_u32-enc}

pub record ReqHeader : Type 0 where
  pub xid : ℕ
  pub proc : ℕ
  pub clt_nonce : ℕ
  pub srv_nonce : ℕ
  pub xid_rep : ℕ

pub record ReplyHeader : Type 0 where
  pub xid : ℕ
  pub ret : ℕ

-- Bytes written over the buffer from position `i` on.
unfoldable pub overwrite : ℕ → Bytes → Bytes → Bytes
overwrite i bs buf = take i buf ++ (bs ++ drop (i + length bs) buf)

abbrev pub req_bytes : ReqHeader → Bytes → Bytes
req_bytes h rest =
    enc_u32 h.xid
    ++ (enc_u32 h.proc
        ++ (enc_u32 h.clt_nonce ++ (enc_u32 h.srv_nonce ++ (enc_u32 h.xid_rep ++ rest))))

unfoldable pub pack_req_header : ReqHeader → Marshall → Marshall
unfolding overwrite
pack_req_header h m = record m { buf = overwrite 4 (req_bytes h []) m.buf }

unfoldable pub pack_reply_header : ReplyHeader → Marshall → Marshall
unfolding overwrite
pack_reply_header h m = record m { buf = overwrite 4 (enc_u32 h.xid ++ enc_u32 h.ret) m.buf }

unfoldable pub unpack_req_header : Unmarshall → ReqHeader × Unmarshall
unpack_req_header u =
    let (a, u1) = get_u32 (record u { ind = 4 }) in
    let (b, u2) = get_u32 u1 in
    let (c, u3) = get_u32 u2 in
    let (d, u4) = get_u32 u3 in
    let (e, u5) = get_u32 u4 in
    (
      record { xid = a; proc = b; clt_nonce = c; srv_nonce = d; xid_rep = e },
      record u5 { ind = header_sz },
    )

unfoldable pub unpack_reply_header : Unmarshall → ReplyHeader × Unmarshall
unpack_reply_header u =
    let (a, u1) = get_u32 (record u { ind = 4 }) in
    let (b, u2) = get_u32 u1 in (record { xid = a; ret = b }, record u2 { ind = header_sz })

abbrev pub FitsReq : ReqHeader → Type 0
FitsReq h =
    (h.xid < 2 ^ 32)
    × (h.proc < 2 ^ 32)
    × (h.clt_nonce < 2 ^ 32)
    × (h.srv_nonce < 2 ^ 32)
    × (h.xid_rep < 2 ^ 32)

unpack_req-at :
    (h : ReqHeader) (u : Unmarshall) (rest : Bytes)
    → FitsReq h
    → drop 4 u.buf ≡ req_bytes h rest
    → unpack_req_header u ≡ (h, record u { ind = header_sz })
unfolding unpack_req_header
unpack_req-at h u rest (fa, fb, fc, fd, fe) e =
    let v = record u { ind = 4 } in
    let e1 = ahead-advance v (enc_u32 h.xid) _ e in
    let e2 = ahead-advance (advance 4 v) (enc_u32 h.proc) _ e1 in
    let e3 = ahead-advance (advance 4 (advance 4 v)) (enc_u32 h.clt_nonce) _ e2 in
    let e4 = ahead-advance (advance 4 (advance 4 (advance 4 v))) (enc_u32 h.srv_nonce) _ e3 in
    rw (
      get_u32-enc h.xid v _ fa e,
      get_u32-enc h.proc (advance 4 v) _ fb e1,
      get_u32-enc h.clt_nonce (advance 4 (advance 4 v)) _ fc e2,
      get_u32-enc h.srv_nonce (advance 4 (advance 4 (advance 4 v))) _ fd e3,
      get_u32-enc h.xid_rep (advance 4 (advance 4 (advance 4 (advance 4 v)))) rest fe e4,
    )

unpack_reply-at :
    (h : ReplyHeader) (u : Unmarshall) (rest : Bytes)
    → h.xid < 2 ^ 32
    → h.ret < 2 ^ 32
    → drop 4 u.buf ≡ enc_u32 h.xid ++ (enc_u32 h.ret ++ rest)
    → unpack_reply_header u ≡ (h, record u { ind = header_sz })
unfolding unpack_reply_header
unpack_reply-at h u rest fa fb e =
    let v = record u { ind = 4 } in
    rw (
      get_u32-enc h.xid v _ fa e,
      get_u32-enc h.ret (advance 4 v) rest fb (ahead-advance v (enc_u32 h.xid) _ e),
    )

-- A prefix of known length is dropped.
drop_prefix : (k : ℕ) (xs ys : Bytes) → length xs ≡ k → drop k (xs ++ ys) ≡ ys
drop_prefix k xs ys e = subst (λ j. drop j (xs ++ ys) ≡ ys) e (drop-append xs ys)

-- What an overwrite leaves: behind the bytes stands what stood there, and the length is the same.
overwrite_parts :
    (i : ℕ) (bs hdr body : Bytes)
    → i + length bs ≤ length hdr
    → (drop i (overwrite i bs (hdr ++ body)) ≡ bs ++ drop (i + length bs) (hdr ++ body))
      × (length (overwrite i bs (hdr ++ body)) ≡ length (hdr ++ body))
unfolding overwrite
overwrite_parts i bs hdr body h =
    let long : i ≤ length (hdr ++ body) = omega (arith, length-append hdr body) in
    let k = length-take_le i (hdr ++ body) long in
    (
      drop_prefix i (take i (hdr ++ body)) _ k,
      omega (
        arith,
        k,
        h,
        length-append hdr body,
        length-append (take i (hdr ++ body)) (bs ++ drop (i + length bs) (hdr ++ body)),
        length-append bs (drop (i + length bs) (hdr ++ body)),
        length-drop (i + length bs) (hdr ++ body),
      ),
    )

abbrev pub reader : Bytes → Unmarshall
reader b = record { buf = b; ind = 0; ok = true; fault = false }

-- A request's header is read back from the packed buffer, and the position is then at the arguments,
-- which packing has left alone.
pub unpack-pack_req :
    (h : ReqHeader) (hdr body : Bytes) (capa : ℕ)
    → length hdr ≡ header_sz
    → FitsReq h
    → let b = (pack_req_header h (record { buf = hdr ++ body; capa = capa })).buf in
      (unpack_req_header (reader b) ≡ (h, record (reader b) { ind = header_sz }))
      × (drop header_sz b ≡ body)
      × (length b ≡ length (hdr ++ body))
unfolding pack_req_header
unpack-pack_req h hdr body capa e fits =
    let (at, len) = overwrite_parts 4 (req_bytes h []) hdr body (omega (arith, e)) in
    let b = overwrite 4 (req_bytes h []) (hdr ++ body) in
    (
      unpack_req-at h (reader b) body fits (at ∙ ap (req_bytes h) (drop_prefix 24 hdr body e)),
      drop_add 4 20 b ∙ ap (drop 20) at ∙ drop_prefix 24 hdr body e,
      len,
    )

-- The same for a reply's header.
pub unpack-pack_reply :
    (h : ReplyHeader) (hdr body : Bytes) (capa : ℕ)
    → length hdr ≡ header_sz
    → h.xid < 2 ^ 32
    → h.ret < 2 ^ 32
    → let b = (pack_reply_header h (record { buf = hdr ++ body; capa = capa })).buf in
      (unpack_reply_header (reader b) ≡ (h, record (reader b) { ind = header_sz }))
      × (drop header_sz b ≡ body)
      × (length b ≡ length (hdr ++ body))
unfolding pack_reply_header
unpack-pack_reply h hdr body capa e fx fr =
    let (at, len) =
      overwrite_parts 4 (enc_u32 h.xid ++ enc_u32 h.ret) hdr body (omega (arith, e)) in
    let b = overwrite 4 (enc_u32 h.xid ++ enc_u32 h.ret) (hdr ++ body) in
    (
      unpack_reply-at h (reader b) (drop 12 (hdr ++ body)) fx fr at,
      drop_add 4 20 b
          ∙ ap (drop 20) at
          ∙ sym (drop_add 12 12 (hdr ++ body))
          ∙ drop_prefix 24 hdr body e,
      len,
    )
