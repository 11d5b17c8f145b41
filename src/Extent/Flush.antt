-- ===== src/Extent/Flush.antt =====
-- What flushing an extent of extent_client.cc gives: the hand-over from one client to the next, and
-- the removals.
use frangipani_yfs.Prelude.{
  ℕ, ◌≡◌, refl, ap, ◌∙◌, true, false, none, some, is_some, Bytes, arith, elem, elem-push,
  elem-erase_first,
}
use frangipani_yfs.Extent.Protocol.{Status, ok, noent, Attr}
use frangipani_yfs.Extent.Server.{ExtentServer, Answer}
use frangipani_yfs.Extent.Server
use frangipani_yfs.Extent.Client.{
  ExtentClient, Fate, answered, stamped, add_extent_to_modified_queues, cached, fetched,
  get_and_cache_extent_from_server, get, put, remove, call, flush_modified, flush_removed, flush,
  put_back, no_attr,
}
use frangipani_yfs.Extent.Queues.{WellFormed, put-WellFormed}

-- The first part of flush, for an extent that is cached.
flush_modified-cached :
    (e : ℕ) (b : Bytes) (a : Attr) (c : ExtentClient) (s : ExtentServer)
    → elem e c.modified_extents ≡ true
    → c.cache.extents e ≡ some b
    → c.cache.extent_attrs e ≡ some a
    → flush_modified answered e c s
      ≡ (put_back e c (Server.put e b a s), (Server.put e b a s).server)
unfolding flush_modified call
flush_modified-cached e b a c s m x y = rw (m, x, y) refl

flush_removed-none :
    (g : Fate) (e : ℕ) (c : ExtentClient) (s : ExtentServer)
    → elem e c.removed_extents ≡ false
    → flush_removed g e c s ≡ (c, s)
unfolding flush_removed
flush_removed-none g e c s m = rw m refl

put_back-removed :
    (e : ℕ) (c : ExtentClient) (r : Answer Status)
    → (put_back e c r).removed_extents ≡ c.removed_extents
unfolding put_back
put_back-removed e c r = ground arith

-- A flush that is answered leaves at the server the content and the attributes of the client.
flush-cached :
    (g : Fate) (e : ℕ) (b : Bytes) (a : Attr) (c : ExtentClient) (s : ExtentServer)
    → WellFormed c
    → c.cache.extents e ≡ some b
    → c.cache.extent_attrs e ≡ some a
    → flush answered g e c s ≡ (put_back e c (Server.put e b a s), (Server.put e b a s).server)
unfolding flush
flush-cached g e b a c s w x y =
    let m : elem e c.modified_extents ≡ true = ground (arith, w.3 e) in
    rw (flush_modified-cached e b a c s m x y) (
      flush_removed-none g e (put_back e c (Server.put e b a s)) _
        (rw (put_back-removed e c (Server.put e b a s)) (ground (arith, w.3 e))))

put-caches :
    (now e : ℕ) (b : Bytes) (c : ExtentClient) (s : ExtentServer)
    → ((put now e b c s).client.cache.extents e ≡ some b)
      × ((put now e b c s).client.cache.extent_attrs e ≡ some (stamped now b))
      × ((put now e b c s).remote ≡ s)
unfolding put Server.put add_extent_to_modified_queues
put-caches now e b c s = (ground arith, ground arith, refl)

server_get :
    (now e : ℕ) (b x : Bytes) (a : Attr) (s : ExtentServer)
    → s.extents e ≡ some b
    → s.extent_attrs e ≡ some a
    → ((Server.get now e x s).status ≡ ok)
      × ((Server.get now e x s).value ≡ b)
      × ((Server.get now e x s).server.extent_attrs e
          ≡ some (record { atime = now; mtime = a.mtime; ctime = a.ctime; size = a.size }))
unfolding Server.get Server.get_found
server_get now e b x a s p q = rw (p, q) ((refl, refl, ground arith))

server_getattr :
    (e : ℕ) (a x : Attr) (s : ExtentServer)
    → s.extent_attrs e ≡ some a
    → ((Server.getattr e x s).status ≡ ok)
unfolding Server.getattr Server.getattr_found
server_getattr e a x s q = rw q refl

-- A get by a client that does not hold the extent, of one that the server has.
get-remote :
    (now e : ℕ) (b x : Bytes) (a : Attr) (c : ExtentClient) (s : ExtentServer)
    → c.cache.extents e ≡ none
    → s.extents e ≡ some b
    → s.extent_attrs e ≡ some a
    → ((get answered answered now e x c s).status ≡ ok)
      × ((get answered answered now e x c s).value ≡ b)
      × ((get answered answered now e x c s).client.cache.extents e ≡ some b)
unfolding get get_and_cache_extent_from_server fetched cached call add_extent_to_modified_queues
get-remote now e b x a c s n p q =
    let g = server_get now e b x a s p q in
    let h = server_getattr e _ no_attr (Server.get now e x s).server (g.2) in
    rw (n, g.0, g.1, h) ((refl, refl, ground arith))

put_server :
    (e : ℕ) (b : Bytes) (a : Attr) (s : ExtentServer)
    → ((Server.put e b a s).server.extents e ≡ some b)
      × ((Server.put e b a s).server.extent_attrs e ≡ some a)
unfolding Server.put
put_server e b a s = (ground arith, ground arith)

-- The state after a client puts an extent and gives the lock back, its calls answered.
abbrev pub put_flush :
    Fate → ℕ → ℕ → Bytes → ExtentClient → ExtentServer → ExtentClient × ExtentServer
put_flush g now e b c s = let d = put now e b c s in flush answered g e (d.client) (d.remote)

put_flush-server :
    (g : Fate) (now e : ℕ) (b : Bytes) (c : ExtentClient) (s : ExtentServer)
    → WellFormed c
    → put_flush g now e b c s ≡ (
      put_back e ((put now e b c s).client) (Server.put e b (stamped now b) s),
      (Server.put e b (stamped now b) s).server,
    )
put_flush-server g now e b c s w =
    let (p, q, r) = put-caches now e b c s in
    flush-cached g e b (stamped now b) _ _ (put-WellFormed now e b c s w) p q
    ∙ ap
        (λ z. (
          put_back e ((put now e b c s).client) (Server.put e b (stamped now b) z),
          (Server.put e b (stamped now b) z).server,
        ))
        r

-- The hand-over of an extent: when a well-formed client puts it and flushes it, the put answered, any
-- client that does not hold it gets that content, and caches it, if its two calls are answered.
pub put_flush-get :
    (g : Fate) (now e later : ℕ) (b x : Bytes) (c d : ExtentClient) (s : ExtentServer)
    → WellFormed c
    → d.cache.extents e ≡ none
    → let t = (put_flush g now e b c s).1 in
      let r = get answered answered later e x d t in
      (r.status ≡ ok) × (r.value ≡ b) × (r.client.cache.extents e ≡ some b)
put_flush-get g now e later b x c d s w n =
    let p = put_server e b (stamped now b) s in
    rw (put_flush-server g now e b c s w) (get-remote later e b x (stamped now b) d _ n (p.0) (p.1))

flush_modified-none :
    (f : Fate) (e : ℕ) (c : ExtentClient) (s : ExtentServer)
    → elem e c.modified_extents ≡ false
    → flush_modified f e c s ≡ (c, s)
unfolding flush_modified
flush_modified-none f e c s m = rw m refl

server_remove-gone : (e : ℕ) (s : ExtentServer) → (Server.remove e s).server.extents e ≡ none
unfolding Server.remove
server_remove-gone e s = ground arith

flush_removed-server :
    (e : ℕ) (c : ExtentClient) (s : ExtentServer)
    → elem e c.removed_extents ≡ true
    → (flush_removed answered e c s).1.extents e ≡ none
unfolding flush_removed call
flush_removed-server e c s m = rw m (server_remove-gone e s)

remove-queues :
    (e : ℕ) (c : ExtentClient) (s : ExtentServer)
    → WellFormed c
    → is_some (c.cache.extents e) ≡ true
    → ((remove e c s).status ≡ ok)
      × (elem e (remove e c s).client.modified_extents ≡ false)
      × (elem e (remove e c s).client.removed_extents ≡ true)
unfolding remove Server.remove
remove-queues e c s w t = rw t (
    (
      refl,
      ground (arith, elem-erase_first e e c.modified_extents, w.0),
      ground (arith, elem-push e e c.removed_extents),
    ))

-- When a well-formed client removes an extent that it has cached, the removal returns OK, and a flush
-- whose call to the server is answered leaves the server without the extent.
pub remove_flush-gone :
    (f : Fate) (e : ℕ) (c : ExtentClient) (s : ExtentServer)
    → WellFormed c
    → is_some (c.cache.extents e) ≡ true
    → let d = remove e c s in
      (d.status ≡ ok) × ((flush f answered e (d.client) (d.remote)).1.extents e ≡ none)
unfolding flush
remove_flush-gone f e c s w t =
    let (o, m, r) = remove-queues e c s w t in
    (
      o,
      rw (flush_modified-none f e (remove e c s).client (remove e c s).remote m)
          (flush_removed-server e (remove e c s).client (remove e c s).remote r),
    )

-- A client cannot remove what it has not cached: the removal returns NOENT and changes nothing, so the
-- server keeps the extent.
pub remove_uncached :
    (e : ℕ) (c : ExtentClient) (s : ExtentServer)
    → c.cache.extents e ≡ none
    → ((remove e c s).status ≡ noent) × ((remove e c s).client ≡ c) × ((remove e c s).remote ≡ s)
unfolding remove Server.remove
remove_uncached e c s n = rw n ((refl, refl, refl))

remove-cache :
    (e : ℕ) (c : ExtentClient) (s : ExtentServer)
    → is_some (c.cache.extents e) ≡ true
    → ((remove e c s).client.cache.extents e ≡ none) × ((remove e c s).remote ≡ s)
unfolding remove Server.remove
remove-cache e c s t = rw t ((ground arith, refl))

-- A get takes a removal back: after a well-formed client has removed an extent that the server still
-- has, its own get, if its two calls are answered, fetches the server's content and caches it again.
pub get_removed :
    (now e : ℕ) (b x : Bytes) (a : Attr) (c : ExtentClient) (s : ExtentServer)
    → WellFormed c
    → is_some (c.cache.extents e) ≡ true
    → s.extents e ≡ some b
    → s.extent_attrs e ≡ some a
    → let d = remove e c s in
      let r = get answered answered now e x (d.client) (d.remote) in
      (r.status ≡ ok) × (r.value ≡ b) × (r.client.cache.extents e ≡ some b)
get_removed now e b x a c s w t p q =
    let gone = remove-cache e c s t in
    get-remote now e b x a (remove e c s).client (remove e c s).remote gone.0 (rw (gone.1) p)
      (rw (gone.1) q)
