-- ===== src/Extent/Contents.antt =====
-- What an extent holds for the client that has its lock: in the client's cache, or else at the server.
-- The operations of extent_client.cc in these terms.
use frangipani_yfs.Prelude.{
  ℕ, ◌≡◌, refl, ◌∙◌, false, [], ◌==◌, if◌then◌else◌, Option, none, some, update, is_some, Bytes,
  arith, elem, elem-remove_all, if_cases,
}
use frangipani_yfs.Extent.Protocol.{ok, Attr}
use frangipani_yfs.Extent.Server.{
  ExtentServer, SameKeys, got-SameKeys, Answer, getattr-server, serve-SameKeys, gets, puts, removes,
}
use frangipani_yfs.Extent.Server
use frangipani_yfs.Extent.Client.{
  ExtentClient, Done, Fate, answered, lost, unanswered, get, put, flush_modified, flush_removed,
  flush, no_attr, getattr, get_and_cache_extent_from_server, fetched, cached, call, locally,
  add_extent_to_modified_queues, put_back, took_out, is_ok,
}
use frangipani_yfs.Extent.Queues.{WellFormed, dequeue-elem, flush_modified-WellFormed}

unfoldable pub held : Option Bytes → Option Bytes → Option Bytes
held none o = o
held (some b) o = some b

-- The content of an extent, unless it is to be removed.
unfoldable pub content : ExtentClient → ExtentServer → ℕ → Option Bytes
unfolding held
content c s i =
    let o = held (c.cache.extents i) (s.extents i) in if elem i c.removed_extents then none else o

-- A get that returns `b` and changes no content.
abbrev Gives : Bytes → ExtentClient → ExtentServer → Done Bytes → Type 0
Gives b c s d =
    (d.status ≡ ok) × (d.value ≡ b) × ((j : ℕ) → content (d.client) (d.remote) j ≡ content c s j)

get-local :
    (now e : ℕ) (b x : Bytes) (a : Attr) (c : ExtentClient) (s : ExtentServer)
    → c.cache.extents e ≡ some b
    → c.cache.extent_attrs e ≡ some a
    → Gives b c s (get answered answered now e x c s)
unfolding get locally Server.get Server.get_found content
get-local now e b x a c s p q = rw (p, q) ((refl, refl, λ j. refl))

get-far :
    (now e : ℕ) (b x : Bytes) (a : Attr) (c : ExtentClient) (s : ExtentServer)
    → c.cache.extents e ≡ none
    → elem e c.removed_extents ≡ false
    → s.extents e ≡ some b
    → s.extent_attrs e ≡ some a
    → Gives b c s (get answered answered now e x c s)
unfolding get get_and_cache_extent_from_server fetched cached call add_extent_to_modified_queues
    Server.get Server.get_found Server.getattr Server.getattr_found content
get-far now e b x a c s n r p q =
    let t = record a { atime = now } in
    let same : update s.extent_attrs e (some t) e ≡ some t = ground arith in
    rw (n, p, q, same) ((refl, refl, λ j. ground (arith, dequeue-elem e j c.removed_extents)))

flush_modified-content :
    (f : Fate) (e j : ℕ) (c : ExtentClient) (s : ExtentServer)
    → WellFormed c
    → content ((flush_modified f e c s).0) ((flush_modified f e c s).1) j ≡ content c s j
unfolding flush_modified call put_back content held Server.put
flush_modified-content answered e j c s w = ground (arith, w.3 e)
flush_modified-content lost e j c s w = ground (arith, w.3 e)
flush_modified-content unanswered e j c s w = ground (arith, w.3 e)

flush_removed-content :
    (f : Fate) (e j : ℕ) (c : ExtentClient) (s : ExtentServer)
    → WellFormed c
    → content ((flush_removed f e c s).0) ((flush_removed f e c s).1) j ≡ content c s j
unfolding flush_removed call took_out content held Server.remove
flush_removed-content answered e j c s w =
    ground (arith, w.3 e, elem-remove_all j e c.removed_extents)
flush_removed-content lost e j c s w = ground (arith, w.3 e)
flush_removed-content unanswered e j c s w = ground (arith, w.3 e)

pub put-content :
    (now e j : ℕ) (b : Bytes) (c : ExtentClient) (s : ExtentServer)
    → WellFormed c
    → content ((put now e b c s).client) ((put now e b c s).remote) j
      ≡ (if e == j then some b else content c s j)
unfolding put content held add_extent_to_modified_queues Server.put
put-content now e j b c s w = ground (arith, dequeue-elem e j c.removed_extents (w.2))

-- A get of an extent with content `b`, whether it is cached or not.
get-split :
    (now e : ℕ) (b x : Bytes) (c : ExtentClient) (s : ExtentServer) (o : Option Bytes)
    (p q : Option Attr)
    → c.cache.extents e ≡ o
    → c.cache.extent_attrs e ≡ p
    → s.extent_attrs e ≡ q
    → is_some o ≡ is_some p
    → is_some (s.extents e) ≡ is_some q
    → content c s e ≡ some b
    → Gives b c s (get answered answered now e x c s)
unfolding content held
get-split now e b x c s (some y) (some a) q eo ep eq h k i =
    get-local now e b x a c s (ground arith) ep
get-split now e b x c s (some y) none q eo ep eq h k i = cc
get-split now e b x c s none p (some a) eo ep eq h k i =
    get-far now e b x a c s eo (ground arith) (ground arith) eq
get-split now e b x c s none p none eo ep eq h k i = ground arith

-- A get returns the content that an extent has, and changes no content.
pub get-content :
    (now e : ℕ) (b x : Bytes) (c : ExtentClient) (s : ExtentServer)
    → WellFormed c
    → SameKeys s
    → content c s e ≡ some b
    → Gives b c s (get answered answered now e x c s)
get-content now e b x c s w k h =
    get-split now e b x c s _ _ _ refl refl refl (ground (arith, w.3 e)) (k e) h

-- A flush changes no content, whatever becomes of its calls.
pub flush-content :
    (f g : Fate) (e j : ℕ) (c : ExtentClient) (s : ExtentServer)
    → WellFormed c
    → content ((flush f g e c s).0) ((flush f g e c s).1) j ≡ content c s j
unfolding flush
flush-content f g e j c s w =
    flush_removed-content g e j _ _ (flush_modified-WellFormed f e c s w)
    ∙ flush_modified-content f e j c s w

flush_modified-SameKeys :
    (f : Fate) (e : ℕ) (c : ExtentClient) (s : ExtentServer)
    → SameKeys s
    → SameKeys ((flush_modified f e c s).1)
unfolding flush_modified call Server.put
flush_modified-SameKeys answered e c s k = λ i. ground (arith, k i)
flush_modified-SameKeys lost e c s k = λ i. ground (arith, k i)
flush_modified-SameKeys unanswered e c s k = λ i. ground (arith, k i)

flush_removed-SameKeys :
    (f : Fate) (e : ℕ) (c : ExtentClient) (s : ExtentServer)
    → SameKeys s
    → SameKeys ((flush_removed f e c s).1)
unfolding flush_removed call Server.remove
flush_removed-SameKeys answered e c s k = λ i. ground (arith, k i)
flush_removed-SameKeys lost e c s k = λ i. ground (arith, k i)
flush_removed-SameKeys unanswered e c s k = λ i. ground (arith, k i)

pub flush-SameKeys :
    (f g : Fate) (e : ℕ) (c : ExtentClient) (s : ExtentServer)
    → SameKeys s
    → SameKeys ((flush f g e c s).1)
unfolding flush
flush-SameKeys f g e c s k = flush_removed-SameKeys g e _ _ (flush_modified-SameKeys f e c s k)

call_get-SameKeys :
    (f : Fate) (now e : ℕ) (x : Bytes) (s : ExtentServer)
    → SameKeys s
    → SameKeys ((call f (Server.get now e x) x s).server)
unfolding call Server.get
call_get-SameKeys answered now e x s k =
    got-SameKeys now e x s (s.extents e) (s.extent_attrs e) refl k
call_get-SameKeys lost now e x s k = k
call_get-SameKeys unanswered now e x s k =
    got-SameKeys now e x s (s.extents e) (s.extent_attrs e) refl k

call_getattr-SameKeys :
    (f : Fate) (e : ℕ) (a : Attr) (s : ExtentServer)
    → SameKeys s
    → SameKeys ((call f (Server.getattr e a) a s).server)
unfolding call Server.getattr
call_getattr-SameKeys answered e a s k = rw (getattr-server a s (s.extent_attrs e)) k
call_getattr-SameKeys lost e a s k = k
call_getattr-SameKeys unanswered e a s k = rw (getattr-server a s (s.extent_attrs e)) k

fetched-SameKeys :
    (f : Fate) (e : ℕ) (a : Attr) (c : ExtentClient) (r : Answer Bytes)
    → SameKeys (r.server)
    → SameKeys ((fetched f e a c r).remote)
unfolding fetched cached
fetched-SameKeys f e a c r k =
    if_cases (λ (d : Done (Bytes × Attr)). SameKeys (d.remote)) (is_ok r.status)
      (λ t. call_getattr-SameKeys f e a r.server k) (λ n. k)

pub get-SameKeys :
    (f g : Fate) (now e : ℕ) (x : Bytes) (c : ExtentClient) (s : ExtentServer)
    → SameKeys s
    → SameKeys ((get f g now e x c s).remote)
unfolding get locally get_and_cache_extent_from_server
get-SameKeys f g now e x c s k =
    if_cases (λ (d : Done Bytes). SameKeys (d.remote)) (is_some (c.cache.extents e)) (λ t. k)
      (λ n. fetched-SameKeys g e no_attr c _ (call_get-SameKeys f now e x s k))

pub getattr-SameKeys :
    (f g : Fate) (now e : ℕ) (a : Attr) (c : ExtentClient) (s : ExtentServer)
    → SameKeys s
    → SameKeys ((getattr f g now e a c s).remote)
unfolding getattr locally get_and_cache_extent_from_server
getattr-SameKeys f g now e a c s k =
    if_cases (λ (d : Done Attr). SameKeys (d.remote)) (is_some (c.cache.extent_attrs e)) (λ t. k)
      (λ n. fetched-SameKeys g e a c _ (call_get-SameKeys f now e [] s k))
