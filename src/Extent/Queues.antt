-- ===== src/Extent/Queues.antt =====
-- The queues of extent_client.cc: what is cached is queued for the next flush.
use frangipani_yfs.Prelude.{
  ℕ, ◌≡◌, refl, true, false, [], ◌∷◌, ◌++◌, List, ◌==◌, if◌then◌else◌, Option, none, some, update,
  is_some, get_or, Bytes, arith, elem, erase_first, nodup, nodup-push, elem-push, elem-erase_first,
  nodup-erase_first, elem-remove_all, nodup-remove_all, Bool-cases, inl, inr, if_cases,
}
use frangipani_yfs.Extent.Protocol.{Status, ok, Attr}
use frangipani_yfs.Extent.Server.{ExtentServer, Answer}
use frangipani_yfs.Extent.Server
use frangipani_yfs.Extent.Client.{
  ExtentClient, Done, Fate, is_ok, with_cache, add_extent_to_modified_queues, cached, fetched,
  get_and_cache_extent_from_server, locally, get, getattr, put, remove, call, flush_modified,
  flush_removed, flush, put_back, took_out, no_attr,
}

-- The extent is cached exactly when both queues have it, and it is then not to be removed.
abbrev pub QueuedAt : ExtentClient → ℕ → Type 0
QueuedAt c i =
    (is_some (c.cache.extents i) ≡ elem i c.modified_extents)
    × (is_some (c.cache.extent_attrs i) ≡ elem i c.modified_extents)
    × (elem i c.modified_extent_attributes ≡ elem i c.modified_extents)
    × (elem i c.modified_extents ≡ true → elem i c.removed_extents ≡ false)

-- A well-formed client: so it is for every extent, and no queue has an extent twice.
abbrev pub WellFormed : ExtentClient → Type 0
WellFormed c =
    (nodup c.modified_extents ≡ true)
    × (nodup c.modified_extent_attributes ≡ true)
    × (nodup c.removed_extents ≡ true)
    × ((i : ℕ) → QueuedAt c i)

abbrev queue : ℕ → List ℕ → List ℕ
queue e l = if elem e l then l else l ++ e ∷ []

queue-nodup : (e : ℕ) (l : List ℕ) → nodup l ≡ true → nodup (queue e l) ≡ true
queue-nodup e l h = if_cases (λ x. nodup x ≡ true) (elem e l) (λ t. h) (λ f. nodup-push e l h f)

queue-elem : (e i : ℕ) (l : List ℕ) → elem i (queue e l) ≡ (if e == i then true else elem i l)
queue-elem e i l = ground (arith, elem-push i e l)

abbrev pub dequeue : ℕ → List ℕ → List ℕ
dequeue e l = if elem e l then erase_first e l else l

dequeue-nodup : (e : ℕ) (l : List ℕ) → nodup l ≡ true → nodup (dequeue e l) ≡ true
dequeue-nodup e l h =
    if_cases (λ x. nodup x ≡ true) (elem e l) (λ t. nodup-erase_first e l h) (λ f. h)

pub dequeue-elem :
    (e i : ℕ) (l : List ℕ)
    → nodup l ≡ true
    → elem i (dequeue e l) ≡ (if e == i then false else elem i l)
dequeue-elem e i l h = ground (arith, elem-erase_first i e l)

-- A client that has just written both maps at an extent and queued it.
queued-WellFormed :
    (e : ℕ) (b : Bytes) (a : Attr) (c : ExtentClient)
    → WellFormed c
    → WellFormed (
        add_extent_to_modified_queues e (
          with_cache
            (record {
              extents = update c.cache.extents e (some b);
              extent_attrs = update c.cache.extent_attrs e (some a);
            })
            c))
unfolding add_extent_to_modified_queues
queued-WellFormed e b a c (m, n, r, q) = (
  queue-nodup e c.modified_extents m,
  queue-nodup e c.modified_extent_attributes n,
  dequeue-nodup e c.removed_extents r,
  λ i. ground (
    arith,
    q i,
    queue-elem e i c.modified_extents,
    queue-elem e i c.modified_extent_attributes,
    dequeue-elem e i c.removed_extents,
  ),
)

pub put-WellFormed :
    (now e : ℕ) (b : Bytes) (c : ExtentClient) (s : ExtentServer)
    → WellFormed c
    → WellFormed ((put now e b c s).client)
unfolding put Server.put
put-WellFormed now e b c s w = queued-WellFormed e b _ c w

pub remove-WellFormed :
    (e : ℕ) (c : ExtentClient) (s : ExtentServer)
    → WellFormed c
    → WellFormed ((remove e c s).client)
unfolding remove Server.remove
remove-WellFormed e c s (m, n, r, q) = elim (Bool-cases (is_some (c.cache.extents e))) [
  | inl t ↦ rw t (
      (
        dequeue-nodup e c.modified_extents m,
        dequeue-nodup e c.modified_extent_attributes n,
        nodup-push e c.removed_extents r (ground (arith, q e)),
        λ i. ground (
          arith,
          q i,
          dequeue-elem e i c.modified_extents,
          dequeue-elem e i c.modified_extent_attributes,
          elem-push i e c.removed_extents,
        ),
      ))
  | inr f ↦ rw f ((m, n, r, q))
]

cached-WellFormed :
    (e : ℕ) (b : Bytes) (c : ExtentClient) (r : Answer Attr)
    → WellFormed c
    → WellFormed ((cached e b c r).client)
unfolding cached
cached-WellFormed e b c r w =
    if_cases WellFormed (is_ok r.status) (λ t. queued-WellFormed e b r.value c w) (λ f. w)

fetched-WellFormed :
    (f : Fate) (e : ℕ) (a : Attr) (c : ExtentClient) (r : Answer Bytes)
    → WellFormed c
    → WellFormed ((fetched f e a c r).client)
unfolding fetched
fetched-WellFormed f e a c r w =
    if_cases (λ (d : Done (Bytes × Attr)). WellFormed (d.client)) (is_ok r.status)
      (λ t. cached-WellFormed e r.value c (call f (Server.getattr e a) a r.server) w) (λ n. w)

-- The inherited get changes an access time only.
got-WellFormed :
    (now e : ℕ) (b : Bytes) (c : ExtentClient) (o : Option Bytes) (p : Option Attr)
    → c.cache.extent_attrs e ≡ p
    → WellFormed c
    → WellFormed (with_cache ((Server.get_found now e b c.cache o p).server) c)
unfolding Server.get_found
got-WellFormed now e b c none p h w = w
got-WellFormed now e b c (some x) none h w = w
got-WellFormed now e b c (some x) (some a) h (m, n, r, q) = (m, n, r, λ i. ground (arith, q i))

pub get-WellFormed :
    (f g : Fate) (now e : ℕ) (b : Bytes) (c : ExtentClient) (s : ExtentServer)
    → WellFormed c
    → WellFormed ((get f g now e b c s).client)
unfolding get locally get_and_cache_extent_from_server Server.get
get-WellFormed f g now e b c s w =
    if_cases (λ (d : Done Bytes). WellFormed (d.client)) (is_some (c.cache.extents e))
      (λ t. got-WellFormed now e b c (c.cache.extents e) (c.cache.extent_attrs e) refl w)
      (λ n. fetched-WellFormed g e no_attr c (call f (Server.get now e b) b s) w)

looked-WellFormed :
    (a : Attr) (c : ExtentClient) (o : Option Attr)
    → WellFormed c
    → WellFormed (with_cache ((Server.getattr_found a c.cache o).server) c)
unfolding Server.getattr_found
looked-WellFormed a c none w = w
looked-WellFormed a c (some x) w = w

pub getattr-WellFormed :
    (f g : Fate) (now e : ℕ) (a : Attr) (c : ExtentClient) (s : ExtentServer)
    → WellFormed c
    → WellFormed ((getattr f g now e a c s).client)
unfolding getattr locally get_and_cache_extent_from_server Server.getattr
getattr-WellFormed f g now e a c s w =
    if_cases (λ (d : Done Attr). WellFormed (d.client)) (is_some (c.cache.extent_attrs e))
      (λ t. looked-WellFormed a c _ w)
      (λ n. fetched-WellFormed g e a c (call f (Server.get now e []) [] s) w)

put_back-WellFormed :
    (e : ℕ) (c : ExtentClient) (r : Answer Status) → WellFormed c → WellFormed (put_back e c r)
unfolding put_back
put_back-WellFormed e c r (m, n, d, q) =
    if_cases WellFormed (is_ok r.status)
      (λ t. (
        nodup-remove_all e c.modified_extents m,
        nodup-remove_all e c.modified_extent_attributes n,
        d,
        λ i. ground (
          arith,
          q i,
          elem-remove_all i e c.modified_extents,
          elem-remove_all i e c.modified_extent_attributes,
        ),
      ))
      (λ f. (m, n, d, q))

took_out-WellFormed :
    (e : ℕ) (c : ExtentClient) (r : Answer Status) → WellFormed c → WellFormed (took_out e c r)
unfolding took_out
took_out-WellFormed e c r (m, n, d, q) =
    if_cases WellFormed (is_ok r.status)
      (λ t. (
        m,
        n,
        nodup-remove_all e c.removed_extents d,
        λ i. ground (arith, q i, elem-remove_all i e c.removed_extents),
      ))
      (λ f. (m, n, d, q))

pub flush_modified-WellFormed :
    (f : Fate) (e : ℕ) (c : ExtentClient) (s : ExtentServer)
    → WellFormed c
    → WellFormed ((flush_modified f e c s).0)
unfolding flush_modified
flush_modified-WellFormed f e c s w =
    let b = get_or (c.cache.extents e) [] in
    let a = get_or (c.cache.extent_attrs e) no_attr in
    if_cases (λ (p : ExtentClient × ExtentServer). WellFormed (p.0)) (elem e c.modified_extents)
      (λ t. put_back-WellFormed e c (call f (Server.put e b a) ok s) w) (λ n. w)

flush_removed-WellFormed :
    (f : Fate) (e : ℕ) (c : ExtentClient) (s : ExtentServer)
    → WellFormed c
    → WellFormed ((flush_removed f e c s).0)
unfolding flush_removed
flush_removed-WellFormed f e c s w =
    if_cases (λ (p : ExtentClient × ExtentServer). WellFormed (p.0)) (elem e c.removed_extents)
      (λ t. took_out-WellFormed e c (call f (Server.remove e) ok s) w) (λ n. w)

pub flush-WellFormed :
    (f g : Fate) (e : ℕ) (c : ExtentClient) (s : ExtentServer)
    → WellFormed c
    → WellFormed ((flush f g e c s).0)
unfolding flush
flush-WellFormed f g e c s w =
    flush_removed-WellFormed g e _ _ (flush_modified-WellFormed f e c s w)

-- The operations of a client.
pub data Action : Type 0 where
  gets : Fate → Fate → ℕ → ℕ → Action
  getattrs : Fate → Fate → ℕ → ℕ → Action
  puts : ℕ → ℕ → Bytes → Action
  removes : ℕ → Action
  flushes : Fate → Fate → ℕ → Action

unfoldable pub act : Action → ExtentClient × ExtentServer → ExtentClient × ExtentServer
unfolding get getattr put remove flush
act (gets f g now e) (c, s) = let d = get f g now e [] c s in (d.client, d.remote)
act (getattrs f g now e) (c, s) = let d = getattr f g now e no_attr c s in (d.client, d.remote)
act (puts now e b) (c, s) = let d = put now e b c s in (d.client, d.remote)
act (removes e) (c, s) = let d = remove e c s in (d.client, d.remote)
act (flushes f g e) (c, s) = flush f g e c s

unfoldable pub act_all : List Action → ExtentClient × ExtentServer → ExtentClient × ExtentServer
unfolding act
act_all [] p = p
act_all (a ∷ os) p = act_all os (act a p)

act-WellFormed :
    (a : Action) (p : ExtentClient × ExtentServer) → WellFormed (p.0) → WellFormed ((act a p).0)
unfolding act
act-WellFormed (gets f g now e) (c, s) w = get-WellFormed f g now e [] c s w
act-WellFormed (getattrs f g now e) (c, s) w = getattr-WellFormed f g now e no_attr c s w
act-WellFormed (puts now e b) (c, s) w = put-WellFormed now e b c s w
act-WellFormed (removes e) (c, s) w = remove-WellFormed e c s w
act-WellFormed (flushes f g e) (c, s) w = flush-WellFormed f g e c s w

-- Whatever the client does, and whatever becomes of its calls, it stays well-formed: an extent is in
-- its cache exactly when both queues of modified extents have it, it is then not queued for removal,
-- and no queue has an extent twice.
pub act_all-WellFormed :
    (os : List Action) (p : ExtentClient × ExtentServer)
    → WellFormed (p.0)
    → WellFormed ((act_all os p).0)
unfolding act_all
act_all-WellFormed [] p w = w
act_all-WellFormed (a ∷ os) p w = act_all-WellFormed os (act a p) (act-WellFormed a p w)
