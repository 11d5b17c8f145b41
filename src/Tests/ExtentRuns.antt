-- ===== src/Tests/ExtentRuns.antt =====
-- The extent service at concrete inputs.
use frangipani_yfs.Prelude.{
  ℕ, ◌==◌, false, arith, ◌≡◌, refl, true, [], ◌∷◌, Bytes, some, is_some, nodup, elem,
}
use frangipani_yfs.Extent.Protocol.{ok}
use frangipani_yfs.Extent.Server
use frangipani_yfs.Extent.Contents.{content, held}
use frangipani_yfs.Yfs.Client.{write, read}
use frangipani_yfs.Yfs.Cached.{World, cached_store, content_of, write-read_cached}
use frangipani_yfs.Extent.Server.{SameKeys, serve-SameKeys, ExtentServer, serve, puts, empty_server}
use frangipani_yfs.Extent.Client.{ExtentClient, answered, lost, get, put, stamped}
use frangipani_yfs.Extent.Queues.{WellFormed, act_all, act_all-WellFormed, flushes, put-WellFormed}
use frangipani_yfs.Extent.Queues
use frangipani_yfs.Extent.Flush.{put_flush, put_flush-get}

abbrev empty_client : ExtentClient
empty_client = record {
  cache = empty_server;
  modified_extents = [];
  modified_extent_attributes = [];
  removed_extents = [];
}

empty-WellFormed : WellFormed empty_client
unfolding nodup elem
empty-WellFormed = (refl, refl, refl, λ i. (refl, refl, refl, λ h. refl))

abbrev hello : Bytes
hello = 104 ∷ 105 ∷ []

act_all-WellFormed_example : WellFormed (
    (act_all
      (Queues.puts 3 5 hello ∷ flushes lost lost 5 ∷ Queues.removes 5 ∷ [])
      (empty_client, empty_server)).0)
act_all-WellFormed_example =
    act_all-WellFormed (Queues.puts 3 5 hello ∷ flushes lost lost 5 ∷ Queues.removes 5 ∷ [])
      (empty_client, empty_server) empty-WellFormed

put_flush-get_example :
    let t = (put_flush lost 3 5 hello empty_client empty_server).1 in
    let r = get answered answered 9 5 [] empty_client t in
    (r.status ≡ ok) × (r.value ≡ hello) × (r.client.cache.extents 5 ≡ some hello)
put_flush-get_example =
    put_flush-get lost 3 5 9 hello [] empty_client empty_client empty_server empty-WellFormed refl

abbrev holding : ExtentClient
holding = (put 3 5 hello empty_client empty_server).client

holding-WellFormed : WellFormed holding
holding-WellFormed = put-WellFormed 3 5 hello empty_client empty_server empty-WellFormed

holding_has : is_some (holding.cache.extents 5) ≡ true
unfolding put
holding_has = refl

abbrev stored : ExtentServer
stored = serve (puts 5 hello (stamped 1 hello)) empty_server

stored_has : (stored.extents 5 ≡ some hello) × (stored.extent_attrs 5 ≡ some (stamped 1 hello))
unfolding serve
stored_has = (refl, refl)

-- A new client, whose cache is empty, and a server that has the extent 5.
abbrev one_extent : ExtentServer
one_extent = (Server.put 5 hello (stamped 1 hello) empty_server).server

one_extent-SameKeys : SameKeys one_extent
unfolding Server.put serve
one_extent-SameKeys = serve-SameKeys (puts 5 hello (stamped 1 hello)) empty_server (λ i. refl)

abbrev new_world : World
new_world = record {
  client = empty_client;
  remote = one_extent;
  tick = 0;
  well = empty-WellFormed;
  keys = one_extent-SameKeys;
}

has_hello : content_of (λ t. t) (λ t. lost) (λ t. answered) new_world 5 ≡ some hello
unfolding content held elem Server.put
has_hello = refl

-- The first flush is lost, so that the read finds the extent in the cache.
write-read_cached_example :
    let w = cached_store (λ t. t) (λ t. lost) (λ t. answered) in
    let s = (write w 5 (7 ∷ []) 3 new_world).1 in
    let r = read w 5 1 3 s in
    ((write w 5 (7 ∷ []) 3 new_world).0 ≡ ok)
    × (r.0 ≡ ok)
    × (r.1 ≡ 7 ∷ [])
    × ((j : ℕ)
        → (5 == j) ≡ false
        → content_of (λ t. t) (λ t. lost) (λ t. answered) s j
          ≡ content_of (λ t. t) (λ t. lost) (λ t. answered) new_world j)
write-read_cached_example =
    write-read_cached (λ t. t) (λ t. lost) (λ t. answered) 5 3 (7 ∷ []) hello new_world has_hello
      (omega arith)
