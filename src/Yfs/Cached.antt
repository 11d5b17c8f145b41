-- ===== src/Yfs/Cached.antt =====
-- The interface of yfs_client.cc, filled by the caching extent client and the extent server: one client
-- works on the extents, its fetches are answered, and each release of a lock may be asked back, with a
-- flush whose calls are answered or lost.
use frangipani_yfs.Prelude.{
  ℕ, ◌+◌, ◌≤◌, ◌≡◌, refl, false, [], ◌==◌, if◌then◌else◌, Option, some, Bytes, length,
}
use frangipani_yfs.Extent.Protocol.{Status, ok, Attr}
use frangipani_yfs.Extent.Server.{ExtentServer, SameKeys}
use frangipani_yfs.Extent.Server
use frangipani_yfs.Extent.Client.{
  ExtentClient, Fate, answered, get, getattr, put, remove, flush, no_attr,
}
use frangipani_yfs.Extent.Queues.{
  WellFormed, get-WellFormed, getattr-WellFormed, put-WellFormed, remove-WellFormed,
  flush-WellFormed,
}
use frangipani_yfs.Extent.Contents.{
  content, get-content, put-content, flush-content, get-SameKeys, getattr-SameKeys, flush-SameKeys,
}
use frangipani_yfs.Yfs.Client.{Store, write, read}
use frangipani_yfs.Yfs.Files.{Keeps, write-read}

-- The client and the server, in a sound state, and the number of operations so far.
pub record World : Type 0 where
  pub client : ExtentClient
  pub remote : ExtentServer
  pub tick : ℕ
  pub well : WellFormed client
  pub keys : SameKeys remote

unfoldable pub fetch : ℕ → ℕ → World → Status × Bytes × World
unfolding get
fetch now i s =
    let d = get answered answered now i [] s.client s.remote in
    (
      d.status,
      d.value,
      record {
        client = d.client;
        remote = d.remote;
        tick = s.tick + 1;
        well = get-WellFormed answered answered now i [] s.client s.remote s.well;
        keys = get-SameKeys answered answered now i [] s.client s.remote s.keys;
      },
    )

unfoldable pub fetch_attr : ℕ → ℕ → World → Status × Attr × World
unfolding getattr
fetch_attr now i s =
    let d = getattr answered answered now i no_attr s.client s.remote in
    (
      d.status,
      d.value,
      record {
        client = d.client;
        remote = d.remote;
        tick = s.tick + 1;
        well = getattr-WellFormed answered answered now i no_attr s.client s.remote s.well;
        keys = getattr-SameKeys answered answered now i no_attr s.client s.remote s.keys;
      },
    )

unfoldable pub store : ℕ → ℕ → Bytes → World → Status × World
unfolding put
store now i b s =
    let d = put now i b s.client s.remote in
    (
      d.status,
      record {
        client = d.client;
        remote = d.remote;
        tick = s.tick + 1;
        well = put-WellFormed now i b s.client s.remote s.well;
        keys = s.keys;
      },
    )

unfoldable pub drop : ℕ → World → Status × World
unfolding remove
drop i s =
    let d = remove i s.client s.remote in
    (
      d.status,
      record {
        client = d.client;
        remote = d.remote;
        tick = s.tick + 1;
        well = remove-WellFormed i s.client s.remote s.well;
        keys = s.keys;
      },
    )

unfoldable pub give_back : Fate → Fate → ℕ → World → World
unfolding flush
give_back f g i s =
    let p = flush f g i s.client s.remote in
    record {
      client = p.0;
      remote = p.1;
      tick = s.tick + 1;
      well = flush-WellFormed f g i s.client s.remote s.well;
      keys = flush-SameKeys f g i s.client s.remote s.keys;
    }

-- The time of each operation, and what becomes of the two calls of a flush.
module _ (now : ℕ → ℕ) (put_fate remove_fate : ℕ → Fate) where
  abbrev pub cached_store : Store
  cached_store = record {
    State = World;
    acquire = λ i s. s;
    release = λ i s. give_back (put_fate s.tick) (remove_fate s.tick) i s;
    get = λ i s. fetch (now s.tick) i s;
    put = λ i b s. store (now s.tick) i b s;
    getattr = λ i s. fetch_attr (now s.tick) i s;
    remove = λ i s. drop i s;
  }

  abbrev pub content_of : World → ℕ → Option Bytes
  content_of s i = content s.client s.remote i

  fetch-got :
      (t i : ℕ) (b : Bytes) (s : World)
      → content_of s i ≡ some b
      → (u : World) × (fetch t i s ≡ (ok, b, u)) × ((j : ℕ) → content_of u j ≡ content_of s j)
  unfolding fetch
  fetch-got t i b s h =
      let (e, v, c) = get-content t i b [] s.client s.remote s.well s.keys h in
      ((fetch t i s).2, rw (e, v) refl, c)

  store-put :
      (t i : ℕ) (b : Bytes) (s : World)
      → (u : World) × (store t i b s ≡ (ok, u))
        × ((j : ℕ) → content_of u j ≡ (if i == j then some b else content_of s j))
  unfolding store put Server.put
  store-put t i b s = ((store t i b s).1, refl, λ j. put-content t i j b s.client s.remote s.well)

  give_back-content :
      (f g : Fate) (i j : ℕ) (s : World) → content_of (give_back f g i s) j ≡ content_of s j
  unfolding give_back
  give_back-content f g i j s = flush-content f g i j s.client s.remote s.well

  -- The extent client keeps what the interface of yfs_client.cc asks for.
  abbrev cached_keeps : Keeps cached_store
  cached_keeps = record {
    content = content_of;
    acquired = λ i j s. refl;
    released = λ i j s. give_back-content (put_fate s.tick) (remove_fate s.tick) i j s;
    got = λ i b s h. fetch-got (now s.tick) i b s h;
    did_put = λ i b s. store-put (now s.tick) i b s;
  }

  -- Files over the caches: when yfs_client.cc runs over the caching extent client and the server, in any
  -- sound state, with flushes at any releases whose calls are answered or lost, and its fetches answered,
  -- then a write to an extent that has a content, and a read of the same bytes, both return OK, the read
  -- returns what was written, and no other extent's content changes, in the cache or at the server.
  pub write-read_cached :
      (i off : ℕ) (buf b : Bytes) (s : World)
      → content_of s i ≡ some b
      → 1 ≤ length buf
      → let s' = (write cached_store i buf off s).1 in
        let r = read cached_store i (length buf) off s' in
        ((write cached_store i buf off s).0 ≡ ok)
        × (r.0 ≡ ok)
        × (r.1 ≡ buf)
        × ((j : ℕ) → (i == j) ≡ false → content_of s' j ≡ content_of s j)
  write-read_cached i off buf b s h l = write-read cached_store cached_keeps i off buf b s h l
