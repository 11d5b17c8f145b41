-- ===== src/Yfs/Files.antt =====
-- Reading what was written (yfs_client.cc), through the interface of the extent and lock clients.
use frangipani_yfs.Prelude.{
  ℕ, ◌≤◌, ◌≡◌, refl, ap, ◌∙◌, false, Option, some, if◌then◌else◌, ◌==◌, Bytes, length, arith,
}
use frangipani_yfs.Extent.Protocol.{ok}
use frangipani_yfs.Yfs.Contents.{written, read_part, written-read}
use frangipani_yfs.Yfs.Client.{Store, changed, put_back, write, part_of, read}

-- What the client relies on: the contents of the extents, which a get returns and a put sets, and
-- which taking and giving back a lock leave as they are, as long as no other client changes them.
pub record Keeps (w : Store) : Type 0 where
  pub content : w.State → ℕ → Option Bytes
  pub acquired : (i j : ℕ) (s : w.State) → content (w.acquire i s) j ≡ content s j
  pub released : (i j : ℕ) (s : w.State) → content (w.release i s) j ≡ content s j
  pub got :
      (i : ℕ) (b : Bytes) (s : w.State)
      → content s i ≡ some b
      → (t : w.State) × (w.get i s ≡ (ok, b, t)) × ((j : ℕ) → content t j ≡ content s j)
  pub did_put :
      (i : ℕ) (b : Bytes) (s : w.State)
      → (t : w.State) × (w.put i b s ≡ (ok, t))
        × ((j : ℕ) → content t j ≡ (if i == j then some b else content s j))

module _ (w : Store) (k : Keeps w) where
  changed-content :
      (i : ℕ) (f : Bytes → Bytes) (b : Bytes) (s : w.State)
      → k.content s i ≡ some b
      → ((changed w i f (w.get i s)).0 ≡ ok)
        × ((j : ℕ)
            → k.content ((changed w i f (w.get i s)).1) j
              ≡ (if i == j then some (f b) else k.content s j))
  unfolding changed put_back
  changed-content i f b s h =
      let (t, g, c) = k.got i b s h in
      let (u, p, d) = k.did_put i (f b) t in
      rw (g, p)
        ((refl, λ j. k.released i j u ∙ d j ∙ ap (λ x. if i == j then some (f b) else x) (c j)))

  pub read-content :
      (i size off : ℕ) (b : Bytes) (s : w.State)
      → k.content s i ≡ some b
      → ((read w i size off s).0 ≡ ok) × ((read w i size off s).1 ≡ read_part size off b)
  unfolding read part_of
  read-content i size off b s h =
      let (t, g, c) = k.got i b (w.acquire i s) (k.acquired i i s ∙ h) in rw g ((refl, refl))

  write-content :
      (i : ℕ) (buf : Bytes) (off : ℕ) (b : Bytes) (s : w.State)
      → k.content s i ≡ some b
      → ((write w i buf off s).0 ≡ ok)
        × ((j : ℕ)
            → k.content ((write w i buf off s).1) j
              ≡ (if i == j then some (written off buf b) else k.content s j))
  unfolding write
  write-content i buf off b s h =
      let c = changed-content i (written off buf) b (w.acquire i s) (k.acquired i i s ∙ h) in
      (
        c.0,
        λ j. c.1 j ∙ ap (λ x. if i == j then some (written off buf b) else x) (k.acquired i j s),
      )

  -- Over a store that keeps the contents, a file that exists can be written at any offset, also beyond
  -- its end, and a read of that many bytes at that offset then returns OK and the bytes written; the
  -- contents of the other files are as before.
  pub write-read :
      (i off : ℕ) (buf b : Bytes) (s : w.State)
      → k.content s i ≡ some b
      → 1 ≤ length buf
      → ((write w i buf off s).0 ≡ ok)
        × ((read w i (length buf) off ((write w i buf off s).1)).0 ≡ ok)
        × ((read w i (length buf) off ((write w i buf off s).1)).1 ≡ buf)
        × ((j : ℕ) → (i == j) ≡ false → k.content ((write w i buf off s).1) j ≡ k.content s j)
  write-read i off buf b s h l =
      let c = write-content i buf off b s h in
      let r =
        read-content i (length buf) off (written off buf b) ((write w i buf off s).1)
          (c.1 i ∙ ground arith) in
      (c.0, r.0, r.1 ∙ (written-read off buf b l).0, λ j n. c.1 j ∙ rw n refl)
