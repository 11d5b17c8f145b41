-- ===== src/Handle/Counts.antt =====
-- The counts of handle.cc: no client that a handle still uses is deleted.
use frangipani_yfs.Prelude.{
  ◌<◌, elem, Runs, Runs-some, all_then, and_then-Runs, both_true, ℕ, ◌+◌, ◌-◌, ◌≤◌, ◌≡◌, refl, sym,
  ap, ◌∙◌, Bool, true, false, ◌&&◌, [], ◌∷◌, List, Bytes, ◌==◌, if◌then◌else◌, Option, none, some,
  arith, All, if_cases, str_eq, str_eq_eq, str_eq_refl, update_str, Bool-cases, inl, inr, ltb,
  subst,
}
use frangipani_yfs.Handle.{
  Hinfo, Manager, fetch, get_handle, drop_entry, delete_handle, give_back, returned, done_handle,
  Use, gets, dones, deletes, use_one, uses, no_handles,
}

-- The handles for a node that are out.
unfoldable pub out_for : Bytes → List (Bytes × ℕ) → ℕ
out_for m [] = 0
out_for m ((k, c) ∷ l) = (if str_eq k m then 1 else 0) + out_for m l

unfoldable pub count_of : Option Hinfo → ℕ
count_of none = 0
count_of (some h) = h.refcnt

-- The client of a handle is that of the entry.
unfoldable pub has_client : ℕ → Option Hinfo → Bool
has_client c none = false
has_client c (some h) = h.cl == c

abbrev pub Alive : (Bytes → Option Hinfo) → List (Bytes × ℕ) → Type 0
Alive f l = All (λ (p : Bytes × ℕ). has_client (p.1) (f (p.0)) ≡ true) l

-- The clients: those of the map were made, are not deleted, and belong to one node each.
abbrev pub Owned : (Bytes → Option Hinfo) → List ℕ → ℕ → Type 0
Owned f gone next =
    ((c : ℕ) (m : Bytes) → has_client c (f m) ≡ true → (c < next) × (elem c gone ≡ false))
    × ((c : ℕ) (m k : Bytes)
        → has_client c (f m) ≡ true
        → has_client c (f k) ≡ true
        → str_eq m k ≡ true)
    × ((c : ℕ) → next ≤ c → elem c gone ≡ false)

abbrev pub Counted : Manager → Type 0
Counted s =
    ((m : Bytes) → count_of (s.hmap m) ≡ out_for m s.out)
    × Alive s.hmap s.out
    × Owned s.hmap s.gone s.next_cl

-- An entry that changes but keeps its client, or that has no handle out.
Alive-update :
    (f : Bytes → Option Hinfo) (m : Bytes) (o : Option Hinfo) (l : List (Bytes × ℕ))
    → ((c : ℕ) → has_client c (f m) ≡ true → has_client c o ≡ true)
    → Alive f l
    → Alive (update_str f m o) l
Alive-update f m o [] k a = tt
Alive-update f m o ((x, c) ∷ l) k (h, a) = (
  if_cases (λ y. has_client c y ≡ true) (str_eq m x)
      (λ t. k c (subst (λ z. has_client c (f z) ≡ true) (sym (str_eq_eq m x t)) h)) (λ n. h),
  Alive-update f m o l k a,
)

Alive-erase :
    (f : Bytes → Option Hinfo) (m : Bytes) (o : Option Hinfo) (l : List (Bytes × ℕ))
    → out_for m l ≡ 0
    → Alive f l
    → Alive (update_str f m o) l
unfolding out_for
Alive-erase f m o [] z a = tt
Alive-erase f m o ((x, c) ∷ l) z (h, a) = (
  if_cases (λ y. has_client c y ≡ true) (str_eq m x) (λ t. absurd (ground (arith, z, same t)))
      (λ n. h),
  Alive-erase f m o l (ground arith) a,
)
  where
    same : str_eq m x ≡ true → str_eq x m ≡ true
    same t = rw (str_eq_eq m x t) (str_eq_refl x)

Alive-give_back :
    (f : Bytes → Option Hinfo) (m : Bytes) (l : List (Bytes × ℕ))
    → Alive f l
    → Alive f (give_back m l)
unfolding give_back
Alive-give_back f m [] a = tt
Alive-give_back f m ((x, c) ∷ l) (h, a) =
    if_cases (Alive f) (str_eq x m) (λ t. a) (λ n. (h, Alive-give_back f m l a))

out_for-give_back :
    (k m : Bytes) (l : List (Bytes × ℕ))
    → 1 ≤ out_for m l
    → out_for k l ≡ out_for k (give_back m l) + (if str_eq m k then 1 else 0)
unfolding out_for give_back
out_for-give_back k m [] h = absurd (omega arith)
out_for-give_back k m ((x, c) ∷ l) h = elim (Bool-cases (str_eq x m)) [
  | inl e ↦ ground (arith, ap (λ z. str_eq z k) (str_eq_eq x m e))
  | inr e ↦ ground (arith, out_for-give_back k m l)
]

-- A new entry, and one that is looked at elsewhere.
at_key :
    (f : Bytes → Option Hinfo) (m k : Bytes) (o : Option Hinfo) (n : ℕ) (l : List (Bytes × ℕ))
    → ((x : Bytes) → count_of (f x) ≡ out_for x l)
    → count_of o ≡ out_for m l + n
    → count_of (update_str f m o k) ≡ out_for k l + (if str_eq m k then n else 0)
at_key f m k o n l c e = elim (Bool-cases (str_eq m k)) [
  | inl t ↦ rw t (e ∙ ap (λ z. out_for z l + n) (str_eq_eq m k t))
  | inr t ↦ rw t (c k ∙ zero_right (out_for k l))
]
  where
    zero_right : (a : ℕ) → a ≡ a + 0
    zero_right a = omega arith

no_client : (c : ℕ) (o : Option Hinfo) → o ≡ none → has_client c o ≡ true → ⊥
unfolding has_client
no_client c none e q = cc
no_client c (some h) e q = cc

here_client :
    (f : Bytes → Option Hinfo) (m : Bytes) (h : Hinfo)
    → has_client h.cl (update_str f m (some h) m) ≡ true
unfolding has_client
here_client f m h = ground (arith, str_eq_refl m)

keeps_client :
    (f : Bytes → Option Hinfo) (m : Bytes) (h k : Hinfo)
    → f m ≡ some h
    → k.cl ≡ h.cl
    → (c : ℕ) → has_client c (f m) ≡ true
    → has_client c (some k) ≡ true
unfolding has_client
keeps_client f m h k e same c q = rw same (sym (ap (has_client c) e) ∙ q)

-- A map that has no more clients than before.
Owned-shrinks :
    (f g : Bytes → Option Hinfo) (gone : List ℕ) (next : ℕ)
    → ((c : ℕ) (m : Bytes) → has_client c (g m) ≡ true → has_client c (f m) ≡ true)
    → Owned f gone next
    → Owned g gone next
Owned-shrinks f g gone next k (a, b, d) =
    ((λ c m h. a c m (k c m h)), (λ c m x h j. b c m x (k c m h) (k c x j)), d)

-- An entry that changes and keeps its client.
Owned-update :
    (f : Bytes → Option Hinfo) (m : Bytes) (h k : Hinfo) (gone : List ℕ) (next : ℕ)
    → f m ≡ some h
    → k.cl ≡ h.cl
    → Owned f gone next
    → Owned (update_str f m (some k)) gone next
unfolding has_client
Owned-update f m h k gone next e same o =
    Owned-shrinks f (update_str f m (some k)) gone next
      (λ c x q. elim (Bool-cases (str_eq m x)) [
        | inl t ↦
            subst (λ z. has_client c (f z) ≡ true) (str_eq_eq m x t)
              (ap (has_client c) e ∙ ground (arith, q, same))
        | inr t ↦ ground (arith, q)
      ])
      o

Owned-new :
    (f : Bytes → Option Hinfo) (m : Bytes) (h : Hinfo) (gone : List ℕ)
    → Owned f gone h.cl
    → Owned (update_str f m (some h)) gone (h.cl + 1)
unfolding has_client
Owned-new f m h gone (a, b, d) = (
  (λ c x q. elim (Bool-cases (str_eq m x)) [
    | inl t ↦ (ground (arith, q), d c (ground (arith, q)))
    | inr t ↦ let (l, e) = a c x (ground (arith, q)) in (omega (arith, l), e)
  ]),
  (λ c x y p q. elim (Bool-cases (str_eq m x)) [
    | inl t ↦ elim (Bool-cases (str_eq m y)) [
      | inl u ↦ subst (λ z. str_eq z y ≡ true) (str_eq_eq m x t) u
      | inr u ↦ absurd (ground (arith, p, (a c y (ground (arith, q))).0))
    ]
    | inr t ↦ elim (Bool-cases (str_eq m y)) [
      | inl u ↦ absurd (ground (arith, q, (a c x (ground (arith, p))).0))
      | inr u ↦ b c x y (ground (arith, p)) (ground (arith, q))
    ]
  ]),
  (λ c l. d c (omega (arith, l))),
)

Owned-later :
    (f : Bytes → Option Hinfo) (gone : List ℕ) (next : ℕ)
    → Owned f gone next
    → Owned f gone (next + 1)
Owned-later f gone next (a, b, d) =
    ((λ c m h. let (l, e) = a c m h in (omega (arith, l), e)), b, (λ c l. d c (omega (arith, l))))

-- An entry that is erased, its client deleted.
Owned-erase :
    (f : Bytes → Option Hinfo) (m : Bytes) (h : Hinfo) (gone : List ℕ) (next : ℕ)
    → f m ≡ some h
    → Owned f gone next
    → Owned (update_str f m none) (h.cl ∷ gone) next
unfolding has_client elem
Owned-erase f m h gone next e (a, b, d) =
    let here : has_client h.cl (f m) ≡ true = ap (has_client h.cl) e ∙ ground arith in
    (
      (λ c x q. elim (Bool-cases (str_eq m x)) [
        | inl t ↦ absurd (ground (arith, q))
        | inr t ↦
            let old : has_client c (f x) ≡ true = ground (arith, q) in
            (
              (a c x old).0,
              ground (
                arith,
                (a c x old).1,
                λ (z : h.cl ≡ c). b c m x (subst (λ y. has_client y (f m) ≡ true) z here) old,
              ),
            )
      ]),
      (λ c x y p q. elim (Bool-cases (str_eq m x)) [
        | inl t ↦ absurd (ground (arith, p))
        | inr t ↦ elim (Bool-cases (str_eq m y)) [
          | inl u ↦ absurd (ground (arith, q))
          | inr u ↦ b c x y (ground (arith, p)) (ground (arith, q))
        ]
      ]),
      (λ c l. ground (arith, d c l, (a h.cl m here).0)),
    )

fetch-Counted :
    (m : Bytes) (bound : Bool) (s : Manager) (o : Option Hinfo)
    → s.hmap m ≡ o
    → Counted s
    → Counted (fetch m bound s o)
unfolding fetch out_for count_of
fetch-Counted m false s none e (c, a, w) = (c, a, Owned-later s.hmap s.gone s.next_cl w)
fetch-Counted m true s none e (c, a, w) =
    let h : Hinfo = record { cl = s.next_cl; refcnt = 1; del = false } in
    (
      (λ k.
          at_key s.hmap m k (some h) 1 s.out c (ground (arith, c m, ap count_of e)) ∙ omega arith),
      (
        here_client s.hmap m h,
        Alive-update s.hmap m (some h) s.out (λ x q. absurd (no_client x (s.hmap m) e q)) a,
      ),
      Owned-new s.hmap m h s.gone w,
    )
fetch-Counted m bound s (some h) e (c, a, w) =
    if_cases Counted h.del (λ t. (c, a, w))
      (λ n.
        let k : Hinfo = record h { refcnt = h.refcnt + 1 } in
        (
          (λ x.
              at_key s.hmap m x (some k) 1 s.out c (ground (arith, c m, ap count_of e))
              ∙ omega arith),
          (
            here_client s.hmap m k,
            Alive-update s.hmap m (some k) s.out (keeps_client s.hmap m h k e refl) a,
          ),
          Owned-update s.hmap m h k s.gone s.next_cl e refl w,
        ))

drop-Counted :
    (m : Bytes) (s : Manager) (o : Option Hinfo)
    → s.hmap m ≡ o
    → Counted s
    → Counted (drop_entry m s o)
unfolding drop_entry count_of
drop-Counted m s none e i = i
drop-Counted m s (some h) e (c, a, w) =
    if_cases Counted (h.refcnt == 0)
      (λ t. (
        (λ k. at_key s.hmap m k none 0 s.out c (ground (arith, c m, ap count_of e)) ∙ ground arith),
        Alive-erase s.hmap m none s.out (ground (arith, c m, ap count_of e)) a,
        Owned-erase s.hmap m h s.gone s.next_cl e w,
      ))
      (λ n.
        let k : Hinfo = record h { del = true } in
        (
          (λ x.
              at_key s.hmap m x (some k) 0 s.out c (ground (arith, c m, ap count_of e))
              ∙ ground arith),
          Alive-update s.hmap m (some k) s.out (keeps_client s.hmap m h k e refl) a,
          Owned-update s.hmap m h k s.gone s.next_cl e refl w,
        ))

count_back :
    (m x : Bytes) (s : Manager) (h k : Hinfo)
    → s.hmap m ≡ some h
    → k.refcnt + 1 ≡ h.refcnt
    → ((y : Bytes) → count_of (s.hmap y) ≡ out_for y s.out)
    → count_of (update_str s.hmap m (some k) x) ≡ out_for x (give_back m s.out)
unfolding count_of
count_back m x s h k e less c =
    let b : 1 ≤ out_for m s.out = ground (arith, c m, ap count_of e) in
    elim (Bool-cases (str_eq m x)) [
      | inl t ↦ rw t (
          ground (arith, c m, ap count_of e, out_for-give_back m m s.out b, str_eq_refl m)
          ∙ ap (λ z. out_for z (give_back m s.out)) (str_eq_eq m x t))
      | inr t ↦ rw t (c x ∙ ground (arith, out_for-give_back x m s.out b))
    ]

at_itself : (f : Bytes → Option Hinfo) (m : Bytes) (o : Option Hinfo) → update_str f m o m ≡ o
at_itself f m o = rw (str_eq_refl m) refl

returned-Counted :
    (m : Bytes) (s : Manager) (o : Option Hinfo)
    → s.hmap m ≡ o
    → 1 ≤ out_for m s.out
    → Counted s
    → Runs Counted (returned m s o)
unfolding returned
returned-Counted m s none e b (c, a, w) =
    absurd (unfold count_of in ground (arith, c m, ap count_of e))
returned-Counted m s (some h) e b (c, a, w) =
    let k : Hinfo = record h { refcnt = h.refcnt - 1 } in
    if_cases (Runs Counted) (h.refcnt == 0)
      (λ t. absurd (unfold count_of in ground (arith, c m, ap count_of e)))
      (λ n.
        let t : Manager = record s {
          hmap = update_str s.hmap m (some k);
          out = give_back m s.out;
        } in
        let i : Counted t = (
          (λ x. count_back m x s h k e (ground arith) c),
          Alive-update s.hmap m (some k) (give_back m s.out) (keeps_client s.hmap m h k e refl)
              (Alive-give_back s.hmap m s.out a),
          Owned-update s.hmap m h k s.gone s.next_cl e refl w,
        ) in
        if_cases (Runs Counted) (k.refcnt == 0 && k.del)
          (λ z. drop-Counted m t (some k) (at_itself s.hmap m (some k)) i) (λ z. i))

-- What the program does: a handle is given back only while it is out.
unfoldable pub may_use : Use → Manager → Bool
unfolding out_for
may_use (gets m bound) s = true
may_use (dones m) s = ltb 0 (out_for m s.out)
may_use (deletes m) s = true

unfoldable pub all_may : List Use → Manager → Bool
unfolding may_use all_then use_one
all_may [] s = true
all_may (u ∷ us) s = may_use u s && all_then (λ t. all_may us t) (use_one u s)

use-Counted : (u : Use) (s : Manager) → may_use u s ≡ true → Counted s → Runs Counted (use_one u s)
unfolding use_one may_use get_handle done_handle delete_handle
use-Counted (gets m bound) s y i = fetch-Counted m bound s (s.hmap m) refl i
use-Counted (dones m) s y i = returned-Counted m s (s.hmap m) refl (ground arith) i
use-Counted (deletes m) s y i = drop-Counted m s (s.hmap m) refl i

uses-Counted :
    (us : List Use) (s : Manager) → all_may us s ≡ true → Counted s → Runs Counted (uses us s)
unfolding uses all_may
uses-Counted [] s y i = i
uses-Counted (u ∷ us) s y i =
    let (p, q) = both_true (may_use u s) _ y in
    and_then-Runs Counted (λ t. all_may us t) (λ t. uses us t) (use_one u s)
      (λ t b j. uses-Counted us t b j) q (use-Counted u s p i)

not_gone :
    (f : Bytes → Option Hinfo) (gone : List ℕ) (next : ℕ) (l : List (Bytes × ℕ))
    → Owned f gone next
    → Alive f l
    → All (λ (p : Bytes × ℕ). elem (p.1) gone ≡ false) l
not_gone f gone next [] w a = tt
not_gone f gone next ((m, c) ∷ l) w (h, a) = (((w.0) c m h).1, not_gone f gone next l w a)

no_handles-Owned : Owned (λ _. none) [] 0
unfolding has_client elem
no_handles-Owned = ((λ c m h. cc), (λ c m k h j. cc), (λ c l. refl))

-- A client that is in use is never deleted: whatever handles are taken and nodes are dropped, if a
-- handle is given back only while it is out, no use of an entry that is gone happens, the count of an
-- entry is the number of its handles that are out, and the client of each such handle is the one that
-- the map still has for the node and is none of those that were deleted.
pub handles-Counted :
    (us : List Use)
    → all_may us no_handles ≡ true
    → (s : Manager) × (uses us no_handles ≡ some s)
      × ((m : Bytes) → count_of (s.hmap m) ≡ out_for m s.out)
      × All (λ (p : Bytes × ℕ). has_client (p.1) (s.hmap (p.0)) ≡ true) s.out
      × All (λ (p : Bytes × ℕ). elem (p.1) s.gone ≡ false) s.out
unfolding count_of out_for
handles-Counted us y =
    let (s, (e, (c, a, w))) =
      Runs-some Counted _ (uses-Counted us no_handles y ((λ m. refl), tt, no_handles-Owned)) in
    (s, e, c, a, not_gone s.hmap s.gone s.next_cl s.out w a)
