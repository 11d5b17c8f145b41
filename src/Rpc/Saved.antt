-- ===== src/Rpc/Saved.antt =====
-- The saved replies (rpc/rpc.cc): what a duplicate gets, and which buffers are freed.
use frangipani_yfs.Prelude.{
  ℕ, ◌≤◌, ◌<◌, ◌≡◌, ◌≢◌, refl, sym, ap, true, false, [], ◌∷◌, ◌++◌, List, ◌==◌, Option, none, some,
  get_or, arith, Bool-cases, Option-cases, inl, inr, ◌⊎◌, elem, subst,
}
use frangipani_yfs.Rpc.Reply.{
  ReplyT, Table, new, done, clear_all, freed, find_reply, state_of, checked, check, fill, on_filled,
  add_reply,
}
use frangipani_yfs.Rpc.AtMostOnce.{Op, checks, replies, keep_table, apply, apply_all, known}

-- The entry that a filled request leaves.
abbrev pub saved : ℕ → ℕ → ℕ → ReplyT
saved xid b sz = record { xid = xid; cb_present = true; buf = b; sz = sz }

-- An operation that does not touch the saved reply of the client's request: no check acknowledges
-- it, and no other reply is added for it.
abbrev pub Spares : ℕ → ℕ → Op → Type 0
Spares clt xid (checks c x rep) = (c ≢ clt) ⊎ (rep < xid)
Spares clt xid (replies c x b sz) = (c ≢ clt) ⊎ (x ≢ xid)

abbrev pub AllSpare : ℕ → ℕ → List Op → Type 0
AllSpare clt xid [] = Unit
AllSpare clt xid (o ∷ os) = Spares clt xid o × AllSpare clt xid os

find-clear_all :
    (x rep : ℕ) (es : List ReplyT) (e : ReplyT)
    → rep < x
    → find_reply x es ≡ some e
    → find_reply x (clear_all rep es) ≡ some e
unfolding find_reply clear_all
find-clear_all x rep [] e lt h = cc
find-clear_all x rep (d ∷ es) e lt h = ground (arith, find-clear_all x rep es e lt)

find-append :
    (x : ℕ) (es : List ReplyT) (d e : ReplyT)
    → find_reply x es ≡ some e
    → find_reply x (es ++ d ∷ []) ≡ some e
unfolding find_reply
find-append x [] d e h = cc
find-append x (c ∷ es) d e h = ground (arith, find-append x es d e)

find-fill_ne :
    (x y b sz : ℕ) (es r : List ReplyT)
    → y ≢ x
    → fill y b sz es ≡ some r
    → find_reply x r ≡ find_reply x es
unfolding find_reply fill
find-fill_ne x y b sz [] r ne h = ground arith
find-fill_ne x y b sz (e ∷ es) r ne h = elim (Option-cases (fill y b sz es)) [
  | inl n ↦ ground (arith, n)
  | inr (s, q) ↦ ground (arith, q, find-fill_ne x y b sz es s ne q)
]

find-fill :
    (x b sz : ℕ) (es r : List ReplyT)
    → known x es ≡ true
    → fill x b sz es ≡ some r
    → find_reply x r ≡ some (saved x b sz)
unfolding find_reply fill known
find-fill x b sz [] r k h = cc
find-fill x b sz (e ∷ es) r k h = elim (Option-cases (fill x b sz es)) [
  | inl n ↦ ground (arith, n)
  | inr (s, q) ↦ ground (arith, q, find-fill x b sz es s)
]

checked-find :
    (c x clt xid rep : ℕ) (t : Table) (copy : List ReplyT) (fs : List ℕ) (o : Option ReplyT)
    (e : ReplyT)
    → find_reply x (t c) ≡ some e
    → ((clt ≢ c) ⊎ (find_reply x copy ≡ some e))
    → find_reply x ((checked clt xid rep t copy fs o).table c) ≡ some e
unfolding checked
checked-find c x clt xid rep t copy fs none e h k =
    ground (arith, find-append x copy (record { xid = xid; cb_present = false; buf = 0; sz = 0 }) e)
checked-find c x clt xid rep t copy fs (some r) e h k = h

spared_copy :
    (c x clt rep : ℕ) (t : Table) (e : ReplyT)
    → find_reply x (t c) ≡ some e
    → ((clt ≢ c) ⊎ (rep < x))
    → (clt ≢ c) ⊎ (find_reply x (clear_all rep (t clt)) ≡ some e)
spared_copy c x clt rep t e h (inl ne) = inl ne
spared_copy c x clt rep t e h (inr lt) = elim (Bool-cases (clt == c)) [
  | inl same ↦ inr (find-clear_all x rep (t clt) e lt (rw (eq_of clt c same) h))
  | inr ne ↦ inl (λ q. ground arith)
]
  where
    eq_of : (a b : ℕ) → (a == b) ≡ true → a ≡ b
    eq_of a b q = ground arith

filled-find :
    (c x clt xid b sz : ℕ) (t : Table) (o : Option (List ReplyT)) (e : ReplyT)
    → fill xid b sz (t clt) ≡ o
    → find_reply x (t c) ≡ some e
    → ((clt ≢ c) ⊎ (xid ≢ x))
    → find_reply x (keep_table t (on_filled clt t o) c) ≡ some e
unfolding keep_table on_filled
filled-find c x clt xid b sz t none e q h s = h
filled-find c x clt xid b sz t (some l) e q h (inl ne) = ground arith
filled-find c x clt xid b sz t (some l) e q h (inr ne) =
    ground (arith, find-fill_ne x xid b sz (t clt) l ne q)

apply-find :
    (c x : ℕ) (o : Op) (t : Table) (e : ReplyT)
    → Spares c x o
    → find_reply x (t c) ≡ some e
    → find_reply x (apply o t c) ≡ some e
unfolding apply check add_reply
apply-find c x (checks clt xid rep) t e s h =
    checked-find c x clt xid rep t (clear_all rep (t clt)) _ _ e h (spared_copy c x clt rep t e h s)
apply-find c x (replies clt xid b sz) t e s h = filled-find c x clt xid b sz t _ e refl h s

apply_all-find :
    (c x : ℕ) (os : List Op) (t : Table) (e : ReplyT)
    → AllSpare c x os
    → find_reply x (t c) ≡ some e
    → find_reply x (apply_all os t c) ≡ some e
unfolding apply_all
apply_all-find c x [] t e s h = h
apply_all-find c x (o ∷ os) t e s h =
    apply_all-find c x os (apply o t) e s.1 (apply-find c x o t e s.0 h)

some_inj : {A : Type 0} → (x y : A) → some x ≡ some y → x ≡ y
some_inj x y h = ap (λ o. get_or o x) h

filled-saved :
    (clt xid b sz : ℕ) (t u : Table) (o : Option (List ReplyT))
    → fill xid b sz (t clt) ≡ o
    → known xid (t clt) ≡ true
    → on_filled clt t o ≡ some u
    → find_reply xid (u clt) ≡ some (saved xid b sz)
unfolding on_filled
filled-saved clt xid b sz t u none q k h = cc
filled-saved clt xid b sz t u (some l) q k h =
    subst (λ w. find_reply xid (w clt) ≡ some (saved xid b sz)) (some_inj _ _ h)
      (ground (arith, find-fill xid b sz (t clt) l k q))

checked-state :
    (clt xid rep : ℕ) (t : Table) (copy : List ReplyT) (fs : List ℕ) (o : Option ReplyT) (b sz : ℕ)
    → o ≡ some (saved xid b sz)
    → (checked clt xid rep t copy fs o).state ≡ done b sz
unfolding checked state_of
checked-state clt xid rep t copy fs none b sz h = cc
checked-state clt xid rep t copy fs (some e) b sz h = ground arith

-- A duplicate gets the saved reply: once the reply of a known request is added, every later duplicate
-- is answered with that very buffer, until the client acknowledges the request.
pub duplicate-done :
    (clt xid rep b sz : ℕ) (os : List Op) (t u : Table)
    → known xid (t clt) ≡ true
    → add_reply clt xid b sz t ≡ some u
    → AllSpare clt xid os
    → rep < xid
    → (check clt xid rep (apply_all os u)).state ≡ done b sz
unfolding check add_reply
duplicate-done clt xid rep b sz os t u k h s lt =
    let v = apply_all os u in
    checked-state clt xid rep v (clear_all rep (v clt)) (freed rep (v clt)) _ b sz (
      find-clear_all xid rep (v clt) (saved xid b sz) lt
        (apply_all-find clt xid os u (saved xid b sz) s (filled-saved clt xid b sz t u _ refl k h)))

checked-old :
    (clt xid rep : ℕ) (t : Table) (copy : List ReplyT) (fs : List ℕ) (o : Option ReplyT)
    → (checked clt xid rep t copy fs o).state ≢ new
    → (checked clt xid rep t copy fs o).table ≡ t
unfolding checked
checked-old clt xid rep t copy fs none h = absurd (h refl)
checked-old clt xid rep t copy fs (some e) h = refl

freed-elem :
    (rep : ℕ) (es : List ReplyT) (x : ℕ) (e : ReplyT)
    → find_reply x es ≡ some e
    → e.xid ≤ rep
    → e.buf ≢ 0
    → elem e.buf (freed rep es) ≡ true
unfolding freed find_reply elem
freed-elem rep [] x e h le nz = cc
freed-elem rep (d ∷ es) x e h le nz = ground (arith, freed-elem rep es x e)

checked-frees :
    (clt xid rep : ℕ) (t : Table) (copy : List ReplyT) (fs : List ℕ) (o : Option ReplyT)
    → (checked clt xid rep t copy fs o).frees ≡ fs
unfolding checked
checked-frees clt xid rep t copy fs none = refl
checked-frees clt xid rep t copy fs (some e) = refl

-- A duplicate makes the server free a buffer twice: the acknowledged replies are freed, but the list
-- without them is stored only for a new request, so the next request frees the same buffers again.
pub duplicate_double_free :
    (clt xid rep x : ℕ) (t : Table) (e : ReplyT)
    → (check clt xid rep t).state ≢ new
    → find_reply x (t clt) ≡ some e
    → e.xid ≤ rep
    → e.buf ≢ 0
    → (elem e.buf (check clt xid rep t).frees ≡ true)
      × (elem e.buf (check clt xid rep (check clt xid rep t).table).frees ≡ true)
unfolding check
duplicate_double_free clt xid rep x t e dup h le nz =
    let once = freed-elem rep (t clt) x e h le nz in
    let same = checked-old clt xid rep t _ _ _ dup in
    (
      rw (checked-frees clt xid rep t (clear_all rep (t clt)) (freed rep (t clt)) _) once,
      subst (λ w. elem e.buf (check clt xid rep w).frees ≡ true) (sym same)
          (rw (checked-frees clt xid rep t (clear_all rep (t clt)) (freed rep (t clt)) _) once),
    )
