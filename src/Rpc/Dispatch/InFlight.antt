-- ===== src/Rpc/Dispatch/InFlight.antt =====
-- The entry of a request whose handler is at work: it is in the table, without a reply (rpc/rpc.cc).
use frangipani_yfs.Prelude.{
  ℕ, ◌≡◌, ◌≢◌, refl, Bool, true, false, not, ◌&&◌, [], ◌∷◌, ◌++◌, List, ◌==◌, Option, none, some,
  is_some, arith, Option-cases, inl, inr,
}
use frangipani_yfs.Rpc.Reply.{
  ReplyT, Table, new, clear_all, find_reply, state_of, checked, check, fill, on_filled, add_reply,
}

unfoldable pub open_entry : Option ReplyT → Bool
open_entry none = false
open_entry (some e) = not e.cb_present && e.buf == 0

unfoldable pub in_flight : ℕ → List ReplyT → Bool
unfolding open_entry find_reply
in_flight xid es = open_entry (find_reply xid es)

in_flight-clear_all :
    (x rep : ℕ) (es : List ReplyT) → in_flight x es ≡ true → in_flight x (clear_all rep es) ≡ true
unfolding in_flight clear_all
in_flight-clear_all x rep [] h = cc
in_flight-clear_all x rep (e ∷ es) h = ground (arith, in_flight-clear_all x rep es)

in_flight-append :
    (x : ℕ) (es : List ReplyT) (e : ReplyT)
    → in_flight x es ≡ true
    → in_flight x (es ++ e ∷ []) ≡ true
unfolding in_flight
in_flight-append x [] e h = cc
in_flight-append x (d ∷ es) e h = ground (arith, in_flight-append x es e)

in_flight-new :
    (x : ℕ) (es : List ReplyT)
    → find_reply x es ≡ none
    → in_flight x (es ++ record { xid = x; cb_present = false; buf = 0; sz = 0 } ∷ []) ≡ true
unfolding in_flight
in_flight-new x [] h = ground arith
in_flight-new x (d ∷ es) h = ground (arith, in_flight-new x es)

in_flight-fill :
    (x y b sz : ℕ) (es r : List ReplyT)
    → y ≢ x
    → fill y b sz es ≡ some r
    → in_flight x es ≡ true
    → in_flight x r ≡ true
unfolding in_flight fill
in_flight-fill x y b sz [] r ne h k = cc
in_flight-fill x y b sz (e ∷ es) r ne h k = elim (Option-cases (fill y b sz es)) [
  | inl n ↦ ground (arith, n)
  | inr (s, q) ↦ ground (arith, q, in_flight-fill x y b sz es s ne q)
]

fill-in_flight :
    (x b sz : ℕ) (es : List ReplyT) → in_flight x es ≡ true → is_some (fill x b sz es) ≡ true
unfolding in_flight fill
fill-in_flight x b sz [] h = cc
fill-in_flight x b sz (e ∷ es) h = elim (Option-cases (fill x b sz es)) [
  | inl n ↦ ground (arith, n, fill-in_flight x b sz es)
  | inr (s, q) ↦ ground (arith, q)
]

checked-in_flight :
    (c y clt xid rep : ℕ) (t : Table) (copy : List ReplyT) (fs : List ℕ) (o : Option ReplyT)
    → (in_flight y (t clt) ≡ true → in_flight y copy ≡ true)
    → in_flight y (t c) ≡ true
    → in_flight y ((checked clt xid rep t copy fs o).table c) ≡ true
unfolding checked
checked-in_flight c y clt xid rep t copy fs none e h =
    ground
      (arith, in_flight-append y copy (record { xid = xid; cb_present = false; buf = 0; sz = 0 }))
checked-in_flight c y clt xid rep t copy fs (some r) e h = h

pub check-in_flight :
    (c y clt xid rep : ℕ) (t : Table)
    → in_flight y (t c) ≡ true
    → in_flight y ((check clt xid rep t).table c) ≡ true
unfolding check
check-in_flight c y clt xid rep t h =
    checked-in_flight c y clt xid rep t (clear_all rep (t clt)) _ _
      (in_flight-clear_all y rep (t clt)) h

checked-starts :
    (clt xid rep : ℕ) (t : Table) (copy : List ReplyT) (fs : List ℕ) (o : Option ReplyT)
    → find_reply xid copy ≡ o
    → (checked clt xid rep t copy fs o).state ≡ new
    → in_flight xid ((checked clt xid rep t copy fs o).table clt) ≡ true
unfolding checked state_of
checked-starts clt xid rep t copy fs none e h = ground (arith, in_flight-new xid copy e)
checked-starts clt xid rep t copy fs (some e) q h = absurd (ground arith)

pub check-starts :
    (clt xid rep : ℕ) (t : Table)
    → (check clt xid rep t).state ≡ new
    → in_flight xid ((check clt xid rep t).table clt) ≡ true
unfolding check
check-starts clt xid rep t h = checked-starts clt xid rep t _ _ _ refl h

filled-in_flight :
    (c x clt xid b sz : ℕ) (t u : Table) (o : Option (List ReplyT))
    → fill xid b sz (t clt) ≡ o
    → on_filled clt t o ≡ some u
    → (clt == c && xid == x) ≡ false
    → in_flight x (t c) ≡ true
    → in_flight x (u c) ≡ true
unfolding on_filled
filled-in_flight c x clt xid b sz t u none q e s h = cc
filled-in_flight c x clt xid b sz t u (some l) q e s h =
    ground (arith, in_flight-fill x xid b sz (t clt) l)

pub add_reply-in_flight :
    (c x clt xid b sz : ℕ) (t u : Table)
    → add_reply clt xid b sz t ≡ some u
    → (clt == c && xid == x) ≡ false
    → in_flight x (t c) ≡ true
    → in_flight x (u c) ≡ true
unfolding add_reply
add_reply-in_flight c x clt xid b sz t u e s h = filled-in_flight c x clt xid b sz t u _ refl e s h

filled-some :
    (clt : ℕ) (t : Table) (o : Option (List ReplyT))
    → is_some o ≡ true
    → is_some (on_filled clt t o) ≡ true
unfolding on_filled
filled-some clt t none h = cc
filled-some clt t (some l) h = refl

pub add_reply-some :
    (clt xid b sz : ℕ) (t : Table)
    → in_flight xid (t clt) ≡ true
    → is_some (add_reply clt xid b sz t) ≡ true
unfolding add_reply
add_reply-some clt xid b sz t h = filled-some clt t _ (fill-in_flight xid b sz (t clt) h)
