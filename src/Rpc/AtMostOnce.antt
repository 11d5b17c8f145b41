-- ===== src/Rpc/AtMostOnce.antt =====
-- A request is executed at most once, and its duplicates get the saved reply (rpc/rpc.cc).
use frangipani_yfs.Prelude.{
  ℕ, ◌≡◌, ◌≢◌, refl, sym, ap, ◌∙◌, Bool, true, false, ◌||◌, [], ◌∷◌, ◌++◌, List, ◌==◌,
  if◌then◌else◌, Option, none, some, is_some, arith, Option-cases, inl, inr,
}
use frangipani_yfs.Rpc.Reply.{
  ReplyT, Table, new, clear_all, find_reply, state_of, checked, check, fill, on_filled, add_reply,
}

-- The calls that change the table.
pub data Op : Type 0 where
  checks : ℕ → ℕ → ℕ → Op
  replies : ℕ → ℕ → ℕ → ℕ → Op

unfoldable pub keep_table : Table → Option Table → Table
keep_table t none = t
keep_table t (some u) = u

-- A call whose assertion fails ends the program; here it changes nothing.
unfoldable pub apply : Op → Table → Table
unfolding keep_table
apply (checks clt xid rep) t = (check clt xid rep t).table
apply (replies clt xid b sz) t = keep_table t (add_reply clt xid b sz t)

unfoldable pub apply_all : List Op → Table → Table
apply_all [] t = t
apply_all (o ∷ os) t = apply_all os (apply o t)

-- The client's request is in the table.
unfoldable pub known : ℕ → List ReplyT → Bool
known xid [] = false
known xid (e ∷ es) = if e.xid == xid then true else known xid es

pub known-clear_all : (xid rep : ℕ) (es : List ReplyT) → known xid (clear_all rep es) ≡ known xid es
unfolding known clear_all
known-clear_all xid rep [] = refl
known-clear_all xid rep (e ∷ es) = ground (arith, known-clear_all xid rep es)

known-append :
    (xid : ℕ) (es : List ReplyT) (e : ReplyT)
    → known xid (es ++ e ∷ []) ≡ (known xid es || e.xid == xid)
unfolding known
known-append xid [] e = ground arith
known-append xid (d ∷ es) e = ground (arith, known-append xid es e)

pub known-find : (xid : ℕ) (es : List ReplyT) → known xid es ≡ is_some (find_reply xid es)
unfolding known find_reply
known-find xid [] = refl
known-find xid (e ∷ es) = ground (arith, known-find xid es)

known-fill :
    (xid x b sz : ℕ) (es r : List ReplyT) → fill x b sz es ≡ some r → known xid r ≡ known xid es
unfolding known fill
known-fill xid x b sz [] r h = ground arith
known-fill xid x b sz (e ∷ es) r h = elim (Option-cases (fill x b sz es)) [
  | inl n ↦ ground (arith, n)
  | inr (s, q) ↦ ground (arith, q, known-fill xid x b sz es s q)
]

checked-known :
    (c y clt xid rep : ℕ) (t : Table) (copy : List ReplyT) (fs : List ℕ) (o : Option ReplyT)
    → known y copy ≡ known y (t clt)
    → known y (t c) ≡ true
    → known y ((checked clt xid rep t copy fs o).table c) ≡ true
unfolding checked
checked-known c y clt xid rep t copy fs none e h =
    ground (arith, known-append y copy (record { xid = xid; cb_present = false; buf = 0; sz = 0 }))
checked-known c y clt xid rep t copy fs (some r) e h = h

filled-known :
    (c y clt xid b sz : ℕ) (t : Table) (o : Option (List ReplyT))
    → fill xid b sz (t clt) ≡ o
    → known y (t c) ≡ true
    → known y (keep_table t (on_filled clt t o) c) ≡ true
unfolding keep_table on_filled
filled-known c y clt xid b sz t none e h = h
filled-known c y clt xid b sz t (some l) e h = ground (arith, known-fill y xid b sz (t clt) l e)

pub check-known :
    (c y clt xid rep : ℕ) (t : Table)
    → known y (t c) ≡ true
    → known y ((check clt xid rep t).table c) ≡ true
unfolding check
check-known c y clt xid rep t h =
    checked-known c y clt xid rep t (clear_all rep (t clt)) _ _ (known-clear_all y rep (t clt)) h

pub apply-known :
    (c y : ℕ) (o : Op) (t : Table) → known y (t c) ≡ true → known y (apply o t c) ≡ true
unfolding apply check add_reply
apply-known c y (checks clt xid rep) t h = check-known c y clt xid rep t h
apply-known c y (replies clt xid b sz) t h = filled-known c y clt xid b sz t _ refl h

apply_all-known :
    (c y : ℕ) (os : List Op) (t : Table) → known y (t c) ≡ true → known y (apply_all os t c) ≡ true
unfolding apply_all
apply_all-known c y [] t h = h
apply_all-known c y (o ∷ os) t h = apply_all-known c y os (apply o t) (apply-known c y o t h)

-- A request is new exactly if the table does not know it, and then the table knows it.
checked-new :
    (clt xid rep : ℕ) (t : Table) (copy : List ReplyT) (fs : List ℕ) (o : Option ReplyT)
    → ((checked clt xid rep t copy fs o).state ≡ new)
    → o ≡ none
unfolding checked state_of
checked-new clt xid rep t copy fs none h = refl
checked-new clt xid rep t copy fs (some e) h = ground arith

pub check-not_known :
    (clt xid rep : ℕ) (t : Table) → (check clt xid rep t).state ≡ new → known xid (t clt) ≡ false
unfolding check
check-not_known clt xid rep t h =
    let e = checked-new clt xid rep t _ _ _ h in
    sym (known-clear_all xid rep (t clt)) ∙ known-find xid (clear_all rep (t clt)) ∙ ap is_some e

checked-records :
    (clt xid rep : ℕ) (t : Table) (copy : List ReplyT) (fs : List ℕ) (o : Option ReplyT)
    → ((checked clt xid rep t copy fs o).state ≡ new)
    → known xid ((checked clt xid rep t copy fs o).table clt) ≡ true
unfolding checked state_of
checked-records clt xid rep t copy fs none h =
    ground
      (arith, known-append xid copy (record { xid = xid; cb_present = false; buf = 0; sz = 0 }))
checked-records clt xid rep t copy fs (some e) h = absurd (ground arith)

pub check-records :
    (clt xid rep : ℕ) (t : Table)
    → (check clt xid rep t).state ≡ new
    → known xid ((check clt xid rep t).table clt) ≡ true
unfolding check
check-records clt xid rep t h = checked-records clt xid rep t _ _ _ h

-- At most once: after a request was taken for new, it is never taken for new again, whatever requests
-- and replies of any clients come between, and whatever has been acknowledged.
pub new_once :
    (clt xid rep rep' : ℕ) (os : List Op) (t : Table)
    → (check clt xid rep t).state ≡ new
    → (check clt xid rep' (apply_all os (check clt xid rep t).table)).state ≢ new
new_once clt xid rep rep' os t h again =
    let u = (check clt xid rep t).table in
    absurd (
      clash (
        sym (apply_all-known clt xid os u (check-records clt xid rep t h))
        ∙ check-not_known clt xid rep' (apply_all os u) again))
  where
    clash : true ≡ false → ⊥
    clash e = cc
