-- ===== src/Config/Heartbeats.antt =====
-- Whom the heartbeater of config.cc asks to remove, and what the next view holds then.
use frangipani_yfs.Prelude.{
  zero, suc, ◌+◌, ◌<◌, none, length, Bool-cases, Option-cases, ℕ, ◌≤◌, ◌≡◌, refl, ap, subst, get_or,
  sym, ◌∙◌, true, false, [], ◌∷◌, List, Bytes, some, arith, All, if_cases, ltb, str_eq, elem_str,
  str_eq_eq, str_eq_refl, inl, inr, ◌⊎◌,
}
use frangipani_yfs.Config.{
  Config, number_of, smallest, Heartbeat, is_ok, Round, quiet, asks, at, bad_at, pinged, looked_at,
  first_bad, beat,
}

some_inj : (x y : Bytes) → some x ≡ some y → x ≡ y
some_inj x y h = ap (λ o. get_or o x) h

later : (y x : Bytes) (xs : List Bytes) → elem_str y xs ≡ true → elem_str y (x ∷ xs) ≡ true
unfolding elem_str
later y x xs h = ground arith

same : (y x : Bytes) (xs : List Bytes) → y ≡ x → elem_str y (x ∷ xs) ≡ true
unfolding elem_str
same y x xs e = rw e (ground (arith, str_eq_refl x))

-- The node found is one of those looked at, and none of them has a smaller number.
smallest-In :
    (junk : ℕ) (m : Bytes) (xs : List Bytes)
    → (smallest junk m xs ≡ m) ⊎ (elem_str (smallest junk m xs) xs ≡ true)
unfolding smallest
smallest-In junk m [] = inl refl
smallest-In junk m (x ∷ xs) =
    if_cases (λ k. (smallest junk k xs ≡ m) ⊎ (elem_str (smallest junk k xs) (x ∷ xs) ≡ true))
      (ltb (number_of junk x) (number_of junk m)) (λ t. inr (taken (smallest-In junk x xs)))
      (λ f. passed (smallest-In junk m xs))
  where
    taken :
        ((smallest junk x xs ≡ x) ⊎ (elem_str (smallest junk x xs) xs ≡ true))
        → elem_str (smallest junk x xs) (x ∷ xs) ≡ true
    taken (inl e) = same (smallest junk x xs) x xs e
    taken (inr h) = later (smallest junk x xs) x xs h

    passed :
        ((smallest junk m xs ≡ m) ⊎ (elem_str (smallest junk m xs) xs ≡ true))
        → (smallest junk m xs ≡ m) ⊎ (elem_str (smallest junk m xs) (x ∷ xs) ≡ true)
    passed (inl e) = inl e
    passed (inr h) = inr (later (smallest junk m xs) x xs h)

smallest-le :
    (junk : ℕ) (m : Bytes) (xs : List Bytes)
    → (number_of junk (smallest junk m xs) ≤ number_of junk m)
      × All (λ x. number_of junk (smallest junk m xs) ≤ number_of junk x) xs
unfolding smallest
smallest-le junk m [] = (omega arith, tt)
smallest-le junk m (x ∷ xs) =
    if_cases
      (λ k.
        (number_of junk (smallest junk k xs) ≤ number_of junk m)
        × All (λ y. number_of junk (smallest junk k xs) ≤ number_of junk y) (x ∷ xs))
      (ltb (number_of junk x) (number_of junk m))
      (λ t. let (l, a) = smallest-le junk x xs in (ground arith, (l, a)))
      (λ f. let (l, a) = smallest-le junk m xs in (l, (ground arith, a)))

at-elem :
    (i : ℕ) (xs : List Bytes) (x : Bytes)
    → at i xs ≡ some x
    → (i < length xs) × (elem_str x xs ≡ true)
unfolding at
at-elem i [] x h = cc
at-elem zero (y ∷ xs) x h = (omega arith, same x y xs (sym (some_inj y x h)))
at-elem (suc i) (y ∷ xs) x h = let (l, e) = at-elem i xs x h in (omega (arith, l), later x y xs e)

at-none : (i : ℕ) (xs : List Bytes) → at i xs ≡ none → length xs ≤ i
unfolding at
at-none i [] h = omega arith
at-none zero (y ∷ xs) h = cc
at-none (suc i) (y ∷ xs) h = omega (arith, at-none i xs h)

abbrev pub Pings : Type 0
Pings = ℕ → Bytes → Heartbeat × List Bytes

-- A member other than the node that failed its ping.
abbrev pub Failed : Pings → Bytes → List Bytes → Bytes → Type 0
Failed ping me ms x =
    (elem_str x ms ≡ true) × (str_eq x me ≡ false) × ((i : ℕ) × (is_ok ((ping i x).0) ≡ false))

abbrev Ends : Pings → Bytes → List Bytes → Round → Type 0
Ends ping me ms r = (r ≡ quiet) ⊎ ((x : Bytes) × (r ≡ asks x) × Failed ping me ms x)

pinged-Ends :
    (ping : Pings) (next : List Bytes → Round) (me x : Bytes) (i : ℕ) (ms : List Bytes)
    → at i ms ≡ some x
    → str_eq x me ≡ false
    → (ping i x).1 ≡ ms
    → Ends ping me ms (next ms)
    → Ends ping me ms (pinged next i (ping i x))
unfolding pinged bad_at
pinged-Ends ping next me x i ms e n still h = elim (Bool-cases (is_ok ((ping i x).0))) [
  | inl t ↦ rw (t, still) h
  | inr t ↦ rw (t, still, e) ((inr (x, refl, ((at-elem i ms x e).1, n, (i, t)))))
]

first_bad-Ends :
    (f : ℕ) (ping : Pings) (me : Bytes) (i : ℕ) (ms : List Bytes)
    → ((j : ℕ) (x : Bytes) → (ping j x).1 ≡ ms)
    → i ≤ length ms
    → length ms < i + f
    → Ends ping me ms (first_bad f ping me i ms)
unfolding first_bad looked_at
first_bad-Ends zero ping me i ms still l r = absurd (omega (arith, l, r))
first_bad-Ends (suc f) ping me i ms still l r = elim (Option-cases (at i ms)) [
  | inl n ↦ rw n (inl refl)
  | inr (x, e) ↦
      let next =
        first_bad-Ends f ping me (i + 1) ms still (omega (arith, (at-elem i ms x e).0))
          (omega (arith, r)) in
      elim (Bool-cases (str_eq x me)) [
        | inl t ↦ rw (e, t) next
        | inr t ↦
            rw (e, t)
              (pinged-Ends ping (λ later. first_bad f ping me (i + 1) later) me x i ms e t
                (still i x) next)
      ]
]

in_view :
    (k me : Bytes) (xs : List Bytes)
    → str_eq k me ≡ false
    → ((k ≡ me) ⊎ (elem_str k xs ≡ true))
    → elem_str k xs ≡ true
in_view k me xs n (inl e) = absurd (clash (sym n ∙ (rw e (str_eq_refl me))))
  where
    clash : false ≡ true → ⊥
    clash q = cc
in_view k me xs n (inr h) = h

abbrev pub Removal : ℕ → Pings → Config → Bytes → Type 0
Removal junk ping c m =
    (elem_str c.me c.mems ≡ true)
    × Failed ping c.me c.mems m
    × (All (λ x. number_of junk c.me ≤ number_of junk x) c.mems
        ⊎ All (λ x. number_of junk m ≤ number_of junk x) c.mems)

-- A node asks only for the removal of another member that failed its heartbeat: when no view change
-- comes in a round, and the bound of the loop is above the number of members, a round of the
-- heartbeater asks for nothing, or it asks for the removal of a member, not the node itself, that did
-- not answer a ping well; the node is then a member, and no member has a number below that of the
-- node itself, or none has one below that of the member to be removed.
pub beat-Removes :
    (f junk : ℕ) (ping : Pings) (c : Config)
    → ((i : ℕ) (x : Bytes) → (ping i x).1 ≡ c.mems)
    → length c.mems < f
    → (beat f junk ping c ≡ quiet)
      ⊎ ((m : Bytes) × (beat f junk ping c ≡ asks m) × Removal junk ping c m)
unfolding beat
beat-Removes f junk ping c still enough =
    let k = smallest junk c.me c.mems in
    let least = (smallest-le junk c.me c.mems).1 in
    elim (Bool-cases (elem_str c.me c.mems)) [
      | inr out ↦ rw out (inl refl)
      | inl here ↦ elim (Bool-cases (str_eq k c.me)) [
        | inl t ↦
            let mine =
              subst (λ z. All (λ x. number_of junk z ≤ number_of junk x) c.mems)
                (str_eq_eq k c.me t) least in
            rw (here, t)
              (elim (first_bad-Ends f ping c.me 0 c.mems still (omega arith) (omega arith)) [
                | inl q ↦ inl q
                | inr (x, q, bad) ↦ inr (x, q, (refl, bad, inl mine))
              ])
        | inr n ↦ elim (Bool-cases (is_ok ((ping 0 k).0))) [
          | inl t ↦ rw (here, n, t) (inl refl)
          | inr t ↦
              rw (here, n, t)
                (inr (
                  k,
                  refl,
                  (
                    refl,
                    (in_view k c.me c.mems n (smallest-In junk c.me c.mems), n, (0, t)),
                    inr least,
                  ),
                ))
        ]
      ]
    ]

-- The wrong member is removed: when the view changes while the second member of two is pinged, and the
-- ping fails, the node, which is the first one and has the smaller number, asks for the removal of
-- the member that is now in the second place, which it has not pinged.
pub beat_removes_other :
    (f junk : ℕ) (ping : Pings) (c : Config) (x y : Bytes)
    → c.mems ≡ c.me ∷ x ∷ []
    → str_eq x c.me ≡ false
    → number_of junk c.me ≤ number_of junk x
    → is_ok ((ping 1 x).0) ≡ false
    → (ping 1 x).1 ≡ c.me ∷ y ∷ []
    → beat (suc (suc f)) junk ping c ≡ asks y
unfolding beat first_bad looked_at pinged bad_at at smallest elem_str
beat_removes_other f junk ping c x y two other less bad moved =
    let a : ltb (number_of junk x) (number_of junk c.me) ≡ false = ground arith in
    let b : ltb (number_of junk c.me) (number_of junk c.me) ≡ false = ground arith in
    rw (two, str_eq_refl c.me, b, a, str_eq_refl c.me, other, bad, moved) refl
