-- ===== src/Rpc/Received.antt =====
-- What the client of rpc/rpc.cc acknowledges by its window of replies.
use frangipani_yfs.Prelude.{
  ℕ, ◌+◌, ◌≤◌, ◌≡◌, ◌≢◌, refl, true, [], ◌∷◌, ◌++◌, List, leb, ltb, ◌==◌, elem, arith, Bool-cases,
  inl, inr, ◌⊎◌, if_cases, All,
}
use frangipani_yfs.Rpc.Window.{front, insert_xid, pop_while, compress, compress_all, update_xid_rep}

-- No element is below the one before it, and none below the bound.
unfoldable pub Asc : ℕ → List ℕ → Type 0
Asc b [] = Unit
Asc b (x ∷ xs) = (b ≤ x) × Asc x xs

Asc-low : (a b : ℕ) (xs : List ℕ) → a ≤ b → Asc b xs → Asc a xs
unfolding Asc
Asc-low a b [] le h = tt
Asc-low a b (x ∷ xs) le h = (omega (arith, h.0), h.1)

module _ (K : ℕ → Type 0) where
  abbrev pub Closed : ℕ → Type 0
  Closed f = (y : ℕ) → y ≤ f → K y

  -- Elements that came, none above the bound.
  abbrev Came : ℕ → List ℕ → Type 0
  Came b [] = Unit
  Came b (x ∷ xs) = K x × (x ≤ b) × Came b xs

  Came-high : (b c : ℕ) (xs : List ℕ) → b ≤ c → Came b xs → Came c xs
  Came-high b c [] le h = tt
  Came-high b c (x ∷ xs) le (k, l, h) = (k, omega arith, Came-high b c xs le h)

  Came-push : (b x : ℕ) (xs : List ℕ) → K x → x ≤ b → Came b xs → Came b (xs ++ x ∷ [])
  Came-push b x [] k le h = (k, le, tt)
  Came-push b x (y ∷ xs) k le (j, l, h) = (j, l, Came-push b x xs k le h)

  Asc-push : (a x : ℕ) (xs : List ℕ) → a ≤ x → Came x xs → Asc a xs → Asc a (xs ++ x ∷ [])
  unfolding Asc
  Asc-push a x [] le c h = (le, tt)
  Asc-push a x (y ∷ xs) le (k, l, c) h = (h.0, Asc-push y x xs l c (h.1))

  pop-Came : (x b : ℕ) (xs : List ℕ) → Came b xs → Came b (pop_while x xs)
  unfolding pop_while
  pop-Came x b [] h = tt
  pop-Came x b (f ∷ xs) (k, l, h) =
      if_cases (Came b) (f + 1 == x) (λ t. pop-Came x b xs h) (λ n. (k, l, h))

  pop-Asc : (x a : ℕ) (xs : List ℕ) → Asc a xs → Asc a (pop_while x xs)
  unfolding pop_while Asc
  pop-Asc x a [] h = tt
  pop-Asc x a (f ∷ xs) h =
      if_cases (Asc a) (f + 1 == x) (λ t. Asc-low a f _ (h.0) (pop-Asc x f xs (h.1))) (λ n. h)

  pop-front :
      (x f : ℕ) (xs : List ℕ)
      → K x
      → f ≤ x
      → Came x xs
      → Asc f xs
      → Closed f
      → Closed (front (pop_while x (f ∷ xs) ++ x ∷ []))
  unfolding pop_while front Asc
  pop-front x f [] k le c a h =
      if_cases (λ l. Closed (front (l ++ x ∷ []))) (f + 1 == x) (λ t y q. last_one y q t) (λ n. h)
    where
      last_one : (y : ℕ) → y ≤ x → (f + 1 == x) ≡ true → K y
      last_one y q t = elim (Bool-cases (y == x)) [
        | inl e ↦ ground (arith, k)
        | inr e ↦ h y (ground arith)
      ]
  pop-front x f (g ∷ xs) k le (j, l, c) (p, a) h =
      if_cases (λ l. Closed (front (l ++ x ∷ []))) (f + 1 == x)
        (λ t. pop-front x g xs k l c a (λ y q. next_one y q t)) (λ n. h)
    where
      next_one : (y : ℕ) → y ≤ g → (f + 1 == x) ≡ true → K y
      next_one y q t = elim (Bool-cases (y == g)) [
        | inl e ↦ ground (arith, j)
        | inr e ↦ h y (ground arith)
      ]

  -- A window: ascending, of replies that came, and all replies up to its front came.
  abbrev pub Good : List ℕ → Type 0
  Good l = (l ≢ []) × Asc 0 l × All K l × Closed (front l)

  Came-All : (b : ℕ) (l : List ℕ) → Came b l → All K l
  Came-All b [] h = tt
  Came-All b (x ∷ l) (k, le, h) = (k, Came-All b l h)

  pushed : (x : ℕ) (l : List ℕ) → (l ++ x ∷ []) ≢ []
  pushed x [] e = cc
  pushed x (y ∷ l) e = cc

  compress-Good :
      (b : ℕ) (l rest : List ℕ)
      → l ≢ []
      → Came b l
      → Asc 0 l
      → Closed (front l)
      → Asc b rest
      → All K rest
      → Good (compress l rest)
  unfolding compress Asc front
  compress-Good b l [] n c a h r k = (n, a, Came-All b l c, h)
  compress-Good b [] (x ∷ rest) n c a h r k = absurd (n refl)
  compress-Good b (f ∷ xs) (x ∷ rest) n c a h r k =
      let d = Came-high b x (f ∷ xs) (r.0) c in
      let l = pop_while x (f ∷ xs) in
      compress-Good x (l ++ x ∷ []) rest (pushed x l)
        (Came-push x x l (k.0) (omega arith) (pop-Came x x (f ∷ xs) d))
        (Asc-push 0 x l (omega arith) (pop-Came x x (f ∷ xs) d) (pop-Asc x 0 (f ∷ xs) a))
        (pop-front x f xs (k.0) (d.1) (d.2) (a.1) h) (r.1) (k.1)

  insert-All : (xid : ℕ) (l : List ℕ) → K xid → All K l → All K (insert_xid xid l)
  unfolding insert_xid
  insert-All xid [] k h = (k, tt)
  insert-All xid (x ∷ l) k h =
      if_cases (All K) (ltb xid x) (λ t. (k, h)) (λ n. (h.0, insert-All xid l k (h.1)))

  insert-Asc : (a xid : ℕ) (l : List ℕ) → a ≤ xid → Asc a l → Asc a (insert_xid xid l)
  unfolding insert_xid Asc
  insert-Asc a xid [] le h = (le, tt)
  insert-Asc a xid (x ∷ l) le h =
      if_cases (Asc a) (ltb xid x) (λ t. (le, (ground arith, h.1)))
        (λ n. (h.0, insert-Asc x xid l (ground arith) (h.1)))

  pub update-Good : (xid : ℕ) (w : List ℕ) → K xid → Good w → Good (update_xid_rep xid w)
  unfolding update_xid_rep insert_xid compress_all front Asc
  update-Good xid [] k (n, a, c, h) = absurd (n refl)
  update-Good xid (f ∷ xs) k (n, a, c, h) =
      if_cases Good (leb xid f) (λ t. (n, a, c, h))
        (λ m.
          if_cases (λ l. Good (compress_all l)) (ltb xid f) (λ t. absurd (ground arith))
            (λ q.
              compress-Good f (f ∷ []) (insert_xid xid xs) (λ e. cc) (c.0, omega arith, tt)
                (omega arith, tt) h (insert-Asc f xid xs (ground arith) (a.1))
                (insert-All xid xs k (c.1))))

-- The window after the replies have come in the order given.
unfoldable pub updates : List ℕ → List ℕ → List ℕ
unfolding update_xid_rep
updates [] w = w
updates (x ∷ xs) w = updates xs (update_xid_rep x w)

updates-Good : (K : ℕ → Type 0) (xs w : List ℕ) → All K xs → Good K w → Good K (updates xs w)
unfolding updates
updates-Good K [] w k g = g
updates-Good K (x ∷ xs) w k g =
    updates-Good K xs (update_xid_rep x w) (k.1) (update-Good K x w (k.0) g)

All-elem :
    (xs zs : List ℕ)
    → ((y : ℕ) → elem y xs ≡ true → elem y zs ≡ true)
    → All (λ y. (y ≡ 0) ⊎ (elem y zs ≡ true)) xs
unfolding elem
All-elem [] zs h = tt
All-elem (x ∷ xs) zs h = (inr (h x (ground arith)), All-elem xs zs (λ y e. h y (ground (arith, e))))

-- The client never acknowledges a reply that it has not got: in whatever order replies come, and
-- however often, the front of the window that it sends, which acknowledges all requests up to it, has
-- behind it only requests whose replies have come (and 0, which is no request).
pub received-front :
    (xs : List ℕ) (y : ℕ) → y ≤ front (updates xs (0 ∷ [])) → (y ≡ 0) ⊎ (elem y xs ≡ true)
unfolding Asc front
received-front xs y le =
    let K = λ (z : ℕ). (z ≡ 0) ⊎ (elem z xs ≡ true) in
    (updates-Good K xs (0 ∷ []) (All-elem xs xs (λ z e. e))
        ((λ e. cc), (omega arith, tt), (inl refl, tt), λ z q. inl (omega arith))).3
      y le
