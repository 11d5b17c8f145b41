-- ===== src/Rsm/Primary.antt =====
-- The choice of the primary (rsm.cc).
use frangipani_yfs.Prelude.{
  ℕ, ◌≤◌, ◌≡◌, refl, ap, sym, ◌∙◌, true, false, ◌||◌, [], ◌∷◌, List, Bytes, ◌==◌, if◌then◌else◌,
  some, arith, All, if_cases, leb, elem, str_eq, elem_str, str_eq_eq, str_eq_refl, Bool-cases, inl,
  inr,
}
use frangipani_yfs.Text.{Stream, decimal, max_u64}
use frangipani_yfs.Text.Numbers.{read_num-end}
use frangipani_yfs.Config.{get_curview, get_prevview, number_of}
use frangipani_yfs.Rsm.{Rsm, insert, sort, numbers, first_member, chosen, is_empty, set_primary}

elem-insert : (k a : ℕ) (xs : List ℕ) → elem k (insert a xs) ≡ (a == k || elem k xs)
unfolding elem insert
elem-insert k a [] = ground arith
elem-insert k a (x ∷ xs) = ground (arith, elem-insert k a xs)

elem-sort : (k : ℕ) (xs : List ℕ) → elem k (sort xs) ≡ elem k xs
unfolding elem sort
elem-sort k [] = refl
elem-sort k (x ∷ xs) = ground (arith, elem-insert k x (sort xs), elem-sort k xs)

-- No element is above a later one.
abbrev Ascending : List ℕ → Type 0
Ascending [] = Unit
Ascending (x ∷ xs) = ((k : ℕ) → elem k xs ≡ true → x ≤ k) × Ascending xs

insert-Ascending : (a : ℕ) (xs : List ℕ) → Ascending xs → Ascending (insert a xs)
unfolding insert elem
insert-Ascending a [] h = ((λ k e. cc), tt)
insert-Ascending a (x ∷ xs) (l, h) =
    if_cases Ascending (leb a x) (λ t. ((λ k e. ground (arith, l k)), (l, h)))
      (λ f. ((λ k e. ground (arith, l k, elem-insert k a xs)), insert-Ascending a xs h))

sort-Ascending : (xs : List ℕ) → Ascending (sort xs)
unfolding sort
sort-Ascending [] = tt
sort-Ascending (x ∷ xs) = insert-Ascending x (sort xs) (sort-Ascending xs)

-- The number found is the least whose name is a member.
abbrev Least : List ℕ → List Bytes → Bytes → Type 0
Least ns c m =
    (n : ℕ) × (m ≡ decimal n)
    × (elem n ns ≡ true)
    × (elem_str m c ≡ true)
    × ((k : ℕ) → elem k ns ≡ true → elem_str (decimal k) c ≡ true → n ≤ k)

first_member-Least :
    (ns : List ℕ) (c : List Bytes) (k : ℕ)
    → Ascending ns
    → elem k ns ≡ true
    → elem_str (decimal k) c ≡ true
    → (m : Bytes) × (first_member ns c ≡ some m) × Least ns c m
unfolding first_member elem
first_member-Least [] c k a e h = cc
first_member-Least (n ∷ ns) c k (l, a) e h =
    if_cases (λ o. (m : Bytes) × (o ≡ some m) × Least (n ∷ ns) c m) (elem_str (decimal n) c)
      (λ t. (decimal n, refl, (n, refl, ground arith, t, λ j q r. ground (arith, l j))))
      (λ f.
        let (m, e', (x, q, i, j, le)) =
          first_member-Least ns c k a (ground (arith, other k n f h)) h in
        (m, e', (x, q, ground arith, j, λ y r t. le y (ground (arith, other y n f t)) t)))
  where
    eq_of : (n k : ℕ) → (n == k) ≡ true → n ≡ k
    eq_of n k e = ground arith

    clash : false ≡ true → ⊥
    clash q = cc

    other :
        (k n : ℕ)
        → elem_str (decimal n) c ≡ false
        → elem_str (decimal k) c ≡ true
        → (n == k) ≡ false
    other k n f h = elim (Bool-cases (n == k)) [
      | inl e ↦ absurd (clash (sym f ∙ (rw (eq_of n k e) h)))
      | inr e ↦ e
    ]

-- A name that is the decimal of an `unsigned long long`.
abbrev pub IsName : Bytes → Type 0
IsName x = (n : ℕ) × (x ≡ decimal n) × (n ≤ max_u64)

number-name : (junk n : ℕ) → n ≤ max_u64 → number_of junk (decimal n) ≡ n
unfolding number_of
number-name junk n h = ap (λ (p : ℕ × Stream). p.0) (read_num-end max_u64 junk n h)

elem-numbers :
    (junk k : ℕ) (p : List Bytes)
    → k ≤ max_u64
    → elem_str (decimal k) p ≡ true
    → elem k (numbers junk p) ≡ true
unfolding elem elem_str numbers
elem-numbers junk k [] l h = cc
elem-numbers junk k (m ∷ p) l h = elim (Bool-cases (str_eq m (decimal k))) [
  | inl e ↦ ground (arith, named m (str_eq_eq m (decimal k) e))
  | inr e ↦ ground (arith, elem-numbers junk k p l)
]
  where
    named : (m : Bytes) → m ≡ decimal k → number_of junk m ≡ k
    named m e = rw e (number-name junk k l)

numbers-elem :
    (junk n : ℕ) (p : List Bytes)
    → All IsName p
    → elem n (numbers junk p) ≡ true
    → (elem_str (decimal n) p ≡ true) × (n ≤ max_u64)
unfolding elem elem_str numbers
numbers-elem junk n [] a h = cc
numbers-elem junk n (m ∷ p) ((k, e, l), a) h = elim (Bool-cases (number_of junk m == n)) [
  | inl q ↦ (named m (e ∙ ap decimal (is_k q)), bounded (is_k q))
  | inr q ↦ let (i, b) = numbers-elem junk n p a (ground arith) in (ground (arith, i), b)
]
  where
    is_k : (number_of junk m == n) ≡ true → k ≡ n
    is_k q = sym (number-name junk k l) ∙ ap (number_of junk) (sym e) ∙ ground arith

    bounded : k ≡ n → n ≤ max_u64
    bounded q = rw (sym q) l

    named :
        (m : Bytes)
        → m ≡ decimal n
        → (if str_eq m (decimal n) then true else elem_str (decimal n) p) ≡ true
    named m e = rw e (ground (arith, str_eq_refl (decimal n)))

not_empty : (x : Bytes) (xs : List Bytes) → elem_str x xs ≡ true → is_empty xs ≡ false
unfolding elem_str is_empty
not_empty x [] h = cc
not_empty x (y ∷ xs) h = refl

abbrev pub Chosen : Rsm → Rsm → Type 0
Chosen s t =
    (elem_str t.primary (get_curview s.cfg) ≡ true)
    × (elem_str s.primary (get_curview s.cfg) ≡ true → t.primary ≡ s.primary)
    × (elem_str s.primary (get_curview s.cfg) ≡ false
        → (n : ℕ) × (t.primary ≡ decimal n)
          × (elem_str t.primary (get_prevview s.cfg) ≡ true)
          × ((k : ℕ)
              → k ≤ max_u64
              → elem_str (decimal k) (get_prevview s.cfg) ≡ true
              → elem_str (decimal k) (get_curview s.cfg) ≡ true
              → n ≤ k))

chosen-Chosen :
    (junk k : ℕ) (s : Rsm)
    → All IsName (get_prevview s.cfg)
    → k ≤ max_u64
    → elem_str (decimal k) (get_prevview s.cfg) ≡ true
    → elem_str (decimal k) (get_curview s.cfg) ≡ true
    → elem_str s.primary (get_curview s.cfg) ≡ false
    → let ns = sort (numbers junk (get_prevview s.cfg)) in
      (t : Rsm) × (chosen s (first_member ns (get_curview s.cfg)) ≡ some t) × Chosen s t
unfolding chosen
chosen-Chosen junk k s names l old new gone =
    let c = get_curview s.cfg in
    let p = get_prevview s.cfg in
    let ns = sort (numbers junk p) in
    let (m, e, (n, q, i, j, le)) =
      first_member-Least ns c k (sort-Ascending (numbers junk p))
        (elem-sort k (numbers junk p) ∙ elem-numbers junk k p l old) new in
    let (h, b) = numbers-elem junk n p names (sym (elem-sort n (numbers junk p)) ∙ i) in
    (
      record s { primary = m },
      ap (chosen s) e,
      (
        j,
        (λ y. absurd (clash (sym y ∙ gone))),
        λ y. (
          n,
          q,
          rw q h,
          λ x lx o w. le x (elem-sort x (numbers junk p) ∙ elem-numbers junk x p lx o) w,
        ),
      ),
    )
  where
    clash : true ≡ false → ⊥
    clash q = cc

-- There is always a primary: when the previous view and this one share a member, and the members of
-- the previous view are named by numbers, set_primary returns, and the primary is a member of this
-- view; it stays if it is a member, and otherwise it is the one with the least number among the members
-- of both views.
pub set_primary-Chosen :
    (junk k : ℕ) (s : Rsm)
    → All IsName (get_prevview s.cfg)
    → k ≤ max_u64
    → elem_str (decimal k) (get_prevview s.cfg) ≡ true
    → elem_str (decimal k) (get_curview s.cfg) ≡ true
    → (t : Rsm) × (set_primary junk s ≡ some t) × Chosen s t
unfolding set_primary chosen
set_primary-Chosen junk k s names l old new =
    let c = get_curview s.cfg in
    let p = get_prevview s.cfg in
    if_cases (λ o. (t : Rsm) × (o ≡ some t) × Chosen s t) (is_empty c)
      (λ e. absurd (clash (sym e ∙ not_empty (decimal k) c new)))
      (λ e.
        if_cases (λ o. (t : Rsm) × (o ≡ some t) × Chosen s t) (elem_str s.primary c)
          (λ m. (s, refl, (m, (λ h. refl), λ h. absurd (clash (sym m ∙ h)))))
          (λ m.
            if_cases (λ o. (t : Rsm) × (o ≡ some t) × Chosen s t) (is_empty p)
              (λ f. absurd (clash (sym f ∙ not_empty (decimal k) p old)))
              (λ f. chosen-Chosen junk k s names l old new m)))
  where
    clash : true ≡ false → ⊥
    clash q = cc
