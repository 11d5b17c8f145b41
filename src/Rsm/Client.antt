-- ===== src/Rsm/Client.antt =====
-- The client of the replicated state machine (rsm_client.cc). The answers of the calls are parameters:
-- `none` is a call that fails.
use frangipani_yfs.Prelude.{
  ℕ, ◌≡◌, refl, ap, sym, ◌∙◌, Bool, true, false, [], ◌∷◌, ◌++◌, List, Bytes, ◌==◌, if◌then◌else◌,
  Option, none, some, str_eq, arith, if_cases, if_true, str_eq_eq,
}
use frangipani_yfs.Config.{get_curview}
use frangipani_yfs.Rsm.{Rsm, client_members}

-- The primary's name and its users, and known_mems.
pub record RsmClient : Type 0 where
  pub id : Bytes
  pub nref : ℕ
  pub known_mems : List Bytes

-- back() and pop_back()
unfoldable pub split_last : List Bytes → Option (List Bytes × Bytes)
split_last [] = none
split_last (m ∷ ms) = front_of m (split_last ms)
  where
    front_of : Bytes → Option (List Bytes × Bytes) → Option (List Bytes × Bytes)
    front_of m none = some ([], m)
    front_of m (some (l, x)) = some (m ∷ l, x)

-- init_members behind its call: `none` where an assertion fails; `bound` says that the bind succeeds.
unfoldable pub adopt :
    (Bytes → Bool) → RsmClient → Option (List Bytes × Bytes) → Option (Bool × RsmClient)
adopt bound c none = none
adopt bound c (some (l, m)) =
    if str_eq m c.id
    then some (true, record c { known_mems = l })
    else if c.nref == 0
    then some (bound m, record c { id = m; known_mems = l })
    else none

unfoldable pub init_members :
    (Bytes → Bool) → Option (List Bytes) → RsmClient → Option (Bool × RsmClient)
unfolding adopt split_last
init_members bound none c = some (false, c)
init_members bound (some l) c = adopt bound (record c { known_mems = l }) (split_last l)

-- The answer of an invoke, with that of the members call which may follow it.
pub data Answer : Type 0 where
  ok busy other : Answer
  not_primary : Option (List Bytes) → Answer

-- One round of the loop of invoke: true when it ends. The call itself counts as a user of the client.
unfoldable pub moved : Option (Bool × RsmClient) → Option (Bool × RsmClient)
moved none = none
moved (some (b, c)) = some (false, c)

unfoldable pub round : (Bytes → Bool) → Answer → RsmClient → Option (Bool × RsmClient)
unfolding init_members moved
round bound ok c = some (true, c)
round bound busy c = some (false, c)
round bound other c = some (false, c)
round bound (not_primary a) c = moved (init_members bound a c)

-- invoke, over the answers that come: whether it has ended, and the nodes that it called.
unfoldable pub invoke :
    (Bytes → Bool) → List Answer → RsmClient → Option (Bool × List Bytes × RsmClient)
unfolding round
invoke bound [] c = some (false, [], c)
invoke bound (a ∷ more) c = called c.id (round bound a c) (λ d. invoke bound more d)
  where
    noted : Bytes → Option (Bool × List Bytes × RsmClient) → Option (Bool × List Bytes × RsmClient)
    noted m none = none
    noted m (some (b, l, c)) = some (b, m ∷ l, c)

    called :
        Bytes
        → Option (Bool × RsmClient)
        → (RsmClient → Option (Bool × List Bytes × RsmClient))
        → Option (Bool × List Bytes × RsmClient)
    called m none k = none
    called m (some (true, c)) k = some (true, m ∷ [], c)
    called m (some (false, c)) k = noted m (k c)

split_last-push : (l : List Bytes) (m : Bytes) → split_last (l ++ m ∷ []) ≡ some (l, m)
unfolding split_last
split_last-push [] m = refl
split_last-push (x ∷ l) m = rw (split_last-push l m) refl

adopted :
    (bound : Bytes → Bool) (c : RsmClient) (l : List Bytes) (m : Bytes)
    → c.nref ≡ 0
    → (b : Bool) × (d : RsmClient) × (adopt bound c (some (l, m)) ≡ some (b, d))
      × (d.id ≡ m)
      × (d.known_mems ≡ l)
unfolding adopt
adopted bound c l m z =
    if_cases
      (λ o. (b : Bool) × (d : RsmClient) × (o ≡ some (b, d)) × (d.id ≡ m) × (d.known_mems ≡ l))
      (str_eq m c.id)
      (λ t. (true, record c { known_mems = l }, refl, sym (str_eq_eq m c.id t), refl))
      (λ n. (
        bound m,
        record c { id = m; known_mems = l },
        if_true (c.nref == 0) _ _ (ground arith),
        refl,
        refl,
      ))

-- The client goes to the primary: when a node answers the call for the members, and no other thread
-- uses the old primary, the client takes that node's primary for its own, and the node's view for the
-- members that it knows.
pub init_members-primary :
    (bound : Bytes → Bool) (c : RsmClient) (s : Rsm)
    → c.nref ≡ 0
    → (b : Bool) × (d : RsmClient) × (init_members bound (some (client_members s)) c ≡ some (b, d))
      × (d.id ≡ s.primary)
      × (d.known_mems ≡ get_curview s.cfg)
unfolding init_members client_members
init_members-primary bound c s z =
    let k = record c { known_mems = get_curview s.cfg ++ s.primary ∷ [] } in
    let (b, d, e, p, m) = adopted bound k (get_curview s.cfg) s.primary z in
    (b, d, ap (adopt bound k) (split_last-push (get_curview s.cfg) s.primary) ∙ e, p, m)
