-- ===== src/Rpc/Window.antt =====
-- rpcc::update_xid_rep (rpc/rpc.cc): the replies that a client has seen, as a list whose first element
-- says that every reply up to it has come. It starts with 0; xids do not wrap.
use frangipani_yfs.Prelude.{ℕ, ◌+◌, ◌≡◌, refl, [], ◌∷◌, ◌++◌, List, leb, ltb, ◌==◌, if◌then◌else◌}

-- The first element; a window is never empty.
unfoldable pub front : List ℕ → ℕ
front [] = 0
front (x ∷ xs) = x

-- The insertion before the first larger element, or at the end.
unfoldable pub insert_xid : ℕ → List ℕ → List ℕ
insert_xid xid [] = xid ∷ []
insert_xid xid (x ∷ xs) = if ltb xid x then xid ∷ x ∷ xs else x ∷ insert_xid xid xs

-- `while (front + 1 == *it) pop_front()`, where `pre` is the window before `it`.
unfoldable pub pop_while : ℕ → List ℕ → List ℕ
pop_while x [] = []
pop_while x (f ∷ pre) = let rest = pop_while x pre in if f + 1 == x then rest else f ∷ pre

-- The loop over the elements behind the first.
unfoldable pub compress : List ℕ → List ℕ → List ℕ
unfolding pop_while
compress pre [] = pre
compress pre (x ∷ rest) = compress (pop_while x pre ++ x ∷ []) rest

unfoldable pub compress_all : List ℕ → List ℕ
unfolding compress
compress_all [] = []
compress_all (x ∷ xs) = compress (x ∷ []) xs

unfoldable pub update_xid_rep : ℕ → List ℕ → List ℕ
unfolding front insert_xid compress_all
update_xid_rep xid w = if leb xid (front w) then w else compress_all (insert_xid xid w)

runs_on : update_xid_rep 1 (0 ∷ 2 ∷ 2 ∷ 4 ∷ []) ≡ 2 ∷ 2 ∷ 4 ∷ []
unfolding update_xid_rep
runs_on = refl

again : update_xid_rep 3 (2 ∷ 2 ∷ 4 ∷ []) ≡ 4 ∷ []
unfolding update_xid_rep
again = refl
