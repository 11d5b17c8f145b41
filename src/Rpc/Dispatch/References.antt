-- ===== src/Rpc/Dispatch/References.antt =====
-- The references to the connections of a server (rpc/rpc.cc): who holds them, and what each step of
-- rpcs does to their number.
use frangipani_yfs.Prelude.{
  Bool, false, ◌&&◌, Runs, ℕ, ◌+◌, ◌-◌, ◌≤◌, ◌≡◌, true, [], ◌∷◌, ◌++◌, List, ◌==◌, if◌then◌else◌,
  none, some, arith, elem, remove_all, update, if_cases,
}
use frangipani_yfs.Rpc.Dispatch.{
  Job, Running, Rpcs, Answer, header_only, saved_reply, oldsrv_failure, decref, find_conn, set_conn,
}

unfoldable pub uses_held : ℕ → List ℕ → ℕ
uses_held c [] = 0
uses_held c (x ∷ xs) = (if x == c then 1 else 0) + uses_held c xs

unfoldable pub uses_queue : ℕ → List Job → ℕ
uses_queue c [] = 0
uses_queue c (j ∷ js) = (if j.conn == c then 1 else 0) + uses_queue c js

unfoldable pub uses_running : ℕ → List Running → ℕ
uses_running c [] = 0
uses_running c (r ∷ rs) = (if r.conn == c then 1 else 0) + uses_running c rs

unfoldable pub uses_conns : ℕ → List (ℕ × ℕ) → ℕ
uses_conns c [] = 0
uses_conns c ((k, d) ∷ l) = (if d == c then 1 else 0) + uses_conns c l

-- The holders of a connection: the listener, the queued and the running jobs, and conns_.
unfoldable pub uses : ℕ → Rpcs → ℕ
unfolding uses_held uses_queue uses_running uses_conns
uses c s =
    uses_held c s.held + uses_queue c s.queue + uses_running c s.running + uses_conns c s.conns

-- A worker that holds one more reference.
abbrev pub hand : ℕ → ℕ → ℕ
hand d c = if d == c then 1 else 0

-- The answers to requests for an old instance of the server: dispatch returns from them without its
-- decref, so each leaves a reference that nobody gives back.
unfoldable pub is_stale : Answer → Bool
is_stale (header_only h) = h.ret == oldsrv_failure
is_stale (saved_reply b sz) = false

unfoldable pub leaks : ℕ → List (ℕ × Answer) → ℕ
unfolding is_stale
leaks c [] = 0
leaks c ((d, a) ∷ l) = (if d == c && is_stale a then 1 else 0) + leaks c l

abbrev pub Balanced : (ℕ → ℕ) → Rpcs → Type 0
Balanced x s = (c : ℕ) → s.refs c ≡ uses c s + leaks c s.sent + x c

pub decref-Runs :
    (P : Rpcs → Type 0) (c : ℕ) (s : Rpcs)
    → 1 ≤ s.refs c
    → P (record s { refs = update s.refs c (s.refs c - 1) })
    → Runs P (decref c s)
unfolding decref
decref-Runs P c s h p = if_cases (Runs P) (s.refs c == 0) (λ t. absurd (ground arith)) (λ f. p)

pub uses_queue-push :
    (c : ℕ) (q : List Job) (j : Job)
    → uses_queue c (q ++ j ∷ []) ≡ uses_queue c q + (if j.conn == c then 1 else 0)
unfolding uses_queue
uses_queue-push c [] j = ground arith
uses_queue-push c (k ∷ q) j = ground (arith, uses_queue-push c q j)

pub uses_conns-set :
    (c clt d : ℕ) (l : List (ℕ × ℕ))
    → find_conn clt l ≡ none
    → uses_conns c (set_conn clt d l) ≡ uses_conns c l + (if d == c then 1 else 0)
unfolding uses_conns set_conn find_conn
uses_conns-set c clt d [] h = ground arith
uses_conns-set c clt d ((k, e) ∷ l) h = ground (arith, uses_conns-set c clt d l)

pub uses_conns-replace :
    (c clt d e : ℕ) (l : List (ℕ × ℕ))
    → find_conn clt l ≡ some e
    → uses_conns c (set_conn clt d l) + (if e == c then 1 else 0)
      ≡ uses_conns c l + (if d == c then 1 else 0)
unfolding uses_conns set_conn find_conn
uses_conns-replace c clt d e [] h = cc
uses_conns-replace c clt d e ((k, g) ∷ l) h = ground (arith, uses_conns-replace c clt d e l)

pub uses_conns-find : (clt c : ℕ) (l : List (ℕ × ℕ)) → find_conn clt l ≡ some c → 1 ≤ uses_conns c l
unfolding uses_conns find_conn
uses_conns-find clt c [] h = cc
uses_conns-find clt c ((k, g) ∷ l) h = ground (arith, uses_conns-find clt c l)

pub find-set_conn :
    (x clt c : ℕ) (l : List (ℕ × ℕ))
    → find_conn x (set_conn clt c l) ≡ (if clt == x then some c else find_conn x l)
unfolding set_conn find_conn
find-set_conn x clt c [] = ground arith
find-set_conn x clt c ((k, g) ∷ l) = ground (arith, find-set_conn x clt c l)

pub uses_held-remove :
    (c d : ℕ) (l : List ℕ) → uses_held c (remove_all d l) ≡ (if d == c then 0 else uses_held c l)
unfolding uses_held remove_all
uses_held-remove c d [] = ground arith
uses_held-remove c d (x ∷ l) = ground (arith, uses_held-remove c d l)

pub uses_held-elem : (c : ℕ) (l : List ℕ) → elem c l ≡ true → 1 ≤ uses_held c l
unfolding uses_held elem
uses_held-elem c [] h = cc
uses_held-elem c (x ∷ l) h = ground (arith, uses_held-elem c l)
