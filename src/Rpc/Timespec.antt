-- ===== src/Rpc/Timespec.antt =====
-- Deadlines: cmp_timespec, add_timespec and diff_timespec, and the time-outs of rpcc::call1
-- (rpc/rpc.cc). Times are not negative.
use frangipani_yfs.Prelude.{
  ℕ, zero, suc, ◌+◌, ◌-◌, ◌*◌, ◌/◌, ◌%◌, ◌^◌, ◌≤◌, ◌≡◌, refl, ◌∙◌, Bool, true, false, ltb,
  if◌then◌else◌, Option, none, some, arith,
}

pub record Timespec : Type 0 where
  pub tv_sec : ℕ
  pub tv_nsec : ℕ

abbrev pub billion : ℕ
billion = 1000000000

pub data Cmp : Type 0 where
  before equal after : Cmp

unfoldable pub cmp_timespec : Timespec → Timespec → Cmp
cmp_timespec a b =
    if ltb b.tv_sec a.tv_sec
    then after
    else if ltb a.tv_sec b.tv_sec
    then before
    else if ltb b.tv_nsec a.tv_nsec
    then after
    else if ltb a.tv_nsec b.tv_nsec
    then before
    else equal

-- The loop of add_timespec, which goes on while there is more than a billion.
unfoldable pub carry : ℕ → ℕ → ℕ → Timespec
carry zero sec nsec = record { tv_sec = sec; tv_nsec = nsec }
carry (suc f) sec nsec =
    let rest = carry f (sec + 1) (nsec - billion) in
    if ltb billion nsec then rest else record { tv_sec = sec; tv_nsec = nsec }

-- The fuel is the number of billions.
unfoldable pub add_timespec : Timespec → ℕ → Timespec
unfolding carry
add_timespec a b =
    let nsec = a.tv_nsec + b % 1000 * 1000000 in
    carry (suc (nsec / billion)) (a.tv_sec + b / 1000) nsec

-- diff_timespec, in milliseconds: `none` where its assertion fails. The first number less the second.
unfoldable pub diff_timespec : Timespec → Timespec → Option (ℕ × ℕ)
diff_timespec end start =
    if ltb end.tv_sec start.tv_sec
    then none
    else if ltb start.tv_nsec end.tv_nsec
    then some ((end.tv_sec - start.tv_sec) * 1000 + (end.tv_nsec - start.tv_nsec) / 1000000, 0)
    else some ((end.tv_sec - start.tv_sec) * 1000, (start.tv_nsec - end.tv_nsec) / 1000000)

-- The loop of call1 for a call that gets no reply: `now` is the clock of each round, and the result is
-- the number of rounds. The last one waits for the final deadline.
unfoldable pub is_after : Cmp → Bool
is_after before = false
is_after equal = false
is_after after = true

-- pthread_cond_timedwait takes only a deadline with less than a billion nanoseconds; otherwise it returns
-- EINVAL at once, and the inner loop, which looks for ETIMEDOUT only, goes round for ever: none.
unfoldable pub times_out : Timespec → Bool
times_out t = ltb t.tv_nsec billion

unfoldable pub rounds : ℕ → (ℕ → Timespec) → ℕ → ℕ → Timespec → Option ℕ
unfolding add_timespec cmp_timespec is_after times_out
rounds zero now k curr final = none
rounds (suc f) now k curr final =
    let rest = rounds f now (k + 1) (curr * 2 % 2 ^ 32) final in
    let next = add_timespec (now k) curr in
    if is_after (cmp_timespec next final)
    then (if times_out final then some (k + 1) else none)
    else if times_out next
    then rest
    else none

-- rpcc::to_min
abbrev pub to_min : ℕ
to_min = 1000

-- call1 with the time-out `to`
unfoldable pub call_rounds : ℕ → (ℕ → Timespec) → ℕ → Option ℕ
unfolding rounds add_timespec
call_rounds f now to = rounds f now 0 to_min (add_timespec (now 0) to)

abbrev pub total : Timespec → ℕ
total t = t.tv_sec * billion + t.tv_nsec

carry-total : (f sec nsec : ℕ) → total (carry f sec nsec) ≡ sec * billion + nsec
unfolding carry
carry-total zero sec nsec = refl
carry-total (suc f) sec nsec = ground (arith, carry-total f (sec + 1) (nsec - billion))

carry-le : (f sec nsec : ℕ) → nsec ≤ suc f * billion → (carry f sec nsec).tv_nsec ≤ billion
unfolding carry
carry-le zero sec nsec h = omega arith
carry-le (suc f) sec nsec h = ground (arith, carry-le f (sec + 1) (nsec - billion))

-- Adding milliseconds to a time is exact, and leaves at most a billion nanoseconds; just a billion is
-- left, which is no valid time, when the sum is one and the loop does not run.
pub add-total :
    (a : Timespec) (b : ℕ)
    → (total (add_timespec a b) ≡ total a + b * 1000000)
      × ((add_timespec a b).tv_nsec ≤ billion)
      × (a.tv_nsec + b % 1000 * 1000000 ≡ billion → (add_timespec a b).tv_nsec ≡ billion)
unfolding add_timespec carry
add-total a b =
    let nsec = a.tv_nsec + b % 1000 * 1000000 in
    (
      carry-total (suc (nsec / billion)) (a.tv_sec + b / 1000) nsec ∙ omega arith,
      carry-le (suc (nsec / billion)) (a.tv_sec + b / 1000) nsec (omega arith),
      λ e. ground (arith, e),
    )

-- The time-out doubled `n` times.
unfoldable pub doubled : ℕ → ℕ → ℕ
doubled zero curr = curr
doubled (suc n) curr = doubled n (curr * 2)

-- Each round waits for its deadline: the clock of the next one is not before it.
abbrev pub Waits : ℕ → (ℕ → Timespec) → ℕ → ℕ → Type 0
Waits zero now k curr = Unit
Waits (suc f) now k curr =
    (total (add_timespec (now k) curr) ≤ total (now (k + 1)))
    × Waits f now (k + 1) (curr * 2 % 2 ^ 32)

rounds_never :
    (f : ℕ) (now : ℕ → Timespec) (k curr : ℕ) (final : Timespec)
    → times_out final ≡ false
    → rounds f now k curr final ≡ none
unfolding rounds
rounds_never zero now k curr final h = refl
rounds_never (suc f) now k curr final h =
    ground (arith, rounds_never f now (k + 1) (curr * 2 % 2 ^ 32) final)

-- A call that never ends: when the nanoseconds of the clock at the start and those of the time-out make
-- just a billion, the final deadline is no valid time, and without a reply no number of rounds is
-- enough for the loop of call1 to stop.
pub call_rounds_never :
    (now : ℕ → Timespec) (to : ℕ)
    → (now 0).tv_nsec + to % 1000 * 1000000 ≡ billion
    → (f : ℕ) → call_rounds f now to ≡ none
unfolding call_rounds times_out
call_rounds_never now to e f =
    let (x, y, z) = add-total (now 0) to in
    rounds_never f now 0 to_min (add_timespec (now 0) to) (ground (arith, z e))
