-- ===== src/Mutex.antt =====
-- One mutex and the threads that use it: common/source/kernel/Mutex.cpp over Lock.cpp, and `sleep` and
-- `wake` of Scheduler.cpp. A turn of a thread is what it does in one atomic piece: the tests of the
-- flag, the pieces under the lock of the list, and falling asleep.
pub mod Places
pub mod Safety
pub mod Exclusion
pub mod Waiting
pub mod Leaving
pub mod Wakeup
mod Tests
use k_panic.Base.{
  ℕ, zero, suc, ◌==◌, ◌≡◌, Bool, true, false, Option, none, some, List, [], ◌∷◌, if◌then◌else◌,
}

-- Where a thread is. In `acquire`: before the test, after it failed, with the lock of the list, with
-- the second test failed, in the list but not yet asleep, asleep, and with the flag set. Then it holds
-- the mutex. In `release`: with the flag cleared, with the lock of the list, and about to wake a thread.
pub data Place : Type 0 where
  outside trying failed listed queueing falling asleep entering holding releasing popping : Place
  waking : ℕ → Place

pub record MutexState : Type 0 where
  pub places : ℕ → Place
  pub mutex : Bool
  pub held_by : Option ℕ
  pub waiters_list : List ℕ
  pub waiters_list_lock : Bool

abbrev pub put_at : (ℕ → Place) → ℕ → Place → ℕ → Place
put_at places t p u = if t == u then p else places u

abbrev pub move : MutexState → ℕ → Place → MutexState
move s t p = record s { places = put_at s.places t p }

-- `popBackThreadFromWaitersList`; the newest waiter is first.
abbrev pub pop_back : List ℕ → Option (ℕ × List ℕ)
pop_back [] = none
pop_back (t ∷ ts) = elim (pop_back ts) [ none ↦ some (t, []) | some (w, rest) ↦ some (w, t ∷ rest) ]

-- `wake` waits until the thread sleeps.
abbrev pub wake : MutexState → ℕ → ℕ → Place → Option MutexState
wake s t w asleep = some (move (move s w trying) t outside)
wake s t w p = none

-- The next piece of the code of a thread; `none` where it has to try again, fails an assertion, or
-- sleeps. Outside it calls `acquire`, and where it holds the mutex it calls `release`.
abbrev pub turn_at : MutexState → ℕ → Place → Option MutexState
turn_at s t outside = some (move s t trying)
turn_at s t trying =
    some (if s.mutex then move s t failed else move (record s { mutex = true }) t entering)
turn_at s t failed =
    if s.waiters_list_lock
    then none
    else some (move (record s { waiters_list_lock = true }) t listed)
turn_at s t listed = some (
    if s.mutex
    then move s t queueing
    else move (record s { mutex = true; waiters_list_lock = false }) t entering)
turn_at s t queueing =
    some
      (move (record s { waiters_list = t ∷ s.waiters_list; waiters_list_lock = false }) t falling)
turn_at s t falling = some (move s t asleep)
turn_at s t asleep = none
turn_at s t entering = elim s.held_by [
  | none ↦ some (move (record s { held_by = some t }) t holding)
  | some u ↦ none
]
turn_at s t holding = elim s.held_by [
  | none ↦ none
  | some u ↦
      if u == t then some (move (record s { held_by = none; mutex = false }) t releasing) else none
]
turn_at s t releasing =
    if s.waiters_list_lock
    then none
    else some (move (record s { waiters_list_lock = true }) t popping)
turn_at s t popping = elim (pop_back s.waiters_list) [
  | none ↦ some (move (record s { waiters_list_lock = false }) t outside)
  | some (w, rest) ↦
      some (move (record s { waiters_list = rest; waiters_list_lock = false }) t (waking w))
]
turn_at s t (waking w) = wake s t w (s.places w)

pub turn : MutexState → ℕ → Option MutexState
turn s t = turn_at s t (s.places t)

-- All threads outside, the mutex free.
abbrev pub at_start : MutexState
at_start = record {
  places = λ t. outside;
  mutex = false;
  held_by = none;
  waiters_list = [];
  waiters_list_lock = false;
}

-- The states that turns of any threads, in any order, lead to.
pub data Reach : MutexState → Type 0 where
  started : Reach at_start
  goes_on : (s s' : MutexState) (t : ℕ) → Reach s → turn s t ≡ some s' → Reach s'
