-- ===== src/Mutex/Tests.antt =====
-- Two threads: the thread 1 takes the mutex, 2 goes to sleep, 1 gives it back and wakes 2.
use k_panic.Base.{ℕ, ◌≡◌, refl, none, some, List, [], ◌∷◌}
use k_panic.Mutex.{asleep, MutexState, turn, at_start, Reach, started, goes_on}
use k_panic.Mutex.Safety.{Safe}
use k_panic.Mutex.Exclusion.{Reach-Safe}
use k_panic.Mutex.Waiting.{Attended}
use k_panic.Mutex.Wakeup.{Reach-Attended}

-- The turns of the threads that are named, while they can take them.
abbrev turns : MutexState → List ℕ → MutexState
turns s [] = s
turns s (t ∷ ts) = elim (turn s t) [ none ↦ s | some s' ↦ turns s' ts ]

sleeps_second : (turns at_start (1 ∷ 1 ∷ 1 ∷ 2 ∷ 2 ∷ 2 ∷ 2 ∷ 2 ∷ 2 ∷ [])).places 2 ≡ asleep
unfolding turn
sleeps_second = refl

takes_second :
    (turns at_start (1 ∷ 1 ∷ 1 ∷ 2 ∷ 2 ∷ 2 ∷ 2 ∷ 2 ∷ 2 ∷ 1 ∷ 1 ∷ 1 ∷ 1 ∷ 2 ∷ 2 ∷ [])).held_by
    ≡ some 2
unfolding turn
takes_second = refl

first_tries : MutexState
first_tries = turns at_start (1 ∷ [])

first_enters : MutexState
first_enters = turns at_start (1 ∷ 1 ∷ [])

enters-Reach : Reach first_enters
unfolding first_enters first_tries turn
enters-Reach = goes_on first_tries first_enters 1 (goes_on at_start first_tries 1 started refl) refl

Reach-Safe_example : Safe first_enters
Reach-Safe_example = Reach-Safe first_enters enters-Reach

Reach-Attended_example : Attended first_enters
Reach-Attended_example = Reach-Attended first_enters enters-Reach
