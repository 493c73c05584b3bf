-- ===== src/Scheduler/Tests.antt =====
-- A thread that sleeps, one of the kernel, and one of a process, scheduled and cleaned up.
use k_panic.Base.{◌+◌, ◌≤◌, ◌≡◌, refl, true, false, none, some, List, [], ◌∷◌, arith, take, drop}
use k_panic.UserProcess.{running, to_be_destroyed}
use k_panic.Scheduler.{
  ScheduledThread, Scheduler, schedule, cleanup_dead_threads, must_sleep, schedulable, is_dead,
}
use k_panic.Scheduler.Choice.{idents, Turn, schedule-Turn}
use k_panic.Scheduler.Cleanup.{dead_ones, live_ones, cleanup_dead_threads-sorts_out}
use k_panic.Scheduler.Fair.{ahead, done, other_runs, waits-at-most-ahead}

abbrev idler : ScheduledThread
idler = record {
  ident = 1;
  state = running;
  user = false;
  process = 0;
  time_to_wakeup = 0;
  cancel_req = false;
  cancelable = false;
  switch_to_userspace = false;
}

abbrev worker : ScheduledThread
worker = record idler { ident = 2; user = true; process = 7; switch_to_userspace = true }

abbrev dozer : ScheduledThread
dozer = record worker { ident = 3; time_to_wakeup = 50 }

abbrev dead_thread : ScheduledThread
dead_thread = record worker { ident = 4; state = to_be_destroyed }

abbrev with_threads : List ScheduledThread → Scheduler
with_threads ts = record {
  threads = ts;
  block_scheduling = false;
  current = none;
  uthread_start = 0;
  uthread_end = 0;
  accumulated = λ p. 0;
}

abbrev three_threads : Scheduler
three_threads = with_threads (dozer ∷ idler ∷ worker ∷ [])

abbrev idler_runs : Scheduler
idler_runs = record three_threads { threads = worker ∷ dozer ∷ idler ∷ []; current = some idler }

runs_idler : schedule 10 three_threads ≡ some (idler_runs, false)
unfolding schedule
runs_idler = refl

abbrev some_dead : Scheduler
some_dead = with_threads (dead_thread ∷ idler ∷ dead_thread ∷ worker ∷ [])

cleans_up :
    cleanup_dead_threads some_dead
    ≡ some (with_threads (idler ∷ worker ∷ []), dead_thread ∷ dead_thread ∷ [])
unfolding cleanup_dead_threads
cleans_up = refl

schedule-Turn_example : Turn 10 three_threads idler_runs
schedule-Turn_example = schedule-Turn 10 three_threads idler_runs false refl runs_idler

waits-at-most-ahead_example :
    1 + ahead 2 (idents idler_runs.threads) ≤ ahead 2 (idents three_threads.threads)
unfolding must_sleep schedulable
waits-at-most-ahead_example =
    waits-at-most-ahead 2 1 three_threads idler_runs
      (other_runs 10 0 three_threads idler_runs idler_runs false worker idler refl refl refl
        runs_idler refl (omega arith) (done idler_runs))
      (omega arith)

cleanup_dead_threads-sorts_out_example :
    (dead_thread ∷ dead_thread ∷ [] ≡ take 1024 (dead_ones some_dead.threads))
    × (([] ≡ drop 1024 (dead_ones some_dead.threads))
        × (live_ones (idler ∷ worker ∷ []) ≡ live_ones some_dead.threads))
unfolding is_dead
cleanup_dead_threads-sorts_out_example =
    cleanup_dead_threads-sorts_out some_dead (with_threads (idler ∷ worker ∷ []))
      (dead_thread ∷ dead_thread ∷ []) cleans_up
