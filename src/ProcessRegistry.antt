-- ===== src/ProcessRegistry.antt =====
-- Processes that wait for processes: common/source/kernel/ProcessRegistry.cpp, waitForPid and
-- waitForAnyPid of UserThread.cpp and waitpid of Syscall.cpp, up to the sleep. A condition is the
-- list of the processes that sleep on it. `none` is a failed assertion, also that of `at` of
-- ustl::map on a key that is not there.
pub mod Waits
pub mod Deadlock
pub mod Protocol
pub mod Wake
pub mod Liveness
pub mod Stops
mod Tests
use k_panic.Base.{
  ℕ, zero, suc, ◌+◌, ◌-◌, ◌%◌, ◌^◌, ◌==◌, Bool, true, false, not, ◌&&◌, ◌||◌, Option, none, some,
  List, [], ◌∷◌, ◌++◌, ltb, leb, if◌then◌else◌, length,
}
use k_panic.Base.AssocMap.{AssocMap, lookup, insert, erase, contains}

-- `waits_for` is wait_pid_map_helper_, which has the processes that a process has waited for.
pub record ProcessRegistry : Type 0 where
  pub process_list : AssocMap ℕ
  pub progs_running : ℕ
  pub pid_counter : ℕ
  pub waitpid_map : AssocMap (List ℕ)
  pub waits_for : AssocMap (List ℕ)
  pub any_waiters : List ℕ
  pub last_dead_pid : ℕ

abbrev pub empty_registry : ProcessRegistry
empty_registry = record {
  process_list = [];
  progs_running = 0;
  pid_counter = 0;
  waitpid_map = [];
  waits_for = [];
  any_waiters = [];
  last_dead_pid = 0;
}

-- `getNewPID`
pub get_new_pid : ProcessRegistry → ℕ × ProcessRegistry
get_new_pid r = (r.pid_counter, record r { pid_counter = (r.pid_counter + 1) % 2 ^ 64 })

pub process_start : ProcessRegistry → ℕ → ℕ → ProcessRegistry
process_start r pid proc = record r {
  process_list = insert pid proc r.process_list;
  progs_running = (r.progs_running + 1) % 2 ^ 32;
}

-- The new registry, and whether `all_processes_killed_` is signalled.
pub process_exit : ProcessRegistry → ℕ → ProcessRegistry × Bool
process_exit r pid =
    let left = (r.progs_running + 2 ^ 32 - 1) % 2 ^ 32 in
    let list = if contains pid r.process_list then erase pid r.process_list else r.process_list in
    (record r { process_list = list; progs_running = left }, left == 0)

pub get_user_process_from_pid : ProcessRegistry → ℕ → Option ℕ
get_user_process_from_pid r pid = lookup pid r.process_list

-- `addToWaitPIDMap`
pub add_to_wait_pid_map : ProcessRegistry → ℕ → Option ProcessRegistry
add_to_wait_pid_map r pid =
    if contains pid r.waitpid_map
    then none
    else some (record r {
      waitpid_map = insert pid [] r.waitpid_map;
      waits_for = insert pid [] r.waits_for;
    })

-- `removeFromWaitPIDMap`: the new registry, and the processes that the two broadcasts wake.
pub remove_from_wait_pid_map : ProcessRegistry → ℕ → Option (ProcessRegistry × List ℕ)
remove_from_wait_pid_map r pid = elim (lookup pid r.waitpid_map) [
  | none ↦ none
  | some sleepers ↦ some (
    record r {
      waitpid_map = erase pid r.waitpid_map;
      waits_for = erase pid r.waits_for;
      any_waiters = [];
      last_dead_pid = pid;
    },
    sleepers ++ r.any_waiters,
  )
]

-- The loop of `checkWaitPidDeadlock` over the processes that one waits for.
pub any_deadlock : (ℕ → Option Bool) → ℕ → List ℕ → Option Bool
any_deadlock check by [] = some false
any_deadlock check by (q ∷ l) =
    let rest = any_deadlock check by l in
    if q == by
    then some true
    else elim (check q) [ none ↦ none | some true ↦ some true | some false ↦ rest ]

-- `checkWaitPidDeadlock`, in rounds; `true` is the answer -1.
pub check_wait_pid_deadlock : ℕ → AssocMap (List ℕ) → ℕ → ℕ → Option Bool
unfolding any_deadlock
check_wait_pid_deadlock zero m pid by = none
check_wait_pid_deadlock (suc n) m pid by = elim (lookup pid m) [
  | none ↦ none
  | some l ↦ any_deadlock (λ q. check_wait_pid_deadlock n m q by) by l
]

-- `getCondToWait`: whether there is a condition to wait on.
pub get_cond_to_wait : ProcessRegistry → ℕ → ℕ → Option (Bool × ProcessRegistry)
unfolding check_wait_pid_deadlock
get_cond_to_wait r current pid =
    elim (check_wait_pid_deadlock (length r.waits_for) r.waits_for pid current) [
      | none ↦ none
      | some true ↦ some (false, r)
      | some false ↦
          if not (contains pid r.waitpid_map)
          then some (false, r)
          else elim (lookup current r.waits_for) [
            | none ↦ none
            | some l ↦
                some (true, record r { waits_for = insert current (l ++ pid ∷ []) r.waits_for })
          ]
    ]

pub data WaitResult : Type 0 where
  refused : WaitResult
  asleep : WaitResult

-- `waitpid_cond->wait(false)`: `none` where the condition has been deleted since.
pub sleep_on : ProcessRegistry → ℕ → ℕ → Option ProcessRegistry
sleep_on r current pid = elim (lookup pid r.waitpid_map) [
  | none ↦ none
  | some sleepers ↦
      some (record r { waitpid_map = insert pid (sleepers ++ current ∷ []) r.waitpid_map })
]

-- `waitForPid` up to its sleep, where nothing happens between its two uses of the lock.
pub wait_for_pid : ProcessRegistry → ℕ → ℕ → Option (WaitResult × ProcessRegistry)
unfolding get_cond_to_wait sleep_on
wait_for_pid r current pid = elim (get_cond_to_wait r current pid) [
  | none ↦ none
  | some (false, s) ↦ some (refused, s)
  | some (true, s) ↦ elim (sleep_on s current pid) [ none ↦ none | some t ↦ some (asleep, t) ]
]

-- `waitForAnyPid` up to its sleep.
pub wait_for_any_pid : ProcessRegistry → ℕ → WaitResult × ProcessRegistry
wait_for_any_pid r current = (asleep, record r { any_waiters = r.any_waiters ++ current ∷ [] })

-- `Syscall::waitpid` up to its sleep; `user_break` is USER_BREAK.
pub waitpid : ℕ → ProcessRegistry → ℕ → ℕ → ℕ → ℕ → Option (WaitResult × ProcessRegistry)
unfolding wait_for_pid wait_for_any_pid
waitpid user_break r current pid status options =
    let low = pid % 2 ^ 32 in
    if leb user_break status
      || pid == 0
      || (leb (2 ^ 31) low && ltb low (2 ^ 32 - 1))
      || pid == current
    then some (refused, r)
    else if options == 0 || options == 4
    then (if low == 2 ^ 32 - 1
        then some (wait_for_any_pid r current)
        else wait_for_pid r current pid)
    else some (refused, r)
