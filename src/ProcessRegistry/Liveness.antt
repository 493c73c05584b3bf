-- ===== src/ProcessRegistry/Liveness.antt =====
-- A process that waits for another sleeps until that one ends, and is woken then.
use mathlib.Core.Path.{subst}
use k_panic.Base.{
  ℕ, ◌-◌, ◌%◌, ◌^◌, ◌==◌, ◌≡◌, ◌≢◌, inl, inr, ap, Bool, false, not, ◌&&◌, ◌||◌, ltb, leb, Option,
  some, List, [], arith, Bool-cases,
}
use k_panic.Base.AssocMap.{
  lookup, insert, erase, contains, lookup-erase, lookup-insert, lookup-contains,
}
use k_panic.ProcessRegistry.{
  ProcessRegistry, get_new_pid, process_start, process_exit, add_to_wait_pid_map,
  remove_from_wait_pid_map, WaitResult, asleep, wait_for_pid, wait_for_any_pid, waitpid,
}
use k_panic.ProcessRegistry.Waits.{Among}
use k_panic.ProcessRegistry.Protocol.{Step, starts, waits, ends}
use k_panic.ProcessRegistry.Wake.{
  SleepsOn, SleepsOn-map, wait_for_pid-SleepsOn, wait_for_pid-keeps, wakes,
}

-- Any number of steps in which `pid` does not end.
pub data Run (pid : ℕ) (r : ProcessRegistry) : ProcessRegistry → Type 0 where
  done : Run pid r r
  more :
      {t : ProcessRegistry} {ended : Option ℕ} {u : ProcessRegistry}
      → Run pid r t
      → Step t ended u
      → ended ≢ some pid
      → Run pid r u

-- The case of `Syscall::waitpid` that calls `waitForPid`.
waits_for_one : ℕ → ℕ → ℕ → ℕ → ℕ → Bool
waits_for_one user_break other target status options =
    let low = target % 2 ^ 32 in
    not (
      leb user_break status
      || target == 0
      || (leb (2 ^ 31) low && ltb low (2 ^ 32 - 1))
      || target == other)
    && (options == 0 || options == 4)
    && not (low == 2 ^ 32 - 1)

module _ (current pid : ℕ) where
  waitpid-keeps :
      (r t : ProcessRegistry) (user_break other target status options : ℕ) (result : WaitResult)
      → SleepsOn r current pid
      → waitpid user_break r other target status options ≡ some (result, t)
      → SleepsOn t current pid
  unfolding waitpid wait_for_any_pid waits_for_one
  waitpid-keeps r t user_break other target status options result s e =
      elim (Bool-cases (waits_for_one user_break other target status options)) [
        | inr otherwise ↦
            let same : r.waitpid_map ≡ t.waitpid_map = ground arith in
            SleepsOn-map r t current pid same s
        | inl one ↦
            let e' : wait_for_pid r other target ≡ some (result, t) = ground arith in
            wait_for_pid-keeps current pid r t other target result s e'
      ]

  Step-SleepsOn :
      (r : ProcessRegistry) (ended : Option ℕ) (t : ProcessRegistry)
      → Step r ended t
      → ended ≢ some pid
      → SleepsOn r current pid
      → SleepsOn t current pid
  unfolding get_new_pid process_start add_to_wait_pid_map process_exit remove_from_wait_pid_map
  Step-SleepsOn r _ t (starts proc _ e) ne s =
      let known = lookup-contains pid r.waitpid_map s.found in
      let new : contains r.pid_counter r.waitpid_map ≡ false = ground arith in
      let other : r.pid_counter ≢ pid = ground arith in
      let same : insert r.pid_counter [] r.waitpid_map ≡ t.waitpid_map = ground arith in
      record {
        sleepers = s.sleepers;
        found =
            subst (λ m. lookup pid m ≡ some s.sleepers) same
              (ground (arith, lookup-insert r.pid_counter pid [] r.waitpid_map, s.found));
        among = s.among;
      }
  Step-SleepsOn r _ t (waits user_break other target status options result _ e) ne s =
      waitpid-keeps r t user_break other target status options result s e
  Step-SleepsOn r _ t (ends q _ woken e) ne s =
      let other : q ≢ pid = λ same. ne (ap some same) in
      let same : erase q r.waitpid_map ≡ t.waitpid_map = ground arith in
      record {
        sleepers = s.sleepers;
        found =
            subst (λ m. lookup pid m ≡ some s.sleepers) same
              (ground (arith, lookup-erase q pid r.waitpid_map, s.found));
        among = s.among;
      }

  Run-SleepsOn :
      (r t : ProcessRegistry) → Run pid r t → SleepsOn r current pid → SleepsOn t current pid
  Run-SleepsOn r t done s = s
  Run-SleepsOn r u (more {t} {ended} run step ne) s =
      Step-SleepsOn t ended u step ne (Run-SleepsOn r t run s)

  -- Waiting for a process ends when that process ends: once `waitForPid` has put a process to sleep,
  -- and after any further starts, ends and waits in which the process it waits for does not end, the
  -- end of that process succeeds and wakes it.
  pub wait_for_pid_wakes :
      (r s t : ProcessRegistry)
      → wait_for_pid r current pid ≡ some (asleep, s)
      → Run pid s t
      → (u : ProcessRegistry) × (woken : List ℕ) × (remove_from_wait_pid_map
            (process_exit t pid).0
            pid
          ≡ some (u, woken))
        × Among current woken
  wait_for_pid_wakes r s t e run =
      wakes t current pid (Run-SleepsOn s t run (wait_for_pid-SleepsOn current pid r s e))
