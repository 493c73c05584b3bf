-- ===== src/Scheduler.antt =====
-- The list of threads and the choice of the next one: common/source/kernel/Scheduler.cpp, with the
-- wake-up times and cancellation flags of UserThread.cpp. The time stamp counter is read once in a
-- call and is its argument `now`. `none` is a failed assertion.
pub mod Choice
pub mod Fair
pub mod Cleanup
mod Tests
use k_panic.Base.{
  ℕ, zero, suc, ◌+◌, ◌-◌, ◌*◌, ◌/◌, ◌%◌, ◌^◌, ◌==◌, Bool, true, false, not, ◌&&◌, ◌||◌, Option,
  none, some, List, [], ◌∷◌, ◌++◌, ltb, leb, if◌then◌else◌, length,
}
use k_panic.UserProcess.{ThreadState, running, sleeping, to_be_destroyed}

-- What the scheduler reads of a thread: `user` is its type, `process` the process of a user thread.
pub record ScheduledThread : Type 0 where
  pub ident : ℕ
  pub state : ThreadState
  pub user : Bool
  pub process : ℕ
  pub time_to_wakeup : ℕ
  pub cancel_req : Bool
  pub cancelable : Bool
  pub switch_to_userspace : Bool

-- `accumulated` is the time that each process has had, accumulated_incs_ of UserProcess.
pub record Scheduler : Type 0 where
  pub threads : List ScheduledThread
  pub block_scheduling : Bool
  pub current : Option ScheduledThread
  pub uthread_start : ℕ
  pub uthread_end : ℕ
  pub accumulated : ℕ → ℕ

pub schedulable : ScheduledThread → Bool
schedulable t = elim t.state [ running ↦ true | sleeping ↦ false | to_be_destroyed ↦ false ]

-- A user thread that still sleeps by the clock is passed over.
pub must_sleep : ℕ → ScheduledThread → Bool
must_sleep now t = t.user && not (t.time_to_wakeup == 0) && ltb now t.time_to_wakeup

-- `resetWakeUp` where the time is over.
pub reset_wake_up : ScheduledThread → ScheduledThread
reset_wake_up t = if t.user then record t { time_to_wakeup = 0 } else t

-- The threads that were passed over, the one that is chosen, and those behind it.
pub record Found : Type 0 where
  pub passed : List ScheduledThread
  pub chosen : ScheduledThread
  pub behind : List ScheduledThread

abbrev pub pass_over : ScheduledThread → Option Found → Option Found
pass_over t none = none
pass_over t (some f) = some (record f { passed = t ∷ f.passed })

-- The loop over the list; `none` is its end.
pub find_next : ℕ → List ScheduledThread → Option Found
unfolding schedulable must_sleep reset_wake_up
find_next now [] = none
find_next now (t ∷ ts) =
    let rest = find_next now ts in
    if must_sleep now t
    then pass_over t rest
    else if schedulable t
    then some (record { passed = []; chosen = reset_wake_up t; behind = ts })
    else pass_over (reset_wake_up t) rest

-- `shouldCancel`, `setCancelled` and `prepareCancellation` of a user thread in user space.
pub cancel_if_asked : ScheduledThread → ScheduledThread
cancel_if_asked t =
    if t.user && (t.cancelable && t.cancel_req && t.switch_to_userspace)
    then record t { cancelable = false; switch_to_userspace = false }
    else t

-- The time since `uthread_start_` goes to the process of the thread that ran.
pub account : ℕ → Scheduler → Scheduler
account now s = elim s.current [
  | none ↦ s
  | some c ↦
      let end = if s.uthread_start == 0 then 0 else now in
      let spent = (end + 2 ^ 64 - s.uthread_start) % 2 ^ 64 in
      if c.user
      then record s {
        uthread_end = end;
        accumulated =
            λ p. if c.process == p then (s.accumulated p + spent) % 2 ^ 64 else s.accumulated p;
      }
      else s
]

-- `schedule`: the new state, and whether the thread goes on in user space.
pub schedule : ℕ → Scheduler → Option (Scheduler × Bool)
unfolding find_next cancel_if_asked account
schedule now s = if s.block_scheduling then some (s, false) else elim (find_next now s.threads) [
  | none ↦ none
  | some f ↦
      let t = cancel_if_asked f.chosen in
      let s1 = account now s in
      some (
        record s1 {
          threads = f.behind ++ (f.passed ++ t ∷ []);
          current = some t;
          uthread_start = if t.user then now else s1.uthread_start;
        },
        t.switch_to_userspace,
      )
]

-- `lockScheduling` panics where scheduling is blocked already.
pub add_new_thread : Scheduler → ScheduledThread → Option Scheduler
add_new_thread s t =
    if s.block_scheduling then none else some (record s { threads = s.threads ++ t ∷ [] })

pub is_dead : ScheduledThread → Bool
is_dead t = elim t.state [ running ↦ false | sleeping ↦ false | to_be_destroyed ↦ true ]

-- The loop of `cleanupDeadThreads`, with room for `room` more threads: those that stay and those
-- that are destroyed.
pub collect_dead : ℕ → List ScheduledThread → List ScheduledThread × List ScheduledThread
unfolding is_dead
collect_dead zero ts = (ts, [])
collect_dead (suc room) [] = ([], [])
collect_dead (suc room) (t ∷ ts) =
    let (kept, dead) = collect_dead room ts in
    let (kept', dead') = collect_dead (suc room) ts in
    if is_dead t then (kept, t ∷ dead) else (t ∷ kept', dead')

pub cleanup_dead_threads : Scheduler → Option (Scheduler × List ScheduledThread)
unfolding collect_dead
cleanup_dead_threads s =
    let size = length s.threads in
    let (kept, dead) = collect_dead (if ltb 1024 size then 1024 else size) s.threads in
    if s.block_scheduling then none else some (record s { threads = kept }, dead)

-- `sleepUntil` up to its `yield`.
pub sleep_until : ℕ → ℕ → ScheduledThread → ScheduledThread
sleep_until now wakeup t = if ltb wakeup now then t else record t { time_to_wakeup = wakeup }
