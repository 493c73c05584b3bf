-- ===== src/UserProcess.antt =====
-- The threads of a user process: common/source/kernel/UserProcess.cpp, with the thread's own flags
-- from common/source/kernel/UserThread.cpp. The locks are held over each part of an operation that
-- is one function here; `join_thread` is two, since it sleeps between them.
pub mod WaitGraph
pub mod Join
pub mod Tid
pub mod Protocol
pub mod Sleep
pub mod Bounded
pub mod Fresh
pub mod Stack
pub mod Wake
mod Tests
use k_panic.Base.{
  ℕ, zero, suc, [], ◌∷◌, ◌+◌, ◌%◌, ◌^◌, ◌==◌, Bool, true, false, ◌||◌, not, Option, none, some,
  length, if◌then◌else◌,
}
use k_panic.Base.AssocMap.{AssocMap, lookup, insert, erase, contains}

-- `enum ThreadState`
pub data ThreadState : Type 0 where
  running sleeping to_be_destroyed : ThreadState

pub record Thread : Type 0 where
  pub state : ThreadState
  pub cancel_req : Bool
  pub cancelable : Bool
  pub exited : Bool

-- `waiting_list` maps a thread to the one that waits for it: a `WaitingInfo`, whose condition has
-- that thread as its only waiter. `user_stack_list` has the two ends of each stack.
pub record Process : Type 0 where
  pub thread_list : AssocMap Thread
  pub user_stack_list : AssocMap (ℕ × ℕ)
  pub waiting_list : AssocMap ℕ
  pub ret_values : AssocMap ℕ
  pub called_exit : Bool
  pub next_tid : ℕ

-- What `joinThread` does before it sleeps, or instead of it.
pub data JoinResult : Type 0 where
  joined : ℕ → JoinResult
  refused blocked : JoinResult

-- The loop of `joinDeadlock`: from the thread at hand to the one that waits for it, and on.
-- `none` is a loop that has not ended within the fuel.
pub walk : ℕ → AssocMap ℕ → ℕ → ℕ → Option Bool
walk zero m next_waiter target = none
walk (suc fuel) m next_waiter target = elim (lookup next_waiter m) [
  | none ↦ some false
  | some waiter ↦
      let rest = walk fuel m waiter target in if waiter == target then some true else rest
]

-- One round for each entry, and the one that finds no entry.
pub join_deadlock : AssocMap ℕ → ℕ → ℕ → Option Bool
unfolding walk
join_deadlock waiting caller target = walk (suc (length waiting)) waiting caller target

-- The condition of the caller puts it to sleep, and its `signal` wakes it.
pub set_state : ℕ → ThreadState → AssocMap Thread → AssocMap Thread
set_state tid st [] = []
set_state tid st ((i, t) ∷ ts) =
    if i == tid then (i, record t { state = st }) ∷ ts else (i, t) ∷ set_state tid st ts

-- `!getThread(tid, &target) || target->wasReallyExited()`
pub join_target_invalid : Process → ℕ → Bool
join_target_invalid p tid = elim (lookup tid p.thread_list) [ none ↦ true | some t ↦ t.exited ]

-- The last part of `joinThread` before it sleeps: the check for a circle, and the entry.
pub join_wait : Process → ℕ → ℕ → Option (JoinResult × Process)
unfolding join_deadlock
join_wait p caller tid = elim (join_deadlock p.waiting_list caller tid) [
  | none ↦ none
  | some true ↦ some (refused, p)
  | some false ↦ some (
    blocked,
    record p {
      waiting_list = insert tid caller p.waiting_list;
      thread_list = set_state caller sleeping p.thread_list;
    },
  )
]

-- `joinThread` up to `cond->wait()`; `none` is a check for a circle that does not end.
pub join_thread : Process → ℕ → ℕ → Option (JoinResult × Process)
unfolding join_wait join_target_invalid
join_thread p caller tid =
    if caller == tid then some (refused, p) else elim (lookup tid p.ret_values) [
      | some rv ↦ some (joined rv, record p { ret_values = erase tid p.ret_values })
      | none ↦
          if join_target_invalid p tid
          then some (refused, p)
          else if contains tid p.waiting_list
          then some (refused, p)
          else join_wait p caller tid
    ]

-- `joinThread` behind `cond->wait()`; `none` is a failed assertion.
pub join_wake : Process → ℕ → Option (ℕ × Process)
join_wake p tid =
    if not (contains tid p.waiting_list) then none else elim (lookup tid p.ret_values) [
      | none ↦ none
      | some rv ↦ some (
        rv,
        record p { waiting_list = erase tid p.waiting_list; ret_values = erase tid p.ret_values },
      )
    ]

-- `waiter.cond_->signal()`, if a thread waits for `tid`.
pub signal_waiter : Process → ℕ → AssocMap Thread
unfolding set_state
signal_waiter p tid = elim (lookup tid p.waiting_list) [
  | none ↦ p.thread_list
  | some waiter ↦ set_state waiter running p.thread_list
]

-- `setReallyExited()` and `UserThread::exit`
pub finish : ℕ → AssocMap Thread → AssocMap Thread
finish tid [] = []
finish tid ((i, t) ∷ ts) =
    if i == tid
    then (i, record t { exited = true; state = to_be_destroyed }) ∷ ts
    else (i, t) ∷ finish tid ts

pub was_really_exited : Process → ℕ → Bool
was_really_exited p tid = elim (lookup tid p.thread_list) [ none ↦ false | some t ↦ t.exited ]

-- `exitThread`, called by the thread `tid`.
pub exit_thread : Process → ℕ → ℕ → Process
unfolding signal_waiter finish was_really_exited
exit_thread p tid retval =
    if contains tid p.ret_values || was_really_exited p tid then p else record p {
      ret_values = insert tid retval p.ret_values;
      thread_list = finish tid (signal_waiter p tid);
    }

-- What `cancelThread` returns: 0, -1 for no such thread, -2 for one that is already ending.
pub data CancelResult : Type 0 where
  accepted no_such_thread not_cancelable : CancelResult

pub is_cancelable_state : ThreadState → Bool
is_cancelable_state running = true
is_cancelable_state sleeping = true
is_cancelable_state to_be_destroyed = false

pub cancel_thread : Process → ℕ → CancelResult × Process
unfolding is_cancelable_state
cancel_thread p tid = elim (lookup tid p.thread_list) [
  | none ↦ (no_such_thread, p)
  | some t ↦
      if is_cancelable_state t.state
      then (
        accepted,
        record p { thread_list = insert tid (record t { cancel_req = true }) p.thread_list },
      )
      else (not_cancelable, p)
]

-- The loop of `allocNextFreeTID`, with the thread list's length as fuel.
pub next_free : ℕ → AssocMap Thread → ℕ → ℕ
next_free zero ts n = n
next_free (suc fuel) ts n =
    let rest = next_free fuel ts ((n + 1) % 2 ^ 64) in if contains n ts then rest else n

abbrev pub new_thread : Thread
new_thread = record { state = running; cancel_req = false; cancelable = true; exited = false }

-- `internalAddNewThread` with `on_fork` false; `stack` is what `ASLRStackManager` chose.
pub internal_add_new_thread : Process → ℕ × ℕ → Option (ℕ × Process)
unfolding next_free
internal_add_new_thread p stack =
    let tid = next_free (length p.thread_list) p.thread_list p.next_tid in
    if p.called_exit
    then none
    else some (
      tid,
      record p {
        next_tid = (tid + 1) % 2 ^ 64;
        user_stack_list = insert tid stack p.user_stack_list;
        thread_list = insert tid new_thread p.thread_list;
      },
    )

-- `onThreadDestroyed` on a list that is not empty; the flag says that the process is deleted.
pub on_thread_destroyed : Process → ℕ → Process × Bool
on_thread_destroyed p tid =
    let left = erase tid p.thread_list in
    (
      record p { thread_list = left; user_stack_list = erase tid p.user_stack_list },
      length left == 0,
    )
