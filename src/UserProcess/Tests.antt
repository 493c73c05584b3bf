-- ===== src/UserProcess/Tests.antt =====
-- Runs of the threads' operations: a process with two threads, a join, and what the theorems say of
-- them.
use k_panic.Base.{ℕ, zero, ◌≡◌, refl, ◌≢◌, ◌↔◌, Bool, true, false, none, some, [], ◌∷◌, arith}
use k_panic.Base.AssocMap.{lookup, insert, erase, contains}
use k_panic.UserProcess.{
  Process, JoinResult, joined, refused, blocked, sleeping, running, new_thread, join_deadlock,
  join_target_invalid, join_thread, join_wake, exit_thread, set_state, internal_add_new_thread,
  was_really_exited,
}
use k_panic.UserProcess.WaitGraph.{Chain, Acyclic, join_deadlock_iff}
use k_panic.UserProcess.Join.{with_state}
use k_panic.UserProcess.Wake.{join_wake-exit, join_wake_race}
use k_panic.UserProcess.Protocol.{Reach, initial, after, creates, joins, start, Reach-Acyclic}
use k_panic.UserProcess.Sleep.{join_thread_blocked_iff}
use k_panic.UserProcess.Fresh.{Among, given_out, create_fresh}
use k_panic.UserProcess.Stack.{
  UserStackInfo, IsStack, aslr_stack_manager, in_conflict, aslr_stack_manager-IsStack,
}

abbrev stack : ℕ × ℕ
stack = (0x7fff_ffff_d000, 0x7fff_ffff_3000)

abbrev one : Process
one = record start {
  thread_list = (0, new_thread) ∷ [];
  user_stack_list = (0, stack) ∷ [];
  next_tid = 1;
}

abbrev two : Process
two = record start {
  thread_list = (0, new_thread) ∷ (1, new_thread) ∷ [];
  user_stack_list = (0, stack) ∷ (1, stack) ∷ [];
  next_tid = 2;
}

-- The first thread waits for the second.
abbrev waiting : Process
waiting = record two {
  thread_list = (0, record new_thread { state = sleeping }) ∷ (1, new_thread) ∷ [];
  waiting_list = (1, 0) ∷ [];
}

two-Reach : Reach two
unfolding internal_add_new_thread contains insert
two-Reach =
    after {p = one} (after initial (creates {tid = 0} stack refl)) (creates {tid = 1} stack refl)

blocks : join_thread two 0 1 ≡ some (blocked, waiting)
unfolding join_thread lookup contains insert set_state
blocks = refl

waiting-Reach : Reach waiting
waiting-Reach = after two-Reach (joins 0 1 blocks)

Reach-Acyclic_example : Acyclic ((1, 0) ∷ [])
Reach-Acyclic_example = Reach-Acyclic waiting-Reach

join_deadlock_iff_example :
    (b : Bool) × (join_deadlock ((1, 0) ∷ []) 1 0 ≡ some b) × ((b ≡ true) ↔ Chain ((1, 0) ∷ []) 1 0)
join_deadlock_iff_example = join_deadlock_iff ((1, 0) ∷ []) 1 0 (Reach-Acyclic waiting-Reach)

join_thread_blocked_iff_example :
    (r : JoinResult) × (q : Process) × (join_thread waiting 1 0 ≡ some (r, q))
    × ((r ≡ blocked) ↔ (
        (1 ≢ zero)
        × (lookup 0 waiting.ret_values ≡ none)
        × (join_target_invalid waiting 0 ≡ false)
        × (contains 0 waiting.waiting_list ≡ false)
        × ¬ Chain waiting.waiting_list 1 0))
join_thread_blocked_iff_example = join_thread_blocked_iff waiting 1 0 waiting-Reach

-- The second thread may not join the first, which waits for it.
circle_refused : join_thread waiting 1 0 ≡ some (refused, waiting)
unfolding join_thread lookup contains
circle_refused = refl

alive : was_really_exited two 1 ≡ false
unfolding was_really_exited lookup
alive = refl

join_wake-exit_example :
    let r = exit_thread waiting 1 7 in
    let s = record r { waiting_list = erase 1 r.waiting_list; ret_values = erase 1 r.ret_values } in
    (join_wake r 1 ≡ some (7, s))
    × (lookup 0 r.thread_list ≡ with_state running (lookup 0 two.thread_list))
    × (lookup 1 s.ret_values ≡ none)
    × (lookup 1 s.waiting_list ≡ none)
join_wake-exit_example = join_wake-exit two 0 1 7 waiting blocks

join_wake_race_example :
    let r = exit_thread waiting 1 7 in
    let s = record r { ret_values = erase 1 r.ret_values } in
    (join_thread r 2 1 ≡ some (joined 7, s)) × (join_wake s 1 ≡ none)
join_wake_race_example = join_wake_race two 0 1 7 2 waiting blocks (omega arith)

-- The process `one`, with the number 0 given out.
abbrev to_one : Reach one
unfolding internal_add_new_thread contains insert
to_one = after initial (creates {tid = 0} stack refl)

create_fresh_example :
    ¬ Among 1 (given_out to_one)
    × (contains 1 one.thread_list ≡ false)
    × (contains 1 one.user_stack_list ≡ false)
    × (contains 1 one.waiting_list ≡ false)
    × (contains 1 one.ret_values ≡ false)
unfolding to_one
create_fresh_example =
    create_fresh one stack {tid = 1} {q = two} to_one (omega arith)
      (unfold internal_add_new_thread contains insert in refl)

abbrev high_stack : UserStackInfo
high_stack = record { start_address = 0x5000_0000_0000; end_address = 0x4fff_ffff_6000 }

high_stack-IsStack : IsStack high_stack
high_stack-IsStack = record { low = omega arith; high = omega arith; size = refl; aligned = refl }

abbrev found : UserStackInfo
found = record { start_address = 0x35a1_b044_a000; end_address = 0x35a1_b044_0000 }

-- The counter reads 1, whose round is refused, and then 3.
finds : aslr_stack_manager (high_stack ∷ []) (1 ∷ 3 ∷ []) ≡ some found
unfolding aslr_stack_manager in_conflict
finds = refl

aslr_stack_manager-IsStack_example : IsStack found
aslr_stack_manager-IsStack_example =
    aslr_stack_manager-IsStack (high_stack ∷ []) (1 ∷ 3 ∷ []) {s = found} finds
