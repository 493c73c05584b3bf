-- ===== src/ProcessRegistry/Tests.antt =====
-- Three processes: the second waits for the third, and the third ends.
use mathlib.Core.Path.{subst}
use k_panic.Base.{
  ℕ, ◌^◌, ◌≡◌, ◌≢◌, ◌↔◌, refl, Bool, true, none, some, List, [], ◌∷◌, arith, length, ℕ_discrete,
  inl, inr,
}
use k_panic.Base.AssocMap.{lookup, insert, erase, contains}
use k_panic.ProcessRegistry.{
  ProcessRegistry, get_new_pid, process_start, process_exit, add_to_wait_pid_map,
  remove_from_wait_pid_map, check_wait_pid_deadlock, get_cond_to_wait, asleep, wait_for_pid,
  waitpid,
}
use k_panic.ProcessRegistry.Waits.{Among, Waits, IsAcyclic}
use k_panic.ProcessRegistry.Deadlock.{IsClosed, check_wait_pid_deadlock_iff}
use k_panic.ProcessRegistry.Protocol.{Reach, none_yet, after, starts, waits, Reach-IsAcyclic}
use k_panic.ProcessRegistry.Liveness.{done, wait_for_pid_wakes}
use k_panic.ProcessRegistry.Stops.{wait_after_end}

abbrev three : ProcessRegistry
three = record {
  process_list = (0, 100) ∷ (1, 101) ∷ (2, 102) ∷ [];
  progs_running = 3;
  pid_counter = 3;
  waitpid_map = (0, []) ∷ (1, []) ∷ (2, []) ∷ [];
  waits_for = (0, []) ∷ (1, []) ∷ (2, []) ∷ [];
  any_waiters = [];
  last_dead_pid = 0;
}

abbrev found : ProcessRegistry
found = record three { waits_for = (0, []) ∷ (1, 2 ∷ []) ∷ (2, []) ∷ [] }

abbrev waiting : ProcessRegistry
waiting = record found { waitpid_map = (0, []) ∷ (1, []) ∷ (2, 1 ∷ []) ∷ [] }

abbrev ended : ProcessRegistry
ended = record three {
  process_list = (0, 100) ∷ (1, 101) ∷ [];
  progs_running = 2;
  waitpid_map = (0, []) ∷ (1, []) ∷ [];
  waits_for = (0, []) ∷ (1, 2 ∷ []) ∷ [];
  last_dead_pid = 2;
}

waits_1_2 : wait_for_pid three 1 2 ≡ some (asleep, waiting)
unfolding wait_for_pid lookup insert contains
waits_1_2 = refl

ends_2 : remove_from_wait_pid_map (process_exit waiting 2).0 2 ≡ some (ended, 1 ∷ [])
unfolding remove_from_wait_pid_map process_exit lookup erase contains
ends_2 = refl

three-Reach : Reach three
unfolding get_new_pid process_start add_to_wait_pid_map lookup insert contains
three-Reach =
    after (after (after none_yet (starts 100 first refl)) (starts 101 second refl))
      (starts 102 three refl)
  where
    first : ProcessRegistry
    first = record three {
      process_list = (0, 100) ∷ [];
      progs_running = 1;
      pid_counter = 1;
      waitpid_map = (0, []) ∷ [];
      waits_for = (0, []) ∷ [];
    }

    second : ProcessRegistry
    second = record three {
      process_list = (0, 100) ∷ (1, 101) ∷ [];
      progs_running = 2;
      pid_counter = 2;
      waitpid_map = (0, []) ∷ (1, []) ∷ [];
      waits_for = (0, []) ∷ (1, []) ∷ [];
    }

waiting-Reach : Reach waiting
unfolding waitpid wait_for_pid lookup insert contains
waiting-Reach = after three-Reach (waits (2 ^ 47) 1 2 0 0 asleep waiting refl)

Reach-IsAcyclic_example : IsAcyclic waiting.waits_for
Reach-IsAcyclic_example = Reach-IsAcyclic waiting waiting-Reach

waiting-IsClosed : IsClosed waiting.waits_for
unfolding lookup
waiting-IsClosed p q w = elim (ℕ_discrete 1 p) [
  | yes waiter ↦
      let one : w.list ≡ 2 ∷ [] = ground (arith, w.found) in
      elim (subst (Among q) one w.among) [ inl same ↦ λ missing. ground arith | inr h ↦ elim h [ ] ]
  | no other ↦
      let nobody : w.list ≡ [] = ground (arith, w.found) in absurd (subst (Among q) nobody w.among)
]

known_2 : lookup 2 waiting.waits_for ≢ none
unfolding lookup
known_2 = λ e. cc

known_1 : lookup 1 waiting.waits_for ≢ none
unfolding lookup
known_1 = λ e. cc

check_wait_pid_deadlock_iff_example :
    (b : Bool) × (check_wait_pid_deadlock (length waiting.waits_for) waiting.waits_for 1 2 ≡ some b)
    × ((b ≡ true) ↔ Waits waiting.waits_for 1 2)
check_wait_pid_deadlock_iff_example =
    check_wait_pid_deadlock_iff waiting.waits_for 1 2 (Reach-IsAcyclic waiting waiting-Reach)
      waiting-IsClosed known_1

wait_for_pid_wakes_example :
    (u : ProcessRegistry) × (woken : List ℕ) × (remove_from_wait_pid_map
        (process_exit waiting 2).0
        2
      ≡ some (u, woken))
    × Among 1 woken
wait_for_pid_wakes_example = wait_for_pid_wakes 1 2 three waiting waiting waits_1_2 done

unknown : lookup 7 three.waits_for ≡ none
unfolding lookup
unknown = refl

fresh : lookup 1 three.waits_for ≡ some []
unfolding lookup
fresh = refl

finds : get_cond_to_wait three 1 2 ≡ some (true, found)
unfolding get_cond_to_wait lookup insert contains
finds = refl

ends_found : remove_from_wait_pid_map (process_exit found 2).0 2 ≡ some (ended, [])
unfolding remove_from_wait_pid_map process_exit lookup erase contains
ends_found = refl

wait_after_end_example : wait_for_pid ended 0 1 ≡ none
wait_after_end_example =
    wait_after_end three waiting ended 1 2 0 (1 ∷ []) fresh (omega arith) (omega arith) waits_1_2
      ends_2
