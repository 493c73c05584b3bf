-- ===== src/UserProcess/Protocol.antt =====
-- Every order of the operations on the threads of a process, whoever calls them.
use k_panic.Base.{ℕ, ◌≡◌, sym, ap, ◌≢◌, true, false, some, [], arith}
use mathlib.Core.Path.{subst}
use k_panic.Base.AssocMap.{lookup, erase, contains, contains-lookup}
use k_panic.UserProcess.{
  Process, JoinResult, joined, refused, blocked, join_wait, join_thread, join_wake, exit_thread,
  cancel_thread, internal_add_new_thread, on_thread_destroyed,
}
use k_panic.UserProcess.WaitGraph.{Chain, Acyclic, Acyclic-insert, Acyclic-erase, join_deadlock_iff}
use k_panic.UserProcess.Wake.{Blocked, join_thread-Blocked}

-- One operation of one of the threads; the sleeping part of a join stands between two steps.
pub data Step : Process → Process → Type 0 where
  creates :
      {p q : Process} {tid : ℕ} (stack : ℕ × ℕ)
      → internal_add_new_thread p stack ≡ some (tid, q)
      → Step p q
  exits :
      {p : Process} (tid v : ℕ) → contains tid p.thread_list ≡ true → Step p (exit_thread p tid v)
  joins :
      {p q : Process} {r : JoinResult} (caller tid : ℕ)
      → join_thread p caller tid ≡ some (r, q)
      → Step p q
  wakes : {p q : Process} {v : ℕ} (tid : ℕ) → join_wake p tid ≡ some (v, q) → Step p q
  cancels : {p : Process} (tid : ℕ) → Step p (cancel_thread p tid).1
  destroys : {p : Process} (tid : ℕ) → Step p (on_thread_destroyed p tid).0

-- What the constructor of `UserProcess` leaves, before its first thread.
abbrev pub start : Process
start = record {
  thread_list = [];
  user_stack_list = [];
  waiting_list = [];
  ret_values = [];
  called_exit = false;
  next_tid = 0;
}

pub data Reach : Process → Type 0 where
  initial : Reach start
  after : {p q : Process} → Reach p → Step p q → Reach q

start-Acyclic : Acyclic []
start-Acyclic a (Chain.direct e) = unfold lookup in cc
start-Acyclic a (Chain.further e p) = unfold lookup in cc

waiting_list-create :
    (p : Process) (stack : ℕ × ℕ) {tid : ℕ} {q : Process}
    → internal_add_new_thread p stack ≡ some (tid, q)
    → q.waiting_list ≡ p.waiting_list
unfolding internal_add_new_thread
waiting_list-create p stack h = ground arith

waiting_list-exit : (p : Process) (tid v : ℕ) → (exit_thread p tid v).waiting_list ≡ p.waiting_list
unfolding exit_thread
waiting_list-exit p tid v = ground arith

waiting_list-cancel :
    (p : Process) (tid : ℕ) → (cancel_thread p tid).1.waiting_list ≡ p.waiting_list
unfolding cancel_thread
waiting_list-cancel p tid = ground arith

waiting_list-wake :
    (p : Process) (tid : ℕ) {v : ℕ} {q : Process}
    → join_wake p tid ≡ some (v, q)
    → q.waiting_list ≡ erase tid p.waiting_list
unfolding join_wake
waiting_list-wake p tid h = ground arith

-- A join that does not put the caller to sleep leaves the list alone.
waiting_list-wait :
    (p : Process) (caller tid : ℕ) {r : JoinResult} {q : Process}
    → r ≢ blocked
    → join_wait p caller tid ≡ some (r, q)
    → q.waiting_list ≡ p.waiting_list
unfolding join_wait
waiting_list-wait p caller tid ne h = ground arith

waiting_list-join :
    (p : Process) (caller tid : ℕ) {r : JoinResult} {q : Process}
    → r ≢ blocked
    → join_thread p caller tid ≡ some (r, q)
    → q.waiting_list ≡ p.waiting_list
unfolding join_thread
waiting_list-join p caller tid {r} {q} ne h =
    ground (arith, waiting_list-wait p caller tid {r = r} {q = q} ne)

-- A join that puts the caller to sleep closes no circle, since the check has looked for one.
blocked-Acyclic :
    (p : Process) (caller tid : ℕ) {q : Process}
    → Acyclic p.waiting_list
    → join_thread p caller tid ≡ some (blocked, q)
    → Acyclic q.waiting_list
blocked-Acyclic p caller tid {q} acyclic h =
    subst Acyclic (sym (ap (λ (x : Process). x.waiting_list) b.state)) (
      Acyclic-insert p.waiting_list caller tid (contains-lookup tid p.waiting_list b.alone) acyclic
        free b.other)
  where
    b : Blocked p caller tid q
    b = join_thread-Blocked p caller tid h

    free : ¬ Chain p.waiting_list caller tid
    free c =
        let (v, e, exact) = join_deadlock_iff p.waiting_list caller tid acyclic in
        let t = exact.1 c in let n = b.no_circle in cc

Step-Acyclic : {p q : Process} → Step p q → Acyclic p.waiting_list → Acyclic q.waiting_list
Step-Acyclic (creates {p = p} stack h) a = subst Acyclic (sym (waiting_list-create p stack h)) a
Step-Acyclic (exits {p = p} tid v _) a = subst Acyclic (sym (waiting_list-exit p tid v)) a
Step-Acyclic (joins {p = p} {r = blocked} caller tid h) a = blocked-Acyclic p caller tid a h
Step-Acyclic (joins {p = p} {r = refused} caller tid h) a =
    subst Acyclic (sym (waiting_list-join p caller tid (λ e. cc) h)) a
Step-Acyclic (joins {p = p} {r = joined v} caller tid h) a =
    subst Acyclic (sym (waiting_list-join p caller tid (λ e. cc) h)) a
Step-Acyclic (wakes {p = p} tid h) a =
    subst Acyclic (sym (waiting_list-wake p tid h)) (Acyclic-erase tid p.waiting_list a)
Step-Acyclic (cancels {p = p} tid) a = subst Acyclic (sym (waiting_list-cancel p tid)) a
Step-Acyclic (destroys tid) a = unfold on_thread_destroyed in a

-- In whatever order threads are created, exit, join, are cancelled and are destroyed: the threads
-- of a process never wait for one another in a circle.
pub Reach-Acyclic : {p : Process} → Reach p → Acyclic p.waiting_list
Reach-Acyclic initial = start-Acyclic
Reach-Acyclic (after r st) = Step-Acyclic st (Reach-Acyclic r)
