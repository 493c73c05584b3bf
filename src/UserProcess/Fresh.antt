-- ===== src/UserProcess/Fresh.antt =====
-- The numbers of threads are not used again before their counter wraps round.
use k_panic.Base.{
  ℕ, ◌+◌, ◌^◌, List, length, Bool-cases, ◌∙◌, ◌<◌, ◌≡◌, refl, true, false, some, [], ◌∷◌, arith,
  inl, inr, ap, ◌≤◌, ◌⊎◌, sym,
}
use k_panic.Base.AssocMap.{AssocMap, insert, contains, contains-insert}
use k_panic.UserProcess.{
  Process, JoinResult, new_thread, join_thread, join_wait, join_wake, exit_thread, cancel_thread,
  internal_add_new_thread, on_thread_destroyed,
}
use k_panic.UserProcess.Tid.{next_free-here}
use k_panic.UserProcess.Protocol.{
  Step, creates, exits, joins, wakes, cancels, destroys, Reach, initial, after,
}
use k_panic.UserProcess.Bounded.{
  IsBounded, start-IsBounded, join_thread_cases, exit-IsBounded, join-IsBounded, wake-IsBounded,
  cancel-IsBounded, destroy-IsBounded,
}

-- The numbers that were given to threads, the last one first.
abbrev pub given_by : {p q : Process} → Step p q → List ℕ → List ℕ
given_by (creates {tid = tid} stack h) used = tid ∷ used
given_by (exits tid v h) used = used
given_by (joins caller tid h) used = used
given_by (wakes tid h) used = used
given_by (cancels tid) used = used
given_by (destroys tid) used = used

abbrev pub given_out : {p : Process} → Reach p → List ℕ
given_out initial = []
given_out (after r st) = given_by st (given_out r)

abbrev pub Among : ℕ → List ℕ → Type 0
Among x [] = ⊥
Among x (a ∷ l) = (a ≡ x) ⊎ Among x l

-- The counter stands at the number of threads that were created, and all that is known is below it.
record Counts (p : Process) (used : List ℕ) : Type 0 where
  known : IsBounded p
  count : p.next_tid ≡ length used
  below : (x : ℕ) → Among x used → x < p.next_tid

-- What the creation of a thread does where the counter does not wrap.
record Creates (p : Process) (stack : ℕ × ℕ) (tid : ℕ) (q : Process) : Type 0 where
  number : tid ≡ p.next_tid
  next : q.next_tid ≡ p.next_tid + 1
  list : q.thread_list ≡ insert tid new_thread p.thread_list
  stacks : q.user_stack_list ≡ insert tid stack p.user_stack_list
  waits : q.waiting_list ≡ p.waiting_list
  values : q.ret_values ≡ p.ret_values

unused :
    (n : ℕ) {V : Type 0} (m : AssocMap V) → (contains n m ≡ true → n < n) → contains n m ≡ false
unused n m h = elim (Bool-cases (contains n m)) [ inl e ↦ absurd (omega (arith, h e)) | inr e ↦ e ]

create-number :
    (p : Process) (stack : ℕ × ℕ) {tid : ℕ} {q : Process}
    → IsBounded p
    → internal_add_new_thread p stack ≡ some (tid, q)
    → tid ≡ p.next_tid
unfolding internal_add_new_thread
create-number p stack b h =
    let free = unused p.next_tid p.thread_list (b.threads p.next_tid) in
    let here = next_free-here (length p.thread_list) p.thread_list p.next_tid free in
    ground (arith, here)

create-Creates :
    (p : Process) (stack : ℕ × ℕ) {tid : ℕ} {q : Process}
    → IsBounded p
    → p.next_tid + 1 < 2 ^ 64
    → internal_add_new_thread p stack ≡ some (tid, q)
    → Creates p stack tid q
unfolding internal_add_new_thread
create-Creates p stack b low h =
    let number = create-number p stack b h in
    record {
      number = number;
      next = ground (arith, number);
      list = ground arith;
      stacks = ground arith;
      waits = ground arith;
      values = ground arith;
    }

below_insert :
    {V : Type 0} (n n' k tid : ℕ) (v : V) (m m' : AssocMap V)
    → tid ≡ n
    → n' ≡ n + 1
    → m' ≡ insert tid v m
    → (contains k m ≡ true → k < n)
    → contains k m' ≡ true
    → k < n'
below_insert n n' k tid v m m' e next same below h =
    let there : contains k (insert tid v m) ≡ true = ap (contains k) (sym same) ∙ h in
    let split = contains-insert tid k v m in ground (arith, there, split)

below_same :
    {V : Type 0} (n n' k : ℕ) (m m' : AssocMap V)
    → n' ≡ n + 1
    → m' ≡ m
    → (contains k m ≡ true → k < n)
    → contains k m' ≡ true
    → k < n'
below_same n n' k m m' next same below h =
    let old = below (ap (contains k) (sym same) ∙ h) in omega (arith, old, next)

Creates-Counts :
    (p : Process) (stack : ℕ × ℕ) (tid : ℕ) (q : Process) (used : List ℕ)
    → Creates p stack tid q
    → Counts p used
    → Counts q (tid ∷ used)
Creates-Counts p stack tid q used c b = record {
  known = record {
    threads = λ k.
        below_insert p.next_tid q.next_tid k tid new_thread p.thread_list q.thread_list c.number
          c.next c.list (b.known.threads k);
    stacks = λ k.
        below_insert p.next_tid q.next_tid k tid stack p.user_stack_list q.user_stack_list c.number
          c.next c.stacks (b.known.stacks k);
    waits = λ k.
        below_same p.next_tid q.next_tid k p.waiting_list q.waiting_list c.next c.waits
          (b.known.waits k);
    values = λ k.
        below_same p.next_tid q.next_tid k p.ret_values q.ret_values c.next c.values
          (b.known.values k);
  };
  count = omega (arith, c.next, b.count);
  below = λ x h. elim h [
    | inl e ↦ omega (arith, e, c.number, c.next)
    | inr h' ↦ omega (arith, b.below x h', c.next)
  ];
}

kept_Counts :
    {p q : Process} {used : List ℕ}
    → IsBounded q
    → q.next_tid ≡ p.next_tid
    → Counts p used
    → Counts q used
kept_Counts known same b = record {
  known = known;
  count = same ∙ b.count;
  below = λ x h. omega (arith, b.below x h, same);
}

next_tid-exit : (p : Process) (tid v : ℕ) → (exit_thread p tid v).next_tid ≡ p.next_tid
unfolding exit_thread
next_tid-exit p tid v = ground arith

next_tid-join :
    (p : Process) (caller tid : ℕ) {r : JoinResult} {q : Process}
    → join_thread p caller tid ≡ some (r, q)
    → q.next_tid ≡ p.next_tid
unfolding join_wait
next_tid-join p caller tid h = elim (join_thread_cases p caller tid h) [
  | inl e ↦ ap (λ (s : Process). s.next_tid) e
  | inr (inl e) ↦ ap (λ (s : Process). s.next_tid) e
  | inr (inr (alive, w)) ↦ ground arith
]

next_tid-wake :
    (p : Process) (tid : ℕ) {v : ℕ} {q : Process}
    → join_wake p tid ≡ some (v, q)
    → q.next_tid ≡ p.next_tid
unfolding join_wake
next_tid-wake p tid h = ground arith

next_tid-cancel : (p : Process) (tid : ℕ) → (cancel_thread p tid).1.next_tid ≡ p.next_tid
unfolding cancel_thread
next_tid-cancel p tid = ground arith

next_tid-destroy : (p : Process) (tid : ℕ) → (on_thread_destroyed p tid).0.next_tid ≡ p.next_tid
unfolding on_thread_destroyed
next_tid-destroy p tid = refl

length-given_by :
    {p q : Process} (st : Step p q) (used : List ℕ) → length used ≤ length (given_by st used)
length-given_by (creates stack h) used = omega arith
length-given_by (exits tid v h) used = omega arith
length-given_by (joins caller tid h) used = omega arith
length-given_by (wakes tid h) used = omega arith
length-given_by (cancels tid) used = omega arith
length-given_by (destroys tid) used = omega arith

Step-Counts :
    {p q : Process} (st : Step p q) (used : List ℕ)
    → length (given_by st used) < 2 ^ 64
    → Counts p used
    → Counts q (given_by st used)
Step-Counts {p} {q} (creates {tid = tid} stack h) used few b =
    Creates-Counts p stack tid q used
      (create-Creates p stack b.known (omega (arith, few, b.count)) h) b
Step-Counts {p} (exits tid v h) used few b =
    kept_Counts (exit-IsBounded b.known tid v h) (next_tid-exit p tid v) b
Step-Counts {p} (joins caller tid h) used few b =
    kept_Counts (join-IsBounded b.known caller tid h) (next_tid-join p caller tid h) b
Step-Counts {p} (wakes tid h) used few b =
    kept_Counts (wake-IsBounded b.known tid h) (next_tid-wake p tid h) b
Step-Counts {p} (cancels tid) used few b =
    kept_Counts (cancel-IsBounded b.known tid) (next_tid-cancel p tid) b
Step-Counts {p} (destroys tid) used few b =
    kept_Counts (destroy-IsBounded b.known tid) (next_tid-destroy p tid) b

Reach-Counts :
    {p : Process} (reach : Reach p) → length (given_out reach) < 2 ^ 64 → Counts p (given_out reach)
Reach-Counts initial few = record {
  known = start-IsBounded;
  count = refl;
  below = λ x h. elim h [ ];
}
Reach-Counts (after r st) few =
    Step-Counts st (given_out r) few
      (Reach-Counts r (omega (arith, few, length-given_by st (given_out r))))

-- A new thread's number was never used before in the process: when a thread is created after any
-- history in which fewer than 2^64 threads were created, its number is not among those that were
-- given to threads, and no thread, no stack, no wait and no return value of the process goes by it.
pub create_fresh :
    (p : Process) (stack : ℕ × ℕ) {tid : ℕ} {q : Process} (reach : Reach p)
    → length (given_out reach) < 2 ^ 64
    → internal_add_new_thread p stack ≡ some (tid, q)
    → ¬ Among tid (given_out reach)
      × (contains tid p.thread_list ≡ false)
      × (contains tid p.user_stack_list ≡ false)
      × (contains tid p.waiting_list ≡ false)
      × (contains tid p.ret_values ≡ false)
create_fresh p stack {tid} reach few h =
    let b = Reach-Counts reach few in
    let number = create-number p stack b.known h in
    (
      λ among. absurd (omega (arith, b.below tid among, number)),
      unused tid p.thread_list (λ k. omega (arith, b.known.threads tid k, number)),
      unused tid p.user_stack_list (λ k. omega (arith, b.known.stacks tid k, number)),
      unused tid p.waiting_list (λ k. omega (arith, b.known.waits tid k, number)),
      unused tid p.ret_values (λ k. omega (arith, b.known.values tid k, number)),
    )
