-- ===== src/Scheduler/Fair.antt =====
-- How often the scheduler passes over a thread that may run.
use mathlib.Core.Path.{subst}
use k_panic.Base.{
  ℕ, zero, suc, ◌+◌, ◌≤◌, ◌<◌, ◌==◌, ◌≡◌, ◌≢◌, ap, sym, ◌∙◌, Bool, true, false, Option, none, some,
  List, [], ◌∷◌, ◌++◌, arith, if◌then◌else◌, length, Bool-cases, inl, inr,
}
use k_panic.Scheduler.{
  ScheduledThread, Scheduler, is_dead, collect_dead, schedule, add_new_thread, cleanup_dead_threads,
  cancel_if_asked, reset_wake_up,
}
use k_panic.Scheduler.Choice.{
  eligible, NoneEligible, idents, idents-append, Turn, schedule-Turn, cancel_if_asked-ident,
  reset_wake_up-ident,
}
use k_panic.Scheduler.Cleanup.{buffer_size, cleanup_dead_threads-collects}

-- How many threads stand in front of the one with the name; the length of the list if none has it.
abbrev pub ahead : ℕ → List ℕ → ℕ
ahead i [] = 0
ahead i (j ∷ js) = if i == j then 0 else suc (ahead i js)

abbrev pub named : ℕ → List ScheduledThread → Option ScheduledThread
named i [] = none
named i (t ∷ ts) = if i == t.ident then some t else named i ts

-- What happens between two looks at the list, and how many turns another thread took: `schedule` lets
-- another thread run although the thread `i` may; the threads, this one too, change their state;
-- a thread is added; the dead ones are cleaned up.
pub data PassedOver (i : ℕ) : ℕ → Scheduler → Scheduler → Type 0 where
  done : (s : Scheduler) → PassedOver i 0 s s
  other_runs :
      (now n : ℕ) (s s1 s2 : Scheduler) (user : Bool) (t c : ScheduledThread)
      → s.block_scheduling ≡ false
      → named i s.threads ≡ some t
      → eligible now t ≡ true
      → schedule now s ≡ some (s1, user)
      → s1.current ≡ some c
      → c.ident ≢ i
      → PassedOver i n s1 s2
      → PassedOver i (suc n) s s2
  threads_change :
      (n : ℕ) (s s1 s2 : Scheduler)
      → idents s1.threads ≡ idents s.threads
      → PassedOver i n s1 s2
      → PassedOver i n s s2
  added :
      (n : ℕ) (s s1 s2 : Scheduler) (t : ScheduledThread)
      → add_new_thread s t ≡ some s1
      → PassedOver i n s1 s2
      → PassedOver i n s s2
  cleaned :
      (n : ℕ) (s s1 s2 : Scheduler) (dead : List ScheduledThread) (t : ScheduledThread)
      → named i s.threads ≡ some t
      → is_dead t ≡ false
      → cleanup_dead_threads s ≡ some (s1, dead)
      → PassedOver i n s1 s2
      → PassedOver i n s s2

ahead-append :
    (i : ℕ) (js ks : List ℕ)
    → ahead i js < length js
    → (ahead i (js ++ ks) ≡ ahead i js) × (ahead i js < length (js ++ ks))
ahead-append i [] ks h = absurd (omega (arith, h))
ahead-append i (j ∷ js) ks h = elim (Bool-cases (i == j)) [
  | inl same ↦ (ground arith, ground arith)
  | inr other ↦
      let rest = ahead-append i js ks (ground arith) in
      (ground (arith, rest.0), ground (arith, rest.1))
]

named-present :
    (i : ℕ) (ts : List ScheduledThread) (t : ScheduledThread)
    → named i ts ≡ some t
    → ahead i (idents ts) < length (idents ts)
named-present i [] t e = absurd cc
named-present i (u ∷ us) t e = elim (Bool-cases (i == u.ident)) [
  | inl same ↦ ground arith
  | inr other ↦ let rest = named-present i us t (ground arith) in ground (arith, rest)
]

-- A thread that may run is not among those passed over, so it stands behind the chosen one.
ahead_of_chosen :
    (now i : ℕ) (before behind : List ScheduledThread) (c t : ScheduledThread)
    → named i (before ++ c ∷ behind) ≡ some t
    → eligible now t ≡ true
    → NoneEligible now before
    → c.ident ≢ i
    → (named i behind ≡ some t)
      × (ahead i (idents behind) < ahead i (idents (before ++ c ∷ behind)))
ahead_of_chosen now i [] behind c t e may none_before other = (ground arith, ground arith)
ahead_of_chosen now i (u ∷ us) behind c t e may none_before other =
    elim (Bool-cases (i == u.ident)) [
      | inl same ↦ absurd (ground arith)
      | inr not_it ↦
          let rest = ahead_of_chosen now i us behind c t (ground arith) may none_before.1 other in
          (rest.0, ground (arith, rest.1))
    ]

collect_dead-ahead :
    (i room : ℕ) (ts : List ScheduledThread) (t : ScheduledThread)
    → named i ts ≡ some t
    → is_dead t ≡ false
    → (named i (collect_dead room ts).0 ≡ some t)
      × (ahead i (idents (collect_dead room ts).0) ≤ ahead i (idents ts))
unfolding collect_dead
collect_dead-ahead i zero ts t e live = (e, omega arith)
collect_dead-ahead i (suc room) [] t e live = absurd cc
collect_dead-ahead i (suc room) (u ∷ us) t e live = elim (Bool-cases (i == u.ident)) [
  | inl found ↦ elim (Bool-cases (is_dead u)) [
    | inl gone ↦ absurd (ground arith)
    | inr stays ↦ (ground arith, ground arith)
  ]
  | inr other ↦ elim (Bool-cases (is_dead u)) [
    | inl gone ↦
        let r = collect_dead-ahead i room us t (ground arith) live in
        (ground (arith, r.0), ground (arith, r.1))
    | inr stays ↦
        let r = collect_dead-ahead i (suc room) us t (ground arith) live in
        (ground (arith, r.0), ground (arith, r.1))
  ]
]

runs_other-closer :
    (i now : ℕ) (s s1 : Scheduler) (t c : ScheduledThread)
    → Turn now s s1
    → named i s.threads ≡ some t
    → eligible now t ≡ true
    → s1.current ≡ some c
    → c.ident ≢ i
    → (ahead i (idents s1.threads) < length (idents s1.threads))
      × (ahead i (idents s1.threads) < ahead i (idents s.threads))
runs_other-closer i now s s1 t c turn here may runs other =
    let is : c ≡ cancel_if_asked (reset_wake_up turn.thread) = ground arith in
    let same : c.ident ≡ turn.thread.ident =
      ap (λ x. x.ident) is ∙ cancel_if_asked-ident _ ∙ reset_wake_up-ident _ in
    let (found, fewer) =
      ahead_of_chosen now i turn.before turn.behind turn.thread t
        (subst (λ l. named i l ≡ some t) turn.split here) may turn.none_before
        (λ e. other (same ∙ e)) in
    let (keeps, room) =
      ahead-append i (idents turn.behind) (idents turn.before ++ turn.thread.ident ∷ [])
        (named-present i turn.behind t found) in
    let list = turn.rotated in
    let old = ap (λ l. ahead i (idents l)) turn.split in
    (
      subst (λ l. ahead i l < length l) (sym list) (omega (arith, keeps, room)),
      subst (λ l. ahead i l < ahead i (idents s.threads)) (sym list)
          (omega (arith, keeps, fewer, old)),
    )

added_behind :
    (s s1 : Scheduler) (t : ScheduledThread)
    → add_new_thread s t ≡ some s1
    → idents s1.threads ≡ idents s.threads ++ t.ident ∷ []
unfolding add_new_thread
added_behind s s1 t e =
    let list : s1.threads ≡ s.threads ++ t ∷ [] = ground arith in
    ap idents list ∙ idents-append s.threads (t ∷ [])

-- A thread that may run at every turn in question waits at most as many turns of other threads as
-- there were threads in front of it, whatever the threads do in between, and however many are added
-- or cleaned up; each such turn brings it nearer to the front.
pub waits-at-most-ahead :
    (i n : ℕ) (s s' : Scheduler)
    → PassedOver i n s s'
    → ahead i (idents s.threads) < length (idents s.threads)
    → n + ahead i (idents s'.threads) ≤ ahead i (idents s.threads)
waits-at-most-ahead i n s s' (done _) h = omega arith
waits-at-most-ahead i n s s' (other_runs now m _ s1 _ user t c free here may e runs other rest) h =
    let (present, closer) =
      runs_other-closer i now s s1 t c (schedule-Turn now s s1 user free e) here may runs other in
    let later = waits-at-most-ahead i m s1 s' rest present in omega (arith, later, closer)
waits-at-most-ahead i n s s' (threads_change _ _ s1 _ same rest) h =
    let later =
      waits-at-most-ahead i n s1 s' rest (subst (λ l. ahead i l < length l) (sym same) h) in
    subst (λ l. n + ahead i (idents s'.threads) ≤ ahead i l) same later
waits-at-most-ahead i n s s' (added _ _ s1 _ t e rest) h =
    let list = added_behind s s1 t e in
    let (keeps, room) = ahead-append i (idents s.threads) (t.ident ∷ []) h in
    let present : ahead i (idents s1.threads) < length (idents s1.threads) =
      subst (λ l. ahead i l < length l) (sym list) (omega (arith, keeps, room)) in
    let old = ap (ahead i) list in
    let later = waits-at-most-ahead i n s1 s' rest present in omega (arith, later, old, keeps)
waits-at-most-ahead i n s s' (cleaned _ _ s1 _ dead t here live e rest) h =
    let (_, stay) = cleanup_dead_threads-collects s s1 dead e in
    let (found, fewer) = collect_dead-ahead i (buffer_size s.threads) s.threads t here live in
    let here1 : named i s1.threads ≡ some t = subst (λ l. named i l ≡ some t) (sym stay) found in
    let old = ap (λ l. ahead i (idents l)) stay in
    let later = waits-at-most-ahead i n s1 s' rest (named-present i s1.threads t here1) in
    omega (arith, later, fewer, old)
