-- ===== src/Scheduler/Cleanup.antt =====
-- Which threads `cleanupDeadThreads` takes out of the list.
use k_panic.Base.{
  ℕ, zero, suc, ◌≤◌, ◌≡◌, refl, ap, sym, ◌∙◌, Option, none, some, List, [], ◌∷◌, arith, ltb,
  if◌then◌else◌, length, take, drop, Bool-cases, inl, inr,
}
use k_panic.Scheduler.{ScheduledThread, Scheduler, is_dead, collect_dead, cleanup_dead_threads}

-- The threads to be destroyed, and the others.
abbrev pub dead_ones : List ScheduledThread → List ScheduledThread
dead_ones [] = []
dead_ones (t ∷ ts) = if is_dead t then t ∷ dead_ones ts else dead_ones ts

abbrev pub live_ones : List ScheduledThread → List ScheduledThread
live_ones [] = []
live_ones (t ∷ ts) = if is_dead t then live_ones ts else t ∷ live_ones ts

collect_dead-takes :
    (room : ℕ) (ts : List ScheduledThread) → (collect_dead room ts).1 ≡ take room (dead_ones ts)
unfolding collect_dead
collect_dead-takes zero ts = refl
collect_dead-takes (suc room) [] = refl
collect_dead-takes (suc room) (t ∷ ts) =
    let fewer = collect_dead-takes room ts in
    let same = collect_dead-takes (suc room) ts in ground (arith, fewer, same)

-- The threads that stay are the living ones in their order, and the dead ones that the buffer had no
-- room for.
collect_dead-keeps :
    (room : ℕ) (ts : List ScheduledThread) → live_ones (collect_dead room ts).0 ≡ live_ones ts
unfolding collect_dead
collect_dead-keeps zero ts = refl
collect_dead-keeps (suc room) [] = refl
collect_dead-keeps (suc room) (t ∷ ts) =
    let fewer = collect_dead-keeps room ts in
    let same = collect_dead-keeps (suc room) ts in
    elim (Bool-cases (is_dead t)) [
      | inl dead ↦ ground (arith, fewer)
      | inr live ↦ ground (arith, same)
    ]

collect_dead-rest :
    (room : ℕ) (ts : List ScheduledThread)
    → dead_ones (collect_dead room ts).0 ≡ drop room (dead_ones ts)
unfolding collect_dead
collect_dead-rest zero ts = refl
collect_dead-rest (suc room) [] = refl
collect_dead-rest (suc room) (t ∷ ts) =
    let fewer = collect_dead-rest room ts in
    let same = collect_dead-rest (suc room) ts in
    elim (Bool-cases (is_dead t)) [
      | inl dead ↦ ground (arith, fewer)
      | inr live ↦ ground (arith, same)
    ]

dead_ones-length : (ts : List ScheduledThread) → length (dead_ones ts) ≤ length ts
dead_ones-length [] = omega arith
dead_ones-length (t ∷ ts) = let rest = dead_ones-length ts in ground (arith, rest)

take_all : {A : Type 0} (n : ℕ) (xs : List A) → length xs ≤ n → take n xs ≡ xs
take_all zero [] h = refl
take_all zero (x ∷ xs) h = absurd (omega (arith, h))
take_all (suc n) [] h = refl
take_all (suc n) (x ∷ xs) h = ap (λ l. x ∷ l) (take_all n xs (omega (arith, h)))

drop_all : {A : Type 0} (n : ℕ) (xs : List A) → length xs ≤ n → drop n xs ≡ []
drop_all zero [] h = refl
drop_all zero (x ∷ xs) h = absurd (omega (arith, h))
drop_all (suc n) [] h = refl
drop_all (suc n) (x ∷ xs) h = drop_all n xs (omega (arith, h))

abbrev unlocked_with :
    Scheduler
    → List ScheduledThread × List ScheduledThread
    → Option (Scheduler × List ScheduledThread)
unlocked_with s p =
    let result : Scheduler × List ScheduledThread = (record s { threads = p.0 }, p.1) in
    if s.block_scheduling then none else some result

unlocked :
    (s s' : Scheduler) (dead : List ScheduledThread)
    (p : List ScheduledThread × List ScheduledThread)
    → unlocked_with s p ≡ some (s', dead)
    → (dead ≡ p.1) × (s'.threads ≡ p.0)
unlocked s s' dead p e = ground arith

-- The room in the buffer, `thread_count_max`.
abbrev pub buffer_size : List ScheduledThread → ℕ
buffer_size ts = if ltb 1024 (length ts) then 1024 else length ts

pub cleanup_dead_threads-collects :
    (s s' : Scheduler) (dead : List ScheduledThread)
    → cleanup_dead_threads s ≡ some (s', dead)
    → (dead ≡ (collect_dead (buffer_size s.threads) s.threads).1)
      × (s'.threads ≡ (collect_dead (buffer_size s.threads) s.threads).0)
unfolding cleanup_dead_threads
cleanup_dead_threads-collects s s' dead e =
    unlocked s s' dead (collect_dead (buffer_size s.threads) s.threads) e

-- The buffer has room for 1024 threads, or for all.
buffer_size-enough :
    {A : Type 0} (ts : List ScheduledThread) (xs : List A)
    → length xs ≤ length ts
    → (take (buffer_size ts) xs ≡ take 1024 xs) × (drop (buffer_size ts) xs ≡ drop 1024 xs)
buffer_size-enough ts xs h = elim (Bool-cases (ltb 1024 (length ts))) [
  | inl many ↦
      let is : buffer_size ts ≡ 1024 = ap (λ b. if b then 1024 else length ts) many in
      (ap (λ n. take n xs) is, ap (λ n. drop n xs) is)
  | inr few ↦
      let is : buffer_size ts ≡ length ts = ap (λ b. if b then 1024 else length ts) few in
      let small : length xs ≤ 1024 = ground arith in
      (
        ap (λ n. take n xs) is ∙ take_all _ xs h ∙ sym (take_all 1024 xs small),
        ap (λ n. drop n xs) is ∙ drop_all _ xs h ∙ sym (drop_all 1024 xs small),
      )
]

-- `cleanup_dead_threads` destroys the dead threads in their order, 1024 of them at most, leaves the
-- other dead ones, and keeps every living thread in its place among the living.
pub cleanup_dead_threads-sorts_out :
    (s s' : Scheduler) (dead : List ScheduledThread)
    → cleanup_dead_threads s ≡ some (s', dead)
    → (dead ≡ take 1024 (dead_ones s.threads))
      × ((dead_ones s'.threads ≡ drop 1024 (dead_ones s.threads))
          × (live_ones s'.threads ≡ live_ones s.threads))
cleanup_dead_threads-sorts_out s s' dead e =
    let (destroyed, stay) = cleanup_dead_threads-collects s s' dead e in
    let room = buffer_size s.threads in
    let (taken, left) =
      buffer_size-enough s.threads (dead_ones s.threads) (dead_ones-length s.threads) in
    (
      destroyed ∙ collect_dead-takes room s.threads ∙ taken,
      (
        ap dead_ones stay ∙ collect_dead-rest room s.threads ∙ left,
        ap live_ones stay ∙ collect_dead-keeps room s.threads,
      ),
    )
