-- ===== src/Mutex/Wakeup.antt =====
-- No thread is left asleep: while one waits and the mutex is free, another is on its way.
use mathlib.Core.Path.{subst}
use k_panic.Base.{
  ℕ, ◌≡◌, refl, ap, true, false, ◌⊎◌, inl, inr, none, some, List, ◌∷◌, arith, Bool-cases,
  Option-cases,
}
use k_panic.Mutex.{
  Place, outside, trying, failed, listed, queueing, falling, asleep, entering, holding, releasing,
  popping, waking, MutexState, move, pop_back, turn_at, turn, Reach, started, goes_on,
}
use k_panic.Mutex.Places.{some_inj}
use k_panic.Mutex.Safety.{Safe, owns}
use k_panic.Mutex.Exclusion.{Reach-Safe}
use k_panic.Mutex.Waiting.{
  in_list_lock, in_queue, waits, on_way, InList, Attended, pop_back-InList, keeps-Lockers,
  locks-Lockers, unlocks-Lockers, still-Queued, keeps-Queued, goes-Helped, set-Helped, keeps-Helped,
  all-Attended,
}
use k_panic.Mutex.Leaving.{leaves-Helped, wakes-Attended}

taken_out :
    (w u : ℕ) (rest : List ℕ) → InList u rest ⊎ (w ≡ u) → InList u rest ⊎ (waking w ≡ waking u)
taken_out w u rest (inl h) = inl h
taken_out w u rest (inr e) = inr (ap waking e)

turn_at-Attended :
    (s s' : MutexState) (t : ℕ) (p : Place)
    → Safe s
    → Attended s
    → s.places t ≡ p
    → turn_at s t p ≡ some s'
    → Attended s'
turn_at-Attended s s' t outside safe a here e = subst Attended (some_inj e) (
    all-Attended s (move s t trying) t trying refl
      (keeps-Lockers s (move s t trying) t trying refl a (λ o. absurd cc) refl)
      (keeps-Queued s (move s t trying) t trying refl a (λ o. absurd cc) (λ u h. inl h)
        (λ u x. absurd cc))
      (goes-Helped s (move s t trying) t trying refl refl))
turn_at-Attended s s' t trying safe a here e = elim (Bool-cases s.mutex) [
  | inl set_already ↦
      let goes : move s t failed ≡ s' = ground arith in
      subst Attended goes (
        all-Attended s (move s t failed) t failed refl
          (keeps-Lockers s (move s t failed) t failed refl a (λ o. absurd cc) refl)
          (keeps-Queued s (move s t failed) t failed refl a (λ o. absurd cc) (λ u h. inl h)
            (λ u x. absurd cc))
          (goes-Helped s (move s t failed) t failed refl refl))
  | inr free ↦
      let goes : move (record s { mutex = true }) t entering ≡ s' = ground arith in
      subst Attended goes (
        all-Attended s (move (record s { mutex = true }) t entering) t entering refl
          (keeps-Lockers s (move (record s { mutex = true }) t entering) t entering refl a
            (λ o. absurd cc) refl)
          (keeps-Queued s (move (record s { mutex = true }) t entering) t entering refl a
            (λ o. absurd cc) (λ u h. inl h) (λ u x. absurd cc))
          (set-Helped s (move (record s { mutex = true }) t entering) t entering refl refl))
]
turn_at-Attended s s' t failed safe a here e = elim (Bool-cases s.waiters_list_lock) [
  | inl taken ↦ absurd (ground arith)
  | inr free ↦
      let goes : move (record s { waiters_list_lock = true }) t listed ≡ s' = ground arith in
      subst Attended goes (
        all-Attended s (move (record s { waiters_list_lock = true }) t listed) t listed refl
          (locks-Lockers s (move (record s { waiters_list_lock = true }) t listed) t listed refl a
            free refl)
          (keeps-Queued s (move (record s { waiters_list_lock = true }) t listed) t listed refl a
            (λ o. absurd cc) (λ u h. inl h) (λ u x. absurd cc))
          (goes-Helped s (move (record s { waiters_list_lock = true }) t listed) t listed refl
            refl))
]
turn_at-Attended s s' t listed safe a here e = elim (Bool-cases s.mutex) [
  | inl set_already ↦
      let goes : move s t queueing ≡ s' = ground arith in
      subst Attended goes (
        all-Attended s (move s t queueing) t queueing refl
          (keeps-Lockers s (move s t queueing) t queueing refl a (λ o. ap in_list_lock here) refl)
          (keeps-Queued s (move s t queueing) t queueing refl a (λ o. absurd cc) (λ u h. inl h)
            (λ u x. absurd cc))
          (set-Helped s (move s t queueing) t queueing refl set_already))
  | inr free ↦
      let goes : move (record s { mutex = true; waiters_list_lock = false }) t entering ≡ s' =
        ground arith in
      subst Attended goes (
        all-Attended s (move (record s { mutex = true; waiters_list_lock = false }) t entering) t
          entering refl
          (unlocks-Lockers s
            (move (record s { mutex = true; waiters_list_lock = false }) t entering) t entering refl
            a (ap in_list_lock here) refl)
          (keeps-Queued s (move (record s { mutex = true; waiters_list_lock = false }) t entering) t
            entering refl a (λ o. absurd cc) (λ u h. inl h) (λ u x. absurd cc))
          (set-Helped s (move (record s { mutex = true; waiters_list_lock = false }) t entering) t
            entering refl refl))
]
turn_at-Attended s s' t queueing safe a here e = subst Attended (some_inj e) (
    all-Attended s
      (move (record s { waiters_list = t ∷ s.waiters_list; waiters_list_lock = false }) t falling) t
      falling refl
      (unlocks-Lockers s
        (move (record s { waiters_list = t ∷ s.waiters_list; waiters_list_lock = false }) t falling)
        t falling refl a (ap in_list_lock here) refl)
      (keeps-Queued s
        (move (record s { waiters_list = t ∷ s.waiters_list; waiters_list_lock = false }) t falling)
        t falling refl a (λ o. inl (inl refl)) (λ u h. inl (inr h)) (λ u x. absurd cc))
      (keeps-Helped s
        (move (record s { waiters_list = t ∷ s.waiters_list; waiters_list_lock = false }) t falling)
        t falling refl a (ap on_way here) (λ o. ap waits here) refl))
turn_at-Attended s s' t falling safe a here e = subst Attended (some_inj e) (
    all-Attended s (move s t asleep) t asleep refl
      (keeps-Lockers s (move s t asleep) t asleep refl a (λ o. absurd cc) refl)
      (keeps-Queued s (move s t asleep) t asleep refl a
        (λ o.
          still-Queued s (move s t asleep) t asleep refl (λ u h. inl h) (λ u x. absurd cc) t
            (a.queued t (ap in_queue here)))
        (λ u h. inl h) (λ u x. absurd cc))
      (keeps-Helped s (move s t asleep) t asleep refl a (ap on_way here) (λ o. ap waits here) refl))
turn_at-Attended s s' t asleep safe a here e = absurd cc
turn_at-Attended s s' t entering safe a here e = elim (Option-cases s.held_by) [
  | inl nobody ↦
      let goes : move (record s { held_by = some t }) t holding ≡ s' = ground arith in
      subst Attended goes (
        all-Attended s (move (record s { held_by = some t }) t holding) t holding refl
          (keeps-Lockers s (move (record s { held_by = some t }) t holding) t holding refl a
            (λ o. absurd cc) refl)
          (keeps-Queued s (move (record s { held_by = some t }) t holding) t holding refl a
            (λ o. absurd cc) (λ u h. inl h) (λ u x. absurd cc))
          (set-Helped s (move (record s { held_by = some t }) t holding) t holding refl
            (safe.flag_set t (ap owns here))))
  | inr (u, somebody) ↦ absurd (ground arith)
]
turn_at-Attended s s' t holding safe a here e =
    let mine = safe.is_holder t here in
    let goes : move (record s { held_by = none; mutex = false }) t releasing ≡ s' = ground arith in
    subst Attended goes (
      all-Attended s (move (record s { held_by = none; mutex = false }) t releasing) t releasing
        refl
        (keeps-Lockers s (move (record s { held_by = none; mutex = false }) t releasing) t releasing
          refl a (λ o. absurd cc) refl)
        (keeps-Queued s (move (record s { held_by = none; mutex = false }) t releasing) t releasing
          refl a (λ o. absurd cc) (λ u h. inl h) (λ u x. absurd cc))
        (goes-Helped s (move (record s { held_by = none; mutex = false }) t releasing) t releasing
          refl refl))
turn_at-Attended s s' t releasing safe a here e = elim (Bool-cases s.waiters_list_lock) [
  | inl taken ↦ absurd (ground arith)
  | inr free ↦
      let goes : move (record s { waiters_list_lock = true }) t popping ≡ s' = ground arith in
      subst Attended goes (
        all-Attended s (move (record s { waiters_list_lock = true }) t popping) t popping refl
          (locks-Lockers s (move (record s { waiters_list_lock = true }) t popping) t popping refl a
            free refl)
          (keeps-Queued s (move (record s { waiters_list_lock = true }) t popping) t popping refl a
            (λ o. absurd cc) (λ u h. inl h) (λ u x. absurd cc))
          (goes-Helped s (move (record s { waiters_list_lock = true }) t popping) t popping refl
            refl))
]
turn_at-Attended s s' t popping safe a here e = elim (Option-cases (pop_back s.waiters_list)) [
  | inl nobody ↦
      let goes : move (record s { waiters_list_lock = false }) t outside ≡ s' = ground arith in
      subst Attended goes (
        all-Attended s (move (record s { waiters_list_lock = false }) t outside) t outside refl
          (unlocks-Lockers s (move (record s { waiters_list_lock = false }) t outside) t outside
            refl a (ap in_list_lock here) refl)
          (keeps-Queued s (move (record s { waiters_list_lock = false }) t outside) t outside refl a
            (λ o. absurd cc) (λ u h. inl h) (λ u x. absurd cc))
          (leaves-Helped s (move (record s { waiters_list_lock = false }) t outside) t refl a here
            nobody))
  | inr ((w, rest), oldest) ↦
      let goes : move (record s { waiters_list = rest; waiters_list_lock = false }) t (waking w)
          ≡ s' =
        ground arith in
      subst Attended goes (
        all-Attended s
          (move (record s { waiters_list = rest; waiters_list_lock = false }) t (waking w)) t
          (waking w) refl
          (unlocks-Lockers s
            (move (record s { waiters_list = rest; waiters_list_lock = false }) t (waking w)) t
            (waking w) refl a (ap in_list_lock here) refl)
          (keeps-Queued s
            (move (record s { waiters_list = rest; waiters_list_lock = false }) t (waking w)) t
            (waking w) refl a (λ o. absurd cc)
            (λ u h. taken_out w u rest (pop_back-InList s.waiters_list rest w u oldest h))
            (λ u x. absurd cc))
          (goes-Helped s
            (move (record s { waiters_list = rest; waiters_list_lock = false }) t (waking w)) t
            (waking w) refl refl))
]
turn_at-Attended s s' t (waking w) safe a here e = wakes-Attended s s' t w a here e

-- No wake-up is lost: in every state that turns lead to, in any order, where a thread waits in the list
-- or is about to while the mutex is free, some thread is about to test the flag, or to take the oldest
-- waiter out of the list and wake it.
pub Reach-Attended : (s : MutexState) → Reach s → Attended s
unfolding turn
Reach-Attended s started = record {
  locked = λ t o. absurd cc;
  one_locker = λ t u o q. absurd cc;
  queued = λ t o. absurd cc;
  attended = λ t o f. absurd cc;
}
Reach-Attended s (goes_on s0 _ t r e) =
    turn_at-Attended s0 s t (s0.places t) (Reach-Safe s0 r) (Reach-Attended s0 r) refl e
