-- ===== src/Mutex/Leaving.antt =====
-- The end of `release`, with nobody to wake and with a thread to wake.
use mathlib.Core.Path.{subst}
use k_panic.Base.{ℕ, ◌≡◌, ◌≢◌, refl, sym, ap, ◌∙◌, true, false, inl, inr, none, some, ℕ_discrete}
use k_panic.Mutex.{
  Place, outside, trying, failed, listed, queueing, falling, asleep, entering, holding, releasing,
  popping, waking, MutexState, put_at, move, pop_back, wake,
}
use k_panic.Mutex.Places.{at_same, at_other, moves, some_inj}
use k_panic.Mutex.Waiting.{
  in_list_lock, in_queue, waits, on_way, Queued, Attended, Helped, pop_back-none, waits-cases,
  keeps-Lockers, keeps-Queued, goes-Helped, all-Attended,
}

-- A thread that leaves with an empty list behind: whoever waits was taken out before, and is woken.
pub leaves-Helped :
    (s s' : MutexState) (t : ℕ) (places : s'.places ≡ put_at s.places t outside)
    → Attended s
    → s.places t ≡ popping
    → pop_back s.waiters_list ≡ none
    → Helped s s' t outside places
leaves-Helped s s' t _ a here empty =
    moves
      (λ u x.
        waits x ≡ true → s'.mutex ≡ false → (v : ℕ) × (on_way (put_at s.places t outside v) ≡ true))
      s.places t outside (λ o f. absurd cc) helped
  where
    helped :
        (u : ℕ)
        → t ≢ u
        → waits (s.places u) ≡ true
        → s'.mutex ≡ false
        → (v : ℕ) × (on_way (put_at s.places t outside v) ≡ true)
    helped u other w f = elim (waits-cases (s.places u) w) [
      | inl has_lock ↦ absurd (other (a.one_locker t u (ap in_list_lock here) has_lock))
      | inr queues ↦ elim (a.queued u queues) [
        | inl listed_still ↦ absurd (pop_back-none s.waiters_list u empty listed_still)
        | inr (v, wakes) ↦ elim (ℕ_discrete t v) [
          | yes same ↦
              let clash : popping ≡ waking u = sym here ∙ ap s.places same ∙ wakes in absurd cc
          | no apart ↦ (v, ap on_way (at_other s.places t v outside apart ∙ wakes))
        ]
      ]
    ]

waking-inj : (p : Place) (w u : ℕ) → p ≡ waking w → p ≡ waking u → w ≡ u
waking-inj p w u e f = cc

still_waiting :
    (s : MutexState) (t w : ℕ)
    → s.places t ≡ waking w
    → s.places w ≡ trying
    → (u : ℕ) → in_queue (s.places u) ≡ true
    → Queued s.places s.waiters_list u
    → Queued (put_at s.places t outside) s.waiters_list u
still_waiting s t w at_t at_w u o (inl h) = inl h
still_waiting s t w at_t at_w u o (inr (v, wakes)) = elim (ℕ_discrete t v) [
  | yes same ↦
      let woken : w ≡ u = waking-inj (s.places t) w u at_t (ap s.places same ∙ wakes) in
      let awake : in_queue (s.places u) ≡ false =
        ap (λ x. in_queue (s.places x)) (sym woken) ∙ ap in_queue at_w in
      absurd cc
  | no other ↦ inr (v, at_other s.places t v outside other ∙ wakes)
]

-- A thread that wakes another: the other one is on its way then.
pub wakes-Attended :
    (s s' : MutexState) (t w : ℕ)
    → Attended s
    → s.places t ≡ waking w
    → wake s t w (s.places w) ≡ some s'
    → Attended s'
wakes-Attended s s' t w a here e = wakes_from (s.places w) refl e
  where
    done : s.places w ≡ asleep → Attended (move (move s w trying) t outside)
    done sleeps =
        let s1 = move s w trying in
        let apart : w ≢ t = λ same. absurd cc in
        let a1 : Attended s1 =
          all-Attended s s1 w trying refl (keeps-Lockers s s1 w trying refl a (λ o. absurd cc) refl)
            (keeps-Queued s s1 w trying refl a (λ o. absurd cc) (λ u h. inl h) (λ u x. absurd cc))
            (goes-Helped s s1 w trying refl refl) in
        let s2 = move s1 t outside in
        let at_t : s1.places t ≡ waking w = at_other s.places w t trying apart ∙ here in
        let at_w : s1.places w ≡ trying = at_same s.places w trying in
        all-Attended s1 s2 t outside refl
          (keeps-Lockers s1 s2 t outside refl a1 (λ o. absurd cc) refl)
          (moves (λ u x. in_queue x ≡ true → Queued s2.places s.waiters_list u) s1.places t outside
            (λ o. absurd cc) (λ u _ o. still_waiting s1 t w at_t at_w u o (a1.queued u o)))
          (λ u _ _. (w, ap on_way (at_other s1.places t w outside (λ x. apart (sym x)) ∙ at_w)))

    wakes_from : (p : Place) → s.places w ≡ p → wake s t w p ≡ some s' → Attended s'
    wakes_from asleep sleeps e = subst Attended (some_inj e) (done sleeps)
    wakes_from outside sleeps e = absurd cc
    wakes_from trying sleeps e = absurd cc
    wakes_from failed sleeps e = absurd cc
    wakes_from listed sleeps e = absurd cc
    wakes_from queueing sleeps e = absurd cc
    wakes_from falling sleeps e = absurd cc
    wakes_from entering sleeps e = absurd cc
    wakes_from holding sleeps e = absurd cc
    wakes_from releasing sleeps e = absurd cc
    wakes_from popping sleeps e = absurd cc
    wakes_from (waking v) sleeps e = absurd cc
