-- ===== src/Mutex/Waiting.antt =====
-- Who waits for the mutex, and who is on its way; what a move of one thread keeps.
use mathlib.Core.Path.{subst}
use k_panic.Base.{
  ℕ, ◌≡◌, ◌≢◌, refl, sym, ap, ◌∙◌, Bool, true, false, ◌⊎◌, inl, inr, none, some, List, [], ◌∷◌,
  arith, ℕ_discrete, Option-cases,
}
use k_panic.Mutex.{
  Place, outside, trying, failed, listed, queueing, falling, asleep, entering, holding, releasing,
  popping, waking, MutexState, put_at, pop_back,
}
use k_panic.Mutex.Places.{at_same, at_other, moves}

-- With the lock of the list; in the list; about to sleep or asleep; about to take the mutex, or to
-- wake a thread that waits for it.
abbrev pub in_list_lock : Place → Bool
in_list_lock listed = true
in_list_lock queueing = true
in_list_lock popping = true
in_list_lock p = false

abbrev pub in_queue : Place → Bool
in_queue falling = true
in_queue asleep = true
in_queue p = false

abbrev pub waits : Place → Bool
waits queueing = true
waits falling = true
waits asleep = true
waits p = false

abbrev pub on_way : Place → Bool
on_way trying = true
on_way failed = true
on_way listed = true
on_way releasing = true
on_way popping = true
on_way (waking w) = true
on_way p = false

abbrev pub InList : ℕ → List ℕ → Type 0
InList t [] = ⊥
InList t (x ∷ xs) = (x ≡ t) ⊎ InList t xs

-- The thread is in the list, or taken out of it by a thread that is about to wake it.
abbrev pub Queued : (ℕ → Place) → List ℕ → ℕ → Type 0
Queued places ts t = InList t ts ⊎ ((u : ℕ) × (places u ≡ waking t))

pub record Attended (s : MutexState) : Type 0 where
  pub locked : (t : ℕ) → in_list_lock (s.places t) ≡ true → s.waiters_list_lock ≡ true
  pub one_locker :
      (t u : ℕ) → in_list_lock (s.places t) ≡ true → in_list_lock (s.places u) ≡ true → t ≡ u
  pub queued : (t : ℕ) → in_queue (s.places t) ≡ true → Queued s.places s.waiters_list t
  pub attended :
      (t : ℕ) → waits (s.places t) ≡ true → s.mutex ≡ false → (a : ℕ) × (on_way (s.places a) ≡ true)

pub pop_back-none : (ts : List ℕ) (u : ℕ) → pop_back ts ≡ none → InList u ts → ⊥
pop_back-none [] u e h = h
pop_back-none (t ∷ ts) u e h = elim (Option-cases (pop_back ts)) [
  | inl last ↦ absurd (ground arith)
  | inr ((v, others), more) ↦ absurd (ground arith)
]

pub pop_back-InList :
    (ts rest : List ℕ) (w u : ℕ)
    → pop_back ts ≡ some (w, rest)
    → InList u ts
    → InList u rest ⊎ (w ≡ u)
pop_back-InList [] rest w u e h = absurd cc
pop_back-InList (t ∷ ts) rest w u e h = elim (Option-cases (pop_back ts)) [
  | inl last ↦ elim h [
    | inl first ↦ let same : w ≡ t = ground arith in inr (same ∙ first)
    | inr behind ↦ absurd (pop_back-none ts u last behind)
  ]
  | inr ((v, others), more) ↦
      let list : rest ≡ t ∷ others = ground arith in
      let same : w ≡ v = ground arith in
      elim h [
        | inl first ↦ inl (subst (InList u) (sym list) (inl first))
        | inr behind ↦ elim (pop_back-InList ts others v u more behind) [
          | inl left ↦ inl (subst (InList u) (sym list) (inr left))
          | inr taken ↦ inr (same ∙ taken)
        ]
      ]
]

pub waits-cases : (p : Place) → waits p ≡ true → (in_list_lock p ≡ true) ⊎ (in_queue p ≡ true)
waits-cases queueing h = inl refl
waits-cases falling h = inr refl
waits-cases asleep h = inr refl
waits-cases outside h = absurd cc
waits-cases trying h = absurd cc
waits-cases failed h = absurd cc
waits-cases listed h = absurd cc
waits-cases entering h = absurd cc
waits-cases holding h = absurd cc
waits-cases releasing h = absurd cc
waits-cases popping h = absurd cc
waits-cases (waking w) h = absurd cc

-- The locker of the list and its lock, where one thread moves: without the lock, or with it and
-- keeping it; taking it; and giving it back.
module _ (s s' : MutexState) (t : ℕ) (p : Place) (places : s'.places ≡ put_at s.places t p) where
  pub record Lockers : Type 0 where
    pub locked : (u : ℕ) → in_list_lock (put_at s.places t p u) ≡ true → s'.waiters_list_lock ≡ true
    pub one_locker :
        (u v : ℕ)
        → in_list_lock (put_at s.places t p u) ≡ true
        → in_list_lock (put_at s.places t p v) ≡ true
        → u ≡ v

  pub keeps-Lockers :
      Attended s
      → (in_list_lock p ≡ true → in_list_lock (s.places t) ≡ true)
      → s'.waiters_list_lock ≡ s.waiters_list_lock
      → Lockers
  keeps-Lockers a keeps lock = record {
    locked = λ u o. lock ∙ a.locked u (was u o);
    one_locker = λ u v o q. a.one_locker u v (was u o) (was v q);
  }
    where
      was : (u : ℕ) → in_list_lock (put_at s.places t p u) ≡ true → in_list_lock (s.places u) ≡ true
      was =
          moves (λ u x. in_list_lock x ≡ true → in_list_lock (s.places u) ≡ true) s.places t p keeps
            (λ u _ o. o)

  pub locks-Lockers :
      Attended s → s.waiters_list_lock ≡ false → s'.waiters_list_lock ≡ true → Lockers
  locks-Lockers a free lock = record {
    locked = λ u o. lock;
    one_locker = λ u v o q. sym (only u o) ∙ only v q;
  }
    where
      only : (u : ℕ) → in_list_lock (put_at s.places t p u) ≡ true → t ≡ u
      only =
          moves (λ u x. in_list_lock x ≡ true → t ≡ u) s.places t p (λ _. refl)
            (λ u _ o. let taken = a.locked u o in absurd cc)

  pub unlocks-Lockers :
      Attended s → in_list_lock (s.places t) ≡ true → in_list_lock p ≡ false → Lockers
  unlocks-Lockers a had gives = record {
    locked = λ u o. absurd (none_left u o);
    one_locker = λ u v o q. absurd (none_left u o);
  }
    where
      none_left : (u : ℕ) → in_list_lock (put_at s.places t p u) ≡ true → ⊥
      none_left =
          moves (λ u x. in_list_lock x ≡ true → ⊥) s.places t p (λ o. cc)
            (λ u other o. other (a.one_locker t u had o))

  pub still-Queued :
      ((u : ℕ) → InList u s.waiters_list → InList u s'.waiters_list ⊎ (p ≡ waking u))
      → ((u : ℕ) → s.places t ≢ waking u)
      → (u : ℕ) → Queued s.places s.waiters_list u
      → Queued (put_at s.places t p) s'.waiters_list u
  still-Queued list not_waking u (inl h) = elim (list u h) [
    | inl h' ↦ inl h'
    | inr taken ↦ inr (t, at_same s.places t p ∙ taken)
  ]
  still-Queued list not_waking u (inr (v, wakes)) = elim (ℕ_discrete t v) [
    | yes same ↦ absurd (not_waking u (ap s.places same ∙ wakes))
    | no other ↦ inr (v, at_other s.places t v p other ∙ wakes)
  ]

  -- All but a thread that comes to the list stay queued.
  pub keeps-Queued :
      Attended s
      → (in_queue p ≡ true → Queued (put_at s.places t p) s'.waiters_list t)
      → ((u : ℕ) → InList u s.waiters_list → InList u s'.waiters_list ⊎ (p ≡ waking u))
      → ((u : ℕ) → s.places t ≢ waking u)
      → (u : ℕ) → in_queue (put_at s.places t p u) ≡ true
      → Queued (put_at s.places t p) s'.waiters_list u
  keeps-Queued a mine list not_waking =
      moves (λ u x. in_queue x ≡ true → Queued (put_at s.places t p) s'.waiters_list u) s.places t p
        mine (λ u _ o. still-Queued list not_waking u (a.queued u o))

  -- A thread on its way, for each that waits.
  abbrev pub Helped : Type 0
  Helped =
      (u : ℕ)
      → waits (put_at s.places t p u) ≡ true
      → s'.mutex ≡ false
      → (a : ℕ) × (on_way (put_at s.places t p a) ≡ true)

  pub goes-Helped : on_way p ≡ true → Helped
  goes-Helped o u _ _ = (t, ap on_way (at_same s.places t p) ∙ o)

  pub set-Helped : s'.mutex ≡ true → Helped
  set-Helped e u _ f = absurd cc

  pub keeps-Helped :
      Attended s
      → on_way (s.places t) ≡ false
      → (waits p ≡ true → waits (s.places t) ≡ true)
      → s'.mutex ≡ s.mutex
      → Helped
  keeps-Helped a before waited flag =
      moves
        (λ u x.
          waits x ≡ true → s'.mutex ≡ false → (v : ℕ) × (on_way (put_at s.places t p v) ≡ true))
        s.places t p (λ o f. still (a.attended t (waited o) (sym flag ∙ f)))
        (λ u _ o f. still (a.attended u o (sym flag ∙ f)))
    where
      still :
          (v : ℕ) × (on_way (s.places v) ≡ true) → (v : ℕ) × (on_way (put_at s.places t p v) ≡ true)
      still (v, o) = elim (ℕ_discrete t v) [
        | yes same ↦
            let too : on_way (s.places t) ≡ true = ap (λ x. on_way (s.places x)) same ∙ o in
            absurd cc
        | no other ↦ (v, ap on_way (at_other s.places t v p other) ∙ o)
      ]

  pub all-Attended :
      Lockers
      → ((u : ℕ)
          → in_queue (put_at s.places t p u) ≡ true
          → Queued (put_at s.places t p) s'.waiters_list u)
      → Helped
      → Attended s'
  all-Attended l q h = record {
    locked = λ u o. l.locked u (here in_list_lock u ∙ o);
    one_locker = λ u v o r. l.one_locker u v (here in_list_lock u ∙ o) (here in_list_lock v ∙ r);
    queued =
        λ u o. subst (λ f. Queued f s'.waiters_list u) (sym places) (q u (here in_queue u ∙ o));
    attended = λ u o f.
        subst (λ g. (a : ℕ) × (on_way (g a) ≡ true)) (sym places) (h u (here waits u ∙ o) f);
  }
    where
      here : (g : Place → Bool) (u : ℕ) → g (put_at s.places t p u) ≡ g (s'.places u)
      here g u = ap (λ f. g (f u)) (sym places)
