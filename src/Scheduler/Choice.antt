-- ===== src/Scheduler/Choice.antt =====
-- Which thread `schedule` chooses, and what it does to the list.
use k_panic.Base.{
  ℕ, ◌≡◌, ◌≢◌, ◌∙◌, refl, ap, ap₂, sym, Bool, true, false, not, ◌&&◌, none, some, List, [], ◌∷◌,
  ◌++◌, arith, Option-cases, Bool-cases, inl, inr,
}
use mathlib.Core.Path.{subst}
use k_panic.Scheduler.{
  ScheduledThread, Found, Scheduler, schedulable, must_sleep, reset_wake_up, find_next,
  cancel_if_asked, schedule,
}

-- The thread may run at the time.
abbrev pub eligible : ℕ → ScheduledThread → Bool
eligible now t = not (must_sleep now t) && schedulable t

abbrev pub NoneEligible : ℕ → List ScheduledThread → Type 0
NoneEligible now [] = Unit
NoneEligible now (t ∷ ts) = (eligible now t ≡ false) × NoneEligible now ts

abbrev pub idents : List ScheduledThread → List ℕ
idents [] = []
idents (t ∷ ts) = t.ident ∷ idents ts

-- The list is cut in front of its first thread that may run.
pub record FirstOf (now : ℕ) (ts : List ScheduledThread) (f : Found) : Type 0 where
  pub before : List ScheduledThread
  pub thread : ScheduledThread
  pub split : ts ≡ before ++ thread ∷ f.behind
  pub none_before : NoneEligible now before
  pub may_run : eligible now thread ≡ true
  pub same_passed : idents f.passed ≡ idents before
  pub same_chosen : f.chosen ≡ reset_wake_up thread

pub reset_wake_up-ident : (t : ScheduledThread) → (reset_wake_up t).ident ≡ t.ident
unfolding reset_wake_up
reset_wake_up-ident t = ground arith

-- A thread that may not run yet is passed over, with its name.
find_next_later :
    (now : ℕ) (t : ScheduledThread) (ts : List ScheduledThread) (g : Found)
    → eligible now t ≡ false
    → find_next now ts ≡ some g
    → (u : ScheduledThread) × ((u.ident ≡ t.ident)
        × (find_next now (t ∷ ts) ≡ some (record g { passed = u ∷ g.passed })))
unfolding find_next
find_next_later now t ts g not_yet found = elim (Bool-cases (must_sleep now t)) [
  | inl sleeps ↦ (t, (refl, ground arith))
  | inr awake ↦ (reset_wake_up t, (reset_wake_up-ident t, ground arith))
]

pub find_next-FirstOf :
    (now : ℕ) (ts : List ScheduledThread) (f : Found) → find_next now ts ≡ some f → FirstOf now ts f
unfolding find_next
find_next-FirstOf now [] f e = absurd cc
find_next-FirstOf now (t ∷ ts) f e = elim (Bool-cases (eligible now t)) [
  | inl first ↦ record {
    before = [];
    thread = t;
    split = ground arith;
    none_before = tt;
    may_run = first;
    same_passed = ground arith;
    same_chosen = ground arith;
  }
  | inr not_yet ↦ elim (Option-cases (find_next now ts)) [
    | inl end ↦ absurd (ground arith)
    | inr (g, found) ↦
        let r = find_next-FirstOf now ts g found in
        let (u, (same, later)) = find_next_later now t ts g not_yet found in
        let is : f ≡ record g { passed = u ∷ g.passed } = ground arith in
        let rest : f.behind ≡ g.behind = ap (λ x. x.behind) is in
        let front : f.passed ≡ u ∷ g.passed = ap (λ x. x.passed) is in
        let choice : f.chosen ≡ g.chosen = ap (λ x. x.chosen) is in
        record {
          before = t ∷ r.before;
          thread = r.thread;
          split = ground arith;
          none_before = (not_yet, r.none_before);
          may_run = r.may_run;
          same_passed = ground arith;
          same_chosen = choice ∙ r.same_chosen;
        }
  ]
]

pub idents-append : (xs ys : List ScheduledThread) → idents (xs ++ ys) ≡ idents xs ++ idents ys
idents-append [] ys = refl
idents-append (x ∷ xs) ys = ap (λ l. x.ident ∷ l) (idents-append xs ys)

pub cancel_if_asked-ident : (t : ScheduledThread) → (cancel_if_asked t).ident ≡ t.ident
unfolding cancel_if_asked
cancel_if_asked-ident t = ground arith

-- What an unblocked `schedule` does: the threads behind the chosen one come first, then those in
-- front of it, then the chosen one.
pub record Turn (now : ℕ) (s s' : Scheduler) : Type 0 where
  pub before : List ScheduledThread
  pub thread : ScheduledThread
  pub behind : List ScheduledThread
  pub split : s.threads ≡ before ++ thread ∷ behind
  pub none_before : NoneEligible now before
  pub may_run : eligible now thread ≡ true
  pub rotated : idents s'.threads ≡ idents behind ++ (idents before ++ thread.ident ∷ [])
  pub now_runs : s'.current ≡ some (cancel_if_asked (reset_wake_up thread))

rotated_idents :
    {now : ℕ} {ts us : List ScheduledThread} (f : Found) (r : FirstOf now ts f)
    → us ≡ f.behind ++ (f.passed ++ cancel_if_asked f.chosen ∷ [])
    → idents us ≡ idents f.behind ++ (idents r.before ++ r.thread.ident ∷ [])
rotated_idents f r e =
    ap idents e
    ∙ idents-append f.behind _
    ∙ ap (λ l. idents f.behind ++ l)
        (idents-append f.passed _
          ∙ ap₂ (λ l i. l ++ i ∷ []) r.same_passed
              (cancel_if_asked-ident f.chosen
                ∙ ap (λ c. c.ident) r.same_chosen
                ∙ reset_wake_up-ident r.thread))

-- An unblocked `schedule` that succeeds lets the first thread run that may, passes over only threads
-- that may not, and turns the list: the threads behind the chosen one come first, then those in front
-- of it, and the chosen one is last; none is lost.
pub schedule-Turn :
    (now : ℕ) (s s' : Scheduler) (user : Bool)
    → s.block_scheduling ≡ false
    → schedule now s ≡ some (s', user)
    → Turn now s s'
unfolding schedule
schedule-Turn now s s' user free e = elim (Option-cases (find_next now s.threads)) [
  | inl end ↦ absurd (ground arith)
  | inr (f, found) ↦
      let r = find_next-FirstOf now s.threads f found in
      let t = cancel_if_asked f.chosen in
      let list : s'.threads ≡ f.behind ++ (f.passed ++ t ∷ []) = ground arith in
      let chosen : s'.current ≡ some t = ground arith in
      record {
        before = r.before;
        thread = r.thread;
        behind = f.behind;
        split = r.split;
        none_before = r.none_before;
        may_run = r.may_run;
        rotated = rotated_idents f r list;
        now_runs = chosen ∙ ap (λ c. some (cancel_if_asked c)) r.same_chosen;
      }
]

find_next_succeeds :
    (now : ℕ) (before : List ScheduledThread) (t : ScheduledThread) (behind : List ScheduledThread)
    → eligible now t ≡ true
    → find_next now (before ++ t ∷ behind) ≢ none
unfolding find_next
find_next_succeeds now [] t behind e end = absurd (ground arith)
find_next_succeeds now (u ∷ us) t behind e end =
    let more = find_next_succeeds now us t behind e in ground (arith, more)

-- Where some thread of the list may run, an unblocked `schedule` does not fail its assertion.
pub schedule_succeeds :
    (now : ℕ) (s : Scheduler) (before : List ScheduledThread) (t : ScheduledThread)
    (behind : List ScheduledThread)
    → s.threads ≡ before ++ t ∷ behind
    → eligible now t ≡ true
    → schedule now s ≢ none
unfolding schedule
schedule_succeeds now s before t behind split e fails =
    let found : find_next now s.threads ≢ none =
      subst (λ l. find_next now l ≢ none) (sym split) (find_next_succeeds now before t behind e) in
    ground (arith, found)
