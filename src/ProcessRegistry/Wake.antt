-- ===== src/ProcessRegistry/Wake.antt =====
-- Who wakes a process that waits, and calls that stop the kernel.
use mathlib.Core.Path.{subst}
use k_panic.Base.{
  ℕ, ◌≡◌, inl, inr, refl, Bool, true, false, some, List, [], ◌∷◌, ◌++◌, arith, ℕ_discrete, length,
  Option-cases, Bool-cases,
}
use k_panic.Base.AssocMap.{lookup, erase, lookup-insert}
use k_panic.ProcessRegistry.{
  ProcessRegistry, process_exit, remove_from_wait_pid_map, check_wait_pid_deadlock,
  get_cond_to_wait, WaitResult, asleep, sleep_on, wait_for_pid,
}
use k_panic.ProcessRegistry.Waits.{Among}

pub record SleepsOn (r : ProcessRegistry) (current pid : ℕ) : Type 0 where
  pub sleepers : List ℕ
  pub found : lookup pid r.waitpid_map ≡ some sleepers
  pub among : Among current sleepers

Among-left : (q : ℕ) (l k : List ℕ) → Among q l → Among q (l ++ k)
Among-left q (a ∷ l) k (inl e) = inl e
Among-left q (a ∷ l) k (inr h) = inr (Among-left q l k h)
Among-left q [] k h = elim h [ ]

Among-new : (q : ℕ) (l : List ℕ) → Among q (l ++ q ∷ [])
Among-new q [] = inl refl
Among-new q (a ∷ l) = inr (Among-new q l)

sleep_on-SleepsOn :
    (r t : ProcessRegistry) (current pid : ℕ)
    → sleep_on r current pid ≡ some t
    → SleepsOn t current pid
unfolding sleep_on
sleep_on-SleepsOn r t current pid e = elim (Option-cases (lookup pid r.waitpid_map)) [
  | inl gone ↦ absurd (ground arith)
  | inr (l, found) ↦ record {
    sleepers = l ++ current ∷ [];
    found = ground (arith, lookup-insert pid pid (l ++ current ∷ []) r.waitpid_map);
    among = Among-new current l;
  }
]

-- Who sleeps goes on sleeping when another one falls asleep.
sleep_on-keeps :
    (r t : ProcessRegistry) (current pid other target : ℕ)
    → SleepsOn r current pid
    → sleep_on r other target ≡ some t
    → SleepsOn t current pid
unfolding sleep_on
sleep_on-keeps r t current pid other target s e =
    elim (Option-cases (lookup target r.waitpid_map)) [
      | inl gone ↦ absurd (ground arith)
      | inr (l, there) ↦ elim (ℕ_discrete target pid) [
        | yes same ↦ record {
          sleepers = l ++ other ∷ [];
          found = ground (arith, lookup-insert target pid (l ++ other ∷ []) r.waitpid_map);
          among = Among-left current l (other ∷ []) (
              subst (Among current) (let e : s.sleepers ≡ l = ground (arith, s.found) in e)
                s.among);
        }
        | no apart ↦ record {
          sleepers = s.sleepers;
          found = ground (arith, lookup-insert target pid (l ++ other ∷ []) r.waitpid_map, s.found);
          among = s.among;
        }
      ]
    ]

-- A process that another one waits for wakes it when it ends.
pub wakes :
    (r : ProcessRegistry) (current pid : ℕ)
    → SleepsOn r current pid
    → (t : ProcessRegistry) × (woken : List ℕ) × (remove_from_wait_pid_map
          (process_exit r pid).0
          pid
        ≡ some (t, woken))
      × Among current woken
unfolding remove_from_wait_pid_map process_exit
wakes r current pid s = (
  record (process_exit r pid).0 {
    waitpid_map = erase pid r.waitpid_map;
    waits_for = erase pid r.waits_for;
    any_waiters = [];
    last_dead_pid = pid;
  },
  s.sleepers ++ r.any_waiters,
  ground (arith, s.found),
  Among-left current s.sleepers r.any_waiters s.among,
)

pub SleepsOn-map :
    (r t : ProcessRegistry) (current pid : ℕ)
    → r.waitpid_map ≡ t.waitpid_map
    → SleepsOn r current pid
    → SleepsOn t current pid
SleepsOn-map r t current pid same s = record {
  sleepers = s.sleepers;
  found = subst (λ m. lookup pid m ≡ some s.sleepers) same s.found;
  among = s.among;
}

waitpid_map-get_cond_to_wait :
    (r t : ProcessRegistry) (current pid : ℕ) (found : Bool)
    → get_cond_to_wait r current pid ≡ some (found, t)
    → r.waitpid_map ≡ t.waitpid_map
unfolding get_cond_to_wait
waitpid_map-get_cond_to_wait r t current pid found e =
    elim (Option-cases (check_wait_pid_deadlock (length r.waits_for) r.waits_for pid current)) [
      | inl stuck ↦ absurd (ground arith)
      | inr (true, f) ↦ ground arith
      | inr (false, f) ↦ elim (Option-cases (lookup current r.waits_for)) [
        | inl missing ↦ ground arith
        | inr (l, mine) ↦ ground arith
      ]
    ]

module _ (current pid : ℕ) where
  pub wait_for_pid-SleepsOn :
      (r t : ProcessRegistry)
      → wait_for_pid r current pid ≡ some (asleep, t)
      → SleepsOn t current pid
  unfolding wait_for_pid
  wait_for_pid-SleepsOn r t e = elim (Option-cases (get_cond_to_wait r current pid)) [
    | inl stuck ↦ absurd (ground arith)
    | inr ((false, s), f) ↦ absurd (ground arith)
    | inr ((true, s), f) ↦ elim (Option-cases (sleep_on s current pid)) [
      | inl gone ↦ absurd (ground arith)
      | inr (u, slept) ↦
          let same : u ≡ t = ground arith in
          subst (λ x. SleepsOn x current pid) same (sleep_on-SleepsOn s u current pid slept)
    ]
  ]

  pub wait_for_pid-keeps :
      (r t : ProcessRegistry) (other target : ℕ) (result : WaitResult)
      → SleepsOn r current pid
      → wait_for_pid r other target ≡ some (result, t)
      → SleepsOn t current pid
  unfolding wait_for_pid
  wait_for_pid-keeps r t other target result s e =
      elim (Option-cases (get_cond_to_wait r other target)) [
        | inl stuck ↦ absurd (ground arith)
        | inr ((found, u), f) ↦
            let still =
              SleepsOn-map r u current pid (waitpid_map-get_cond_to_wait r u other target found f)
                s in
            elim (Bool-cases found) [
              | inr no_condition ↦
                  let same : u ≡ t = ground arith in subst (λ x. SleepsOn x current pid) same still
              | inl condition ↦ elim (Option-cases (sleep_on u other target)) [
                | inl gone ↦ absurd (ground arith)
                | inr (v, slept) ↦
                    let same : v ≡ t = ground arith in
                    subst (λ x. SleepsOn x current pid) same
                      (sleep_on-keeps u v current pid other target still slept)
              ]
            ]
      ]
