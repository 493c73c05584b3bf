-- ===== src/UserProcess/Stack.antt =====
-- Where a thread's stack goes: `ASLRStackManager`, `mersenneTwister` and
-- `addrIsWithinAnyUserStack` of common/source/kernel/UserProcess.cpp, with the limits of
-- arch/x86/64/include/offsets.h. Values of the time stamp counter are arguments.
use k_panic.Base.{
  ℕ, zero, suc, ◌+◌, ◌-◌, ◌*◌, ◌/◌, ◌%◌, ◌^◌, ◌≤◌, ◌<◌, ◌≡◌, refl, ◌≢◌, ◌⊎◌, inl, inr, Bool, true,
  ◌&&◌, Option, none, some, List, [], ◌∷◌, ltb, leb, ◌==◌, if◌then◌else◌, arith, Bool-cases,
}
use mathlib.Core.Path.{subst}

abbrev pub page_size : ℕ
page_size = 4096

abbrev pub stack_space_start : ℕ
stack_space_start = 0x7fff_ffff_dfff

abbrev pub stack_space_end : ℕ
stack_space_end = 0x2aaa_aaaa_aaaa

abbrev pub stack_max_size : ℕ
stack_max_size = 0xa000

-- `UserStackInfo`
pub record UserStackInfo : Type 0 where
  pub start_address : ℕ
  pub end_address : ℕ

abbrev sub64 : ℕ → ℕ → ℕ
sub64 a b = (a + 2 ^ 64 - b) % 2 ^ 64

-- `n` passes of the loop of `mersenneTwister`
passes : ℕ → ℕ → ℕ
passes zero x = x
passes (suc n) x = passes n (((378 * x + 2310) % 2 ^ 64) % stack_space_start)

pub mersenne_twister : ℕ → ℕ
unfolding passes
mersenne_twister tsc = passes 10 tsc

-- The test of the inner loop of `ASLRStackManager`.
unfoldable pub in_conflict : ℕ → ℕ → UserStackInfo → Bool
in_conflict new_start new_end s =
    ltb new_start (s.start_address + page_size)
    && ltb (sub64 s.end_address page_size) new_start
    && ltb new_end (s.start_address + page_size)
    && ltb (sub64 s.end_address page_size) new_end

-- The inner loop: a conflict sets `new_start` to 0, and the loop goes on.
pub check_stacks : ℕ → ℕ → List UserStackInfo → ℕ
check_stacks new_start new_end [] = new_start
check_stacks new_start new_end (s ∷ stacks) =
    check_stacks (if in_conflict new_start new_end s then 0 else new_start) new_end stacks

-- One round of the outer loop on a random value; 0 asks for another round.
pub aslr_round : List UserStackInfo → ℕ → ℕ
unfolding check_stacks
aslr_round stacks random =
    let new_start = random % stack_space_start / 2 ^ 12 * 2 ^ 12 in
    if ltb new_start (stack_space_end + stack_max_size)
    then 0
    else check_stacks new_start (new_start - stack_max_size) stacks

-- The outer loop on the counter's values that it reads; `none` if it needs more of them.
unfoldable pub aslr_stack_manager : List UserStackInfo → List ℕ → Option UserStackInfo
unfolding aslr_round mersenne_twister
aslr_stack_manager stacks [] = none
aslr_stack_manager stacks (tsc ∷ tscs) =
    let rest = aslr_stack_manager stacks tscs in
    let new_start = aslr_round stacks (mersenne_twister tsc) in
    if new_start == 0
    then rest
    else some (record { start_address = new_start; end_address = new_start - stack_max_size })

-- The test of the loop of `addrIsWithinAnyUserStack` for one thread.
pub address_in_stack : ℕ → ℕ → Bool
address_in_stack address stack_start =
    leb address stack_start && ltb (sub64 stack_start stack_max_size) address

-- A stack as `ASLRStackManager` makes it.
pub record IsStack (s : UserStackInfo) : Type 0 where
  pub low : stack_space_end ≤ s.end_address
  pub high : s.start_address ≤ stack_space_start
  pub size : s.end_address + stack_max_size ≡ s.start_address
  pub aligned : s.start_address % page_size ≡ 0

check_stacks-le :
    (a b : ℕ) (l : List UserStackInfo) → (check_stacks a b l ≡ a) ⊎ (check_stacks a b l ≡ 0)
unfolding check_stacks
check_stacks-le a b [] = inl refl
check_stacks-le a b (s ∷ l) = elim (Bool-cases (in_conflict a b s)) [
  | inl e ↦ rw e (elim (check_stacks-le 0 b l) [ inl h ↦ inr h | inr h ↦ inr h ])
  | inr e ↦ rw e (check_stacks-le a b l)
]

round-IsStack :
    (stacks : List UserStackInfo) (random : ℕ)
    → aslr_round stacks random ≢ 0
    → IsStack (record {
      start_address = aslr_round stacks random;
      end_address = aslr_round stacks random - stack_max_size;
    })
unfolding aslr_round
round-IsStack stacks random h =
    let n = random % stack_space_start / 2 ^ 12 * 2 ^ 12 in
    let c = check_stacks-le n (n - stack_max_size) stacks in
    record {
      low = ground (arith, c);
      high = ground (arith, c);
      size = ground (arith, c);
      aligned = ground (arith, c);
    }

-- Whatever the counter reads and whatever stacks there are: a stack that is chosen lies in the
-- stack space, is as large as it may be, and starts on a page.
pub aslr_stack_manager-IsStack :
    (stacks : List UserStackInfo) (tscs : List ℕ) {s : UserStackInfo}
    → aslr_stack_manager stacks tscs ≡ some s
    → IsStack s
unfolding aslr_stack_manager
aslr_stack_manager-IsStack stacks [] h = cc
aslr_stack_manager-IsStack stacks (tsc ∷ tscs) {s} h =
    let n = aslr_round stacks (mersenne_twister tsc) in
    elim (Bool-cases (n == 0)) [
      | inl e ↦ aslr_stack_manager-IsStack stacks tscs (rw (e, aslr_stack_manager) at h)
      | inr e ↦
          subst IsStack (ground arith) (round-IsStack stacks (mersenne_twister tsc) (ground arith))
    ]

-- Two stacks conflict for the code only where they start at the same address.
in_conflict-IsStack :
    (n m : ℕ) (s : UserStackInfo)
    → IsStack s
    → IsStack (record { start_address = n; end_address = m })
    → in_conflict n m s ≡ (n == s.start_address)
unfolding in_conflict
in_conflict-IsStack n m s v w = ground arith

-- The check that should keep stacks apart lets overlapping ones through: with one stack there,
-- every start that lies one to nine pages above its start, in the stack space, is taken, though the
-- address on which the old stack starts is then within both.
pub aslr_round_overlap :
    (s : UserStackInfo) (k : ℕ)
    → IsStack s
    → 0 < k
    → k < 10
    → s.start_address + k * page_size < stack_space_start
    → let n = s.start_address + k * page_size in
      (aslr_round (s ∷ []) n ≡ n)
      × (address_in_stack s.start_address s.start_address ≡ true)
      × (address_in_stack s.start_address n ≡ true)
unfolding aslr_round check_stacks address_in_stack
aslr_round_overlap s k v h1 h2 h3 = (
  ground (arith, in_conflict-IsStack n (n - stack_max_size) s v (omega arith)),
  ground arith,
  ground arith,
)
  where
    n : ℕ
    n = s.start_address + k * page_size
