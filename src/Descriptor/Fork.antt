-- ===== src/Descriptor/Fork.antt =====
-- What the constructor of a forked process in common/source/kernel/UserProcess.cpp does with the
-- descriptors and pipes of its parent, and what the destructor does with those of a process.
use k_panic.Base.{
  ℕ, ◌+◌, ◌-◌, ◌%◌, ◌^◌, ◌<◌, ◌==◌, ◌≡◌, refl, ◌∙◌, true, false, Option, none, some, List, [], ◌∷◌,
  arith, if◌then◌else◌,
}
use k_panic.Base.AssocMap.{AssocMap, lookup, insert, lookup-insert}
use k_panic.RingBuffer.{RingBuffer, inc_proc_count}
use k_panic.Descriptor.{Descriptors, Rings, no_fd, get_global_fd, insert_pipe, drop_ring}
use k_panic.Descriptor.Calls.{Vfs}

abbrev pub o_rdonly : ℕ
o_rdonly = 0x0001

-- `entry.second->incProcCount()`
pub share_ring : ℕ → Rings → Rings
share_ring k s = elim (lookup k s.rings) [
  | none ↦ s
  | some ring ↦ record s { rings = insert k (inc_proc_count ring) s.rings }
]

-- The loop over the parent's pipes: the child has the same rings.
pub copy_pipes : List ((ℕ × ℕ) × ℕ) → List ((ℕ × ℕ) × ℕ) → Rings → List ((ℕ × ℕ) × ℕ) × Rings
unfolding share_ring insert_pipe
copy_pipes [] pipes s = (pipes, s)
copy_pipes (((r, w), k) ∷ m) pipes s = copy_pipes m (insert_pipe r w k pipes) (share_ring k s)

-- The loop over the pipes in the destructor.
pub drop_rings : List ((ℕ × ℕ) × ℕ) → Rings → Rings
unfolding drop_ring
drop_rings [] s = s
drop_rings ((ends, k) ∷ m) s = drop_rings m (drop_ring k s)

module _ {W : Type 0} (v : Vfs W) where
  open v use {open_file, close_file, copy_file}

  -- The loop over the parent's descriptors: each stands for a copy of its file.
  pub copy_fds : AssocMap ℕ → AssocMap ℕ → W → AssocMap ℕ × W
  copy_fds [] fds world = (fds, world)
  copy_fds ((local, global) ∷ m) fds world =
      let copied = copy_file world global in copy_fds m (insert local copied.0 fds) copied.1

  -- The part of the constructor that copies the parent's descriptors and pipes; `fd` is that of the
  -- program's file, which is opened before, for a member that is assigned anew, and behind.
  unfoldable pub copy_descriptors : Descriptors → Rings → W → ℕ → List ℕ → Descriptors × Rings × W
  unfolding copy_fds copy_pipes
  copy_descriptors parent s world fd filename =
      let member = open_file world filename o_rdonly in
      let copied = copy_fds parent.fds [] member.1 in
      let shared = copy_pipes parent.pipes [] s in
      let opened = open_file copied.1 filename o_rdonly in
      (
        record { fd_num = parent.fd_num; fds = insert fd opened.0 copied.0; pipes = shared.0 },
        shared.1,
        opened.1,
      )

  -- The loop over the descriptors in the destructor; `none` is its failed assertion.
  pub close_fds : Descriptors → AssocMap ℕ → W → Option W
  close_fds d [] world = some world
  close_fds d ((local, global) ∷ m) world =
      let rest = close_fds d m (close_file world global).1 in
      if get_global_fd d local == no_fd then none else rest

  -- The part of the destructor that closes the descriptors and leaves the pipes.
  unfoldable pub end_descriptors : Descriptors → Rings → W → Option (Rings × W)
  unfolding close_fds drop_rings
  end_descriptors d s world = elim (close_fds d d.fds world) [
    | none ↦ none
    | some world' ↦ some (drop_rings d.pipes s, world')
  ]

share_ring_lem :
    (k : ℕ) (s : Rings) (ring : RingBuffer ℕ)
    → lookup k s.rings ≡ some ring
    → share_ring k s ≡ record s { rings = insert k (inc_proc_count ring) s.rings }
unfolding share_ring
share_ring_lem k s ring e = rw (e, share_ring) refl

-- Leaving a ring that another process has lowers its count.
drop_ring_lem :
    (k : ℕ) (s : Rings) (ring : RingBuffer ℕ) (n : ℕ)
    → lookup k s.rings ≡ some ring
    → (ring.connected_proc_counter + 2 ^ 64 - 1) % 2 ^ 64 ≡ n
    → 0 < n
    → lookup k (drop_ring k s).rings ≡ some (record ring { connected_proc_counter = n })
unfolding drop_ring
drop_ring_lem k s ring n e count more =
    let here = lookup-insert k k (record ring { connected_proc_counter = n }) s.rings in
    let kept : (n == 0) ≡ false = ground arith in
    let same : (k == k) ≡ true = ground arith in
    rw (e, drop_ring, count, kept) (here ∙ rw same refl)

-- A ring that is shared with one more process and left by it again is the ring it was, while
-- another process has it and its count does not wrap.
pub drop_ring-share_ring :
    (k : ℕ) (s : Rings) (ring : RingBuffer ℕ)
    → lookup k s.rings ≡ some ring
    → 0 < ring.connected_proc_counter
    → ring.connected_proc_counter + 1 < 2 ^ 64
    → lookup k (drop_ring k (share_ring k s)).rings ≡ some ring
unfolding inc_proc_count
drop_ring-share_ring k s ring e used few =
    let shared = inc_proc_count ring in
    let same : (k == k) ≡ true = ground arith in
    let here : lookup k (insert k shared s.rings) ≡ some shared =
      lookup-insert k k shared s.rings ∙ rw same refl in
    rw (share_ring_lem k s ring e) (
      drop_ring_lem k (record s { rings = insert k shared s.rings }) shared
        ring.connected_proc_counter here (omega (arith, used, few)) used)
