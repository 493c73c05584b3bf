-- ===== src/Descriptor.antt =====
-- The open files and pipes of a process: the descriptor functions of
-- common/source/kernel/UserProcess.cpp, and the calls of common/source/kernel/Syscall.cpp that
-- use them. An `int` is its 32-bit pattern, a `size_t` wraps round at 2^64. The rings of pipes
-- lie in a store that all processes share, since `fork` copies the pointers. The virtual file
-- system is the parameter `Vfs`.
pub mod Pipe
pub mod Close
pub mod Calls
pub mod Fork
mod Tests
use k_panic.Base.{
  ℕ, zero, suc, ◌+◌, ◌-◌, ◌%◌, ◌^◌, ◌==◌, Bool, true, false, ◌&&◌, ◌||◌, Option, none, some, List,
  [], ◌∷◌, ltb, leb, if◌then◌else◌, length, replicate,
}
use k_panic.Base.AssocMap.{AssocMap, lookup, insert, erase}
use k_panic.RingBuffer.Transfer.{get_items, put_items}
use k_panic.RingBuffer.{RingBuffer, put, get, create, inc_proc_count}

-- `-1U`, which stands for no descriptor, and PIPE_FD_CLOSED.
abbrev pub no_fd : ℕ
no_fd = 2 ^ 32 - 1

abbrev pub pipe_fd_closed : ℕ
pipe_fd_closed = 2 ^ 32 - 3

abbrev pub pipe_buf_size : ℕ
pipe_buf_size = 1024

-- `fds_` maps local to global descriptors; `pipes_` maps the two ends of a pipe to its ring.
pub record Descriptors : Type 0 where
  pub fd_num : ℕ
  pub fds : AssocMap ℕ
  pub pipes : List ((ℕ × ℕ) × ℕ)

pub record Rings : Type 0 where
  pub rings : AssocMap (RingBuffer ℕ)
  pub next_ring : ℕ

-- `addLocalFD`: the counter is a `size_t`, the key of the map an `int`.
pub add_local_fd : Descriptors → ℕ → ℕ × Descriptors
add_local_fd d global_fd =
    let fd = (d.fd_num + 1) % 2 ^ 64 in
    (fd, record d { fd_num = fd; fds = insert (fd % 2 ^ 32) global_fd d.fds })

pub get_global_fd : Descriptors → ℕ → ℕ
get_global_fd d local_fd = elim (lookup local_fd d.fds) [ none ↦ no_fd | some g ↦ g ]

-- The place of a 32-bit pattern in the order of `int`.
abbrev pub int_order : ℕ → ℕ
int_order n = (n + 2 ^ 31) % 2 ^ 32

-- `pipes_[{read, write}] = ring`, in the order of the keys, which are pairs of `int`
pub insert_pipe : ℕ → ℕ → ℕ → List ((ℕ × ℕ) × ℕ) → List ((ℕ × ℕ) × ℕ)
insert_pipe r w ring [] = ((r, w), ring) ∷ []
insert_pipe r w ring (((i, j), old) ∷ m) =
    if i == r && j == w
    then ((r, w), ring) ∷ m
    else if ltb (int_order r) (int_order i) || i == r && ltb (int_order w) (int_order j)
    then ((r, w), ring) ∷ ((i, j), old) ∷ m
    else ((i, j), old) ∷ insert_pipe r w ring m

-- `pipes_.erase({read, write})`
pub erase_pipe : ℕ → ℕ → List ((ℕ × ℕ) × ℕ) → List ((ℕ × ℕ) × ℕ)
erase_pipe r w [] = []
erase_pipe r w (((i, j), ring) ∷ m) =
    if i == r && j == w then m else ((i, j), ring) ∷ erase_pipe r w m

-- `new RingBuffer<char>(PIPE_BUF_SIZE)` and its `incProcCount()`
pub new_ring : RingBuffer ℕ
new_ring = inc_proc_count (create (replicate pipe_buf_size 0) pipe_buf_size)

-- `openPipe`; the two new descriptors go to the addresses that the caller gave, as `int`. The
-- addresses do not overlap.
pub open_pipe : Descriptors → Rings → (ℕ × ℕ) × Descriptors × Rings
unfolding insert_pipe
open_pipe d s =
    let first = (d.fd_num + 1) % 2 ^ 64 in
    let second = (first + 1) % 2 ^ 64 in
    let r = first % 2 ^ 32 in
    let w = second % 2 ^ 32 in
    (
      (r, w),
      record d { fd_num = second; pipes = insert_pipe r w s.next_ring d.pipes },
      record { rings = insert s.next_ring new_ring s.rings; next_ring = s.next_ring + 1 },
    )

-- The loops that look for an end among the pipes.
pub find_read_end : ℕ → List ((ℕ × ℕ) × ℕ) → Option ℕ
find_read_end fd [] = none
find_read_end fd (((i, j), ring) ∷ m) = if i == fd then some ring else find_read_end fd m

pub find_write_end : ℕ → List ((ℕ × ℕ) × ℕ) → Option ℕ
find_write_end fd [] = none
find_write_end fd (((i, j), ring) ∷ m) = if j == fd then some ring else find_write_end fd m

pub is_pipe : ℕ → List ((ℕ × ℕ) × ℕ) → Bool
is_pipe fd [] = false
is_pipe fd (((i, j), ring) ∷ m) = if i == fd || j == fd then true else is_pipe fd m

-- `readFromPipe`; `none` is -1.
pub read_from_pipe : Descriptors → Rings → ℕ → ℕ → Option (List ℕ) × Rings
unfolding find_read_end
read_from_pipe d s read_fd count = elim (find_read_end (read_fd % 2 ^ 32) d.pipes) [
  | none ↦ (none, s)
  | some k ↦ elim (lookup k s.rings) [
    | none ↦ (none, s)
    | some ring ↦
        let (cs, ring') = get_items count ring in
        (some cs, record s { rings = insert k ring' s.rings })
  ]
]

-- `writeToPipe`; `none` is -1.
pub write_to_pipe : Descriptors → Rings → ℕ → List ℕ → Option ℕ × Rings
unfolding find_write_end
write_to_pipe d s write_fd bytes = elim (find_write_end (write_fd % 2 ^ 32) d.pipes) [
  | none ↦ (none, s)
  | some k ↦ elim (lookup k s.rings) [
    | none ↦ (none, s)
    | some ring ↦
        let (n, ring') = put_items bytes ring in
        (some n, record s { rings = insert k ring' s.rings })
  ]
]

-- `entry.second->decProcCount()`, and `delete` at the last one
pub drop_ring : ℕ → Rings → Rings
drop_ring k s = elim (lookup k s.rings) [
  | none ↦ s
  | some ring ↦
      let n = (ring.connected_proc_counter + 2 ^ 64 - 1) % 2 ^ 64 in
      if n == 0
      then record s { rings = erase k s.rings }
      else record s { rings = insert k (record ring { connected_proc_counter = n }) s.rings }
]

-- The loop over the pipes in `removeLocalFD`. It runs over copies of the entries, so that the two
-- branches that assign PIPE_FD_CLOSED to an end change nothing that stays.
pub close_end : ℕ → List ((ℕ × ℕ) × ℕ) → Option (ℕ × ℕ × ℕ)
close_end fd [] = none
close_end fd (((i, j), ring) ∷ m) =
    if i == fd && j == pipe_fd_closed
    then some (i, j, ring)
    else if i == fd
    then none
    else if i == pipe_fd_closed && j == fd
    then some (i, j, ring)
    else if j == fd
    then none
    else close_end fd m

pub remove_local_fd : Descriptors → Rings → ℕ → Descriptors × Rings
unfolding close_end drop_ring erase_pipe
remove_local_fd d s fd = elim (close_end fd d.pipes) [
  | none ↦ (record d { fds = erase fd d.fds }, s)
  | some (i, j, k) ↦
      (record d { fds = erase fd d.fds; pipes = erase_pipe i j d.pipes }, drop_ring k s)
]
