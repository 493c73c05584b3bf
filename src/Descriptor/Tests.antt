-- ===== src/Descriptor/Tests.antt =====
-- Runs of the descriptors' functions: a pipe, an open file, and a file system that refuses.
use k_panic.Base.{ℕ, ◌+◌, ◌≡◌, refl, some, List, [], ◌∷◌, arith, length}
use k_panic.Descriptor.{
  Descriptors, Rings, no_fd, pipe_fd_closed, open_pipe, write_to_pipe, read_from_pipe,
  get_global_fd,
}
use k_panic.Descriptor.Pipe.{EndsBelow, open_write_read}
use k_panic.Descriptor.Calls.{Vfs}
use k_panic.Descriptor.Fork.{copy_descriptors, end_descriptors}
use k_panic.Base.AssocMap.{insert, lookup}

abbrev fresh : Descriptors
fresh = record { fd_num = 2; fds = []; pipes = [] }

abbrev no_rings : Rings
no_rings = record { rings = []; next_ring = 0 }

abbrev hi : List ℕ
hi = b'h' ∷ b'i' ∷ []

open_write_read_example :
    let ((r, w), d', s1) = open_pipe fresh no_rings in
    let (n, s2) = write_to_pipe d' s1 w hi in
    let (out, s3) = read_from_pipe d' s2 r 10 in (n ≡ some 2) × (out ≡ some hi)
open_write_read_example =
    open_write_read fresh no_rings hi 10 tt (omega arith) (omega arith) (omega arith)

-- The process and the rings after the pipe was made.
abbrev with_pipe : Descriptors
with_pipe = (open_pipe fresh no_rings).1

abbrev one_ring : Rings
one_ring = (open_pipe fresh no_rings).2

-- A process with a pipe at 3 and 4, and a file at 5.
abbrev busy : Descriptors
busy = record { fd_num = 5; fds = (5, 9) ∷ []; pipes = ((3, 4), 0) ∷ [] }

busy-EndsBelow : EndsBelow pipe_fd_closed busy.pipes
busy-EndsBelow = (omega arith, omega arith, tt)

-- A file system that refuses every path and takes every close; its state counts the calls.
abbrev counting : Vfs ℕ
counting = record {
  open_file = λ n path flags. (no_fd, n + 1);
  close_file = λ n fd. (0, n + 1);
  write_file = λ n fd bytes. (length bytes, n + 1);
  read_file = λ n fd count. (0, [], n + 1);
  print = λ n bytes. n + 1;
  read_line = λ n count. (0, [], n + 1);
  copy_file = λ n fd. (n, n + 1);
}

-- In the child the descriptor 5 stands for the copy that the file system made.
copies_busy :
    (copy_descriptors counting busy no_rings 10 2 hi).0
    ≡ record { fd_num = 5; fds = (5, 11) ∷ (2, no_fd) ∷ []; pipes = ((3, 4), 0) ∷ [] }
unfolding copy_descriptors insert
copies_busy = refl

ends_busy : end_descriptors counting busy no_rings 7 ≡ some (no_rings, 8)
unfolding end_descriptors get_global_fd lookup
ends_busy = refl
