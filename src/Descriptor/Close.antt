-- ===== src/Descriptor/Close.antt =====
-- `removeLocalFD`: what closing an end of a pipe does.
use k_panic.Base.{ℕ, ◌≡◌, refl, none, List, [], ◌∷◌, arith}
use k_panic.Base.AssocMap.{erase}
use k_panic.Descriptor.{Descriptors, Rings, pipe_fd_closed, close_end, remove_local_fd, is_pipe}
use k_panic.Descriptor.Pipe.{EndsBelow}

close_end-none :
    (fd : ℕ) (m : List ((ℕ × ℕ) × ℕ)) → EndsBelow pipe_fd_closed m → close_end fd m ≡ none
unfolding close_end
close_end-none fd [] b = refl
close_end-none fd (((i, j), k) ∷ m) (bi, bj, b) = ground (arith, close_end-none fd m b)

-- Closing a descriptor never closes an end of a pipe: where all ends of pipes are numbers below the
-- mark for a closed end, the pipes and their rings are what they were before, so a closed end still
-- counts as a pipe and no ring is given back. Only the entry of a file goes.
pub remove_local_fd-pipes :
    (d : Descriptors) (s : Rings) (fd : ℕ)
    → EndsBelow pipe_fd_closed d.pipes
    → let (d', s') = remove_local_fd d s fd in
      (d'.pipes ≡ d.pipes)
      × (s' ≡ s)
      × (is_pipe fd d'.pipes ≡ is_pipe fd d.pipes)
      × (d'.fds ≡ erase fd d.fds)
unfolding remove_local_fd
remove_local_fd-pipes d s fd b =
    rw (close_end-none fd d.pipes b, remove_local_fd) (refl, refl, refl, refl)
