-- ===== src/Descriptor/Calls.antt =====
-- The system calls on descriptors: `write`, `read`, `close`, `open` and `pipe` of
-- common/source/kernel/Syscall.cpp. A number returned is its 64-bit pattern.
use k_panic.Base.{
  ℕ, ◌+◌, ◌-◌, ◌%◌, ◌^◌, ◌≤◌, ◌<◌, ◌==◌, ◌≡◌, refl, ◌∙◌, ◌≢◌, Bool, false, ◌||◌, Option, none, some,
  List, [], arith, leb, ltb, if◌then◌else◌, length,
}
use k_panic.Base.AssocMap.{AssocMap, erase, lookup-insert, lookup-erase}
use k_panic.Descriptor.Pipe.{EndsBelow}
use k_panic.Descriptor.Close.{remove_local_fd-pipes}
use k_panic.Descriptor.{
  Descriptors, Rings, no_fd, pipe_fd_closed, add_local_fd, get_global_fd, remove_local_fd, is_pipe,
  open_pipe, read_from_pipe, write_to_pipe,
}

abbrev pub user_break : ℕ
user_break = 0x0000_8000_0000_0000

-- The virtual file system and the terminal, over a state of their own: `VfsSyscall::open`, `close`,
-- `write`, `read`, `readLine`, and the new global descriptor with a copy of the file of another one. Descriptors and their failure value -1 are 32-bit patterns.
pub record Vfs (W : Type 0) : Type 0 where
  pub open_file : W → List ℕ → ℕ → ℕ × W
  pub close_file : W → ℕ → ℕ × W
  pub write_file : W → ℕ → List ℕ → ℕ × W
  pub read_file : W → ℕ → ℕ → ℕ × List ℕ × W
  pub print : W → List ℕ → W
  pub read_line : W → ℕ → ℕ × List ℕ × W
  pub copy_file : W → ℕ → ℕ × W

-- `(buffer >= USER_BREAK) || (buffer + size > USER_BREAK)`, in 64 bits
pub bad_buffer : ℕ → ℕ → Bool
bad_buffer buffer size = leb user_break buffer || ltb user_break ((buffer + size) % 2 ^ 64)

-- A 32-bit result as a `size_t`: -1 keeps its value, since it is sign-extended.
abbrev pub sign_extend : ℕ → ℕ
sign_extend r = if ltb r (2 ^ 31) then r else r + (2 ^ 64 - 2 ^ 32)

abbrev pub minus_one : ℕ
minus_one = 2 ^ 64 - 1

abbrev or_minus_one : Option ℕ → ℕ
or_minus_one none = minus_one
or_minus_one (some n) = n

get_global_fd-erased :
    (d : Descriptors) (fd : ℕ) (old : AssocMap ℕ)
    → d.fds ≡ erase fd old
    → get_global_fd d fd ≡ no_fd
unfolding get_global_fd
get_global_fd-erased d fd old e = rw (e, get_global_fd) (ground (arith, lookup-erase fd fd old))

module _ {W : Type 0} (v : Vfs W) where
  open v use {open_file, close_file, write_file, read_file, print, read_line}

  -- `Syscall::write`; `bytes` is what the user's memory holds from `buffer` on.
  pub write : Descriptors → Rings → W → ℕ → ℕ → List ℕ → ℕ × Rings × W
  unfolding bad_buffer
  write d s world fd buffer bytes =
      let from_pipe = write_to_pipe d s fd bytes in
      let local = fd % 2 ^ 32 in
      let global_fd = get_global_fd d local in
      let to_file = write_file world global_fd bytes in
      if bad_buffer buffer (length bytes)
      then (no_fd, s, world)
      else if fd == 1
      then (length bytes, s, print world bytes)
      else if is_pipe local d.pipes
      then (or_minus_one from_pipe.0, from_pipe.1, world)
      else if global_fd == no_fd
      then (minus_one, s, world)
      else (sign_extend to_file.0, s, to_file.1)

  -- `Syscall::read`; the bytes read go to the user's memory at `buffer`.
  pub read : Descriptors → Rings → W → ℕ → ℕ → ℕ → ℕ × List ℕ × Rings × W
  unfolding bad_buffer
  read d s world fd buffer count =
      let from_line = read_line world count in
      let from_pipe = read_from_pipe d s fd count in
      let local = fd % 2 ^ 32 in
      let global_fd = get_global_fd d local in
      let from_file = read_file world global_fd count in
      if bad_buffer buffer count
      then (no_fd, [], s, world)
      else if fd == 0
      then (from_line.0, from_line.1, s, from_line.2)
      else if is_pipe local d.pipes
      then elim from_pipe.0 [
        | none ↦ (minus_one, [], from_pipe.1, world)
        | some cs ↦ (length cs, cs, from_pipe.1, world)
      ]
      else if global_fd == no_fd
      then (minus_one, [], s, world)
      else (sign_extend from_file.0, from_file.1, s, from_file.2)

  -- `Syscall::close`
  pub close : Descriptors → Rings → W → ℕ → ℕ × Descriptors × Rings × W
  close d s world fd =
      let local = fd % 2 ^ 32 in
      let global_fd = get_global_fd d local in
      let removed = remove_local_fd d s local in
      let closed = close_file world global_fd in
      if is_pipe local d.pipes
      then (0, removed.0, removed.1, world)
      else if global_fd == no_fd
      then (minus_one, d, s, world)
      else if closed.0 == no_fd
      then (minus_one, d, s, closed.1)
      else (sign_extend closed.0, removed.0, removed.1, closed.1)

  -- `Syscall::open`; `text` is the path that the user's memory holds from `path` on.
  pub open_call : Descriptors → W → ℕ → List ℕ → ℕ → ℕ × Descriptors × W
  open_call d world path text flags =
      let opened = open_file world text flags in
      let added = add_local_fd d opened.0 in
      if leb user_break path then (no_fd, d, world) else (added.0, added.1, opened.1)

  -- `Syscall::pipe`; the two descriptors go to the addresses `read_end` and `write_end`.
  pub pipe : Descriptors → Rings → ℕ → ℕ → ℕ × Option (ℕ × ℕ) × Descriptors × Rings
  pipe d s read_end write_end =
      let opened = open_pipe d s in
      if leb user_break read_end || leb user_break write_end
      then (minus_one, none, d, s)
      else (0, some opened.0, opened.1, opened.2)

  -- A failed open is not reported: where the path's address is below the break, the file system
  -- refuses the path, and the descriptors are not used up, the call still returns the next
  -- descriptor, which is no -1 and stands for no file.
  pub open_call_refused :
      (d : Descriptors) (world : W) (path : ℕ) (text : List ℕ) (flags : ℕ)
      → path < user_break
      → (open_file world text flags).0 ≡ no_fd
      → d.fd_num + 1 < no_fd
      → let (fd, d', _) = open_call d world path text flags in
        (fd ≡ d.fd_num + 1) × (fd ≢ no_fd) × (get_global_fd d' fd ≡ no_fd)
  unfolding open_call add_local_fd get_global_fd
  open_call_refused d world path text flags h e small = (
    ground arith,
    ground arith,
    ground
        (arith, lookup-insert (d.fd_num + 1) (d.fd_num + 1) (open_file world text flags).0 d.fds),
  )

  close_open :
      (d : Descriptors) (s : Rings) (world : W) (fd : ℕ)
      → fd < 2 ^ 32
      → is_pipe fd d.pipes ≡ false
      → get_global_fd d fd ≢ no_fd
      → (close_file world (get_global_fd d fd)).0 ≢ no_fd
      → close d s world fd ≡ (
        sign_extend (close_file world (get_global_fd d fd)).0,
        (remove_local_fd d s fd).0,
        (remove_local_fd d s fd).1,
        (close_file world (get_global_fd d fd)).1,
      )
  unfolding close
  close_open d s world fd h h1 h2 h3 =
      let local : fd % 2 ^ 32 ≡ fd = omega arith in rw local (ground arith)

  close_missing :
      (d : Descriptors) (s : Rings) (world : W) (fd : ℕ)
      → fd < 2 ^ 32
      → is_pipe fd d.pipes ≡ false
      → get_global_fd d fd ≡ no_fd
      → close d s world fd ≡ (minus_one, d, s, world)
  unfolding close
  close_missing d s world fd h h1 h2 =
      let local : fd % 2 ^ 32 ≡ fd = omega arith in rw local (ground arith)

  -- An opened file is closed once: if the descriptor is below 2^32, is no end of a pipe and stands for a file, the
  -- ends of all pipes are below the mark for a closed end, and the file system takes the close,
  -- then the call returns its result, the descriptor stands for no file, and a second close of it
  -- returns -1 and changes nothing.
  pub close_twice :
      (d : Descriptors) (s : Rings) (world : W) (fd : ℕ)
      → fd < 2 ^ 32
      → EndsBelow pipe_fd_closed d.pipes
      → is_pipe fd d.pipes ≡ false
      → get_global_fd d fd ≢ no_fd
      → (close_file world (get_global_fd d fd)).0 ≢ no_fd
      → let (r, d', s', world') = close d s world fd in
        (r ≡ sign_extend (close_file world (get_global_fd d fd)).0)
        × (get_global_fd d' fd ≡ no_fd)
        × (close d' s' world' fd ≡ (minus_one, d', s', world'))
  close_twice d s world fd h b h1 h2 h3 =
      let (_, _, same, gone) = remove_local_fd-pipes d s fd b in
      let lost = get_global_fd-erased (remove_local_fd d s fd).0 fd d.fds gone in
      rw (close_open d s world fd h h1 h2 h3) (
        refl,
        lost,
        close_missing (remove_local_fd d s fd).0 (remove_local_fd d s fd).1
            (close_file world (get_global_fd d fd)).1 fd h (same ∙ h1) lost,
      )

-- The test of a buffer can be passed by one that reaches far beyond the user's part of memory: if
-- the address is below the break and the sum of address and size, the size being below 2^64, is
-- 2^64 or more, the sum wraps round and the buffer is let through.
pub bad_buffer_wraps :
    (buffer size : ℕ)
    → buffer < user_break
    → 2 ^ 64 ≤ buffer + size
    → size < 2 ^ 64
    → (bad_buffer buffer size ≡ false) × (user_break < buffer + size)
unfolding bad_buffer
bad_buffer_wraps buffer size h1 h2 h3 = (ground arith, omega arith)
