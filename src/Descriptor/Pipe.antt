-- ===== src/Descriptor/Pipe.antt =====
-- Pipes: `openPipe`, `writeToPipe` and `readFromPipe` together.
use Prim.Native.Nat.{min}
use mathlib.Core.Path.{subst}
use k_panic.Base.{
  ℕ, zero, suc, ◌+◌, ◌-◌, ◌%◌, ◌^◌, ◌≤◌, ◌<◌, ◌≡◌, refl, sym, ap, ◌∙◌, some, List, [], ◌∷◌, ◌++◌,
  length, take, drop, replicate, length-replicate, arith,
}
use k_panic.Base.AssocMap.{lookup, insert, lookup-insert}
use k_panic.RingBuffer.{RingBuffer, create, inc_proc_count}
use k_panic.RingBuffer.Refine.{Represents, create-Represents, inc_proc_count-Represents}
use k_panic.RingBuffer.Transfer.{
  put_items, get_items, put_items-Put, get_items_lem, buffer_size-get_items,
}
use k_panic.Descriptor.{
  Descriptors, Rings, pipe_buf_size, new_ring, open_pipe, insert_pipe, find_read_end,
  find_write_end, read_from_pipe, write_to_pipe,
}

-- `ring` is the ring of the pipe whose ends are `r` and `w`, and holds `q`.
pub record IsPipe (d : Descriptors) (s : Rings) (r w k : ℕ) (ring : RingBuffer ℕ) (q : List ℕ)
    : Type 0 where
  pub reads : find_read_end (r % 2 ^ 32) d.pipes ≡ some k
  pub writes : find_write_end (w % 2 ^ 32) d.pipes ≡ some k
  pub stored : lookup k s.rings ≡ some ring
  pub size : ring.buffer_size ≡ pipe_buf_size
  pub holds : Represents ring q

write_to_pipe_lem :
    (d : Descriptors) (s : Rings) (w k : ℕ) (ring : RingBuffer ℕ) (bytes : List ℕ)
    → find_write_end (w % 2 ^ 32) d.pipes ≡ some k
    → lookup k s.rings ≡ some ring
    → write_to_pipe d s w bytes ≡ (
      some (put_items bytes ring).0,
      record s { rings = insert k (put_items bytes ring).1 s.rings },
    )
unfolding write_to_pipe
write_to_pipe_lem d s w k ring bytes e f = rw (e, f, write_to_pipe)

read_from_pipe_lem :
    (d : Descriptors) (s : Rings) (r k count : ℕ) (ring : RingBuffer ℕ)
    → find_read_end (r % 2 ^ 32) d.pipes ≡ some k
    → lookup k s.rings ≡ some ring
    → read_from_pipe d s r count ≡ (
      some (get_items count ring).0,
      record s { rings = insert k (get_items count ring).1 s.rings },
    )
unfolding read_from_pipe
read_from_pipe_lem d s r k count ring e f = rw (e, f, read_from_pipe)

module _ (d : Descriptors) (s : Rings) (r w k : ℕ) (ring : RingBuffer ℕ) (q : List ℕ)
    (v : IsPipe d s r w k ring q) where
  -- On a pipe whose ring holds the bytes `q`, `writeToPipe` takes as many bytes as there is room
  -- for, at most 1023 in all, and returns their number; the pipe then holds them, in order, behind
  -- what it held.
  pub write_to_pipe-IsPipe :
      (bytes : List ℕ)
      → let (n, s') = write_to_pipe d s w bytes in
        (n ≡ some (min (length bytes) (1023 - length q)))
        × IsPipe d s' r w k (put_items bytes ring).1 (q ++ take (1023 - length q) bytes)
  write_to_pipe-IsPipe bytes =
      let p = put_items-Put 1023 bytes ring q v.size v.holds in
      rw (write_to_pipe_lem d s w k ring bytes v.writes v.stored) (
        ap some p.count,
        record {
          reads = v.reads;
          writes = v.writes;
          stored = ground (arith, lookup-insert k k (put_items bytes ring).1 s.rings);
          size = p.size;
          holds = p.holds;
        },
      )

  -- On a pipe whose ring holds the bytes `q`, `readFromPipe` gives the oldest bytes, as many as are
  -- asked for and there, and keeps the others.
  pub read_from_pipe-IsPipe :
      (count : ℕ)
      → let (out, s') = read_from_pipe d s r count in
        (out ≡ some (take count q)) × IsPipe d s' r w k (get_items count ring).1 (drop count q)
  read_from_pipe-IsPipe count =
      let (out, u) = get_items_lem count ring q v.holds in
      rw (read_from_pipe_lem d s r k count ring v.reads v.stored) (
        ap some out,
        record {
          reads = v.reads;
          writes = v.writes;
          stored = ground (arith, lookup-insert k k (get_items count ring).1 s.rings);
          size = buffer_size-get_items count ring ∙ v.size;
          holds = u;
        },
      )

take_all : (n : ℕ) (bytes : List ℕ) → length bytes ≤ n → take n bytes ≡ bytes
take_all zero [] h = refl
take_all (suc n) [] h = refl
take_all zero (x ∷ bytes) h = elim h [ ]
take_all (suc n) (x ∷ bytes) h = ap (λ l. x ∷ l) (take_all n bytes (omega arith))

-- The ends of the pipes are descriptors that were given out.
abbrev pub EndsBelow : ℕ → List ((ℕ × ℕ) × ℕ) → Type 0
EndsBelow n [] = Unit
EndsBelow n (((i, j), k) ∷ m) = (i < n) × (j < n) × EndsBelow n m

EndsBelow-mono : (r n : ℕ) (m : List ((ℕ × ℕ) × ℕ)) → r ≤ n → EndsBelow r m → EndsBelow n m
EndsBelow-mono r n [] h b = tt
EndsBelow-mono r n (((i, j), k) ∷ m) h (bi, bj, b) =
    (omega (arith, bi, h), omega (arith, bj, h), EndsBelow-mono r n m h b)

-- A new pipe does not hide the others, nor they it.
insert_pipe-EndsBelow :
    (r w k : ℕ) (m : List ((ℕ × ℕ) × ℕ))
    → EndsBelow r m
    → r < w
    → (find_read_end r (insert_pipe r w k m) ≡ some k)
      × (find_write_end w (insert_pipe r w k m) ≡ some k)
      × EndsBelow (w + 1) (insert_pipe r w k m)
unfolding find_read_end find_write_end insert_pipe
insert_pipe-EndsBelow r w k [] b h = (ground arith, ground arith, omega arith)
insert_pipe-EndsBelow r w k (((i, j), l) ∷ m) (bi, bj, b) h =
    let (reads, writes, below) = insert_pipe-EndsBelow r w k m b h in
    let old = EndsBelow-mono r (w + 1) m (omega (arith, h)) b in
    (ground (arith, reads), ground (arith, writes), ground (arith, below, old))

-- If the ends of all pipes are descriptors that were given out, and the next two are below 2^32, so
-- that they are not cut, then `openPipe` gives two new
-- descriptors, the ends of an empty pipe, and the ends of all pipes are again descriptors that were
-- given out.
pub open_pipe-IsPipe :
    (d : Descriptors) (s : Rings)
    → EndsBelow (d.fd_num + 1) d.pipes
    → d.fd_num + 2 < 2 ^ 32
    → let ((r, w), d', s') = open_pipe d s in
      IsPipe d' s' r w s.next_ring new_ring [] × EndsBelow (d'.fd_num + 1) d'.pipes
unfolding open_pipe
open_pipe-IsPipe d s b small =
    let ((r, w), d', s') = open_pipe d s in
    let r-here : r ≡ d.fd_num + 1 = omega arith in
    let w-here : w ≡ d.fd_num + 2 = omega arith in
    let num : d'.fd_num ≡ w = omega arith in
    let (reads, writes, below) =
      insert_pipe-EndsBelow r w s.next_ring d.pipes
        (subst (λ n. EndsBelow n d.pipes) (sym r-here) b) (omega arith) in
    (
      record {
        reads = ap (λ n. find_read_end n d'.pipes) (omega arith) ∙ reads;
        writes = ap (λ n. find_write_end n d'.pipes) (omega arith) ∙ writes;
        stored = ground (arith, lookup-insert s.next_ring s.next_ring new_ring s.rings);
        size = unfold new_ring inc_proc_count create in refl;
        holds =
            unfold new_ring in
            inc_proc_count-Represents (create (replicate pipe_buf_size 0) pipe_buf_size) [] (
              create-Represents (replicate pipe_buf_size 0) pipe_buf_size (omega arith)
                (length-replicate {A = ℕ} pipe_buf_size 0));
      },
      subst (λ n. EndsBelow (n + 1) d'.pipes) (sym num) below,
    )

-- What goes into a new pipe comes out of it: in a process in which the ends of all pipes are
-- descriptors that were given out, and fewer than 2^32 - 2 were given out, after `openPipe` up to 1023 bytes written to the write end are
-- taken whole, and a read of at least as many from the read end gives exactly those bytes in the
-- order in which they were written.
pub open_write_read :
    (d : Descriptors) (s : Rings) (bytes : List ℕ) (count : ℕ)
    → EndsBelow (d.fd_num + 1) d.pipes
    → d.fd_num + 2 < 2 ^ 32
    → length bytes ≤ 1023
    → length bytes ≤ count
    → let ((r, w), d', s1) = open_pipe d s in
      let (n, s2) = write_to_pipe d' s1 w bytes in
      let (out, s3) = read_from_pipe d' s2 r count in (n ≡ some (length bytes)) × (out ≡ some bytes)
open_write_read d s bytes count b few small enough =
    let ((r, w), d', s1) = open_pipe d s in
    let (v, _) = open_pipe-IsPipe d s b few in
    let (n, u) = write_to_pipe-IsPipe d' s1 r w s.next_ring new_ring [] v bytes in
    let (out, _) =
      read_from_pipe-IsPipe d' (write_to_pipe d' s1 w bytes).1 r w s.next_ring
        (put_items bytes new_ring).1 (take 1023 bytes) u count in
    (
      n ∙ ap some (omega arith),
      out ∙ ap some (rw (take_all 1023 bytes small) (take_all count bytes enough)),
    )
