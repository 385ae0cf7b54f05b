-- ===== src/Tests/Buffers.antt =====
-- Runs of the buffer.
use high_performance_chatser.Prelude.{
  ℕ, ◌≤◌, ◌≡◌, Bytes, [], ◌∷◌, ◌++◌, arith, some, none, length, drop, replicate, window,
}
use high_performance_chatser.Net.Buffer.{
  Buffer, read_fd, got, failed, writable_bytes, extra_size, iov_capacity,
}
use high_performance_chatser.Net.Buffer.Invariant.{IsValid, contents}
use high_performance_chatser.Net.Buffer.Queue.{
  append_op, retrieve_op, take_all_op, run, run_queue, run_refines, read_fd_lem,
}

-- Two unread bytes at the end of a full vector.
abbrev full : Buffer
full = record { buffer = replicate 20 1 ++ (5 ∷ 6 ∷ []); reader_index = 20; writer_index = 22 }

full-IsValid : IsValid full
full-IsValid = omega arith

abbrev more : Bytes
more = 7 ∷ 8 ∷ []

read_fd_lem_example :
    (contents (read_fd (got more) full).2 ≡ contents full ++ more)
    × IsValid (read_fd (got more) full).2
    × ((read_fd (got more) full).0 ≡ some 2)
    × (length (drop (writable_bytes full) more) ≤ extra_size)
    × ((errno : ℕ) → read_fd (failed errno) full ≡ (none, errno, full))
unfolding iov_capacity writable_bytes
read_fd_lem_example = read_fd_lem more full-IsValid (omega arith) (omega arith)

run_refines_example :
    run (append_op (7 ∷ []) ∷ retrieve_op 1 ∷ take_all_op ∷ []) full ≡ [] ∷ [] ∷ (6 ∷ 7 ∷ []) ∷ []
unfolding run_queue window
run_refines_example =
    run_refines (append_op (7 ∷ []) ∷ retrieve_op 1 ∷ take_all_op ∷ []) full-IsValid
      (omega arith, (tt, (tt, tt)))
