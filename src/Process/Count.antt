-- ===== src/Process/Count.antt =====
-- The calls of a run, counted.
use ex.Common.{ℕ, suc, List, [], ◌∷◌}
use ex.Process.{
  Call, make_fifo, set_signal, open_pipe, set_nonblock, read_request, write_request, close_pipe,
  unlink_pipe, allocate, release, read_line, print, print_box, print_count,
}

-- The number of reads.
abbrev pub reads : List Call → ℕ
reads [] = 0
reads (read_request fd ∷ cs) = suc (reads cs)
reads (write_request fd r n ∷ cs) = reads cs
reads (make_fifo path ∷ cs) = reads cs
reads (set_signal ∷ cs) = reads cs
reads (open_pipe path access ∷ cs) = reads cs
reads (set_nonblock fd ∷ cs) = reads cs
reads (close_pipe fd ∷ cs) = reads cs
reads (unlink_pipe path ∷ cs) = reads cs
reads (allocate ∷ cs) = reads cs
reads (release q ∷ cs) = reads cs
reads (read_line ∷ cs) = reads cs
reads (print line ∷ cs) = reads cs
reads (print_box name size publishers subscribers ∷ cs) = reads cs
reads (print_count n ∷ cs) = reads cs

-- The number of lines printed for messages and responses.
abbrev pub printed : List Call → ℕ
printed [] = 0
printed (print line ∷ cs) = suc (printed cs)
printed (read_request fd ∷ cs) = printed cs
printed (write_request fd r n ∷ cs) = printed cs
printed (make_fifo path ∷ cs) = printed cs
printed (set_signal ∷ cs) = printed cs
printed (open_pipe path access ∷ cs) = printed cs
printed (set_nonblock fd ∷ cs) = printed cs
printed (close_pipe fd ∷ cs) = printed cs
printed (unlink_pipe path ∷ cs) = printed cs
printed (allocate ∷ cs) = printed cs
printed (release q ∷ cs) = printed cs
printed (read_line ∷ cs) = printed cs
printed (print_box name size publishers subscribers ∷ cs) = printed cs
printed (print_count n ∷ cs) = printed cs

-- The number of boxes listed.
abbrev pub listed : List Call → ℕ
listed [] = 0
listed (print line ∷ cs) = listed cs
listed (read_request fd ∷ cs) = listed cs
listed (write_request fd r n ∷ cs) = listed cs
listed (make_fifo path ∷ cs) = listed cs
listed (set_signal ∷ cs) = listed cs
listed (open_pipe path access ∷ cs) = listed cs
listed (set_nonblock fd ∷ cs) = listed cs
listed (close_pipe fd ∷ cs) = listed cs
listed (unlink_pipe path ∷ cs) = listed cs
listed (allocate ∷ cs) = listed cs
listed (release q ∷ cs) = listed cs
listed (read_line ∷ cs) = listed cs
listed (print_box name size publishers subscribers ∷ cs) = suc (listed cs)
listed (print_count n ∷ cs) = listed cs
