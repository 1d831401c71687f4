-- ===== src/Process/Silent.antt =====
-- Runs that put no request into a pipe.
use ex.Common.{ℕ, suc, List, [], ◌∷◌}
use ex.Process.{
  Call, make_fifo, set_signal, open_pipe, set_nonblock, read_request, write_request, close_pipe,
  unlink_pipe, allocate, release, read_line, print, print_box, print_count, Out, done, stop,
}

-- The number of requests written.
abbrev pub sent : List Call → ℕ
sent [] = 0
sent (write_request fd r n ∷ cs) = suc (sent cs)
sent (make_fifo path ∷ cs) = sent cs
sent (set_signal ∷ cs) = sent cs
sent (open_pipe path access ∷ cs) = sent cs
sent (set_nonblock fd ∷ cs) = sent cs
sent (read_request fd ∷ cs) = sent cs
sent (close_pipe fd ∷ cs) = sent cs
sent (unlink_pipe path ∷ cs) = sent cs
sent (allocate ∷ cs) = sent cs
sent (release q ∷ cs) = sent cs
sent (read_line ∷ cs) = sent cs
sent (print line ∷ cs) = sent cs
sent (print_box name size publishers subscribers ∷ cs) = sent cs
sent (print_count n ∷ cs) = sent cs

-- The calls made by the end of a run, however it ends.
abbrev pub calls_of : {V A : Type 0} → Out V A → List Call
calls_of (done a p) = p.calls
calls_of (stop e p) = p.calls
