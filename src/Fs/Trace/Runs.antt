-- ===== src/Fs/Trace/Runs.antt =====
-- Sequences of clean calls of fs/operations.c: no block is lost, and their history is one of the map.
use ex.Common.{◌≡◌, ◌∙◌, refl, subst}
use ex.Fs.State.Types.{Fs, TfsParams}
use ex.Fs.Ops.Mutex.{Pthread, IsPosix}
use ex.Fs.Valid.{IsValid}
use ex.Fs.Valid.Tight.{IsTight}
use ex.Fs.View.{view}
use ex.Fs.Trace.{Reach, start, next, history, of_done}
use ex.Fs.Trace.Clean.{IsClean}
use ex.Fs.Trace.Behave.{Does, Run, nothing, later}
use ex.Fs.Trace.Outcome.{perform-Outcome}

-- What holds after a sequence of calls.
record Summary {pt : Pthread} {s t : Fs} (path : Reach pt IsClean s t) : Type 0 where
  pub valid : IsValid t
  pub same_params : t.fs_params ≡ s.fs_params
  pub no_leak : IsTight s → IsTight t
  pub run : Run s.fs_params.block_size (view s) (history path) (view t)

module _ {pt : Pthread} (posix : IsPosix pt) where
  Reach-Summary : {s t : Fs} → IsValid s → (path : Reach pt IsClean s t) → Summary path
  Reach-Summary v start = record {
    valid = v;
    same_params = refl;
    no_leak = λ tight. tight;
    run = nothing;
  }
  Reach-Summary {t = u} v (next {t = t} {r = r} c path clean e) =
      let before = Reach-Summary v path in
      let o = of_done (perform-Outcome posix before.valid c clean) e in
      record {
        valid = o.valid;
        same_params = o.lossless.same_params ∙ before.same_params;
        no_leak = λ tight. o.lossless.no_leak (before.no_leak tight);
        run = later before.run (
            subst (λ (p : TfsParams). Does p.block_size (view t) (view u) c r) before.same_params
              o.does);
      }

  -- No block is lost: from a well-formed state in which every block that is taken is the root
  -- directory's or that of a file in use which is not empty, with mutex calls that do not return -1,
  -- any sequence of allowed calls of tfs_open, tfs_close, tfs_write, tfs_read and tfs_unlink, in which
  -- every handle that a write or a read uses is closed, or its file has a name and its offset is not
  -- behind the end of the file, leads to a state in which every block that is taken is the root
  -- directory's or that of a file in use which is not empty.
  pub Reach-IsTight : {s t : Fs} → IsValid s → Reach pt IsClean s t → IsTight s → IsTight t
  Reach-IsTight v path = (Reach-Summary v path).no_leak

  -- The history of any such sequence of calls from a well-formed state, with mutex calls that do not
  -- return -1, is one that the map from names to bytes can have, from the map of the first state to
  -- that of the last: each call and its value is a step of the map for opening, unlinking or writing,
  -- a close or a read that leaves it as it is, where a read returns the number of bytes that the map
  -- has for a name from an offset on, or a call that is refused with -1 and leaves the map as it is.
  pub Reach-Run :
      {s t : Fs}
      → IsValid s
      → (path : Reach pt IsClean s t) → Run s.fs_params.block_size (view s) (history path) (view t)
  Reach-Run v path = (Reach-Summary v path).run
