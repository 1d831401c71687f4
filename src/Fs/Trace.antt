-- ===== src/Fs/Trace.antt =====
-- Calls of several clients of fs/operations.c. Each holds g_library_mutex from its first line to its
-- last, so they happen one after the other, in some order: a path of steps.
pub mod Clean
pub mod Behave
pub mod Outcome
pub mod Runs
use ex.Common.{ℕ, ◌+◌, ◌^◌, ◌<◌, ◌≤◌, ◌≡◌, subst, Option, List, [], ◌∷◌, length}
use ex.Common.Int.{ℤ, pos}
use ex.Fs.State.Types.{Fs}
use ex.Fs.State.Memory.{Text}
use ex.Fs.State.Monad
use ex.Fs.State.Monad.{M, Out, done, Returns, returns, pure, ◌>>=◌}
use ex.Fs.Ops.Mutex.{Pthread, IsPosix}
use ex.Fs.Ops.Open.{tfs_open, tfs_close}
use ex.Fs.Ops.Transfer.{tfs_write, tfs_read}
use ex.Fs.Ops.Unlink.{tfs_unlink}
use ex.Fs.Valid.{IsValid}
use ex.Fs.Safe.Finish.{Finished, IsString}
use ex.Fs.Safe.Open.{tfs_open-Finished}
use ex.Fs.Safe.Close.{tfs_close-Finished, tfs_unlink-Finished}
use ex.Fs.Safe.Write.{tfs_write-Counted}
use ex.Fs.Safe.Read.{IsWithin, tfs_read-Copied}

pub data Call : Type 0 where
  open_call : Option Text → ℕ → Call
  close_call : ℤ → Call
  write_call : ℤ → List ℕ → ℕ → Call
  read_call : ℤ → ℕ → Call
  unlink_call : Option Text → Call

-- A call, and its value.
abbrev pub perform : Pthread → Call → M ℤ
perform pt (open_call name mode) = tfs_open pt name mode
perform pt (close_call fhandle) = tfs_close pt fhandle
perform pt (write_call fhandle buffer to_write) = tfs_write pt fhandle buffer to_write
perform pt (read_call fhandle len) = do (r, bytes) ← tfs_read pt fhandle len; pure r
perform pt (unlink_call target) = tfs_unlink pt target

-- What a client has to see to: names are C strings, a write has its bytes, a read is not through a
-- handle behind the end of its file.
abbrev pub IsAllowed : Fs → Call → Type 0
IsAllowed s (open_call name mode) = IsString name
IsAllowed s (close_call fhandle) = Unit
IsAllowed s (write_call fhandle buffer to_write) =
    (to_write ≤ length buffer) × (to_write + s.fs_params.block_size < 2 ^ 64)
IsAllowed s (read_call fhandle len) = (h : ℕ) → fhandle ≡ pos h → IsWithin s h
IsAllowed s (unlink_call target) = IsString target

-- The states that calls lead to from `s`, each of which meets the condition `P` in its state.
pub data Reach (pt : Pthread) (P : Fs → Call → Type 0) (s : Fs) : Fs → Type 0 where
  start : Reach pt P s s
  next :
      {t u : Fs} {r : ℤ} (c : Call)
      → Reach pt P s t
      → P t c
      → perform pt c t ≡ done r u
      → Reach pt P s u

-- The calls and their values, the last one first.
abbrev pub history :
    {pt : Pthread} {P : Fs → Call → Type 0} {s t : Fs} → Reach pt P s t → List (Call × ℤ)
history start = []
history (next {r = r} c path p e) = (c, r) ∷ history path

-- What holds of the outcome of a call holds of its value and its state.
pub of_done :
    {Q : ℤ → Fs → Type 0} {r : ℤ} {t : Fs} {m : Out ℤ} → Returns Q m → m ≡ done r t → Q r t
of_done {Q} {r} {t} (returns {a = a} {s = z} q) e =
    let value : a ≡ r = cc in
    let state : z ≡ t = cc in subst (Q r) state (subst (λ x. Q x z) value q)

module _ {pt : Pthread} (posix : IsPosix pt) where
  pub perform-Finished :
      (c : Call) (s : Fs)
      → IsValid s
      → IsAllowed s c
      → Returns (λ r t. Finished pt t) (perform pt c s)
  perform-Finished (open_call name mode) s v a = tfs_open-Finished posix name mode s v a
  perform-Finished (close_call fhandle) s v a = tfs_close-Finished posix fhandle s v
  perform-Finished (write_call fhandle buffer w) s v a =
      Monad.mono (tfs_write-Counted posix fhandle buffer w s v a.0 a.1) (λ r t c. c.0)
  perform-Finished (read_call fhandle len) s v a =
      Monad.bind (tfs_read-Copied posix fhandle len s v a) (λ r t c. returns c.0)
  perform-Finished (unlink_call target) s v a = tfs_unlink-Finished posix target s v a

  pub perform-IsValid :
      {s t : Fs} {r : ℤ} (c : Call)
      → IsValid s
      → IsAllowed s c
      → perform pt c s ≡ done r t
      → IsValid t
  perform-IsValid {s} c v a e = (of_done (perform-Finished c s v a) e).valid

  -- The invariant: from a well-formed state, with mutex calls that do not return -1, any sequence of
  -- allowed calls of tfs_open, tfs_close, tfs_write, tfs_read and tfs_unlink leads to a well-formed
  -- state.
  pub Reach-IsValid : {s t : Fs} → IsValid s → Reach pt IsAllowed s t → IsValid t
  Reach-IsValid v start = v
  Reach-IsValid v (next c path allowed e) = perform-IsValid c (Reach-IsValid v path) allowed e
