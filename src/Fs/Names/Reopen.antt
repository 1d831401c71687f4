-- ===== src/Fs/Names/Reopen.antt =====
-- A file that a client of fs/operations.c creates or empties, writes and closes, and what is read of it
-- when it is opened again.
use ex.Common.{
  ℕ, ◌<◌, ◌≤◌, ◌≡◌, ap, sym, ◌∙◌, subst, true, false, List, length, take, Option, if◌then◌else◌,
}
use ex.Common.Int.{ℤ, pos, minus_one, ◌==ℤ◌}
use ex.Fs.State.Types.{TfsParams, Fs, free, is_free}
use ex.Fs.State.Memory.{Text}
use ex.Fs.State.Monad
use ex.Fs.State.Monad.{M, done, both, Returns, returns, and_then, pure, ◌>>=◌}
use ex.Fs.Ops.Mutex.{Pthread, IsPosix, valid_pathname, skip_slash}
use ex.Fs.Ops.Open.{tfs_open, tfs_close, truncates}
use ex.Fs.Ops.Transfer.{tfs_write, tfs_read}
use ex.Fs.Valid.{IsValid}
use ex.Fs.Safe.Finish.{IsString}
use ex.Fs.Names.Existing.{Opened, Opened-Lossless}
use ex.Fs.Names.Held.{
  Emptied, not_emptied, emptied, tfs_open-Emptied, tfs_open-Reopened, tfs_read-Held,
}
use ex.Fs.Names.Stored.{Stored, Filled, full, filled, tfs_write-Filled, tfs_close-Stored}

-- How far a client gets, and the values of `tfs_write`, of `tfs_close`, of the second `tfs_open` and of
-- `tfs_read`, with the bytes.
pub data Report : Type 0 where
  no_file : Report
  no_room : Report
  read_back : (written closed again count : ℤ) → List ℕ → Report

-- The second open, and the read.
abbrev pub reread : Pthread → Option Text → ℕ → ℤ → ℤ → M Report
reread pt name len written closed = do
  again ← tfs_open pt name 0
  (count, bytes) ← tfs_read pt again len
  pure (read_back written closed again count bytes)

abbrev pub close_after : Pthread → Option Text → ℕ → ℤ → ℤ → M Report
close_after pt name len handle written =
    if written ==ℤ minus_one
    then pure no_room
    else (do closed ← tfs_close pt handle; reread pt name len written closed)

abbrev pub write_after : Pthread → Option Text → List ℕ → ℕ → ℕ → ℤ → M Report
write_after pt name buffer w len handle =
    if handle ==ℤ minus_one
    then pure no_file
    else (do written ← tfs_write pt handle buffer w; close_after pt name len handle written)

-- The client gives up if the first open or the write fails.
abbrev pub keep_bytes : Pthread → Option Text → ℕ → List ℕ → ℕ → ℕ → M Report
keep_bytes pt name mode buffer w len = do
  handle ← tfs_open pt name mode
  write_after pt name buffer w len handle

pub data IsKept (s : Fs) (nm : Text) (mode w len : ℕ) (buffer : List ℕ) : Report → Type 0 where
  not_opened : {t : Fs} → Opened s nm mode minus_one t → IsKept s nm mode w len buffer no_file
  not_written :
      {t : Fs} {h : ℕ}
      → Opened s nm mode (pos h) t
      → ((i : ℕ) → i < t.fs_params.max_block_count → is_free (t.free_blocks i) ≡ false)
      → IsKept s nm mode w len buffer no_room
  kept :
      {g : ℕ} {bytes : List ℕ}
      → bytes ≡ take len (take w buffer)
      → IsKept s nm mode w len buffer (read_back (pos w) (pos 0) (pos g) (pos (length bytes)) bytes)

module _ {pt : Pthread} (posix : IsPosix pt) (name : Option Text) (mode w len : ℕ) (buffer : List ℕ)
    (s : Fs) (v : IsValid s) (text : IsString name) (valid : valid_pathname name ≡ true)
    (empties : truncates mode ≡ true) (enough : w ≤ length buffer)
    (fits : w ≤ s.fs_params.block_size) where
  abbrev nm : Text
  nm = skip_slash name

  read_again :
      (h k : ℕ) {t : Fs}
      → Stored nm k h (take w buffer) free t
      → Returns (λ a z. IsKept s nm mode w len buffer a) (reread pt name len (pos w) (pos 0) t)
  read_again h k {t} a =
      Monad.bind (tfs_open-Reopened posix name t a.valid text valid h a.below a.handle a.found)
        (λ r z o. rw o.value (
          Monad.bind (tfs_read-Held posix len o.hold) (λ (count, bytes) y (value, slice).
            rw value (returns (kept (slice ∙ ap (take len) (o.same ∙ a.bytes_of)))))))

  close_then :
      (h k : ℕ) {t z : Fs} {r : ℤ}
      → Opened s nm mode (pos h) t
      → Filled nm t h k w buffer r z
      → Returns (λ a y. IsKept s nm mode w len buffer a) (close_after pt name len (pos h) r z)
  close_then h k o (full f) = returns (not_written o f)
  close_then h k o (filled value x) = rw value (
      Monad.bind (tfs_close-Stored posix x)
        (λ c y (closed, stored). rw closed (read_again h k stored)))

  write_then :
      {r : ℤ} {t : Fs}
      → Emptied nm s mode r t
      → Returns (λ a z. IsKept s nm mode w len buffer a) (write_after pt name buffer w len r t)
  write_then (not_emptied o) = returns (not_opened o)
  write_then {t = t} (emptied h k o a empty) =
      let room : w ≤ t.fs_params.block_size =
        subst (λ (p : TfsParams). w ≤ p.block_size) (sym (Opened-Lossless o).same_params) fits in
      Monad.bind (tfs_write-Filled a empty room posix enough) (λ r z x. close_then h k o x)

  -- A file keeps its bytes: in a well-formed state, with mutex calls that do not return -1, a valid path
  -- name, a mode with TFS_O_TRUNC, and bytes that the buffer has and that fit a block, a client returns
  -- that opens the file, writes the bytes, closes the handle, opens the file again and reads. Either the
  -- first open fails, as tfs_open may; or it succeeds, and then the write fails only if no block is
  -- free; or the write, the close and the second open succeed, with the number of bytes and 0 as the
  -- values of the first two, and the read gives as many of the written bytes as it asks for or as there
  -- are, and their number.
  pub keep_bytes-IsKept :
      Returns (λ a z. IsKept s nm mode w len buffer a) (keep_bytes pt name mode buffer w len s)
  keep_bytes-IsKept =
      Monad.bind (tfs_open-Emptied posix name s v text valid mode empties) (λ r t x. write_then x)
