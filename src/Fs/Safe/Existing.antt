-- ===== src/Fs/Safe/Existing.antt =====
-- `tfs_open` of a file that exists, in a well-formed state.
use ex.Common.{ℕ, ◌<◌, ◌≤◌, ◌≡◌, inl, inr, refl, arith, Bool-cases, lt→ltb, if◌then◌else◌}
use ex.Common.Int.{pos, minus_one}
use ex.Fs.State.Types.{Fs, taken}
use ex.Fs.State.Monad
use ex.Fs.State.Monad.{M, Out, done, Returns, returns, and_then, ◌>>=◌, ◌>>◌}
use ex.Fs.State.Tables.{inode_get, open_entry}
use ex.Fs.Ops.Mutex.{Pthread, IsPosix}
use ex.Fs.Ops.Open.{open_finish, open_existing, truncates, appends, truncate_inode}
use ex.Fs.Valid.{IsValid, InUse, HandleOk}
use ex.Fs.Valid.Alloc.{Allocated-then, add_to_open_file_table-Allocated}
use ex.Fs.Valid.Delete.{truncate_inode-Truncated}
use ex.Fs.Valid.Nodes.{HandlesOk-set}
use ex.Fs.Safe.Finish.{Finished, unlock_return-Finished}

-- `inode_get` of a valid inumber.
pub inode_get-done :
    (s : Fs) (k : ℕ) → k < s.fs_params.max_inode_count → inode_get (pos k) s ≡ done k s
unfolding inode_get
inode_get-done s k h = rw (lt→ltb _ _ h)

module _ {pt : Pthread} (posix : IsPosix pt) where
  pub open_entry-IsValid :
      {s : Fs} (k offset i : ℕ)
      → IsValid s
      → InUse s.fs_params s.freeinode_ts k
      → offset ≤ s.fs_params.block_size
      → IsValid (open_entry (pos k) offset i s)
  open_entry-IsValid {s} k offset i v u le = record {
    params = v.params;
    root = v.root;
    files = v.files;
    handles = HandlesOk-set v.handles i _ taken ok;
    dir = v.dir;
  }
    where
      ok : HandleOk s.fs_params s.inode_table (record { of_inumber = pos k; of_offset = offset })
      ok = record {
        number = refl;
        below = u.below;
        ne_root = u.ne_root;
        offset_le = le;
        file = v.files.file k u;
      }

  pub open_finish-Finished :
      {s : Fs} (k offset : ℕ)
      → IsValid s
      → InUse s.fs_params s.freeinode_ts k
      → offset ≤ s.fs_params.block_size
      → Returns (λ _ t. Finished pt t) (open_finish pt (pos k) offset s)
  unfolding open_finish
  open_finish-Finished {s} k offset v u le =
      Allocated-then _ (Returns (λ _ t. Finished pt t))
        (add_to_open_file_table-Allocated s (pos k) offset v.params.files_int)
        (λ _. unlock_return-Finished posix minus_one v)
        (λ i _. unlock_return-Finished posix (pos i) (open_entry-IsValid k offset i v u le))

  -- The file is truncated or not, and then opened.
  pub open_existing-Finished :
      {s : Fs} (k mode : ℕ)
      → IsValid s
      → InUse s.fs_params s.freeinode_ts k
      → Returns (λ _ t. Finished pt t) (open_existing pt (pos k) mode s)
  unfolding open_existing
  open_existing-Finished {s} k mode v u =
      rw (inode_get-done s k u.below)
        (Monad.bind truncation (λ _ t (vt, ut). open_finish-Finished k _ vt ut (offset_le t vt ut)))
    where
      truncation :
          Returns
            (λ _ t. IsValid t × InUse t.fs_params t.freeinode_ts k)
            ((if truncates mode then truncate_inode k else Monad.pure tt) s)
      truncation = elim (Bool-cases (truncates mode)) [
        | inl e ↦ rw e (Monad.mono (truncate_inode-Truncated v u) (λ _ t w. (w.valid, w.in_use)))
        | inr e ↦ rw e (returns (v, u))
      ]

      offset_le :
          (t : Fs)
          → IsValid t
          → InUse t.fs_params t.freeinode_ts k
          → (if appends mode then (t.inode_table k).i_size else 0) ≤ t.fs_params.block_size
      offset_le t vt ut = elim (Bool-cases (appends mode)) [
        | inl e ↦ rw e (vt.files.file k ut).size_le
        | inr e ↦ rw e (omega arith)
      ]
