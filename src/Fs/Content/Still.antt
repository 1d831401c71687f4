-- ===== src/Fs/Content/Still.antt =====
-- `tfs_close` and `tfs_read` of fs/operations.c leave files, names and blocks as they are.
use ex.Common.{
  ℕ, ◌+◌, ◌<◌, ◌≤◌, ◌≡◌, inl, inr, refl, Bool, Option, arith, Bool-cases, ltb, ltb→lt, update_self,
}
use ex.Common.Int.{ℤ, pos, minus_one}
use ex.Fs.State.Types.{Fs, free, taken, OpenFileEntry, AllocationState}
use ex.Fs.State.Monad
use ex.Fs.State.Monad.{M, done, Returns, returns}
use ex.Fs.State.Tables.{inode_get, release_entry}
use ex.Fs.Ops.Mutex.{Pthread, IsPosix, mutex_lock}
use ex.Fs.Ops.Open.{close_entry, tfs_close}
use ex.Fs.Ops.Transfer.{clip_read, read_entry, tfs_read}
use ex.Fs.Valid.{IsValid}
use ex.Fs.Safe.Clip.{clip_read_lem}
use ex.Fs.Safe.Finish.{IsValid-locked, locked_by, unlock_return-done, with_lock-done}
use ex.Fs.Safe.Existing.{inode_get-done}
use ex.Fs.Safe.Close.{Entry, closed, opened, get_open_file_entry-Entry, remove-done}
use ex.Fs.Safe.Read.{inode_of, IsWithin, read_block-done}
use ex.Fs.Content.Read.{get_open_file_entry-open}

-- The two states differ in nothing but the table of open files and the mutex.
pub record SameStore (s t : Fs) : Type 0 where
  pub same_params : t.fs_params ≡ s.fs_params
  pub same_data : t.fs_data ≡ s.fs_data
  pub same_nodes : t.inode_table ≡ s.inode_table
  pub same_inodes : t.freeinode_ts ≡ s.freeinode_ts
  pub same_blocks : t.free_blocks ≡ s.free_blocks

-- A new table of open files, and a new state of the mutex.
pub SameStore-tables :
    (s : Fs) (es : ℕ → OpenFileEntry) (states : ℕ → AllocationState) (b : Bool)
    → SameStore s (record s { open_file_table = es; free_open_file_entries = states; locked = b })
SameStore-tables s es states b = record {
  same_params = refl;
  same_data = refl;
  same_nodes = refl;
  same_inodes = refl;
  same_blocks = refl;
}

SameStore-of_locked : {s t : Fs} (b : Bool) → SameStore (record s { locked = b }) t → SameStore s t
SameStore-of_locked b w = record {
  same_params = w.same_params;
  same_data = w.same_data;
  same_nodes = w.same_nodes;
  same_inodes = w.same_inodes;
  same_blocks = w.same_blocks;
}

module _ {pt : Pthread} (posix : IsPosix pt) where
  close_entry-SameStore :
      {s : Fs} (fhandle : ℤ) {o : Option ℕ}
      → Entry s fhandle o
      → Returns (λ _ t. SameStore s t) (close_entry pt fhandle o s)
  unfolding close_entry
  close_entry-SameStore {s} fhandle closed =
      rw (unlock_return-done posix minus_one s) (returns (SameStore-tables s _ _ _))
  close_entry-SameStore {s} fhandle (opened h e lt t) =
      rw (e, remove-done posix s h lt t, unlock_return-done posix (pos 0) (release_entry h s))
        (returns (SameStore-tables s _ _ _))

  -- Closing any handle.
  pub tfs_close-SameStore :
      (fhandle : ℤ) (s : Fs) → Returns (λ _ t. SameStore s t) (tfs_close pt fhandle s)
  unfolding tfs_close
  tfs_close-SameStore fhandle s = rw (with_lock-done posix _ s) (
      Monad.mono (close_entry-SameStore fhandle (get_open_file_entry-Entry _ fhandle))
        (λ r t. SameStore-of_locked (locked_by pt s).locked))

  -- Closing an open handle frees it.
  pub tfs_close-freed :
      (h : ℕ) (s : Fs)
      → h < s.fs_params.max_open_files_count
      → s.free_open_file_entries h ≡ taken
      → Returns (λ r t. (r ≡ pos 0) × (t.free_open_file_entries h ≡ free)) (tfs_close pt (pos h) s)
  unfolding tfs_close close_entry
  tfs_close-freed h s lt t =
      rw
        (
          with_lock-done posix _ s,
          get_open_file_entry-open (locked_by pt s) h lt t,
          remove-done posix (locked_by pt s) h lt t,
          unlock_return-done posix (pos 0) (release_entry h (locked_by pt s)),
        )
        (returns (refl, update_self s.free_open_file_entries h free))

  read_entry-SameStore :
      {s : Fs} (fhandle : ℤ) (len : ℕ) {o : Option ℕ}
      → IsValid s
      → Entry s fhandle o
      → ((h : ℕ) → fhandle ≡ pos h → IsWithin s h)
      → Returns (λ _ t. SameStore s t) (read_entry pt len o s)
  unfolding read_entry
  read_entry-SameStore {s} fhandle len v closed within =
      rw (unlock_return-done posix) (returns (SameStore-tables s _ _ _))
  read_entry-SameStore {s} fhandle len v (opened h q lt t) within =
      let e = v.handles.handle h lt t in
      let f = e.file in
      let k = inode_of s h in
      let w = within h q in
      let found : inode_get (s.open_file_table h).of_inumber s ≡ done k s =
        rw e.number (inode_get-done s k e.below) in
      let n = clip_read (s.inode_table k).i_size (s.open_file_table h).of_offset len in
      let cut =
        clip_read_lem _ (s.open_file_table h).of_offset len w
          (omega (arith, f.size_le, v.params.block_size_fits)) in
      let fits : (s.open_file_table h).of_offset + n ≤ (s.inode_table k).i_size =
        omega (arith, cut, w) in
      rw found (elim (Bool-cases (ltb 0 n)) [
        | inl some_bytes ↦
            rw (some_bytes, read_block-done h n v lt t fits posix (ltb→lt _ _ some_bytes))
              (returns (SameStore-tables s _ _ _))
        | inr nothing ↦ rw (nothing, unlock_return-done posix) (returns (SameStore-tables s _ _ _))
      ])

  -- Reading through any handle that is not behind the end of its file.
  pub tfs_read-SameStore :
      (fhandle : ℤ) (len : ℕ) (s : Fs)
      → IsValid s
      → ((h : ℕ) → fhandle ≡ pos h → IsWithin s h)
      → Returns (λ _ t. SameStore s t) (tfs_read pt fhandle len s)
  unfolding tfs_read mutex_lock
  tfs_read-SameStore fhandle len s v w = rw posix.lock_ne (
      Monad.mono
        (read_entry-SameStore fhandle len (IsValid-locked _ v) (get_open_file_entry-Entry _ fhandle)
          w)
        (λ r t. SameStore-of_locked (locked_by pt s).locked))
