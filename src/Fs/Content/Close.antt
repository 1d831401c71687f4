-- ===== src/Fs/Content/Close.antt =====
-- `tfs_close` of fs/operations.c on every handle.
use ex.Common.{ℕ, ◌<◌, ◌≡◌, ◌⊎◌, inl, inr, refl, ap, Option, none}
use ex.Common.Int.{ℤ, pos, minus_one}
use ex.Fs.State.Types.{Fs, AllocationState, free, taken}
use ex.Common.{update}
use ex.Fs.State.Monad.{Returns, returns, both}
use ex.Fs.State.Tables.{get_open_file_entry, release_entry}
use ex.Fs.Ops.Mutex.{Pthread, IsPosix}
use ex.Fs.Ops.Open.{close_entry, tfs_close}
use ex.Fs.Valid.{IsValid}
use ex.Fs.Safe.Finish.{Finished, locked_by, unlock_return-done, with_lock-done}
use ex.Fs.Safe.Close.{
  Entry, closed, opened, get_open_file_entry-Entry, remove-done, tfs_close-Finished,
}
use ex.Fs.Content.Read.{get_open_file_entry-open}
use ex.Fs.Content.Still.{SameStore, SameStore-tables}

-- The value and the state that `tfs_close` leaves behind.
pub data Closed (s : Fs) (fhandle : ℤ) : ℤ → Fs → Type 0 where
  released :
      {t : Fs} (h : ℕ)
      → fhandle ≡ pos h
      → h < s.fs_params.max_open_files_count
      → s.free_open_file_entries h ≡ taken
      → SameStore s t
      → t.open_file_table ≡ s.open_file_table
      → t.free_open_file_entries ≡ update s.free_open_file_entries h free
      → Closed s fhandle (pos 0) t
  not_open :
      {t : Fs}
      → ((h : ℕ)
          → fhandle ≡ pos h
          → h < s.fs_params.max_open_files_count
          → s.free_open_file_entries h ≡ free)
      → SameStore s t
      → t.open_file_table ≡ s.open_file_table
      → t.free_open_file_entries ≡ s.free_open_file_entries
      → Closed s fhandle minus_one t

AllocationState-cases : (st : AllocationState) → (st ≡ free) ⊎ (st ≡ taken)
AllocationState-cases free = inl refl
AllocationState-cases taken = inr refl

-- A handle that `get_open_file_entry` refuses has no open entry.
refused_free :
    (s : Fs) (fhandle : ℤ)
    → get_open_file_entry s fhandle ≡ none
    → (h : ℕ) → fhandle ≡ pos h
    → h < s.fs_params.max_open_files_count
    → s.free_open_file_entries h ≡ free
refused_free s fhandle e h q lt = elim (AllocationState-cases (s.free_open_file_entries h)) [
  | inl f ↦ f
  | inr t ↦ absurd (cc (e, ap (get_open_file_entry s) q, get_open_file_entry-open s h lt t))
]

module _ {pt : Pthread} (posix : IsPosix pt) where
  close_entry-Closed :
      (s : Fs) (fhandle : ℤ) {o : Option ℕ}
      → Entry (locked_by pt s) fhandle o
      → get_open_file_entry s fhandle ≡ o
      → Returns (Closed s fhandle) (close_entry pt fhandle o (locked_by pt s))
  unfolding close_entry
  close_entry-Closed s fhandle closed e =
      rw (unlock_return-done posix minus_one (locked_by pt s))
        (returns (not_open (refused_free s fhandle e) (SameStore-tables s _ _ _) refl refl))
  close_entry-Closed s fhandle (opened h q lt t) e =
      rw
        (
          q,
          remove-done posix (locked_by pt s) h lt t,
          unlock_return-done posix (pos 0) (release_entry h (locked_by pt s)),
        )
        (returns (released h refl lt t (SameStore-tables s _ _ _) refl refl))

  -- In a well-formed state, with mutex calls that do not return -1, `tfs_close` of any handle returns,
  -- leaves a well-formed state, and the mutex is free if its release returned 0. If the handle is the
  -- index of an open entry, the value is 0 and the entry is free afterwards; otherwise the value is -1
  -- and no entry changes. In both cases the other entries, all inodes, all blocks and their bytes stay.
  pub tfs_close-Closed :
      (fhandle : ℤ) (s : Fs)
      → IsValid s
      → Returns (λ r t. Closed s fhandle r t × Finished pt t) (tfs_close pt fhandle s)
  unfolding tfs_close get_open_file_entry
  tfs_close-Closed fhandle s v =
      both
        (rw (with_lock-done posix _ s)
          (close_entry-Closed s fhandle (get_open_file_entry-Entry (locked_by pt s) fhandle) refl))
        (tfs_close-Finished posix fhandle s v)
